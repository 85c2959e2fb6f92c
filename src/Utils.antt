-- ===== src/Utils.antt =====
-- src/utils.c: the string helpers.
pub mod Replace
use dunst.Base.{
  ℕ, zero, suc, ◌+◌, ◌-◌, Bool, true, false, ◌&&◌, ◌||◌, none, some, List, [], ◌∷◌, ◌++◌, length,
  take, drop, drop_last, last_or, Str, CString, codes, str_eq, strstr, has_prefix, ltb, ◌==◌,
  if◌then◌else◌, isspace, isdigit, skip_while,
}

-- The loop puts the replacement at each occurrence of the needle in turn.
unfoldable pub string_replace_char : ℕ → ℕ → Str → Str
string_replace_char needle replacement [] = []
string_replace_char needle replacement (c ∷ s) =
    (if c == needle then replacement else c) ∷ string_replace_char needle replacement s

-- The bytes before `pos`, the replacement, and the bytes after the `len` that it replaces.
unfoldable pub string_replace_at : Str → ℕ → ℕ → Str → Str
string_replace_at buf pos len repl = take pos buf ++ (repl ++ drop (pos + len) buf)

-- `while (start)` of string_replace_all: `from` is the offset at which strstr looks next.
unfoldable pub replace_loop : ℕ → Str → Str → Str → ℕ → Str
replace_loop zero needle repl haystack from = haystack
replace_loop (suc fuel) needle repl haystack from = elim (strstr (drop from haystack) needle) [
  | none ↦ haystack
  | some k ↦
      replace_loop fuel needle repl (string_replace_at haystack (from + k) (length needle) repl)
        (from + k + length repl)
]

-- Each round leaves fewer bytes to look at, so the length of the text is fuel enough.
unfoldable pub string_replace_all : Str → Str → Str → Str
unfolding replace_loop string_replace_at strstr
string_replace_all needle repl haystack =
    if length needle == 0
    then haystack
    else replace_loop (suc (length haystack)) needle repl haystack 0

unfoldable pub string_append : CString → CString → CString → CString
string_append none b sep = b
string_append (some []) b sep = b
string_append (some (c ∷ a)) none sep = some (c ∷ a)
string_append (some (c ∷ a)) (some []) sep = some (c ∷ a)
string_append (some (c ∷ a)) (some (d ∷ b)) none = some ((c ∷ a) ++ (d ∷ b))
string_append (some (c ∷ a)) (some (d ∷ b)) (some sep) = some ((c ∷ a) ++ (sep ++ (d ∷ b)))

-- g_strndup(value + 1, len - 2), where the first and the last byte are delimiters. For a lone quote
-- the length would wrap to SIZE_MAX; load_ini_file passes no such value.
abbrev inside : Str → Str
inside [] = []
inside (c ∷ []) = []
inside (c ∷ d ∷ s) = drop_last (d ∷ s)

abbrev enclosed : ℕ → ℕ → Str → Bool
enclosed open_byte close_byte [] = false
enclosed open_byte close_byte (c ∷ s) = c == open_byte && last_or c s == close_byte

unfoldable pub string_strip_quotes : Str → Str
string_strip_quotes value = if enclosed b'"' b'"' value then inside value else value

unfoldable pub string_strip_brackets : CString → CString
string_strip_brackets none = none
string_strip_brackets (some s) = if enclosed b'(' b')' s then some (inside s) else none

-- The variables of string_strip_delimited's loop: the open delimiters, the bytes to put back at
-- the end, and the text written so far. `str` before `iwrite` is the text written.
pub record Strip : Type 0 where
  pub copen : ℕ
  pub cskip : ℕ
  pub written : Str

unfoldable pub strip_byte : ℕ → ℕ → ℕ → Strip → Strip
strip_byte a b c s =
    if c == a
    then record s { copen = suc s.copen; cskip = suc s.cskip }
    else if c == b && ltb 0 s.copen
    then record s { copen = s.copen - 1; cskip = if ltb 1 s.copen then suc s.cskip else s.cskip }
    else if s.copen == 0
    then record s { cskip = 0; written = s.written ++ c ∷ [] }
    else record s { cskip = suc s.cskip }

unfoldable pub strip_loop : ℕ → ℕ → Str → Strip → Strip
unfolding strip_byte
strip_loop a b [] s = s
strip_loop a b (c ∷ rest) s = strip_loop a b rest (strip_byte a b c s)

unfoldable pub string_strip_delimited : Str → ℕ → ℕ → Str
unfolding strip_loop
string_strip_delimited str a b =
    let s = strip_loop a b str (record { copen = 0; cskip = 0; written = [] }) in
    if ltb 0 s.copen then s.written ++ drop (length str - s.cskip) str else s.written

-- A path begins with "/", "~", "../" or "./".
unfoldable pub is_like_path : Str → Bool
is_like_path s =
    has_prefix s (codes "/")
    || has_prefix s (codes "~")
    || has_prefix s (codes "../")
    || has_prefix s (codes "./")

unfoldable pub string_is_int : CString → Bool
string_is_int none = true
string_is_int (some s) = elim (skip_while isspace (skip_while isdigit (skip_while isspace s))) [
  | [] ↦ true
  | _ ∷ _ ↦ false
]

abbrev pub special_sections : List Str
special_sections =
    codes "global"
    ∷ codes "frame"
    ∷ codes "experimental"
    ∷ codes "shortcuts"
    ∷ codes "urgency_low"
    ∷ codes "urgency_normal"
    ∷ codes "urgency_critical"
    ∷ []

abbrev pub deprecated_sections : List Str
deprecated_sections = codes "frame" ∷ codes "shortcuts" ∷ []

unfoldable pub one_of : Str → List Str → Bool
one_of s [] = false
one_of s (t ∷ ts) = str_eq t s || one_of s ts

unfoldable pub is_special_section : Str → Bool
unfolding one_of str_eq
is_special_section s = one_of s special_sections

unfoldable pub is_deprecated_section : Str → Bool
unfolding one_of str_eq
is_deprecated_section s = one_of s deprecated_sections
