-- ===== src/Ini.antt =====
-- src/ini.c: sections of entries, and the reader of a configuration file.
pub mod Lookup
pub mod Sections
pub mod First
use dunst.Base.{
  ℕ, zero, suc, Bool, true, false, not, ◌&&◌, ◌||◌, Option, none, some, is_some, List, [], ◌∷◌,
  ◌++◌, reverse, take, drop, Str, CString, str_eq, strchr, skip_while, g_ascii_isspace, ◌==◌,
  if◌then◌else◌,
}
use dunst.Utils.{string_strip_quotes}

-- struct entry
pub record Entry : Type 0 where
  pub key : Str
  pub value : Str

-- struct section
pub record Section : Type 0 where
  pub name : Str
  pub entries : List Entry

-- struct ini, whose only content is the array of sections.
abbrev pub Ini : Type 0
Ini = List Section

unfoldable pub get_section : Ini → Str → Option Section
get_section [] name = none
get_section (s ∷ ini) name =
    let later = get_section ini name in if str_eq s.name name then some s else later

-- get_or_create_section with the write through the pointer that it gives: the entry goes to the
-- end of the first section of the name, or into a new section at the end.
unfoldable pub append_entry : Ini → Str → Entry → Ini
append_entry [] name entry = record { name = name; entries = entry ∷ [] } ∷ []
append_entry (s ∷ ini) name entry =
    let later = append_entry ini name entry in
    if str_eq s.name name then record s { entries = s.entries ++ entry ∷ [] } ∷ ini else s ∷ later

unfoldable pub add_entry : Ini → Str → Str → Str → Ini
unfolding append_entry string_strip_quotes
add_entry ini section_name key value =
    append_entry ini section_name (record { key = key; value = string_strip_quotes value })

unfoldable pub value_in : List Entry → Str → CString
value_in [] key = none
value_in (e ∷ entries) key =
    let later = value_in entries key in if str_eq e.key key then some e.value else later

unfoldable pub section_get_value : Option Section → Str → CString
unfolding value_in
section_get_value none key = none
section_get_value (some s) key = value_in s.entries key

unfoldable pub get_value : Ini → Str → Str → CString
unfolding get_section section_get_value
get_value ini section key = section_get_value (get_section ini section) key

unfoldable pub ini_is_set : Ini → Str → Str → Bool
unfolding get_value
ini_is_set ini section key = is_some (get_value ini section key)

-- The name of the section after the first one of a name.
unfoldable pub section_after : Ini → Str → CString
section_after [] section = none
section_after (s ∷ []) section = none
section_after (s ∷ t ∷ ini) section =
    let later = section_after (t ∷ ini) section in
    if str_eq section s.name then some t.name else later

unfoldable pub next_section : Ini → CString → CString
unfolding section_after
next_section [] section = none
next_section (s ∷ ini) none = some s.name
next_section (s ∷ ini) (some section) = section_after (s ∷ ini) section

-- g_strstrip
unfoldable pub strip_spaces : Str → Str
unfolding skip_while
strip_spaces s = reverse (skip_while g_ascii_isspace (reverse (skip_while g_ascii_isspace s)))

-- The bytes before the first one of a comment: strpbrk(s, "#;") and the 0 that is written there.
unfoldable pub cut_comment : Str → Str
cut_comment [] = []
cut_comment (c ∷ s) = let rest = cut_comment s in if c == b'#' || c == b';' then [] else c ∷ rest

-- The value without its comment. One that is in quotes may hold the bytes that begin a comment;
-- `none` is a quote that is not closed.
unfoldable pub cut_value : Str → CString
unfolding strchr cut_comment
cut_value value = elim (strchr value b'"') [
  | none ↦ some (cut_comment value)
  | some quote ↦ elim (strchr (drop (suc quote) value) b'"') [
    | none ↦ none
    | some length_inside ↦
        let end = suc quote in
        some (
          take end value
          ++ (take length_inside (drop end value)
              ++ cut_comment (drop length_inside (drop end value))))
  ]
]

-- The state of the loop of load_ini_file.
pub record Loading : Type 0 where
  pub ini : Ini
  pub current_section : CString

-- A line with a key: `start` is stripped and not empty. The `=` is looked for after the first byte.
unfoldable pub load_pair : Str → Loading → Loading
unfolding strchr strip_spaces cut_value add_entry
load_pair start s = elim (strchr (drop 1 start) b'=') [
  | none ↦ s
  | some k ↦
      let key = strip_spaces (take (suc k) start) in
      elim (cut_value (strip_spaces (drop (suc (suc k)) start))) [
        | none ↦ s
        | some value ↦ elim s.current_section [
          | none ↦ s
          | some section ↦ record s { ini = add_entry s.ini section key (strip_spaces value) }
        ]
      ]
]

unfoldable pub load_header : Str → Loading → Loading
unfolding strchr
load_header start s = elim (strchr (drop 1 start) b']') [
  | none ↦ s
  | some k ↦ record s { current_section = some (take k (drop 1 start)) }
]

-- The body of the loop, on a line that is stripped.
unfoldable pub load_line : Str → Loading → Loading
unfolding load_pair load_header
load_line [] s = s
load_line (c ∷ rest) s =
    if c == b';' || c == b'#'
    then s
    else if c == b'['
    then load_header (c ∷ rest) s
    else load_pair (c ∷ rest) s

unfoldable pub load_lines : List Str → Loading → Loading
unfolding load_line strip_spaces
load_lines [] s = s
load_lines (line ∷ lines) s = load_lines lines (load_line (strip_spaces line) s)

-- `lines` is what getline gives, line by line.
unfoldable pub load_ini_file : List Str → Ini
unfolding load_lines
load_ini_file lines = (load_lines lines (record { ini = []; current_section = none })).ini
