-- ===== src/Ini/Sections.antt =====
-- The sections of a configuration that is read from a file, and the walk over them (src/ini.c).
use dunst.Base.{
  ℕ, suc, ◌+◌, ◌≤◌, true, false, Bool-cases, some, Option-cases, List, [], ◌∷◌, ◌++◌, Str, str_eq,
  str_eq_iff, strchr, drop, take, ◌&&◌, ◌==◌, if◌then◌else◌, ◌≡◌, refl, sym, ap, inl, inr, arith,
}
use dunst.Utils.{string_strip_quotes}
use dunst.Ini.{
  Entry, Section, Ini, append_entry, add_entry, section_after, next_section, Loading, load_pair,
  load_header, load_line, load_lines, load_ini_file, strip_spaces, cut_value,
}

-- How many sections have a name.
unfoldable pub times : Str → Ini → ℕ
times name [] = 0
times name (s ∷ ini) = (if str_eq s.name name then 1 else 0) + times name ini

abbrev pub HasUniqueNames : Ini → Type 0
HasUniqueNames ini = (name : Str) → times name ini ≤ 1

times-append : (name : Str) (xs ys : Ini) → times name (xs ++ ys) ≡ times name xs + times name ys
unfolding times
times-append name [] ys = omega arith
times-append name (s ∷ xs) ys = omega (arith, times-append name xs ys)

-- A name that is new comes in once; the number of sections of every other name stays.
times-append_entry :
    (ini : Ini) (name : Str) (e : Entry) (n : Str)
    → times n (append_entry ini name e)
      ≡ (if str_eq name n && (times n ini == 0) then 1 else times n ini)
unfolding times append_entry
times-append_entry [] name e n = ground arith
times-append_entry (s ∷ ini) name e n = elim (Bool-cases (str_eq s.name name)) [
  | inl a ↦
      let same : str_eq s.name n ≡ str_eq name n =
        ap (λ m. str_eq m n) ((str_eq_iff s.name name).0 a) in
      rw a (ground (arith, same))
  | inr a ↦
      let apart : str_eq name n ≡ true → str_eq s.name n ≡ false =
        λ h. cc ((str_eq_iff name n).0 h, a) in
      rw a (ground (arith, times-append_entry ini name e n, apart))
]

add_entry-HasUniqueNames :
    (ini : Ini) (section key value : Str)
    → HasUniqueNames ini
    → HasUniqueNames (add_entry ini section key value)
unfolding add_entry
add_entry-HasUniqueNames ini section key value u n =
    let e : Entry = record { key = key; value = string_strip_quotes value } in
    ground (arith, times-append_entry ini section e n, u n)

load_pair-HasUniqueNames :
    (start : Str) (s : Loading) → HasUniqueNames s.ini → HasUniqueNames (load_pair start s).ini
unfolding load_pair
load_pair-HasUniqueNames start s u = elim (Option-cases (strchr (drop 1 start) b'=')) [
  | inl h ↦ rw (h, load_pair) u
  | inr (k, h) ↦
      let raw = strip_spaces (drop (suc (suc k)) start) in
      elim (Option-cases (cut_value raw)) [
        | inl open_quote ↦ rw (h, open_quote, load_pair) u
        | inr (value, cut) ↦ elim (Option-cases s.current_section) [
          | inl outside ↦ rw (h, cut, outside, load_pair) u
          | inr (section, inside) ↦
              rw (h, cut, inside, load_pair)
                (add_entry-HasUniqueNames s.ini section (strip_spaces (take (suc k) start))
                  (strip_spaces value) u)
        ]
      ]
]

load_header-ini : (start : Str) (s : Loading) → (load_header start s).ini ≡ s.ini
unfolding load_header
load_header-ini start s = ground arith

load_line-HasUniqueNames :
    (line : Str) (s : Loading) → HasUniqueNames s.ini → HasUniqueNames (load_line line s).ini
unfolding load_line
load_line-HasUniqueNames [] s u = u
load_line-HasUniqueNames (c ∷ rest) s u =
    let header = load_header-ini (c ∷ rest) s in
    let pair = load_pair-HasUniqueNames (c ∷ rest) s u in λ n. ground (arith, header, pair n, u n)

load_lines-HasUniqueNames :
    (lines : List Str) (s : Loading)
    → HasUniqueNames s.ini
    → HasUniqueNames (load_lines lines s).ini
unfolding load_lines
load_lines-HasUniqueNames [] s u = u
load_lines-HasUniqueNames (line ∷ lines) s u =
    load_lines-HasUniqueNames lines _ (load_line-HasUniqueNames (strip_spaces line) s u)

times_self : (before rest : Ini) (s : Section) → 1 ≤ times s.name (before ++ s ∷ rest)
times_self before rest s =
    let here : times s.name (s ∷ rest) ≡ 1 + times s.name rest =
      unfold times in rw ((str_eq_iff s.name s.name).1 refl) refl in
    omega (arith, times-append s.name before (s ∷ rest), here)

apart_before :
    (b : Section) (ini : Ini) (name : Str)
    → times name (b ∷ ini) ≤ 1
    → 1 ≤ times name ini
    → str_eq name b.name ≡ false
unfolding times
apart_before b ini name h k = elim (Bool-cases (str_eq name b.name)) [
  | inr a ↦ a
  | inl a ↦
      let back = (str_eq_iff b.name name).1 (sym ((str_eq_iff name b.name).0 a)) in
      absurd (ground (arith, back))
]

times_tail : (b : Section) (ini : Ini) (name : Str) → times name ini ≤ times name (b ∷ ini)
unfolding times
times_tail b ini name = ground arith

section_after-next :
    (before after : Ini) (s t : Section)
    → HasUniqueNames (before ++ s ∷ t ∷ after)
    → section_after (before ++ s ∷ t ∷ after) s.name ≡ some t.name
unfolding section_after
section_after-next [] after s t u = rw ((str_eq_iff s.name s.name).1 refl) refl
section_after-next (b ∷ []) after s t u =
    rw
      (
        apart_before b (s ∷ t ∷ after) s.name (u s.name) (times_self [] (t ∷ after) s),
        (str_eq_iff s.name s.name).1 refl,
      )
      refl
section_after-next (b ∷ b' ∷ before) after s t u =
    let rest = b' ∷ before ++ s ∷ t ∷ after in
    rw (apart_before b rest s.name (u s.name) (times_self (b' ∷ before) (t ∷ after) s)) (
      section_after-next (b' ∷ before) after s t
        (λ name. omega (arith, u name, times_tail b rest name)))

-- The walk over the sections goes from each one to the one after it, if no name is there twice.
pub next_section-next :
    (before after : Ini) (s t : Section)
    → HasUniqueNames (before ++ s ∷ t ∷ after)
    → next_section (before ++ s ∷ t ∷ after) (some s.name) ≡ some t.name
unfolding next_section
next_section-next [] after s t u = section_after-next [] after s t u
next_section-next (b ∷ before) after s t u = section_after-next (b ∷ before) after s t u

-- A configuration that is read from a file has no two sections of one name, whatever the lines.
pub load_ini_file-HasUniqueNames : (lines : List Str) → HasUniqueNames (load_ini_file lines)
unfolding load_ini_file
load_ini_file-HasUniqueNames lines =
    load_lines-HasUniqueNames lines _ (λ n. unfold times in omega arith)
