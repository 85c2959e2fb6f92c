-- ===== src/Ini/Lookup.antt =====
-- What the configuration holds after entries are added and after a file is read (src/ini.c).
use dunst.Base.{
  Bool, true, false, Bool-cases, none, some, List, [], ◌∷◌, ◌++◌, Str, CString, str_eq, str_eq_iff,
  ◌&&◌, if◌then◌else◌, ◌≡◌, refl, sym, ap, ◌∙◌, inl, inr, arith,
}
use dunst.Utils.{string_strip_quotes}
use dunst.Ini.{
  Entry, Ini, get_section, append_entry, add_entry, value_in, section_get_value, get_value,
}

-- The first of two values that is there.
abbrev pub first_of : CString → CString → CString
first_of (some v) w = some v
first_of none w = w

value_in-append :
    (es : List Entry) (e : Entry) (key : Str)
    → value_in (es ++ e ∷ []) key
      ≡ first_of (value_in es key) (if str_eq e.key key then some e.value else none)
unfolding value_in
value_in-append [] e key = ground arith
value_in-append (f ∷ es) e key = ground (arith, value_in-append es e key)

-- One section name is another's in the whole of the search.
str_eq_refl : (s : Str) → str_eq s s ≡ true
str_eq_refl s = (str_eq_iff s s).1 refl

-- Where a section is looked for that is not the one that the entry goes to.
get_section-other :
    (ini : Ini) (name other : Str) (e : Entry)
    → str_eq name other ≡ false
    → get_section (append_entry ini name e) other ≡ get_section ini other
unfolding get_section append_entry
get_section-other [] name other e h = rw h refl
get_section-other (s ∷ ini) name other e h = elim (Bool-cases (str_eq s.name name)) [
  | inl a ↦
      let b : str_eq s.name other ≡ false = cc ((str_eq_iff s.name name).0 a, h) in rw (a, b) refl
  | inr a ↦ rw (a, get_section-other ini name other e h) refl
]

get_section-same :
    (ini : Ini) (name : Str) (e : Entry) (key : Str)
    → section_get_value (get_section (append_entry ini name e) name) key
      ≡ first_of
          (section_get_value (get_section ini name) key)
          (if str_eq e.key key then some e.value else none)
unfolding get_section append_entry section_get_value
get_section-same [] name e key = rw (str_eq_refl name) (unfold value_in in ground arith)
get_section-same (s ∷ ini) name e key = elim (Bool-cases (str_eq s.name name)) [
  | inl a ↦ rw (a, a) (value_in-append s.entries e key)
  | inr a ↦ rw (a, a) (get_section-same ini name e key)
]

first_of_if :
    (x : CString) (v : Str) (b : Bool)
    → first_of x (if b then some v else none) ≡ (if b then first_of x (some v) else x)
first_of_if none v true = refl
first_of_if none v false = refl
first_of_if (some x) v true = refl
first_of_if (some x) v false = refl

lookup-append_entry :
    (ini : Ini) (name : Str) (e : Entry) (name' key : Str)
    → section_get_value (get_section (append_entry ini name e) name') key ≡ (
        if str_eq name name' && str_eq e.key key
        then first_of (section_get_value (get_section ini name') key) (some e.value)
        else section_get_value (get_section ini name') key)
lookup-append_entry ini name e name' key = elim (Bool-cases (str_eq name name')) [
  | inr a ↦ rw a (ap (λ s. section_get_value s key) (get_section-other ini name name' e a))
  | inl a ↦
      let same = (str_eq_iff name name').0 a in
      let before : Str → CString = λ n. section_get_value (get_section ini n) key in
      rw a (
        ap (λ n. section_get_value (get_section (append_entry ini name e) n) key) (sym same)
        ∙ get_section-same ini name e key
        ∙ ap (λ n. first_of (before n) (if str_eq e.key key then some e.value else none)) same
        ∙ first_of_if (before name') e.value (str_eq e.key key))
]

-- Adding an entry gives its key a value, without the quotes around it, if the key had none in the
-- section, and leaves the first value otherwise; every other key of every section keeps its value.
pub get_value-add_entry :
    (ini : Ini) (section key value : Str) (section' key' : Str)
    → get_value (add_entry ini section key value) section' key' ≡ (
        if str_eq section section' && str_eq key key'
        then first_of (get_value ini section' key') (some (string_strip_quotes value))
        else get_value ini section' key')
unfolding get_value add_entry
get_value-add_entry ini section key value section' key' =
    lookup-append_entry ini section (record { key = key; value = string_strip_quotes value })
      section' key'
