-- ===== src/Ini/First.antt =====
-- What a configuration file means, without the sections that src/ini.c builds: a list of
-- assignments, the first of which counts.
use dunst.Base.{
  suc, Bool, true, false, Bool-cases, none, some, Option-cases, List, [], ◌∷◌, Str, CString, str_eq,
  strchr, drop, take, ◌&&◌, ◌||◌, ◌==◌, if◌then◌else◌, ◌≡◌, refl, sym, ap, ◌∙◌, inl, inr,
}
use dunst.Utils.{string_strip_quotes}
use dunst.Ini.{
  Ini, add_entry, get_section, section_get_value, get_value, Loading, load_pair, load_header,
  load_line, load_lines, load_ini_file, strip_spaces, cut_value,
}
use dunst.Ini.Lookup.{first_of, get_value-add_entry}

-- What one line says.
pub data Event : Type 0 where
  nothing : Event
  header : Str → Event
  pair : Str → Str → Event

unfoldable pub pair_event : Str → Event
unfolding strchr strip_spaces cut_value
pair_event start = elim (strchr (drop 1 start) b'=') [
  | none ↦ nothing
  | some k ↦ elim (cut_value (strip_spaces (drop (suc (suc k)) start))) [
    | none ↦ nothing
    | some value ↦ pair (strip_spaces (take (suc k) start)) (strip_spaces value)
  ]
]

unfoldable pub header_event : Str → Event
unfolding strchr
header_event start = elim (strchr (drop 1 start) b']') [
  | none ↦ nothing
  | some k ↦ header (take k (drop 1 start))
]

unfoldable pub event : Str → Event
unfolding pair_event header_event
event [] = nothing
event (c ∷ rest) =
    if c == b';' || c == b'#'
    then nothing
    else if c == b'['
    then header_event (c ∷ rest)
    else pair_event (c ∷ rest)

-- The value that the lines give a key of a section, when the lines above them stand in `current`:
-- that of the first pair with the key below a header with the name. A pair above every header
-- counts for nothing.
unfoldable pub meaning : Str → Str → CString → List Event → CString
meaning section key current [] = none
meaning section key current (nothing ∷ rest) = meaning section key current rest
meaning section key current (header name ∷ rest) = meaning section key (some name) rest
meaning section key none (pair k v ∷ rest) = meaning section key none rest
meaning section key (some name) (pair k v ∷ rest) =
    let later = meaning section key (some name) rest in
    if str_eq name section && str_eq k key then some (string_strip_quotes v) else later

unfoldable pub events : List Str → List Event
unfolding event strip_spaces
events [] = []
events (line ∷ lines) = event (strip_spaces line) ∷ events lines

-- A step of the loop, on what the line says.
apply_event : Event → Loading → Loading
unfolding add_entry
apply_event nothing s = s
apply_event (header name) s = record s { current_section = some name }
apply_event (pair k v) s = elim s.current_section [
  | none ↦ s
  | some section ↦ record s { ini = add_entry s.ini section k v }
]

load_pair-event : (start : Str) (s : Loading) → load_pair start s ≡ apply_event (pair_event start) s
unfolding load_pair pair_event apply_event
load_pair-event start s = elim (Option-cases (strchr (drop 1 start) b'=')) [
  | inl absent ↦ rw (load_pair, pair_event, absent) refl
  | inr (k, here) ↦ elim (Option-cases (cut_value (strip_spaces (drop (suc (suc k)) start)))) [
    | inl open_quote ↦ rw (load_pair, pair_event, here) (rw open_quote refl)
    | inr (value, cut) ↦ rw (load_pair, pair_event, here) (rw cut refl)
  ]
]

load_header-event :
    (start : Str) (s : Loading) → load_header start s ≡ apply_event (header_event start) s
unfolding load_header header_event apply_event
load_header-event start s = elim (Option-cases (strchr (drop 1 start) b']')) [
  | inl absent ↦ rw (load_header, header_event, absent) refl
  | inr (k, here) ↦ rw (load_header, header_event, here) refl
]

apply-if :
    (b : Bool) (x y : Event) (s : Loading)
    → apply_event (if b then x else y) s ≡ (if b then apply_event x s else apply_event y s)
apply-if true x y s = refl
apply-if false x y s = refl

load_line-event : (line : Str) (s : Loading) → load_line line s ≡ apply_event (event line) s
unfolding load_line event apply_event
load_line-event [] s = refl
load_line-event (c ∷ rest) s = elim (Bool-cases (c == b';' || c == b'#')) [
  | inl comment ↦ rw (load_line, event, comment) refl
  | inr other ↦ elim (Bool-cases (c == b'[')) [
    | inl opens ↦ rw (load_line, event, other) (rw opens (load_header-event (c ∷ rest) s))
    | inr key ↦ rw (load_line, event, other) (rw key (load_pair-event (c ∷ rest) s))
  ]
]

first_of-if :
    (x : CString) (v : Str) (b : Bool) (w : CString)
    → first_of (if b then first_of x (some v) else x) w ≡ first_of x (if b then some v else w)
first_of-if none v true w = refl
first_of-if none v false w = refl
first_of-if (some x) v true w = refl
first_of-if (some x) v false w = refl

-- One step, seen by a key.
abbrev Agrees : Event → Type 0
Agrees ev =
    (rest : List Event) (ini : Ini) (current : CString) (section key : Str)
    → let v = apply_event ev (record { ini = ini; current_section = current }) in
      first_of (get_value v.ini section key) (meaning section key v.current_section rest)
      ≡ first_of (get_value ini section key) (meaning section key current (ev ∷ rest))

pair-Agrees : (k v : Str) → Agrees (pair k v)
unfolding apply_event meaning
pair-Agrees k v rest ini none section key = refl
pair-Agrees k v rest ini (some name) section key =
    let before = get_value ini section key in
    let later = meaning section key (some name) rest in
    ap (λ x. first_of x later) (get_value-add_entry ini name k v section key)
    ∙ first_of-if before (string_strip_quotes v) (str_eq name section && str_eq k key) later

event-Agrees : (ev : Event) → Agrees ev
unfolding apply_event meaning
event-Agrees nothing rest ini current section key = refl
event-Agrees (header name) rest ini current section key = refl
event-Agrees (pair k v) rest ini current section key = pair-Agrees k v rest ini current section key

load_lines-meaning :
    (lines : List Str) (s : Loading) (section key : Str)
    → get_value (load_lines lines s).ini section key
      ≡ first_of
          (get_value s.ini section key)
          (meaning section key s.current_section (events lines))
unfolding load_lines events
load_lines-meaning [] s section key =
    unfold meaning in sym (first_of-none (get_value s.ini section key))
  where
    first_of-none : (x : CString) → first_of x none ≡ x
    first_of-none none = refl
    first_of-none (some v) = refl
load_lines-meaning (line ∷ lines) s section key =
    let ev = event (strip_spaces line) in
    ap (λ v. get_value (load_lines lines v).ini section key) (load_line-event (strip_spaces line) s)
    ∙ load_lines-meaning lines (apply_event ev s) section key
    ∙ event-Agrees ev (events lines) s.ini s.current_section section key

-- A file is read as the list of its assignments says: the value of a key in a section is that of
-- the first line with the key below a header with the section's name, without the quotes around
-- it; headers of one name are one section, and a pair above every header counts for nothing.
pub load_ini_file-meaning :
    (lines : List Str) (section key : Str)
    → get_value (load_ini_file lines) section key ≡ meaning section key none (events lines)
unfolding load_ini_file get_value get_section section_get_value
load_ini_file-meaning lines section key =
    load_lines-meaning lines (record { ini = []; current_section = none }) section key ∙ refl
