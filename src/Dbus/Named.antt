-- ===== src/Dbus/Named.antt =====
-- The names that src/dbus.c gives the enumerations of a rule, read by src/option_parser.c.
use dunst.Base.{
  ℕ, zero, suc, ℤ, eq_ℤ, eq_ℤ→eq, and_true, Bool, true, false, not, ◌&&◌, some, is_some, List, [],
  ◌∷◌, nth, some_eq, Str, str_eq, str_eq_iff, ◌≡◌, refl, sym, ap, ◌∙◌, inl, inr, Bool-cases, arith,
}
use dunst.Options.{EnumTable, string_parse_enum}
use dunst.Options.Tables.{
  urgency_enum_data, fullscreen_enum_data, ellipsize_enum_data, horizontal_alignment_enum_data,
  markup_mode_enum_data, icon_position_enum_data,
}
use dunst.Dbus.RuleList.{enum_to_string}

-- The tables that RuleList reads.
abbrev pub rule_tables : List EnumTable
rule_tables =
    urgency_enum_data ∷ fullscreen_enum_data ∷ ellipsize_enum_data ∷ horizontal_alignment_enum_data
    ∷ markup_mode_enum_data ∷ icon_position_enum_data ∷ []

-- No name is in a table twice.
is_distinct : EnumTable → Bool
unfolding string_parse_enum
is_distinct [] = true
is_distinct ((name, value) ∷ table) =
    not (is_some (string_parse_enum table name)) && is_distinct table

all_distinct : List EnumTable → Bool
unfolding is_distinct
all_distinct [] = true
all_distinct (table ∷ tables) = is_distinct table && all_distinct tables

all_distinct-nth :
    (tables : List EnumTable) (k : ℕ) (table : EnumTable)
    → all_distinct tables ≡ true
    → nth tables k ≡ some table
    → is_distinct table ≡ true
unfolding all_distinct nth
all_distinct-nth [] k table d h = cc
all_distinct-nth (t ∷ tables) zero table d h =
    ap is_distinct (sym (some_eq h)) ∙ (and_true (is_distinct t) (all_distinct tables) d).0
all_distinct-nth (t ∷ tables) (suc k) table d h =
    all_distinct-nth tables k table (and_true (is_distinct t) (all_distinct tables) d).1 h

-- A name that a value has is one that the table knows.
enum_to_string-known :
    (table : EnumTable) (value : ℤ) (name : Str)
    → enum_to_string table value ≡ some name
    → is_some (string_parse_enum table name) ≡ true
unfolding enum_to_string string_parse_enum
enum_to_string-known [] value name h = cc
enum_to_string-known ((n, v) ∷ table) value name h = elim (Bool-cases (eq_ℤ v value)) [
  | inl here ↦
      let e : n ≡ name = some_eq (ground arith) in
      let hit : str_eq name n ≡ true = (str_eq_iff name n).1 (sym e) in rw hit refl
  | inr other ↦ ground (arith, enum_to_string-known table value name)
]

-- A known name differs from an unknown one.
names_differ :
    (table : EnumTable) (known unknown : Str)
    → is_some (string_parse_enum table known) ≡ true
    → not (is_some (string_parse_enum table unknown)) ≡ true
    → str_eq known unknown ≡ false
names_differ table known unknown known_in unknown_out = elim (Bool-cases (str_eq known unknown)) [
  | inl same ↦
      let e : known ≡ unknown = (str_eq_iff known unknown).0 same in
      let both : is_some (string_parse_enum table unknown) ≡ true =
        ap (λ n. is_some (string_parse_enum table n)) (sym e) ∙ known_in in
      ground arith
  | inr differ ↦ differ
]

parse-enum_to_string :
    (table : EnumTable) (value : ℤ) (name : Str)
    → is_distinct table ≡ true
    → enum_to_string table value ≡ some name
    → string_parse_enum table name ≡ some value
unfolding enum_to_string string_parse_enum is_distinct
parse-enum_to_string [] value name d h = cc
parse-enum_to_string ((n, v) ∷ table) value name d h = elim (Bool-cases (eq_ℤ v value)) [
  | inl here ↦
      let e : n ≡ name = some_eq (ground arith) in
      let hit : str_eq name n ≡ true = (str_eq_iff name n).1 (sym e) in
      rw hit (ap some (eq_ℤ→eq v value here))
  | inr other ↦
      let parts = and_true (not (is_some (string_parse_enum table n))) (is_distinct table) d in
      let later : enum_to_string table value ≡ some name = ground arith in
      let miss : str_eq name n ≡ false =
        names_differ table name n (enum_to_string-known table value name later) parts.0 in
      rw miss (parse-enum_to_string table value name parts.1 later)
]

-- A name of an entry in one of the tables that RuleList reads is parsed back to the entry's value.
pub string_parse_enum-enum_to_string :
    (k : ℕ) (table : EnumTable) (value : ℤ) (name : Str)
    → nth rule_tables k ≡ some table
    → enum_to_string table value ≡ some name
    → string_parse_enum table name ≡ some value
unfolding all_distinct is_distinct string_parse_enum str_eq
string_parse_enum-enum_to_string k table value name at h =
    parse-enum_to_string table value name (all_distinct-nth rule_tables k table refl at) h
