-- ===== src/Options/Values.antt =====
-- The values of settings: src/utils.c's arrays, and the parsers that src/option_parser.c chooses
-- by the type of a setting.
use dunst.Base.{
  ℕ, zero, suc, ◌+◌, ◌*◌, ◌/◌, ◌%◌, ℤ, pos, minus_one, pos_part, int_max, int_min, lt_ℤ, eq_ℤ, Bool,
  true, false, not, ◌&&◌, ◌||◌, Option, none, some, is_some, List, [], ◌∷◌, Str, CString, str_empty,
  length, skip_while, isspace, ◌==◌, if◌then◌else◌,
}
use dunst.Settings.{Color, Gradient}
use dunst.Utils.{string_strip_brackets}
use dunst.Ini.{strip_spaces}
use dunst.Options.{
  EnumTable, string_parse_enum, string_parse_enum_list, string_parse_int_list, strsplit, strto,
  signed, in_long, time_unit, safe_string_to_int,
}
use dunst.Options.Colors.{string_parse_color}
use dunst.Options.Tables.{mouse_action_enum_data}

strip_each : List Str → List Str
unfolding strip_spaces
strip_each [] = []
strip_each (s ∷ ss) = strip_spaces s ∷ strip_each ss

-- A null array is `none`; the delimiter has one byte.
unfoldable pub string_to_array : CString → ℕ → Option (List Str)
unfolding strip_each strsplit
string_to_array none delimiter = none
string_to_array (some s) delimiter = some (strip_each (strsplit delimiter s))

unfoldable pub string_array_length : Option (List Str) → ℤ
string_array_length none = minus_one
string_array_length (some s) = pos (length s)

-- Whether errno is 0 after string_to_time.
unfoldable pub time_is_valid : Str → Bool
unfolding strto time_unit skip_while
time_is_valid s = elim (strto 10 s) [
  | none ↦ false
  | some (negative, (n, rest)) ↦
      let val = signed negative n in
      if not (in_long val)
      then false
      else if not (lt_ℤ val minus_one) && length rest == 0
      then true
      else if lt_ℤ val (pos 0)
      then false
      else is_some (time_unit (skip_while isspace rest))
]

-- enum list_type
pub data ListType : Type 0 where
  invalid_list mouse_list offset_list string_list : ListType

-- The parsers that a setting of TYPE_CUSTOM may have, with their data.
pub data Parser : Type 0 where
  parse_enum parse_bool parse_sepcolor parse_corners : EnumTable → Parser
  parse_maybe_int : Parser

-- enum setting_type, with the parser or the data that the type reads.
pub data SettingType : Type 0 where
  type_int type_double type_string type_time type_length type_color type_gradient type_unknown :
      SettingType
  type_custom : Option Parser → SettingType
  -- The path's words are kept as well.
  type_path : Bool → SettingType
  type_list : ListType → SettingType

-- struct setting, less its documentation. `value` names the field of the settings that it points
-- at; `rule_offset` is the place of the member among those of struct rule.
pub record Setting : Type 0 where
  pub name : Str
  pub section : Str
  pub kind : SettingType
  pub default_value : Str
  pub value : CString
  pub rule_offset : ℕ

-- A row of the table of settings.
abbrev pub setting : Str → Str → SettingType → Str → CString → ℕ → Setting
setting name section kind default_value value rule_offset = record {
  name = name;
  section = section;
  kind = kind;
  default_value = default_value;
  value = value;
  rule_offset = rule_offset;
}

-- enum separator_color
pub data SepColor : Type 0 where
  sep_type : ℤ → SepColor
  sep_custom : Color → SepColor

-- What is written at a setting's address. A double is kept as the text that was read; a string
-- that may be a number goes with the number, INT_MIN if it is none.
pub data Stored : Type 0 where
  stored_int : ℤ → Stored
  stored_double stored_string : Str → Stored
  stored_maybe_int : ℤ → Str → Stored
  stored_bool : Bool → Stored
  stored_ints : List ℤ → Stored
  stored_strings : Option (List Str) → Stored
  stored_pair : ℤ → ℤ → Stored
  stored_sep_color : SepColor → Stored
  stored_color : Color → Stored
  stored_gradient : Gradient → Stored
  stored_path : Str → Option (List Str) → Stored

-- Whether a parser succeeds, and what it writes.
abbrev pub Parsed : Type 0
Parsed = Bool × Option Stored

abbrev pub refused : Parsed
refused = (false, none)

abbrev pub stored : Stored → Parsed
stored v = (true, some v)

-- A parser that writes when it succeeds only.
abbrev pub written {ℓ} : {A : Type ℓ} → (A → Stored) → Option A → Parsed
written f none = refused
written f (some a) = stored (f a)

unfoldable pub string_parse_bool : EnumTable → Str → Parsed
unfolding string_parse_enum
string_parse_bool table s = elim (string_parse_enum table s) [
  | none ↦ (false, some (stored_bool true))
  | some v ↦ stored (stored_bool (not (eq_ℤ v (pos 0))))
]

unfoldable pub string_parse_maybe_int : Str → Parsed
unfolding safe_string_to_int
string_parse_maybe_int s = elim (safe_string_to_int s) [
  | none ↦ stored (stored_maybe_int int_min s)
  | some v ↦ stored (stored_maybe_int v s)
]

unfoldable pub string_parse_sepcolor : EnumTable → Str → Parsed
unfolding string_parse_enum string_parse_color
string_parse_sepcolor table s = elim (string_parse_enum table s) [
  | some v ↦ stored (stored_sep_color (sep_type v))
  | none ↦
      if str_empty (some s)
      then refused
      else written (λ c. stored_sep_color (sep_custom c)) (string_parse_color s)
]

-- `a | b` on so many bits.
unfoldable pub bit_or : ℕ → ℕ → ℕ → ℕ
bit_or zero a b = 0
bit_or (suc bits) a b =
    let high = bit_or bits (a / 2) (b / 2) in high * 2 + (if a % 2 == 1 || b % 2 == 1 then 1 else 0)

unfoldable pub string_parse_enum_list_to_single : EnumTable → List Str → ℕ → Option ℕ
unfolding string_parse_enum bit_or
string_parse_enum_list_to_single table [] tmp_ret = some tmp_ret
string_parse_enum_list_to_single table (s ∷ ss) tmp_ret = elim (string_parse_enum table s) [
  | none ↦ none
  | some tmp ↦ string_parse_enum_list_to_single table ss (bit_or 31 tmp_ret (pos_part tmp))
]

unfoldable pub string_parse_corners : EnumTable → Str → Parsed
unfolding strip_each strsplit string_parse_enum_list_to_single
string_parse_corners table s =
    written (λ v. stored_int (pos v))
      (string_parse_enum_list_to_single table (strip_each (strsplit b',' s)) 0)

-- Two numbers of a list of strings; another number of strings is refused.
unfoldable pub parse_two : Bool → List Str → Option (ℤ × ℤ)
unfolding string_parse_int_list
parse_two allow_empty (a ∷ b ∷ []) = elim (string_parse_int_list allow_empty (a ∷ b ∷ [])) [
  | some (x ∷ y ∷ _) ↦ some (x, y)
  | _ ↦ none
]
parse_two allow_empty s = none

unfoldable pub string_parse_list : ListType → Str → Parsed
unfolding strip_each strsplit string_to_array string_parse_enum_list parse_two
string_parse_list mouse_list s =
    written stored_ints
      (string_parse_enum_list mouse_action_enum_data (strip_each (strsplit b',' s)))
string_parse_list offset_list s =
    written (λ p. stored_pair p.0 p.1) (parse_two false (strip_each (strsplit b'x' s)))
string_parse_list string_list s = stored (stored_strings (string_to_array (some s) b','))
string_parse_list invalid_list s = refused

unfoldable pub or_bound : ℤ → ℤ → ℤ
or_bound bound v = if eq_ℤ v minus_one then bound else v

unfoldable pub string_parse_length : Str → Parsed
unfolding string_strip_brackets safe_string_to_int strip_each strsplit parse_two or_bound
string_parse_length s = elim (string_strip_brackets (some s)) [
  | none ↦ written (λ v. stored_pair v v) (safe_string_to_int s)
  | some inner ↦
      written (λ p. stored_pair (or_bound int_min p.0) (or_bound int_max p.1))
        (parse_two true (strip_each (strsplit b',' inner)))
]
