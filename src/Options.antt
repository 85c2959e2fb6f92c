-- ===== src/Options.antt =====
-- The values of options: numbers and times (src/utils.c), and enumerations, lists, colours and
-- gradients (src/option_parser.c).
pub mod Colors
pub mod Printed
pub mod Numbers
pub mod Tables
pub mod Values
pub mod Allowed
pub mod Parse
pub mod Save
pub mod Load
pub mod Cmdline
use dunst.Base.{
  ℕ, zero, suc, ◌+◌, ◌-◌, ◌*◌, ◌/◌, ◌%◌, ◌^◌, ℤ, pos, negsuc, minus_one, pos_part, neg_part,
  int_max, int_min, scale, lt_ℤ, eq_ℤ, Bool, true, false, not, ◌&&◌, ◌||◌, Option, none, some,
  is_some, List, [], ◌∷◌, ◌++◌, length, drop, Str, CString, codes, str_eq, str_empty, has_prefix,
  skip_while, isspace, isdigit, g_ascii_isspace, ltb, leb, ◌==◌, if◌then◌else◌,
}

-- The value of a decimal or hexadecimal digit.
unfoldable pub digit_value : ℕ → ℕ → Option ℕ
digit_value base c =
    if leb b'0' c && leb c b'9'
    then some (c - b'0')
    else if base == 16 && leb b'a' c && leb c b'f'
    then some (c - b'a' + 10)
    else if base == 16 && leb b'A' c && leb c b'F'
    then some (c - b'A' + 10)
    else none

-- The number that the digits spell, after `acc`, and what follows them.
unfoldable pub scan_digits : ℕ → Str → ℕ → ℕ × Str
unfolding digit_value
scan_digits base [] acc = (acc, [])
scan_digits base (c ∷ s) acc = elim (digit_value base c) [
  | none ↦ (acc, c ∷ s)
  | some d ↦ scan_digits base s (acc * base + d)
]

-- What strtol reads: `none` if there are no digits, else the sign, the number and the rest.
abbrev pub Numeral : Type 0
Numeral = Option (Bool × (ℕ × Str))

abbrev pub starts_with_digit : ℕ → Str → Bool
starts_with_digit base [] = false
starts_with_digit base (c ∷ s) = is_some (digit_value base c)

-- `0x` goes before hexadecimal digits, and only there.
abbrev pub after_prefix : ℕ → Str → Str
after_prefix base (z ∷ x ∷ s) =
    if base == 16 && z == b'0' && (x == b'x' || x == b'X') && starts_with_digit base s
    then s
    else z ∷ x ∷ s
after_prefix base s = s

unfoldable pub read_digits : ℕ → Bool → Str → Numeral
unfolding scan_digits
read_digits base negative s =
    if starts_with_digit base s
    then some (negative, scan_digits base (after_prefix base s) 0)
    else none

unfoldable pub read_sign : ℕ → Str → Numeral
unfolding read_digits
read_sign base [] = none
read_sign base (c ∷ s) =
    if c == b'-'
    then read_digits base true s
    else if c == b'+'
    then read_digits base false s
    else read_digits base false (c ∷ s)

unfoldable pub strto : ℕ → Str → Numeral
unfolding read_sign skip_while
strto base s = read_sign base (skip_while isspace s)

abbrev pub signed : Bool → ℕ → ℤ
signed true (suc n) = negsuc n
signed true zero = pos 0
signed false n = pos n

-- ERANGE: the number does not fit 64 bits.
abbrev pub in_long : ℤ → Bool
in_long (pos n) = ltb n (2 ^ 63)
in_long (negsuc n) = ltb n (2 ^ 63)

unfoldable pub safe_string_to_long_long : Str → Option ℤ
unfolding strto
safe_string_to_long_long s = elim (strto 10 s) [
  | none ↦ none
  | some (negative, (n, rest)) ↦
      if in_long (signed negative n) && length rest == 0 then some (signed negative n) else none
]

unfoldable pub safe_string_to_int : Str → Option ℤ
unfolding safe_string_to_long_long
safe_string_to_int s = elim (safe_string_to_long_long s) [
  | none ↦ none
  | some l ↦ if lt_ℤ l int_min || lt_ℤ int_max l then none else some l
]

-- The units of string_to_time, in microseconds, by what the suffix begins with.
unfoldable pub time_unit : Str → Option ℕ
unfolding has_prefix
time_unit suffix =
    if has_prefix suffix (codes "ms")
    then some 1000
    else if has_prefix suffix (codes "s")
    then some 1000000
    else if has_prefix suffix (codes "m")
    then some (1000000 * 60)
    else if has_prefix suffix (codes "h")
    then some (1000000 * 60 * 60)
    else if has_prefix suffix (codes "d")
    then some (1000000 * 60 * 60 * 24)
    else none

-- A time in microseconds; an invalid one is 0. Products that overflow are not defined in C.
unfoldable pub string_to_time : Str → ℤ
unfolding strto time_unit scale skip_while
string_to_time s = elim (strto 10 s) [
  | none ↦ pos 0
  | some (negative, (n, rest)) ↦
      let val = signed negative n in
      if not (in_long val)
      then pos 0
      else if not (lt_ℤ val minus_one) && length rest == 0
      then scale val 1000000
      else if lt_ℤ val (pos 0)
      then pos 0
      else elim (time_unit (skip_while isspace rest)) [ none ↦ pos 0 | some unit ↦ scale val unit ]
]

-- The entries of a struct string_to_enum_def.
abbrev pub EnumTable : Type 0
EnumTable = List (Str × ℤ)

unfoldable pub string_parse_enum : EnumTable → Str → Option ℤ
string_parse_enum [] s = none
string_parse_enum ((name, value) ∷ table) s =
    let later = string_parse_enum table s in if str_eq s name then some value else later

-- The list without its end mark; one unknown word fails it.
unfoldable pub string_parse_enum_list : EnumTable → List Str → Option (List ℤ)
unfolding string_parse_enum
string_parse_enum_list table [] = some []
string_parse_enum_list table (s ∷ rest) = elim (string_parse_enum table s) [
  | none ↦ none
  | some v ↦ elim (string_parse_enum_list table rest) [ none ↦ none | some vs ↦ some (v ∷ vs) ]
]

unfoldable pub string_parse_int_list : Bool → List Str → Option (List ℤ)
unfolding safe_string_to_int
string_parse_int_list allow_empty [] = some []
string_parse_int_list allow_empty (s ∷ rest) =
    elim (if allow_empty && str_empty (some s) then some minus_one else safe_string_to_int s) [
      | none ↦ none
      | some v ↦ elim (string_parse_int_list allow_empty rest) [
        | none ↦ none
        | some vs ↦ some (v ∷ vs)
      ]
    ]

-- g_strsplit with a delimiter of one byte: the empty string has no parts.
unfoldable pub split_parts : ℕ → Str → Str → List Str
split_parts c part [] = part ∷ []
split_parts c part (b ∷ s) = elim (b == c) [
  | true ↦ part ∷ split_parts c [] s
  | false ↦ split_parts c (part ++ b ∷ []) s
]

unfoldable pub strsplit : ℕ → Str → List Str
unfolding split_parts
strsplit c [] = []
strsplit c (b ∷ s) = split_parts c [] (b ∷ s)
