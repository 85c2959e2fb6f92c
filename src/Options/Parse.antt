-- ===== src/Options/Parse.antt =====
-- set_from_string of src/option_parser.c: the value of a setting by its type; and string_to_path of
-- src/utils.c.
use dunst.Base.{
  pos, Bool, true, false, not, ◌&&◌, Option, none, some, List, [], ◌∷◌, ◌++◌, Str, codes, str_eq,
  str_empty, if◌then◌else◌,
}
use dunst.Utils.{string_is_int}
use dunst.Options.{string_parse_enum, string_to_time, safe_string_to_int}
use dunst.Options.Colors.{Reading, read, string_parse_color, string_parse_gradient}
use dunst.Options.Values.{
  offset_list, Parser, parse_enum, parse_bool, parse_sepcolor, parse_corners, parse_maybe_int,
  SettingType, type_int, type_double, type_string, type_time, type_length, type_color,
  type_gradient, type_unknown, type_custom, type_path, type_list, Setting, stored_int,
  stored_double, stored_string, stored_pair, stored_color, stored_gradient, stored_path, Parsed,
  refused, stored, written, time_is_valid, string_parse_bool, string_parse_maybe_int,
  string_parse_sepcolor, string_parse_corners, string_parse_list, string_parse_length,
}

-- The outer functions: wordexp (`none` if it fails), g_shell_parse_argv (`none` if it fails), and
-- whether safe_string_to_double reads a text.
pub record Outer : Type 0 where
  pub wordexp : Str → Option (List Str)
  pub shell_parse_argv : Str → Option (List Str)
  pub is_double : Str → Bool

unfoldable pub strjoinv : Str → List Str → Str
strjoinv separator [] = []
strjoinv separator (s ∷ []) = s
strjoinv separator (s ∷ t ∷ ss) = s ++ separator ++ strjoinv separator (t ∷ ss)

unfoldable pub string_to_path : Outer → Str → Str
unfolding strjoinv
string_to_path o string = elim (o.wordexp string) [
  | none ↦ string
  | some words ↦ strjoinv (codes " ") words
]

unfoldable pub run_parser : Parser → Str → Parsed
unfolding string_parse_enum string_parse_bool string_parse_maybe_int string_parse_sepcolor
    string_parse_corners
run_parser (parse_enum table) s = written stored_int (string_parse_enum table s)
run_parser (parse_bool table) s = string_parse_bool table s
run_parser (parse_sepcolor table) s = string_parse_sepcolor table s
run_parser (parse_corners table) s = string_parse_corners table s
run_parser parse_maybe_int s = string_parse_maybe_int s

-- The words of a path are freed before they are read again; if they cannot be read, the code
-- keeps the freed array, here `none`.
unfoldable pub set_path : Outer → Bool → Str → Parsed
unfolding string_to_path
set_path o with_words value =
    let path = string_to_path o value in
    if not with_words then stored (stored_path path none) else elim (o.shell_parse_argv path) [
      | none ↦ (false, some (stored_path path none))
      | some words ↦ stored (stored_path path (some words))
    ]

unfoldable pub set_length : Str → Str → Parsed
unfolding string_parse_list string_parse_length string_is_int safe_string_to_int
set_length name value =
    let new_syntax = string_parse_length value in
    let legacy = string_parse_list offset_list value in
    if str_eq name (codes "offset") && legacy.0
    then legacy
    else if str_eq name (codes "height") && string_is_int (some value)
    then written (λ height. stored_pair (pos 0) height) (safe_string_to_int value)
    else new_syntax

-- After a write behind the array the code does anything; here it refuses.
abbrev gradient_read : Reading → Parsed
gradient_read (read g) = stored (stored_gradient g)
gradient_read _ = refused

-- The value is not empty, or the setting is a string.
unfoldable pub set_by_type : Outer → Str → SettingType → Str → Parsed
unfolding safe_string_to_int run_parser set_path time_is_valid string_to_time string_parse_list
    set_length string_parse_color string_parse_gradient
set_by_type o name type_int s = written stored_int (safe_string_to_int s)
set_by_type o name type_double s = if o.is_double s then stored (stored_double s) else refused
set_by_type o name type_string s = stored (stored_string s)
set_by_type o name (type_custom none) s = refused
set_by_type o name (type_custom (some parser)) s = run_parser parser s
set_by_type o name (type_path with_words) s = set_path o with_words s
set_by_type o name type_time s =
    if time_is_valid s then stored (stored_int (string_to_time s)) else refused
set_by_type o name (type_list list) s = string_parse_list list s
set_by_type o name type_length s = set_length name s
set_by_type o name type_color s = written stored_color (string_parse_color s)
set_by_type o name type_gradient s = gradient_read (string_parse_gradient s)
set_by_type o name type_unknown s = refused

abbrev is_string_type : SettingType → Bool
is_string_type type_string = true
is_string_type _ = false

unfoldable pub set_from_string : Outer → Setting → Str → Parsed
unfolding set_by_type
set_from_string o setting value =
    let parsed = set_by_type o setting.name setting.kind value in
    if str_empty (some value) && not (is_string_type setting.kind) then refused else parsed
