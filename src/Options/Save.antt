-- ===== src/Options/Save.antt =====
-- Storing the configuration's values, src/option_parser.c: set_setting, set_rule, set_defaults,
-- get_setting_id and save_settings.
pub mod Found
pub mod Fits
use dunst.Base.{
  ℕ, suc, ℤ, pos, minus_one, Bool, true, false, not, ◌&&◌, ◌||◌, Option, none, some, Option-cases,
  is_some, List, [], ◌∷◌, ◌++◌, nth, Str, codes, str_eq, str_empty, ltb, leb, ◌==◌, if◌then◌else◌,
  ◌≡◌, Bool-cases, inl, inr, arith,
}
use dunst.Settings.{Color, Gradient}
use dunst.Utils.{is_special_section, is_deprecated_section, string_is_int}
use dunst.Ini.{Ini, Section, Entry, strip_spaces}
use dunst.Options.{string_parse_enum, string_to_time, safe_string_to_int}
use dunst.Options.Allowed.{allowed_settings}
use dunst.Options.Colors.{string_parse_color, string_parse_gradient}
use dunst.Options.Parse.{Outer, set_from_string}
use dunst.Options.Values.{
  ListType, offset_list, Parser, parse_enum, parse_bool, parse_sepcolor, parse_corners,
  parse_maybe_int, SettingType, type_int, type_double, type_string, type_time, type_length,
  type_color, type_gradient, type_unknown, type_custom, type_path, type_list, Setting, Stored,
  stored_int, stored_double, stored_string, stored_pair, stored_color, stored_gradient, stored_path,
  stored_bool, Parsed, refused, stored, written, time_is_valid, string_parse_bool,
  string_parse_maybe_int, string_parse_sepcolor, string_parse_corners, string_parse_list,
  string_parse_length,
}

-- What was written over the settings and over the rules, which start as the defaults of rule_new:
-- by the name of the settings' field, and by the rule's member; the newest first. The rules stand in the order of their creation.
pub record RuleValues : Type 0 where
  pub name : Str
  pub members : List (Setting × Stored)

pub record Store : Type 0 where
  pub settings : List (Str × Stored)
  pub rules : List RuleValues

abbrev pub put_setting : Str → Option Stored → Store → Store
put_setting field none st = st
put_setting field (some v) st = record st { settings = (field, v) ∷ st.settings }

unfoldable pub set_setting : Outer → Setting → Str → Store → Bool × Store
unfolding set_from_string
set_setting o setting value st =
    let parsed = set_from_string o setting value in
    elim setting.value [
      | none ↦ (true, st)
      | some field ↦ (parsed.0, put_setting field parsed.1 st)
    ]

abbrev pub put_member : Setting → Option Stored → RuleValues → RuleValues
put_member setting none r = r
put_member setting (some v) r = record r { members = (setting, v) ∷ r.members }

-- The rule of the name with the value written; a rule that is not there is created at the end.
unfoldable pub set_rule_in : Outer → Setting → Str → Str → List RuleValues → List RuleValues
unfolding set_from_string
set_rule_in o setting value section [] =
    put_member setting (set_from_string o setting value).1 (record { name = section; members = [] })
    ∷ []
set_rule_in o setting value section (r ∷ rules) =
    let later = set_rule_in o setting value section rules in
    if str_eq r.name section
    then put_member setting (set_from_string o setting value).1 r ∷ rules
    else r ∷ later

unfoldable pub set_rule : Outer → Setting → Str → Str → Store → Store
unfolding set_rule_in
set_rule o setting value section st = record st {
  rules = set_rule_in o setting value section st.rules;
}

-- A default that cannot be set is logged.
unfoldable pub set_each_default : Outer → List Setting → Store → Store
unfolding set_setting
set_each_default o [] st = st
set_each_default o (setting ∷ allowed) st =
    let next = (set_setting o setting setting.default_value st).1 in
    set_each_default o allowed (if is_some setting.value then next else st)

unfoldable pub set_defaults : Outer → Store → Store
unfolding set_each_default
set_defaults o st = set_each_default o allowed_settings (record st { settings = [] })

-- The index of the key's setting, from index `i` on; or that it is in the wrong section only.
pub data SettingId : Type 0 where
  setting_at : ℕ → SettingId
  not_found wrong_section : SettingId

unfoldable pub find_setting : List Setting → Str → Str → ℕ → SettingId → SettingId
find_setting [] key section i error_code = error_code
find_setting (a ∷ allowed) key section i error_code =
    let later = find_setting allowed key section (suc i) error_code in
    let mismatch = find_setting allowed key section (suc i) wrong_section in
    if not (str_eq a.name key)
    then later
    else if ltb 0 a.rule_offset || str_eq section a.section
    then setting_at i
    else mismatch

unfoldable pub get_setting_id : List Setting → Str → Str → SettingId
unfolding find_setting
get_setting_id allowed key section = find_setting allowed key section 0 not_found

-- The places of `timeout` and of `set_stack_tag` among the members of struct rule.
unfoldable pub rule_offset_is_modifying : ℕ → Bool
rule_offset_is_modifying offset =
    let first_action : ℕ = 10 in
    let last_action : ℕ = 39 in leb first_action offset && leb offset last_action

-- From the place of `appname` on.
unfoldable pub rule_offset_is_filter : ℕ → Bool
unfolding rule_offset_is_modifying
rule_offset_is_filter offset =
    let first_filter : ℕ = 1 in leb first_filter offset && not (rule_offset_is_modifying offset)

-- An entry whose setting was found.
unfoldable pub save_found : Outer → Setting → Str → Str → Store → Store
unfolding set_setting set_rule rule_offset_is_modifying is_special_section strip_spaces
save_found o setting section value st =
    let as_rule = set_rule o setting value section st in
    if not (is_special_section section)
    then as_rule
    else if not (ltb 0 setting.rule_offset)
    then (set_setting o setting (strip_spaces value) st).1
    else if rule_offset_is_modifying setting.rule_offset
    then as_rule
    else st

unfoldable pub save_entry : Outer → Str → Entry → Store → Store
unfolding get_setting_id save_found
save_entry o section e st = elim (get_setting_id allowed_settings e.key section) [
  | setting_at i ↦ elim (nth allowed_settings i) [
    | none ↦ st
    | some setting ↦ save_found o setting section e.value st
  ]
  | not_found ↦ st
  | wrong_section ↦ st
]

unfoldable pub save_entries : Outer → Str → List Entry → Store → Store
unfolding save_entry
save_entries o section [] st = st
save_entries o section (e ∷ es) st = save_entries o section es (save_entry o section e st)

unfoldable pub save_settings : Outer → Ini → Store → Store
unfolding save_entries is_deprecated_section
save_settings o [] st = st
save_settings o (s ∷ ini) st =
    let saved = save_entries o s.name s.entries st in
    save_settings o ini (if is_deprecated_section s.name then st else saved)
