-- ===== src/Options/Save/Fits.antt =====
-- What the configuration's sections may write into rules, src/option_parser.c.
use dunst.Base.{
  Bool, true, false, not, ◌&&◌, ◌||◌, and_true, Option, none, some, List, [], ◌∷◌, Str, str_eq,
  str_eq_iff, ltb, ◌≡◌, refl, ap, ◌∙◌, inl, inr, ◌⊎◌, Bool-cases, Option-cases,
}
use dunst.Utils.{one_of, is_special_section, is_deprecated_section}
use dunst.Ini.{Ini, Entry, strip_spaces}
use dunst.Options.Allowed.{allowed_settings}
use dunst.Options.Parse.{Outer, set_from_string}
use dunst.Options.Values.{Setting, Stored}
use dunst.Options.Save.Found.{
  filter_names, placed, no_filter, settings_fit-allowed, settings_fit-nth, SettingId-cases,
  get_setting_id-found,
}
use dunst.Options.Save.{
  get_setting_id, RuleValues, Store, put_member, put_setting, set_rule_in, set_rule, set_setting,
  rule_offset_is_modifying, save_found, save_entry, save_entries, save_settings,
}

-- The setting is a member of struct rule, and no filter if the section is a special one.
member_fits : Str → Setting → Bool
unfolding is_special_section one_of
member_fits name m =
    ltb 0 m.rule_offset && (not (is_special_section name) || not (one_of m.name filter_names))

members_fit : Str → List (Setting × Stored) → Bool
unfolding member_fits
members_fit name [] = true
members_fit name ((m, v) ∷ ms) = member_fits name m && members_fit name ms

rule_fits : RuleValues → Bool
unfolding members_fit is_deprecated_section
rule_fits r = not (is_deprecated_section r.name) && members_fit r.name r.members

unfoldable pub rules_fit : List RuleValues → Bool
unfolding rule_fits
rules_fit [] = true
rules_fit (r ∷ rs) = rule_fits r && rules_fit rs

rule_fits-members : (r : RuleValues) → rule_fits r ≡ true → members_fit r.name r.members ≡ true
unfolding rule_fits
rule_fits-members r h =
    (and_true (not (is_deprecated_section r.name)) (members_fit r.name r.members) h).1

put_member-fits :
    (setting : Setting) (v : Option Stored) (r : RuleValues)
    → not (is_deprecated_section r.name) ≡ true
    → member_fits r.name setting ≡ true
    → members_fit r.name r.members ≡ true
    → rule_fits (put_member setting v r) ≡ true
unfolding rule_fits members_fit
put_member-fits setting none r d m h = rw (d, h) refl
put_member-fits setting (some v) r d m h = rw (d, m, h) refl

set_rule_in-fits :
    (o : Outer) (setting : Setting) (value section : Str) (rules : List RuleValues)
    → not (is_deprecated_section section) ≡ true
    → member_fits section setting ≡ true
    → rules_fit rules ≡ true
    → rules_fit (set_rule_in o setting value section rules) ≡ true
unfolding rules_fit set_rule_in members_fit
set_rule_in-fits o setting value section [] d m h =
    let fresh : RuleValues = record { name = section; members = [] } in
    rw (put_member-fits setting (set_from_string o setting value).1 fresh d m refl) refl
set_rule_in-fits o setting value section (r ∷ rules) d m h =
    let parts = and_true (rule_fits r) (rules_fit rules) h in
    elim (Bool-cases (str_eq r.name section)) [
      | inl same ↦
          let e : r.name ≡ section = (str_eq_iff r.name section).0 same in
          rw
            (
              same,
              put_member-fits setting (set_from_string o setting value).1 r
                  (ap (λ s. not (is_deprecated_section s)) e ∙ d)
                  (ap (λ s. member_fits s setting) e ∙ m) (rule_fits-members r parts.0),
              parts.1,
            )
            refl
      | inr other ↦
          rw (other, parts.0, set_rule_in-fits o setting value section rules d m parts.1) refl
    ]

either : (a b : Bool) → (a || b) ≡ true → (a ≡ true) ⊎ (b ≡ true)
either true b h = inl refl
either false b h = inr h

implied : (a b : Bool) → (not a || b) ≡ true → a ≡ true → b ≡ true
implied true b h k = h
implied false b h k = cc

put_setting-rules :
    (field : Str) (v : Option Stored) (st : Store) → (put_setting field v st).rules ≡ st.rules
put_setting-rules field none st = refl
put_setting-rules field (some v) st = refl

set_setting-rules :
    (o : Outer) (setting : Setting) (value : Str) (st : Store)
    → (set_setting o setting value st).1.rules ≡ st.rules
unfolding set_setting
set_setting-rules o setting value st = elim (Option-cases setting.value) [
  | inr (field, at) ↦
      rw (set_setting, at) (put_setting-rules field (set_from_string o setting value).1 st)
  | inl rule_only ↦ rw (set_setting, rule_only) refl
]

-- A setting that is in no rule is one of the section, so the section is a special one.
found_fits :
    (setting : Setting) (section : Str)
    → (ltb 0 setting.rule_offset || str_eq section setting.section) ≡ true
    → (ltb 0 setting.rule_offset || is_special_section setting.section) ≡ true
    → is_special_section section ≡ false
    → ltb 0 setting.rule_offset ≡ true
found_fits setting section found f plain =
    elim (either (ltb 0 setting.rule_offset) (str_eq section setting.section) found) [
      | inl member ↦ member
      | inr same ↦
          let e : section ≡ setting.section = (str_eq_iff section setting.section).0 same in
          elim (either (ltb 0 setting.rule_offset) (is_special_section setting.section) f) [
            | inl member ↦ member
            | inr special ↦
                let both : is_special_section section ≡ true = ap is_special_section e ∙ special in
                cc
          ]
    ]

save_found-fits :
    (o : Outer) (setting : Setting) (section value : Str) (st : Store)
    → (ltb 0 setting.rule_offset || str_eq section setting.section) ≡ true
    → placed setting ≡ true
    → no_filter setting ≡ true
    → not (is_deprecated_section section) ≡ true
    → rules_fit st.rules ≡ true
    → rules_fit (save_found o setting section value st).rules ≡ true
unfolding save_found set_rule member_fits
save_found-fits o setting section value st found f k d h =
    elim (Bool-cases (is_special_section section)) [
      | inr plain ↦
          let m : member_fits section setting ≡ true =
            rw (found_fits setting section found f plain, plain) refl in
          rw plain (set_rule_in-fits o setting value section st.rules d m h)
      | inl special ↦ elim (Bool-cases (ltb 0 setting.rule_offset)) [
        | inr none_of ↦
            rw (special, none_of)
              (ap (rules_fit) (set_setting-rules o setting (strip_spaces value) st) ∙ h)
        | inl member ↦ elim (Bool-cases (rule_offset_is_modifying setting.rule_offset)) [
          | inr filter ↦ rw (special, member, filter) h
          | inl modifying ↦
              let other : not (one_of setting.name filter_names) ≡ true =
                implied (rule_offset_is_modifying setting.rule_offset)
                  (not (one_of setting.name filter_names)) k modifying in
              let m : member_fits section setting ≡ true = rw (special, member, other) refl in
              rw (special, member, modifying)
                (set_rule_in-fits o setting value section st.rules d m h)
        ]
      ]
    ]

save_entry-fits :
    (o : Outer) (section : Str) (e : Entry) (st : Store)
    → not (is_deprecated_section section) ≡ true
    → rules_fit st.rules ≡ true
    → rules_fit (save_entry o section e st).rules ≡ true
unfolding save_entry
save_entry-fits o section e st d h =
    elim (SettingId-cases (get_setting_id allowed_settings e.key section)) [
      | inr (inl missing) ↦ rw (save_entry, missing) h
      | inr (inr elsewhere) ↦ rw (save_entry, elsewhere) h
      | inl (i, at) ↦
          let (setting, held, found) = get_setting_id-found allowed_settings e.key section i at in
          let fits = settings_fit-nth allowed_settings i setting settings_fit-allowed held in
          rw (save_entry, at, held)
            (save_found-fits o setting section e.value st found fits.0 fits.1 d h)
    ]

save_entries-fit :
    (o : Outer) (section : Str) (es : List Entry) (st : Store)
    → not (is_deprecated_section section) ≡ true
    → rules_fit st.rules ≡ true
    → rules_fit (save_entries o section es st).rules ≡ true
unfolding save_entries
save_entries-fit o section [] st d h = h
save_entries-fit o section (e ∷ es) st d h =
    save_entries-fit o section es (save_entry o section e st) d (save_entry-fits o section e st d h)

-- Saving a configuration, with the table of settings, keeps this of the rules that are written:
-- none has the name of a deprecated section, each value goes into a member of struct rule after the
-- first, the name, and under a special section's name into none of the filters appname, summary,
-- body, icon, category, stack_tag, desktop_entry, msg_urgency and match_dbus_timeout.
pub save_settings-rules_fit :
    (o : Outer) (ini : Ini) (st : Store)
    → rules_fit st.rules ≡ true
    → rules_fit (save_settings o ini st).rules ≡ true
unfolding save_settings
save_settings-rules_fit o [] st h = h
save_settings-rules_fit o (s ∷ ini) st h = elim (Bool-cases (is_deprecated_section s.name)) [
  | inl ignored ↦ rw (save_settings, ignored) (save_settings-rules_fit o ini st h)
  | inr kept ↦
      rw (save_settings, kept)
        (save_settings-rules_fit o ini (save_entries o s.name s.entries st)
          (save_entries-fit o s.name s.entries st (rw kept refl) h))
]
