-- ===== src/Options/Save/Found.antt =====
-- What get_setting_id finds, src/option_parser.c, and which settings of the table are filters.
use dunst.Base.{
  not, codes, ℕ, zero, suc, ◌+◌, Bool, true, false, ◌&&◌, ◌||◌, and_true, some, List, [], ◌∷◌, nth,
  some_eq, Str, str_eq, ltb, ◌≡◌, refl, sym, ap, ◌∙◌, inl, inr, ◌⊎◌, Bool-cases, arith,
}
use dunst.Utils.{one_of, is_special_section}
use dunst.Options.Allowed.{allowed_settings}
use dunst.Options.Values.{Setting}
use dunst.Options.Save.{
  SettingId, setting_at, not_found, wrong_section, find_setting, get_setting_id,
  rule_offset_is_modifying,
}

-- The names of the filters of a rule, less match_transient, which struct rule has among the members
-- that change notifications.
abbrev pub filter_names : List Str
filter_names =
    codes "appname"
    ∷ codes "summary"
    ∷ codes "body"
    ∷ codes "icon"
    ∷ codes "category"
    ∷ codes "stack_tag"
    ∷ codes "desktop_entry"
    ∷ codes "msg_urgency"
    ∷ codes "match_dbus_timeout"
    ∷ []

-- A setting that is in no rule belongs to a special section.
abbrev pub placed : Setting → Bool
placed a = ltb 0 a.rule_offset || is_special_section a.section

-- A member that rule_offset_is_modifying takes is no filter.
abbrev pub no_filter : Setting → Bool
no_filter a = not (rule_offset_is_modifying a.rule_offset) || not (one_of a.name filter_names)

unfoldable pub settings_fit : List Setting → Bool
settings_fit [] = true
settings_fit (a ∷ allowed) = (placed a && no_filter a) && settings_fit allowed

-- A setting that is found is one of the list, in a rule or in the section.
is_at : SettingId → Bool
is_at (setting_at i) = true
is_at not_found = false
is_at wrong_section = false

Found : List Setting → Str → ℕ → ℕ → Type 0
Found allowed section i j =
    (k : ℕ) × (setting : Setting) × (j ≡ i + k)
    × (nth allowed k ≡ some setting)
    × ((ltb 0 setting.rule_offset || str_eq section setting.section) ≡ true)

Found-later :
    (a : Setting) (allowed : List Setting) (section : Str) (i j : ℕ)
    → Found allowed section (suc i) j
    → Found (a ∷ allowed) section i j
unfolding Found nth
Found-later a allowed section i j (k, setting, e, at, fits) =
    (suc k, setting, omega arith, at, fits)

find_setting-Found :
    (allowed : List Setting) (key section : Str) (i : ℕ) (error_code : SettingId) (j : ℕ)
    → is_at error_code ≡ false
    → find_setting allowed key section i error_code ≡ setting_at j
    → Found allowed section i j
unfolding find_setting nth is_at Found
find_setting-Found [] key section i error_code j h e = ground arith
find_setting-Found (a ∷ allowed) key section i error_code j h e =
    elim (Bool-cases (str_eq a.name key)) [
      | inr other ↦
          Found-later a allowed section i j
            (find_setting-Found allowed key section (suc i) error_code j h (ground arith))
      | inl same ↦ elim (Bool-cases (ltb 0 a.rule_offset || str_eq section a.section)) [
        | inl here ↦ (0, a, ground arith, refl, here)
        | inr mismatch ↦
            Found-later a allowed section i j
              (find_setting-Found allowed key section (suc i) wrong_section j refl (ground arith))
      ]
    ]

pub SettingId-cases :
    (id : SettingId) → ((i : ℕ) × (id ≡ setting_at i)) ⊎ ((id ≡ not_found) ⊎ (id ≡ wrong_section))
SettingId-cases (setting_at i) = inl (i, refl)
SettingId-cases not_found = inr (inl refl)
SettingId-cases wrong_section = inr (inr refl)

pub get_setting_id-found :
    (allowed : List Setting) (key section : Str) (i : ℕ)
    → get_setting_id allowed key section ≡ setting_at i
    → (setting : Setting) × (nth allowed i ≡ some setting)
      × ((ltb 0 setting.rule_offset || str_eq section setting.section) ≡ true)
unfolding get_setting_id Found is_at
get_setting_id-found allowed key section i at =
    let (k, setting, same, held, found) =
      find_setting-Found allowed key section 0 not_found i refl at in
    let index : i ≡ k = omega arith in (setting, ap (nth allowed) index ∙ held, found)

pub settings_fit-nth :
    (allowed : List Setting) (k : ℕ) (setting : Setting)
    → settings_fit allowed ≡ true
    → nth allowed k ≡ some setting
    → (placed setting ≡ true) × (no_filter setting ≡ true)
unfolding settings_fit nth
settings_fit-nth [] k setting f h = cc
settings_fit-nth (a ∷ allowed) zero setting f h =
    let fits =
      and_true (placed a) (no_filter a)
        (and_true (placed a && no_filter a) (settings_fit allowed) f).0 in
    (ap placed (sym (some_eq h)) ∙ fits.0, ap no_filter (sym (some_eq h)) ∙ fits.1)
settings_fit-nth (a ∷ allowed) (suc k) setting f h =
    settings_fit-nth allowed k setting
      (and_true (placed a && no_filter a) (settings_fit allowed) f).1 h

pub settings_fit-allowed : settings_fit allowed_settings ≡ true
unfolding settings_fit is_special_section one_of str_eq rule_offset_is_modifying
settings_fit-allowed = refl
