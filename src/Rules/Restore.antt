-- ===== src/Rules/Restore.antt =====
-- The values that rule_apply saves, and what reapplying them gives.
use dunst.Base.{
  ℤ, minus_one, Bool, true, false, not, ◌&&◌, if◌then◌else◌, none, some, ◌≡◌, refl, ap, arith, ◌∙◌,
}
use dunst.Settings.{color_uninit, fs_null, markup_null, is_fs_null, is_markup_null}
use dunst.Notification.{Notification, Rule}
use dunst.World.{Env, replace_path}
use dunst.Rules.{
  saved, applied, applied_bool, of_bool, unset_int, unset_color, unset, kept_original,
  save_original, set_properties, set_icon, rule_apply,
}

-- What is left of one property: the value that it had, or the rule's if it had none.
abbrev pub restored {ℓ} : {A : Type ℓ} → (A → Bool) → A → A → A
restored missing rule current = if missing current && not (missing rule) then rule else current

-- Saving before a rule and applying what was saved after it.
restores {ℓ} :
    {A : Type ℓ} (missing : A → Bool) (rule nothing current : A)
    → missing nothing ≡ true
    → applied missing (saved missing rule nothing current) (applied missing rule current)
      ≡ restored missing rule current
restores missing rule nothing current h = ground arith

restores_bool :
    (rule : ℤ) (current : Bool)
    → applied_bool (saved unset_int rule minus_one (of_bool current)) (applied_bool rule current)
      ≡ current
restores_bool rule true = ground arith
restores_bool rule false = ground arith

-- Looking up an icon changes the icon alone.
set_icon-same :
    (e : Env) (now : ℤ) (r : Rule) (n : Notification)
    → let shown = set_icon e now r n in
      shown ≡ record n {
        icon = shown.icon;
        icon_id = shown.icon_id;
        icon_time = shown.icon_time;
        iconname = shown.iconname;
        icon_path = shown.icon_path;
        receiving_raw_icon = shown.receiving_raw_icon;
      }
unfolding set_icon replace_path
set_icon-same e now r n = ground arith

-- `m` is what is left of `n` after the rule was applied and undone, but for the icon and the
-- scripts.
pub record IsRestored (r : Rule) (n m : Notification) : Type 0 where
  pub dbus_timeout : m.dbus_timeout ≡ restored unset_int r.override_dbus_timeout n.dbus_timeout
  pub timeout : m.timeout ≡ restored unset_int r.timeout n.timeout
  pub urgency : m.urgency ≡ restored unset_int r.urgency n.urgency
  pub history_ignore : m.history_ignore ≡ restored unset_int r.history_ignore n.history_ignore
  pub skip_display : m.skip_display ≡ restored unset_int r.skip_display n.skip_display
  pub ellipsize : m.ellipsize ≡ restored unset_int r.ellipsize n.ellipsize
  pub alignment : m.alignment ≡ restored unset_int r.alignment n.alignment
  pub progress_bar_alignment :
      m.progress_bar_alignment
      ≡ restored unset_int r.progress_bar_alignment n.progress_bar_alignment
  pub min_icon_size : m.min_icon_size ≡ restored unset_int r.min_icon_size n.min_icon_size
  pub max_icon_size : m.max_icon_size ≡ restored unset_int r.max_icon_size n.max_icon_size
  pub icon_position : m.icon_position ≡ restored unset_int r.icon_position n.icon_position
  pub override_pause_level :
      m.override_pause_level ≡ restored unset_int r.override_pause_level n.override_pause_level
  pub fullscreen : m.fullscreen ≡ restored is_fs_null r.fullscreen n.fullscreen
  pub markup : m.markup ≡ restored is_markup_null r.markup n.markup
  pub category : m.category ≡ restored unset r.set_category n.category
  pub default_action_name :
      m.default_action_name ≡ restored unset r.action_name n.default_action_name
  pub default_icon_name : m.default_icon_name ≡ restored unset r.default_icon n.default_icon_name
  pub stack_tag : m.stack_tag ≡ restored unset r.set_stack_tag n.stack_tag
  pub highlight : m.highlight ≡ restored unset r.highlight n.highlight
  pub fg : m.fg ≡ restored unset_color r.fg n.fg
  pub bg : m.bg ≡ restored unset_color r.bg n.bg
  pub frame : m.frame ≡ restored unset_color r.fc n.frame
  pub format : m.format ≡ restored unset r.format n.format
  pub transient : m.transient ≡ n.transient
  pub word_wrap : m.word_wrap ≡ n.word_wrap
  pub hide_text : m.hide_text ≡ n.hide_text

-- The rule that rule_apply saves for a notification that no rule has changed.
abbrev pub first_saved : Rule → Notification → Rule
first_saved r n = save_original r n (kept_original none)

rule_apply-saves :
    (e : Env) (now : ℤ) (r : Rule) (n : Notification)
    → n.original ≡ none
    → (rule_apply e now r n true).original ≡ some (first_saved r n)
unfolding rule_apply
rule_apply-saves e now r n h = ap (λ o. some (save_original r n (kept_original o))) h

-- A property that neither the icon nor the values that rule_apply sets last are part of.
abbrev pub IsBlind : {A : Type 0} → (Notification → A) → Type 0
IsBlind field =
    (x y : Notification)
    → field (record y {
      icon = x.icon;
      icon_id = x.icon_id;
      icon_time = x.icon_time;
      iconname = x.iconname;
      icon_path = x.icon_path;
      receiving_raw_icon = x.receiving_raw_icon;
      original = x.original;
      format = x.format;
      scripts = x.scripts;
    })
      ≡ field y

module _ (e : Env) where
  -- Up to the icon, applying a rule sets its properties.
  pub rule_apply-properties :
      {A : Type 0} (field : Notification → A) (o : Rule) (m : Notification) (save : Bool) (t : ℤ)
      → IsBlind field
      → field (rule_apply e t o m save) ≡ field (set_properties o m)
  unfolding rule_apply
  rule_apply-properties field o m save t blind =
      let x = rule_apply e t o m save in
      let y = set_properties o m in
      ap (λ z. field (record z { original = x.original; format = x.format; scripts = x.scripts }))
        (set_icon-same e t o y)
      ∙ blind x y

  -- One property that RULE_APPLY2 handles: `field` of the notification, `value` of the rule.
  field-restores :
      {A : Type 0} (now later : ℤ) (r : Rule) (n : Notification) (field : Notification → A)
      (value : Rule → A) (missing : A → Bool) (nothing : A)
      → IsBlind field
      → ((x : Rule) (y : Notification)
          → field (set_properties x y) ≡ applied missing (value x) (field y))
      → value (first_saved r n) ≡ saved missing (value r) nothing (field n)
      → missing nothing ≡ true
      → field (rule_apply e later (first_saved r n) (rule_apply e now r n true) false)
        ≡ restored missing (value r) (field n)
  field-restores now later r n field value missing nothing blind sets kept h =
      let o = first_saved r n in
      let changed = rule_apply e now r n true in
      rule_apply-properties field o changed false later blind
      ∙ sets o changed
      ∙ ap (applied missing (value o)) (rule_apply-properties field r n true now blind ∙ sets r n)
      ∙ ap (λ v. applied missing v (applied missing (value r) (field n))) kept
      ∙ restores missing (value r) nothing (field n) h

  -- The same for a bool that a rule keeps as an int.
  flag-restores :
      (now later : ℤ) (r : Rule) (n : Notification) (field : Notification → Bool) (value : Rule → ℤ)
      → IsBlind field
      → ((x : Rule) (y : Notification)
          → field (set_properties x y) ≡ applied_bool (value x) (field y))
      → value (first_saved r n) ≡ saved unset_int (value r) minus_one (of_bool (field n))
      → field (rule_apply e later (first_saved r n) (rule_apply e now r n true) false) ≡ field n
  flag-restores now later r n field value blind sets kept =
      let o = first_saved r n in
      let changed = rule_apply e now r n true in
      rule_apply-properties field o changed false later blind
      ∙ sets o changed
      ∙ ap (applied_bool (value o)) (rule_apply-properties field r n true now blind ∙ sets r n)
      ∙ ap (λ v. applied_bool v (applied_bool (value r) (field n))) kept
      ∙ restores_bool (value r) (field n)

  -- If no rule has changed a notification, applying a rule and then the values that it saved gives
  -- each property its value from before; one that had none, being NULL or what a rule has for "not
  -- set", keeps the rule's value. The icon and the scripts are left out.
  pub rule_apply-restores :
      (now later : ℤ) (r : Rule) (n : Notification)
      → n.original ≡ none
      → let changed = rule_apply e now r n true in
        (changed.original ≡ some (first_saved r n))
        × IsRestored r n (rule_apply e later (first_saved r n) changed false)
  unfolding set_properties save_original rule_apply
  rule_apply-restores now later r n first = (
    rule_apply-saves e now r n first,
    record {
      dbus_timeout =
          field-restores now later r n (λ y. y.dbus_timeout) (λ x. x.override_dbus_timeout)
            unset_int minus_one (λ x y. refl) (λ x y. refl) refl refl;
      timeout =
          field-restores now later r n (λ y. y.timeout) (λ x. x.timeout) unset_int minus_one
            (λ x y. refl) (λ x y. refl) refl refl;
      urgency =
          field-restores now later r n (λ y. y.urgency) (λ x. x.urgency) unset_int minus_one
            (λ x y. refl) (λ x y. refl) refl refl;
      history_ignore =
          field-restores now later r n (λ y. y.history_ignore) (λ x. x.history_ignore) unset_int
            minus_one (λ x y. refl) (λ x y. refl) refl refl;
      skip_display =
          field-restores now later r n (λ y. y.skip_display) (λ x. x.skip_display) unset_int
            minus_one (λ x y. refl) (λ x y. refl) refl refl;
      ellipsize =
          field-restores now later r n (λ y. y.ellipsize) (λ x. x.ellipsize) unset_int minus_one
            (λ x y. refl) (λ x y. refl) refl refl;
      alignment =
          field-restores now later r n (λ y. y.alignment) (λ x. x.alignment) unset_int minus_one
            (λ x y. refl) (λ x y. refl) refl refl;
      progress_bar_alignment =
          field-restores now later r n (λ y. y.progress_bar_alignment)
            (λ x. x.progress_bar_alignment) unset_int minus_one (λ x y. refl) (λ x y. refl) refl
            refl;
      min_icon_size =
          field-restores now later r n (λ y. y.min_icon_size) (λ x. x.min_icon_size) unset_int
            minus_one (λ x y. refl) (λ x y. refl) refl refl;
      max_icon_size =
          field-restores now later r n (λ y. y.max_icon_size) (λ x. x.max_icon_size) unset_int
            minus_one (λ x y. refl) (λ x y. refl) refl refl;
      icon_position =
          field-restores now later r n (λ y. y.icon_position) (λ x. x.icon_position) unset_int
            minus_one (λ x y. refl) (λ x y. refl) refl refl;
      override_pause_level =
          field-restores now later r n (λ y. y.override_pause_level) (λ x. x.override_pause_level)
            unset_int minus_one (λ x y. refl) (λ x y. refl) refl refl;
      fullscreen =
          field-restores now later r n (λ y. y.fullscreen) (λ x. x.fullscreen) is_fs_null fs_null
            (λ x y. refl) (λ x y. refl) refl refl;
      markup =
          field-restores now later r n (λ y. y.markup) (λ x. x.markup) is_markup_null markup_null
            (λ x y. refl) (λ x y. refl) refl refl;
      category =
          field-restores now later r n (λ y. y.category) (λ x. x.set_category) unset none
            (λ x y. refl) (λ x y. refl) refl refl;
      default_action_name =
          field-restores now later r n (λ y. y.default_action_name) (λ x. x.action_name) unset none
            (λ x y. refl) (λ x y. refl) refl refl;
      default_icon_name =
          field-restores now later r n (λ y. y.default_icon_name) (λ x. x.default_icon) unset none
            (λ x y. refl) (λ x y. refl) refl refl;
      stack_tag =
          field-restores now later r n (λ y. y.stack_tag) (λ x. x.set_stack_tag) unset none
            (λ x y. refl) (λ x y. refl) refl refl;
      highlight =
          field-restores now later r n (λ y. y.highlight) (λ x. x.highlight) unset none
            (λ x y. refl) (λ x y. refl) refl refl;
      fg =
          field-restores now later r n (λ y. y.fg) (λ x. x.fg) unset_color color_uninit
            (λ x y. refl) (λ x y. refl) refl refl;
      bg =
          field-restores now later r n (λ y. y.bg) (λ x. x.bg) unset_color color_uninit
            (λ x y. refl) (λ x y. refl) refl refl;
      frame =
          field-restores now later r n (λ y. y.frame) (λ x. x.fc) unset_color color_uninit
            (λ x y. refl) (λ x y. refl) refl refl;
      format = restores unset r.format none n.format refl;
      transient =
          flag-restores now later r n (λ y. y.transient) (λ x. x.set_transient) (λ x y. refl)
            (λ x y. refl) refl;
      word_wrap =
          flag-restores now later r n (λ y. y.word_wrap) (λ x. x.word_wrap) (λ x y. refl)
            (λ x y. refl) refl;
      hide_text =
          flag-restores now later r n (λ y. y.hide_text) (λ x. x.hide_text) (λ x y. refl)
            (λ x y. refl) refl;
    },
  )
