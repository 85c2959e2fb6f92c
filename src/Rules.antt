-- ===== src/Rules.antt =====
-- src/rules.c: which rules match a notification, and what applying one changes.
pub mod Restore
use dunst.Base.{
  ℕ, suc, ◌≤◌, ℤ, pos, negsuc, minus_one, Bool, true, false, not, ◌&&◌, ◌||◌, Option, none, some,
  is_some, List, [], ◌∷◌, ◌++◌, Str, CString, codes, str_eq, str_empty, or_else, leb, lt_ℤ, eq_ℤ,
  if◌then◌else◌,
}
use dunst.Settings.{
  Settings, Color, color_uninit, rgba, Gradient, MarkupMode, BehaviorFullscreen, is_fs_null,
  is_markup_null,
}
use dunst.Notification.{Notification, Rule, empty_rule}
use dunst.Utils.{is_special_section, is_deprecated_section}
use dunst.World.{World, Env, modify, replace_path}

-- The matchers that the code calls: g_regex_match and regexec with the compilation before them,
-- where `none` is a pattern that does not compile, and fnmatch. The pattern comes first.
pub record Matchers : Type 0 where
  pub g_regex : Str → Str → Option Bool
  pub regex : Str → Str → Option Bool
  pub fnmatch : Str → Str → Bool

-- COLOR_VALID: the channels of a colour that is set are 0 to 1.
abbrev pub color_valid : Color → Bool
color_valid color_uninit = false
color_valid (rgba max r g b a) = leb r max && leb g max && leb b max && leb a max

-- A pattern that does not compile matches nothing.
abbrev compiled : Option Bool → Bool
compiled none = false
compiled (some matched) = matched

unfoldable pub matches_value : Settings → Matchers → CString → Str → Bool
matches_value c m none pattern_text = false
matches_value c m (some value) pattern_text =
    if c.enable_pcre
    then compiled (m.g_regex pattern_text value)
    else if c.enable_regex
    then compiled (m.regex pattern_text value)
    else m.fnmatch pattern_text value

unfoldable pub rule_field_matches_string : Settings → Matchers → CString → CString → Bool
unfolding matches_value
rule_field_matches_string c m value pattern_text =
    if str_empty pattern_text then true else matches_value c m value (or_else pattern_text [])

abbrev pub of_bool : Bool → ℤ
of_bool true = pos 1
of_bool false = pos 0

unfoldable pub rule_matches_notification : Settings → Matchers → Rule → Notification → Bool
unfolding rule_field_matches_string
rule_matches_notification c m r n =
    r.enabled
    && (eq_ℤ r.msg_urgency minus_one || eq_ℤ r.msg_urgency n.urgency)
    && (lt_ℤ r.match_dbus_timeout (pos 0) || eq_ℤ r.match_dbus_timeout n.dbus_timeout)
    && (eq_ℤ r.match_transient minus_one || eq_ℤ r.match_transient (of_bool n.transient))
    && rule_field_matches_string c m n.appname r.appname
    && rule_field_matches_string c m n.desktop_entry r.desktop_entry
    && rule_field_matches_string c m n.summary r.summary
    && rule_field_matches_string c m n.body r.body
    && rule_field_matches_string c m n.iconname r.icon
    && rule_field_matches_string c m n.category r.category
    && rule_field_matches_string c m n.stack_tag r.stack_tag

-- One property under RULE_APPLY2, whose default value passes `unset`: what is saved of it, and
-- what it is afterwards.
abbrev pub saved {ℓ} : {A : Type ℓ} → (A → Bool) → A → A → A → A
saved unset rule original current = if not (unset rule) && unset original then current else original

abbrev pub applied {ℓ} : {A : Type ℓ} → (A → Bool) → A → A → A
applied unset rule current = if unset rule then current else rule

abbrev pub unset_int : ℤ → Bool
unset_int z = eq_ℤ z minus_one

abbrev pub unset_color : Color → Bool
unset_color k = not (color_valid k)

abbrev pub unset {ℓ} : {A : Type ℓ} → Option A → Bool
unset o = not (is_some o)

-- An int of a rule that sets a bool of the notification.
abbrev pub applied_bool : ℤ → Bool → Bool
applied_bool rule current = if unset_int rule then current else not (eq_ℤ rule (pos 0))

-- notification_keep_original, and the record that it fills.
abbrev pub kept_original : Option Rule → Rule
kept_original none = record empty_rule { name = some (codes "original") }
kept_original (some o) = o

-- The name or icon that is saved with a script: the first one, or the rule's where there is none.
abbrev first_script : List CString → CString → CString
first_script [] rule = rule
first_script (s ∷ rest) rule = s

abbrev saved_script : CString → CString → List CString → CString
saved_script rule original scripts =
    if is_some rule && not (is_some original) then first_script scripts rule else original

-- The values that rule_apply saves in n->original.
unfoldable pub save_original : Rule → Notification → Rule → Rule
save_original r n o = record o {
  override_dbus_timeout =
      saved unset_int r.override_dbus_timeout o.override_dbus_timeout n.dbus_timeout;
  set_transient = saved unset_int r.set_transient o.set_transient (of_bool n.transient);
  timeout = saved unset_int r.timeout o.timeout n.timeout;
  urgency = saved unset_int r.urgency o.urgency n.urgency;
  fullscreen = saved is_fs_null r.fullscreen o.fullscreen n.fullscreen;
  history_ignore = saved unset_int r.history_ignore o.history_ignore n.history_ignore;
  skip_display = saved unset_int r.skip_display o.skip_display n.skip_display;
  word_wrap = saved unset_int r.word_wrap o.word_wrap (of_bool n.word_wrap);
  ellipsize = saved unset_int r.ellipsize o.ellipsize n.ellipsize;
  alignment = saved unset_int r.alignment o.alignment n.alignment;
  hide_text = saved unset_int r.hide_text o.hide_text (of_bool n.hide_text);
  progress_bar_alignment =
      saved unset_int r.progress_bar_alignment o.progress_bar_alignment n.progress_bar_alignment;
  min_icon_size = saved unset_int r.min_icon_size o.min_icon_size n.min_icon_size;
  max_icon_size = saved unset_int r.max_icon_size o.max_icon_size n.max_icon_size;
  markup = saved is_markup_null r.markup o.markup n.markup;
  icon_position = saved unset_int r.icon_position o.icon_position n.icon_position;
  override_pause_level =
      saved unset_int r.override_pause_level o.override_pause_level n.override_pause_level;
  fg = saved unset_color r.fg o.fg n.fg;
  bg = saved unset_color r.bg o.bg n.bg;
  highlight = saved unset r.highlight o.highlight n.highlight;
  fc = saved unset_color r.fc o.fc n.frame;
  action_name = saved unset r.action_name o.action_name n.default_action_name;
  set_category = saved unset r.set_category o.set_category n.category;
  default_icon = saved unset r.default_icon o.default_icon n.default_icon_name;
  set_stack_tag = saved unset r.set_stack_tag o.set_stack_tag n.stack_tag;
  new_icon = saved unset r.new_icon o.new_icon n.iconname;
  format = saved unset r.format o.format n.format;
  script = saved_script r.script o.script n.scripts;
}

-- The properties that a rule sets, up to its icon.
unfoldable pub set_properties : Rule → Notification → Notification
set_properties r n = record n {
  dbus_timeout = applied unset_int r.override_dbus_timeout n.dbus_timeout;
  transient = applied_bool r.set_transient n.transient;
  timeout = applied unset_int r.timeout n.timeout;
  urgency = applied unset_int r.urgency n.urgency;
  fullscreen = applied is_fs_null r.fullscreen n.fullscreen;
  history_ignore = applied unset_int r.history_ignore n.history_ignore;
  skip_display = applied unset_int r.skip_display n.skip_display;
  word_wrap = applied_bool r.word_wrap n.word_wrap;
  ellipsize = applied unset_int r.ellipsize n.ellipsize;
  alignment = applied unset_int r.alignment n.alignment;
  hide_text = applied_bool r.hide_text n.hide_text;
  progress_bar_alignment = applied unset_int r.progress_bar_alignment n.progress_bar_alignment;
  min_icon_size = applied unset_int r.min_icon_size n.min_icon_size;
  max_icon_size = applied unset_int r.max_icon_size n.max_icon_size;
  markup = applied is_markup_null r.markup n.markup;
  icon_position = applied unset_int r.icon_position n.icon_position;
  override_pause_level = applied unset_int r.override_pause_level n.override_pause_level;
  fg = applied unset_color r.fg n.fg;
  bg = applied unset_color r.bg n.bg;
  highlight = applied unset r.highlight n.highlight;
  frame = applied unset_color r.fc n.frame;
  default_action_name = applied unset r.action_name n.default_action_name;
  category = applied unset r.set_category n.category;
  default_icon_name = applied unset r.default_icon n.default_icon_name;
  stack_tag = applied unset r.set_stack_tag n.stack_tag;
}

-- The icon is looked up once the properties above are set; `now` is the time of a load.
unfoldable pub set_icon : Env → ℤ → Rule → Notification → Notification
set_icon e now r n =
    if is_some r.new_icon
    then (let loaded = replace_path e r.new_icon now n in
        record loaded { receiving_raw_icon = false })
    else n

unfoldable pub rule_apply : Env → ℤ → Rule → Notification → Bool → Notification
unfolding save_original set_properties set_icon
rule_apply e now r n save =
    let shown = set_icon e now r (set_properties r n) in
    record shown {
      original = if save then some (save_original r n (kept_original n.original)) else n.original;
      format = applied unset r.format n.format;
      scripts = if is_some r.script then n.scripts ++ r.script ∷ [] else n.scripts;
    }

unfoldable pub rule_apply_all :
    Env → Settings → Matchers → ℤ → List Rule → Notification → Notification
unfolding rule_matches_notification rule_apply
rule_apply_all e c m now [] n = n
rule_apply_all e c m now (r ∷ rules) n =
    rule_apply_all e c m now rules
      (if rule_matches_notification c m r n then rule_apply e now r n true else n)

-- rule_apply_special_filters: the filters of a special section, and whether it has any.
unfoldable pub rule_apply_special_filters : Rule → Str → Bool × Rule
rule_apply_special_filters r name =
    if is_deprecated_section name
    then (false, r)
    else if str_eq name (codes "global")
    then (true, r)
    else if str_eq name (codes "urgency_low")
    then (true, record r { msg_urgency = pos 0 })
    else if str_eq name (codes "urgency_normal")
    then (true, record r { msg_urgency = pos 1 })
    else if str_eq name (codes "urgency_critical")
    then (true, record r { msg_urgency = pos 2 })
    else (false, r)

-- The new rule comes last in the list.
unfoldable pub rule_new : Str → List Rule → List Rule
unfolding rule_apply_special_filters
rule_new name rules =
    let named = record empty_rule { name = some name } in
    let r = if is_special_section name then (rule_apply_special_filters named name).1 else named in
    rules ++ r ∷ []

unfoldable pub get_rule : Str → List Rule → Option Rule
get_rule name [] = none
get_rule name (r ∷ rules) =
    let later = get_rule name rules in
    if is_some r.name && str_eq (or_else r.name []) name then some r else later

-- queues_reapply_all_rules, on one notification and on the pointers of a queue.
unfoldable pub reapply_rules :
    Env → Settings → Matchers → ℤ → List Rule → Notification → Notification
unfolding rule_apply_all
reapply_rules e c m now rules n =
    rule_apply_all e c m now rules
      (elim n.original [ none ↦ n | some o ↦ rule_apply e now o n false ])

unfoldable pub reapply_queue : Env → Settings → Matchers → List Rule → List ℕ → World → World
unfolding reapply_rules
reapply_queue e c m rules [] w = w
reapply_queue e c m rules (p ∷ ps) w =
    reapply_queue e c m rules ps
      (modify p (reapply_rules e c m (e.wall w.reads) rules) (record w { reads = suc w.reads }))

unfoldable pub queues_reapply_all_rules : Env → Settings → Matchers → List Rule → World → World
unfolding reapply_queue
queues_reapply_all_rules e c m rules w =
    reapply_queue e c m rules (w.displayed ++ (w.waiting ++ w.history)) w
