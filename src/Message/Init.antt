-- ===== src/Message/Init.antt =====
-- The fields that notification_init sets.
use dunst.Base.{
  ℤ, true, false, Bool-cases, some, none, is_some, List, [], ◌∷◌, Str, CString, codes, or_else,
  has_prefix, if◌then◌else◌, ◌≡◌, refl, ap, ◌∙◌, inl, inr, arith,
}
use dunst.Settings.{Settings, Color}
use dunst.Notification.{Notification, Rule}
use dunst.Utils.{string_append}
use dunst.World.{Env}
use dunst.Rules.{
  Matchers, rule_apply, rule_apply_all, rule_matches_notification, set_properties, applied,
  unset_color,
}
use dunst.Rules.Restore.{rule_apply-properties}
use dunst.Message.{
  defcolors, sanitize_urgency, set_defaults, warn_command, choose_icon, notification_extract_urls,
  notification_format_message, take_dbus_timeout, notification_init,
}

-- The texts are not NULL and the colours are set.
pub record IsComplete (n : Notification) : Type 0 where
  pub appname : is_some n.appname ≡ true
  pub summary : is_some n.summary ≡ true
  pub body : is_some n.body ≡ true
  pub category : is_some n.category ≡ true
  pub fg : unset_color n.fg ≡ false
  pub bg : unset_color n.bg ≡ false
  pub frame : unset_color n.frame ≡ false

-- The settings have colours for every urgency.
pub record HasColors (c : Settings) : Type 0 where
  pub fg : (u : ℤ) → unset_color (defcolors c u).fg ≡ false
  pub bg : (u : ℤ) → unset_color (defcolors c u).bg ≡ false
  pub frame : (u : ℤ) → unset_color (defcolors c u).frame ≡ false

or_default :
    (k default : Color)
    → unset_color default ≡ false
    → unset_color (if unset_color k then default else k) ≡ false
or_default k default h = elim (Bool-cases (unset_color k)) [
  | inl a ↦ rw a h
  | inr a ↦ rw (a, a) refl
]

applied_color :
    (rule k : Color) → unset_color k ≡ false → unset_color (applied unset_color rule k) ≡ false
applied_color rule k h = elim (Bool-cases (unset_color rule)) [
  | inl a ↦ rw (a, h) refl
  | inr a ↦ rw (a, a) refl
]

set_defaults-IsComplete :
    (c : Settings) (n : Notification) → HasColors c → IsComplete (set_defaults c n)
unfolding set_defaults
set_defaults-IsComplete c n h = record {
  appname = refl;
  summary = refl;
  body = refl;
  category = refl;
  fg = or_default n.fg _ (h.fg (sanitize_urgency n.urgency));
  bg = or_default n.bg _ (h.bg (sanitize_urgency n.urgency));
  frame = or_default n.frame _ (h.frame (sanitize_urgency n.urgency));
}

module _ (e : Env) where
  rule_apply-IsComplete :
      (now : ℤ) (r : Rule) (n : Notification)
      → IsComplete n
      → IsComplete (rule_apply e now r n true)
  unfolding set_properties
  rule_apply-IsComplete now r n h = record {
    appname =
        ap is_some (rule_apply-properties e (λ y. y.appname) r n true now (λ x y. refl))
        ∙ h.appname;
    summary =
        ap is_some (rule_apply-properties e (λ y. y.summary) r n true now (λ x y. refl))
        ∙ h.summary;
    body = ap is_some (rule_apply-properties e (λ y. y.body) r n true now (λ x y. refl)) ∙ h.body;
    category =
        ap is_some (rule_apply-properties e (λ y. y.category) r n true now (λ x y. refl))
        ∙ ground (arith, h.category);
    fg =
        ap unset_color (rule_apply-properties e (λ y. y.fg) r n true now (λ x y. refl))
        ∙ applied_color r.fg n.fg h.fg;
    bg =
        ap unset_color (rule_apply-properties e (λ y. y.bg) r n true now (λ x y. refl))
        ∙ applied_color r.bg n.bg h.bg;
    frame =
        ap unset_color (rule_apply-properties e (λ y. y.frame) r n true now (λ x y. refl))
        ∙ applied_color r.fc n.frame h.frame;
  }

  rule_apply_all-IsComplete :
      (c : Settings) (m : Matchers) (now : ℤ) (rules : List Rule) (n : Notification)
      → IsComplete n
      → IsComplete (rule_apply_all e c m now rules n)
  unfolding rule_apply_all
  rule_apply_all-IsComplete c m now [] n h = h
  rule_apply_all-IsComplete c m now (r ∷ rules) n h =
      elim (Bool-cases (rule_matches_notification c m r n)) [
        | inl a ↦ rw a (rule_apply_all-IsComplete c m now rules _ (rule_apply-IsComplete now r n h))
        | inr a ↦ rw a (rule_apply_all-IsComplete c m now rules n h)
      ]

string_append-some : (a sep : CString) (b : Str) → is_some (string_append a (some b) sep) ≡ true
unfolding string_append
string_append-some none sep b = refl
string_append-some (some []) sep b = refl
string_append-some (some (x ∷ a)) sep [] = refl
string_append-some (some (x ∷ a)) none (y ∷ b) = refl
string_append-some (some (x ∷ a)) (some sep) (y ∷ b) = refl

warn_command-IsComplete : (n : Notification) → IsComplete n → IsComplete (warn_command n)
unfolding warn_command
warn_command-IsComplete n h =
    elim (Bool-cases (has_prefix (or_else n.summary []) (codes "DUNST_COMMAND_"))) [
      | inr a ↦ rw a h
      | inl a ↦ rw a (record {
        appname = h.appname;
        summary = h.summary;
        body = string_append-some n.body _ _;
        category = h.category;
        fg = h.fg;
        bg = h.bg;
        frame = h.frame;
      })
    ]

-- After notification_init the application, summary, body and category are not NULL and the colours
-- are set, if the settings have colours, whatever the client sent and the rules change.
pub notification_init-IsComplete :
    (e : Env) (c : Settings) (m : Matchers) (extract : Str → CString) (now : ℤ) (rules : List Rule)
    (n : Notification)
    → HasColors c
    → IsComplete (notification_init e c m extract now rules n)
unfolding notification_init take_dbus_timeout notification_format_message notification_extract_urls
    choose_icon
notification_init-IsComplete e c m extract now rules n k =
    let ruled = rule_apply_all e c m now rules (set_defaults c n) in
    let h =
      warn_command-IsComplete ruled
        (rule_apply_all-IsComplete e c m now rules _ (set_defaults-IsComplete c n k)) in
    record {
      appname = h.appname;
      summary = h.summary;
      body = h.body;
      category = h.category;
      fg = h.fg;
      bg = h.bg;
      frame = h.frame;
    }
