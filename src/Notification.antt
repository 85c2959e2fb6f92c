-- ===== src/Notification.antt =====
-- src/notification.h and src/rules.h: the records of a notification and of a rule. Text that may be
-- NULL is a `CString`; an `int` that a rule reads with the value -1 for "not set" is a ℤ.
pub mod Order
pub mod Compare
use dunst.Base.{
  ℕ, ℤ, pos, minus_one, Bool, true, false, List, [], Option, none, some, Str, CString, codes,
}
use dunst.Settings.{
  Color, color_uninit, Gradient, BehaviorFullscreen, fs_null, MarkupMode, markup_null,
  NotificationColors,
}

-- struct rule
pub record Rule : Type 0 where
  pub name : CString
  pub appname : CString
  pub summary : CString
  pub body : CString
  pub icon : CString
  pub category : CString
  pub stack_tag : CString
  pub desktop_entry : CString
  pub msg_urgency : ℤ
  pub match_dbus_timeout : ℤ
  pub timeout : ℤ
  pub override_dbus_timeout : ℤ
  pub urgency : ℤ
  pub action_name : CString
  pub markup : MarkupMode
  pub history_ignore : ℤ
  pub match_transient : ℤ
  pub set_transient : ℤ
  pub skip_display : ℤ
  pub word_wrap : ℤ
  pub ellipsize : ℤ
  pub alignment : ℤ
  pub hide_text : ℤ
  pub icon_position : ℤ
  pub min_icon_size : ℤ
  pub max_icon_size : ℤ
  pub override_pause_level : ℤ
  pub new_icon : CString
  pub default_icon : CString
  pub fg : Color
  pub bg : Color
  pub highlight : Option Gradient
  pub fc : Color
  pub set_category : CString
  pub format : CString
  pub script : CString
  pub fullscreen : BehaviorFullscreen
  pub enabled : Bool
  pub progress_bar_alignment : ℤ
  pub set_stack_tag : CString

-- static const struct rule empty_rule
abbrev pub empty_rule : Rule
empty_rule = record {
  name = some (codes "empty");
  appname = none;
  summary = none;
  body = none;
  icon = none;
  category = none;
  stack_tag = none;
  desktop_entry = none;
  msg_urgency = minus_one;
  match_dbus_timeout = minus_one;
  timeout = minus_one;
  override_dbus_timeout = minus_one;
  urgency = minus_one;
  action_name = none;
  markup = markup_null;
  history_ignore = minus_one;
  match_transient = minus_one;
  set_transient = minus_one;
  skip_display = minus_one;
  word_wrap = minus_one;
  ellipsize = minus_one;
  alignment = minus_one;
  hide_text = minus_one;
  icon_position = minus_one;
  min_icon_size = minus_one;
  max_icon_size = minus_one;
  override_pause_level = minus_one;
  new_icon = none;
  default_icon = none;
  fg = color_uninit;
  bg = color_uninit;
  highlight = none;
  fc = color_uninit;
  set_category = none;
  format = none;
  script = none;
  fullscreen = fs_null;
  enabled = true;
  progress_bar_alignment = minus_one;
  set_stack_tag = none;
}

-- struct notification. `icon` is the handle of a cairo surface; `scripts` holds `script_count`
-- entries; `locked` is read as a truth value; `highlight` stands beside the other colours.
pub record Notification : Type 0 where
  pub id : ℤ
  pub dbus_valid : Bool
  pub original : Option Rule
  pub appname : CString
  pub summary : CString
  pub body : CString
  pub category : CString
  pub desktop_entry : CString
  pub urgency : ℤ
  pub override_pause_level : ℤ
  pub icon : Option ℕ
  pub icon_id : CString
  pub icon_time : ℤ
  pub iconname : CString
  pub icon_path : CString
  pub default_icon_name : CString
  pub min_icon_size : ℤ
  pub max_icon_size : ℤ
  pub icon_position : ℤ
  pub receiving_raw_icon : Bool
  pub start : ℤ
  pub timestamp : ℤ
  pub timeout : ℤ
  pub dbus_timeout : ℤ
  pub locked : Bool
  pub progress_bar_alignment : ℤ
  pub actions : List (Str × Str)
  pub default_action_name : CString
  pub markup : MarkupMode
  pub format : CString
  pub scripts : List CString
  pub fg : Color
  pub bg : Color
  pub frame : Color
  pub highlight : Option Gradient
  pub stack_tag : CString
  pub transient : Bool
  pub progress : ℤ
  pub history_ignore : ℤ
  pub skip_display : ℤ
  pub redisplayed : Bool
  pub dup_count : ℕ
  pub fullscreen : BehaviorFullscreen
  pub script_run : Bool
  pub marked_for_closure : ℕ
  pub marked_for_removal : ℕ
  pub word_wrap : Bool
  pub ellipsize : ℤ
  pub alignment : ℤ
  pub hide_text : Bool
  pub msg : CString
  pub text_to_render : CString
  pub urls : CString

-- ICON_OFF
abbrev pub icon_off : ℤ
icon_off = pos 3
