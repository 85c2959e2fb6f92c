-- ===== src/Settings.antt =====
-- The settings that the modelled code reads (src/settings.h), as one record. Reading the
-- configuration into it is not modelled.
use dunst.Base.{ℕ, ℤ, Bool, true, false, List, Option, Str, CString}

-- enum sort_type
pub data SortType : Type 0 where
  sort_type_id sort_type_urgency_ascending sort_type_urgency_descending sort_type_update : SortType

-- A struct color. Each channel is the double `c / (double) max`; `color_uninit` is COLOR_UNINIT.
pub data Color : Type 0 where
  color_uninit : Color
  rgba : ℕ → ℕ → ℕ → ℕ → ℕ → Color

-- A struct gradient *, seen as the colours that it holds.
abbrev pub Gradient : Type 0
Gradient = List Color

-- enum behavior_fullscreen
pub data BehaviorFullscreen : Type 0 where
  fs_null fs_delay fs_pushback fs_show fs_suppress : BehaviorFullscreen

-- enum markup_mode
pub data MarkupMode : Type 0 where
  markup_null markup_no markup_strip markup_full : MarkupMode

-- struct notification_colors
pub record NotificationColors : Type 0 where
  pub frame : Color
  pub bg : Color
  pub fg : Color
  pub highlight : Gradient

-- enum mouse_action, less MOUSE_ACTION_END: the lists end without it.
pub data MouseAction : Type 0 where
  mouse_none mouse_do_action mouse_close_current mouse_close_all mouse_context mouse_context_all
        mouse_open_url mouse_remove_current :
      MouseAction

-- struct settings; `origin_bottom` is `origin & ZWLR_LAYER_SURFACE_V1_ANCHOR_BOTTOM`.
pub record Settings : Type 0 where
  pub sort : SortType
  pub origin_bottom : Bool
  pub always_run_script : Bool
  pub stack_duplicates : Bool
  pub sticky_history : Bool
  pub history_length : ℤ
  pub notification_limit : ℕ
  pub indicate_hidden : Bool
  pub show_age_threshold : ℤ
  pub show_indicators : Bool
  pub hide_duplicate_count : Bool
  pub ignore_newline : Bool
  pub enable_pcre : Bool
  pub enable_regex : Bool
  pub format : CString
  pub timeouts : ℤ → ℤ
  pub icons : ℤ → CString
  pub browser_cmd : Option (List Str)
  pub ignore_dbusclose : Bool
  pub gap_size : ℤ
  pub frame_width : ℤ
  pub separator_height : ℤ
  pub mouse_left_click : List MouseAction
  pub mouse_middle_click : List MouseAction
  pub mouse_right_click : List MouseAction
  pub colors_low : NotificationColors
  pub colors_norm : NotificationColors
  pub colors_crit : NotificationColors

abbrev pub is_update : SortType → Bool
is_update sort_type_update = true
is_update _ = false

abbrev pub is_ascending : SortType → Bool
is_ascending sort_type_urgency_ascending = true
is_ascending _ = false

abbrev pub is_descending : SortType → Bool
is_descending sort_type_urgency_descending = true
is_descending _ = false

-- The enum read as a truth value: SORT_TYPE_ID is 0.
abbrev pub is_sorting : SortType → Bool
is_sorting sort_type_id = false
is_sorting _ = true

abbrev pub is_suppress : BehaviorFullscreen → Bool
is_suppress fs_suppress = true
is_suppress _ = false

abbrev pub is_show : BehaviorFullscreen → Bool
is_show fs_show = true
is_show _ = false

abbrev pub is_pushback : BehaviorFullscreen → Bool
is_pushback fs_pushback = true
is_pushback _ = false

abbrev pub is_fs_null : BehaviorFullscreen → Bool
is_fs_null fs_null = true
is_fs_null _ = false

abbrev pub is_markup_null : MarkupMode → Bool
is_markup_null markup_null = true
is_markup_null _ = false
