-- ===== src/Dbus/RuleList.antt =====
-- RuleList of src/dbus.c. `show` is color_to_string of src/draw.c, which prints doubles.
use dunst.Base.{
  to_int, ℤ, pos, minus_one, lt_ℤ, eq_ℤ, not, Option, none, some, List, [], ◌∷◌, ◌++◌, Str, CString,
  codes, or_else, if◌then◌else◌,
}
use dunst.Settings.{
  Color, Gradient, BehaviorFullscreen, fs_null, fs_delay, fs_pushback, fs_show, fs_suppress,
  MarkupMode, markup_null, markup_no, markup_strip, markup_full,
}
use dunst.Notification.{Rule}
use dunst.Utils.{is_special_section}
use dunst.Options.{EnumTable}
use dunst.Options.Tables.{
  urgency_enum_data, fullscreen_enum_data, ellipsize_enum_data, horizontal_alignment_enum_data,
  markup_mode_enum_data, icon_position_enum_data,
}
use dunst.World.{Dict, text, int32, int64, bool, texts, reply_dicts}
use dunst.Daemon.{Daemon}
use dunst.Dbus.Handlers.{answer}

unfoldable pub enum_to_string : EnumTable → ℤ → CString
enum_to_string [] enum_value = none
enum_to_string ((name, value) ∷ table) enum_value =
    let later = enum_to_string table enum_value in
    if eq_ℤ value enum_value then some name else later

abbrev fullscreen_value : BehaviorFullscreen → ℤ
fullscreen_value fs_null = pos 0
fullscreen_value fs_delay = pos 1
fullscreen_value fs_pushback = pos 2
fullscreen_value fs_show = pos 3
fullscreen_value fs_suppress = pos 4

abbrev markup_value : MarkupMode → ℤ
markup_value markup_null = pos 0
markup_value markup_no = pos 1
markup_value markup_strip = pos 2
markup_value markup_full = pos 3

-- The entries of one field: none where it is not set, or where no name has the value.
abbrev string_entry : Str → CString → Dict
string_entry key none = []
string_entry key (some s) = (key, text s) ∷ []

abbrev unless : ℤ → ℤ → Dict → Dict
unless unset value entry = if eq_ℤ value unset then [] else entry

abbrev bool_entry : Str → ℤ → Dict
bool_entry key value = unless minus_one value ((key, bool (not (eq_ℤ value (pos 0)))) ∷ [])

abbrev int_entry : Str → ℤ → Dict
int_entry key value = unless minus_one value ((key, int32 value) ∷ [])

abbrev long_entry : Str → ℤ → Dict
long_entry key value = unless minus_one value ((key, int64 value) ∷ [])

unfoldable pub enum_entry : Str → EnumTable → ℤ → ℤ → Dict
unfolding enum_to_string
enum_entry key table unset value =
    unless unset value (string_entry key (enum_to_string table value))

unfoldable pub color_entry : (Color → CString) → Str → Color → Dict
color_entry show key c = string_entry key (show c)

unfoldable pub shown_colors : (Color → CString) → Gradient → List Str
shown_colors show [] = []
shown_colors show (k ∷ ks) = or_else (show k) [] ∷ shown_colors show ks

-- A gradient that holds a colour that is not valid is not met here.
unfoldable pub gradient_entry : (Color → CString) → Str → Option Gradient → Dict
unfolding color_entry shown_colors
gradient_entry show key none = []
gradient_entry show key (some []) = []
gradient_entry show key (some (k ∷ [])) = color_entry show key k
gradient_entry show key (some (k ∷ l ∷ ks)) = (key, texts (shown_colors show (k ∷ l ∷ ks))) ∷ []

-- What a rule matches.
unfoldable pub filter_entries : Rule → Dict
unfolding enum_entry to_int
filter_entries r =
    (codes "name", text (or_else r.name []))
    ∷ (codes "enabled", bool r.enabled)
    ∷ ((if lt_ℤ minus_one r.match_dbus_timeout
          then (codes "match_dbus_timeout", int32 (to_int r.match_dbus_timeout)) ∷ []
          else [])
        ++ (enum_entry (codes "msg_urgency") urgency_enum_data minus_one r.msg_urgency
            ++ ((if lt_ℤ minus_one r.match_transient
                  then (codes "match_transient", bool (not (eq_ℤ r.match_transient (pos 0)))) ∷ []
                  else [])
                ++ (string_entry (codes "appname") r.appname
                    ++ (string_entry (codes "desktop_entry") r.desktop_entry
                        ++ (string_entry (codes "summary") r.summary
                            ++ (string_entry (codes "body") r.body
                                ++ (string_entry (codes "category") r.category
                                    ++ string_entry (codes "stack_tag") r.stack_tag))))))))

-- What a rule sets, up to the icon position.
unfoldable pub property_entries : Rule → Dict
unfolding enum_entry
property_entries r =
    long_entry (codes "timeout") r.timeout
    ++ (long_entry (codes "override_dbus_timeout") r.override_dbus_timeout
        ++ (enum_entry (codes "urgency") urgency_enum_data minus_one r.urgency
            ++ (enum_entry (codes "fullscreen") fullscreen_enum_data (pos 0)
                  (fullscreen_value r.fullscreen)
                ++ (bool_entry (codes "history_ignore") r.history_ignore
                    ++ (bool_entry (codes "set_transient") r.set_transient
                        ++ (bool_entry (codes "skip_display") r.skip_display
                            ++ (bool_entry (codes "word_wrap") r.word_wrap
                                ++ (enum_entry (codes "ellipsize") ellipsize_enum_data minus_one
                                      r.ellipsize
                                    ++ (enum_entry (codes "alignment")
                                          horizontal_alignment_enum_data minus_one r.alignment
                                        ++ bool_entry (codes "hide_text") r.hide_text)))))))))

unfoldable pub layout_entries : Rule → Dict
unfolding enum_entry
layout_entries r =
    enum_entry (codes "progress_bar_alignment") horizontal_alignment_enum_data minus_one
      r.progress_bar_alignment
    ++ (int_entry (codes "min_icon_size") r.min_icon_size
        ++ (int_entry (codes "max_icon_size") r.max_icon_size
            ++ (string_entry (codes "action_name") r.action_name
                ++ (string_entry (codes "set_category") r.set_category
                    ++ (enum_entry (codes "markup") markup_mode_enum_data (pos 0)
                          (markup_value r.markup)
                        ++ enum_entry (codes "icon_position") icon_position_enum_data minus_one
                            r.icon_position)))))

unfoldable pub look_entries : (Color → CString) → Rule → Dict
unfolding color_entry gradient_entry
look_entries show r =
    color_entry show (codes "fg") r.fg
    ++ (color_entry show (codes "bg") r.bg
        ++ (gradient_entry show (codes "highlight") r.highlight
            ++ (color_entry show (codes "fc") r.fc
                ++ (string_entry (codes "format") r.format
                    ++ (string_entry (codes "default_icon") r.default_icon
                        ++ (string_entry (codes "new_icon") r.new_icon
                            ++ (string_entry (codes "script") r.script
                                ++ (string_entry (codes "set_stack_tag") r.set_stack_tag
                                    ++ int_entry (codes "override_pause_level")
                                        r.override_pause_level))))))))

unfoldable pub rule_dict : (Color → CString) → Rule → Dict
unfolding filter_entries property_entries layout_entries look_entries
rule_dict show r =
    filter_entries r ++ (property_entries r ++ (layout_entries r ++ look_entries show r))

-- The rules of the special sections are left out.
unfoldable pub rule_dicts : (Color → CString) → List Rule → List Dict
unfolding rule_dict is_special_section
rule_dicts show [] = []
rule_dicts show (r ∷ rules) =
    let rest = rule_dicts show rules in
    if is_special_section (or_else r.name []) then rest else rule_dict show r ∷ rest

unfoldable pub dbus_cb_dunst_RuleList : (Color → CString) → Daemon → Daemon
unfolding rule_dicts
dbus_cb_dunst_RuleList show d = answer (reply_dicts (rule_dicts show d.rules)) d
