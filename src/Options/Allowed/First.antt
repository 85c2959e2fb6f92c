-- ===== src/Options/Allowed/First.antt =====
-- Rows of allowed_settings, src/settings_data.h: the name, the section, the type with the parser,
-- the default, the field of the settings, and the place of the member of struct rule, the first
-- being 0. A row without a rule_offset has 0.
use dunst.Base.{false, none, some, List, [], ◌∷◌, codes}
use dunst.Options.Values.{
  Setting, setting, parse_bool, parse_corners, parse_enum, parse_maybe_int, type_color, type_custom,
  type_gradient, type_int, type_path, type_string, type_time,
}
use dunst.Options.Tables.{
  boolean_enum_data, corners_enum_data, ellipsize_enum_data, fullscreen_enum_data,
  horizontal_alignment_enum_data, icon_position_enum_data, markup_mode_enum_data,
  sort_type_enum_data, urgency_enum_data,
}

abbrev pub allowed_settings_a : List Setting
allowed_settings_a =
    setting (codes "icon") (codes "urgency_low") type_string (codes "")
      (some (codes "icons[URG_LOW]")) 0
    ∷ setting (codes "icon") (codes "urgency_normal") type_string (codes "")
        (some (codes "icons[URG_NORM]")) 0
    ∷ setting (codes "icon") (codes "urgency_critical") type_string (codes "")
        (some (codes "icons[URG_CRIT]")) 0
    ∷ setting (codes "appname") (codes "*") type_string (codes "*") none 1
    ∷ setting (codes "body") (codes "*") type_string (codes "*") none 3
    ∷ setting (codes "category") (codes "*") type_string (codes "*") none 5
    ∷ setting (codes "desktop_entry") (codes "*") type_string (codes "*") none 7
    ∷ setting (codes "icon") (codes "*") type_string (codes "*") none 4
    ∷ setting (codes "match_transient") (codes "*")
        (type_custom (some (parse_enum boolean_enum_data))) (codes "*") none 16
    ∷ setting (codes "msg_urgency") (codes "*") (type_custom (some (parse_enum urgency_enum_data)))
        (codes "*") none 8
    ∷ setting (codes "match_dbus_timeout") (codes "*") type_time (codes "*") none 9
    ∷ setting (codes "stack_tag") (codes "*") type_string (codes "*") none 6
    ∷ []

abbrev pub allowed_settings_b : List Setting
allowed_settings_b =
    setting (codes "summary") (codes "*") type_string (codes "*") none 2
    ∷ setting (codes "script") (codes "*") (type_path false) (codes "*") none 35
    ∷ setting (codes "background") (codes "*") type_color (codes "*") none 30
    ∷ setting (codes "action_name") (codes "*") type_string (codes "*") none 13
    ∷ setting (codes "foreground") (codes "*") type_color (codes "*") none 29
    ∷ setting (codes "highlight") (codes "*") type_gradient (codes "*") none 31
    ∷ setting (codes "default_icon") (codes "*") (type_path false) (codes "*") none 28
    ∷ setting (codes "format") (codes "global") type_string (codes "<b>%s</b>\n%b")
        (some (codes "format")) 34
    ∷ setting (codes "fullscreen") (codes "*")
        (type_custom (some (parse_enum fullscreen_enum_data))) (codes "show") none 36
    ∷ setting (codes "new_icon") (codes "*") (type_path false) (codes "*") none 27
    ∷ setting (codes "set_stack_tag") (codes "*") type_string (codes "*") none 39
    ∷ setting (codes "set_transient") (codes "*")
        (type_custom (some (parse_enum boolean_enum_data))) (codes "*") none 17
    ∷ []

abbrev pub allowed_settings_c : List Setting
allowed_settings_c =
    setting (codes "set_category") (codes "*") type_string (codes "*") none 33
    ∷ setting (codes "timeout") (codes "*") type_time (codes "*") none 10
    ∷ setting (codes "override_dbus_timeout") (codes "*") type_time (codes "*") none 11
    ∷ setting (codes "urgency") (codes "*") (type_custom (some (parse_enum urgency_enum_data)))
        (codes "*") none 12
    ∷ setting (codes "skip_display") (codes "*") (type_custom (some (parse_enum boolean_enum_data)))
        (codes "*") none 18
    ∷ setting (codes "history_ignore") (codes "*")
        (type_custom (some (parse_enum boolean_enum_data))) (codes "*") none 15
    ∷ setting (codes "word_wrap") (codes "*") (type_custom (some (parse_enum boolean_enum_data)))
        (codes "*") none 19
    ∷ setting (codes "ellipsize") (codes "*") (type_custom (some (parse_enum ellipsize_enum_data)))
        (codes "*") none 20
    ∷ setting (codes "alignment") (codes "*")
        (type_custom (some (parse_enum horizontal_alignment_enum_data))) (codes "*") none 21
    ∷ setting (codes "hide_text") (codes "*") (type_custom (some (parse_enum boolean_enum_data)))
        (codes "*") none 22
    ∷ setting (codes "markup") (codes "*") (type_custom (some (parse_enum markup_mode_enum_data)))
        (codes "*") none 14
    ∷ setting (codes "icon_position") (codes "*")
        (type_custom (some (parse_enum icon_position_enum_data))) (codes "*") none 23
    ∷ []

abbrev pub allowed_settings_d : List Setting
allowed_settings_d =
    setting (codes "enabled") (codes "*") (type_custom (some (parse_bool boolean_enum_data)))
      (codes "true") none 37
    ∷ setting (codes "corners") (codes "global")
        (type_custom (some (parse_corners corners_enum_data))) (codes "all")
        (some (codes "corners")) 0
    ∷ setting (codes "progress_bar_corners") (codes "global")
        (type_custom (some (parse_corners corners_enum_data))) (codes "all")
        (some (codes "progress_bar_corners")) 0
    ∷ setting (codes "icon_corners") (codes "global")
        (type_custom (some (parse_corners corners_enum_data))) (codes "all")
        (some (codes "icon_corners")) 0
    ∷ setting (codes "progress_bar_horizontal_alignment") (codes "*")
        (type_custom (some (parse_enum horizontal_alignment_enum_data))) (codes "center") none 38
    ∷ setting (codes "min_icon_size") (codes "global") type_int (codes "*") none 24
    ∷ setting (codes "max_icon_size") (codes "global") type_int (codes "*") none 25
    ∷ setting (codes "override_pause_level") (codes "*") type_int (codes "-1") none 26
    ∷ setting (codes "frame_color") (codes "*") type_color (codes "#888888")
        (some (codes "frame_color")) 32
    ∷ setting (codes "per_monitor_dpi") (codes "experimental")
        (type_custom (some (parse_bool boolean_enum_data))) (codes "false")
        (some (codes "per_monitor_dpi")) 0
    ∷ setting (codes "force_xinerama") (codes "global")
        (type_custom (some (parse_bool boolean_enum_data))) (codes "false")
        (some (codes "force_xinerama")) 0
    ∷ setting (codes "force_xwayland") (codes "global")
        (type_custom (some (parse_bool boolean_enum_data))) (codes "false")
        (some (codes "force_xwayland")) 0
    ∷ []

abbrev pub allowed_settings_e : List Setting
allowed_settings_e =
    setting (codes "font") (codes "global") type_string (codes "Monospace 8") (some (codes "font"))
      0
    ∷ setting (codes "sort") (codes "global") (type_custom (some (parse_enum sort_type_enum_data)))
        (codes "true") (some (codes "sort")) 0
    ∷ setting (codes "indicate_hidden") (codes "global")
        (type_custom (some (parse_enum boolean_enum_data))) (codes "true")
        (some (codes "indicate_hidden")) 0
    ∷ setting (codes "ignore_dbusclose") (codes "global")
        (type_custom (some (parse_enum boolean_enum_data))) (codes "false")
        (some (codes "ignore_dbusclose")) 0
    ∷ setting (codes "ignore_newline") (codes "global")
        (type_custom (some (parse_enum boolean_enum_data))) (codes "false")
        (some (codes "ignore_newline")) 0
    ∷ setting (codes "idle_threshold") (codes "global") type_time (codes "0")
        (some (codes "idle_threshold")) 0
    ∷ setting (codes "monitor") (codes "global") (type_custom (some parse_maybe_int)) (codes "0")
        (some (codes "monitor")) 0
    ∷ setting (codes "title") (codes "global") type_string (codes "Dunst") (some (codes "title")) 0
    ∷ setting (codes "class") (codes "global") type_string (codes "Dunst") (some (codes "class")) 0
    ∷ setting (codes "shrink") (codes "global") (type_custom (some (parse_enum boolean_enum_data)))
        (codes "false") (some (codes "shrink")) 0
    ∷ setting (codes "line_height") (codes "global") type_int (codes "0")
        (some (codes "line_height")) 0
    ∷ setting (codes "show_age_threshold") (codes "global") type_time (codes "60")
        (some (codes "show_age_threshold")) 0
    ∷ []

abbrev pub allowed_settings_f : List Setting
allowed_settings_f =
    setting (codes "hide_duplicate_count") (codes "global")
      (type_custom (some (parse_bool boolean_enum_data))) (codes "false")
      (some (codes "hide_duplicate_count")) 0
    ∷ setting (codes "sticky_history") (codes "global")
        (type_custom (some (parse_enum boolean_enum_data))) (codes "true")
        (some (codes "sticky_history")) 0
    ∷ setting (codes "history_length") (codes "global") type_int (codes "20")
        (some (codes "history_length")) 0
    ∷ setting (codes "show_indicators") (codes "global")
        (type_custom (some (parse_enum boolean_enum_data))) (codes "true")
        (some (codes "show_indicators")) 0
    ∷ setting (codes "separator_height") (codes "global") type_int (codes "2")
        (some (codes "separator_height")) 0
    ∷ setting (codes "padding") (codes "global") type_int (codes "8") (some (codes "padding")) 0
    ∷ setting (codes "horizontal_padding") (codes "global") type_int (codes "8")
        (some (codes "h_padding")) 0
    ∷ setting (codes "text_icon_padding") (codes "global") type_int (codes "0")
        (some (codes "text_icon_padding")) 0
    ∷ setting (codes "transparency") (codes "global") type_int (codes "0")
        (some (codes "transparency")) 0
    ∷ setting (codes "corner_radius") (codes "global") type_int (codes "0")
        (some (codes "corner_radius")) 0
    ∷ setting (codes "progress_bar_height") (codes "global") type_int (codes "10")
        (some (codes "progress_bar_height")) 0
    ∷ setting (codes "progress_bar_min_width") (codes "global") type_int (codes "150")
        (some (codes "progress_bar_min_width")) 0
    ∷ []
