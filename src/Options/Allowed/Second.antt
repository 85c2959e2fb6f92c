-- ===== src/Options/Allowed/Second.antt =====
-- Rows of allowed_settings, src/settings_data.h: the name, the section, the type with the parser,
-- the default, the field of the settings, and the place of the member of struct rule, the first
-- being 0. A row without a rule_offset has 0.
use dunst.Base.{true, some, List, [], ◌∷◌, codes}
use dunst.Options.Values.{
  Setting, setting, mouse_list, parse_bool, parse_enum, parse_sepcolor, string_list, type_color,
  type_custom, type_double, type_gradient, type_int, type_length, type_list, type_path, type_string,
  type_time,
}
use dunst.Options.Tables.{
  boolean_enum_data, follow_mode_enum_data, layer_enum_data, origin_enum_data, sep_color_enum_data,
  vertical_alignment_enum_data,
}

abbrev pub allowed_settings_g : List Setting
allowed_settings_g =
    setting (codes "progress_bar_max_width") (codes "global") type_int (codes "300")
      (some (codes "progress_bar_max_width")) 0
    ∷ setting (codes "progress_bar_frame_width") (codes "global") type_int (codes "1")
        (some (codes "progress_bar_frame_width")) 0
    ∷ setting (codes "progress_bar_corner_radius") (codes "global") type_int (codes "0")
        (some (codes "progress_bar_corner_radius")) 0
    ∷ setting (codes "icon_corner_radius") (codes "global") type_int (codes "0")
        (some (codes "icon_corner_radius")) 0
    ∷ setting (codes "progress_bar") (codes "global")
        (type_custom (some (parse_bool boolean_enum_data))) (codes "true")
        (some (codes "progress_bar")) 0
    ∷ setting (codes "stack_duplicates") (codes "global")
        (type_custom (some (parse_bool boolean_enum_data))) (codes "true")
        (some (codes "stack_duplicates")) 0
    ∷ setting (codes "dmenu") (codes "global") (type_path true) (codes "/usr/bin/dmenu -p dunst")
        (some (codes "dmenu")) 0
    ∷ setting (codes "browser") (codes "global") (type_path true) (codes "/usr/bin/xdg-open")
        (some (codes "browser")) 0
    ∷ setting (codes "always_run_script") (codes "global")
        (type_custom (some (parse_bool boolean_enum_data))) (codes "true")
        (some (codes "always_run_script")) 0
    ∷ setting (codes "gap_size") (codes "global") type_int (codes "0") (some (codes "gap_size")) 0
    ∷ setting (codes "default_pause_level") (codes "global") type_int (codes "0")
        (some (codes "default_pause_level")) 0
    ∷ setting (codes "pause_on_mouse_over") (codes "experimental")
        (type_custom (some (parse_bool boolean_enum_data))) (codes "false")
        (some (codes "pause_on_mouse_over")) 0
    ∷ []

abbrev pub allowed_settings_h : List Setting
allowed_settings_h =
    setting (codes "follow") (codes "global")
      (type_custom (some (parse_enum follow_mode_enum_data))) (codes "none") (some (codes "f_mode"))
      0
    ∷ setting (codes "scale") (codes "global") type_double (codes "0") (some (codes "scale")) 0
    ∷ setting (codes "separator_color") (codes "global")
        (type_custom (some (parse_sepcolor sep_color_enum_data))) (codes "frame")
        (some (codes "sep_color")) 0
    ∷ setting (codes "vertical_alignment") (codes "global")
        (type_custom (some (parse_enum vertical_alignment_enum_data))) (codes "center")
        (some (codes "vertical_alignment")) 0
    ∷ setting (codes "layer") (codes "global") (type_custom (some (parse_enum layer_enum_data)))
        (codes "overlay") (some (codes "layer")) 0
    ∷ setting (codes "mouse_left_click") (codes "global") (type_list mouse_list)
        (codes "close_current") (some (codes "mouse_left_click")) 0
    ∷ setting (codes "mouse_middle_click") (codes "global") (type_list mouse_list)
        (codes "do_action, remove_current") (some (codes "mouse_middle_click")) 0
    ∷ setting (codes "mouse_right_click") (codes "global") (type_list mouse_list)
        (codes "close_all") (some (codes "mouse_right_click")) 0
    ∷ setting (codes "icon_theme") (codes "global") (type_list string_list) (codes "Adwaita")
        (some (codes "icon_theme")) 0
    ∷ setting (codes "icon_path") (codes "global") type_string
        (codes "/usr/share/icons/gnome/16x16/status/:/usr/share/icons/gnome/16x16/devices/")
        (some (codes "icon_path")) 0
    ∷ setting (codes "enable_recursive_icon_lookup") (codes "global")
        (type_custom (some (parse_bool boolean_enum_data))) (codes "false")
        (some (codes "enable_recursive_icon_lookup")) 0
    ∷ setting (codes "enable_posix_regex") (codes "global")
        (type_custom (some (parse_bool boolean_enum_data))) (codes "false")
        (some (codes "enable_regex")) 0
    ∷ []

abbrev pub allowed_settings_i : List Setting
allowed_settings_i =
    setting (codes "enable_pcre_regex") (codes "experimental")
      (type_custom (some (parse_bool boolean_enum_data))) (codes "false")
      (some (codes "enable_pcre")) 0
    ∷ setting (codes "frame_width") (codes "global") type_int (codes "3")
        (some (codes "frame_width")) 0
    ∷ setting (codes "background") (codes "urgency_low") type_color (codes "#222222")
        (some (codes "colors_low.bg")) 0
    ∷ setting (codes "foreground") (codes "urgency_low") type_color (codes "#888888")
        (some (codes "colors_low.fg")) 0
    ∷ setting (codes "highlight") (codes "urgency_low") type_gradient (codes "#7f7fff")
        (some (codes "colors_low.highlight")) 0
    ∷ setting (codes "frame_color") (codes "urgency_low") type_color (codes "#888888")
        (some (codes "colors_low.frame")) 0
    ∷ setting (codes "timeout") (codes "urgency_low") type_time (codes "10")
        (some (codes "timeouts[URG_LOW]")) 0
    ∷ setting (codes "background") (codes "urgency_normal") type_color (codes "#285577")
        (some (codes "colors_norm.bg")) 0
    ∷ setting (codes "foreground") (codes "urgency_normal") type_color (codes "#ffffff")
        (some (codes "colors_norm.fg")) 0
    ∷ setting (codes "highlight") (codes "urgency_normal") type_gradient (codes "#1745d1")
        (some (codes "colors_norm.highlight")) 0
    ∷ setting (codes "frame_color") (codes "urgency_normal") type_color (codes "#888888")
        (some (codes "colors_norm.frame")) 0
    ∷ setting (codes "timeout") (codes "urgency_normal") type_time (codes "10")
        (some (codes "timeouts[URG_NORM]")) 0
    ∷ []

abbrev pub allowed_settings_j : List Setting
allowed_settings_j =
    setting (codes "background") (codes "urgency_critical") type_color (codes "#900000")
      (some (codes "colors_crit.bg")) 0
    ∷ setting (codes "foreground") (codes "urgency_critical") type_color (codes "#ffffff")
        (some (codes "colors_crit.fg")) 0
    ∷ setting (codes "highlight") (codes "urgency_critical") type_gradient (codes "#ff6666")
        (some (codes "colors_crit.highlight")) 0
    ∷ setting (codes "frame_color") (codes "urgency_critical") type_color (codes "#ff0000")
        (some (codes "colors_crit.frame")) 0
    ∷ setting (codes "timeout") (codes "urgency_critical") type_time (codes "0")
        (some (codes "timeouts[URG_CRIT]")) 0
    ∷ setting (codes "origin") (codes "global") (type_custom (some (parse_enum origin_enum_data)))
        (codes "top-right") (some (codes "origin")) 0
    ∷ setting (codes "width") (codes "global") type_length (codes "300") (some (codes "width")) 0
    ∷ setting (codes "height") (codes "global") type_length (codes "(0, 300)")
        (some (codes "height")) 0
    ∷ setting (codes "offset") (codes "global") type_length (codes "(10, 50)")
        (some (codes "offset")) 0
    ∷ setting (codes "notification_limit") (codes "global") type_int (codes "20")
        (some (codes "notification_limit")) 0
    ∷ setting (codes "close") (codes "global") type_string (codes "none")
        (some (codes "close_ks.str")) 0
    ∷ setting (codes "close_all") (codes "global") type_string (codes "none")
        (some (codes "close_all_ks.str")) 0
    ∷ []

abbrev pub allowed_settings_k : List Setting
allowed_settings_k =
    setting (codes "history") (codes "global") type_string (codes "none")
      (some (codes "history_ks.str")) 0
    ∷ setting (codes "context") (codes "global") type_string (codes "none")
        (some (codes "context_ks.str")) 0
    ∷ []
