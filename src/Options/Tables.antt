-- ===== src/Options/Tables.antt =====
-- The names of the enumerations, src/settings_data.h, with the numbers that the headers give them,
-- Pango's for the alignments and the ellipses. The end mark is left out.
use dunst.Base.{pos, [], ◌∷◌, codes}
use dunst.Options.{EnumTable}

abbrev pub boolean_enum_data : EnumTable
boolean_enum_data =
    (codes "True", pos 1)
    ∷ (codes "true", pos 1)
    ∷ (codes "On", pos 1)
    ∷ (codes "on", pos 1)
    ∷ (codes "Yes", pos 1)
    ∷ (codes "yes", pos 1)
    ∷ (codes "1", pos 1)
    ∷ (codes "False", pos 0)
    ∷ (codes "false", pos 0)
    ∷ (codes "Off", pos 0)
    ∷ (codes "off", pos 0)
    ∷ (codes "No", pos 0)
    ∷ (codes "no", pos 0)
    ∷ (codes "0", pos 0)
    ∷ (codes "n", pos 0)
    ∷ (codes "y", pos 0)
    ∷ (codes "N", pos 0)
    ∷ (codes "Y", pos 1)
    ∷ []

abbrev pub sort_type_enum_data : EnumTable
sort_type_enum_data =
    (codes "True", pos 2)
    ∷ (codes "true", pos 2)
    ∷ (codes "On", pos 2)
    ∷ (codes "on", pos 2)
    ∷ (codes "Yes", pos 2)
    ∷ (codes "yes", pos 2)
    ∷ (codes "1", pos 2)
    ∷ (codes "False", pos 0)
    ∷ (codes "false", pos 0)
    ∷ (codes "Off", pos 0)
    ∷ (codes "off", pos 0)
    ∷ (codes "No", pos 0)
    ∷ (codes "no", pos 0)
    ∷ (codes "0", pos 0)
    ∷ (codes "n", pos 0)
    ∷ (codes "y", pos 0)
    ∷ (codes "N", pos 0)
    ∷ (codes "Y", pos 2)
    ∷ (codes "id", pos 0)
    ∷ (codes "urgency_ascending", pos 1)
    ∷ (codes "urgency_descending", pos 2)
    ∷ (codes "update", pos 3)
    ∷ []

abbrev pub horizontal_alignment_enum_data : EnumTable
horizontal_alignment_enum_data =
    (codes "left", pos 0) ∷ (codes "center", pos 1) ∷ (codes "right", pos 2) ∷ []

abbrev pub ellipsize_enum_data : EnumTable
ellipsize_enum_data = (codes "start", pos 1) ∷ (codes "middle", pos 2) ∷ (codes "end", pos 3) ∷ []

abbrev pub follow_mode_enum_data : EnumTable
follow_mode_enum_data =
    (codes "mouse", pos 1) ∷ (codes "keyboard", pos 2) ∷ (codes "none", pos 0) ∷ []

abbrev pub fullscreen_enum_data : EnumTable
fullscreen_enum_data =
    (codes "suppress", pos 4)
    ∷ (codes "show", pos 3)
    ∷ (codes "delay", pos 1)
    ∷ (codes "pushback", pos 2)
    ∷ []

abbrev pub icon_position_enum_data : EnumTable
icon_position_enum_data =
    (codes "left", pos 0)
    ∷ (codes "right", pos 1)
    ∷ (codes "top", pos 2)
    ∷ (codes "off", pos 3)
    ∷ []

abbrev pub vertical_alignment_enum_data : EnumTable
vertical_alignment_enum_data =
    (codes "top", pos 0) ∷ (codes "center", pos 1) ∷ (codes "bottom", pos 2) ∷ []

abbrev pub markup_mode_enum_data : EnumTable
markup_mode_enum_data =
    (codes "strip", pos 2) ∷ (codes "no", pos 1) ∷ (codes "full", pos 3) ∷ (codes "yes", pos 3) ∷ []

abbrev pub mouse_action_enum_data : EnumTable
mouse_action_enum_data =
    (codes "none", pos 0)
    ∷ (codes "do_action", pos 1)
    ∷ (codes "close_current", pos 2)
    ∷ (codes "close_all", pos 4)
    ∷ (codes "context", pos 5)
    ∷ (codes "context_all", pos 6)
    ∷ (codes "open_url", pos 7)
    ∷ (codes "remove_current", pos 3)
    ∷ []

abbrev pub sep_color_enum_data : EnumTable
sep_color_enum_data =
    (codes "auto", pos 1) ∷ (codes "foreground", pos 0) ∷ (codes "frame", pos 2) ∷ []

abbrev pub urgency_enum_data : EnumTable
urgency_enum_data = (codes "low", pos 0) ∷ (codes "normal", pos 1) ∷ (codes "critical", pos 2) ∷ []

abbrev pub layer_enum_data : EnumTable
layer_enum_data = (codes "bottom", pos 1) ∷ (codes "top", pos 2) ∷ (codes "overlay", pos 3) ∷ []

abbrev pub origin_enum_data : EnumTable
origin_enum_data =
    (codes "top-left", pos 5)
    ∷ (codes "top-center", pos 1)
    ∷ (codes "top-right", pos 9)
    ∷ (codes "bottom-left", pos 6)
    ∷ (codes "bottom-center", pos 2)
    ∷ (codes "bottom-right", pos 10)
    ∷ (codes "left-center", pos 4)
    ∷ (codes "right-center", pos 8)
    ∷ (codes "center", pos 0)
    ∷ []

abbrev pub corners_enum_data : EnumTable
corners_enum_data =
    (codes "top-left", pos 1)
    ∷ (codes "top-right", pos 2)
    ∷ (codes "bottom-left", pos 4)
    ∷ (codes "bottom-right", pos 8)
    ∷ (codes "left", pos 5)
    ∷ (codes "right", pos 10)
    ∷ (codes "bottom", pos 12)
    ∷ (codes "top", pos 3)
    ∷ (codes "all", pos 15)
    ∷ (codes "none", pos 0)
    ∷ []
