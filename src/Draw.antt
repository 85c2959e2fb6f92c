-- ===== src/Draw.antt =====
-- The sizes and the place of the window, src/draw.c, from what Pango and the outputs measure.
use dunst.Base.{
  ◌/◌, ℤ, pos, half, low32, to_int, ◌+ℤ◌, ◌-ℤ◌, scale, lt_ℤ, le_ℤ, eq_ℤ, Bool, not, ◌&&◌, ◌||◌,
  Option, none, some, List, [], ◌∷◌, length, if◌then◌else◌,
}
use dunst.Settings.{Settings}
use dunst.Notification.{Notification}

-- The settings of the layout, those of struct settings that no other part reads. `origin` is its
-- bits: 1 top, 2 bottom, 4 left, 8 right.
pub record Look : Type 0 where
  pub text_icon_padding : ℤ
  pub padding : ℤ
  pub h_padding : ℤ
  pub progress_bar : Bool
  pub progress_bar_height : ℤ
  pub progress_bar_min_width : ℤ
  pub corner_radius : ℤ
  pub width : ℤ × ℤ
  pub height : ℤ × ℤ
  pub offset_x : ℤ
  pub origin : ℤ

-- struct colored_layout: its notification, the size of the text that get_text_size gives, and the
-- width and the height of its icon. `has_icon` says that the notification has one.
pub record ColoredLayout : Type 0 where
  pub n : Notification
  pub is_xmore : Bool
  pub text_width : ℤ
  pub text_height : ℤ
  pub icon : Option (ℤ × ℤ)
  pub has_icon : Bool

-- struct dimensions, less `x` and `y`, which these functions leave 0.
pub record Dimensions : Type 0 where
  pub w : ℤ
  pub h : ℤ
  pub text_width : ℤ
  pub text_height : ℤ
  pub corner_radius : ℤ

abbrev max_ℤ : ℤ → ℤ → ℤ
max_ℤ a b = if lt_ℤ b a then a else b

abbrev min_ℤ : ℤ → ℤ → ℤ
min_ℤ a b = if lt_ℤ a b then a else b

-- ICON_LEFT, ICON_RIGHT and ICON_TOP are 0, 1 and 2.
unfoldable pub get_horizontal_text_icon_padding : Look → ColoredLayout → ℤ
get_horizontal_text_icon_padding k cl =
    let horizontal_icon =
      cl.has_icon && (eq_ℤ cl.n.icon_position (pos 0) || eq_ℤ cl.n.icon_position (pos 1)) in
    if not (eq_ℤ k.text_icon_padding (pos 0)) && horizontal_icon
    then k.text_icon_padding
    else k.h_padding

abbrev has_vertical_icon : ColoredLayout → Bool
has_vertical_icon cl = cl.has_icon && eq_ℤ cl.n.icon_position (pos 2)

unfoldable pub get_vertical_text_icon_padding : Look → ColoredLayout → ℤ
get_vertical_text_icon_padding k cl =
    if not (eq_ℤ k.text_icon_padding (pos 0)) && has_vertical_icon cl
    then k.text_icon_padding
    else k.padding

unfoldable pub have_progress_bar : Look → ColoredLayout → Bool
have_progress_bar k cl = le_ℤ (pos 0) cl.n.progress && k.progress_bar && not cl.is_xmore

-- The notification's displayed_height is the `h` of the result.
unfoldable pub calculate_notification_dimensions : Look → ColoredLayout → Dimensions
unfolding get_horizontal_text_icon_padding get_vertical_text_icon_padding have_progress_bar
calculate_notification_dimensions k cl =
    let icon_width : ℤ = elim cl.icon [
      | none ↦ pos 0
      | some (w, h) ↦ w +ℤ get_horizontal_text_icon_padding k cl
    ] in
    let icon_height : ℤ = elim cl.icon [ none ↦ pos 0 | some (w, h) ↦ h ] in
    let bar = if have_progress_bar k cl then k.progress_bar_height +ℤ k.padding else pos 0 in
    let hidden = cl.n.hide_text in
    let text_w = if hidden then pos 0 else cl.text_width in
    let text_h = if hidden then pos 0 else cl.text_height in
    let between = if hidden then pos 0 else get_vertical_text_icon_padding k cl in
    let inner =
      if has_vertical_icon cl then icon_height +ℤ text_h +ℤ between else max_ℤ icon_height text_h in
    let h = inner +ℤ (bar +ℤ scale k.padding 2) in
    let w = text_w +ℤ icon_width +ℤ scale k.h_padding 2 in
    let wide = if have_progress_bar k cl then max_ℤ k.progress_bar_min_width w else w in
    record {
      w = min_ℤ k.width.1 (max_ℤ k.width.0 wide);
      h = min_ℤ k.height.1 (max_ℤ k.height.0 h);
      text_width = text_w;
      text_height = text_h;
      corner_radius = pos 0;
    }

unfoldable pub layout_get_height : Look → ColoredLayout → ℤ
unfolding get_vertical_text_icon_padding have_progress_bar
layout_get_height k cl =
    let hidden = cl.n.hide_text in
    let h_text = if hidden then pos 0 else cl.text_height in
    let vertical_padding = if hidden then pos 0 else get_vertical_text_icon_padding k cl in
    let h_icon : ℤ = elim cl.icon [ none ↦ pos 0 | some (w, h) ↦ h ] in
    let bar = if have_progress_bar k cl then k.progress_bar_height +ℤ k.padding else pos 0 in
    if has_vertical_icon cl
    then h_icon +ℤ h_text +ℤ bar +ℤ vertical_padding
    else max_ℤ h_text h_icon +ℤ bar

-- The loop over the layouts: the heights are added up, and the widest one counts.
unfoldable pub add_layouts : Settings → Look → List ColoredLayout → ℤ → ℤ → ℤ × ℤ
unfolding calculate_notification_dimensions
add_layouts c k [] w h = (w, h)
add_layouts c k (cl ∷ layouts) w h =
    let n_dim = calculate_notification_dimensions k cl in
    add_layouts c k layouts (max_ℤ w (n_dim.w +ℤ c.frame_width)) (h +ℤ n_dim.h)

-- `screen_width` is that of the active screen.
unfoldable pub calculate_dimensions : Settings → Look → ℤ → List ColoredLayout → Dimensions
unfolding add_layouts
calculate_dimensions c k screen_width layouts =
    let (widest, heights) = add_layouts c k layouts (pos 0) (pos 0) in
    let w = widest +ℤ scale c.frame_width 2 in
    let max_width = screen_width -ℤ k.offset_x in
    let extra =
      if not (eq_ℤ c.gap_size (pos 0))
      then scale (scale c.frame_width 2) (length layouts)
        +ℤ (scale c.gap_size (length layouts) -ℤ c.gap_size)
      else scale c.frame_width 2
        +ℤ (scale c.separator_height (length layouts) -ℤ c.separator_height) in
    record {
      w = if lt_ℤ max_width w then max_width else w;
      h = heights +ℤ extra;
      text_width = pos 0;
      text_height = pos 0;
      corner_radius = min_ℤ k.corner_radius (half heights);
    }

-- struct screen_info
pub record ScreenInfo : Type 0 where
  pub x : ℤ
  pub y : ℤ
  pub w : ℤ
  pub h : ℤ

-- One coordinate of the window: the screen's start and length, the window's length, the offset
-- scaled and rounded, and whether the origin lies at the start or at the end. The screen's length is
-- an unsigned int, so what is computed with it is taken modulo 2^32; a double that does not fit an
-- int is not defined in C.
unfoldable pub window_coordinate : Bool → Bool → ℤ → ℤ → ℤ → ℤ → ℤ
unfolding to_int
window_coordinate at_start at_end start len size offset =
    if at_start
    then start +ℤ offset
    else if at_end
    then pos (low32 (start +ℤ (len -ℤ size))) -ℤ offset
    else to_int (start +ℤ pos (low32 (len -ℤ size) / 2))

abbrev is_origin : ℤ → ℤ → ℤ → ℤ → Bool
is_origin a b c origin = eq_ℤ origin a || eq_ℤ origin b || eq_ℤ origin c

unfoldable pub calc_window_pos : Look → ScreenInfo → ℤ → ℤ → ℤ → ℤ → ℤ × ℤ
unfolding window_coordinate
calc_window_pos k scr width height offset_x offset_y = (
  window_coordinate (is_origin (pos 5) (pos 4) (pos 6) k.origin)
      (is_origin (pos 9) (pos 8) (pos 10) k.origin) scr.x scr.w width offset_x,
  window_coordinate (is_origin (pos 5) (pos 1) (pos 9) k.origin)
      (is_origin (pos 6) (pos 2) (pos 10) k.origin) scr.y scr.h height offset_y,
)
