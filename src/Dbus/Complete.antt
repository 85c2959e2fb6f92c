-- ===== src/Dbus/Complete.antt =====
-- What src/dbus.c makes of any message.
use dunst.Base.{
  ℕ, suc, ◌-◌, ◌/◌, ◌%◌, ◌*◌, ◌+◌, ◌^◌, ◌<◌, ℤ, leb, ltb, Bool, true, false, ◌&&◌, Option, none,
  some, List, [], ◌∷◌, Str, CString, codes, length, ◌==◌, if◌then◌else◌, ◌≡◌, refl, ap, ◌∙◌, arith,
  eq_ℤ,
}
use dunst.Settings.{Settings, Color, Gradient}
use dunst.Notification.{Notification, Rule, icon_off}
use dunst.Rules.{Matchers, unset_color}
use dunst.World.{Env}
use dunst.Message.{notification_init}
use dunst.Message.Init.{IsComplete, HasColors, notification_init-IsComplete}
use dunst.Options.Colors.{channels, color_of, strtoul, string_parse_color}
use dunst.Dbus.Hinted.{hinted, replace_raw-SameColors, read_colors-hinted}
use dunst.Dbus.Notify.{
  Message, read_message, read_colors, with_icon, colored, highlighted, gradient_of, replace_raw,
  notification_icon_replace_data, with_color, hint_fg, hint_bg, hint_frame, hint_highlight,
  lookup_hint, get_string, image_of, dbus_message_to_notification,
}

below16 : (a : ℕ) → leb (a % 16) 15 ≡ true
below16 a = let small : a % 16 < 16 = omega arith in ground arith

below256 : (a : ℕ) → leb (a % 256) 255 ≡ true
below256 a = let small : a % 256 < 256 = omega arith in ground arith

channels-valid4 : (v : ℕ) → unset_color (channels 4 v) ≡ false
unfolding channels
channels-valid4 v = rw (below16 (v / 4096), below16 (v / 256), below16 (v / 16), below16 v) refl

channels-valid8 : (v : ℕ) → unset_color (channels 8 v) ≡ false
unfolding channels
channels-valid8 v =
    rw (below256 (v / 16777216), below256 (v / 65536), below256 (v / 256), below256 v) refl

abbrev unset_option : Option Color → Bool
unset_option none = false
unset_option (some k) = unset_color k

unset-if :
    (b : Bool) (x y : Option Color)
    → unset_option x ≡ false
    → unset_option y ≡ false
    → unset_option (if b then x else y) ≡ false
unset-if true x y h k = h
unset-if false x y h k = k

color_of-valid : (used val : ℕ) → unset_option (color_of used val) ≡ false
unfolding color_of
color_of-valid used val =
    unset-if (used == 3) (some (channels 4 ((val * 16 + 15) % 2 ^ 64))) _
      (channels-valid4 ((val * 16 + 15) % 2 ^ 64))
      (unset-if (used == 6) (some (channels 8 ((val * 256 + 255) % 2 ^ 64))) _
        (channels-valid8 ((val * 256 + 255) % 2 ^ 64))
        (unset-if (used == 4) (some (channels 4 val))
          (if used == 8 then some (channels 8 val) else none) (channels-valid4 val)
          (unset-if (used == 8) (some (channels 8 val)) none (channels-valid8 val) refl)))

string_parse_color-valid : (s : Str) → unset_option (string_parse_color s) ≡ false
unfolding string_parse_color
string_parse_color-valid [] = refl
string_parse_color-valid (c ∷ s) =
    let (val, end) = strtoul s in
    unset-if (c == b'#' && ltb (length end) 2) (color_of (length s - length end) val) none
      (color_of-valid (length s - length end) val) refl

-- A hint that sets one colour to one that is set.
abbrev Colours : (Color → Notification → Notification) → Type 0
Colours f =
    (k : Color) (n : Notification) → unset_color k ≡ false → IsComplete n → IsComplete (f k n)

hint_fg-IsComplete : Colours hint_fg
unfolding hint_fg
hint_fg-IsComplete k n h a = record {
  appname = a.appname;
  summary = a.summary;
  body = a.body;
  category = a.category;
  fg = h;
  bg = a.bg;
  frame = a.frame;
}

hint_bg-IsComplete : Colours hint_bg
unfolding hint_bg
hint_bg-IsComplete k n h a = record {
  appname = a.appname;
  summary = a.summary;
  body = a.body;
  category = a.category;
  fg = a.fg;
  bg = h;
  frame = a.frame;
}

hint_frame-IsComplete : Colours hint_frame
unfolding hint_frame
hint_frame-IsComplete k n h a = record {
  appname = a.appname;
  summary = a.summary;
  body = a.body;
  category = a.category;
  fg = a.fg;
  bg = a.bg;
  frame = h;
}

colored-IsComplete :
    (o : Option Color) (f : Color → Notification → Notification) (n : Notification)
    → Colours f
    → unset_option o ≡ false
    → IsComplete n
    → IsComplete (colored o f n)
colored-IsComplete none f n c h a = a
colored-IsComplete (some k) f n c h a = c k n h a

with_color-IsComplete :
    (s : CString) (f : Color → Notification → Notification) (n : Notification)
    → Colours f
    → IsComplete n
    → IsComplete (with_color s f n)
with_color-IsComplete none f n c a = a
with_color-IsComplete (some s) f n c a =
    colored-IsComplete (string_parse_color s) f n c (string_parse_color-valid s) a

hint_highlight-IsComplete :
    (g : Gradient) (n : Notification) → IsComplete n → IsComplete (hint_highlight g n)
unfolding hint_highlight
hint_highlight-IsComplete g n a = record {
  appname = a.appname;
  summary = a.summary;
  body = a.body;
  category = a.category;
  fg = a.fg;
  bg = a.bg;
  frame = a.frame;
}

highlighted-IsComplete :
    (o : Option Gradient) (n : Notification) → IsComplete n → IsComplete (highlighted o n)
highlighted-IsComplete none n a = a
highlighted-IsComplete (some g) n a = hint_highlight-IsComplete g n a

with_icon-IsComplete :
    (o : Option (CString × ℕ)) (now : ℤ) (n : Notification)
    → IsComplete n
    → IsComplete (with_icon o now n)
with_icon-IsComplete none now n a = record {
  appname = a.appname;
  summary = a.summary;
  body = a.body;
  category = a.category;
  fg = a.fg;
  bg = a.bg;
  frame = a.frame;
}
with_icon-IsComplete (some p) now n a = record {
  appname = a.appname;
  summary = a.summary;
  body = a.body;
  category = a.category;
  fg = a.fg;
  bg = a.bg;
  frame = a.frame;
}

IsComplete-if :
    (b : Bool) (m n : Notification) → IsComplete m → IsComplete n → IsComplete (if b then m else n)
IsComplete-if true m n h k = h
IsComplete-if false m n h k = k

replace_raw-IsComplete :
    (e : Env) (now : ℤ) (image : Option ℕ) (n : Notification)
    → IsComplete n
    → IsComplete (replace_raw e now image n)
unfolding notification_icon_replace_data
replace_raw-IsComplete e now none n a = a
replace_raw-IsComplete e now (some i) n a =
    let loaded = with_icon (e.icon_get_for_data i n.min_icon_size n.max_icon_size) now n in
    IsComplete-if n.receiving_raw_icon (if eq_ℤ n.icon_position icon_off then n else loaded) n
      (IsComplete-if (eq_ℤ n.icon_position icon_off) n loaded a
        (with_icon-IsComplete (e.icon_get_for_data i n.min_icon_size n.max_icon_size) now n a))
      a

-- Whatever a message of the right type holds, the notification that is made of it has an
-- application, a summary, a body and a category that are not NULL, and colours that are set, if the
-- settings have colours. Its foreground, background and frame are those of the hints fgcolor,
-- bgcolor and frcolor, where these parse, and those that the settings and the rules gave, where
-- they do not.
pub dbus_message_to_notification-IsComplete :
    (e : Env) (c : Settings) (m : Matchers) (extract : Str → CString) (rules : List Rule)
    (reads : ℕ) (message : Message)
    → HasColors c
    → let n = dbus_message_to_notification e c m extract rules reads message in
      let ready =
        notification_init e c m extract
          (e.wall (suc reads))
          rules
          (read_message c (e.monotonic reads) message) in
      IsComplete n
      × (n.fg ≡ hinted (get_string message.hints (codes "fgcolor")) ready.fg)
      × (n.bg ≡ hinted (get_string message.hints (codes "bgcolor")) ready.bg)
      × (n.frame ≡ hinted (get_string message.hints (codes "frcolor")) ready.frame)
unfolding dbus_message_to_notification read_colors
dbus_message_to_notification-IsComplete e c m extract rules reads message h =
    let hints = message.hints in
    let ready =
      notification_init e c m extract (e.wall (suc reads)) rules
        (read_message c (e.monotonic reads) message) in
    let n = replace_raw e (e.wall (suc (suc reads))) (image_of hints) ready in
    let a = replace_raw-IsComplete e (e.wall (suc (suc reads))) (image_of hints) ready (
      notification_init-IsComplete e c m extract (e.wall (suc reads)) rules
        (read_message c (e.monotonic reads) message) h) in
    let fg = get_string hints (codes "fgcolor") in
    let bg = get_string hints (codes "bgcolor") in
    let fc = get_string hints (codes "frcolor") in
    let raw = replace_raw-SameColors e (e.wall (suc (suc reads))) (image_of hints) ready in
    let (f, b, r) = read_colors-hinted hints n in
    (
      highlighted-IsComplete (gradient_of (lookup_hint hints (codes "hlcolor")))
          (with_color fc hint_frame (with_color bg hint_bg (with_color fg hint_fg n)))
          (with_color-IsComplete fc hint_frame (with_color bg hint_bg (with_color fg hint_fg n))
            hint_frame-IsComplete
            (with_color-IsComplete bg hint_bg (with_color fg hint_fg n) hint_bg-IsComplete
              (with_color-IsComplete fg hint_fg n hint_fg-IsComplete a))),
      f ∙ ap (hinted fg) raw.0,
      b ∙ ap (hinted bg) raw.1,
      r ∙ ap (hinted fc) raw.2,
    )
