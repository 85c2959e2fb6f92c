-- ===== src/Dbus/Notify.antt =====
-- The notification of a message, src/dbus.c: dbus_message_to_notification, with
-- notification_create of src/notification.c.
use dunst.Base.{
  ℕ, suc, ℤ, pos, minus_one, to_int, scale, lt_ℤ, le_ℤ, eq_ℤ, Bool, true, false, Option, none, some,
  is_some, List, [], ◌∷◌, Str, CString, codes, str_eq, ltb, if◌then◌else◌,
}
use dunst.Settings.{Settings, Color, color_uninit, Gradient, fs_show, markup_full}
use dunst.Notification.{Notification, Rule, icon_off}
use dunst.Rules.{Matchers, kept_original, color_valid}
use dunst.World.{Env}
use dunst.Message.{notification_init}
use dunst.Options.Colors.{string_parse_color}
use dunst.Menu.{g_hash_table_insert}

-- The values of the hints, by their D-Bus type; an image is a number.
pub data Hint : Type 0 where
  hint_byte : ℕ → Hint
  hint_string : Str → Hint
  hint_int32 : ℤ → Hint
  hint_uint32 : ℕ → Hint
  hint_boolean : Bool → Hint
  hint_strings : List Str → Hint
  hint_image : ℕ → Hint
  hint_other : Hint

abbrev pub Hints : Type 0
Hints = List (Str × Hint)

-- The arguments of Notify.
pub record Message : Type 0 where
  pub app_name : Str
  pub replaces_id : ℕ
  pub app_icon : Str
  pub summary : Str
  pub body : Str
  pub actions : List Str
  pub hints : Hints
  pub expire_timeout : ℤ

-- g_variant_lookup_value, before its test of the type: the first entry with the key.
unfoldable pub lookup_hint : Hints → Str → Hint
lookup_hint [] key = hint_other
lookup_hint (h ∷ rest) key =
    let later = lookup_hint rest key in if str_eq h.0 key then h.1 else later

abbrev as_byte : Hint → Option ℕ
as_byte (hint_byte b) = some b
as_byte _ = none

abbrev as_string : Hint → CString
as_string (hint_string s) = some s
as_string _ = none

abbrev as_image : Hint → Option ℕ
as_image (hint_image i) = some i
as_image _ = none

abbrev pub get_string : Hints → Str → CString
get_string hints key = as_string (lookup_hint hints key)

abbrev first_of {ℓ} : {A : Type ℓ} → Option A → Option A → Option A
first_of none b = b
first_of (some a) b = some a

-- static const char *stack_tag_hints[]
abbrev pub stack_tag_hints : List Str
stack_tag_hints =
    codes "synchronous"
    ∷ codes "private-synchronous"
    ∷ codes "x-canonical-private-synchronous"
    ∷ codes "x-dunst-stack-tag"
    ∷ []

-- The first of the hints that is there, as a string.
unfoldable pub stack_tag_of : Hints → List Str → CString
unfolding lookup_hint
stack_tag_of hints [] = none
stack_tag_of hints (key ∷ rest) = first_of (get_string hints key) (stack_tag_of hints rest)

-- The pairs of the actions array; an odd one at the end is left out.
unfoldable pub read_actions : List Str → List (Str × Str) → List (Str × Str)
unfolding g_hash_table_insert
read_actions [] table = table
read_actions (key ∷ []) table = table
read_actions (key ∷ value ∷ rest) table = read_actions rest (g_hash_table_insert table key value)

-- The hint `value`, of either sign, and the assignment to an int.
unfoldable pub progress_of : Hint → ℤ
unfolding to_int
progress_of (hint_int32 v) = if lt_ℤ v (pos 0) then minus_one else v
progress_of (hint_uint32 v) = if lt_ℤ (to_int (pos v)) (pos 0) then minus_one else to_int (pos v)
progress_of _ = minus_one

unfoldable pub transient_of : Hint → Bool
transient_of (hint_boolean b) = b
transient_of (hint_uint32 v) = ltb 0 v
transient_of (hint_int32 v) = lt_ℤ (pos 0) v
transient_of _ = false

-- notification_create, at the time that the clock shows; what is not set is 0.
unfoldable pub notification_create : Settings → ℤ → Notification
notification_create c now = record {
  id = pos 0;
  dbus_valid = false;
  original = none;
  appname = none;
  summary = none;
  body = none;
  category = none;
  desktop_entry = none;
  urgency = pos 1;
  override_pause_level = pos 0;
  icon = none;
  icon_id = none;
  icon_time = pos 0;
  iconname = none;
  icon_path = none;
  default_icon_name = none;
  min_icon_size = pos 32;
  max_icon_size = pos 32;
  icon_position = pos 0;
  receiving_raw_icon = false;
  start = pos 0;
  timestamp = now;
  timeout = minus_one;
  dbus_timeout = minus_one;
  locked = false;
  progress_bar_alignment = pos 1;
  actions = [];
  default_action_name = some (codes "default");
  markup = markup_full;
  format = c.format;
  scripts = [];
  fg = color_uninit;
  bg = color_uninit;
  frame = color_uninit;
  highlight = none;
  stack_tag = none;
  transient = false;
  progress = minus_one;
  history_ignore = pos 0;
  skip_display = pos 0;
  redisplayed = false;
  dup_count = 0;
  fullscreen = fs_show;
  script_run = false;
  marked_for_closure = 0;
  marked_for_removal = 0;
  word_wrap = true;
  ellipsize = pos 2;
  alignment = pos 0;
  hide_text = false;
  msg = none;
  text_to_render = none;
  urls = none;
}

abbrev pub image_of : Hints → Option ℕ
image_of hints = first_of (as_image (lookup_hint hints (codes "image-data"))) (
    first_of (as_image (lookup_hint hints (codes "image_data")))
      (as_image (lookup_hint hints (codes "icon_data"))))

-- Up to notification_init.
unfoldable pub read_message : Settings → ℤ → Message → Notification
unfolding notification_create lookup_hint read_actions progress_of transient_of stack_tag_of to_int
    scale
read_message c now m =
    let fresh = notification_create c now in
    let urgency = as_byte (lookup_hint m.hints (codes "urgency")) in
    let path =
      first_of (get_string m.hints (codes "image-path"))
        (get_string m.hints (codes "image_path")) in
    record fresh {
      id = to_int (pos m.replaces_id);
      dbus_valid = true;
      appname = some m.app_name;
      iconname = first_of path (some m.app_icon);
      summary = some m.summary;
      body = some m.body;
      actions = read_actions m.actions [];
      urgency = elim urgency [ none ↦ pos 1 | some b ↦ pos b ];
      category = get_string m.hints (codes "category");
      desktop_entry = get_string m.hints (codes "desktop-entry");
      progress = progress_of (lookup_hint m.hints (codes "value"));
      stack_tag = stack_tag_of m.hints stack_tag_hints;
      transient = transient_of (lookup_hint m.hints (codes "transient"));
      receiving_raw_icon = is_some (image_of m.hints);
      dbus_timeout =
          if le_ℤ (pos 0) m.expire_timeout then scale m.expire_timeout 1000 else minus_one;
    }

-- The surface of the raw icon, with its id, at the time of the load.
abbrev pub with_icon : Option (CString × ℕ) → ℤ → Notification → Notification
with_icon none now n = record n { icon = none; icon_id = none }
with_icon (some (id, surface)) now n = record n {
  icon = some surface;
  icon_id = id;
  icon_time = now;
}

unfoldable pub notification_icon_replace_data : Env → ℤ → ℕ → Notification → Notification
notification_icon_replace_data e now image n =
    if eq_ℤ n.icon_position icon_off
    then n
    else with_icon (e.icon_get_for_data image n.min_icon_size n.max_icon_size) now n

-- The colour hints keep the colour that the rules left, once, in the original.
unfoldable pub hint_fg : Color → Notification → Notification
hint_fg k n =
    let o = kept_original n.original in
    record n { fg = k; original = some (record o { fg = if color_valid o.fg then o.fg else n.fg }) }

unfoldable pub hint_bg : Color → Notification → Notification
hint_bg k n =
    let o = kept_original n.original in
    record n { bg = k; original = some (record o { bg = if color_valid o.bg then o.bg else n.bg }) }

unfoldable pub hint_frame : Color → Notification → Notification
hint_frame k n =
    let o = kept_original n.original in
    record n {
      frame = k;
      original = some (record o { fc = if color_valid o.fc then o.fc else n.frame });
    }

-- GRADIENT_VALID
abbrev gradient_valid : Option Gradient → Bool
gradient_valid (some (k ∷ ks)) = true
gradient_valid _ = false

unfoldable pub hint_highlight : Gradient → Notification → Notification
hint_highlight g n =
    let o = kept_original n.original in
    record n {
      highlight = some g;
      original = some (record o {
        highlight = if gradient_valid o.highlight then o.highlight else n.highlight;
      });
    }

unfoldable pub parse_all : List Str → Option Gradient
unfolding string_parse_color
parse_all [] = some []
parse_all (s ∷ rest) = elim (string_parse_color s) [
  | none ↦ none
  | some k ↦ elim (parse_all rest) [ none ↦ none | some ks ↦ some (k ∷ ks) ]
]

-- A colour that does not parse changes nothing.
abbrev pub colored :
    Option Color → (Color → Notification → Notification) → Notification → Notification
colored none f n = n
colored (some k) f n = f k n

abbrev pub with_color :
    CString → (Color → Notification → Notification) → Notification → Notification
with_color none f n = n
with_color (some s) f n = colored (string_parse_color s) f n

abbrev pub single : Option Color → Option Gradient
single none = none
single (some k) = some (k ∷ [])

abbrev pub highlighted : Option Gradient → Notification → Notification
highlighted none n = n
highlighted (some g) n = hint_highlight g n

abbrev pub gradient_of : Hint → Option Gradient
gradient_of (hint_strings cols) = parse_all cols
gradient_of (hint_string s) = single (string_parse_color s)
gradient_of _ = none

abbrev pub with_highlight : Hint → Notification → Notification
with_highlight h n = highlighted (gradient_of h) n

unfoldable pub read_colors : Hints → Notification → Notification
unfolding lookup_hint hint_fg hint_bg hint_frame hint_highlight parse_all string_parse_color
read_colors hints n = with_highlight (lookup_hint hints (codes "hlcolor")) (
    with_color (get_string hints (codes "frcolor")) hint_frame (
      with_color (get_string hints (codes "bgcolor")) hint_bg
        (with_color (get_string hints (codes "fgcolor")) hint_fg n)))

abbrev pub replace_raw : Env → ℤ → Option ℕ → Notification → Notification
replace_raw e now none n = n
replace_raw e now (some image) n =
    if n.receiving_raw_icon then notification_icon_replace_data e now image n else n

-- The three readings of the clocks are those of the creation, of the rules and of the raw icon.
unfoldable pub dbus_message_to_notification :
    Env → Settings → Matchers → (Str → CString) → List Rule → ℕ → Message → Notification
unfolding read_message notification_init notification_icon_replace_data read_colors
dbus_message_to_notification e c m extract rules reads message =
    let read = read_message c (e.monotonic reads) message in
    let ready = notification_init e c m extract (e.wall (suc reads)) rules read in
    read_colors message.hints
      (replace_raw e (e.wall (suc (suc reads))) (image_of message.hints) ready)
