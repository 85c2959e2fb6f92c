-- ===== src/Message.antt =====
-- How a notification is completed when it arrives: notification_init and the functions that it calls
-- (src/notification.c), and the text that is drawn.
pub mod Format
pub mod Init
use dunst.Base.{
  ℕ, suc, ◌-◌, ◌/◌, ◌%◌, ℤ, pos, minus_one, pos_part, neg_part, Bool, true, false, not, ◌&&◌, ◌||◌,
  Option, none, some, is_some, List, [], ◌∷◌, ◌++◌, reverse, length, take, drop, Str, CString,
  codes, or_else, str_empty, has_prefix, skip_while, g_ascii_isspace, print_ℕ, leb, ltb, lt_ℤ, le_ℤ,
  eq_ℤ, ◌+ℤ◌, ◌-ℤ◌, ◌==◌, if◌then◌else◌,
}
use dunst.Settings.{Settings, NotificationColors, Gradient, MarkupMode, markup_no}
use dunst.Notification.{Notification, Rule}
use dunst.Utils.{string_replace_all, string_append}
use dunst.World.{Env}
use dunst.Queues.Wakeup.{remainder, second}
use dunst.Rules.{Matchers, rule_apply_all, unset_color}
use dunst.Markup.{markup_transform, markup_strip_a, markup_strip_img}

-- DUNST_NOTIF_MAX_CHARS
abbrev pub dunst_notif_max_chars : ℕ
dunst_notif_max_chars = 50000

-- g_strchomp
unfoldable pub chomp : Str → Str
unfolding skip_while
chomp s = reverse (skip_while g_ascii_isspace (reverse s))

abbrev is_slash : ℕ → Bool
is_slash c = c == b'/'

-- The bytes before the first slash.
unfoldable pub before_slash : Str → Str
before_slash [] = []
before_slash (c ∷ s) = let rest = before_slash s in if is_slash c then [] else c ∷ rest

-- basename of libgen.h: the part after the last slash, of a path without the slashes at its end.
unfoldable pub basename : Str → Str
unfolding before_slash skip_while
basename [] = codes "."
basename (c ∷ s) =
    let name = reverse (before_slash (skip_while is_slash (reverse (c ∷ s)))) in
    if length name == 0 then codes "/" else name

-- printf("%d") of an int.
unfoldable pub print_int : ℤ → Str
unfolding print_ℕ
print_int z = if lt_ℤ z (pos 0) then b'-' ∷ print_ℕ (neg_part z) else print_ℕ (pos_part z)

-- printf("[%3d%%]"): at least three bytes, with spaces in front.
unfoldable pub print_percent : ℤ → Str
unfolding print_int
print_percent z =
    let s = print_int z in
    let pad = if ltb (length s) 2 then codes "  " else if ltb (length s) 3 then codes " " else [] in
    codes "[" ++ (pad ++ (s ++ codes "%]"))

-- The text of a field of the format and the way it is marked up; `none` is an unknown field.
unfoldable pub format_field : Notification → ℕ → Option (Str × MarkupMode)
unfolding basename print_int print_percent
format_field n c =
    if c == b'a'
    then some (or_else n.appname [], markup_no)
    else if c == b's'
    then some (or_else n.summary [], markup_no)
    else if c == b'b'
    then some (or_else n.body [], n.markup)
    else if c == b'c'
    then some (or_else n.category [], markup_no)
    else if c == b'S'
    then some (or_else n.stack_tag [], markup_no)
    else if c == b'I'
    then some (elim n.iconname [ none ↦ [] | some i ↦ basename i ], markup_no)
    else if c == b'i'
    then some (or_else n.iconname [], markup_no)
    else if c == b'p'
    then some (if eq_ℤ n.progress minus_one then [] else print_percent n.progress, markup_no)
    else if c == b'n'
    then some (if eq_ℤ n.progress minus_one then [] else print_int n.progress, markup_no)
    else if c == b'%'
    then some (codes "%", markup_no)
    else none

-- The loop over the format: `pending` says that the byte before is the `%` that `substr` points at. The
-- search goes on behind what was put in; behind an unknown field it goes on at its letter.
unfoldable pub format_fields : Settings → Notification → Str → Bool → Str
unfolding format_field markup_transform
format_fields c n [] pending = if pending then codes "%" else []
format_fields c n (b ∷ s) pending = elim pending [
  | true ↦ elim (format_field n b) [
    | none ↦ b'%' ∷ b ∷ format_fields c n s false
    | some (text, mode) ↦ markup_transform c text mode ++ format_fields c n s false
  ]
  | false ↦ elim (b == b'%') [
    | true ↦ format_fields c n s true
    | false ↦ b ∷ format_fields c n s false
  ]
]

-- The message: the escapes of the format, its fields, and the cut to the largest length.
unfoldable pub format_message : Settings → Notification → Str
unfolding chomp format_fields string_replace_all
format_message c n =
    let unescaped =
      string_replace_all (codes "\\t") (codes "\t")
        (string_replace_all (codes "\\n") (codes "\n") (or_else n.format [])) in
    take dunst_notif_max_chars (chomp (format_fields c n unescaped false))

unfoldable pub notification_format_message : Settings → Notification → Notification
unfolding format_message
notification_format_message c n = record n { msg = some (format_message c n) }

-- `extract` is extract_urls of src/menu.c, a search with a regular expression.
unfoldable pub notification_extract_urls : (Str → CString) → Notification → Notification
unfolding string_append markup_strip_a markup_strip_img
notification_extract_urls extract n =
    let urls_in = string_append n.summary n.body (some (codes " ")) in
    let (without_a, urls_a) = markup_strip_a true (or_else urls_in []) in
    let (without_img, urls_img) = markup_strip_img true without_a in
    let newline = some (codes "\n") in
    record n {
      urls =
          string_append (string_append (string_append none urls_a newline) urls_img newline)
            (extract without_img) newline;
    }

-- The colours of an urgency, which is sanitized before.
unfoldable pub defcolors : Settings → ℤ → NotificationColors
defcolors c urgency =
    if eq_ℤ urgency (pos 0)
    then c.colors_low
    else if eq_ℤ urgency (pos 1)
    then c.colors_norm
    else c.colors_crit

unfoldable pub sanitize_urgency : ℤ → ℤ
sanitize_urgency u = if lt_ℤ u (pos 0) then pos 0 else if lt_ℤ (pos 2) u then pos 2 else u

-- GRADIENT_VALID, and the default in place of a gradient that is not.
abbrev valid_gradient : Option Gradient → Gradient → Option Gradient
valid_gradient none default = some default
valid_gradient (some []) default = some default
valid_gradient (some (k ∷ ks)) default = some (k ∷ ks)

-- notification_init up to the rules.
unfoldable pub set_defaults : Settings → Notification → Notification
unfolding defcolors sanitize_urgency
set_defaults c n =
    let u = sanitize_urgency n.urgency in
    let colors = defcolors c u in
    record n {
      appname = some (or_else n.appname (codes "unknown"));
      summary = some (or_else n.summary []);
      body = some (or_else n.body []);
      category = some (or_else n.category []);
      urgency = u;
      timeout = if lt_ℤ n.timeout (pos 0) then c.timeouts u else n.timeout;
      fg = if unset_color n.fg then colors.fg else n.fg;
      bg = if unset_color n.bg then colors.bg else n.bg;
      frame = if unset_color n.frame then colors.frame else n.frame;
      highlight = valid_gradient n.highlight colors.highlight;
      progress = if lt_ℤ n.progress (pos 0) then minus_one else n.progress;
      override_pause_level = pos 0;
    }

abbrev command_removed : Str
command_removed =
    codes "DUNST_COMMAND_* has been removed, please switch to dunstctl. See #830 for more details. "
    ++ codes "https://github.com/dunst-project/dunst/pull/830"

-- The warning that stands in the body of a command of old.
unfoldable pub warn_command : Notification → Notification
unfolding string_append
warn_command n =
    if has_prefix (or_else n.summary []) (codes "DUNST_COMMAND_")
    then record n { body = string_append n.body (some command_removed) (some (codes "\n")) }
    else n

-- The name of the icon: the notification's, else its default, else that of the urgency.
unfoldable pub choose_icon : Settings → Notification → Notification
choose_icon c n =
    let own = if str_empty n.iconname then none else n.iconname in
    let chosen = if not (is_some n.icon) && not (is_some own) then n.default_icon_name else own in
    record n {
      iconname = if not (is_some n.icon) && not (is_some chosen) then c.icons n.urgency else chosen;
    }

unfoldable pub take_dbus_timeout : Notification → Notification
take_dbus_timeout n = record n {
  timeout = if le_ℤ (pos 0) n.dbus_timeout then n.dbus_timeout else n.timeout;
}

unfoldable pub notification_init :
    Env → Settings → Matchers → (Str → CString) → ℤ → List Rule → Notification → Notification
unfolding set_defaults warn_command choose_icon notification_extract_urls
    notification_format_message take_dbus_timeout rule_apply_all
notification_init e c m extract now rules n =
    let ruled = rule_apply_all e c m now rules (set_defaults c n) in
    take_dbus_timeout (
      notification_format_message c
        (notification_extract_urls extract (choose_icon c (warn_command ruled))))

-- `(%d%s%s) ` before the message: the number of duplicates, and letters for actions and URLs.
unfoldable pub indicators : Settings → Notification → Str
unfolding print_ℕ
indicators c n =
    let actions = if 0 == length n.actions then [] else codes "A" in
    let urls = if is_some n.urls then codes "U" else [] in
    let marks = if c.show_indicators then actions ++ urls else [] in
    let count =
      if ltb 0 n.dup_count && not c.hide_duplicate_count then print_ℕ n.dup_count else [] in
    let inside = count ++ marks in
    if length inside == 0 then [] else codes "(" ++ (inside ++ codes ") ")

-- `(%dh %dm %ds old)`, of a number of seconds.
unfoldable pub print_age : ℕ → Str
unfolding print_ℕ
print_age s =
    let hours = s / 3600 in
    let minutes = s / 60 % 60 in
    let seconds = print_ℕ (s % 60) ++ codes "s old)" in
    let later = print_ℕ minutes ++ (codes "m " ++ seconds) in
    codes " ("
    ++ (if ltb 0 hours
        then print_ℕ hours ++ (codes "h " ++ later)
        else if ltb 0 minutes
        then later
        else seconds)

-- The text that is drawn; `now` is what time_monotonic_now gives.
unfoldable pub notification_update_text_to_render : Settings → ℤ → Notification → Notification
unfolding chomp indicators print_age remainder
notification_update_text_to_render c now n =
    let shown = chomp (or_else n.msg []) in
    let buf = indicators c n ++ shown in
    let t_delta = now -ℤ (n.timestamp -ℤ remainder n.timestamp) in
    let age =
      if le_ℤ (pos 0) c.show_age_threshold && le_ℤ c.show_age_threshold t_delta
      then print_age (pos_part t_delta / second)
      else [] in
    record n { msg = some shown; text_to_render = some (buf ++ age) }
