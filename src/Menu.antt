-- ===== src/Menu.antt =====
-- src/menu.c and the actions of src/notification.c: the lines that the menu program is given, and
-- what becomes of the line that it returns.
pub mod Context
pub mod Lines
use dunst.Base.{
  ℕ, zero, suc, ◌+◌, ◌-◌, ◌^◌, ℤ, pos, negsuc, to_int, Bool, true, false, not, ◌&&◌, Option, none,
  some, List, [], ◌∷◌, ◌++◌, reverse, take, drop, Str, CString, codes, or_else, str_eq, strstr,
  strchr, skip_while, g_ascii_isspace, has_prefix, eq_ℤ, ◌==◌, if◌then◌else◌,
}
use dunst.Notification.{Notification}
use dunst.World.{World, Env, action_invoked, browser_opened}
use dunst.Message.{print_int}
use dunst.Utils.{string_append}
use dunst.Options.{strto, signed, in_long}
use dunst.Queues.{find, has_id}
use dunst.Daemon.{Daemon, log}

-- The entries of a hash table: g_hash_table_contains and g_hash_table_insert.
unfoldable pub g_hash_table_contains : List (Str × Str) → Str → Bool
g_hash_table_contains [] key = false
g_hash_table_contains (a ∷ rest) key =
    let later = g_hash_table_contains rest key in if str_eq a.0 key then true else later

unfoldable pub g_hash_table_insert : List (Str × Str) → Str → Str → List (Str × Str)
g_hash_table_insert [] key value = (key, value) ∷ []
g_hash_table_insert (a ∷ rest) key value =
    let later = g_hash_table_insert rest key value in
    if str_eq a.0 key then (key, value) ∷ rest else a ∷ later

-- signal_action_invoked of src/dbus.c
unfoldable pub signal_action_invoked : ℕ → Str → Daemon → Daemon
signal_action_invoked p identifier d =
    let n = d.world.heap p in
    if not n.dbus_valid then d else log (action_invoked n.id identifier ∷ []) d

-- The line of one action: the value, the summary, the id and the key.
unfoldable pub action_line : Notification → Str × Str → Str
unfolding print_int
action_line n (key, value) =
    b'#'
    ∷ (value
        ++ (codes " ("
            ++ (or_else n.summary (codes "(null)")
                ++ (codes ") [" ++ (print_int n.id ++ (b',' ∷ (key ++ b']' ∷ [])))))))

unfoldable pub dmenu_lines : Notification → List (Str × Str) → CString → CString
unfolding action_line string_append
dmenu_lines n [] dmenu_str = dmenu_str
dmenu_lines n (a ∷ rest) dmenu_str =
    dmenu_lines n rest (string_append dmenu_str (some (action_line n a)) (some (codes "\n")))

unfoldable pub notification_dmenu_string : Notification → CString
unfolding dmenu_lines
notification_dmenu_string n = dmenu_lines n n.actions none

-- What follows strrchr(s, c).
unfoldable pub after_last : ℕ → Str → Option Str
after_last c [] = none
after_last c (b ∷ s) = elim (after_last c s) [
  | some rest ↦ some rest
  | none ↦ if b == c then some s else none
]

-- The long that strtol gives, cut to an int, and what it leaves; without digits it leaves all.
unfoldable pub strtol : Str → ℤ × Str
unfolding strto to_int
strtol s = elim (strto 10 s) [
  | none ↦ (pos 0, s)
  | some (negative, (n, rest)) ↦
      let l =
        if in_long (signed negative n)
        then signed negative n
        else if negative
        then negsuc (2 ^ 63 - 1)
        else pos (2 ^ 63 - 1) in
      (to_int l, rest)
]

-- The id and the key of `#<human readable> (<summary>)[<id>,<action>]`; `none` is a warning.
unfoldable pub key_of : ℤ × Str → Option (ℤ × Str)
unfolding strchr
key_of (id, []) = none
key_of (id, c ∷ s) =
    if not (c == b',')
    then none
    else elim (strchr s b']') [ none ↦ none | some k ↦ some (id, take k s) ]

unfoldable pub parse_action : Str → Option (ℤ × Str)
unfolding after_last strtol key_of
parse_action action = elim (after_last b'[' action) [
  | none ↦ none
  | some data_start ↦ key_of (strtol data_start)
]

abbrev pub has_action : World → ℤ → Str → ℕ → Bool
has_action w id key p = eq_ℤ (w.heap p).id id && g_hash_table_contains (w.heap p).actions key

unfoldable pub invoke_action : Str → Daemon → Daemon
unfolding parse_action find g_hash_table_contains signal_action_invoked
invoke_action action d = elim (parse_action action) [
  | none ↦ d
  | some (id, key) ↦ elim (find (has_action d.world id key) d.world.displayed) [
    | none ↦ d
    | some p ↦ signal_action_invoked p key d
  ]
]

-- A leading `[ linktext ] ` is cut off. Without a command nothing is started.
unfoldable pub browser_url : Str → Str
unfolding strstr has_prefix
browser_url url =
    if has_prefix url (codes "[")
    then elim (strstr url (codes "] ")) [ none ↦ url | some k ↦ drop (k + 2) url ]
    else url

unfoldable pub open_browser : Str → Daemon → Daemon
unfolding browser_url
open_browser url d = elim d.settings.browser_cmd [
  | none ↦ d
  | some cmd ↦ log (browser_opened (cmd ++ browser_url url ∷ []) ∷ []) d
]

unfoldable pub g_strstrip : Str → Str
unfolding skip_while
g_strstrip s = reverse (skip_while g_ascii_isspace (reverse (skip_while g_ascii_isspace s)))

unfoldable pub dispatch_menu_line : Str → Daemon → Daemon
unfolding invoke_action open_browser
dispatch_menu_line [] d = d
dispatch_menu_line (c ∷ s) d = if c == b'#' then invoke_action s d else open_browser (c ∷ s) d

unfoldable pub dispatch_menu_result : CString → Daemon → Daemon
unfolding g_strstrip dispatch_menu_line
dispatch_menu_result none d = d
dispatch_menu_result (some input) d = dispatch_menu_line (g_strstrip input) d
