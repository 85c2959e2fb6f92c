-- ===== src/Dbus.antt =====
-- The D-Bus server, src/dbus.c: the tables of the two interfaces and the search for a method's
-- name. A method is named by its callback, dbus_cb_<name>.
pub mod Search
pub mod Notify
pub mod Handlers
pub mod Levels
pub mod Answers
pub mod Hinted
pub mod Complete
pub mod Lengths
pub mod RuleList
pub mod Named
use Prim.Native.Nat.{Ordering, compare}
use dunst.Base.{
  ℕ, zero, suc, ◌+◌, ◌/◌, Bool, true, false, ◌&&◌, Option, none, some, List, [], ◌∷◌, length, nth,
  Str, codes, ltb, if◌then◌else◌,
}

-- strcmp, by its sign.
unfoldable pub strcmp : Str → Str → Ordering
strcmp [] [] = Ordering.eq
strcmp [] (b ∷ t) = Ordering.lt
strcmp (a ∷ s) [] = Ordering.gt
strcmp (a ∷ s) (b ∷ t) =
    let later = strcmp s t in
    elim (compare a b) [
      | Ordering.lt ↦ Ordering.lt
      | Ordering.gt ↦ Ordering.gt
      | Ordering.eq ↦ later
    ]

-- The callbacks of the interface org.freedesktop.Notifications.
pub data FdnMethod : Type 0 where
  close_notification get_capabilities get_server_information notify : FdnMethod

-- The callbacks of the interface org.dunstproject.cmd0.
pub data DunstMethod : Type 0 where
  config_reload context_menu_call notification_action notification_clear_history
        notification_close_all notification_close_last notification_list_history
        notification_pop_history notification_remove_from_history notification_show ping rule_enable
        rule_list :
      DunstMethod

-- An array of struct dbus_method.
abbrev pub Table {ℓ} : Type ℓ → Type ℓ
Table M = List (Str × M)

abbrev pub methods_fdn : Table FdnMethod
methods_fdn =
    (codes "CloseNotification", close_notification)
    ∷ (codes "GetCapabilities", get_capabilities)
    ∷ (codes "GetServerInformation", get_server_information)
    ∷ (codes "Notify", notify)
    ∷ []

abbrev pub methods_dunst : Table DunstMethod
methods_dunst =
    (codes "ConfigReload", config_reload)
    ∷ (codes "ContextMenuCall", context_menu_call)
    ∷ (codes "NotificationAction", notification_action)
    ∷ (codes "NotificationClearHistory", notification_clear_history)
    ∷ (codes "NotificationCloseAll", notification_close_all)
    ∷ (codes "NotificationCloseLast", notification_close_last)
    ∷ (codes "NotificationListHistory", notification_list_history)
    ∷ (codes "NotificationPopHistory", notification_pop_history)
    ∷ (codes "NotificationRemoveFromHistory", notification_remove_from_history)
    ∷ (codes "NotificationShow", notification_show)
    ∷ (codes "Ping", ping)
    ∷ (codes "RuleEnable", rule_enable)
    ∷ (codes "RuleList", rule_list)
    ∷ []

module _ {ℓ} {M : Type ℓ} where
  -- cmp_methods
  abbrev pub cmp_methods : Str → Str × M → Ordering
  cmp_methods key m = strcmp key m.0

  -- bsearch between two indices. The gap shrinks in each round, so its size is fuel enough.
  unfoldable pub bsearch_between : ℕ → Str → Table M → ℕ → ℕ → Option M
  unfolding strcmp nth
  bsearch_between zero key table l u = none
  bsearch_between (suc fuel) key table l u =
      let idx = (l + u) / 2 in
      elim (ltb l u) [
        | false ↦ none
        | true ↦ elim (nth table idx) [
          | none ↦ none
          | some m ↦ elim (cmp_methods key m) [
            | Ordering.lt ↦ bsearch_between fuel key table l idx
            | Ordering.gt ↦ bsearch_between fuel key table (suc idx) u
            | Ordering.eq ↦ some m.1
          ]
        ]
      ]

  unfoldable pub bsearch : Str → Table M → Option M
  unfolding bsearch_between
  bsearch key table = bsearch_between (length table) key table 0 (length table)

-- The method that dbus_cb_fdn_methods and dbus_cb_dunst_methods call; `none` is logged.
unfoldable pub dbus_cb_fdn_methods : Str → Option FdnMethod
unfolding bsearch
dbus_cb_fdn_methods method_name = bsearch method_name methods_fdn

unfoldable pub dbus_cb_dunst_methods : Str → Option DunstMethod
unfolding bsearch
dbus_cb_dunst_methods method_name = bsearch method_name methods_dunst
