-- ===== src/Dbus/Handlers.antt =====
-- The methods of the two interfaces of src/dbus.c, and the property of its pause level. The types
-- of the arguments are those that GDBus checks against the interfaces.
use dunst.Base.{
  ℕ, zero, suc, ◌^◌, ◌%◌, ℤ, pos, negsuc, ◌-◌, minus_one, to_int, lt_ℤ, le_ℤ, eq_ℤ, Bool, true,
  false, not, ◌&&◌, ◌||◌, Option, none, some, is_some, List, [], ◌∷◌, ◌++◌, length, nth, Str, codes,
  or_else, str_eq, ltb, if◌then◌else◌,
}
use dunst.Settings.{Settings, MarkupMode, markup_no}
use dunst.Notification.{Notification, Rule}
use dunst.Rules.{Matchers, get_rule}
use dunst.World.{
  World, Env, log_effects, Reply, Dict, text, int32, int64, reply_none, reply_uint, reply_texts,
  reply_dicts, reply_error, returned, history_removed, history_cleared, config_reloaded,
  signal_notification_closed, notification_urgency_to_string, modify,
}
use dunst.Queues.{reason_user, reason_sig, unref}
use dunst.Queues.Close.{queues_notification_close_id, queues_history_remove_by_id}
use dunst.Queues.History.{
  queues_history_clear, queues_history_pop, queues_history_pop_by_id, queues_history_push_all,
  queues_get_by_id,
}
use dunst.Queues.Insert.{queues_notification_insert}
use dunst.Daemon.{Outside, Daemon, log, wake_up, reload, set_pause_level, max_pause_level}
use dunst.Menu.Context.{context_menu, notification_do_action}
use dunst.Dbus.Notify.{stack_tag_hints}

-- A guint32 given to a function that takes, or compares with, an int.
abbrev pub id_of : ℕ → ℤ
id_of id = to_int (pos id)

-- g_dbus_method_invocation_return_value and g_dbus_method_invocation_return_error
abbrev pub answer : Reply → Daemon → Daemon
answer r d = log (returned r ∷ []) d

abbrev pub set_world : World → Daemon → Daemon
set_world w d = record d { world = w }

unfoldable pub dbus_cb_dunst_ContextMenuCall : Daemon → Daemon
unfolding context_menu
dbus_cb_dunst_ContextMenuCall d = answer reply_none (context_menu d)

-- The position is tested against the number of the waiting notifications.
unfoldable pub dbus_cb_dunst_NotificationAction : ℕ → Daemon → Daemon
unfolding notification_do_action nth
dbus_cb_dunst_NotificationAction notification_nr d =
    if ltb (length d.world.waiting) notification_nr
    then answer (reply_error (codes "Couldn't activate action")) d
    else answer reply_none (elim (nth d.world.displayed notification_nr) [
      | none ↦ d
      | some p ↦ notification_do_action p d
    ])

unfoldable pub dbus_cb_dunst_NotificationClearHistory : Env → Outside → Daemon → Daemon
unfolding queues_history_clear wake_up
dbus_cb_dunst_NotificationClearHistory e o d =
    let (n, w) = queues_history_clear d.world in
    answer reply_none (log (history_cleared n ∷ []) (wake_up e o (set_world w d)))

unfoldable pub dbus_cb_dunst_NotificationCloseAll : Env → Outside → Daemon → Daemon
unfolding queues_history_push_all wake_up
dbus_cb_dunst_NotificationCloseAll e o d =
    answer reply_none (wake_up e o (set_world (queues_history_push_all d.settings d.world) d))

unfoldable pub dbus_cb_dunst_NotificationCloseLast : Env → Outside → Daemon → Daemon
unfolding queues_notification_close_id wake_up
dbus_cb_dunst_NotificationCloseLast e o d = answer reply_none (elim d.world.displayed [
  | [] ↦ d
  | p ∷ rest ↦ wake_up e o (
      set_world (queues_notification_close_id d.settings (d.world.heap p).id reason_user d.world) d)
])

unfoldable pub dbus_cb_dunst_NotificationShow : Env → Outside → Daemon → Daemon
unfolding queues_history_pop wake_up
dbus_cb_dunst_NotificationShow e o d =
    answer reply_none (wake_up e o (set_world (queues_history_pop e d.settings d.world) d))

-- The entry of a notification in the list of the history.
unfoldable pub history_entry : Notification → Dict
history_entry n =
    (codes "body", text (or_else n.body []))
    ∷ (codes "message", text (or_else n.msg []))
    ∷ (codes "summary", text (or_else n.summary []))
    ∷ (codes "appname", text (or_else n.appname []))
    ∷ (codes "category", text (or_else n.category []))
    ∷ (codes "default_action_name", text (or_else n.default_action_name []))
    ∷ (codes "icon_path", text (or_else n.icon_path []))
    ∷ (codes "id", int32 n.id)
    ∷ (codes "timestamp", int64 n.timestamp)
    ∷ (codes "timeout", int64 n.timeout)
    ∷ (codes "progress", int32 n.progress)
    ∷ (codes "urgency", text (notification_urgency_to_string n.urgency))
    ∷ (codes "stack_tag", text (or_else n.stack_tag []))
    ∷ (codes "urls", text (or_else n.urls []))
    ∷ []

-- The loop from the length of the history down, reading the element before the index.
unfoldable pub list_from : ℕ → World → List Dict
unfolding history_entry nth
list_from zero w = []
list_from (suc i) w = elim (nth w.history i) [
  | none ↦ list_from i w
  | some p ↦ history_entry (w.heap p) ∷ list_from i w
]

unfoldable pub dbus_cb_dunst_NotificationListHistory : Daemon → Daemon
unfolding list_from
dbus_cb_dunst_NotificationListHistory d =
    answer (reply_dicts (list_from (length d.world.history) d.world)) d

unfoldable pub dbus_cb_dunst_NotificationPopHistory : Env → Outside → ℕ → Daemon → Daemon
unfolding queues_history_pop_by_id wake_up
dbus_cb_dunst_NotificationPopHistory e o id d =
    answer reply_none
      (wake_up e o (set_world (queues_history_pop_by_id e d.settings (id_of id) d.world) d))

unfoldable pub dbus_cb_dunst_NotificationRemoveFromHistory : Env → Outside → ℕ → Daemon → Daemon
unfolding queues_history_remove_by_id wake_up
dbus_cb_dunst_NotificationRemoveFromHistory e o id d =
    let (removed, w) = queues_history_remove_by_id (id_of id) d.world in
    answer reply_none
      (if removed then wake_up e o (log (history_removed id ∷ []) (set_world w d)) else d)

-- 0 disables, 1 enables and 2 toggles.
abbrev pub switched : ℤ → Bool → Bool
switched state enabled =
    if eq_ℤ state (pos 0) then false else if eq_ℤ state (pos 1) then true else not enabled

-- The rule that get_rule finds, changed in place.
unfoldable pub switch_rule : Str → ℤ → List Rule → List Rule
switch_rule name state [] = []
switch_rule name state (r ∷ rules) =
    let later = switch_rule name state rules in
    if is_some r.name && str_eq (or_else r.name []) name
    then record r { enabled = switched state r.enabled } ∷ rules
    else r ∷ later

unfoldable pub dbus_cb_dunst_RuleEnable : Str → ℤ → Daemon → Daemon
unfolding get_rule switch_rule
dbus_cb_dunst_RuleEnable name state d =
    if lt_ℤ state (pos 0) || lt_ℤ (pos 2) state
    then answer (reply_error (codes "Couldn't understand state")) d
    else elim (get_rule name d.rules) [
      | none ↦ answer (reply_error (codes "There is no rule")) d
      | some r ↦ answer reply_none (record d { rules = switch_rule name state d.rules })
    ]

-- `load` is what load_settings makes of the paths.
unfoldable pub dbus_cb_dunst_ConfigReload :
    Env → Outside → Matchers → (List Str → Settings × List Rule) → List Str → Daemon → Daemon
unfolding reload
dbus_cb_dunst_ConfigReload e o m load configs d =
    answer reply_none (log (config_reloaded configs ∷ []) (reload e o m (load configs) d))

unfoldable pub dbus_cb_dunst_Ping : Daemon → Daemon
dbus_cb_dunst_Ping d = answer reply_none d

abbrev is_markup_no : MarkupMode → Bool
is_markup_no markup_no = true
is_markup_no _ = false

-- The global rule says whether the body may have markup.
unfoldable pub dbus_cb_GetCapabilities : Daemon → Daemon
unfolding get_rule
dbus_cb_GetCapabilities d =
    let always =
      (codes "actions" ∷ codes "body" ∷ codes "body-hyperlinks" ∷ codes "icon-static" ∷ [])
      ++ stack_tag_hints in
    let markup : List Str = elim (get_rule (codes "global") d.rules) [
      | none ↦ []
      | some r ↦ if is_markup_no r.markup then [] else codes "body-markup" ∷ []
    ] in
    answer (reply_texts (always ++ markup)) d

-- `version` is the macro VERSION of the build.
unfoldable pub dbus_cb_GetServerInformation : Str → Daemon → Daemon
dbus_cb_GetServerInformation version d =
    answer (reply_texts (codes "dunst" ∷ codes "knopwob" ∷ version ∷ codes "1.2" ∷ [])) d

-- The notification of the message is stored at the address `p`; `none` is one that does not decode.
unfoldable pub dbus_cb_Notify : Env → Outside → ℕ → Option Notification → Daemon → Daemon
unfolding queues_notification_insert signal_notification_closed wake_up
dbus_cb_Notify e o p none d = answer (reply_error (codes "Cannot decode notification!")) d
dbus_cb_Notify e o p (some n) d =
    let (id, w) = queues_notification_insert e d.settings d.status p (modify p (λ _. n) d.world) in
    let replied = log_effects (returned (reply_uint id) ∷ []) w in
    wake_up e o (
      set_world
        (if eq_ℤ id (pos 0)
          then unref p (signal_notification_closed p reason_user replied)
          else replied)
        d)

unfoldable pub dbus_cb_CloseNotification : Env → Outside → ℕ → Daemon → Daemon
unfolding queues_get_by_id signal_notification_closed queues_notification_close_id wake_up
dbus_cb_CloseNotification e o id d =
    let w =
      if d.settings.ignore_dbusclose
      then (if ltb 0 id
          then elim (queues_get_by_id (id_of id) d.world) [
            | none ↦ d.world
            | some p ↦ signal_notification_closed p reason_sig d.world
          ]
          else d.world)
      else queues_notification_close_id d.settings (id_of id) reason_sig d.world in
    answer reply_none (wake_up e o (set_world w d))

-- The value of a property.
pub data Property : Type 0 where
  property_bool : Bool → Property
  property_uint : ℕ → Property

-- As an unsigned number of 32 bits.
abbrev uint32 : ℤ → ℕ
uint32 (pos n) = n % 2 ^ 32
uint32 (negsuc n) = 2 ^ 32 - 1 - n % 2 ^ 32

unfoldable pub dbus_cb_dunst_Properties_Get : Str → Daemon → Option Property
unfolding str_eq
dbus_cb_dunst_Properties_Get name d =
    let level = d.status.pause_level in
    if str_eq name (codes "paused")
    then some (property_bool (not (eq_ℤ level (pos 0))))
    else if str_eq name (codes "pauseLevel")
    then some (property_uint (uint32 level))
    else if str_eq name (codes "displayedLength")
    then some (property_uint (length d.world.displayed))
    else if str_eq name (codes "historyLength")
    then some (property_uint (length d.world.history))
    else if str_eq name (codes "waitingLength")
    then some (property_uint (length d.world.waiting))
    else none

-- The level that a value asks for, an int; -1 for a name that cannot be set.
unfoldable pub target_pause_level : Str → Property → ℤ
unfolding str_eq to_int
target_pause_level name value =
    if str_eq name (codes "paused")
    then elim value [
      | property_bool b ↦ if b then max_pause_level else pos 0
      | property_uint n ↦ minus_one
    ]
    else if str_eq name (codes "pauseLevel")
    then elim value [
      | property_bool b ↦ minus_one
      | property_uint n ↦
          if lt_ℤ max_pause_level (to_int (pos n)) then max_pause_level else to_int (pos n)
    ]
    else minus_one

-- Whether the property was set; if not, the caller has the error of an unknown property.
unfoldable pub dbus_cb_dunst_Properties_Set :
    Env → Outside → Str → Property → Daemon → Bool × Daemon
unfolding target_pause_level set_pause_level
dbus_cb_dunst_Properties_Set e o name value d =
    let level = target_pause_level name value in
    if le_ℤ (pos 0) level then (true, set_pause_level e o level d) else (false, d)
