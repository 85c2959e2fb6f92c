-- ===== src/Menu/Context.antt =====
-- The context menu of src/menu.c, from the locking of its notifications to the unlocking, and the
-- functions of src/notification.c that open it. The references that a lock takes are not counted.
use dunst.Base.{
  ℕ, Bool, true, false, not, ◌||◌, Option, none, some, is_some, List, [], ◌∷◌, length, Str, CString,
  codes, or_else, str_eq, strstr, ◌==◌, if◌then◌else◌,
}
use dunst.World.{World, Env, modify, menu_opened}
use dunst.Utils.{string_append}
use dunst.Queues.Close.{queues_notification_close, queues_notification_remove}
use dunst.Daemon.{Daemon, Outside, log, wake_up}
use dunst.Menu.{
  signal_action_invoked, g_hash_table_contains, notification_dmenu_string, open_browser,
  dispatch_menu_result,
}

unfoldable pub notification_lock : ℕ → World → World
notification_lock p w = modify p (λ n. record n { locked = true }) w

unfoldable pub notification_unlock : ℕ → World → World
notification_unlock p w = modify p (λ n. record n { locked = false }) w

-- The notifications with a URL or an action, each locked.
unfoldable pub get_actionable_notifications : List ℕ → World → List ℕ × World
unfolding notification_lock
get_actionable_notifications [] w = ([], w)
get_actionable_notifications (p ∷ rest) w =
    let hit = is_some (w.heap p).urls || not (length (w.heap p).actions == 0) in
    let (found, v) = get_actionable_notifications rest (if hit then notification_lock p w else w) in
    (if hit then p ∷ found else found, v)

-- A menu that is open refuses another; the thread is taken to start.
unfoldable pub context_menu_for : List ℕ → Daemon → Daemon
context_menu_for notifications d =
    if not (length d.locked_notifications == 0)
    then d
    else log (menu_opened notifications ∷ []) (record d { locked_notifications = notifications })

unfoldable pub context_menu : Daemon → Daemon
unfolding get_actionable_notifications context_menu_for
context_menu d =
    let (notifications, w) = get_actionable_notifications d.world.displayed d.world in
    context_menu_for notifications (record d { world = w })

unfoldable pub notification_open_context_menu : ℕ → Daemon → Daemon
unfolding notification_lock context_menu_for
notification_open_context_menu p d =
    context_menu_for (p ∷ []) (record d { world = notification_lock p d.world })

unfoldable pub notification_open_url : ℕ → Daemon → Daemon
unfolding notification_open_context_menu open_browser strstr
notification_open_url p d = elim (d.world.heap p).urls [
  | none ↦ d
  | some urls ↦
      if is_some (strstr urls (codes "\n"))
      then notification_open_context_menu p d
      else open_browser urls d
]

-- The keys of a table with one entry.
abbrev pub only_key : List (Str × Str) → Option Str
only_key ((key, value) ∷ []) = some key
only_key _ = none

-- The assertion that the name of the default action is not NULL is left out.
unfoldable pub notification_do_action : ℕ → Daemon → Daemon
unfolding g_hash_table_contains signal_action_invoked notification_open_context_menu
    notification_open_url str_eq
notification_do_action p d =
    let n = d.world.heap p in
    let name = or_else n.default_action_name [] in
    if not (length n.actions == 0)
    then (if g_hash_table_contains n.actions name
        then signal_action_invoked p name d
        else elim (if str_eq name (codes "default") then only_key n.actions else none) [
          | some key ↦ signal_action_invoked p key d
          | none ↦ notification_open_context_menu p d
        ])
    else if is_some n.urls
    then notification_open_url p d
    else d

-- The text that the thread of the menu gives to the program.
unfoldable pub menu_input : World → List ℕ → CString → CString
unfolding notification_dmenu_string string_append
menu_input w [] input = input
menu_input w (p ∷ rest) input =
    let lines = string_append input (notification_dmenu_string (w.heap p)) (some (codes "\n")) in
    menu_input w rest (
      if is_some (w.heap p).urls
      then string_append lines (w.heap p).urls (some (codes "\n"))
      else lines)

-- The end of a notification's lock: what was put off while it was locked happens now.
unfoldable pub close_marked : Bool → ℕ → Daemon → Daemon
unfolding queues_notification_close
close_marked chosen p d =
    let reason = (d.world.heap p).marked_for_closure in
    if not (reason == 0)
    then record d {
      world =
          modify p (λ n. record n { marked_for_closure = 0 })
            (if chosen then queues_notification_close d.settings p reason d.world else d.world);
    }
    else d

unfoldable pub remove_marked : ℕ → Daemon → Daemon
unfolding queues_notification_remove
remove_marked p d =
    let reason = (d.world.heap p).marked_for_removal in
    if not (reason == 0)
    then record d {
      world =
          modify p (λ n. record n { marked_for_removal = 0 })
            (queues_notification_remove d.settings p reason d.world);
    }
    else d

unfoldable pub unlock_all : Bool → List ℕ → Daemon → Daemon
unfolding notification_unlock close_marked remove_marked
unlock_all chosen [] d = d
unlock_all chosen (p ∷ rest) d =
    unlock_all chosen rest
      (remove_marked p (close_marked chosen p (record d { world = notification_unlock p d.world })))

unfoldable pub context_menu_result_dispatch : Env → Outside → CString → Daemon → Daemon
unfolding dispatch_menu_result unlock_all wake_up
context_menu_result_dispatch e o output d =
    let chosen = dispatch_menu_result output d in
    let unlocked = unlock_all (is_some output) chosen.locked_notifications chosen in
    wake_up e o (record unlocked { locked_notifications = [] })
