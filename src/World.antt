-- ===== src/World.antt =====
-- The state that the handlers change, and what they ask of the outside.
-- A `struct notification *` is a number, and `heap` is the store behind it: an update through one
-- pointer is seen through every other. A GQueue of notifications is the list of its pointers, head
-- first. What leaves the process (scripts, D-Bus signals) is a list of effects, newest first.
mod Frame
unfoldable pub use Frame.*
use dunst.Base.{
  ℕ, suc, ℤ, pos, Bool, true, false, not, ◌&&◌, ◌||◌, Option, none, some, is_some, List, [], ◌∷◌,
  ◌++◌, map, Str, CString, codes, or_else, str_empty, cstring_eq, leb, ltb, eq_ℤ, ◌==◌,
  if◌then◌else◌, minus_one,
}
use dunst.Settings.{Settings}
use dunst.Notification.{Notification, icon_off}
use Frame.{World, Effect, ran, closed, modify, log_effects}

-- What the code calls and does not define: the clocks, the file system, the icon loader (of a file,
-- and of the numbered image data of a message), and the
-- two sorting functions of GQueue, which are given the comparison and the queue.
pub record Env : Type 0 where
  pub monotonic : ℕ → ℤ
  pub wall : ℕ → ℤ
  pub modification_time : CString → ℤ
  pub get_path_from_icon_name : Str → ℤ → CString
  pub get_pixbuf_from_file : Str → ℤ → ℤ → Option (CString × ℕ)
  pub icon_get_for_data : ℕ → ℤ → ℤ → Option (CString × ℕ)
  pub insert_sorted : (ℕ → ℕ → ℤ) → ℕ → List ℕ → List ℕ
  pub sort : (ℕ → ℕ → ℤ) → List ℕ → List ℕ

unfoldable pub notification_urgency_to_string : ℤ → Str
notification_urgency_to_string u =
    if eq_ℤ u minus_one
    then codes "NONE"
    else if eq_ℤ u (pos 0)
    then codes "LOW"
    else if eq_ℤ u (pos 1)
    then codes "NORMAL"
    else if eq_ℤ u (pos 2)
    then codes "CRITICAL"
    else codes "UNDEF"

-- The scripts that are started, in order; an empty name is skipped.
unfoldable pub script_effects : Notification → List CString → List Effect
script_effects n [] = []
script_effects n (s ∷ rest) =
    let later = script_effects n rest in
    if str_empty s
    then later
    else ran (or_else s []) (or_else n.appname []) (or_else n.summary []) (or_else n.body [])
        (or_else n.iconname []) (notification_urgency_to_string n.urgency)
      ∷ later

unfoldable pub notification_run_script : Settings → ℕ → World → World
notification_run_script c p w =
    if (w.heap p).script_run && not c.always_run_script
    then w
    else log_effects (script_effects (w.heap p) (w.heap p).scripts)
        (modify p (λ n. record n { script_run = true }) w)

-- signal_notification_closed of src/dbus.c, with a connection to the bus.
unfoldable pub signal_notification_closed : ℕ → ℕ → World → World
signal_notification_closed p reason w =
    if not (w.heap p).dbus_valid
    then w
    else log_effects
        (closed (w.heap p).id (if ltb reason 1 || ltb 4 reason then 4 else reason) ∷ [])
        (modify p (λ n. record n { actions = []; dbus_valid = false }) w)

-- n->start = time_monotonic_now();
unfoldable pub restart : Env → ℕ → World → World
restart e p w =
    modify p (λ n. record n { start = e.monotonic w.reads }) (record w { reads = suc w.reads })

unfoldable pub notification_transfer_icon : ℕ → ℕ → World → World
notification_transfer_icon from to w =
    modify from (λ n. record n { icon = none; icon_id = none })
      (modify to
        (λ n. record n {
          icon = (w.heap from).icon;
          icon_id = (w.heap from).icon_id;
          icon_time = (w.heap from).icon_time;
        })
        w)

-- notification_icon_replace_path once the name is known to be new: `found` is the path that the
-- name leads to, `now` the time of the load.
load_icon : Env → Str → ℤ → Notification → CString → Notification
load_icon e new_icon now n none = record n {
  iconname = some new_icon;
  icon = none;
  icon_id = none;
  icon_path = none;
}
load_icon e new_icon now n (some found) =
    elim (e.get_pixbuf_from_file found n.min_icon_size n.max_icon_size) [
      | none ↦ record n {
        iconname = some new_icon;
        icon = none;
        icon_id = none;
        icon_path = some found;
      }
      | some (id, surface) ↦ record n {
        iconname = some new_icon;
        icon = some surface;
        icon_id = id;
        icon_time = now;
        icon_path = some found;
      }
    ]

unfoldable pub replace_path : Env → CString → ℤ → Notification → Notification
unfolding load_icon
replace_path e none now n = n
replace_path e (some new_icon) now n =
    if eq_ℤ n.icon_position icon_off
    then n
    else if is_some n.iconname && is_some n.icon && cstring_eq n.iconname (some new_icon)
    then n
    else load_icon e new_icon now n (e.get_path_from_icon_name new_icon n.min_icon_size)

unfoldable pub notification_icon_replace_path : Env → CString → ℕ → World → World
unfolding replace_path
notification_icon_replace_path e new_icon p w =
    modify p (replace_path e new_icon (e.wall w.reads)) (record w { reads = suc w.reads })
