-- ===== src/Daemon.antt =====
-- The main loop's part of src/dunst.c: the status, the settings and rules in force, the window, and
-- the one timer that `run` keeps. GLib's timeout sources are a list of their ids with the interval
-- in milliseconds; the outputs and the numbers of new sources are parameters.
pub mod Timer
use dunst.Base.{
  ℕ, suc, ℤ, pos, neg_part, pos_part, Bool, true, false, not, ◌&&◌, List, [], ◌∷◌, Str, ◌==◌, ◌/◌,
  ◌%◌, ◌^◌, ◌-ℤ◌, lt_ℤ, eq_ℤ, minus_one, length, if◌then◌else◌,
}
use dunst.Settings.{Settings}
use dunst.Notification.{Rule}
use dunst.Rules.{Matchers, queues_reapply_all_rules}
use dunst.World.{
  World, Env, Effect, log_effects, drawn, window_shown, window_hidden, paused_changed,
}
use dunst.Queues.{DunstStatus}
use dunst.Queues.Update.{queues_update}
use dunst.Queues.Wakeup.{queues_get_next_datachange}

-- What the output reports at each reading, and the id that g_timeout_add gives beside the sources
-- that exist.
pub record Outside : Type 0 where
  pub have_fullscreen_window : ℕ → Bool
  pub is_idle : ℕ → Bool
  pub g_timeout_add : List (ℕ × ℕ) → ℕ

-- The static variables of dunst.c, and those that it changes: the queues, the settings and the
-- rules, and the notifications that an open menu has locked (src/menu.c).
pub record Daemon : Type 0 where
  pub world : World
  pub status : DunstStatus
  pub settings : Settings
  pub rules : List Rule
  pub setup_done : Bool
  pub next_timeout_id : ℕ
  pub sources : List (ℕ × ℕ)
  pub locked_notifications : List ℕ

-- enum dunst_status_field
pub data StatusField : Type 0 where
  s_fullscreen s_idle s_pause_level s_mouse_over : StatusField

unfoldable pub dunst_status : StatusField → Bool → DunstStatus → DunstStatus
dunst_status s_fullscreen value s = record s { fullscreen = value }
dunst_status s_idle value s = record s { idle = value }
dunst_status s_mouse_over value s = record s { mouse_over = value }
dunst_status s_pause_level value s = s

unfoldable pub dunst_status_int : StatusField → ℤ → DunstStatus → DunstStatus
dunst_status_int s_pause_level value s = record s { pause_level = value }
dunst_status_int _ value s = s

-- enum dunst_run_reason
pub data RunReason : Type 0 where
  dunst_timer dunst_wakeup : RunReason

abbrev pub is_wakeup : RunReason → Bool
is_wakeup dunst_timer = false
is_wakeup dunst_wakeup = true

abbrev pub log : List Effect → Daemon → Daemon
log es d = record d { world = log_effects es d.world }

-- g_source_remove
unfoldable pub g_source_remove : ℕ → List (ℕ × ℕ) → List (ℕ × ℕ)
g_source_remove i [] = []
g_source_remove i (s ∷ rest) = if s.0 == i then rest else s ∷ g_source_remove i rest

-- The status is read from the output and the queues are brought up to date.
unfoldable pub observe : Env → Outside → ℤ → Daemon → Daemon
unfolding dunst_status
observe e o now d =
    let r = d.world.reads in
    let status =
      dunst_status s_idle (o.is_idle r)
        (dunst_status s_fullscreen (o.have_fullscreen_window r) d.status) in
    record d {
      status = status;
      world = queues_update e d.settings status now (record d.world { reads = suc r });
    }

unfoldable pub cancel : RunReason → Daemon → Daemon
unfolding g_source_remove
cancel reason d = record d {
  next_timeout_id = 0;
  sources =
      if is_wakeup reason && not (d.next_timeout_id == 0)
      then g_source_remove d.next_timeout_id d.sources
      else d.sources;
}

-- The interval of the timer, a guint of milliseconds: at least one, also when the time has passed.
unfoldable pub interval : ℤ → ℤ → ℕ
unfolding ◌-ℤ◌
interval timeout_at now =
    let sleep = timeout_at -ℤ now in
    (if lt_ℤ sleep (pos 1000) then 1000 else pos_part sleep) / 1000 % 2 ^ 32

-- `now` is read again before the timer is set.
unfoldable pub schedule : Env → Outside → ℤ → Daemon → Daemon
unfolding interval
schedule e o timeout_at d =
    if eq_ℤ timeout_at minus_one
    then d
    else (let i = o.g_timeout_add d.sources in
        record d {
          world = record d.world { reads = suc d.world.reads };
          next_timeout_id = i;
          sources = (i, interval timeout_at (e.monotonic d.world.reads)) ∷ d.sources;
        })

unfoldable pub show_queues : Env → Outside → ℤ → Daemon → Daemon
unfolding schedule
show_queues e o now d =
    if length d.world.displayed == 0
    then log (window_hidden ∷ []) d
    else schedule e o (queues_get_next_datachange d.settings now d.world)
        (log (drawn ∷ window_shown ∷ []) d)

unfoldable pub run : Env → Outside → RunReason → Daemon → Daemon
unfolding observe cancel show_queues
run e o reason d =
    let now = e.monotonic d.world.reads in show_queues e o now (cancel reason (observe e o now d))

-- GLib's dispatch of a source, which goes when its callback answers G_SOURCE_REMOVE.
unfoldable pub dispatch : Env → Outside → ℕ → Daemon → Daemon
unfolding run g_source_remove
dispatch e o i d =
    let after = run e o dunst_timer d in record after { sources = g_source_remove i after.sources }

unfoldable pub wake_up : Env → Outside → Daemon → Daemon
unfolding run
wake_up e o d = if not d.setup_done then d else run e o dunst_wakeup d

-- signal_paused_propertieschanged of src/dbus.c
unfoldable pub signal_paused_propertieschanged : Daemon → Daemon
signal_paused_propertieschanged d =
    let level = d.status.pause_level in log (paused_changed (not (eq_ℤ level (pos 0))) level ∷ []) d

abbrev pub max_pause_level : ℤ
max_pause_level = pos 100

-- The common body of pause_signal and unpause_signal, and of the D-Bus property.
unfoldable pub set_pause_level : Env → Outside → ℤ → Daemon → Daemon
unfolding wake_up signal_paused_propertieschanged dunst_status_int
set_pause_level e o level d =
    signal_paused_propertieschanged
      (wake_up e o (record d { status = dunst_status_int s_pause_level level d.status }))

unfoldable pub pause_signal : Env → Outside → Daemon → Daemon
unfolding set_pause_level
pause_signal e o d = set_pause_level e o max_pause_level d

unfoldable pub unpause_signal : Env → Outside → Daemon → Daemon
unfolding set_pause_level
unpause_signal e o d = set_pause_level e o (pos 0) d

-- Up to unpause_signal. `load` is what load_settings makes of the files: the settings and the rules.
unfoldable pub reloaded : Env → Outside → Matchers → Settings × List Rule → Daemon → Daemon
unfolding pause_signal queues_reapply_all_rules
reloaded e o m load d =
    let paused = pause_signal e o d in
    let loaded = record paused { settings = load.0; rules = load.1; setup_done = true } in
    record loaded { world = queues_reapply_all_rules e load.0 m load.1 loaded.world }

unfoldable pub reload : Env → Outside → Matchers → Settings × List Rule → Daemon → Daemon
unfolding reloaded unpause_signal
reload e o m load d = unpause_signal e o (reloaded e o m load d)
