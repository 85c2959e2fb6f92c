-- ===== src/Tests/Daemon.antt =====
-- The daemon: its timer, its D-Bus methods, its menu and its clicks, at concrete inputs.
use dunst.Base.{
  ℕ, suc, ◌*◌, ◌≤◌, ℤ, pos, ◌+ℤ◌, ◌-ℤ◌, ◌<ℤ◌, lt_ℤ, le_ℤ, true, false, not, ◌&&◌, none, some,
  is_some, List, [], ◌∷◌, reverse, Str, codes, str_eq, ltb, ◌==◌, if◌then◌else◌, ◌≡◌, refl, arith,
}
use dunst.Settings.{Settings, sort_type_id}
use dunst.Notification.{Notification, Rule, empty_rule}
use dunst.Rules.{get_rule}
use dunst.World.{reply_dicts}
use dunst.Daemon.{Daemon, interval}
use dunst.Daemon.Timer.{at_least_1ms, interval-waits}
use dunst.Menu.{action_line, dispatch_menu_result, signal_action_invoked, g_hash_table_contains}
use dunst.Menu.Lines.{dispatch_menu_result-action_line}
use dunst.Input.{get_notification_at, get_notification_clickable_height}
use dunst.Input.Hit.{total, is_upright, is_in, get_notification_at-total}
use dunst.Dbus.{methods_fdn, methods_dunst, dbus_cb_fdn_methods, dbus_cb_dunst_methods}
use dunst.Dbus.Search.{lookup, dbus_cb_methods-lookup}
use dunst.Dbus.Notify.{
  Message, hint_byte, hint_string, hint_int32, lookup_hint, read_message,
  dbus_message_to_notification,
}
use dunst.Dbus.Hinted.{hinted}
use dunst.Message.{notification_init}
use dunst.Dbus.Complete.{dbus_message_to_notification-IsComplete}
use dunst.Dbus.Handlers.{
  answer, property_bool, property_uint, dbus_cb_Notify, dbus_cb_dunst_NotificationCloseAll,
  dbus_cb_dunst_NotificationListHistory, dbus_cb_dunst_RuleEnable, dbus_cb_dunst_Properties_Get,
  dbus_cb_dunst_Properties_Set,
}
use dunst.Dbus.Levels.{Properties_Set-Properties_Get}
use dunst.Dbus.Answers.{entries, NotificationListHistory-entries, RuleEnable-get_rule}
use dunst.Dbus.Lengths.{Lengths, lengths_of, signals, listen_all, listen_all-signals}
use dunst.Message.Init.{IsComplete}
use dunst.Ini.{get_value, load_ini_file}
use dunst.Ini.First.{meaning, events, load_ini_file-meaning}
use dunst.Steps.{IsSound}
use dunst.Steps.Reach.{Step, Reach, Reach-IsSound}
use dunst.Queues.Keep.{HasUniqueIds}
use dunst.Tests.Data.{
  env, env_laws, settings, sample, stored, world, matchers, settings-HasColors, config, outside,
  outside_laws, start, daemon,
}

-- One notification arrives, and all are closed.
abbrev arrived : Daemon
arrived = dbus_cb_Notify env outside 7 (some (sample 0 1)) start

abbrev load : List Str → Settings × List Rule
load configs = (settings sort_type_id 2, [])

arrived-Reach :
    Reach env outside matchers load
      (7 ∷ [])
      (dbus_cb_dunst_NotificationCloseAll env outside arrived)
unfolding ◌+ℤ◌
arrived-Reach =
    Reach.steps
      (Reach.steps (Reach.starts start refl refl refl refl refl refl)
        (Step.notifies 7 (sample 0 1) refl refl refl))
      Step.closes_all

Reach-IsSound_example : IsSound (7 ∷ []) (dbus_cb_dunst_NotificationCloseAll env outside arrived)
Reach-IsSound_example =
    Reach-IsSound env env_laws outside outside_laws matchers load (7 ∷ [])
      (dbus_cb_dunst_NotificationCloseAll env outside arrived) arrived-Reach

interval-waits_example :
    let t = interval (pos 5000000) (pos 1200) in
    (1 ≤ t)
    × (t * 1000 ≤ at_least_1ms (pos 5000000 -ℤ pos 1200))
    × (pos 5000000 -ℤ pos 1200 <ℤ pos (suc t * 1000))
interval-waits_example = interval-waits (pos 5000000) (pos 1200) (unfold ◌-ℤ◌ in omega arith)

-- A summary and an action with brackets of their own.
abbrev asking : Notification
asking = record (sample 3 1) {
  summary = some (codes "Re: [dunst] (1)");
  actions = (codes "reply", codes "Reply [now]") ∷ [];
}

abbrev asking_daemon : Daemon
asking_daemon = record daemon {
  world = record world { heap = λ p. if p == 3 then asking else stored p };
}

asking-HasUniqueIds : HasUniqueIds asking_daemon.world
asking-HasUniqueIds i = ground arith

dispatch_menu_result-action_line_example :
    dispatch_menu_result
      (some (action_line asking (codes "reply", codes "Reply [now]")))
      asking_daemon
    ≡ signal_action_invoked 3 (codes "reply") asking_daemon
dispatch_menu_result-action_line_example =
    dispatch_menu_result-action_line asking_daemon 3 3 (codes "reply") (codes "Reply [now]")
      asking-HasUniqueIds refl (unfold g_hash_table_contains str_eq in refl) refl (omega arith) refl
      refl

-- Each notification is 50 high.
abbrev heights : ℕ → ℤ
heights p = pos 50

get_notification_at-total_example :
    let c = settings sort_type_id 2 in
    let hit = get_notification_at c heights (pos 20) world in
    (is_some hit ≡ (le_ℤ (pos 0) (pos 20) && lt_ℤ (pos 20) (total c heights true world.displayed)))
    × (is_in hit world.displayed ≡ true)
get_notification_at-total_example =
    get_notification_at-total (settings sort_type_id 2) heights (pos 20) world refl
      (unfold is_upright get_notification_clickable_height in refl)

dbus_cb_methods-lookup_example :
    (dbus_cb_fdn_methods (codes "Ping") ≡ lookup (codes "Ping") methods_fdn)
    × (dbus_cb_dunst_methods (codes "Ping") ≡ lookup (codes "Ping") methods_dunst)
dbus_cb_methods-lookup_example = dbus_cb_methods-lookup (codes "Ping")

abbrev message : Message
message = record {
  app_name = codes "mail";
  replaces_id = 0;
  app_icon = [];
  summary = codes "new";
  body = codes "text";
  actions = codes "default" ∷ codes "Open" ∷ codes "odd" ∷ [];
  hints =
      (codes "urgency", hint_byte 2)
      ∷ (codes "fgcolor", hint_string (codes "#ff0000"))
      ∷ (codes "bgcolor", hint_string (codes "red"))
      ∷ (codes "value", hint_int32 (pos 40))
      ∷ [];
  expire_timeout = pos 5;
}

dbus_message_to_notification-IsComplete_example :
    let c = settings sort_type_id 2 in
    let n = dbus_message_to_notification env c matchers (λ s. none) [] 0 message in
    let ready =
      notification_init env c matchers
        (λ s. none)
        (env.wall 1)
        []
        (read_message c (env.monotonic 0) message) in
    IsComplete n
    × (n.fg ≡ hinted (some (codes "#ff0000")) ready.fg)
    × (n.bg ≡ hinted (some (codes "red")) ready.bg)
    × (n.frame ≡ hinted none ready.frame)
unfolding lookup_hint str_eq
dbus_message_to_notification-IsComplete_example =
    dbus_message_to_notification-IsComplete env (settings sort_type_id 2) matchers (λ s. none) [] 0
      message settings-HasColors

Properties_Set-Properties_Get_example :
    let k : ℕ = if ltb 100 250 then 100 else 250 in
    let r =
      dbus_cb_dunst_Properties_Set env outside (codes "pauseLevel") (property_uint 250) daemon in
    (r.0 ≡ true)
    × (dbus_cb_dunst_Properties_Get (codes "pauseLevel") r.1 ≡ some (property_uint k))
    × (dbus_cb_dunst_Properties_Get (codes "paused") r.1 ≡ some (property_bool (not (k == 0))))
Properties_Set-Properties_Get_example =
    Properties_Set-Properties_Get env outside 250 daemon (omega arith)

NotificationListHistory-entries_example :
    dbus_cb_dunst_NotificationListHistory daemon
    ≡ answer (reply_dicts (entries daemon.world (reverse daemon.world.history))) daemon
NotificationListHistory-entries_example = NotificationListHistory-entries daemon

RuleEnable-get_rule_example :
    let mail : Rule = record empty_rule { name = some (codes "mail") } in
    let after = (λ (state : ℤ). (dbus_cb_dunst_RuleEnable (codes "mail") state daemon).rules) in
    (get_rule (codes "mail") (after (pos 0)) ≡ some (record mail { enabled = false }))
    × (get_rule (codes "mail") (after (pos 1)) ≡ some (record mail { enabled = true }))
    × (get_rule (codes "mail") (after (pos 2)) ≡ some (record mail { enabled = not mail.enabled }))
    × (get_rule (codes "global") (after (pos 2)) ≡ get_rule (codes "global") daemon.rules)
RuleEnable-get_rule_example =
    RuleEnable-get_rule (codes "mail") (codes "global") (pos 2) daemon
      (record empty_rule { name = some (codes "mail") }) (unfold get_rule str_eq in refl)
      (unfold str_eq in refl)

abbrev nothing_told : Lengths
nothing_told = record { displayed = 0; history = 0; waiting = 0 }

listen_all-signals_example :
    listen_all nothing_told (signals nothing_told (world ∷ record world { waiting = [] } ∷ []))
    ≡ lengths_of (record world { waiting = [] })
listen_all-signals_example =
    listen_all-signals nothing_told (world ∷ []) (record world { waiting = [] })

load_ini_file-meaning_example :
    get_value (load_ini_file config) (codes "global") (codes "font")
    ≡ meaning (codes "global") (codes "font") none (events config)
load_ini_file-meaning_example = load_ini_file-meaning config (codes "global") (codes "font")
