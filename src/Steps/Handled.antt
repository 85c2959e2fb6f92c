-- ===== src/Steps/Handled.antt =====
-- The methods of src/dbus.c between two turns of the main loop.
use dunst.Base.{
  ℕ, ℤ, pos, ltb, Option, none, some, List, [], ◌∷◌, Str, nth, length, if◌then◌else◌, ◌≡◌, inl, inr,
  Bool-cases, Option-cases, lt_ℤ, le_ℤ, ◌||◌,
}
use dunst.Settings.{Settings}
use dunst.Notification.{Rule}
use dunst.Rules.{Matchers, get_rule}
use dunst.World.{World, Env, history_removed, returned, reply_none, signal_notification_closed}
use dunst.Queues.{reason_user, reason_sig}
use dunst.Queues.Close.{queues_notification_close_id, queues_history_remove_by_id}
use dunst.Queues.History.{
  peek_tail, queues_get_by_id, queues_history_clear, queues_history_push_all, queues_history_pop,
  queues_history_pop_by_id,
}
use dunst.Queues.Keep.{QueueLaws, Keeps, Keeps-refl, Keeps-if, active, IsQuiet-Keeps}
use dunst.Queues.Keep.Quiet.{signal_notification_closed-IsQuiet}
use dunst.Queues.Keep.Close.{queues_notification_close_id-Keeps, queues_history_remove_by_id-Keeps}
use dunst.Daemon.{Outside, Daemon, log, wake_up}
use dunst.Daemon.Timer.{OutsideLaws}
use dunst.Menu.Context.{context_menu, notification_do_action}
use dunst.Dbus.Handlers.{
  answer, set_world, id_of, dbus_cb_CloseNotification, dbus_cb_dunst_ContextMenuCall,
  dbus_cb_dunst_NotificationAction, dbus_cb_dunst_NotificationClearHistory,
  dbus_cb_dunst_NotificationCloseAll, dbus_cb_dunst_NotificationCloseLast,
  dbus_cb_dunst_NotificationShow, dbus_cb_dunst_NotificationPopHistory,
  dbus_cb_dunst_NotificationRemoveFromHistory, dbus_cb_dunst_RuleEnable, dbus_cb_dunst_ConfigReload,
  dbus_cb_dunst_Properties_Set, Property, target_pause_level,
}
use dunst.Steps.{
  IsSound, log-IsSound, IsSound-kept, IsSound-if, wake_up-IsSound, changed-IsSound,
  set_pause_level-IsSound,
}
use dunst.Steps.Actions.{context_menu-IsSound, do_action-IsSound}
use dunst.Steps.Marked.{push_all-IsSound}
use dunst.Steps.Reload.{reload-IsSound}
use dunst.Steps.Popped.{returning, popped-IsSound, popped_by_id-IsSound, queues_history_clear-Keeps}

ignored-Keeps :
    (hit : Option ℕ) (w : World)
    → Keeps w (elim hit [ none ↦ w | some p ↦ signal_notification_closed p reason_sig w ])
ignored-Keeps none w = Keeps-refl w
ignored-Keeps (some p) w = IsQuiet-Keeps (signal_notification_closed-IsQuiet p reason_sig w)

module _ {received : List ℕ} where
  pub ContextMenuCall-IsSound :
      (d : Daemon) → IsSound received d → IsSound received (dbus_cb_dunst_ContextMenuCall d)
  unfolding dbus_cb_dunst_ContextMenuCall
  ContextMenuCall-IsSound d s =
      log-IsSound (returned reply_none ∷ []) (context_menu d) (context_menu-IsSound d s)

  nth-IsSound :
      (hit : Option ℕ) (d : Daemon)
      → IsSound received d
      → IsSound received
          (answer reply_none (elim hit [ none ↦ d | some p ↦ notification_do_action p d ]))
  nth-IsSound none d s = log-IsSound (returned reply_none ∷ []) d s
  nth-IsSound (some p) d s =
      log-IsSound (returned reply_none ∷ []) (notification_do_action p d) (do_action-IsSound p d s)

  pub NotificationAction-IsSound :
      (nr : ℕ) (d : Daemon)
      → IsSound received d
      → IsSound received (dbus_cb_dunst_NotificationAction nr d)
  unfolding dbus_cb_dunst_NotificationAction
  NotificationAction-IsSound nr d s = elim (Bool-cases (ltb (length d.world.waiting) nr)) [
    | inl refused ↦
        rw (dbus_cb_dunst_NotificationAction, refused)
          (record { unique = s.unique; holds = s.holds; timed = s.timed })
    | inr taken ↦
        rw (dbus_cb_dunst_NotificationAction, taken) (nth-IsSound (nth d.world.displayed nr) d s)
  ]

  pub RuleEnable-IsSound :
      (name : Str) (state : ℤ) (d : Daemon)
      → IsSound received d
      → IsSound received (dbus_cb_dunst_RuleEnable name state d)
  unfolding dbus_cb_dunst_RuleEnable
  RuleEnable-IsSound name state d s = elim (Bool-cases (lt_ℤ state (pos 0) || lt_ℤ (pos 2) state)) [
    | inl refused ↦
        rw (dbus_cb_dunst_RuleEnable, refused)
          (record { unique = s.unique; holds = s.holds; timed = s.timed })
    | inr taken ↦ elim (Option-cases (get_rule name d.rules)) [
      | inl absent ↦
          rw (dbus_cb_dunst_RuleEnable, taken)
            (rw absent (record { unique = s.unique; holds = s.holds; timed = s.timed }))
      | inr (r, here) ↦
          rw (dbus_cb_dunst_RuleEnable, taken)
            (rw here (record { unique = s.unique; holds = s.holds; timed = s.timed }))
    ]
  ]

module _ (e : Env) (laws : QueueLaws e) (o : Outside) (out : OutsideLaws o)
    {received : List ℕ} where
  changed :
      (w : World) (d : Daemon)
      → Keeps d.world w
      → IsSound received d
      → IsSound received (answer reply_none (wake_up e o (set_world w d)))
  changed w d k s =
      log-IsSound (returned reply_none ∷ []) (wake_up e o (set_world w d))
        (changed-IsSound e laws o out w d k s)

  pub CloseNotification-IsSound :
      (id : ℕ) (d : Daemon)
      → IsSound received d
      → IsSound received (dbus_cb_CloseNotification e o id d)
  unfolding dbus_cb_CloseNotification
  CloseNotification-IsSound id d s =
      let told : World = elim (queues_get_by_id (id_of id) d.world) [
        | none ↦ d.world
        | some p ↦ signal_notification_closed p reason_sig d.world
      ] in
      let w =
        if d.settings.ignore_dbusclose
        then (if ltb 0 id then told else d.world)
        else queues_notification_close_id d.settings (id_of id) reason_sig d.world in
      changed w d
        (Keeps-if d.settings.ignore_dbusclose
          (Keeps-if (ltb 0 id) (ignored-Keeps (queues_get_by_id (id_of id) d.world) d.world)
            (Keeps-refl d.world))
          (queues_notification_close_id-Keeps d.settings (id_of id) reason_sig d.world s.unique))
        s

  pub ClearHistory-IsSound :
      (d : Daemon)
      → IsSound received d
      → IsSound received (dbus_cb_dunst_NotificationClearHistory e o d)
  unfolding dbus_cb_dunst_NotificationClearHistory
  ClearHistory-IsSound d s =
      let w = (queues_history_clear d.world).1 in
      let t = changed-IsSound e laws o out w d (queues_history_clear-Keeps d.world) s in
      record { unique = t.unique; holds = t.holds; timed = t.timed }

  pub CloseAll-IsSound :
      (d : Daemon)
      → IsSound received d
      → IsSound received (dbus_cb_dunst_NotificationCloseAll e o d)
  unfolding dbus_cb_dunst_NotificationCloseAll
  CloseAll-IsSound d s =
      let v = record d { world = queues_history_push_all d.settings d.world } in
      log-IsSound (returned reply_none ∷ []) (wake_up e o v)
        (wake_up-IsSound e laws o out v (push_all-IsSound d s))

  first-IsSound :
      (q : List ℕ) (d : Daemon)
      → IsSound received d
      → IsSound received (
          answer reply_none (elim q [
            | [] ↦ d
            | p ∷ rest ↦ wake_up e o (
                set_world
                  (queues_notification_close_id d.settings (d.world.heap p).id reason_user d.world)
                  d)
          ]))
  first-IsSound [] d s = log-IsSound (returned reply_none ∷ []) d s
  first-IsSound (p ∷ rest) d s =
      let i = (d.world.heap p).id in
      changed (queues_notification_close_id d.settings i reason_user d.world) d
        (queues_notification_close_id-Keeps d.settings i reason_user d.world s.unique) s

  pub CloseLast-IsSound :
      (d : Daemon)
      → IsSound received d
      → IsSound received (dbus_cb_dunst_NotificationCloseLast e o d)
  unfolding dbus_cb_dunst_NotificationCloseLast
  CloseLast-IsSound d s = first-IsSound d.world.displayed d s

  pub Show-IsSound :
      (d : Daemon)
      → returning d.world (peek_tail d.world.history) ≡ 0
      → IsSound received d
      → IsSound received (dbus_cb_dunst_NotificationShow e o d)
  unfolding dbus_cb_dunst_NotificationShow
  Show-IsSound d fresh s =
      let v = record d { world = queues_history_pop e d.settings d.world } in
      log-IsSound (returned reply_none ∷ []) (wake_up e o v)
        (wake_up-IsSound e laws o out v (popped-IsSound e laws d.settings d fresh s))

  pub PopHistory-IsSound :
      (id : ℕ) (d : Daemon)
      → active (id_of id) d.world ≡ 0
      → IsSound received d
      → IsSound received (dbus_cb_dunst_NotificationPopHistory e o id d)
  unfolding dbus_cb_dunst_NotificationPopHistory
  PopHistory-IsSound id d fresh s =
      let v = record d { world = queues_history_pop_by_id e d.settings (id_of id) d.world } in
      log-IsSound (returned reply_none ∷ []) (wake_up e o v) (
        wake_up-IsSound e laws o out v
          (popped_by_id-IsSound e laws d.settings (id_of id) d fresh s))

  pub RemoveFromHistory-IsSound :
      (id : ℕ) (d : Daemon)
      → IsSound received d
      → IsSound received (dbus_cb_dunst_NotificationRemoveFromHistory e o id d)
  unfolding dbus_cb_dunst_NotificationRemoveFromHistory
  RemoveFromHistory-IsSound id d s =
      let r = queues_history_remove_by_id (id_of id) d.world in
      let v = log (history_removed id ∷ []) (set_world r.1 d) in
      let k = queues_history_remove_by_id-Keeps (id_of id) d.world in
      let t : IsSound received v =
        log-IsSound (history_removed id ∷ []) (set_world r.1 d) (IsSound-kept r.1 d k s) in
      log-IsSound (returned reply_none ∷ []) (if r.0 then wake_up e o v else d)
        (IsSound-if r.0 (wake_up e o v) d (wake_up-IsSound e laws o out v t) s)

  pub ConfigReload-IsSound :
      (m : Matchers) (load : List Str → Settings × List Rule) (configs : List Str) (d : Daemon)
      → IsSound received d
      → IsSound received (dbus_cb_dunst_ConfigReload e o m load configs d)
  unfolding dbus_cb_dunst_ConfigReload
  ConfigReload-IsSound m load configs d s =
      let t = reload-IsSound e laws o out m (load configs) d s in
      record { unique = t.unique; holds = t.holds; timed = t.timed }

  pub Properties_Set-IsSound :
      (name : Str) (value : Property) (d : Daemon)
      → IsSound received d
      → IsSound received (dbus_cb_dunst_Properties_Set e o name value d).1
  unfolding dbus_cb_dunst_Properties_Set
  Properties_Set-IsSound name value d s =
      let level = target_pause_level name value in
      elim (Bool-cases (le_ℤ (pos 0) level)) [
        | inl known ↦
            rw (dbus_cb_dunst_Properties_Set, known)
              (set_pause_level-IsSound e laws o out level d s)
        | inr unknown ↦ rw (dbus_cb_dunst_Properties_Set, unknown) s
      ]
