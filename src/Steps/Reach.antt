-- ===== src/Steps/Reach.antt =====
-- What the daemon does between two turns of its main loop, as a step relation, and the states that
-- it reaches. An address names one notification for good: the reuse of freed memory is left out.
use dunst.Base.{
  ℕ, ℤ, pos, ◌+ℤ◌, eq_ℤ, Bool, false, none, some, List, [], ◌∷◌, Str, codes, CString, tally, ◌==◌,
  ◌≡◌, refl, arith,
}
use dunst.Settings.{Settings}
use dunst.Notification.{Notification, Rule}
use dunst.Rules.{Matchers}
use dunst.World.{Env, returned, reply_error}
use dunst.Queues.History.{peek_tail}
use dunst.Queues.Keep.{QueueLaws, active}
use dunst.Daemon.{Outside, Daemon, dispatch}
use dunst.Daemon.Timer.{OutsideLaws, HasTimer}
use dunst.Menu.Context.{context_menu_result_dispatch}
use dunst.Input.{input_handle_click}
use dunst.Dbus.Handlers.{
  id_of, dbus_cb_Notify, dbus_cb_CloseNotification, dbus_cb_dunst_ContextMenuCall,
  dbus_cb_dunst_NotificationAction, dbus_cb_dunst_NotificationClearHistory,
  dbus_cb_dunst_NotificationCloseAll, dbus_cb_dunst_NotificationCloseLast,
  dbus_cb_dunst_NotificationShow, dbus_cb_dunst_NotificationPopHistory,
  dbus_cb_dunst_NotificationRemoveFromHistory, dbus_cb_dunst_RuleEnable, dbus_cb_dunst_ConfigReload,
  dbus_cb_dunst_Properties_Set, Property,
}
use dunst.Steps.{IsSound, log-IsSound, dispatch-IsSound}
use dunst.Steps.Marked.{menu_result-IsSound, click-IsSound}
use dunst.Steps.Received.{notify-IsSound}
use dunst.Steps.Popped.{returning}
use dunst.Steps.Handled.{
  ContextMenuCall-IsSound, NotificationAction-IsSound, RuleEnable-IsSound,
  CloseNotification-IsSound, ClearHistory-IsSound, CloseAll-IsSound, CloseLast-IsSound,
  Show-IsSound, PopHistory-IsSound, RemoveFromHistory-IsSound, ConfigReload-IsSound,
  Properties_Set-IsSound,
}

-- One turn: a method call, a property that is set, a timer, the end of a menu or a click. A
-- notification arrives at an address that none had, while the number that the counter gives next is
-- positive and neither shown nor waiting; one comes back from the history while its id is neither.
pub data Step (e : Env) (o : Outside) (m : Matchers) (load : List Str → Settings × List Rule)
    (received : List ℕ) (d : Daemon) : List ℕ → Daemon → Type 0 where
  notifies :
      (p : ℕ) (n : Notification)
      → tally (λ q. q == p) received ≡ 0
      → active (d.world.next_notification_id +ℤ pos 1) d.world ≡ 0
      → eq_ℤ (d.world.next_notification_id +ℤ pos 1) (pos 0) ≡ false
      → Step e o m load received d (p ∷ received) (dbus_cb_Notify e o p (some n) d)
  garbles : (p : ℕ) → Step e o m load received d received (dbus_cb_Notify e o p none d)
  closes : (id : ℕ) → Step e o m load received d received (dbus_cb_CloseNotification e o id d)
  calls_menu : Step e o m load received d received (dbus_cb_dunst_ContextMenuCall d)
  acts : (nr : ℕ) → Step e o m load received d received (dbus_cb_dunst_NotificationAction nr d)
  clears : Step e o m load received d received (dbus_cb_dunst_NotificationClearHistory e o d)
  closes_all : Step e o m load received d received (dbus_cb_dunst_NotificationCloseAll e o d)
  closes_last : Step e o m load received d received (dbus_cb_dunst_NotificationCloseLast e o d)
  shows :
      returning d.world (peek_tail d.world.history) ≡ 0
      → Step e o m load received d received (dbus_cb_dunst_NotificationShow e o d)
  pops :
      (id : ℕ)
      → active (id_of id) d.world ≡ 0
      → Step e o m load received d received (dbus_cb_dunst_NotificationPopHistory e o id d)
  removes :
      (id : ℕ)
      → Step e o m load received d received (dbus_cb_dunst_NotificationRemoveFromHistory e o id d)
  enables :
      (name : Str) (state : ℤ)
      → Step e o m load received d received (dbus_cb_dunst_RuleEnable name state d)
  reloads :
      (configs : List Str)
      → Step e o m load received d received (dbus_cb_dunst_ConfigReload e o m load configs d)
  sets :
      (name : Str) (value : Property)
      → Step e o m load received d received (dbus_cb_dunst_Properties_Set e o name value d).1
  times_out :
      (i t : ℕ) → d.sources ≡ (i, t) ∷ [] → Step e o m load received d received (dispatch e o i d)
  ends_menu :
      (output : CString)
      → Step e o m load received d received (context_menu_result_dispatch e o output d)
  clicks :
      (heights : ℕ → ℤ) (button : ℕ) (down : Bool) (y : ℤ)
      → Step e o m load received d received (input_handle_click e o heights button down y d)

-- The states that are reached from the empty queues, with what was received on the way.
pub data Reach (e : Env) (o : Outside) (m : Matchers) (load : List Str → Settings × List Rule)
    : List ℕ → Daemon → Type 0 where
  starts :
      (d : Daemon)
      → d.world.displayed ≡ []
      → d.world.waiting ≡ []
      → d.world.history ≡ []
      → d.world.unreferenced ≡ []
      → d.next_timeout_id ≡ 0
      → d.sources ≡ []
      → Reach e o m load [] d
  steps :
      {r s : List ℕ} {d v : Daemon}
      → Reach e o m load r d
      → Step e o m load r d s v
      → Reach e o m load s v

module _ (e : Env) (laws : QueueLaws e) (o : Outside) (out : OutsideLaws o) (m : Matchers)
    (load : List Str → Settings × List Rule) where
  Step-IsSound : {r s : List ℕ} {d v : Daemon} → Step e o m load r d s v → IsSound r d → IsSound s v
  Step-IsSound {d = d} (notifies p n new free positive) s =
      notify-IsSound e laws o out p n d new free positive s
  Step-IsSound {d = d} (garbles p) s =
      unfold dbus_cb_Notify in
      log-IsSound (returned (reply_error (codes "Cannot decode notification!")) ∷ []) d s
  Step-IsSound {d = d} (closes id) s = CloseNotification-IsSound e laws o out id d s
  Step-IsSound {d = d} calls_menu s = ContextMenuCall-IsSound d s
  Step-IsSound {d = d} (acts nr) s = NotificationAction-IsSound nr d s
  Step-IsSound {d = d} clears s = ClearHistory-IsSound e laws o out d s
  Step-IsSound {d = d} closes_all s = CloseAll-IsSound e laws o out d s
  Step-IsSound {d = d} closes_last s = CloseLast-IsSound e laws o out d s
  Step-IsSound {d = d} (shows fresh) s = Show-IsSound e laws o out d fresh s
  Step-IsSound {d = d} (pops id fresh) s = PopHistory-IsSound e laws o out id d fresh s
  Step-IsSound {d = d} (removes id) s = RemoveFromHistory-IsSound e laws o out id d s
  Step-IsSound {d = d} (enables name state) s = RuleEnable-IsSound name state d s
  Step-IsSound {d = d} (reloads configs) s = ConfigReload-IsSound e laws o out m load configs d s
  Step-IsSound {d = d} (sets name value) s = Properties_Set-IsSound e laws o out name value d s
  Step-IsSound {d = d} (times_out i t h) s = dispatch-IsSound e laws o out d i t h s
  Step-IsSound {d = d} (ends_menu output) s = menu_result-IsSound e laws o out output d s
  Step-IsSound {d = d} (clicks heights button down y) s =
      click-IsSound e laws o out heights button down y d s

  -- In every state that the daemon reaches from empty queues, by messages, timers, menus, clicks
  -- and reloads in any order, no id is shown or waiting twice, each notification is in the three
  -- queues or among those given up as often as it was received, and at most one timer exists, the
  -- one whose id the daemon holds. A notification must arrive while the number that the counter
  -- gives next is neither 0 nor in use, and come back from the history while its id is not in use.
  pub Reach-IsSound : (r : List ℕ) (d : Daemon) → Reach e o m load r d → IsSound r d
  Reach-IsSound r d (starts v displayed waiting history unreferenced i s) = record {
    unique = λ j. rw (displayed, waiting) (omega arith);
    holds = λ t. rw (displayed, waiting, history, unreferenced) refl;
    timed = HasTimer.idle i s;
  }
  Reach-IsSound r d (steps {r = q} {d = v} before step) =
      Step-IsSound step (Reach-IsSound q v before)
