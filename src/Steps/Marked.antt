-- ===== src/Steps/Marked.antt =====
-- The end of a menu (src/menu.c) and the clicks (src/input.c) between two turns of the main loop.
use dunst.Base.{
  ℕ, ℤ, Bool, true, false, not, Option, none, some, is_some, List, [], ◌∷◌, CString, ◌==◌,
  if◌then◌else◌, refl, inl, inr, Option-cases,
}
use dunst.Settings.{
  MouseAction, mouse_do_action, mouse_close_current, mouse_close_all, mouse_context,
  mouse_context_all, mouse_open_url, mouse_remove_current, mouse_none,
}
use dunst.Notification.{Notification}
use dunst.World.{Env, modify}
use dunst.Queues.{reason_user}
use dunst.Queues.Close.{queues_notification_close, queues_notification_remove}
use dunst.Queues.History.{queues_history_push_all}
use dunst.Queues.Keep.{QueueLaws, Keeps-trans, Keeps-if, Keeps-refl, IsQuiet-Keeps}
use dunst.Queues.Keep.Quiet.{modify-IsQuiet}
use dunst.Queues.Keep.Close.{queues_notification_close-Keeps, queues_notification_remove-Keeps}
use dunst.Queues.Keep.History.{queues_history_push_all-empties}
use dunst.Daemon.{Outside, Daemon}
use dunst.Daemon.Timer.{OutsideLaws}
use dunst.Menu.{dispatch_menu_result}
use dunst.Menu.Context.{
  notification_unlock, close_marked, remove_marked, unlock_all, context_menu_result_dispatch,
}
use dunst.Input.{act_on, mouse_act, mouse_acts, actions_of, input_handle_click, get_notification_at}
use dunst.Steps.{IsSound, IsSound-kept, IsSound-quiet, IsSound-if, wake_up-IsSound}
use dunst.Steps.Actions.{
  context_menu-IsSound, open_context_menu-IsSound, open_url-IsSound, do_action-IsSound,
  dispatch_menu_result-IsSound,
}

module _ {received : List ℕ} where
  close_marked-IsSound :
      (chosen : Bool) (p : ℕ) (d : Daemon)
      → IsSound received d
      → IsSound received (close_marked chosen p d)
  unfolding close_marked
  close_marked-IsSound chosen p d s =
      let reason = (d.world.heap p).marked_for_closure in
      let closed = queues_notification_close d.settings p reason d.world in
      let v = if chosen then closed else d.world in
      let w = modify p (λ n. record n { marked_for_closure = 0 }) v in
      let k =
        Keeps-if chosen (queues_notification_close-Keeps d.settings p reason d.world s.unique)
          (Keeps-refl d.world) in
      let reset = modify-IsQuiet p (λ n. record n { marked_for_closure = 0 }) v (λ n. refl) in
      IsSound-if (not (reason == 0)) (record d { world = w }) d
        (IsSound-kept w d (Keeps-trans k (IsQuiet-Keeps reset)) s) s

  remove_marked-IsSound :
      (p : ℕ) (d : Daemon) → IsSound received d → IsSound received (remove_marked p d)
  unfolding remove_marked
  remove_marked-IsSound p d s =
      let reason = (d.world.heap p).marked_for_removal in
      let v = queues_notification_remove d.settings p reason d.world in
      let w = modify p (λ n. record n { marked_for_removal = 0 }) v in
      let k = queues_notification_remove-Keeps d.settings p reason d.world s.unique in
      let reset = modify-IsQuiet p (λ n. record n { marked_for_removal = 0 }) v (λ n. refl) in
      IsSound-if (not (reason == 0)) (record d { world = w }) d
        (IsSound-kept w d (Keeps-trans k (IsQuiet-Keeps reset)) s) s

  unlock_all-IsSound :
      (chosen : Bool) (ps : List ℕ) (d : Daemon)
      → IsSound received d
      → IsSound received (unlock_all chosen ps d)
  unfolding unlock_all notification_unlock
  unlock_all-IsSound chosen [] d s = s
  unlock_all-IsSound chosen (p ∷ rest) d s =
      let w = notification_unlock p d.world in
      let v = record d { world = w } in
      let unlocked =
        IsSound-quiet w d (modify-IsQuiet p (λ n. record n { locked = false }) d.world (λ n. refl))
          s in
      unlock_all-IsSound chosen rest (remove_marked p (close_marked chosen p v)) (
        remove_marked-IsSound p (close_marked chosen p v)
          (close_marked-IsSound chosen p v unlocked))

  act_on-IsSound :
      (act : MouseAction) (p : ℕ) (d : Daemon)
      → IsSound received d
      → IsSound received (act_on act p d)
  unfolding act_on
  act_on-IsSound mouse_close_current p d s =
      let f : Notification → Notification = λ n. record n { marked_for_closure = reason_user } in
      IsSound-quiet (modify p f d.world) d (modify-IsQuiet p f d.world (λ n. refl)) s
  act_on-IsSound mouse_remove_current p d s =
      let f : Notification → Notification = λ n. record n { marked_for_removal = reason_user } in
      IsSound-quiet (modify p f d.world) d (modify-IsQuiet p f d.world (λ n. refl)) s
  act_on-IsSound mouse_do_action p d s = do_action-IsSound p d s
  act_on-IsSound mouse_open_url p d s = open_url-IsSound p d s
  act_on-IsSound mouse_context p d s = open_context_menu-IsSound p d s
  act_on-IsSound mouse_none p d s = s
  act_on-IsSound mouse_close_all p d s = s
  act_on-IsSound mouse_context_all p d s = s

  pub push_all-IsSound :
      (d : Daemon)
      → IsSound received d
      → IsSound received (record d { world = queues_history_push_all d.settings d.world })
  push_all-IsSound d s =
      let (a, b, k) = queues_history_push_all-empties d.settings d.world s.unique in
      IsSound-kept (queues_history_push_all d.settings d.world) d k s

  at-IsSound :
      (act : MouseAction) (hit : Option ℕ) (d : Daemon)
      → IsSound received d
      → IsSound received (elim hit [ none ↦ d | some p ↦ act_on act p d ])
  at-IsSound act none d s = s
  at-IsSound act (some p) d s = act_on-IsSound act p d s

  mouse_act-IsSound :
      (heights : ℕ → ℤ) (y : ℤ) (act : MouseAction) (d : Daemon)
      → IsSound received d
      → IsSound received (mouse_act heights y act d)
  unfolding mouse_act
  mouse_act-IsSound heights y mouse_close_all d s = push_all-IsSound d s
  mouse_act-IsSound heights y mouse_context_all d s = context_menu-IsSound d s
  mouse_act-IsSound heights y mouse_none d s = s
  mouse_act-IsSound heights y mouse_do_action d s =
      at-IsSound mouse_do_action (get_notification_at d.settings heights y d.world) d s
  mouse_act-IsSound heights y mouse_close_current d s =
      at-IsSound mouse_close_current (get_notification_at d.settings heights y d.world) d s
  mouse_act-IsSound heights y mouse_context d s =
      at-IsSound mouse_context (get_notification_at d.settings heights y d.world) d s
  mouse_act-IsSound heights y mouse_open_url d s =
      at-IsSound mouse_open_url (get_notification_at d.settings heights y d.world) d s
  mouse_act-IsSound heights y mouse_remove_current d s =
      at-IsSound mouse_remove_current (get_notification_at d.settings heights y d.world) d s

  mouse_acts-IsSound :
      (heights : ℕ → ℤ) (y : ℤ) (acts : List MouseAction) (d : Daemon)
      → IsSound received d
      → IsSound received (mouse_acts heights y acts d)
  unfolding mouse_acts
  mouse_acts-IsSound heights y [] d s = s
  mouse_acts-IsSound heights y (act ∷ acts) d s =
      mouse_acts-IsSound heights y acts (mouse_act heights y act d)
        (mouse_act-IsSound heights y act d s)

module _ (e : Env) (laws : QueueLaws e) (o : Outside) (out : OutsideLaws o)
    {received : List ℕ} where
  pub menu_result-IsSound :
      (output : CString) (d : Daemon)
      → IsSound received d
      → IsSound received (context_menu_result_dispatch e o output d)
  unfolding context_menu_result_dispatch
  menu_result-IsSound output d s =
      let v = dispatch_menu_result output d in
      let u = unlock_all (is_some output) v.locked_notifications v in
      let t =
        unlock_all-IsSound (is_some output) v.locked_notifications v
          (dispatch_menu_result-IsSound output d s) in
      wake_up-IsSound e laws o out (record u { locked_notifications = [] })
        (record { unique = t.unique; holds = t.holds; timed = t.timed })

  pub click-IsSound :
      (heights : ℕ → ℤ) (button : ℕ) (down : Bool) (y : ℤ) (d : Daemon)
      → IsSound received d
      → IsSound received (input_handle_click e o heights button down y d)
  unfolding input_handle_click
  click-IsSound heights button true y d s = s
  click-IsSound heights button false y d s = elim (Option-cases (actions_of d.settings button)) [
    | inl unknown ↦ rw (input_handle_click, unknown) s
    | inr (acts, known) ↦
        rw (input_handle_click, known)
          (wake_up-IsSound e laws o out (mouse_acts heights y acts d)
            (mouse_acts-IsSound heights y acts d s))
  ]
