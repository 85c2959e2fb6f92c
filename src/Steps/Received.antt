-- ===== src/Steps/Received.antt =====
-- Notify (src/dbus.c) between two turns of the main loop.
use dunst.Base.{
  ℕ, ℤ, pos, ◌+ℤ◌, eq_ℤ, false, not, some, List, [], ◌∷◌, mem, tally, tally_avoid, str_empty, ◌==◌,
  ==_iff, if◌then◌else◌, ◌≡◌, ◌≢◌, refl, sym, subst, ap, ◌∙◌, inl, inr, Bool-cases, arith,
}
use dunst.Settings.{Settings}
use dunst.Notification.{Notification}
use dunst.World.{
  World, Env, modify, log_effects, returned, signal_notification_closed, notification_run_script,
  reply_uint,
}
use dunst.Queues.{has_id, unref, reason_user, DunstStatus}
use dunst.Queues.Insert.{queues_notification_insert}
use dunst.Queues.Keep.{
  QueueLaws, held, active, HasUniqueIds, IsQuiet, IsQuiet-trans, IsQuiet-Keeps, Keeps-HasUniqueIds,
}
use dunst.Queues.Keep.Quiet.{
  IsQuiet-if, notification_run_script-IsQuiet, signal_notification_closed-IsQuiet,
}
use dunst.Queues.Keep.Insert.Place.{
  Entered, queues_notification_insert-Entered, queues_notification_insert-id,
}
use dunst.Daemon.{Outside, Daemon}
use dunst.Daemon.Timer.{OutsideLaws}
use dunst.Dbus.Handlers.{dbus_cb_Notify}
use dunst.Steps.{IsSound, wake_up-IsSound}

-- A pointer that was never received is in no queue.
unknown-absent :
    {received : List ℕ} {d : Daemon} (p : ℕ)
    → IsSound received d
    → tally (λ q. q == p) received ≡ 0
    → (mem p d.world.displayed ≡ false) × (mem p d.world.waiting ≡ false)
unknown-absent {received} {d} p s new =
    let none_held : held (λ q. q == p) d.world ≡ 0 = s.holds (λ q. q == p) ∙ new in
    (
      absent d.world.displayed (omega (arith, none_held)),
      absent d.world.waiting (omega (arith, none_held)),
    )
  where
    absent : (xs : List ℕ) → tally (λ q. q == p) xs ≡ 0 → mem p xs ≡ false
    absent [] h = refl
    absent (x ∷ xs) h = ground (arith, absent xs)

-- Storing a notification at a pointer that is in no queue.
store-active :
    (p : ℕ) (n : Notification) (w : World) (i : ℤ)
    → mem p w.displayed ≡ false
    → mem p w.waiting ≡ false
    → active i (modify p (λ _. n) w) ≡ active i w
store-active p n w i m k = omega (
  arith,
  tally_avoid (has_id (modify p (λ _. n) w) i) (has_id w i) p w.displayed m same,
  tally_avoid (has_id (modify p (λ _. n) w) i) (has_id w i) p w.waiting k same,
)
  where
    same : (q : ℕ) → q ≢ p → has_id (modify p (λ _. n) w) i q ≡ has_id w i q
    same q ne = ground (arith, ==_iff q p)

module _ (e : Env) (laws : QueueLaws e) (o : Outside) (out : OutsideLaws o) where
  -- The world after the insertion, with what was not taken given up.
  abbrev settled : Settings → DunstStatus → ℕ → World → World
  settled c status p w =
      let r = queues_notification_insert e c status p w in
      let replied = log_effects (returned (reply_uint r.0) ∷ []) r.1 in
      if eq_ℤ r.0 (pos 0)
      then unref p (signal_notification_closed p reason_user replied)
      else replied

  unref-Entered :
      (c : Settings) (p : ℕ) (w v : World)
      → IsQuiet w v
      → HasUniqueIds w
      → Entered e laws c p w (unref p v)
  unref-Entered c p w v q u =
      let k = IsQuiet-Keeps q in (λ t. omega (arith, k.holds t), Keeps-HasUniqueIds k u)

  nonzero :
      (a x : ℤ)
      → eq_ℤ x (pos 0) ≡ false
      → eq_ℤ (if not (eq_ℤ a (pos 0)) then a else x) (pos 0) ≡ false
  nonzero a x h = elim (Bool-cases (eq_ℤ a (pos 0))) [
    | inl zero ↦ rw zero h
    | inr other ↦ rw other other
  ]

  refused-IsQuiet :
      (c : Settings) (p : ℕ) (w : World)
      → IsQuiet w (
          signal_notification_closed p reason_user (
            log_effects
              (returned (reply_uint (pos 0)) ∷ [])
              (if c.always_run_script then notification_run_script c p w else w)))
  refused-IsQuiet c p w =
      let v = if c.always_run_script then notification_run_script c p w else w in
      let q = IsQuiet-if c.always_run_script (notification_run_script-IsQuiet c p w) in
      let replied : IsQuiet w (log_effects (returned (reply_uint (pos 0)) ∷ []) v) = record {
        ids = q.ids;
        displayed = q.displayed;
        waiting = q.waiting;
        history = q.history;
        unreferenced = q.unreferenced;
      } in
      IsQuiet-trans replied (
        signal_notification_closed-IsQuiet p reason_user
          (log_effects (returned (reply_uint (pos 0)) ∷ []) v))

  settled-Entered :
      (c : Settings) (status : DunstStatus) (p : ℕ) (w : World)
      → HasUniqueIds w
      → mem p w.displayed ≡ false
      → mem p w.waiting ≡ false
      → active (w.next_notification_id +ℤ pos 1) w ≡ 0
      → eq_ℤ (w.next_notification_id +ℤ pos 1) (pos 0) ≡ false
      → Entered e laws c p w (settled c status p w)
  unfolding queues_notification_insert
  settled-Entered c status p w u m k free positive = elim (Bool-cases (str_empty (w.heap p).msg)) [
    | inl empty ↦ rw empty (unref-Entered c p w _ (refused-IsQuiet c p w) u)
    | inr text ↦
        let r = queues_notification_insert e c status p w in
        let id =
          ap (λ z. eq_ℤ z (pos 0))
            (queues_notification_insert-id e laws c p status w u m k text free)
          ∙ nonzero (w.heap p).id (w.next_notification_id +ℤ pos 1) positive in
        subst
          (λ b. Entered e laws c p w (
            let replied = log_effects (returned (reply_uint r.0) ∷ []) r.1 in
            if b then unref p (signal_notification_closed p reason_user replied) else replied))
          (sym id) (queues_notification_insert-Entered e laws c p status w u m k text (λ h. free))
  ]

  -- A notification that arrives at a pointer of its own is received once more.
  pub notify-IsSound :
      {received : List ℕ} (p : ℕ) (n : Notification) (d : Daemon)
      → tally (λ q. q == p) received ≡ 0
      → active (d.world.next_notification_id +ℤ pos 1) d.world ≡ 0
      → eq_ℤ (d.world.next_notification_id +ℤ pos 1) (pos 0) ≡ false
      → IsSound received d
      → IsSound (p ∷ received) (dbus_cb_Notify e o p (some n) d)
  unfolding dbus_cb_Notify
  notify-IsSound {received} p n d new free positive s =
      let (m, k) = unknown-absent p s new in
      let w = modify p (λ _. n) d.world in
      let same : (i : ℤ) → active i w ≡ active i d.world = λ i. store-active p n d.world i m k in
      let unique : HasUniqueIds w = λ i. omega (arith, same i, s.unique i) in
      let (holds, fresh) =
        settled-Entered d.settings d.status p w unique m k
          (same (d.world.next_notification_id +ℤ pos 1) ∙ free) positive in
      let v = settled d.settings d.status p w in
      let entered : IsSound (p ∷ received) (record d { world = v }) = record {
        unique = fresh;
        holds = λ t. omega (arith, holds t, s.holds t);
        timed = s.timed;
      } in
      wake_up-IsSound e laws o out (record d { world = v }) entered
