-- ===== src/Queues/Bound.antt =====
-- Closing: the length of the history, and an id that is in use twice (src/queues.c).
use dunst.Base.{
  ℕ, ◌+◌, ◌≤◌, ℤ, pos, Bool, true, not, Option, none, some, [], ◌∷◌, length, length-append,
  pos_part, lt_ℤ, erase, weight, tally-erase, ◌≡◌, ap, if◌then◌else◌, arith,
}
use dunst.Settings.{Settings}
use dunst.World.{World, signal_notification_closed}
use dunst.Queues.{find, has_id}
use dunst.Queues.Close.{
  drop_oldest, queues_history_push, close_target, take_displayed, take_waiting,
  queues_notification_close_id,
}
use dunst.Queues.Keep.{held}
use dunst.Queues.Keep.Quiet.{IsQuiet-if, signal_notification_closed-IsQuiet}
use dunst.Queues.Keep.Close.{find-mem, close_target-Puts}

module _ (c : Settings) (limited : lt_ℤ (pos 0) c.history_length ≡ true) where
  abbrev IsBounded : World → Type 0
  IsBounded w = length w.history ≤ pos_part c.history_length

  push-IsBounded : (p : ℕ) (w : World) → IsBounded w → IsBounded (queues_history_push c p w)
  unfolding queues_history_push drop_oldest
  push-IsBounded p w b = ground (
    arith,
    limited,
    length-append w.history (p ∷ []),
    length-append (drop_oldest w).history (p ∷ []),
  )

  close_target-IsBounded :
      (reason : ℕ) (target : Option ℕ) (w : World)
      → IsBounded w
      → IsBounded (close_target c reason target w)
  unfolding close_target
  close_target-IsBounded reason none w b = b
  close_target-IsBounded reason (some p) w b =
      let told = signal_notification_closed p reason w in
      let q =
        IsQuiet-if (not (w.heap p).redisplayed) (signal_notification_closed-IsQuiet p reason w) in
      push-IsBounded p (if not (w.heap p).redisplayed then told else w)
        (omega (arith, ap length q.history))

  -- With a positive `history_length`, closing a notification keeps the history within it.
  pub close_id-IsBounded :
      (i : ℤ) (reason : ℕ) (w : World)
      → length w.history ≤ pos_part c.history_length
      → length (queues_notification_close_id c i reason w).history ≤ pos_part c.history_length
  unfolding queues_notification_close_id
  close_id-IsBounded i reason w b =
      let (target, w') = take_waiting i (take_displayed i w) in
      close_target-IsBounded reason target w' (unfold take_waiting take_displayed in ground arith)

-- Closing an id that is both shown and waiting loses the shown notification: its pointer is in no
-- queue any more and is not given up either, where the waiting one is kept.
pub close_id-loses :
    (c : Settings) (i : ℤ) (reason : ℕ) (w : World) (shown hidden : ℕ)
    → find (has_id w i) w.displayed ≡ some shown
    → find (has_id w i) w.waiting ≡ some hidden
    → (t : ℕ → Bool)
    → held t (queues_notification_close_id c i reason w) + weight t shown ≡ held t w
unfolding queues_notification_close_id
close_id-loses c i reason w shown hidden h k t =
    let v = record w { displayed = erase shown w.displayed; waiting = erase hidden w.waiting } in
    let e : queues_notification_close_id c i reason w ≡ close_target c reason (some hidden) v =
      ground arith in
    rw e (
      omega (
        arith,
        (close_target-Puts c reason hidden v).holds t,
        tally-erase t shown w.displayed (find-mem (has_id w i) w.displayed shown h).1,
        tally-erase t hidden w.waiting (find-mem (has_id w i) w.waiting hidden k).1,
      ))
