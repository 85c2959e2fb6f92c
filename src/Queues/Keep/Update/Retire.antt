-- ===== src/Queues/Keep/Update/Retire.antt =====
-- The first loop of queues_update.
use dunst.Base.{
  ℕ, ◌≤◌, ℤ, Bool, true, false, not, ◌&&◌, List, [], ◌∷◌, mem, tally, tally-erase, tally-perm,
  mem-tally, weight_self, ◌≡◌, refl, ap, ◌∙◌, ◌==◌, arith,
}
use dunst.Settings.{Settings, is_suppress}
use dunst.World.{World, Env}
use dunst.Queues.{
  DunstStatus, has_id, cmp_data, queues_notification_is_ready, queues_notification_is_finished,
  reason_undef, reason_time,
}
use dunst.Queues.Close.{
  queues_notification_close, queues_notification_remove, queues_history_remove_by_id,
}
use dunst.Queues.Update.{push_back, retire_unfinished, retire_finished, retire_one, retire}
use dunst.Queues.Keep.{
  QueueLaws, Keeps, Keeps-refl, Keeps-trans, HasUniqueIds, Keeps-HasUniqueIds, IsQuiet,
  IsQuiet-Keeps,
}
use dunst.Queues.Keep.Quiet.{modify-IsQuiet, restart-IsQuiet}
use dunst.Queues.Keep.Close.{queues_notification_close-Keeps, queues_notification_remove-Keeps}
use dunst.Queues.Keep.Update.{
  displayed, close-displayed, Round, Round_refl, Round_if, IsQuiet-Round, Round-IsQuiet,
}

close-Round :
    (c : Settings) (p reason : ℕ) (w : World)
    → HasUniqueIds w
    → mem p w.displayed ≡ true
    → Round displayed p w (queues_notification_close c p reason w)
close-Round c p reason w u m = record {
  keeps = queues_notification_close-Keeps c p reason w u;
  loses = close-displayed c p reason w u m;
}

remove_by_id-displayed :
    (i : ℤ) (w : World) → (queues_history_remove_by_id i w).1.displayed ≡ w.displayed
unfolding queues_history_remove_by_id
remove_by_id-displayed i w = ground arith

remove-Round :
    (c : Settings) (p reason : ℕ) (w : World)
    → HasUniqueIds w
    → mem p w.displayed ≡ true
    → Round displayed p w (queues_notification_remove c p reason w)
remove-Round c p reason w u m = record {
  keeps = queues_notification_remove-Keeps c p reason w u;
  loses = λ t.
      unfold queues_notification_remove in
      omega (
        arith,
        close-displayed c p reason w u m t,
        ap (tally t)
            (remove_by_id-displayed (w.heap p).id (queues_notification_close c p reason w)),
      );
}

-- Taking out the time of the start, asking whether a notification is finished changes nothing.
is_finished-IsQuiet :
    (e : Env) (status : DunstStatus) (time : ℤ) (p : ℕ) (w : World)
    → IsQuiet w (queues_notification_is_finished e status time p w).1
unfolding queues_notification_is_finished
is_finished-IsQuiet e status time p w =
    let q = restart-IsQuiet e p w in
    record {
      ids = λ x. ground (arith, q.ids x);
      displayed = ground (arith, q.displayed);
      waiting = ground (arith, q.waiting);
      history = ground (arith, q.history);
      unreferenced = ground (arith, q.unreferenced);
    }

module _ (e : Env) (laws : QueueLaws e) (c : Settings) where
  push_back-Round :
      (p : ℕ) (w : World) → mem p w.displayed ≡ true → Round displayed p w (push_back e c p w)
  unfolding push_back
  push_back-Round p w m = record {
    keeps = record {
      ids = λ q. refl;
      holds = λ t. omega (
        arith,
        tally-erase t p w.displayed m,
        tally-perm t (laws.insert_sorted-perm (cmp_data c w) p w.waiting),
      );
      no_more = λ i. omega (
        arith,
        tally-erase (has_id w i) p w.displayed m,
        tally-perm (has_id w i) (laws.insert_sorted-perm (cmp_data c w) p w.waiting),
      );
    };
    loses = λ t. omega (arith, tally-erase t p w.displayed m);
  }

  retire_unfinished-Round :
      (status : DunstStatus) (p : ℕ) (w : World)
      → HasUniqueIds w
      → mem p w.displayed ≡ true
      → Round displayed p w (retire_unfinished e c status p w)
  unfolding retire_unfinished
  retire_unfinished-Round status p w u m =
      Round_if displayed p (status.fullscreen && is_suppress (w.heap p).fullscreen)
        (close-Round c p reason_undef w u m)
        (Round_if displayed p (not (queues_notification_is_ready (w.heap p) status true))
          (push_back-Round p w m) (Round_refl displayed p w))

  retire_finished-Round :
      (status : DunstStatus) (p : ℕ) (done : Bool) (w : World)
      → HasUniqueIds w
      → mem p w.displayed ≡ true
      → Round displayed p w (retire_finished e c status p (done, w))
  unfolding retire_finished
  retire_finished-Round status p true w u m = close-Round c p reason_time w u m
  retire_finished-Round status p false w u m = retire_unfinished-Round status p w u m

  retire_one-Round :
      (status : DunstStatus) (time : ℤ) (p : ℕ) (w : World)
      → HasUniqueIds w
      → mem p w.displayed ≡ true
      → Round displayed p w (retire_one e c status time p w)
  unfolding retire_one
  retire_one-Round status time p w u m =
      let asked = is_finished-IsQuiet e status time p w in
      let r = queues_notification_is_finished e status time p w in
      let mark = (w.heap p).marked_for_closure in
      let removal = (w.heap p).marked_for_removal in
      Round_if displayed p (w.heap p).locked (Round_refl displayed p w) (
        Round_if displayed p (not (mark == 0))
          (Round-IsQuiet p (close-Round c p mark w u m)
            (modify-IsQuiet p (λ n. record n { marked_for_closure = 0 }) _ (λ n. refl)))
          (Round_if displayed p (not (removal == 0))
            (Round-IsQuiet p (remove-Round c p removal w u m)
              (modify-IsQuiet p (λ n. record n { marked_for_removal = 0 }) _ (λ n. refl)))
            (IsQuiet-Round p asked (
              retire_finished-Round status p r.0 r.1 (Keeps-HasUniqueIds (IsQuiet-Keeps asked) u)
                (ap (mem p) asked.displayed ∙ m)))))

  pub retire-Keeps :
      (status : DunstStatus) (time : ℤ) (ps : List ℕ) (w : World)
      → HasUniqueIds w
      → ((t : ℕ → Bool) → tally t ps ≤ tally t w.displayed)
      → Keeps w (retire e c status time ps w)
  unfolding retire
  retire-Keeps status time [] w u sub = Keeps-refl w
  retire-Keeps status time (p ∷ ps) w u sub =
      let here = mem-tally p w.displayed (omega (arith, sub (λ q. q == p), weight_self p)) in
      let round = retire_one-Round status time p w u here in
      Keeps-trans round.keeps (
        retire-Keeps status time ps _ (Keeps-HasUniqueIds round.keeps u)
          (λ t. omega (arith, sub t, round.loses t)))
