-- ===== src/Queues/Keep/Update.antt =====
-- What closing takes off the queues that the loops of queues_update walk. The loops themselves are
-- in the children.
pub mod Retire
pub mod Fill
use dunst.Base.{
  if◌then◌else◌, ℕ, zero, suc, ◌+◌, ◌≤◌, ℤ, Bool, true, false, Bool-cases, Option, none, some,
  Option-cases, List, [], ◌∷◌, mem, erase, drop_last, tally, tally-erase, tally-perm, mem-tally,
  tally-mem, unique_mem, weight, ◌≡◌, refl, sym, ap, ◌∙◌, ◌⊎◌, inl, inr, ◌==◌, ==_iff, eq_ℤ,
  eq_ℤ_refl, arith, weight_self, subst,
}
use dunst.Settings.{Settings}
use dunst.World.{World, Env, signal_notification_closed}
use dunst.Queues.{DunstStatus, has_id, cmp_data}
use dunst.Queues.Close.{
  close_target, queues_notification_close_id, queues_notification_close, queues_notification_remove,
}
use dunst.Queues.History.{peek_tail}
use dunst.Queues.Update.{push_back, retire_one, retire, queues_swap_notifications}
use dunst.Queues.Keep.{
  QueueLaws, held, active, SameIds, Keeps, Keeps-refl, Keeps-trans, HasUniqueIds,
  Keeps-HasUniqueIds, has_id_same, IsQuiet, IsQuiet-Keeps,
}
use dunst.Queues.Keep.Close.{
  find-mem, Closing, absent, shown, hidden, close_id-Closing, queues_notification_close_id-Keeps,
}

-- From the queue that `queue` reads `w` has lost `p` at most.
abbrev pub LosesAtMost : (World → List ℕ) → ℕ → World → World → Type 0
LosesAtMost queue p v w = (t : ℕ → Bool) → tally t (queue v) ≤ tally t (queue w) + weight t p

abbrev pub displayed : World → List ℕ
displayed w = w.displayed

abbrev pub waiting : World → List ℕ
waiting w = w.waiting

pub close_target-queues :
    (c : Settings) (reason p : ℕ) (w : World)
    → ((close_target c reason (some p) w).displayed ≡ w.displayed)
      × ((close_target c reason (some p) w).waiting ≡ w.waiting)
unfolding close_target signal_notification_closed
close_target-queues c reason p w = ground arith

-- Closing a notification that is shown takes no other one off the displayed queue, and closing one
-- that waits no other one off the waiting queue.
Closing-displayed :
    (c : Settings) (p : ℕ) (i : ℤ) (reason : ℕ) (w v : World)
    → HasUniqueIds w
    → has_id w i p ≡ true
    → mem p w.displayed ≡ true
    → Closing c i reason w v
    → LosesAtMost displayed p w v
Closing-displayed c p i reason w v u h m (absent e f g) t = rw g (omega arith)
Closing-displayed c p i reason w v u h m (shown q e g) t =
    let (hq, mq) = find-mem (has_id w i) w.displayed q e in
    let same = unique_mem (has_id w i) q p w.displayed (omega (arith, u i)) mq m hq h in
    omega (
      arith,
      tally-erase t q w.displayed mq,
      ap (weight t) same,
      ap (λ x. tally t (displayed x)) g,
      ap (tally t)
          (close_target-queues c reason q (record w { displayed = erase q w.displayed })).0,
    )
Closing-displayed c p i reason w v u h m (hidden q e f g) t = omega (
  arith,
  ap (λ x. tally t (displayed x)) g,
  ap (tally t) (close_target-queues c reason q (record w { waiting = erase q w.waiting })).0,
)

Closing-waiting :
    (c : Settings) (p : ℕ) (i : ℤ) (reason : ℕ) (w v : World)
    → HasUniqueIds w
    → has_id w i p ≡ true
    → mem p w.waiting ≡ true
    → Closing c i reason w v
    → LosesAtMost waiting p w v
Closing-waiting c p i reason w v u h m (absent e f g) t = rw g (omega arith)
Closing-waiting c p i reason w v u h m (shown q e g) t = omega (
  arith,
  ap (λ x. tally t (waiting x)) g,
  ap (tally t) (close_target-queues c reason q (record w { displayed = erase q w.displayed })).1,
)
Closing-waiting c p i reason w v u h m (hidden q e f g) t =
    let (hq, mq) = find-mem (has_id w i) w.waiting q f in
    let same = unique_mem (has_id w i) q p w.waiting (omega (arith, u i)) mq m hq h in
    omega (
      arith,
      tally-erase t q w.waiting mq,
      ap (weight t) same,
      ap (λ x. tally t (waiting x)) g,
      ap (tally t) (close_target-queues c reason q (record w { waiting = erase q w.waiting })).1,
    )

pub close-displayed :
    (c : Settings) (p reason : ℕ) (w : World)
    → HasUniqueIds w
    → mem p w.displayed ≡ true
    → LosesAtMost displayed p w (queues_notification_close c p reason w)
unfolding queues_notification_close
close-displayed c p reason w u m =
    Closing-displayed c p (w.heap p).id reason w _ u (eq_ℤ_refl (w.heap p).id) m
      (close_id-Closing c (w.heap p).id reason w u)

pub close-waiting :
    (c : Settings) (p reason : ℕ) (w : World)
    → HasUniqueIds w
    → mem p w.waiting ≡ true
    → LosesAtMost waiting p w (queues_notification_close c p reason w)
unfolding queues_notification_close
close-waiting c p reason w u m =
    Closing-waiting c p (w.heap p).id reason w _ u (eq_ℤ_refl (w.heap p).id) m
      (close_id-Closing c (w.heap p).id reason w u)

-- One round of a loop over a queue, at the pointer `p`.
pub record Round (queue : World → List ℕ) (p : ℕ) (v w : World) : Type 0 where
  pub keeps : Keeps v w
  pub loses : LosesAtMost queue p v w

pub Round_refl : (queue : World → List ℕ) (p : ℕ) (w : World) → Round queue p w w
Round_refl queue p w = record { keeps = Keeps-refl w; loses = λ t. omega arith }

pub Round_if :
    (queue : World → List ℕ) (p : ℕ) {v w x : World} (b : Bool)
    → Round queue p v w
    → Round queue p v x
    → Round queue p v (if b then w else x)
Round_if queue p true h k = h
Round_if queue p false h k = k

-- Before or after a round an update that leaves the queues alone changes nothing.
pub IsQuiet-Round :
    (p : ℕ) {u v w : World} → IsQuiet u v → Round displayed p v w → Round displayed p u w
IsQuiet-Round p q r = record {
  keeps = Keeps-trans (IsQuiet-Keeps q) r.keeps;
  loses = λ t. omega (arith, r.loses t, ap (tally t) q.displayed);
}

pub IsQuiet-Round_waiting :
    (p : ℕ) {u v w : World} → IsQuiet u v → Round waiting p v w → Round waiting p u w
IsQuiet-Round_waiting p q r = record {
  keeps = Keeps-trans (IsQuiet-Keeps q) r.keeps;
  loses = λ t. omega (arith, r.loses t, ap (tally t) q.waiting);
}

pub Round-IsQuiet :
    (p : ℕ) {u v w : World} → Round displayed p u v → IsQuiet v w → Round displayed p u w
Round-IsQuiet p r q = record {
  keeps = Keeps-trans r.keeps (IsQuiet-Keeps q);
  loses = λ t. omega (arith, r.loses t, ap (tally t) q.displayed);
}
