-- ===== src/Steps/Popped.antt =====
-- The ways back from the history (src/queues.c) between two turns of the main loop.
use dunst.Base.{
  ℕ, ℤ, pos, true, Option, none, some, List, erase, drop_last, if◌then◌else◌, eq_ℤ→eq, tally-append,
  ◌≡◌, refl, sym, ap, ◌∙◌, inl, inr, Option-cases, arith,
}
use dunst.Settings.{Settings}
use dunst.Notification.{Notification}
use dunst.World.{World, Env, modify}
use dunst.Queues.{has_id, find}
use dunst.Queues.History.{
  peek_tail, redisplay, queues_history_pop, queues_history_pop_by_id, queues_history_clear,
}
use dunst.Queues.Keep.{QueueLaws, active, HasUniqueIds, Keeps, IsQuiet-Keeps, Keeps-HasUniqueIds}
use dunst.Queues.Keep.Quiet.{modify-IsQuiet}
use dunst.Queues.Keep.Close.{find-mem}
use dunst.Queues.Keep.Insert.{insert_waiting-Adds}
use dunst.Queues.Keep.Insert.Place.{quiet-active}
use dunst.Queues.Keep.Popped.{queues_history_pop-held}
use dunst.Daemon.{Daemon}
use dunst.Steps.{IsSound}

-- How often the id of what would come back is shown or waiting.
abbrev pub returning : World → Option ℕ → ℕ
returning w none = 0
returning w (some p) = active (w.heap p).id w

module _ (e : Env) (laws : QueueLaws e) (c : Settings) where
  redisplay-HasUniqueIds :
      (p : ℕ) (w : World)
      → HasUniqueIds w
      → active (w.heap p).id w ≡ 0
      → HasUniqueIds (redisplay e c p w)
  unfolding redisplay
  redisplay-HasUniqueIds p w u fresh =
      let f : Notification → Notification = λ n. record n {
        redisplayed = true;
        timeout = if c.sticky_history then pos 0 else n.timeout;
      } in
      let q = modify-IsQuiet p f w (λ n. refl) in
      (insert_waiting-Adds e laws c p (modify p f w) (Keeps-HasUniqueIds (IsQuiet-Keeps q) u)
        (quiet-active p q fresh)).unique

  pop-HasUniqueIds :
      (w : World)
      → HasUniqueIds w
      → returning w (peek_tail w.history) ≡ 0
      → HasUniqueIds (queues_history_pop e c w)
  unfolding queues_history_pop
  pop-HasUniqueIds w u fresh = elim (Option-cases (peek_tail w.history)) [
    | inl empty ↦ rw (queues_history_pop, empty) u
    | inr (p, last) ↦
        let free : active (w.heap p).id w ≡ 0 = ap (returning w) (sym last) ∙ fresh in
        rw (queues_history_pop, last)
          (redisplay-HasUniqueIds p (record w { history = drop_last w.history }) u free)
  ]

  pop_by_id-HasUniqueIds :
      (i : ℤ) (w : World)
      → HasUniqueIds w
      → active i w ≡ 0
      → HasUniqueIds (queues_history_pop_by_id e c i w)
  unfolding queues_history_pop_by_id
  pop_by_id-HasUniqueIds i w u fresh = elim (Option-cases (find (has_id w i) w.history)) [
    | inl absent ↦ rw (queues_history_pop_by_id, absent) u
    | inr (p, here) ↦
        let same : (w.heap p).id ≡ i =
          eq_ℤ→eq (w.heap p).id i (find-mem (has_id w i) w.history p here).0 in
        rw (queues_history_pop_by_id, here)
          (redisplay-HasUniqueIds p (record w { history = erase p w.history }) u
            (ap (λ j. active j w) same ∙ fresh))
  ]

  module _ {received : List ℕ} where
    pub popped-IsSound :
        (d : Daemon)
        → returning d.world (peek_tail d.world.history) ≡ 0
        → IsSound received d
        → IsSound received (record d { world = queues_history_pop e c d.world })
    popped-IsSound d fresh s = record {
      unique = pop-HasUniqueIds d.world s.unique fresh;
      holds = λ t. (queues_history_pop-held e laws c (pos 0) d.world t).0 ∙ s.holds t;
      timed = s.timed;
    }

    pub popped_by_id-IsSound :
        (i : ℤ) (d : Daemon)
        → active i d.world ≡ 0
        → IsSound received d
        → IsSound received (record d { world = queues_history_pop_by_id e c i d.world })
    popped_by_id-IsSound i d fresh s = record {
      unique = pop_by_id-HasUniqueIds i d.world s.unique fresh;
      holds = λ t. (queues_history_pop-held e laws c i d.world t).1 ∙ s.holds t;
      timed = s.timed;
    }

pub queues_history_clear-Keeps : (w : World) → Keeps w (queues_history_clear w).1
unfolding queues_history_clear
queues_history_clear-Keeps w = record {
  ids = λ p. refl;
  holds = λ t. omega (arith, tally-append t w.history w.unreferenced);
  no_more = λ i. omega arith;
}
