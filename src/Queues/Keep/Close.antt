-- ===== src/Queues/Keep/Close.antt =====
-- Closing and removing, seen as moves of a pointer between the queues.
use dunst.Base.{
  ℕ, ◌+◌, ◌≤◌, ℤ, Bool, true, not, none, some, Option-cases, List, [], ◌∷◌, mem, erase, tally,
  tally-append, tally-erase, weight, ◌≡◌, refl, ◌∙◌, inl, inr, ==_iff, arith,
}
use dunst.Settings.{Settings}
use dunst.World.{World}
use dunst.Queues.{find, has_id, unref}
use dunst.Queues.Close.{
  drop_oldest, queues_history_push, close_target, queues_notification_close_id,
  queues_notification_close, queues_history_remove_by_id, queues_notification_remove,
}
use dunst.Queues.Keep.{
  held, active, SameIds, Keeps, Keeps-refl, Keeps-trans, HasUniqueIds, IsQuiet-Keeps,
}
use dunst.Queues.Keep.Quiet.{IsQuiet-if, signal_notification_closed-IsQuiet}

-- What `find` gives is in the queue and passes the test.
pub find-mem :
    (t : ℕ → Bool) (q : List ℕ) (p : ℕ) → find t q ≡ some p → (t p ≡ true) × (mem p q ≡ true)
unfolding find
find-mem t [] p h = cc
find-mem t (x ∷ xs) p h = ground (arith, find-mem t xs p, ==_iff x p)

pub find-tally : (t : ℕ → Bool) (q : List ℕ) (p : ℕ) → find t q ≡ some p → 1 ≤ tally t q
unfolding find
find-tally t [] p h = cc
find-tally t (x ∷ xs) p h = ground (arith, find-tally t xs p)

-- `w` is `v` with the pointer `p` put somewhere where it stays.
pub record Puts (p : ℕ) (v w : World) : Type 0 where
  pub ids : SameIds v w
  pub holds : (t : ℕ → Bool) → held t w ≡ held t v + weight t p
  pub no_more : (i : ℤ) → active i w ≤ active i v

drop_oldest-held : (t : ℕ → Bool) (w : World) → held t (drop_oldest w) ≡ held t w
unfolding drop_oldest
drop_oldest-held t w = ground arith

queues_history_push-Puts : (c : Settings) (p : ℕ) (w : World) → Puts p w (queues_history_push c p w)
unfolding queues_history_push
queues_history_push-Puts c p w = record {
  ids = λ q. ground arith;
  holds = λ t. ground (
    arith,
    drop_oldest-held t w,
    tally-append t w.history (p ∷ []),
    tally-append t (drop_oldest w).history (p ∷ []),
  );
  no_more = λ i. ground arith;
}

unref-Puts : (p : ℕ) (w : World) → Puts p w (unref p w)
unref-Puts p w = record { ids = λ q. refl; holds = λ t. omega arith; no_more = λ i. omega arith }

Keeps-Puts : {u v w : World} (p : ℕ) → Keeps u v → Puts p v w → Puts p u w
Keeps-Puts p k h = record {
  ids = λ q. h.ids q ∙ k.ids q;
  holds = λ t. omega (arith, h.holds t, k.holds t);
  no_more = λ i. omega (arith, h.no_more i, k.no_more i);
}

pub close_target-Puts :
    (c : Settings) (reason p : ℕ) (w : World) → Puts p w (close_target c reason (some p) w)
unfolding close_target
close_target-Puts c reason p w =
    Keeps-Puts p
      (IsQuiet-Keeps
        (IsQuiet-if (not (w.heap p).redisplayed) (signal_notification_closed-IsQuiet p reason w)))
      (queues_history_push-Puts c p _)

-- `v` is `w` without the pointer `p`, which is taken out of one of the queues.
record Takes (p : ℕ) (w v : World) : Type 0 where
  ids : SameIds w v
  holds : (t : ℕ → Bool) → held t w ≡ held t v + weight t p
  no_more : (i : ℤ) → active i v ≤ active i w

Takes-Puts : {u v w : World} (p : ℕ) → Takes p u v → Puts p v w → Keeps u w
Takes-Puts p k h = record {
  ids = λ q. h.ids q ∙ k.ids q;
  holds = λ t. omega (arith, h.holds t, k.holds t);
  no_more = λ i. omega (arith, h.no_more i, k.no_more i);
}

erase_displayed-Takes :
    (p : ℕ) (w : World)
    → mem p w.displayed ≡ true
    → Takes p w (record w { displayed = erase p w.displayed })
erase_displayed-Takes p w m = record {
  ids = λ q. refl;
  holds = λ t. omega (arith, tally-erase t p w.displayed m);
  no_more = λ i. omega (arith, tally-erase (has_id w i) p w.displayed m);
}

erase_waiting-Takes :
    (p : ℕ) (w : World)
    → mem p w.waiting ≡ true
    → Takes p w (record w { waiting = erase p w.waiting })
erase_waiting-Takes p w m = record {
  ids = λ q. refl;
  holds = λ t. omega (arith, tally-erase t p w.waiting m);
  no_more = λ i. omega (arith, tally-erase (has_id w i) p w.waiting m);
}

erase_history-Takes :
    (p : ℕ) (w : World)
    → mem p w.history ≡ true
    → Takes p w (record w { history = erase p w.history })
erase_history-Takes p w m = record {
  ids = λ q. refl;
  holds = λ t. omega (arith, tally-erase t p w.history m);
  no_more = λ i. omega arith;
}

-- With unique ids at most one of the two loops finds a notification.
pub data Closing (c : Settings) (i : ℤ) (reason : ℕ) (w v : World) : Type 0 where
  absent :
      find (has_id w i) w.displayed ≡ none
      → find (has_id w i) w.waiting ≡ none
      → v ≡ w
      → Closing c i reason w v
  shown :
      (p : ℕ)
      → find (has_id w i) w.displayed ≡ some p
      → v ≡ close_target c reason (some p) (record w { displayed = erase p w.displayed })
      → Closing c i reason w v
  hidden :
      (p : ℕ)
      → find (has_id w i) w.displayed ≡ none
      → find (has_id w i) w.waiting ≡ some p
      → v ≡ close_target c reason (some p) (record w { waiting = erase p w.waiting })
      → Closing c i reason w v

pub close_id-Closing :
    (c : Settings) (i : ℤ) (reason : ℕ) (w : World)
    → HasUniqueIds w
    → Closing c i reason w (queues_notification_close_id c i reason w)
unfolding queues_notification_close_id
close_id-Closing c i reason w u = elim (Option-cases (find (has_id w i) w.displayed)) [
  | inl e ↦ elim (Option-cases (find (has_id w i) w.waiting)) [
    | inl f ↦ absent e f (ground arith)
    | inr (p, f) ↦ hidden p e f (ground arith)
  ]
  | inr (p, e) ↦ elim (Option-cases (find (has_id w i) w.waiting)) [
    | inl f ↦ shown p e (ground arith)
    | inr (q, f) ↦ absurd (
        omega (
          arith,
          find-tally (has_id w i) w.displayed p e,
          find-tally (has_id w i) w.waiting q f,
          u i,
        ))
  ]
]

Closing-Keeps :
    (c : Settings) (i : ℤ) (reason : ℕ) (w v : World) → Closing c i reason w v → Keeps w v
Closing-Keeps c i reason w v (absent e f g) = rw g (Keeps-refl w)
Closing-Keeps c i reason w v (shown p e g) = rw g (
    Takes-Puts p (erase_displayed-Takes p w (find-mem (has_id w i) w.displayed p e).1)
      (close_target-Puts c reason p _))
Closing-Keeps c i reason w v (hidden p e f g) = rw g (
    Takes-Puts p (erase_waiting-Takes p w (find-mem (has_id w i) w.waiting p f).1)
      (close_target-Puts c reason p _))

-- With unique ids, closing an id keeps every pointer as often as before in the three queues or among
-- those given up; no id changes, and none is shown or waiting more often.
pub queues_notification_close_id-Keeps :
    (c : Settings) (i : ℤ) (reason : ℕ) (w : World)
    → HasUniqueIds w
    → Keeps w (queues_notification_close_id c i reason w)
queues_notification_close_id-Keeps c i reason w u =
    Closing-Keeps c i reason w _ (close_id-Closing c i reason w u)

pub queues_notification_close-Keeps :
    (c : Settings) (p reason : ℕ) (w : World)
    → HasUniqueIds w
    → Keeps w (queues_notification_close c p reason w)
unfolding queues_notification_close
queues_notification_close-Keeps c p reason w u =
    queues_notification_close_id-Keeps c (w.heap p).id reason w u

pub queues_history_remove_by_id-Keeps :
    (i : ℤ) (w : World) → Keeps w (queues_history_remove_by_id i w).1
unfolding queues_history_remove_by_id
queues_history_remove_by_id-Keeps i w = elim (Option-cases (find (has_id w i) w.history)) [
  | inl e ↦ rw (e, queues_history_remove_by_id) (Keeps-refl w)
  | inr (p, e) ↦
      rw (e, queues_history_remove_by_id)
        (Takes-Puts p (erase_history-Takes p w (find-mem (has_id w i) w.history p e).1)
          (unref-Puts p _))
]

-- With unique ids, removing a notification keeps every pointer as often as before in the three
-- queues or among those given up; no id changes, and none is shown or waiting more often.
pub queues_notification_remove-Keeps :
    (c : Settings) (p reason : ℕ) (w : World)
    → HasUniqueIds w
    → Keeps w (queues_notification_remove c p reason w)
unfolding queues_notification_remove
queues_notification_remove-Keeps c p reason w u =
    Keeps-trans (queues_notification_close_id-Keeps c (w.heap p).id reason w u)
      (queues_history_remove_by_id-Keeps (w.heap p).id _)
