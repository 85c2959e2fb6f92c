-- ===== src/Queues/Keep/History.antt =====
-- The history functions of src/queues.c: what moves where.
use dunst.Base.{
  ℕ, suc, Bool, true, none, some, List, [], ◌∷◌, length, erase, eq_ℤ_refl, ==_iff, ◌≡◌, refl, sym,
  subst, ap, ◌∙◌,
}
use dunst.Settings.{Settings}
use dunst.World.{World}
use dunst.Queues.{find, has_id, reason_user}
use dunst.Queues.Close.{queues_notification_close}
use dunst.Queues.History.{close_all, queues_history_push_all}
use dunst.Queues.Keep.{Keeps, Keeps-refl, Keeps-trans, HasUniqueIds, Keeps-HasUniqueIds}
use dunst.Queues.Keep.Update.{close_target-queues}
use dunst.Queues.Keep.Close.{
  Closing, absent, shown, hidden, close_id-Closing, queues_notification_close-Keeps,
}

find_head : (t : ℕ → Bool) (p : ℕ) (q : List ℕ) → t p ≡ true → find t (p ∷ q) ≡ some p
unfolding find
find_head t p q h = rw h refl

find-none : (t : ℕ → Bool) → find t [] ≡ none
unfolding find
find-none t = refl

found_head :
    (w : World) (p : ℕ) (q r : List ℕ) → r ≡ p ∷ q → find (has_id w (w.heap p).id) r ≡ some p
found_head w p q r h =
    ap (find (has_id w (w.heap p).id)) h
    ∙ find_head (has_id w (w.heap p).id) p q (eq_ℤ_refl (w.heap p).id)

pub erase_head : (p : ℕ) (q : List ℕ) → erase p (p ∷ q) ≡ q
erase_head p q = rw ((==_iff p p).1 refl) refl

module _ (c : Settings) (p : ℕ) (q : List ℕ) (w v : World) where
  -- Closing the head of the displayed queue takes it off and leaves the waiting queue.
  displayed_head :
      w.displayed ≡ p ∷ q
      → Closing c (w.heap p).id reason_user w v
      → (v.displayed ≡ q) × (v.waiting ≡ w.waiting)
  displayed_head h (absent e f g) = absurd (cc (found_head w p q w.displayed h, e))
  displayed_head h (hidden r e f g) = absurd (cc (found_head w p q w.displayed h, e))
  displayed_head h (shown r e g) =
      let same : r ≡ p = cc (found_head w p q w.displayed h, e) in
      let left =
        close_target-queues c reason_user r (record w { displayed = erase r w.displayed }) in
      (
        ap (λ x. x.displayed) g
            ∙ left.0
            ∙ ap (λ x. erase x w.displayed) same
            ∙ ap (erase p) h
            ∙ erase_head p q,
        ap (λ x. x.waiting) g ∙ left.1,
      )

  -- With nothing displayed, closing the head of the waiting queue takes it off.
  waiting_head :
      w.displayed ≡ []
      → w.waiting ≡ p ∷ q
      → Closing c (w.heap p).id reason_user w v
      → (v.displayed ≡ []) × (v.waiting ≡ q)
  waiting_head k h (absent e f g) = absurd (cc (found_head w p q w.waiting h, f))
  waiting_head k h (shown r e g) =
      absurd (cc (ap (find (has_id w (w.heap p).id)) k, e, find-none (has_id w (w.heap p).id)))
  waiting_head k h (hidden r e f g) =
      let same : r ≡ p = cc (found_head w p q w.waiting h, f) in
      let left = close_target-queues c reason_user r (record w { waiting = erase r w.waiting }) in
      (
        ap (λ x. x.displayed) g ∙ left.0 ∙ k,
        ap (λ x. x.waiting) g
            ∙ left.1
            ∙ ap (λ x. erase x w.waiting) same
            ∙ ap (erase p) h
            ∙ erase_head p q,
      )

-- `w` with both queues emptied keeps everything.
abbrev Emptied : World → List ℕ → World → Type 0
Emptied v left w = (w.displayed ≡ []) × (w.waiting ≡ left) × Keeps v w

close_all_step :
    (fuel : ℕ) (c : Settings) (queue : World → List ℕ) (w : World) (p : ℕ) (q : List ℕ)
    → queue w ≡ p ∷ q
    → close_all (suc fuel) c queue w
      ≡ close_all fuel c queue (queues_notification_close c p reason_user w)
unfolding close_all
close_all_step fuel c queue w p q h = rw (h, close_all) refl

close_all-displayed :
    (c : Settings) (q : List ℕ) (w : World)
    → HasUniqueIds w
    → w.displayed ≡ q
    → Emptied w w.waiting (close_all (length q) c (λ v. v.displayed) w)
unfolding close_all
close_all-displayed c [] w u h = (h, refl, Keeps-refl w)
close_all-displayed c (p ∷ q) w u h =
    let v = queues_notification_close c p reason_user w in
    let k = queues_notification_close-Keeps c p reason_user w u in
    let (d, t) =
      displayed_head c p q w v h
        (unfold queues_notification_close in close_id-Closing c (w.heap p).id reason_user w u) in
    let (a, b, l) = close_all-displayed c q v (Keeps-HasUniqueIds k u) d in
    subst (Emptied w w.waiting) (sym (close_all_step (length q) c (λ x. x.displayed) w p q h))
      (a, b ∙ t, Keeps-trans k l)

close_all-waiting :
    (c : Settings) (q : List ℕ) (w : World)
    → HasUniqueIds w
    → w.displayed ≡ []
    → w.waiting ≡ q
    → Emptied w [] (close_all (length q) c (λ v. v.waiting) w)
unfolding close_all
close_all-waiting c [] w u k h = (k, h, Keeps-refl w)
close_all-waiting c (p ∷ q) w u k h =
    let v = queues_notification_close c p reason_user w in
    let kept = queues_notification_close-Keeps c p reason_user w u in
    let (d, t) =
      waiting_head c p q w v k h
        (unfold queues_notification_close in close_id-Closing c (w.heap p).id reason_user w u) in
    let (a, b, l) = close_all-waiting c q v (Keeps-HasUniqueIds kept u) d t in
    subst (Emptied w []) (sym (close_all_step (length q) c (λ x. x.waiting) w p q h))
      (a, b, Keeps-trans kept l)

-- With unique ids, closing all leaves both queues empty, so that its two loops end, and keeps every
-- pointer in the history or among those given up.
pub queues_history_push_all-empties :
    (c : Settings) (w : World)
    → HasUniqueIds w
    → let v = queues_history_push_all c w in (v.displayed ≡ []) × (v.waiting ≡ []) × Keeps w v
unfolding queues_history_push_all
queues_history_push_all-empties c w u =
    let v = close_all (length w.displayed) c (λ x. x.displayed) w in
    let (d, t, k) = close_all-displayed c w.displayed w u refl in
    let (a, b, l) = close_all-waiting c v.waiting v (Keeps-HasUniqueIds k u) d refl in
    (a, b, Keeps-trans k l)
