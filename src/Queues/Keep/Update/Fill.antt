-- ===== src/Queues/Keep/Update/Fill.antt =====
-- The later loops of queues_update, and queues_update as a whole.
use dunst.Base.{
  nth, some_eq, ==_iff, ℕ, zero, suc, ◌+◌, ◌≤◌, ℤ, Bool, true, false, not, ◌&&◌, Option, some, List,
  [], ◌∷◌, mem, erase, drop_last, tally, tally-erase, tally-perm, mem-tally, weight, weight_self,
  ◌≡◌, refl, ap, ◌∙◌, eq_ℤ, ◌==◌, length, arith, pos, Option-cases, inl, inr, Bool-cases,
}
use dunst.Settings.{Settings, is_suppress, is_sorting}
use dunst.World.{World, Env, length_changed}
use dunst.Queues.{
  DunstStatus, has_id, cmp_data, queues_notification_is_ready, reason_undef, reason_user,
  insert_waiting,
}
use dunst.Queues.Close.{queues_notification_close}
use dunst.Queues.History.{peek_tail}
use dunst.Queues.Update.{
  begin, admit_one, admit, below, above, full, trim, queues_swap_notifications, overtaking,
  candidate, seep_rounds, seep_one, seep, fill, cur_displayed_limit, queues_update,
}
use dunst.Queues.Keep.{
  QueueLaws, Keeps, Keeps-refl, Keeps-trans, Keeps-if, HasUniqueIds, Keeps-HasUniqueIds, IsQuiet,
  IsQuiet-Keeps, IsQuiet-trans,
}
use dunst.Queues.Keep.Quiet.{log_effects-IsQuiet, modify-IsQuiet, notification_run_script-IsQuiet}
use dunst.Queues.Keep.Close.{queues_notification_close-Keeps}
use dunst.Queues.Keep.Update.{
  waiting, close-waiting, Round, Round_refl, Round_if, IsQuiet-Round_waiting,
}
use dunst.Queues.Keep.Update.Retire.{retire-Keeps}

pub begin-IsQuiet : (c : Settings) (time : ℤ) (p : ℕ) (w : World) → IsQuiet w (begin c time p w)
unfolding begin
begin-IsQuiet c time p w =
    IsQuiet-trans (modify-IsQuiet p (λ n. record n { start = time }) w (λ n. refl))
      (notification_run_script-IsQuiet c p _)

close-Round :
    (c : Settings) (p reason : ℕ) (w : World)
    → HasUniqueIds w
    → mem p w.waiting ≡ true
    → Round waiting p w (queues_notification_close c p reason w)
close-Round c p reason w u m = record {
  keeps = queues_notification_close-Keeps c p reason w u;
  loses = close-waiting c p reason w u m;
}

begin-close-Round :
    (c : Settings) (time : ℤ) (p reason : ℕ) (w : World)
    → HasUniqueIds w
    → mem p w.waiting ≡ true
    → Round waiting p w (queues_notification_close c p reason (begin c time p w))
begin-close-Round c time p reason w u m =
    let q = begin-IsQuiet c time p w in
    IsQuiet-Round_waiting p q
      (close-Round c p reason _ (Keeps-HasUniqueIds (IsQuiet-Keeps q) u) (ap (mem p) q.waiting ∙ m))

pub peek_tail-tally :
    (t : ℕ → Bool) (q : List ℕ) (p : ℕ)
    → peek_tail q ≡ some p
    → tally t (drop_last q) + weight t p ≡ tally t q
unfolding peek_tail
peek_tail-tally t [] p e = cc
peek_tail-tally t (x ∷ []) p e = ground arith
peek_tail-tally t (x ∷ y ∷ q) p e = omega (arith, peek_tail-tally t (y ∷ q) p e)

peek_tail-mem : (q : List ℕ) (p : ℕ) → peek_tail q ≡ some p → mem p q ≡ true
peek_tail-mem q p e =
    mem-tally p q (omega (arith, peek_tail-tally (λ x. x == p) q p e, weight_self p))

module _ (e : Env) (laws : QueueLaws e) (c : Settings) where
  show-Round :
      (p : ℕ) (v : World)
      → mem p v.waiting ≡ true
      → Round waiting p v (record v {
        waiting = erase p v.waiting;
        displayed = e.insert_sorted (cmp_data c v) p v.displayed;
      })
  show-Round p v m = record {
    keeps = record {
      ids = λ q. refl;
      holds = λ t. omega (
        arith,
        tally-erase t p v.waiting m,
        tally-perm t (laws.insert_sorted-perm (cmp_data c v) p v.displayed),
      );
      no_more = λ i. omega (
        arith,
        tally-erase (has_id v i) p v.waiting m,
        tally-perm (has_id v i) (laws.insert_sorted-perm (cmp_data c v) p v.displayed),
      );
    };
    loses = λ t. omega (arith, tally-erase t p v.waiting m);
  }

  admit_one-Round :
      (status : DunstStatus) (time : ℤ) (p : ℕ) (w : World)
      → HasUniqueIds w
      → mem p w.waiting ≡ true
      → Round waiting p w (admit_one e c status time p w)
  unfolding admit_one
  admit_one-Round status time p w u m =
      let q = begin-IsQuiet c time p w in
      Round_if waiting p (status.fullscreen && is_suppress (w.heap p).fullscreen)
        (begin-close-Round c time p reason_undef w u m)
        (Round_if waiting p (not (queues_notification_is_ready (w.heap p) status false))
          (Round_refl waiting p w)
          (Round_if waiting p
            (not (eq_ℤ (w.heap p).skip_display (pos 0)) && not (w.heap p).redisplayed)
            (begin-close-Round c time p reason_user w u m)
            (IsQuiet-Round_waiting p q (show-Round p _ (ap (mem p) q.waiting ∙ m)))))

  admit-Keeps :
      (status : DunstStatus) (time : ℤ) (limit : Option ℕ) (ps : List ℕ) (w : World)
      → HasUniqueIds w
      → ((t : ℕ → Bool) → tally t ps ≤ tally t w.waiting)
      → Keeps w (admit e c status time limit ps w)
  unfolding admit
  admit-Keeps status time limit [] w u sub = Keeps-refl w
  admit-Keeps status time limit (p ∷ ps) w u sub =
      elim (Bool-cases (below (length w.displayed) limit)) [
        | inl more ↦
            let here = mem-tally p w.waiting (omega (arith, sub (λ q. q == p), weight_self p)) in
            let round = admit_one-Round status time p w u here in
            rw more (
              Keeps-trans round.keeps (
                admit-Keeps status time limit ps _ (Keeps-HasUniqueIds round.keeps u)
                  (λ t. omega (arith, sub t, round.loses t))))
        | inr done ↦ rw done (Keeps-refl w)
      ]

  trim_one-Keeps :
      (p : ℕ) (w : World)
      → peek_tail w.displayed ≡ some p
      → Keeps w (insert_waiting e c p (record w { displayed = drop_last w.displayed }))
  trim_one-Keeps p w h = record {
    ids = λ q. refl;
    holds = λ t. omega (
      arith,
      peek_tail-tally t w.displayed p h,
      tally-perm t (laws.insert_sorted-perm (cmp_data c w) p w.waiting),
    );
    no_more = λ i. omega (
      arith,
      peek_tail-tally (has_id w i) w.displayed p h,
      tally-perm (has_id w i) (laws.insert_sorted-perm (cmp_data c w) p w.waiting),
    );
  }

  trim-Keeps : (fuel : ℕ) (limit : Option ℕ) (w : World) → Keeps w (trim fuel e c limit w)
  unfolding trim
  trim-Keeps zero limit w = Keeps-refl w
  trim-Keeps (suc fuel) limit w = elim (Bool-cases (above (length w.displayed) limit)) [
    | inr within ↦ rw (within, trim) (Keeps-refl w)
    | inl over ↦ elim (Option-cases (peek_tail w.displayed)) [
      | inl h ↦ rw (over, h, trim) (Keeps-refl w)
      | inr (p, h) ↦
          rw (over, h, trim) (Keeps-trans (trim_one-Keeps p w h) (trim-Keeps fuel limit _))
    ]
  ]

  swap-Keeps :
      (shown hidden : ℕ) (w : World)
      → mem shown w.displayed ≡ true
      → mem hidden w.waiting ≡ true
      → Keeps w (queues_swap_notifications e c shown hidden w)
  unfolding queues_swap_notifications
  swap-Keeps shown hidden w m n = record {
    ids = λ q. refl;
    holds = λ t. omega (
      arith,
      tally-erase t shown w.displayed m,
      tally-erase t hidden w.waiting n,
      tally-perm t (laws.insert_sorted-perm (cmp_data c w) hidden (erase shown w.displayed)),
      tally-perm t (laws.insert_sorted-perm (cmp_data c w) shown (erase hidden w.waiting)),
    );
    no_more = λ i.
        let t = has_id w i in
        omega (
          arith,
          tally-erase t shown w.displayed m,
          tally-erase t hidden w.waiting n,
          tally-perm t (laws.insert_sorted-perm (cmp_data c w) hidden (erase shown w.displayed)),
          tally-perm t (laws.insert_sorted-perm (cmp_data c w) shown (erase hidden w.waiting)),
        );
  }

  seep_one-Keeps :
      (status : DunstStatus) (time : ℤ) (shown hidden : ℕ) (w : World)
      → HasUniqueIds w
      → mem shown w.displayed ≡ true
      → mem hidden w.waiting ≡ true
      → Keeps w (seep_one e c status time shown hidden w)
  unfolding seep_one
  seep_one-Keeps status time shown hidden w u m n =
      let q = begin-IsQuiet c time hidden w in
      let v = begin c time hidden w in
      Keeps-trans (IsQuiet-Keeps q) (
        Keeps-if (status.fullscreen && is_suppress (v.heap hidden).fullscreen)
          (queues_notification_close-Keeps c hidden reason_undef v
            (Keeps-HasUniqueIds (IsQuiet-Keeps q) u))
          (swap-Keeps shown hidden v (ap (mem shown) q.displayed ∙ m)
            (ap (mem hidden) q.waiting ∙ n)))

  nth-mem : (q : List ℕ) (k p : ℕ) → nth q k ≡ some p → mem p q ≡ true
  unfolding nth
  nth-mem [] k p h = cc
  nth-mem (x ∷ q) zero p h = rw ((==_iff x p).1 (some_eq h)) refl
  nth-mem (x ∷ q) (suc k) p h = elim (Bool-cases (x == p)) [
    | inl same ↦ rw same refl
    | inr differ ↦ rw differ (nth-mem q k p h)
  ]

  candidate-mem :
      (status : DunstStatus) (w : World) (hidden : ℕ)
      → candidate status w ≡ some hidden
      → mem hidden w.waiting ≡ true
  unfolding candidate
  candidate-mem status w hidden h = elim (Option-cases (nth w.waiting 0)) [
    | inl empty ↦ absurd (ground arith)
    | inr (p, at) ↦ let q : p ≡ hidden = ground arith in nth-mem w.waiting 0 hidden (at ∙ ap some q)
  ]

  -- What overtakes is the tail of the displayed queue and the head of the waiting one.
  pub overtaking-mem :
      (status : DunstStatus) (w : World) (shown hidden : ℕ)
      → overtaking c status w ≡ some (shown, hidden)
      → (mem shown w.displayed ≡ true) × (mem hidden w.waiting ≡ true)
  unfolding overtaking
  overtaking-mem status w shown hidden h =
      let tail = peek_tail-mem w.displayed shown in
      let head = candidate-mem status w hidden in (ground (arith, tail), ground (arith, head))

  seep-Keeps :
      (fuel : ℕ) (status : DunstStatus) (time : ℤ) (w : World)
      → HasUniqueIds w
      → Keeps w (seep fuel e c status time w)
  unfolding seep
  seep-Keeps zero status time w u = Keeps-refl w
  seep-Keeps (suc fuel) status time w u = elim (Option-cases (overtaking c status w)) [
    | inl h ↦ rw (h, seep) (Keeps-refl w)
    | inr (pair, h) ↦
        let (m, n) = overtaking-mem status w pair.0 pair.1 h in
        let k = seep_one-Keeps status time pair.0 pair.1 w u m n in
        rw (h, seep) (Keeps-trans k (seep-Keeps fuel status time _ (Keeps-HasUniqueIds k u)))
  ]

  fill-Keeps :
      (status : DunstStatus) (time : ℤ) (w : World)
      → HasUniqueIds w
      → Keeps w (fill e c status time w)
  unfolding fill
  fill-Keeps status time w u =
      let limit = cur_displayed_limit c w in
      let admitted = admit e c status time limit w.waiting w in
      let a = admit-Keeps status time limit w.waiting w u (λ t. omega arith) in
      let trimmed = trim (length admitted.displayed) e c limit admitted in
      let k = Keeps-trans a (trim-Keeps (length admitted.displayed) limit admitted) in
      let s = seep-Keeps (seep_rounds trimmed) status time trimmed (Keeps-HasUniqueIds k u) in
      Keeps-trans
        (Keeps-if (is_sorting c.sort && full (length trimmed.displayed) limit) (Keeps-trans k s) k)
        (IsQuiet-Keeps (log_effects-IsQuiet (length_changed ∷ []) _))

  -- With unique ids, updating the queues loses and doubles no notification: each pointer is as
  -- often as before in the three queues or among those given up; no id changes, and the ids that
  -- are shown or waiting stay unique.
  pub queues_update-Keeps :
      (status : DunstStatus) (time : ℤ) (w : World)
      → HasUniqueIds w
      → Keeps w (queues_update e c status time w) × HasUniqueIds (queues_update e c status time w)
  unfolding queues_update
  queues_update-Keeps status time w u =
      let r = retire-Keeps e laws c status time w.displayed w u (λ t. omega arith) in
      let k = Keeps-trans r (fill-Keeps status time _ (Keeps-HasUniqueIds r u)) in
      (k, Keeps-HasUniqueIds k u)
