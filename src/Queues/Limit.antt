-- ===== src/Queues/Limit.antt =====
-- The length of the displayed queue after queues_update.
use dunst.Base.{
  if◌then◌else◌, ltb, ℕ, zero, suc, ◌+◌, ◌-◌, ◌≤◌, ℤ, true, false, ◌&&◌, Bool-cases, Option, none,
  some, Option-cases, List, [], ◌∷◌, mem, erase, drop_last, length, length-perm, ◌≡◌, refl, ap, ◌∙◌,
  inl, inr, ◌≢◌, arith,
}
use dunst.Settings.{Settings, is_sorting}
use dunst.World.{World, Env, signal_notification_closed}
use dunst.Queues.{DunstStatus, has_id, cmp_data, reason_undef, find}
use dunst.Queues.Close.{queues_notification_close, take_displayed, take_waiting, close_target}
use dunst.Queues.History.{peek_tail}
use dunst.Queues.Update.{
  begin, above, full, trim, queues_swap_notifications, overtaking, seep_one, seep, seep_rounds,
  fill, cur_displayed_limit, retire, admit, queues_update,
}
use dunst.Queues.Keep.{QueueLaws}
use dunst.Queues.Keep.Update.Fill.{begin-IsQuiet, overtaking-mem}

length-erase : (a : ℕ) (xs : List ℕ) → mem a xs ≡ true → suc (length (erase a xs)) ≡ length xs
length-erase a [] h = cc
length-erase a (x ∷ xs) h = ground (arith, length-erase a xs)

length-erase-le : (a : ℕ) (xs : List ℕ) → length (erase a xs) ≤ length xs
length-erase-le a [] = omega arith
length-erase-le a (x ∷ xs) = ground (arith, length-erase-le a xs)

length-drop_last :
    (q : List ℕ) (p : ℕ) → peek_tail q ≡ some p → suc (length (drop_last q)) ≡ length q
unfolding peek_tail
length-drop_last [] p h = cc
length-drop_last (x ∷ []) p h = refl
length-drop_last (x ∷ y ∷ q) p h = ap suc (length-drop_last (y ∷ q) p h)

peek_tail-none : (q : List ℕ) → peek_tail q ≡ none → q ≡ []
unfolding peek_tail
peek_tail-none [] h = refl
peek_tail-none (x ∷ []) h = cc
peek_tail-none (x ∷ y ∷ q) h = absurd (cc (peek_tail-none (y ∷ q) h))

close_target-displayed :
    (c : Settings) (reason : ℕ) (o : Option ℕ) (w : World)
    → (close_target c reason o w).displayed ≡ w.displayed
unfolding close_target signal_notification_closed
close_target-displayed c reason none w = refl
close_target-displayed c reason (some p) w = ground arith

take_displayed-length :
    (i : ℤ) (w : World) → length (take_displayed i w).1.displayed ≤ length w.displayed
unfolding take_displayed
take_displayed-length i w = elim (Option-cases (find (has_id w i) w.displayed)) [
  | inl h ↦ rw (h, take_displayed) (omega arith)
  | inr (p, h) ↦ rw (h, take_displayed) (length-erase-le p w.displayed)
]

take_waiting-displayed :
    (i : ℤ) (o : Option ℕ) (w : World) → (take_waiting i (o, w)).1.displayed ≡ w.displayed
unfolding take_waiting
take_waiting-displayed i o w = ground arith

close-length :
    (c : Settings) (p reason : ℕ) (w : World)
    → length (queues_notification_close c p reason w).displayed ≤ length w.displayed
unfolding queues_notification_close
close-length c p reason w =
    let i = (w.heap p).id in
    let d = take_displayed i w in
    let r = take_waiting i d in
    omega (
      arith,
      ap length (close_target-displayed c reason r.0 r.1),
      ap length (take_waiting-displayed i d.0 d.1),
      take_displayed-length i w,
    )

above_empty : (limit : Option ℕ) → above 0 limit ≡ false
above_empty none = refl
above_empty (some k) = ground arith

-- The third loop brings the displayed queue down to the limit.
trim-limit :
    (fuel : ℕ) (e : Env) (c : Settings) (limit : Option ℕ) (w : World)
    → length w.displayed ≤ fuel
    → above (length (trim fuel e c limit w).displayed) limit ≡ false
unfolding trim
trim-limit zero e c none w h = refl
trim-limit zero e c (some k) w h = ground arith
trim-limit (suc fuel) e c limit w h = elim (Bool-cases (above (length w.displayed) limit)) [
  | inr within ↦ rw (within, trim) within
  | inl over ↦ elim (Option-cases (peek_tail w.displayed)) [
    | inl empty ↦
        let e = ap (λ q. above (length q) limit) (peek_tail-none w.displayed empty) in
        absurd (cc (e, above_empty limit))
    | inr (p, tail) ↦
        rw (over, tail, trim)
          (trim-limit fuel e c limit _ (omega (arith, length-drop_last w.displayed p tail)))
  ]
]

within-le : (m n : ℕ) (limit : Option ℕ) → m ≤ n → above n limit ≡ false → above m limit ≡ false
within-le m n none h k = refl
within-le m n (some l) h k = ground arith

module _ (e : Env) (laws : QueueLaws e) (c : Settings) where
  swap-length :
      (shown hidden : ℕ) (w : World)
      → mem shown w.displayed ≡ true
      → length (queues_swap_notifications e c shown hidden w).displayed ≡ length w.displayed
  unfolding queues_swap_notifications
  swap-length shown hidden w m =
      length-perm (laws.insert_sorted-perm (cmp_data c w) hidden (erase shown w.displayed))
      ∙ length-erase shown w.displayed m

  seep_one-length :
      (status : DunstStatus) (time : ℤ) (shown hidden : ℕ) (w : World)
      → mem shown w.displayed ≡ true
      → length (seep_one e c status time shown hidden w).displayed ≤ length w.displayed
  unfolding seep_one
  seep_one-length status time shown hidden w m =
      let q = begin-IsQuiet c time hidden w in
      let v = begin c time hidden w in
      ground (
        arith,
        ap length q.displayed,
        close-length c hidden reason_undef v,
        swap-length shown hidden v (ap (mem shown) q.displayed ∙ m),
      )

  seep-length :
      (fuel : ℕ) (status : DunstStatus) (time : ℤ) (w : World)
      → length (seep fuel e c status time w).displayed ≤ length w.displayed
  unfolding seep
  seep-length zero status time w = omega arith
  seep-length (suc fuel) status time w = elim (Option-cases (overtaking c status w)) [
    | inl h ↦ rw (h, seep) (omega arith)
    | inr (pair, h) ↦
        let (m, n) = overtaking-mem e laws c status w pair.0 pair.1 h in
        rw (h, seep)
          (omega (
            arith,
            seep_one-length status time pair.0 pair.1 w m,
            seep-length fuel status time (seep_one e c status time pair.0 pair.1 w),
          ))
  ]

  fill-limit :
      (status : DunstStatus) (time : ℤ) (w : World)
      → above (length (fill e c status time w).displayed) (cur_displayed_limit c w) ≡ false
  unfolding fill
  fill-limit status time w =
      let limit = cur_displayed_limit c w in
      let admitted = admit e c status time limit w.waiting w in
      let trimmed = trim (length admitted.displayed) e c limit admitted in
      let done = trim-limit (length admitted.displayed) e c limit admitted (omega arith) in
      let fuel = seep_rounds trimmed in
      let seeped = within-le _ _ limit (seep-length fuel status time trimmed) done in
      elim (Bool-cases (is_sorting c.sort && full (length trimmed.displayed) limit)) [
        | inl h ↦ rw h seeped
        | inr h ↦ rw h done
      ]

  -- After an update the displayed queue is no longer than the limit, and one shorter if a line
  -- tells of hidden notifications: where the setting asks for it, the limit is more than one, and
  -- more notifications than that are left when the first loop is done. A limit of 0 is none.
  pub queues_update-limit :
      (status : DunstStatus) (time : ℤ) (w : World)
      → c.notification_limit ≢ 0
      → let left = retire e c status time w.displayed w in
        length (queues_update e c status time w).displayed ≤ (
          if c.indicate_hidden
            && ltb 1 c.notification_limit
            && ltb c.notification_limit (length left.displayed + length left.waiting)
          then c.notification_limit - 1
          else c.notification_limit)
  unfolding queues_update cur_displayed_limit
  queues_update-limit status time w some_limit =
      ground (arith, fill-limit status time (retire e c status time w.displayed w))
