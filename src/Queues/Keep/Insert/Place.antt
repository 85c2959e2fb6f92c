-- ===== src/Queues/Keep/Insert/Place.antt =====
-- queues_notification_insert, branch by branch.
use dunst.Base.{
  ℕ, ◌+◌, ◌≤◌, ℤ, pos, minus_one, Bool, true, false, not, ◌&&◌, if◌then◌else◌, Option, none, some,
  Option-cases, Bool-cases, mem, weight, tally_avoid, ◌≢◌, tally-perm, ◌≡◌, refl, ap, ◌∙◌, inl, inr,
  eq_ℤ, eq_ℤ→eq, ==_iff, str_empty, is_some, arith, ◌+ℤ◌,
}
use dunst.Settings.{Settings, is_update, is_suppress}
use dunst.World.{World, Env, notification_run_script, notification_icon_replace_path}
use dunst.Queues.{DunstStatus, has_id, cmp_data, insert_waiting, reason_undef}
use dunst.Queues.Insert.{
  Search, duplicate_in, duplicate_waiting, queues_stack_duplicate, place_duplicate, place_unstacked,
  place_new, assign_id, settle, queues_notification_insert, queues_notification_replace_id,
  queues_stack_by_tag,
}
use dunst.Queues.Keep.{
  QueueLaws, held, active, Keeps, Keeps-refl, Keeps-trans, Keeps-if, HasUniqueIds,
  Keeps-HasUniqueIds, IsQuiet, IsQuiet-trans, IsQuiet-Keeps,
}
use dunst.Queues.Keep.Quiet.{
  IsQuiet-if, notification_run_script-IsQuiet, notification_icon_replace_path-IsQuiet,
}
use dunst.Queues.Keep.Close.{queues_notification_close-Keeps}
use dunst.Queues.Keep.Insert.{Adds, Replaces, insert_waiting-Adds}
use dunst.Queues.Keep.Insert.Replace.{
  AddsIfFound, AddsOrAbsent, AddsIfTrue, FoundIn, duplicate_in-Searched, after_displayed,
  after_waiting, replace_id-Adds, stack_by_tag-Adds,
}

-- A quiet update before an addition.
IsQuiet-Adds : (p : ℕ) {u v w : World} → IsQuiet u v → Adds p v w → Adds p u w
IsQuiet-Adds p q a = record {
  ids = λ x. a.ids x ∙ q.ids x;
  holds = λ t. omega (arith, a.holds t, (IsQuiet-Keeps q).holds t);
  unique = a.unique;
}

Adds-Keeps : (p : ℕ) {u v w : World} → Adds p u v → Keeps v w → Adds p u w
Adds-Keeps p a k = record {
  ids = λ x. k.ids x ∙ a.ids x;
  holds = λ t. omega (arith, a.holds t, k.holds t);
  unique = Keeps-HasUniqueIds k a.unique;
}

-- A quiet update changes neither the id of a pointer nor how often that id is active.
pub quiet-active :
    (p : ℕ) {v w : World} → IsQuiet v w → active (v.heap p).id v ≡ 0 → active (w.heap p).id w ≡ 0
quiet-active p {v} {w} q h =
    omega (arith, ap (λ i. active i w) (q.ids p), (IsQuiet-Keeps q).no_more (v.heap p).id)

le_of_eq : {a b : ℕ} → a ≡ b → b ≤ 1 → a ≤ 1
le_of_eq e h = omega arith

Adds-if :
    (p : ℕ) {u v w : World} (b : Bool)
    → (b ≡ true → Adds p u v)
    → (b ≡ false → Adds p u w)
    → Adds p u (if b then v else w)
Adds-if p true h k = h refl
Adds-if p false h k = k refl

found_or-Adds :
    (p : ℕ) (w d : World) (o : Option World)
    → AddsIfFound p w o
    → Adds p w d
    → Adds p w (elim o [ some v ↦ v | none ↦ d ])
found_or-Adds p w d none h k = k
found_or-Adds p w d (some v) h k = h

absent_or-Adds :
    (p : ℕ) (w d : World) (o : Option World)
    → AddsOrAbsent p w o
    → (active (w.heap p).id w ≡ 0 → Adds p w d)
    → Adds p w (elim o [ some v ↦ v | none ↦ d ])
absent_or-Adds p w d none h k = k h
absent_or-Adds p w d (some v) h k = h

module _ (e : Env) (laws : QueueLaws e) (c : Settings) (p : ℕ) where
  duplicate_waiting-Adds :
      (w : World) (s : Search)
      → HasUniqueIds w
      → active (w.heap p).id w ≡ 0
      → IsQuiet w s.world
      → AddsIfTrue p w (duplicate_waiting e c p s).0 (duplicate_waiting e c p s).1
  unfolding duplicate_waiting
  duplicate_waiting-Adds w s u fresh q =
      let r = duplicate_in e p s.world.waiting s in
      let searched = duplicate_in-Searched e p s.world.waiting s in
      let quiet = IsQuiet-trans q searched.quiet in
      elim (Option-cases r.0) [
        | inl f ↦ rw (f, duplicate_waiting) quiet
        | inr (pair, f) ↦
            let found : FoundIn p s.world.waiting (some pair) = rw f at searched.found in
            let replaces : Replaces p pair.0 w.waiting pair.1 = rw q.waiting at found in
            rw (f, duplicate_waiting)
              (after_waiting e c p w u fresh r.1.world pair.0 pair.1 quiet replaces)
      ]

  stack_duplicate-Adds :
      (w : World)
      → HasUniqueIds w
      → active (w.heap p).id w ≡ 0
      → AddsIfTrue p w (queues_stack_duplicate e c p w).0 (queues_stack_duplicate e c p w).1
  unfolding queues_stack_duplicate
  stack_duplicate-Adds w u fresh =
      let s : Search = record { modtime = minus_one; world = w } in
      let r = duplicate_in e p w.displayed s in
      let searched = duplicate_in-Searched e p w.displayed s in
      elim (Option-cases r.0) [
        | inl f ↦
            rw (f, queues_stack_duplicate) (duplicate_waiting-Adds w r.1 u fresh searched.quiet)
        | inr (pair, f) ↦
            let replaces : FoundIn p w.displayed (some pair) = rw f at searched.found in
            rw (f, queues_stack_duplicate)
              (after_displayed e c p w u fresh r.1.world pair.0 pair.1 searched.quiet replaces)
      ]

  sort_displayed-Keeps :
      (w : World) → Keeps w (record w { displayed = e.sort (cmp_data c w) w.displayed })
  sort_displayed-Keeps w = record {
    ids = λ q. refl;
    holds = λ t. omega (arith, tally-perm t (laws.sort-perm (cmp_data c w) w.displayed));
    no_more =
        λ i. omega (arith, tally-perm (has_id w i) (laws.sort-perm (cmp_data c w) w.displayed));
  }

  place_duplicate-Adds :
      (w v : World) (found : Bool)
      → HasUniqueIds w
      → active (w.heap p).id w ≡ 0
      → AddsIfTrue p w found v
      → Adds p w (place_duplicate e c p (found, v))
  unfolding place_duplicate
  place_duplicate-Adds w v true u fresh a =
      Adds-Keeps p a (Keeps-if (is_update c.sort) (sort_displayed-Keeps v) (Keeps-refl v))
  place_duplicate-Adds w v false u fresh q = IsQuiet-Adds p q (
      insert_waiting-Adds e laws c p v (Keeps-HasUniqueIds (IsQuiet-Keeps q) u)
        (quiet-active p q fresh))

  place_unstacked-Adds :
      (w : World) → HasUniqueIds w → active (w.heap p).id w ≡ 0 → Adds p w (place_unstacked e c p w)
  unfolding place_unstacked
  place_unstacked-Adds w u fresh =
      Adds-if p c.stack_duplicates
        (λ _.
          place_duplicate-Adds w (queues_stack_duplicate e c p w).1
            (queues_stack_duplicate e c p w).0 u fresh (stack_duplicate-Adds w u fresh))
        (λ _. insert_waiting-Adds e laws c p w u fresh)

  place_new-Adds :
      (w : World) → HasUniqueIds w → active (w.heap p).id w ≡ 0 → Adds p w (place_new e c p w)
  unfolding place_new
  place_new-Adds w u fresh =
      let unstacked = place_unstacked-Adds w u fresh in
      Adds-if p (not (str_empty (w.heap p).stack_tag))
        (λ _.
          found_or-Adds p w (place_unstacked e c p w) (queues_stack_by_tag e c p w)
            (stack_by_tag-Adds e c p w u fresh) unstacked)
        (λ _. unstacked)

  settle-Adds : (status : DunstStatus) (v w : World) → Adds p v w → Adds p v (settle e c status p w)
  unfolding settle
  settle-Adds status v w a =
      let loaded = not (is_some (w.heap p).icon) in
      let icon = notification_icon_replace_path e (w.heap p).iconname p w in
      let w' = if loaded then icon else w in
      let ready = Adds-Keeps p a (
        IsQuiet-Keeps
          (IsQuiet-if loaded (notification_icon_replace_path-IsQuiet e (w.heap p).iconname p w))) in
      let told = IsQuiet-Keeps (notification_run_script-IsQuiet c p w') in
      Adds-if p (status.fullscreen && is_suppress (w'.heap p).fullscreen)
        (λ _. Adds-Keeps p ready (
          Keeps-trans told (
            queues_notification_close-Keeps c p reason_undef (notification_run_script c p w')
              (Keeps-HasUniqueIds told ready.unique))))
        (λ _. ready)

  -- Giving an id to a pointer that is in no queue changes nothing for the ids that are.
  assign_id-active :
      (w : World) (i : ℤ)
      → mem p w.displayed ≡ false
      → mem p w.waiting ≡ false
      → active i (assign_id p w) ≡ active i w
  unfolding assign_id
  assign_id-active w i m n = omega (
    arith,
    tally_avoid (has_id (assign_id p w) i) (has_id w i) p w.displayed m same,
    tally_avoid (has_id (assign_id p w) i) (has_id w i) p w.waiting n same,
  )
    where
      same : (q : ℕ) → q ≢ p → has_id (assign_id p w) i q ≡ has_id w i q
      same q ne = ground (arith, ==_iff q p)

  assign_id-id : (w : World) → ((assign_id p w).heap p).id ≡ w.next_notification_id +ℤ pos 1
  unfolding assign_id
  assign_id-id w = ground (arith, ==_iff p p)

  -- `w` is `v` with the pointer `p` added, whose id may have been given on the way.
  abbrev pub Entered : World → World → Type 0
  Entered v w = ((t : ℕ → Bool) → held t w ≡ held t v + weight t p) × HasUniqueIds w

  placed_new-Adds :
      (status : DunstStatus) (w : World)
      → HasUniqueIds w
      → mem p w.displayed ≡ false
      → mem p w.waiting ≡ false
      → active (w.next_notification_id +ℤ pos 1) w ≡ 0
      → Adds p (assign_id p w) (settle e c status p (place_new e c p (assign_id p w)))
  placed_new-Adds status w u m n fresh =
      let v = assign_id p w in
      let given =
        ap (λ i. active i v) (assign_id-id w)
        ∙ assign_id-active w (w.next_notification_id +ℤ pos 1) m n
        ∙ fresh in
      let placed = place_new-Adds v (λ i. le_of_eq (assign_id-active w i m n) (u i)) given in
      settle-Adds status v (place_new e c p v) placed

  placed_new :
      (status : DunstStatus) (w : World)
      → HasUniqueIds w
      → mem p w.displayed ≡ false
      → mem p w.waiting ≡ false
      → active (w.next_notification_id +ℤ pos 1) w ≡ 0
      → Entered w (settle e c status p (place_new e c p (assign_id p w)))
  placed_new status w u m n fresh =
      let a = placed_new-Adds status w u m n fresh in (λ t. unfold assign_id in a.holds t, a.unique)

  placed_again-Adds :
      (status : DunstStatus) (w : World)
      → HasUniqueIds w
      → Adds p w (
          settle e c status p (elim (queues_notification_replace_id e c p w) [
            | some w' ↦ w'
            | none ↦ insert_waiting e c p w
          ]))
  placed_again-Adds status w u =
      let placed =
        absent_or-Adds p w (insert_waiting e c p w) (queues_notification_replace_id e c p w)
          (replace_id-Adds e c p w u) (insert_waiting-Adds e laws c p w u) in
      settle-Adds status w _ placed

  placed_again :
      (status : DunstStatus) (w : World)
      → HasUniqueIds w
      → Entered w (
          settle e c status p (elim (queues_notification_replace_id e c p w) [
            | some w' ↦ w'
            | none ↦ insert_waiting e c p w
          ]))
  placed_again status w u = let a = placed_again-Adds status w u in (a.holds, a.unique)

  -- A notification with a text that is in no queue is put in one place: the three queues and the
  -- pointers given up hold it once more than before, and every other pointer as often as before.
  -- The ids that are shown or waiting stay unique. The counter's next number must be free if the
  -- notification comes without an id.
  pub queues_notification_insert-Entered :
      (status : DunstStatus) (w : World)
      → HasUniqueIds w
      → mem p w.displayed ≡ false
      → mem p w.waiting ≡ false
      → str_empty (w.heap p).msg ≡ false
      → ((w.heap p).id ≡ pos 0 → active (w.next_notification_id +ℤ pos 1) w ≡ 0)
      → Entered w (queues_notification_insert e c status p w).1
  unfolding queues_notification_insert
  queues_notification_insert-Entered status w u m n text free =
      elim (Bool-cases (not (eq_ℤ (w.heap p).id (pos 0)))) [
        | inl given ↦ rw (text, given) (placed_again status w u)
        | inr none_given ↦
            rw (text, none_given)
              (placed_new status w u m n (free (eq_ℤ→eq (w.heap p).id (pos 0) (ground arith))))
      ]

  -- The id of a notification with a text: its own, or the next number.
  pub queues_notification_insert-id :
      (status : DunstStatus) (w : World)
      → HasUniqueIds w
      → mem p w.displayed ≡ false
      → mem p w.waiting ≡ false
      → str_empty (w.heap p).msg ≡ false
      → active (w.next_notification_id +ℤ pos 1) w ≡ 0
      → (queues_notification_insert e c status p w).0 ≡ (
          if not (eq_ℤ (w.heap p).id (pos 0))
          then (w.heap p).id
          else w.next_notification_id +ℤ pos 1)
  unfolding queues_notification_insert
  queues_notification_insert-id status w u m n text free =
      elim (Bool-cases (not (eq_ℤ (w.heap p).id (pos 0)))) [
        | inl given ↦ rw (text, given) ((placed_again-Adds status w u).ids p)
        | inr none_given ↦
            rw (text, none_given) ((placed_new-Adds status w u m n free).ids p ∙ assign_id-id w)
      ]
