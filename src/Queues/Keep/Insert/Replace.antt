-- ===== src/Queues/Keep/Insert/Replace.antt =====
-- The three replacements: by id, by stack tag, and of a duplicate.
use dunst.Base.{
  ℕ, Bool, true, false, ◌&&◌, if◌then◌else◌, Option, none, some, Option-cases, List, [], ◌∷◌, ◌≡◌,
  refl, inl, inr, eq_ℤ→eq, ==_iff, Bool-cases, arith,
}
use dunst.Settings.{Settings}
use dunst.Notification.Order.{notification_is_duplicate}
use dunst.World.{World, Env, signal_notification_closed, notification_transfer_icon}
use dunst.Queues.{replace_where, has_id}
use dunst.Queues.Insert.{
  show_again, take_dup_count, queues_notification_replace_id, same_tag, keeps_icon,
  queues_stack_by_tag, Search, check_icon, count_duplicate, duplicate_in, replace_duplicate,
}
use dunst.Queues.Keep.{active, HasUniqueIds, IsQuiet, IsQuiet-trans}
use dunst.Queues.Keep.Quiet.{
  IsQuiet-refl, IsQuiet-if, modify-IsQuiet, notification_run_script-IsQuiet,
  signal_notification_closed-IsQuiet, restart-IsQuiet, notification_transfer_icon-IsQuiet,
  notification_icon_replace_path-IsQuiet,
}
use dunst.Queues.Keep.Insert.{
  Adds, Replaces, Replaces-head, Replaces-cons, replace_where-Replaces, replace_where-none,
  replaced_displayed-Adds, replaced_waiting-Adds,
}

show_again-IsQuiet : (e : Env) (c : Settings) (p : ℕ) (w : World) → IsQuiet w (show_again e c p w)
unfolding show_again
show_again-IsQuiet e c p w =
    IsQuiet-trans (restart-IsQuiet e p w) (notification_run_script-IsQuiet c p _)

take_dup_count-IsQuiet : (new old : ℕ) (w : World) → IsQuiet w (take_dup_count new old w)
unfolding take_dup_count
take_dup_count-IsQuiet new old w =
    modify-IsQuiet new (λ n. record n { dup_count = (w.heap old).dup_count }) w (λ n. refl)

-- A search that replaced a notification has added the new one.
abbrev pub AddsIfFound : ℕ → World → Option World → Type 0
AddsIfFound p w none = Unit {0}
AddsIfFound p w (some v) = Adds p w v

-- A search by id has added the new notification, or no notification has its id.
abbrev pub AddsOrAbsent : ℕ → World → Option World → Type 0
AddsOrAbsent p w none = active (w.heap p).id w ≡ 0
AddsOrAbsent p w (some v) = Adds p w v

module _ (e : Env) (c : Settings) (new : ℕ) (w : World) (u : HasUniqueIds w) where
  pub replace_id-Adds : AddsOrAbsent new w (queues_notification_replace_id e c new w)
  unfolding queues_notification_replace_id
  replace_id-Adds =
      let same = has_id w (w.heap new).id in
      elim (Option-cases (replace_where same new w.displayed)) [
        | inr (pair, d) ↦
            let (ok, r) = replace_where-Replaces same new pair.0 w.displayed pair.1 d in
            let v = record w { displayed = pair.1 } in
            rw (d, queues_notification_replace_id)
              (replaced_displayed-Adds new pair.0 w
                (show_again e c new (take_dup_count new pair.0 v)) pair.1 u
                (inl (eq_ℤ→eq (w.heap pair.0).id (w.heap new).id ok)) r
                (IsQuiet-trans (take_dup_count-IsQuiet new pair.0 v)
                  (show_again-IsQuiet e c new _)))
        | inl d ↦ elim (Option-cases (replace_where same new w.waiting)) [
          | inl f ↦
              rw (d, f, queues_notification_replace_id)
                (omega (
                  arith,
                  replace_where-none same new w.displayed d,
                  replace_where-none same new w.waiting f,
                ))
          | inr (pair, f) ↦
              let (ok, r) = replace_where-Replaces same new pair.0 w.waiting pair.1 f in
              let v = record w { waiting = pair.1 } in
              rw (d, f, queues_notification_replace_id)
                (replaced_waiting-Adds new pair.0 w (take_dup_count new pair.0 v) pair.1 u
                  (inl (eq_ℤ→eq (w.heap pair.0).id (w.heap new).id ok)) r
                  (take_dup_count-IsQuiet new pair.0 v))
        ]
      ]

  abbrev stacked : Bool → ℕ → World → World
  stacked shown old x =
      let counted = take_dup_count new old x in
      let told = signal_notification_closed old 1 counted in
      let run = if shown then show_again e c new told else told in
      if keeps_icon e (counted.heap old) (counted.heap new)
      then notification_transfer_icon old new run
      else run

  stacked-IsQuiet : (shown : Bool) (old : ℕ) (x : World) → IsQuiet x (stacked shown old x)
  stacked-IsQuiet shown old x =
      let counted = take_dup_count new old x in
      let told = signal_notification_closed old 1 counted in
      let run = if shown then show_again e c new told else told in
      IsQuiet-trans (take_dup_count-IsQuiet new old x) (
        IsQuiet-trans (signal_notification_closed-IsQuiet old 1 counted) (
          IsQuiet-trans (IsQuiet-if shown (show_again-IsQuiet e c new told)) (
            IsQuiet-if (keeps_icon e (counted.heap old) (counted.heap new))
              (notification_transfer_icon-IsQuiet old new run))))

  pub stack_by_tag-Adds :
      active (w.heap new).id w ≡ 0 → AddsIfFound new w (queues_stack_by_tag e c new w)
  unfolding queues_stack_by_tag
  stack_by_tag-Adds fresh = elim (Option-cases (replace_where (same_tag w new) new w.displayed)) [
    | inr (pair, d) ↦
        let (ok, r) = replace_where-Replaces (same_tag w new) new pair.0 w.displayed pair.1 d in
        let v = record w { displayed = pair.1 } in
        rw (d, queues_stack_by_tag)
          (replaced_displayed-Adds new pair.0 w (stacked true pair.0 v) pair.1 u (inr fresh) r
            (stacked-IsQuiet true pair.0 v))
    | inl d ↦ elim (Option-cases (replace_where (same_tag w new) new w.waiting)) [
      | inl f ↦ rw (d, f, queues_stack_by_tag) tt
      | inr (pair, f) ↦
          let (ok, r) = replace_where-Replaces (same_tag w new) new pair.0 w.waiting pair.1 f in
          let v = record w { waiting = pair.1 } in
          rw (d, f, queues_stack_by_tag)
            (replaced_waiting-Adds new pair.0 w (stacked false pair.0 v) pair.1 u (inr fresh) r
              (stacked-IsQuiet false pair.0 v))
    ]
  ]

check_icon-IsQuiet :
    (e : Env) (new old : ℕ) (s : Search) → IsQuiet s.world (check_icon e new old s).1.world
unfolding check_icon
check_icon-IsQuiet e new old s =
    let w = s.world in
    let r = notification_icon_replace_path-IsQuiet e (w.heap new).iconname new w in
    let f = notification_transfer_icon-IsQuiet old new w in
    record {
      ids = λ q. ground (arith, r.ids q, f.ids q);
      displayed = ground (arith, r.displayed, f.displayed);
      waiting = ground (arith, r.waiting, f.waiting);
      history = ground (arith, r.history, f.history);
      unreferenced = ground (arith, r.unreferenced, f.unreferenced);
    }

abbrev pub search_if : Bool → Search → Search → Search
search_if b s t = if b then s else t

search_if-IsQuiet :
    (b : Bool) (s t : Search) → IsQuiet t.world s.world → IsQuiet t.world (search_if b s t).world
search_if-IsQuiet true s t q = q
search_if-IsQuiet false s t q = IsQuiet-refl t.world

-- What the search for duplicates found in a queue: a queue with the new pointer in place of one.
abbrev pub FoundIn : ℕ → List ℕ → Option (ℕ × List ℕ) → Type 0
FoundIn new q none = Unit {0}
FoundIn new q (some (old, q')) = Replaces new old q q'

FoundIn-cons :
    (new x : ℕ) (q : List ℕ) (r : Option (ℕ × List ℕ))
    → FoundIn new q r
    → FoundIn new (x ∷ q) (elim r [ none ↦ none | some (old, q') ↦ some (old, x ∷ q') ])
FoundIn-cons new x q none h = tt
FoundIn-cons new x q (some (old, q')) h = Replaces-cons new old x q q' h

pub record Searched (new : ℕ) (q : List ℕ) (s : Search) (r : Option (ℕ × List ℕ) × Search)
    : Type 0 where
  pub quiet : IsQuiet s.world r.1.world
  pub found : FoundIn new q r.0

pub duplicate_in-Searched :
    (e : Env) (new : ℕ) (q : List ℕ) (s : Search) → Searched new q s (duplicate_in e new q s)
unfolding duplicate_in
duplicate_in-Searched e new [] s = record { quiet = IsQuiet-refl s.world; found = tt }
duplicate_in-Searched e new (old ∷ rest) s =
    let checked = check_icon-IsQuiet e new old s in
    let (fits, t) = check_icon e new old s in
    let candidate = notification_is_duplicate (s.world.heap old) (s.world.heap new) in
    let next = search_if candidate t s in
    let ih = duplicate_in-Searched e new rest next in
    elim (Bool-cases (candidate && fits)) [
      | inl hit ↦ rw hit (record { quiet = checked; found = Replaces-head new old rest })
      | inr miss ↦ rw miss (record {
        quiet = IsQuiet-trans (search_if-IsQuiet candidate t s checked) ih.quiet;
        found = FoundIn-cons new old rest (duplicate_in e new rest next).0 ih.found;
      })
    ]

count_duplicate-IsQuiet : (new old : ℕ) (w : World) → IsQuiet w (count_duplicate new old w)
unfolding count_duplicate
count_duplicate-IsQuiet new old w = record {
  ids = λ q. ground (arith, ==_iff q old);
  displayed = ground arith;
  waiting = ground arith;
  history = ground arith;
  unreferenced = ground arith;
}

-- Up to the unref of the old notification.
abbrev counted : Env → Settings → Bool → ℕ → ℕ → World → World
counted e c shown new old w =
    let told =
      signal_notification_closed old 1 (take_dup_count new old (count_duplicate new old w)) in
    if shown then show_again e c new told else told

counted-IsQuiet :
    (e : Env) (c : Settings) (shown : Bool) (new old : ℕ) (w : World)
    → IsQuiet w (counted e c shown new old w)
counted-IsQuiet e c shown new old w =
    let told =
      signal_notification_closed old 1 (take_dup_count new old (count_duplicate new old w)) in
    IsQuiet-trans (count_duplicate-IsQuiet new old w) (
      IsQuiet-trans (take_dup_count-IsQuiet new old _) (
        IsQuiet-trans (signal_notification_closed-IsQuiet old 1 _)
          (IsQuiet-if shown (show_again-IsQuiet e c new told))))

-- The result of the search for duplicates, where `w` is the state before it.
abbrev pub AddsIfTrue : ℕ → World → Bool → World → Type 0
AddsIfTrue p w true v = Adds p w v
AddsIfTrue p w false v = IsQuiet w v

module _ (e : Env) (c : Settings) (new : ℕ) (w : World) (u : HasUniqueIds w) where
  pub after_displayed :
      active (w.heap new).id w ≡ 0
      → (v : World) (old : ℕ) (q : List ℕ) → IsQuiet w v
      → Replaces new old w.displayed q
      → Adds new w (replace_duplicate e c true new old (record v { displayed = q }))
  unfolding replace_duplicate
  after_displayed fresh v old q quiet r =
      replaced_displayed-Adds new old w (counted e c true new old (record v { displayed = q })) q u
        (inr fresh) r
        (IsQuiet-trans
          (record {
            ids = quiet.ids;
            displayed = refl;
            waiting = quiet.waiting;
            history = quiet.history;
            unreferenced = quiet.unreferenced;
          })
          (counted-IsQuiet e c true new old (record v { displayed = q })))

  pub after_waiting :
      active (w.heap new).id w ≡ 0
      → (v : World) (old : ℕ) (q : List ℕ) → IsQuiet w v
      → Replaces new old w.waiting q
      → Adds new w (replace_duplicate e c false new old (record v { waiting = q }))
  unfolding replace_duplicate
  after_waiting fresh v old q quiet r =
      replaced_waiting-Adds new old w (counted e c false new old (record v { waiting = q })) q u
        (inr fresh) r
        (IsQuiet-trans
          (record {
            ids = quiet.ids;
            displayed = quiet.displayed;
            waiting = refl;
            history = quiet.history;
            unreferenced = quiet.unreferenced;
          })
          (counted-IsQuiet e c false new old (record v { waiting = q })))
