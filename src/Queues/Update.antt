-- ===== src/Queues/Update.antt =====
-- queues_update of src/queues.c, phase by phase, and the time of the next change.
-- A loop over a queue goes over the pointers that the queue held at its start: the body takes off
-- no other pointer than the one it looks at, and puts none into the queue that it walks.
use dunst.Base.{
  ℕ, zero, suc, nth, ◌*◌, ◌+◌, ◌-◌, ℤ, pos, Bool, true, false, not, ◌&&◌, Option, none, some, List,
  [], ◌∷◌, length, erase, drop_last, eq_ℤ, le_ℤ, ltb, ◌==◌, if◌then◌else◌,
}
use dunst.Settings.{Settings, is_suppress, is_sorting}
use dunst.World.{World, Env, length_changed, modify, log_effects, notification_run_script}
use dunst.Queues.{
  DunstStatus, reason_time, reason_user, reason_undef, cmp_data, insert_waiting, insert_displayed,
  queues_notification_is_ready, queues_notification_is_finished,
}
use dunst.Queues.Close.{queues_notification_close, queues_notification_remove}
use dunst.Queues.History.{peek_tail}

unfoldable pub push_back : Env → Settings → ℕ → World → World
push_back e c p w = insert_waiting e c p (record w { displayed = erase p w.displayed })

-- The tests of the first loop behind queues_notification_is_finished.
unfoldable pub retire_unfinished : Env → Settings → DunstStatus → ℕ → World → World
unfolding push_back
retire_unfinished e c status p w =
    if status.fullscreen && is_suppress (w.heap p).fullscreen
    then queues_notification_close c p reason_undef w
    else if not (queues_notification_is_ready (w.heap p) status true)
    then push_back e c p w
    else w

unfoldable pub retire_finished : Env → Settings → DunstStatus → ℕ → Bool × World → World
unfolding retire_unfinished
retire_finished e c status p (true, w) = queues_notification_close c p reason_time w
retire_finished e c status p (false, w) = retire_unfinished e c status p w

-- The body of the first loop.
unfoldable pub retire_one : Env → Settings → DunstStatus → ℤ → ℕ → World → World
unfolding retire_finished
retire_one e c status time p w =
    if (w.heap p).locked
    then w
    else if not ((w.heap p).marked_for_closure == 0)
    then modify p (λ n. record n { marked_for_closure = 0 })
        (queues_notification_close c p (w.heap p).marked_for_closure w)
    else if not ((w.heap p).marked_for_removal == 0)
    then modify p (λ n. record n { marked_for_removal = 0 })
        (queues_notification_remove c p (w.heap p).marked_for_removal w)
    else retire_finished e c status p (queues_notification_is_finished e status time p w)

unfoldable pub retire : Env → Settings → DunstStatus → ℤ → List ℕ → World → World
retire e c status time [] w = w
retire e c status time (p ∷ ps) w = retire e c status time ps (retire_one e c status time p w)

-- cur_displayed_limit; a limit of 0 is INT_MAX, which is `none` here: no limit.
unfoldable pub cur_displayed_limit : Settings → World → Option ℕ
cur_displayed_limit c w =
    if c.notification_limit == 0
    then none
    else if c.indicate_hidden
        && ltb 1 c.notification_limit
        && ltb c.notification_limit (length w.displayed + length w.waiting)
    then some (c.notification_limit - 1)
    else some c.notification_limit

abbrev pub below : ℕ → Option ℕ → Bool
below n none = true
below n (some limit) = ltb n limit

abbrev pub above : ℕ → Option ℕ → Bool
above n none = false
above n (some limit) = ltb limit n

abbrev pub full : ℕ → Option ℕ → Bool
full n none = false
full n (some limit) = n == limit

-- n->start = time; notification_run_script(n);
unfoldable pub begin : Settings → ℤ → ℕ → World → World
begin c time p w = notification_run_script c p (modify p (λ n. record n { start = time }) w)

-- The body of the second loop.
unfoldable pub admit_one : Env → Settings → DunstStatus → ℤ → ℕ → World → World
unfolding begin
admit_one e c status time p w =
    if status.fullscreen && is_suppress (w.heap p).fullscreen
    then queues_notification_close c p reason_undef (begin c time p w)
    else if not (queues_notification_is_ready (w.heap p) status false)
    then w
    else if not (eq_ℤ (w.heap p).skip_display (pos 0)) && not (w.heap p).redisplayed
    then queues_notification_close c p reason_user (begin c time p w)
    else (let v = begin c time p w in
        insert_displayed e c p (record v { waiting = erase p v.waiting }))

unfoldable pub admit : Env → Settings → DunstStatus → ℤ → Option ℕ → List ℕ → World → World
unfolding admit_one
admit e c status time limit [] w = w
admit e c status time limit (p ∷ ps) w =
    let rest = admit e c status time limit ps (admit_one e c status time p w) in
    if below (length w.displayed) limit then rest else w

-- The third loop; each round takes one notification off, so the length is fuel enough.
unfoldable pub trim : ℕ → Env → Settings → Option ℕ → World → World
unfolding peek_tail
trim zero e c limit w = w
trim (suc fuel) e c limit w = elim (above (length w.displayed) limit) [
  | false ↦ w
  | true ↦ elim (peek_tail w.displayed) [
    | none ↦ w
    | some p ↦
        trim fuel e c limit (insert_waiting e c p (record w { displayed = drop_last w.displayed }))
  ]
]

-- The walk of `i_waiting` over `prev`, from the link at an index, to a notification that is ready.
-- The link before the one at 0 is NULL.
unfoldable pub walk_prev : DunstStatus → World → ℕ → Option ℕ
unfolding nth
walk_prev status w zero = elim (nth w.waiting 0) [
  | none ↦ none
  | some p ↦ if queues_notification_is_ready (w.heap p) status false then some p else none
]
walk_prev status w (suc k) =
    let earlier = walk_prev status w k in
    elim (nth w.waiting (suc k)) [
      | none ↦ none
      | some p ↦ if queues_notification_is_ready (w.heap p) status false then some p else earlier
    ]

-- The waiting notification that the last loop compares; it begins at the head link.
unfoldable pub candidate : DunstStatus → World → Option ℕ
unfolding walk_prev
candidate status w = walk_prev status w 0

-- queues_swap_notifications with the displayed and the waiting queue.
unfoldable pub queues_swap_notifications : Env → Settings → ℕ → ℕ → World → World
queues_swap_notifications e c shown hidden w = insert_waiting e c shown (
    insert_displayed e c hidden
      (record w { displayed = erase shown w.displayed; waiting = erase hidden w.waiting }))

-- The pair that the last loop swaps: the tail of the displayed queue and a candidate that comes
-- before it.
unfoldable pub overtaking : Settings → DunstStatus → World → Option (ℕ × ℕ)
unfolding candidate peek_tail
overtaking c status w = elim (peek_tail w.displayed) [
  | none ↦ none
  | some shown ↦ elim (candidate status w) [
    | none ↦ none
    | some hidden ↦ if le_ℤ (cmp_data c w shown hidden) (pos 0) then none else some (shown, hidden)
  ]
]

unfoldable pub seep_one : Env → Settings → DunstStatus → ℤ → ℕ → ℕ → World → World
unfolding queues_swap_notifications begin
seep_one e c status time shown hidden w =
    let v = begin c time hidden w in
    if status.fullscreen && is_suppress (v.heap hidden).fullscreen
    then queues_notification_close c hidden reason_undef v
    else queues_swap_notifications e c shown hidden v

unfoldable pub seep : ℕ → Env → Settings → DunstStatus → ℤ → World → World
unfolding overtaking seep_one
seep zero e c status time w = w
seep (suc fuel) e c status time w = elim (overtaking c status w) [
  | none ↦ w
  | some (shown, hidden) ↦ seep fuel e c status time (seep_one e c status time shown hidden w)
]

-- The rounds of the last loop: one more than there are pairs of a displayed and a waiting
-- notification.
unfoldable pub seep_rounds : World → ℕ
seep_rounds w = suc (length w.displayed * length w.waiting)

-- From the limit to the end.
unfoldable pub fill : Env → Settings → DunstStatus → ℤ → World → World
unfolding cur_displayed_limit admit trim seep seep_rounds
fill e c status time w =
    let limit = cur_displayed_limit c w in
    let admitted = admit e c status time limit w.waiting w in
    let trimmed = trim (length admitted.displayed) e c limit admitted in
    let seeped = seep (seep_rounds trimmed) e c status time trimmed in
    log_effects (length_changed ∷ [])
      (if is_sorting c.sort && full (length trimmed.displayed) limit then seeped else trimmed)

unfoldable pub queues_update : Env → Settings → DunstStatus → ℤ → World → World
unfolding retire fill
queues_update e c status time w = fill e c status time (retire e c status time w.displayed w)
