-- ===== src/Queues/Insert.antt =====
-- queues_notification_insert of src/queues.c, and the three ways in which a notification takes the
-- place of one that is shown or waiting.
use dunst.Base.{
  ℕ, suc, ℤ, pos, minus_one, Bool, true, false, not, ◌&&◌, Option, none, some, is_some, List, [],
  ◌∷◌, or_else, str_empty, cstring_eq, eq_ℤ, lt_ℤ, le_ℤ, ◌+ℤ◌, if◌then◌else◌,
}
use dunst.Settings.{Settings, is_update, is_suppress}
use dunst.Notification.{Notification}
use dunst.Notification.Order.{notification_is_duplicate}
use dunst.Utils.{is_like_path}
use dunst.World.{
  World, Env, modify, restart, notification_run_script, signal_notification_closed,
  notification_transfer_icon, notification_icon_replace_path,
}
use dunst.Queues.{DunstStatus, reason_undef, cmp_data, insert_waiting, unref, replace_where, has_id}
use dunst.Queues.Close.{queues_notification_close}

-- What a replacement does when the replaced notification was on the screen.
unfoldable pub show_again : Env → Settings → ℕ → World → World
show_again e c new w = notification_run_script c new (restart e new w)

-- new->dup_count = old->dup_count;
unfoldable pub take_dup_count : ℕ → ℕ → World → World
take_dup_count new old w = modify new (λ n. record n { dup_count = (w.heap old).dup_count }) w

unfoldable pub queues_notification_replace_id : Env → Settings → ℕ → World → Option World
unfolding replace_where show_again take_dup_count
queues_notification_replace_id e c new w =
    let same = has_id w (w.heap new).id in
    elim (replace_where same new w.displayed) [
      | some (old, q) ↦
          some
            (unref old (show_again e c new (take_dup_count new old (record w { displayed = q }))))
      | none ↦ elim (replace_where same new w.waiting) [
        | some (old, q) ↦ some (unref old (take_dup_count new old (record w { waiting = q })))
        | none ↦ none
      ]
    ]

abbrev pub same_tag : World → ℕ → ℕ → Bool
same_tag w new old =
    not (str_empty (w.heap old).stack_tag)
    && cstring_eq (w.heap old).stack_tag (w.heap new).stack_tag
    && cstring_eq (w.heap old).appname (w.heap new).appname

-- The icon of the replaced notification is kept: the new one names none, or names the same icon,
-- and, where that is a file, the file is no newer than the icon.
unfoldable pub keeps_icon : Env → Notification → Notification → Bool
unfolding is_like_path
keeps_icon e old new =
    is_some old.icon
    && (if not (is_some new.iconname)
        then true
        else cstring_eq new.iconname old.iconname
          && (if is_like_path (or_else old.iconname [])
              then le_ℤ (e.modification_time old.iconname) old.icon_time
              else true))

-- What follows `iter->data = new`; the flag says that the queue is the displayed one.
unfoldable pub stack_onto : Env → Settings → Bool → ℕ → ℕ → World → World
unfolding keeps_icon show_again take_dup_count
stack_onto e c shown new old w =
    let counted = take_dup_count new old w in
    let replace = keeps_icon e (counted.heap old) (counted.heap new) in
    let told = signal_notification_closed old 1 counted in
    let run = if shown then show_again e c new told else told in
    unref old (if replace then notification_transfer_icon old new run else run)

unfoldable pub queues_stack_by_tag : Env → Settings → ℕ → World → Option World
unfolding replace_where stack_onto
queues_stack_by_tag e c new w = elim (replace_where (same_tag w new) new w.displayed) [
  | some (old, q) ↦ some (stack_onto e c true new old (record w { displayed = q }))
  | none ↦ elim (replace_where (same_tag w new) new w.waiting) [
    | some (old, q) ↦ some (stack_onto e c false new old (record w { waiting = q }))
    | none ↦ none
  ]
]

-- What the search for duplicates carries from one candidate to the next.
pub record Search : Type 0 where
  pub modtime : ℤ
  pub world : World

-- The check of the icon of a duplicate: `false` is the `continue`, on to the next candidate.
-- `iconname` is not NULL for a notification with an icon that notification_init has seen.
unfoldable pub check_icon : Env → ℕ → ℕ → Search → Bool × Search
unfolding is_like_path
check_icon e new old s =
    let w = s.world in
    let o = w.heap old in
    let modtime = if lt_ℤ s.modtime (pos 0) then e.modification_time o.iconname else s.modtime in
    let reloaded = notification_icon_replace_path e (w.heap new).iconname new w in
    if is_some o.icon && not (is_some (w.heap new).icon_id) && is_like_path (or_else o.iconname [])
    then (if lt_ℤ o.icon_time modtime
        then (
          cstring_eq (reloaded.heap new).icon_id (reloaded.heap old).icon_id,
          record { modtime = modtime; world = reloaded },
        )
        else (true, record { modtime = modtime; world = notification_transfer_icon old new w }))
    else (true, s)

-- The count of the duplicates goes up if the progress is the same.
unfoldable pub count_duplicate : ℕ → ℕ → World → World
count_duplicate new old w =
    if eq_ℤ (w.heap old).progress (w.heap new).progress
    then modify old (λ n. record n { dup_count = suc n.dup_count }) w
    else modify old (λ n. record n { progress = (w.heap new).progress }) w

-- One queue of queues_stack_duplicate: the candidate that is replaced and the queue with the new
-- pointer in its place, or the search to carry on.
unfoldable pub duplicate_in : Env → ℕ → List ℕ → Search → Option (ℕ × List ℕ) × Search
unfolding check_icon
duplicate_in e new [] s = (none, s)
duplicate_in e new (old ∷ rest) s =
    let (fits, s') = check_icon e new old s in
    let candidate = notification_is_duplicate (s.world.heap old) (s.world.heap new) in
    let (found, t) = duplicate_in e new rest (if candidate then s' else s) in
    if candidate && fits
    then (some (old, new ∷ rest), s')
    else (elim found [ none ↦ none | some (o, q) ↦ some (o, old ∷ q) ], t)

unfoldable pub replace_duplicate : Env → Settings → Bool → ℕ → ℕ → World → World
unfolding count_duplicate take_dup_count show_again
replace_duplicate e c shown new old w =
    let told =
      signal_notification_closed old 1 (take_dup_count new old (count_duplicate new old w)) in
    unref old (if shown then show_again e c new told else told)

unfoldable pub duplicate_waiting : Env → Settings → ℕ → Search → Bool × World
unfolding duplicate_in replace_duplicate
duplicate_waiting e c new s =
    let (found, t) = duplicate_in e new s.world.waiting s in
    elim found [
      | none ↦ (false, t.world)
      | some (old, q) ↦ (true, replace_duplicate e c false new old (record t.world { waiting = q }))
    ]

unfoldable pub queues_stack_duplicate : Env → Settings → ℕ → World → Bool × World
unfolding duplicate_waiting
queues_stack_duplicate e c new w =
    let (found, t) = duplicate_in e new w.displayed (record { modtime = minus_one; world = w }) in
    elim found [
      | none ↦ duplicate_waiting e c new t
      | some (old, q) ↦
          (true, replace_duplicate e c true new old (record t.world { displayed = q }))
    ]

-- The duplicate was found: under SORT_TYPE_UPDATE the displayed queue is sorted again.
unfoldable pub place_duplicate : Env → Settings → ℕ → Bool × World → World
place_duplicate e c p (true, w) =
    if is_update c.sort then record w { displayed = e.sort (cmp_data c w) w.displayed } else w
place_duplicate e c p (false, w) = insert_waiting e c p w

unfoldable pub place_unstacked : Env → Settings → ℕ → World → World
unfolding queues_stack_duplicate place_duplicate
place_unstacked e c p w =
    if c.stack_duplicates
    then place_duplicate e c p (queues_stack_duplicate e c p w)
    else insert_waiting e c p w

unfoldable pub place_new : Env → Settings → ℕ → World → World
unfolding queues_stack_by_tag place_unstacked
place_new e c p w =
    if not (str_empty (w.heap p).stack_tag)
    then elim (queues_stack_by_tag e c p w) [ some w' ↦ w' | none ↦ place_unstacked e c p w ]
    else place_unstacked e c p w

-- n->id = ++next_notification_id;
unfoldable pub assign_id : ℕ → World → World
assign_id p w =
    modify p (λ n. record n { id = w.next_notification_id +ℤ pos 1 })
      (record w { next_notification_id = w.next_notification_id +ℤ pos 1 })

-- From the test of the id to the last g_queue_insert_sorted.
unfoldable pub place : Env → Settings → ℕ → World → World
unfolding queues_notification_replace_id place_new assign_id
place e c p w =
    if not (eq_ℤ (w.heap p).id (pos 0))
    then elim (queues_notification_replace_id e c p w) [
      | some w' ↦ w'
      | none ↦ insert_waiting e c p w
    ]
    else place_new e c p (assign_id p w)

-- From the lazy loading of the icon to the end.
unfoldable pub settle : Env → Settings → DunstStatus → ℕ → World → World
unfolding queues_notification_close
settle e c status p w =
    let w' =
      if not (is_some (w.heap p).icon)
      then notification_icon_replace_path e (w.heap p).iconname p w
      else w in
    if status.fullscreen && is_suppress (w'.heap p).fullscreen
    then queues_notification_close c p reason_undef (notification_run_script c p w')
    else w'

unfoldable pub queues_notification_insert : Env → Settings → DunstStatus → ℕ → World → ℤ × World
unfolding place settle
queues_notification_insert e c status p w =
    if str_empty (w.heap p).msg
    then (pos 0, if c.always_run_script then notification_run_script c p w else w)
    else (let w' = settle e c status p (place e c p w) in ((w'.heap p).id, w'))
