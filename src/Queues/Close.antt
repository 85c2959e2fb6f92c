-- ===== src/Queues/Close.antt =====
-- Closing a notification: the close functions of src/queues.c and the history that they feed.
use dunst.Base.{
  ℕ, ℤ, pos, Bool, true, false, not, ◌&&◌, Option, none, some, [], ◌∷◌, ◌++◌, length, erase,
  pos_part, lt_ℤ, leb, eq_ℤ, if◌then◌else◌,
}
use dunst.Settings.{Settings}
use dunst.World.{World, signal_notification_closed}
use dunst.Queues.{find, has_id, unref}

-- g_queue_pop_head with the unref of what it gives.
unfoldable pub drop_oldest : World → World
drop_oldest w = elim w.history [
  | [] ↦ w
  | to_free ∷ rest ↦ record w { history = rest; unreferenced = to_free ∷ w.unreferenced }
]

-- `maxlen` is the setting as an unsigned number.
unfoldable pub queues_history_push : Settings → ℕ → World → World
unfolding drop_oldest
queues_history_push c p w =
    if eq_ℤ (w.heap p).history_ignore (pos 0)
    then (let kept =
          if lt_ℤ (pos 0) c.history_length && leb (pos_part c.history_length) (length w.history)
          then drop_oldest w
          else w in
        record kept { history = kept.history ++ p ∷ [] })
    else unref p w

-- The end of queues_notification_close_id, on the target that the loops found.
unfoldable pub close_target : Settings → ℕ → Option ℕ → World → World
unfolding queues_history_push
close_target c reason none w = w
close_target c reason (some p) w =
    queues_history_push c p
      (if not (w.heap p).redisplayed then signal_notification_closed p reason w else w)

-- Both queues are searched, also when the first has the id: `break` leaves the inner loop alone.
unfoldable pub take_displayed : ℤ → World → Option ℕ × World
take_displayed i w = elim (find (has_id w i) w.displayed) [
  | none ↦ (none, w)
  | some p ↦ (some p, record w { displayed = erase p w.displayed })
]

unfoldable pub take_waiting : ℤ → Option ℕ × World → Option ℕ × World
take_waiting i (target, w) = elim (find (has_id w i) w.waiting) [
  | none ↦ (target, w)
  | some p ↦ (some p, record w { waiting = erase p w.waiting })
]

unfoldable pub queues_notification_close_id : Settings → ℤ → ℕ → World → World
unfolding take_displayed take_waiting close_target
queues_notification_close_id c i reason w =
    let (target, w') = take_waiting i (take_displayed i w) in close_target c reason target w'

unfoldable pub queues_notification_close : Settings → ℕ → ℕ → World → World
unfolding queues_notification_close_id
queues_notification_close c p reason w = queues_notification_close_id c (w.heap p).id reason w

unfoldable pub queues_history_remove_by_id : ℤ → World → Bool × World
unfolding find
queues_history_remove_by_id i w = elim (find (has_id w i) w.history) [
  | none ↦ (false, w)
  | some p ↦ (true, record w { history = erase p w.history; unreferenced = p ∷ w.unreferenced })
]

unfoldable pub queues_notification_remove : Settings → ℕ → ℕ → World → World
unfolding queues_notification_close queues_history_remove_by_id
queues_notification_remove c p reason w =
    let i = (w.heap p).id in
    (queues_history_remove_by_id i (queues_notification_close_id c i reason w)).1
