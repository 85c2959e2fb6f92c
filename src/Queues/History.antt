-- ===== src/Queues/History.antt =====
-- The history functions of src/queues.c.
use dunst.Base.{
  ℕ, zero, suc, ℤ, pos, true, Option, none, some, List, [], ◌∷◌, ◌++◌, length, drop_last, erase,
  if◌then◌else◌,
}
use dunst.Settings.{Settings}
use dunst.World.{World, Env, modify}
use dunst.Queues.{find, has_id, insert_waiting, reason_user}
use dunst.Queues.Close.{queues_notification_close}

-- Clears the history and says how many notifications it held.
unfoldable pub queues_history_clear : World → ℕ × World
queues_history_clear w =
    (length w.history, record w { history = []; unreferenced = w.history ++ w.unreferenced })

-- The common end of the two pops: the notification comes back as one shown again.
unfoldable pub redisplay : Env → Settings → ℕ → World → World
redisplay e c p w = insert_waiting e c p (
    modify p
      (λ n. record n {
        redisplayed = true;
        timeout = if c.sticky_history then pos 0 else n.timeout;
      })
      w)

-- The last element of a queue.
unfoldable pub peek_tail : List ℕ → Option ℕ
peek_tail [] = none
peek_tail (p ∷ []) = some p
peek_tail (p ∷ q ∷ rest) = peek_tail (q ∷ rest)

unfoldable pub queues_history_pop : Env → Settings → World → World
unfolding redisplay peek_tail
queues_history_pop e c w = elim (peek_tail w.history) [
  | none ↦ w
  | some p ↦ redisplay e c p (record w { history = drop_last w.history })
]

unfoldable pub queues_history_pop_by_id : Env → Settings → ℤ → World → World
unfolding redisplay find
queues_history_pop_by_id e c i w = elim (find (has_id w i) w.history) [
  | none ↦ w
  | some p ↦ redisplay e c p (record w { history = erase p w.history })
]

-- `while (queue->length > 0)`, closing the head of the queue that `queue` reads. Each round takes
-- one notification off, so the length of the queue is fuel enough.
unfoldable pub close_all : ℕ → Settings → (World → List ℕ) → World → World
close_all zero c queue w = w
close_all (suc fuel) c queue w = elim (queue w) [
  | [] ↦ w
  | p ∷ rest ↦ close_all fuel c queue (queues_notification_close c p reason_user w)
]

unfoldable pub queues_history_push_all : Settings → World → World
unfolding close_all
queues_history_push_all c w =
    let w' = close_all (length w.displayed) c (λ v. v.displayed) w in
    close_all (length w'.waiting) c (λ v. v.waiting) w'

unfoldable pub queues_get_by_id : ℤ → World → Option ℕ
unfolding find
queues_get_by_id i w = find (has_id w i) (w.displayed ++ w.waiting ++ w.history)
