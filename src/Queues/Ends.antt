-- ===== src/Queues/Ends.antt =====
-- The rounds of the last loop of queues_update, src/queues.c.
use dunst.Base.{ℕ, Bool, pairs, ◌≡◌}
use dunst.Settings.{Settings}
use dunst.Notification.{Notification}
use dunst.Notification.Compare.{comes_after}
use dunst.World.{World}

-- What the order looks at.
abbrev SameKeys : Notification → Notification → Type 0
SameKeys m n = (m.urgency ≡ n.urgency) × (m.timestamp ≡ n.timestamp) × (m.id ≡ n.id)

after : Settings → World → ℕ → ℕ → Bool
after c w a b = comes_after c (w.heap a) (w.heap b)

-- The pairs of a displayed notification and a waiting one that comes before it.
misplaced : Settings → World → ℕ
unfolding after
misplaced c w = pairs (after c w) w.displayed w.waiting
