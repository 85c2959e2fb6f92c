-- ===== src/Queues.antt =====
-- src/queues.c: what its functions share. The three queues are fields of `World`; the functions
-- stand in the children.
pub mod Close
pub mod History
pub mod Insert
pub mod Update
pub mod Keep
pub mod Limit
pub mod Bound
pub mod Ends
pub mod Wakeup
use dunst.Base.{
  ℕ, suc, ℤ, pos, Bool, true, false, not, ◌&&◌, Option, none, some, List, [], ◌∷◌, ◌==◌, lt_ℤ, eq_ℤ,
  ◌-ℤ◌, if◌then◌else◌,
}
use dunst.Settings.{Settings, is_pushback, is_show}
use dunst.Notification.{Notification}
use dunst.Notification.Order.{notification_cmp}
use dunst.World.{World, Env, restart}

-- struct dunst_status (src/dunst.h)
pub record DunstStatus : Type 0 where
  pub fullscreen : Bool
  pub pause_level : ℤ
  pub idle : Bool
  pub mouse_over : Bool

-- enum reason (src/dbus.h)
abbrev pub reason_time : ℕ
reason_time = 1

abbrev pub reason_user : ℕ
reason_user = 2

abbrev pub reason_sig : ℕ
reason_sig = 3

abbrev pub reason_undef : ℕ
reason_undef = 4

-- notification_cmp_data, on pointers.
abbrev pub cmp_data : Settings → World → ℕ → ℕ → ℤ
cmp_data c w a b = notification_cmp c (w.heap a) (w.heap b)

abbrev pub insert_waiting : Env → Settings → ℕ → World → World
insert_waiting e c p w = record w { waiting = e.insert_sorted (cmp_data c w) p w.waiting }

abbrev pub insert_displayed : Env → Settings → ℕ → World → World
insert_displayed e c p w = record w { displayed = e.insert_sorted (cmp_data c w) p w.displayed }

-- notification_unref of a pointer that a queue held.
abbrev pub unref : ℕ → World → World
unref p w = record w { unreferenced = p ∷ w.unreferenced }

-- The first pointer from the head at which a test holds.
unfoldable pub find : (ℕ → Bool) → List ℕ → Option ℕ
find test [] = none
find test (p ∷ rest) = let later = find test rest in if test p then some p else later

-- The loop that sets `iter->data = new` at the first pointer at which a test holds: that pointer
-- and the queue after it.
unfoldable pub replace_where : (ℕ → Bool) → ℕ → List ℕ → Option (ℕ × List ℕ)
replace_where test new [] = none
replace_where test new (old ∷ rest) =
    let later = replace_where test new rest in
    if test old
    then some (old, new ∷ rest)
    else elim later [ none ↦ none | some (found, q) ↦ some (found, old ∷ q) ]

abbrev pub has_id : World → ℤ → ℕ → Bool
has_id w i p = eq_ℤ (w.heap p).id i

unfoldable pub queues_notification_is_ready : Notification → DunstStatus → Bool → Bool
queues_notification_is_ready n status shown =
    if lt_ℤ n.override_pause_level status.pause_level
    then false
    else if status.fullscreen && shown
    then not (is_pushback n.fullscreen)
    else if status.fullscreen && not shown
    then is_show n.fullscreen
    else true

-- The start time is set anew where the user is away or the pointer is over the window.
unfoldable pub queues_notification_is_finished : Env → DunstStatus → ℤ → ℕ → World → Bool × World
queues_notification_is_finished e status time p w =
    let n = w.heap p in
    let is_idle = if status.fullscreen then false else status.idle in
    if not (eq_ℤ n.skip_display (pos 0)) && not n.redisplayed
    then (true, w)
    else if eq_ℤ n.timeout (pos 0)
    then (false, w)
    else if is_idle && not n.transient
    then (false, restart e p w)
    else if status.mouse_over && not n.transient
    then (false, restart e p w)
    else if lt_ℤ n.timeout (time -ℤ n.start)
    then (true, w)
    else (false, w)
