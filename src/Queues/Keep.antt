-- ===== src/Queues/Keep.antt =====
-- What the theorems on the changes of the queues speak of: how often a pointer is held, and how
-- often an id is shown or waiting.
pub mod Quiet
pub mod Close
pub mod Update
pub mod Insert
pub mod History
pub mod Popped
use mathlib.Core.Path.{fun_ext}
use mathlib.Core.List.{Perm}
use dunst.Base.{
  if◌then◌else◌, false, ℕ, ◌+◌, ◌≤◌, ℤ, Bool, true, List, ◌∷◌, ◌≡◌, refl, ◌∙◌, ap, tally, weight,
  eq_ℤ, arith,
}
use dunst.World.{World, Env}
use dunst.Queues.{has_id}

-- What the documentation of GLib says of its two sorting functions: g_queue_insert_sorted adds the
-- one element to the queue, and g_queue_sort reorders it.
pub record QueueLaws (e : Env) : Type 0 where
  pub insert_sorted-perm :
      (cmp : ℕ → ℕ → ℤ) (x : ℕ) (q : List ℕ) → Perm (e.insert_sorted cmp x q) (x ∷ q)
  pub sort-perm : (cmp : ℕ → ℕ → ℤ) (q : List ℕ) → Perm (e.sort cmp q) q

-- How many of the pointers that the queues hold, or that were given up, pass a test.
abbrev pub held : (ℕ → Bool) → World → ℕ
held t w = tally t w.displayed + tally t w.waiting + tally t w.history + tally t w.unreferenced

-- How often an id is shown or waiting.
abbrev pub active : ℤ → World → ℕ
active i w = tally (has_id w i) w.displayed + tally (has_id w i) w.waiting

abbrev pub SameIds : World → World → Type 0
SameIds v w = (p : ℕ) → (w.heap p).id ≡ (v.heap p).id

pub record Keeps (v w : World) : Type 0 where
  pub ids : SameIds v w
  pub holds : (t : ℕ → Bool) → held t w ≡ held t v
  pub no_more : (i : ℤ) → active i w ≤ active i v

-- No id is shown or waiting twice.
abbrev pub HasUniqueIds : World → Type 0
HasUniqueIds w = (i : ℤ) → active i w ≤ 1

pub Keeps-refl : (w : World) → Keeps w w
Keeps-refl w = record { ids = λ p. refl; holds = λ t. refl; no_more = λ i. omega arith }

pub Keeps-trans : {u v w : World} → Keeps u v → Keeps v w → Keeps u w
Keeps-trans a b = record {
  ids = λ p. b.ids p ∙ a.ids p;
  holds = λ t. b.holds t ∙ a.holds t;
  no_more = λ i. omega (arith, a.no_more i, b.no_more i);
}

pub Keeps-if : {u v w : World} (b : Bool) → Keeps u v → Keeps u w → Keeps u (if b then v else w)
Keeps-if true h k = h
Keeps-if false h k = k

pub Keeps-HasUniqueIds : {v w : World} → Keeps v w → HasUniqueIds v → HasUniqueIds w
Keeps-HasUniqueIds k u i = omega (arith, k.no_more i, u i)

pub has_id_same : (v w : World) (i : ℤ) → SameIds v w → has_id w i ≡ has_id v i
has_id_same v w i s = fun_ext (λ p. ap (λ j. eq_ℤ j i) (s p))

-- An update that leaves the queues and the ids alone.
pub record IsQuiet (v w : World) : Type 0 where
  pub ids : SameIds v w
  pub displayed : w.displayed ≡ v.displayed
  pub waiting : w.waiting ≡ v.waiting
  pub history : w.history ≡ v.history
  pub unreferenced : w.unreferenced ≡ v.unreferenced

pub IsQuiet-trans : {u v w : World} → IsQuiet u v → IsQuiet v w → IsQuiet u w
IsQuiet-trans a b = record {
  ids = λ p. b.ids p ∙ a.ids p;
  displayed = b.displayed ∙ a.displayed;
  waiting = b.waiting ∙ a.waiting;
  history = b.history ∙ a.history;
  unreferenced = b.unreferenced ∙ a.unreferenced;
}

pub IsQuiet-Keeps : {v w : World} → IsQuiet v w → Keeps v w
IsQuiet-Keeps {v} {w} q = record {
  ids = q.ids;
  holds = λ t. rw (q.displayed, q.waiting, q.history, q.unreferenced);
  no_more = λ i. rw (has_id_same v w i q.ids, q.displayed, q.waiting) (omega arith);
}
