-- ===== src/Queues/Keep/Insert.antt =====
-- Insertion, seen as the addition of a pointer: the bookkeeping of a replacement. The ways to be
-- placed are in the children.
pub mod Replace
pub mod Place
use dunst.Base.{
  ℕ, ◌+◌, ◌≤◌, ℤ, Bool, true, false, if◌then◌else◌, Option, none, some, List, [], ◌∷◌, mem, tally,
  weight, ◌≡◌, refl, sym, ap, ◌∙◌, Option-cases, ◌⊎◌, inl, inr, ==_iff, eq_ℤ, eq_ℤ→eq, tally-perm,
  Bool-cases, arith,
}
use dunst.Settings.{Settings}
use dunst.World.{World, Env}
use dunst.Queues.{replace_where, has_id, cmp_data, insert_waiting, unref}
use dunst.Queues.Keep.{
  QueueLaws, held, active, SameIds, Keeps, HasUniqueIds, Keeps-HasUniqueIds, IsQuiet, IsQuiet-Keeps,
  has_id_same,
}

-- `w` is `v` with the pointer `p` added, and no id twice.
pub record Adds (p : ℕ) (v w : World) : Type 0 where
  pub ids : SameIds v w
  pub holds : (t : ℕ → Bool) → held t w ≡ held t v + weight t p
  pub unique : HasUniqueIds w

-- The pointer `old` made way for `new`.
abbrev pub Replaces : ℕ → ℕ → List ℕ → List ℕ → Type 0
Replaces new old q q' = (t : ℕ → Bool) → tally t q' + weight t old ≡ tally t q + weight t new

some_pair :
    {a b : ℕ} {q r : List ℕ}
    → ◌≡◌ {A = Option (ℕ × List ℕ)} (some (a, q)) (some (b, r))
    → (a ≡ b) × (q ≡ r)
some_pair h = (ground arith, ground arith)

-- A candidate that is kept, in front of the rest of the queue.
pub Replaces-cons :
    (new old x : ℕ) (q q' : List ℕ) → Replaces new old q q' → Replaces new old (x ∷ q) (x ∷ q')
Replaces-cons new old x q q' h t = omega (arith, h t)

pub Replaces-head : (new old : ℕ) (q : List ℕ) → Replaces new old (old ∷ q) (new ∷ q)
Replaces-head new old q t = omega arith

pub replace_where-Replaces :
    (test : ℕ → Bool) (new old : ℕ) (q q' : List ℕ)
    → replace_where test new q ≡ some (old, q')
    → (test old ≡ true) × Replaces new old q q'
unfolding replace_where
replace_where-Replaces test new old [] q' h = cc
replace_where-Replaces test new old (x ∷ xs) q' h = elim (Bool-cases (test x)) [
  | inl hit ↦
      let (e, f) = some_pair {a = x} {b = old} {q = new ∷ xs} {r = q'} (rw hit at h) in
      (ap test (sym e) ∙ hit, rw (← e, ← f) (Replaces-head new x xs))
  | inr miss ↦ elim (Option-cases (replace_where test new xs)) [
    | inl none_left ↦ absurd (ground arith)
    | inr (pair, later) ↦
        let (e, f) = some_pair {a = pair.0} {b = old} {q = x ∷ pair.1} {r = q'} (ground arith) in
        let (ok, rest) = replace_where-Replaces test new pair.0 xs pair.1 later in
        (ap test (sym e) ∙ ok, rw (← e, ← f) (Replaces-cons new pair.0 x xs pair.1 rest))
  ]
]

pub replace_where-none :
    (test : ℕ → Bool) (new : ℕ) (q : List ℕ) → replace_where test new q ≡ none → tally test q ≡ 0
unfolding replace_where
replace_where-none test new [] h = refl
replace_where-none test new (x ∷ xs) h = elim (Option-cases (replace_where test new xs)) [
  | inl later ↦ ground (arith, replace_where-none test new xs later)
  | inr (pair, later) ↦ absurd (ground arith)
]

-- The number of times that an id would be active with the pointer `p` added.
fresh-le :
    (w : World) (p : ℕ) (i : ℤ)
    → HasUniqueIds w
    → active (w.heap p).id w ≡ 0
    → active i w + weight (has_id w i) p ≤ 1
fresh-le w p i u fresh = elim (Bool-cases (has_id w i p)) [
  | inl same ↦ omega (
    arith,
    u i,
    ap (λ j. active j w) (eq_ℤ→eq (w.heap p).id i same),
    ap {B = ℕ} (λ (b : Bool). if b then 1 else 0) same,
  )
  | inr other ↦ omega (arith, u i, ap {B = ℕ} (λ (b : Bool). if b then 1 else 0) other)
]

-- Inserting a pointer whose id is neither shown nor waiting.
pub insert_waiting-Adds :
    (e : Env) (laws : QueueLaws e) (c : Settings) (p : ℕ) (w : World)
    → HasUniqueIds w
    → active (w.heap p).id w ≡ 0
    → Adds p w (insert_waiting e c p w)
insert_waiting-Adds e laws c p w u fresh = record {
  ids = λ q. refl;
  holds = λ t. omega (arith, tally-perm t (laws.insert_sorted-perm (cmp_data c w) p w.waiting));
  unique = λ i. omega (
    arith,
    tally-perm (has_id w i) (laws.insert_sorted-perm (cmp_data c w) p w.waiting),
    fresh-le w p i u fresh,
  );
}

-- A replacement has the id of what it replaces, or an id that nothing has.
abbrev pub FitsFor : ℕ → ℕ → World → Type 0
FitsFor new old w = ((w.heap old).id ≡ (w.heap new).id) ⊎ (active (w.heap new).id w ≡ 0)

fits-le :
    (w : World) (new old : ℕ) (i : ℤ)
    → HasUniqueIds w
    → FitsFor new old w
    → active i w + weight (has_id w i) new ≤ 1 + weight (has_id w i) old
fits-le w new old i u (inl same) =
    omega (arith, u i, ap {B = ℕ} (λ j. if eq_ℤ j i then 1 else 0) same)
fits-le w new old i u (inr fresh) = omega (arith, fresh-le w new i u fresh)

-- The old pointer is given up after updates that leave the queues alone.
pub replaced_displayed-Adds :
    (new old : ℕ) (w v : World) (q : List ℕ)
    → HasUniqueIds w
    → FitsFor new old w
    → Replaces new old w.displayed q
    → IsQuiet (record w { displayed = q }) v
    → Adds new w (unref old v)
replaced_displayed-Adds new old w v q u fits r quiet =
    let k = IsQuiet-Keeps quiet in
    record {
      ids = k.ids;
      holds = λ t. omega (arith, k.holds t, r t);
      unique = λ i. omega (arith, k.no_more i, r (has_id w i), fits-le w new old i u fits);
    }

pub replaced_waiting-Adds :
    (new old : ℕ) (w v : World) (q : List ℕ)
    → HasUniqueIds w
    → FitsFor new old w
    → Replaces new old w.waiting q
    → IsQuiet (record w { waiting = q }) v
    → Adds new w (unref old v)
replaced_waiting-Adds new old w v q u fits r quiet =
    let k = IsQuiet-Keeps quiet in
    record {
      ids = k.ids;
      holds = λ t. omega (arith, k.holds t, r t);
      unique = λ i. omega (arith, k.no_more i, r (has_id w i), fits-le w new old i u fits);
    }
