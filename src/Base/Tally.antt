-- ===== src/Base/Tally.antt =====
-- How many elements of a queue pass a test. Two queues with the same tallies hold the same
-- pointers as often.
use mathlib.Core.Logic.{∥∥₁_elim}
use mathlib.Core.List.{Perm, Permᴰ}
use native.Mathlib.Nat.{ℕ_set, suc-mul}
use Prim.Native.Nat.{ℕ, ◌+◌, ◌*◌, ◌≤◌, ◌<◌}
use mathlib.Core.Path.{◌≡◌, refl, sym, ap, ◌∙◌}
use mathlib.Core.Bool.{Bool, true, false}
use mathlib.Core.List.{List, [], ◌∷◌, ◌++◌}
use native.Mathlib.Omega.{arith}
use mathlib.Core.Logic.{◌≢◌, inl, inr}
use dunst.Base.Tests.{Bool-cases, ◌==◌, if◌then◌else◌, ==_iff}
use dunst.Base.Lists.{erase, mem, length}

abbrev pub weight : (ℕ → Bool) → ℕ → ℕ
weight t x = if t x then 1 else 0

abbrev pub tally : (ℕ → Bool) → List ℕ → ℕ
tally t [] = 0
tally t (x ∷ xs) = weight t x + tally t xs

pub tally-append : (t : ℕ → Bool) (xs ys : List ℕ) → tally t (xs ++ ys) ≡ tally t xs + tally t ys
tally-append t [] ys = omega arith
tally-append t (x ∷ xs) ys = omega (arith, tally-append t xs ys)

pub tally-erase :
    (t : ℕ → Bool) (a : ℕ) (xs : List ℕ)
    → mem a xs ≡ true
    → tally t (erase a xs) + weight t a ≡ tally t xs
tally-erase t a [] h = cc
tally-erase t a (x ∷ xs) h = ground (arith, tally-erase t a xs, ==_iff x a)

tally-permᴰ : (t : ℕ → Bool) {xs ys : List ℕ} → Permᴰ xs ys → tally t xs ≡ tally t ys
tally-permᴰ t Permᴰ.nil = refl
tally-permᴰ t (Permᴰ.cons e p) = omega (arith, tally-permᴰ t p, ap (weight t) e)
tally-permᴰ t (Permᴰ.swap {l = l} e f) = omega (arith, ap (weight t) e, ap (weight t) f)
tally-permᴰ t (Permᴰ.trans p q) = tally-permᴰ t p ∙ tally-permᴰ t q

pub tally-perm : (t : ℕ → Bool) {xs ys : List ℕ} → Perm xs ys → tally t xs ≡ tally t ys
tally-perm t {xs} {ys} p = ∥∥₁_elim p (ℕ_set _ _) (tally-permᴰ t)

-- The test for one pointer counts it.
pub weight_self : (r : ℕ) → weight (λ p. p == r) r ≡ 1
weight_self r = ground arith

tally-length : (xs : List ℕ) → tally (λ _. true) xs ≡ length xs
tally-length [] = refl
tally-length (x ∷ xs) = omega (arith, tally-length xs)

pub length-perm : {xs ys : List ℕ} → Perm xs ys → length xs ≡ length ys
length-perm {xs} {ys} p = sym (tally-length xs) ∙ tally-perm (λ _. true) p ∙ tally-length ys

pub mem-tally : (a : ℕ) (xs : List ℕ) → 1 ≤ tally (λ p. p == a) xs → mem a xs ≡ true
mem-tally a [] h = absurd (omega arith)
mem-tally a (x ∷ xs) h = ground (arith, mem-tally a xs)

pub tally-mem : (t : ℕ → Bool) (a : ℕ) (xs : List ℕ) → mem a xs ≡ true → t a ≡ true → 1 ≤ tally t xs
tally-mem t a [] h p = cc
tally-mem t a (x ∷ xs) h p = ground (arith, tally-mem t a xs, ==_iff x a)

-- Where at most one element passes a test, two that pass it are the same.
pub unique_mem :
    (t : ℕ → Bool) (a b : ℕ) (xs : List ℕ)
    → tally t xs ≤ 1
    → mem a xs ≡ true
    → mem b xs ≡ true
    → t a ≡ true
    → t b ≡ true
    → a ≡ b
unique_mem t a b [] u ha hb pa pb = cc
unique_mem t a b (x ∷ xs) u ha hb pa pb =
    ground (arith, unique_mem t a b xs, tally-mem t a xs, tally-mem t b xs, ==_iff x a, ==_iff x b)

-- Two tests that differ at one pointer count alike in a queue without it.
pub tally_avoid :
    (s t : ℕ → Bool) (p : ℕ) (xs : List ℕ)
    → mem p xs ≡ false
    → ((q : ℕ) → q ≢ p → s q ≡ t q)
    → tally s xs ≡ tally t xs
tally_avoid s t p [] h same = refl
tally_avoid s t p (x ∷ xs) h same =
    let e = same x (λ (k : x ≡ p). ground (arith, ==_iff x p)) in
    omega (
      arith,
      ap {B = ℕ} (λ (b : Bool). if b then 1 else 0) e,
      tally_avoid s t p xs (ground (arith, ==_iff x p)) same,
    )

pub tally_le :
    (s t : ℕ → Bool) (xs : List ℕ) → ((x : ℕ) → s x ≡ true → t x ≡ true) → tally s xs ≤ tally t xs
tally_le s t [] h = omega arith
tally_le s t (x ∷ xs) h = ground (arith, tally_le s t xs h, h x)

weight_le : (t : ℕ → Bool) (a b : ℕ) → (t a ≡ true → t b ≡ true) → weight t a ≤ weight t b
weight_le t a b h = ground (arith, h)

weight_no : (t : ℕ → Bool) (a : ℕ) → t a ≡ false → weight t a ≡ 0
weight_no t a h = rw h refl

weight_yes : (t : ℕ → Bool) (a : ℕ) → t a ≡ true → weight t a ≡ 1
weight_yes t a h = rw h refl

tally-bound : (t : ℕ → Bool) (xs : List ℕ) → tally t xs ≤ length xs
tally-bound t [] = omega arith
tally-bound t (x ∷ xs) = ground (arith, tally-bound t xs)

-- How many pairs of an element of the one list and one of the other pass a test.
abbrev pub pairs : (ℕ → ℕ → Bool) → List ℕ → List ℕ → ℕ
pairs b [] ys = 0
pairs b (x ∷ xs) ys = tally (b x) ys + pairs b xs ys

pub pairs-bound : (b : ℕ → ℕ → Bool) (xs ys : List ℕ) → pairs b xs ys ≤ length xs * length ys
pairs-bound b [] ys = omega arith
pairs-bound b (x ∷ xs) ys =
    omega (arith, tally-bound (b x) ys, pairs-bound b xs ys, suc-mul (length xs) (length ys))

pairs-permᴰ :
    (b : ℕ → ℕ → Bool) (ys : List ℕ) {xs zs : List ℕ} → Permᴰ xs zs → pairs b xs ys ≡ pairs b zs ys
pairs-permᴰ b ys Permᴰ.nil = refl
pairs-permᴰ b ys (Permᴰ.cons e p) = omega (arith, pairs-permᴰ b ys p, ap (λ x. tally (b x) ys) e)
pairs-permᴰ b ys (Permᴰ.swap {l = l} e f) =
    omega (arith, ap (λ x. tally (b x) ys) e, ap (λ x. tally (b x) ys) f)
pairs-permᴰ b ys (Permᴰ.trans p q) = pairs-permᴰ b ys p ∙ pairs-permᴰ b ys q

pairs-perm :
    (b : ℕ → ℕ → Bool) (ys : List ℕ) {xs zs : List ℕ} → Perm xs zs → pairs b xs ys ≡ pairs b zs ys
pairs-perm b ys {xs} {zs} p = ∥∥₁_elim p (ℕ_set _ _) (pairs-permᴰ b ys)

pairs-erase :
    (b : ℕ → ℕ → Bool) (a : ℕ) (xs ys : List ℕ)
    → mem a xs ≡ true
    → pairs b (erase a xs) ys + tally (b a) ys ≡ pairs b xs ys
pairs-erase b a [] ys h = cc
pairs-erase b a (x ∷ xs) ys h = elim (Bool-cases (x == a)) [
  | inl same ↦
      let e : tally (b x) ys ≡ tally (b a) ys = ap (λ z. tally (b z) ys) ((==_iff x a).0 same) in
      rw same (omega (arith, e))
  | inr differ ↦
      let later : mem a xs ≡ true = ground arith in
      rw differ (omega (arith, pairs-erase b a xs ys later))
]

pairs_le :
    (b : ℕ → ℕ → Bool) (xs ys zs : List ℕ)
    → ((x : ℕ) → tally (b x) ys ≤ tally (b x) zs)
    → pairs b xs ys ≤ pairs b xs zs
pairs_le b [] ys zs h = omega arith
pairs_le b (x ∷ xs) ys zs h = omega (arith, h x, pairs_le b xs ys zs h)

-- Exchanging two elements that pass a strict order leaves fewer pairs that pass it.
pub pairs-swap :
    (b : ℕ → ℕ → Bool) (d h : ℕ) (xs ys xs' ys' : List ℕ)
    → ((x y z : ℕ) → b x y ≡ true → b y z ≡ true → b x z ≡ true)
    → b h d ≡ false
    → b d h ≡ true
    → mem d xs ≡ true
    → mem h ys ≡ true
    → Perm xs' (h ∷ erase d xs)
    → Perm ys' (d ∷ erase h ys)
    → pairs b xs' ys' < pairs b xs ys
pairs-swap b d h xs ys xs' ys' trans asym before m n p q =
    let less : (x : ℕ) → tally (b x) ys' ≤ tally (b x) ys = λ x. omega (
      arith,
      tally-perm (b x) q,
      tally-erase (b x) h ys n,
      weight_le (b x) d h (λ k. trans x d h k before),
    ) in
    omega (
      arith,
      pairs-perm b ys' p,
      pairs_le b (erase d xs) ys' ys less,
      pairs-erase b d xs ys m,
      tally-perm (b h) q,
      weight_no (b h) d asym,
      weight_yes (b d) h before,
      tally-erase (b d) h ys n,
      tally_le (b h) (b d) (erase h ys) (λ y k. trans d h y before k),
    )
