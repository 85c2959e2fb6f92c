-- ===== src/Dbus/Search.antt =====
-- The search of src/dbus.c in its sorted tables.
use Prim.Native.Nat.{Ordering}
use dunst.Base.{
  ℕ, zero, suc, ◌+◌, ◌/◌, ◌≤◌, ◌<◌, Bool, true, false, ◌&&◌, Option, none, some, Option-cases, [],
  ◌∷◌, length, nth, Str, str_eq, str_eq_iff, is_some, ltb, if◌then◌else◌, ◌≡◌, refl, sym, ap, ◌∙◌,
  ◌⊎◌, inl, inr, Bool-cases, arith,
}
use dunst.Dbus.{
  strcmp, Table, methods_fdn, methods_dunst, bsearch_between, bsearch, dbus_cb_fdn_methods,
  dbus_cb_dunst_methods,
}

strcmp_refl : (s : Str) → strcmp s s ≡ Ordering.eq
unfolding strcmp
strcmp_refl [] = refl
strcmp_refl (a ∷ s) = ground (arith, strcmp_refl s)

strcmp_eq : (s t : Str) → strcmp s t ≡ Ordering.eq → s ≡ t
unfolding strcmp
strcmp_eq [] [] h = refl
strcmp_eq [] (b ∷ t) h = cc
strcmp_eq (a ∷ s) [] h = cc
strcmp_eq (a ∷ s) (b ∷ t) h = ground (arith, strcmp_eq s t)

strcmp_flip : (s t : Str) → strcmp s t ≡ Ordering.lt → strcmp t s ≡ Ordering.gt
unfolding strcmp
strcmp_flip [] [] h = cc
strcmp_flip [] (b ∷ t) h = refl
strcmp_flip (a ∷ s) [] h = cc
strcmp_flip (a ∷ s) (b ∷ t) h = ground (arith, strcmp_flip s t)

is_lt : Ordering → Bool
is_lt Ordering.lt = true
is_lt _ = false

some-lt : (o : Ordering) → is_lt o ≡ true → o ≡ Ordering.lt
unfolding is_lt
some-lt Ordering.lt h = refl
some-lt Ordering.eq h = cc
some-lt Ordering.gt h = cc

Ordering-cases : (o : Ordering) → (o ≡ Ordering.lt) ⊎ ((o ≡ Ordering.gt) ⊎ (o ≡ Ordering.eq))
Ordering-cases Ordering.lt = inl refl
Ordering-cases Ordering.eq = inr (inr refl)
Ordering-cases Ordering.gt = inr (inl refl)

compare-cases : (a b : ℕ) → (a < b) ⊎ ((a ≡ b) ⊎ (b < a))
compare-cases a b = ground arith

some_eq {ℓ} : {A : Type ℓ} {x y : A} → ◌≡◌ {A = Option A} (some x) (some y) → x ≡ y
some_eq h = ground arith

module _ {ℓ} {M : Type ℓ} where
  -- A name stands before every name of a table.
  before : Str → Table M → Bool
  unfolding is_lt
  before name [] = true
  before name (m ∷ rest) = is_lt (strcmp name m.0) && before name rest

  -- The order that a comment asks of the tables, for each pair of names.
  sorted : Table M → Bool
  unfolding before
  sorted [] = true
  sorted (m ∷ rest) = before m.0 rest && sorted rest

  before-nth :
      (name : Str) (table : Table M) (k : ℕ) (m : Str × M)
      → before name table ≡ true
      → nth table k ≡ some m
      → strcmp name m.0 ≡ Ordering.lt
  unfolding nth before
  before-nth name [] k m h e = cc
  before-nth name (x ∷ rest) zero m h e =
      let same : x ≡ m = ground arith in
      ap (λ y. strcmp name y.0) (sym same) ∙ some-lt (strcmp name x.0) (ground arith)
  before-nth name (x ∷ rest) (suc k) m h e = before-nth name rest k m (ground arith) e

  nth-ordered :
      (table : Table M) (j k : ℕ) (m n : Str × M)
      → sorted table ≡ true
      → j < k
      → nth table j ≡ some m
      → nth table k ≡ some n
      → strcmp m.0 n.0 ≡ Ordering.lt
  unfolding nth sorted
  nth-ordered [] j k m n s l e f = cc
  nth-ordered (x ∷ rest) zero zero m n s l e f = absurd (omega arith)
  nth-ordered (x ∷ rest) zero (suc k) m n s l e f =
      let same : x ≡ m = ground arith in
      ap (λ y. strcmp y.0 n.0) (sym same) ∙ before-nth x.0 rest k n (ground arith) f
  nth-ordered (x ∷ rest) (suc j) zero m n s l e f = absurd (omega arith)
  nth-ordered (x ∷ rest) (suc j) (suc k) m n s l e f =
      nth-ordered rest j k m n (ground arith) (omega arith) e f

  nth-length : (table : Table M) (k : ℕ) (m : Str × M) → nth table k ≡ some m → k < length table
  unfolding nth
  nth-length [] k m e = cc
  nth-length (x ∷ rest) zero m e = omega arith
  nth-length (x ∷ rest) (suc k) m e = omega (arith, nth-length rest k m e)

  nth-defined :
      (table : Table M) (k : ℕ) → k < length table → (m : Str × M) × (nth table k ≡ some m)
  unfolding nth
  nth-defined [] k h = absurd (omega arith)
  nth-defined (x ∷ rest) zero h = (x, refl)
  nth-defined (x ∷ rest) (suc k) h = nth-defined rest k (omega arith)

  -- One round, by the sign of the comparison.
  round-lt :
      (fuel l u : ℕ) (key : Str) (table : Table M) (x : Str × M)
      → l < u
      → nth table ((l + u) / 2) ≡ some x
      → strcmp key x.0 ≡ Ordering.lt
      → bsearch_between (suc fuel) key table l u ≡ bsearch_between fuel key table l ((l + u) / 2)
  unfolding bsearch_between
  round-lt fuel l u key table x h e k =
      let open_gap : ltb l u ≡ true = ground arith in rw (bsearch_between, open_gap, e) (rw k refl)

  round-gt :
      (fuel l u : ℕ) (key : Str) (table : Table M) (x : Str × M)
      → l < u
      → nth table ((l + u) / 2) ≡ some x
      → strcmp key x.0 ≡ Ordering.gt
      → bsearch_between (suc fuel) key table l u
        ≡ bsearch_between fuel key table (suc ((l + u) / 2)) u
  unfolding bsearch_between
  round-gt fuel l u key table x h e k =
      let open_gap : ltb l u ≡ true = ground arith in rw (bsearch_between, open_gap, e) (rw k refl)

  round-eq :
      (fuel l u : ℕ) (key : Str) (table : Table M) (x : Str × M)
      → l < u
      → nth table ((l + u) / 2) ≡ some x
      → strcmp key x.0 ≡ Ordering.eq
      → bsearch_between (suc fuel) key table l u ≡ some x.1
  unfolding bsearch_between
  round-eq fuel l u key table x h e k =
      let open_gap : ltb l u ≡ true = ground arith in rw (bsearch_between, open_gap, e) (rw k refl)

  finds :
      (fuel l u j : ℕ) (table : Table M) (n : Str × M)
      → sorted table ≡ true
      → nth table j ≡ some n
      → l ≤ j
      → j < u
      → u ≤ l + fuel
      → u ≤ length table
      → bsearch_between fuel n.0 table l u ≡ some n.1
  finds zero l u j table n s e lo hi gap len = absurd (omega arith)
  finds (suc fuel) l u j table n s e lo hi gap len =
      let idx = (l + u) / 2 in
      let (x, at) = nth-defined table idx (omega arith) in
      elim (compare-cases idx j) [
        | inl below ↦
            round-gt fuel l u n.0 table x (omega arith) at
              (strcmp_flip x.0 n.0 (nth-ordered table idx j x n s below at e))
            ∙ finds fuel (suc idx) u j table n s e (omega arith) hi (omega arith) len
        | inr (inl same) ↦
            let equal : x ≡ n = some_eq (sym at ∙ ap (nth table) same ∙ e) in
            round-eq fuel l u n.0 table x (omega arith) at
              (ap (λ y. strcmp n.0 y.0) equal ∙ strcmp_refl n.0)
            ∙ ap (λ y. some y.1) equal
        | inr (inr above) ↦
            round-lt fuel l u n.0 table x (omega arith) at
              (nth-ordered table j idx n x s above e at)
            ∙ finds fuel l idx j table n s e lo above (omega arith) (omega arith)
      ]

  -- The first entry with a name, one after the other.
  unfoldable pub lookup : Str → Table M → Option M
  lookup key [] = none
  lookup key (m ∷ rest) = let later = lookup key rest in if str_eq key m.0 then some m.1 else later

  lookup-nth :
      (key : Str) (table : Table M) (m : M)
      → lookup key table ≡ some m
      → (j : ℕ) × (nth table j ≡ some (key, m))
  unfolding lookup nth
  lookup-nth key [] m h = cc
  lookup-nth key (x ∷ rest) m h = elim (Bool-cases (str_eq key x.0)) [
    | inl here ↦
        let e : x.1 ≡ m = some_eq (ground arith) in
        let f : x.0 ≡ key = sym ((str_eq_iff key x.0).0 here) in (0, ap some (λ i. (f i, e i)))
    | inr other ↦ let (j, at) = lookup-nth key rest m (ground arith) in (suc j, at)
  ]

  nth-lookup :
      (key : Str) (table : Table M) (j : ℕ) (m : M)
      → nth table j ≡ some (key, m)
      → is_some (lookup key table) ≡ true
  unfolding lookup nth
  nth-lookup key [] j m h = cc
  nth-lookup key (x ∷ rest) zero m h =
      let e : x ≡ (key, m) = some_eq h in
      let hit : str_eq key x.0 ≡ true = (str_eq_iff key x.0).1 (sym (ap (λ y. y.0) e)) in
      rw hit refl
  nth-lookup key (x ∷ rest) (suc j) m h = ground (arith, nth-lookup key rest j m h)

  -- What the search finds has the name that was looked for.
  found :
      (fuel l u : ℕ) (key : Str) (table : Table M) (m : M)
      → bsearch_between fuel key table l u ≡ some m
      → (j : ℕ) × (nth table j ≡ some (key, m))
  unfolding bsearch_between
  found zero l u key table m h = cc
  found (suc fuel) l u key table m h = elim (Bool-cases (ltb l u)) [
    | inr shut ↦ absurd (ground arith)
    | inl open_gap ↦ elim (Option-cases (nth table ((l + u) / 2))) [
      | inl outside ↦ absurd (ground arith)
      | inr (x, at) ↦
          let gap : l < u = ground arith in
          elim (Ordering-cases (strcmp key x.0)) [
            | inl less ↦
                found fuel l ((l + u) / 2) key table m
                  (sym (round-lt fuel l u key table x gap at less) ∙ h)
            | inr (inl more) ↦
                found fuel (suc ((l + u) / 2)) u key table m
                  (sym (round-gt fuel l u key table x gap at more) ∙ h)
            | inr (inr same) ↦
                let e : x.1 ≡ m = some_eq (sym (round-eq fuel l u key table x gap at same) ∙ h) in
                let f : x.0 ≡ key = sym (strcmp_eq key x.0 same) in
                ((l + u) / 2, at ∙ ap some (λ i. (f i, e i)))
          ]
    ]
  ]

  -- In a sorted table the binary search finds what a linear one finds.
  bsearch-lookup :
      (key : Str) (table : Table M) → sorted table ≡ true → bsearch key table ≡ lookup key table
  unfolding bsearch
  bsearch-lookup key table s = elim (Option-cases (lookup key table)) [
    | inr (m, here) ↦
        let (j, at) = lookup-nth key table m here in
        finds (length table) 0 (length table) j table (key, m) s at (omega arith)
          (nth-length table j (key, m) at) (omega arith) (omega arith)
        ∙ sym here
    | inl absent ↦ elim (Option-cases (bsearch key table)) [
      | inl none_found ↦ none_found ∙ sym absent
      | inr (m, hit) ↦
          let (j, at) = found (length table) 0 (length table) key table m hit in
          absurd (ground (arith, nth-lookup key table j m at))
    ]
  ]

-- The comment of src/dbus.c asks that the names be sorted: they are, in both tables, so that the
-- binary search of the two dispatchers calls, for every name, the method that the first entry of
-- the table with that name has, and none where no entry has it.
pub dbus_cb_methods-lookup :
    (method_name : Str)
    → (dbus_cb_fdn_methods method_name ≡ lookup method_name methods_fdn)
      × (dbus_cb_dunst_methods method_name ≡ lookup method_name methods_dunst)
unfolding dbus_cb_fdn_methods dbus_cb_dunst_methods sorted before is_lt strcmp
dbus_cb_methods-lookup method_name =
    (bsearch-lookup method_name methods_fdn refl, bsearch-lookup method_name methods_dunst refl)
