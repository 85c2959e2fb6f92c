-- ===== src/Input/Hit.antt =====
-- Where a click of src/input.c lands.
use dunst.Base.{
  and_true, le_ℤ-true, +ℤ_assoc, span_join, ℕ, ◌+◌, ◌≤◌, ℤ, pos, negsuc, pos_part, neg_part, ◌+ℤ◌,
  ◌≤ℤ◌, +ℤ_parts, lt_ℤ, le_ℤ, Bool, true, false, ◌&&◌, Option, none, some, is_some, Option-cases,
  List, [], ◌∷◌, mem, ==_iff, if◌then◌else◌, ◌≡◌, refl, ap, ◌∙◌, inl, inr, arith,
}
use dunst.Settings.{Settings}
use dunst.World.{World}
use dunst.Input.{
  get_notification_clickable_height, is_last, notification_from, advance, get_notification_at,
}

-- The height of a window that shows a queue without gaps.
unfoldable pub total : Settings → (ℕ → ℤ) → Bool → List ℕ → ℤ
unfolding get_notification_clickable_height
total c heights first [] = pos 0
total c heights first (p ∷ rest) =
    get_notification_clickable_height c (heights p) first (is_last rest)
    +ℤ total c heights false rest

-- No notification has a height below zero.
unfoldable pub is_upright : Settings → (ℕ → ℤ) → Bool → List ℕ → Bool
unfolding get_notification_clickable_height
is_upright c heights first [] = true
is_upright c heights first (p ∷ rest) =
    le_ℤ (pos 0) (get_notification_clickable_height c (heights p) first (is_last rest))
    && is_upright c heights false rest

total-nonneg :
    (c : Settings) (heights : ℕ → ℤ) (first : Bool) (q : List ℕ)
    → is_upright c heights first q ≡ true
    → neg_part (total c heights first q) ≤ pos_part (total c heights first q)
unfolding total is_upright
total-nonneg c heights first [] h = omega arith
total-nonneg c heights first (p ∷ rest) h =
    let size = get_notification_clickable_height c (heights p) first (is_last rest) in
    let (tall, later) = and_true (le_ℤ (pos 0) size) (is_upright c heights false rest) h in
    omega (
      arith,
      le_ℤ-true (pos 0) size tall,
      +ℤ_parts size (total c heights false rest),
      total-nonneg c heights false rest later,
    )

hit_or :
    (b : Bool) (x p : ℕ) (rest : List ℕ) (below : Option ℕ)
    → (if b then some x else below) ≡ some p
    → (below ≡ some p → mem p rest ≡ true)
    → mem p (x ∷ rest) ≡ true
hit_or true x p rest below h later = ground (arith, ==_iff x p)
hit_or false x p rest below h later = ground (arith, later h)

notification_from-mem :
    (c : Settings) (heights : ℕ → ℤ) (y curr_y : ℤ) (first : Bool) (q : List ℕ) (p : ℕ)
    → notification_from c heights y curr_y first q ≡ some p
    → mem p q ≡ true
unfolding notification_from
notification_from-mem c heights y curr_y first [] p h = cc
notification_from-mem c heights y curr_y first (x ∷ rest) p h =
    let size = get_notification_clickable_height c (heights x) first (is_last rest) in
    let next_y = advance c curr_y size in
    hit_or (le_ℤ curr_y y && lt_ℤ y (curr_y +ℤ size)) x p rest
      (notification_from c heights y next_y false rest) h
      (notification_from-mem c heights y next_y false rest p)

is_some_if :
    (b : Bool) (p : ℕ) (below : Option ℕ)
    → is_some (if b then some p else below) ≡ (if b then true else is_some below)
is_some_if true p below = refl
is_some_if false p below = refl

advance-gapless :
    (c : Settings) (curr_y size : ℤ) → c.gap_size ≡ pos 0 → advance c curr_y size ≡ curr_y +ℤ size
unfolding advance
advance-gapless c curr_y size g = rw (advance, g) refl

notification_from-step :
    (c : Settings) (heights : ℕ → ℤ) (y curr_y : ℤ) (first : Bool) (p : ℕ) (rest : List ℕ)
    → c.gap_size ≡ pos 0
    → let below_y =
        curr_y +ℤ get_notification_clickable_height c (heights p) first (is_last rest) in
      notification_from c heights y curr_y first (p ∷ rest) ≡ (
        if le_ℤ curr_y y && lt_ℤ y below_y
        then some p
        else notification_from c heights y below_y false rest)
unfolding notification_from
notification_from-step c heights y curr_y first p rest g =
    let size = get_notification_clickable_height c (heights p) first (is_last rest) in
    ap
      (λ t.
        if le_ℤ curr_y y && lt_ℤ y (curr_y +ℤ size)
        then some p
        else notification_from c heights y t false rest)
      (advance-gapless c curr_y size g)

span_empty : (a y : ℤ) → false ≡ (le_ℤ a y && lt_ℤ y (a +ℤ pos 0))
span_empty a y = span_none a y (a +ℤ pos 0) (omega (arith, +ℤ_parts a (pos 0)))
  where
    span_none :
        (a y b : ℤ)
        → pos_part b + neg_part a ≡ pos_part a + neg_part b
        → false ≡ (le_ℤ a y && lt_ℤ y b)
    span_none a y b h = ground arith

zero_left : (a : ℤ) → pos 0 +ℤ a ≡ a
unfolding ◌+ℤ◌
zero_left (pos n) = ground arith
zero_left (negsuc n) = ground arith

abbrev pub is_in : Option ℕ → List ℕ → Bool
is_in none q = true
is_in (some p) q = mem p q

add_below : (a b : ℤ) → neg_part b ≤ pos_part b → a ≤ℤ a +ℤ b
add_below a b h = omega (arith, +ℤ_parts a b)

notification_from-total :
    (c : Settings) (heights : ℕ → ℤ) (y curr_y : ℤ) (first : Bool) (q : List ℕ)
    → c.gap_size ≡ pos 0
    → is_upright c heights first q ≡ true
    → is_some (notification_from c heights y curr_y first q)
      ≡ (le_ℤ curr_y y && lt_ℤ y (curr_y +ℤ total c heights first q))
unfolding total is_upright
notification_from-total c heights y curr_y first [] g h =
    unfold notification_from in span_empty curr_y y
notification_from-total c heights y curr_y first (p ∷ rest) g h =
    let size = get_notification_clickable_height c (heights p) first (is_last rest) in
    let more = total c heights false rest in
    let mid = curr_y +ℤ size in
    let (tall, later) = and_true (le_ℤ (pos 0) size) (is_upright c heights false rest) h in
    let hit = le_ℤ curr_y y && lt_ℤ y mid in
    let upright = le_ℤ-true (pos 0) size tall in
    ap is_some (notification_from-step c heights y curr_y first p rest g)
    ∙ is_some_if hit p (notification_from c heights y mid false rest)
    ∙ ap (λ b. if hit then true else b) (notification_from-total c heights y mid false rest g later)
    ∙ span_join curr_y mid (mid +ℤ more) y (add_below curr_y size (omega (arith, upright)))
        (add_below mid more (total-nonneg c heights false rest later))
    ∙ ap (λ b. le_ℤ curr_y y && lt_ℤ y b) (+ℤ_assoc curr_y size more)

-- What a click hits is displayed. Without gaps, where no notification has a height below zero, a
-- click at `y` hits a notification exactly if it lies in the window: from 0 up to the sum of the
-- heights.
pub get_notification_at-total :
    (c : Settings) (heights : ℕ → ℤ) (y : ℤ) (w : World)
    → c.gap_size ≡ pos 0
    → is_upright c heights true w.displayed ≡ true
    → let hit = get_notification_at c heights y w in
      (is_some hit ≡ (le_ℤ (pos 0) y && lt_ℤ y (total c heights true w.displayed)))
      × (is_in hit w.displayed ≡ true)
unfolding get_notification_at
get_notification_at-total c heights y w g h = (
  notification_from-total c heights y (pos 0) true w.displayed g h
      ∙ ap (λ b. le_ℤ (pos 0) y && lt_ℤ y b) (zero_left (total c heights true w.displayed)),
  elim (Option-cases (notification_from c heights y (pos 0) true w.displayed)) [
    | inl none_hit ↦ rw none_hit refl
    | inr (p, hit) ↦ rw hit (notification_from-mem c heights y (pos 0) true w.displayed p hit)
  ],
)
