-- ===== src/Notification/Compare.antt =====
-- The order of notification_cmp, the difference of two times included.
use dunst.Base.{
  le_ℤ, Bool, subst, refl, ℤ, eq_ℤ, not, Bool-cases, inl, inr, ◌⊎◌, if◌then◌else◌, ℕ, ◌^◌, ◌≤◌, ◌<◌,
  pos, ◌-ℤ◌, ◌<ℤ◌, to_int, true, false, ◌≡◌, arith,
}
use dunst.Settings.{Settings, is_update, is_ascending, is_descending}
use dunst.Notification.{Notification}
use dunst.Notification.Order.{compare_ordered, notification_cmp}

to_int_small : (d : ℕ) → d < 2 ^ 31 → to_int (pos d) ≡ pos d
unfolding to_int
to_int_small d h = ground arith

to_int_large : (d : ℕ) → 2 ^ 31 ≤ d → d < 2 ^ 32 → to_int (pos d) <ℤ pos 0
unfolding to_int
to_int_large d h k = ground arith

cmp_update :
    (c : Settings) (a b : Notification)
    → is_update c.sort ≡ true
    → c.origin_bottom ≡ false
    → notification_cmp c a b ≡ to_int (b.timestamp -ℤ a.timestamp)
unfolding notification_cmp compare_ordered
cmp_update c a b u o = ground arith

-- Where the update order is set and the origin is not at the bottom, a notification that is `d`
-- microseconds later than another comes first, for a `d` of 1 to 2 ^ 31 - 1.
pub notification_cmp-newest :
    (c : Settings) (a b : Notification) (d : ℕ)
    → is_update c.sort ≡ true
    → c.origin_bottom ≡ false
    → b.timestamp -ℤ a.timestamp ≡ pos d
    → 0 < d
    → d < 2 ^ 31
    → pos 0 <ℤ notification_cmp c a b
notification_cmp-newest c a b d u o h k l =
    rw (cmp_update c a b u o, h, to_int_small d l) (omega arith)

-- Where the update order is set and the origin is not at the bottom, a notification that is `d`
-- microseconds later than another comes last, for a `d` of 2 ^ 31 to 2 ^ 32 - 1: the difference is
-- cut to 32 bits.
pub notification_cmp-wraps :
    (c : Settings) (a b : Notification) (d : ℕ)
    → is_update c.sort ≡ true
    → c.origin_bottom ≡ false
    → b.timestamp -ℤ a.timestamp ≡ pos d
    → 2 ^ 31 ≤ d
    → d < 2 ^ 32
    → notification_cmp c a b <ℤ pos 0
notification_cmp-wraps c a b d u o h k l = rw (cmp_update c a b u o, h) (to_int_large d k l)

-- The sign of the difference of the first keys, or of the second ones where those are equal.
IsBefore : ℤ → ℤ → ℤ → ℤ → Type 0
IsBefore u v i j = (u <ℤ v) ⊎ ((eq_ℤ u v ≡ true) × (i <ℤ j))

before : (u v i j : ℤ) → (if not (eq_ℤ u v) then u -ℤ v else i -ℤ j) <ℤ pos 0 → IsBefore u v i j
unfolding IsBefore ◌-ℤ◌
before u v i j h = elim (Bool-cases (eq_ℤ u v)) [
  | inl same ↦ inr (same, ground arith)
  | inr differ ↦ inl (ground arith)
]

before_back :
    (u v i j : ℤ) → IsBefore u v i j → (if not (eq_ℤ u v) then u -ℤ v else i -ℤ j) <ℤ pos 0
unfolding IsBefore ◌-ℤ◌
before_back u v i j (inl less) = ground arith
before_back u v i j (inr (same, less)) = ground arith

sign_flip :
    (u v i j : ℤ)
    → pos 0 <ℤ (if not (eq_ℤ u v) then u -ℤ v else i -ℤ j)
    → (if not (eq_ℤ v u) then v -ℤ u else j -ℤ i) <ℤ pos 0
unfolding ◌-ℤ◌
sign_flip u v i j h = ground arith

sign_flip_back :
    (u v i j : ℤ)
    → (if not (eq_ℤ u v) then u -ℤ v else i -ℤ j) <ℤ pos 0
    → pos 0 <ℤ (if not (eq_ℤ v u) then v -ℤ u else j -ℤ i)
unfolding ◌-ℤ◌
sign_flip_back u v i j h = ground arith

difference_trans : (i j k : ℤ) → (i -ℤ j) <ℤ pos 0 → (j -ℤ k) <ℤ pos 0 → (i -ℤ k) <ℤ pos 0
unfolding ◌-ℤ◌
difference_trans i j k h l = ground arith

IsBefore_trans : (u v w i j k : ℤ) → IsBefore u v i j → IsBefore v w j k → IsBefore u w i k
unfolding IsBefore
IsBefore_trans u v w i j k (inl a) (inl b) = inl (omega arith)
IsBefore_trans u v w i j k (inl a) (inr (e, b)) = inl (ground arith)
IsBefore_trans u v w i j k (inr (e, a)) (inl b) = inl (ground arith)
IsBefore_trans u v w i j k (inr (e, a)) (inr (f, b)) = inr (ground arith, omega arith)

IsBefore_down : (u v w i j k : ℤ) → IsBefore v u i j → IsBefore w v j k → IsBefore w u i k
unfolding IsBefore
IsBefore_down u v w i j k (inl a) (inl b) = inl (omega arith)
IsBefore_down u v w i j k (inl a) (inr (e, b)) = inl (ground arith)
IsBefore_down u v w i j k (inr (e, a)) (inl b) = inl (ground arith)
IsBefore_down u v w i j k (inr (e, a)) (inr (f, b)) = inr (ground arith, omega arith)

eq_ℤ_comm : (a b : ℤ) → eq_ℤ a b ≡ eq_ℤ b a
eq_ℤ_comm a b = ground arith

module _ (c : Settings) (a b : Notification) (u : is_update c.sort ≡ false) where
  cmp_up :
      is_ascending c.sort ≡ true
      → notification_cmp c a b
        ≡ (if not (eq_ℤ a.urgency b.urgency) then a.urgency -ℤ b.urgency else a.id -ℤ b.id)
  unfolding notification_cmp compare_ordered
  cmp_up h = rw (u, h) (ground arith)

  cmp_down :
      is_ascending c.sort ≡ false
      → is_descending c.sort ≡ true
      → notification_cmp c a b
        ≡ (if not (eq_ℤ b.urgency a.urgency) then b.urgency -ℤ a.urgency else a.id -ℤ b.id)
  unfolding notification_cmp compare_ordered
  cmp_down g h = rw (u, g, h, eq_ℤ_comm a.urgency b.urgency) refl

  cmp_plain :
      is_ascending c.sort ≡ false
      → is_descending c.sort ≡ false
      → notification_cmp c a b ≡ a.id -ℤ b.id
  unfolding notification_cmp compare_ordered
  cmp_plain g h = rw (u, g, h) refl

pub notification_cmp-transitive :
    (c : Settings) (x y z : Notification)
    → is_update c.sort ≡ false
    → notification_cmp c x y <ℤ pos 0
    → notification_cmp c y z <ℤ pos 0
    → notification_cmp c x z <ℤ pos 0
notification_cmp-transitive c x y z u h k = elim (Bool-cases (is_ascending c.sort)) [
  | inl up ↦ rw (cmp_up c x z u up) (
      before_back x.urgency z.urgency x.id z.id (
        IsBefore_trans x.urgency y.urgency z.urgency x.id y.id z.id
          (before x.urgency y.urgency x.id y.id (subst (λ d. d <ℤ pos 0) (cmp_up c x y u up) h))
          (before y.urgency z.urgency y.id z.id (subst (λ d. d <ℤ pos 0) (cmp_up c y z u up) k))))
  | inr not_up ↦ elim (Bool-cases (is_descending c.sort)) [
    | inl down ↦ rw (cmp_down c x z u not_up down) (
        before_back z.urgency x.urgency x.id z.id (
          IsBefore_down x.urgency y.urgency z.urgency x.id y.id z.id
            (before y.urgency x.urgency x.id y.id
              (subst (λ d. d <ℤ pos 0) (cmp_down c x y u not_up down) h))
            (before z.urgency y.urgency y.id z.id
              (subst (λ d. d <ℤ pos 0) (cmp_down c y z u not_up down) k))))
    | inr plain ↦
        let first : (x.id -ℤ y.id) <ℤ pos 0 =
          subst (λ d. d <ℤ pos 0) (cmp_plain c x y u not_up plain) h in
        let second : (y.id -ℤ z.id) <ℤ pos 0 =
          subst (λ d. d <ℤ pos 0) (cmp_plain c y z u not_up plain) k in
        rw (cmp_plain c x z u not_up plain) (difference_trans x.id y.id z.id first second)
  ]
]

-- The other way round, the result has the other sign.
notification_cmp_flip :
    (c : Settings) (x y : Notification)
    → is_update c.sort ≡ false
    → pos 0 <ℤ notification_cmp c x y
    → notification_cmp c y x <ℤ pos 0
unfolding ◌-ℤ◌
notification_cmp_flip c x y u h = elim (Bool-cases (is_ascending c.sort)) [
  | inl up ↦
      let k = subst (λ d. pos 0 <ℤ d) (cmp_up c x y u up) h in
      rw (cmp_up c y x u up) (sign_flip x.urgency y.urgency x.id y.id k)
  | inr not_up ↦ elim (Bool-cases (is_descending c.sort)) [
    | inl down ↦
        let k = subst (λ d. pos 0 <ℤ d) (cmp_down c x y u not_up down) h in
        rw (cmp_down c y x u not_up down) (sign_flip y.urgency x.urgency x.id y.id k)
    | inr plain ↦
        let k = subst (λ d. pos 0 <ℤ d) (cmp_plain c x y u not_up plain) h in
        rw (cmp_plain c y x u not_up plain) (ground arith)
  ]
]

notification_cmp_flip_back :
    (c : Settings) (x y : Notification)
    → is_update c.sort ≡ false
    → notification_cmp c x y <ℤ pos 0
    → pos 0 <ℤ notification_cmp c y x
unfolding ◌-ℤ◌
notification_cmp_flip_back c x y u h = elim (Bool-cases (is_ascending c.sort)) [
  | inl up ↦
      let k = subst (λ d. d <ℤ pos 0) (cmp_up c x y u up) h in
      rw (cmp_up c y x u up) (sign_flip_back x.urgency y.urgency x.id y.id k)
  | inr not_up ↦ elim (Bool-cases (is_descending c.sort)) [
    | inl down ↦
        let k = subst (λ d. d <ℤ pos 0) (cmp_down c x y u not_up down) h in
        rw (cmp_down c y x u not_up down) (sign_flip_back y.urgency x.urgency x.id y.id k)
    | inr plain ↦
        let k = subst (λ d. d <ℤ pos 0) (cmp_plain c x y u not_up plain) h in
        rw (cmp_plain c y x u not_up plain) (ground arith)
  ]
]

-- The first one comes after the second.
abbrev pub comes_after : Settings → Notification → Notification → Bool
comes_after c x y = not (le_ℤ (notification_cmp c x y) (pos 0))

after_positive :
    (c : Settings) (x y : Notification) → comes_after c x y ≡ true → pos 0 <ℤ notification_cmp c x y
after_positive c x y h = ground arith

positive_after :
    (c : Settings) (x y : Notification) → pos 0 <ℤ notification_cmp c x y → comes_after c x y ≡ true
positive_after c x y h = ground arith

pub comes_after_trans :
    (c : Settings) (x y z : Notification)
    → is_update c.sort ≡ false
    → comes_after c x y ≡ true
    → comes_after c y z ≡ true
    → comes_after c x z ≡ true
comes_after_trans c x y z u h k = positive_after c x z (
    notification_cmp_flip_back c z x u (
      notification_cmp-transitive c z y x u (notification_cmp_flip c y z u (after_positive c y z k))
        (notification_cmp_flip c x y u (after_positive c x y h))))

pub comes_after_asym :
    (c : Settings) (x y : Notification)
    → is_update c.sort ≡ false
    → comes_after c x y ≡ true
    → comes_after c y x ≡ false
comes_after_asym c x y u h =
    let k = notification_cmp_flip c x y u (after_positive c x y h) in ground arith

-- Nothing but the urgency, the time and the id is compared.
pub notification_cmp_keys :
    (c : Settings) (a b x y : Notification)
    → (x.urgency ≡ a.urgency) × (x.timestamp ≡ a.timestamp) × (x.id ≡ a.id)
    → (y.urgency ≡ b.urgency) × (y.timestamp ≡ b.timestamp) × (y.id ≡ b.id)
    → notification_cmp c x y ≡ notification_cmp c a b
unfolding notification_cmp compare_ordered
notification_cmp_keys c a b x y (u, t, i) (v, s, j) = rw (u, t, i, v, s, j) refl
