-- ===== src/Queues/Wakeup.antt =====
-- queues_get_next_datachange of src/queues.c: when the main loop has to look at the queues again.
use dunst.Base.{
  ℕ, suc, ◌%◌, ℤ, pos, negsuc, minus_one, ◌+ℤ◌, ◌-ℤ◌, ◌≤ℤ◌, lt_ℤ, le_ℤ, +ℤ_parts, -ℤ_parts, Bool,
  true, false, not, ◌&&◌, Option, none, some, List, [], ◌∷◌, mem, ==_iff, ◌==◌, if◌then◌else◌, ◌≡◌,
  refl, ap, subst, ◌∙◌, inl, inr, Bool-cases, arith,
}
use dunst.Settings.{Settings}
use dunst.Notification.{Notification}
use dunst.World.{World}

-- S2US(1)
abbrev pub second : ℕ
second = 1000000

-- time % S2US(1), which has the sign of the time.
unfoldable pub remainder : ℤ → ℤ
remainder (pos n) = pos (n % second)
remainder (negsuc n) = pos 0 -ℤ pos (suc n % second)

unfoldable pub next_second : ℤ → ℤ
unfolding remainder
next_second time = (time +ℤ pos second) -ℤ remainder time

-- `wakeup_time`, where `none` is G_MAXINT64, and MIN(wakeup_time, t).
unfoldable pub min_wakeup : Option ℤ → ℤ → Option ℤ
min_wakeup none t = some t
min_wakeup (some w) t = some (if lt_ℤ w t then w else t)

-- The notification times out by itself.
abbrev pub is_timed : Notification → Bool
is_timed n = lt_ℤ (pos 0) n.timeout && not n.locked

unfoldable pub after_timeout : Notification → Option ℤ → Option ℤ
unfolding min_wakeup
after_timeout n wakeup = if is_timed n then min_wakeup wakeup (n.start +ℤ n.timeout) else wakeup

unfoldable pub after_age : Settings → ℤ → Notification → Option ℤ → Option ℤ
unfolding min_wakeup next_second
after_age c time n wakeup =
    if le_ℤ (pos 0) c.show_age_threshold
    then (if lt_ℤ (c.show_age_threshold -ℤ pos second) (time -ℤ n.timestamp)
        then min_wakeup wakeup (next_second time)
        else min_wakeup wakeup (n.timestamp +ℤ c.show_age_threshold))
    else wakeup

-- The loop over the displayed queue.
unfoldable pub scan : Settings → ℤ → World → List ℕ → Option ℤ → ℤ
unfolding after_timeout after_age
scan c time w [] none = minus_one
scan c time w [] (some wakeup) = wakeup
scan c time w (p ∷ ps) wakeup =
    let n = w.heap p in
    let rest = scan c time w ps (after_age c time n (after_timeout n wakeup)) in
    if is_timed n && not (lt_ℤ time (n.start +ℤ n.timeout)) then time else rest

unfoldable pub queues_get_next_datachange : Settings → ℤ → World → ℤ
unfolding scan
queues_get_next_datachange c time w = scan c time w w.displayed none

-- No wakeup is before the time.
abbrev IsLater : ℤ → Option ℤ → Type 0
IsLater time none = Unit
IsLater time (some t) = time ≤ℤ t

-- There is a wakeup, no later than a deadline.
abbrev IsBy : ℤ → Option ℤ → Type 0
IsBy deadline none = ⊥
IsBy deadline (some t) = t ≤ℤ deadline

next_second-later : (time : ℤ) → time ≤ℤ next_second time
unfolding next_second remainder
next_second-later (pos n) =
    omega (arith, +ℤ_parts (pos n) (pos second), -ℤ_parts (pos n +ℤ pos second) (pos (n % second)))
next_second-later (negsuc n) = omega (
  arith,
  +ℤ_parts (negsuc n) (pos second),
  -ℤ_parts (pos 0) (pos (suc n % second)),
  -ℤ_parts (negsuc n +ℤ pos second) (pos 0 -ℤ pos (suc n % second)),
)

min_wakeup-IsLater :
    (time : ℤ) (wakeup : Option ℤ) (t : ℤ)
    → IsLater time wakeup
    → time ≤ℤ t
    → IsLater time (min_wakeup wakeup t)
unfolding min_wakeup
min_wakeup-IsLater time none t h k = k
min_wakeup-IsLater time (some w) t h k = ground arith

min_wakeup-IsBy :
    (deadline : ℤ) (wakeup : Option ℤ) (t : ℤ)
    → IsBy deadline wakeup
    → IsBy deadline (min_wakeup wakeup t)
unfolding min_wakeup
min_wakeup-IsBy deadline none t h = elim h [ ]
min_wakeup-IsBy deadline (some w) t h = ground arith

min_wakeup-now : (wakeup : Option ℤ) (t : ℤ) → IsBy t (min_wakeup wakeup t)
unfolding min_wakeup
min_wakeup-now none t = omega arith
min_wakeup-now (some w) t = ground arith

module _ (c : Settings) (time : ℤ) where
  after_timeout-IsLater :
      (n : Notification) (wakeup : Option ℤ)
      → IsLater time wakeup
      → is_timed n && not (lt_ℤ time (n.start +ℤ n.timeout)) ≡ false
      → IsLater time (after_timeout n wakeup)
  unfolding after_timeout
  after_timeout-IsLater n wakeup l h = elim (Bool-cases (is_timed n)) [
    | inr a ↦ rw a l
    | inl a ↦ rw a (min_wakeup-IsLater time wakeup (n.start +ℤ n.timeout) l (ground arith))
  ]

  after_age-IsLater :
      (n : Notification) (wakeup : Option ℤ)
      → IsLater time wakeup
      → IsLater time (after_age c time n wakeup)
  unfolding after_age
  after_age-IsLater n wakeup l = elim (Bool-cases (le_ℤ (pos 0) c.show_age_threshold)) [
    | inr a ↦ rw a l
    | inl a ↦
        let young = lt_ℤ (c.show_age_threshold -ℤ pos second) (time -ℤ n.timestamp) in
        elim (Bool-cases young) [
          | inl b ↦
              rw (a, b)
                (min_wakeup-IsLater time wakeup (next_second time) l (next_second-later time))
          | inr b ↦
              let soon : time -ℤ n.timestamp ≤ℤ c.show_age_threshold -ℤ pos second =
                ground (arith, b) in
              let due : time ≤ℤ n.timestamp +ℤ c.show_age_threshold = omega (
                arith,
                soon,
                +ℤ_parts n.timestamp c.show_age_threshold,
                -ℤ_parts c.show_age_threshold (pos second),
                -ℤ_parts time n.timestamp,
              ) in
              rw (a, b) (min_wakeup-IsLater time wakeup (n.timestamp +ℤ c.show_age_threshold) l due)
        ]
  ]

  after_timeout-IsBy :
      (deadline : ℤ) (n : Notification) (wakeup : Option ℤ)
      → IsBy deadline wakeup
      → IsBy deadline (after_timeout n wakeup)
  unfolding after_timeout
  after_timeout-IsBy deadline n wakeup h = elim (Bool-cases (is_timed n)) [
    | inr a ↦ rw a h
    | inl a ↦ rw a (min_wakeup-IsBy deadline wakeup (n.start +ℤ n.timeout) h)
  ]

  after_timeout-now :
      (n : Notification) (wakeup : Option ℤ)
      → is_timed n ≡ true
      → IsBy (n.start +ℤ n.timeout) (after_timeout n wakeup)
  unfolding after_timeout
  after_timeout-now n wakeup timed = rw timed (min_wakeup-now wakeup (n.start +ℤ n.timeout))

  after_age-IsBy :
      (deadline : ℤ) (n : Notification) (wakeup : Option ℤ)
      → IsBy deadline wakeup
      → IsBy deadline (after_age c time n wakeup)
  unfolding after_age
  after_age-IsBy deadline n wakeup h = elim (Bool-cases (le_ℤ (pos 0) c.show_age_threshold)) [
    | inr a ↦ rw a h
    | inl a ↦ elim (Bool-cases (lt_ℤ (c.show_age_threshold -ℤ pos second) (time -ℤ n.timestamp))) [
      | inl b ↦ rw (a, b) (min_wakeup-IsBy deadline wakeup (next_second time) h)
      | inr b ↦ rw (a, b) (min_wakeup-IsBy deadline wakeup (n.timestamp +ℤ c.show_age_threshold) h)
    ]
  ]

  -- The rest of the loop, from a wakeup by a deadline that is not over.
  scan-by :
      (w : World) (deadline : ℤ) (ps : List ℕ) (wakeup : Option ℤ)
      → IsLater time wakeup
      → IsBy deadline wakeup
      → time ≤ℤ deadline
      → (time ≤ℤ scan c time w ps wakeup) × (scan c time w ps wakeup ≤ℤ deadline)
  unfolding scan
  scan-by w deadline [] none l b h = elim b [ ]
  scan-by w deadline [] (some t) l b h = (l, b)
  scan-by w deadline (p ∷ ps) none l b h = elim b [ ]
  scan-by w deadline (p ∷ ps) (some t) l b h =
      let n = w.heap p in
      elim (Bool-cases (is_timed n && not (lt_ℤ time (n.start +ℤ n.timeout)))) [
        | inl over ↦ rw over (omega arith, h)
        | inr later ↦
            let kept = after_timeout-IsLater n (some t) l later in
            rw later (
              scan-by w deadline ps _ (after_age-IsLater n _ kept)
                (after_age-IsBy deadline n _ (after_timeout-IsBy deadline n (some t) b)) h)
      ]

  scan_cons :
      (w : World) (p : ℕ) (ps : List ℕ) (wakeup : Option ℤ)
      → let n = w.heap p in
        scan c time w (p ∷ ps) wakeup ≡ (
          if is_timed n && not (lt_ℤ time (n.start +ℤ n.timeout))
          then time
          else scan c time w ps (after_age c time n (after_timeout n wakeup)))
  unfolding scan
  scan_cons w p ps none = refl
  scan_cons w p ps (some t) = refl

  scan-mem :
      (w : World) (p : ℕ) (ps : List ℕ) (wakeup : Option ℤ)
      → IsLater time wakeup
      → mem p ps ≡ true
      → is_timed (w.heap p) ≡ true
      → time ≤ℤ ((w.heap p).start +ℤ (w.heap p).timeout)
      → (time ≤ℤ scan c time w ps wakeup)
        × (scan c time w ps wakeup ≤ℤ ((w.heap p).start +ℤ (w.heap p).timeout))
  scan-mem w p [] wakeup l m timed due = cc m
  scan-mem w p (x ∷ ps) wakeup l m timed due =
      let n = w.heap x in
      let deadline = (w.heap p).start +ℤ (w.heap p).timeout in
      elim (Bool-cases (is_timed n && not (lt_ℤ time (n.start +ℤ n.timeout)))) [
        | inl over ↦ rw (scan_cons w x ps wakeup, over) (omega arith, due)
        | inr later ↦
            let kept = after_age-IsLater n _ (after_timeout-IsLater n wakeup l later) in
            elim (Bool-cases (x == p)) [
              | inl same ↦
                  let e = (==_iff x p).0 same in
                  let now : IsBy deadline (after_timeout n wakeup) =
                    subst
                      (λ q. IsBy ((w.heap q).start +ℤ (w.heap q).timeout) (after_timeout n wakeup))
                      e (after_timeout-now n wakeup (ap (λ q. is_timed (w.heap q)) e ∙ timed)) in
                  rw (scan_cons w x ps wakeup, later)
                    (scan-by w deadline ps _ kept (after_age-IsBy deadline n _ now) due)
              | inr other ↦
                  let rest : mem p ps ≡ true = ground (arith, m, other) in
                  rw (scan_cons w x ps wakeup, later) (scan-mem w p ps _ kept rest timed due)
            ]
      ]

  -- The main loop is told to wake up from the time on, and no later than any displayed notification
  -- that times out by itself and whose timeout is not over.
  pub queues_get_next_datachange-in_time :
      (w : World) (p : ℕ)
      → mem p w.displayed ≡ true
      → is_timed (w.heap p) ≡ true
      → time ≤ℤ ((w.heap p).start +ℤ (w.heap p).timeout)
      → let wakeup = queues_get_next_datachange c time w in
        (time ≤ℤ wakeup) × (wakeup ≤ℤ ((w.heap p).start +ℤ (w.heap p).timeout))
  unfolding queues_get_next_datachange
  queues_get_next_datachange-in_time w p m timed due = scan-mem w p w.displayed none _ m timed due
