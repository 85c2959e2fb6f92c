-- ===== src/Daemon/Timer.antt =====
-- The timer of src/dunst.c: the note "Timer gestion" at the head of `run`.
use dunst.Base.{
  ℕ, suc, ℤ, pos, not, List, [], ◌∷◌, ◌==◌, ◌≤◌, ◌<◌, ◌/◌, ◌%◌, ◌-ℤ◌, ◌<ℤ◌, ◌≤ℤ◌, negsuc, ◌*◌,
  pos_part, lt_ℤ, eq_ℤ, minus_one, length, if◌then◌else◌, ◌≡◌, ◌≢◌, refl, sym, subst, ◌∙◌, ◌⊎◌, inl,
  inr, ==_iff, Bool-cases, arith,
}
use dunst.World.{Env, drawn, window_shown}
use dunst.Queues.Wakeup.{queues_get_next_datachange}
use dunst.Daemon.{
  Outside, Daemon, log, dunst_timer, dunst_wakeup, g_source_remove, observe, cancel, schedule,
  show_queues, interval, run, dispatch, wake_up,
}

-- What GLib documents: the id of a new source is positive and none of those that exist.
pub record OutsideLaws (o : Outside) : Type 0 where
  pub positive : (s : List (ℕ × ℕ)) → o.g_timeout_add s ≢ 0
  pub fresh : (i t : ℕ) → o.g_timeout_add ((i, t) ∷ []) ≢ i

-- At most one timer exists, and `next_timeout_id` is its id, or 0 where there is none.
pub data HasTimer (i : ℕ) (s : List (ℕ × ℕ)) : Type 0 where
  idle : i ≡ 0 → s ≡ [] → HasTimer i s
  waiting : (t : ℕ) → i ≢ 0 → s ≡ (i, t) ∷ [] → HasTimer i s

abbrev pub IsTimed : Daemon → Type 0
IsTimed d = HasTimer d.next_timeout_id d.sources

g_source_remove_self : (i t : ℕ) (s : List (ℕ × ℕ)) → g_source_remove i ((i, t) ∷ s) ≡ s
unfolding g_source_remove
g_source_remove_self i t s = ground (arith, ==_iff i i)

g_source_remove_second :
    (i j t u : ℕ) → j ≢ i → g_source_remove i ((j, u) ∷ (i, t) ∷ []) ≡ (j, u) ∷ []
unfolding g_source_remove
g_source_remove_second i j t u h = ground (arith, ==_iff i i, ==_iff j i)

-- A new timer in front of the sources, or none.
abbrev Scheduled : Outside → List (ℕ × ℕ) → Daemon → Type 0
Scheduled o s d =
    ((d.next_timeout_id ≡ 0) × (d.sources ≡ s))
    ⊎ ((t : ℕ) × (d.next_timeout_id ≡ o.g_timeout_add s) × (d.sources ≡ (o.g_timeout_add s, t) ∷ s))

module _ (e : Env) (o : Outside) where
  schedule-Scheduled :
      (time : ℤ) (d : Daemon) → d.next_timeout_id ≡ 0 → Scheduled o d.sources (schedule e o time d)
  unfolding schedule
  schedule-Scheduled time d none_yet = elim (Bool-cases (eq_ℤ time minus_one)) [
    | inl never ↦ rw never (inl (none_yet, refl))
    | inr later ↦ rw later (inr (interval time (e.monotonic d.world.reads), refl, refl))
  ]

  show_queues-Scheduled :
      (now : ℤ) (d : Daemon) → d.next_timeout_id ≡ 0 → Scheduled o d.sources (show_queues e o now d)
  unfolding show_queues
  show_queues-Scheduled now d none_yet = elim (Bool-cases (length d.world.displayed == 0)) [
    | inl empty ↦ rw empty (inl (none_yet, refl))
    | inr shown ↦ rw shown (
        schedule-Scheduled (queues_get_next_datachange d.settings now d.world)
          (log (drawn ∷ window_shown ∷ []) d) none_yet)
  ]

  Scheduled-HasTimer : OutsideLaws o → (d : Daemon) → Scheduled o [] d → IsTimed d
  Scheduled-HasTimer laws d (inl (i, s)) = idle i s
  Scheduled-HasTimer laws d (inr (t, i, s)) = waiting t (λ z. laws.positive [] (sym i ∙ z)) (rw i s)

  -- What is left of the timer where `run` sets the next one.
  cancel-wakeup :
      (now : ℤ) (d : Daemon) → IsTimed d → (cancel dunst_wakeup (observe e o now d)).sources ≡ []
  unfolding cancel observe
  cancel-wakeup now d (idle i s) = rw (i, s) refl
  cancel-wakeup now d (waiting t i s) =
      rw s (ground (arith, g_source_remove_self d.next_timeout_id t [], ==_iff d.next_timeout_id 0))

  run-wakeup-IsTimed : OutsideLaws o → (d : Daemon) → IsTimed d → IsTimed (run e o dunst_wakeup d)
  unfolding run
  run-wakeup-IsTimed laws d h =
      let now = e.monotonic d.world.reads in
      let v = cancel dunst_wakeup (observe e o now d) in
      let at = show_queues-Scheduled now v (unfold cancel in refl) in
      Scheduled-HasTimer laws (show_queues e o now v)
        (subst (λ s. Scheduled o s (show_queues e o now v)) (cancel-wakeup now d h) at)

  Scheduled-removed :
      OutsideLaws o
      → (i t : ℕ) (d : Daemon) → Scheduled o ((i, t) ∷ []) d
      → IsTimed (record d { sources = g_source_remove i d.sources })
  Scheduled-removed laws i t d (inl (n, s)) = idle n (rw s (g_source_remove_self i t []))
  Scheduled-removed laws i t d (inr (u, n, s)) =
      waiting u (λ z. laws.positive ((i, t) ∷ []) (sym n ∙ z))
        (rw (s, n) (g_source_remove_second i (o.g_timeout_add ((i, t) ∷ [])) t u (laws.fresh i t)))

  run-timer-Scheduled : (d : Daemon) → Scheduled o d.sources (run e o dunst_timer d)
  unfolding run cancel observe
  run-timer-Scheduled d =
      let now = e.monotonic d.world.reads in
      show_queues-Scheduled now (cancel dunst_timer (observe e o now d)) refl

  pub wake_up-IsTimed : OutsideLaws o → (d : Daemon) → IsTimed d → IsTimed (wake_up e o d)
  unfolding wake_up
  wake_up-IsTimed laws d h = elim (Bool-cases (not d.setup_done)) [
    | inl early ↦ rw early h
    | inr ready ↦ rw ready (run-wakeup-IsTimed laws d h)
  ]

  pub dispatch-IsTimed :
      OutsideLaws o → (d : Daemon) (i t : ℕ) → d.sources ≡ (i, t) ∷ [] → IsTimed (dispatch e o i d)
  unfolding dispatch
  dispatch-IsTimed laws d i t s =
      Scheduled-removed laws i t (run e o dunst_timer d)
        (subst (λ q. Scheduled o q (run e o dunst_timer d)) s (run-timer-Scheduled d))

-- MAX(sleep, 1000), in microseconds.
abbrev pub at_least_1ms : ℤ → ℕ
at_least_1ms sleep = if lt_ℤ sleep (pos 1000) then 1000 else pos_part sleep

whole :
    (n : ℕ)
    → 1000 ≤ n
    → n < 4294967296000
    → (1 ≤ n / 1000 % 4294967296)
      × (n / 1000 % 4294967296 * 1000 ≤ n)
      × (n < suc (n / 1000 % 4294967296) * 1000)
whole n low high =
    let small : n / 1000 < 4294967296 = omega arith in
    let same : n / 1000 % 4294967296 ≡ n / 1000 = omega arith in
    rw same (omega arith, omega arith, omega arith)

at_least-bounds :
    (sleep : ℤ)
    → sleep <ℤ pos 4294967296000
    → (1000 ≤ at_least_1ms sleep)
      × (at_least_1ms sleep < 4294967296000)
      × (sleep ≤ℤ pos (at_least_1ms sleep))
at_least-bounds (pos n) h = ground arith
at_least-bounds (negsuc n) h = ground arith

-- The timer waits for at least a millisecond, and otherwise for the time that is left, cut down to
-- whole milliseconds, if that time is below 2 ^ 32 milliseconds.
pub interval-waits :
    (timeout_at now : ℤ)
    → timeout_at -ℤ now <ℤ pos 4294967296000
    → let t = interval timeout_at now in
      (1 ≤ t)
      × (t * 1000 ≤ at_least_1ms (timeout_at -ℤ now))
      × (timeout_at -ℤ now <ℤ pos (suc t * 1000))
unfolding interval
interval-waits timeout_at now h =
    let (low, high, below) = at_least-bounds (timeout_at -ℤ now) h in
    let (a, b, c) = whole (at_least_1ms (timeout_at -ℤ now)) low high in (a, b, omega arith)
