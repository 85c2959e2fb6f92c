-- ===== src/Dbus/Levels.antt =====
-- The pause level, as src/dbus.c sets and reads it and src/dunst.c keeps it.
use dunst.Base.{
  ℕ, ◌<◌, ◌≤◌, ◌%◌, ℤ, pos, to_int, to_int-small, le_ℤ, eq_ℤ, ltb, true, false, not, some, [], ◌∷◌,
  codes, str_eq, ◌==◌, if◌then◌else◌, ◌≡◌, refl, ap, ◌∙◌, inl, inr, Bool-cases, arith, length,
}
use dunst.World.{Env, drawn, window_shown}
use dunst.Queues.Wakeup.{queues_get_next_datachange}
use dunst.Daemon.{
  Outside, Daemon, RunReason, dunst_status, dunst_status_int, observe, cancel, schedule,
  show_queues, run, wake_up, set_pause_level, signal_paused_propertieschanged, log, dunst_wakeup,
}
use dunst.Dbus.Handlers.{
  property_bool, property_uint, dbus_cb_dunst_Properties_Get, dbus_cb_dunst_Properties_Set,
  target_pause_level,
}

abbrev level : Daemon → ℤ
level d = d.status.pause_level

module _ (e : Env) (o : Outside) where
  schedule-level : (time : ℤ) (d : Daemon) → level (schedule e o time d) ≡ level d
  unfolding schedule
  schedule-level time d = ground arith

  show_queues-level : (now : ℤ) (d : Daemon) → level (show_queues e o now d) ≡ level d
  unfolding show_queues
  show_queues-level now d = elim (Bool-cases (length d.world.displayed == 0)) [
    | inl empty ↦ rw empty refl
    | inr shown ↦ rw shown (
        schedule-level (queues_get_next_datachange d.settings now d.world)
          (log (drawn ∷ window_shown ∷ []) d))
  ]

  run-level : (reason : RunReason) (d : Daemon) → level (run e o reason d) ≡ level d
  unfolding run cancel observe dunst_status
  run-level reason d =
      let now = e.monotonic d.world.reads in
      show_queues-level now (cancel reason (observe e o now d))

  wake_up-level : (d : Daemon) → level (wake_up e o d) ≡ level d
  unfolding wake_up
  wake_up-level d = elim (Bool-cases (not d.setup_done)) [
    | inl early ↦ rw early refl
    | inr ready ↦ rw ready (run-level dunst_wakeup d)
  ]

  set_pause_level-level : (l : ℤ) (d : Daemon) → level (set_pause_level e o l d) ≡ l
  unfolding set_pause_level signal_paused_propertieschanged dunst_status_int
  set_pause_level-level l d =
      wake_up-level (record d { status = record d.status { pause_level = l } })

  is_zero : (k : ℕ) → eq_ℤ (pos k) (pos 0) ≡ (k == 0)
  is_zero k = ground arith

  pause_level_target :
      (n : ℕ)
      → n < 2147483648
      → target_pause_level (codes "pauseLevel") (property_uint n)
        ≡ pos (if ltb 100 n then 100 else n)
  unfolding target_pause_level str_eq to_int
  pause_level_target n h = rw (to_int-small n h) (ground arith)

  get_level :
      (d : Daemon) (k : ℕ)
      → k ≤ 100
      → d.status.pause_level ≡ pos k
      → (dbus_cb_dunst_Properties_Get (codes "pauseLevel") d ≡ some (property_uint k))
        × (dbus_cb_dunst_Properties_Get (codes "paused") d ≡ some (property_bool (not (k == 0))))
  unfolding dbus_cb_dunst_Properties_Get str_eq
  get_level d k small h =
      let fits : k % 4294967296 ≡ k = omega arith in
      (
        rw h (ap (λ u. some (property_uint u)) fits),
        rw h (ap (λ b. some (property_bool (not b))) (is_zero k)),
      )

  -- A pause level below 2 ^ 31 that is set, cut down to 100, is the level that is read afterwards,
  -- and `paused` says whether it is not 0.
  pub Properties_Set-Properties_Get :
      (n : ℕ) (d : Daemon)
      → n < 2147483648
      → let k = if ltb 100 n then 100 else n in
        let r = dbus_cb_dunst_Properties_Set e o (codes "pauseLevel") (property_uint n) d in
        (r.0 ≡ true)
        × (dbus_cb_dunst_Properties_Get (codes "pauseLevel") r.1 ≡ some (property_uint k))
        × (dbus_cb_dunst_Properties_Get (codes "paused") r.1 ≡ some (property_bool (not (k == 0))))
  unfolding dbus_cb_dunst_Properties_Set
  Properties_Set-Properties_Get n d h =
      let k = if ltb 100 n then 100 else n in
      let small : k ≤ 100 = ground arith in
      let known : le_ℤ (pos 0) (pos k) ≡ true = ground arith in
      let done : dbus_cb_dunst_Properties_Set e o (codes "pauseLevel") (property_uint n) d
          ≡ (true, set_pause_level e o (pos k) d) =
        ap (λ z. if le_ℤ (pos 0) z then (true, set_pause_level e o z d) else (false, d))
          (pause_level_target n h)
        ∙ rw known refl in
      let (value, paused) =
        get_level (set_pause_level e o (pos k) d) k small (set_pause_level-level (pos k) d) in
      (
        ap (λ r. r.0) done,
        ap (λ r. dbus_cb_dunst_Properties_Get (codes "pauseLevel") r.1) done ∙ value,
        ap (λ r. dbus_cb_dunst_Properties_Get (codes "paused") r.1) done ∙ paused,
      )
