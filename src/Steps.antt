-- ===== src/Steps.antt =====
-- The daemon between two turns of the main loop: what every handler leaves as it found it.
pub mod Actions
pub mod Reload
pub mod Marked
pub mod Received
pub mod Popped
pub mod Handled
pub mod Reach
use dunst.Base.{
  ℕ, suc, ℤ, pos, Bool, true, false, not, ◌&&◌, Option, none, some, List, [], ◌∷◌, tally,
  if◌then◌else◌, ◌≡◌, refl, sym, ap, ◌∙◌, inl, inr, Bool-cases, Option-cases, arith,
}
use dunst.World.{World, Env, Effect}
use dunst.Queues.Keep.{
  QueueLaws, held, Keeps, Keeps-refl, HasUniqueIds, Keeps-HasUniqueIds, IsQuiet, IsQuiet-Keeps,
}
use dunst.Queues.Keep.Update.Fill.{queues_update-Keeps}
use dunst.Daemon.{
  Outside, Daemon, RunReason, dunst_timer, dunst_wakeup, log, observe, cancel, schedule,
  show_queues, run, dispatch, wake_up, set_pause_level, signal_paused_propertieschanged,
  dunst_status_int, s_pause_level,
}
use dunst.Daemon.Timer.{OutsideLaws, IsTimed, wake_up-IsTimed, dispatch-IsTimed}

-- No id is shown or waiting twice, each pointer is in the three queues or among those given up as
-- often as it was received, and at most one timer exists, the one that the daemon knows.
pub record IsSound (received : List ℕ) (d : Daemon) : Type 0 where
  pub unique : HasUniqueIds d.world
  pub holds : (t : ℕ → Bool) → held t d.world ≡ tally t received
  pub timed : IsTimed d

module _ {received : List ℕ} where
  pub log-IsSound :
      (es : List Effect) (d : Daemon) → IsSound received d → IsSound received (log es d)
  log-IsSound es d s = record { unique = s.unique; holds = s.holds; timed = s.timed }

  pub IsSound-kept :
      (w : World) (d : Daemon)
      → Keeps d.world w
      → IsSound received d
      → IsSound received (record d { world = w })
  IsSound-kept w d k s = record {
    unique = Keeps-HasUniqueIds k s.unique;
    holds = λ t. k.holds t ∙ s.holds t;
    timed = s.timed;
  }

  pub IsSound-quiet :
      (w : World) (d : Daemon)
      → IsQuiet d.world w
      → IsSound received d
      → IsSound received (record d { world = w })
  IsSound-quiet w d q s = IsSound-kept w d (IsQuiet-Keeps q) s

  pub IsSound-if :
      (b : Bool) (d v : Daemon)
      → IsSound received d
      → IsSound received v
      → IsSound received (if b then d else v)
  IsSound-if true d v s t = s
  IsSound-if false d v s t = t

module _ (e : Env) (laws : QueueLaws e) (o : Outside) where
  -- Drawing, showing and setting the timer leave the queues alone.
  shown-Keeps :
      (now : ℤ) (w : World) (d : Daemon) → Keeps w d.world → Keeps w (show_queues e o now d).world
  unfolding show_queues schedule
  shown-Keeps now w d k = record {
    ids = λ p. ground (arith, k.ids p);
    holds = λ t. ground (arith, k.holds t);
    no_more = λ i. ground (arith, k.no_more i);
  }

  observe-Keeps :
      (now : ℤ) (d : Daemon) → HasUniqueIds d.world → Keeps d.world (observe e o now d).world
  unfolding observe
  observe-Keeps now d u =
      let r = suc d.world.reads in
      let k =
        (queues_update-Keeps e laws d.settings (observe e o now d).status now
          (record d.world { reads = r }) u).0 in
      record { ids = k.ids; holds = k.holds; no_more = k.no_more }

  run-Keeps :
      (reason : RunReason) (d : Daemon)
      → HasUniqueIds d.world
      → Keeps d.world (run e o reason d).world
  unfolding run cancel
  run-Keeps reason d u =
      let now = e.monotonic d.world.reads in
      shown-Keeps now d.world (cancel reason (observe e o now d)) (observe-Keeps now d u)

  woken : (d : Daemon) → HasUniqueIds d.world → Keeps d.world (wake_up e o d).world
  unfolding wake_up
  woken d u = elim (Bool-cases (not d.setup_done)) [
    | inl early ↦ rw early (Keeps-refl d.world)
    | inr ready ↦ rw ready (run-Keeps dunst_wakeup d u)
  ]

  module _ {received : List ℕ} (out : OutsideLaws o) where
    pub wake_up-IsSound : (d : Daemon) → IsSound received d → IsSound received (wake_up e o d)
    wake_up-IsSound d s = record {
      unique = Keeps-HasUniqueIds (woken d s.unique) s.unique;
      holds = λ t. (woken d s.unique).holds t ∙ s.holds t;
      timed = wake_up-IsTimed e o out d s.timed;
    }

    pub dispatch-IsSound :
        (d : Daemon) (i t : ℕ)
        → d.sources ≡ (i, t) ∷ []
        → IsSound received d
        → IsSound received (dispatch e o i d)
    dispatch-IsSound d i t h s =
        let k = run-Keeps dunst_timer d s.unique in
        record {
          unique = unfold dispatch in Keeps-HasUniqueIds k s.unique;
          holds = λ u. unfold dispatch in k.holds u ∙ s.holds u;
          timed = dispatch-IsTimed e o out d i t h;
        }

    -- The queues change, and the daemon wakes up.
    pub changed-IsSound :
        (w : World) (d : Daemon)
        → Keeps d.world w
        → IsSound received d
        → IsSound received (wake_up e o (record d { world = w }))
    changed-IsSound w d k s = wake_up-IsSound (record d { world = w }) (IsSound-kept w d k s)

    pub set_pause_level-IsSound :
        (level : ℤ) (d : Daemon)
        → IsSound received d
        → IsSound received (set_pause_level e o level d)
    unfolding set_pause_level signal_paused_propertieschanged
    set_pause_level-IsSound level d s =
        let given : IsSound received
            (record d { status = dunst_status_int s_pause_level level d.status }) =
          record { unique = s.unique; holds = s.holds; timed = s.timed } in
        let woken =
          wake_up-IsSound (record d { status = dunst_status_int s_pause_level level d.status })
            given in
        record { unique = woken.unique; holds = woken.holds; timed = woken.timed }
