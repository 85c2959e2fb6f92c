-- ===== src/Tests.antt =====
-- Runs of the model at concrete inputs, and each theorem with hypotheses at one input where they
-- hold. The data are in the children.
mod Data
mod Text
mod Daemon
mod Options
use dunst.Base.{
  ℕ, suc, ◌+◌, ◌-◌, ◌≤◌, ◌<◌, ◌^◌, ℤ, pos, minus_one, ◌<ℤ◌, ◌≤ℤ◌, ◌+ℤ◌, ◌-ℤ◌, Bool, true, false,
  ◌&&◌, none, some, List, [], ◌∷◌, length, pos_part, ltb, if◌then◌else◌, codes, weight, ◌==◌, ◌≡◌,
  refl, arith,
}
use dunst.Settings.{sort_type_id, sort_type_urgency_descending, sort_type_update}
use dunst.Notification.{Notification, Rule, empty_rule}
use dunst.Notification.Order.{notification_cmp}
use dunst.Notification.Compare.{notification_cmp-newest, notification_cmp-wraps}
use dunst.World.{World, signal_notification_closed, notification_run_script}
use dunst.Queues.{queues_notification_is_ready, queues_notification_is_finished, find}
use dunst.Queues.Close.{
  queues_notification_close, queues_notification_close_id, queues_notification_remove,
}
use dunst.Queues.Insert.{queues_notification_insert}
use dunst.Queues.Update.{queues_update, retire, retire_one, candidate, seep, seep_rounds}
use dunst.Queues.Keep.{Keeps, HasUniqueIds, held}
use dunst.Queues.Keep.Close.{queues_notification_close_id-Keeps, queues_notification_remove-Keeps}
use dunst.Queues.Keep.Update.Fill.{queues_update-Keeps}
use dunst.Queues.Keep.Insert.Place.{Entered, queues_notification_insert-Entered}
use dunst.Queues.History.{queues_history_push_all, queues_history_pop, queues_history_pop_by_id}
use dunst.Queues.Keep.Popped.{
  CameBack, queues_history_pop-CameBack, queues_history_pop_by_id-CameBack,
}
use dunst.Queues.Keep.History.{queues_history_push_all-empties}
use dunst.Queues.Wakeup.{queues_get_next_datachange, queues_get_next_datachange-in_time}
use dunst.Queues.Limit.{queues_update-limit}
use dunst.Queues.Bound.{close_id-IsBounded, close_id-loses}
use dunst.Rules.{rule_apply}
use dunst.Rules.Restore.{IsRestored, first_saved, rule_apply-restores}
use dunst.Utils.{string_replace_all}
use dunst.Utils.Replace.{substitute, string_replace_all-substitute}
use dunst.Markup.{markup_quote}
use dunst.Markup.Quote.{entities, markup_quote-entities}
use Data.{env, env_laws, settings, sample, stored, world, calm}

-- The time of pointer 3 is over; 5 is more urgent than 4 and comes first.
update_run :
    let w = queues_update env (settings sort_type_urgency_descending 2) calm (pos 9) world in
    (w.displayed ≡ 5 ∷ 4 ∷ []) × (w.waiting ≡ []) × (w.history ≡ 6 ∷ 3 ∷ [])
unfolding queues_update retire_one queues_notification_is_finished ◌-ℤ◌ queues_notification_close
    find signal_notification_closed queues_notification_is_ready notification_run_script
    notification_cmp
update_run = (refl, refl, refl)

world-HasUniqueIds : HasUniqueIds world
world-HasUniqueIds i = ground arith

queues_update-Keeps_example :
    let c = settings sort_type_urgency_descending 2 in
    Keeps world (queues_update env c calm (pos 9) world)
    × HasUniqueIds (queues_update env c calm (pos 9) world)
queues_update-Keeps_example =
    queues_update-Keeps env env_laws (settings sort_type_urgency_descending 2) calm (pos 9) world
      world-HasUniqueIds

queues_notification_insert-Entered_example :
    Entered env env_laws
      (settings sort_type_urgency_descending 2)
      7
      world
      (queues_notification_insert env (settings sort_type_urgency_descending 2) calm 7 world).1
unfolding ◌+ℤ◌
queues_notification_insert-Entered_example =
    queues_notification_insert-Entered env env_laws (settings sort_type_urgency_descending 2) 7 calm
      world world-HasUniqueIds refl refl refl (λ h. refl)

queues_update-limit_example :
    let c = settings sort_type_urgency_descending 2 in
    let left = retire env c calm (pos 9) world.displayed world in
    length (queues_update env c calm (pos 9) world).displayed
    ≤ (if true && ltb 1 2 && ltb 2 (length left.displayed + length left.waiting) then 1 else 2)
queues_update-limit_example =
    queues_update-limit env env_laws (settings sort_type_urgency_descending 2) calm (pos 9) world
      (λ h. absurd (omega arith))

queues_notification_close_id-Keeps_example :
    Keeps world (queues_notification_close_id (settings sort_type_id 2) (pos 4) 3 world)
queues_notification_close_id-Keeps_example =
    queues_notification_close_id-Keeps (settings sort_type_id 2) (pos 4) 3 world world-HasUniqueIds

queues_notification_remove-Keeps_example :
    Keeps world (queues_notification_remove (settings sort_type_id 2) 3 2 world)
queues_notification_remove-Keeps_example =
    queues_notification_remove-Keeps (settings sort_type_id 2) 3 2 world world-HasUniqueIds

-- A history that is full.
abbrev full_world : World
full_world = record world { waiting = []; history = 4 ∷ 6 ∷ [] }

close_id-IsBounded_example :
    length (queues_notification_close_id (settings sort_type_id 2) (pos 3) 3 full_world).history ≤ 2
close_id-IsBounded_example =
    close_id-IsBounded (settings sort_type_id 2) refl (pos 3) 3 full_world (omega arith)

-- The id 4 is shown and waiting.
abbrev doubled_world : World
doubled_world = record world { heap = λ p. if p == 3 then sample 4 1 else stored p }

close_id-loses_example :
    let w = queues_notification_close_id (settings sort_type_id 2) (pos 4) 3 doubled_world in
    held (λ p. p == 3) w + weight (λ p. p == 3) 3 ≡ held (λ p. p == 3) doubled_world
close_id-loses_example =
    close_id-loses (settings sort_type_id 2) (pos 4) 3 doubled_world 3 4 (unfold find in refl)
      (unfold find in refl) (λ p. p == 3)

-- The head of the waiting queue is paused, the more urgent one behind it is not.
abbrev paused_world : World
paused_world = record world {
  waiting = 4 ∷ 5 ∷ [];
  heap = λ p. if p == 5 then record (sample 5 2) { override_pause_level = pos 9 } else stored p;
}

-- The head is paused, so the more urgent notification behind it is not looked at.
paused_head : candidate (record calm { pause_level = pos 5 }) paused_world ≡ none
unfolding candidate queues_notification_is_ready
paused_head = refl

-- An update may leave the displayed queue unsorted; three exchanges follow.
abbrev unsorted_world : World
unsorted_world = record world {
  displayed = 5 ∷ 6 ∷ 7 ∷ [];
  waiting = 4 ∷ [];
  history = [];
  heap = λ p.
      if p == 5
      then sample 5 0
      else if p == 6
      then sample 6 1
      else (if p == 7 then sample 7 2 else sample 4 2);
}

unsorted_run :
    (seep
      (seep_rounds unsorted_world)
      env
      (settings sort_type_urgency_descending 3)
      calm
      (pos 9)
      unsorted_world).displayed
    ≡ 4 ∷ 7 ∷ 6 ∷ []
unfolding seep seep_rounds queues_notification_is_ready ◌-ℤ◌ notification_cmp
    notification_run_script
unsorted_run = refl

abbrev sent_at : ℕ → Notification
sent_at time = record (sample 3 1) { timestamp = pos time }

notification_cmp-newest_example :
    pos 0 <ℤ notification_cmp (settings sort_type_update 2) (sent_at 5) (sent_at 905)
notification_cmp-newest_example =
    notification_cmp-newest (settings sort_type_update 2) (sent_at 5) (sent_at 905) 900 refl refl
      (unfold ◌-ℤ◌ in refl) (omega arith) (omega arith)

-- 40 minutes later.
notification_cmp-wraps_example :
    notification_cmp (settings sort_type_update 2) (sent_at 5) (sent_at 2400000005) <ℤ pos 0
notification_cmp-wraps_example =
    notification_cmp-wraps (settings sort_type_update 2) (sent_at 5) (sent_at 2400000005) 2400000000
      refl refl (unfold ◌-ℤ◌ in refl) (omega arith) (omega arith)

abbrev urgent_rule : Rule
urgent_rule = record empty_rule { urgency = pos 2; timeout = pos 0; set_transient = pos 1 }

rule_apply-restores_example :
    let changed = rule_apply env (pos 1) urgent_rule (sample 3 1) true in
    (changed.original ≡ some (first_saved urgent_rule (sample 3 1)))
    × IsRestored urgent_rule
        (sample 3 1)
        (rule_apply env (pos 2) (first_saved urgent_rule (sample 3 1)) changed false)
rule_apply-restores_example = rule_apply-restores env (pos 1) (pos 2) urgent_rule (sample 3 1) refl

queues_history_push_all-empties_example :
    let v = queues_history_push_all (settings sort_type_id 2) world in
    (v.displayed ≡ []) × (v.waiting ≡ []) × Keeps world v
queues_history_push_all-empties_example =
    queues_history_push_all-empties (settings sort_type_id 2) world world-HasUniqueIds

queues_history_pop-CameBack_example :
    CameBack 6 [] world (queues_history_pop env (settings sort_type_id 2) world)
queues_history_pop-CameBack_example =
    queues_history_pop-CameBack env env_laws (settings sort_type_id 2) world [] 6 refl

queues_history_pop_by_id-CameBack_example :
    CameBack 6 [] world (queues_history_pop_by_id env (settings sort_type_id 2) (pos 6) world)
queues_history_pop_by_id-CameBack_example =
    queues_history_pop_by_id-CameBack env env_laws (settings sort_type_id 2) (pos 6) world [] 6 []
      refl (unfold find in refl) refl

queues_get_next_datachange-in_time_example :
    let wakeup = queues_get_next_datachange (settings sort_type_id 2) (pos 0) world in
    (pos 0 ≤ℤ wakeup) × (wakeup ≤ℤ (pos 0 +ℤ pos 1))
queues_get_next_datachange-in_time_example =
    queues_get_next_datachange-in_time (settings sort_type_id 2) (pos 0) world 3 refl refl
      (unfold ◌+ℤ◌ in omega arith)
