-- ===== src/Steps/Reload.antt =====
-- A reload (src/dunst.c) between two turns of the main loop: the rules change no id.
use dunst.Base.{
  ℕ, suc, ℤ, pos, Bool, true, false, is_some, List, [], ◌∷◌, ◌++◌, ◌≡◌, refl, ◌∙◌, inl, inr,
  Bool-cases, Option-cases,
}
use dunst.Settings.{Settings}
use dunst.Notification.{Notification, Rule}
use dunst.World.{World, Env, modify}
use dunst.Rules.{
  Matchers, rule_matches_notification, set_properties, set_icon, rule_apply, rule_apply_all,
  reapply_rules, reapply_queue, queues_reapply_all_rules,
}
use dunst.Queues.Keep.{QueueLaws, IsQuiet, IsQuiet-trans}
use dunst.Queues.Keep.Quiet.{modify-IsQuiet, IsQuiet-refl, replace_path-id}
use dunst.Daemon.{
  Outside, Daemon, pause_signal, unpause_signal, set_pause_level, max_pause_level, reloaded, reload,
}
use dunst.Daemon.Timer.{OutsideLaws}
use dunst.Steps.{IsSound, IsSound-quiet, set_pause_level-IsSound}

set_icon-id : (e : Env) (now : ℤ) (r : Rule) (n : Notification) → (set_icon e now r n).id ≡ n.id
unfolding set_icon
set_icon-id e now r n = elim (Bool-cases (is_some r.new_icon)) [
  | inl given ↦ rw given (replace_path-id e r.new_icon now n)
  | inr none_given ↦ rw none_given refl
]

rule_apply-id :
    (e : Env) (now : ℤ) (r : Rule) (n : Notification) (save : Bool)
    → (rule_apply e now r n save).id ≡ n.id
unfolding rule_apply set_properties
rule_apply-id e now r n save = set_icon-id e now r (set_properties r n)

rule_apply_all-id :
    (e : Env) (c : Settings) (m : Matchers) (now : ℤ) (rules : List Rule) (n : Notification)
    → (rule_apply_all e c m now rules n).id ≡ n.id
unfolding rule_apply_all
rule_apply_all-id e c m now [] n = refl
rule_apply_all-id e c m now (r ∷ rules) n = elim (Bool-cases (rule_matches_notification c m r n)) [
  | inl hit ↦
      rw (rule_apply_all, hit)
        (rule_apply_all-id e c m now rules (rule_apply e now r n true)
          ∙ rule_apply-id e now r n true)
  | inr miss ↦ rw (rule_apply_all, miss) (rule_apply_all-id e c m now rules n)
]

reapply_rules-id :
    (e : Env) (c : Settings) (m : Matchers) (now : ℤ) (rules : List Rule) (n : Notification)
    → (reapply_rules e c m now rules n).id ≡ n.id
unfolding reapply_rules
reapply_rules-id e c m now rules n = elim (Option-cases n.original) [
  | inl absent ↦ rw (reapply_rules, absent) (rule_apply_all-id e c m now rules n)
  | inr (o, here) ↦
      rw (reapply_rules, here)
        (rule_apply_all-id e c m now rules (rule_apply e now o n false)
          ∙ rule_apply-id e now o n false)
]

reapply_queue-IsQuiet :
    (e : Env) (c : Settings) (m : Matchers) (rules : List Rule) (q : List ℕ) (w : World)
    → IsQuiet w (reapply_queue e c m rules q w)
unfolding reapply_queue
reapply_queue-IsQuiet e c m rules [] w = IsQuiet-refl w
reapply_queue-IsQuiet e c m rules (p ∷ rest) w =
    let f = reapply_rules e c m (e.wall w.reads) rules in
    let quiet = modify-IsQuiet p f w (reapply_rules-id e c m (e.wall w.reads) rules) in
    let v = modify p f (record w { reads = suc w.reads }) in
    let first : IsQuiet w v = record {
      ids = quiet.ids;
      displayed = refl;
      waiting = refl;
      history = refl;
      unreferenced = refl;
    } in
    IsQuiet-trans first (reapply_queue-IsQuiet e c m rules rest v)

module _ (e : Env) (laws : QueueLaws e) (o : Outside) (out : OutsideLaws o)
    {received : List ℕ} where
  pub reload-IsSound :
      (m : Matchers) (load : Settings × List Rule) (d : Daemon)
      → IsSound received d
      → IsSound received (reload e o m load d)
  unfolding reload reloaded pause_signal unpause_signal queues_reapply_all_rules
  reload-IsSound m load d s =
      let v = set_pause_level e o max_pause_level d in
      let paused = set_pause_level-IsSound e laws o out max_pause_level d s in
      let u = record v { settings = load.0; rules = load.1; setup_done = true } in
      let w = queues_reapply_all_rules e load.0 m load.1 u.world in
      let loaded : IsSound received u = record {
        unique = paused.unique;
        holds = paused.holds;
        timed = paused.timed;
      } in
      set_pause_level-IsSound e laws o out (pos 0) (record u { world = w })
        (IsSound-quiet w u
          (reapply_queue-IsQuiet e load.0 m load.1
            (v.world.displayed ++ (v.world.waiting ++ v.world.history)) v.world)
          loaded)
