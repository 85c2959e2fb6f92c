-- ===== src/Dbus/Answers.antt =====
-- What the callers of src/dbus.c are told of the history, and what they change of the rules.
use mathlib.Core.List.{reverse-append}
use dunst.Base.{
  ℕ, zero, suc, ◌<◌, ◌≤◌, ℤ, pos, lt_ℤ, ◌||◌, ◌&&◌, Bool, true, false, not, Option-cases, none,
  some, is_some, List, [], ◌∷◌, ◌++◌, map, reverse, take, length, nth, some_eq, Str, CString,
  or_else, str_eq, str_eq_iff, if◌then◌else◌, ◌≡◌, refl, sym, ap, ◌∙◌, inl, inr, Bool-cases, arith,
}
use dunst.Notification.{Rule}
use dunst.Rules.{get_rule}
use dunst.World.{World, Dict, reply_dicts, reply_none}
use dunst.Daemon.{Daemon}
use dunst.Dbus.Handlers.{
  answer, history_entry, list_from, dbus_cb_dunst_NotificationListHistory, switched, switch_rule,
  dbus_cb_dunst_RuleEnable,
}

take-nth :
    (k : ℕ) (q : List ℕ)
    → k < length q
    → (p : ℕ) × ((nth q k ≡ some p) × (take (suc k) q ≡ take k q ++ p ∷ []))
unfolding nth
take-nth k [] h = absurd (omega arith)
take-nth zero (x ∷ q) h = (x, (refl, refl))
take-nth (suc k) (x ∷ q) h =
    let (p, (at, e)) = take-nth k q (omega arith) in (p, (at, ap (◌∷◌ x) e))

take-length : (q : List ℕ) → take (length q) q ≡ q
take-length [] = refl
take-length (x ∷ q) = ap (◌∷◌ x) (take-length q)

abbrev pub entries : World → List ℕ → List Dict
entries w q = map (λ p. history_entry (w.heap p)) q

list_from-take :
    (k : ℕ) (w : World)
    → k ≤ length w.history
    → list_from k w ≡ entries w (reverse (take k w.history))
unfolding list_from
list_from-take zero w h = refl
list_from-take (suc k) w h =
    let (p, (at, e)) = take-nth k w.history (omega arith) in
    rw (list_from, at)
      (ap (◌∷◌ (history_entry (w.heap p))) (list_from-take k w (omega arith))
        ∙ sym (ap (entries w) (ap reverse e ∙ reverse-append (take k w.history) (p ∷ []))))

-- The list of the history is the whole history, newest first.
pub NotificationListHistory-entries :
    (d : Daemon)
    → dbus_cb_dunst_NotificationListHistory d
      ≡ answer (reply_dicts (entries d.world (reverse d.world.history))) d
unfolding dbus_cb_dunst_NotificationListHistory
NotificationListHistory-entries d =
    let w = d.world in
    ap (λ r. answer (reply_dicts r) d)
      (list_from-take (length w.history) w (omega arith)
        ∙ ap (λ q. entries w (reverse q)) (take-length w.history))

-- A name as a rule has it.
abbrev named : Str → Rule → Bool
named name r = is_some r.name && str_eq (or_else r.name []) name

switch_rule_self :
    (name : Str) (state : ℤ) (rules : List Rule) (r : Rule)
    → get_rule name rules ≡ some r
    → get_rule name (switch_rule name state rules)
      ≡ some (record r { enabled = switched state r.enabled })
unfolding get_rule switch_rule
switch_rule_self name state [] r h = cc
switch_rule_self name state (x ∷ rules) r h = elim (Bool-cases (named name x)) [
  | inl here ↦
      let found : get_rule name (x ∷ rules) ≡ some x = rw (get_rule, here) refl in
      let e : x ≡ r = some_eq (sym found ∙ h) in
      rw (switch_rule, here)
        (rw here (ap (λ (y : Rule). some (record y { enabled = switched state y.enabled })) e))
  | inr there ↦
      let skipped : get_rule name (x ∷ rules) ≡ get_rule name rules = rw (get_rule, there) refl in
      let later = sym skipped ∙ h in
      rw (switch_rule, there) (rw there (switch_rule_self name state rules r later))
]

-- The name of a rule is one name.
other_name :
    (name other : Str) (r : Rule)
    → str_eq name other ≡ false
    → named name r ≡ true
    → named other r ≡ false
other_name name other r h k = one r.name k
  where
    one :
        (o : CString)
        → (is_some o && str_eq (or_else o []) name) ≡ true
        → (is_some o && str_eq (or_else o []) other) ≡ false
    one none k = refl
    one (some s) k = elim (Bool-cases (str_eq s other)) [
      | inr differs ↦ differs
      | inl same ↦
          let e : name ≡ other = sym ((str_eq_iff s name).0 k) ∙ (str_eq_iff s other).0 same in
          absurd (ground (arith, h, (str_eq_iff name other).1 e))
    ]

switch_rule_other :
    (name other : Str) (state : ℤ) (rules : List Rule)
    → str_eq name other ≡ false
    → get_rule other (switch_rule name state rules) ≡ get_rule other rules
unfolding get_rule switch_rule
switch_rule_other name other state [] h = refl
switch_rule_other name other state (x ∷ rules) h = elim (Bool-cases (named name x)) [
  | inl here ↦ rw (switch_rule, here) (rw (other_name name other x h here) refl)
  | inr there ↦
      rw (switch_rule, there)
        (ap (λ g. if named other x then some x else g) (switch_rule_other name other state rules h))
]

-- The rules after RuleEnable, with the state written out.
enable_known :
    (name : Str) (state : ℤ) (d : Daemon) (r : Rule)
    → (lt_ℤ state (pos 0) || lt_ℤ (pos 2) state) ≡ false
    → get_rule name d.rules ≡ some r
    → get_rule name (dbus_cb_dunst_RuleEnable name state d).rules
      ≡ some (record r { enabled = switched state r.enabled })
unfolding dbus_cb_dunst_RuleEnable
enable_known name state d r valid here =
    let v = answer reply_none (record d { rules = switch_rule name state d.rules }) in
    let done : dbus_cb_dunst_RuleEnable name state d ≡ v =
      rw (dbus_cb_dunst_RuleEnable, valid) (rw here refl) in
    ap (λ u. get_rule name u.rules) done ∙ switch_rule_self name state d.rules r here

enable_other :
    (name other : Str) (state : ℤ) (d : Daemon)
    → str_eq name other ≡ false
    → get_rule other (dbus_cb_dunst_RuleEnable name state d).rules ≡ get_rule other d.rules
unfolding dbus_cb_dunst_RuleEnable
enable_other name other state d differs =
    elim (Bool-cases (lt_ℤ state (pos 0) || lt_ℤ (pos 2) state)) [
      | inl refused ↦ rw (dbus_cb_dunst_RuleEnable, refused) refl
      | inr valid ↦ elim (Option-cases (get_rule name d.rules)) [
        | inl missing ↦ rw (dbus_cb_dunst_RuleEnable, valid, missing) refl
        | inr (r, here) ↦
            rw (dbus_cb_dunst_RuleEnable, valid, here)
              (switch_rule_other name other state d.rules differs)
      ]
    ]

-- For the name of a rule, the state 0 disables the first rule of that name, 1 enables it and 2
-- toggles it, and the rest of the rule is kept; what any other name finds does not change, whatever
-- the state.
pub RuleEnable-get_rule :
    (name other : Str) (state : ℤ) (d : Daemon) (r : Rule)
    → get_rule name d.rules ≡ some r
    → str_eq name other ≡ false
    → (get_rule name (dbus_cb_dunst_RuleEnable name (pos 0) d).rules
        ≡ some (record r { enabled = false }))
      × (get_rule name (dbus_cb_dunst_RuleEnable name (pos 1) d).rules
          ≡ some (record r { enabled = true }))
      × (get_rule name (dbus_cb_dunst_RuleEnable name (pos 2) d).rules
          ≡ some (record r { enabled = not r.enabled }))
      × (get_rule other (dbus_cb_dunst_RuleEnable name state d).rules ≡ get_rule other d.rules)
RuleEnable-get_rule name other state d r here differs = (
  enable_known name (pos 0) d r refl here,
  enable_known name (pos 1) d r refl here,
  enable_known name (pos 2) d r refl here,
  enable_other name other state d differs,
)
