-- ===== src/Queues/Keep/Popped.antt =====
-- The pops of the history, src/queues.c.
use dunst.Base.{
  false, Bool-cases, ◌++◌, ◌==◌, ℕ, ◌+◌, ℤ, pos, Bool, true, none, some, Option-cases, List, [],
  ◌∷◌, drop_last, erase, tally, tally-erase, tally-perm, weight, if◌then◌else◌, ==_iff, ◌≡◌, refl,
  sym, subst, ap, ◌∙◌, inl, inr, arith,
}
use dunst.Settings.{Settings}
use dunst.World.{World, Env, modify}
use dunst.Queues.{find, has_id, cmp_data}
use dunst.Queues.History.{redisplay, peek_tail, queues_history_pop, queues_history_pop_by_id}
use dunst.Queues.Keep.{QueueLaws, held}
use dunst.Queues.Keep.Close.{find-mem}
use dunst.Queues.Keep.History.{erase_head}

-- `p` came back from the history, where `left` is what remains: it waits, marked as shown again, and
-- nothing else moved.
pub record CameBack (p : ℕ) (left : List ℕ) (w v : World) : Type 0 where
  pub history : v.history ≡ left
  pub waiting : (t : ℕ → Bool) → tally t v.waiting ≡ tally t w.waiting + weight t p
  pub displayed : v.displayed ≡ w.displayed
  pub unreferenced : v.unreferenced ≡ w.unreferenced
  pub redisplayed : (v.heap p).redisplayed ≡ true
  pub untouched : (q : ℕ) → (q == p) ≡ false → v.heap q ≡ w.heap q

peek_tail_last : (older : List ℕ) (p : ℕ) → peek_tail (older ++ p ∷ []) ≡ some p
unfolding peek_tail
peek_tail_last [] p = refl
peek_tail_last (x ∷ []) p = refl
peek_tail_last (x ∷ y ∷ older) p = peek_tail_last (y ∷ older) p

drop_last_last : (older : List ℕ) (p : ℕ) → drop_last (older ++ p ∷ []) ≡ older
drop_last_last [] p = refl
drop_last_last (x ∷ []) p = refl
drop_last_last (x ∷ y ∷ older) p = ap (◌∷◌ x) (drop_last_last (y ∷ older) p)

apart : (t : ℕ → Bool) (x p : ℕ) → t x ≡ false → t p ≡ true → (x == p) ≡ false
apart t x p h k = elim (Bool-cases (x == p)) [
  | inl same ↦ let e : t x ≡ t p = ap t ((==_iff x p).0 same) in absurd (cc (h, k, e))
  | inr differ ↦ differ
]

-- The first element that passes the test is found, and erasing it leaves the others in place.
find_first :
    (t : ℕ → Bool) (newer : List ℕ) (p : ℕ) (older : List ℕ)
    → find t newer ≡ none
    → t p ≡ true
    → (find t (newer ++ p ∷ older) ≡ some p) × (erase p (newer ++ p ∷ older) ≡ newer ++ older)
unfolding find
find_first t [] p older h k = (rw k refl, erase_head p older)
find_first t (x ∷ newer) p older h k = elim (Bool-cases (t x)) [
  | inl here ↦ absurd (ground arith)
  | inr there ↦
      let later : find t newer ≡ none = ground arith in
      let (found, left) = find_first t newer p older later k in
      (rw there found, rw (apart t x p there k, left) refl)
]

module _ (e : Env) (laws : QueueLaws e) (c : Settings) where
  -- What a pop gives back waits: it is in the three queues as often as before.
  redisplay-held :
      (p : ℕ) (w : World) (t : ℕ → Bool) → held t (redisplay e c p w) ≡ held t w + weight t p
  unfolding redisplay
  redisplay-held p w t =
      let v =
        modify p
          (λ n. record n {
            redisplayed = true;
            timeout = if c.sticky_history then pos 0 else n.timeout;
          })
          w in
      omega (arith, tally-perm t (laws.insert_sorted-perm (cmp_data c v) p w.waiting))

  drop_last-tally :
      (q : List ℕ) (p : ℕ) (t : ℕ → Bool)
      → peek_tail q ≡ some p
      → tally t (drop_last q) + weight t p ≡ tally t q
  unfolding peek_tail
  drop_last-tally [] p t h = cc
  drop_last-tally (x ∷ []) p t h = ground arith
  drop_last-tally (x ∷ y ∷ q) p t h = omega (arith, drop_last-tally (y ∷ q) p t h)

  -- A pop, of the newest entry or of an id, loses no pointer.
  pub queues_history_pop-held :
      (i : ℤ) (w : World) (t : ℕ → Bool)
      → (held t (queues_history_pop e c w) ≡ held t w)
        × (held t (queues_history_pop_by_id e c i w) ≡ held t w)
  unfolding queues_history_pop queues_history_pop_by_id
  queues_history_pop-held i w t = (
    elim (Option-cases (peek_tail w.history)) [
      | inl h ↦ rw (h, queues_history_pop) refl
      | inr (p, h) ↦
          rw (h, queues_history_pop)
            (redisplay-held p (record w { history = drop_last w.history }) t
              ∙ omega (arith, drop_last-tally w.history p t h))
    ],
    elim (Option-cases (find (has_id w i) w.history)) [
      | inl h ↦ rw (h, queues_history_pop_by_id) refl
      | inr (p, h) ↦
          rw (h, queues_history_pop_by_id)
            (redisplay-held p (record w { history = erase p w.history }) t
              ∙ omega (arith, tally-erase t p w.history (find-mem (has_id w i) w.history p h).1))
    ],
  )

  redisplay-CameBack :
      (p : ℕ) (left : List ℕ) (w : World)
      → CameBack p left w (redisplay e c p (record w { history = left }))
  unfolding redisplay
  redisplay-CameBack p left w =
      let v =
        modify p
          (λ n. record n {
            redisplayed = true;
            timeout = if c.sticky_history then pos 0 else n.timeout;
          })
          (record w { history = left }) in
      record {
        history = refl;
        waiting =
            λ t. omega (arith, tally-perm t (laws.insert_sorted-perm (cmp_data c v) p w.waiting));
        displayed = refl;
        unreferenced = refl;
        redisplayed = rw ((==_iff p p).1 refl) refl;
        untouched = λ q h. rw h refl;
      }

  -- A pop takes the last entry of the history, which is the newest, and puts it among those that
  -- wait, marked as shown again; what is displayed, the other entries and what was given up stay.
  pub queues_history_pop-CameBack :
      (w : World) (older : List ℕ) (p : ℕ)
      → w.history ≡ older ++ p ∷ []
      → CameBack p older w (queues_history_pop e c w)
  unfolding queues_history_pop
  queues_history_pop-CameBack w older p h =
      let tail : peek_tail w.history ≡ some p = ap peek_tail h ∙ peek_tail_last older p in
      let rest : drop_last w.history ≡ older = ap drop_last h ∙ drop_last_last older p in
      let popped : queues_history_pop e c w ≡ redisplay e c p (record w { history = older }) =
        rw (queues_history_pop, tail) (ap (λ q. redisplay e c p (record w { history = q })) rest) in
      subst (CameBack p older w) (sym popped) (redisplay-CameBack p older w)

  -- A pop of an id takes the first entry of that id out of the history, and puts it among those that
  -- wait, marked as shown again; what is displayed, the other entries and what was given up stay.
  pub queues_history_pop_by_id-CameBack :
      (i : ℤ) (w : World) (before : List ℕ) (p : ℕ) (after : List ℕ)
      → w.history ≡ before ++ p ∷ after
      → find (has_id w i) before ≡ none
      → has_id w i p ≡ true
      → CameBack p (before ++ after) w (queues_history_pop_by_id e c i w)
  unfolding queues_history_pop_by_id
  queues_history_pop_by_id-CameBack i w before p after h k l =
      let (found, left) = find_first (has_id w i) before p after k l in
      let here : find (has_id w i) w.history ≡ some p = ap (find (has_id w i)) h ∙ found in
      let rest : erase p w.history ≡ before ++ after = ap (erase p) h ∙ left in
      let popped : queues_history_pop_by_id e c i w
          ≡ redisplay e c p (record w { history = before ++ after }) =
        rw (queues_history_pop_by_id, here)
          (ap (λ q. redisplay e c p (record w { history = q })) rest) in
      subst (CameBack p (before ++ after) w) (sym popped) (redisplay-CameBack p (before ++ after) w)
