-- ===== src/Dbus/Lengths.antt =====
-- signal_length_propertieschanged of src/dbus.c, and a client that listens to it. The connection is
-- there and the signal is delivered.
use dunst.Base.{
  ℕ, Bool, true, false, not, List, [], ◌∷◌, ◌++◌, Str, codes, str_eq, length, ◌==◌, ==_iff,
  if◌then◌else◌, ◌≡◌, refl, ap, ◌∙◌, arith,
}
use dunst.World.{World}

-- The static variables of the function: the lengths that were signalled last.
pub record Lengths : Type 0 where
  pub displayed : ℕ
  pub history : ℕ
  pub waiting : ℕ

abbrev pub lengths_of : World → Lengths
lengths_of w = record {
  displayed = length w.displayed;
  history = length w.history;
  waiting = length w.waiting;
}

abbrev pub Changes : Type 0
Changes = List (Str × ℕ)

-- One entry of the message, where the length is not the last one.
abbrev changed : Str → ℕ → ℕ → Changes
changed name last now = if not (last == now) then (name, now) ∷ [] else []

-- The entries of the message, none of which means that no message is sent.
unfoldable pub length_changes : Lengths → Lengths → Changes
length_changes last now =
    changed (codes "displayedLength") last.displayed now.displayed
    ++ (changed (codes "historyLength") last.history now.history
        ++ changed (codes "waitingLength") last.waiting now.waiting)

abbrev latest : ℕ → ℕ → ℕ
latest last now = if not (last == now) then now else last

unfoldable pub signal_length_propertieschanged : Lengths → World → Lengths × Changes
unfolding length_changes
signal_length_propertieschanged last w =
    let now = lengths_of w in
    (
      record {
        displayed = latest last.displayed now.displayed;
        history = latest last.history now.history;
        waiting = latest last.waiting now.waiting;
      },
      length_changes last now,
    )

-- The signals after each of a sequence of states of the queues.
unfoldable pub signals : Lengths → List World → List Changes
unfolding signal_length_propertieschanged
signals last [] = []
signals last (w ∷ ws) =
    let (next, message) = signal_length_propertieschanged last w in message ∷ signals next ws

-- A client that keeps the last value of each property it is told.
unfoldable pub listen : Lengths → Changes → Lengths
unfolding str_eq
listen seen [] = seen
listen seen ((name, n) ∷ rest) =
    listen
      (if str_eq name (codes "displayedLength")
        then record seen { displayed = n }
        else if str_eq name (codes "historyLength")
        then record seen { history = n }
        else record seen { waiting = n })
      rest

unfoldable pub listen_all : Lengths → List Changes → Lengths
unfolding listen
listen_all seen [] = seen
listen_all seen (message ∷ rest) = listen_all (listen seen message) rest

latest-now : (last now : ℕ) → latest last now ≡ now
latest-now last now = ground (arith, ==_iff last now)

-- The last values with those in place that a message tells.
abbrev updated : Lengths → Lengths → Lengths
updated last now = record {
  displayed = latest last.displayed now.displayed;
  history = latest last.history now.history;
  waiting = latest last.waiting now.waiting;
}

updated-now : (last now : Lengths) → updated last now ≡ now
updated-now last now = λ i. record {
  displayed = latest-now last.displayed now.displayed i;
  history = latest-now last.history now.history i;
  waiting = latest-now last.waiting now.waiting i;
}

listen-changes : (last now : Lengths) → listen last (length_changes last now) ≡ updated last now
unfolding listen length_changes str_eq
listen-changes last now =
    by_cases (not (last.displayed == now.displayed)) (not (last.history == now.history))
      (not (last.waiting == now.waiting))
  where
    by_cases :
        (a b c : Bool)
        → listen last (
            (if a then (codes "displayedLength", now.displayed) ∷ [] else [])
            ++ ((if b then (codes "historyLength", now.history) ∷ [] else [])
                ++ (if c then (codes "waitingLength", now.waiting) ∷ [] else [])))
          ≡ record {
            displayed = if a then now.displayed else last.displayed;
            history = if b then now.history else last.history;
            waiting = if c then now.waiting else last.waiting;
          }
    by_cases true true true = refl
    by_cases true true false = refl
    by_cases true false true = refl
    by_cases true false false = refl
    by_cases false true true = refl
    by_cases false true false = refl
    by_cases false false true = refl
    by_cases false false false = refl

-- However the queues change, a client that starts from the lengths that were signalled last, and
-- notes what each message says, knows the three lengths after each signal, although a message
-- tells only those that changed.
pub listen_all-signals :
    (last : Lengths) (ws : List World) (w : World)
    → listen_all last (signals last (ws ++ w ∷ [])) ≡ lengths_of w
unfolding listen_all signals signal_length_propertieschanged
listen_all-signals last [] w = listen-changes last (lengths_of w) ∙ updated-now last (lengths_of w)
listen_all-signals last (v ∷ ws) w =
    let next = updated last (lengths_of v) in
    ap (λ seen. listen_all seen (signals next (ws ++ w ∷ []))) (listen-changes last (lengths_of v))
    ∙ listen_all-signals next ws w
