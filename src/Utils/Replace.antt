-- ===== src/Utils/Replace.antt =====
-- string_replace_all against a description of its result in one pass.
use dunst.Base.{
  ℕ, zero, suc, ◌+◌, ◌-◌, ◌≤◌, ◌<◌, true, false, Bool-cases, none, some, Option-cases, inl, inr, [],
  ◌∷◌, ◌++◌, append_assoc, length, take, drop, drop-length-append, drop-length_add, length-append,
  length-take, length-drop, take-length_add, Str, strstr, has_prefix, if◌then◌else◌, ◌==◌, ◌≡◌, ◌⊎◌,
  refl, sym, ap, ◌∙◌, arith,
}
use dunst.Utils.{string_replace_at, replace_loop, string_replace_all}

-- Every occurrence of the needle from the left, none overlapping the one before: `skip` bytes are
-- still part of the last one.
unfoldable pub substitute : Str → Str → ℕ → Str → Str
substitute needle repl skip [] = []
substitute needle repl (suc skip) (c ∷ s) = substitute needle repl skip s
substitute needle repl zero (c ∷ s) =
    if has_prefix (c ∷ s) needle
    then repl ++ substitute needle repl (length needle - 1) s
    else c ∷ substitute needle repl 0 s

substitute-drop :
    (needle repl : Str) (k : ℕ) (s : Str)
    → substitute needle repl k s ≡ substitute needle repl 0 (drop k s)
unfolding substitute
substitute-drop needle repl zero s = refl
substitute-drop needle repl (suc k) [] = refl
substitute-drop needle repl (suc k) (c ∷ s) = substitute-drop needle repl k s

-- A text without the needle stays.
substitute_absent : (needle repl s : Str) → strstr s needle ≡ none → substitute needle repl 0 s ≡ s
unfolding substitute strstr
substitute_absent needle repl [] h = refl
substitute_absent needle repl (c ∷ s) h = elim (Option-cases (strstr s needle)) [
  | inl later ↦ ground (arith, substitute_absent needle repl s later)
  | inr (k, later) ↦ absurd (ground arith)
]

-- The text around the first occurrence, which begins at `k`.
abbrev around : Str → Str → Str → ℕ → Str
around needle repl s k = take k s ++ (repl ++ substitute needle repl 0 (drop (k + length needle) s))

strstr-cons :
    (m c : ℕ) (ms s : Str) (k : ℕ)
    → strstr (c ∷ s) (m ∷ ms) ≡ some k
    → ((has_prefix (c ∷ s) (m ∷ ms) ≡ true) × (k ≡ 0))
      ⊎ ((has_prefix (c ∷ s) (m ∷ ms) ≡ false)
          × ((j : ℕ) × (strstr s (m ∷ ms) ≡ some j) × (k ≡ suc j)))
unfolding strstr
strstr-cons m c ms s k h = elim (Bool-cases (has_prefix (c ∷ s) (m ∷ ms))) [
  | inl hit ↦ inl (hit, ground arith)
  | inr miss ↦ elim (Option-cases (strstr s (m ∷ ms))) [
    | inl none_later ↦ absurd (ground arith)
    | inr (j, later) ↦ inr (miss, (j, later, ground arith))
  ]
]

substitute_found :
    (m : ℕ) (ms repl s : Str) (k : ℕ)
    → strstr s (m ∷ ms) ≡ some k
    → substitute (m ∷ ms) repl 0 s ≡ around (m ∷ ms) repl s k
unfolding substitute
substitute_found m ms repl [] k h = absurd (unfold strstr has_prefix in cc h)
substitute_found m ms repl (c ∷ s) k h = elim (strstr-cons m c ms s k h) [
  | inl (hit, at) ↦
      let tail = substitute (m ∷ ms) repl in
      let e1 : suc (length ms) - 1 ≡ length ms = omega arith in
      let e2 : 0 + suc (length ms) ≡ suc (length ms) = omega arith in
      rw (hit, at)
        (ap (λ j. repl ++ tail j s) e1
          ∙ ap (◌++◌ repl) (substitute-drop (m ∷ ms) repl (length ms) s)
          ∙ ap (λ j. repl ++ tail 0 (drop j (c ∷ s))) (sym e2))
  | inr (miss, (j, later, at)) ↦
      let e3 : suc j + suc (length ms) ≡ suc (j + suc (length ms)) = omega arith in
      rw (miss, at)
        (ap (◌∷◌ c) (substitute_found m ms repl s j later)
          ∙ ap (λ i. c ∷ (take j s ++ (repl ++ substitute (m ∷ ms) repl 0 (drop i (c ∷ s)))))
              (sym e3))
]

strstr-le : (m : ℕ) (ms s : Str) (k : ℕ) → strstr s (m ∷ ms) ≡ some k → k ≤ length s
strstr-le m ms [] k h = absurd (unfold strstr has_prefix in cc h)
strstr-le m ms (c ∷ s) k h = elim (strstr-cons m c ms s k h) [
  | inl (hit, at) ↦ omega arith
  | inr (miss, (j, later, at)) ↦ omega (arith, strstr-le m ms s j later)
]

strstr-pos : (m : ℕ) (ms s : Str) (k : ℕ) → strstr s (m ∷ ms) ≡ some k → 0 < length s
strstr-pos m ms [] k h = absurd (unfold strstr has_prefix in cc h)
strstr-pos m ms (c ∷ s) k h = omega arith

-- The text after one replacement, split where the search goes on.
replaced_split :
    (pre tail repl : Str) (k len : ℕ)
    → string_replace_at (pre ++ tail) (length pre + k) len repl
      ≡ (pre ++ (take k tail ++ repl)) ++ drop (k + len) tail
unfolding string_replace_at
replaced_split pre tail repl k len =
    let e : length pre + k + len ≡ length pre + (k + len) = omega arith in
    rw (take-length_add pre tail k, e, drop-length_add pre tail (k + len)) (simp append_assoc)

replace_loop-substitute :
    (fuel m : ℕ) (ms repl pre tail : Str)
    → length tail < fuel
    → replace_loop fuel (m ∷ ms) repl (pre ++ tail) (length pre)
      ≡ pre ++ substitute (m ∷ ms) repl 0 tail
unfolding replace_loop
replace_loop-substitute zero m ms repl pre tail h = absurd (omega arith)
replace_loop-substitute (suc fuel) m ms repl pre tail h =
    elim (Option-cases (strstr tail (m ∷ ms))) [
      | inl absent ↦
          rw (drop-length-append pre tail, absent, replace_loop)
            (ap (◌++◌ pre) (sym (substitute_absent (m ∷ ms) repl tail absent)))
      | inr (k, found) ↦
          let next = pre ++ (take k tail ++ repl) in
          let rest = drop (k + suc (length ms)) tail in
          let le = strstr-le m ms tail k found in
          let at : length pre + k + length repl ≡ length next = omega (
            arith,
            length-append pre (take k tail ++ repl),
            length-append (take k tail) repl,
            length-take k tail le,
          ) in
          let shorter : length rest < fuel =
            ground (arith, length-drop (k + suc (length ms)) tail, strstr-pos m ms tail k found) in
          rw (drop-length-append pre tail, found, replace_loop)
            (rw (replaced_split pre tail repl k (suc (length ms)), at)
              (replace_loop-substitute fuel m ms repl next rest shorter
                ∙ simp append_assoc
                    (ap (◌++◌ pre) (sym (substitute_found m ms repl tail k found)))))
    ]

-- Replacing all is one pass over the text that puts the replacement in place of each occurrence of
-- the needle, from the left and without looking into what it put in; an empty needle changes
-- nothing.
pub string_replace_all-substitute :
    (needle repl s : Str)
    → string_replace_all needle repl s
      ≡ (if length needle == 0 then s else substitute needle repl 0 s)
unfolding string_replace_all
string_replace_all-substitute [] repl s = refl
string_replace_all-substitute (m ∷ ms) repl s =
    let e : (suc (length ms) == 0) ≡ false = ground arith in
    rw e (replace_loop-substitute (suc (length s)) m ms repl [] s (omega arith))

-- A needle of one byte: each such byte makes way for the replacement.
unfoldable pub spread : ℕ → Str → Str → Str
spread c repl [] = []
spread c repl (d ∷ s) = (if d == c then repl else d ∷ []) ++ spread c repl s

substitute-spread : (c : ℕ) (repl s : Str) → substitute (c ∷ []) repl 0 s ≡ spread c repl s
unfolding substitute spread has_prefix
substitute-spread c repl [] = refl
substitute-spread c repl (d ∷ s) = elim (Bool-cases (d == c)) [
  | inl hit ↦ rw hit (ap (◌++◌ repl) (substitute-spread c repl s))
  | inr miss ↦ rw miss (ap (◌∷◌ d) (substitute-spread c repl s))
]

pub string_replace_all-spread :
    (c : ℕ) (repl s : Str) → string_replace_all (c ∷ []) repl s ≡ spread c repl s
string_replace_all-spread c repl s =
    string_replace_all-substitute (c ∷ []) repl s ∙ substitute-spread c repl s

pub spread-append :
    (c : ℕ) (repl s t : Str) → spread c repl (s ++ t) ≡ spread c repl s ++ spread c repl t
unfolding spread
spread-append c repl [] t = refl
spread-append c repl (d ∷ s) t = rw (spread-append c repl s t) (simp append_assoc)
