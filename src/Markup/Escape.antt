-- ===== src/Markup/Escape.antt =====
-- Escaping the ampersands that begin no entity, applied twice (src/markup.c).
use dunst.Base.{
  ℕ, Bool, true, false, Bool-cases, not, ◌&&◌, ◌||◌, is_some, [], ◌∷◌, ◌++◌, drop, Str, codes,
  strchr, has_prefix, skip_while, isdigit, isxdigit, if◌then◌else◌, ◌==◌, ==_iff, ◌≡◌, refl, sym,
  ap, ◌∙◌, ◌⊎◌, inl, inr, arith,
}
use dunst.Markup.{
  markup_is_entity, markup_escape_unsupported, ends_entity, digits_entity, numeric_entity,
}

-- A byte that is no ampersand is kept.
escape_plain :
    (c : ℕ) (s : Str)
    → (c == b'&') ≡ false
    → markup_escape_unsupported (c ∷ s) ≡ c ∷ markup_escape_unsupported s
unfolding markup_escape_unsupported
escape_plain c s h = rw h refl

escape_entity :
    (c : ℕ) (s : Str)
    → markup_is_entity s ≡ true
    → markup_escape_unsupported (c ∷ s) ≡ c ∷ markup_escape_unsupported s
unfolding markup_escape_unsupported
escape_entity c s h = elim (Bool-cases (c == b'&')) [ inl a ↦ rw (a, h) refl | inr a ↦ rw a refl ]

escape_other :
    (s : Str)
    → markup_is_entity s ≡ false
    → markup_escape_unsupported (b'&' ∷ s) ≡ codes "&amp;" ++ markup_escape_unsupported s
unfolding markup_escape_unsupported
escape_other s h = rw h refl

-- The first byte stays the same.
escape_head : (c : ℕ) (s : Str) → (t : Str) × (markup_escape_unsupported (c ∷ s) ≡ c ∷ t)
escape_head c s = elim (Bool-cases (c == b'&')) [
  | inr a ↦ (markup_escape_unsupported s, escape_plain c s a)
  | inl a ↦ elim (Bool-cases (markup_is_entity s)) [
    | inl e ↦ (markup_escape_unsupported s, escape_entity c s e)
    | inr e ↦
        let is = (==_iff c b'&').0 a in
        (
          codes "amp;" ++ markup_escape_unsupported s,
          ap (λ b. markup_escape_unsupported (b ∷ s)) is
              ∙ escape_other s e
              ∙ ap (λ b. b ∷ (codes "amp;" ++ markup_escape_unsupported s)) (sym is),
        )
  ]
]

abbrev no_ampersand : Str → Bool
no_ampersand [] = true
no_ampersand (c ∷ s) = not (c == b'&') && no_ampersand s

-- A prefix without an ampersand stays.
prefix-escape :
    (s t : Str)
    → no_ampersand t ≡ true
    → has_prefix s t ≡ true
    → has_prefix (markup_escape_unsupported s) t ≡ true
unfolding has_prefix
prefix-escape s [] h k = refl
prefix-escape [] (b ∷ t) h k = cc k
prefix-escape (a ∷ s) (b ∷ t) h k =
    let same : a ≡ b = ground (arith, k, ==_iff a b) in
    let plain : (a == b'&') ≡ false = ground (arith, h, same) in
    let rest = prefix-escape s t (ground (arith, h)) (ground (arith, k)) in
    rw (escape_plain a s plain) (ground (arith, rest, k))

ends-escape : (s : Str) → ends_entity (markup_escape_unsupported s) ≡ ends_entity s
ends-escape [] = unfold markup_escape_unsupported in refl
ends-escape (c ∷ s) = ap ends_entity (escape_head c s).1

skip_while-escape :
    (d : ℕ → Bool) (s : Str)
    → d b'&' ≡ false
    → skip_while d (markup_escape_unsupported s) ≡ markup_escape_unsupported (skip_while d s)
unfolding skip_while
skip_while-escape d [] h = unfold markup_escape_unsupported in refl
skip_while-escape d (c ∷ s) h = elim (Bool-cases (d c)) [
  | inl digit ↦
      let plain : (c == b'&') ≡ false = elim (Bool-cases (c == b'&')) [
        | inr a ↦ a
        | inl a ↦ absurd (cc (ap d ((==_iff c b'&').0 a), digit, h))
      ] in
      rw (escape_plain c s plain, digit) (skip_while-escape d s h)
  | inr other ↦
      let (t, e) = escape_head c s in
      let kept : skip_while d (c ∷ t) ≡ c ∷ t = rw other refl in
      let stays : skip_while d (c ∷ s) ≡ c ∷ s = rw other refl in
      ap (skip_while d) e ∙ kept ∙ sym e ∙ ap markup_escape_unsupported (sym stays)
]

digits-escape :
    (d : ℕ → Bool) (s : Str)
    → d b'&' ≡ false
    → digits_entity d (markup_escape_unsupported s) ≡ digits_entity d s
digits-escape d s h = rw (ends-escape s, skip_while-escape d s h, ends-escape (skip_while d s)) refl

numeric-escape : (s : Str) → numeric_entity (markup_escape_unsupported s) ≡ numeric_entity s
numeric-escape [] = unfold markup_escape_unsupported in refl
numeric-escape (c ∷ s) = elim (Bool-cases (c == b'x')) [
  | inl x ↦
      let plain : (c == b'&') ≡ false = ground arith in
      rw (escape_plain c s plain, x) (digits-escape isxdigit s refl)
  | inr x ↦
      let (t, e) = escape_head c s in
      let kept : numeric_entity (c ∷ t) ≡ digits_entity isdigit (c ∷ t) = rw x refl in
      let same : numeric_entity (c ∷ s) ≡ digits_entity isdigit (c ∷ s) = rw x refl in
      ap numeric_entity e
      ∙ kept
      ∙ ap (digits_entity isdigit) (sym e)
      ∙ digits-escape isdigit (c ∷ s) refl
      ∙ sym same
]

strchr_cons :
    (c : ℕ) (s : Str) → is_some (strchr (c ∷ s) b';') ≡ (c == b';' || is_some (strchr s b';'))
unfolding strchr
strchr_cons c s = ground arith

escape_cases :
    (c : ℕ) (s : Str)
    → (markup_escape_unsupported (c ∷ s) ≡ codes "&amp;" ++ markup_escape_unsupported s)
      ⊎ (markup_escape_unsupported (c ∷ s) ≡ c ∷ markup_escape_unsupported s)
unfolding markup_escape_unsupported
escape_cases c s = elim (Bool-cases (c == b'&' && not (markup_is_entity s))) [
  | inl a ↦ inl (rw a refl)
  | inr a ↦ inr (rw a refl)
]

strchr-escape :
    (s : Str)
    → is_some (strchr s b';') ≡ true
    → is_some (strchr (markup_escape_unsupported s) b';') ≡ true
strchr-escape [] h = absurd (unfold strchr in cc h)
strchr-escape (c ∷ s) h = elim (Bool-cases (c == b';')) [
  | inl here ↦
      let (t, e) = escape_head c s in
      let found : is_some (strchr (c ∷ t) b';') ≡ true =
        strchr_cons c t ∙ ap (λ b. b || is_some (strchr t b';')) here in
      ap (λ r. is_some (strchr r b';')) e ∙ found
  | inr other ↦
      let later : is_some (strchr s b';') ≡ true =
        sym (ap (λ b. b || is_some (strchr s b';')) other) ∙ sym (strchr_cons c s) ∙ h in
      let e = markup_escape_unsupported s in
      elim (escape_cases c s) [
        | inl quoted ↦ ap (λ r. is_some (strchr r b';')) quoted ∙ (unfold strchr in refl)
        | inr kept ↦
            ap (λ r. is_some (strchr r b';')) kept
            ∙ strchr_cons c e
            ∙ ap (λ b. b || is_some (strchr e b';')) other
            ∙ strchr-escape s later
      ]
]

abbrev named : Str → Bool
named s =
    has_prefix s (codes "amp;")
    || has_prefix s (codes "lt;")
    || has_prefix s (codes "gt;")
    || has_prefix s (codes "quot;")
    || has_prefix s (codes "apos;")

named-escape : (s : Str) → named s ≡ true → named (markup_escape_unsupported s) ≡ true
named-escape s h =
    let a = prefix-escape s (codes "amp;") refl in
    let b = prefix-escape s (codes "lt;") refl in
    let c = prefix-escape s (codes "gt;") refl in
    let d = prefix-escape s (codes "quot;") refl in
    let e = prefix-escape s (codes "apos;") refl in ground (arith, a, b, c, d, e)

abbrev entity_test : Str → Bool → Bool → Bool
entity_test s ended number =
    if not ended then false else if number then numeric_entity (drop 1 s) else named s

is_entity_test :
    (s : Str)
    → markup_is_entity s ≡ entity_test s (is_some (strchr s b';')) (has_prefix s (codes "#"))
unfolding markup_is_entity
is_entity_test s = refl

entity_number :
    (s : Str)
    → is_some (strchr s b';') ≡ true
    → has_prefix s (codes "#") ≡ true
    → markup_is_entity s ≡ numeric_entity (drop 1 s)
entity_number s ended number =
    is_entity_test s
    ∙ ap (λ b. entity_test s b (has_prefix s (codes "#"))) ended
    ∙ ap (entity_test s true) number

entity_word :
    (s : Str)
    → is_some (strchr s b';') ≡ true
    → has_prefix s (codes "#") ≡ false
    → markup_is_entity s ≡ named s
entity_word s ended word =
    is_entity_test s
    ∙ ap (λ b. entity_test s b (has_prefix s (codes "#"))) ended
    ∙ ap (entity_test s true) word

has_prefix_hash : (c : ℕ) (s : Str) → has_prefix (c ∷ s) (codes "#") ≡ (c == b'#')
unfolding has_prefix
has_prefix_hash c s = ground arith

-- The bytes behind an ampersand still make it begin an entity when they are escaped.
entity-escape :
    (s : Str) → markup_is_entity s ≡ true → markup_is_entity (markup_escape_unsupported s) ≡ true
entity-escape [] h = absurd (unfold markup_is_entity strchr in cc h)
entity-escape (c ∷ s) h =
    let r = markup_escape_unsupported (c ∷ s) in
    let (t, head) = escape_head c s in
    let hash : has_prefix r (codes "#") ≡ has_prefix (c ∷ s) (codes "#") =
      ap (λ x. has_prefix x (codes "#")) head ∙ has_prefix_hash c t ∙ sym (has_prefix_hash c s) in
    elim (Bool-cases (is_some (strchr (c ∷ s) b';'))) [
      | inr open_end ↦ absurd (
          cc (
            sym (ap (λ b. entity_test (c ∷ s) b (has_prefix (c ∷ s) (codes "#"))) open_end)
            ∙ sym (is_entity_test (c ∷ s))
            ∙ h))
      | inl ended ↦
          let ended' = strchr-escape (c ∷ s) ended in
          elim (Bool-cases (has_prefix (c ∷ s) (codes "#"))) [
            | inl number ↦
                let is_hash = sym (has_prefix_hash c s) ∙ number in
                let plain : (c == b'&') ≡ false = ground (arith, is_hash) in
                entity_number r ended' (hash ∙ number)
                ∙ ap (λ x. numeric_entity (drop 1 x)) (escape_plain c s plain)
                ∙ numeric-escape s
                ∙ sym (entity_number (c ∷ s) ended number)
                ∙ h
            | inr word ↦
                entity_word r ended' (hash ∙ word)
                ∙ named-escape (c ∷ s) (sym (entity_word (c ∷ s) ended word) ∙ h)
          ]
    ]

escape_amp :
    (s : Str)
    → markup_escape_unsupported (codes "&amp;" ++ s) ≡ codes "&amp;" ++ markup_escape_unsupported s
unfolding markup_escape_unsupported markup_is_entity strchr has_prefix
escape_amp s = refl

-- Escaping twice is escaping once: an ampersand that is escaped begins an entity, and one that
-- began an entity still does when what follows it is escaped.
pub markup_escape_unsupported-twice :
    (s : Str)
    → markup_escape_unsupported (markup_escape_unsupported s) ≡ markup_escape_unsupported s
markup_escape_unsupported-twice [] = unfold markup_escape_unsupported in refl
markup_escape_unsupported-twice (c ∷ s) =
    let e = markup_escape_unsupported s in
    let again = markup_escape_unsupported-twice s in
    elim (Bool-cases (c == b'&')) [
      | inr plain ↦
          let once = escape_plain c s plain in
          ap markup_escape_unsupported once ∙ escape_plain c e plain ∙ ap (◌∷◌ c) again ∙ sym once
      | inl amp ↦ elim (Bool-cases (markup_is_entity s)) [
        | inl entity ↦
            let once = escape_entity c s entity in
            ap markup_escape_unsupported once
            ∙ escape_entity c e (entity-escape s entity)
            ∙ ap (◌∷◌ c) again
            ∙ sym once
        | inr other ↦
            let once =
              ap (λ b. markup_escape_unsupported (b ∷ s)) ((==_iff c b'&').0 amp)
              ∙ escape_other s other in
            ap markup_escape_unsupported once
            ∙ escape_amp e
            ∙ ap (◌++◌ (codes "&amp;")) again
            ∙ sym once
      ]
    ]
