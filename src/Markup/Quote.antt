-- ===== src/Markup/Quote.antt =====
-- What markup_quote makes of a text, byte by byte.
use dunst.Base.{
  ℕ, Bool-cases, [], ◌∷◌, ◌++◌, Str, codes, if◌then◌else◌, ◌==◌, ◌≡◌, refl, ap, ◌∙◌, inl, inr,
}
use dunst.Utils.Replace.{spread, spread-append, string_replace_all-spread}
use dunst.Markup.{markup_quote}

-- The entity of a byte, or the byte itself.
unfoldable pub entity : ℕ → Str
entity c =
    if c == b'&'
    then codes "&amp;"
    else if c == b'"'
    then codes "&quot;"
    else if c == b'\''
    then codes "&apos;"
    else if c == b'<'
    then codes "&lt;"
    else if c == b'>'
    then codes "&gt;"
    else c ∷ []

unfoldable pub entities : Str → Str
unfolding entity
entities [] = []
entities (c ∷ s) = entity c ++ entities s

-- The five passes, each on the text that the ones before it leave.
abbrev passes : Str → Str
passes s = spread b'>' (codes "&gt;") (
    spread b'<' (codes "&lt;") (
      spread b'\'' (codes "&apos;") (spread b'"' (codes "&quot;") (spread b'&' (codes "&amp;") s))))

markup_quote-passes : (s : Str) → markup_quote s ≡ passes s
unfolding markup_quote
markup_quote-passes s = simp string_replace_all-spread

passes_one : (c : ℕ) → passes (c ∷ []) ≡ entity c
unfolding entity spread
passes_one c = elim (Bool-cases (c == b'&')) [
  | inl is_amp ↦ rw (is_amp) refl
  | inr no_amp ↦ elim (Bool-cases (c == b'"')) [
    | inl is_quot ↦ rw (no_amp, is_quot) refl
    | inr no_quot ↦ elim (Bool-cases (c == b'\'')) [
      | inl is_apos ↦ rw (no_amp, no_quot, is_apos) refl
      | inr no_apos ↦ elim (Bool-cases (c == b'<')) [
        | inl is_lt ↦ rw (no_amp, no_quot, no_apos, is_lt) refl
        | inr no_lt ↦ elim (Bool-cases (c == b'>')) [
          | inl is_gt ↦ rw (no_amp, no_quot, no_apos, no_lt, is_gt) refl
          | inr no_gt ↦ rw (no_amp, no_quot, no_apos, no_lt, no_gt) refl
        ]
      ]
    ]
  ]
]

passes-append : (s t : Str) → passes (s ++ t) ≡ passes s ++ passes t
passes-append s t = simp spread-append

passes-entities : (s : Str) → passes s ≡ entities s
unfolding entities spread
passes-entities [] = refl
passes-entities (c ∷ s) =
    passes-append (c ∷ []) s
    ∙ ap (◌++◌ (passes (c ∷ []))) (passes-entities s)
    ∙ ap (λ t. t ++ entities s) (passes_one c)

-- Quoting puts an entity in place of each of the five special bytes and keeps every other byte:
-- the `&` of the entities that one pass writes is not quoted again by the next.
pub markup_quote-entities : (s : Str) → markup_quote s ≡ entities s
markup_quote-entities s = markup_quote-passes s ∙ passes-entities s
