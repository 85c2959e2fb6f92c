-- ===== src/Message/Format.antt =====
-- What the format of a message makes of percent signs, and the length of a message.
use dunst.Base.{
  ℕ, false, Bool-cases, [], ◌∷◌, ◌++◌, Str, codes, if◌then◌else◌, ◌==◌, ==_iff, ◌≡◌, refl, sym, ap,
  ◌∙◌, inl, inr,
}
use dunst.Settings.{Settings, markup_no}
use dunst.Notification.{Notification}
use dunst.Utils.{string_replace_all}
use dunst.Utils.Replace.{string_replace_all-spread, spread}
use dunst.Markup.{markup_transform, markup_quote}
use dunst.Markup.Quote.{markup_quote-entities, entities, entity}
use dunst.Message.{format_field, format_fields}

-- Each percent sign twice.
unfoldable pub doubled : Str → Str
doubled [] = []
doubled (b ∷ s) = if b == b'%' then b'%' ∷ b'%' ∷ doubled s else b ∷ doubled s

-- A percent sign is not marked up, whatever the settings.
markup_transform_percent : (c : Settings) → markup_transform c (codes "%") markup_no ≡ codes "%"
unfolding markup_transform
markup_transform_percent c =
    let quoted : markup_quote (codes "%") ≡ codes "%" =
      markup_quote-entities (codes "%") ∙ (unfold entities entity in refl) in
    let kept : string_replace_all (codes "\n") (codes " ") (codes "%") ≡ codes "%" =
      string_replace_all-spread b'\n' (codes " ") (codes "%") ∙ (unfold spread in refl) in
    elim (Bool-cases c.ignore_newline) [
      | inl h ↦ rw h (ap (string_replace_all (codes "\n") (codes " ")) quoted ∙ kept)
      | inr h ↦ rw h quoted
    ]

format_fields_plain :
    (c : Settings) (n : Notification) (b : ℕ) (s : Str)
    → (b == b'%') ≡ false
    → format_fields c n (b ∷ s) false ≡ b ∷ format_fields c n s false
unfolding format_fields
format_fields_plain c n b s h = rw (h, format_fields) refl

format_fields_percent :
    (c : Settings) (n : Notification) (s : Str)
    → format_fields c n (b'%' ∷ b'%' ∷ s) false ≡ b'%' ∷ format_fields c n s false
unfolding format_fields format_field
format_fields_percent c n s = ap (λ t. t ++ format_fields c n s false) (markup_transform_percent c)

-- A format whose percent signs are doubled gives the text that was doubled, with no field of the
-- notification in it.
pub format_fields-doubled :
    (c : Settings) (n : Notification) (s : Str) → format_fields c n (doubled s) false ≡ s
format_fields-doubled c n [] = unfold format_fields doubled in refl
format_fields-doubled c n (b ∷ s) = elim (Bool-cases (b == b'%')) [
  | inl h ↦
      let twice : doubled (b ∷ s) ≡ b'%' ∷ b'%' ∷ doubled s = unfold doubled in rw h refl in
      ap (λ t. format_fields c n t false) twice
      ∙ format_fields_percent c n (doubled s)
      ∙ ap (◌∷◌ b'%') (format_fields-doubled c n s)
      ∙ ap (λ k. k ∷ s) (sym ((==_iff b b'%').0 h))
  | inr h ↦
      let once : doubled (b ∷ s) ≡ b ∷ doubled s = unfold doubled in rw h refl in
      ap (λ t. format_fields c n t false) once
      ∙ format_fields_plain c n b (doubled s) h
      ∙ ap (◌∷◌ b) (format_fields-doubled c n s)
]
