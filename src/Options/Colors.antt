-- ===== src/Options/Colors.antt =====
-- Colours and gradients of src/option_parser.c.
use dunst.Base.{
  suc, zero, sym, is_some, ◌++◌, ap, refl, Bool, true, false, ℕ, ◌+◌, ◌-◌, ◌*◌, ◌/◌, ◌%◌, ◌^◌, ◌&&◌,
  Option, none, some, Option-cases, List, [], ◌∷◌, length, take, Str, ltb, ◌==◌, if◌then◌else◌, ◌≡◌,
  ◌∙◌, inl, inr, arith,
}
use dunst.Settings.{Color, rgba, Gradient}
use dunst.Ini.{strip_spaces}
use dunst.Options.{strto, strsplit}

-- strtoul(s, &end, 16): the value, and what `end` points at. A minus sign negates in 64 bits.
unfoldable pub strtoul : Str → ℕ × Str
unfolding strto
strtoul s = elim (strto 16 s) [
  | none ↦ (0, s)
  | some (negative, (n, rest)) ↦ (if negative then (2 ^ 64 - n % 2 ^ 64) % 2 ^ 64 else n, rest)
]

-- The four channels of `bits` bits each, from the highest one down.
unfoldable pub channels : ℕ → ℕ → Color
channels bits val =
    let size = 2 ^ bits in
    rgba (size - 1) (val / (size * size * size) % size) (val / (size * size) % size)
      (val / size % size) (val % size)

-- The channels of a value of so many bytes; without an alpha channel it is opaque.
unfoldable pub color_of : ℕ → ℕ → Option Color
unfolding channels
color_of used val =
    if used == 3
    then some (channels 4 ((val * 16 + 15) % 2 ^ 64))
    else if used == 6
    then some (channels 8 ((val * 256 + 255) % 2 ^ 64))
    else if used == 4
    then some (channels 4 val)
    else if used == 8
    then some (channels 8 val)
    else none

-- One byte may follow the digits: the code asks for two before it refuses.
unfoldable pub string_parse_color : Str → Option Color
unfolding strtoul color_of
string_parse_color [] = none
string_parse_color (c ∷ s) =
    let (val, end) = strtoul s in
    if c == b'#' && ltb (length end) 2 then color_of (length s - length end) val else none

-- struct color colors[16]
abbrev pub gradient_places : ℕ
gradient_places = 16

-- What string_parse_gradient comes to; `overrun` is a colour that is written behind the array.
pub data Reading : Type 0 where
  refused overrun : Reading
  read : Gradient → Reading

-- The loop, at index `i`, with the colours that were written.
unfoldable pub parse_colors : ℕ → List Str → Gradient → Reading
unfolding string_parse_color strip_spaces
parse_colors i [] colors = read colors
parse_colors i (s ∷ rest) colors = elim (ltb 16 i) [
  | true ↦ read colors
  | false ↦ elim (string_parse_color (strip_spaces s)) [
    | none ↦ refused
    | some k ↦ elim (length colors == gradient_places) [
      | true ↦ overrun
      | false ↦ parse_colors (suc i) rest (colors ++ k ∷ [])
    ]
  ]
]

-- No colour at all is refused.
abbrev at_least_one : Reading → Reading
at_least_one (read []) = refused
at_least_one r = r

unfoldable pub string_parse_gradient : Str → Reading
unfolding parse_colors strsplit
string_parse_gradient s = at_least_one (parse_colors 0 (strsplit b',' s) [])

abbrev pub is_overrun : Reading → Bool
is_overrun refused = false
is_overrun overrun = true
is_overrun (read g) = false

-- Each part is a colour.
abbrev pub all_parse : List Str → Bool
all_parse [] = true
all_parse (s ∷ ss) = is_some (string_parse_color (strip_spaces s)) && all_parse ss

length-snoc : (g : Gradient) (k : Color) → length (g ++ k ∷ []) ≡ suc (length g)
length-snoc [] k = refl
length-snoc (x ∷ g) k = ap suc (length-snoc g k)

and_false : (b : Bool) → (b && false) ≡ false
and_false true = refl
and_false false = refl

ltb_next : (a b : ℕ) → ltb (suc a) (suc b) ≡ ltb a b
ltb_next a b = ground arith

-- `n` more colours fit.
parse_colors-overruns :
    (n i : ℕ) (parts : List Str) (colors : Gradient)
    → i + n ≡ 16
    → length colors ≡ i
    → is_overrun (parse_colors i parts colors)
      ≡ (ltb n (length parts) && all_parse (take (suc n) parts))
unfolding parse_colors
parse_colors-overruns n i [] colors e h = ground arith
parse_colors-overruns zero i (s ∷ rest) colors e h =
    let early : ltb 16 i ≡ false = ground arith in
    let last : (length colors == gradient_places) ≡ true = ground arith in
    let many : ltb 0 (suc (length rest)) ≡ true = ground arith in
    elim (Option-cases (string_parse_color (strip_spaces s))) [
      | inl bad ↦ rw (parse_colors, early, bad) (sym (and_false (ltb 0 (suc (length rest)))))
      | inr (k, good) ↦ rw (parse_colors, early, good, last, many) refl
    ]
parse_colors-overruns (suc n) i (s ∷ rest) colors e h =
    let early : ltb 16 i ≡ false = ground arith in
    let fits : (length colors == gradient_places) ≡ false = ground arith in
    elim (Option-cases (string_parse_color (strip_spaces s))) [
      | inl bad ↦ rw (parse_colors, early, bad) (sym (and_false (ltb (suc n) (suc (length rest)))))
      | inr (k, good) ↦
          rw (parse_colors, early, good, fits, ltb_next n (length rest))
            (parse_colors-overruns n (suc i) rest (colors ++ k ∷ []) (omega arith)
              (length-snoc colors k ∙ ap suc h))
    ]

is_overrun_kept : (r : Reading) → is_overrun (at_least_one r) ≡ is_overrun r
is_overrun_kept refused = refl
is_overrun_kept overrun = refl
is_overrun_kept (read []) = refl
is_overrun_kept (read (k ∷ ks)) = refl

-- Reading a gradient writes behind its array of sixteen colours if, and only if, there are more
-- than sixteen parts and the first seventeen are colours.
pub string_parse_gradient-overruns :
    (s : Str)
    → is_overrun (string_parse_gradient s)
      ≡ (ltb gradient_places (length (strsplit b',' s)) && all_parse (take 17 (strsplit b',' s)))
unfolding string_parse_gradient
string_parse_gradient-overruns s =
    let parts = strsplit b',' s in
    is_overrun_kept (parse_colors 0 parts [])
    ∙ parse_colors-overruns 16 0 parts [] (omega arith) refl
