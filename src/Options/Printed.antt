-- ===== src/Options/Printed.antt =====
-- The reading of a printed colour (src/option_parser.c).
use dunst.Base.{
  skip_while-none, ℕ, ◌+◌, ◌-◌, ◌*◌, ◌/◌, ◌%◌, ◌^◌, ◌<◌, false, Bool-cases, ◌||◌, some, [], ◌∷◌,
  ◌++◌, length, Str, isspace, ltb, ◌==◌, if◌then◌else◌, ◌≡◌, refl, ap, ◌∙◌, inl, inr, arith,
}
use dunst.Settings.{rgba}
use dunst.Options.{digit_value, after_prefix, scan_digits, read_digits, read_sign, strto}
use dunst.Options.Colors.{strtoul, channels, color_of, string_parse_color}

-- A hexadecimal digit, and a byte as two of them.
abbrev hex_digit : ℕ → ℕ
hex_digit d = if ltb d 10 then b'0' + d else b'a' + (d - 10)

unfoldable pub print_byte : ℕ → Str
print_byte v = hex_digit (v / 16) ∷ hex_digit (v % 16) ∷ []

hex_digit-value : (d : ℕ) → d < 16 → digit_value 16 (hex_digit d) ≡ some d
unfolding digit_value
hex_digit-value d h = ground arith

scan_digit :
    (c d acc : ℕ) (s : Str)
    → digit_value 16 c ≡ some d
    → scan_digits 16 (c ∷ s) acc ≡ scan_digits 16 s (acc * 16 + d)
unfolding scan_digits
scan_digit c d acc s h = rw (h, scan_digits) refl

scan_byte :
    (v acc : ℕ) (s : Str)
    → v < 256
    → scan_digits 16 (print_byte v ++ s) acc ≡ scan_digits 16 s (acc * 256 + v)
unfolding print_byte
scan_byte v acc s h =
    let e : (acc * 16 + v / 16) * 16 + v % 16 ≡ acc * 256 + v = omega arith in
    scan_digit (hex_digit (v / 16)) (v / 16) acc (hex_digit (v % 16) ∷ s)
      (hex_digit-value (v / 16) (omega arith))
    ∙ scan_digit (hex_digit (v % 16)) (v % 16) (acc * 16 + v / 16) s
        (hex_digit-value (v % 16) (omega arith))
    ∙ ap (scan_digits 16 s) e

read_unsigned :
    (c : ℕ) (s : Str)
    → (c == b'-') ≡ false
    → (c == b'+') ≡ false
    → read_sign 16 (c ∷ s) ≡ read_digits 16 false (c ∷ s)
unfolding read_sign
read_unsigned c s h k = rw (h, k, read_sign) refl

no_prefix :
    (c x : ℕ) (s : Str) → (x == b'x' || x == b'X') ≡ false → after_prefix 16 (c ∷ x ∷ s) ≡ c ∷ x ∷ s
no_prefix c x s h = elim (Bool-cases (c == b'0')) [
  | inl zero_first ↦ rw (zero_first, h) refl
  | inr other ↦ rw other refl
]

read_plain :
    (c x d : ℕ) (s : Str)
    → digit_value 16 c ≡ some d
    → (x == b'x' || x == b'X') ≡ false
    → read_digits 16 false (c ∷ x ∷ s) ≡ some (false, scan_digits 16 (c ∷ x ∷ s) 0)
unfolding read_digits
read_plain c x d s h k =
    rw (h, read_digits) (ap (λ t. some (false, scan_digits 16 t 0)) (no_prefix c x s k))

-- Nothing goes before the digits of a byte: no space, no sign and no `0x`.
strto_byte :
    (v : ℕ) (s : Str)
    → v < 256
    → strto 16 (print_byte v ++ s) ≡ some (false, scan_digits 16 (print_byte v ++ s) 0)
unfolding strto print_byte
strto_byte v s h =
    let c = hex_digit (v / 16) in
    let x = hex_digit (v % 16) in
    ap (read_sign 16) (skip_while-none isspace c (x ∷ s) (ground arith))
    ∙ read_unsigned c (x ∷ s) (ground arith) (ground arith)
    ∙ read_plain c x (v / 16) s (hex_digit-value (v / 16) (omega arith)) (ground arith)

-- The value of the digits of a text that is read to its end.
strtoul_byte :
    (v n : ℕ) (s : Str)
    → v < 256
    → scan_digits 16 s v ≡ (n, [])
    → strtoul (print_byte v ++ s) ≡ (n, [])
unfolding strtoul
strtoul_byte v n s h k =
    let e : 0 * 256 + v ≡ v = omega arith in
    rw (strto_byte v s h, scan_byte v 0 s h, strtoul) (ap (scan_digits 16 s) e ∙ k)

parse_digits :
    (t : Str) (n : ℕ) → strtoul t ≡ (n, []) → string_parse_color (b'#' ∷ t) ≡ color_of (length t) n
unfolding string_parse_color
parse_digits t n h =
    let e : length t - 0 ≡ length t = omega arith in
    rw (h, string_parse_color) (ap (λ k. color_of k n) e)

scan_last : (v acc : ℕ) → v < 256 → scan_digits 16 (print_byte v) acc ≡ (acc * 256 + v, [])
unfolding print_byte scan_digits
scan_last v acc h = scan_byte v acc [] h

channels_bytes :
    (r g b a : ℕ)
    → r < 256
    → g < 256
    → b < 256
    → a < 256
    → channels 8 (((r * 256 + g) * 256 + b) * 256 + a) ≡ rgba 255 r g b a
unfolding channels
channels_bytes r g b a hr hg hb ha =
    let n = ((r * 256 + g) * 256 + b) * 256 + a in
    let e1 : n / 16777216 % 256 ≡ r = omega arith in
    let e2 : n / 65536 % 256 ≡ g = omega arith in
    let e3 : n / 256 % 256 ≡ b = omega arith in
    let e4 : n % 256 ≡ a = omega arith in cc (e1, e2, e3, e4)

color_of_eight : (n : ℕ) → color_of 8 n ≡ some (channels 8 n)
unfolding color_of
color_of_eight n = refl

color_of_six : (n : ℕ) → n < 2 ^ 24 → color_of 6 n ≡ some (channels 8 (n * 256 + 255))
unfolding color_of
color_of_six n h =
    let e : (n * 256 + 255) % 2 ^ 64 ≡ n * 256 + 255 = omega arith in
    ap (λ k. some (channels 8 k)) e

-- A colour that is written with two hexadecimal digits for each channel is read as that colour, and
-- as an opaque one if the digits of the alpha channel are left out.
pub string_parse_color-printed :
    (r g b a : ℕ)
    → r < 256
    → g < 256
    → b < 256
    → a < 256
    → let rgb = b'#' ∷ print_byte r ++ print_byte g ++ print_byte b in
      (string_parse_color (rgb ++ print_byte a) ≡ some (rgba 255 r g b a))
      × (string_parse_color rgb ≡ some (rgba 255 r g b 255))
unfolding print_byte
string_parse_color-printed r g b a hr hg hb ha = (
  parse_digits (print_byte r ++ print_byte g ++ print_byte b ++ print_byte a) _ (
        strtoul_byte r _ (print_byte g ++ print_byte b ++ print_byte a) hr (
          scan_byte g r (print_byte b ++ print_byte a) hg
          ∙ scan_byte b (r * 256 + g) (print_byte a) hb
          ∙ scan_last a ((r * 256 + g) * 256 + b) ha))
      ∙ color_of_eight _
      ∙ ap some (channels_bytes r g b a hr hg hb ha),
  parse_digits (print_byte r ++ print_byte g ++ print_byte b) _ (
        strtoul_byte r _ (print_byte g ++ print_byte b) hr
          (scan_byte g r (print_byte b) hg ∙ scan_last b (r * 256 + g) hb))
      ∙ color_of_six _ (omega arith)
      ∙ ap some (channels_bytes r g b 255 hr hg hb (omega arith)),
)
