-- ===== src/Options/Numbers.antt =====
-- The reading of a printed number (src/utils.c).
use dunst.Base.{
  skip_while-none, ℕ, zero, suc, ◌+◌, ◌*◌, ◌/◌, ◌%◌, ◌<◌, ◌≤◌, ℤ, pos, negsuc, int_max, int_min,
  ◌≤ℤ◌, lt_ℤ, Bool, true, false, Bool-cases, some, Option-cases, [], ◌∷◌, ◌++◌, Str, digits,
  print_ℕ, skip_while, isspace, leb, ◌==◌, ◌||◌, ◌≡◌, refl, ap, ◌∙◌, inl, inr, arith,
}
use dunst.Message.{print_int}
use dunst.Options.{
  digit_value, scan_digits, starts_with_digit, after_prefix, read_digits, read_sign, strto, signed,
  in_long, safe_string_to_long_long, safe_string_to_int,
}

pub scan_digits-append :
    (s t : Str) (acc v : ℕ)
    → scan_digits 10 s acc ≡ (v, [])
    → scan_digits 10 (s ++ t) acc ≡ scan_digits 10 t v
unfolding scan_digits
scan_digits-append [] t acc v h = ap (scan_digits 10 t) (ground arith)
scan_digits-append (c ∷ s) t acc v h = elim (Option-cases (digit_value 10 c)) [
  | inl stop ↦ absurd (ground arith)
  | inr (d, more) ↦
      rw (more, scan_digits) (scan_digits-append s t (acc * 10 + d) v (ground (arith, more)))
]

decimal_value : (d : ℕ) → d < 10 → digit_value 10 (b'0' + d) ≡ some d
unfolding digit_value
decimal_value d h = ground arith

scan_one : (d acc : ℕ) → d < 10 → scan_digits 10 ((b'0' + d) ∷ []) acc ≡ (acc * 10 + d, [])
unfolding scan_digits
scan_one d acc h = rw (decimal_value d h, scan_digits) refl

pub scan_printed : (fuel n : ℕ) → n < fuel → scan_digits 10 (digits fuel n) 0 ≡ (n, [])
unfolding digits
scan_printed zero n h = absurd (omega arith)
scan_printed (suc fuel) n h = elim (Bool-cases (leb 10 n)) [
  | inr small ↦
      let e : 0 * 10 + n ≡ n = omega arith in
      rw small (scan_one n 0 (ground arith) ∙ ap (λ k. (k, [])) e)
  | inl large ↦
      let big : 10 ≤ n = ground arith in
      let e : n / 10 * 10 + n % 10 ≡ n = omega arith in
      rw large (
        scan_digits-append (digits fuel (n / 10)) ((b'0' + n % 10) ∷ []) 0 (n / 10)
          (scan_printed fuel (n / 10) (omega arith))
        ∙ scan_one (n % 10) (n / 10) (omega arith)
        ∙ ap (λ k. (k, [])) e)
]

pub starts-append :
    (s t : Str) → starts_with_digit 10 s ≡ true → starts_with_digit 10 (s ++ t) ≡ true
starts-append [] t h = absurd (cc h)
starts-append (c ∷ s) t h = h

pub printed_starts : (fuel n : ℕ) → n < fuel → starts_with_digit 10 (digits fuel n) ≡ true
unfolding digits
printed_starts zero n h = absurd (omega arith)
printed_starts (suc fuel) n h = elim (Bool-cases (leb 10 n)) [
  | inr small ↦ rw (small, decimal_value n (ground arith)) refl
  | inl large ↦
      let big : 10 ≤ n = ground arith in
      rw large (
        starts-append (digits fuel (n / 10)) ((b'0' + n % 10) ∷ [])
          (printed_starts fuel (n / 10) (omega arith)))
]

after_prefix_decimal : (s : Str) → after_prefix 10 s ≡ s
after_prefix_decimal [] = refl
after_prefix_decimal (z ∷ []) = refl
after_prefix_decimal (z ∷ x ∷ s) = refl

read_digits_decimal :
    (negative : Bool) (s : Str)
    → starts_with_digit 10 s ≡ true
    → read_digits 10 negative s ≡ some (negative, scan_digits 10 s 0)
unfolding read_digits
read_digits_decimal negative s h =
    rw (h, read_digits) (ap (λ t. some (negative, scan_digits 10 t 0)) (after_prefix_decimal s))

-- The first byte of a numeral.
digit_byte :
    (c : ℕ) (s : Str)
    → starts_with_digit 10 (c ∷ s) ≡ true
    → (isspace c ≡ false) × ((c == b'-') ≡ false) × ((c == b'+') ≡ false)
unfolding digit_value
digit_byte c s h = (ground arith, ground arith, ground arith)

read_unsigned :
    (c : ℕ) (s : Str)
    → (c == b'-') ≡ false
    → (c == b'+') ≡ false
    → read_sign 10 (c ∷ s) ≡ read_digits 10 false (c ∷ s)
unfolding read_sign
read_unsigned c s h k = rw (h, k, read_sign) refl

-- A text that begins with a digit has no space and no sign before it.
pub strto_decimal :
    (s : Str) → starts_with_digit 10 s ≡ true → strto 10 s ≡ some (false, scan_digits 10 s 0)
unfolding strto
strto_decimal [] h = absurd (cc h)
strto_decimal (c ∷ s) h =
    let (space, minus, plus) = digit_byte c s h in
    ap (read_sign 10) (skip_while-none isspace c s space)
    ∙ read_unsigned c s minus plus
    ∙ read_digits_decimal false (c ∷ s) h

strto_negative :
    (s : Str)
    → starts_with_digit 10 s ≡ true
    → strto 10 (b'-' ∷ s) ≡ some (true, scan_digits 10 s 0)
unfolding strto read_sign skip_while
strto_negative s h = read_digits_decimal true s h

long_of :
    (s : Str) (negative : Bool) (n : ℕ)
    → strto 10 s ≡ some (negative, (n, []))
    → in_long (signed negative n) ≡ true
    → safe_string_to_long_long s ≡ some (signed negative n)
unfolding safe_string_to_long_long
long_of s negative n h k = rw (h, k, safe_string_to_long_long) refl

int_of :
    (s : Str) (z : ℤ)
    → safe_string_to_long_long s ≡ some z
    → int_min ≤ℤ z
    → z ≤ℤ int_max
    → safe_string_to_int s ≡ some z
unfolding safe_string_to_int
int_of s z h lo hi =
    let inside : (lt_ℤ z int_min || lt_ℤ int_max z) ≡ false = ground arith in
    rw (h, safe_string_to_int) (rw inside refl)

pub print_natural : (n : ℕ) → print_int (pos n) ≡ print_ℕ n
unfolding print_int
print_natural n = let e : lt_ℤ (pos n) (pos 0) ≡ false = ground arith in rw e refl

read_natural : (n : ℕ) → strto 10 (print_ℕ n) ≡ some (false, (n, []))
unfolding print_ℕ
read_natural n =
    strto_decimal (print_ℕ n) (printed_starts (suc n) n (omega arith))
    ∙ ap (λ r. some (false, r)) (scan_printed (suc n) n (omega arith))

print_negative : (n : ℕ) → print_int (negsuc n) ≡ b'-' ∷ print_ℕ (suc n)
unfolding print_int
print_negative n = let e : lt_ℤ (negsuc n) (pos 0) ≡ true = ground arith in rw e refl

read_negative : (n : ℕ) → strto 10 (print_int (negsuc n)) ≡ some (true, (suc n, []))
unfolding print_ℕ
read_negative n =
    ap (strto 10) (print_negative n)
    ∙ strto_negative (print_ℕ (suc n)) (printed_starts (suc (suc n)) (suc n) (omega arith))
    ∙ ap (λ r. some (true, r)) (scan_printed (suc (suc n)) (suc n) (omega arith))

-- A number that is printed with `%d` is read as that number, if it fits an int.
pub safe_string_to_int-print_int :
    (z : ℤ) → int_min ≤ℤ z → z ≤ℤ int_max → safe_string_to_int (print_int z) ≡ some z
safe_string_to_int-print_int (pos n) lo hi =
    ap safe_string_to_int (print_natural n)
    ∙ int_of (print_ℕ n) (pos n) (long_of (print_ℕ n) false n (read_natural n) (ground (arith, hi)))
        lo hi
safe_string_to_int-print_int (negsuc n) lo hi =
    int_of (print_int (negsuc n)) (negsuc n)
      (long_of (print_int (negsuc n)) true (suc n) (read_negative n) (ground (arith, lo))) lo hi
