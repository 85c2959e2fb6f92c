-- ===== src/Base/Text.antt =====
-- C strings as lists of bytes, a `char *` that may be NULL as an option, and the functions of the
-- C library (string.h, ctype.h) that the program walks them with. A pointer into a string is the
-- rest of the string from there on, or an offset where the code subtracts pointers.
use Prim.Native.Nat.{ℕ, zero, suc, ◌+◌, ◌/◌, ◌%◌}
use Prim.Native.Char.{code}
use Prim.Native.String.{String}
use mathlib.Core.Path.{◌≡◌, refl}
use mathlib.Core.Logic.{◌↔◌}
use mathlib.Core.Bool.{Bool, true, false, ◌&&◌, ◌||◌}
use mathlib.Core.List.{List, [], ◌∷◌, ◌++◌}
use mathlib.Core.Option.{Option, none, some}
use native.Mathlib.Omega.{arith}
use dunst.Base.Tests.{◌==◌, leb, if◌then◌else◌, ==_iff}

abbrev pub Str : Type 0
Str = List ℕ

-- A `char *` that may be NULL.
abbrev pub CString : Type 0
CString = Option Str

-- The bytes of an ASCII literal.
abbrev pub codes : String → Str
codes String.[] = []
codes (String.◌∷◌ c s) = code c ∷ codes s

unfoldable pub str_eq : Str → Str → Bool
str_eq [] [] = true
str_eq (a ∷ s) (b ∷ t) = a == b && str_eq s t
str_eq _ _ = false

pub str_eq_iff : (s t : Str) → (str_eq s t ≡ true) ↔ (s ≡ t)
unfolding str_eq
str_eq_iff [] [] = (λ h. refl, λ h. refl)
str_eq_iff [] (b ∷ t) = (λ h. cc, λ h. cc)
str_eq_iff (a ∷ s) [] = (λ h. cc, λ h. cc)
str_eq_iff (a ∷ s) (b ∷ t) = (
  λ h. ground (arith, (str_eq_iff s t).0, ==_iff a b),
  λ h. ground (arith, (str_eq_iff s t).1, ==_iff a b),
)

-- strncmp(s, prefix, strlen(prefix)) == 0
unfoldable pub has_prefix : Str → Str → Bool
has_prefix s [] = true
has_prefix [] (b ∷ t) = false
has_prefix (a ∷ s) (b ∷ t) = a == b && has_prefix s t

-- The offset that strchr(s, c) points at.
unfoldable pub strchr : Str → ℕ → Option ℕ
strchr [] c = none
strchr (a ∷ s) c =
    let later = strchr s c in
    if a == c then some 0 else elim later [ none ↦ none | some k ↦ some (suc k) ]

-- The offset that strstr(s, t) points at.
unfoldable pub strstr : Str → Str → Option ℕ
unfolding has_prefix
strstr [] t = if has_prefix [] t then some 0 else none
strstr (a ∷ s) t =
    let later = strstr s t in
    if has_prefix (a ∷ s) t then some 0 else elim later [ none ↦ none | some k ↦ some (suc k) ]

abbrev pub isspace : ℕ → Bool
isspace c = c == 0x20 || (leb 9 c && leb c 13)

-- g_ascii_isspace, which leaves out the vertical tab.
abbrev pub g_ascii_isspace : ℕ → Bool
g_ascii_isspace c = c == 0x20 || c == 9 || c == 10 || c == 12 || c == 13

abbrev pub isdigit : ℕ → Bool
isdigit c = leb b'0' c && leb c b'9'

abbrev pub isxdigit : ℕ → Bool
isxdigit c = isdigit c || (leb b'a' c && leb c b'f') || (leb b'A' c && leb c b'F')

-- while (test(*s)) s++;
unfoldable pub skip_while : (ℕ → Bool) → Str → Str
skip_while p [] = []
skip_while p (c ∷ s) = if p c then skip_while p s else c ∷ s

pub skip_while-none : (p : ℕ → Bool) (c : ℕ) (s : Str) → p c ≡ false → skip_while p (c ∷ s) ≡ c ∷ s
unfolding skip_while
skip_while-none p c s h = rw h refl

-- STR_EMPTY: NULL, or the empty string.
abbrev pub str_empty : CString → Bool
str_empty none = true
str_empty (some []) = true
str_empty (some (c ∷ s)) = false

-- STR_EQ, which is g_strcmp0: two NULLs are equal.
abbrev pub cstring_eq : CString → CString → Bool
cstring_eq none none = true
cstring_eq (some s) (some t) = str_eq s t
cstring_eq _ _ = false

-- STR_NN and the like: a default in place of NULL.
abbrev pub or_else : CString → Str → Str
or_else none d = d
or_else (some s) d = s

-- The decimal digits of a number, on fuel: each division by ten leaves a smaller number.
unfoldable pub digits : ℕ → ℕ → Str
digits zero n = []
digits (suc fuel) n =
    let more = digits fuel (n / 10) in
    if leb 10 n then more ++ (b'0' + n % 10) ∷ [] else (b'0' + n) ∷ []

-- printf("%d")
unfoldable pub print_ℕ : ℕ → Str
unfolding digits
print_ℕ n = digits (suc n) n
