-- ===== src/Menu/Lines.antt =====
-- The lines of the menu (src/menu.c), written and read.
use mathlib.Core.List.{reverse-append, reverse-reverse}
use dunst.Base.{
  ℕ, zero, suc, ◌+◌, ◌/◌, ◌%◌, ◌≤◌, ◌<◌, ℤ, pos, to_int-small, Bool, true, false, ◌&&◌, none, some,
  List, [], ◌∷◌, ◌++◌, reverse, append_assoc, length, take, mem, tally, tally-mem, Str, codes,
  or_else, strchr, skip_while, g_ascii_isspace, print_ℕ, digits, eq_ℤ, eq_ℤ_refl, leb, ◌==◌, ==_iff,
  ◌≡◌, refl, sym, ap, ◌∙◌, inl, inr, Bool-cases, arith,
}
use dunst.Notification.{Notification}
use dunst.Message.{print_int}
use dunst.Options.{scan_digits, digit_value, strto, in_long}
use dunst.Options.Numbers.{
  scan_digits-append, scan_printed, printed_starts, starts-append, strto_decimal, print_natural,
}
use dunst.Queues.{find, has_id}
use dunst.Queues.Keep.{HasUniqueIds}
use dunst.Daemon.{Daemon}
use dunst.Menu.{
  g_hash_table_contains, signal_action_invoked, action_line, after_last, strtol, key_of,
  parse_action, has_action, invoke_action, g_strstrip, dispatch_menu_line, dispatch_menu_result,
}

mem-append : (c : ℕ) (s t : Str) → mem c s ≡ false → mem c t ≡ false → mem c (s ++ t) ≡ false
mem-append c [] t h k = k
mem-append c (b ∷ s) t h k = ground (arith, mem-append c s t)

digits-plain : (fuel n : ℕ) → mem b'[' (digits fuel n) ≡ false
unfolding digits
digits-plain zero n = refl
digits-plain (suc fuel) n = elim (Bool-cases (leb 10 n)) [
  | inl large ↦ rw large (
      mem-append b'[' (digits fuel (n / 10)) ((b'0' + n % 10) ∷ []) (digits-plain fuel (n / 10))
        (ground arith))
  | inr small ↦ rw small (ground arith)
]

after_last-none : (c : ℕ) (s : Str) → mem c s ≡ false → after_last c s ≡ none
unfolding after_last
after_last-none c [] h = refl
after_last-none c (b ∷ s) h =
    let miss : (b == c) ≡ false = ground arith in
    let rest : mem c s ≡ false = ground arith in rw (after_last-none c s rest, miss) refl

after_last-append : (c : ℕ) (s t : Str) → mem c t ≡ false → after_last c (s ++ (c ∷ t)) ≡ some t
unfolding after_last
after_last-append c [] t h =
    let hit : (c == c) ≡ true = ground arith in rw (after_last-none c t h, hit) refl
after_last-append c (b ∷ s) t h = rw (after_last-append c s t h) refl

strchr-append : (c : ℕ) (s t : Str) → mem c s ≡ false → strchr (s ++ (c ∷ t)) c ≡ some (length s)
unfolding strchr
strchr-append c [] t h = ground (arith, ==_iff c c)
strchr-append c (b ∷ s) t h =
    let miss : (b == c) ≡ false = ground arith in
    let rest : mem c s ≡ false = ground arith in rw (strchr-append c s t rest, miss) refl

take-append : (s t : Str) → take (length s) (s ++ t) ≡ s
take-append [] t = refl
take-append (b ∷ s) t = ap (◌∷◌ b) (take-append s t)

stop_at_comma : (n : ℕ) (s : Str) → scan_digits 10 (b',' ∷ s) n ≡ (n, b',' ∷ s)
unfolding scan_digits digit_value
stop_at_comma n s = refl

read_print : (n : ℕ) (s : Str) → strto 10 (print_ℕ n ++ (b',' ∷ s)) ≡ some (false, (n, b',' ∷ s))
unfolding print_ℕ
read_print n s =
    strto_decimal (print_ℕ n ++ (b',' ∷ s))
      (starts-append (print_ℕ n) (b',' ∷ s) (printed_starts (suc n) n (omega arith)))
    ∙ ap (λ r. some (false, r))
        (scan_digits-append (print_ℕ n) (b',' ∷ s) 0 n (scan_printed (suc n) n (omega arith))
          ∙ stop_at_comma n s)

strtol-print :
    (n : ℕ) (s : Str) → n < 2147483648 → strtol (print_ℕ n ++ (b',' ∷ s)) ≡ (pos n, b',' ∷ s)
unfolding strtol
strtol-print n s h =
    let fits : in_long (pos n) ≡ true = ground arith in
    rw (strtol, read_print n s) (rw fits (ap (λ z. (z, b',' ∷ s)) (to_int-small n h)))

-- What the line holds from the last bracket on.
abbrev tag : ℕ → Str → Str
tag i key = print_ℕ i ++ (b',' ∷ (key ++ b']' ∷ []))

abbrev label : Notification → Str → Str
label n value = value ++ (codes " (" ++ (or_else n.summary (codes "(null)") ++ codes ") "))

tag-plain : (i : ℕ) (key : Str) → mem b'[' key ≡ false → mem b'[' (tag i key) ≡ false
unfolding print_ℕ
tag-plain i key h =
    mem-append b'[' (print_ℕ i) (b',' ∷ (key ++ b']' ∷ [])) (digits-plain (suc i) i)
      (mem-append b'[' (b',' ∷ key) (b']' ∷ []) h refl)

key_of-line :
    (z : ℤ) (key : Str)
    → mem b']' key ≡ false
    → key_of (z, b',' ∷ (key ++ b']' ∷ [])) ≡ some (z, key)
unfolding key_of
key_of-line z key h =
    rw (strchr-append b']' key [] h) (ap (λ k. some (z, k)) (take-append key (b']' ∷ [])))

action_line-label :
    (n : Notification) (key value : Str) (i : ℕ)
    → n.id ≡ pos i
    → action_line n (key, value) ≡ b'#' ∷ (label n value ++ (b'[' ∷ tag i key))
unfolding action_line
action_line-label n key value i h = rw h (ap (◌∷◌ b'#') (simp (append_assoc, print_natural)))

-- A line of the menu is read as the id and the key of its action.
parse_action-line :
    (n : Notification) (key value : Str) (i : ℕ)
    → i < 2147483648
    → mem b'[' key ≡ false
    → mem b']' key ≡ false
    → parse_action (label n value ++ (b'[' ∷ tag i key)) ≡ some (pos i, key)
unfolding parse_action
parse_action-line n key value i small left right =
    rw (parse_action, after_last-append b'[' (label n value) (tag i key) (tag-plain i key left))
      (ap key_of (strtol-print i (key ++ b']' ∷ []) small) ∙ key_of-line (pos i) key right)

find-only :
    (s t : ℕ → Bool) (p : ℕ) (q : List ℕ)
    → tally s q ≤ 1
    → mem p q ≡ true
    → s p ≡ true
    → t p ≡ true
    → find (λ x. s x && t x) q ≡ some p
unfolding find
find-only s t p [] u m hs ht = cc
find-only s t p (x ∷ xs) u m hs ht = elim (Bool-cases (x == p)) [
  | inl here ↦ let e = (==_iff x p).0 here in ground (arith, e)
  | inr other ↦ ground (arith, find-only s t p xs, tally-mem s p xs, ==_iff x p)
]

strip-closed : (s : Str) → g_strstrip (b'#' ∷ (s ++ b']' ∷ [])) ≡ b'#' ∷ (s ++ b']' ∷ [])
unfolding g_strstrip skip_while
strip-closed s =
    ap (λ r. reverse (skip_while g_ascii_isspace r)) (reverse-append (b'#' ∷ s) (b']' ∷ []))
    ∙ ap reverse (sym (reverse-append (b'#' ∷ s) (b']' ∷ [])))
    ∙ reverse-reverse (b'#' ∷ (s ++ b']' ∷ []))

strip-line : (n : Notification) (a : Str × Str) → g_strstrip (action_line n a) ≡ action_line n a
unfolding action_line
strip-line n a =
    let s =
      a.1
      ++ (codes " ("
          ++ (or_else n.summary (codes "(null)")
              ++ (codes ") [" ++ (print_int n.id ++ (b',' ∷ a.0))))) in
    let e : action_line n a ≡ b'#' ∷ (s ++ b']' ∷ []) = ap (◌∷◌ b'#') (simp append_assoc) in
    ap g_strstrip e ∙ strip-closed s ∙ sym e

invoke_action-found :
    (d : Daemon) (s key : Str) (id : ℤ) (p : ℕ)
    → parse_action s ≡ some (id, key)
    → find (has_action d.world id key) d.world.displayed ≡ some p
    → invoke_action s d ≡ signal_action_invoked p key d
unfolding invoke_action
invoke_action-found d s key id p h k = rw (invoke_action, h) (rw k refl)

dispatch-line :
    (n : Notification) (key value : Str) (i : ℕ) (d : Daemon)
    → n.id ≡ pos i
    → dispatch_menu_result (some (action_line n (key, value))) d
      ≡ invoke_action (label n value ++ (b'[' ∷ tag i key)) d
unfolding dispatch_menu_result dispatch_menu_line
dispatch-line n key value i d h =
    ap (λ s. dispatch_menu_line s d) (strip-line n (key, value) ∙ action_line-label n key value i h)

-- The line of an action that is shown in the menu, when the menu program returns it, invokes that
-- action of that notification, whatever the texts of the notification hold, if the notification is
-- still displayed, no other has its id, the id is a positive int and the key has no bracket.
pub dispatch_menu_result-action_line :
    (d : Daemon) (p i : ℕ) (key value : Str)
    → HasUniqueIds d.world
    → mem p d.world.displayed ≡ true
    → g_hash_table_contains (d.world.heap p).actions key ≡ true
    → (d.world.heap p).id ≡ pos i
    → i < 2147483648
    → mem b'[' key ≡ false
    → mem b']' key ≡ false
    → dispatch_menu_result (some (action_line (d.world.heap p) (key, value))) d
      ≡ signal_action_invoked p key d
dispatch_menu_result-action_line d p i key value u m known id small left right =
    let n = d.world.heap p in
    let has = has_id d.world (pos i) in
    let one : tally has d.world.displayed ≤ 1 = omega (arith, u (pos i)) in
    let self : has p ≡ true = ap (λ z. eq_ℤ z (pos i)) id ∙ eq_ℤ_refl (pos i) in
    dispatch-line n key value i d id
    ∙ invoke_action-found d (label n value ++ (b'[' ∷ tag i key)) key (pos i) p
        (parse_action-line n key value i small left right)
        (find-only has (λ x. g_hash_table_contains (d.world.heap x).actions key) p d.world.displayed
          one m self known)
