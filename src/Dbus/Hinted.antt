-- ===== src/Dbus/Hinted.antt =====
-- The colours of a notification after the hints of its message, src/dbus.c.
use dunst.Base.{
  ℕ, ℤ, Bool, true, false, Option, none, some, CString, codes, if◌then◌else◌, ◌≡◌, refl, ap, ◌∙◌,
  eq_ℤ,
}
use dunst.Settings.{Color, Gradient}
use dunst.Notification.{Notification, icon_off}
use dunst.World.{Env}
use dunst.Options.Colors.{string_parse_color}
use dunst.Dbus.Notify.{
  read_colors, with_icon, colored, highlighted, gradient_of, replace_raw,
  notification_icon_replace_data, with_color, hint_fg, hint_bg, hint_frame, hint_highlight,
  lookup_hint, get_string, Hints,
}

-- The colour that a hint asks for; one that is missing or does not parse asks for none.
abbrev pub hinted : CString → Color → Color
hinted none k = k
hinted (some s) k = elim (string_parse_color s) [ none ↦ k | some asked ↦ asked ]

colored-own :
    (o : Option Color) (f : Color → Notification → Notification) (field : Notification → Color)
    (n : Notification)
    → ((k : Color) (m : Notification) → field (f k m) ≡ k)
    → field (colored o f n) ≡ (elim o [ none ↦ field n | some k ↦ k ])
colored-own none f field n h = refl
colored-own (some k) f field n h = h k n

with_color-own :
    (hint : CString) (f : Color → Notification → Notification) (field : Notification → Color)
    (n : Notification)
    → ((k : Color) (m : Notification) → field (f k m) ≡ k)
    → field (with_color hint f n) ≡ hinted hint (field n)
with_color-own none f field n h = refl
with_color-own (some s) f field n h = colored-own (string_parse_color s) f field n h

colored-other :
    (o : Option Color) (f : Color → Notification → Notification) (field : Notification → Color)
    (n : Notification)
    → ((k : Color) (m : Notification) → field (f k m) ≡ field m)
    → field (colored o f n) ≡ field n
colored-other none f field n h = refl
colored-other (some k) f field n h = h k n

with_color-other :
    (hint : CString) (f : Color → Notification → Notification) (field : Notification → Color)
    (n : Notification)
    → ((k : Color) (m : Notification) → field (f k m) ≡ field m)
    → field (with_color hint f n) ≡ field n
with_color-other none f field n h = refl
with_color-other (some s) f field n h = colored-other (string_parse_color s) f field n h

-- The three colours of one notification are those of another.
abbrev pub SameColors : Notification → Notification → Type 0
SameColors m n = (m.fg ≡ n.fg) × (m.bg ≡ n.bg) × (m.frame ≡ n.frame)

highlighted-SameColors : (g : Option Gradient) (n : Notification) → SameColors (highlighted g n) n
unfolding hint_highlight
highlighted-SameColors none n = (refl, refl, refl)
highlighted-SameColors (some g) n = (refl, refl, refl)

with_icon-SameColors :
    (o : Option (CString × ℕ)) (now : ℤ) (n : Notification) → SameColors (with_icon o now n) n
with_icon-SameColors none now n = (refl, refl, refl)
with_icon-SameColors (some p) now n = (refl, refl, refl)

-- Either of two notifications with the colours of `n`.
SameColors-if :
    (b : Bool) (x n : Notification) (y : Notification)
    → SameColors x n
    → SameColors y n
    → SameColors (if b then x else y) n
SameColors-if true x n y h k = h
SameColors-if false x n y h k = k

pub replace_raw-SameColors :
    (e : Env) (now : ℤ) (image : Option ℕ) (n : Notification)
    → SameColors (replace_raw e now image n) n
unfolding notification_icon_replace_data
replace_raw-SameColors e now none n = (refl, refl, refl)
replace_raw-SameColors e now (some image) n =
    SameColors-if n.receiving_raw_icon (notification_icon_replace_data e now image n) n n
      (SameColors-if (eq_ℤ n.icon_position icon_off) n n
        (with_icon (e.icon_get_for_data image n.min_icon_size n.max_icon_size) now n)
        (refl, refl, refl)
        (with_icon-SameColors (e.icon_get_for_data image n.min_icon_size n.max_icon_size) now n))
      (refl, refl, refl)

pub read_colors-hinted :
    (hints : Hints) (n : Notification)
    → let m = read_colors hints n in
      (m.fg ≡ hinted (get_string hints (codes "fgcolor")) n.fg)
      × (m.bg ≡ hinted (get_string hints (codes "bgcolor")) n.bg)
      × (m.frame ≡ hinted (get_string hints (codes "frcolor")) n.frame)
unfolding read_colors hint_fg hint_bg hint_frame
read_colors-hinted hints n =
    let fg = get_string hints (codes "fgcolor") in
    let bg = get_string hints (codes "bgcolor") in
    let fc = get_string hints (codes "frcolor") in
    let one = with_color fg hint_fg n in
    let two = with_color bg hint_bg one in
    let three = with_color fc hint_frame two in
    let same = highlighted-SameColors (gradient_of (lookup_hint hints (codes "hlcolor"))) three in
    (
      same.0
          ∙ with_color-other fc hint_frame (λ m. m.fg) two (λ k m. refl)
          ∙ with_color-other bg hint_bg (λ m. m.fg) one (λ k m. refl)
          ∙ with_color-own fg hint_fg (λ m. m.fg) n (λ k m. refl),
      same.1
          ∙ with_color-other fc hint_frame (λ m. m.bg) two (λ k m. refl)
          ∙ with_color-own bg hint_bg (λ m. m.bg) one (λ k m. refl)
          ∙ ap (hinted bg) (with_color-other fg hint_fg (λ m. m.bg) n (λ k m. refl)),
      same.2
          ∙ with_color-own fc hint_frame (λ m. m.frame) two (λ k m. refl)
          ∙ ap (hinted fc) (
              with_color-other bg hint_bg (λ m. m.frame) one (λ k m. refl)
              ∙ with_color-other fg hint_fg (λ m. m.frame) n (λ k m. refl)),
    )

-- Whatever a message of the right type holds, the notification that is made of it has an
-- application, a summary, a body and a category that are not NULL, and colours that are set, if
-- the settings have colours: hints with colours that do not parse leave those of the settings and
-- of the rules.
