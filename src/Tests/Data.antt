-- ===== src/Tests/Data.antt =====
-- The data of the tests: the world outside, settings, notifications and queues.
use mathlib.Core.List.{Permᴰ}
use dunst.Base.{
  Str, suc, ◌+◌, ◌≢◌, arith, ℕ, ℤ, pos, minus_one, true, false, none, some, List, [], ◌∷◌, lt_ℤ,
  if◌then◌else◌, codes, ◌==◌, refl, inl, inr, Bool-cases,
}
use dunst.Settings.{
  sort_type_id, mouse_close_current, mouse_do_action, mouse_close_all, Settings, SortType, Color,
  rgba, fs_show, markup_full, NotificationColors,
}
use dunst.Notification.{Notification, empty_rule}
use dunst.World.{World, Env}
use dunst.Queues.{DunstStatus}
use dunst.Queues.Keep.{QueueLaws}
use dunst.Rules.{Matchers}
use dunst.Message.{defcolors}
use dunst.Message.Init.{HasColors}
use dunst.Daemon.{Outside, Daemon}
use dunst.Daemon.Timer.{OutsideLaws}

-- g_queue_insert_sorted as GLib writes it: before the first element that is not less.
abbrev pub insert : (ℕ → ℕ → ℤ) → ℕ → List ℕ → List ℕ
insert cmp x [] = x ∷ []
insert cmp x (y ∷ ys) = if lt_ℤ (cmp y x) (pos 0) then y ∷ insert cmp x ys else x ∷ y ∷ ys

abbrev pub insertion_sort : (ℕ → ℕ → ℤ) → List ℕ → List ℕ
insertion_sort cmp [] = []
insertion_sort cmp (x ∷ xs) = insert cmp x (insertion_sort cmp xs)

same_perm : (q : List ℕ) → Permᴰ q q
same_perm [] = Permᴰ.nil
same_perm (x ∷ xs) = Permᴰ.cons refl (same_perm xs)

insert-permᴰ : (cmp : ℕ → ℕ → ℤ) (x : ℕ) (q : List ℕ) → Permᴰ (insert cmp x q) (x ∷ q)
insert-permᴰ cmp x [] = same_perm (x ∷ [])
insert-permᴰ cmp x (y ∷ ys) = elim (Bool-cases (lt_ℤ (cmp y x) (pos 0))) [
  | inl later ↦
      rw later (Permᴰ.trans (Permᴰ.cons refl (insert-permᴰ cmp x ys)) (Permᴰ.swap refl refl))
  | inr here ↦ rw here (same_perm (x ∷ y ∷ ys))
]

sort-permᴰ : (cmp : ℕ → ℕ → ℤ) (q : List ℕ) → Permᴰ (insertion_sort cmp q) q
sort-permᴰ cmp [] = Permᴰ.nil
sort-permᴰ cmp (x ∷ xs) =
    Permᴰ.trans (insert-permᴰ cmp x (insertion_sort cmp xs)) (Permᴰ.cons refl (sort-permᴰ cmp xs))

-- No icon is found, and the clocks tick once a reading.
abbrev pub env : Env
env = record {
  monotonic = λ k. pos k;
  wall = λ k. pos k;
  modification_time = λ path. minus_one;
  get_path_from_icon_name = λ name size. none;
  get_pixbuf_from_file = λ path min max. none;
  icon_get_for_data = λ image min max. some (some (codes "raw"), image);
  insert_sorted = insert;
  sort = insertion_sort;
}

pub env_laws : QueueLaws env
env_laws = record {
  insert_sorted-perm = λ cmp x q. ∣ insert-permᴰ cmp x q ∣₁;
  sort-perm = λ cmp q. ∣ sort-permᴰ cmp q ∣₁;
}

abbrev black : Color
black = rgba 255 0 0 0 255

abbrev colors : NotificationColors
colors = record { frame = black; bg = black; fg = black; highlight = [] }

abbrev pub settings : SortType → ℕ → Settings
settings order limit = record {
  sort = order;
  origin_bottom = false;
  always_run_script = false;
  stack_duplicates = true;
  sticky_history = true;
  history_length = pos 2;
  notification_limit = limit;
  indicate_hidden = true;
  show_age_threshold = minus_one;
  show_indicators = true;
  hide_duplicate_count = false;
  ignore_newline = false;
  enable_pcre = false;
  enable_regex = false;
  format = some (codes "%s");
  timeouts = λ urgency. pos 10;
  icons = λ urgency. none;
  browser_cmd = some (codes "xdg-open" ∷ []);
  ignore_dbusclose = false;
  gap_size = pos 0;
  frame_width = pos 3;
  separator_height = pos 2;
  mouse_left_click = mouse_close_current ∷ [];
  mouse_middle_click = mouse_do_action ∷ mouse_close_current ∷ [];
  mouse_right_click = mouse_close_all ∷ [];
  colors_low = colors;
  colors_norm = colors;
  colors_crit = colors;
}

abbrev pub sample : ℕ → ℕ → Notification
sample id urgency = record {
  id = pos id;
  dbus_valid = true;
  original = none;
  appname = some (codes "mail");
  summary = some (codes "new");
  body = some (codes "text");
  category = some [];
  desktop_entry = none;
  urgency = pos urgency;
  override_pause_level = pos 0;
  icon = none;
  icon_id = none;
  icon_time = pos 0;
  iconname = none;
  icon_path = none;
  default_icon_name = some (codes "dialog");
  min_icon_size = pos 32;
  max_icon_size = pos 128;
  icon_position = pos 0;
  receiving_raw_icon = false;
  start = pos 0;
  timestamp = pos id;
  timeout = pos 1000;
  dbus_timeout = minus_one;
  locked = false;
  progress_bar_alignment = pos 1;
  actions = [];
  default_action_name = some (codes "default");
  markup = markup_full;
  format = some (codes "%s");
  scripts = [];
  fg = black;
  bg = black;
  frame = black;
  highlight = none;
  stack_tag = some (codes "tag");
  transient = false;
  progress = minus_one;
  history_ignore = pos 0;
  skip_display = pos 0;
  redisplayed = false;
  dup_count = 0;
  fullscreen = fs_show;
  script_run = false;
  marked_for_closure = 0;
  marked_for_removal = 0;
  word_wrap = true;
  ellipsize = pos 1;
  alignment = pos 0;
  hide_text = false;
  msg = some (codes "text");
  text_to_render = none;
  urls = none;
}

-- The pointer 3 is shown until its time is over, 4 and 5 wait, and 6 is in the history. The id of
-- each is its address, and 7 and beyond have none yet.
abbrev pub stored : ℕ → Notification
stored p =
    if p == 3
    then record (sample 3 1) { timeout = pos 1 }
    else if p == 4
    then sample 4 0
    else if p == 5
    then sample 5 2
    else if p == 6
    then sample 6 1
    else record (sample 0 1) { stack_tag = none; appname = some (codes "chat") }

abbrev pub world : World
world = record {
  heap = stored;
  displayed = 3 ∷ [];
  waiting = 4 ∷ 5 ∷ [];
  history = 6 ∷ [];
  next_notification_id = pos 8;
  unreferenced = [];
  reads = 0;
  effects = [];
}

abbrev pub calm : DunstStatus
calm = record { fullscreen = false; pause_level = pos 0; idle = false; mouse_over = false }

abbrev pub matchers : Matchers
matchers = record { g_regex = λ p v. none; regex = λ p v. none; fnmatch = λ p v. false }

pub settings-HasColors : HasColors (settings sort_type_id 2)
settings-HasColors = record {
  fg = λ u. unfold defcolors in ground arith;
  bg = λ u. unfold defcolors in ground arith;
  frame = λ u. unfold defcolors in ground arith;
}

abbrev pub config : List Str
config =
    codes "# a comment"
    ∷ codes "[global]"
    ∷ codes "  font = \"Mono # 8\" ; a font"
    ∷ codes "width = 300 # pixels"
    ∷ codes "[global]"
    ∷ codes "font = Sans"
    ∷ codes "[urgency_low]"
    ∷ codes "timeout = 10s"
    ∷ []

-- One source at a time has a number of its own, counted from 1.
abbrev next_source : List (ℕ × ℕ) → ℕ
next_source [] = 1
next_source (s ∷ rest) = suc (s.0 + next_source rest)

-- No window is fullscreen and the user is there.
abbrev pub outside : Outside
outside = record {
  have_fullscreen_window = λ r. false;
  is_idle = λ r. false;
  g_timeout_add = next_source;
}

next_source-positive : (s : List (ℕ × ℕ)) → next_source s ≢ 0
next_source-positive [] = λ h. absurd (omega (arith, h))
next_source-positive (s ∷ rest) = λ h. absurd (omega (arith, h))

pub outside_laws : OutsideLaws outside
outside_laws = record {
  positive = next_source-positive;
  fresh = λ i t h. absurd (omega (arith, h));
}

-- The daemon at its start, and with the queues above.
abbrev pub start : Daemon
start = record {
  world = record world { displayed = []; waiting = []; history = []; next_notification_id = pos 0 };
  status = calm;
  settings = settings sort_type_id 2;
  rules =
      record empty_rule { name = some (codes "global") }
      ∷ record empty_rule { name = some (codes "mail") }
      ∷ [];
  setup_done = true;
  next_timeout_id = 0;
  sources = [];
  locked_notifications = [];
}

abbrev pub daemon : Daemon
daemon = record start { world = world }
