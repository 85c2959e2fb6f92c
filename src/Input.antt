-- ===== src/Input.antt =====
-- src/input.c: the notification under the pointer, and the actions of a click. `heights` holds the
-- displayed_height of each notification, which the drawing measures.
pub mod Hit
use dunst.Base.{
  ℕ, zero, suc, ◌+◌, ◌*◌, ◌/◌, ℤ, pos, negsuc, pos_part, neg_part, ◌+ℤ◌, ◌-ℤ◌, scale, lt_ℤ, le_ℤ,
  eq_ℤ, Bool, true, false, not, ◌&&◌, ◌||◌, Option, none, some, List, [], ◌∷◌, length, ◌==◌,
  if◌then◌else◌,
}
use dunst.Settings.{
  Settings, MouseAction, mouse_do_action, mouse_close_current, mouse_close_all, mouse_context,
  mouse_context_all, mouse_open_url, mouse_remove_current, mouse_none,
}
use dunst.World.{World, Env, modify}
use dunst.Queues.{reason_user}
use dunst.Queues.History.{queues_history_push_all}
use dunst.Daemon.{Outside, Daemon, wake_up}
use dunst.Menu.Context.{
  context_menu, notification_open_context_menu, notification_open_url, notification_do_action,
}

-- The int of half a number, cut towards zero.
unfoldable pub half : ℤ → ℤ
half (pos n) = pos (n / 2)
half (negsuc n) = elim ((n + 1) / 2) [ zero ↦ pos 0 | suc k ↦ negsuc k ]

-- size += frame_width - separator_height / 2.0, where the double is exact and the sum is cut.
unfoldable pub add_edge : Settings → ℤ → ℤ
unfolding ◌+ℤ◌ ◌-ℤ◌ scale half
add_edge c size = half ((scale size 2 +ℤ scale c.frame_width 2) -ℤ c.separator_height)

unfoldable pub get_notification_clickable_height : Settings → ℤ → Bool → Bool → ℤ
unfolding ◌+ℤ◌ scale add_edge
get_notification_clickable_height c displayed_height first last =
    if not (eq_ℤ c.gap_size (pos 0))
    then displayed_height +ℤ scale c.frame_width 2
    else (let size = displayed_height +ℤ c.separator_height in
        let topped = if first then add_edge c size else size in
        if last then add_edge c topped else topped)

abbrev pub is_last : List ℕ → Bool
is_last [] = true
is_last _ = false

-- The top of the notification after one of some size.
unfoldable pub advance : Settings → ℤ → ℤ → ℤ
unfolding ◌+ℤ◌
advance c curr_y size =
    if not (eq_ℤ c.gap_size (pos 0)) then curr_y +ℤ size +ℤ c.gap_size else curr_y +ℤ size

-- The loop, at the height `curr_y`.
unfoldable pub notification_from : Settings → (ℕ → ℤ) → ℤ → ℤ → Bool → List ℕ → Option ℕ
unfolding ◌+ℤ◌ get_notification_clickable_height advance
notification_from c heights y curr_y first [] = none
notification_from c heights y curr_y first (p ∷ rest) =
    let size = get_notification_clickable_height c (heights p) first (is_last rest) in
    let below = notification_from c heights y (advance c curr_y size) false rest in
    if le_ℤ curr_y y && lt_ℤ y (curr_y +ℤ size) then some p else below

unfoldable pub get_notification_at : Settings → (ℕ → ℤ) → ℤ → World → Option ℕ
unfolding notification_from
get_notification_at c heights y w = notification_from c heights y (pos 0) true w.displayed

abbrev update : (World → World) → Daemon → Daemon
update f d = record d { world = f d.world }

-- An action on the notification under the pointer.
unfoldable pub act_on : MouseAction → ℕ → Daemon → Daemon
unfolding notification_do_action notification_open_url notification_open_context_menu
act_on mouse_close_current p d =
    update (modify p (λ n. record n { marked_for_closure = reason_user })) d
act_on mouse_do_action p d = notification_do_action p d
act_on mouse_open_url p d = notification_open_url p d
act_on mouse_remove_current p d =
    update (modify p (λ n. record n { marked_for_removal = reason_user })) d
act_on mouse_context p d = notification_open_context_menu p d
act_on _ p d = d

unfoldable pub mouse_act : (ℕ → ℤ) → ℤ → MouseAction → Daemon → Daemon
unfolding queues_history_push_all context_menu get_notification_at act_on
mouse_act heights y mouse_close_all d = update (queues_history_push_all d.settings) d
mouse_act heights y mouse_context_all d = context_menu d
mouse_act heights y mouse_none d = d
mouse_act heights y act d = elim (get_notification_at d.settings heights y d.world) [
  | none ↦ d
  | some p ↦ act_on act p d
]

unfoldable pub mouse_acts : (ℕ → ℤ) → ℤ → List MouseAction → Daemon → Daemon
unfolding mouse_act
mouse_acts heights y [] d = d
mouse_acts heights y (act ∷ acts) d = mouse_acts heights y acts (mouse_act heights y act d)

-- BTN_LEFT, BTN_RIGHT, BTN_MIDDLE and BTN_TOUCH; another button is a warning.
unfoldable pub actions_of : Settings → ℕ → Option (List MouseAction)
actions_of c button =
    if button == 0x110
    then some c.mouse_left_click
    else if button == 0x112
    then some c.mouse_middle_click
    else if button == 0x111
    then some c.mouse_right_click
    else if button == 0x14a
    then some c.mouse_left_click
    else none

unfoldable pub input_handle_click : Env → Outside → (ℕ → ℤ) → ℕ → Bool → ℤ → Daemon → Daemon
unfolding actions_of mouse_acts wake_up
input_handle_click e o heights button button_down mouse_y d =
    if button_down then d else elim (actions_of d.settings button) [
      | none ↦ d
      | some acts ↦ wake_up e o (mouse_acts heights mouse_y acts d)
    ]
