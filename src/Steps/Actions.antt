-- ===== src/Steps/Actions.antt =====
-- The actions and the menus (src/notification.c, src/menu.c) between two turns of the main loop.
use dunst.Base.{
  ℕ, true, not, ◌||◌, none, some, is_some, List, [], ◌∷◌, ◌++◌, Str, CString, codes, or_else,
  length, str_eq, strstr, ◌==◌, if◌then◌else◌, refl, inl, inr, Bool-cases, Option-cases,
}
use dunst.World.{World, browser_opened, action_invoked}
use dunst.Queues.{find}
use dunst.Queues.Keep.{IsQuiet, IsQuiet-trans}
use dunst.Queues.Keep.Quiet.{modify-IsQuiet, IsQuiet-refl, IsQuiet-if}
use dunst.Daemon.{Daemon, log}
use dunst.Menu.{
  signal_action_invoked, g_hash_table_contains, parse_action, has_action, invoke_action,
  browser_url, open_browser, dispatch_menu_line, dispatch_menu_result, g_strstrip,
}
use dunst.Menu.Context.{
  notification_lock, get_actionable_notifications, context_menu_for, context_menu,
  notification_open_context_menu, notification_open_url, only_key, notification_do_action,
}
use dunst.Steps.{IsSound, log-IsSound, IsSound-quiet, IsSound-if}

notification_lock-IsQuiet : (p : ℕ) (w : World) → IsQuiet w (notification_lock p w)
unfolding notification_lock
notification_lock-IsQuiet p w = modify-IsQuiet p (λ n. record n { locked = true }) w (λ n. refl)

actionable-IsQuiet : (q : List ℕ) (w : World) → IsQuiet w (get_actionable_notifications q w).1
unfolding get_actionable_notifications
actionable-IsQuiet [] w = IsQuiet-refl w
actionable-IsQuiet (p ∷ rest) w =
    let hit = is_some (w.heap p).urls || not (length (w.heap p).actions == 0) in
    let v = if hit then notification_lock p w else w in
    IsQuiet-trans (IsQuiet-if hit (notification_lock-IsQuiet p w)) (actionable-IsQuiet rest v)

module _ {received : List ℕ} where
  context_menu_for-IsSound :
      (ps : List ℕ) (d : Daemon) → IsSound received d → IsSound received (context_menu_for ps d)
  unfolding context_menu_for
  context_menu_for-IsSound ps d s =
      IsSound-if (not (length d.locked_notifications == 0)) _ _ s
        (record { unique = s.unique; holds = s.holds; timed = s.timed })

  pub context_menu-IsSound : (d : Daemon) → IsSound received d → IsSound received (context_menu d)
  unfolding context_menu
  context_menu-IsSound d s =
      let r = get_actionable_notifications d.world.displayed d.world in
      context_menu_for-IsSound r.0 (record d { world = r.1 })
        (IsSound-quiet r.1 d (actionable-IsQuiet d.world.displayed d.world) s)

  pub open_context_menu-IsSound :
      (p : ℕ) (d : Daemon)
      → IsSound received d
      → IsSound received (notification_open_context_menu p d)
  unfolding notification_open_context_menu
  open_context_menu-IsSound p d s =
      let w = notification_lock p d.world in
      context_menu_for-IsSound (p ∷ []) (record d { world = w })
        (IsSound-quiet w d (notification_lock-IsQuiet p d.world) s)

  open_browser-IsSound :
      (url : Str) (d : Daemon) → IsSound received d → IsSound received (open_browser url d)
  unfolding open_browser
  open_browser-IsSound url d s = elim (Option-cases d.settings.browser_cmd) [
    | inl unset ↦ rw (open_browser, unset) s
    | inr (cmd, set) ↦
        rw (open_browser, set) (log-IsSound (browser_opened (cmd ++ browser_url url ∷ []) ∷ []) d s)
  ]

  signal_action-IsSound :
      (p : ℕ) (key : Str) (d : Daemon)
      → IsSound received d
      → IsSound received (signal_action_invoked p key d)
  unfolding signal_action_invoked
  signal_action-IsSound p key d s =
      let told = action_invoked (d.world.heap p).id key ∷ [] in
      IsSound-if (not (d.world.heap p).dbus_valid) d (log told d) s (log-IsSound told d s)

  pub open_url-IsSound :
      (p : ℕ) (d : Daemon) → IsSound received d → IsSound received (notification_open_url p d)
  unfolding notification_open_url
  open_url-IsSound p d s = elim (Option-cases (d.world.heap p).urls) [
    | inl absent ↦ rw (notification_open_url, absent) s
    | inr (urls, here) ↦
        rw (notification_open_url, here)
          (IsSound-if (is_some (strstr urls (codes "\n"))) (notification_open_context_menu p d)
            (open_browser urls d) (open_context_menu-IsSound p d s) (open_browser-IsSound urls d s))
  ]

  do_keyed :
      (p : ℕ) (name : Str) (actions : List (Str × Str)) (d : Daemon)
      → IsSound received d
      → IsSound received (
          if g_hash_table_contains actions name
          then signal_action_invoked p name d
          else elim (if str_eq name (codes "default") then only_key actions else none) [
            | some key ↦ signal_action_invoked p key d
            | none ↦ notification_open_context_menu p d
          ])
  do_keyed p name actions d s = elim (Bool-cases (g_hash_table_contains actions name)) [
    | inl known ↦ rw known (signal_action-IsSound p name d s)
    | inr unknown ↦
        elim (Option-cases (if str_eq name (codes "default") then only_key actions else none)) [
          | inl several ↦ rw (unknown, several) (open_context_menu-IsSound p d s)
          | inr (key, only) ↦ rw (unknown, only) (signal_action-IsSound p key d s)
        ]
  ]

  pub do_action-IsSound :
      (p : ℕ) (d : Daemon) → IsSound received d → IsSound received (notification_do_action p d)
  unfolding notification_do_action
  do_action-IsSound p d s =
      let n = d.world.heap p in
      elim (Bool-cases (not (length n.actions == 0))) [
        | inl many ↦
            rw (notification_do_action, many)
              (do_keyed p (or_else n.default_action_name []) n.actions d s)
        | inr none_given ↦
            rw (notification_do_action, none_given)
              (IsSound-if (is_some n.urls) (notification_open_url p d) d (open_url-IsSound p d s) s)
      ]

  invoke_action-IsSound :
      (action : Str) (d : Daemon) → IsSound received d → IsSound received (invoke_action action d)
  unfolding invoke_action
  invoke_action-IsSound action d s = elim (Option-cases (parse_action action)) [
    | inl bad ↦ rw (invoke_action, bad) s
    | inr (parsed, good) ↦
        elim (Option-cases (find (has_action d.world parsed.0 parsed.1) d.world.displayed)) [
          | inl gone ↦ rw (invoke_action, good) (rw gone s)
          | inr (p, here) ↦
              rw (invoke_action, good) (rw here (signal_action-IsSound p parsed.1 d s))
        ]
  ]

  dispatch_menu_line-IsSound :
      (line : Str) (d : Daemon) → IsSound received d → IsSound received (dispatch_menu_line line d)
  unfolding dispatch_menu_line
  dispatch_menu_line-IsSound [] d s = s
  dispatch_menu_line-IsSound (c ∷ line) d s =
      IsSound-if (c == b'#') (invoke_action line d) (open_browser (c ∷ line) d)
        (invoke_action-IsSound line d s) (open_browser-IsSound (c ∷ line) d s)

  pub dispatch_menu_result-IsSound :
      (output : CString) (d : Daemon)
      → IsSound received d
      → IsSound received (dispatch_menu_result output d)
  unfolding dispatch_menu_result
  dispatch_menu_result-IsSound none d s = s
  dispatch_menu_result-IsSound (some output) d s =
      dispatch_menu_line-IsSound (g_strstrip output) d s
