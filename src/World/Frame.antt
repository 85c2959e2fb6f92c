-- ===== src/World/Frame.antt =====
-- The store, the queues and the effects, and updates of one notification.
use dunst.Base.{ℕ, ℤ, Bool, List, ◌++◌, reverse, Str, ◌==◌, if◌then◌else◌}
use dunst.Notification.{Notification}

-- What a method call is answered with: nothing, a number, texts, the entries of the history or of
-- the rules, or an error.
pub data Value : Type 0 where
  text : Str → Value
  int32 : ℤ → Value
  int64 : ℤ → Value
  bool : Bool → Value
  texts : List Str → Value

abbrev pub Dict : Type 0
Dict = List (Str × Value)

pub data Reply : Type 0 where
  reply_none : Reply
  reply_uint : ℤ → Reply
  reply_texts : List Str → Reply
  reply_dicts : List Dict → Reply
  reply_error : Str → Reply

pub data Effect : Type 0 where
  -- A script with its arguments: the application, summary, body, icon and urgency.
  ran : Str → Str → Str → Str → Str → Str → Effect
  -- The signal NotificationClosed, with the id and the reason.
  closed : ℤ → ℕ → Effect
  -- The signal that the lengths of the queues changed.
  length_changed : Effect
  -- The signal ActionInvoked, with the id and the action.
  action_invoked : ℤ → Str → Effect
  -- NotificationHistoryRemoved with the id, and NotificationHistoryCleared with the count.
  history_removed : ℕ → Effect
  history_cleared : ℕ → Effect
  -- PropertiesChanged, with `paused` and `pauseLevel`; ConfigReloaded, with the paths.
  paused_changed : Bool → ℤ → Effect
  config_reloaded : List Str → Effect
  -- The thread of the context menu for a list of notifications, and the command of a browser.
  menu_opened : List ℕ → Effect
  browser_opened : List Str → Effect
  -- The calls of the output: draw, win_show and win_hide.
  drawn : Effect
  window_shown : Effect
  window_hidden : Effect
  -- The reply to a method call.
  returned : Reply → Effect

-- `unreferenced` holds each pointer once for each call of notification_unref on it; `reads` counts
-- the readings of the clocks.
pub record World : Type 0 where
  pub heap : ℕ → Notification
  pub displayed : List ℕ
  pub waiting : List ℕ
  pub history : List ℕ
  pub next_notification_id : ℤ
  pub unreferenced : List ℕ
  pub reads : ℕ
  pub effects : List Effect

abbrev pub update_at : (ℕ → Notification) → ℕ → Notification → ℕ → Notification
update_at h p n q = if q == p then n else h q

abbrev pub modify : ℕ → (Notification → Notification) → World → World
modify p f w = record w { heap = update_at w.heap p (f (w.heap p)) }

abbrev pub log_effects : List Effect → World → World
log_effects es w = record w { effects = reverse es ++ w.effects }
