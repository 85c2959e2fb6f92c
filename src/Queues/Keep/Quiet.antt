-- ===== src/Queues/Keep/Quiet.antt =====
-- The updates of one notification and of the effects.
use dunst.Base.{List, if◌then◌else◌, true, false, ℕ, ℤ, Bool, CString, ◌≡◌, refl, ==_iff, arith}
use dunst.Settings.{Settings}
use dunst.Notification.{Notification}
use dunst.World.{
  Effect, log_effects, World, Env, modify, notification_run_script, signal_notification_closed,
  restart, notification_transfer_icon, replace_path, notification_icon_replace_path,
}
use dunst.Queues.Keep.{IsQuiet}

pub modify-IsQuiet :
    (p : ℕ) (f : Notification → Notification) (w : World)
    → ((n : Notification) → (f n).id ≡ n.id)
    → IsQuiet w (modify p f w)
modify-IsQuiet p f w h = record {
  ids = λ q. ground (arith, ==_iff q p, h (w.heap p));
  displayed = refl;
  waiting = refl;
  history = refl;
  unreferenced = refl;
}

pub IsQuiet-refl : (w : World) → IsQuiet w w
IsQuiet-refl w = record {
  ids = λ q. refl;
  displayed = refl;
  waiting = refl;
  history = refl;
  unreferenced = refl;
}

pub IsQuiet-if : {v w : World} (b : Bool) → IsQuiet v w → IsQuiet v (if b then w else v)
IsQuiet-if true q = q
IsQuiet-if {v} false q = IsQuiet-refl v

pub notification_run_script-IsQuiet :
    (c : Settings) (p : ℕ) (w : World) → IsQuiet w (notification_run_script c p w)
unfolding notification_run_script
notification_run_script-IsQuiet c p w = record {
  ids = λ q. ground (arith, ==_iff q p);
  displayed = ground arith;
  waiting = ground arith;
  history = ground arith;
  unreferenced = ground arith;
}

pub signal_notification_closed-IsQuiet :
    (p reason : ℕ) (w : World) → IsQuiet w (signal_notification_closed p reason w)
unfolding signal_notification_closed
signal_notification_closed-IsQuiet p reason w = record {
  ids = λ q. ground (arith, ==_iff q p);
  displayed = ground arith;
  waiting = ground arith;
  history = ground arith;
  unreferenced = ground arith;
}

pub restart-IsQuiet : (e : Env) (p : ℕ) (w : World) → IsQuiet w (restart e p w)
unfolding restart
restart-IsQuiet e p w = record {
  ids = λ q. ground (arith, ==_iff q p);
  displayed = ground arith;
  waiting = ground arith;
  history = ground arith;
  unreferenced = ground arith;
}

pub notification_transfer_icon-IsQuiet :
    (from to : ℕ) (w : World) → IsQuiet w (notification_transfer_icon from to w)
unfolding notification_transfer_icon
notification_transfer_icon-IsQuiet from to w = record {
  ids = λ q. ground (arith, ==_iff q from, ==_iff q to, ==_iff from to);
  displayed = ground arith;
  waiting = ground arith;
  history = ground arith;
  unreferenced = ground arith;
}

pub replace_path-id :
    (e : Env) (name : CString) (now : ℤ) (n : Notification) → (replace_path e name now n).id ≡ n.id
unfolding replace_path
replace_path-id e name now n = ground arith

pub notification_icon_replace_path-IsQuiet :
    (e : Env) (name : CString) (p : ℕ) (w : World)
    → IsQuiet w (notification_icon_replace_path e name p w)
unfolding notification_icon_replace_path
notification_icon_replace_path-IsQuiet e name p w = record {
  ids = λ q. ground (arith, ==_iff q p, replace_path-id e name (e.wall w.reads) (w.heap p));
  displayed = ground arith;
  waiting = ground arith;
  history = ground arith;
  unreferenced = ground arith;
}

pub log_effects-IsQuiet : (es : List Effect) (w : World) → IsQuiet w (log_effects es w)
log_effects-IsQuiet es w = record {
  ids = λ q. refl;
  displayed = refl;
  waiting = refl;
  history = refl;
  unreferenced = refl;
}
