-- ===== src/Notification/Order.antt =====
-- notification_cmp and notification_is_duplicate (src/notification.c).
use dunst.Base.{
  ℤ, Bool, true, not, ◌&&◌, ◌||◌, some, is_some, ◌-ℤ◌, to_int, eq_ℤ, if◌then◌else◌, CString,
  cstring_eq,
}
use dunst.Settings.{Settings, is_update, is_ascending, is_descending}
use dunst.Notification.{Notification, icon_off}

-- notification_cmp after `a_order` and `b_order` are chosen. What it returns is an `int`, so the
-- difference of two 64-bit times is cut to its 32 low bits.
unfoldable pub compare_ordered : Settings → Notification → Notification → ℤ
compare_ordered c a b =
    if is_ascending c.sort && not (eq_ℤ a.urgency b.urgency)
    then a.urgency -ℤ b.urgency
    else if is_descending c.sort && not (eq_ℤ a.urgency b.urgency)
    then b.urgency -ℤ a.urgency
    else if is_update c.sort
    then to_int (b.timestamp -ℤ a.timestamp)
    else a.id -ℤ b.id

unfoldable pub notification_cmp : Settings → Notification → Notification → ℤ
unfolding compare_ordered
notification_cmp c a b =
    if is_update c.sort && c.origin_bottom then compare_ordered c b a else compare_ordered c a b

-- The icons count as the same: by id where both have one, else by name where both have one.
abbrev same_icon : Notification → Notification → CString → CString → Bool
same_icon a b (some x) (some y) = cstring_eq (some x) (some y)
same_icon a b _ _ =
    if is_some a.iconname && is_some b.iconname then cstring_eq a.iconname b.iconname else true

unfoldable pub notification_is_duplicate : Notification → Notification → Bool
notification_is_duplicate a b =
    cstring_eq a.appname b.appname
    && cstring_eq a.summary b.summary
    && cstring_eq a.body b.body
    && eq_ℤ a.urgency b.urgency
    && (eq_ℤ a.icon_position icon_off
        || eq_ℤ b.icon_position icon_off
        || same_icon a b a.icon_id b.icon_id)
