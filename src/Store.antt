-- ===== src/Store.antt =====
-- src/store/index.ts: the logs and the notifications of the client's store. `set`
-- with a function is a function on the state; the fields that setters only overwrite are left out.
pub mod Logs
pub mod Unread
pub mod Chat
pub mod Sent
mod Tests
use omni_mission_control.Prelude.{
  ℕ, ◌+◌, ◌-◌, Bool, true, false, not, ◌&&◌, Option, none, some, List, [], ◌∷◌, ◌++◌, String, map,
  any, count, take, length, ltb, ◌==◌, str_eq, if◌then◌else◌, is_some, reverse,
}

-- An entry of the logs, of which the code reads the id.
pub record LogEntry : Type 0 where
  pub id : String
  pub message : String

-- `read_at` is never 0, which the code would take for unread.
pub record Notification : Type 0 where
  pub id : ℕ
  pub title : String
  pub read_at : Option ℕ

pub record Store : Type 0 where
  pub logs : List LogEntry
  pub notifications : List Notification
  pub unread_notification_count : ℕ

abbrev pub has_log : String → List LogEntry → Bool
has_log id = any (λ l. str_eq l.id id)

-- The first entry with the id of the new one is replaced.
abbrev pub replace_log : LogEntry → List LogEntry → List LogEntry
replace_log log [] = []
replace_log log (l ∷ ls) =
    let rest = replace_log log ls in if str_eq l.id log.id then log ∷ ls else l ∷ rest

unfoldable pub add_log : LogEntry → Store → Store
add_log log s =
    if has_log log.id s.logs
    then record s { logs = replace_log log s.logs }
    else record s { logs = take 1000 (log ∷ s.logs) }

abbrev pub is_unread : Notification → Bool
is_unread n = not (is_some n.read_at)

unfoldable pub set_notifications : List Notification → Store → Store
set_notifications ns s = record s {
  notifications = ns;
  unread_notification_count = count is_unread ns;
}

unfoldable pub add_notification : Notification → Store → Store
add_notification n s = record s {
  notifications = n ∷ s.notifications;
  unread_notification_count = s.unread_notification_count + 1;
}

abbrev pub read_one : ℕ → ℕ → Notification → Notification
read_one id now n = if n.id == id then record n { read_at = some now } else n

unfoldable pub mark_notification_read : ℕ → ℕ → Store → Store
mark_notification_read id now s = record s {
  notifications = map (read_one id now) s.notifications;
  unread_notification_count = s.unread_notification_count - 1;
}

abbrev pub read_if : ℕ → Notification → Notification
read_if now n = if is_some n.read_at then n else record n { read_at = some now }

unfoldable pub mark_all_notifications_read : ℕ → Store → Store
mark_all_notifications_read now s = record s {
  notifications = map (read_if now) s.notifications;
  unread_notification_count = 0;
}
