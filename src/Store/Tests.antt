-- ===== src/Store/Tests.antt =====
-- Runs of the client's store, and instances of its theorems.
use omni_mission_control.Prelude.{◌≡◌, refl, none, [], ◌∷◌, arith}
use omni_mission_control.Store.{LogEntry, Notification, Store, add_log}
use omni_mission_control.Store.Sent.{IsTidy, add_chat_message-IsTidy}
use omni_mission_control.Prelude.{some, map, pos, negsuc}
use omni_mission_control.Store.Chat.{
  ChatMessage, Chat, text, add_chat_message, replace_pending_message, mark_conversation_read,
}

abbrev started : LogEntry
started = record { id = "a"; message = "started" }

abbrev hello : Notification
hello = record { id = 1; title = "hello"; read_at = none }

abbrev again : Notification
again = record { id = 2; title = "again"; read_at = none }

abbrev two_unread : Store
two_unread = record {
  logs = started ∷ [];
  notifications = hello ∷ again ∷ [];
  unread_notification_count = 2;
}

-- A log with an id that is there replaces the old one.
replaced :
    (add_log (record started { message = "done" }) two_unread).logs
    ≡ record started { message = "done" } ∷ []
unfolding add_log
replaced = refl

abbrev greeting : ChatMessage
greeting = record {
  id = negsuc 0;
  conversation_id = "c";
  from_agent = "human";
  to_agent = some "lead";
  content = "hello";
  message_type = text;
  metadata = none;
  created_at = 5;
  read_at = none;
  pending_status = some "sending";
}

abbrev stored_greeting : ChatMessage
stored_greeting = record greeting { id = pos 7; pending_status = none }

abbrev quiet : Chat
quiet = record {
  messages = [];
  conversations =
      record {
        id = "c";
        name = none;
        participants = "human" ∷ "lead" ∷ [];
        last_message = none;
        unread_count = 1;
        updated_at = 1;
      }
      ∷ [];
}

-- The reply takes the place of the pending message, and the same message from the socket is left out.
sent_once :
    (add_chat_message stored_greeting (
      replace_pending_message
        (negsuc 0)
        stored_greeting
        (add_chat_message greeting quiet))).messages
    ≡ record stored_greeting { pending_status = some "sent" } ∷ []
unfolding add_chat_message replace_pending_message
sent_once = refl

-- The socket brings the message before the reply does: it stands twice.
sent_twice :
    (replace_pending_message
      (negsuc 0)
      stored_greeting
      (add_chat_message stored_greeting (add_chat_message greeting quiet))).messages
    ≡ record stored_greeting { pending_status = some "sent" } ∷ stored_greeting ∷ []
unfolding add_chat_message replace_pending_message
sent_twice = refl

-- Opening the conversation reads it.
opened :
    map
      (λ (m : ChatMessage). m.read_at)
      (mark_conversation_read "c" 9 (add_chat_message greeting quiet)).messages
    ≡ some 9 ∷ []
unfolding add_chat_message mark_conversation_read
opened = refl

add_chat_message-IsTidy_example : IsTidy (add_chat_message greeting quiet)
add_chat_message-IsTidy_example = add_chat_message-IsTidy greeting quiet (tt, omega arith)
