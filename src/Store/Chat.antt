-- ===== src/Store/Chat.antt =====
-- The chat of the client's store in src/store/index.ts: its messages and conversations. A message that
-- waits for the server has an id below 0.
use omni_mission_control.Prelude.{
  ℕ, ◌-◌, Bool, true, false, not, ◌&&◌, Option, none, some, List, [], ◌∷◌, ◌++◌, map, filter, any,
  drop, length, String, str_eq, ◌==◌, if◌then◌else◌, ℤ, pos, negsuc,
}

pub data MessageType : Type 0 where
  text system handoff status command : MessageType

pub record ChatMessage : Type 0 where
  pub id : ℤ
  pub conversation_id : String
  pub from_agent : String
  pub to_agent : Option String
  pub content : String
  pub message_type : MessageType
  pub metadata : Option String
  pub created_at : ℕ
  pub read_at : Option ℕ
  pub pending_status : Option String

pub record Conversation : Type 0 where
  pub id : String
  pub name : Option String
  pub participants : List String
  pub last_message : Option ChatMessage
  pub unread_count : ℕ
  pub updated_at : ℕ

pub record Chat : Type 0 where
  pub messages : List ChatMessage
  pub conversations : List Conversation

abbrev pub same_id : ℤ → ℤ → Bool
same_id (pos m) (pos n) = m == n
same_id (negsuc m) (negsuc n) = m == n
same_id _ _ = false

abbrev pub is_positive : ℤ → Bool
is_positive (pos n) = not (n == 0)
is_positive (negsuc n) = false

abbrev pub has_message : ℤ → List ChatMessage → Bool
has_message id = any λ m. same_id m.id id

-- `messages.slice(-500)`
abbrev pub last_500 : List ChatMessage → List ChatMessage
last_500 ms = drop (length ms - 500) ms

unfoldable pub set_chat_messages : List ChatMessage → Chat → Chat
set_chat_messages ms s = record s { messages = last_500 ms }

unfoldable pub bump : ChatMessage → Conversation → Conversation
bump m c =
    if str_eq c.id m.conversation_id
    then record c { last_message = some m; updated_at = m.created_at }
    else c

-- A message that the server has sent before is left out.
unfoldable pub add_chat_message : ChatMessage → Chat → Chat
unfolding bump
add_chat_message m s = if is_positive m.id && has_message m.id s.messages then s else record {
  messages = last_500 (s.messages ++ m ∷ []);
  conversations = map (bump m) s.conversations;
}

unfoldable pub replace_pending_message : ℤ → ChatMessage → Chat → Chat
replace_pending_message temp m s = record s {
  messages =
      map (λ x. if same_id x.id temp then record m { pending_status = some "sent" } else x)
        s.messages;
}

-- The updates are a function on the message.
unfoldable pub update_pending_message : ℤ → (ChatMessage → ChatMessage) → Chat → Chat
update_pending_message temp f s = record s {
  messages = map (λ x. if same_id x.id temp then f x else x) s.messages;
}

unfoldable pub remove_pending_message : ℤ → Chat → Chat
remove_pending_message temp s = record s {
  messages = filter (λ x. not (same_id x.id temp)) s.messages;
}

-- `!msg.read_at`
abbrev pub is_unread : Option ℕ → Bool
is_unread none = true
is_unread (some t) = t == 0

unfoldable pub mark_conversation_read : String → ℕ → Chat → Chat
mark_conversation_read id now s = record {
  conversations =
      map (λ c. if str_eq c.id id then record c { unread_count = 0 } else c) s.conversations;
  messages =
      map
        (λ m.
          if str_eq m.conversation_id id && is_unread m.read_at
          then record m { read_at = some now }
          else m)
        s.messages;
}
