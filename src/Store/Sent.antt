-- ===== src/Store/Sent.antt =====
-- The chat messages of the client's store in src/store/index.ts, over a new message.
use omni_mission_control.Prelude.{
  ℕ, zero, suc, ◌+◌, ◌-◌, ◌≤◌, ◌≡◌, ◌⊎◌, inl, inr, refl, Bool, true, false, ◌&&◌, ◌||◌, List, [],
  ◌∷◌, ◌++◌, drop, ap, length, ==_iff, if◌then◌else◌, ℤ, pos, negsuc, arith,
}
use omni_mission_control.Store.Chat.{
  ChatMessage, Chat, has_message, same_id, is_positive, last_500, add_chat_message,
}

-- A message of the server stands once.
abbrev pub HasUniqueMessages : List ChatMessage → Type 0
HasUniqueMessages [] = Unit
HasUniqueMessages (m ∷ ms) =
    ((is_positive m.id ≡ false) ⊎ (has_message m.id ms ≡ false)) × HasUniqueMessages ms

drop-HasUniqueMessages :
    (n : ℕ) (ms : List ChatMessage) → HasUniqueMessages ms → HasUniqueMessages (drop n ms)
drop-HasUniqueMessages zero ms h = h
drop-HasUniqueMessages (suc n) [] h = tt
drop-HasUniqueMessages (suc n) (m ∷ ms) (h, hs) = drop-HasUniqueMessages n ms hs

length-drop : (n : ℕ) (ms : List ChatMessage) → n ≤ length ms → length (drop n ms) + n ≡ length ms
length-drop zero ms h = omega arith
length-drop (suc n) [] h = absurd (omega arith)
length-drop (suc n) (m ∷ ms) h = omega (arith, length-drop n ms (omega arith))

same_id_sym : (a b : ℤ) → same_id a b ≡ same_id b a
same_id_sym (pos m) (pos n) = ground (arith, ==_iff m n, ==_iff n m)
same_id_sym (pos m) (negsuc n) = refl
same_id_sym (negsuc m) (pos n) = refl
same_id_sym (negsuc m) (negsuc n) = ground (arith, ==_iff m n, ==_iff n m)

same_id-is_positive : (a b : ℤ) → same_id a b ≡ true → is_positive a ≡ is_positive b
same_id-is_positive (pos m) (pos n) h = ground (arith, ==_iff m n)
same_id-is_positive (pos m) (negsuc n) h = cc
same_id-is_positive (negsuc m) (pos n) h = cc
same_id-is_positive (negsuc m) (negsuc n) h = refl

has_message-append :
    (id : ℤ) (ms : List ChatMessage) (m : ChatMessage)
    → has_message id (ms ++ m ∷ []) ≡ (has_message id ms || same_id m.id id)
has_message-append id [] m = ground arith
has_message-append id (x ∷ ms) m = ground (arith, has_message-append id ms m)

new_of_rest :
    (x m : ChatMessage) (ms : List ChatMessage)
    → (is_positive m.id ≡ false) ⊎ (has_message m.id (x ∷ ms) ≡ false)
    → (is_positive m.id ≡ false) ⊎ (has_message m.id ms ≡ false)
new_of_rest x m ms new = ground arith

appended-IsNew :
    (x m : ChatMessage) (ms : List ChatMessage)
    → (is_positive m.id ≡ false) ⊎ (has_message m.id (x ∷ ms) ≡ false)
    → (is_positive x.id ≡ false) ⊎ (has_message x.id ms ≡ false)
    → (is_positive x.id ≡ false) ⊎ (has_message x.id (ms ++ m ∷ []) ≡ false)
appended-IsNew x m ms new h =
    ground
      (arith, has_message-append x.id ms m, same_id_sym m.id x.id, same_id-is_positive m.id x.id)

append-HasUniqueMessages :
    (ms : List ChatMessage) (m : ChatMessage)
    → (is_positive m.id ≡ false) ⊎ (has_message m.id ms ≡ false)
    → HasUniqueMessages ms
    → HasUniqueMessages (ms ++ m ∷ [])
append-HasUniqueMessages [] m new h = (inr refl, tt)
append-HasUniqueMessages (x ∷ ms) m new (h, hs) =
    (appended-IsNew x m ms new h, append-HasUniqueMessages ms m (new_of_rest x m ms new) hs)

length-append_one :
    (ms : List ChatMessage) (m : ChatMessage) → length (ms ++ m ∷ []) ≡ suc (length ms)
length-append_one [] m = refl
length-append_one (x ∷ ms) m = ap suc (length-append_one ms m)

length-last_500 : (ms : List ChatMessage) → length (last_500 ms) ≤ 500
length-last_500 ms = omega (arith, length-drop (length ms - 500) ms (omega arith))

kept_under_guard :
    (P : Chat → Type 0) (p h : Bool) (s r : Chat)
    → P s
    → ((p ≡ false) ⊎ (h ≡ false) → P r)
    → P (if p && h then s else r)
kept_under_guard P true true s r old new = old
kept_under_guard P true false s r old new = new (inr refl)
kept_under_guard P false h s r old new = new (inl refl)

abbrev pub IsTidy : Chat → Type 0
IsTidy s = HasUniqueMessages s.messages × length s.messages ≤ 500

-- A new message, whether the socket or a reply of the server brings it, leaves every message of the
-- server in the chat once, and at most 500 messages.
pub add_chat_message-IsTidy :
    (m : ChatMessage) (s : Chat) → IsTidy s → IsTidy (add_chat_message m s)
unfolding add_chat_message
add_chat_message-IsTidy m s h =
    kept_under_guard IsTidy (is_positive m.id) (has_message m.id s.messages) s _ h λ new. (
      drop-HasUniqueMessages (length (s.messages ++ m ∷ []) - 500) (s.messages ++ m ∷ [])
          (append-HasUniqueMessages s.messages m new h.0),
      length-last_500 (s.messages ++ m ∷ []),
    )
