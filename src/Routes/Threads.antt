-- ===== src/Routes/Threads.antt =====
-- The chat history keeps its bounds.
use domesticoracle.Prelude.{
  String, ◌≡◌, refl, Option, none, some, List, [], ◌∷◌, ◌++◌, ◌≤◌, suc, leb, length, length-append,
  All, All-append, arith, ◌==◌, text_eq, Bool-cases, inl, inr, subst,
}
use domesticoracle.Prelude.Table.{lookup, put, erase, eq_refl}
use domesticoracle.Python.{Python}
use domesticoracle.Routes.Chats.{
  Message, Chats, max_history, max_users, drop_first, touch, touch_found, messages_of, push, say,
  get_history, wipe_memory, reply_of, begin_chat, end_chat,
}

abbrev pub Thread : Type 0
Thread = String × List Message

abbrev pub IsShort : Thread → Type 0
IsShort row = length row.1 ≤ max_history

-- At most 500 users, none with more than 20 messages.
pub record IsBounded (h : Chats) : Type 0 where
  pub users : length h ≤ max_users
  pub threads : All IsShort h

erase-length : (user : String) (h : Chats) → length (erase user h) ≤ length h
unfolding erase
erase-length user [] = omega arith
erase-length user (row ∷ h) = ground (arith, erase-length user h)

erase-found :
    (user : String) (h : Chats) (messages : List Message)
    → lookup user h ≡ some messages
    → suc (length (erase user h)) ≤ length h
unfolding erase lookup
erase-found user [] messages found = cc
erase-found user (row ∷ h) messages found =
    ground (arith, erase-found user h messages, erase-length user h)

put-length :
    (user : String) (v : List Message) (h : Chats) (messages : List Message)
    → lookup user h ≡ some messages
    → length (put user v h) ≡ length h
unfolding put lookup
put-length user v [] messages found = cc
put-length user v (row ∷ h) messages found = ground (arith, put-length user v h messages)

erase-All : (user : String) (h : Chats) → All IsShort h → All IsShort (erase user h)
unfolding erase
erase-All user [] a = tt
erase-All user ((k, v) ∷ h) a = elim (Bool-cases (k == user)) [
  | inl same ↦ rw same (erase-All user h a.1)
  | inr other ↦ rw other (a.0, erase-All user h a.1)
]

put-All :
    (user : String) (v : List Message) (h : Chats)
    → length v ≤ max_history
    → All IsShort h
    → All IsShort (put user v h)
unfolding put
put-All user v [] short a = (short, tt)
put-All user v ((k, w) ∷ h) short a = elim (Bool-cases (k == user)) [
  | inl same ↦ rw same (short, a.1)
  | inr other ↦ rw other (a.0, put-All user v h short a.1)
]

lookup-All :
    (user : String) (h : Chats) → All IsShort h → length (messages_of (lookup user h)) ≤ max_history
unfolding lookup
lookup-All user [] a = omega arith
lookup-All user ((k, v) ∷ h) a = elim (Bool-cases (k == user)) [
  | inl same ↦ rw same a.0
  | inr other ↦ rw other (lookup-All user h a.1)
]

drop_first-All : (h : Chats) → All IsShort h → All IsShort (drop_first h)
drop_first-All [] a = tt
drop_first-All (row ∷ h) a = a.1

lookup-last :
    (user : String) (v : List Message) (h : Chats)
    → (messages : List Message) × (lookup user (h ++ (user, v) ∷ []) ≡ some messages)
unfolding lookup
lookup-last user v [] = (v, rw (eq_refl user))
lookup-last user v ((k, w) ∷ h) = elim (Bool-cases (k == user)) [
  | inl same ↦ (w, rw same)
  | inr other ↦ rw other (lookup-last user v h)
]

drop_first-length {ℓ} : {A : Type ℓ} (xs : List A) → suc (length (drop_first xs)) ≤ suc (length xs)
drop_first-length [] = omega arith
drop_first-length (x ∷ xs) = omega arith

touch_found-IsBounded :
    (user : String) (h : Chats) (found : Option (List Message))
    → lookup user h ≡ found
    → IsBounded h
    → IsBounded (touch_found user h found)
unfolding touch_found
touch_found-IsBounded user h (some messages) e b = record {
  users = omega (
    arith,
    erase-found user h messages e,
    length-append (erase user h) ((user, messages) ∷ []),
    b.users,
  );
  threads =
      All-append IsShort (erase user h) _ (erase-All user h b.threads)
        (subst (λ o. length (messages_of o) ≤ max_history) e (lookup-All user h b.threads), tt);
}
touch_found-IsBounded user h none e b = elim (Bool-cases (leb max_users (length h))) [
  | inl full ↦ rw full (record {
    users =
        ground
          (arith, drop_first-length h, length-append (drop_first h) ((user, []) ∷ []), b.users);
    threads = All-append IsShort (drop_first h) _ (drop_first-All h b.threads) (omega arith, tt);
  })
  | inr room ↦ rw room (record {
    users = ground (arith, length-append h ((user, []) ∷ []), room);
    threads = All-append IsShort h _ b.threads (omega arith, tt);
  })
]

touch-IsBounded : (user : String) (h : Chats) → IsBounded h → IsBounded (touch user h)
unfolding touch
touch-IsBounded user h b = touch_found-IsBounded user h (lookup user h) refl b

touch_found-found :
    (user : String) (h : Chats) (found : Option (List Message))
    → (messages : List Message) × (lookup user (touch_found user h found) ≡ some messages)
unfolding touch_found
touch_found-found user h (some messages) = lookup-last user messages (erase user h)
touch_found-found user h none = lookup-last user [] _

touch-found :
    (user : String) (h : Chats)
    → (messages : List Message) × (lookup user (touch user h) ≡ some messages)
unfolding touch
touch-found user h = touch_found-found user h (lookup user h)

push-length :
    (m : Message) (messages : List Message)
    → length messages ≤ max_history
    → length (push m messages) ≤ max_history
unfolding push
push-length m messages short = elim (Bool-cases (leb max_history (length messages))) [
  | inl full ↦ rw full (
      ground
        (arith, drop_first-length messages, length-append (drop_first messages) (m ∷ []), short))
  | inr room ↦ rw room (ground (arith, length-append messages (m ∷ []), room))
]

put-IsBounded :
    (user : String) (v : List Message) (h : Chats)
    → length v ≤ max_history
    → IsBounded (touch user h)
    → IsBounded (put user v (touch user h))
put-IsBounded user v h short b =
    let (messages, found) = touch-found user h in
    record {
      users = omega (arith, put-length user v (touch user h) messages found, b.users);
      threads = put-All user v (touch user h) short b.threads;
    }

say-IsBounded : (user : String) (m : Message) (h : Chats) → IsBounded h → IsBounded (say user m h)
unfolding say
say-IsBounded user m h b =
    let b' = touch-IsBounded user h b in
    put-IsBounded user _ h (push-length m _ (lookup-All user (touch user h) b'.threads)) b'

-- What the routes do with the history.
pub data Visit : Type 0 where
  began : (user_id message : String) → Visit
  ended : (user_id : String) (parts : List String) (error : Option String) → Visit
  read : (user_id : String) → Visit
  wiped : (user_id : String) → Visit

module _ (py : Python) where
  unfoldable pub attend : Visit → Chats → Chats
  unfolding begin_chat end_chat get_history wipe_memory
  attend (began user_id message) h = (begin_chat py user_id message h).1
  attend (ended user_id parts error) h = end_chat py user_id parts error h
  attend (read user_id) h = (get_history user_id h).1
  attend (wiped user_id) h = wipe_memory user_id h

  -- The last attend stands first.
  abbrev pub visits : List Visit → Chats → Chats
  visits [] h = h
  visits (v ∷ vs) h = attend v (visits vs h)

  begin_chat-IsBounded :
      (user_id message : String) (h : Chats)
      → IsBounded h
      → IsBounded (begin_chat py user_id message h).1
  unfolding begin_chat
  begin_chat-IsBounded user_id message h b = elim (Bool-cases (py.strip message == "")) [
    | inl empty ↦ rw empty b
    | inr full ↦ rw full (say-IsBounded _ _ h b)
  ]

  end_chat-IsBounded :
      (user_id : String) (parts : List String) (error : Option String) (h : Chats)
      → IsBounded h
      → IsBounded (end_chat py user_id parts error h)
  unfolding end_chat
  end_chat-IsBounded user_id parts error h b = elim (Bool-cases (reply_of py parts error == "")) [
    | inl empty ↦ rw empty b
    | inr full ↦ rw full (say-IsBounded _ _ h b)
  ]

  attend-IsBounded : (v : Visit) (h : Chats) → IsBounded h → IsBounded (attend v h)
  unfolding attend get_history wipe_memory
  attend-IsBounded (began user_id message) h b = begin_chat-IsBounded user_id message h b
  attend-IsBounded (ended user_id parts error) h b = end_chat-IsBounded user_id parts error h b
  attend-IsBounded (read user_id) h b = touch-IsBounded user_id h b
  attend-IsBounded (wiped user_id) h b =
      put-IsBounded user_id [] h (omega arith) (touch-IsBounded user_id h b)

  -- After any visits of a new process, at most 500 users are kept, and none with more than 20
  -- messages.
  pub visits-IsBounded : (vs : List Visit) → IsBounded (visits vs [])
  visits-IsBounded [] = record { users = omega arith; threads = tt }
  visits-IsBounded (v ∷ vs) = attend-IsBounded v (visits vs []) (visits-IsBounded vs)
