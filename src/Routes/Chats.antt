-- ===== src/Routes/Chats.antt =====
-- backend/main.py: the recent messages of each user, an LRU of at most 500 users with at most 20
-- messages each, and the chat route that fills it.
use domesticoracle.Prelude.{
  ℕ, String, Option, none, some, List, [], ◌∷◌, ◌++◌, leb, length, ◌==◌, text_eq, if◌then◌else◌,
}
use domesticoracle.Prelude.Table.{Table, lookup, put, erase}
use domesticoracle.Python.{Python, concat}

pub record Message : Type 0 where
  pub role : String
  pub content : String

-- `_history`, the user asked for least recently first.
abbrev pub Chats : Type 0
Chats = Table String (List Message)

abbrev pub max_history : ℕ
max_history = 20

abbrev pub max_users : ℕ
max_users = 500

-- `popitem(last=False)`, and the oldest message of a full deque.
abbrev pub drop_first {ℓ} : {A : Type ℓ} → List A → List A
drop_first [] = []
drop_first (x ∷ xs) = xs

unfoldable pub touch_found : String → Chats → Option (List Message) → Chats
unfolding erase
touch_found user h (some messages) = erase user h ++ (user, messages) ∷ []
touch_found user h none = (if leb max_users (length h) then drop_first h else h) ++ (user, []) ∷ []

-- What `_get_history` leaves: the user stands last.
unfoldable pub touch : String → Chats → Chats
unfolding touch_found lookup
touch user h = touch_found user h (lookup user h)

abbrev pub messages_of : Option (List Message) → List Message
messages_of none = []
messages_of (some messages) = messages

-- `deque(maxlen=20).append`
unfoldable pub push : Message → List Message → List Message
push m messages =
    (if leb max_history (length messages) then drop_first messages else messages) ++ m ∷ []

-- `_get_history(user_id).append(m)`
unfoldable pub say : String → Message → Chats → Chats
unfolding touch push
say user m h = let h' = touch user h in put user (push m (messages_of (lookup user h'))) h'

-- GET /history/{user_id}
unfoldable pub get_history : String → Chats → List Message × Chats
unfolding touch
get_history user h = let h' = touch user h in (messages_of (lookup user h'), h')

-- DELETE /memory/{user_id}, without the runtime's own storage.
unfoldable pub wipe_memory : String → Chats → Chats
unfolding touch
wipe_memory user h = put user [] (touch user h)

abbrev pub user_of : String → String
user_of user_id = if user_id == "" then "default" else user_id

module _ (py : Python) where
  -- POST /chat before the stream begins; `none` is the 400 of an empty message. The message is the
  -- one that the agent then gets.
  unfoldable pub begin_chat : String → String → Chats → Option String × Chats
  unfolding say
  begin_chat user_id message h =
      let text = py.strip message in
      if text == ""
      then (none, h)
      else (some text, say (user_of user_id) (record { role = "user"; content = text }) h)

  -- The end of the stream: the texts that were sent, and the exception that ended it, if one did.
  unfoldable pub reply_of : List String → Option String → String
  reply_of parts none = concat parts
  reply_of parts (some error) =
      concat (parts ++ concat ("(Something went wrong: " ∷ error ∷ ")" ∷ []) ∷ [])

  unfoldable pub end_chat : String → List String → Option String → Chats → Chats
  unfolding reply_of say
  end_chat user_id parts error h =
      let reply = reply_of parts error in
      if reply == ""
      then h
      else say (user_of user_id) (record { role = "assistant"; content = reply }) h
