-- ===== src/Routes/Memory.antt =====
-- What is said is remembered, and does not touch the threads of others.
use domesticoracle.Prelude.{
  String, ◌≡◌, ◌≢◌, ◌∙◌, ap, Option, none, some, List, [], ◌∷◌, ◌++◌, false, leb, length, last?,
  last?-append, arith, ◌==◌, text_eq, eq_iff, if◌then◌else◌,
}
use domesticoracle.Prelude.Table.{lookup, erase, lookup-put, lookup-erase, eq_refl}
use domesticoracle.Routes.Chats.{
  Message, Chats, max_history, max_users, drop_first, touch, touch_found, messages_of, push, say,
}

lookup-append_other :
    (j user : String) (v : List Message) (h : Chats)
    → (user == j) ≡ false
    → lookup j (h ++ (user, v) ∷ []) ≡ lookup j h
unfolding lookup
lookup-append_other j user v [] other = rw other
lookup-append_other j user v ((k, w) ∷ h) other =
    ap (λ (o : Option (List Message)). if k == j then some w else o)
      (lookup-append_other j user v h other)

touch_found-others :
    (j user : String) (h : Chats) (found : Option (List Message))
    → (user == j) ≡ false
    → leb max_users (length h) ≡ false
    → lookup j (touch_found user h found) ≡ lookup j h
unfolding touch_found
touch_found-others j user h (some v) other room =
    lookup-append_other j user v (erase user h) other ∙ lookup-erase user j h ∙ rw other
touch_found-others j user h none other room = rw room (lookup-append_other j user [] h other)

push-last : (m : Message) (messages : List Message) → last? (push m messages) ≡ some m
unfolding push
push-last m messages =
    last?-append (if leb max_history (length messages) then drop_first messages else messages) m

-- A message that is said stands last in its user's thread, and while fewer than 500 users are kept
-- the threads of all others stay as they are.
pub said_last :
    (user j : String) (m : Message) (h : Chats)
    → user ≢ j
    → leb max_users (length h) ≡ false
    → (last? (messages_of (lookup user (say user m h))) ≡ some m)
      × (lookup j (say user m h) ≡ lookup j h)
unfolding say touch
said_last user j m h other room =
    let different : (user == j) ≡ false = ground (arith, eq_iff user j) in
    (
      rw (lookup-put user user _ (touch user h), eq_refl user)
          (push-last m (messages_of (lookup user (touch user h)))),
      rw (lookup-put user j _ (touch user h), different)
          (touch_found-others j user h (lookup user h) different room),
    )
