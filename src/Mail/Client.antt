-- ===== src/Mail/Client.antt =====
-- backend/domestic_oracle/atomicmail_client.py: sending, replying and reading mail by JMAP calls.
use domesticoracle.Prelude.{ℕ, String, false, List, [], ◌∷◌, map, text_eq, if◌then◌else◌}
use domesticoracle.Python.{
  Dict, Python, Json, null, bool, num, str, arr, nil, get, get_json, get_default, num_of, concat,
  truthy,
}
use domesticoracle.Policy.{text_of}
use domesticoracle.Mail.Calls.{
  Service, Account, ok, Call, ◌>>=◌, lift, as_dict, load_credentials, jmap,
}
use domesticoracle.Mail.Messages.{
  Original, dict, list, method, response, first_or, first_dict, send_calls, reply_calls, confirmed,
  answer_subject,
}

module _ {W : Type 0} (py : Python) (sv : Service W) (fuel : ℕ) where
  abbrev email_get : Account → Json → List String → String → Json
  email_get a email_id properties id =
      method "Email/get"
        (("accountId", str a.creds.inbox_id)
          ∷ ("ids", list (email_id ∷ []))
          ∷ ("properties", list (map str properties))
          ∷ [])
        id

  -- A message's calls, and what the answer says of its submission.
  unfoldable pub submit : List Json → (sent failed : String) → Account → Call W String
  unfolding jmap confirmed get
  submit calls sent failed a = do
    responses ← jmap py sv fuel calls a
    sub ← lift (response "sub" responses)
    lift (confirmed py sent failed sub)

  unfoldable pub send : (to subject body : Json) → Call W String
  unfolding load_credentials submit send_calls
  send to subject body = do
    a ← load_credentials py sv fuel
    submit (send_calls a to subject body) (concat ("Email sent to " ∷ text_of py to ∷ "." ∷ []))
        "Send failed: " a

  -- `(_jmap([Email/get …]).get(id, {}).get("list") or [{}])[0]`
  unfoldable pub read_email : Account → Json → List String → String → Call W Dict
  unfolding jmap first_or get
  read_email a email_id properties id = do
    responses ← jmap py sv fuel (email_get a email_id properties id ∷ []) a
    result ← lift (response id responses)
    found ← lift (first_dict (get_json "list" result))
    lift (as_dict found)

  -- The sender, the subject of the answer and the message id of an email.
  unfoldable pub original_in : Dict → Call W Original
  unfolding answer_subject first_or get
  original_in email = do
    sender ← lift (first_dict (get_json "from" email))
    from ← lift (as_dict sender)
    subject ← lift (answer_subject py (get_default "subject" (str "") email))
    message_id ← lift (first_or (str "") (get_json "messageId" email))
    lift (
        ok (record {
          to = get_default "email" (str "") from;
          subject = subject;
          in_reply_to = message_id;
        }))

  unfoldable pub reply : (email_id body : Json) → Call W String
  unfolding load_credentials read_email original_in submit reply_calls
  reply email_id body = do
    a ← load_credentials py sv fuel
    email ← read_email a email_id ("subject" ∷ "from" ∷ "messageId" ∷ []) "orig"
    o ← original_in email
    submit (reply_calls a o body) (concat ("Reply sent to " ∷ text_of py o.to ∷ "." ∷ []))
        "Reply failed: " a

  unfoldable pub store_mailbox : Json → Call W Json
  store_mailbox id (c, w) = (ok id, (record c { mailbox_id = id }, w))

  unfoldable pub keep_mailbox : Json → Call W Json
  unfolding first_or store_mailbox
  keep_mailbox ids (c, w) =
      if truthy ids
      then (lift (first_or null ids) >>= store_mailbox) (c, w)
      else (ok c.mailbox_id, (c, w))

  abbrev pub mailbox_query : Account → List Json
  mailbox_query a =
      method "Mailbox/query"
        (("accountId", str a.creds.inbox_id) ∷ ("filter", dict (("role", str "inbox") ∷ [])) ∷ [])
        "mq"
      ∷ []

  unfoldable pub ask_mailbox_id : Account → Call W Json
  unfolding jmap keep_mailbox get
  ask_mailbox_id a = do
    responses ← jmap py sv fuel (mailbox_query a) a
    mq ← lift (response "mq" responses)
    keep_mailbox (get_default "ids" (arr nil) mq)

  -- `_get_inbox_mailbox_id`
  unfoldable pub get_inbox_mailbox_id : Account → Call W Json
  unfolding ask_mailbox_id
  get_inbox_mailbox_id a (c, w) =
      if truthy c.mailbox_id then (ok c.mailbox_id, (c, w)) else ask_mailbox_id a (c, w)

  abbrev query : Account → Json → ℕ → List Json
  query a filter limit =
      method "Email/query"
        (("accountId", str a.creds.inbox_id)
          ∷ ("filter", filter)
          ∷ (
            "sort",
            list (dict (("property", str "receivedAt") ∷ ("isAscending", bool false) ∷ []) ∷ []),
          )
          ∷ ("limit", num (num_of limit))
          ∷ [])
        "q"
      ∷ method "Email/get"
          (("accountId", str a.creds.inbox_id)
            ∷ (
              "#ids",
              dict
                  (("resultOf", str "q") ∷ ("name", str "Email/query") ∷ ("path", str "/ids") ∷ []),
            )
            ∷ (
              "properties",
              list (map str ("id" ∷ "subject" ∷ "from" ∷ "receivedAt" ∷ "preview" ∷ [])),
            )
            ∷ [])
          "emails"
      ∷ []

  unfoldable pub list_inbox : ℕ → Call W Json
  unfolding load_credentials jmap get_inbox_mailbox_id get
  list_inbox limit = do
    a ← load_credentials py sv fuel
    inbox_id ← get_inbox_mailbox_id a
    responses ←
        jmap py sv fuel
          (query a (dict (if truthy inbox_id then ("inMailbox", inbox_id) ∷ [] else [])) limit) a
    emails ← lift (response "emails" responses)
    lift (ok (get_default "list" (arr nil) emails))

  unfoldable pub search : String → ℕ → Call W Json
  unfolding load_credentials jmap get
  search wanted limit = do
    a ← load_credentials py sv fuel
    responses ← jmap py sv fuel (query a (dict (("text", str wanted) ∷ [])) limit) a
    emails ← lift (response "emails" responses)
    lift (ok (get_default "list" (arr nil) emails))

  unfoldable pub get_email_preview : String → Call W String
  unfolding load_credentials read_email get
  get_email_preview email_id = do
    a ← load_credentials py sv fuel
    email ← read_email a (str email_id) ("subject" ∷ "preview" ∷ []) "e"
    lift (
        ok (
          py.strip (
            concat (
              text_of py (get_default "subject" (str "") email)
              ∷ "\n"
              ∷ text_of py (get_default "preview" (str "") email)
              ∷ []))))
