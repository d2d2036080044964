-- ===== src/Mail/Messages.antt =====
-- backend/domestic_oracle/atomicmail_client.py: the JMAP calls of a message, and what is read of the
-- responses.
use Prim.Native.String.{◌++◌ as append_text}
use text.Mathlib.Text.{starts_with}
use domesticoracle.Prelude.{String, true, List, [], ◌∷◌, ◌==◌, text_eq, if◌then◌else◌}
use domesticoracle.Python.{
  Python, Json, bool, str, obj, arr, item, Dict, end, get, get_json, get_default, concat, truthy,
  take_text, dict_of, items_of,
}
use domesticoracle.Policy.{text_of}
use domesticoracle.Mail.Calls.{Account, Outcome, ok, refused, crashed, as_dict}

-- `_from_addr`; `inboxId` counts as absent where it is empty.
unfoldable pub from_addr : Account → String
from_addr a =
    if a.email == ""
    then concat
        ((if a.creds.inbox_id == "" then "oracle" else a.creds.inbox_id) ∷ "@atomicmail.ai" ∷ [])
    else a.email

abbrev pub dict : List (String × Json) → Json
dict fields = obj (dict_of fields)

abbrev pub list : List Json → Json
list vs = arr (items_of vs)

abbrev address : Json → Json
address email = list (dict (("email", email) ∷ []) ∷ [])

-- A call of a JMAP method, with the id of its response.
abbrev pub method : String → List (String × Json) → String → Json
method name args id = list (str name ∷ dict args ∷ str id ∷ [])

-- `responses.get(id, {})`, on which `.get` is called next.
abbrev pub response : String → Dict → Outcome Dict
response id responses = as_dict (get_default id (obj end) responses)

-- `(v or [other])[0]`
unfoldable pub first_or : Json → Json → Outcome Json
first_or other (arr (item v vs)) = ok v
first_or other (str s) = if s == "" then ok other else ok (str (take_text 1 s))
first_or other v = if truthy v then crashed "not subscriptable" else ok other

abbrev pub first_dict : Json → Outcome Json
first_dict v = first_or (obj end) v

-- The two calls of a message: the draft, and its submission.
abbrev message_body : Json → List (String × Json)
message_body body =
    ("keywords", dict (("$draft", bool true) ∷ []))
    ∷ ("bodyValues", dict (("body1", dict (("value", body) ∷ ("charset", str "utf-8") ∷ [])) ∷ []))
    ∷ ("textBody", list (dict (("partId", str "body1") ∷ ("type", str "text/plain") ∷ []) ∷ []))
    ∷ []

abbrev submission : Account → String → Json → Json
submission a draft to =
    method "EmailSubmission/set"
      (("accountId", str a.creds.inbox_id)
        ∷ (
          "create",
          dict (
              (
                "sub1",
                dict (
                    ("emailId", str (append_text "#" draft))
                    ∷ (
                      "envelope",
                      dict (
                          ("mailFrom", dict (("email", str (from_addr a)) ∷ []))
                          ∷ ("rcptTo", address to)
                          ∷ []),
                    )
                    ∷ []),
              )
              ∷ []),
        )
        ∷ [])
      "sub"

abbrev creation : Account → String → List (String × Json) → Json
creation a draft fields =
    method "Email/set"
      (("accountId", str a.creds.inbox_id) ∷ ("create", dict ((draft, dict fields) ∷ [])) ∷ [])
      "email"

unfoldable pub send_calls : Account → (to subject body : Json) → List Json
unfolding from_addr
send_calls a to subject body =
    creation a "draft1" (
      ("from", address (str (from_addr a)))
      ∷ ("to", address to)
      ∷ ("subject", subject)
      ∷ message_body body)
    ∷ submission a "draft1" to
    ∷ []

-- Of the email that is answered: its first sender, the subject of the answer and the message's id.
pub record Original : Type 0 where
  pub to : Json
  pub subject : String
  pub in_reply_to : Json

unfoldable pub reply_calls : Account → Original → Json → List Json
unfolding from_addr
reply_calls a o body =
    creation a "reply1" (
      ("from", address (str (from_addr a)))
      ∷ ("to", address o.to)
      ∷ ("subject", str o.subject)
      ∷ ("inReplyTo", list (if truthy o.in_reply_to then o.in_reply_to ∷ [] else []))
      ∷ message_body body)
    ∷ submission a "reply1" o.to
    ∷ []

module _ (py : Python) where
  -- The text where the submission is created, else the reason that the server gives.
  unfoldable pub confirmed : (sent failed : String) → Dict → Outcome String
  unfolding get
  confirmed sent failed sub =
      if truthy (get_json "created" sub)
      then ok sent
      else refused (
          concat (
            failed
            ∷ text_of py (
                if truthy (get_json "notCreated" sub)
                then get_json "notCreated" sub
                else get_json "error" sub)
            ∷ []))

  unfoldable pub reply_subject : String → String
  reply_subject subject =
      if starts_with (py.lower subject) "re:" then subject else append_text "Re: " subject

  -- The subject of the answer to an email with this one.
  unfoldable pub answer_subject : Json → Outcome String
  unfolding reply_subject
  answer_subject (str s) = ok (reply_subject s)
  answer_subject v = crashed "object has no attribute 'lower'"
