-- ===== src/Agent/Tools.antt =====
-- backend/domestic_oracle/tools: the guarded tools of the agent (home_tools.py, purchase_tools.py,
-- message_tools.py), each a request to the gate and the text that the agent is told.
use domesticoracle.Prelude.{String, Option, none, some, List, [], ◌∷◌, ◌==◌, text_eq, if◌then◌else◌}
use domesticoracle.Python.{Python, num, str, Dict, end, field, Num, concat, nat_text}
use domesticoracle.Provenance.{Source}
use domesticoracle.Consent.{
  Store, Effect, returned, raised, Callable, Setup, Call, Status, executed, denied, held, Answer,
  Reply, answer, failed, request_action,
}
use domesticoracle.Agent.Executor.{Outside, short, order_text, message_text}

pub data Tool : Type 0 where
  control_device : (device action : String) → Tool
  make_purchase : (item : String) (amount : Num) (vendor : String) → Tool
  send_message : (recipient body : String) → Tool
  send_email : (to subject body : String) → Tool
  reply_to_email : (email_id body : String) → Tool

unfoldable pub action_of : Tool → String
action_of (control_device device action) = "control_device"
action_of (make_purchase item amount vendor) = "make_purchase"
action_of (send_message recipient body) = "send_message"
action_of (send_email to subject body) = "send_email"
action_of (reply_to_email email_id body) = "reply_to_email"

unfoldable pub args_of : Tool → Dict
args_of (control_device device action) =
    field "device" (str device) (field "action" (str action) end)
args_of (make_purchase item amount vendor) =
    field "item" (str item) (field "amount" (num amount) (field "vendor" (str vendor) end))
args_of (send_message recipient body) =
    field "recipient" (str recipient) (field "body" (str body) end)
args_of (send_email to subject body) =
    field "to" (str to) (field "subject" (str subject) (field "body" (str body) end))
args_of (reply_to_email email_id body) =
    field "email_id" (str email_id) (field "body" (str body) end)

-- What the owner is told is held, of each tool, and the last words of the answer.
abbrev held_noun : Tool → String
held_noun (control_device device action) = "Held"
held_noun (make_purchase item amount vendor) = "Purchase held"
held_noun (send_message recipient body) = "Message held"
held_noun (send_email to subject body) = "Email held"
held_noun (reply_to_email email_id body) = "Reply held"

abbrev blocked_noun : Tool → String
blocked_noun (control_device device action) = "Action"
blocked_noun (make_purchase item amount vendor) = "Purchase"
blocked_noun (send_message recipient body) = "Message"
blocked_noun (send_email to subject body) = "Email"
blocked_noun (reply_to_email email_id body) = "Reply"

abbrev pub held_close : Tool → String
held_close (control_device device action) =
    ". The action has NOT been performed yet — the owner must approve it in the Trust Center. Please let the user know."
held_close (make_purchase item amount vendor) =
    ". Nothing has been ordered yet — the owner must approve in the Trust Center."
held_close (send_message recipient body) =
    ". The message has NOT been sent — the owner must approve in the Trust Center."
held_close (send_email to subject body) =
    ". The email has NOT been sent — the owner must approve in the Trust Center."
held_close (reply_to_email email_id body) =
    ". The reply has NOT been sent — the owner must approve in the Trust Center."

-- A field of the gate's answer in an f-string.
abbrev pub text_or_none : Option String → String
text_or_none none = "None"
text_or_none (some s) = s

-- The text that the agent is told, by the status of the answer.
unfoldable pub told_as : Python → Tool → Answer → Status → String
told_as py t a executed =
    concat
      ("Done. " ∷ text_or_none a.result ∷ " (Audit ledger #" ∷ nat_text py a.ledger_id ∷ ")" ∷ [])
told_as py t a held = concat (
    held_noun t
    ∷ " for owner approval (approval #"
    ∷ text_or_none a.approval_id
    ∷ "). Reason: "
    ∷ a.reason
    ∷ held_close t
    ∷ [])
told_as py t a denied =
    concat (blocked_noun t ∷ " blocked by policy. Reason: " ∷ a.reason ∷ "." ∷ [])

-- The two mail tools catch an AtomicMailError.
unfoldable pub unavailable : Tool → String → Option String → Effect
unavailable (send_email to subject body) error (some why) =
    returned (concat ("Email unavailable: " ∷ why ∷ []))
unavailable (reply_to_email email_id body) error (some why) =
    returned (concat ("Email reply unavailable: " ∷ why ∷ []))
unavailable t error caught = raised error

module _ {W : Type 0} (st : Setup) (out : Outside W) where
  -- The work of each tool, `_execute`.
  unfoldable pub work_of : Tool → Callable W
  unfolding short order_text message_text
  work_of (control_device device action) w = out.control (str device) (str action) none w
  work_of (make_purchase item amount vendor) w = (returned (order_text st.py item amount vendor), w)
  work_of (send_message recipient body) w = (returned (message_text recipient (short body)), w)
  work_of (send_email to subject body) w = out.send (str to) (str subject) (str body) w
  work_of (reply_to_email email_id body) w = out.reply (str email_id) (str body) w

  -- The email that a reply answers, where it can be read and is not empty.
  unfoldable pub reply_sources : String → Effect → List Source
  reply_sources email_id (raised error) = []
  reply_sources email_id (returned content) =
      if content == ""
      then []
      else record { type = "email"; id = email_id; content = some content } ∷ []

  unfoldable pub sources_of : Tool → W → List Source × W
  unfolding reply_sources
  sources_of (reply_to_email email_id body) w =
      let (effect, w') = out.preview email_id w in (reply_sources email_id effect, w')
  sources_of t w = ([], w)

  -- The request that a tool makes; the readings of the clock and the id that may be drawn are those
  -- of `c`.
  unfoldable pub call_of : Call → Tool → List Source → Call
  call_of c t sources = record c {
    actor_id = "oracle.agent";
    action = action_of t;
    args = args_of t;
    sources = sources;
  }

  unfoldable pub tell : Tool → Reply → Effect
  unfolding told_as unavailable
  tell t (answer a) = returned (told_as st.py t a a.status)
  tell t (failed error) = unavailable t error (out.mail_error error)

  unfoldable pub run_tool : Call → Tool → Store → W → Effect × (Store × W)
  unfolding work_of sources_of call_of tell
  run_tool c t s w =
      let (sources, w1) = sources_of t w in
      let (reply, after) = request_action st (call_of c t sources) (work_of t) s w1 in
      (tell t reply, after)
