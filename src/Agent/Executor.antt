-- ===== src/Agent/Executor.antt =====
-- backend/domestic_oracle/agent.py: `_execute`, the executor that the agent registers with the gate,
-- and the outside that it reaches.
use Prim.Native.String.{◌++◌ as append_text}
use domesticoracle.Prelude.{
  ℕ, suc, String, Option, none, some, [], ◌∷◌, ◌==◌, leb, text_eq, if◌then◌else◌,
}
use domesticoracle.Python.{
  Python, Json, num, str, arr, obj, Items, nil, item, Dict, dict_size, get_default, float_of, Num,
  num_of, concat, text_length, take_text,
}
use domesticoracle.Policy.{text_of}
use domesticoracle.Consent.{Effect, returned, raised, Callable}

-- What the guarded work calls: `home_assistant.control`, and `send`, `reply` and `get_email_preview`
-- of the mail client. `mail_error` gives the message of an exception that is an AtomicMailError.
pub record Outside (W : Type 0) : Type 0 where
  pub control : Json → Json → Option Dict → Callable W
  pub send : Json → Json → Json → Callable W
  pub reply : Json → Json → Callable W
  pub preview : String → Callable W
  pub mail_error : String → Option String

abbrev items_size : Items → ℕ
items_size nil = 0
items_size (item v xs) = suc (items_size xs)

-- `s if len(s) <= 80 else s[:77] + "..."`
unfoldable pub short : String → String
short s = if leb (text_length s) 80 then s else append_text (take_text 77 s) "..."

-- The same of any value, as it is written into a text; `none` where it raises TypeError.
unfoldable pub preview_of : Python → Json → Option String
unfolding short
preview_of py (str s) = some (short s)
preview_of py (arr xs) = if leb (items_size xs) 80 then some (py.str_of (arr xs)) else none
preview_of py (obj d) = if leb (dict_size d) 80 then some (py.str_of (obj d)) else none
preview_of py v = none

unfoldable pub order_text : Python → String → Num → String → String
order_text py wanted amount vendor =
    concat (
      "[SIMULATED] Ordered '"
      ∷ wanted
      ∷ "' from "
      ∷ vendor
      ∷ " for $"
      ∷ py.fixed2 amount
      ∷ "."
      ∷ [])

unfoldable pub message_text : String → String → String
message_text recipient preview =
    concat ("[SIMULATED] Sent a message to " ∷ recipient ∷ ": \"" ∷ preview ∷ "\"" ∷ [])

unfoldable pub order : Python → Dict → Effect
unfolding order_text
order py args = elim (float_of py (get_default "amount" (num (num_of 0)) args)) [
  | none ↦ raised "could not convert to float"
  | some amount ↦ returned (
      order_text py (text_of py (get_default "item" (str "unknown item") args)) amount
        (text_of py (get_default "vendor" (str "an online vendor") args)))
]

unfoldable pub message : Python → Dict → Effect
unfolding message_text
message py args = elim (preview_of py (get_default "body" (str "") args)) [
  | none ↦ raised "object has no len()"
  | some preview ↦
      returned (message_text (text_of py (get_default "recipient" (str "someone") args)) preview)
]

unfoldable pub execute : {W : Type 0} → Python → Outside W → String → Dict → Callable W
unfolding order message
execute py out action args w =
    if action == "control_device"
    then out.control (get_default "device" (str "") args) (get_default "action" (str "") args) none
        w
    else if action == "make_purchase"
    then (order py args, w)
    else if action == "send_message"
    then (message py args, w)
    else if action == "send_email"
    then out.send (get_default "to" (str "") args) (get_default "subject" (str "") args)
        (get_default "body" (str "") args) w
    else if action == "reply_to_email"
    then out.reply (get_default "email_id" (str "") args) (get_default "body" (str "") args) w
    else (raised (concat ("No guarded handler for action: " ∷ py.repr action ∷ [])), w)
