-- ===== src/Agent/Mailbox.antt =====
-- The mail client as the agent's outside: backend/domestic_oracle/atomicmail_client.py under the
-- calls of backend/domestic_oracle/tools/message_tools.py.
use domesticoracle.Prelude.{ℕ, String, Option}
use domesticoracle.Python.{Python}
use domesticoracle.Consent.{Effect, returned, raised}
use domesticoracle.Mail.Calls.{Service, Client, Outcome, ok, refused, crashed, no_fuel}
use domesticoracle.Mail.Client.{send, reply, get_email_preview}
use domesticoracle.Agent.Home.{Mail}

abbrev effect_of : {W : Type 0} → Outcome String × (Client × W) → Effect × (Client × W)
effect_of (ok text, after) = (returned text, after)
effect_of (refused why, after) = (raised why, after)
effect_of (crashed error, after) = (raised error, after)
effect_of (no_fuel, after) = (raised "the proof of work is not done", after)

-- `mail_error` tells an AtomicMailError from the other exceptions.
unfoldable pub mailbox :
    {W : Type 0} → Python → Service W → ℕ → (String → Option String) → Mail (Client × W)
unfolding send reply get_email_preview
mailbox py sv fuel mail_error = record {
  send = λ to subject body s. effect_of (send py sv fuel to subject body s);
  reply = λ email_id body s. effect_of (reply py sv fuel email_id body s);
  preview = λ email_id s. effect_of (get_email_preview py sv fuel email_id s);
  mail_error = mail_error;
}
