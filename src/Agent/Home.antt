-- ===== src/Agent/Home.antt =====
-- The outside of the agent where no live Home Assistant is configured: the mock home, and a mail
-- client on a state of its own.
use domesticoracle.Prelude.{String, Option}
use domesticoracle.Prelude.Table.{Table}
use domesticoracle.Python.{Python, Json}
use domesticoracle.Consent.{Callable}
use domesticoracle.HomeAssistant.{Device}
use domesticoracle.HomeAssistant.Values.{control_value}
use domesticoracle.Agent.Executor.{Outside}

-- `send`, `reply` and `get_email_preview` of the mail client.
pub record Mail (M : Type 0) : Type 0 where
  pub send : Json → Json → Json → Callable M
  pub reply : Json → Json → Callable M
  pub preview : String → Callable M
  pub mail_error : String → Option String

abbrev pub Home : Type 0 → Type 0
Home M = Table String Device × M

abbrev on_mail : {M : Type 0} → Callable M → Callable (Home M)
on_mail run (devices, m) = let (effect, m') = run m in (effect, (devices, m'))

unfoldable pub outside_of :
    {M : Type 0} → Python → (String → Option (String × String)) → Mail M → Outside (Home M)
unfolding control_value
outside_of py split_dot mail = record {
  control = λ device action extra (w : Home _).
      let (effect, devices) = control_value py split_dot device action extra w.0 in
      (effect, (devices, w.1));
  send = λ to subject body. on_mail (mail.send to subject body);
  reply = λ email_id body. on_mail (mail.reply email_id body);
  preview = λ email_id. on_mail (mail.preview email_id);
  mail_error = mail.mail_error;
}
