-- ===== src/Tests/Posting.antt =====
-- The mail client's calls and the inbox at concrete inputs.
use text.Mathlib.Text.{starts_with}
use domesticoracle.Prelude.{
  arith, ℕ, suc, ◌≤◌, ◌⊎◌, String, ◌≡◌, refl, true, none, some, List, [], ◌∷◌, text_eq,
}
use domesticoracle.Prelude.Int.{pos}
use domesticoracle.Python.{
  Python, Json, str, arr, obj, null, dict_of, items_of, num_of, text_length, take_text, concat,
}
use domesticoracle.Mail.{Library, authorized}
use domesticoracle.Mail.Calls.{Service, written, fetched, Client, ok, refused, Account}
use domesticoracle.Mail.Client.{send, reply, list_inbox}
use domesticoracle.Mail.Confirmed.{IsAccepted, send_confirmed, reply_confirmed}
use domesticoracle.Mail.Messages.{Original, send_calls, reply_calls}
use domesticoracle.Policy.{text_of}
use domesticoracle.Agent.Inbox.{Mail, read_inbox, clamp_limit, mails_of}
use domesticoracle.Agent.Warned.{reads, shown, front, suspect_mail_warned, inbox_bounded}
use domesticoracle.Provenance.{Registry}
use domesticoracle.Ledger.{init_db}
use domesticoracle.Consent.{Effect, returned, raised}
use Prim.Native.String.{◌++◌ as append_text}
use domesticoracle.Tests.Host.{host, scheme}

abbrev pairs : List (String × Json) → Json
pairs fields = obj (dict_of fields)

abbrev one : Json → Json
one v = arr (items_of (v ∷ []))

-- A host whose JSON reader finds the credentials, and whose lower-case texts are all a reply's.
abbrev python : Python
python = record host {
  loads = λ s. some (
      pairs (
        ("authUrl", str "https://auth")
        ∷ ("apiKey", str "key")
        ∷ ("scryptSalt", str "salt")
        ∷ ("apiUrl", str "https://api")
        ∷ []));
  lower = λ s. "re: hello";
}

abbrev email : Json
email = pairs (
    ("id", str "m1")
    ∷ ("subject", str "hello")
    ∷ ("from", one (pairs (("email", str "ann@example.org") ∷ [])))
    ∷ ("preview", str "see you")
    ∷ [])

abbrev response : String → Json → Json
response id v = arr (items_of (str "method" ∷ v ∷ str id ∷ []))

-- A server that answers every call in the same way, and counts the requests.
abbrev answers : Json
answers = pairs (
    (
      "methodResponses",
      arr (
          items_of (
            response "sub" (pairs (("created", pairs (("sub1", str "s") ∷ [])) ∷ []))
            ∷ response "orig" (pairs (("list", one email) ∷ []))
            ∷ response "emails" (pairs (("list", one email) ∷ []))
            ∷ response "mq" (pairs (("ids", one (str "inbox")) ∷ []))
            ∷ [])),
    )
    ∷ [])

abbrev library : Library ℕ
library = record {
  post = λ url bearer body n. (authorized "Bearer cap", suc n);
  split_dots = λ s. s ∷ [];
  decode = λ s. none;
  scrypt = λ text salt. [];
  hex = λ h. "";
  dumps_line = λ v. "json";
}

abbrev service : Service ℕ
service = record {
  library = library;
  fetch = λ url bearer n. (fetched (some (pairs (("state", str "0") ∷ []))), suc n);
  post_json = λ url bearer payload n. (fetched (some answers), suc n);
  time = λ n. num_of n;
  monotonic = λ n. num_of n;
  credentials = λ n. written "file";
  creds_path = "credentials.json";
  rstrip_slash = λ s. s;
}

abbrev client : Client
client = record {
  tokens = record {
    cached = "cap";
    cached_exp = num_of 5000;
    cap_file = none;
    session_file = none;
  };
  session = null;
  session_ts = num_of 0;
  mailbox_id = str "";
}

-- The client once it has a session.
abbrev with_session : Client
with_session = record client { session = pairs (("state", str "0") ∷ []); session_ts = num_of 7 }

sent :
    send python service 0 (str "bob@example.org") (str "hi") (str "text") (client, 7)
    ≡ (ok "Email sent to bob@example.org.", (with_session, 9))
unfolding send
sent = refl

send_confirmed_example :
    (a : Account) × IsAccepted python service 0
      (send_calls a (str "bob@example.org") (str "hi") (str "text"))
      9
    × ("Email sent to bob@example.org."
        ≡ concat ("Email sent to " ∷ text_of python (str "bob@example.org") ∷ "." ∷ []))
send_confirmed_example =
    send_confirmed python service 0 (str "bob@example.org") (str "hi") (str "text") (client, 7)
      (with_session, 9) "Email sent to bob@example.org." sent

replied :
    reply python service 0 (str "m1") (str "text") (client, 7)
    ≡ (ok "Reply sent to ann@example.org.", (with_session, 10))
unfolding reply
replied = refl

reply_confirmed_example :
    (a : Account) × (o : Original) × (starts_with (python.lower o.subject) "re:" ≡ true)
    × IsAccepted python service 0 (reply_calls a o (str "text")) 10
    × ("Reply sent to ann@example.org."
        ≡ concat ("Reply sent to " ∷ text_of python o.to ∷ "." ∷ []))
reply_confirmed_example =
    reply_confirmed python service 0 (λ subject. refl) (str "m1") (str "text") (client, 7)
      (with_session, 10) "Reply sent to ann@example.org." replied

abbrev wary : Registry
wary = record {
  rules = record { pattern_id = "p"; description = "hello"; search = λ text. some text } ∷ [];
  hidden_unicode = [];
  with_commas = λ n. "n";
}

abbrev read_mails : List Mail
read_mails =
    record {
      line = "- [m1] From: ann@example.org | hello | see you";
      source = record { type = "email"; id = "m1"; content = some "hello\nsee you" };
    }
    ∷ []

abbrev with_mailbox : Client
with_mailbox = record with_session { mailbox_id = str "inbox" }

listed :
    list_inbox python service 0 (clamp_limit (pos 10)) (client, 7)
    ≡ (ok (one email), (with_mailbox, 10))
unfolding list_inbox clamp_limit
listed = refl

suspect_mail_warned_example :
    (tail : String) × (let (effect, l') =
        shown python scheme "k" wary 1 2 3 service 0
          (pos 10)
          (append_text (front python read_mails) tail)
          read_mails
          init_db in
      reads python scheme "k" wary 1 2 3 service 0 (pos 10) init_db (client, 7)
      ≡ (effect, (l', (with_mailbox, 10))))
suspect_mail_warned_example =
    suspect_mail_warned python scheme "k" wary 1 2 3 service 0 (pos 10) init_db (client, 7)
      (with_mailbox, 10) (one email) read_mails listed refl (unfold mails_of take_text in refl) refl
      (unfold text_length in omega arith)

abbrev mail_text : Effect → String
mail_text (returned text) = text
mail_text (raised error) = error

abbrev inbox_read : Effect
inbox_read = (reads python scheme "k" wary 1 2 3 service 0 (pos 10) init_db (client, 7)).0

read_text : inbox_read ≡ returned (mail_text inbox_read)
unfolding read_inbox list_inbox
read_text = refl

inbox_bounded_example :
    ((why : String) × ((list_inbox python service 0 (clamp_limit (pos 10)) (client, 7)).0
        ≡ refused why))
    ⊎ (text_length (mail_text inbox_read) ≤ 4016)
inbox_bounded_example =
    inbox_bounded python scheme "k" wary 1 2 3 service 0 (pos 10) init_db (client, 7)
      (mail_text inbox_read) read_text
