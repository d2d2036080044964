-- ===== src/Agent/Inbox.antt =====
-- backend/domestic_oracle/tools/message_tools.py: `read_inbox`, which shows the agent its mail without
-- the gate, scanned and recorded.
use Prim.Native.String.{◌++◌ as append_text}
use domesticoracle.Prelude.{
  ℕ, String, Bool, Option, none, some, List, [], ◌∷◌, map, ltb, length, if◌then◌else◌,
}
use domesticoracle.Prelude.Int.{ℤ, pos, pos_part, ltb_ℤ}
use domesticoracle.Python.{
  Python, Json, num, str, arr, obj, Items, nil, item, Dict, end, get, get_json, get_default, concat,
  nat_text, truthy, take_text, text_length,
}
use domesticoracle.Crypto.{Signatures}
use domesticoracle.Risk.{category, score}
use domesticoracle.Policy.{text_of}
use domesticoracle.Provenance.{Registry, Source, scan_sources, is_suspicious}
use domesticoracle.Ledger.{Ledger, Draft, append, num_of_ℤ}
use domesticoracle.Consent.{Effect, returned, raised}
use domesticoracle.Mail.Calls.{Service, Client, Outcome, ok, refused, crashed, no_fuel, as_dict}
use domesticoracle.Mail.Messages.{first_dict, first_or}
use domesticoracle.Mail.Client.{list_inbox}

-- A message as the agent is shown it, and as it is scanned.
pub record Mail : Type 0 where
  pub line : String
  pub source : Source

-- `(v or "")[:200]`
unfoldable pub short_preview : Json → Outcome String
short_preview (str s) = ok (take_text 200 s)
short_preview v = if truthy v then crashed "not subscriptable" else ok ""

abbrev pub and_then : {A B : Type 0} → (A → Outcome B) → Outcome A → Outcome B
and_then f (ok a) = f a
and_then f (refused why) = refused why
and_then f (crashed error) = crashed error
and_then f (no_fuel) = no_fuel

-- `max(1, min(limit, 50))`
unfoldable pub clamp_limit : ℤ → ℕ
clamp_limit n = if ltb_ℤ n (pos 1) then 1 else if ltb_ℤ (pos 50) n then 50 else pos_part n

abbrev pub capped : String → String
capped s =
    if ltb 4000 (text_length s) then concat (take_text 4000 s ∷ "\n[... truncated]" ∷ []) else s

-- `"\n".join(lines)` of a list that is not empty.
abbrev pub join_lines : String → List String → String
join_lines line [] = line
join_lines line (next ∷ lines) = append_text line (append_text "\n" (join_lines next lines))

abbrev pub inbox_warning : String
inbox_warning = "[WARNING] Injection signals detected in inbox content — details in audit ledger."

abbrev line_of : Mail → String
line_of m = m.line

abbrev pub source_of : Mail → Source
source_of m = m.source

module _ (py : Python) where
  -- A message's id, a text, is what its source is named by.
  unfoldable pub mail_as : Dict → Json → Option Json → String → Outcome Mail
  mail_as message from (some (str id)) preview =
      let subject = text_of py (get_default "subject" (str "(no subject)") message) in
      ok (record {
        line =
            concat
              ("- [" ∷ id ∷ "] From: " ∷ text_of py from ∷ " | " ∷ subject ∷ " | " ∷ preview ∷ []);
        source = record {
          type = "email";
          id = id;
          content = some (concat (subject ∷ "\n" ∷ preview ∷ []));
        };
      })
  mail_as message from id preview = crashed "KeyError"

  unfoldable pub mail_of : Json → Outcome Mail
  unfolding mail_as short_preview first_or get
  mail_of (obj message) =
      and_then
        (λ sender.
          and_then
            (λ from.
              and_then
                (mail_as message (get_default "email" (str "unknown") from) (get "id" message))
                (short_preview (get_json "preview" message)))
            (as_dict sender))
        (first_dict (get_json "from" message))
  mail_of v = crashed "object has no attribute 'get'"

  unfoldable pub mails_of : Items → Outcome (List Mail)
  unfolding mail_of
  mails_of nil = ok []
  mails_of (item v vs) =
      let rest = mails_of vs in and_then (λ m. and_then (λ ms. ok (m ∷ ms)) rest) (mail_of v)

  abbrev pub mails_in : Json → Outcome (List Mail)
  mails_in (arr vs) = mails_of vs
  mails_in v = crashed "not a list"

  abbrev pub heading : ℕ → String
  heading n = concat ("Recent inbox (" ∷ nat_text py n ∷ " messages):" ∷ [])

  unfoldable pub inbox_text : Bool → List Mail → String
  inbox_text suspicious mails =
      join_lines (heading (length mails))
        (if suspicious then inbox_warning ∷ map line_of mails else map line_of mails)

module _ (py : Python) (sg : Signatures) (key : String) (reg : Registry)
    (scanned_at now written : ℕ) where
  unfoldable pub inbox_draft : ℤ → String → Option Dict → ℤ → Draft
  inbox_draft limit result prov risk = record {
    actor_id = "oracle.agent";
    action = "read_inbox";
    args_summary = concat ("limit=" ∷ py.str_of (num (num_of_ℤ limit)) ∷ []);
    decision = "allow";
    status = "executed";
    outcome = take_text 300 result;
    category = category "read_inbox";
    risk = risk;
    args = end;
    provenance = prov;
  }

  unfoldable pub log_inbox : ℤ → String → Option Dict → Option ℤ → Ledger → Effect × Ledger
  unfolding inbox_draft append
  log_inbox limit result prov none l = (raised "cannot convert float to integer", l)
  log_inbox limit result prov (some risk) l =
      (returned result, (append py sg key now written (inbox_draft limit result prov risk) l).1)

  unfoldable pub show_mails : ℤ → List Mail → Ledger → Effect × Ledger
  unfolding log_inbox inbox_text score
  show_mails limit mails l =
      let prov = scan_sources reg scanned_at (map source_of mails) in
      log_inbox limit (capped (inbox_text py (is_suspicious prov) mails)) (some prov)
        (score py "read_inbox" end "allow") l

  unfoldable pub show_read : ℤ → Outcome (List Mail) → Ledger → Effect × Ledger
  unfolding show_mails
  show_read limit (ok mails) l = show_mails limit mails l
  show_read limit (refused why) l = (raised why, l)
  show_read limit (crashed error) l = (raised error, l)
  show_read limit no_fuel l = (raised "the proof of work is not done", l)

  unfoldable pub show_inbox : ℤ → Outcome Json → Ledger → Effect × Ledger
  unfolding show_read log_inbox mails_of score
  show_inbox limit (ok emails) l =
      if truthy emails
      then show_read limit (mails_in py emails) l
      else log_inbox limit "Inbox is empty." none (score py "read_inbox" end "allow") l
  show_inbox limit (refused why) l = (returned (concat ("Inbox unavailable: " ∷ why ∷ [])), l)
  show_inbox limit (crashed error) l = (raised error, l)
  show_inbox limit no_fuel l = (raised "the proof of work is not done", l)

  unfoldable pub read_inbox :
      {W : Type 0} → Service W → ℕ → ℤ → Ledger → Client × W → Effect × (Ledger × (Client × W))
  unfolding show_inbox clamp_limit list_inbox
  read_inbox sv fuel limit l s =
      let (emails, s') = list_inbox py sv fuel (clamp_limit limit) s in
      let (effect, l') = show_inbox limit emails l in (effect, (l', s'))
