-- ===== src/Mail/Calls.antt =====
-- backend/domestic_oracle/atomicmail_client.py: the credentials, the JMAP session and the requests
-- that are made in it.
use domesticoracle.Prelude.{
  ℕ, String, ◌&&◌, Option, none, some, List, [], ◌∷◌, text_eq, if◌then◌else◌,
}
use domesticoracle.Python.{
  Python, Json, str, obj, arr, Items, nil, item, Dict, end, set, get, get_default, Num, num_of,
  ◌-?◌, ◌<?◌, concat, truthy, take_text, dict_of, items_of,
}
use domesticoracle.Mail.Token.{
  Creds, Tokens, Result, got, mail_error, raised, unfinished, Library, get_capability,
}

-- What an HTTP request gives: the body that `r.json()` reads (`none` where it raises), a status that
-- is an error with its code and text, or no response.
pub data Fetched : Type 0 where
  fetched : Option Json → Fetched
  bad_status : String → String → Fetched
  unreachable : String → Fetched

-- credentials.json: its text, absent, or not readable.
pub data File : Type 0 where
  written : String → File
  absent : File
  unreadable : String → File

-- A call's outcome: a value, an AtomicMailError, another exception, or a proof of work that needs
-- more fuel.
pub data Outcome (A : Type 0) : Type 0 where
  ok : A → Outcome A
  refused : String → Outcome A
  crashed : String → Outcome A
  no_fuel : Outcome A

-- The outside of the client, on its state W: httpx, the clocks and the credentials file.
pub record Service (W : Type 0) : Type 0 where
  pub library : Library W
  pub fetch : (url bearer : String) → W → Fetched × W
  pub post_json : (url bearer : String) → Json → W → Fetched × W
  pub time : W → Num
  pub monotonic : W → Num
  pub credentials : W → File
  pub creds_path : String
  -- `s.rstrip("/")`
  pub rstrip_slash : String → String

-- The fields of credentials.json, of which the file must have all but `inboxId` and `email`.
pub record Account : Type 0 where
  pub creds : Creds
  pub api_url : String
  pub email : String

-- The module's caches.
pub record Client : Type 0 where
  pub tokens : Tokens
  pub session : Json
  pub session_ts : Num
  pub mailbox_id : Json

abbrev pub Call : Type 0 → Type 0 → Type 0
Call W A = Client × W → Outcome A × (Client × W)

abbrev pub follow :
    {W A B : Type 0} → (A → Call W B) → Outcome A × (Client × W) → Outcome B × (Client × W)
follow f (ok a, after) = f a after
follow f (refused why, after) = (refused why, after)
follow f (crashed error, after) = (crashed error, after)
follow f (no_fuel, after) = (no_fuel, after)

infixl 5 ◌>>=◌
abbrev pub ◌>>=◌ : {W A B : Type 0} → Call W A → (A → Call W B) → Call W B
◌>>=◌ m f s = follow f (m s)

abbrev pub lift : {W A : Type 0} → Outcome A → Call W A
lift o s = (o, s)

abbrev pub or_crash : {A : Type 0} → String → Option A → Outcome A
or_crash error none = crashed error
or_crash error (some a) = ok a

-- `v.get`, where v must be a dict.
abbrev pub as_dict : Json → Outcome Dict
as_dict (obj d) = ok d
as_dict v = crashed "object has no attribute 'get'"

abbrev text_field : String → Dict → Option String
text_field k d = elim (get k d) [ some (str s) ↦ some s | _ ↦ none ]

abbrev text_or : String → Option String → String
text_or other none = other
text_or other (some s) = s

abbrev account_from :
    Option String → Option String → Option String → Option String → Dict → Option Account
account_from (some auth_url) (some api_key) (some salt) (some api_url) d = some (record {
  creds = record {
    auth_url = auth_url;
    api_key = api_key;
    inbox_id = text_or "oracle" (text_field "inboxId" d);
    salt = salt;
  };
  api_url = api_url;
  email = text_or "" (text_field "email" d);
})
account_from _ _ _ _ d = none

-- The credentials that the file's dict holds; `none` where a required one is missing.
unfoldable pub account_of : Dict → Option Account
unfolding get
account_of d =
    account_from (text_field "authUrl" d) (text_field "apiKey" d) (text_field "scryptSalt" d)
      (text_field "apiUrl" d) d

-- The responses by the ids of their calls: each row is a list of a name, a result and an id.
unfoldable pub rows_of : Dict → Items → Option Dict
unfolding set
rows_of d nil = some d
rows_of d (item (arr (item name (item result (item (str id) more)))) rows) =
    rows_of (set id result d) rows
rows_of d (item v rows) = none

abbrev pub payload_of_calls : List Json → Json
payload_of_calls calls = obj (
    dict_of (
      (
        "using",
        arr (
            items_of (
              str "urn:ietf:params:jmap:core"
              ∷ str "urn:ietf:params:jmap:mail"
              ∷ str "urn:ietf:params:jmap:submission"
              ∷ [])),
      )
      ∷ ("methodCalls", arr (items_of calls))
      ∷ []))

unfoldable pub responses_in : Option Json → Outcome Dict
unfolding rows_of get
responses_in (some (obj d)) = elim (get_default "methodResponses" (arr nil) d) [
  | arr rows ↦ or_crash "unreadable response" (rows_of end rows)
  | _ ↦ crashed "unreadable response"
]
responses_in (some v) = crashed "object has no attribute 'get'"
responses_in none = crashed "JSONDecodeError"

module _ {W : Type 0} (py : Python) (sv : Service W) (fuel : ℕ) where
  unfoldable pub account_in : Option Json → Outcome Account
  unfolding account_of
  account_in (some (obj d)) = or_crash "KeyError" (account_of d)
  account_in (some v) = crashed "object has no attribute 'get'"
  account_in none = refused "Failed to read AtomicMail credentials: not JSON"

  unfoldable pub read_credentials : File → Outcome Account
  unfolding account_in
  read_credentials (written s) = account_in (py.loads s)
  read_credentials absent = refused (
      concat (
        "AtomicMail credentials not found at " ∷ sv.creds_path
        ∷ ". Register first: npx --package=@atomicmail/agent-skill atomicmail register --username <name>"
        ∷ []))
  read_credentials (unreadable error) =
      refused (concat ("Failed to read AtomicMail credentials: " ∷ error ∷ []))

  -- `_load_credentials`
  unfoldable pub load_credentials : Call W Account
  unfolding read_credentials
  load_credentials (c, w) = (read_credentials (sv.credentials w), (c, w))

  unfoldable pub capability_as : Client → Result × (Tokens × W) → Outcome String × (Client × W)
  capability_as c (got cap, (t, w)) = (ok cap, (record c { tokens = t }, w))
  capability_as c (mail_error why, (t, w)) = (refused why, (record c { tokens = t }, w))
  capability_as c (raised error, (t, w)) = (crashed error, (record c { tokens = t }, w))
  capability_as c (unfinished, (t, w)) = (no_fuel, (record c { tokens = t }, w))

  unfoldable pub capability : Account → Call W String
  unfolding capability_as get_capability
  capability a (c, w) =
      capability_as c (get_capability py sv.library fuel (sv.time w) a.creds c.tokens w)

  unfoldable pub session_as : Num → Client → Fetched × W → Outcome Json × (Client × W)
  session_as now c (fetched (some v), w) = (ok v, (record c { session = v; session_ts = now }, w))
  session_as now c (fetched none, w) = (crashed "JSONDecodeError", (c, w))
  session_as now c (bad_status code body, w) =
      (refused (concat ("JMAP session fetch failed (" ∷ code ∷ ")" ∷ [])), (c, w))
  session_as now c (unreachable error, w) =
      (refused (concat ("JMAP session error: " ∷ error ∷ [])), (c, w))

  -- `_get_jmap_session`
  unfoldable pub jmap_session : String → String → Call W Json
  unfolding session_as
  jmap_session cap api_url (c, w) =
      if truthy c.session && (sv.monotonic w -? c.session_ts <? num_of 3600)
      then (ok c.session, (c, w))
      else session_as (sv.monotonic w) c
          (sv.fetch (concat (sv.rstrip_slash api_url ∷ "/.well-known/jmap" ∷ [])) cap w)

  unfoldable pub url_in : String → Json → Outcome String
  unfolding get
  url_in base (obj d) = elim (get "apiUrl" d) [
    | none ↦ ok (concat (sv.rstrip_slash base ∷ "/jmap/" ∷ []))
    | some (str url) ↦ ok url
    | some v ↦ crashed "Invalid type for url"
  ]
  url_in base v = crashed "object has no attribute 'get'"

  unfoldable pub responses_as : Client → Fetched × W → Outcome Dict × (Client × W)
  unfolding responses_in
  responses_as c (fetched v, w) = (responses_in v, (c, w))
  responses_as c (bad_status code body, w) =
      (refused (concat ("JMAP request failed (" ∷ code ∷ "): " ∷ take_text 200 body ∷ [])), (c, w))
  responses_as c (unreachable error, w) =
      (refused (concat ("JMAP request error: " ∷ error ∷ [])), (c, w))

  unfoldable pub post_calls : String → List Json → String → Call W Dict
  unfolding responses_as
  post_calls cap calls url (c, w) = responses_as c (sv.post_json url cap (payload_of_calls calls) w)

  -- `_jmap`: the responses by the ids of the calls.
  unfoldable pub jmap : List Json → Account → Call W Dict
  unfolding capability jmap_session url_in post_calls
  jmap calls a = do
    cap ← capability a
    session ← jmap_session cap a.api_url
    url ← lift (url_in a.api_url session)
    post_calls cap calls url
