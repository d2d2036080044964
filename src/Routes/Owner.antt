-- ===== src/Routes/Owner.antt =====
-- backend/main.py: the owner's routes and the one for external agents.
use domesticoracle.Prelude.{
  ℕ, String, Bool, true, false, ◌||◌, not, Option, none, some, [], ◌∷◌, map, ltb, ◌==◌, text_eq,
  if◌then◌else◌,
}
use domesticoracle.Prelude.Int.{ℤ, pos, negsuc}
use domesticoracle.Python.{
  Python, str, num, num_of, Dict, end, field, Num, concat, nat_text, take_text,
}
use domesticoracle.Sessions.{Sessions, create, revoke}
use domesticoracle.Auth
use domesticoracle.Auth.{verify_passphrase}
use domesticoracle.Crypto.{
  Signatures, KeyRecord, KeyStore, Rotated, rotate_server_key, server_public_key_hex,
  load_or_create_server_key,
}
use domesticoracle.Crypto.Info.{keyset_info}
use domesticoracle.Ledger.{Ledger, Draft, append}
use domesticoracle.Ledger.Views.{export_chain}
use domesticoracle.Policy.{Policies, add_policy}
use domesticoracle.Verifier.{Export}
use domesticoracle.Agent.{Outside, execute, text_or_none}
use domesticoracle.Consent.{
  Store, Callable, Setup, Call, Status, executed, denied, held, Answer, Reply, answer, failed,
  request_action, Executor, Resolution, resolve,
}
use domesticoracle.Consent.Signed.{Signed, verify_agent_request}

-- A route's answer: a value, or an error with its status code. An exception that a route does not
-- catch is the 500 of the framework.
pub data Response (A : Type 0) : Type 0 where
  ok : A → Response A
  error : ℕ → String → Response A

-- POST /auth/login: the token for the cookie; an IntegrityError of the table is a 500.
unfoldable pub login :
    Python
    → (drawn token : String) (now : ℕ) → String
    → Auth.Owner
    → Sessions
    → Response String × (Auth.Owner × Sessions)
unfolding verify_passphrase create
login py drawn token now passphrase o t =
    let (good, o') = verify_passphrase py drawn passphrase o in
    if not good then (error 401 "Wrong passphrase.", (o', t)) else elim (create token now t) [
      | none ↦ (error 500 "UNIQUE constraint failed", (o', t))
      | some t' ↦ (ok token, (o', t'))
    ]

-- POST /auth/logout
unfoldable pub logout : Option String → Sessions → Sessions
unfolding revoke
logout none t = t
logout (some session) t = if session == "" then t else revoke session t

module _ (py : Python) (sg : Signatures) (fresh : String) (now written : ℕ) where
  governance : String → String → String → Draft
  governance action summary outcome = record {
    actor_id = "ora.system";
    action = action;
    args_summary = summary;
    decision = "allow";
    status = "executed";
    outcome = outcome;
    category = "governance";
    risk = pos 0;
    args = end;
    provenance = none;
  }

  -- POST /keys/rotate: the entry that records the rotation is signed with the new key.
  unfoldable pub keys_rotate :
      String → KeyStore → Ledger → Rotated sg fresh now × (KeyStore × Ledger)
  unfolding rotate_server_key append governance
  keys_rotate new_key k l =
      let (result, k') = rotate_server_key sg fresh now new_key k in
      let draft =
        governance "key_rotation"
          (concat (
            "retired "
            ∷ take_text 16 result.retired_pub_hex
            ∷ "… → "
            ∷ take_text 16 result.new_pub_hex
            ∷ "…"
            ∷ []))
          (concat
            ("Key rotated. " ∷ nat_text py result.rotation_count ∷ " key(s) now retired." ∷ [])) in
      (result, (k', (append py sg new_key now written draft l).1))

  -- GET /keys/backup: the private and the public key, after the entry that records it.
  unfoldable pub keys_backup : KeyStore → Ledger → (String × String) × (KeyStore × Ledger)
  unfolding load_or_create_server_key server_public_key_hex append governance
  keys_backup k l =
      let (key, k1) = load_or_create_server_key fresh now k in
      let draft =
        governance "key_backup_export" "owner exported signing key for backup"
          "Private key exported via owner-authenticated API." in
      let (public, k2) = server_public_key_hex sg fresh now k1 in
      ((key, public), (k2, (append py sg key now written draft l).1))

  -- GET /ledger/export
  unfoldable pub export_ledger : KeyStore → Ledger → Export × KeyStore
  unfolding keyset_info
  export_ledger k l =
      let (info, k') = keyset_info sg fresh now k in
      (
        record {
          public_key_hex = info.current_pub_hex;
          keyset = map (λ (r : KeyRecord). r.pub_hex) info.history;
          entries = export_chain l;
        },
        k',
      )

-- POST /policies with a rule type and params; a rule from a text is left to the language model.
unfoldable pub create_policy :
    ℕ → String → Option Dict → Option String → Policies → Response ℕ × Policies
unfolding add_policy
create_policy now rule_type none label s =
    (error 400 "Provide either text or (rule_type + params).", s)
create_policy now rule_type (some params) label s =
    if rule_type == ""
    then (error 400 "Provide either text or (rule_type + params).", s)
    else elim (add_policy now rule_type params (elim label [ none ↦ "" | some l ↦ l ]) "manual" s) [
      | none ↦ (error 500 "Unknown rule_type", s)
      | some (id, s') ↦ (ok id, s')
    ]

-- `max(0, min(255, b))`
abbrev pub clamp_brightness : ℤ → ℕ
clamp_brightness (negsuc n) = 0
clamp_brightness (pos n) = if ltb 255 n then 255 else n

abbrev set_temperature : Option Num → Dict
set_temperature none = end
set_temperature (some t) = field "temperature" (num t) end

unfoldable pub extra_of : Option ℤ → Option Num → Dict
extra_of none temperature = set_temperature temperature
extra_of (some b) temperature =
    field "brightness" (num (num_of (clamp_brightness b))) (set_temperature temperature)

-- `extra or None`
abbrev pub or_none : Dict → Option Dict
or_none end = none
or_none (field k v d) = some (field k v d)

-- POST /devices/control
pub record Panel : Type 0 where
  pub text : String
  pub approval : Option (String × String)

module _ {W : Type 0} (st : Setup) (out : Outside W) where
  unfoldable pub control_call : Call → String → String → Dict → Call
  control_call c device action extra = record c {
    actor_id = "ora.home";
    action = "control_device";
    args = field "device" (str device) (field "action" (str action) extra);
    sources = [];
  }

  unfoldable pub control_work : String → String → Dict → Callable W
  control_work device action extra = out.control (str device) (str action) (or_none extra)

  unfoldable pub panel_as : Answer → Status → Panel
  panel_as a executed = record { text = text_or_none a.result; approval = none }
  panel_as a held = record {
    text = concat ("Held for approval (#" ∷ text_or_none a.approval_id ∷ ")." ∷ []);
    approval = some (text_or_none a.approval_id, a.reason);
  }
  panel_as a denied = record { text = concat ("Blocked: " ∷ a.reason ∷ []); approval = none }

  unfoldable pub panel : Reply → Response Panel
  unfolding panel_as
  panel (failed why) = error 500 why
  panel (answer a) = ok (panel_as a a.status)

  unfoldable pub control_device_endpoint :
      Call → String → String → Option ℤ → Option Num → Store → W → Response Panel × (Store × W)
  unfolding control_call control_work panel extra_of
  control_device_endpoint c device action brightness temperature s w =
      let extra = extra_of brightness temperature in
      let (reply, after) =
        request_action st (control_call c device action extra) (control_work device action extra) s
          w in
      (panel reply, after)

  -- POST /agent/act
  unfoldable pub act_call : Call → Signed → Call
  act_call c r = record c { actor_id = r.actor_id; action = r.action; args = r.args; sources = [] }

  unfoldable pub acted : Reply → Response Answer
  acted (failed why) = error 500 why
  acted (answer a) = ok a

  unfoldable pub act_admitted : Call → Signed → Store → W → Response Answer × (Store × W)
  unfolding act_call acted
  act_admitted c r s w =
      let (reply, after) =
        request_action st (act_call c r) (execute st.py out r.action r.args) s w in
      (acted reply, after)

  unfoldable pub act_checked :
      Call → Signed → (Bool × String) × Store → W → Response Answer × (Store × W)
  unfolding act_admitted
  act_checked c r ((false, why), s) w = (error 401 (concat ("Rejected: " ∷ why ∷ [])), (s, w))
  act_checked c r ((true, why), s) w = act_admitted c r s w

  -- The two clock readings are those of the freshness check and of the nonce.
  unfoldable pub agent_act :
      (now consumed_at : ℕ) → Call → Signed → Store → W → Response Answer × (Store × W)
  unfolding verify_agent_request act_checked
  agent_act now consumed_at c r s w =
      act_checked c r (verify_agent_request st.py st.sg now consumed_at r s) w

-- POST /approvals/{id}/resolve
abbrev pub decision_of : Python → String → String
decision_of py decision =
    let word = py.lower decision in
    if (word == "approve") || ((word == "yes") || ((word == "ok") || (word == "allow")))
    then "approve"
    else "deny"

unfoldable pub resolve_approval :
    {W : Type 0}
    → Setup
    → (now written : ℕ) → Option (Executor W)
    → String
    → String
    → Store
    → W
    → Resolution × (Store × W)
unfolding resolve
resolve_approval st now written executor approval_id decision s w =
    resolve st now written executor approval_id (decision_of st.py decision) s w
