-- ===== src/Consent/Signed.antt =====
-- backend/consent.py: `verify_agent_request`, the check of an external agent's signed request before
-- the gate. The agent's public key is not empty there, so crypto.verify goes by that key.
use domesticoracle.Prelude.{
  ℕ, String, ◌≡◌, refl, Bool, true, false, ◌||◌, not, Option, none, some, ◌==◌, text_eq,
  if◌then◌else◌, arith, Option-cases, inl, inr,
}
use domesticoracle.Prelude.Table.{lookup}
use domesticoracle.Python.{Python, Num, Dict, obj, dumps}
use domesticoracle.Crypto.{Signatures, Nonces, is_fresh, agent_request_message, consume_nonce}
use domesticoracle.Consent.Tables.{Agent, Store}

-- A request as the client sends it.
pub record Signed : Type 0 where
  pub actor_id : String
  pub action : String
  pub args : Dict
  pub nonce : String
  pub ts : Num
  pub sig : String

module _ (py : Python) (sg : Signatures) (now consumed_at : ℕ) where
  -- The text that the client must have signed.
  abbrev pub message_of : Signed → String
  message_of r = agent_request_message py r.actor_id r.action (dumps py (obj r.args)) r.nonce r.ts

  unfoldable pub nonce_checked : Signed → Store → Bool × Nonces → (Bool × String) × Store
  nonce_checked r s (true, nonces) = ((true, "ok"), record s { nonces = nonces })
  nonce_checked r s (false, nonces) =
      ((false, "Nonce already used (replay rejected)."), record s { nonces = nonces })

  unfoldable pub checked_agent : Signed → Store → Option Agent → (Bool × String) × Store
  unfolding nonce_checked
  checked_agent r s none = ((false, "Unknown agent."), s)
  checked_agent r s (some a) =
      if not (a.status == "active")
      then ((false, "Agent is revoked."), s)
      else if not (a.kind == "external") || (a.public_key == "")
      then ((false, "Agent has no registered key."), s)
      else if not (is_fresh now r.ts)
      then ((false, "Request timestamp is outside the freshness window."), s)
      else if not (sg.verify_with a.public_key (message_of r) r.sig)
      then ((false, "Signature verification failed."), s)
      else nonce_checked r s (consume_nonce r.nonce consumed_at s.nonces)

  unfoldable pub verify_agent_request : Signed → Store → (Bool × String) × Store
  unfolding checked_agent
  verify_agent_request r s = checked_agent r s (lookup r.actor_id s.agents)

  -- What an accepted request has passed.
  pub record Passes (r : Signed) (s : Store) (a : Agent) : Type 0 where
    pub known : lookup r.actor_id s.agents ≡ some a
    pub active : (a.status == "active") ≡ true
    pub external : (a.kind == "external") ≡ true
    pub keyed : (a.public_key == "") ≡ false
    pub timely : is_fresh now r.ts ≡ true
    pub signed : sg.verify_with a.public_key (message_of r) r.sig ≡ true

  agent-accepted :
      (r : Signed) (s : Store) (a : Agent)
      → lookup r.actor_id s.agents ≡ some a
      → (checked_agent r s (some a)).0.0 ≡ true
      → Passes r s a × ((consume_nonce r.nonce consumed_at s.nonces).0 ≡ true)
  unfolding checked_agent nonce_checked
  agent-accepted r s a found ok = (
    record {
      known = found;
      active = ground arith;
      external = ground arith;
      keyed = ground arith;
      timely = ground arith;
      signed = ground arith;
    },
    ground arith,
  )

  -- A request is accepted only if it comes from a registered external agent that is active, is fresh,
  -- carries a signature of that agent's key over the actor, the action, the arguments, the nonce and
  -- the time, and its nonce has not been used.
  pub accepted-Passes :
      (r : Signed) (s : Store)
      → (verify_agent_request r s).0.0 ≡ true
      → (a : Agent) × Passes r s a × ((consume_nonce r.nonce consumed_at s.nonces).0 ≡ true)
  unfolding verify_agent_request checked_agent
  accepted-Passes r s ok = elim (Option-cases (lookup r.actor_id s.agents)) [
    | inl missing ↦ absurd (ground arith)
    | inr (a, found) ↦
        let ok' : (checked_agent r s (some a)).0.0 ≡ true = rw found at ok in
        let (passes, fresh_nonce) = agent-accepted r s a found ok' in (a, passes, fresh_nonce)
  ]

  -- Nobody can burn a nonce: a request without a valid signature of the agent that it names leaves
  -- the store as it was.
  pub unsigned_keeps_store :
      (r : Signed) (s : Store)
      → ((a : Agent)
          → lookup r.actor_id s.agents ≡ some a
          → sg.verify_with a.public_key (message_of r) r.sig ≡ false)
      → (verify_agent_request r s).1 ≡ s
  unfolding verify_agent_request checked_agent
  unsigned_keeps_store r s forged = elim (Option-cases (lookup r.actor_id s.agents)) [
    | inl missing ↦ rw missing refl
    | inr (a, found) ↦ rw found (ground (arith, forged a found))
  ]
