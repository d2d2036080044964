-- ===== src/Consent/Tables.antt =====
-- backend/consent.py: the tables of agents and of approvals, and the callables that do the work.
use domesticoracle.Prelude.{
  ℕ, String, Bool, true, false, Option, none, some, List, [], ◌∷◌, ltb, ◌==◌, text_eq,
  if◌then◌else◌,
}
use domesticoracle.Prelude.Table.{Table, lookup, put, insert, update}
use domesticoracle.Python.{Python, Json, Dict, items, concat, is_lt_text}
use domesticoracle.Crypto.{Nonces}
use domesticoracle.Limits.{Counts}
use domesticoracle.Policy.{Policies, text_of}
use domesticoracle.Ledger.{Ledger}

pub record Agent : Type 0 where
  pub name : String
  pub status : String
  pub kind : String
  pub public_key : String
  pub created : ℕ

pub record Approval : Type 0 where
  pub actor_id : String
  pub action : String
  pub args : Dict
  pub summary : String
  pub reason : String
  pub ledger_id : ℕ
  pub status : String
  pub approved_by_owner : Bool
  pub created : ℕ

-- The database that the gate works on.
pub record Store : Type 0 where
  pub agents : Table String Agent
  pub approvals : Table String Approval
  pub nonces : Nonces
  pub counts : Counts
  pub policies : Policies
  pub ledger : Ledger

-- What a call of the outside gives: the text of its result, or of the exception it raises.
pub data Effect : Type 0 where
  returned raised : String → Effect

-- A callable, on the state W of the outside.
abbrev pub Callable : Type 0 → Type 0
Callable W = W → Effect × W

abbrev default_agents : List (String × String × String)
default_agents =
    ("ora.core", "Ora", "internal")
    ∷ ("ora.shopping", "Shopping Agent", "internal")
    ∷ ("ora.messaging", "Messaging Agent", "internal")
    ∷ ("ora.home", "Home Control Agent", "internal")
    ∷ ("ora.mcp", "MCP Gateway", "internal")
    ∷ ("oracle.agent", "Domestic Oracle Agent", "internal")
    ∷ []

-- INSERT OR IGNORE
abbrev pub insert_or_ignore : String → Agent → Table String Agent → Table String Agent
insert_or_ignore actor_id a t = elim (lookup actor_id t) [ none ↦ put actor_id a t | some _ ↦ t ]

seed_agents : ℕ → List (String × String × String) → Table String Agent → Table String Agent
seed_agents now [] t = t
seed_agents now ((actor_id, name, kind) ∷ rest) t = seed_agents now rest (
    insert_or_ignore actor_id
      (record { name = name; status = "active"; kind = kind; public_key = ""; created = now }) t)

-- The default agents that the table does not hold.
unfoldable pub init_agents : ℕ → Store → Store
unfolding seed_agents
init_agents now s = record s { agents = seed_agents now default_agents s.agents }

unfoldable pub set_agent_status : String → String → Store → Bool × Store
set_agent_status actor_id status s = (
  elim (lookup actor_id s.agents) [ none ↦ false | some _ ↦ true ],
  record s { agents = update actor_id (λ (a : Agent). record a { status = status }) s.agents },
)

-- `actor_id` is `"agent." + secrets.token_hex(4)`; `none` is the IntegrityError of an id that is
-- taken.
unfoldable pub register_agent : String → String → String → ℕ → Store → Option Store
register_agent actor_id name pub_hex now s =
    elim (insert actor_id
      (record {
        name = name;
        status = "active";
        kind = "external";
        public_key = pub_hex;
        created = now;
      })
      s.agents) [ none ↦ none | some agents ↦ some (record s { agents = agents }) ]

-- `", ".join(f"{k}={v}" …) or "(no details)"`
abbrev joined : Python → List (String × Json) → String
joined py [] = ""
joined py ((k, v) ∷ []) = concat (k ∷ "=" ∷ text_of py v ∷ [])
joined py ((k, v) ∷ next ∷ rest) =
    concat (k ∷ "=" ∷ text_of py v ∷ ", " ∷ joined py (next ∷ rest) ∷ [])

unfoldable pub summarize : Python → Dict → String
summarize py args = let text = joined py (items args) in if text == "" then "(no details)" else text

-- `UPDATE approvals SET status = ? WHERE id = ?`
unfoldable pub close : String → String → Store → Store
close approval_id status s = record s {
  approvals = update approval_id (λ (a : Approval). record a { status = status }) s.approvals;
}

-- ORDER BY created ASC
insert_pending : String × Approval → List (String × Approval) → List (String × Approval)
insert_pending r [] = r ∷ []
insert_pending r (q ∷ rows) =
    if ltb q.1.created r.1.created then q ∷ insert_pending r rows else r ∷ q ∷ rows

pending_rows : Table String Approval → List (String × Approval)
unfolding insert_pending
pending_rows [] = []
pending_rows (row ∷ t) =
    let rest = pending_rows t in if row.1.status == "pending" then insert_pending row rest else rest

unfoldable pub list_pending : Store → List (String × Approval)
unfolding pending_rows
list_pending s = pending_rows s.approvals

-- ORDER BY id ASC
abbrev insert_agent : String × Agent → List (String × Agent) → List (String × Agent)
insert_agent r [] = r ∷ []
insert_agent r (q ∷ rows) = if is_lt_text r.0 q.0 then r ∷ q ∷ rows else q ∷ insert_agent r rows

abbrev agent_rows : Table String Agent → List (String × Agent)
agent_rows [] = []
agent_rows (row ∷ t) = insert_agent row (agent_rows t)

abbrev pub list_agents : Store → List (String × Agent)
list_agents s = agent_rows s.agents
