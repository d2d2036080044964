-- ===== src/Server/State.antt =====
-- backend/main.py: the state of the server, what comes with a request, and what a response holds.
use domesticoracle.Prelude.{ℕ, String, Bool, Option, List}
use domesticoracle.Python.{Json}
use domesticoracle.Sessions.{Sessions}
use domesticoracle.Auth
use domesticoracle.Crypto.{KeyStore}
use domesticoracle.Crypto.Info.{KeyInfo}
use domesticoracle.Ledger.{Row, Integrity}
use domesticoracle.Ledger.Summary.{Summary}
use domesticoracle.Limits
use domesticoracle.Policy.{Rule, Decision}
use domesticoracle.Consent.{Store, Call, Agent, Approval, Answer, Resolution, Effect}
use domesticoracle.HomeAssistant.{Entity}
use domesticoracle.Routes.Chats.{Chats, Message}
use domesticoracle.Routes.Owner.{Panel}
use domesticoracle.Routes.{Live}
use domesticoracle.Verifier.{Export}

-- The MCP server as it was built: ORA_MCP_ENABLED ("true" where it is unset), ORA_MCP_TOKEN, and what it
-- takes from Python (`s.split("&")`, `s.partition("=")`, and `json.dumps` with and without an indent).
pub record McpServer : Type 0 where
  pub enabled : String
  pub token : String
  pub split_amp : String → List String
  pub partition : String → String × String
  pub pretty : Json → String
  pub compact_line : Json → String

-- The tables, the sessions, the owner's passphrase, the keys, the chat histories, the device states
-- with their listeners, and whether the agent's client has registered its executor.
pub record Backend : Type 0 where
  pub store : Store
  pub sessions : Sessions
  pub owner : Auth.Owner
  pub keys : KeyStore
  pub chats : Chats
  pub live : Live
  pub is_running : Bool
  pub mcp : McpServer

-- The cookie, the readings of the clock, and what would be drawn at random: the server's key, the
-- owner's token, a session's token.
pub record Arrival : Type 0 where
  pub session : Option String
  pub now : ℕ
  pub written : ℕ
  pub consumed_at : ℕ
  pub fresh : String
  pub drawn : String
  pub token : String
  pub call : Call

pub data Body : Type 0 where
  done : Bool → Body
  words : String → Body
  entries : List Row → Body
  checked : Integrity → Body
  summed : Summary → Body
  exported : Export → Body
  counted : Limits.Status → Body
  key_info : KeyInfo → Body
  rotated : String → String → ℕ → Body
  backed_up : String → String → Body
  pattern_list : List (String × String) → Body
  rules : List Rule → Body
  saved_rule : ℕ → Body
  verdict : Decision → String → Body
  agents : List (String × Agent) → Body
  acted : Answer → Body
  devices : List Entity → Body
  panel : Panel → Body
  pending : List (String × Approval) → Body
  resolved : Resolution → Body
  messages : List Message → Body
  tool_says : Effect → Body
  unanswered : Body
  health_is : String → ℕ → Body
