-- ===== src/Server/Gateway.antt =====
-- backend/main.py: the mounted MCP server and the health check, which ask for no session. The transport
-- is a library's; a request that it carries to a tool is one use.
use domesticoracle.Prelude.{String, Option, none, some, List, if◌then◌else◌}
use domesticoracle.Prelude.Int.{ℤ}
use domesticoracle.Python.{Dict}
use domesticoracle.Crypto.{load_or_create_server_key, server_public_key_hex}
use domesticoracle.Ledger.Spending.{sum_today}
use domesticoracle.Monitor.{Result}
use domesticoracle.Policy.{Policies}
use domesticoracle.HomeAssistant.{Entity}
use domesticoracle.Agent.{Outside}
use domesticoracle.Consent.{Setup}
use domesticoracle.Mcp.{
  Tool, Scope, Outcome, forwarded, forbidden, dropped, run_tool, list_devices, query_ledger,
  check_policy, serve,
}
use domesticoracle.Routes.Owner.{Response, ok, error}
use domesticoracle.Routes.Status.{health, is_enabled}
use domesticoracle.Server.State.{Backend, Arrival, Body, words, tool_says, unanswered, health_is}

-- What is asked of the tools.
pub data McpUse : Type 0 where
  guarded : Tool → McpUse
  see_devices : McpUse
  see_ledger : ℤ → McpUse
  try_policy : String → Option Dict → McpUse

module _ {W : Type 0} (st : Setup) (out : Outside W) (list_home : W → List Entity × W) where
  unfoldable pub mcp_guarded : Arrival → Tool → Backend × W → Response Body × (Backend × W)
  unfolding run_tool
  mcp_guarded a t (b, w) =
      let (key, k) = load_or_create_server_key a.fresh a.now b.keys in
      let (effect, (s, w')) = run_tool (record st { key = key }) out a.call t b.store w in
      (ok (tool_says effect), (record b { keys = k; store = s }, w'))

  abbrev pub policy_tried : Backend → W → Option String × Policies → Response Body × (Backend × W)
  policy_tried b w (none, p) = (
    error 500 "could not evaluate the policies",
    (record b { store = record (b.store) { policies = p } }, w),
  )
  policy_tried b w (some text, p) =
      (ok (words text), (record b { store = record (b.store) { policies = p } }, w))

  unfoldable pub mcp_policy :
      Arrival → String → Option Dict → Backend × W → Response Body × (Backend × W)
  unfolding check_policy sum_today
  mcp_policy a action args (b, w) = policy_tried b w (
      check_policy st.py b.mcp.compact_line action args a.call.hour
        (sum_today st.py st.reading "make_purchase" a.call.midnight b.store.ledger.rows)
        b.store.policies)

  unfoldable pub mcp_use : Arrival → McpUse → Backend × W → Response Body × (Backend × W)
  unfolding mcp_guarded mcp_policy list_devices query_ledger
  mcp_use a (guarded t) s = mcp_guarded a t s
  mcp_use a see_devices (b, w) =
      let (found, w') = list_home w in (ok (words (list_devices b.mcp.pretty found)), (b, w'))
  mcp_use a (see_ledger limit) (b, w) =
      (ok (words (query_ledger b.mcp.pretty limit b.store.ledger)), (b, w))
  mcp_use a (try_policy action args) s = mcp_policy a action args s

  unfoldable pub mcp_passed :
      Arrival → McpUse → Outcome → Backend × W → Response Body × (Backend × W)
  unfolding mcp_use
  mcp_passed a use_of forwarded s = mcp_use a use_of s
  mcp_passed a use_of forbidden s = (error 403 "Invalid or missing MCP token", s)
  mcp_passed a use_of dropped s = (ok unanswered, s)

  -- The MCP app is mounted where ORA_MCP_ENABLED does not say no.
  unfoldable pub open_mcp : Arrival → Scope → McpUse → Backend × W → Response Body × (Backend × W)
  unfolding mcp_passed serve
  open_mcp a scope use_of (b, w) =
      if is_enabled st.py b.mcp.enabled
      then mcp_passed a use_of (serve st.py b.mcp.split_amp b.mcp.partition b.mcp.token scope)
          (b, w)
      else (error 404 "Not Found", (b, w))

  -- The probe of the signing key loads it.
  unfoldable pub open_health :
      Arrival
      → (db anchor_dir : Option String) → Option Result
      → Backend × W
      → Response Body × (Backend × W)
  unfolding health server_public_key_hex
  open_health a db anchor_dir last (b, w) =
      let (status, code) =
        health (record { db = db; signing_key = none; anchor_dir = anchor_dir }) last in
      let (public, k) = server_public_key_hex st.sg a.fresh a.now b.keys in
      (ok (health_is status code), (record b { keys = k }, w))
