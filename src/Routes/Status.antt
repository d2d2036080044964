-- ===== src/Routes/Status.antt =====
-- backend/main.py: what the server says of itself: health, the state of the monitor, the MCP server.
use domesticoracle.Prelude.{
  ℕ, ◌+◌, ◌-◌, String, Bool, true, false, ◌&&◌, ◌||◌, not, Option, none, some, [], ◌∷◌, ◌==◌,
  text_eq, nat_beq, if◌then◌else◌,
}
use domesticoracle.Python.{Python, concat}
use domesticoracle.Monitor.{Result}

-- The three probes, each with the exception that it ended in, if it did.
pub record Probes : Type 0 where
  pub db : Option String
  pub signing_key : Option String
  pub anchor_dir : Option String

abbrev is_ok : Option String → Bool
is_ok none = true
is_ok (some error) = false

-- `last and last.get("ok") is False`
abbrev is_broken : Option Result → Bool
is_broken none = false
is_broken (some last) = not last.ok

-- GET /health: the status and the HTTP status code.
unfoldable pub health : Probes → Option Result → String × ℕ
health p last =
    let operational = is_ok p.db && is_ok p.signing_key in
    (
      if not operational || is_broken last then "degraded" else "ok",
      if operational then 200 else 503,
    )

-- GET /monitor/status: the time until the next check, `max(0.0, interval - (now - checked_at))`. A
-- check at time 0 counts as none.
unfoldable pub next_check_in : ℕ → ℕ → Option Result → Option ℕ
next_check_in interval now none = none
next_check_in interval now (some last) =
    if nat_beq last.checked_at 0 then none else some (interval + last.checked_at - now)

-- GET /mcp/info, by the environment's ORA_MCP_ENABLED ("true" where it is unset) and ORA_MCP_TOKEN;
-- `rstrip_slash` is `s.rstrip("/")`.
pub record McpInfo : Type 0 where
  pub enabled : Bool
  pub sse_url : String
  pub actor_id : String
  pub token_required : Bool

abbrev pub is_enabled : Python → String → Bool
is_enabled py setting =
    let word = py.lower setting in not ((word == "false") || ((word == "0") || (word == "no")))

unfoldable pub mcp_info : Python → (String → String) → String → String → String → McpInfo
mcp_info py rstrip_slash setting token base_url = record {
  enabled = is_enabled py setting;
  sse_url = concat (rstrip_slash base_url ∷ "/mcp/sse" ∷ []);
  actor_id = "ora.mcp";
  token_required = not (py.strip token == "");
}
