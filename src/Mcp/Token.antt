-- ===== src/Mcp/Token.antt =====
-- backend/mcp_server.py: `_TokenGuard`, which stands before the MCP app where ORA_MCP_TOKEN is set.
-- `split_amp` is `s.split("&")` and `partition` is `s.partition("=")` without the separator.
use domesticoracle.Prelude.{
  String, Bool, ◌||◌, not, Option, none, some, List, [], ◌∷◌, ◌==◌, text_eq, if◌then◌else◌,
}
use domesticoracle.Python.{Python}

pub record Scope : Type 0 where
  pub type : String
  pub query_string : String
  pub headers : List (String × String)

-- What becomes of a request: the app gets it, or it is answered 403, or it is dropped.
pub data Outcome : Type 0 where
  forwarded forbidden dropped : Outcome

abbrev pub is_guarded : Scope → Bool
is_guarded scope = scope.type == "http" || scope.type == "websocket"

-- `provided != token`, where `provided` may be None.
abbrev pub is_provided : Option String → String → Bool
is_provided none token = Bool.false
is_provided (some provided) token = provided == token

-- `if not provided: …`
unfoldable pub or_header : Option String → Option String → Option String
or_header none header = header
or_header (some provided) none = some provided
or_header (some provided) (some header) = if provided == "" then some header else some provided

module _ (py : Python) (split_amp : String → List String)
    (partition : String → String × String) where
  unfoldable pub query_token : List String → Option String
  query_token [] = none
  query_token (part ∷ parts) =
      let (k, v) = partition part in if k == "token" then some v else query_token parts

  unfoldable pub header_token : List (String × String) → Option String
  header_token [] = none
  header_token ((k, v) ∷ headers) =
      if py.lower k == "x-ora-mcp-token" then some v else header_token headers

  unfoldable pub guard_token : String → Scope → Outcome
  unfolding or_header query_token header_token
  guard_token token scope =
      let provided =
        or_header (query_token (split_amp scope.query_string)) (header_token scope.headers) in
      if not (is_guarded scope) || is_provided provided token
      then forwarded
      else if scope.type == "http"
      then forbidden
      else dropped

  -- `build_asgi_app`, by the value of ORA_MCP_TOKEN (unset is the empty text).
  unfoldable pub serve : String → Scope → Outcome
  unfolding guard_token
  serve configured scope =
      let token = py.strip configured in if token == "" then forwarded else guard_token token scope
