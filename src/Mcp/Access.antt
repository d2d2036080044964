-- ===== src/Mcp/Access.antt =====
-- Who reaches the MCP app.
use domesticoracle.Prelude.{
  String, ◌≡◌, ◌≢◌, refl, Bool, true, false, ◌&&◌, ◌||◌, not, ◌⊎◌, Option, none, some, List, [],
  ◌∷◌, any, arith, ◌==◌, text_eq, eq_iff, if◌then◌else◌, Bool-cases, inl, inr,
}
use domesticoracle.Prelude.Table.{eq_refl}
use domesticoracle.Python.{Python}
use domesticoracle.Mcp.Token.{
  Scope, forwarded, forbidden, dropped, is_provided, is_guarded, or_header, query_token,
  header_token, guard_token, serve,
}

ne_test : (s t : String) → s ≢ t → (s == t) ≡ false
ne_test s t h = ground (arith, eq_iff s t)

or_true : (a b : Bool) → b ≡ true → (a || b) ≡ true
or_true a b h = ground arith

or_header-source :
    (query header : Option String) (token : String)
    → or_header query header ≡ some token
    → (query ≡ some token) ⊎ (header ≡ some token)
unfolding or_header
or_header-source none header token h = inr h
or_header-source (some q) none token h = inl h
or_header-source (some q) (some header) token h = elim (Bool-cases (q == "")) [
  | inl empty ↦ inr (rw empty at h)
  | inr given ↦ inl (rw given at h)
]

passed_test :
    (guarded http : Bool) (provided : Option String) (token : String)
    → guarded ≡ true
    → (if not guarded || is_provided provided token
        then forwarded
        else if http
        then forbidden
        else dropped)
      ≡ forwarded
    → provided ≡ some token
passed_test guarded http none token g h = ground arith
passed_test guarded http (some provided) token g h = ground (arith, eq_iff provided token)

module _ (py : Python) (split_amp : String → List String)
    (partition : String → String × String) where
  -- The request carries the token, as the value of a query parameter or of a header.
  abbrev pub in_query : String → Scope → Bool
  in_query token scope =
      any (λ part. (partition part).0 == "token" && (partition part).1 == token)
        (split_amp scope.query_string)

  abbrev pub in_headers : String → Scope → Bool
  in_headers token scope =
      any (λ h. py.lower h.0 == "x-ora-mcp-token" && h.1 == token) scope.headers

  query_token-any :
      (token : String) (parts : List String)
      → query_token py split_amp partition parts ≡ some token
      → any (λ part. (partition part).0 == "token" && (partition part).1 == token) parts ≡ true
  unfolding query_token
  query_token-any token [] h = cc
  query_token-any token (part ∷ parts) h =
      ground (arith, eq_refl (partition part).1, eq_refl token, query_token-any token parts)

  header_token-any :
      (token : String) (headers : List (String × String))
      → header_token py split_amp partition headers ≡ some token
      → any (λ h. py.lower h.0 == "x-ora-mcp-token" && h.1 == token) headers ≡ true
  unfolding header_token
  header_token-any token [] h = cc
  header_token-any token ((k, v) ∷ headers) h =
      ground (arith, eq_refl v, eq_refl token, header_token-any token headers)

  -- With a token configured, an HTTP or WebSocket request reaches the app only if it carries that
  -- token, in the query or in the header.
  pub app_needs_token :
      (configured : String) (scope : Scope)
      → py.strip configured ≢ ""
      → is_guarded scope ≡ true
      → serve py split_amp partition configured scope ≡ forwarded
      → (in_query (py.strip configured) scope || in_headers (py.strip configured) scope) ≡ true
  unfolding serve guard_token
  app_needs_token configured scope set guarded reached =
      let token = py.strip configured in
      let passed = rw (ne_test token "" set) at reached in
      elim (or_header-source _ _ token (passed_test _ _ _ token guarded passed)) [
        | inl query ↦ rw (query_token-any token (split_amp scope.query_string) query) refl
        | inr header ↦ or_true _ _ (header_token-any token scope.headers header)
      ]
