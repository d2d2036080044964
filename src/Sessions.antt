-- ===== src/Sessions.antt =====
-- backend/sessions.py: the owner's sessions, a table from token to the time when it expires.
-- Times are the server's clock in microseconds.
pub mod Expiry
use domesticoracle.Prelude.{
  ℕ, ◌+◌, ◌*◌, String, Bool, true, false, Option, none, some, [], ltb, ◌==◌, text_eq, if◌then◌else◌,
}
use domesticoracle.Prelude.Table.{Table, lookup, update, erase, delete_where, insert}
use domesticoracle.Python.{unit}

abbrev pub Sessions : Type 0
Sessions = Table String ℕ

abbrev pub session_ttl : ℕ
session_ttl = 8 * 3600 * unit

-- The table when it has just been created.
abbrev pub init_table : Sessions
init_table = []

-- The token is the one that `secrets.token_hex` draws; `none` where the INSERT raises.
unfoldable pub create : String → ℕ → Sessions → Option Sessions
unfolding insert
create token now t = insert token (now + session_ttl) t

visit : String → ℕ → Option ℕ → Sessions → Bool × Sessions
visit token now none t = (false, t)
visit token now (some expires_at) t =
    if ltb expires_at now
    then (false, erase token t)
    else (true, update token (λ _. now + session_ttl) t)

unfoldable pub validate : Option String → ℕ → Sessions → Bool × Sessions
unfolding visit
validate none now t = (false, t)
validate (some token) now t = if token == "" then (false, t) else visit token now (lookup token t) t

unfoldable pub revoke : String → Sessions → Sessions
revoke token t = erase token t

unfoldable pub prune : ℕ → Sessions → Sessions
prune now t = delete_where (λ expires_at. ltb expires_at now) t
