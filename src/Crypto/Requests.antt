-- ===== src/Crypto/Requests.antt =====
-- backend/crypto.py, signed requests: freshness, the message that is signed, and the nonce table.
-- The server's clock is in microseconds; a client's timestamp is any number.
use domesticoracle.Prelude.{
  ℕ, ◌+◌, ◌*◌, String, Bool, true, false, none, some, [], ◌∷◌, text_eq, ltb,
}
use domesticoracle.Prelude.Int.{pos}
use domesticoracle.Prelude.Table.{Table, insert, delete_where}
use domesticoracle.Python.{Python, Num, fin, num, unit, num_of, ◌<?◌, ◌-?◌, abs_num, concat}

abbrev pub Nonces : Type 0
Nonces = Table String ℕ

abbrev pub request_ttl_seconds : ℕ
request_ttl_seconds = 300

unfoldable pub is_fresh : ℕ → Num → Bool
is_fresh now ts = abs_num (fin (pos now) -? ts) <? num_of request_ttl_seconds

unfoldable pub agent_request_message : Python → String → String → String → String → Num → String
agent_request_message py actor_id action args_canonical nonce ts =
    concat
      (actor_id ∷ "|" ∷ action ∷ "|" ∷ args_canonical ∷ "|" ∷ nonce ∷ "|" ∷ py.str_of (num ts) ∷ [])

-- The INSERT fails on a nonce that is stored; otherwise the expired ones are deleted.
unfoldable pub consume_nonce : String → ℕ → Nonces → Bool × Nonces
unfolding insert
consume_nonce nonce now t = elim (insert nonce (now + request_ttl_seconds * unit) t) [
  | none ↦ (false, t)
  | some t' ↦ (true, delete_where (λ expires_at. ltb expires_at now) t')
]
