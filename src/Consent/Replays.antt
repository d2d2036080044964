-- ===== src/Consent/Replays.antt =====
-- backend/consent.py and backend/crypto.py: a signed request that is sent again. The clock is read twice
-- for each request, for its freshness and when its nonce is consumed.
use domesticoracle.Prelude.{
  ℕ, ◌≤◌, String, ◌≡◌, refl, ◌∙◌, ap, true, false, List, arith, inl, inr, Bool-cases,
}
use domesticoracle.Prelude.Int.{pos, negsuc}
use domesticoracle.Python.{Python, Num, fin, inf, neg_inf, nan, ◌<?◌}
use domesticoracle.Crypto.{Signatures, is_fresh, consume_nonce}
use domesticoracle.Crypto.Replay.{others, Before, nonce_refused}
use domesticoracle.Consent.Tables.{Store}
use domesticoracle.Consent.Signed.{
  Signed, checked_agent, nonce_checked, verify_agent_request, accepted-Passes,
}

not_ahead :
    (read now : ℕ) (ts : Num)
    → read ≤ now
    → (fin (pos read) <? ts) ≡ false
    → (fin (pos now) <? ts) ≡ false
not_ahead read now (fin (pos n)) le h = ground arith
not_ahead read now (fin (negsuc n)) le h = ground arith
not_ahead read now inf le h = cc
not_ahead read now neg_inf le h = refl
not_ahead read now nan le h = refl

module _ (py : Python) (sg : Signatures) where
  accepted-nonces :
      (read now : ℕ) (r : Signed) (s : Store)
      → (verify_agent_request py sg read now r s).0.0 ≡ true
      → (verify_agent_request py sg read now r s).1.nonces ≡ (consume_nonce r.nonce now s.nonces).1
  unfolding verify_agent_request checked_agent nonce_checked
  accepted-nonces read now r s ok = ground arith

  -- A request that was accepted, and whose timestamp was not ahead of the clock when its freshness was
  -- checked, is not accepted again: whatever carries its nonce and its timestamp is rejected, however
  -- long the second check takes, provided that in between the nonce table has been changed by other
  -- requests only, and their nonces were consumed not later than the second check of freshness.
  pub replay_rejected :
      (read now later consumed_at : ℕ) (r r' : Signed) (s s' : Store) (requests : List (String × ℕ))
      → (verify_agent_request py sg read now r s).0.0 ≡ true
      → read ≤ now
      → (fin (pos read) <? r.ts) ≡ false
      → s'.nonces ≡ others requests (verify_agent_request py sg read now r s).1.nonces
      → Before later requests
      → r'.nonce ≡ r.nonce
      → r'.ts ≡ r.ts
      → (verify_agent_request py sg later consumed_at r' s').0.0 ≡ false
  replay_rejected read now later consumed_at r r' s s' requests ok le ahead table b nonce ts =
      elim (Bool-cases (verify_agent_request py sg later consumed_at r' s').0.0) [
        | inr rejected ↦ rejected
        | inl again ↦
            let (a, passes, fresh_nonce) = accepted-Passes py sg later consumed_at r' s' again in
            let (a₁, passes₁, first) = accepted-Passes py sg read now r s ok in
            let stored : s'.nonces ≡ others requests (consume_nonce r.nonce now s.nonces).1 =
              table ∙ ap (others requests) (accepted-nonces read now r s ok) in
            elim (nonce_refused r.nonce now later consumed_at r.ts requests s.nonces first
              (not_ahead read now r.ts le ahead) b) [
                | inl stale ↦ absurd (cc (passes.timely, ap (is_fresh later) ts, stale))
                | inr refused ↦ cc
              ]
      ]
