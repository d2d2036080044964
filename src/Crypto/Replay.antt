-- ===== src/Crypto/Replay.antt =====
-- backend/crypto.py: whether a signed request can be sent twice. A replay carries the nonce and
-- the timestamp of the request that it repeats.
use domesticoracle.Prelude.{
  ℕ, ◌+◌, ◌*◌, ◌≤◌, ◌<◌, String, ◌≡◌, ◌≢◌, refl, true, false, none, some, List, [], ◌∷◌, arith, ltb,
  text_eq, eq_iff, ◌⊎◌, inl, inr, Bool-cases,
}
use domesticoracle.Prelude.Int.{pos, negsuc}
use domesticoracle.Prelude.Table.{
  lookup, put, IsKeyed, lookup-put, lookup-delete_where, lookup-delete_where_kept, eq_refl,
  put-IsKeyed, delete_where-IsKeyed,
}
use domesticoracle.Python.{Num, fin, inf, neg_inf, nan, unit, ◌<?◌}
use domesticoracle.Crypto.Requests.{Nonces, request_ttl_seconds, is_fresh, consume_nonce}

abbrev pub ttl : ℕ
ttl = request_ttl_seconds * unit

-- Other requests, each a nonce and the time of its check.
pub others : List (String × ℕ) → Nonces → Nonces
others [] t = t
others ((nonce, now) ∷ rest) t = others rest (consume_nonce nonce now t).1

abbrev pub Before : ℕ → List (String × ℕ) → Type 0
Before later [] = Unit
Before later ((_, now) ∷ rest) = (now ≤ later) × Before later rest

-- A nonce that is accepted is stored until its time is up.
consumed :
    (nonce : String) (now : ℕ) (t : Nonces)
    → (consume_nonce nonce now t).0 ≡ true
    → lookup nonce (consume_nonce nonce now t).1 ≡ some (now + ttl)
unfolding consume_nonce
consumed nonce now t h = ground (
  arith,
  lookup-put nonce nonce (now + ttl) t,
  eq_refl nonce,
  lookup-delete_where_kept (λ (x : ℕ). ltb x now) nonce (now + ttl) (put nonce (now + ttl) t),
)

kept_step :
    (nonce other : String) (expires_at now : ℕ) (t : Nonces)
    → lookup nonce t ≡ some expires_at
    → now ≤ expires_at
    → lookup nonce (consume_nonce other now t).1 ≡ some expires_at
unfolding consume_nonce
kept_step nonce other expires_at now t h le = ground (
  arith,
  eq_iff other nonce,
  lookup-put other nonce (now + ttl) t,
  lookup-delete_where_kept (λ (x : ℕ). ltb x now) nonce expires_at (put other (now + ttl) t),
)

kept :
    (nonce : String) (expires_at later : ℕ) (requests : List (String × ℕ)) (t : Nonces)
    → lookup nonce t ≡ some expires_at
    → later ≤ expires_at
    → Before later requests
    → lookup nonce (others requests t) ≡ some expires_at
unfolding others
kept nonce expires_at later [] t h le b = h
kept nonce expires_at later ((other, now) ∷ requests) t h le b =
    kept nonce expires_at later requests (consume_nonce other now t).1
      (kept_step nonce other expires_at now t h (omega arith)) le b.1

-- A timestamp that is not ahead of the clock is stale once the window has passed.
stale :
    (now later : ℕ) (ts : Num)
    → (fin (pos now) <? ts) ≡ false
    → now + ttl ≤ later
    → is_fresh later ts ≡ false
unfolding is_fresh
stale now later (fin (pos n)) h le = ground arith
stale now later (fin (negsuc n)) h le = ground arith
stale now later inf h le = cc
stale now later neg_inf h le = refl
stale now later nan h le = refl

-- A nonce that was accepted from a request whose timestamp was not ahead of the clock: once others,
-- checked not later than `later`, have come and gone, the timestamp is stale at `later`, or the nonce is
-- refused, whenever it is consumed.
pub nonce_refused :
    (nonce : String) (now later consumed_at : ℕ) (ts : Num) (requests : List (String × ℕ))
    (t : Nonces)
    → (consume_nonce nonce now t).0 ≡ true
    → (fin (pos now) <? ts) ≡ false
    → Before later requests
    → (is_fresh later ts ≡ false)
      ⊎ ((consume_nonce nonce consumed_at (others requests (consume_nonce nonce now t).1)).0
          ≡ false)
nonce_refused nonce now later consumed_at ts requests t ok past b =
    elim (Bool-cases (ltb later (now + ttl))) [
      | inl within ↦ inr (
          refused (others requests (consume_nonce nonce now t).1) (
            kept nonce (now + ttl) later requests (consume_nonce nonce now t).1
              (consumed nonce now t ok) (ground arith) b))
      | inr passed ↦ inl (stale now later ts past (ground arith))
    ]
  where
    refused :
        (u : Nonces)
        → lookup nonce u ≡ some (now + ttl)
        → (consume_nonce nonce consumed_at u).0 ≡ false
    refused u e = unfold consume_nonce in ground arith

-- A nonce whose time is up before another request is checked is forgotten by that check.
forgotten :
    (nonce other : String) (expires_at now : ℕ) (t : Nonces)
    → IsKeyed t
    → other ≢ nonce
    → lookup nonce t ≡ some expires_at
    → lookup other t ≡ none
    → expires_at < now
    → lookup nonce (consume_nonce other now t).1 ≡ none
unfolding consume_nonce
forgotten nonce other expires_at now t k ne h free lt = ground (
  arith,
  eq_iff other nonce,
  lookup-put other nonce (now + ttl) t,
  lookup-delete_where (λ (x : ℕ). ltb x now) nonce (put other (now + ttl) t)
      (put-IsKeyed other (now + ttl) t k),
)

consume_nonce-IsKeyed :
    (nonce : String) (now : ℕ) (t : Nonces) → IsKeyed t → IsKeyed (consume_nonce nonce now t).1
unfolding consume_nonce
consume_nonce-IsKeyed nonce now t k = ground (
  arith,
  put-IsKeyed nonce (now + ttl) t k,
  delete_where-IsKeyed (λ (x : ℕ). ltb x now) (put nonce (now + ttl) t),
)

ahead_is_fresh :
    (now ahead later : ℕ)
    → now + ttl < later
    → later < now + ahead + ttl
    → ahead < ttl
    → is_fresh later (fin (pos (now + ahead))) ≡ true
unfolding is_fresh
ahead_is_fresh now ahead later a b c = ground arith

unused :
    (nonce : String) (now : ℕ) (t : Nonces)
    → lookup nonce t ≡ none
    → (consume_nonce nonce now t).0 ≡ true
unfolding consume_nonce
unused nonce now t h = ground arith

-- A request whose timestamp was ahead of the clock, by less than the window, is accepted a second
-- time: once the window since its check has passed and another request has been checked, its
-- timestamp is still fresh for as long as it was ahead, and its nonce is taken anew.
pub replay_accepted :
    (nonce other : String) (now ahead between later : ℕ) (t : Nonces)
    → IsKeyed t
    → (consume_nonce nonce now t).0 ≡ true
    → other ≢ nonce
    → lookup other (consume_nonce nonce now t).1 ≡ none
    → ahead < ttl
    → now + ttl < between
    → between ≤ later
    → later < now + ahead + ttl
    → (is_fresh later (fin (pos (now + ahead))) ≡ true)
      × ((consume_nonce nonce later
            (others ((other, between) ∷ []) (consume_nonce nonce now t).1)).0
          ≡ true)
unfolding others
replay_accepted nonce other now ahead between later t k ok ne free lt a b c =
    let t₁ = (consume_nonce nonce now t).1 in
    (
      ahead_is_fresh now ahead later (omega arith) c lt,
      unused nonce later (consume_nonce other between t₁).1 (
          forgotten nonce other (now + ttl) between t₁ (consume_nonce-IsKeyed nonce now t k) ne
            (consumed nonce now t ok) free a),
    )
