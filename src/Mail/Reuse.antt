-- ===== src/Mail/Reuse.antt =====
-- A capability token that was obtained is used again until half a minute before it expires.
use text.Mathlib.Text.{starts_with}
use domesticoracle.Prelude.{
  ℕ, String, Bool, true, false, not, [], ◌∷◌, ◌&&◌, ◌≡◌, refl, ◌==◌, text_eq, arith, if◌then◌else◌,
  Bool-cases, inl, inr, subst,
}
use domesticoracle.Python.{Python, Num, concat}
use domesticoracle.Mail.Token.{
  Creds, Tokens, Net, authorized, net_error, Result, got, mail_error, raised, unfinished, Library,
  jwt_exp, is_valid, read_file, renewed, refresh, last_refresh, with_session, by_pow, pow_session,
  or_pow, by_session, by_file, get_capability,
}

module _ {W : Type 0} (py : Python) (lib : Library W) where
  -- The token that is given is the one in memory, with its expiry.
  record IsKept (token : String) (s : Tokens) : Type 0 where
    same : s.cached ≡ token
    expiry : s.cached_exp ≡ jwt_exp py lib token

  Kept : Result × (Tokens × W) → Type 0
  Kept (got token, (s, w)) = IsKept token s
  Kept (other, after) = Unit

  -- The same, of a token that is not empty.
  Usable : Result × (Tokens × W) → Type 0
  Usable (got token, (s, w)) = ((token == "") ≡ false) × IsKept token s
  Usable (other, after) = Unit

  renewed-Kept : (s : Tokens) (net : Net × W) → Kept (renewed py lib s net)
  unfolding renewed Kept
  renewed-Kept s (net_error why, w) = tt
  renewed-Kept s (authorized header, w) = elim (Bool-cases (starts_with header "Bearer ")) [
    | inl good ↦ rw good (record { same = refl; expiry = refl })
    | inr bad ↦ rw bad tt
  ]

  refresh-Kept :
      (creds : Creds) (session : String) (s : Tokens) (w : W)
      → Kept (refresh py lib creds session s w)
  unfolding refresh
  refresh-Kept creds session s w =
      renewed-Kept s (lib.post (concat (creds.auth_url ∷ "/api/v1/capability" ∷ [])) session "" w)

  last_refresh-Usable : (r : Result × (Tokens × W)) → Kept r → Usable (last_refresh py lib r)
  unfolding last_refresh Kept Usable
  last_refresh-Usable (got cap, (s, w)) k = elim (Bool-cases (cap == "")) [
    | inl empty ↦ rw empty tt
    | inr full ↦ rw full (full, k)
  ]
  last_refresh-Usable (mail_error e, after) k = tt
  last_refresh-Usable (raised e, after) k = tt
  last_refresh-Usable (unfinished, after) k = tt

  with_session-Usable :
      (creds : Creds) (r : Result × (Tokens × W)) → Usable (with_session py lib creds r)
  unfolding with_session Usable
  with_session-Usable creds (got session, (s, w)) =
      last_refresh-Usable (refresh py lib creds session s w) (refresh-Kept creds session s w)
  with_session-Usable creds (mail_error e, after) = tt
  with_session-Usable creds (raised e, after) = tt
  with_session-Usable creds (unfinished, after) = tt

  module _ (fuel : ℕ) (creds : Creds) where
    by_pow-Usable : (s : Tokens) (w : W) → Usable (by_pow py lib fuel creds s w)
    unfolding by_pow
    by_pow-Usable s w = with_session-Usable creds (pow_session py lib fuel creds s w)

    or_pow-Usable : (r : Result × (Tokens × W)) → Kept r → Usable (or_pow py lib fuel creds r)
    unfolding or_pow Kept Usable
    or_pow-Usable (got cap, (s, w)) k = elim (Bool-cases (cap == "")) [
      | inl empty ↦ rw empty (by_pow-Usable s w)
      | inr full ↦ rw full (full, k)
    ]
    or_pow-Usable (mail_error e, after) k = tt
    or_pow-Usable (raised e, after) k = tt
    or_pow-Usable (unfinished, after) k = tt

    choose-Usable :
        (b : Bool) (x y : Result × (Tokens × W))
        → (b ≡ true → Usable x)
        → Usable y
        → Usable (if b then x else y)
    choose-Usable true x y hx hy = hx refl
    choose-Usable false x y hx hy = hy

    not_empty :
        (token : String) (b : Bool) → (not (token == "") && b) ≡ true → (token == "") ≡ false
    not_empty token b h = ground arith

    module _ (now : Num) where
      by_session-Usable : (s : Tokens) (w : W) → Usable (by_session py lib fuel now creds s w)
      unfolding by_session
      by_session-Usable s w =
          choose-Usable _ _ _
            (λ _.
              or_pow-Usable (refresh py lib creds (read_file py lib s.session_file) s w)
                (refresh-Kept creds (read_file py lib s.session_file) s w))
            (by_pow-Usable s w)

      by_file-Usable : (s : Tokens) (w : W) → Usable (by_file py lib fuel now creds s w)
      unfolding by_file Usable
      by_file-Usable s w =
          choose-Usable _
            (
              got (read_file py lib s.cap_file),
              (
                record s {
                  cached = read_file py lib s.cap_file;
                  cached_exp = jwt_exp py lib (read_file py lib s.cap_file);
                },
                w,
              ),
            )
            _ (λ h. (not_empty _ _ h, record { same = refl; expiry = refl }))
            (by_session-Usable s w)

      get_capability-Usable :
          (s : Tokens) (w : W)
          → s.cached_exp ≡ jwt_exp py lib s.cached
          → Usable (get_capability py lib fuel now creds s w)
      unfolding get_capability Usable
      get_capability-Usable s w coherent =
          choose-Usable _ (got s.cached, (s, w)) _
            (λ h. (not_empty _ _ h, record { same = refl; expiry = coherent })) (by_file-Usable s w)

      -- A token that a call gave, from a cache, a file or the server, is given again by a later call,
      -- without the network and with the state unchanged, while it has more than 30 seconds to live;
      -- provided that the cached expiry was that of the cached token.
      pub capability_reused :
          (later : Num) (fuel' : ℕ) (s s' : Tokens) (w w' w'' : W) (token : String)
          → s.cached_exp ≡ jwt_exp py lib s.cached
          → get_capability py lib fuel now creds s w ≡ (got token, (s', w'))
          → is_valid py lib later (jwt_exp py lib token) ≡ true
          → get_capability py lib fuel' later creds s' w'' ≡ (got token, (s', w''))
      unfolding get_capability Usable
      capability_reused later fuel' s s' w w' w'' token coherent given alive =
          let (full, kept) = subst Usable given (get_capability-Usable s w coherent) in
          rw (kept.same, kept.expiry, full, alive)
