-- ===== src/Limits/Rolling.antt =====
-- What the circuit breaker lets through in any 60 minutes, which may lie across two of its hours.
use domesticoracle.Prelude.{
  ℕ, ◌+◌, ◌*◌, ◌≤◌, ◌<◌, String, ◌≡◌, true, Bool, ◌&&◌, ◌⊎◌, List, [], ◌∷◌, arith, ◌==◌, nat_eq,
  text_eq, leb, ltb, if◌then◌else◌, inl, inr, Bool-cases,
}
use domesticoracle.Python.{Python, unit}
use domesticoracle.Limits.{Caps, Counts, hour_bucket, check_and_record}
use domesticoracle.Limits.Breaker.{allowed_in_hour, hour_count, hourly_limit_holds}

-- `now` lies in the 60 minutes from `from`.
abbrev pub in_window : ℕ → ℕ → Bool
in_window from now = leb from now && ltb now (from + 3600 * unit)

two_hours :
    (from now : ℕ)
    → in_window from now ≡ true
    → (hour_bucket now ≡ hour_bucket from) ⊎ (hour_bucket now ≡ hour_bucket from + 3600)
two_hours from now h = ground arith

module _ (py : Python) (caps : Caps) where
  -- The calls that are allowed of an actor in the 60 minutes from `from`, when a list of (actor, time)
  -- is played from `s`.
  pub allowed_in_window : String → ℕ → List (String × ℕ) → Counts → ℕ
  allowed_in_window actor_id from [] s = 0
  allowed_in_window actor_id from ((caller, now) ∷ calls) s =
      let (verdict, s') = check_and_record py caps caller now s in
      (if verdict.0 && (caller == actor_id && in_window from now) then 1 else 0)
      + allowed_in_window actor_id from calls s'

  counted_once :
      (allowed by_actor : Bool) (from now : ℕ)
      → (if allowed && (by_actor && in_window from now) then 1 else 0)
        ≤ (if allowed && (by_actor && hour_bucket now == hour_bucket from) then 1 else 0)
          + (if allowed && (by_actor && hour_bucket now == hour_bucket from + 3600) then 1 else 0)
  counted_once allowed by_actor from now = elim (Bool-cases (in_window from now)) [
    | inl inside ↦ ground (arith, two_hours from now inside)
    | inr outside ↦ ground arith
  ]

  window_in_hours :
      (actor_id : String) (from : ℕ) (calls : List (String × ℕ)) (s : Counts)
      → allowed_in_window actor_id from calls s
        ≤ allowed_in_hour py caps actor_id (hour_bucket from) calls s
          + allowed_in_hour py caps actor_id (hour_bucket from + 3600) calls s
  unfolding allowed_in_window allowed_in_hour
  window_in_hours actor_id from [] s = omega arith
  window_in_hours actor_id from ((caller, now) ∷ calls) s =
      let after = check_and_record py caps caller now s in
      omega (
        arith,
        counted_once after.0.0 (caller == actor_id) from now,
        window_in_hours actor_id from calls after.1,
      )

  -- However the calls of all actors are ordered, an actor is allowed at most twice the hourly limit in
  -- any 60 minutes, where the limit is on and no more than it was counted before in the two clock hours
  -- that the 60 minutes touch.
  pub window_limit_holds :
      (actor_id : String) (from : ℕ) (calls : List (String × ℕ)) (s : Counts)
      → 0 < caps.hourly_limit
      → hour_count actor_id (hour_bucket from) s ≤ caps.hourly_limit
      → hour_count actor_id (hour_bucket from + 3600) s ≤ caps.hourly_limit
      → allowed_in_window actor_id from calls s ≤ 2 * caps.hourly_limit
  window_limit_holds actor_id from calls s on h k = omega (
    arith,
    window_in_hours actor_id from calls s,
    hourly_limit_holds py caps actor_id (hour_bucket from) calls s on h,
    hourly_limit_holds py caps actor_id (hour_bucket from + 3600) calls s on k,
  )
