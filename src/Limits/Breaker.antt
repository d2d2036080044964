-- ===== src/Limits/Breaker.antt =====
-- What the circuit breaker counts and refuses, over one call and over any sequence of calls.
use domesticoracle.Prelude.{
  ℕ, ◌+◌, ◌-◌, ◌≤◌, ◌<◌, String, ◌≡◌, true, false, ◌&&◌, ◌⊎◌, ◌↔◌, Option, none, some, List, [],
  ◌∷◌, arith, ◌==◌, nat_eq, pair_eq, text_eq, eq_iff, if◌then◌else◌, inl, inr, Bool-cases,
}
use domesticoracle.Prelude.Table.{lookup, lookup-put}
use domesticoracle.Python.{Python}
use domesticoracle.Limits.{
  Caps, Counts, hour_bucket, day_of, check_and_record, get_status, next_count,
}

abbrev pub count_of : Option ℕ → ℕ
count_of none = 0
count_of (some n) = n

-- The guarded actions counted for an actor in an hour, and on a day.
abbrev pub hour_count : String → ℕ → Counts → ℕ
hour_count actor_id bucket s = count_of (lookup (actor_id, bucket) s.hourly)

abbrev pub day_count : ℕ → Counts → ℕ
day_count day s = count_of (lookup day s.daily)

module _ (py : Python) (caps : Caps) where
  -- A call is refused exactly when one of the two counts has reached its limit, and then nothing
  -- is recorded.
  pub refused_iff :
      (actor_id : String) (now : ℕ) (s : Counts)
      → 0 < caps.hourly_limit
      → 0 < caps.daily_cap
      → ((check_and_record py caps actor_id now s).0.0 ≡ false) ↔ (
          (caps.hourly_limit ≤ hour_count actor_id (hour_bucket now) s)
          ⊎ (caps.daily_cap ≤ day_count (day_of now) s))
  unfolding check_and_record
  refused_iff actor_id now s h d = (ground arith, ground arith)

  -- An allowed call counts one action of the actor in this hour and one of the day, and leaves the
  -- counts of every other actor, hour and day as they were.
  pub recorded_once :
      (actor_id other : String) (now bucket day : ℕ) (s : Counts)
      → (check_and_record py caps actor_id now s).0.0 ≡ true
      → let s' = (check_and_record py caps actor_id now s).1 in
        (hour_count other bucket s'
          ≡ hour_count other bucket s
            + (if actor_id == other && hour_bucket now == bucket then 1 else 0))
        × (day_count day s' ≡ day_count day s + (if day_of now == day then 1 else 0))
  unfolding check_and_record
  recorded_once actor_id other now bucket day s h = ground (
    arith,
    eq_iff actor_id other,
    lookup-put (actor_id, hour_bucket now) (other, bucket)
        (next_count (lookup (actor_id, hour_bucket now) s.hourly)) s.hourly,
    lookup-put (day_of now) day (next_count (lookup (day_of now) s.daily)) s.daily,
  )

  -- No count is above a limit that is on.
  pub record WithinCaps (s : Counts) : Type 0 where
    pub hours :
        (actor_id : String) (bucket : ℕ)
        → 0 < caps.hourly_limit
        → hour_count actor_id bucket s ≤ caps.hourly_limit
    pub days : (day : ℕ) → 0 < caps.daily_cap → day_count day s ≤ caps.daily_cap

  unrecorded :
      (actor_id : String) (now : ℕ) (s : Counts)
      → (check_and_record py caps actor_id now s).0.0 ≡ false
      → (check_and_record py caps actor_id now s).1 ≡ s
  unfolding check_and_record
  unrecorded actor_id now s h = ground arith

  hour_room :
      (actor_id other : String) (now bucket : ℕ) (s : Counts)
      → 0 < caps.hourly_limit
      → hour_count other bucket s ≤ caps.hourly_limit
      → hour_count other bucket (check_and_record py caps actor_id now s).1 ≤ caps.hourly_limit
  unfolding check_and_record
  hour_room actor_id other now bucket s on h = ground (
    arith,
    eq_iff actor_id other,
    lookup-put (actor_id, hour_bucket now) (other, bucket)
        (next_count (lookup (actor_id, hour_bucket now) s.hourly)) s.hourly,
  )

  day_room :
      (actor_id : String) (now day : ℕ) (s : Counts)
      → 0 < caps.daily_cap
      → day_count day s ≤ caps.daily_cap
      → day_count day (check_and_record py caps actor_id now s).1 ≤ caps.daily_cap
  unfolding check_and_record
  day_room actor_id now day s on h =
      ground (arith, lookup-put (day_of now) day (next_count (lookup (day_of now) s.daily)) s.daily)

  -- Every call, allowed or refused, keeps the counts within the limits.
  pub check_and_record-WithinCaps :
      (actor_id : String) (now : ℕ) (s : Counts)
      → WithinCaps s
      → WithinCaps (check_and_record py caps actor_id now s).1
  check_and_record-WithinCaps actor_id now s w = record {
    hours = λ other bucket on. hour_room actor_id other now bucket s on (w.hours other bucket on);
    days = λ day on. day_room actor_id now day s on (w.days day on);
  }

  -- The calls that are allowed, of an actor within an hour and of anybody on a day, when a list of
  -- (actor, time) is played from `s`.
  unfoldable pub allowed_in_hour : String → ℕ → List (String × ℕ) → Counts → ℕ
  allowed_in_hour actor_id bucket [] s = 0
  allowed_in_hour actor_id bucket ((caller, now) ∷ calls) s =
      let (verdict, s') = check_and_record py caps caller now s in
      (if verdict.0 && (caller == actor_id && hour_bucket now == bucket) then 1 else 0)
      + allowed_in_hour actor_id bucket calls s'

  pub allowed_on_day : ℕ → List (String × ℕ) → Counts → ℕ
  allowed_on_day day [] s = 0
  allowed_on_day day ((caller, now) ∷ calls) s =
      let (verdict, s') = check_and_record py caps caller now s in
      (if verdict.0 && day_of now == day then 1 else 0) + allowed_on_day day calls s'

  hour_steps :
      (actor_id caller : String) (now bucket : ℕ) (s : Counts)
      → let (verdict, s') = check_and_record py caps caller now s in
        hour_count actor_id bucket s'
        ≡ (if verdict.0 && (caller == actor_id && hour_bucket now == bucket) then 1 else 0)
          + hour_count actor_id bucket s
  hour_steps actor_id caller now bucket s =
      elim (Bool-cases (check_and_record py caps caller now s).0.0) [
        | inl allowed ↦
            rw allowed (omega (arith, (recorded_once caller actor_id now bucket 0 s allowed).0))
        | inr refused ↦ rw (refused, unrecorded caller now s refused) (omega arith)
      ]

  day_steps :
      (caller : String) (now day : ℕ) (s : Counts)
      → let (verdict, s') = check_and_record py caps caller now s in
        day_count day s' ≡ (if verdict.0 && day_of now == day then 1 else 0) + day_count day s
  day_steps caller now day s = elim (Bool-cases (check_and_record py caps caller now s).0.0) [
    | inl allowed ↦ rw allowed (omega (arith, (recorded_once caller caller now 0 day s allowed).1))
    | inr refused ↦ rw (refused, unrecorded caller now s refused) (omega arith)
  ]

  -- However the calls of all actors are ordered, an actor is allowed at most the limit within one
  -- clock hour, less what was counted before in it, where the limit is on and what was counted is not
  -- above it.
  pub hourly_limit_holds :
      (actor_id : String) (bucket : ℕ) (calls : List (String × ℕ)) (s : Counts)
      → 0 < caps.hourly_limit
      → hour_count actor_id bucket s ≤ caps.hourly_limit
      → allowed_in_hour actor_id bucket calls s + hour_count actor_id bucket s ≤ caps.hourly_limit
  unfolding allowed_in_hour
  hourly_limit_holds actor_id bucket [] s on h = omega arith
  hourly_limit_holds actor_id bucket ((caller, now) ∷ calls) s on h = omega (
    arith,
    hour_steps actor_id caller now bucket s,
    hourly_limit_holds actor_id bucket calls (check_and_record py caps caller now s).1 on
        (hour_room caller actor_id now bucket s on h),
  )

  -- However the calls are ordered, at most the daily cap is allowed on a UTC day, all actors
  -- together, less what was counted before.
  pub daily_cap_holds :
      (day : ℕ) (calls : List (String × ℕ)) (s : Counts)
      → 0 < caps.daily_cap
      → day_count day s ≤ caps.daily_cap
      → allowed_on_day day calls s + day_count day s ≤ caps.daily_cap
  unfolding allowed_on_day
  daily_cap_holds day [] s on h = omega arith
  daily_cap_holds day ((caller, now) ∷ calls) s on h = omega (
    arith,
    day_steps caller now day s,
    daily_cap_holds day calls (check_and_record py caps caller now s).1 on
        (day_room caller now day s on h),
  )

-- While the counts are within the limits, what the status calls remaining is exactly what is left
-- of the daily cap, and it is reported only where the cap is on.
pub get_status-remaining :
    (caps : Caps) (now : ℕ) (s : Counts)
    → 0 < caps.daily_cap
    → day_count (day_of now) s ≤ caps.daily_cap
    → (n : ℕ) × ((get_status caps now s).daily_remaining ≡ some n)
      × (n + (get_status caps now s).daily_count ≡ caps.daily_cap)
unfolding get_status
get_status-remaining caps now s on h =
    (caps.daily_cap - day_count (day_of now) s, ground arith, ground arith)
