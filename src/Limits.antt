-- ===== src/Limits.antt =====
-- backend/limits.py: the blast-radius circuit breaker. A clock reading is in microseconds. The
-- table of days is keyed by the number of the UTC day where the code has its ISO date, which is
-- one to one and in the same order.
pub mod Breaker
pub mod Rolling
use domesticoracle.Prelude.{
  ℕ, suc, ◌+◌, ◌-◌, ◌*◌, ◌/◌, String, Bool, true, false, Option, none, some, List, [], ◌∷◌, ltb,
  leb, ◌==◌, nat_eq, pair_eq, ◌&&◌, if◌then◌else◌,
}
use domesticoracle.Prelude.Table.{Table, lookup, put, delete_keys}
use domesticoracle.Python.{Python, unit, concat, nat_text}

-- ACTOR_HOURLY_LIMIT and DAILY_CAP; 0 disables a limit.
pub record Caps : Type 0 where
  pub hourly_limit : ℕ
  pub daily_cap : ℕ

-- The tables actor_hourly and daily_totals.
pub record Counts : Type 0 where
  pub hourly : Table (String × ℕ) ℕ
  pub daily : Table ℕ ℕ

abbrev pub hour_bucket : ℕ → ℕ
hour_bucket now = now / (3600 * unit) * 3600

-- The UTC day of a clock reading.
abbrev pub day_of : ℕ → ℕ
day_of now = now / (86400 * unit)

-- Counts older than 48 hours and 30 days are deleted; `today` is the local day.
unfoldable pub init_table : ℕ → ℕ → Counts → Counts
init_table now today s = record {
  hourly = delete_keys (λ (key : String × ℕ). ltb key.1 (hour_bucket now - 48 * 3600)) s.hourly;
  daily = delete_keys (λ (day : ℕ). ltb day (today - 30)) s.daily;
}

-- `limit > 0` and a row whose count has reached the limit.
abbrev pub reached : ℕ → Option ℕ → Bool
reached limit none = false
reached limit (some count) = ltb 0 limit && leb limit count

abbrev pub next_count : Option ℕ → ℕ
next_count none = 1
next_count (some count) = count + 1

unfoldable pub check_and_record : Python → Caps → String → ℕ → Counts → (Bool × String) × Counts
check_and_record py caps actor_id now s =
    let hour = lookup (actor_id, hour_bucket now) s.hourly in
    let day = lookup (day_of now) s.daily in
    if reached caps.hourly_limit hour
    then (
      (
        false,
        concat (
            "Rate limit: "
            ∷ py.repr actor_id
            ∷ " has reached the "
            ∷ nat_text py caps.hourly_limit
            ∷ "-action/hour cap. Action held for owner review."
            ∷ []),
      ),
      s,
    )
    else if reached caps.daily_cap day
    then (
      (
        false,
        concat (
            "Daily cap reached: "
            ∷ nat_text py caps.daily_cap
            ∷ " guarded actions today. All further actions held until midnight UTC."
            ∷ []),
      ),
      s,
    )
    else (
      (true, "ok"),
      record {
        hourly = put (actor_id, hour_bucket now) (next_count hour) s.hourly;
        daily = put (day_of now) (next_count day) s.daily;
      },
    )

pub record Status : Type 0 where
  pub today : ℕ
  pub daily_count : ℕ
  pub daily_remaining : Option ℕ
  pub current_hour_bucket : ℕ
  pub actor_counts_this_hour : List (String × ℕ)

-- ORDER BY count DESC
abbrev insert_count : String × ℕ → List (String × ℕ) → List (String × ℕ)
insert_count r [] = r ∷ []
insert_count r (q ∷ rows) = if ltb q.1 r.1 then r ∷ q ∷ rows else q ∷ insert_count r rows

hour_rows : ℕ → Table (String × ℕ) ℕ → List (String × ℕ)
hour_rows bucket [] = []
hour_rows bucket (((actor_id, start), count) ∷ t) =
    let rest = hour_rows bucket t in
    if start == bucket then insert_count (actor_id, count) rest else rest

unfoldable pub get_status : Caps → ℕ → Counts → Status
unfolding hour_rows
get_status caps now s =
    let daily_count : ℕ = elim (lookup (day_of now) s.daily) [ none ↦ 0 | some n ↦ n ] in
    record {
      today = day_of now;
      daily_count = daily_count;
      daily_remaining = if ltb 0 caps.daily_cap then some (caps.daily_cap - daily_count) else none;
      current_hour_bucket = hour_bucket now;
      actor_counts_this_hour = hour_rows (hour_bucket now) s.hourly;
    }
