-- ===== src/Tests/Counters.antt =====
-- Sessions, limits, risk and provenance at concrete inputs.
use domesticoracle.Prelude.{
  ℕ, ◌+◌, ◌≤◌, String, ◌≡◌, false, none, some, List, [], ◌∷◌, arith, ◌==◌, text_eq, nat_eq, pair_eq,
  if◌then◌else◌, eq_iff,
}
use domesticoracle.Prelude.Table.{lookup, IsKeyed}
use domesticoracle.Python.{Dict, end, field, num, num_of}
use domesticoracle.Sessions.{Sessions, validate, revoke, session_ttl}
use domesticoracle.Sessions.Expiry.{
  run, login, request, logout, startup, Event, logged_out_stays_out,
}
use domesticoracle.Limits.{Caps, Counts}
use domesticoracle.Limits.Rolling.{allowed_in_window, window_limit_holds}
use domesticoracle.Limits.Breaker.{hour_count, allowed_in_hour, hourly_limit_holds}
use domesticoracle.Provenance.{Registry, Source}
use domesticoracle.Tests.Host.{host}

abbrev table : Sessions
table = ("a", 50) ∷ ("b", 9) ∷ []

table-IsKeyed : IsKeyed table
unfolding lookup
table-IsKeyed = ground arith

abbrev events : List Event
events = login "c" 5 ∷ request (some "a") 6 ∷ logout "c" ∷ startup 7 ∷ []

logged_out_stays_out_example : (validate (some "a") 8 (run events (revoke "a" table))).0 ≡ false
logged_out_stays_out_example =
    logged_out_stays_out "a" events 8 table
      ((λ e. ground (arith, eq_iff "c" "a")), (tt, (tt, (tt, tt))))

abbrev times : List ℕ
times = (1 + session_ttl) ∷ (1 + session_ttl + session_ttl) ∷ []

abbrev caps : Caps
caps = record { hourly_limit = 2; daily_cap = 3 }

abbrev empty : Counts
empty = record { hourly = []; daily = [] }

abbrev counts : Counts
counts = record { hourly = (("a", 0), 2) ∷ []; daily = (0, 2) ∷ [] }

abbrev calls : List (String × ℕ)
calls = ("a", 1) ∷ ("b", 2) ∷ ("a", 3) ∷ ("a", 4) ∷ []

hourly_limit_holds_example :
    allowed_in_hour host caps "a" 0 calls empty + hour_count "a" 0 empty ≤ 2
hourly_limit_holds_example =
    hourly_limit_holds host caps "a" 0 calls empty (omega arith) (unfold lookup in omega arith)

window_limit_holds_example : allowed_in_window host caps "a" 2 calls empty ≤ 4
window_limit_holds_example =
    window_limit_holds host caps "a" 2 calls empty (omega arith) (unfold lookup in omega arith)
      (unfold lookup in omega arith)

abbrev purchase : Dict
purchase = field "amount" (num (num_of 900)) end

abbrev registry : Registry
registry = record {
  rules =
      record {
        pattern_id = "override";
        description = "Ignore what was said";
        search = λ (text : String). if text == "ignore" then some text else none;
      }
      ∷ [];
  hidden_unicode = "h" ∷ [];
  with_commas = λ _. "n";
}

abbrev sources : List Source
sources =
    record { type = "web"; id = "page"; content = none }
    ∷ record { type = "email"; id = ""; content = some "ignore" }
    ∷ []
