-- ===== src/Risk.antt =====
-- backend/risk.py: the category of an action and its score from 0 to 100.
pub mod Bounds
use domesticoracle.Prelude.{
  ℕ, ◌+◌, ◌*◌, String, Bool, true, false, Option, none, some, List, [], ◌∷◌, ◌==◌, text_eq,
  if◌then◌else◌,
}
use domesticoracle.Prelude.Int.{ℤ, pos}
use domesticoracle.Prelude.Table.{Table, lookup}
use domesticoracle.Python.{
  Python, Num, Json, Dict, get_json, float_of, num_of, ◌+?◌, div_num, min_num, max_num, int_of,
}

abbrev pub categories : Table String String
categories =
    ("make_purchase", "financial")
    ∷ ("send_message", "communication")
    ∷ ("send_email", "communication")
    ∷ ("reply_to_email", "communication")
    ∷ ("control_device", "home_control")
    ∷ ("search_web", "read")
    ∷ ("web_fetch", "read")
    ∷ ("get_weather", "read")
    ∷ ("discover_devices", "read")
    ∷ ("read_inbox", "read")
    ∷ ("add_policy", "governance")
    ∷ ("resolve", "governance")
    ∷ []

abbrev pub base : Table String ℕ
base =
    ("financial", 60)
    ∷ ("home_control", 45)
    ∷ ("communication", 40)
    ∷ ("governance", 20)
    ∷ ("other", 15)
    ∷ ("read", 5)
    ∷ []

unfoldable pub category : String → String
unfolding lookup
category action = elim (lookup action categories) [ none ↦ "other" | some c ↦ c ]

unfoldable pub base_of : String → ℕ
unfolding lookup
base_of cat = elim (lookup cat base) [ none ↦ 15 | some n ↦ n ]

-- The first of the keys whose value reads as a number; a value that does not read is passed over.
unfoldable pub first_amount : Python → List String → Dict → Num
unfolding float_of
first_amount py [] args = num_of 0
first_amount py (k ∷ keys) args =
    let rest = first_amount py keys args in
    elim (float_of py (get_json k args)) [ none ↦ rest | some x ↦ x ]

abbrev pub amount_keys : List String
amount_keys = "amount" ∷ "cost" ∷ "price" ∷ "total" ∷ []

-- What the gate's reaction adds.
abbrev pub reaction : String → ℕ
reaction decision = if decision == "deny" then 20 else if decision == "hold" then 10 else 0

unfoldable pub raw_score : Python → String → Dict → String → Num
unfolding category base_of first_amount
raw_score py action args decision =
    let cat = category action in
    let s = num_of (base_of cat) in
    let exposure = min_num (div_num (first_amount py amount_keys args) 20) (num_of 40) in
    (if cat == "financial" then s +? exposure else s) +? num_of (reaction decision)

-- `int(max(0, min(s, 100)))`; `none` where `int` raises.
abbrev pub clamp : Num → Option ℤ
clamp s = int_of (max_num (num_of 0) (min_num s (num_of 100)))

unfoldable pub score : Python → String → Dict → String → Option ℤ
unfolding raw_score
score py action args decision = clamp (raw_score py action args decision)
