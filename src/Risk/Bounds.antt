-- ===== src/Risk/Bounds.antt =====
-- The range of a risk score, and what the score of each category can be.
use domesticoracle.Prelude.{
  ℕ, ◌+◌, ◌/◌, ◌≤◌, String, ◌≡◌, refl, some, arith, inl, inr, false, Bool-cases, ltb, ◌==◌, text_eq,
}
use domesticoracle.Prelude.Int.{pos, negsuc}
use domesticoracle.Python.{Python, Num, fin, inf, neg_inf, nan, Dict, num_of, unit, ◌+?◌}
use domesticoracle.Risk.{category, score, raw_score, clamp, base_of, reaction}

clamp_total : (s : Num) → (n : ℕ) × (clamp s ≡ some (pos n)) × (n ≤ 100)
clamp_total (fin (pos k)) = elim (Bool-cases (ltb 100_000_000 k)) [
  | inl above ↦ (100, ground arith, omega arith)
  | inr within ↦ (k / unit, ground arith, ground arith)
]
clamp_total (fin (negsuc k)) = (0, ground arith, omega arith)
clamp_total inf = (100, refl, omega arith)
clamp_total neg_inf = (0, refl, omega arith)
clamp_total nan = (0, refl, omega arith)

-- A score is always given, and it is a whole number from 0 to 100, whatever the amount: also for a
-- negative amount, for an infinite one and for one that is not a number.
pub score_bounds :
    (py : Python) (action : String) (args : Dict) (decision : String)
    → (n : ℕ) × (score py action args decision ≡ some (pos n)) × (n ≤ 100)
unfolding score
score_bounds py action args decision = clamp_total (raw_score py action args decision)

base_le : (cat : String) → base_of cat ≤ 60
unfolding base_of
base_le cat = ground arith

clamp_sum : (b r : ℕ) → b + r ≤ 100 → clamp (num_of b +? num_of r) ≡ some (pos (b + r))
clamp_sum b r h = ground arith

-- Where no money is involved the score is the base of the category and what the gate's reaction
-- adds: 20 for a deny, 10 for a hold.
pub score_without_money :
    (py : Python) (action : String) (args : Dict) (decision : String)
    → (category action == "financial") ≡ false
    → score py action args decision ≡ some (pos (base_of (category action) + reaction decision))
unfolding score raw_score
score_without_money py action args decision h = rw h (
    clamp_sum (base_of (category action)) (reaction decision)
      (ground (arith, base_le (category action))))
