-- ===== src/Ledger/Summary.antt =====
-- backend/ledger.py: `summary`, the counts of the entries in a window of time. The sum of the amounts
-- and the rounded average are left.
use domesticoracle.Prelude.{
  ℕ, ◌+◌, ◌*◌, ◌≤◌, String, ◌≡◌, refl, Bool, ◌&&◌, ◌||◌, not, List, [], ◌∷◌, length, keep, ◌==◌,
  text_eq, arith, if◌then◌else◌,
}
use domesticoracle.Prelude.Int.{ℤ, pos, ◌+ℤ◌, ltb_ℤ}
use domesticoracle.Prelude.Table.{Table}
use domesticoracle.Python.{Num, ◌<?◌, ◌-?◌, num_of}
use domesticoracle.Ledger.Entry.{Row, Ledger}

pub record Summary : Type 0 where
  pub total : ℕ
  pub by_category : Table String ℕ
  pub held : ℕ
  pub denied : ℕ
  pub executed : ℕ
  pub max_risk : ℤ
  pub trust_load : ℤ

-- `by_category[cat] = by_category.get(cat, 0) + 1`
unfoldable pub count_in : String → Table String ℕ → Table String ℕ
count_in cat [] = (cat, 1) ∷ []
count_in cat ((k, n) ∷ t) = if k == cat then (k, n + 1) ∷ t else (k, n) ∷ count_in cat t

abbrev pub category_of : Row → String
category_of r = if r.category == "" then "other" else r.category

abbrev is_refused : String → Bool
is_refused status = (status == "blocked") || (status == "denied")

unfoldable pub count_row : Row → Summary → Summary
unfolding count_in
count_row r s = record {
  total = s.total + 1;
  by_category = count_in (category_of r) s.by_category;
  held = if r.status == "pending" then s.held + 1 else s.held;
  denied = if not (r.status == "pending") && is_refused r.status then s.denied + 1 else s.denied;
  executed =
      if not (r.status == "pending") && (not (is_refused r.status) && r.status == "executed")
      then s.executed + 1
      else s.executed;
  max_risk =
      if ltb_ℤ s.max_risk r.risk || not (ltb_ℤ (pos 0) (pos s.total)) then r.risk else s.max_risk;
  trust_load = s.trust_load +ℤ r.risk;
}

-- The loop over the rows, in their order.
unfoldable pub count_rows : List Row → Summary → Summary
unfolding count_row
count_rows [] s = s
count_rows (r ∷ rows) s = count_rows rows (count_row r s)

abbrev pub nothing : Summary
nothing = record {
  total = 0;
  by_category = [];
  held = 0;
  denied = 0;
  executed = 0;
  max_risk = pos 0;
  trust_load = pos 0;
}

-- WHERE ts >= now - days * 86400
unfoldable pub summary : ℕ → Num → Ledger → Summary
unfolding count_rows
summary days now l =
    count_rows (keep (λ (r : Row). not (r.ts <? (now -? num_of (days * 86400)))) l.rows) nothing

abbrev pub sum_counts : Table String ℕ → ℕ
sum_counts [] = 0
sum_counts ((k, n) ∷ t) = n + sum_counts t

count_in-sum : (cat : String) (t : Table String ℕ) → sum_counts (count_in cat t) ≡ sum_counts t + 1
unfolding count_in
count_in-sum cat [] = refl
count_in-sum cat ((k, n) ∷ t) = ground (arith, count_in-sum cat t)

-- What a summary keeps as it counts.
record IsConsistent (s : Summary) : Type 0 where
  categories : sum_counts s.by_category ≡ s.total
  statuses : s.held + s.denied + s.executed ≤ s.total

count_row-IsConsistent : (r : Row) (s : Summary) → IsConsistent s → IsConsistent (count_row r s)
unfolding count_row
count_row-IsConsistent r s c = record {
  categories = omega (arith, count_in-sum (category_of r) s.by_category, c.categories);
  statuses = ground (arith, c.statuses);
}

count_rows-IsConsistent :
    (rows : List Row) (s : Summary)
    → IsConsistent s
    → (sum_counts (count_rows rows s).by_category ≡ s.total + length rows)
      × ((count_rows rows s).held + (count_rows rows s).denied + (count_rows rows s).executed
          ≤ s.total + length rows)
unfolding count_rows
count_rows-IsConsistent [] s c = (omega (arith, c.categories), omega (arith, c.statuses))
count_rows-IsConsistent (r ∷ rows) s c =
    omega (arith, count_rows-IsConsistent rows (count_row r s) (count_row-IsConsistent r s c))
