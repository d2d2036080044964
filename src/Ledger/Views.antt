-- ===== src/Ledger/Views.antt =====
-- backend/ledger.py: what is read out of the ledger, the newest entries and the whole chain.
use domesticoracle.Prelude.{ℕ, zero, suc, List, [], ◌∷◌, ◌++◌}
use domesticoracle.Ledger.Entry.{Row, Ledger}

-- LIMIT
abbrev pub take : ℕ → List Row → List Row
take zero rows = []
take (suc n) [] = []
take (suc n) (r ∷ rows) = r ∷ take n rows

-- ORDER BY id DESC
abbrev pub newest_first : List Row → List Row
newest_first [] = []
newest_first (r ∷ rows) = newest_first rows ++ r ∷ []

abbrev pub list_entries : ℕ → Ledger → List Row
list_entries limit l = take limit (newest_first l.rows)

abbrev pub export_chain : Ledger → List Row
export_chain l = l.rows
