-- ===== src/Monitor.antt =====
-- backend/monitor.py: one scheduled check of the ledger, which is incremental, and what it leaves.
use domesticoracle.Prelude.{ℕ, String, Bool, Option, some, List, not}
use domesticoracle.Python.{Python}
use domesticoracle.Crypto.{Signatures}
use domesticoracle.Ledger.{Ledger, integrity}

-- The last result, `_state`; `none` before the first check.
pub record Result : Type 0 where
  pub ok : Bool
  pub checked : ℕ
  pub broken_at : Option ℕ
  pub reason : String
  pub checked_at : ℕ

-- The new state, and whether CRITICAL is logged.
unfoldable pub run_check :
    Python → Signatures → String → List String → ℕ → Ledger → (Option Result × Bool) × Ledger
unfolding integrity
run_check py sg own pubs now l =
    let (result, l') = integrity py sg own pubs Bool.false l in
    (
      (
        some (record {
          ok = result.valid;
          checked = result.checked;
          broken_at = result.broken_at;
          reason = result.reason;
          checked_at = now;
        }),
        not result.valid,
      ),
      l',
    )
