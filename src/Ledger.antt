-- ===== src/Ledger.antt =====
-- backend/ledger.py: the audit ledger, on the local SQLite path (Countersig is not configured).
mod Entry
mod Append
mod Verify
mod Anchoring
pub mod Chain
pub mod Tamper
pub mod History
mod Numbering
pub mod Views
pub mod Summary
pub mod Growth
pub mod Spending
pub mod Truncation
unfoldable pub use Entry.*
unfoldable pub use Append.*
unfoldable pub use Verify.*
unfoldable pub use Anchoring.*
