-- ===== src/Policy.antt =====
-- backend/policy.py: the policy engine on the local SQLite path (Countersig is not configured).
mod Rules
mod Store
pub mod Severity
pub mod Windows
pub mod Spending
pub mod Caching
unfoldable pub use Rules.*
unfoldable pub use Store.*
