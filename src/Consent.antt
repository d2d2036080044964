-- ===== src/Consent.antt =====
-- backend/consent.py: the gate between an agent and the world, with its approval queue.
mod Tables
mod Gate
mod Queue
pub mod Signed
pub mod Replays
pub mod Paths
pub mod Untouched
pub mod Trail
pub mod Safety
pub mod Owner
pub mod Held
pub mod Receipts
unfoldable pub use Tables.*
unfoldable pub use Gate.*
unfoldable pub use Queue.*
