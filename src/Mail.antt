-- ===== src/Mail.antt =====
-- backend/domestic_oracle/atomicmail_client.py: the mail client. Work is its proof of work, Token its
-- capability token, Calls its requests, Client the operations that the tools use.
mod Work
mod Token
pub mod Calls
pub mod Messages
pub mod Client
pub mod Confirmed
pub mod Caching
pub mod Puzzle
pub mod Reuse
unfoldable pub use Token.*
unfoldable pub use Work.*
