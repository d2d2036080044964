-- ===== src/Server.antt =====
-- backend/main.py: the server as a whole, one state that all its routes work on.
mod State
mod Gateway
mod Open
mod Owned
pub mod Kept
pub mod Gated
pub mod Governed
pub mod Authority
unfoldable pub use State.*
unfoldable pub use Gateway.*
unfoldable pub use Open.*
unfoldable pub use Owned.*
