-- ===== src/Crypto.antt =====
-- backend/crypto.py: the server's Ed25519 key and its rotation, and the nonces of signed requests.
mod Keys
mod Requests
pub mod Info
pub mod Rotation
pub mod Replay
unfoldable pub use Keys.*
unfoldable pub use Requests.*
