-- ===== src/Stream.antt =====
-- backend/domestic_oracle/stream.py: from the agent's events to the frames of a chat.
mod Frames
mod Pump
mod Search
pub mod Steps
pub mod Delivery
pub mod Cards
unfoldable pub use Frames.*
unfoldable pub use Pump.*
