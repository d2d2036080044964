-- ===== src/Agent.antt =====
-- backend/domestic_oracle: what the agent can do. Executor is the re-run of held actions, Tools the
-- guarded tools; Mirror relates the two.
mod Executor
mod Tools
mod Lookups
pub mod Mirror
pub mod Home
pub mod Mailbox
pub mod Inbox
pub mod Warned
unfoldable pub use Executor.*
unfoldable pub use Lookups.*
unfoldable pub use Tools.*
