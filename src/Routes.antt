-- ===== src/Routes.antt =====
-- backend/main.py: the HTTP routes that have state or logic of their own over the components. A
-- response is the value that is returned, or an error with its status code.
pub mod Chats
mod Events
pub mod Owner
pub mod Status
pub mod Threads
pub mod Memory
pub mod Panel
unfoldable pub use Chats.*
unfoldable pub use Events.*
unfoldable pub use Status.*
unfoldable pub use Owner.*
