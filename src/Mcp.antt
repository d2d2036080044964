-- ===== src/Mcp.antt =====
-- backend/mcp_server.py: the tools that other programs reach over the Model Context Protocol, and the
-- token in front of them.
mod Tools
mod Token
pub mod Approved
pub mod Access
unfoldable pub use Tools.*
unfoldable pub use Token.*
