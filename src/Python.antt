-- ===== src/Python.antt =====
-- The Python values that the backend handles, and the functions of its standard library that the
-- model leaves abstract.
mod Number
mod Values
mod Host
mod Text
pub mod Slices
unfoldable pub use Number.*
unfoldable pub use Values.*
unfoldable pub use Text.*
unfoldable pub use Host.*
