-- ===== src/Base/Table.antt =====
-- A table of the database as its list of rows, and the statements that the program runs on one.
mod Laws
pub use Laws.*
mod Defs
unfoldable pub use Defs.*
mod Finds
pub use Finds.*
