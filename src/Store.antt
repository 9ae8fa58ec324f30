-- ===== src/Store.antt =====
-- The database as the services see it, and actions on it: rows and tables in `Rows`, state with
-- exceptions and transactions in `Monad`.
mod Rows
mod Monad
pub mod Keeps
pub mod Reads
pub use Rows.*
pub use Monad.*
