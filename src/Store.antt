-- ===== src/Store.antt =====
-- The database and the event bus, as the state that every service reads and writes.
mod Client
mod Enums
mod Rows
mod Events
mod State
mod Monad
mod Keys
mod Rules
mod Steps
unfoldable pub use Client.*
unfoldable pub use Enums.*
pub use Rows.*
pub use Events.*
pub use State.*
pub use Rules.*
pub use Steps.*
pub use Keys.*
unfoldable pub use Monad.*
