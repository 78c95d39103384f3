-- ===== src/Dict.antt =====
-- Go maps as association lists: the order of the list is one order in which a `range` may visit
-- the entries, and theorems hold for every list, so for every such order.
mod Laws
mod Sizes
mod Entries
pub mod Sets
pub mod Nested
pub use Laws.*
pub use Sizes.*
pub use Entries.*
unfoldable pub use Defs.*
mod Defs
