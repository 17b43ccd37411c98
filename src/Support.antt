-- ===== src/Support.antt =====
-- What the pallets share in pallets/support/src.
pub mod ItemList
pub mod Online
pub mod Machines
mod Tests
