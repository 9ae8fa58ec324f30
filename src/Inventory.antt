-- ===== src/Inventory.antt =====
-- The inventory service (src/modules/inventory): stock balances, reservations and warehouse purchases.
mod Tests
pub mod Stock
pub mod Receipts
pub mod Receiving
