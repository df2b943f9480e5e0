-- ===== src/AgedInventory.antt =====
-- src/modules/aged-inventory/aged-inventory.calc.ts: the stock on hand split into layers by the
-- time of receipt.
pub mod Calc
pub mod Newest
pub mod Layers
pub mod Examples
