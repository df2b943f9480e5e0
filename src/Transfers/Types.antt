-- ===== src/Transfers/Types.antt =====
-- The tables that src/modules/transfers/stock-transfer.service.ts works on, from
-- prisma/schema.prisma. `CreateStockTransferDto` accepts whole quantities from 1 on.
use multi_warehouse_manageme.Prelude.{
  ℕ, ◌==◌, if◌then◌else◌, Option, none, some, List, [], ◌∷◌, String,
}
use multi_warehouse_manageme.Prelude.Tx.{Tx, ok, err}
use multi_warehouse_manageme.Inventory.Store.{Stock}

-- `enum StockTransferStatus`
pub data TransferStatus : Type 0 where
  draft pending transferring received cancelled : TransferStatus

pub record TransferItem : Type 0 where
  pub variant_id : ℕ
  pub quantity : ℕ

pub record StockTransfer : Type 0 where
  pub id : ℕ
  pub code : String
  pub from_location_id : ℕ
  pub to_location_id : ℕ
  pub status : TransferStatus
  pub items : List TransferItem
  pub shipped_at : Option ℕ
  pub received_at : Option ℕ
  pub received_by_id : Option ℕ

-- A row of `activity_logs`.
pub record ActivityLog : Type 0 where
  pub user_id : ℕ
  pub action : String
  pub entity_type : String
  pub entity_id : ℕ
  pub code : String

pub record TransferDb : Type 0 where
  pub stock : Stock
  pub transfers : List StockTransfer
  pub logs : List ActivityLog

-- `stockTransfer.findUnique({ where: { id } })`
unfoldable pub find_transfer : ℕ → List StockTransfer → Option StockTransfer
find_transfer id [] = none
find_transfer id (stn ∷ stns) = if stn.id == id then some stn else find_transfer id stns

-- `stockTransfer.update({ where: { id }, data })`
unfoldable pub update_transfer :
    ℕ → (StockTransfer → StockTransfer) → List StockTransfer → List StockTransfer
update_transfer id f [] = []
update_transfer id f (stn ∷ stns) =
    if stn.id == id then f stn ∷ stns else stn ∷ update_transfer id f stns

-- `stockTransfer.delete({ where: { id } })`
unfoldable pub delete_transfer : ℕ → List StockTransfer → List StockTransfer
delete_transfer id [] = []
delete_transfer id (stn ∷ stns) = if stn.id == id then stns else stn ∷ delete_transfer id stns

-- A step on the stock, inside the same transaction.
abbrev pub on_stock : {A : Type 0} → Tx Stock A → Tx TransferDb A
on_stock m db = elim (m db.stock) [ ok (a, s) ↦ ok (a, record db { stock = s }) | err e ↦ err e ]
