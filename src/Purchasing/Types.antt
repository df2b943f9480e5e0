-- ===== src/Purchasing/Types.antt =====
-- The tables of src/modules/purchasing, from prisma/schema.prisma, and the writes that its services
-- share. Amounts are integers of hundredths. A code is the number in it: its prefix is the table's.
-- Descriptive columns, such as `invoice_symbol`, are left out.
use multi_warehouse_manageme.Prelude.{ℕ, Bool, not, Option, List, ◌∷◌, String}
use multi_warehouse_manageme.Prelude.Int.{ℤ, pos, ◌*ℤ◌}
use multi_warehouse_manageme.Prelude.Tx.{Tx, ◌>>=◌, throw_if, or_throw, modify, validation_error}
use multi_warehouse_manageme.Prelude.Table.{find_row}
use multi_warehouse_manageme.Auth.{AuthUser}
use multi_warehouse_manageme.Inventory.Store.{Stock}
use multi_warehouse_manageme.Inventory.Lines.{StockIn}

pub data PoStatus : Type 0 where
  draft pending received cancelled : PoStatus

pub data GoodsReceiptStatus : Type 0 where
  pending received cancelled : GoodsReceiptStatus

pub data PaymentStatus : Type 0 where
  unpaid partially_paid paid : PaymentStatus

pub data RefundStatus : Type 0 where
  no_refund refunded : RefundStatus

pub data LedgerReferenceType : Type 0 where
  goods_receipt payment purchase_return refund adjustment : LedgerReferenceType

pub data VoucherType : Type 0 where
  receipt payment : VoucherType

-- A row of `suppliers` or of `locations`, by its key and whether it is active.
pub record Partner : Type 0 where
  pub id : ℕ
  pub is_active : Bool

pub record PurchaseOrderItem : Type 0 where
  pub variant_id : ℕ
  pub quantity : ℕ
  pub unit_price : ℤ
  pub received_quantity : ℕ

pub record PurchaseOrder : Type 0 where
  pub id : ℕ
  pub code : ℕ
  pub supplier_id : ℕ
  pub location_id : ℕ
  pub status : PoStatus
  pub items : List PurchaseOrderItem
  pub total_quantity : ℕ
  pub total_amount : ℤ
  pub deposit_amount : ℤ

pub record GoodsReceiptItem : Type 0 where
  pub variant_id : ℕ
  pub purchase_order_id : Option ℕ
  pub quantity : ℕ
  pub unit_price : ℤ

pub record GoodsReceipt : Type 0 where
  pub id : ℕ
  pub code : ℕ
  pub supplier_id : ℕ
  pub location_id : ℕ
  pub purchase_order_id : Option ℕ
  pub status : GoodsReceiptStatus
  pub payment_status : PaymentStatus
  pub items : List GoodsReceiptItem
  pub amount_due : ℤ
  pub paid_amount : ℤ
  pub discount_amount : ℤ
  pub extra_cost : ℤ
  pub deposit_applied : ℤ
  pub received_at : Option ℕ

pub record ReturnItem : Type 0 where
  pub variant_id : ℕ
  pub quantity : ℕ
  pub unit_price : ℤ

pub record PurchaseReturn : Type 0 where
  pub id : ℕ
  pub code : ℕ
  pub supplier_id : ℕ
  pub location_id : ℕ
  pub goods_receipt_id : Option ℕ
  pub items : List ReturnItem
  pub total_quantity : ℕ
  pub total_amount : ℤ
  pub refund_status : RefundStatus
  pub refunded_at : Option ℕ

-- A row of `supplier_ledger_entries`: what is owed to the supplier counts below zero.
pub record LedgerEntry : Type 0 where
  pub supplier_id : ℕ
  pub reference_type : LedgerReferenceType
  pub reference_code : ℕ
  pub amount : ℤ
  pub created_by_id : ℕ

-- A row of `vouchers`, without its code.
pub record Voucher : Type 0 where
  pub type : VoucherType
  pub amount_in : ℤ
  pub amount_out : ℤ
  pub location_id : ℕ
  pub created_by_id : ℕ
  pub source_document : ℕ
  pub reference_type : String
  pub reference_id : ℕ

pub record PurchasingLog : Type 0 where
  pub user_id : ℕ
  pub action : String
  pub entity_id : ℕ
  pub code : ℕ

pub record PurchasingDb : Type 0 where
  pub stock : Stock
  pub suppliers : List Partner
  pub locations : List Partner
  pub orders : List PurchaseOrder
  pub receipts : List GoodsReceipt
  pub returns : List PurchaseReturn
  pub ledger : List LedgerEntry
  pub vouchers : List Voucher
  pub logs : List PurchasingLog
  pub next_id : ℕ

abbrev pub stock_in : StockIn PurchasingDb
stock_in = record { stock_of = PurchasingDb.stock; with_stock = λ s db. record db { stock = s } }

abbrev pub find_order : ℕ → List PurchaseOrder → Option PurchaseOrder
find_order = find_row PurchaseOrder.id

abbrev pub find_receipt : ℕ → List GoodsReceipt → Option GoodsReceipt
find_receipt = find_row GoodsReceipt.id

abbrev pub find_return : ℕ → List PurchaseReturn → Option PurchaseReturn
find_return = find_row PurchaseReturn.id

-- `activityLog.create`
abbrev pub write_log : AuthUser → String → ℕ → ℕ → Tx PurchasingDb (Unit {0})
write_log user action id code = modify (λ db. record db {
  logs = record { user_id = user.user_id; action = action; entity_id = id; code = code } ∷ db.logs;
})

abbrev pub new_entry : ℕ → LedgerReferenceType → ℕ → ℤ → AuthUser → LedgerEntry
new_entry supplier_id reference_type code amount user = record {
  supplier_id = supplier_id;
  reference_type = reference_type;
  reference_code = code;
  amount = amount;
  created_by_id = user.user_id;
}

-- `supplierLedgerEntry.create`
abbrev pub write_entry : ℕ → LedgerReferenceType → ℕ → ℤ → AuthUser → Tx PurchasingDb (Unit {0})
write_entry supplier_id reference_type code amount user =
    modify (λ db. record db {
      ledger = new_entry supplier_id reference_type code amount user ∷ db.ledger;
    })

abbrev pub add_voucher : Voucher → Tx PurchasingDb (Unit {0})
add_voucher voucher = modify (λ db. record db { vouchers = voucher ∷ db.vouchers })

-- `VoucherService.createPayment`: money that goes out.
unfoldable pub create_payment : ℕ → ℤ → AuthUser → ℕ → String → ℕ → Tx PurchasingDb (Unit {0})
create_payment location_id amount user source_document reference_type reference_id =
    add_voucher (record {
      type = VoucherType.payment;
      amount_in = pos 0;
      amount_out = amount;
      location_id = location_id;
      created_by_id = user.user_id;
      source_document = source_document;
      reference_type = reference_type;
      reference_id = reference_id;
    })

-- `VoucherService.createReceipt`: money that comes in.
unfoldable pub create_receipt : ℕ → ℤ → AuthUser → ℕ → String → ℕ → Tx PurchasingDb (Unit {0})
create_receipt location_id amount user source_document reference_type reference_id =
    add_voucher (record {
      type = VoucherType.receipt;
      amount_in = amount;
      amount_out = pos 0;
      location_id = location_id;
      created_by_id = user.user_id;
      source_document = source_document;
      reference_type = reference_type;
      reference_id = reference_id;
    })

-- `validateSupplier`, `getActiveSupplier` and `validateBranch`: the row is there and is active.
unfoldable pub validate_partner : ℕ → List Partner → Tx PurchasingDb (Unit {0})
validate_partner id partners = do
  partner ← or_throw (find_row Partner.id id partners) validation_error
  throw_if (not partner.is_active) validation_error

-- `item.quantity * item.unit_price`
abbrev pub line_amount : ℕ → ℤ → ℤ
line_amount quantity unit_price = pos quantity *ℤ unit_price
