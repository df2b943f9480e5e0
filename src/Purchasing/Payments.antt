-- ===== src/Purchasing/Payments.antt =====
-- `create`, `pay` and `cancel` of src/modules/purchasing/goods-receipt.service.ts.
use multi_warehouse_manageme.Prelude.{
  ℕ, ◌+◌, Bool, true, false, not, ◌==◌, if◌then◌else◌, Option, none, some, List, [], ◌∷◌, map,
  or_default,
}
use multi_warehouse_manageme.Prelude.Int.{ℤ, pos, ◌+ℤ◌, ◌-ℤ◌, ltb_ℤ, leb_ℤ}
use multi_warehouse_manageme.Prelude.Tx.{
  Tx, ◌>>=◌, ◌>>◌, return, throw_if, or_throw, gets, modify, for_each, invalid_transition,
  validation_error,
}
use multi_warehouse_manageme.Prelude.Table.{delete_row}
use multi_warehouse_manageme.Auth.{AuthUser, assert_location_permission}
use multi_warehouse_manageme.Purchasing.Types.{
  PoStatus, GoodsReceiptStatus, PaymentStatus, LedgerReferenceType, GoodsReceiptItem, GoodsReceipt,
  PurchasingDb, find_order, write_log, write_entry, create_payment, validate_partner,
}
use multi_warehouse_manageme.Purchasing.Orders.{is_status}
use multi_warehouse_manageme.Purchasing.Receipts.{
  is_receipt_status, is_paid, rei_write, read_receipt, update_receipt, po_item, or_else,
  distinct_from,
}

abbrev pub amount_or : Option ℤ → ℤ → ℤ
amount_or none remaining = remaining
amount_or (some amount) remaining = amount

abbrev pub is_refused_amount : Option ℤ → Bool
is_refused_amount none = false
is_refused_amount (some amount) = leb_ℤ amount (pos 0)

abbrev pub status_after : ℤ → ℤ → PaymentStatus
status_after paid due = if leb_ℤ due paid then PaymentStatus.paid else PaymentStatus.partially_paid

-- The transaction of `pay`, on the amounts of the locked row.
unfoldable pub pay_tx : Option ℤ → GoodsReceipt → AuthUser → Tx PurchasingDb (Unit {0})
pay_tx amount rei user = do
  let remaining = rei.amount_due -ℤ rei.paid_amount
  let pay_amount = amount_or amount remaining
  throw_if (leb_ℤ pay_amount (pos 0)) validation_error
  throw_if (ltb_ℤ remaining pay_amount) validation_error
  let paid = rei.paid_amount +ℤ pay_amount
  update_receipt rei.id
      (λ row. record row { payment_status = status_after paid rei.amount_due; paid_amount = paid })
  create_payment rei.location_id pay_amount user rei.code "goods_receipt" rei.id
  write_entry rei.supplier_id LedgerReferenceType.payment rei.code pay_amount user
  write_log user "goods_receipt.pay" rei.id rei.code

-- Nothing is owed any more: the receipt is marked as paid, and no voucher is written.
abbrev pub pay_remaining : Option ℤ → GoodsReceipt → AuthUser → Tx PurchasingDb (Unit {0})
pay_remaining amount rei user =
    if leb_ℤ (rei.amount_due -ℤ rei.paid_amount) (pos 0)
    then update_receipt rei.id (λ row. record row { payment_status = PaymentStatus.paid })
    else pay_tx amount rei user

-- The rest of `pay` for a receipt that is not yet marked as paid.
unfoldable pub pay_unpaid : Option ℤ → GoodsReceipt → AuthUser → Tx PurchasingDb (Unit {0})
pay_unpaid amount rei user = do
  assert_location_permission user ("goods_receipt:pay" ∷ []) rei.location_id
  throw_if (is_refused_amount amount) validation_error
  pay_remaining amount rei user

-- `pay`: a receipt that is paid is left as it is.
unfoldable pub pay : Option ℤ → ℕ → AuthUser → Tx PurchasingDb (Unit {0})
pay amount id user = do
  rei ← read_receipt id
  throw_if (not (is_receipt_status rei.status GoodsReceiptStatus.received)) invalid_transition
  if is_paid rei.payment_status then return tt else pay_unpaid amount rei user

-- `cancel`: a receipt that has not arrived is deleted.
unfoldable pub cancel : ℕ → AuthUser → Tx PurchasingDb (Unit {0})
cancel id user = do
  rei ← read_receipt id
  throw_if (not (is_receipt_status rei.status GoodsReceiptStatus.pending)) invalid_transition
  assert_location_permission user rei_write rei.location_id
  write_log user "goods_receipt.cancel" rei.id rei.code
  modify (λ db. record db { receipts = delete_row GoodsReceipt.id id db.receipts })

pub record CreateGoodsReceiptDto : Type 0 where
  pub supplier_id : ℕ
  pub location_id : ℕ
  pub purchase_order_id : Option ℕ
  pub items : List GoodsReceiptItem
  pub discount_amount : Option ℤ
  pub extra_cost : Option ℤ

abbrev pub is_empty : List GoodsReceiptItem → Bool
is_empty [] = true
is_empty (_ ∷ _) = false

-- The orders that the receipt names: its own, and those of its lines.
unfoldable pub named_orders : CreateGoodsReceiptDto → List ℕ
unfolding distinct_from
named_orders dto =
    distinct_from [] (dto.purchase_order_id ∷ map GoodsReceiptItem.purchase_order_id dto.items)

-- A round of the loop over the named orders: each waits for stock, of this supplier at this place.
unfoldable pub check_order : CreateGoodsReceiptDto → ℕ → Tx PurchasingDb (Unit {0})
check_order dto id = do
  orders ← gets PurchasingDb.orders
  po ← or_throw (find_order id orders) validation_error
  throw_if (not (is_status po.status PoStatus.pending)) validation_error
  throw_if (not (po.supplier_id == dto.supplier_id)) validation_error
  throw_if (not (po.location_id == dto.location_id)) validation_error

-- A round of the loop over the lines: each belongs to an order which has its variant.
unfoldable pub check_line : CreateGoodsReceiptDto → GoodsReceiptItem → Tx PurchasingDb (Unit {0})
check_line dto item = do
  po_id ← or_throw (or_else item.purchase_order_id dto.purchase_order_id) validation_error
  orders ← gets PurchasingDb.orders
  or_throw (po_item po_id item.variant_id orders) validation_error
  return tt

-- `headerPoId`: the given one, or else the one that all lines name.
abbrev pub only_one : List ℕ → Option ℕ
only_one (id ∷ []) = some id
only_one _ = none

unfoldable pub header_po_id : CreateGoodsReceiptDto → Option ℕ
header_po_id dto = or_else dto.purchase_order_id (only_one (named_orders dto))

abbrev pub with_order : Option ℕ → GoodsReceiptItem → GoodsReceiptItem
with_order header item = record item { purchase_order_id = or_else item.purchase_order_id header }

-- The row that `create` writes.
abbrev pub new_receipt : ℕ → CreateGoodsReceiptDto → ℕ → GoodsReceipt
new_receipt code dto id = record {
  id = id;
  code = code;
  supplier_id = dto.supplier_id;
  location_id = dto.location_id;
  purchase_order_id = header_po_id dto;
  status = GoodsReceiptStatus.pending;
  payment_status = PaymentStatus.unpaid;
  items = map (with_order (header_po_id dto)) dto.items;
  amount_due = pos 0;
  paid_amount = pos 0;
  discount_amount = or_default dto.discount_amount (pos 0);
  extra_cost = or_default dto.extra_cost (pos 0);
  deposit_applied = pos 0;
  received_at = none;
}

-- The transaction of `create`.
unfoldable pub create_tx : ℕ → CreateGoodsReceiptDto → AuthUser → Tx PurchasingDb (Unit {0})
create_tx code dto user = do
  id ← gets PurchasingDb.next_id
  modify (λ db. record db { receipts = new_receipt code dto id ∷ db.receipts; next_id = id + 1 })
  write_log user "goods_receipt.create" id code

-- The checks of `create` on the orders that it names, and the transaction.
unfoldable pub create_against_orders :
    ℕ → CreateGoodsReceiptDto → AuthUser → Tx PurchasingDb (Unit {0})
create_against_orders code dto user = do
  for_each (check_order dto) (named_orders dto)
  for_each (check_line dto) dto.items
  create_tx code dto user

-- `create`, with the number of the code that `nextSequentialCode` has given out. Whether
-- `invoice_symbol` has a visible character is given as `has_symbol`.
unfoldable pub create : Bool → ℕ → CreateGoodsReceiptDto → AuthUser → Tx PurchasingDb (Unit {0})
create has_symbol code dto user = do
  throw_if (is_empty dto.items) validation_error
  throw_if (not has_symbol) validation_error
  suppliers ← gets PurchasingDb.suppliers
  validate_partner dto.supplier_id suppliers
  assert_location_permission user rei_write dto.location_id
  create_against_orders code dto user
