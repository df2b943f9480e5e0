-- ===== src/Purchasing/Returns.antt =====
-- src/modules/purchasing/purchase-return.service.ts.
use multi_warehouse_manageme.Prelude.{
  ℕ, ◌+◌, Bool, true, false, not, ◌==◌, Option, none, some, List, [], ◌∷◌, length, sum_by,
}
use multi_warehouse_manageme.Prelude.Int.{pos, neg}
use multi_warehouse_manageme.Prelude.Sums.{sum_ℤ}
use multi_warehouse_manageme.Prelude.Tx.{
  Tx, ◌>>=◌, ◌>>◌, return, throw_if, or_throw, gets, modify, for_each, invalid_transition,
  not_found, validation_error, return_exceeds_receipt,
}
use multi_warehouse_manageme.Prelude.Table.{update_row}
use multi_warehouse_manageme.Auth.{AuthUser, assert_location_permission}
use multi_warehouse_manageme.Inventory.Types.{Bucket, MovementType, ApplyMovementInput}
use multi_warehouse_manageme.Inventory.Service.{apply_movement}
use multi_warehouse_manageme.Inventory.Locking.{Lockable, sort_for_locking}
use multi_warehouse_manageme.Inventory.Lines.{on_stock}
use multi_warehouse_manageme.Transfers.Service.{add_quantity, some_short}
use multi_warehouse_manageme.Purchasing.Types.{
  GoodsReceiptStatus, RefundStatus, LedgerReferenceType, ReturnItem, PurchaseReturn, PurchasingDb,
  stock_in, find_receipt, find_return, write_log, write_entry, create_receipt, validate_partner,
  line_amount,
}
use multi_warehouse_manageme.Purchasing.Receipts.{is_receipt_status}

abbrev pub by_variant : Lockable ReturnItem
by_variant = record { variant_id = ReturnItem.variant_id; location_id = λ _. none }

pub record CreatePurchaseReturnDto : Type 0 where
  pub supplier_id : ℕ
  pub location_id : ℕ
  pub goods_receipt_id : Option ℕ
  pub items : List ReturnItem

abbrev pub is_empty : List ReturnItem → Bool
is_empty [] = true
is_empty (_ ∷ _) = false

-- `validateGoodsReceiptRef`, for a return that names a receipt.
unfoldable pub validate_goods_receipt_ref : Option ℕ → ℕ → ℕ → Tx PurchasingDb (Unit {0})
validate_goods_receipt_ref none supplier_id location_id = return tt
validate_goods_receipt_ref (some id) supplier_id location_id = do
  receipts ← gets PurchasingDb.receipts
  rei ← or_throw (find_receipt id receipts) validation_error
  throw_if (not (is_receipt_status rei.status GoodsReceiptStatus.received)) validation_error
  throw_if (not (rei.supplier_id == supplier_id)) validation_error
  throw_if (not (rei.location_id == location_id)) validation_error

unfoldable pub return_quantities : List (ℕ × ℕ) → List ReturnItem → List (ℕ × ℕ)
unfolding add_quantity
return_quantities acc [] = acc
return_quantities acc (item ∷ items) =
    return_quantities (add_quantity item.variant_id item.quantity acc) items

-- `validateReturnQuantities`; the same map and test as in the transfers' `validateAvailability`.
unfoldable pub validate_return_quantities : List ReturnItem → ℕ → Tx PurchasingDb (Unit {0})
unfolding return_quantities some_short
validate_return_quantities items l db =
    throw_if (some_short l db.stock (return_quantities [] items)) return_exceeds_receipt db

abbrev pub return_movement : PurchaseReturn → AuthUser → ReturnItem → ApplyMovementInput
return_movement pvn user item = record {
  variant_id = item.variant_id;
  location_id = pvn.location_id;
  bucket = Bucket.on_hand;
  change = neg (pos item.quantity);
  type = MovementType.return_out;
  reference_type = some "purchase_return";
  reference_id = some pvn.id;
  created_by_id = some user.user_id;
  price = none;
  cost = none;
}

unfoldable pub send_back : PurchaseReturn → AuthUser → ReturnItem → Tx PurchasingDb (Unit {0})
send_back pvn user item = do
  on_stock stock_in (apply_movement (return_movement pvn user item))
  return tt

-- The row that `create` writes; `generateCode` counts the rows.
abbrev pub new_return : CreatePurchaseReturnDto → PurchasingDb → PurchaseReturn
new_return dto db = record {
  id = db.next_id;
  code = length db.returns + 1;
  supplier_id = dto.supplier_id;
  location_id = dto.location_id;
  goods_receipt_id = dto.goods_receipt_id;
  items = dto.items;
  total_quantity = sum_by ReturnItem.quantity dto.items;
  total_amount = sum_ℤ (λ i. line_amount i.quantity i.unit_price) dto.items;
  refund_status = RefundStatus.no_refund;
  refunded_at = none;
}

-- The transaction of `create`.
unfoldable pub create_tx : PurchaseReturn → AuthUser → Tx PurchasingDb (Unit {0})
create_tx pvn user = do
  modify (λ db. record db { returns = pvn ∷ db.returns; next_id = db.next_id + 1 })
  for_each (send_back pvn user) (sort_for_locking by_variant pvn.items)
  write_entry pvn.supplier_id LedgerReferenceType.purchase_return pvn.code pvn.total_amount user
  write_log user "purchase_return.create" pvn.id pvn.code

-- `create`
unfoldable pub create : CreatePurchaseReturnDto → AuthUser → Tx PurchasingDb (Unit {0})
create dto user = do
  throw_if (is_empty dto.items) validation_error
  suppliers ← gets PurchasingDb.suppliers
  validate_partner dto.supplier_id suppliers
  assert_location_permission user ("purchase_return:manage" ∷ []) dto.location_id
  validate_goods_receipt_ref dto.goods_receipt_id dto.supplier_id dto.location_id
  validate_return_quantities dto.items dto.location_id
  pvn ← gets (new_return dto)
  create_tx pvn user

abbrev pub is_refunded : RefundStatus → Bool
is_refunded RefundStatus.refunded = true
is_refunded RefundStatus.no_refund = false

-- `confirmRefund`: the supplier pays cash for the return, so the entry of `create` is reversed.
unfoldable pub confirm_refund : ℕ → ℕ → AuthUser → Tx PurchasingDb (Unit {0})
confirm_refund now id user = do
  returns ← gets PurchasingDb.returns
  pvn ← or_throw (find_return id returns) not_found
  throw_if (is_refunded pvn.refund_status) invalid_transition
  assert_location_permission user ("purchase_return:refund" ∷ []) pvn.location_id
  modify (λ db. record db {
    returns =
        update_row PurchaseReturn.id id
          (λ row. record row { refund_status = RefundStatus.refunded; refunded_at = some now })
          db.returns;
  })
  write_entry pvn.supplier_id LedgerReferenceType.refund pvn.code (neg pvn.total_amount) user
  write_log user "purchase_return.confirm_refund" pvn.id pvn.code
  create_receipt pvn.location_id pvn.total_amount user pvn.code "purchase_return" pvn.id
