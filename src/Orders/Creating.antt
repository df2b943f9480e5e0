-- ===== src/Orders/Creating.antt =====
-- `create` of src/modules/orders/order.service.ts.
use multi_warehouse_manageme.Prelude.{
  ℕ, ◌+◌, Bool, true, false, not, ◌&&◌, ◌||◌, ◌==◌, if◌then◌else◌, Option, none, some, List, [],
  ◌∷◌, length, or_default,
}
use multi_warehouse_manageme.Prelude.Int.{ℤ, pos, neg, ltb_ℤ, leb_ℤ}
use multi_warehouse_manageme.Prelude.Tx.{
  Tx, ok, err, ◌>>=◌, ◌>>◌, return, throw_if, or_throw, gets, modify, for_each, validation_error,
  missing_warehouse, duplicate_code, record_not_found,
}
use multi_warehouse_manageme.Auth.{AuthUser, assert_location_permission, has_location_permission}
use multi_warehouse_manageme.Inventory.Types.{Bucket, MovementType, ApplyMovementInput}
use multi_warehouse_manageme.Inventory.Service.{apply_movements}
use multi_warehouse_manageme.Inventory.Lines.{on_stock}
use multi_warehouse_manageme.Inventory.Locking.{Lockable, sort_for_locking}
use multi_warehouse_manageme.Orders.RefundStatus.{
  OrderReturnStatus, OrderRefundStatus, OrderRestockStatus, OrderFinancialStatus,
}
use multi_warehouse_manageme.Orders.Types.{
  OrderStatus, CustomerReferenceType, OrderItem, Order, OrderDb, stock_in, write_log, record_entry,
  create_receipt, is_set,
}
use multi_warehouse_manageme.Orders.Pricing.{
  OrderItemDto, Catalog, ResolvedItem, OrderTotals, calc_order_totals, resolve_items,
}

-- `CreateOrderDto`; `name` is a code.
pub record CreateOrderDto : Type 0 where
  pub location_id : ℕ
  pub name : Option ℕ
  pub customer_id : Option ℕ
  pub items : List OrderItemDto
  pub total_discounts : Option ℤ
  pub total_shipping_price : Option ℤ
  pub total_received : Option ℤ

abbrev pub is_empty : List OrderItemDto → Bool
is_empty [] = true
is_empty _ = false

unfoldable pub misses_location : List OrderItemDto → Bool
misses_location [] = false
misses_location (i ∷ is) = not (is_set i.location_id) || misses_location is

-- `repo.findByCode`, whether it finds one.
unfoldable pub has_code : ℕ → List Order → Bool
has_code code [] = false
has_code code (o ∷ os) = o.code == code || has_code code os

abbrev pub is_duplicate : Option ℕ → List Order → Bool
is_duplicate none orders = false
is_duplicate (some code) orders = has_code code orders

-- `resolveItems` inside the handler.
abbrev pub resolving : Catalog → Bool → List OrderItemDto → Tx OrderDb (List ResolvedItem)
resolving cat can_override items db = elim (resolve_items cat can_override items tt) [
  | ok (rs, _) ↦ ok (rs, db)
  | err e ↦ err e
]

abbrev pub totals_of : (ℤ → ℤ) → CreateOrderDto → List ResolvedItem → OrderTotals
totals_of tax dto items =
    calc_order_totals tax items (or_default dto.total_discounts (pos 0))
      (or_default dto.total_shipping_price (pos 0))

-- The rows of `order_items`, numbered from `id`.
abbrev pub item_rows : ℕ → List ResolvedItem → List OrderItem
item_rows id [] = []
item_rows id (r ∷ rs) =
    record {
      id = id;
      variant_id = r.variant_id;
      quantity = r.quantity;
      price = r.price;
      total_discount = r.discount;
    }
    ∷ item_rows (id + 1) rs

abbrev reaches_full : ℤ → ℤ → Bool
reaches_full paid total = leb_ℤ total paid && ltb_ℤ (pos 0) total

abbrev first_status : ℤ → ℤ → OrderFinancialStatus
first_status paid total =
    if reaches_full paid total
    then OrderFinancialStatus.paid
    else if ltb_ℤ (pos 0) paid
    then OrderFinancialStatus.partially_paid
    else OrderFinancialStatus.pending

-- The row of the order; a new one is not confirmed.
abbrev pub new_order : ℕ → ℕ → ℕ → ℕ → CreateOrderDto → List ResolvedItem → OrderTotals → ℤ → Order
new_order now id code customer_id dto items totals paid = record {
  id = id;
  code = code;
  location_id = dto.location_id;
  customer_id = some customer_id;
  status = OrderStatus.opened;
  fulfillment_status = none;
  financial_status = first_status paid totals.total_price;
  return_status = OrderReturnStatus.no_return;
  refund_status = OrderRefundStatus.no_refund;
  restock_status = OrderRestockStatus.no_restock;
  confirmed_on = none;
  delivered_on = none;
  paid_on = if reaches_full paid totals.total_price then some now else none;
  closed_on = none;
  completed_on = none;
  cancelled_on = none;
  sub_total_price = totals.sub_total_price;
  total_discounts = or_default dto.total_discounts (pos 0);
  total_tax = totals.total_tax;
  total_shipping_price = or_default dto.total_shipping_price (pos 0);
  subtotal_line_items_quantity = totals.subtotal_line_items_quantity;
  total_price = totals.total_price;
  total_received = paid;
  items = item_rows (id + 1) items;
}

abbrev pub by_variant_and_location : Lockable ResolvedItem
by_variant_and_location = record {
  variant_id = ResolvedItem.variant_id;
  location_id = λ r. some r.location_id;
}

abbrev pub reserve_movement : Order → AuthUser → ResolvedItem → ApplyMovementInput
reserve_movement o user r = record {
  variant_id = r.variant_id;
  location_id = o.location_id;
  bucket = Bucket.committed;
  change = pos r.quantity;
  type = MovementType.order_reserve;
  reference_type = some "order";
  reference_id = some o.id;
  created_by_id = some user.user_id;
  price = none;
  cost = none;
}

unfoldable pub reserve_item : Order → AuthUser → ResolvedItem → Tx OrderDb (Unit {0})
unfolding assert_location_permission
reserve_item o user r = do
  assert_location_permission user ("order:create" ∷ []) r.location_id
  on_stock stock_in (apply_movements (reserve_movement o user r ∷ []))
  return tt

abbrev pub take_deposit : Order → ℤ → AuthUser → Tx OrderDb (Unit {0})
take_deposit o paid user =
    if ltb_ℤ (pos 0) paid
    then (create_receipt o paid user
        >> record_entry o.customer_id CustomerReferenceType.payment o.code (neg paid) user)
    else return tt

abbrev pub add_order : Order → OrderDb → OrderDb
add_order o db = record db { orders = o ∷ db.orders; next_id = db.next_id + 1 + length o.items }

-- The transaction, after the row has been written.
unfoldable pub create_books : Order → List ResolvedItem → AuthUser → Tx OrderDb (Unit {0})
unfolding reserve_item
create_books o items user = do
  for_each (reserve_item o user) (sort_for_locking by_variant_and_location items)
  record_entry o.customer_id CustomerReferenceType.order o.code o.total_price user
  take_deposit o o.total_received user
  write_log user "order.create" o.id o.code

unfoldable pub create_tx : Order → List ResolvedItem → AuthUser → Tx OrderDb (Unit {0})
unfolding create_books
create_tx o items user = do modify (add_order o); create_books o items user

-- `create`; `tax` is the rounded tax at the rate that is asked for, and `generated` what
-- `generateOrderCode` answers.
unfoldable pub create :
    Catalog → (ℤ → ℤ) → ℕ → ℕ → Bool → CreateOrderDto → AuthUser → Tx OrderDb (Unit {0})
unfolding misses_location has_code create_tx
create cat tax now generated trusted dto user = do
  throw_if (is_empty dto.items) validation_error
  throw_if (misses_location dto.items) missing_warehouse
  assert_location_permission user ("order:create" ∷ []) dto.location_id
  throw_if (not (cat.location_exists dto.location_id)) record_not_found
  db ← gets (λ db. db)
  throw_if (is_duplicate dto.name db.orders) duplicate_code
  items ←
      resolving cat
        (trusted || has_location_permission user "order:override_price" (some dto.location_id))
        dto.items
  customer_id ← or_throw dto.customer_id validation_error
  throw_if
      (ltb_ℤ (OrderTotals.total_price (totals_of tax dto items))
        (or_default dto.total_received (pos 0)))
      validation_error
  create_tx
      (new_order now db.next_id (or_default dto.name generated) customer_id dto items
        (totals_of tax dto items) (or_default dto.total_received (pos 0)))
      items user
