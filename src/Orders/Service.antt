-- ===== src/Orders/Service.antt =====
-- src/modules/orders/order.service.ts: the transitions of an order and its payments; and
-- src/modules/orders/order-completion.ts. The notifications after a transaction are left out.
use multi_warehouse_manageme.Prelude.{
  ℕ, ◌-◌, Bool, true, false, not, ◌&&◌, ◌||◌, ◌==◌, ltb, if◌then◌else◌, Option, none, some, List,
  [], ◌∷◌, String, map, or_default,
}
use multi_warehouse_manageme.Prelude.Int.{ℤ, pos, neg, ◌+ℤ◌, ◌-ℤ◌, ltb_ℤ, leb_ℤ}
use multi_warehouse_manageme.Prelude.Tx.{
  Tx, ◌>>=◌, ◌>>◌, return, throw_if, or_throw, gets, not_found, invalid_transition,
  validation_error,
}
use multi_warehouse_manageme.Auth.{AuthUser, assert_location_permission}
use multi_warehouse_manageme.Inventory.Types.{Bucket, MovementType}
use multi_warehouse_manageme.Orders.RefundStatus.{RestockType, OrderFinancialStatus}
use multi_warehouse_manageme.Orders.Types.{
  OrderStatus, OrderFulfillmentStatus, ShipmentStatus, CustomerReferenceType, OrderItem, Order,
  Fulfillment, OrderRefund, OrderRefundLine, OrderDb, find_order, find_open, is_set, is_open,
  is_closed, is_paid, update_order, write_log, record_entry, create_receipt, add_refund,
}
use multi_warehouse_manageme.Orders.Refunds.{
  refund_lines, returned_quantity, has_returned, recompute_statuses,
}
use multi_warehouse_manageme.Orders.Posting.{Leg, leave, post_items}

-- `repo.findById`
unfoldable pub read_order : ℕ → Tx OrderDb Order
read_order id = do orders ← gets OrderDb.orders; or_throw (find_order id orders) not_found

-- `assertNoOpenFulfillment`
unfoldable pub assert_no_open_fulfillment : ℕ → Tx OrderDb (Unit {0})
unfolding find_open
assert_no_open_fulfillment id = do
  fs ← gets OrderDb.fulfillments
  throw_if (is_set (find_open id fs)) invalid_transition

-- `assertNotReturned`
unfoldable pub assert_not_returned : ℕ → Tx OrderDb (Unit {0})
unfolding has_returned
assert_not_returned id = do
  refunds ← gets OrderDb.refunds
  throw_if (has_returned id refunds) invalid_transition

abbrev pub ship_legs : List Leg
ship_legs =
    leave Bucket.on_hand MovementType.order_ship
    ∷ leave Bucket.committed MovementType.order_ship
    ∷ []

abbrev pub release_legs : List Leg
release_legs = leave Bucket.committed MovementType.order_release ∷ []

-- `shipOrderItems`
unfoldable pub ship_order_items : Order → AuthUser → Tx OrderDb (Unit {0})
ship_order_items o user = post_items o user ship_legs o.items

-- `isOrderedEquivalent` and `isProcessingEquivalent`
abbrev pub is_ordered : Order → Bool
is_ordered o = is_open o.status && not (is_set o.confirmed_on)

abbrev pub is_processing : Order → Bool
is_processing o = is_open o.status && is_set o.confirmed_on

-- `OrderTransitionDto.action`
pub data OrderAction : Type 0 where
  cancel complete processing ship : OrderAction

abbrev pub permission_by_action : OrderAction → String
permission_by_action cancel = "order:cancel"
permission_by_action ship = "order:pack"
permission_by_action processing = "order:update"
permission_by_action complete = "order:update"

abbrev pub confirmed_at : ℕ → Order → Order
confirmed_at now row = record row { confirmed_on = some now }

-- The branch for `processing`.
unfoldable pub process : ℕ → Order → AuthUser → Tx OrderDb (Unit {0})
process now o user = do
  throw_if (not (is_ordered o)) invalid_transition
  update_order o.id (confirmed_at now)
  write_log user "order.transition_processing" o.id o.code

-- `remaining`: the items less what has come back, those with nothing left dropped.
unfoldable pub remaining_items : List OrderRefundLine → List OrderItem → List OrderItem
unfolding returned_quantity
remaining_items lines [] = []
remaining_items lines (i ∷ items) =
    let left = i.quantity - returned_quantity i.id lines in
    let rest = remaining_items lines items in
    if ltb 0 left then record i { quantity = left } ∷ rest else rest

abbrev cancel_line : Order → OrderItem → OrderRefundLine
cancel_line o i = record {
  order_item_id = some i.id;
  variant_id = i.variant_id;
  location_id = o.location_id;
  quantity = i.quantity;
  restock_type = RestockType.cancel;
}

abbrev pub cancel_refund : Order → List OrderItem → OrderRefund
cancel_refund o items = record {
  order_id = o.id;
  restock = false;
  total_refunded = o.total_received;
  lines = map (cancel_line o) items;
}

abbrev pub is_empty : List OrderItem → Bool
is_empty [] = true
is_empty _ = false

abbrev pub add_cancel_refund : Order → List OrderItem → Tx OrderDb (Unit {0})
add_cancel_refund o items =
    if not (is_empty items) || ltb_ℤ (pos 0) o.total_received
    then add_refund (cancel_refund o items)
    else return tt

abbrev pub cancelled_at : ℕ → Order → Order
cancelled_at now row = record row { status = OrderStatus.cancelled; cancelled_on = some now }

-- The end of the transaction of `cancel`, after the release.
unfoldable pub cancel_books : ℕ → Order → List OrderItem → AuthUser → Tx OrderDb (Unit {0})
cancel_books now o items user = do
  record_entry o.customer_id CustomerReferenceType.order o.code (neg o.total_price) user
  add_cancel_refund o items
  update_order o.id (cancelled_at now)
  recompute_statuses o.id
  write_log user "order.cancel" o.id o.code

-- The transaction of `cancel`.
unfoldable pub cancel_tx : ℕ → Order → AuthUser → Tx OrderDb (Unit {0})
unfolding refund_lines remaining_items
cancel_tx now o user = do
  refunds ← gets OrderDb.refunds
  post_items o user release_legs (remaining_items (refund_lines o.id refunds) o.items)
  cancel_books now o (remaining_items (refund_lines o.id refunds) o.items) user

-- The branch for `cancel`.
unfoldable pub cancel_order : ℕ → Order → AuthUser → Tx OrderDb (Unit {0})
unfolding assert_no_open_fulfillment
cancel_order now o user = do
  throw_if (not (is_ordered o) && not (is_processing o)) invalid_transition
  assert_no_open_fulfillment o.id
  throw_if (is_set o.delivered_on) invalid_transition
  cancel_tx now o user

abbrev pub shipped_at : ℕ → Order → Order
shipped_at now row = record row {
  delivered_on = some now;
  fulfillment_status = some OrderFulfillmentStatus.fulfilled;
}

-- The transaction of `ship`.
unfoldable pub ship_tx : ℕ → Order → AuthUser → Tx OrderDb (Unit {0})
unfolding ship_order_items
ship_tx now o user = do
  ship_order_items o user
  update_order o.id (shipped_at now)
  write_log user "order.ship" o.id o.code

-- The branch for `ship`.
unfoldable pub ship_order : ℕ → Order → AuthUser → Tx OrderDb (Unit {0})
unfolding assert_no_open_fulfillment assert_not_returned
ship_order now o user = do
  throw_if (not (is_processing o)) invalid_transition
  assert_no_open_fulfillment o.id
  assert_not_returned o.id
  throw_if (is_set o.delivered_on) invalid_transition
  ship_tx now o user

abbrev pub completed_at : ℕ → Option ℕ → Order → Order
completed_at now delivered row = record row {
  status = OrderStatus.closed;
  closed_on = some now;
  completed_on = some now;
  fulfillment_status = some OrderFulfillmentStatus.fulfilled;
  delivered_on = some (or_default delivered now);
}

abbrev pub ship_unless : Bool → Order → AuthUser → Tx OrderDb (Unit {0})
ship_unless true o user = return tt
ship_unless false o user = post_items o user ship_legs o.items

-- The transaction of `complete`: what has left before is not shipped again.
unfoldable pub complete_tx : ℕ → Order → AuthUser → Tx OrderDb (Unit {0})
complete_tx now o user = do
  ship_unless (is_set o.delivered_on) o user
  update_order o.id (completed_at now o.delivered_on)
  write_log user "order.complete" o.id o.code

-- The branch for `complete`.
unfoldable pub complete_order : ℕ → Order → AuthUser → Tx OrderDb (Unit {0})
unfolding assert_no_open_fulfillment assert_not_returned
complete_order now o user = do
  throw_if (is_closed o.status) invalid_transition
  throw_if (not (is_processing o)) invalid_transition
  assert_no_open_fulfillment o.id
  assert_not_returned o.id
  complete_tx now o user

abbrev pub run_action : OrderAction → ℕ → Order → AuthUser → Tx OrderDb (Unit {0})
run_action processing now o user = process now o user
run_action cancel now o user = cancel_order now o user
run_action ship now o user = ship_order now o user
run_action complete now o user = complete_order now o user

-- `transition`
unfoldable pub transition : ℕ → ℕ → OrderAction → AuthUser → Tx OrderDb (Unit {0})
unfolding read_order process cancel_order ship_order complete_order
transition now id action user = do
  o ← read_order id
  assert_location_permission user (permission_by_action action ∷ []) o.location_id
  run_action action now o user

-- The conditions of `closeOrderIfDeliveredAndPaid`: a package that is delivered, and
-- `IN_FLIGHT_FULFILLMENT_WHERE`.
abbrev pub is_delivered_package : Fulfillment → Bool
is_delivered_package f = elim f.shipment_status [
  | some ShipmentStatus.delivered ↦ not f.is_cancelled
  | _ ↦ false
]

abbrev pub is_in_flight : Fulfillment → Bool
is_in_flight f = elim f.shipment_status [
  | none ↦ not f.is_cancelled && (not (is_set f.closed_at) && not (is_set f.delivery_method))
  | some ShipmentStatus.delivered ↦ false
  | some ShipmentStatus.returned ↦ false
  | some ShipmentStatus.cancelled ↦ false
  | some _ ↦ not f.is_cancelled
]

-- `fulfillment.count({ where: { orderId, … } }) > 0`
unfoldable pub has_package_that : (Fulfillment → Bool) → ℕ → List Fulfillment → Bool
has_package_that p id [] = false
has_package_that p id (f ∷ fs) = f.order_id == id && p f || has_package_that p id fs

abbrev pub closed_if_open : ℕ → Order → Order
closed_if_open now row =
    if is_open row.status
    then record row { status = OrderStatus.closed; closed_on = some now; completed_on = some now }
    else row

abbrev pub close_row : Bool → ℕ → ℕ → Tx OrderDb (Unit {0})
close_row true now id = update_order id (closed_if_open now)
close_row false now id = return tt

-- `closeOrderIfDeliveredAndPaid`
unfoldable pub close_if_delivered : ℕ → ℕ → Tx OrderDb (Unit {0})
unfolding has_package_that
close_if_delivered now id = do
  fs ← gets OrderDb.fulfillments
  close_row
      (has_package_that is_delivered_package id fs && not (has_package_that is_in_flight id fs)) now
      id

abbrev pub paid_row : ℕ → ℤ → Order → Order
paid_row now received row =
    if leb_ℤ row.total_price received
    then record row {
      financial_status = OrderFinancialStatus.paid;
      total_received = received;
      paid_on = some now;
    }
    else record row {
      financial_status = OrderFinancialStatus.partially_paid;
      total_received = received;
    }

abbrev pub close_when : Bool → ℕ → ℕ → Tx OrderDb (Unit {0})
close_when true now id = close_if_delivered now id
close_when false now id = return tt

-- The transaction of `pay`, on the row that it has locked.
unfoldable pub pay_tx : ℕ → Order → ℤ → AuthUser → Tx OrderDb (Unit {0})
pay_tx now o amount user = do
  throw_if (leb_ℤ amount (pos 0)) validation_error
  throw_if (ltb_ℤ (o.total_price -ℤ o.total_received) amount) validation_error
  update_order o.id (paid_row now (o.total_received +ℤ amount))
  create_receipt o amount user
  record_entry o.customer_id CustomerReferenceType.payment o.code (neg amount) user
  write_log user "order.pay" o.id o.code
  close_when (leb_ℤ o.total_price (o.total_received +ℤ amount)) now o.id

abbrev pub is_cancelled_order : OrderStatus → Bool
is_cancelled_order OrderStatus.cancelled = true
is_cancelled_order _ = false

abbrev pub is_not_positive : Option ℤ → Bool
is_not_positive none = false
is_not_positive (some x) = leb_ℤ x (pos 0)

-- `pay`; an order that is paid is answered with its state, and nothing is written.
unfoldable pub pay : ℕ → Option ℤ → ℕ → AuthUser → Tx OrderDb (Unit {0})
unfolding read_order
pay now amount id user = do
  o ← read_order id
  assert_location_permission user ("order:payment" ∷ []) o.location_id
  throw_if (is_cancelled_order o.status) invalid_transition
  let run =
      throw_if (is_not_positive amount) validation_error
      >> pay_tx now o (or_default amount (o.total_price -ℤ o.total_received)) user
  if is_paid o.financial_status then return tt else run
