-- ===== src/Fulfillments/Service.antt =====
-- src/modules/fulfillments/fulfillment.service.ts: packing requests, packing, printing and
-- cancelling. The notifications that follow a transaction are left out.
use multi_warehouse_manageme.Prelude.{
  ℕ, ◌+◌, Bool, true, false, not, ◌&&◌, ◌||◌, ◌==◌, if◌then◌else◌, Option, none, some, List, [],
  ◌∷◌, filter, length,
}
use multi_warehouse_manageme.Prelude.Int.{ℤ, pos, ltb_ℤ}
use multi_warehouse_manageme.Prelude.Tx.{
  Tx, ◌>>=◌, ◌>>◌, return, throw_if, or_throw, gets, modify, Result, lift, not_found,
  invalid_transition, insufficient_stock, record_not_found,
}
use multi_warehouse_manageme.Auth.{AuthUser, assert_location_permission}
use multi_warehouse_manageme.Inventory.Types.{Bucket, MovementType}
use multi_warehouse_manageme.Inventory.Store.{LevelRow, Stock, find_level}
use multi_warehouse_manageme.Orders.Types.{
  OrderFulfillmentStatus, PackingStatus, ShipmentStatus, DeliveryMethod, OrderItem, Order,
  Fulfillment, OrderDb, find_order, find_fulfillment, find_open, is_set, is_open, update_order,
  update_fulfillment, write_log,
}
use multi_warehouse_manageme.Orders.Refunds.{has_returned}
use multi_warehouse_manageme.Orders.Posting.{Leg, enter, leave, post_items, pieces}

-- `loadOrder`
unfoldable pub load_order : ℕ → AuthUser → Tx OrderDb Order
load_order id user = do
  db ← gets (λ db. db)
  o ← or_throw (find_order id db.orders) not_found
  assert_location_permission user ("order:pack" ∷ []) o.location_id
  return o

-- `assertNotReturned`
unfoldable pub assert_not_returned : ℕ → Tx OrderDb (Unit {0})
assert_not_returned order_id = do
  db ← gets (λ db. db)
  throw_if (has_returned order_id db.refunds) invalid_transition

-- `loadFulfillment`: the row with its order, which the foreign key guarantees.
unfoldable pub load_fulfillment : ℕ → AuthUser → Tx OrderDb (Fulfillment × Order)
load_fulfillment id user = do
  db ← gets (λ db. db)
  f ← or_throw (find_fulfillment id db.fulfillments) not_found
  o ← or_throw (find_order f.order_id db.orders) record_not_found
  assert_location_permission user ("order:pack" ∷ []) o.location_id
  return (f, o)

-- `level?.onHand ?? 0`
abbrev pub on_hand_at : Option LevelRow → ℤ
on_hand_at none = pos 0
on_hand_at (some row) = row.level.on_hand

-- Whether a variant of the items is short on the shelf; `required` adds up its lines.
unfoldable pub some_short : Stock → ℕ → List OrderItem → List OrderItem → Bool
some_short s l items [] = false
some_short s l items (i ∷ rest) =
    ltb_ℤ (on_hand_at (find_level i.variant_id l s.levels)) (pos (pieces i.variant_id items))
    || some_short s l items rest

-- `assertSufficientPhysicalStock`
unfoldable pub assert_sufficient_physical_stock : ℕ → List OrderItem → Tx OrderDb (Unit {0})
unfolding some_short
assert_sufficient_physical_stock l items = do
  s ← gets OrderDb.stock
  throw_if (some_short s l items items) insufficient_stock

-- `ORDER_HAS_PACKAGE` and `ORDER_HAS_NO_PACKAGE`
abbrev pub has_package : Order → Order
has_package row = record row { fulfillment_status = some OrderFulfillmentStatus.fulfilled }

abbrev pub has_no_package : Order → Order
has_no_package row = record row { fulfillment_status = none }

-- The number in `generateFulfillmentCode`.
abbrev pub next_number : ℕ → List Fulfillment → ℕ
next_number order_id fs = length (filter (λ (f : Fulfillment). f.order_id == order_id) fs) + 1

-- A row as `fulfillment.create` makes it, waiting to be packed.
abbrev pub new_fulfillment : ℕ → Order → List Fulfillment → Fulfillment
new_fulfillment id o fs = record {
  id = id;
  order_id = o.id;
  number = next_number o.id fs;
  is_cancelled = false;
  packed_status = some PackingStatus.unknown;
  packed_on = none;
  delivery_note_printed_at = none;
  shipment_status = none;
  delivery_method = none;
  provider_id = none;
  tracking_number = none;
  shipping_fee = pos 0;
  cod_amount = pos 0;
  picked_up_at = none;
  delivered_on = none;
  returned_at = none;
  cancelled_on = none;
  closed_at = none;
}

abbrev pub add_fulfillment : Order → (Fulfillment → Fulfillment) → Tx OrderDb (Unit {0})
add_fulfillment o f = modify (λ db. record db {
  fulfillments = f (new_fulfillment db.next_id o db.fulfillments) ∷ db.fulfillments;
  next_id = db.next_id + 1;
})

-- `order.status !== OrderStatus.open || order.confirmedOn === null`
abbrev pub is_unconfirmed : Order → Bool
is_unconfirmed o = not (is_open o.status) || not (is_set o.confirmed_on)

-- `createPackingRequest`
unfoldable pub create_packing_request : ℕ → AuthUser → Tx OrderDb (Unit {0})
unfolding load_order assert_not_returned assert_sufficient_physical_stock find_open
create_packing_request order_id user = do
  o ← load_order order_id user
  throw_if (is_unconfirmed o) invalid_transition
  assert_not_returned o.id
  assert_sufficient_physical_stock o.location_id o.items
  fs ← gets OrderDb.fulfillments
  throw_if (is_set (find_open o.id fs)) invalid_transition
  add_fulfillment o (λ f. f)
  update_order o.id has_package
  write_log user "fulfillment.packing_request" o.id o.code

-- `allowed` of `applyPackingStatus`
unfoldable pub may_pack : Option PackingStatus → PackingStatus → Bool
may_pack (some PackingStatus.unknown) PackingStatus.packing = true
may_pack (some PackingStatus.unknown) PackingStatus.packed = true
may_pack (some PackingStatus.packing) PackingStatus.packed = true
may_pack _ _ = false

abbrev pub is_ecommerce : Option DeliveryMethod → Bool
is_ecommerce (some DeliveryMethod.ecommerce) = true
is_ecommerce _ = false

abbrev pub is_packed : PackingStatus → Bool
is_packed PackingStatus.packed = true
is_packed _ = false

-- Reserved pieces go to the packing area, and back.
abbrev pub packing_legs : List Leg
packing_legs =
    leave Bucket.committed MovementType.packing_start
    ∷ enter Bucket.packed MovementType.packing_start
    ∷ []

abbrev pub unpacking_legs : List Leg
unpacking_legs =
    leave Bucket.packed MovementType.packing_cancel
    ∷ enter Bucket.committed MovementType.packing_cancel
    ∷ []

-- `if (b) { for (…) … }`
abbrev pub post_if : Bool → Order → AuthUser → List Leg → Tx OrderDb (Unit {0})
post_if true o user legs = post_items o user legs o.items
post_if false o user legs = return tt

abbrev pub with_packing : ℕ → PackingStatus → Bool → Fulfillment → Fulfillment
with_packing now status moved row = record row {
  packed_status = some status;
  packed_on = if moved then some now else row.packed_on;
}

-- The transaction of `applyPackingStatus`; `moved` is whether the stock moves.
unfoldable pub packing_tx :
    ℕ → Fulfillment → Order → PackingStatus → Bool → AuthUser → Tx OrderDb (Unit {0})
packing_tx now f o status moved user = do
  post_if moved o user packing_legs
  update_fulfillment f.id (with_packing now status moved)
  write_log user "fulfillment.packing_status" o.id o.code

-- `applyPackingStatus`
unfoldable pub apply_packing_status : ℕ → ℕ → PackingStatus → AuthUser → Tx OrderDb (Unit {0})
unfolding load_fulfillment may_pack
apply_packing_status now id status user = do
  (f, o) ← load_fulfillment id user
  throw_if (is_set f.closed_at) invalid_transition
  throw_if (not (may_pack f.packed_status status)) invalid_transition
  packing_tx now f o status (is_packed status && not (is_ecommerce f.delivery_method)) user

abbrev pub same_bool : Bool → Bool → Bool
same_bool true b = b
same_bool false b = not b

-- `setPrinted`: nothing is written where nothing changes.
unfoldable pub set_printed : ℕ → ℕ → Bool → AuthUser → Tx OrderDb (Unit {0})
unfolding load_fulfillment
set_printed now id printed user = do
  (f, o) ← load_fulfillment id user
  let mark =
      update_fulfillment id
        (λ row. record row { delivery_note_printed_at = if printed then some now else none })
  let log =
      write_log user (if printed then "fulfillment.print" else "fulfillment.unprint") o.id o.code
  let write = mark >> log
  if same_bool (is_set f.delivery_note_printed_at) printed then return tt else write

abbrev pub is_pending : Option ShipmentStatus → Bool
is_pending (some ShipmentStatus.pending) = true
is_pending _ = false

abbrev pub cancelled_shipment : Option ShipmentStatus → Option ShipmentStatus
cancelled_shipment none = none
cancelled_shipment (some _) = some ShipmentStatus.cancelled

-- The transaction of `cancel`.
unfoldable pub cancel_tx : ℕ → Fulfillment → Order → AuthUser → Tx OrderDb (Unit {0})
cancel_tx now f o user = do
  post_if (is_set f.packed_on) o user unpacking_legs
  update_fulfillment f.id (λ row. record row {
    shipment_status = cancelled_shipment f.shipment_status;
    cancelled_on = some now;
    closed_at = some now;
  })
  update_order o.id has_no_package
  write_log user "fulfillment.cancel" o.id o.code

-- `cancel`; `carrier` is the answer of the carrier's own service, which is asked first.
unfoldable pub cancel : Result (Unit {0}) → ℕ → ℕ → AuthUser → Tx OrderDb (Unit {0})
unfolding load_fulfillment
cancel carrier now id user = do
  (f, o) ← load_fulfillment id user
  throw_if (is_set f.closed_at) invalid_transition
  throw_if (is_set f.shipment_status && not (is_pending f.shipment_status)) invalid_transition
  lift carrier
  cancel_tx now f o user
