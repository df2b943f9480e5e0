-- ===== src/Fulfillments/Shipping.antt =====
-- src/modules/fulfillments/fulfillment.service.ts: shipments, their statuses, and the reports of the
-- carriers; src/modules/fulfillments/carriers/carrier-adapter.ts: the path to a reported status.
use multi_warehouse_manageme.Prelude.{
  ℕ, Bool, true, false, not, ◌||◌, ◌==◌, if◌then◌else◌, Option, none, some, List, [], ◌∷◌, map,
  or_default, String,
}
use multi_warehouse_manageme.Prelude.Int.{ℤ, pos, ◌-ℤ◌}
use multi_warehouse_manageme.Prelude.Tx.{
  Tx, ◌>>=◌, ◌>>◌, return, throw_if, or_throw, gets, Result, lift, not_found, invalid_transition,
  validation_error,
}
use multi_warehouse_manageme.Auth.{AuthUser}
use multi_warehouse_manageme.Inventory.Types.{Bucket, MovementType}
use multi_warehouse_manageme.Orders.RefundStatus.{RestockType}
use multi_warehouse_manageme.Orders.Types.{
  OrderStatus, ShipmentStatus, DeliveryMethod, OrderItem, Order, Fulfillment, OrderRefund,
  OrderRefundLine, OrderDb, find_open, is_set, is_paid, update_order, update_fulfillment, write_log,
  add_refund,
}
use multi_warehouse_manageme.Orders.Refunds.{recompute_statuses}
use multi_warehouse_manageme.Orders.Posting.{Leg, enter, leave, post_items}
use multi_warehouse_manageme.Fulfillments.Service.{
  load_order, load_fulfillment, assert_not_returned, assert_sufficient_physical_stock, has_package,
  has_no_package, is_unconfirmed, add_fulfillment, is_pending, same_bool, post_if, unpacking_legs,
}

-- The tag of a status, to compare statuses by.
abbrev pub status_tag : ShipmentStatus → ℕ
status_tag ShipmentStatus.pending = 0
status_tag ShipmentStatus.picked_up = 1
status_tag ShipmentStatus.delivering = 2
status_tag ShipmentStatus.delivered = 3
status_tag ShipmentStatus.retry_delivery = 4
status_tag ShipmentStatus.returning = 5
status_tag ShipmentStatus.returned = 6
status_tag ShipmentStatus.cancelled = 7

abbrev pub same_status : ShipmentStatus → ShipmentStatus → Bool
same_status a b = status_tag a == status_tag b

abbrev pub includes_status : List ShipmentStatus → ShipmentStatus → Bool
includes_status [] s = false
includes_status (x ∷ xs) s = same_status x s || includes_status xs s

-- `SHIPMENT_TRANSITIONS[status] ?? []`
unfoldable pub shipment_transitions : ShipmentStatus → List ShipmentStatus
shipment_transitions ShipmentStatus.pending = ShipmentStatus.picked_up ∷ []
shipment_transitions ShipmentStatus.picked_up = ShipmentStatus.delivering ∷ []
shipment_transitions ShipmentStatus.delivering =
    ShipmentStatus.delivered ∷ ShipmentStatus.retry_delivery ∷ []
shipment_transitions ShipmentStatus.retry_delivery =
    ShipmentStatus.delivering ∷ ShipmentStatus.returning ∷ []
shipment_transitions ShipmentStatus.returning = ShipmentStatus.returned ∷ []
shipment_transitions _ = []

-- `allowed[status] ?? []` of `applyShipmentStatus`
unfoldable pub allowed_statuses : ShipmentStatus → List ShipmentStatus
allowed_statuses ShipmentStatus.pending = ShipmentStatus.picked_up ∷ ShipmentStatus.cancelled ∷ []
allowed_statuses ShipmentStatus.picked_up =
    ShipmentStatus.delivering ∷ ShipmentStatus.cancelled ∷ []
allowed_statuses ShipmentStatus.delivering =
    ShipmentStatus.delivered ∷ ShipmentStatus.retry_delivery ∷ ShipmentStatus.cancelled ∷ []
allowed_statuses ShipmentStatus.retry_delivery =
    ShipmentStatus.delivering ∷ ShipmentStatus.returning ∷ ShipmentStatus.cancelled ∷ []
allowed_statuses ShipmentStatus.returning = ShipmentStatus.returned ∷ ShipmentStatus.cancelled ∷ []
allowed_statuses _ = []

unfoldable pub may_become : Option ShipmentStatus → ShipmentStatus → Bool
unfolding allowed_statuses
may_become none s = false
may_become (some from) s = includes_status (allowed_statuses from) s

abbrev pub with_status : ShipmentStatus → Fulfillment → Fulfillment
with_status s row = record row { shipment_status = some s }

abbrev pub log_shipment : Fulfillment → Order → String → AuthUser → Tx OrderDb (Unit {0})
log_shipment f o action user = write_log user action f.order_id o.code

-- `reservedBucket`
abbrev pub reserved_bucket : Fulfillment → Bucket
reserved_bucket f = if is_set f.packed_on then Bucket.packed else Bucket.committed

abbrev pub pick_up_legs : Fulfillment → List Leg
pick_up_legs f =
    leave Bucket.on_hand MovementType.order_ship
    ∷ leave (reserved_bucket f) MovementType.order_ship
    ∷ []

abbrev pub taken_back_legs : List Leg
taken_back_legs =
    enter Bucket.on_hand MovementType.return_in
    ∷ enter Bucket.committed MovementType.order_reserve
    ∷ []

abbrev pub restock_legs : List Leg
restock_legs = enter Bucket.on_hand MovementType.return_in ∷ []

abbrev pub delivered_at : Option ℕ → Order → Order
delivered_at time row = record row { delivered_on = time }

-- The branch for `picked_up`.
unfoldable pub pick_up : ℕ → Fulfillment → Order → AuthUser → Tx OrderDb (Unit {0})
pick_up now f o user = do
  post_items o user (pick_up_legs f) o.items
  update_order f.order_id (delivered_at (some now))
  update_fulfillment f.id (λ row. record row {
    shipment_status = some ShipmentStatus.picked_up;
    picked_up_at = some now;
  })
  log_shipment f o "fulfillment.picked_up" user

-- The branches for `delivering`, `retry_delivery` and `returning`: the goods are with the carrier.
unfoldable pub note_status :
    ShipmentStatus → String → Fulfillment → Order → AuthUser → Tx OrderDb (Unit {0})
note_status s action f o user = do
  update_fulfillment f.id (with_status s)
  log_shipment f o action user

abbrev pub after_delivery : ℕ → Bool → Order → Order
after_delivery now paid row =
    if paid
    then record row {
      fulfillment_status = (has_package row).fulfillment_status;
      status = OrderStatus.closed;
      closed_on = some now;
      completed_on = some now;
    }
    else has_package row

-- The branch for `delivered`.
unfoldable pub deliver : ℕ → Fulfillment → Order → AuthUser → Tx OrderDb (Unit {0})
deliver now f o user = do
  update_fulfillment f.id (λ row. record row {
    shipment_status = some ShipmentStatus.delivered;
    delivered_on = some now;
    closed_at = some now;
  })
  update_order f.order_id (after_delivery now (is_paid o.financial_status))
  log_shipment f o "fulfillment.delivered" user

-- The pieces of a shipment that the carrier has cancelled.
unfoldable pub take_back : Fulfillment → Order → AuthUser → Tx OrderDb (Unit {0})
take_back f o user =
    if is_pending f.shipment_status
    then post_if (is_set f.packed_on) o user unpacking_legs
    else post_items o user taken_back_legs o.items >> update_order f.order_id (delivered_at none)

-- The branch for `cancelled`.
unfoldable pub cancel_by_carrier : ℕ → Fulfillment → Order → AuthUser → Tx OrderDb (Unit {0})
unfolding take_back
cancel_by_carrier now f o user = do
  take_back f o user
  update_fulfillment f.id (λ row. record row {
    shipment_status = some ShipmentStatus.cancelled;
    cancelled_on = some now;
    closed_at = some now;
  })
  update_order f.order_id has_no_package
  log_shipment f o "fulfillment.cancel" user

abbrev pub refund_line : Order → OrderItem → OrderRefundLine
refund_line o item = record {
  order_item_id = some item.id;
  variant_id = item.variant_id;
  location_id = o.location_id;
  quantity = item.quantity;
  restock_type = RestockType.return_item;
}

abbrev pub return_refund : Fulfillment → Order → OrderRefund
return_refund f o = record {
  order_id = f.order_id;
  restock = true;
  total_refunded = pos 0;
  lines = map (refund_line o) o.items;
}

-- The branch for `returned`.
unfoldable pub restock : ℕ → Fulfillment → Order → AuthUser → Tx OrderDb (Unit {0})
restock now f o user = do
  post_items o user restock_legs o.items
  add_refund (return_refund f o)
  update_fulfillment f.id (λ row. record row {
    shipment_status = some ShipmentStatus.returned;
    returned_at = some now;
    closed_at = some now;
  })
  update_order f.order_id (delivered_at none)
  recompute_statuses f.order_id
  log_shipment f o "fulfillment.returned" user

-- The transaction of `applyShipmentStatus`; what is none of the statuses named is `returned`, to
-- which `pending` never comes.
unfoldable pub shipment_tx :
    ShipmentStatus → ℕ → Fulfillment → Order → AuthUser → Tx OrderDb (Unit {0})
unfolding pick_up note_status deliver cancel_by_carrier restock
shipment_tx ShipmentStatus.picked_up now f o user = pick_up now f o user
shipment_tx ShipmentStatus.delivering now f o user =
    note_status ShipmentStatus.delivering "fulfillment.redeliver" f o user
shipment_tx ShipmentStatus.delivered now f o user = deliver now f o user
shipment_tx ShipmentStatus.retry_delivery now f o user =
    note_status ShipmentStatus.retry_delivery "fulfillment.delivery_failed" f o user
shipment_tx ShipmentStatus.returning now f o user =
    note_status ShipmentStatus.returning "fulfillment.returning" f o user
shipment_tx ShipmentStatus.cancelled now f o user = cancel_by_carrier now f o user
shipment_tx _ now f o user = restock now f o user

-- `applyShipmentStatus`
unfoldable pub apply_shipment_status :
    ℕ → Fulfillment → Order → ShipmentStatus → AuthUser → Tx OrderDb (Unit {0})
unfolding may_become shipment_tx
apply_shipment_status now f o status user = do
  throw_if (is_set f.closed_at) invalid_transition
  throw_if (not (may_become f.shipment_status status)) invalid_transition
  shipment_tx status now f o user

-- `updateShipmentStatus`
unfoldable pub update_shipment_status : ℕ → ℕ → ShipmentStatus → AuthUser → Tx OrderDb (Unit {0})
unfolding load_fulfillment apply_shipment_status
update_shipment_status now id status user = do
  (f, o) ← load_fulfillment id user
  apply_shipment_status now f o status user

-- `updateShipmentStatus` and the reports of carriers need a shipment; these are made here. A row of
-- `shipping_providers`; `is_integrated` is the type `tich_hop`, and there is one other.
pub record Provider : Type 0 where
  pub id : ℕ
  pub is_active : Bool
  pub is_connected : Bool
  pub is_integrated : Bool

-- `PushShipmentDto`, without the addresses and the measures.
pub record PushShipmentDto : Type 0 where
  pub order_id : ℕ
  pub is_integrated : Bool
  pub has_service_code : Bool
  pub shipping_fee : Option ℤ
  pub cod_amount : Option ℤ
  pub tracking_number : Option ℕ

-- `CarrierShipmentResult`
pub record CarrierShipment : Type 0 where
  pub tracking_number : ℕ
  pub shipping_fee : ℤ

-- The fee: an integrated carrier's is quoted.
unfoldable pub fee_of : Provider → Result ℤ → PushShipmentDto → Tx OrderDb ℤ
fee_of p quote dto =
    if dto.is_integrated
    then throw_if (not p.is_connected) validation_error
      >> (throw_if (not dto.has_service_code) validation_error >> lift quote)
    else return (or_default dto.shipping_fee (pos 0))

abbrev carrier_fee : Option CarrierShipment → ℤ → ℤ
carrier_fee none fee = fee
carrier_fee (some c) fee = c.shipping_fee

abbrev carrier_tracking : Option CarrierShipment → Option ℕ → Option ℕ
carrier_tracking none number = number
carrier_tracking (some c) number = some c.tracking_number

-- What `pushShipment` checks and asks before its transaction: the provider, the fee and the tracking
-- number. `quote` is the answer of the provider's price list, and `carrier` that of its own service.
unfoldable pub check_push :
    Option Provider
    → Result ℤ
    → Result (Option CarrierShipment)
    → PushShipmentDto
    → Order
    → Tx OrderDb (ℕ × ℤ × Option ℕ)
unfolding assert_not_returned assert_sufficient_physical_stock fee_of
check_push provider quote carrier dto o = do
  throw_if (is_unconfirmed o) invalid_transition
  assert_not_returned o.id
  assert_sufficient_physical_stock o.location_id o.items
  p ← or_throw provider not_found
  throw_if (not p.is_active) not_found
  throw_if (not (same_bool p.is_integrated dto.is_integrated)) validation_error
  fee ← fee_of p quote dto
  answer ← lift carrier
  return (p.id, carrier_fee answer fee, carrier_tracking answer dto.tracking_number)

-- `shipmentData`
abbrev pub shipped_row : PushShipmentDto → Order → ℕ × ℤ × Option ℕ → Fulfillment → Fulfillment
shipped_row dto o (provider_id, fee, tracking_number) row = record row {
  shipment_status = some ShipmentStatus.pending;
  delivery_method = some (
      if dto.is_integrated
      then DeliveryMethod.external_service
      else DeliveryMethod.external_shipper);
  provider_id = some provider_id;
  tracking_number = tracking_number;
  shipping_fee = fee;
  cod_amount = or_default dto.cod_amount (o.total_price -ℤ o.total_received);
}

abbrev pub has_shipment : Option Fulfillment → Bool
has_shipment none = false
has_shipment (some f) = is_set f.shipment_status

abbrev pub write_shipment :
    Option Fulfillment → Order → (Fulfillment → Fulfillment) → Tx OrderDb (Unit {0})
write_shipment none o ship = add_fulfillment o ship
write_shipment (some f) o ship = update_fulfillment f.id ship

-- The transaction of `pushShipment`.
unfoldable pub push_tx : Order → (Fulfillment → Fulfillment) → AuthUser → Tx OrderDb (Unit {0})
unfolding find_open
push_tx o ship user = do
  fs ← gets OrderDb.fulfillments
  throw_if (has_shipment (find_open o.id fs)) invalid_transition
  write_shipment (find_open o.id fs) o ship
  update_order o.id has_package
  write_log user "fulfillment.push" o.id o.code

-- `pushShipment`
unfoldable pub push_shipment :
    Option Provider
    → Result ℤ
    → Result (Option CarrierShipment)
    → PushShipmentDto
    → AuthUser
    → Tx OrderDb (Unit {0})
unfolding load_order check_push push_tx
push_shipment provider quote carrier dto user = do
  o ← load_order dto.order_id user
  asked ← check_push provider quote carrier dto o
  push_tx o (shipped_row dto o asked) user
