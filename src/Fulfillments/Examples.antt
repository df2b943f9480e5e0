-- ===== src/Fulfillments/Examples.antt =====
-- A package of two pieces that is requested, packed, pushed to a carrier and picked up; and the
-- paths between the statuses of a shipment.
use multi_warehouse_manageme.Prelude.{
  ℕ, ◌≡◌, refl, sym, ==_refl, true, false, none, some, [], ◌∷◌, arith, List,
}
use multi_warehouse_manageme.Prelude.Int.{ℤ, pos, +ℤ_zero}
use multi_warehouse_manageme.Prelude.Tx.{ok, settle, for_each}
use multi_warehouse_manageme.Prelude.Table.{find_row, update_row}
use multi_warehouse_manageme.Auth.{AuthUser, assert_location_permission}
use multi_warehouse_manageme.Inventory.Types.{Bucket, zero_level}
use multi_warehouse_manageme.Inventory.Locking.{sort_for_locking}
use multi_warehouse_manageme.Inventory.Effect.{counter}
use multi_warehouse_manageme.Inventory.Computing.{computing}
use multi_warehouse_manageme.Orders.RefundStatus.{
  OrderReturnStatus, OrderRefundStatus, OrderRestockStatus, OrderFinancialStatus,
}
use multi_warehouse_manageme.Orders.Types.{
  OrderStatus, PackingStatus, ShipmentStatus, Order, Fulfillment, OrderDb, find_open,
  find_fulfillment,
}
use multi_warehouse_manageme.Orders.Refunds.{has_returned}
use multi_warehouse_manageme.Orders.Posting.{post_items, post_item}
use multi_warehouse_manageme.Fulfillments.Service.{
  create_packing_request, apply_packing_status, packing_tx, new_fulfillment,
}
use multi_warehouse_manageme.Fulfillments.Shipping.{
  Provider, PushShipmentDto, push_shipment, update_shipment_status, shipment_tx, pick_up,
}
use multi_warehouse_manageme.Fulfillments.Accounting.{Accounts}
use multi_warehouse_manageme.Fulfillments.Pushing.{IsKeyed}
use multi_warehouse_manageme.Fulfillments.Runs.{Run, Step, Run-Accounts}
use multi_warehouse_manageme.Fulfillments.Reaching.{Answers, path_to-Answers}

abbrev admin : AuthUser
admin = record {
  user_id = 1;
  is_admin = true;
  location_ids = [];
  admin_warehouse_ids = [];
  system_permissions = [];
  warehouse_permissions = [];
}

abbrev sale : Order
sale = record {
  id = 4;
  code = 1;
  location_id = 1;
  customer_id = some 8;
  status = OrderStatus.opened;
  fulfillment_status = none;
  financial_status = OrderFinancialStatus.pending;
  return_status = OrderReturnStatus.no_return;
  refund_status = OrderRefundStatus.no_refund;
  restock_status = OrderRestockStatus.no_restock;
  confirmed_on = some 9;
  delivered_on = none;
  paid_on = none;
  closed_on = none;
  completed_on = none;
  cancelled_on = none;
  sub_total_price = pos 30;
  total_discounts = pos 0;
  total_tax = pos 0;
  total_shipping_price = pos 0;
  subtotal_line_items_quantity = 2;
  total_price = pos 30;
  total_received = pos 0;
  items =
      record { id = 5; variant_id = 7; quantity = 2; price = pos 15; total_discount = pos 0 } ∷ [];
}

abbrev start : OrderDb
start = record {
  stock = record {
    levels =
        record {
          variant_id = 7;
          location_id = 1;
          level = record zero_level { on_hand = pos 10; committed = pos 2 };
          available = pos 8;
          price = pos 0;
          cost = pos 0;
        }
        ∷ [];
    movements = [];
    next_movement_id = 1;
  };
  orders = sale ∷ [];
  fulfillments = [];
  refunds = [];
  open_returns = [];
  ledger = [];
  vouchers = [];
  logs = [];
  next_id = 6;
}

handlers : Unit {0}
unfolding computing create_packing_request apply_packing_status packing_tx push_shipment
    update_shipment_status shipment_tx pick_up has_returned find_open post_items post_item
    assert_location_permission find_row update_row sort_for_locking for_each
handlers = tt

abbrev requested : OrderDb
unfolding handlers
requested = settle start (create_packing_request 4 admin start)

abbrev packed : OrderDb
unfolding handlers
packed = settle requested (apply_packing_status 10 6 PackingStatus.packed admin requested)

abbrev shipper : Provider
shipper = record { id = 2; is_active = true; is_connected = false; is_integrated = false }

abbrev parcel : PushShipmentDto
parcel = record {
  order_id = 4;
  is_integrated = false;
  has_service_code = false;
  shipping_fee = none;
  cod_amount = none;
  tracking_number = some 77;
}

abbrev pushed : OrderDb
unfolding handlers
pushed = settle packed (push_shipment (some shipper) (ok (pos 0)) (ok none) parcel admin packed)

abbrev gone : OrderDb
unfolding handlers
gone = settle pushed (update_shipment_status 11 6 ShipmentStatus.picked_up admin pushed)

requests : create_packing_request 4 admin start ≡ ok (tt, requested)
unfolding handlers
requests = refl

abbrev box : Fulfillment
box = new_fulfillment 6 sale []

find_box : find_fulfillment 6 requested.fulfillments ≡ some box
unfolding handlers
find_box = refl

packs : apply_packing_status 10 6 PackingStatus.packed admin requested ≡ ok (tt, packed)
unfolding handlers
packs = refl

pushes : push_shipment (some shipper) (ok (pos 0)) (ok none) parcel admin packed ≡ ok (tt, pushed)
unfolding handlers
pushes = refl

ships : update_shipment_status 11 6 ShipmentStatus.picked_up admin pushed ≡ ok (tt, gone)
unfolding handlers
ships = refl

eight_on_hand : counter 7 1 Bucket.on_hand gone.stock ≡ pos 8
unfolding handlers
eight_on_hand = refl

-- What is open is the one row.
open_row :
    (id : ℕ) (f : Fulfillment) (rows : List Fulfillment)
    → find_open id rows ≡ some f
    → (g : Fulfillment) → rows ≡ g ∷ []
    → find_fulfillment f.id rows ≡ some f
unfolding find_open find_row
open_row id f rows h g e = ground (arith, ==_refl f.id)

packed-IsKeyed : IsKeyed packed
unfolding handlers
packed-IsKeyed id f h = open_row id f packed.fulfillments h _ refl

abbrev at_start : ℕ → ℕ → Bucket → ℤ
at_start v l c = counter v l c start.stock

start-Accounts : Accounts at_start start
start-Accounts = record { accounted = λ v l c g. sym (+ℤ_zero _); marked = tt }

whole-Run : Run start gone
whole-Run =
    Run.next
      (Run.next
        (Run.next (Run.next Run.here (Step.requesting 4 admin requests))
          (Step.packing 10 6 PackingStatus.packed admin box find_box refl packs))
        (Step.pushing (some shipper) (ok (pos 0)) (ok none) parcel admin packed-IsKeyed pushes))
      (Step.shipping 11 6 ShipmentStatus.picked_up admin ships)

Run-Accounts_example : Accounts at_start gone
Run-Accounts_example = Run-Accounts at_start whole-Run start-Accounts

path_to-Answers_example : Answers ShipmentStatus.delivering ShipmentStatus.returned
path_to-Answers_example = path_to-Answers ShipmentStatus.delivering ShipmentStatus.returned refl
