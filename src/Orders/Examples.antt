-- ===== src/Orders/Examples.antt =====
-- The statuses of a concrete order; and an order that is created, confirmed, paid in part, and
-- cancelled.
use multi_warehouse_manageme.Prelude.{
  ℕ, ◌≡◌, ◌≤◌, ◌<◌, ◌↔◌, ◌⊎◌, refl, true, false, none, some, List, [], ◌∷◌, All, sum_by, arith,
  or_default,
}
use multi_warehouse_manageme.Prelude.Int.{ℤ, pos, ◌*ℤ◌, max_ℤ}
use multi_warehouse_manageme.Prelude.Tx.{ok, settle, for_each}
use multi_warehouse_manageme.Prelude.Table.{find_row, update_row}
use multi_warehouse_manageme.Auth.{AuthUser, assert_location_permission}
use multi_warehouse_manageme.Inventory.Types.{Bucket, zero_level}
use multi_warehouse_manageme.Inventory.Locking.{sort_for_locking}
use multi_warehouse_manageme.Inventory.Computing.{computing}
use multi_warehouse_manageme.Orders.Types.{Order, OrderDb, find_open, find_order}
use multi_warehouse_manageme.Orders.Refunds.{recompute_statuses}
use multi_warehouse_manageme.Orders.Posting.{post_items, post_item}
use multi_warehouse_manageme.Orders.Pricing.{
  Catalog, calc_order_totals, resolve_items, resolve_item,
}
use multi_warehouse_manageme.Orders.Creating.{
  CreateOrderDto, new_order, totals_of, create, create_tx, create_books,
}
use multi_warehouse_manageme.Orders.Service.{
  OrderAction, transition, pay, pay_tx, cancel_order, cancel_tx, cancel_books, process,
  close_if_delivered, remaining_items,
}
use multi_warehouse_manageme.Orders.Debts.{IsSound}
use multi_warehouse_manageme.Orders.Ledger.{Run, Step, Run-IsSound}
use multi_warehouse_manageme.Orders.Stocking.{transition-stock}
use multi_warehouse_manageme.Inventory.Effect.{counter}
use multi_warehouse_manageme.Orders.RefundStatus.{
  RestockType, RefundLine, RefundStatuses, OrderReturnStatus, OrderRefundStatus, OrderRestockStatus,
  OrderFinancialStatus, restockable, restocked_lines, restock_status,
  recompute_order_refund_statuses, derive_return_status, refund_status, financial_status,
}
use multi_warehouse_manageme.Orders.Restocking.{
  IsBack, recompute-restocked_iff, sent_back_pieces, recompute-return_status, recompute-agree,
}

-- Two pieces came back, and one was cancelled before it left.
abbrev lines : List RefundLine
lines =
    record { quantity = 2; restock_type = RestockType.return_item }
    ∷ record { quantity = 1; restock_type = RestockType.cancel }
    ∷ []

abbrev statuses : RefundStatuses
statuses = recompute_order_refund_statuses (pos 90000) (2 ∷ 1 ∷ []) lines 0 (pos 60000)

statuses_eq : statuses ≡ record {
  return_status = OrderReturnStatus.in_progress;
  refund_status = OrderRefundStatus.partial;
  restock_status = OrderRestockStatus.restocked;
  financial_status = some OrderFinancialStatus.partially_refunded;
}
unfolding recompute_order_refund_statuses restockable restocked_lines restock_status
    derive_return_status refund_status financial_status
statuses_eq = refl

recompute-restocked_iff_example :
    (statuses.restock_status ≡ OrderRestockStatus.restocked)
    ↔ ((0 < sum_by RefundLine.quantity (restockable lines)) × All IsBack lines)
recompute-restocked_iff_example =
    recompute-restocked_iff (pos 90000) (2 ∷ 1 ∷ []) lines 0 (pos 60000)

recompute-return_status_example :
    ((statuses.return_status ≡ OrderReturnStatus.returned) ↔ (
      (◌≡◌ {A = ℕ} 0 0)
      × (0 < sent_back_pieces lines)
      × (sum_by (λ q. q) (2 ∷ 1 ∷ []) ≤ sent_back_pieces lines)))
    × ((statuses.return_status ≡ OrderReturnStatus.no_return)
        ↔ ((◌≡◌ {A = ℕ} 0 0) × (sent_back_pieces lines ≡ 0)))
    × ((statuses.return_status ≡ OrderReturnStatus.in_progress) ↔ (
        (◌<◌ 0 0)
        ⊎ ((0 < sent_back_pieces lines) × (sent_back_pieces lines < sum_by (λ q. q) (2 ∷ 1 ∷ [])))))
recompute-return_status_example =
    recompute-return_status (pos 90000) (2 ∷ 1 ∷ []) lines 0 (pos 60000)

recompute-agree_example :
    ((statuses.refund_status ≡ OrderRefundStatus.no_refund) ↔ (statuses.financial_status ≡ none))
    × ((statuses.refund_status ≡ OrderRefundStatus.refunded)
        ↔ (statuses.financial_status ≡ some OrderFinancialStatus.refunded))
recompute-agree_example = recompute-agree (pos 90000) (2 ∷ 1 ∷ []) lines 0 (pos 60000)

abbrev admin : AuthUser
admin = record {
  user_id = 1;
  is_admin = true;
  location_ids = [];
  admin_warehouse_ids = [];
  system_permissions = [];
  warehouse_permissions = [];
}

abbrev shop : OrderDb
shop = record {
  stock = record {
    levels =
        record {
          variant_id = 7;
          location_id = 1;
          level = record zero_level { on_hand = pos 10 };
          available = pos 10;
          price = pos 0;
          cost = pos 0;
        }
        ∷ [];
    movements = [];
    next_movement_id = 1;
  };
  orders = [];
  fulfillments = [];
  refunds = [];
  open_returns = [];
  ledger = [];
  vouchers = [];
  logs = [];
  next_id = 4;
}

abbrev catalog : Catalog
catalog = record {
  location_exists = λ l. true;
  variant_exists = λ v. true;
  resolve_price = λ v l. ok (pos 15);
  listed_prices = λ v. pos 15 ∷ [];
}

abbrev request : CreateOrderDto
request = record {
  location_id = 1;
  name = none;
  customer_id = some 8;
  items =
      record { variant_id = 7; location_id = some 1; quantity = 2; price = none; discount = none }
      ∷ [];
  total_discounts = none;
  total_shipping_price = none;
  total_received = some (pos 5);
}

abbrev no_tax : ℤ → ℤ
no_tax x = pos 0

handlers : Unit {0}
unfolding computing create create_tx create_books calc_order_totals resolve_items resolve_item
    transition pay pay_tx cancel_order cancel_tx cancel_books process close_if_delivered
    remaining_items recompute_statuses find_open post_items post_item assert_location_permission
    find_row update_row sort_for_locking for_each ◌*ℤ◌ max_ℤ
handlers = tt

abbrev ordered : OrderDb
unfolding handlers
ordered = settle shop (create catalog no_tax 10 1 false request admin shop)

abbrev confirmed : OrderDb
unfolding handlers
confirmed = settle ordered (transition 11 4 OrderAction.processing admin ordered)

abbrev paid : OrderDb
unfolding handlers
paid = settle confirmed (pay 12 (some (pos 10)) 4 admin confirmed)

abbrev cancelled : OrderDb
unfolding handlers
cancelled = settle paid (transition 13 4 OrderAction.cancel admin paid)

creates : create catalog no_tax 10 1 false request admin shop ≡ ok (tt, ordered)
unfolding handlers
creates = refl

confirms : transition 11 4 OrderAction.processing admin ordered ≡ ok (tt, confirmed)
unfolding handlers
confirms = refl

pays : pay 12 (some (pos 10)) 4 admin confirmed ≡ ok (tt, paid)
unfolding handlers
pays = refl

cancels : transition 13 4 OrderAction.cancel admin paid ≡ ok (tt, cancelled)
unfolding handlers
cancels = refl

abbrev paid_order : Order
unfolding handlers
paid_order =
    or_default (find_order 4 paid.orders)
      (new_order 10 4 1 8 request [] (totals_of no_tax request []) (pos 0))

abbrev nothing_else : ℕ → ℤ
nothing_else c = pos 0

shop-IsSound : IsSound nothing_else shop
unfolding computing
shop-IsSound = record { balanced = λ c. refl; collected = tt }

run : Run shop cancelled
run =
    Run.then
      (Run.then
        (Run.then
          (Run.then Run.start
            (Step.creates catalog no_tax 10 1 false request admin tt (omega arith) creates))
          (Step.transits 11 4 OrderAction.processing admin tt confirms))
        (Step.pays 12 (some (pos 10)) 4 admin tt pays))
      (Step.transits 13 4 OrderAction.cancel admin tt cancels)

Run-IsSound_example : IsSound nothing_else cancelled
Run-IsSound_example = Run-IsSound nothing_else shop cancelled run shop-IsSound

-- One of the two pieces comes back before the order is cancelled, which frees the other one.
abbrev part_back : OrderDb
part_back = record paid {
  refunds =
      record {
        order_id = 4;
        restock = true;
        total_refunded = pos 0;
        lines =
            record {
              order_item_id = some 5;
              variant_id = 7;
              location_id = 1;
              quantity = 1;
              restock_type = RestockType.return_item;
            }
            ∷ [];
      }
      ∷ [];
}

abbrev let_go : OrderDb
unfolding handlers
let_go = settle part_back (transition 13 4 OrderAction.cancel admin part_back)

transition-stock_example : counter 7 1 Bucket.committed let_go.stock ≡ pos 1
unfolding handlers
transition-stock_example =
    transition-stock 13 4 OrderAction.cancel admin part_back let_go tt paid_order 7 1
      Bucket.committed refl refl refl
