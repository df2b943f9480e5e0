-- ===== src/Orders/Refunds.antt =====
-- What an order's refunds add up to (src/modules/orders/order-refund-status.ts), on the tables.
use multi_warehouse_manageme.Prelude.{
  ℕ, ◌+◌, Bool, not, ◌&&◌, ◌==◌, if◌then◌else◌, Option, none, some, List, [], ◌∷◌, ◌++◌, map,
  filter, length,
}
use multi_warehouse_manageme.Prelude.Int.{ℤ}
use multi_warehouse_manageme.Prelude.Sums.{sum_ℤ}
use multi_warehouse_manageme.Prelude.Tx.{Tx, ◌>>=◌, gets, or_throw, record_not_found}
use multi_warehouse_manageme.Orders.RefundStatus.{
  RefundLine, is_cancel, OrderFinancialStatus, RefundStatuses, recompute_order_refund_statuses,
}
use multi_warehouse_manageme.Orders.Types.{
  Order, OrderItem, OrderRefund, OrderRefundLine, OrderDb, find_order, update_order,
}

-- `orderRefundLineItem.findMany({ where: { refund: { orderId } } })`
unfoldable pub refund_lines : ℕ → List OrderRefund → List OrderRefundLine
refund_lines order_id [] = []
refund_lines order_id (r ∷ rs) =
    let rest = refund_lines order_id rs in if r.order_id == order_id then r.lines ++ rest else rest

-- The condition of the query of `returnedQuantities`, and its group.
abbrev pub came_back : ℕ → OrderRefundLine → ℕ
came_back item_id line = elim line.order_item_id [
  | none ↦ 0
  | some i ↦ if i == item_id && not (is_cancel line.restock_type) then line.quantity else 0
]

-- `returnedQuantities(…).get(itemId) ?? 0`
unfoldable pub returned_quantity : ℕ → List OrderRefundLine → ℕ
returned_quantity item_id [] = 0
returned_quantity item_id (line ∷ lines) = came_back item_id line + returned_quantity item_id lines

abbrev pub counts_as_returned : OrderRefundLine → Bool
counts_as_returned line = elim line.order_item_id [
  | none ↦ Bool.false
  | some i ↦ not (is_cancel line.restock_type)
]

-- `returnedQuantities(…).size > 0`
unfoldable pub has_returned : ℕ → List OrderRefund → Bool
unfolding refund_lines
has_returned order_id refunds =
    not (length (filter counts_as_returned (refund_lines order_id refunds)) == 0)

abbrev pub line_of : OrderRefundLine → RefundLine
line_of line = record { quantity = line.quantity; restock_type = line.restock_type }

-- The total of the refunds of an order.
unfoldable pub total_refunded_of : ℕ → List OrderRefund → ℤ
total_refunded_of order_id refunds =
    sum_ℤ OrderRefund.total_refunded (filter (λ (r : OrderRefund). r.order_id == order_id) refunds)

abbrev new_financial_status :
    Option OrderFinancialStatus → OrderFinancialStatus → OrderFinancialStatus
new_financial_status none old = old
new_financial_status (some new) old = new

abbrev pub with_statuses : RefundStatuses → Order → Order
with_statuses s row = record row {
  return_status = s.return_status;
  refund_status = s.refund_status;
  restock_status = s.restock_status;
  financial_status = new_financial_status s.financial_status row.financial_status;
}

-- `recomputeOrderRefundStatuses`, with its reads and its write.
unfoldable pub recompute_statuses : ℕ → Tx OrderDb (Unit {0})
unfolding refund_lines total_refunded_of recompute_order_refund_statuses
recompute_statuses order_id = do
  db ← gets (λ db. db)
  o ← or_throw (find_order order_id db.orders) record_not_found
  update_order order_id (
      with_statuses (
        recompute_order_refund_statuses o.total_price (map OrderItem.quantity o.items)
          (map line_of (refund_lines order_id db.refunds))
          (length (filter (λ i. i == order_id) db.open_returns))
          (total_refunded_of order_id db.refunds)))
