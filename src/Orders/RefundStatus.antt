-- ===== src/Orders/RefundStatus.antt =====
-- src/modules/orders/order-refund-status.ts: the statuses of an order that follow from its refunds.
-- Quantities are counts of pieces, and amounts are integers of hundredths.
use multi_warehouse_manageme.Prelude.{
  ℕ, Bool, true, false, not, ◌&&◌, ◌||◌, ◌==◌, ltb, leb, if◌then◌else◌, Option, none, some, List,
  filter, sum_by,
}
use multi_warehouse_manageme.Prelude.Int.{ℤ, pos, leb_ℤ}

pub data RestockType : Type 0 where
  cancel return_item no_restock : RestockType

pub data OrderReturnStatus : Type 0 where
  no_return in_progress returned : OrderReturnStatus

pub data OrderRefundStatus : Type 0 where
  no_refund refunded partial : OrderRefundStatus

pub data OrderRestockStatus : Type 0 where
  no_restock restocked partial : OrderRestockStatus

pub data OrderFinancialStatus : Type 0 where
  pending partially_paid paid refunded partially_refunded : OrderFinancialStatus

-- A row of `order_refund_line_items`, as it is selected here.
pub record RefundLine : Type 0 where
  pub quantity : ℕ
  pub restock_type : RestockType

abbrev pub is_cancel : RestockType → Bool
is_cancel RestockType.cancel = true
is_cancel _ = false

abbrev pub is_return_item : RestockType → Bool
is_return_item RestockType.return_item = true
is_return_item _ = false

-- `deriveReturnStatus`
unfoldable pub derive_return_status : ℕ → ℕ → Bool → OrderReturnStatus
derive_return_status returned_qty total_ordered_qty has_open_return =
    if ltb 0 returned_qty && (leb total_ordered_qty returned_qty && not has_open_return)
    then OrderReturnStatus.returned
    else if ltb 0 returned_qty || has_open_return
    then OrderReturnStatus.in_progress
    else OrderReturnStatus.no_return

-- `lines.filter((l) => l.restockType !== RestockType.cancel)`
unfoldable pub restockable : List RefundLine → List RefundLine
restockable lines = filter (λ l. not (is_cancel l.restock_type)) lines

unfoldable pub restocked_lines : List RefundLine → List RefundLine
restocked_lines lines = filter (λ l. is_return_item l.restock_type) lines

unfoldable pub refund_status : ℤ → ℤ → OrderRefundStatus
refund_status total_refunded total_price =
    if leb_ℤ total_refunded (pos 0)
    then OrderRefundStatus.no_refund
    else if leb_ℤ total_price total_refunded
    then OrderRefundStatus.refunded
    else OrderRefundStatus.partial

unfoldable pub restock_status : List RefundLine → OrderRestockStatus
restock_status lines =
    let restocked_qty = sum_by RefundLine.quantity (restocked_lines (restockable lines)) in
    let restockable_qty = sum_by RefundLine.quantity (restockable lines) in
    if restockable_qty == 0 || restocked_qty == 0
    then OrderRestockStatus.no_restock
    else if leb restockable_qty restocked_qty
    then OrderRestockStatus.restocked
    else OrderRestockStatus.partial

-- `none` leaves the status as it is.
unfoldable pub financial_status : ℤ → ℤ → Option OrderFinancialStatus
financial_status total_refunded total_price =
    if leb_ℤ total_refunded (pos 0)
    then none
    else if leb_ℤ total_price total_refunded
    then some OrderFinancialStatus.refunded
    else some OrderFinancialStatus.partially_refunded

-- What the order row is updated with.
pub record RefundStatuses : Type 0 where
  pub return_status : OrderReturnStatus
  pub refund_status : OrderRefundStatus
  pub restock_status : OrderRestockStatus
  pub financial_status : Option OrderFinancialStatus

-- `recomputeOrderRefundStatuses`, on what it reads: the price and the quantities of the order, its
-- refund lines, the number of its open returns and the sum of its refunds.
unfoldable pub recompute_order_refund_statuses :
    ℤ → List ℕ → List RefundLine → ℕ → ℤ → RefundStatuses
unfolding derive_return_status restockable refund_status restock_status financial_status
recompute_order_refund_statuses total_price quantities lines open_returns total_refunded = record {
  return_status =
      derive_return_status (sum_by RefundLine.quantity (restockable lines))
        (sum_by (λ q. q) quantities) (ltb 0 open_returns);
  refund_status = refund_status total_refunded total_price;
  restock_status = restock_status lines;
  financial_status = financial_status total_refunded total_price;
}
