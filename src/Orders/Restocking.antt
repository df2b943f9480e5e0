-- ===== src/Orders/Restocking.antt =====
-- What the statuses of src/modules/orders/order-refund-status.ts say about an order's refund lines.
use multi_warehouse_manageme.Prelude.{
  ℕ, ◌≤◌, ◌<◌, ◌≡◌, refl, ◌⊎◌, ◌↔◌, List, [], ◌∷◌, All, sum_by, arith, none, some,
}
use multi_warehouse_manageme.Prelude.Int.{ℤ}
use multi_warehouse_manageme.Orders.RefundStatus.{
  RestockType, RefundLine, restockable, restocked_lines, restock_status, OrderRestockStatus,
  recompute_order_refund_statuses, derive_return_status, refund_status, financial_status,
  OrderReturnStatus, OrderRefundStatus, OrderFinancialStatus,
}

abbrev restockable_qty : List RefundLine → ℕ
restockable_qty lines = sum_by RefundLine.quantity (restockable lines)

abbrev restocked_qty : List RefundLine → ℕ
restocked_qty lines = sum_by RefundLine.quantity (restocked_lines (restockable lines))

-- Every piece of the line that ever left the warehouse is back in it.
abbrev pub IsBack : RefundLine → Type 0
IsBack l =
    (l.quantity ≡ 0)
    ⊎ ((l.restock_type ≡ RestockType.return_item) ⊎ (l.restock_type ≡ RestockType.cancel))

restocked_le : (lines : List RefundLine) → restocked_qty lines ≤ restockable_qty lines
unfolding restockable restocked_lines
restocked_le [] = omega arith
restocked_le (l ∷ lines) = ground (arith, restocked_le lines)

restocked_qty-All :
    (lines : List RefundLine) → restockable_qty lines ≤ restocked_qty lines → All IsBack lines
unfolding restockable restocked_lines
restocked_qty-All [] h = tt
restocked_qty-All (l ∷ lines) h = (
  ground (arith, restocked_le lines),
  restocked_qty-All lines (ground (arith, restocked_le lines)),
)

All-restocked_qty :
    (lines : List RefundLine) → All IsBack lines → restockable_qty lines ≤ restocked_qty lines
unfolding restockable restocked_lines
All-restocked_qty [] h = omega arith
All-restocked_qty (l ∷ lines) h = ground (arith, All-restocked_qty lines)

-- An order counts as restocked exactly if some line is not a cancellation's and has pieces, and
-- every line with pieces either came back to the stock or never left it.
pub recompute-restocked_iff :
    (total_price : ℤ) (quantities : List ℕ) (lines : List RefundLine) (open_returns : ℕ)
    (total_refunded : ℤ)
    → let statuses =
        recompute_order_refund_statuses total_price quantities lines open_returns total_refunded in
      (statuses.restock_status ≡ OrderRestockStatus.restocked)
      ↔ ((0 < sum_by RefundLine.quantity (restockable lines)) × All IsBack lines)
unfolding recompute_order_refund_statuses restock_status
recompute-restocked_iff total_price quantities lines open_returns total_refunded = (
  λ h. (ground arith, restocked_qty-All lines (ground arith)),
  λ h. let le = All-restocked_qty lines h.1 in ground arith,
)

-- The pieces of a refund's line that came back from the customer: those of a cancellation never left.
abbrev pub sent_back : RestockType → ℕ → ℕ
sent_back RestockType.cancel n = 0
sent_back RestockType.return_item n = n
sent_back RestockType.no_restock n = n

abbrev pub sent_back_pieces : List RefundLine → ℕ
sent_back_pieces = sum_by (λ (l : RefundLine). sent_back l.restock_type l.quantity)

restockable-sent_back : (lines : List RefundLine) → restockable_qty lines ≡ sent_back_pieces lines
unfolding restockable
restockable-sent_back [] = refl
restockable-sent_back (l ∷ lines) = ground (arith, restockable-sent_back lines)

-- An order counts as returned exactly if it has no open return and pieces came back, no fewer than
-- were ordered; as not returned exactly if it has no open return and no piece came back; and as being
-- returned otherwise. The pieces of cancellations do not count as come back, on whichever lines they
-- stand, and those that are not put back into the stock do.
pub recompute-return_status :
    (total_price : ℤ) (quantities : List ℕ) (lines : List RefundLine) (open_returns : ℕ)
    (total_refunded : ℤ)
    → let statuses =
        recompute_order_refund_statuses total_price quantities lines open_returns total_refunded in
      let back = sent_back_pieces lines in
      ((statuses.return_status ≡ OrderReturnStatus.returned)
        ↔ ((open_returns ≡ 0) × (0 < back) × (sum_by (λ q. q) quantities ≤ back)))
      × ((statuses.return_status ≡ OrderReturnStatus.no_return) ↔ ((open_returns ≡ 0) × (back ≡ 0)))
      × ((statuses.return_status ≡ OrderReturnStatus.in_progress)
          ↔ ((0 < open_returns) ⊎ ((0 < back) × (back < sum_by (λ q. q) quantities))))
unfolding recompute_order_refund_statuses derive_return_status
recompute-return_status total_price quantities lines open_returns total_refunded =
    rw (restockable-sent_back lines) (
      (λ h. ground arith, λ h. ground arith),
      (λ h. ground arith, λ h. ground arith),
      (λ h. ground arith, λ h. ground arith),
    )

-- `refund_status` and `financial_status` never disagree: the one is `no_refund` exactly if the
-- other is left as it is, and `refunded` exactly if the other is.
pub recompute-agree :
    (total_price : ℤ) (quantities : List ℕ) (lines : List RefundLine) (open_returns : ℕ)
    (total_refunded : ℤ)
    → let statuses =
        recompute_order_refund_statuses total_price quantities lines open_returns total_refunded in
      ((statuses.refund_status ≡ OrderRefundStatus.no_refund) ↔ (statuses.financial_status ≡ none))
      × ((statuses.refund_status ≡ OrderRefundStatus.refunded)
          ↔ (statuses.financial_status ≡ some OrderFinancialStatus.refunded))
unfolding recompute_order_refund_statuses refund_status financial_status
recompute-agree total_price quantities lines open_returns total_refunded =
    ((λ h. ground arith, λ h. ground arith), (λ h. ground arith, λ h. ground arith))
