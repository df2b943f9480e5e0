-- ===== src/Orders/Outstanding.antt =====
-- What of an order's items has come back (order-refund-status.ts, `returnedQuantities`), counted on the
-- refunds themselves, against the items that `cancel` of order.service.ts goes through.
use multi_warehouse_manageme.Prelude.{
  ℕ, ◌+◌, ◌-◌, ◌≡◌, refl, ap, ◌∙◌, ◌==◌, if◌then◌else◌, none, some, List, [], ◌∷◌, ◌++◌, arith,
  Bool-cases, inl, inr, sum_by,
}
use multi_warehouse_manageme.Inventory.Lines.{pieces_of}
use multi_warehouse_manageme.Orders.RefundStatus.{RestockType}
use multi_warehouse_manageme.Orders.Types.{OrderItem, OrderRefund, OrderRefundLine}
use multi_warehouse_manageme.Orders.Refunds.{refund_lines, returned_quantity, came_back}
use multi_warehouse_manageme.Orders.Posting.{pieces}
use multi_warehouse_manageme.Orders.Service.{remaining_items}

-- A cancellation brings nothing back.
abbrev pub brought_back : RestockType → ℕ → ℕ
brought_back RestockType.cancel n = 0
brought_back RestockType.return_item n = n
brought_back RestockType.no_restock n = n

abbrev pub back_by : ℕ → OrderRefundLine → ℕ
back_by item line = elim line.order_item_id [
  | none ↦ 0
  | some i ↦ if i == item then brought_back line.restock_type line.quantity else 0
]

-- The pieces of an item that came back, over all refunds of its order.
abbrev pub back : ℕ → ℕ → List OrderRefund → ℕ
back order item =
    sum_by (λ (r : OrderRefund). if r.order_id == order then sum_by (back_by item) r.lines else 0)

-- The pieces of an item that have not come back.
abbrev pub outstanding : ℕ → List OrderRefund → OrderItem → ℕ
outstanding order refunds i = i.quantity - back order i.id refunds

one_line : (item : ℕ) (line : OrderRefundLine) → came_back item line ≡ back_by item line
one_line item line = ground arith

returned-append :
    (item : ℕ) (xs ys : List OrderRefundLine)
    → returned_quantity item (xs ++ ys) ≡ sum_by (back_by item) xs + returned_quantity item ys
unfolding returned_quantity
returned-append item [] ys = omega arith
returned-append item (x ∷ xs) ys = omega (arith, one_line item x, returned-append item xs ys)

returned-back :
    (order item : ℕ) (refunds : List OrderRefund)
    → returned_quantity item (refund_lines order refunds) ≡ back order item refunds
unfolding refund_lines returned_quantity
returned-back order item [] = refl
returned-back order item (r ∷ rs) = elim (Bool-cases (r.order_id == order)) [
  | inl same ↦ rw same (
      returned-append item r.lines (refund_lines order rs)
      ∙ ap (λ n. sum_by (back_by item) r.lines + n) (returned-back order item rs))
  | inr other ↦ let rest = returned-back order item rs in rw other (omega (arith, rest))
]

-- `cancel` goes through what has not come back, and drops the items with nothing left.
pub remaining-pieces :
    (order v : ℕ) (refunds : List OrderRefund) (items : List OrderItem)
    → pieces v (remaining_items (refund_lines order refunds) items)
      ≡ pieces_of OrderItem.variant_id (outstanding order refunds) v items
unfolding remaining_items
remaining-pieces order v refunds [] = refl
remaining-pieces order v refunds (i ∷ items) =
    let same = returned-back order i.id refunds in
    let rest = remaining-pieces order v refunds items in rw same (ground (arith, rest))
