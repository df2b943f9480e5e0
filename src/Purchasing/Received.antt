-- ===== src/Purchasing/Received.antt =====
-- What `confirm` (goods-receipt.service.ts) writes to the lines of the purchase orders.
use mathlib.Core.Path.{subst}
use multi_warehouse_manageme.Prelude.{
  ℕ, ◌+◌, ◌≡◌, refl, ap, sym, ◌∙◌, ◌&&◌, ◌==◌, if◌then◌else◌, none, some, List, [], ◌∷◌, arith,
  Bool-cases, Option-cases, inl, inr, sum_by, eq_of_==,
}
use multi_warehouse_manageme.Prelude.Tx.{ok, for_each, for_each-keeps, >>=-eq-ok}
use multi_warehouse_manageme.Prelude.Table.{
  find_row, update_row, find_row-update, find_row-update_other,
}
use multi_warehouse_manageme.Auth.{AuthUser}
use multi_warehouse_manageme.Inventory.Service.{apply_movements}
use multi_warehouse_manageme.Inventory.Lines.{on_stock, on_stock-inv}
use multi_warehouse_manageme.Purchasing.Types.{
  PoStatus, PurchaseOrder, PurchaseOrderItem, GoodsReceipt, GoodsReceiptItem, PurchasingDb,
  find_order, stock_in,
}
use multi_warehouse_manageme.Purchasing.Orders.{
  try_complete_if_fully_received, is_status, is_fully_received,
}
use multi_warehouse_manageme.Purchasing.Receipts.{
  po_id_of, po_item, find_item, find_items_of, add_received, note_received, confirm_item,
  settle_receipt, movements_of, po_ids, is_some_of,
}

-- The pieces of a receipt's line that belong to the order `p`, for the variant `v`.
abbrev pub pieces_for : GoodsReceipt → ℕ → ℕ → GoodsReceiptItem → ℕ
pieces_for rei p v item =
    if is_some_of p (po_id_of rei item) && item.variant_id == v then item.quantity else 0

add_nothing : (item : PurchaseOrderItem) → item ≡ add_received 0 item
add_nothing item =
    let same : item.received_quantity ≡ item.received_quantity + 0 = omega arith in
    ap (λ n. record item { received_quantity = n }) same

add_more :
    (m n : ℕ) (item : PurchaseOrderItem)
    → add_received n (add_received m item) ≡ add_received (m + n) item
add_more m n item =
    let same : item.received_quantity + m + n ≡ item.received_quantity + (m + n) = omega arith in
    ap (λ k. record item { received_quantity = k }) same

-- An update of one line of an order, seen from a line.
item_updated :
    (v v' q : ℕ) (items : List PurchaseOrderItem) (item : PurchaseOrderItem)
    → find_item v items ≡ some item
    → find_item v (update_row PurchaseOrderItem.variant_id v' (add_received q) items)
      ≡ some (add_received (if v' == v then q else 0) item)
item_updated v v' q items item e = elim (Bool-cases (v' == v)) [
  | inl same ↦ rw same (
      subst
        (λ w.
          find_item v (update_row PurchaseOrderItem.variant_id w (add_received q) items)
          ≡ some (add_received q item))
        (sym (eq_of_== v' v same))
        (find_row-update PurchaseOrderItem.variant_id v (add_received q) items item (λ x. refl) e))
  | inr other ↦ rw other (
      find_row-update_other PurchaseOrderItem.variant_id v v' (add_received q) items (λ x. refl)
        other
      ∙ e
      ∙ ap some (add_nothing item))
]

-- The same among all orders.
line_updated :
    (p v p' v' q : ℕ) (orders : List PurchaseOrder) (item : PurchaseOrderItem)
    → po_item p v orders ≡ some item
    → po_item p v (note_received (some p') v' q orders)
      ≡ some (add_received (if p' == p && v' == v then q else 0) item)
unfolding po_item note_received
line_updated p v p' v' q orders item e = elim (Option-cases (find_order p orders)) [
  | inl gone ↦ absurd (cc (rw gone at e))
  | inr (po, found) ↦
      let f = λ (row : PurchaseOrder). record row {
        items = update_row PurchaseOrderItem.variant_id v' (add_received q) row.items;
      } in
      elim (Bool-cases (p' == p)) [
        | inl same ↦
            let updated : find_order p (update_row PurchaseOrder.id p' f orders) ≡ some (f po) =
              subst (λ i. find_order p (update_row PurchaseOrder.id i f orders) ≡ some (f po))
                (sym (eq_of_== p' p same))
                (find_row-update PurchaseOrder.id p f orders po (λ x. refl) found) in
            rw same (
              ap (λ o. find_items_of o v) updated
              ∙ item_updated v v' q po.items item (rw found at e))
        | inr other ↦ rw other (
            ap (λ o. find_items_of o v)
              (find_row-update_other PurchaseOrder.id p p' f orders (λ x. refl) other)
            ∙ e
            ∙ ap some (add_nothing item))
      ]
]

note_none : (v q : ℕ) (orders : List PurchaseOrder) → note_received none v q orders ≡ orders
unfolding note_received
note_none v q orders = refl

-- A round of the loop adds the pieces that it receives for the line.
round_adds :
    (rei : GoodsReceipt) (user : AuthUser) (p v : ℕ) (line : GoodsReceiptItem)
    (item : PurchaseOrderItem) (db db' : PurchasingDb) (u : Unit {0})
    → po_item p v db.orders ≡ some item
    → confirm_item rei user line db ≡ ok (u, db')
    → po_item p v db'.orders ≡ some (add_received (pieces_for rei p v line) item)
unfolding confirm_item
round_adds rei user p v line item db db' u e h =
    let (r, db₁, moved, last) =
      >>=-eq-ok (on_stock stock_in (apply_movements (movements_of rei user line))) _ db h in
    let (t, applied, put) =
      on_stock-inv stock_in (apply_movements (movements_of rei user line)) db db₁ r moved in
    let noted : db'.orders
        ≡ note_received (po_id_of rei line) line.variant_id line.quantity db₁.orders =
      cc last in
    let kept : db₁.orders ≡ db.orders = sym (ap PurchasingDb.orders put) in
    ap (po_item p v) noted
    ∙ ap (λ o. po_item p v (note_received (po_id_of rei line) line.variant_id line.quantity o)) kept
    ∙ elim (Option-cases (po_id_of rei line)) [
      | inl free ↦ rw free (
          ap (po_item p v) (note_none line.variant_id line.quantity db.orders)
          ∙ e
          ∙ ap some (add_nothing item))
      | inr (p', ordered) ↦
          rw ordered (line_updated p v p' line.variant_id line.quantity db.orders item e)
    ]

pub rounds_add :
    (rei : GoodsReceipt) (user : AuthUser) (p v : ℕ) (lines : List GoodsReceiptItem)
    (item : PurchaseOrderItem) (db db' : PurchasingDb) (u : Unit {0})
    → po_item p v db.orders ≡ some item
    → for_each (confirm_item rei user) lines db ≡ ok (u, db')
    → po_item p v db'.orders ≡ some (add_received (sum_by (pieces_for rei p v) lines) item)
unfolding for_each
rounds_add rei user p v [] item db db' u e h =
    let same : db' ≡ db = cc in
    ap (λ (d : PurchasingDb). po_item p v d.orders) same ∙ e ∙ ap some (add_nothing item)
rounds_add rei user p v (line ∷ lines) item db db' u e h =
    let (w, db₁, first, rest) =
      >>=-eq-ok (confirm_item rei user line) (λ _. for_each (confirm_item rei user) lines) db h in
    rounds_add rei user p v lines (add_received (pieces_for rei p v line) item) db₁ db' u
      (round_adds rei user p v line item db db₁ w e first) rest
    ∙ ap some (add_more (pieces_for rei p v line) (sum_by (pieces_for rei p v) lines) item)

-- An update of orders that leaves their lines alone.
lines_kept :
    (p v id : ℕ) (f : PurchaseOrder → PurchaseOrder) (orders : List PurchaseOrder)
    → ((x : PurchaseOrder) → (f x).id ≡ x.id)
    → ((x : PurchaseOrder) → (f x).items ≡ x.items)
    → po_item p v (update_row PurchaseOrder.id id f orders) ≡ po_item p v orders
unfolding po_item find_row update_row
lines_kept p v id f [] k i = refl
lines_kept p v id f (x ∷ xs) k i = ground (arith, k x, i x, lines_kept p v id f xs k i)

complete-lines :
    (p v : ℕ) (user : AuthUser) (id : ℕ) (db db' : PurchasingDb) (u : Unit {0})
    → try_complete_if_fully_received user id db ≡ ok (u, db')
    → po_item p v db'.orders ≡ po_item p v db.orders
unfolding try_complete_if_fully_received
complete-lines p v user id db db' u h = elim (Option-cases (find_order id db.orders)) [
  | inl e ↦ let same : db'.orders ≡ db.orders = ground arith in ap (po_item p v) same
  | inr (po, e) ↦ elim (Bool-cases (is_status po.status PoStatus.pending && is_fully_received po)) [
    | inl full ↦
        let f = λ (row : PurchaseOrder). record row { status = PoStatus.received } in
        let updated : db'.orders ≡ update_row PurchaseOrder.id po.id f db.orders = ground arith in
        ap (po_item p v) updated ∙ lines_kept p v po.id f db.orders (λ x. refl) (λ x. refl)
    | inr not_full ↦ let same : db'.orders ≡ db.orders = ground arith in ap (po_item p v) same
  ]
]

-- The end of the transaction leaves them as they are.
pub settle-lines :
    (p v : ℕ) (now : ℕ) (rei : GoodsReceipt) (user : AuthUser) (db db' : PurchasingDb)
    (u : Unit {0})
    → settle_receipt now rei user db ≡ ok (u, db')
    → po_item p v db'.orders ≡ po_item p v db.orders
unfolding settle_receipt
settle-lines p v now rei user db db' u h =
    let (w, db₂, completed, last) =
      >>=-eq-ok (for_each (try_complete_if_fully_received user) (po_ids rei)) _ _ h in
    let rest : db'.orders ≡ db₂.orders = ground (arith, last) in
    ap (po_item p v) rest
    ∙ for_each-keeps (λ (d : PurchasingDb). po_item p v d.orders ≡ po_item p v db.orders)
        (try_complete_if_fully_received user)
        (λ x d d' z q e. complete-lines p v user x d d' z e ∙ q) (po_ids rei) _ db₂ w refl completed
