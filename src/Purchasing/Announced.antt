-- ===== src/Purchasing/Announced.antt =====
-- What `transition` of purchase-order.service.ts does to the stock: an order announces what comes in,
-- and takes back what will not come.
use multi_warehouse_manageme.Prelude.{
  ℕ, ◌-◌, ◌≤◌, ◌≡◌, ap, sym, ◌∙◌, true, false, ◌&&◌, ◌==◌, if◌then◌else◌, some, arith, Bool-cases,
  inl, inr,
}
use multi_warehouse_manageme.Prelude.Int.{ℤ, pos, neg, ◌+ℤ◌, zero_+ℤ, leb_ℤ, -ℤ_parts, int_laws}
use multi_warehouse_manageme.Prelude.Sums.{for_each-sum}
use multi_warehouse_manageme.Prelude.Tx.{ok, ◌>>◌, return, for_each, >>=-eq-ok}
use multi_warehouse_manageme.Auth.{AuthUser, assert_location_permission}
use multi_warehouse_manageme.Inventory.Types.{Bucket, MovementType, same_bucket, ApplyMovementInput}
use multi_warehouse_manageme.Inventory.Service.{apply_movement}
use multi_warehouse_manageme.Inventory.Levels.{is_ledger}
use multi_warehouse_manageme.Inventory.Locking.{sort_for_locking, sum_ℤ-sort}
use multi_warehouse_manageme.Inventory.Effect.{counter, apply_movements-postings}
use multi_warehouse_manageme.Inventory.Lines.{
  on_stock, on_stock-inv, share, minus, posting-share, postings_one, pieces_of, line_share,
  pos_lines, minus_lines,
}
use multi_warehouse_manageme.Purchasing.Types.{
  PurchaseOrder, PurchaseOrderItem, PurchasingDb, stock_in, find_order, create_payment,
}
use multi_warehouse_manageme.Purchasing.Orders.{
  po_movement, announce_item, cancel_remaining, remaining_of, submit, submit_tx, close, close_tx,
  PoAction, submit_action, close_action, cancel_action, run_action, transition,
}
use multi_warehouse_manageme.Purchasing.Orders
use multi_warehouse_manageme.Purchasing.Arrivals.{zero_share}

-- The pieces of a line that are still to come.
abbrev pub to_come : PurchaseOrderItem → ℕ
to_come item = item.quantity - item.received_quantity

none_left : (item : PurchaseOrderItem) → leb_ℤ (remaining_of item) (pos 0) ≡ true → to_come item ≡ 0
none_left item h =
    let parts = -ℤ_parts (pos item.quantity) (pos item.received_quantity) in ground (arith, parts)

some_left_lem :
    (item : PurchaseOrderItem)
    → leb_ℤ (remaining_of item) (pos 0) ≡ false
    → neg (remaining_of item) ≡ minus (to_come item)
some_left_lem item h =
    let some_more : item.received_quantity ≤ item.quantity =
      ground (arith, -ℤ_parts (pos item.quantity) (pos item.received_quantity)) in
    omega int_laws

-- What an action posts to the incoming stock, for a variant of the order.
abbrev pub announced_by : PoAction → ℕ → PurchaseOrder → ℤ
announced_by submit_action v po =
    pos (pieces_of PurchaseOrderItem.variant_id PurchaseOrderItem.quantity v po.items)
announced_by close_action v po = minus (pieces_of PurchaseOrderItem.variant_id to_come v po.items)
announced_by cancel_action v po = pos 0

no_share : (location l : ℕ) (c : Bucket) → share location Bucket.incoming (pos 0) l c ≡ pos 0
no_share location l c = elim (Bool-cases (location == l && same_bucket Bucket.incoming c)) [
  | inl here ↦ rw here
  | inr there ↦ rw there
]

module _ (v l : ℕ) (c : Bucket) (g : is_ledger c ≡ true) where
  -- A loop body that posts one movement.
  pub posts_one :
      (m : ApplyMovementInput) (db db' : PurchasingDb) (u : Unit {0})
      → (on_stock stock_in (apply_movement m) >> return tt) db ≡ ok (u, db')
      → counter v l c db'.stock
        ≡ (if m.variant_id == v then share m.location_id m.bucket m.change l c else pos 0)
          +ℤ counter v l c db.stock
  unfolding apply_movement
  posts_one m db db' u h =
      let (r, db₁, moved, last) =
        >>=-eq-ok (on_stock stock_in (apply_movement m)) (λ _. return tt) db h in
      let (t, applied, put) = on_stock-inv stock_in (apply_movement m) db db₁ r moved in
      let same : t ≡ db'.stock = ap PurchasingDb.stock put ∙ cc last in
      ap (counter v l c) (sym same)
      ∙ apply_movements-postings _ db.stock v l c {r = r} {t = t} g applied
      ∙ ap (λ x. x +ℤ counter v l c db.stock) (postings_one v l c m ∙ posting-share v l c m)

  module _ (po : PurchaseOrder) (user : AuthUser) where
    abbrev coming : PurchaseOrderItem → ℤ
    coming =
        line_share PurchaseOrderItem.variant_id PurchaseOrderItem.quantity v l c po.location_id
          Bucket.incoming pos

    abbrev withdrawn : PurchaseOrderItem → ℤ
    withdrawn =
        line_share PurchaseOrderItem.variant_id to_come v l c po.location_id Bucket.incoming minus

    abbrev withdraws : PurchaseOrderItem → ℕ → ℤ
    withdraws item n =
        if item.variant_id == v then share po.location_id Bucket.incoming (minus n) l c else pos 0

    announce_adds :
        (item : PurchaseOrderItem) (db db' : PurchasingDb) (u : Unit {0})
        → announce_item po user item db ≡ ok (u, db')
        → counter v l c db'.stock ≡ coming item +ℤ counter v l c db.stock
    unfolding announce_item
    announce_adds item db db' u h = posts_one _ db db' u h

    cancel_adds :
        (item : PurchaseOrderItem) (db db' : PurchasingDb) (u : Unit {0})
        → cancel_remaining po user item db ≡ ok (u, db')
        → counter v l c db'.stock ≡ withdrawn item +ℤ counter v l c db.stock
    unfolding cancel_remaining
    cancel_adds item db db' u h = elim (Bool-cases (leb_ℤ (remaining_of item) (pos 0))) [
      | inl nothing ↦
          let same : db'.stock ≡ db.stock = ground arith in
          ap (counter v l c) same
          ∙ sym (zero_+ℤ _)
          ∙ ap (λ x. x +ℤ counter v l c db.stock)
              (sym (
                ap (withdraws item) (none_left item nothing)
                ∙ zero_share (item.variant_id == v) po.location_id l Bucket.incoming c))
      | inr some_left ↦
          posts_one
            (po_movement po user item (neg (remaining_of item)) MovementType.incoming_cancel) db db'
            u (ground arith)
          ∙ ap (λ x. x +ℤ counter v l c db.stock)
              (ap
                (λ y.
                  if item.variant_id == v
                  then share po.location_id Bucket.incoming y l c
                  else pos 0)
                (some_left_lem item some_left))
    ]

    submit_tx-stock :
        (db db' : PurchasingDb) (u : Unit {0})
        → submit_tx po user db ≡ ok (u, db')
        → counter v l c db'.stock
          ≡ share po.location_id Bucket.incoming (announced_by submit_action v po) l c
            +ℤ counter v l c db.stock
    unfolding submit_tx create_payment
    submit_tx-stock db db' u h =
        let (w, db₁, looped, last) =
          >>=-eq-ok (for_each (announce_item po user) (sort_for_locking Orders.by_variant po.items))
            _ db h in
        let rest : db'.stock ≡ db₁.stock = ground (arith, last) in
        ap (counter v l c) rest
        ∙ for_each-sum (λ (d : PurchasingDb). counter v l c d.stock) coming (announce_item po user)
            announce_adds _ db db₁ w looped
        ∙ ap (λ x. x +ℤ counter v l c db.stock)
            (sum_ℤ-sort Orders.by_variant coming po.items
              ∙ pos_lines _ _ v l c po.location_id Bucket.incoming po.items)

    close_tx-stock :
        (db db' : PurchasingDb) (u : Unit {0})
        → close_tx po user db ≡ ok (u, db')
        → counter v l c db'.stock
          ≡ share po.location_id Bucket.incoming (announced_by close_action v po) l c
            +ℤ counter v l c db.stock
    unfolding close_tx
    close_tx-stock db db' u h =
        let (w, db₁, looped, last) =
          >>=-eq-ok
            (for_each (cancel_remaining po user) (sort_for_locking Orders.by_variant po.items)) _ db
            h in
        let rest : db'.stock ≡ db₁.stock = ground (arith, last) in
        ap (counter v l c) rest
        ∙ for_each-sum (λ (d : PurchasingDb). counter v l c d.stock) withdrawn
            (cancel_remaining po user) cancel_adds _ db db₁ w looped
        ∙ ap (λ x. x +ℤ counter v l c db.stock)
            (sum_ℤ-sort Orders.by_variant withdrawn po.items
              ∙ minus_lines _ _ v l c po.location_id Bucket.incoming po.items)

    run-stock :
        (action : PoAction) (db db' : PurchasingDb) (u : Unit {0})
        → run_action action po user db ≡ ok (u, db')
        → counter v l c db'.stock
          ≡ share po.location_id Bucket.incoming (announced_by action v po) l c
            +ℤ counter v l c db.stock
    unfolding submit close Orders.cancel
    run-stock submit_action db db' u h = submit_tx-stock db db' u (ground arith)
    run-stock close_action db db' u h = close_tx-stock db db' u (ground arith)
    run-stock cancel_action db db' u h =
        let same : db'.stock ≡ db.stock = ground arith in
        ap (counter v l c) same
        ∙ sym (zero_+ℤ _)
        ∙ ap (λ x. x +ℤ counter v l c db.stock) (sym (no_share po.location_id l c))

-- A transition of a purchase order that succeeds changes no counter of the ledger but what is incoming
-- at the order's location: submitting announces there the pieces of each variant, closing takes back
-- those of them that have not been received (none for a line with more received than ordered), and
-- cancelling a draft does nothing.
pub order_transition-stock :
    (id : ℕ) (action : PoAction) (user : AuthUser) (db db' : PurchasingDb) (u : Unit {0})
    (po : PurchaseOrder) (v l : ℕ) (c : Bucket)
    → find_order id db.orders ≡ some po
    → is_ledger c ≡ true
    → transition id action user db ≡ ok (u, db')
    → counter v l c db'.stock
      ≡ share po.location_id Bucket.incoming (announced_by action v po) l c
        +ℤ counter v l c db.stock
unfolding transition assert_location_permission
order_transition-stock id action user db db' u po v l c found g h =
    run-stock v l c g po user action db db' u (ground (arith, found))
