-- ===== src/Purchasing/Arrivals.antt =====
-- What the confirmation of a receipt (goods-receipt.service.ts) does to the stock.
use mathlib.Core.Path.{ap₂}
use multi_warehouse_manageme.Prelude.{
  ℕ, ◌≡◌, refl, ap, sym, ◌∙◌, Bool, true, ◌&&◌, ◌==◌, if◌then◌else◌, some, List, [], arith,
  Bool-cases, Option-cases, inl, inr,
}
use multi_warehouse_manageme.Prelude.Int.{ℤ, pos, ◌+ℤ◌, zero_+ℤ}
use multi_warehouse_manageme.Prelude.Sums.{sum_ℤ-add, for_each-sum}
use multi_warehouse_manageme.Prelude.Tx.{ok, for_each, for_each-keeps, >>=-eq-ok}
use multi_warehouse_manageme.Auth.{AuthUser}
use multi_warehouse_manageme.Inventory.Types.{Bucket, same_bucket}
use multi_warehouse_manageme.Inventory.Service.{apply_movements}
use multi_warehouse_manageme.Inventory.Levels.{is_ledger}
use multi_warehouse_manageme.Inventory.Locking.{sort_for_locking, sum_ℤ-sort}
use multi_warehouse_manageme.Inventory.Effect.{counter, postings, apply_movements-postings}
use multi_warehouse_manageme.Inventory.Lines.{
  on_stock, on_stock-inv, share, minus, minus_zero, posting-share, postings_one, postings_two,
  pieces_of, line_share, pos_lines, minus_lines,
}
use multi_warehouse_manageme.Purchasing.Types.{
  GoodsReceipt, GoodsReceiptItem, PurchaseOrder, PurchasingDb, stock_in, find_receipt, find_order,
}
use multi_warehouse_manageme.Purchasing.Orders.{try_complete_if_fully_received}
use multi_warehouse_manageme.Purchasing.Receipts.{
  by_variant, po_id_of, has_order, movements_of, confirm_item, check_remaining, quantities_from,
  settle_receipt, confirm_tx, confirm, po_ids,
}
use multi_warehouse_manageme.Purchasing.Payables.{confirm-runs}

-- The pieces of a line that an order had announced.
abbrev pub announced : GoodsReceipt → GoodsReceiptItem → ℕ
announced rei item = if has_order (po_id_of rei item) then item.quantity else 0

pub zero_share :
    (b : Bool) (location l : ℕ) (x : Bucket) (c : Bucket)
    → (if b then share location x (minus 0) l c else pos 0) ≡ pos 0
zero_share b location l x c = rw minus_zero (elim (Bool-cases b) [
  | inl t ↦
      rw t (elim (Bool-cases (location == l && same_bucket x c)) [ inl s ↦ rw s | inr s ↦ rw s ])
  | inr t ↦ rw t
])

module _ (rei : GoodsReceipt) (user : AuthUser) (v l : ℕ) (c : Bucket)
    (g : is_ledger c ≡ true) where
  abbrev arriving : GoodsReceiptItem → ℤ
  arriving =
      line_share GoodsReceiptItem.variant_id (announced rei) v l c rei.location_id Bucket.incoming
        minus

  abbrev stocked : GoodsReceiptItem → ℤ
  stocked =
      line_share GoodsReceiptItem.variant_id GoodsReceiptItem.quantity v l c rei.location_id
        Bucket.on_hand pos

  movements-postings :
      (item : GoodsReceiptItem)
      → postings v l c (movements_of rei user item) ≡ arriving item +ℤ stocked item
  unfolding movements_of
  movements-postings item = elim (Bool-cases (has_order (po_id_of rei item))) [
    | inl ordered ↦
        rw ordered
          (postings_two v l c _ _ ∙ ap₂ ◌+ℤ◌ (posting-share v l c _) (posting-share v l c _))
    | inr free ↦ rw free (
        postings_one v l c _
        ∙ posting-share v l c _
        ∙ sym (zero_+ℤ _)
        ∙ ap (λ x. x +ℤ stocked item)
            (sym (zero_share (item.variant_id == v) rei.location_id l Bucket.incoming c)))
  ]

  item_adds :
      (item : GoodsReceiptItem) (db db' : PurchasingDb) (u : Unit {0})
      → confirm_item rei user item db ≡ ok (u, db')
      → counter v l c db'.stock ≡ arriving item +ℤ stocked item +ℤ counter v l c db.stock
  unfolding confirm_item
  item_adds item db db' u h =
      let (r, db₁, moved, last) =
        >>=-eq-ok (on_stock stock_in (apply_movements (movements_of rei user item))) _ db h in
      let (t, applied, put) =
        on_stock-inv stock_in (apply_movements (movements_of rei user item)) db db₁ r moved in
      let same : t ≡ db'.stock = ap PurchasingDb.stock put ∙ cc last in
      ap (counter v l c) (sym same)
      ∙ apply_movements-postings (movements_of rei user item) db.stock v l c {r = r} {t = t} g
          applied
      ∙ ap (λ x. x +ℤ counter v l c db.stock) (movements-postings item)

check-stock :
    (orders : List PurchaseOrder) (x : ℕ × ℕ × ℕ) (db db' : PurchasingDb) (u : Unit {0})
    → check_remaining orders x db ≡ ok (u, db')
    → db'.stock ≡ db.stock
unfolding check_remaining
check-stock orders (p, v, q) db db' u h = ground arith

complete-stock :
    (user : AuthUser) (id : ℕ) (db db' : PurchasingDb) (u : Unit {0})
    → try_complete_if_fully_received user id db ≡ ok (u, db')
    → db'.stock ≡ db.stock
unfolding try_complete_if_fully_received
complete-stock user id db db' u h = elim (Option-cases (find_order id db.orders)) [
  | inl e ↦ ground arith
  | inr (po, e) ↦ ground arith
]

settle-stock :
    (now : ℕ) (rei : GoodsReceipt) (user : AuthUser) (db db' : PurchasingDb) (u : Unit {0})
    → settle_receipt now rei user db ≡ ok (u, db')
    → db'.stock ≡ db.stock
unfolding settle_receipt
settle-stock now rei user db db' u h =
    let (w, db₂, completed, last) =
      >>=-eq-ok (for_each (try_complete_if_fully_received user) (po_ids rei)) _ _ h in
    let rest : db'.stock ≡ db₂.stock = ground (arith, last) in
    rest
    ∙ for_each-keeps (λ (d : PurchasingDb). d.stock ≡ db.stock)
        (try_complete_if_fully_received user) (λ x d d' z p e. complete-stock user x d d' z e ∙ p)
        (po_ids rei) _ db₂ w refl completed

-- Confirming a receipt puts its pieces of each variant on hand at its location, takes from what is
-- incoming there those that a purchase order had announced, and changes no other counter.
pub confirm-stock :
    (now id : ℕ) (user : AuthUser) (db db' : PurchasingDb) (u : Unit {0}) (rei : GoodsReceipt)
    (v l : ℕ) (c : Bucket)
    → find_receipt id db.receipts ≡ some rei
    → is_ledger c ≡ true
    → confirm now id user db ≡ ok (u, db')
    → counter v l c db'.stock
      ≡ share rei.location_id Bucket.incoming
          (minus (pieces_of GoodsReceiptItem.variant_id (announced rei) v rei.items))
          l
          c
        +ℤ share rei.location_id Bucket.on_hand
            (pos (pieces_of GoodsReceiptItem.variant_id GoodsReceiptItem.quantity v rei.items))
            l
            c
        +ℤ counter v l c db.stock
unfolding confirm_tx
confirm-stock now id user db db' u rei v l c found g h =
    let (_, ran) = confirm-runs now id user db db' u rei found h in
    let (w₁, db₁, checked, rest) =
      >>=-eq-ok (for_each (check_remaining db.orders) (quantities_from rei [] rei.items)) _ db
        ran in
    let (w₂, db₂, looped, last) =
      >>=-eq-ok (for_each (confirm_item rei user) (sort_for_locking by_variant rei.items)) _ db₁
        rest in
    let same : db₁.stock ≡ db.stock =
      for_each-keeps (λ (d : PurchasingDb). d.stock ≡ db.stock) (check_remaining db.orders)
        (λ x d d' z p e. check-stock db.orders x d d' z e ∙ p) _ db db₁ w₁ refl checked in
    let e = λ (item : GoodsReceiptItem).
      arriving rei user v l c g item +ℤ stocked rei user v l c g item in
    ap (counter v l c) (settle-stock now rei user db₂ db' u last)
    ∙ for_each-sum (λ (d : PurchasingDb). counter v l c d.stock) e (confirm_item rei user)
        (item_adds rei user v l c g) _ db₁ db₂ w₂ looped
    ∙ ap₂ ◌+ℤ◌
        (sum_ℤ-sort by_variant e rei.items
          ∙ sum_ℤ-add (arriving rei user v l c g) (stocked rei user v l c g) rei.items
          ∙ ap₂ ◌+ℤ◌ (minus_lines _ _ v l c rei.location_id Bucket.incoming rei.items)
              (pos_lines _ _ v l c rei.location_id Bucket.on_hand rei.items))
        (ap (counter v l c) same)
