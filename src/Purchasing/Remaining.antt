-- ===== src/Purchasing/Remaining.antt =====
-- The guard of `confirm` (goods-receipt.service.ts) on what an order still expects.
use mathlib.Core.Path.{subst, subst₂}
use multi_warehouse_manageme.Prelude.{
  ℕ, ◌+◌, ◌≤◌, ◌≡◌, refl, ap, ◌∙◌, ◌&&◌, ◌==◌, if◌then◌else◌, some, List, [], ◌∷◌, arith,
  Bool-cases, Option-cases, inl, inr, sum_by,
}
use multi_warehouse_manageme.Prelude.Int.{int_laws}
use multi_warehouse_manageme.Prelude.Tx.{ok, for_each, for_each-keeps, >>=-eq-ok}
use multi_warehouse_manageme.Auth.{AuthUser}
use multi_warehouse_manageme.Inventory.Locking.{sort_for_locking, sum_by-sort}
use multi_warehouse_manageme.Purchasing.Types.{
  PurchaseOrder, PurchaseOrderItem, GoodsReceipt, GoodsReceiptItem, PurchasingDb, find_receipt,
}
use multi_warehouse_manageme.Purchasing.Receipts.{
  by_variant, po_id_of, po_item, add_quantity, quantities_from, check_remaining, confirm_item,
  confirm_tx, confirm, add_received,
}
use multi_warehouse_manageme.Purchasing.Received.{pieces_for, rounds_add, settle-lines}
use multi_warehouse_manageme.Purchasing.Payables.{confirm-runs}

-- The quantity under a key of the map.
lookup : ℕ → ℕ → List (ℕ × ℕ × ℕ) → ℕ
lookup p v [] = 0
lookup p v ((p', v', n) ∷ rest) = if p' == p && v' == v then n else lookup p v rest

lookup-add :
    (p v p' v' q : ℕ) (acc : List (ℕ × ℕ × ℕ))
    → lookup p v (add_quantity p' v' q acc) ≡ lookup p v acc + (if p' == p && v' == v then q else 0)
unfolding lookup add_quantity
lookup-add p v p' v' q [] = ground arith
lookup-add p v p' v' q ((p'', v'', n) ∷ rest) = ground (arith, lookup-add p v p' v' q rest)

lookup-quantities :
    (rei : GoodsReceipt) (p v : ℕ) (acc : List (ℕ × ℕ × ℕ)) (items : List GoodsReceiptItem)
    → lookup p v (quantities_from rei acc items)
      ≡ lookup p v acc + sum_by (pieces_for rei p v) items
unfolding quantities_from
lookup-quantities rei p v acc [] = omega arith
lookup-quantities rei p v acc (item ∷ items) = elim (Option-cases (po_id_of rei item)) [
  | inl e ↦ rw e (lookup-quantities rei p v acc items ∙ omega arith)
  | inr (p', e) ↦ rw e (
      lookup-quantities rei p v (add_quantity p' item.variant_id item.quantity acc) items
      ∙ ap (λ n. n + sum_by (pieces_for rei p v) items)
          (lookup-add p v p' item.variant_id item.quantity acc)
      ∙ omega arith)
]

check-one :
    (p v n : ℕ) (item : PurchaseOrderItem) (orders : List PurchaseOrder) (db db' : PurchasingDb)
    (u : Unit {0})
    → po_item p v orders ≡ some item
    → item.received_quantity ≤ item.quantity
    → check_remaining orders (p, v, n) db ≡ ok (u, db')
    → item.received_quantity + n ≤ item.quantity
unfolding check_remaining
check-one p v n item orders db db' u found le h = grind (int_laws, found)

-- What passes the check leaves the line within its quantity.
checked-bound :
    (p v : ℕ) (item : PurchaseOrderItem) (orders : List PurchaseOrder) (qs : List (ℕ × ℕ × ℕ))
    (db db' : PurchasingDb) (u : Unit {0})
    → po_item p v orders ≡ some item
    → item.received_quantity ≤ item.quantity
    → for_each (check_remaining orders) qs db ≡ ok (u, db')
    → item.received_quantity + lookup p v qs ≤ item.quantity
unfolding lookup for_each
checked-bound p v item orders [] db db' u found le h = omega arith
checked-bound p v item orders ((p', v', n) ∷ qs) db db' u found le h =
    let (w, db₁, first, rest) =
      >>=-eq-ok (check_remaining orders (p', v', n)) (λ _. for_each (check_remaining orders) qs) db
        h in
    elim (Bool-cases (p' == p && v' == v)) [
      | inl here ↦
          let (ep, ev) : (p' ≡ p) × (v' ≡ v) = (ground arith, ground arith) in
          rw here (
            check-one p v n item orders db db₁ w found le
              (subst₂ (λ x y. check_remaining orders (x, y, n) db ≡ ok (w, db₁)) ep ev first))
      | inr there ↦ rw there (checked-bound p v item orders qs db₁ db' u found le rest)
    ]

check-orders :
    (orders : List PurchaseOrder) (x : ℕ × ℕ × ℕ) (db db' : PurchasingDb) (u : Unit {0})
    → check_remaining orders x db ≡ ok (u, db')
    → db'.orders ≡ db.orders
unfolding check_remaining
check-orders orders (p, v, q) db db' u h = ground arith

-- A receipt that is confirmed, with no other change between its check and its writes, adds to a line
-- of a purchase order the pieces of all the receipt's lines with that order and variant, once, and
-- changes nothing else of the line; what has been received is then at most what is ordered, if it was
-- before.
pub confirm-within_order :
    (now id : ℕ) (user : AuthUser) (db db' : PurchasingDb) (u : Unit {0}) (rei : GoodsReceipt)
    (p v : ℕ) (item : PurchaseOrderItem)
    → find_receipt id db.receipts ≡ some rei
    → po_item p v db.orders ≡ some item
    → item.received_quantity ≤ item.quantity
    → confirm now id user db ≡ ok (u, db')
    → let received = item.received_quantity + sum_by (pieces_for rei p v) rei.items in
      (po_item p v db'.orders ≡ some (record item { received_quantity = received }))
      × (received ≤ item.quantity)
unfolding confirm_tx lookup
confirm-within_order now id user db db' u rei p v item e found le h =
    let (pending, ran) = confirm-runs now id user db db' u rei e h in
    let (w, db₁, checked, rest) =
      >>=-eq-ok (for_each (check_remaining db.orders) (quantities_from rei [] rei.items)) _ db
        ran in
    let (w₂, db₂, looped, last) =
      >>=-eq-ok (for_each (confirm_item rei user) (sort_for_locking by_variant rei.items)) _ db₁
        rest in
    let kept : db₁.orders ≡ db.orders =
      for_each-keeps (λ (d : PurchasingDb). d.orders ≡ db.orders) (check_remaining db.orders)
        (λ x d d' z q i. check-orders db.orders x d d' z i ∙ q) _ db db₁ w refl checked in
    (
      settle-lines p v now rei user db₂ db' u last
          ∙ rounds_add rei user p v (sort_for_locking by_variant rei.items) item db₁ db₂ w₂
              (ap (po_item p v) kept ∙ found) looped
          ∙ ap (λ n. some (add_received n item))
              (sum_by-sort by_variant (pieces_for rei p v) rei.items),
      subst (λ n. item.received_quantity + n ≤ item.quantity)
          (lookup-quantities rei p v [] rei.items ∙ omega arith)
          (checked-bound p v item db.orders (quantities_from rei [] rei.items) db db₁ w found le
            checked),
    )
