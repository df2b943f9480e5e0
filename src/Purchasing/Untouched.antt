-- ===== src/Purchasing/Untouched.antt =====
-- What leaves the supplier ledger alone: purchase orders (purchase-order.service.ts), and receipts that
-- are created (goods-receipt.service.ts).
use mathlib.Core.Path.{ap₂, subst}
use multi_warehouse_manageme.Prelude.{
  ℕ, ◌≡◌, ap, sym, ◌∙◌, Bool, ◌==◌, ◌∷◌, arith, Bool-cases, Option-cases, inl, inr,
}
use multi_warehouse_manageme.Prelude.Int.{ℤ, pos, ◌+ℤ◌, zero_+ℤ}
use multi_warehouse_manageme.Prelude.Sums.{sum_ℤ}
use multi_warehouse_manageme.Prelude.Tx.{ok, for_each, >>=-eq-ok}
use multi_warehouse_manageme.Auth.{AuthUser, assert_location_permission}
use multi_warehouse_manageme.Inventory.Locking.{sort_for_locking}
use multi_warehouse_manageme.Purchasing.Types.{
  GoodsReceiptStatus, GoodsReceipt, PurchasingDb, find_order, create_payment, PurchaseOrder,
  validate_partner,
}
use multi_warehouse_manageme.Purchasing.Orders.{
  announce_item, cancel_remaining, submit_tx, close_tx, PoAction, submit_action, close_action,
  cancel_action, run_action, CreatePurchaseOrderDto, UpdatePurchaseOrderDto, submit, close,
  transition,
}
use multi_warehouse_manageme.Purchasing.Orders
use multi_warehouse_manageme.Purchasing.Payments.{
  pay, cancel, CreateGoodsReceiptDto, check_order, check_line, new_receipt, create_against_orders,
  named_orders,
}
use multi_warehouse_manageme.Purchasing.Payments
use multi_warehouse_manageme.Purchasing.Books.{
  balance, receipt_owed, return_owed, owed, Books, books, KeepsBooks, loop_keeps,
}
use multi_warehouse_manageme.Purchasing.Payables.{BooksBalance}

announce-keeps : (po : PurchaseOrder) (user : AuthUser) → KeepsBooks (announce_item po user)
unfolding announce_item
announce-keeps po user item db db' u h = ground arith

remaining-keeps : (po : PurchaseOrder) (user : AuthUser) → KeepsBooks (cancel_remaining po user)
unfolding cancel_remaining
remaining-keeps po user item db db' u h = ground arith

submit_tx-books :
    (po : PurchaseOrder) (user : AuthUser) (db db' : PurchasingDb) (u : Unit {0})
    → submit_tx po user db ≡ ok (u, db')
    → books db' ≡ books db
unfolding submit_tx create_payment
submit_tx-books po user db db' u h =
    let (w, db₁, looped, last) =
      >>=-eq-ok (for_each (announce_item po user) (sort_for_locking Orders.by_variant po.items)) _
        db h in
    let rest : books db' ≡ books db₁ = ground (arith, last) in
    rest ∙ loop_keeps (announce_item po user) (announce-keeps po user) _ db db₁ w looped

close_tx-books :
    (po : PurchaseOrder) (user : AuthUser) (db db' : PurchasingDb) (u : Unit {0})
    → close_tx po user db ≡ ok (u, db')
    → books db' ≡ books db
unfolding close_tx
close_tx-books po user db db' u h =
    let (w, db₁, looped, last) =
      >>=-eq-ok (for_each (cancel_remaining po user) (sort_for_locking Orders.by_variant po.items))
        _ db h in
    let rest : books db' ≡ books db₁ = ground (arith, last) in
    rest ∙ loop_keeps (cancel_remaining po user) (remaining-keeps po user) _ db db₁ w looped

run-books :
    (action : PoAction) (po : PurchaseOrder) (user : AuthUser) (db db' : PurchasingDb)
    (u : Unit {0})
    → run_action action po user db ≡ ok (u, db')
    → books db' ≡ books db
unfolding submit close Orders.cancel
run-books submit_action po user db db' u h = submit_tx-books po user db db' u (ground arith)
run-books close_action po user db db' u h = close_tx-books po user db db' u (ground arith)
run-books cancel_action po user db db' u h = ground arith

pub transition-books :
    (id : ℕ) (action : PoAction) (user : AuthUser) (db db' : PurchasingDb) (u : Unit {0})
    → transition id action user db ≡ ok (u, db')
    → books db' ≡ books db
unfolding transition assert_location_permission
transition-books id action user db db' u h = elim (Option-cases (find_order id db.orders)) [
  | inl e ↦ ground arith
  | inr (po, e) ↦ run-books action po user db db' u (ground arith)
]

pub Books_same :
    (base : ℕ → ℤ) (db db' : PurchasingDb)
    → books db' ≡ books db
    → BooksBalance base db
    → BooksBalance base db'
Books_same base db db' same b s =
    ap (λ (k : Books). balance s k.ledger) same
    ∙ b s
    ∙ sym (ap (λ (k : Books). owed base s k.receipts k.returns) same)

pub order_create-books :
    (code : ℕ) (dto : CreatePurchaseOrderDto) (user : AuthUser) (db db' : PurchasingDb)
    (u : Unit {0})
    → Orders.create code dto user db ≡ ok (u, db')
    → books db' ≡ books db
unfolding Orders.create validate_partner assert_location_permission
order_create-books code dto user db db' u h = ground arith

pub order_update-books :
    (id : ℕ) (dto : UpdatePurchaseOrderDto) (user : AuthUser) (db db' : PurchasingDb) (u : Unit {0})
    → Orders.update id dto user db ≡ ok (u, db')
    → books db' ≡ books db
unfolding Orders.update validate_partner assert_location_permission
order_update-books id dto user db db' u h = ground arith

check_order-keeps : (dto : CreateGoodsReceiptDto) → KeepsBooks (check_order dto)
unfolding check_order
check_order-keeps dto id db db' u h = ground arith

check_line-keeps : (dto : CreateGoodsReceiptDto) → KeepsBooks (check_line dto)
unfolding check_line
check_line-keeps dto item db db' u h = ground arith

-- The rows that a new receipt leaves in the books.
pub Added : GoodsReceipt → Books → Books → Type 0
Added rei k k' =
    (k'.receipts ≡ rei ∷ k.receipts) × (k'.returns ≡ k.returns) × (k'.ledger ≡ k.ledger)

insert-Added :
    (code : ℕ) (dto : CreateGoodsReceiptDto) (user : AuthUser) (db db' : PurchasingDb)
    (u : Unit {0})
    → Payments.create_tx code dto user db ≡ ok (u, db')
    → Added (new_receipt code dto db.next_id) (books db) (books db')
unfolding Added Payments.create_tx
insert-Added code dto user db db' u h = (cc, cc, cc)

pub checked-Added :
    (code : ℕ) (dto : CreateGoodsReceiptDto) (user : AuthUser) (db db' : PurchasingDb)
    (u : Unit {0})
    → create_against_orders code dto user db ≡ ok (u, db')
    → (id : ℕ) × Added (new_receipt code dto id) (books db) (books db')
unfolding create_against_orders
checked-Added code dto user db db' u h =
    let (w₁, db₁, named, rest) = >>=-eq-ok (for_each (check_order dto) (named_orders dto)) _ db h in
    let (w₂, db₂, lines, last) = >>=-eq-ok (for_each (check_line dto) dto.items) _ db₁ rest in
    let same =
      loop_keeps (check_line dto) (check_line-keeps dto) dto.items db₁ db₂ w₂ lines
      ∙ loop_keeps (check_order dto) (check_order-keeps dto) (named_orders dto) db db₁ w₁ named in
    (
      db₂.next_id,
      subst (λ k. Added (new_receipt code dto db₂.next_id) k (books db')) same
          (insert-Added code dto user db₂ db' u last),
    )

pub receipt_create-runs :
    (has_symbol : Bool) (code : ℕ) (dto : CreateGoodsReceiptDto) (user : AuthUser)
    (db db' : PurchasingDb) (u : Unit {0})
    → Payments.create has_symbol code dto user db ≡ ok (u, db')
    → create_against_orders code dto user db ≡ ok (u, db')
unfolding Payments.create validate_partner assert_location_permission
receipt_create-runs has_symbol code dto user db db' u h = ground arith

owed_waiting :
    (s : ℕ) (rei : GoodsReceipt)
    → rei.status ≡ GoodsReceiptStatus.pending
    → receipt_owed s rei ≡ pos 0
owed_waiting s rei h = elim (Bool-cases (rei.supplier_id == s)) [
  | inl same ↦ rw (same, h)
  | inr other ↦ rw other
]

-- A receipt that waits counts for nothing yet.
pub Added-balanced :
    (base : ℕ → ℤ) (rei : GoodsReceipt) (k k' : Books) (s : ℕ)
    → rei.status ≡ GoodsReceiptStatus.pending
    → Added rei k k'
    → balance s k.ledger ≡ owed base s k.receipts k.returns
    → balance s k'.ledger ≡ owed base s k'.receipts k'.returns
unfolding Added
Added-balanced base rei k k' s waiting (r, t, l) b =
    ap (balance s) l
    ∙ b
    ∙ ap (λ y. y +ℤ (sum_ℤ (return_owed s) k.returns +ℤ base s))
        (sym (zero_+ℤ _)
          ∙ ap (λ y. y +ℤ sum_ℤ (receipt_owed s) k.receipts) (sym (owed_waiting s rei waiting)))
    ∙ sym (ap₂ (owed base s) r t)
