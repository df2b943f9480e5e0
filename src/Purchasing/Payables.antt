-- ===== src/Purchasing/Payables.antt =====
-- Confirming, paying and cancelling a receipt (goods-receipt.service.ts) against the supplier ledger.
use mathlib.Core.Path.{ap₂}
use multi_warehouse_manageme.Prelude.{
  ℕ, ◌≡◌, ap, sym, ◌∙◌, ◌==◌, ◌⊎◌, Option, some, List, [], ◌∷◌, arith, Bool-cases, inl, inr,
}
use multi_warehouse_manageme.Prelude.Int.{
  ℤ, pos, neg, ◌+ℤ◌, ◌-ℤ◌, ◌≤ℤ◌, +ℤ_assoc, +ℤ_zero, zero_+ℤ, ◌<ℤ◌, leb_ℤ, int_laws,
}
use multi_warehouse_manageme.Prelude.Sums.{sum_ℤ}
use multi_warehouse_manageme.Prelude.Tx.{ok, ◌>>◌, for_each, >>=-eq-ok}
use multi_warehouse_manageme.Prelude.Table.{
  update_row, delete_row, sum_ℤ-update, sum_ℤ-delete, find_row-key,
}
use multi_warehouse_manageme.Auth.{AuthUser, assert_location_permission}
use multi_warehouse_manageme.Inventory.Locking.{sort_for_locking}
use multi_warehouse_manageme.Purchasing.Types.{
  GoodsReceiptStatus, PaymentStatus, LedgerReferenceType, new_entry, GoodsReceipt, PurchaseReturn,
  PurchasingDb, find_receipt, create_payment,
}
use multi_warehouse_manageme.Purchasing.Receipts.{
  is_paid, check_remaining, confirm_item, settle_receipt, confirm_tx, confirm, amount_due_of,
  quantities_from, by_variant, confirmed,
}
use multi_warehouse_manageme.Purchasing.Payments.{
  pay, amount_or, status_after, pay_tx, pay_unpaid, cancel,
}
use multi_warehouse_manageme.Purchasing.Books.{
  balance, receipt_owed, return_owed, owed, Books, books, loop_keeps, settle-books, owed_confirmed,
  check-keeps, confirm_item-keeps, applied_of, entry_of, when_positive_lem, deposit_to_apply_bounds,
}

-- What the ledger says of every supplier is what the documents say, over an amount for each.
abbrev pub BooksBalance : (ℕ → ℤ) → PurchasingDb → Type 0
BooksBalance base db = (s : ℕ) → balance s db.ledger ≡ owed base s db.receipts db.returns

pub confirm-runs :
    (now id : ℕ) (user : AuthUser) (db db' : PurchasingDb) (u : Unit {0}) (rei : GoodsReceipt)
    → find_receipt id db.receipts ≡ some rei
    → confirm now id user db ≡ ok (u, db')
    → (rei.status ≡ GoodsReceiptStatus.pending) × (confirm_tx now rei user db ≡ ok (u, db'))
unfolding confirm assert_location_permission
confirm-runs now id user db db' u rei e h = (ground arith, ground arith)

-- The transaction reaches its end on books that its loops have left alone.
confirm_tx-settles :
    (now : ℕ) (rei : GoodsReceipt) (user : AuthUser) (db db' : PurchasingDb) (u : Unit {0})
    → confirm_tx now rei user db ≡ ok (u, db')
    → (db₂ : PurchasingDb) × (books db₂ ≡ books db)
      × (settle_receipt now rei user db₂ ≡ ok (u, db'))
unfolding confirm_tx
confirm_tx-settles now rei user db db' u h =
    let (w₁, db₁, checked, rest) =
      >>=-eq-ok (for_each (check_remaining db.orders) (quantities_from rei [] rei.items))
        (λ _.
          for_each (confirm_item rei user) (sort_for_locking by_variant rei.items)
          >> settle_receipt now rei user)
        db h in
    let (w₂, db₂, looped, last) =
      >>=-eq-ok (for_each (confirm_item rei user) (sort_for_locking by_variant rei.items))
        (λ _. settle_receipt now rei user) db₁ rest in
    (
      db₂,
      loop_keeps (confirm_item rei user) (confirm_item-keeps rei user) _ db₁ db₂ w₂ looped
          ∙ loop_keeps (check_remaining db.orders) (check-keeps db.orders) _ db db₁ w₁ checked,
      last,
    )

pub cancel_left : (o x y z : ℤ) → o +ℤ y ≡ x +ℤ o +ℤ z → y ≡ x +ℤ z
cancel_left o x y z h = undo y o ∙ ap (λ w. neg o +ℤ w) h ∙ redo o x z
  where
    undo : (y o : ℤ) → y ≡ neg o +ℤ (o +ℤ y)
    undo y o = omega int_laws

    redo : (o x z : ℤ) → neg o +ℤ (x +ℤ o +ℤ z) ≡ x +ℤ z
    redo o x z = omega int_laws

-- An update of one receipt that adds `x` to what it leaves unpaid, with `x` posted to the ledger.
receipt_step :
    (base : ℕ → ℤ) (s id : ℕ) (f : GoodsReceipt → GoodsReceipt) (rei : GoodsReceipt)
    (receipts : List GoodsReceipt) (returns : List PurchaseReturn) (x b b' : ℤ)
    → find_receipt id receipts ≡ some rei
    → receipt_owed s (f rei) ≡ x +ℤ receipt_owed s rei
    → b ≡ owed base s receipts returns
    → b' ≡ x +ℤ b
    → b' ≡ owed base s (update_row GoodsReceipt.id id f receipts) returns
receipt_step base s id f rei receipts returns x b b' found adds before posted =
    let moved =
      sum_ℤ-update GoodsReceipt.id (receipt_owed s) id f receipts rei found
      ∙ ap (λ y. y +ℤ sum_ℤ (receipt_owed s) receipts) adds in
    posted
    ∙ ap (λ y. x +ℤ y) before
    ∙ sym (+ℤ_assoc x _ _)
    ∙ ap (λ y. y +ℤ (sum_ℤ (return_owed s) returns +ℤ base s)) (sym (cancel_left _ _ _ _ moved))

confirm_tx-books :
    (now : ℕ) (rei : GoodsReceipt) (user : AuthUser) (db db' : PurchasingDb) (u : Unit {0})
    → confirm_tx now rei user db ≡ ok (u, db')
    → pos 0 ≤ℤ amount_due_of rei
    → (applied : ℤ) × (db'.receipts
        ≡ update_row GoodsReceipt.id rei.id (confirmed now (amount_due_of rei) applied) db.receipts)
      × (db'.returns ≡ db.returns)
      × ((s : ℕ)
          → balance s db'.ledger
            ≡ entry_of s rei.supplier_id applied
              +ℤ (entry_of s rei.supplier_id (neg (amount_due_of rei)) +ℤ balance s db.ledger))
confirm_tx-books now rei user db db' u ran due =
    let (db₂, same, settled) = confirm_tx-settles now rei user db db' u ran in
    let (receipts, returns, ledger) = settle-books now rei user db₂ db' u settled in
    let applied = applied_of rei db₂ in
    let bounds = deposit_to_apply_bounds rei (amount_due_of rei) db₂.orders db₂.receipts due in
    (
      applied,
      receipts
          ∙ ap (update_row GoodsReceipt.id rei.id (confirmed now (amount_due_of rei) applied))
              (ap Books.receipts same),
      returns ∙ ap Books.returns same,
      λ s.
          ledger s
          ∙ ap₂
              (λ x y.
                entry_of s rei.supplier_id x
                +ℤ (entry_of s rei.supplier_id (neg (amount_due_of rei)) +ℤ balance s y))
              (when_positive_lem applied bounds.0) (ap Books.ledger same),
    )

-- A confirmation keeps the ledger in agreement with the documents.
pub confirm-BooksBalance :
    (base : ℕ → ℤ) (now id : ℕ) (user : AuthUser) (db db' : PurchasingDb) (u : Unit {0})
    (rei : GoodsReceipt)
    → find_receipt id db.receipts ≡ some rei
    → pos 0 ≤ℤ amount_due_of rei
    → confirm now id user db ≡ ok (u, db')
    → BooksBalance base db
    → BooksBalance base db'
confirm-BooksBalance base now id user db db' u rei found due h b s =
    let (waiting, ran) = confirm-runs now id user db db' u rei found h in
    let (applied, receipts, returns, ledger) = confirm_tx-books now rei user db db' u ran due in
    let key = find_row-key GoodsReceipt.id id db.receipts rei found in
    let (after, before) = owed_confirmed s now rei (amount_due_of rei) applied waiting in
    let x =
      entry_of s rei.supplier_id applied +ℤ entry_of s rei.supplier_id (neg (amount_due_of rei)) in
    receipt_step base s id (confirmed now (amount_due_of rei) applied) rei db.receipts db.returns x
      (balance s db.ledger) (balance s db'.ledger) found
      (after ∙ sym (+ℤ_zero x) ∙ ap (λ y. x +ℤ y) (sym before)) (b s)
      (ledger s ∙ sym (+ℤ_assoc _ _ _))
    ∙ sym (
        ap₂ (owed base s)
          (receipts
            ∙ ap
                (λ i.
                  update_row GoodsReceipt.id i (confirmed now (amount_due_of rei) applied)
                    db.receipts)
                key)
          returns)

pay-runs :
    (amount : Option ℤ) (id : ℕ) (user : AuthUser) (db db' : PurchasingDb) (u : Unit {0})
    (rei : GoodsReceipt)
    → find_receipt id db.receipts ≡ some rei
    → pay amount id user db ≡ ok (u, db')
    → (db' ≡ db)
      ⊎ ((db' ≡ record db {
        receipts =
            update_row GoodsReceipt.id rei.id
              (λ row. record row { payment_status = PaymentStatus.paid })
              db.receipts;
      })
          ⊎ ((rei.status ≡ GoodsReceiptStatus.received)
              × (pay_tx amount rei user db ≡ ok (u, db'))))
unfolding pay pay_unpaid assert_location_permission
pay-runs amount id user db db' u rei found h = elim (Bool-cases (is_paid rei.payment_status)) [
  | inl done ↦ inl (ground arith)
  | inr open_ ↦ elim (Bool-cases (leb_ℤ (rei.amount_due -ℤ rei.paid_amount) (pos 0))) [
    | inl nothing ↦ inr (inl (ground arith))
    | inr more ↦ inr (inr (ground arith, ground arith))
  ]
]

-- What a payment makes of the row.
abbrev pub paid_by : ℤ → GoodsReceipt → GoodsReceipt → GoodsReceipt
paid_by a rei row = record row {
  payment_status = status_after (rei.paid_amount +ℤ a) rei.amount_due;
  paid_amount = rei.paid_amount +ℤ a;
}

pub pay_tx-books :
    (amount : Option ℤ) (rei : GoodsReceipt) (user : AuthUser) (db db' : PurchasingDb)
    (u : Unit {0})
    → pay_tx amount rei user db ≡ ok (u, db')
    → let a = amount_or amount (rei.amount_due -ℤ rei.paid_amount) in
      (db'.receipts ≡ update_row GoodsReceipt.id rei.id (paid_by a rei) db.receipts)
      × (db'.returns ≡ db.returns)
      × (db'.ledger
          ≡ new_entry rei.supplier_id LedgerReferenceType.payment rei.code a user ∷ db.ledger)
      × (pos 0 <ℤ a)
      × (a ≤ℤ (rei.amount_due -ℤ rei.paid_amount))
unfolding pay_tx create_payment
pay_tx-books amount rei user db db' u h =
    (ground arith, ground arith, ground arith, ground arith, ground arith)

owed_paid :
    (s : ℕ) (a : ℤ) (rei : GoodsReceipt)
    → rei.status ≡ GoodsReceiptStatus.received
    → receipt_owed s (paid_by a rei rei) ≡ entry_of s rei.supplier_id a +ℤ receipt_owed s rei
owed_paid s a rei h = elim (Bool-cases (rei.supplier_id == s)) [
  | inl same ↦ rw (same, h) (omega int_laws)
  | inr other ↦ rw other (omega int_laws)
]

-- A payment keeps the ledger in agreement with the documents.
pub pay-BooksBalance :
    (base : ℕ → ℤ) (amount : Option ℤ) (id : ℕ) (user : AuthUser) (db db' : PurchasingDb)
    (u : Unit {0}) (rei : GoodsReceipt)
    → find_receipt id db.receipts ≡ some rei
    → pay amount id user db ≡ ok (u, db')
    → BooksBalance base db
    → BooksBalance base db'
pay-BooksBalance base amount id user db db' u rei found h b s =
    let key = find_row-key GoodsReceipt.id id db.receipts rei found in
    elim (pay-runs amount id user db db' u rei found h) [
      | inl same ↦ rw same (b s)
      | inr (inl same) ↦
          ap (λ (d : PurchasingDb). balance s d.ledger) same
          ∙ receipt_step base s id (λ row. record row { payment_status = PaymentStatus.paid }) rei
              db.receipts db.returns (pos 0) (balance s db.ledger) (balance s db.ledger) found
              (sym (zero_+ℤ _)) (b s) (sym (zero_+ℤ _))
          ∙ ap
              (λ i.
                owed base s
                  (update_row GoodsReceipt.id i
                    (λ row. record row { payment_status = PaymentStatus.paid }) db.receipts)
                  db.returns)
              (sym key)
          ∙ ap (λ (d : PurchasingDb). owed base s d.receipts d.returns) (sym same)
      | inr (inr (received, ran)) ↦
          let (receipts, returns, ledger, _, _) = pay_tx-books amount rei user db db' u ran in
          let a = amount_or amount (rei.amount_due -ℤ rei.paid_amount) in
          receipt_step base s id (paid_by a rei) rei db.receipts db.returns
            (entry_of s rei.supplier_id a) (balance s db.ledger) (balance s db'.ledger) found
            (owed_paid s a rei received) (b s) (ap (balance s) ledger)
          ∙ sym (
              ap₂ (owed base s)
                (receipts ∙ ap (λ i. update_row GoodsReceipt.id i (paid_by a rei) db.receipts) key)
                returns)
    ]

-- Deleting a receipt that has not arrived keeps the agreement, too.
pub cancel-BooksBalance :
    (base : ℕ → ℤ) (id : ℕ) (user : AuthUser) (db db' : PurchasingDb) (u : Unit {0})
    (rei : GoodsReceipt)
    → find_receipt id db.receipts ≡ some rei
    → cancel id user db ≡ ok (u, db')
    → BooksBalance base db
    → BooksBalance base db'
unfolding cancel assert_location_permission
cancel-BooksBalance base id user db db' u rei found h b s =
    let waiting : rei.status ≡ GoodsReceiptStatus.pending = ground arith in
    let (r, t, l) : (db'.receipts ≡ delete_row GoodsReceipt.id id db.receipts)
        × (db'.returns ≡ db.returns)
        × (db'.ledger ≡ db.ledger) =
      (ground arith, ground arith, ground arith) in
    let gone = sum_ℤ-delete GoodsReceipt.id (receipt_owed s) id db.receipts rei found in
    let nothing : receipt_owed s rei ≡ pos 0 = elim (Bool-cases (rei.supplier_id == s)) [
      | inl same ↦ rw (same, waiting)
      | inr other ↦ rw other
    ] in
    ap (balance s) l
    ∙ b s
    ∙ ap (λ y. y +ℤ (sum_ℤ (return_owed s) db.returns +ℤ base s))
        (sym gone
          ∙ ap (λ y. y +ℤ sum_ℤ (receipt_owed s) (delete_row GoodsReceipt.id id db.receipts))
              nothing
          ∙ zero_+ℤ _)
    ∙ sym (ap₂ (owed base s) r t)
