-- ===== src/Purchasing/SentBack.antt =====
-- Purchase returns and their refunds (purchase-return.service.ts) against the supplier ledger.
use mathlib.Core.Path.{ap₂}
use multi_warehouse_manageme.Prelude.{
  ℕ, ◌+◌, ◌≡◌, refl, ap, sym, ◌∙◌, Bool, true, false, ◌&&◌, ◌==◌, if◌then◌else◌, some, ◌∷◌, arith,
  Bool-cases, inl, inr,
}
use multi_warehouse_manageme.Prelude.Int.{ℤ, pos, neg, ◌+ℤ◌, int_laws}
use multi_warehouse_manageme.Prelude.Sums.{sum_ℤ}
use multi_warehouse_manageme.Prelude.Tx.{ok, ◌>>◌, for_each, >>=-eq-ok}
use multi_warehouse_manageme.Prelude.Table.{update_row, sum_ℤ-update}
use multi_warehouse_manageme.Auth.{AuthUser, assert_location_permission}
use multi_warehouse_manageme.Inventory.Locking.{sort_for_locking}
use multi_warehouse_manageme.Purchasing.Types.{
  RefundStatus, LedgerReferenceType, new_entry, PurchaseReturn, PurchasingDb, find_return,
  write_log, write_entry, create_receipt, validate_partner,
}
use multi_warehouse_manageme.Purchasing.Returns.{
  CreatePurchaseReturnDto, new_return, create_tx, send_back, by_variant, is_refunded,
  confirm_refund, validate_goods_receipt_ref, validate_return_quantities,
}
use multi_warehouse_manageme.Purchasing.Returns
use multi_warehouse_manageme.Purchasing.Books.{
  balance, receipt_owed, return_owed, owed, Books, books, loop_keeps, send_back-keeps,
}
use multi_warehouse_manageme.Purchasing.Payables.{BooksBalance, cancel_left}

return_step : (r t b x : ℤ) → x +ℤ (r +ℤ (t +ℤ b)) ≡ r +ℤ (x +ℤ t +ℤ b)
return_step r t b x = omega int_laws

-- What a return's transaction leaves in the books.
create_tx-books :
    (pvn : PurchaseReturn) (user : AuthUser) (db db' : PurchasingDb) (u : Unit {0})
    → create_tx pvn user db ≡ ok (u, db')
    → (db'.receipts ≡ db.receipts)
      × (db'.returns ≡ pvn ∷ db.returns)
      × (db'.ledger
          ≡ new_entry pvn.supplier_id LedgerReferenceType.purchase_return pvn.code pvn.total_amount
              user
            ∷ db.ledger)
unfolding create_tx
create_tx-books pvn user db db' u h =
    let db₁ = record db { returns = pvn ∷ db.returns; next_id = db.next_id + 1 } in
    let (w, db₂, looped, last) =
      >>=-eq-ok (for_each (send_back pvn user) (sort_for_locking by_variant pvn.items))
        (λ _.
          write_entry pvn.supplier_id LedgerReferenceType.purchase_return pvn.code pvn.total_amount
            user
          >> write_log user "purchase_return.create" pvn.id pvn.code)
        db₁ h in
    let same : books db₂ ≡ books db₁ =
      loop_keeps (send_back pvn user) (send_back-keeps pvn user) _ db₁ db₂ w looped in
    let (r, t, l) : (db'.receipts ≡ db₂.receipts)
        × (db'.returns ≡ db₂.returns)
        × (db'.ledger
            ≡ new_entry pvn.supplier_id LedgerReferenceType.purchase_return pvn.code
                pvn.total_amount user
              ∷ db₂.ledger) =
      (cc last, cc last, cc last) in
    (
      r ∙ ap Books.receipts same,
      t ∙ ap Books.returns same,
      l
          ∙ ap
              (λ (b : Books).
                new_entry pvn.supplier_id LedgerReferenceType.purchase_return pvn.code
                  pvn.total_amount user
                ∷ b.ledger)
              same,
    )

pub create-runs :
    (dto : CreatePurchaseReturnDto) (user : AuthUser) (db db' : PurchasingDb) (u : Unit {0})
    → Returns.create dto user db ≡ ok (u, db')
    → create_tx (new_return dto db) user db ≡ ok (u, db')
unfolding Returns.create validate_partner assert_location_permission validate_goods_receipt_ref
    validate_return_quantities
create-runs dto user db db' u h = ground arith

if_open : (b : Bool) (x : ℤ) → (if b then x else pos 0) ≡ (if b && true then x else pos 0)
if_open true x = refl
if_open false x = refl

pub create-BooksBalance :
    (base : ℕ → ℤ) (dto : CreatePurchaseReturnDto) (user : AuthUser) (db db' : PurchasingDb)
    (u : Unit {0})
    → Returns.create dto user db ≡ ok (u, db')
    → BooksBalance base db
    → BooksBalance base db'
create-BooksBalance base dto user db db' u h b s =
    let pvn = new_return dto db in
    let (r, t, l) = create_tx-books pvn user db db' u (create-runs dto user db db' u h) in
    ap (balance s) l
    ∙ ap (λ y. (if dto.supplier_id == s then pvn.total_amount else pos 0) +ℤ y) (b s)
    ∙ return_step (sum_ℤ (receipt_owed s) db.receipts) (sum_ℤ (return_owed s) db.returns) (base s)
        (if dto.supplier_id == s then pvn.total_amount else pos 0)
    ∙ ap
        (λ y.
          sum_ℤ (receipt_owed s) db.receipts +ℤ (y +ℤ sum_ℤ (return_owed s) db.returns +ℤ base s))
        (if_open (dto.supplier_id == s) pvn.total_amount)
    ∙ sym (ap₂ (owed base s) r t)

-- A refund keeps the ledger in agreement with the documents.
pub refund-BooksBalance :
    (base : ℕ → ℤ) (now id : ℕ) (user : AuthUser) (db db' : PurchasingDb) (u : Unit {0})
    (pvn : PurchaseReturn)
    → find_return id db.returns ≡ some pvn
    → confirm_refund now id user db ≡ ok (u, db')
    → BooksBalance base db
    → BooksBalance base db'
unfolding confirm_refund assert_location_permission create_receipt
refund-BooksBalance base now id user db db' u pvn found h b s =
    let f = λ (row : PurchaseReturn). record row {
      refund_status = RefundStatus.refunded;
      refunded_at = some now;
    } in
    let open_ : pvn.refund_status ≡ RefundStatus.no_refund = ground arith in
    let r : db'.receipts ≡ db.receipts = ground arith in
    let t : db'.returns ≡ update_row PurchaseReturn.id id f db.returns = ground arith in
    let l : db'.ledger
        ≡ new_entry pvn.supplier_id LedgerReferenceType.refund pvn.code (neg pvn.total_amount) user
          ∷ db.ledger =
      ground arith in
    let x = if pvn.supplier_id == s then neg pvn.total_amount else pos 0 in
    let (after, before) : (return_owed s (f pvn) ≡ x +ℤ return_owed s pvn) × Unit {0} = (
      elim (Bool-cases (pvn.supplier_id == s)) [
        | inl same ↦ rw (same, open_) (omega int_laws)
        | inr other ↦ rw other (omega int_laws)
      ],
      tt,
    ) in
    let moved =
      sum_ℤ-update PurchaseReturn.id (return_owed s) id f db.returns pvn found
      ∙ ap (λ y. y +ℤ sum_ℤ (return_owed s) db.returns) after in
    ap (balance s) l
    ∙ ap (λ y. x +ℤ y) (b s)
    ∙ return_step (sum_ℤ (receipt_owed s) db.receipts) (sum_ℤ (return_owed s) db.returns) (base s) x
    ∙ ap (λ y. sum_ℤ (receipt_owed s) db.receipts +ℤ (y +ℤ base s))
        (sym (cancel_left _ _ _ _ moved))
    ∙ sym (ap₂ (owed base s) r t)
