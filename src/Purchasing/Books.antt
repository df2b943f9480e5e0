-- ===== src/Purchasing/Books.antt =====
-- The supplier ledger of src/modules/purchasing against its documents: how each operation moves what
-- the ledger says is owed, and what the receipts and returns say.
use multi_warehouse_manageme.Prelude.{
  ℕ, ◌≡◌, refl, ap, ◌∙◌, Bool, true, false, not, ◌&&◌, ◌==◌, if◌then◌else◌, List, ◌∷◌, arith,
  Bool-cases, Option-cases, inl, inr,
}
use multi_warehouse_manageme.Prelude.Int.{
  min_ℤ, max_ℤ, ℤ, pos, neg, ◌+ℤ◌, ◌-ℤ◌, ◌≤ℤ◌, ltb_ℤ, int_laws,
}
use multi_warehouse_manageme.Prelude.Sums.{sum_ℤ}
use multi_warehouse_manageme.Prelude.Tx.{Tx, ok, ◌>>◌, for_each, for_each-keeps, >>=-eq-ok}
use multi_warehouse_manageme.Prelude.Table.{update_row}
use multi_warehouse_manageme.Auth.{AuthUser}
use multi_warehouse_manageme.Purchasing.Types.{
  GoodsReceiptStatus, LedgerReferenceType, new_entry, GoodsReceipt, PurchaseReturn, LedgerEntry,
  PurchaseOrder, PurchasingDb, find_order, write_log,
}
use multi_warehouse_manageme.Purchasing.Orders.{try_complete_if_fully_received}
use multi_warehouse_manageme.Purchasing.Receipts.{
  is_receipt_status, check_remaining, confirm_item, settle_receipt, amount_due_of, deposit_to_apply,
  write_entries, confirmed, po_ids,
}
use multi_warehouse_manageme.Purchasing.Returns.{send_back, is_refunded}

-- What the ledger says of a supplier.
abbrev pub balance : ℕ → List LedgerEntry → ℤ
balance s = sum_ℤ (λ (e : LedgerEntry). if e.supplier_id == s then e.amount else pos 0)

-- What a receipt that has arrived leaves unpaid counts below zero.
abbrev pub receipt_owed : ℕ → GoodsReceipt → ℤ
receipt_owed s r =
    if r.supplier_id == s && is_receipt_status r.status GoodsReceiptStatus.received
    then r.paid_amount -ℤ r.amount_due
    else pos 0

-- What was sent back counts above zero until the supplier has refunded it in cash.
abbrev pub return_owed : ℕ → PurchaseReturn → ℤ
return_owed s r =
    if r.supplier_id == s && not (is_refunded r.refund_status) then r.total_amount else pos 0

-- What the documents say of a supplier, over an amount that they do not explain.
abbrev pub owed : (ℕ → ℤ) → ℕ → List GoodsReceipt → List PurchaseReturn → ℤ
owed base s receipts returns =
    sum_ℤ (receipt_owed s) receipts +ℤ (sum_ℤ (return_owed s) returns +ℤ base s)

-- The three tables that this is about.
pub record Books : Type 0 where
  pub receipts : List GoodsReceipt
  pub returns : List PurchaseReturn
  pub ledger : List LedgerEntry

abbrev pub books : PurchasingDb → Books
books db = record { receipts = db.receipts; returns = db.returns; ledger = db.ledger }

abbrev pub KeepsBooks : {A : Type 0} → (A → Tx PurchasingDb (Unit {0})) → Type 0
KeepsBooks {A} body =
    (x : A) (db db' : PurchasingDb) (u : Unit {0}) → body x db ≡ ok (u, db') → books db' ≡ books db

pub loop_keeps :
    {A : Type 0} (body : A → Tx PurchasingDb (Unit {0}))
    → KeepsBooks body
    → (xs : List A) (db db' : PurchasingDb) (u : Unit {0}) → for_each body xs db ≡ ok (u, db')
    → books db' ≡ books db
loop_keeps body keeps xs db db' u h =
    for_each-keeps (λ d. books d ≡ books db) body (λ x d d' v p e. keeps x d d' v e ∙ p) xs db db' u
      refl h

pub check-keeps : (orders : List PurchaseOrder) → KeepsBooks (check_remaining orders)
unfolding check_remaining
check-keeps orders (p, v, q) db db' u h = ground arith

pub confirm_item-keeps : (rei : GoodsReceipt) (user : AuthUser) → KeepsBooks (confirm_item rei user)
unfolding confirm_item
confirm_item-keeps rei user item db db' u h = ground arith

pub send_back-keeps : (pvn : PurchaseReturn) (user : AuthUser) → KeepsBooks (send_back pvn user)
unfolding send_back
send_back-keeps pvn user item db db' u h = ground arith

complete-keeps : (user : AuthUser) → KeepsBooks (try_complete_if_fully_received user)
unfolding try_complete_if_fully_received
complete-keeps user id db db' u h = elim (Option-cases (find_order id db.orders)) [
  | inl e ↦ ground arith
  | inr (po, e) ↦ ground arith
]

-- The books after a receipt is confirmed, on what `confirm` has read.
abbrev pub applied_of : GoodsReceipt → PurchasingDb → ℤ
applied_of rei db = deposit_to_apply rei (amount_due_of rei) db.orders db.receipts

abbrev pub entry_of : ℕ → ℕ → ℤ → ℤ
entry_of s supplier_id amount = if supplier_id == s then amount else pos 0

abbrev pub when_positive : ℤ → ℤ
when_positive x = if ltb_ℤ (pos 0) x then x else pos 0

zero_entry : (b : Bool) (x : ℤ) → x ≡ (if b then pos 0 else pos 0) +ℤ x
zero_entry true x = omega int_laws
zero_entry false x = omega int_laws

entries_after :
    (rei : GoodsReceipt) (user : AuthUser) (due applied : ℤ) (db db' : PurchasingDb) (u : Unit {0})
    → (write_entries rei user due applied >> write_log user "goods_receipt.confirm" rei.id rei.code)
        db
      ≡ ok (u, db')
    → (db'.receipts ≡ db.receipts)
      × (db'.returns ≡ db.returns)
      × ((s : ℕ)
          → balance s db'.ledger
            ≡ entry_of s rei.supplier_id (when_positive applied)
              +ℤ (entry_of s rei.supplier_id (neg due) +ℤ balance s db.ledger))
entries_after rei user due applied db db' u h = elim (Bool-cases (ltb_ℤ (pos 0) applied)) [
  | inl more ↦
      let l : db'.ledger
          ≡ new_entry rei.supplier_id LedgerReferenceType.payment rei.code applied user
            ∷ new_entry rei.supplier_id LedgerReferenceType.goods_receipt rei.code (neg due) user
            ∷ db.ledger =
        ground arith in
      (ground arith, ground arith, λ s. rw (l, more))
  | inr not_more ↦
      let l : db'.ledger
          ≡ new_entry rei.supplier_id LedgerReferenceType.goods_receipt rei.code (neg due) user
            ∷ db.ledger =
        ground arith in
      (ground arith, ground arith, λ s. rw (l, not_more) (zero_entry (rei.supplier_id == s) _))
]

pub settle-books :
    (now : ℕ) (rei : GoodsReceipt) (user : AuthUser) (db db' : PurchasingDb) (u : Unit {0})
    → settle_receipt now rei user db ≡ ok (u, db')
    → (db'.receipts
        ≡ update_row GoodsReceipt.id rei.id
            (confirmed now (amount_due_of rei) (applied_of rei db))
            db.receipts)
      × (db'.returns ≡ db.returns)
      × ((s : ℕ)
          → balance s db'.ledger
            ≡ entry_of s rei.supplier_id (when_positive (applied_of rei db))
              +ℤ (entry_of s rei.supplier_id (neg (amount_due_of rei)) +ℤ balance s db.ledger))
unfolding settle_receipt
settle-books now rei user db db' u h =
    let due = amount_due_of rei in
    let applied = applied_of rei db in
    let db₁ = record db {
      receipts = update_row GoodsReceipt.id rei.id (confirmed now due applied) db.receipts;
    } in
    let (w, db₂, completed, last) =
      >>=-eq-ok (for_each (try_complete_if_fully_received user) (po_ids rei))
        (λ _.
          write_entries rei user due applied
          >> write_log user "goods_receipt.confirm" rei.id rei.code)
        db₁ h in
    let same : books db₂ ≡ books db₁ =
      loop_keeps (try_complete_if_fully_received user) (complete-keeps user) (po_ids rei) db₁ db₂ w
        completed in
    let (r, t, l) = entries_after rei user due applied db₂ db' u last in
    (r ∙ ap Books.receipts same, t ∙ ap Books.returns same, λ s. l s ∙ rw (ap Books.ledger same))

-- The bounds of what is taken from a deposit, for a receipt that is not worth less than nothing.
pub deposit_to_apply_bounds :
    (rei : GoodsReceipt) (due : ℤ) (orders : List PurchaseOrder) (receipts : List GoodsReceipt)
    → pos 0 ≤ℤ due
    → (pos 0 ≤ℤ deposit_to_apply rei due orders receipts)
      × (deposit_to_apply rei due orders receipts ≤ℤ due)
unfolding deposit_to_apply min_ℤ max_ℤ
deposit_to_apply_bounds rei due orders receipts h = elim (Option-cases rei.purchase_order_id) [
  | inl e ↦ rw e (omega arith, h)
  | inr (p, e) ↦ rw e (ground arith, ground arith)
]

pub when_positive_lem : (x : ℤ) → pos 0 ≤ℤ x → when_positive x ≡ x
when_positive_lem x h = ground arith

-- The documents' side of a confirmation: a receipt that was waiting counts from now on.
pub owed_confirmed :
    (s : ℕ) (now : ℕ) (rei : GoodsReceipt) (due applied : ℤ)
    → rei.status ≡ GoodsReceiptStatus.pending
    → (receipt_owed s (confirmed now due applied rei)
        ≡ entry_of s rei.supplier_id applied +ℤ entry_of s rei.supplier_id (neg due))
      × (receipt_owed s rei ≡ pos 0)
owed_confirmed s now rei due applied h = elim (Bool-cases (rei.supplier_id == s)) [
  | inl same ↦ (rw same (omega int_laws), rw (same, h))
  | inr other ↦ (rw other (omega int_laws), rw other)
]
