-- ===== src/Purchasing/Accounts.antt =====
-- The agreement of the supplier ledger with the documents, through any run of the handlers of
-- src/modules/purchasing that touch receipts, returns or the ledger.
use multi_warehouse_manageme.Prelude.{ℕ, ◌≡◌, refl, Bool, Option, some}
use multi_warehouse_manageme.Prelude.Int.{ℤ, pos, ◌≤ℤ◌}
use multi_warehouse_manageme.Prelude.Tx.{ok}
use multi_warehouse_manageme.Auth.{AuthUser}
use multi_warehouse_manageme.Purchasing.Types.{
  GoodsReceipt, PurchaseReturn, PurchasingDb, find_receipt, find_return,
}
use multi_warehouse_manageme.Purchasing.Orders.{
  announce_item, cancel_remaining, submit_tx, close_tx, PoAction, submit_action, close_action,
  cancel_action, run_action, CreatePurchaseOrderDto, UpdatePurchaseOrderDto, submit, close,
  transition,
}
use multi_warehouse_manageme.Purchasing.Orders
use multi_warehouse_manageme.Purchasing.Receipts.{confirm, amount_due_of}
use multi_warehouse_manageme.Purchasing.Payments.{
  pay, cancel, CreateGoodsReceiptDto, check_order, check_line, new_receipt, create_against_orders,
  named_orders,
}
use multi_warehouse_manageme.Purchasing.Payments
use multi_warehouse_manageme.Purchasing.Returns.{
  CreatePurchaseReturnDto, new_return, create_tx, send_back, by_variant, is_refunded,
  confirm_refund, validate_goods_receipt_ref, validate_return_quantities,
}
use multi_warehouse_manageme.Purchasing.Returns
use multi_warehouse_manageme.Purchasing.Books.{books}
use multi_warehouse_manageme.Purchasing.Payables.{
  BooksBalance, confirm-BooksBalance, pay-BooksBalance, cancel-BooksBalance,
}
use multi_warehouse_manageme.Purchasing.SentBack.{create-BooksBalance, refund-BooksBalance}
use multi_warehouse_manageme.Purchasing.Untouched.{
  Books_same, transition-books, order_create-books, order_update-books, checked-Added,
  receipt_create-runs, Added-balanced,
}

-- One call of a handler that succeeds.
pub data Step (db db' : PurchasingDb) : Type 0 where
  order_create :
      (code : ℕ) (dto : CreatePurchaseOrderDto) (user : AuthUser)
      → Orders.create code dto user db ≡ ok (tt, db')
      → Step db db'
  order_update :
      (id : ℕ) (dto : UpdatePurchaseOrderDto) (user : AuthUser)
      → Orders.update id dto user db ≡ ok (tt, db')
      → Step db db'
  receipt_create :
      (has_symbol : Bool) (code : ℕ) (dto : CreateGoodsReceiptDto) (user : AuthUser)
      → Payments.create has_symbol code dto user db ≡ ok (tt, db')
      → Step db db'
  order_transition :
      (id : ℕ) (action : PoAction) (user : AuthUser)
      → transition id action user db ≡ ok (tt, db')
      → Step db db'
  receipt_confirm :
      (now id : ℕ) (user : AuthUser) (rei : GoodsReceipt)
      → find_receipt id db.receipts ≡ some rei
      → pos 0 ≤ℤ amount_due_of rei
      → confirm now id user db ≡ ok (tt, db')
      → Step db db'
  receipt_pay :
      (amount : Option ℤ) (id : ℕ) (user : AuthUser) (rei : GoodsReceipt)
      → find_receipt id db.receipts ≡ some rei
      → pay amount id user db ≡ ok (tt, db')
      → Step db db'
  receipt_cancel :
      (id : ℕ) (user : AuthUser) (rei : GoodsReceipt)
      → find_receipt id db.receipts ≡ some rei
      → cancel id user db ≡ ok (tt, db')
      → Step db db'
  return_create :
      (dto : CreatePurchaseReturnDto) (user : AuthUser)
      → Returns.create dto user db ≡ ok (tt, db')
      → Step db db'
  return_refund :
      (now id : ℕ) (user : AuthUser) (pvn : PurchaseReturn)
      → find_return id db.returns ≡ some pvn
      → confirm_refund now id user db ≡ ok (tt, db')
      → Step db db'

pub data Run (start : PurchasingDb) : PurchasingDb → Type 0 where
  here : Run start start
  next : {db db' : PurchasingDb} → Run start db → Step db db' → Run start db'

Step-BooksBalance :
    (base : ℕ → ℤ) (db db' : PurchasingDb)
    → Step db db'
    → BooksBalance base db
    → BooksBalance base db'
Step-BooksBalance base db db' (order_transition id action user h) b s =
    Books_same base db db' (transition-books id action user db db' tt h) b s
Step-BooksBalance base db db' (receipt_confirm now id user rei found due h) b s =
    confirm-BooksBalance base now id user db db' tt rei found due h b s
Step-BooksBalance base db db' (receipt_pay amount id user rei found h) b s =
    pay-BooksBalance base amount id user db db' tt rei found h b s
Step-BooksBalance base db db' (receipt_cancel id user rei found h) b s =
    cancel-BooksBalance base id user db db' tt rei found h b s
Step-BooksBalance base db db' (return_create dto user h) b s =
    create-BooksBalance base dto user db db' tt h b s
Step-BooksBalance base db db' (return_refund now id user pvn found h) b s =
    refund-BooksBalance base now id user db db' tt pvn found h b s
Step-BooksBalance base db db' (order_create code dto user h) b s =
    Books_same base db db' (order_create-books code dto user db db' tt h) b s
Step-BooksBalance base db db' (order_update id dto user h) b s =
    Books_same base db db' (order_update-books id dto user db db' tt h) b s
Step-BooksBalance base db db' (receipt_create has_symbol code dto user h) b s =
    let (id, added) =
      checked-Added code dto user db db' tt
        (receipt_create-runs has_symbol code dto user db db' tt h) in
    Added-balanced base (new_receipt code dto id) (books db) (books db') s refl added (b s)

-- Through any run of the handlers of purchase orders, goods receipts and purchase returns that
-- succeed, where no receipt is confirmed that is worth less than nothing: if before it each supplier's
-- ledger sums to what the supplier's received receipts leave unpaid, below zero, and the value of its
-- returns that are not refunded, over some amount for that supplier (such as its debt adjustments),
-- then it does after it, with the same amounts.
pub Run-BooksBalance :
    (base : ℕ → ℤ) {start db : PurchasingDb}
    → Run start db
    → BooksBalance base start
    → BooksBalance base db
Run-BooksBalance base here b = b
Run-BooksBalance base (next {db} {db'} run step) b =
    Step-BooksBalance base db db' step (Run-BooksBalance base run b)
