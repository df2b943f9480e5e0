-- ===== src/Purchasing/Examples.antt =====
-- An order of ten pieces with a deposit, its receipt, and the payment of the rest.
use multi_warehouse_manageme.Prelude.{
  ℕ, if◌then◌else◌, ◌+◌, ◌≤◌, sum_by, ◌≡◌, refl, true, ◌↔◌, none, some, [], ◌∷◌, arith, ◌==◌,
  Bool-cases, inl, inr,
}
use multi_warehouse_manageme.Prelude.Int.{ℤ, min_ℤ, max_ℤ, pos, ◌+ℤ◌, ◌≤ℤ◌, ◌<ℤ◌}
use multi_warehouse_manageme.Prelude.Tx.{ok, settle, for_each}
use multi_warehouse_manageme.Prelude.Table.{find_row, update_row, delete_row}
use multi_warehouse_manageme.Auth.{AuthUser, assert_location_permission}
use multi_warehouse_manageme.Inventory.Types.{Bucket}
use multi_warehouse_manageme.Inventory.Locking.{sort_for_locking}
use multi_warehouse_manageme.Inventory.Effect.{counter}
use multi_warehouse_manageme.Inventory.Computing.{computing}
use multi_warehouse_manageme.Purchasing.Types.{
  PurchaseOrderItem, PoStatus, GoodsReceiptStatus, PaymentStatus, GoodsReceipt, PurchaseOrder,
  PurchasingDb, Voucher, create_payment, find_receipt, LedgerReferenceType, new_entry,
}
use multi_warehouse_manageme.Purchasing.Orders.{
  submit_action, transition, submit, submit_tx, announce_item, try_complete_if_fully_received,
}
use multi_warehouse_manageme.Purchasing.Receipts.{
  confirm, confirm_tx, check_remaining, quantities_from, po_item, movements_of, note_received,
  confirm_item, settle_receipt, amount_due_of, deposit_to_apply, deposit_used, payment_status_of,
  po_ids, is_paid,
}
use multi_warehouse_manageme.Purchasing.Payments.{pay, pay_unpaid, pay_tx}
use multi_warehouse_manageme.Purchasing.Payables.{BooksBalance, paid_by}
use multi_warehouse_manageme.Purchasing.Arrivals.{confirm-stock}
use multi_warehouse_manageme.Purchasing.Received.{pieces_for}
use multi_warehouse_manageme.Purchasing.Remaining.{confirm-within_order}
use multi_warehouse_manageme.Purchasing.Accounts.{Run, Step, Run-BooksBalance}
use multi_warehouse_manageme.Purchasing.Paying.{remaining, pay-ok_iff, pay-settles}

abbrev admin : AuthUser
admin = record {
  user_id = 1;
  is_admin = true;
  location_ids = [];
  admin_warehouse_ids = [];
  system_permissions = [];
  warehouse_permissions = [];
}

abbrev order : PurchaseOrder
order = record {
  id = 1;
  code = 1;
  supplier_id = 3;
  location_id = 2;
  status = PoStatus.draft;
  items = record { variant_id = 7; quantity = 10; unit_price = pos 5; received_quantity = 0 } ∷ [];
  total_quantity = 10;
  total_amount = pos 50;
  deposit_amount = pos 20;
}

abbrev slip : GoodsReceipt
slip = record {
  id = 2;
  code = 1;
  supplier_id = 3;
  location_id = 2;
  purchase_order_id = some 1;
  status = GoodsReceiptStatus.pending;
  payment_status = PaymentStatus.unpaid;
  items =
      record { variant_id = 7; purchase_order_id = none; quantity = 10; unit_price = pos 5 } ∷ [];
  amount_due = pos 0;
  paid_amount = pos 0;
  discount_amount = pos 2;
  extra_cost = pos 1;
  deposit_applied = pos 0;
  received_at = none;
}

abbrev start : PurchasingDb
start = record {
  stock = record { levels = []; movements = []; next_movement_id = 1 };
  suppliers = [];
  locations = [];
  orders = order ∷ [];
  receipts = slip ∷ [];
  returns = [];
  ledger = new_entry 3 LedgerReferenceType.adjustment 0 (pos 4) admin ∷ [];
  vouchers = [];
  logs = [];
  next_id = 3;
}

-- Opens the handlers to a run.
handlers : Unit {0}
unfolding computing transition submit submit_tx announce_item try_complete_if_fully_received confirm
    confirm_tx check_remaining quantities_from po_item movements_of note_received confirm_item
    settle_receipt amount_due_of deposit_to_apply deposit_used payment_status_of po_ids min_ℤ max_ℤ
    pay pay_unpaid pay_tx create_payment find_row update_row delete_row assert_location_permission
    sort_for_locking for_each
handlers = tt

abbrev announced_db : PurchasingDb
unfolding handlers
announced_db = settle start (transition 1 submit_action admin start)

abbrev received_db : PurchasingDb
unfolding handlers
received_db = settle announced_db (confirm 100 2 admin announced_db)

abbrev paid_db : PurchasingDb
unfolding handlers
paid_db = settle received_db (pay none 2 admin received_db)

abbrev arrived : GoodsReceipt
arrived = record slip {
  status = GoodsReceiptStatus.received;
  payment_status = PaymentStatus.partially_paid;
  amount_due = pos 49;
  paid_amount = pos 20;
  deposit_applied = pos 20;
  received_at = some 100;
}

find_arrived : find_receipt 2 received_db.receipts ≡ some arrived
unfolding handlers
find_arrived = refl

find_slip : find_receipt 2 announced_db.receipts ≡ some slip
unfolding handlers
find_slip = refl

announces : transition 1 submit_action admin start ≡ ok (tt, announced_db)
unfolding handlers
announces = refl

confirms : confirm 100 2 admin announced_db ≡ ok (tt, received_db)
unfolding handlers
confirms = refl

pays : pay none 2 admin received_db ≡ ok (tt, paid_db)
unfolding handlers
pays = refl

due_positive : pos 0 ≤ℤ amount_due_of slip
unfolding handlers
due_positive = omega arith

whole-Run : Run start paid_db
whole-Run =
    Run.next
      (Run.next (Run.next Run.here (Step.order_transition 1 submit_action admin announces))
        (Step.receipt_confirm 100 2 admin slip find_slip due_positive confirms))
      (Step.receipt_pay none 2 admin arrived find_arrived pays)

-- The supplier's debt was adjusted by hand before.
abbrev adjusted : ℕ → ℤ
adjusted s = if 3 == s then pos 4 else pos 0

start-BooksBalance : BooksBalance adjusted start
unfolding ◌+ℤ◌
start-BooksBalance s = elim (Bool-cases (3 == s)) [ inl e ↦ rw e | inr e ↦ rw e ]

Run-BooksBalance_example : BooksBalance adjusted paid_db
Run-BooksBalance_example = Run-BooksBalance adjusted whole-Run start-BooksBalance

confirm-stock_example :
    counter 7 2 Bucket.on_hand received_db.stock
    ≡ pos 10 +ℤ counter 7 2 Bucket.on_hand announced_db.stock
unfolding ◌+ℤ◌
confirm-stock_example =
    confirm-stock 100 2 admin announced_db received_db tt slip 7 2 Bucket.on_hand find_slip refl
      confirms

allows :
    assert_location_permission admin ("goods_receipt:pay" ∷ []) 2 received_db ≡ ok (tt, received_db)
unfolding handlers
allows = refl

owes : pos 0 <ℤ remaining arrived
unfolding handlers
owes = omega arith

pay-ok_iff_example :
    ((db' : PurchasingDb) × (pay none 2 admin received_db ≡ ok (tt, db')))
    ↔ ((pos 0 <ℤ remaining arrived) × (remaining arrived ≤ℤ remaining arrived))
pay-ok_iff_example = pay-ok_iff none 2 admin received_db arrived find_arrived refl refl owes allows

pay-settles_example :
    (find_receipt 2 paid_db.receipts ≡ some (paid_by (remaining arrived) arrived arrived))
    × ((is_paid (paid_by (remaining arrived) arrived arrived).payment_status ≡ true)
        ↔ (arrived.paid_amount +ℤ remaining arrived ≡ arrived.amount_due))
    × ((voucher : Voucher) × (voucher.amount_out ≡ remaining arrived)
        × (paid_db.vouchers ≡ voucher ∷ received_db.vouchers))
pay-settles_example =
    pay-settles none 2 admin received_db arrived find_arrived refl refl owes allows paid_db pays

abbrev ordered : PurchaseOrderItem
ordered = record { variant_id = 7; quantity = 10; unit_price = pos 5; received_quantity = 0 }

find_ordered : po_item 1 7 announced_db.orders ≡ some ordered
unfolding handlers
find_ordered = refl

confirm-within_order_example :
    (po_item 1 7 received_db.orders
      ≡ some (record ordered {
        received_quantity = ordered.received_quantity + sum_by (pieces_for slip 1 7) slip.items;
      }))
    × (ordered.received_quantity + sum_by (pieces_for slip 1 7) slip.items ≤ ordered.quantity)
confirm-within_order_example =
    confirm-within_order 100 2 admin announced_db received_db tt slip 1 7 ordered find_slip
      find_ordered (omega arith) confirms
