-- ===== src/Purchasing/Receipts.antt =====
-- `confirm` of src/modules/purchasing/goods-receipt.service.ts. A handler reads the receipt first and then runs
-- a transaction on what it has read; here both are one step. The answer is left out.
use multi_warehouse_manageme.Prelude.{
  ℕ, ◌+◌, Bool, true, false, not, ◌&&◌, ◌||◌, ◌==◌, if◌then◌else◌, Option, none, some, List, [],
  ◌∷◌, String, map,
}
use multi_warehouse_manageme.Prelude.Int.{min_ℤ, max_ℤ, ℤ, pos, neg, ◌+ℤ◌, ◌-ℤ◌, ltb_ℤ, leb_ℤ}
use multi_warehouse_manageme.Prelude.Sums.{sum_ℤ}
use multi_warehouse_manageme.Prelude.Tx.{
  Tx, ◌>>=◌, ◌>>◌, return, throw_if, or_throw, gets, modify, for_each, invalid_transition,
  not_found, validation_error, incoming_exceeds_po,
}
use multi_warehouse_manageme.Prelude.Table.{find_row, update_row}
use multi_warehouse_manageme.Auth.{AuthUser, assert_location_permission}
use multi_warehouse_manageme.Inventory.Types.{Bucket, MovementType, ApplyMovementInput}
use multi_warehouse_manageme.Inventory.Service.{apply_movements}
use multi_warehouse_manageme.Inventory.Locking.{Lockable, sort_for_locking}
use multi_warehouse_manageme.Inventory.Lines.{on_stock}
use multi_warehouse_manageme.Purchasing.Types.{
  GoodsReceiptStatus, PaymentStatus, LedgerReferenceType, PurchaseOrderItem, PurchaseOrder,
  GoodsReceiptItem, GoodsReceipt, PurchasingDb, stock_in, find_order, find_receipt, write_log,
  write_entry, line_amount,
}
use multi_warehouse_manageme.Purchasing.Orders.{remaining_of, try_complete_if_fully_received}

abbrev pub by_variant : Lockable GoodsReceiptItem
by_variant = record { variant_id = GoodsReceiptItem.variant_id; location_id = λ _. none }

abbrev pub is_receipt_status : GoodsReceiptStatus → GoodsReceiptStatus → Bool
is_receipt_status GoodsReceiptStatus.pending GoodsReceiptStatus.pending = true
is_receipt_status GoodsReceiptStatus.received GoodsReceiptStatus.received = true
is_receipt_status GoodsReceiptStatus.cancelled GoodsReceiptStatus.cancelled = true
is_receipt_status _ _ = false

abbrev pub is_paid : PaymentStatus → Bool
is_paid PaymentStatus.paid = true
is_paid _ = false

abbrev pub rei_write : List String
rei_write = "goods_receipt:manage" ∷ []

abbrev pub read_receipt : ℕ → Tx PurchasingDb GoodsReceipt
read_receipt id db = or_throw (find_receipt id db.receipts) not_found db

abbrev pub update_receipt : ℕ → (GoodsReceipt → GoodsReceipt) → Tx PurchasingDb (Unit {0})
update_receipt id f =
    modify (λ db. record db { receipts = update_row GoodsReceipt.id id f db.receipts })

-- `a ?? b`
abbrev pub or_else : Option ℕ → Option ℕ → Option ℕ
or_else none b = b
or_else (some a) b = some a

-- `poIdOf`: the order of the line, or else that of the receipt.
abbrev pub po_id_of : GoodsReceipt → GoodsReceiptItem → Option ℕ
po_id_of rei item = or_else item.purchase_order_id rei.purchase_order_id

-- The line of an order with a variant: the key (order, variant) is unique.
abbrev pub find_item : ℕ → List PurchaseOrderItem → Option PurchaseOrderItem
find_item = find_row PurchaseOrderItem.variant_id

abbrev pub find_items_of : Option PurchaseOrder → ℕ → Option PurchaseOrderItem
find_items_of none v = none
find_items_of (some po) v = find_item v po.items

-- `poItemMap.get(key)`: what the transaction has read, which its writes keep equal to the row.
unfoldable pub po_item : ℕ → ℕ → List PurchaseOrder → Option PurchaseOrderItem
po_item po_id v orders = find_items_of (find_order po_id orders) v

-- `[...new Set(…)]`
abbrev pub contains : ℕ → List ℕ → Bool
contains a [] = false
contains a (x ∷ xs) = x == a || contains a xs

unfoldable pub distinct_from : List ℕ → List (Option ℕ) → List ℕ
distinct_from seen [] = []
distinct_from seen (none ∷ ids) = distinct_from seen ids
distinct_from seen (some id ∷ ids) =
    let rest = distinct_from seen ids in
    let first = id ∷ distinct_from (id ∷ seen) ids in if contains id seen then rest else first

unfoldable pub po_ids : GoodsReceipt → List ℕ
unfolding distinct_from
po_ids rei = distinct_from [] (map (po_id_of rei) rei.items)

-- `qtyByPoVariant.set(key, (qtyByPoVariant.get(key) ?? 0) + item.quantity)`
unfoldable pub add_quantity : ℕ → ℕ → ℕ → List (ℕ × ℕ × ℕ) → List (ℕ × ℕ × ℕ)
add_quantity p v q [] = (p, v, q) ∷ []
add_quantity p v q ((p', v', n) ∷ rest) =
    if p' == p && v' == v then (p', v', n + q) ∷ rest else (p', v', n) ∷ add_quantity p v q rest

unfoldable pub quantities_from :
    GoodsReceipt → List (ℕ × ℕ × ℕ) → List GoodsReceiptItem → List (ℕ × ℕ × ℕ)
unfolding add_quantity
quantities_from rei acc [] = acc
quantities_from rei acc (item ∷ items) =
    quantities_from rei
      (elim (po_id_of rei item) [
        | none ↦ acc
        | some p ↦ add_quantity p item.variant_id item.quantity acc
      ])
      items

-- A round of the check of what is ordered and not yet received.
unfoldable pub check_remaining : List PurchaseOrder → ℕ × ℕ × ℕ → Tx PurchasingDb (Unit {0})
check_remaining orders (p, v, qty) = do
  item ← or_throw (po_item p v orders) validation_error
  throw_if (ltb_ℤ (remaining_of item) (pos qty)) incoming_exceeds_po

abbrev pub receipt_movement :
    GoodsReceipt
    → AuthUser
    → GoodsReceiptItem
    → Bucket
    → ℤ
    → MovementType
    → Option ℤ
    → ApplyMovementInput
receipt_movement rei user item bucket change type cost = record {
  variant_id = item.variant_id;
  location_id = rei.location_id;
  bucket = bucket;
  change = change;
  type = type;
  reference_type = some "goods_receipt";
  reference_id = some rei.id;
  created_by_id = some user.user_id;
  price = none;
  cost = cost;
}

abbrev pub has_order : Option ℕ → Bool
has_order none = false
has_order (some _) = true

-- The movements of a line: what an order announced arrives, and the stock grows.
unfoldable pub movements_of : GoodsReceipt → AuthUser → GoodsReceiptItem → List ApplyMovementInput
movements_of rei user item =
    let stocked =
      receipt_movement rei user item Bucket.on_hand (pos item.quantity) MovementType.receipt
        (some item.unit_price) in
    if has_order (po_id_of rei item)
    then receipt_movement rei user item Bucket.incoming (neg (pos item.quantity))
        MovementType.incoming_receipt none
      ∷ stocked
      ∷ []
    else stocked ∷ []

abbrev pub add_received : ℕ → PurchaseOrderItem → PurchaseOrderItem
add_received q item = record item { received_quantity = item.received_quantity + q }

-- `purchaseOrderItem.update` for a line of an order; nothing is written where there is none.
unfoldable pub note_received : Option ℕ → ℕ → ℕ → List PurchaseOrder → List PurchaseOrder
note_received none v q orders = orders
note_received (some p) v q orders =
    update_row PurchaseOrder.id p
      (λ po. record po {
        items = update_row PurchaseOrderItem.variant_id v (add_received q) po.items;
      })
      orders

unfoldable pub confirm_item :
    GoodsReceipt → AuthUser → GoodsReceiptItem → Tx PurchasingDb (Unit {0})
confirm_item rei user item = do
  on_stock stock_in (apply_movements (movements_of rei user item))
  modify (λ db. record db {
    orders = note_received (po_id_of rei item) item.variant_id item.quantity db.orders;
  })

-- `amountDue` after the loop, with the discount and the extra cost.
unfoldable pub amount_due_of : GoodsReceipt → ℤ
amount_due_of rei =
    sum_ℤ (λ i. line_amount i.quantity i.unit_price) rei.items
    -ℤ rei.discount_amount
    +ℤ rei.extra_cost

abbrev pub is_some_of : ℕ → Option ℕ → Bool
is_some_of p none = false
is_some_of p (some q) = q == p

-- The deposit of an order that receipts have used up, one of them left out.
unfoldable pub deposit_used : ℕ → ℕ → List GoodsReceipt → ℤ
deposit_used p id = sum_ℤ (λ (r : GoodsReceipt).
    if is_some_of p r.purchase_order_id && not (r.id == id) then r.deposit_applied else pos 0)

abbrev pub deposit_of : Option PurchaseOrder → ℤ
deposit_of none = pos 0
deposit_of (some po) = po.deposit_amount

-- `depositApplied`
unfoldable pub deposit_to_apply : GoodsReceipt → ℤ → List PurchaseOrder → List GoodsReceipt → ℤ
deposit_to_apply rei amount_due orders receipts = elim rei.purchase_order_id [
  | none ↦ pos 0
  | some p ↦
      let deposit = deposit_of (find_order p orders) in
      let available = deposit -ℤ deposit_used p rei.id receipts in
      if ltb_ℤ (pos 0) deposit then min_ℤ (max_ℤ available (pos 0)) amount_due else pos 0
]

-- `paymentStatus` of a receipt that is confirmed.
unfoldable pub payment_status_of : ℤ → ℤ → PaymentStatus
payment_status_of amount_due deposit_applied =
    if leb_ℤ amount_due (pos 0) || leb_ℤ amount_due deposit_applied
    then PaymentStatus.paid
    else if ltb_ℤ (pos 0) deposit_applied
    then PaymentStatus.partially_paid
    else PaymentStatus.unpaid

abbrev pub write_deposit_entry : GoodsReceipt → AuthUser → ℤ → Tx PurchasingDb (Unit {0})
write_deposit_entry rei user deposit_applied =
    if ltb_ℤ (pos 0) deposit_applied
    then write_entry rei.supplier_id LedgerReferenceType.payment rei.code deposit_applied user
    else return tt

-- The entries of `confirm` in the supplier's ledger.
abbrev pub write_entries : GoodsReceipt → AuthUser → ℤ → ℤ → Tx PurchasingDb (Unit {0})
write_entries rei user amount_due deposit_applied = do
  write_entry rei.supplier_id LedgerReferenceType.goods_receipt rei.code (neg amount_due) user
  write_deposit_entry rei user deposit_applied

-- What `confirm` makes of the row.
abbrev pub confirmed : ℕ → ℤ → ℤ → GoodsReceipt → GoodsReceipt
confirmed now amount_due deposit_applied row = record row {
  status = GoodsReceiptStatus.received;
  amount_due = amount_due;
  received_at = some now;
  deposit_applied = deposit_applied;
  paid_amount = deposit_applied;
  payment_status = payment_status_of amount_due deposit_applied;
}

-- The end of the transaction of `confirm`, after the loop over the lines.
unfoldable pub settle_receipt : ℕ → GoodsReceipt → AuthUser → Tx PurchasingDb (Unit {0})
settle_receipt now rei user = do
  db ← gets (λ db. db)
  let amount_due = amount_due_of rei
  let applied = deposit_to_apply rei amount_due db.orders db.receipts
  update_receipt rei.id (confirmed now amount_due applied)
  for_each (try_complete_if_fully_received user) (po_ids rei)
  write_entries rei user amount_due applied
  write_log user "goods_receipt.confirm" rei.id rei.code

-- The transaction of `confirm`, at the time `now`.
unfoldable pub confirm_tx : ℕ → GoodsReceipt → AuthUser → Tx PurchasingDb (Unit {0})
confirm_tx now rei user = do
  orders ← gets PurchasingDb.orders
  for_each (check_remaining orders) (quantities_from rei [] rei.items)
  for_each (confirm_item rei user) (sort_for_locking by_variant rei.items)
  settle_receipt now rei user

-- `confirm`
unfoldable pub confirm : ℕ → ℕ → AuthUser → Tx PurchasingDb (Unit {0})
confirm now id user = do
  rei ← read_receipt id
  throw_if (is_receipt_status rei.status GoodsReceiptStatus.received) invalid_transition
  throw_if (is_receipt_status rei.status GoodsReceiptStatus.cancelled) invalid_transition
  assert_location_permission user rei_write rei.location_id
  confirm_tx now rei user
