-- ===== src/Fulfillments/Effects.antt =====
-- What the handlers of fulfillment.service.ts do to the package that they work on.
use multi_warehouse_manageme.Prelude.{
  ℕ, String, ◌≡◌, refl, ap, sym, ◌∙◌, Bool, true, false, ◌==◌, if◌then◌else◌, none, some, List, [],
  ◌∷◌, arith, Bool-cases, Option-cases, inl, inr, map, filter, length,
}
use multi_warehouse_manageme.Prelude.Int.{zero_+ℤ}
use multi_warehouse_manageme.Prelude.Tx.{Tx, ok, ◌>>◌, or_throw, >>=-eq-ok}
use multi_warehouse_manageme.Prelude.Table.{update_row}
use multi_warehouse_manageme.Auth.{AuthUser}
use multi_warehouse_manageme.Inventory.Types.{Bucket}
use multi_warehouse_manageme.Orders.Types.{
  PackingStatus, ShipmentStatus, OrderItem, Order, Fulfillment, OrderDb, find_order, is_set,
  is_paid, update_order, update_fulfillment,
}
use multi_warehouse_manageme.Orders.Posting.{Leg, post_items, post_items-adds, post_items-tables}
use multi_warehouse_manageme.Orders.Refunds.{
  recompute_statuses, with_statuses, refund_lines, line_of, total_refunded_of,
}
use multi_warehouse_manageme.Orders.RefundStatus.{recompute_order_refund_statuses}
use multi_warehouse_manageme.Fulfillments.Service.{
  post_if, packing_legs, unpacking_legs, with_packing, packing_tx, cancel_tx, cancelled_shipment,
  has_no_package, is_pending,
}
use multi_warehouse_manageme.Fulfillments.Shipping.{
  pick_up, pick_up_legs, note_status, deliver, after_delivery, take_back, taken_back_legs,
  cancel_by_carrier, restock, restock_legs, with_status, delivered_at, log_shipment, return_refund,
}
use multi_warehouse_manageme.Fulfillments.Whereabouts.{held, KeepsItems, held-update, Effect}
use multi_warehouse_manageme.Fulfillments.Accounting.{
  when, post_if-adds, post_if-tables, after_posting, updates, keeps,
}

pub packing_tx-Effect :
    (now : ℕ) (f : Fulfillment) (o : Order) (status : PackingStatus) (m : Bool) (user : AuthUser)
    (db db' : OrderDb) (u : Unit {0})
    → packing_tx now f o status m user db ≡ ok (u, db')
    → Effect db db' f (with_packing now status m) o (when m packing_legs)
unfolding packing_tx
packing_tx-Effect now f o status m user db db' u h =
    let (w, db₁, posted, last) = >>=-eq-ok (post_if m o user packing_legs) _ db h in
    let same : db'.orders ≡ db₁.orders = ground (arith, last) in
    after_posting db db₁ db' f (with_packing now status m) o (when m packing_legs)
      (post_if-tables m o user packing_legs db db₁ w posted)
      (λ v l c g. post_if-adds m o user packing_legs db db₁ w v l c g posted) (ground (arith, last))
      (λ v l c x. ap (λ os. held os v l c x) same) (ground (arith, last))

-- `cancel` works on a row that is open.
abbrev pub cancelled_row : ℕ → Fulfillment → Fulfillment → Fulfillment
cancelled_row now f row = record row {
  shipment_status = cancelled_shipment f.shipment_status;
  cancelled_on = some now;
  closed_at = some now;
}

pub cancel_tx-Effect :
    (now : ℕ) (f : Fulfillment) (o : Order) (user : AuthUser) (db db' : OrderDb) (u : Unit {0})
    → cancel_tx now f o user db ≡ ok (u, db')
    → Effect db db' f (cancelled_row now f) o (when (is_set f.packed_on) unpacking_legs)
unfolding cancel_tx
cancel_tx-Effect now f o user db db' u h =
    let m = is_set f.packed_on in
    let (w, db₁, posted, last) = >>=-eq-ok (post_if m o user unpacking_legs) _ db h in
    after_posting db db₁ db' f (cancelled_row now f) o (when m unpacking_legs)
      (post_if-tables m o user unpacking_legs db db₁ w posted)
      (λ v l c g. post_if-adds m o user unpacking_legs db db₁ w v l c g posted)
      (ground (arith, last))
      (updates o.id has_no_package db₁ db' (keeps (λ x. refl) (λ x. refl) (λ x. refl))
        (ground (arith, last)))
      (ground (arith, last))

abbrev pub picked_up_row : ℕ → Fulfillment → Fulfillment
picked_up_row now row = record row {
  shipment_status = some ShipmentStatus.picked_up;
  picked_up_at = some now;
}

pub pick_up-Effect :
    (now : ℕ) (f : Fulfillment) (o : Order) (user : AuthUser) (db db' : OrderDb) (u : Unit {0})
    → pick_up now f o user db ≡ ok (u, db')
    → Effect db db' f (picked_up_row now) o (pick_up_legs f)
unfolding pick_up
pick_up-Effect now f o user db db' u h =
    let legs = pick_up_legs f in
    let (w, db₁, posted, last) = >>=-eq-ok (post_items o user legs o.items) _ db h in
    after_posting db db₁ db' f (picked_up_row now) o legs
      (post_items-tables o user legs o.items db db₁ w posted)
      (λ v l c g. post_items-adds o user v l c g legs o.items db db₁ w posted)
      (ground (arith, last))
      (updates f.order_id (delivered_at (some now)) db₁ db'
        (keeps (λ x. refl) (λ x. refl) (λ x. refl)) (ground (arith, last)))
      (ground (arith, last))

pub note_status-Effect :
    (s : ShipmentStatus) (action : String) (f : Fulfillment) (o : Order) (user : AuthUser)
    (db db' : OrderDb) (u : Unit {0})
    → note_status s action f o user db ≡ ok (u, db')
    → Effect db db' f (with_status s) o []
unfolding note_status
note_status-Effect s action f o user db db' u h =
    let same : db'.orders ≡ db.orders = ground arith in
    after_posting db db db' f (with_status s) o [] refl (λ v l c g. sym (zero_+ℤ _)) (ground arith)
      (λ v l c x. ap (λ os. held os v l c x) same) (ground arith)

abbrev pub delivered_row : ℕ → Fulfillment → Fulfillment
delivered_row now row = record row {
  shipment_status = some ShipmentStatus.delivered;
  delivered_on = some now;
  closed_at = some now;
}

after_delivery-keeps : (now : ℕ) (paid : Bool) → KeepsItems (after_delivery now paid)
after_delivery-keeps now true = keeps (λ x. refl) (λ x. refl) (λ x. refl)
after_delivery-keeps now false = keeps (λ x. refl) (λ x. refl) (λ x. refl)

pub deliver-Effect :
    (now : ℕ) (f : Fulfillment) (o : Order) (user : AuthUser) (db db' : OrderDb) (u : Unit {0})
    → deliver now f o user db ≡ ok (u, db')
    → Effect db db' f (delivered_row now) o []
unfolding deliver
deliver-Effect now f o user db db' u h =
    let paid = is_paid o.financial_status in
    let done : db'.orders ≡ update_row Order.id f.order_id (after_delivery now paid) db.orders =
      cc in
    after_posting db db db' f (delivered_row now) o [] refl (λ v l c g. sym (zero_+ℤ _)) (cc)
      (updates f.order_id (after_delivery now paid) db db' (after_delivery-keeps now paid) done)
      (cc)

abbrev pub carrier_cancelled_row : ℕ → Fulfillment → Fulfillment
carrier_cancelled_row now row = record row {
  shipment_status = some ShipmentStatus.cancelled;
  cancelled_on = some now;
  closed_at = some now;
}

abbrev pub take_back_legs : Fulfillment → List Leg
take_back_legs f =
    if is_pending f.shipment_status
    then when (is_set f.packed_on) unpacking_legs
    else taken_back_legs

abbrev clears : Fulfillment → Tx OrderDb (Unit {0})
clears f = update_order f.order_id (delivered_at none)

-- What follows the postings in the branch for `cancelled`.
abbrev closes : ℕ → Fulfillment → Order → AuthUser → Tx OrderDb (Unit {0})
closes now f o user = do
  update_fulfillment f.id (carrier_cancelled_row now)
  update_order f.order_id has_no_package
  log_shipment f o "fulfillment.cancel" user

closes-writes :
    (now : ℕ) (f : Fulfillment) (o : Order) (user : AuthUser) (db db' : OrderDb) (u : Unit {0})
    → closes now f o user db ≡ ok (u, db')
    → (db'.fulfillments
        ≡ update_row Fulfillment.id f.id (carrier_cancelled_row now) db.fulfillments)
      × (db'.stock ≡ db.stock)
      × (db'.orders ≡ update_row Order.id f.order_id has_no_package db.orders)
closes-writes now f o user db db' u h = (cc, cc, cc)

clears-writes :
    (f : Fulfillment) (db db' : OrderDb) (u : Unit {0})
    → clears f db ≡ ok (u, db')
    → (db'.fulfillments ≡ db.fulfillments)
      × (db'.stock ≡ db.stock)
      × (db'.orders ≡ update_row Order.id f.order_id (delivered_at none) db.orders)
clears-writes f db db' u h = (cc, cc, cc)

shipped-Effect :
    (now : ℕ) (f : Fulfillment) (o : Order) (user : AuthUser) (db db₁ db₂ db' : OrderDb)
    (w w₁ u : Unit {0})
    → post_items o user taken_back_legs o.items db ≡ ok (w, db₁)
    → clears f db₁ ≡ ok (w₁, db₂)
    → closes now f o user db₂ ≡ ok (u, db')
    → Effect db db' f (carrier_cancelled_row now) o taken_back_legs
shipped-Effect now f o user db db₁ db₂ db' w w₁ u posted cleared closed =
    let (rows, stock, orders) = closes-writes now f o user db₂ db' u closed in
    let (rows₁, stock₁, orders₁) = clears-writes f db₁ db₂ w₁ cleared in
    after_posting db db₁ db' f (carrier_cancelled_row now) o taken_back_legs
      (post_items-tables o user taken_back_legs o.items db db₁ w posted)
      (λ v l c g. post_items-adds o user v l c g taken_back_legs o.items db db₁ w posted)
      (rows ∙ ap (update_row Fulfillment.id f.id (carrier_cancelled_row now)) rows₁)
      (λ v l c x.
        updates f.order_id has_no_package db₂ db' (keeps (λ x. refl) (λ x. refl) (λ x. refl)) orders
          v l c x
        ∙ updates f.order_id (delivered_at none) db₁ db₂ (keeps (λ x. refl) (λ x. refl) (λ x. refl))
            orders₁ v l c x)
      (stock ∙ stock₁)

waiting-Effect :
    (now : ℕ) (f : Fulfillment) (o : Order) (user : AuthUser) (m : Bool) (db db₁ db' : OrderDb)
    (w u : Unit {0})
    → post_if m o user unpacking_legs db ≡ ok (w, db₁)
    → closes now f o user db₁ ≡ ok (u, db')
    → Effect db db' f (carrier_cancelled_row now) o (when m unpacking_legs)
waiting-Effect now f o user m db db₁ db' w u posted closed =
    let (rows, stock, orders) = closes-writes now f o user db₁ db' u closed in
    after_posting db db₁ db' f (carrier_cancelled_row now) o (when m unpacking_legs)
      (post_if-tables m o user unpacking_legs db db₁ w posted)
      (λ v l c g. post_if-adds m o user unpacking_legs db db₁ w v l c g posted) rows
      (updates f.order_id has_no_package db₁ db' (keeps (λ x. refl) (λ x. refl) (λ x. refl)) orders)
      stock

pub cancel_by_carrier-Effect :
    (now : ℕ) (f : Fulfillment) (o : Order) (user : AuthUser) (db db' : OrderDb) (u : Unit {0})
    → cancel_by_carrier now f o user db ≡ ok (u, db')
    → Effect db db' f (carrier_cancelled_row now) o (take_back_legs f)
unfolding cancel_by_carrier take_back
cancel_by_carrier-Effect now f o user db db' u h =
    elim (Bool-cases (is_pending f.shipment_status)) [
      | inl waiting ↦
          let m = is_set f.packed_on in
          let (w, db₁, posted, last) =
            >>=-eq-ok (post_if m o user unpacking_legs) (λ _. closes now f o user) db
              (rw waiting at h) in
          rw waiting (waiting-Effect now f o user m db db₁ db' w u posted last)
      | inr shipped ↦
          let (w₁, db₂, first, last) =
            >>=-eq-ok (post_items o user taken_back_legs o.items >> clears f)
              (λ _. closes now f o user) db (rw shipped at h) in
          let (w, db₁, posted, cleared) =
            >>=-eq-ok (post_items o user taken_back_legs o.items) (λ _. clears f) db first in
          rw shipped (shipped-Effect now f o user db db₁ db₂ db' w w₁ u posted cleared last)
    ]

recompute-keeps :
    (id : ℕ) (db db' : OrderDb) (u : Unit {0})
    → recompute_statuses id db ≡ ok (u, db')
    → (db'.fulfillments ≡ db.fulfillments)
      × (db'.stock ≡ db.stock)
      × ((v l : ℕ) (c : Bucket) (h : Fulfillment)
          → held db'.orders v l c h ≡ held db.orders v l c h)
unfolding recompute_statuses
recompute-keeps id db db' u h = elim (Option-cases (find_order id db.orders)) [
  | inl e ↦ absurd (cc (rw e at h))
  | inr (o, e) ↦
      let s =
        recompute_order_refund_statuses o.total_price (map OrderItem.quantity o.items)
          (map line_of (refund_lines id db.refunds))
          (length (filter (λ i. i == id) db.open_returns)) (total_refunded_of id db.refunds) in
      let done = rw (e, or_throw) at h in
      (
        cc done,
        cc done,
        updates id (with_statuses s) db db' (keeps (λ x. refl) (λ x. refl) (λ x. refl)) (cc done),
      )
]

abbrev pub returned_row : ℕ → Fulfillment → Fulfillment
returned_row now row = record row {
  shipment_status = some ShipmentStatus.returned;
  returned_at = some now;
  closed_at = some now;
}

abbrev noted : ℕ → Fulfillment → Order → OrderDb → OrderDb
noted now f o db = record db {
  refunds = return_refund f o ∷ db.refunds;
  fulfillments = update_row Fulfillment.id f.id (returned_row now) db.fulfillments;
  orders = update_row Order.id f.order_id (delivered_at none) db.orders;
}

pub restock-Effect :
    (now : ℕ) (f : Fulfillment) (o : Order) (user : AuthUser) (db db' : OrderDb) (u : Unit {0})
    → restock now f o user db ≡ ok (u, db')
    → Effect db db' f (returned_row now) o restock_legs
unfolding restock
restock-Effect now f o user db db' u h =
    let (w, db₁, posted, rest) = >>=-eq-ok (post_items o user restock_legs o.items) _ db h in
    let db₂ = noted now f o db₁ in
    let (w₂, db₃, computed, last) = >>=-eq-ok (recompute_statuses f.order_id) _ db₂ rest in
    let (rows, stock, orders) = recompute-keeps f.order_id db₂ db₃ w₂ computed in
    let same : db'.orders ≡ db₃.orders = cc last in
    after_posting db db₁ db' f (returned_row now) o restock_legs
      (post_items-tables o user restock_legs o.items db db₁ w posted)
      (λ v l c g. post_items-adds o user v l c g restock_legs o.items db db₁ w posted)
      (cc (last, rows))
      (λ v l c x.
        ap (λ os. held os v l c x) same
        ∙ orders v l c x
        ∙ held-update f.order_id (delivered_at none) db₁.orders v l c x
            (keeps (λ x. refl) (λ x. refl) (λ x. refl)))
      (cc (last, stock))
