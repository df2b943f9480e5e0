-- ===== src/Orders/Stocking.antt =====
-- `transition` of order.service.ts: what each action does to the stock.
use mathlib.Core.Path.{subst}
use multi_warehouse_manageme.Prelude.{
  ℕ, ◌≡◌, ap, sym, ◌∙◌, Bool, true, false, not, ◌&&◌, ◌||◌, Option, none, some, List, [], ◌∷◌,
  Bool-cases, Option-cases, inl, inr, String,
}
use multi_warehouse_manageme.Prelude.Int.{ℤ, pos, neg, ◌+ℤ◌, zero_+ℤ, ltb_ℤ}
use multi_warehouse_manageme.Prelude.Sums.{sum_ℤ}
use multi_warehouse_manageme.Prelude.Tx.{
  ok, or_throw, >>=-eq-ok, throw_if-passes, invalid_transition, after_reading,
}
use multi_warehouse_manageme.Auth.{AuthUser, assert_location_permission}
use multi_warehouse_manageme.Inventory.Types.{Bucket, MovementType}
use multi_warehouse_manageme.Inventory.Levels.{is_ledger}
use multi_warehouse_manageme.Inventory.Effect.{counter}
use multi_warehouse_manageme.Orders.Types.{
  Order, OrderItem, OrderDb, CustomerReferenceType, find_order, is_set, is_closed, record_entry,
  write_log,
}
use multi_warehouse_manageme.Orders.Refunds.{recompute_statuses, refund_lines}
use multi_warehouse_manageme.Orders.Posting.{
  Leg, leave, leg_share, pieces, post_items, post_items-adds,
}
use multi_warehouse_manageme.Orders.Outstanding.{outstanding, remaining-pieces}
use multi_warehouse_manageme.Inventory.Lines.{pieces_of}
use multi_warehouse_manageme.Orders.Service.{
  OrderAction, transition, run_action, permission_by_action, read_order, process, cancel_order,
  cancel_tx, cancel_books, add_cancel_refund, is_empty, remaining_items, release_legs, ship_legs,
  ship_order, ship_tx, ship_order_items, complete_order, complete_tx, ship_unless, is_ordered,
  is_processing, assert_no_open_fulfillment, assert_not_returned,
}
use multi_warehouse_manageme.Orders.Cancelling.{cancelled_in}
use multi_warehouse_manageme.Orders.Transitions.{
  read_order-Reads, read_order-finds, permission-Reads, no_open-Reads, not_returned-Reads,
}

-- The buckets that an action takes the pieces out of: shipping takes them from `on_hand` and
-- `committed`, completing does so unless they have left before, cancelling frees what is committed.
abbrev pub legs_of : OrderAction → Bool → List Leg
legs_of OrderAction.processing delivered = []
legs_of OrderAction.cancel delivered = leave Bucket.committed MovementType.order_release ∷ []
legs_of OrderAction.ship delivered =
    leave Bucket.on_hand MovementType.order_ship
    ∷ leave Bucket.committed MovementType.order_ship
    ∷ []
legs_of OrderAction.complete true = []
legs_of OrderAction.complete false =
    leave Bucket.on_hand MovementType.order_ship
    ∷ leave Bucket.committed MovementType.order_ship
    ∷ []

-- The pieces of an item that it takes: cancelling leaves out what has come back.
abbrev pub taken : OrderAction → Order → OrderDb → OrderItem → ℕ
taken OrderAction.cancel o db i = outstanding o.id db.refunds i
taken OrderAction.processing o db i = i.quantity
taken OrderAction.ship o db i = i.quantity
taken OrderAction.complete o db i = i.quantity

recompute-stock :
    (id : ℕ) (db db' : OrderDb) (u : Unit {0})
    → recompute_statuses id db ≡ ok (u, db')
    → db'.stock ≡ db.stock
unfolding recompute_statuses
recompute-stock id db db' u h = elim (Option-cases (find_order id db.orders)) [
  | inl e ↦ absurd (cc (rw e at h))
  | inr (o, e) ↦ cc (rw (e, or_throw) at h)
]

record_entry-stock :
    (customer : Option ℕ) (t : CustomerReferenceType) (code : ℕ) (amount : ℤ) (user : AuthUser)
    (db db' : OrderDb) (u : Unit {0})
    → record_entry customer t code amount user db ≡ ok (u, db')
    → db'.stock ≡ db.stock
record_entry-stock none t code amount user db db' u h = cc h
record_entry-stock (some x) t code amount user db db' u h = cc h

add_cancel_refund-stock :
    (o : Order) (items : List OrderItem) (db db' : OrderDb) (u : Unit {0})
    → add_cancel_refund o items db ≡ ok (u, db')
    → db'.stock ≡ db.stock
add_cancel_refund-stock o items db db' u h =
    elim (Bool-cases (not (is_empty items) || ltb_ℤ (pos 0) o.total_received)) [
      | inl t ↦ cc (rw t at h)
      | inr t ↦ cc (rw t at h)
    ]

write_log-stock :
    (user : AuthUser) (action : String) (id code : ℕ) (db db' : OrderDb) (u : Unit {0})
    → write_log user action id code db ≡ ok (u, db')
    → db'.stock ≡ db.stock
write_log-stock user action id code db db' u h = cc h

cancel_books-stock :
    (now : ℕ) (o : Order) (items : List OrderItem) (user : AuthUser) (db db' : OrderDb)
    (u : Unit {0})
    → cancel_books now o items user db ≡ ok (u, db')
    → db'.stock ≡ db.stock
unfolding cancel_books
cancel_books-stock now o items user db db' u h =
    let (w₁, db₁, entered, h₁) =
      >>=-eq-ok
        (record_entry o.customer_id CustomerReferenceType.order o.code (neg o.total_price) user) _
        db h in
    let (w₂, db₂, refunded, h₂) = >>=-eq-ok (add_cancel_refund o items) _ db₁ h₁ in
    let (w₄, db₄, computed, h₄) =
      >>=-eq-ok (recompute_statuses o.id) _ (cancelled_in now o db₂) h₂ in
    write_log-stock user "order.cancel" o.id o.code db₄ db' u h₄
    ∙ recompute-stock o.id (cancelled_in now o db₂) db₄ w₄ computed
    ∙ add_cancel_refund-stock o items db₁ db₂ w₂ refunded
    ∙ record_entry-stock o.customer_id CustomerReferenceType.order o.code (neg o.total_price) user
        db db₁ w₁ entered

module _ (user : AuthUser) (v l : ℕ) (c : Bucket) (g : is_ledger c ≡ true) where
  -- The stock, after legs are posted for a number of pieces of the variant.
  abbrev Takes : Order → ℕ → List Leg → OrderDb → OrderDb → Type 0
  Takes o n legs db db' =
      counter v l c db'.stock ≡ sum_ℤ (leg_share o n l c) legs +ℤ counter v l c db.stock

  -- The pieces of the variant that an action takes.
  abbrev taken_pieces : OrderAction → Order → OrderDb → ℕ
  taken_pieces action o db = pieces_of OrderItem.variant_id (taken action o db) v o.items

  Takes-none : (o : Order) (n : ℕ) (db db' : OrderDb) → db'.stock ≡ db.stock → Takes o n [] db db'
  Takes-none o n db db' e = ap (counter v l c) e ∙ sym (zero_+ℤ _)

  then_same :
      (o : Order) (items : List OrderItem) (legs : List Leg) (db db₁ db' : OrderDb) (w : Unit {0})
      → post_items o user legs items db ≡ ok (w, db₁)
      → db'.stock ≡ db₁.stock
      → Takes o (pieces v items) legs db db'
  then_same o items legs db db₁ db' w posted e =
      ap (counter v l c) e ∙ post_items-adds o user v l c g legs items db db₁ w posted

  cancel-Takes :
      (now : ℕ) (o : Order) (db db' : OrderDb) (u : Unit {0})
      → cancel_order now o user db ≡ ok (u, db')
      → Takes o (taken_pieces OrderAction.cancel o db) release_legs db db'
  unfolding cancel_order cancel_tx
  cancel-Takes now o db db' u h =
      let left = remaining_items (refund_lines o.id db.refunds) o.items in
      let (live, h₁) =
        throw_if-passes (not (is_ordered o) && not (is_processing o)) invalid_transition _ db h in
      let (w, free, h₂) =
        after_reading (assert_no_open_fulfillment o.id) _ db (no_open-Reads o.id) h₁ in
      let (kept, h₃) = throw_if-passes (is_set o.delivered_on) invalid_transition _ db h₂ in
      let (w', db₁, posted, last) = >>=-eq-ok (post_items o user release_legs left) _ db h₃ in
      subst (λ n. Takes o n release_legs db db') (remaining-pieces o.id v db.refunds o.items)
        (then_same o left release_legs db db₁ db' w' posted
          (cancel_books-stock now o left user db₁ db' u last))

  ship_tx-Takes :
      (now : ℕ) (o : Order) (db db' : OrderDb) (u : Unit {0})
      → ship_tx now o user db ≡ ok (u, db')
      → Takes o (pieces v o.items) ship_legs db db'
  unfolding ship_tx ship_order_items
  ship_tx-Takes now o db db' u h =
      let (w, db₁, posted, last) = >>=-eq-ok (post_items o user ship_legs o.items) _ db h in
      then_same o o.items ship_legs db db₁ db' w posted (cc last)

  ship-Takes :
      (now : ℕ) (o : Order) (db db' : OrderDb) (u : Unit {0})
      → ship_order now o user db ≡ ok (u, db')
      → Takes o (pieces v o.items) ship_legs db db'
  unfolding ship_order
  ship-Takes now o db db' u h =
      let (live, h₁) = throw_if-passes (not (is_processing o)) invalid_transition _ db h in
      let (w, free, h₂) =
        after_reading (assert_no_open_fulfillment o.id) _ db (no_open-Reads o.id) h₁ in
      let (w', kept, h₃) =
        after_reading (assert_not_returned o.id) _ db (not_returned-Reads o.id) h₂ in
      let (here, h₄) = throw_if-passes (is_set o.delivered_on) invalid_transition _ db h₃ in
      ship_tx-Takes now o db db' u h₄

  unless-Takes :
      (b : Bool) (o : Order) (db db₁ db' : OrderDb) (w : Unit {0})
      → ship_unless b o user db ≡ ok (w, db₁)
      → db'.stock ≡ db₁.stock
      → Takes o (pieces v o.items) (legs_of OrderAction.complete b) db db'
  unless-Takes true o db db₁ db' w h e = Takes-none o (pieces v o.items) db db' (e ∙ cc h)
  unless-Takes false o db db₁ db' w h e = then_same o o.items ship_legs db db₁ db' w h e

  complete-Takes :
      (now : ℕ) (o : Order) (db db' : OrderDb) (u : Unit {0})
      → complete_order now o user db ≡ ok (u, db')
      → Takes o (pieces v o.items) (legs_of OrderAction.complete (is_set o.delivered_on)) db db'
  unfolding complete_order complete_tx
  complete-Takes now o db db' u h =
      let b = is_set o.delivered_on in
      let (running, h₁) = throw_if-passes (is_closed o.status) invalid_transition _ db h in
      let (live, h₂) = throw_if-passes (not (is_processing o)) invalid_transition _ db h₁ in
      let (w, free, h₃) =
        after_reading (assert_no_open_fulfillment o.id) _ db (no_open-Reads o.id) h₂ in
      let (w', kept, h₄) =
        after_reading (assert_not_returned o.id) _ db (not_returned-Reads o.id) h₃ in
      let (w'', db₁, shipped, last) = >>=-eq-ok (ship_unless b o user) _ db h₄ in
      unless-Takes b o db db₁ db' w'' shipped (cc last)

  run-Takes :
      (action : OrderAction) (now : ℕ) (o : Order) (db db' : OrderDb) (u : Unit {0})
      → run_action action now o user db ≡ ok (u, db')
      → Takes o (taken_pieces action o db) (legs_of action (is_set o.delivered_on)) db db'
  unfolding process
  run-Takes OrderAction.processing now o db db' u h =
      let (live, last) = throw_if-passes (not (is_ordered o)) invalid_transition _ db h in
      Takes-none o (pieces v o.items) db db' (cc last)
  run-Takes OrderAction.cancel now o db db' u h = cancel-Takes now o db db' u h
  run-Takes OrderAction.ship now o db db' u h = ship-Takes now o db db' u h
  run-Takes OrderAction.complete now o db db' u h = complete-Takes now o db db' u h

-- A transition that succeeds changes no counter of the ledger but these, at the order's location and
-- for the variants of its items: shipping takes their pieces from `on_hand` and `committed`; completing
-- does so, unless they were shipped before; cancelling takes from `committed` the pieces that have not
-- come back; and confirming takes nothing.
pub transition-stock :
    (now id : ℕ) (action : OrderAction) (user : AuthUser) (db db' : OrderDb) (u : Unit {0})
    (o : Order) (v l : ℕ) (c : Bucket)
    → find_order id db.orders ≡ some o
    → is_ledger c ≡ true
    → transition now id action user db ≡ ok (u, db')
    → counter v l c db'.stock
      ≡ sum_ℤ
          (leg_share o (pieces_of OrderItem.variant_id (taken action o db) v o.items) l c)
          (legs_of action (is_set o.delivered_on))
        +ℤ counter v l c db.stock
unfolding transition
transition-stock now id action user db db' u o v l c found g h =
    let (x, read, h₁) = after_reading (read_order id) _ db (read_order-Reads id) h in
    let (w, allowed, last) =
      after_reading
        (assert_location_permission user (permission_by_action action ∷ []) x.location_id) _ db
        (permission-Reads user (permission_by_action action ∷ []) x.location_id) h₁ in
    let (found', key) = read_order-finds id db db x read in
    let same : x ≡ o = cc (found, found') in
    run-Takes user v l c g action now o db db' u
      (subst (λ y. run_action action now y user db ≡ ok (u, db')) same last)
