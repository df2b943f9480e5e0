-- ===== src/Orders/Transitions.antt =====
-- `transition` of order.service.ts, every action with its guards: what it does to the debts.
use mathlib.Core.Path.{subst}
use multi_warehouse_manageme.Prelude.{
  ℕ, ◌≡◌, ap, sym, ◌∙◌, Bool, true, false, not, ◌&&◌, some, List, arith, Bool-cases, Option-cases,
  inl, inr, All, [], ◌∷◌, String,
}
use multi_warehouse_manageme.Prelude.Int.{ℤ, pos_part, neg_part, ◌+ℤ◌, int_laws}
use multi_warehouse_manageme.Prelude.Sums.{sum_ℤ}
use multi_warehouse_manageme.Prelude.Tx.{
  ok, or_throw, >>=-eq-ok, throw_if-passes, invalid_transition, Reads, after_reading,
}
use multi_warehouse_manageme.Prelude.Table.{
  update_row, find_row-key, sum_ℤ-update, All-find_row, All-update_row,
}
use multi_warehouse_manageme.Auth.{AuthUser, assert_location_permission}
use multi_warehouse_manageme.Orders.Types.{Order, OrderDb, find_order, is_set, is_open, is_closed}
use multi_warehouse_manageme.Orders.Refunds.{refund_lines}
use multi_warehouse_manageme.Orders.Posting.{post_items, post_items-tables}
use multi_warehouse_manageme.Orders.Service.{
  read_order, OrderAction, permission_by_action, run_action, transition, cancel_tx, remaining_items,
  release_legs, cancel_order, is_ordered, is_processing, assert_no_open_fulfillment,
  assert_not_returned, ship_legs, ship_order, complete_tx, ship_unless, completed_at,
  complete_order,
}
use multi_warehouse_manageme.Orders.Debts.{
  owed, IsCollected, IsSound, Moves-IsSound, Apart-IsSound, Apart, Apart-same, Apart-trans,
  Apart-post,
}
use multi_warehouse_manageme.Orders.Cancelling.{
  Settles, Settles-before, off_price, open_status, cancel_books-Settles, process-Apart,
  ship_tx-Apart,
}

pub read_order-Reads : (id : ℕ) → Reads (read_order id)
unfolding read_order
read_order-Reads id db db' o h = elim (Option-cases (find_order id db.orders)) [
  | inl e ↦ absurd (cc (rw (e, or_throw) at h))
  | inr (x, e) ↦ cc (rw (e, or_throw) at h)
]

pub read_order-finds :
    (id : ℕ) (db db' : OrderDb) (o : Order)
    → read_order id db ≡ ok (o, db')
    → (find_order id db.orders ≡ some o) × (o.id ≡ id)
unfolding read_order
read_order-finds id db db' o h = elim (Option-cases (find_order id db.orders)) [
  | inl e ↦ absurd (cc (rw (e, or_throw) at h))
  | inr (x, e) ↦
      let same : x ≡ o = cc (rw (e, or_throw) at h) in
      let found : find_order id db.orders ≡ some o = e ∙ ap some same in
      (found, find_row-key Order.id id db.orders o found)
]

pub permission-Reads :
    (user : AuthUser) (codes : List String) (l : ℕ)
    → Reads {S = OrderDb} (assert_location_permission user codes l)
unfolding assert_location_permission
permission-Reads user codes l db db' x h = ground (arith, h)

pub no_open-Reads : (id : ℕ) → Reads (assert_no_open_fulfillment id)
unfolding assert_no_open_fulfillment
no_open-Reads id db db' x h = ground (arith, h)

pub not_returned-Reads : (id : ℕ) → Reads (assert_not_returned id)
unfolding assert_not_returned
not_returned-Reads id db db' x h = ground (arith, h)

cancel_same : (x s t : ℤ) → x +ℤ t ≡ x +ℤ s → t ≡ s
cancel_same x s t h = let p = ap pos_part h in let n = ap neg_part h in omega int_laws

-- A write to one order that leaves its amounts alone.
pub found-Apart :
    (o : Order) (f : Order → Order) (db db' : OrderDb)
    → find_order o.id db.orders ≡ some o
    → ((c : ℕ) → owed c (f o) ≡ owed c o)
    → (IsCollected o → IsCollected (f o))
    → db'.orders ≡ update_row Order.id o.id f db.orders
    → db'.ledger ≡ db.ledger
    → Apart db db'
found-Apart o f db db' found same fits orders ledger = record {
  ledger = ledger;
  orders = λ c.
      ap (sum_ℤ (owed c)) orders
      ∙ cancel_same _ _ _ (
          sum_ℤ-update Order.id (owed c) o.id f db.orders o found
          ∙ ap (λ y. y +ℤ sum_ℤ (owed c) db.orders) (same c));
  fits = λ h. subst (All IsCollected) (sym orders) (
      All-update_row Order.id IsCollected o.id f db.orders o h found
        (fits (All-find_row Order.id IsCollected o.id db.orders o h found)));
}

ship_unless-Apart :
    (b : Bool) (o : Order) (user : AuthUser) (db db' : OrderDb) (u : Unit {0})
    → ship_unless b o user db ≡ ok (u, db')
    → Apart db db'
ship_unless-Apart true o user db db' u h = Apart-same db db' (cc h) (cc h)
ship_unless-Apart false o user db db' u h = Apart-post o user ship_legs o.items db db' u h

pub ship_unless-orders :
    (b : Bool) (o : Order) (user : AuthUser) (db db' : OrderDb) (u : Unit {0})
    → ship_unless b o user db ≡ ok (u, db')
    → db'.orders ≡ db.orders
ship_unless-orders true o user db db' u h = cc h
ship_unless-orders false o user db db' u h =
    ap OrderDb.orders (post_items-tables o user ship_legs o.items db db' u h)

complete_tx-Apart :
    (now : ℕ) (o : Order) (user : AuthUser) (db db' : OrderDb) (u : Unit {0})
    → find_order o.id db.orders ≡ some o
    → is_open o.status ≡ true
    → complete_tx now o user db ≡ ok (u, db')
    → Apart db db'
unfolding complete_tx
complete_tx-Apart now o user db db' u found live h =
    let b = is_set o.delivered_on in
    let (w, db₁, shipped, last) = >>=-eq-ok (ship_unless b o user) _ db h in
    let found₁ =
      subst (λ os. find_order o.id os ≡ some o) (sym (ship_unless-orders b o user db db₁ w shipped))
        found in
    Apart-trans db db₁ db' (ship_unless-Apart b o user db db₁ w shipped) (
      found-Apart o (completed_at now o.delivered_on) db₁ db' found₁
        (λ c. rw (open_status o.status live)) (λ k. k) (cc last) (cc last))

cancel_tx-Settles :
    (now : ℕ) (o : Order) (user : AuthUser) (db db' : OrderDb) (u : Unit {0})
    → find_order o.id db.orders ≡ some o
    → is_open o.status ≡ true
    → cancel_tx now o user db ≡ ok (u, db')
    → Settles (off_price o) db db'
unfolding cancel_tx
cancel_tx-Settles now o user db db' u found live h =
    let left = remaining_items (refund_lines o.id db.refunds) o.items in
    let (w, db₁, posted, last) = >>=-eq-ok (post_items o user release_legs left) _ db h in
    let orders = ap OrderDb.orders (post_items-tables o user release_legs left db db₁ w posted) in
    Settles-before (off_price o) db db₁ db' (Apart-post o user release_legs left db db₁ w posted) (
      cancel_books-Settles now o left user db₁ db' u
        (subst (λ os. find_order o.id os ≡ some o) (sym orders) found) live last)

guard_open :
    (o : Order) → (not (is_ordered o) && not (is_processing o)) ≡ false → is_open o.status ≡ true
guard_open o h = elim (Bool-cases (is_open o.status)) [
  | inl t ↦ t
  | inr t ↦ absurd (cc (rw t at h))
]

processing_open : (o : Order) → not (is_processing o) ≡ false → is_open o.status ≡ true
processing_open o h = elim (Bool-cases (is_open o.status)) [
  | inl t ↦ t
  | inr t ↦ absurd (cc (rw t at h))
]

pub cancel_order-Settles :
    (now : ℕ) (o : Order) (user : AuthUser) (db db' : OrderDb) (u : Unit {0})
    → find_order o.id db.orders ≡ some o
    → cancel_order now o user db ≡ ok (u, db')
    → Settles (off_price o) db db'
unfolding cancel_order
cancel_order-Settles now o user db db' u found h =
    let (live, h₁) =
      throw_if-passes (not (is_ordered o) && not (is_processing o)) invalid_transition _ db h in
    let (w, free, h₂) =
      after_reading (assert_no_open_fulfillment o.id) _ db (no_open-Reads o.id) h₁ in
    let (kept, last) = throw_if-passes (is_set o.delivered_on) invalid_transition _ db h₂ in
    cancel_tx-Settles now o user db db' u found (guard_open o live) last

ship_order-Apart :
    (now : ℕ) (o : Order) (user : AuthUser) (db db' : OrderDb) (u : Unit {0})
    → ship_order now o user db ≡ ok (u, db')
    → Apart db db'
unfolding ship_order
ship_order-Apart now o user db db' u h =
    let (live, h₁) = throw_if-passes (not (is_processing o)) invalid_transition _ db h in
    let (w, free, h₂) =
      after_reading (assert_no_open_fulfillment o.id) _ db (no_open-Reads o.id) h₁ in
    let (w', kept, h₃) =
      after_reading (assert_not_returned o.id) _ db (not_returned-Reads o.id) h₂ in
    let (here, last) = throw_if-passes (is_set o.delivered_on) invalid_transition _ db h₃ in
    ship_tx-Apart now o user db db' u last

complete_order-Apart :
    (now : ℕ) (o : Order) (user : AuthUser) (db db' : OrderDb) (u : Unit {0})
    → find_order o.id db.orders ≡ some o
    → complete_order now o user db ≡ ok (u, db')
    → Apart db db'
unfolding complete_order
complete_order-Apart now o user db db' u found h =
    let (running, h₁) = throw_if-passes (is_closed o.status) invalid_transition _ db h in
    let (live, h₂) = throw_if-passes (not (is_processing o)) invalid_transition _ db h₁ in
    let (w, free, h₃) =
      after_reading (assert_no_open_fulfillment o.id) _ db (no_open-Reads o.id) h₂ in
    let (w', kept, last) =
      after_reading (assert_not_returned o.id) _ db (not_returned-Reads o.id) h₃ in
    complete_tx-Apart now o user db db' u found (processing_open o live) last

pub run_action-IsSound :
    (base : ℕ → ℤ) (action : OrderAction) (now : ℕ) (o : Order) (user : AuthUser) (db db' : OrderDb)
    (u : Unit {0})
    → find_order o.id db.orders ≡ some o
    → run_action action now o user db ≡ ok (u, db')
    → IsSound base db
    → IsSound base db'
run_action-IsSound base OrderAction.processing now o user db db' u found h s =
    Apart-IsSound base db db' (process-Apart now o user db db' u h) s
run_action-IsSound base OrderAction.cancel now o user db db' u found h s =
    let t = cancel_order-Settles now o user db db' u found h in
    Moves-IsSound base (off_price o) db db' t.moves (t.fits s.collected) s
run_action-IsSound base OrderAction.ship now o user db db' u found h s =
    Apart-IsSound base db db' (ship_order-Apart now o user db db' u h) s
run_action-IsSound base OrderAction.complete now o user db db' u found h s =
    Apart-IsSound base db db' (complete_order-Apart now o user db db' u found h) s

pub transition-IsSound :
    (base : ℕ → ℤ) (now id : ℕ) (action : OrderAction) (user : AuthUser) (db db' : OrderDb)
    (u : Unit {0})
    → transition now id action user db ≡ ok (u, db')
    → IsSound base db
    → IsSound base db'
unfolding transition
transition-IsSound base now id action user db db' u h s =
    let (o, read, h₁) = after_reading (read_order id) _ db (read_order-Reads id) h in
    let (w, allowed, last) =
      after_reading
        (assert_location_permission user (permission_by_action action ∷ []) o.location_id) _ db
        (permission-Reads user (permission_by_action action ∷ []) o.location_id) h₁ in
    let (found, key) = read_order-finds id db db o read in
    run_action-IsSound base action now o user db db' u
      (subst (λ x. find_order x db.orders ≡ some o) (sym key) found) last s
