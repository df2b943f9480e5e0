-- ===== src/Fulfillments/Opening.antt =====
-- `createPackingRequest` of fulfillment.service.ts makes a package and leaves the stock alone.
use mathlib.Core.Path.{subst}
use multi_warehouse_manageme.Prelude.{
  ℕ, ◌≡◌, refl, ap, sym, ◌∙◌, ◌==◌, true, List, ◌∷◌, arith, Bool-cases, Option-cases, inl, inr, All,
}
use multi_warehouse_manageme.Prelude.Int.{ℤ, pos, ◌+ℤ◌, zero_+ℤ}
use multi_warehouse_manageme.Prelude.Sums.{sum_ℤ}
use multi_warehouse_manageme.Prelude.Tx.{
  Tx, ok, ◌>>◌, invalid_transition, throw_if-passes, Reads, after_reading,
}
use multi_warehouse_manageme.Prelude.Table.{update_row}
use multi_warehouse_manageme.Auth.{AuthUser, assert_location_permission}
use multi_warehouse_manageme.Inventory.Types.{Bucket}
use multi_warehouse_manageme.Inventory.Effect.{counter}
use multi_warehouse_manageme.Orders.Types.{
  Order, Fulfillment, OrderDb, find_order, find_open, is_set, OrderItem, update_order, write_log,
}
use multi_warehouse_manageme.Fulfillments.Service.{
  load_order, assert_not_returned, assert_sufficient_physical_stock, new_fulfillment, has_package,
  create_packing_request, is_unconfirmed, add_fulfillment,
}
use multi_warehouse_manageme.Fulfillments.Whereabouts.{
  reserved, place, held, held-update, packed_is_marked, sum_ℤ-same,
}
use multi_warehouse_manageme.Fulfillments.Accounting.{Accounts, keeps}

pub load_order-Reads : (id : ℕ) (user : AuthUser) → Reads (load_order id user)
unfolding load_order assert_location_permission
load_order-Reads id user db db' o h = elim (Option-cases (find_order id db.orders)) [
  | inl e ↦ absurd (ground (arith, h))
  | inr (o', e) ↦ ground (arith, h)
]

pub not_returned-Reads : (id : ℕ) → Reads (assert_not_returned id)
unfolding assert_not_returned
not_returned-Reads id db db' x h = ground (arith, h)

pub sufficient-Reads :
    (l : ℕ) (items : List OrderItem) → Reads (assert_sufficient_physical_stock l items)
unfolding assert_sufficient_physical_stock
sufficient-Reads l items db db' x h = ground (arith, h)

held_reserved :
    (orders : List Order) (v l : ℕ) (c : Bucket) (f : Fulfillment)
    → place f ≡ reserved
    → held orders v l c f ≡ pos 0
held_reserved orders v l c f h = elim (Option-cases (find_order f.order_id orders)) [
  | inl e ↦ rw e
  | inr (o, e) ↦ elim (Bool-cases (o.location_id == l)) [ inl t ↦ rw (e, h, t) | inr t ↦ rw (e, t) ]
]

-- A package that is new, of an order that has one now.
pub added-Accounts :
    (base : ℕ → ℕ → Bucket → ℤ) (db db' : OrderDb) (f : Fulfillment) (id : ℕ)
    → db'.fulfillments ≡ f ∷ db.fulfillments
    → db'.orders ≡ update_row Order.id id has_package db.orders
    → db'.stock ≡ db.stock
    → place f ≡ reserved
    → packed_is_marked f ≡ true
    → Accounts base db
    → Accounts base db'
added-Accounts base db db' f id rows orders stock inside marked a =
    let same = λ (v l : ℕ) (c : Bucket) (h : Fulfillment).
      ap (λ os. held os v l c h) orders
      ∙ held-update id has_package db.orders v l c h (keeps (λ x. refl) (λ x. refl) (λ x. refl)) in
    record {
      accounted = λ v l c g.
          ap (counter v l c) stock
          ∙ a.accounted v l c g
          ∙ ap (λ y. base v l c +ℤ y)
              (sym (
                ap (sum_ℤ (held db'.orders v l c)) rows
                ∙ ap (λ y. y +ℤ sum_ℤ (held db'.orders v l c) db.fulfillments)
                    (held_reserved db'.orders v l c f inside)
                ∙ zero_+ℤ _
                ∙ sum_ℤ-same (held db.orders v l c) (held db'.orders v l c) db.fulfillments
                    (same v l c)));
      marked = subst (All (λ x. packed_is_marked x ≡ true)) (sym rows) (marked, a.marked);
    }

request_tx : Order → List Fulfillment → AuthUser → Tx OrderDb (Unit {0})
request_tx o fs user = do
  add_fulfillment o (λ f. f)
  update_order o.id has_package
  write_log user "fulfillment.packing_request" o.id o.code

request-writes :
    (o : Order) (user : AuthUser) (db db' : OrderDb) (u : Unit {0})
    → request_tx o db.fulfillments user db ≡ ok (u, db')
    → (db'.fulfillments ≡ new_fulfillment db.next_id o db.fulfillments ∷ db.fulfillments)
      × (db'.orders ≡ update_row Order.id o.id has_package db.orders)
      × (db'.stock ≡ db.stock)
unfolding request_tx
request-writes o user db db' u h = (cc, cc, cc)

pub request-Accounts :
    (base : ℕ → ℕ → Bucket → ℤ) (order_id : ℕ) (user : AuthUser) (db db' : OrderDb) (u : Unit {0})
    → create_packing_request order_id user db ≡ ok (u, db')
    → Accounts base db
    → Accounts base db'
unfolding create_packing_request request_tx
request-Accounts base order_id user db db' u h a =
    let (o, read, h₁) =
      after_reading (load_order order_id user) _ db (load_order-Reads order_id user) h in
    let (confirmed, h₂) = throw_if-passes (is_unconfirmed o) invalid_transition _ db h₁ in
    let (w, kept, h₃) =
      after_reading (assert_not_returned o.id) _ db (not_returned-Reads o.id) h₂ in
    let (w', enough, h₄) =
      after_reading (assert_sufficient_physical_stock o.location_id o.items) _ db
        (sufficient-Reads o.location_id o.items) h₃ in
    let (free, last) =
      throw_if-passes (is_set (find_open o.id db.fulfillments)) invalid_transition
        (request_tx o db.fulfillments user) db h₄ in
    let (rows, orders, stock) = request-writes o user db db' u last in
    added-Accounts base db db' (new_fulfillment db.next_id o db.fulfillments) o.id rows orders stock
      refl refl a
