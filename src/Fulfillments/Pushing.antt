-- ===== src/Fulfillments/Pushing.antt =====
-- `pushShipment` of fulfillment.service.ts leaves the stock alone.
use mathlib.Core.Path.{subst}
use multi_warehouse_manageme.Prelude.{
  ℕ, ◌≡◌, refl, ap, sym, ◌∙◌, ◌==◌, ◌&&◌, eq_of_==, Bool, true, false, not, Option, none, some,
  List, [], ◌∷◌, arith, Bool-cases, Option-cases, inl, inr,
}
use multi_warehouse_manageme.Prelude.Int.{ℤ, zero_+ℤ}
use multi_warehouse_manageme.Prelude.Tx.{
  Reads, after_reading, Tx, ok, err, Error, ◌>>=◌, ◌>>◌, lift, or_throw, Result, invalid_transition,
  validation_error, not_found, throw_if, throw_if-passes,
}
use multi_warehouse_manageme.Prelude.Table.{update_row, find_row-key}
use multi_warehouse_manageme.Auth.{AuthUser, assert_location_permission}
use multi_warehouse_manageme.Inventory.Types.{Bucket}
use multi_warehouse_manageme.Orders.Types.{
  Order, Fulfillment, OrderDb, find_order, find_fulfillment, find_open, is_set, update_order,
  update_fulfillment, write_log,
}
use multi_warehouse_manageme.Fulfillments.Service.{
  load_order, assert_not_returned, assert_sufficient_physical_stock, new_fulfillment, has_package,
  is_unconfirmed, add_fulfillment, same_bool,
}
use multi_warehouse_manageme.Fulfillments.Shipping.{
  Provider, CarrierShipment, PushShipmentDto, shipped_row, push_tx, push_shipment, check_push,
  fee_of,
}
use multi_warehouse_manageme.Fulfillments.Whereabouts.{place, Effect, Fits, place_of}
use multi_warehouse_manageme.Fulfillments.Accounting.{
  Accounts, Effect-Accounts, keeps, updates, after_posting,
}
use multi_warehouse_manageme.Fulfillments.Fits.{none-Fits}
use multi_warehouse_manageme.Fulfillments.Opening.{
  load_order-Reads, not_returned-Reads, sufficient-Reads, added-Accounts,
}

bind-Reads :
    {A B : Type 0} (m : Tx OrderDb A) (k : A → Tx OrderDb B)
    → Reads m
    → ((x : A) → Reads (k x))
    → Reads (m >>= k)
bind-Reads m k r s db db' x h = let (y, first, rest) = after_reading m k db r h in s y db db' x rest

throws-Reads : (b : Bool) (e : Error) → Reads {S = OrderDb} (throw_if b e)
throws-Reads true e db db' x h = absurd (cc h)
throws-Reads false e db db' x h = cc

lift-Reads : {A : Type 0} (r : Result A) → Reads {S = OrderDb} (lift r)
lift-Reads (ok a) db db' x h = cc
lift-Reads (err e) db db' x h = absurd (cc h)

or_throw-Reads : {A : Type 0} (o : Option A) (e : Error) → Reads {S = OrderDb} (or_throw o e)
or_throw-Reads none e db db' x h = absurd (cc h)
or_throw-Reads (some a) e db db' x h = cc

fee_of-Reads :
    (p : Provider) (quote : Result ℤ) (dto : PushShipmentDto) → Reads (fee_of p quote dto)
unfolding fee_of
fee_of-Reads p quote dto = elim (Bool-cases dto.is_integrated) [
  | inl e ↦ rw e (
      bind-Reads (throw_if (not p.is_connected) validation_error) _
        (throws-Reads (not p.is_connected) validation_error)
        (λ _.
          bind-Reads (throw_if (not dto.has_service_code) validation_error) _
            (throws-Reads (not dto.has_service_code) validation_error) (λ _. lift-Reads quote)))
  | inr e ↦ rw e (λ db db' x h. cc h)
]

check_push-Reads :
    (provider : Option Provider) (quote : Result ℤ) (carrier : Result (Option CarrierShipment))
    (dto : PushShipmentDto) (o : Order)
    → Reads (check_push provider quote carrier dto o)
unfolding check_push
check_push-Reads provider quote carrier dto o =
    bind-Reads (throw_if (is_unconfirmed o) invalid_transition) _
      (throws-Reads (is_unconfirmed o) invalid_transition)
      λ _. bind-Reads (assert_not_returned o.id) _ (not_returned-Reads o.id) λ _.
        bind-Reads (assert_sufficient_physical_stock o.location_id o.items) _
          (sufficient-Reads o.location_id o.items)
          λ _. bind-Reads (or_throw provider not_found) _ (or_throw-Reads provider not_found) λ p.
            bind-Reads (throw_if (not p.is_active) not_found) _
              (throws-Reads (not p.is_active) not_found)
              λ _.
                bind-Reads
                  (throw_if (not (same_bool p.is_integrated dto.is_integrated)) validation_error) _
                  (throws-Reads (not (same_bool p.is_integrated dto.is_integrated))
                    validation_error)
                  λ _. bind-Reads (fee_of p quote dto) _ (fee_of-Reads p quote dto) λ fee.
                    bind-Reads (lift carrier) _ (lift-Reads carrier) λ answer db db' x h. cc h

both : (a b : Bool) → a && b ≡ true → a ≡ true
both true b h = refl
both false b h = cc

unset : {A : Type 0} (o : Option A) → is_set o ≡ false → o ≡ none
unset none h = refl
unset (some x) h = cc

load_order-finds :
    (id : ℕ) (user : AuthUser) (db db' : OrderDb) (o : Order)
    → load_order id user db ≡ ok (o, db')
    → find_order id db.orders ≡ some o
unfolding load_order assert_location_permission
load_order-finds id user db db' o h = elim (Option-cases (find_order id db.orders)) [
  | inl e ↦ absurd (ground (arith, h))
  | inr (o', e) ↦ let same : o' ≡ o = ground (arith, h) in e ∙ ap some same
]

find_open-open :
    (id : ℕ) (fs : List Fulfillment) (f : Fulfillment) → find_open id fs ≡ some f → f.order_id ≡ id
unfolding find_open
find_open-open id [] f h = absurd (cc h)
find_open-open id (x ∷ xs) f h = elim (Bool-cases (x.order_id == id && not (is_set x.closed_at))) [
  | inl t ↦
      let same : x ≡ f = cc (rw (t, find_open) at h) in
      ap Fulfillment.order_id (sym same) ∙ eq_of_== x.order_id id (both (x.order_id == id) _ t)
  | inr t ↦ find_open-open id xs f (rw (t, find_open) at h)
]

rewrite_tx : Order → Fulfillment → (Fulfillment → Fulfillment) → AuthUser → Tx OrderDb (Unit {0})
rewrite_tx o f ship user = do
  update_fulfillment f.id ship
  update_order o.id has_package
  write_log user "fulfillment.push" o.id o.code

rewrite-Effect :
    (o : Order) (f : Fulfillment) (ship : Fulfillment → Fulfillment) (user : AuthUser)
    (db db' : OrderDb) (u : Unit {0})
    → rewrite_tx o f ship user db ≡ ok (u, db')
    → Effect db db' f ship o []
unfolding rewrite_tx
rewrite-Effect o f ship user db db' u h =
    after_posting db db db' f ship o [] refl (λ v l c g. sym (zero_+ℤ _)) (cc)
      (updates o.id has_package db db' (keeps (λ x. refl) (λ x. refl) (λ x. refl)) (cc)) (cc)

create_tx : Order → (Fulfillment → Fulfillment) → AuthUser → Tx OrderDb (Unit {0})
create_tx o ship user = do
  add_fulfillment o ship
  update_order o.id has_package
  write_log user "fulfillment.push" o.id o.code

create-writes :
    (o : Order) (ship : Fulfillment → Fulfillment) (user : AuthUser) (db db' : OrderDb)
    (u : Unit {0})
    → create_tx o ship user db ≡ ok (u, db')
    → (db'.fulfillments ≡ ship (new_fulfillment db.next_id o db.fulfillments) ∷ db.fulfillments)
      × (db'.orders ≡ update_row Order.id o.id has_package db.orders)
      × (db'.stock ≡ db.stock)
unfolding create_tx
create-writes o ship user db db' u h = (cc, cc, cc)

-- The primary key of the row that is written is its own.
abbrev pub IsKeyed : OrderDb → Type 0
IsKeyed db =
    (id : ℕ) (f : Fulfillment)
    → find_open id db.fulfillments ≡ some f
    → find_fulfillment f.id db.fulfillments ≡ some f

push_tx-Accounts :
    (base : ℕ → ℕ → Bucket → ℤ) (o : Order) (dto : PushShipmentDto) (asked : ℕ × ℤ × Option ℕ)
    (user : AuthUser) (db db' : OrderDb) (u : Unit {0})
    → IsKeyed db
    → find_order o.id db.orders ≡ some o
    → push_tx o (shipped_row dto o asked) user db ≡ ok (u, db')
    → Accounts base db
    → Accounts base db'
unfolding push_tx create_tx rewrite_tx
push_tx-Accounts base o dto asked user db db' u keyed found h a =
    let ship = shipped_row dto o asked in
    elim (Option-cases (find_open o.id db.fulfillments)) [
      | inl e ↦
          let (rows, orders, stock) = create-writes o ship user db db' u (rw e at h) in
          added-Accounts base db db' (ship (new_fulfillment db.next_id o db.fulfillments)) o.id rows
            orders stock refl refl a
      | inr (f, e) ↦
          let (no_shipment, ran) =
            throw_if-passes (is_set f.shipment_status) invalid_transition (rewrite_tx o f ship user)
              db (rw e at h) in
          let none_yet : f.shipment_status ≡ none = unset f.shipment_status no_shipment in
          let stays : place f ≡ place (ship f) =
            ap (λ s. place_of s (is_set f.packed_on) (is_set f.closed_at)) none_yet in
          Effect-Accounts base db db' f.id f ship o [] (keyed o.id f e)
            (ap (λ i. find_order i db.orders) (find_open-open o.id db.fulfillments f e) ∙ found)
            refl (rewrite-Effect o f ship user db db' u ran)
            (subst (λ p. Fits [] p (place (ship f))) (sym stays) (none-Fits (place (ship f))))
            (λ m. m) a
    ]

pub push-Accounts :
    (base : ℕ → ℕ → Bucket → ℤ) (provider : Option Provider) (quote : Result ℤ)
    (carrier : Result (Option CarrierShipment)) (dto : PushShipmentDto) (user : AuthUser)
    (db db' : OrderDb) (u : Unit {0})
    → IsKeyed db
    → push_shipment provider quote carrier dto user db ≡ ok (u, db')
    → Accounts base db
    → Accounts base db'
unfolding push_shipment
push-Accounts base provider quote carrier dto user db db' u keyed h a =
    let (o, read, h₁) =
      after_reading (load_order dto.order_id user) _ db (load_order-Reads dto.order_id user) h in
    let (asked, answered, h₂) =
      after_reading (check_push provider quote carrier dto o) _ db
        (check_push-Reads provider quote carrier dto o) h₁ in
    let found = load_order-finds dto.order_id user db db o read in
    let key = find_row-key Order.id dto.order_id db.orders o found in
    push_tx-Accounts base o dto asked user db db' u keyed
      (ap (λ i. find_order i db.orders) key ∙ found) h₂ a
