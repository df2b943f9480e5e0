-- ===== src/Fulfillments/Guards.antt =====
-- What has held when a handler of fulfillment.service.ts succeeds.
use mathlib.Core.Path.{subst}
use multi_warehouse_manageme.Prelude.{
  ℕ, ◌≡◌, refl, ap, ◌∙◌, Bool, true, false, not, ◌&&◌, some, arith, Option-cases, inl, inr,
}
use multi_warehouse_manageme.Prelude.Tx.{
  Tx, ok, err, ◌>>◌, lift, Result, invalid_transition, >>=-eq-ok, throw_if-passes,
}
use multi_warehouse_manageme.Auth.{AuthUser, assert_location_permission}
use multi_warehouse_manageme.Orders.Types.{
  PackingStatus, ShipmentStatus, Order, Fulfillment, OrderDb, find_order, find_fulfillment, is_set,
}
use multi_warehouse_manageme.Fulfillments.Service.{
  load_fulfillment, packing_tx, apply_packing_status, may_pack, is_packed, is_ecommerce, cancel_tx,
  cancel, is_pending,
}
use multi_warehouse_manageme.Fulfillments.Shipping.{
  may_become, shipment_tx, apply_shipment_status, update_shipment_status,
}

-- What is read when a handler has loaded its package.
pub record IsLoaded (id : ℕ) (db : OrderDb) (f : Fulfillment) (o : Order) : Type 0 where
  pub row : find_fulfillment id db.fulfillments ≡ some f
  pub order : find_order f.order_id db.orders ≡ some o

pub loaded :
    (id : ℕ) (user : AuthUser) (db db₁ : OrderDb) (f : Fulfillment) (o : Order)
    → load_fulfillment id user db ≡ ok ((f, o), db₁)
    → (db₁ ≡ db) × IsLoaded id db f o
unfolding load_fulfillment assert_location_permission
loaded id user db db₁ f o h = elim (Option-cases (find_fulfillment id db.fulfillments)) [
  | inl e ↦ absurd (ground (arith, h))
  | inr (f', e) ↦ elim (Option-cases (find_order f'.order_id db.orders)) [
    | inl e' ↦ absurd (ground (arith, h))
    | inr (o', e') ↦
        let same_f : f' ≡ f = ground (arith, h) in
        let same_o : o' ≡ o = ground (arith, h) in
        (
          ground (arith, h),
          record {
            row = e ∙ ap some same_f;
            order =
                subst (λ (x : Fulfillment). find_order x.order_id db.orders ≡ some o') same_f e'
                ∙ ap some same_o;
          },
        )
  ]
]

true_of_test : (b : Bool) → not b ≡ false → b ≡ true
true_of_test true h = refl
true_of_test false h = cc

lifted :
    (carrier : Result (Unit {0})) (m : Tx OrderDb (Unit {0})) (db : OrderDb)
    {r : Unit {0} × OrderDb}
    → (lift carrier >> m) db ≡ ok r
    → m db ≡ ok r
lifted (ok x) m db h = h
lifted (err e) m db h = absurd (cc h)

pub applied :
    (now : ℕ) (f : Fulfillment) (o : Order) (status : ShipmentStatus) (user : AuthUser)
    (db db' : OrderDb) (u : Unit {0})
    → apply_shipment_status now f o status user db ≡ ok (u, db')
    → (is_set f.closed_at ≡ false)
      × (may_become f.shipment_status status ≡ true)
      × (shipment_tx status now f o user db ≡ ok (u, db'))
unfolding apply_shipment_status
applied now f o status user db db' u h =
    let (opened, next) = throw_if-passes (is_set f.closed_at) invalid_transition _ db h in
    let (may, ran) =
      throw_if-passes (not (may_become f.shipment_status status)) invalid_transition
        (shipment_tx status now f o user) db next in
    (opened, true_of_test (may_become f.shipment_status status) may, ran)

module _ (now id : ℕ) (user : AuthUser) (db db' : OrderDb) (u : Unit {0}) where
  pub packing-runs :
      (status : PackingStatus)
      → apply_packing_status now id status user db ≡ ok (u, db')
      → (f : Fulfillment) × (o : Order) × IsLoaded id db f o
        × (is_set f.closed_at ≡ false)
        × (may_pack f.packed_status status ≡ true)
        × (packing_tx now f o status
              (is_packed status && not (is_ecommerce f.delivery_method))
              user
              db
            ≡ ok (u, db'))
  unfolding apply_packing_status
  packing-runs status h =
      let ((f, o), db₁, read, rest) = >>=-eq-ok (load_fulfillment id user) _ db h in
      let (same, l) = loaded id user db db₁ f o read in
      let (opened, next) = throw_if-passes (is_set f.closed_at) invalid_transition _ db₁ rest in
      let (may, ran) =
        throw_if-passes (not (may_pack f.packed_status status)) invalid_transition
          (packing_tx now f o status (is_packed status && not (is_ecommerce f.delivery_method))
            user)
          db₁ next in
      (
        f,
        o,
        l,
        opened,
        true_of_test (may_pack f.packed_status status) may,
        subst
            (λ d.
              packing_tx now f o status (is_packed status && not (is_ecommerce f.delivery_method))
                user d
              ≡ ok (u, db'))
            same ran,
      )

  pub cancel-runs :
      (carrier : Result (Unit {0}))
      → cancel carrier now id user db ≡ ok (u, db')
      → (f : Fulfillment) × (o : Order) × IsLoaded id db f o
        × (is_set f.closed_at ≡ false)
        × (is_set f.shipment_status && not (is_pending f.shipment_status) ≡ false)
        × (cancel_tx now f o user db ≡ ok (u, db'))
  unfolding cancel
  cancel-runs carrier h =
      let ((f, o), db₁, read, rest) = >>=-eq-ok (load_fulfillment id user) _ db h in
      let (same, l) = loaded id user db db₁ f o read in
      let (opened, next) = throw_if-passes (is_set f.closed_at) invalid_transition _ db₁ rest in
      let (may, asked) =
        throw_if-passes (is_set f.shipment_status && not (is_pending f.shipment_status))
          invalid_transition (lift carrier >> cancel_tx now f o user) db₁ next in
      (
        f,
        o,
        l,
        opened,
        may,
        subst (λ d. cancel_tx now f o user d ≡ ok (u, db')) same
            (lifted carrier (cancel_tx now f o user) db₁ asked),
      )

  pub shipment-runs :
      (status : ShipmentStatus)
      → update_shipment_status now id status user db ≡ ok (u, db')
      → (f : Fulfillment) × (o : Order) × IsLoaded id db f o
        × (is_set f.closed_at ≡ false)
        × (may_become f.shipment_status status ≡ true)
        × (shipment_tx status now f o user db ≡ ok (u, db'))
  unfolding update_shipment_status
  shipment-runs status h =
      let ((f, o), db₁, read, rest) = >>=-eq-ok (load_fulfillment id user) _ db h in
      let (same, l) = loaded id user db db₁ f o read in
      let (opened, may, ran) = applied now f o status user db₁ db' u rest in
      (f, o, l, opened, may, subst (λ d. shipment_tx status now f o user d ≡ ok (u, db')) same ran)
