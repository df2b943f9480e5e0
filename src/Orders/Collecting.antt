-- ===== src/Orders/Collecting.antt =====
-- `pay` of order.service.ts: what a payment does to the debts.
use mathlib.Core.Path.{subst}
use multi_warehouse_manageme.Prelude.{
  ℕ, ◌≡◌, refl, ap, sym, ◌∙◌, ◌==◌, Bool, true, false, not, ◌&&◌, Option, none, some, [], ◌∷◌,
  Bool-cases, inl, inr, All, or_default,
}
use multi_warehouse_manageme.Prelude.Int.{ℤ, pos, neg, ◌+ℤ◌, ◌-ℤ◌, ◌≤ℤ◌, int_laws, leb_ℤ, ltb_ℤ}
use multi_warehouse_manageme.Prelude.Tx.{
  ok, ◌>>◌, >>=-eq-ok, throw_if-passes, invalid_transition, validation_error, after_reading, settle,
}
use multi_warehouse_manageme.Prelude.Table.{All-find_row, All-update_row}
use multi_warehouse_manageme.Auth.{AuthUser, assert_location_permission}
use multi_warehouse_manageme.Orders.Types.{
  OrderStatus, Order, OrderDb, CustomerReferenceType, find_order, is_open, is_paid, update_order,
  record_entry, create_receipt, write_log,
}
use multi_warehouse_manageme.Orders.Service.{
  pay, pay_tx, paid_row, close_when, close_if_delivered, close_row, closed_if_open, read_order,
  is_cancelled_order, is_not_positive, has_package_that, is_in_flight, is_delivered_package,
}
use multi_warehouse_manageme.Orders.Debts.{
  counted, due, owed, IsCollected, IsSound, Moves-IsSound, Apart, Apart-same, Apart-update,
  record_entry-adds, Apart-IsSound, write_log-Apart, Apart-trans,
}
use multi_warehouse_manageme.Orders.Cancelling.{Settles, Settles-after, entry-Moves, open_status}
use multi_warehouse_manageme.Orders.Transitions.{
  read_order-Reads, read_order-finds, permission-Reads,
}

closed_if_open-debt : (now c : ℕ) (o : Order) → owed c (closed_if_open now o) ≡ owed c o
closed_if_open-debt now c o = elim (Bool-cases (is_open o.status)) [
  | inl t ↦ rw (t, open_status o.status t)
  | inr t ↦ rw t
]

closed_if_open-fits : (now : ℕ) (o : Order) → IsCollected o → IsCollected (closed_if_open now o)
closed_if_open-fits now o h = elim (Bool-cases (is_open o.status)) [
  | inl t ↦ rw t h
  | inr t ↦ rw t h
]

closed_if_open-id : (now : ℕ) (o : Order) → (closed_if_open now o).id ≡ o.id
closed_if_open-id now o = elim (Bool-cases (is_open o.status)) [ inl t ↦ rw t | inr t ↦ rw t ]

close_row-Apart :
    (b : Bool) (now id : ℕ) (db db' : OrderDb) (u : Unit {0})
    → close_row b now id db ≡ ok (u, db')
    → Apart db db'
close_row-Apart true now id db db' u h =
    Apart-update id (closed_if_open now) db db'
      (record {
        key = closed_if_open-id now;
        debt = closed_if_open-debt now;
        fits = closed_if_open-fits now;
      })
      (cc h) (cc h)
close_row-Apart false now id db db' u h = Apart-same db db' (cc h) (cc h)

pub close_when-Apart :
    (b : Bool) (now id : ℕ) (db db' : OrderDb) (u : Unit {0})
    → close_when b now id db ≡ ok (u, db')
    → Apart db db'
unfolding close_if_delivered
close_when-Apart true now id db db' u h =
    close_row-Apart
      (has_package_that is_delivered_package id db.fulfillments
        && not (has_package_that is_in_flight id db.fulfillments))
      now id db db' u h
close_when-Apart false now id db db' u h = Apart-same db db' (cc h) (cc h)

-- The row that has been paid to.
paid_change :
    (c : ℕ) (customer : Option ℕ) (price received amount : ℤ)
    → counted c customer (price -ℤ (received +ℤ amount))
      ≡ counted c customer (neg amount) +ℤ counted c customer (price -ℤ received)
paid_change c none price received amount = omega int_laws
paid_change c (some x) price received amount = elim (Bool-cases (x == c)) [
  | inl t ↦ rw t (omega int_laws)
  | inr t ↦ rw t (omega int_laws)
]

live_due :
    (s : OrderStatus) (price received : ℤ)
    → is_cancelled_order s ≡ false
    → due s price received ≡ price -ℤ received
live_due OrderStatus.opened price received h = refl
live_due OrderStatus.closed price received h = refl
live_due OrderStatus.cancelled price received h = absurd (cc h)

paid_row-debt :
    (now c : ℕ) (o : Order) (amount : ℤ)
    → is_cancelled_order o.status ≡ false
    → owed c (paid_row now (o.total_received +ℤ amount) o)
      ≡ counted c o.customer_id (neg amount) +ℤ owed c o
paid_row-debt now c o amount live =
    let r = o.total_received +ℤ amount in
    let change =
      ap (counted c o.customer_id) (live_due o.status o.total_price r live)
      ∙ paid_change c o.customer_id o.total_price o.total_received amount
      ∙ ap (λ y. counted c o.customer_id (neg amount) +ℤ counted c o.customer_id y)
          (sym (live_due o.status o.total_price o.total_received live)) in
    elim (Bool-cases (leb_ℤ o.total_price r)) [ inl t ↦ rw t change | inr t ↦ rw t change ]

within :
    (price received amount : ℤ)
    → pos 0 ≤ℤ received
    → leb_ℤ amount (pos 0) ≡ false
    → ltb_ℤ (price -ℤ received) amount ≡ false
    → (pos 0 ≤ℤ received +ℤ amount) × (received +ℤ amount ≤ℤ price)
within price received amount low some_paid fits = (grind int_laws, grind int_laws)

paid_row-fits :
    (now : ℕ) (o : Order) (r : ℤ)
    → (pos 0 ≤ℤ r) × (r ≤ℤ o.total_price)
    → IsCollected (paid_row now r o)
paid_row-fits now o r h = elim (Bool-cases (leb_ℤ o.total_price r)) [
  | inl t ↦ rw t h
  | inr t ↦ rw t h
]

abbrev pub paid_off : Order → ℤ → ℕ → ℤ
paid_off o amount c = counted c o.customer_id (neg amount)

-- The row and the receipt are written.
abbrev receipt_in : ℕ → Order → ℤ → AuthUser → OrderDb → OrderDb
receipt_in now o amount user db = settle db (
    (update_order o.id (paid_row now (o.total_received +ℤ amount)) >> create_receipt o amount user)
      db)

pub pay_tx-Settles :
    (now : ℕ) (o : Order) (amount : ℤ) (user : AuthUser) (db db' : OrderDb) (u : Unit {0})
    → find_order o.id db.orders ≡ some o
    → is_cancelled_order o.status ≡ false
    → IsCollected o
    → pay_tx now o amount user db ≡ ok (u, db')
    → Settles (paid_off o amount) db db'
unfolding pay_tx
pay_tx-Settles now o amount user db db' u found live fine h =
    let f = paid_row now (o.total_received +ℤ amount) in
    let reached = leb_ℤ o.total_price (o.total_received +ℤ amount) in
    let (more, h₁) = throw_if-passes (leb_ℤ amount (pos 0)) validation_error _ db h in
    let (fits, h₂) =
      throw_if-passes (ltb_ℤ (o.total_price -ℤ o.total_received) amount) validation_error _ db h₁ in
    let db₁ = receipt_in now o amount user db in
    let (w₂, db₂, entered, h₃) =
      >>=-eq-ok (record_entry o.customer_id CustomerReferenceType.payment o.code (neg amount) user)
        _ db₁ h₂ in
    let (w₃, db₃, logged, closed) =
      >>=-eq-ok (write_log user "order.pay" o.id o.code) (λ _. close_when reached now o.id) db₂
        h₃ in
    let (grown, same) =
      record_entry-adds o.customer_id CustomerReferenceType.payment o.code (neg amount) user db₁ db₂
        w₂ entered in
    let bounds = within o.total_price o.total_received amount fine.0 more fits in
    Settles-after (paid_off o amount) db db₂ db'
      (record {
        moves =
            entry-Moves o f (neg amount) db db₂ found (λ c. paid_row-debt now c o amount live) grown
              same;
        fits = λ k. subst (All IsCollected) (sym same) (
            All-update_row Order.id IsCollected o.id f db.orders o k found
              (paid_row-fits now o (o.total_received +ℤ amount) bounds));
      })
      (Apart-trans db₂ db₃ db' (write_log-Apart user "order.pay" o.id o.code db₂ db₃ w₃ logged)
        (close_when-Apart reached now o.id db₃ db' u closed))

pub pay-IsSound :
    (base : ℕ → ℤ) (now : ℕ) (amount : Option ℤ) (id : ℕ) (user : AuthUser) (db db' : OrderDb)
    (u : Unit {0})
    → pay now amount id user db ≡ ok (u, db')
    → IsSound base db
    → IsSound base db'
unfolding pay
pay-IsSound base now amount id user db db' u h s =
    let (o, read, h₁) = after_reading (read_order id) _ db (read_order-Reads id) h in
    let (w, allowed, h₂) =
      after_reading (assert_location_permission user ("order:payment" ∷ []) o.location_id) _ db
        (permission-Reads user ("order:payment" ∷ []) o.location_id) h₁ in
    let (live, h₃) = throw_if-passes (is_cancelled_order o.status) invalid_transition _ db h₂ in
    let (found, key) = read_order-finds id db db o read in
    let found' = subst (λ x. find_order x db.orders ≡ some o) (sym key) found in
    elim (Bool-cases (is_paid o.financial_status)) [
      | inl t ↦ Apart-IsSound base db db' (Apart-same db db' (cc (rw t at h₃)) (cc (rw t at h₃))) s
      | inr t ↦
          let x = or_default amount (o.total_price -ℤ o.total_received) in
          let (given, last) =
            throw_if-passes (is_not_positive amount) validation_error (pay_tx now o x user) db
              (rw t at h₃) in
          let fine = All-find_row Order.id IsCollected o.id db.orders o s.collected found' in
          let m = pay_tx-Settles now o x user db db' u found' live fine last in
          Moves-IsSound base (paid_off o x) db db' m.moves (m.fits s.collected) s
    ]
