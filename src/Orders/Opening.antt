-- ===== src/Orders/Opening.antt =====
-- `create` of order.service.ts: what a new order does to the debts.
use mathlib.Core.Path.{subst}
use multi_warehouse_manageme.Prelude.{
  ℕ, ◌≡◌, refl, ap, sym, ◌∙◌, ◌==◌, Bool, false, not, ◌||◌, Option, none, some, List, [], ◌∷◌,
  Bool-cases, inl, inr, All, or_default,
}
use multi_warehouse_manageme.Prelude.Int.{ℤ, pos, neg, ◌+ℤ◌, ◌-ℤ◌, ◌≤ℤ◌, int_laws, ltb_ℤ, zero_+ℤ}
use multi_warehouse_manageme.Prelude.Sums.{sum_ℤ}
use multi_warehouse_manageme.Prelude.Tx.{
  ok, ◌>>◌, or_throw, for_each, for_each-keeps, >>=-eq-ok, throw_if-passes, Reads, after_reading,
  Result-cases, validation_error, missing_warehouse, duplicate_code, record_not_found, Error,
}
use multi_warehouse_manageme.Auth.{AuthUser, assert_location_permission, has_location_permission}
use multi_warehouse_manageme.Inventory.Service.{apply_movements}
use multi_warehouse_manageme.Inventory.Lines.{on_stock, on_stock-inv}
use multi_warehouse_manageme.Inventory.Locking.{sort_for_locking}
use multi_warehouse_manageme.Orders.Types.{
  Order, OrderDb, CustomerReferenceType, stock_in, write_log, record_entry, create_receipt,
}
use multi_warehouse_manageme.Orders.Posting.{SameTables}
use multi_warehouse_manageme.Orders.Pricing.{OrderItemDto, Catalog, ResolvedItem, resolve_items}
use multi_warehouse_manageme.Orders.Creating.{
  CreateOrderDto, resolving, totals_of, new_order, by_variant_and_location, reserve_movement,
  reserve_item, take_deposit, add_order, create_books, create_tx, create, is_duplicate,
  misses_location, is_empty,
}
use multi_warehouse_manageme.Orders.Debts.{
  counted, owed, balance, IsCollected, IsSound, Moves-IsSound, Moves, Apart-IsSound,
  record_entry-adds, write_log-Apart,
}
use multi_warehouse_manageme.Orders.Transitions.{permission-Reads}

reserve_item-tables :
    (o : Order) (user : AuthUser) (r : ResolvedItem) (db db' : OrderDb) (u : Unit {0})
    → reserve_item o user r db ≡ ok (u, db')
    → SameTables db db'
unfolding reserve_item
reserve_item-tables o user r db db' u h =
    let inputs = reserve_movement o user r ∷ [] in
    let (w, allowed, h₁) =
      after_reading (assert_location_permission user ("order:create" ∷ []) r.location_id) _ db
        (permission-Reads user ("order:create" ∷ []) r.location_id) h in
    let (x, db₁, moved, last) = >>=-eq-ok (on_stock stock_in (apply_movements inputs)) _ db h₁ in
    let (t, applied, put) = on_stock-inv stock_in (apply_movements inputs) db db₁ x moved in
    let same : db₁ ≡ db' = cc last in subst (SameTables db) (put ∙ same) refl

reserve-Apart :
    (o : Order) (user : AuthUser) (items : List ResolvedItem) (db db' : OrderDb) (u : Unit {0})
    → for_each (reserve_item o user) items db ≡ ok (u, db')
    → SameTables db db'
reserve-Apart o user items db db' u h =
    for_each-keeps (λ d. SameTables db d) (reserve_item o user)
      (λ item d d' w p e.
        reserve_item-tables o user item d d' w e
        ∙ ap (λ (x : OrderDb). record x { stock = d'.stock }) p)
      items db db' u refl h

nothing_paid :
    (c : ℕ) (customer : Option ℕ) (paid b : ℤ)
    → pos 0 ≤ℤ paid
    → ltb_ℤ (pos 0) paid ≡ false
    → b ≡ counted c customer (neg paid) +ℤ b
nothing_paid c none paid b fine t = sym (zero_+ℤ b)
nothing_paid c (some x) paid b fine t = elim (Bool-cases (x == c)) [
  | inl e ↦ rw e (grind int_laws)
  | inr e ↦ rw e (sym (zero_+ℤ b))
]

-- The deposit, and its entry in the ledger.
take_deposit-adds :
    (o : Order) (paid : ℤ) (user : AuthUser) (db db' : OrderDb) (u : Unit {0})
    → pos 0 ≤ℤ paid
    → take_deposit o paid user db ≡ ok (u, db')
    → ((c : ℕ) → balance c db'.ledger ≡ counted c o.customer_id (neg paid) +ℤ balance c db.ledger)
      × (db'.orders ≡ db.orders)
take_deposit-adds o paid user db db' u fine h = elim (Bool-cases (ltb_ℤ (pos 0) paid)) [
  | inl t ↦
      let (w, db₁, receipt, entered) =
        >>=-eq-ok (create_receipt o paid user)
          (λ _. record_entry o.customer_id CustomerReferenceType.payment o.code (neg paid) user) db
          (rw t at h) in
      let (grown, same) =
        record_entry-adds o.customer_id CustomerReferenceType.payment o.code (neg paid) user db₁ db'
          u entered in
      let l : db₁.ledger ≡ db.ledger = cc receipt in
      let os : db₁.orders ≡ db.orders = cc receipt in
      (λ c. grown c ∙ ap (λ x. counted c o.customer_id (neg paid) +ℤ balance c x) l, same ∙ os)
  | inr t ↦
      let e = rw t at h in
      let l : db'.ledger ≡ db.ledger = cc e in
      (λ c. ap (balance c) l ∙ nothing_paid c o.customer_id paid (balance c db.ledger) fine t, cc e)
]

first_entries :
    (c : ℕ) (customer : Option ℕ) (price paid b : ℤ)
    → counted c customer (neg paid) +ℤ (counted c customer price +ℤ b)
      ≡ counted c customer (price -ℤ paid) +ℤ b
first_entries c none price paid b = omega int_laws
first_entries c (some x) price paid b = elim (Bool-cases (x == c)) [
  | inl e ↦ rw e (omega int_laws)
  | inr e ↦ rw e (omega int_laws)
]

create_tx-IsSound :
    (base : ℕ → ℤ) (o : Order) (items : List ResolvedItem) (user : AuthUser) (db db' : OrderDb)
    (u : Unit {0})
    → ((c : ℕ) → owed c o ≡ counted c o.customer_id (o.total_price -ℤ o.total_received))
    → IsCollected o
    → create_tx o items user db ≡ ok (u, db')
    → IsSound base db
    → IsSound base db'
unfolding create_tx create_books
create_tx-IsSound base o items user db db' u first fine h s =
    let db₀ = add_order o db in
    let sorted = sort_for_locking by_variant_and_location items in
    let (w₁, db₁, reserved, h₁) = >>=-eq-ok (for_each (reserve_item o user) sorted) _ db₀ h in
    let same = reserve-Apart o user sorted db₀ db₁ w₁ reserved in
    let (w₂, db₂, entered, h₂) =
      >>=-eq-ok (record_entry o.customer_id CustomerReferenceType.order o.code o.total_price user)
        (λ _. take_deposit o o.total_received user >> write_log user "order.create" o.id o.code) db₁
        h₁ in
    let (w₃, db₃, deposit, logged) =
      >>=-eq-ok (take_deposit o o.total_received user)
        (λ _. write_log user "order.create" o.id o.code) db₂ h₂ in
    let (grown, os₂) =
      record_entry-adds o.customer_id CustomerReferenceType.order o.code o.total_price user db₁ db₂
        w₂ entered in
    let (grown', os₃) = take_deposit-adds o o.total_received user db₂ db₃ w₃ fine.0 deposit in
    let orders : db₃.orders ≡ o ∷ db.orders = os₃ ∙ os₂ ∙ ap OrderDb.orders same in
    let last = write_log-Apart user "order.create" o.id o.code db₃ db' u logged in
    let m : Moves (λ c. owed c o) db db₃ = λ c. (
      grown' c
          ∙ ap (λ y. counted c o.customer_id (neg o.total_received) +ℤ y)
              (grown c
                ∙ ap (λ l. counted c o.customer_id o.total_price +ℤ balance c l)
                    (ap OrderDb.ledger same))
          ∙ first_entries c o.customer_id o.total_price o.total_received (balance c db.ledger)
          ∙ ap (λ y. y +ℤ balance c db.ledger) (sym (first c)),
      ap (sum_ℤ (owed c)) orders,
    ) in
    Apart-IsSound base db₃ db' last (
      Moves-IsSound base (λ c. owed c o) db db₃ m
        (subst (All IsCollected) (sym orders) (fine, s.collected)) s)

resolving-Reads :
    (cat : Catalog) (b : Bool) (items : List OrderItemDto) → Reads (resolving cat b items)
resolving-Reads cat b items db db' x h = elim (Result-cases (resolve_items cat b items tt)) [
  | inl ((rs, w), e) ↦ cc (rw (e, resolving) at h)
  | inr (x, e) ↦ absurd (cc (rw (e, resolving) at h))
]

or_throw-Reads : {A : Type 0} (o : Option A) (e : Error) → Reads {S = OrderDb} (or_throw o e)
or_throw-Reads none e db db' x h = absurd (cc h)
or_throw-Reads (some a) e db db' x h = cc

-- `@Min(0)` on `total_received`.
abbrev pub IsChecked : CreateOrderDto → Type 0
IsChecked dto = pos 0 ≤ℤ or_default dto.total_received (pos 0)

not_over : (price paid : ℤ) → ltb_ℤ price paid ≡ false → paid ≤ℤ price
not_over price paid h = grind int_laws

pub create-IsSound :
    (base : ℕ → ℤ) (cat : Catalog) (tax : ℤ → ℤ) (now generated : ℕ) (trusted : Bool)
    (dto : CreateOrderDto) (user : AuthUser) (db db' : OrderDb) (u : Unit {0})
    → IsChecked dto
    → create cat tax now generated trusted dto user db ≡ ok (u, db')
    → IsSound base db
    → IsSound base db'
unfolding create
create-IsSound base cat tax now generated trusted dto user db db' u fine h s =
    let overrides =
      trusted || has_location_permission user "order:override_price" (some dto.location_id) in
    let paid = or_default dto.total_received (pos 0) in
    let (some_items, h₁) = throw_if-passes (is_empty dto.items) validation_error _ db h in
    let (located, h₂) = throw_if-passes (misses_location dto.items) missing_warehouse _ db h₁ in
    let (w, allowed, h₃) =
      after_reading (assert_location_permission user ("order:create" ∷ []) dto.location_id) _ db
        (permission-Reads user ("order:create" ∷ []) dto.location_id) h₂ in
    let (there, h₄) =
      throw_if-passes (not (cat.location_exists dto.location_id)) record_not_found _ db h₃ in
    let (new, h₅) = throw_if-passes (is_duplicate dto.name db.orders) duplicate_code _ db h₄ in
    let (items, resolved, h₆) =
      after_reading (resolving cat overrides dto.items) _ db
        (resolving-Reads cat overrides dto.items) h₅ in
    let (customer_id, named, h₇) =
      after_reading (or_throw dto.customer_id validation_error) _ db
        (or_throw-Reads dto.customer_id validation_error) h₆ in
    let totals = totals_of tax dto items in
    let (within, last) = throw_if-passes (ltb_ℤ totals.total_price paid) validation_error _ db h₇ in
    create_tx-IsSound base
      (new_order now db.next_id (or_default dto.name generated) customer_id dto items totals paid)
      items user db db' u (λ c. refl) (fine, not_over totals.total_price paid within) last s
