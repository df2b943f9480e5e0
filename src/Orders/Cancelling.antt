-- ===== src/Orders/Cancelling.antt =====
-- `transition` of order.service.ts: each action moves the customer's ledger by what it takes off the
-- amount that the order leaves to pay.
use mathlib.Core.Path.{subst}
use multi_warehouse_manageme.Prelude.{
  ℕ, ◌≡◌, refl, ap, sym, ◌∙◌, ◌==◌, true, not, ◌||◌, Option, none, some, List, Bool-cases, inl, inr,
  All,
}
use multi_warehouse_manageme.Prelude.Int.{
  ℤ, pos, neg, pos_part, neg_part, ◌+ℤ◌, ◌-ℤ◌, int_laws, ltb_ℤ,
}
use multi_warehouse_manageme.Prelude.Sums.{sum_ℤ}
use multi_warehouse_manageme.Prelude.Tx.{ok, >>=-eq-ok, throw_if-passes, invalid_transition}
use multi_warehouse_manageme.Prelude.Table.{update_row, sum_ℤ-update, All-update_any}
use multi_warehouse_manageme.Auth.{AuthUser}
use multi_warehouse_manageme.Orders.Types.{
  OrderStatus, Order, OrderItem, OrderDb, CustomerReferenceType, find_order, is_open, record_entry,
}
use multi_warehouse_manageme.Orders.Refunds.{recompute_statuses}
use multi_warehouse_manageme.Orders.Posting.{post_items}
use multi_warehouse_manageme.Orders.Service.{
  cancel_books, add_cancel_refund, cancelled_at, is_empty, is_ordered, process, confirmed_at,
  ship_tx, ship_order_items, ship_legs, shipped_at,
}
use multi_warehouse_manageme.Orders.Debts.{
  counted, owed, balance, IsCollected, Moves, KeepsDebt, Apart, Apart-trans, Apart-update,
  Apart-post, write_log-Apart, recompute-Apart, record_entry-adds,
}

-- A run that leaves the debts alone, before or after one that moves them.
pub Moves-before :
    (amount : ℕ → ℤ) (a b d : OrderDb) → Apart a b → Moves amount b d → Moves amount a d
Moves-before amount a b d p m c = (
  (m c).0 ∙ ap (λ l. amount c +ℤ balance c l) p.ledger,
  (m c).1 ∙ ap (λ s. amount c +ℤ s) (p.orders c),
)

pub Moves-after :
    (amount : ℕ → ℤ) (a b d : OrderDb) → Moves amount a b → Apart b d → Moves amount a d
Moves-after amount a b d m p c = (ap (balance c) p.ledger ∙ (m c).0, p.orders c ∙ (m c).1)

pub cancel_left : (a x y s : ℤ) → y +ℤ s ≡ a +ℤ y +ℤ x → s ≡ a +ℤ x
cancel_left a x y s h = let p = ap pos_part h in let n = ap neg_part h in omega int_laws

-- An entry, and the write to the order of which it is the account.
pub entry-Moves :
    (o : Order) (f : Order → Order) (amount : ℤ) (db db' : OrderDb)
    → find_order o.id db.orders ≡ some o
    → ((c : ℕ) → owed c (f o) ≡ counted c o.customer_id amount +ℤ owed c o)
    → ((c : ℕ) → balance c db'.ledger ≡ counted c o.customer_id amount +ℤ balance c db.ledger)
    → db'.orders ≡ update_row Order.id o.id f db.orders
    → Moves (λ c. counted c o.customer_id amount) db db'
entry-Moves o f amount db db' found change ledger orders c = (
  ledger c,
  ap (sum_ℤ (owed c)) orders
      ∙ cancel_left _ _ _ _ (
          sum_ℤ-update Order.id (owed c) o.id f db.orders o found
          ∙ ap (λ y. y +ℤ sum_ℤ (owed c) db.orders) (change c)),
)

add_cancel_refund-Apart :
    (o : Order) (items : List OrderItem) (db db' : OrderDb) (u : Unit {0})
    → add_cancel_refund o items db ≡ ok (u, db')
    → (db'.ledger ≡ db.ledger) × (db'.orders ≡ db.orders)
add_cancel_refund-Apart o items db db' u h =
    elim (Bool-cases (not (is_empty items) || ltb_ℤ (pos 0) o.total_received)) [
      | inl t ↦ let e = rw t at h in (cc e, cc e)
      | inr t ↦ let e = rw t at h in (cc e, cc e)
    ]

-- A share in the ledger of what changes when an order that is open is cancelled.
cancelled_change :
    (c : ℕ) (customer : Option ℕ) (price received : ℤ)
    → counted c customer (neg received)
      ≡ counted c customer (neg price) +ℤ counted c customer (price -ℤ received)
cancelled_change c none price received = omega int_laws
cancelled_change c (some x) price received = elim (Bool-cases (x == c)) [
  | inl t ↦ rw t (omega int_laws)
  | inr t ↦ rw t (omega int_laws)
]

pub open_status : (s : OrderStatus) → is_open s ≡ true → s ≡ OrderStatus.opened
open_status OrderStatus.opened h = refl
open_status OrderStatus.closed h = absurd (cc h)
open_status OrderStatus.cancelled h = absurd (cc h)

cancelled_at-fits : (now : ℕ) (o : Order) → IsCollected o → IsCollected (cancelled_at now o)
cancelled_at-fits now o h = h

-- What a step does to the debts: it moves them, and no order gets more than its price.
pub record Settles (amount : ℕ → ℤ) (db db' : OrderDb) : Type 0 where
  pub moves : Moves amount db db'
  pub fits : All IsCollected db.orders → All IsCollected db'.orders

pub Settles-before :
    (amount : ℕ → ℤ) (a b d : OrderDb) → Apart a b → Settles amount b d → Settles amount a d
Settles-before amount a b d p m = record {
  moves = Moves-before amount a b d p m.moves;
  fits = λ h. m.fits (p.fits h);
}

pub Settles-after :
    (amount : ℕ → ℤ) (a b d : OrderDb) → Settles amount a b → Apart b d → Settles amount a d
Settles-after amount a b d m p = record {
  moves = Moves-after amount a b d m.moves p;
  fits = λ h. p.fits (m.fits h);
}

abbrev pub off_price : Order → ℕ → ℤ
off_price o c = counted c o.customer_id (neg o.total_price)

abbrev pub cancelled_in : ℕ → Order → OrderDb → OrderDb
cancelled_in now o db = record db { orders = update_row Order.id o.id (cancelled_at now) db.orders }

pub cancel_books-Settles :
    (now : ℕ) (o : Order) (items : List OrderItem) (user : AuthUser) (db db' : OrderDb)
    (u : Unit {0})
    → find_order o.id db.orders ≡ some o
    → is_open o.status ≡ true
    → cancel_books now o items user db ≡ ok (u, db')
    → Settles (off_price o) db db'
unfolding cancel_books
cancel_books-Settles now o items user db db' u found live h =
    let (w₁, db₁, entered, h₁) =
      >>=-eq-ok
        (record_entry o.customer_id CustomerReferenceType.order o.code (neg o.total_price) user) _
        db h in
    let (w₂, db₂, refunded, h₂) = >>=-eq-ok (add_cancel_refund o items) _ db₁ h₁ in
    let db₃ : OrderDb = cancelled_in now o db₂ in
    let (w₄, db₄, computed, h₄) = >>=-eq-ok (recompute_statuses o.id) _ db₃ h₂ in
    let (grown, same₁) =
      record_entry-adds o.customer_id CustomerReferenceType.order o.code (neg o.total_price) user db
        db₁ w₁ entered in
    let (l₂, o₂) = add_cancel_refund-Apart o items db₁ db₂ w₂ refunded in
    let orders : db₃.orders ≡ update_row Order.id o.id (cancelled_at now) db.orders =
      ap (update_row Order.id o.id (cancelled_at now)) (o₂ ∙ same₁) in
    let ledger : db₃.ledger ≡ db₁.ledger = l₂ in
    let last : Apart db₄ db' = write_log-Apart user "order.cancel" o.id o.code db₄ db' u h₄ in
    let change : (c : ℕ) → owed c (cancelled_at now o) ≡ off_price o c +ℤ owed c o = λ c.
      rw (open_status o.status live)
        (cancelled_change c o.customer_id o.total_price o.total_received) in
    Settles-after (off_price o) db db₃ db'
      (record {
        moves =
            entry-Moves o (cancelled_at now) (neg o.total_price) db db₃ found change
              (λ c. ap (balance c) ledger ∙ grown c) orders;
        fits = λ k. subst (All IsCollected) (sym orders) (
            All-update_any Order.id IsCollected o.id (cancelled_at now) db.orders
              (cancelled_at-fits now) k);
      })
      (Apart-trans db₃ db₄ db' (recompute-Apart o.id db₃ db₄ w₄ computed) last)

-- The other writes to the order leave its amounts alone, while it is not cancelled.
confirmed_at-KeepsDebt : (now : ℕ) → KeepsDebt (confirmed_at now)
confirmed_at-KeepsDebt now = record { key = λ o. refl; debt = λ c o. refl; fits = λ o h. h }

shipped_at-KeepsDebt : (now : ℕ) → KeepsDebt (shipped_at now)
shipped_at-KeepsDebt now = record { key = λ o. refl; debt = λ c o. refl; fits = λ o h. h }

pub process-Apart :
    (now : ℕ) (o : Order) (user : AuthUser) (db db' : OrderDb) (u : Unit {0})
    → process now o user db ≡ ok (u, db')
    → Apart db db'
unfolding process
process-Apart now o user db db' u h =
    let (live, h₁) = throw_if-passes (not (is_ordered o)) invalid_transition _ db h in
    Apart-update o.id (confirmed_at now) db db' (confirmed_at-KeepsDebt now) (cc h₁) (cc h₁)

pub ship_tx-Apart :
    (now : ℕ) (o : Order) (user : AuthUser) (db db' : OrderDb) (u : Unit {0})
    → ship_tx now o user db ≡ ok (u, db')
    → Apart db db'
unfolding ship_tx ship_order_items
ship_tx-Apart now o user db db' u h =
    let (w, db₁, posted, last) = >>=-eq-ok (post_items o user ship_legs o.items) _ db h in
    Apart-trans db db₁ db' (Apart-post o user ship_legs o.items db db₁ w posted)
      (Apart-update o.id (shipped_at now) db₁ db' (shipped_at-KeepsDebt now) (cc last) (cc last))
