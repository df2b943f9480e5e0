-- ===== src/Orders/Debts.antt =====
-- What customers owe for their orders (order.service.ts): the transitions of an order.
use mathlib.Core.Path.{subst}
use multi_warehouse_manageme.Prelude.{
  ℕ, String, ◌≡◌, refl, ap, sym, ◌∙◌, ◌==◌, Option, none, some, List, ◌∷◌, Option-cases, inl, inr,
  All, map, filter, length, if◌then◌else◌,
}
use multi_warehouse_manageme.Prelude.Int.{ℤ, pos, neg, ◌+ℤ◌, ◌-ℤ◌, ◌≤ℤ◌, int_laws, zero_+ℤ}
use multi_warehouse_manageme.Prelude.Sums.{sum_ℤ}
use multi_warehouse_manageme.Prelude.Tx.{ok, or_throw}
use multi_warehouse_manageme.Prelude.Table.{update_row, sum_ℤ-update_same, All-update_any}
use multi_warehouse_manageme.Auth.{AuthUser}
use multi_warehouse_manageme.Orders.RefundStatus.{RefundStatuses, recompute_order_refund_statuses}
use multi_warehouse_manageme.Orders.Types.{
  OrderStatus, Order, OrderItem, OrderDb, CustomerReferenceType, CustomerLedgerEntry, find_order,
  record_entry, write_log,
}
use multi_warehouse_manageme.Orders.Refunds.{
  recompute_statuses, with_statuses, refund_lines, line_of, total_refunded_of,
}
use multi_warehouse_manageme.Orders.Posting.{post_items, post_items-tables, Leg}

-- What an amount of a customer's order counts for one customer.
abbrev pub counted : ℕ → Option ℕ → ℤ → ℤ
counted c none amount = pos 0
counted c (some x) amount = if x == c then amount else pos 0

-- What an order leaves to pay: a cancelled one owes the customer what has been received.
abbrev pub due : OrderStatus → ℤ → ℤ → ℤ
due OrderStatus.cancelled price received = neg received
due _ price received = price -ℤ received

abbrev pub owed : ℕ → Order → ℤ
owed c o = counted c o.customer_id (due o.status o.total_price o.total_received)

abbrev pub entry_of : ℕ → CustomerLedgerEntry → ℤ
entry_of c e = counted c (some e.customer_id) e.amount

-- The sum of a customer's ledger.
abbrev pub balance : ℕ → List CustomerLedgerEntry → ℤ
balance c = sum_ℤ (entry_of c)

abbrev pub IsCollected : Order → Type 0
IsCollected o = (pos 0 ≤ℤ o.total_received) × (o.total_received ≤ℤ o.total_price)

-- Each customer's ledger is what the orders leave to pay, over what the customer owed otherwise; and
-- no order has received more than its price.
pub record IsSound (base : ℕ → ℤ) (db : OrderDb) : Type 0 where
  pub balanced : (c : ℕ) → balance c db.ledger ≡ base c +ℤ sum_ℤ (owed c) db.orders
  pub collected : All IsCollected db.orders

-- The ledger and what the orders leave to pay move by the same amount.
abbrev pub Moves : (ℕ → ℤ) → OrderDb → OrderDb → Type 0
Moves amount db db' =
    (c : ℕ)
    → (balance c db'.ledger ≡ amount c +ℤ balance c db.ledger)
      × (sum_ℤ (owed c) db'.orders ≡ amount c +ℤ sum_ℤ (owed c) db.orders)

move : (a b s : ℤ) → a +ℤ (b +ℤ s) ≡ b +ℤ (a +ℤ s)
move a b s = omega int_laws

pub Moves-IsSound :
    (base amount : ℕ → ℤ) (db db' : OrderDb)
    → Moves amount db db'
    → All IsCollected db'.orders
    → IsSound base db
    → IsSound base db'
Moves-IsSound base amount db db' m fits s = record {
  balanced = λ c.
      (m c).0
      ∙ ap (λ y. amount c +ℤ y) (s.balanced c)
      ∙ move (amount c) (base c) (sum_ℤ (owed c) db.orders)
      ∙ ap (λ y. base c +ℤ y) (sym (m c).1);
  collected = fits;
}

-- A write to a row that leaves its amounts, its customer and its being cancelled alone.
pub record KeepsDebt (f : Order → Order) : Type 0 where
  pub key : (o : Order) → (f o).id ≡ o.id
  pub debt : (c : ℕ) (o : Order) → owed c (f o) ≡ owed c o
  pub fits : (o : Order) → IsCollected o → IsCollected (f o)

-- A part of a transaction that leaves the debts alone.
pub record Apart (db db' : OrderDb) : Type 0 where
  pub ledger : db'.ledger ≡ db.ledger
  pub orders : (c : ℕ) → sum_ℤ (owed c) db'.orders ≡ sum_ℤ (owed c) db.orders
  pub fits : All IsCollected db.orders → All IsCollected db'.orders

pub Apart-same : (db db' : OrderDb) → db'.ledger ≡ db.ledger → db'.orders ≡ db.orders → Apart db db'
Apart-same db db' l o = record {
  ledger = l;
  orders = λ c. ap (sum_ℤ (owed c)) o;
  fits = subst (All IsCollected) (sym o);
}

pub Apart-trans : (a b d : OrderDb) → Apart a b → Apart b d → Apart a d
Apart-trans a b d p q = record {
  ledger = q.ledger ∙ p.ledger;
  orders = λ c. q.orders c ∙ p.orders c;
  fits = λ h. q.fits (p.fits h);
}

pub Apart-update :
    (id : ℕ) (f : Order → Order) (db db' : OrderDb)
    → KeepsDebt f
    → db'.orders ≡ update_row Order.id id f db.orders
    → db'.ledger ≡ db.ledger
    → Apart db db'
Apart-update id f db db' k e l = record {
  ledger = l;
  orders =
      λ c. ap (sum_ℤ (owed c)) e ∙ sum_ℤ-update_same Order.id (owed c) id f db.orders (k.debt c);
  fits = λ h.
      subst (All IsCollected) (sym e) (All-update_any Order.id IsCollected id f db.orders k.fits h);
}

pub Apart-post :
    (o : Order) (user : AuthUser) (legs : List Leg) (items : List OrderItem) (db db' : OrderDb)
    (u : Unit {0})
    → post_items o user legs items db ≡ ok (u, db')
    → Apart db db'
Apart-post o user legs items db db' u h =
    let same = post_items-tables o user legs items db db' u h in
    Apart-same db db' (ap OrderDb.ledger same) (ap OrderDb.orders same)

-- A run that moves nothing is sound where it was.
pub Apart-IsSound :
    (base : ℕ → ℤ) (db db' : OrderDb) → Apart db db' → IsSound base db → IsSound base db'
Apart-IsSound base db db' a s = record {
  balanced = λ c. ap (balance c) a.ledger ∙ s.balanced c ∙ ap (λ y. base c +ℤ y) (sym (a.orders c));
  collected = a.fits s.collected;
}

with_statuses-KeepsDebt : (s : RefundStatuses) → KeepsDebt (with_statuses s)
with_statuses-KeepsDebt s = record { key = λ o. refl; debt = λ c o. refl; fits = λ o h. h }

pub recompute-Apart :
    (id : ℕ) (db db' : OrderDb) (u : Unit {0})
    → recompute_statuses id db ≡ ok (u, db')
    → Apart db db'
unfolding recompute_statuses
recompute-Apart id db db' u h = elim (Option-cases (find_order id db.orders)) [
  | inl e ↦ absurd (cc (rw e at h))
  | inr (o, e) ↦
      let s =
        recompute_order_refund_statuses o.total_price (map OrderItem.quantity o.items)
          (map line_of (refund_lines id db.refunds))
          (length (filter (λ i. i == id) db.open_returns)) (total_refunded_of id db.refunds) in
      let done = rw (e, or_throw) at h in
      Apart-update id (with_statuses s) db db' (with_statuses-KeepsDebt s) (cc done) (cc done)
]

-- An entry for the customer of an order, and the write to the order that it answers.
pub record_entry-adds :
    (customer : Option ℕ) (t : CustomerReferenceType) (code : ℕ) (amount : ℤ) (user : AuthUser)
    (db db' : OrderDb) (u : Unit {0})
    → record_entry customer t code amount user db ≡ ok (u, db')
    → ((c : ℕ) → balance c db'.ledger ≡ counted c customer amount +ℤ balance c db.ledger)
      × (db'.orders ≡ db.orders)
record_entry-adds none t code amount user db db' u h =
    let same : db'.ledger ≡ db.ledger = cc h in (λ c. ap (balance c) same ∙ sym (zero_+ℤ _), cc h)
record_entry-adds (some x) t code amount user db db' u h =
    let e : CustomerLedgerEntry = record {
      customer_id = x;
      reference_type = t;
      reference_code = code;
      amount = amount;
      created_by_id = user.user_id;
    } in
    let grown : db'.ledger ≡ e ∷ db.ledger = cc h in (λ c. ap (balance c) grown, cc h)

pub write_log-Apart :
    (user : AuthUser) (action : String) (id code : ℕ) (db db' : OrderDb) (u : Unit {0})
    → write_log user action id code db ≡ ok (u, db')
    → Apart db db'
write_log-Apart user action id code db db' u h = Apart-same db db' (cc h) (cc h)
