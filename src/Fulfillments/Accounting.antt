-- ===== src/Fulfillments/Accounting.antt =====
-- What a handler of fulfillment.service.ts that has posted for its package leaves accounted for.
use mathlib.Core.Path.{subst}
use multi_warehouse_manageme.Prelude.{
  ℕ, ◌≡◌, refl, ap, sym, ◌∙◌, Bool, true, false, if◌then◌else◌, some, List, [], All,
}
use multi_warehouse_manageme.Prelude.Int.{ℤ, ◌+ℤ◌, zero_+ℤ}
use multi_warehouse_manageme.Prelude.Sums.{sum_ℤ}
use multi_warehouse_manageme.Prelude.Tx.{ok}
use multi_warehouse_manageme.Prelude.Table.{update_row, find_row-key, All-find_row, All-update_row}
use multi_warehouse_manageme.Auth.{AuthUser}
use multi_warehouse_manageme.Inventory.Types.{Bucket}
use multi_warehouse_manageme.Inventory.Levels.{is_ledger}
use multi_warehouse_manageme.Inventory.Effect.{counter}
use multi_warehouse_manageme.Orders.Types.{
  Order, Fulfillment, OrderDb, find_order, find_fulfillment,
}
use multi_warehouse_manageme.Orders.Posting.{
  Leg, leg_share, post_items-adds, post_items-tables, SameTables, pieces,
}
use multi_warehouse_manageme.Fulfillments.Service.{post_if}
use multi_warehouse_manageme.Fulfillments.Whereabouts.{
  place, held, KeepsItems, held-update, Effect, Fits, IsAccounted, AreMarked, packed_is_marked,
  Effect-IsAccounted,
}

pub record Accounts (base : ℕ → ℕ → Bucket → ℤ) (db : OrderDb) : Type 0 where
  pub accounted : IsAccounted base db
  pub marked : AreMarked db

pub Effect-Accounts :
    (base : ℕ → ℕ → Bucket → ℤ) (db db' : OrderDb) (id : ℕ) (f : Fulfillment)
    (g : Fulfillment → Fulfillment) (o : Order) (legs : List Leg)
    → find_fulfillment id db.fulfillments ≡ some f
    → find_order f.order_id db.orders ≡ some o
    → (g f).order_id ≡ f.order_id
    → Effect db db' f g o legs
    → Fits legs (place f) (place (g f))
    → (packed_is_marked f ≡ true → packed_is_marked (g f) ≡ true)
    → Accounts base db
    → Accounts base db'
Effect-Accounts base db db' id f g o legs found found_order same e fits marks a =
    let key = find_row-key Fulfillment.id id db.fulfillments f found in
    let here : find_fulfillment f.id db.fulfillments ≡ some f =
      subst (λ i. find_fulfillment i db.fulfillments ≡ some f) (sym key) found in
    let P = λ (x : Fulfillment). packed_is_marked x ≡ true in
    record {
      accounted =
          Effect-IsAccounted base db db' f g o legs e here found_order same fits a.accounted;
      marked = subst (All P) (sym e.rows) (
          All-update_row Fulfillment.id P f.id g db.fulfillments f a.marked here
            (marks (All-find_row Fulfillment.id P f.id db.fulfillments f a.marked here)));
    }

abbrev pub when : Bool → List Leg → List Leg
when b legs = if b then legs else []

pub post_if-adds :
    (b : Bool) (o : Order) (user : AuthUser) (legs : List Leg) (db db' : OrderDb) (u : Unit {0})
    (v l : ℕ) (c : Bucket)
    → is_ledger c ≡ true
    → post_if b o user legs db ≡ ok (u, db')
    → counter v l c db'.stock
      ≡ sum_ℤ (leg_share o (pieces v o.items) l c) (when b legs) +ℤ counter v l c db.stock
post_if-adds true o user legs db db' u v l c g h =
    post_items-adds o user v l c g legs o.items db db' u h
post_if-adds false o user legs db db' u v l c g h =
    let same : db ≡ db' = cc h in
    ap (λ (d : OrderDb). counter v l c d.stock) (sym same) ∙ sym (zero_+ℤ _)

pub post_if-tables :
    (b : Bool) (o : Order) (user : AuthUser) (legs : List Leg) (db db' : OrderDb) (u : Unit {0})
    → post_if b o user legs db ≡ ok (u, db')
    → SameTables db db'
post_if-tables true o user legs db db' u h = post_items-tables o user legs o.items db db' u h
post_if-tables false o user legs db db' u h =
    let same : db ≡ db' = cc h in subst (SameTables db) same refl

-- A round of postings, and then writes to the other tables.
pub after_posting :
    (db db₁ db' : OrderDb) (f : Fulfillment) (g : Fulfillment → Fulfillment) (o : Order)
    (legs : List Leg)
    → SameTables db db₁
    → ((v l : ℕ) (c : Bucket)
        → is_ledger c ≡ true
        → counter v l c db₁.stock
          ≡ sum_ℤ (leg_share o (pieces v o.items) l c) legs +ℤ counter v l c db.stock)
    → db'.fulfillments ≡ update_row Fulfillment.id f.id g db₁.fulfillments
    → ((v l : ℕ) (c : Bucket) (h : Fulfillment) → held db'.orders v l c h ≡ held db₁.orders v l c h)
    → db'.stock ≡ db₁.stock
    → Effect db db' f g o legs
after_posting db db₁ db' f g o legs same adds rows orders stock = record {
  rows = rows ∙ ap (λ (d : OrderDb). update_row Fulfillment.id f.id g d.fulfillments) same;
  orders = λ v l c h. orders v l c h ∙ ap (λ (d : OrderDb). held d.orders v l c h) same;
  stock = λ v l c ledger. ap (counter v l c) stock ∙ adds v l c ledger;
}

-- The handlers' updates of an order leave its items alone.
pub updates :
    (id : ℕ) (g : Order → Order) (db₁ db' : OrderDb)
    → KeepsItems g
    → db'.orders ≡ update_row Order.id id g db₁.orders
    → (v l : ℕ) (c : Bucket) (h : Fulfillment) → held db'.orders v l c h ≡ held db₁.orders v l c h
updates id g db₁ db' k e v l c h =
    ap (λ os. held os v l c h) e ∙ held-update id g db₁.orders v l c h k

pub keeps :
    {g : Order → Order}
    → ((o : Order) → (g o).id ≡ o.id)
    → ((o : Order) → (g o).location_id ≡ o.location_id)
    → ((o : Order) → (g o).items ≡ o.items)
    → KeepsItems g
keeps i l x = record { id = i; location_id = l; items = x }
