-- ===== src/Orders/Posting.antt =====
-- The loops of order.service.ts and fulfillment.service.ts that post stock movements for each item of
-- an order: `for (const item of sortForLocking(order.items)) applyMovements([…])`.
use mathlib.Core.Path.{ap₂, subst}
use multi_warehouse_manageme.Prelude.{
  ℕ, ◌≡◌, refl, ap, sym, ◌∙◌, true, none, some, List, [], ◌∷◌, map,
}
use multi_warehouse_manageme.Prelude.Int.{ℤ, pos, ◌+ℤ◌, zero_+ℤ}
use multi_warehouse_manageme.Prelude.Sums.{sum_ℤ, sum_ℤ-add, for_each-sum}
use multi_warehouse_manageme.Prelude.Tx.{Tx, ok, ◌>>◌, return, for_each, for_each-keeps, >>=-eq-ok}
use multi_warehouse_manageme.Auth.{AuthUser}
use multi_warehouse_manageme.Inventory.Types.{Bucket, MovementType, ApplyMovementInput}
use multi_warehouse_manageme.Inventory.Service.{apply_movements}
use multi_warehouse_manageme.Inventory.Levels.{is_ledger}
use multi_warehouse_manageme.Inventory.Locking.{sort_for_locking, sum_ℤ-sort}
use multi_warehouse_manageme.Inventory.Effect.{counter, postings, apply_movements-postings}
use multi_warehouse_manageme.Inventory.Lines.{
  on_stock, on_stock-inv, share, minus, posting-share, pieces_of, line_share, pos_lines,
  minus_lines,
}
use multi_warehouse_manageme.Orders.Types.{Order, OrderItem, OrderDb, stock_in, by_variant}

-- One movement of a round: the bucket, whether the pieces enter it, and its type.
pub data Leg : Type 0 where
  enter leave : Bucket → MovementType → Leg

abbrev pub leg_bucket : Leg → Bucket
leg_bucket (enter b _) = b
leg_bucket (leave b _) = b

abbrev pub leg_type : Leg → MovementType
leg_type (enter _ t) = t
leg_type (leave _ t) = t

abbrev pub signed : Leg → ℕ → ℤ
signed (enter _ _) n = pos n
signed (leave _ _) n = minus n

abbrev pub leg_movement : Order → AuthUser → OrderItem → Leg → ApplyMovementInput
leg_movement o user item leg = record {
  variant_id = item.variant_id;
  location_id = o.location_id;
  bucket = leg_bucket leg;
  change = signed leg item.quantity;
  type = leg_type leg;
  reference_type = some "order";
  reference_id = some o.id;
  created_by_id = some user.user_id;
  price = none;
  cost = none;
}

unfoldable pub post_item : Order → AuthUser → List Leg → OrderItem → Tx OrderDb (Unit {0})
post_item o user legs item = do
  on_stock stock_in (apply_movements (map (leg_movement o user item) legs))
  return tt

-- The loop, over the items that it is given.
unfoldable pub post_items : Order → AuthUser → List Leg → List OrderItem → Tx OrderDb (Unit {0})
unfolding post_item
post_items o user legs items = for_each (post_item o user legs) (sort_for_locking by_variant items)

-- What one leg posts for `n` pieces at the order's location.
abbrev pub leg_share : Order → ℕ → ℕ → Bucket → Leg → ℤ
leg_share o n l c leg = share o.location_id (leg_bucket leg) (signed leg n) l c

-- The pieces of a variant among the items.
abbrev pub pieces : ℕ → List OrderItem → ℕ
pieces = pieces_of OrderItem.variant_id OrderItem.quantity

module _ (o : Order) (user : AuthUser) (v l : ℕ) (c : Bucket) (g : is_ledger c ≡ true) where
  abbrev of_leg : Leg → OrderItem → ℤ
  of_leg leg =
      line_share OrderItem.variant_id OrderItem.quantity v l c o.location_id (leg_bucket leg)
        (signed leg)

  legs-postings :
      (item : OrderItem) (legs : List Leg)
      → postings v l c (map (leg_movement o user item) legs) ≡ sum_ℤ (λ leg. of_leg leg item) legs
  unfolding postings
  legs-postings item [] = refl
  legs-postings item (leg ∷ legs) =
      ap₂ ◌+ℤ◌ (posting-share v l c (leg_movement o user item leg)) (legs-postings item legs)

  leg_lines :
      (leg : Leg) (items : List OrderItem)
      → sum_ℤ (of_leg leg) items ≡ leg_share o (pieces v items) l c leg
  leg_lines (enter b t) items = pos_lines _ _ v l c o.location_id b items
  leg_lines (leave b t) items = minus_lines _ _ v l c o.location_id b items

  nothing : (items : List OrderItem) → sum_ℤ (λ (item : OrderItem). pos 0) items ≡ pos 0
  nothing [] = refl
  nothing (x ∷ xs) = ap (λ y. pos 0 +ℤ y) (nothing xs) ∙ zero_+ℤ (pos 0)

  legs_lines :
      (legs : List Leg) (items : List OrderItem)
      → sum_ℤ (λ item. sum_ℤ (λ leg. of_leg leg item) legs) items
        ≡ sum_ℤ (leg_share o (pieces v items) l c) legs
  legs_lines [] items = nothing items
  legs_lines (leg ∷ legs) items =
      sum_ℤ-add (of_leg leg) (λ item. sum_ℤ (λ x. of_leg x item) legs) items
      ∙ ap₂ ◌+ℤ◌ (leg_lines leg items) (legs_lines legs items)

  post_item-adds :
      (legs : List Leg) (item : OrderItem) (db db' : OrderDb) (u : Unit {0})
      → post_item o user legs item db ≡ ok (u, db')
      → counter v l c db'.stock ≡ sum_ℤ (λ leg. of_leg leg item) legs +ℤ counter v l c db.stock
  unfolding post_item
  post_item-adds legs item db db' u h =
      let inputs = map (leg_movement o user item) legs in
      let (r, db₁, moved, last) = >>=-eq-ok (on_stock stock_in (apply_movements inputs)) _ db h in
      let (t, applied, put) = on_stock-inv stock_in (apply_movements inputs) db db₁ r moved in
      let same : t ≡ db'.stock = ap OrderDb.stock put ∙ cc last in
      ap (counter v l c) (sym same)
      ∙ apply_movements-postings inputs db.stock v l c {r = r} {t = t} g applied
      ∙ ap (λ x. x +ℤ counter v l c db.stock) (legs-postings item legs)

  -- The loop posts each leg for all pieces of the variant.
  pub post_items-adds :
      (legs : List Leg) (items : List OrderItem) (db db' : OrderDb) (u : Unit {0})
      → post_items o user legs items db ≡ ok (u, db')
      → counter v l c db'.stock
        ≡ sum_ℤ (leg_share o (pieces v items) l c) legs +ℤ counter v l c db.stock
  unfolding post_items
  post_items-adds legs items db db' u h =
      for_each-sum (λ (d : OrderDb). counter v l c d.stock)
        (λ item. sum_ℤ (λ leg. of_leg leg item) legs) (post_item o user legs) (post_item-adds legs)
        _ db db' u h
      ∙ ap (λ x. x +ℤ counter v l c db.stock)
          (sum_ℤ-sort by_variant (λ item. sum_ℤ (λ leg. of_leg leg item) legs) items
            ∙ legs_lines legs items)

-- The loop writes to the stock and to no other table.
abbrev pub SameTables : OrderDb → OrderDb → Type 0
SameTables db db' = db' ≡ record db { stock = db'.stock }

post_item-tables :
    (o : Order) (user : AuthUser) (legs : List Leg) (item : OrderItem) (db db' : OrderDb)
    (u : Unit {0})
    → post_item o user legs item db ≡ ok (u, db')
    → SameTables db db'
unfolding post_item
post_item-tables o user legs item db db' u h =
    let inputs = map (leg_movement o user item) legs in
    let (r, db₁, moved, last) = >>=-eq-ok (on_stock stock_in (apply_movements inputs)) _ db h in
    let (t, applied, put) = on_stock-inv stock_in (apply_movements inputs) db db₁ r moved in
    let same : db₁ ≡ db' = cc last in subst (SameTables db) (put ∙ same) refl

pub post_items-tables :
    (o : Order) (user : AuthUser) (legs : List Leg) (items : List OrderItem) (db db' : OrderDb)
    (u : Unit {0})
    → post_items o user legs items db ≡ ok (u, db')
    → SameTables db db'
unfolding post_items
post_items-tables o user legs items db db' u h =
    for_each-keeps (λ d. SameTables db d) (post_item o user legs)
      (λ item d d' w p e.
        post_item-tables o user legs item d d' w e
        ∙ ap (λ (x : OrderDb). record x { stock = d'.stock }) p)
      (sort_for_locking by_variant items) db db' u refl h
