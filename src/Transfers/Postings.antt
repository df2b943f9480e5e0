-- ===== src/Transfers/Postings.antt =====
-- What the handlers of stock-transfer.service.ts post to the stock, line by line.
use mathlib.Core.Path.{ap₂}
use multi_warehouse_manageme.Prelude.{
  ℕ, ◌+◌, ◌≡◌, refl, ap, ◌∙◌, Bool, true, false, ◌&&◌, ◌==◌, if◌then◌else◌, List, [], ◌∷◌, inl, inr,
}
use multi_warehouse_manageme.Prelude.Int.{ℤ, pos, neg, ◌+ℤ◌, +ℤ_left_comm, +ℤ_zero}
use multi_warehouse_manageme.Prelude.Tx.{ok, ◌>>◌, return, >>=-eq-ok, Result-cases}
use multi_warehouse_manageme.Auth.{AuthUser}
use multi_warehouse_manageme.Inventory.Types.{Bucket, MovementType, ApplyMovementInput, same_bucket}
use multi_warehouse_manageme.Inventory.Store.{LevelRow}
use multi_warehouse_manageme.Inventory.Service.{apply_movements, apply_movement}
use multi_warehouse_manageme.Inventory.Levels.{is_ledger}
use multi_warehouse_manageme.Inventory.Effect.{counter, posting, postings, apply_movements-postings}
use multi_warehouse_manageme.Transfers.Types.{TransferItem, StockTransfer, TransferDb, on_stock}
use multi_warehouse_manageme.Transfers.Service.{
  transfer_movement, reserve_item, ship_item, receive_item, release_item, return_item,
}

-- The pieces of a variant on a transfer, over all its lines.
abbrev pub quantity_of : ℕ → List TransferItem → ℕ
quantity_of v [] = 0
quantity_of v (item ∷ items) =
    (if item.variant_id == v then item.quantity else 0) + quantity_of v items

-- What is posted to bucket `c` at location `l` by a movement of `x` in bucket `b` at `location`.
abbrev pub share : ℕ → Bucket → ℤ → ℕ → Bucket → ℤ
share location b x l c = if location == l && same_bucket b c then x else pos 0

on_stock-postings :
    (inputs : List ApplyMovementInput) (db : TransferDb) (v l : ℕ) (c : Bucket)
    (r : List ℕ × LevelRow) (db' : TransferDb)
    → is_ledger c ≡ true
    → on_stock (apply_movements inputs) db ≡ ok (r, db')
    → counter v l c db'.stock ≡ postings v l c inputs +ℤ counter v l c db.stock
on_stock-postings inputs db v l c r db' g h =
    elim (Result-cases (apply_movements inputs db.stock)) [
      | inl ((r', s'), e) ↦
          let end : record db { stock = s' } ≡ db' = cc (rw (e, on_stock) at h) in
          rw (← end) (apply_movements-postings inputs db.stock v l c {r = r'} {t = s'} g e)
      | inr (x, e) ↦ absurd (cc (rw (e, on_stock) at h))
    ]

if_and :
    (p q r : Bool) (x : ℤ)
    → (if (p && q) && r then x else pos 0) ≡ (if p then if q && r then x else pos 0 else pos 0)
if_and true q r x = refl
if_and false q r x = refl

abbrev pub minus : ℕ → ℤ
minus n = neg (pos n)

module _ (stn : StockTransfer) (user : AuthUser) (v l : ℕ) (c : Bucket)
    (g : is_ledger c ≡ true) where
  -- A line's part of a posting.
  abbrev pub line : ℕ → Bucket → (ℕ → ℤ) → TransferItem → ℤ
  line location b sign item =
      if item.variant_id == v then share location b (sign item.quantity) l c else pos 0

  one_line :
      (item : TransferItem) (location : ℕ) (b : Bucket) (sign : ℕ → ℤ) (type : MovementType)
      → postings v l c (transfer_movement stn user item location b (sign item.quantity) type ∷ [])
        ≡ line location b sign item
  unfolding postings posting
  one_line item location b sign type =
      +ℤ_zero _
      ∙ if_and (item.variant_id == v) (location == l) (same_bucket b c) (sign item.quantity)

  two_lines :
      (item : TransferItem) (location location' : ℕ) (b b' : Bucket) (sign sign' : ℕ → ℤ)
      (type type' : MovementType)
      → postings v l c (
          transfer_movement stn user item location b (sign item.quantity) type
          ∷ transfer_movement stn user item location' b' (sign' item.quantity) type'
          ∷ [])
        ≡ line location b sign item +ℤ line location' b' sign' item
  unfolding postings posting
  two_lines item location location' b b' sign sign' type type' = rw +ℤ_zero (
      ap₂ ◌+ℤ◌
        (if_and (item.variant_id == v) (location == l) (same_bucket b c) (sign item.quantity))
        (if_and (item.variant_id == v) (location' == l) (same_bucket b' c) (sign' item.quantity)))

  -- A loop body that posts one batch.
  posts :
      (inputs : List ApplyMovementInput) (db db' : TransferDb) (u : Unit {0})
      → (on_stock (apply_movements inputs) >> return tt) db ≡ ok (u, db')
      → counter v l c db'.stock ≡ postings v l c inputs +ℤ counter v l c db.stock
  posts inputs db db' u h =
      let (r, db₁, first, last) =
        >>=-eq-ok (on_stock (apply_movements inputs)) (λ _. return tt) db h in
      let same : db₁ ≡ db' = cc last in
      rw (← same) (on_stock-postings inputs db v l c r db₁ g first)

  -- A loop body that posts two batches, each of its own transaction step.
  posts_both :
      (inputs inputs' : List ApplyMovementInput) (db db' : TransferDb) (u : Unit {0})
      → (on_stock (apply_movements inputs) >> (on_stock (apply_movements inputs') >> return tt)) db
        ≡ ok (u, db')
      → counter v l c db'.stock
        ≡ postings v l c inputs +ℤ postings v l c inputs' +ℤ counter v l c db.stock
  posts_both inputs inputs' db db' u h =
      let (r, db₁, first, rest) =
        >>=-eq-ok (on_stock (apply_movements inputs))
          (λ _. on_stock (apply_movements inputs') >> return tt) db h in
      posts inputs' db₁ db' u rest
      ∙ ap (λ x. postings v l c inputs' +ℤ x) (on_stock-postings inputs db v l c r db₁ g first)
      ∙ +ℤ_left_comm _ _ _

  -- What each handler posts for a line, in `submit`, `ship`, `receive` and `cancel`.
  pub reserve_item-line :
      (item : TransferItem) (db db' : TransferDb) (u : Unit {0})
      → reserve_item stn user item db ≡ ok (u, db')
      → counter v l c db'.stock
        ≡ line stn.from_location_id Bucket.committed pos item +ℤ counter v l c db.stock
  unfolding reserve_item apply_movement
  reserve_item-line item db db' u h =
      posts _ db db' u h
      ∙ ap (λ x. x +ℤ counter v l c db.stock)
          (one_line item stn.from_location_id Bucket.committed pos MovementType.transfer_reserve)

  pub release_item-line :
      (item : TransferItem) (db db' : TransferDb) (u : Unit {0})
      → release_item stn user item db ≡ ok (u, db')
      → counter v l c db'.stock
        ≡ line stn.from_location_id Bucket.committed minus item +ℤ counter v l c db.stock
  unfolding release_item apply_movement
  release_item-line item db db' u h =
      posts _ db db' u h
      ∙ ap (λ x. x +ℤ counter v l c db.stock)
          (one_line item stn.from_location_id Bucket.committed minus MovementType.transfer_release)

  pub receive_item-line :
      (item : TransferItem) (db db' : TransferDb) (u : Unit {0})
      → receive_item stn user item db ≡ ok (u, db')
      → counter v l c db'.stock
        ≡ line stn.to_location_id Bucket.incoming minus item
          +ℤ line stn.to_location_id Bucket.on_hand pos item
          +ℤ counter v l c db.stock
  unfolding receive_item
  receive_item-line item db db' u h =
      posts _ db db' u h
      ∙ ap (λ x. x +ℤ counter v l c db.stock)
          (two_lines item stn.to_location_id stn.to_location_id Bucket.incoming Bucket.on_hand minus
            pos MovementType.incoming_receipt MovementType.transfer_in)

  pub return_item-line :
      (item : TransferItem) (db db' : TransferDb) (u : Unit {0})
      → return_item stn user item db ≡ ok (u, db')
      → counter v l c db'.stock
        ≡ line stn.from_location_id Bucket.on_hand pos item
          +ℤ line stn.to_location_id Bucket.incoming minus item
          +ℤ counter v l c db.stock
  unfolding return_item apply_movement
  return_item-line item db db' u h =
      posts_both _ _ db db' u h
      ∙ ap₂ (λ x y. x +ℤ y +ℤ counter v l c db.stock)
          (one_line item stn.from_location_id Bucket.on_hand pos MovementType.transfer_in)
          (one_line item stn.to_location_id Bucket.incoming minus MovementType.incoming_cancel)

  pub ship_item-line :
      (item : TransferItem) (db db' : TransferDb) (u : Unit {0})
      → ship_item stn user item db ≡ ok (u, db')
      → counter v l c db'.stock
        ≡ line stn.from_location_id Bucket.committed minus item
          +ℤ line stn.from_location_id Bucket.on_hand minus item
          +ℤ line stn.to_location_id Bucket.incoming pos item
          +ℤ counter v l c db.stock
  unfolding ship_item apply_movement
  ship_item-line item db db' u h =
      posts_both _ _ db db' u h
      ∙ ap₂ (λ x y. x +ℤ y +ℤ counter v l c db.stock)
          (two_lines item stn.from_location_id stn.from_location_id Bucket.committed Bucket.on_hand
            minus minus MovementType.transfer_release MovementType.transfer_out)
          (one_line item stn.to_location_id Bucket.incoming pos MovementType.incoming_transfer)
