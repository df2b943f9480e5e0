-- ===== src/Transfers/Totals.antt =====
-- What a whole handler of stock-transfer.service.ts does to the stock: the lines of the transfer
-- added up, whatever the order in which the locks are taken.
use mathlib.Core.Path.{ap₂}
use multi_warehouse_manageme.Prelude.{
  ℕ, ◌+◌, ◌≡◌, refl, ap, ◌∙◌, Bool, true, false, ◌&&◌, ◌==◌, if◌then◌else◌, List, [], ◌∷◌, String,
  arith, Bool-cases, inl, inr,
}
use multi_warehouse_manageme.Prelude.Int.{ℤ, pos, ◌+ℤ◌, zero_+ℤ, int_laws}
use multi_warehouse_manageme.Prelude.Tx.{Error, Tx, ok, ◌>>◌, throw_if, for_each, >>=-eq-ok}
use multi_warehouse_manageme.Prelude.Sums.{sum_ℤ, sum_ℤ-add, for_each-sum}
use multi_warehouse_manageme.Auth.{AuthUser}
use multi_warehouse_manageme.Inventory.Types.{Bucket, same_bucket}
use multi_warehouse_manageme.Inventory.Levels.{is_ledger}
use multi_warehouse_manageme.Inventory.Locking.{sort_for_locking, sum_ℤ-sort}
use multi_warehouse_manageme.Inventory.Effect.{counter}
use multi_warehouse_manageme.Transfers.Types.{
  TransferItem, StockTransfer, TransferDb, update_transfer,
}
use multi_warehouse_manageme.Transfers.Service.{
  by_variant, set_status, write_log, reserve_item, ship_item, receive_item, release_item,
  return_item, submit_tx, ship_tx, receive_tx, release_tx, return_tx,
}
use multi_warehouse_manageme.Transfers.Postings.{
  quantity_of, share, minus, line, reserve_item-line, ship_item-line, receive_item-line,
  release_item-line, return_item-line,
}

finished :
    (id : ℕ) (f : StockTransfer → StockTransfer) (stn : StockTransfer) (user : AuthUser)
    (action : String) (db₁ db' : TransferDb) (u : Unit {0})
    → (set_status id f >> write_log stn user action) db₁ ≡ ok (u, db')
    → (db'.stock ≡ db₁.stock) × (db'.transfers ≡ update_transfer id f db₁.transfers)
finished id f stn user action db₁ db' u h = (cc, cc)

-- The end of every handler: the status and the log, after the loop over the lines.
pub finish :
    (body : TransferItem → Tx TransferDb (Unit {0})) (xs : List TransferItem) (id : ℕ)
    (f : StockTransfer → StockTransfer) (stn : StockTransfer) (user : AuthUser) (action : String)
    (db db' : TransferDb) (u : Unit {0})
    → (for_each body xs >> (set_status id f >> write_log stn user action)) db ≡ ok (u, db')
    → (db₁ : TransferDb) × (w : Unit {0}) × (for_each body xs db ≡ ok (w, db₁))
      × (db'.stock ≡ db₁.stock)
      × (db'.transfers ≡ update_transfer id f db₁.transfers)
finish body xs id f stn user action db db' u h =
    let (w, db₁, loop, last) =
      >>=-eq-ok (for_each body xs) (λ _. set_status id f >> write_log stn user action) db h in
    let (same_stock, updated) = finished id f stn user action db₁ db' u last in
    (db₁, w, loop, same_stock, updated)

pub unguarded :
    {S : Type 0} {A : Type 0} (c : Bool) (e : Error) (k : Tx S A) (s s' : S) (a : A)
    → (throw_if c e >> k) s ≡ ok (a, s')
    → (c ≡ false) × (k s ≡ ok (a, s'))
unguarded true e k s s' a h = cc
unguarded false e k s s' a h = (refl, h)

zero_plus : (n : ℕ) → 0 + n ≡ n
zero_plus n = omega arith

minus_add : (a b : ℕ) → minus (a + b) ≡ minus a +ℤ minus b
minus_add a b = omega int_laws

if_add :
    (t : Bool) (x y : ℤ)
    → (if t then x else pos 0) +ℤ (if t then y else pos 0) ≡ (if t then x +ℤ y else pos 0)
if_add true x y = refl
if_add false x y = omega int_laws

module _ (stn : StockTransfer) (user : AuthUser) (v l : ℕ) (c : Bucket)
    (g : is_ledger c ≡ true) where
  abbrev pub total : ℕ → Bucket → (ℕ → ℤ) → ℤ
  total location b sign = share location b (sign (quantity_of v stn.items)) l c

  lines_add :
      (location : ℕ) (b : Bucket) (sign : ℕ → ℤ)
      → sign 0 ≡ pos 0
      → ((a b : ℕ) → sign (a + b) ≡ sign a +ℤ sign b)
      → (items : List TransferItem)
      → sum_ℤ (line stn user v l c g location b sign) items
        ≡ share location b (sign (quantity_of v items)) l c
  lines_add location b sign z add [] =
      rw z (elim (Bool-cases (location == l && same_bucket b c)) [ inl t ↦ rw t | inr t ↦ rw t ])
  lines_add location b sign z add (item ∷ items) =
      ap (λ x. line stn user v l c g location b sign item +ℤ x)
        (lines_add location b sign z add items)
      ∙ elim (Bool-cases (item.variant_id == v)) [
        | inl same ↦
            rw (same, add item.quantity (quantity_of v items))
              (if_add (location == l && same_bucket b c) (sign item.quantity)
                (sign (quantity_of v items)))
        | inr other ↦ rw (other, zero_plus (quantity_of v items)) (zero_+ℤ _)
      ]

  add_pos : (a b : ℕ) → pos (a + b) ≡ pos a +ℤ pos b
  add_pos a b = omega int_laws

  minus_zero : minus 0 ≡ pos 0
  minus_zero = omega int_laws

  pos_lines :
      (location : ℕ) (b : Bucket)
      → sum_ℤ (line stn user v l c g location b pos) stn.items ≡ total location b pos
  pos_lines location b = lines_add location b pos refl add_pos stn.items

  minus_lines :
      (location : ℕ) (b : Bucket)
      → sum_ℤ (line stn user v l c g location b minus) stn.items ≡ total location b minus
  minus_lines location b = lines_add location b minus minus_zero minus_add stn.items

  -- The loop over the lines in lock order, for a body that adds `e` to the counter at each line.
  loop_adds :
      (e : TransferItem → ℤ) (body : TransferItem → Tx TransferDb (Unit {0}))
      → ((item : TransferItem) (db db' : TransferDb) (u : Unit {0})
          → body item db ≡ ok (u, db')
          → counter v l c db'.stock ≡ e item +ℤ counter v l c db.stock)
      → (id : ℕ) (f : StockTransfer → StockTransfer) (action : String) (db db' : TransferDb)
        (u : Unit {0})
      → (for_each body (sort_for_locking by_variant stn.items)
            >> (set_status id f >> write_log stn user action))
          db
        ≡ ok (u, db')
      → counter v l c db'.stock ≡ sum_ℤ e stn.items +ℤ counter v l c db.stock
  loop_adds e body adds id f action db db' u h =
      let (db₁, w, loop, same_stock, _) =
        finish body (sort_for_locking by_variant stn.items) id f stn user action db db' u h in
      ap (counter v l c) same_stock
      ∙ for_each-sum (λ db. counter v l c db.stock) e body adds
          (sort_for_locking by_variant stn.items) db db₁ w loop
      ∙ ap (λ x. x +ℤ counter v l c db.stock) (sum_ℤ-sort by_variant e stn.items)

  -- `submit` reserves the pieces where they leave from.
  pub submit_tx-total :
      (db db' : TransferDb) (u : Unit {0})
      → submit_tx stn user db ≡ ok (u, db')
      → counter v l c db'.stock
        ≡ total stn.from_location_id Bucket.committed pos +ℤ counter v l c db.stock
  unfolding submit_tx
  submit_tx-total db db' u h =
      loop_adds _ (reserve_item stn user) (reserve_item-line stn user v l c g) _ _ _ db db' u h
      ∙ ap (λ x. x +ℤ counter v l c db.stock) (pos_lines stn.from_location_id Bucket.committed)

  -- Cancelling what is pending releases them.
  pub release_tx-total :
      (db db' : TransferDb) (u : Unit {0})
      → release_tx stn user db ≡ ok (u, db')
      → counter v l c db'.stock
        ≡ total stn.from_location_id Bucket.committed minus +ℤ counter v l c db.stock
  unfolding release_tx
  release_tx-total db db' u h =
      loop_adds _ (release_item stn user) (release_item-line stn user v l c g) _ _ _ db db' u h
      ∙ ap (λ x. x +ℤ counter v l c db.stock) (minus_lines stn.from_location_id Bucket.committed)

  -- `ship` takes them from there, and announces them where they go.
  pub ship_tx-total :
      (now : ℕ) (db db' : TransferDb) (u : Unit {0})
      → ship_tx now stn user db ≡ ok (u, db')
      → counter v l c db'.stock
        ≡ total stn.from_location_id Bucket.committed minus
          +ℤ total stn.from_location_id Bucket.on_hand minus
          +ℤ total stn.to_location_id Bucket.incoming pos
          +ℤ counter v l c db.stock
  unfolding ship_tx
  ship_tx-total now db db' u h =
      loop_adds _ (ship_item stn user) (ship_item-line stn user v l c g) _ _ _ db db' u h
      ∙ ap (λ x. x +ℤ counter v l c db.stock)
          (sum_ℤ-add _ (line stn user v l c g stn.to_location_id Bucket.incoming pos) stn.items
            ∙ ap₂ ◌+ℤ◌
                (sum_ℤ-add (line stn user v l c g stn.from_location_id Bucket.committed minus)
                    (line stn user v l c g stn.from_location_id Bucket.on_hand minus) stn.items
                  ∙ ap₂ ◌+ℤ◌ (minus_lines stn.from_location_id Bucket.committed)
                      (minus_lines stn.from_location_id Bucket.on_hand))
                (pos_lines stn.to_location_id Bucket.incoming))

  -- `receive` turns what is announced into stock.
  pub receive_tx-total :
      (now : ℕ) (db db' : TransferDb) (u : Unit {0})
      → receive_tx now stn user db ≡ ok (u, db')
      → counter v l c db'.stock
        ≡ total stn.to_location_id Bucket.incoming minus
          +ℤ total stn.to_location_id Bucket.on_hand pos
          +ℤ counter v l c db.stock
  unfolding receive_tx
  receive_tx-total now db db' u h =
      loop_adds _ (receive_item stn user) (receive_item-line stn user v l c g) _ _ _ db db' u h
      ∙ ap (λ x. x +ℤ counter v l c db.stock)
          (sum_ℤ-add (line stn user v l c g stn.to_location_id Bucket.incoming minus)
              (line stn user v l c g stn.to_location_id Bucket.on_hand pos) stn.items
            ∙ ap₂ ◌+ℤ◌ (minus_lines stn.to_location_id Bucket.incoming)
                (pos_lines stn.to_location_id Bucket.on_hand))

  -- Cancelling what is under way puts it back.
  pub return_tx-total :
      (db db' : TransferDb) (u : Unit {0})
      → return_tx stn user db ≡ ok (u, db')
      → counter v l c db'.stock
        ≡ total stn.from_location_id Bucket.on_hand pos
          +ℤ total stn.to_location_id Bucket.incoming minus
          +ℤ counter v l c db.stock
  unfolding return_tx
  return_tx-total db db' u h =
      loop_adds _ (return_item stn user) (return_item-line stn user v l c g) _ _ _ db db' u h
      ∙ ap (λ x. x +ℤ counter v l c db.stock)
          (sum_ℤ-add (line stn user v l c g stn.from_location_id Bucket.on_hand pos)
              (line stn user v l c g stn.to_location_id Bucket.incoming minus) stn.items
            ∙ ap₂ ◌+ℤ◌ (pos_lines stn.from_location_id Bucket.on_hand)
                (minus_lines stn.to_location_id Bucket.incoming))
