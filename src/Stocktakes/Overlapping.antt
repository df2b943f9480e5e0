-- ===== src/Stocktakes/Overlapping.antt =====
-- Two requests `balance` for one stocktake (stocktake.service.ts), which may overlap: each reads the
-- stocktake before its transaction, and not again inside.
use mathlib.Core.Path.{subst}
use multi_warehouse_manageme.Prelude.{
  ℕ, ◌≡◌, ◌≢◌, refl, ap, sym, ◌∙◌, ◌==◌, if◌then◌else◌, Option, none, some, arith,
}
use multi_warehouse_manageme.Prelude.Int.{ℤ}
use multi_warehouse_manageme.Prelude.Tx.{ok}
use multi_warehouse_manageme.Prelude.Table.{find_row, find_row-key, find_row-update, update_row}
use multi_warehouse_manageme.Auth.{AuthUser, assert_location_permission}
use multi_warehouse_manageme.Inventory.Types.{LevelState}
use multi_warehouse_manageme.Inventory.Levels.{level_at}
use multi_warehouse_manageme.Stocktakes.Service.{
  StocktakeStatus, Stocktake, StocktakeDb, check_balance, balance_tx, assert_editable,
}
use multi_warehouse_manageme.Stocktakes.Counting.{
  with_count, count_of, balanced_by, tx-effect, tx-counted,
}

-- What the check has read is the row as it stands, and open.
check-reads :
    (id : ℕ) (user : AuthUser) (db db' : StocktakeDb) (st row : Stocktake)
    → find_row Stocktake.id id db.stocktakes ≡ some row
    → check_balance id user db ≡ ok (st, db')
    → (st ≡ row) × (row.status ≡ StocktakeStatus.checking)
unfolding check_balance assert_location_permission assert_editable
check-reads id user db db' st row found h = (ground arith, ground arith)

count_again :
    (o : Option ℤ) (level : LevelState) → with_count o (with_count o level) ≡ with_count o level
count_again none level = refl
count_again (some n) level = refl

balanced-refused :
    (now id : ℕ) (a b : AuthUser) (db db₁ db' : StocktakeDb) (u : Unit {0}) (row st : Stocktake)
    → find_row Stocktake.id id db.stocktakes ≡ some row
    → balance_tx now row a db ≡ ok (u, db₁)
    → check_balance id b db₁ ≢ ok (st, db')
balanced-refused now id a b db db₁ db' u row st found ran h =
    let (_, diffs, updated) = tx-effect now row a db db₁ u ran in
    let f = balanced_by now a diffs in
    let key = find_row-key Stocktake.id id db.stocktakes row found in
    let after : find_row Stocktake.id id db₁.stocktakes ≡ some (f row) =
      ap (find_row Stocktake.id id)
        (updated ∙ ap (λ i. update_row Stocktake.id i f db.stocktakes) key)
      ∙ find_row-update Stocktake.id id f db.stocktakes row (λ x. refl) found in
    let open_ = (check-reads id b db₁ db' st (f row) after h).1 in cc

-- Two requests check a stocktake before either has balanced it, and both their transactions succeed:
-- then every counter of every level is after both as the first one has left it, which is at the
-- stocktake's counts, or as it was. A request that checks the stocktake after the first transaction is
-- refused.
pub balance-overlap :
    (now now' id : ℕ) (a b c : AuthUser) (db db₁ db₂ db' : StocktakeDb) (u : Unit {0})
    (row st st' st'' : Stocktake) (v l : ℕ)
    → find_row Stocktake.id id db.stocktakes ≡ some row
    → check_balance id a db ≡ ok (st, db)
    → check_balance id b db ≡ ok (st', db)
    → balance_tx now st a db ≡ ok (u, db₁)
    → balance_tx now' st' b db₁ ≡ ok (u, db₂)
    → (level_at v l db₂.stock ≡ level_at v l db₁.stock)
      × (level_at v l db₁.stock
          ≡ with_count
              (if row.location_id == l then count_of v row.items else none)
              (level_at v l db.stock))
      × (check_balance id c db₁ ≢ ok (st'', db'))
balance-overlap now now' id a b c db db₁ db₂ db' u row st st' st'' v l found first second ran₁
      ran₂ =
    let same = (check-reads id a db db st row found first).0 in
    let same' = (check-reads id b db db st' row found second).0 in
    let ran = subst (λ s. balance_tx now s a db ≡ ok (u, db₁)) same ran₁ in
    let once = tx-counted now row a db db₁ u v l ran in
    let twice =
      tx-counted now' row b db₁ db₂ u v l
        (subst (λ s. balance_tx now' s b db₁ ≡ ok (u, db₂)) same' ran₂) in
    let o = if row.location_id == l then count_of v row.items else none in
    (
      twice ∙ ap (with_count o) once ∙ count_again o (level_at v l db.stock) ∙ sym once,
      once,
      balanced-refused now id a c db db₁ db' u row st'' found ran,
    )
