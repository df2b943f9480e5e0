-- ===== src/Stocktakes/Counting.antt =====
-- What a balanced stocktake (stocktake.service.ts) leaves of the stock: the counts.
use multi_warehouse_manageme.Prelude.{
  ℕ, ◌≡◌, refl, ap, sym, ◌∙◌, Bool, true, ◌&&◌, if◌then◌else◌, Option, none, some, List, [], ◌∷◌,
  arith, ◌==◌, Bool-cases, Option-cases, inl, inr,
}
use multi_warehouse_manageme.Prelude.Int.{ℤ, pos}
use multi_warehouse_manageme.Prelude.Tx.{Tx, ok, Result-cases, >>=-eq-ok}
use multi_warehouse_manageme.Prelude.Table.{find_row, update_row}
use multi_warehouse_manageme.Auth.{AuthUser, assert_location_permission}
use multi_warehouse_manageme.Inventory.Types.{LevelState}
use multi_warehouse_manageme.Inventory.Service.{adjust_on_hand_to}
use multi_warehouse_manageme.Inventory.Levels.{level_at, same_key}
use multi_warehouse_manageme.Inventory.Locking.{
  comes_after, sort_for_locking, first_some, last_match, last_match-sort,
}
use multi_warehouse_manageme.Inventory.Lines.{on_stock, on_stock-inv}
use multi_warehouse_manageme.Inventory.Adjust.{adjust_on_hand_to-target}
use multi_warehouse_manageme.Stocktakes.Service.{
  StocktakeStatus, Stocktake, StocktakeItem, CountedRow, StocktakeDb, stock_in, by_row,
  counted_rows, rethrow, blocked, balance_row, balance_rows, balance_tx, check_balance, balance,
  assert_editable,
}

-- The count that a row gives for a variant at a location.
abbrev pub count_at : ℕ → ℕ → CountedRow → Option ℤ
count_at v l row = if same_key row.variant_id row.location_id v l then some row.counted else none

abbrev pub with_count : Option ℤ → LevelState → LevelState
with_count none level = level
with_count (some n) level = record level { on_hand = n }

rethrow-inv :
    {A : Type 0} (m : Tx StocktakeDb A) (db db' : StocktakeDb) (a : A)
    → rethrow blocked m db ≡ ok (a, db')
    → m db ≡ ok (a, db')
rethrow-inv m db db' a h = elim (Result-cases (m db)) [
  | inl (r, e) ↦ e ∙ cc (rw (e, rethrow) at h)
  | inr (x, e) ↦ absurd (cc (rw (e, rethrow) at h))
]

row-level :
    (id : ℕ) (user : AuthUser) (row : CountedRow) (v l : ℕ) (db db' : StocktakeDb) (diff : ℤ)
    → balance_row id user row db ≡ ok (diff, db')
    → level_at v l db'.stock ≡ with_count (count_at v l row) (level_at v l db.stock)
unfolding balance_row
row-level id user row v l db db' diff h =
    let m =
      adjust_on_hand_to row.variant_id row.location_id row.counted (some "stocktake") (some id)
        (some user.user_id) in
    let (r, db₁, adjusted, last) = >>=-eq-ok (rethrow blocked (on_stock stock_in m)) _ db h in
    let (t, moved, put) =
      on_stock-inv stock_in m db db₁ r (rethrow-inv (on_stock stock_in m) db db₁ r adjusted) in
    let same : t ≡ db'.stock = ap StocktakeDb.stock put ∙ cc last in
    ap (level_at v l) (sym same)
    ∙ adjust_on_hand_to-target row.variant_id row.location_id row.counted (some "stocktake")
        (some id) (some user.user_id) db.stock {r = r} {t = t} v l moved
    ∙ elim (Bool-cases (same_key row.variant_id row.location_id v l)) [
      | inl here ↦ rw here
      | inr there ↦ rw there
    ]

count_over :
    (o p : Option ℤ) (level : LevelState)
    → with_count o (with_count p level) ≡ with_count (first_some o p) level
count_over none p level = refl
count_over (some n) none level = refl
count_over (some n) (some m) level = refl

rows-level :
    (id : ℕ) (user : AuthUser) (rows : List CountedRow) (lines : ℕ) (quantity : ℤ) (v l : ℕ)
    (db db' : StocktakeDb) (diffs : ℕ × ℤ)
    → balance_rows id user rows lines quantity db ≡ ok (diffs, db')
    → level_at v l db'.stock
      ≡ with_count (last_match by_row (count_at v l) rows) (level_at v l db.stock)
unfolding balance_rows
rows-level id user [] lines quantity v l db db' diffs h =
    let same : db' ≡ db = cc in ap (λ (d : StocktakeDb). level_at v l d.stock) same
rows-level id user (row ∷ rows) lines quantity v l db db' diffs h =
    let (diff, db₁, first, rest) = >>=-eq-ok (balance_row id user row) _ db h in
    rows-level id user rows _ _ v l db₁ db' diffs rest
    ∙ ap (with_count (last_match by_row (count_at v l) rows))
        (row-level id user row v l db db₁ diff first)
    ∙ count_over (last_match by_row (count_at v l) rows) (count_at v l row) (level_at v l db.stock)

swap :
    (v l : ℕ) (a b : CountedRow) (o : Option ℤ)
    → comes_after by_row a b ≡ true
    → first_some (first_some o (count_at v l a)) (count_at v l b)
      ≡ first_some (first_some o (count_at v l b)) (count_at v l a)
unfolding comes_after
swap v l a b none h = ground arith
swap v l a b (some n) h = refl

row-stocktakes :
    (id : ℕ) (user : AuthUser) (row : CountedRow) (db db' : StocktakeDb) (diff : ℤ)
    → balance_row id user row db ≡ ok (diff, db')
    → db'.stocktakes ≡ db.stocktakes
unfolding balance_row
row-stocktakes id user row db db' diff h =
    let m =
      adjust_on_hand_to row.variant_id row.location_id row.counted (some "stocktake") (some id)
        (some user.user_id) in
    let (r, db₁, adjusted, last) = >>=-eq-ok (rethrow blocked (on_stock stock_in m)) _ db h in
    let (t, moved, put) =
      on_stock-inv stock_in m db db₁ r (rethrow-inv (on_stock stock_in m) db db₁ r adjusted) in
    let same : db₁.stocktakes ≡ db'.stocktakes = cc last in
    sym (ap StocktakeDb.stocktakes put ∙ same)

rows-stocktakes :
    (id : ℕ) (user : AuthUser) (rows : List CountedRow) (lines : ℕ) (quantity : ℤ)
    (db db' : StocktakeDb) (diffs : ℕ × ℤ)
    → balance_rows id user rows lines quantity db ≡ ok (diffs, db')
    → db'.stocktakes ≡ db.stocktakes
unfolding balance_rows
rows-stocktakes id user [] lines quantity db db' diffs h = cc
rows-stocktakes id user (row ∷ rows) lines quantity db db' diffs h =
    let (diff, db₁, first, rest) = >>=-eq-ok (balance_row id user row) _ db h in
    rows-stocktakes id user rows _ _ db₁ db' diffs rest
    ∙ row-stocktakes id user row db db₁ diff first

balance-runs :
    (now id : ℕ) (user : AuthUser) (db db' : StocktakeDb) (u : Unit {0}) (st : Stocktake)
    → find_row Stocktake.id id db.stocktakes ≡ some st
    → balance now id user db ≡ ok (u, db')
    → (st.status ≡ StocktakeStatus.checking) × (balance_tx now st user db ≡ ok (u, db'))
unfolding balance check_balance assert_location_permission assert_editable
balance-runs now id user db db' u st found h = (ground arith, ground arith)

-- What `balance` makes of the row.
abbrev pub balanced_by : ℕ → AuthUser → ℕ × ℤ → Stocktake → Stocktake
balanced_by now user diffs row = record row {
  status = StocktakeStatus.balanced;
  balanced_by_id = some user.user_id;
  balanced_at = some now;
  diff_line_count = diffs.0;
  diff_quantity = diffs.1;
}

pub tx-effect :
    (now : ℕ) (st : Stocktake) (user : AuthUser) (db db' : StocktakeDb) (u : Unit {0})
    → balance_tx now st user db ≡ ok (u, db')
    → ((v l : ℕ)
        → level_at v l db'.stock
          ≡ with_count
              (last_match by_row
                (count_at v l)
                (sort_for_locking by_row (counted_rows st.location_id st.items)))
              (level_at v l db.stock))
      × (diffs : ℕ × ℤ) × (db'.stocktakes
          ≡ update_row Stocktake.id st.id (balanced_by now user diffs) db.stocktakes)
unfolding balance_tx
tx-effect now st user db db' u h =
    let rows = sort_for_locking by_row (counted_rows st.location_id st.items) in
    let (diffs, db₁, looped, last) = >>=-eq-ok (balance_rows st.id user rows 0 (pos 0)) _ db h in
    let same : db'.stock ≡ db₁.stock = cc last in
    let updated : db'.stocktakes
        ≡ update_row Stocktake.id st.id (balanced_by now user diffs) db₁.stocktakes =
      cc last in
    (
      λ v l. ap (level_at v l) same ∙ rows-level st.id user rows 0 (pos 0) v l db db₁ diffs looped,
      diffs,
      updated
          ∙ ap (update_row Stocktake.id st.id (balanced_by now user diffs))
              (rows-stocktakes st.id user rows 0 (pos 0) db db₁ diffs looped),
    )

-- The count that the lines of a stocktake give for a variant: a line without one gives none, and of
-- several the last one counts.
abbrev pub count_of : ℕ → List StocktakeItem → Option ℤ
count_of v [] = none
count_of v (x ∷ xs) =
    first_some (count_of v xs) (if x.variant_id == v then x.counted_quantity else none)

no_count :
    (here same : Bool) (o : Option ℤ)
    → (if here then o else none)
      ≡ (if here then first_some o (if same then none else none) else none)
no_count here same none = ground arith
no_count here same (some n) = ground arith

one_count :
    (here same : Bool) (o : Option ℤ) (n : ℤ)
    → first_some (if here then o else none) (if same && here then some n else none)
      ≡ (if here then first_some o (if same then some n else none) else none)
one_count here same none n = ground arith
one_count here same (some m) n = ground arith

counted-count :
    (location v l : ℕ) (items : List StocktakeItem)
    → last_match by_row (count_at v l) (counted_rows location items)
      ≡ (if location == l then count_of v items else none)
unfolding counted_rows
counted-count location v l [] = ground arith
counted-count location v l (x ∷ xs) = elim (Option-cases x.counted_quantity) [
  | inl uncounted ↦
      rw uncounted (
        counted-count location v l xs
        ∙ no_count (location == l) (x.variant_id == v) (count_of v xs))
  | inr (n, counted) ↦ rw counted (
      ap (λ o. first_some o (if same_key x.variant_id location v l then some n else none))
        (counted-count location v l xs)
      ∙ one_count (location == l) (x.variant_id == v) (count_of v xs) n)
]

pub tx-counted :
    (now : ℕ) (st : Stocktake) (user : AuthUser) (db db' : StocktakeDb) (u : Unit {0}) (v l : ℕ)
    → balance_tx now st user db ≡ ok (u, db')
    → level_at v l db'.stock
      ≡ with_count
          (if st.location_id == l then count_of v st.items else none)
          (level_at v l db.stock)
tx-counted now st user db db' u v l ran =
    (tx-effect now st user db db' u ran).0 v l
    ∙ ap (λ o. with_count o (level_at v l db.stock))
        (last_match-sort by_row (count_at v l) (swap v l) (counted_rows st.location_id st.items)
          ∙ counted-count st.location_id v l st.items)

-- A stocktake that is balanced leaves `on_hand` at its count for each variant that was counted at its
-- location, and all other counters of every level as they were, those of lines without a count
-- included; of two counts of one variant the last one would count.
pub balance-counted :
    (now id : ℕ) (user : AuthUser) (db db' : StocktakeDb) (u : Unit {0}) (st : Stocktake) (v l : ℕ)
    → find_row Stocktake.id id db.stocktakes ≡ some st
    → balance now id user db ≡ ok (u, db')
    → level_at v l db'.stock
      ≡ with_count
          (if st.location_id == l then count_of v st.items else none)
          (level_at v l db.stock)
balance-counted now id user db db' u st v l found h =
    tx-counted now st user db db' u v l (balance-runs now id user db db' u st found h).1
