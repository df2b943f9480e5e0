-- ===== src/Stocktakes/Service.antt =====
-- src/modules/stocktakes/stocktake.service.ts, over the tables of prisma/schema.prisma. A handler
-- reads the stocktake first, outside its transaction, and the transaction does not read it again:
-- `check_balance` and `balance_tx` are the two parts of `balance`. `update` and `cancel` are one step
-- here. The answer, the log's metadata and `notes` are left out.
use multi_warehouse_manageme.Prelude.{
  ℕ, ◌+◌, Bool, true, false, not, ◌==◌, ◌||◌, if◌then◌else◌, Option, none, some, List, [], ◌∷◌,
  String, map, filter,
}
use multi_warehouse_manageme.Prelude.Int.{ℤ, pos, ◌+ℤ◌, ◌-ℤ◌, ◌==ℤ◌}
use multi_warehouse_manageme.Prelude.Tx.{
  Error, ok, err, Tx, ◌>>=◌, ◌>>◌, return, throw, throw_if, or_throw, gets, modify, not_found,
  record_not_found, insufficient_stock, stocktake_empty, stocktake_nothing_counted,
  stocktake_blocked_by_committed, stocktake_already_balanced, stocktake_cancelled,
}
use multi_warehouse_manageme.Prelude.Table.{find_row, update_row}
use multi_warehouse_manageme.Auth.{AuthUser, assert_location_permission}
use multi_warehouse_manageme.Inventory.Store.{Stock}
use multi_warehouse_manageme.Inventory.Service.{adjust_on_hand_to}
use multi_warehouse_manageme.Inventory.Levels.{level_at}
use multi_warehouse_manageme.Inventory.Locking.{Lockable, sort_for_locking}
use multi_warehouse_manageme.Inventory.Lines.{StockIn, on_stock}

pub data StocktakeStatus : Type 0 where
  checking balanced cancelled : StocktakeStatus

-- `counted_quantity` is `none` for a line that has not been counted.
pub record StocktakeItem : Type 0 where
  pub variant_id : ℕ
  pub system_quantity : ℤ
  pub counted_quantity : Option ℤ

pub record Stocktake : Type 0 where
  pub id : ℕ
  pub code : ℕ
  pub location_id : ℕ
  pub status : StocktakeStatus
  pub items : List StocktakeItem
  pub diff_line_count : ℕ
  pub diff_quantity : ℤ
  pub balanced_by_id : Option ℕ
  pub balanced_at : Option ℕ
  pub cancelled_at : Option ℕ

pub record StocktakeLog : Type 0 where
  pub user_id : ℕ
  pub action : String
  pub entity_id : ℕ

pub record StocktakeDb : Type 0 where
  pub stock : Stock
  pub locations : List ℕ
  pub stocktakes : List Stocktake
  pub logs : List StocktakeLog
  pub next_id : ℕ

abbrev pub stock_in : StockIn StocktakeDb
stock_in = record { stock_of = StocktakeDb.stock; with_stock = λ s db. record db { stock = s } }

abbrev pub write_log : AuthUser → String → ℕ → Tx StocktakeDb (Unit {0})
write_log user action id = modify (λ db. record db {
  logs = record { user_id = user.user_id; action = action; entity_id = id } ∷ db.logs;
})

abbrev pub update_stocktake : ℕ → (Stocktake → Stocktake) → Tx StocktakeDb (Unit {0})
update_stocktake id f =
    modify (λ db. record db { stocktakes = update_row Stocktake.id id f db.stocktakes })

-- A line of `CreateStocktakeDto`.
pub record StocktakeItemDto : Type 0 where
  pub variant_id : ℕ
  pub counted_quantity : Option ℤ

-- `byVariant.set(i.variant_id, …)`: a repeated key keeps its place and takes the new value.
unfoldable pub set_item : StocktakeItemDto → List StocktakeItemDto → List StocktakeItemDto
set_item i [] = i ∷ []
set_item i (j ∷ js) = if j.variant_id == i.variant_id then i ∷ js else j ∷ set_item i js

unfoldable pub normalize_from :
    List StocktakeItemDto → List StocktakeItemDto → List StocktakeItemDto
normalize_from acc [] = acc
normalize_from acc (i ∷ is) = normalize_from (set_item i acc) is

-- `normalizeItems`: of the lines of one variant the last one wins.
unfoldable pub normalize_items : List StocktakeItemDto → List StocktakeItemDto
normalize_items items = normalize_from [] items

-- `snapshotSystemQuantities`: a variant with no row counts as 0.
abbrev pub system_quantity_of : ℕ → Stock → ℕ → ℤ
system_quantity_of l s v = (level_at v l s).on_hand

abbrev pub new_item : ℕ → Stock → StocktakeItemDto → StocktakeItem
new_item l s i = record {
  variant_id = i.variant_id;
  system_quantity = system_quantity_of l s i.variant_id;
  counted_quantity = i.counted_quantity;
}

abbrev pub is_empty {ℓ} : {A : Type ℓ} → List A → Bool
is_empty [] = true
is_empty (_ ∷ _) = false

abbrev pub contains : ℕ → List ℕ → Bool
contains a [] = false
contains a (x ∷ xs) = x == a || contains a xs

abbrev pub new_stocktake : ℕ → ℕ → ℕ → List StocktakeItem → Stocktake
new_stocktake id code l items = record {
  id = id;
  code = code;
  location_id = l;
  status = StocktakeStatus.checking;
  items = items;
  diff_line_count = 0;
  diff_quantity = pos 0;
  balanced_by_id = none;
  balanced_at = none;
  cancelled_at = none;
}

-- `create`, with the number of the code that `generateCode` has given out.
unfoldable pub create : ℕ → ℕ → List StocktakeItemDto → AuthUser → Tx StocktakeDb (Unit {0})
create code l items user = do
  assert_location_permission user ("stocktake:manage" ∷ []) l
  locations ← gets StocktakeDb.locations
  throw_if (not (contains l locations)) record_not_found
  throw_if (is_empty (normalize_items items)) stocktake_empty
  id ← gets StocktakeDb.next_id
  modify (λ db. record db {
    stocktakes =
        new_stocktake id code l (map (new_item l db.stock) (normalize_items items)) ∷ db.stocktakes;
    next_id = id + 1;
  })
  write_log user "stocktake.create" id

-- `assertEditable`
unfoldable pub assert_editable : StocktakeStatus → Tx StocktakeDb (Unit {0})
assert_editable StocktakeStatus.checking = return tt
assert_editable StocktakeStatus.balanced = throw stocktake_already_balanced
assert_editable StocktakeStatus.cancelled = throw stocktake_cancelled

-- `stocktakeItem.upsert`: a line that is there keeps its `system_quantity`.
unfoldable pub upsert_item : ℕ → Stock → StocktakeItemDto → List StocktakeItem → List StocktakeItem
upsert_item l s i [] = new_item l s i ∷ []
upsert_item l s i (x ∷ xs) =
    if x.variant_id == i.variant_id
    then record x { counted_quantity = i.counted_quantity } ∷ xs
    else x ∷ upsert_item l s i xs

unfoldable pub upsert_items :
    ℕ → Stock → List StocktakeItemDto → List StocktakeItem → List StocktakeItem
unfolding upsert_item
upsert_items l s [] xs = xs
upsert_items l s (i ∷ is) xs = upsert_items l s is (upsert_item l s i xs)

-- The lines after `update`: those that are not sent are deleted, and the others are upserted.
unfoldable pub edited_items :
    ℕ → Stock → Option (List StocktakeItemDto) → List StocktakeItem → List StocktakeItem
unfolding upsert_items normalize_items
edited_items l s none xs = xs
edited_items l s (some items) xs =
    let sent = normalize_items items in
    let keep = map StocktakeItemDto.variant_id sent in
    upsert_items l s sent (filter (λ x. contains x.variant_id keep) xs)

abbrev pub read_stocktake : ℕ → Tx StocktakeDb Stocktake
read_stocktake id db = or_throw (find_row Stocktake.id id db.stocktakes) not_found db

-- `update`
unfoldable pub update : ℕ → Option (List StocktakeItemDto) → AuthUser → Tx StocktakeDb (Unit {0})
update id items user = do
  st ← read_stocktake id
  assert_location_permission user ("stocktake:manage" ∷ []) st.location_id
  assert_editable st.status
  s ← gets StocktakeDb.stock
  update_stocktake id (λ row. record row { items = edited_items st.location_id s items row.items })

-- A line that has been counted.
pub record CountedRow : Type 0 where
  pub variant_id : ℕ
  pub location_id : ℕ
  pub counted : ℤ

unfoldable pub counted_rows : ℕ → List StocktakeItem → List CountedRow
counted_rows l [] = []
counted_rows l (x ∷ xs) =
    let rest = counted_rows l xs in
    elim x.counted_quantity [
      | none ↦ rest
      | some n ↦ record { variant_id = x.variant_id; location_id = l; counted = n } ∷ rest
    ]

abbrev pub by_row : Lockable CountedRow
by_row = record { variant_id = CountedRow.variant_id; location_id = λ r. some r.location_id }

-- The `catch` around the adjustment.
abbrev pub blocked : Error → Error
blocked insufficient_stock = stocktake_blocked_by_committed
blocked e = e

abbrev pub rethrow {ℓ κ} : {S : Type ℓ} {A : Type κ} → (Error → Error) → Tx S A → Tx S A
rethrow f m s = elim (m s) [ ok r ↦ ok r | err e ↦ err (f e) ]

-- One round of the loop of `balance`: what the count differs by from what was on hand.
unfoldable pub balance_row : ℕ → AuthUser → CountedRow → Tx StocktakeDb ℤ
balance_row id user row = do
  s ← gets StocktakeDb.stock
  let before = (level_at row.variant_id row.location_id s).on_hand
  rethrow blocked (
      on_stock stock_in (
        adjust_on_hand_to row.variant_id row.location_id row.counted (some "stocktake") (some id)
          (some user.user_id)))
  return (row.counted -ℤ before)

-- The loop of `balance`, with `diffLineCount` and `diffQuantity`.
unfoldable pub balance_rows : ℕ → AuthUser → List CountedRow → ℕ → ℤ → Tx StocktakeDb (ℕ × ℤ)
balance_rows id user [] lines quantity = return (lines, quantity)
balance_rows id user (row ∷ rows) lines quantity = do
  diff ← balance_row id user row
  balance_rows id user rows (if diff ==ℤ pos 0 then lines else lines + 1) (quantity +ℤ diff)

-- The transaction of `balance`, at the time `now`.
unfoldable pub balance_tx : ℕ → Stocktake → AuthUser → Tx StocktakeDb (Unit {0})
balance_tx now st user = do
  diffs ←
      balance_rows st.id user (sort_for_locking by_row (counted_rows st.location_id st.items)) 0
        (pos 0)
  update_stocktake st.id (λ row. record row {
    status = StocktakeStatus.balanced;
    balanced_by_id = some user.user_id;
    balanced_at = some now;
    diff_line_count = diffs.0;
    diff_quantity = diffs.1;
  })
  write_log user "stocktake.balance" st.id

-- What `balance` does before its transaction: it reads the stocktake, and checks what it has read.
unfoldable pub check_balance : ℕ → AuthUser → Tx StocktakeDb Stocktake
check_balance id user = do
  st ← read_stocktake id
  assert_location_permission user ("stocktake:balance" ∷ []) st.location_id
  assert_editable st.status
  throw_if (is_empty (counted_rows st.location_id st.items)) stocktake_nothing_counted
  return st

-- `balance`, where no other request comes between the two.
unfoldable pub balance : ℕ → ℕ → AuthUser → Tx StocktakeDb (Unit {0})
unfolding check_balance
balance now id user = do st ← check_balance id user; balance_tx now st user

-- `cancel`
unfoldable pub cancel : ℕ → ℕ → AuthUser → Tx StocktakeDb (Unit {0})
cancel now id user = do
  st ← read_stocktake id
  assert_location_permission user ("stocktake:manage" ∷ []) st.location_id
  assert_editable st.status
  update_stocktake id
      (λ row. record row { status = StocktakeStatus.cancelled; cancelled_at = some now })
