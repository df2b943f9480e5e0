-- ===== src/Stocktakes/Examples.antt =====
-- A count of one variant, another line being uncounted.
use multi_warehouse_manageme.Prelude.{List, ◌≡◌, ◌≢◌, refl, true, none, some, [], ◌∷◌}
use multi_warehouse_manageme.Prelude.Int.{pos, negsuc}
use multi_warehouse_manageme.Prelude.Tx.{ok, settle}
use multi_warehouse_manageme.Prelude.Table.{find_row, update_row}
use multi_warehouse_manageme.Auth.{AuthUser, assert_location_permission}
use multi_warehouse_manageme.Inventory.Types.{zero_level}
use multi_warehouse_manageme.Inventory.Levels.{level_at}
use multi_warehouse_manageme.Inventory.Locking.{sort_for_locking}
use multi_warehouse_manageme.Inventory.Computing.{computing}
use multi_warehouse_manageme.Stocktakes.Service.{
  StocktakeStatus, Stocktake, StocktakeDb, check_balance, balance, balance_tx, balance_rows,
  balance_row, counted_rows, assert_editable, update, edited_items, upsert_items, normalize_items,
  StocktakeItemDto,
}
use multi_warehouse_manageme.Stocktakes.Counting.{with_count, balance-counted}
use multi_warehouse_manageme.Stocktakes.Editing.{line_of, update-lines}
use multi_warehouse_manageme.Stocktakes.Overlapping.{balance-overlap}

abbrev admin : AuthUser
admin = record {
  user_id = 1;
  is_admin = true;
  location_ids = [];
  admin_warehouse_ids = [];
  system_permissions = [];
  warehouse_permissions = [];
}

abbrev sheet : Stocktake
sheet = record {
  id = 5;
  code = 1;
  location_id = 1;
  status = StocktakeStatus.checking;
  items =
      record { variant_id = 9; system_quantity = pos 3; counted_quantity = none }
      ∷ record { variant_id = 7; system_quantity = pos 9; counted_quantity = some (pos 8) }
      ∷ [];
  diff_line_count = 0;
  diff_quantity = pos 0;
  balanced_by_id = none;
  balanced_at = none;
  cancelled_at = none;
}

abbrev start : StocktakeDb
start = record {
  stock = record {
    levels =
        record {
          variant_id = 7;
          location_id = 1;
          level = record zero_level { on_hand = pos 10 };
          available = pos 10;
          price = pos 0;
          cost = pos 0;
        }
        ∷ [];
    movements = [];
    next_movement_id = 1;
  };
  locations = 1 ∷ [];
  stocktakes = sheet ∷ [];
  logs = [];
  next_id = 6;
}

handlers : Unit {0}
unfolding computing update edited_items upsert_items normalize_items check_balance balance
    balance_tx balance_rows balance_row counted_rows assert_editable assert_location_permission
    find_row update_row sort_for_locking
handlers = tt

abbrev balanced : StocktakeDb
unfolding handlers
balanced = settle start (balance 100 5 admin start)

-- One line differs, by two pieces that are missing.
differs_by_two :
    find_row Stocktake.id 5 balanced.stocktakes
    ≡ some (record sheet {
      status = StocktakeStatus.balanced;
      balanced_by_id = some 1;
      balanced_at = some 100;
      diff_line_count = 1;
      diff_quantity = negsuc 1;
    })
unfolding handlers
differs_by_two = refl

finds : find_row Stocktake.id 5 start.stocktakes ≡ some sheet
unfolding handlers
finds = refl

balances : balance 100 5 admin start ≡ ok (tt, balanced)
unfolding handlers
balances = refl

balance-counted_example : level_at 7 1 balanced.stock ≡ record zero_level { on_hand = pos 8 }
unfolding handlers
balance-counted_example = balance-counted 100 5 admin start balanced tt sheet 7 1 finds balances

abbrev balanced_twice : StocktakeDb
unfolding handlers
balanced_twice = settle balanced (balance_tx 200 sheet admin balanced)

checks : check_balance 5 admin start ≡ ok (sheet, start)
unfolding handlers
checks = refl

first_runs : balance_tx 100 sheet admin start ≡ ok (tt, balanced)
unfolding handlers
first_runs = refl

second_runs : balance_tx 200 sheet admin balanced ≡ ok (tt, balanced_twice)
unfolding handlers
second_runs = refl

balance-overlap_example :
    (level_at 7 1 balanced_twice.stock ≡ level_at 7 1 balanced.stock)
    × (level_at 7 1 balanced.stock ≡ with_count (some (pos 8)) (level_at 7 1 start.stock))
    × (check_balance 5 admin balanced ≢ ok (sheet, start))
balance-overlap_example =
    balance-overlap 100 200 5 admin admin admin start balanced balanced_twice start tt sheet sheet
      sheet sheet 7 1 finds checks checks first_runs second_runs

-- The second one records that nothing differs.
forgets_difference :
    find_row Stocktake.id 5 balanced_twice.stocktakes
    ≡ some (record sheet {
      status = StocktakeStatus.balanced;
      balanced_by_id = some 1;
      balanced_at = some 200;
      diff_line_count = 0;
      diff_quantity = pos 0;
    })
unfolding handlers
forgets_difference = refl

-- The uncounted line is counted twice, the counted one is not sent, and a new one is.
abbrev request : List StocktakeItemDto
request =
    record { variant_id = 9; counted_quantity = some (pos 2) }
    ∷ record { variant_id = 3; counted_quantity = none }
    ∷ record { variant_id = 9; counted_quantity = some (pos 4) }
    ∷ []

abbrev edited_db : StocktakeDb
unfolding handlers
edited_db = settle start (update 5 (some request) admin start)

updates : update 5 (some request) admin start ≡ ok (tt, edited_db)
unfolding handlers
updates = refl

update-lines_example :
    (st : Stocktake) × (find_row Stocktake.id 5 edited_db.stocktakes ≡ some st)
    × (line_of 9 st.items
        ≡ some
            (record { variant_id = 9; system_quantity = pos 3; counted_quantity = some (pos 4) }))
unfolding find_row
update-lines_example = update-lines 5 request admin start edited_db tt sheet 9 finds updates
