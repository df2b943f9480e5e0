-- ===== src/Inventory/Store.antt =====
-- src/modules/inventory/inventory.repository.ts over the tables `inventory_levels` and
-- `inventory_movements` of prisma/schema.prisma. A table is a list of rows; the primary key
-- (variant_id, location_id) of a level is kept by `create_level`, which skips duplicates.
use Prim.Native.Nat.{ℕ, ◌+◌}
use multi_warehouse_manageme.Prelude.{
  Bool, ◌&&◌, ◌==◌, if◌then◌else◌, or_default, Option, none, some, List, [], ◌∷◌, String,
}
use multi_warehouse_manageme.Prelude.Int.{ℤ, pos, ◌+ℤ◌}
use multi_warehouse_manageme.Inventory.Types.{
  Bucket, MovementType, ApplyMovementInput, LevelState, zero_level, same_bucket,
}

-- A row of `inventory_levels`, with the columns that this service reads or writes.
pub record LevelRow : Type 0 where
  pub variant_id : ℕ
  pub location_id : ℕ
  pub level : LevelState
  pub available : ℤ
  pub price : ℤ
  pub cost : ℤ

-- A row of `inventory_movements`.
pub record Movement : Type 0 where
  pub id : ℕ
  pub variant_id : ℕ
  pub location_id : ℕ
  pub bucket : Bucket
  pub change : ℤ
  pub type : MovementType
  pub reference_type : Option String
  pub reference_id : Option ℕ
  pub created_by_id : Option ℕ

-- The two tables; the newest movement stands first, and ids count up.
pub record Stock : Type 0 where
  pub levels : List LevelRow
  pub movements : List Movement
  pub next_movement_id : ℕ

abbrev pub same_row : ℕ → ℕ → LevelRow → Bool
same_row v l row = row.variant_id == v && row.location_id == l

-- `findUnique({ where: { variantId_locationId } })`
unfoldable pub find_level : ℕ → ℕ → List LevelRow → Option LevelRow
find_level v l [] = none
find_level v l (row ∷ rows) = if same_row v l row then some row else find_level v l rows

-- `SELECT … FOR UPDATE`: the row with the key, if there is one.
unfoldable pub lock_level : Stock → ℕ → ℕ → Option LevelRow
lock_level s v l = find_level v l s.levels

-- `INSERT … ON CONFLICT DO NOTHING` of a row of zeros.
unfoldable pub create_level : ℕ → ℕ → Option ℤ → Option ℤ → Stock → Stock
create_level v l price cost s = elim (find_level v l s.levels) [
  | some _ ↦ s
  | none ↦ record s {
    levels =
        record {
          variant_id = v;
          location_id = l;
          level = zero_level;
          available = pos 0;
          price = or_default price (pos 0);
          cost = or_default cost (pos 0);
        }
        ∷ s.levels;
  }
]

-- `UPDATE` of the row with the key, by the new counters; a price or cost that is not given stays.
unfoldable pub update_rows :
    ℕ → ℕ → LevelState → ℤ → Option ℤ → Option ℤ → List LevelRow → List LevelRow
update_rows v l level available price cost [] = []
update_rows v l level available price cost (row ∷ rows) =
    if same_row v l row
    then record row {
      level = level;
      available = available;
      price = or_default price row.price;
      cost = or_default cost row.cost;
    }
      ∷ rows
    else row ∷ update_rows v l level available price cost rows

unfoldable pub update_level : ℕ → ℕ → LevelState → ℤ → Option ℤ → Option ℤ → Stock → Stock
update_level v l level available price cost s = record s {
  levels = update_rows v l level available price cost s.levels;
}

-- The created movement's id is the old `next_movement_id`.
unfoldable pub insert_movement : ApplyMovementInput → Stock → Stock
insert_movement input s = record s {
  movements =
      record {
        id = s.next_movement_id;
        variant_id = input.variant_id;
        location_id = input.location_id;
        bucket = input.bucket;
        change = input.change;
        type = input.type;
        reference_type = input.reference_type;
        reference_id = input.reference_id;
        created_by_id = input.created_by_id;
      }
      ∷ s.movements;
  next_movement_id = s.next_movement_id + 1;
}

-- `aggregate({ where: { variantId, locationId, bucket }, _sum: { change } })`, with `?? 0`.
unfoldable pub sum_movements : ℕ → ℕ → Bucket → List Movement → ℤ
sum_movements v l b [] = pos 0
sum_movements v l b (m ∷ ms) =
    (if m.variant_id == v && m.location_id == l && same_bucket m.bucket b then m.change else pos 0)
    +ℤ sum_movements v l b ms
