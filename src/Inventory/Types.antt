-- ===== src/Inventory/Types.antt =====
-- src/modules/inventory/inventory.types.ts, and the enumerations of prisma/schema.prisma: the
-- buckets of a stock level, the movement types, and the value of each bucket.
use Prim.Native.Nat.{ℕ}
use multi_warehouse_manageme.Prelude.{Bool, true, false, ◌==◌, Option, String}
use multi_warehouse_manageme.Prelude.Int.{ℤ, pos, ◌-ℤ◌}

-- `enum InventoryBucket`
pub data Bucket : Type 0 where
  on_hand available committed packed reserved unavailable incoming : Bucket

-- `enum MovementType`
pub data MovementType : Type 0 where
  receipt transfer_out transfer_in return_out return_in adjust : MovementType
  order_reserve order_release order_ship packing_start packing_cancel : MovementType
  incoming_po incoming_receipt incoming_cancel incoming_transfer : MovementType
  transfer_reserve transfer_release : MovementType

-- The tag of a bucket, to compare buckets by.
abbrev pub bucket_tag : Bucket → ℕ
bucket_tag on_hand = 0
bucket_tag available = 1
bucket_tag committed = 2
bucket_tag packed = 3
bucket_tag reserved = 4
bucket_tag unavailable = 5
bucket_tag incoming = 6

-- `a === b` on buckets.
abbrev pub same_bucket : Bucket → Bucket → Bool
same_bucket a b = bucket_tag a == bucket_tag b

abbrev pub is_adjust : MovementType → Bool
is_adjust adjust = true
is_adjust _ = false

-- `ApplyMovementInput`; prices and costs are `Decimal(18, 2)`, kept in hundredths.
pub record ApplyMovementInput : Type 0 where
  pub variant_id : ℕ
  pub location_id : ℕ
  pub bucket : Bucket
  pub change : ℤ
  pub type : MovementType
  pub reference_type : Option String
  pub reference_id : Option ℕ
  pub created_by_id : Option ℕ
  pub price : Option ℤ
  pub cost : Option ℤ

-- `LevelState`
pub record LevelState : Type 0 where
  pub on_hand : ℤ
  pub committed : ℤ
  pub packed : ℤ
  pub unavailable : ℤ
  pub incoming : ℤ

unfoldable pub compute_available : LevelState → ℤ
compute_available level = level.on_hand -ℤ level.committed -ℤ level.packed -ℤ level.unavailable

unfoldable pub set_bucket_value : LevelState → Bucket → ℤ → LevelState
set_bucket_value level on_hand value = record level { on_hand = value }
set_bucket_value level committed value = record level { committed = value }
set_bucket_value level packed value = record level { packed = value }
set_bucket_value level unavailable value = record level { unavailable = value }
set_bucket_value level incoming value = record level { incoming = value }
set_bucket_value level available value = level
set_bucket_value level reserved value = level

unfoldable pub get_bucket_value : LevelState → Bucket → ℤ
unfolding compute_available
get_bucket_value level on_hand = level.on_hand
get_bucket_value level committed = level.committed
get_bucket_value level packed = level.packed
get_bucket_value level unavailable = level.unavailable
get_bucket_value level incoming = level.incoming
get_bucket_value level available = compute_available level
get_bucket_value level reserved = pos 0

-- A row's counters when it is created.
abbrev pub zero_level : LevelState
zero_level = record {
  on_hand = pos 0;
  committed = pos 0;
  packed = pos 0;
  unavailable = pos 0;
  incoming = pos 0;
}
