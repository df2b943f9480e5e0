-- ===== src/Inventory/Service.antt =====
-- src/modules/inventory/inventory.service.ts: the one way in which stock changes. A transaction
-- runs on the locked rows, so it is a step on the tables; what throws rolls back.
use Prim.Native.Nat.{ℕ}
use multi_warehouse_manageme.Prelude.{
  Bool, true, false, not, ◌&&◌, ◌==◌, if◌then◌else◌, Option, none, some, List, [], ◌∷◌, String, all,
  map, length, take, ltb,
}
use multi_warehouse_manageme.Prelude.Int.{ℤ, pos, ◌+ℤ◌, ◌-ℤ◌, ltb_ℤ, ◌==ℤ◌}
use multi_warehouse_manageme.Prelude.Tx.{
  insufficient_stock, record_not_found, empty_batch, mixed_batch, Result, ok, err, Tx, ◌>>=◌, ◌>>◌,
  return, throw, throw_if, lift, or_throw, gets, modify,
}
use multi_warehouse_manageme.Inventory.Types.{
  Bucket, on_hand, committed, packed, unavailable, incoming, MovementType, adjust, order_reserve,
  order_release, packing_start, packing_cancel, order_ship, is_adjust, ApplyMovementInput,
  LevelState, compute_available, set_bucket_value, get_bucket_value,
}
use multi_warehouse_manageme.Inventory.Store.{
  LevelRow, Stock, find_level, lock_level, create_level, update_level, insert_movement,
  sum_movements,
}

-- `ORDER_LIFECYCLE_TYPES.has(type)`
unfoldable pub is_order_lifecycle : MovementType → Bool
is_order_lifecycle order_reserve = true
is_order_lifecycle order_release = true
is_order_lifecycle packing_start = true
is_order_lifecycle packing_cancel = true
is_order_lifecycle order_ship = true
is_order_lifecycle _ = false

-- The guard on `next < 0`: whether the movement is refused.
unfoldable pub refuses_negative : LevelState → MovementType → Bucket → ℤ → Bool
unfolding compute_available
refuses_negative level type on_hand next =
    ltb_ℤ next (pos 0)
    && (ltb_ℤ (compute_available (record level { on_hand = next })) (pos 0) && not (is_adjust type))
refuses_negative level type bucket next = ltb_ℤ next (pos 0)

-- `worsensAvailable`
unfoldable pub worsens_available : Bucket → ℤ → Bool
worsens_available on_hand change = ltb_ℤ change (pos 0)
worsens_available incoming change = false
worsens_available bucket change = ltb_ℤ (pos 0) change

abbrev pub is_unavailable : Bucket → Bool
is_unavailable unavailable = true
is_unavailable _ = false

-- The checks of one round of the loop, on the counters that it has read: the new counters.
unfoldable pub next_level : LevelState → ApplyMovementInput → Result LevelState
next_level level input =
    let next = get_bucket_value level input.bucket +ℤ input.change in
    let after = set_bucket_value level input.bucket next in
    if refuses_negative level input.type input.bucket next
    then err insufficient_stock
    else if ltb_ℤ (compute_available after) (pos 0)
        && (worsens_available input.bucket input.change
            && (not (is_unavailable input.bucket) && not (is_order_lifecycle input.type)))
    then err insufficient_stock
    else ok after

unfoldable pub ensure_level_locked : ℕ → ℕ → Stock → Stock
unfolding lock_level
ensure_level_locked v l s = elim (lock_level s v l) [
  | none ↦ create_level v l none none s
  | some _ ↦ s
]

unfoldable pub get_level_state : ℕ → ℕ → Tx Stock LevelState
get_level_state v l s = elim (find_level v l s.levels) [
  | none ↦ err record_not_found
  | some row ↦ ok (row.level, s)
]

-- `updateLevel` and `insertMovement`, with the new `available`.
unfoldable pub write_movement : ℕ → ℕ → ApplyMovementInput → LevelState → Stock → Stock
write_movement v l input level s =
    insert_movement input
      (update_level v l level (compute_available level) input.price input.cost s)

-- One round of the loop of `applyMovementsInternal`: the id of the movement.
unfoldable pub apply_round : ℕ → ℕ → ApplyMovementInput → Tx Stock ℕ
apply_round v l input = do
  throw_if (not (input.variant_id == v && input.location_id == l)) mixed_batch
  level ← get_level_state v l
  after ← lift (next_level level input)
  id ← gets Stock.next_movement_id
  modify (write_movement v l input after)
  return id

unfoldable pub apply_rounds : ℕ → ℕ → List ApplyMovementInput → Tx Stock (List ℕ)
apply_rounds v l [] = return []
apply_rounds v l (input ∷ inputs) = do
  id ← apply_round v l input
  ids ← apply_rounds v l inputs
  return (id ∷ ids)

-- `applyMovementsInternal`: the ids of the movements, and the row as it is left.
unfoldable pub apply_movements : List ApplyMovementInput → Tx Stock (List ℕ × LevelRow)
apply_movements [] = throw empty_batch
apply_movements (first ∷ rest) = do
  modify (ensure_level_locked first.variant_id first.location_id)
  ids ← apply_rounds first.variant_id first.location_id (first ∷ rest)
  s ← gets (λ s. s)
  row ← or_throw (find_level first.variant_id first.location_id s.levels) record_not_found
  return (ids, row)

unfoldable pub apply_movement : ApplyMovementInput → Tx Stock (List ℕ × LevelRow)
unfolding apply_movements
apply_movement input = apply_movements (input ∷ [])

-- The movement that brings `on_hand` from `current` to `target`.
abbrev pub adjustment : ℕ → ℕ → ℤ → ℤ → Option String → Option ℕ → Option ℕ → ApplyMovementInput
adjustment v l target current reference_type reference_id created_by_id = record {
  variant_id = v;
  location_id = l;
  bucket = on_hand;
  change = target -ℤ current;
  type = adjust;
  reference_type = reference_type;
  reference_id = reference_id;
  created_by_id = created_by_id;
  price = none;
  cost = none;
}

-- `adjustOnHandTo`; `none` is its `null`, for a level that is at the target already.
unfoldable pub adjust_on_hand_to :
    ℕ → ℕ → ℤ → Option String → Option ℕ → Option ℕ → Tx Stock (Option (List ℕ × LevelRow))
adjust_on_hand_to v l target reference_type reference_id created_by_id = do
  modify (ensure_level_locked v l)
  level ← get_level_state v l
  let input = adjustment v l target level.on_hand reference_type reference_id created_by_id
  let apply = apply_movement input >>= λ r. return (some r)
  if input.change ==ℤ pos 0 then return none else apply

-- `LEDGER_BUCKETS`, the buckets that the ledger of movements accounts for.
abbrev pub ledger_buckets : List Bucket
ledger_buckets = on_hand ∷ committed ∷ packed ∷ unavailable ∷ incoming ∷ []

pub record BucketCheck : Type 0 where
  pub bucket : Bucket
  pub expected : ℤ
  pub ledger : ℤ
  pub ok : Bool

pub record Reconciliation : Type 0 where
  pub ok : Bool
  pub available_formula_ok : Option Bool
  pub buckets : List BucketCheck

unfoldable pub check_bucket : Stock → LevelRow → Bucket → BucketCheck
check_bucket s row bucket =
    let expected = get_bucket_value row.level bucket in
    let ledger = sum_movements row.variant_id row.location_id bucket s.movements in
    record { bucket = bucket; expected = expected; ledger = ledger; ok = expected ==ℤ ledger }

unfoldable pub check_row : Stock → LevelRow → Reconciliation
unfolding check_bucket
check_row s row =
    let buckets = map (check_bucket s row) ledger_buckets in
    let formula = row.available ==ℤ compute_available row.level in
    record {
      ok = formula && all BucketCheck.ok buckets;
      available_formula_ok = some formula;
      buckets = buckets;
    }

-- `reconcile`: with no row there is nothing to check, and no `available_formula_ok`.
unfoldable pub reconcile : ℕ → ℕ → Stock → Reconciliation
unfolding check_row
reconcile v l s = elim (find_level v l s.levels) [
  | none ↦ record { ok = true; available_formula_ok = none; buckets = [] }
  | some row ↦ check_row s row
]

-- An entry of `mismatches` in `ReconcileReport`.
pub record Mismatch : Type 0 where
  pub variant_id : ℕ
  pub location_id : ℕ
  pub available_formula_ok : Option Bool
  pub buckets : List BucketCheck

-- The loop of `runFullReconcile` (reconcile.service.ts) over the rows; the grouped sums of the
-- movements are read by `sum_movements`, 0 for a group that is not there.
unfoldable pub collect_mismatches : Stock → List LevelRow → List Mismatch
unfolding check_row
collect_mismatches s [] = []
collect_mismatches s (row ∷ rows) =
    let check = check_row s row in
    let rest = collect_mismatches s rows in
    if check.ok
    then rest
    else record {
      variant_id = row.variant_id;
      location_id = row.location_id;
      available_formula_ok = check.available_formula_ok;
      buckets = check.buckets;
    }
      ∷ rest

pub record ReconcileReport : Type 0 where
  pub checked : ℕ
  pub mismatches : List Mismatch
  pub ok : Bool

-- The metadata of the row that goes into `activity_logs` when something does not add up.
pub record MismatchLog : Type 0 where
  pub checked : ℕ
  pub mismatch_count : ℕ
  pub truncated : Bool
  pub mismatches : List Mismatch

abbrev max_logged_mismatches : ℕ
max_logged_mismatches = 100

-- `runFullReconcile`: the report, and what is logged.
unfoldable pub run_full_reconcile : Stock → ReconcileReport × Option MismatchLog
unfolding collect_mismatches
run_full_reconcile s =
    let mismatches = collect_mismatches s s.levels in
    let clean = length mismatches == 0 in
    let log : MismatchLog = record {
      checked = length s.levels;
      mismatch_count = length mismatches;
      truncated = ltb max_logged_mismatches (length mismatches);
      mismatches = take max_logged_mismatches mismatches;
    } in
    (
      record { checked = length s.levels; mismatches = mismatches; ok = clean },
      if clean then none else some log,
    )
