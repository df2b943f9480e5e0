-- ===== src/Inventory/Single.antt =====
-- `applyMovement` of inventory.service.ts, one movement at a time: when it succeeds, and the
-- counters that it leaves.
use multi_warehouse_manageme.Prelude.{
  ℕ, ◌≡◌, sym, ap, ◌∙◌, if◌then◌else◌, some, List, [], ◌∷◌, arith, inl, inr,
}
use multi_warehouse_manageme.Prelude.Tx.{Error, ok, err, Result-cases}
use multi_warehouse_manageme.Inventory.Types.{ApplyMovementInput, LevelState, compute_available}
use multi_warehouse_manageme.Inventory.Store.{
  LevelRow, Stock, find_level, update_level, insert_movement,
}
use multi_warehouse_manageme.Inventory.Service.{
  next_level, write_movement, apply_round, apply_rounds, apply_movement, get_level_state,
  ensure_level_locked,
}
use multi_warehouse_manageme.Inventory.Levels.{
  level_of, level_at, same_key, level_at-ensure, find_level-ensure, find_level-update,
  find_level-update_self,
}

-- The stock after a movement that leaves its row at the counters `after`.
abbrev pub moved : ApplyMovementInput → LevelState → Stock → Stock
moved input after s =
    write_movement input.variant_id input.location_id input after
      (ensure_level_locked input.variant_id input.location_id s)

apply_round-ok :
    (input : ApplyMovementInput) (s : Stock) (row : LevelRow) (after : LevelState)
    → find_level input.variant_id input.location_id s.levels ≡ some row
    → next_level row.level input ≡ ok after
    → apply_round input.variant_id input.location_id input s
      ≡ ok (s.next_movement_id, write_movement input.variant_id input.location_id input after s)
unfolding apply_round get_level_state
apply_round-ok input s row after e h = ground arith

apply_round-err :
    (input : ApplyMovementInput) (s : Stock) (row : LevelRow) (x : Error)
    → find_level input.variant_id input.location_id s.levels ≡ some row
    → next_level row.level input ≡ err x
    → apply_round input.variant_id input.location_id input s ≡ err x
unfolding apply_round get_level_state
apply_round-err input s row x e h = ground arith

pub locked_row :
    (v l : ℕ) (s : Stock)
    → (row : LevelRow) × (find_level v l (ensure_level_locked v l s).levels ≡ some row)
      × (row.level ≡ level_at v l s)
locked_row v l s =
    let (row, e) = find_level-ensure v l s in
    (row, e, ap level_of (sym e) ∙ (level_at-ensure v l v l s).0)

find_level-write :
    (input : ApplyMovementInput) (s : Stock) (row : LevelRow) (after : LevelState)
    → find_level input.variant_id input.location_id s.levels ≡ some row
    → (row' : LevelRow) × (find_level input.variant_id input.location_id
          (write_movement input.variant_id input.location_id input after s).levels
        ≡ some row')
unfolding write_movement update_level insert_movement
find_level-write input s row after e = (
  _,
  find_level-update_self input.variant_id input.location_id after (compute_available after)
      input.price input.cost s.levels row e,
)

-- A movement that its guards let pass succeeds, on the counters at its key.
pub apply_movement-ok :
    (input : ApplyMovementInput) (s : Stock) (after : LevelState)
    → next_level (level_at input.variant_id input.location_id s) input ≡ ok after
    → (r : List ℕ × LevelRow) × (apply_movement input s ≡ ok (r, moved input after s))
unfolding apply_movement apply_rounds
apply_movement-ok input s after h =
    let v = input.variant_id in
    let l = input.location_id in
    let s₀ = ensure_level_locked v l s in
    let (row, e, same) = locked_row v l s in
    let round = apply_round-ok input s₀ row after e (rw same h) in
    let (row', found) = find_level-write input s₀ row after e in
    ((s₀.next_movement_id ∷ [], row'), ground arith)

pub apply_movement-err :
    (input : ApplyMovementInput) (s : Stock) (x : Error)
    → next_level (level_at input.variant_id input.location_id s) input ≡ err x
    → apply_movement input s ≡ err x
unfolding apply_movement apply_rounds
apply_movement-err input s x h =
    let v = input.variant_id in
    let l = input.location_id in
    let (row, e, same) = locked_row v l s in
    let round = apply_round-err input (ensure_level_locked v l s) row x e (rw same h) in
    ground arith

-- What a single movement leaves at every key, and that its own key has the counters `after`.
pub level_at-moved :
    (input : ApplyMovementInput) (after : LevelState) (s : Stock) (v' l' : ℕ)
    → level_at v' l' (moved input after s)
      ≡ (if same_key input.variant_id input.location_id v' l' then after else level_at v' l' s)
unfolding write_movement update_level insert_movement
level_at-moved input after s v' l' =
    let v = input.variant_id in
    let l = input.location_id in
    let s₀ = ensure_level_locked v l s in
    let (row, e) = find_level-ensure v l s in
    (find_level-update v l v' l' after (compute_available after) input.price input.cost s₀.levels
      row e).0
    ∙ rw (level_at-ensure v l v' l' s).0

-- A successful single movement has passed its guards, and is `moved`.
pub apply_movement-inv :
    (input : ApplyMovementInput) (s : Stock) {r : List ℕ × LevelRow} {t : Stock}
    → apply_movement input s ≡ ok (r, t)
    → (after : LevelState) × (next_level (level_at input.variant_id input.location_id s) input
        ≡ ok after)
      × (t ≡ moved input after s)
apply_movement-inv input s h =
    elim (Result-cases (next_level (level_at input.variant_id input.location_id s) input)) [
      | inl (after, e) ↦ let (r', e') = apply_movement-ok input s after e in (after, e, cc)
      | inr (x, e) ↦ absurd (cc (apply_movement-err input s x e))
    ]
