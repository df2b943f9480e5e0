-- ===== src/Inventory/Levels.antt =====
-- The counters found at each (variant, location), and what a write or a creation of
-- inventory.repository.ts does to them.
use multi_warehouse_manageme.Prelude.{
  ℕ, ◌≡◌, Bool, true, false, ◌&&◌, ◌==◌, if◌then◌else◌, Option, none, some, List, [], ◌∷◌, arith,
  Option-cases, inl, inr, or_default,
}
use multi_warehouse_manageme.Prelude.Int.{ℤ, pos}
use multi_warehouse_manageme.Inventory.Types.{
  Bucket, available, reserved, same_bucket, LevelState, set_bucket_value, get_bucket_value,
  zero_level,
}
use multi_warehouse_manageme.Inventory.Store.{
  LevelRow, Stock, find_level, create_level, update_rows, lock_level,
}
use multi_warehouse_manageme.Inventory.Service.{ensure_level_locked}

abbrev pub level_of : Option LevelRow → LevelState
level_of none = zero_level
level_of (some row) = row.level

abbrev pub available_of : Option LevelRow → ℤ
available_of none = pos 0
available_of (some row) = row.available

-- The counters at a key; zeros where there is no row.
abbrev pub level_at : ℕ → ℕ → Stock → LevelState
level_at v l s = level_of (find_level v l s.levels)

-- The stored `available` at a key.
abbrev pub available_at : ℕ → ℕ → Stock → ℤ
available_at v l s = available_of (find_level v l s.levels)

abbrev pub same_key : ℕ → ℕ → ℕ → ℕ → Bool
same_key v l v' l' = v == v' && l == l'

pub find_level-update :
    (v l v' l' : ℕ) (level : LevelState) (a : ℤ) (p c : Option ℤ) (rows : List LevelRow)
    (row : LevelRow)
    → find_level v l rows ≡ some row
    → (level_of (find_level v' l' (update_rows v l level a p c rows))
        ≡ (if same_key v l v' l' then level else level_of (find_level v' l' rows)))
      × (available_of (find_level v' l' (update_rows v l level a p c rows))
          ≡ (if same_key v l v' l' then a else available_of (find_level v' l' rows)))
unfolding find_level update_rows
find_level-update v l v' l' level a p c [] row e = cc
find_level-update v l v' l' level a p c (r ∷ rows) row e =
    ground (arith, find_level-update v l v' l' level a p c rows row)

pub find_level-update_self :
    (v l : ℕ) (level : LevelState) (a : ℤ) (p c : Option ℤ) (rows : List LevelRow) (row : LevelRow)
    → find_level v l rows ≡ some row
    → find_level v l (update_rows v l level a p c rows)
      ≡ some (record row {
        level = level;
        available = a;
        price = or_default p row.price;
        cost = or_default c row.cost;
      })
unfolding find_level update_rows
find_level-update_self v l level a p c [] row e = cc
find_level-update_self v l level a p c (r ∷ rows) row e =
    ground (arith, find_level-update_self v l level a p c rows row)

-- Taking the lock, which may create a row of zeros, changes no counter and no movement.
pub level_at-ensure :
    (v l v' l' : ℕ) (s : Stock)
    → (level_at v' l' (ensure_level_locked v l s) ≡ level_at v' l' s)
      × (available_at v' l' (ensure_level_locked v l s) ≡ available_at v' l' s)
unfolding ensure_level_locked lock_level create_level find_level
level_at-ensure v l v' l' s = ground arith

pub movements-ensure : (v l : ℕ) (s : Stock) → (ensure_level_locked v l s).movements ≡ s.movements
unfolding ensure_level_locked create_level
movements-ensure v l s = ground arith

-- After the lock there is a row.
pub find_level-ensure :
    (v l : ℕ) (s : Stock)
    → (row : LevelRow) × (find_level v l (ensure_level_locked v l s).levels ≡ some row)
unfolding ensure_level_locked lock_level create_level find_level
find_level-ensure v l s = elim (Option-cases (find_level v l s.levels)) [
  | inr (row, e) ↦ (row, rw (e, ensure_level_locked) e)
  | inl e ↦ (
    record {
      variant_id = v;
      location_id = l;
      level = zero_level;
      available = pos 0;
      price = pos 0;
      cost = pos 0;
    },
    ground arith,
  )
]

abbrev pub is_ledger : Bucket → Bool
is_ledger available = false
is_ledger reserved = false
is_ledger _ = true

-- What is read at a bucket of the ledger after a write at any bucket.
pub get_bucket_value-set :
    (level : LevelState) (b c : Bucket) (x : ℤ)
    → is_ledger c ≡ true
    → get_bucket_value (set_bucket_value level b x) c
      ≡ (if same_bucket b c then x else get_bucket_value level c)
unfolding set_bucket_value get_bucket_value
get_bucket_value-set level b c x h = ground arith
