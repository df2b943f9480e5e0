-- ===== src/Inventory/Adjust.antt =====
-- `adjustOnHandTo` of inventory.service.ts, which imports and stocktakes set a counted stock by.
use mathlib.Core.Path.{subst}
use multi_warehouse_manageme.Prelude.{
  ℕ, ◌≡◌, ap, sym, ◌∙◌, true, if◌then◌else◌, Option, none, some, List, String, arith, ◌⊎◌, inl, inr,
  Bool-cases,
}
use multi_warehouse_manageme.Prelude.Int.{ℤ, pos, ◌+ℤ◌, ◌-ℤ◌, ◌≤ℤ◌, ◌==ℤ◌, int_laws, -ℤ_parts}
use multi_warehouse_manageme.Prelude.Tx.{ok, ◌>>=◌, return, >>=-eq-ok}
use multi_warehouse_manageme.Inventory.Types.{
  on_hand, LevelState, compute_available, set_bucket_value, get_bucket_value,
}
use multi_warehouse_manageme.Inventory.Store.{LevelRow, Stock}
use multi_warehouse_manageme.Inventory.Service.{
  apply_movement, ensure_level_locked, adjustment, adjust_on_hand_to, get_level_state, next_level,
  worsens_available,
}
use multi_warehouse_manageme.Inventory.Levels.{level_at, same_key, level_at-ensure}
use multi_warehouse_manageme.Inventory.Steps.{next_level-set}
use multi_warehouse_manageme.Inventory.Single.{
  moved, locked_row, apply_movement-inv, apply_movement-ok, level_at-moved,
}
use multi_warehouse_manageme.Inventory.Bounds.{IsNonNegative, admits, next_level-admits}

-- What the call comes to, on the counters at its key.
adjust_on_hand_to-eq :
    (v l : ℕ) (target : ℤ) (rt : Option String) (ri by : Option ℕ) (s : Stock)
    → let s₀ = ensure_level_locked v l s in
      let input = adjustment v l target (level_at v l s).on_hand rt ri by in
      adjust_on_hand_to v l target rt ri by s ≡ (
        if input.change ==ℤ pos 0
        then ok (none, s₀)
        else (apply_movement input >>= λ r. return (some r)) s₀)
unfolding adjust_on_hand_to get_level_state
adjust_on_hand_to-eq v l target rt ri by s =
    let (row, e, same) = locked_row v l s in rw (← same) (ground arith)

same_key_eq : (v l v' l' : ℕ) → same_key v l v' l' ≡ true → (v' ≡ v) × (l' ≡ l)
same_key_eq v l v' l' h = ground arith

no_change : (a b : ℤ) → ((a -ℤ b) ==ℤ pos 0) ≡ true → b ≡ a
no_change a b h = grind int_laws

full_change : (a b : ℤ) → b +ℤ (a -ℤ b) ≡ a
full_change a b = omega int_laws

-- The adjustment's own effect on the counters that it reads.
adjusted :
    (v l : ℕ) (target : ℤ) (rt : Option String) (ri by : Option ℕ) (level after : LevelState)
    → next_level level (adjustment v l target level.on_hand rt ri by) ≡ ok after
    → after ≡ record level { on_hand = target }
unfolding set_bucket_value get_bucket_value
adjusted v l target rt ri by level after h =
    next_level-set level (adjustment v l target level.on_hand rt ri by) h
    ∙ ap (λ x. record level { on_hand = x }) (full_change target level.on_hand)

-- The counters that a call is to leave at a key.
abbrev Sets : ℕ → ℕ → ℤ → Stock → Stock → ℕ → ℕ → Type 0
Sets v l target s t v' l' = level_at v' l' t ≡ (
    if same_key v l v' l' then record (level_at v' l' s) { on_hand = target } else level_at v' l' s)

Sets-same :
    (v l : ℕ) (target : ℤ) (s : Stock) (v' l' : ℕ)
    → (level_at v l s).on_hand ≡ target
    → Sets v l target s (ensure_level_locked v l s) v' l'
Sets-same v l target s v' l' e =
    (level_at-ensure v l v' l' s).0 ∙ elim (Bool-cases (same_key v l v' l')) [
      | inr other ↦ rw other
      | inl same ↦ let (ev, el) = same_key_eq v l v' l' same in rw (same, ev, el) (rw (← e))
    ]

Sets-moved :
    (v l : ℕ) (target : ℤ) (rt : Option String) (ri by : Option ℕ) (s : Stock) (after : LevelState)
    (v' l' : ℕ)
    → let input = adjustment v l target (level_at v l s).on_hand rt ri by in
      next_level (level_at v l (ensure_level_locked v l s)) input ≡ ok after
      → Sets v l target s (moved input after (ensure_level_locked v l s)) v' l'
Sets-moved v l target rt ri by s after v' l' h =
    let input = adjustment v l target (level_at v l s).on_hand rt ri by in
    level_at-moved input after (ensure_level_locked v l s) v' l'
    ∙ elim (Bool-cases (same_key v l v' l')) [
      | inr other ↦ rw (other, (level_at-ensure v l v' l' s).0)
      | inl same ↦
          let (ev, el) = same_key_eq v l v' l' same in
          rw (same, ev, el)
            (adjusted v l target rt ri by (level_at v l s) after
              (rw (level_at-ensure v l v l s).0 at h))
    ]

-- A call that succeeds leaves `on_hand` at the target, and all the other counters, at this key
-- and at every other, as they were.
pub adjust_on_hand_to-target :
    (v l : ℕ) (target : ℤ) (rt : Option String) (ri by : Option ℕ) (s : Stock)
    {r : Option (List ℕ × LevelRow)} {t : Stock} (v' l' : ℕ)
    → adjust_on_hand_to v l target rt ri by s ≡ ok (r, t)
    → level_at v' l' t ≡ (
        if same_key v l v' l'
        then record (level_at v' l' s) { on_hand = target }
        else level_at v' l' s)
adjust_on_hand_to-target v l target rt ri by s {t = t} v' l' h =
    let input = adjustment v l target (level_at v l s).on_hand rt ri by in
    elim (Bool-cases (input.change ==ℤ pos 0)) [
      | inl same ↦
          let end : ensure_level_locked v l s ≡ t =
            cc (rw (adjust_on_hand_to-eq v l target rt ri by s, same) at h) in
          subst (λ x. Sets v l target s x v' l') end
            (Sets-same v l target s v' l' (no_change target (level_at v l s).on_hand same))
      | inr differs ↦
          let (a, t', moves, last) =
            >>=-eq-ok (apply_movement input) (λ r. return (some r)) (ensure_level_locked v l s)
              (rw (adjust_on_hand_to-eq v l target rt ri by s, differs) at h) in
          let (after, checked, left) =
            apply_movement-inv input (ensure_level_locked v l s) {r = a} {t = t'} moves in
          let end : t' ≡ t = cc last in
          subst (λ x. Sets v l target s x v' l') (sym left ∙ end)
            (Sets-moved v l target rt ri by s after v' l' checked)
    ]

count_admitted :
    (v l : ℕ) (target : ℤ) (rt : Option String) (ri by : Option ℕ) (level : LevelState)
    → pos 0 ≤ℤ target
    → (level.on_hand ≤ℤ target) ⊎ (pos 0 ≤ℤ compute_available (record level { on_hand = target }))
    → admits level (adjustment v l target level.on_hand rt ri by) ≡ true
unfolding admits worsens_available get_bucket_value set_bucket_value
count_admitted v l target rt ri by level p c =
    rw (full_change target level.on_hand) (grind (arith, -ℤ_parts target level.on_hand))

-- A count that is not negative, and either raises the stock or covers what is committed, packed
-- and set aside, is accepted, if no counter at the key is below zero.
pub adjust_on_hand_to-accepts :
    (v l : ℕ) (target : ℤ) (rt : Option String) (ri by : Option ℕ) (s : Stock)
    → IsNonNegative (level_at v l s)
    → pos 0 ≤ℤ target
    → ((level_at v l s).on_hand ≤ℤ target)
      ⊎ (pos 0 ≤ℤ compute_available (record (level_at v l s) { on_hand = target }))
    → (r : Option (List ℕ × LevelRow)) × (t : Stock) × (adjust_on_hand_to v l target rt ri by s
        ≡ ok (r, t))
adjust_on_hand_to-accepts v l target rt ri by s n p c =
    let s₀ = ensure_level_locked v l s in
    let level = level_at v l s in
    let input = adjustment v l target level.on_hand rt ri by in
    elim (Bool-cases (input.change ==ℤ pos 0)) [
      | inl same ↦ (none, s₀, adjust_on_hand_to-eq v l target rt ri by s ∙ rw same)
      | inr differs ↦
          let decides = next_level-admits level input n in
          let passes = rw (count_admitted v l target rt ri by level p c) at decides in
          let checked = ap (λ x. next_level x input) (level_at-ensure v l v l s).0 ∙ passes in
          let after =
            set_bucket_value level on_hand (get_bucket_value level on_hand +ℤ input.change) in
          let (r, moves) = apply_movement-ok input s₀ after checked in
          (
            some r,
            moved input after s₀,
            adjust_on_hand_to-eq v l target rt ri by s ∙ rw (differs, moves, ◌>>=◌),
          )
    ]
