-- ===== src/Auth.antt =====
-- src/common/auth/access.ts: who may do what at which location. Location ids are compared as
-- strings there, and as numbers here.
use multi_warehouse_manageme.Prelude.{
  ℕ, Bool, true, false, ◌||◌, ◌==◌, if◌then◌else◌, Option, none, some, List, [], ◌∷◌, String,
}
use text.Mathlib.Text.{◌==◌ as str_eq}
use multi_warehouse_manageme.Prelude.Tx.{Tx, throw_if, forbidden_scope}
use mathlib.Core.Bool.{not}

-- `AuthUser`, with the fields that decide permissions. `warehousePermissions` is a list of entries.
pub record AuthUser : Type 0 where
  pub user_id : ℕ
  pub is_admin : Bool
  pub location_ids : List ℕ
  pub admin_warehouse_ids : List ℕ
  pub system_permissions : List String
  pub warehouse_permissions : List (ℕ × List String)

-- `xs.includes(x)`
unfoldable pub includes : List String → String → Bool
includes [] x = false
includes (y ∷ ys) x = str_eq y x || includes ys x

-- `byWh[locationId] ?? []`
unfoldable pub permissions_at : List (ℕ × List String) → ℕ → List String
permissions_at [] l = []
permissions_at ((k, perms) ∷ rest) l = if k == l then perms else permissions_at rest l

unfoldable pub some_includes : List (ℕ × List String) → String → Bool
some_includes [] x = false
some_includes ((k, perms) ∷ rest) x = includes perms x || some_includes rest x

unfoldable pub has_system_permission : AuthUser → String → Bool
unfolding includes
has_system_permission user permission =
    if user.is_admin then true else includes user.system_permissions permission

unfoldable pub has_location_permission : AuthUser → String → Option ℕ → Bool
unfolding includes permissions_at some_includes
has_location_permission user permission (some l) =
    if user.is_admin
    then true
    else includes (permissions_at user.warehouse_permissions l) permission
has_location_permission user permission none =
    if user.is_admin then true else some_includes user.warehouse_permissions permission

unfoldable pub has_permission : AuthUser → String → Option ℕ → Bool
unfolding has_system_permission has_location_permission
has_permission user permission location =
    has_system_permission user permission || has_location_permission user permission location

-- `wanted.some((w) => perms.includes(w))`
unfoldable pub includes_one : List String → List String → Bool
unfolding includes
includes_one [] perms = false
includes_one (w ∷ ws) perms = includes perms w || includes_one ws perms

unfoldable pub entries_with : List (ℕ × List String) → List String → List ℕ
unfolding includes_one
entries_with [] wanted = []
entries_with ((k, perms) ∷ rest) wanted =
    if includes_one wanted perms then k ∷ entries_with rest wanted else entries_with rest wanted

-- `locationsWithPermission`; `none` is its `undefined`, no restriction.
unfoldable pub locations_with_permission : AuthUser → List String → Option (List ℕ)
unfolding entries_with
locations_with_permission user wanted =
    if user.is_admin then none else some (entries_with user.warehouse_permissions wanted)

unfoldable pub has_one_permission : AuthUser → List String → ℕ → Bool
unfolding has_location_permission
has_one_permission user [] l = false
has_one_permission user (w ∷ ws) l =
    has_location_permission user w (some l) || has_one_permission user ws l

-- `assertLocationPermission`
unfoldable pub assert_location_permission {ℓ} :
    {S : Type ℓ} → AuthUser → List String → ℕ → Tx S (Unit {0})
unfolding has_one_permission
assert_location_permission user wanted l =
    throw_if (not (has_one_permission user wanted l)) forbidden_scope
