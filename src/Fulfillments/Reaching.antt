-- ===== src/Fulfillments/Reaching.antt =====
-- What `shipmentPathTo` (src/modules/fulfillments/carriers/carrier-adapter.ts) finds.
use multi_warehouse_manageme.Prelude.{
  ◌≡◌, refl, ap, Bool, true, false, not, ◌&&◌, ◌||◌, ◌⊎◌, inl, inr, Option, none, some, List, [],
  ◌∷◌, arith,
}
use multi_warehouse_manageme.Orders.Types.{ShipmentStatus}
use multi_warehouse_manageme.Fulfillments.Shipping.{same_status, may_become}
use multi_warehouse_manageme.Fulfillments.Paths.{shipment_path_to}

-- `applyShipmentStatus` takes the shipment from `from` along the path, and it ends at `to`.
unfoldable pub walks : ShipmentStatus → List ShipmentStatus → ShipmentStatus → Bool
unfolding may_become
walks from [] to = same_status from to
walks from (s ∷ rest) to = may_become (some from) s && walks s rest to

-- The shipment is closed.
abbrev pub is_final : ShipmentStatus → Bool
is_final ShipmentStatus.delivered = true
is_final ShipmentStatus.returned = true
is_final ShipmentStatus.cancelled = true
is_final _ = false

abbrev found_in : ShipmentStatus → ShipmentStatus → Option (Option (List ShipmentStatus)) → Bool
found_in from to (some (some path)) = walks from path to
found_in from to _ = false

abbrev failed_in : Option (Option (List ShipmentStatus)) → Bool
failed_in (some none) = true
failed_in _ = false

finds : ShipmentStatus → ShipmentStatus → Bool
unfolding walks shipment_path_to
finds from to = found_in from to (shipment_path_to from to)

fails : ShipmentStatus → ShipmentStatus → Bool
unfolding shipment_path_to
fails from to = failed_in (shipment_path_to from to)

-- A test that holds of each status by evaluation.
holds : (ShipmentStatus → Bool) → Bool
holds p =
    p ShipmentStatus.pending
    && (p ShipmentStatus.picked_up
        && (p ShipmentStatus.delivering
            && (p ShipmentStatus.delivered
                && (p ShipmentStatus.retry_delivery
                    && (p ShipmentStatus.returning
                        && (p ShipmentStatus.returned && p ShipmentStatus.cancelled))))))

holds_at : (p : ShipmentStatus → Bool) (s : ShipmentStatus) → holds p ≡ true → p s ≡ true
unfolding holds
holds_at p ShipmentStatus.pending h = ground arith
holds_at p s h = ground arith

total_table : holds (λ f. holds (λ t. is_final f || (finds f t || fails f t))) ≡ true
unfolding holds finds fails
total_table = refl

here_table : holds (λ f. holds (λ t. not (fails f t && same_status f t))) ≡ true
unfolding holds fails
here_table = refl

next_table :
    holds (λ f. holds (λ x. holds (λ t. not (fails f t && may_become (some f) x) || fails x t)))
    ≡ true
unfolding holds fails may_become
next_table = refl

finds_or_fails :
    (from to : ShipmentStatus) → is_final from || (finds from to || fails from to) ≡ true
finds_or_fails from to =
    holds_at (λ t. is_final from || (finds from t || fails from t)) to
      (holds_at (λ f. holds (λ t. is_final f || (finds f t || fails f t))) from total_table)

fails_here : (from to : ShipmentStatus) → not (fails from to && same_status from to) ≡ true
fails_here from to =
    holds_at (λ t. not (fails from t && same_status from t)) to
      (holds_at (λ f. holds (λ t. not (fails f t && same_status f t))) from here_table)

fails_next :
    (from s to : ShipmentStatus)
    → not (fails from to && may_become (some from) s) || fails s to ≡ true
fails_next from s to =
    holds_at (λ t. not (fails from t && may_become (some from) s) || fails s t) to
      (holds_at (λ x. holds (λ t. not (fails from t && may_become (some from) x) || fails x t)) s
        (holds_at
          (λ f. holds (λ x. holds (λ t. not (fails f t && may_become (some f) x) || fails x t)))
          from next_table))

no_walk :
    (from to : ShipmentStatus) (path : List ShipmentStatus)
    → fails from to ≡ true
    → walks from path to ≡ false
unfolding walks
no_walk from to [] h = ground (arith, fails_here from to)
no_walk from to (s ∷ rest) h = ground (arith, fails_next from s to, no_walk s to rest)

abbrev pub Answers : ShipmentStatus → ShipmentStatus → Type 0
Answers from to =
    ((path : List ShipmentStatus) × (shipment_path_to from to ≡ some (some path))
      × (walks from path to ≡ true))
    ⊎ ((shipment_path_to from to ≡ some none)
        × ((path : List ShipmentStatus) → walks from path to ≡ false))

answer_of :
    (from to : ShipmentStatus) (r : Option (Option (List ShipmentStatus)))
    → shipment_path_to from to ≡ r
    → found_in from to r || failed_in r ≡ true
    → Answers from to
unfolding fails
answer_of from to none e h = absurd (cc h)
answer_of from to (some none) e h = inr (e, λ path. no_walk from to path (ap failed_in e))
answer_of from to (some (some path)) e h = inl (path, e, ground arith)

either : (a b c : Bool) → a || (b || c) ≡ true → a ≡ false → b || c ≡ true
either true b c h k = cc
either false b c h k = h

-- The search comes to an end, whatever the statuses: from a shipment that is not closed it finds
-- statuses through which `applyShipmentStatus` takes it to the one that the carrier reports, or
-- finds none, and then there are none.
pub path_to-Answers : (from to : ShipmentStatus) → is_final from ≡ false → Answers from to
unfolding finds fails
path_to-Answers from to opened =
    answer_of from to (shipment_path_to from to) refl
      (either (is_final from) (finds from to) (fails from to) (finds_or_fails from to) opened)
