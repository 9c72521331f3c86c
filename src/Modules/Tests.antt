-- ===== src/Modules/Tests.antt =====
-- Orders of a few features.
use backend_core.Common.{ℕ, ◌<◌, ◌≡◌, ◌⊎◌, refl, true, some, List, [], ◌∷◌, length, any, All}
use backend_core.Shared.Errors.{Error, ok, err}
use backend_core.Modules.Loader.{
  FeatureManifest, member, has, is_ready, close_round, order_from, installation_order, sort_names,
  insert_name, validate_dependencies, problems, missing,
}
use backend_core.Modules.Parts.{In}
use backend_core.Modules.Sorted.{InOrder, installation_order-InOrder}

-- Orders (3) and cart (1) require products (2), orders the cart too.
abbrev commerce : List FeatureManifest
commerce =
    record { name = 3; requires_features = 1 ∷ 2 ∷ []; requires_core = 7 ∷ [] }
    ∷ record { name = 2; requires_features = []; requires_core = [] }
    ∷ record { name = 1; requires_features = 2 ∷ []; requires_core = [] }
    ∷ []

commerce_order : installation_order commerce ≡ some (ok (2 ∷ 1 ∷ 3 ∷ []))
unfolding installation_order order_from close_round is_ready sort_names insert_name
commerce_order = refl

commerce_valid : validate_dependencies commerce (7 ∷ []) ≡ ok tt
unfolding validate_dependencies problems missing
commerce_valid = refl

installation_order-InOrder_example :
    ((order : List ℕ) × (installation_order commerce ≡ some (ok order))
      × ((x : ℕ) → member x order ≡ has x commerce)
      × InOrder commerce order)
    ⊎ ((stuck : List FeatureManifest) × (e : Error) × (installation_order commerce ≡ some (err e))
        × (0 < length stuck)
        × All (λ m. In m commerce) stuck
        × All (λ m. any (λ d. has d stuck) m.requires_features ≡ true) stuck)
installation_order-InOrder_example = installation_order-InOrder commerce (refl, (refl, (refl, tt)))
