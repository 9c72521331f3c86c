-- ===== src/Modules/Loader.antt =====
-- modules/loader.py, from the manifests that were read. Names are numbers in alphabetical order, and
-- `core_modules` those of `CORE_MODULES`.
use backend_core.Common.{
  ℕ, zero, suc, Bool, not, Option, none, some, List, [], ◌∷◌, ◌++◌, ◌==◌, leb, any, select, length,
  if◌then◌else◌,
}
use backend_core.Shared.Errors.{Error, Result, ok, err}

pub record FeatureManifest : Type 0 where
  pub name : ℕ
  pub requires_features : List ℕ
  pub requires_core : List ℕ

abbrev pub member : ℕ → List ℕ → Bool
member x names = any (λ y. y == x) names

-- `name in manifests`
abbrev pub has : ℕ → List FeatureManifest → Bool
has x manifests = any (λ m. m.name == x) manifests

-- The requirements of one manifest that are not met.
unfoldable pub missing : List FeatureManifest → List ℕ → FeatureManifest → List ℕ
missing manifests core_modules m =
    select (λ d. not (has d manifests)) m.requires_features
    ++ select (λ d. not (member d core_modules)) m.requires_core

unfoldable pub problems : List FeatureManifest → List ℕ → List FeatureManifest → List ℕ
unfolding missing
problems manifests core_modules [] = []
problems manifests core_modules (m ∷ ms) =
    missing manifests core_modules m ++ problems manifests core_modules ms

-- `validate_dependencies`; a `FeatureError` is a `RuntimeError`, outside the domain's errors.
unfoldable pub validate_dependencies : List FeatureManifest → List ℕ → Result (Unit {0})
unfolding problems
validate_dependencies manifests core_modules = elim (problems manifests core_modules manifests) [
  | [] ↦ ok tt
  | _ ∷ _ ↦ err Error.value_error
]

-- Nothing that the manifest requires remains to be installed.
unfoldable pub is_ready : List FeatureManifest → FeatureManifest → Bool
is_ready remaining m = not (any (λ d. has d remaining) m.requires_features)

-- `sorted`
unfoldable pub insert_name : ℕ → List ℕ → List ℕ
insert_name x [] = x ∷ []
insert_name x (y ∷ ys) = if leb x y then x ∷ y ∷ ys else y ∷ insert_name x ys

unfoldable pub sort_names : List FeatureManifest → List ℕ
unfolding insert_name
sort_names [] = []
sort_names (m ∷ ms) = insert_name m.name (sort_names ms)

-- A round that finds nothing ready reports a cycle; else its names stand before those of the rest.
unfoldable pub close_round : List ℕ → Option (Result (List ℕ)) → Option (Result (List ℕ))
close_round [] rest = some (err Error.value_error)
close_round (x ∷ xs) none = none
close_round (x ∷ xs) (some (err e)) = some (err e)
close_round (x ∷ xs) (some (ok names)) = some (ok ((x ∷ xs) ++ names))

-- What a round leaves, names being unique.
abbrev pub left_over : List FeatureManifest → List FeatureManifest
left_over remaining = select (λ m. not (is_ready remaining m)) remaining

-- `ready` of a round
abbrev pub ready_names : List FeatureManifest → List ℕ
ready_names remaining = sort_names (select (is_ready remaining) remaining)

-- The loop of `installation_order`, on fuel; `none` is out of fuel.
unfoldable pub order_from : ℕ → List FeatureManifest → Option (Result (List ℕ))
unfolding close_round is_ready sort_names
order_from fuel [] = some (ok [])
order_from zero (m ∷ ms) = none
order_from (suc fuel) (m ∷ ms) =
    close_round (ready_names (m ∷ ms)) (order_from fuel (left_over (m ∷ ms)))

unfoldable pub installation_order : List FeatureManifest → Option (Result (List ℕ))
unfolding order_from
installation_order manifests = order_from (length manifests) manifests
