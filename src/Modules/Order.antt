-- ===== src/Modules/Order.antt =====
-- `installation_order` of modules/loader.py: it ends, and what it gives is a topological order.
use backend_core.Common.{
  ℕ, zero, suc, ◌+◌, ◌≤◌, ◌<◌, ◌≡◌, refl, Bool, true, not, ◌||◌, Option, none, some, List, [], ◌∷◌,
  ◌==◌, select, length, is_some, arith,
}
use backend_core.Shared.Errors.{Result, ok, err}
use backend_core.Modules.Loader.{
  FeatureManifest, member, has, is_ready, insert_name, sort_names, order_from, close_round,
  ready_names, left_over,
}

length-insert_name : (x : ℕ) (xs : List ℕ) → length (insert_name x xs) ≡ suc (length xs)
unfolding insert_name
length-insert_name x [] = refl
length-insert_name x (y ∷ ys) = ground (arith, length-insert_name x ys)

pub length-sort_names : (ms : List FeatureManifest) → length (sort_names ms) ≡ length ms
unfolding sort_names
length-sort_names [] = refl
length-sort_names (m ∷ ms) =
    ground (arith, length-insert_name m.name (sort_names ms), length-sort_names ms)

pub length-select :
    (p : FeatureManifest → Bool) (ms : List FeatureManifest)
    → length (select p ms) + length (select (λ m. not (p m)) ms) ≡ length ms
length-select p [] = refl
length-select p (m ∷ ms) = ground (arith, length-select p ms)

close_round-some :
    (names : List ℕ) (rest : Option (Result (List ℕ)))
    → (0 < length names → is_some rest ≡ true)
    → is_some (close_round names rest) ≡ true
unfolding close_round
close_round-some [] rest h = refl
close_round-some (x ∷ xs) none h = absurd (ground (arith, h (omega arith)))
close_round-some (x ∷ xs) (some (err e)) h = refl
close_round-some (x ∷ xs) (some (ok names)) h = refl

-- Each round installs something, so as many rounds as there are features are enough.
pub enough_fuel :
    (fuel : ℕ) (ms : List FeatureManifest) → length ms ≤ fuel → is_some (order_from fuel ms) ≡ true
unfolding order_from
enough_fuel zero [] h = refl
enough_fuel (suc fuel) [] h = refl
enough_fuel zero (m ∷ ms) h = absurd (omega (arith, h))
enough_fuel (suc fuel) (m ∷ ms) h =
    let remaining = m ∷ ms in
    let count = length-sort_names (select (is_ready remaining) remaining) in
    let total = length-select (is_ready remaining) remaining in
    close_round-some (ready_names remaining) (order_from fuel (left_over remaining)) (λ some_ready.
      enough_fuel fuel (left_over remaining) (omega (arith, some_ready, count, total, h)))

-- Membership in the sorted names of a part of the manifests.
member-insert_name : (x y : ℕ) (ys : List ℕ) → member x (insert_name y ys) ≡ (y == x || member x ys)
unfolding insert_name
member-insert_name x y [] = ground arith
member-insert_name x y (z ∷ ys) = ground (arith, member-insert_name x y ys)

pub member-sort_names : (x : ℕ) (ms : List FeatureManifest) → member x (sort_names ms) ≡ has x ms
unfolding sort_names
member-sort_names x [] = refl
member-sort_names x (m ∷ ms) =
    ground (arith, member-insert_name x m.name (sort_names ms), member-sort_names x ms)

has-select :
    (p : FeatureManifest → Bool) (x : ℕ) (ms : List FeatureManifest)
    → has x ms ≡ (has x (select p ms) || has x (select (λ m. not (p m)) ms))
has-select p x [] = refl
has-select p x (m ∷ ms) = ground (arith, has-select p x ms)

-- What is installed or remains, from round to round.
pub round-has :
    (x : ℕ) (remaining : List FeatureManifest)
    → has x remaining ≡ (member x (ready_names remaining) || has x (left_over remaining))
round-has x remaining = ground (
  arith,
  has-select (is_ready remaining) x remaining,
  member-sort_names x (select (is_ready remaining) remaining),
)
