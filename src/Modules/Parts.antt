-- ===== src/Modules/Parts.antt =====
-- Manifests of modules/loader.py, parts of them and positions in an order.
use backend_core.Common.{
  ℕ, suc, ◌+◌, ◌<◌, ◌≡◌, ◌⊎◌, ◌∙◌, refl, sym, ap, subst, Bool, true, false, List, [], ◌∷◌, ◌++◌,
  ◌==◌, any, select, length, All, if◌then◌else◌, arith, inl, inr, Bool-cases,
}
use backend_core.Modules.Loader.{FeatureManifest, member, has}

-- One of the manifests.
abbrev pub In : FeatureManifest → List FeatureManifest → Type 0
In m [] = ⊥
In m (x ∷ xs) = (m ≡ x) ⊎ In m xs

-- The keys of a dictionary are distinct.
abbrev pub HasUniqueNames : List FeatureManifest → Type 0
HasUniqueNames [] = Unit
HasUniqueNames (m ∷ ms) = (has m.name ms ≡ false) × HasUniqueNames ms

-- The position of a name in an order.
abbrev pub index_of : ℕ → List ℕ → ℕ
index_of x [] = 0
index_of x (y ∷ ys) = if y == x then 0 else suc (index_of x ys)

pub index_of-front :
    (x : ℕ) (xs ys : List ℕ) → member x xs ≡ true → index_of x (xs ++ ys) < length xs
index_of-front x [] ys h = cc
index_of-front x (y ∷ xs) ys h = ground (arith, h, index_of-front x xs ys)

pub index_of-back :
    (x : ℕ) (xs ys : List ℕ)
    → member x xs ≡ false
    → index_of x (xs ++ ys) ≡ length xs + index_of x ys
index_of-back x [] ys h = omega arith
index_of-back x (y ∷ xs) ys h = ground (arith, h, index_of-back x xs ys)

pub In-has : (m : FeatureManifest) (ms : List FeatureManifest) → In m ms → has m.name ms ≡ true
In-has m [] i = elim i [ ]
In-has m (x ∷ ms) (inl e) = ground (arith, e)
In-has m (x ∷ ms) (inr i) = ground (arith, In-has m ms i)

module _ (p : FeatureManifest → Bool) where
  pub has-part :
      (x : ℕ) (ms : List FeatureManifest) → has x ms ≡ false → has x (select p ms) ≡ false
  has-part x [] h = refl
  has-part x (m ∷ ms) h = ground (arith, h, has-part x ms)

  pub part-HasUniqueNames :
      (ms : List FeatureManifest) → HasUniqueNames ms → HasUniqueNames (select p ms)
  part-HasUniqueNames [] u = tt
  part-HasUniqueNames (m ∷ ms) u =
      ground (arith, has-part m.name ms u.0, part-HasUniqueNames ms u.1)

  pub part-In :
      (m : FeatureManifest) (ms : List FeatureManifest) → In m ms → p m ≡ true → In m (select p ms)
  part-In m [] i h = elim i [ ]
  part-In m (x ∷ ms) (inl e) h =
      subst (λ b. In m (if b then x ∷ select p ms else select p ms)) (sym (ap p (sym e) ∙ h))
        (inl e)
  part-In m (x ∷ ms) (inr i) h = elim (Bool-cases (p x)) [
    | inl e ↦
        subst (λ b. In m (if b then x ∷ select p ms else select p ms)) (sym e)
          (inr (part-In m ms i h))
    | inr e ↦
        subst (λ b. In m (if b then x ∷ select p ms else select p ms)) (sym e) (part-In m ms i h)
  ]

  pub In-part : (m : FeatureManifest) (ms : List FeatureManifest) → In m (select p ms) → In m ms
  In-part m [] i = elim i [ ]
  In-part m (x ∷ ms) i = elim (Bool-cases (p x)) [
    | inl e ↦ elim (subst (λ b. In m (if b then x ∷ select p ms else select p ms)) e i) [
      | inl same ↦ inl same
      | inr j ↦ inr (In-part m ms j)
    ]
    | inr e ↦
        inr (In-part m ms (subst (λ b. In m (if b then x ∷ select p ms else select p ms)) e i))
  ]

  -- A manifest outside a part has no namesake in it.
  pub outside-has :
      (m : FeatureManifest) (ms : List FeatureManifest)
      → HasUniqueNames ms
      → In m ms
      → p m ≡ false
      → has m.name (select p ms) ≡ false
  outside-has m [] u i h = elim i [ ]
  outside-has m (x ∷ ms) u (inl e) h =
      ground (arith, ap p e, ap (λ y. y.name) e, h, has-part x.name ms u.0)
  outside-has m (x ∷ ms) u (inr i) h = ground (arith, outside-has m ms u.1 i h, In-has m ms i, u.0)

pub All-In :
    (P : FeatureManifest → Type 0) (ms : List FeatureManifest)
    → ((m : FeatureManifest) → In m ms → P m)
    → All P ms
All-In P [] f = tt
All-In P (m ∷ ms) f = (f m (inl refl), All-In P ms (λ x i. f x (inr i)))

pub none-holds :
    (p : ℕ → Bool) (xs : List ℕ) → ((x : ℕ) → member x xs ≡ true → p x ≡ false) → any p xs ≡ false
none-holds p [] f = refl
none-holds p (x ∷ xs) f =
    let here : p x ≡ false = f x (ground arith) in
    let rest = none-holds p xs (λ y h. f y (ground (arith, h))) in ground (arith, here, rest)

pub none-ready :
    (p : FeatureManifest → Bool) (ms : List FeatureManifest)
    → length (select p ms) ≡ 0
    → All (λ m. p m ≡ false) ms
none-ready p [] h = tt
none-ready p (m ∷ ms) h = elim (Bool-cases (p m)) [
  | inl e ↦ absurd (ground (arith, e, h))
  | inr e ↦ (e, none-ready p ms (ground (arith, e, h)))
]

pub ready-absent :
    (d : ℕ) (remaining : List FeatureManifest) (requires : List ℕ)
    → any (λ x. has x remaining) requires ≡ false
    → member d requires ≡ true
    → has d remaining ≡ false
ready-absent d remaining [] h e = cc
ready-absent d remaining (x ∷ xs) h e = ground (arith, h, e, ready-absent d remaining xs)
