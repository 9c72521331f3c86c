-- ===== src/Modules/Sorted.antt =====
-- What `installation_order` of modules/loader.py gives: a topological order, or a cycle.
use backend_core.Common.{
  ℕ, zero, suc, ◌<◌, ◌≡◌, ◌⊎◌, ◌∙◌, refl, sym, ap, subst, true, false, not, ◌&&◌, Option, none,
  some, List, [], ◌∷◌, ◌++◌, ◌==◌, any, any-append, select, length, All, ltb, arith, inl, inr,
  Bool-cases, Option-cases,
}
use backend_core.Common.Rows.{All-map}
use backend_core.Shared.Errors.{Error, Result, ok, err, Result-cases}
use backend_core.Modules.Loader.{
  FeatureManifest, member, has, is_ready, order_from, installation_order, close_round, ready_names,
  left_over,
}
use backend_core.Modules.Order.{round-has, member-sort_names, length-sort_names, enough_fuel}
use backend_core.Modules.Parts.{
  In, HasUniqueNames, index_of, index_of-front, index_of-back, part-HasUniqueNames, part-In,
  In-part, outside-has, All-In, none-holds, none-ready, ready-absent,
}

close_round-ok :
    (names : List ℕ) (rest : Option (Result (List ℕ))) (order : List ℕ)
    → close_round names rest ≡ some (ok order)
    → (tail : List ℕ) × (rest ≡ some (ok tail)) × (order ≡ names ++ tail)
unfolding close_round
close_round-ok [] rest order h = absurd (ground (arith, h))
close_round-ok (x ∷ xs) none order h = absurd (ground (arith, h))
close_round-ok (x ∷ xs) (some (err e)) order h = absurd (ground (arith, h))
close_round-ok (x ∷ xs) (some (ok tail)) order h = (tail, refl, ground (arith, h))

close_round-err :
    (names : List ℕ) (rest : Option (Result (List ℕ))) (e : Error)
    → close_round names rest ≡ some (err e)
    → (names ≡ []) ⊎ (rest ≡ some (err e))
unfolding close_round
close_round-err [] rest e h = inl refl
close_round-err (x ∷ xs) none e h = absurd (ground (arith, h))
close_round-err (x ∷ xs) (some (err e')) e h = inr (ground (arith, h))
close_round-err (x ∷ xs) (some (ok tail)) e h = absurd (ground (arith, h))

-- What an order promises of the manifests that it was made from.
record IsTopological (ms : List FeatureManifest) (order : List ℕ) : Type 0 where
  pub complete : (x : ℕ) → member x order ≡ has x ms
  pub sorted :
      (m : FeatureManifest) (d : ℕ)
      → In m ms
      → member d m.requires_features ≡ true
      → has d ms ≡ true
      → index_of d order < index_of m.name order

round-IsTopological :
    (ms : List FeatureManifest) (tail : List ℕ)
    → HasUniqueNames ms
    → IsTopological (left_over ms) tail
    → IsTopological ms (ready_names ms ++ tail)
unfolding is_ready
round-IsTopological ms tail u t = record {
  complete = λ x.
      ground (arith, round-has x ms, t.complete x, any-append (λ y. y == x) (ready_names ms) tail);
  sorted = λ m d i r h. elim (Bool-cases (is_ready ms m)) [
    | inl e ↦
        absurd (ground (arith, h, ready-absent d ms m.requires_features (ground (arith, e)) r))
    | inr e ↦
        let later : member m.name (ready_names ms) ≡ false =
          member-sort_names m.name (select (is_ready ms) ms)
          ∙ outside-has (is_ready ms) m ms u i e in
        let place = index_of-back m.name (ready_names ms) tail later in
        let left = part-In (λ y. not (is_ready ms y)) m ms i (ground (arith, e)) in
        elim (Bool-cases (member d (ready_names ms))) [
          | inl f ↦ omega (arith, place, index_of-front d (ready_names ms) tail f)
          | inr f ↦
              let after = t.sorted m d left r (ground (arith, f, h, round-has d ms)) in
              omega (arith, place, after, index_of-back d (ready_names ms) tail f)
        ]
  ];
}

order_from-IsTopological :
    (fuel : ℕ) (ms : List FeatureManifest) (order : List ℕ)
    → HasUniqueNames ms
    → order_from fuel ms ≡ some (ok order)
    → IsTopological ms order
unfolding order_from
order_from-IsTopological zero [] order u h = record {
  complete = λ x. ground (arith, h);
  sorted = λ m d i r e. elim i [ ];
}
order_from-IsTopological (suc fuel) [] order u h = record {
  complete = λ x. ground (arith, h);
  sorted = λ m d i r e. elim i [ ];
}
order_from-IsTopological zero (m ∷ ms) order u h = absurd (ground (arith, h))
order_from-IsTopological (suc fuel) (m ∷ ms) order u h =
    let all = m ∷ ms in
    let (tail, rest, same) =
      close_round-ok (ready_names all) (order_from fuel (left_over all)) order h in
    let part =
      order_from-IsTopological fuel (left_over all) tail
        (part-HasUniqueNames (λ x. not (is_ready all x)) all u) rest in
    subst (IsTopological all) (sym same) (round-IsTopological all tail u part)

-- A part of the manifests in which each waits for another.
record IsCycle (ms stuck : List FeatureManifest) : Type 0 where
  pub waits : length (select (is_ready stuck) stuck) ≡ 0
  pub nonempty : 0 < length stuck
  pub part : All (λ m. In m ms) stuck

order_from-IsCycle :
    (fuel : ℕ) (ms : List FeatureManifest) (e : Error)
    → order_from fuel ms ≡ some (err e)
    → (stuck : List FeatureManifest) × IsCycle ms stuck
unfolding order_from
order_from-IsCycle zero [] e h = absurd (ground (arith, h))
order_from-IsCycle (suc fuel) [] e h = absurd (ground (arith, h))
order_from-IsCycle zero (m ∷ ms) e h = absurd (ground (arith, h))
order_from-IsCycle (suc fuel) (m ∷ ms) e h =
    let all = m ∷ ms in
    elim (close_round-err (ready_names all) (order_from fuel (left_over all)) e h) [
      | inl none_ready ↦ (
        all,
        record {
          waits = sym (length-sort_names (select (is_ready all) all)) ∙ ap length none_ready;
          nonempty = omega arith;
          part = All-In (λ m. In m all) all (λ m i. i);
        },
      )
      | inr rest ↦
          let (stuck, cycle) = order_from-IsCycle fuel (left_over all) e rest in
          (
            stuck,
            record {
              waits = cycle.waits;
              nonempty = cycle.nonempty;
              part =
                  All-map (λ x. In x (left_over all)) (λ x. In x all) stuck
                    (λ x i. In-part (λ y. not (is_ready all y)) x all i) cycle.part;
            },
          )
    ]

-- Every feature stands in the order after each feature that it requires and that is there.
abbrev pub InOrder : List FeatureManifest → List ℕ → Type 0
InOrder ms order =
    All
      (λ m.
        any (λ d. has d ms && not (ltb (index_of d order) (index_of m.name order)))
          m.requires_features
        ≡ false)
      ms

-- The installation order is always found or refused: either it has exactly the features of the
-- manifests, each after those it requires, or some of the manifests form a cycle, in which each
-- requires another of them. Names are distinct, as the keys of a dictionary are.
pub installation_order-InOrder :
    (ms : List FeatureManifest)
    → HasUniqueNames ms
    → ((order : List ℕ) × (installation_order ms ≡ some (ok order))
        × ((x : ℕ) → member x order ≡ has x ms)
        × InOrder ms order)
      ⊎ ((stuck : List FeatureManifest) × (e : Error) × (installation_order ms ≡ some (err e))
          × (0 < length stuck)
          × All (λ m. In m ms) stuck
          × All (λ m. any (λ d. has d stuck) m.requires_features ≡ true) stuck)
unfolding installation_order is_ready
installation_order-InOrder ms u = elim (Option-cases (order_from (length ms) ms)) [
  | inl n ↦ absurd (ground (arith, n, enough_fuel (length ms) ms (omega arith)))
  | inr (r, f) ↦ elim (Result-cases r) [
    | inl (order, e) ↦
        let found : order_from (length ms) ms ≡ some (ok order) = f ∙ ap some e in
        let t = order_from-IsTopological (length ms) ms order u found in
        inl (
          order,
          found,
          t.complete,
          All-In _ ms (λ m i. none-holds _ m.requires_features (λ d r.
              elim (Bool-cases (has d ms)) [
                | inr h ↦ ground (arith, h)
                | inl h ↦ ground (arith, h, t.sorted m d i r h)
              ])),
        )
    | inr (e, g) ↦
        let found : order_from (length ms) ms ≡ some (err e) = f ∙ ap some g in
        let (stuck, cycle) = order_from-IsCycle (length ms) ms e found in
        inr (
          stuck,
          e,
          found,
          cycle.nonempty,
          cycle.part,
          All-map _ _ stuck (λ m h. ground (arith, h))
              (none-ready (is_ready stuck) stuck cycle.waits),
        )
  ]
]
