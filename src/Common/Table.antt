-- ===== src/Common/Table.antt =====
-- A database table with a primary key and unique indexes (the models' `__table_args__`): rows are
-- inserted and updated one at a time, and the indexes are checked at each flush.
use mathlib.Core.Path.{◌≡◌, refl}
use mathlib.Core.Bool.{Bool, true, false, not, ◌&&◌, ◌||◌}
use mathlib.Core.Logic.{◌≢◌, inl, inr}
use mathlib.Core.List.{List, [], ◌∷◌, ◌++◌, map}
use mathlib.Core.Option.{Option, some}
use Prim.Native.Nat.{ℕ}
use native.Mathlib.Omega.{arith}
use backend_core.Common.Tests.{◌==◌, if◌then◌else◌, Bool-cases}
use backend_core.Common.Lists.{any, find, select, any-append, find-holds}

-- `id` is the primary key; `clash` says that two rows cannot both stand under a unique index.
pub record Schema (A : Type 0) : Type 0 where
  pub id : A → ℕ
  pub clash : A → A → Bool
  pub clash_sym : (a b : A) → clash a b ≡ clash b a

module _ {A : Type 0} (k : Schema A) where
  -- `session.get(Model, id)`
  abbrev pub get_row : ℕ → List A → Option A
  get_row i rows = find (λ a. k.id a == i) rows

  -- Some row under another key occupies an index entry that `a` needs.
  abbrev pub conflicts : A → List A → Bool
  conflicts a rows = any (λ b. not (k.id b == k.id a) && k.clash a b) rows

  -- The key or an index entry of `a` is taken.
  abbrev pub taken : A → List A → Bool
  taken a rows = any (λ b. (k.id b == k.id a) || k.clash a b) rows

  -- UPDATE of the row with the key of `a`.
  abbrev pub replace : A → List A → List A
  replace a [] = []
  replace a (b ∷ rows) = if k.id b == k.id a then a ∷ rows else b ∷ replace a rows

  -- Keys are distinct and no two rows share an index entry.
  abbrev pub IsUnique : List A → Type 0
  IsUnique [] = Unit
  IsUnique (a ∷ rows) = (taken a rows ≡ false) × IsUnique rows

  pub get_row-replace_ne :
      (a : A) (rows : List A) (i : ℕ) → i ≢ k.id a → get_row i (replace a rows) ≡ get_row i rows
  get_row-replace_ne a [] i h = refl
  get_row-replace_ne a (b ∷ rows) i h = ground (arith, get_row-replace_ne a rows i h)

  pub get_row-replace_self :
      (a : A) (rows : List A) (b : A)
      → get_row (k.id a) rows ≡ some b
      → get_row (k.id a) (replace a rows) ≡ some a
  get_row-replace_self a [] b h = cc
  get_row-replace_self a (d ∷ rows) b h = ground (arith, get_row-replace_self a rows b)

  pub get_row-id : (i : ℕ) (rows : List A) (a : A) → get_row i rows ≡ some a → k.id a ≡ i
  get_row-id i rows a h = ground (arith, find-holds (λ b. k.id b == i) rows a h)

  taken-replace :
      (a b : A) (rows : List A)
      → taken b rows ≡ false
      → (k.id a == k.id b) ≡ false
      → k.clash b a ≡ false
      → taken b (replace a rows) ≡ false
  taken-replace a b [] h i c = refl
  taken-replace a b (d ∷ rows) h i c = ground (arith, taken-replace a b rows)

  taken-same :
      (a b : A) (rows : List A)
      → k.id a ≡ k.id b
      → taken b rows ≡ false
      → conflicts a rows ≡ false
      → taken a rows ≡ false
  taken-same a b [] e h c = refl
  taken-same a b (d ∷ rows) e h c = ground (arith, taken-same a b rows e)

  pub replace-IsUnique :
      (a : A) (rows : List A) → IsUnique rows → conflicts a rows ≡ false → IsUnique (replace a rows)
  replace-IsUnique a [] u c = tt
  replace-IsUnique a (b ∷ rows) u c = ground (
    arith,
    taken-same a b rows,
    taken-replace a b rows,
    replace-IsUnique a rows u.1,
    k.clash_sym a b,
  )

  taken-append :
      (a b : A) (rows : List A)
      → taken b rows ≡ false
      → ((k.id b == k.id a) || k.clash a b) ≡ false
      → taken b (rows ++ a ∷ []) ≡ false
  taken-append a b rows h c =
      ground
        (arith, any-append (λ d. (k.id d == k.id b) || k.clash b d) rows (a ∷ []), k.clash_sym a b)

  pub append-IsUnique :
      (a : A) (rows : List A) → IsUnique rows → taken a rows ≡ false → IsUnique (rows ++ a ∷ [])
  append-IsUnique a [] u c = (refl, tt)
  append-IsUnique a (b ∷ rows) u c =
      ground (arith, taken-append a b rows u.0, append-IsUnique a rows u.1)

  -- An update of every row that keeps the keys and needs no new index entry.
  module _ (f : A → A) (keeps_id : (a : A) → k.id (f a) ≡ k.id a)
      (frees : (a b : A) → k.clash a b ≡ false → k.clash a (f b) ≡ false) where
    taken-map : (b : A) (rows : List A) → taken b rows ≡ false → taken b (map f rows) ≡ false
    taken-map b [] h = refl
    taken-map b (d ∷ rows) h = ground (arith, keeps_id d, frees b d, taken-map b rows)

    taken-update : (b : A) (rows : List A) → taken b rows ≡ false → taken (f b) rows ≡ false
    taken-update b [] h = refl
    taken-update b (d ∷ rows) h =
        ground
          (arith, keeps_id b, frees d b, k.clash_sym b d, k.clash_sym (f b) d, taken-update b rows)

    pub map-IsUnique : (rows : List A) → IsUnique rows → IsUnique (map f rows)
    map-IsUnique [] u = tt
    map-IsUnique (b ∷ rows) u =
        (taken-update b (map f rows) (taken-map b rows u.0), map-IsUnique rows u.1)

  pub conflicts-map :
      (f : A → A) (a : A)
      → ((b : A) → k.id (f b) ≡ k.id b)
      → ((b : A) → (not (k.id b == k.id a) && k.clash a (f b)) ≡ false)
      → (rows : List A) → conflicts a (map f rows) ≡ false
  conflicts-map f a i h [] = refl
  conflicts-map f a i h (b ∷ rows) = ground (arith, i b, h b, conflicts-map f a i h rows)

  taken-find :
      (p : A → Bool) (b : A) (rows : List A) (a : A)
      → taken b rows ≡ false
      → find p rows ≡ some a
      → (k.id a == k.id b) ≡ false
  taken-find p b [] a h e = cc
  taken-find p b (d ∷ rows) a h e = ground (arith, taken-find p b rows a)

  -- Keys are unique, so a row that a query finds is the one that its key finds.
  pub get_row-find :
      (p : A → Bool) (rows : List A) (a : A)
      → IsUnique rows
      → find p rows ≡ some a
      → get_row (k.id a) rows ≡ some a
  get_row-find p [] a u e = cc
  get_row-find p (b ∷ rows) a u e =
      ground (arith, taken-find p b rows a u.0, get_row-find p rows a u.1)

  pub get_row-map :
      (f : A → A) (i : ℕ) (rows : List A) (a : A)
      → ((b : A) → k.id (f b) ≡ k.id b)
      → get_row i rows ≡ some a
      → get_row i (map f rows) ≡ some (f a)
  get_row-map f i [] a h e = cc
  get_row-map f i (b ∷ rows) a h e = ground (arith, h b, get_row-map f i rows a h)

  taken-conflicts : (a : A) (rows : List A) → taken a rows ≡ false → conflicts a rows ≡ false
  taken-conflicts a [] h = refl
  taken-conflicts a (b ∷ rows) h = ground (arith, taken-conflicts a rows)

  taken-clash :
      (b : A) (i : ℕ) (rows : List A) (a : A)
      → taken b rows ≡ false
      → get_row i rows ≡ some a
      → k.clash b a ≡ false
  taken-clash b i [] a h e = cc
  taken-clash b i (d ∷ rows) a h e = ground (arith, taken-clash b i rows a)

  -- A stored row may be written back: the indexes already hold it.
  pub get_row-conflicts :
      (a : A) (rows : List A)
      → IsUnique rows
      → get_row (k.id a) rows ≡ some a
      → conflicts a rows ≡ false
  get_row-conflicts a [] u e = refl
  get_row-conflicts a (b ∷ rows) u e = ground (
    arith,
    taken-clash b (k.id a) rows a u.0,
    k.clash_sym a b,
    get_row-conflicts a rows u.1,
    taken-conflicts b rows,
  )

  -- A row whose key was free stands last, and is the one that an update finds.
  pub replace-append :
      (a b : A) (rows : List A)
      → any (λ d. k.id d == k.id a) rows ≡ false
      → k.id b ≡ k.id a
      → replace b (rows ++ a ∷ []) ≡ rows ++ b ∷ []
  replace-append a b [] t e = ground (arith, e)
  replace-append a b (d ∷ rows) t e = ground (arith, e, replace-append a b rows)

  pub get_row-replace-some :
      (a : A) (i : ℕ) (rows : List A) (b : A)
      → get_row i rows ≡ some b
      → (d : A) × (get_row i (replace a rows) ≡ some d)
  get_row-replace-some a i [] b h = cc
  get_row-replace-some a i (d ∷ rows) b h = elim (Bool-cases (k.id d == k.id a)) [
    | inl e ↦ elim (Bool-cases (k.id d == i)) [
      | inl f ↦ (a, ground (arith, e, f))
      | inr f ↦ (b, ground (arith, e, f, h))
    ]
    | inr e ↦ elim (Bool-cases (k.id d == i)) [
      | inl f ↦ (d, ground (arith, e, f))
      | inr f ↦
          let (x, g) = get_row-replace-some a i rows b (ground (arith, f, h)) in
          (x, ground (arith, e, f, g))
    ]
  ]

  pub conflicts-never :
      (a : A) (rows : List A) → ((b : A) → k.clash a b ≡ false) → conflicts a rows ≡ false
  conflicts-never a [] h = refl
  conflicts-never a (b ∷ rows) h = ground (arith, h b, conflicts-never a rows h)

  -- What is left after rows are deleted.
  taken-select :
      (p : A → Bool) (b : A) (rows : List A)
      → taken b rows ≡ false
      → taken b (select p rows) ≡ false
  taken-select p b [] h = refl
  taken-select p b (d ∷ rows) h = ground (arith, taken-select p b rows)

  pub select-IsUnique : (p : A → Bool) (rows : List A) → IsUnique rows → IsUnique (select p rows)
  select-IsUnique p [] u = tt
  select-IsUnique p (b ∷ rows) u =
      ground (arith, taken-select p b rows u.0, select-IsUnique p rows u.1)

  -- After an update, a query on what the update did not change finds the new row.
  pub find-replace :
      (p : A → Bool) (rows : List A) (a b : A)
      → IsUnique rows
      → find p rows ≡ some a
      → k.id b ≡ k.id a
      → p b ≡ true
      → find p (replace b rows) ≡ some b
  find-replace p [] a b u e i h = cc
  find-replace p (d ∷ rows) a b u e i h =
      ground (arith, i, h, taken-find p d rows a u.0, find-replace p rows a b u.1)
