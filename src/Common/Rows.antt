-- ===== src/Common/Rows.antt =====
-- Tests and counts over the rows of a table under an update or a deletion.
use backend_core.Common.{
  ℕ, suc, ◌≤◌, ◌<◌, ◌≡◌, refl, Bool, true, false, not, some, List, [], ◌∷◌, ◌++◌, ◌==◌, any, find,
  map, select, length, All, arith,
}
use backend_core.Common.Table.{Schema, get_row, taken, replace, IsUnique}

module _ {A : Type 0} where
  pub find-All :
      (P : A → Type 0) (p : A → Bool) (rows : List A) (a : A)
      → All P rows
      → find p rows ≡ some a
      → P a
  find-All P p [] a v e = cc
  find-All P p (b ∷ rows) a v e = ground (arith, v, find-All P p rows a v.1)

  pub All-append :
      (P : A → Type 0) (rows : List A) (a : A) → All P rows → P a → All P (rows ++ a ∷ [])
  All-append P [] a v h = (h, tt)
  All-append P (b ∷ rows) a v h = (v.0, All-append P rows a v.1 h)

  pub All-map : (P Q : A → Type 0) (rows : List A) → ((a : A) → P a → Q a) → All P rows → All Q rows
  All-map P Q [] f v = tt
  All-map P Q (b ∷ rows) f v = (f b v.0, All-map P Q rows f v.1)

  pub map-All :
      (P : A → Type 0) (f : A → A) (rows : List A)
      → ((a : A) → P a → P (f a))
      → All P rows
      → All P (map f rows)
  map-All P f [] h v = tt
  map-All P f (b ∷ rows) h v = (h b v.0, map-All P f rows h v.1)

  pub any-select : (p : A → Bool) (rows : List A) → 0 < length (select p rows) → any p rows ≡ true
  any-select p [] h = absurd (ground (arith, h))
  any-select p (b ∷ rows) h = ground (arith, any-select p rows)

  module _ (k : Schema A) where
    pub All-replace :
        (P : A → Type 0) (a : A) (rows : List A) → All P rows → P a → All P (replace k a rows)
    All-replace P a [] v h = tt
    All-replace P a (b ∷ rows) v h = ground (arith, v, h, All-replace P a rows v.1 h)

    -- An update of `b` to `a`.
    module _ (p : A → Bool) (a b : A) where
      pub any-replace :
          (rows : List A)
          → get_row k (k.id a) rows ≡ some b
          → (p b ≡ true → p a ≡ true)
          → any p rows ≡ true
          → any p (replace k a rows) ≡ true
      any-replace [] e f h = cc
      any-replace (d ∷ rows) e f h = ground (arith, e, f, any-replace rows)

      pub any-replace_new :
          (rows : List A)
          → get_row k (k.id a) rows ≡ some b
          → p a ≡ true
          → any p (replace k a rows) ≡ true
      any-replace_new [] e f = cc
      any-replace_new (d ∷ rows) e f = ground (arith, e, f, any-replace_new rows)

    pub count-replace :
        (p : A → Bool) (a : A) (rows : List A)
        → length (select p rows) ≤ suc (length (select p (replace k a rows)))
    count-replace p a [] = ground arith
    count-replace p a (d ∷ rows) = ground (arith, count-replace p a rows)

    -- The deletion of the row with a key.
    module _ (i : ℕ) where
      abbrev pub delete : List A → List A
      delete rows = select (λ a. not (k.id a == i)) rows

      delete-taken :
          (b : A) (rows : List A) → taken k b rows ≡ false → k.id b ≡ i → delete rows ≡ rows
      delete-taken b [] t e = refl
      delete-taken b (d ∷ rows) t e = ground (arith, e, delete-taken b rows)

      pub count-delete :
          (p : A → Bool) (rows : List A)
          → IsUnique k rows
          → length (select p rows) ≤ suc (length (select p (delete rows)))
      count-delete p [] u = ground arith
      count-delete p (d ∷ rows) u = ground (arith, delete-taken d rows u.0, count-delete p rows u.1)

      pub any-delete :
          (p : A → Bool) (b : A) (rows : List A)
          → IsUnique k rows
          → get_row k i rows ≡ some b
          → p b ≡ false
          → any p rows ≡ true
          → any p (delete rows) ≡ true
      any-delete p b [] u e f h = cc
      any-delete p b (d ∷ rows) u e f h =
          ground (arith, delete-taken d rows u.0, f, any-delete p b rows u.1)
