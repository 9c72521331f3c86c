-- ===== src/Notifications/Rows.antt =====
-- The one row of an id in the outbox (core/notifications/dispatcher.py), among any others.
use backend_core.Common.{
  ℕ, zero, suc, ◌≤◌, ◌≡◌, ◌∙◌, refl, Bool, true, false, List, [], ◌∷◌, ◌==◌, length, take, select,
  map, arith, inl, inr, Bool-cases, if◌then◌else◌,
}
use backend_core.Shared.Errors.{ok}
use backend_core.Notifications.Outbox.{Row, Dispatch}
use backend_core.Notifications.Dispatcher.{
  is_due_row, insert_row, sort_rows, due_rows, claim_row, update_row, write_claims,
}

-- The rows of an id.
abbrev pub of_id : ℕ → List Row → List Row
of_id i rows = select (λ r. r.id == i) rows

pub of_id-id : (i : ℕ) (rows : List Row) (r : Row) → of_id i rows ≡ r ∷ [] → r.id ≡ i
of_id-id i [] r e = cc
of_id-id i (x ∷ rows) r e = ground (arith, e, of_id-id i rows r)

of_id-insert_ne :
    (i : ℕ) (r : Row) (rows : List Row)
    → (r.id == i) ≡ false
    → of_id i (insert_row r rows) ≡ of_id i rows
unfolding insert_row
of_id-insert_ne i r [] n = ground (arith, n)
of_id-insert_ne i r (x ∷ rows) n = ground (arith, n, of_id-insert_ne i r rows n)

of_id-insert_eq :
    (i : ℕ) (r : Row) (rows : List Row)
    → (r.id == i) ≡ true
    → of_id i rows ≡ []
    → of_id i (insert_row r rows) ≡ r ∷ []
unfolding insert_row
of_id-insert_eq i r [] e z = ground (arith, e)
of_id-insert_eq i r (x ∷ rows) e z = ground (arith, e, z, of_id-insert_eq i r rows e)

of_id-sort_none : (i : ℕ) (rows : List Row) → of_id i rows ≡ [] → of_id i (sort_rows rows) ≡ []
unfolding sort_rows
of_id-sort_none i [] z = refl
of_id-sort_none i (x ∷ rows) z = elim (Bool-cases (x.id == i)) [
  | inl e ↦ absurd (ground (arith, e, z))
  | inr n ↦ of_id-insert_ne i x (sort_rows rows) n ∙ of_id-sort_none i rows (ground (arith, n, z))
]

of_id-sort_one :
    (i : ℕ) (rows : List Row) (r : Row) → of_id i rows ≡ r ∷ [] → of_id i (sort_rows rows) ≡ r ∷ []
unfolding sort_rows
of_id-sort_one i [] r z = cc
of_id-sort_one i (x ∷ rows) r z = elim (Bool-cases (x.id == i)) [
  | inl e ↦
      let same : x ≡ r = ground (arith, e, z) in
      of_id-insert_eq i x (sort_rows rows) e (of_id-sort_none i rows (ground (arith, e, z)))
      ∙ (λ k. same k ∷ [])
  | inr n ↦ of_id-insert_ne i x (sort_rows rows) n ∙ of_id-sort_one i rows r (ground (arith, n, z))
]

length-insert : (r : Row) (rows : List Row) → length (insert_row r rows) ≡ suc (length rows)
unfolding insert_row
length-insert r [] = refl
length-insert r (x ∷ rows) = ground (arith, length-insert r rows)

length-sort : (rows : List Row) → length (sort_rows rows) ≡ length rows
unfolding sort_rows
length-sort [] = refl
length-sort (x ∷ rows) = omega (arith, length-insert x (sort_rows rows), length-sort rows)

length-select : (p : Row → Bool) (rows : List Row) → length (select p rows) ≤ length rows
length-select p [] = omega arith
length-select p (x ∷ rows) = ground (arith, length-select p rows)

take-all : (n : ℕ) (rows : List Row) → length rows ≤ n → take n rows ≡ rows
take-all zero [] h = refl
take-all zero (x ∷ rows) h = absurd (omega (arith, h))
take-all (suc n) [] h = refl
take-all (suc n) (x ∷ rows) h = ground (arith, take-all n rows (omega (arith, h)))

select-select :
    (p q : Row → Bool) (rows : List Row) → select p (select q rows) ≡ select q (select p rows)
select-select p q [] = refl
select-select p q (x ∷ rows) = ground (arith, select-select p q rows)

due-all :
    (batch : ℕ) (st : Dispatch)
    → length st.outbox ≤ batch
    → due_rows batch st ≡ sort_rows (select (is_due_row st.now) st.outbox)
unfolding due_rows
due-all batch st h =
    let due = select (is_due_row st.now) st.outbox in
    take-all batch (sort_rows due)
      (omega (arith, h, length-sort due, length-select (is_due_row st.now) st.outbox))

pub due-one :
    (batch i : ℕ) (r : Row) (st : Dispatch)
    → length st.outbox ≤ batch
    → of_id i st.outbox ≡ r ∷ []
    → is_due_row st.now r ≡ true
    → of_id i (due_rows batch st) ≡ r ∷ []
due-one batch i r st h o d =
    let due = select (is_due_row st.now) st.outbox in
    let mine : of_id i due ≡ r ∷ [] =
      select-select (λ x. x.id == i) (is_due_row st.now) st.outbox
      ∙ (λ k. select (is_due_row st.now) (o k))
      ∙ ground (arith, d) in
    (λ k. of_id i (due-all batch st h k)) ∙ of_id-sort_one i due r mine

pub due-none :
    (batch i : ℕ) (r : Row) (st : Dispatch)
    → length st.outbox ≤ batch
    → of_id i st.outbox ≡ r ∷ []
    → is_due_row st.now r ≡ false
    → of_id i (due_rows batch st) ≡ []
due-none batch i r st h o d =
    let due = select (is_due_row st.now) st.outbox in
    let mine : of_id i due ≡ [] =
      select-select (λ x. x.id == i) (is_due_row st.now) st.outbox
      ∙ (λ k. select (is_due_row st.now) (o k))
      ∙ ground (arith, d) in
    (λ k. of_id i (due-all batch st h k)) ∙ of_id-sort_none i due mine

-- A change of the rows with an id.
abbrev pub changed : ℕ → (Row → Row) → Row → Row
changed j f r = if r.id == j then f r else r

pub of_id-changed_ne :
    (i j : ℕ) (f : Row → Row) (rows : List Row)
    → ((r : Row) → (f r).id ≡ r.id)
    → (j == i) ≡ false
    → of_id i (map (changed j f) rows) ≡ of_id i rows
of_id-changed_ne i j f [] k n = refl
of_id-changed_ne i j f (x ∷ rows) k n = ground (arith, k x, n, of_id-changed_ne i j f rows k n)

pub of_id-changed_eq :
    (i : ℕ) (f : Row → Row) (rows : List Row)
    → ((r : Row) → (f r).id ≡ r.id)
    → of_id i (map (changed i f) rows) ≡ map f (of_id i rows)
of_id-changed_eq i f [] k = refl
of_id-changed_eq i f (x ∷ rows) k = ground (arith, k x, of_id-changed_eq i f rows k)

pub length-changed :
    (j : ℕ) (f : Row → Row) (rows : List Row) → length (map (changed j f) rows) ≡ length rows
length-changed j f [] = refl
length-changed j f (x ∷ rows) = ground (arith, length-changed j f rows)

-- The claims of a batch that does not have the id, and of one that has it once.
pub write_claims-none :
    (now lease i : ℕ) (rows : List Row) (st : Dispatch)
    → of_id i rows ≡ []
    → of_id i (write_claims now lease rows st).1.outbox ≡ of_id i st.outbox
unfolding write_claims update_row claim_row
write_claims-none now lease i [] st z = refl
write_claims-none now lease i (x ∷ rows) st z = elim (Bool-cases (x.id == i)) [
  | inl e ↦ absurd (ground (arith, e, z))
  | inr n ↦
      write_claims-none now lease i rows (update_row x.id (claim_row now lease) st).1
        (ground (arith, n, z))
      ∙ of_id-changed_ne i x.id (claim_row now lease) st.outbox (λ r. refl) n
]

pub write_claims-one :
    (now lease i : ℕ) (rows : List Row) (r : Row) (st : Dispatch)
    → of_id i rows ≡ r ∷ []
    → of_id i st.outbox ≡ r ∷ []
    → of_id i (write_claims now lease rows st).1.outbox ≡ claim_row now lease r ∷ []
unfolding write_claims update_row claim_row
write_claims-one now lease i [] r st z o = cc
write_claims-one now lease i (x ∷ rows) r st z o =
    let next = (update_row x.id (claim_row now lease) st).1 in
    elim (Bool-cases (x.id == i)) [
      | inl e ↦
          let is : x.id ≡ i = ground (arith, e) in
          write_claims-none now lease i rows next (ground (arith, e, z))
          ∙ (λ k. of_id i (map (changed (is k) (claim_row now lease)) st.outbox))
          ∙ of_id-changed_eq i (claim_row now lease) st.outbox (λ r. refl)
          ∙ (λ k. map (claim_row now lease) (o k))
      | inr n ↦
          write_claims-one now lease i rows r next (ground (arith, n, z))
            (of_id-changed_ne i x.id (claim_row now lease) st.outbox (λ r. refl) n ∙ o)
    ]

pub write_claims-keeps :
    (now lease : ℕ) (rows : List Row) (st : Dispatch)
    → ((write_claims now lease rows st).0 ≡ ok tt)
      × (length (write_claims now lease rows st).1.outbox ≡ length st.outbox)
      × ((write_claims now lease rows st).1.now ≡ st.now)
      × ((write_claims now lease rows st).1.settings ≡ st.settings)
unfolding write_claims update_row
write_claims-keeps now lease [] st = (refl, refl, refl, refl)
write_claims-keeps now lease (x ∷ rows) st =
    let (a, b, c, d) =
      write_claims-keeps now lease rows (update_row x.id (claim_row now lease) st).1 in
    (a, b ∙ length-changed x.id (claim_row now lease) st.outbox, c, d)

pub of_id-claims :
    (now lease i : ℕ) (rows : List Row)
    → of_id i (map (claim_row now lease) rows) ≡ map (claim_row now lease) (of_id i rows)
unfolding claim_row
of_id-claims now lease i [] = refl
of_id-claims now lease i (x ∷ rows) = ground (arith, of_id-claims now lease i rows)
