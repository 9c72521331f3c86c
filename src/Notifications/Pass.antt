-- ===== src/Notifications/Pass.antt =====
-- One pass of the dispatcher over an outbox of any rows, as one row sees it
-- (core/notifications/dispatcher.py).
use backend_core.Common.{
  ℕ, ◌≤◌, ◌≡◌, ◌∙◌, refl, sym, subst, true, false, List, [], ◌∷◌, ◌==◌, leb, any, length, map,
  arith, inl, inr, Bool-cases,
}
use backend_core.Shared.Errors.{ok}
use backend_core.Notifications.Outbox.{Row, DispatcherConfig, Dispatch}
use backend_core.Notifications.Dispatcher.{
  is_due_row, due_rows, claim_row, write_claims, claim_batch, largest_attempts, process_row,
  process_rows, dispatch_due_notifications,
}
use backend_core.Notifications.Rows.{
  of_id, due-one, due-none, of_id-changed_ne, of_id-changed_eq, length-changed, write_claims-none,
  write_claims-one, write_claims-keeps, of_id-claims,
}
use backend_core.Notifications.Delivery.{process_row-Touches, Rests, IsServed}

process_row-ne :
    (env : DispatcherConfig) (c : Row) (i : ℕ) (st : Dispatch)
    → (c.id == i) ≡ false
    → of_id i (process_row env c st).1.outbox ≡ of_id i st.outbox
process_row-ne env c i st n =
    let (f, k, rows, now, settings, rests) = process_row-Touches env c st in
    (λ j. of_id i (rows j)) ∙ of_id-changed_ne i c.id f st.outbox k n

pub process_row-eq :
    (env : DispatcherConfig) (c : Row) (st : Dispatch)
    → of_id c.id st.outbox ≡ c ∷ []
    → (r : Row) × (of_id c.id (process_row env c st).1.outbox ≡ r ∷ [])
      × (IsServed env c st.settings → Rests env st.now c r)
process_row-eq env c st o =
    let (f, k, rows, now, settings, rests) = process_row-Touches env c st in
    (
      f c,
      (λ j. of_id c.id (rows j)) ∙ of_id-changed_eq c.id f st.outbox k ∙ (λ j. map f (o j)),
      rests,
    )

abbrev Keeps : Dispatch → Dispatch → Type 0
Keeps st st' =
    (length st'.outbox ≡ length st.outbox) × (st'.now ≡ st.now) × (st'.settings ≡ st.settings)

process_row-Keeps :
    (env : DispatcherConfig) (c : Row) (st : Dispatch) → Keeps st (process_row env c st).1
process_row-Keeps env c st =
    let (f, k, rows, now, settings, rests) = process_row-Touches env c st in
    ((λ j. length (rows j)) ∙ length-changed c.id f st.outbox, now, settings)

process_rows-Keeps :
    (env : DispatcherConfig) (rows : List Row) (st : Dispatch) → Keeps st (process_rows env rows st)
unfolding process_rows
process_rows-Keeps env [] st = (refl, refl, refl)
process_rows-Keeps env (x ∷ rows) st =
    let (a, b, c) = process_row-Keeps env x st in
    let (d, e, f) = process_rows-Keeps env rows (process_row env x st).1 in (d ∙ a, e ∙ b, f ∙ c)

process_rows-none :
    (env : DispatcherConfig) (i : ℕ) (rows : List Row) (st : Dispatch)
    → of_id i rows ≡ []
    → of_id i (process_rows env rows st).outbox ≡ of_id i st.outbox
unfolding process_rows
process_rows-none env i [] st z = refl
process_rows-none env i (x ∷ rows) st z = elim (Bool-cases (x.id == i)) [
  | inl e ↦ absurd (ground (arith, e, z))
  | inr n ↦
      process_rows-none env i rows (process_row env x st).1 (ground (arith, n, z))
      ∙ process_row-ne env x i st n
]

-- The state in which the row's own turn comes.
abbrev pub Turn : DispatcherConfig → Row → Dispatch → Dispatch → Type 0
Turn env c st st' =
    (s : Dispatch) × (s.now ≡ st.now)
    × (s.settings ≡ st.settings)
    × (of_id c.id s.outbox ≡ c ∷ [])
    × (of_id c.id st'.outbox ≡ of_id c.id (process_row env c s).1.outbox)

process_rows-one :
    (env : DispatcherConfig) (c : Row) (rows : List Row) (st : Dispatch)
    → of_id c.id rows ≡ c ∷ []
    → of_id c.id st.outbox ≡ c ∷ []
    → Turn env c st (process_rows env rows st)
unfolding process_rows
process_rows-one env c [] st z o = cc
process_rows-one env c (x ∷ rows) st z o = elim (Bool-cases (x.id == c.id)) [
  | inl e ↦
      let same : x ≡ c = ground (arith, e, z) in
      (
        st,
        refl,
        refl,
        o,
        process_rows-none env c.id rows (process_row env x st).1 (ground (arith, e, z))
            ∙ (λ j. of_id c.id (process_row env (same j) st).1.outbox),
      )
  | inr n ↦
      let (a, b, g) = process_row-Keeps env x st in
      let (s, now, settings, mine, turn) =
        process_rows-one env c rows (process_row env x st).1 (ground (arith, n, z))
          (process_row-ne env x c.id st n ∙ o) in
      (s, now ∙ b, settings ∙ g, mine, turn)
]

-- A pass that does not fail.
abbrev pub IsClaimed : DispatcherConfig → ℕ → Dispatch → Type 0
IsClaimed env batch st = (n : ℕ) × ((dispatch_due_notifications env batch st).0 ≡ ok n)

pass-is :
    (env : DispatcherConfig) (batch : ℕ) (st : Dispatch)
    → IsClaimed env batch st
    → (dispatch_due_notifications env batch st).1
      ≡ process_rows env
          (map (claim_row st.now env.lease) (due_rows batch st))
          (write_claims st.now env.lease (due_rows batch st) st).1
unfolding dispatch_due_notifications claim_batch
pass-is env batch st (n, h) =
    elim (Bool-cases (any (λ r. leb largest_attempts r.attempts) (due_rows batch st))) [
      | inl e ↦ absurd (ground (arith, e, h))
      | inr e ↦ ground (arith, e, (write_claims-keeps st.now env.lease (due_rows batch st) st).0)
    ]

pub pass-Keeps :
    (env : DispatcherConfig) (batch : ℕ) (st : Dispatch)
    → IsClaimed env batch st
    → Keeps st (dispatch_due_notifications env batch st).1
pass-Keeps env batch st h =
    let rows = due_rows batch st in
    let s = (write_claims st.now env.lease rows st).1 in
    let (_, a, b, c) = write_claims-keeps st.now env.lease rows st in
    let (d, e, f) = process_rows-Keeps env (map (claim_row st.now env.lease) rows) s in
    subst (Keeps st) (sym (pass-is env batch st h)) (d ∙ a, e ∙ b, f ∙ c)

pub pass-skips :
    (env : DispatcherConfig) (batch i : ℕ) (r : Row) (st : Dispatch)
    → IsClaimed env batch st
    → length st.outbox ≤ batch
    → of_id i st.outbox ≡ r ∷ []
    → is_due_row st.now r ≡ false
    → of_id i (dispatch_due_notifications env batch st).1.outbox ≡ r ∷ []
pass-skips env batch i r st h l o d =
    let rows = due_rows batch st in
    let none_due = due-none batch i r st l o d in
    let s = (write_claims st.now env.lease rows st).1 in
    (λ j. of_id i (pass-is env batch st h j).outbox)
    ∙ process_rows-none env i (map (claim_row st.now env.lease) rows) s (
        of_id-claims st.now env.lease i rows ∙ (λ j. map (claim_row st.now env.lease) (none_due j)))
    ∙ write_claims-none st.now env.lease i rows st none_due
    ∙ o

pub pass-Turn :
    (env : DispatcherConfig) (batch : ℕ) (r : Row) (st : Dispatch)
    → IsClaimed env batch st
    → length st.outbox ≤ batch
    → of_id r.id st.outbox ≡ r ∷ []
    → is_due_row st.now r ≡ true
    → Turn env (claim_row st.now env.lease r) st (dispatch_due_notifications env batch st).1
unfolding claim_row
pass-Turn env batch r st h l o d =
    let rows = due_rows batch st in
    let mine = due-one batch r.id r st l o d in
    let c = claim_row st.now env.lease r in
    let s = (write_claims st.now env.lease rows st).1 in
    let (_, a, b, g) = write_claims-keeps st.now env.lease rows st in
    let (u, now, settings, own, turn) =
      process_rows-one env c (map (claim_row st.now env.lease) rows) s
        (of_id-claims st.now env.lease r.id rows ∙ (λ j. map (claim_row st.now env.lease) (mine j)))
        (write_claims-one st.now env.lease r.id rows r st mine o) in
    subst (Turn env c st) (sym (pass-is env batch st h)) (u, now ∙ b, settings ∙ g, own, turn)
