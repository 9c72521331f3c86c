-- ===== src/Billing/Jobs.antt =====
-- core/billing/jobs.py: the sweeps over all tenants. `others` is what other transactions commit
-- between the scan and each target's own transaction.
use backend_core.Common.{
  ℕ, suc, Bool, true, false, ◌&&◌, Option, none, some, List, [], ◌∷◌, ◌==◌, find, select, take, map,
  if◌then◌else◌,
}
use backend_core.Shared.Errors.{Error, ok, err, Action, pure, gets, ◌>>=◌, unit_of_work}
use backend_core.Shared.Context.{system}
use backend_core.Shared.Clock.{DateTime, before, not_after}
use backend_core.Billing.State.{PaymentStatus}
use backend_core.Billing.Models.{Payment, is_live}
use backend_core.Billing.Store.{Db, Context}
use backend_core.Billing.Finalize.{mark_expired}
use backend_core.Billing.Subscriptions.{close_ended_period}

-- `_SWEEP_BATCH`
abbrev pub sweep_batch : ℕ
sweep_batch = 500

-- `_LIVE_STATES`
unfoldable pub is_open : PaymentStatus → Bool
is_open PaymentStatus.created = true
is_open PaymentStatus.pending = true
is_open _ = false

-- `order_by` a time, oldest first.
unfoldable pub insert_by : {A : Type 0} → (A → DateTime) → A → List A → List A
insert_by t a [] = a ∷ []
insert_by t a (b ∷ rest) = if not_after (t a) (t b) then a ∷ b ∷ rest else b ∷ insert_by t a rest

unfoldable pub sort_by : {A : Type 0} → (A → DateTime) → List A → List A
unfolding insert_by
sort_by t [] = []
sort_by t (a ∷ rest) = insert_by t a (sort_by t rest)

-- `_ctx`
unfoldable pub job_context : ℕ → Context
job_context tenant = record { tenant_id = tenant; actor = system; access = none }

-- The scan of `expire_stale_checkouts`
unfoldable pub stale_payments : DateTime → Db → List (ℕ × ℕ)
stale_payments cutoff db =
    map (λ p. (p.id, p.tenant_id))
      (take sweep_batch (
        sort_by (λ p. p.created_at)
          (select (λ p. is_open p.status && before p.created_at cutoff) db.payments)))

-- One target, re-read in its own transaction.
unfoldable pub expire_found : Context → Payment → Action Db Bool
expire_found c p = elim (is_open p.status) [
  | false ↦ pure false
  | true ↦ λ db.
      let (r, db') = mark_expired c p db in
      elim r [
        | ok _ ↦ (ok true, db')
        | err e ↦ elim e [ Error.invariant_violation ↦ (ok false, db') | other ↦ (err other, db') ]
      ]
]

unfoldable pub expire_one : ℕ × ℕ → Action Db Bool
expire_one (id, tenant) = unit_of_work do
  found ← gets (λ db. find (λ p. p.id == id) db.payments)
  elim found [ none ↦ pure false | some p ↦ expire_found (job_context tenant) p ]

-- The loop over the targets, each in its own transaction; it counts those acted on, and an
-- exception stops it.
unfoldable pub sweep : {T : Type 0} → (Db → Db) → (T → Action Db Bool) → List T → ℕ → Action Db ℕ
sweep others one [] n db = (ok n, db)
sweep others one (t ∷ rest) n db =
    let (r, db') = one t (others db) in
    let onward = λ (acted : Bool). sweep others one rest (if acted then suc n else n) db' in
    elim r [ ok acted ↦ onward acted | err e ↦ (err e, db') ]

unfoldable pub expire_stale_checkouts : (Db → Db) → DateTime → Action Db ℕ
expire_stale_checkouts others cutoff db = sweep others expire_one (stale_payments cutoff db) 0 db

-- The scan of `expire_ended_subscriptions`
unfoldable pub due_subscriptions : Db → List (ℕ × ℕ)
due_subscriptions db =
    map (λ s. (s.id, s.tenant_id))
      (take sweep_batch (
        sort_by (λ s. s.current_period_end)
          (select (λ s. is_live s.status && not_after s.current_period_end db.now)
            db.subscriptions)))

unfoldable pub close_one : Option ℕ → ℕ × ℕ → Action Db Bool
close_one fallback (id, tenant) = unit_of_work (close_ended_period (job_context tenant) id fallback)

unfoldable pub expire_ended_subscriptions : (Db → Db) → Option ℕ → Action Db ℕ
expire_ended_subscriptions others fallback db =
    sweep others (close_one fallback) (due_subscriptions db) 0 db
