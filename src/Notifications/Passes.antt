-- ===== src/Notifications/Passes.antt =====
-- Repeated passes of the dispatcher over a row (core/notifications/dispatcher.py).
use backend_core.Common.{
  ℕ, ◌+◌, ◌≤◌, ◌<◌, ◌≡◌, ◌∙◌, sym, subst, true, false, List, [], ◌∷◌, length, arith, inl, inr,
  Bool-cases,
}
use backend_core.Notifications.Outbox.{Row, DispatcherConfig, Dispatch}
use backend_core.Shared.Clock.{seconds}
use backend_core.Notifications.Dispatcher.{
  is_due_state, is_due_row, claim_row, dispatch_due_notifications,
}
use backend_core.Notifications.Rows.{of_id, of_id-id}
use backend_core.Notifications.Delivery.{Rests, IsServed}
use backend_core.Notifications.Pass.{IsClaimed, pass-Keeps, pass-skips, pass-Turn, process_row-eq}

-- The passes at these times.
unfoldable pub passes : DispatcherConfig → ℕ → List ℕ → Dispatch → Dispatch
passes env batch [] st = st
passes env batch (t ∷ times) st =
    passes env batch times (dispatch_due_notifications env batch (record st { now = t })).1

-- The times are due: the first after a row's next attempt, each sixteen minutes after the last.
abbrev pub Paced : ℕ → List ℕ → Type 0
Paced from [] = Unit
Paced from (t ∷ times) = (from ≤ t) × Paced (t + seconds 960) times

Paced-le : (a b : ℕ) (times : List ℕ) → a ≤ b → Paced b times → Paced a times
Paced-le a b [] h p = tt
Paced-le a b (t ∷ times) h p = (omega (arith, h, p.0), p.1)

-- No pass ends in an exception.
abbrev pub AreClaimed : DispatcherConfig → ℕ → List ℕ → Dispatch → Type 0
AreClaimed env batch [] st = Unit
AreClaimed env batch (t ∷ times) st =
    IsClaimed env batch (record st { now = t })
    × AreClaimed env batch times (dispatch_due_notifications env batch (record st { now = t })).1

-- A row that is not due any more stays as it is.
passes-finished :
    (env : DispatcherConfig) (batch i : ℕ) (r : Row) (times : List ℕ) (st : Dispatch)
    → AreClaimed env batch times st
    → length st.outbox ≤ batch
    → of_id i st.outbox ≡ r ∷ []
    → is_due_state r.status ≡ false
    → of_id i (passes env batch times st).outbox ≡ r ∷ []
unfolding passes is_due_row
passes-finished env batch i r [] st h l o d = o
passes-finished env batch i r (t ∷ times) st (h, hs) l o d =
    let at : Dispatch = record st { now = t } in
    let (kept, _, _) = pass-Keeps env batch at h in
    passes-finished env batch i r times (dispatch_due_notifications env batch at).1 hs
      (omega (arith, l, kept)) (pass-skips env batch i r at h l o (ground (arith, d))) d

-- What a pass leaves of a row that is due and served.
due_pass :
    (env : DispatcherConfig) (batch : ℕ) (r : Row) (st : Dispatch)
    → IsClaimed env batch st
    → length st.outbox ≤ batch
    → of_id r.id st.outbox ≡ r ∷ []
    → is_due_row st.now r ≡ true
    → IsServed env r st.settings
    → (r' : Row) × (of_id r.id (dispatch_due_notifications env batch st).1.outbox ≡ r' ∷ [])
      × Rests env st.now (claim_row st.now env.lease r) r'
unfolding claim_row
due_pass env batch r st h l o d served =
    let c = claim_row st.now env.lease r in
    let (s, now, settings, mine, turn) = pass-Turn env batch r st h l o d in
    let (r', own, rests) = process_row-eq env c s mine in
    (
      r',
      turn ∙ own,
      subst (λ t. Rests env t c r') now (rests (subst (IsServed env c) (sym settings) served)),
    )

-- In an outbox with any other rows, a row whose template is unknown or renders, and whose channel can
-- be built, is sent or dead after as many due passes as it has attempts left, and after one if it has
-- none left, whatever the channels answer, if the row's id is its own, the outbox is no larger than
-- the batch and no pass ends in an exception.
pub passes-IsFinished :
    (env : DispatcherConfig) (batch : ℕ) (times : List ℕ) (r : Row) (st : Dispatch)
    → IsServed env r st.settings
    → AreClaimed env batch times st
    → length st.outbox ≤ batch
    → of_id r.id st.outbox ≡ r ∷ []
    → Paced r.next_retry_at times
    → 0 < length times
    → env.max_attempts ≤ r.attempts + length times
    → (r' : Row) × (of_id r.id (passes env batch times st).outbox ≡ r' ∷ [])
      × (is_due_state r'.status ≡ false)
unfolding passes claim_row is_due_row
passes-IsFinished env batch [] r st served claimed l o paced some_left enough =
    absurd (omega (arith, some_left))
passes-IsFinished env batch (t ∷ times) r st served (h, hs) l o paced some_left enough =
    let at : Dispatch = record st { now = t } in
    let after = (dispatch_due_notifications env batch at).1 in
    let (kept, _, settings) = pass-Keeps env batch at h in
    elim (Bool-cases (is_due_state r.status)) [
      | inr d ↦ (r, passes-finished env batch r.id r (t ∷ times) st (h, hs) l o d, d)
      | inl d ↦
          let (r', mine, rests) =
            due_pass env batch r at h l o (ground (arith, d, paced.0)) served in
          let same : r'.id ≡ r.id = of_id-id r.id after.outbox r' mine in
          elim rests [
            | inl done ↦ (
              r',
              passes-finished env batch r.id r' times after hs (omega (arith, l, kept)) mine done,
              done,
            )
            | inr (_, count, below, next, tenant, channel, key, locale, params) ↦
                let served' : IsServed env r' after.settings =
                  rw (settings, tenant, channel, key, locale, params) served in
                let (r'', last, done) =
                  passes-IsFinished env batch times r' after served' hs (omega (arith, l, kept))
                    (subst (λ i. of_id i after.outbox ≡ r' ∷ []) (sym same) mine)
                    (Paced-le r'.next_retry_at (t + seconds 960) times next paced.1)
                    (omega (arith, below, enough)) (omega (arith, count, enough)) in
                (
                  r'',
                  subst (λ i. of_id i (passes env batch times after).outbox ≡ r'' ∷ []) same last,
                  done,
                )
          ]
    ]
