-- ===== src/Notifications/Unresolved.antt =====
-- A row whose channel cannot be built (core/notifications/dispatcher.py).
use backend_core.Common.{
  ℕ, ◌+◌, ◌≤◌, ◌≡◌, ◌∙◌, refl, sym, subst, true, Option, List, [], ◌∷◌, length, arith,
}
use backend_core.Shared.Errors.{Error, ok, err}
use backend_core.Notifications.Outbox.{Row, DispatcherConfig, Dispatch}
use backend_core.Notifications.Dispatcher.{
  is_due_state, is_due_row, claim_row, channel_of, process_row, dispatch_due_notifications,
}
use backend_core.Notifications.Rows.{of_id}
use backend_core.Notifications.Pass.{IsClaimed, pass-Keeps, pass-Turn}
use backend_core.Notifications.Passes.{passes, AreClaimed}

unresolved_pass :
    (env : DispatcherConfig) (batch : ℕ) (r : Row) (m : Option ℕ × ℕ) (e : Error) (st : Dispatch)
    → IsClaimed env batch st
    → length st.outbox ≤ batch
    → of_id r.id st.outbox ≡ r ∷ []
    → is_due_row st.now r ≡ true
    → env.render r.template_key r.locale r.params ≡ ok m
    → channel_of env r.channel r.tenant_id st.settings ≡ err e
    → of_id r.id (dispatch_due_notifications env batch st).1.outbox
      ≡ claim_row st.now env.lease r ∷ []
unfolding process_row claim_row
unresolved_pass env batch r m e st h l o d rendered fails =
    let c = claim_row st.now env.lease r in
    let (s, now, settings, mine, turn) = pass-Turn env batch r st h l o d in
    let fails' = subst (λ g. channel_of env r.channel r.tenant_id g ≡ err e) (sym settings) fails in
    let raised : (process_row env c s).1 ≡ s = ground (arith, rendered, fails') in
    turn ∙ (λ j. of_id r.id (raised j).outbox) ∙ mine

-- Times each after the lease of the last.
abbrev pub Leased : ℕ → ℕ → List ℕ → Type 0
Leased lease from [] = Unit
Leased lease from (t ∷ times) = (from ≤ t) × Leased lease (t + lease) times

-- In an outbox with any other rows, a row that renders but whose channel's configuration cannot be
-- used is not finished by any number of due passes: each counts an attempt, also beyond the limit of
-- attempts, and leaves the row in a state that falls due again, as long as the row's id is its own,
-- the outbox is no larger than the batch and no pass ends in an exception, as one does when a count
-- leaves the range of SMALLINT.
pub passes-unresolved :
    (env : DispatcherConfig) (batch : ℕ) (times : List ℕ) (r : Row) (m : Option ℕ × ℕ) (e : Error)
    (st : Dispatch)
    → env.render r.template_key r.locale r.params ≡ ok m
    → channel_of env r.channel r.tenant_id st.settings ≡ err e
    → AreClaimed env batch times st
    → length st.outbox ≤ batch
    → of_id r.id st.outbox ≡ r ∷ []
    → is_due_state r.status ≡ true
    → Leased env.lease r.next_retry_at times
    → (r' : Row) × (of_id r.id (passes env batch times st).outbox ≡ r' ∷ [])
      × (is_due_state r'.status ≡ true)
      × (r'.attempts ≡ r.attempts + length times)
unfolding passes claim_row is_due_state is_due_row
passes-unresolved env batch [] r m e st rendered fails claimed l o due leased =
    (r, o, due, omega arith)
passes-unresolved env batch (t ∷ times) r m e st rendered fails (h, hs) l o due leased =
    let at : Dispatch = record st { now = t } in
    let after = (dispatch_due_notifications env batch at).1 in
    let (kept, _, settings) = pass-Keeps env batch at h in
    let mine =
      unresolved_pass env batch r m e at h l o (ground (arith, due, leased.0)) rendered fails in
    let (r', last, d, count) =
      passes-unresolved env batch times (claim_row t env.lease r) m e after rendered
        (subst (λ g. channel_of env r.channel r.tenant_id g ≡ err e) (sym settings) fails) hs
        (omega (arith, l, kept)) mine refl leased.1 in
    (r', last, d, omega (arith, count))
