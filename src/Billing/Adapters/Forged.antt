-- ===== src/Billing/Adapters/Forged.antt =====
-- Requests that do not come from the provider: what the adapters' authentication lets through to the
-- processor (`parse_webhook` of core/billing/adapters, `process` of core/billing/webhooks.py).
use backend_core.Common.{
  ℕ, ◌≡◌, ◌∙◌, refl, sym, true, false, Option, some, List, arith, inl, inr, Bool-cases,
  Option-cases,
}
use backend_core.Shared.Errors.{Error, Result, ok, err, Result-cases, unit_of_work}
use backend_core.Billing.Models.{CallbackAction}
use backend_core.Billing.Store.{Db}
use backend_core.Billing.Webhooks.{ProviderCallback, Adapter, dispatch, process}
use backend_core.Billing.Intake.{OnlyJournalled, dispatch_unsigned}
use backend_core.Billing.Adapters.Key
use backend_core.Billing.Adapters.Python
use backend_core.Billing.Adapters.Python.{
  Python, Json, RawWebhook, header, compare_digest, get_text,
}
use backend_core.Billing.Adapters.Payme.{Payme, payme}
use backend_core.Billing.Adapters.Click.{Click, click}
use backend_core.Billing.Adapters.Payme
use backend_core.Billing.Adapters.Click

same_state : (db : Db) → OnlyJournalled db db
same_state db = record {
  payments = refl;
  subscriptions = refl;
  outbox = refl;
  audit = refl;
  deliveries = λ p txn a. refl;
}

committed :
    {A : Type 0} (r : Result A) (db db' : Db)
    → OnlyJournalled db db'
    → OnlyJournalled db (unit_of_work (λ s. (r, db')) db).1
unfolding unit_of_work
committed (ok a) db db' j = j
committed (err e) db db' j = same_state db

module _ {Raw Response : Type 0} (adapters : ℕ → Option (Adapter Raw Response)) (digest : Raw → ℕ)
    (provider : ℕ) (raw : Raw) (db : Db) (a : Adapter Raw Response)
    (found : adapters provider ≡ some a) where
  pub process_parsed :
      (cb : ProviderCallback)
      → a.parse_webhook raw ≡ ok cb
      → (process adapters digest provider raw db).1
        ≡ (unit_of_work (dispatch provider (digest raw) cb) db).1
  unfolding process
  process_parsed cb e = ground (arith, found, e)

  pub process_unparsed :
      (x : Error)
      → a.parse_webhook raw ≡ err x
      → process adapters digest provider raw db ≡ (err x, db)
  unfolding process
  process_unparsed x e = ground (arith, found, e)

  -- A request that is parsed as unsigned, or not at all, reaches nothing but the journal.
  pub process_unsigned :
      ((cb : ProviderCallback) → a.parse_webhook raw ≡ ok cb → cb.signature_valid ≡ false)
      → OnlyJournalled db (process adapters digest provider raw db).1
  process_unsigned unsigned = elim (Result-cases (a.parse_webhook raw)) [
    | inr (x, e) ↦ rw (process_unparsed x e) (same_state db)
    | inl (cb, e) ↦
        let m = dispatch provider (digest raw) cb db in
        rw (process_parsed cb e) (
          unfold unit_of_work in
          committed m.0 db m.1 (dispatch_unsigned provider (digest raw) cb db (unsigned cb e)).0)
  ]

-- The credentials that Payme's request carries.
abbrev pub Carries : Python → RawWebhook → ℕ → Type 0
Carries py raw c =
    (h : ℕ) × (header py Key.authorization raw.headers ≡ some h) × (py.credentials h ≡ some c)

auth_ok-Carries :
    (py : Python) (me : Payme) (raw : RawWebhook)
    → Payme.auth_ok py me raw ≡ ok true
    → Carries py raw me.expected_auth
unfolding Payme.auth_ok compare_digest
auth_ok-Carries py me raw h = elim (Option-cases (header py Key.authorization raw.headers)) [
  | inl e ↦ absurd (ground (arith, e, h))
  | inr (t, e) ↦ elim (Option-cases (py.credentials t)) [
    | inl f ↦ absurd (ground (arith, e, f, h))
    | inr (c, f) ↦
        let same : c ≡ me.expected_auth = ground (arith, e, f, h) in (t, e, rw (sym same) f)
  ]
]

payme-Carries :
    (py : Python) (me : Payme) (raw : RawWebhook) (action : CallbackAction) (params : Json)
    (cb : ProviderCallback)
    → Payme.parse_params py me raw action params ≡ ok cb
    → Payme.auth_ok py me raw ≡ ok cb.signature_valid
unfolding Payme.parse_params Payme.callback
payme-Carries py me raw action (Json.object params) cb h =
    elim (Result-cases (Payme.auth_ok py me raw)) [
      | inr (x, e) ↦ absurd (ground (arith, e, h))
      | inl (valid, e) ↦ ground (arith, e, h)
    ]
payme-Carries py me raw action _ cb h = absurd (ground (arith, h))

payme-parsed :
    (py : Python) (me : Payme) (raw : RawWebhook) (cb : ProviderCallback)
    → Payme.parse_webhook py me raw ≡ ok cb
    → Payme.auth_ok py me raw ≡ ok cb.signature_valid
unfolding Payme.parse_webhook
payme-parsed py me raw cb h = elim (Result-cases (Payme.request_of (py.loads raw.body))) [
  | inr (x, e) ↦ absurd (ground (arith, e, h))
  | inl (request, e) ↦ elim (Option-cases (Payme.action_of py (Python.get Key.method request))) [
    | inl f ↦ absurd (ground (arith, e, f, h))
    | inr (action, f) ↦
        payme-Carries py me raw action (Payme.or_empty (Python.get Key.params request)) cb
          (ground (arith, e, f, h))
  ]
]

-- A request to Payme's webhook that does not carry the merchant's credentials moves nothing: it
-- changes the journal at most, and occupies no key of a real delivery.
pub process-Payme_forged :
    (py : Python) (me : Payme) (adapters : ℕ → Option (Adapter RawWebhook Payme.Response))
    (digest : RawWebhook → ℕ) (raw : RawWebhook) (db : Db)
    → adapters payme ≡ some (Payme.adapter py me)
    → (Carries py raw me.expected_auth → ⊥)
    → OnlyJournalled db (process adapters digest payme raw db).1
process-Payme_forged py me adapters digest raw db found forged =
    process_unsigned adapters digest payme raw db (Payme.adapter py me) found (λ cb e.
      elim (Bool-cases cb.signature_valid) [
        | inr s ↦ s
        | inl s ↦ absurd (forged (auth_ok-Carries py me raw (payme-parsed py me raw cb e ∙ (rw s))))
      ])

click-parsed :
    (py : Python) (me : Click) (form : List (ℕ × ℕ)) (code txn : ℕ) (cb : ProviderCallback)
    → Click.parse_form py me form code txn ≡ ok cb
    → Click.sign_ok py me form code ≡ ok cb.signature_valid
unfolding Click.parse_form Click.callback
click-parsed py me form code txn cb h = elim (Option-cases (Click.form_action code)) [
  | inl e ↦ absurd (ground (arith, e, h))
  | inr (action, e) ↦ elim (Result-cases (Click.form_amount py me form)) [
    | inr (x, f) ↦ absurd (ground (arith, e, f, h))
    | inl (sum, f) ↦ elim (Result-cases (Click.sign_ok py me form code)) [
      | inr (x, g) ↦ absurd (ground (arith, e, f, g, h))
      | inl (valid, g) ↦ ground (arith, e, f, g, h)
    ]
  ]
]

-- The form carries the signature of its own fields under the secret key.
abbrev pub IsSigned : Python → Click → List (ℕ × ℕ) → Type 0
IsSigned py me form =
    (code : ℕ) × (get_text Key.action form ≡ some code)
    × (Click.or_blank Key.sign_string form ≡ py.digest (Click.signed_parts me form code))

sign_ok-equal :
    (py : Python) (me : Click) (form : List (ℕ × ℕ)) (code : ℕ)
    → Click.sign_ok py me form code ≡ ok true
    → Click.or_blank Key.sign_string form ≡ py.digest (Click.signed_parts me form code)
unfolding Click.sign_ok compare_digest
sign_ok-equal py me form code h = ground (arith, h)

click-IsSigned :
    (py : Python) (me : Click) (raw : RawWebhook) (cb : ProviderCallback)
    → Click.parse_webhook py me raw ≡ ok cb
    → cb.signature_valid ≡ true
    → IsSigned py me raw.form
unfolding Click.parse_webhook
click-IsSigned py me raw cb h s = elim (Option-cases (get_text Key.action raw.form)) [
  | inl e ↦ absurd (ground (arith, e, h))
  | inr (code, e) ↦ elim (Option-cases (get_text Key.click_trans_id raw.form)) [
    | inl f ↦ absurd (ground (arith, e, f, h))
    | inr (txn, f) ↦
        let p : Click.parse_form py me raw.form code txn ≡ ok cb = ground (arith, e, f, h) in
        (
          code,
          e,
          sign_ok-equal py me raw.form code (click-parsed py me raw.form code txn cb p ∙ (rw s)),
        )
  ]
]

-- A form to Click's webhook that is not signed under the merchant's secret key moves nothing: it
-- changes the journal at most, and occupies no key of a real delivery.
pub process-Click_forged :
    (py : Python) (me : Click) (adapters : ℕ → Option (Adapter RawWebhook Click.Response))
    (digest : RawWebhook → ℕ) (raw : RawWebhook) (db : Db)
    → adapters click ≡ some (Click.adapter py me)
    → (IsSigned py me raw.form → ⊥)
    → OnlyJournalled db (process adapters digest click raw db).1
process-Click_forged py me adapters digest raw db found forged =
    process_unsigned adapters digest click raw db (Click.adapter py me) found (λ cb e.
      elim (Bool-cases cb.signature_valid) [
        | inr s ↦ s
        | inl s ↦ absurd (forged (click-IsSigned py me raw cb e s))
      ])
