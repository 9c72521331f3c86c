-- ===== src/Billing/Adapters/Registry.antt =====
-- `build_payment_providers` of core/billing/adapters/__init__.py. Stripe's adapter is a parameter.
use backend_core.Common.{ℕ, ◌||◌, Option, none, some, List, [], ◌∷◌, ◌==◌, if◌then◌else◌}
use backend_core.Shared.Errors.{Error, Result, ok, err}
use backend_core.Billing.Payments.{Port, Url}
use backend_core.Billing.Adapters.Payme.{Payme, Param, payme}
use backend_core.Billing.Adapters.Click.{Click, click}
use backend_core.Billing.Adapters.Payme
use backend_core.Billing.Adapters.Click

abbrev pub stripe : ℕ
stripe = 3

-- The settings that the adapters read, with the texts that their keys combine to. The empty text
-- is 0. `stripe_port` is what `StripeProvider.from_settings` gives.
pub record Settings : Type 0 where
  pub payme_merchant_id : ℕ
  pub payme_merchant_key : ℕ
  pub payme_auth : ℕ → ℕ
  pub payme_encode : List Param → ℕ
  pub click_service_id : ℕ
  pub click_merchant_id : ℕ
  pub click_secret_key : ℕ
  pub click_zero : ℕ
  pub click_link : ℕ → ℕ → ℕ → ℕ → Option Url → ℕ
  pub stripe_port : Result Port

-- `PaymeProvider.__init__`
unfoldable pub payme_provider : Settings → Result Payme
payme_provider s =
    if s.payme_merchant_id == 0 || s.payme_merchant_key == 0
    then err Error.payment_provider_error
    else ok (record {
      merchant_id = s.payme_merchant_id;
      expected_auth = s.payme_auth s.payme_merchant_key;
      encode = s.payme_encode;
    })

-- `ClickProvider.__init__`
unfoldable pub click_provider : Settings → Result Click
click_provider s =
    if (s.click_service_id == 0 || s.click_merchant_id == 0) || s.click_secret_key == 0
    then err Error.payment_provider_error
    else ok (record {
      service_id = s.click_service_id;
      merchant_id = s.click_merchant_id;
      secret_key = s.click_secret_key;
      zero_text = s.click_zero;
      link = s.click_link;
    })

-- The port of one code of `enabled_payment_providers`
unfoldable pub build_port : Settings → ℕ → Result Port
unfolding payme_provider click_provider
build_port s code =
    if code == payme
    then elim (payme_provider s) [ err e ↦ err e | ok me ↦ ok (Payme.create_checkout me) ]
    else if code == click
    then elim (click_provider s) [ err e ↦ err e | ok me ↦ ok (Click.create_checkout me) ]
    else if code == stripe
    then s.stripe_port
    else err Error.invariant_violation

-- `providers.get(code)` of the mapping built; two entries of one code have the same port.
unfoldable pub port_of : ℕ → List (ℕ × Port) → Option Port
port_of code [] = none
port_of code ((c, port) ∷ rest) = if c == code then some port else port_of code rest

unfoldable pub build_payment_providers : Settings → List ℕ → Result (List (ℕ × Port))
build_payment_providers s [] = ok []
build_payment_providers s (code ∷ codes) = elim (build_port s code) [
  | err e ↦ err e
  | ok port ↦ elim (build_payment_providers s codes) [
    | err e ↦ err e
    | ok rest ↦ ok ((code, port) ∷ rest)
  ]
]
