-- ===== src/Billing/Adapters/Sums.antt =====
-- Amounts of the adapters, and what their checkouts name.
use backend_core.Common.{ℕ, ◌≡◌, ◌↔◌, false, Option, some, List, [], ◌∷◌, arith, inl, inr}
use backend_core.Shared.Errors.{ok, Result-cases}
use backend_core.Billing.Models.{Payment}
use backend_core.Billing.Payments.{Checkout, Port, Url, Environment}
use backend_core.Billing.Opening.{IsHonest}
use backend_core.Billing.Adapters.Python.{integer}
use backend_core.Billing.Adapters.Payme.{Payme, uzs, payme, to_tiyin, minor_units_from_tiyin}
use backend_core.Billing.Adapters.Click.{Click, click}
use backend_core.Billing.Adapters.Payme
use backend_core.Billing.Adapters.Click
use backend_core.Billing.Adapters.Registry.{
  Settings, stripe, build_port, port_of, build_payment_providers,
}

-- The sums that Payme is asked for are read back as the same amount, and Payme's amounts that are
-- accepted are exactly those that a whole number of sums is sent as: nothing is truncated.
pub to_tiyin-minor_units_from_tiyin :
    (amount tiyin : ℕ)
    → (to_tiyin amount uzs ≡ ok tiyin) ↔ (minor_units_from_tiyin (integer false tiyin) ≡ ok amount)
unfolding to_tiyin minor_units_from_tiyin
to_tiyin-minor_units_from_tiyin amount tiyin = (λ h. ground arith, λ h. ground arith)

-- A checkout names its payment, and the provider of its adapter.
abbrev Names : Port → Type 0
Names port =
    (p : Payment) (url : Option Url) (k : Checkout) → port p url ≡ ok k → k.payment_id ≡ p.id

payme-Names : (me : Payme) → Names (Payme.create_checkout me)
unfolding Payme.create_checkout
payme-Names me p url k h = ground (arith, h)

click-Names : (me : Click) → Names (Click.create_checkout me)
unfolding Click.create_checkout
click-Names me p url k h = ground (arith, h)

-- What stripe's adapter is taken to promise.
abbrev pub StripeNames : Settings → Type 0
StripeNames s =
    (port : Port) (p : Payment) (url : Option Url) (k : Checkout)
    → s.stripe_port ≡ ok port
    → port p url ≡ ok k
    → (k.payment_id ≡ p.id) × (k.provider ≡ stripe)

build_port-names :
    (s : Settings) (code : ℕ) (port : Port) (p : Payment) (url : Option Url) (k : Checkout)
    → StripeNames s
    → build_port s code ≡ ok port
    → port p url ≡ ok k
    → (k.payment_id ≡ p.id) × (k.provider ≡ code)
unfolding build_port Payme.create_checkout Click.create_checkout
build_port-names s code port p url k honest b h = ground (arith, b, h, honest port p url k)

built_from :
    (s : Settings) (codes : List ℕ) (built : List (ℕ × Port)) (code : ℕ) (port : Port)
    → build_payment_providers s codes ≡ ok built
    → port_of code built ≡ some port
    → build_port s code ≡ ok port
unfolding build_payment_providers port_of
built_from s [] built code port b h = ground (arith, b, h)
built_from s (c ∷ codes) built code port b h = elim (Result-cases (build_port s c)) [
  | inr (x, e) ↦ absurd (ground (arith, e, b))
  | inl (first, e) ↦ elim (Result-cases (build_payment_providers s codes)) [
    | inr (x, f) ↦ absurd (ground (arith, e, f, b))
    | inl (rest, f) ↦ ground (arith, e, f, b, h, built_from s codes rest code port f)
  ]
]

-- The providers that are built from the settings, whichever are enabled, give checkouts that name
-- the payment and the provider, as opening a payment relies on, if stripe's do.
pub build_payment_providers-IsHonest :
    (s : Settings) (codes : List ℕ) (built : List (ℕ × Port)) (env : Environment)
    → StripeNames s
    → build_payment_providers s codes ≡ ok built
    → IsHonest (record env { providers = λ code. port_of code built })
build_payment_providers-IsHonest s codes built env honest b provider port p url k found named h =
    build_port-names s provider port p url k honest (built_from s codes built provider port b found)
      h
