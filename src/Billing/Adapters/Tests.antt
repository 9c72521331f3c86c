-- ===== src/Billing/Adapters/Tests.antt =====
-- Runs of the adapters on small requests, and the theorems at such inputs.
use backend_core.Common.{
  ℕ, ◌+◌, ◌-◌, ◌≡◌, ◌↔◌, refl, true, false, Option, none, some, List, [], ◌∷◌, ◌==◌, arith,
}
use backend_core.Shared.Errors.{Error, ok, err, unit_of_work}
use backend_core.Shared.Clock.{DateTime}
use backend_core.Billing.State.{PaymentStatus, can_transition, assert_transition}
use backend_core.Billing.Models.{
  Payment, Purpose, Reference, IdempotencyKey, CallbackAction, words, same_key, both_some,
  same_dedup, same_action,
}
use backend_core.Billing.Store.{Db, IsConsistent, save_payment}
use backend_core.Billing.Finalize.{mark_pending}
use backend_core.Billing.Payments.{Environment, Port}
use backend_core.Billing.Opening.{IsHonest}
use backend_core.Billing.Intake.{OnlyJournalled}
use backend_core.Billing.Webhooks.{
  ProviderCallback, Adapter, is_read_only, process, dispatch, deliver, transition, attempt,
  apply_action, elevated, one_or_none, get_one_or_none, by_reference, by_transaction, first_found,
  find_payment, amount_ok, claimed, is_delivered, insert_webhook, settle,
}
use backend_core.Billing.Adapters.Key
use backend_core.Billing.Adapters.Python.{
  decoded, Python, Fields, RawWebhook, get, get_text, header, truthy, compare_digest, nan, whole,
  nil, field, object, string, integer,
}
use backend_core.Billing.Adapters.Payme.{
  Payme, payme, uzs, to_tiyin, minor_units_from_tiyin, whole_sums,
}
use backend_core.Billing.Adapters.Click.{Click, click}
use backend_core.Billing.Adapters.Payme
use backend_core.Billing.Adapters.Click
use backend_core.Billing.Adapters.Registry.{
  Settings, payme_provider, click_provider, build_port, port_of, build_payment_providers,
}
use backend_core.Billing.Adapters.Sums.{
  to_tiyin-minor_units_from_tiyin, build_payment_providers-IsHonest,
}
use backend_core.Billing.Adapters.Forged.{
  Carries, IsSigned, process-Payme_forged, process-Click_forged,
}
use backend_core.Billing.Adapters.Replies.{process-Payme_repeated}

abbrev noon : DateTime
noon = record { year = 2026; month = 1; day = 31; micros = 43200000000 }

abbrev created : Payment
created = record {
  id = 30;
  tenant_id = 7;
  subscription_id = none;
  purpose = Purpose.commerce_order;
  reference = Reference.uuid 21;
  amount = 500;
  currency = uzs;
  status = PaymentStatus.created;
  provider = payme;
  provider_transaction_id = none;
  idempotency_key = IdempotencyKey.order_key 21;
  failure_code = none;
  created_at = noon;
  paid_at = none;
  pending_at = none;
  closed_at = none;
  checkout_url = 5;
  expires_at = none;
}

abbrev start : Db
start = record {
  now = noon;
  next_id = 40;
  plans = [];
  subscriptions = [];
  payments = created ∷ [];
  webhooks = [];
  outbox = [];
  audit = [];
}

start-IsConsistent : IsConsistent start
start-IsConsistent = record { one_live = tt; one_key = (refl, tt); one_delivery = tt }

-- Text 500 is the body of a CreateTransaction for payment 30 (text 1030), text 77 the header with
-- the credentials 78, and text 79 the amount "NaN".
abbrev params : Fields
params = field Key.id (string 99) (
    field Key.account (object (field Key.payment_id (string 1030) nil))
      (field Key.amount (integer false 50000) nil))

abbrev request : Fields
request = field Key.method (string 22) (field Key.params (object params) nil)

abbrev python : Python
python = record {
  loads = λ t. decoded (object request);
  show = λ j. 1;
  uuid = λ t. some (t - 1000);
  show_uuid = λ i. i + 1000;
  int = λ t. some (true, 5017);
  decimal = λ t. elim (t == 79) [ true ↦ some nan | false ↦ some (whole 500) ];
  lower = λ t. t;
  is_ascii = λ t. elim (t == 80) [ true ↦ false | false ↦ true ];
  is_basic = λ t. true;
  credentials = λ t. some (t + 1);
  failure_code = λ t. words t;
  digest = λ parts. 600;
  milliseconds = λ d. d.day;
}

abbrev payme_account : Payme
payme_account = record { merchant_id = 1; expected_auth = 78; encode = λ ps. 5 }

abbrev payme_only : ℕ → Option (Adapter RawWebhook Payme.Response)
payme_only n = some (Payme.adapter python payme_account)

abbrev digest : RawWebhook → ℕ
digest raw = 8

abbrev genuine : RawWebhook
genuine = record { headers = (Key.authorization, 77) ∷ []; body = 500; form = [] }

abbrev creation : ProviderCallback
creation = Payme.callback python CallbackAction.create params true

abbrev opened : Db
opened = (process payme_only digest payme genuine start).1

abbrev answer : Payme.Response
answer = Payme.result (Payme.created 31 1030 Payme.open_)

creation_parsed : Payme.parse_webhook python payme_account genuine ≡ ok creation
unfolding Payme.parse_webhook Payme.parse_params Payme.auth_ok Payme.request_of Payme.action_of
    Payme.method_action Payme.or_empty get header truthy compare_digest
creation_parsed = refl

creation_runs : process payme_only digest payme genuine start ≡ (ok answer, opened)
unfolding process unit_of_work dispatch deliver transition attempt apply_action elevated
    is_read_only one_or_none get_one_or_none by_reference by_transaction first_found find_payment
    amount_ok claimed is_delivered insert_webhook settle same_dedup same_action mark_pending
    assert_transition can_transition save_payment same_key both_some Payme.parse_webhook
    Payme.parse_params Payme.auth_ok Payme.request_of Payme.action_of Payme.method_action
    Payme.or_empty Payme.callback Payme.build_webhook_response Payme.success_result
    Payme.closed_creation get header truthy compare_digest
creation_runs = refl

process-Payme_repeated_example :
    process payme_only digest payme genuine opened
    ≡ (ok answer, record opened { next_id = opened.next_id + 1 })
process-Payme_repeated_example =
    process-Payme_repeated python payme_account payme_only digest genuine creation start opened
      answer start-IsConsistent refl creation_parsed
      (unfold is_read_only in unfold Payme.callback in refl) (unfold Payme.callback in refl)
      creation_runs

-- The credentials of text 75 are 76.
abbrev forged : RawWebhook
forged = record genuine { headers = (Key.authorization, 75) ∷ [] }

forged_credentials : Carries python forged 78 → ⊥
unfolding header
forged_credentials (h, e, c) = ground (arith, e, c)

process-Payme_forged_example : OnlyJournalled start (process payme_only digest payme forged start).1
process-Payme_forged_example =
    process-Payme_forged python payme_account payme_only digest forged start refl forged_credentials

-- The credentials of text 79 are text 80, which is not ASCII.
abbrev accented : RawWebhook
accented = record genuine { headers = (Key.authorization, 79) ∷ [] }

abbrev click_account : Click
click_account = record {
  service_id = 1;
  merchant_id = 2;
  secret_key = 3;
  zero_text = 70;
  link = λ service merchant amount id url. 5;
}

abbrev click_only : ℕ → Option (Adapter RawWebhook Click.Response)
click_only n = some (Click.adapter python click_account)

-- A completion that Click reports as failed with -5017; 600 is the signature.
abbrev failed_form : List (ℕ × ℕ)
failed_form =
    (Key.action, Click.complete)
    ∷ (Key.click_trans_id, 99)
    ∷ (Key.merchant_trans_id, 1030)
    ∷ (Key.error, 55)
    ∷ (Key.sign_string, 600)
    ∷ []

abbrev failure : RawWebhook
failure = record { headers = []; body = 0; form = failed_form }

abbrev cancellation : ProviderCallback
cancellation = Click.callback python failed_form 99 CallbackAction.confirm (500, uzs) true

cancellation_parsed : Click.parse_webhook python click_account failure ≡ ok cancellation
unfolding Click.parse_webhook Click.parse_form Click.form_action Click.form_amount
    Click.minor_units_from_sum Click.sign_ok Click.or_blank get_text compare_digest
cancellation_parsed = refl

abbrev unsigned : RawWebhook
unsigned = record failure { form = (Key.sign_string, 601) ∷ failed_form }

unsigned_form : IsSigned python click_account unsigned.form → ⊥
unfolding Click.or_blank get_text
unsigned_form (code, e, s) = ground (arith, s)

process-Click_forged_example :
    OnlyJournalled start (process click_only digest click unsigned start).1
process-Click_forged_example =
    process-Click_forged python click_account click_only digest unsigned start refl unsigned_form

abbrev no_number : RawWebhook
no_number = record failure { form = (Key.amount, 79) ∷ failed_form }

to_tiyin-minor_units_from_tiyin_example :
    (to_tiyin 500 uzs ≡ ok 50000) ↔ (minor_units_from_tiyin (integer false 50000) ≡ ok 500)
to_tiyin-minor_units_from_tiyin_example = to_tiyin-minor_units_from_tiyin 500 50000

abbrev settings : Settings
settings = record {
  payme_merchant_id = 1;
  payme_merchant_key = 2;
  payme_auth = λ k. k + 76;
  payme_encode = λ ps. 5;
  click_service_id = 1;
  click_merchant_id = 2;
  click_secret_key = 3;
  click_zero = 70;
  click_link = λ service merchant amount id url. 5;
  stripe_port = err Error.payment_provider_error;
}

abbrev both : List (ℕ × Port)
both =
    (payme, Payme.create_checkout payme_account) ∷ (click, Click.create_checkout click_account) ∷ []

both_built : build_payment_providers settings (payme ∷ click ∷ []) ≡ ok both
unfolding build_payment_providers build_port payme_provider click_provider
both_built = refl

abbrev nowhere : Environment
nowhere = record {
  providers = λ n. none;
  is_space = λ ch. false;
  is_printable = λ ch. true;
  urlsplit = λ url. err Error.value_error;
}

build_payment_providers-IsHonest_example :
    IsHonest (record nowhere { providers = λ code. port_of code both })
build_payment_providers-IsHonest_example =
    build_payment_providers-IsHonest settings (payme ∷ click ∷ []) both nowhere
      (λ port p url k e h. ground (arith, e)) both_built
