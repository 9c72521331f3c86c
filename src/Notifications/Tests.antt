-- ===== src/Notifications/Tests.antt =====
-- Passes of the dispatcher over two rows, and requests under a cap of one SMS a day.
use backend_core.Common.{◌-◌, ◌≤◌, ◌≡◌, refl, true, false, none, some, ℕ, List, [], ◌∷◌, arith, inr}
use backend_core.Shared.Errors.{Error, ok, err}
use backend_core.Notifications.Outbox.{Status, Row, temporary, Channel, DispatcherConfig, Dispatch}
use backend_core.Notifications.Outbox.{try_consume}
use backend_core.Notifications.Dispatcher.{
  is_due_state, channel_of, dispatch_due_notifications, claim_batch, due_rows, is_due_row,
  sort_rows, insert_row, write_claims, update_row, claim_row, process_rows, process_row,
  deliver_message, let_through, finish, failed_row, bury, dead_row, sent_row,
}
use backend_core.Notifications.Rows.{of_id}
use backend_core.Notifications.Delivery.{IsServed}
use backend_core.Notifications.Passes.{passes, AreClaimed, passes-IsFinished}
use backend_core.Notifications.Unresolved.{passes-unresolved}
use backend_core.Notifications.Caps.{let_through_of, let_through_of-le}

-- A channel that is always busy.
abbrev busy : Channel
busy = record { configured = true; send = λ t m. temporary 9 }

abbrev environment : DispatcherConfig
environment = record {
  render = λ key locale params. ok (none, 5);
  build_channel = λ channel blob. err Error.value_error;
  channels = λ channel. some busy;
  max_attempts = 2;
  lease = 300000000;
  sms_cap = 1;
  unknown_template = 20;
  cap_exceeded = 21;
}

abbrev row : Row
row = record {
  id = 1;
  notification_id = 2;
  tenant_id = none;
  channel = 1;
  recipient = 3;
  template_key = 4;
  locale = 5;
  params = 6;
  status = Status.pending;
  attempts = 0;
  next_retry_at = 0;
  last_error = none;
  provider_message_id = none;
  sent_at = none;
}

-- Tenant 4 has a configuration of its own, which cannot be used.
abbrev start : Dispatch
start = record {
  now = 0;
  outbox = [];
  settings = record { tenant_id = 4; channel = 1; config_encrypted = 7; is_enabled = true } ∷ [];
  counters = λ tenant day. 0;
  published = [];
}

abbrev stray : Row
stray = record row { tenant_id = some 4 }

row-IsServed : IsServed environment row start.settings
unfolding channel_of
row-IsServed = (inr ((none, 5), refl), (busy, refl))

due : is_due_state Status.pending ≡ true
unfolding is_due_state
due = refl

abbrev times : List ℕ
times = 0 ∷ 960000000 ∷ []

-- Two rows: one is served, the other's channel cannot be built.
abbrev crowded : Dispatch
crowded = record start { outbox = record stray { id = 8 } ∷ row ∷ [] }

crowded-AreClaimed : AreClaimed environment 50 times crowded
unfolding dispatch_due_notifications claim_batch due_rows is_due_row is_due_state sort_rows
    insert_row write_claims update_row claim_row process_rows process_row channel_of deliver_message
    let_through try_consume finish failed_row bury dead_row sent_row passes
crowded-AreClaimed = ((2, refl), ((2, refl), tt))

passes-IsFinished_example :
    (r' : Row) × (of_id 1 (passes environment 50 times crowded).outbox ≡ r' ∷ [])
    × (is_due_state r'.status ≡ false)
passes-IsFinished_example =
    passes-IsFinished environment 50 times row crowded row-IsServed crowded-AreClaimed (omega arith)
      refl (omega arith, (omega arith, tt)) (omega arith) (omega arith)

unusable : channel_of environment 1 (some 4) start.settings ≡ err Error.value_error
unfolding channel_of
unusable = refl

passes-unresolved_example :
    (r' : Row) × (of_id 8 (passes environment 50 times crowded).outbox ≡ r' ∷ [])
    × (is_due_state r'.status ≡ true)
    × (r'.attempts ≡ 2)
passes-unresolved_example =
    passes-unresolved environment 50 times (record stray { id = 8 }) (none, 5) Error.value_error
      crowded refl unusable crowded-AreClaimed (omega arith) refl due
      (omega arith, (omega arith, tt))

let_through_of-le_example :
    let_through_of 1 (some 4) 0 ((some 4, 10) ∷ (none, 20) ∷ (some 4, 30) ∷ []) start ≤ 1 - 0
let_through_of-le_example =
    let_through_of-le 1 (some 4) 0 ((some 4, 10) ∷ (none, 20) ∷ (some 4, 30) ∷ []) start
      (omega arith)
