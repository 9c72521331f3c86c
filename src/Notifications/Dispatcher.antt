-- ===== src/Notifications/Dispatcher.antt =====
-- core/notifications/dispatcher.py: one pass over the outbox. The clock is read once in a pass.
use backend_core.Common.{
  ℕ, ◌+◌, ◌-◌, ◌*◌, ◌^◌, Bool, true, false, ◌&&◌, Option, none, some, List, [], ◌∷◌, ◌==◌, leb, any,
  find, select, take, map, length, if◌then◌else◌,
}
use backend_core.Shared.Errors.{
  Error, Result, ok, err, Action, pure, raise, raise_if, gets, query, modify, ◌>>=◌, ◌>>◌,
}
use backend_core.Notifications.Outbox.{
  Status, Row, Setting, Outcome, delivered, permanent, temporary, Channel, DispatcherConfig,
  Dispatch, sms, try_consume,
}
use backend_core.Shared.Clock.{seconds}

-- `_DUE_STATES`
unfoldable pub is_due_state : Status → Bool
is_due_state Status.pending = true
is_due_state Status.failed = true
is_due_state Status.sending = true
is_due_state _ = false

unfoldable pub is_due_row : ℕ → Row → Bool
unfolding is_due_state
is_due_row now r = is_due_state r.status && leb r.next_retry_at now

-- `ORDER BY next_retry_at`
unfoldable pub insert_row : Row → List Row → List Row
insert_row r [] = r ∷ []
insert_row r (x ∷ rows) =
    if leb r.next_retry_at x.next_retry_at then r ∷ x ∷ rows else x ∷ insert_row r rows

unfoldable pub sort_rows : List Row → List Row
unfolding insert_row
sort_rows [] = []
sort_rows (r ∷ rows) = insert_row r (sort_rows rows)

unfoldable pub due_rows : ℕ → Dispatch → List Row
unfolding is_due_row sort_rows
due_rows batch st = take batch (sort_rows (select (is_due_row st.now) st.outbox))

-- A claimed row: one attempt more, and a lease.
unfoldable pub claim_row : ℕ → ℕ → Row → Row
claim_row now lease r = record r {
  status = Status.sending;
  attempts = r.attempts + 1;
  next_retry_at = now + lease;
}

-- `session.get` and the change of one row
unfoldable pub update_row : ℕ → (Row → Row) → Action Dispatch (Unit {0})
update_row i f =
    modify (λ st. record st { outbox = map (λ r. if r.id == i then f r else r) st.outbox })

-- The largest SMALLINT
abbrev pub largest_attempts : ℕ
largest_attempts = 32767

unfoldable pub write_claims : ℕ → ℕ → List Row → Action Dispatch (Unit {0})
unfolding claim_row
write_claims now lease [] = pure tt
write_claims now lease (r ∷ rows) =
    update_row r.id (claim_row now lease) >> write_claims now lease rows

-- `_claim_batch`, with no row locked by another worker; the database refuses a count beyond SMALLINT.
unfoldable pub claim_batch : DispatcherConfig → ℕ → Action Dispatch (List Row)
unfolding due_rows write_claims claim_row
claim_batch env batch = do
  rows ← gets (due_rows batch)
  now ← gets (λ st. st.now)
  raise_if (any (λ r. leb largest_attempts r.attempts) rows) Error.overflow_error
  write_claims now env.lease rows
  pure (map (claim_row now env.lease) rows)

-- `channels[row.channel]`; a missing key is an error of no domain.
abbrev pub platform_channel : DispatcherConfig → ℕ → Result Channel
platform_channel env channel = elim (env.channels channel) [
  | none ↦ err Error.value_error
  | some c ↦ ok c
]

unfoldable pub channel_of : DispatcherConfig → ℕ → Option ℕ → List Setting → Result Channel
channel_of env channel none settings = platform_channel env channel
channel_of env channel (some t) settings =
    elim (find (λ s. (s.tenant_id == t && s.channel == channel) && s.is_enabled) settings) [
      | none ↦ platform_channel env channel
      | some s ↦ env.build_channel channel s.config_encrypted
    ]

-- `_resolve_channel`
abbrev pub resolve_channel : DispatcherConfig → Row → List Setting → Result Channel
resolve_channel env r settings = channel_of env r.channel r.tenant_id settings

-- `_mark_sent`
unfoldable pub sent_row : ℕ → Option ℕ → Row → Row
sent_row now message r = record r {
  status = Status.sent;
  sent_at = some now;
  provider_message_id = message;
  last_error = none;
}

-- `_reschedule`: 1, 2, 4, 8, then 16 minutes
abbrev pub backoff : ℕ → ℕ
backoff attempts = let delay = 60 * 2 ^ (attempts - 1) in if leb delay 960 then delay else 960

unfoldable pub failed_row : ℕ → ℕ → ℕ → Row → Row
failed_row now attempts error r = record r {
  status = Status.failed;
  next_retry_at = now + seconds (backoff attempts);
  last_error = some error;
}

unfoldable pub dead_row : ℕ → Row → Row
dead_row error r = record r { status = Status.dead; last_error = some error }

-- `_dead`
unfoldable pub bury : Row → ℕ → Action Dispatch (Unit {0})
unfolding update_row dead_row
bury r error = do
  update_row r.id (dead_row error)
  modify (λ st. record st { published = r.notification_id ∷ st.published })

-- The daily cap holds for a configured SMS channel.
unfoldable pub let_through : DispatcherConfig → Row → Channel → Action Dispatch Bool
unfolding try_consume
let_through env r channel st =
    if r.channel == sms && channel.configured
    then (let (allowed, st') = try_consume env.sms_cap r.tenant_id st in (ok allowed, st'))
    else (ok true, st)

-- The row after what its channel did.
unfoldable pub finish : DispatcherConfig → Row → Outcome → Action Dispatch (Unit {0})
unfolding update_row sent_row failed_row bury
finish env r (delivered message) st = update_row r.id (sent_row st.now message) st
finish env r (permanent error) st = bury r error st
finish env r (temporary error) st =
    if leb env.max_attempts r.attempts
    then bury r error st
    else update_row r.id (failed_row st.now r.attempts error) st

unfoldable pub deliver_message :
    DispatcherConfig → Row → Option ℕ × ℕ → Channel → Action Dispatch (Unit {0})
unfolding let_through finish bury
deliver_message env r rendered channel = do
  allowed ← let_through env r channel
  now ← gets (λ st. st.now)
  elim allowed [
    | false ↦ bury r env.cap_exceeded
    | true ↦ finish env r (
        channel.send now (record {
          notification_id = r.notification_id;
          address = r.recipient;
          subject = rendered.0;
          body = rendered.1;
          locale = r.locale;
        }))
  ]

-- `_process_row`; it raises what rendering and the channel's configuration raise.
unfoldable pub process_row : DispatcherConfig → Row → Action Dispatch (Unit {0})
unfolding deliver_message bury
process_row env r = elim (env.render r.template_key r.locale r.params) [
  | err Error.not_found ↦ bury r env.unknown_template
  | err e ↦ raise e
  | ok rendered ↦ query (λ st. resolve_channel env r st.settings) >>= deliver_message env r rendered
]

-- The loop over the claimed rows: an exception is logged, and the row stays under its lease.
unfoldable pub process_rows : DispatcherConfig → List Row → Dispatch → Dispatch
unfolding process_row
process_rows env [] st = st
process_rows env (r ∷ rows) st = process_rows env rows (process_row env r st).1

unfoldable pub dispatch_due_notifications : DispatcherConfig → ℕ → Action Dispatch ℕ
unfolding claim_batch process_rows
dispatch_due_notifications env batch = do
  claimed ← claim_batch env batch
  modify (process_rows env claimed)
  pure (length claimed)
