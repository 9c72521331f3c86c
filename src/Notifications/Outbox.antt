-- ===== src/Notifications/Outbox.antt =====
-- core/notifications/models.py, sms_cap.py, and what the dispatcher is given. UUIDs, channels,
-- addresses, templates, parameters and errors are numbers; an instant counts microseconds.
use backend_core.Common.{
  ℕ, ◌+◌, ◌/◌, Bool, true, ◌&&◌, Option, List, ◌==◌, leb, if◌then◌else◌, same_option,
}
use backend_core.Shared.Errors.{Result}
use backend_core.Shared.Clock.{seconds}

pub data Status : Type 0 where
  pending sending sent failed dead : Status

-- `NotificationOutbox`
pub record Row : Type 0 where
  pub id : ℕ
  pub notification_id : ℕ
  pub tenant_id : Option ℕ
  pub channel : ℕ
  pub recipient : ℕ
  pub template_key : ℕ
  pub locale : ℕ
  pub params : ℕ
  pub status : Status
  pub attempts : ℕ
  pub next_retry_at : ℕ
  pub last_error : Option ℕ
  pub provider_message_id : Option ℕ
  pub sent_at : Option ℕ

-- `NotificationSetting`
pub record Setting : Type 0 where
  pub tenant_id : ℕ
  pub channel : ℕ
  pub config_encrypted : ℕ
  pub is_enabled : Bool

-- `RenderedMessage`
pub record Message : Type 0 where
  pub notification_id : ℕ
  pub address : ℕ
  pub subject : Option ℕ
  pub body : ℕ
  pub locale : ℕ

-- What `send` ends in: `ChannelResult`, `ChannelPermanentError`, or any other exception.
pub data Outcome : Type 0 where
  delivered : Option ℕ → Outcome
  permanent temporary : ℕ → Outcome

-- `NotificationChannel`; the service behind it may answer each time differently.
pub record Channel : Type 0 where
  pub configured : Bool
  pub send : ℕ → Message → Outcome

-- The arguments of a pass and the settings it reads: `TemplateRegistry.render` (subject and body),
-- `build_channel_from_config` of a decrypted blob, the platform's channels, the texts of the
-- dispatcher's own errors.
pub record DispatcherConfig : Type 0 where
  pub render : ℕ → ℕ → ℕ → Result (Option ℕ × ℕ)
  pub build_channel : ℕ → ℕ → Result Channel
  pub channels : ℕ → Option Channel
  pub max_attempts : ℕ
  pub lease : ℕ
  pub sms_cap : ℕ
  pub unknown_template : ℕ
  pub cap_exceeded : ℕ

-- The tables, the counters of Redis by bucket and day, and the events published, newest first.
pub record Dispatch : Type 0 where
  pub now : ℕ
  pub outbox : List Row
  pub settings : List Setting
  pub counters : Option ℕ → ℕ → ℕ
  pub published : List ℕ

abbrev pub sms : ℕ
sms = 2

-- `strftime("%Y%m%d")`
unfoldable pub day_of : ℕ → ℕ
day_of t = t / seconds 86400

-- `INCR` of a bucket's counter. The key outlives its day, so no counter of today expires.
unfoldable pub incr : Option ℕ → ℕ → (Option ℕ → ℕ → ℕ) → Option ℕ → ℕ → ℕ
incr bucket day counters b d =
    if same_option b bucket && d == day then counters b d + 1 else counters b d

-- `SmsDailyCap.try_consume`
unfoldable pub try_consume : ℕ → Option ℕ → Dispatch → Bool × Dispatch
unfolding day_of incr
try_consume cap tenant st =
    if cap == 0
    then (true, st)
    else let day = day_of st.now in
      let counters = incr tenant day st.counters in
      (leb (counters tenant day) cap, record st { counters = counters })
