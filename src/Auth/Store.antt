-- ===== src/Auth/Store.antt =====
-- core/auth/models.py and what a request to `AuthService` sees: the tables, Redis, which no rollback
-- touches, and what was published and mailed. UUIDs, addresses, hashes and tokens are numbers, the
-- empty text 0; an instant counts microseconds.
use backend_core.Common.{
  ℕ, ◌+◌, Bool, true, false, Option, none, some, List, [], ◌∷◌, ◌++◌, ◌==◌, find, ◌≡◌, arith,
}
use backend_core.Common.Table.{Schema, get_row, taken, conflicts, replace}
use backend_core.Shared.Errors.{Error, Result, ok, err, Action, gets, modify, raise_if, ◌>>=◌, ◌>>◌}
use backend_core.Shared.Context.{Actor, user}
use backend_core.Auth.Redis.{Redis}

pub data UserStatus : Type 0 where
  active blocked : UserStatus

pub record User : Type 0 where
  pub id : ℕ
  pub email : ℕ
  pub password_hash : ℕ
  pub locale : ℕ
  pub status : UserStatus
  pub last_login_at : Option ℕ

pub record UserTotp : Type 0 where
  pub user_id : ℕ
  pub secret_encrypted : ℕ
  pub confirmed_at : Option ℕ

pub record UserRecoveryCode : Type 0 where
  pub id : ℕ
  pub user_id : ℕ
  pub code_hash : ℕ
  pub used_at : Option ℕ

pub data RevokedReason : Type 0 where
  by_logout reuse_detected user_blocked password_change : RevokedReason

pub record RefreshToken : Type 0 where
  pub id : ℕ
  pub user_id : ℕ
  pub family_id : ℕ
  pub token_hash : ℕ
  pub expires_at : ℕ
  pub rotated_at : Option ℕ
  pub revoked_at : Option ℕ
  pub revoked_reason : Option RevokedReason

abbrev pub is_active_user : UserStatus → Bool
is_active_user UserStatus.active = true
is_active_user _ = false

-- `uq_users_email_lower`; addresses are stored in lower case.
abbrev pub email_clash : User → User → Bool
email_clash a b = a.email == b.email

pub email_clash_sym : (a b : User) → email_clash a b ≡ email_clash b a
email_clash_sym a b = ground arith

abbrev pub users_schema : Schema User
users_schema = record { id = λ u. u.id; clash = email_clash; clash_sym = email_clash_sym }

-- `uq_refresh_tokens_token_hash`
abbrev pub token_clash : RefreshToken → RefreshToken → Bool
token_clash a b = a.token_hash == b.token_hash

pub token_clash_sym : (a b : RefreshToken) → token_clash a b ≡ token_clash b a
token_clash_sym a b = ground arith

abbrev pub tokens_schema : Schema RefreshToken
tokens_schema = record { id = λ t. t.id; clash = token_clash; clash_sym = token_clash_sym }

pub data AuthEvent : Type 0 where
  registered login_succeeded password_changed password_reset_requested : ℕ → AuthEvent
  two_factor_enabled two_factor_disabled : ℕ → AuthEvent
  login_failed : Option ℕ → AuthEvent

-- The tables, with the events that are published when the transaction commits, newest first.
pub record Tables : Type 0 where
  pub users : List User
  pub totps : List UserTotp
  pub recovery_codes : List UserRecoveryCode
  pub tokens : List RefreshToken
  pub outbox : List AuthEvent

-- `next_id` is the next UUID, and the next draw of `secrets`; `saved` is what is committed.
pub record Auth : Type 0 where
  pub now : ℕ
  pub next_id : ℕ
  pub tables : Tables
  pub saved : Tables
  pub redis : Redis
  pub published : List AuthEvent
  pub mails : List (ℕ × ℕ)

-- The claims of an access token.
pub record Claims : Type 0 where
  pub sub : ℕ
  pub tenant : Option ℕ
  pub iat : ℕ
  pub exp : ℕ
  pub jti : ℕ

-- The libraries: argon2, JWT, pyotp, Fernet, SHA-256, the draws of `secrets`, and `strip` with `lower`.
-- `decrypt` may raise.
pub record Crypto : Type 0 where
  pub normalize : ℕ → ℕ
  pub hash_password : ℕ → ℕ → ℕ
  pub verify_hash : ℕ → ℕ → Bool
  pub dummy_hash : ℕ
  pub opaque_token : ℕ → ℕ
  pub hash_token : ℕ → ℕ
  pub sign : Claims → ℕ
  pub totp_secret : ℕ → ℕ
  pub totp_matches : ℕ → ℕ → ℕ → Bool
  pub encrypt : ℕ → ℕ
  pub decrypt : ℕ → Result ℕ
  pub recovery_code : ℕ → ℕ
  pub hash_recovery_code : ℕ → ℕ

-- `Settings`, as far as the service reads it
pub record AuthSettings : Type 0 where
  pub register_ip_limit : ℕ
  pub access_ttl : ℕ
  pub refresh_ttl : ℕ
  pub challenge_ttl : ℕ
  pub reset_ttl : ℕ
  pub max_failures : ℕ
  pub lockout_seconds : ℕ

abbrev pub new_id : Action Auth ℕ
new_id a = (ok a.next_id, record a { next_id = a.next_id + 1 })

abbrev pub read_now : Action Auth ℕ
read_now = gets (λ a. a.now)

abbrev pub on_tables : (Tables → Tables) → Action Auth (Unit {0})
on_tables f = modify (λ a. record a { tables = f a.tables })

-- A call of Redis, outside the transaction.
abbrev pub on_redis : {B : Type 0} → (ℕ → Redis → B × Redis) → Action Auth B
on_redis f a = let (b, r) = f a.now a.redis in (ok b, record a { redis = r })

abbrev pub emit : AuthEvent → Action Auth (Unit {0})
emit e = on_tables (λ t. record t { outbox = e ∷ t.outbox })

-- `Service.emit_now`
abbrev pub emit_now : AuthEvent → Action Auth (Unit {0})
emit_now e = modify (λ a. record a { published = e ∷ a.published })

-- `session.commit()` in the middle of a request
abbrev pub commit : Action Auth (Unit {0})
commit = modify (λ a. record a { saved = a.tables })

-- The unit of work of one request: what was not committed is rolled back on an exception.
unfoldable pub request : {B : Type 0} → Action Auth B → Action Auth B
request m a =
    let (r, a') = m (record a { saved = a.tables }) in
    elim r [
      | ok b ↦ (ok b, record a' { saved = a'.tables })
      | err e ↦ (err e, record a' { tables = a'.saved })
    ]

-- `get_by_email`
unfoldable pub get_by_email : Crypto → ℕ → Tables → Option User
get_by_email x email t = find (λ u. u.email == x.normalize email) t.users

abbrev pub get_user_row : ℕ → Tables → Option User
get_user_row i t = get_row users_schema i t.users

-- `get_or_raise`
unfoldable pub user_or_raise : ℕ → Tables → Result User
user_or_raise i t = elim (get_user_row i t) [ none ↦ err Error.not_found | some u ↦ ok u ]

abbrev pub get_totp : ℕ → Tables → Option UserTotp
get_totp i t = find (λ r. r.user_id == i) t.totps

-- `_actor_user_id`
unfoldable pub auth_actor : Actor → Result ℕ
auth_actor (user (some u)) = ok u
auth_actor _ = err Error.invariant_violation

-- The flush of a new or a changed row.
unfoldable pub add_user : User → Action Auth (Unit {0})
add_user u = do
  raise_if (taken users_schema u (← gets (λ a. a.tables.users))) Error.integrity_error
  on_tables (λ t. record t { users = t.users ++ u ∷ [] })

unfoldable pub save_user : User → Action Auth (Unit {0})
save_user u = do
  raise_if (conflicts users_schema u (← gets (λ a. a.tables.users))) Error.integrity_error
  on_tables (λ t. record t { users = replace users_schema u t.users })

unfoldable pub add_token : RefreshToken → Action Auth (Unit {0})
add_token r = do
  raise_if (taken tokens_schema r (← gets (λ a. a.tables.tokens))) Error.integrity_error
  on_tables (λ t. record t { tokens = t.tokens ++ r ∷ [] })
