-- ===== src/Auth/Accounts.antt =====
-- core/auth/service.py and core/auth/security/passwords.py: registration, login and passwords.
use backend_core.Common.{
  ℕ, Bool, true, false, not, Option, none, some, ◌∷◌, ◌==◌, is_some, if◌then◌else◌,
}
use backend_core.Shared.Errors.{
  Error, Result, Action, pure, raise, raise_if, or_raise, lift, gets, modify, query, ◌>>=◌, ◌>>◌,
}
use backend_core.Shared.Context.{Actor}
use backend_core.Auth.Redis.{
  Key, Account, hit, is_locked, record_failure, clear, put_token, consume,
}
use backend_core.Auth.Store.{
  User, UserStatus, UserTotp, password_change, Auth, Crypto, AuthSettings, registered, login_failed,
  password_changed, password_reset_requested, new_id, on_redis, emit, emit_now, get_by_email,
  user_or_raise, get_totp, auth_actor, add_user, save_user,
}
use backend_core.Auth.Sessions.{
  TokenPair, issue_tokens, revoke, revoke_all_user_tokens, active_user,
}
use backend_core.Auth.Factors.{issue_two_factor_challenge, reset_ns}

abbrev pub register_scope : ℕ → Key
register_scope ip = record { prefix = 1; name = ip; part = 0 }

abbrev pub login_scope : ℕ → Key
login_scope ip = record { prefix = 1; name = ip; part = 1 }

abbrev pub reset_scope : ℕ → Key
reset_scope u = record { prefix = 1; name = u; part = 3 }

-- `ip or "unknown"`
abbrev pub or_unknown : Option ℕ → ℕ
or_unknown none = 0
or_unknown (some ip) = ip

-- The limiter, as a guard.
unfoldable pub limit_hits : Key → ℕ → ℕ → Action Auth (Unit {0})
unfolding hit
limit_hits k limit window = do
  allowed ← on_redis (λ now r. hit now k limit window r)
  raise_if (not allowed) Error.rate_limited

unfoldable pub register : Crypto → AuthSettings → ℕ → ℕ → ℕ → Option ℕ → Action Auth User
unfolding limit_hits get_by_email add_user
register x s email password locale ip = do
  limit_hits (register_scope (or_unknown ip)) s.register_ip_limit 3600
  let normalized = x.normalize email
  raise_if (is_some (get_by_email x normalized (← gets (λ a. a.tables)))) Error.conflict
  id ← new_id
  salt ← new_id
  let person : User = record {
    id = id;
    email = normalized;
    password_hash = x.hash_password salt password;
    locale = locale;
    status = UserStatus.active;
    last_login_at = none;
  }
  add_user person
  emit (registered id)
  pure person

-- `verify_password`: nobody has the password of an unknown user.
unfoldable pub verify_password : Crypto → Option ℕ → ℕ → Bool
verify_password x none password = false
verify_password x (some hash) password =
    x.verify_hash (if hash == 0 then x.dummy_hash else hash) password

-- `account_key`
abbrev pub account_key : Option User → ℕ → Account
account_key none normalized = record { by_email = true; name = normalized }
account_key (some u) normalized = record { by_email = false; name = u.id }

abbrev pub hash_of : Option User → Option ℕ
hash_of none = none
hash_of (some u) = some u.password_hash

abbrev pub id_of : Option User → Option ℕ
id_of none = none
id_of (some u) = some u.id

-- The user whom the password proves, if the account is active.
abbrev pub proven_user : Crypto → Option User → ℕ → Option User
proven_user x found password =
    if verify_password x (hash_of found) password then active_user found else none

-- `LoginResult`
pub data LoginResult : Type 0 where
  tokens : TokenPair → LoginResult
  challenge : ℕ → LoginResult

abbrev pub is_confirmed : Option UserTotp → Bool
is_confirmed none = false
is_confirmed (some row) = is_some row.confirmed_at

-- The failed attempt is counted and published, whatever the transaction does.
unfoldable pub refuse_login : AuthSettings → Option User → Account → Action Auth LoginResult
unfolding record_failure
refuse_login s found account = do
  on_redis (λ now r. (tt {0}, record_failure s.max_failures s.lockout_seconds now account r))
  emit_now (login_failed (id_of found))
  raise Error.authentication_failed

-- After the password, the second factor if the user has one.
unfoldable pub admit : Crypto → AuthSettings → User → Account → Action Auth LoginResult
unfolding clear issue_two_factor_challenge issue_tokens
admit x s u account = do
  on_redis (λ now r. (tt {0}, clear account r))
  factor ← gets (λ a. get_totp u.id a.tables)
  elim (is_confirmed factor) [
    | true ↦ issue_two_factor_challenge x s u.id >>= λ raw. pure (challenge raw)
    | false ↦ issue_tokens x s u >>= λ pair. pure (tokens pair)
  ]

unfoldable pub authenticate : Crypto → AuthSettings → ℕ → ℕ → Option ℕ → Action Auth LoginResult
unfolding limit_hits get_by_email is_locked verify_password refuse_login admit
authenticate x s email password ip = do
  let normalized = x.normalize email
  limit_hits (login_scope (or_unknown ip)) 30 60
  found ← gets (λ a. get_by_email x normalized a.tables)
  let account = account_key found normalized
  raise_if (← gets (λ a. is_locked a.now account a.redis)) Error.rate_limited
  elim (proven_user x found password) [
    | none ↦ refuse_login s found account
    | some u ↦ admit x s u account
  ]

unfoldable pub change_password : Crypto → Actor → ℕ → ℕ → Action Auth (Unit {0})
unfolding verify_password save_user revoke
change_password x actor current new_password = do
  i ← lift (auth_actor actor)
  u ← query (λ a. user_or_raise i a.tables)
  raise_if (not (verify_password x (some u.password_hash) current)) Error.authentication_failed
  salt ← new_id
  save_user (record u { password_hash = x.hash_password salt new_password })
  revoke_all_user_tokens u.id password_change
  emit (password_changed u.id)

-- `PasswordResetMailer.send` may raise, or sends the token.
unfoldable pub send_reset :
    (ℕ → Result (Unit {0})) → Crypto → AuthSettings → User → Action Auth (Unit {0})
unfolding put_token
send_reset mailer x s u = do
  draw ← new_id
  let raw = x.opaque_token draw
  on_redis (λ now r. (tt {0}, put_token now reset_ns (x.hash_token raw) u.id s.reset_ttl r))
  lift (mailer u.email)
  modify (λ a. record a { mails = (u.email, raw) ∷ a.mails })
  emit (password_reset_requested u.id)

unfoldable pub request_password_reset :
    (ℕ → Result (Unit {0})) → Crypto → AuthSettings → ℕ → Action Auth (Unit {0})
unfolding get_by_email hit send_reset
request_password_reset mailer x s email = do
  found ← gets (λ a. get_by_email x (x.normalize email) a.tables)
  elim found [
    | none ↦ pure tt
    | some u ↦ do
      allowed ← on_redis (λ now r. hit now (reset_scope u.id) 3 900 r)
      elim allowed [ false ↦ pure tt | true ↦ send_reset mailer x s u ]
  ]

unfoldable pub reset_password : Crypto → ℕ → ℕ → Action Auth (Unit {0})
unfolding consume save_user revoke
reset_password x token new_password = do
  i ←
      or_raise (← on_redis (λ now r. consume now reset_ns (x.hash_token token) r))
        Error.authentication_failed
  u ← query (λ a. user_or_raise i a.tables)
  salt ← new_id
  save_user (record u { password_hash = x.hash_password salt new_password })
  revoke_all_user_tokens u.id password_change

-- `get_user`, with whether the second factor is on
unfoldable pub get_user : ℕ → Action Auth (User × Bool)
get_user i = do
  u ← query (λ a. user_or_raise i a.tables)
  factor ← gets (λ a. get_totp i a.tables)
  pure (u, is_confirmed factor)
