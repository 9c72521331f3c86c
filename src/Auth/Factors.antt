-- ===== src/Auth/Factors.antt =====
-- core/auth/service.py and core/auth/security/totp.py: the second factor.
use backend_core.Common.{
  ℕ, zero, suc, Bool, true, false, not, ◌&&◌, Option, none, some, List, [], ◌∷◌, ◌++◌, ◌==◌, map,
  select, is_some, if◌then◌else◌,
}
use backend_core.Shared.Errors.{
  Error, Action, pure, raise_if, or_raise, lift, gets, query, ◌>>=◌, ◌>>◌,
}
use backend_core.Shared.Context.{Actor}
use backend_core.Auth.Redis.{Key, hit, check_and_mark, put_token, consume}
use backend_core.Auth.Store.{
  UserTotp, UserRecoveryCode, Auth, Crypto, AuthSettings, two_factor_enabled, two_factor_disabled,
  new_id, read_now, on_tables, on_redis, emit, get_user_row, user_or_raise, get_totp, auth_actor,
}
use backend_core.Auth.Sessions.{TokenPair, issue_tokens, active_user}

-- `CHALLENGE_NS`, `RESET_NS`, and the prefixes of the limiter with their scopes
abbrev pub challenge_ns : ℕ
challenge_ns = 5

abbrev pub reset_ns : ℕ
reset_ns = 6

abbrev pub two_factor_scope : ℕ → Key
two_factor_scope u = record { prefix = 1; name = u; part = 2 }

-- `_issue_two_factor_challenge`
unfoldable pub issue_two_factor_challenge : Crypto → AuthSettings → ℕ → Action Auth ℕ
unfolding put_token
issue_two_factor_challenge x s u = do
  draw ← new_id
  let raw = x.opaque_token draw
  on_redis (λ now r. (tt {0}, put_token now challenge_ns (x.hash_token raw) u s.challenge_ttl r))
  pure raw

-- A recovery code of the user that was not spent.
abbrev pub is_code : ℕ → ℕ → UserRecoveryCode → Bool
is_code u hash c = (c.user_id == u && c.code_hash == hash) && not (is_some c.used_at)

abbrev pub spent_code : ℕ → ℕ → ℕ → UserRecoveryCode → UserRecoveryCode
spent_code u hash now c = if is_code u hash c then record c { used_at = some now } else c

abbrev pub matching : ℕ → ℕ → List UserRecoveryCode → List UserRecoveryCode
matching u hash codes = select (is_code u hash) codes

abbrev pub is_single : {A : Type 0} → List A → Bool
is_single (c ∷ []) = true
is_single _ = false

-- The recovery code is spent by one UPDATE; `rowcount == 1`.
unfoldable pub spend_recovery_code : Crypto → ℕ → ℕ → Action Auth Bool
spend_recovery_code x u code = do
  let hash = x.hash_recovery_code code
  now ← read_now
  spent ← gets (λ a. is_single (matching u hash a.tables.recovery_codes))
  on_tables (λ t. record t { recovery_codes = map (spent_code u hash now) t.recovery_codes })
  pure spent

-- `_verify_totp_or_recovery`
unfoldable pub verify_totp_or_recovery : Crypto → ℕ → ℕ → Action Auth Bool
unfolding spend_recovery_code check_and_mark
verify_totp_or_recovery x u code = do
  found ← gets (λ a. get_totp u a.tables)
  elim found [
    | none ↦ pure false
    | some row ↦ do
      secret ← lift (x.decrypt row.secret_encrypted)
      now ← read_now
      elim (x.totp_matches secret code now) [
        | true ↦ on_redis (λ now r. check_and_mark now u code r)
        | false ↦ spend_recovery_code x u code
      ]
  ]

unfoldable pub complete_two_factor : Crypto → AuthSettings → ℕ → ℕ → Action Auth TokenPair
unfolding consume hit verify_totp_or_recovery issue_tokens
complete_two_factor x s challenge code = do
  u ←
      or_raise (← on_redis (λ now r. consume now challenge_ns (x.hash_token challenge) r))
        Error.authentication_failed
  allowed ← on_redis (λ now r. hit now (two_factor_scope u) 5 300 r)
  raise_if (not allowed) Error.rate_limited
  person ←
      or_raise (← gets (λ a. active_user (get_user_row u a.tables))) Error.authentication_failed
  verified ← verify_totp_or_recovery x u code
  raise_if (not verified) Error.authentication_failed
  issue_tokens x s person

-- The secret of an enrollment that is not finished is replaced.
unfoldable pub enroll : ℕ → ℕ → Option UserTotp → Action Auth (Unit {0})
enroll u blob none = on_tables (λ t. record t {
  totps = t.totps ++ record { user_id = u; secret_encrypted = blob; confirmed_at = none } ∷ [];
})
enroll u blob (some row) = do
  raise_if (is_some row.confirmed_at) Error.conflict
  on_tables (λ t. record t {
    totps = map (λ r. if r.user_id == u then record r { secret_encrypted = blob } else r) t.totps;
  })

unfoldable pub enable_totp : Crypto → Actor → Action Auth ℕ
unfolding enroll
enable_totp x actor = do
  i ← lift (auth_actor actor)
  u ← query (λ a. user_or_raise i a.tables)
  draw ← new_id
  let secret = x.totp_secret draw
  existing ← gets (λ a. get_totp u.id a.tables)
  enroll u.id (x.encrypt secret) existing
  pure secret

-- The codes are drawn and stored one by one.
unfoldable pub add_recovery_codes : Crypto → ℕ → ℕ → Action Auth (List ℕ)
add_recovery_codes x u zero = pure []
add_recovery_codes x u (suc n) = do
  draw ← new_id
  id ← new_id
  let code = x.recovery_code draw
  on_tables (λ t. record t {
    recovery_codes =
        t.recovery_codes
        ++ record { id = id; user_id = u; code_hash = x.hash_recovery_code code; used_at = none }
          ∷ [];
  })
  rest ← add_recovery_codes x u n
  pure (code ∷ rest)

-- `RECOVERY_CODE_COUNT`
abbrev pub recovery_code_count : ℕ
recovery_code_count = 10

unfoldable pub confirm_totp : Crypto → Actor → ℕ → Action Auth (List ℕ)
unfolding add_recovery_codes
confirm_totp x actor code = do
  u ← lift (auth_actor actor)
  row ← or_raise (← gets (λ a. get_totp u a.tables)) Error.invariant_violation
  secret ← lift (x.decrypt row.secret_encrypted)
  now ← read_now
  raise_if (not (x.totp_matches secret code now)) Error.authentication_failed
  on_tables (λ t. record t {
    totps = map (λ r. if r.user_id == u then record r { confirmed_at = some now } else r) t.totps;
  })
  codes ← add_recovery_codes x u recovery_code_count
  emit (two_factor_enabled u)
  pure codes

unfoldable pub disable_totp : Crypto → Actor → ℕ → Action Auth (Unit {0})
unfolding verify_totp_or_recovery
disable_totp x actor code = do
  u ← lift (auth_actor actor)
  verified ← verify_totp_or_recovery x u code
  raise_if (not verified) Error.authentication_failed
  on_tables (λ t. record t {
    totps = select (λ r. not (r.user_id == u)) t.totps;
    recovery_codes = select (λ c. not (c.user_id == u)) t.recovery_codes;
  })
  emit (two_factor_disabled u)
