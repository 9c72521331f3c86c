-- ===== src/Auth/Sessions.antt =====
-- core/auth/service.py and core/auth/security/tokens.py: access tokens, and the families of refresh
-- tokens.
use backend_core.Common.{
  ℕ, ◌+◌, ◌/◌, Bool, true, false, not, ◌&&◌, Option, none, some, ◌==◌, any, find, map, leb, is_some,
  if◌then◌else◌,
}
use backend_core.Shared.Errors.{
  Error, Action, pure, raise, raise_if, or_raise, lift, gets, modify, query, ◌>>=◌, ◌>>◌,
}
use backend_core.Shared.Clock.{seconds}
use backend_core.Shared.Context.{Actor}
use backend_core.Auth.Store.{
  User, RefreshToken, RevokedReason, by_logout, reuse_detected, user_blocked, Tables, Auth, Crypto,
  AuthSettings, is_active_user, login_succeeded, new_id, read_now, on_tables, emit, commit,
  get_user_row, user_or_raise, auth_actor, save_user, add_token,
}

pub record TokenPair : Type 0 where
  pub access_token : ℕ
  pub refresh_token : ℕ
  pub expires_in : ℕ

-- `encode_access_token`; whole seconds are signed.
unfoldable pub encode_access_token : Crypto → AuthSettings → ℕ → Option ℕ → Action Auth ℕ
encode_access_token x s u tenant = do
  jti ← new_id
  now ← read_now
  pure (
      x.sign (record {
        sub = u;
        tenant = tenant;
        iat = now / 1000000;
        exp = (now + seconds s.access_ttl) / 1000000;
        jti = jti;
      }))

-- A new row of a family, and the token that its hash is of.
unfoldable pub add_session : Crypto → AuthSettings → ℕ → ℕ → Action Auth ℕ
unfolding add_token
add_session x s u family = do
  draw ← new_id
  id ← new_id
  now ← read_now
  let raw = x.opaque_token draw
  add_token (record {
    id = id;
    user_id = u;
    family_id = family;
    token_hash = x.hash_token raw;
    expires_at = now + seconds s.refresh_ttl;
    rotated_at = none;
    revoked_at = none;
    revoked_reason = none;
  })
  pure raw

-- `_issue_tokens`: a login starts a family.
unfoldable pub issue_tokens : Crypto → AuthSettings → User → Action Auth TokenPair
unfolding encode_access_token add_session save_user
issue_tokens x s u = do
  access ← encode_access_token x s u.id none
  family ← new_id
  raw ← add_session x s u.id family
  now ← read_now
  save_user (record u { last_login_at = some now })
  emit (login_succeeded u.id)
  pure (record { access_token = access; refresh_token = raw; expires_in = s.access_ttl })

-- Neither rotated nor revoked.
abbrev pub is_usable : RefreshToken → Bool
is_usable r = not (is_some r.rotated_at) && not (is_some r.revoked_at)

-- `UPDATE ... SET revoked_at` of the rows of a condition that are not revoked yet
abbrev pub revoked_row : (RefreshToken → Bool) → RevokedReason → ℕ → RefreshToken → RefreshToken
revoked_row p reason now r =
    if p r && not (is_some r.revoked_at)
    then record r { revoked_at = some now; revoked_reason = some reason }
    else r

unfoldable pub revoke : (RefreshToken → Bool) → RevokedReason → Action Auth (Unit {0})
revoke p reason = do
  now ← read_now
  on_tables (λ t. record t { tokens = map (revoked_row p reason now) t.tokens })

-- `_revoke_family`, `_revoke_all_user_tokens`
abbrev pub revoke_family : ℕ → RevokedReason → Action Auth (Unit {0})
revoke_family family = revoke (λ r. r.family_id == family)

abbrev pub revoke_all_user_tokens : ℕ → RevokedReason → Action Auth (Unit {0})
revoke_all_user_tokens u = revoke (λ r. r.user_id == u)

-- A family is killed for good, though the request is refused.
unfoldable pub refuse_family : ℕ → RevokedReason → Action Auth TokenPair
unfolding revoke
refuse_family family reason = do
  revoke_family family reason
  commit
  raise Error.authentication_failed

-- The row is the one that was read, and nobody rotated or revoked it meanwhile.
abbrev pub is_unspent : ℕ → RefreshToken → Bool
is_unspent i r = r.id == i && is_usable r

abbrev pub rotated_row : ℕ → ℕ → RefreshToken → RefreshToken
rotated_row i now r = if is_unspent i r then record r { rotated_at = some now } else r

-- What other requests commit meanwhile.
abbrev pub meanwhile : (Tables → Tables) → Action Auth (Unit {0})
meanwhile others = modify (λ a. record a { tables = others a.tables; saved = others a.saved })

-- The compare-and-set of a rotation, and the successor.
unfoldable pub rotate : Crypto → AuthSettings → RefreshToken → User → Action Auth TokenPair
unfolding encode_access_token add_session
rotate x s row u = do
  raise_if (not (any (is_unspent row.id) (← gets (λ a. a.tables.tokens))))
      Error.authentication_failed
  now ← read_now
  on_tables (λ t. record t { tokens = map (rotated_row row.id now) t.tokens })
  access ← encode_access_token x s u.id none
  raw ← add_session x s u.id row.family_id
  pure (record { access_token = access; refresh_token = raw; expires_in = s.access_ttl })

abbrev pub active_user : Option User → Option User
active_user none = none
active_user (some u) = if is_active_user u.status then some u else none

-- `refresh` of a token that is neither rotated nor revoked
unfoldable pub refresh_live :
    (Tables → Tables) → Crypto → AuthSettings → RefreshToken → Action Auth TokenPair
unfolding refuse_family rotate
refresh_live others x s row = do
  raise_if (leb row.expires_at (← read_now)) Error.authentication_failed
  found ← gets (λ a. active_user (get_user_row row.user_id a.tables))
  elim found [
    | none ↦ refuse_family row.family_id user_blocked
    | some u ↦ meanwhile others >> rotate x s row u
  ]

-- The row of a token
abbrev pub row_of : ℕ → Tables → Option RefreshToken
row_of hash t = find (λ r. r.token_hash == hash) t.tokens

unfoldable pub refresh : (Tables → Tables) → Crypto → AuthSettings → ℕ → Action Auth TokenPair
unfolding refresh_live
refresh others x s token = do
  row ← or_raise (← gets (λ a. row_of (x.hash_token token) a.tables)) Error.authentication_failed
  elim (is_usable row) [
    | false ↦ refuse_family row.family_id reuse_detected
    | true ↦ refresh_live others x s row
  ]

unfoldable pub issue_tenant_token : Crypto → AuthSettings → Actor → ℕ → Action Auth ℕ
unfolding encode_access_token
issue_tenant_token x s actor tenant = do
  i ← lift (auth_actor actor)
  u ← query (λ a. user_or_raise i a.tables)
  raise_if (not (is_active_user u.status)) Error.authentication_failed
  encode_access_token x s u.id (some tenant)

-- `logout`
unfoldable pub logout : Crypto → ℕ → Action Auth (Unit {0})
unfolding revoke
logout x token = revoke (λ r. r.token_hash == x.hash_token token) by_logout
