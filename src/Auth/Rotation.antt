-- ===== src/Auth/Rotation.antt =====
-- One live token in a family, under the operations of core/auth/service.py that touch tokens.
use backend_core.Common.{
  ℕ, ◌+◌, ◌≤◌, ◌<◌, ◌≡◌, Bool, false, List, [], ◌∷◌, ◌++◌, All, arith, inl, inr, Bool-cases,
}
use backend_core.Common.Table.{taken, IsUnique, append-IsUnique, map-IsUnique}
use backend_core.Common.Rows.{All-map, All-append, map-All}
use backend_core.Shared.Triples.{Triple, Keeps}
use backend_core.Auth.Redis.{Redis}
use backend_core.Auth.Store.{
  User, RefreshToken, RevokedReason, Auth, AuthEvent, add_token, save_user, add_user, tokens_schema,
  new_id, on_redis, emit,
}
use backend_core.Auth.Sessions.{revoked_row, revoke}
use backend_core.Auth.Families.{live_count, IsRotating, append-IsRotating, revoked-IsRotating}

-- The rows of `refresh_tokens`, where `n` is the next UUID.
abbrev pub AreSessions : ℕ → List RefreshToken → Type 0
AreSessions n rows = IsRotating rows × All (λ r. r.family_id < n) rows × IsUnique tokens_schema rows

-- Of the transaction's tables and of what is committed.
abbrev pub IsSound : Auth → Type 0
IsSound a = AreSessions a.next_id a.tables.tokens × AreSessions a.next_id a.saved.tokens

pub AreSessions-later :
    (n m : ℕ) (rows : List RefreshToken) → n ≤ m → AreSessions n rows → AreSessions m rows
AreSessions-later n m rows le v = (v.0, All-map _ _ rows (λ r h. omega (arith, h, le)) v.1, v.2)

pub new_id-IsSound : Keeps IsSound new_id
new_id-IsSound a v = (
  AreSessions-later a.next_id (a.next_id + 1) a.tables.tokens (omega arith) v.0,
  AreSessions-later a.next_id (a.next_id + 1) a.saved.tokens (omega arith) v.1,
)

pub redis-IsSound : {B : Type 0} (f : ℕ → Redis → B × Redis) → Keeps IsSound (on_redis f)
redis-IsSound f a v = v

pub emit-IsSound : (e : AuthEvent) → Keeps IsSound (emit e)
emit-IsSound e a v = v

pub save_user-IsSound : (u : User) → Keeps IsSound (save_user u)
unfolding save_user
save_user-IsSound u a v = ground (arith, v)

pub add_user-IsSound : (u : User) → Keeps IsSound (add_user u)
unfolding add_user
add_user-IsSound u a v = ground (arith, v)

revoked-same :
    (p : RefreshToken → Bool) (reason : RevokedReason) (now : ℕ) (r : RefreshToken)
    → ((revoked_row p reason now r).id ≡ r.id)
      × ((revoked_row p reason now r).token_hash ≡ r.token_hash)
      × ((revoked_row p reason now r).family_id ≡ r.family_id)
revoked-same p reason now r = ground arith

pub revoke-IsSound :
    (p : RefreshToken → Bool) (reason : RevokedReason) → Keeps IsSound (revoke p reason)
unfolding revoke
revoke-IsSound p reason a v =
    let f = revoked_row p reason a.now in
    let same = revoked-same p reason a.now in
    let rows = a.tables.tokens in
    (
      (
        revoked-IsRotating p reason a.now rows v.0.0,
        map-All _ f rows (λ r h. ground (arith, h, (same r).2)) v.0.1,
        map-IsUnique tokens_schema f (λ r. (same r).0) (λ r d h. ground (arith, h, (same d).1)) rows
            v.0.2,
      ),
      v.1,
    )

-- A family without a live token.
abbrev pub IsOver : ℕ → Auth → Type 0
IsOver f a = IsSound a × (live_count f a.tables.tokens ≡ 0) × (f < a.next_id)

pub append-AreSessions :
    (n : ℕ) (rows : List RefreshToken) (r : RefreshToken)
    → AreSessions n rows
    → live_count r.family_id rows ≡ 0
    → r.family_id < n
    → taken tokens_schema r rows ≡ false
    → AreSessions n (rows ++ r ∷ [])
append-AreSessions n rows r v z l t = (
  append-IsRotating rows r z v.0,
  All-append _ rows r v.1 l,
  append-IsUnique tokens_schema r rows v.2 t,
)

pub add_token-IsSound :
    (r : RefreshToken) → Triple IsSound (IsOver r.family_id) (add_token r) (λ _. IsSound)
unfolding add_token
add_token-IsSound r a v = elim (Bool-cases (taken tokens_schema r a.tables.tokens)) [
  | inl e ↦ ground (arith, e, v)
  | inr e ↦ ground (arith, e, v, append-AreSessions a.next_id a.tables.tokens r v.0.0 v.1 v.2 e)
]
