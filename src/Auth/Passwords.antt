-- ===== src/Auth/Passwords.antt =====
-- What a new password does in core/auth/service.py (`change_password`, `reset_password`).
use backend_core.Common.{
  ℕ, ◌+◌, ◌≡◌, true, false, none, some, ◌==◌, find, map, arith, inl, inr, Bool-cases, Option-cases,
  subst, sym,
}
use backend_core.Common.Table.{conflicts, replace, get_row, get_row-id, get_row-replace_self}
use backend_core.Shared.Errors.{Error, ok, err, Result-cases}
use backend_core.Shared.Context.{Actor}
use backend_core.Auth.Redis.{Redis, consume, get_value, delete_key}
use backend_core.Auth.Store.{
  User, RefreshToken, password_change, Tables, Auth, Crypto, AuthSettings, save_user, users_schema,
  get_user_row, user_or_raise, auth_actor, request,
}
use backend_core.Auth.Sessions.{is_usable, revoked_row, revoke, row_of, refresh}
use backend_core.Auth.Factors.{reset_ns}
use backend_core.Auth.Accounts.{verify_password, hash_of, change_password, reset_password}
use backend_core.Auth.Replay.{refresh_spent, request-ok, find-revoked}

-- A hash verifies its own password, and is no empty text.
abbrev pub IsHashing : Crypto → Type 0
IsHashing x =
    (salt password : ℕ)
    → (x.verify_hash (x.hash_password salt password) password ≡ true)
      × ((x.hash_password salt password == 0) ≡ false)

-- The hash of a user is replaced, and every token of the user revoked.
abbrev IsReset : Crypto → ℕ → ℕ → Tables → Auth → Type 0
IsReset x i password t a =
    (u : User) × (get_user_row i a.tables ≡ some u)
    × (t.users
        ≡ replace users_schema (record u { password_hash = x.hash_password a.next_id password })
            a.tables.users)
    × (t.tokens ≡ map (revoked_row (λ r. r.user_id == i) password_change a.now) a.tables.tokens)

row-user_or_raise :
    (i : ℕ) (t : Tables) (u : User)
    → user_or_raise i t ≡ ok u
    → (get_user_row i t ≡ some u) × (u.id ≡ i)
unfolding user_or_raise
row-user_or_raise i t u e = elim (Option-cases (get_user_row i t)) [
  | inl h ↦ absurd (ground (arith, h, e))
  | inr (v, h) ↦
      let q : v ≡ u = ground (arith, h, e) in
      let k = subst (λ v. get_user_row i t ≡ some v) q h in
      (k, get_row-id users_schema i t.users u k)
]

change_password-IsReset :
    (x : Crypto) (actor : Actor) (current password i : ℕ) (a : Auth)
    → auth_actor actor ≡ ok i
    → (change_password x actor current password a).0 ≡ ok tt
    → IsReset x i password (change_password x actor current password a).1.tables a
unfolding change_password save_user revoke
change_password-IsReset x actor current password i a e h =
    elim (Result-cases (user_or_raise i a.tables)) [
      | inr (d, f) ↦ absurd (ground (arith, e, f, h))
      | inl (u, f) ↦ elim (Bool-cases (verify_password x (some u.password_hash) current)) [
        | inr g ↦ absurd (ground (arith, e, f, g, h))
        | inl g ↦
            let u' : User = record u { password_hash = x.hash_password a.next_id password } in
            let (k, is) = row-user_or_raise i a.tables u f in
            elim (Bool-cases (conflicts users_schema u' a.tables.users)) [
              | inl c ↦ absurd (ground (arith, e, f, g, c, h))
              | inr c ↦ (
                u,
                k,
                ground (arith, e, f, g, c),
                subst
                    (λ j.
                      (change_password x actor current password a).1.tables.tokens
                      ≡ map (revoked_row (λ r. r.user_id == j) password_change a.now)
                          a.tables.tokens)
                    is (ground (arith, e, f, g, c)),
              )
            ]
      ]
    ]

reset_password-IsReset :
    (x : Crypto) (token password i : ℕ) (a : Auth)
    → (consume a.now reset_ns (x.hash_token token) a.redis).0 ≡ some i
    → (reset_password x token password a).0 ≡ ok tt
    → IsReset x i password (reset_password x token password a).1.tables a
unfolding reset_password save_user revoke
reset_password-IsReset x token password i a e h = elim (Result-cases (user_or_raise i a.tables)) [
  | inr (d, f) ↦ absurd (ground (arith, e, f, h))
  | inl (u, f) ↦
      let u' : User = record u { password_hash = x.hash_password a.next_id password } in
      let (k, is) = row-user_or_raise i a.tables u f in
      elim (Bool-cases (conflicts users_schema u' a.tables.users)) [
        | inl c ↦ absurd (ground (arith, e, f, c, h))
        | inr c ↦ (
          u,
          k,
          ground (arith, e, f, c),
          subst
              (λ j.
                (reset_password x token password a).1.tables.tokens
                ≡ map (revoked_row (λ r. r.user_id == j) password_change a.now) a.tables.tokens)
              is (ground (arith, e, f, c)),
        )
      ]
]

revoked-dead :
    (i now : ℕ) (r : RefreshToken)
    → r.user_id ≡ i
    → is_usable (revoked_row (λ r. r.user_id == i) password_change now r) ≡ false
revoked-dead i now r e = ground (arith, e)

-- What follows for the user's tokens and the next login.
IsReset-refused :
    (x : Crypto) (s : AuthSettings) (i password token d : ℕ) (others : Tables → Tables) (a b : Auth)
    (row : RefreshToken)
    → IsHashing x
    → IsReset x i password b.tables a
    → row_of (x.hash_token token) a.tables ≡ some row
    → row.user_id ≡ i
    → ((request (refresh others x s token) (record b { now = b.now + d })).0
        ≡ err Error.authentication_failed)
      × (verify_password x (hash_of (get_user_row i b.tables)) password ≡ true)
unfolding verify_password
IsReset-refused x s i password token d others a b row law (u, k, users, tokens) r m =
    let u' : User = record u { password_hash = x.hash_password a.next_id password } in
    let is : u.id ≡ i = get_row-id users_schema i a.tables.users u k in
    let k' : get_row users_schema u'.id a.tables.users ≡ some u =
      subst (λ j. get_row users_schema j a.tables.users ≡ some u) (sym is) k in
    let k2 = get_row-replace_self users_schema u' a.tables.users u k' in
    let k3 =
      subst (λ j. get_row users_schema j (replace users_schema u' a.tables.users) ≡ some u') is
        k2 in
    let found : get_user_row i b.tables ≡ some u' =
      subst (λ rows. get_row users_schema i rows ≡ some u') (sym users) k3 in
    let g = revoked_row (λ r. r.user_id == i) password_change a.now in
    let gone =
      subst (λ rows. find (λ c. c.token_hash == x.hash_token token) rows ≡ some (g row))
        (sym tokens)
        (find-revoked (x.hash_token token) a.now (λ r. r.user_id == i) password_change
          a.tables.tokens row r) in
    (
      (refresh_spent others x s token (g row) (record b { now = b.now + d }) gone
          (revoked-dead i a.now row m)).0,
      ground (arith, found, law a.next_id password),
    )

-- After a change of the password a refresh token that the user had is refused, and the new password
-- is the user's, when hashes verify their own passwords.
pub change_password-refuses :
    (x : Crypto) (s : AuthSettings) (actor : Actor) (current password token d i : ℕ)
    (others : Tables → Tables) (a : Auth) (row : RefreshToken)
    → IsHashing x
    → auth_actor actor ≡ ok i
    → (request (change_password x actor current password) a).0 ≡ ok tt
    → row_of (x.hash_token token) a.tables ≡ some row
    → row.user_id ≡ i
    → let b = (request (change_password x actor current password) a).1 in
      ((request (refresh others x s token) (record b { now = b.now + d })).0
        ≡ err Error.authentication_failed)
      × (verify_password x (hash_of (get_user_row i b.tables)) password ≡ true)
change_password-refuses x s actor current password token d i others a row law e h r m =
    let a0 : Auth = record a { saved = a.tables } in
    let b = (request (change_password x actor current password) a).1 in
    let (k, t) = request-ok (change_password x actor current password) a tt h in
    let z = change_password-IsReset x actor current password i a0 e k in
    IsReset-refused x s i password token d others a b row law
      (subst (λ v. IsReset x i password v a) (sym t) z) r m

pub consume_twice :
    (t u namespace hash : ℕ) (r : Redis)
    → (consume u namespace hash (consume t namespace hash r).1).0 ≡ none
unfolding consume get_value delete_key
consume_twice t u namespace hash r = ground arith

-- Whatever the reset answers, its token is gone.
spent_reset :
    (x : Crypto) (reset password : ℕ) (a : Auth)
    → (request (reset_password x reset password) a).1.redis
      ≡ (consume a.now reset_ns (x.hash_token reset) a.redis).1
unfolding request reset_password save_user revoke
spent_reset x reset password a = ground arith

refused_reset :
    (x : Crypto) (reset password : ℕ) (a : Auth)
    → (consume a.now reset_ns (x.hash_token reset) a.redis).0 ≡ none
    → (request (reset_password x reset password) a).0 ≡ err Error.authentication_failed
unfolding request reset_password
refused_reset x reset password a e = ground (arith, e)

-- After a reset of the password a refresh token that the user had is refused, the new password is the
-- user's, and the token of the reset is refused if it is presented again, when hashes verify their own
-- passwords.
pub reset_password-refuses :
    (x : Crypto) (s : AuthSettings) (reset password token other d i : ℕ) (others : Tables → Tables)
    (a : Auth) (row : RefreshToken)
    → IsHashing x
    → (consume a.now reset_ns (x.hash_token reset) a.redis).0 ≡ some i
    → (request (reset_password x reset password) a).0 ≡ ok tt
    → row_of (x.hash_token token) a.tables ≡ some row
    → row.user_id ≡ i
    → let b = (request (reset_password x reset password) a).1 in
      ((request (refresh others x s token) (record b { now = b.now + d })).0
        ≡ err Error.authentication_failed)
      × (verify_password x (hash_of (get_user_row i b.tables)) password ≡ true)
      × ((request (reset_password x reset other) (record b { now = b.now + d })).0
          ≡ err Error.authentication_failed)
reset_password-refuses x s reset password token other d i others a row law e h r m =
    let a0 : Auth = record a { saved = a.tables } in
    let b = (request (reset_password x reset password) a).1 in
    let (k, t) = request-ok (reset_password x reset password) a tt h in
    let z = reset_password-IsReset x reset password i a0 e k in
    let (w, v) =
      IsReset-refused x s i password token d others a b row law
        (subst (λ v. IsReset x i password v a) (sym t) z) r m in
    (
      w,
      v,
      refused_reset x reset other (record b { now = b.now + d })
          (subst (λ q. (consume (b.now + d) reset_ns (x.hash_token reset) q).0 ≡ none)
            (sym (spent_reset x reset password a))
            (consume_twice a.now (b.now + d) reset_ns (x.hash_token reset) a.redis)),
    )
