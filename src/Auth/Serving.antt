-- ===== src/Auth/Serving.antt =====
-- Every request to `AuthService` of core/auth/service.py keeps one live token in a family.
use backend_core.Common.{
  ℕ, zero, suc, ◌+◌, not, Option, none, some, [], ◌∷◌, ◌++◌, ◌==◌, map, arith, if◌then◌else◌, inl,
  inr, Bool-cases, Option-cases,
}
use backend_core.Shared.Errors.{Error, Result, Action, ◌>>=◌, ◌>>◌, pure, raise_if, Result-cases}
use backend_core.Shared.Triples.{Keeps, keep}
use backend_core.Shared.Context.{Actor}
use backend_core.Auth.Redis.{clear, Account, hit, consume, is_locked}
use backend_core.Auth.Store.{
  User, password_change, Tables, Auth, Crypto, AuthSettings, save_user, add_user, get_user_row,
  auth_actor, user_or_raise, request, get_by_email, get_totp,
}
use backend_core.Auth.Sessions.{issue_tokens, revoke_all_user_tokens, active_user}
use backend_core.Auth.Factors.{
  reset_ns, challenge_ns, two_factor_scope, recovery_code_count, issue_two_factor_challenge,
  spend_recovery_code, verify_totp_or_recovery, complete_two_factor, enroll, enable_totp,
  add_recovery_codes, confirm_totp, disable_totp,
}
use backend_core.Auth.Accounts.{
  reset_scope, verify_password, challenge, tokens, register, limit_hits, authenticate, refuse_login,
  admit, proven_user, account_key, login_scope, or_unknown, is_confirmed, change_password,
  send_reset, request_password_reset, reset_password,
}
use backend_core.Auth.Rotation.{IsSound, new_id-IsSound, save_user-IsSound, revoke-IsSound}
use backend_core.Auth.Renewal.{issue_tokens-IsSound}

pub request-IsSound : {B : Type 0} (m : Action Auth B) → Keeps IsSound m → Keeps IsSound (request m)
unfolding request
request-IsSound m k a v =
    let a0 : Auth = record a { saved = a.tables } in
    let w = k a0 (v.0, v.0) in
    elim (Result-cases (m a0).0) [
      | inl (b, h) ↦ ground (arith, h, w)
      | inr (e, h) ↦ ground (arith, h, w)
    ]

-- The part after a call that keeps the sessions, when the value is wrapped.
after-IsSound :
    {B D : Type 0} (m : Action Auth B) (f : B → D)
    → Keeps IsSound m
    → Keeps IsSound (m >>= λ b. pure (f b))
after-IsSound m f k = keep IsSound m (λ b. pure (f b)) k (λ b a v. v)

challenge-IsSound :
    (x : Crypto) (s : AuthSettings) (u : ℕ) → Keeps IsSound (issue_two_factor_challenge x s u)
unfolding issue_two_factor_challenge
challenge-IsSound x s u a v = new_id-IsSound a v

admit-IsSound :
    (x : Crypto) (s : AuthSettings) (u : User) (account : Account)
    → Keeps IsSound (admit x s u account)
unfolding admit
admit-IsSound x s u account a v =
    let a1 : Auth = record a { redis = clear account a.redis } in
    elim (Bool-cases (is_confirmed (get_totp u.id a.tables))) [
      | inl e ↦ ground (
        arith,
        e,
        after-IsSound (issue_two_factor_challenge x s u.id) challenge (challenge-IsSound x s u.id)
            a1 v,
      )
      | inr e ↦
          ground
            (arith, e, after-IsSound (issue_tokens x s u) tokens (issue_tokens-IsSound x s u) a1 v)
    ]

refuse_login-IsSound :
    (s : AuthSettings) (found : Option User) (account : Account)
    → Keeps IsSound (refuse_login s found account)
unfolding refuse_login
refuse_login-IsSound s found account a v = v

pub authenticate-IsSound :
    (x : Crypto) (s : AuthSettings) (email password : ℕ) (ip : Option ℕ)
    → Keeps IsSound (authenticate x s email password ip)
unfolding authenticate limit_hits
authenticate-IsSound x s email password ip a v =
    let w = hit a.now (login_scope (or_unknown ip)) 30 60 a.redis in
    let a1 : Auth = record a { redis = w.1 } in
    let found = get_by_email x (x.normalize email) a.tables in
    let account = account_key found (x.normalize email) in
    elim (Bool-cases w.0) [
      | inr e ↦ ground (arith, e, v)
      | inl e ↦ elim (Bool-cases (is_locked a.now account w.1)) [
        | inl l ↦ ground (arith, e, l, v)
        | inr l ↦ elim (Option-cases (proven_user x found password)) [
          | inl n ↦ ground (arith, e, l, n, refuse_login-IsSound s found account a1 v)
          | inr (u, n) ↦ ground (arith, e, l, n, admit-IsSound x s u account a1 v)
        ]
      ]
    ]

pub register-IsSound :
    (x : Crypto) (s : AuthSettings) (email password locale : ℕ) (ip : Option ℕ)
    → Keeps IsSound (register x s email password locale ip)
unfolding register limit_hits add_user
register-IsSound x s email password locale ip a v =
    ground (arith, v, new_id-IsSound (record a { next_id = a.next_id + 1 }) (new_id-IsSound a v))

verify-IsSound : (x : Crypto) (u code : ℕ) → Keeps IsSound (verify_totp_or_recovery x u code)
unfolding verify_totp_or_recovery spend_recovery_code
verify-IsSound x u code a v = elim (Option-cases (get_totp u a.tables)) [
  | inl e ↦ ground (arith, e, v)
  | inr (row, e) ↦ elim (Result-cases (x.decrypt row.secret_encrypted)) [
    | inr (d, h) ↦ ground (arith, e, h, v)
    | inl (secret, h) ↦ elim (Bool-cases (x.totp_matches secret code a.now)) [
      | inl m ↦ ground (arith, e, h, m, v)
      | inr m ↦ ground (arith, e, h, m, v)
    ]
  ]
]

-- The end of `complete_two_factor`
checked-IsSound :
    (x : Crypto) (s : AuthSettings) (u code : ℕ) (person : User)
    → Keeps IsSound (
        verify_totp_or_recovery x u code >>= λ verified.
        raise_if (not verified) Error.authentication_failed >> issue_tokens x s person)
checked-IsSound x s u code person =
    keep IsSound (verify_totp_or_recovery x u code)
      (λ verified. raise_if (not verified) Error.authentication_failed >> issue_tokens x s person)
      (verify-IsSound x u code)
      (λ verified.
        keep IsSound (raise_if (not verified) Error.authentication_failed)
          (λ _. issue_tokens x s person) (λ b w. ground (arith, w))
          (λ _. issue_tokens-IsSound x s person))

pub complete-IsSound :
    (x : Crypto) (s : AuthSettings) (token code : ℕ)
    → Keeps IsSound (complete_two_factor x s token code)
unfolding complete_two_factor
complete-IsSound x s token code a v =
    let (u', r) = consume a.now challenge_ns (x.hash_token token) a.redis in
    elim (Option-cases u') [
      | inl e ↦ ground (arith, e, v)
      | inr (u, e) ↦
          let w = hit a.now (two_factor_scope u) 5 300 r in
          let a2 : Auth = record a { redis = w.1 } in
          elim (Bool-cases w.0) [
            | inr l ↦ ground (arith, e, l, v)
            | inl l ↦ elim (Option-cases (active_user (get_user_row u a.tables))) [
              | inl n ↦ ground (arith, e, l, n, v)
              | inr (person, n) ↦ ground (arith, e, l, n, checked-IsSound x s u code person a2 v)
            ]
          ]
    ]

pub enable-IsSound : (x : Crypto) (actor : Actor) → Keeps IsSound (enable_totp x actor)
unfolding enable_totp enroll
enable-IsSound x actor a v = ground (arith, v, new_id-IsSound a v)

recovery-IsSound : (x : Crypto) (u n : ℕ) → Keeps IsSound (add_recovery_codes x u n)
unfolding add_recovery_codes
recovery-IsSound x u zero a v = v
recovery-IsSound x u (suc n) a v =
    after-IsSound (add_recovery_codes x u n) (λ rest. x.recovery_code a.next_id ∷ rest)
      (recovery-IsSound x u n)
      (record a {
        next_id = a.next_id + 1 + 1;
        tables = record a.tables {
          recovery_codes =
              a.tables.recovery_codes
              ++ record {
                id = a.next_id + 1;
                user_id = u;
                code_hash = x.hash_recovery_code (x.recovery_code a.next_id);
                used_at = none;
              }
                ∷ [];
        };
      })
      (new_id-IsSound (record a { next_id = a.next_id + 1 }) (new_id-IsSound a v))

revoked_all-IsSound : (u : ℕ) → Keeps IsSound (revoke_all_user_tokens u password_change)
revoked_all-IsSound u = revoke-IsSound (λ r. r.user_id == u) password_change

-- The sessions of a user die with the password.
set_password-IsSound :
    (u : User) → Keeps IsSound (save_user u >> revoke_all_user_tokens u.id password_change)
set_password-IsSound u =
    keep IsSound (save_user u) (λ _. revoke_all_user_tokens u.id password_change)
      (save_user-IsSound u) (λ _. revoked_all-IsSound u.id)

pub change_password-IsSound :
    (x : Crypto) (actor : Actor) (current password : ℕ)
    → Keeps IsSound (change_password x actor current password)
unfolding change_password
change_password-IsSound x actor current password a v =
    let a1 : Auth = record a { next_id = a.next_id + 1 } in
    elim (Result-cases (auth_actor actor)) [
      | inr (d, e) ↦ ground (arith, e, v)
      | inl (i, e) ↦ elim (Result-cases (user_or_raise i a.tables)) [
        | inr (d, f) ↦ ground (arith, e, f, v)
        | inl (u, f) ↦ elim (Bool-cases (verify_password x (some u.password_hash) current)) [
          | inr g ↦ ground (arith, e, f, g, v)
          | inl g ↦
              let u' : User = record u { password_hash = x.hash_password a.next_id password } in
              let w = set_password-IsSound u' a1 (new_id-IsSound a v) in
              elim (Result-cases (save_user u' a1).0) [
                | inr (d, h) ↦ ground (arith, e, f, g, h, w)
                | inl (t, h) ↦ ground (arith, e, f, g, h, w)
              ]
        ]
      ]
    ]

pub reset_password-IsSound :
    (x : Crypto) (token password : ℕ) → Keeps IsSound (reset_password x token password)
unfolding reset_password
reset_password-IsSound x token password a v =
    let (i', r) = consume a.now reset_ns (x.hash_token token) a.redis in
    let a1 : Auth = record a { next_id = a.next_id + 1; redis = r } in
    elim (Option-cases i') [
      | inl e ↦ ground (arith, e, v)
      | inr (i, e) ↦ elim (Result-cases (user_or_raise i a.tables)) [
        | inr (d, f) ↦ ground (arith, e, f, v)
        | inl (u, f) ↦
            let u' : User = record u { password_hash = x.hash_password a.next_id password } in
            ground (arith, e, f, set_password-IsSound u' a1 (new_id-IsSound a v))
      ]
    ]

pub ask-IsSound :
    (mailer : ℕ → Result (Unit {0})) (x : Crypto) (s : AuthSettings) (email : ℕ)
    → Keeps IsSound (request_password_reset mailer x s email)
unfolding request_password_reset send_reset
ask-IsSound mailer x s email a v =
    elim (Option-cases (get_by_email x (x.normalize email) a.tables)) [
      | inl e ↦ ground (arith, e, v)
      | inr (u, e) ↦ elim (Bool-cases (hit a.now (reset_scope u.id) 3 900 a.redis).0) [
        | inr l ↦ ground (arith, e, l, v)
        | inl l ↦ elim (Result-cases (mailer u.email)) [
          | inl (t, m) ↦ ground (arith, e, l, m, new_id-IsSound a v)
          | inr (d, m) ↦ ground (arith, e, l, m, new_id-IsSound a v)
        ]
      ]
    ]

pub confirm-IsSound :
    (x : Crypto) (actor : Actor) (code : ℕ) → Keeps IsSound (confirm_totp x actor code)
unfolding confirm_totp
confirm-IsSound x actor code a v = elim (Result-cases (auth_actor actor)) [
  | inr (d, e) ↦ ground (arith, e, v)
  | inl (u, e) ↦ elim (Option-cases (get_totp u a.tables)) [
    | inl f ↦ ground (arith, e, f, v)
    | inr (row, f) ↦ elim (Result-cases (x.decrypt row.secret_encrypted)) [
      | inr (d, g) ↦ ground (arith, e, f, g, v)
      | inl (secret, g) ↦ elim (Bool-cases (x.totp_matches secret code a.now)) [
        | inr m ↦ ground (arith, e, f, g, m, v)
        | inl m ↦
            let t : Tables = record a.tables {
              totps =
                  map (λ r. if r.user_id == u then record r { confirmed_at = some a.now } else r)
                    a.tables.totps;
            } in
            let a1 : Auth = record a { tables = t } in
            let w = recovery-IsSound x u recovery_code_count a1 v in
            elim (Result-cases (add_recovery_codes x u recovery_code_count a1).0) [
              | inl (codes, h) ↦ ground (arith, e, f, g, m, h, w)
              | inr (d, h) ↦ ground (arith, e, f, g, m, h, w)
            ]
      ]
    ]
  ]
]

pub disable-IsSound :
    (x : Crypto) (actor : Actor) (code : ℕ) → Keeps IsSound (disable_totp x actor code)
unfolding disable_totp
disable-IsSound x actor code a v = elim (Result-cases (auth_actor actor)) [
  | inr (d, e) ↦ ground (arith, e, v)
  | inl (u, e) ↦
      let w = verify-IsSound x u code a v in
      elim (Result-cases (verify_totp_or_recovery x u code a).0) [
        | inr (d, h) ↦ ground (arith, e, h, w)
        | inl (verified, h) ↦ ground (arith, e, h, w)
      ]
]
