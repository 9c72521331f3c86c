-- ===== src/Auth/Logins.antt =====
-- What a login of core/auth/service.py has proved, with one factor or two (`authenticate`,
-- `complete_two_factor`).
use backend_core.Common.{
  ℕ, ◌≡◌, Bool, true, false, Option, none, some, arith, inl, inr, Bool-cases, Option-cases, subst,
}
use backend_core.Shared.Errors.{Error, ok, err}
use backend_core.Auth.Redis.{Redis, Account, hit, is_locked}
use backend_core.Auth.Store.{
  User, Auth, Crypto, AuthSettings, is_active_user, get_by_email, get_totp,
}
use backend_core.Auth.Sessions.{TokenPair, active_user}
use backend_core.Auth.Factors.{issue_two_factor_challenge}
use backend_core.Auth.Accounts.{
  tokens, verify_password, account_key, proven_user, is_confirmed, refuse_login, admit,
  authenticate, login_scope, or_unknown, limit_hits,
}

admit-tokens :
    (x : Crypto) (s : AuthSettings) (u : User) (account : Account) (a : Auth) (pair : TokenPair)
    → (admit x s u account a).0 ≡ ok (tokens pair)
    → is_confirmed (get_totp u.id a.tables) ≡ false
unfolding admit issue_two_factor_challenge
admit-tokens x s u account a pair h = elim (Bool-cases (is_confirmed (get_totp u.id a.tables))) [
  | inl e ↦ absurd (ground (arith, e, h))
  | inr e ↦ e
]

pub active_user-some :
    (o : Option User) (u : User)
    → active_user o ≡ some u
    → (o ≡ some u) × (is_active_user u.status ≡ true)
active_user-some none u e = absurd (ground (arith, e))
active_user-some (some v) u e = ground (arith, e)

proven-some :
    (x : Crypto) (found : Option User) (password : ℕ) (u : User)
    → proven_user x found password ≡ some u
    → (found ≡ some u)
      × (is_active_user u.status ≡ true)
      × (verify_password x (some u.password_hash) password ≡ true)
unfolding verify_password
proven-some x none password u e = absurd (ground (arith, e))
proven-some x (some v) password u e =
    elim (Bool-cases (verify_password x (some v.password_hash) password)) [
      | inr h ↦ absurd (ground (arith, e, h))
      | inl h ↦
          let (k, l) = active_user-some (some v) u (ground (arith, e, h)) in
          (k, l, ground (arith, k, h))
    ]

-- The four ways of a login.
module _ (x : Crypto) (s : AuthSettings) (email password : ℕ) (ip : Option ℕ) (a : Auth) where
  abbrev pub limited : Bool × Redis
  limited = hit a.now (login_scope (or_unknown ip)) 30 60 a.redis

  abbrev pub limited_state : Auth
  limited_state = record a { redis = limited.1 }

  abbrev pub found_user : Option User
  found_user = get_by_email x (x.normalize email) a.tables

  abbrev pub account_of : Account
  account_of = account_key found_user (x.normalize email)

  abbrev pub locked_now : Bool
  locked_now = is_locked a.now account_of limited.1

  pub authenticate-limited :
      limited.0 ≡ false
      → authenticate x s email password ip a ≡ (err Error.rate_limited, limited_state)
  unfolding authenticate limit_hits
  authenticate-limited e = ground (arith, e)

  pub authenticate-locked :
      limited.0 ≡ true
      → locked_now ≡ true
      → authenticate x s email password ip a ≡ (err Error.rate_limited, limited_state)
  unfolding authenticate limit_hits
  authenticate-locked e l = ground (arith, e, l)

  pub authenticate-refused :
      limited.0 ≡ true
      → locked_now ≡ false
      → proven_user x found_user password ≡ none
      → authenticate x s email password ip a ≡ refuse_login s found_user account_of limited_state
  unfolding authenticate limit_hits
  authenticate-refused e l n = ground (arith, e, l, n)

  pub authenticate-admitted :
      (u : User)
      → limited.0 ≡ true
      → locked_now ≡ false
      → proven_user x found_user password ≡ some u
      → authenticate x s email password ip a ≡ admit x s u account_of limited_state
  unfolding authenticate limit_hits
  authenticate-admitted u e l n = ground (arith, e, l, n)

-- A login answers with tokens only to an active user whose password it checked, on an account that
-- is not locked, and who has no second factor.
pub authenticate-tokens :
    (x : Crypto) (s : AuthSettings) (email password : ℕ) (ip : Option ℕ) (a : Auth)
    (pair : TokenPair)
    → (authenticate x s email password ip a).0 ≡ ok (tokens pair)
    → (u : User) × (get_by_email x (x.normalize email) a.tables ≡ some u)
      × (is_active_user u.status ≡ true)
      × (verify_password x (some u.password_hash) password ≡ true)
      × (is_locked a.now
            (account_key (some u) (x.normalize email))
            (hit a.now (login_scope (or_unknown ip)) 30 60 a.redis).1
          ≡ false)
      × (is_confirmed (get_totp u.id a.tables) ≡ false)
unfolding refuse_login
authenticate-tokens x s email password ip a pair h =
    elim (Bool-cases (limited x s email password ip a).0) [
      | inr e ↦ absurd (ground (arith, authenticate-limited x s email password ip a e, h))
      | inl e ↦ elim (Bool-cases (locked_now x s email password ip a)) [
        | inl l ↦ absurd (ground (arith, authenticate-locked x s email password ip a e l, h))
        | inr l ↦
            elim (Option-cases (proven_user x (found_user x s email password ip a) password)) [
              | inl n ↦
                  absurd (ground (arith, authenticate-refused x s email password ip a e l n, h))
              | inr (u, n) ↦
                  let (f, g, v) = proven-some x (found_user x s email password ip a) password u n in
                  (
                    u,
                    f,
                    g,
                    v,
                    subst
                        (λ o.
                          is_locked a.now (account_key o (x.normalize email))
                            (limited x s email password ip a).1
                          ≡ false)
                        f l,
                    admit-tokens x s u (account_of x s email password ip a)
                        (limited_state x s email password ip a) pair
                        (subst (λ w. w.0 ≡ ok (tokens pair))
                          (authenticate-admitted x s email password ip a u e l n) h),
                  )
            ]
      ]
    ]
