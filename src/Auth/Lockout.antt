-- ===== src/Auth/Lockout.antt =====
-- The lockout of an account in core/auth/service.py and core/auth/rate_limit.py (`LoginThrottle`).
use backend_core.Common.{
  ℕ, suc, ◌+◌, ◌-◌, ◌<◌, ◌≤◌, ◌≡◌, ◌≢◌, true, Option, none, some, List, [], ◌∷◌, ltb, length, arith,
  inl, inr, Bool-cases, Option-cases, subst, sym, ◌∙◌,
}
use backend_core.Shared.Clock.{seconds}
use backend_core.Shared.Errors.{Error, Result, err, Action, Result-cases}
use backend_core.Auth.Redis.{
  Key, Redis, Account, clear, hit, incr_with_ttl, is_locked, get_value, set_value, record_failure,
  counter_cell, account_cell, fail_prefix, lock_prefix, lock_duration,
}
use backend_core.Auth.Store.{
  User, Tables, Auth, Crypto, AuthSettings, get_by_email, get_totp, request, add_token, save_user,
}
use backend_core.Auth.Sessions.{issue_tokens, encode_access_token, add_session}
use backend_core.Auth.Factors.{issue_two_factor_challenge}
use backend_core.Auth.Accounts.{
  LoginResult, account_key, proven_user, is_confirmed, refuse_login, admit, authenticate,
  login_scope, or_unknown,
}
use backend_core.Auth.Logins.{
  limited, limited_state, found_user, account_of, locked_now, authenticate-limited,
  authenticate-locked, authenticate-refused, authenticate-admitted,
}

-- A guess of a password, some time after the one before.
pub record Guess : Type 0 where
  pub delay : ℕ
  pub password : ℕ
  pub ip : Option ℕ

-- What the store raises is no refusal.
save_user-errors : (u : User) (a : Auth) → (save_user u a).0 ≢ err Error.authentication_failed
unfolding save_user
save_user-errors u a h = ground (arith, h)

add_session-errors :
    (x : Crypto) (s : AuthSettings) (u f : ℕ) (a : Auth)
    → (add_session x s u f a).0 ≢ err Error.authentication_failed
unfolding add_session add_token
add_session-errors x s u f a h = ground (arith, h)

issue_tokens-errors :
    (x : Crypto) (s : AuthSettings) (u : User) (a : Auth)
    → (issue_tokens x s u a).0 ≢ err Error.authentication_failed
unfolding issue_tokens encode_access_token
issue_tokens-errors x s u a h =
    let a2 : Auth = record a { next_id = a.next_id + 1 + 1 } in
    let a3 = (add_session x s u.id (a.next_id + 1) a2).1 in
    let u' : User = record u { last_login_at = some a3.now } in
    elim (Result-cases (add_session x s u.id (a.next_id + 1) a2).0) [
      | inr (e, k) ↦ add_session-errors x s u.id (a.next_id + 1) a2 (ground (arith, k, h))
      | inl (raw, k) ↦ elim (Result-cases (save_user u' a3).0) [
        | inr (e, l) ↦ save_user-errors u' a3 (ground (arith, k, l, h))
        | inl (t, l) ↦ ground (arith, k, l, h)
      ]
    ]

admit-errors :
    (x : Crypto) (s : AuthSettings) (u : User) (account : Account) (a : Auth)
    → (admit x s u account a).0 ≢ err Error.authentication_failed
unfolding admit issue_two_factor_challenge
admit-errors x s u account a h =
    let a1 : Auth = record a { redis = clear account a.redis } in
    elim (Bool-cases (is_confirmed (get_totp u.id a.tables))) [
      | inl e ↦ ground (arith, e, h)
      | inr e ↦ elim (Result-cases (issue_tokens x s u a1).0) [
        | inr (d, k) ↦ issue_tokens-errors x s u a1 (ground (arith, e, k, h))
        | inl (pair, k) ↦ ground (arith, e, k, h)
      ]
    ]

-- A login that is refused is a counted failure.
refused-is :
    (x : Crypto) (s : AuthSettings) (email password : ℕ) (ip : Option ℕ) (a : Auth)
    → (authenticate x s email password ip a).0 ≡ err Error.authentication_failed
    → authenticate x s email password ip a
      ≡ refuse_login s
          (found_user x s email password ip a)
          (account_of x s email password ip a)
          (limited_state x s email password ip a)
refused-is x s email password ip a h = elim (Bool-cases (limited x s email password ip a).0) [
  | inr e ↦ absurd (ground (arith, authenticate-limited x s email password ip a e, h))
  | inl e ↦ elim (Bool-cases (locked_now x s email password ip a)) [
    | inl l ↦ absurd (ground (arith, authenticate-locked x s email password ip a e l, h))
    | inr l ↦ elim (Option-cases (proven_user x (found_user x s email password ip a) password)) [
      | inl n ↦ authenticate-refused x s email password ip a e l n
      | inr (u, n) ↦ absurd (
          admit-errors x s u (account_of x s email password ip a)
            (limited_state x s email password ip a)
            (subst (λ w. w.0 ≡ err Error.authentication_failed)
              (authenticate-admitted x s email password ip a u e l n) h))
    ]
  ]
]

-- The cells of an account when another counter is hit, and after a failure.
hit-cells :
    (now ip limit window prefix : ℕ) (account : Account) (r : Redis)
    → 1 < prefix
    → (hit now (login_scope ip) limit window r).1.cells (account_cell prefix account)
      ≡ r.cells (account_cell prefix account)
unfolding hit incr_with_ttl
hit-cells now ip limit window prefix account r h = ground (arith, h)

record_failure-fail :
    (most lockout now : ℕ) (account : Account) (r : Redis)
    → (record_failure most lockout now account r).cells (account_cell fail_prefix account)
      ≡ some (counter_cell now lockout (r.cells (account_cell fail_prefix account)))
unfolding record_failure incr_with_ttl set_value
record_failure-fail most lockout now account r = ground arith

record_failure-lock :
    (most lockout now : ℕ) (account : Account) (r : Redis)
    → most ≤ (counter_cell now lockout (r.cells (account_cell fail_prefix account))).value
    → (record_failure most lockout now account r).cells (account_cell lock_prefix account)
      ≡ some (record {
        value = 1;
        expires_at =
            now
            + seconds (
                lock_duration lockout (
                  (counter_cell now lockout (r.cells (account_cell fail_prefix account))).value
                  - most));
      })
unfolding record_failure incr_with_ttl set_value
record_failure-lock most lockout now account r h = ground (arith, h)

-- One guess is a request of its own.
abbrev pub guess : Crypto → AuthSettings → ℕ → Guess → Auth → Result LoginResult × Auth
guess x s email g a =
    request (authenticate x s email g.password g.ip) (record a { now = a.now + g.delay })

abbrev pub account_in : Crypto → ℕ → Tables → Account
account_in x email t = account_key (get_by_email x (x.normalize email) t) (x.normalize email)

request-err :
    {B : Type 0} (m : Action Auth B) (a : Auth) (e : Error)
    → (request m a).0 ≡ err e
    → let a0 : Auth = record a { saved = a.tables } in
      ((m a0).0 ≡ err e)
      × ((request m a).1.tables ≡ (m a0).1.saved)
      × ((request m a).1.redis ≡ (m a0).1.redis)
      × ((request m a).1.now ≡ (m a0).1.now)
unfolding request
request-err m a e h = elim (Result-cases (m (record a { saved = a.tables })).0) [
  | inl (d, k) ↦ absurd (ground (arith, k, h))
  | inr (d, k) ↦ ground (arith, k, h)
]

-- What a refused guess leaves.
guess-refused :
    (x : Crypto) (s : AuthSettings) (email : ℕ) (g : Guess) (a : Auth)
    → (guess x s email g a).0 ≡ err Error.authentication_failed
    → let b = (guess x s email g a).1 in
      (b.tables ≡ a.tables)
      × (b.now ≡ a.now + g.delay)
      × (b.redis
          ≡ record_failure s.max_failures s.lockout_seconds
              (a.now + g.delay)
              (account_in x email a.tables)
              (hit (a.now + g.delay) (login_scope (or_unknown g.ip)) 30 60 a.redis).1)
unfolding refuse_login
guess-refused x s email g a h =
    let a1 : Auth = record a { now = a.now + g.delay } in
    let a0 : Auth = record a1 { saved = a.tables } in
    let (k, tables, redis, now) =
      request-err (authenticate x s email g.password g.ip) a1 Error.authentication_failed h in
    let q = refused-is x s email g.password g.ip a0 k in
    (tables ∙ (λ i. (q i).1.saved), now ∙ (λ i. (q i).1.now), redis ∙ (λ i. (q i).1.redis))

-- `k` failures are counted in a window that ends at `end`, and the account is locked if they are too
-- many.
abbrev IsTallied : AuthSettings → ℕ → ℕ → Account → ℕ → Redis → Type 0
IsTallied s k end account now r =
    (r.cells (account_cell fail_prefix account) ≡ some (record { value = k; expires_at = end }))
    × (s.max_failures ≤ k
        → r.cells (account_cell lock_prefix account)
          ≡ some (record {
            value = 1;
            expires_at = now + seconds (lock_duration s.lockout_seconds (k - s.max_failures));
          }))

failure-tally :
    (s : AuthSettings) (k end now : ℕ) (account : Account) (r : Redis)
    → counter_cell now s.lockout_seconds (r.cells (account_cell fail_prefix account))
      ≡ record { value = k; expires_at = end }
    → IsTallied s k end account now (record_failure s.max_failures s.lockout_seconds now account r)
failure-tally s k end now account r c =
    let most = s.max_failures in
    let lockout = s.lockout_seconds in
    let after = record_failure most lockout now account r in
    let value : (counter_cell now lockout (r.cells (account_cell fail_prefix account))).value ≡ k =
      (λ i. (c i).value) in
    (
      record_failure-fail most lockout now account r ∙ (λ i. some (c i)),
      λ h.
          subst
            (λ v.
              after.cells (account_cell lock_prefix account)
              ≡ some (record {
                value = 1;
                expires_at = now + seconds (lock_duration lockout (v - most));
              }))
            value
            (record_failure-lock most lockout now account r (subst (λ v. most ≤ v) (sym value) h)),
    )

abbrev IsTalliedIn : Crypto → AuthSettings → ℕ → ℕ → ℕ → Auth → Type 0
IsTalliedIn x s email k end a = IsTallied s k end (account_in x email a.tables) a.now a.redis

-- A refused guess counts.
guess-tally :
    (x : Crypto) (s : AuthSettings) (email k end : ℕ) (g : Guess) (a : Auth)
    → (guess x s email g a).0 ≡ err Error.authentication_failed
    → counter_cell
        (a.now + g.delay)
        s.lockout_seconds
        (a.redis.cells (account_cell fail_prefix (account_in x email a.tables)))
      ≡ record { value = k; expires_at = end }
    → IsTalliedIn x s email k end (guess x s email g a).1
guess-tally x s email k end g a h c =
    let now = a.now + g.delay in
    let account = account_in x email a.tables in
    let (t, n, r) = guess-refused x s email g a h in
    let kept = hit-cells now (or_unknown g.ip) 30 60 fail_prefix account a.redis (omega arith) in
    let w =
      failure-tally s k end now account (hit now (login_scope (or_unknown g.ip)) 30 60 a.redis).1
        ((λ i. counter_cell now s.lockout_seconds (kept i)) ∙ c) in
    let w1 = subst (λ q. IsTallied s k end account now q) (sym r) w in
    let w2 = subst (λ q. IsTallied s k end account q (guess x s email g a).1.redis) (sym n) w1 in
    subst
      (λ q.
        IsTallied s k end (account_in x email q) (guess x s email g a).1.now
          (guess x s email g a).1.redis)
      (sym t) w2

abbrev pub guess_all : Crypto → AuthSettings → ℕ → List Guess → Auth → Auth
guess_all x s email [] a = a
guess_all x s email (g ∷ gs) a = guess_all x s email gs (guess x s email g a).1

-- Every guess is refused.
abbrev pub AreRefused : Crypto → AuthSettings → ℕ → List Guess → Auth → Type 0
AreRefused x s email [] a = Unit
AreRefused x s email (g ∷ gs) a =
    ((guess x s email g a).0 ≡ err Error.authentication_failed)
    × AreRefused x s email gs (guess x s email g a).1

abbrev pub delays : List Guess → ℕ
delays [] = 0
delays (g ∷ gs) = g.delay + delays gs

guess_all-tally :
    (x : Crypto) (s : AuthSettings) (email k end : ℕ) (gs : List Guess) (a : Auth)
    → AreRefused x s email gs a
    → IsTalliedIn x s email k end a
    → a.now + delays gs < end
    → IsTalliedIn x s email (k + length gs) end (guess_all x s email gs a)
guess_all-tally x s email k end [] a h v l =
    subst (λ n. IsTalliedIn x s email n end a) (omega arith) v
guess_all-tally x s email k end (g ∷ gs) a (h, hs) v l =
    let b = (guess x s email g a).1 in
    let (t, n, r) = guess-refused x s email g a h in
    let c : counter_cell (a.now + g.delay) s.lockout_seconds
          (a.redis.cells (account_cell fail_prefix (account_in x email a.tables)))
        ≡ record { value = k + 1; expires_at = end } =
      ground (arith, v.0, l) in
    let w = guess-tally x s email (k + 1) end g a h c in
    subst (λ n. IsTalliedIn x s email n end (guess_all x s email gs b)) (omega arith)
      (guess_all-tally x s email (k + 1) end gs b hs w
        (subst (λ n. n + delays gs < end) (sym n) (omega (arith, l))))

-- A window that is over starts again.
fresh-counter :
    (now d lockout : ℕ) (key : Key) (r : Redis)
    → get_value now key r ≡ none
    → counter_cell (now + d) lockout (r.cells key)
      ≡ record { value = 1; expires_at = now + d + seconds lockout }
unfolding get_value
fresh-counter now d lockout key r h = elim (Option-cases (r.cells key)) [
  | inl e ↦ ground (arith, e)
  | inr (c, e) ↦ elim (Bool-cases (ltb now c.expires_at)) [
    | inl l ↦ absurd (ground (arith, e, l, h))
    | inr l ↦ ground (arith, e, l)
  ]
]

-- A locked account is not let in, whatever the password is.
locked-limited :
    (x : Crypto) (s : AuthSettings) (email end : ℕ) (g : Guess) (a : Auth)
    → IsTalliedIn x s email s.max_failures end a
    → 60 ≤ s.lockout_seconds
    → g.delay < seconds 60
    → (guess x s email g a).0 ≡ err Error.rate_limited
unfolding request is_locked get_value
locked-limited x s email end g a (c, locks) m d =
    let a1 : Auth = record a { now = a.now + g.delay; saved = a.tables } in
    let account = account_in x email a.tables in
    let kept = hit-cells a1.now (or_unknown g.ip) 30 60 lock_prefix account a.redis (omega arith) in
    let cell = kept ∙ locks (omega arith) in
    let length_is : lock_duration s.lockout_seconds (s.max_failures - s.max_failures) ≡ 60 =
      ground (arith, m) in
    let cell2 =
      subst
        (λ n.
          (hit a1.now (login_scope (or_unknown g.ip)) 30 60 a.redis).1.cells
            (account_cell lock_prefix account)
          ≡ some (record { value = 1; expires_at = a.now + seconds n }))
        length_is cell in
    let locked : locked_now x s email g.password g.ip a1 ≡ true = ground (arith, cell2, d) in
    elim (Bool-cases (limited x s email g.password g.ip a1).0) [
      | inr e ↦ ground (arith, authenticate-limited x s email g.password g.ip a1 e)
      | inl e ↦ ground (arith, authenticate-locked x s email g.password g.ip a1 e locked)
    ]

-- After `max_failures` guesses that were refused for their password, within the lockout's length of
-- the first of them, every login to the account in the next minute is refused as rate limited, from
-- any address and also with the right password, when no failure was counted before and the lockout
-- lasts at least a minute.
pub lockout :
    (x : Crypto) (s : AuthSettings) (email : ℕ) (g : Guess) (gs : List Guess) (next : Guess)
    (a : Auth)
    → AreRefused x s email (g ∷ gs) a
    → suc (length gs) ≡ s.max_failures
    → get_value a.now (account_cell fail_prefix (account_in x email a.tables)) a.redis ≡ none
    → delays gs < seconds s.lockout_seconds
    → 60 ≤ s.lockout_seconds
    → next.delay < seconds 60
    → (guess x s email next (guess_all x s email (g ∷ gs) a)).0 ≡ err Error.rate_limited
lockout x s email g gs next a (h, hs) n z l m d =
    let end = a.now + g.delay + seconds s.lockout_seconds in
    let b = (guess x s email g a).1 in
    let (t, now, r) = guess-refused x s email g a h in
    let first = guess-tally x s email 1 end g a h (
      fresh-counter a.now g.delay s.lockout_seconds
        (account_cell fail_prefix (account_in x email a.tables)) a.redis z) in
    let w =
      guess_all-tally x s email 1 end gs b hs first
        (subst (λ n. n + delays gs < end) (sym now) (omega (arith, l))) in
    locked-limited x s email end next (guess_all x s email gs b)
      (subst (λ k. IsTalliedIn x s email k end (guess_all x s email gs b)) (omega (arith, n)) w) m d
