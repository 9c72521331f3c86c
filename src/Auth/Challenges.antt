-- ===== src/Auth/Challenges.antt =====
-- The challenge between the two steps of a login (`complete_two_factor` of core/auth/service.py).
use backend_core.Common.{
  ℕ, ◌+◌, ◌≡◌, Bool, true, false, not, Option, none, some, arith, inl, inr, Bool-cases,
  Option-cases, subst, sym, ◌∙◌,
}
use backend_core.Shared.Errors.{Error, ok, err, Action, Result-cases, ◌>>=◌, ◌>>◌, raise_if}
use backend_core.Shared.Triples.{Keeps, keep}
use backend_core.Auth.Redis.{
  Key, Redis, hit, incr_with_ttl, consume, check_and_mark, get_value, set_value, delete_key,
}
use backend_core.Auth.Store.{
  User, Auth, Crypto, AuthSettings, get_user_row, get_totp, request, is_active_user, save_user,
  add_token,
}
use backend_core.Auth.Sessions.{
  TokenPair, issue_tokens, active_user, encode_access_token, add_session,
}
use backend_core.Auth.Factors.{
  challenge_ns, two_factor_scope, spend_recovery_code, verify_totp_or_recovery, complete_two_factor,
}
use backend_core.Auth.Logins.{active_user-some}
use backend_core.Auth.Codes.{IsAccepted, verify-IsAccepted}

abbrev challenge_key : Crypto → ℕ → Key
challenge_key x token = record { prefix = challenge_ns; name = x.hash_token token; part = 0 }

-- The challenge is gone.
abbrev IsGone : Crypto → ℕ → Auth → Type 0
IsGone x token a = a.redis.cells (challenge_key x token) ≡ none

add_session-IsGone :
    (x : Crypto) (token : ℕ) (s : AuthSettings) (u f : ℕ)
    → Keeps (IsGone x token) (add_session x s u f)
unfolding add_session add_token
add_session-IsGone x token s u f a v = ground (arith, v)

save_user-IsGone : (x : Crypto) (token : ℕ) (u : User) → Keeps (IsGone x token) (save_user u)
unfolding save_user
save_user-IsGone x token u a v = ground (arith, v)

issue_tokens-IsGone :
    (x : Crypto) (token : ℕ) (s : AuthSettings) (u : User)
    → Keeps (IsGone x token) (issue_tokens x s u)
unfolding issue_tokens encode_access_token
issue_tokens-IsGone x token s u a v =
    let a2 : Auth = record a { next_id = a.next_id + 1 + 1 } in
    let w = add_session-IsGone x token s u.id (a.next_id + 1) a2 v in
    let a3 = (add_session x s u.id (a.next_id + 1) a2).1 in
    let u' : User = record u { last_login_at = some a3.now } in
    elim (Result-cases (add_session x s u.id (a.next_id + 1) a2).0) [
      | inr (e, h) ↦ ground (arith, h, w)
      | inl (raw, h) ↦
          let w3 : IsGone x token a3 = ground (arith, h, w) in
          let w4 = save_user-IsGone x token u' a3 w3 in
          elim (Result-cases (save_user u' a3).0) [
            | inr (e, k) ↦ ground (arith, h, k, w4)
            | inl (t, k) ↦ ground (arith, h, k, w4)
          ]
    ]

verify-IsGone :
    (x : Crypto) (token u code : ℕ) → Keeps (IsGone x token) (verify_totp_or_recovery x u code)
unfolding verify_totp_or_recovery spend_recovery_code check_and_mark set_value
verify-IsGone x token u code a v = elim (Option-cases (get_totp u a.tables)) [
  | inl e ↦ ground (arith, e, v)
  | inr (row, e) ↦ elim (Result-cases (x.decrypt row.secret_encrypted)) [
    | inr (d, k) ↦ ground (arith, e, k, v)
    | inl (secret, k) ↦ elim (Bool-cases (x.totp_matches secret code a.now)) [
      | inl m ↦ ground (arith, e, k, m, v)
      | inr m ↦ ground (arith, e, k, m, v)
    ]
  ]
]

abbrev checked : Crypto → AuthSettings → ℕ → ℕ → User → Action Auth TokenPair
checked x s u code person = verify_totp_or_recovery x u code >>= λ verified.
    raise_if (not verified) Error.authentication_failed >> issue_tokens x s person

checked-IsGone :
    (x : Crypto) (token : ℕ) (s : AuthSettings) (u code : ℕ) (person : User)
    → Keeps (IsGone x token) (checked x s u code person)
checked-IsGone x token s u code person =
    keep (IsGone x token) (verify_totp_or_recovery x u code)
      (λ verified. raise_if (not verified) Error.authentication_failed >> issue_tokens x s person)
      (verify-IsGone x token u code)
      (λ verified.
        keep (IsGone x token) (raise_if (not verified) Error.authentication_failed)
          (λ _. issue_tokens x s person) (λ b w. ground (arith, w))
          (λ _. issue_tokens-IsGone x token s person))

-- The ways of the second step.
module _ (x : Crypto) (s : AuthSettings) (token code : ℕ) (a : Auth) where
  abbrev pub taken_challenge : Option ℕ × Redis
  taken_challenge = consume a.now challenge_ns (x.hash_token token) a.redis

  abbrev pub counted : ℕ → Bool × Redis
  counted u = hit a.now (two_factor_scope u) 5 300 taken_challenge.1

  abbrev pub counted_state : ℕ → Auth
  counted_state u = record a { redis = (counted u).1 }

  complete-unknown :
      taken_challenge.0 ≡ none
      → complete_two_factor x s token code a
        ≡ (err Error.authentication_failed, record a { redis = taken_challenge.1 })
  unfolding complete_two_factor
  complete-unknown e = ground (arith, e)

  complete-limited :
      (u : ℕ)
      → taken_challenge.0 ≡ some u
      → (counted u).0 ≡ false
      → complete_two_factor x s token code a ≡ (err Error.rate_limited, counted_state u)
  unfolding complete_two_factor
  complete-limited u e l = ground (arith, e, l)

  complete-blocked :
      (u : ℕ)
      → taken_challenge.0 ≡ some u
      → (counted u).0 ≡ true
      → active_user (get_user_row u a.tables) ≡ none
      → complete_two_factor x s token code a ≡ (err Error.authentication_failed, counted_state u)
  unfolding complete_two_factor
  complete-blocked u e l n = ground (arith, e, l, n)

  complete-checked :
      (u : ℕ) (person : User)
      → taken_challenge.0 ≡ some u
      → (counted u).0 ≡ true
      → active_user (get_user_row u a.tables) ≡ some person
      → complete_two_factor x s token code a ≡ checked x s u code person (counted_state u)
  unfolding complete_two_factor
  complete-checked u person e l n = ground (arith, e, l, n)

taken-IsGone :
    (x : Crypto) (s : AuthSettings) (token code u : ℕ) (a : Auth)
    → IsGone x token (counted_state x s token code a u)
unfolding consume delete_key hit incr_with_ttl
taken-IsGone x s token code u a = ground arith

complete-IsGone :
    (x : Crypto) (s : AuthSettings) (token code : ℕ) (a : Auth)
    → IsGone x token (complete_two_factor x s token code a).1
unfolding consume delete_key
complete-IsGone x s token code a = elim (Option-cases (taken_challenge x s token code a).0) [
  | inl e ↦
      subst (λ w. IsGone x token w.1) (sym (complete-unknown x s token code a e)) (ground arith)
  | inr (u, e) ↦
      let v = taken-IsGone x s token code u a in
      elim (Bool-cases (counted x s token code a u).0) [
        | inr l ↦ subst (λ w. IsGone x token w.1) (sym (complete-limited x s token code a u e l)) v
        | inl l ↦ elim (Option-cases (active_user (get_user_row u a.tables))) [
          | inl n ↦
              subst (λ w. IsGone x token w.1) (sym (complete-blocked x s token code a u e l n)) v
          | inr (person, n) ↦
              let b = counted_state x s token code a u in
              let k = checked-IsGone x token s u code person b v in
              subst (λ w. IsGone x token w.1)
                (sym (complete-checked x s token code a u person e l n))
                (elim (Result-cases (checked x s u code person b).0) [
                  | inl (pair, h) ↦ ground (arith, h, k)
                  | inr (d, h) ↦ ground (arith, h, k)
                ])
        ]
      ]
]

request-redis :
    {B : Type 0} (m : Action Auth B) (a : Auth)
    → (request m a).1.redis ≡ (m (record a { saved = a.tables })).1.redis
unfolding request
request-redis m a = elim (Result-cases (m (record a { saved = a.tables })).0) [
  | inl (b, e) ↦ ground (arith, e)
  | inr (d, e) ↦ ground (arith, e)
]

-- A challenge allows one guess: however its first use ended, and whatever code comes with it, its
-- second use is refused.
pub complete_two_factor-once :
    (x : Crypto) (s : AuthSettings) (token code other d : ℕ) (a : Auth)
    → let b = (request (complete_two_factor x s token code) a).1 in
      (request (complete_two_factor x s token other) (record b { now = b.now + d })).0
      ≡ err Error.authentication_failed
unfolding request consume get_value
complete_two_factor-once x s token code other d a =
    let b = (request (complete_two_factor x s token code) a).1 in
    let b1 : Auth = record b { now = b.now + d; saved = b.tables } in
    let gone =
      (λ i. (request-redis (complete_two_factor x s token code) a i).cells (challenge_key x token))
      ∙ complete-IsGone x s token code (record a { saved = a.tables }) in
    let none_left : (taken_challenge x s token other b1).0 ≡ none = ground (arith, gone) in
    ground (arith, complete-unknown x s token other b1 none_left)

checked-ok :
    (x : Crypto) (s : AuthSettings) (u code : ℕ) (person : User) (b : Auth) (pair : TokenPair)
    → (checked x s u code person b).0 ≡ ok pair
    → IsAccepted x u code b
checked-ok x s u code person b pair h = elim (Result-cases (verify_totp_or_recovery x u code b).0) [
  | inr (d, e) ↦ absurd (ground (arith, e, h))
  | inl (verified, e) ↦ elim (Bool-cases verified) [
    | inr f ↦ absurd (ground (arith, e, f, h))
    | inl f ↦ verify-IsAccepted x u code b (e ∙ (λ i. ok (f i)))
  ]
]

-- The second step of a login answers with tokens only for a challenge that is known, to an active
-- user, within the limit of five tries in five minutes, and for a code that is accepted.
pub complete_two_factor-tokens :
    (x : Crypto) (s : AuthSettings) (token code : ℕ) (a : Auth) (pair : TokenPair)
    → (complete_two_factor x s token code a).0 ≡ ok pair
    → (u : ℕ) × (person : User) × ((consume a.now challenge_ns (x.hash_token token) a.redis).0
        ≡ some u)
      × ((counted x s token code a u).0 ≡ true)
      × (get_user_row u a.tables ≡ some person)
      × (is_active_user person.status ≡ true)
      × IsAccepted x u code (counted_state x s token code a u)
complete_two_factor-tokens x s token code a pair h =
    elim (Option-cases (taken_challenge x s token code a).0) [
      | inl e ↦ absurd (ground (arith, complete-unknown x s token code a e, h))
      | inr (u, e) ↦ elim (Bool-cases (counted x s token code a u).0) [
        | inr l ↦ absurd (ground (arith, complete-limited x s token code a u e l, h))
        | inl l ↦ elim (Option-cases (active_user (get_user_row u a.tables))) [
          | inl n ↦ absurd (ground (arith, complete-blocked x s token code a u e l n, h))
          | inr (person, n) ↦
              let (g, p) = active_user-some (get_user_row u a.tables) person n in
              let q =
                subst (λ w. w.0 ≡ ok pair) (complete-checked x s token code a u person e l n) h in
              (
                u,
                person,
                e,
                l,
                g,
                p,
                checked-ok x s u code person (counted_state x s token code a u) pair q,
              )
        ]
      ]
    ]
