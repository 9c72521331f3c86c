-- ===== src/Auth/Codes.antt =====
-- One-time codes of core/auth/service.py: TOTP, recovery codes, challenges.
use backend_core.Common.{
  ℕ, ◌+◌, ◌<◌, ◌≡◌, refl, true, false, some, List, [], ◌∷◌, map, arith, ◌⊎◌, inl, inr, Bool-cases,
  Option-cases, is_some, subst, sym,
}
use backend_core.Shared.Clock.{seconds}
use backend_core.Shared.Errors.{ok, Result-cases}
use backend_core.Auth.Redis.{totp_used_prefix, Redis, check_and_mark, get_value, set_value}
use backend_core.Auth.Store.{UserTotp, UserRecoveryCode, Auth, Crypto, get_totp}
use backend_core.Auth.Factors.{
  is_single, matching, spent_code, spend_recovery_code, verify_totp_or_recovery,
}

-- The TOTP of a user accepts a code now.
abbrev pub Matches : Crypto → ℕ → ℕ → Auth → UserTotp → ℕ → Type 0
Matches x u code a row secret =
    (get_totp u a.tables ≡ some row)
    × (x.decrypt row.secret_encrypted ≡ ok secret)
    × (x.totp_matches secret code a.now ≡ true)

module _ (x : Crypto) (u code : ℕ) (a : Auth) (row : UserTotp) (secret : ℕ) where
  verify-totp :
      get_totp u a.tables ≡ some row
      → x.decrypt row.secret_encrypted ≡ ok secret
      → x.totp_matches secret code a.now ≡ true
      → verify_totp_or_recovery x u code a ≡ (
        ok (check_and_mark a.now u code a.redis).0,
        record a { redis = (check_and_mark a.now u code a.redis).1 },
      )
  unfolding verify_totp_or_recovery
  verify-totp e k m = ground (arith, e, k, m)

  verify-recovery :
      get_totp u a.tables ≡ some row
      → x.decrypt row.secret_encrypted ≡ ok secret
      → x.totp_matches secret code a.now ≡ false
      → verify_totp_or_recovery x u code a ≡ spend_recovery_code x u code a
  unfolding verify_totp_or_recovery
  verify-recovery e k m = ground (arith, e, k, m)

-- What a code that was accepted is.
abbrev pub IsAccepted : Crypto → ℕ → ℕ → Auth → Type 0
IsAccepted x u code a =
    (row : UserTotp) × (secret : ℕ) × (get_totp u a.tables ≡ some row)
    × (x.decrypt row.secret_encrypted ≡ ok secret)
    × (((x.totp_matches secret code a.now ≡ true)
          × ((check_and_mark a.now u code a.redis).0 ≡ true))
        ⊎ ((x.totp_matches secret code a.now ≡ false)
            × (is_single (matching u (x.hash_recovery_code code) a.tables.recovery_codes) ≡ true)))

pub verify-IsAccepted :
    (x : Crypto) (u code : ℕ) (a : Auth)
    → (verify_totp_or_recovery x u code a).0 ≡ ok true
    → IsAccepted x u code a
unfolding verify_totp_or_recovery spend_recovery_code
verify-IsAccepted x u code a h = elim (Option-cases (get_totp u a.tables)) [
  | inl e ↦ absurd (ground (arith, e, h))
  | inr (row, e) ↦ elim (Result-cases (x.decrypt row.secret_encrypted)) [
    | inr (d, k) ↦ absurd (ground (arith, e, k, h))
    | inl (secret, k) ↦ elim (Bool-cases (x.totp_matches secret code a.now)) [
      | inl m ↦ (row, secret, e, k, inl (m, ground (arith, e, k, m, h)))
      | inr m ↦ (row, secret, e, k, inr (m, ground (arith, e, k, m, h)))
    ]
  ]
]

spent-none :
    (u hash now : ℕ) (codes : List UserRecoveryCode)
    → matching u hash (map (spent_code u hash now) codes) ≡ []
spent-none u hash now [] = refl
spent-none u hash now (c ∷ codes) = ground (arith, spent-none u hash now codes)

marked-used :
    (now d u code : ℕ) (r : Redis)
    → (check_and_mark now u code r).0 ≡ true
    → d < seconds 90
    → (check_and_mark (now + d) u code (check_and_mark now u code r).1).0 ≡ false
unfolding check_and_mark get_value set_value
marked-used now d u code r h l =
    elim (Bool-cases
      (is_some (get_value now (record { prefix = totp_used_prefix; name = u; part = code }) r))) [
        | inl e ↦ absurd (ground (arith, e, h))
        | inr e ↦ ground (arith, e, l)
      ]

-- A code that was accepted is not accepted again in the next 90 seconds, when it is not both a code of
-- the second factor and a recovery code that is left.
pub code-replayed :
    (x : Crypto) (u code d : ℕ) (a : Auth)
    → (verify_totp_or_recovery x u code a).0 ≡ ok true
    → ((matching u (x.hash_recovery_code code) a.tables.recovery_codes ≡ [])
        ⊎ ((secret t : ℕ) → x.totp_matches secret code t ≡ false))
    → d < seconds 90
    → let b = (verify_totp_or_recovery x u code a).1 in
      (verify_totp_or_recovery x u code (record b { now = b.now + d })).0 ≡ ok false
unfolding spend_recovery_code
code-replayed x u code d a h w l =
    let (row, secret, e, k, how) = verify-IsAccepted x u code a h in
    let hash = x.hash_recovery_code code in
    elim how [
      | inl (m, c) ↦
          let r = (check_and_mark a.now u code a.redis).1 in
          let q = verify-totp x u code a row secret e k m in
          let b : Auth = record a { redis = r; now = a.now + d } in
          subst
            (λ v.
              (verify_totp_or_recovery x u code (record v.1 { now = v.1.now + d })).0 ≡ ok false)
            (sym q)
            (elim (Bool-cases (x.totp_matches secret code b.now)) [
              | inl n ↦ ground (
                arith,
                verify-totp x u code b row secret e k n,
                marked-used a.now d u code a.redis c l,
              )
              | inr n ↦ elim w [
                | inl z ↦ ground (arith, verify-recovery x u code b row secret e k n, z)
                | inr z ↦ absurd (ground (arith, z secret a.now, m))
              ]
            ])
      | inr (m, c) ↦
          let q = verify-recovery x u code a row secret e k m in
          let b : Auth = record (spend_recovery_code x u code a).1 { now = a.now + d } in
          subst
            (λ v.
              (verify_totp_or_recovery x u code (record v.1 { now = v.1.now + d })).0 ≡ ok false)
            (sym q)
            (elim (Bool-cases (x.totp_matches secret code b.now)) [
              | inr n ↦ ground (
                arith,
                verify-recovery x u code b row secret e k n,
                spent-none u hash a.now a.tables.recovery_codes,
              )
              | inl n ↦ elim w [
                | inl z ↦ absurd (ground (arith, z, c))
                | inr z ↦ absurd (ground (arith, z secret b.now, n))
              ]
            ])
    ]
