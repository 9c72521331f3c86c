-- ===== src/Auth/Renewal.antt =====
-- The sessions of core/auth/service.py: what issues, rotates and kills refresh tokens keeps one live
-- token in a family.
use backend_core.Common.{
  ℕ, ◌+◌, ◌<◌, ◌≡◌, Bool, true, false, Option, none, some, List, [], ◌∷◌, ◌==◌, any, find, map, leb,
  arith, inl, inr, Bool-cases, Option-cases, subst,
}
use backend_core.Common.Table.{taken, IsUnique, map-IsUnique}
use backend_core.Common.Rows.{map-All, find-All}
use backend_core.Shared.Errors.{Result-cases}
use backend_core.Shared.Triples.{Triple, Keeps}
use backend_core.Shared.Clock.{seconds}
use backend_core.Auth.Store.{
  User, RefreshToken, RevokedReason, reuse_detected, user_blocked, Tables, Auth, Crypto,
  AuthSettings, add_token, save_user, tokens_schema, get_user_row,
}
use backend_core.Auth.Sessions.{
  encode_access_token, add_session, issue_tokens, is_usable, revoke, refuse_family, is_unspent,
  rotated_row, rotate, active_user, refresh_live, row_of, refresh,
}
use backend_core.Auth.Families.{live_count, IdFamily, unused-count, rotated-le, rotated-lt}
use backend_core.Auth.Rotation.{
  AreSessions, IsSound, IsOver, new_id-IsSound, save_user-IsSound, revoke-IsSound,
  add_token-IsSound,
}

encode-IsSound :
    (x : Crypto) (s : AuthSettings) (u : ℕ) (tenant : Option ℕ)
    → Keeps IsSound (encode_access_token x s u tenant)
unfolding encode_access_token
encode-IsSound x s u tenant a v = new_id-IsSound a v

abbrev pub session_row : Crypto → AuthSettings → ℕ → ℕ → Auth → RefreshToken
session_row x s u f a = record {
  id = a.next_id + 1;
  user_id = u;
  family_id = f;
  token_hash = x.hash_token (x.opaque_token a.next_id);
  expires_at = a.now + seconds s.refresh_ttl;
  rotated_at = none;
  revoked_at = none;
  revoked_reason = none;
}

pub add_session-IsSound :
    (x : Crypto) (s : AuthSettings) (u f : ℕ)
    → Triple IsSound (IsOver f) (add_session x s u f) (λ _. IsSound)
unfolding add_session
add_session-IsSound x s u f a v =
    let a2 : Auth = record a { next_id = a.next_id + 1 + 1 } in
    let row = session_row x s u f a in
    let later = new_id-IsSound (record a { next_id = a.next_id + 1 }) (new_id-IsSound a v.0) in
    let w = add_token-IsSound row a2 (later, v.1, omega (arith, v.2)) in
    elim (Result-cases (add_token row a2).0) [
      | inl (t, h) ↦ ground (arith, h, w)
      | inr (e, h) ↦ ground (arith, h, w)
    ]

pub issue_tokens-IsSound :
    (x : Crypto) (s : AuthSettings) (u : User) → Keeps IsSound (issue_tokens x s u)
unfolding issue_tokens encode_access_token
issue_tokens-IsSound x s u a v =
    let a1 : Auth = record a { next_id = a.next_id + 1 } in
    let a2 : Auth = record a { next_id = a.next_id + 1 + 1 } in
    let family = a.next_id + 1 in
    let v1 = new_id-IsSound a v in
    let none_live = unused-count family a.tables.tokens v1.0.1 in
    let w = add_session-IsSound x s u.id family a2 (new_id-IsSound a1 v1, none_live, omega arith) in
    let a3 = (add_session x s u.id family a2).1 in
    elim (Result-cases (add_session x s u.id family a2).0) [
      | inr (e, h) ↦ ground (arith, h, w)
      | inl (raw, h) ↦
          let u' : User = record u { last_login_at = some a3.now } in
          let w3 : IsSound a3 = ground (arith, h, w) in
          let w4 = save_user-IsSound u' a3 w3 in
          elim (Result-cases (save_user u' a3).0) [
            | inr (e, k) ↦ ground (arith, h, k, w4)
            | inl (t, k) ↦ ground (arith, h, k, w4)
          ]
    ]

pub refuse_family-IsSound :
    (f : ℕ) (reason : RevokedReason) → Keeps IsSound (refuse_family f reason)
unfolding refuse_family revoke
refuse_family-IsSound f reason a v =
    let w = revoke-IsSound (λ r. r.family_id == f) reason a v in (w.0, w.0)

rotated-same :
    (i now : ℕ) (r : RefreshToken)
    → ((rotated_row i now r).id ≡ r.id)
      × ((rotated_row i now r).token_hash ≡ r.token_hash)
      × ((rotated_row i now r).family_id ≡ r.family_id)
rotated-same i now r = ground arith

-- The row of a rotation, as the transaction sees its table.
abbrev IsRowOf : RefreshToken → Auth → Type 0
IsRowOf row a = IdFamily row.id row.family_id a.tables.tokens × (row.family_id < a.next_id)

rotated-AreSessions :
    (i now n f : ℕ) (rows : List RefreshToken)
    → AreSessions n rows
    → IdFamily i f rows
    → any (is_unspent i) rows ≡ true
    → AreSessions n (map (rotated_row i now) rows)
      × (live_count f (map (rotated_row i now) rows) ≡ 0)
rotated-AreSessions i now n f rows v d e =
    let g = rotated_row i now in
    let same = rotated-same i now in
    (
      (
        λ h. omega (arith, rotated-le i now h rows, v.0 h),
        map-All _ g rows (λ r h. ground (arith, h, (same r).2)) v.1,
        map-IsUnique tokens_schema g (λ r. (same r).0) (λ r b h. ground (arith, h, (same b).1)) rows
            v.2,
      ),
      omega (arith, rotated-lt i now f rows e d, v.0 f),
    )

rotate-IsSound :
    (x : Crypto) (s : AuthSettings) (row : RefreshToken) (u : User)
    → Triple IsSound (λ a. IsSound a × IsRowOf row a) (rotate x s row u) (λ _. IsSound)
unfolding rotate encode_access_token
rotate-IsSound x s row u a v = elim (Bool-cases (any (is_unspent row.id) a.tables.tokens)) [
  | inr e ↦ ground (arith, e, v)
  | inl e ↦
      let rows = map (rotated_row row.id a.now) a.tables.tokens in
      let t : Tables = record a.tables { tokens = rows } in
      let a1 : Auth = record a { tables = t } in
      let a2 : Auth = record a1 { next_id = a.next_id + 1 } in
      let (k, z) =
        rotated-AreSessions row.id a.now a.next_id row.family_id a.tables.tokens v.0.0 v.1.0 e in
      let v2 : IsSound a2 = new_id-IsSound a1 (k, v.0.1) in
      let w = add_session-IsSound x s u.id row.family_id a2 (v2, z, omega (arith, v.1.1)) in
      elim (Result-cases (add_session x s u.id row.family_id a2).0) [
        | inl (raw, h) ↦ ground (arith, e, h, w)
        | inr (d, h) ↦ ground (arith, e, h, w)
      ]
]

-- What other requests commit keeps the table sound, and moves no row to another family.
abbrev pub IsHonest : (Tables → Tables) → Type 0
IsHonest others =
    (n i f : ℕ) (t : Tables)
    → AreSessions n t.tokens
    → AreSessions n (others t).tokens
      × (any (λ r. r.id == i) t.tokens ≡ true
          → IdFamily i f t.tokens
          → IdFamily i f (others t).tokens)

taken-IdFamily :
    (r : RefreshToken) (f : ℕ) (rows : List RefreshToken)
    → taken tokens_schema r rows ≡ false
    → IdFamily r.id f rows
taken-IdFamily r f [] h = tt
taken-IdFamily r f (b ∷ rows) h =
    (λ e. absurd (ground (arith, e, h)), taken-IdFamily r f rows (ground (arith, h)))

find-taken :
    (p : RefreshToken → Bool) (b : RefreshToken) (rows : List RefreshToken) (a : RefreshToken)
    → taken tokens_schema b rows ≡ false
    → find p rows ≡ some a
    → (b.id == a.id) ≡ false
find-taken p b [] a h e = cc
find-taken p b (d ∷ rows) a h e = ground (arith, find-taken p b rows a)

find-IdFamily :
    (p : RefreshToken → Bool) (rows : List RefreshToken) (a : RefreshToken)
    → IsUnique tokens_schema rows
    → find p rows ≡ some a
    → IdFamily a.id a.family_id rows
find-IdFamily p [] a u e = tt
find-IdFamily p (b ∷ rows) a u e = elim (Bool-cases (p b)) [
  | inl h ↦
      let q : b ≡ a = ground (arith, e, h) in
      (
        λ d. λ i. (q i).family_id,
        subst (λ r. IdFamily r.id a.family_id rows) q (taken-IdFamily b a.family_id rows u.0),
      )
  | inr h ↦
      let g : find p rows ≡ some a = ground (arith, e, h) in
      (λ d. absurd (ground (arith, d, find-taken p b rows a u.0 g)), find-IdFamily p rows a u.1 g)
]

find-id :
    (p : RefreshToken → Bool) (rows : List RefreshToken) (a : RefreshToken)
    → find p rows ≡ some a
    → any (λ r. r.id == a.id) rows ≡ true
find-id p [] a e = cc
find-id p (b ∷ rows) a e = ground (arith, e, find-id p rows a)

refresh_live-IsSound :
    (others : Tables → Tables) (x : Crypto) (s : AuthSettings) (row : RefreshToken)
    → IsHonest others
    → Triple IsSound
        (λ a. IsSound a × IsRowOf row a × (any (λ r. r.id == row.id) a.tables.tokens ≡ true))
        (refresh_live others x s row)
        (λ _. IsSound)
unfolding refresh_live
refresh_live-IsSound others x s row o a v =
    let (h, moved) = o a.next_id row.id row.family_id a.tables v.0.0 in
    let b : Auth = record a { tables = others a.tables; saved = others a.saved } in
    let w = (o a.next_id row.id row.family_id a.saved v.0.1).0 in
    elim (Bool-cases (leb row.expires_at a.now)) [
      | inl e ↦ ground (arith, e, v)
      | inr e ↦ elim (Option-cases (active_user (get_user_row row.user_id a.tables))) [
        | inl g ↦ ground (arith, e, g, refuse_family-IsSound row.family_id user_blocked a v.0)
        | inr (u, g) ↦
            ground (arith, e, g, rotate-IsSound x s row u b ((h, w), (moved v.2 v.1.0, v.1.1)))
      ]
    ]

pub refresh-IsSound :
    (others : Tables → Tables) (x : Crypto) (s : AuthSettings) (token : ℕ)
    → IsHonest others
    → Keeps IsSound (refresh others x s token)
unfolding refresh
refresh-IsSound others x s token o a v =
    let rows = a.tables.tokens in
    elim (Option-cases (row_of (x.hash_token token) a.tables)) [
      | inl e ↦ ground (arith, e, v)
      | inr (row, e) ↦ elim (Bool-cases (is_usable row)) [
        | inr l ↦ ground (arith, e, l, refuse_family-IsSound row.family_id reuse_detected a v)
        | inl l ↦
            let p : RefreshToken → Bool = λ r. r.token_hash == x.hash_token token in
            let d = find-IdFamily p rows row v.0.2 e in
            let f = find-All (λ r. r.family_id < a.next_id) p rows row v.0.1 e in
            ground (
              arith,
              e,
              l,
              refresh_live-IsSound others x s row o a (v, (d, f), find-id p rows row e),
            )
      ]
    ]
