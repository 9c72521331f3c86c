-- ===== src/Auth/Replay.antt =====
-- A refresh token of core/auth/service.py that is presented twice.
use backend_core.Common.{
  ℕ, ◌+◌, ◌≡◌, refl, Bool, true, false, some, List, [], ◌∷◌, ◌++◌, ◌==◌, any, find, map, leb, arith,
  inl, inr, Bool-cases, Option-cases, subst, sym, ◌∙◌,
}
use backend_core.Common.Table.{taken}
use backend_core.Shared.Errors.{Error, ok, err, Action, Result-cases}
use backend_core.Auth.Store.{
  User, RefreshToken, RevokedReason, reuse_detected, Tables, Auth, Crypto, AuthSettings, add_token,
  tokens_schema, get_user_row, request,
}
use backend_core.Auth.Sessions.{
  TokenPair, encode_access_token, add_session, is_usable, revoked_row, revoke, refuse_family,
  is_unspent, rotated_row, rotate, active_user, refresh_live, row_of, refresh,
}
use backend_core.Auth.Renewal.{session_row}

-- No other request commits during a refresh.
abbrev pub undisturbed : Tables → Tables
undisturbed t = t

-- What a refresh leaves of its token and its successor.
abbrev Renewed : Crypto → ℕ → Auth → TokenPair → Auth → Type 0
Renewed x token a pair b =
    (row succ : RefreshToken) × (row_of (x.hash_token token) a.tables ≡ some row)
    × (is_usable row ≡ true)
    × (b.tables.tokens ≡ map (rotated_row row.id a.now) a.tables.tokens ++ succ ∷ [])
    × (taken tokens_schema succ (map (rotated_row row.id a.now) a.tables.tokens) ≡ false)
    × (succ.token_hash ≡ x.hash_token pair.refresh_token)
    × (succ.family_id ≡ row.family_id)

rotate-Renewed :
    (x : Crypto) (s : AuthSettings) (token : ℕ) (row : RefreshToken) (u : User) (a : Auth)
    (pair : TokenPair)
    → row_of (x.hash_token token) a.tables ≡ some row
    → is_usable row ≡ true
    → (rotate x s row u a).0 ≡ ok pair
    → Renewed x token a pair (rotate x s row u a).1
unfolding rotate encode_access_token add_session add_token
rotate-Renewed x s token row u a pair e l h =
    let rows = map (rotated_row row.id a.now) a.tables.tokens in
    let a1 : Auth = record a {
      tables = record a.tables { tokens = rows };
      next_id = a.next_id + 1;
    } in
    let succ = session_row x s u.id row.family_id a1 in
    elim (Bool-cases (any (is_unspent row.id) a.tables.tokens)) [
      | inr g ↦ absurd (ground (arith, g, h))
      | inl g ↦ elim (Bool-cases (taken tokens_schema succ rows)) [
        | inl k ↦ absurd (ground (arith, g, k, h))
        | inr k ↦ (row, succ, e, l, ground (arith, g, k), k, ground (arith, g, k, h), refl)
      ]
    ]

refresh_live-Renewed :
    (x : Crypto) (s : AuthSettings) (token : ℕ) (row : RefreshToken) (a : Auth) (pair : TokenPair)
    → row_of (x.hash_token token) a.tables ≡ some row
    → is_usable row ≡ true
    → (refresh_live undisturbed x s row a).0 ≡ ok pair
    → Renewed x token a pair (refresh_live undisturbed x s row a).1
unfolding refresh_live refuse_family revoke
refresh_live-Renewed x s token row a pair e l h = elim (Bool-cases (leb row.expires_at a.now)) [
  | inl g ↦ absurd (ground (arith, g, h))
  | inr g ↦ elim (Option-cases (active_user (get_user_row row.user_id a.tables))) [
    | inl k ↦ absurd (ground (arith, g, k, h))
    | inr (u, k) ↦
        let q : refresh_live undisturbed x s row a ≡ rotate x s row u a = ground (arith, g, k) in
        subst (λ w. w.0 ≡ ok pair → Renewed x token a pair w.1) (sym q)
          (rotate-Renewed x s token row u a pair e l) h
  ]
]

refresh-Renewed :
    (x : Crypto) (s : AuthSettings) (token : ℕ) (a : Auth) (pair : TokenPair)
    → (refresh undisturbed x s token a).0 ≡ ok pair
    → Renewed x token a pair (refresh undisturbed x s token a).1
unfolding refresh refuse_family revoke
refresh-Renewed x s token a pair h = elim (Option-cases (row_of (x.hash_token token) a.tables)) [
  | inl e ↦ absurd (ground (arith, e, h))
  | inr (row, e) ↦ elim (Bool-cases (is_usable row)) [
    | inr l ↦ absurd (ground (arith, e, l, h))
    | inl l ↦
        let q : refresh undisturbed x s token a ≡ refresh_live undisturbed x s row a =
          ground (arith, e, l) in
        subst (λ w. w.0 ≡ ok pair → Renewed x token a pair w.1) (sym q)
          (refresh_live-Renewed x s token row a pair e l) h
  ]
]

find-append_map :
    (p : RefreshToken → Bool) (f : RefreshToken → RefreshToken) (rows rest : List RefreshToken)
    (r : RefreshToken)
    → ((b : RefreshToken) → p (f b) ≡ p b)
    → find p rows ≡ some r
    → find p (map f rows ++ rest) ≡ some (f r)
find-append_map p f [] rest r h e = cc
find-append_map p f (b ∷ rows) rest r h e =
    ground (arith, h b, e, find-append_map p f rows rest r h)

find-append_new :
    (rows : List RefreshToken) (r : RefreshToken)
    → taken tokens_schema r rows ≡ false
    → find (λ b. b.token_hash == r.token_hash) (rows ++ r ∷ []) ≡ some r
find-append_new [] r t = ground arith
find-append_new (b ∷ rows) r t = ground (arith, t, find-append_new rows r)

pub find-revoked :
    (h now : ℕ) (p : RefreshToken → Bool) (reason : RevokedReason) (rows : List RefreshToken)
    (r : RefreshToken)
    → find (λ b. b.token_hash == h) rows ≡ some r
    → find (λ b. b.token_hash == h) (map (revoked_row p reason now) rows)
      ≡ some (revoked_row p reason now r)
find-revoked h now p reason [] r e = cc
find-revoked h now p reason (b ∷ rows) r e = ground (arith, e, find-revoked h now p reason rows r)

-- A token that is not live any more: the answer, and what is committed nevertheless.
pub refresh_spent :
    (others : Tables → Tables) (x : Crypto) (s : AuthSettings) (token : ℕ) (row : RefreshToken)
    (a : Auth)
    → row_of (x.hash_token token) a.tables ≡ some row
    → is_usable row ≡ false
    → ((request (refresh others x s token) a).0 ≡ err Error.authentication_failed)
      × ((request (refresh others x s token) a).1.tables.tokens
          ≡ map
              (revoked_row (λ b. b.family_id == row.family_id) reuse_detected a.now)
              a.tables.tokens)
unfolding request refresh refuse_family revoke
refresh_spent others x s token row a e l = ground (arith, e, l)

pub request-ok :
    {B : Type 0} (m : Action Auth B) (a : Auth) (b : B)
    → (request m a).0 ≡ ok b
    → ((m (record a { saved = a.tables })).0 ≡ ok b)
      × ((request m a).1.tables ≡ (m (record a { saved = a.tables })).1.tables)
unfolding request
request-ok m a b h = elim (Result-cases (m (record a { saved = a.tables })).0) [
  | inl (d, e) ↦ ground (arith, e, h)
  | inr (d, e) ↦ absurd (ground (arith, e, h))
]

-- A revocation of the family of a live successor.
revoked_succ-dead :
    (i now t : ℕ) (row succ : RefreshToken)
    → succ.family_id ≡ row.family_id
    → is_usable
        (revoked_row (λ b. b.family_id == (rotated_row i now row).family_id) reuse_detected t succ)
      ≡ false
revoked_succ-dead i now t row succ f = ground (arith, f)

-- When a refresh has succeeded, its token is refused if it is presented again, and the token that
-- replaced it is refused if it is presented after that, however much time passes before either and
-- whatever other requests commit during them; no other request commits during the first refresh.
pub refresh-replayed :
    (x : Crypto) (s : AuthSettings) (token d e : ℕ) (others : Tables → Tables) (a : Auth)
    (pair : TokenPair)
    → (request (refresh undisturbed x s token) a).0 ≡ ok pair
    → let b = (request (refresh undisturbed x s token) a).1 in
      let w = request (refresh others x s token) (record b { now = b.now + d }) in
      (w.0 ≡ err Error.authentication_failed)
      × ((request (refresh others x s pair.refresh_token) (record w.1 { now = w.1.now + e })).0
          ≡ err Error.authentication_failed)
refresh-replayed x s token d e others a pair h =
    let a0 : Auth = record a { saved = a.tables } in
    let b = (request (refresh undisturbed x s token) a).1 in
    let b1 : Auth = record b { now = b.now + d } in
    let (k, t) = request-ok (refresh undisturbed x s token) a pair h in
    let (row, succ, r, l, tokens, free, hash, family) = refresh-Renewed x s token a0 pair k in
    let f = rotated_row row.id a.now in
    let old =
      find-append_map (λ b. b.token_hash == x.hash_token token) f a.tables.tokens (succ ∷ []) row
        (λ b. ground arith) r in
    let new =
      subst (λ h. find (λ b. b.token_hash == h) (map f a.tables.tokens ++ succ ∷ []) ≡ some succ)
        hash (find-append_new (map f a.tables.tokens) succ free) in
    let is : b.tables.tokens ≡ map f a.tables.tokens ++ succ ∷ [] = (λ i. (t i).tokens) ∙ tokens in
    let old_row =
      subst (λ rows. find (λ b. b.token_hash == x.hash_token token) rows ≡ some (f row)) (sym is)
        old in
    let new_row =
      subst (λ rows. find (λ b. b.token_hash == x.hash_token pair.refresh_token) rows ≡ some succ)
        (sym is) new in
    let w = request (refresh others x s token) b1 in
    let (refused, dead) = refresh_spent others x s token (f row) b1 old_row (ground arith) in
    let g = revoked_row (λ b. b.family_id == (f row).family_id) reuse_detected b1.now in
    let gone =
      subst
        (λ rows. find (λ b. b.token_hash == x.hash_token pair.refresh_token) rows ≡ some (g succ))
        (sym dead)
        (find-revoked (x.hash_token pair.refresh_token) b1.now
          (λ b. b.family_id == (f row).family_id) reuse_detected b.tables.tokens succ new_row) in
    (
      refused,
      (refresh_spent others x s pair.refresh_token (g succ) (record w.1 { now = w.1.now + e }) gone
          (revoked_succ-dead row.id a.now b1.now row succ family)).0,
    )
