-- ===== src/Auth/Families.antt =====
-- The families of refresh tokens of core/auth/service.py: counts of live tokens.
use backend_core.Common.{
  ℕ, ◌+◌, ◌≤◌, ◌<◌, ◌≡◌, refl, Bool, true, false, ◌&&◌, List, [], ◌∷◌, ◌++◌, ◌==◌, any, map, select,
  length, All, if◌then◌else◌, arith,
}
use backend_core.Auth.Store.{RefreshToken, RevokedReason}
use backend_core.Auth.Sessions.{is_usable, revoked_row, rotated_row, is_unspent}

abbrev pub in_family : ℕ → RefreshToken → Bool
in_family f r = r.family_id == f && is_usable r

abbrev pub live_count : ℕ → List RefreshToken → ℕ
live_count f rows = length (select (in_family f) rows)

-- No family has two live tokens.
abbrev pub IsRotating : List RefreshToken → Type 0
IsRotating rows = (f : ℕ) → live_count f rows ≤ 1

pub revoked-le :
    (p : RefreshToken → Bool) (reason : RevokedReason) (now f : ℕ) (rows : List RefreshToken)
    → live_count f (map (revoked_row p reason now) rows) ≤ live_count f rows
revoked-le p reason now f [] = omega arith
revoked-le p reason now f (r ∷ rows) = ground (arith, revoked-le p reason now f rows)

pub rotated-le :
    (i now f : ℕ) (rows : List RefreshToken)
    → live_count f (map (rotated_row i now) rows) ≤ live_count f rows
rotated-le i now f [] = omega arith
rotated-le i now f (r ∷ rows) = ground (arith, rotated-le i now f rows)

-- The rows of an id are of one family.
abbrev pub IdFamily : ℕ → ℕ → List RefreshToken → Type 0
IdFamily i f rows = All (λ r. r.id ≡ i → r.family_id ≡ f) rows

pub rotated-lt :
    (i now f : ℕ) (rows : List RefreshToken)
    → any (is_unspent i) rows ≡ true
    → IdFamily i f rows
    → live_count f (map (rotated_row i now) rows) < live_count f rows
rotated-lt i now f [] h s = cc
rotated-lt i now f (r ∷ rows) h s =
    ground (arith, h, s.0, rotated-lt i now f rows, rotated-le i now f rows, s.1)

pub append-count :
    (f : ℕ) (rows : List RefreshToken) (r : RefreshToken)
    → live_count f (rows ++ r ∷ []) ≡ live_count f rows + (if in_family f r then 1 else 0)
append-count f [] r = ground arith
append-count f (x ∷ rows) r = ground (arith, append-count f rows r)

-- A family that no row has.
pub unused-count :
    (f : ℕ) (rows : List RefreshToken) → All (λ r. r.family_id < f) rows → live_count f rows ≡ 0
unused-count f [] h = refl
unused-count f (r ∷ rows) h = ground (arith, h.0, unused-count f rows h.1)

pub append-IsRotating :
    (rows : List RefreshToken) (r : RefreshToken)
    → live_count r.family_id rows ≡ 0
    → IsRotating rows
    → IsRotating (rows ++ r ∷ [])
append-IsRotating rows r z v f = ground (arith, append-count f rows r, z, v f)

pub revoked-IsRotating :
    (p : RefreshToken → Bool) (reason : RevokedReason) (now : ℕ) (rows : List RefreshToken)
    → IsRotating rows
    → IsRotating (map (revoked_row p reason now) rows)
revoked-IsRotating p reason now rows v f = omega (arith, v f, revoked-le p reason now f rows)

-- A rotation with its successor.
pub rotated-IsRotating :
    (i now : ℕ) (r : RefreshToken) (rows : List RefreshToken)
    → any (is_unspent i) rows ≡ true
    → IdFamily i r.family_id rows
    → IsRotating rows
    → IsRotating (map (rotated_row i now) rows ++ r ∷ [])
rotated-IsRotating i now r rows h s v =
    append-IsRotating (map (rotated_row i now) rows) r
      (omega (arith, rotated-lt i now r.family_id rows h s, v r.family_id))
      (λ f. omega (arith, rotated-le i now f rows, v f))

-- After a revocation no row of the condition is live.
pub revoked-dead :
    (p : RefreshToken → Bool) (reason : RevokedReason) (now : ℕ) (rows : List RefreshToken)
    → ((r : RefreshToken) → p (revoked_row p reason now r) ≡ p r)
    → any (λ r. p r && is_usable r) (map (revoked_row p reason now) rows) ≡ false
revoked-dead p reason now [] h = refl
revoked-dead p reason now (r ∷ rows) h = ground (arith, h r, revoked-dead p reason now rows h)
