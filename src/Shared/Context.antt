-- ===== src/Shared/Context.antt =====
-- shared/context.py and the permission guard of core/auth/guard.py and core/auth/access_service.py.
use backend_core.Common.{ℕ, Bool, true, false, Option, none, some, ◌≡◌, refl, arith}
use backend_core.Shared.Errors.{Error, Result, ok, err}

-- `Actor.kind` with `Actor.id`; of internal actors the code reads only the kind.
pub data Actor : Type 0 where
  user : Option ℕ → Actor
  system integration : Actor

-- What `PermissionResolver` answers: whether a user holds a permission in the context's tenant.
abbrev pub AccessService : Type 0 → Type 0
AccessService P = ℕ → P → Bool

abbrev pub grant : Bool → Result (Unit {0})
grant true = ok tt
grant false = err Error.permission_denied

-- `PermissionGuard.require`
unfoldable pub require_permission :
    {P : Type 0} → Actor → Option (AccessService P) → P → Result (Unit {0})
require_permission (user none) access p = err Error.permission_denied
require_permission (user (some u)) none p = err Error.permission_denied
require_permission (user (some u)) (some has) p = grant (has u p)
require_permission system access p = ok tt
require_permission integration access p = ok tt

-- A person whom the guard lets through is identified, and the service was built with an access
-- service that grants the permission to that very person.
pub require_permission_sound :
    {P : Type 0} (i : Option ℕ) (access : Option (AccessService P)) (p : P)
    → require_permission (user i) access p ≡ ok tt
    → (u : ℕ) × (has : AccessService P) × (i ≡ some u) × (access ≡ some has) × (has u p ≡ true)
unfolding require_permission
require_permission_sound none access p h = cc
require_permission_sound (some u) none p h = cc
require_permission_sound (some u) (some has) p h = (u, has, refl, refl, ground arith)
