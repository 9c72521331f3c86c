-- ===== src/Auth/Served.antt =====
-- A history of requests to `AuthService` of core/auth/service.py.
use backend_core.Common.{ℕ, ◌+◌, ◌≤◌, List, [], ◌∷◌, All, arith, inl, inr}
use backend_core.Shared.Errors.{Action, ◌>>◌, pure, Result-cases}
use backend_core.Shared.Triples.{Keeps, keep}
use backend_core.Shared.Context.{Actor}
use backend_core.Auth.Store.{Auth, Crypto, AuthSettings}
use backend_core.Auth.Sessions.{refresh, issue_tenant_token, encode_access_token, logout}
use backend_core.Auth.Factors.{complete_two_factor, enable_totp, confirm_totp}
use backend_core.Auth.Accounts.{register, authenticate}
use backend_core.Auth.Requests.{
  AuthRequest, sign_up, log_in, second_factor, renew, tenant_token, log_out, new_password,
  ask_reset, reset, enroll_factor, confirm_factor, drop_factor, operation, serve,
}
use backend_core.Auth.Families.{live_count}
use backend_core.Auth.Rotation.{IsSound, new_id-IsSound, revoke-IsSound}
use backend_core.Auth.Renewal.{refresh-IsSound, IsHonest}
use backend_core.Auth.Serving.{
  request-IsSound, authenticate-IsSound, register-IsSound, complete-IsSound, enable-IsSound,
  ask-IsSound, change_password-IsSound, reset_password-IsSound, confirm-IsSound, disable-IsSound,
}

-- The other requests that a renewal meets are honest.
abbrev pub IsFair : AuthRequest → Type 0
IsFair (renew others token) = IsHonest others
IsFair _ = Unit

tenant-IsSound :
    (x : Crypto) (s : AuthSettings) (actor : Actor) (tenant : ℕ)
    → Keeps IsSound (issue_tenant_token x s actor tenant)
unfolding issue_tenant_token encode_access_token
tenant-IsSound x s actor tenant a v = ground (arith, v, new_id-IsSound a v)

silent : {B : Type 0} (m : Action Auth B) → Keeps IsSound m → Keeps IsSound (m >> pure (tt {0}))
silent m k = keep IsSound m (λ _. pure tt) k (λ _ a v. v)

operation-IsSound :
    (x : Crypto) (s : AuthSettings) (q : AuthRequest) → IsFair q → Keeps IsSound (operation x s q)
unfolding operation logout
operation-IsSound x s (sign_up email password locale ip) h =
    silent (register x s email password locale ip) (register-IsSound x s email password locale ip)
operation-IsSound x s (log_in email password ip) h =
    silent (authenticate x s email password ip) (authenticate-IsSound x s email password ip)
operation-IsSound x s (second_factor token code) h =
    silent (complete_two_factor x s token code) (complete-IsSound x s token code)
operation-IsSound x s (renew others token) h =
    silent (refresh others x s token) (refresh-IsSound others x s token h)
operation-IsSound x s (tenant_token actor tenant) h =
    silent (issue_tenant_token x s actor tenant) (tenant-IsSound x s actor tenant)
operation-IsSound x s (log_out token) h = revoke-IsSound _ _
operation-IsSound x s (new_password actor current password) h =
    change_password-IsSound x actor current password
operation-IsSound x s (ask_reset mailer email) h = ask-IsSound mailer x s email
operation-IsSound x s (reset token password) h = reset_password-IsSound x token password
operation-IsSound x s (enroll_factor actor) h =
    silent (enable_totp x actor) (enable-IsSound x actor)
operation-IsSound x s (confirm_factor actor code) h =
    silent (confirm_totp x actor code) (confirm-IsSound x actor code)
operation-IsSound x s (drop_factor actor code) h = disable-IsSound x actor code

-- The state after a list of requests, each in a unit of work of its own; time may pass between them.
unfoldable pub serve_all : Crypto → AuthSettings → List (ℕ × AuthRequest) → Auth → Auth
serve_all x s [] a = a
serve_all x s ((t, q) ∷ qs) a = serve_all x s qs (serve x s q (record a { now = a.now + t })).1

pub served-IsSound :
    (x : Crypto) (s : AuthSettings) (qs : List (ℕ × AuthRequest)) (a : Auth)
    → All (λ q. IsFair q.1) qs
    → IsSound a
    → IsSound (serve_all x s qs a)
unfolding serve_all serve
served-IsSound x s [] a h v = v
served-IsSound x s ((t, q) ∷ qs) a h v =
    let a0 : Auth = record a { now = a.now + t } in
    let w = request-IsSound (operation x s q) (operation-IsSound x s q h.0) a0 v in
    served-IsSound x s qs (serve x s q a0).1 h.1 (elim (Result-cases (serve x s q a0).0) [
      | inl (b, e) ↦ ground (arith, e, w)
      | inr (d, e) ↦ ground (arith, e, w)
    ])

-- However requests follow one another, at most one token of a refresh family is neither rotated nor
-- revoked, when the tables are sound at the start and other requests that run during a refresh keep
-- the tables sound and move no row to another family.
pub live_count-serve_all :
    (x : Crypto) (s : AuthSettings) (qs : List (ℕ × AuthRequest)) (a : Auth) (f : ℕ)
    → All (λ q. IsFair q.1) qs
    → IsSound a
    → live_count f (serve_all x s qs a).tables.tokens ≤ 1
live_count-serve_all x s qs a f h v = (served-IsSound x s qs a h v).0.0 f
