-- ===== src/Auth/Requests.antt =====
-- The requests to `AuthService`, each in a unit of work of its own.
use backend_core.Common.{ℕ, Option}
use backend_core.Shared.Errors.{Result, Action, pure, ◌>>◌}
use backend_core.Shared.Context.{Actor}
use backend_core.Auth.Store.{Auth, Tables, Crypto, AuthSettings, request}
use backend_core.Auth.Sessions.{refresh, issue_tenant_token, logout}
use backend_core.Auth.Factors.{complete_two_factor, enable_totp, confirm_totp, disable_totp}
use backend_core.Auth.Accounts.{
  register, authenticate, change_password, request_password_reset, reset_password,
}

-- A refresh comes with what other requests commit before its update.
pub data AuthRequest : Type 0 where
  sign_up : ℕ → ℕ → ℕ → Option ℕ → AuthRequest
  log_in : ℕ → ℕ → Option ℕ → AuthRequest
  second_factor : ℕ → ℕ → AuthRequest
  renew : (Tables → Tables) → ℕ → AuthRequest
  tenant_token : Actor → ℕ → AuthRequest
  log_out : ℕ → AuthRequest
  new_password : Actor → ℕ → ℕ → AuthRequest
  ask_reset : (ℕ → Result (Unit {0})) → ℕ → AuthRequest
  reset : ℕ → ℕ → AuthRequest
  enroll_factor : Actor → AuthRequest
  confirm_factor drop_factor : Actor → ℕ → AuthRequest

-- The operation of a request.
unfoldable pub operation : Crypto → AuthSettings → AuthRequest → Action Auth (Unit {0})
operation x s (sign_up email password locale ip) = register x s email password locale ip >> pure tt
operation x s (log_in email password ip) = authenticate x s email password ip >> pure tt
operation x s (second_factor challenge code) = complete_two_factor x s challenge code >> pure tt
operation x s (renew others token) = refresh others x s token >> pure tt
operation x s (tenant_token actor tenant) = issue_tenant_token x s actor tenant >> pure tt
operation x s (log_out token) = logout x token
operation x s (new_password actor current password) = change_password x actor current password
operation x s (ask_reset mailer email) = request_password_reset mailer x s email
operation x s (reset token password) = reset_password x token password
operation x s (enroll_factor actor) = enable_totp x actor >> pure tt
operation x s (confirm_factor actor code) = confirm_totp x actor code >> pure tt
operation x s (drop_factor actor code) = disable_totp x actor code

unfoldable pub serve : Crypto → AuthSettings → AuthRequest → Action Auth (Unit {0})
unfolding operation
serve x s q = request (operation x s q)
