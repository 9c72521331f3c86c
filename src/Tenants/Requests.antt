-- ===== src/Tenants/Requests.antt =====
-- The operations of `TenantService` as requests, each in a unit of work of its own
-- (shared/service.py).
use backend_core.Common.{ℕ, Option}
use backend_core.Shared.Errors.{Action, pure, unit_of_work, ◌>>◌}
use backend_core.Tenants.Store.{Tenancy, TenantContext, Texts}
use backend_core.Tenants.Service.{
  Mailer, AskedStatus, create_tenant, accept_invitation, update_tenant, invite_member,
  revoke_invitation, change_member_role, remove_member, set_status,
}

pub data Request : Type 0 where
  create accept invite change_role : ℕ → ℕ → Request
  update : Option ℕ → Option ℕ → Request
  revoke remove : ℕ → Request
  set : ℕ → AskedStatus → Request

unfoldable pub run : Texts → Option Mailer → TenantContext → Request → Action Tenancy (Unit {0})
run x mailer c (create name slug) = unit_of_work (create_tenant x c name slug >> pure tt)
run x mailer c (accept token email) = unit_of_work (accept_invitation x c token email >> pure tt)
run x mailer c (update name locale) = unit_of_work (update_tenant c name locale >> pure tt)
run x mailer c (invite email role) = unit_of_work (invite_member x mailer c email role >> pure tt)
run x mailer c (revoke i) = unit_of_work (revoke_invitation c i)
run x mailer c (change_role u role) = unit_of_work (change_member_role c u role >> pure tt)
run x mailer c (remove u) = unit_of_work (remove_member c u)
run x mailer c (set t asked) = unit_of_work (set_status t asked)
