-- ===== src/Tenants/Tests.antt =====
-- Runs of core/tenants/service.py on one small tenant.
use backend_core.Common.{◌++◌, ◌+◌, ◌≡◌, refl, true, false, none, some, [], ◌∷◌, ◌==◌, any, arith}
use backend_core.Shared.Errors.{Error, ok, err, unit_of_work}
use backend_core.Shared.Clock.{DateTime}
use backend_core.Shared.Context.{user, require_permission}
use backend_core.Tenants.Models.{
  Tenant, TenantStatus, Membership, MembershipStatus, Role, Invitation, InvitationStatus,
}
use backend_core.Tenants.Store.{
  Tenancy, TenantContext, Texts, IsConsistent, member_invited, member_joined, status_changed,
  tenant_created, in_tenant, role_codes, tenant_is_active, joined_codes, get_permission_codes,
  has_active_membership, context_tenant, system_role, tenant_or_system_role, member_or_raise,
  actor_user_id, insert_tenant, insert_membership, save_tenant, save_invitation,
}
use backend_core.Tenants.Service.{
  Mailer, suspend, asked_status, require, create_tenant, check_invitation, join, accept_invitation,
  add_invitation, send_mail, invite_member, guard_last_owner, remove_member, set_status,
}
use backend_core.Tenants.Requests.{run, remove}
use backend_core.Tenants.Owners.{IsOwned}
use backend_core.Tenants.Owned.{run-IsOwned}
use backend_core.Tenants.Access.{is_guarded, set_status-suspends}
use backend_core.Tenants.Joining.{accept_invitation-once}
use backend_core.Tenants.Clashes.{create_tenant-conflict}
use backend_core.Tenants.Inviting.{invite_member-accept_invitation}

abbrev monday : DateTime
monday = record { year = 2026; month = 11; day = 2; micros = 0 }

abbrev texts : Texts
texts = record {
  normalize = λ t. t;
  opaque_token = λ n. n + 100;
  hash_token = λ n. n + 1000;
  add_days = λ d n. record d { day = d.day + n };
}

abbrev owner_role : Role
owner_role = record { id = 1; tenant_id = none; code = 1 }

abbrev member_role : Role
member_role = record { id = 2; tenant_id = none; code = 3 }

abbrev acme : Tenant
acme = record {
  id = 5;
  name = 50;
  slug = 51;
  owner_user_id = 7;
  status = TenantStatus.active;
  default_locale = 7;
}

abbrev founder_row : Membership
founder_row = record {
  id = 6;
  tenant_id = 5;
  user_id = 7;
  role_id = 1;
  status = MembershipStatus.active;
}

abbrev small : Tenancy
small = record {
  now = monday;
  next_id = 10;
  tenants = acme ∷ [];
  roles = owner_role ∷ member_role ∷ [];
  role_permissions =
      record { role_id = 1; permission_code = 44 }
      ∷ record { role_id = 1; permission_code = 45 }
      ∷ [];
  memberships = founder_row ∷ [];
  invitations = [];
  outbox = [];
  mails = [];
  audit = [];
}

-- The founder in the tenant, and a user outside it.
abbrev inside : TenantContext
inside = record { tenant_id = some 5; actor = user (some 7) }

abbrev outside : TenantContext
outside = record { tenant_id = none; actor = user (some 8) }

abbrev mailer : Mailer
mailer mail = ok tt

small-IsConsistent : IsConsistent small
small-IsConsistent = ((refl, tt), (refl, tt), tt)

small_owner : system_role 1 small ≡ ok owner_role
unfolding system_role
small_owner = refl

-- The only owner cannot be removed.
last_owner : (run texts none inside (remove 7) small).0 ≡ err Error.invariant_violation
unfolding run unit_of_work remove_member require require_permission get_permission_codes
    joined_codes role_codes tenant_is_active member_or_raise in_tenant guard_last_owner system_role
last_owner = refl

run-IsOwned_example : IsOwned 1 (run texts none inside (remove 7) small).1
run-IsOwned_example =
    run-IsOwned texts none inside (remove 7) owner_role small small-IsConsistent small_owner
      ((λ _. refl), ((λ h. absurd (ground (arith, h))), tt)) (refl, tt)

-- Address 80 is invited as a member.
abbrev invitation : Invitation
invitation = record {
  id = 11;
  tenant_id = 5;
  email = 80;
  role_id = 2;
  token_hash = 1110;
  status = InvitationStatus.pending;
  invited_by_user_id = some 7;
  accepted_by_user_id = none;
  expires_at = record { year = 2026; month = 11; day = 9; micros = 0 };
  accepted_at = none;
}

abbrev awaiting : Tenancy
awaiting = record small {
  next_id = 12;
  invitations = invitation ∷ [];
  mails = record { email = 80; token = 110; tenant_name = 50; locale = 7 } ∷ [];
  outbox = member_invited 5 11 3 ∷ [];
}

awaiting-IsConsistent : IsConsistent awaiting
awaiting-IsConsistent = ((refl, tt), (refl, tt), (refl, tt))

inviting : invite_member texts (some mailer) inside 80 3 small ≡ (ok invitation, awaiting)
unfolding invite_member require require_permission get_permission_codes joined_codes role_codes
    tenant_is_active context_tenant tenant_or_system_role in_tenant actor_user_id add_invitation
    send_mail
inviting = refl

invite_member-accept_invitation_example :
    (m : Membership) × ((accept_invitation texts outside 110 80
        (record awaiting { now = monday })).0
      ≡ ok m)
    × ((accept_invitation texts outside 110 80 (record awaiting { now = monday })).1.memberships
        ≡ awaiting.memberships ++ m ∷ [])
    × (m.tenant_id ≡ 5)
    × (m.user_id ≡ 8)
    × (m.role_id ≡ 2)
    × (m.status ≡ MembershipStatus.active)
invite_member-accept_invitation_example =
    invite_member-accept_invitation texts (some mailer) inside outside 80 80 3 8 invitation monday
      small awaiting inviting refl refl refl refl refl

abbrev newcomer : Membership
newcomer = record {
  id = 12;
  tenant_id = 5;
  user_id = 8;
  role_id = 2;
  status = MembershipStatus.active;
}

abbrev joined : Tenancy
joined = record awaiting {
  next_id = 13;
  memberships = founder_row ∷ newcomer ∷ [];
  invitations =
      record invitation {
        status = InvitationStatus.accepted;
        accepted_by_user_id = some 8;
        accepted_at = some monday;
      }
      ∷ [];
  outbox = member_joined 5 8 3 ∷ member_invited 5 11 3 ∷ [];
}

accepting : accept_invitation texts outside 110 80 awaiting ≡ (ok newcomer, joined)
unfolding accept_invitation actor_user_id check_invitation join insert_membership save_invitation
accepting = refl

accept_invitation-once_example :
    accept_invitation texts
      (record { tenant_id = none; actor = user (some 9) })
      110
      80
      (record joined { now = monday })
    ≡ (err Error.not_found, record joined { now = monday })
accept_invitation-once_example =
    accept_invitation-once texts outside (record { tenant_id = none; actor = user (some 9) }) 110 80
      80 9 newcomer monday awaiting joined awaiting-IsConsistent accepting refl

abbrev frozen : Tenancy
frozen = record small {
  tenants = record acme { status = TenantStatus.suspended } ∷ [];
  outbox = status_changed 5 ∷ [];
}

freezing : set_status 5 suspend small ≡ (ok tt, frozen)
unfolding set_status asked_status save_tenant
freezing = refl

removal-is_guarded : is_guarded (remove 7) ≡ true
unfolding is_guarded
removal-is_guarded = refl

set_status-suspends_example :
    (has_active_membership 5 7 frozen ≡ false)
    × (get_permission_codes inside 7 frozen ≡ [])
    × (run texts none inside (remove 7) frozen ≡ (err Error.permission_denied, frozen))
set_status-suspends_example =
    set_status-suspends texts none inside (remove 7) (some 7) 5 7 small frozen small-IsConsistent
      freezing refl refl removal-is_guarded

-- User 8 creates a second tenant, with the slug 61.
abbrev second : Tenant
second = record {
  id = 10;
  name = 60;
  slug = 61;
  owner_user_id = 8;
  status = TenantStatus.active;
  default_locale = 7;
}

abbrev two : Tenancy
two = record small {
  next_id = 12;
  tenants = acme ∷ second ∷ [];
  memberships =
      founder_row
      ∷ record {
        id = 11;
        tenant_id = 10;
        user_id = 8;
        role_id = 1;
        status = MembershipStatus.active;
      }
      ∷ [];
  outbox = tenant_created 10 8 ∷ [];
}

creating : create_tenant texts outside 60 61 small ≡ (ok second, two)
unfolding create_tenant actor_user_id insert_tenant system_role insert_membership
creating = refl

granted : any (λ code. code == 45) (role_codes 1 small.role_permissions) ≡ true
unfolding role_codes
granted = refl

create_tenant-conflict_example :
    let done = create_tenant texts outside 60 61 small in
    (done.0 ≡ ok second)
    × (done.1.tenants ≡ acme ∷ second ∷ [])
    × (done.1.memberships
        ≡ founder_row
          ∷ record {
            id = 11;
            tenant_id = 10;
            user_id = 8;
            role_id = 1;
            status = MembershipStatus.active;
          }
          ∷ [])
create_tenant-conflict_example =
    create_tenant-conflict texts outside 60 61 8 owner_role small (unfold actor_user_id in refl)
      small_owner refl refl refl
