-- ===== src/Tenants/Service.antt =====
-- `TenantService` of core/tenants/service.py: the operations.
use backend_core.Common.{
  ℕ, ◌+◌, Bool, not, ◌&&◌, Option, none, some, [], ◌∷◌, ◌++◌, ◌==◌, find, any, select, length, leb,
  if◌then◌else◌,
}
use backend_core.Common.Table.{taken, get_row}
use backend_core.Shared.Errors.{
  Error, Result, ok, err, Action, pure, raise_if, or_raise, lift, query, gets, modify, when, ◌>>=◌,
  ◌>>◌,
}
use backend_core.Shared.Clock.{DateTime, not_after}
use backend_core.Shared.Context.{require_permission}
use backend_core.Tenants.Models.{
  Tenant, TenantStatus, Membership, MembershipStatus, Role, Invitation, InvitationStatus,
  is_pending_invitation, tenants_schema, invitations_schema,
}
use backend_core.Tenants.Store.{
  Tenancy, TenantContext, Texts, Mail, tenant_created, member_removed, member_joined,
  member_role_changed, member_invited, status_changed, role_owner, tenant_update, member_invite,
  member_remove, member_update_role, new_id, emit, write_audit, in_tenant, get_permission_codes,
  context_tenant, system_role, tenant_or_system_role, member_or_raise, actor_user_id, insert_tenant,
  insert_membership, save_tenant, save_membership, save_invitation, delete_membership,
}

-- `InvitationMailer.send`: the notification service may refuse the mail, or queues it.
abbrev pub Mailer : Type 0
Mailer = Mail → Result (Unit {0})

-- `self._guard.require`, with this service as the resolver of the permissions
unfoldable pub require : TenantContext → ℕ → Action Tenancy (Unit {0})
require c permission = query (λ db.
    require_permission c.actor (some (λ u p. any (λ code. code == p) (get_permission_codes c u db)))
      permission)

-- The locale of a new tenant.
abbrev pub ru : ℕ
ru = 7

unfoldable pub create_tenant : Texts → TenantContext → ℕ → ℕ → Action Tenancy Tenant
create_tenant x c name slug = do
  actor ← lift (actor_user_id c)
  let normalized = x.normalize slug
  raise_if (any (λ t. t.slug == normalized) (← gets (λ db. db.tenants))) Error.conflict
  id ← new_id
  let tenant : Tenant = record {
    id = id;
    name = name;
    slug = normalized;
    owner_user_id = actor;
    status = TenantStatus.active;
    default_locale = ru;
  }
  insert_tenant tenant
  owner ← query (system_role role_owner)
  member ← new_id
  insert_membership (record {
    id = member;
    tenant_id = id;
    user_id = actor;
    role_id = owner.id;
    status = MembershipStatus.active;
  })
  emit (tenant_created id actor)
  pure tenant

-- The row that `with_for_update` locks
abbrev pub invitation_by : ℕ → Tenancy → Option Invitation
invitation_by hash db = find (λ i. i.token_hash == hash) db.invitations

-- A pending invitation, within its time, of this address.
unfoldable pub check_invitation : ℕ → Option Invitation → DateTime → Result Invitation
check_invitation email none now = err Error.not_found
check_invitation email (some i) now =
    if not (is_pending_invitation i.status)
    then err Error.not_found
    else if not_after i.expires_at now
    then err Error.invariant_violation
    else if not (i.email == email)
    then err Error.permission_denied
    else ok i

-- `accept_invitation`, once the invitation is known to be the caller's. The foreign keys of the new
-- row are checked at its flush.
unfoldable pub join : ℕ → Invitation → Action Tenancy Membership
join actor i = do
  raise_if
      (any (λ m. m.tenant_id == i.tenant_id && m.user_id == actor) (← gets (λ db. db.memberships)))
      Error.conflict
  id ← new_id
  role ← or_raise (find (λ r. r.id == i.role_id) (← gets (λ db. db.roles))) Error.integrity_error
  let member : Membership = record {
    id = id;
    tenant_id = i.tenant_id;
    user_id = actor;
    role_id = i.role_id;
    status = MembershipStatus.active;
  }
  insert_membership member
  now ← gets (λ db. db.now)
  save_invitation (record i {
    status = InvitationStatus.accepted;
    accepted_by_user_id = some actor;
    accepted_at = some now;
  })
  emit (member_joined i.tenant_id actor role.code)
  pure member

unfoldable pub accept_invitation : Texts → TenantContext → ℕ → ℕ → Action Tenancy Membership
accept_invitation x c token email = do
  actor ← lift (actor_user_id c)
  let hash = x.hash_token token
  invitation ← query (λ db. check_invitation (x.normalize email) (invitation_by hash db) db.now)
  join actor invitation

-- `if value is not None`
abbrev pub or_old : Option ℕ → ℕ → ℕ
or_old none old = old
or_old (some v) old = v

unfoldable pub update_tenant : TenantContext → Option ℕ → Option ℕ → Action Tenancy Tenant
update_tenant c name locale = do
  require c tenant_update
  tenant ← or_raise (← gets (context_tenant c)) Error.not_found
  let changed : Tenant = record tenant {
    name = or_old name tenant.name;
    default_locale = or_old locale tenant.default_locale;
  }
  save_tenant changed
  pure changed

-- `INVITATION_TTL_DAYS`
abbrev pub invitation_ttl_days : ℕ
invitation_ttl_days = 7

-- The savepoint turns a violated index into a conflict.
unfoldable pub add_invitation : Invitation → Action Tenancy (Unit {0})
add_invitation i = do
  raise_if (taken invitations_schema i (← gets (λ db. db.invitations))) Error.conflict
  modify (λ db. record db { invitations = db.invitations ++ i ∷ [] })

unfoldable pub send_mail : Mailer → Mail → Action Tenancy (Unit {0})
send_mail mailer mail = do lift (mailer mail); modify (λ db. record db { mails = mail ∷ db.mails })

-- The row of an invitation. The token's draw and the row's id are the next two.
abbrev pub invited : Texts → Tenant → Role → ℕ → ℕ → Tenancy → Invitation
invited x tenant role actor email db = record {
  id = db.next_id + 1;
  tenant_id = tenant.id;
  email = x.normalize email;
  role_id = role.id;
  token_hash = x.hash_token (x.opaque_token db.next_id);
  status = InvitationStatus.pending;
  invited_by_user_id = some actor;
  accepted_by_user_id = none;
  expires_at = x.add_days db.now invitation_ttl_days;
  accepted_at = none;
}

abbrev pub invitation_mail : Texts → Tenant → ℕ → Tenancy → Mail
invitation_mail x tenant email db = record {
  email = x.normalize email;
  token = x.opaque_token db.next_id;
  tenant_name = tenant.name;
  locale = tenant.default_locale;
}

unfoldable pub invite_member :
    Texts → Option Mailer → TenantContext → ℕ → ℕ → Action Tenancy Invitation
invite_member x mailer c email role = do
  require c member_invite
  send ← or_raise mailer Error.invariant_violation
  tenant ← or_raise (← gets (context_tenant c)) Error.not_found
  role_row ← query (tenant_or_system_role c role)
  actor ← lift (actor_user_id c)
  invitation ← gets (invited x tenant role_row actor email)
  mail ← gets (invitation_mail x tenant email)
  modify (λ db. record db { next_id = db.next_id + 2 })
  add_invitation invitation
  send_mail send mail
  emit (member_invited tenant.id invitation.id role)
  pure invitation

-- `repo.get_or_raise`; a repository refuses a context with no tenant.
unfoldable pub get_invitation : TenantContext → ℕ → Tenancy → Result Invitation
unfolding in_tenant
get_invitation c i db = elim c.tenant_id [
  | none ↦ err Error.invariant_violation
  | some t ↦ elim (find (λ v. in_tenant c v.tenant_id && v.id == i) db.invitations) [
    | none ↦ err Error.not_found
    | some v ↦ ok v
  ]
]

unfoldable pub revoke_invitation : TenantContext → ℕ → Action Tenancy (Unit {0})
revoke_invitation c i = do
  require c member_invite
  invitation ← query (get_invitation c i)
  raise_if (not (is_pending_invitation invitation.status)) Error.invariant_violation
  save_invitation (record invitation { status = InvitationStatus.revoked })

-- The owners that `_guard_last_owner` counts.
abbrev pub is_owner_in : TenantContext → ℕ → Membership → Bool
is_owner_in c role m = in_tenant c m.tenant_id && m.role_id == role

-- `_guard_last_owner`
unfoldable pub guard_last_owner : TenantContext → ℕ → Action Tenancy (Unit {0})
guard_last_owner c u = do
  owner ← query (system_role role_owner)
  target ← query (member_or_raise c u)
  when (target.role_id == owner.id) do
    owners ← gets (λ db. select (is_owner_in c owner.id) db.memberships)
    raise_if (leb (length owners) 1) Error.invariant_violation

unfoldable pub change_member_role : TenantContext → ℕ → ℕ → Action Tenancy Membership
change_member_role c u role = do
  require c member_update_role
  member ← query (member_or_raise c u)
  new_role ← query (tenant_or_system_role c role)
  when (not (new_role.code == role_owner)) (guard_last_owner c u)
  let changed : Membership = record member { role_id = new_role.id }
  save_membership changed
  emit (member_role_changed member.tenant_id u role)
  pure changed

unfoldable pub remove_member : TenantContext → ℕ → Action Tenancy (Unit {0})
remove_member c u = do
  require c member_remove
  member ← query (member_or_raise c u)
  guard_last_owner c u
  let event = member_removed member.tenant_id u
  emit event
  delete_membership member.id
  write_audit event

-- `status`: the two texts that are accepted, and any other.
pub data AskedStatus : Type 0 where
  activate suspend : AskedStatus
  other : ℕ → AskedStatus

unfoldable pub asked_status : AskedStatus → Result TenantStatus
asked_status activate = ok TenantStatus.active
asked_status suspend = ok TenantStatus.suspended
asked_status (other t) = err Error.invariant_violation

unfoldable pub set_status : ℕ → AskedStatus → Action Tenancy (Unit {0})
unfolding asked_status
set_status t asked = do
  status ← lift (asked_status asked)
  tenant ← or_raise (← gets (λ db. get_row tenants_schema t db.tenants)) Error.not_found
  save_tenant (record tenant { status = status })
  emit (status_changed t)
