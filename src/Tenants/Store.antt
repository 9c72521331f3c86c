-- ===== src/Tenants/Store.antt =====
-- What a transaction of core/tenants/service.py sees, and the reads of that file.
use backend_core.Common.{
  ℕ, ◌+◌, Bool, true, false, not, ◌&&◌, Option, none, some, List, [], ◌∷◌, ◌++◌, ◌==◌, any, find,
  select, if◌then◌else◌, is_some,
}
use backend_core.Common.Table.{taken, conflicts, replace, get_row, IsUnique}
use backend_core.Shared.Errors.{Error, Result, ok, err, Action, gets, modify, raise_if, ◌>>=◌, ◌>>◌}
use backend_core.Shared.Clock.{DateTime}
use backend_core.Shared.Context.{Actor, user}
use backend_core.Tenants.Models.{
  Tenant, Membership, Role, RolePermission, Invitation, tenants_schema, memberships_schema,
  invitations_schema, is_active_tenant, is_active_member,
}

-- The events of the service, with the ids that their payloads carry.
pub data TenantEvent : Type 0 where
  tenant_created member_removed : ℕ → ℕ → TenantEvent
  member_joined member_role_changed : ℕ → ℕ → ℕ → TenantEvent
  member_invited : ℕ → ℕ → ℕ → TenantEvent
  status_changed : ℕ → TenantEvent

-- The invitation's email; `InvitationMailer` puts the token into the accept link.
pub record Mail : Type 0 where
  pub email : ℕ
  pub token : ℕ
  pub tenant_name : ℕ
  pub locale : ℕ

-- The rows, with the clock, the next id, the queued events and mails and the audit records, each
-- newest first.
pub record Tenancy : Type 0 where
  pub now : DateTime
  pub next_id : ℕ
  pub tenants : List Tenant
  pub roles : List Role
  pub role_permissions : List RolePermission
  pub memberships : List Membership
  pub invitations : List Invitation
  pub outbox : List TenantEvent
  pub mails : List Mail
  pub audit : List TenantEvent

-- `TenantContext`, as far as the service reads it.
pub record TenantContext : Type 0 where
  pub tenant_id : Option ℕ
  pub actor : Actor

-- The library functions that the service calls: `str.strip` then `str.lower`, the opaque token of a
-- draw, the hash of a token, and `datetime + timedelta(days=...)`.
pub record Texts : Type 0 where
  pub normalize : ℕ → ℕ
  pub opaque_token : ℕ → ℕ
  pub hash_token : ℕ → ℕ
  pub add_days : DateTime → ℕ → DateTime

-- `ROLE_OWNER` and the permission codes that the service asks for.
abbrev pub role_owner : ℕ
role_owner = 1

abbrev pub tenant_update : ℕ
tenant_update = 42

abbrev pub member_invite : ℕ
member_invite = 44

abbrev pub member_remove : ℕ
member_remove = 45

abbrev pub member_update_role : ℕ
member_update_role = 46

abbrev pub new_id : Action Tenancy ℕ
new_id db = (ok db.next_id, record db { next_id = db.next_id + 1 })

abbrev pub emit : TenantEvent → Action Tenancy (Unit {0})
emit e = modify (λ db. record db { outbox = e ∷ db.outbox })

-- `AuditService.record`
abbrev pub write_audit : TenantEvent → Action Tenancy (Unit {0})
write_audit e = modify (λ db. record db { audit = e ∷ db.audit })

-- `Model.tenant_id == self.ctx.tenant_id`; no row of a tenant's table has none.
unfoldable pub in_tenant : TenantContext → ℕ → Bool
in_tenant c t = elim c.tenant_id [ none ↦ false | some x ↦ t == x ]

-- The codes granted to a role.
unfoldable pub role_codes : ℕ → List RolePermission → List ℕ
role_codes role [] = []
role_codes role (g ∷ grants) =
    if g.role_id == role then g.permission_code ∷ role_codes role grants else role_codes role grants

-- The join with `tenants` and its condition.
unfoldable pub tenant_is_active : ℕ → List Tenant → Bool
tenant_is_active t rows = any (λ x. x.id == t && is_active_tenant x.status) rows

-- A user's active membership of a tenant.
abbrev pub is_member : ℕ → ℕ → Membership → Bool
is_member t u m = (m.tenant_id == t && m.user_id == u) && is_active_member m.status

unfoldable pub joined_codes : ℕ → ℕ → Tenancy → List Membership → List ℕ
unfolding role_codes tenant_is_active
joined_codes t u db [] = []
joined_codes t u db (m ∷ ms) =
    if is_member t u m && tenant_is_active t db.tenants
    then role_codes m.role_id db.role_permissions ++ joined_codes t u db ms
    else joined_codes t u db ms

-- `get_permission_codes`
unfoldable pub get_permission_codes : TenantContext → ℕ → Tenancy → List ℕ
unfolding joined_codes
get_permission_codes c u db = elim c.tenant_id [
  | none ↦ []
  | some t ↦ joined_codes t u db db.memberships
]

-- `has_active_membership`
unfoldable pub has_active_membership : ℕ → ℕ → Tenancy → Bool
unfolding tenant_is_active
has_active_membership t u db = any (is_member t u) db.memberships && tenant_is_active t db.tenants

-- `session.get(Tenant, self.ctx.tenant_id)`
unfoldable pub context_tenant : TenantContext → Tenancy → Option Tenant
context_tenant c db = elim c.tenant_id [
  | none ↦ none
  | some t ↦ get_row tenants_schema t db.tenants
]

-- `_system_role`; `uq_roles_tenant_id_code` makes it the only one.
unfoldable pub system_role : ℕ → Tenancy → Result Role
system_role code db = elim (find (λ r. not (is_some r.tenant_id) && r.code == code) db.roles) [
  | none ↦ err Error.not_found
  | some r ↦ ok r
]

-- A role of the context's tenant, or of the system.
abbrev pub is_visible : TenantContext → Role → Bool
is_visible c r = elim r.tenant_id [ none ↦ true | some t ↦ in_tenant c t ]

-- `_tenant_or_system_role`: the first row that the database gives.
unfoldable pub tenant_or_system_role : TenantContext → ℕ → Tenancy → Result Role
unfolding in_tenant
tenant_or_system_role c code db = elim (find (λ r. r.code == code && is_visible c r) db.roles) [
  | none ↦ err Error.not_found
  | some r ↦ ok r
]

-- `_member_or_raise`
unfoldable pub member_or_raise : TenantContext → ℕ → Tenancy → Result Membership
unfolding in_tenant
member_or_raise c u db =
    elim (find (λ m. in_tenant c m.tenant_id && m.user_id == u) db.memberships) [
      | none ↦ err Error.not_found
      | some m ↦ ok m
    ]

-- `_actor_user_id`
unfoldable pub actor_user_id : TenantContext → Result ℕ
actor_user_id c = elim c.actor [ user (some u) ↦ ok u | _ ↦ err Error.invariant_violation ]

-- `session.add` and the flush of the new row, which checks the indexes.
unfoldable pub insert_tenant : Tenant → Action Tenancy (Unit {0})
insert_tenant t = do
  raise_if (taken tenants_schema t (← gets (λ db. db.tenants))) Error.integrity_error
  modify (λ db. record db { tenants = db.tenants ++ t ∷ [] })

unfoldable pub insert_membership : Membership → Action Tenancy (Unit {0})
insert_membership m = do
  raise_if (taken memberships_schema m (← gets (λ db. db.memberships))) Error.integrity_error
  modify (λ db. record db { memberships = db.memberships ++ m ∷ [] })

-- The flush of a changed row.
unfoldable pub save_tenant : Tenant → Action Tenancy (Unit {0})
save_tenant t = do
  raise_if (conflicts tenants_schema t (← gets (λ db. db.tenants))) Error.integrity_error
  modify (λ db. record db { tenants = replace tenants_schema t db.tenants })

unfoldable pub save_membership : Membership → Action Tenancy (Unit {0})
save_membership m = do
  raise_if (conflicts memberships_schema m (← gets (λ db. db.memberships))) Error.integrity_error
  modify (λ db. record db { memberships = replace memberships_schema m db.memberships })

unfoldable pub save_invitation : Invitation → Action Tenancy (Unit {0})
save_invitation i = do
  raise_if (conflicts invitations_schema i (← gets (λ db. db.invitations))) Error.integrity_error
  modify (λ db. record db { invitations = replace invitations_schema i db.invitations })

-- `session.delete(membership)`
unfoldable pub delete_membership : ℕ → Action Tenancy (Unit {0})
delete_membership i =
    modify (λ db. record db { memberships = select (λ m. not (m.id == i)) db.memberships })

-- The unique indexes of the three tables hold.
abbrev pub IsConsistent : Tenancy → Type 0
IsConsistent db =
    IsUnique tenants_schema db.tenants
    × IsUnique memberships_schema db.memberships
    × IsUnique invitations_schema db.invitations
