-- ===== src/Tenants/Models.antt =====
-- core/tenants/models.py with the unique indexes of its migration. UUIDs, role and permission codes,
-- locales, addresses, tokens and their hashes are numbers.
use backend_core.Common.{ℕ, Bool, true, false, Option, ◌≡◌, ◌&&◌, ◌||◌, ◌==◌, arith}
use backend_core.Common.Table.{Schema}
use backend_core.Shared.Clock.{DateTime}

pub data TenantStatus : Type 0 where
  active suspended deleted : TenantStatus

pub record Tenant : Type 0 where
  pub id : ℕ
  pub name : ℕ
  pub slug : ℕ
  pub owner_user_id : ℕ
  pub status : TenantStatus
  pub default_locale : ℕ

pub data MembershipStatus : Type 0 where
  active suspended : MembershipStatus

pub record Membership : Type 0 where
  pub id : ℕ
  pub tenant_id : ℕ
  pub user_id : ℕ
  pub role_id : ℕ
  pub status : MembershipStatus

-- A role with no tenant is a system role.
pub record Role : Type 0 where
  pub id : ℕ
  pub tenant_id : Option ℕ
  pub code : ℕ

pub record RolePermission : Type 0 where
  pub role_id : ℕ
  pub permission_code : ℕ

pub data InvitationStatus : Type 0 where
  pending accepted revoked expired : InvitationStatus

pub record Invitation : Type 0 where
  pub id : ℕ
  pub tenant_id : ℕ
  pub email : ℕ
  pub role_id : ℕ
  pub token_hash : ℕ
  pub status : InvitationStatus
  pub invited_by_user_id : Option ℕ
  pub accepted_by_user_id : Option ℕ
  pub expires_at : DateTime
  pub accepted_at : Option DateTime

abbrev pub is_active_tenant : TenantStatus → Bool
is_active_tenant TenantStatus.active = true
is_active_tenant _ = false

abbrev pub is_active_member : MembershipStatus → Bool
is_active_member MembershipStatus.active = true
is_active_member _ = false

abbrev pub is_pending_invitation : InvitationStatus → Bool
is_pending_invitation InvitationStatus.pending = true
is_pending_invitation _ = false

-- `uq_tenants_slug`
abbrev pub slug_clash : Tenant → Tenant → Bool
slug_clash a b = a.slug == b.slug

pub slug_clash_sym : (a b : Tenant) → slug_clash a b ≡ slug_clash b a
slug_clash_sym a b = ground arith

abbrev pub tenants_schema : Schema Tenant
tenants_schema = record { id = λ t. t.id; clash = slug_clash; clash_sym = slug_clash_sym }

-- `uq_memberships_tenant_id_user_id`
abbrev pub member_clash : Membership → Membership → Bool
member_clash a b = a.tenant_id == b.tenant_id && a.user_id == b.user_id

pub member_clash_sym : (a b : Membership) → member_clash a b ≡ member_clash b a
member_clash_sym a b = ground arith

abbrev pub memberships_schema : Schema Membership
memberships_schema = record { id = λ m. m.id; clash = member_clash; clash_sym = member_clash_sym }

-- `uq_invitations_token_hash` and `uq_invitations_pending_email`; the service stores addresses in
-- lower case.
abbrev pub invitation_clash : Invitation → Invitation → Bool
invitation_clash a b =
    a.token_hash == b.token_hash
    || ((a.tenant_id == b.tenant_id && a.email == b.email)
        && (is_pending_invitation a.status && is_pending_invitation b.status))

pub invitation_clash_sym : (a b : Invitation) → invitation_clash a b ≡ invitation_clash b a
invitation_clash_sym a b = ground arith

abbrev pub invitations_schema : Schema Invitation
invitations_schema = record {
  id = λ i. i.id;
  clash = invitation_clash;
  clash_sym = invitation_clash_sym;
}
