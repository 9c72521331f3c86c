-- ===== src/Tenants/Clashes.antt =====
-- The checks of core/tenants/service.py that stand before an INSERT: the database never has to refuse
-- the row.
use backend_core.Common.{
  ℕ, ◌+◌, ◌≡◌, refl, false, ◌&&◌, List, [], ◌∷◌, ◌==◌, any, arith, inl, inr, Bool-cases,
  if◌then◌else◌, ◌++◌,
}
use backend_core.Common.Table.{taken}
use backend_core.Shared.Errors.{Error, ok, err}
use backend_core.Tenants.Models.{
  Tenant, TenantStatus, Membership, MembershipStatus, Role, tenants_schema,
}
use backend_core.Tenants.Store.{
  Tenancy, TenantContext, Texts, insert_tenant, insert_membership, system_role, actor_user_id,
  role_owner,
}
use backend_core.Tenants.Service.{create_tenant, ru}
use backend_core.Tenants.Inviting.{member-free}

tenant-free :
    (t : Tenant) (rows : List Tenant)
    → any (λ w. w.slug == t.slug) rows ≡ false
    → any (λ w. w.id == t.id) rows ≡ false
    → taken tenants_schema t rows ≡ false
tenant-free t [] a b = refl
tenant-free t (w ∷ rows) a b = ground (arith, a, b, tenant-free t rows)

no-member :
    (t u : ℕ) (rows : List Membership)
    → any (λ m. m.tenant_id == t) rows ≡ false
    → any (λ m. m.tenant_id == t && m.user_id == u) rows ≡ false
no-member t u [] h = refl
no-member t u (m ∷ rows) h = ground (arith, h, no-member t u rows)

abbrev new_tenant : ℕ → ℕ → ℕ → Tenancy → Tenant
new_tenant u name slug db = record {
  id = db.next_id;
  name = name;
  slug = slug;
  owner_user_id = u;
  status = TenantStatus.active;
  default_locale = ru;
}

abbrev first_member : ℕ → Role → Tenancy → Membership
first_member u owner db = record {
  id = db.next_id + 1;
  tenant_id = db.next_id;
  user_id = u;
  role_id = owner.id;
  status = MembershipStatus.active;
}

-- A tenant is created exactly when no tenant has its address: then it is stored as active, with the
-- acting user as its owner and first member under the owner's role, and otherwise the answer is a
-- conflict and no row is stored; the database never has to refuse a row, if the new ids are not taken
-- and the owner's role exists.
pub create_tenant-conflict :
    (x : Texts) (c : TenantContext) (name slug u : ℕ) (owner : Role) (db : Tenancy)
    → actor_user_id c ≡ ok u
    → system_role role_owner db ≡ ok owner
    → any (λ t. t.id == db.next_id) db.tenants ≡ false
    → any (λ m. m.id == db.next_id + 1) db.memberships ≡ false
    → any (λ m. m.tenant_id == db.next_id) db.memberships ≡ false
    → let busy = any (λ t. t.slug == x.normalize slug) db.tenants in
      let t = new_tenant u name (x.normalize slug) db in
      let done = create_tenant x c name slug db in
      (done.0 ≡ (if busy then err Error.conflict else ok t))
      × (done.1.tenants ≡ (if busy then db.tenants else db.tenants ++ t ∷ []))
      × (done.1.memberships
          ≡ (if busy then db.memberships else db.memberships ++ first_member u owner db ∷ []))
unfolding create_tenant insert_tenant insert_membership system_role
create_tenant-conflict x c name slug u owner db a r ids members fresh =
    elim (Bool-cases (any (λ t. t.slug == x.normalize slug) db.tenants)) [
      | inl e ↦ (ground (arith, a, e), ground (arith, a, e), ground (arith, a, e))
      | inr e ↦
          let t = new_tenant u name (x.normalize slug) db in
          let m = first_member u owner db in
          let free = tenant-free t db.tenants e ids in
          let open_ =
            member-free m db.memberships (no-member db.next_id u db.memberships fresh) members in
          (
            ground (arith, a, e, free, r, open_),
            ground (arith, a, e, free, r, open_),
            ground (arith, a, e, free, r, open_),
          )
    ]
