-- ===== src/Tenants/Access.antt =====
-- What a tenant's status and its roles grant: `get_permission_codes` and `has_active_membership` of
-- core/tenants/service.py, with core/auth/guard.py.
use backend_core.Common.{
  ℕ, ◌≡◌, refl, Bool, true, false, ◌&&◌, Option, none, some, List, [], ◌∷◌, ◌++◌, ◌==◌, any,
  any-append, arith, inl, inr, Option-cases,
}
use backend_core.Common.Table.{IsUnique, taken, get_row, replace, get_row-id}
use backend_core.Shared.Errors.{Error, ok, err, unit_of_work}
use backend_core.Shared.Context.{user, require_permission}
use backend_core.Tenants.Models.{
  Tenant, TenantStatus, Membership, Role, tenants_schema, is_active_tenant,
}
use backend_core.Tenants.Store.{
  Tenancy, TenantContext, Texts, IsConsistent, role_codes, tenant_is_active, is_member,
  joined_codes, get_permission_codes, has_active_membership, save_tenant, insert_tenant,
  insert_membership, system_role, role_owner, actor_user_id,
}
use backend_core.Tenants.Service.{
  Mailer, suspend, set_status, asked_status, require, update_tenant, invite_member,
  revoke_invitation, change_member_role, remove_member, create_tenant,
}
use backend_core.Tenants.Requests.{
  Request, run, create, accept, update, invite, revoke, change_role, remove, set,
}
use backend_core.Tenants.Owners.{founder, create_tenant-founder}

absent-inactive :
    (t : ℕ) (d : Tenant) (rows : List Tenant)
    → taken tenants_schema d rows ≡ false
    → d.id ≡ t
    → tenant_is_active t rows ≡ false
unfolding tenant_is_active
absent-inactive t d [] h e = refl
absent-inactive t d (x ∷ rows) h e = ground (arith, h, e, absent-inactive t d rows)

replaced-inactive :
    (old t : Tenant) (rows : List Tenant)
    → IsUnique tenants_schema rows
    → get_row tenants_schema t.id rows ≡ some old
    → is_active_tenant t.status ≡ false
    → tenant_is_active t.id (replace tenants_schema t rows) ≡ false
unfolding tenant_is_active
replaced-inactive old t [] u e h = cc
replaced-inactive old t (x ∷ rows) u e h =
    ground (arith, h, absent-inactive t.id x rows u.0, replaced-inactive old t rows u.1)

inactive-codes :
    (t u : ℕ) (db : Tenancy) (ms : List Membership)
    → tenant_is_active t db.tenants ≡ false
    → joined_codes t u db ms ≡ []
unfolding joined_codes
inactive-codes t u db [] h = refl
inactive-codes t u db (m ∷ ms) h = ground (arith, h, inactive-codes t u db ms h)

set_status-inactive :
    (t : ℕ) (db db' : Tenancy)
    → IsConsistent db
    → set_status t suspend db ≡ (ok tt, db')
    → tenant_is_active t db'.tenants ≡ false
unfolding set_status save_tenant asked_status
set_status-inactive t db db' v h = elim (Option-cases (get_row tenants_schema t db.tenants)) [
  | inl f ↦ absurd (ground (arith, f, h))
  | inr (old, f) ↦
      let same = get_row-id tenants_schema t db.tenants old f in
      let suspended : Tenant = record old { status = TenantStatus.suspended } in
      ground (arith, f, h, same, replaced-inactive old suspended db.tenants v.0)
]

-- The requests that a permission guards.
unfoldable pub is_guarded : Request → Bool
is_guarded (create _ _) = false
is_guarded (accept _ _) = false
is_guarded (set _ _) = false
is_guarded _ = true

inactive-require :
    (c : TenantContext) (i : Option ℕ) (t p : ℕ) (db : Tenancy)
    → c.tenant_id ≡ some t
    → c.actor ≡ user i
    → tenant_is_active t db.tenants ≡ false
    → require c p db ≡ (err Error.permission_denied, db)
unfolding require get_permission_codes require_permission
inactive-require c none t p db e a h = ground (arith, e, a)
inactive-require c (some u) t p db e a h =
    ground (arith, e, a, inactive-codes t u db db.memberships h)

inactive-run :
    (x : Texts) (mailer : Option Mailer) (c : TenantContext) (q : Request) (i : Option ℕ) (t : ℕ)
    (db : Tenancy)
    → c.tenant_id ≡ some t
    → c.actor ≡ user i
    → tenant_is_active t db.tenants ≡ false
    → is_guarded q ≡ true
    → run x mailer c q db ≡ (err Error.permission_denied, db)
unfolding run is_guarded unit_of_work update_tenant invite_member revoke_invitation
    change_member_role remove_member
inactive-run x mailer c (update name locale) i t db e a h g =
    ground (arith, inactive-require c i t 42 db e a h)
inactive-run x mailer c (invite email role) i t db e a h g =
    ground (arith, inactive-require c i t 44 db e a h)
inactive-run x mailer c (revoke v) i t db e a h g =
    ground (arith, inactive-require c i t 44 db e a h)
inactive-run x mailer c (change_role u role) i t db e a h g =
    ground (arith, inactive-require c i t 46 db e a h)
inactive-run x mailer c (remove u) i t db e a h g =
    ground (arith, inactive-require c i t 45 db e a h)
inactive-run x mailer c (create _ _) i t db e a h g = cc
inactive-run x mailer c (accept _ _) i t db e a h g = cc
inactive-run x mailer c (set _ _) i t db e a h g = cc

-- Once a tenant is suspended it grants nothing: no user has an active membership or a permission in
-- it, and each guarded request of a user in it is refused and changes nothing.
pub set_status-suspends :
    (x : Texts) (mailer : Option Mailer) (c : TenantContext) (q : Request) (i : Option ℕ) (t u : ℕ)
    (db db' : Tenancy)
    → IsConsistent db
    → set_status t suspend db ≡ (ok tt, db')
    → c.tenant_id ≡ some t
    → c.actor ≡ user i
    → is_guarded q ≡ true
    → (has_active_membership t u db' ≡ false)
      × (get_permission_codes c u db' ≡ [])
      × (run x mailer c q db' ≡ (err Error.permission_denied, db'))
unfolding has_active_membership get_permission_codes
set_status-suspends x mailer c q i t u db db' v h e a g =
    let off = set_status-inactive t db db' v h in
    (
      ground (arith, off),
      ground (arith, e, inactive-codes t u db' db'.memberships off),
      inactive-run x mailer c q i t db' e a off g,
    )

create_tenant-active :
    (x : Texts) (c : TenantContext) (name slug : ℕ) (t : Tenant) (db db' : Tenancy)
    → create_tenant x c name slug db ≡ (ok t, db')
    → (is_active_tenant t.status ≡ true) × (db'.role_permissions ≡ db.role_permissions)
unfolding create_tenant insert_tenant insert_membership system_role
create_tenant-active x c name slug t db db' h = ground (arith, h)

joined-append :
    (t u p : ℕ) (db : Tenancy) (m : Membership) (ms : List Membership)
    → is_member t u m ≡ true
    → tenant_is_active t db.tenants ≡ true
    → any (λ code. code == p) (role_codes m.role_id db.role_permissions) ≡ true
    → any (λ code. code == p) (joined_codes t u db (ms ++ m ∷ [])) ≡ true
unfolding joined_codes
joined-append t u p db m [] a b h =
    ground
      (arith, a, b, h, any-append (λ code. code == p) (role_codes m.role_id db.role_permissions) [])
joined-append t u p db m (d ∷ ms) a b h = ground (
  arith,
  joined-append t u p db m ms a b h,
  any-append (λ code. code == p) (role_codes d.role_id db.role_permissions)
      (joined_codes t u db (ms ++ m ∷ [])),
)

-- Whoever creates a tenant is an active member of it, and passes the guard there at once for every
-- permission that the system's owner role is granted.
pub create_tenant-require :
    (x : Texts) (c : TenantContext) (name slug actor p : ℕ) (r : Role) (t : Tenant)
    (db db' : Tenancy)
    → c.actor ≡ user (some actor)
    → system_role role_owner db ≡ ok r
    → create_tenant x c name slug db ≡ (ok t, db')
    → any (λ code. code == p) (role_codes r.id db.role_permissions) ≡ true
    → (has_active_membership t.id actor db' ≡ true)
      × (require (record c { tenant_id = some t.id }) p db' ≡ (ok tt, db'))
unfolding has_active_membership get_permission_codes require require_permission actor_user_id
    tenant_is_active
create_tenant-require x c name slug actor p r t db db' a o h g =
    let (ms, ts, same) =
      create_tenant-founder x c name slug actor r t db db' (ground (arith, a)) o h in
    let (act, grants) = create_tenant-active x c name slug t db db' h in
    let m = founder actor r.id db in
    let on : tenant_is_active t.id db'.tenants ≡ true = ground (
      arith,
      ts,
      act,
      any-append (λ v. v.id == t.id && is_active_tenant v.status) db.tenants (t ∷ []),
    ) in
    let codes : any (λ code. code == p) (joined_codes t.id actor db' db'.memberships) ≡ true =
      ground (
        arith,
        ms,
        joined-append t.id actor p db' m db.memberships (ground (arith, same)) on
            (ground (arith, g, grants)),
      ) in
    let member : any (is_member t.id actor) db'.memberships ≡ true =
      ground (arith, ms, same, any-append (is_member t.id actor) db.memberships (m ∷ [])) in
    (ground (arith, member, on), ground (arith, a, codes))
