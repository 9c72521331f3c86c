-- ===== src/Tenants/Owners.antt =====
-- The last owner of a tenant (`_guard_last_owner` of core/tenants/service.py).
use backend_core.Common.{
  ℕ, suc, ◌+◌, ◌≤◌, ◌<◌, ◌≡◌, ◌⊎◌, refl, subst, Bool, true, not, ◌&&◌, some, List, [], ◌∷◌, ◌++◌,
  ◌==◌, any, find, select, length, All, arith, inl, inr, Bool-cases, Option-cases, any-append,
  find-holds,
}
use backend_core.Common.Table.{get_row, replace, IsUnique, get_row-find}
use backend_core.Common.Rows.{
  find-All, All-append, All-map, All-replace, any-select, any-replace, count-replace, count-delete,
  any-delete,
}
use backend_core.Shared.Errors.{ok, Result-cases}
use backend_core.Tenants.Models.{
  Tenant, Membership, MembershipStatus, Invitation, Role, memberships_schema, tenants_schema,
}
use backend_core.Tenants.Store.{
  Tenancy, TenantContext, Texts, IsConsistent, in_tenant, system_role, role_owner, member_or_raise,
  tenant_or_system_role, is_visible, actor_user_id, insert_tenant, insert_membership, save_tenant,
  save_membership, save_invitation, delete_membership,
}
use backend_core.Tenants.Service.{
  is_owner_in, guard_last_owner, require, change_member_role, remove_member, create_tenant, join,
}

-- A membership of a tenant under the role of owner.
abbrev owns : ℕ → ℕ → Membership → Bool
owns role t m = m.tenant_id == t && m.role_id == role

abbrev HasOwner : ℕ → List Membership → ℕ → Type 0
HasOwner role rows t = any (owns role t) rows ≡ true

-- Every tenant has an owner, suspended tenants and members included.
abbrev pub IsOwned : ℕ → Tenancy → Type 0
IsOwned role db = All (λ t. HasOwner role db.memberships t.id) db.tenants

owners-count :
    (c : TenantContext) (role t : ℕ) (rows : List Membership)
    → c.tenant_id ≡ some t
    → length (select (is_owner_in c role) rows) ≡ length (select (owns role t) rows)
unfolding in_tenant
owners-count c role t [] h = refl
owners-count c role t (m ∷ rows) h = ground (arith, h, owners-count c role t rows h)

-- The member that an operation is about, as a row.
member-row :
    (c : TenantContext) (u : ℕ) (db : Tenancy) (m : Membership)
    → IsConsistent db
    → member_or_raise c u db ≡ ok m
    → (get_row memberships_schema m.id db.memberships ≡ some m) × (c.tenant_id ≡ some m.tenant_id)
unfolding member_or_raise in_tenant
member-row c u db m v h =
    let p : Membership → Bool = λ x. in_tenant c x.tenant_id && x.user_id == u in
    elim (Option-cases (find p db.memberships)) [
      | inl e ↦ absurd (ground (arith, e, h))
      | inr (x, e) ↦
          let row = get_row-find memberships_schema p db.memberships x v.1 e in
          elim (Option-cases c.tenant_id) [
            | inl n ↦ absurd (ground (arith, n, find-holds p db.memberships x e))
            | inr (t, n) ↦ ground (arith, n, e, h, row, find-holds p db.memberships x e)
          ]
    ]

-- Past the guard, a member who owns is not the only one who does.
guard-owners :
    (c : TenantContext) (u : ℕ) (db : Tenancy) (r : Role) (m : Membership)
    → system_role role_owner db ≡ ok r
    → member_or_raise c u db ≡ ok m
    → c.tenant_id ≡ some m.tenant_id
    → (guard_last_owner c u db).0 ≡ ok tt
    → m.role_id ≡ r.id
    → 1 < length (select (owns r.id m.tenant_id) db.memberships)
unfolding guard_last_owner
guard-owners c u db r m o h t g e =
    ground (arith, o, h, g, e, owners-count c r.id m.tenant_id db.memberships t)

-- A tenant that has an owner keeps one when a member's row is updated, or deleted.
module _ (role : ℕ) (m : Membership) (rows : List Membership) (u : IsUnique memberships_schema rows)
    (row : get_row memberships_schema m.id rows ≡ some m) (t : ℕ) where
  abbrev Guarded : Type 0
  Guarded = m.role_id ≡ role → m.tenant_id ≡ t → 1 < length (select (owns role t) rows)

  changed-HasOwner :
      (n : ℕ)
      → (n ≡ role) ⊎ Guarded
      → HasOwner role rows t
      → HasOwner role (replace memberships_schema (record m { role_id = n }) rows) t
  changed-HasOwner n g h =
      let m' : Membership = record m { role_id = n } in
      elim (Bool-cases (owns role t m)) [
        | inr e ↦
            any-replace memberships_schema (owns role t) m' m rows row (λ f. ground (arith, e, f)) h
        | inl e ↦ elim g [
          | inl f ↦
              any-replace memberships_schema (owns role t) m' m rows row (λ _. ground (arith, e, f))
                h
          | inr f ↦ any-select (owns role t) (replace memberships_schema m' rows) (
              ground (
                arith,
                f (ground (arith, e)) (ground (arith, e)),
                count-replace memberships_schema (owns role t) m' rows,
              ))
        ]
      ]

  deleted-HasOwner :
      Guarded → HasOwner role rows t → HasOwner role (select (λ x. not (x.id == m.id)) rows) t
  deleted-HasOwner g h = elim (Bool-cases (owns role t m)) [
    | inr e ↦ any-delete memberships_schema m.id (owns role t) m rows u row e h
    | inl e ↦
        let left = select (λ x. not (x.id == m.id)) rows in
        let count : length (select (owns role t) rows) ≤ suc (length (select (owns role t) left)) =
          count-delete memberships_schema m.id (owns role t) rows u in
        any-select (owns role t) left
          (ground (arith, g (ground (arith, e)) (ground (arith, e)), count))
  ]

-- No role but the system's has the owner's code.
abbrev pub OnlyOwner : Role → Tenancy → Type 0
OnlyOwner r db = All (λ x. x.code ≡ role_owner → x.id ≡ r.id) db.roles

found_owner :
    (c : TenantContext) (role : ℕ) (r n : Role) (db : Tenancy)
    → OnlyOwner r db
    → tenant_or_system_role c role db ≡ ok n
    → n.code ≡ role_owner
    → n.id ≡ r.id
unfolding tenant_or_system_role
found_owner c role r n db only h e =
    let visible : Role → Bool = λ x. x.code == role && is_visible c x in
    elim (Option-cases (find visible db.roles)) [
      | inl f ↦ absurd (ground (arith, f, h))
      | inr (x, f) ↦
          let same = find-All (λ x. x.code ≡ role_owner → x.id ≡ r.id) visible db.roles x only f in
          ground (arith, f, h, same, e)
    ]

-- What the guard is asked for, whichever the new role is.
guarded :
    (c : TenantContext) (u : ℕ) (db : Tenancy) (r n : Role) (m : Membership) (t : ℕ)
    → IsConsistent db
    → system_role role_owner db ≡ ok r
    → member_or_raise c u db ≡ ok m
    → (guard_last_owner c u db).0 ≡ ok tt
    → m.role_id ≡ r.id
    → m.tenant_id ≡ t
    → 1 < length (select (owns r.id t) db.memberships)
guarded c u db r n m t v o f k e same =
    subst (λ s. 1 < length (select (owns r.id s) db.memberships)) same
      (guard-owners c u db r m o f (member-row c u db m v f).1 k e)

-- The two ways to a role: it is the owner's, or the guard let the member go.
change_member_role-way :
    (c : TenantContext) (u code : ℕ) (r n : Role) (m : Membership) (db db' : Tenancy)
    (a : Membership)
    → OnlyOwner r db
    → member_or_raise c u db ≡ ok m
    → tenant_or_system_role c code db ≡ ok n
    → change_member_role c u code db ≡ (ok a, db')
    → ((n.id ≡ r.id) ⊎ ((guard_last_owner c u db).0 ≡ ok tt))
      × (db'.memberships ≡ replace memberships_schema (record m { role_id = n.id }) db.memberships)
      × (db'.tenants ≡ db.tenants)
unfolding change_member_role require save_membership guard_last_owner
change_member_role-way c u code r n m db db' a only f g h =
    ground (arith, f, g, h, found_owner c code r n db only g)

pub change_member_role-IsOwned :
    (c : TenantContext) (u code : ℕ) (r : Role) (a : Membership) (db db' : Tenancy)
    → IsConsistent db
    → system_role role_owner db ≡ ok r
    → OnlyOwner r db
    → IsOwned r.id db
    → change_member_role c u code db ≡ (ok a, db')
    → IsOwned r.id db'
unfolding change_member_role require
change_member_role-IsOwned c u code r a db db' v o only owned h =
    elim (Result-cases (member_or_raise c u db)) [
      | inr (e, f) ↦ absurd (ground (arith, f, h))
      | inl (m, f) ↦ elim (Result-cases (tenant_or_system_role c code db)) [
        | inr (e, g) ↦ absurd (ground (arith, f, g, h))
        | inl (n, g) ↦
            let (way, ms, ts) = change_member_role-way c u code r n m db db' a only f g h in
            let keeps = λ (t : ℕ).
              changed-HasOwner r.id m db.memberships v.1 (member-row c u db m v f).0 t n.id
                (elim way [ inl e ↦ inl e | inr k ↦ inr (guarded c u db r n m t v o f k) ]) in
            rw (ms, ts)
              (All-map (λ x. HasOwner r.id db.memberships x.id) _ db.tenants (λ x. keeps x.id)
                owned)
      ]
    ]

remove_member-way :
    (c : TenantContext) (u : ℕ) (m : Membership) (db db' : Tenancy)
    → member_or_raise c u db ≡ ok m
    → remove_member c u db ≡ (ok tt, db')
    → ((guard_last_owner c u db).0 ≡ ok tt)
      × (db'.memberships ≡ select (λ x. not (x.id == m.id)) db.memberships)
      × (db'.tenants ≡ db.tenants)
unfolding remove_member require delete_membership guard_last_owner
remove_member-way c u m db db' f h = ground (arith, f, h)

pub remove_member-IsOwned :
    (c : TenantContext) (u : ℕ) (r : Role) (db db' : Tenancy)
    → IsConsistent db
    → system_role role_owner db ≡ ok r
    → IsOwned r.id db
    → remove_member c u db ≡ (ok tt, db')
    → IsOwned r.id db'
unfolding remove_member require
remove_member-IsOwned c u r db db' v o owned h = elim (Result-cases (member_or_raise c u db)) [
  | inr (e, f) ↦ absurd (ground (arith, f, h))
  | inl (m, f) ↦
      let (k, ms, ts) = remove_member-way c u m db db' f h in
      let keeps = λ (t : ℕ).
        deleted-HasOwner r.id m db.memberships v.1 (member-row c u db m v f).0 t
          (guarded c u db r r m t v o f k) in
      rw (ms, ts)
        (All-map (λ x. HasOwner r.id db.memberships x.id) _ db.tenants (λ x. keeps x.id) owned)
]

-- A new member takes no owner away, and an owner's row makes its tenant owned.
joined-HasOwner :
    (role : ℕ) (m : Membership) (rows : List Membership) (t : ℕ)
    → HasOwner role rows t
    → HasOwner role (rows ++ m ∷ []) t
joined-HasOwner role m rows t h = ground (arith, h, any-append (owns role t) rows (m ∷ []))

founder-HasOwner :
    (role : ℕ) (m : Membership) (rows : List Membership)
    → m.role_id ≡ role
    → HasOwner role (rows ++ m ∷ []) m.tenant_id
founder-HasOwner role m rows h = ground (arith, h, any-append (owns role m.tenant_id) rows (m ∷ []))

-- The owner's membership of a new tenant.
abbrev pub founder : ℕ → ℕ → Tenancy → Membership
founder actor role db = record {
  id = db.next_id + 1;
  tenant_id = db.next_id;
  user_id = actor;
  role_id = role;
  status = MembershipStatus.active;
}

pub create_tenant-founder :
    (x : Texts) (c : TenantContext) (name slug actor : ℕ) (r : Role) (t : Tenant) (db db' : Tenancy)
    → actor_user_id c ≡ ok actor
    → system_role role_owner db ≡ ok r
    → create_tenant x c name slug db ≡ (ok t, db')
    → (db'.memberships ≡ db.memberships ++ founder actor r.id db ∷ [])
      × (db'.tenants ≡ db.tenants ++ t ∷ [])
      × (t.id ≡ db.next_id)
unfolding create_tenant insert_tenant insert_membership system_role
create_tenant-founder x c name slug actor r t db db' a o h = ground (arith, a, o, h)

pub create_tenant-IsOwned :
    (x : Texts) (c : TenantContext) (name slug : ℕ) (r : Role) (t : Tenant) (db db' : Tenancy)
    → system_role role_owner db ≡ ok r
    → IsOwned r.id db
    → create_tenant x c name slug db ≡ (ok t, db')
    → IsOwned r.id db'
unfolding create_tenant
create_tenant-IsOwned x c name slug r t db db' o owned h = elim (Result-cases (actor_user_id c)) [
  | inr (e, a) ↦ absurd (ground (arith, a, h))
  | inl (actor, a) ↦
      let (ms, ts, same) = create_tenant-founder x c name slug actor r t db db' a o h in
      let m = founder actor r.id db in
      rw (ms, ts)
        (All-append (λ x. HasOwner r.id (db.memberships ++ m ∷ []) x.id) db.tenants t
          (All-map (λ x. HasOwner r.id db.memberships x.id) _ db.tenants
            (λ x. joined-HasOwner r.id m db.memberships x.id) owned)
          (rw same (founder-HasOwner r.id m db.memberships refl)))
]

-- What joins, and what leaves the memberships alone.
pub join-IsOwned :
    (actor role : ℕ) (i : Invitation) (a : Membership) (db db' : Tenancy)
    → IsOwned role db
    → join actor i db ≡ (ok a, db')
    → IsOwned role db'
unfolding join insert_membership save_invitation
join-IsOwned actor role i a db db' owned h =
    let ms : db'.memberships ≡ db.memberships ++ a ∷ [] = ground (arith, h) in
    let ts : db'.tenants ≡ db.tenants = ground (arith, h) in
    rw (ms, ts)
      (All-map (λ x. HasOwner role db.memberships x.id) _ db.tenants
        (λ x. joined-HasOwner role a db.memberships x.id) owned)

pub save_tenant-IsOwned :
    (role : ℕ) (old t : Tenant) (db db' : Tenancy)
    → get_row tenants_schema old.id db.tenants ≡ some old
    → t.id ≡ old.id
    → IsOwned role db
    → save_tenant t db ≡ (ok tt, db')
    → IsOwned role db'
unfolding save_tenant
save_tenant-IsOwned role old t db db' e i owned h =
    let ms : db'.memberships ≡ db.memberships = ground (arith, h) in
    let ts : db'.tenants ≡ replace tenants_schema t db.tenants = ground (arith, h) in
    let P : Tenant → Type 0 = λ x. HasOwner role db.memberships x.id in
    let here = find-All P (λ x. x.id == old.id) db.tenants old owned e in
    rw (ms, ts) (All-replace tenants_schema P t db.tenants owned (rw i here))
