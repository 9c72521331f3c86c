-- ===== src/Tenants/Owned.antt =====
-- Every tenant keeps an owner, whatever is requested of core/tenants/service.py.
use backend_core.Common.{ℕ, ◌≡◌, refl, sym, subst, Option, some, arith, inl, inr, Option-cases}
use backend_core.Common.Table.{get_row, get_row-id}
use backend_core.Shared.Errors.{ok, Action, ◌>>◌, pure, unit_of_work, Result-cases}
use backend_core.Tenants.Models.{Tenant, TenantStatus, Membership, Invitation, Role, tenants_schema}
use backend_core.Tenants.Store.{
  Tenancy, TenantContext, Texts, IsConsistent, system_role, role_owner, context_tenant,
  actor_user_id, save_tenant, save_invitation,
}
use backend_core.Tenants.Service.{
  Mailer, AskedStatus, asked_status, require, accept_invitation, check_invitation, invitation_by,
  join, update_tenant, invite_member, send_mail, add_invitation, revoke_invitation, set_status,
  change_member_role, remove_member, create_tenant,
}
use backend_core.Tenants.Requests.{
  Request, run, create, accept, update, invite, revoke, change_role, remove, set,
}
use backend_core.Tenants.Owners.{
  IsOwned, OnlyOwner, create_tenant-IsOwned, join-IsOwned, save_tenant-IsOwned,
  change_member_role-IsOwned, remove_member-IsOwned,
}

module _ (P : Tenancy → Type 0) (db : Tenancy) (p : P db) where
  -- What a unit of work leaves is what there was, or what its commit wrote.
  committed :
      {A : Type 0} (m : Action Tenancy A)
      → ((a : A) (db' : Tenancy) → m db ≡ (ok a, db') → P db')
      → P (unit_of_work m db).1
  unfolding unit_of_work
  committed m f = elim (Result-cases (m db).0) [
    | inr (e, h) ↦ let same : (unit_of_work m db).1 ≡ db = ground (arith, h) in subst P (sym same) p
    | inl (a, h) ↦
        let same : (unit_of_work m db).1 ≡ (m db).1 = ground (arith, h) in
        subst P (sym same) (f a (m db).1 (ground (arith, h)))
  ]

  committed_unit :
      {A : Type 0} (m : Action Tenancy A)
      → ((a : A) (db' : Tenancy) → m db ≡ (ok a, db') → P db')
      → P (unit_of_work (m >> pure tt) db).1
  committed_unit m f = committed (m >> pure tt) (λ _ db' h. elim (Result-cases (m db).0) [
    | inr (e, g) ↦ absurd (ground (arith, g, h))
    | inl (a, g) ↦ f a db' (ground (arith, g, h))
  ])

accept_invitation-joins :
    (x : Texts) (c : TenantContext) (token email : ℕ) (a : Membership) (db db' : Tenancy)
    → accept_invitation x c token email db ≡ (ok a, db')
    → (actor : ℕ) × (i : Invitation) × (join actor i db ≡ (ok a, db'))
unfolding accept_invitation
accept_invitation-joins x c token email a db db' h = elim (Result-cases (actor_user_id c)) [
  | inr (e, f) ↦ absurd (ground (arith, f, h))
  | inl (actor, f) ↦
      elim (Result-cases
        (check_invitation (x.normalize email) (invitation_by (x.hash_token token) db) db.now)) [
          | inr (e, g) ↦ absurd (ground (arith, f, g, h))
          | inl (i, g) ↦ (actor, i, ground (arith, f, g, h))
        ]
]

-- A tenant's row as the context or its id finds it, and what is saved of it.
update_tenant-saves :
    (c : TenantContext) (name locale : Option ℕ) (t : Tenant) (db db' : Tenancy)
    → update_tenant c name locale db ≡ (ok t, db')
    → (old : Tenant) × (get_row tenants_schema old.id db.tenants ≡ some old)
      × (t.id ≡ old.id)
      × (save_tenant t db ≡ (ok tt, db'))
unfolding update_tenant require context_tenant
update_tenant-saves c name locale t db db' h = elim (Option-cases c.tenant_id) [
  | inl n ↦ absurd (ground (arith, n, h))
  | inr (i, n) ↦ elim (Option-cases (get_row tenants_schema i db.tenants)) [
    | inl f ↦ absurd (ground (arith, n, f, h))
    | inr (old, f) ↦
        let same = get_row-id tenants_schema i db.tenants old f in
        (
          old,
          subst (λ j. get_row tenants_schema j db.tenants ≡ some old) (sym same) f,
          ground (arith, n, f, h),
          ground (arith, n, f, h),
        )
  ]
]

set_status-saves :
    (t : ℕ) (asked : AskedStatus) (db db' : Tenancy)
    → set_status t asked db ≡ (ok tt, db')
    → (old : Tenant) × (status : TenantStatus) × (saved : Tenancy) × (get_row tenants_schema old.id
          db.tenants
        ≡ some old)
      × (save_tenant (record old { status = status }) db ≡ (ok tt, saved))
      × (db'.tenants ≡ saved.tenants)
      × (db'.memberships ≡ saved.memberships)
unfolding set_status
set_status-saves t asked db db' h = elim (Result-cases (asked_status asked)) [
  | inr (e, n) ↦ absurd (ground (arith, n, h))
  | inl (status, n) ↦ elim (Option-cases (get_row tenants_schema t db.tenants)) [
    | inl f ↦ absurd (ground (arith, n, f, h))
    | inr (old, f) ↦
        let same = get_row-id tenants_schema t db.tenants old f in
        let saved = (save_tenant (record old { status = status }) db).1 in
        (
          old,
          status,
          saved,
          subst (λ j. get_row tenants_schema j db.tenants ≡ some old) (sym same) f,
          ground (arith, n, f, h),
          ground (arith, n, f, h),
          ground (arith, n, f, h),
        )
  ]
]

-- What touches neither table.
invite_member-quiet :
    (x : Texts) (mailer : Option Mailer) (c : TenantContext) (email role : ℕ) (i : Invitation)
    (db db' : Tenancy)
    → invite_member x mailer c email role db ≡ (ok i, db')
    → (db'.tenants ≡ db.tenants) × (db'.memberships ≡ db.memberships)
unfolding invite_member require add_invitation send_mail
invite_member-quiet x mailer c email role i db db' h = ground (arith, h)

revoke_invitation-quiet :
    (c : TenantContext) (i : ℕ) (db db' : Tenancy)
    → revoke_invitation c i db ≡ (ok tt, db')
    → (db'.tenants ≡ db.tenants) × (db'.memberships ≡ db.memberships)
unfolding revoke_invitation require save_invitation
revoke_invitation-quiet c i db db' h = ground (arith, h)

-- Every request, answered or not, leaves every tenant an owner if every tenant had one: the last
-- owner can be neither removed nor demoted, and a new tenant is owned from the start. No role but
-- the system's may carry the owner's code.
pub run-IsOwned :
    (x : Texts) (mailer : Option Mailer) (c : TenantContext) (q : Request) (r : Role) (db : Tenancy)
    → IsConsistent db
    → system_role role_owner db ≡ ok r
    → OnlyOwner r db
    → IsOwned r.id db
    → IsOwned r.id (run x mailer c q db).1
unfolding run
run-IsOwned x mailer c (create name slug) r db v o only owned =
    committed_unit (IsOwned r.id) db owned (create_tenant x c name slug)
      (λ t db' h. create_tenant-IsOwned x c name slug r t db db' o owned h)
run-IsOwned x mailer c (accept token email) r db v o only owned =
    committed_unit (IsOwned r.id) db owned (accept_invitation x c token email) (λ a db' h.
      let (actor, i, j) = accept_invitation-joins x c token email a db db' h in
      join-IsOwned actor r.id i a db db' owned j)
run-IsOwned x mailer c (update name locale) r db v o only owned =
    committed_unit (IsOwned r.id) db owned (update_tenant c name locale) (λ t db' h.
      let (old, row, same, saved) = update_tenant-saves c name locale t db db' h in
      save_tenant-IsOwned r.id old t db db' row same owned saved)
run-IsOwned x mailer c (invite email role) r db v o only owned =
    committed_unit (IsOwned r.id) db owned (invite_member x mailer c email role) (λ i db' h.
      let (ts, ms) = invite_member-quiet x mailer c email role i db db' h in rw (ts, ms) owned)
run-IsOwned x mailer c (revoke i) r db v o only owned =
    committed (IsOwned r.id) db owned (revoke_invitation c i)
      (λ _ db' h. let (ts, ms) = revoke_invitation-quiet c i db db' h in rw (ts, ms) owned)
run-IsOwned x mailer c (change_role u role) r db v o only owned =
    committed_unit (IsOwned r.id) db owned (change_member_role c u role)
      (λ a db' h. change_member_role-IsOwned c u role r a db db' v o only owned h)
run-IsOwned x mailer c (remove u) r db v o only owned =
    committed (IsOwned r.id) db owned (remove_member c u)
      (λ _ db' h. remove_member-IsOwned c u r db db' v o owned h)
run-IsOwned x mailer c (set t asked) r db v o only owned =
    committed (IsOwned r.id) db owned (set_status t asked) (λ _ db' h.
      let (old, status, saved, row, s, ts, ms) = set_status-saves t asked db db' h in
      rw (ts, ms)
        (save_tenant-IsOwned r.id old (record old { status = status }) db saved row refl owned s))
