-- ===== src/Tenants/Inviting.antt =====
-- From `invite_member` to the membership (core/tenants/service.py).
use backend_core.Common.{
  ℕ, ◌≡◌, ◌∙◌, refl, Bool, false, ◌&&◌, Option, none, some, List, [], ◌∷◌, ◌++◌, ◌==◌, any, find,
  arith, inl, inr, Option-cases, find-append_last,
}
use backend_core.Common.Table.{taken, conflicts}
use backend_core.Shared.Errors.{ok}
use backend_core.Shared.Clock.{DateTime, not_after}
use backend_core.Shared.Context.{user}
use backend_core.Tenants.Models.{
  Membership, MembershipStatus, Role, Invitation, invitations_schema, memberships_schema,
}
use backend_core.Tenants.Store.{
  Tenancy, TenantContext, Texts, insert_membership, save_invitation, actor_user_id,
  tenant_or_system_role, is_visible,
}
use backend_core.Tenants.Service.{
  Mailer, invitation_by, check_invitation, join, accept_invitation, invite_member,
}
use backend_core.Tenants.Joining.{accepted, token_of, invite_member-pending, invite_member-role}

fresh-hash :
    (i : Invitation) (rows : List Invitation)
    → taken invitations_schema i rows ≡ false
    → find (λ w. w.token_hash == i.token_hash) rows ≡ none
fresh-hash i [] h = refl
fresh-hash i (w ∷ rows) h = ground (arith, h, fresh-hash i rows)

accepted-free :
    (actor : ℕ) (db : Tenancy) (i : Invitation) (rows : List Invitation)
    → taken invitations_schema i rows ≡ false
    → conflicts invitations_schema (accepted actor db i) (rows ++ i ∷ []) ≡ false
unfolding accepted
accepted-free actor db i [] h = ground arith
accepted-free actor db i (w ∷ rows) h = ground (arith, h, accepted-free actor db i rows)

pub member-free :
    (m : Membership) (rows : List Membership)
    → any (λ w. w.tenant_id == m.tenant_id && w.user_id == m.user_id) rows ≡ false
    → any (λ w. w.id == m.id) rows ≡ false
    → taken memberships_schema m rows ≡ false
member-free m [] a b = refl
member-free m (w ∷ rows) a b = ground (arith, a, b, member-free m rows)

role-row :
    (p : Role → Bool) (rows : List Role) (r : Role)
    → find p rows ≡ some r
    → (s : Role) × (find (λ x. x.id == r.id) rows ≡ some s)
role-row p [] r e = cc
role-row p (x ∷ rows) r e = elim (Option-cases (find (λ y. y.id == r.id) (x ∷ rows))) [
  | inr (s, f) ↦ (s, f)
  | inl f ↦ absurd (ground (arith, e, f, role-row p rows r))
]

-- `join` with nothing in its way.
join-succeeds :
    (actor : ℕ) (i : Invitation) (s : Role) (rows : List Invitation) (db : Tenancy)
    → any (λ m. m.tenant_id == i.tenant_id && m.user_id == actor) db.memberships ≡ false
    → any (λ m. m.id == db.next_id) db.memberships ≡ false
    → find (λ r. r.id == i.role_id) db.roles ≡ some s
    → db.invitations ≡ rows ++ i ∷ []
    → taken invitations_schema i rows ≡ false
    → (m : Membership) × ((join actor i db).0 ≡ ok m)
      × ((join actor i db).1.memberships ≡ db.memberships ++ m ∷ [])
      × (m.tenant_id ≡ i.tenant_id)
      × (m.user_id ≡ actor)
      × (m.role_id ≡ i.role_id)
      × (m.status ≡ MembershipStatus.active)
unfolding join insert_membership save_invitation accepted
join-succeeds actor i s rows db a n r is t =
    let m : Membership = record {
      id = db.next_id;
      tenant_id = i.tenant_id;
      user_id = actor;
      role_id = i.role_id;
      status = MembershipStatus.active;
    } in
    (
      m,
      ground (arith, a, r, is, member-free m db.memberships a n, accepted-free actor db i rows t),
      ground (arith, a, r, is, member-free m db.memberships a n, accepted-free actor db i rows t),
      refl,
      refl,
      refl,
      refl,
    )

accept-joins :
    (x : Texts) (c : TenantContext) (token email u : ℕ) (i : Invitation) (db : Tenancy)
    → c.actor ≡ user (some u)
    → check_invitation (x.normalize email) (invitation_by (x.hash_token token) db) db.now ≡ ok i
    → accept_invitation x c token email db ≡ join u i db
unfolding accept_invitation actor_user_id
accept-joins x c token email u i db a h = ground (arith, a, h)

-- The token that is mailed with an invitation admits: within the invitation's time, whoever has the
-- address that was invited, and is not yet a member, gets a row of `memberships` that makes them an
-- active member of the tenant under the invitation's role, if the id of
-- the new row is not taken.
pub invite_member-accept_invitation :
    (x : Texts) (mailer : Option Mailer) (c c' : TenantContext) (email email' role u : ℕ)
    (i : Invitation) (later : DateTime) (db db' : Tenancy)
    → invite_member x mailer c email role db ≡ (ok i, db')
    → c'.actor ≡ user (some u)
    → x.normalize email' ≡ x.normalize email
    → not_after i.expires_at later ≡ false
    → any (λ m. m.tenant_id == i.tenant_id && m.user_id == u) db'.memberships ≡ false
    → any (λ m. m.id == db'.next_id) db'.memberships ≡ false
    → let joined =
        accept_invitation x c' (token_of db'.mails) email' (record db' { now = later }) in
      (m : Membership) × (joined.0 ≡ ok m)
      × (joined.1.memberships ≡ db'.memberships ++ m ∷ [])
      × (m.tenant_id ≡ i.tenant_id)
      × (m.user_id ≡ u)
      × (m.role_id ≡ i.role_id)
      × (m.status ≡ MembershipStatus.active)
unfolding accept_invitation check_invitation actor_user_id tenant_or_system_role
invite_member-accept_invitation x mailer c c' email email' role u i later db db' h a same time free
      n =
    let (t, is, hash, mail, status, _) = invite_member-pending x mailer c email role i db db' h in
    let (r, f, named, roles) = invite_member-role x mailer c email role i db db' h in
    let db1 : Tenancy = record db' { now = later } in
    let found : find (λ w. w.token_hash == i.token_hash) db'.invitations ≡ some i = rw is (
      find-append_last (λ w. w.token_hash == i.token_hash) db.invitations i
        (fresh-hash i db.invitations t) (ground arith)) in
    elim (Option-cases (find (λ y. y.code == role && is_visible c y) db.roles)) [
      | inl e ↦ absurd (ground (arith, e, f))
      | inr (r', e) ↦
          let (s, g) = role-row (λ y. y.code == role && is_visible c y) db.roles r' e in
          let row : find (λ y. y.id == i.role_id) db'.roles ≡ some s =
            ground (arith, e, f, g, named, roles) in
          let (m, j, rows, k1, k2, k3, k4) =
            join-succeeds u i s db.invitations db1 free n row is t in
          let runs =
            accept-joins x c' (token_of db'.mails) email' u i db1 a
              (ground (arith, hash, found, status, time, mail, same)) in
          (m, (λ k. (runs k).0) ∙ j, (λ k. (runs k).1.memberships) ∙ rows, k1, k2, k3, k4)
    ]
