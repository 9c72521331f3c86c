-- ===== src/Tenants/Joining.antt =====
-- Invitations, from `invite_member` to `accept_invitation` (core/tenants/service.py).
use backend_core.Common.{
  ℕ, ◌≡◌, refl, Bool, true, false, ◌&&◌, Option, some, List, [], ◌∷◌, ◌++◌, ◌==◌, find, arith, inl,
  inr, Option-cases, find-holds,
}
use backend_core.Common.Table.{taken, get_row, replace, get_row-find, find-replace}
use backend_core.Shared.Errors.{Error, ok, err, Result-cases}
use backend_core.Shared.Clock.{DateTime, not_after}
use backend_core.Shared.Context.{user}
use backend_core.Tenants.Models.{
  Membership, Role, Invitation, InvitationStatus, invitations_schema, is_pending_invitation,
}
use backend_core.Tenants.Store.{
  Tenancy, TenantContext, Texts, Mail, IsConsistent, insert_membership, save_invitation,
  actor_user_id, tenant_or_system_role, in_tenant,
}
use backend_core.Tenants.Service.{
  Mailer, invitation_by, check_invitation, join, accept_invitation, invite_member, add_invitation,
  send_mail, require, revoke_invitation, get_invitation,
}

-- A pending invitation of the hash, within its time and sent to the address.
abbrev pub Admits : Tenancy → ℕ → ℕ → Invitation → Type 0
Admits db hash email i =
    (invitation_by hash db ≡ some i)
    × (is_pending_invitation i.status ≡ true)
    × (not_after i.expires_at db.now ≡ false)
    × (i.email ≡ email)

check_invitation-Admits :
    (hash email : ℕ) (db : Tenancy) (i : Invitation)
    → check_invitation email (invitation_by hash db) db.now ≡ ok i
    → Admits db hash email i
unfolding check_invitation
check_invitation-Admits hash email db i h = elim (Option-cases (invitation_by hash db)) [
  | inl e ↦ absurd (ground (arith, e, h))
  | inr (w, e) ↦ ground (arith, e, h)
]

-- What an accepted invitation leaves.
unfoldable pub accepted : ℕ → Tenancy → Invitation → Invitation
accepted actor db i = record i {
  status = InvitationStatus.accepted;
  accepted_by_user_id = some actor;
  accepted_at = some db.now;
}

join-accepts :
    (actor : ℕ) (i : Invitation) (m : Membership) (db db' : Tenancy)
    → join actor i db ≡ (ok m, db')
    → (db'.invitations ≡ replace invitations_schema (accepted actor db i) db.invitations)
      × (m.tenant_id ≡ i.tenant_id)
      × (m.user_id ≡ actor)
      × (m.role_id ≡ i.role_id)
      × (db'.memberships ≡ db.memberships ++ m ∷ [])
unfolding join insert_membership save_invitation accepted
join-accepts actor i m db db' h = ground (arith, h)

-- Whoever joins does so by an invitation that was pending, within its time and sent to the very
-- address of the account, into its tenant and under its role.
pub accept_invitation-Admits :
    (x : Texts) (c : TenantContext) (token email : ℕ) (m : Membership) (db db' : Tenancy)
    → accept_invitation x c token email db ≡ (ok m, db')
    → (i : Invitation) × Admits db (x.hash_token token) (x.normalize email) i
      × (c.actor ≡ user (some m.user_id))
      × (m.tenant_id ≡ i.tenant_id)
      × (m.role_id ≡ i.role_id)
      × (db'.memberships ≡ db.memberships ++ m ∷ [])
unfolding accept_invitation actor_user_id
accept_invitation-Admits x c token email m db db' h =
    let hash = x.hash_token token in
    let checked = check_invitation (x.normalize email) (invitation_by hash db) db.now in
    elim (Result-cases (actor_user_id c)) [
      | inr (e, f) ↦ absurd (ground (arith, f, h))
      | inl (actor, f) ↦ elim (Result-cases checked) [
        | inr (e, g) ↦ absurd (ground (arith, f, g, h))
        | inl (i, g) ↦
            let admits = check_invitation-Admits hash (x.normalize email) db i g in
            let (_, t, u, r, ms) = join-accepts actor i m db db' (ground (arith, f, g, h)) in
            (i, admits, ground (arith, f, u), t, r, ms)
      ]
    ]

-- An invitation whose status is not pending admits nobody.
spent :
    (x : Texts) (c : TenantContext) (token email u : ℕ) (i : Invitation) (db : Tenancy)
    → c.actor ≡ user (some u)
    → invitation_by (x.hash_token token) db ≡ some i
    → is_pending_invitation i.status ≡ false
    → accept_invitation x c token email db ≡ (err Error.not_found, db)
unfolding accept_invitation actor_user_id check_invitation
spent x c token email u i db a e p = ground (arith, a, e, p)

-- An invitation admits one person once: after it was accepted its token is refused to every user,
-- with whatever address and at whatever later time, and nothing changes.
pub accept_invitation-once :
    (x : Texts) (c c' : TenantContext) (token email email' u : ℕ) (m : Membership)
    (later : DateTime) (db db' : Tenancy)
    → IsConsistent db
    → accept_invitation x c token email db ≡ (ok m, db')
    → c'.actor ≡ user (some u)
    → accept_invitation x c' token email' (record db' { now = later })
      ≡ (err Error.not_found, record db' { now = later })
unfolding accept_invitation actor_user_id accepted
accept_invitation-once x c c' token email email' u m later db db' v h a =
    let hash = x.hash_token token in
    let by_hash : Invitation → Bool = λ i. i.token_hash == hash in
    let checked = check_invitation (x.normalize email) (invitation_by hash db) db.now in
    elim (Result-cases (actor_user_id c)) [
      | inr (e, f) ↦ absurd (ground (arith, f, h))
      | inl (actor, f) ↦ elim (Result-cases checked) [
        | inr (e, g) ↦ absurd (ground (arith, f, g, h))
        | inl (i, g) ↦
            let found = (check_invitation-Admits hash (x.normalize email) db i g).0 in
            let (is, _, _, _, _) = join-accepts actor i m db db' (ground (arith, f, g, h)) in
            let spent_row = accepted actor db i in
            let same =
              find-replace invitations_schema by_hash db.invitations i spent_row v.2 found refl
                (find-holds by_hash db.invitations i found) in
            spent x c' token email' u spent_row (record db' { now = later }) a (rw is same) refl
      ]
    ]

revoked-row :
    (c : TenantContext) (i : Invitation) (db db' : Tenancy)
    → IsConsistent db
    → get_row invitations_schema i.id db.invitations ≡ some i
    → revoke_invitation c i.id db ≡ (ok tt, db')
    → db'.invitations
      ≡ replace invitations_schema (record i { status = InvitationStatus.revoked }) db.invitations
unfolding revoke_invitation require get_invitation save_invitation
revoked-row c i db db' v row h = elim (Option-cases c.tenant_id) [
  | inl n ↦ absurd (ground (arith, n, h))
  | inr (t, n) ↦
      let named : Invitation → Bool = λ w. in_tenant c w.tenant_id && w.id == i.id in
      elim (Option-cases (find named db.invitations)) [
        | inl f ↦ absurd (ground (arith, n, f, h))
        | inr (w, f) ↦
            let row' = get_row-find invitations_schema named db.invitations w v.2 f in
            let same : w.id ≡ i.id = ground (arith, find-holds named db.invitations w f) in
            let equal : w ≡ i = ground (arith, row, row', same) in ground (arith, n, f, h, equal)
      ]
]

-- After an invitation was revoked its token is refused to every user, whenever it comes.
pub revoke_invitation-refuses :
    (x : Texts) (c c' : TenantContext) (token email u : ℕ) (i : Invitation) (later : DateTime)
    (db db' : Tenancy)
    → IsConsistent db
    → invitation_by (x.hash_token token) db ≡ some i
    → revoke_invitation c i.id db ≡ (ok tt, db')
    → c'.actor ≡ user (some u)
    → accept_invitation x c' token email (record db' { now = later })
      ≡ (err Error.not_found, record db' { now = later })
unfolding revoke_invitation
revoke_invitation-refuses x c c' token email u i later db db' v found h a =
    let by_hash : Invitation → Bool = λ w. w.token_hash == x.hash_token token in
    let row = get_row-find invitations_schema by_hash db.invitations i v.2 found in
    let revoked : Invitation = record i { status = InvitationStatus.revoked } in
    let same =
      find-replace invitations_schema by_hash db.invitations i revoked v.2 found refl
        (find-holds by_hash db.invitations i found) in
    spent x c' token email u revoked (record db' { now = later }) a
      (rw (revoked-row c i db db' v row h) same) refl

-- The token that was mailed with an invitation.
abbrev pub token_of : List Mail → ℕ
token_of [] = 0
token_of (mail ∷ _) = mail.token

pub invite_member-pending :
    (x : Texts) (mailer : Option Mailer) (c : TenantContext) (email role : ℕ) (i : Invitation)
    (db db' : Tenancy)
    → invite_member x mailer c email role db ≡ (ok i, db')
    → (taken invitations_schema i db.invitations ≡ false)
      × (db'.invitations ≡ db.invitations ++ i ∷ [])
      × (i.token_hash ≡ x.hash_token (token_of db'.mails))
      × (i.email ≡ x.normalize email)
      × (i.status ≡ InvitationStatus.pending)
      × (db'.memberships ≡ db.memberships)
unfolding invite_member require add_invitation send_mail
invite_member-pending x mailer c email role i db db' h = ground (arith, h)

pub invite_member-role :
    (x : Texts) (mailer : Option Mailer) (c : TenantContext) (email role : ℕ) (i : Invitation)
    (db db' : Tenancy)
    → invite_member x mailer c email role db ≡ (ok i, db')
    → (r : Role) × (tenant_or_system_role c role db ≡ ok r)
      × (i.role_id ≡ r.id)
      × (db'.roles ≡ db.roles)
unfolding invite_member require add_invitation send_mail
invite_member-role x mailer c email role i db db' h =
    elim (Result-cases (tenant_or_system_role c role db)) [
      | inr (e, f) ↦ absurd (ground (arith, f, h))
      | inl (r, f) ↦ (r, f, ground (arith, f, h), ground (arith, f, h))
    ]
