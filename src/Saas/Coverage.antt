-- ===== src/Saas/Coverage.antt =====
-- What the events of billing do to a tenant's plan (modules/saas/entitlements).
use backend_core.Common.{
  ℕ, ◌≡◌, ◌≢◌, refl, true, false, Option, none, some, List, [], ◌∷◌, ◌++◌, ◌==◌, find, arith, inl,
  inr, Bool-cases, Option-cases, subst, sym,
}
use backend_core.Common.Table.{replace, get_row-replace_self, get_row-id}
use backend_core.Shared.Errors.{ok, ◌>>◌}
use backend_core.Saas.Entitlements.{
  TenantEntitlement, Saas, entitlements_schema, current_row, write_row, set_active_plan, end_plan,
  earlier_end, activated, ended, on_event,
}

abbrev active_row : ℕ → ℕ → Option ℕ → TenantEntitlement
active_row t plan end = record {
  tenant_id = t;
  plan_code = plan;
  current_period_end = end;
  canceled = false;
}

find-append_new :
    (t : ℕ) (rows : List TenantEntitlement) (r : TenantEntitlement)
    → find (λ b. b.tenant_id == t) rows ≡ none
    → r.tenant_id ≡ t
    → find (λ b. b.tenant_id == t) (rows ++ r ∷ []) ≡ some r
find-append_new t [] r e i = ground (arith, i)
find-append_new t (b ∷ rows) r e i = ground (arith, e, find-append_new t rows r, i)

replace-replace :
    (a b : TenantEntitlement) (rows : List TenantEntitlement)
    → a.tenant_id ≡ b.tenant_id
    → replace entitlements_schema a (replace entitlements_schema b rows)
      ≡ replace entitlements_schema a rows
replace-replace a b [] e = refl
replace-replace a b (d ∷ rows) e = ground (arith, e, replace-replace a b rows e)

-- A row of a tenant that is written is the one that is read next.
write-current :
    (t : ℕ) (s : Saas) (r old : TenantEntitlement)
    → r.tenant_id ≡ t
    → current_row t s ≡ some old
    → current_row t (write_row r s).1 ≡ some r
unfolding write_row
write-current t s r old i e =
    subst
      (λ j.
        find (λ b. b.tenant_id == j) s.tenants ≡ some old
        → find (λ b. b.tenant_id == j) (replace entitlements_schema r s.tenants) ≡ some r)
      i (get_row-replace_self entitlements_schema r s.tenants old) e

current-tenant :
    (t : ℕ) (s : Saas) (r : TenantEntitlement) → current_row t s ≡ some r → r.tenant_id ≡ t
current-tenant t s r e = get_row-id entitlements_schema t s.tenants r e

set-current :
    (t plan : ℕ) (end : Option ℕ) (s : Saas)
    → current_row t (set_active_plan t plan end s).1 ≡ some (active_row t plan end)
unfolding set_active_plan
set-current t plan end s = elim (Option-cases (current_row t s)) [
  | inl e ↦ ground (arith, e, find-append_new t s.tenants (active_row t plan end) e)
  | inr (old, e) ↦ ground (arith, e, write-current t s (active_row t plan end) old refl e)
]

-- Another plan that is activated hides the end of the old one.
set-end :
    (t p q time : ℕ) (end : Option ℕ) (s : Saas)
    → (set_active_plan t q end (end_plan t p time s).1).1.tenants
      ≡ (set_active_plan t q end s).1.tenants
unfolding set_active_plan end_plan write_row
set-end t p q time end s = elim (Option-cases (current_row t s)) [
  | inl e ↦ ground (arith, e)
  | inr (r, e) ↦ elim (Bool-cases (r.plan_code == p)) [
    | inr i ↦ ground (arith, e, i)
    | inl i ↦
        let r' : TenantEntitlement = record r {
          canceled = true;
          current_period_end = some (earlier_end r.current_period_end time);
        } in
        let m = current-tenant t s r e in
        let w = write-current t s r' r m e in
        ground (arith, e, i, w, replace-replace (active_row t q end) r' s.tenants (sym m))
  ]
]

end-other :
    (t p time : ℕ) (s : Saas) (r : TenantEntitlement)
    → current_row t s ≡ some r
    → (r.plan_code == p) ≡ false
    → (end_plan t p time s).1 ≡ s
unfolding end_plan
end-other t p time s r e i = ground (arith, e, i)

set-ok : (t q : ℕ) (end : Option ℕ) (s : Saas) → (set_active_plan t q end s).0 ≡ ok tt
unfolding set_active_plan write_row
set-ok t q end s = ground arith

end-ok : (t p time : ℕ) (s : Saas) → (end_plan t p time s).0 ≡ ok tt
unfolding end_plan write_row
end-ok t p time s = ground arith

-- The end of a plan and the activation of another one leave the same rows in either order of
-- delivery.
pub on_event-swap :
    (t p q time : ℕ) (end : Option ℕ) (s : Saas)
    → p ≢ q
    → ((on_event (some t) (ended p time) >> on_event (some t) (activated q end)) s).1.tenants
      ≡ ((on_event (some t) (activated q end) >> on_event (some t) (ended p time)) s).1.tenants
unfolding on_event
on_event-swap t p q time end s n = elim (Bool-cases (p == 0)) [
  | inl z ↦ ground (arith, z, set-ok t q end s)
  | inr z ↦ elim (Bool-cases (q == 0)) [
    | inl y ↦ ground (arith, z, y, end-ok t p time s)
    | inr y ↦
        let a = (set_active_plan t q end s).1 in
        ground (
          arith,
          z,
          y,
          set-ok t q end s,
          end-ok t p time s,
          set-end t p q time end s,
          end-other t p time a (active_row t q end) (set-current t q end s) (ground (arith, n)),
        )
  ]
]
