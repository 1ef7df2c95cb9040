-- ===== src/Tablets/CheckIn/Lease.antt =====
-- How far a check-in moves the end of a lease.
use fire_dash_server.Prelude.{
  ℕ, ◌+◌, ◌-◌, ltb, leb, ◌&&◌, Bool-cases, ◌>>=◌, pure, subst, ◌≡◌, sym, ◌∙◌, ◌⊎◌, inl, inr, Bool,
  true, arith, ◌==◌, first, some, ok, >>=-eq-ok, if◌then◌else◌,
}
use fire_dash_server.Tablets.Models.{Tablet, Department, AppInstallation, is_current}
use fire_dash_server.Tablets.Store.{Db, steps, days, save_installation}
use fire_dash_server.Tablets.Guards.{
  is_stale_installation, is_active_installation, is_inactive_tablet, is_below_minimum,
  auto_renew_threshold, lease_target, renew_lease_if_due, eligible_for_lease_renewal,
  require_active_operational_tablet, require_inactive_control_tablet, update_app_telemetry,
}
use fire_dash_server.Tablets.Reads.{if-ok}
use fire_dash_server.Tablets.Challenge.{Crypto}
use fire_dash_server.Tablets.CheckIn.{
  Telemetry, staled, mark_stale, recover_stale_installation, check_in_inactive,
  confirm_installation, check_in_operational, check_in_current, check_in, save_telemetry_if,
}
use fire_dash_server.Tablets.CheckIn.Kept.{check_in_accepted}

pub telemetry_lease :
    (now : ℕ) (i : AppInstallation) (t : Telemetry)
    → (update_app_telemetry now i t.app_version t.app_build
        t.build_supplied).0.authorization_valid_until
      ≡ i.authorization_valid_until
unfolding update_app_telemetry
telemetry_lease now i t = ground arith

-- An installation whose lease ends where it did, or where a new lease ends.
abbrev pub Leased : ℕ → Department → AppInstallation → AppInstallation → Type 0
Leased now d i a =
    (a.authorization_valid_until ≡ i.authorization_valid_until)
    ⊎ (a.authorization_valid_until ≡ now + days d.tablet_lease_days)

inactive_lease :
    (now : ℕ) (i : AppInstallation) (tab : Tablet) (t : Telemetry) (db : Db) {a : AppInstallation}
    {db' : Db}
    → check_in_inactive now i tab t db ≡ ok (a, db')
    → a.authorization_valid_until ≡ i.authorization_valid_until
unfolding steps check_in_inactive save_telemetry_if require_inactive_control_tablet
inactive_lease now i tab t db h = ground (arith, telemetry_lease now i t)

confirmed_lease :
    (now : ℕ) (i : AppInstallation) (tab : Tablet) (d : Department) (db : Db) {a : AppInstallation}
    {db' : Db}
    → confirm_installation now i tab d db ≡ ok (a, db')
    → Leased now d i a
unfolding steps confirm_installation recover_stale_installation require_active_operational_tablet
    lease_target
confirmed_lease now i tab d db h = elim (Bool-cases (is_stale_installation i.status)) [
  | inl e ↦ inr (ground arith)
  | inr e ↦ inl (ground arith)
]

renewed_lease :
    (now : ℕ) (i : AppInstallation) (tab : Tablet) (d : Department)
    → Leased now d i (renew_lease_if_due now i tab d).0
unfolding renew_lease_if_due lease_target
renewed_lease now i tab d = elim (Bool-cases (eligible_for_lease_renewal now i tab d)) [
  | inl e ↦ elim (Bool-cases (ltb auto_renew_threshold (i.authorization_valid_until - now))) [
    | inl k ↦ inl (ground arith)
    | inr k ↦ inr (ground arith)
  ]
  | inr e ↦ inl (ground arith)
]

Leased-trans :
    (now : ℕ) (d : Department) (i a b : AppInstallation)
    → Leased now d i a
    → Leased now d a b
    → Leased now d i b
Leased-trans now d i a b (inl p) (inl q) = inl (q ∙ p)
Leased-trans now d i a b (inr p) (inl q) = inr (q ∙ p)
Leased-trans now d i a b p (inr q) = inr q

written :
    (now : ℕ) (seen i : AppInstallation) (tab : Tablet) (updated : Bool) (d : Department) (db : Db)
    {a : AppInstallation} {db' : Db}
    → (save_installation i.id (λ r. record r {
      last_successful_check_in_at =
          (renew_lease_if_due now seen tab d).0.last_successful_check_in_at;
      authorization_valid_until =
          if (renew_lease_if_due now seen tab d).1
          then (renew_lease_if_due now seen tab d).0.authorization_valid_until
          else r.authorization_valid_until;
    })
          >>= λ _. save_telemetry_if updated i.id (renew_lease_if_due now seen tab d).0 >>= λ _.
              pure (renew_lease_if_due now seen tab d).0)
        db
      ≡ ok (a, db')
    → a ≡ (renew_lease_if_due now seen tab d).0
unfolding steps save_telemetry_if
written now seen i tab updated d db h = ground arith

operational_lease :
    (now : ℕ) (i : AppInstallation) (tab : Tablet) (d : Department) (t : Telemetry) (db : Db)
    {a : AppInstallation} {db' : Db}
    → check_in_operational now i tab d t db ≡ ok (a, db')
    → Leased now d i a
unfolding check_in_operational
operational_lease now i tab d t db {a} {db'} h =
    let seen = update_app_telemetry now i t.app_version t.app_build t.build_supplied in
    elim (if-ok db (is_below_minimum seen.0.app_version t.minimum_app_version) _ _ h) [
      | inl (_, k) ↦ inl (blocked k ∙ telemetry_lease now i t)
      | inr (_, k) ↦
          let (b, mid, e, k1) = >>=-eq-ok (confirm_installation now seen.0 tab d) _ db k in
          Leased-trans now d i seen.0 a (inl (telemetry_lease now i t)) (
            Leased-trans now d seen.0 b a (confirmed_lease now seen.0 tab d db e) (
              subst (Leased now d b) (sym (written now b i tab seen.1 d mid k1))
                (renewed_lease now b tab d)))
    ]
  where
    blocked :
        (save_telemetry_if
                (update_app_telemetry now i t.app_version t.app_build t.build_supplied).1
                i.id
                (update_app_telemetry now i t.app_version t.app_build t.build_supplied).0
              >>= λ _.
                  pure
                    (record (update_app_telemetry now i t.app_version t.app_build
                      t.build_supplied).0 { compatibility_blocked = true }))
            db
          ≡ ok (a, db')
        → a.authorization_valid_until
          ≡ (update_app_telemetry now i t.app_version t.app_build
              t.build_supplied).0.authorization_valid_until
    blocked k = unfold steps in unfold save_telemetry_if in (ground arith)

current_lease :
    (now : ℕ) (i : AppInstallation) (tab : Tablet) (d : Department) (t : Telemetry) (db : Db)
    {a : AppInstallation} {db' : Db}
    → check_in_current now i tab d t db ≡ ok (a, db')
    → Leased now d i a
unfolding check_in_current
current_lease now i tab d t db {a} {db'} h = elim (if-ok db (is_inactive_tablet tab.status) _ _ h) [
  | inl (_, k) ↦ inl (inactive_lease now i tab t db k)
  | inr (_, k) ↦
      elim (if-ok db (is_active_installation i.status && leb i.authorization_valid_until now) _ _
        k) [
          | inl (_, m) ↦
              let (u, mid, e, n) = >>=-eq-ok (mark_stale now i) _ db m in
              operational_lease now (staled now i) tab d t mid n
          | inr (_, m) ↦ operational_lease now i tab d t db m
        ]
]

module _ (c : Crypto) (now pk credential : ℕ) (t : Telemetry) (db : Db) {a : AppInstallation}
    {db' : Db} where
  -- Where `check_in` returns, it has found the installation, in service and with this credential, its
  -- tablet and its department, and the lease of the row that it returns ends where that of the
  -- installation did, or as many days from now as the department gives.
  pub check_in-Leased :
      check_in c now pk credential t db ≡ ok (a, db')
      → (i : AppInstallation) × (tab : Tablet) × (d : Department) × (first
            (λ r. r.id == pk)
            db.installations
          ≡ some i)
        × (first (λ r. r.id == i.tablet_id) db.tablets ≡ some tab)
        × (first (λ r. r.id == tab.department_id) db.departments ≡ some d)
        × (i.credential_hash ≡ c.secret_digest credential)
        × (is_current i.status ≡ true)
        × Leased now d i a
  check_in-Leased h =
      let (i, tab, d, fi, ft, fd, known, current, k) =
        check_in_accepted c now pk credential t db h in
      (i, tab, d, fi, ft, fd, known, current, current_lease now i tab d t db k)
