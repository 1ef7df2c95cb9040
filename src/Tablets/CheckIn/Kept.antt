-- ===== src/Tablets/CheckIn/Kept.antt =====
-- A check-in, a lease refresh and the stale sweep take no installation in or out of service.
use fire_dash_server.Prelude.{
  ℕ, ◌≤◌, ◌<◌, max, ap, ◌≡◌, sym, subst, Bool, true, false, some, none, Option, arith, ◌==◌, count,
  first, eq_of_==, ok, >>=-eq-ok,
}
use fire_dash_server.Prelude.TableLaws.{first_sound}
use fire_dash_server.Tablets.Models.{
  TabletStatus, AppInstallation, Tablet, Department, AppVersion, is_current, InstallationStatus,
}
use fire_dash_server.Tablets.Store.{steps, Db, Service}
use fire_dash_server.Tablets.Guards.{
  require_operational_tablet, eligible_for_lease_renewal, lease_target,
  require_active_operational_tablet, require_inactive_control_tablet, update_app_telemetry,
}
use fire_dash_server.Tablets.Reads.{
  get_tablet-bind, get_department-bind, get_installation-bind, raise_if-bind,
}
use fire_dash_server.Tablets.Challenge.{Crypto}
use fire_dash_server.Tablets.Rows.{
  KeptRow, Kept, Keeps, Keeps-read, Keeps-gets, Keeps-raise_if, Keeps-pure, Keeps-if, Keeps-bind,
  Keeps-save, Keeps-record_event, CurrentAt-first,
}
use fire_dash_server.Tablets.CheckIn.{
  Telemetry, staled, mark_stale, recover_stale_installation, check_in_inactive,
  confirm_installation, check_in_operational, check_in_current, check_in, top_up,
  refresh_installation_lease, save_telemetry_if,
}

reads_active :
    (now : ℕ) (t : Tablet) (db : Db) (u : Unit {0}) (db' : Db)
    → require_active_operational_tablet now t db ≡ ok (u, db')
    → db ≡ db'
unfolding steps require_active_operational_tablet
reads_active now t db u db' h = ground arith

reads_operational :
    (now : ℕ) (t : Tablet) (db : Db) (u : Unit {0}) (db' : Db)
    → require_operational_tablet now t db ≡ ok (u, db')
    → db ≡ db'
unfolding steps require_operational_tablet
reads_operational now t db u db' h = ground arith

reads_inactive :
    (t : Tablet) (db : Db) (u : Unit {0}) (db' : Db)
    → require_inactive_control_tablet t db ≡ ok (u, db')
    → db ≡ db'
unfolding steps require_inactive_control_tablet
reads_inactive t db u db' h = ground arith

telemetry_row :
    (now : ℕ) (i : AppInstallation) (v : Option AppVersion) (b : Option ℕ) (s : Bool)
    → KeptRow i (update_app_telemetry now i v b s).0
unfolding update_app_telemetry
telemetry_row now i none b s = ground arith
telemetry_row now i (some v) b s = ground arith

pub mark_stale-Keeps : (now : ℕ) (i : AppInstallation) → Keeps i.id (mark_stale now i)
unfolding mark_stale
mark_stale-Keeps now i =
    Keeps-bind (Keeps-save _ (λ r c. ground arith)) λ _. Keeps-record_event _ _ _

save_telemetry_if-Keeps :
    (b : Bool) (pk : ℕ) (i : AppInstallation) → Keeps pk (save_telemetry_if b pk i)
unfolding save_telemetry_if
save_telemetry_if-Keeps true pk i = Keeps-save _ (λ r c. ground arith)
save_telemetry_if-Keeps false pk i = Keeps-pure tt

recover-Keeps :
    {pk : ℕ} (now : ℕ) (i : AppInstallation) (t : Tablet) (d : Department)
    → i.id ≡ pk
    → Keeps pk (recover_stale_installation now i t d)
unfolding recover_stale_installation
recover-Keeps now i t d e = Keeps-bind (Keeps-gets _) λ current.
    Keeps-bind (Keeps-raise_if _ _) λ _. Keeps-bind (Keeps-read _ (reads_active now t)) λ _.
      Keeps-bind (rw e (Keeps-save _ (λ r c. ground arith)))
        λ _. Keeps-bind (Keeps-record_event _ _ _) λ _. Keeps-pure _

check_in_inactive-Keeps :
    (now : ℕ) (i : AppInstallation) (tab : Tablet) (t : Telemetry)
    → Keeps i.id (check_in_inactive now i tab t)
unfolding check_in_inactive
check_in_inactive-Keeps now i tab t = Keeps-bind (Keeps-read _ (reads_inactive tab)) λ _.
    Keeps-bind (Keeps-save _ (λ r c. ground arith))
      λ _. Keeps-bind (save_telemetry_if-Keeps _ i.id _) λ _. Keeps-pure _

confirm-Keeps :
    {pk : ℕ} (now : ℕ) (i : AppInstallation) (t : Tablet) (d : Department)
    → i.id ≡ pk
    → Keeps pk (confirm_installation now i t d)
unfolding confirm_installation
confirm-Keeps now i t d e =
    Keeps-if _ _ _ (recover-Keeps now i t d e)
      (Keeps-bind (Keeps-read _ (reads_active now t)) λ _. Keeps-pure _)

check_in_operational-Keeps :
    (now : ℕ) (i : AppInstallation) (tab : Tablet) (d : Department) (t : Telemetry)
    → Keeps i.id (check_in_operational now i tab d t)
unfolding check_in_operational
check_in_operational-Keeps now i tab d t =
    Keeps-if _ _ _ (Keeps-bind (save_telemetry_if-Keeps _ i.id _) λ _. Keeps-pure _) (
      Keeps-bind
        (confirm-Keeps now (update_app_telemetry now i t.app_version t.app_build t.build_supplied).0
          tab d row.id)
        λ a.
          Keeps-bind (Keeps-save _ (λ r c. ground arith))
            λ _. Keeps-bind (save_telemetry_if-Keeps _ i.id _) λ _. Keeps-pure _)
  where
    row : KeptRow i (update_app_telemetry now i t.app_version t.app_build t.build_supplied).0
    row = telemetry_row now i t.app_version t.app_build t.build_supplied

refresh-Keeps :
    (now : ℕ) (i : AppInstallation) (lease : ℕ) (t : Telemetry) → Keeps i.id (top_up now i lease t)
unfolding top_up
refresh-Keeps now i lease t =
    Keeps-if _ _ _ (Keeps-bind (save_telemetry_if-Keeps _ i.id _) λ _. Keeps-pure _) (
      Keeps-bind (Keeps-save _ (λ r c. ground arith)) λ _.
        Keeps-bind (save_telemetry_if-Keeps _ i.id _)
          λ _. Keeps-bind (Keeps-record_event _ _ _) λ _. Keeps-pure _)

-- From where a service has found an installation in service, on unique keys.
found-Kept :
    {A : Type 0} (pk : ℕ) {m : Service A} (db : Db) {i : AppInstallation} {a : A} {db' : Db}
    → Keeps i.id m
    → count (λ r. r.id == pk) db.installations ≤ 1
    → first (λ r. r.id == pk) db.installations ≡ some i
    → is_current i.status ≡ true
    → m db ≡ ok (a, db')
    → Kept db db'
found-Kept pk db {i} {a} {db'} k c f s h =
    k.apply db
      (CurrentAt-first i.id db.installations {r = i}
        (subst (λ k. count (λ r. r.id == k) db.installations ≤ 1) (sym e) c)
        (subst (λ k. first (λ r. r.id == k) db.installations ≡ some i) (sym e) f) s)
      a db' h
  where
    e : i.id ≡ pk
    e = eq_of_== i.id pk (first_sound (λ r. r.id == pk) db.installations f)

check_in_current-Keeps :
    (now : ℕ) (i : AppInstallation) (tab : Tablet) (d : Department) (t : Telemetry)
    → Keeps i.id (check_in_current now i tab d t)
unfolding check_in_current
check_in_current-Keeps now i tab d t = Keeps-if _ _ _ (check_in_inactive-Keeps now i tab t) (
    Keeps-if _ _ _
      (Keeps-bind (mark_stale-Keeps now i)
        λ _. check_in_operational-Keeps now (staled now i) tab d t)
      (check_in_operational-Keeps now i tab d t))

module _ (c : Crypto) (now pk credential : ℕ) (t : Telemetry) (db : Db) where
  -- What a check-in has established before it writes.
  pub check_in_accepted :
      {a : AppInstallation} {db' : Db}
      → check_in c now pk credential t db ≡ ok (a, db')
      → (i : AppInstallation) × (tab : Tablet) × (d : Department) × (first
            (λ r. r.id == pk)
            db.installations
          ≡ some i)
        × (first (λ r. r.id == i.tablet_id) db.tablets ≡ some tab)
        × (first (λ r. r.id == tab.department_id) db.departments ≡ some d)
        × (i.credential_hash ≡ c.secret_digest credential)
        × (is_current i.status ≡ true)
        × (check_in_current now i tab d t db ≡ ok (a, db'))
  unfolding check_in
  check_in_accepted h =
      let (i, ei, h1) = get_installation-bind db pk _ h in
      let (tab, et, h2) = get_tablet-bind db i.tablet_id _ h1 in
      let (d, ed, h3) = get_department-bind db tab.department_id _ h2 in
      let (known, h4) = raise_if-bind db _ _ _ h3 in
      let (current, h5) = raise_if-bind db _ _ _ h4 in
      (i, tab, d, ei, et, ed, ground arith, ground arith, h5)

  pub refresh_accepted :
      {a : AppInstallation} {db' : Db}
      → refresh_installation_lease c now pk credential t db ≡ ok (a, db')
      → (i : AppInstallation) × (tab : Tablet) × (d : Department) × (first
            (λ r. r.id == pk)
            db.installations
          ≡ some i)
        × (first (λ r. r.id == i.tablet_id) db.tablets ≡ some tab)
        × (first (λ r. r.id == tab.department_id) db.departments ≡ some d)
        × (i.credential_hash ≡ c.secret_digest credential)
        × (i.status ≡ InstallationStatus.active)
        × (now < i.authorization_valid_until)
        × (tab.status ≡ TabletStatus.active)
        × (top_up now i (max i.authorization_valid_until (lease_target d now)) t db ≡ ok (a, db'))
  unfolding refresh_installation_lease eligible_for_lease_renewal
  refresh_accepted {a} {db'} h =
      let (i, ei, h1) = get_installation-bind db pk _ h in
      let (tab, et, h2) = get_tablet-bind db i.tablet_id _ h1 in
      let (d, ed, h3) = get_department-bind db tab.department_id _ h2 in
      let (known, h4) = raise_if-bind db _ _ _ h3 in
      let (current, h5) = raise_if-bind db _ _ _ h4 in
      let (u, db1, read, h6) = >>=-eq-ok (require_operational_tablet now tab) _ db h5 in
      let (eligible, h7) = raise_if-bind db1 _ _ _ h6 in
      (
        i,
        tab,
        d,
        ei,
        et,
        ed,
        ground arith,
        ground arith,
        ground arith,
        ground arith,
        subst
            (λ s.
              top_up now i (max i.authorization_valid_until (lease_target d now)) t s ≡ ok (a, db'))
            (sym (reads_operational now tab db u db1 read)) h7,
      )

  module _ (unique : count (λ r. r.id == pk) db.installations ≤ 1) where
    pub check_in-Kept :
        {a : AppInstallation} {db' : Db}
        → check_in c now pk credential t db ≡ ok (a, db')
        → Kept db db'
    check_in-Kept h =
        let (i, tab, d, f, _, _, _, s, k) = check_in_accepted h in
        found-Kept pk db (check_in_current-Keeps now i tab d t) unique f s k

    pub refresh-Kept :
        {a : AppInstallation} {db' : Db}
        → refresh_installation_lease c now pk credential t db ≡ ok (a, db')
        → Kept db db'
    refresh-Kept h =
        let (i, tab, d, f, _, _, _, s, _, _, k) = refresh_accepted h in
        found-Kept pk db
          (refresh-Keeps now i (max i.authorization_valid_until (lease_target d now)) t) unique f
          (ap is_current s) k
