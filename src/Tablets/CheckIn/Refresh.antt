-- ===== src/Tablets/CheckIn/Refresh.antt =====
-- What `refresh_installation_lease` stores (apps/tablets/services.py).
use fire_dash_server.Prelude.{
  ℕ, ◌+◌, refl, ap, false, get_or, eq_of_==, update, List, row-update_forth, Bool-cases, ◌>>=◌,
  pure, subst, ◌<◌, ◌≡◌, sym, ◌∙◌, inl, inr, Bool, true, max, arith, ◌==◌, first, some, none,
  Option, ok, if◌then◌else◌,
}
use fire_dash_server.Tablets.Models.{
  Tablet, Department, AppInstallation, InstallationStatus, TabletStatus, AppVersion, self_refreshed,
}
use fire_dash_server.Tablets.Store.{Db, steps, days, save_installation, record_event}
use fire_dash_server.Tablets.Guards.{
  is_below_minimum, lease_target, update_app_telemetry, version_eq,
}
use fire_dash_server.Tablets.Reads.{if-ok}
use fire_dash_server.Prelude.TableLaws.{first_sound}
use fire_dash_server.Tablets.Challenge.{Crypto}
use fire_dash_server.Tablets.CheckIn.{
  Telemetry, top_up, refresh_installation_lease, save_telemetry_if,
}
use fire_dash_server.Tablets.CheckIn.Kept.{refresh_accepted}
use fire_dash_server.Tablets.CheckIn.Lease.{telemetry_lease}

-- The row of an installation after a refresh: the lease is stored, unless the client is too old.
pub record Refreshed (now : ℕ) (i : AppInstallation) (d : Department) (t : Telemetry)
    (a : AppInstallation) (db' : Db) : Type 0 where
  pub stored : AppInstallation
  pub found : first (λ r. r.id == i.id) db'.installations ≡ some stored
  pub supported :
      is_below_minimum (get_or t.app_version i.app_version) t.minimum_app_version ≡ false
      → (stored.authorization_valid_until
          ≡ max i.authorization_valid_until (now + days d.tablet_lease_days))
        × (a.authorization_valid_until ≡ stored.authorization_valid_until)
        × (stored.last_successful_check_in_at ≡ some now)
  pub unsupported :
      is_below_minimum (get_or t.app_version i.app_version) t.minimum_app_version ≡ true
      → (stored.authorization_valid_until ≡ i.authorization_valid_until)
        × (stored.last_successful_check_in_at ≡ i.last_successful_check_in_at)
        × (a.compatibility_blocked ≡ true)

version_eq-eq : (v w : AppVersion) → version_eq v w ≡ true → w ≡ v
version_eq-eq v w h =
    let major : w.major ≡ v.major = sym (eq_of_== v.major w.major (ground arith)) in
    let minor : w.minor ≡ v.minor = sym (eq_of_== v.minor w.minor (ground arith)) in
    let patch : w.patch ≡ v.patch = sym (eq_of_== v.patch w.patch (ground arith)) in ground arith

-- The version that a client is taken to have: the one that it sends, or the one that is known.
seen_version :
    (now : ℕ) (i : AppInstallation) (v : Option AppVersion) (build : Option ℕ) (supplied : Bool)
    → (update_app_telemetry now i v build supplied).0.app_version ≡ get_or v i.app_version
unfolding update_app_telemetry
seen_version now i none build supplied = refl
seen_version now i (some v) build supplied = elim (Bool-cases (version_eq v i.app_version)) [
  | inl e ↦ let same = version_eq-eq v i.app_version e in ground arith
  | inr e ↦ ground arith
]

-- A row that is written by its key is found as it was written.
saved_row :
    (pk : ℕ) (f : AppInstallation → AppInstallation)
    → ((x : AppInstallation) → (f x).id ≡ x.id)
    → (xs : List AppInstallation) {r : AppInstallation} → first (λ x. x.id == pk) xs ≡ some r
    → first (λ x. x.id == pk) (update (λ x. x.id == pk) f xs) ≡ some (f r)
saved_row pk f keep xs {r} e =
    let found : (r.id == pk) ≡ true = first_sound (λ x. x.id == pk) xs e in
    row-update_forth (λ (x : AppInstallation). x.id) (λ x. x.id == pk) f keep pk xs e ∙ rw found

abbrev with_telemetry : AppInstallation → AppInstallation → AppInstallation
with_telemetry seen x = record x {
  app_version = seen.app_version;
  app_build = seen.app_build;
  app_version_seen_at = seen.app_version_seen_at;
}

-- The rows after `save_telemetry_if`.
abbrev telemetry_rows : ℕ → Bool → AppInstallation → List AppInstallation → List AppInstallation
telemetry_rows pk updated seen xs =
    if updated then update (λ x. x.id == pk) (with_telemetry seen) xs else xs

-- Telemetry that is saved leaves the stored lease as it is.
telemetry_row :
    (pk : ℕ) (updated : Bool) (seen : AppInstallation) (xs : List AppInstallation)
    {r : AppInstallation}
    → first (λ x. x.id == pk) xs ≡ some r
    → (s : AppInstallation) × (first (λ x. x.id == pk) (telemetry_rows pk updated seen xs) ≡ some s)
      × (s.authorization_valid_until ≡ r.authorization_valid_until)
      × (s.last_successful_check_in_at ≡ r.last_successful_check_in_at)
telemetry_row pk true seen xs e =
    (_, saved_row pk (with_telemetry seen) (λ x. refl) xs e, refl, refl)
telemetry_row pk false seen xs e = (_, e, refl, refl)

-- A client that is too old: only its telemetry is saved.
blocked_rows :
    (pk : ℕ) (updated : Bool) (seen : AppInstallation) (db : Db) {a : AppInstallation} {db' : Db}
    → (save_telemetry_if updated pk seen >>= λ _.
          pure (record seen { compatibility_blocked = true }))
        db
      ≡ ok (a, db')
    → (db'.installations ≡ telemetry_rows pk updated seen db.installations)
      × (a.compatibility_blocked ≡ true)
unfolding steps save_telemetry_if
blocked_rows pk true seen db k = (ground arith, ground arith)
blocked_rows pk false seen db k = (ground arith, ground arith)

abbrev with_lease : ℕ → ℕ → AppInstallation → AppInstallation
with_lease now lease x = record x {
  authorization_valid_until = lease;
  last_successful_check_in_at = some now;
}

-- Any other client: the lease is stored.
topped_rows :
    (now pk lease : ℕ) (updated : Bool) (seen : AppInstallation) (db : Db) {a : AppInstallation}
    {db' : Db}
    → (save_installation pk (with_lease now lease) >>= λ _.
          save_telemetry_if updated pk seen >>= λ _.
          record_event self_refreshed none pk >>= λ _. pure seen)
        db
      ≡ ok (a, db')
    → (db'.installations
        ≡ telemetry_rows pk updated seen
            (update (λ x. x.id == pk) (with_lease now lease) db.installations))
      × (a ≡ seen)
unfolding steps save_telemetry_if
topped_rows now pk lease true seen db k = (ground arith, ground arith)
topped_rows now pk lease false seen db k = (ground arith, ground arith)

top_up-Refreshed :
    (now : ℕ) (i : AppInstallation) (d : Department) (t : Telemetry) (db : Db) {a : AppInstallation}
    {db' : Db}
    → first (λ r. r.id == i.id) db.installations ≡ some i
    → top_up now i (max i.authorization_valid_until (now + days d.tablet_lease_days)) t db
      ≡ ok (a, db')
    → Refreshed now i d t a db'
unfolding top_up
top_up-Refreshed now i d t db {a} {db'} found h =
    let lease = max i.authorization_valid_until (now + days d.tablet_lease_days) in
    let topped : AppInstallation = record i {
      authorization_valid_until = lease;
      last_successful_check_in_at = some now;
    } in
    let version = seen_version now topped t.app_version t.app_build t.build_supplied in
    let kept = telemetry_lease now topped t in
    let seen = update_app_telemetry now topped t.app_version t.app_build t.build_supplied in
    elim (if-ok db (is_below_minimum seen.0.app_version t.minimum_app_version) _ _ h) [
      | inl (below, k) ↦
          let (rows, eb) = blocked_rows i.id seen.1 seen.0 db k in
          let (s, f, el, ec) = telemetry_row i.id seen.1 seen.0 db.installations found in
          record {
            stored = s;
            found = ap (first (λ x. x.id == i.id)) rows ∙ f;
            supported = λ no. absurd (ground arith);
            unsupported = λ _. (el, ec, eb);
          }
      | inr (fine, k) ↦
          let (rows, ea) = topped_rows now i.id lease seen.1 seen.0 db k in
          let (s, f, el, ec) =
            telemetry_row i.id seen.1 seen.0 _
              (saved_row i.id (with_lease now lease) (λ x. refl) db.installations found) in
          record {
            stored = s;
            found = ap (first (λ x. x.id == i.id)) rows ∙ f;
            supported = λ _. (el, ap (λ x. x.authorization_valid_until) ea ∙ kept ∙ sym el, ec);
            unsupported = λ no. absurd (ground arith);
          }
    ]

module _ (c : Crypto) (now pk credential : ℕ) (t : Telemetry) (db : Db) {a : AppInstallation}
    {db' : Db} where
  -- Where `refresh_installation_lease` returns, it has found an ACTIVE installation with this credential
  -- whose lease had not ended, on an ACTIVE tablet. If the client's version, the one that it sends or else
  -- the stored one, is below the minimum, the stored lease and time of the last check-in stay as they were
  -- and the returned row is marked as blocked. If not, the stored lease ends at the later of its old end
  -- and of as many days from now as the department gives, the returned one too, and the time is stored.
  pub refresh-Leased :
      refresh_installation_lease c now pk credential t db ≡ ok (a, db')
      → (i : AppInstallation) × (tab : Tablet) × (d : Department) × (first
            (λ r. r.id == pk)
            db.installations
          ≡ some i)
        × (first (λ r. r.id == i.tablet_id) db.tablets ≡ some tab)
        × (first (λ r. r.id == tab.department_id) db.departments ≡ some d)
        × (i.credential_hash ≡ c.secret_digest credential)
        × (i.status ≡ InstallationStatus.active)
        × (tab.status ≡ TabletStatus.active)
        × (now < i.authorization_valid_until)
        × Refreshed now i d t a db'
  unfolding lease_target
  refresh-Leased h =
      let (i, tab, d, fi, ft, fd, known, active, later, tablet, k) =
        refresh_accepted c now pk credential t db h in
      let own : i.id ≡ pk = eq_of_== i.id pk (first_sound (λ r. r.id == pk) db.installations fi) in
      let here = subst (λ n. first (λ r. r.id == n) db.installations ≡ some i) (sym own) fi in
      (i, tab, d, fi, ft, fd, known, active, tablet, later, top_up-Refreshed now i d t db here k)
