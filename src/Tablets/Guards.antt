-- ===== src/Tablets/Guards.antt =====
-- The operational guards of apps/tablets/services.py, its withdrawal of key grants
-- (`revoke_dataset_key_grants` of apps/publications/manifests.py), and the lease rules.
use fire_dash_server.Prelude.{
  ℕ, ◌+◌, ◌-◌, ◌==◌, leb, ltb, Bool, true, false, not, ◌&&◌, ◌||◌, Option, none, some, is_none,
  if◌then◌else◌, ◌>>=◌, ◌>>◌, raise_if, gets, any, update,
}
use fire_dash_server.Tablets.Models.{
  Department, Tablet, TabletStatus, AppInstallation, InstallationStatus, KeyGrant, GrantStatus,
  AppVersion, is_active_department, is_live,
}
use fire_dash_server.Tablets.Store.{
  Db, Service, tablet_error, installation_inactive, get_department, hours, days,
}

abbrev pub is_active_tablet : TabletStatus → Bool
is_active_tablet TabletStatus.inactive = false
is_active_tablet TabletStatus.active = true
is_active_tablet TabletStatus.lost = false
is_active_tablet TabletStatus.retired = false

abbrev pub is_inactive_tablet : TabletStatus → Bool
is_inactive_tablet TabletStatus.inactive = true
is_inactive_tablet TabletStatus.active = false
is_inactive_tablet TabletStatus.lost = false
is_inactive_tablet TabletStatus.retired = false

abbrev pub is_active_installation : InstallationStatus → Bool
is_active_installation InstallationStatus.active = true
is_active_installation InstallationStatus.stale = false
is_active_installation InstallationStatus.revoked = false
is_active_installation InstallationStatus.replaced = false

abbrev pub is_stale_installation : InstallationStatus → Bool
is_stale_installation InstallationStatus.active = false
is_stale_installation InstallationStatus.stale = true
is_stale_installation InstallationStatus.revoked = false
is_stale_installation InstallationStatus.replaced = false

-- `valid_until is None or valid_until > now`
abbrev pub is_open : ℕ → Option ℕ → Bool
is_open now none = true
is_open now (some t) = ltb now t

abbrev pub is_active_vehicle : ℕ → ℕ → Db → Bool
is_active_vehicle vehicle_id department_id db =
    any
      (λ v.
        v.id == vehicle_id
        && v.is_active
        && v.department_id == department_id
        && any (λ s. s.id == v.station_id && s.is_active) db.stations)
      db.vehicles

unfoldable pub has_current_operational_assignment : ℕ → Tablet → Db → Bool
has_current_operational_assignment now tablet db =
    any
      (λ a.
        a.tablet_id == tablet.id
        && leb a.valid_from now
        && is_none a.ended_at
        && is_open now a.valid_until
        && is_active_vehicle a.vehicle_id tablet.department_id db)
      db.assignments

-- A tablet that may be adopted: commissioned or not, but neither lost nor retired.
unfoldable pub require_operational_tablet : ℕ → Tablet → Service (Unit {0})
unfolding has_current_operational_assignment
require_operational_tablet now tablet = do
  department ← get_department tablet.department_id
  raise_if (not (is_active_department department.status) || not tablet.is_active)
      (tablet_error installation_inactive)
  raise_if (not (is_inactive_tablet tablet.status || is_active_tablet tablet.status))
      (tablet_error installation_inactive)
  assigned ← gets (has_current_operational_assignment now tablet)
  raise_if (not assigned) (tablet_error installation_inactive)

unfoldable pub require_active_operational_tablet : ℕ → Tablet → Service (Unit {0})
unfolding has_current_operational_assignment
require_active_operational_tablet now tablet = do
  department ← get_department tablet.department_id
  raise_if (not (is_active_department department.status) || not tablet.is_active)
      (tablet_error installation_inactive)
  raise_if (not (is_active_tablet tablet.status)) (tablet_error installation_inactive)
  assigned ← gets (has_current_operational_assignment now tablet)
  raise_if (not assigned) (tablet_error installation_inactive)

unfoldable pub require_inactive_control_tablet : Tablet → Service (Unit {0})
require_inactive_control_tablet tablet = do
  department ← get_department tablet.department_id
  raise_if (not (is_active_department department.status) || not tablet.is_active)
      (tablet_error installation_inactive)
  raise_if (not (is_inactive_tablet tablet.status)) (tablet_error installation_inactive)

abbrev revoke_grant : ℕ → KeyGrant → KeyGrant
revoke_grant now g = record g { status = GrantStatus.revoked; revoked_at = some now }

-- `revoke_dataset_key_grants`, without the count that no caller here reads.
unfoldable pub revoke_dataset_key_grants : ℕ → ℕ → Db → Db
revoke_dataset_key_grants now installation_id db = record db {
  document_grants =
      update (λ g. g.app_installation_id == installation_id && is_live g.status) (revoke_grant now)
        db.document_grants;
  dataset_grants =
      update (λ g. g.app_installation_id == installation_id && is_live g.status) (revoke_grant now)
        db.dataset_grants;
}

-- `lease_target`: the end of a lease that starts now.
unfoldable pub lease_target : Department → ℕ → ℕ
lease_target department now = now + days department.tablet_lease_days

abbrev pub auto_renew_threshold : ℕ
auto_renew_threshold = hours 48

unfoldable pub eligible_for_lease_renewal : ℕ → AppInstallation → Tablet → Department → Bool
eligible_for_lease_renewal now installation tablet department =
    is_active_installation installation.status
    && ltb now installation.authorization_valid_until
    && tablet.is_active
    && is_active_tablet tablet.status
    && is_active_department department.status

-- `_renew_lease_if_due`: the installation afterwards, and whether the lease was renewed. The
-- difference of times is taken only where the lease has not ended.
unfoldable pub renew_lease_if_due :
    ℕ → AppInstallation → Tablet → Department → AppInstallation × Bool
unfolding eligible_for_lease_renewal lease_target
renew_lease_if_due now installation tablet department =
    if not (eligible_for_lease_renewal now installation tablet department)
    then (installation, false)
    else if ltb auto_renew_threshold (installation.authorization_valid_until - now)
    then (installation, false)
    else (record installation { authorization_valid_until = lease_target department now }, true)

-- `a < b` of the ordered data class `AppVersion`.
unfoldable pub version_lt : AppVersion → AppVersion → Bool
version_lt a b =
    ltb a.major b.major
    || (a.major == b.major && (ltb a.minor b.minor || (a.minor == b.minor && ltb a.patch b.patch)))

abbrev pub version_eq : AppVersion → AppVersion → Bool
version_eq a b = a.major == b.major && a.minor == b.minor && a.patch == b.patch

-- `minimum_app_version is not None and parse_app_version(app_version) < minimum_app_version`
abbrev pub is_below_minimum : AppVersion → Option AppVersion → Bool
is_below_minimum v none = false
is_below_minimum v (some minimum) = version_lt v minimum

-- `update_app_telemetry`: the installation afterwards, and whether it changed.
unfoldable pub update_app_telemetry :
    ℕ → AppInstallation → Option AppVersion → Option ℕ → Bool → AppInstallation × Bool
update_app_telemetry now installation none app_build build_supplied = (installation, false)
update_app_telemetry now installation (some v) app_build build_supplied =
    if version_eq v installation.app_version
    then (
      record installation {
        app_version_seen_at = now;
        app_build = if build_supplied then app_build else installation.app_build;
      },
      true,
    )
    else (
      record installation {
        app_version = v;
        app_build = if build_supplied then app_build else none;
        app_version_seen_at = now;
      },
      true,
    )
