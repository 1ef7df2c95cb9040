-- ===== src/Tablets/CheckIn.antt =====
-- Check-in, the explicit refresh of a lease, and the sweep that marks installations stale
-- (apps/tablets/services.py).
pub mod Kept
pub mod Sweep
pub mod Lease
pub mod Refresh
pub mod Overdue
use fire_dash_server.Prelude.{
  ℕ, ◌==◌, leb, Bool, true, not, ◌&&◌, ◌||◌, Option, none, some, max, List, [], ◌∷◌, length,
  if◌then◌else◌, ◌>>=◌, ◌>>◌, pure, raise_if, gets, any, select,
}
use fire_dash_server.Tablets.Models.{
  AppVersion, Department, Tablet, AppInstallation, InstallationStatus, is_current,
  stale_auto_recovered, became_stale, self_refreshed,
}
use fire_dash_server.Tablets.Store.{
  Db, Service, tablet_error, installation_inactive, permission_denied, get_tablet, get_department,
  get_installation, save_installation, record_event,
}
use fire_dash_server.Tablets.Guards.{
  is_active_installation, is_stale_installation, is_inactive_tablet, require_operational_tablet,
  require_active_operational_tablet, require_inactive_control_tablet, lease_target,
  eligible_for_lease_renewal, renew_lease_if_due, is_below_minimum, update_app_telemetry,
}
use fire_dash_server.Tablets.Lifecycle.{is_current_of}
use fire_dash_server.Tablets.Challenge.{Crypto}

-- The telemetry of a request.
pub record Telemetry : Type 0 where
  pub app_version : Option AppVersion
  pub app_build : Option ℕ
  pub build_supplied : Bool
  pub minimum_app_version : Option AppVersion

-- `save(update_fields=("app_version", "app_build", "app_version_seen_at"))` of the installation
-- with the key `pk`, if telemetry was updated.
unfoldable pub save_telemetry_if : Bool → ℕ → AppInstallation → Service (Unit {0})
unfolding save_installation pure
save_telemetry_if updated pk i =
    if updated
    then save_installation pk (λ row. record row {
      app_version = i.app_version;
      app_build = i.app_build;
      app_version_seen_at = i.app_version_seen_at;
    })
    else pure tt

abbrev pub staled : ℕ → AppInstallation → AppInstallation
staled now i = record i { status = InstallationStatus.stale; stale_at = some now }

-- `_mark_stale`; the caller's row becomes `staled now installation`.
unfoldable pub mark_stale : ℕ → AppInstallation → Service (Unit {0})
mark_stale now installation = do
  save_installation installation.id (staled now)
  record_event became_stale none installation.id

-- `_is_current_installation`: no other installation of the tablet is current.
unfoldable pub is_current_installation : AppInstallation → Db → Bool
is_current_installation installation db = not (
    any (λ i. is_current_of installation.tablet_id i && not (i.id == installation.id))
      db.installations)

unfoldable pub recover_stale_installation :
    ℕ → AppInstallation → Tablet → Department → Service AppInstallation
unfolding is_current_installation require_active_operational_tablet lease_target
recover_stale_installation now installation tablet department = do
  current ← gets (is_current_installation installation)
  raise_if (not (is_stale_installation installation.status) || not current)
      (tablet_error installation_inactive)
  require_active_operational_tablet now tablet
  let lease = lease_target department now
  save_installation installation.id (λ i. record i {
    status = InstallationStatus.active;
    authorization_valid_until = lease;
    last_successful_check_in_at = some now;
  })
  record_event stale_auto_recovered none installation.id
  pure (record installation {
    status = InstallationStatus.active;
    authorization_valid_until = lease;
    last_successful_check_in_at = some now;
  })

-- A heartbeat of a deactivated tablet: it renews nothing.
unfoldable pub check_in_inactive :
    ℕ → AppInstallation → Tablet → Telemetry → Service AppInstallation
unfolding require_inactive_control_tablet update_app_telemetry
check_in_inactive now installation tablet t = do
  require_inactive_control_tablet tablet
  let (seen, updated) =
      update_app_telemetry now installation t.app_version t.app_build t.build_supplied
  save_installation installation.id (λ i. record i { last_successful_check_in_at = some now })
  save_telemetry_if updated installation.id seen
  pure (record seen {
    last_successful_check_in_at = some now;
    compatibility_blocked =
        is_below_minimum seen.app_version t.minimum_app_version || seen.compatibility_blocked;
  })

-- The step after telemetry: recovery of a stale installation, or the check of an active one.
unfoldable pub confirm_installation :
    ℕ → AppInstallation → Tablet → Department → Service AppInstallation
unfolding recover_stale_installation require_active_operational_tablet
confirm_installation now installation tablet department =
    if is_stale_installation installation.status
    then recover_stale_installation now installation tablet department
    else (do
      require_active_operational_tablet now tablet
      pure (record installation { last_successful_check_in_at = some now }))

-- The rest of an operational check-in, after an ended lease has been marked.
unfoldable pub check_in_operational :
    ℕ → AppInstallation → Tablet → Department → Telemetry → Service AppInstallation
unfolding update_app_telemetry confirm_installation renew_lease_if_due
check_in_operational now installation tablet department t =
    let (seen, updated) =
      update_app_telemetry now installation t.app_version t.app_build t.build_supplied in
    if is_below_minimum seen.app_version t.minimum_app_version
    then (do
      save_telemetry_if updated installation.id seen
      pure (record seen { compatibility_blocked = true }))
    else (do
      confirmed ← confirm_installation now seen tablet department
      let (renewed, due) = renew_lease_if_due now confirmed tablet department
      save_installation installation.id (λ i. record i {
        last_successful_check_in_at = renewed.last_successful_check_in_at;
        authorization_valid_until =
            if due then renewed.authorization_valid_until else i.authorization_valid_until;
      })
      save_telemetry_if updated installation.id renewed
      pure renewed)

-- `check_in` from where the credential and the status have been accepted.
unfoldable pub check_in_current :
    ℕ → AppInstallation → Tablet → Department → Telemetry → Service AppInstallation
unfolding mark_stale check_in_inactive check_in_operational
check_in_current now installation tablet department t =
    if is_inactive_tablet tablet.status
    then check_in_inactive now installation tablet t
    else if is_active_installation installation.status
        && leb installation.authorization_valid_until now
    then (do
      mark_stale now installation
      check_in_operational now (staled now installation) tablet department t)
    else check_in_operational now installation tablet department t

-- The writes of a refresh, to a lease that ends at `lease`.
unfoldable pub top_up : ℕ → AppInstallation → ℕ → Telemetry → Service AppInstallation
unfolding update_app_telemetry
top_up now installation lease t =
    let topped = record installation {
      authorization_valid_until = lease;
      last_successful_check_in_at = some now;
    } in
    let (seen, updated) =
      update_app_telemetry now topped t.app_version t.app_build t.build_supplied in
    if is_below_minimum seen.app_version t.minimum_app_version
    then (do
      save_telemetry_if updated installation.id seen
      pure (record seen { compatibility_blocked = true }))
    else (do
      save_installation installation.id (λ i. record i {
        authorization_valid_until = lease;
        last_successful_check_in_at = some now;
      })
      save_telemetry_if updated installation.id seen
      record_event self_refreshed none installation.id
      pure seen)

module _ (c : Crypto) where
  unfoldable pub check_in : ℕ → ℕ → ℕ → Telemetry → Service AppInstallation
  unfolding check_in_current
  check_in now installation_id credential t = do
    installation ← get_installation installation_id
    tablet ← get_tablet installation.tablet_id
    department ← get_department tablet.department_id
    raise_if (not (installation.credential_hash == c.secret_digest credential)) permission_denied
    raise_if (not (is_current installation.status)) (tablet_error installation_inactive)
    check_in_current now installation tablet department t

  unfoldable pub refresh_installation_lease : ℕ → ℕ → ℕ → Telemetry → Service AppInstallation
  unfolding require_operational_tablet eligible_for_lease_renewal lease_target top_up
  refresh_installation_lease now installation_id credential t = do
    installation ← get_installation installation_id
    tablet ← get_tablet installation.tablet_id
    department ← get_department tablet.department_id
    raise_if (not (installation.credential_hash == c.secret_digest credential)) permission_denied
    raise_if
        (not (is_active_installation installation.status)
          || leb installation.authorization_valid_until now)
        (tablet_error installation_inactive)
    require_operational_tablet now tablet
    raise_if (not (eligible_for_lease_renewal now installation tablet department))
        (tablet_error installation_inactive)
    let lease = max installation.authorization_valid_until (lease_target department now)
    top_up now installation lease t

-- The loop of `mark_stale_installations`.
unfoldable pub mark_all_stale : ℕ → List AppInstallation → Service (Unit {0})
unfolding mark_stale
mark_all_stale now [] = pure tt
mark_all_stale now (i ∷ is) = do mark_stale now i; mark_all_stale now is

unfoldable pub mark_stale_installations : ℕ → Service ℕ
unfolding mark_all_stale
mark_stale_installations now = do
  ended ← gets λ db.
      select (λ i. is_active_installation i.status && leb i.authorization_valid_until now)
        db.installations
  mark_all_stale now ended
  pure (length ended)
