-- ===== src/Tablets/Lifecycle.antt =====
-- The life cycle of the physical asset, and the withdrawal of installations
-- (apps/tablets/services.py).
pub mod Effects
pub mod Frames
pub mod Grants
pub mod Withdrawal
pub mod Authority
use fire_dash_server.Prelude.{
  ℕ, ◌==◌, ltb, Bool, true, false, not, ◌&&◌, ◌||◌, none, some, is_none, is_some, List, [], ◌∷◌,
  ◌>>=◌, ◌>>◌, pure, raise_if, gets, modify, first, any, update, select, take,
}
use fire_dash_server.Tablets.Models.{
  Text, Tablet, TabletStatus, AppInstallation, InstallationStatus, AdoptionInvitation,
  ManifestStatus, User, department_mutation, is_active_department, is_current, tablet_activated,
  tablet_deactivated, tablet_lost, tablet_recovered, tablet_retired, installation_revoked,
}
use fire_dash_server.Tablets.Store.{
  Db, Service, tablet_error, invalid_request, get_tablet, get_department, get_installation,
  save_tablet, save_installation, record_event,
}
use fire_dash_server.Tablets.Access.{require_department_admin, revoke_temporary_access}
use fire_dash_server.Tablets.Guards.{has_current_operational_assignment, revoke_dataset_key_grants}

-- `ASSET_TRANSITIONS`: is the second status one that the first may become?
unfoldable pub asset_transition : TabletStatus → TabletStatus → Bool
asset_transition TabletStatus.inactive TabletStatus.active = true
asset_transition TabletStatus.inactive TabletStatus.lost = true
asset_transition TabletStatus.inactive TabletStatus.retired = true
asset_transition TabletStatus.active TabletStatus.inactive = true
asset_transition TabletStatus.active TabletStatus.lost = true
asset_transition TabletStatus.active TabletStatus.retired = true
asset_transition TabletStatus.lost TabletStatus.inactive = true
asset_transition _ _ = false

unfoldable pub require_asset_transition : Tablet → TabletStatus → Service (Unit {0})
unfolding asset_transition
require_asset_transition tablet new_status =
    raise_if (not (asset_transition tablet.status new_status)) (tablet_error invalid_request)

abbrev pub is_current_of : ℕ → AppInstallation → Bool
is_current_of tablet_id i = i.tablet_id == tablet_id && is_current i.status

abbrev pub is_revoked_of : ℕ → AppInstallation → Bool
is_revoked_of tablet_id i =
    i.tablet_id == tablet_id && elim i.status [ InstallationStatus.revoked ↦ true | _ ↦ false ]

-- `for installation in …: revoke_dataset_key_grants(installation=installation)`
unfoldable pub revoke_grants_of_all : ℕ → List AppInstallation → Db → Db
revoke_grants_of_all now [] db = db
revoke_grants_of_all now (i ∷ is) db =
    revoke_grants_of_all now is (revoke_dataset_key_grants now i.id db)

abbrev pub has_tablet_invitation : ℕ → ℕ → List AdoptionInvitation → Bool
has_tablet_invitation tablet_id invitation_id invitations =
    any (λ v. v.id == invitation_id && v.tablet_id == tablet_id) invitations

-- `_revoke_tablet_installations`: the installations, the replays of completed adoptions, the key
-- grants and the unused invitations of one tablet.
unfoldable pub revoke_tablet_installations : ℕ → ℕ → Text → Db → Db
unfolding revoke_grants_of_all
revoke_tablet_installations now tablet_id reason db =
    let revoked : Db = record db {
      installations =
          update (is_current_of tablet_id)
            (λ i. record i {
              status = InstallationStatus.revoked;
              revoked_at = some now;
              revocation_reason = take 512 reason;
            })
            db.installations;
      requests =
          update
            (λ r.
              has_tablet_invitation tablet_id r.invitation_id db.invitations
              && is_some r.completed_at
              && elim r.completion_replay_valid_until [ none ↦ false | some t ↦ ltb now t ]
              && is_none r.completion_replay_invalidated_at)
            (λ r. record r { completion_replay_invalidated_at = some now }) db.requests;
    } in
    let cut : Db =
      revoke_grants_of_all now (select (is_revoked_of tablet_id) revoked.installations) revoked in
    record cut {
      invitations =
          update (λ v. v.tablet_id == tablet_id && is_none v.used_at && is_none v.revoked_at)
            (λ v. record v { revoked_at = some now }) cut.invitations;
    }

unfoldable pub activate_tablet : ℕ → User → ℕ → Service Tablet
unfolding require_department_admin require_asset_transition revoke_temporary_access
activate_tablet now actor tablet_id = do
  tablet ← get_tablet tablet_id
  department ← get_department tablet.department_id
  require_department_admin actor department
  require_asset_transition tablet TabletStatus.active
  raise_if (not (is_active_department department.status) || not tablet.is_active)
      (tablet_error invalid_request)
  installation ← gets λ db. first (is_current_of tablet.id) db.installations
  raise_if (is_none installation) (tablet_error invalid_request)
  assigned ← gets (has_current_operational_assignment now tablet)
  raise_if (not assigned) (tablet_error invalid_request)
  save_tablet tablet.id (λ t. record t { status = TabletStatus.active; is_active = true })
  record_event tablet_activated (some actor.id) tablet.id
  revoke_temporary_access now actor department_mutation
  pure (record tablet { status = TabletStatus.active; is_active = true })

-- The body of the loop of `deactivate_tablet`, for each current installation.
unfoldable pub withdraw_access : ℕ → List AppInstallation → Db → Db
withdraw_access now [] db = db
withdraw_access now (i ∷ is) db =
    let cut : Db = revoke_dataset_key_grants now i.id db in
    withdraw_access now is (record cut {
      manifests =
          update (λ m. m.app_installation_id == i.id)
            (λ m. record m { status = ManifestStatus.obsolete; completed_at = some now })
            cut.manifests;
    })

unfoldable pub deactivate_tablet : ℕ → User → ℕ → Service Tablet
unfolding require_department_admin require_asset_transition revoke_temporary_access withdraw_access
deactivate_tablet now actor tablet_id = do
  tablet ← get_tablet tablet_id
  department ← get_department tablet.department_id
  require_department_admin actor department
  require_asset_transition tablet TabletStatus.inactive
  installations ← gets λ db. select (is_current_of tablet.id) db.installations
  modify (withdraw_access now installations)
  save_tablet tablet.id (λ t. record t { status = TabletStatus.inactive; is_active = true })
  record_event tablet_deactivated (some actor.id) tablet.id
  revoke_temporary_access now actor department_mutation
  pure (record tablet { status = TabletStatus.inactive; is_active = true })

unfoldable pub mark_tablet_lost : ℕ → User → ℕ → Text → Service Tablet
unfolding require_department_admin require_asset_transition revoke_temporary_access
mark_tablet_lost now actor tablet_id reason = do
  tablet ← get_tablet tablet_id
  department ← get_department tablet.department_id
  require_department_admin actor department
  require_asset_transition tablet TabletStatus.lost
  modify (revoke_tablet_installations now tablet.id reason)
  save_tablet tablet.id (λ t. record t { status = TabletStatus.lost; is_active = false })
  record_event tablet_lost (some actor.id) tablet.id
  revoke_temporary_access now actor department_mutation
  pure (record tablet { status = TabletStatus.lost; is_active = false })

unfoldable pub recover_tablet : ℕ → User → ℕ → Service Tablet
unfolding require_department_admin require_asset_transition revoke_temporary_access
recover_tablet now actor tablet_id = do
  tablet ← get_tablet tablet_id
  department ← get_department tablet.department_id
  require_department_admin actor department
  require_asset_transition tablet TabletStatus.inactive
  save_tablet tablet.id (λ t. record t { status = TabletStatus.inactive; is_active = true })
  record_event tablet_recovered (some actor.id) tablet.id
  revoke_temporary_access now actor department_mutation
  pure (record tablet { status = TabletStatus.inactive; is_active = true })

unfoldable pub retire_tablet : ℕ → User → ℕ → Text → Service Tablet
unfolding require_department_admin require_asset_transition revoke_temporary_access
retire_tablet now actor tablet_id reason = do
  tablet ← get_tablet tablet_id
  department ← get_department tablet.department_id
  require_department_admin actor department
  require_asset_transition tablet TabletStatus.retired
  modify (revoke_tablet_installations now tablet.id reason)
  save_tablet tablet.id (λ t. record t { status = TabletStatus.retired; is_active = false })
  record_event tablet_retired (some actor.id) tablet.id
  revoke_temporary_access now actor department_mutation
  pure (record tablet { status = TabletStatus.retired; is_active = false })

unfoldable pub revoke_installation : ℕ → User → ℕ → Text → Service AppInstallation
unfolding require_department_admin revoke_temporary_access
revoke_installation now actor installation_id reason = do
  installation ← get_installation installation_id
  tablet ← get_tablet installation.tablet_id
  department ← get_department tablet.department_id
  require_department_admin actor department
  raise_if (not (is_current installation.status)) (tablet_error invalid_request)
  save_installation installation.id (λ i. record i {
    status = InstallationStatus.revoked;
    revoked_at = some now;
    revocation_reason = take 512 reason;
  })
  modify (revoke_dataset_key_grants now installation.id)
  record_event installation_revoked (some actor.id) installation.id
  revoke_temporary_access now actor department_mutation
  pure (record installation {
    status = InstallationStatus.revoked;
    revoked_at = some now;
    revocation_reason = take 512 reason;
  })
