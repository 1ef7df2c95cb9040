-- ===== src/Tablets/Lifecycle/Frames.antt =====
-- What the withdrawal of a tablet's installations leaves alone, and what it cuts.
use fire_dash_server.Prelude.{
  ℕ, ◌≡◌, refl, ap, List, [], ◌∷◌, select, update, ◌==◌, ◌&&◌, some, is_none, take, arith,
}
use fire_dash_server.Tablets.Models.{
  AppInstallation, AdoptionInvitation, Text, ManifestStatus, InstallationStatus,
}
use fire_dash_server.Tablets.Store.{Db}
use fire_dash_server.Tablets.Guards.{revoke_dataset_key_grants}
use fire_dash_server.Tablets.Lifecycle.{
  is_current_of, is_revoked_of, revoke_grants_of_all, withdraw_access, revoke_tablet_installations,
}

-- Nothing but key grants and manifests changes.
abbrev pub GrantFrame : Db → Db → Type 0
GrantFrame db db' = db' ≡ record db {
  dataset_grants = db'.dataset_grants;
  document_grants = db'.document_grants;
  manifests = db'.manifests;
}

abbrev pub revoked_row : ℕ → Text → AppInstallation → AppInstallation
revoked_row now reason i = record i {
  status = InstallationStatus.revoked;
  revoked_at = some now;
  revocation_reason = take 512 reason;
}

-- The installations after the withdrawal of those that a tablet now has.
abbrev pub withdrawn_rows : ℕ → ℕ → Text → List AppInstallation → List AppInstallation
withdrawn_rows now tablet_id reason = update (is_current_of tablet_id) (revoked_row now reason)

abbrev pub revoked_invitations : ℕ → ℕ → List AdoptionInvitation → List AdoptionInvitation
revoked_invitations now tablet_id =
    update (λ v. v.tablet_id == tablet_id && is_none v.used_at && is_none v.revoked_at)
      (λ v. record v { revoked_at = some now })

pub revoke_grants_of_all_frame :
    (now : ℕ) (is : List AppInstallation) (db : Db) → GrantFrame db (revoke_grants_of_all now is db)
unfolding revoke_grants_of_all revoke_dataset_key_grants
revoke_grants_of_all_frame now [] db = refl
revoke_grants_of_all_frame now (i ∷ is) db =
    let h = revoke_grants_of_all_frame now is (revoke_dataset_key_grants now i.id db) in
    ground arith

pub withdraw_access_frame :
    (now : ℕ) (is : List AppInstallation) (db : Db) → GrantFrame db (withdraw_access now is db)
unfolding withdraw_access revoke_dataset_key_grants
withdraw_access_frame now [] db = refl
withdraw_access_frame now (i ∷ is) db =
    let cut : Db = revoke_dataset_key_grants now i.id db in
    let h = withdraw_access_frame now is (record cut {
      manifests =
          update (λ m. m.app_installation_id == i.id)
            (λ m. record m { status = ManifestStatus.obsolete; completed_at = some now })
            cut.manifests;
    }) in
    ground arith

-- The state after `_revoke_tablet_installations`, whose grants are cut last.
pub revoke_tablet_installations_frame :
    (now tablet_id : ℕ) (reason : Text) (db : Db)
    → ((revoke_tablet_installations now tablet_id reason db).tablets ≡ db.tablets)
      × ((revoke_tablet_installations now tablet_id reason db).installations
          ≡ withdrawn_rows now tablet_id reason db.installations)
      × ((revoke_tablet_installations now tablet_id reason db).invitations
          ≡ revoked_invitations now tablet_id db.invitations)
unfolding revoke_tablet_installations
revoke_tablet_installations_frame now tablet_id reason db =
    let h =
      revoke_grants_of_all_frame now
        (select (is_revoked_of tablet_id) (withdrawn_rows now tablet_id reason db.installations))
        _ in
    (
      ap (λ d. d.tablets) h,
      ap (λ d. d.installations) h,
      ap (λ d. revoked_invitations now tablet_id d.invitations) h,
    )
