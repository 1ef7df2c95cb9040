-- ===== src/Tablets/Models.antt =====
-- The rows that the tablet services read and write: apps/tablets/models.py, and of
-- apps/organizations/models.py, apps/assignments/models.py, apps/authorization/models.py,
-- apps/publications/models.py and apps/file_library/models.py what these services touch.
-- Keys, digests, tokens, public keys and fingerprints are only compared: they are numbers.
-- A time is a number of microseconds; a text is the list of its code points.
use fire_dash_server.Prelude.{ℕ, Bool, true, false, Option, List}

abbrev pub Text : Type 0
Text = List ℕ

-- A version `MAJOR.MINOR.PATCH`, ordered field by field.
pub record AppVersion : Type 0 where
  pub major : ℕ
  pub minor : ℕ
  pub patch : ℕ

pub data DepartmentStatus : Type 0 where
  active suspended deactivated : DepartmentStatus

abbrev pub is_active_department : DepartmentStatus → Bool
is_active_department DepartmentStatus.active = true
is_active_department DepartmentStatus.suspended = false
is_active_department DepartmentStatus.deactivated = false

pub record Department : Type 0 where
  pub id : ℕ
  pub status : DepartmentStatus
  pub tablet_lease_days : ℕ
  pub tablet_asset_number_auto_enabled : Bool
  pub tablet_asset_number_prefix : Text
  pub tablet_asset_number_width : ℕ
  pub tablet_asset_number_sequence : ℕ

pub record Station : Type 0 where
  pub id : ℕ
  pub department_id : ℕ
  pub is_active : Bool

pub record Vehicle : Type 0 where
  pub id : ℕ
  pub department_id : ℕ
  pub station_id : ℕ
  pub is_active : Bool

pub data TabletStatus : Type 0 where
  inactive active lost retired : TabletStatus

pub record Tablet : Type 0 where
  pub id : ℕ
  pub department_id : ℕ
  pub asset_number : Text
  pub display_name : Text
  pub status : TabletStatus
  pub is_active : Bool  -- the field `active`
  pub created_by : Option ℕ

pub record TabletVehicleAssignment : Type 0 where
  pub id : ℕ
  pub tablet_id : ℕ
  pub vehicle_id : ℕ
  pub valid_from : ℕ
  pub valid_until : Option ℕ
  pub ended_at : Option ℕ

pub data InstallationStatus : Type 0 where
  active stale revoked replaced : InstallationStatus

-- `status__in=(ACTIVE, STALE)`: the installation that a tablet now has.
abbrev pub is_current : InstallationStatus → Bool
is_current InstallationStatus.active = true
is_current InstallationStatus.stale = true
is_current InstallationStatus.revoked = false
is_current InstallationStatus.replaced = false

pub record AppInstallation : Type 0 where
  pub id : ℕ
  pub tablet_id : ℕ
  pub installation_uuid : ℕ
  pub credential_hash : ℕ
  pub status : InstallationStatus
  pub app_version : AppVersion
  pub adopted_app_version : AppVersion
  pub app_build : Option ℕ
  pub app_version_seen_at : ℕ
  pub hpke_public_key : ℕ
  pub hpke_key_fingerprint : ℕ
  pub hpke_key_verified_at : ℕ
  pub adopted_at : ℕ
  pub adopted_by : Option ℕ
  pub last_successful_check_in_at : Option ℕ
  pub authorization_valid_until : ℕ
  pub stale_at : Option ℕ
  pub revoked_at : Option ℕ
  pub revocation_reason : Text
  pub compatibility_blocked : Bool  -- a marker of the result, never stored

pub record AdoptionInvitation : Type 0 where
  pub id : ℕ
  pub tablet_id : ℕ
  pub token_hash : ℕ
  pub expires_at : ℕ
  pub created_by : ℕ
  pub used_at : Option ℕ
  pub revoked_at : Option ℕ
  pub failed_attempt_count : ℕ

pub record AdoptionRequest : Type 0 where
  pub id : ℕ
  pub invitation_id : ℕ
  pub installation_uuid : ℕ
  pub app_version : AppVersion
  pub app_build : Option ℕ
  pub hpke_public_key : ℕ
  pub hpke_public_key_fingerprint : ℕ
  pub expected_hmac_digest : ℕ
  pub encrypted_challenge : ℕ
  pub expires_at : ℕ
  pub completed_at : Option ℕ
  pub completion_replay_valid_until : Option ℕ
  pub completion_replay_invalidated_at : Option ℕ
  pub failed_attempt_count : ℕ

pub data GrantStatus : Type 0 where
  pending running ready failed revoked : GrantStatus

-- A grant that has not been revoked.
abbrev pub is_live : GrantStatus → Bool
is_live GrantStatus.pending = true
is_live GrantStatus.running = true
is_live GrantStatus.ready = true
is_live GrantStatus.failed = true
is_live GrantStatus.revoked = false

-- A row of `DatasetKeyGrant` or of `DocumentGenerationKeyGrant`.
pub record KeyGrant : Type 0 where
  pub id : ℕ
  pub publication_id : ℕ
  pub app_installation_id : ℕ
  pub status : GrantStatus
  pub revoked_at : Option ℕ

pub data ManifestStatus : Type 0 where
  pending running ready failed obsolete : ManifestStatus

pub record SignedManifest : Type 0 where
  pub id : ℕ
  pub app_installation_id : ℕ
  pub status : ManifestStatus
  pub completed_at : Option ℕ

pub data MembershipStatus : Type 0 where
  active suspended revoked : MembershipStatus

abbrev pub is_active_membership : MembershipStatus → Bool
is_active_membership MembershipStatus.active = true
is_active_membership MembershipStatus.suspended = false
is_active_membership MembershipStatus.revoked = false

pub record DepartmentMembership : Type 0 where
  pub user_id : ℕ
  pub department_id : ℕ
  pub status : MembershipStatus

-- The account that calls a service, and `user.is_authenticated`, `user.is_active`.
pub record User : Type 0 where
  pub id : ℕ
  pub is_authenticated : Bool
  pub is_active : Bool

pub data AccessReason : Type 0 where
  released expired authority_revoked department_mutation : AccessReason

pub record TemporaryStationAccess : Type 0 where
  pub id : ℕ
  pub user_id : ℕ
  pub department_id : ℕ
  pub station_id : ℕ
  pub expires_at : ℕ
  pub revoked_at : Option ℕ
  pub revocation_reason : Option AccessReason

-- The audit actions of apps/publications.
pub data PublicationAction : Type 0 where
  scope_marked_dirty job_queued job_obsolete published build_failed rejected rebuild_requested
        update_staged build_now_requested staged_deleted build_cancelled rolled_back
        active_replaced_before_delete deleted bulk_rebuild_requested retention_obsoleted
        retention_snapshot_purged :
      PublicationAction

-- What an audit event is about, by its key.
pub data AuditAction : Type 0 where
  tablet_created stale_auto_recovered became_stale tablet_activated tablet_deactivated tablet_lost
        tablet_recovered tablet_retired installation_revoked invitation_created
        replacement_initiated proof_failed adopted completion_recovered self_refreshed :
      AuditAction
  temporary_access_revoked : AccessReason → AuditAction
  publication_event : PublicationAction → AuditAction

pub record AuditEvent : Type 0 where
  pub action : AuditAction
  pub actor : Option ℕ
  pub target_uuid : ℕ
