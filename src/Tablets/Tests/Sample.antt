-- ===== src/Tablets/Tests/Sample.antt =====
-- The services on a small department: one admin, one vehicle, tablet 10 in use and tablet 11 retired.
use fire_dash_server.Prelude.{ℕ, ◌+◌, true, false, List, [], ◌∷◌, none, some, Bool}
use fire_dash_server.Tablets.Models.{
  Department, DepartmentStatus, Tablet, TabletStatus, AppInstallation, InstallationStatus,
  AppVersion, AdoptionInvitation, AdoptionRequest, KeyGrant, GrantStatus, ManifestStatus,
  MembershipStatus, User, AuditAction, tablet_lost, tablet_retired, tablet_recovered,
  tablet_deactivated, tablet_created,
}
use fire_dash_server.Tablets.Store.{Db, days}
use fire_dash_server.Tablets.Challenge.{Crypto}
use fire_dash_server.Tablets.CheckIn.{Telemetry}

abbrev pub admin : User
admin = record { id = 1; is_authenticated = true; is_active = true }

-- Digests that are the values themselves.
abbrev pub plain : Crypto
plain = record {
  secret_digest = λ n. n;
  parse_p256_public_key = λ n. some n;
  public_key_fingerprint = λ n. n;
  expected_response = λ n context. n;
  hpke_seal = λ n key context. some n;
}

abbrev pub department : Department
department = record {
  id = 1;
  status = DepartmentStatus.active;
  tablet_lease_days = 7;
  tablet_asset_number_auto_enabled = true;
  tablet_asset_number_prefix = b'T' ∷ [];
  tablet_asset_number_width = 4;
  tablet_asset_number_sequence = 0;
}

abbrev pub tablet_at : ℕ → TabletStatus → Bool → Tablet
tablet_at id status is_active = record {
  id = id;
  department_id = 1;
  asset_number = id ∷ [];
  display_name = id ∷ [];
  status = status;
  is_active = is_active;
  created_by = none;
}

abbrev pub version : AppVersion
version = record { major = 1; minor = 2; patch = 3 }

abbrev pub installation_at : ℕ → InstallationStatus → AppInstallation
installation_at id status = record {
  id = id;
  tablet_id = 10;
  installation_uuid = id;
  credential_hash = 5;
  status = status;
  app_version = version;
  adopted_app_version = version;
  app_build = none;
  app_version_seen_at = 0;
  hpke_public_key = 1;
  hpke_key_fingerprint = 1;
  hpke_key_verified_at = 0;
  adopted_at = 0;
  adopted_by = none;
  last_successful_check_in_at = none;
  authorization_valid_until = 100;
  stale_at = none;
  revoked_at = none;
  revocation_reason = [];
  compatibility_blocked = false;
}

abbrev pub invitation : AdoptionInvitation
invitation = record {
  id = 30;
  tablet_id = 10;
  token_hash = 9;
  expires_at = 1000;
  created_by = 1;
  used_at = none;
  revoked_at = none;
  failed_attempt_count = 0;
}

abbrev pub request : AdoptionRequest
request = record {
  id = 40;
  invitation_id = 30;
  installation_uuid = 21;
  app_version = version;
  app_build = none;
  hpke_public_key = 2;
  hpke_public_key_fingerprint = 2;
  expected_hmac_digest = 77;
  encrypted_challenge = 3;
  expires_at = 1000;
  completed_at = none;
  completion_replay_valid_until = none;
  completion_replay_invalidated_at = none;
  failed_attempt_count = 0;
}

abbrev pub start : Db
start = record {
  departments = department ∷ [];
  stations = record { id = 2; department_id = 1; is_active = true } ∷ [];
  vehicles = record { id = 3; department_id = 1; station_id = 2; is_active = true } ∷ [];
  tablets = tablet_at 10 TabletStatus.active true ∷ tablet_at 11 TabletStatus.retired false ∷ [];
  assignments =
      record {
        id = 4;
        tablet_id = 10;
        vehicle_id = 3;
        valid_from = 0;
        valid_until = none;
        ended_at = none;
      }
      ∷ [];
  installations = installation_at 20 InstallationStatus.active ∷ [];
  invitations = invitation ∷ [];
  requests = request ∷ [];
  dataset_grants =
      record {
        id = 50;
        publication_id = 60;
        app_installation_id = 20;
        status = GrantStatus.ready;
        revoked_at = none;
      }
      ∷ [];
  document_grants = [];
  manifests =
      record {
        id = 70;
        app_installation_id = 20;
        status = ManifestStatus.ready;
        completed_at = none;
      }
      ∷ [];
  memberships = record { user_id = 1; department_id = 1; status = MembershipStatus.active } ∷ [];
  accesses = [];
  events = [];
}

abbrev pub tablets_with : Tablet → List Tablet
tablets_with t = t ∷ tablet_at 11 TabletStatus.retired false ∷ []

abbrev pub grant_revoked_at : ℕ → KeyGrant
grant_revoked_at now = record {
  id = 50;
  publication_id = 60;
  app_installation_id = 20;
  status = GrantStatus.revoked;
  revoked_at = some now;
}

-- `start`, after the services whose names these states have.
abbrev pub withdrawn_db : TabletStatus → AuditAction → Db
withdrawn_db status action = record start {
  tablets = tablets_with (tablet_at 10 status false);
  installations =
      record (installation_at 20 InstallationStatus.revoked) { revoked_at = some 1 } ∷ [];
  invitations = record invitation { revoked_at = some 1 } ∷ [];
  dataset_grants = grant_revoked_at 1 ∷ [];
  events = record { action = action; actor = some 1; target_uuid = 10 } ∷ [];
}

abbrev pub lost_db : Db
lost_db = withdrawn_db TabletStatus.lost tablet_lost

abbrev pub retired_db : Db
retired_db = withdrawn_db TabletStatus.retired tablet_retired

abbrev pub deactivated_db : Db
deactivated_db = record start {
  tablets = tablets_with (tablet_at 10 TabletStatus.inactive true);
  dataset_grants = grant_revoked_at 1 ∷ [];
  manifests =
      record {
        id = 70;
        app_installation_id = 20;
        status = ManifestStatus.obsolete;
        completed_at = some 1;
      }
      ∷ [];
  events = record { action = tablet_deactivated; actor = some 1; target_uuid = 10 } ∷ [];
}

abbrev pub recovered_db : Db
recovered_db = record start {
  tablets = tablets_with (tablet_at 10 TabletStatus.inactive true);
  events = record { action = tablet_recovered; actor = some 1; target_uuid = 10 } ∷ [];
}

abbrev pub telemetry : Telemetry
telemetry = record {
  app_version = some version;
  app_build = none;
  build_supplied = false;
  minimum_app_version = none;
}

-- The row of the installation that adopts tablet 10 at the time 1.
abbrev pub adopted_row : AppInstallation
adopted_row = record (installation_at 21 InstallationStatus.active) {
  credential_hash = 6;
  app_version_seen_at = 1;
  hpke_public_key = 2;
  hpke_key_fingerprint = 2;
  hpke_key_verified_at = 1;
  adopted_at = 1;
  adopted_by = some 1;
  authorization_valid_until = 1 + days 7;
}

-- The row of installation 20 after a check-in or a refresh at the time 1.
abbrev pub renewed_row : AppInstallation
renewed_row = record (installation_at 20 InstallationStatus.active) {
  app_version_seen_at = 1;
  last_successful_check_in_at = some 1;
  authorization_valid_until = 1 + days 7;
}

abbrev pub new_row : Tablet
new_row = record {
  id = 12;
  department_id = 1;
  asset_number = b'T' ∷ b'0' ∷ b'0' ∷ b'0' ∷ b'1' ∷ [];
  display_name = b'N' ∷ [];
  status = TabletStatus.inactive;
  is_active = true;
  created_by = some 1;
}

abbrev pub created_db : Db
created_db = record start {
  departments = record department { tablet_asset_number_sequence = 1 } ∷ [];
  tablets = new_row ∷ start.tablets;
  events = record { action = tablet_created; actor = some 1; target_uuid = 12 } ∷ [];
}
