-- ===== src/Tablets/Adoption.antt =====
-- The completion of an adoption: by the right proof, by a wrong one, and by replay
-- (apps/tablets/services.py).
pub mod Effects
pub mod Outcomes
pub mod Handover
pub mod Attempts
use fire_dash_server.Prelude.{
  ℕ, ◌+◌, ◌==◌, leb, ltb, Bool, true, false, not, ◌&&◌, ◌||◌, Option, none, some, is_none, is_some,
  if◌then◌else◌, [], ◌∷◌, ◌>>=◌, ◌>>◌, pure, raise_if, or_raise, gets, modify, first, any, update,
  select, Result, ok, err,
}
use fire_dash_server.Tablets.Models.{
  Tablet, AppInstallation, InstallationStatus, AdoptionInvitation, AdoptionRequest, is_current,
  adopted, completion_recovered,
}
use fire_dash_server.Tablets.Store.{
  Db, Service, Error, tablet_error, invalid_request, installation_inactive,
  adoption_request_completed, adoption_request_expired, adoption_attempt_limit_reached,
  invitation_invalid, adoption_proof_invalid, does_not_exist, get_tablet, get_department,
  get_invitation, get_request, save_invitation, save_request, save_installation, record_event,
  minutes,
}
use fire_dash_server.Tablets.Guards.{require_operational_tablet, lease_target}
use fire_dash_server.Tablets.Lifecycle.{is_current_of, revoke_grants_of_all}
use fire_dash_server.Tablets.Challenge.{Crypto, max_failed_attempts, record_failed_attempt}

abbrev pub completion_replay_duration : ℕ
completion_replay_duration = minutes 10

abbrev pub is_replaced_of : ℕ → AppInstallation → Bool
is_replaced_of tablet_id i =
    i.tablet_id == tablet_id && elim i.status [ InstallationStatus.replaced ↦ true | _ ↦ false ]

-- `valid_until is not None and valid_until > now`
abbrev pub is_replayable : ℕ → Option ℕ → Bool
is_replayable now none = false
is_replayable now (some t) = ltb now t

-- The state after a transaction: an error leaves the one before it.
abbrev pub committed : {A : Type 0} → Db → Result Error (A × Db) → Result Error A × Db
committed db (ok r) = (ok r.0, r.1)
committed db (err e) = (err e, db)

module _ (c : Crypto) where
  abbrev new_installation :
      ℕ → ℕ → AdoptionRequest → AdoptionInvitation → Tablet → ℕ → ℕ → AppInstallation
  new_installation now fresh request invitation tablet credential lease = record {
    id = fresh;
    tablet_id = tablet.id;
    installation_uuid = request.installation_uuid;
    credential_hash = c.secret_digest credential;
    status = InstallationStatus.active;
    app_version = request.app_version;
    adopted_app_version = request.app_version;
    app_build = request.app_build;
    app_version_seen_at = now;
    hpke_public_key = request.hpke_public_key;
    hpke_key_fingerprint = request.hpke_public_key_fingerprint;
    hpke_key_verified_at = now;
    adopted_at = now;
    adopted_by = some invitation.created_by;
    last_successful_check_in_at = none;
    authorization_valid_until = lease;
    stale_at = none;
    revoked_at = none;
    revocation_reason = [];
    compatibility_blocked = false;
  }

  -- The writes of `_complete_successful_adoption`, once everything has been checked.
  unfoldable pub write_adoption :
      ℕ → AdoptionRequest → AdoptionInvitation → Tablet → ℕ → ℕ → Service (AppInstallation × ℕ)
  unfolding revoke_grants_of_all lease_target
  write_adoption now request invitation tablet credential fresh = do
    modify λ db. record db {
      installations =
          update (is_current_of tablet.id) (λ i. record i { status = InstallationStatus.replaced })
            db.installations;
    }
    department ← get_department tablet.department_id
    let installation =
        new_installation now fresh request invitation tablet credential
          (lease_target department now)
    modify λ db. record db { installations = installation ∷ db.installations }
    replaced ← gets λ db. select (is_replaced_of tablet.id) db.installations
    modify (revoke_grants_of_all now replaced)
    save_request request.id (λ r. record r {
      completed_at = some now;
      completion_replay_valid_until = some (now + completion_replay_duration);
    })
    save_invitation invitation.id (λ v. record v { used_at = some now })
    record_event adopted (some invitation.created_by) fresh
    pure (installation, credential)

  -- `_complete_successful_adoption`, with the random credential and the key of the new row.
  unfoldable pub complete_successful_adoption : ℕ → ℕ → ℕ → ℕ → Service (AppInstallation × ℕ)
  unfolding require_operational_tablet write_adoption
  complete_successful_adoption now request_id credential fresh = do
    request ← get_request request_id
    invitation ← get_invitation request.invitation_id
    raise_if (is_some request.completed_at) (tablet_error adoption_request_completed)
    raise_if (leb request.expires_at now) (tablet_error adoption_request_expired)
    raise_if (leb max_failed_attempts request.failed_attempt_count)
        (tablet_error adoption_attempt_limit_reached)
    raise_if (is_some invitation.used_at) (tablet_error invitation_invalid)
    raise_if (is_some invitation.revoked_at) (tablet_error invitation_invalid)
    tablet ← get_tablet invitation.tablet_id
    require_operational_tablet now tablet
    taken ← gets λ db. any (λ i. i.installation_uuid == request.installation_uuid) db.installations
    raise_if taken (tablet_error invalid_request)
    write_adoption now request invitation tablet credential fresh

  -- `_replay_successful_completion`: a new credential for a device that lost the first.
  unfoldable pub replay_successful_completion : ℕ → ℕ → ℕ → ℕ → Service (AppInstallation × ℕ)
  replay_successful_completion now request_id challenge_response credential = do
    request ← get_request request_id
    invitation ← get_invitation request.invitation_id
    found ←
        gets λ db. first (λ i. i.installation_uuid == request.installation_uuid) db.installations
    installation ← or_raise found does_not_exist
    raise_if
        (is_none request.completed_at
          || not (is_replayable now request.completion_replay_valid_until)
          || is_some request.completion_replay_invalidated_at
          || is_some invitation.revoked_at
          || not (request.expected_hmac_digest == challenge_response))
        (tablet_error adoption_request_completed)
    raise_if (not (is_current installation.status)) (tablet_error installation_inactive)
    save_installation installation.id
        (λ i. record i { credential_hash = c.secret_digest credential })
    record_event completion_recovered (some invitation.created_by) installation.id
    pure (record installation { credential_hash = c.secret_digest credential }, credential)

  -- `complete_adoption` is no transaction: what `record_failed_attempt` wrote stays written when
  -- the wrong proof is refused.
  unfoldable pub complete_request :
      ℕ → AdoptionRequest → ℕ → ℕ → ℕ → Db → Result Error (AppInstallation × ℕ) × Db
  unfolding record_failed_attempt complete_successful_adoption replay_successful_completion
  complete_request now request response credential fresh db =
      if is_some request.completed_at
      then committed db (replay_successful_completion now request.id response credential db)
      else if leb request.expires_at now
      then (err (tablet_error adoption_request_expired), db)
      else if leb max_failed_attempts request.failed_attempt_count
      then (err (tablet_error adoption_attempt_limit_reached), db)
      else elim (first (λ v. v.id == request.invitation_id) db.invitations) [
        | none ↦ (err (tablet_error invalid_request), db)
        | some invitation ↦
            if is_some invitation.used_at || is_some invitation.revoked_at
            then (err (tablet_error invitation_invalid), db)
            else if request.expected_hmac_digest == response
            then committed db (complete_successful_adoption now request.id credential fresh db)
            else elim (record_failed_attempt now request.id db) [
              | ok r ↦ (err (tablet_error adoption_proof_invalid), r.1)
              | err e ↦ (err e, db)
            ]
      ]

  unfoldable pub complete_adoption :
      ℕ → ℕ → ℕ → Bool → ℕ → ℕ → Db → Result Error (AppInstallation × ℕ) × Db
  unfolding complete_request
  complete_adoption now request_id response confirmed credential fresh db =
      if not confirmed
      then (err (tablet_error invalid_request), db)
      else elim (first (λ r. r.id == request_id) db.requests) [
        | none ↦ (err does_not_exist, db)
        | some request ↦ complete_request now request response credential fresh db
      ]
