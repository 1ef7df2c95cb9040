-- ===== src/Tablets/Challenge.antt =====
-- The invitation and the challenge by which an app installation asks to adopt a tablet
-- (apps/tablets/services.py). The HMAC of a secret, the expected response to a challenge, and
-- the sealing of a challenge are parameters; so are the random values that a service draws.
use fire_dash_server.Prelude.{
  ℕ, ◌+◌, ◌==◌, leb, Bool, not, ◌||◌, Option, none, some, is_some, get_or, if◌then◌else◌, ◌∷◌,
  ◌>>=◌, ◌>>◌, pure, raise_if, or_raise, gets, modify, first,
}
use fire_dash_server.Tablets.Versions.Parse.{parse_app_version, parse_app_build}
use fire_dash_server.Tablets.Models.{
  Text, AppVersion, AdoptionInvitation, AdoptionRequest, User, department_mutation,
  invitation_created, replacement_initiated, proof_failed,
}
use fire_dash_server.Tablets.Store.{
  Service, tablet_error, invalid_request, get_tablet, get_department, get_invitation, get_request,
  save_invitation, save_request, record_event, minutes,
}
use fire_dash_server.Tablets.Access.{require_department_admin, revoke_temporary_access}
use fire_dash_server.Tablets.Guards.{require_operational_tablet}

abbrev pub invitation_duration : ℕ
invitation_duration = minutes 15

abbrev pub challenge_duration : ℕ
challenge_duration = minutes 5

abbrev pub max_failed_attempts : ℕ
max_failed_attempts = 5

-- What the challenge of one request is bound to.
pub record AdoptionChallengeContext : Type 0 where
  pub adoption_request_id : ℕ
  pub installation_uuid : ℕ
  pub tablet_id : ℕ
  pub public_key_fingerprint : ℕ
  pub expires_at : ℕ

-- The cryptography that these services call.
pub record Crypto : Type 0 where
  pub secret_digest : ℕ → ℕ  -- the keyed HMAC of a token or credential
  pub parse_p256_public_key : ℕ → Option ℕ  -- `none` where the library refuses the key
  pub public_key_fingerprint : ℕ → ℕ
  pub expected_response : ℕ → AdoptionChallengeContext → ℕ  -- the HMAC keyed by the nonce
  pub hpke_seal : ℕ → ℕ → AdoptionChallengeContext → Option ℕ  -- of a nonce, to a public key

-- What a device sends to ask for adoption. Its version and build have been parsed.
pub record Proposal : Type 0 where
  pub token : ℕ
  pub installation_uuid : ℕ
  pub app_version : Text
  pub app_build : Option Text
  pub hpke_public_key : ℕ
  pub is_supported_ciphersuite : Bool

abbrev new_invitation : ℕ → ℕ → ℕ → ℕ → User → AdoptionInvitation
new_invitation fresh tablet_id token_hash expires_at actor = record {
  id = fresh;
  tablet_id = tablet_id;
  token_hash = token_hash;
  expires_at = expires_at;
  created_by = actor.id;
  used_at = none;
  revoked_at = none;
  failed_attempt_count = 0;
}

-- A build that is given has to be well-formed.
unfoldable pub read_build : Option Text → Service (Option ℕ)
unfolding or_raise
read_build none = pure none
read_build (some value) = do
  build ← or_raise (parse_app_build value) (tablet_error invalid_request)
  pure (some build)

abbrev new_request : ℕ → ℕ → Proposal → AppVersion → Option ℕ → ℕ → ℕ → ℕ → ℕ → AdoptionRequest
new_request fresh invitation_id p app_version app_build fingerprint expected encrypted expires_at =
    record {
      id = fresh;
      invitation_id = invitation_id;
      installation_uuid = p.installation_uuid;
      app_version = app_version;
      app_build = app_build;
      hpke_public_key = p.hpke_public_key;
      hpke_public_key_fingerprint = fingerprint;
      expected_hmac_digest = expected;
      encrypted_challenge = encrypted;
      expires_at = expires_at;
      completed_at = none;
      completion_replay_valid_until = none;
      completion_replay_invalidated_at = none;
      failed_attempt_count = 0;
    }

-- `_record_failed_attempt`: counts a wrong proof, and revokes the invitation at the limit.
unfoldable pub record_failed_attempt : ℕ → ℕ → Service (Unit {0})
record_failed_attempt now request_id = do
  request ← get_request request_id
  if is_some request.completed_at || leb request.expires_at now then pure tt else (do
    save_request request_id (λ r. record r { failed_attempt_count = r.failed_attempt_count + 1 })
    invitation ← get_invitation request.invitation_id
    save_invitation invitation.id (λ v. record v {
      failed_attempt_count = v.failed_attempt_count + 1;
      revoked_at =
          if leb max_failed_attempts (v.failed_attempt_count + 1) then some now else v.revoked_at;
    })
    record_event proof_failed none request.id)

module _ (c : Crypto) where
  -- With the random token and the key of the new row.
  unfoldable pub create_adoption_invitation :
      ℕ → User → ℕ → Option ℕ → ℕ → ℕ → Service AdoptionInvitation
  unfolding require_department_admin require_operational_tablet revoke_temporary_access
  create_adoption_invitation now actor tablet_id expires_at token fresh = do
    tablet ← get_tablet tablet_id
    department ← get_department tablet.department_id
    require_department_admin actor department
    require_operational_tablet now tablet
    let invitation =
        new_invitation fresh tablet.id (c.secret_digest token)
          (get_or expires_at (now + invitation_duration)) actor
    modify λ db. record db { invitations = invitation ∷ db.invitations }
    record_event invitation_created (some actor.id) fresh
    revoke_temporary_access now actor department_mutation
    pure invitation

  unfoldable pub initiate_installation_replacement :
      ℕ → User → ℕ → Option ℕ → ℕ → ℕ → Service AdoptionInvitation
  unfolding create_adoption_invitation
  initiate_installation_replacement now actor tablet_id expires_at token fresh = do
    invitation ← create_adoption_invitation now actor tablet_id expires_at token fresh
    record_event replacement_initiated (some actor.id) tablet_id
    pure invitation

  -- `_invitation_for_token`
  unfoldable pub invitation_for_token : ℕ → ℕ → Service AdoptionInvitation
  invitation_for_token now token = do
    found ← gets λ db. first (λ v. v.token_hash == c.secret_digest token) db.invitations
    invitation ← or_raise found (tablet_error invalid_request)
    raise_if
        (is_some invitation.used_at
          || is_some invitation.revoked_at
          || leb invitation.expires_at now)
        (tablet_error invalid_request)
    pure invitation

  -- With the random nonce and the key of the new row; the row is written once, complete.
  unfoldable pub create_adoption_request : ℕ → Proposal → ℕ → ℕ → Service AdoptionRequest
  unfolding read_build invitation_for_token require_operational_tablet
  create_adoption_request now p nonce fresh = do
    app_version ← or_raise (parse_app_version p.app_version) (tablet_error invalid_request)
    app_build ← read_build p.app_build
    raise_if (not p.is_supported_ciphersuite) (tablet_error invalid_request)
    invitation ← invitation_for_token now p.token
    tablet ← get_tablet invitation.tablet_id
    require_operational_tablet now tablet
    public_key ← or_raise (c.parse_p256_public_key p.hpke_public_key) (tablet_error invalid_request)
    let fingerprint = c.public_key_fingerprint public_key
    let expires_at = now + challenge_duration
    let context : AdoptionChallengeContext = record {
      adoption_request_id = fresh;
      installation_uuid = p.installation_uuid;
      tablet_id = tablet.id;
      public_key_fingerprint = fingerprint;
      expires_at = expires_at;
    }
    encrypted ← or_raise (c.hpke_seal nonce public_key context) (tablet_error invalid_request)
    let request =
        new_request fresh invitation.id p app_version app_build fingerprint
          (c.expected_response nonce context) encrypted expires_at
    modify λ db. record db { requests = request ∷ db.requests }
    pure request
