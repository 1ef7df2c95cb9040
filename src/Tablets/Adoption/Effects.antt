-- ===== src/Tablets/Adoption/Effects.antt =====
-- What a completed adoption has checked and written.
use fire_dash_server.Prelude.{
  ℕ, ◌+◌, ◌≡◌, refl, true, false, ◌||◌, List, ◌∷◌, some, arith, ◌==◌, leb, any, first, update,
  select, is_some, Option-cases, inl, inr, ok, ◌>>=◌,
}
use fire_dash_server.Tablets.Models.{
  Department, Tablet, AppInstallation, InstallationStatus, AdoptionInvitation, AdoptionRequest,
}
use fire_dash_server.Tablets.Store.{Db, Service, steps}
use fire_dash_server.Tablets.Guards.{
  is_active_tablet, is_inactive_tablet, require_operational_tablet, lease_target,
}
use fire_dash_server.Tablets.Lifecycle.{is_current_of, revoke_grants_of_all}
use fire_dash_server.Tablets.Challenge.{Crypto, max_failed_attempts}
use fire_dash_server.Tablets.Reads.{
  get_tablet-bind, get_request-bind, get_invitation-bind, raise_if-bind, gets-bind,
}
use fire_dash_server.Tablets.Adoption.{
  completion_replay_duration, is_replaced_of, new_installation, write_adoption,
  complete_successful_adoption,
}

abbrev pub replaced_row : AppInstallation → AppInstallation
replaced_row i = record i { status = InstallationStatus.replaced }

-- The installations after an adoption.
abbrev pub adopted_rows : AppInstallation → ℕ → List AppInstallation → List AppInstallation
adopted_rows installation tablet_id rows =
    installation ∷ update (is_current_of tablet_id) replaced_row rows

abbrev pub adopted_db : ℕ → ℕ → ℕ → AppInstallation → ℕ → Db → Db
adopted_db now request_id invitation_id installation tablet_id db =
    let rows : List AppInstallation = adopted_rows installation tablet_id db.installations in
    let cut : Db =
      revoke_grants_of_all now (select (is_replaced_of tablet_id) rows)
        (record db { installations = rows }) in
    record cut {
      requests =
          update (λ r. r.id == request_id)
            (λ r. record r {
              completed_at = some now;
              completion_replay_valid_until = some (now + completion_replay_duration);
            })
            cut.requests;
      invitations =
          update (λ v. v.id == invitation_id) (λ v. record v { used_at = some now })
            cut.invitations;
    }

operational_bind :
    {B : Type 0} (now : ℕ) (t : Tablet) (db : Db) (f : Unit {0} → Service B) {b : B} {db' : Db}
    → (require_operational_tablet now t >>= f) db ≡ ok (b, db')
    → ((is_inactive_tablet t.status || is_active_tablet t.status) ≡ true) × (f tt db ≡ ok (b, db'))
unfolding require_operational_tablet steps
operational_bind now t db f h = (ground arith, ground arith)

module _ (c : Crypto) where
  pub record Adopted (now request_id credential fresh : ℕ) (db db' : Db) : Type 0 where
    pub request : AdoptionRequest
    pub invitation : AdoptionInvitation
    pub tablet : Tablet
    pub department : Department
    pub installation : AppInstallation
    pub found_request : first (λ r. r.id == request_id) db.requests ≡ some request
    pub found_invitation :
        first (λ v. v.id == request.invitation_id) db.invitations ≡ some invitation
    pub found_tablet : first (λ t. t.id == invitation.tablet_id) db.tablets ≡ some tablet
    pub is_new : is_some request.completed_at ≡ false
    pub unexpired : leb request.expires_at now ≡ false
    pub below_limit : leb max_failed_attempts request.failed_attempt_count ≡ false
    pub unused : is_some invitation.used_at ≡ false
    pub unrevoked : is_some invitation.revoked_at ≡ false
    pub in_service : (is_inactive_tablet tablet.status || is_active_tablet tablet.status) ≡ true
    pub new_uuid :
        any (λ i. i.installation_uuid == request.installation_uuid) db.installations ≡ false
    pub made :
        installation
        ≡ new_installation c now fresh request invitation tablet credential
            (lease_target department now)
    pub state : db' ≡ record (adopted_db now request.id invitation.id installation tablet.id db) {
      events = db'.events;
    }

  write_adoption_effect :
      (now : ℕ) (request : AdoptionRequest) (invitation : AdoptionInvitation) (tablet : Tablet)
      (credential fresh : ℕ) (db : Db) {r : AppInstallation × ℕ} {db' : Db}
      → write_adoption c now request invitation tablet credential fresh db ≡ ok (r, db')
      → (department : Department) × (db'
          ≡ record (adopted_db now request.id invitation.id
              (new_installation c now fresh request invitation tablet credential
                (lease_target department now))
              tablet.id
              db) { events = db'.events })
        × (r ≡ (
          new_installation c now fresh request invitation tablet credential
              (lease_target department now),
          credential,
        ))
  unfolding write_adoption steps
  write_adoption_effect now request invitation tablet credential fresh db h =
      elim (Option-cases (first (λ d. d.id == tablet.department_id) db.departments)) [
        | inl e ↦ absurd (ground arith)
        | inr (d, e) ↦ (d, ground arith, ground arith)
      ]

  pub complete_successful_adoption_result :
      (now request_id credential fresh : ℕ) (db : Db) {r : AppInstallation × ℕ} {db' : Db}
      → complete_successful_adoption c now request_id credential fresh db ≡ ok (r, db')
      → (a : Adopted now request_id credential fresh db db') × (r ≡ (a.installation, credential))
  unfolding complete_successful_adoption
  complete_successful_adoption_result now request_id credential fresh db {r} {db'} h =
      let (request, er, h1) = get_request-bind db request_id _ h in
      let (invitation, ev, h2) = get_invitation-bind db request.invitation_id _ h1 in
      let (g1, h3) = raise_if-bind db _ _ _ h2 in
      let (g2, h4) = raise_if-bind db _ _ _ h3 in
      let (g3, h5) = raise_if-bind db _ _ _ h4 in
      let (g4, h6) = raise_if-bind db _ _ _ h5 in
      let (g5, h7) = raise_if-bind db _ _ _ h6 in
      let (tablet, et, h8) = get_tablet-bind db invitation.tablet_id _ h7 in
      let (in_service, h9) = operational_bind now tablet db _ h8 in
      let h10 = gets-bind db _ _ h9 in
      let (new_uuid, h11) = raise_if-bind db _ _ _ h10 in
      let (department, state, result) =
        write_adoption_effect now request invitation tablet credential fresh db h11 in
      (
        record {
          request = request;
          invitation = invitation;
          tablet = tablet;
          department = department;
          installation =
              new_installation c now fresh request invitation tablet credential
                (lease_target department now);
          found_request = er;
          found_invitation = ev;
          found_tablet = et;
          is_new = g1;
          unexpired = g2;
          below_limit = g3;
          unused = g4;
          unrevoked = g5;
          in_service = in_service;
          new_uuid = new_uuid;
          made = refl;
          state = state;
        },
        result,
      )

  pub complete_successful_adoption_effect :
      (now request_id credential fresh : ℕ) (db : Db) {r : AppInstallation × ℕ} {db' : Db}
      → complete_successful_adoption c now request_id credential fresh db ≡ ok (r, db')
      → Adopted now request_id credential fresh db db'
  complete_successful_adoption_effect now request_id credential fresh db h =
      (complete_successful_adoption_result now request_id credential fresh db h).0
