-- ===== src/Tablets/Invariant/Adoption.antt =====
-- The adoption services keep the tables well-formed.
use fire_dash_server.Prelude.{
  ℕ, ◌≡◌, refl, sym, subst, ap, ◌∙◌, Bool, true, List, arith, ◌==◌, count, first, ◌||◌, select,
  eq_of_==, update, ok, Result, Option, some,
}
use fire_dash_server.Prelude.TableLaws.{count-update_same, first_sound}
use fire_dash_server.Tablets.Models.{
  TabletStatus, AppInstallation, AdoptionRequest, AdoptionInvitation, User,
}
use fire_dash_server.Tablets.Store.{Db, Error, steps}
use fire_dash_server.Tablets.Access.Frame.{revoke_temporary_access-Frame}
use fire_dash_server.Tablets.Guards.{
  is_active_tablet, is_inactive_tablet, require_operational_tablet,
}
use fire_dash_server.Tablets.Challenge.{
  Crypto, Proposal, record_failed_attempt, create_adoption_invitation,
  initiate_installation_replacement, create_adoption_request, read_build, invitation_for_token,
}
use fire_dash_server.Tablets.Lifecycle.{is_current_of}
use fire_dash_server.Tablets.Lifecycle.Frames.{revoke_grants_of_all_frame}
use fire_dash_server.Tablets.Adoption.{
  replay_successful_completion, complete_adoption, is_replaced_of,
}
use fire_dash_server.Tablets.Adoption.Effects.{
  Adopted, adopted_rows, complete_successful_adoption_effect,
}
use fire_dash_server.Tablets.Adoption.Outcomes.{
  Outcome, complete_adoption-Outcome, refused, replayed, adopted, counted,
}
use fire_dash_server.Tablets.Invariant.{Consistent-fewer, Consistent-adopt, is_in_service}
use fire_dash_server.Tablets.Invariant.Services.{IsConsistent, SameCore, SameCore-IsConsistent}

pub record_failed_attempt_core :
    (now pk : ℕ) (db : Db) {u : Unit {0}} {db' : Db}
    → record_failed_attempt now pk db ≡ ok (u, db')
    → SameCore db db'
unfolding steps record_failed_attempt
record_failed_attempt_core now pk db h = ground arith

serves :
    (s : TabletStatus)
    → (is_inactive_tablet s || is_active_tablet s) ≡ true
    → is_in_service s ≡ true
serves TabletStatus.inactive h = refl
serves TabletStatus.active h = refl
serves TabletStatus.lost h = absurd (ground arith)
serves TabletStatus.retired h = absurd (ground arith)

module _ (c : Crypto) (now : ℕ) (db : Db) where
  pub create_adoption_invitation_core :
      (actor : User) (pk : ℕ) (expires_at : Option ℕ) (token fresh : ℕ) {v : AdoptionInvitation}
      {db' : Db}
      → create_adoption_invitation c now actor pk expires_at token fresh db ≡ ok (v, db')
      → SameCore db db'
  unfolding steps create_adoption_invitation
  create_adoption_invitation_core actor pk expires_at token fresh h =
      grind (arith, revoke_temporary_access-Frame)

  pub initiate_installation_replacement_core :
      (actor : User) (pk : ℕ) (expires_at : Option ℕ) (token fresh : ℕ) {v : AdoptionInvitation}
      {db' : Db}
      → initiate_installation_replacement c now actor pk expires_at token fresh db ≡ ok (v, db')
      → SameCore db db'
  unfolding steps initiate_installation_replacement
  initiate_installation_replacement_core actor pk expires_at token fresh h =
      grind (arith, create_adoption_invitation_core)

  pub create_adoption_request_core :
      (p : Proposal) (nonce fresh : ℕ) {r : AdoptionRequest} {db' : Db}
      → create_adoption_request c now p nonce fresh db ≡ ok (r, db')
      → SameCore db db'
  unfolding steps create_adoption_request read_build invitation_for_token require_operational_tablet
  create_adoption_request_core p nonce fresh h = ground arith

  pub replay_rows :
      (pk response credential : ℕ) {r : AppInstallation × ℕ} {db' : Db}
      → replay_successful_completion c now pk response credential db ≡ ok (r, db')
      → (db'.tablets ≡ db.tablets)
        × (db'.installations
            ≡ update
                (λ i. i.id == r.0.id)
                (λ i. record i { credential_hash = c.secret_digest credential })
                db.installations)
  unfolding steps replay_successful_completion
  replay_rows pk response credential h = ground arith

  replay-IsConsistent :
      (pk response credential : ℕ) {r : AppInstallation × ℕ} {db' : Db}
      → replay_successful_completion c now pk response credential db ≡ ok (r, db')
      → IsConsistent db
      → IsConsistent db'
  replay-IsConsistent pk response credential {r} {db'} h k =
      let (t, i) = replay_rows pk response credential h in
      rw (t, i)
        (Consistent-fewer db.tablets db.installations _
          (λ pk.
            rw
              (count-update_same (λ x. x.id == pk) (λ x. x.id == r.0.id)
                (λ x. record x { credential_hash = c.secret_digest credential }) (λ x. refl)
                db.installations)
              (omega arith))
          (λ t.
            rw
              (count-update_same (is_current_of t) (λ x. x.id == r.0.id)
                (λ x. record x { credential_hash = c.secret_digest credential }) (λ x. refl)
                db.installations)
              (omega arith))
          k)

  module _ (pk credential fresh : ℕ) {db' : Db} (a : Adopted c now pk credential fresh db db') where
    pub adopted_core :
        (db'.tablets ≡ db.tablets)
        × (db'.installations ≡ adopted_rows a.installation a.tablet.id db.installations)
    adopted_core =
        let rows : List AppInstallation =
          adopted_rows a.installation a.tablet.id db.installations in
        let f =
          revoke_grants_of_all_frame now (select (is_replaced_of a.tablet.id) rows)
            (record db { installations = rows }) in
        (
          ap (λ d. d.tablets) a.state ∙ ap (λ d. d.tablets) f,
          ap (λ d. d.installations) a.state ∙ ap (λ d. d.installations) f,
        )

    pub adopted_tablet_id : a.installation.tablet_id ≡ a.tablet.id
    adopted_tablet_id = ap (λ i. i.tablet_id) a.made

    pub adopted_tablet : first (λ t. t.id == a.installation.tablet_id) db.tablets ≡ some a.tablet
    adopted_tablet =
        subst (λ k. first (λ t. t.id == k) db.tablets ≡ some a.tablet)
          (sym (
              eq_of_== a.tablet.id a.invitation.tablet_id
                (first_sound (λ t. t.id == a.invitation.tablet_id) db.tablets a.found_tablet))
            ∙ sym adopted_tablet_id)
          a.found_tablet

    pub adopted-IsConsistent :
        count (λ i. i.id == fresh) db.installations ≡ 0 → IsConsistent db → IsConsistent db'
    adopted-IsConsistent new k =
        let (t, i) = adopted_core in
        rw (t, i, sym adopted_tablet_id)
          (Consistent-adopt db.tablets db.installations a.tablet a.installation adopted_tablet
            (serves a.tablet.status a.in_service)
            (subst (λ n. count (λ r. r.id == n) db.installations ≡ 0) (sym (ap (λ r. r.id) a.made))
              new)
            k)

  Outcome-IsConsistent :
      (pk response credential fresh : ℕ) {r : Result Error (AppInstallation × ℕ) × Db}
      → Outcome c now pk response credential fresh db r
      → count (λ i. i.id == fresh) db.installations ≡ 0
      → IsConsistent db
      → IsConsistent r.1
  Outcome-IsConsistent pk response credential fresh (refused e) new k = k
  Outcome-IsConsistent pk response credential fresh (replayed p db' h) new k =
      replay-IsConsistent pk response credential h k
  Outcome-IsConsistent pk response credential fresh (adopted request p db' f d h) new k =
      adopted-IsConsistent pk credential fresh
        (complete_successful_adoption_effect c now pk credential fresh db h) new k
  Outcome-IsConsistent pk response credential fresh (counted request db' f o d h) new k =
      SameCore-IsConsistent db db' (record_failed_attempt_core now pk db h) k

  pub complete_adoption-IsConsistent :
      (pk response : ℕ) (confirmed : Bool) (credential fresh : ℕ)
      → count (λ i. i.id == fresh) db.installations ≡ 0
      → IsConsistent db
      → IsConsistent (complete_adoption c now pk response confirmed credential fresh db).1
  complete_adoption-IsConsistent pk response confirmed credential fresh =
      Outcome-IsConsistent pk response credential fresh
        (complete_adoption-Outcome c now pk response credential fresh db confirmed)
