-- ===== src/Tablets/Adoption/Outcomes.antt =====
-- The four ways in which an attempt to complete an adoption ends.
use fire_dash_server.Prelude.{
  ℕ, ◌≡◌, refl, sym, subst, Bool, true, false, not, ◌||◌, Option, none, some, arith, ◌==◌, leb,
  first, is_some, if◌then◌else◌, eq_of_==, Result, ok, err,
}
use fire_dash_server.Prelude.TableLaws.{first_sound}
use fire_dash_server.Tablets.Models.{AppInstallation, AdoptionRequest, AdoptionInvitation}
use fire_dash_server.Tablets.Store.{
  Db, Error, tablet_error, adoption_proof_invalid, adoption_request_expired,
  adoption_attempt_limit_reached, invalid_request, invitation_invalid, does_not_exist,
}
use fire_dash_server.Tablets.Challenge.{Crypto, max_failed_attempts, record_failed_attempt}
use fire_dash_server.Tablets.Adoption.{
  committed, complete_successful_adoption, replay_successful_completion, complete_request,
  complete_adoption,
}

-- What has been read of a request that is still open, before its proof is looked at.
pub record IsOpen (now : ℕ) (request : AdoptionRequest) (db : Db) : Type 0 where
  pub invitation : AdoptionInvitation
  pub is_new : is_some request.completed_at ≡ false
  pub unexpired : leb request.expires_at now ≡ false
  pub below_limit : leb max_failed_attempts request.failed_attempt_count ≡ false
  pub found_invitation : first (λ v. v.id == request.invitation_id) db.invitations ≡ some invitation
  pub unused : is_some invitation.used_at ≡ false
  pub unrevoked : is_some invitation.revoked_at ≡ false

module _ (c : Crypto) (now request_id response credential fresh : ℕ) (db : Db) where
  pub data Outcome : Result Error (AppInstallation × ℕ) × Db → Type 0 where
    refused : (e : Error) → Outcome (err e, db)
    replayed :
        (p : AppInstallation × ℕ) (db' : Db)
        → replay_successful_completion c now request_id response credential db ≡ ok (p, db')
        → Outcome (ok p, db')
    adopted :
        (request : AdoptionRequest) (p : AppInstallation × ℕ) (db' : Db)
        → first (λ r. r.id == request_id) db.requests ≡ some request
        → request.expected_hmac_digest ≡ response
        → complete_successful_adoption c now request_id credential fresh db ≡ ok (p, db')
        → Outcome (ok p, db')
    counted :
        (request : AdoptionRequest) (db' : Db)
        → first (λ r. r.id == request_id) db.requests ≡ some request
        → IsOpen now request db
        → (request.expected_hmac_digest == response) ≡ false
        → record_failed_attempt now request_id db ≡ ok (tt, db')
        → Outcome (err (tablet_error adoption_proof_invalid), db')

  replay-Outcome :
      (m : Result Error ((AppInstallation × ℕ) × Db))
      → replay_successful_completion c now request_id response credential db ≡ m
      → Outcome (committed db m)
  replay-Outcome (ok (p, db')) h = replayed p db' h
  replay-Outcome (err e) h = refused e

  success-Outcome :
      (request : AdoptionRequest)
      → first (λ r. r.id == request_id) db.requests ≡ some request
      → request.expected_hmac_digest ≡ response
      → (m : Result Error ((AppInstallation × ℕ) × Db))
      → complete_successful_adoption c now request_id credential fresh db ≡ m
      → Outcome (committed db m)
  success-Outcome request f d (ok (p, db')) h = adopted request p db' f d h
  success-Outcome request f d (err e) h = refused e

  attempt-Outcome :
      (request : AdoptionRequest)
      → first (λ r. r.id == request_id) db.requests ≡ some request
      → IsOpen now request db
      → (request.expected_hmac_digest == response) ≡ false
      → (m : Result Error (Unit {0} × Db)) → record_failed_attempt now request_id db ≡ m
      → Outcome
          (elim m [ ok r ↦ (err (tablet_error adoption_proof_invalid), r.1) | err e ↦ (err e, db) ])
  attempt-Outcome request f o d (ok (u, db')) h = counted request db' f o d h
  attempt-Outcome request f o d (err e) h = refused e

  Outcome-if :
      (b : Bool) (x y : Result Error (AppInstallation × ℕ) × Db)
      → (b ≡ true → Outcome x)
      → (b ≡ false → Outcome y)
      → Outcome (if b then x else y)
  Outcome-if true x y h k = h refl
  Outcome-if false x y h k = k refl

  invitation-Outcome :
      (request : AdoptionRequest)
      → first (λ r. r.id == request_id) db.requests ≡ some request
      → is_some request.completed_at ≡ false
      → leb request.expires_at now ≡ false
      → leb max_failed_attempts request.failed_attempt_count ≡ false
      → (found : Option AdoptionInvitation)
      → first (λ v. v.id == request.invitation_id) db.invitations ≡ found
      → Outcome (elim found [
        | none ↦ (err (tablet_error invalid_request), db)
        | some invitation ↦
            if is_some invitation.used_at || is_some invitation.revoked_at
            then (err (tablet_error invitation_invalid), db)
            else if request.expected_hmac_digest == response
            then committed db (complete_successful_adoption c now request_id credential fresh db)
            else elim (record_failed_attempt now request_id db) [
              | ok r ↦ (err (tablet_error adoption_proof_invalid), r.1)
              | err e ↦ (err e, db)
            ]
      ])
  invitation-Outcome request f n x l none v = refused _
  invitation-Outcome request f n x l (some invitation) v =
      Outcome-if (is_some invitation.used_at || is_some invitation.revoked_at) _ _
        (λ _. refused (tablet_error invitation_invalid))
        λ free.
          Outcome-if (request.expected_hmac_digest == response) _ _
            (λ d.
              success-Outcome request f (eq_of_== request.expected_hmac_digest response d) _ refl)
            λ d.
              attempt-Outcome request f
                (record {
                  invitation = invitation;
                  is_new = n;
                  unexpired = x;
                  below_limit = l;
                  found_invitation = v;
                  unused = ground (arith, free);
                  unrevoked = ground (arith, free);
                })
                d _ refl

  request-Outcome :
      (request : AdoptionRequest)
      → first (λ r. r.id == request_id) db.requests ≡ some request
      → Outcome (complete_request c now request response credential fresh db)
  unfolding complete_request
  request-Outcome request f =
      subst
        (λ k. Outcome (
          if is_some request.completed_at
          then committed db (replay_successful_completion c now k response credential db)
          else if leb request.expires_at now
          then (err (tablet_error adoption_request_expired), db)
          else if leb max_failed_attempts request.failed_attempt_count
          then (err (tablet_error adoption_attempt_limit_reached), db)
          else elim (first (λ v. v.id == request.invitation_id) db.invitations) [
            | none ↦ (err (tablet_error invalid_request), db)
            | some invitation ↦
                if is_some invitation.used_at || is_some invitation.revoked_at
                then (err (tablet_error invitation_invalid), db)
                else if request.expected_hmac_digest == response
                then committed db (complete_successful_adoption c now k credential fresh db)
                else elim (record_failed_attempt now k db) [
                  | ok r ↦ (err (tablet_error adoption_proof_invalid), r.1)
                  | err e ↦ (err e, db)
                ]
          ]))
        (sym (eq_of_== request.id request_id (first_sound (λ r. r.id == request_id) db.requests f)))
        (Outcome-if (is_some request.completed_at) _ _ (λ _. replay-Outcome _ refl)
          λ n.
            Outcome-if (leb request.expires_at now) _ _ (λ _. refused _)
              λ x.
                Outcome-if (leb max_failed_attempts request.failed_attempt_count) _ _
                  (λ _. refused _) λ l. invitation-Outcome request f n x l _ refl)

  found-Outcome :
      (found : Option AdoptionRequest)
      → first (λ r. r.id == request_id) db.requests ≡ found
      → Outcome (elim found [
        | none ↦ (err does_not_exist, db)
        | some request ↦ complete_request c now request response credential fresh db
      ])
  found-Outcome none f = refused does_not_exist
  found-Outcome (some request) f = request-Outcome request f

  pub complete_adoption-Outcome :
      (confirmed : Bool)
      → Outcome (complete_adoption c now request_id response confirmed credential fresh db)
  unfolding complete_adoption
  complete_adoption-Outcome confirmed =
      Outcome-if (not confirmed) _ _ (λ _. refused _) λ _. found-Outcome _ refl
