-- ===== src/Tablets/Adoption/Attempts.antt =====
-- Wrong proofs: they are counted, and at the limit the invitation is revoked.
use fire_dash_server.Prelude.{
  ℕ, ◌+◌, ◌≤◌, ◌≡◌, refl, sym, subst, ap, ◌∙◌, Bool, true, false, List, arith, ◌==◌, count, first,
  update, some, ok, err, is_some, Result, leb, All, if◌then◌else◌, eq_of_==, ==_refl, select, none,
  ◌∷◌,
}
use fire_dash_server.Prelude.TableLaws.{
  first-update, first_sound, count-update_same, All-update_at, All-map, All-unique, All-of,
}
use fire_dash_server.Tablets.Models.{
  proof_failed, AppInstallation, AdoptionRequest, AdoptionInvitation,
}
use fire_dash_server.Tablets.Store.{Db, Error, steps, tablet_error, adoption_proof_invalid}
use fire_dash_server.Tablets.Challenge.{Crypto, max_failed_attempts, record_failed_attempt}
use fire_dash_server.Tablets.Lifecycle.Frames.{revoke_grants_of_all_frame}
use fire_dash_server.Tablets.Adoption.{
  complete_request, complete_adoption, replay_successful_completion, is_replaced_of,
}
use fire_dash_server.Tablets.Adoption.Effects.{
  Adopted, adopted_rows, complete_successful_adoption_effect,
}
use fire_dash_server.Tablets.Adoption.Outcomes.{
  IsOpen, Outcome, complete_adoption-Outcome, refused, replayed, adopted, counted,
}

-- Within the limit, and revoked once it is reached.
pub record IsLimited (v : AdoptionInvitation) : Type 0 where
  pub within : v.failed_attempt_count ≤ max_failed_attempts
  pub stopped : leb max_failed_attempts v.failed_attempt_count ≡ true → is_some v.revoked_at ≡ true

pub record InvitationsOk (vs : List AdoptionInvitation) : Type 0 where
  pub unique : (pk : ℕ) → count (λ v. v.id == pk) vs ≤ 1
  pub limited : All IsLimited vs

abbrev pub counted_request : AdoptionRequest → AdoptionRequest
counted_request r = record r { failed_attempt_count = r.failed_attempt_count + 1 }

abbrev pub counted_invitation : ℕ → AdoptionInvitation → AdoptionInvitation
counted_invitation now v = record v {
  failed_attempt_count = v.failed_attempt_count + 1;
  revoked_at =
      if leb max_failed_attempts (v.failed_attempt_count + 1) then some now else v.revoked_at;
}

-- The state after a wrong proof of an open request.
pub counted_state :
    (now pk : ℕ) (request : AdoptionRequest) (db : Db) {db' : Db}
    → first (λ r. r.id == pk) db.requests ≡ some request
    → (o : IsOpen now request db) → record_failed_attempt now pk db ≡ ok (tt, db')
    → db' ≡ record db {
      requests = update (λ r. r.id == pk) counted_request db.requests;
      invitations = update (λ v. v.id == o.invitation.id) (counted_invitation now) db.invitations;
      events = db'.events;
    }
unfolding steps record_failed_attempt
counted_state now pk request db f o h =
    let a = o.is_new in let b = o.unexpired in let v = o.found_invitation in ground arith

InvitationsOk-update :
    (pk : ℕ) (f : AdoptionInvitation → AdoptionInvitation) (vs : List AdoptionInvitation)
    → ((v : AdoptionInvitation) → (f v).id ≡ v.id)
    → All (λ v. (v.id == pk) ≡ true → IsLimited v → IsLimited (f v)) vs
    → InvitationsOk vs
    → InvitationsOk (update (λ v. v.id == pk) f vs)
InvitationsOk-update pk f vs keep h k = record {
  unique = λ j.
      rw (count-update_same (λ v. v.id == j) (λ v. v.id == pk) f (λ x. rw (keep x) refl) vs)
        (k.unique j);
  limited = All-update_at IsLimited (λ v. v.id == pk) f vs h k.limited;
}

IsLimited-after :
    (now : ℕ) (v : AdoptionInvitation)
    → is_some v.revoked_at ≡ false
    → IsLimited v
    → IsLimited (counted_invitation now v)
IsLimited-after now v r l = record {
  within = ground (arith, l.within, l.stopped);
  stopped = λ h. ground arith;
}

module _ (c : Crypto) (now pk response credential fresh : ℕ) (db : Db) where
  replay_invitations :
      {p : AppInstallation × ℕ} {db' : Db}
      → replay_successful_completion c now pk response credential db ≡ ok (p, db')
      → db'.invitations ≡ db.invitations
  unfolding steps replay_successful_completion
  replay_invitations h = ground arith

  Adopted-invitations :
      {db' : Db}
      → (a : Adopted c now pk credential fresh db db')
      → db'.invitations
        ≡ update
            (λ v. v.id == a.invitation.id)
            (λ v. record v { used_at = some now })
            db.invitations
  Adopted-invitations a =
      let rows : List AppInstallation = adopted_rows a.installation a.tablet.id db.installations in
      ap (λ d. d.invitations) a.state
      ∙ ap
          (λ d.
            update (λ v. v.id == a.invitation.id) (λ v. record v { used_at = some now })
              d.invitations)
          (revoke_grants_of_all_frame now (select (is_replaced_of a.tablet.id) rows)
            (record db { installations = rows }))

  invitation_id :
      (request : AdoptionRequest) (o : IsOpen now request db)
      → o.invitation.id ≡ request.invitation_id
  invitation_id request o =
      eq_of_== o.invitation.id request.invitation_id
        (first_sound (λ v. v.id == request.invitation_id) db.invitations o.found_invitation)

  counted_ok :
      (request : AdoptionRequest) (o : IsOpen now request db)
      → InvitationsOk db.invitations
      → InvitationsOk
          (update (λ v. v.id == o.invitation.id) (counted_invitation now) db.invitations)
  counted_ok request o k =
      InvitationsOk-update o.invitation.id (counted_invitation now) db.invitations (λ v. refl)
        (All-map (λ v. (v.id == o.invitation.id) ≡ true → v ≡ o.invitation)
          (λ v.
            (v.id == o.invitation.id) ≡ true → IsLimited v → IsLimited (counted_invitation now v))
          (λ v same e l.
            IsLimited-after now v (ap (λ x. is_some x.revoked_at) (same e) ∙ o.unrevoked) l)
          db.invitations
          (All-unique (λ v. v.id == o.invitation.id) db.invitations (k.unique o.invitation.id)
            (subst (λ j. first (λ v. v.id == j) db.invitations ≡ some o.invitation)
              (sym (invitation_id request o)) o.found_invitation)))
        k

  Outcome-InvitationsOk :
      {r : Result Error (AppInstallation × ℕ) × Db}
      → Outcome c now pk response credential fresh db r
      → InvitationsOk db.invitations
      → InvitationsOk r.1.invitations
  Outcome-InvitationsOk (refused e) k = k
  Outcome-InvitationsOk (replayed p s h) k = rw (replay_invitations h) k
  Outcome-InvitationsOk (adopted request p s f d h) k =
      let a = complete_successful_adoption_effect c now pk credential fresh db h in
      rw (Adopted-invitations a) (
        InvitationsOk-update a.invitation.id (λ v. record v { used_at = some now }) db.invitations
          (λ v. refl)
          (All-of
            (λ v.
              (v.id == a.invitation.id) ≡ true
              → IsLimited v
              → IsLimited (record v { used_at = some now }))
            (λ v e l. record { within = l.within; stopped = l.stopped }) db.invitations)
          k)
  Outcome-InvitationsOk (counted request s f o d h) k =
      rw (ap (λ x. x.invitations) (counted_state now pk request db f o h)) (counted_ok request o k)

  -- If invitations have unique keys, count at most five wrong proofs each, and are revoked where they
  -- count five, then so it is after `complete_adoption`, whatever it is given and however it ends.
  pub complete_adoption-InvitationsOk :
      (confirmed : Bool)
      → InvitationsOk db.invitations
      → InvitationsOk
          (complete_adoption c now pk response confirmed credential fresh db).1.invitations
  complete_adoption-InvitationsOk confirmed =
      Outcome-InvitationsOk
        (complete_adoption-Outcome c now pk response credential fresh db confirmed)

  wrong_state :
      (request : AdoptionRequest) (o : IsOpen now request db)
      → first (λ r. r.id == pk) db.requests ≡ some request
      → (request.expected_hmac_digest == response) ≡ false
      → complete_adoption c now pk response true credential fresh db ≡ (
        err (tablet_error adoption_proof_invalid),
        record db {
          requests = update (λ r. r.id == pk) counted_request db.requests;
          invitations =
              update (λ v. v.id == o.invitation.id) (counted_invitation now) db.invitations;
          events =
              record { action = proof_failed; actor = none; target_uuid = request.id } ∷ db.events;
        },
      )
  unfolding steps complete_adoption complete_request record_failed_attempt
  wrong_state request o f w =
      let same : request.id ≡ pk =
        eq_of_== request.id pk (first_sound (λ r. r.id == pk) db.requests f) in
      let a = o.is_new in
      let b = o.unexpired in
      let l = o.below_limit in
      let v = o.found_invitation in let u = o.unused in let n = o.unrevoked in ground arith

  -- How `complete_adoption` refuses a wrong proof of an open request.
  pub record IsCounted (request : AdoptionRequest) (v : AdoptionInvitation)
      (r : Result Error (AppInstallation × ℕ) × Db) : Type 0 where
    pub refusal : r.0 ≡ err (tablet_error adoption_proof_invalid)
    pub in_request : first (λ x. x.id == pk) r.1.requests ≡ some (counted_request request)
    pub in_invitation : first (λ x. x.id == v.id) r.1.invitations ≡ some (counted_invitation now v)
    pub installations : r.1.installations ≡ db.installations
    pub grants : r.1.dataset_grants ≡ db.dataset_grants

  -- Where a request is open (found, neither completed nor expired nor at its limit, its invitation
  -- neither used nor revoked) and a confirmed completion brings a wrong proof, then the proof is
  -- refused and counted in the request and in the invitation, which is revoked at the limit, with the
  -- installations and dataset grants as before.
  pub complete_adoption-wrong :
      (request : AdoptionRequest) (o : IsOpen now request db)
      → first (λ r. r.id == pk) db.requests ≡ some request
      → (request.expected_hmac_digest == response) ≡ false
      → IsCounted request o.invitation
          (complete_adoption c now pk response true credential fresh db)
  complete_adoption-wrong request o f w =
      let e = wrong_state request o f w in
      record {
        refusal = ap (λ r. r.0) e;
        in_request =
            ap (λ r. first (λ x. x.id == pk) r.1.requests) e
            ∙ first-update (λ x. x.id == pk) (λ x. x.id == pk) counted_request (λ x. refl)
                db.requests
            ∙ rw (f, first_sound (λ x. x.id == pk) db.requests f) refl;
        in_invitation =
            ap (λ r. first (λ x. x.id == o.invitation.id) r.1.invitations) e
            ∙ first-update (λ x. x.id == o.invitation.id) (λ x. x.id == o.invitation.id)
                (counted_invitation now) (λ x. refl) db.invitations
            ∙ rw
                (
                  subst (λ j. first (λ v. v.id == j) db.invitations ≡ some o.invitation)
                      (sym (invitation_id request o)) o.found_invitation,
                  ==_refl o.invitation.id,
                )
                refl;
        installations = ap (λ r. r.1.installations) e;
        grants = ap (λ r. r.1.dataset_grants) e;
      }
