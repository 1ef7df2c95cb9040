-- ===== src/Tablets/Adoption/Handover.antt =====
-- What an adoption does to the installations of its tablet.
use fire_dash_server.Prelude.{
  ℕ, ◌⊎◌, inl, inr, ◌≡◌, refl, sym, subst, ap, ◌∙◌, Bool, true, false, List, ◌∷◌, arith, ◌==◌, ◌+◌,
  ◌<◌, leb, eq_of_==, Option-cases, or_raise, count, select, first, update, some, ok, is_some,
  ==_refl, Result,
}
use mathlib.Core.Option.{some-injective as some_inj}
use fire_dash_server.Prelude.TableLaws.{first_sound}
use fire_dash_server.Tablets.Models.{
  AppInstallation, is_current, AdoptionRequest, AdoptionInvitation,
}
use fire_dash_server.Tablets.Lifecycle.Frames.{revoke_grants_of_all_frame}
use fire_dash_server.Tablets.Store.{Db, Error, steps}
use fire_dash_server.Tablets.Lifecycle.{is_current_of}
use fire_dash_server.Tablets.Lifecycle.Grants.{NoGrants, revoke_grants_of_all-NoGrants}
use fire_dash_server.Tablets.Challenge.{Crypto, max_failed_attempts}
use fire_dash_server.Tablets.Adoption.{
  is_replaced_of, is_replayable, completion_replay_duration, complete_adoption,
  replay_successful_completion,
}
use fire_dash_server.Tablets.Adoption.Effects.{
  Adopted, adopted_rows, replaced_row, complete_successful_adoption_result,
}
use fire_dash_server.Tablets.Invariant.{count-adopted_rows}
use fire_dash_server.Tablets.Invariant.Adoption.{adopted_core}
use fire_dash_server.Tablets.Reads.{gets-bind, get_request-bind, get_invitation-bind}
use fire_dash_server.Tablets.Adoption.Outcomes.{
  Outcome, complete_adoption-Outcome, refused, replayed, adopted, counted,
}

abbrev pub completed_request : ℕ → AdoptionRequest → AdoptionRequest
completed_request now r = record r {
  completed_at = some now;
  completion_replay_valid_until = some (now + completion_replay_duration);
}

abbrev pub used_invitation : ℕ → AdoptionInvitation → AdoptionInvitation
used_invitation now v = record v { used_at = some now }

-- The request was open, and its invitation neither used nor revoked. The new installation is for the
-- invitation's tablet and the request's device. It is the only one of its tablet in service, all that
-- served before are replaced, and no replaced installation of the tablet has a live key grant. The
-- request is completed, and may be replayed for a while; the invitation is used.
pub record IsHandedOver (now : ℕ) (request : AdoptionRequest) (i : AppInstallation) (db db' : Db)
    : Type 0 where
  pub invitation : AdoptionInvitation
  pub found_invitation : first (λ v. v.id == request.invitation_id) db.invitations ≡ some invitation
  pub unused : is_some invitation.used_at ≡ false
  pub unrevoked : is_some invitation.revoked_at ≡ false
  pub is_open : is_some request.completed_at ≡ false
  pub unexpired : now < request.expires_at
  pub below_limit : request.failed_attempt_count < max_failed_attempts
  pub tablet : i.tablet_id ≡ invitation.tablet_id
  pub device : i.installation_uuid ≡ request.installation_uuid
  pub requests : db'.requests ≡ update (λ r. r.id == request.id) (completed_request now) db.requests
  pub invitations :
      db'.invitations ≡ update (λ v. v.id == invitation.id) (used_invitation now) db.invitations
  pub is_new : first (is_current_of i.tablet_id) db'.installations ≡ some i
  pub only : count (is_current_of i.tablet_id) db'.installations ≡ 1
  pub rows :
      db'.installations ≡ i ∷ update (is_current_of i.tablet_id) replaced_row db.installations
  pub no_grants : NoGrants (select (is_replaced_of i.tablet_id) db'.installations) db'

leb-< : (m n : ℕ) → leb m n ≡ false → n < m
leb-< m n h = ground arith

module _ (c : Crypto) (now pk credential fresh : ℕ) (db db' : Db) where
  handed_over :
      (a : Adopted c now pk credential fresh db db')
      → IsHandedOver now a.request a.installation db db'
  handed_over a =
      let same : a.installation.tablet_id ≡ a.tablet.id = ap (λ i. i.tablet_id) a.made in
      let active : is_current a.installation.status ≡ true = ap (λ i. is_current i.status) a.made in
      let rows : db'.installations
          ≡ a.installation
            ∷ update (is_current_of a.installation.tablet_id) replaced_row db.installations =
        subst
          (λ k.
            db'.installations
            ≡ a.installation ∷ update (is_current_of k) replaced_row db.installations)
          (sym same) (adopted_core c now db pk credential fresh a).1 in
      let core = adopted_core c now db pk credential fresh a in
      let rows_at : List AppInstallation =
        adopted_rows a.installation a.tablet.id db.installations in
      let grants : NoGrants (select (is_replaced_of a.tablet.id) db'.installations) db' =
        rw (core.1, ap (λ d. d.dataset_grants) a.state, ap (λ d. d.document_grants) a.state)
          (revoke_grants_of_all-NoGrants now (select (is_replaced_of a.tablet.id) rows_at)
            (record db { installations = rows_at })) in
      let frame =
        revoke_grants_of_all_frame now (select (is_replaced_of a.tablet.id) rows_at)
          (record db { installations = rows_at }) in
      record {
        invitation = a.invitation;
        found_invitation = a.found_invitation;
        unused = a.unused;
        unrevoked = a.unrevoked;
        is_open = a.is_new;
        unexpired = leb-< a.request.expires_at now a.unexpired;
        below_limit = leb-< max_failed_attempts a.request.failed_attempt_count a.below_limit;
        tablet =
            same
            ∙ eq_of_== a.tablet.id a.invitation.tablet_id
                (first_sound (λ t. t.id == a.invitation.tablet_id) db.tablets a.found_tablet);
        device = ap (λ i. i.installation_uuid) a.made;
        requests =
            ap (λ d. d.requests) a.state
            ∙ ap (λ (d : Db). update (λ r. r.id == a.request.id) (completed_request now) d.requests)
                frame;
        invitations =
            ap (λ d. d.invitations) a.state
            ∙ ap
                (λ (d : Db).
                  update (λ v. v.id == a.invitation.id) (used_invitation now) d.invitations)
                frame;
        is_new = rw (rows, ==_refl a.installation.tablet_id, active) refl;
        only =
            rw
              (
                rows,
                ==_refl a.installation.tablet_id,
                active,
                count-adopted_rows db.installations a.installation,
              )
              refl;
        rows = rows;
        no_grants =
            subst (λ k. NoGrants (select (is_replaced_of k) db'.installations) db') (sym same)
              grants;
      }

-- What a replay that returned has checked of its request.
module _ (c : Crypto) (now pk response credential fresh : ℕ) (db : Db) where
  pub record IsReplayed (request : AdoptionRequest) (p : AppInstallation × ℕ) (db' : Db)
      : Type 0 where
    pub invitation : AdoptionInvitation
    pub before : AppInstallation
    pub found_invitation :
        first (λ v. v.id == request.invitation_id) db.invitations ≡ some invitation
    pub unrevoked : is_some invitation.revoked_at ≡ false
    pub completed : is_some request.completed_at ≡ true
    pub in_time : is_replayable now request.completion_replay_valid_until ≡ true
    pub valid : is_some request.completion_replay_invalidated_at ≡ false
    pub digest : request.expected_hmac_digest ≡ response
    pub device :
        first (λ i. i.installation_uuid == request.installation_uuid) db.installations ≡ some before
    pub current : is_current before.status ≡ true
    pub known : p.0 ≡ record before { credential_hash = c.secret_digest credential }
    -- Only the credential of the device is written.
    pub state : db' ≡ record db {
      installations =
          update
            (λ i. i.id == before.id)
            (λ i. record i { credential_hash = c.secret_digest credential })
            db.installations;
      events = db'.events;
    }

  replay_read :
      {p : AppInstallation × ℕ} {db' : Db}
      → replay_successful_completion c now pk response credential db ≡ ok (p, db')
      → (request : AdoptionRequest) × (first (λ r. r.id == pk) db.requests ≡ some request)
        × IsReplayed request p db'
  unfolding replay_successful_completion
  replay_read h =
      let (request, found, h1) = get_request-bind db pk _ h in
      let (invitation, fv, h2) = get_invitation-bind db request.invitation_id _ h1 in
      let h3 = gets-bind db _ _ h2 in
      elim (Option-cases
        (first (λ i. i.installation_uuid == request.installation_uuid) db.installations)) [
          | inl e ↦ absurd (unfold steps in (unfold or_raise in (ground arith)))
          | inr (before, e) ↦ (
            request,
            found,
            unfold steps in
                (unfold or_raise in
                  (record {
                    invitation = invitation;
                    before = before;
                    found_invitation = fv;
                    unrevoked = ground arith;
                    completed = ground arith;
                    in_time = ground arith;
                    valid = ground arith;
                    digest = ground arith;
                    device = e;
                    current = ground arith;
                    known = ground arith;
                    state = ground arith;
                  })),
          )
        ]

  -- Where `complete_adoption` returns a row and a credential, the response is the one that the request
  -- expects and the row knows the credential. Either the request was open and its invitation neither used
  -- nor revoked, and the row is the one new installation in service of the invitation's tablet, for the
  -- request's device, the earlier ones are replaced and have no live key grant, the request is completed
  -- and the invitation used; or the request had been completed and may still be replayed, its invitation
  -- is not revoked, the row is that of its device and in service, and besides events only its credential
  -- is written.
  pub complete_adoption-proof :
      (confirmed : Bool) {p : AppInstallation × ℕ} {db' : Db}
      → complete_adoption c now pk response confirmed credential fresh db ≡ (ok p, db')
      → (request : AdoptionRequest) × (first (λ r. r.id == pk) db.requests ≡ some request)
        × (request.expected_hmac_digest ≡ response)
        × (p.0.credential_hash ≡ c.secret_digest credential)
        × (IsHandedOver now request p.0 db db' ⊎ IsReplayed request p db')
  complete_adoption-proof confirmed {p} {db'} h =
      read _ (complete_adoption-Outcome c now pk response credential fresh db confirmed) h
    where
      read :
          (r : Result Error (AppInstallation × ℕ) × Db)
          → Outcome c now pk response credential fresh db r
          → r ≡ (ok p, db')
          → (request : AdoptionRequest) × (first (λ r. r.id == pk) db.requests ≡ some request)
            × (request.expected_hmac_digest ≡ response)
            × (p.0.credential_hash ≡ c.secret_digest credential)
            × (IsHandedOver now request p.0 db db' ⊎ IsReplayed request p db')
      read _ (refused e) k = absurd (ground arith)
      read _ (replayed q s m) k =
          let (request, found, i) = replay_read m in
          let same : q ≡ p = ground arith in
          let state : s ≡ db' = ground arith in
          (
            request,
            found,
            i.digest,
            ap (λ x. x.0.credential_hash) (sym same) ∙ ap (λ x. x.credential_hash) i.known,
            inr (subst (λ x. IsReplayed request x db') same (subst (IsReplayed request q) state i)),
          )
      read _ (adopted request q s f d m) k =
          let (a, result) = complete_successful_adoption_result c now pk credential fresh db m in
          let same : q ≡ p = ground arith in
          let state : s ≡ db' = ground arith in
          let own : a.request ≡ request = some_inj a.request request (sym a.found_request ∙ f) in
          let row : a.installation ≡ p.0 = ap (λ x. x.0) (sym result ∙ same) in
          (
            request,
            f,
            d,
            ap (λ x. x.credential_hash) (sym row ∙ a.made),
            inl (
                subst (λ x. IsHandedOver now request x db db') row
                  (subst (λ r. IsHandedOver now r a.installation db db') own
                    (subst (IsHandedOver now a.request a.installation db) state
                      (handed_over c now pk credential fresh db s a)))),
          )
      read _ (counted request s f o d m) k = absurd (ground arith)
