-- ===== src/Tablets/Lifecycle/Withdrawal.antt =====
-- What taking a tablet out of service withdraws from its installations.
use fire_dash_server.Prelude.{
  ℕ, ◌≡◌, refl, ap, ◌∙◌, ◌⊎◌, inl, inr, Bool, true, false, ◌&&◌, List, arith, ◌==◌, count, select,
  first, update, some, ok, is_none,
}
use fire_dash_server.Prelude.TableLaws.{count-update_none}
use fire_dash_server.Tablets.Models.{
  Text, Tablet, TabletStatus, AppInstallation, AdoptionInvitation, User,
}
use fire_dash_server.Tablets.Store.{Db}
use fire_dash_server.Tablets.Lifecycle.{
  asset_transition, is_current_of, is_revoked_of, revoke_tablet_installations, deactivate_tablet,
  mark_tablet_lost, recover_tablet, retire_tablet,
}
use fire_dash_server.Tablets.Lifecycle.Frames.{
  withdrawn_rows, revoked_row, revoke_tablet_installations_frame, withdraw_access_frame,
}
use fire_dash_server.Tablets.Lifecycle.Grants.{
  NoGrants, is_standing_for, revoke_grants_of_all-NoGrants, withdraw_access-NoGrants,
}
use fire_dash_server.Tablets.Lifecycle.Effects.{
  Moved, move_tablet, deactivate_tablet_effect, mark_tablet_lost_effect, recover_tablet_effect,
  retire_tablet_effect,
}

-- An invitation of the tablet that could still be used.
abbrev pub is_open_of : ℕ → AdoptionInvitation → Bool
is_open_of tablet_id v = v.tablet_id == tablet_id && is_none v.used_at && is_none v.revoked_at

-- The tablet `pk` had a status that may become `to`, has it now, with the flag `active` off; it has
-- no installation in service, its revoked installations have no live key grant, and it has no open
-- invitation.
pub record IsWithdrawn (pk : ℕ) (to : TabletStatus) (db db' : Db) : Type 0 where
  pub tablet : Tablet
  pub found : first (λ t. t.id == pk) db.tablets ≡ some tablet
  pub allowed : asset_transition tablet.status to ≡ true
  pub moved :
      db'.tablets
      ≡ update (λ t. t.id == pk) (λ t. record t { status = to; is_active = false }) db.tablets
  pub no_current : count (is_current_of pk) db'.installations ≡ 0
  pub no_grants : NoGrants (select (is_revoked_of pk) db'.installations) db'
  pub no_invitations : count (is_open_of pk) db'.invitations ≡ 0

revoke_tablet_installations-NoGrants :
    (now pk : ℕ) (reason : Text) (db : Db)
    → NoGrants
        (select (is_revoked_of pk) (withdrawn_rows now pk reason db.installations))
        (revoke_tablet_installations now pk reason db)
unfolding revoke_tablet_installations
revoke_tablet_installations-NoGrants now pk reason db =
    revoke_grants_of_all-NoGrants now
      (select (is_revoked_of pk) (withdrawn_rows now pk reason db.installations)) _

Moved-IsWithdrawn :
    (now pk : ℕ) (reason : Text) (to : TabletStatus) (db db' : Db)
    → Moved pk to
        (λ d. move_tablet pk to false (revoke_tablet_installations now pk reason d))
        db
        db'
    → IsWithdrawn pk to db db'
Moved-IsWithdrawn now pk reason to db db' m =
    let (t, i, v) = revoke_tablet_installations_frame now pk reason db in
    let rows : db'.installations ≡ withdrawn_rows now pk reason db.installations =
      ap (λ d. d.installations) m.state ∙ i in
    let grants = revoke_tablet_installations-NoGrants now pk reason db in
    record {
      tablet = m.tablet;
      found = m.found;
      allowed = m.allowed;
      moved =
          ap (λ d. d.tablets) m.state
          ∙ ap (update (λ t. t.id == pk) (λ t. record t { status = to; is_active = false })) t;
      no_current =
          ap (count (is_current_of pk)) rows
          ∙ count-update_none (is_current_of pk) (is_current_of pk) (revoked_row now reason)
              (λ x h. h) (λ x h. ground arith) db.installations;
      no_grants =
          rw (rows, ap (λ d. d.dataset_grants) m.state, ap (λ d. d.document_grants) m.state) grants;
      no_invitations =
          ap (count (is_open_of pk)) (ap (λ d. d.invitations) m.state ∙ v)
          ∙ count-update_none (is_open_of pk) (is_open_of pk)
              (λ v. record v { revoked_at = some now }) (λ x h. h) (λ x h. ground arith)
              db.invitations;
    }

module _ (now : ℕ) (actor : User) (pk : ℕ) (reason : Text) (db : Db) {t : Tablet} {db' : Db} where
  -- Where `mark_tablet_lost` returns, the tablet was INACTIVE or ACTIVE and is LOST, and everything
  -- by which its installations could act is withdrawn, as `IsWithdrawn` says.
  pub mark_tablet_lost-IsWithdrawn :
      mark_tablet_lost now actor pk reason db ≡ ok (t, db')
      → IsWithdrawn pk TabletStatus.lost db db'
  mark_tablet_lost-IsWithdrawn h =
      Moved-IsWithdrawn now pk reason TabletStatus.lost db db'
        (mark_tablet_lost_effect now actor pk db reason h)

  -- Where `retire_tablet` returns, the tablet was INACTIVE or ACTIVE and is RETIRED, and everything
  -- by which its installations could act is withdrawn, as `IsWithdrawn` says.
  pub retire_tablet-IsWithdrawn :
      retire_tablet now actor pk reason db ≡ ok (t, db')
      → IsWithdrawn pk TabletStatus.retired db db'
  retire_tablet-IsWithdrawn h =
      Moved-IsWithdrawn now pk reason TabletStatus.retired db db'
        (retire_tablet_effect now actor pk db reason h)

recoverable :
    (s : TabletStatus)
    → asset_transition s TabletStatus.inactive ≡ true
    → (s ≡ TabletStatus.lost) ⊎ (s ≡ TabletStatus.active)
unfolding asset_transition
recoverable TabletStatus.inactive k = absurd (ground arith)
recoverable TabletStatus.active k = inr refl
recoverable TabletStatus.lost k = inl refl
recoverable TabletStatus.retired k = absurd (ground arith)

module _ (now : ℕ) (actor : User) (pk : ℕ) (db : Db) {t : Tablet} {db' : Db} where
  -- Where `deactivate_tablet` returns, the tablet is INACTIVE, its installations and invitations are
  -- as before, and the installations that it has in service have no live key grant of either kind
  -- and no manifest that is not obsolete.
  pub deactivate_tablet-cut :
      deactivate_tablet now actor pk db ≡ ok (t, db')
      → (db'.tablets
          ≡ update
              (λ t. t.id == pk)
              (λ t. record t { status = TabletStatus.inactive; is_active = true })
              db.tablets)
        × (db'.installations ≡ db.installations)
        × (db'.invitations ≡ db.invitations)
        × NoGrants (select (is_current_of pk) db'.installations) db'
        × (count (is_standing_for (select (is_current_of pk) db'.installations)) db'.manifests ≡ 0)
  deactivate_tablet-cut h =
      let m = deactivate_tablet_effect now actor pk db h in
      let is : List AppInstallation = select (is_current_of pk) db.installations in
      let f = withdraw_access_frame now is db in
      let (grants, manifests) = withdraw_access-NoGrants now is db in
      let rows : db'.installations ≡ db.installations =
        ap (λ d. d.installations) m.state ∙ ap (λ d. d.installations) f in
      (
        ap (λ d. d.tablets) m.state
            ∙ ap (λ d. (move_tablet pk TabletStatus.inactive true d).tablets) f,
        rows,
        ap (λ d. d.invitations) m.state ∙ ap (λ d. d.invitations) f,
        rw (rows, ap (λ d. d.dataset_grants) m.state, ap (λ d. d.document_grants) m.state) grants,
        rw (rows, ap (λ d. d.manifests) m.state) manifests,
      )

  -- Where `recover_tablet` returns, the tablet was LOST or ACTIVE (the service does not ask that it was
  -- LOST) and is INACTIVE, and no installation, key grant, manifest or invitation has changed: an ACTIVE
  -- tablet that is recovered keeps what `deactivate_tablet` would have withdrawn.
  pub recover_tablet-keeps :
      recover_tablet now actor pk db ≡ ok (t, db')
      → ((r : Tablet) × (first (λ t. t.id == pk) db.tablets ≡ some r)
          × ((r.status ≡ TabletStatus.lost) ⊎ (r.status ≡ TabletStatus.active)))
        × (db'.tablets
            ≡ update
                (λ t. t.id == pk)
                (λ t. record t { status = TabletStatus.inactive; is_active = true })
                db.tablets)
        × (db'.installations ≡ db.installations)
        × (db'.dataset_grants ≡ db.dataset_grants)
        × (db'.document_grants ≡ db.document_grants)
        × (db'.manifests ≡ db.manifests)
        × (db'.invitations ≡ db.invitations)
  recover_tablet-keeps h =
      let m = recover_tablet_effect now actor pk db h in
      (
        (m.tablet, m.found, recoverable m.tablet.status m.allowed),
        ap (λ d. d.tablets) m.state,
        ap (λ d. d.installations) m.state,
        ap (λ d. d.dataset_grants) m.state,
        ap (λ d. d.document_grants) m.state,
        ap (λ d. d.manifests) m.state,
        ap (λ d. d.invitations) m.state,
      )
