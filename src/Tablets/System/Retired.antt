-- ===== src/Tablets/System/Retired.antt =====
-- RETIRED is final.
use fire_dash_server.Prelude.{
  ℕ, ◌≡◌, refl, sym, subst, ap, ◌∙◌, inl, inr, Bool, true, false, List, ◌∷◌, arith, ◌==◌, eq_of_==,
  count, first, update, select, some, Bool-cases, Result,
}
use fire_dash_server.Prelude.TableLaws.{first-update, first_sound, first_counted, All-first}
use mathlib.Core.Option.{some-injective as some_inj}
use fire_dash_server.Tablets.Models.{Tablet, TabletStatus, AppInstallation}
use fire_dash_server.Tablets.Store.{Db, Error}
use fire_dash_server.Tablets.Lifecycle.{asset_transition, is_current_of}
use fire_dash_server.Tablets.Lifecycle.Effects.{
  Moved, move_tablet, activate_tablet_effect, deactivate_tablet_effect, recover_tablet_effect,
  mark_tablet_lost_effect, retire_tablet_effect,
}
use fire_dash_server.Tablets.Lifecycle.Frames.{
  withdraw_access_frame, revoke_tablet_installations_frame,
}
use fire_dash_server.Tablets.Registration.Effects.{create_tablet-Registered, Registered}
use fire_dash_server.Tablets.Challenge.{Crypto}
use fire_dash_server.Tablets.CheckIn.Kept.{check_in-Kept, refresh-Kept}
use fire_dash_server.Tablets.CheckIn.Sweep.{mark_stale_installations-Kept}
use fire_dash_server.Tablets.Adoption.Effects.{complete_successful_adoption_effect}
use fire_dash_server.Tablets.Adoption.Outcomes.{
  Outcome, complete_adoption-Outcome, refused, replayed, adopted, counted,
}
use fire_dash_server.Tablets.Invariant.{TabletOk, is_in_service}
use fire_dash_server.Tablets.Invariant.Services.{IsConsistent, revoke_installation_effect}
use fire_dash_server.Tablets.Invariant.Adoption.{
  create_adoption_invitation_core, initiate_installation_replacement_core,
  create_adoption_request_core, replay_rows, adopted_core, record_failed_attempt_core,
}
use fire_dash_server.Tablets.System.{
  Step, Reach, created, activated, deactivated, lost, recovered, retired, revoked, invited,
  replacing, requested, completed, checked_in, refreshed, swept, here, after, Reach-IsConsistent,
}

-- The tablet `pk` is retired.
pub record IsRetiredAt (pk : ℕ) (ts : List Tablet) : Type 0 where
  pub tablet : Tablet
  pub found : first (λ t. t.id == pk) ts ≡ some tablet
  pub final : tablet.status ≡ TabletStatus.retired

abbrev moved_row : TabletStatus → Bool → Tablet → Tablet
moved_row to flag t = record t { status = to; is_active = flag }

not_from_retired : (to : TabletStatus) → asset_transition TabletStatus.retired to ≡ false
unfolding asset_transition
not_from_retired to = ground arith

Moved-IsRetiredAt :
    (pk key : ℕ) (to : TabletStatus) (flag : Bool) (change : Db → Db) (db db' : Db)
    → (change db).tablets ≡ update (λ t. t.id == key) (moved_row to flag) db.tablets
    → Moved key to change db db'
    → IsRetiredAt pk db.tablets
    → IsRetiredAt pk db'.tablets
Moved-IsRetiredAt pk key to flag change db db' c m r =
    let sound : (r.tablet.id == pk) ≡ true = first_sound (λ t. t.id == pk) db.tablets r.found in
    let same : r.tablet.id ≡ pk = eq_of_== r.tablet.id pk sound in
    elim (Bool-cases (r.tablet.id == key)) [
      | inl e ↦
          let at : pk ≡ key = sym same ∙ eq_of_== r.tablet.id key e in
          let row : r.tablet ≡ m.tablet = some_inj _ _ (
            sym r.found
            ∙ subst (λ k. first (λ t. t.id == k) db.tablets ≡ some m.tablet) (sym at) m.found) in
          absurd (ground (arith, not_from_retired to, m.allowed, r.final))
      | inr e ↦ record {
        tablet = r.tablet;
        found =
            ap (λ d. first (λ t. t.id == pk) d.tablets) m.state
            ∙ ap (first (λ t. t.id == pk)) c
            ∙ first-update (λ t. t.id == pk) (λ t. t.id == key) (moved_row to flag) (λ t. refl)
                db.tablets
            ∙ rw (r.found, e) refl;
        final = r.final;
      }
    ]

same-IsRetiredAt : (pk : ℕ) (ts us : List Tablet) → us ≡ ts → IsRetiredAt pk ts → IsRetiredAt pk us
same-IsRetiredAt pk ts us e r = rw e r

registered-IsRetiredAt :
    (pk : ℕ) (t : Tablet) (ts : List Tablet)
    → count (λ r. r.id == t.id) ts ≡ 0
    → IsRetiredAt pk ts
    → IsRetiredAt pk (t ∷ ts)
registered-IsRetiredAt pk t ts new r = elim (Bool-cases (t.id == pk)) [
  | inl e ↦ absurd (
      omega (
        arith,
        first_counted (λ x. x.id == pk) ts r.found,
        subst (λ k. count (λ x. x.id == k) ts ≡ 0) (eq_of_== t.id pk e) new,
      ))
  | inr e ↦ record { tablet = r.tablet; found = rw e r.found; final = r.final }
]

module _ (c : Crypto) (pk : ℕ) where
  Outcome-IsRetiredAt :
      (now key response credential fresh : ℕ) (db : Db)
      {r : Result Error (AppInstallation × ℕ) × Db}
      → Outcome c now key response credential fresh db r
      → IsRetiredAt pk db.tablets
      → IsRetiredAt pk r.1.tablets
  Outcome-IsRetiredAt now key response credential fresh db (refused e) k = k
  Outcome-IsRetiredAt now key response credential fresh db (replayed p s h) k =
      same-IsRetiredAt pk db.tablets s.tablets (replay_rows c now db key response credential h).0 k
  Outcome-IsRetiredAt now key response credential fresh db (adopted request p s f d h) k =
      same-IsRetiredAt pk db.tablets s.tablets
        (adopted_core c now db key credential fresh
          (complete_successful_adoption_effect c now key credential fresh db h)).0
        k
  Outcome-IsRetiredAt now key response credential fresh db (counted request s f o d h) k =
      same-IsRetiredAt pk db.tablets s.tablets (record_failed_attempt_core now key db h).0 k

  Step-IsRetiredAt :
      (db db' : Db)
      → Step c db db'
      → IsConsistent db
      → IsRetiredAt pk db.tablets
      → IsRetiredAt pk db'.tablets
  Step-IsRetiredAt db _ (created now actor d name number fresh t db' new h) k r =
      let g : Registered actor d name number fresh db t db' =
        create_tablet-Registered now actor d name number fresh db h in
      same-IsRetiredAt pk (t ∷ db.tablets) db'.tablets g.tablets (
        registered-IsRetiredAt pk t db.tablets
          (subst (λ n. count (λ x. x.id == n) db.tablets ≡ 0) (sym (ap (λ x. x.id) g.made)) new) r)
  Step-IsRetiredAt db _ (activated now actor key t db' h) k r =
      Moved-IsRetiredAt pk key TabletStatus.active true (move_tablet key TabletStatus.active true)
        db db' refl (activate_tablet_effect now actor key db h) r
  Step-IsRetiredAt db _ (deactivated now actor key t db' h) k r =
      Moved-IsRetiredAt pk key TabletStatus.inactive true _ db db'
        (ap (λ d. (move_tablet key TabletStatus.inactive true d).tablets)
          (withdraw_access_frame now (select (is_current_of key) db.installations) db))
        (deactivate_tablet_effect now actor key db h) r
  Step-IsRetiredAt db _ (lost now actor key reason t db' h) k r =
      Moved-IsRetiredAt pk key TabletStatus.lost false _ db db'
        (ap (update (λ t. t.id == key) (moved_row TabletStatus.lost false))
          (revoke_tablet_installations_frame now key reason db).0)
        (mark_tablet_lost_effect now actor key db reason h) r
  Step-IsRetiredAt db _ (recovered now actor key t db' h) k r =
      Moved-IsRetiredAt pk key TabletStatus.inactive true
        (move_tablet key TabletStatus.inactive true) db db' refl
        (recover_tablet_effect now actor key db h) r
  Step-IsRetiredAt db _ (retired now actor key reason t db' h) k r =
      Moved-IsRetiredAt pk key TabletStatus.retired false _ db db'
        (ap (update (λ t. t.id == key) (moved_row TabletStatus.retired false))
          (revoke_tablet_installations_frame now key reason db).0)
        (retire_tablet_effect now actor key db reason h) r
  Step-IsRetiredAt db _ (revoked now actor key reason i db' h) k r =
      same-IsRetiredAt pk db.tablets db'.tablets
        (revoke_installation_effect now actor key reason db h).0 r
  Step-IsRetiredAt db _ (invited now actor key expires_at token fresh v db' h) k r =
      same-IsRetiredAt pk db.tablets db'.tablets
        (create_adoption_invitation_core c now db actor key expires_at token fresh h).0 r
  Step-IsRetiredAt db _ (replacing now actor key expires_at token fresh v db' h) k r =
      same-IsRetiredAt pk db.tablets db'.tablets
        (initiate_installation_replacement_core c now db actor key expires_at token fresh h).0 r
  Step-IsRetiredAt db _ (requested now p nonce fresh q db' h) k r =
      same-IsRetiredAt pk db.tablets db'.tablets
        (create_adoption_request_core c now db p nonce fresh h).0 r
  Step-IsRetiredAt db _ (completed now key response confirmed credential fresh new) k r =
      Outcome-IsRetiredAt now key response credential fresh db
        (complete_adoption-Outcome c now key response credential fresh db confirmed) r
  Step-IsRetiredAt db _ (checked_in now key credential t i db' h) k r =
      same-IsRetiredAt pk db.tablets db'.tablets
        (ap (λ d. d.tablets) (check_in-Kept c now key credential t db (k.unique key) h).others) r
  Step-IsRetiredAt db _ (refreshed now key credential t i db' h) k r =
      same-IsRetiredAt pk db.tablets db'.tablets
        (ap (λ d. d.tablets) (refresh-Kept c now key credential t db (k.unique key) h).others) r
  Step-IsRetiredAt db _ (swept now n db' h) k r =
      same-IsRetiredAt pk db.tablets db'.tablets
        (ap (λ d. d.tablets) (mark_stale_installations-Kept now db k.unique h).others) r

  follow :
      (db db' : Db)
      → Reach c db db'
      → IsConsistent db
      → IsRetiredAt pk db.tablets
      → IsRetiredAt pk db'.tablets
  follow db _ here k r = r
  follow db _ (after mid last h s) k r =
      Step-IsRetiredAt mid last s (Reach-IsConsistent c db mid h k) (follow db mid h k r)

  -- From a state whose tablet tables are well-formed, a tablet that is RETIRED is RETIRED after every
  -- sequence of runs of the services, and then has no installation in service.
  pub Reach-IsRetiredAt :
      (db db' : Db)
      → Reach c db db'
      → IsConsistent db
      → IsRetiredAt pk db.tablets
      → IsRetiredAt pk db'.tablets × (count (is_current_of pk) db'.installations ≡ 0)
  Reach-IsRetiredAt db db' h k r =
      let last : IsRetiredAt pk db'.tablets = follow db db' h k r in
      let consistent : IsConsistent db' = Reach-IsConsistent c db db' h k in
      let row : TabletOk db'.installations last.tablet =
        All-first (TabletOk db'.installations) (λ t. t.id == pk) db'.tablets consistent.tablets_ok
          last.found in
      (
        last,
        subst (λ n. count (is_current_of n) db'.installations ≡ 0)
            (eq_of_== last.tablet.id pk (first_sound (λ t. t.id == pk) db'.tablets last.found))
            (row.withdrawn (ap is_in_service last.final)),
      )
