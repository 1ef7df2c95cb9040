-- ===== src/Tablets/System.antt =====
-- The tablet services as one system: a step is a run of one service, with whatever arguments, that
-- leaves a state; a new row gets a key that no row has.
pub mod Retired
use fire_dash_server.Prelude.{
  ℕ, ◌≡◌, refl, sym, ap, ◌∙◌, Bool, true, false, List, [], ◌∷◌, arith, ◌==◌, count, ok, Result,
  Option, some, none, ◌≤◌,
}
use fire_dash_server.Tablets.Models.{
  Text, Tablet, AppInstallation, AdoptionInvitation, AdoptionRequest, User, InstallationStatus,
}
use fire_dash_server.Tablets.Store.{Db, Error, steps}
use fire_dash_server.Tablets.Lifecycle.{
  activate_tablet, deactivate_tablet, mark_tablet_lost, recover_tablet, retire_tablet,
  revoke_installation, is_current_of,
}
use fire_dash_server.Tablets.Registration.{create_tablet}
use fire_dash_server.Tablets.Registration.Effects.{create_tablet-Registered, Registered}
use fire_dash_server.Tablets.Challenge.{
  Crypto, Proposal, create_adoption_invitation, initiate_installation_replacement,
  create_adoption_request,
}
use fire_dash_server.Tablets.Adoption.{complete_adoption}
use fire_dash_server.Tablets.CheckIn.{
  Telemetry, check_in, refresh_installation_lease, mark_stale_installations,
}
use fire_dash_server.Tablets.CheckIn.Kept.{check_in-Kept, refresh-Kept}
use fire_dash_server.Tablets.CheckIn.Sweep.{mark_stale_installations-Kept}
use fire_dash_server.Tablets.Rows.{Kept}
use fire_dash_server.Tablets.Invariant.{Consistent, Consistent-Rows, Consistent-register}
use fire_dash_server.Tablets.Invariant.Services.{
  IsConsistent, SameCore-IsConsistent, activate_tablet-IsConsistent, deactivate_tablet-IsConsistent,
  recover_tablet-IsConsistent, mark_tablet_lost-IsConsistent, retire_tablet-IsConsistent,
  revoke_installation-IsConsistent,
}
use fire_dash_server.Tablets.Invariant.Adoption.{
  create_adoption_invitation_core, initiate_installation_replacement_core,
  create_adoption_request_core, complete_adoption-IsConsistent,
}

Kept-IsConsistent : (db db' : Db) → Kept db db' → IsConsistent db → IsConsistent db'
Kept-IsConsistent db db' k c =
    rw (ap (λ d. d.tablets) k.others)
      (Consistent-Rows db.tablets db.installations db'.installations k.rows c)

module _ (c : Crypto) where
  pub data Step (db : Db) : Db → Type 0 where
    created :
        (now : ℕ) (actor : User) (department_id : ℕ) (name number : Text) (fresh : ℕ) (t : Tablet)
        (db' : Db)
        → count (λ r. r.id == fresh) db.tablets ≡ 0
        → create_tablet now actor department_id name number fresh db ≡ ok (t, db')
        → Step db db'
    activated :
        (now : ℕ) (actor : User) (pk : ℕ) (t : Tablet) (db' : Db)
        → activate_tablet now actor pk db ≡ ok (t, db')
        → Step db db'
    deactivated :
        (now : ℕ) (actor : User) (pk : ℕ) (t : Tablet) (db' : Db)
        → deactivate_tablet now actor pk db ≡ ok (t, db')
        → Step db db'
    lost :
        (now : ℕ) (actor : User) (pk : ℕ) (reason : Text) (t : Tablet) (db' : Db)
        → mark_tablet_lost now actor pk reason db ≡ ok (t, db')
        → Step db db'
    recovered :
        (now : ℕ) (actor : User) (pk : ℕ) (t : Tablet) (db' : Db)
        → recover_tablet now actor pk db ≡ ok (t, db')
        → Step db db'
    retired :
        (now : ℕ) (actor : User) (pk : ℕ) (reason : Text) (t : Tablet) (db' : Db)
        → retire_tablet now actor pk reason db ≡ ok (t, db')
        → Step db db'
    revoked :
        (now : ℕ) (actor : User) (pk : ℕ) (reason : Text) (i : AppInstallation) (db' : Db)
        → revoke_installation now actor pk reason db ≡ ok (i, db')
        → Step db db'
    invited :
        (now : ℕ) (actor : User) (pk : ℕ) (expires_at : Option ℕ) (token fresh : ℕ)
        (v : AdoptionInvitation) (db' : Db)
        → create_adoption_invitation c now actor pk expires_at token fresh db ≡ ok (v, db')
        → Step db db'
    replacing :
        (now : ℕ) (actor : User) (pk : ℕ) (expires_at : Option ℕ) (token fresh : ℕ)
        (v : AdoptionInvitation) (db' : Db)
        → initiate_installation_replacement c now actor pk expires_at token fresh db ≡ ok (v, db')
        → Step db db'
    requested :
        (now : ℕ) (p : Proposal) (nonce fresh : ℕ) (r : AdoptionRequest) (db' : Db)
        → create_adoption_request c now p nonce fresh db ≡ ok (r, db')
        → Step db db'
    completed :
        (now pk response : ℕ) (confirmed : Bool) (credential fresh : ℕ)
        → count (λ i. i.id == fresh) db.installations ≡ 0
        → Step db (complete_adoption c now pk response confirmed credential fresh db).1
    checked_in :
        (now pk credential : ℕ) (t : Telemetry) (i : AppInstallation) (db' : Db)
        → check_in c now pk credential t db ≡ ok (i, db')
        → Step db db'
    refreshed :
        (now pk credential : ℕ) (t : Telemetry) (i : AppInstallation) (db' : Db)
        → refresh_installation_lease c now pk credential t db ≡ ok (i, db')
        → Step db db'
    swept : (now n : ℕ) (db' : Db) → mark_stale_installations now db ≡ ok (n, db') → Step db db'

  Step-IsConsistent : (db db' : Db) → Step db db' → IsConsistent db → IsConsistent db'
  Step-IsConsistent db _ (created now actor d name number fresh t db' new h) k =
      let r : Registered actor d name number fresh db t db' =
        create_tablet-Registered now actor d name number fresh db h in
      rw (r.tablets, r.installations, r.made)
        (Consistent-register db.tablets db.installations _ refl refl new k)
  Step-IsConsistent db _ (activated now actor pk t db' h) k =
      activate_tablet-IsConsistent now actor pk db h k
  Step-IsConsistent db _ (deactivated now actor pk t db' h) k =
      deactivate_tablet-IsConsistent now actor pk db h k
  Step-IsConsistent db _ (lost now actor pk reason t db' h) k =
      mark_tablet_lost-IsConsistent now actor pk db reason h k
  Step-IsConsistent db _ (recovered now actor pk t db' h) k =
      recover_tablet-IsConsistent now actor pk db h k
  Step-IsConsistent db _ (retired now actor pk reason t db' h) k =
      retire_tablet-IsConsistent now actor pk db reason h k
  Step-IsConsistent db _ (revoked now actor pk reason i db' h) k =
      revoke_installation-IsConsistent now actor pk reason db h k
  Step-IsConsistent db _ (invited now actor pk expires_at token fresh v db' h) k =
      SameCore-IsConsistent db db'
        (create_adoption_invitation_core c now db actor pk expires_at token fresh h) k
  Step-IsConsistent db _ (replacing now actor pk expires_at token fresh v db' h) k =
      SameCore-IsConsistent db db'
        (initiate_installation_replacement_core c now db actor pk expires_at token fresh h) k
  Step-IsConsistent db _ (requested now p nonce fresh r db' h) k =
      SameCore-IsConsistent db db' (create_adoption_request_core c now db p nonce fresh h) k
  Step-IsConsistent db _ (completed now pk response confirmed credential fresh new) k =
      complete_adoption-IsConsistent c now db pk response confirmed credential fresh new k
  Step-IsConsistent db _ (checked_in now pk credential t i db' h) k =
      Kept-IsConsistent db db' (check_in-Kept c now pk credential t db (k.unique pk) h) k
  Step-IsConsistent db _ (refreshed now pk credential t i db' h) k =
      Kept-IsConsistent db db' (refresh-Kept c now pk credential t db (k.unique pk) h) k
  Step-IsConsistent db _ (swept now n db' h) k =
      Kept-IsConsistent db db' (mark_stale_installations-Kept now db k.unique h) k

  -- The states that runs of the services lead to.
  pub data Reach (db : Db) : Db → Type 0 where
    here : Reach db db
    after : (mid last : Db) → Reach db mid → Step mid last → Reach db last

  -- From a state whose tablet tables are well-formed (unique keys; for each tablet at most one
  -- installation that is ACTIVE or STALE, and none if it is LOST or RETIRED; the flag `active`
  -- exactly for INACTIVE and ACTIVE tablets), every sequence of runs of the services leads to a state
  -- whose tables are well-formed. A failed service changes nothing, except that a refused proof of
  -- `complete_adoption` is counted.
  pub Reach-IsConsistent : (db db' : Db) → Reach db db' → IsConsistent db → IsConsistent db'
  Reach-IsConsistent db _ here k = k
  Reach-IsConsistent db _ (after mid last r s) k =
      Step-IsConsistent mid last s (Reach-IsConsistent db mid r k)
