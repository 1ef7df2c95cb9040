-- ===== src/Tablets/Invariant/Services.antt =====
-- The services of the asset's life cycle and of registration keep the tables well-formed.
use fire_dash_server.Prelude.{ℕ, ◌≡◌, refl, sym, ap, true, false, arith, ◌==◌, update, select, ok}
use fire_dash_server.Tablets.Models.{Text, Tablet, TabletStatus, AppInstallation, User}
use fire_dash_server.Tablets.Store.{Db, steps}
use fire_dash_server.Tablets.Access.Frame.{Frame, revoke_temporary_access-Frame}
use fire_dash_server.Tablets.Lifecycle.{
  is_current_of, activate_tablet, deactivate_tablet, mark_tablet_lost, recover_tablet,
  retire_tablet, revoke_installation, withdraw_access, revoke_tablet_installations,
}
use fire_dash_server.Tablets.Lifecycle.Frames.{
  withdrawn_rows, revoked_row, withdraw_access_frame, revoke_tablet_installations_frame, GrantFrame,
}
use fire_dash_server.Tablets.Lifecycle.Effects.{
  Moved, move_tablet, activate_tablet_effect, deactivate_tablet_effect, recover_tablet_effect,
  mark_tablet_lost_effect, retire_tablet_effect,
}
use fire_dash_server.Tablets.Guards.{revoke_dataset_key_grants}
use fire_dash_server.Tablets.Invariant.{
  Consistent, Consistent-move, Consistent-withdraw, Consistent-revoke, count-withdrawn_rows,
  is_in_service,
}

abbrev pub IsConsistent : Db → Type 0
IsConsistent db = Consistent db.tablets db.installations

-- The two tables are as before.
abbrev pub SameCore : Db → Db → Type 0
SameCore db db' = (db'.tablets ≡ db.tablets) × (db'.installations ≡ db.installations)

pub SameCore-IsConsistent : (db db' : Db) → SameCore db db' → IsConsistent db → IsConsistent db'
SameCore-IsConsistent db db' (t, i) c = rw (t, i) c

core_of_Frame : (db db' : Db) → Frame db db' → SameCore db db'
core_of_Frame db db' f = (ap (λ d. d.tablets) f, ap (λ d. d.installations) f)

-- A tablet that moves to a status of service.
pub Moved-IsConsistent :
    (pk : ℕ) (to : TabletStatus) (change : Db → Db) (db : Db) {db' : Db}
    → (change db).installations ≡ db.installations
    → (change db).tablets ≡ (move_tablet pk to (is_in_service to) db).tablets
    → is_in_service to ≡ true
    → Moved pk to change db db'
    → IsConsistent db
    → IsConsistent db'
Moved-IsConsistent pk to change db {db' = db'} i t s m c =
    SameCore-IsConsistent (change db) db' (core_of_Frame (change db) db' m.state)
      (rw (i, t) (Consistent-move db.tablets db.installations pk to (λ n. absurd (ground arith)) c))

-- A tablet that is lost or retired.
pub Withdrawn-IsConsistent :
    (now pk : ℕ) (reason : Text) (to : TabletStatus) (db : Db) {db' : Db}
    → is_in_service to ≡ false
    → Moved pk to
        (λ d. move_tablet pk to false (revoke_tablet_installations now pk reason d))
        db
        db'
    → IsConsistent db
    → IsConsistent db'
Withdrawn-IsConsistent now pk reason to db {db' = db'} s m c =
    let (t, i, _) = revoke_tablet_installations_frame now pk reason db in
    let f =
      core_of_Frame (move_tablet pk to false (revoke_tablet_installations now pk reason db)) db'
        m.state in
    rw (f.0, f.1, t, i, sym s)
      (Consistent-move db.tablets (withdrawn_rows now pk reason db.installations) pk to
        (λ _. count-withdrawn_rows db.installations now pk reason)
        (Consistent-withdraw db.tablets db.installations now pk reason c))

module _ (now : ℕ) (actor : User) (pk : ℕ) (db : Db) {t : Tablet} {db' : Db} where
  pub activate_tablet-IsConsistent :
      activate_tablet now actor pk db ≡ ok (t, db') → IsConsistent db → IsConsistent db'
  activate_tablet-IsConsistent h =
      Moved-IsConsistent pk TabletStatus.active _ db refl refl refl
        (activate_tablet_effect now actor pk db h)

  pub recover_tablet-IsConsistent :
      recover_tablet now actor pk db ≡ ok (t, db') → IsConsistent db → IsConsistent db'
  recover_tablet-IsConsistent h =
      Moved-IsConsistent pk TabletStatus.inactive _ db refl refl refl
        (recover_tablet_effect now actor pk db h)

  pub deactivate_tablet-IsConsistent :
      deactivate_tablet now actor pk db ≡ ok (t, db') → IsConsistent db → IsConsistent db'
  deactivate_tablet-IsConsistent h =
      let f : GrantFrame db (withdraw_access now (select (is_current_of pk) db.installations) db) =
        withdraw_access_frame now (select (is_current_of pk) db.installations) db in
      Moved-IsConsistent pk TabletStatus.inactive _ db (ap (λ d. d.installations) f)
        (ap (λ d. (move_tablet pk TabletStatus.inactive true d).tablets) f) refl
        (deactivate_tablet_effect now actor pk db h)

  pub mark_tablet_lost-IsConsistent :
      (reason : Text)
      → mark_tablet_lost now actor pk reason db ≡ ok (t, db')
      → IsConsistent db
      → IsConsistent db'
  mark_tablet_lost-IsConsistent reason h =
      Withdrawn-IsConsistent now pk reason TabletStatus.lost db refl
        (mark_tablet_lost_effect now actor pk db reason h)

  pub retire_tablet-IsConsistent :
      (reason : Text)
      → retire_tablet now actor pk reason db ≡ ok (t, db')
      → IsConsistent db
      → IsConsistent db'
  retire_tablet-IsConsistent reason h =
      Withdrawn-IsConsistent now pk reason TabletStatus.retired db refl
        (retire_tablet_effect now actor pk db reason h)

-- The rows that `revoke_installation` writes.
pub revoke_installation_effect :
    (now : ℕ) (actor : User) (pk : ℕ) (reason : Text) (db : Db) {i : AppInstallation} {db' : Db}
    → revoke_installation now actor pk reason db ≡ ok (i, db')
    → (db'.tablets ≡ db.tablets)
      × (db'.installations ≡ update (λ r. r.id == i.id) (revoked_row now reason) db.installations)
unfolding steps revoke_installation revoke_dataset_key_grants
revoke_installation_effect now actor pk reason db h = grind (arith, revoke_temporary_access-Frame)

pub revoke_installation-IsConsistent :
    (now : ℕ) (actor : User) (pk : ℕ) (reason : Text) (db : Db) {i : AppInstallation} {db' : Db}
    → revoke_installation now actor pk reason db ≡ ok (i, db')
    → IsConsistent db
    → IsConsistent db'
revoke_installation-IsConsistent now actor pk reason db {i} {db'} h c =
    let (t, r) = revoke_installation_effect now actor pk reason db h in
    rw (t, r) (Consistent-revoke db.tablets db.installations i.id now reason c)
