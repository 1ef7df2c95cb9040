-- ===== src/Tablets/Lifecycle/Effects.antt =====
-- What a life-cycle service that returned has written: one lemma for each service.
use fire_dash_server.Prelude.{
  ℕ, ◌≡◌, ◌==◌, eq_of_==, some, ok, true, false, arith, first, update, Bool, select, List,
}
use fire_dash_server.Prelude.TableLaws.{first_sound}
use fire_dash_server.Tablets.Models.{User, Tablet, TabletStatus, Text}
use fire_dash_server.Tablets.Store.{steps, Db}
use fire_dash_server.Tablets.Access.Frame.{Frame, revoke_temporary_access-Frame}
use fire_dash_server.Tablets.Lifecycle.{
  activate_tablet, asset_transition, is_current_of, deactivate_tablet, recover_tablet,
  mark_tablet_lost, retire_tablet, withdraw_access, revoke_tablet_installations,
}

-- The write that ends each service.
abbrev pub move_tablet : ℕ → TabletStatus → Bool → Db → Db
move_tablet pk to is_active db = record db {
  tablets =
      update (λ t. t.id == pk) (λ t. record t { status = to; is_active = is_active }) db.tablets;
}

-- The tablet that a service read, a transition that its status allows, and the state that
-- `change` leads to, up to the temporary accesses and the audit log.
pub record Moved (tablet_id : ℕ) (to : TabletStatus) (change : Db → Db) (db db' : Db) : Type 0 where
  pub tablet : Tablet
  pub found : first (λ t. t.id == tablet_id) db.tablets ≡ some tablet
  pub allowed : asset_transition tablet.status to ≡ true
  pub same_id : tablet.id ≡ tablet_id
  pub state : Frame (change db) db'

found_id :
    (pk : ℕ) (ts : List Tablet) {t : Tablet} → first (λ t. t.id == pk) ts ≡ some t → t.id ≡ pk
found_id pk ts h = eq_of_== _ pk (first_sound (λ t. t.id == pk) ts h)

module _ (now : ℕ) (actor : User) (tablet_id : ℕ) (db : Db) where
  pub activate_tablet_effect :
      {t : Tablet} {db' : Db}
      → activate_tablet now actor tablet_id db ≡ ok (t, db')
      → Moved tablet_id TabletStatus.active
          (λ d. move_tablet tablet_id TabletStatus.active true d)
          db
          db'
  unfolding steps activate_tablet
  activate_tablet_effect h = grind (arith, revoke_temporary_access-Frame, found_id)

  pub deactivate_tablet_effect :
      {t : Tablet} {db' : Db}
      → deactivate_tablet now actor tablet_id db ≡ ok (t, db')
      → Moved tablet_id TabletStatus.inactive
          (λ d.
            move_tablet tablet_id TabletStatus.inactive true
              (withdraw_access now (select (is_current_of tablet_id) d.installations) d))
          db
          db'
  unfolding steps deactivate_tablet
  deactivate_tablet_effect h = grind (arith, revoke_temporary_access-Frame, found_id)

  pub recover_tablet_effect :
      {t : Tablet} {db' : Db}
      → recover_tablet now actor tablet_id db ≡ ok (t, db')
      → Moved tablet_id TabletStatus.inactive
          (λ d. move_tablet tablet_id TabletStatus.inactive true d)
          db
          db'
  unfolding steps recover_tablet
  recover_tablet_effect h = grind (arith, revoke_temporary_access-Frame, found_id)

  pub mark_tablet_lost_effect :
      (reason : Text) {t : Tablet} {db' : Db}
      → mark_tablet_lost now actor tablet_id reason db ≡ ok (t, db')
      → Moved tablet_id TabletStatus.lost
          (λ d.
            move_tablet tablet_id TabletStatus.lost false
              (revoke_tablet_installations now tablet_id reason d))
          db
          db'
  unfolding steps mark_tablet_lost
  mark_tablet_lost_effect reason h = grind (arith, revoke_temporary_access-Frame, found_id)

  pub retire_tablet_effect :
      (reason : Text) {t : Tablet} {db' : Db}
      → retire_tablet now actor tablet_id reason db ≡ ok (t, db')
      → Moved tablet_id TabletStatus.retired
          (λ d.
            move_tablet tablet_id TabletStatus.retired false
              (revoke_tablet_installations now tablet_id reason d))
          db
          db'
  unfolding steps retire_tablet
  retire_tablet_effect reason h = grind (arith, revoke_temporary_access-Frame, found_id)
