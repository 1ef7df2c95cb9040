-- ===== src/Tablets/Access/Frame.antt =====
-- What the withdrawal of temporary access leaves alone.
use fire_dash_server.Prelude.{
  ℕ, >>=-eq-ok, pure, ◌==◌, ◌&&◌, is_none, ◌≡◌, none, some, ok, arith, first, Option,
}
use fire_dash_server.Tablets.Models.{User, AccessReason, TemporaryStationAccess}
use fire_dash_server.Tablets.Store.{steps, Db, Service}
use fire_dash_server.Tablets.Access.{
  revoke_access, check_access, active_temporary_access, revoke_temporary_access,
}

-- Nothing but the temporary accesses and the audit log changes.
abbrev pub Frame : Db → Db → Type 0
Frame db db' = db' ≡ record db { accesses = db'.accesses; events = db'.events }

revoke_access-Frame :
    (now : ℕ) (a : TemporaryStationAccess) (reason : AccessReason) (actor : ℕ) (db : Db) {db' : Db}
    → revoke_access now a reason actor db ≡ ok (tt, db')
    → Frame db db'
unfolding steps revoke_access
revoke_access-Frame now a reason actor db h = ground arith

check_access-Frame :
    (now : ℕ) (actor : User) (o : Option TemporaryStationAccess) (db : Db)
    {r : Option TemporaryStationAccess} {db' : Db}
    → check_access now actor o db ≡ ok (r, db')
    → Frame db db'
unfolding steps check_access
check_access-Frame now actor none db h = ground arith
check_access-Frame now actor (some a) db h = ground arith

active_temporary_access-Frame :
    (now : ℕ) (actor : User) (db : Db) {r : Option TemporaryStationAccess} {db' : Db}
    → active_temporary_access now actor db ≡ ok (r, db')
    → Frame db db'
unfolding steps active_temporary_access
active_temporary_access-Frame now actor db h =
    check_access-Frame now actor
      (first (λ a. a.user_id == actor.id && is_none a.revoked_at) db.accesses) db h

pub revoke_temporary_access-Frame :
    (now : ℕ) (actor : User) (reason : AccessReason) (db : Db) {db' : Db}
    → revoke_temporary_access now actor reason db ≡ ok (tt, db')
    → Frame db db'
unfolding steps revoke_temporary_access
revoke_temporary_access-Frame now actor reason db {db' = db'} h =
    let (found, db₁, e, k) = >>=-eq-ok (active_temporary_access now actor) _ db h in
    finish found db₁ (active_temporary_access-Frame now actor db e) k
  where
    finish :
        (found : Option TemporaryStationAccess) (db₁ : Db)
        → Frame db db₁
        → (elim found as (λ _. Service (Unit {0})) [
          | none ↦ pure tt
          | some a ↦ revoke_access now a reason actor.id
        ])
            db₁
          ≡ ok (tt, db')
        → Frame db db'
    finish none db₁ f k = cc
    finish (some a) db₁ f k = ground (arith, revoke_access-Frame now a reason actor.id db₁ k)
