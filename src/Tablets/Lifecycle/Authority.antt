-- ===== src/Tablets/Lifecycle/Authority.antt =====
-- Who may run the services of the asset's life cycle.
use fire_dash_server.Prelude.{
  ℕ, ◌≡◌, subst, true, some, ok, arith, ◌==◌, eq_of_==, first, ◌>>=◌, >>=-eq-ok,
}
use fire_dash_server.Prelude.TableLaws.{first_sound}
use fire_dash_server.Tablets.Models.{Text, Tablet, Department, User}
use fire_dash_server.Tablets.Store.{Db, Service, steps, get_tablet, get_department}
use fire_dash_server.Tablets.Reads.{get_tablet-bind, get_department-bind}
use fire_dash_server.Tablets.Access.{in_active_department_ids, require_department_admin}
use fire_dash_server.Tablets.Lifecycle.{
  activate_tablet, deactivate_tablet, mark_tablet_lost, recover_tablet, retire_tablet,
}

-- The account is an active administrator of the department, active itself, of the tablet `pk`.
pub record IsAdminOf (actor : User) (pk : ℕ) (db : Db) : Type 0 where
  pub tablet : Tablet
  pub found : first (λ t. t.id == pk) db.tablets ≡ some tablet
  pub allowed : in_active_department_ids actor tablet.department_id db ≡ true

-- A run of a life-cycle service that returned.
pub data LifecycleRun (now : ℕ) (actor : User) (pk : ℕ) (db db' : Db) : Type 0 where
  activated :
      (t : Tablet)
      → activate_tablet now actor pk db ≡ ok (t, db')
      → LifecycleRun now actor pk db db'
  deactivated :
      (t : Tablet)
      → deactivate_tablet now actor pk db ≡ ok (t, db')
      → LifecycleRun now actor pk db db'
  recovered :
      (t : Tablet) → recover_tablet now actor pk db ≡ ok (t, db') → LifecycleRun now actor pk db db'
  lost :
      (reason : Text) (t : Tablet)
      → mark_tablet_lost now actor pk reason db ≡ ok (t, db')
      → LifecycleRun now actor pk db db'
  retired :
      (reason : Text) (t : Tablet)
      → retire_tablet now actor pk reason db ≡ ok (t, db')
      → LifecycleRun now actor pk db db'

admin_allowed :
    (actor : User) (d : Department) (db : Db) {u : Unit {0}} {db' : Db}
    → require_department_admin actor d db ≡ ok (u, db')
    → in_active_department_ids actor d.id db ≡ true
unfolding steps require_department_admin
admin_allowed actor d db h = ground arith

authorized :
    (actor : User) (pk : ℕ) (db : Db) (f : Tablet → Department → Unit {0} → Service Tablet)
    {t : Tablet} {db' : Db}
    → (get_tablet pk >>= λ r.
          get_department r.department_id >>= λ d. require_department_admin actor d >>= f r d)
        db
      ≡ ok (t, db')
    → IsAdminOf actor pk db
authorized actor pk db f h =
    let (r, found, h1) = get_tablet-bind db pk _ h in
    let (d, department, h2) = get_department-bind db r.department_id _ h1 in
    let (u, mid, e, h3) = >>=-eq-ok (require_department_admin actor d) (f r d) db h2 in
    record {
      tablet = r;
      found = found;
      allowed =
          subst (λ k. in_active_department_ids actor k db ≡ true)
            (eq_of_== d.id r.department_id
              (first_sound (λ x. x.id == r.department_id) db.departments department))
            (admin_allowed actor d db e);
    }

-- Whoever has run a life-cycle service that returned is authenticated and active, and has an active
-- membership in the active department of the tablet that the service read.
pub LifecycleRun-IsAdminOf :
    (now : ℕ) (actor : User) (pk : ℕ) (db db' : Db)
    → LifecycleRun now actor pk db db'
    → IsAdminOf actor pk db
unfolding activate_tablet deactivate_tablet recover_tablet mark_tablet_lost retire_tablet
LifecycleRun-IsAdminOf now actor pk db db' (activated t h) = authorized actor pk db _ h
LifecycleRun-IsAdminOf now actor pk db db' (deactivated t h) = authorized actor pk db _ h
LifecycleRun-IsAdminOf now actor pk db db' (recovered t h) = authorized actor pk db _ h
LifecycleRun-IsAdminOf now actor pk db db' (lost reason t h) = authorized actor pk db _ h
LifecycleRun-IsAdminOf now actor pk db db' (retired reason t h) = authorized actor pk db _ h
