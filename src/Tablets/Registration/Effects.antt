-- ===== src/Tablets/Registration/Effects.antt =====
-- What a registration that returned has checked and written.
use fire_dash_server.Prelude.{
  ℕ, zero, suc, ◌+◌, ◌≤◌, ◌≡◌, refl, sym, subst, ap, ◌∙◌, Bool, true, false, not, ◌&&◌, ◌∷◌, arith,
  ◌==◌, ◌<◌, first, List, Bool-cases, eq_of_==, update, ok, any, inl, inr, some, length, ◌++◌,
  ◌>>=◌, if◌then◌else◌, pure, raise_if, gets, >>=-eq-ok,
}
use fire_dash_server.Tablets.Models.{
  Text, tablet_created, department_mutation, Tablet, TabletStatus, Department, User,
}
use fire_dash_server.Tablets.Store.{Db, Service, steps, tablet_error, invalid_request, record_event}
use fire_dash_server.Tablets.Access.Frame.{revoke_temporary_access-Frame}
use fire_dash_server.Tablets.Access.{require_department_admin, revoke_temporary_access}
use fire_dash_server.Tablets.Reads.{get_department-bind, raise_if-bind, if-ok, gets-bind}
use fire_dash_server.Tablets.Versions.Decimal.{str}
use fire_dash_server.Tablets.Registration.{
  zfill, strip, is_empty, has_asset_number, has_display_name, asset_number_max_length,
  max_allocation_attempts, formatted_asset_number, next_generated_asset_number, insert_tablet,
  create_generated_tablet, create_tablet,
}

abbrev pub new_tablet : User → Department → Text → Text → ℕ → Tablet
new_tablet actor department display_name asset_number fresh = record {
  id = fresh;
  department_id = department.id;
  asset_number = asset_number;
  display_name = display_name;
  status = TabletStatus.inactive;
  is_active = true;
  created_by = some actor.id;
}

-- The number that stands for a place in a department's sequence.
abbrev pub asset_number_at : Department → ℕ → Text
asset_number_at d n = d.tablet_asset_number_prefix ++ zfill d.tablet_asset_number_width (str n)

pub next_generated_asset_number_effect :
    (d : Department) (db : Db) {r : Text × Department} {db' : Db}
    → next_generated_asset_number d db ≡ ok (r, db')
    → let n = d.tablet_asset_number_sequence + 1 in
      (r.0 ≡ asset_number_at d n)
      × (r.1 ≡ record d { tablet_asset_number_sequence = n })
      × (length r.0 ≤ asset_number_max_length)
      × (db' ≡ record db {
        departments =
            update
              (λ x. x.id == d.id)
              (λ x. record x { tablet_asset_number_sequence = n })
              db.departments;
      })
unfolding steps next_generated_asset_number formatted_asset_number
next_generated_asset_number_effect d db h = ground arith

-- A number that no tablet of the department had, the first such later place in the sequence, and the new
-- row.
pub record Generated (actor : User) (d : Department) (name : Text) (fresh : ℕ) (db : Db)
    (t : Tablet) (db' : Db) : Type 0 where
  pub place : ℕ
  pub later : d.tablet_asset_number_sequence + 1 ≤ place
  pub made : t ≡ new_tablet actor d name (asset_number_at d place) fresh
  pub fits : length (asset_number_at d place) ≤ asset_number_max_length
  pub is_free : any (has_asset_number d.id (asset_number_at d place)) db.tablets ≡ false
  pub taken :
      (n : ℕ)
      → d.tablet_asset_number_sequence + 1 ≤ n
      → n < place
      → any (has_asset_number d.id (asset_number_at d n)) db.tablets ≡ true
  pub state : db' ≡ record db { tablets = t ∷ db.tablets; departments = db'.departments }

insert_tablet_effect :
    (actor : User) (d : Department) (name number : Text) (fresh : ℕ) (db : Db) {t : Tablet}
    {db' : Db}
    → insert_tablet actor d name number fresh db ≡ ok (t, db')
    → (t ≡ new_tablet actor d name number fresh)
      × (db' ≡ record db { tablets = new_tablet actor d name number fresh ∷ db.tablets })
unfolding steps insert_tablet
insert_tablet_effect actor d name number fresh db h = ground arith

pub create_generated_tablet_effect :
    (attempts : ℕ) (actor : User) (d : Department) (name : Text) (fresh : ℕ) (db : Db) {t : Tablet}
    {db' : Db}
    → create_generated_tablet attempts actor d name fresh db ≡ ok (t, db')
    → Generated actor d name fresh db t db'
unfolding create_generated_tablet
create_generated_tablet_effect zero actor d name fresh db h =
    absurd (unfold ◌>>=◌ in (ground arith))
create_generated_tablet_effect (suc attempts) actor d name fresh db {t} {db'} h =
    let (r, mid, e, h1) = >>=-eq-ok (next_generated_asset_number d) _ db h in
    finish r mid (next_generated_asset_number_effect d db e)
      (λ a k. create_generated_tablet_effect attempts actor a name fresh mid k)
      (any (has_asset_number d.id r.0) mid.tablets) refl (gets-bind mid _ _ h1)
  where
    finish :
        (r : Text × Department) (mid : Db)
        → (r.0 ≡ asset_number_at d (d.tablet_asset_number_sequence + 1))
          × (r.1 ≡ record d { tablet_asset_number_sequence = d.tablet_asset_number_sequence + 1 })
          × (length r.0 ≤ asset_number_max_length)
          × (mid ≡ record db {
            departments =
                update
                  (λ x. x.id == d.id)
                  (λ x. record x {
                    tablet_asset_number_sequence = d.tablet_asset_number_sequence + 1;
                  })
                  db.departments;
          })
        → ((a : Department)
            → create_generated_tablet attempts actor a name fresh mid ≡ ok (t, db')
            → Generated actor a name fresh mid t db')
        → (taken : Bool) → any (has_asset_number d.id r.0) mid.tablets ≡ taken
        → (elim taken as (λ _. Service Tablet) [
          | true ↦ create_generated_tablet attempts actor r.1 name fresh
          | false ↦ insert_tablet actor r.1 name r.0 fresh
        ])
            mid
          ≡ ok (t, db')
        → Generated actor d name fresh db t db'
    finish r mid (n, a, l, s) ih true e k =
        let g = ih r.1 k in
        record {
          place = g.place;
          later = ground (arith, g.later);
          made = ground (arith, g.made);
          fits = ground (arith, g.fits);
          is_free = ground (arith, g.is_free);
          taken = λ k l m. elim (Bool-cases (k == d.tablet_asset_number_sequence + 1)) [
            | inl q ↦ let p = eq_of_== k (d.tablet_asset_number_sequence + 1) q in ground arith
            | inr q ↦ let b = g.taken k (ground arith) m in ground arith
          ];
          state = ground (arith, g.state);
        }
    finish r mid (n, a, l, s) ih false e k =
        let (made, state) = insert_tablet_effect actor r.1 name r.0 fresh mid k in
        record {
          place = d.tablet_asset_number_sequence + 1;
          later = omega arith;
          made = rw (made, a, n) refl;
          fits = subst (λ x. length x ≤ asset_number_max_length) n l;
          is_free = ground arith;
          taken = λ k l m. absurd (omega arith);
          state = ground arith;
        }

-- A generated number: that of the first later place in the sequence of which no tablet has the number.
pub record IsNext (d : Department) (tablets : List Tablet) (number : Text) : Type 0 where
  pub place : ℕ
  pub later : d.tablet_asset_number_sequence + 1 ≤ place
  pub is_number : number ≡ asset_number_at d place
  pub fits : length number ≤ asset_number_max_length
  pub is_free : any (has_asset_number d.id number) tablets ≡ false
  pub taken :
      (n : ℕ)
      → d.tablet_asset_number_sequence + 1 ≤ n
      → n < place
      → any (has_asset_number d.id (asset_number_at d n)) tablets ≡ true

-- The row of a registration, and the uniqueness that the database enforces too.
pub record Registered (actor : User) (department_id : ℕ) (name entered : Text) (fresh : ℕ) (db : Db)
    (t : Tablet) (db' : Db) : Type 0 where
  pub department : Department
  pub number : Text
  pub found : first (λ d. d.id == department_id) db.departments ≡ some department
  pub is_entered : department.tablet_asset_number_auto_enabled ≡ false → number ≡ strip entered
  pub is_generated :
      department.tablet_asset_number_auto_enabled ≡ true → IsNext department db.tablets number
  pub made : t ≡ new_tablet actor department (strip name) number fresh
  pub is_named : is_empty (strip name) ≡ false
  pub name_is_free : any (has_display_name department.id (strip name)) db.tablets ≡ false
  pub number_is_free :
      is_empty number ≡ false → any (has_asset_number department.id number) db.tablets ≡ false
  pub tablets : db'.tablets ≡ t ∷ db.tablets
  pub installations : db'.installations ≡ db.installations

reads_admin :
    (actor : User) (d : Department) (db : Db) {u : Unit {0}} {db' : Db}
    → require_department_admin actor d db ≡ ok (u, db')
    → db ≡ db'
unfolding steps require_department_admin
reads_admin actor d db h = ground arith

admin-bind :
    {B : Type 0} (actor : User) (d : Department) (db : Db) (f : Unit {0} → Service B) {b : B}
    {db' : Db}
    → (require_department_admin actor d >>= f) db ≡ ok (b, db')
    → f tt db ≡ ok (b, db')
admin-bind actor d db f {b} {db'} h =
    let (u, mid, e, k) = >>=-eq-ok (require_department_admin actor d) f db h in
    subst (λ s. f tt s ≡ ok (b, db')) (sym (reads_admin actor d db e)) k

ending :
    (now : ℕ) (actor : User) (tablet : Tablet) (db : Db) {t : Tablet} {db' : Db}
    → (record_event tablet_created (some actor.id) tablet.id >>= λ _.
          revoke_temporary_access now actor department_mutation >>= λ _. pure tablet)
        db
      ≡ ok (t, db')
    → (t ≡ tablet) × (db'.tablets ≡ db.tablets) × (db'.installations ≡ db.installations)
unfolding steps
ending now actor tablet db h = grind (arith, revoke_temporary_access-Frame)

-- The row that `create_tablet` inserts, under the number that was entered or generated.
numbered_row :
    (actor : User) (d : Department) (name number : Text) (fresh : ℕ) (db : Db) {t : Tablet}
    {db' : Db}
    → (if d.tablet_asset_number_auto_enabled
          then create_generated_tablet max_allocation_attempts actor d name fresh
          else (gets (λ s. any (has_asset_number d.id number) s.tablets) >>= λ numbered.
              raise_if (not (is_empty number) && numbered) (tablet_error invalid_request) >>= λ _.
              insert_tablet actor d name number fresh))
        db
      ≡ ok (t, db')
    → (chosen : Text) × (d.tablet_asset_number_auto_enabled ≡ false → chosen ≡ number)
      × (d.tablet_asset_number_auto_enabled ≡ true → IsNext d db.tablets chosen)
      × (t ≡ new_tablet actor d name chosen fresh)
      × (is_empty chosen ≡ false → any (has_asset_number d.id chosen) db.tablets ≡ false)
      × (db'.tablets ≡ t ∷ db.tablets)
      × (db'.installations ≡ db.installations)
numbered_row actor d name number fresh db {t} {db'} h =
    elim (if-ok db d.tablet_asset_number_auto_enabled _ _ h) [
      | inl (auto, e) ↦
          let g = create_generated_tablet_effect max_allocation_attempts actor d name fresh db e in
          (
            asset_number_at d g.place,
            λ no. absurd (ground arith),
            λ _. record {
              place = g.place;
              later = g.later;
              is_number = refl;
              fits = g.fits;
              is_free = g.is_free;
              taken = g.taken;
            },
            g.made,
            λ _. g.is_free,
            ap (λ s. s.tablets) g.state,
            ap (λ s. s.installations) g.state,
          )
      | inr (manual, e) ↦
          let h1 = gets-bind db _ _ e in
          let (free, h2) = raise_if-bind db _ _ _ h1 in
          let (made, state) = insert_tablet_effect actor d name number fresh db h2 in
          (
            number,
            λ _. refl,
            λ no. absurd (ground arith),
            made,
            λ m. ground arith,
            ap (λ s. s.tablets) state ∙ ap (λ x. x ∷ db.tablets) (sym made),
            ap (λ s. s.installations) state,
          )
    ]

-- Where `create_tablet` returns, the new tablet comes first and is INACTIVE, with the flag `active`, under
-- a name that is not empty and that no tablet of the department had. Its number is the entered one without
-- the blanks around it, where the department does not generate numbers, and that is empty or one that no
-- tablet of the department had; where it does, the number is that of the first later place in the
-- department's sequence of which no tablet of the department had the number. The other tablets and the
-- installations are as before.
pub create_tablet-Registered :
    (now : ℕ) (actor : User) (department_id : ℕ) (name number : Text) (fresh : ℕ) (db : Db)
    {t : Tablet} {db' : Db}
    → create_tablet now actor department_id name number fresh db ≡ ok (t, db')
    → Registered actor department_id name number fresh db t db'
unfolding create_tablet
create_tablet-Registered now actor department_id name number fresh db {t} {db'} h =
    let (d, fd, h1) = get_department-bind db department_id _ h in
    let h2 = admin-bind actor d db _ h1 in
    let (named, h3) = raise_if-bind db _ _ _ h2 in
    let h4 = gets-bind db _ _ h3 in
    let (free, h5) = raise_if-bind db _ _ _ h4 in
    let (row, mid, e, h6) = >>=-eq-ok _ _ db h5 in
    let (chosen, entered, generated, made, number_free, tablets, installations) =
      numbered_row actor d (strip name) (strip number) fresh db e in
    let (same, tables, others) = ending now actor row mid h6 in
    record {
      department = d;
      number = chosen;
      found = fd;
      is_entered = entered;
      is_generated = generated;
      made = same ∙ made;
      is_named = named;
      name_is_free = free;
      number_is_free = number_free;
      tablets = tables ∙ tablets ∙ ap (λ x. x ∷ db.tablets) (sym same);
      installations = others ∙ installations;
    }
