-- ===== src/Tablets/Reads.antt =====
-- What the first step of a service that returned has read.
use fire_dash_server.Prelude.{
  ℕ, ◌≡◌, refl, ◌⊎◌, if◌then◌else◌, ◌==◌, Bool, true, false, some, Option-cases, inl, inr, arith,
  first, ok, ◌>>=◌, raise_if, gets, modify,
}
use fire_dash_server.Tablets.Models.{
  Tablet, Department, AppInstallation, AdoptionInvitation, AdoptionRequest,
}
use fire_dash_server.Tablets.Store.{
  Db, Service, Error, steps, get_tablet, get_department, get_installation, get_invitation,
  get_request,
}

module _ {B : Type 0} (db : Db) {b : B} {db' : Db} where
  pub get_tablet-bind :
      (pk : ℕ) (f : Tablet → Service B)
      → (get_tablet pk >>= f) db ≡ ok (b, db')
      → (t : Tablet) × (first (λ t. t.id == pk) db.tablets ≡ some t) × (f t db ≡ ok (b, db'))
  unfolding steps
  get_tablet-bind pk f h = elim (Option-cases (first (λ t. t.id == pk) db.tablets)) [
    | inl e ↦ absurd (ground arith)
    | inr (t, e) ↦ (t, e, ground arith)
  ]

  pub get_department-bind :
      (pk : ℕ) (f : Department → Service B)
      → (get_department pk >>= f) db ≡ ok (b, db')
      → (d : Department) × (first (λ d. d.id == pk) db.departments ≡ some d)
        × (f d db ≡ ok (b, db'))
  unfolding steps
  get_department-bind pk f h = elim (Option-cases (first (λ d. d.id == pk) db.departments)) [
    | inl e ↦ absurd (ground arith)
    | inr (d, e) ↦ (d, e, ground arith)
  ]

  pub get_installation-bind :
      (pk : ℕ) (f : AppInstallation → Service B)
      → (get_installation pk >>= f) db ≡ ok (b, db')
      → (i : AppInstallation) × (first (λ i. i.id == pk) db.installations ≡ some i)
        × (f i db ≡ ok (b, db'))
  unfolding steps
  get_installation-bind pk f h = elim (Option-cases (first (λ i. i.id == pk) db.installations)) [
    | inl e ↦ absurd (ground arith)
    | inr (i, e) ↦ (i, e, ground arith)
  ]

  pub raise_if-bind :
      (t : Bool) (e : Error) (f : Unit {0} → Service B)
      → (raise_if t e >>= f) db ≡ ok (b, db')
      → (t ≡ false) × (f tt db ≡ ok (b, db'))
  unfolding ◌>>=◌
  raise_if-bind true e f h = absurd (ground arith)
  raise_if-bind false e f h = (ground arith, ground arith)

  pub get_request-bind :
      (pk : ℕ) (f : AdoptionRequest → Service B)
      → (get_request pk >>= f) db ≡ ok (b, db')
      → (r : AdoptionRequest) × (first (λ r. r.id == pk) db.requests ≡ some r)
        × (f r db ≡ ok (b, db'))
  unfolding steps
  get_request-bind pk f h = elim (Option-cases (first (λ r. r.id == pk) db.requests)) [
    | inl e ↦ absurd (ground arith)
    | inr (r, e) ↦ (r, e, ground arith)
  ]

  pub get_invitation-bind :
      (pk : ℕ) (f : AdoptionInvitation → Service B)
      → (get_invitation pk >>= f) db ≡ ok (b, db')
      → (v : AdoptionInvitation) × (first (λ v. v.id == pk) db.invitations ≡ some v)
        × (f v db ≡ ok (b, db'))
  unfolding steps
  get_invitation-bind pk f h = elim (Option-cases (first (λ v. v.id == pk) db.invitations)) [
    | inl e ↦ absurd (ground arith)
    | inr (v, e) ↦ (v, e, ground arith)
  ]

  pub gets-bind :
      {A : Type 0} (g : Db → A) (f : A → Service B)
      → (gets g >>= f) db ≡ ok (b, db')
      → f (g db) db ≡ ok (b, db')
  unfolding ◌>>=◌
  gets-bind g f h = h

  pub modify-bind :
      (g : Db → Db) (f : Unit {0} → Service B)
      → (modify g >>= f) db ≡ ok (b, db')
      → f tt (g db) ≡ ok (b, db')
  unfolding ◌>>=◌
  modify-bind g f h = h

  -- A branch: one of the two services has run.
  pub if-ok :
      (t : Bool) (m k : Service B)
      → (if t then m else k) db ≡ ok (b, db')
      → ((t ≡ true) × (m db ≡ ok (b, db'))) ⊎ ((t ≡ false) × (k db ≡ ok (b, db')))
  if-ok true m k h = inl (refl, h)
  if-ok false m k h = inr (refl, h)
