-- ===== src/Tablets/Invariant.antt =====
-- The well-formedness of the tablet tables (apps/tablets/models.py), and the writes that keep it.
pub mod Services
pub mod Adoption
use fire_dash_server.Prelude.{
  ℕ, suc, ◌≤◌, ◌≡◌, refl, sym, subst, ap, ◌∙◌, inl, inr, Bool, true, false, not, ◌&&◌, List, [],
  ◌∷◌, Option, none, some, arith, ◌==◌, ==_refl, eq_of_==, if◌then◌else◌, Bool-cases, update, count,
  first, any, All, take,
}
use fire_dash_server.Prelude.TableLaws.{
  All-map, All-update, count-update_le, count-update_none, count-update_same, All-first, All-both,
  All-unique,
}
use fire_dash_server.Tablets.Models.{
  Text, Tablet, TabletStatus, AppInstallation, InstallationStatus, is_current,
}
use fire_dash_server.Tablets.Lifecycle.{is_current_of}
use fire_dash_server.Tablets.Lifecycle.Frames.{revoked_row, withdrawn_rows}
use fire_dash_server.Tablets.Rows.{Rows, KeptRow, count-Rows}
use fire_dash_server.Tablets.CheckIn.Sweep.{Unique}
use fire_dash_server.Tablets.Adoption.Effects.{adopted_rows, replaced_row}

-- A row with a fresh key leaves keys unique.
count_cons_fresh :
    {A : Type 0} (key : A → ℕ) (x : A) (xs : List A)
    → count (λ r. key r == key x) xs ≡ 0
    → ((pk : ℕ) → count (λ r. key r == pk) xs ≤ 1)
    → (pk : ℕ) → count (λ r. key r == pk) (x ∷ xs) ≤ 1
count_cons_fresh key x xs fresh u pk = elim (Bool-cases (key x == pk)) [
  | inl e ↦
      rw e
        (omega (arith, subst (λ k. count (λ r. key r == k) xs ≡ 0) (eq_of_== (key x) pk e) fresh))
  | inr e ↦ rw e (u pk)
]

-- Neither lost nor retired.
abbrev pub is_in_service : TabletStatus → Bool
is_in_service TabletStatus.inactive = true
is_in_service TabletStatus.active = true
is_in_service TabletStatus.lost = false
is_in_service TabletStatus.retired = false

-- A row's flag says what its status says, and a tablet that is lost or retired has no
-- installation in service.
pub record TabletOk (installations : List AppInstallation) (t : Tablet) : Type 0 where
  pub flag : t.is_active ≡ is_in_service t.status
  pub withdrawn : is_in_service t.status ≡ false → count (is_current_of t.id) installations ≡ 0

-- Keys are unique, a tablet has one installation in service at most, and every tablet is as
-- `TabletOk` says.
pub record Consistent (tablets : List Tablet) (installations : List AppInstallation) : Type 0 where
  pub unique_tablets : (pk : ℕ) → count (λ t. t.id == pk) tablets ≤ 1
  pub unique : Unique installations
  pub one_current : (tablet_id : ℕ) → count (is_current_of tablet_id) installations ≤ 1
  pub tablets_ok : All (TabletOk installations) tablets

-- A write that brings no installation into service.
pub Consistent-fewer :
    (ts : List Tablet) (is js : List AppInstallation)
    → ((pk : ℕ) → count (λ i. i.id == pk) js ≤ count (λ i. i.id == pk) is)
    → ((t : ℕ) → count (is_current_of t) js ≤ count (is_current_of t) is)
    → Consistent ts is
    → Consistent ts js
Consistent-fewer ts is js keys fewer c = record {
  unique_tablets = c.unique_tablets;
  unique = λ pk. omega (arith, keys pk, c.unique pk);
  one_current = λ t. omega (arith, fewer t, c.one_current t);
  tablets_ok =
      All-map (TabletOk is) (TabletOk js)
        (λ t k. record { flag = k.flag; withdrawn = λ s. omega (arith, fewer t.id, k.withdrawn s) })
        ts c.tablets_ok;
}

pub Consistent-Rows :
    (ts : List Tablet) (is js : List AppInstallation)
    → Rows is js
    → Consistent ts is
    → Consistent ts js
Consistent-Rows ts is js r =
    Consistent-fewer ts is js
      (λ pk. rw (count-Rows (λ i. i.id == pk) (λ x y k. rw k.id refl) is js r) (omega arith))
      (λ t.
        rw (count-Rows (is_current_of t) (λ x y k. rw (k.tablet_id, k.current) refl) is js r)
          (omega arith))

-- The revocation of one installation.
pub Consistent-revoke :
    (ts : List Tablet) (is : List AppInstallation) (pk now : ℕ) (reason : Text)
    → Consistent ts is
    → Consistent ts (update (λ i. i.id == pk) (revoked_row now reason) is)
Consistent-revoke ts is pk now reason =
    Consistent-fewer ts is _
      (λ k.
        rw
          (count-update_same (λ i. i.id == k) (λ i. i.id == pk) (revoked_row now reason) (λ x. refl)
            is)
          (omega arith))
      (λ t.
        count-update_le (is_current_of t) (λ i. i.id == pk) _ (λ x e m. absurd (ground arith)) is)

-- The withdrawal of the installations of one tablet.
pub Consistent-withdraw :
    (ts : List Tablet) (is : List AppInstallation) (now tablet_id : ℕ) (reason : Text)
    → Consistent ts is
    → Consistent ts (withdrawn_rows now tablet_id reason is)
Consistent-withdraw ts is now tablet_id reason =
    Consistent-fewer ts is _
      (λ k.
        rw
          (count-update_same (λ i. i.id == k) (is_current_of tablet_id) (revoked_row now reason)
            (λ x. refl) is)
          (omega arith))
      (λ t.
        count-update_le (is_current_of t) (is_current_of tablet_id) _
          (λ x e m. absurd (ground arith)) is)

pub count-withdrawn_rows :
    (is : List AppInstallation) (now tablet_id : ℕ) (reason : Text)
    → count (is_current_of tablet_id) (withdrawn_rows now tablet_id reason is) ≡ 0
count-withdrawn_rows is now tablet_id reason =
    count-update_none (is_current_of tablet_id) (is_current_of tablet_id) _ (λ x h. h)
      (λ x h. ground arith) is

abbrev pub moved_row : TabletStatus → Tablet → Tablet
moved_row to t = record t { status = to; is_active = is_in_service to }

-- A move of one tablet: to a status of service, or where nothing of it is in service.
pub Consistent-move :
    (ts : List Tablet) (is : List AppInstallation) (pk : ℕ) (to : TabletStatus)
    → (is_in_service to ≡ false → count (is_current_of pk) is ≡ 0)
    → Consistent ts is
    → Consistent (update (λ t. t.id == pk) (moved_row to) ts) is
Consistent-move ts is pk to h c = record {
  unique_tablets = λ k.
      rw (count-update_same (λ t. t.id == k) (λ t. t.id == pk) (moved_row to) (λ x. refl) ts)
        (c.unique_tablets k);
  unique = c.unique;
  one_current = c.one_current;
  tablets_ok =
      All-update (TabletOk is) (λ t. t.id == pk) _
        (λ t e k. record { flag = refl; withdrawn = λ s. rw (eq_of_== t.id pk e) (h s) }) ts
        c.tablets_ok;
}

-- The registration of a tablet.
pub Consistent-register :
    (ts : List Tablet) (is : List AppInstallation) (t : Tablet)
    → t.status ≡ TabletStatus.inactive
    → t.is_active ≡ true
    → count (λ r. r.id == t.id) ts ≡ 0
    → Consistent ts is
    → Consistent (t ∷ ts) is
Consistent-register ts is t s f fresh c = record {
  unique_tablets = count_cons_fresh (λ r. r.id) t ts fresh c.unique_tablets;
  unique = c.unique;
  one_current = c.one_current;
  tablets_ok =
      (record { flag = rw (f, s) refl; withdrawn = λ m. absurd (ground arith) }, c.tablets_ok);
}

-- The installations of an adoption: those of the tablet are replaced by the new one.
module _ (is : List AppInstallation) (i : AppInstallation) where
  pub count-adopted_rows :
      count (is_current_of i.tablet_id) (update (is_current_of i.tablet_id) replaced_row is) ≡ 0
  count-adopted_rows =
      count-update_none (is_current_of i.tablet_id) (is_current_of i.tablet_id) replaced_row
        (λ x h. h) (λ x h. ground arith) is

  keys-adopted_rows :
      (pk : ℕ)
      → count (λ r. r.id == pk) (update (is_current_of i.tablet_id) replaced_row is)
        ≡ count (λ r. r.id == pk) is
  keys-adopted_rows pk =
      count-update_same (λ r. r.id == pk) (is_current_of i.tablet_id) replaced_row (λ x. refl) is

  adopted_rows_le :
      (t : ℕ)
      → count (is_current_of t) (update (is_current_of i.tablet_id) replaced_row is)
        ≤ count (is_current_of t) is
  adopted_rows_le t =
      count-update_le (is_current_of t) (is_current_of i.tablet_id) replaced_row
        (λ x e m. absurd (ground arith)) is

  adopted_one :
      (t : ℕ)
      → count (is_current_of t) is ≤ 1
      → count (is_current_of t) (adopted_rows i i.tablet_id is) ≤ 1
  adopted_one t h = elim (Bool-cases (i.tablet_id == t)) [
    | inl e ↦ ground (
      arith,
      subst (λ k. count (is_current_of k) (update (is_current_of i.tablet_id) replaced_row is) ≡ 0)
          (eq_of_== i.tablet_id t e) count-adopted_rows,
    )
    | inr e ↦ ground (arith, adopted_rows_le t)
  ]

  adopted_ok :
      (t : Tablet)
      → ((t.id == i.tablet_id) ≡ true → is_in_service t.status ≡ true)
      → TabletOk is t
      → TabletOk (adopted_rows i i.tablet_id is) t
  adopted_ok t h k = record {
    flag = k.flag;
    withdrawn = λ s. elim (Bool-cases (t.id == i.tablet_id)) [
      | inl e ↦ absurd (ground (arith, h e))
      | inr e ↦ ground (arith, k.withdrawn s, adopted_rows_le t.id)
    ];
  }

-- The adoption of a tablet in service by an installation with a fresh key.
pub Consistent-adopt :
    (ts : List Tablet) (is : List AppInstallation) (t : Tablet) (i : AppInstallation)
    → first (λ r. r.id == i.tablet_id) ts ≡ some t
    → is_in_service t.status ≡ true
    → count (λ r. r.id == i.id) is ≡ 0
    → Consistent ts is
    → Consistent ts (adopted_rows i i.tablet_id is)
Consistent-adopt ts is t i found s fresh c = record {
  unique_tablets = c.unique_tablets;
  unique =
      count_cons_fresh (λ r. r.id) i (update (is_current_of i.tablet_id) replaced_row is)
        (keys-adopted_rows is i i.id ∙ fresh) (λ pk. rw (keys-adopted_rows is i pk) (c.unique pk));
  one_current = λ k. adopted_one is i k (c.one_current k);
  tablets_ok =
      All-map (λ r. (((r.id == i.tablet_id) ≡ true) → r ≡ t) × TabletOk is r)
        (TabletOk (adopted_rows i i.tablet_id is))
        (λ r h. adopted_ok is i r (λ e. ap (λ x. is_in_service x.status) (h.0 e) ∙ s) h.1) ts
        (All-both (λ r. (r.id == i.tablet_id) ≡ true → r ≡ t) (TabletOk is) ts
          (All-unique (λ r. r.id == i.tablet_id) ts (c.unique_tablets i.tablet_id) found)
          c.tablets_ok);
}
