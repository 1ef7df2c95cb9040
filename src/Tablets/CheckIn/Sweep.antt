-- ===== src/Tablets/CheckIn/Sweep.antt =====
-- The sweep over the installations whose lease has ended.
use fire_dash_server.Prelude.{
  ℕ, ◌≤◌, ◌≡◌, subst, Bool, true, false, ◌&&◌, List, [], ◌∷◌, arith, ◌==◌, ==_refl, leb, count,
  select, All, ok, >>=-eq-ok, pure, gets,
}
use fire_dash_server.Prelude.TableLaws.{All-map, All-count_none, All-select, All-both, All-selected}
use fire_dash_server.Tablets.Models.{AppInstallation, is_current}
use fire_dash_server.Tablets.Store.{Db}
use fire_dash_server.Tablets.Guards.{is_active_installation}
use fire_dash_server.Tablets.Rows.{Kept, Kept-refl, Kept-trans, CurrentAt, Rows-CurrentAt}
use fire_dash_server.Tablets.CheckIn.{mark_stale, mark_all_stale, mark_stale_installations}
use fire_dash_server.Tablets.CheckIn.Kept.{mark_stale-Keeps}

-- No two installations have one key.
abbrev pub Unique : List AppInstallation → Type 0
Unique xs = (pk : ℕ) → count (λ i. i.id == pk) xs ≤ 1

self_counted : (xs : List AppInstallation) → All (λ i. 1 ≤ count (λ r. r.id == i.id) xs) xs
self_counted [] = tt
self_counted (x ∷ xs) = (
  rw (==_refl x.id) (omega arith),
  All-map (λ i. 1 ≤ count (λ r. r.id == i.id) xs) (λ i. 1 ≤ count (λ r. r.id == i.id) (x ∷ xs))
      (λ i h. ground arith) xs (self_counted xs),
)

-- On unique keys, the key of a row in service is the key of no other row.
pub CurrentAt-own_key :
    (xs : List AppInstallation)
    → Unique xs
    → All (λ i. is_current i.status ≡ true → CurrentAt i.id xs) xs
CurrentAt-own_key [] u = tt
CurrentAt-own_key (x ∷ xs) u = (
  λ c. (
    λ _. c,
    All-map (λ r. (r.id == x.id) ≡ false) (λ r. (r.id == x.id) ≡ true → is_current r.status ≡ true)
        (λ r n m. absurd (ground arith)) xs
        (All-count_none (λ r. r.id == x.id) xs (ground (arith, u x.id))),
  ),
  All-map
      (λ i. (is_current i.status ≡ true → CurrentAt i.id xs) × (1 ≤ count (λ r. r.id == i.id) xs))
      (λ i. is_current i.status ≡ true → CurrentAt i.id (x ∷ xs))
      (λ i h c. ((λ m. absurd (ground (arith, u i.id, h.1))), h.0 c)) xs
      (All-both (λ i. is_current i.status ≡ true → CurrentAt i.id xs)
        (λ i. 1 ≤ count (λ r. r.id == i.id) xs) xs
        (CurrentAt-own_key xs (λ pk. ground (arith, u pk))) (self_counted xs)),
)

mark_all_stale-Kept :
    (now : ℕ) (is : List AppInstallation) (db : Db) {u : Unit {0}} {db' : Db}
    → All (λ i. CurrentAt i.id db.installations) is
    → mark_all_stale now is db ≡ ok (u, db')
    → Kept db db'
unfolding mark_all_stale
mark_all_stale-Kept now [] db {db' = db'} c h =
    let same : db ≡ db' = unfold pure in cc in subst (Kept db) same (Kept-refl db)
mark_all_stale-Kept now (i ∷ is) db {db' = db'} c h =
    let (a, t, e, k) = >>=-eq-ok (mark_stale now i) _ db h in
    let marked : Kept db t = (mark_stale-Keeps now i).apply db c.0 a t e in
    Kept-trans db t db' marked (
      mark_all_stale-Kept now is t
        (All-map (λ j. CurrentAt j.id db.installations) (λ j. CurrentAt j.id t.installations)
          (λ j. Rows-CurrentAt j.id db.installations t.installations marked.rows) is c.1)
        k)

-- `ACTIVE`, with a lease that has ended.
abbrev pub is_overdue : ℕ → AppInstallation → Bool
is_overdue now i = is_active_installation i.status && leb i.authorization_valid_until now

overdue-current :
    (now : ℕ) (i : AppInstallation) → is_overdue now i ≡ true → is_current i.status ≡ true
overdue-current now i h = ground arith

overdue_at_own_key :
    (now : ℕ) (xs : List AppInstallation)
    → Unique xs
    → All (λ i. CurrentAt i.id xs) (select (is_overdue now) xs)
overdue_at_own_key now xs u =
    All-map (λ i. (is_overdue now i ≡ true) × (is_current i.status ≡ true → CurrentAt i.id xs))
      (λ i. CurrentAt i.id xs) (λ i h. h.1 (overdue-current now i h.0)) (select (is_overdue now) xs)
      (All-both (λ i. is_overdue now i ≡ true) (λ i. is_current i.status ≡ true → CurrentAt i.id xs)
        (select (is_overdue now) xs) (All-selected (is_overdue now) xs)
        (All-select (λ i. is_current i.status ≡ true → CurrentAt i.id xs) (is_overdue now) xs
          (CurrentAt-own_key xs u)))

pub mark_stale_installations-Kept :
    (now : ℕ) (db : Db) {n : ℕ} {db' : Db}
    → Unique db.installations
    → mark_stale_installations now db ≡ ok (n, db')
    → Kept db db'
unfolding mark_stale_installations
mark_stale_installations-Kept now db {n} {db'} u h =
    let (e, t, read, h1) = >>=-eq-ok (gets λ d. select (is_overdue now) d.installations) _ db h in
    let (v, s, marked, h2) = >>=-eq-ok (mark_all_stale now e) _ t h1 in
    let read_state : t ≡ db = unfold gets in cc in
    let read_rows : e ≡ select (is_overdue now) db.installations = unfold gets in cc in
    let last : s ≡ db' = unfold pure in cc in
    subst (Kept db) last (
      subst (λ d. Kept d s) read_state
        (mark_all_stale-Kept now e t
          (rw (read_rows, read_state) (overdue_at_own_key now db.installations u)) marked))
