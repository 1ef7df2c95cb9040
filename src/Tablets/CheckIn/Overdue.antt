-- ===== src/Tablets/CheckIn/Overdue.antt =====
-- The sweep leaves no installation that is ACTIVE past the end of its lease.
use fire_dash_server.Prelude.{
  ℕ, ◌≤◌, ◌≡◌, refl, Bool, true, false, not, ◌&&◌, List, [], ◌∷◌, arith, ◌==◌, count, select, any,
  update, ok, Bool-cases, inl, inr, none,
}
use fire_dash_server.Prelude.TableLaws.{
  count-update_to, count_none-All, any-select, length-select, All-map, count_same,
}
use fire_dash_server.Tablets.Models.{AppInstallation, became_stale}
use fire_dash_server.Tablets.Store.{Db, steps}
use fire_dash_server.Tablets.CheckIn.{staled, mark_stale, mark_all_stale, mark_stale_installations}
use fire_dash_server.Tablets.CheckIn.Sweep.{is_overdue}

-- Overdue, and none of these installations.
abbrev left : ℕ → List AppInstallation → AppInstallation → Bool
left now is r = is_overdue now r && not (any (λ i. i.id == r.id) is)

marked_one :
    (now : ℕ) (i : AppInstallation) (is rows : List AppInstallation)
    → count (left now is) (update (λ r. r.id == i.id) (staled now) rows)
      ≤ count (left now (i ∷ is)) rows
marked_one now i is =
    count-update_to (left now is) (left now (i ∷ is)) (λ r. r.id == i.id) (staled now)
      (λ r e m. ground arith) (λ r e m. ground arith)

-- The loop returns, and what is left overdue was so before and is none of the list.
marked :
    (now : ℕ) (is : List AppInstallation) (db : Db)
    → (db' : Db) × (mark_all_stale now is db ≡ ok (tt, db'))
      × (count (left now []) db'.installations ≤ count (left now is) db.installations)
unfolding steps mark_all_stale mark_stale
marked now [] db = (db, refl, omega arith)
marked now (i ∷ is) db =
    let mid : Db = record db {
      installations = update (λ r. r.id == i.id) (staled now) db.installations;
      events = record { action = became_stale; actor = none; target_uuid = i.id } ∷ db.events;
    } in
    let (db', e, h) = marked now is mid in
    (db', e, omega (arith, h, marked_one now i is db.installations))

none_left :
    (now : ℕ) (rows : List AppInstallation)
    → count (left now (select (is_overdue now) rows)) rows ≡ 0
none_left now rows = count_none-All (left now (select (is_overdue now) rows)) rows (
    All-map
      (λ x. is_overdue now x ≡ true → any (λ i. i.id == x.id) (select (is_overdue now) rows) ≡ true)
      (λ x. left now (select (is_overdue now) rows) x ≡ false)
      (λ x h. elim (Bool-cases (is_overdue now x)) [ inl e ↦ rw (e, h e) refl | inr e ↦ rw e refl ])
      rows (any-select (λ i. i.id) (is_overdue now) rows))

-- `mark_stale_installations` always returns, gives the number of installations that were ACTIVE with a
-- lease that had ended, and leaves none.
pub mark_stale_installations-none_overdue :
    (now : ℕ) (db : Db)
    → (db' : Db) × (mark_stale_installations now db
        ≡ ok (count (is_overdue now) db.installations, db'))
      × (count (is_overdue now) db'.installations ≡ 0)
unfolding steps mark_stale_installations
mark_stale_installations-none_overdue now db =
    let is : List AppInstallation = select (is_overdue now) db.installations in
    let (db', e, h) = marked now is db in
    (
      db',
      ground (arith, e, length-select (is_overdue now) db.installations),
      omega (
        arith,
        h,
        none_left now db.installations,
        count_same (is_overdue now) (left now []) (λ r. ground arith) db'.installations,
      ),
    )
