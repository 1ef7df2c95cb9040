-- ===== src/Publications/Changes/Opening.antt =====
-- What a service has read when it has opened a publication, and what the tests of a review say.
use fire_dash_server.Prelude.{
  ℕ, ◌≡◌, sym, subst, true, some, Option-cases, inl, inr, ok, arith, ◌>>=◌, >>=-eq-ok, pure,
}
use fire_dash_server.Tablets.Models.{User}
use fire_dash_server.Publications.Models.{
  Scope, Publication, is_ready_for_review, is_ready_artifact,
}
use fire_dash_server.Publications.Store.{
  PublicationDb, Lifecycle, Builders, writes, get_publication, lock_scope,
}
use fire_dash_server.Publications.Authority.{require_publication_scope}
use fire_dash_server.Publications.Review.{open_attempt, require_publishable}
use fire_dash_server.Publications.Leads.{Relation, Leads}
use fire_dash_server.Publications.Changes.{publication_at, scope_at}
use fire_dash_server.Publications.Changes.Steps.{lock_scope_lem}
use fire_dash_server.Publications.Changes.Guards.{require_publication_scope-Reads}

pub record Opened (pk : ℕ) (p : Publication) (s : Scope) (db t : PublicationDb) : Type 0 where
  pub publication : publication_at pk db ≡ some p
  pub scope : scope_at p.scope_state_id db ≡ some s
  pub same : db ≡ t

get_publication_lem :
    (pk : ℕ) (p : Publication) (db t : PublicationDb)
    → get_publication pk db ≡ ok (p, t)
    → (publication_at pk db ≡ some p) × (db ≡ t)
unfolding writes
get_publication_lem pk p db t h = elim (Option-cases (publication_at pk db)) [
  | inl e ↦ absurd (ground arith)
  | inr (q, e) ↦ (ground arith, ground arith)
]

pub open_attempt_lem :
    (actor : User) (pk : ℕ) (p : Publication) (s : Scope) (db t : PublicationDb)
    → open_attempt actor pk db ≡ ok ((p, s), t)
    → Opened pk p s db t
unfolding open_attempt pure
open_attempt_lem actor pk p s db t h =
    let (q, t1, e1, k1) = >>=-eq-ok (get_publication pk) _ db h in
    let (found, same1) = get_publication_lem pk q db t1 e1 in
    let (r, t2, e2, k2) = >>=-eq-ok (lock_scope q.scope_state_id) _ t1 k1 in
    let (scope, same2) = lock_scope_lem q.scope_state_id t1 e2 in
    let (u, t3, e3, k3) = >>=-eq-ok (require_publication_scope actor r.owner r.dataset) _ t2 k2 in
    let same3 : t2 ≡ t3 = (require_publication_scope-Reads actor r.owner r.dataset).run u t3 e3 in
    record { publication = cc; scope = cc; same = cc }

require_publishable_lem :
    (b : Builders) (scope : Scope) (p : Publication) (db t : PublicationDb) (r : Unit {0})
    → require_publishable b scope p db ≡ ok (r, t)
    → (is_ready_for_review p.status ≡ true)
      × (is_ready_artifact p.artifact_status ≡ true)
      × (db ≡ t)
unfolding require_publishable ◌>>=◌
require_publishable_lem b scope p db t r h = (ground arith, ground arith, ground arith)

-- The tests that a review passes.
pub Leads-publishable :
    {R : Relation} {db : PublicationDb} {A : Type 0} (b : Builders) (scope : Scope)
    (p : Publication) (f : Unit {0} → Lifecycle A)
    → (is_ready_for_review p.status ≡ true
        → is_ready_artifact p.artifact_status ≡ true
        → Leads R db (f tt))
    → Leads R db (require_publishable b scope p >>= f)
Leads-publishable {R} {db} {A} b scope p f h = record {
  run = λ a u k.
      let (r, t, e, g) = >>=-eq-ok (require_publishable b scope p) f db k in
      let (waits, ready, same) = publishable_lem r t e in
      (h waits ready).run a u (subst (λ x. f r x ≡ ok (a, u)) (sym same) g);
}
  where
    publishable_lem :
        (r : Unit {0}) (t : PublicationDb)
        → require_publishable b scope p db ≡ ok (r, t)
        → (is_ready_for_review p.status ≡ true)
          × (is_ready_artifact p.artifact_status ≡ true)
          × (db ≡ t)
    publishable_lem r t e = require_publishable_lem b scope p db t r e
