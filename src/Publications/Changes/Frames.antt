-- ===== src/Publications/Changes/Frames.antt =====
-- What stays under quiet changes, and the steps that leave the jobs as they are.
use fire_dash_server.Prelude.{
  ℕ, ◌≡◌, refl, ◌∙◌, Bool, true, Option, some, none, ok, arith, ◌>>=◌, pure, when,
}
use fire_dash_server.Publications.Models.{Publication, DatasetType}
use fire_dash_server.Publications.Store.{
  PublicationDb, Lifecycle, Builders, save_publication, schedule_artifact_removal,
}
use fire_dash_server.Publications.Artifacts.{
  release_terminal_document_artifact_references, pin_source,
}
use fire_dash_server.Publications.Leads.{Leads, Leads-bind, Leads-pure, Leads-when}
use fire_dash_server.Publications.Changes.{publication_at, Quiets, still, more}

-- A publication is still found, in the same scope.
pub Quiets-forth :
    (t u : PublicationDb) (k : ℕ) (p : Publication)
    → Quiets t u
    → publication_at k t ≡ some p
    → (q : Publication) × (publication_at k u ≡ some q) × (q.scope_state_id ≡ p.scope_state_id)
Quiets-forth t u k p still h = (p, h, refl)
Quiets-forth t u k p (more r q) h =
    let (x, e, s) = Quiets-forth t _ k p r h in
    let (y, f, kept) = q.publications_forth k x e in (y, f, kept.scope ∙ s)

abbrev pub SameJobs : PublicationDb → PublicationDb → Type 0
SameJobs t u = u.jobs ≡ t.jobs

module _ {db : PublicationDb} where
  pub then_same :
      {A B : Type 0} (m : Lifecycle A) {f : A → Lifecycle B}
      → Leads SameJobs db m
      → ((a : A) (t : PublicationDb) → m db ≡ ok (a, t) → Leads SameJobs t (f a))
      → Leads SameJobs db (m >>= f)
  then_same = Leads-bind (λ t u v a b. b ∙ a)

  pub same_pure : {A : Type 0} (a : A) → Leads SameJobs db (pure a)
  same_pure = Leads-pure (λ t. refl)

  pub same_when :
      (t : Bool) {m : Lifecycle (Unit {0})}
      → (t ≡ true → Leads SameJobs db m)
      → Leads SameJobs db (when t m)
  same_when = Leads-when (λ t. refl)

  pub save_publication-SameJobs :
      (pk : ℕ) (f : Publication → Publication) → Leads SameJobs db (save_publication pk f)
  unfolding save_publication ◌>>=◌
  save_publication-SameJobs pk f = record { run = λ a db' h. ground arith }

  pub pin_source-SameJobs : (b : Builders) (pk n : ℕ) → Leads SameJobs db (pin_source b pk n)
  unfolding pin_source ◌>>=◌
  pin_source-SameJobs b pk n = record { run = λ a db' h. ground arith }

  pub release-SameJobs :
      (dataset : DatasetType) (p : Publication)
      → Leads SameJobs db (release_terminal_document_artifact_references dataset p)
  unfolding release_terminal_document_artifact_references ◌>>=◌
  release-SameJobs dataset p = record { run = λ a db' h. ground arith }

-- The files that are to be removed are no matter of the publications.
pub schedule-publications :
    (db t : PublicationDb) (path : Option ℕ) (u : Unit {0})
    → schedule_artifact_removal path db ≡ ok (u, t)
    → t.publications ≡ db.publications
unfolding schedule_artifact_removal ◌>>=◌
schedule-publications db t none u h = ground arith
schedule-publications db t (some path) u h = ground arith
