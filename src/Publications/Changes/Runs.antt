-- ===== src/Publications/Changes/Runs.antt =====
-- Runs of changes: how they are put together, and which keys stay free.
use fire_dash_server.Prelude.{
  ◌≡◌, sym, ◌∙◌, Bool, true, none, some, Option-cases, inl, inr, ok, ◌>>=◌, pure, when, modify,
}
use fire_dash_server.Publications.Models.{Publication, Job}
use fire_dash_server.Publications.Store.{PublicationDb, Lifecycle}
use fire_dash_server.Publications.Leads.{Leads, Leads-bind, Leads-pure, Leads-when, Leads-weaken}
use fire_dash_server.Publications.Queue.{Fresh}
use fire_dash_server.Publications.Changes.{
  publication_at, job_at, Quiet, Quiets, still, more, Change, quiet, Run, here, next,
}

pub Run-trans : (t u v : PublicationDb) → Run t u → Run u v → Run t v
Run-trans t u v r here = r
Run-trans t u v r (next s c) = next (Run-trans t u _ r s) c

pub Run-refl : (t : PublicationDb) → Run t t
Run-refl t = here

pub Quiets-Run : (t u : PublicationDb) → Quiets t u → Run t u
Quiets-Run t u still = here
Quiets-Run t u (more r q) = next (Quiets-Run t _ r) (quiet q)

module _ {db : PublicationDb} where
  pub quietly : {A : Type 0} {m : Lifecycle A} → Leads Quiets db m → Leads Run db m
  quietly l = Leads-weaken Quiets-Run l

  pub then-Run :
      {A B : Type 0} (m : Lifecycle A) {f : A → Lifecycle B}
      → Leads Run db m
      → ((a : A) (t : PublicationDb) → m db ≡ ok (a, t) → Leads Run t (f a))
      → Leads Run db (m >>= f)
  then-Run = Leads-bind Run-trans

  pub Run-pure : {A : Type 0} (a : A) → Leads Run db (pure a)
  Run-pure = Leads-pure Run-refl

  pub Run-when :
      (t : Bool) {m : Lifecycle (Unit {0})} → (t ≡ true → Leads Run db m) → Leads Run db (when t m)
  Run-when = Leads-when Run-refl

  -- A write whose result is known.
  pub Run-modify :
      {A : Type 0} (g : PublicationDb → PublicationDb) (f : Unit {0} → Lifecycle A)
      → Change db (g db)
      → Leads Run (g db) (f tt)
      → Leads Run db (modify g >>= f)
  unfolding ◌>>=◌
  Run-modify g f c l = record {
    run = λ a db' h. Run-trans db (g db) db' (next here c) (l.run a db' h);
  }

-- The keys that a call may give to new rows are free.
pub record IsFresh (fresh : Fresh) (db : PublicationDb) : Type 0 where
  pub job : job_at fresh.job_id db ≡ none
  pub publication : publication_at fresh.publication_id db ≡ none

Quiet-IsFresh :
    (fresh : Fresh) (t u : PublicationDb) → Quiet t u → IsFresh fresh t → IsFresh fresh u
Quiet-IsFresh fresh t u q f = record { job = job; publication = publication }
  where
    job : job_at fresh.job_id u ≡ none
    job = elim (Option-cases (job_at fresh.job_id u)) [
      | inl e ↦ e
      | inr (j, e) ↦ let (i, g, k) = q.jobs_back _ j e in absurd (clash i (sym f.job ∙ g))
    ]
      where
        clash : (i : Job) → none ≡ some i → ⊥
        clash i h = cc

    publication : publication_at fresh.publication_id u ≡ none
    publication = elim (Option-cases (publication_at fresh.publication_id u)) [
      | inl e ↦ e
      | inr (p, e) ↦
          let (i, g, k) = q.publications_back _ p e in absurd (clash i (sym f.publication ∙ g))
    ]
      where
        clash : (i : Publication) → none ≡ some i → ⊥
        clash i h = cc

pub Quiets-IsFresh :
    (fresh : Fresh) (t u : PublicationDb) → Quiets t u → IsFresh fresh t → IsFresh fresh u
Quiets-IsFresh fresh t u still f = f
Quiets-IsFresh fresh t u (more r q) f = Quiet-IsFresh fresh _ u q (Quiets-IsFresh fresh t _ r f)

-- A quiet step, after which the keys are still free.
pub then_fresh :
    {db : PublicationDb} {A B : Type 0} (fresh : Fresh) (m : Lifecycle A) {f : A → Lifecycle B}
    → IsFresh fresh db
    → Leads Quiets db m
    → ((a : A) (t : PublicationDb) → m db ≡ ok (a, t) → IsFresh fresh t → Leads Run t (f a))
    → Leads Run db (m >>= f)
then_fresh {db} fresh m free l h =
    then-Run m (quietly l) (λ a t e. h a t e (Quiets-IsFresh fresh db t (l.run a t e) free))
