-- ===== src/Publications/Changes/Queue.antt =====
-- The queue of builds runs changes: one job and one attempt are added, or the pending job is changed.
use fire_dash_server.Prelude.{
  ℕ, ◌≡◌, refl, sym, ap, ◌∙◌, subst, Bool, true, false, some, none, not, ◌&&◌, ok, ◌∷◌, ==_refl,
  first, arith, ◌>>=◌, suc, row,
}
use mathlib.Core.Option.{some-injective as some_inj}
use fire_dash_server.Publications.Models.{
  JobStatus, Owner, DatasetType, Scope, Publication, Job, is_staged, is_running,
}
use fire_dash_server.Publications.Store.{PublicationDb, Lifecycle, Builders}
use fire_dash_server.Publications.Leads.{
  Relation, Leads, Leads-if, Leads-found, Leads-gets, Leads-or_raise,
}
use fire_dash_server.Publications.Queue.{
  Fresh, Intent, is_live_of, latest_version, allocate_staged_publication, coalesced, coalesce,
  new_job, insert_job, queue_job, is_scope_of, locked_scope, read_source, enqueue_publication_job,
}
use fire_dash_server.Publications.Changes.{
  publication_key, job_key, publication_at, job_at, KeptJob, Quiets, Run, here, next, added, queued,
}
use fire_dash_server.Publications.Changes.Writes.{
  KeptJob-of, Quiet-publications, KeptPublication-refl,
}
use fire_dash_server.Publications.Changes.Steps.{
  Leads-save_job, Leads-Quiet, Leads-log, then_quiet, quiet_pure,
}
use fire_dash_server.Publications.Source.{scope_is_dirty, current_fingerprint}
use fire_dash_server.Publications.Changes.Guards.{Leads-after_read, validate_scope-Reads}
use fire_dash_server.Publications.Changes.Source.{
  current_source_state-Quiets, store_fingerprint-Quiets, reconcile_clean_source-Quiets,
}
use fire_dash_server.Publications.Changes.Runs.{
  IsFresh, Quiets-IsFresh, quietly, then-Run, Run-modify, Run-pure,
}

coalesced_lem :
    (b : Builders) (now : ℕ) (scope : Scope) (intent : Intent) (j : Job)
    → ((coalesced b now scope intent j).id ≡ j.id)
      × ((coalesced b now scope intent j).scope_state_id ≡ j.scope_state_id)
      × ((coalesced b now scope intent j).status ≡ j.status)
      × ((coalesced b now scope intent j).build_publication_id ≡ j.build_publication_id)
coalesced_lem b now scope intent j = (ground arith, ground arith, ground arith, ground arith)

-- What `allocate_staged_publication` has done where it returns.
pub record Allocated (fresh : Fresh) (scope : Scope) (p : Publication) (db t : PublicationDb)
    : Type 0 where
  pub result : t ≡ record db { publications = p ∷ db.publications }
  pub id : p.id ≡ fresh.publication_id
  pub scope_id : p.scope_state_id ≡ scope.id
  pub status : is_staged p.status ≡ true
  pub version : p.version_number ≡ suc (latest_version scope.id db.publications)

module _ {db : PublicationDb} (b : Builders) where
  pub coalesce-Quiets :
      (now : ℕ) (scope : Scope) (intent : Intent) (active : Job)
      → Leads Quiets db (coalesce b now scope intent active)
  unfolding coalesce
  coalesce-Quiets now scope intent active =
      then_quiet _
        (Leads-save_job active.id (coalesced b now scope intent)
          (λ j. (coalesced_lem b now scope intent j).0)
          (λ j h.
            let (i, s, t, k) = coalesced_lem b now scope intent j in
            KeptJob-of db.publications j _ s t k))
        (λ u t e.
          then_quiet _
            (Leads-found _
              (λ pk h. Leads-Quiet _ (
                Quiet-publications t _ _ _ (λ p. refl)
                  (λ k p g s. record {
                    id = refl;
                    scope = refl;
                    version = refl;
                    status = (KeptPublication-refl p).status;
                    artifact = λ a. refl;
                  })
                  refl refl refl))
              (λ h. quiet_pure tt))
            (λ v w g. quiet_pure _))

  pub allocate_lem :
      (fresh : Fresh) (scope : Scope) (job : Job) {p : Publication} {t : PublicationDb}
      → allocate_staged_publication b fresh scope job db ≡ ok (p, t)
      → Allocated fresh scope p db t
  unfolding allocate_staged_publication ◌>>=◌
  allocate_lem fresh scope job h = record {
    result = ground arith;
    id = ground arith;
    scope_id = ground arith;
    status = ground arith;
    version = ground arith;
  }

  pub allocate-Run :
      (fresh : Fresh) (scope : Scope) (job : Job)
      → publication_at fresh.publication_id db ≡ none
      → Leads Run db (allocate_staged_publication b fresh scope job)
  allocate-Run fresh scope job f = record {
    run = λ p t e.
        let a = allocate_lem fresh scope job e in
        next here (
          added p (record {
            publications = ap (λ (x : PublicationDb). x.publications) a.result;
            scopes = ap (λ (x : PublicationDb). x.scopes) a.result;
            jobs = ap (λ (x : PublicationDb). x.jobs) a.result;
            fresh = subst (λ i. publication_at i db ≡ none) (sym a.id) f;
            staged = a.status;
            version =
                subst (λ i. p.version_number ≡ suc (latest_version i db.publications))
                  (sym a.scope_id) a.version;
          }));
  }

module _ {db : PublicationDb} (b : Builders) where
  -- The new job, when its attempt has been added.
  inserted :
      (fresh : Fresh) (scope : Scope) (intent : Intent) (p : Publication) (t : PublicationDb)
      → Allocated fresh scope p (record db { jobs = new_job b fresh scope intent ∷ db.jobs }) t
      → (j : Job) → job_at fresh.job_id t ≡ some j
      → KeptJob t.publications t.publications j (record j { build_publication_id = some p.id })
  inserted fresh scope intent p t a j h = record {
    scope = refl;
    active = λ g. g;
    linked = λ l. record {
      attempt = λ k e. (
        p,
        subst (λ i. publication_at i t ≡ some p) (some_inj p.id k e) found,
        a.scope_id ∙ own,
        λ r. absurd (waiting r),
      );
      has_attempt = λ r. absurd (waiting r);
    };
  }
    where
      found : publication_at p.id t ≡ some p
      found =
          ap (row publication_key p.id) (ap (λ (x : PublicationDb). x.publications) a.result)
          ∙ rw (==_refl p.id)

      job : job_at fresh.job_id t ≡ some (new_job b fresh scope intent)
      job =
          ap (row job_key fresh.job_id) (ap (λ (x : PublicationDb). x.jobs) a.result)
          ∙ rw (==_refl fresh.job_id)

      waiting : is_running j.status ≡ true → ⊥
      waiting r =
          let same : JobStatus.pending ≡ j.status =
            ap (λ (x : Job). x.status) (some_inj _ _ (sym job ∙ h)) in
          cc

      own : scope.id ≡ j.scope_state_id
      own = ap (λ (x : Job). x.scope_state_id) (some_inj _ _ (sym job ∙ h))

  insert_job-Run :
      (fresh : Fresh) (scope : Scope) (intent : Intent)
      → IsFresh fresh db
      → first (is_live_of scope.id) db.jobs ≡ none
      → Leads Run db (insert_job b fresh scope intent)
  unfolding insert_job
  insert_job-Run fresh scope intent f idle =
      Run-modify _ _
        (queued (new_job b fresh scope intent) (record {
          jobs = refl;
          scopes = refl;
          publications = refl;
          fresh = f.job;
          idle = idle;
          unlinked = refl;
          waits = refl;
        }))
        (then-Run _ (allocate-Run b fresh scope (new_job b fresh scope intent) f.publication)
          (λ p t e. quietly (
            then_quiet _
              (Leads-save_job _ _ (λ j. refl)
                (λ j h.
                  inserted fresh scope intent p t
                    (allocate_lem b fresh scope (new_job b fresh scope intent) e) j h))
              (λ u v g. then_quiet _ (Leads-log _ _ _) (λ w x k. quiet_pure _)))))

  pub queue_job-Run :
      (fresh : Fresh) (scope : Scope) (intent : Intent)
      → IsFresh fresh db
      → Leads Run db (queue_job b fresh scope intent)
  unfolding queue_job
  queue_job-Run fresh scope intent f = Leads-gets _ _ (
      Leads-found (first (is_live_of scope.id) db.jobs)
        (λ active e.
          Leads-if (is_running active.status) (λ r. Run-pure none)
            (λ r. quietly (coalesce-Quiets b fresh.now scope intent active)))
        (λ e. insert_job-Run fresh scope intent f e))

pub Leads-locked_scope :
    {R : Relation} {db : PublicationDb} {A : Type 0} (owner : Owner) (dataset : DatasetType)
    (f : Scope → Lifecycle A)
    → ((s : Scope) → first (is_scope_of owner dataset) db.scopes ≡ some s → Leads R db (f s))
    → Leads R db (locked_scope owner dataset >>= f)
unfolding locked_scope ◌>>=◌
Leads-locked_scope {db = db} owner dataset f h = record {
  run = (Leads-or_raise (first (is_scope_of owner dataset) db.scopes) _ f h).run;
}

module _ {db : PublicationDb} (b : Builders) where
  read_source-Quiets : (given : Bool) (scope : Scope) → Leads Quiets db (read_source b given scope)
  unfolding read_source
  read_source-Quiets true scope = quiet_pure scope
  read_source-Quiets false scope =
      then_quiet _ (current_source_state-Quiets b scope) (λ s t e. store_fingerprint-Quiets b s)

  pub enqueue_publication_job-Run :
      (fresh : Fresh) (owner : Owner) (dataset : DatasetType) (intent : Intent) (given : Bool)
      → IsFresh fresh db
      → Leads Run db (enqueue_publication_job b fresh owner dataset intent given)
  unfolding enqueue_publication_job
  enqueue_publication_job-Run fresh owner dataset intent given f =
      Leads-after_read _ _ (validate_scope-Reads owner dataset) (λ u h.
        Leads-locked_scope owner dataset _ (λ found k.
          then-Run _ (quietly (read_source-Quiets given found)) (λ scope t e. Leads-gets _ _ (
            Leads-if
              (not intent.allow_clean_rebuild
                && not (scope_is_dirty b scope (some (current_fingerprint b scope)) t))
              (λ c. quietly (
                then_quiet _ (reconcile_clean_source-Quiets b fresh.now scope)
                  (λ v w g. quiet_pure none)))
              (λ c.
                queue_job-Run b fresh scope intent (
                  Quiets-IsFresh fresh db t ((read_source-Quiets given found).run scope t e) f))))))
