-- ===== src/Publications/Changes/Claiming.antt =====
-- `_claim_job` and `heartbeat_job` run changes.
use fire_dash_server.Prelude.{
  ℕ, ◌≡◌, refl, sym, ap, ◌∙◌, subst, true, false, not, ◌&&◌, none, some, is_none, ok, ◌==◌, arith,
  ◌>>=◌, pure, row, row-key, first, first-row, Bool-cases, inl, inr,
}
use fire_dash_server.Prelude.TableLaws.{first_sound}
use fire_dash_server.Publications.Models.{Scope, Job, JobStatus, is_staged, is_pending, is_running}
use fire_dash_server.Publications.Registry.{get_dataset_definition, is_file_dataset}
use fire_dash_server.Publications.Store.{PublicationDb, Lifecycle, Builders}
use fire_dash_server.Publications.Source.{current_source_state, store_fingerprint}
use fire_dash_server.Publications.Queue.{Fresh}
use fire_dash_server.Publications.Claim.{
  ended_job, build_attempt, attempt_of, reverted, claim_known, fail_unknown, claim_job,
  heartbeat_job,
}
use fire_dash_server.Publications.Leads.{Leads, Leads-if, Leads-found, Leads-gets, Leads-weaken}
use fire_dash_server.Publications.Changes.{job_key, scope_key, job_at, IsLinked, Quiets, Run}
use fire_dash_server.Publications.Changes.Writes.{KeptJob-of}
use fire_dash_server.Publications.Changes.Steps.{
  ScopesOnly, Leads-save_job, Leads-lock_scope, then_quiet, quiet_pure, Quiets-trans,
}
use fire_dash_server.Publications.Changes.Source.{
  current_source_state-ScopesOnly, store_fingerprint-ScopesOnly, reconcile_clean_source-Quiets,
  reconcile_clean_source-false,
}
use fire_dash_server.Publications.Changes.Runs.{
  IsFresh, Quiets-IsFresh, quietly, then-Run, Run-pure,
}
use fire_dash_server.Publications.Changes.Claim.{
  end_job-Quiets, start_build-Quiets, abandon_job-Quiets, attempt_of-Run, attempt_of_lem, Given,
}
use fire_dash_server.Publications.Invariant.{IsSound}

-- A job that can be started: it is pending, and where it has an attempt, that is of its scope.
pub record IsReady (db : PublicationDb) (scope_id : ℕ) (job : Job) : Type 0 where
  pub found : job_at job.id db ≡ some job
  pub pending : is_pending job.status ≡ true
  pub linked : IsLinked db.publications job
  pub scope : job.scope_state_id ≡ scope_id

-- The same, at the same publications and jobs.
IsReady-moved :
    (db t : PublicationDb) (scope_id n : ℕ) (job : Job)
    → t.publications ≡ db.publications
    → t.jobs ≡ db.jobs
    → n ≡ scope_id
    → IsReady db scope_id job
    → IsReady t n job
IsReady-moved db t scope_id n job ep ej en r = record {
  found = ap (row job_key job.id) ej ∙ r.found;
  pending = r.pending;
  linked = subst (λ xs. IsLinked xs job) (sym ep) r.linked;
  scope = r.scope ∙ sym en;
}

module _ {db : PublicationDb} (b : Builders) where
  build_attempt-Run :
      (fresh : Fresh) (scope : Scope) (job : Job)
      → IsFresh fresh db
      → IsReady db scope.id job
      → Leads Run db (build_attempt b fresh scope job)
  unfolding build_attempt Given
  build_attempt-Run fresh scope job f r = then-Run _ (attempt_of-Run b fresh scope job f) (λ o t e.
      Leads-found o
        (λ p h.
          let (found, own, same) =
            attempt_of_lem db b fresh scope job r.linked r.scope p t
              (subst (λ x. attempt_of b fresh scope job db ≡ ok (x, t)) h e) in
          quietly (
            Leads-if (is_staged p.status)
              (λ st.
                start_build-Quiets b fresh.now scope job p (ap (row job_key job.id) same ∙ r.found)
                  r.pending found st own)
              (λ st. abandon_job-Quiets b fresh.now scope job)))
        (λ h. quietly (abandon_job-Quiets b fresh.now scope job)))

  reverted-Quiets :
      (now : ℕ) (scope : Scope) (job : Job) → Leads Quiets db (reverted b now scope job)
  unfolding reverted
  reverted-Quiets now scope job =
      Leads-if (is_file_dataset scope.dataset && not job.allow_clean_rebuild)
        (λ h. reconcile_clean_source-Quiets b now scope) (λ h. quiet_pure false)

  reverted-false :
      (now : ℕ) (scope : Scope) (job : Job) {t : PublicationDb}
      → reverted b now scope job db ≡ ok (false, t)
      → t ≡ db
  unfolding reverted pure
  reverted-false now scope job {t} h =
      elim (Bool-cases (is_file_dataset scope.dataset && not job.allow_clean_rebuild)) [
        | inl e ↦ reconcile_clean_source-false b now scope (rw e at h)
        | inr e ↦ cc (rw e at h)
      ]

module _ (db : PublicationDb) (b : Builders) where
  -- The source steps give the scope that they are given, but for its source.
  current_source_state-id :
      (s s' : Scope) (t : PublicationDb) → current_source_state b s db ≡ ok (s', t) → s'.id ≡ s.id
  unfolding current_source_state ◌>>=◌
  current_source_state-id s s' t h = ground arith

  store_fingerprint-id :
      (s s' : Scope) (t : PublicationDb) → store_fingerprint b s db ≡ ok (s', t) → s'.id ≡ s.id
  unfolding store_fingerprint ◌>>=◌
  store_fingerprint-id s s' t h = ground arith

module _ {db : PublicationDb} (b : Builders) where
  claim_known-Run :
      (fresh : Fresh) (scope : Scope) (job : Job)
      → IsFresh fresh db
      → IsReady db scope.id job
      → Leads Run db (claim_known b fresh scope job)
  unfolding claim_known
  claim_known-Run fresh scope job f r =
      then-Run _ (quietly (quiet_part (current_source_state-ScopesOnly b scope))) (λ s t e.
        let first_part = (current_source_state-ScopesOnly b scope).run s t e in
        then-Run _ (quietly (quiet_part (store_fingerprint-ScopesOnly b s))) (λ s' u g.
          let second_part = (store_fingerprint-ScopesOnly b s).run s' u g in
          then-Run _ (quietly (reverted-Quiets b fresh.now s' job)) (λ clean v h.
            Leads-if clean (λ c. Run-pure none)
              (λ c.
                let same : v ≡ u =
                  reverted-false b fresh.now s' job
                    (subst (λ x. reverted b fresh.now s' job u ≡ ok (x, v)) c h) in
                subst (λ x. Leads Run x (build_attempt b fresh s' job)) (sym same)
                  (build_attempt-Run b fresh s' job
                    (Quiets-IsFresh fresh db u
                      (Quiets-trans db t u first_part.quiet second_part.quiet) f)
                    (IsReady-moved db u scope.id s'.id job
                      (second_part.publications ∙ first_part.publications)
                      (second_part.jobs ∙ first_part.jobs)
                      (store_fingerprint-id t b s s' u g ∙ current_source_state-id db b scope s t e)
                      r))))))
    where
      quiet_part :
          {A : Type 0} {t : PublicationDb} {m : Lifecycle A}
          → Leads ScopesOnly t m
          → Leads Quiets t m
      quiet_part l = Leads-weaken (λ x y h. h.quiet) l

  fail_unknown-Quiets : (now : ℕ) (job : Job) → Leads Quiets db (fail_unknown b now job)
  unfolding fail_unknown
  fail_unknown-Quiets now job =
      then_quiet _
        (end_job-Quiets job.id (ended_job JobStatus.failed now) (λ j. refl) (λ j. refl) (λ j. refl)
          (λ j. refl))
        (λ u t e. quiet_pure _)

  pub claim_job-Run :
      (fresh : Fresh) (candidate : Job)
      → IsSound db
      → IsFresh fresh db
      → ((j : Job) → job_at candidate.id db ≡ some j → j.scope_state_id ≡ candidate.scope_state_id)
      → Leads Run db (claim_job b fresh candidate)
  unfolding claim_job
  claim_job-Run fresh candidate i f stays = Leads-lock_scope _ _ (λ scope e. Leads-gets _ _ (
      Leads-found (first (λ j. j.id == candidate.id && is_pending j.status) db.jobs)
        (λ job h.
          let found = first-row job_key _ db.jobs i.keyed_jobs h in
          let tests = first_sound (λ j. j.id == candidate.id && is_pending j.status) db.jobs h in
          Leads-if (is_none (get_dataset_definition scope.dataset))
            (λ u. quietly (fail_unknown-Quiets fresh.now job))
            (λ u.
              let key : job.id ≡ candidate.id = ground arith in
              claim_known-Run fresh scope job f (record {
                found = found;
                pending = ground arith;
                linked = i.linked job.id job found;
                scope =
                    stays job (subst (λ n. job_at n db ≡ some job) key found)
                    ∙ sym (row-key scope_key candidate.scope_state_id db.scopes e);
              })))
        (λ h. Run-pure none)))

pub heartbeat_job-Quiets :
    {db : PublicationDb} (now pk : ℕ) → Leads Quiets db (heartbeat_job now pk)
unfolding heartbeat_job
heartbeat_job-Quiets {db} now pk = Leads-gets _ _ (
    Leads-found (first (λ j. j.id == pk) db.jobs)
      (λ job h.
        Leads-if (is_running job.status)
          (λ r.
            then_quiet _
              (Leads-save_job pk _ (λ j. refl)
                (λ j g. KeptJob-of db.publications j _ refl refl refl))
              (λ u t e. quiet_pure true))
          (λ r. quiet_pure false))
      (λ h. quiet_pure false))
