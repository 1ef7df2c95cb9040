-- ===== src/Publications/Changes/Recovery.antt =====
-- The recovery of jobs whose worker is gone runs quiet changes.
use fire_dash_server.Prelude.{
  ℕ, ◌+◌, ◌-◌, ◌≡◌, refl, sym, ap, ◌∙◌, subst, true, ◌&&◌, some, List, [], ◌∷◌, ◌==◌, leb, arith,
  ◌>>=◌, gets, pure, if_found, row, first, first-row, Keyed, order_by, select,
}
use fire_dash_server.Prelude.TableLaws.{first_sound}
use mathlib.Core.Option.{some-injective as some_inj}
use fire_dash_server.Publications.Models.{Scope, Job, JobStatus, is_running, is_active_job}
use fire_dash_server.Publications.Store.{PublicationDb, Builders}
use fire_dash_server.Publications.Claim.{ended_job}
use fire_dash_server.Publications.Build.{
  is_overdue, retried, time_out_attempt, recover_job, recover_round, recover_rounds,
  recovered_before, recover_stale_jobs,
}
use fire_dash_server.Publications.Leads.{Leads, Leads-if, Leads-found, Leads-gets, Leads-raise_if}
use fire_dash_server.Publications.Changes.{job_key, job_at, KeptJob, Quiets, still, more}
use fire_dash_server.Publications.Changes.Writes.{running-active}
use fire_dash_server.Publications.Changes.Steps.{
  Leads-save_job, Leads-lock_scope, then_quiet, quiet_pure,
}
use fire_dash_server.Publications.Changes.Claim.{end_job-Quiets}
use fire_dash_server.Publications.Changes.Build.{
  attempt-found, time_out_attempt-Quiets, time_out_attempt-SameJobs,
  queue_follow_up_if_stale-Quiets,
}
use fire_dash_server.Publications.Changes.Frames.{SameJobs, same_pure}

module _ {db : PublicationDb} (b : Builders) where
  recover_job-Quiets :
      (now max_attempts : ℕ) (scope : Scope) (job : Job)
      → job_at job.id db ≡ some job
      → is_running job.status ≡ true
      → Leads Quiets db (recover_job b now max_attempts scope job)
  unfolding recover_job
  recover_job-Quiets now max_attempts scope job found running =
      then_quiet _
        (Leads-found job.build_publication_id
          (λ pk h. Leads-gets _ _ (
            Leads-found (first (λ p. p.id == pk) db.publications)
              (λ p k. time_out_attempt-Quiets b scope p (attempt-found db pk p k))
              (λ k. quiet_pure tt)))
          (λ h. quiet_pure tt))
        (λ u t e.
          let same : t.jobs ≡ db.jobs = jobs_kept.run u t e in
          Leads-if (leb max_attempts job.attempt_count)
            (λ h.
              then_quiet _
                (end_job-Quiets job.id (ended_job JobStatus.failed now) (λ j. refl) (λ j. refl)
                  (λ j. refl) (λ j. refl))
                (λ v w g. queue_follow_up_if_stale-Quiets b job))
            (λ h. Leads-save_job job.id (retried b) (λ j. refl) (λ j g. again t same j g)))
    where
      jobs_kept : Leads SameJobs db (
          if_found job.build_publication_id
            (λ pk. do
              attempt ← gets λ x. first (λ p. p.id == pk) x.publications
              if_found attempt (time_out_attempt b scope) (pure tt))
            (pure tt))
      jobs_kept =
          Leads-found job.build_publication_id
            (λ pk h. Leads-gets _ _ (
              Leads-found (first (λ p. p.id == pk) db.publications)
                (λ p k. time_out_attempt-SameJobs b scope p) (λ k. same_pure tt)))
            (λ h. same_pure tt)

      again :
          (t : PublicationDb)
          → t.jobs ≡ db.jobs
          → (j : Job) → job_at job.id t ≡ some j
          → KeptJob t.publications t.publications j (retried b j)
      again t same j g = record {
        scope = refl;
        active = λ a.
            subst (λ (x : Job). is_active_job x.status ≡ true)
              (some_inj job j (sym found ∙ ap (row job_key job.id) (sym same) ∙ g))
              (running-active job.status running);
        linked = λ l. record { attempt = λ k e. cc; has_attempt = λ r. cc };
      }

module _ {db : PublicationDb} (b : Builders) where
  pub recover_round-Quiets :
      (now cutoff max_attempts pk : ℕ)
      → Keyed job_key db.jobs
      → Leads Quiets db (recover_round b now cutoff max_attempts pk)
  unfolding recover_round
  recover_round-Quiets now cutoff max_attempts pk keyed = Leads-gets _ _ (
      Leads-found (first (λ j. j.id == pk) db.jobs)
        (λ preview h. Leads-lock_scope _ _ (λ scope e. Leads-gets _ _ (
          Leads-found (first (λ j. j.id == pk && is_overdue b cutoff j) db.jobs)
            (λ job g.
              let test = first_sound (λ j. j.id == pk && is_overdue b cutoff j) db.jobs g in
              then_quiet _
                (recover_job-Quiets b now max_attempts scope job
                  (first-row job_key _ db.jobs keyed g) (ground arith))
                (λ u t k. quiet_pure 1))
            (λ g. quiet_pure 0))))
        (λ h. quiet_pure 0))

Keyed-Quiets : (t u : PublicationDb) → Quiets t u → Keyed job_key t.jobs → Keyed job_key u.jobs
Keyed-Quiets t u still k = k
Keyed-Quiets t u (more r q) k = q.keyed_jobs (Keyed-Quiets t _ r k)

module _ (b : Builders) where
  recover_rounds-Quiets :
      (now cutoff max_attempts : ℕ) (jobs : List Job) (n : ℕ) (db : PublicationDb)
      → Keyed job_key db.jobs
      → Leads Quiets db (recover_rounds b now cutoff max_attempts jobs n)
  unfolding recover_rounds
  recover_rounds-Quiets now cutoff max_attempts [] n db keyed = quiet_pure n
  recover_rounds-Quiets now cutoff max_attempts (job ∷ rest) n db keyed =
      then_quiet _ (recover_round-Quiets b now cutoff max_attempts job.id keyed) (λ m t e.
        recover_rounds-Quiets now cutoff max_attempts rest (m + n) t (
          Keyed-Quiets db t
            ((recover_round-Quiets b now cutoff max_attempts job.id keyed).run m t e) keyed))

  pub recover_stale_jobs-Quiets :
      (now timeout max_attempts : ℕ) (db : PublicationDb)
      → Keyed job_key db.jobs
      → Leads Quiets db (recover_stale_jobs b now timeout max_attempts)
  unfolding recover_stale_jobs
  recover_stale_jobs-Quiets now timeout max_attempts db keyed = Leads-raise_if _ _ _ (λ h.
      Leads-raise_if _ _ _ (λ g. Leads-gets _ _ (
        recover_rounds-Quiets now (now - timeout) max_attempts
          (order_by (recovered_before b db) (select (is_overdue b (now - timeout)) db.jobs)) 0 db
          keyed)))
