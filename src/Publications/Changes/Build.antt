-- ===== src/Publications/Changes/Build.antt =====
-- A build that fails, and a job that its worker has left, run quiet changes.
use fire_dash_server.Prelude.{
  ℕ, ◌≡◌, refl, sym, ap, ◌∙◌, subst, true, some, ◌==◌, row, row-key, first,
}
use fire_dash_server.Publications.Models.{
  Scope, Publication, Job, PublicationStatus, JobStatus, is_building, is_running,
}
use fire_dash_server.Publications.Store.{PublicationDb, Builders}
use fire_dash_server.Publications.Claim.{ended_job}
use fire_dash_server.Publications.Build.{
  queue_follow_up_if_stale, failed_attempt, fail_attempt, fail_running, fail_publication_job,
  time_out_attempt,
}
use fire_dash_server.Publications.Leads.{Leads, Leads-if, Leads-found, Leads-gets}
use fire_dash_server.Publications.Changes.{
  is_quiet_move, publication_key, publication_at, KeptPublication, Quiets,
}
use fire_dash_server.Publications.Changes.Steps.{
  KeptPublication-move, is_building-eq, Leads-save_found, Leads-lock_scope, Leads-get_job,
  Leads-log, Leads-schedule, Leads-follow_up, Leads-release, then_quiet, quiet_pure, quiet_when,
}
use fire_dash_server.Publications.Changes.Claim.{end_job-Quiets}
use fire_dash_server.Publications.Changes.Frames.{
  schedule-publications, SameJobs, then_same, same_pure, same_when, save_publication-SameJobs,
  release-SameJobs,
}

-- An attempt that leaves the build, and is not published.
pub building-left :
    (t : PublicationStatus) (p q : Publication)
    → is_building p.status ≡ true
    → is_quiet_move PublicationStatus.building t ≡ true
    → q.status ≡ t
    → q.id ≡ p.id
    → q.scope_state_id ≡ p.scope_state_id
    → q.version_number ≡ p.version_number
    → KeptPublication p q
building-left t p q h m et ei es ev =
    KeptPublication-move PublicationStatus.building t p q m refl (is_building-eq p.status h) et ei
      es ev

-- The attempt of a job, if it is there.
pub attempt-found :
    (db : PublicationDb) (pk : ℕ) (p : Publication)
    → publication_at pk db ≡ some p
    → publication_at p.id db ≡ some p
attempt-found db pk p h =
    subst (λ n. publication_at n db ≡ some p) (sym (row-key publication_key pk db.publications h)) h

module _ {db : PublicationDb} (b : Builders) where
  pub queue_follow_up_if_stale-Quiets :
      (job : Job) → Leads Quiets db (queue_follow_up_if_stale b job)
  unfolding queue_follow_up_if_stale
  queue_follow_up_if_stale-Quiets job =
      Leads-lock_scope _ _
        (λ scope e. Leads-gets _ _ (quiet_when _ (λ h. Leads-follow_up scope.id scope.dirty_since)))

  fail_attempt-Quiets :
      (scope : Scope) (p : Publication)
      → publication_at p.id db ≡ some p
      → Leads Quiets db (fail_attempt b scope p)
  unfolding fail_attempt
  fail_attempt-Quiets scope p found = then_quiet _ (Leads-schedule p.artifact_path) (λ u t e.
      quiet_when _ (λ h.
        then_quiet _
          (Leads-save_found p.id (failed_attempt b) (λ x. refl)
            (ap (row publication_key p.id) (schedule-publications db t p.artifact_path u e) ∙ found)
            (building-left PublicationStatus.failed p _ h refl refl refl refl refl))
          (λ v w g.
            then_quiet _ (Leads-release scope.dataset (failed_attempt b p))
              (λ x y k. quiet_pure tt))))

module _ {db : PublicationDb} (b : Builders) where
  fail_running-Quiets :
      (now : ℕ) (scope : Scope) (job : Job) → Leads Quiets db (fail_running b now scope job)
  unfolding fail_running
  fail_running-Quiets now scope job =
      then_quiet _
        (end_job-Quiets job.id (ended_job JobStatus.failed now) (λ j. refl) (λ j. refl) (λ j. refl)
          (λ j. refl))
        (λ u t e.
          then_quiet _
            (Leads-found job.build_publication_id
              (λ pk h. Leads-gets _ _ (
                Leads-found (first (λ p. p.id == pk) t.publications)
                  (λ p k. fail_attempt-Quiets b scope p (attempt-found t pk p k))
                  (λ k. quiet_pure tt)))
              (λ h. quiet_pure tt))
            (λ v w g. then_quiet _ (Leads-log _ _ _) (λ x y k.
              then_quiet _ (queue_follow_up_if_stale-Quiets b job) (λ z q l. quiet_pure _))))

  pub fail_publication_job-Quiets : (now pk : ℕ) → Leads Quiets db (fail_publication_job b now pk)
  unfolding fail_publication_job
  fail_publication_job-Quiets now pk = Leads-get_job _ _ (λ job e. Leads-lock_scope _ _ (λ scope h.
      Leads-if (is_running job.status) (λ r. fail_running-Quiets now scope job)
        (λ r. quiet_pure job)))

  pub time_out_attempt-Quiets :
      (scope : Scope) (p : Publication)
      → publication_at p.id db ≡ some p
      → Leads Quiets db (time_out_attempt b scope p)
  unfolding time_out_attempt
  time_out_attempt-Quiets scope p found = quiet_when _ (λ h.
      then_quiet _
        (Leads-save_found p.id _ (λ x. refl) found
          (building-left PublicationStatus.failed p _ h refl refl refl refl refl))
        (λ v w g.
          then_quiet _
            (Leads-release scope.dataset (record p { status = PublicationStatus.failed }))
            (λ x y k. quiet_pure tt)))

  pub time_out_attempt-SameJobs :
      (scope : Scope) (p : Publication) → Leads SameJobs db (time_out_attempt b scope p)
  unfolding time_out_attempt
  time_out_attempt-SameJobs scope p = same_when _ (λ h.
      then_same _ (save_publication-SameJobs _ _) (λ v w g.
        then_same _
          (release-SameJobs scope.dataset (record p { status = PublicationStatus.failed }))
          (λ x y k. same_pure tt)))
