-- ===== src/Publications/Build.antt =====
-- The end of a build (apps/publications/services.py): `fail_publication_job`, `recover_stale_jobs` and
-- `finalize_publication_job`, which makes a finished attempt the current publication of its scope.
use fire_dash_server.Prelude.{
  ℕ, ◌+◌, ◌-◌, ◌==◌, ltb, leb, Bool, true, false, ◌&&◌, ◌||◌, Option, none, some, is_none,
  if◌then◌else◌, ◌>>=◌, ◌>>◌, List, [], ◌∷◌, pure, raise_if, gets, when, if_found, first, select,
  order_by,
}
use fire_dash_server.Tablets.Models.{PublicationAction}
use fire_dash_server.Publications.Models.{
  Owner, Scope, Publication, Job, PublicationStatus, JobStatus, ArtifactStatus, is_building,
  is_running,
}
use fire_dash_server.Publications.Store.{
  PublicationDb, Lifecycle, publication_error, Message, Builders, lock_scope, get_job,
  save_publication, save_job, log, schedule_artifact_removal, follow_up,
}
use fire_dash_server.Publications.Source.{scope_is_dirty}
use fire_dash_server.Publications.Artifacts.{release_terminal_document_artifact_references}
use fire_dash_server.Publications.Claim.{ended_job}

abbrev pub superseded : Publication → Publication
superseded p = record p { status = PublicationStatus.superseded }

module _ (b : Builders) where
  -- `_queue_follow_up_if_stale`
  unfoldable pub queue_follow_up_if_stale : Job → Lifecycle (Unit {0})
  unfolding lock_scope scope_is_dirty follow_up
  queue_follow_up_if_stale job = do
    scope ← lock_scope job.scope_state_id
    dirty ← gets (scope_is_dirty b scope none)
    when dirty (follow_up scope.id scope.dirty_since)

  abbrev pub failed_attempt : Publication → Publication
  failed_attempt p = record p {
    status = PublicationStatus.failed;
    artifact_status = ArtifactStatus.failed;
  }

  -- The attempt of a failed job.
  unfoldable pub fail_attempt : Scope → Publication → Lifecycle (Unit {0})
  unfolding schedule_artifact_removal save_publication release_terminal_document_artifact_references
  fail_attempt scope p = do
    schedule_artifact_removal p.artifact_path
    when (is_building p.status) do
      save_publication p.id failed_attempt
      release_terminal_document_artifact_references scope.dataset (failed_attempt p)
      pure tt

  unfoldable pub fail_running : ℕ → Scope → Job → Lifecycle Job
  unfolding save_job fail_attempt log queue_follow_up_if_stale
  fail_running now scope job = do
    save_job job.id (ended_job JobStatus.failed now)
    if_found job.build_publication_id
        (λ pk. do
          attempt ← gets λ db. first (λ p. p.id == pk) db.publications
          if_found attempt (fail_attempt scope) (pure tt))
        (pure tt)
    log PublicationAction.build_failed none job.id
    queue_follow_up_if_stale job
    pure (ended_job JobStatus.failed now job)

  unfoldable pub fail_publication_job : ℕ → ℕ → Lifecycle Job
  unfolding get_job lock_scope fail_running
  fail_publication_job now job_id = do
    job ← get_job job_id
    scope ← lock_scope job.scope_state_id
    if is_running job.status then fail_running now scope job else pure job

  -- `heartbeat_at__lt=cutoff`
  abbrev pub is_overdue : ℕ → Job → Bool
  is_overdue cutoff j =
      is_running j.status && (elim j.heartbeat_at [ none ↦ false | some t ↦ ltb t cutoff ])

  abbrev pub retried : Job → Job
  retried j = record j {
    status = JobStatus.pending;
    started_at = none;
    heartbeat_at = none;
    build_publication_id = none;
  }

  -- The attempt that a worker left: its artifact status stays as it is.
  unfoldable pub time_out_attempt : Scope → Publication → Lifecycle (Unit {0})
  unfolding save_publication release_terminal_document_artifact_references
  time_out_attempt scope p = when (is_building p.status) do
    save_publication p.id (λ q. record q { status = PublicationStatus.failed })
    release_terminal_document_artifact_references scope.dataset
        (record p { status = PublicationStatus.failed })
    pure tt

  unfoldable pub recover_job : ℕ → ℕ → Scope → Job → Lifecycle (Unit {0})
  unfolding time_out_attempt save_job queue_follow_up_if_stale
  recover_job now max_attempts scope job = do
    if_found job.build_publication_id
        (λ pk. do
          attempt ← gets λ db. first (λ p. p.id == pk) db.publications
          if_found attempt (time_out_attempt scope) (pure tt))
        (pure tt)
    if leb max_attempts job.attempt_count
        then (do save_job job.id (ended_job JobStatus.failed now); queue_follow_up_if_stale job)
        else save_job job.id retried

  -- One round of the loop: whether the job was recovered.
  unfoldable pub recover_round : ℕ → ℕ → ℕ → ℕ → Lifecycle ℕ
  unfolding lock_scope recover_job
  recover_round now cutoff max_attempts job_id = do
    preview ← gets λ db. first (λ j. j.id == job_id) db.jobs
    if_found preview
        (λ row. do
          scope ← lock_scope row.scope_state_id
          found ← gets λ db. first (λ j. j.id == job_id && is_overdue cutoff j) db.jobs
          if_found found (λ job. do recover_job now max_attempts scope job; pure 1) (pure 0))
        (pure 0)

  unfoldable pub recover_rounds : ℕ → ℕ → ℕ → List Job → ℕ → Lifecycle ℕ
  unfolding recover_round
  recover_rounds now cutoff max_attempts [] recovered = pure recovered
  recover_rounds now cutoff max_attempts (job ∷ rest) recovered = do
    n ← recover_round now cutoff max_attempts job.id
    recover_rounds now cutoff max_attempts rest (n + recovered)

  -- `order_by("department_id", "scope_state_id", "id")`: a system scope comes last.
  abbrev department_of : ℕ → PublicationDb → Option ℕ
  department_of pk db = elim (first (λ s. s.id == pk) db.scopes) [
    | none ↦ none
    | some s ↦ elim s.owner [
      | Owner.system ↦ none
      | Owner.department d ↦ some d
      | Owner.station d _ ↦ some d
    ]
  ]

  abbrev same_scope_order : Job → Job → Bool
  same_scope_order i j =
      ltb i.scope_state_id j.scope_state_id
      || (i.scope_state_id == j.scope_state_id && ltb i.id j.id)

  abbrev pub recovered_before : PublicationDb → Job → Job → Bool
  recovered_before db i j = elim (department_of i.scope_state_id db) [
    | none ↦ is_none (department_of j.scope_state_id db) && same_scope_order i j
    | some d ↦ elim (department_of j.scope_state_id db) [
      | none ↦ true
      | some e ↦ ltb d e || (d == e && same_scope_order i j)
    ]
  ]

  unfoldable pub recover_stale_jobs : ℕ → ℕ → ℕ → Lifecycle ℕ
  unfolding recover_rounds
  recover_stale_jobs now timeout max_attempts = do
    raise_if (timeout == 0) (publication_error Message.invalid_timeout)
    raise_if (max_attempts == 0) (publication_error Message.invalid_timeout)
    stale ← gets λ db. order_by (recovered_before db) (select (is_overdue (now - timeout)) db.jobs)
    recover_rounds now (now - timeout) max_attempts stale 0
