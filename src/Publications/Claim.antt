-- ===== src/Publications/Claim.antt =====
-- The start of a build (apps/publications/services.py): `claim_next_job`, `_claim_job` and
-- `heartbeat_job`. A worker takes the oldest pending job that it can.
use fire_dash_server.Prelude.{
  ℕ, suc, ◌==◌, ltb, leb, Bool, true, false, not, ◌&&◌, ◌||◌, Option, none, some, is_none,
  if◌then◌else◌, ◌>>=◌, ◌>>◌, List, [], ◌∷◌, Result, ok, err, pure, gets, when, if_found, first,
  select, order_by,
}
use fire_dash_server.Publications.Models.{
  Scope, Publication, Job, PublicationStatus, JobStatus, is_staged, is_pending, is_running,
}
use fire_dash_server.Publications.Registry.{get_dataset_definition, is_file_dataset}
use fire_dash_server.Publications.Store.{
  PublicationDb, Lifecycle, PublicationError, Builders, lock_scope, save_publication, save_job,
}
use fire_dash_server.Publications.Source.{
  current_source_state, current_fingerprint, store_fingerprint, reconcile_clean_source,
}
use fire_dash_server.Publications.Artifacts.{pin_source}
use fire_dash_server.Publications.Queue.{Fresh, allocate_staged_publication}

-- `Q(not_before__isnull=True) | Q(not_before__lte=now)`
abbrev pub is_due : ℕ → Option ℕ → Bool
is_due now none = true
is_due now (some t) = leb t now

abbrev pub is_claimable : ℕ → Job → Bool
is_claimable now j = is_pending j.status && is_due now j.not_before

-- `order_by("created_at", "id")`
abbrev pub created_before : Job → Job → Bool
created_before i j =
    ltb i.created_at j.created_at || (i.created_at == j.created_at && ltb i.id j.id)

abbrev pub ended_job : JobStatus → ℕ → Job → Job
ended_job status now j = record j { status = status; completed_at = some now }

module _ (b : Builders) where
  abbrev pub frozen : Scope → Publication → Publication
  frozen scope p = record p {
    source_revision = scope.source_revision;
    source_snapshot = some (b.source scope.id);
    source_fingerprint = some (current_fingerprint b scope);
    status = PublicationStatus.building;
  }

  abbrev pub started : ℕ → ℕ → Scope → Job → Job
  started now publication_id scope j = record j {
    status = JobStatus.running;
    started_at = some now;
    heartbeat_at = some now;
    source_revision = scope.source_revision;
    attempt_count = suc j.attempt_count;
    build_publication_id = some publication_id;
  }

  -- The staged attempt is frozen at the present source, and the job runs.
  unfoldable pub start_build : ℕ → Scope → Job → Publication → Lifecycle (Option Job)
  unfolding save_publication save_job pin_source
  start_build now scope job p = do
    save_publication p.id (frozen scope)
    when (is_file_dataset scope.dataset) (pin_source b p.id (b.source scope.id))
    save_job job.id (started now p.id scope)
    pure (some (started now p.id scope job))

  unfoldable pub abandon_job : ℕ → Scope → Job → Lifecycle (Option Job)
  unfolding save_job
  abandon_job now scope job = do
    save_job job.id (ended_job JobStatus.obsolete now)
    pure (
        some (record (ended_job JobStatus.obsolete now job) {
          source_revision = scope.source_revision;
        }))

  -- The attempt of the job; a job from before there were any gets one.
  unfoldable pub attempt_of : Fresh → Scope → Job → Lifecycle (Option Publication)
  unfolding allocate_staged_publication
  attempt_of fresh scope job =
      if_found job.build_publication_id (λ pk. gets λ db. first (λ p. p.id == pk) db.publications)
        (do
          p ←
              allocate_staged_publication b fresh scope
                (record job { source_revision = scope.source_revision })
          pure (some p))

  unfoldable pub build_attempt : Fresh → Scope → Job → Lifecycle (Option Job)
  unfolding attempt_of start_build abandon_job
  build_attempt fresh scope job = do
    attempt ← attempt_of fresh scope job
    if_found attempt
        (λ p.
          if is_staged p.status
          then start_build fresh.now scope job p
          else abandon_job fresh.now scope job)
        (abandon_job fresh.now scope job)

  -- Whether a file library has gone back to what is published.
  unfoldable pub reverted : ℕ → Scope → Job → Lifecycle Bool
  unfolding reconcile_clean_source
  reverted now scope job =
      if is_file_dataset scope.dataset && not job.allow_clean_rebuild
      then reconcile_clean_source b now scope
      else pure false

  unfoldable pub claim_known : Fresh → Scope → Job → Lifecycle (Option Job)
  unfolding current_source_state store_fingerprint reverted build_attempt
  claim_known fresh found job = do
    s ← current_source_state b found
    scope ← store_fingerprint b s
    clean ← reverted fresh.now scope job
    if clean then pure none else build_attempt fresh scope job

  unfoldable pub fail_unknown : ℕ → Job → Lifecycle (Option Job)
  unfolding save_job
  fail_unknown now job = do
    save_job job.id (ended_job JobStatus.failed now)
    pure (some (ended_job JobStatus.failed now job))

  -- `_claim_job`
  unfoldable pub claim_job : Fresh → Job → Lifecycle (Option Job)
  unfolding lock_scope get_dataset_definition claim_known fail_unknown
  claim_job fresh candidate = do
    scope ← lock_scope candidate.scope_state_id
    found ← gets λ db. first (λ j. j.id == candidate.id && is_pending j.status) db.jobs
    if_found found
        (λ job.
          if is_none (get_dataset_definition scope.dataset)
          then fail_unknown fresh.now job
          else claim_known fresh scope job)
        (pure none)

  -- Each candidate has a transaction of its own: an error ends the loop, and what was committed stays.
  unfoldable pub claim_each :
      (ℕ → Fresh) → List Job → PublicationDb → Result PublicationError (Option Job) × PublicationDb
  unfolding claim_job
  claim_each fresh [] db = (ok none, db)
  claim_each fresh (candidate ∷ rest) db = elim (claim_job (fresh candidate.id) candidate db) [
    | err e ↦ (err e, db)
    | ok r ↦ elim r.0 [ some j ↦ (ok (some j), r.1) | none ↦ claim_each fresh rest r.1 ]
  ]

  unfoldable pub claim_next_job :
      ℕ → (ℕ → Fresh) → PublicationDb → Result PublicationError (Option Job) × PublicationDb
  unfolding claim_each
  claim_next_job now fresh db =
      claim_each fresh (order_by created_before (select (is_claimable now) db.jobs)) db

unfoldable pub heartbeat_job : ℕ → ℕ → Lifecycle Bool
unfolding save_job
heartbeat_job now pk = do
  found ← gets λ db. first (λ j. j.id == pk) db.jobs
  if_found found
      (λ job.
        if is_running job.status
        then (do save_job pk (λ j. record j { heartbeat_at = some now }); pure true)
        else pure false)
      (pure false)
