-- ===== src/Publications/Review.antt =====
-- What an administrator does with an attempt (apps/publications/services.py): `publish_publication`,
-- `reject_publication`, `build_staged_publication`, `delete_staged_publication` and
-- `cancel_publication_build`.
use fire_dash_server.Prelude.{
  ℕ, ◌==◌, ltb, Bool, false, not, ◌&&◌, Option, none, some, is_none, is_key, if◌then◌else◌, ◌>>=◌,
  ◌>>◌, ◌∷◌, pure, raise_if, or_raise, gets, modify, when, if_found, first, any, select, order_by,
  head,
}
use fire_dash_server.Tablets.Models.{PublicationAction, User}
use fire_dash_server.Publications.Models.{
  Scope, Publication, Job, PublicationStatus, TriggerType, ActivationAction, is_staged, is_building,
  is_ready_for_review, is_pending, is_running, is_ready_artifact,
}
use fire_dash_server.Publications.Registry.{get_dataset_definition, is_file_dataset}
use fire_dash_server.Publications.Store.{
  PublicationDb, Lifecycle, PublicationError, publication_error, Message, Builders, lock_scope,
  get_publication, get_job, save_scope, save_publication, save_job, log, schedule_artifact_removal,
  linked_publication,
}
use fire_dash_server.Publications.Authority.{require_publication_scope, validate_scope}
use fire_dash_server.Publications.Source.{
  cancelled, cancelled_job, current_source_state, reconcile_clean_source,
}
use fire_dash_server.Publications.Artifacts.{release_terminal_document_artifact_references}
use fire_dash_server.Publications.Finalize.{retire_previous, publication_id_of}
use fire_dash_server.Publications.Restore.{activation, restore_blocked}

-- The publication and its scope, of which the actor is an administrator.
unfoldable pub open_attempt : User → ℕ → Lifecycle (Publication × Scope)
unfolding get_publication lock_scope require_publication_scope
open_attempt actor pk = do
  p ← get_publication pk
  scope ← lock_scope p.scope_state_id
  require_publication_scope actor scope.owner scope.dataset
  pure (p, scope)

abbrev pub reviewed_as : ℕ → ℕ → Option Publication → Publication → Publication
reviewed_as now actor previous p = record p {
  status = PublicationStatus.published;
  published_at = some now;
  published_by = some actor;
  supersedes = publication_id_of previous;
}

-- `publish_publication` from its lock on: the publication replaces the current one.
unfoldable pub publish_reviewed : ℕ → User → Scope → Publication → Lifecycle Publication
unfolding retire_previous save_publication save_scope log
publish_reviewed now actor scope p = do
  previous ← gets (linked_publication scope.current_published_publication_id)
  retire_previous now scope previous
  save_publication p.id (reviewed_as now actor.id previous)
  save_scope scope.id λ s. record s { current_published_publication_id = some p.id }
  modify λ db. record db {
    activations = activation ActivationAction.publish scope previous p.id actor.id ∷ db.activations;
  }
  log PublicationAction.published (some actor.id) p.id
  pure (reviewed_as now actor.id previous p)

unfoldable pub reject_publication : User → ℕ → Lifecycle Publication
unfolding open_attempt validate_scope save_publication log
reject_publication actor pk = do
  r ← open_attempt actor pk
  raise_if (not (is_ready_for_review (r.0).status)) (publication_error Message.not_review_ready)
  validate_scope (r.1).owner (r.1).dataset
  save_publication pk (λ p. record p { status = PublicationStatus.rejected })
  log PublicationAction.rejected (some actor.id) pk
  pure (record (r.0) { status = PublicationStatus.rejected })

-- `order_by("created_at").first()`, `order_by("-created_at").first()`
abbrev pub older_job : Job → Job → Bool
older_job i j = ltb i.created_at j.created_at

abbrev pub newer_job : Job → Job → Bool
newer_job i j = ltb j.created_at i.created_at

-- The latest job that built, or is to build, the publication.
abbrev pub latest_job_of : ℕ → PublicationDb → Option Job
latest_job_of pk db =
    head (order_by newer_job (select (λ j. is_key j.build_publication_id pk) db.jobs))

abbrev is_started : Option Job → Bool
is_started none = false
is_started (some j) = not (is_pending j.status)

unfoldable pub cancel_publication_build : ℕ → User → ℕ → Lifecycle Publication
unfolding open_attempt or_raise save_publication release_terminal_document_artifact_references
    save_job schedule_artifact_removal log
cancel_publication_build now actor pk = do
  r ← open_attempt actor pk
  found ← gets (latest_job_of pk)
  job ← or_raise found (publication_error Message.no_build_job)
  raise_if (not (is_running job.status)) (publication_error Message.not_building)
  raise_if (not (is_building (r.0).status)) (publication_error Message.not_building)
  save_publication pk cancelled
  release_terminal_document_artifact_references (r.1).dataset (cancelled r.0)
  save_job job.id (cancelled_job now)
  schedule_artifact_removal (r.0).artifact_path
  log PublicationAction.build_cancelled (some actor.id) pk
  pure (cancelled r.0)

module _ (b : Builders) where
  -- The tests of `publish_publication`.
  unfoldable pub require_publishable : Scope → Publication → Lifecycle (Unit {0})
  unfolding validate_scope or_raise get_dataset_definition restore_blocked
  require_publishable scope p = do
    raise_if (not (is_ready_for_review p.status)) (publication_error Message.not_review_ready)
    validate_scope scope.owner scope.dataset
    raise_if (not (is_ready_artifact p.artifact_status))
        (publication_error Message.artifact_not_ready)
    definition ← or_raise (get_dataset_definition scope.dataset) PublicationError.registry_error
    raise_if (definition.is_document && restore_blocked b definition scope false p)
        (publication_error Message.restore_blocked)
    raise_if (is_file_dataset scope.dataset && not (scope.source_revision == p.source_revision))
        (publication_error Message.source_revision_changed)

  unfoldable pub publish_publication : ℕ → User → ℕ → Lifecycle Publication
  unfolding open_attempt require_publishable publish_reviewed
  publish_publication now actor pk = do
    r ← open_attempt actor pk
    require_publishable r.1 r.0
    publish_reviewed now actor r.1 r.0

  -- A file library that has gone back to what is published, and has nothing that must be built.
  unfoldable pub is_reverted : ℕ → Scope → Job → Lifecycle Bool
  unfolding reconcile_clean_source
  is_reverted now scope job =
      if is_file_dataset scope.dataset
      then (do
        building ← gets λ db. any (λ j. j.scope_state_id == scope.id && is_running j.status) db.jobs
        raise_if building (publication_error Message.already_building)
        raise_if (is_none (get_dataset_definition scope.dataset)) PublicationError.registry_error
        if job.allow_clean_rebuild then pure false else reconcile_clean_source b now scope)
      else pure false

  abbrev promoted_job : ℕ → User → Job → Job
  promoted_job now actor j = record j {
    trigger_type = TriggerType.user_request;
    not_before = some now;
    requested_by = some actor.id;
  }

  unfoldable pub promote_job : ℕ → User → Job → ℕ → Lifecycle Job
  unfolding save_job log
  promote_job now actor job pk = do
    save_job job.id (promoted_job now actor)
    log PublicationAction.build_now_requested (some actor.id) pk
    pure (promoted_job now actor job)

  unfoldable pub build_staged_publication : ℕ → User → ℕ → Lifecycle Job
  unfolding lock_scope require_publication_scope or_raise is_reverted get_job promote_job
  build_staged_publication now actor scope_id = do
    scope ← lock_scope scope_id
    require_publication_scope actor scope.owner scope.dataset
    found ← gets λ db. head (
        order_by older_job
          (select (λ j. j.scope_state_id == scope.id && is_pending j.status) db.jobs))
    job ← or_raise found (publication_error Message.nothing_staged)
    pk ← or_raise job.build_publication_id (publication_error Message.nothing_staged)
    attempt ← gets λ db. first (λ p. p.id == pk && is_staged p.status) db.publications
    raise_if (is_none attempt) (publication_error Message.not_staged)
    clean ← is_reverted now scope job
    if clean then get_job job.id else promote_job now actor job pk

  -- A file library is compared again when one of its attempts goes.
  unfoldable pub reconcile_after : ℕ → Scope → Lifecycle (Unit {0})
  unfolding current_source_state reconcile_clean_source
  reconcile_after now scope =
      when (is_file_dataset scope.dataset)
        do s ← current_source_state b scope; reconcile_clean_source b now s; pure tt

  unfoldable pub delete_staged_publication : ℕ → User → ℕ → Lifecycle Publication
  unfolding open_attempt save_publication save_job reconcile_after log
  delete_staged_publication now actor pk = do
    r ← open_attempt actor pk
    job ← gets (latest_job_of pk)
    raise_if (not (is_staged (r.0).status)) (publication_error Message.not_staged)
    raise_if (is_started job) (publication_error Message.already_started)
    save_publication pk cancelled
    if_found job (λ j. save_job j.id (cancelled_job now)) (pure tt)
    reconcile_after now r.1
    log PublicationAction.staged_deleted (some actor.id) pk
    pure (cancelled r.0)
