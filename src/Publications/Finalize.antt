-- ===== src/Publications/Finalize.antt =====
-- `finalize_publication_job` of apps/publications/services.py: a finished attempt becomes the current
-- publication of its scope, unless its source has moved on or is that of the current one.
use fire_dash_server.Prelude.{
  ℕ, ◌==◌, Bool, true, false, not, ◌&&◌, Option, none, some, is_none, is_some, get_or, is_key,
  if◌then◌else◌, ◌>>=◌, ◌>>◌, pure, raise_if, gets, when, if_found,
}
use fire_dash_server.Tablets.Models.{PublicationAction}
use fire_dash_server.Publications.Models.{
  Scope, Publication, Job, PublicationStatus, JobStatus, ArtifactStatus, is_building, is_running,
}
use fire_dash_server.Publications.Registry.{get_dataset_definition, is_file_dataset}
use fire_dash_server.Publications.Store.{
  Lifecycle, PublicationError, Builders, lock_scope, get_publication, get_job, save_scope,
  save_publication, save_job, log, schedule_artifact_removal, follow_up, linked_publication,
}
use fire_dash_server.Publications.Source.{publication_source_fingerprint, scope_is_dirty}
use fire_dash_server.Publications.Artifacts.{
  release_terminal_document_artifact_references, revoke_publication_dataset_key_grants,
}
use fire_dash_server.Publications.Queue.{Fresh, Intent, enqueue_publication_job}
use fire_dash_server.Publications.Claim.{ended_job}
use fire_dash_server.Publications.Build.{fail_publication_job, superseded}

-- What the worker hands over: the summary, the path of the artifact, which a generation of documents has
-- not, and the fingerprint of the source that it built.
pub record Built : Type 0 where
  pub summary : ℕ
  pub artifact_path : Option ℕ
  pub source_fingerprint : Option ℕ

abbrev pub or_else : Option ℕ → Option ℕ → Option ℕ
or_else none o = o
or_else (some a) o = some a

abbrev same_key : Option ℕ → Option ℕ → Bool
same_key none o = false
same_key (some a) o = is_key o a

abbrev pub publication_id_of : Option Publication → Option ℕ
publication_id_of none = none
publication_id_of (some p) = some p.id

abbrev summary_of : Option Publication → Option ℕ
summary_of none = none
summary_of (some p) = p.build_summary

-- `previous_current`, if there is one, has no live grant and is superseded.
unfoldable pub retire_previous : ℕ → Scope → Option Publication → Lifecycle (Unit {0})
unfolding revoke_publication_dataset_key_grants save_publication
retire_previous now scope previous =
    if_found previous
      (λ q. do
        revoke_publication_dataset_key_grants now scope.dataset q.id
        save_publication q.id superseded)
      (pure tt)

module _ (b : Builders) where
  -- The attempt with its summaries and its artifact, not yet stored.
  abbrev pub finished : Scope → Built → Option Publication → Publication → Publication
  finished scope built previous_built p = record p {
    build_summary = some built.summary;
    source_fingerprint =
        if is_file_dataset scope.dataset
        then publication_source_fingerprint b scope.dataset p
        else or_else built.source_fingerprint p.source_fingerprint;
    change_summary = some (b.change_summary (summary_of previous_built) built.summary);
    artifact_path = or_else built.artifact_path p.artifact_path;
    artifact_status = ArtifactStatus.ready;
    artifact_ready = true;
  }

  abbrev pub withdrawn : Publication → Publication
  withdrawn p = record p { status = PublicationStatus.obsolete; source_snapshot = none }

  abbrev pub job_intent : Job → Intent
  job_intent job = record {
    requested_by = job.requested_by;
    trigger_type = job.trigger_type;
    debounce_started_at = none;
    allow_clean_rebuild = job.allow_clean_rebuild;
  }

  -- The library has moved on: the attempt is dropped, and another one is queued.
  unfoldable pub finalize_stale : Fresh → Scope → Job → Built → Publication → Lifecycle Job
  unfolding schedule_artifact_removal save_publication release_terminal_document_artifact_references
      save_job log enqueue_publication_job
  finalize_stale fresh scope job built p = do
    schedule_artifact_removal built.artifact_path
    save_publication p.id withdrawn
    release_terminal_document_artifact_references scope.dataset (withdrawn p)
    save_job job.id (ended_job JobStatus.obsolete fresh.now)
    log PublicationAction.job_obsolete none job.id
    enqueue_publication_job b fresh scope.owner scope.dataset (job_intent job) false
    pure (ended_job JobStatus.obsolete fresh.now job)

  -- `p` is the finished attempt.
  unfoldable pub finalize_duplicate : ℕ → Scope → Job → Built → Publication → Lifecycle Job
  unfolding schedule_artifact_removal save_publication release_terminal_document_artifact_references
      save_job save_scope log
  finalize_duplicate now scope job built p = do
    schedule_artifact_removal built.artifact_path
    save_publication p.id (λ q. record (withdrawn q) { source_fingerprint = p.source_fingerprint })
    release_terminal_document_artifact_references scope.dataset (withdrawn p)
    save_job job.id (ended_job JobStatus.obsolete now)
    save_scope scope.id (λ s. record s { dirty_since = none })
    log PublicationAction.job_obsolete none job.id
    pure (ended_job JobStatus.obsolete now job)

  -- The publication as it is stored when it becomes current.
  abbrev pub activated_as : ℕ → Option Publication → Publication → Publication
  activated_as now previous p = record p {
    status = PublicationStatus.published;
    published_at = some now;
    supersedes = publication_id_of previous;
  }

  abbrev pub is_same_source : Scope → Option Publication → Publication → Bool
  is_same_source scope none p = false
  is_same_source scope (some q) p =
      is_some q.source_fingerprint
      && same_key (publication_source_fingerprint b scope.dataset q) p.source_fingerprint

  -- The fingerprint that a clean file library may have kept from the previous generation.
  abbrev translated_fingerprint : Scope → Option Publication → Publication → Option ℕ
  translated_fingerprint scope none p = scope.current_source_fingerprint
  translated_fingerprint scope (some q) p =
      if is_file_dataset scope.dataset
        && is_same_source scope (some q) p
        && same_key scope.current_source_fingerprint q.source_fingerprint
      then p.source_fingerprint
      else scope.current_source_fingerprint

  unfoldable pub activate_finished :
      ℕ → Scope → Job → Option Publication → Publication → Lifecycle Job
  unfolding retire_previous save_publication scope_is_dirty save_scope save_job log follow_up
  activate_finished now scope job previous p = do
    retire_previous now scope previous
    raise_if (not (b.is_complete (activated_as now previous p))) PublicationError.validation_error
    save_publication p.id λ q. record q {
      build_summary = p.build_summary;
      source_fingerprint = p.source_fingerprint;
      change_summary = p.change_summary;
      artifact_status = p.artifact_status;
      artifact_ready = p.artifact_ready;
      artifact_path = p.artifact_path;
      status = PublicationStatus.published;
      published_at = some now;
      supersedes = publication_id_of previous;
    }
    let current = record scope {
      current_source_fingerprint = translated_fingerprint scope previous p;
      latest_built_publication_id = some p.id;
      current_published_publication_id = some p.id;
    }
    changed ← gets (scope_is_dirty b current none)
    let dirty_since = if changed then some (get_or scope.dirty_since now) else none
    save_scope scope.id λ s. record s {
      latest_built_publication_id = some p.id;
      current_published_publication_id = some p.id;
      current_source_fingerprint = current.current_source_fingerprint;
      dirty_since = dirty_since;
    }
    save_job job.id λ j. record (ended_job JobStatus.succeeded now j) { heartbeat_at = some now }
    log PublicationAction.published none p.id
    when changed (follow_up scope.id dirty_since)
    pure (record (ended_job JobStatus.succeeded now job) { heartbeat_at = some now })

  unfoldable pub finalize_attempt : Fresh → Scope → Job → Built → Publication → Lifecycle Job
  unfolding finalize_stale finalize_duplicate activate_finished
  finalize_attempt fresh scope job built p = do
    raise_if (is_none (get_dataset_definition scope.dataset)) PublicationError.registry_error
    raise_if (not (b.is_valid_summary scope.dataset built.summary)) PublicationError.build_error
    previous_built ← gets (linked_publication scope.latest_built_publication_id)
    let done = finished scope built previous_built p
    previous ← gets (linked_publication scope.current_published_publication_id)
    if is_file_dataset scope.dataset && not (scope.source_revision == p.source_revision)
        then finalize_stale fresh scope job built p
        else if is_same_source scope previous done && not job.allow_clean_rebuild
        then finalize_duplicate fresh.now scope job built done
        else activate_finished fresh.now scope job previous done

  unfoldable pub finalize_running : Fresh → Scope → Job → Built → Lifecycle Job
  unfolding get_publication schedule_artifact_removal fail_publication_job finalize_attempt
  finalize_running fresh scope job built =
      if_found job.build_publication_id
        (λ pk. do
          p ← get_publication pk
          if is_building p.status
              then finalize_attempt fresh scope job built p
              else (do schedule_artifact_removal built.artifact_path; pure job))
        (fail_publication_job b fresh.now job.id)

  unfoldable pub finalize_publication_job : Fresh → ℕ → Built → Lifecycle Job
  unfolding get_job lock_scope schedule_artifact_removal finalize_running
  finalize_publication_job fresh job_id built = do
    job ← get_job job_id
    scope ← lock_scope job.scope_state_id
    if is_running job.status
        then finalize_running fresh scope job built
        else (do schedule_artifact_removal built.artifact_path; pure job)
