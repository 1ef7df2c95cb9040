-- ===== src/Publications/Queue.antt =====
-- The queue of builds (apps/publications/services.py): a scope has one staged attempt at most, which
-- later changes of its source join. The keys of new rows are arguments, as is the time.
pub mod Window
use fire_dash_server.Prelude.{
  ℕ, suc, ◌+◌, ◌-◌, ◌%◌, ◌==◌, leb, max, Bool, true, false, not, ◌&&◌, ◌||◌, Option, none, some,
  get_or, if◌then◌else◌, ◌>>=◌, ◌>>◌, List, [], ◌∷◌, pure, or_raise, gets, modify, if_found, first,
  update,
}
use fire_dash_server.Tablets.Models.{PublicationAction}
use fire_dash_server.Tablets.Store.{days, minutes}
use fire_dash_server.Publications.Models.{
  Owner, same_owner, DatasetType, Scope, Publication, Job, PublicationStatus, JobStatus,
  ArtifactStatus, TriggerType, is_staged, is_active_job, is_running, is_data_change,
}
use fire_dash_server.Publications.Registry.{get_dataset_definition, same_dataset}
use fire_dash_server.Publications.Store.{
  Lifecycle, PublicationError, publication_error, Message, Builders, save_job, log,
}
use fire_dash_server.Publications.Authority.{validate_scope}
use fire_dash_server.Publications.Source.{
  current_source_state, current_fingerprint, store_fingerprint, reconcile_clean_source,
  scope_is_dirty,
}

-- Why a build is queued.
pub record Intent : Type 0 where
  pub requested_by : Option ℕ
  pub trigger_type : TriggerType
  pub debounce_started_at : Option ℕ
  pub allow_clean_rebuild : Bool

-- The keys of the rows that a call may create, and its time.
pub record Fresh : Type 0 where
  pub now : ℕ
  pub job_id : ℕ
  pub publication_id : ℕ

abbrev pub is_scope_of : Owner → DatasetType → Scope → Bool
is_scope_of owner dataset s = same_owner s.owner owner && same_dataset s.dataset dataset

-- `_locked_scope`
unfoldable pub locked_scope : Owner → DatasetType → Lifecycle Scope
unfolding or_raise
locked_scope owner dataset db =
    or_raise (first (is_scope_of owner dataset) db.scopes)
      (publication_error Message.scope_uninitialized) db

-- `aggregate(maximum=Max("version_number"))["maximum"] or 0`
unfoldable pub latest_version : ℕ → List Publication → ℕ
latest_version scope_id [] = 0
latest_version scope_id (p ∷ rest) =
    if p.scope_state_id == scope_id
    then max p.version_number (latest_version scope_id rest)
    else latest_version scope_id rest

-- `_data_change_not_before`: the nightly window, five minutes past midnight.
unfoldable pub data_change_not_before : ℕ → ℕ
data_change_not_before now =
    let nightly = now - now % days 1 + minutes 5 in
    if leb (minutes 5) (now % days 1) then nightly + days 1 else nightly

abbrev pub is_live_of : ℕ → Job → Bool
is_live_of scope_id j = j.scope_state_id == scope_id && is_active_job j.status

module _ (b : Builders) where
  abbrev pub staged_attempt : Fresh → Scope → Job → ℕ → ℕ → Publication
  staged_attempt fresh scope job version schema_version = record {
    id = fresh.publication_id;
    scope_state_id = scope.id;
    version_number = version;
    schema_version = schema_version;
    source_revision = job.source_revision;
    source_fingerprint = some (current_fingerprint b scope);
    source_snapshot = some (b.source scope.id);
    status = PublicationStatus.staged;
    build_summary = none;
    change_summary = none;
    artifact_ready = false;
    artifact_status = ArtifactStatus.pending;
    artifact_path = none;
    created_at = fresh.now;
    created_by = job.requested_by;
    published_at = none;
    published_by = none;
    supersedes = none;
  }

  unfoldable pub allocate_staged_publication : Fresh → Scope → Job → Lifecycle Publication
  unfolding latest_version get_dataset_definition or_raise
  allocate_staged_publication fresh scope job = do
    definition ← or_raise (get_dataset_definition scope.dataset) PublicationError.registry_error
    latest ← gets λ db. latest_version scope.id db.publications
    let publication = staged_attempt fresh scope job (suc latest) definition.schema_version
    modify λ db. record db { publications = publication ∷ db.publications }
    pure publication

  -- A pending job takes a further intent on.
  abbrev pub coalesced : ℕ → Scope → Intent → Job → Job
  coalesced now scope intent active =
      let j = record active {
        source_revision = scope.source_revision;
        allow_clean_rebuild = active.allow_clean_rebuild || intent.allow_clean_rebuild;
      } in
      if not (is_data_change intent.trigger_type)
      then record j {
        trigger_type = intent.trigger_type;
        requested_by = intent.requested_by;
        not_before = some now;
      }
      else if is_data_change active.trigger_type
      then record j { not_before = some (data_change_not_before now) }
      else j

  unfoldable pub coalesce : ℕ → Scope → Intent → Job → Lifecycle (Option Job)
  unfolding save_job data_change_not_before
  coalesce now scope intent active = do
    save_job active.id (coalesced now scope intent)
    if_found active.build_publication_id
        (λ pk. modify λ db. record db {
          publications =
              update (λ p. p.id == pk && is_staged p.status)
                (λ p. record p {
                  source_revision = scope.source_revision;
                  source_fingerprint = some (current_fingerprint b scope);
                  source_snapshot = some (b.source scope.id);
                })
                db.publications;
        })
        (pure tt)
    pure (some (coalesced now scope intent active))

  abbrev pub new_job : Fresh → Scope → Intent → Job
  new_job fresh scope intent = record {
    id = fresh.job_id;
    scope_state_id = scope.id;
    source_revision = scope.source_revision;
    attempt_count = 0;
    status = JobStatus.pending;
    requested_by = intent.requested_by;
    trigger_type = intent.trigger_type;
    allow_clean_rebuild = intent.allow_clean_rebuild;
    not_before = some (
        if is_data_change intent.trigger_type then data_change_not_before fresh.now else fresh.now);
    debounce_started_at =
        if is_data_change intent.trigger_type
        then some (get_or intent.debounce_started_at fresh.now)
        else none;
    created_at = fresh.now;
    started_at = none;
    heartbeat_at = none;
    completed_at = none;
    build_publication_id = none;
  }

  unfoldable pub insert_job : Fresh → Scope → Intent → Lifecycle (Option Job)
  unfolding allocate_staged_publication save_job log data_change_not_before
  insert_job fresh scope intent = do
    let job = new_job fresh scope intent
    modify λ db. record db { jobs = job ∷ db.jobs }
    publication ← allocate_staged_publication fresh scope job
    save_job job.id (λ j. record j { build_publication_id = some publication.id })
    log PublicationAction.job_queued intent.requested_by job.id
    pure (some (record job { build_publication_id = some publication.id }))

  -- The part of `enqueue_publication_job` that follows the comparison of the source.
  unfoldable pub queue_job : Fresh → Scope → Intent → Lifecycle (Option Job)
  unfolding coalesce insert_job
  queue_job fresh scope intent = do
    live ← gets λ db. first (is_live_of scope.id) db.jobs
    if_found live
        (λ active.
          if is_running active.status then pure none else coalesce fresh.now scope intent active)
        (insert_job fresh scope intent)

  -- The caller may have read the source, and stored its fingerprint, itself.
  unfoldable pub read_source : Bool → Scope → Lifecycle Scope
  unfolding current_source_state store_fingerprint
  read_source true scope = pure scope
  read_source false scope = do s ← current_source_state b scope; store_fingerprint b s

  unfoldable pub enqueue_publication_job :
      Fresh → Owner → DatasetType → Intent → Bool → Lifecycle (Option Job)
  unfolding validate_scope locked_scope read_source scope_is_dirty reconcile_clean_source queue_job
  enqueue_publication_job fresh owner dataset intent is_source_given = do
    validate_scope owner dataset
    found ← locked_scope owner dataset
    scope ← read_source is_source_given found
    dirty ← gets (scope_is_dirty b scope (some (current_fingerprint b scope)))
    if not intent.allow_clean_rebuild && not dirty
        then (do reconcile_clean_source b fresh.now scope; pure none)
        else queue_job fresh scope intent
