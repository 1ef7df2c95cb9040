-- ===== src/Publications/Requests.antt =====
-- The services that ask for a build (apps/publications/services.py): `mark_dirty`,
-- `stage_publication_update`, `request_rebuild` and `bulk_request_rebuilds`.
use fire_dash_server.Prelude.{
  ℕ, suc, ◌==◌, Bool, true, false, not, ◌&&◌, ◌||◌, Option, none, some, is_none, get_or,
  if◌then◌else◌, ◌>>=◌, ◌>>◌, ◌∷◌, pure, raise_if, gets, modify, when, if_found, first, any,
}
use fire_dash_server.Tablets.Models.{PublicationAction, User, department_mutation}
use fire_dash_server.Tablets.Access.{revoke_temporary_access}
use fire_dash_server.Publications.Models.{
  Owner, DatasetType, Scope, TriggerType, PublicationStatus, is_staged, is_building,
  is_ready_for_review,
}
use fire_dash_server.Publications.Registry.{is_file_dataset}
use fire_dash_server.Publications.Store.{
  Lifecycle, publication_error, Message, Builders, save_scope, log, on_base,
}
use fire_dash_server.Publications.Authority.{require_publication_scope, validate_scope}
use fire_dash_server.Publications.Source.{
  current_source_state, current_fingerprint, stored_source_fingerprint, reconcile_clean_source,
  scope_is_dirty,
}
use fire_dash_server.Publications.Queue.{
  Fresh, Intent, is_scope_of, is_live_of, locked_scope, enqueue_publication_job,
}

abbrev pub new_scope : ℕ → Owner → DatasetType → Scope
new_scope pk owner dataset = record {
  id = pk;
  owner = owner;
  dataset = dataset;
  source_revision = 0;
  current_source_fingerprint = none;
  dirty_since = none;
  latest_built_publication_id = none;
  current_published_publication_id = none;
}

-- The scope of that owner and data set, made if it is missing.
unfoldable pub get_or_create_scope : ℕ → Owner → DatasetType → Lifecycle Scope
get_or_create_scope pk owner dataset = do
  found ← gets λ db. first (is_scope_of owner dataset) db.scopes
  if_found found pure do
    modify λ db. record db { scopes = new_scope pk owner dataset ∷ db.scopes }
    pure (new_scope pk owner dataset)

abbrev pub data_change : Option ℕ → Intent
data_change actor = record {
  requested_by = actor;
  trigger_type = TriggerType.data_change;
  debounce_started_at = none;
  allow_clean_rebuild = false;
}

abbrev pub rebuild_intent : ℕ → Intent
rebuild_intent actor = record {
  requested_by = some actor;
  trigger_type = TriggerType.user_request;
  debounce_started_at = none;
  allow_clean_rebuild = true;
}

-- An attempt that is queued, being built or under review.
abbrev pub is_open_attempt : PublicationStatus → Bool
is_open_attempt s = is_staged s || is_building s || is_ready_for_review s

module _ (b : Builders) where
  unfoldable pub mark_dirty : Fresh → ℕ → Option ℕ → Owner → DatasetType → Lifecycle Scope
  unfolding validate_scope get_or_create_scope current_source_state stored_source_fingerprint
      scope_is_dirty reconcile_clean_source save_scope log enqueue_publication_job
  mark_dirty fresh scope_id actor owner dataset = do
    validate_scope owner dataset
    found ← get_or_create_scope scope_id owner dataset
    scope ← current_source_state b (record found { source_revision = suc found.source_revision })
    stored ← gets (stored_source_fingerprint b scope (current_fingerprint b scope))
    let marked = record scope { current_source_fingerprint = some stored }
    dirty ← gets (scope_is_dirty b marked (some (current_fingerprint b scope)))
    when (not dirty) (do reconcile_clean_source b fresh.now marked; pure tt)
    let saved = record marked {
      dirty_since = if dirty then some (get_or scope.dirty_since fresh.now) else none;
    }
    save_scope scope.id λ s. record s {
      source_revision = saved.source_revision;
      current_source_fingerprint = saved.current_source_fingerprint;
      dirty_since = saved.dirty_since;
    }
    log PublicationAction.scope_marked_dirty actor scope.id
    when dirty (do enqueue_publication_job b fresh owner dataset (data_change actor) true; pure tt)
    pure saved

  unfoldable pub request_rebuild : Fresh → ℕ → User → Owner → DatasetType → Lifecycle Scope
  unfolding require_publication_scope validate_scope get_or_create_scope enqueue_publication_job log
      on_base revoke_temporary_access
  request_rebuild fresh scope_id actor owner dataset = do
    require_publication_scope actor owner dataset
    validate_scope owner dataset
    scope ← get_or_create_scope scope_id owner dataset
    busy ← gets λ db.
        any (is_live_of scope.id) db.jobs
        || any (λ p. p.scope_state_id == scope.id && is_open_attempt p.status) db.publications
    raise_if busy (publication_error Message.rebuild_unavailable)
    enqueue_publication_job b fresh owner dataset (rebuild_intent actor.id) false
    when (elim dataset [ DatasetType.department_files ↦ true | _ ↦ false ])
        (on_base (revoke_temporary_access fresh.now actor department_mutation))
    log PublicationAction.rebuild_requested (some actor.id) scope.id
    pure scope

  -- What `stage_publication_update` does where the source differs from what is published.
  unfoldable pub stage_changed : Fresh → User → Scope → Lifecycle Scope
  unfolding scope_is_dirty enqueue_publication_job log
  stage_changed fresh actor scope = do
    dirty ← gets (scope_is_dirty b scope none)
    raise_if (not dirty) (publication_error Message.no_unpublished_changes)
    live ← gets λ db. any (is_live_of scope.id) db.jobs
    raise_if live (publication_error Message.already_staged)
    queued ←
        enqueue_publication_job b fresh scope.owner scope.dataset (data_change (some actor.id))
          false
    raise_if (is_none queued) (publication_error Message.no_unpublished_changes)
    log PublicationAction.update_staged (some actor.id) scope.id
    pure scope

  -- For a file library, whether the source is that of the active publication.
  unfoldable pub reconcile_files : ℕ → Scope → Lifecycle (Scope × Bool)
  unfolding current_source_state reconcile_clean_source
  reconcile_files now scope =
      if is_file_dataset scope.dataset
      then (do
        s ← current_source_state b scope
        clean ← reconcile_clean_source b now s
        pure (s, clean))
      else pure (scope, false)

  unfoldable pub stage_publication_update : Fresh → User → Owner → DatasetType → Lifecycle Scope
  unfolding require_publication_scope validate_scope locked_scope reconcile_files stage_changed
  stage_publication_update fresh actor owner dataset = do
    require_publication_scope actor owner dataset
    validate_scope owner dataset
    found ← locked_scope owner dataset
    r ← reconcile_files fresh.now found
    if r.1 then pure r.0 else stage_changed fresh actor r.0
