-- ===== src/Publications/Restore.antt =====
-- Going back to an earlier publication: the strict policy of apps/publications/restore.py, and of
-- apps/publications/services.py `_newer_live_attempt_exists`, `_eligible_predecessor`,
-- `_activate_publication`, `rollback_publication` and `delete_publication`.
use fire_dash_server.Prelude.{
  ℕ, ◌==◌, ltb, Bool, true, not, ◌&&◌, ◌||◌, Option, none, some, is_none, is_some, is_key,
  if◌then◌else◌, ◌>>=◌, ◌>>◌, ◌∷◌, pure, raise_if, or_raise, gets, modify, when, first, any, select,
  order_by,
}
use fire_dash_server.Tablets.Models.{PublicationAction, User}
use fire_dash_server.Publications.Models.{
  Scope, Publication, PublicationStatus, ActivationAction, Activation, is_staged, is_building,
  is_published, is_superseded, is_ready_artifact,
}
use fire_dash_server.Publications.Registry.{Definition, get_dataset_definition}
use fire_dash_server.Publications.Store.{
  PublicationDb, Lifecycle, PublicationError, publication_error, Message, Builders, get_scope,
  lock_scope, get_publication, save_scope, save_publication, log, schedule_artifact_removal,
  linked_publication,
}
use fire_dash_server.Publications.Authority.{require_publication_scope, validate_scope}
use fire_dash_server.Publications.Artifacts.{
  release_terminal_document_artifact_references, revoke_publication_dataset_key_grants,
}
use fire_dash_server.Publications.Finalize.{retire_previous, publication_id_of}

-- `publication_restore_metadata_blocked_reason`: whether there is a reason. A publication has the owner
-- and the data set of its scope.
unfoldable pub metadata_blocked : Definition → Scope → Bool → Publication → Bool
metadata_blocked definition scope historical p =
    not (p.scope_state_id == scope.id)
    || (historical && not (is_superseded p.status))
    || not (p.schema_version == definition.schema_version)
    || not p.artifact_ready
    || not (is_ready_artifact p.artifact_status)
    || (if definition.is_document then is_some p.artifact_path else is_none p.artifact_path)

-- `_newer_live_attempt_exists`
unfoldable pub newer_live_attempt_exists : ℕ → ℕ → PublicationDb → Bool
newer_live_attempt_exists scope_id version db =
    any
      (λ p.
        p.scope_state_id == scope_id
        && ltb version p.version_number
        && (is_staged p.status || is_building p.status))
      db.publications

-- `order_by("-version_number")`
abbrev pub later_version : Publication → Publication → Bool
later_version p q = ltb q.version_number p.version_number

abbrev pub reactivated : ℕ → ℕ → Publication → Publication
reactivated now actor p = record p {
  status = PublicationStatus.published;
  published_at = some now;
  published_by = some actor;
}

abbrev pub activation : ActivationAction → Scope → Option Publication → ℕ → ℕ → Activation
activation action scope previous target actor = record {
  publication_id = target;
  scope_state_id = scope.id;
  previous_publication_id = publication_id_of previous;
  action = action;
  activated_by = actor;
}

abbrev pub other_than : ℕ → Option Publication → Option Publication
other_than pk none = none
other_than pk (some q) = if q.id == pk then none else some q

-- `_activate_publication`
unfoldable pub activate_publication : ℕ → Scope → ℕ → ℕ → ActivationAction → Lifecycle (Unit {0})
unfolding retire_previous save_publication save_scope
activate_publication now scope target actor action = do
  previous ← gets (linked_publication scope.current_published_publication_id)
  retire_previous now scope (other_than target previous)
  save_publication target (reactivated now actor)
  save_scope scope.id λ s. record s { current_published_publication_id = some target }
  modify λ db. record db {
    activations = activation action scope previous target actor ∷ db.activations;
  }

-- The publication, and its scope, of which the actor is an administrator.
unfoldable pub open_scope : User → ℕ → Lifecycle (Publication × Scope)
unfolding get_publication lock_scope require_publication_scope validate_scope
open_scope actor pk = do
  p ← get_publication pk
  scope ← lock_scope p.scope_state_id
  require_publication_scope actor scope.owner scope.dataset
  validate_scope scope.owner scope.dataset
  pure (p, scope)

abbrev pub retired : Publication → Publication
retired p = record p { status = PublicationStatus.obsolete; source_snapshot = none }

-- The publication is retired: its row stays, and what it holds is released.
unfoldable pub retire_publication : ℕ → Scope → Publication → Lifecycle (Unit {0})
unfolding revoke_publication_dataset_key_grants save_publication
    release_terminal_document_artifact_references get_scope save_scope schedule_artifact_removal
retire_publication now scope p = do
  revoke_publication_dataset_key_grants now scope.dataset p.id
  save_publication p.id retired
  release_terminal_document_artifact_references scope.dataset (retired p)
  s ← get_scope scope.id
  when (is_key s.latest_built_publication_id p.id) (
      save_scope scope.id
        λ s. record s { latest_built_publication_id = s.current_published_publication_id })
  schedule_artifact_removal p.artifact_path

module _ (b : Builders) where
  -- `publication_restore_blocked_reason` with `strict=True`, for a data set that is registered.
  unfoldable pub restore_blocked : Definition → Scope → Bool → Publication → Bool
  unfolding metadata_blocked
  restore_blocked definition scope historical p =
      metadata_blocked definition scope historical p
      || (definition.is_document && not (b.is_ready_generation p))

  abbrev pub is_predecessor : Scope → ℕ → Publication → Bool
  is_predecessor scope before_version p =
      p.scope_state_id == scope.id
      && is_superseded p.status
      && ltb p.version_number before_version
      && is_ready_artifact p.artifact_status
      && p.artifact_ready

  -- `_eligible_predecessor`: the latest that can be restored.
  unfoldable pub eligible_predecessor : Definition → Scope → ℕ → PublicationDb → Option Publication
  unfolding restore_blocked
  eligible_predecessor definition scope before_version db =
      first (λ p. not (restore_blocked definition scope true p))
        (order_by later_version (select (is_predecessor scope before_version) db.publications))

  unfoldable pub rollback_publication : ℕ → User → ℕ → Lifecycle Publication
  unfolding open_scope get_dataset_definition restore_blocked newer_live_attempt_exists or_raise
      activate_publication log
  rollback_publication now actor pk = do
    r ← open_scope actor pk
    definition ← or_raise (get_dataset_definition (r.1).dataset) PublicationError.registry_error
    raise_if (restore_blocked definition r.1 true r.0) (publication_error Message.restore_blocked)
    found ← gets (linked_publication (r.1).current_published_publication_id)
    previous ← or_raise found (publication_error Message.no_current)
    newer ← gets (newer_live_attempt_exists (r.1).id previous.version_number)
    raise_if newer (publication_error Message.newer_attempt)
    activate_publication now r.1 pk actor.id ActivationAction.rollback
    log PublicationAction.rolled_back (some actor.id) pk
    pure (reactivated now actor.id r.0)

  -- The branch of `delete_publication` for the current publication.
  unfoldable pub replace_active : ℕ → User → Scope → Publication → Lifecycle (Unit {0})
  unfolding newer_live_attempt_exists eligible_predecessor get_dataset_definition or_raise
      activate_publication log
  replace_active now actor scope p = do
    raise_if (not (is_key scope.current_published_publication_id p.id))
        (publication_error Message.not_authoritative)
    newer ← gets (newer_live_attempt_exists scope.id p.version_number)
    raise_if newer (publication_error Message.newer_attempt)
    definition ← or_raise (get_dataset_definition scope.dataset) PublicationError.registry_error
    found ← gets (eligible_predecessor definition scope p.version_number)
    predecessor ← or_raise found (publication_error Message.no_predecessor)
    activate_publication now scope predecessor.id actor.id ActivationAction.rollback
    log PublicationAction.active_replaced_before_delete (some actor.id) p.id

  unfoldable pub delete_publication : ℕ → User → ℕ → Lifecycle Publication
  unfolding open_scope replace_active retire_publication log
  delete_publication now actor pk = do
    r ← open_scope actor pk
    raise_if (not (is_published (r.0).status || is_superseded (r.0).status))
        (publication_error Message.not_deletable)
    when (is_published (r.0).status) (replace_active now actor r.1 r.0)
    retire_publication now r.1 r.0
    log PublicationAction.deleted (some actor.id) pk
    pure (retired r.0)
