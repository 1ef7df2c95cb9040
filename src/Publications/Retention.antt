-- ===== src/Publications/Retention.antt =====
-- The retention of old publications (apps/publications/retention.py). A policy gives the settings: how
-- many predecessors are kept, whether only those that can be restored count, and for how long a failed
-- attempt keeps its source.
pub mod Pass
use fire_dash_server.Prelude.{
  ℕ, suc, ◌+◌, ◌-◌, ◌*◌, ◌==◌, ltb, leb, Bool, true, false, not, ◌&&◌, ◌||◌, Option, none, some,
  is_none, is_some, is_key, get_or, if◌then◌else◌, ◌>>=◌, ◌>>◌, List, [], ◌∷◌, ◌++◌, map, Result,
  ok, err, pure, raise, raise_if, gets, when, if_found, first, any, select, order_by, head, take,
  length,
}
use fire_dash_server.Tablets.Models.{PublicationAction}
use fire_dash_server.Tablets.Store.{days}
use fire_dash_server.Publications.Models.{
  Scope, Publication, Job, PublicationStatus, is_superseded, is_failed, is_cancelled,
  is_ready_artifact,
}
use fire_dash_server.Publications.Registry.{Definition, get_dataset_definition}
use fire_dash_server.Publications.Store.{
  PublicationDb, Lifecycle, PublicationError, Builders, save_publication, log,
}
use fire_dash_server.Publications.Artifacts.{release_terminal_document_artifact_references}
use fire_dash_server.Publications.Queue.{is_live_of}
use fire_dash_server.Publications.Restore.{later_version, restore_blocked, retire_publication}
use fire_dash_server.Publications.Review.{newer_job}

pub record Policy : Type 0 where
  pub retained_predecessors : ℕ
  pub is_restore_aware : Bool
  pub snapshot_retention_days : ℕ
  pub batch_size : ℕ

pub data Outcome : Type 0 where
  skipped obsoleted snapshot_purged : Outcome

-- `_terminal_timestamp`
abbrev pub terminal_timestamp : Publication → Option Job → ℕ
terminal_timestamp p none = p.created_at
terminal_timestamp p (some j) = get_or j.completed_at p.created_at

module _ (b : Builders) (policy : Policy) where
  abbrev is_restorable : Scope → Publication → Bool
  is_restorable scope p = elim (get_dataset_definition scope.dataset) [
    | none ↦ false
    | some definition ↦ not (restore_blocked b definition scope true p)
  ]

  -- The predecessors that count: all that are ready, or with restore awareness those that can be restored
  -- (`select_restorable_predecessors` of apps/publications/restore.py).
  abbrev pub counts : Scope → Publication → Bool
  counts scope p =
      p.scope_state_id == scope.id
      && is_superseded p.status
      && (if policy.is_restore_aware
          then is_restorable scope p
          else is_ready_artifact p.artifact_status && p.artifact_ready)

  unfoldable pub retained : Scope → PublicationDb → List Publication
  unfolding restore_blocked get_dataset_definition
  retained scope db =
      take policy.retained_predecessors
        (order_by later_version (select (counts scope) db.publications))

  -- `_is_retained_predecessor`
  unfoldable pub is_retained_predecessor : Scope → Publication → PublicationDb → Bool
  unfolding retained
  is_retained_predecessor scope p db = any (λ q. q.id == p.id) (retained scope db)

  -- The policy of restores looks the data set up.
  unfoldable pub require_registered : Scope → Lifecycle (Unit {0})
  unfolding get_dataset_definition
  require_registered scope =
      raise_if
        (policy.is_restore_aware
          && not (policy.retained_predecessors == 0)
          && is_none (get_dataset_definition scope.dataset))
        PublicationError.registry_error

  abbrev purged : Publication → Publication
  purged p = record p { source_snapshot = none }

  -- The branch for a superseded publication.
  unfoldable pub process_superseded : ℕ → Bool → Scope → Publication → Lifecycle Outcome
  unfolding require_registered is_retained_predecessor retire_publication log
  process_superseded now dry_run scope p =
      if is_key scope.current_published_publication_id p.id then pure Outcome.skipped else do
        require_registered scope
        kept ← gets (is_retained_predecessor scope p)
        if kept then pure Outcome.skipped else if dry_run then pure Outcome.obsoleted else do
          retire_publication now scope p
          log PublicationAction.retention_obsoleted none p.id
          pure Outcome.obsoleted

  abbrev pub is_expired : ℕ → Publication → Option Job → Bool
  is_expired now p job = leb (terminal_timestamp p job + days policy.snapshot_retention_days) now

  -- The branch for an attempt that failed or was cancelled.
  unfoldable pub process_terminal : ℕ → Bool → Scope → Option Job → Publication → Lifecycle Outcome
  unfolding save_publication release_terminal_document_artifact_references log
  process_terminal now dry_run scope job p =
      if is_none p.source_snapshot || not (is_expired now p job)
      then pure Outcome.skipped
      else if dry_run
      then pure Outcome.snapshot_purged
      else do
        save_publication p.id purged
        release_terminal_document_artifact_references scope.dataset p
        log PublicationAction.retention_snapshot_purged none p.id
        pure Outcome.snapshot_purged

  unfoldable pub process_idle : ℕ → Bool → Scope → Publication → Lifecycle Outcome
  unfolding process_superseded process_terminal
  process_idle now dry_run scope p = do
    job ← gets λ db. head (
        order_by newer_job (
          select (λ j. j.scope_state_id == scope.id && is_key j.build_publication_id p.id) db.jobs))
    if is_superseded p.status
        then process_superseded now dry_run scope p
        else if is_failed p.status || is_cancelled p.status
        then process_terminal now dry_run scope job p
        else pure Outcome.skipped

  -- `_process_candidate`
  unfoldable pub process_candidate : ℕ → Bool → ℕ → Lifecycle Outcome
  unfolding process_idle
  process_candidate now dry_run pk = do
    found ← gets λ db. first (λ p. p.id == pk) db.publications
    if_found found
        (λ p. do
          owner ← gets λ db. first (λ s. s.id == p.scope_state_id) db.scopes
          if_found owner
              (λ scope. do
                live ← gets λ db. any (is_live_of scope.id) db.jobs
                if live then pure Outcome.skipped else process_idle now dry_run scope p)
              (pure Outcome.skipped))
        (pure Outcome.skipped)
