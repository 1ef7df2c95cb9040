-- ===== src/Publications/Source.antt =====
-- The canonical source of a scope: its fingerprint, whether it differs from what is published, and what
-- is cancelled when it does not (apps/publications/services.py, with `publication_source_fingerprint` of
-- apps/publications/builders.py).
use fire_dash_server.Prelude.{
  ℕ, ◌==◌, Bool, true, false, not, ◌&&◌, ◌||◌, Option, none, some, is_none, is_some, is_key, get_or,
  if◌then◌else◌, ◌>>=◌, ◌>>◌, pure, raise_if, gets, modify, when, if_found, for_each, any, select,
  update,
}
use fire_dash_server.Publications.Models.{
  Scope, Publication, Job, DatasetType, PublicationStatus, JobStatus, is_staged, is_pending,
  is_active_job,
}
use fire_dash_server.Publications.Registry.{get_dataset_definition, is_file_dataset}
use fire_dash_server.Publications.Store.{
  PublicationDb, Lifecycle, PublicationError, Builders, get_publication, save_scope,
  save_publication, save_job, linked_publication,
}

-- `staged.status = CANCELLED` and `pending.status = CANCELLED`
abbrev pub cancelled : Publication → Publication
cancelled p = record p { status = PublicationStatus.cancelled }

abbrev pub cancelled_job : ℕ → Job → Job
cancelled_job now j = record j { status = JobStatus.cancelled; completed_at = some now }

-- A pending job with the attempt that it has staged.
unfoldable pub cancel_pending : ℕ → Job → Lifecycle (Unit {0})
unfolding get_publication save_publication save_job
cancel_pending now pending = do
  if_found pending.build_publication_id
      (λ pk. do
        staged ← get_publication pk
        when (is_staged staged.status) (save_publication pk cancelled))
      (pure tt)
  save_job pending.id (cancelled_job now)

-- A staged attempt of the scope that no live job builds.
abbrev pub is_unlinked : ℕ → PublicationDb → Publication → Bool
is_unlinked scope_id db p =
    p.scope_state_id == scope_id
    && is_staged p.status
    && not (any (λ j. is_key j.build_publication_id p.id && is_active_job j.status) db.jobs)

abbrev pub is_redundant : ℕ → Job → Bool
is_redundant scope_id j =
    j.scope_state_id == scope_id && is_pending j.status && not j.allow_clean_rebuild

unfoldable pub cancel_redundant_pending : ℕ → ℕ → Lifecycle (Unit {0})
unfolding cancel_pending
cancel_redundant_pending now scope_id = do
  redundant ← gets λ db. select (is_redundant scope_id) db.jobs
  for_each redundant (cancel_pending now)
  modify
      λ db. record db { publications = update (is_unlinked scope_id db) cancelled db.publications }

module _ (b : Builders) where
  unfoldable pub publication_source_fingerprint : DatasetType → Publication → Option ℕ
  publication_source_fingerprint dataset p = elim p.source_snapshot [
    | none ↦ p.source_fingerprint
    | some snapshot ↦
        if is_file_dataset dataset && b.is_file_library_snapshot snapshot
        then some (b.payload_fingerprint snapshot)
        else p.source_fingerprint
  ]

  -- The source as it is, under its fingerprint.
  abbrev pub current_fingerprint : Scope → ℕ
  current_fingerprint scope = b.payload_fingerprint (b.source scope.id)

  abbrev pub synchronised : Scope → Scope
  synchronised scope =
      if is_file_dataset scope.dataset
      then record scope { source_revision = b.snapshot_revision (b.source scope.id) }
      else scope

  -- `_current_source_state`: the scope, at the revision of a file library. The payload and its
  -- fingerprint are `b.source scope.id` and `current_fingerprint scope`.
  unfoldable pub current_source_state : Scope → Lifecycle Scope
  unfolding save_scope
  current_source_state scope = do
    raise_if (is_none (get_dataset_definition scope.dataset)) PublicationError.registry_error
    when
        (is_file_dataset scope.dataset
          && not (scope.source_revision == b.snapshot_revision (b.source scope.id)))
        (save_scope scope.id
          λ s. record s { source_revision = b.snapshot_revision (b.source scope.id) })
    pure (synchronised scope)

  -- Whether a fingerprint is neither that of a publication nor that of its content.
  unfoldable pub differs_from : DatasetType → Publication → ℕ → Bool
  unfolding publication_source_fingerprint
  differs_from dataset current fingerprint =
      is_none current.source_fingerprint
      || not (
          is_key current.source_fingerprint fingerprint
          || is_key (publication_source_fingerprint dataset current) fingerprint)

  -- `fingerprint` is given, or it is the stored one.
  unfoldable pub scope_is_dirty : Scope → Option ℕ → PublicationDb → Bool
  unfolding differs_from
  scope_is_dirty scope fingerprint db =
      elim (linked_publication scope.current_published_publication_id db) [
        | none ↦ true
        | some current ↦ elim fingerprint [
          | some f ↦ differs_from scope.dataset current f
          | none ↦ elim scope.current_source_fingerprint [
            | none ↦ true
            | some f ↦ differs_from scope.dataset current f
          ]
        ]
      ]

  unfoldable pub stored_source_fingerprint : Scope → ℕ → PublicationDb → ℕ
  unfolding publication_source_fingerprint
  stored_source_fingerprint scope fingerprint db =
      elim (linked_publication scope.current_published_publication_id db) [
        | none ↦ fingerprint
        | some current ↦
            if is_key (publication_source_fingerprint scope.dataset current) fingerprint
            then get_or current.source_fingerprint fingerprint
            else fingerprint
      ]

  -- `scope.current_source_fingerprint = …`, if it differs.
  unfoldable pub store_fingerprint : Scope → Lifecycle Scope
  unfolding stored_source_fingerprint save_scope
  store_fingerprint scope = do
    stored ← gets (stored_source_fingerprint scope (current_fingerprint scope))
    when (not (is_key scope.current_source_fingerprint stored))
        (save_scope scope.id λ s. record s { current_source_fingerprint = some stored })
    pure (record scope { current_source_fingerprint = some stored })

  -- `_reconcile_clean_source`: whether the source is that of the active publication.
  unfoldable pub reconcile_clean_source : ℕ → Scope → Lifecycle Bool
  unfolding scope_is_dirty stored_source_fingerprint save_scope cancel_redundant_pending
  reconcile_clean_source now scope = do
    dirty ← gets (scope_is_dirty scope (some (current_fingerprint scope)))
    if dirty then pure false else do
      stored ← gets (stored_source_fingerprint scope (current_fingerprint scope))
      when (not (is_key scope.current_source_fingerprint stored) || is_some scope.dirty_since) (
          save_scope scope.id
            λ s. record s { current_source_fingerprint = some stored; dirty_since = none })
      cancel_redundant_pending now scope.id
      pure true
