-- ===== src/Publications/Retention/Pass.antt =====
-- One pass of the retention (apps/publications/retention.py): `_candidate_ids` and
-- `run_publication_retention`. Each candidate has a transaction of its own.
use fire_dash_server.Prelude.{
  ℕ, suc, ◌+◌, ◌-◌, ◌==◌, ltb, leb, Bool, not, ◌&&◌, ◌||◌, is_some, if◌then◌else◌, ◌>>=◌, ◌>>◌,
  List, [], ◌∷◌, ◌++◌, map, Result, ok, err, pure, gets, any, select, order_by, take, length,
}
use fire_dash_server.Tablets.Store.{days}
use fire_dash_server.Publications.Models.{
  Scope, Publication, is_superseded, is_failed, is_cancelled, is_ready_artifact,
}
use fire_dash_server.Publications.Store.{PublicationDb, Lifecycle, PublicationError, Builders}
use fire_dash_server.Publications.Restore.{later_version}
use fire_dash_server.Publications.Retention.{
  Policy, Outcome, retained, require_registered, process_candidate,
}

-- `order_by("created_at", "pk")`
abbrev pub earlier_created : Publication → Publication → Bool
earlier_created p q =
    ltb p.created_at q.created_at || (p.created_at == q.created_at && ltb p.id q.id)

abbrev ids : List Publication → List ℕ
ids = map (λ (p : Publication). p.id)

module _ (b : Builders) (policy : Policy) where
  -- `_retained_predecessor_ids`: ranked among the ready predecessors of the same scope.
  abbrev ranked : ℕ → List Publication → List Publication
  ranked scope_id publications = take policy.retained_predecessors (
      order_by later_version (
        select
          (λ p.
            p.scope_state_id == scope_id
            && is_superseded p.status
            && is_ready_artifact p.artifact_status
            && p.artifact_ready)
          publications))

  unfoldable pub superseded_ids : ℕ → PublicationDb → List ℕ
  superseded_ids limit db = ids (
      take limit (
        order_by earlier_created (
          select
            (λ p.
              is_superseded p.status
              && not (any (λ q. q.id == p.id) (ranked p.scope_state_id db.publications)))
            db.publications)))

  -- The superseded publications of a scope that are not retained.
  unfoldable pub unprotected : ℕ → Scope → PublicationDb → List ℕ
  unfolding retained
  unprotected limit scope db = ids (
      take limit (
        order_by earlier_created (
          select
            (λ p.
              p.scope_state_id == scope.id
              && is_superseded p.status
              && not (any (λ q. q.id == p.id) (retained b policy scope db)))
            db.publications)))

  -- The loop over the scopes, which ends when there are enough.
  unfoldable pub restore_aware_ids : ℕ → List Scope → Lifecycle (List ℕ)
  unfolding require_registered unprotected
  restore_aware_ids limit [] = pure []
  restore_aware_ids limit (scope ∷ rest) = if limit == 0 then pure [] else do
    require_registered b policy scope
    found ← gets (unprotected limit scope)
    more ← restore_aware_ids (limit - length found) rest
    pure (found ++ more)

  abbrev earlier_scope : Scope → Scope → Bool
  earlier_scope s t = ltb s.id t.id

  abbrev has_superseded : PublicationDb → Scope → Bool
  has_superseded db s =
      any (λ p. p.scope_state_id == s.id && is_superseded p.status) db.publications

  unfoldable pub terminal_ids : ℕ → ℕ → PublicationDb → List ℕ
  terminal_ids limit now db = ids (
      take limit (
        order_by earlier_created (
          select
            (λ p.
              (is_failed p.status || is_cancelled p.status)
              && is_some p.source_snapshot
              && leb (p.created_at + days policy.snapshot_retention_days) now)
            db.publications)))

  -- `_candidate_ids`
  unfoldable pub candidate_ids : ℕ → ℕ → Lifecycle (List ℕ)
  unfolding superseded_ids restore_aware_ids terminal_ids
  candidate_ids limit now = do
    scopes ← gets λ db. order_by earlier_scope (select (has_superseded db) db.scopes)
    old ←
        (if policy.is_restore_aware
          then restore_aware_ids limit scopes
          else gets (superseded_ids limit))
    rest ← gets (terminal_ids (limit - length old) now)
    pure (old ++ rest)

pub record RetentionResult : Type 0 where
  pub considered : ℕ
  pub obsoleted : ℕ
  pub snapshots_purged : ℕ
  pub skipped : ℕ

abbrev zero_result : RetentionResult
zero_result = record { considered = 0; obsoleted = 0; snapshots_purged = 0; skipped = 0 }

abbrev pub tally : Outcome → RetentionResult → RetentionResult
tally Outcome.obsoleted r = record r { considered = suc r.considered; obsoleted = suc r.obsoleted }
tally Outcome.snapshot_purged r = record r {
  considered = suc r.considered;
  snapshots_purged = suc r.snapshots_purged;
}
tally Outcome.skipped r = record r { considered = suc r.considered; skipped = suc r.skipped }

module _ (b : Builders) (policy : Policy) (now : ℕ) (dry_run : Bool) where
  -- An error ends the pass, and what was committed stays.
  unfoldable pub retention_each :
      List ℕ
      → RetentionResult
      → PublicationDb
      → Result PublicationError RetentionResult × PublicationDb
  unfolding process_candidate
  retention_each [] r db = (ok r, db)
  retention_each (pk ∷ rest) r db = elim (process_candidate b policy now dry_run pk db) [
    | err e ↦ (err e, db)
    | ok done ↦ retention_each rest (tally done.0 r) done.1
  ]

  -- A batch size of 0 means that of the settings.
  abbrev limit_of : ℕ → ℕ
  limit_of batch_size = if batch_size == 0 then policy.batch_size else batch_size

  unfoldable pub run_publication_retention :
      ℕ → PublicationDb → Result PublicationError RetentionResult × PublicationDb
  unfolding candidate_ids retention_each
  run_publication_retention batch_size db =
      if limit_of batch_size == 0
      then (err PublicationError.value_error, db)
      else elim (candidate_ids b policy (limit_of batch_size) now db) [
        | err e ↦ (err e, db)
        | ok found ↦ retention_each found.0 zero_result db
      ]
