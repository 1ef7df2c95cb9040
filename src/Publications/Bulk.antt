-- ===== src/Publications/Bulk.antt =====
-- `bulk_request_rebuilds` of apps/publications/services.py: one intent for each scope of a department
-- that needs a build. `fresh` gives the keys of the rows that a scope may get.
use fire_dash_server.Prelude.{
  ℕ, suc, ◌==◌, Bool, true, false, not, ◌&&◌, ◌||◌, none, some, is_none, is_some, if◌then◌else◌,
  ◌>>=◌, ◌>>◌, List, [], ◌∷◌, pure, gets, any, select,
}
use fire_dash_server.Tablets.Models.{PublicationAction, User}
use fire_dash_server.Publications.Models.{Owner, Scope, TriggerType, is_pending, is_running}
use fire_dash_server.Publications.Store.{Lifecycle, Builders, log}
use fire_dash_server.Publications.Authority.{require_owner_admin}
use fire_dash_server.Publications.Source.{scope_is_dirty}
use fire_dash_server.Publications.Queue.{Fresh, Intent, enqueue_publication_job}

pub record Counts : Type 0 where
  pub created : ℕ
  pub promoted : ℕ
  pub already_running : ℕ
  pub skipped_current : ℕ

abbrev pub is_in_department : ℕ → Owner → Bool
is_in_department d Owner.system = false
is_in_department d (Owner.department e) = e == d
is_in_department d (Owner.station e s) = e == d

abbrev pub bulk_intent : ℕ → Intent
bulk_intent actor = record {
  requested_by = some actor;
  trigger_type = TriggerType.bulk_request;
  debounce_started_at = none;
  allow_clean_rebuild = false;
}

abbrev pub counted_as : Bool → Bool → Counts → Counts
counted_as false before c = c
counted_as true true c = record c { promoted = suc c.promoted }
counted_as true false c = record c { created = suc c.created }

module _ (b : Builders) (fresh : ℕ → Fresh) (actor : ℕ) where
  -- One round of the loop; `is_running_scope` is the answer of the query before it.
  unfoldable pub bulk_round : (ℕ → Bool) → Scope → Counts → Lifecycle Counts
  unfolding scope_is_dirty enqueue_publication_job
  bulk_round is_running_scope scope c =
      if is_running_scope scope.id
      then pure (record c { already_running = suc c.already_running })
      else do
        dirty ← gets (scope_is_dirty b scope none)
        if not (dirty || is_none scope.latest_built_publication_id)
            then pure (record c { skipped_current = suc c.skipped_current })
            else do
              before ←
                  gets λ db. any (λ j. j.scope_state_id == scope.id && is_pending j.status) db.jobs
              queued ←
                  enqueue_publication_job b (fresh scope.id) scope.owner scope.dataset
                    (bulk_intent actor) false
              pure (counted_as (is_some queued) before c)

  unfoldable pub bulk_rounds : (ℕ → Bool) → List Scope → Counts → Lifecycle Counts
  unfolding bulk_round
  bulk_rounds is_running_scope [] c = pure c
  bulk_rounds is_running_scope (scope ∷ rest) c = do
    d ← bulk_round is_running_scope scope c
    bulk_rounds is_running_scope rest d

abbrev zero_counts : Counts
zero_counts = record { created = 0; promoted = 0; already_running = 0; skipped_current = 0 }

unfoldable pub bulk_request_rebuilds : Builders → (ℕ → Fresh) → User → ℕ → Lifecycle Counts
unfolding require_owner_admin bulk_rounds log
bulk_request_rebuilds b fresh actor department = do
  require_owner_admin actor (Owner.department department)
  scopes ← gets λ db. select (λ s. is_in_department department s.owner) db.scopes
  is_running_scope ← gets λ db pk. any (λ j. j.scope_state_id == pk && is_running j.status) db.jobs
  counts ← bulk_rounds b fresh actor.id is_running_scope scopes zero_counts
  log PublicationAction.bulk_rebuild_requested (some actor.id) department
  pure counts
