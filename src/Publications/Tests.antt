-- ===== src/Publications/Tests.antt =====
-- The operational state of a scope, and a summary, at concrete inputs.
mod Services
use fire_dash_server.Prelude.{
  ◌≡◌, refl, not, true, ◌&&◌, none, some, List, [], ◌∷◌, length, count, ◌==◌, if◌then◌else◌,
}
use fire_dash_server.Publications.State.{
  OperationalState, Found, scope_state, operational_summary, linked, has_status, fingerprint_of,
  same_fingerprint,
}
use fire_dash_server.Publications.Models.{
  ArtifactStatus, Owner, DatasetType, PublicationStatus, Publication, Scope, is_building, is_staged,
  is_ready_for_review,
}
use fire_dash_server.Publications.State.Current.{
  is_current_state, is_at_work, count_for, same_state, scope_state-current,
  operational_summary-count,
}

abbrev published : Publication
published = record {
  id = 5;
  scope_state_id = 1;
  version_number = 1;
  schema_version = 1;
  source_revision = 1;
  source_fingerprint = some 77;
  source_snapshot = some 7;
  status = PublicationStatus.published;
  build_summary = none;
  change_summary = none;
  artifact_ready = true;
  artifact_status = ArtifactStatus.ready;
  artifact_path = some 5;
  created_at = 0;
  created_by = none;
  published_at = some 0;
  published_by = none;
  supersedes = none;
}

abbrev scope : Scope
scope = record {
  id = 1;
  owner = Owner.department 1;
  dataset = DatasetType.department_hydrants;
  source_revision = 1;
  dirty_since = none;
  current_source_fingerprint = some 77;
  latest_built_publication_id = some 5;
  current_published_publication_id = some 5;
}

abbrev found : Found
found = record {
  latest_by_scope = λ _. some published;
  active_jobs = λ _. none;
  linked_publications = λ key. if key == 5 then some published else none;
}

-- The scope is up to date.
is_current_test : scope_state 10 found scope ≡ OperationalState.current
unfolding scope_state
is_current_test = refl

scope_state-current_example : is_current_state (scope_state 10 found scope) ≡ (
    not (is_at_work (found.active_jobs 1))
    && not (has_status is_building (found.latest_by_scope 1))
    && not (has_status is_staged (found.latest_by_scope 1))
    && not (has_status is_ready_for_review (linked found (some 5)))
    && same_fingerprint (some 77) (fingerprint_of (linked found (some 5))))
scope_state-current_example = scope_state-current 10 found scope

abbrev three : List OperationalState
three = OperationalState.current ∷ OperationalState.failed ∷ OperationalState.current ∷ []

operational_summary-count_example :
    ((operational_summary three).total ≡ length three)
    × ((k : OperationalState)
        → count_for k (operational_summary three) ≡ count (same_state k) three)
operational_summary-count_example = operational_summary-count three
