-- ===== src/Publications/State.antt =====
-- `compute_scope_state` and what it is computed from (apps/publications/state.py): the one operational
-- state that a data set's scope is shown with. An empty fingerprint is `none`.
pub mod Current
use fire_dash_server.Prelude.{
  ℕ, ◌+◌, ◌==◌, ltb, Bool, true, false, not, ◌&&◌, ◌||◌, Option, none, some, is_some, is_none, List,
  [], ◌∷◌, if◌then◌else◌, length,
}
use fire_dash_server.Publications.Models.{
  Publication, Job, Scope, PublicationStatus, JobStatus, is_building, is_staged, is_failed,
  is_ready_for_review,
}

-- The operational state keys.
pub data OperationalState : Type 0 where
  current not_published update_queued queued building ready_to_publish needs_rebuild failed :
      OperationalState

-- What the queries for a page of scopes have found, by key: the dictionaries that
-- `_scope_state_inputs` is given.
pub record Found : Type 0 where
  pub latest_by_scope : ℕ → Option Publication
  pub active_jobs : ℕ → Option Job
  pub linked_publications : ℕ → Option Publication

-- `linked_publications.get(key)`, of a key that may be missing.
abbrev pub linked : Found → Option ℕ → Option Publication
linked found none = none
linked found (some key) = found.linked_publications key

abbrev pub has_status : (PublicationStatus → Bool) → Option Publication → Bool
has_status test none = false
has_status test (some p) = test p.status

abbrev pub fingerprint_of : Option Publication → Option ℕ
fingerprint_of none = none
fingerprint_of (some p) = p.source_fingerprint

-- Both there, and equal.
abbrev pub same_fingerprint : Option ℕ → Option ℕ → Bool
same_fingerprint none b = false
same_fingerprint (some f) none = false
same_fingerprint (some f) (some g) = f == g

-- The `dirty` of `_scope_state_inputs`.
unfoldable pub is_dirty : Option ℕ → Option Publication → Bool
is_dirty fingerprint none = true
is_dirty none (some p) = true
is_dirty (some f) (some p) = elim p.source_fingerprint [ none ↦ true | some g ↦ not (f == g) ]

-- `not_before is not None and not_before > now`
abbrev pub is_later : ℕ → Option ℕ → Bool
is_later now none = false
is_later now (some t) = ltb now t

-- `compute_scope_state` from where the active job says nothing.
unfoldable pub state_without_job :
    Bool → Option Publication → Option Publication → Bool → Option ℕ → OperationalState
state_without_job dirty latest latest_built current_published fingerprint =
    if has_status is_building latest
    then OperationalState.building
    else if has_status is_staged latest
    then OperationalState.update_queued
    else if has_status is_failed latest
        && dirty
        && (is_none (fingerprint_of latest) || same_fingerprint (fingerprint_of latest) fingerprint)
    then OperationalState.failed
    else if has_status is_ready_for_review latest_built
    then OperationalState.ready_to_publish
    else if dirty
    then OperationalState.needs_rebuild
    else if current_published
    then OperationalState.current
    else OperationalState.not_published

unfoldable pub compute_scope_state :
    ℕ
    → Bool
    → Option Publication
    → Option Publication
    → Bool
    → Option Job
    → Option ℕ
    → OperationalState
unfolding state_without_job
compute_scope_state now dirty latest latest_built current_published none fingerprint =
    state_without_job dirty latest latest_built current_published fingerprint
compute_scope_state now dirty latest latest_built current_published (some job) fingerprint =
    elim job.status [
      | JobStatus.running ↦ OperationalState.building
      | JobStatus.pending ↦
          if is_later now job.not_before
          then OperationalState.update_queued
          else OperationalState.queued
      | _ ↦ state_without_job dirty latest latest_built current_published fingerprint
    ]

-- The state of one row of `scope_operational_states_for_scopes`.
unfoldable pub scope_state : ℕ → Found → Scope → OperationalState
unfolding compute_scope_state is_dirty
scope_state now found scope =
    let published = linked found scope.current_published_publication_id in
    compute_scope_state now (is_dirty scope.current_source_fingerprint published)
      (found.latest_by_scope scope.id) (linked found scope.latest_built_publication_id)
      (is_some published) (found.active_jobs scope.id) scope.current_source_fingerprint

-- The counts of `operational_summary`, one for each state.
pub record Summary : Type 0 where
  pub total : ℕ
  pub current : ℕ
  pub not_published : ℕ
  pub update_queued : ℕ
  pub queued : ℕ
  pub building : ℕ
  pub ready_to_publish : ℕ
  pub needs_rebuild : ℕ
  pub failed : ℕ

-- `summary[state] += 1`
abbrev pub add_one : OperationalState → Summary → Summary
add_one OperationalState.current s = record s { current = s.current + 1 }
add_one OperationalState.not_published s = record s { not_published = s.not_published + 1 }
add_one OperationalState.update_queued s = record s { update_queued = s.update_queued + 1 }
add_one OperationalState.queued s = record s { queued = s.queued + 1 }
add_one OperationalState.building s = record s { building = s.building + 1 }
add_one OperationalState.ready_to_publish s = record s { ready_to_publish = s.ready_to_publish + 1 }
add_one OperationalState.needs_rebuild s = record s { needs_rebuild = s.needs_rebuild + 1 }
add_one OperationalState.failed s = record s { failed = s.failed + 1 }

unfoldable pub add_all : List OperationalState → Summary → Summary
add_all [] s = s
add_all (r ∷ rs) s = add_all rs (add_one r s)

unfoldable pub operational_summary : List OperationalState → Summary
unfolding add_all
operational_summary rows = add_all rows (record {
  total = length rows;
  current = 0;
  not_published = 0;
  update_queued = 0;
  queued = 0;
  building = 0;
  ready_to_publish = 0;
  needs_rebuild = 0;
  failed = 0;
})
