-- ===== src/Publications/State/Current.antt =====
-- What the operational states say of the publications.
use fire_dash_server.Prelude.{
  ℕ, ◌+◌, ◌≡◌, refl, is_some, ◌∙◌, Bool, true, false, not, ◌&&◌, Option, none, some, List, [], ◌∷◌,
  length, arith, ◌==◌, count, if◌then◌else◌, Bool-cases, inl, inr,
}
use fire_dash_server.Publications.State.{
  OperationalState, Found, Summary, linked, has_status, fingerprint_of, same_fingerprint, is_dirty,
  state_without_job, compute_scope_state, scope_state, add_one, add_all, operational_summary,
}
use fire_dash_server.Publications.Models.{
  JobStatus, Publication, Job, Scope, is_building, is_staged, is_ready_for_review,
}

abbrev pub is_current_state : OperationalState → Bool
is_current_state s = elim s [ OperationalState.current ↦ true | _ ↦ false ]

-- A job that waits or runs.
abbrev pub is_at_work : Option Job → Bool
is_at_work none = false
is_at_work (some job) = elim job.status [
  | JobStatus.pending ↦ true
  | JobStatus.running ↦ true
  | _ ↦ false
]

dirty_fingerprint :
    (f : Option ℕ) (p : Option Publication)
    → is_dirty f p ≡ not (same_fingerprint f (fingerprint_of p))
unfolding is_dirty
dirty_fingerprint f none = ground arith
dirty_fingerprint none (some p) = ground arith
dirty_fingerprint (some f) (some p) = ground arith

current_without_job :
    (d : Bool) (latest built published : Option Publication) (f : Option ℕ)
    → d ≡ not (same_fingerprint f (fingerprint_of published))
    → is_current_state (state_without_job d latest built (is_some published) f) ≡ (
        not (has_status is_building latest)
        && not (has_status is_staged latest)
        && not (has_status is_ready_for_review built)
        && same_fingerprint f (fingerprint_of published))
unfolding state_without_job
current_without_job d latest built published f h = ground arith

current_with_job :
    (now : ℕ) (d : Bool) (latest built published : Option Publication) (f : Option ℕ)
    → d ≡ not (same_fingerprint f (fingerprint_of published))
    → (job : Option Job)
    → is_current_state (compute_scope_state now d latest built (is_some published) job f) ≡ (
        not (is_at_work job)
        && not (has_status is_building latest)
        && not (has_status is_staged latest)
        && not (has_status is_ready_for_review built)
        && same_fingerprint f (fingerprint_of published))
unfolding compute_scope_state
current_with_job now d latest built published f h none =
    current_without_job d latest built published f h
current_with_job now d latest built published f h (some job) =
    let e = current_without_job d latest built published f h in ground arith

-- A scope is shown as CURRENT exactly if no job of it waits or runs, its latest publication is neither
-- BUILDING nor STAGED, the latest built one is not READY_FOR_REVIEW, and the publication that is
-- distributed was made from the present source: both fingerprints are there and equal.
pub scope_state-current :
    (now : ℕ) (found : Found) (scope : Scope)
    → is_current_state (scope_state now found scope) ≡ (
        not (is_at_work (found.active_jobs scope.id))
        && not (has_status is_building (found.latest_by_scope scope.id))
        && not (has_status is_staged (found.latest_by_scope scope.id))
        && not (has_status is_ready_for_review (linked found scope.latest_built_publication_id))
        && same_fingerprint scope.current_source_fingerprint
            (fingerprint_of (linked found scope.current_published_publication_id)))
unfolding scope_state
scope_state-current now found scope =
    let published : Option Publication = linked found scope.current_published_publication_id in
    current_with_job now (is_dirty scope.current_source_fingerprint published)
      (found.latest_by_scope scope.id) (linked found scope.latest_built_publication_id) published
      scope.current_source_fingerprint
      (dirty_fingerprint scope.current_source_fingerprint published) (found.active_jobs scope.id)

-- The count of a summary that is for a state.
abbrev pub count_for : OperationalState → Summary → ℕ
count_for OperationalState.current s = s.current
count_for OperationalState.not_published s = s.not_published
count_for OperationalState.update_queued s = s.update_queued
count_for OperationalState.queued s = s.queued
count_for OperationalState.building s = s.building
count_for OperationalState.ready_to_publish s = s.ready_to_publish
count_for OperationalState.needs_rebuild s = s.needs_rebuild
count_for OperationalState.failed s = s.failed

abbrev state_place : OperationalState → ℕ
state_place OperationalState.current = 0
state_place OperationalState.not_published = 1
state_place OperationalState.update_queued = 2
state_place OperationalState.queued = 3
state_place OperationalState.building = 4
state_place OperationalState.ready_to_publish = 5
state_place OperationalState.needs_rebuild = 6
state_place OperationalState.failed = 7

abbrev pub same_state : OperationalState → OperationalState → Bool
same_state a b = state_place a == state_place b

add_one-count_for :
    (k r : OperationalState) (s : Summary)
    → count_for k (add_one r s) ≡ (if same_state k r then count_for k s + 1 else count_for k s)
add_one-count_for k r s = ground arith

add_all-count_for :
    (k : OperationalState) (rows : List OperationalState) (s : Summary)
    → count_for k (add_all rows s) ≡ count_for k s + count (same_state k) rows
unfolding add_all
add_all-count_for k [] s = omega arith
add_all-count_for k (r ∷ rs) s =
    let rest = add_all-count_for k rs (add_one r s) in
    let one = add_one-count_for k r s in
    elim (Bool-cases (same_state k r)) [ inl e ↦ ground arith | inr e ↦ ground arith ]

add_all-total : (rows : List OperationalState) (s : Summary) → (add_all rows s).total ≡ s.total
unfolding add_all
add_all-total [] s = refl
add_all-total (r ∷ rs) s = add_all-total rs (add_one r s) ∙ ground arith

-- The count that `operational_summary` gives for a state is the number of the rows in that state, and its
-- total is the number of the rows.
pub operational_summary-count :
    (rows : List OperationalState)
    → ((operational_summary rows).total ≡ length rows)
      × ((k : OperationalState)
          → count_for k (operational_summary rows) ≡ count (same_state k) rows)
unfolding operational_summary
operational_summary-count rows =
    let start : Summary = record {
      total = length rows;
      current = 0;
      not_published = 0;
      update_queued = 0;
      queued = 0;
      building = 0;
      ready_to_publish = 0;
      needs_rebuild = 0;
      failed = 0;
    } in
    (add_all-total rows start, λ k. add_all-count_for k rows start ∙ ground arith)
