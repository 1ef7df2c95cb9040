-- ===== src/Publications/Tests/Services.antt =====
-- A build is queued for a data set of which nothing has been built, and the database stays sound.
use fire_dash_server.Prelude.{
  ℕ, ◌≡◌, ◌+◌, ◌%◌, ◌<◌, update, ◌≤◌, refl, none, some, true, false, [], ◌∷◌, ok, ◌>>=◌, arith,
}
use fire_dash_server.Tablets.Models.{PublicationAction, publication_event}
use fire_dash_server.Tablets.Store.{Db, days, minutes}
use fire_dash_server.Publications.Models.{
  Owner, DatasetType, TriggerType, PublicationStatus, JobStatus, ArtifactStatus, Scope, Publication,
  Job,
}
use fire_dash_server.Publications.Store.{PublicationDb, Builders}
use fire_dash_server.Publications.Queue.{
  Fresh, Intent, enqueue_publication_job, data_change_not_before,
}
use fire_dash_server.Publications.Build.{recover_stale_jobs}
use fire_dash_server.Publications.Changes.Overdue.{is_abandoned, recovered}
use fire_dash_server.Publications.Changes.Overdue.Sweep.{recover_stale_jobs-jobs}
use fire_dash_server.Publications.Queue.Window.{data_change_not_before-window}
use fire_dash_server.Publications.Changes.{scope_at, Run}
use fire_dash_server.Publications.Invariant.{IsSound}
use fire_dash_server.Publications.System.{Step, start, after, Step-Run, Reach-IsSound}

-- A department with one data set, of which nothing has been built yet.
abbrev new_scope_row : Scope
new_scope_row = record {
  id = 1;
  owner = Owner.department 1;
  dataset = DatasetType.department_hydrants;
  source_revision = 1;
  dirty_since = some 0;
  current_source_fingerprint = none;
  latest_built_publication_id = none;
  current_published_publication_id = none;
}

abbrev base : Db
base = record {
  departments = [];
  stations = [];
  vehicles = [];
  tablets = [];
  assignments = [];
  installations = [];
  invitations = [];
  requests = [];
  dataset_grants = [];
  document_grants = [];
  manifests = [];
  memberships = [];
  accesses = [];
  events = [];
}

abbrev unbuilt : PublicationDb
unbuilt = record {
  base = base;
  scopes = new_scope_row ∷ [];
  publications = [];
  jobs = [];
  activations = [];
  document_artifacts = [];
  references = [];
  contents = [];
  system_roles = [];
  station_admins = [];
  follow_ups = [];
  removals = [];
}

abbrev builders : Builders
builders = record {
  source = λ _. 78;
  payload_fingerprint = λ p. p;
  is_file_library_snapshot = λ _. false;
  snapshot_revision = λ _. 0;
  snapshot_contents = λ _. [];
  is_valid_summary = λ _ _. true;
  change_summary = λ _ _. 0;
  is_complete = λ _. true;
  is_ready_generation = λ _. true;
}

abbrev fresh : Fresh
fresh = record { now = 50; job_id = 9; publication_id = 5 }

abbrev by_user : Intent
by_user = record {
  requested_by = some 1;
  trigger_type = TriggerType.user_request;
  debounce_started_at = none;
  allow_clean_rebuild = false;
}

abbrev queued_job : Job
queued_job = record {
  id = 9;
  scope_state_id = 1;
  source_revision = 1;
  attempt_count = 0;
  status = JobStatus.pending;
  requested_by = some 1;
  trigger_type = TriggerType.user_request;
  allow_clean_rebuild = false;
  not_before = some 50;
  debounce_started_at = none;
  created_at = 50;
  started_at = none;
  heartbeat_at = none;
  completed_at = none;
  build_publication_id = some 5;
}

abbrev staged_publication : Publication
staged_publication = record {
  id = 5;
  scope_state_id = 1;
  version_number = 1;
  schema_version = 1;
  source_revision = 1;
  source_fingerprint = some 78;
  source_snapshot = some 78;
  status = PublicationStatus.staged;
  build_summary = none;
  change_summary = none;
  artifact_ready = false;
  artifact_status = ArtifactStatus.pending;
  artifact_path = none;
  created_at = 50;
  created_by = some 1;
  published_at = none;
  published_by = none;
  supersedes = none;
}

abbrev built_soon : PublicationDb
built_soon = record unbuilt {
  base = record base {
    events =
        record {
          action = publication_event PublicationAction.job_queued;
          actor = some 1;
          target_uuid = 9;
        }
        ∷ [];
  };
  scopes = record new_scope_row { current_source_fingerprint = some 78 } ∷ [];
  publications = staged_publication ∷ [];
  jobs = queued_job ∷ [];
}

queued_test :
    enqueue_publication_job builders fresh
      (Owner.department 1)
      DatasetType.department_hydrants
      by_user
      false
      unbuilt
    ≡ ok (some queued_job, built_soon)
unfolding enqueue_publication_job ◌>>=◌
queued_test = refl

none-ne-some : {A : Type 0} {a : A} → none ≡ some a → ⊥
none-ne-some h = cc

unbuilt-IsSound : IsSound unbuilt
unbuilt-IsSound = record {
  one_live = λ i j a b ea eb la lb e. absurd (none-ne-some ea);
  linked = λ k j e. absurd (none-ne-some e);
  published_is_current = λ k p e h. absurd (none-ne-some e);
  current_is_published = λ k s c e h. absurd (no_current k s c e h);
  versions = λ i j p q ep eq es ev. absurd (none-ne-some ep);
  keyed_publications = tt;
  keyed_jobs = tt;
}
  where
    no_current :
        (k : ℕ) (s : Scope) (c : ℕ)
        → scope_at k unbuilt ≡ some s
        → s.current_published_publication_id ≡ some c
        → ⊥
    no_current k s c e h = ground arith

abbrev queueing : Step unbuilt built_soon
queueing =
    Step.enqueue builders fresh (Owner.department 1) DatasetType.department_hydrants by_user
      (some queued_job) (record { job = refl; publication = refl }) queued_test

Step-Run_example : Run unbuilt built_soon
Step-Run_example = Step-Run unbuilt built_soon unbuilt-IsSound queueing

Reach-IsSound_example : IsSound built_soon
Reach-IsSound_example = Reach-IsSound unbuilt built_soon unbuilt-IsSound (after start queueing)

data_change_not_before-window_example :
    (300000000 < data_change_not_before 300000000)
    × (data_change_not_before 300000000 ≤ 300000000 + days 1)
    × (data_change_not_before 300000000 % days 1 ≡ minutes 5)
data_change_not_before-window_example = data_change_not_before-window 300000000

-- The worker of the job has been silent for 40, and the timeout is 20.
abbrev silent_job : Job
silent_job = record queued_job {
  status = JobStatus.running;
  attempt_count = 1;
  started_at = some 10;
  heartbeat_at = some 10;
}

abbrev silent : PublicationDb
silent = record built_soon {
  publications = record staged_publication { status = PublicationStatus.building } ∷ [];
  jobs = silent_job ∷ [];
}

abbrev waiting_again : PublicationDb
waiting_again = record built_soon {
  publications = record staged_publication { status = PublicationStatus.failed } ∷ [];
  jobs =
      record silent_job {
        status = JobStatus.pending;
        started_at = none;
        heartbeat_at = none;
        build_publication_id = none;
      }
      ∷ [];
}

recover_stale_jobs-jobs_example :
    (0 < 20)
    × (0 < 3)
    × (waiting_again.jobs ≡ update (is_abandoned 30) (recovered 50 3) silent.jobs)
unfolding recover_stale_jobs ◌>>=◌
recover_stale_jobs-jobs_example =
    recover_stale_jobs-jobs builders 50 20 3 silent waiting_again (refl, tt) refl
