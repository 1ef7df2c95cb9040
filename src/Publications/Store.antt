-- ===== src/Publications/Store.antt =====
-- The database of the publication services, which holds that of the tablet services, and what the
-- services take from code that is not modelled: the builders of canonical sources.
use fire_dash_server.Prelude.{
  ℕ, ◌==◌, Bool, Option, none, some, List, ◌∷◌, Action, ok, err, or_raise, raise_if, pure, is_none,
  ◌>>=◌, ◌>>◌, first, update, modify,
}
use fire_dash_server.Tablets.Models.{PublicationAction, publication_event}
use fire_dash_server.Tablets.Store.{Db, Error, Service, record_event}
use fire_dash_server.Publications.Registry.{get_dataset_definition}
use fire_dash_server.Publications.Models.{
  Scope, Publication, Job, Activation, DocumentArtifact, ArtifactReference, PublicationContent,
  SystemRole, StationAdminAssignment, DatasetType,
}

-- A build that `transaction.on_commit` will queue for a scope whose source has moved on.
pub record FollowUp : Type 0 where
  pub scope_id : ℕ
  pub debounce_started_at : Option ℕ

pub record PublicationDb : Type 0 where
  pub base : Db
  pub scopes : List Scope
  pub publications : List Publication
  pub jobs : List Job
  pub activations : List Activation
  pub document_artifacts : List DocumentArtifact
  pub references : List ArtifactReference
  pub contents : List PublicationContent
  pub system_roles : List SystemRole
  pub station_admins : List StationAdminAssignment
  pub follow_ups : List FollowUp  -- the transactions that are to follow
  pub removals : List ℕ  -- the files that are to be removed after the commit

-- The `PublicationError` of a service, by its message.
pub data Message : Type 0 where
  invalid_scope scope_uninitialized not_review_ready artifact_not_ready source_revision_changed
        restore_blocked no_current newer_attempt rebuild_unavailable no_unpublished_changes
        already_staged nothing_staged not_staged already_started already_building not_building
        no_build_job outside_scope not_authoritative no_predecessor not_deletable invalid_timeout
        invalid_summary :
      Message

pub data PublicationError : Type 0 where
  publication_error : Message → PublicationError
  build_error validation_error registry_error value_error attribute_error : PublicationError
  tablets_error : Error → PublicationError

abbrev pub Lifecycle : Type 0 → Type 0
Lifecycle A = Action PublicationDb PublicationError A

-- What `build_source_payload` and the functions on its payloads give. A payload is a number.
pub record Builders : Type 0 where
  pub source : ℕ → ℕ  -- the present payload of a scope
  pub payload_fingerprint : ℕ → ℕ  -- `source_fingerprint_for_payload`, never empty
  pub is_file_library_snapshot : ℕ → Bool
  pub snapshot_revision : ℕ → ℕ  -- `snapshot["source_revision"]`
  pub snapshot_contents : ℕ → List ℕ  -- the `content_id` of each document of a file library
  pub is_valid_summary : DatasetType → ℕ → Bool  -- `validate_built_summary`
  pub change_summary : Option ℕ → ℕ → ℕ  -- `build_change_summary`
  pub is_complete : Publication → Bool  -- `DatasetPublication.full_clean`
  pub is_ready_generation : Publication → Bool  -- `validate_ready_document_generation`

-- A service of the tablets, on the database that it knows.
unfoldable pub on_base : {A : Type 0} → Service A → Lifecycle A
on_base m db = elim (m db.base) [
  | ok r ↦ ok (r.0, record db { base = r.1 })
  | err e ↦ err (tablets_error e)
]

unfoldable pub get_scope : ℕ → Lifecycle Scope
unfolding or_raise
get_scope pk db =
    or_raise (first (λ s. s.id == pk) db.scopes) (publication_error Message.scope_uninitialized) db

-- `_locked_scope` of a job or a publication: its data set has to be a registered one.
unfoldable pub lock_scope : ℕ → Lifecycle Scope
unfolding get_scope get_dataset_definition
lock_scope pk = do
  s ← get_scope pk
  raise_if (is_none (get_dataset_definition s.dataset)) PublicationError.registry_error
  pure s

unfoldable pub get_publication : ℕ → Lifecycle Publication
unfolding or_raise
get_publication pk db =
    or_raise (first (λ p. p.id == pk) db.publications) (tablets_error Error.does_not_exist) db

unfoldable pub get_job : ℕ → Lifecycle Job
unfolding or_raise
get_job pk db = or_raise (first (λ j. j.id == pk) db.jobs) (tablets_error Error.does_not_exist) db

unfoldable pub save_scope : ℕ → (Scope → Scope) → Lifecycle (Unit {0})
unfolding modify
save_scope pk f = modify λ db. record db { scopes = update (λ s. s.id == pk) f db.scopes }

unfoldable pub save_publication : ℕ → (Publication → Publication) → Lifecycle (Unit {0})
unfolding modify
save_publication pk f =
    modify λ db. record db { publications = update (λ p. p.id == pk) f db.publications }

unfoldable pub save_job : ℕ → (Job → Job) → Lifecycle (Unit {0})
unfolding modify
save_job pk f = modify λ db. record db { jobs = update (λ j. j.id == pk) f db.jobs }

unfoldable pub log : PublicationAction → Option ℕ → ℕ → Lifecycle (Unit {0})
unfolding on_base record_event
log action actor target = on_base (record_event (publication_event action) actor target)

-- `_schedule_artifact_removal`: nothing for an empty path.
unfoldable pub schedule_artifact_removal : Option ℕ → Lifecycle (Unit {0})
unfolding modify
schedule_artifact_removal none = modify λ db. db
schedule_artifact_removal (some path) = modify λ db. record db { removals = path ∷ db.removals }

-- `transaction.on_commit(lambda: enqueue_publication_job(…))`
unfoldable pub follow_up : ℕ → Option ℕ → Lifecycle (Unit {0})
unfolding modify
follow_up scope_id debounce_started_at = modify λ db. record db {
  follow_ups =
      record { scope_id = scope_id; debounce_started_at = debounce_started_at } ∷ db.follow_ups;
}

-- A foreign key that may be null.
abbrev pub linked_publication : Option ℕ → PublicationDb → Option Publication
linked_publication none db = none
linked_publication (some pk) db = first (λ p. p.id == pk) db.publications

-- To unfold this is to unfold the steps that the services are made of.
unfoldable pub writes : Unit {0}
unfolding ◌>>=◌ get_scope lock_scope get_publication get_job save_scope save_publication save_job
    log on_base record_event schedule_artifact_removal follow_up
writes = tt
