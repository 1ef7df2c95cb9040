-- ===== src/Publications/Models.antt =====
-- The rows of apps/publications/models.py that the life cycle of a publication reads and writes, and of
-- apps/authorization/models.py the roles of an administrator. A job and a publication have the owner and
-- the data set of their scope, as their `clean` requires: the model reads these from the scope. The
-- texts of errors are dropped; an empty text is `none`.
use fire_dash_server.Prelude.{ℕ, ◌==◌, Bool, true, false, ◌&&◌, Option}

-- `scope_type` with its owner: the CHECK constraint of each table ties them together.
pub data Owner : Type 0 where
  system : Owner
  department : ℕ → Owner
  station : ℕ → ℕ → Owner  -- the department and the station

abbrev pub same_owner : Owner → Owner → Bool
same_owner Owner.system Owner.system = true
same_owner (Owner.department d) (Owner.department e) = d == e
same_owner (Owner.station d s) (Owner.station e t) = d == e && s == t
same_owner _ _ = false

-- The codes of the registry (apps/publications/registry.py), and one that it does not know.
pub data DatasetType : Type 0 where
  department_files station_files dangerous_goods department_hydrants department_fire_plans
        station_personnel department_phonebook station_phonebook department_klgv_plans
        test_department_incidents test_system_dataset unknown :
      DatasetType

pub data PublicationStatus : Type 0 where
  staged building ready_for_review published failed superseded rejected obsolete cancelled :
      PublicationStatus

pub data JobStatus : Type 0 where
  pending running succeeded failed obsolete cancelled : JobStatus

pub data ArtifactStatus : Type 0 where
  pending ready failed : ArtifactStatus

pub data TriggerType : Type 0 where
  user_request bulk_request data_change : TriggerType

pub record Scope : Type 0 where
  pub id : ℕ
  pub owner : Owner
  pub dataset : DatasetType
  pub source_revision : ℕ
  pub current_source_fingerprint : Option ℕ
  pub dirty_since : Option ℕ
  pub latest_built_publication_id : Option ℕ
  pub current_published_publication_id : Option ℕ

pub record Publication : Type 0 where
  pub id : ℕ
  pub scope_state_id : ℕ
  pub version_number : ℕ
  pub schema_version : ℕ
  pub source_revision : ℕ
  pub source_fingerprint : Option ℕ
  pub source_snapshot : Option ℕ
  pub status : PublicationStatus
  pub build_summary : Option ℕ
  pub change_summary : Option ℕ
  pub artifact_ready : Bool
  pub artifact_status : ArtifactStatus
  pub artifact_path : Option ℕ
  pub created_at : ℕ
  pub created_by : Option ℕ
  pub published_at : Option ℕ
  pub published_by : Option ℕ
  pub supersedes : Option ℕ

pub record Job : Type 0 where
  pub id : ℕ
  pub scope_state_id : ℕ
  pub source_revision : ℕ
  pub attempt_count : ℕ
  pub status : JobStatus
  pub requested_by : Option ℕ
  pub trigger_type : TriggerType
  pub allow_clean_rebuild : Bool
  pub not_before : Option ℕ
  pub debounce_started_at : Option ℕ
  pub created_at : ℕ
  pub started_at : Option ℕ
  pub heartbeat_at : Option ℕ
  pub completed_at : Option ℕ
  pub build_publication_id : Option ℕ

pub data ActivationAction : Type 0 where
  publish rollback : ActivationAction

pub record Activation : Type 0 where
  pub publication_id : ℕ
  pub scope_state_id : ℕ
  pub previous_publication_id : Option ℕ
  pub action : ActivationAction
  pub activated_by : ℕ

pub record DocumentArtifact : Type 0 where
  pub id : ℕ
  pub artifact_path : ℕ

-- `PublicationDocumentArtifactReference`
pub record ArtifactReference : Type 0 where
  pub publication_id : ℕ
  pub document_artifact_id : ℕ

-- `PublicationContent`: the pinned bytes of a file library.
pub record PublicationContent : Type 0 where
  pub publication_id : ℕ
  pub content_id : ℕ

-- A role of a user: an active system role, and an active assignment to a station.
pub record SystemRole : Type 0 where
  pub user_id : ℕ
  pub is_active : Bool

pub record StationAdminAssignment : Type 0 where
  pub user_id : ℕ
  pub station_id : ℕ
  pub is_active : Bool

abbrev pub is_staged : PublicationStatus → Bool
is_staged s = elim s [ PublicationStatus.staged ↦ true | _ ↦ false ]

abbrev pub is_building : PublicationStatus → Bool
is_building s = elim s [ PublicationStatus.building ↦ true | _ ↦ false ]

abbrev pub is_ready_for_review : PublicationStatus → Bool
is_ready_for_review s = elim s [ PublicationStatus.ready_for_review ↦ true | _ ↦ false ]

abbrev pub is_published : PublicationStatus → Bool
is_published s = elim s [ PublicationStatus.published ↦ true | _ ↦ false ]

abbrev pub is_superseded : PublicationStatus → Bool
is_superseded s = elim s [ PublicationStatus.superseded ↦ true | _ ↦ false ]

abbrev pub is_failed : PublicationStatus → Bool
is_failed s = elim s [ PublicationStatus.failed ↦ true | _ ↦ false ]

abbrev pub is_cancelled : PublicationStatus → Bool
is_cancelled s = elim s [ PublicationStatus.cancelled ↦ true | _ ↦ false ]

-- FAILED, CANCELLED, REJECTED or OBSOLETE.
abbrev pub is_terminal : PublicationStatus → Bool
is_terminal s = elim s [
  | PublicationStatus.failed ↦ true
  | PublicationStatus.cancelled ↦ true
  | PublicationStatus.rejected ↦ true
  | PublicationStatus.obsolete ↦ true
  | _ ↦ false
]

abbrev pub is_pending : JobStatus → Bool
is_pending s = elim s [ JobStatus.pending ↦ true | _ ↦ false ]

abbrev pub is_running : JobStatus → Bool
is_running s = elim s [ JobStatus.running ↦ true | _ ↦ false ]

-- `status__in=(PENDING, RUNNING)`
abbrev pub is_active_job : JobStatus → Bool
is_active_job s = elim s [ JobStatus.pending ↦ true | JobStatus.running ↦ true | _ ↦ false ]

abbrev pub is_ready_artifact : ArtifactStatus → Bool
is_ready_artifact s = elim s [ ArtifactStatus.ready ↦ true | _ ↦ false ]

abbrev pub is_data_change : TriggerType → Bool
is_data_change t = elim t [ TriggerType.data_change ↦ true | _ ↦ false ]
