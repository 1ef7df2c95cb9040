-- ===== src/Publications/Registry.antt =====
-- The registered data sets (apps/publications/registry.py): of a definition, what the life cycle reads.
use fire_dash_server.Prelude.{ℕ, ◌==◌, Bool, true, false, Option, none, some}
use fire_dash_server.Publications.Models.{DatasetType, Owner}

pub data ScopeType : Type 0 where
  system department station : ScopeType

pub record Definition : Type 0 where
  pub scope : ScopeType
  pub is_document : Bool  -- `artifact_format == "document-manifest-v2"`
  pub schema_version : ℕ  -- the current version, and the only one that is supported

abbrev definition : ScopeType → Bool → ℕ → Definition
definition scope is_document schema_version = record {
  scope = scope;
  is_document = is_document;
  schema_version = schema_version;
}

-- `get_dataset_definition`, whose `DatasetRegistryError` is `none`.
unfoldable pub get_dataset_definition : DatasetType → Option Definition
get_dataset_definition DatasetType.department_files = some (definition ScopeType.department true 2)
get_dataset_definition DatasetType.station_files = some (definition ScopeType.station true 2)
get_dataset_definition DatasetType.dangerous_goods = some (definition ScopeType.system false 1)
get_dataset_definition DatasetType.department_hydrants =
    some (definition ScopeType.department false 1)
get_dataset_definition DatasetType.department_fire_plans =
    some (definition ScopeType.department true 2)
get_dataset_definition DatasetType.station_personnel = some (definition ScopeType.station false 1)
get_dataset_definition DatasetType.department_phonebook =
    some (definition ScopeType.department false 1)
get_dataset_definition DatasetType.station_phonebook = some (definition ScopeType.station false 1)
get_dataset_definition DatasetType.department_klgv_plans =
    some (definition ScopeType.department true 2)
get_dataset_definition DatasetType.test_department_incidents =
    some (definition ScopeType.department false 1)
get_dataset_definition DatasetType.test_system_dataset = some (definition ScopeType.system false 1)
get_dataset_definition DatasetType.unknown = none

-- `dataset_type_code in {"department_files", "station_files"}`
abbrev pub is_file_dataset : DatasetType → Bool
is_file_dataset d = elim d [
  | DatasetType.department_files ↦ true
  | DatasetType.station_files ↦ true
  | _ ↦ false
]

-- Equal codes, by their places.
abbrev place : DatasetType → ℕ
place DatasetType.department_files = 0
place DatasetType.station_files = 1
place DatasetType.dangerous_goods = 2
place DatasetType.department_hydrants = 3
place DatasetType.department_fire_plans = 4
place DatasetType.station_personnel = 5
place DatasetType.department_phonebook = 6
place DatasetType.station_phonebook = 7
place DatasetType.department_klgv_plans = 8
place DatasetType.test_department_incidents = 9
place DatasetType.test_system_dataset = 10
place DatasetType.unknown = 11

abbrev pub same_dataset : DatasetType → DatasetType → Bool
same_dataset a b = place a == place b

abbrev fits : ScopeType → Owner → Bool
fits ScopeType.system Owner.system = true
fits ScopeType.department (Owner.department _) = true
fits ScopeType.station (Owner.station _ _) = true
fits _ _ = false

-- `validate_dataset_scope`: the owner is of the kind that the data set is registered for.
unfoldable pub is_valid_owner : DatasetType → Owner → Bool
unfolding get_dataset_definition
is_valid_owner dataset owner = elim (get_dataset_definition dataset) [
  | none ↦ false
  | some d ↦ fits d.scope owner
]
