-- ===== src/Publications/Authority.antt =====
-- Who may call a service of the publications: `is_system_admin` and `active_station_ids` of
-- apps/authorization/scopes.py, `require_system_admin` and `require_publication_scope` of
-- apps/authorization/services.py, `require_scope` of apps/file_library/services.py, and
-- `_validate_scope` of apps/publications/services.py.
use fire_dash_server.Prelude.{
  ℕ, ◌==◌, Bool, true, false, not, ◌&&◌, Option, none, some, is_none, if◌then◌else◌, ◌>>=◌, ◌>>◌,
  raise, raise_if, if_found, gets, any,
}
use fire_dash_server.Tablets.Models.{User, is_active_department}
use fire_dash_server.Tablets.Store.{Db, Error, get_department}
use fire_dash_server.Tablets.Access.{in_active_department_ids, require_department_admin}
use fire_dash_server.Publications.Models.{Owner, DatasetType}
use fire_dash_server.Publications.Registry.{ScopeType, get_dataset_definition, is_valid_owner}
use fire_dash_server.Publications.Store.{
  PublicationDb, Lifecycle, PublicationError, publication_error, tablets_error, Message, on_base,
}

abbrev pub denied : PublicationError
denied = tablets_error Error.permission_denied

unfoldable pub is_system_admin : User → PublicationDb → Bool
is_system_admin user db =
    user.is_authenticated
    && user.is_active
    && any (λ r. r.user_id == user.id && r.is_active) db.system_roles

abbrev is_active_department_id : ℕ → Db → Bool
is_active_department_id pk db =
    any (λ d. d.id == pk && is_active_department d.status) db.departments

-- `station_id in active_station_ids(user)`
unfoldable pub in_active_station_ids : User → ℕ → PublicationDb → Bool
in_active_station_ids user station_id db =
    user.is_authenticated
    && user.is_active
    && any (λ a. a.user_id == user.id && a.station_id == station_id && a.is_active)
        db.station_admins
    && any
        (λ s. s.id == station_id && s.is_active && is_active_department_id s.department_id db.base)
        db.base.stations

-- `active_department_ids(user).exists()`
abbrev has_department : User → Db → Bool
has_department user db = any (λ d. in_active_department_ids user d.id db) db.departments

-- `require_scope` of the file library: exactly one of the two keys is given.
unfoldable pub require_scope : User → Option ℕ → Option ℕ → Lifecycle (Unit {0})
unfolding is_system_admin in_active_station_ids
require_scope actor (some department_id) none = do
  allowed ←
      gets
        λ db. not (is_system_admin actor db) && in_active_department_ids actor department_id db.base
  raise_if (not allowed) denied
require_scope actor none (some station_id) = do
  allowed ← gets λ db.
      not (is_system_admin actor db)
      && not (has_department actor db.base)
      && in_active_station_ids actor station_id db
  raise_if (not allowed) denied
require_scope actor _ _ = raise denied

unfoldable pub require_system_admin : User → Lifecycle (Unit {0})
unfolding is_system_admin
require_system_admin actor = do
  allowed ← gets (is_system_admin actor)
  raise_if (not allowed) denied

-- `require_department_admin(actor, department)`, where the department is given by its key.
unfoldable pub require_owner_admin : User → Owner → Lifecycle (Unit {0})
unfolding on_base
require_owner_admin actor Owner.system = raise denied
require_owner_admin actor (Owner.department d) =
    on_base (do department ← get_department d; require_department_admin actor department)
require_owner_admin actor (Owner.station d s) =
    on_base (do department ← get_department d; require_department_admin actor department)

-- The last test of `require_publication_scope`, for a file library and for all else.
unfoldable pub require_dataset_scope : User → Owner → DatasetType → Lifecycle (Unit {0})
unfolding require_scope require_owner_admin
require_dataset_scope actor (Owner.department d) DatasetType.department_files =
    require_scope actor (some d) none
require_dataset_scope actor (Owner.station d s) DatasetType.department_files =
    require_scope actor (some d) none
require_dataset_scope actor Owner.system DatasetType.department_files =
    raise PublicationError.attribute_error
require_dataset_scope actor (Owner.station d s) DatasetType.station_files =
    require_scope actor none (some s)
require_dataset_scope actor _ DatasetType.station_files = require_scope actor none none
require_dataset_scope actor owner _ = require_owner_admin actor owner

-- The branch for the administrator of the department that a station belongs to.
unfoldable pub require_station_files : User → Owner → Lifecycle (Unit {0})
unfolding is_system_admin require_owner_admin require_dataset_scope on_base
require_station_files actor Owner.system = do
  exempt ← gets (is_system_admin actor)
  raise_if (not exempt) PublicationError.attribute_error
  require_dataset_scope actor Owner.system DatasetType.station_files
require_station_files actor (Owner.department d) = do
  administers ←
      gets λ db. not (is_system_admin actor db) && in_active_department_ids actor d db.base
  raise_if administers denied
  require_dataset_scope actor (Owner.department d) DatasetType.station_files
require_station_files actor (Owner.station d s) = do
  administers ←
      gets λ db. not (is_system_admin actor db) && in_active_department_ids actor d db.base
  misplaced ← gets λ db. not (any (λ r. r.id == s && r.department_id == d) db.base.stations)
  if administers
      then (do raise_if misplaced denied; require_owner_admin actor (Owner.station d s))
      else require_dataset_scope actor (Owner.station d s) DatasetType.station_files

abbrev pub is_system_scope : ScopeType → Bool
is_system_scope t = elim t [ ScopeType.system ↦ true | _ ↦ false ]

abbrev pub is_station_files : DatasetType → Bool
is_station_files d = elim d [ DatasetType.station_files ↦ true | _ ↦ false ]

unfoldable pub require_system_scope : User → Owner → Lifecycle (Unit {0})
unfolding require_system_admin
require_system_scope actor Owner.system = require_system_admin actor
require_system_scope actor _ = raise denied

unfoldable pub require_publication_scope : User → Owner → DatasetType → Lifecycle (Unit {0})
unfolding get_dataset_definition require_system_scope require_station_files require_dataset_scope
require_publication_scope actor owner dataset =
    if_found (get_dataset_definition dataset)
      (λ d.
        if is_system_scope d.scope
        then require_system_scope actor owner
        else if is_station_files dataset
        then require_station_files actor owner
        else require_dataset_scope actor owner dataset)
      (raise PublicationError.registry_error)

-- The station, if there is one, is of the department.
abbrev is_placed : Owner → Db → Bool
is_placed (Owner.station d s) db = any (λ r. r.id == s && r.department_id == d) db.stations
is_placed _ db = true

unfoldable pub validate_scope : Owner → DatasetType → Lifecycle (Unit {0})
unfolding is_valid_owner
validate_scope owner dataset = do
  raise_if (is_none (get_dataset_definition dataset)) PublicationError.registry_error
  raise_if (not (is_valid_owner dataset owner)) (publication_error Message.invalid_scope)
  placed ← gets λ db. is_placed owner db.base
  raise_if (not placed) (publication_error Message.invalid_scope)
