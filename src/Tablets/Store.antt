-- ===== src/Tablets/Store.antt =====
-- The database of the tablet services, the errors that they raise, and the audit log
-- (apps/audit/services.py).
use fire_dash_server.Prelude.{
  ℕ, ◌*◌, ◌==◌, Option, List, ◌∷◌, Action, or_raise, ◌>>=◌, first, update, modify,
}
use fire_dash_server.Tablets.Models.{
  Department, Station, Vehicle, Tablet, TabletVehicleAssignment, AppInstallation,
  AdoptionInvitation, AdoptionRequest, KeyGrant, SignedManifest, DepartmentMembership,
  TemporaryStationAccess, AuditAction, AuditEvent,
}

-- Durations, in microseconds.
abbrev pub minutes : ℕ → ℕ
minutes n = n * 60000000

abbrev pub hours : ℕ → ℕ
hours n = n * 3600000000

abbrev pub days : ℕ → ℕ
days n = n * 86400000000

pub record Db : Type 0 where
  pub departments : List Department
  pub stations : List Station
  pub vehicles : List Vehicle
  pub tablets : List Tablet
  pub assignments : List TabletVehicleAssignment
  pub installations : List AppInstallation
  pub invitations : List AdoptionInvitation
  pub requests : List AdoptionRequest
  pub dataset_grants : List KeyGrant
  pub document_grants : List KeyGrant
  pub manifests : List SignedManifest
  pub memberships : List DepartmentMembership
  pub accesses : List TemporaryStationAccess
  pub events : List AuditEvent  -- newest first

-- The `code` of a `TabletError`.
pub data Code : Type 0 where
  invalid_request installation_inactive asset_number_exhausted asset_number_allocation_exhausted
        adoption_request_completed adoption_request_expired adoption_attempt_limit_reached
        invitation_invalid adoption_proof_invalid :
      Code

pub data Error : Type 0 where
  tablet_error : Code → Error
  permission_denied does_not_exist : Error

abbrev pub Service : Type 0 → Type 0
Service A = Action Db Error A

-- `Tablet.objects.get(pk=…)` and the like; a foreign key that leads nowhere raises too.
unfoldable pub get_tablet : ℕ → Service Tablet
unfolding or_raise
get_tablet pk db = or_raise (first (λ t. t.id == pk) db.tablets) does_not_exist db

unfoldable pub get_department : ℕ → Service Department
unfolding or_raise
get_department pk db = or_raise (first (λ d. d.id == pk) db.departments) does_not_exist db

unfoldable pub get_station : ℕ → Service Station
unfolding or_raise
get_station pk db = or_raise (first (λ s. s.id == pk) db.stations) does_not_exist db

unfoldable pub get_installation : ℕ → Service AppInstallation
unfolding or_raise
get_installation pk db = or_raise (first (λ i. i.id == pk) db.installations) does_not_exist db

unfoldable pub get_invitation : ℕ → Service AdoptionInvitation
unfolding or_raise
get_invitation pk db = or_raise (first (λ i. i.id == pk) db.invitations) does_not_exist db

unfoldable pub get_request : ℕ → Service AdoptionRequest
unfolding or_raise
get_request pk db = or_raise (first (λ r. r.id == pk) db.requests) does_not_exist db

-- `row.save(update_fields=…)`: the fields that `f` changes, on the row with that key.
unfoldable pub save_tablet : ℕ → (Tablet → Tablet) → Service (Unit {0})
unfolding modify
save_tablet pk f = modify λ db. record db { tablets = update (λ t. t.id == pk) f db.tablets }

unfoldable pub save_installation : ℕ → (AppInstallation → AppInstallation) → Service (Unit {0})
unfolding modify
save_installation pk f =
    modify λ db. record db { installations = update (λ i. i.id == pk) f db.installations }

unfoldable pub save_invitation : ℕ → (AdoptionInvitation → AdoptionInvitation) → Service (Unit {0})
unfolding modify
save_invitation pk f =
    modify λ db. record db { invitations = update (λ i. i.id == pk) f db.invitations }

unfoldable pub save_request : ℕ → (AdoptionRequest → AdoptionRequest) → Service (Unit {0})
unfolding modify
save_request pk f = modify λ db. record db { requests = update (λ r. r.id == pk) f db.requests }

-- `record_event`: the log is only ever appended to.
unfoldable pub record_event : AuditAction → Option ℕ → ℕ → Service (Unit {0})
unfolding modify
record_event action actor target_uuid = modify λ db. record db {
  events = record { action = action; actor = actor; target_uuid = target_uuid } ∷ db.events;
}

-- To unfold this is to unfold the steps that the services are made of.
unfoldable pub steps : Unit {0}
unfolding ◌>>=◌ get_tablet get_department get_station get_installation get_invitation get_request
    save_tablet save_installation save_invitation save_request record_event
steps = tt
