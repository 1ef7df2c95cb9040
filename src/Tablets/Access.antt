-- ===== src/Tablets/Access.antt =====
-- Who may call a tablet service, and what a department mutation withdraws:
-- `active_department_ids` of apps/authorization/scopes.py, `require_department_admin` of
-- apps/authorization/services.py, and the temporary station access of
-- apps/file_library/services.py.
pub mod Frame
use fire_dash_server.Prelude.{
  ℕ, ◌==◌, leb, Bool, not, ◌&&◌, ◌||◌, Option, none, some, is_none, if◌then◌else◌, ◌>>=◌, ◌>>◌,
  pure, raise_if, gets, modify, first, any, update,
}
use fire_dash_server.Tablets.Models.{
  Department, User, TemporaryStationAccess, AccessReason, expired, authority_revoked,
  is_active_department, is_active_membership, temporary_access_revoked,
}
use fire_dash_server.Tablets.Store.{Db, Service, permission_denied, get_station, record_event}

-- `department_id in active_department_ids(user)`
unfoldable pub in_active_department_ids : User → ℕ → Db → Bool
in_active_department_ids user department_id db =
    user.is_authenticated
    && user.is_active
    && any (λ d. d.id == department_id && is_active_department d.status) db.departments
    && any
        (λ m.
          m.user_id == user.id && m.department_id == department_id && is_active_membership m.status)
        db.memberships

unfoldable pub require_department_admin : User → Department → Service (Unit {0})
unfolding in_active_department_ids
require_department_admin actor department = do
  allowed ← gets (in_active_department_ids actor department.id)
  raise_if (not (is_active_department department.status) || not allowed) permission_denied

-- `_revoke_access`, with its audit event; `actor` is the account that the event names.
unfoldable pub revoke_access : ℕ → TemporaryStationAccess → AccessReason → ℕ → Service (Unit {0})
revoke_access now access reason actor =
    if is_none access.revoked_at
    then (do
      modify λ db. record db {
        accesses =
            update (λ a. a.id == access.id)
              (λ a. record a { revoked_at = some now; revocation_reason = some reason })
              db.accesses;
      }
      record_event (temporary_access_revoked reason) (some actor) access.id)
    else pure tt

-- The access that a query found, or nothing if it is no longer held: that one is then revoked.
unfoldable pub check_access :
    ℕ → User → Option TemporaryStationAccess → Service (Option TemporaryStationAccess)
unfolding revoke_access in_active_department_ids
check_access now actor none = pure none
check_access now actor (some access) = do
  station ← get_station access.station_id
  member ← gets (in_active_department_ids actor access.department_id)
  if leb access.expires_at now
      then (do revoke_access now access expired access.user_id; pure none)
      else if not member
          || not station.is_active
          || not (station.department_id == access.department_id)
      then (do revoke_access now access authority_revoked access.user_id; pure none)
      else pure (some access)

unfoldable pub active_temporary_access : ℕ → User → Service (Option TemporaryStationAccess)
unfolding check_access
active_temporary_access now actor = do
  access ← gets λ db. first (λ a. a.user_id == actor.id && is_none a.revoked_at) db.accesses
  check_access now actor access

unfoldable pub revoke_temporary_access : ℕ → User → AccessReason → Service (Unit {0})
unfolding active_temporary_access revoke_access
revoke_temporary_access now actor reason = do
  access ← active_temporary_access now actor
  elim access [ none ↦ pure tt | some a ↦ revoke_access now a reason actor.id ]
