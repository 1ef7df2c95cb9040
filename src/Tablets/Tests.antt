-- ===== src/Tablets/Tests.antt =====
-- The theorems about the tablet services, at one run of each.
mod Sample
use fire_dash_server.Prelude.{
  ℕ, ◌≡◌, ◌≤◌, refl, true, false, List, [], ◌∷◌, Option, none, some, ok, err, arith, count, Bool,
  if◌then◌else◌, first, max, ◌+◌, ◌⊎◌, ◌<◌, leb, ◌==◌, select, update, Bool-cases, inl, inr, length,
}
use fire_dash_server.Tablets.Models.{
  Tablet, TabletStatus, InstallationStatus, AppInstallation, AdoptionRequest, AdoptionInvitation,
  Department, is_current, self_refreshed,
}
use fire_dash_server.Tablets.Store.{Db, days, steps}
use fire_dash_server.Tablets.Guards.{revoke_dataset_key_grants}
use fire_dash_server.Tablets.Lifecycle.{
  mark_tablet_lost, retire_tablet, deactivate_tablet, recover_tablet, withdraw_access,
  revoke_tablet_installations, is_current_of,
}
use fire_dash_server.Tablets.Lifecycle.Authority.{IsAdminOf, LifecycleRun, LifecycleRun-IsAdminOf}
use fire_dash_server.Tablets.Lifecycle.Grants.{NoGrants, is_standing_for}
use fire_dash_server.Tablets.Lifecycle.Withdrawal.{
  IsWithdrawn, mark_tablet_lost-IsWithdrawn, retire_tablet-IsWithdrawn, deactivate_tablet-cut,
  recover_tablet-keeps,
}
use fire_dash_server.Tablets.Tests.Sample.{
  admin, plain, start, lost_db, retired_db, deactivated_db, recovered_db, version, telemetry,
  adopted_row, renewed_row, new_row, created_db, request, invitation,
}
use fire_dash_server.Tablets.Invariant.{Consistent, TabletOk}
use fire_dash_server.Tablets.Invariant.Services.{IsConsistent}
use fire_dash_server.Tablets.System.{Reach, here, after, completed, retired, Reach-IsConsistent}
use fire_dash_server.Tablets.System.Retired.{IsRetiredAt, Reach-IsRetiredAt}
use fire_dash_server.Tablets.Adoption.{complete_adoption}
use fire_dash_server.Tablets.Adoption.Outcomes.{IsOpen}
use fire_dash_server.Tablets.Adoption.Handover.{IsHandedOver, IsReplayed, complete_adoption-proof}
use fire_dash_server.Tablets.Adoption.Attempts.{
  InvitationsOk, IsCounted, IsLimited, complete_adoption-InvitationsOk, complete_adoption-wrong,
}
use fire_dash_server.Tablets.CheckIn.{
  save_telemetry_if, check_in, refresh_installation_lease, mark_stale_installations,
}
use fire_dash_server.Tablets.CheckIn.Lease.{Leased, check_in-Leased}
use fire_dash_server.Tablets.CheckIn.Refresh.{Refreshed, refresh-Leased}
use fire_dash_server.Tablets.CheckIn.Sweep.{is_overdue}
use fire_dash_server.Tablets.CheckIn.Overdue.{mark_stale_installations-none_overdue}
use fire_dash_server.Tablets.Registration.{create_tablet}
use fire_dash_server.Tablets.Registration.Effects.{Registered, create_tablet-Registered}
use fire_dash_server.Tablets.Versions.Decimal.{str, is_numeral, int}
use fire_dash_server.Tablets.Versions.Parse.{
  parse_app_version, parse_app_build, version_str, max_component, parse_app_version-version_str,
  parse_app_version_bounds, parse_app_build-str,
}

mark_tablet_lost-IsWithdrawn_example : IsWithdrawn 10 TabletStatus.lost start lost_db
unfolding mark_tablet_lost steps revoke_tablet_installations revoke_dataset_key_grants
mark_tablet_lost-IsWithdrawn_example = mark_tablet_lost-IsWithdrawn 1 admin 10 [] start refl

retire_tablet-IsWithdrawn_example : IsWithdrawn 10 TabletStatus.retired start retired_db
unfolding retire_tablet steps revoke_tablet_installations revoke_dataset_key_grants
retire_tablet-IsWithdrawn_example = retire_tablet-IsWithdrawn 1 admin 10 [] start refl

deactivate_tablet-cut_example :
    (deactivated_db.tablets
      ≡ update
          (λ t. t.id == 10)
          (λ t. record t { status = TabletStatus.inactive; is_active = true })
          start.tablets)
    × (deactivated_db.installations ≡ start.installations)
    × (deactivated_db.invitations ≡ start.invitations)
    × NoGrants (select (is_current_of 10) deactivated_db.installations) deactivated_db
    × (count
          (is_standing_for (select (is_current_of 10) deactivated_db.installations))
          deactivated_db.manifests
        ≡ 0)
unfolding deactivate_tablet steps withdraw_access revoke_dataset_key_grants
deactivate_tablet-cut_example = deactivate_tablet-cut 1 admin 10 start {db' = deactivated_db} refl

-- The tablet is ACTIVE.
recover_tablet-keeps_example :
    ((r : Tablet) × (first (λ t. t.id == 10) start.tablets ≡ some r)
      × ((r.status ≡ TabletStatus.lost) ⊎ (r.status ≡ TabletStatus.active)))
    × (recovered_db.tablets
        ≡ update
            (λ t. t.id == 10)
            (λ t. record t { status = TabletStatus.inactive; is_active = true })
            start.tablets)
    × (recovered_db.installations ≡ start.installations)
    × (recovered_db.dataset_grants ≡ start.dataset_grants)
    × (recovered_db.document_grants ≡ start.document_grants)
    × (recovered_db.manifests ≡ start.manifests)
    × (recovered_db.invitations ≡ start.invitations)
unfolding recover_tablet steps
recover_tablet-keeps_example = recover_tablet-keeps 1 admin 10 start {db' = recovered_db} refl

start-IsConsistent : IsConsistent start
start-IsConsistent = record {
  unique_tablets = λ pk. ground arith;
  unique = λ pk. ground arith;
  one_current = λ pk. ground arith;
  tablets_ok = (
    record { flag = refl; withdrawn = λ h. absurd (ground arith) },
    (record { flag = refl; withdrawn = λ h. refl }, tt),
  );
}

-- An adoption that replaces the installation of tablet 10.
Reach-IsConsistent_example : IsConsistent (complete_adoption plain 1 40 77 true 6 21 start).1
Reach-IsConsistent_example =
    Reach-IsConsistent plain start _ (after start _ here (completed 1 40 77 true 6 21 refl))
      start-IsConsistent

-- Tablet 10 is retired, and tablet 11 was.
Reach-IsRetiredAt_example :
    IsRetiredAt 11 retired_db.tablets × (count (is_current_of 11) retired_db.installations ≡ 0)
unfolding retire_tablet steps revoke_tablet_installations revoke_dataset_key_grants
Reach-IsRetiredAt_example =
    Reach-IsRetiredAt plain 11 start retired_db
      (after start retired_db here (retired 1 admin 10 [] _ retired_db refl)) start-IsConsistent
      (record { tablet = _; found = refl; final = refl })

-- The right proof.
complete_adoption-proof_example :
    (r : AdoptionRequest) × (first (λ x. x.id == 40) start.requests ≡ some r)
    × (r.expected_hmac_digest ≡ 77)
    × (adopted_row.credential_hash ≡ 6)
    × (IsHandedOver 1 r adopted_row start (complete_adoption plain 1 40 77 true 6 21 start).1
        ⊎ IsReplayed plain 1 40 77 6 21 start r
            (adopted_row, 6)
            (complete_adoption plain 1 40 77 true 6 21 start).1)
unfolding complete_adoption steps revoke_dataset_key_grants
complete_adoption-proof_example = complete_adoption-proof plain 1 40 77 6 21 start true refl

start-InvitationsOk : InvitationsOk start.invitations
start-InvitationsOk = record {
  unique = λ pk. ground arith;
  limited = (record { within = omega arith; stopped = λ h. absurd (ground arith) }, tt);
}

-- A wrong proof.
complete_adoption-InvitationsOk_example :
    InvitationsOk (complete_adoption plain 1 40 78 true 6 21 start).1.invitations
complete_adoption-InvitationsOk_example =
    complete_adoption-InvitationsOk plain 1 40 78 6 21 start true start-InvitationsOk

abbrev open_request : IsOpen 1 request start
open_request = record {
  invitation = invitation;
  is_new = refl;
  unexpired = refl;
  below_limit = refl;
  found_invitation = refl;
  unused = refl;
  unrevoked = refl;
}

complete_adoption-wrong_example :
    IsCounted plain 1 40 78 6 21 start request invitation
      (complete_adoption plain 1 40 78 true 6 21 start)
complete_adoption-wrong_example =
    complete_adoption-wrong plain 1 40 78 6 21 start request open_request refl refl

check_in-Leased_example :
    (i : AppInstallation) × (tab : Tablet) × (d : Department) × (first
        (λ r. r.id == 20)
        start.installations
      ≡ some i)
    × (first (λ r. r.id == i.tablet_id) start.tablets ≡ some tab)
    × (first (λ r. r.id == tab.department_id) start.departments ≡ some d)
    × (i.credential_hash ≡ 5)
    × (is_current i.status ≡ true)
    × Leased 1 d i renewed_row
unfolding check_in steps save_telemetry_if
check_in-Leased_example = check_in-Leased plain 1 20 5 telemetry start refl

refresh-Leased_example :
    (i : AppInstallation) × (tab : Tablet) × (d : Department) × (first
        (λ r. r.id == 20)
        start.installations
      ≡ some i)
    × (first (λ r. r.id == i.tablet_id) start.tablets ≡ some tab)
    × (first (λ r. r.id == tab.department_id) start.departments ≡ some d)
    × (i.credential_hash ≡ 5)
    × (i.status ≡ InstallationStatus.active)
    × (tab.status ≡ TabletStatus.active)
    × (1 < i.authorization_valid_until)
    × Refreshed 1 i d telemetry renewed_row (record start {
      installations = renewed_row ∷ [];
      events = record { action = self_refreshed; actor = none; target_uuid = 20 } ∷ [];
    })
unfolding refresh_installation_lease steps save_telemetry_if
refresh-Leased_example = refresh-Leased plain 1 20 5 telemetry start refl

mark_stale_installations-none_overdue_example :
    (db' : Db) × (mark_stale_installations 100 start
      ≡ ok (count (is_overdue 100) start.installations, db'))
    × (count (is_overdue 100) db'.installations ≡ 0)
mark_stale_installations-none_overdue_example = mark_stale_installations-none_overdue 100 start

create_tablet-Registered_example : Registered admin 1 (b'N' ∷ []) [] 12 start new_row created_db
unfolding create_tablet steps str
create_tablet-Registered_example = create_tablet-Registered 1 admin 1 (b'N' ∷ []) [] 12 start refl

parse_app_version-version_str_example : parse_app_version (version_str version) ≡ some version
parse_app_version-version_str_example =
    parse_app_version-version_str version (omega arith) (omega arith) (omega arith)

-- `1.2.3`
parse_app_version_bounds_example : (1 ≤ max_component) × (2 ≤ max_component) × (3 ≤ max_component)
unfolding parse_app_version is_numeral int
parse_app_version_bounds_example =
    parse_app_version_bounds (b'1' ∷ b'.' ∷ b'2' ∷ b'.' ∷ b'3' ∷ []) {v = version} refl

parse_app_build-str_example : parse_app_build (str 42) ≡ some 42
parse_app_build-str_example = parse_app_build-str 42 (omega arith)

LifecycleRun-IsAdminOf_example : IsAdminOf admin 10 start
unfolding mark_tablet_lost steps revoke_tablet_installations revoke_dataset_key_grants
LifecycleRun-IsAdminOf_example =
    LifecycleRun-IsAdminOf 1 admin 10 start lost_db (LifecycleRun.lost [] _ refl)
