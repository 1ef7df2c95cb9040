-- ===== src/Tablets/Registration.antt =====
-- Registration of a tablet, with a manual asset number or a generated one
-- (apps/tablets/services.py).
pub mod Effects
use fire_dash_server.Prelude.{
  ℕ, zero, suc, ◌+◌, ◌-◌, ◌==◌, leb, ltb, Bool, true, false, not, ◌&&◌, ◌||◌, some, [], ◌∷◌, ◌++◌,
  length, if◌then◌else◌, ◌>>=◌, ◌>>◌, pure, raise, raise_if, gets, modify, any, update,
}
use fire_dash_server.Tablets.Models.{
  Text, Department, Tablet, TabletStatus, User, department_mutation, tablet_created,
}
use fire_dash_server.Tablets.Store.{
  Service, tablet_error, invalid_request, asset_number_exhausted, asset_number_allocation_exhausted,
  get_department, record_event,
}
use fire_dash_server.Tablets.Access.{require_department_admin, revoke_temporary_access}
use fire_dash_server.Tablets.Versions.Decimal.{str}

-- `Tablet._meta.get_field("asset_number").max_length`
abbrev pub asset_number_max_length : ℕ
asset_number_max_length = 128

abbrev pub max_allocation_attempts : ℕ
max_allocation_attempts = 1000

abbrev pub text_eq : Text → Text → Bool
text_eq [] [] = true
text_eq [] (d ∷ ds) = false
text_eq (c ∷ cs) [] = false
text_eq (c ∷ cs) (d ∷ ds) = c == d && text_eq cs ds

abbrev replicate : ℕ → ℕ → Text
replicate zero c = []
replicate (suc n) c = c ∷ replicate n c

-- `text.zfill(width)`, of a text that begins with no sign.
unfoldable pub zfill : ℕ → Text → Text
zfill width text = replicate (width - length text) b'0' ++ text

-- The white space of `str.strip`.
abbrev is_space : ℕ → Bool
is_space c =
    (leb 9 c && leb c 13)
    || (leb 28 c && leb c 32)
    || c == 133
    || c == 160
    || c == 5760
    || (leb 8192 c && leb c 8202)
    || (leb 8232 c && leb c 8233)
    || c == 8239
    || c == 8287
    || c == 12288

abbrev strip_left : Text → Text
strip_left [] = []
strip_left (c ∷ cs) = let rest = strip_left cs in if is_space c then rest else c ∷ cs

abbrev strip_right : Text → Text
strip_right [] = []
strip_right (c ∷ cs) =
    let rest = strip_right cs in
    if is_space c then elim rest [ [] ↦ [] | d ∷ ds ↦ c ∷ d ∷ ds ] else c ∷ rest

abbrev pub strip : Text → Text
strip text = strip_right (strip_left text)

abbrev pub is_empty : Text → Bool
is_empty [] = true
is_empty (_ ∷ _) = false

abbrev pub has_asset_number : ℕ → Text → Tablet → Bool
has_asset_number department_id asset_number t =
    t.department_id == department_id && text_eq t.asset_number asset_number

abbrev pub has_display_name : ℕ → Text → Tablet → Bool
has_display_name department_id display_name t =
    t.department_id == department_id && text_eq t.display_name display_name

unfoldable pub formatted_asset_number : Department → ℕ → Service Text
unfolding zfill
formatted_asset_number department sequence = do
  let asset_number =
      department.tablet_asset_number_prefix
      ++ zfill department.tablet_asset_number_width (str sequence)
  raise_if (ltb asset_number_max_length (length asset_number)) (tablet_error asset_number_exhausted)
  pure asset_number

unfoldable pub tablet_asset_number_preview : Department → Service Text
unfolding formatted_asset_number
tablet_asset_number_preview department =
    formatted_asset_number department (department.tablet_asset_number_sequence + 1)

-- `_next_generated_asset_number`: the number, and the department with its sequence advanced.
unfoldable pub next_generated_asset_number : Department → Service (Text × Department)
unfolding formatted_asset_number
next_generated_asset_number department = do
  let sequence = department.tablet_asset_number_sequence + 1
  asset_number ← formatted_asset_number department sequence
  modify λ db. record db {
    departments =
        update (λ d. d.id == department.id)
          (λ d. record d { tablet_asset_number_sequence = sequence }) db.departments;
  }
  pure (asset_number, record department { tablet_asset_number_sequence = sequence })

-- `Tablet.objects.create`, with the defaults of the model and the key of the new row.
unfoldable pub insert_tablet : User → Department → Text → Text → ℕ → Service Tablet
insert_tablet actor department display_name asset_number fresh = do
  let tablet : Tablet = record {
    id = fresh;
    department_id = department.id;
    asset_number = asset_number;
    display_name = display_name;
    status = TabletStatus.inactive;
    is_active = true;
    created_by = some actor.id;
  }
  modify λ db. record db { tablets = tablet ∷ db.tablets }
  pure tablet

-- The loop of `_create_generated_tablet`, with the attempts that are left. No other writer runs
-- between its test and its insertion, so the insertion breaks no constraint.
unfoldable pub create_generated_tablet : ℕ → User → Department → Text → ℕ → Service Tablet
unfolding next_generated_asset_number insert_tablet
create_generated_tablet zero actor department display_name fresh =
    raise (tablet_error asset_number_allocation_exhausted)
create_generated_tablet (suc attempts) actor department display_name fresh = do
  (asset_number, advanced) ← next_generated_asset_number department
  taken ← gets λ db. any (has_asset_number department.id asset_number) db.tablets
  elim taken [
    | true ↦ create_generated_tablet attempts actor advanced display_name fresh
    | false ↦ insert_tablet actor advanced display_name asset_number fresh
  ]

unfoldable pub create_tablet : ℕ → User → ℕ → Text → Text → ℕ → Service Tablet
unfolding require_department_admin create_generated_tablet insert_tablet revoke_temporary_access
create_tablet now actor department_id display_name asset_number fresh = do
  department ← get_department department_id
  require_department_admin actor department
  raise_if (is_empty (strip display_name)) (tablet_error invalid_request)
  named ← gets λ db. any (has_display_name department.id (strip display_name)) db.tablets
  raise_if named (tablet_error invalid_request)
  tablet ←
      (if department.tablet_asset_number_auto_enabled
        then create_generated_tablet max_allocation_attempts actor department (strip display_name)
            fresh
        else (do
          numbered ← gets λ db. any (has_asset_number department.id (strip asset_number)) db.tablets
          raise_if (not (is_empty (strip asset_number)) && numbered) (tablet_error invalid_request)
          insert_tablet actor department (strip display_name) (strip asset_number) fresh))
  record_event tablet_created (some actor.id) tablet.id
  revoke_temporary_access now actor department_mutation
  pure tablet
