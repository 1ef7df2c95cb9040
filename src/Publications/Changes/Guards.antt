-- ===== src/Publications/Changes/Guards.antt =====
-- The tests of who may call a service only read.
use fire_dash_server.Prelude.{
  ℕ, ◌≡◌, refl, sym, ◌∙◌, subst, not, ◌&&◌, Option, none, some, ok, arith, ◌>>=◌, >>=-eq-ok,
}
use fire_dash_server.Tablets.Models.{User}
use fire_dash_server.Tablets.Store.{steps}
use fire_dash_server.Tablets.Access.{in_active_department_ids, require_department_admin}
use fire_dash_server.Publications.Models.{Owner, DatasetType}
use fire_dash_server.Publications.Registry.{get_dataset_definition}
use fire_dash_server.Publications.Store.{PublicationDb, Lifecycle, on_base}
use fire_dash_server.Publications.Leads.{
  Relation, Leads, Leads-if, Leads-found, Leads-gets, Leads-raise_if, Leads-raise,
}
use fire_dash_server.Publications.Authority.{
  is_system_admin, is_system_scope, is_station_files, require_scope, require_system_admin,
  require_system_scope, require_owner_admin, require_dataset_scope, require_station_files,
  require_publication_scope, validate_scope,
}

-- `m` leaves the database as it is.
abbrev pub Reads : {A : Type 0} → PublicationDb → Lifecycle A → Type 0
Reads db m = Leads (λ t u. t ≡ u) db m

pub Leads-after_read :
    {R : Relation} {A B : Type 0} {db : PublicationDb} (m : Lifecycle A) (f : A → Lifecycle B)
    → Reads db m
    → ((a : A) → m db ≡ ok (a, db) → Leads R db (f a))
    → Leads R db (m >>= f)
Leads-after_read {R} {A} {B} {db} m f r h = record { run = both }
  where
    both : (b : B) (db' : PublicationDb) → (m >>= f) db ≡ ok (b, db') → R db db'
    both b db' k =
        let (a, t, e, g) = >>=-eq-ok m f db k in
        let same : t ≡ db = sym (r.run a t e) in
        (h a (e ∙ (λ i. ok (a, same i)))).run b db' (subst (λ x. f a x ≡ ok (b, db')) same g)

module _ {db : PublicationDb} (actor : User) where
  require_scope-Reads : (d s : Option ℕ) → Reads db (require_scope actor d s)
  unfolding require_scope ◌>>=◌
  require_scope-Reads none none = record { run = λ a db' h. ground arith }
  require_scope-Reads none (some s) = record { run = λ a db' h. ground arith }
  require_scope-Reads (some d) none = record { run = λ a db' h. ground arith }
  require_scope-Reads (some d) (some s) = record { run = λ a db' h. ground arith }

  require_owner_admin-Reads : (owner : Owner) → Reads db (require_owner_admin actor owner)
  unfolding require_owner_admin on_base steps require_department_admin ◌>>=◌
  require_owner_admin-Reads Owner.system = record { run = λ a db' h. ground arith }
  require_owner_admin-Reads (Owner.department d) = record { run = λ a db' h. ground arith }
  require_owner_admin-Reads (Owner.station d s) = record { run = λ a db' h. ground arith }

  require_dataset_scope-Reads :
      (owner : Owner) (dataset : DatasetType) → Reads db (require_dataset_scope actor owner dataset)
  unfolding require_dataset_scope
  require_dataset_scope-Reads Owner.system DatasetType.department_files = Leads-raise (λ t. refl) _
  require_dataset_scope-Reads (Owner.department d) DatasetType.department_files =
      require_scope-Reads (some d) none
  require_dataset_scope-Reads (Owner.station d s) DatasetType.department_files =
      require_scope-Reads (some d) none
  require_dataset_scope-Reads Owner.system DatasetType.station_files = require_scope-Reads none none
  require_dataset_scope-Reads (Owner.department d) DatasetType.station_files =
      require_scope-Reads none none
  require_dataset_scope-Reads (Owner.station d s) DatasetType.station_files =
      require_scope-Reads none (some s)
  require_dataset_scope-Reads owner _ = require_owner_admin-Reads owner

  require_station_files-Reads : (owner : Owner) → Reads db (require_station_files actor owner)
  unfolding require_station_files
  require_station_files-Reads Owner.system = Leads-gets _ _ (
      Leads-raise_if _ _ _
        (λ e. require_dataset_scope-Reads Owner.system DatasetType.station_files))
  require_station_files-Reads (Owner.department d) = Leads-gets _ _ (
      Leads-raise_if _ _ _
        (λ e. require_dataset_scope-Reads (Owner.department d) DatasetType.station_files))
  require_station_files-Reads (Owner.station d s) = Leads-gets _ _ (
      Leads-gets _ _ (
        Leads-if (not (is_system_admin actor db) && in_active_department_ids actor d db.base)
          (λ e. Leads-raise_if _ _ _ (λ k. require_owner_admin-Reads (Owner.station d s)))
          (λ e. require_dataset_scope-Reads (Owner.station d s) DatasetType.station_files)))

  require_system_scope-Reads : (owner : Owner) → Reads db (require_system_scope actor owner)
  unfolding require_system_scope require_system_admin ◌>>=◌
  require_system_scope-Reads Owner.system = record { run = λ a db' h. ground arith }
  require_system_scope-Reads (Owner.department d) = Leads-raise (λ t. refl) _
  require_system_scope-Reads (Owner.station d s) = Leads-raise (λ t. refl) _

  pub require_publication_scope-Reads :
      (owner : Owner) (dataset : DatasetType)
      → Reads db (require_publication_scope actor owner dataset)
  unfolding require_publication_scope
  require_publication_scope-Reads owner dataset =
      Leads-found (get_dataset_definition dataset)
        (λ d e.
          Leads-if (is_system_scope d.scope) (λ s. require_system_scope-Reads owner)
            (λ s.
              Leads-if (is_station_files dataset) (λ t. require_station_files-Reads owner)
                (λ t. require_dataset_scope-Reads owner dataset)))
        (λ e. Leads-raise (λ t. refl) _)

pub validate_scope-Reads :
    {db : PublicationDb} (owner : Owner) (dataset : DatasetType)
    → Reads db (validate_scope owner dataset)
unfolding validate_scope ◌>>=◌
validate_scope-Reads owner dataset = record { run = λ a db' h. ground arith }
