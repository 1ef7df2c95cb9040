-- ===== src/Publications/Changes/Steps.antt =====
-- The steps that the services are made of, as quiet changes.
use fire_dash_server.Prelude.{
  ℕ, ◌≡◌, refl, sym, ◌∙◌, subst, Bool, true, false, Option, none, some, ◌==◌, arith, ok, modify,
  ◌>>=◌, >>=-eq-ok, eq_of_==, row-key, when, pure,
}
use mathlib.Core.Option.{some-injective as some_inj}
use fire_dash_server.Tablets.Models.{PublicationAction, publication_event}
use fire_dash_server.Tablets.Store.{Service, record_event}
use fire_dash_server.Publications.Models.{
  Scope, Publication, Job, DatasetType, PublicationStatus, is_staged, is_building, is_published,
  is_superseded, is_ready_for_review,
}
use fire_dash_server.Publications.Store.{
  PublicationDb, Lifecycle, Builders, writes, on_base, get_scope, lock_scope, get_publication,
  get_job, save_scope, save_publication, save_job, log, schedule_artifact_removal, follow_up,
}
use fire_dash_server.Publications.Artifacts.{
  release_terminal_document_artifact_references, revoke_publication_dataset_key_grants, pin_source,
}
use fire_dash_server.Publications.Leads.{
  Relation, Leads, Leads-or_raise, Leads-bind, Leads-pure, Leads-when,
}
use fire_dash_server.Publications.Changes.{
  publication_key, job_key, scope_at, publication_at, job_at, is_quiet_move, KeptPublication,
  KeptJob, Quiet, Quiets, still, more,
}
use fire_dash_server.Publications.Changes.Writes.{
  Quiet-same, Quiet-scopes, Quiet-publications, Quiet-jobs,
}

pub Quiets-trans : (t u v : PublicationDb) → Quiets t u → Quiets u v → Quiets t v
Quiets-trans t u v r still = r
Quiets-trans t u v r (more s c) = more (Quiets-trans t _ _ r s) c

pub Quiets-refl : (t : PublicationDb) → Quiets t t
Quiets-refl t = still

pub is_staged-eq : (s : PublicationStatus) → is_staged s ≡ true → s ≡ PublicationStatus.staged
is_staged-eq PublicationStatus.staged h = refl
is_staged-eq _ h = cc

pub is_building-eq : (s : PublicationStatus) → is_building s ≡ true → s ≡ PublicationStatus.building
is_building-eq PublicationStatus.building h = refl
is_building-eq _ h = cc

pub is_superseded-eq :
    (s : PublicationStatus) → is_superseded s ≡ true → s ≡ PublicationStatus.superseded
is_superseded-eq PublicationStatus.superseded h = refl
is_superseded-eq _ h = cc

pub is_ready_for_review-eq :
    (s : PublicationStatus) → is_ready_for_review s ≡ true → s ≡ PublicationStatus.ready_for_review
is_ready_for_review-eq PublicationStatus.ready_for_review h = refl
is_ready_for_review-eq _ h = cc

-- A publication that moves on from a status in which it was not the current one.
pub KeptPublication-move :
    (s t : PublicationStatus) (p q : Publication)
    → is_quiet_move s t ≡ true
    → is_published s ≡ false
    → p.status ≡ s
    → q.status ≡ t
    → q.id ≡ p.id
    → q.scope_state_id ≡ p.scope_state_id
    → q.version_number ≡ p.version_number
    → KeptPublication p q
KeptPublication-move s t p q m n es et ei eo ev = record {
  id = ei;
  scope = eo;
  version = ev;
  status = rw (es, et) m;
  artifact = λ h. absurd (clash (subst (λ x. is_published x ≡ true) es h));
}
  where
    clash : is_published s ≡ true → ⊥
    clash h = cc

pub lock_scope_lem :
    (pk : ℕ) (db : PublicationDb) {s : Scope} {u : PublicationDb}
    → lock_scope pk db ≡ ok (s, u)
    → (scope_at pk db ≡ some s) × (u ≡ db)
unfolding lock_scope ◌>>=◌
lock_scope_lem pk db h = ground arith

module _ {R : Relation} {db : PublicationDb} where
  pub Leads-modify : (g : PublicationDb → PublicationDb) → R db (g db) → Leads R db (modify g)
  unfolding modify
  Leads-modify g r = record { run = λ a db' h. subst (R db) (cc) r }

  -- The reads by a key.
  pub Leads-get_scope :
      {A : Type 0} (pk : ℕ) (f : Scope → Lifecycle A)
      → ((s : Scope) → scope_at pk db ≡ some s → Leads R db (f s))
      → Leads R db (get_scope pk >>= f)
  unfolding writes
  Leads-get_scope pk f h = record { run = (Leads-or_raise (scope_at pk db) _ f h).run }

  pub Leads-lock_scope :
      {A : Type 0} (pk : ℕ) (f : Scope → Lifecycle A)
      → ((s : Scope) → scope_at pk db ≡ some s → Leads R db (f s))
      → Leads R db (lock_scope pk >>= f)
  Leads-lock_scope pk f h = record {
    run = λ a t e.
        let (s, u, locked, k) = >>=-eq-ok (lock_scope pk) f db e in
        let (found, same) = lock_scope_lem pk db locked in
        (h s found).run a t (subst (λ x. f s x ≡ ok (a, t)) same k);
  }

  pub Leads-get_publication :
      {A : Type 0} (pk : ℕ) (f : Publication → Lifecycle A)
      → ((p : Publication) → publication_at pk db ≡ some p → Leads R db (f p))
      → Leads R db (get_publication pk >>= f)
  unfolding writes
  Leads-get_publication pk f h = record { run = (Leads-or_raise (publication_at pk db) _ f h).run }

  pub Leads-get_job :
      {A : Type 0} (pk : ℕ) (f : Job → Lifecycle A)
      → ((j : Job) → job_at pk db ≡ some j → Leads R db (f j))
      → Leads R db (get_job pk >>= f)
  unfolding writes
  Leads-get_job pk f h = record { run = (Leads-or_raise (job_at pk db) _ f h).run }

pub Leads-Quiet :
    {db : PublicationDb} (g : PublicationDb → PublicationDb)
    → Quiet db (g db)
    → Leads Quiets db (modify g)
Leads-Quiet g q = Leads-modify g (more still q)

module _ {db : PublicationDb} where
  -- What only writes the other tables.
  Leads-aside :
      (g : PublicationDb → PublicationDb)
      → (g db).scopes ≡ db.scopes
      → (g db).publications ≡ db.publications
      → (g db).jobs ≡ db.jobs
      → Leads Quiets db (modify g)
  Leads-aside g es ep ej = Leads-Quiet g (Quiet-same db (g db) es ep ej)

  pub Leads-on_base : {A : Type 0} (m : Service A) → Leads Quiets db (on_base m)
  unfolding on_base
  Leads-on_base m = record {
    run = λ a db' h. more still (Quiet-same db db' (ground arith) (ground arith) (ground arith));
  }

  pub Leads-log :
      (action : PublicationAction) (actor : Option ℕ) (target : ℕ)
      → Leads Quiets db (log action actor target)
  unfolding log
  Leads-log action actor target =
      Leads-on_base (record_event (publication_event action) actor target)

  pub Leads-schedule : (path : Option ℕ) → Leads Quiets db (schedule_artifact_removal path)
  unfolding schedule_artifact_removal
  Leads-schedule none = Leads-aside _ refl refl refl
  Leads-schedule (some path) = Leads-aside _ refl refl refl

  pub Leads-follow_up : (pk : ℕ) (t : Option ℕ) → Leads Quiets db (follow_up pk t)
  unfolding follow_up
  Leads-follow_up pk t = Leads-aside _ refl refl refl

  pub Leads-pin_source :
      (b : Builders) (pk snapshot : ℕ) → Leads Quiets db (pin_source b pk snapshot)
  unfolding pin_source
  Leads-pin_source b pk snapshot = Leads-aside _ refl refl refl

  pub Leads-revoke :
      (now : ℕ) (dataset : DatasetType) (pk : ℕ)
      → Leads Quiets db (revoke_publication_dataset_key_grants now dataset pk)
  unfolding revoke_publication_dataset_key_grants
  Leads-revoke now dataset pk = Leads-aside _ refl refl refl

  pub Leads-release :
      (dataset : DatasetType) (p : Publication)
      → Leads Quiets db (release_terminal_document_artifact_references dataset p)
  unfolding release_terminal_document_artifact_references ◌>>=◌
  Leads-release dataset p = record {
    run = λ a db' h. more still (Quiet-same db db' (ground arith) (ground arith) (ground arith));
  }

  -- The writes of one row, by its key.
  pub Leads-save_scope :
      (pk : ℕ) (f : Scope → Scope)
      → ((s : Scope) → (f s).id ≡ s.id)
      → ((s : Scope) → (f s).current_published_publication_id ≡ s.current_published_publication_id)
      → Leads Quiets db (save_scope pk f)
  unfolding save_scope
  Leads-save_scope pk f keep kept =
      Leads-Quiet _ (Quiet-scopes db _ (λ s. s.id == pk) f keep kept refl refl refl)

  pub Leads-save_publication :
      (pk : ℕ) (f : Publication → Publication)
      → ((p : Publication) → (f p).id ≡ p.id)
      → ((p : Publication) → publication_at pk db ≡ some p → KeptPublication p (f p))
      → Leads Quiets db (save_publication pk f)
  unfolding save_publication
  Leads-save_publication pk f keep kept = Leads-Quiet _ (
      Quiet-publications db _ (λ p. p.id == pk) f keep
        (λ k p h e. kept p (
          subst (λ i. publication_at i db ≡ some p)
            (sym (row-key publication_key k db.publications h) ∙ eq_of_== p.id pk e) h))
        refl refl refl)

  pub Leads-save_job :
      (pk : ℕ) (f : Job → Job)
      → ((j : Job) → (f j).id ≡ j.id)
      → ((j : Job) → job_at pk db ≡ some j → KeptJob db.publications db.publications j (f j))
      → Leads Quiets db (save_job pk f)
  unfolding save_job
  Leads-save_job pk f keep kept = Leads-Quiet _ (
      Quiet-jobs db _ (λ j. j.id == pk) f keep
        (λ k j h e. kept j (
          subst (λ i. job_at i db ≡ some j) (sym (row-key job_key k db.jobs h) ∙ eq_of_== j.id pk e)
            h))
        refl refl refl)

-- Quiet changes that leave the publications and the jobs as they are.
pub record ScopesOnly (t u : PublicationDb) : Type 0 where
  pub quiet : Quiets t u
  pub publications : u.publications ≡ t.publications
  pub jobs : u.jobs ≡ t.jobs

pub ScopesOnly-refl : (t : PublicationDb) → ScopesOnly t t
ScopesOnly-refl t = record { quiet = still; publications = refl; jobs = refl }

pub ScopesOnly-trans : (t u v : PublicationDb) → ScopesOnly t u → ScopesOnly u v → ScopesOnly t v
ScopesOnly-trans t u v a b = record {
  quiet = Quiets-trans t u v a.quiet b.quiet;
  publications = b.publications ∙ a.publications;
  jobs = b.jobs ∙ a.jobs;
}

pub Leads-only_scope :
    {db : PublicationDb} (pk : ℕ) (f : Scope → Scope)
    → ((s : Scope) → (f s).id ≡ s.id)
    → ((s : Scope) → (f s).current_published_publication_id ≡ s.current_published_publication_id)
    → Leads ScopesOnly db (save_scope pk f)
unfolding save_scope
Leads-only_scope pk f keep kept = Leads-modify _ (record {
  quiet = more still (Quiet-scopes _ _ (λ s. s.id == pk) f keep kept refl refl refl);
  publications = refl;
  jobs = refl;
})

-- The rules, at quiet changes.
module _ {db : PublicationDb} where
  pub then_quiet :
      {A B : Type 0} (m : Lifecycle A) {f : A → Lifecycle B}
      → Leads Quiets db m
      → ((a : A) (t : PublicationDb) → m db ≡ ok (a, t) → Leads Quiets t (f a))
      → Leads Quiets db (m >>= f)
  then_quiet = Leads-bind Quiets-trans

  pub quiet_pure : {A : Type 0} (a : A) → Leads Quiets db (pure a)
  quiet_pure = Leads-pure Quiets-refl

  pub quiet_when :
      (t : Bool) {m : Lifecycle (Unit {0})}
      → (t ≡ true → Leads Quiets db m)
      → Leads Quiets db (when t m)
  quiet_when = Leads-when Quiets-refl

  -- The row that is written has been read.
  pub Leads-save_found :
      (pk : ℕ) (f : Publication → Publication) {p : Publication}
      → ((x : Publication) → (f x).id ≡ x.id)
      → publication_at pk db ≡ some p
      → KeptPublication p (f p)
      → Leads Quiets db (save_publication pk f)
  Leads-save_found pk f {p} keep h kept =
      Leads-save_publication pk f keep
        (λ x g. subst (λ y. KeptPublication y (f y)) (some_inj p x (sym h ∙ g)) kept)
