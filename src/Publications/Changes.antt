-- ===== src/Publications/Changes.antt =====
-- What the services of apps/publications/services.py and apps/publications/retention.py may do to the
-- scopes, publications and jobs: an abstract machine with four kinds of change. The children show that
-- each service runs it.
pub mod Writes
pub mod Steps
pub mod Guards
pub mod Source
pub mod Runs
pub mod Queue
pub mod Frames
pub mod Claim
pub mod Claiming
pub mod Build
pub mod Recovery
pub mod Overdue
pub mod Activation
pub mod Finalize
pub mod Restore
pub mod Requests
pub mod Opening
pub mod Review
use fire_dash_server.Prelude.{
  ℕ, suc, ◌≡◌, ◌⊎◌, Bool, true, false, ◌||◌, Option, none, some, List, ◌∷◌, ◌==◌, first, update,
  row, Keyed,
}
use fire_dash_server.Publications.Models.{
  Scope, Publication, Job, PublicationStatus, is_staged, is_building, is_ready_for_review,
  is_published, is_superseded, is_failed, is_cancelled, is_pending, is_running, is_active_job,
  is_ready_artifact,
}
use fire_dash_server.Publications.Store.{PublicationDb}
use fire_dash_server.Publications.Queue.{latest_version, is_live_of}
use fire_dash_server.Publications.Build.{superseded}

abbrev pub scope_key : Scope → ℕ
scope_key s = s.id

abbrev pub publication_key : Publication → ℕ
publication_key p = p.id

abbrev pub job_key : Job → ℕ
job_key j = j.id

abbrev pub scope_at : ℕ → PublicationDb → Option Scope
scope_at k db = row scope_key k db.scopes

abbrev pub publication_at : ℕ → PublicationDb → Option Publication
publication_at k db = row publication_key k db.publications

abbrev pub job_at : ℕ → PublicationDb → Option Job
job_at k db = row job_key k db.jobs

-- The moves of an attempt, apart from those by which it becomes current or stops to be.
abbrev pub is_quiet_move : PublicationStatus → PublicationStatus → Bool
is_quiet_move PublicationStatus.staged t = is_staged t || is_building t || is_cancelled t
is_quiet_move PublicationStatus.building t =
    is_building t
    || is_failed t
    || is_cancelled t
    || (elim t [ PublicationStatus.obsolete ↦ true | _ ↦ false ])
is_quiet_move PublicationStatus.ready_for_review t =
    is_ready_for_review t || (elim t [ PublicationStatus.rejected ↦ true | _ ↦ false ])
is_quiet_move PublicationStatus.published t = is_published t
is_quiet_move PublicationStatus.failed t = is_failed t
is_quiet_move PublicationStatus.superseded t =
    is_superseded t || (elim t [ PublicationStatus.obsolete ↦ true | _ ↦ false ])
is_quiet_move PublicationStatus.rejected t = elim t [
  | PublicationStatus.rejected ↦ true
  | _ ↦ false
]
is_quiet_move PublicationStatus.obsolete t = elim t [
  | PublicationStatus.obsolete ↦ true
  | _ ↦ false
]
is_quiet_move PublicationStatus.cancelled t = is_cancelled t

-- A publication before and after: its identity stays, and of a published one the artifact.
pub record KeptPublication (p q : Publication) : Type 0 where
  pub id : q.id ≡ p.id
  pub scope : q.scope_state_id ≡ p.scope_state_id
  pub version : q.version_number ≡ p.version_number
  pub status : is_quiet_move p.status q.status ≡ true
  pub artifact : is_published p.status ≡ true → q.artifact_status ≡ p.artifact_status

-- The attempt of a job is there, is of the job's scope, and is not STAGED any more where the job runs; and
-- a job that runs has one.
pub record IsLinked (publications : List Publication) (j : Job) : Type 0 where
  pub attempt :
      (k : ℕ)
      → j.build_publication_id ≡ some k
      → (p : Publication) × (row publication_key k publications ≡ some p)
        × (p.scope_state_id ≡ j.scope_state_id)
        × (is_running j.status ≡ true → is_staged p.status ≡ false)
  pub has_attempt : is_running j.status ≡ true → (k : ℕ) × (j.build_publication_id ≡ some k)

-- A job before and after: a job that has ended stays so.
pub record KeptJob (before after : List Publication) (i j : Job) : Type 0 where
  pub scope : j.scope_state_id ≡ i.scope_state_id
  pub active : is_active_job j.status ≡ true → is_active_job i.status ≡ true
  pub linked : IsLinked before i → IsLinked after j

pub record Quiet (db db' : PublicationDb) : Type 0 where
  pub scopes_back :
      (k : ℕ) (t : Scope)
      → scope_at k db' ≡ some t
      → ((s : Scope) × (scope_at k db ≡ some s)
          × (t.current_published_publication_id ≡ s.current_published_publication_id))
        ⊎ (t.current_published_publication_id ≡ none)
  pub scopes_forth :
      (k : ℕ) (s : Scope)
      → scope_at k db ≡ some s
      → (t : Scope) × (scope_at k db' ≡ some t)
        × (t.current_published_publication_id ≡ s.current_published_publication_id)
  pub publications_back :
      (k : ℕ) (q : Publication)
      → publication_at k db' ≡ some q
      → (p : Publication) × (publication_at k db ≡ some p) × KeptPublication p q
  pub publications_forth :
      (k : ℕ) (p : Publication)
      → publication_at k db ≡ some p
      → (q : Publication) × (publication_at k db' ≡ some q) × KeptPublication p q
  pub jobs_back :
      (k : ℕ) (j : Job)
      → job_at k db' ≡ some j
      → (i : Job) × (job_at k db ≡ some i) × KeptJob db.publications db'.publications i j
  pub keyed_publications :
      Keyed publication_key db.publications → Keyed publication_key db'.publications
  pub keyed_jobs : Keyed job_key db.jobs → Keyed job_key db'.jobs

-- A new attempt, with the next version of its scope.
pub record Added (db db' : PublicationDb) (p : Publication) : Type 0 where
  pub publications : db'.publications ≡ p ∷ db.publications
  pub scopes : db'.scopes ≡ db.scopes
  pub jobs : db'.jobs ≡ db.jobs
  pub fresh : publication_at p.id db ≡ none
  pub staged : is_staged p.status ≡ true
  pub version : p.version_number ≡ suc (latest_version p.scope_state_id db.publications)

-- A new job, for a scope that has no live one.
pub record Queued (db db' : PublicationDb) (j : Job) : Type 0 where
  pub jobs : db'.jobs ≡ j ∷ db.jobs
  pub scopes : db'.scopes ≡ db.scopes
  pub publications : db'.publications ≡ db.publications
  pub fresh : job_at j.id db ≡ none
  pub idle : first (is_live_of j.scope_state_id) db.jobs ≡ none
  pub unlinked : j.build_publication_id ≡ none
  pub waits : is_pending j.status ≡ true

-- The statuses from which a publication becomes current.
abbrev pub is_activatable : PublicationStatus → Bool
is_activatable s = is_building s || is_ready_for_review s || is_superseded s

abbrev pub retire_row : Option Publication → List Publication → List Publication
retire_row none xs = xs
retire_row (some q) xs = update (λ p. p.id == q.id) superseded xs

-- The publication `p` becomes the current one of its scope `s`, in place of `previous`.
pub record Activated (db db' : PublicationDb) (s : Scope) (p : Publication) : Type 0 where
  pub previous : Option Publication
  pub write : Publication → Publication
  pub scope_write : Scope → Scope
  pub scope_found : scope_at p.scope_state_id db ≡ some s
  pub found : publication_at p.id db ≡ some p
  pub activatable : is_activatable p.status ≡ true
  pub is_previous :
      (k : ℕ)
      → s.current_published_publication_id ≡ some k
      → (q : Publication) → publication_at k db ≡ some q
      → (k == p.id) ≡ false
      → previous ≡ some q
  pub only_previous :
      (q : Publication)
      → previous ≡ some q
      → (s.current_published_publication_id ≡ some q.id) × (publication_at q.id db ≡ some q)
  pub kept_id : (x : Publication) → (write x).id ≡ x.id
  pub kept_scope : (x : Publication) → (write x).scope_state_id ≡ x.scope_state_id
  pub kept_version : (x : Publication) → (write x).version_number ≡ x.version_number
  pub published : (x : Publication) → is_published (write x).status ≡ true
  pub ready :
      (x : Publication)
      → x.artifact_status ≡ p.artifact_status
      → is_ready_artifact (write x).artifact_status ≡ true
  pub kept_key : (x : Scope) → (scope_write x).id ≡ x.id
  pub current : (x : Scope) → (scope_write x).current_published_publication_id ≡ some p.id
  pub publications :
      db'.publications ≡ update (λ x. x.id == p.id) write (retire_row previous db.publications)
  pub scopes : db'.scopes ≡ update (λ x. x.id == s.id) scope_write db.scopes
  pub jobs : db'.jobs ≡ db.jobs

pub data Change (db db' : PublicationDb) : Type 0 where
  quiet : Quiet db db' → Change db db'
  added : (p : Publication) → Added db db' p → Change db db'
  queued : (j : Job) → Queued db db' j → Change db db'
  activated : (s : Scope) (p : Publication) → Activated db db' s p → Change db db'

pub data Run (db : PublicationDb) : PublicationDb → Type 0 where
  here : Run db db
  next : {t u : PublicationDb} → Run db t → Change t u → Run db u

-- A run of quiet changes.
pub data Quiets (db : PublicationDb) : PublicationDb → Type 0 where
  still : Quiets db db
  more : {t u : PublicationDb} → Quiets db t → Quiet t u → Quiets db u
