-- ===== src/Publications/System.antt =====
-- The services of the publications, one after another: each is a transaction that returned, at any time
-- and with any source. A new row gets a key that is free. rollback_publication, delete_publication,
-- build_staged_publication, delete_staged_publication, the bulk request and the retention are no steps.
use fire_dash_server.Prelude.{ℕ, ◌≡◌, Bool, false, Option, none, some, ok}
use fire_dash_server.Tablets.Models.{User}
use fire_dash_server.Publications.Models.{Owner, DatasetType, Scope, Publication, Job}
use fire_dash_server.Publications.Store.{PublicationDb, Builders}
use fire_dash_server.Publications.Queue.{Fresh, Intent, enqueue_publication_job}
use fire_dash_server.Publications.Requests.{mark_dirty, request_rebuild, stage_publication_update}
use fire_dash_server.Publications.Claim.{claim_job, heartbeat_job}
use fire_dash_server.Publications.Build.{fail_publication_job, recover_stale_jobs}
use fire_dash_server.Publications.Finalize.{Built, finalize_publication_job}
use fire_dash_server.Publications.Review.{
  publish_publication, reject_publication, cancel_publication_build,
}
use fire_dash_server.Publications.Changes.{scope_at, job_at, Run}
use fire_dash_server.Publications.Changes.Runs.{IsFresh, Quiets-Run}
use fire_dash_server.Publications.Changes.Queue.{enqueue_publication_job-Run}
use fire_dash_server.Publications.Changes.Requests.{
  mark_dirty-Run, request_rebuild-Run, stage_publication_update-Run,
}
use fire_dash_server.Publications.Changes.Claiming.{claim_job-Run, heartbeat_job-Quiets}
use fire_dash_server.Publications.Changes.Build.{fail_publication_job-Quiets}
use fire_dash_server.Publications.Changes.Recovery.{recover_stale_jobs-Quiets}
use fire_dash_server.Publications.Changes.Finalize.{finalize_publication_job-Run}
use fire_dash_server.Publications.Changes.Review.{
  publish_publication-Run, reject_publication-Quiets, cancel_publication_build-Quiets,
}
use fire_dash_server.Publications.Invariant.{IsSound}
use fire_dash_server.Publications.Invariant.Runs.{Run-IsSound}

pub data Step (db db' : PublicationDb) : Type 0 where
  marked :
      (b : Builders) (fresh : Fresh) (scope_id : ℕ) (actor : Option ℕ) (owner : Owner)
      (dataset : DatasetType) (s : Scope)
      → IsFresh fresh db
      → scope_at scope_id db ≡ none
      → mark_dirty b fresh scope_id actor owner dataset db ≡ ok (s, db')
      → Step db db'
  enqueue :
      (b : Builders) (fresh : Fresh) (owner : Owner) (dataset : DatasetType) (intent : Intent)
      (j : Option Job)
      → IsFresh fresh db
      → enqueue_publication_job b fresh owner dataset intent false db ≡ ok (j, db')
      → Step db db'
  rebuild :
      (b : Builders) (fresh : Fresh) (scope_id : ℕ) (actor : User) (owner : Owner)
      (dataset : DatasetType) (s : Scope)
      → IsFresh fresh db
      → scope_at scope_id db ≡ none
      → request_rebuild b fresh scope_id actor owner dataset db ≡ ok (s, db')
      → Step db db'
  stage :
      (b : Builders) (fresh : Fresh) (actor : User) (owner : Owner) (dataset : DatasetType)
      (s : Scope)
      → IsFresh fresh db
      → stage_publication_update b fresh actor owner dataset db ≡ ok (s, db')
      → Step db db'
  claim :
      (b : Builders) (fresh : Fresh) (candidate : Job) (j : Option Job)
      → IsFresh fresh db
      → ((i : Job) → job_at candidate.id db ≡ some i → i.scope_state_id ≡ candidate.scope_state_id)
      → claim_job b fresh candidate db ≡ ok (j, db')
      → Step db db'
  heartbeat : (now pk : ℕ) (r : Bool) → heartbeat_job now pk db ≡ ok (r, db') → Step db db'
  finalize :
      (b : Builders) (fresh : Fresh) (pk : ℕ) (built : Built) (j : Job)
      → IsFresh fresh db
      → finalize_publication_job b fresh pk built db ≡ ok (j, db')
      → Step db db'
  fail :
      (b : Builders) (now pk : ℕ) (j : Job)
      → fail_publication_job b now pk db ≡ ok (j, db')
      → Step db db'
  recover :
      (b : Builders) (now timeout max_attempts n : ℕ)
      → recover_stale_jobs b now timeout max_attempts db ≡ ok (n, db')
      → Step db db'
  publish :
      (b : Builders) (now : ℕ) (actor : User) (pk : ℕ) (p : Publication)
      → publish_publication b now actor pk db ≡ ok (p, db')
      → Step db db'
  reject :
      (actor : User) (pk : ℕ) (p : Publication)
      → reject_publication actor pk db ≡ ok (p, db')
      → Step db db'
  cancel :
      (now : ℕ) (actor : User) (pk : ℕ) (p : Publication)
      → cancel_publication_build now actor pk db ≡ ok (p, db')
      → Step db db'

-- What a sequence of services leads to.
pub data Reach (db : PublicationDb) : PublicationDb → Type 0 where
  start : Reach db db
  after : {t u : PublicationDb} → Reach db t → Step t u → Reach db u

-- From a sound database, every service that returns has run the changes of the abstract machine.
pub Step-Run : (db db' : PublicationDb) → IsSound db → Step db db' → Run db db'
Step-Run db db' i (Step.marked b fresh scope_id actor owner dataset s f n e) =
    (mark_dirty-Run b fresh scope_id actor owner dataset f n).run s db' e
Step-Run db db' i (Step.enqueue b fresh owner dataset intent j f e) =
    (enqueue_publication_job-Run b fresh owner dataset intent false f).run j db' e
Step-Run db db' i (Step.rebuild b fresh scope_id actor owner dataset s f n e) =
    (request_rebuild-Run b fresh scope_id actor owner dataset f n).run s db' e
Step-Run db db' i (Step.stage b fresh actor owner dataset s f e) =
    (stage_publication_update-Run b fresh actor owner dataset f).run s db' e
Step-Run db db' i (Step.claim b fresh candidate j f n e) =
    (claim_job-Run b fresh candidate i f n).run j db' e
Step-Run db db' i (Step.heartbeat now pk r e) =
    Quiets-Run db db' ((heartbeat_job-Quiets now pk).run r db' e)
Step-Run db db' i (Step.finalize b fresh pk built j f e) =
    (finalize_publication_job-Run b fresh pk built i f).run j db' e
Step-Run db db' i (Step.fail b now pk j e) =
    Quiets-Run db db' ((fail_publication_job-Quiets b now pk).run j db' e)
Step-Run db db' i (Step.recover b now timeout max_attempts n e) =
    Quiets-Run db db'
      ((recover_stale_jobs-Quiets b now timeout max_attempts db i.keyed_jobs).run n db' e)
Step-Run db db' i (Step.publish b now actor pk p e) =
    (publish_publication-Run b now actor pk).run p db' e
Step-Run db db' i (Step.reject actor pk p e) =
    Quiets-Run db db' ((reject_publication-Quiets actor pk).run p db' e)
Step-Run db db' i (Step.cancel now actor pk p e) =
    Quiets-Run db db' ((cancel_publication_build-Quiets now actor pk).run p db' e)

-- From a sound database, every sequence of services leads to a sound one.
pub Reach-IsSound : (db db' : PublicationDb) → IsSound db → Reach db db' → IsSound db'
Reach-IsSound db db' i start = i
Reach-IsSound db db' i (after r s) =
    let j = Reach-IsSound db _ i r in Run-IsSound _ db' (Step-Run _ db' j s) j
