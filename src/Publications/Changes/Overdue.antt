-- ===== src/Publications/Changes/Overdue.antt =====
-- What a round of `recover_stale_jobs` does to the jobs, as one write.
pub mod Sweep
use fire_dash_server.Prelude.{
  ℕ, ◌+◌, ◌-◌, ◌≡◌, refl, sym, ap, ◌∙◌, subst, Bool, true, false, ◌&&◌, ◌||◌, some, none, List, [],
  ◌∷◌, ◌==◌, leb, ltb, ◌<◌, arith, ◌>>=◌, ◌>>◌, >>=-eq-ok, if_found, if◌then◌else◌, when, gets,
  modify, pure, raise_if, row, row-key, first, first-row, Keyed, Keyed-update, order_by, insert_row,
  select, any, update, All, ok, inl, inr, Bool-cases, Option-cases, eq_of_==, ==_refl,
  first-none-All,
}
use fire_dash_server.Prelude.Updates.{update-agree, update-none, update-update, any-order_by}
use fire_dash_server.Prelude.TableLaws.{first_sound, All-map, All-of, any-select}
use mathlib.Core.Option.{some-injective as some_inj}
use fire_dash_server.Publications.Models.{Scope, Job, JobStatus, is_running}
use fire_dash_server.Publications.Store.{
  PublicationError, PublicationDb, Builders, save_job, lock_scope, writes,
}
use fire_dash_server.Publications.Claim.{ended_job}
use fire_dash_server.Publications.Build.{
  is_overdue, retried, time_out_attempt, queue_follow_up_if_stale, recover_job, recover_round,
  recover_rounds, recovered_before, recover_stale_jobs,
}
use fire_dash_server.Publications.Changes.{job_key}
use fire_dash_server.Publications.Changes.Steps.{Leads-lock_scope}
use fire_dash_server.Publications.Leads.{Leads, Leads-found, Leads-gets}
use fire_dash_server.Publications.Changes.Build.{time_out_attempt-SameJobs}
use fire_dash_server.Publications.Changes.Frames.{SameJobs, same_pure}

-- A job whose worker is gone: it fails after the last attempt, and waits without one before.
abbrev pub recovered : ℕ → ℕ → Job → Job
recovered now max_attempts j =
    if leb max_attempts j.attempt_count
    then record j { status = JobStatus.failed; completed_at = some now }
    else record j {
      status = JobStatus.pending;
      started_at = none;
      heartbeat_at = none;
      build_publication_id = none;
    }

-- A job that runs, and whose worker has not been heard of since `cutoff`.
abbrev pub is_abandoned : ℕ → Job → Bool
is_abandoned cutoff j = elim j.status [
  | JobStatus.running ↦ elim j.heartbeat_at [ none ↦ false | some t ↦ ltb t cutoff ]
  | _ ↦ false
]

module _ (b : Builders) where
  save_job-jobs :
      (pk : ℕ) (f : Job → Job) (db t : PublicationDb) {u : Unit {0}}
      → save_job pk f db ≡ ok (u, t)
      → t.jobs ≡ update (λ j. j.id == pk) f db.jobs
  unfolding save_job
  save_job-jobs pk f db t h = ground arith

  follow_up-jobs :
      (job : Job) (db t : PublicationDb) {u : Unit {0}}
      → queue_follow_up_if_stale b job db ≡ ok (u, t)
      → t.jobs ≡ db.jobs
  unfolding queue_follow_up_if_stale writes when
  follow_up-jobs job db t h = ground arith

  timed_out-SameJobs :
      {db : PublicationDb} (scope : Scope) (job : Job)
      → Leads SameJobs db (
          if_found job.build_publication_id
            (λ pk. do
              attempt ← gets λ x. first (λ p. p.id == pk) x.publications
              if_found attempt (time_out_attempt b scope) (pure tt))
            (pure tt))
  timed_out-SameJobs {db} scope job =
      Leads-found job.build_publication_id
        (λ pk h. Leads-gets _ _ (
          Leads-found (first (λ p. p.id == pk) db.publications)
            (λ p k. time_out_attempt-SameJobs b scope p) (λ k. same_pure tt)))
        (λ h. same_pure tt)

  settled_job :
      (now max_attempts : ℕ) (job : Job) (db t : PublicationDb) {u : Unit {0}}
      → (if leb max_attempts job.attempt_count
            then (do
              save_job job.id (ended_job JobStatus.failed now)
              queue_follow_up_if_stale b job)
            else save_job job.id (retried b))
          db
        ≡ ok (u, t)
      → t.jobs
        ≡ update
            (λ j. j.id == job.id)
            (if leb max_attempts job.attempt_count
              then ended_job JobStatus.failed now
              else retried b)
            db.jobs
  settled_job now max_attempts job db t h = elim (Bool-cases (leb max_attempts job.attempt_count)) [
    | inl e ↦
        let (v, m, e1, k) =
          >>=-eq-ok (save_job job.id (ended_job JobStatus.failed now)) _ db (rw e at h) in
        rw e
          (follow_up-jobs job m t k ∙ save_job-jobs job.id (ended_job JobStatus.failed now) db m e1)
    | inr e ↦ rw e (save_job-jobs job.id (retried b) db t (rw e at h))
  ]

  recover_job-jobs :
      (now max_attempts : ℕ) (scope : Scope) (job : Job) (db t : PublicationDb) {u : Unit {0}}
      → recover_job b now max_attempts scope job db ≡ ok (u, t)
      → t.jobs
        ≡ update
            (λ j. j.id == job.id)
            (if leb max_attempts job.attempt_count
              then ended_job JobStatus.failed now
              else retried b)
            db.jobs
  unfolding recover_job
  recover_job-jobs now max_attempts scope job db t h =
      let (u, m, e, k) = >>=-eq-ok _ _ db h in
      let same : m.jobs ≡ db.jobs = (timed_out-SameJobs scope job).run u m e in
      settled_job now max_attempts job m t k ∙ ap (update (λ j. j.id == job.id) _) same

  -- The write to the one job that has been read, as a write by its test.
  at_job :
      (now cutoff max_attempts pk : ℕ) (xs : List Job) (job : Job)
      → Keyed job_key xs
      → row job_key pk xs ≡ some job
      → is_overdue b cutoff job ≡ true
      → update
          (λ j. j.id == job.id)
          (if leb max_attempts job.attempt_count then ended_job JobStatus.failed now else retried b)
          xs
        ≡ update (λ j. j.id == pk && is_overdue b cutoff j) (recovered now max_attempts) xs
  at_job now cutoff max_attempts pk xs job keyed found overdue =
      update-agree (λ j. j.id == job.id) (λ j. j.id == pk && is_overdue b cutoff j) _
        (recovered now max_attempts) xs
        (All-map (λ x. row job_key x.id xs ≡ some x) _ agree xs keyed)
    where
      key : job.id ≡ pk
      key = row-key job_key pk xs found

      Agrees : Job → Type 0
      Agrees x =
          (if x.id == job.id
            then (if leb max_attempts job.attempt_count
                  then ended_job JobStatus.failed now
                  else retried b)
                x
            else x)
          ≡ (if x.id == pk && is_overdue b cutoff x then recovered now max_attempts x else x)

      own : Agrees job
      own =
          let here : (job.id == pk) ≡ true = ap (λ n. n == pk) key ∙ ==_refl pk in
          elim (Bool-cases (leb max_attempts job.attempt_count)) [
            | inl e ↦ rw (==_refl job.id, here, overdue, e)
            | inr e ↦ rw (==_refl job.id, here, overdue, e)
          ]

      agree : (x : Job) → row job_key x.id xs ≡ some x → Agrees x
      agree x h = elim (Bool-cases (x.id == pk)) [
        | inl e ↦
            subst Agrees
              (some_inj job x
                (sym found ∙ ap (λ n. row job_key n xs) (sym (eq_of_== x.id pk e)) ∙ h))
              own
        | inr e ↦
            let other : (x.id == job.id) ≡ false = ap (λ n. x.id == n) key ∙ e in rw (other, e)
      ]

  pub pure_same :
      {A : Type 0} (a : A) (db t : PublicationDb) {x : A}
      → pure {E = PublicationError} a db ≡ ok (x, t)
      → t.jobs ≡ db.jobs
  unfolding pure
  pure_same a db t h = ground arith

  module _ (now cutoff max_attempts pk : ℕ) where
    -- The jobs after a round.
    abbrev Round : PublicationDb → PublicationDb → Type 0
    Round t u =
        u.jobs
        ≡ update (λ j. j.id == pk && is_overdue b cutoff j) (recovered now max_attempts) t.jobs

    unwritten :
        (n : ℕ) (db : PublicationDb)
        → All (λ j. (j.id == pk && is_overdue b cutoff j) ≡ false) db.jobs
        → Leads {A = ℕ} Round db (pure n)
    unwritten n db a = record {
      run =
          λ m t h. pure_same n db t h ∙ sym (update-none _ (recovered now max_attempts) db.jobs a);
    }

    Round-Leads :
        (db : PublicationDb)
        → Keyed job_key db.jobs
        → Leads Round db (recover_round b now cutoff max_attempts pk)
    unfolding recover_round
    Round-Leads db keyed = Leads-gets _ _ (
        Leads-found (first (λ j. j.id == pk) db.jobs)
          (λ preview h. Leads-lock_scope _ _ (λ scope e. Leads-gets _ _ (
            Leads-found (first (λ j. j.id == pk && is_overdue b cutoff j) db.jobs)
              (λ job g. record {
                run = λ n t k.
                    let (u, m, e1, k1) =
                      >>=-eq-ok (recover_job b now max_attempts scope job) _ db k in
                    let tests = first_sound (λ j. j.id == pk && is_overdue b cutoff j) db.jobs g in
                    let key : job.id ≡ pk = eq_of_== job.id pk (ground arith) in
                    pure_same 1 m t k1
                    ∙ recover_job-jobs now max_attempts scope job db m e1
                    ∙ at_job now cutoff max_attempts pk db.jobs job keyed
                        (subst (λ x. row job_key x db.jobs ≡ some job) key
                          (first-row job_key _ db.jobs keyed g))
                        (ground arith);
              })
              (λ g. unwritten 0 db (first-none-All _ db.jobs g)))))
          (λ h. unwritten 0 db (
            All-map (λ j. (j.id == pk) ≡ false) _ (λ j n. rw n) db.jobs
              (first-none-All _ db.jobs h))))

  pub recover_round-jobs :
      (now cutoff max_attempts pk : ℕ) (db t : PublicationDb) {n : ℕ}
      → Keyed job_key db.jobs
      → recover_round b now cutoff max_attempts pk db ≡ ok (n, t)
      → t.jobs
        ≡ update (λ j. j.id == pk && is_overdue b cutoff j) (recovered now max_attempts) db.jobs
  recover_round-jobs now cutoff max_attempts pk db t keyed h =
      (Round-Leads now cutoff max_attempts pk db keyed).run _ t h
