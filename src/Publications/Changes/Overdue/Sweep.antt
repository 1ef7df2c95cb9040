-- ===== src/Publications/Changes/Overdue/Sweep.antt =====
-- What `recover_stale_jobs` does to the jobs, as one write.
use fire_dash_server.Prelude.{
  ℕ, ◌+◌, ◌-◌, ◌≡◌, refl, sym, ap, ◌∙◌, subst, Bool, true, false, ◌&&◌, ◌||◌, List, [], ◌∷◌, ◌==◌,
  ◌<◌, arith, ◌>>=◌, >>=-eq-ok, if◌then◌else◌, Keyed, Keyed-update, order_by, select, any, update,
  ok, inl, inr, Bool-cases,
}
use fire_dash_server.Prelude.Updates.{update-agree, update-none, update-update, any-order_by}
use fire_dash_server.Prelude.TableLaws.{All-map, All-of, any-select}
use fire_dash_server.Publications.Models.{Job}
use fire_dash_server.Publications.Store.{PublicationDb, Builders}
use fire_dash_server.Publications.Build.{
  is_overdue, recover_round, recover_rounds, recovered_before, recover_stale_jobs,
}
use fire_dash_server.Publications.Changes.{job_key}
use fire_dash_server.Publications.Changes.Overdue.{
  recovered, is_abandoned, pure_same, recover_round-jobs,
}

module _ (b : Builders) where
  recovered_id : (now max_attempts : ℕ) (j : Job) → (recovered now max_attempts j).id ≡ j.id
  recovered_id now max_attempts j = ground arith

  recovered_done :
      (now cutoff max_attempts : ℕ) (j : Job)
      → is_overdue b cutoff (recovered now max_attempts j) ≡ false
  recovered_done now cutoff max_attempts j = ground arith

  ==_swap : (m n : ℕ) → (m == n) ≡ (n == m)
  ==_swap m n = ground arith

  and_false : (t : Bool) → (t && false) ≡ false
  and_false t = ground arith

  settles :
      (now cutoff max_attempts pk : ℕ) (rest : List Job) (x : Job)
      → let g = recovered now max_attempts in
        let y = if x.id == pk && is_overdue b cutoff x then g x else x in
        (if any (λ i. i.id == y.id) rest && is_overdue b cutoff y then g y else y)
        ≡ (if (pk == x.id || any (λ i. i.id == x.id) rest) && is_overdue b cutoff x then g x else x)
  settles now cutoff max_attempts pk rest x = elim (Bool-cases (is_overdue b cutoff x)) [
    | inl o ↦ elim (Bool-cases (x.id == pk)) [
      | inl e ↦
          let once : (if x.id == pk && is_overdue b cutoff x then g x else x) ≡ g x = rw (e, o) in
          let whole : (if (pk == x.id || any (λ i. i.id == x.id) rest) && is_overdue b cutoff x
                then g x
                else x)
              ≡ g x =
            rw (==_swap pk x.id, e, o) in
          ap later once ∙ rest_done ∙ sym whole
      | inr e ↦
          let none_yet : (if x.id == pk && is_overdue b cutoff x then g x else x) ≡ x = rw e in
          ap later none_yet ∙ sym (rw (==_swap pk x.id, e))
    ]
    | inr o ↦
        let never : (if x.id == pk && is_overdue b cutoff x then g x else x) ≡ x =
          rw (o, and_false (x.id == pk)) in
        let whole : (if (pk == x.id || any (λ i. i.id == x.id) rest) && is_overdue b cutoff x
              then g x
              else x)
            ≡ x =
          rw (o, and_false (pk == x.id || any (λ i. i.id == x.id) rest)) in
        let still : later x ≡ x = rw (o, and_false (any (λ i. i.id == x.id) rest)) in
        ap later never ∙ still ∙ sym whole
  ]
    where
      g : Job → Job
      g = recovered now max_attempts

      later : Job → Job
      later y = if any (λ i. i.id == y.id) rest && is_overdue b cutoff y then g y else y

      rest_done : later (g x) ≡ g x
      rest_done =
          rw
            (recovered_done now cutoff max_attempts x, and_false (any (λ i. i.id == (g x).id) rest))

  -- A list of rounds is one write.
  recover_rounds-jobs :
      (now cutoff max_attempts : ℕ) (js : List Job) (m : ℕ) (db t : PublicationDb) {n : ℕ}
      → Keyed job_key db.jobs
      → recover_rounds b now cutoff max_attempts js m db ≡ ok (n, t)
      → t.jobs
        ≡ update
            (λ j. any (λ i. i.id == j.id) js && is_overdue b cutoff j)
            (recovered now max_attempts)
            db.jobs
  unfolding recover_rounds
  recover_rounds-jobs now cutoff max_attempts [] m db t keyed h =
      pure_same b m db t h
      ∙ sym (
          update-none (λ j. false && is_overdue b cutoff j) (recovered now max_attempts) db.jobs
            (All-of _ (λ j. refl) db.jobs))
  recover_rounds-jobs now cutoff max_attempts (job ∷ rest) m db t keyed h =
      let (k, mid, e, h1) = >>=-eq-ok (recover_round b now cutoff max_attempts job.id) _ db h in
      let first_write = recover_round-jobs b now cutoff max_attempts job.id db mid keyed e in
      let keyed_mid : Keyed job_key mid.jobs = subst (Keyed job_key) (sym first_write) (
        Keyed-update job_key _ (recovered now max_attempts) (recovered_id now max_attempts) db.jobs
          keyed) in
      recover_rounds-jobs now cutoff max_attempts rest (k + m) mid t keyed_mid h1
      ∙ ap
          (update (λ j. any (λ i. i.id == j.id) rest && is_overdue b cutoff j)
            (recovered now max_attempts))
          first_write
      ∙ update-update (λ j. j.id == job.id && is_overdue b cutoff j)
          (λ j. any (λ i. i.id == j.id) rest && is_overdue b cutoff j)
          (λ j. any (λ i. i.id == j.id) (job ∷ rest) && is_overdue b cutoff j)
          (recovered now max_attempts) (settles now cutoff max_attempts job.id rest) db.jobs

  overdue_lem : (cutoff : ℕ) (j : Job) → is_overdue b cutoff j ≡ is_abandoned cutoff j
  overdue_lem cutoff j = ground arith

  same_write :
      (now cutoff max_attempts : ℕ) (j : Job)
      → (if is_overdue b cutoff j then recovered now max_attempts j else j)
        ≡ (if is_abandoned cutoff j then recovered now max_attempts j else j)
  same_write now cutoff max_attempts j =
      ap (λ t. if t then recovered now max_attempts j else j) (overdue_lem cutoff j)

  -- Where the keys of the jobs are unique and `recover_stale_jobs` returns, timeout and maximum are positive,
  -- and of the jobs it has written exactly the RUNNING ones whose last heartbeat is older than the timeout:
  -- such a job is FAILED where it has had the maximum of attempts, and PENDING with no attempt linked where
  -- not.
  pub recover_stale_jobs-jobs :
      (now timeout max_attempts : ℕ) (db t : PublicationDb) {n : ℕ}
      → Keyed job_key db.jobs
      → recover_stale_jobs b now timeout max_attempts db ≡ ok (n, t)
      → (0 < timeout)
        × (0 < max_attempts)
        × (t.jobs ≡ update (is_abandoned (now - timeout)) (recovered now max_attempts) db.jobs)
  unfolding recover_stale_jobs
  recover_stale_jobs-jobs now timeout max_attempts db t {n} keyed h =
      let stale : List Job =
        order_by (recovered_before b db) (select (is_overdue b (now - timeout)) db.jobs) in
      let rounds : recover_rounds b now (now - timeout) max_attempts stale 0 db ≡ ok (n, t) =
        unfold ◌>>=◌ in (ground arith) in
      let writes_all : t.jobs
          ≡ update (is_overdue b (now - timeout)) (recovered now max_attempts) db.jobs =
        recover_rounds-jobs now (now - timeout) max_attempts stale 0 db t keyed rounds
        ∙ update-agree _ (is_overdue b (now - timeout)) (recovered now max_attempts)
            (recovered now max_attempts) db.jobs
            (All-map _ _ listed db.jobs
              (any-select job_key (is_overdue b (now - timeout)) db.jobs)) in
      (
        unfold ◌>>=◌ in (ground arith),
        unfold ◌>>=◌ in (ground arith),
        writes_all
            ∙ update-agree (is_overdue b (now - timeout)) (is_abandoned (now - timeout))
                (recovered now max_attempts) (recovered now max_attempts) db.jobs
                (All-of _ (same_write now (now - timeout) max_attempts) db.jobs),
      )
    where
      listed :
          (x : Job)
          → (is_overdue b (now - timeout) x ≡ true
              → any (λ i. i.id == x.id) (select (is_overdue b (now - timeout)) db.jobs) ≡ true)
          → (if any
                  (λ i. i.id == x.id)
                  (order_by (recovered_before b db) (select (is_overdue b (now - timeout)) db.jobs))
                && is_overdue b (now - timeout) x
              then recovered now max_attempts x
              else x)
            ≡ (if is_overdue b (now - timeout) x then recovered now max_attempts x else x)
      listed x h = elim (Bool-cases (is_overdue b (now - timeout) x)) [
        | inl o ↦
            let there =
              any-order_by (recovered_before b db) (λ (i : Job). i.id == x.id)
                (select (is_overdue b (now - timeout)) db.jobs)
              ∙ h o in
            rw (there, o)
        | inr o ↦ rw (
          o,
          and_false (
              any (λ i. i.id == x.id)
                (order_by (recovered_before b db) (select (is_overdue b (now - timeout)) db.jobs))),
        )
      ]
