-- ===== src/Publications/Changes/Claim.antt =====
-- The claim of a job runs changes: its attempt is frozen, or it ends.
use fire_dash_server.Prelude.{
  ℕ, ◌≡◌, refl, sym, ap, ◌∙◌, subst, Bool, true, false, ◌==◌, update, row-update_forth, none, some,
  ok, arith, ◌>>=◌, when, modify, gets, ==_refl, Option-cases, inl, inr, row, row-key,
}
use mathlib.Core.Option.{some-injective as some_inj}
use fire_dash_server.Publications.Models.{
  Scope, Publication, Job, PublicationStatus, JobStatus, is_staged, is_pending, is_active_job,
}
use fire_dash_server.Publications.Registry.{is_file_dataset}
use fire_dash_server.Publications.Store.{PublicationDb, Builders, save_publication, save_job}
use fire_dash_server.Publications.Artifacts.{pin_source}
use fire_dash_server.Publications.Queue.{Fresh, allocate_staged_publication}
use fire_dash_server.Publications.Claim.{
  frozen, started, ended_job, start_build, abandon_job, attempt_of,
}
use fire_dash_server.Publications.Leads.{Leads, Leads-found}
use fire_dash_server.Publications.Changes.{
  publication_key, job_key, publication_at, job_at, IsLinked, KeptJob, Quiets, still, Run,
}
use fire_dash_server.Publications.Changes.Writes.{running-active}
use fire_dash_server.Publications.Changes.Steps.{
  KeptPublication-move, is_staged-eq, Leads-save_found, Leads-save_job, Leads-pin_source,
  then_quiet, quiet_pure, quiet_when,
}
use fire_dash_server.Publications.Changes.Runs.{IsFresh, quietly, then-Run, Run-pure}
use fire_dash_server.Publications.Changes.Queue.{allocate-Run, allocate_lem}
use fire_dash_server.Publications.Changes.Frames.{
  SameJobs, same_when, save_publication-SameJobs, pin_source-SameJobs,
}

pending-active : (s : JobStatus) → is_pending s ≡ true → is_active_job s ≡ true
pending-active JobStatus.pending h = refl
pending-active _ h = cc

module _ {db : PublicationDb} where
  -- A job that ends.
  pub end_job-Quiets :
      (pk : ℕ) (f : Job → Job)
      → ((j : Job) → (f j).id ≡ j.id)
      → ((j : Job) → (f j).scope_state_id ≡ j.scope_state_id)
      → ((j : Job) → (f j).build_publication_id ≡ j.build_publication_id)
      → ((j : Job) → is_active_job (f j).status ≡ false)
      → Leads Quiets db (save_job pk f)
  end_job-Quiets pk f ki ks kb done = Leads-save_job pk f ki (λ j h. record {
    scope = ks j;
    active = λ a. absurd (clash j a);
    linked = λ l. record {
      attempt = λ k e.
          let (p, g, s, n) = l.attempt k (sym (kb j) ∙ e) in
          (p, g, s ∙ sym (ks j), λ r. absurd (clash j (running-active (f j).status r)));
      has_attempt = λ r. absurd (clash j (running-active (f j).status r));
    };
  })
    where
      clash : (j : Job) → is_active_job (f j).status ≡ true → ⊥
      clash j a = cc (done j)

saved_rows :
    (pk : ℕ) (f : Publication → Publication) (db t : PublicationDb) {u : Unit {0}}
    → save_publication pk f db ≡ ok (u, t)
    → t.publications ≡ update (λ p. p.id == pk) f db.publications
unfolding save_publication
saved_rows pk f db t h = ground arith

pinned_rows :
    (b : Builders) (test : Bool) (pk snapshot : ℕ) (t w : PublicationDb) {v : Unit {0}}
    → when test (pin_source b pk snapshot) t ≡ ok (v, w)
    → w.publications ≡ t.publications
unfolding pin_source when modify
pinned_rows b true pk snapshot t w h = ground arith
pinned_rows b false pk snapshot t w h = ground arith

module _ {db : PublicationDb} (b : Builders) where
  pub start_build-Quiets :
      (now : ℕ) (scope : Scope) (job : Job) (p : Publication)
      → job_at job.id db ≡ some job
      → is_pending job.status ≡ true
      → publication_at p.id db ≡ some p
      → is_staged p.status ≡ true
      → p.scope_state_id ≡ job.scope_state_id
      → Leads Quiets db (start_build b now scope job p)
  unfolding start_build
  start_build-Quiets now scope job p hj pending hp staged own = then_quiet _ save (λ u t e.
      then_quiet _ pin (λ v w g.
        then_quiet _
          (Leads-save_job job.id (started b now p.id scope) (λ j. refl)
            (λ j h.
              begun w (frozen_at t w u e v g)
                ((pin_same.run v w g) ∙ (save_publication-SameJobs p.id (frozen b scope)).run u t e)
                j h))
          (λ x y k. quiet_pure _)))
    where
      save : Leads Quiets db (save_publication p.id (frozen b scope))
      save =
          Leads-save_found p.id (frozen b scope) (λ x. refl) hp
            (KeptPublication-move PublicationStatus.staged PublicationStatus.building p
              (frozen b scope p) refl refl (is_staged-eq p.status staged) refl refl refl refl)

      pin :
          {t : PublicationDb}
          → Leads Quiets t
              (when (is_file_dataset scope.dataset) (pin_source b p.id (b.source scope.id)))
      pin = quiet_when _ (λ h. Leads-pin_source b p.id (b.source scope.id))

      pin_same :
          {t : PublicationDb}
          → Leads SameJobs t
              (when (is_file_dataset scope.dataset) (pin_source b p.id (b.source scope.id)))
      pin_same = same_when _ (λ h. pin_source-SameJobs b p.id (b.source scope.id))

      frozen_at :
          (t w : PublicationDb) (u : Unit {0})
          → save_publication p.id (frozen b scope) db ≡ ok (u, t)
          → (v : Unit {0})
          → when (is_file_dataset scope.dataset) (pin_source b p.id (b.source scope.id)) t
            ≡ ok (v, w)
          → publication_at p.id w ≡ some (frozen b scope p)
      frozen_at t w u e v g =
          ap (row publication_key p.id) (
            pinned_rows b _ p.id (b.source scope.id) t w g
            ∙ saved_rows p.id (frozen b scope) db t e)
          ∙ row-update_forth publication_key (λ x. x.id == p.id) (frozen b scope) (λ x. refl) p.id
              db.publications hp
          ∙ rw (==_refl p.id)

      begun :
          (w : PublicationDb)
          → publication_at p.id w ≡ some (frozen b scope p)
          → w.jobs ≡ db.jobs
          → (j : Job) → job_at job.id w ≡ some j
          → KeptJob w.publications w.publications j (started b now p.id scope j)
      begun w f same j h =
          let is_job : job ≡ j = some_inj job j (sym hj ∙ ap (row job_key job.id) (sym same) ∙ h) in
          record {
            scope = refl;
            active = λ a.
                subst (λ (x : Job). is_active_job x.status ≡ true) is_job
                  (pending-active job.status pending);
            linked = λ l. record {
              attempt = λ k e. (
                frozen b scope p,
                subst (λ n. publication_at n w ≡ some (frozen b scope p)) (some_inj p.id k e) f,
                own ∙ ap (λ (x : Job). x.scope_state_id) is_job,
                λ r. refl,
              );
              has_attempt = λ r. (p.id, refl);
            };
          }

  quiet_gets : {A : Type 0} (g : PublicationDb → A) → Leads Quiets db (gets g)
  unfolding gets
  quiet_gets g = record { run = λ a t h. subst (Quiets db) (cc) still }

  pub abandon_job-Quiets :
      (now : ℕ) (scope : Scope) (job : Job) → Leads Quiets db (abandon_job b now scope job)
  unfolding abandon_job
  abandon_job-Quiets now scope job =
      then_quiet _
        (end_job-Quiets job.id (ended_job JobStatus.obsolete now) (λ j. refl) (λ j. refl)
          (λ j. refl) (λ j. refl))
        (λ u t e. quiet_pure _)

  pub attempt_of-Run :
      (fresh : Fresh) (scope : Scope) (job : Job)
      → IsFresh fresh db
      → Leads Run db (attempt_of b fresh scope job)
  unfolding attempt_of
  attempt_of-Run fresh scope job f =
      Leads-found job.build_publication_id (λ pk e. quietly (quiet_gets _))
        (λ e.
          then-Run _
            (allocate-Run b fresh scope (record job { source_revision = scope.source_revision })
              f.publication)
            (λ p t h. Run-pure (some p)))

module _ (db : PublicationDb) (b : Builders) where
  unfoldable pub Given : Job → Publication → PublicationDb → Type 0
  Given job p t =
      (publication_at p.id t ≡ some p)
      × (p.scope_state_id ≡ job.scope_state_id)
      × (t.jobs ≡ db.jobs)

  allocated_lem :
      (fresh : Fresh) (scope : Scope) (job : Job)
      → job.scope_state_id ≡ scope.id
      → (p : Publication) (t : PublicationDb)
      → allocate_staged_publication b fresh scope
          (record job { source_revision = scope.source_revision })
          db
        ≡ ok (p, t)
      → Given job p t
  unfolding Given
  allocated_lem fresh scope job own p t h =
      let a =
        allocate_lem b fresh scope (record job { source_revision = scope.source_revision }) h in
      (
        ap (row publication_key p.id) (ap (λ (x : PublicationDb). x.publications) a.result)
            ∙ rw (==_refl p.id),
        a.scope_id ∙ sym own,
        ap (λ (x : PublicationDb). x.jobs) a.result,
      )

  -- The attempt that a job has or gets, where there is one.
  pub attempt_of_lem :
      (fresh : Fresh) (scope : Scope) (job : Job)
      → IsLinked db.publications job
      → job.scope_state_id ≡ scope.id
      → (p : Publication) (t : PublicationDb) → attempt_of b fresh scope job db ≡ ok (some p, t)
      → Given job p t
  unfolding attempt_of ◌>>=◌ Given
  attempt_of_lem fresh scope job linked own p t h = elim (Option-cases job.build_publication_id) [
    | inl e ↦ given_new e
    | inr (pk, e) ↦ given_old pk e
  ]
    where
      given_new : job.build_publication_id ≡ none → Given job p t
      given_new e = allocated_lem fresh scope job own p t (ground arith)

      given_old : (pk : ℕ) → job.build_publication_id ≡ some pk → Given job p t
      given_old pk e =
          let same : db ≡ t = ground arith in
          let found : publication_at pk db ≡ some p = ground arith in
          let (q, f, s, _) = linked.attempt pk e in
          subst (Given job p) same (
            subst (λ n. publication_at n db ≡ some p)
                (sym (row-key publication_key pk db.publications found)) found,
            ap (λ (x : Publication). x.scope_state_id) (some_inj p q (sym found ∙ f)) ∙ s,
            refl,
          )
