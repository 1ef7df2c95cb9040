-- ===== src/Publications/Changes/Finalize.antt =====
-- The end of a build runs changes: the attempt is dropped, or it becomes the current publication.
use fire_dash_server.Prelude.{
  ℕ, ◌≡◌, refl, sym, ap, ◌∙◌, subst, Bool, true, false, not, ◌&&◌, Option, none, some, ◌==◌, ◌>>◌,
  pure, when, row, update,
}
use mathlib.Core.Option.{some-injective as some_inj}
use fire_dash_server.Publications.Models.{
  Scope, Publication, Job, PublicationStatus, JobStatus, ArtifactStatus, is_building, is_running,
}
use fire_dash_server.Tablets.Models.{PublicationAction, job_obsolete}
use fire_dash_server.Publications.Registry.{is_file_dataset}
use fire_dash_server.Publications.Store.{
  PublicationDb, Builders, linked_publication, save_job, log, follow_up,
}
use fire_dash_server.Publications.Queue.{Fresh}
use fire_dash_server.Publications.Claim.{ended_job}
use fire_dash_server.Publications.Finalize.{
  Built, job_intent, finished, withdrawn, retire_previous, finalize_stale, finalize_duplicate,
  is_same_source, activate_finished, finalize_attempt, finalize_running, finalize_publication_job,
  publication_id_of,
}
use fire_dash_server.Publications.Leads.{Leads, Leads-if, Leads-found, Leads-gets, Leads-raise_if}
use fire_dash_server.Publications.Changes.{
  publication_key, publication_at, scope_at, activated, Quiets, Run, here, next,
}
use fire_dash_server.Publications.Changes.Steps.{
  is_building-eq, Leads-save_found, Leads-save_scope, Leads-lock_scope, Leads-get_publication,
  Leads-get_job, Leads-log, Leads-schedule, Leads-follow_up, Leads-release, then_quiet, quiet_pure,
  quiet_when,
}
use fire_dash_server.Publications.Changes.Runs.{IsFresh, then_fresh, quietly, then-Run, Run-pure}
use fire_dash_server.Publications.Changes.Queue.{enqueue_publication_job-Run}
use fire_dash_server.Publications.Changes.Claim.{end_job-Quiets}
use fire_dash_server.Publications.Changes.Frames.{schedule-publications}
use fire_dash_server.Publications.Changes.Activation.{
  from_bind, from_here, from_save_publication, from_save_scope, retire_previous_lem, activation_lem,
}
use fire_dash_server.Publications.Changes.Build.{
  building-left, attempt-found, fail_publication_job-Quiets,
}
use fire_dash_server.Publications.Invariant.{IsSound}

module _ {db : PublicationDb} (b : Builders) where
  -- The steps before the new attempt is queued.
  finalize_stale-Run :
      (fresh : Fresh) (scope : Scope) (job : Job) (built : Built) (p : Publication)
      → publication_at p.id db ≡ some p
      → is_building p.status ≡ true
      → IsFresh fresh db
      → Leads Run db (finalize_stale b fresh scope job built p)
  unfolding finalize_stale
  finalize_stale-Run fresh scope job built p found building f =
      then_fresh fresh _ f (Leads-schedule built.artifact_path) (λ u t e free.
        then_fresh fresh _ free
          (Leads-save_found p.id (withdrawn b) (λ x. refl)
            (ap (row publication_key p.id) (schedule-publications db t built.artifact_path u e)
              ∙ found)
            (building-left PublicationStatus.obsolete p (withdrawn b p) building refl refl refl refl
              refl))
          (λ u2 t2 e2 free2.
            then_fresh fresh _ free2 (Leads-release scope.dataset (withdrawn b p)) (λ n t3 e3 free3.
              then_fresh fresh _ free3
                (end_job-Quiets job.id (ended_job JobStatus.obsolete fresh.now) (λ j. refl)
                  (λ j. refl) (λ j. refl) (λ j. refl))
                (λ u4 t4 e4 free4.
                  then_fresh fresh _ free4 (Leads-log job_obsolete none job.id) (λ u5 t5 e5 free5.
                    then-Run _
                      (enqueue_publication_job-Run b fresh scope.owner scope.dataset
                        (job_intent b job) false free5)
                      (λ o v g. Run-pure _))))))

  finalize_duplicate-Quiets :
      (now : ℕ) (scope : Scope) (job : Job) (built : Built) (p q : Publication)
      → publication_at p.id db ≡ some q
      → is_building q.status ≡ true
      → q.scope_state_id ≡ p.scope_state_id
      → Leads Quiets db (finalize_duplicate b now scope job built p)
  unfolding finalize_duplicate
  finalize_duplicate-Quiets now scope job built p q found building own =
      then_quiet _ (Leads-schedule built.artifact_path) (λ u t e.
        then_quiet _
          (Leads-save_found p.id _ (λ x. refl)
            (ap (row publication_key p.id) (schedule-publications db t built.artifact_path u e)
              ∙ found)
            (building-left PublicationStatus.obsolete q _ building refl refl refl refl refl))
          (λ u2 t2 e2. then_quiet _ (Leads-release scope.dataset (withdrawn b p)) (λ n t3 e3.
            then_quiet _
              (end_job-Quiets job.id (ended_job JobStatus.obsolete now) (λ j. refl) (λ j. refl)
                (λ j. refl) (λ j. refl))
              (λ u4 t4 e4.
                then_quiet _ (Leads-save_scope scope.id _ (λ s. refl) (λ s. refl)) (λ u5 t5 e5.
                  then_quiet _ (Leads-log job_obsolete none job.id) (λ u6 t6 e6. quiet_pure _))))))

module _ {db : PublicationDb} (b : Builders) where
  -- `q` is the stored row of the attempt, and `p` the finished one.
  activate_finished-Run :
      (now : ℕ) (scope : Scope) (job : Job) (q p : Publication)
      → scope_at q.scope_state_id db ≡ some scope
      → publication_at q.id db ≡ some q
      → is_building q.status ≡ true
      → p.id ≡ q.id
      → p.artifact_status ≡ ArtifactStatus.ready
      → Leads Run db (
          activate_finished b now scope job
            (linked_publication scope.current_published_publication_id db)
            p)
  unfolding activate_finished
  activate_finished-Run now scope job q p hs hq building same ready = record {
    run =
        (from_bind (retire_previous now scope previous) (λ u t e. Leads-raise_if _ _ _ (λ c.
          from_save_publication p.id (stored previous p) _ (
            Leads-gets _ _ (
              from_save_scope scope.id _ _ (
                from_here
                  (next here (
                    activated scope q (
                      activation_lem db t _ scope q (stored previous p) _
                        (retire_previous_lem now scope previous db t u e) hs hq
                        (rw (is_building-eq q.status building)) (λ x. refl) (λ x. refl) (λ x. refl)
                        (λ x. refl) (λ x h. rw ready) (λ x. refl) (λ x. ap some same)
                        (λ i. update (λ x. x.id == same i) (stored previous p) t.publications) refl
                        refl)))
                  (quietly (finish _ _ _)))))))).run;
  }
    where
      previous : Option Publication
      previous = linked_publication scope.current_published_publication_id db

      stored : Option Publication → Publication → Publication → Publication
      stored o p r = record r {
        build_summary = p.build_summary;
        source_fingerprint = p.source_fingerprint;
        change_summary = p.change_summary;
        artifact_status = p.artifact_status;
        artifact_ready = p.artifact_ready;
        artifact_path = p.artifact_path;
        status = PublicationStatus.published;
        published_at = some now;
        supersedes = publication_id_of o;
      }

      finish :
          {t : PublicationDb} (changed : Bool) (dirty_since : Option ℕ) (j : Job)
          → Leads Quiets t (do
            save_job job.id
                λ i. record (ended_job JobStatus.succeeded now i) { heartbeat_at = some now }
            log PublicationAction.published none p.id
            when changed (follow_up scope.id dirty_since)
            pure j)
      finish changed dirty_since j =
          then_quiet _ (end_job-Quiets job.id _ (λ j. refl) (λ j. refl) (λ j. refl) (λ j. refl))
            (λ v w g. then_quiet _ (Leads-log _ none p.id) (λ x y k.
              then_quiet _ (quiet_when _ (λ h. Leads-follow_up scope.id _))
                (λ z l m. quiet_pure _)))

module _ {db : PublicationDb} (b : Builders) where
  finalize_attempt-Run :
      (fresh : Fresh) (scope : Scope) (job : Job) (built : Built) (p : Publication)
      → scope_at p.scope_state_id db ≡ some scope
      → publication_at p.id db ≡ some p
      → is_building p.status ≡ true
      → IsFresh fresh db
      → Leads Run db (finalize_attempt b fresh scope job built p)
  unfolding finalize_attempt
  finalize_attempt-Run fresh scope job built p hs hp building f = Leads-raise_if _ _ _ (λ h.
      Leads-raise_if _ _ _ (λ g. Leads-gets _ _ (
        Leads-gets _ _ (
          Leads-if
            (is_file_dataset scope.dataset && not (scope.source_revision == p.source_revision))
            (λ e. finalize_stale-Run b fresh scope job built p hp building f)
            (λ e.
              Leads-if
                (is_same_source b scope
                    (linked_publication scope.current_published_publication_id db)
                    (finished b scope built
                      (linked_publication scope.latest_built_publication_id db) p)
                  && not job.allow_clean_rebuild)
                (λ d. quietly (
                  finalize_duplicate-Quiets b fresh.now scope job built
                    (finished b scope built
                      (linked_publication scope.latest_built_publication_id db) p)
                    p hp building refl))
                (λ d.
                  activate_finished-Run b fresh.now scope job p
                    (finished b scope built
                      (linked_publication scope.latest_built_publication_id db) p)
                    hs hp building refl refl))))))

  pub finalize_publication_job-Run :
      (fresh : Fresh) (job_id : ℕ) (built : Built)
      → IsSound db
      → IsFresh fresh db
      → Leads Run db (finalize_publication_job b fresh job_id built)
  unfolding finalize_publication_job finalize_running
  finalize_publication_job-Run fresh job_id built i f = Leads-get_job _ _ (λ job hj.
      Leads-lock_scope _ _ (λ scope hs.
        Leads-if (is_running job.status)
          (λ r.
            Leads-found job.build_publication_id
              (λ pk e. Leads-get_publication pk _ (λ p hp.
                let (q, g, own, _) = (i.linked job_id job hj).attempt pk e in
                let same : p.scope_state_id ≡ job.scope_state_id =
                  ap (λ (x : Publication). x.scope_state_id) (some_inj p q (sym hp ∙ g)) ∙ own in
                Leads-if (is_building p.status)
                  (λ s.
                    finalize_attempt-Run fresh scope job built p
                      (subst (λ n. scope_at n db ≡ some scope) (sym same) hs)
                      (attempt-found db pk p hp) s f)
                  (λ s.
                    quietly (
                      then_quiet _ (Leads-schedule built.artifact_path)
                        (λ u t k. quiet_pure job)))))
              (λ e. quietly (fail_publication_job-Quiets b fresh.now job.id)))
          (λ r.
            quietly (then_quiet _ (Leads-schedule built.artifact_path) (λ u t k. quiet_pure job)))))
