-- ===== src/Publications/Changes/Review.antt =====
-- What an administrator does with an attempt runs changes.
use fire_dash_server.Prelude.{
  ℕ, ◌≡◌, refl, sym, subst, true, Option, some, ok, arith, ◌>>=◌, >>=-eq-ok,
}
use fire_dash_server.Tablets.Models.{User}
use fire_dash_server.Publications.Models.{
  Scope, Publication, PublicationStatus, is_ready_for_review, is_ready_artifact,
}
use fire_dash_server.Publications.Store.{PublicationDb, Lifecycle, Builders, linked_publication}
use fire_dash_server.Publications.Source.{cancelled, cancelled_job}
use fire_dash_server.Publications.Finalize.{retire_previous}
use fire_dash_server.Publications.Review.{
  open_attempt, reviewed_as, publish_reviewed, reject_publication, latest_job_of,
  cancel_publication_build, require_publishable, publish_publication,
}
use fire_dash_server.Publications.Leads.{
  Relation, Leads, Leads-gets, Leads-raise_if, Leads-or_raise,
}
use fire_dash_server.Publications.Changes.{
  publication_at, scope_at, activated, Quiets, Run, here, next,
}
use fire_dash_server.Publications.Changes.Writes.{Quiet-same}
use fire_dash_server.Publications.Changes.Steps.{
  is_ready_for_review-eq, KeptPublication-move, Leads-save_found, Leads-log, Leads-schedule,
  Leads-release, Leads-Quiet, then_quiet, quiet_pure,
}
use fire_dash_server.Publications.Changes.Guards.{Leads-after_read, validate_scope-Reads}
use fire_dash_server.Publications.Changes.Opening.{open_attempt_lem, Leads-publishable}
use fire_dash_server.Publications.Changes.Runs.{quietly}
use fire_dash_server.Publications.Changes.Claim.{end_job-Quiets}
use fire_dash_server.Publications.Changes.Build.{building-left, attempt-found}
use fire_dash_server.Publications.Changes.Activation.{
  from_bind, from_here, from_save_publication, from_save_scope, retire_previous_lem, activation_lem,
}

pub Leads-open_attempt :
    {R : Relation} {db : PublicationDb} {A : Type 0} (actor : User) (pk : ℕ)
    (f : Publication × Scope → Lifecycle A)
    → ((p : Publication) (s : Scope)
        → publication_at pk db ≡ some p
        → scope_at p.scope_state_id db ≡ some s
        → Leads R db (f (p, s)))
    → Leads R db (open_attempt actor pk >>= f)
Leads-open_attempt {R} {db} {A} actor pk f h = record {
  run = λ a u k.
      let (r, t, e, g) = >>=-eq-ok (open_attempt actor pk) f db k in
      let o = open_attempt_lem actor pk r.0 r.1 db t e in
      (h r.0 r.1 o.publication o.scope).run a u (subst (λ x. f r x ≡ ok (a, u)) (sym o.same) g);
}

-- The publication that takes the place of the current one.
publish_reviewed-Run :
    {db : PublicationDb} (now : ℕ) (actor : User) (scope : Scope) (p : Publication)
    → scope_at p.scope_state_id db ≡ some scope
    → publication_at p.id db ≡ some p
    → is_ready_for_review p.status ≡ true
    → is_ready_artifact p.artifact_status ≡ true
    → Leads Run db (publish_reviewed now actor scope p)
unfolding publish_reviewed
publish_reviewed-Run {db} now actor scope p hs hp waits ready = Leads-gets _ _ (record {
  run =
      (from_bind (retire_previous now scope previous) (λ u t e.
        from_save_publication p.id (reviewed_as now actor.id previous) _ (
          from_save_scope scope.id _ _ (
            from_here
              (next here (
                activated scope p (
                  activation_lem db t _ scope p (reviewed_as now actor.id previous) _
                    (retire_previous_lem now scope previous db t u e) hs hp
                    (rw (is_ready_for_review-eq p.status waits)) (λ x. refl) (λ x. refl) (λ x. refl)
                    (λ x. refl) (λ x h. rw h ready) (λ x. refl) (λ x. refl) refl refl refl)))
              (quietly (
                then_quiet _ (Leads-Quiet _ (Quiet-same _ _ refl refl refl))
                  (λ v w g. then_quiet _ (Leads-log _ _ p.id) (λ x y k. quiet_pure _)))))))).run;
})
  where
    previous : Option Publication
    previous = linked_publication scope.current_published_publication_id db

pub publish_publication-Run :
    {db : PublicationDb} (b : Builders) (now : ℕ) (actor : User) (pk : ℕ)
    → Leads Run db (publish_publication b now actor pk)
unfolding publish_publication require_publishable
publish_publication-Run {db} b now actor pk = Leads-open_attempt actor pk _ (λ p scope hp hs.
    Leads-publishable b scope p _ (λ waits ready.
      publish_reviewed-Run now actor scope p hs (attempt-found db pk p hp) waits ready))

pub reject_publication-Quiets :
    {db : PublicationDb} (actor : User) (pk : ℕ) → Leads Quiets db (reject_publication actor pk)
unfolding reject_publication
reject_publication-Quiets {db} actor pk = Leads-open_attempt actor pk _ (λ p scope hp hs.
    Leads-raise_if _ _ _ (λ h.
      Leads-after_read _ _ (validate_scope-Reads scope.owner scope.dataset) (λ u k.
        then_quiet _
          (Leads-save_found pk _ (λ x. refl) hp
            (KeptPublication-move PublicationStatus.ready_for_review PublicationStatus.rejected p _
              refl refl (is_ready_for_review-eq p.status (ground arith)) refl refl refl refl))
          (λ v w g. then_quiet _ (Leads-log _ _ pk) (λ x y l. quiet_pure _)))))

pub cancel_publication_build-Quiets :
    {db : PublicationDb} (now : ℕ) (actor : User) (pk : ℕ)
    → Leads Quiets db (cancel_publication_build now actor pk)
unfolding cancel_publication_build
cancel_publication_build-Quiets {db} now actor pk = Leads-open_attempt actor pk _ (λ p scope hp hs.
    Leads-gets _ _ (
      Leads-or_raise (latest_job_of pk db) _ _ (λ job e. Leads-raise_if _ _ _ (λ h.
        Leads-raise_if _ _ _ (λ g.
          then_quiet _
            (Leads-save_found pk cancelled (λ x. refl) hp
              (building-left PublicationStatus.cancelled p (cancelled p) (ground arith) refl refl
                refl refl refl))
            (λ u t k. then_quiet _ (Leads-release scope.dataset (cancelled p)) (λ n t2 k2.
              then_quiet _
                (end_job-Quiets job.id (cancelled_job now) (λ j. refl) (λ j. refl) (λ j. refl)
                  (λ j. refl))
                (λ v t3 k3.
                  then_quiet _ (Leads-schedule p.artifact_path)
                    (λ v4 t4 k4. then_quiet _ (Leads-log _ _ pk) (λ x y l. quiet_pure _))))))))))
