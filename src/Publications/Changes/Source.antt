-- ===== src/Publications/Changes/Source.antt =====
-- The comparison of a source runs quiet changes.
use fire_dash_server.Prelude.{ℕ, ◌≡◌, refl, true, false, some, ok, arith, ◌>>=◌, select}
use fire_dash_server.Publications.Models.{Scope, Publication, Job, PublicationStatus, is_staged}
use fire_dash_server.Publications.Store.{PublicationDb, Builders}
use fire_dash_server.Publications.Leads.{
  Leads, Leads-if, Leads-found, Leads-gets, Leads-raise_if, Leads-bind, Leads-when, Leads-pure,
  Leads-for_each, Leads-weaken,
}
use fire_dash_server.Publications.Source.{
  cancelled, cancelled_job, cancel_pending, is_unlinked, is_redundant, cancel_redundant_pending,
  current_source_state, current_fingerprint, store_fingerprint, scope_is_dirty,
  reconcile_clean_source,
}
use fire_dash_server.Publications.Changes.{KeptPublication, Quiets}
use fire_dash_server.Publications.Changes.Writes.{Quiet-publications}
use fire_dash_server.Publications.Changes.Steps.{
  Quiets-refl, Quiets-trans, ScopesOnly, ScopesOnly-refl, ScopesOnly-trans, Leads-only_scope,
  Leads-get_publication, Leads-save_found, Leads-save_job, Leads-save_scope, Leads-Quiet,
  KeptPublication-move, is_staged-eq, then_quiet, quiet_pure, quiet_when,
}

pub staged-cancelled :
    (p : Publication) → is_staged p.status ≡ true → KeptPublication p (cancelled p)
staged-cancelled p h =
    KeptPublication-move PublicationStatus.staged PublicationStatus.cancelled p (cancelled p) refl
      refl (is_staged-eq p.status h) refl refl refl refl

module _ {db : PublicationDb} (now : ℕ) where
  cancel_pending-Quiets : (j : Job) → Leads Quiets db (cancel_pending now j)
  unfolding cancel_pending
  cancel_pending-Quiets j =
      then_quiet _
        (Leads-found _
          (λ pk e. Leads-get_publication pk _ (λ p h.
            quiet_when _ (λ s. Leads-save_found pk cancelled (λ x. refl) h (staged-cancelled p s))))
          (λ e. quiet_pure tt))
        (λ u t e.
          Leads-save_job j.id (cancelled_job now) (λ i. refl)
            (λ i g. record {
              scope = refl;
              active = λ a. cc;
              linked = λ l. record {
                attempt = λ k h. let (p, f, s, n) = l.attempt k h in (p, f, s, λ r. cc);
                has_attempt = λ r. cc;
              };
            }))

module _ {db : PublicationDb} (now : ℕ) where
  cancel_redundant_pending-Quiets :
      (scope_id : ℕ) → Leads Quiets db (cancel_redundant_pending now scope_id)
  unfolding cancel_redundant_pending
  cancel_redundant_pending-Quiets scope_id = Leads-gets _ _ (
      then_quiet _
        (Leads-for_each Quiets-trans Quiets-refl (select (is_redundant scope_id) db.jobs)
          (λ j t. cancel_pending-Quiets now j) db)
        (λ u t e. Leads-Quiet _ (
          Quiet-publications t _ (is_unlinked scope_id t) cancelled (λ x. refl)
            (λ k p h s. staged-cancelled p (ground arith)) refl refl refl)))

module _ {db : PublicationDb} (b : Builders) where
  pub current_source_state-ScopesOnly : (s : Scope) → Leads ScopesOnly db (current_source_state b s)
  unfolding current_source_state
  current_source_state-ScopesOnly s = Leads-raise_if _ _ _ (λ e.
      Leads-bind ScopesOnly-trans _
        (Leads-when ScopesOnly-refl _ (λ h. Leads-only_scope s.id _ (λ x. refl) (λ x. refl)))
        (λ u t g. Leads-pure ScopesOnly-refl _))

  pub store_fingerprint-ScopesOnly : (s : Scope) → Leads ScopesOnly db (store_fingerprint b s)
  unfolding store_fingerprint
  store_fingerprint-ScopesOnly s = Leads-gets _ _ (
      Leads-bind ScopesOnly-trans _
        (Leads-when ScopesOnly-refl _ (λ h. Leads-only_scope s.id _ (λ x. refl) (λ x. refl)))
        (λ u t g. Leads-pure ScopesOnly-refl _))

  pub current_source_state-Quiets : (s : Scope) → Leads Quiets db (current_source_state b s)
  current_source_state-Quiets s =
      Leads-weaken (λ t u h. h.quiet) (current_source_state-ScopesOnly s)

  pub store_fingerprint-Quiets : (s : Scope) → Leads Quiets db (store_fingerprint b s)
  store_fingerprint-Quiets s = Leads-weaken (λ t u h. h.quiet) (store_fingerprint-ScopesOnly s)

  pub reconcile_clean_source-Quiets :
      (now : ℕ) (s : Scope) → Leads Quiets db (reconcile_clean_source b now s)
  unfolding reconcile_clean_source
  reconcile_clean_source-Quiets now s = Leads-gets _ _ (
      Leads-if (scope_is_dirty b s (some (current_fingerprint b s)) db) (λ d. quiet_pure false)
        (λ d. Leads-gets _ _ (
          then_quiet _ (quiet_when _ (λ h. Leads-save_scope s.id _ (λ x. refl) (λ x. refl)))
            (λ u t e.
              then_quiet _ (cancel_redundant_pending-Quiets now s.id) (λ v w g. quiet_pure true)))))

  -- A source that has changed is left as it is.
  pub reconcile_clean_source-false :
      (now : ℕ) (s : Scope) {t : PublicationDb}
      → reconcile_clean_source b now s db ≡ ok (false, t)
      → t ≡ db
  unfolding reconcile_clean_source ◌>>=◌
  reconcile_clean_source-false now s h = ground arith
