-- ===== src/Publications/Changes/Restore.antt =====
-- Going back to an earlier publication, and retiring one, run changes.
use fire_dash_server.Prelude.{ℕ, ◌≡◌, refl, ap, ◌∙◌, true, some, ok, arith, row}
use fire_dash_server.Publications.Models.{Scope, Publication, PublicationStatus, is_superseded}
use fire_dash_server.Publications.Store.{PublicationDb}
use fire_dash_server.Publications.Artifacts.{revoke_publication_dataset_key_grants}
use fire_dash_server.Publications.Restore.{retired, retire_publication}
use fire_dash_server.Publications.Leads.{Leads}
use fire_dash_server.Publications.Changes.{publication_key, publication_at, Quiets}
use fire_dash_server.Publications.Changes.Steps.{
  is_superseded-eq, KeptPublication-move, Leads-save_found, Leads-save_scope, Leads-get_scope,
  Leads-schedule, Leads-release, Leads-revoke, then_quiet, quiet_when,
}

-- A superseded publication that is retired: its row stays.
pub retire_publication-Quiets :
    {db : PublicationDb} (now : ℕ) (scope : Scope) (p : Publication)
    → publication_at p.id db ≡ some p
    → is_superseded p.status ≡ true
    → Leads Quiets db (retire_publication now scope p)
unfolding retire_publication
retire_publication-Quiets {db} now scope p hp old =
    then_quiet _ (Leads-revoke now scope.dataset p.id) (λ u t e.
      then_quiet _
        (Leads-save_found p.id retired (λ x. refl)
          (ap (row publication_key p.id) (revoke-publications db t now scope p u e) ∙ hp)
          (KeptPublication-move PublicationStatus.superseded PublicationStatus.obsolete p
            (retired p) refl refl (is_superseded-eq p.status old) refl refl refl refl))
        (λ v t2 e2. then_quiet _ (Leads-release scope.dataset (retired p)) (λ n t3 e3.
          Leads-get_scope _ _ (λ s h.
            then_quiet _ (quiet_when _ (λ k. Leads-save_scope scope.id _ (λ x. refl) (λ x. refl)))
              (λ w t4 e4. Leads-schedule p.artifact_path)))))
  where
    revoke-publications :
        (db t : PublicationDb) (now : ℕ) (scope : Scope) (p : Publication) (u : Unit {0})
        → revoke_publication_dataset_key_grants now scope.dataset p.id db ≡ ok (u, t)
        → t.publications ≡ db.publications
    revoke-publications db t now scope p u e = ground arith
