-- ===== src/Publications/Changes/Requests.antt =====
-- The services that ask for a build run changes.
use fire_dash_server.Prelude.{
  ℕ, suc, ◌≡◌, refl, ap, ◌∙◌, true, false, Option, none, some, first, inl, inr, ◌∷◌, ◌⊎◌,
  row-cons_back, row-cons_forth,
}
use fire_dash_server.Tablets.Models.{User}
use fire_dash_server.Publications.Models.{Owner, DatasetType, Scope}
use fire_dash_server.Publications.Registry.{is_file_dataset}
use fire_dash_server.Publications.Store.{PublicationDb, Builders}
use fire_dash_server.Publications.Source.{current_fingerprint, stored_source_fingerprint}
use fire_dash_server.Publications.Queue.{Fresh, is_scope_of}
use fire_dash_server.Publications.Requests.{
  new_scope, get_or_create_scope, data_change, rebuild_intent, mark_dirty, request_rebuild,
  stage_changed, reconcile_files, stage_publication_update,
}
use fire_dash_server.Publications.Leads.{Leads, Leads-if, Leads-found, Leads-gets, Leads-raise_if}
use fire_dash_server.Publications.Changes.{scope_key, scope_at, Quiet, Quiets, Run}
use fire_dash_server.Publications.Changes.Writes.{KeptPublication-refl, KeptJob-refl}
use fire_dash_server.Publications.Changes.Steps.{
  Leads-Quiet, Leads-save_scope, Leads-log, Leads-on_base, then_quiet, quiet_pure, quiet_when,
}
use fire_dash_server.Publications.Changes.Guards.{
  Leads-after_read, require_publication_scope-Reads, validate_scope-Reads,
}
use fire_dash_server.Publications.Changes.Source.{
  current_source_state-Quiets, reconcile_clean_source-Quiets,
}
use fire_dash_server.Publications.Changes.Runs.{
  IsFresh, then_fresh, quietly, then-Run, Run-pure, Run-when,
}
use fire_dash_server.Publications.Changes.Queue.{enqueue_publication_job-Run, Leads-locked_scope}

-- A scope with no publication is added, under a key that is free.
Quiet-scope_added :
    (db : PublicationDb) (s : Scope)
    → scope_at s.id db ≡ none
    → s.current_published_publication_id ≡ none
    → Quiet db (record db { scopes = s ∷ db.scopes })
Quiet-scope_added db s free new = record {
  scopes_back = λ k t h. found k t (row-cons_back scope_key k s db.scopes h);
  scopes_forth = λ k t h. (t, row-cons_forth scope_key k s db.scopes free h, refl);
  publications_back = λ k p h. (p, h, KeptPublication-refl p);
  publications_forth = λ k p h. (p, h, KeptPublication-refl p);
  jobs_back = λ k j h. (j, h, KeptJob-refl db.publications j);
  keyed_publications = λ h. h;
  keyed_jobs = λ h. h;
}
  where
    found :
        (k : ℕ) (t : Scope)
        → ((s.id ≡ k) × (t ≡ s)) ⊎ (scope_at k db ≡ some t)
        → ((x : Scope) × (scope_at k db ≡ some x)
            × (t.current_published_publication_id ≡ x.current_published_publication_id))
          ⊎ (t.current_published_publication_id ≡ none)
    found k t (inl (e, g)) = inr (ap (λ (x : Scope). x.current_published_publication_id) g ∙ new)
    found k t (inr e) = inl (t, e, refl)

get_or_create_scope-Quiets :
    {db : PublicationDb} (pk : ℕ) (owner : Owner) (dataset : DatasetType)
    → scope_at pk db ≡ none
    → Leads Quiets db (get_or_create_scope pk owner dataset)
unfolding get_or_create_scope
get_or_create_scope-Quiets {db} pk owner dataset free = Leads-gets _ _ (
    Leads-found (first (is_scope_of owner dataset) db.scopes) (λ s e. quiet_pure s)
      (λ e.
        then_quiet _ (Leads-Quiet _ (Quiet-scope_added db (new_scope pk owner dataset) free refl))
          (λ u t g. quiet_pure _)))

abbrev marked : Builders → Scope → PublicationDb → Scope
marked b s t = record s {
  current_source_fingerprint = some (stored_source_fingerprint b s (current_fingerprint b s) t);
}

module _ {db : PublicationDb} (b : Builders) where
  pub request_rebuild-Run :
      (fresh : Fresh) (scope_id : ℕ) (actor : User) (owner : Owner) (dataset : DatasetType)
      → IsFresh fresh db
      → scope_at scope_id db ≡ none
      → Leads Run db (request_rebuild b fresh scope_id actor owner dataset)
  unfolding request_rebuild
  request_rebuild-Run fresh scope_id actor owner dataset f free =
      Leads-after_read _ _ (require_publication_scope-Reads actor owner dataset) (λ u h.
        Leads-after_read _ _ (validate_scope-Reads owner dataset) (λ v k.
          then_fresh fresh _ f (get_or_create_scope-Quiets scope_id owner dataset free)
            (λ s t e free2. Leads-gets _ _ (
              Leads-raise_if _ _ _ (λ idle.
                then-Run _
                  (enqueue_publication_job-Run b fresh owner dataset (rebuild_intent actor.id) false
                    free2)
                  (λ o t2 e2. quietly (
                    then_quiet _ (quiet_when _ (λ d. Leads-on_base _)) (λ w t3 e3.
                      then_quiet _ (Leads-log _ _ s.id) (λ x t4 e4. quiet_pure s)))))))))

  pub mark_dirty-Run :
      (fresh : Fresh) (scope_id : ℕ) (actor : Option ℕ) (owner : Owner) (dataset : DatasetType)
      → IsFresh fresh db
      → scope_at scope_id db ≡ none
      → Leads Run db (mark_dirty b fresh scope_id actor owner dataset)
  unfolding mark_dirty
  mark_dirty-Run fresh scope_id actor owner dataset f free =
      Leads-after_read _ _ (validate_scope-Reads owner dataset) (λ v k.
        then_fresh fresh _ f (get_or_create_scope-Quiets scope_id owner dataset free)
          (λ found t e free2.
            then_fresh fresh _ free2
              (current_source_state-Quiets b
                (record found { source_revision = suc found.source_revision }))
              (λ s t2 e2 free3. Leads-gets _ _ (
                Leads-gets _ _ (
                  then_fresh fresh _ free3
                    (quiet_when _ (λ c.
                      then_quiet _ (reconcile_clean_source-Quiets b fresh.now (marked b s t2))
                        (λ r t3 e3. quiet_pure tt)))
                    (λ u4 t4 e4 free4.
                      then_fresh fresh _ free4 (Leads-save_scope s.id _ (λ x. refl) (λ x. refl))
                        (λ u5 t5 e5 free5.
                          then_fresh fresh _ free5 (Leads-log _ _ s.id) (λ u6 t6 e6 free6.
                            then-Run _
                              (Run-when _ (λ d.
                                then-Run _
                                  (enqueue_publication_job-Run b fresh owner dataset
                                    (data_change actor) true free6)
                                  (λ o t7 e7. Run-pure tt)))
                              (λ u8 t8 e8. Run-pure _)))))))))

  reconcile_files-Quiets : (now : ℕ) (scope : Scope) → Leads Quiets db (reconcile_files b now scope)
  unfolding reconcile_files
  reconcile_files-Quiets now scope =
      Leads-if (is_file_dataset scope.dataset)
        (λ h.
          then_quiet _ (current_source_state-Quiets b scope)
            (λ s t e. then_quiet _ (reconcile_clean_source-Quiets b now s) (λ c u g. quiet_pure _)))
        (λ h. quiet_pure _)

  stage_changed-Run :
      (fresh : Fresh) (actor : User) (scope : Scope)
      → IsFresh fresh db
      → Leads Run db (stage_changed b fresh actor scope)
  unfolding stage_changed
  stage_changed-Run fresh actor scope f = Leads-gets _ _ (
      Leads-raise_if _ _ _ (λ d. Leads-gets _ _ (
        Leads-raise_if _ _ _ (λ l.
          then-Run _
            (enqueue_publication_job-Run b fresh scope.owner scope.dataset
              (data_change (some actor.id)) false f)
            (λ o t e. Leads-raise_if _ _ _ (λ n.
              quietly (then_quiet _ (Leads-log _ _ scope.id) (λ u v g. quiet_pure scope))))))))

module _ {db : PublicationDb} (b : Builders) where
  pub stage_publication_update-Run :
      (fresh : Fresh) (actor : User) (owner : Owner) (dataset : DatasetType)
      → IsFresh fresh db
      → Leads Run db (stage_publication_update b fresh actor owner dataset)
  unfolding stage_publication_update
  stage_publication_update-Run fresh actor owner dataset f =
      Leads-after_read _ _ (require_publication_scope-Reads actor owner dataset) (λ u h.
        Leads-after_read _ _ (validate_scope-Reads owner dataset) (λ v k.
          Leads-locked_scope owner dataset _ (λ found g.
            then_fresh fresh _ f (reconcile_files-Quiets b fresh.now found) (λ r t e free.
              Leads-if (r.1) (λ c. Run-pure _) (λ c. stage_changed-Run b fresh actor r.0 free)))))
