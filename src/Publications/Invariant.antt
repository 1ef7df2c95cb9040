-- ===== src/Publications/Invariant.antt =====
-- What holds of the scopes, publications and jobs between services, and that each change of
-- `Publications.Changes` keeps it.
pub mod Versions
pub mod Activation
pub mod Runs
use fire_dash_server.Prelude.{
  ℕ, suc, ◌≡◌, refl, sym, ap, ◌∙◌, subst, Bool, true, false, ◌⊎◌, inl, inr, Option, none, some,
  List, [], ◌∷◌, ◌≤◌, ◌==◌, arith, Bool-cases, row, Keyed, row-key, row-cons_back, row-cons_forth,
  Keyed-cons, first-none-first, eq_of_==,
}
use fire_dash_server.Publications.Models.{
  Scope, Publication, Job, PublicationStatus, JobStatus, is_pending, is_running, is_published,
  is_active_job, is_ready_artifact, is_staged,
}
use fire_dash_server.Publications.Store.{PublicationDb}
use fire_dash_server.Publications.Queue.{latest_version, is_live_of}
use fire_dash_server.Publications.Changes.{
  scope_key, publication_key, job_key, scope_at, publication_at, job_at, is_quiet_move, IsLinked,
  Quiet, Queued,
}

pub record IsSound (db : PublicationDb) : Type 0 where
  -- A scope has one pending or running job at most.
  pub one_live :
      (i j : ℕ) (a b : Job)
      → job_at i db ≡ some a
      → job_at j db ≡ some b
      → is_active_job a.status ≡ true
      → is_active_job b.status ≡ true
      → a.scope_state_id ≡ b.scope_state_id
      → i ≡ j
  pub linked : (k : ℕ) (j : Job) → job_at k db ≡ some j → IsLinked db.publications j
  -- Only the current publication of a scope is published.
  pub published_is_current :
      (k : ℕ) (p : Publication)
      → publication_at k db ≡ some p
      → is_published p.status ≡ true
      → (s : Scope) × (scope_at p.scope_state_id db ≡ some s)
        × (s.current_published_publication_id ≡ some k)
  -- The current publication is a published one of its scope, with a ready artifact.
  pub current_is_published :
      (k : ℕ) (s : Scope) (c : ℕ)
      → scope_at k db ≡ some s
      → s.current_published_publication_id ≡ some c
      → (p : Publication) × (publication_at c db ≡ some p)
        × (is_published p.status ≡ true)
        × (p.scope_state_id ≡ k)
        × (is_ready_artifact p.artifact_status ≡ true)
  -- No two attempts of a scope have the same version.
  pub versions :
      (i j : ℕ) (p q : Publication)
      → publication_at i db ≡ some p
      → publication_at j db ≡ some q
      → p.scope_state_id ≡ q.scope_state_id
      → p.version_number ≡ q.version_number
      → i ≡ j
  pub keyed_publications : Keyed publication_key db.publications
  pub keyed_jobs : Keyed job_key db.jobs

quiet_published :
    (s t : PublicationStatus) → is_quiet_move s t ≡ true → is_published t ≡ is_published s
quiet_published PublicationStatus.staged t h = ground arith
quiet_published PublicationStatus.building t h = ground arith
quiet_published PublicationStatus.ready_for_review t h = ground arith
quiet_published PublicationStatus.published t h = h
quiet_published PublicationStatus.failed t h = ground arith
quiet_published PublicationStatus.superseded t h = ground arith
quiet_published PublicationStatus.rejected t h = ground arith
quiet_published PublicationStatus.obsolete t h = ground arith
quiet_published PublicationStatus.cancelled t h = ground arith

waiting : (s : JobStatus) → is_pending s ≡ true → is_running s ≡ true → ⊥
waiting s p r = ground arith

none-ne-some : {A : Type 0} {a : A} → none ≡ some a → ⊥
none-ne-some h = cc

module _ {db db' : PublicationDb} (i : IsSound db) where
  pub Quiet-IsSound : Quiet db db' → IsSound db'
  Quiet-IsSound q = record {
    one_live = λ k l a b ea eb la lb e.
        let (a', fa, ka) = q.jobs_back k a ea in
        let (b', fb, kb) = q.jobs_back l b eb in
        i.one_live k l a' b' fa fb (ka.active la) (kb.active lb) (sym ka.scope ∙ e ∙ kb.scope);
    linked = λ k j e. let (j', f, kj) = q.jobs_back k j e in kj.linked (i.linked k j' f);
    published_is_current = λ k p e h.
        let (p', f, kp) = q.publications_back k p e in
        let (s, g, c) =
          i.published_is_current k p' f (sym (quiet_published p'.status p.status kp.status) ∙ h) in
        let (t, g', c') = q.scopes_forth p'.scope_state_id s g in
        (t, subst (λ n. scope_at n db' ≡ some t) (sym kp.scope) g', c' ∙ c);
    current_is_published = λ k t c e h. current k t c h (q.scopes_back k t e);
    versions = λ k l p r ep er es ev.
        let (p', fp, kp) = q.publications_back k p ep in
        let (r', fr, kr) = q.publications_back l r er in
        i.versions k l p' r' fp fr (sym kp.scope ∙ es ∙ kr.scope)
          (sym kp.version ∙ ev ∙ kr.version);
    keyed_publications = q.keyed_publications i.keyed_publications;
    keyed_jobs = q.keyed_jobs i.keyed_jobs;
  }
    where
      current :
          (k : ℕ) (t : Scope) (c : ℕ)
          → t.current_published_publication_id ≡ some c
          → ((s : Scope) × (scope_at k db ≡ some s)
              × (t.current_published_publication_id ≡ s.current_published_publication_id))
            ⊎ (t.current_published_publication_id ≡ none)
          → (p : Publication) × (publication_at c db' ≡ some p)
            × (is_published p.status ≡ true)
            × (p.scope_state_id ≡ k)
            × (is_ready_artifact p.artifact_status ≡ true)
      current k t c h (inr n) = absurd (none-ne-some (sym n ∙ h))
      current k t c h (inl (s, e, same)) =
          let (p, f, pub', own, ready) = i.current_is_published k s c e (sym same ∙ h) in
          let (p', f', kp) = q.publications_forth c p f in
          (
            p',
            f',
            quiet_published p.status p'.status kp.status ∙ pub',
            kp.scope ∙ own,
            subst (λ a. is_ready_artifact a ≡ true) (sym (kp.artifact pub')) ready,
          )

  pub Queued-IsSound : (j : Job) → Queued db db' j → IsSound db'
  Queued-IsSound j q = record {
    one_live = λ k l a b ea eb la lb e. one k l a b la lb e (back k a ea) (back l b eb);
    linked = λ k a e. linked k a (back k a e);
    published_is_current = λ k p e h.
        let (s, g, c) =
          i.published_is_current k p (ap (row publication_key k) (sym q.publications) ∙ e) h in
        (s, ap (row scope_key p.scope_state_id) q.scopes ∙ g, c);
    current_is_published = λ k s c e h.
        let (p, f, shown, own, ready) =
          i.current_is_published k s c (ap (row scope_key k) (sym q.scopes) ∙ e) h in
        (p, ap (row publication_key c) q.publications ∙ f, shown, own, ready);
    versions = λ k l p r ep er es ev.
        i.versions k l p r (ap (row publication_key k) (sym q.publications) ∙ ep)
          (ap (row publication_key l) (sym q.publications) ∙ er) es ev;
    keyed_publications = subst (Keyed publication_key) (sym q.publications) i.keyed_publications;
    keyed_jobs =
        subst (Keyed job_key) (sym q.jobs) (Keyed-cons job_key j db.jobs q.fresh i.keyed_jobs);
  }
    where
      Found : ℕ → Job → Type 0
      Found k a = ((j.id ≡ k) × (a ≡ j)) ⊎ (job_at k db ≡ some a)

      back :
          (k : ℕ) (a : Job)
          → job_at k db' ≡ some a
          → ((j.id ≡ k) × (a ≡ j)) ⊎ (job_at k db ≡ some a)
      back k a e = row-cons_back job_key k j db.jobs (ap (row job_key k) (sym q.jobs) ∙ e)

      idle :
          (k : ℕ) (a : Job)
          → job_at k db ≡ some a
          → is_active_job a.status ≡ true
          → a.scope_state_id ≡ j.scope_state_id
          → ⊥
      idle k a e l same =
          let no : is_live_of j.scope_state_id a ≡ false = first-none-first _ _ db.jobs q.idle e in
          ground arith

      one :
          (k l : ℕ) (a b : Job)
          → is_active_job a.status ≡ true
          → is_active_job b.status ≡ true
          → a.scope_state_id ≡ b.scope_state_id
          → ((j.id ≡ k) × (a ≡ j)) ⊎ (job_at k db ≡ some a)
          → ((j.id ≡ l) × (b ≡ j)) ⊎ (job_at l db ≡ some b)
          → k ≡ l
      one k l a b la lb e (inl (ea, ja)) (inl (eb, jb)) = sym ea ∙ eb
      one k l a b la lb e (inl (ea, ja)) (inr fb) =
          absurd (idle l b fb lb (sym e ∙ ap (λ (x : Job). x.scope_state_id) ja))
      one k l a b la lb e (inr fa) (inl (eb, jb)) =
          absurd (idle k a fa la (e ∙ ap (λ (x : Job). x.scope_state_id) jb))
      one k l a b la lb e (inr fa) (inr fb) = i.one_live k l a b fa fb la lb e

      linked :
          (k : ℕ) (a : Job)
          → ((j.id ≡ k) × (a ≡ j)) ⊎ (job_at k db ≡ some a)
          → IsLinked db'.publications a
      linked k a (inl (e, ja)) = record {
        attempt = λ n h.
            absurd (
              none-ne-some
                (sym q.unlinked ∙ sym (ap (λ (x : Job). x.build_publication_id) ja) ∙ h));
        has_attempt = λ r.
            absurd (waiting j.status q.waits (sym (ap (λ (x : Job). is_running x.status) ja) ∙ r));
      }
      linked k a (inr f) = subst (λ xs. IsLinked xs a) (sym q.publications) (i.linked k a f)
