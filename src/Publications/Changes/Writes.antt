-- ===== src/Publications/Changes/Writes.antt =====
-- Which writes of rows are quiet changes.
use fire_dash_server.Prelude.{
  ℕ, ◌≡◌, refl, sym, ap, ◌∙◌, subst, inl, inr, Bool, true, false, arith, Bool-cases, some, List,
  if◌then◌else◌, update, row, Keyed, row-update_back, row-update_forth, Keyed-update,
}
use fire_dash_server.Publications.Models.{
  Scope, Publication, Job, PublicationStatus, JobStatus, is_staged, is_running, is_active_job,
}
use fire_dash_server.Publications.Store.{PublicationDb}
use fire_dash_server.Publications.Changes.{
  scope_key, publication_key, job_key, publication_at, job_at, is_quiet_move, KeptPublication,
  KeptJob, Quiet,
}

is_quiet_move_refl : (s : PublicationStatus) → is_quiet_move s s ≡ true
is_quiet_move_refl PublicationStatus.staged = refl
is_quiet_move_refl PublicationStatus.building = refl
is_quiet_move_refl PublicationStatus.ready_for_review = refl
is_quiet_move_refl PublicationStatus.published = refl
is_quiet_move_refl PublicationStatus.failed = refl
is_quiet_move_refl PublicationStatus.superseded = refl
is_quiet_move_refl PublicationStatus.rejected = refl
is_quiet_move_refl PublicationStatus.obsolete = refl
is_quiet_move_refl PublicationStatus.cancelled = refl

-- What has left STAGED does not return.
pub unstaged_stays :
    (s t : PublicationStatus) → is_quiet_move s t ≡ true → is_staged s ≡ false → is_staged t ≡ false
unstaged_stays PublicationStatus.staged t m h = absurd (ground arith)
unstaged_stays PublicationStatus.building t m h = ground arith
unstaged_stays PublicationStatus.ready_for_review t m h = ground arith
unstaged_stays PublicationStatus.published t m h = ground arith
unstaged_stays PublicationStatus.failed t m h = ground arith
unstaged_stays PublicationStatus.superseded t m h = ground arith
unstaged_stays PublicationStatus.rejected t m h = ground arith
unstaged_stays PublicationStatus.obsolete t m h = ground arith
unstaged_stays PublicationStatus.cancelled t m h = ground arith

pub running-active : (s : JobStatus) → is_running s ≡ true → is_active_job s ≡ true
running-active JobStatus.running h = refl
running-active _ h = cc

pub KeptPublication-refl : (p : Publication) → KeptPublication p p
KeptPublication-refl p = record {
  id = refl;
  scope = refl;
  version = refl;
  status = is_quiet_move_refl p.status;
  artifact = λ h. refl;
}

pub KeptJob-refl : (xs : List Publication) (j : Job) → KeptJob xs xs j j
KeptJob-refl xs j = record { scope = refl; active = λ h. h; linked = λ h. h }

-- A job that is where it was, in all that counts.
pub KeptJob-of :
    (xs : List Publication) (i j : Job)
    → j.scope_state_id ≡ i.scope_state_id
    → j.status ≡ i.status
    → j.build_publication_id ≡ i.build_publication_id
    → KeptJob xs xs i j
KeptJob-of xs i j es et eb = record {
  scope = es;
  active = λ a. rw (← et) a;
  linked = λ l. record {
    attempt = λ k e.
        let (p, g, s, n) = l.attempt k (sym eb ∙ e) in
        (p, g, s ∙ sym es, λ r. n (sym (ap is_running et) ∙ r));
    has_attempt = λ r. let (k, e) = l.has_attempt (sym (ap is_running et) ∙ r) in (k, eb ∙ e);
  };
}

module _ (db db' : PublicationDb) where
  -- Nothing is written to the three tables.
  pub Quiet-same :
      db'.scopes ≡ db.scopes
      → db'.publications ≡ db.publications
      → db'.jobs ≡ db.jobs
      → Quiet db db'
  Quiet-same es ep ej = record {
    scopes_back = λ k t h. inl (t, ap (row scope_key k) (sym es) ∙ h, refl);
    scopes_forth = λ k s h. (s, ap (row scope_key k) es ∙ h, refl);
    publications_back =
        λ k q h. (q, ap (row publication_key k) (sym ep) ∙ h, KeptPublication-refl q);
    publications_forth = λ k p h. (p, ap (row publication_key k) ep ∙ h, KeptPublication-refl p);
    jobs_back = λ k j h. (
      j,
      ap (row job_key k) (sym ej) ∙ h,
      subst (λ xs. KeptJob db.publications xs j j) (sym ep) (KeptJob-refl db.publications j),
    );
    keyed_publications = λ h. subst (Keyed publication_key) (sym ep) h;
    keyed_jobs = λ h. subst (Keyed job_key) (sym ej) h;
  }

  -- A write to the scopes that keeps which publication is current.
  module _ (q : Scope → Bool) (f : Scope → Scope) (keep : (s : Scope) → (f s).id ≡ s.id)
      (kept : (s : Scope)
        → (f s).current_published_publication_id ≡ s.current_published_publication_id) where
    written :
        (s : Scope)
        → (if q s then f s else s).current_published_publication_id
          ≡ s.current_published_publication_id
    written s = elim (Bool-cases (q s)) [ inl e ↦ rw e (kept s) | inr e ↦ rw e ]

    pub Quiet-scopes :
        db'.scopes ≡ update q f db.scopes
        → db'.publications ≡ db.publications
        → db'.jobs ≡ db.jobs
        → Quiet db db'
    Quiet-scopes es ep ej = record {
      scopes_back = λ k t h.
          let (s, e, g) =
            row-update_back scope_key q f keep k db.scopes (ap (row scope_key k) (sym es) ∙ h) in
          inl (s, e, ap (λ (x : Scope). x.current_published_publication_id) g ∙ written s);
      scopes_forth = λ k s h. (
        (if q s then f s else s),
        ap (row scope_key k) es ∙ row-update_forth scope_key q f keep k db.scopes h,
        written s,
      );
      publications_back =
          λ k y h. (y, ap (row publication_key k) (sym ep) ∙ h, KeptPublication-refl y);
      publications_forth = λ k p h. (p, ap (row publication_key k) ep ∙ h, KeptPublication-refl p);
      jobs_back = λ k j h. (
        j,
        ap (row job_key k) (sym ej) ∙ h,
        subst (λ xs. KeptJob db.publications xs j j) (sym ep) (KeptJob-refl db.publications j),
      );
      keyed_publications = λ h. subst (Keyed publication_key) (sym ep) h;
      keyed_jobs = λ h. subst (Keyed job_key) (sym ej) h;
    }

  -- A write to the publications that keeps each as `KeptPublication` says.
  module _ (q : Publication → Bool) (f : Publication → Publication)
      (keep : (p : Publication) → (f p).id ≡ p.id)
      (kept : (k : ℕ) (p : Publication)
        → publication_at k db ≡ some p
        → q p ≡ true
        → KeptPublication p (f p)) where
    written_row :
        (k : ℕ) (p : Publication)
        → publication_at k db ≡ some p
        → KeptPublication p (if q p then f p else p)
    written_row k p h = elim (Bool-cases (q p)) [
      | inl e ↦ rw e (kept k p h e)
      | inr e ↦ rw e (KeptPublication-refl p)
    ]

    pub Quiet-publications :
        db'.scopes ≡ db.scopes
        → db'.publications ≡ update q f db.publications
        → db'.jobs ≡ db.jobs
        → Quiet db db'
    Quiet-publications es ep ej = record {
      scopes_back = λ k t h. inl (t, ap (row scope_key k) (sym es) ∙ h, refl);
      scopes_forth = λ k s h. (s, ap (row scope_key k) es ∙ h, refl);
      publications_back = λ k y h.
          let (p, e, g) =
            row-update_back publication_key q f keep k db.publications
              (ap (row publication_key k) (sym ep) ∙ h) in
          (p, e, subst (KeptPublication p) (sym g) (written_row k p e));
      publications_forth = forth;
      jobs_back = λ k j h. (
        j,
        ap (row job_key k) (sym ej) ∙ h,
        record {
          scope = refl;
          active = λ a. a;
          linked = λ l. record {
            attempt = λ pk e.
                let (p, g, s, n) = l.attempt pk e in
                let (y, g', c) = forth pk p g in
                (y, g', c.scope ∙ s, λ r. unstaged_stays p.status y.status c.status (n r));
            has_attempt = l.has_attempt;
          };
        },
      );
      keyed_publications = λ h.
          subst (Keyed publication_key) (sym ep)
            (Keyed-update publication_key q f keep db.publications h);
      keyed_jobs = λ h. subst (Keyed job_key) (sym ej) h;
    }
      where
        forth :
            (k : ℕ) (p : Publication)
            → publication_at k db ≡ some p
            → (y : Publication) × (publication_at k db' ≡ some y) × KeptPublication p y
        forth k p h = (
          (if q p then f p else p),
          ap (row publication_key k) ep
              ∙ row-update_forth publication_key q f keep k db.publications h,
          written_row k p h,
        )

  module _ (q : Job → Bool) (f : Job → Job) (keep : (j : Job) → (f j).id ≡ j.id)
      (kept : (k : ℕ) (j : Job)
        → job_at k db ≡ some j
        → q j ≡ true
        → KeptJob db.publications db.publications j (f j)) where
    written_job :
        (k : ℕ) (j : Job)
        → job_at k db ≡ some j
        → KeptJob db.publications db.publications j (if q j then f j else j)
    written_job k j h = elim (Bool-cases (q j)) [
      | inl e ↦ rw e (kept k j h e)
      | inr e ↦ rw e (KeptJob-refl db.publications j)
    ]

    pub Quiet-jobs :
        db'.scopes ≡ db.scopes
        → db'.publications ≡ db.publications
        → db'.jobs ≡ update q f db.jobs
        → Quiet db db'
    Quiet-jobs es ep ej = record {
      scopes_back = λ k t h. inl (t, ap (row scope_key k) (sym es) ∙ h, refl);
      scopes_forth = λ k s h. (s, ap (row scope_key k) es ∙ h, refl);
      publications_back =
          λ k y h. (y, ap (row publication_key k) (sym ep) ∙ h, KeptPublication-refl y);
      publications_forth = λ k p h. (p, ap (row publication_key k) ep ∙ h, KeptPublication-refl p);
      jobs_back = λ k y h.
          let (j, e, g) =
            row-update_back job_key q f keep k db.jobs (ap (row job_key k) (sym ej) ∙ h) in
          (
            j,
            e,
            subst (λ xs. KeptJob db.publications xs j y) (sym ep)
                (subst (KeptJob db.publications db.publications j) (sym g) (written_job k j e)),
          );
      keyed_publications = λ h. subst (Keyed publication_key) (sym ep) h;
      keyed_jobs = λ h. subst (Keyed job_key) (sym ej) (Keyed-update job_key q f keep db.jobs h);
    }
