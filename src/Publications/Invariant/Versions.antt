-- ===== src/Publications/Invariant/Versions.antt =====
-- A new attempt keeps what holds between services: its version is the next one of its scope.
use fire_dash_server.Prelude.{
  ℕ, suc, ◌≡◌, sym, ap, ◌∙◌, subst, true, ◌⊎◌, inl, inr, some, List, [], ◌∷◌, ◌≤◌, ◌==◌, arith,
  Bool-cases, row, Keyed, row-cons_back, row-cons_forth, Keyed-cons,
}
use mathlib.Core.Option.{some-injective as some_inj}
use fire_dash_server.Publications.Models.{
  Scope, Publication, PublicationStatus, is_published, is_staged,
}
use fire_dash_server.Publications.Store.{PublicationDb}
use fire_dash_server.Publications.Queue.{latest_version}
use fire_dash_server.Publications.Changes.{
  scope_key, publication_key, job_key, scope_at, publication_at, Added,
}
use fire_dash_server.Publications.Invariant.{IsSound}

-- The latest version of a scope is that of none of its attempts exceeded.
version-le-latest_version :
    (k : ℕ) (ps : List Publication) {q : Publication}
    → row publication_key k ps ≡ some q
    → q.version_number ≤ latest_version q.scope_state_id ps
unfolding latest_version
version-le-latest_version k [] h = cc
version-le-latest_version k (p ∷ ps) {q} h = elim (Bool-cases (p.id == k)) [
  | inl e ↦
      let same : p ≡ q = some_inj p q (rw e at h) in
      subst (λ x. x.version_number ≤ latest_version x.scope_state_id (p ∷ ps)) same (ground arith)
  | inr e ↦ ground (arith, version-le-latest_version k ps (rw e at h))
]

module _ {db db' : PublicationDb} (i : IsSound db) (p : Publication) (a : Added db db' p) where
  Found : ℕ → Publication → Type 0
  Found k q = ((p.id ≡ k) × (q ≡ p)) ⊎ (publication_at k db ≡ some q)

  back : (k : ℕ) (q : Publication) → publication_at k db' ≡ some q → Found k q
  unfolding Found
  back k q e =
      row-cons_back publication_key k p db.publications
        (ap (row publication_key k) (sym a.publications) ∙ e)

  forth : (k : ℕ) (q : Publication) → publication_at k db ≡ some q → publication_at k db' ≡ some q
  forth k q e =
      ap (row publication_key k) a.publications
      ∙ row-cons_forth publication_key k p db.publications a.fresh e

  -- The new version is that of no attempt of the scope.
  new_version :
      (k : ℕ) (q : Publication)
      → publication_at k db ≡ some q
      → p.scope_state_id ≡ q.scope_state_id
      → p.version_number ≡ q.version_number
      → ⊥
  new_version k q e es ev =
      let bound : q.version_number ≤ latest_version p.scope_state_id db.publications =
        subst (λ s. q.version_number ≤ latest_version s db.publications) (sym es)
          (version-le-latest_version k db.publications e) in
      let next : p.version_number ≡ suc (latest_version p.scope_state_id db.publications) =
        a.version in
      omega arith

  versions :
      (k l : ℕ) (q r : Publication)
      → q.scope_state_id ≡ r.scope_state_id
      → q.version_number ≡ r.version_number
      → Found k q
      → Found l r
      → k ≡ l
  unfolding Found
  versions k l q r es ev (inl (ek, jq)) (inl (el, jr)) = sym ek ∙ el
  versions k l q r es ev (inl (ek, jq)) (inr f) = absurd (
      new_version l r f (sym (ap (λ (x : Publication). x.scope_state_id) jq) ∙ es)
        (sym (ap (λ (x : Publication). x.version_number) jq) ∙ ev))
  versions k l q r es ev (inr f) (inl (el, jr)) = absurd (
      new_version k q f (sym (es ∙ ap (λ (x : Publication). x.scope_state_id) jr))
        (sym (ev ∙ ap (λ (x : Publication). x.version_number) jr)))
  versions k l q r es ev (inr f) (inr g) = i.versions k l q r f g es ev

  published :
      (k : ℕ) (q : Publication)
      → is_published q.status ≡ true
      → Found k q
      → (s : Scope) × (scope_at q.scope_state_id db' ≡ some s)
        × (s.current_published_publication_id ≡ some k)
  unfolding Found
  published k q h (inl (e, jq)) =
      absurd (clash p.status a.staged (rw (← ap (λ (x : Publication). x.status) jq) h))
    where
      clash : (s : PublicationStatus) → is_staged s ≡ true → is_published s ≡ true → ⊥
      clash s x y = ground arith
  published k q h (inr f) =
      let (s, g, c) = i.published_is_current k q f h in
      (s, ap (row scope_key q.scope_state_id) a.scopes ∙ g, c)

  pub Added-IsSound : IsSound db'
  Added-IsSound = record {
    one_live = λ k l x y ex ey lx ly e.
        i.one_live k l x y (ap (row job_key k) (sym a.jobs) ∙ ex)
          (ap (row job_key l) (sym a.jobs) ∙ ey) lx ly e;
    linked = λ k j e.
        let l = i.linked k j (ap (row job_key k) (sym a.jobs) ∙ e) in
        record {
          attempt = λ n h. let (q, f, own, out) = l.attempt n h in (q, forth n q f, own, out);
          has_attempt = l.has_attempt;
        };
    published_is_current = λ k q e h. published k q h (back k q e);
    current_is_published = λ k s c e h.
        let (q, f, shown, own, ready) =
          i.current_is_published k s c (ap (row scope_key k) (sym a.scopes) ∙ e) h in
        (q, forth c q f, shown, own, ready);
    versions = λ k l q r eq er es ev. versions k l q r es ev (back k q eq) (back l r er);
    keyed_publications =
        subst (Keyed publication_key) (sym a.publications)
          (Keyed-cons publication_key p db.publications a.fresh i.keyed_publications);
    keyed_jobs = subst (Keyed job_key) (sym a.jobs) i.keyed_jobs;
  }
