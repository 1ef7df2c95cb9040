-- ===== src/Publications/Changes/Activation.antt =====
-- How a service that makes a publication current runs an activation: what was current is retired, and the
-- publication and its scope are written.
use fire_dash_server.Prelude.{
  ℕ, ◌≡◌, sym, ap, ◌∙◌, subst, true, Option, none, some, ok, ◌==◌, arith, ◌>>=◌, row-key, update,
  >>=-eq-ok,
}
use mathlib.Core.Option.{some-injective as some_inj}
use fire_dash_server.Publications.Models.{Scope, Publication, is_published, is_ready_artifact}
use fire_dash_server.Publications.Store.{
  PublicationDb, Lifecycle, linked_publication, save_publication, save_scope,
}
use fire_dash_server.Publications.Finalize.{retire_previous}
use fire_dash_server.Publications.Leads.{Relation, Leads}
use fire_dash_server.Publications.Changes.{
  publication_key, publication_at, scope_at, retire_row, is_activatable, Activated, Run,
}
use fire_dash_server.Publications.Changes.Runs.{Run-trans}

-- The publications after `retire_previous`, and that it leaves the other tables.
pub record Retired (previous : Option Publication) (db t : PublicationDb) : Type 0 where
  pub publications : t.publications ≡ retire_row previous db.publications
  pub scopes : t.scopes ≡ db.scopes
  pub jobs : t.jobs ≡ db.jobs

pub retire_previous_lem :
    (now : ℕ) (scope : Scope) (previous : Option Publication) (db t : PublicationDb) (u : Unit {0})
    → retire_previous now scope previous db ≡ ok (u, t)
    → Retired previous db t
unfolding retire_previous ◌>>=◌
retire_previous_lem now scope none db t u h = record {
  publications = ground arith;
  scopes = ground arith;
  jobs = ground arith;
}
retire_previous_lem now scope (some q) db t u h = record {
  publications = ground arith;
  scopes = ground arith;
  jobs = ground arith;
}

-- The end is one that `db` runs to, wherever the steps start.
abbrev pub From : PublicationDb → Relation
From db t u = Run db u

module _ {db t : PublicationDb} {A : Type 0} where
  pub from_here : {m : Lifecycle A} → Run db t → Leads Run t m → Leads (From db) t m
  from_here r l = record { run = λ a u h. Run-trans db t u r (l.run a u h) }

  pub from_bind :
      {B : Type 0} (m : Lifecycle B) {f : B → Lifecycle A}
      → ((c : B) (u : PublicationDb) → m t ≡ ok (c, u) → Leads (From db) u (f c))
      → Leads (From db) t (m >>= f)
  from_bind m {f} h = record {
    run = λ a u k. let (c, v, e, r) = >>=-eq-ok m f t k in (h c v e).run a u r;
  }

  pub from_save_publication :
      (pk : ℕ) (w : Publication → Publication) (f : Unit {0} → Lifecycle A)
      → Leads
          (From db)
          (record t { publications = update (λ p. p.id == pk) w t.publications })
          (f tt)
      → Leads (From db) t (save_publication pk w >>= f)
  unfolding save_publication ◌>>=◌
  from_save_publication pk w f l = record { run = l.run }

  pub from_save_scope :
      (pk : ℕ) (w : Scope → Scope) (f : Unit {0} → Lifecycle A)
      → Leads (From db) (record t { scopes = update (λ s. s.id == pk) w t.scopes }) (f tt)
      → Leads (From db) t (save_scope pk w >>= f)
  unfolding save_scope ◌>>=◌
  from_save_scope pk w f l = record { run = l.run }

module _ (db : PublicationDb) where
  previous_lem :
      (o : Option ℕ) (k : ℕ) (q : Publication)
      → o ≡ some k
      → publication_at k db ≡ some q
      → linked_publication o db ≡ some q
  previous_lem none k q c h = cc
  previous_lem (some j) k q c h = subst (λ n. publication_at n db ≡ some q) (sym (some_inj j k c)) h

  only_previous_lem :
      (o : Option ℕ) (q : Publication)
      → linked_publication o db ≡ some q
      → (o ≡ some q.id) × (publication_at q.id db ≡ some q)
  only_previous_lem none q h = cc
  only_previous_lem (some k) q h =
      let key : q.id ≡ k = row-key publication_key k db.publications h in
      (ap some (sym key), subst (λ n. publication_at n db ≡ some q) (sym key) h)

  -- The activation, where the retired publication is the current one of the scope.
  pub activation_lem :
      (t u : PublicationDb) (s : Scope) (p : Publication) (w : Publication → Publication)
      (v : Scope → Scope)
      → Retired (linked_publication s.current_published_publication_id db) db t
      → scope_at p.scope_state_id db ≡ some s
      → publication_at p.id db ≡ some p
      → is_activatable p.status ≡ true
      → ((x : Publication) → (w x).id ≡ x.id)
      → ((x : Publication) → (w x).scope_state_id ≡ x.scope_state_id)
      → ((x : Publication) → (w x).version_number ≡ x.version_number)
      → ((x : Publication) → is_published (w x).status ≡ true)
      → ((x : Publication)
          → x.artifact_status ≡ p.artifact_status
          → is_ready_artifact (w x).artifact_status ≡ true)
      → ((x : Scope) → (v x).id ≡ x.id)
      → ((x : Scope) → (v x).current_published_publication_id ≡ some p.id)
      → u.publications ≡ update (λ x. x.id == p.id) w t.publications
      → u.scopes ≡ update (λ x. x.id == s.id) v t.scopes
      → u.jobs ≡ t.jobs
      → Activated db u s p
  activation_lem t u s p w v r hs hp ha ki ks kv pub' ready kk cur ep es ej = record {
    previous = linked_publication s.current_published_publication_id db;
    write = w;
    scope_write = v;
    scope_found = hs;
    found = hp;
    activatable = ha;
    is_previous = λ k c q h n. previous_lem s.current_published_publication_id k q c h;
    only_previous = λ q h. only_previous_lem s.current_published_publication_id q h;
    kept_id = ki;
    kept_scope = ks;
    kept_version = kv;
    published = pub';
    ready = ready;
    kept_key = kk;
    current = cur;
    publications = ep ∙ ap (update (λ x. x.id == p.id) w) r.publications;
    scopes = es ∙ ap (update (λ x. x.id == s.id) v) r.scopes;
    jobs = ej ∙ r.jobs;
  }
