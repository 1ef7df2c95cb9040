-- ===== src/Publications/Invariant/Activation.antt =====
-- An activation keeps what holds between services: the publication that was current is superseded.
use fire_dash_server.Prelude.{
  ℕ, ◌≡◌, refl, sym, ap, ◌∙◌, subst, true, false, inl, inr, Option, none, some, List, ◌==◌, ==_refl,
  eq_of_==, if◌then◌else◌, arith, Bool-cases, row, Keyed, row-key, row-update_back,
  row-update_forth, Keyed-update,
}
use mathlib.Core.Option.{some-injective as some_inj}
use fire_dash_server.Publications.Models.{
  Scope, Publication, PublicationStatus, is_staged, is_published, is_ready_artifact,
}
use fire_dash_server.Publications.Store.{PublicationDb}
use fire_dash_server.Publications.Build.{superseded}
use fire_dash_server.Publications.Changes.{
  scope_key, publication_key, job_key, scope_at, publication_at, retire_row, Activated,
}
use fire_dash_server.Publications.Invariant.{IsSound}

-- A row after `retire_row`.
abbrev retire_one : Option Publication → Publication → Publication
retire_one none x = x
retire_one (some q) x = if x.id == q.id then superseded x else x

retire_one_kept :
    (o : Option Publication) (x : Publication)
    → ((retire_one o x).id ≡ x.id)
      × ((retire_one o x).scope_state_id ≡ x.scope_state_id)
      × ((retire_one o x).version_number ≡ x.version_number)
      × ((retire_one o x).artifact_status ≡ x.artifact_status)
retire_one_kept none x = (refl, refl, refl, refl)
retire_one_kept (some q) x = (ground arith, ground arith, ground arith, ground arith)

-- A row that is still published after it was not retired.
retire_one_published :
    (o : Option Publication) (x : Publication)
    → is_published (retire_one o x).status ≡ true
    → (is_published x.status ≡ true)
      × (retire_one o x ≡ x)
      × ((q : Publication) → o ≡ some q → (x.id == q.id) ≡ false)
retire_one_published none x h = (h, refl, λ q e. cc)
retire_one_published (some r) x h = elim (Bool-cases (x.id == r.id)) [
  | inl e ↦ absurd (clash (rw e at h))
  | inr e ↦ (rw e at h, rw e, λ q g. subst (λ y. (x.id == y.id) ≡ false) (some_inj r q g) e)
]
  where
    clash : false ≡ true → ⊥
    clash p = cc

retire_row_back :
    (o : Option Publication) (k : ℕ) (xs : List Publication) {y : Publication}
    → row publication_key k (retire_row o xs) ≡ some y
    → (x : Publication) × (row publication_key k xs ≡ some x) × (y ≡ retire_one o x)
retire_row_back none k xs {y} h = (y, h, refl)
retire_row_back (some q) k xs h = row-update_back publication_key _ superseded (λ x. refl) k xs h

retire_row_forth :
    (o : Option Publication) (k : ℕ) (xs : List Publication) {x : Publication}
    → row publication_key k xs ≡ some x
    → row publication_key k (retire_row o xs) ≡ some (retire_one o x)
retire_row_forth none k xs h = h
retire_row_forth (some q) k xs h = row-update_forth publication_key _ superseded (λ x. refl) k xs h

retire_row-Keyed :
    (o : Option Publication) (xs : List Publication)
    → Keyed publication_key xs
    → Keyed publication_key (retire_row o xs)
retire_row-Keyed none xs h = h
retire_row-Keyed (some q) xs h = Keyed-update publication_key _ superseded (λ x. refl) xs h

retire_one_unstaged :
    (o : Option Publication) (x : Publication)
    → is_staged x.status ≡ false
    → is_staged (retire_one o x).status ≡ false
retire_one_unstaged none x h = h
retire_one_unstaged (some q) x h = ground arith

published_unstaged : (s : PublicationStatus) → is_published s ≡ true → is_staged s ≡ false
published_unstaged PublicationStatus.published h = refl
published_unstaged _ h = cc

module _ {db db' : PublicationDb} (i : IsSound db) (s : Scope) (p : Publication)
    (a : Activated db db' s p) where
  -- A row after the activation.
  settle : Publication → Publication
  settle x =
      if (retire_one a.previous x).id == p.id
      then a.write (retire_one a.previous x)
      else retire_one a.previous x

  settle_kept :
      (x : Publication)
      → ((settle x).scope_state_id ≡ x.scope_state_id)
        × ((settle x).version_number ≡ x.version_number)
  unfolding settle
  settle_kept x =
      let (ei, es, ev, ea) = retire_one_kept a.previous x in
      elim (Bool-cases ((retire_one a.previous x).id == p.id)) [
        | inl e ↦ rw e (a.kept_scope _ ∙ es, a.kept_version _ ∙ ev)
        | inr e ↦ rw e (es, ev)
      ]

  settle_unstaged :
      (x : Publication) → is_staged x.status ≡ false → is_staged (settle x).status ≡ false
  unfolding settle
  settle_unstaged x h = elim (Bool-cases ((retire_one a.previous x).id == p.id)) [
    | inl e ↦ rw e (published_unstaged (a.write _).status (a.published _))
    | inr e ↦ rw e (retire_one_unstaged a.previous x h)
  ]

  settle_other : (x : Publication) → (x.id == p.id) ≡ false → settle x ≡ retire_one a.previous x
  unfolding settle
  settle_other x h = rw (ap (λ n. n == p.id) (retire_one_kept a.previous x).0 ∙ h)

  settle_target :
      (x : Publication) → (x.id == p.id) ≡ true → settle x ≡ a.write (retire_one a.previous x)
  unfolding settle
  settle_target x h = rw (ap (λ n. n == p.id) (retire_one_kept a.previous x).0 ∙ h)

  back :
      (k : ℕ) (y : Publication)
      → publication_at k db' ≡ some y
      → (x : Publication) × (publication_at k db ≡ some x) × (y ≡ settle x)
  unfolding settle
  back k y h =
      let (r, e, g) =
        row-update_back publication_key (λ x. x.id == p.id) a.write a.kept_id k
          (retire_row a.previous db.publications)
          (ap (row publication_key k) (sym a.publications) ∙ h) in
      let (x, e', g') = retire_row_back a.previous k db.publications e in
      (x, e', g ∙ ap (λ z. if z.id == p.id then a.write z else z) g')

  forth :
      (k : ℕ) (x : Publication)
      → publication_at k db ≡ some x
      → publication_at k db' ≡ some (settle x)
  unfolding settle
  forth k x h =
      ap (row publication_key k) a.publications
      ∙ row-update_forth publication_key (λ x. x.id == p.id) a.write a.kept_id k
          (retire_row a.previous db.publications) (retire_row_forth a.previous k db.publications h)

  scope_back :
      (k : ℕ) (t : Scope)
      → scope_at k db' ≡ some t
      → (x : Scope) × (scope_at k db ≡ some x) × (t ≡ (if x.id == s.id then a.scope_write x else x))
  scope_back k t h =
      row-update_back scope_key (λ x. x.id == s.id) a.scope_write a.kept_key k db.scopes
        (ap (row scope_key k) (sym a.scopes) ∙ h)

  scope_forth :
      (k : ℕ) (x : Scope)
      → scope_at k db ≡ some x
      → scope_at k db' ≡ some (if x.id == s.id then a.scope_write x else x)
  scope_forth k x h =
      ap (row scope_key k) a.scopes
      ∙ row-update_forth scope_key (λ x. x.id == s.id) a.scope_write a.kept_key k db.scopes h

  own_key : s.id ≡ p.scope_state_id
  own_key = row-key scope_key p.scope_state_id db.scopes a.scope_found

  -- A scope is `s` where it has its key.
  same_scope : (k : ℕ) (x : Scope) → scope_at k db ≡ some x → (x.id == s.id) ≡ true → x ≡ s
  same_scope k x h e =
      let key : k ≡ p.scope_state_id =
        sym (row-key scope_key k db.scopes h) ∙ eq_of_== x.id s.id e ∙ own_key in
      some_inj x s (sym h ∙ ap (λ n. scope_at n db) key ∙ a.scope_found)

  abbrev IsCurrentIn : ℕ → ℕ → Type 0
  IsCurrentIn n k =
      (t : Scope) × (scope_at n db' ≡ some t) × (t.current_published_publication_id ≡ some k)

  target : (k : ℕ) → k ≡ p.id → IsCurrentIn p.scope_state_id k
  target k e = (
    a.scope_write s,
    scope_forth p.scope_state_id s a.scope_found ∙ rw (==_refl s.id),
    a.current s ∙ ap some (sym e),
  )

  -- A publication other than the target that is still published.
  remaining :
      (k : ℕ) (x : Publication)
      → publication_at k db ≡ some x
      → (x.id == p.id) ≡ false
      → is_published (retire_one a.previous x).status ≡ true
      → IsCurrentIn x.scope_state_id k
  remaining k x e other h =
      let (shown, same, unretired) = retire_one_published a.previous x h in
      let (t, f, c) = i.published_is_current k x e shown in
      elim (Bool-cases (t.id == s.id)) [
        | inl m ↦ absurd (retired t f c m unretired)
        | inr m ↦ (t, scope_forth x.scope_state_id t f ∙ rw m, c)
      ]
    where
      key : x.id ≡ k
      key = row-key publication_key k db.publications e

      retired :
          (t : Scope)
          → scope_at x.scope_state_id db ≡ some t
          → t.current_published_publication_id ≡ some k
          → (t.id == s.id) ≡ true
          → ((q : Publication) → a.previous ≡ some q → (x.id == q.id) ≡ false)
          → ⊥
      retired t f c m unretired =
          let is_s : t ≡ s = same_scope x.scope_state_id t f m in
          let known : a.previous ≡ some x =
            a.is_previous k (ap (λ (y : Scope). y.current_published_publication_id) (sym is_s) ∙ c)
              x e (subst (λ n. (n == p.id) ≡ false) key other) in
          let clash : (x.id == x.id) ≡ false = unretired x known in cc (==_refl x.id)

  published :
      (k : ℕ) (y x : Publication)
      → publication_at k db ≡ some x
      → y ≡ settle x
      → is_published y.status ≡ true
      → IsCurrentIn y.scope_state_id k
  published k y x e g h =
      subst (λ n. IsCurrentIn n k)
        (sym (ap (λ (z : Publication). z.scope_state_id) g ∙ (settle_kept x).0))
        (elim (Bool-cases (x.id == p.id)) [
          | inl m ↦ at_target m
          | inr m ↦
              remaining k x e m (subst (λ z. is_published z.status ≡ true) (g ∙ settle_other x m) h)
        ])
    where
      at_target : (x.id == p.id) ≡ true → IsCurrentIn x.scope_state_id k
      at_target m =
          let key : k ≡ p.id =
            sym (row-key publication_key k db.publications e) ∙ eq_of_== x.id p.id m in
          let same : p ≡ x =
            some_inj p x (sym a.found ∙ ap (λ n. publication_at n db) (sym key) ∙ e) in
          subst (λ z. IsCurrentIn z.scope_state_id k) same (target k key)

  abbrev IsShownBy : ℕ → ℕ → Type 0
  IsShownBy k c =
      (q : Publication) × (publication_at c db' ≡ some q)
      × (is_published q.status ≡ true)
      × (q.scope_state_id ≡ k)
      × (is_ready_artifact q.artifact_status ≡ true)

  -- The target, as the publication that is now shown.
  shown_target : (k c : ℕ) → k ≡ p.scope_state_id → c ≡ p.id → IsShownBy k c
  shown_target k c ek ec =
      let g : settle p ≡ a.write (retire_one a.previous p) = settle_target p (==_refl p.id) in
      (
        settle p,
        ap (λ n. publication_at n db') ec ∙ forth p.id p a.found,
        subst (λ z. is_published z.status ≡ true) (sym g) (a.published _),
        (settle_kept p).0 ∙ sym ek,
        subst (λ z. is_ready_artifact z.artifact_status ≡ true) (sym g)
            (a.ready _ (retire_one_kept a.previous p).3),
      )

  -- In another scope all is as it was.
  shown_before :
      (k c : ℕ) (x : Scope)
      → scope_at k db ≡ some x
      → (x.id == s.id) ≡ false
      → x.current_published_publication_id ≡ some c
      → IsShownBy k c
  shown_before k c x e other h =
      let (q, f, shown, own, ready) = i.current_is_published k x c e h in
      let same : settle q ≡ q = kept q f own in (q, forth c q f ∙ ap some same, shown, own, ready)
    where
      key : x.id ≡ k
      key = row-key scope_key k db.scopes e

      -- A publication of this scope is neither the target nor the one that it replaces.
      apart : (z : Publication) → z.scope_state_id ≡ s.id → z.scope_state_id ≡ k → ⊥
      apart z hz hk =
          let m : x.id ≡ s.id = key ∙ sym hk ∙ hz in
          let n : (s.id == s.id) ≡ false = subst (λ j. (j == s.id) ≡ false) m other in
          cc (==_refl s.id)

      kept : (q : Publication) → publication_at c db ≡ some q → q.scope_state_id ≡ k → settle q ≡ q
      kept q f own = elim (Bool-cases (q.id == p.id)) [
        | inl m ↦ absurd (apart q (hit m) own)
        | inr m ↦ settle_other q m ∙ unretired a.previous refl
      ]
        where
          at_key :
              (z : Publication) → publication_at z.id db ≡ some z → (q.id == z.id) ≡ true → q ≡ z
          at_key z g m =
              let same : c ≡ z.id =
                sym (row-key publication_key c db.publications f) ∙ eq_of_== q.id z.id m in
              some_inj q z (sym f ∙ ap (λ n. publication_at n db) same ∙ g)

          hit : (q.id == p.id) ≡ true → q.scope_state_id ≡ s.id
          hit m = ap (λ (z : Publication). z.scope_state_id) (at_key p a.found m) ∙ sym own_key

          retired_own :
              (r : Publication)
              → a.previous ≡ some r
              → (q.id == r.id) ≡ true
              → q.scope_state_id ≡ s.id
          retired_own r g m =
              let (now, here) = a.only_previous r g in
              let (z, f', shown, own', ready) =
                i.current_is_published s.id s r.id (ap (λ n. scope_at n db) own_key ∙ a.scope_found)
                  now in
              ap (λ (y : Publication). y.scope_state_id)
                (at_key r here m ∙ some_inj r z (sym here ∙ f'))
              ∙ own'

          unretired : (o : Option Publication) → a.previous ≡ o → retire_one o q ≡ q
          unretired none g = refl
          unretired (some r) g = elim (Bool-cases (q.id == r.id)) [
            | inr m ↦ rw m
            | inl m ↦ absurd (apart q (retired_own r g m) own)
          ]

  shown :
      (k c : ℕ) (t : Scope)
      → scope_at k db' ≡ some t
      → t.current_published_publication_id ≡ some c
      → IsShownBy k c
  shown k c t e h =
      let (x, f, g) = scope_back k t e in
      elim (Bool-cases (x.id == s.id)) [
        | inl m ↦
            shown_target k c
              (sym (row-key scope_key k db.scopes f) ∙ eq_of_== x.id s.id m ∙ own_key)
              (some_inj c p.id (sym h ∙ ap current (written x t g m) ∙ a.current x))
        | inr m ↦ shown_before k c x f m (ap current (sym (unwritten x t g m)) ∙ h)
      ]
    where
      current : Scope → Option ℕ
      current y = y.current_published_publication_id

      written :
          (x y : Scope)
          → y ≡ (if x.id == s.id then a.scope_write x else x)
          → (x.id == s.id) ≡ true
          → y ≡ a.scope_write x
      written x y g m = rw m at g

      unwritten :
          (x y : Scope)
          → y ≡ (if x.id == s.id then a.scope_write x else x)
          → (x.id == s.id) ≡ false
          → y ≡ x
      unwritten x y g m = rw m at g

  pub Activated-IsSound : IsSound db'
  Activated-IsSound = record {
    one_live = λ k l x y ex ey lx ly e.
        i.one_live k l x y (ap (row job_key k) (sym a.jobs) ∙ ex)
          (ap (row job_key l) (sym a.jobs) ∙ ey) lx ly e;
    linked = λ k j e.
        let l = i.linked k j (ap (row job_key k) (sym a.jobs) ∙ e) in
        record {
          attempt = λ n h.
              let (q, f, own, out) = l.attempt n h in
              (settle q, forth n q f, (settle_kept q).0 ∙ own, λ r. settle_unstaged q (out r));
          has_attempt = l.has_attempt;
        };
    published_is_current = λ k y e h. let (x, f, g) = back k y e in published k y x f g h;
    current_is_published = λ k t c e h. shown k c t e h;
    versions = λ k l y z ey ez es ev.
        let (y', fy, gy) = back k y ey in
        let (z', fz, gz) = back l z ez in
        i.versions k l y' z' fy fz (sym (own_of y y' gy) ∙ es ∙ own_of z z' gz)
          (sym (version_of y y' gy) ∙ ev ∙ version_of z z' gz);
    keyed_publications = subst (Keyed publication_key) (sym a.publications) (
        Keyed-update publication_key (λ x. x.id == p.id) a.write a.kept_id
          (retire_row a.previous db.publications)
          (retire_row-Keyed a.previous db.publications i.keyed_publications));
    keyed_jobs = subst (Keyed job_key) (sym a.jobs) i.keyed_jobs;
  }
    where
      own_of : (y x : Publication) → y ≡ settle x → y.scope_state_id ≡ x.scope_state_id
      own_of y x g = ap (λ (z : Publication). z.scope_state_id) g ∙ (settle_kept x).0

      version_of : (y x : Publication) → y ≡ settle x → y.version_number ≡ x.version_number
      version_of y x g = ap (λ (z : Publication). z.version_number) g ∙ (settle_kept x).1
