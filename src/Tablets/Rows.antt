-- ===== src/Tablets/Rows.antt =====
-- Writes to installations that take none in or out of service: the relation between the rows
-- before and after, and the services that make no other writes.
use fire_dash_server.Prelude.{
  ℕ, ◌≤◌, ◌≡◌, refl, sym, subst, ap, ◌∙◌, inl, inr, Bool, true, false, List, [], ◌∷◌, Option, some,
  arith, ◌==◌, if◌then◌else◌, Bool-cases, update, count, first, All, ok, ◌>>=◌, pure, raise_if,
  gets, >>=-eq-ok,
}
use fire_dash_server.Prelude.TableLaws.{All-map, All-unique}
use fire_dash_server.Tablets.Models.{AppInstallation, is_current, AuditAction}
use fire_dash_server.Tablets.Store.{Db, Service, Error, save_installation, record_event}

-- A row keeps its identity, and is in service as before.
pub record KeptRow (r r' : AppInstallation) : Type 0 where
  pub id : r'.id ≡ r.id
  pub tablet_id : r'.tablet_id ≡ r.tablet_id
  pub installation_uuid : r'.installation_uuid ≡ r.installation_uuid
  pub credential_hash : r'.credential_hash ≡ r.credential_hash
  pub current : is_current r'.status ≡ is_current r.status

abbrev pub Rows : List AppInstallation → List AppInstallation → Type 0
Rows [] [] = Unit
Rows [] (s ∷ ss) = ⊥
Rows (r ∷ rs) [] = ⊥
Rows (r ∷ rs) (s ∷ ss) = KeptRow r s × Rows rs ss

abbrev pub CurrentAt : ℕ → List AppInstallation → Type 0
CurrentAt pk = All (λ r. (r.id == pk) ≡ true → is_current r.status ≡ true)

pub Rows-refl : (rs : List AppInstallation) → Rows rs rs
Rows-refl [] = tt
Rows-refl (r ∷ rs) = (ground arith, Rows-refl rs)

pub Rows-trans : (rs ss ts : List AppInstallation) → Rows rs ss → Rows ss ts → Rows rs ts
Rows-trans [] [] [] h k = tt
Rows-trans [] [] (t ∷ ts) h k = absurd k
Rows-trans [] (s ∷ ss) ts h k = absurd h
Rows-trans (r ∷ rs) [] ts h k = absurd h
Rows-trans (r ∷ rs) (s ∷ ss) [] h k = absurd k
Rows-trans (r ∷ rs) (s ∷ ss) (t ∷ ts) h k = (ground arith, Rows-trans rs ss ts h.1 k.1)

pub Rows-CurrentAt :
    (pk : ℕ) (rs ss : List AppInstallation) → Rows rs ss → CurrentAt pk rs → CurrentAt pk ss
Rows-CurrentAt pk [] [] h c = tt
Rows-CurrentAt pk [] (s ∷ ss) h c = absurd h
Rows-CurrentAt pk (r ∷ rs) [] h c = absurd h
Rows-CurrentAt pk (r ∷ rs) (s ∷ ss) h c =
    (λ e. h.0.current ∙ c.0 (ap (λ n. n == pk) (sym h.0.id) ∙ e), Rows-CurrentAt pk rs ss h.1 c.1)

pub count-Rows :
    (q : AppInstallation → Bool)
    → ((r s : AppInstallation) → KeptRow r s → q s ≡ q r)
    → (rs ss : List AppInstallation) → Rows rs ss
    → count q ss ≡ count q rs
count-Rows q h [] [] k = refl
count-Rows q h [] (s ∷ ss) k = absurd k
count-Rows q h (r ∷ rs) [] k = absurd k
count-Rows q h (r ∷ rs) (s ∷ ss) k = rw (h r s k.0, count-Rows q h rs ss k.1)

pub Rows-update :
    (pk : ℕ) (f : AppInstallation → AppInstallation)
    → ((r : AppInstallation) → is_current r.status ≡ true → KeptRow r (f r))
    → (rs : List AppInstallation) → CurrentAt pk rs
    → Rows rs (update (λ r. r.id == pk) f rs)
Rows-update pk f h [] c = tt
Rows-update pk f h (r ∷ rs) c = elim (Bool-cases (r.id == pk)) [
  | inl e ↦ rw e (h r (c.0 e), Rows-update pk f h rs c.1)
  | inr e ↦ rw e (ground arith, Rows-update pk f h rs c.1)
]

pub CurrentAt-first :
    (pk : ℕ) (rs : List AppInstallation) {r : AppInstallation}
    → count (λ i. i.id == pk) rs ≤ 1
    → first (λ i. i.id == pk) rs ≡ some r
    → is_current r.status ≡ true
    → CurrentAt pk rs
CurrentAt-first pk rs {r = r} c h k =
    All-map (λ x. (x.id == pk) ≡ true → x ≡ r)
      (λ x. (x.id == pk) ≡ true → is_current x.status ≡ true) (λ x e m. rw (e m) k) rs
      (All-unique (λ i. i.id == pk) rs c h)

-- Nothing but the installations and the audit log changes, and those as `Rows` says.
pub record Kept (db db' : Db) : Type 0 where
  pub rows : Rows db.installations db'.installations
  pub others : db' ≡ record db { installations = db'.installations; events = db'.events }

pub record Keeps {A : Type 0} (pk : ℕ) (m : Service A) : Type 0 where
  pub apply :
      (db : Db)
      → CurrentAt pk db.installations
      → (a : A) (db' : Db) → m db ≡ ok (a, db')
      → Kept db db'

pub Kept-refl : (db : Db) → Kept db db
Kept-refl db = record { rows = Rows-refl db.installations; others = refl }

pub Kept-trans : (a b c : Db) → Kept a b → Kept b c → Kept a c
Kept-trans a b c h k = record {
  rows = Rows-trans a.installations b.installations c.installations h.rows k.rows;
  others = kept_others h.others k.others;
}
  where
    kept_others :
        b ≡ record a { installations = b.installations; events = b.events }
        → c ≡ record b { installations = c.installations; events = c.events }
        → c ≡ record a { installations = c.installations; events = c.events }
    kept_others p q = ground arith

module _ {A : Type 0} {pk : ℕ} where
  -- A service that only reads.
  pub Keeps-read :
      (m : Service A) → ((db : Db) (a : A) (db' : Db) → m db ≡ ok (a, db') → db ≡ db') → Keeps pk m
  Keeps-read m same = record {
    apply = λ db c a db' h. subst (Kept db) (same db a db' h) (Kept-refl db);
  }

  pub Keeps-pure : (a : A) → Keeps pk (pure a)
  unfolding pure
  Keeps-pure a = Keeps-read (pure a) (λ db b db' h. cc)

  pub Keeps-gets : (f : Db → A) → Keeps pk (gets f)
  unfolding gets
  Keeps-gets f = Keeps-read (gets f) (λ db b db' h. cc)

  pub Keeps-if :
      (b : Bool) (m k : Service A) → Keeps pk m → Keeps pk k → Keeps pk (if b then m else k)
  Keeps-if true m k p q = p
  Keeps-if false m k p q = q

module _ {A B : Type 0} {pk : ℕ} where
  pub Keeps-bind :
      {m : Service A} {f : A → Service B}
      → Keeps pk m
      → ((a : A) → Keeps pk (f a))
      → Keeps pk (m >>= f)
  Keeps-bind {m} {f} p q = record { apply = both }
    where
      both :
          (db : Db)
          → CurrentAt pk db.installations
          → (b : B) (db' : Db) → (m >>= f) db ≡ ok (b, db')
          → Kept db db'
      both db c b db' h =
          let (a, t, e, k) = >>=-eq-ok m f db h in
          let first_part : Kept db t = p.apply db c a t e in
          Kept-trans db t db' first_part (
            (q a).apply t (Rows-CurrentAt pk db.installations t.installations first_part.rows c) b
              db' k)

pub Keeps-raise_if : {pk : ℕ} (b : Bool) (e : Error) → Keeps pk (raise_if b e)
unfolding raise_if
Keeps-raise_if true e = Keeps-read _ (λ db b db' h. cc)
Keeps-raise_if false e = Keeps-read _ (λ db b db' h. cc)

pub Keeps-save :
    {pk : ℕ} (f : AppInstallation → AppInstallation)
    → ((r : AppInstallation) → is_current r.status ≡ true → KeptRow r (f r))
    → Keeps pk (save_installation pk f)
unfolding save_installation
Keeps-save {pk} f h = record {
  apply = λ db c u db' e.
      let same : record db { installations = update (λ i. i.id == pk) f db.installations } ≡ db' =
        cc in
      subst (Kept db) same (record { rows = Rows-update pk f h db.installations c; others = refl });
}

pub Keeps-record_event :
    {pk : ℕ} (action : AuditAction) (actor : Option ℕ) (target : ℕ)
    → Keeps pk (record_event action actor target)
unfolding record_event
Keeps-record_event action actor target = record {
  apply = λ db c u db' e.
      let same : record db {
        events = record { action = action; actor = actor; target_uuid = target } ∷ db.events;
      }
          ≡ db' =
        cc in
      subst (Kept db) same (record { rows = Rows-refl db.installations; others = refl });
}
