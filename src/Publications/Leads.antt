-- ===== src/Publications/Leads.antt =====
-- How a statement about each service is put together: `Leads R db m` says that the service `m`, where it
-- returns, takes `db` to a database that `R` relates to it. The rules follow the steps of a service.
use fire_dash_server.Prelude.{
  ◌≡◌, refl, subst, Bool, true, false, if◌then◌else◌, Option, none, some, ok, List, [], ◌∷◌, arith,
  pure, raise, raise_if, or_raise, gets, when, if_found, for_each, ◌>>=◌, >>=-eq-ok,
}
use fire_dash_server.Publications.Store.{PublicationDb, Lifecycle, PublicationError}

abbrev pub Relation : Type 1
Relation = PublicationDb → PublicationDb → Type 0

pub record Leads {A : Type 0} (R : Relation) (db : PublicationDb) (m : Lifecycle A) : Type 0 where
  pub run : (a : A) (db' : PublicationDb) → m db ≡ ok (a, db') → R db db'

-- What one relation leads to, a weaker one does too.
pub Leads-weaken :
    {A : Type 0} {R S : Relation} {db : PublicationDb} {m : Lifecycle A}
    → ((t u : PublicationDb) → R t u → S t u)
    → Leads R db m
    → Leads S db m
Leads-weaken h l = record { run = λ a db' e. h _ _ (l.run a db' e) }

pub Leads-cast :
    {A : Type 0} {R : Relation} {db : PublicationDb} {m k : Lifecycle A}
    → m db ≡ k db
    → Leads R db k
    → Leads R db m
Leads-cast e l = record { run = λ a db' h. l.run a db' (cc) }

module _ {R : Relation} (R_refl : (t : PublicationDb) → R t t) where
  module _ {A : Type 0} {db : PublicationDb} where
    -- A service that only reads.
    pub Leads-read :
        (m : Lifecycle A)
        → ((a : A) (db' : PublicationDb) → m db ≡ ok (a, db') → db ≡ db')
        → Leads R db m
    Leads-read m same = record { run = λ a db' h. subst (λ t. R db t) (same a db' h) (R_refl db) }

    pub Leads-pure : (a : A) → Leads R db (pure a)
    unfolding pure
    Leads-pure a = Leads-read (pure a) (λ b db' h. cc)

    pub Leads-raise : (e : PublicationError) → Leads R db (raise {A = A} e)
    unfolding raise
    Leads-raise e = Leads-read (raise e) (λ b db' h. cc)

  pub Leads-when :
      {db : PublicationDb} (t : Bool) {m : Lifecycle (Unit {0})}
      → (t ≡ true → Leads R db m)
      → Leads R db (when t m)
  unfolding when
  Leads-when true h = h refl
  Leads-when false h = Leads-pure tt

module _ {R : Relation} {A : Type 0} {db : PublicationDb} where
  pub Leads-if :
      (t : Bool) {m k : Lifecycle A}
      → (t ≡ true → Leads R db m)
      → (t ≡ false → Leads R db k)
      → Leads R db (if t then m else k)
  Leads-if true h k = h refl
  Leads-if false h k = k refl

  pub Leads-found :
      {B : Type 0} (o : Option B) {f : B → Lifecycle A} {k : Lifecycle A}
      → ((b : B) → o ≡ some b → Leads R db (f b))
      → (o ≡ none → Leads R db k)
      → Leads R db (if_found o f k)
  unfolding if_found
  Leads-found none h k = k refl
  Leads-found (some b) h k = h b refl

  -- The reads, each with what it has read.
  pub Leads-gets :
      {B : Type 0} (g : PublicationDb → B) (f : B → Lifecycle A)
      → Leads R db (f (g db))
      → Leads R db (gets g >>= f)
  unfolding ◌>>=◌
  Leads-gets g f h = record { run = h.run }

  pub Leads-raise_if :
      (t : Bool) (e : PublicationError) (f : Unit {0} → Lifecycle A)
      → (t ≡ false → Leads R db (f tt))
      → Leads R db (raise_if t e >>= f)
  unfolding ◌>>=◌
  Leads-raise_if true e f h = record { run = λ a db' k. absurd (ground arith) }
  Leads-raise_if false e f h = record { run = (h refl).run }

  pub Leads-or_raise :
      {B : Type 0} (o : Option B) (e : PublicationError) (f : B → Lifecycle A)
      → ((b : B) → o ≡ some b → Leads R db (f b))
      → Leads R db (or_raise o e >>= f)
  unfolding ◌>>=◌
  Leads-or_raise none e f h = record { run = λ a db' k. absurd (ground arith) }
  Leads-or_raise (some b) e f h = record { run = (h b refl).run }

module _ {R : Relation} (R_trans : (t u v : PublicationDb) → R t u → R u v → R t v) where
  module _ {A B : Type 0} {db : PublicationDb} where
    pub Leads-bind :
        (m : Lifecycle A) {f : A → Lifecycle B}
        → Leads R db m
        → ((a : A) (t : PublicationDb) → m db ≡ ok (a, t) → Leads R t (f a))
        → Leads R db (m >>= f)
    Leads-bind m {f} l h = record { run = both }
      where
        both : (b : B) (db' : PublicationDb) → (m >>= f) db ≡ ok (b, db') → R db db'
        both b db' k =
            let (a, t, e, r) = >>=-eq-ok m f db k in
            R_trans db t db' (l.run a t e) ((h a t e).run b db' r)

  pub Leads-for_each :
      (R_refl : (t : PublicationDb) → R t t) {A : Type 0} (xs : List A)
      {f : A → Lifecycle (Unit {0})}
      → ((a : A) (t : PublicationDb) → Leads R t (f a))
      → (db : PublicationDb) → Leads R db (for_each xs f)
  unfolding for_each
  Leads-for_each R_refl [] h db = Leads-pure R_refl tt
  Leads-for_each R_refl (x ∷ xs) {f} h db =
      Leads-bind (f x) (h x db) (λ u t e. Leads-for_each R_refl xs h t)
