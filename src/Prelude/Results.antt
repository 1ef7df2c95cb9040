-- ===== src/Prelude/Results.antt =====
-- Services that may raise: a result, and a transaction over a state, which an error rolls back.
use mathlib.Core.Path.{◌≡◌, refl}
use mathlib.Core.Bool.{Bool, true, false}
use mathlib.Core.Option.{Option, none, some}
use mathlib.Core.List.{List, [], ◌∷◌}

pub data Result (E A : Type 0) : Type 0 where
  ok : A → Result E A
  err : E → Result E A

-- A service under `transaction.atomic`: its writes are kept only if it returns.
abbrev pub Action : Type 0 → Type 0 → Type 0 → Type 0
Action S E A = S → Result E (A × S)

unfoldable pub pure : {S E A : Type 0} → A → Action S E A
pure a s = ok (a, s)

unfoldable pub raise : {S E A : Type 0} → E → Action S E A
raise e s = err e

-- `if test: raise e`
unfoldable pub raise_if : {S E : Type 0} → Bool → E → Action S E (Unit {0})
raise_if true e s = err e
raise_if false e s = ok (tt, s)

-- `.get(…)`: the row, or the error of its absence.
unfoldable pub or_raise : {S E A : Type 0} → Option A → E → Action S E A
or_raise none e s = err e
or_raise (some a) e s = ok (a, s)

unfoldable pub gets : {S E A : Type 0} → (S → A) → Action S E A
gets f s = ok (f s, s)

unfoldable pub modify : {S E : Type 0} → (S → S) → Action S E (Unit {0})
modify f s = ok (tt, f s)

-- `if row is not None: … else: …`
unfoldable pub if_found :
    {S E A B : Type 0} → Option A → (A → Action S E B) → Action S E B → Action S E B
if_found none f k = k
if_found (some a) f k = f a

-- `if test: …`
unfoldable pub when : {S E : Type 0} → Bool → Action S E (Unit {0}) → Action S E (Unit {0})
unfolding pure
when true m = m
when false m = pure tt

-- Opening this opens the other steps too.
infixl 5 ◌>>=◌ ◌>>◌
unfoldable pub ◌>>=◌ : {S E A B : Type 0} → Action S E A → (A → Action S E B) → Action S E B
unfolding pure raise raise_if or_raise gets modify if_found when
◌>>=◌ m f s = elim (m s) [ ok r ↦ f r.0 r.1 | err e ↦ err e ]

abbrev pub ◌>>◌ : {S E A B : Type 0} → Action S E A → Action S E B → Action S E B
m >> k = m >>= λ _. k

-- `for row in rows: …`
unfoldable pub for_each :
    {S E A : Type 0} → List A → (A → Action S E (Unit {0})) → Action S E (Unit {0})
unfolding ◌>>=◌
for_each [] f = pure tt
for_each (a ∷ rest) f = f a >> for_each rest f

-- A sequence that returned: its first part returned, and then the second did.
pub >>=-eq-ok :
    {S E A B : Type 0} (m : Action S E A) (f : A → Action S E B) (s : S) {b : B} {s' : S}
    → (m >>= f) s ≡ ok (b, s')
    → (a : A) × (t : S) × (m s ≡ ok (a, t)) × (f a t ≡ ok (b, s'))
unfolding ◌>>=◌
>>=-eq-ok {S} {E} {A} {B} m f s {b} {s'} = split (m s) refl
  where
    split :
        (r : Result E (A × S))
        → m s ≡ r
        → (elim r as (λ _. Result E (B × S)) [ ok r ↦ f r.0 r.1 | err e ↦ err e ]) ≡ ok (b, s')
        → (a : A) × (t : S) × (m s ≡ ok (a, t)) × (f a t ≡ ok (b, s'))
    split (ok (a, t)) e h = (a, t, e, h)
    split (err x) e h = cc
