-- ===== src/Prelude/TableLaws.antt =====
-- Laws of the queries and bulk writes on tables.
use fire_dash_server.Prelude.Tests.{◌==◌, ==_refl, if◌then◌else◌, Bool-cases}
use fire_dash_server.Prelude.Tables.{length, first, any, select, count, update, All}
use Prim.Native.Nat.{ℕ, suc, ◌≤◌}
use mathlib.Core.Path.{◌≡◌, refl, ap, subst}
use mathlib.Core.Logic.{inl, inr}
use mathlib.Core.Bool.{Bool, true, false}
use mathlib.Core.Option
use mathlib.Core.Option.{Option, none, some, some-injective as some_inj}
use mathlib.Core.List.{List, [], ◌∷◌}
use native.Mathlib.Omega.{arith}

module _ {ℓ} {A : Type ℓ} where
  -- The row that a query finds satisfies its test.
  pub first_sound : (p : A → Bool) (xs : List A) {x : A} → first p xs ≡ some x → p x ≡ true
  first_sound p [] h = cc
  first_sound p (y ∷ xs) {x = x} h = elim (Bool-cases (p y)) [
    | inl e ↦ ground arith
    | inr e ↦ first_sound p xs (rw e at h)
  ]

  -- A bulk write that keeps a test's value, seen through that test.
  pub first-update :
      (p q : A → Bool) (f : A → A)
      → ((x : A) → p (f x) ≡ p x)
      → (xs : List A)
      → first p (update q f xs) ≡ Option.map (λ x. if q x then f x else x) (first p xs)
  first-update p q f keep [] = refl
  first-update p q f keep (x ∷ xs) = elim (Bool-cases (q x)) [
    | inl e ↦ elim (Bool-cases (p x)) [
      | inl k ↦ rw (e, keep x, k) (rw e)
      | inr k ↦ rw (e, keep x, k) (first-update p q f keep xs)
    ]
    | inr e ↦ elim (Bool-cases (p x)) [
      | inl k ↦ rw (e, k) (rw e)
      | inr k ↦ rw (e, k) (first-update p q f keep xs)
    ]
  ]

  pub count-update_le :
      (q p : A → Bool) (f : A → A)
      → ((x : A) → p x ≡ true → q (f x) ≡ true → q x ≡ true)
      → (xs : List A) → count q (update p f xs) ≤ count q xs
  count-update_le q p f h [] = omega arith
  count-update_le q p f h (x ∷ xs) = elim (Bool-cases (p x)) [
    | inl e ↦ rw e (ground (arith, count-update_le q p f h xs, h x))
    | inr e ↦ rw e (ground (arith, count-update_le q p f h xs))
  ]

  -- A write that takes every row that passes `q` out of `q`.
  pub count-update_none :
      (q p : A → Bool) (f : A → A)
      → ((x : A) → q x ≡ true → p x ≡ true)
      → ((x : A) → p x ≡ true → q (f x) ≡ false)
      → (xs : List A) → count q (update p f xs) ≡ 0
  count-update_none q p f h k [] = refl
  count-update_none q p f h k (x ∷ xs) = elim (Bool-cases (p x)) [
    | inl e ↦ rw (e, k x e) (count-update_none q p f h k xs)
    | inr e ↦ rw e (ground (arith, count-update_none q p f h k xs, h x))
  ]

module _ {ℓ κ} {A : Type ℓ} (P : A → Type κ) where
  pub All-first : (p : A → Bool) (xs : List A) {x : A} → All P xs → first p xs ≡ some x → P x
  All-first p [] a h = cc
  All-first p (y ∷ xs) {x = x} a h = elim (Bool-cases (p y)) [
    | inl e ↦ subst P (some_inj _ _ (rw e at h)) a.0
    | inr e ↦ All-first p xs a.1 (rw e at h)
  ]

  pub All-update :
      (p : A → Bool) (f : A → A)
      → ((x : A) → p x ≡ true → P x → P (f x))
      → (xs : List A) → All P xs
      → All P (update p f xs)
  All-update p f h [] a = tt
  All-update p f h (x ∷ xs) a = elim (Bool-cases (p x)) [
    | inl e ↦ rw e (h x e a.0, All-update p f h xs a.1)
    | inr e ↦ rw e (a.0, All-update p f h xs a.1)
  ]

  pub All-select : (p : A → Bool) (xs : List A) → All P xs → All P (select p xs)
  All-select p [] a = tt
  All-select p (x ∷ xs) a = elim (Bool-cases (p x)) [
    | inl e ↦ rw e (a.0, All-select p xs a.1)
    | inr e ↦ rw e (All-select p xs a.1)
  ]

  pub All-map {ι} : (Q : A → Type ι) → ((x : A) → P x → Q x) → (xs : List A) → All P xs → All Q xs
  All-map Q h [] a = tt
  All-map Q h (x ∷ xs) a = (h x a.0, All-map Q h xs a.1)

module _ {ℓ} {A : Type ℓ} where
  pub All-of {κ} : (P : A → Type κ) → ((x : A) → P x) → (xs : List A) → All P xs
  All-of P h [] = tt
  All-of P h (x ∷ xs) = (h x, All-of P h xs)

  pub All-count_none : (p : A → Bool) (xs : List A) → count p xs ≡ 0 → All (λ x. p x ≡ false) xs
  All-count_none p [] h = tt
  All-count_none p (x ∷ xs) h = elim (Bool-cases (p x)) [
    | inl e ↦ absurd (omega (arith, rw e at h))
    | inr e ↦ (e, All-count_none p xs (rw e at h))
  ]

  -- Where a test passes for one row at most, every row that passes is the one that is found.
  pub All-unique :
      (p : A → Bool) (xs : List A) {r : A}
      → count p xs ≤ 1
      → first p xs ≡ some r
      → All (λ x. p x ≡ true → x ≡ r) xs
  All-unique p [] c h = tt
  All-unique p (x ∷ xs) {r = r} c h = elim (Bool-cases (p x)) [
    | inl e ↦ (
      λ _. some_inj _ _ (rw e at h),
      All-map (λ y. p y ≡ false) (λ y. p y ≡ true → y ≡ r) (λ y n m. cc) xs
          (All-count_none p xs (omega (arith, rw e at c))),
    )
    | inr e ↦ (λ m. cc, All-unique p xs (rw e at c) (rw e at h))
  ]

  pub count-update_same :
      (q p : A → Bool) (f : A → A)
      → ((x : A) → q (f x) ≡ q x)
      → (xs : List A) → count q (update p f xs) ≡ count q xs
  count-update_same q p f h [] = refl
  count-update_same q p f h (x ∷ xs) = elim (Bool-cases (p x)) [
    | inl e ↦ rw (e, h x, count-update_same q p f h xs)
    | inr e ↦ rw (e, count-update_same q p f h xs)
  ]

module _ {ℓ κ ι} {A : Type ℓ} (P : A → Type κ) (Q : A → Type ι) where
  pub All-both : (xs : List A) → All P xs → All Q xs → All (λ x. P x × Q x) xs
  All-both [] h k = tt
  All-both (x ∷ xs) h k = ((h.0, k.0), All-both xs h.1 k.1)

module _ {ℓ} {A : Type ℓ} where
  pub All-selected : (p : A → Bool) (xs : List A) → All (λ x. p x ≡ true) (select p xs)
  All-selected p [] = tt
  All-selected p (x ∷ xs) = elim (Bool-cases (p x)) [
    | inl e ↦ rw e (e, All-selected p xs)
    | inr e ↦ rw e (All-selected p xs)
  ]

  pub count_none-All : (p : A → Bool) (xs : List A) → All (λ x. p x ≡ false) xs → count p xs ≡ 0
  count_none-All p [] h = refl
  count_none-All p (x ∷ xs) h = rw h.0 (count_none-All p xs h.1)

  -- Each row that passes a test has its key among the keys of the rows that pass it.
  pub any-select :
      (key : A → ℕ) (p : A → Bool) (xs : List A)
      → All (λ x. p x ≡ true → any (λ i. key i == key x) (select p xs) ≡ true) xs
  any-select key p [] = tt
  any-select key p (x ∷ xs) = (
    λ m. rw (m, ==_refl (key x)),
    All-map (λ y. p y ≡ true → any (λ i. key i == key y) (select p xs) ≡ true)
        (λ y. p y ≡ true → any (λ i. key i == key y) (select p (x ∷ xs)) ≡ true)
        (λ y h m. elim (Bool-cases (p x)) [
          | inl e ↦ rw e (ground (arith, h m))
          | inr e ↦ rw e (h m)
        ])
        xs (any-select key p xs),
  )

  -- What passes `q` after a write passed `r` before.
  pub count-update_to :
      (q r p : A → Bool) (f : A → A)
      → ((x : A) → p x ≡ true → q (f x) ≡ true → r x ≡ true)
      → ((x : A) → p x ≡ false → q x ≡ true → r x ≡ true)
      → (xs : List A) → count q (update p f xs) ≤ count r xs
  count-update_to q r p f h k [] = omega arith
  count-update_to q r p f h k (x ∷ xs) = elim (Bool-cases (p x)) [
    | inl e ↦ rw e (ground (arith, count-update_to q r p f h k xs, h x))
    | inr e ↦ rw e (ground (arith, count-update_to q r p f h k xs, k x))
  ]

  pub count_never : (q : A → Bool) → ((x : A) → q x ≡ false) → (xs : List A) → count q xs ≡ 0
  count_never q h [] = refl
  count_never q h (x ∷ xs) = rw (h x) (count_never q h xs)

  pub count_same :
      (p q : A → Bool) → ((x : A) → p x ≡ q x) → (xs : List A) → count p xs ≡ count q xs
  count_same p q h [] = refl
  count_same p q h (x ∷ xs) = rw (h x, count_same p q h xs)

  -- A write that keeps a property of the rows that it changes, each as it stands.
  pub All-update_at {κ} :
      (P : A → Type κ) (p : A → Bool) (f : A → A) (xs : List A)
      → All (λ x. p x ≡ true → P x → P (f x)) xs
      → All P xs
      → All P (update p f xs)
  All-update_at P p f [] h a = tt
  All-update_at P p f (x ∷ xs) h a = elim (Bool-cases (p x)) [
    | inl e ↦ rw e (h.0 e a.0, All-update_at P p f xs h.1 a.1)
    | inr e ↦ rw e (a.0, All-update_at P p f xs h.1 a.1)
  ]

  pub length-select : (p : A → Bool) (xs : List A) → length (select p xs) ≡ count p xs
  length-select p [] = refl
  length-select p (x ∷ xs) = elim (Bool-cases (p x)) [
    | inl e ↦ rw e (ap suc (length-select p xs))
    | inr e ↦ rw e (length-select p xs)
  ]

  pub first_counted : (p : A → Bool) (xs : List A) {x : A} → first p xs ≡ some x → 1 ≤ count p xs
  first_counted p [] h = cc
  first_counted p (y ∷ xs) h = elim (Bool-cases (p y)) [
    | inl e ↦ rw e (omega arith)
    | inr e ↦ rw e (first_counted p xs (rw e at h))
  ]
