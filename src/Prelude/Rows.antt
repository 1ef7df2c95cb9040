-- ===== src/Prelude/Rows.antt =====
-- Tables whose rows have a key: what a row that is found by its key becomes under a write.
use fire_dash_server.Prelude.Tests.{
  ◌==◌, ==_refl, eq_of_==, if◌then◌else◌, Bool-cases, Option-cases,
}
use fire_dash_server.Prelude.Tables.{first, any, update, order_by, insert_row, head, All}
use fire_dash_server.Prelude.TableLaws.{first_sound, first-update, All-map, All-first}
use Prim.Native.Nat.{ℕ}
use mathlib.Core.Path.{◌≡◌, ap, ◌∙◌, sym, subst}
use mathlib.Core.Logic.{◌⊎◌, inl, inr}
use mathlib.Core.Bool.{Bool, false}
use mathlib.Core.Option
use mathlib.Core.Option.{Option, none, some, some-injective as some_inj}
use mathlib.Core.List.{List, [], ◌∷◌}
use native.Mathlib.Omega.{arith}

module _ {ℓ} {A : Type ℓ} where
  pub first-none-All : (p : A → Bool) (xs : List A) → first p xs ≡ none → All (λ x. p x ≡ false) xs
  first-none-All p [] h = tt
  first-none-All p (x ∷ xs) h = elim (Bool-cases (p x)) [
    | inl e ↦ absurd (ground arith)
    | inr e ↦ (e, first-none-All p xs (rw e at h))
  ]

  -- No row that a query finds passes a test that finds none.
  pub first-none-first :
      (p q : A → Bool) (xs : List A) {x : A} → first p xs ≡ none → first q xs ≡ some x → p x ≡ false
  first-none-first p q xs h k = All-first (λ x. p x ≡ false) q xs (first-none-All p xs h) k

  pub any-false-All : (p : A → Bool) (xs : List A) → any p xs ≡ false → All (λ x. p x ≡ false) xs
  any-false-All p [] h = tt
  any-false-All p (x ∷ xs) h = elim (Bool-cases (p x)) [
    | inl e ↦ absurd (ground arith)
    | inr e ↦ (e, any-false-All p xs (rw e at h))
  ]

  pub any-false-first :
      (p q : A → Bool) (xs : List A) {x : A} → any p xs ≡ false → first q xs ≡ some x → p x ≡ false
  any-false-first p q xs h k = All-first (λ x. p x ≡ false) q xs (any-false-All p xs h) k

  pub All-write {κ} :
      (q : A → Bool) (f : A → A) (P : A → Type κ) (xs : List A)
      → All (λ x. P (if q x then f x else x)) xs
      → All P (update q f xs)
  All-write q f P [] a = tt
  All-write q f P (x ∷ xs) a = (a.0, All-write q f P xs a.1)

module _ {ℓ κ} {A : Type ℓ} (P : A → Type κ) (before : A → A → Bool) where
  All-insert_row : (x : A) (xs : List A) → P x → All P xs → All P (insert_row before x xs)
  All-insert_row x [] h a = (h, tt)
  All-insert_row x (y ∷ ys) h a = elim (Bool-cases (before y x)) [
    | inl e ↦ rw e (a.0, All-insert_row x ys h a.1)
    | inr e ↦ rw e (h, a)
  ]

  pub All-order_by : (xs : List A) → All P xs → All P (order_by before xs)
  All-order_by [] a = tt
  All-order_by (x ∷ xs) a = All-insert_row x (order_by before xs) a.0 (All-order_by xs a.1)

pub All-head {ℓ κ} :
    {A : Type ℓ} (P : A → Type κ) (xs : List A) {x : A} → All P xs → head xs ≡ some x → P x
All-head P [] a h = cc
All-head P (y ∷ ys) a h = subst P (some_inj _ _ h) a.0

module _ {A : Type 0} (key : A → ℕ) where
  abbrev pub row : ℕ → List A → Option A
  row k xs = first (λ x. key x == k) xs

  -- Every row of the table is the one that is found by its key.
  abbrev pub Keyed : List A → Type 0
  Keyed xs = All (λ x. row (key x) xs ≡ some x) xs

  pub row-key : (k : ℕ) (xs : List A) {x : A} → row k xs ≡ some x → key x ≡ k
  row-key k xs h = eq_of_== _ _ (first_sound (λ x. key x == k) xs h)

  module _ (q : A → Bool) (f : A → A) (keep : (x : A) → key (f x) ≡ key x) where
    pub row-update :
        (k : ℕ) (xs : List A)
        → row k (update q f xs) ≡ Option.map (λ x. if q x then f x else x) (row k xs)
    row-update k xs = first-update (λ x. key x == k) q f (λ x. ap (λ i. i == k) (keep x)) xs

    -- The row that is found after a write, and what it was.
    pub row-update_back :
        (k : ℕ) (xs : List A) {y : A}
        → row k (update q f xs) ≡ some y
        → (x : A) × (row k xs ≡ some x) × (y ≡ (if q x then f x else x))
    row-update_back k xs {y = y} h = elim (Option-cases (row k xs)) [
      | inl e ↦ absurd (split (sym h ∙ row-update k xs ∙ ap (Option.map _) e))
      | inr (x, e) ↦ (x, e, some_inj _ _ (sym h ∙ row-update k xs ∙ ap (Option.map _) e))
    ]
      where
        split : some y ≡ none → ⊥
        split p = cc

    pub row-update_forth :
        (k : ℕ) (xs : List A) {x : A}
        → row k xs ≡ some x
        → row k (update q f xs) ≡ some (if q x then f x else x)
    row-update_forth k xs h = row-update k xs ∙ ap (Option.map _) h

  pub Keyed-update :
      (q : A → Bool) (f : A → A)
      → ((x : A) → key (f x) ≡ key x)
      → (xs : List A) → Keyed xs
      → Keyed (update q f xs)
  Keyed-update q f keep xs h =
      All-write q f (λ y. row (key y) (update q f xs) ≡ some y) xs
        (All-map (λ x. row (key x) xs ≡ some x)
          (λ x. row (key (if q x then f x else x)) (update q f xs) ≡ some (if q x then f x else x))
          moved xs h)
    where
      moved :
          (x : A)
          → row (key x) xs ≡ some x
          → row (key (if q x then f x else x)) (update q f xs) ≡ some (if q x then f x else x)
      moved x e = elim (Bool-cases (q x)) [
        | inl t ↦ rw t (rw (keep x) (row-update_forth q f keep (key x) xs e ∙ rw t))
        | inr t ↦ rw t (row-update_forth q f keep (key x) xs e ∙ rw t)
      ]

  pub Keyed-cons : (y : A) (xs : List A) → row (key y) xs ≡ none → Keyed xs → Keyed (y ∷ xs)
  Keyed-cons y xs fresh h = (
    rw (==_refl (key y)),
    All-map (λ x. row (key x) xs ≡ some x) (λ x. row (key x) (y ∷ xs) ≡ some x) older xs h,
  )
    where
      older : (x : A) → row (key x) xs ≡ some x → row (key x) (y ∷ xs) ≡ some x
      older x e = elim (Bool-cases (key y == key x)) [
        | inl t ↦ absurd (clash (eq_of_== _ _ t))
        | inr t ↦ rw t e
      ]
        where
          clash : key y ≡ key x → ⊥
          clash p = cc

  -- What a query finds is the row with its key.
  pub first-row :
      (p : A → Bool) (xs : List A) {x : A}
      → Keyed xs
      → first p xs ≡ some x
      → row (key x) xs ≡ some x
  first-row p xs k h = All-first (λ x. row (key x) xs ≡ some x) p xs k h

  -- A row that is found after another one was put in front.
  pub row-cons_back :
      (k : ℕ) (y : A) (xs : List A) {z : A}
      → row k (y ∷ xs) ≡ some z
      → ((key y ≡ k) × (z ≡ y)) ⊎ (row k xs ≡ some z)
  row-cons_back k y xs h = elim (Bool-cases (key y == k)) [
    | inl e ↦ inl (eq_of_== _ _ e, sym (some_inj _ _ (rw e at h)))
    | inr e ↦ inr (rw e at h)
  ]

  pub row-cons_forth :
      (k : ℕ) (y : A) (xs : List A) {z : A}
      → row (key y) xs ≡ none
      → row k xs ≡ some z
      → row k (y ∷ xs) ≡ some z
  row-cons_forth k y xs {z} n h = elim (Bool-cases (key y == k)) [
    | inl e ↦ absurd (clash (eq_of_== _ _ e))
    | inr e ↦ rw e h
  ]
    where
      clash : key y ≡ k → ⊥
      clash p = cc
