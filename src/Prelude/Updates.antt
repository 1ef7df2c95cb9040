-- ===== src/Prelude/Updates.antt =====
-- Bulk writes that agree, and tests on ordered rows.
use fire_dash_server.Prelude.Tests.{if◌then◌else◌, Bool-cases}
use fire_dash_server.Prelude.Tables.{any, update, All, insert_row, order_by}
use mathlib.Core.Path.{◌≡◌, refl, ap, ◌∙◌}
use mathlib.Core.Logic.{inl, inr}
use mathlib.Core.Bool.{Bool, false, ◌||◌}
use mathlib.Core.List.{List, [], ◌∷◌}
use native.Mathlib.Omega.{arith}

module _ {A : Type 0} where
  -- Writes that agree on every row.
  pub update-agree :
      (p q : A → Bool) (f g : A → A) (xs : List A)
      → All (λ x. (if p x then f x else x) ≡ (if q x then g x else x)) xs
      → update p f xs ≡ update q g xs
  update-agree p q f g [] a = refl
  update-agree p q f g (x ∷ xs) a = rw (a.0, update-agree p q f g xs a.1)

  pub update-none :
      (p : A → Bool) (f : A → A) (xs : List A) → All (λ x. p x ≡ false) xs → update p f xs ≡ xs
  update-none p f [] a = refl
  update-none p f (x ∷ xs) a = rw (a.0, update-none p f xs a.1)

  pub update-update :
      (p q r : A → Bool) (g : A → A)
      → ((x : A)
          → (if q (if p x then g x else x)
              then g (if p x then g x else x)
              else (if p x then g x else x))
            ≡ (if r x then g x else x))
      → (xs : List A) → update q g (update p g xs) ≡ update r g xs
  update-update p q r g h [] = refl
  update-update p q r g h (x ∷ xs) = rw (h x, update-update p q r g h xs)

  any-insert_row :
      (before : A → A → Bool) (p : A → Bool) (x : A) (ys : List A)
      → any p (insert_row before x ys) ≡ (p x || any p ys)
  any-insert_row before p x [] = refl
  any-insert_row before p x (y ∷ ys) = elim (Bool-cases (before y x)) [
    | inl e ↦ let k = any-insert_row before p x ys in rw e (ground arith)
    | inr e ↦ rw e
  ]

  pub any-order_by :
      (before : A → A → Bool) (p : A → Bool) (ys : List A) → any p (order_by before ys) ≡ any p ys
  any-order_by before p [] = refl
  any-order_by before p (y ∷ ys) =
      any-insert_row before p y (order_by before ys) ∙ ap (λ t. p y || t) (any-order_by before p ys)
