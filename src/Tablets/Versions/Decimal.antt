-- ===== src/Tablets/Versions/Decimal.antt =====
-- `str(n)` and `int(text)` for natural numbers, and that the second undoes the first.
use fire_dash_server.Prelude.{
  ℕ, zero, suc, ◌+◌, ◌-◌, ◌*◌, ◌/◌, ◌%◌, ◌<◌, ◌≡◌, refl, ◌∙◌, Bool, true, false, ◌&&◌, [], ◌∷◌,
  arith, ltb, leb, ◌==◌, if◌then◌else◌, ap, inl, inr, Bool-cases,
}
use fire_dash_server.Tablets.Models.{Text}

-- `str(n)` before the digits `acc`, with fuel.
str_from : ℕ → ℕ → Text → Text
str_from zero n acc = acc
str_from (suc fuel) n acc =
    let rest = str_from fuel (n / 10) ((b'0' + n % 10) ∷ acc) in
    if ltb n 10 then (b'0' + n) ∷ acc else rest

unfoldable pub str : ℕ → Text
unfolding str_from
str n = str_from (suc n) n []

-- `int(text)` of ASCII digits, after the value `acc` of those before.
unfoldable pub int_from : ℕ → Text → ℕ
int_from acc [] = acc
int_from acc (c ∷ cs) = int_from (acc * 10 + (c - b'0')) cs

unfoldable pub int : Text → ℕ
unfolding int_from
int text = int_from 0 text

-- `[0-9]`
abbrev pub is_digit : ℕ → Bool
is_digit c = leb b'0' c && leb c b'9'

-- `0|[1-9][0-9]*`
abbrev pub all_digits : Text → Bool
all_digits [] = true
all_digits (c ∷ cs) = is_digit c && all_digits cs

unfoldable pub is_numeral : Text → Bool
is_numeral [] = false
is_numeral (c ∷ cs) =
    if c == b'0' then elim cs [ [] ↦ true | _ ∷ _ ↦ false ] else is_digit c && all_digits cs

-- Any digits that stand before the text are read first.
int_from-str_from :
    (fuel n : ℕ) (acc : Text) → n < fuel → int_from 0 (str_from fuel n acc) ≡ int_from n acc
unfolding str_from int_from
int_from-str_from zero n acc h = absurd (omega arith)
int_from-str_from (suc fuel) n acc h = elim (Bool-cases (ltb n 10)) [
  | inl small ↦ rw small (ap (λ k. int_from k acc) (omega arith))
  | inr large ↦ rw large (
      int_from-str_from fuel (n / 10) ((b'0' + n % 10) ∷ acc) (ground arith)
      ∙ ap (λ k. int_from k acc) (omega arith))
]

pub int-str : (n : ℕ) → int (str n) ≡ n
unfolding int str int_from
int-str n = int_from-str_from (suc n) n [] (omega arith)

all_digits-str_from :
    (fuel n : ℕ) (acc : Text) → all_digits acc ≡ true → all_digits (str_from fuel n acc) ≡ true
unfolding str_from
all_digits-str_from zero n acc h = h
all_digits-str_from (suc fuel) n acc h = elim (Bool-cases (ltb n 10)) [
  | inl small ↦ rw small (ground arith)
  | inr large ↦ rw large (all_digits-str_from fuel (n / 10) ((b'0' + n % 10) ∷ acc) (ground arith))
]

-- A positive number begins with a digit other than 0.
is_numeral-str_from :
    (fuel n : ℕ) (acc : Text)
    → n < fuel
    → 0 < n
    → all_digits acc ≡ true
    → is_numeral (str_from fuel n acc) ≡ true
unfolding str_from is_numeral
is_numeral-str_from zero n acc h p d = absurd (omega arith)
is_numeral-str_from (suc fuel) n acc h p d = elim (Bool-cases (ltb n 10)) [
  | inl small ↦ rw small (ground arith)
  | inr large ↦ rw large (
      is_numeral-str_from fuel (n / 10) ((b'0' + n % 10) ∷ acc) (ground arith) (ground arith)
        (ground arith))
]

pub is_numeral-str : (n : ℕ) → is_numeral (str n) ≡ true
unfolding str str_from is_numeral
is_numeral-str zero = refl
is_numeral-str (suc n) =
    is_numeral-str_from (suc (suc n)) (suc n) [] (omega arith) (omega arith) refl

pub all_digits-str : (n : ℕ) → all_digits (str n) ≡ true
unfolding str
all_digits-str n = all_digits-str_from (suc n) n [] refl
