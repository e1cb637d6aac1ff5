-- ===== src/Text/Decimal.antt =====
-- `format!("{prefix}-{n}")`: decimal printing, and that it is injective.
use matri_xpost.Prelude.{
  ℕ, zero, suc, ◌+◌, ◌-◌, ◌*◌, ◌/◌, ◌%◌, ◌<◌, ◌≡◌, refl, List, [], ◌∷◌, ◌++◌, arith, ltb,
  if◌then◌else◌,
}
use mathlib.Core.List.{append-nil}
use matri_xpost.Prelude.{ap, sym, ◌∙◌}
use matri_xpost.Text.{Text, codes}

-- The digits of a number, the last one first. The fuel `suc n` is enough for `n`.
rev_digits : ℕ → ℕ → List ℕ
rev_digits zero n = []
rev_digits (suc f) n =
    let rest = rev_digits f (n / 10) in if ltb n 10 then (b'0' + n) ∷ [] else (b'0' + n % 10) ∷ rest

-- The number that such digits stand for.
value : List ℕ → ℕ
value [] = 0
value (d ∷ ds) = (d - b'0') + 10 * value ds

value-rev_digits : (f n : ℕ) → n < f → value (rev_digits f n) ≡ n
unfolding rev_digits value
value-rev_digits zero n h = absurd (omega arith)
value-rev_digits (suc f) n h = ground (arith, value-rev_digits f (n / 10))

-- Appending in reverse order.
onto : List ℕ → Text → Text
onto [] acc = acc
onto (d ∷ ds) acc = onto ds (d ∷ acc)

unfoldable pub decimal : ℕ → Text
unfolding rev_digits onto
decimal n = onto (rev_digits (suc n) n) []

-- `format!("{prefix}-{n}")`
unfoldable pub numbered : Text → ℕ → Text
unfolding decimal
numbered prefix n = prefix ++ (codes "-" ++ decimal n)

decimal_test : numbered (codes "job") 1204 ≡ codes "job-1204"
unfolding numbered
decimal_test = refl

onto-onto : (ds : List ℕ) (a b : Text) → onto (onto ds a) b ≡ onto a (ds ++ b)
unfolding onto
onto-onto [] a b = refl
onto-onto (d ∷ ds) a b = onto-onto ds (d ∷ a) b

-- Reversing twice gives the digits back.
rev-rev : (ds : List ℕ) → onto (onto ds []) [] ≡ ds
unfolding onto
rev-rev ds = onto-onto ds [] [] ∙ append-nil ds

-- Two numbers that print alike are equal.
pub decimal-injective : (m n : ℕ) → decimal m ≡ decimal n → m ≡ n
unfolding decimal
decimal-injective m n e =
    sym (value-rev_digits (suc m) m (omega arith))
    ∙ ap value (
        sym (rev-rev (rev_digits (suc m) m))
        ∙ ap (λ t. onto t []) e
        ∙ rev-rev (rev_digits (suc n) n))
    ∙ value-rev_digits (suc n) n (omega arith)

append-injective : (p s t : Text) → p ++ s ≡ p ++ t → s ≡ t
append-injective [] s t e = e
append-injective (c ∷ p) s t e = append-injective p s t (ap rest e)
  where
    rest : Text → Text
    rest [] = []
    rest (d ∷ r) = r

-- Ids numbered differently under one prefix differ.
pub numbered-injective : (prefix : Text) (m n : ℕ) → numbered prefix m ≡ numbered prefix n → m ≡ n
unfolding numbered
numbered-injective prefix m n e =
    decimal-injective m n (append-injective (codes "-") _ _ (append-injective prefix _ _ e))
