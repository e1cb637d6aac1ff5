-- ===== src/Runner/Png/Alphabet.antt =====
-- The ranges of `base64_value` against the alphabet of RFC 4648.
use mathlib.Core.Path.{fun_ext}
use matri_xpost.Prelude.{
  ℕ, zero, suc, ◌+◌, ◌≤◌, ◌<◌, ◌≡◌, refl, ap, sym, ◌∙◌, Bool, true, false, ◌&&◌, List, [], ◌∷◌,
  Option, none, some, ◌==◌, ==_iff, leb, all, arith, Bool-cases, inl, inr, &&-true, ltb,
}
use matri_xpost.Runner.Png.{base64_value}
use matri_xpost.Runner.Png.Reference.{alphabet, place, digit}

abbrev same_value : Option ℕ → Option ℕ → Bool
same_value none none = true
same_value (some a) (some b) = a == b
same_value _ _ = false

same_value→≡ : (o p : Option ℕ) → same_value o p ≡ true → o ≡ p
same_value→≡ none none h = refl
same_value→≡ (some a) (some b) h = ap (λ n. some n) ((==_iff a b).0 h)
same_value→≡ none (some b) h = cc h
same_value→≡ (some a) none h = cc h

all_below : (ℕ → Bool) → ℕ → Bool
all_below p zero = true
all_below p (suc n) = p n && all_below p n

all_below-at : (p : ℕ → Bool) (n m : ℕ) → all_below p n ≡ true → m < n → p m ≡ true
unfolding all_below
all_below-at p zero m h l = absurd (omega (arith, l))
all_below-at p (suc n) m h l =
    let (here, below) = &&-true (p n) (all_below p n) h in
    elim (Bool-cases (m == n)) [
      | inl same ↦ ap p ((==_iff m n).0 same) ∙ here
      | inr other ↦ all_below-at p n m below (ground (arith, l, other))
    ]

-- The bytes up to the last letter.
low_bytes : all_below (λ byte. same_value (base64_value byte) (digit byte)) 123 ≡ true
unfolding all_below base64_value digit place
low_bytes = refl

place-none :
    (n byte : ℕ) (cs : List ℕ)
    → all (λ c. leb c 122) cs ≡ true
    → 123 ≤ byte
    → place n byte cs ≡ none
unfolding place
place-none n byte [] h l = refl
place-none n byte (c ∷ cs) h l =
    let later = place-none (n + 1) byte cs (&&-true (leb c 122) _ h).1 l in
    let other : (byte == c) ≡ false = ground (arith, (&&-true (leb c 122) _ h).0, l) in
    rw (other, later) refl

high_value : (byte : ℕ) → 123 ≤ byte → base64_value byte ≡ none
unfolding base64_value
high_value byte l = ground (arith, l)

base64_value-digit : (byte : ℕ) → base64_value byte ≡ digit byte
unfolding digit
base64_value-digit byte = elim (Bool-cases (ltb byte 123)) [
  | inl low ↦ same_value→≡ _ _ (all_below-at _ 123 byte low_bytes (ground (arith, low)))
  | inr high ↦
      let l : 123 ≤ byte = ground (arith, high) in
      high_value byte l ∙ sym (place-none 0 byte alphabet refl l)
]

pub values_agree : base64_value ≡ digit
values_agree = fun_ext base64_value-digit
