-- ===== src/Runner/Png/Chunks.antt =====
-- One chunk: the shifts and masks of the code against the numbers of 24 bits.
use Prim.Native.Nat.{bit_or}
use matri_xpost.Prelude.{
  ℕ, zero, suc, ◌+◌, ◌*◌, ◌/◌, ◌%◌, ◌<◌, ◌≡◌, refl, ap, ◌∙◌, Bool, true, false, ◌&&◌, not, [], ◌∷◌,
  Option, none, some, ◌==◌, ==_iff, take, arith,
}
use matri_xpost.Runner.Png.{base64_value, is_padding, decoded, decode_values, decode_chunk}
use matri_xpost.Runner.Png.Reference.{three_bytes, full_group, last_group}

-- A test at every pair of numbers below two bounds.
all_below : ℕ → (ℕ → Bool) → Bool
all_below zero p = true
all_below (suc n) p = p n && all_below n p

all_below_lem : (n : ℕ) (p : ℕ → Bool) (x : ℕ) → all_below n p ≡ true → x < n → p x ≡ true
unfolding all_below
all_below_lem zero p x h lt = absurd (omega arith)
all_below_lem (suc n) p x h lt = ground (arith, all_below_lem n p x)

all_pairs_lem :
    (n m : ℕ) (p : ℕ → ℕ → Bool) (x y : ℕ)
    → all_below n (λ a. all_below m (p a)) ≡ true
    → x < n
    → y < m
    → p x y ≡ true
all_pairs_lem n m p x y h lt lt' =
    all_below_lem m (p x) y (all_below_lem n (λ a. all_below m (p a)) x h lt) lt'

high_six_table : all_below 64 (λ a. all_below 4 (λ b. bit_or (a * 4 % 256) b == a * 4 + b)) ≡ true
unfolding all_below
high_six_table = refl

middle_table :
    all_below 64 (λ a. all_below 16 (λ b. bit_or (a * 16 % 256) b == a * 16 % 256 + b)) ≡ true
unfolding all_below
middle_table = refl

low_six_table :
    all_below 64 (λ a. all_below 64 (λ b. bit_or (a * 64 % 256) b == a * 64 % 256 + b)) ≡ true
unfolding all_below
low_six_table = refl

high_six : (a b : ℕ) → a < 64 → b < 4 → bit_or (a * 4 % 256) b ≡ a * 4 + b
high_six a b h k = (==_iff _ _).0 (all_pairs_lem 64 4 _ a b high_six_table h k)

middle : (a b : ℕ) → a < 64 → b < 16 → bit_or (a * 16 % 256) b ≡ a * 16 % 256 + b
middle a b h k = (==_iff _ _).0 (all_pairs_lem 64 16 _ a b middle_table h k)

low_six : (a b : ℕ) → a < 64 → b < 64 → bit_or (a * 64 % 256) b ≡ a * 64 % 256 + b
low_six a b h k = (==_iff _ _).0 (all_pairs_lem 64 64 _ a b low_six_table h k)

cons_eq : (x y x' y' z z' : ℕ) → x ≡ x' → y ≡ y' → z ≡ z' → x ∷ y ∷ z ∷ [] ≡ x' ∷ y' ∷ z' ∷ []
cons_eq x y x' y' z z' p q r = cc (p, q, r)

-- The shifts assemble the number of 24 bits.
decoded-three_bytes :
    (a b c d : ℕ)
    → a < 64
    → b < 64
    → c < 64
    → d < 64
    → decoded a b c d ≡ three_bytes (a * 262144 + b * 4096 + c * 64 + d)
unfolding decoded
decoded-three_bytes a b c d ha hb hc hd =
    cons_eq _ _ _ _ _ _ (high_six a (b / 16) ha (omega arith) ∙ omega arith)
      (middle b (c / 4) hb (omega arith) ∙ omega arith) (low_six c d hc hd ∙ omega arith)

base64_value_lt : (byte v : ℕ) → base64_value byte ≡ some v → v < 64
unfolding base64_value
base64_value_lt byte v h = ground arith

pub base64_value-padding : (byte : ℕ) → is_padding byte ≡ true → base64_value byte ≡ none
unfolding base64_value
base64_value-padding byte h = ground arith

-- A digit that was read is below 64, and padding is no digit.
abbrev IsDigit : Option ℕ → Type 0
IsDigit none = Unit
IsDigit (some v) = v < 64

abbrev Padded : Bool → Option ℕ → Type 0
Padded true value = value ≡ none
Padded false value = Unit

base64_value-IsDigit : (byte : ℕ) → IsDigit (base64_value byte)
base64_value-IsDigit byte = by_value (base64_value byte) refl
  where
    by_value : (value : Option ℕ) → base64_value byte ≡ value → IsDigit value
    by_value none e = tt
    by_value (some v) e = base64_value_lt byte v e

pub base64_value-Padded : (byte : ℕ) → Padded (is_padding byte) (base64_value byte)
base64_value-Padded byte = by_test (is_padding byte) refl
  where
    by_test : (p : Bool) → is_padding byte ≡ p → Padded p (base64_value byte)
    by_test true e = base64_value-padding byte e
    by_test false e = tt

digits-inner :
    (p q : Bool) (v₀ v₁ v₂ v₃ : Option ℕ)
    → IsDigit v₀
    → IsDigit v₁
    → IsDigit v₂
    → IsDigit v₃
    → Padded p v₂
    → Padded q v₃
    → decode_values false p q v₀ v₁ v₂ v₃ ≡ full_group v₀ v₁ v₂ v₃
unfolding decode_values
digits-inner p q none v₁ v₂ v₃ i₀ i₁ i₂ i₃ d₂ d₃ = refl
digits-inner p q (some a) none v₂ v₃ i₀ i₁ i₂ i₃ d₂ d₃ = refl
digits-inner true true (some a) (some b) none v₃ i₀ i₁ i₂ i₃ d₂ d₃ = refl
digits-inner true false (some a) (some b) none v₃ i₀ i₁ i₂ i₃ d₂ d₃ = refl
digits-inner false true (some a) (some b) none v₃ i₀ i₁ i₂ i₃ d₂ d₃ = refl
digits-inner false false (some a) (some b) none v₃ i₀ i₁ i₂ i₃ d₂ d₃ = refl
digits-inner true q (some a) (some b) (some c) v₃ i₀ i₁ i₂ i₃ d₂ d₃ = cc d₂
digits-inner false true (some a) (some b) (some c) none i₀ i₁ i₂ i₃ d₂ d₃ = refl
digits-inner false true (some a) (some b) (some c) (some d) i₀ i₁ i₂ i₃ d₂ d₃ = cc d₃
digits-inner false false (some a) (some b) (some c) none i₀ i₁ i₂ i₃ d₂ d₃ = refl
digits-inner false false (some a) (some b) (some c) (some d) i₀ i₁ i₂ i₃ d₂ d₃ =
    ap (λ l. some (take 3 l)) (decoded-three_bytes a b c d i₀ i₁ i₂ i₃)

two_of :
    (a b c n : ℕ)
    → decoded a b c 0 ≡ three_bytes n
    → take 2 (decoded a b c 0) ≡ n / 65536 ∷ n / 256 % 256 ∷ []
two_of a b c n e = ap (take 2) e

one_of_three :
    (a b n : ℕ) → decoded a b 0 0 ≡ three_bytes n → take 1 (decoded a b 0 0) ≡ n / 65536 ∷ []
one_of_three a b n e = ap (take 1) e

pair_eq : (x y x' y' : ℕ) → x ≡ x' → y ≡ y' → x ∷ y ∷ [] ≡ x' ∷ y' ∷ []
pair_eq x y x' y' p q = cc (p, q)

single_eq : (x x' : ℕ) → x ≡ x' → x ∷ [] ≡ x' ∷ []
single_eq x x' p = cc p

-- The last chunk, unless its third byte alone is padding.
digits-last :
    (p q : Bool) (v₀ v₁ v₂ v₃ : Option ℕ)
    → IsDigit v₀
    → IsDigit v₁
    → IsDigit v₂
    → IsDigit v₃
    → Padded p v₂
    → Padded q v₃
    → (p && not q) ≡ false
    → decode_values true p q v₀ v₁ v₂ v₃ ≡ last_group p q v₀ v₁ v₂ v₃
unfolding decode_values
digits-last true false v₀ v₁ v₂ v₃ i₀ i₁ i₂ i₃ d₂ d₃ alone = cc alone
digits-last true true none v₁ v₂ v₃ i₀ i₁ i₂ i₃ d₂ d₃ alone = refl
digits-last true true (some a) none v₂ v₃ i₀ i₁ i₂ i₃ d₂ d₃ alone = refl
digits-last true true (some a) (some b) v₂ v₃ i₀ i₁ i₂ i₃ d₂ d₃ alone = ap some (
    one_of_three a b (a * 262144 + b * 4096 + 0 * 64 + 0)
      (decoded-three_bytes a b 0 0 i₀ i₁ (omega arith) (omega arith))
    ∙ single_eq _ _ (omega arith))
digits-last false true none v₁ v₂ v₃ i₀ i₁ i₂ i₃ d₂ d₃ alone = refl
digits-last false true (some a) none v₂ v₃ i₀ i₁ i₂ i₃ d₂ d₃ alone = refl
digits-last false true (some a) (some b) none v₃ i₀ i₁ i₂ i₃ d₂ d₃ alone = refl
digits-last false true (some a) (some b) (some c) v₃ i₀ i₁ i₂ i₃ d₂ d₃ alone = ap some (
    two_of a b c (a * 262144 + b * 4096 + c * 64 + 0)
      (decoded-three_bytes a b c 0 i₀ i₁ i₂ (omega arith))
    ∙ pair_eq _ _ _ _ (omega arith) (omega arith))
digits-last false false none v₁ v₂ v₃ i₀ i₁ i₂ i₃ d₂ d₃ alone = refl
digits-last false false (some a) none v₂ v₃ i₀ i₁ i₂ i₃ d₂ d₃ alone = refl
digits-last false false (some a) (some b) none v₃ i₀ i₁ i₂ i₃ d₂ d₃ alone = refl
digits-last false false (some a) (some b) (some c) none i₀ i₁ i₂ i₃ d₂ d₃ alone = refl
digits-last false false (some a) (some b) (some c) (some d) i₀ i₁ i₂ i₃ d₂ d₃ alone =
    ap (λ l. some (take 3 l)) (decoded-three_bytes a b c d i₀ i₁ i₂ i₃)

-- A chunk that is not the last is a group without padding.
pub decode_chunk-inner :
    (b₀ b₁ b₂ b₃ : ℕ)
    → decode_chunk false b₀ b₁ b₂ b₃
      ≡ full_group (base64_value b₀) (base64_value b₁) (base64_value b₂) (base64_value b₃)
unfolding decode_chunk
decode_chunk-inner b₀ b₁ b₂ b₃ =
    digits-inner (is_padding b₂) (is_padding b₃) _ _ _ _ (base64_value-IsDigit b₀)
      (base64_value-IsDigit b₁) (base64_value-IsDigit b₂) (base64_value-IsDigit b₃)
      (base64_value-Padded b₂) (base64_value-Padded b₃)

-- The last chunk is the last group, unless its third byte alone is padding.
pub decode_chunk-last :
    (b₀ b₁ b₂ b₃ : ℕ)
    → (is_padding b₂ && not (is_padding b₃)) ≡ false
    → decode_chunk true b₀ b₁ b₂ b₃
      ≡ last_group
          (is_padding b₂)
          (is_padding b₃)
          (base64_value b₀)
          (base64_value b₁)
          (base64_value b₂)
          (base64_value b₃)
unfolding decode_chunk
decode_chunk-last b₀ b₁ b₂ b₃ alone =
    digits-last (is_padding b₂) (is_padding b₃) _ _ _ _ (base64_value-IsDigit b₀)
      (base64_value-IsDigit b₁) (base64_value-IsDigit b₂) (base64_value-IsDigit b₃)
      (base64_value-Padded b₂) (base64_value-Padded b₃) alone
