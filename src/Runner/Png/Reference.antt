-- ===== src/Runner/Png/Reference.antt =====
-- Base64 of RFC 4648, section 4: the value of a digit is its place in the alphabet, each group of four
-- digits is a number of 24 bits, and padding stands only at the end of the last group. The bits of the
-- last digit that belong to no byte are not looked at.
use matri_xpost.Prelude.{
  ℕ, ◌+◌, ◌*◌, ◌/◌, ◌%◌, Bool, true, false, List, [], ◌∷◌, ◌++◌, Option, none, some, if◌then◌else◌,
  ◌==◌,
}
use matri_xpost.Prelude.Maybe.{◌>>=◌}
use matri_xpost.Text.{Text, codes}

abbrev pub alphabet : Text
alphabet = codes "ABCDEFGHIJKLMNOPQRSTUVWXYZabcdefghijklmnopqrstuvwxyz0123456789+/"

-- The place of a byte in a list that begins at the place `n`.
unfoldable pub place : ℕ → ℕ → List ℕ → Option ℕ
place n byte [] = none
place n byte (c ∷ cs) = let later = place (n + 1) byte cs in if byte == c then some n else later

unfoldable pub digit : ℕ → Option ℕ
unfolding place
digit byte = place 0 byte alphabet

abbrev pub is_equals_sign : ℕ → Bool
is_equals_sign byte = byte == b'='

-- The three bytes of a number of 24 bits.
abbrev pub three_bytes : ℕ → List ℕ
three_bytes n = n / 65536 ∷ n / 256 % 256 ∷ n % 256 ∷ []

abbrev pub full_group : Option ℕ → Option ℕ → Option ℕ → Option ℕ → Option (List ℕ)
full_group value₀ value₁ value₂ value₃ = do
  a ← value₀
  b ← value₁
  c ← value₂
  d ← value₃
  some (three_bytes (a * 262144 + b * 4096 + c * 64 + d))

-- Three digits are 18 bits, of which the first 16 are two bytes.
abbrev pub three_digits : Option ℕ → Option ℕ → Option ℕ → Option (List ℕ)
three_digits value₀ value₁ value₂ = do
  a ← value₀
  b ← value₁
  c ← value₂
  let n = (a * 4096 + b * 64 + c) / 4
  some (n / 256 ∷ n % 256 ∷ [])

-- Two digits are 12 bits, of which the first 8 are one byte.
abbrev pub two_digits : Option ℕ → Option ℕ → Option (List ℕ)
two_digits value₀ value₁ = do a ← value₀; b ← value₁; some ((a * 64 + b) / 16 ∷ [])

-- `p` and `q` say whether the last two bytes are padding.
abbrev pub last_group : Bool → Bool → Option ℕ → Option ℕ → Option ℕ → Option ℕ → Option (List ℕ)
last_group p true value₀ value₁ value₂ value₃ =
    if p then two_digits value₀ value₁ else three_digits value₀ value₁ value₂
last_group p false value₀ value₁ value₂ value₃ = full_group value₀ value₁ value₂ value₃

-- The decoding by the values of the digits.
unfoldable pub decode_with : (ℕ → Option ℕ) → List ℕ → Option (List ℕ)
decode_with value [] = some []
decode_with value (a ∷ b ∷ c ∷ d ∷ []) =
    last_group (is_equals_sign c) (is_equals_sign d) (value a) (value b) (value c) (value d)
decode_with value (a ∷ b ∷ c ∷ d ∷ rest) = do
  front ← full_group (value a) (value b) (value c) (value d)
  back ← decode_with value rest
  some (front ++ back)
decode_with value _ = none

unfoldable pub base64_decode : List ℕ → Option (List ℕ)
unfolding decode_with digit
base64_decode bs = decode_with digit bs
