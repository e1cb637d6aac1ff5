-- ===== src/Runner/Png.antt =====
-- The check of a base64 PNG in crates/matrixpost-core/src/runner/protocol.rs, on bytes. Arithmetic
-- on `u8` keeps its wrap-around.
pub mod Reference
pub mod Alphabet
pub mod Chunks
pub mod Agrees
use Prim.Native.Nat.{bit_or}
use matri_xpost.Prelude.{
  ℕ, ◌+◌, ◌-◌, ◌*◌, ◌/◌, ◌%◌, Bool, true, false, ◌&&◌, ◌||◌, not, List, [], ◌∷◌, ◌++◌, Option, none,
  some, ◌==◌, leb, ltb, if◌then◌else◌, any, length, take,
}
use matri_xpost.Prelude.Maybe.{◌>>=◌}
use matri_xpost.Text.{Text, bytes, text_eq}

abbrev pub png_signature : List ℕ
png_signature = 137 ∷ 80 ∷ 78 ∷ 71 ∷ 13 ∷ 10 ∷ 26 ∷ 10 ∷ []

-- `TERMINAL_QR_LOGIN_PNG_BASE64_MAX_BYTES`
abbrev pub png_base64_max_bytes : ℕ
png_base64_max_bytes = 1_048_576

-- `base64_value`
unfoldable pub base64_value : ℕ → Option ℕ
base64_value byte =
    if leb b'A' byte && leb byte b'Z'
    then some (byte - b'A')
    else if leb b'a' byte && leb byte b'z'
    then some (byte - b'a' + 26)
    else if leb b'0' byte && leb byte b'9'
    then some (byte - b'0' + 52)
    else if byte == b'+'
    then some 62
    else if byte == b'/'
    then some 63
    else none

-- The byte of padding, `b'='`.
abbrev pub is_padding : ℕ → Bool
is_padding byte = byte == b'='

-- The first padding byte is followed by one that is not.
unfoldable pub padding_inside : List ℕ → Bool
padding_inside [] = false
padding_inside (byte ∷ rest) =
    if is_padding byte then any (λ b. not (is_padding b)) rest else padding_inside rest

-- `(a << 2) | (b >> 4), (b << 4) | (c >> 2), (c << 6) | d`
unfoldable pub decoded : ℕ → ℕ → ℕ → ℕ → List ℕ
decoded a b c d =
    bit_or (a * 4 % 256) (b / 16) ∷ bit_or (b * 16 % 256) (c / 4) ∷ bit_or (c * 64 % 256) d ∷ []

-- `0` for a padding byte, and else its value
abbrev pub value_or_zero : Bool → Option ℕ → Option ℕ
value_or_zero true value = some 0
value_or_zero false value = value

abbrev pub count_padding : Bool → Bool → ℕ
count_padding p q = (if p then 1 else 0) + (if q then 1 else 0)

-- The body of the loop over the chunks, on the values of the four bytes and on whether the last two
-- are padding; `last` is `index + 1 == bytes.len() / 4`.
unfoldable pub decode_values :
    Bool → Bool → Bool → Option ℕ → Option ℕ → Option ℕ → Option ℕ → Option (List ℕ)
decode_values last p q value₀ value₁ value₂ value₃ = do
  a ← value₀
  b ← value₁
  let padding = count_padding p q
  if ltb 2 padding || (ltb 0 padding && not last) || (padding == 2 && not p) then none else (do
    c ← value_or_zero p value₂
    d ← value_or_zero q value₃
    some (take (3 - padding) (decoded a b c d)))

unfoldable pub decode_chunk : Bool → ℕ → ℕ → ℕ → ℕ → Option (List ℕ)
unfolding base64_value decoded decode_values
decode_chunk last byte₀ byte₁ byte₂ byte₃ =
    decode_values last (is_padding byte₂) (is_padding byte₃) (base64_value byte₀)
      (base64_value byte₁) (base64_value byte₂) (base64_value byte₃)

-- `if written < signature.len() { … }` for each byte; the list holds the bytes written.
unfoldable pub write_signature : List ℕ → List ℕ → List ℕ
write_signature signature [] = signature
write_signature signature (byte ∷ rest) =
    write_signature (if ltb (length signature) 8 then signature ++ byte ∷ [] else signature) rest

-- The loop over `chunks_exact(4)`, of which there are `count`.
unfoldable pub decode_chunks : ℕ → ℕ → List ℕ → List ℕ → Option (List ℕ)
unfolding decode_chunk write_signature
decode_chunks count index (a ∷ b ∷ c ∷ d ∷ rest) signature =
    elim (decode_chunk (index + 1 == count) a b c d) [
      | none ↦ none
      | some out ↦ decode_chunks count (index + 1) rest (write_signature signature out)
    ]
decode_chunks count index _ signature = some signature

-- `written >= PNG_SIGNATURE.len() && signature == PNG_SIGNATURE`
abbrev pub is_signature : Option (List ℕ) → Bool
is_signature none = false
is_signature (some signature) = leb 8 (length signature) && text_eq signature png_signature

-- `terminal_qr_png_base64_is_valid`
unfoldable pub png_base64_is_valid : Text → Bool
unfolding padding_inside decode_chunks
png_base64_is_valid value =
    let data_bytes = bytes value in
    let n = length data_bytes in
    if ltb n 12 || ltb png_base64_max_bytes n || not (n % 4 == 0)
    then false
    else if padding_inside data_bytes
    then false
    else is_signature (decode_chunks (n / 4) 0 data_bytes [])
