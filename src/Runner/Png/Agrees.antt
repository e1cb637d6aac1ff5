-- ===== src/Runner/Png/Agrees.antt =====
-- The check accepts exactly the base64 texts of the data that begin with the signature of PNG.
use matri_xpost.Prelude.{
  ℕ, zero, suc, ◌+◌, ◌-◌, ◌*◌, ◌/◌, ◌%◌, ◌≤◌, ◌≡◌, refl, ap, sym, ◌∙◌, ◌↔◌, ◌⊎◌, inl, inr, Bool,
  true, false, ◌&&◌, ◌||◌, not, List, [], ◌∷◌, ◌++◌, Option, none, some, ◌==◌, ==_iff, ltb,
  if◌then◌else◌, any, length, take, arith, Bool-cases, &&-true,
}
use mathlib.Core.List.{append-nil, append_assoc}
use matri_xpost.Prelude.Maybe.{◌>>=◌}
use matri_xpost.Text.{Text, bytes, text_eq}
use matri_xpost.Text.Laws.{text_eq_iff}
use matri_xpost.Runner.Png.{
  base64_value, is_padding, padding_inside, decode_chunk, write_signature, decode_chunks,
  is_signature, png_signature, png_base64_max_bytes, png_base64_is_valid,
}
use matri_xpost.Runner.Png.Reference.{full_group, last_group, decode_with, base64_decode}
use matri_xpost.Runner.Png.Alphabet.{values_agree}
use matri_xpost.Runner.Png.Chunks.{decode_chunk-inner, decode_chunk-last, base64_value-padding}

length-append : (xs ys : List ℕ) → length (xs ++ ys) ≡ length xs + length ys
length-append [] ys = omega arith
length-append (x ∷ xs) ys = omega (arith, length-append xs ys)

write_signature-append :
    (s xs ys : List ℕ) → write_signature s (xs ++ ys) ≡ write_signature (write_signature s xs) ys
unfolding write_signature
write_signature-append s [] ys = refl
write_signature-append s (x ∷ xs) ys =
    write_signature-append (if ltb (length s) 8 then s ++ x ∷ [] else s) xs ys

take_full : (n : ℕ) (xs ys : List ℕ) → length xs ≡ n → take n (xs ++ ys) ≡ xs
take_full zero [] ys h = refl
take_full zero (x ∷ xs) ys h = absurd (omega (arith, h))
take_full (suc n) [] ys h = absurd (omega (arith, h))
take_full (suc n) (x ∷ xs) ys h = ap (λ l. x ∷ l) (take_full n xs ys (omega (arith, h)))

take_short : (n : ℕ) (xs : List ℕ) → length xs ≤ n → take n xs ≡ xs
take_short zero [] h = refl
take_short zero (x ∷ xs) h = absurd (omega (arith, h))
take_short (suc n) [] h = refl
take_short (suc n) (x ∷ xs) h = ap (λ l. x ∷ l) (take_short n xs (omega (arith, h)))

-- What is written is the first eight bytes.
write_signature-take : (s xs : List ℕ) → length s ≤ 8 → write_signature s xs ≡ take 8 (s ++ xs)
unfolding write_signature
write_signature-take s [] h = sym (ap (take 8) (append-nil s) ∙ take_short 8 s h)
write_signature-take s (x ∷ xs) h = elim (Bool-cases (ltb (length s) 8)) [
  | inl more ↦ rw more (
      write_signature-take (s ++ x ∷ []) xs (ground (arith, more, length-append s (x ∷ [])))
      ∙ ap (take 8) (append_assoc s (x ∷ []) xs))
  | inr full ↦
      let eight : length s ≡ 8 = ground (arith, full, h) in
      rw full
        (write_signature-take s xs h ∙ take_full 8 s xs eight ∙ sym (take_full 8 s (x ∷ xs) eight))
]

-- What the loop makes of the bytes that a decoder gave.
abbrev write_all : List ℕ → Option (List ℕ) → Option (List ℕ)
write_all signature none = none
write_all signature (some out) = some (write_signature signature out)

none_padded : (bs : List ℕ) → any (λ b. not (is_padding b)) bs ≡ false → padding_inside bs ≡ false
unfolding padding_inside
none_padded [] h = refl
none_padded (b ∷ bs) h = ground (arith, none_padded bs)

padding_inside-tail :
    (b : ℕ) (bs : List ℕ) → padding_inside (b ∷ bs) ≡ false → padding_inside bs ≡ false
unfolding padding_inside
padding_inside-tail b bs h = elim (Bool-cases (is_padding b)) [
  | inl p ↦ none_padded bs (rw p at h)
  | inr p ↦ rw p at h
]

padding_inside-group :
    (a b c d : ℕ) (rest : List ℕ)
    → padding_inside (a ∷ b ∷ c ∷ d ∷ rest) ≡ false
    → padding_inside rest ≡ false
padding_inside-group a b c d rest h = padding_inside-tail d rest (
    padding_inside-tail c (d ∷ rest)
      (padding_inside-tail b (c ∷ d ∷ rest) (padding_inside-tail a (b ∷ c ∷ d ∷ rest) h)))

last_alone :
    (a b c d : ℕ)
    → padding_inside (a ∷ b ∷ c ∷ d ∷ []) ≡ false
    → (is_padding c && not (is_padding d)) ≡ false
unfolding padding_inside
last_alone a b c d h = ground arith

finish_last :
    (signature : List ℕ) (o : Option (List ℕ))
    → (elim o [ none ↦ none | some out ↦ some (write_signature signature out) ])
      ≡ write_all signature o
finish_last signature none = refl
finish_last signature (some out) = refl

append_all :
    (signature front : List ℕ) (back : Option (List ℕ))
    → write_all (write_signature signature front) back
      ≡ write_all signature (back >>= λ b. some (front ++ b))
append_all signature front none = refl
append_all signature front (some back) = ap some (sym (write_signature-append signature front back))

finish_inner :
    (signature : List ℕ) (back : Option (List ℕ)) (later : List ℕ → Option (List ℕ))
    (o : Option (List ℕ))
    → ((s : List ℕ) → later s ≡ write_all s back)
    → (elim o [ none ↦ none | some front ↦ later (write_signature signature front) ])
      ≡ write_all signature (o >>= λ front. back >>= λ b. some (front ++ b))
finish_inner signature back later none h = refl
finish_inner signature back later (some front) h =
    h (write_signature signature front) ∙ append_all signature front back

decode_chunks-decode :
    (count k index : ℕ) (bs signature : List ℕ)
    → length bs ≡ 4 * k
    → index + k ≡ count
    → padding_inside bs ≡ false
    → decode_chunks count index bs signature ≡ write_all signature (decode_with base64_value bs)
unfolding decode_chunks decode_with
decode_chunks-decode count k index [] signature len at inside = unfold write_signature in refl
decode_chunks-decode count k index (a ∷ []) signature len at inside = absurd (omega (arith, len))
decode_chunks-decode count k index (a ∷ b ∷ []) signature len at inside =
    absurd (omega (arith, len))
decode_chunks-decode count k index (a ∷ b ∷ c ∷ []) signature len at inside =
    absurd (omega (arith, len))
decode_chunks-decode count k index (a ∷ b ∷ c ∷ d ∷ []) signature len at inside =
    let last : (index + 1 == count) ≡ true =
      (==_iff (index + 1) count).1 (omega (arith, len, at)) in
    let chunk =
      ap (λ t. decode_chunk t a b c d) last
      ∙ decode_chunk-last a b c d (last_alone a b c d inside) in
    ap
      (λ (o : Option (List ℕ)). elim o [
        | none ↦ none
        | some out ↦ some (write_signature signature out)
      ])
      chunk
    ∙ finish_last signature _
decode_chunks-decode count k index (a ∷ b ∷ c ∷ d ∷ e ∷ rest) signature len at inside =
    let inner : (index + 1 == count) ≡ false = ground (arith, len, at) in
    let chunk = ap (λ t. decode_chunk t a b c d) inner ∙ decode_chunk-inner a b c d in
    let later = λ (s : List ℕ).
      decode_chunks-decode count (k - 1) (index + 1) (e ∷ rest) s (omega (arith, len))
        (omega (arith, len, at)) (padding_inside-group a b c d (e ∷ rest) inside) in
    ap
      (λ (o : Option (List ℕ)). elim o [
        | none ↦ none
        | some out ↦ decode_chunks count (index + 1) (e ∷ rest) (write_signature signature out)
      ])
      chunk
    ∙ finish_inner signature (decode_with base64_value (e ∷ rest))
        (λ s. decode_chunks count (index + 1) (e ∷ rest) s) _ later

-- A group that was read holds no padding.
digit_no_padding : (byte v : ℕ) → base64_value byte ≡ some v → is_padding byte ≡ false
digit_no_padding byte v h = elim (Bool-cases (is_padding byte)) [
  | inl p ↦ cc (h, base64_value-padding byte p)
  | inr p ↦ p
]

full_group-some :
    (o₀ o₁ o₂ o₃ : Option ℕ) (out : List ℕ)
    → full_group o₀ o₁ o₂ o₃ ≡ some out
    → ((v : ℕ) × (o₀ ≡ some v))
      × ((v : ℕ) × (o₁ ≡ some v))
      × ((v : ℕ) × (o₂ ≡ some v))
      × ((v : ℕ) × (o₃ ≡ some v))
full_group-some none o₁ o₂ o₃ out h = cc h
full_group-some (some a) none o₂ o₃ out h = cc h
full_group-some (some a) (some b) none o₃ out h = cc h
full_group-some (some a) (some b) (some c) none out h = cc h
full_group-some (some a) (some b) (some c) (some d) out h =
    ((a, refl), (b, refl), (c, refl), (d, refl))

last_group-digits :
    (p q : Bool) (o₀ o₁ o₂ o₃ : Option ℕ) (out : List ℕ)
    → last_group p q o₀ o₁ o₂ o₃ ≡ some out
    → ((v : ℕ) × (o₀ ≡ some v))
      × ((v : ℕ) × (o₁ ≡ some v))
      × ((q ≡ true) ⊎ ((v : ℕ) × (o₂ ≡ some v)))
last_group-digits true true none o₁ o₂ o₃ out h = cc h
last_group-digits false true none o₁ o₂ o₃ out h = cc h
last_group-digits true true (some a) none o₂ o₃ out h = cc h
last_group-digits false true (some a) none o₂ o₃ out h = cc h
last_group-digits p true (some a) (some b) o₂ o₃ out h = ((a, refl), (b, refl), inl refl)
last_group-digits p false o₀ o₁ o₂ o₃ out h =
    let g = full_group-some o₀ o₁ o₂ o₃ out h in (g.0, g.1, inr g.2)

pass_digits :
    (a b : ℕ) (bs : List ℕ)
    → is_padding a ≡ false
    → is_padding b ≡ false
    → padding_inside bs ≡ false
    → padding_inside (a ∷ b ∷ bs) ≡ false
unfolding padding_inside
pass_digits a b bs ha hb h = rw (ha, hb) h

last_pair :
    (c d : ℕ) → (is_padding d ≡ true) ⊎ (is_padding c ≡ false) → padding_inside (c ∷ d ∷ []) ≡ false
unfolding padding_inside
last_pair c d (inl p) = ground arith
last_pair c d (inr p) = ground arith

last_digit :
    (c d : ℕ)
    → (is_padding d ≡ true) ⊎ ((v : ℕ) × (base64_value c ≡ some v))
    → (is_padding d ≡ true) ⊎ (is_padding c ≡ false)
last_digit c d (inl p) = inl p
last_digit c d (inr (v, e)) = inr (digit_no_padding c v e)

after_group :
    (o back : Option (List ℕ)) (data_bytes : List ℕ)
    → (o >>= λ front. back >>= λ b. some (front ++ b)) ≡ some data_bytes
    → ((front : List ℕ) × (o ≡ some front)) × ((b : List ℕ) × (back ≡ some b))
after_group none back data_bytes h = cc h
after_group (some front) none data_bytes h = cc h
after_group (some front) (some b) data_bytes h = ((front, refl), (b, refl))

-- What decodes has padding at its end only, and a length that four divides.
decodes_whole :
    (bs data_bytes : List ℕ)
    → decode_with base64_value bs ≡ some data_bytes
    → (padding_inside bs ≡ false) × (length bs % 4 ≡ 0)
unfolding decode_with
decodes_whole [] data_bytes h = (unfold padding_inside in refl, refl)
decodes_whole (a ∷ []) data_bytes h = cc h
decodes_whole (a ∷ b ∷ []) data_bytes h = cc h
decodes_whole (a ∷ b ∷ c ∷ []) data_bytes h = cc h
decodes_whole (a ∷ b ∷ c ∷ d ∷ []) data_bytes h =
    let (first, second, third) =
      last_group-digits (is_padding c) (is_padding d) _ _ _ _ data_bytes h in
    (
      pass_digits a b (c ∷ d ∷ []) (digit_no_padding a first.0 first.1)
          (digit_no_padding b second.0 second.1) (last_pair c d (last_digit c d third)),
      refl,
    )
decodes_whole (a ∷ b ∷ c ∷ d ∷ e ∷ rest) data_bytes h =
    let (front, back) = after_group _ (decode_with base64_value (e ∷ rest)) data_bytes h in
    let (va, vb, vc, vd) = full_group-some _ _ _ _ front.0 front.1 in
    let (inside, len) = decodes_whole (e ∷ rest) back.0 back.1 in
    (
      pass_digits a b (c ∷ d ∷ e ∷ rest) (digit_no_padding a va.0 va.1)
          (digit_no_padding b vb.0 vb.1)
          (pass_digits c d (e ∷ rest) (digit_no_padding c vc.0 vc.1) (digit_no_padding d vd.0 vd.1)
            inside),
      omega (arith, len),
    )

-- A text as the code wants it: of a length within the bounds, and base64 of data that begins with
-- the signature of PNG.
pub record IsPng (value : Text) : Type 0 where
  pub long_enough : 12 ≤ length (bytes value)
  pub short_enough : length (bytes value) ≤ 1_048_576
  pub image : List ℕ
  pub decodes : base64_decode (bytes value) ≡ some image
  pub signed : take 8 image ≡ 137 ∷ 80 ∷ 78 ∷ 71 ∷ 13 ∷ 10 ∷ 26 ∷ 10 ∷ []

signed-is_signature :
    (image : List ℕ) → take 8 image ≡ png_signature → is_signature (some (take 8 image)) ≡ true
unfolding text_eq
signed-is_signature image h = rw h refl

signature_iff :
    (o : Option (List ℕ))
    → (is_signature (write_all [] o) ≡ true)
      ↔ ((image : List ℕ) × (o ≡ some image) × (take 8 image ≡ png_signature))
signature_iff none = ((λ h. cc h), λ p. cc p.1)
signature_iff (some image) =
    let written = write_signature-take [] image (omega arith) in
    (
      (λ h. (image, refl, sym written ∙ (text_eq_iff _ png_signature).0 (&&-true _ _ h).1)),
      λ p.
          ap (λ l. is_signature (some l)) written
          ∙ signed-is_signature image (ap (λ o. take 8 (some_or_empty o)) p.1 ∙ p.2),
    )
  where
    some_or_empty : Option (List ℕ) → List ℕ
    some_or_empty none = []
    some_or_empty (some xs) = xs

quarter : (n : ℕ) → n % 4 ≡ 0 → n ≡ 4 * (n / 4)
quarter n h = omega (arith, h)

-- The loop on a text whose padding stands at the end and whose length four divides.
loop_iff :
    (bs : List ℕ)
    → length bs % 4 ≡ 0
    → padding_inside bs ≡ false
    → (is_signature (decode_chunks (length bs / 4) 0 bs []) ≡ true) ↔ (
        (image : List ℕ) × (decode_with base64_value bs ≡ some image)
        × (take 8 image ≡ png_signature))
loop_iff bs whole inside =
    let run =
      decode_chunks-decode (length bs / 4) (length bs / 4) 0 bs [] (quarter _ whole) (omega arith)
        inside in
    let (forth, back) = signature_iff (decode_with base64_value bs) in
    ((λ h. forth (ap is_signature (sym run) ∙ h)), λ p. ap is_signature run ∙ back p)

size_iff :
    (n max : ℕ)
    → ((ltb n 12 || ltb max n || not (n % 4 == 0)) ≡ false) ↔ ((12 ≤ n) × (n ≤ max) × (n % 4 ≡ 0))
size_iff n max = ((λ h. (ground arith, ground arith, ground arith)), λ (a, b, c). ground arith)

guards_iff :
    (p q r : Bool)
    → ((if p then false else if q then false else r) ≡ true)
      ↔ ((p ≡ false) × (q ≡ false) × (r ≡ true))
guards_iff true q r = ((λ h. cc h), λ p. cc p.0)
guards_iff false true r = ((λ h. cc h), λ p. cc p.1)
guards_iff false false r = ((λ h. (refl, refl, h)), λ p. p.2)

with_values : (bs : List ℕ) → decode_with base64_value bs ≡ base64_decode bs
unfolding base64_decode
with_values bs = ap (λ value. decode_with value bs) values_agree

-- A text passes exactly if it has between 12 and 1048576 bytes and the decoding of base64 by the
-- alphabet of RFC 4648, in which the bits of the last digit that belong to no byte are not looked at,
-- gives data that begins with the eight bytes of the PNG signature.
pub png_base64_is_valid_iff : (value : Text) → (png_base64_is_valid value ≡ true) ↔ IsPng value
unfolding png_base64_is_valid
png_base64_is_valid_iff value = (accepted, passes)
  where
    accepted : png_base64_is_valid value ≡ true → IsPng value
    accepted h =
        let (size, inside, signed) = (guards_iff _ _ _).0 h in
        let (low, high, whole) = (size_iff (length (bytes value)) png_base64_max_bytes).0 size in
        let (image, decodes, starts) = (loop_iff (bytes value) whole inside).0 signed in
        record {
          long_enough = low;
          short_enough = high;
          image = image;
          decodes = sym (with_values (bytes value)) ∙ decodes;
          signed = starts;
        }

    passes : IsPng value → png_base64_is_valid value ≡ true
    passes png =
        let (inside, whole) =
          decodes_whole (bytes value) png.image (with_values (bytes value) ∙ png.decodes) in
        (guards_iff _ _ _).1 (
          (size_iff _ png_base64_max_bytes).1 (png.long_enough, png.short_enough, whole),
          inside,
          (loop_iff (bytes value) whole inside).1
              (png.image, with_values (bytes value) ∙ png.decodes, png.signed),
        )
