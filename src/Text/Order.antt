-- ===== src/Text/Order.antt =====
-- The order in which SQLite and Rust compare texts: by the bytes, which for UTF-8 is by the scalar
-- values.
use Prim.Native.Nat.{compare, Ordering}
use matri_xpost.Prelude.{
  ◌≡◌, refl, Bool, true, false, ◌⊎◌, [], ◌∷◌, arith, inl, inr, if◌then◌else◌, Bool-cases, sym, ◌∙◌,
}
use matri_xpost.Text.{Text, text_eq}
use matri_xpost.Text.Laws.{text_eq_iff, text_eq_sym}

unfoldable pub text_le : Text → Text → Bool
text_le [] t = true
text_le (a ∷ s) [] = false
text_le (a ∷ s) (b ∷ t) = elim (compare a b) [
  | Ordering.lt ↦ true
  | Ordering.eq ↦ text_le s t
  | Ordering.gt ↦ false
]

pub text_le_refl : (s : Text) → text_le s s ≡ true
unfolding text_le
text_le_refl [] = refl
text_le_refl (a ∷ s) = ground (arith, text_le_refl s)

pub text_le_total : (s t : Text) → (text_le s t ≡ true) ⊎ (text_le t s ≡ true)
unfolding text_le
text_le_total [] t = inl refl
text_le_total (a ∷ s) [] = inr refl
text_le_total (a ∷ s) (b ∷ t) = ground (arith, text_le_total s t)

pub text_le_trans : (s t u : Text) → text_le s t ≡ true → text_le t u ≡ true → text_le s u ≡ true
unfolding text_le
text_le_trans [] t u h k = refl
text_le_trans (a ∷ s) [] u h k = cc
text_le_trans (a ∷ s) (b ∷ t) [] h k = cc
text_le_trans (a ∷ s) (b ∷ t) (c ∷ u) h k = ground (arith, text_le_trans s t u)

pub text_le_antisym : (s t : Text) → text_le s t ≡ true → text_le t s ≡ true → s ≡ t
unfolding text_le
text_le_antisym [] [] h k = refl
text_le_antisym [] (b ∷ t) h k = cc
text_le_antisym (a ∷ s) [] h k = cc
text_le_antisym (a ∷ s) (b ∷ t) h k = ground (arith, text_le_antisym s t)

-- `ORDER BY first, second`
unfoldable pub pair_le : Text × Text → Text × Text → Bool
unfolding text_eq text_le
pair_le (s, i) (t, j) = if text_eq s t then text_le i j else text_le s t

pub pair_le_total : (a b : Text × Text) → (pair_le a b ≡ true) ⊎ (pair_le b a ≡ true)
unfolding pair_le
pair_le_total (s, i) (t, j) = elim (Bool-cases (text_eq s t)) [
  | inl e ↦ elim (text_le_total i j) [
    | inl h ↦ inl (rw e h)
    | inr h ↦ inr (rw (sym (text_eq_sym s t) ∙ e) h)
  ]
  | inr e ↦ elim (text_le_total s t) [
    | inl h ↦ inl (rw e h)
    | inr h ↦ inr (rw (sym (text_eq_sym s t) ∙ e) h)
  ]
]

pub pair_le_trans :
    (a b c : Text × Text) → pair_le a b ≡ true → pair_le b c ≡ true → pair_le a c ≡ true
unfolding pair_le
pair_le_trans (s, i) (t, j) (u, k) h l = ground (
  arith,
  text_eq_iff s t,
  text_eq_iff t u,
  text_eq_iff s u,
  text_le_trans s t u,
  text_le_trans i j k,
  text_le_antisym s t,
)
