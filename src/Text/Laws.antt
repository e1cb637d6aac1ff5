-- ===== src/Text/Laws.antt =====
-- The test of equality on texts decides equality.
use matri_xpost.Prelude.{
  ◌≡◌, refl, ap, ◌∙◌, sym, ◌↔◌, ◌≢◌, inl, inr, true, false, [], ◌∷◌, arith, ◌==◌, ==_iff, &&-true,
  Bool-cases,
}
use matri_xpost.Text.{Text, text_eq}

text_eq→eq : (s t : Text) → text_eq s t ≡ true → s ≡ t
unfolding text_eq
text_eq→eq [] [] h = refl
text_eq→eq [] (b ∷ t) h = cc
text_eq→eq (a ∷ s) [] h = cc
text_eq→eq (a ∷ s) (b ∷ t) h =
    let (x, y) = &&-true (a == b) (text_eq s t) h in cc ((==_iff a b).0 x, text_eq→eq s t y)

pub text_eq_refl : (s : Text) → text_eq s s ≡ true
unfolding text_eq
text_eq_refl [] = refl
text_eq_refl (a ∷ s) = ground (arith, text_eq_refl s)

pub text_eq_iff : (s t : Text) → (text_eq s t ≡ true) ↔ (s ≡ t)
text_eq_iff s t = (text_eq→eq s t, λ e. ap (text_eq s) (sym e) ∙ text_eq_refl s)

-- Texts that differ compare as different.
pub text_eq_ne : (s t : Text) → s ≢ t → text_eq s t ≡ false
text_eq_ne s t h = elim (Bool-cases (text_eq s t)) [
  | inl e ↦ absurd (h (text_eq→eq s t e))
  | inr e ↦ e
]

pub text_eq_sym : (s t : Text) → text_eq s t ≡ text_eq t s
text_eq_sym s t = ground (arith, text_eq_iff s t, text_eq_iff t s)
