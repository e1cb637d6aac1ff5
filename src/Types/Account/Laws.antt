-- ===== src/Types/Account/Laws.antt =====
-- The names by which a platform is accepted.
use matri_xpost.Prelude.{
  ◌≡◌, refl, sym, ◌∙◌, ◌↔◌, true, List, [], ◌∷◌, ok, arith, Elem, here, there, Bool-cases, inl, inr,
}
use mathlib.Core.Path.{subst}
use matri_xpost.Prelude.{All}
use matri_xpost.Text.{Text, text_eq, one_of, trim, to_ascii_lowercase}
use matri_xpost.Text.Laws.{text_eq_iff}
use matri_xpost.Types.Enums.{
  Platform, douyin, wechat_channels, bilibili, baijiahao, toutiao, kuaishou, xiaohongshu,
  fanqie_video,
}
use matri_xpost.Types.Account.{as_str, platform_alternatives, match_platform, from_str}

-- The canonical code of a platform is read back as that platform.
pub from_str-as_str : (p : Platform) → from_str (as_str p) ≡ ok p
unfolding from_str as_str
from_str-as_str douyin = refl
from_str-as_str _ = refl

one_of-Elem :
    (s : Text) (alternatives : List Text) → one_of s alternatives ≡ true → Elem s alternatives
unfolding one_of
one_of-Elem s [] h = cc
one_of-Elem s (a ∷ rest) h = elim (Bool-cases (text_eq s a)) [
  | inl e ↦ subst (λ b. Elem s (b ∷ rest)) ((text_eq_iff s a).0 e) here
  | inr e ↦ there (one_of-Elem s rest (rw e at h))
]

All-Elem :
    (P : Text → Type 0) (a : Text) (alternatives : List Text)
    → All P alternatives
    → Elem a alternatives
    → P a
All-Elem P a [] ps e = elim e [ ]
All-Elem P a (b ∷ rest) ps here = ps.0
All-Elem P a (b ∷ rest) ps (there e) = All-Elem P a rest ps.1 e

-- Each alternative of a platform is matched to that platform, and to no other.
alternatives_match :
    (value : Text) (p : Platform)
    → All (λ a. match_platform value a ≡ ok p) (platform_alternatives p)
unfolding match_platform platform_alternatives one_of
alternatives_match value douyin = (refl, (refl, (refl, tt)))
alternatives_match value wechat_channels = (refl, (refl, (refl, (refl, (refl, (refl, tt))))))
alternatives_match value bilibili = (refl, (refl, (refl, (refl, tt))))
alternatives_match value baijiahao = (refl, (refl, (refl, tt)))
alternatives_match value toutiao = (refl, (refl, (refl, (refl, tt))))
alternatives_match value kuaishou = (refl, (refl, (refl, tt)))
alternatives_match value xiaohongshu = (refl, (refl, (refl, tt)))
alternatives_match value fanqie_video = (refl, (refl, (refl, (refl, (refl, (refl, tt))))))

matched_is_alternative :
    (value s : Text) (p : Platform)
    → match_platform value s ≡ ok p
    → one_of s (platform_alternatives p) ≡ true
unfolding match_platform
matched_is_alternative value s p h = ground arith

unfolded_from_str :
    (value : Text) → from_str value ≡ match_platform value (to_ascii_lowercase (trim value))
unfolding from_str
unfolded_from_str value = refl

-- A text names a platform exactly when, without the blanks around it and in lower case, it is one
-- of the alternatives of that platform.
pub from_str_iff :
    (value : Text) (p : Platform)
    → (from_str value ≡ ok p) ↔ Elem (to_ascii_lowercase (trim value)) (platform_alternatives p)
from_str_iff value p =
    let s = to_ascii_lowercase (trim value) in
    (
      (λ h.
          one_of-Elem s (platform_alternatives p)
            (matched_is_alternative value s p (sym (unfolded_from_str value) ∙ h))),
      (λ e.
          unfolded_from_str value
          ∙ (All-Elem (λ a. match_platform value a ≡ ok p) s (platform_alternatives p)
              (alternatives_match value p) e)),
    )
