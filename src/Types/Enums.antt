-- ===== src/Types/Enums.antt =====
-- The enumerations of types/account.rs, types/article.rs and lifecycle.rs, with the equality that
-- Rust derives for them and, for a platform, the derived order.
use matri_xpost.Prelude.{
  ℕ, zero, suc, ◌≡◌, refl, ap, sym, ◌∙◌, ◌↔◌, Bool, true, false, ◌==◌, ==_iff, List, [], ◌∷◌,
}

pub data Platform : Type 0 where
  douyin wechat_channels bilibili baijiahao toutiao kuaishou xiaohongshu fanqie_video : Platform

-- `Platform::ALL`
unfoldable pub all_platforms : List Platform
all_platforms =
    douyin ∷ wechat_channels ∷ bilibili ∷ baijiahao ∷ toutiao ∷ kuaishou ∷ xiaohongshu
    ∷ fanqie_video ∷ []

-- The place in the declaration, by which the derived `Ord` compares.
unfoldable pub index : Platform → ℕ
index douyin = 0
index wechat_channels = 1
index bilibili = 2
index baijiahao = 3
index toutiao = 4
index kuaishou = 5
index xiaohongshu = 6
index fanqie_video = 7

unfoldable pub platform_eq : Platform → Platform → Bool
unfolding index
platform_eq p q = index p == index q

from_index : ℕ → Platform
from_index zero = douyin
from_index (suc zero) = wechat_channels
from_index (suc (suc zero)) = bilibili
from_index (suc (suc (suc zero))) = baijiahao
from_index (suc (suc (suc (suc zero)))) = toutiao
from_index (suc (suc (suc (suc (suc zero))))) = kuaishou
from_index (suc (suc (suc (suc (suc (suc zero)))))) = xiaohongshu
from_index _ = fanqie_video

from_index-index : (p : Platform) → from_index (index p) ≡ p
unfolding from_index index
from_index-index douyin = refl
from_index-index _ = refl

pub index-injective : (p q : Platform) → index p ≡ index q → p ≡ q
index-injective p q e = sym (from_index-index p) ∙ ap from_index e ∙ from_index-index q

pub platform_eq_iff : (p q : Platform) → (platform_eq p q ≡ true) ↔ (p ≡ q)
unfolding platform_eq
platform_eq_iff p q =
    (λ h. index-injective p q ((==_iff (index p) (index q)).0 h), λ e. (==_iff _ _).1 (ap index e))

pub data AccountStatus : Type 0 where
  logged_in expired logged_out unavailable : AccountStatus

pub data ArticlePlatform : Type 0 where
  juejin : ArticlePlatform

pub data PublishState : Type 0 where
  draft queued dispatching published failed unavailable : PublishState

-- The derived equality of `PublishState`.
unfoldable pub state_eq : PublishState → PublishState → Bool
state_eq draft draft = true
state_eq queued queued = true
state_eq dispatching dispatching = true
state_eq published published = true
state_eq failed failed = true
state_eq PublishState.unavailable PublishState.unavailable = true
state_eq _ _ = false

pub data BusinessObjectStatus : Type 0 where
  draft active completed archived : BusinessObjectStatus

pub data ApprovalStatus : Type 0 where
  pending approved rejected : ApprovalStatus

pub data LedgerDirection : Type 0 where
  expense revenue : LedgerDirection

pub data ArticleAccountStatus : Type 0 where
  logged_in expired logged_out unavailable : ArticleAccountStatus
