-- ===== src/Types/Upstream/Laws.antt =====
-- What a request says that was made from an upstream input.
use mathlib.Core.Path.{subst}
use matri_xpost.Prelude.{
  ◌<◌, ◌≡◌, refl, ap₂, sym, inl, inr, Bool, true, List, [], ◌∷◌, map, All, Pairwise, Option, none,
  some, is_some, &&-true, ◌&&◌, all, ltb, collect, ok, Bool-cases, >>=-eq-ok, arith,
}
use matri_xpost.Text.{Text}
use matri_xpost.Error.{Fallible}
use matri_xpost.Types.Enums.{Platform, index, all_platforms}
use matri_xpost.Types.Account.{from_str}
use matri_xpost.Types.Request.{
  Url, MediaSource, LocalSchedule, PlatformOverride, PublishRequest, override_platform, validate,
}
use matri_xpost.Runner.Outcomes.{PlatformMap, empty, values, collect_values}
use matri_xpost.Runner.Outcomes.Laws.{Holds, empty-Holds, insert-Holds}
use matri_xpost.Types.Upstream.{
  UpstreamPublishDto, UpstreamPlatformOption, merge_override, normalize, set_statements,
  to_override,
}
use matri_xpost.Types.Upstream.Convert.{
  entries_or_empty, upstream_options, upstream_overrides, upstream_request, default_statement,
  upstream_source, upstream_schedule, from_upstream,
}

-- The order of the platforms.
abbrev pub Before : Platform → Platform → Type 0
Before p q = index p < index q

abbrev AtOwn : Platform → PlatformOverride → Type 0
AtOwn p o = o.platform ≡ p

normalize-AtOwn :
    (overrides : List PlatformOverride) (m : PlatformMap PlatformOverride)
    → Holds AtOwn m
    → Holds AtOwn (normalize overrides m)
unfolding normalize
normalize-AtOwn [] m h = h
normalize-AtOwn (o ∷ rest) m h =
    normalize-AtOwn rest _ (insert-Holds AtOwn o.platform _ m (merged (m o.platform) refl) h)
  where
    merged :
        (found : Option PlatformOverride)
        → m o.platform ≡ found
        → AtOwn o.platform (elim found [ none ↦ o | some current ↦ merge_override o current ])
    merged none e = refl
    merged (some current) e = h o.platform current e

-- The platforms of what a map holds are among those that were looked up, in their order.
collected-All :
    (P : Platform → Type 0) (m : PlatformMap PlatformOverride) (ps : List Platform)
    → Holds AtOwn m
    → All P ps
    → All P (map override_platform (collect_values m ps))
unfolding collect_values
collected-All P m [] h k = tt
collected-All P m (p ∷ ps) h k = found (collected-All P m ps h k.1) (m p) refl
  where
    found :
        All P (map override_platform (collect_values m ps))
        → (o : Option PlatformOverride) → m p ≡ o
        → All P (
            map override_platform
              (elim o [ none ↦ collect_values m ps | some v ↦ v ∷ collect_values m ps ]))
    found later none e = later
    found later (some v) e = (subst P (sym (h p v e)) k.0, later)

collected-Before :
    (m : PlatformMap PlatformOverride) (ps : List Platform)
    → Holds AtOwn m
    → Pairwise Before ps
    → Pairwise Before (map override_platform (collect_values m ps))
unfolding collect_values
collected-Before m [] h k = tt
collected-Before m (p ∷ ps) h k = found (collected-Before m ps h k.1) (m p) refl
  where
    found :
        Pairwise Before (map override_platform (collect_values m ps))
        → (o : Option PlatformOverride) → m p ≡ o
        → Pairwise Before (
            map override_platform
              (elim o [ none ↦ collect_values m ps | some v ↦ v ∷ collect_values m ps ]))
    found later none e = later
    found later (some v) e = (
      collected-All (Before v.platform) m ps h (subst (λ q. All (Before q) ps) (sym (h p v e)) k.0),
      later,
    )

before : Platform → Platform → Bool
before p q = ltb (index p) (index q)

each_before : List Platform → Bool
each_before [] = true
each_before (p ∷ ps) = all (before p) ps && each_before ps

all-Before : (p : Platform) (ps : List Platform) → all (before p) ps ≡ true → All (Before p) ps
unfolding before
all-Before p [] h = tt
all-Before p (q ∷ ps) h = (ground (arith, h), all-Before p ps (&&-true _ _ h).1)

each_before-Pairwise : (ps : List Platform) → each_before ps ≡ true → Pairwise Before ps
unfolding each_before
each_before-Pairwise [] h = tt
each_before-Pairwise (p ∷ ps) h =
    (all-Before p ps (&&-true _ _ h).0, each_before-Pairwise ps (&&-true _ _ h).1)

all_platforms-Before : Pairwise Before all_platforms
unfolding all_platforms index before each_before
all_platforms-Before = each_before-Pairwise all_platforms refl

-- The override has a creative statement, if there is one for all.
abbrev pub IsStated : Option Text → PlatformOverride → Type 0
IsStated none o = Unit
IsStated (some statement) o = is_some o.creative_statement ≡ true

-- What a request says that was made from an input.
pub record Converted (valid_schedule : Text → Bool) (value : UpstreamPublishDto)
    (request : PublishRequest) : Type 0 where
  pub valid : validate valid_schedule request ≡ ok tt
  pub same_platforms : request.targets ≡ map override_platform request.overrides
  pub ordered : Pairwise Before request.targets
  pub stated : All (IsStated value.creative_statement) request.overrides

IsStated-each :
    (statement : Option Text) (os : List PlatformOverride)
    → All (IsStated statement) (map (default_statement statement) os)
IsStated-each none [] = tt
IsStated-each none (o ∷ os) = (tt, IsStated-each none os)
IsStated-each (some statement) [] = tt
IsStated-each (some statement) (o ∷ os) = (
  elim (Bool-cases (is_some o.creative_statement)) [
    | inl own ↦ rw own own
    | inr without ↦ rw without refl
  ],
  IsStated-each (some statement) os,
)

default-platform :
    (statement : Option Text) (o : PlatformOverride)
    → override_platform (default_statement statement o) ≡ override_platform o
default-platform none o = refl
default-platform (some statement) o = elim (Bool-cases (is_some o.creative_statement)) [
  | inl own ↦ rw own refl
  | inr without ↦ rw without refl
]

same_after :
    (statement : Option Text) (os : List PlatformOverride)
    → map override_platform os ≡ map override_platform (map (default_statement statement) os)
same_after statement [] = refl
same_after statement (o ∷ os) =
    ap₂ (λ p ps. p ∷ ps) (sym (default-platform statement o)) (same_after statement os)

ok_same : {A : Type 0} {a b : A} → Path (Fallible A) (ok a) (ok b) → a ≡ b
ok_same q = cc q

overrides_ordered :
    (value : UpstreamPublishDto) (overrides : List PlatformOverride)
    → upstream_overrides value ≡ ok overrides
    → Pairwise Before (map override_platform overrides)
unfolding upstream_overrides values
overrides_ordered value overrides h =
    let (parsed, e₁, h₁) =
      >>=-eq-ok
        (collect (λ (item : UpstreamPlatformOption). from_str item.platform)
          (upstream_options value))
        _ h in
    let (named, e₂, h₂) =
      >>=-eq-ok (collect (to_override value.phone value.partition) (upstream_options value)) _ h₁ in
    let (stated, e₃, h₃) =
      >>=-eq-ok (set_statements (entries_or_empty value.creative_statements) named) _ h₂ in
    subst (λ os. Pairwise Before (map override_platform os)) (ok_same h₃)
      (collected-Before (normalize stated empty) all_platforms
        (normalize-AtOwn stated empty (empty-Holds AtOwn)) all_platforms-Before)

request-Converted :
    (valid_schedule : Text → Bool) (value : UpstreamPublishDto) (overrides : List PlatformOverride)
    (source : MediaSource) (scheduled_at : Option LocalSchedule)
    → upstream_overrides value ≡ ok overrides
    → validate valid_schedule (upstream_request value overrides source scheduled_at) ≡ ok tt
    → Converted valid_schedule value (upstream_request value overrides source scheduled_at)
unfolding upstream_request
request-Converted valid_schedule value overrides source scheduled_at found checked = record {
  valid = checked;
  same_platforms = same_after value.creative_statement overrides;
  ordered = overrides_ordered value overrides found;
  stated = IsStated-each value.creative_statement overrides;
}

-- An upstream input that is converted gives a valid request, whose targets are the platforms of its
-- overrides, each once and in the order of the platforms; if the input has a creative statement for
-- all, each override has one.
pub from_upstream-Converted :
    (parse_url : Text → Option Url) (valid_schedule : Text → Bool) (value : UpstreamPublishDto)
    (request : PublishRequest)
    → from_upstream parse_url valid_schedule value ≡ ok request
    → Converted valid_schedule value request
unfolding from_upstream
from_upstream-Converted parse_url valid_schedule value request h =
    let (overrides, e₁, h₁) = >>=-eq-ok (upstream_overrides value) _ h in
    let (source, e₂, h₂) = >>=-eq-ok (upstream_source parse_url valid_schedule value.file) _ h₁ in
    let (scheduled_at, e₃, h₃) =
      >>=-eq-ok (upstream_schedule parse_url valid_schedule value.publish_at) _ h₂ in
    let (u, checked, h₄) =
      >>=-eq-ok (validate valid_schedule (upstream_request value overrides source scheduled_at)) _
        h₃ in
    subst (Converted valid_schedule value) (ok_same h₄)
      (request-Converted valid_schedule value overrides source scheduled_at e₁ checked)
