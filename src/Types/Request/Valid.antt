-- ===== src/Types/Request/Valid.antt =====
-- Which requests `validate` accepts, said without the way it checks them.
use matri_xpost.Prelude.{
  suc, ◌≤◌, ◌≡◌, refl, ap, sym, ◌∙◌, ◌≢◌, ◌↔◌, Bool, true, false, ◌||◌, not, List, [], ◌∷◌, map,
  Option, none, some, ok, arith, ◌==◌, ==_iff, any, length, All, Bool-cases, inl, inr,
  reject_if->>-ok, >>=-eq-ok,
}
use mathlib.Core.Path.{subst}
use matri_xpost.Text.{Text, is_blank, is_empty}
use matri_xpost.Types.Enums.{Platform, platform_eq, platform_eq_iff}
use matri_xpost.Types.Request.{
  PublishRequest, PlatformOverride, LocalSchedule, MediaSource, local_file, remote_url,
  contains_platform, insert_platform, platform_set, override_platform, is_blank_some, is_http,
  validate, validate_schedule, validate_source, as_naive,
}

-- No platform stands twice.
abbrev pub Distinct : List Platform → Type 0
Distinct [] = Unit
Distinct (p ∷ ps) = (contains_platform p ps ≡ false) × Distinct ps

length-platform_set_le : (ps : List Platform) → length (platform_set ps) ≤ length ps
unfolding platform_set insert_platform
length-platform_set_le [] = omega arith
length-platform_set_le (p ∷ ps) = ground (arith, length-platform_set_le ps)

contains-insert :
    (q p : Platform) (ps : List Platform)
    → contains_platform q (insert_platform p ps) ≡ (platform_eq q p || contains_platform q ps)
unfolding insert_platform
contains-insert q p ps = elim (Bool-cases (contains_platform p ps)) [
  | inl there ↦
      rw (there, insert_platform)
        (elim (Bool-cases (platform_eq q p)) [
          | inl same ↦ rw same (
              subst (λ r. contains_platform r ps ≡ true) (sym ((platform_eq_iff q p).0 same)) there)
          | inr differ ↦ rw differ
        ])
  | inr new ↦ rw (new, insert_platform) (unfold contains_platform in refl)
]

contains-platform_set :
    (q : Platform) (ps : List Platform)
    → contains_platform q (platform_set ps) ≡ contains_platform q ps
unfolding platform_set
contains-platform_set q [] = refl
contains-platform_set q (p ∷ ps) =
    contains-insert q p (platform_set ps)
    ∙ ap (λ b. platform_eq q p || b) (contains-platform_set q ps)
    ∙ (unfold contains_platform in refl)

length-insert_new :
    (p : Platform) (ps : List Platform)
    → contains_platform p ps ≡ false
    → length (insert_platform p ps) ≡ suc (length ps)
unfolding insert_platform
length-insert_new p ps new = rw (new, insert_platform)

length-insert_old :
    (p : Platform) (ps : List Platform)
    → contains_platform p ps ≡ true
    → length (insert_platform p ps) ≡ length ps
unfolding insert_platform
length-insert_old p ps old = rw (old, insert_platform)

set→Distinct : (ps : List Platform) → length (platform_set ps) ≡ length ps → Distinct ps
unfolding platform_set
set→Distinct [] e = tt
set→Distinct (p ∷ ps) e = elim (Bool-cases (contains_platform p (platform_set ps))) [
  | inl old ↦
      absurd
        (omega (arith, e, length-insert_old p (platform_set ps) old, length-platform_set_le ps))
  | inr new ↦ (
    sym (contains-platform_set p ps) ∙ new,
    set→Distinct ps (omega (arith, e, length-insert_new p (platform_set ps) new)),
  )
]

Distinct→set : (ps : List Platform) → Distinct ps → length (platform_set ps) ≡ length ps
unfolding platform_set
Distinct→set [] d = refl
Distinct→set (p ∷ ps) d =
    length-insert_new p (platform_set ps) (contains-platform_set p ps ∙ d.0)
    ∙ ap suc (Distinct→set ps d.1)

-- The source of a request is a file with a path, or a URL of HTTP.
abbrev pub IsUsable : MediaSource → Type 0
IsUsable (local_file path) = is_empty path ≡ false
IsUsable (remote_url url) = is_http url.scheme ≡ true

abbrev pub IsScheduled : (Text → Bool) → Option LocalSchedule → Type 0
IsScheduled valid_schedule none = Unit
IsScheduled valid_schedule (some s) = valid_schedule s.text ≡ true

-- A request that says what to publish where.
pub record IsValid (valid_schedule : Text → Bool) (r : PublishRequest) : Type 0 where
  pub titled : is_blank r.title ≡ false
  pub short_titled : is_blank_some r.short_title ≡ false
  pub named : is_blank_some r.task_name ≡ false
  pub targeted : r.targets ≢ []
  pub targets_distinct : Distinct r.targets
  pub overrides_distinct : Distinct (map override_platform r.overrides)
  pub overrides_targeted :
      All (λ (o : PlatformOverride). contains_platform o.platform r.targets ≡ true) r.overrides
  pub scheduled : IsScheduled valid_schedule r.scheduled_at
  pub usable : IsUsable r.source

abbrev is_targeted : List Platform → PlatformOverride → Bool
is_targeted targets o = contains_platform o.platform targets

any→All :
    (targets : List Platform) (os : List PlatformOverride)
    → any (λ o. not (is_targeted targets o)) os ≡ false
    → All (λ (o : PlatformOverride). contains_platform o.platform targets ≡ true) os
any→All targets [] h = tt
any→All targets (o ∷ os) h = (ground arith, any→All targets os (ground arith))

All→any :
    (targets : List Platform) (os : List PlatformOverride)
    → All (λ (o : PlatformOverride). contains_platform o.platform targets ≡ true) os
    → any (λ o. not (is_targeted targets o)) os ≡ false
All→any targets [] h = refl
All→any targets (o ∷ os) h = ground (arith, All→any targets os h.1)

pub schedule_iff :
    (valid_schedule : Text → Bool) (s : Option LocalSchedule)
    → (validate_schedule valid_schedule s ≡ ok tt) ↔ IsScheduled valid_schedule s
unfolding validate_schedule as_naive
schedule_iff valid_schedule none = ((λ _. tt), λ _. refl)
schedule_iff valid_schedule (some s) = ground arith

source_iff : (m : MediaSource) → (validate_source m ≡ ok tt) ↔ IsUsable m
unfolding validate_source
source_iff (local_file path) = ground arith
source_iff (remote_url url) = ground arith

length-zero_iff : (ps : List Platform) → (length ps == 0) ≡ false → ps ≢ []
length-zero_iff [] h e = cc h
length-zero_iff (p ∷ ps) h e = cc e

length-pos : (ps : List Platform) → ps ≢ [] → (length ps == 0) ≡ false
length-pos [] h = absurd (h refl)
length-pos (p ∷ ps) h = ground arith

length-named : (os : List PlatformOverride) → length (map override_platform os) ≡ length os
length-named [] = refl
length-named (o ∷ os) = ap suc (length-named os)

not-not : (b : Bool) → not b ≡ false → b ≡ true
not-not true h = refl
not-not false h = cc h

-- The tests of `validate`, all passed.
abbrev Passes : (Text → Bool) → PublishRequest → Type 0
Passes valid_schedule r =
    (is_blank r.title ≡ false)
    × (is_blank_some r.short_title ≡ false)
    × (is_blank_some r.task_name ≡ false)
    × ((length r.targets == 0) ≡ false)
    × ((length (platform_set r.targets) == length r.targets) ≡ true)
    × ((length (platform_set (map override_platform r.overrides)) == length r.overrides) ≡ true)
    × (any (λ o. not (is_targeted r.targets o)) r.overrides ≡ false)
    × (validate_schedule valid_schedule r.scheduled_at ≡ ok tt)
    × (validate_source r.source ≡ ok tt)

validate-Passes :
    (valid_schedule : Text → Bool) (r : PublishRequest)
    → validate valid_schedule r ≡ ok tt
    → Passes valid_schedule r
unfolding validate
validate-Passes valid_schedule r h =
    let (title, h₁) = reject_if->>-ok (is_blank r.title) _ _ _ h in
    let (short, h₂) = reject_if->>-ok (is_blank_some r.short_title) _ _ _ h₁ in
    let (task, h₃) = reject_if->>-ok (is_blank_some r.task_name) _ _ _ h₂ in
    let (targets, h₄) = reject_if->>-ok (length r.targets == 0) _ _ _ h₃ in
    let (distinct, h₅) =
      reject_if->>-ok (not (length (platform_set r.targets) == length r.targets)) _ _ _ h₄ in
    let (overrides, h₆) =
      reject_if->>-ok
        (not (length (platform_set (map override_platform r.overrides)) == length r.overrides)) _ _
        _ h₅ in
    let (inside, h₇) =
      reject_if->>-ok (any (λ o. not (is_targeted r.targets o)) r.overrides) _ _ _ h₆ in
    let (schedule, h₈, h₉) = >>=-eq-ok (validate_schedule valid_schedule r.scheduled_at) _ h₇ in
    (title, short, task, targets, not-not _ distinct, not-not _ overrides, inside, h₈, h₉)

Passes-validate :
    (valid_schedule : Text → Bool) (r : PublishRequest)
    → Passes valid_schedule r
    → validate valid_schedule r ≡ ok tt
unfolding validate
Passes-validate valid_schedule r
      (title, short, task, targets, distinct, overrides, inside, schedule, source) =
    rw (title, short, task, targets, distinct, overrides, inside, schedule) source

-- `validate` accepts a request exactly when it is valid: its titles and its name are not blank, it
-- has targets and none twice, its overrides are of distinct platforms among the targets, its
-- schedule is one that chrono parses, and its source is a file with a path or a URL of HTTP.
pub validate_iff :
    (valid_schedule : Text → Bool) (r : PublishRequest)
    → (validate valid_schedule r ≡ ok tt) ↔ IsValid valid_schedule r
validate_iff valid_schedule r = (
  (λ h.
      let (title, short, task, targets, distinct, overrides, inside, schedule, source) =
        validate-Passes valid_schedule r h in
      record {
        titled = title;
        short_titled = short;
        named = task;
        targeted = length-zero_iff r.targets targets;
        targets_distinct = set→Distinct r.targets ((==_iff _ _).0 distinct);
        overrides_distinct =
            set→Distinct (map override_platform r.overrides)
              ((==_iff _ _).0 overrides ∙ sym (length-named r.overrides));
        overrides_targeted = any→All r.targets r.overrides inside;
        scheduled = (schedule_iff valid_schedule r.scheduled_at).0 schedule;
        usable = (source_iff r.source).0 source;
      }),
  (λ v. Passes-validate valid_schedule r (
    v.titled,
    v.short_titled,
    v.named,
    length-pos r.targets v.targeted,
    (==_iff _ _).1 (Distinct→set r.targets v.targets_distinct),
    (==_iff _ _).1 (
        Distinct→set (map override_platform r.overrides) v.overrides_distinct
        ∙ length-named r.overrides),
    All→any r.targets r.overrides v.overrides_targeted,
    (schedule_iff valid_schedule r.scheduled_at).1 v.scheduled,
    (source_iff r.source).1 v.usable,
  )),
)
