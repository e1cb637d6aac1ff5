-- ===== src/Runner/Registry/Laws.antt =====
-- What a dispatch to all targets answers.
use matri_xpost.Prelude.{
  ◌≡◌, refl, ap, sym, ◌∙◌, ◌≢◌, inl, inr, Bool, true, false, ◌||◌, List, [], ◌∷◌, Option, none,
  some, ok, arith, Bool-cases,
}
use mathlib.Core.Path.{subst₂}
use matri_xpost.Text.{Text}
use matri_xpost.Error.{DomainError, Fallible}
use matri_xpost.Types.Enums.{Platform, platform_eq, platform_eq_iff}
use matri_xpost.Types.Request.{PublishRequest, contains_platform, validate}
use matri_xpost.Runner.Outcomes.{DispatchOutcome, empty, insert}
use matri_xpost.Runner.Registry.{
  ProviderRegistry, ProviderDispatchReport, dispatch_checked, dispatch, outcome_of, dispatch_each,
  dispatch_all,
}

neither : (a b : Bool) → (a || b) ≡ false → (a ≡ false) × (b ≡ false)
neither a b h = ground arith

first_of : (a b : Bool) → (a || b) ≡ true → b ≡ false → a ≡ true
first_of a b h g = ground arith

nobody : (q : Platform) → contains_platform q [] ≢ true
unfolding contains_platform
nobody q h = cc h

module _ {Address W : Type 0} (valid_schedule : Text → Bool) (registry : ProviderRegistry Address W)
    (request : PublishRequest) (display : DomainError → Text) where
  -- The outcome of one target, in whatever state the world is when its turn comes.
  abbrev pub outcome_at : Platform → W → DispatchOutcome
  outcome_at q w =
      outcome_of valid_schedule registry request display (dispatch_checked registry q request w).0

  -- What the report has for a platform, by whether it is a target.
  pub data Answer (q : Platform) : Bool → Option DispatchOutcome → Type 0 where
    not_asked : Answer q false none
    answered : (w : W) → Answer q true (some (outcome_at q w))

  contains-cons :
      (q p : Platform) (ps : List Platform)
      → contains_platform q (p ∷ ps) ≡ (platform_eq q p || contains_platform q ps)
  unfolding contains_platform
  contains-cons q p ps = refl

  insert-same :
      (q p : Platform) (v : DispatchOutcome) (m : ProviderDispatchReport)
      → platform_eq q p ≡ true
      → insert p v m q ≡ some v
  unfolding insert
  insert-same q p v m same = rw same

  insert-other :
      (q p : Platform) (v : DispatchOutcome) (m : ProviderDispatchReport)
      → platform_eq q p ≡ false
      → insert p v m q ≡ m q
  unfolding insert
  insert-other q p v m other = rw other

  each-skips :
      (q : Platform) (ps : List Platform) (m : ProviderDispatchReport) (w : W)
      → contains_platform q ps ≡ false
      → (dispatch_each valid_schedule registry request display ps m w).0 q ≡ m q
  unfolding dispatch_each
  each-skips q [] m w absent = refl
  each-skips q (p ∷ ps) m w absent =
      let (other, later) =
        neither (platform_eq q p) (contains_platform q ps) (sym (contains-cons q p ps) ∙ absent) in
      let r = dispatch valid_schedule registry request p w in
      let outcome = outcome_of valid_schedule registry request display r.0 in
      each-skips q ps (insert p outcome m) r.1 later ∙ insert-other q p outcome m other

  each-answers :
      (q : Platform) (ps : List Platform) (m : ProviderDispatchReport) (w : W)
      → contains_platform q ps ≡ true
      → (w₁ : W) × ((dispatch_each valid_schedule registry request display ps m w).0 q
          ≡ some (
              outcome_of valid_schedule registry request display
                (dispatch valid_schedule registry request q w₁).0))
  unfolding dispatch_each
  each-answers q [] m w present = absurd (nobody q present)
  each-answers q (p ∷ ps) m w present =
      let r = dispatch valid_schedule registry request p w in
      let outcome = outcome_of valid_schedule registry request display r.0 in
      elim (Bool-cases (contains_platform q ps)) [
        | inl later ↦ each-answers q ps (insert p outcome m) r.1 later
        | inr last ↦
            (let same =
                first_of (platform_eq q p) (contains_platform q ps)
                  (sym (contains-cons q p ps) ∙ present) last in
              (
                w,
                each-skips q ps (insert p outcome m) r.1 last
                    ∙ insert-same q p outcome m same
                    ∙ ap
                        (λ (t : Platform). some (
                          outcome_of valid_schedule registry request display
                            (dispatch valid_schedule registry request t w).0))
                        (sym ((platform_eq_iff q p).0 same)),
              ))
      ]

  dispatch-checked :
      (q : Platform) (w : W)
      → validate valid_schedule request ≡ ok tt
      → contains_platform q request.targets ≡ true
      → dispatch valid_schedule registry request q w ≡ dispatch_checked registry q request w
  unfolding dispatch
  dispatch-checked q w valid target = rw (valid, target, dispatch)

  -- A valid request is dispatched to all its targets, whatever the providers answer: the report has
  -- for each target what the registry answers when it is its turn, a failure included, and nothing
  -- for any other platform.
  pub dispatch_all-Answer :
      (w : W)
      → validate valid_schedule request ≡ ok tt
      → (report : ProviderDispatchReport) × (w' : W) × (dispatch_all valid_schedule registry request
            display w
          ≡ (ok report, w'))
        × ((q : Platform) → Answer q (contains_platform q request.targets) (report q))
  unfolding dispatch_all
  dispatch_all-Answer w valid =
      let run = dispatch_each valid_schedule registry request display request.targets empty w in
      (
        run.0,
        run.1,
        rw (valid, dispatch_all),
        λ q. elim (Bool-cases (contains_platform q request.targets)) [
          | inl target ↦
              (let (w₁, at) = each-answers q request.targets empty w target in
                subst₂ (Answer q) (sym target)
                  (sym (
                    at
                    ∙ ap
                        (λ (r : Fallible DispatchOutcome × W).
                          some (outcome_of valid_schedule registry request display r.0))
                        (dispatch-checked q w₁ valid target)))
                  (answered w₁))
          | inr other ↦
              subst₂ (Answer q) (sym other) (sym (each-skips q request.targets empty w other))
                not_asked
        ],
      )
