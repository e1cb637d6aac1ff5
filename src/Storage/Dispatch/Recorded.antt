-- ===== src/Storage/Dispatch/Recorded.antt =====
-- What a state in the history of a dispatch says of its outcomes.
use matri_xpost.Prelude.{
  ◌≡◌, ◌≢◌, ◌↔◌, ◌⊎◌, inl, inr, arith, refl, sym, ◌∙◌, Bool, true, false, ◌&&◌, not, List, [], ◌∷◌,
  all, Option, none, some, if◌then◌else◌, Elem, here, there, &&-true,
}
use mathlib.Core.Path.{subst}
use matri_xpost.Text.{Text}
use matri_xpost.Types.Enums.{
  Platform, douyin, wechat_channels, bilibili, baijiahao, toutiao, kuaishou, xiaohongshu,
  fanqie_video, all_platforms, PublishState, published, failed, unavailable,
}
use matri_xpost.Runner.Outcomes.{
  DispatchOutcome, queued, unavailable_outcome, is_queued, is_unavailable, PlatformMap, values,
  collect_values,
}
use matri_xpost.Runner.Registry.{ProviderDispatchReport}
use matri_xpost.Storage.Dispatch.{is_nil, provider_dispatch_history_outcome}

module _ {V : Type 0} (test : V → Bool) (m : PlatformMap V) where
  same : (u v : V) → some u ≡ some v → u ≡ v
  same u v g = cc g

  collect_values-Elem :
      (ps : List Platform) (p : Platform) (v : V)
      → m p ≡ some v
      → Elem p ps
      → all test (collect_values m ps) ≡ true
      → test v ≡ true
  unfolding collect_values
  collect_values-Elem [] p v h e t = elim e [ ]
  collect_values-Elem (q ∷ ps) p v h here t = taken (m q) h t
    where
      taken :
          (o : Option V)
          → o ≡ some v
          → all test (elim o [ none ↦ collect_values m ps | some u ↦ u ∷ collect_values m ps ])
            ≡ true
          → test v ≡ true
      taken none g s = cc g
      taken (some u) g s = subst (λ w. test w ≡ true) (same u v g) (&&-true (test u) _ s).0
  collect_values-Elem (q ∷ ps) p v h (there e) t = collect_values-Elem ps p v h e (past (m q) t)
    where
      past :
          (o : Option V)
          → all test (elim o [ none ↦ collect_values m ps | some u ↦ u ∷ collect_values m ps ])
            ≡ true
          → all test (collect_values m ps) ≡ true
      past none s = s
      past (some u) s = (&&-true (test u) _ s).1

every_platform : (p : Platform) → Elem p all_platforms
unfolding all_platforms
every_platform douyin = here
every_platform wechat_channels = there here
every_platform bilibili = there (there here)
every_platform baijiahao = there (there (there here))
every_platform toutiao = there (there (there (there here)))
every_platform kuaishou = there (there (there (there (there here))))
every_platform xiaohongshu = there (there (there (there (there (there here)))))
every_platform fanqie_video = there (there (there (there (there (there (there here))))))

module _ {V : Type 0} (m : PlatformMap V) where
  all-collect_values :
      (test : V → Bool) (ps : List Platform)
      → ((p : Platform) (v : V) → m p ≡ some v → test v ≡ true)
      → all test (collect_values m ps) ≡ true
  unfolding collect_values
  all-collect_values test [] h = refl
  all-collect_values test (q ∷ ps) h = taken (m q) refl (all-collect_values test ps h)
    where
      taken :
          (o : Option V)
          → m q ≡ o
          → all test (collect_values m ps) ≡ true
          → all test (elim o [ none ↦ collect_values m ps | some u ↦ u ∷ collect_values m ps ])
            ≡ true
      taken none e later = later
      taken (some u) e later = rw (h q u e) later

  collect_values-filled :
      (ps : List Platform)
      → is_nil (collect_values m ps) ≡ false
      → (p : Platform) × (v : V) × (m p ≡ some v)
  unfolding collect_values
  collect_values-filled [] h = cc h
  collect_values-filled (q ∷ ps) h = taken (m q) refl (collect_values-filled ps) h
    where
      taken :
          (o : Option V)
          → m q ≡ o
          → (is_nil (collect_values m ps) ≡ false → (p : Platform) × (v : V) × (m p ≡ some v))
          → is_nil (elim o [ none ↦ collect_values m ps | some u ↦ u ∷ collect_values m ps ])
            ≡ false
          → (p : Platform) × (v : V) × (m p ≡ some v)
      taken none e later k = later k
      taken (some u) e later k = (q, u, e)

  filled-collect_values :
      (ps : List Platform) (p : Platform) (v : V)
      → m p ≡ some v
      → Elem p ps
      → is_nil (collect_values m ps) ≡ false
  unfolding collect_values
  filled-collect_values [] p v h e = elim e [ ]
  filled-collect_values (q ∷ ps) p v h here = first (m q) h
    where
      first :
          (o : Option V)
          → o ≡ some v
          → is_nil (elim o [ none ↦ collect_values m ps | some u ↦ u ∷ collect_values m ps ])
            ≡ false
      first none e = cc e
      first (some u) e = refl
  filled-collect_values (q ∷ ps) p v h (there e) = past (m q) (filled-collect_values ps p v h e)
    where
      past :
          (o : Option V)
          → is_nil (collect_values m ps) ≡ false
          → is_nil (elim o [ none ↦ collect_values m ps | some u ↦ u ∷ collect_values m ps ])
            ≡ false
      past none later = later
      past (some u) later = refl

-- An outcome that says that the provider queued the request, or that it was unavailable.
abbrev pub IsQueued : DispatchOutcome → Type 0
IsQueued outcome = (id : Text) × (outcome ≡ queued id)

abbrev pub IsUnavailable : DispatchOutcome → Type 0
IsUnavailable outcome = (reason : Text) × (outcome ≡ unavailable_outcome reason)

-- The report has an outcome, and every outcome that it has is such.
pub record AllOf (P : DispatchOutcome → Type 0) (report : ProviderDispatchReport) : Type 0 where
  pub platform : Platform
  pub outcome : DispatchOutcome
  pub reported : report platform ≡ some outcome
  pub every : (p : Platform) (o : DispatchOutcome) → report p ≡ some o → P o

is_queued_iff : (o : DispatchOutcome) → (is_queued o ≡ true) ↔ IsQueued o
is_queued_iff (queued id) = ((λ h. (id, refl)), λ h. refl)
is_queued_iff _ = ((λ h. cc h), λ (id, e). cc e)

is_unavailable_iff : (o : DispatchOutcome) → (is_unavailable o ≡ true) ↔ IsUnavailable o
is_unavailable_iff (unavailable_outcome reason) = ((λ h. (reason, refl)), λ h. refl)
is_unavailable_iff _ = ((λ h. cc h), λ (reason, e). cc e)

-- A test of all the outcomes of a report, of which there is one.
tests-AllOf :
    (P : DispatchOutcome → Type 0) (test : DispatchOutcome → Bool)
    → ((o : DispatchOutcome) → (test o ≡ true) ↔ P o)
    → (report : ProviderDispatchReport)
    → ((not (is_nil (values report)) && all test (values report)) ≡ true) ↔ AllOf P report
unfolding values
tests-AllOf P test decides report = (forth, back)
  where
    forth : (not (is_nil (values report)) && all test (values report)) ≡ true → AllOf P report
    forth h =
        let (filled, passed) = &&-true _ _ h in
        let (p, v, e) = collect_values-filled report all_platforms (not_not _ filled) in
        record {
          platform = p;
          outcome = v;
          reported = e;
          every = λ q o k.
              (decides o).0
                (collect_values-Elem test report all_platforms q o k (every_platform q) passed);
        }
      where
        not_not : (b : Bool) → not b ≡ true → b ≡ false
        not_not b k = ground arith

    back : AllOf P report → (not (is_nil (values report)) && all test (values report)) ≡ true
    back a =
        rw
          (
            filled-collect_values report all_platforms a.platform a.outcome a.reported
                (every_platform a.platform),
            all-collect_values report test all_platforms (λ p v e. (decides v).1 (a.every p v e)),
          )
          refl

abbrev outcome_by : Bool → Bool → Text → Text → Text → PublishState × Text
outcome_by q u a b c = if q then (published, a) else if u then (unavailable, b) else (failed, c)

by_tests :
    (q u : Bool) (a b c : Text)
    → (q ≡ true → u ≢ true)
    → (((outcome_by q u a b c).0 ≡ published) ↔ (q ≡ true))
      × (((outcome_by q u a b c).0 ≡ unavailable) ↔ (u ≡ true))
      × (((outcome_by q u a b c).0 ≡ published)
          ⊎ (((outcome_by q u a b c).0 ≡ unavailable) ⊎ ((outcome_by q u a b c).0 ≡ failed)))
by_tests true u a b c apart =
    (((λ h. refl), λ h. refl), ((λ h. cc h), λ h. absurd (apart refl h)), inl refl)
by_tests false true a b c apart =
    (((λ h. cc h), λ h. cc h), ((λ h. refl), λ h. refl), inr (inl refl))
by_tests false false a b c apart =
    (((λ h. cc h), λ h. cc h), ((λ h. cc h), λ h. cc h), inr (inr refl))

not_both : (report : ProviderDispatchReport) → AllOf IsQueued report → ¬ AllOf IsUnavailable report
not_both report q u =
    let (id, e) = q.every u.platform u.outcome u.reported in
    let (reason, f) = u.every u.platform u.outcome u.reported in cc (sym e ∙ f)

-- The history of a dispatch says published exactly if the report has an outcome and every provider
-- in it queued the request, unavailable exactly if it has an outcome and every provider in it was
-- unavailable, and else failed.
pub provider_dispatch_history_outcome_iff :
    (report : ProviderDispatchReport)
    → (((provider_dispatch_history_outcome report).0 ≡ published) ↔ AllOf IsQueued report)
      × (((provider_dispatch_history_outcome report).0 ≡ unavailable) ↔ AllOf IsUnavailable report)
      × (((provider_dispatch_history_outcome report).0 ≡ published)
          ⊎ (((provider_dispatch_history_outcome report).0 ≡ unavailable)
              ⊎ ((provider_dispatch_history_outcome report).0 ≡ failed)))
unfolding provider_dispatch_history_outcome
provider_dispatch_history_outcome_iff report =
    let (all_queued, queued_all) = tests-AllOf IsQueued is_queued is_queued_iff report in
    let (all_away, away_all) = tests-AllOf IsUnavailable is_unavailable is_unavailable_iff report in
    let (p, u, rest) = by_tests _ _ _ _ _ (λ a b. not_both report (all_queued a) (all_away b)) in
    (
      ((λ h. all_queued (p.0 h)), λ h. p.1 (queued_all h)),
      ((λ h. all_away (u.0 h)), λ h. u.1 (away_all h)),
      rest,
    )
