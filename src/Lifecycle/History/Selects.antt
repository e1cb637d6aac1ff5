-- ===== src/Lifecycle/History/Selects.antt =====
-- Which records a history query of crates/matrixpost-core/src/lifecycle.rs retains.
use mathlib.Core.Path.{subst}
use matri_xpost.Prelude.{
  ℕ, ◌+◌, ◌*◌, ◌-◌, ◌≤◌, ◌<◌, Result, ◌≡◌, refl, sym, ◌∙◌, ap, ◌⊎◌, ◌↔◌, inl, inr, Bool, true,
  false, List, [], ◌∷◌, Option, none, some, ok, err, if◌then◌else◌, any, Elem, filter, Bool-cases,
  arith, ltb, leb, ◌==◌,
}
use matri_xpost.Types.Enums.{
  Platform, PublishState, queued, dispatching, published, platform_eq, platform_eq_iff, state_eq,
}
use matri_xpost.Types.Request.{contains_platform}
use matri_xpost.Types.Article.{Time}
use matri_xpost.Lifecycle.Records.{HistoryRecord}
use matri_xpost.Lifecycle.History.{
  HistoryFilterError, non_positive_days, HistoryStatus, success, publishing, scheduled,
  HistoryFilter, day, trailing_days, is_none_or, from_query, status_matches, matches,
  filter_history,
}

-- The records that have the property, in their order.
pub data Selected {A : Type 0} (P : A → Type 0) : List A → List A → Type 0 where
  nothing : Selected P [] []
  kept : {x : A} → {xs ys : List A} → P x → Selected P xs ys → Selected P (x ∷ xs) (x ∷ ys)
  dropped : {x : A} → {xs ys : List A} → ¬ P x → Selected P xs ys → Selected P (x ∷ xs) ys

-- The state that a status of the query stands for.
pub status_state : HistoryStatus → PublishState
status_state success = published
status_state HistoryStatus.failed = PublishState.failed
status_state publishing = dispatching
status_state scheduled = queued

-- A value meets a condition that may be left out.
abbrev pub Meets : {A : Type 0} → (A → Type 0) → Option A → Type 0
Meets P none = Unit
Meets P (some a) = P a

-- The record is not older than the days, or all are asked for, and it has the platform among its
-- targets and the state.
pub record Wanted (days : Option ℕ) (every : Bool) (platform : Option Platform)
    (status : Option HistoryStatus) (now : Time) (r : HistoryRecord) : Type 0 where
  pub recent : (every ≡ true) ⊎ (now ≤ r.recorded_at + trailing_days days * day)
  pub targeted : Meets (λ p. Elem p r.request.targets) platform
  pub in_state : Meets (λ s. r.state ≡ status_state s) status

contains_platform-Elem :
    (p : Platform) (ps : List Platform) → (contains_platform p ps ≡ true) ↔ Elem p ps
unfolding contains_platform
contains_platform-Elem p ps = (present ps, found ps)
  where
    present : (qs : List Platform) → any (platform_eq p) qs ≡ true → Elem p qs
    present [] h = cc h
    present (q ∷ qs) h = elim (Bool-cases (platform_eq p q)) [
      | inl same ↦ subst (λ o. Elem p (o ∷ qs)) ((platform_eq_iff p q).0 same) Elem.here
      | inr other ↦ Elem.there (present qs (ground (arith, h, other)))
    ]

    found : (qs : List Platform) → Elem p qs → any (platform_eq p) qs ≡ true
    found _ Elem.here = rw ((platform_eq_iff p p).1 refl) refl
    found (q ∷ qs) (Elem.there h) = let rest = found qs h in ground (arith, rest)

state_eq→≡ : (s t : PublishState) → state_eq s t ≡ true → s ≡ t
unfolding state_eq
state_eq→≡ PublishState.draft PublishState.draft h = refl
state_eq→≡ queued queued h = refl
state_eq→≡ dispatching dispatching h = refl
state_eq→≡ published published h = refl
state_eq→≡ PublishState.failed PublishState.failed h = refl
state_eq→≡ PublishState.unavailable PublishState.unavailable h = refl
state_eq→≡ _ _ h = cc h

state_eq_refl : (s : PublishState) → state_eq s s ≡ true
unfolding state_eq
state_eq_refl PublishState.draft = refl
state_eq_refl _ = refl

state_eq_iff : (s t : PublishState) → (state_eq s t ≡ true) ↔ (s ≡ t)
state_eq_iff s t = (state_eq→≡ s t, λ e. ap (state_eq s) (sym e) ∙ state_eq_refl s)

status_matches_iff :
    (status : HistoryStatus) (state : PublishState)
    → (status_matches status state ≡ true) ↔ (state ≡ status_state status)
unfolding status_matches status_state
status_matches_iff success state = state_eq_iff state published
status_matches_iff HistoryStatus.failed state = state_eq_iff state PublishState.failed
status_matches_iff publishing state = state_eq_iff state dispatching
status_matches_iff scheduled state = state_eq_iff state queued

-- A test that may be left out decides a condition that may be left out.
is_none_or-Meets :
    {A : Type 0}
    → (P : A → Type 0) (p : A → Bool) (o : Option A) → ((a : A) → (p a ≡ true) ↔ P a)
    → (is_none_or o p ≡ true) ↔ Meets P o
is_none_or-Meets P p none h = (λ e. tt, λ u. refl)
is_none_or-Meets P p (some a) h = h a

-- A test that decides the property selects it.
filter-Selected :
    {A : Type 0}
    → (P : A → Type 0) (p : A → Bool) → ((x : A) → (p x ≡ true) ↔ P x)
    → (xs : List A) → Selected P xs (filter p xs)
filter-Selected P p h [] = nothing
filter-Selected P p h (x ∷ xs) = elim (Bool-cases (p x)) [
  | inl passes ↦ rw passes (kept ((h x).0 passes) (filter-Selected P p h xs))
  | inr fails ↦ rw fails (dropped (λ w. cc (sym fails ∙ (h x).1 w)) (filter-Selected P p h xs))
]

module _ (days : Option ℕ) (platform : Option Platform) (status : Option HistoryStatus) (now : Time)
    (every : Bool) where
  -- A filter that has the conditions of the query.
  record Built (f : HistoryFilter) : Type 0 where
    cutoff_test :
        (t : Time)
        → (is_none_or f.cutoff (λ cutoff. leb cutoff t) ≡ true)
          ↔ ((every ≡ true) ⊎ (now ≤ t + trailing_days days * day))
    same_platform : f.platform ≡ platform
    same_status : f.status ≡ status

  Built-matches :
      (f : HistoryFilter)
      → Built f
      → (r : HistoryRecord) → (matches f r ≡ true) ↔ Wanted days every platform status now r
  unfolding matches
  Built-matches f b r =
      let recent = b.cutoff_test r.recorded_at in
      let targeted =
        is_none_or-Meets (λ p. Elem p r.request.targets)
          (λ p. contains_platform p r.request.targets) f.platform
          (λ p. contains_platform-Elem p r.request.targets) in
      let in_state =
        is_none_or-Meets (λ s. r.state ≡ status_state s) (λ s. status_matches s r.state) f.status
          (λ s. status_matches_iff s r.state) in
      (
        λ h. record {
          recent = recent.0 (ground (arith, h));
          targeted =
              subst (Meets (λ p. Elem p r.request.targets)) b.same_platform
                (targeted.0 (ground (arith, h)));
          in_state =
              subst (Meets (λ s. r.state ≡ status_state s)) b.same_status
                (in_state.0 (ground (arith, h)));
        },
        λ w.
            let a = recent.1 w.recent in
            let t =
              targeted.1
                (subst (Meets (λ p. Elem p r.request.targets)) (sym b.same_platform) w.targeted) in
            let s =
              in_state.1
                (subst (Meets (λ s. r.state ≡ status_state s)) (sym b.same_status) w.in_state) in
            rw (a, t, s) refl,
      )

  -- What a query answers to a history.
  pub data Answer (history : List HistoryRecord)
      : Option (Result HistoryFilterError HistoryFilter) → Type 0 where
    selects :
        (f : HistoryFilter)
        → (every ≡ true) ⊎ (trailing_days days * day ≤ now)
        → Selected (Wanted days every platform status now) history (filter_history f history)
        → Answer history (some (ok f))
    rejects : every ≡ false → days ≡ some 0 → Answer history (some (err non_positive_days))
    panics : every ≡ false → now < trailing_days days * day → Answer history none

  Built-Answer :
      (history : List HistoryRecord) (f : HistoryFilter)
      → (every ≡ true) ⊎ (trailing_days days * day ≤ now)
      → Built f
      → Answer history (some (ok f))
  unfolding filter_history
  Built-Answer history f in_range b = selects f in_range (
      filter-Selected (Wanted days every platform status now) (matches f) (Built-matches f b)
        history)

module _ (days : Option ℕ) (platform : Option Platform) (status : Option HistoryStatus) (now : Time)
    (history : List HistoryRecord) where
  no_days : (o : Option ℕ) → trailing_days o ≡ 0 → o ≡ some 0
  no_days none h = cc h
  no_days (some n) h = ap some h

  leb-trailing : (n t : ℕ) → (leb (now - n) t ≡ true) ↔ ((false ≡ true) ⊎ (now ≤ t + n))
  leb-trailing n t = (λ h. inr (ground (arith, h)), from)
    where
      from : (false ≡ true) ⊎ (now ≤ t + n) → leb (now - n) t ≡ true
      from (inl e) = cc e
      from (inr h) = ground (arith, h)

  -- A query of a number of days.
  trailing-Answer : Answer days platform status now false history (
      if ltb now (trailing_days days * day)
      then none
      else some (
          ok (record {
            cutoff = some (now - trailing_days days * day);
            platform = platform;
            status = status;
          })))
  trailing-Answer = elim (Bool-cases (ltb now (trailing_days days * day))) [
    | inl early ↦ rw early (panics refl (ltb→lt now (trailing_days days * day) early))
    | inr in_range ↦ rw in_range (
        Built-Answer days platform status now false history
          (record {
            cutoff = some (now - trailing_days days * day);
            platform = platform;
            status = status;
          })
          (inr (not_ltb→le now (trailing_days days * day) in_range))
          (record {
            cutoff_test = leb-trailing (trailing_days days * day);
            same_platform = refl;
            same_status = refl;
          }))
  ]
    where
      ltb→lt : (a b : ℕ) → ltb a b ≡ true → a < b
      ltb→lt a b h = ground arith

      not_ltb→le : (a b : ℕ) → ltb a b ≡ false → b ≤ a
      not_ltb→le a b h = ground arith

  -- A query of all the history, or of a number of days that is not 0 and does not reach back before
  -- the earliest instant, retains the records that are wanted, in their order; no days are rejected,
  -- and a time before the earliest instant is the panic.
  pub from_query-Answer :
      (every : Bool)
      → Answer days platform status now every history (from_query days every platform status now)
  unfolding from_query
  from_query-Answer true =
      Built-Answer days platform status now true history
        (record { cutoff = none; platform = platform; status = status }) (inl refl)
        (record {
          cutoff_test = λ t. (λ h. inl refl, λ h. refl);
          same_platform = refl;
          same_status = refl;
        })
  from_query-Answer false = elim (Bool-cases (trailing_days days == 0)) [
    | inl zero_days ↦ rw zero_days (rejects refl (no_days days (ground (arith, zero_days))))
    | inr some_days ↦ rw some_days trailing-Answer
  ]
