-- ===== src/Storage/Objects/Updates.antt =====
-- What an update of the controlled states of a business object does.
use matri_xpost.Prelude.{
  ℕ, ◌+◌, ◌≡◌, refl, ap, ◌∙◌, ◌≢◌, ◌⊎◌, inl, inr, Bool, true, false, not, find?, some, ok, err,
  arith, ◌==◌, ==_iff, ok_or, ok_or-ok, reject_if, reject_if-ok, ◌&&◌, if◌then◌else◌,
}
use mathlib.Core.Path.{subst}
use matri_xpost.Text.{Text}
use matri_xpost.Error.{
  DomainError, unknown_business_object, stale_business_object_revision,
  concurrent_business_object_update,
}
use matri_xpost.Types.Enums.{BusinessObjectStatus, ApprovalStatus}
use matri_xpost.Types.Article.{Time}
use matri_xpost.Lifecycle.Records.{BusinessObject}
use matri_xpost.Lifecycle.Status.{
  status_eq, approval_eq, status_can_transition_to, approval_can_transition_to,
}
use matri_xpost.Storage.Schema.{External, Db}
use matri_xpost.Storage.ObjectRows.{decode_object}
use matri_xpost.Storage.Sql.{Connection, lift, statement}
use matri_xpost.Storage.Sql.Laws.{>>=-ok, lift-ok, query-ok, pure-ok, locked-ok, transaction-ok}
use matri_xpost.Storage.Objects.{
  has_object_id, object_at_revision, check_statuses, next_revision, update_objects, load_object,
  move_object, transition_business_object,
}

not-false : (b : Bool) → not b ≡ false → b ≡ true
not-false true h = refl
not-false false h = cc h

-- A legal change of the two states: at least one changes, and each that changes may.
pub record IsLegal (s t : BusinessObjectStatus) (a b : ApprovalStatus) : Type 0 where
  pub changes : (s ≢ t) ⊎ (a ≢ b)
  pub lifecycle : (s ≡ t) ⊎ (status_can_transition_to s t ≡ true)
  pub approval : (a ≡ b) ⊎ (approval_can_transition_to a b ≡ true)

passed :
    (l a tl ta : Bool) (e₁ e₂ e₃ : DomainError) (u : Unit {0})
    → (if not l && not a
        then err e₁
        else if l && not tl
        then err e₂
        else if a && not ta
        then err e₃
        else ok tt)
      ≡ ok u
    → ((l ≡ true) ⊎ (a ≡ true)) × ((l ≡ false) ⊎ (tl ≡ true)) × ((a ≡ false) ⊎ (ta ≡ true))
passed true true true true e₁ e₂ e₃ u h = (inl refl, inr refl, inr refl)
passed true false true ta e₁ e₂ e₃ u h = (inl refl, inr refl, inl refl)
passed false true tl true e₁ e₂ e₃ u h = (inr refl, inl refl, inr refl)
passed true true true false e₁ e₂ e₃ u h = cc h
passed true true false ta e₁ e₂ e₃ u h = cc h
passed true false false ta e₁ e₂ e₃ u h = cc h
passed false true tl false e₁ e₂ e₃ u h = cc h
passed false false tl ta e₁ e₂ e₃ u h = cc h

status_same : (s t : BusinessObjectStatus) → not (status_eq s t) ≡ false → s ≡ t
unfolding status_eq
status_same s t h = ground arith

status_differ : (s t : BusinessObjectStatus) → not (status_eq s t) ≡ true → s ≢ t
unfolding status_eq
status_differ s t h e = ground arith

approval_same : (s t : ApprovalStatus) → not (approval_eq s t) ≡ false → s ≡ t
unfolding approval_eq
approval_same s t h = ground arith

approval_differ : (s t : ApprovalStatus) → not (approval_eq s t) ≡ true → s ≢ t
unfolding approval_eq
approval_differ s t h e = ground arith

check_statuses-IsLegal :
    (id : Text) (current : BusinessObject) (t : BusinessObjectStatus) (b : ApprovalStatus)
    (u : Unit {0})
    → check_statuses id current t b ≡ ok u
    → IsLegal current.lifecycle_status t current.approval_status b
unfolding check_statuses
check_statuses-IsLegal id current t b u h =
    let s = current.lifecycle_status in
    let a = current.approval_status in
    let (changes, lifecycle, approval) =
      passed (not (status_eq s t)) (not (approval_eq a b)) (status_can_transition_to s t)
        (approval_can_transition_to a b) _ _ _ u h in
    record {
      changes = elim changes [
        | inl l ↦ inl (status_differ s t l)
        | inr r ↦ inr (approval_differ a b r)
      ];
      lifecycle = elim lifecycle [ inl l ↦ inl (status_same s t l) | inr r ↦ inr r ];
      approval = elim approval [ inl l ↦ inl (approval_same a b l) | inr r ↦ inr r ];
    }

next_revision-ok :
    (id : Text) (revision n : ℕ) → next_revision id revision ≡ ok n → n ≡ revision + 1
unfolding next_revision
next_revision-ok id revision n h = ground arith

-- What a successful update of an object says of the database before it, `d`.
pub record Updated (x : External) (id : Text) (revision : ℕ) (t : BusinessObjectStatus)
    (b : ApprovalStatus) (d : Db) (object : BusinessObject) : Type 0 where
  pub before : BusinessObject
  pub stored : decode_object x (find? (has_object_id id) d.business_objects) ≡ ok (some before)
  pub expected : before.revision ≡ revision
  pub legal : IsLegal before.lifecycle_status t before.approval_status b
  pub lifecycle_status : object.lifecycle_status ≡ t
  pub approval_status : object.approval_status ≡ b
  pub next : object.revision ≡ revision + 1

module _ (x : External) (id : Text) (revision : ℕ) (t : BusinessObjectStatus) (b : ApprovalStatus)
    (time : Time) where
  move_object-Updated :
      (c : Connection Db) (object : BusinessObject) (c' : Connection Db)
      → move_object x id revision t b time c ≡ (ok object, c')
      → Updated x id revision t b c.db object
  unfolding move_object load_object
  move_object-Updated c object c' h =
      let read = λ (d : Db). decode_object x (find? (has_object_id id) d.business_objects) in
      let (found, c₁, h₁, k₁) = >>=-ok (load_object x id) _ c object c' h in
      let (loaded, same) = query-ok read c found c₁ h₁ in
      let (current, c₂, h₂, k₂) =
        >>=-ok (lift (ok_or found (unknown_business_object id))) _ c₁ object c' k₁ in
      let (there, same₂) = lift-ok (ok_or found (unknown_business_object id)) c₁ current c₂ h₂ in
      let stale =
        reject_if (not (current.revision == revision))
          (stale_business_object_revision id revision current.revision) in
      let (u₃, c₃, h₃, k₃) = >>=-ok (lift stale) _ c₂ object c' k₂ in
      let (fresh, same₃) = lift-ok stale c₂ u₃ c₃ h₃ in
      let (u₄, c₄, h₄, k₄) = >>=-ok (lift (check_statuses id current t b)) _ c₃ object c' k₃ in
      let (checked, same₄) = lift-ok (check_statuses id current t b) c₃ u₄ c₄ h₄ in
      let (n, c₅, h₅, k₅) = >>=-ok (lift (next_revision id revision)) _ c₄ object c' k₄ in
      let (numbered, same₅) = lift-ok (next_revision id revision) c₄ n c₅ h₅ in
      let (changed, c₆, h₆, k₆) =
        >>=-ok (statement (update_objects x (object_at_revision id revision) t b n time)) _ c₅
          object c' k₅ in
      let (u₇, c₇, h₇, k₇) =
        >>=-ok (lift (reject_if (not (changed == 1)) (concurrent_business_object_update id))) _ c₆
          object c' k₆ in
      let (result, same₇) =
        pure-ok
          (record current {
            lifecycle_status = t;
            approval_status = b;
            revision = n;
            updated_at = time;
          })
          c₇ object c' k₇ in
      record {
        before = current;
        stored = loaded ∙ ap ok (ok_or-ok found _ current there);
        expected = (==_iff current.revision revision).0 (not-false _ (reject_if-ok _ _ u₃ fresh));
        legal = check_statuses-IsLegal id current t b u₄ checked;
        lifecycle_status = ap (λ (o : BusinessObject). o.lifecycle_status) result;
        approval_status = ap (λ (o : BusinessObject). o.approval_status) result;
        next =
            ap (λ (o : BusinessObject). o.revision) result
            ∙ next_revision-ok id revision n numbered;
      }

  -- An update that succeeds was of the object that was stored, at the stored revision, and legal: at
  -- least one of its two states changed, and each that changed may. The object that is returned has
  -- the two states asked for and the next revision.
  pub transition_business_object-Updated :
      (c : Connection Db) (object : BusinessObject) (c' : Connection Db)
      → transition_business_object x id revision t b time c ≡ (ok object, c')
      → Updated x id revision t b c.db object
  unfolding transition_business_object
  transition_business_object-Updated c object c' h =
      let body = move_object x id revision t b time in
      let (c₁, c₂, start, run, end) = transaction-ok body c object c' (locked-ok _ c object c' h) in
      subst (λ d. Updated x id revision t b d object) start (move_object-Updated c₁ object c₂ run)
