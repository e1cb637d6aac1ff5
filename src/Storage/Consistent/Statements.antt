-- ===== src/Storage/Consistent/Statements.antt =====
-- What the insertion of a row keeps, whatever the table.
use matri_xpost.Prelude.{
  ◌≡◌, sym, ◌∙◌, ◌≢◌, Bool, true, false, ◌||◌, not, List, [], ◌∷◌, ◌++◌, map, All, Pairwise, Elem,
  arith,
}
use mathlib.Core.Path.{subst}
use matri_xpost.Text.{Text, text_eq}
use matri_xpost.Text.Laws.{text_eq_iff}
use matri_xpost.Storage.Schema.{LedgerRow, AttributionRow, RelationRow}
use matri_xpost.Storage.Consistent.{IsEntry, IsAttribution, IsRelation}
use matri_xpost.Storage.Consistent.Lists.{Elem-append, Pairwise-append, map-append, All-mapped}

pub either_no : (a b : Bool) → (a || b) ≡ false → (a ≡ false) × (b ≡ false)
either_no a b h = ground arith

pub not-not : (a : Bool) → not a ≡ false → a ≡ true
not-not a h = ground arith

pub differ : (s t : Text) → text_eq s t ≡ false → s ≢ t
differ s t h e = absurd (true_false (sym ((text_eq_iff s t).1 e) ∙ h))
  where
    true_false : true ≢ false
    true_false q = cc q

-- A column with one row more, whose value no row has.
pub column-append :
    {A K : Type 0} (f : A → K) (R : K → K → Type 0) (rows : List A) (row : A)
    → Pairwise R (map f rows)
    → All (λ r. R (f r) (f row)) rows
    → Pairwise R (map f (rows ++ row ∷ []))
column-append f R rows row h k =
    subst (Pairwise R) (sym (map-append f rows row))
      (Pairwise-append R (map f rows) (f row) h (All-mapped f (λ b. R b (f row)) rows k))

-- What stands in a column still stands there when a row is added.
pub column-keeps :
    {A : Type 0} (f : A → Text) (rows : List A) (row : A) (t : Text)
    → Elem t (map f rows)
    → Elem t (map f (rows ++ row ∷ []))
column-keeps f rows row t h =
    subst (Elem t) (sym (map-append f rows row)) (Elem-append t (map f rows) (f row) h)

module _ (objects objects' : List Text) (more : (t : Text) → Elem t objects → Elem t objects') where
  pub IsEntry-more : (row : LedgerRow) → IsEntry objects row → IsEntry objects' row
  IsEntry-more row h = record {
    object = more _ h.object;
    positive = h.positive;
    currency = h.currency;
  }

  pub IsRelation-more : (row : RelationRow) → IsRelation objects row → IsRelation objects' row
  IsRelation-more row h = record {
    source = more _ h.source;
    target = more _ h.target;
    differ = h.differ;
  }

  pub IsAttribution-more :
      (history history' : List Text) (row : AttributionRow)
      → ((t : Text) → Elem t history → Elem t history')
      → IsAttribution objects history row
      → IsAttribution objects' history' row
  IsAttribution-more history history' row later h = record {
    object = more _ h.object;
    record_there = later _ h.record_there;
  }
