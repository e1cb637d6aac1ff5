-- ===== src/Storage/Consistent/Keys.antt =====
-- Tables whose only constraint is their key: what inserts, updates, upserts and deletes keep.
use matri_xpost.Prelude.{
  ◌≡◌, refl, sym, ◌≢◌, inl, inr, Bool, false, not, List, [], ◌∷◌, ◌++◌, map, any, filter, All,
  Pairwise, Bool-cases,
}
use mathlib.Core.Path.{subst}
use matri_xpost.Text.{Text, text_eq}
use matri_xpost.Types.Account.{Account, ArticleAccount}
use matri_xpost.Storage.Schema.{Db, AccountRow, JobRow, ArticleJobRow, ArticleHistoryRow}
use matri_xpost.Storage.Table.{update_where}
use matri_xpost.Storage.Sql.Keeps.{Keeps, lift-Keeps, statement-Keeps, >>=-Keeps, locked-Keeps}
use matri_xpost.Storage.Accounts.{
  has_account_id, upsert_account, save_account, save_article_account,
}
use matri_xpost.Storage.Config.{has_key, upsert_value, set_config, delete_config}
use matri_xpost.Storage.Consistent.{
  IsConsistent, job_id, article_job_id, article_history_id, account_id, config_key,
}
use matri_xpost.Storage.Consistent.Lists.{All-map, any-All, map-update_where}
use matri_xpost.Storage.Consistent.Statements.{differ, column-append}

module _ {A : Type 0} (key : A → Text) where
  abbrev pub IsKeyed : List A → Type 0
  IsKeyed rows = Pairwise ◌≢◌ (map key rows)

  pub IsKeyed-append :
      (rows : List A) (row : A)
      → any (λ r. text_eq (key r) (key row)) rows ≡ false
      → IsKeyed rows
      → IsKeyed (rows ++ row ∷ [])
  IsKeyed-append rows row free h = column-append key ◌≢◌ rows row h (
      All-map _ _ rows (λ r q. differ (key r) (key row) q)
        (any-All (λ r. text_eq (key r) (key row)) rows free))

  pub IsKeyed-update :
      (matches : A → Bool) (g : A → A) (rows : List A)
      → ((r : A) → key (g r) ≡ key r)
      → IsKeyed rows
      → IsKeyed (update_where matches g rows)
  IsKeyed-update matches g rows same h =
      subst (Pairwise ◌≢◌) (sym (map-update_where key matches g rows same)) h

  All-filtered :
      (P : Text → Type 0) (p : A → Bool) (rows : List A)
      → All P (map key rows)
      → All P (map key (filter p rows))
  All-filtered P p [] h = tt
  All-filtered P p (r ∷ rows) h = elim (Bool-cases (p r)) [
    | inl stays ↦ rw stays (h.0, All-filtered P p rows h.1)
    | inr goes ↦ rw goes (All-filtered P p rows h.1)
  ]

  pub IsKeyed-filter : (p : A → Bool) (rows : List A) → IsKeyed rows → IsKeyed (filter p rows)
  IsKeyed-filter p [] h = tt
  IsKeyed-filter p (r ∷ rows) h = elim (Bool-cases (p r)) [
    | inl stays ↦ rw stays (All-filtered (λ k. key r ≢ k) p rows h.0, IsKeyed-filter p rows h.1)
    | inr goes ↦ rw goes (IsKeyed-filter p rows h.1)
  ]

upsert_account-IsKeyed :
    (row : AccountRow) (rows : List AccountRow)
    → IsKeyed account_id rows
    → IsKeyed account_id (upsert_account row rows)
unfolding upsert_account has_account_id
upsert_account-IsKeyed row rows h = elim (Bool-cases (any (has_account_id row.id) rows)) [
  | inl there ↦ rw there (IsKeyed-update account_id (has_account_id row.id) _ rows (λ r. refl) h)
  | inr free ↦ rw free (IsKeyed-append account_id rows row free h)
]

upsert_value-IsKeyed :
    (key value : Text) (rows : List (Text × Text))
    → IsKeyed config_key rows
    → IsKeyed config_key (upsert_value key value rows)
unfolding upsert_value has_key
upsert_value-IsKeyed key value rows h = elim (Bool-cases (any (has_key key) rows)) [
  | inl there ↦ rw there (IsKeyed-update config_key (has_key key) _ rows (λ r. refl) h)
  | inr free ↦ rw free (IsKeyed-append config_key rows (key, value) free h)
]

-- The tables with other rows in one that has only a key.
pub with_jobs :
    (d : Db) (rows : List JobRow)
    → IsKeyed job_id rows
    → IsConsistent d
    → IsConsistent (record d { jobs = rows })
with_jobs d rows k h = (
  h.0,
  record {
    job_ids = k;
    article_job_ids = h.1.article_job_ids;
    article_history_ids = h.1.article_history_ids;
    account_ids = h.1.account_ids;
    article_account_ids = h.1.article_account_ids;
    config_keys = h.1.config_keys;
  },
)

pub with_article_jobs :
    (d : Db) (rows : List ArticleJobRow)
    → IsKeyed article_job_id rows
    → IsConsistent d
    → IsConsistent (record d { article_jobs = rows })
with_article_jobs d rows k h = (
  h.0,
  record {
    job_ids = h.1.job_ids;
    article_job_ids = k;
    article_history_ids = h.1.article_history_ids;
    account_ids = h.1.account_ids;
    article_account_ids = h.1.article_account_ids;
    config_keys = h.1.config_keys;
  },
)

pub with_article_history :
    (d : Db) (rows : List ArticleHistoryRow)
    → IsKeyed article_history_id rows
    → IsConsistent d
    → IsConsistent (record d { article_history = rows })
with_article_history d rows k h = (
  h.0,
  record {
    job_ids = h.1.job_ids;
    article_job_ids = h.1.article_job_ids;
    article_history_ids = k;
    account_ids = h.1.account_ids;
    article_account_ids = h.1.article_account_ids;
    config_keys = h.1.config_keys;
  },
)

with_accounts :
    (d : Db) (rows : List AccountRow)
    → IsKeyed account_id rows
    → IsConsistent d
    → IsConsistent (record d { accounts = rows })
with_accounts d rows k h = (
  h.0,
  record {
    job_ids = h.1.job_ids;
    article_job_ids = h.1.article_job_ids;
    article_history_ids = h.1.article_history_ids;
    account_ids = k;
    article_account_ids = h.1.article_account_ids;
    config_keys = h.1.config_keys;
  },
)

with_article_accounts :
    (d : Db) (rows : List AccountRow)
    → IsKeyed account_id rows
    → IsConsistent d
    → IsConsistent (record d { article_accounts = rows })
with_article_accounts d rows k h = (
  h.0,
  record {
    job_ids = h.1.job_ids;
    article_job_ids = h.1.article_job_ids;
    article_history_ids = h.1.article_history_ids;
    account_ids = h.1.account_ids;
    article_account_ids = k;
    config_keys = h.1.config_keys;
  },
)

with_config :
    (d : Db) (rows : List (Text × Text))
    → IsKeyed config_key rows
    → IsConsistent d
    → IsConsistent (record d { config = rows })
with_config d rows k h = (
  h.0,
  record {
    job_ids = h.1.job_ids;
    article_job_ids = h.1.article_job_ids;
    article_history_ids = h.1.article_history_ids;
    account_ids = h.1.account_ids;
    article_account_ids = h.1.article_account_ids;
    config_keys = k;
  },
)

pub save_account-Keeps : (account : Account) → Keeps IsConsistent (save_account account)
unfolding save_account
save_account-Keeps account = locked-Keeps IsConsistent _ (
    >>=-Keeps IsConsistent _ _ (lift-Keeps IsConsistent _) (λ u.
      statement-Keeps IsConsistent _
        (λ d h. with_accounts d _ (upsert_account-IsKeyed _ d.accounts h.1.account_ids) h)))

pub save_article_account-Keeps :
    (account : ArticleAccount) → Keeps IsConsistent (save_article_account account)
unfolding save_article_account
save_article_account-Keeps account = locked-Keeps IsConsistent _ (
    >>=-Keeps IsConsistent _ _ (lift-Keeps IsConsistent _) (λ u.
      statement-Keeps IsConsistent _ (λ d h.
        with_article_accounts d _
          (upsert_account-IsKeyed _ d.article_accounts h.1.article_account_ids) h)))

pub set_config-Keeps : (key value : Text) → Keeps IsConsistent (set_config key value)
unfolding set_config
set_config-Keeps key value = locked-Keeps IsConsistent _ (
    statement-Keeps IsConsistent _
      (λ d h. with_config d _ (upsert_value-IsKeyed key value d.config h.1.config_keys) h))

pub delete_config-Keeps : (key : Text) → Keeps IsConsistent (delete_config key)
unfolding delete_config
delete_config-Keeps key = locked-Keeps IsConsistent _ (
    statement-Keeps IsConsistent _ (λ d h.
      with_config d _
        (IsKeyed-filter config_key (λ row. not (has_key key row)) d.config h.1.config_keys) h))
