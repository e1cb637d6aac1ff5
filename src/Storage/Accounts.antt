-- ===== src/Storage/Accounts.antt =====
-- The accounts of crates/matrixpost-core/src/storage.rs: their rows, the upserts and the lists.
use matri_xpost.Prelude.{
  Bool, ◌||◌, not, List, [], ◌∷◌, ◌++◌, any, ok, err, if◌then◌else◌, reject_if, collect, ◌>>=◌,
}
use matri_xpost.Text.{Text, codes, text_eq, is_blank, starts_with}
use matri_xpost.Text.Order.{text_le}
use matri_xpost.Error.{Fallible, corrupt_state, invalid_account_route}
use matri_xpost.Types.Enums.{AccountStatus, ArticlePlatform, juejin, ArticleAccountStatus}
use matri_xpost.Types.Account.{Account, ArticleAccount, as_str, from_str}
use matri_xpost.Storage.Schema.{Db, AccountRow}
use matri_xpost.Storage.Table.{update_where, sort_by}
use matri_xpost.Storage.Sql.{Sql, lift, statement, query, locked, ◌>>◌}

-- `account_status_db`
unfoldable pub account_status_db : AccountStatus → Text
account_status_db AccountStatus.logged_in = codes "logged_in"
account_status_db AccountStatus.expired = codes "expired"
account_status_db AccountStatus.logged_out = codes "logged_out"
account_status_db AccountStatus.unavailable = codes "unavailable"

-- `account_status_from_db`
unfoldable pub account_status_from_db : Text → Fallible AccountStatus
unfolding text_eq
account_status_from_db value =
    if text_eq value (codes "logged_in")
    then ok AccountStatus.logged_in
    else if text_eq value (codes "expired")
    then ok AccountStatus.expired
    else if text_eq value (codes "logged_out")
    then ok AccountStatus.logged_out
    else if text_eq value (codes "unavailable")
    then ok AccountStatus.unavailable
    else err (corrupt_state value)

-- `article_platform_db`
unfoldable pub article_platform_db : ArticlePlatform → Text
article_platform_db juejin = codes "juejin"

-- `article_platform_from_db`
unfoldable pub article_platform_from_db : Text → Fallible ArticlePlatform
unfolding text_eq
article_platform_from_db value =
    if text_eq value (codes "juejin") then ok juejin else err (corrupt_state value)

-- `article_account_status_db`
unfoldable pub article_account_status_db : ArticleAccountStatus → Text
article_account_status_db ArticleAccountStatus.logged_in = codes "logged_in"
article_account_status_db ArticleAccountStatus.expired = codes "expired"
article_account_status_db ArticleAccountStatus.logged_out = codes "logged_out"
article_account_status_db ArticleAccountStatus.unavailable = codes "unavailable"

-- `article_account_status_from_db`
unfoldable pub article_account_status_from_db : Text → Fallible ArticleAccountStatus
unfolding text_eq
article_account_status_from_db value =
    if text_eq value (codes "logged_in")
    then ok ArticleAccountStatus.logged_in
    else if text_eq value (codes "expired")
    then ok ArticleAccountStatus.expired
    else if text_eq value (codes "logged_out")
    then ok ArticleAccountStatus.logged_out
    else if text_eq value (codes "unavailable")
    then ok ArticleAccountStatus.unavailable
    else err (corrupt_state value)

-- `validate_account_route`
unfoldable pub validate_account_route : Text → Text → Fallible Unit
unfolding is_blank starts_with
validate_account_route phone partition =
    reject_if
      (is_blank phone || is_blank partition || not (starts_with partition (codes "persist:")))
      invalid_account_route

unfoldable pub has_account_id : Text → AccountRow → Bool
unfolding text_eq
has_account_id id row = text_eq row.id id

-- `INSERT … ON CONFLICT(id) DO UPDATE SET platform=excluded.platform, …`
unfoldable pub upsert_account : AccountRow → List AccountRow → List AccountRow
unfolding has_account_id update_where
upsert_account row rows =
    if any (has_account_id row.id) rows
    then update_where (has_account_id row.id) (λ r. record row { id = r.id }) rows
    else rows ++ row ∷ []

-- The values of the statement of `save_account`.
unfoldable pub account_to_row : Account → AccountRow
unfolding as_str account_status_db
account_to_row account = record {
  id = account.id;
  platform = as_str account.platform;
  display_name = account.display_name;
  status = account_status_db account.status;
  phone = account.phone;
  partition = account.partition;
}

-- `save_account`
unfoldable pub save_account : Account → Sql Db Unit
unfolding validate_account_route account_to_row upsert_account
save_account account = locked (do
  lift (validate_account_route account.phone account.partition)
  statement
      (λ d. (ok tt, record d { accounts = upsert_account (account_to_row account) d.accounts })))

-- The values of the statement of `save_article_account`.
unfoldable pub article_account_to_row : ArticleAccount → AccountRow
unfolding article_platform_db article_account_status_db
article_account_to_row account = record {
  id = account.id;
  platform = article_platform_db account.platform;
  display_name = account.display_name;
  status = article_account_status_db account.status;
  phone = account.phone;
  partition = account.partition;
}

-- `save_article_account`
unfoldable pub save_article_account : ArticleAccount → Sql Db Unit
unfolding validate_account_route article_account_to_row upsert_account
save_article_account account = locked (do
  lift (validate_account_route account.phone account.partition)
  statement (λ d. (
    ok tt,
    record d {
      article_accounts = upsert_account (article_account_to_row account) d.article_accounts;
    },
  )))

-- `ORDER BY id`
abbrev pub account_le : AccountRow → AccountRow → Bool
account_le a b = text_le a.id b.id

-- The closure of `accounts` on a row.
unfoldable pub row_to_account : AccountRow → Fallible Account
unfolding from_str account_status_from_db
row_to_account row = do
  platform ← from_str row.platform
  status ← account_status_from_db row.status
  ok (record {
    id = row.id;
    platform = platform;
    display_name = row.display_name;
    status = status;
    phone = row.phone;
    partition = row.partition;
  })

-- `accounts`
unfoldable pub list_accounts : Sql Db (List Account)
unfolding row_to_account sort_by
list_accounts = locked (query (λ d. collect row_to_account (sort_by account_le d.accounts)))

-- The closure of `article_accounts` on a row.
unfoldable pub row_to_article_account : AccountRow → Fallible ArticleAccount
unfolding article_platform_from_db article_account_status_from_db
row_to_article_account row = do
  platform ← article_platform_from_db row.platform
  status ← article_account_status_from_db row.status
  ok (record {
    id = row.id;
    platform = platform;
    display_name = row.display_name;
    status = status;
    phone = row.phone;
    partition = row.partition;
  })

-- `article_accounts`
unfoldable pub list_article_accounts : Sql Db (List ArticleAccount)
unfolding row_to_article_account sort_by
list_article_accounts =
    locked (query (λ d. collect row_to_article_account (sort_by account_le d.article_accounts)))
