-- ===== src/Lib.antt =====
-- MatriXpost publishes a video or an article to several platforms. The core crate keeps a durable
-- queue in SQLite; the daemon claims the jobs that are due, hands each to the providers that are
-- registered for its platforms, and completes it together with a history record. This library is
-- about crates/matrixpost-core and the scheduler of crates/matrixpostd.
--
-- Parts, the files that model them, and the source:
--   Types/Enums, Types/Account    platforms, accounts     crates/matrixpost-core/src/types/account.rs
--   Types/Request                 PublishRequest          crates/matrixpost-core/src/types/video
--   Types/State, Types/Article    states, article DTOs    crates/matrixpost-core/src/types/article.rs
--   Error                         DomainError             crates/matrixpost-core/src/error.rs
--   Lifecycle                     records, their states   crates/matrixpost-core/src/lifecycle.rs
--   Storage                       SqliteRepository        crates/matrixpost-core/src/storage.rs
--   Storage/Jobs                  PublicationQueue        crates/matrixpost-core/src/storage.rs
--   Storage/Accounts, Config      accounts, configuration crates/matrixpost-core/src/storage.rs
--   Storage/History               publication history     crates/matrixpost-core/src/storage.rs
--   Storage/Dispatch              dispatch history        crates/matrixpost-core/src/storage.rs
--   Storage/Articles, ArticleRows ArticlePublicationQueue crates/matrixpost-core/src/storage/articles.rs
--   Storage/Objects, ObjectRows   business objects        crates/matrixpost-core/src/storage/lifecycle.rs
--   Storage/Consistent            what the tables keep    crates/matrixpost-core/src/storage
--   Lifecycle/Validation          checks of objects       crates/matrixpost-core/src/storage/lifecycle.rs
--   Lifecycle/History             history query and view  crates/matrixpost-core/src/lifecycle.rs
--   Types/Upstream                UpstreamPublishDto      crates/matrixpost-core/src/types/video/upstream.rs
--   Runner/Config                 ProviderRunner          crates/matrixpost-core/src/runner/provider/config.rs
--   Runner/Registry, Outcomes     ProviderRegistry        crates/matrixpost-core/src/runner/provider/registry.rs
--   Scheduler                     run_scheduler_tick_at   crates/matrixpostd/src/scheduler.rs
--   Runner/Protocol               messages of the runners crates/matrixpost-core/src/runner/protocol.rs
--   Runner/Png                    base64 PNG check        crates/matrixpost-core/src/runner/protocol.rs
--   Runner/Client                 clients of the runners  crates/matrixpost-core/src/runner/provider, article.rs
--
-- The state is the record `Db` (Storage/Schema), one list of rows for each table in the order of
-- insertion. A method of the repository is a function of the same name in the monad `Sql`
-- (Storage/Sql), which passes a connection along and returns it beside a result or an error;
-- `locked` is the mutex with its poison flag, and `transaction` the transaction of rusqlite. Each
-- statement may fail: the list `faults` of the connection says which ones do, so a theorem holds
-- for every way in which SQLite may fail. `Storage/Rows` is the encoding of records as rows.
-- A method that holds the mutex runs as a whole, so calls of several threads are sequences of
-- calls of methods; `enqueue` takes the mutex twice.
--
-- Numbers: a `u64` revision is a number, added modulo 2^64, and rusqlite refuses 2^63 and more. A
-- text is a list of Unicode scalar values. A due time is the text that was given, and SQLite compares
-- due times as texts; chrono reads them, and is a parameter.
--
-- Fuel: the loop of `insert_terminal_history`, which looks for a history id that is not used, gets
-- one round more than there are history rows, which is enough since the sequence never repeats.
--
-- Parameters: chrono and serde_json are the fields of `External`. What is used of them, that a time
-- or a request that was written is read back as it was, is a hypothesis of the theorems that need
-- it. The providers of a registry are parameters too. For the clients of the local runners a
-- transport posts a text in a world that is not known, and a codec prints and parses the messages.
--
-- Not modelled: other processes on the same file, the end of SQLite's sequences, the migrations of
-- old schemas, HTTP and JSON themselves, the daemon's API, the command line, the MCP server, the desktop
-- application and the browser automation, which are input and output around the core.
pub mod Prelude
pub mod Text
pub mod Types
pub mod Error
pub mod Lifecycle
pub mod Storage
pub mod Runner
pub mod Scheduler
pub mod Examples
