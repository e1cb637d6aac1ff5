-- ===== src/Runner/Protocol.antt =====
-- crates/matrixpost-core/src/runner/protocol.rs and the messages of transport.rs and article.rs: what
-- the library and a local runner say to each other. A `u16` version is a number. A response has the
-- constructors of the source with `_response` after them.
pub mod Login
pub mod Readiness
pub mod Review
pub mod TerminalQr
pub mod Publish
pub mod Article
use matri_xpost.Prelude.{ℕ, Bool, ◌&&◌, Option, none, some, if◌then◌else◌, ◌==◌}
use matri_xpost.Types.Enums.{Platform, platform_eq}

-- An arm `… if guard => Some(value)` of a `match` that ends in `_ => None`
abbrev pub some_if {ℓ} : {A : Type ℓ} → Bool → A → Option A
some_if guard value = if guard then some value else none

-- `version == PROTOCOL_VERSION && platform == expected_platform`
abbrev pub is_answer : ℕ → ℕ → Platform → Platform → Bool
is_answer protocol version platform expected = version == protocol && platform_eq platform expected
