-- ===== src/Runner/Config.antt =====
-- crates/matrixpost-core/src/runner/provider/config.rs: the declaration of a local runner and the
-- checks on its endpoint. Paths and socket addresses are those of the Rust standard library: what
-- the code asks of them is a parameter.
use matri_xpost.Prelude.{
  Bool, ◌||◌, not, List, [], ◌∷◌, ◌++◌, any, Option, none, some, Result, ok, err, if◌then◌else◌,
  ◌==◌, reject_if, ok_or, map_err, ◌>>=◌, ◌>>◌,
}
use matri_xpost.Text.{Text, codes, contains, starts_with, to_ascii_lowercase}
use matri_xpost.Types.Enums.{Platform}
use matri_xpost.Types.Account.{as_str, from_str}

pub data ProviderRunnerTransport (Address : Type 0) : Type 0 where
  unix_socket named_pipe : Text → ProviderRunnerTransport Address
  tcp : Address → ProviderRunnerTransport Address

pub record ProviderRunner (Address : Type 0) : Type 0 where
  pub platform : Platform
  pub transport : ProviderRunnerTransport Address

pub data ProviderRunnerConfigError : Type 0 where
  duplicate_platform : Platform → ProviderRunnerConfigError
  unix_socket_path_must_be_absolute named_pipe_must_be_local tcp_must_be_loopback :
      ProviderRunnerConfigError
  credential_like_endpoint invalid_argument : ProviderRunnerConfigError

-- `CREDENTIAL_LIKE_TERMS`
abbrev pub credential_like_terms : List Text
credential_like_terms =
    codes "cookie"
    ∷ codes "token"
    ∷ codes "password"
    ∷ codes "secret"
    ∷ codes "session"
    ∷ codes "authorization"
    ∷ codes "credential"
    ∷ []

unfoldable pub contains_credential_like_term : Text → Bool
unfolding to_ascii_lowercase contains
contains_credential_like_term value =
    any (λ term. contains (to_ascii_lowercase value) term) credential_like_terms

-- The characters `@`, `?` and `#`.
unfoldable pub is_routing_character : Text → Bool
is_routing_character value = any (λ c. (c == b'@') || ((c == b'?') || (c == b'#'))) value

unfoldable pub reject_credential_like_endpoint : Text → Result ProviderRunnerConfigError (Unit {0})
unfolding contains_credential_like_term is_routing_character
reject_credential_like_endpoint value =
    reject_if (contains_credential_like_term value || is_routing_character value)
      credential_like_endpoint

-- `strip_prefix`
unfoldable pub strip_prefix : Text → Text → Option Text
strip_prefix value [] = some value
strip_prefix [] (p ∷ ps) = none
strip_prefix (c ∷ value) (p ∷ ps) = if c == p then strip_prefix value ps else none

-- `split_once('=')`
unfoldable pub split_once : Text → Option (Text × Text)
split_once [] = none
split_once (c ∷ value) =
    let later = split_once value in
    if c == b'='
    then some ([], value)
    else elim later [ none ↦ none | some (before, after) ↦ some (c ∷ before, after) ]

-- What the standard library says of paths and addresses.
pub record Net (Address : Type 0) : Type 0 where
  pub is_absolute : Text → Bool  -- Path::is_absolute
  pub to_string_lossy : Text → Text
  pub is_loopback : Address → Bool  -- address.ip().is_loopback()
  pub parse_address : Text → Option Address  -- str::parse::<SocketAddr>

module _ {Address : Type 0} (net : Net Address) where
  -- `ProviderRunner::validate`
  unfoldable pub validate_transport :
      ProviderRunnerTransport Address → Result ProviderRunnerConfigError (Unit {0})
  validate_transport (unix_socket path) = do
    reject_if (not (net.is_absolute path)) unix_socket_path_must_be_absolute
    reject_credential_like_endpoint (net.to_string_lossy path)
  validate_transport (named_pipe name) = do
    reject_if (not (starts_with name (codes "\\\\.\\pipe\\"))) named_pipe_must_be_local
    reject_credential_like_endpoint name
  validate_transport (tcp address) = reject_if (not (net.is_loopback address)) tcp_must_be_loopback

  abbrev pub validate_runner : ProviderRunner Address → Result ProviderRunnerConfigError (Unit {0})
  validate_runner runner = validate_transport runner.transport

  -- The transport of `parse_cli`.
  unfoldable pub parse_transport :
      Text → Result ProviderRunnerConfigError (ProviderRunnerTransport Address)
  unfolding strip_prefix
  parse_transport value = elim (strip_prefix value (codes "unix:")) [
    | some path ↦ ok (unix_socket path)
    | none ↦ elim (strip_prefix value (codes "pipe:")) [
      | some name ↦ ok (named_pipe name)
      | none ↦ elim (strip_prefix value (codes "tcp:")) [
        | some address ↦ do a ← ok_or (net.parse_address address) invalid_argument; ok (tcp a)
        | none ↦ err invalid_argument
      ]
    ]
  ]

  -- `ProviderRunner::parse_cli`
  unfoldable pub parse_cli : Text → Result ProviderRunnerConfigError (ProviderRunner Address)
  parse_cli value = do
    (name, endpoint) ← ok_or (split_once value) invalid_argument
    platform ← map_err (λ _. invalid_argument) (from_str name)
    transport ← parse_transport endpoint
    validate_transport transport
    ok (record { platform = platform; transport = transport })

  -- `ProviderRunner::loopback_tcp_address`
  unfoldable pub loopback_tcp_address : ProviderRunner Address → Option Address
  loopback_tcp_address runner = elim runner.transport [
    | tcp address ↦ if net.is_loopback address then some address else none
    | unix_socket path ↦ none
    | named_pipe name ↦ none
  ]

module _ {Address : Type 0} where
  abbrev pub transport_name : ProviderRunnerTransport Address → Text
  transport_name (unix_socket path) = codes "Unix socket"
  transport_name (named_pipe name) = codes "named pipe"
  transport_name (tcp address) = codes "loopback TCP"

  -- `ProviderRunner::unavailable_reason`
  unfoldable pub unavailable_reason : ProviderRunner Address → Text
  unavailable_reason runner =
      transport_name runner.transport
      ++ (codes " runner configured for "
          ++ (as_str runner.platform ++ codes "; no execution adapter is installed"))
