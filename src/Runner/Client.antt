-- ===== src/Runner/Client.antt =====
-- The clients of the local runners: what is common to them. HTTP and JSON are those of the ureq and
-- serde_json crates, so parameters: a transport posts a text to an endpoint in the world `W`, and a
-- codec prints a request and parses a response.
pub mod Login
pub mod Readiness
pub mod Review
pub mod TerminalQr
pub mod Publish
pub mod Article
pub mod Answers
pub mod Loopback
pub mod Silent
pub mod Queries
use matri_xpost.Prelude.{
  ℕ, Bool, not, Option, none, some, Result, ok, err, if◌then◌else◌, ◌==◌, ◌++◌,
}
use matri_xpost.Text.{Text, codes}
use matri_xpost.Error.{Fallible, serialization}

-- The failures of the transports, of which no client reads more than that there is one.
pub data ManualLoginTransportError : Type 0 where
  login_request_failed login_response_read_failed : ManualLoginTransportError

pub data TerminalQrLoginTransportError : Type 0 where
  qr_request_failed qr_response_read_failed qr_response_too_large : TerminalQrLoginTransportError

pub data ArticleRunnerTransportError : Type 0 where
  article_request_failed article_response_read_failed : ArticleRunnerTransportError

-- `post_json(endpoint, body)`: the status and the body of the response, or a failure.
abbrev pub Transport : Type 0 → Type 0 → Type 0
Transport E W = Text → Text → W → Result E (ℕ × Text) × W

-- `serde_json::to_string` of a request, whose error is the text of serde's, and `serde_json::from_str`
-- of a response, of whose failure nothing is read.
pub record Codec (Request Response : Type 0) : Type 0 where
  pub to_string : Request → Result Text Text
  pub from_str : Text → Option Response

-- `format!("http://{address}{path}")`
abbrev pub http_endpoint : Text → Text → Text
http_endpoint address path = codes "http://" ++ (address ++ path)

-- `Option::unwrap_or`
abbrev pub unwrap_or : {A : Type 0} → A → Option A → A
unwrap_or fallback none = fallback
unwrap_or fallback (some value) = value

-- The parsed body, converted or else the fallback.
abbrev pub from_body :
    {Response Outcome : Type 0} → Outcome → (Response → Option Outcome) → Option Response → Outcome
from_body fallback convert none = fallback
from_body fallback convert (some response) = unwrap_or fallback (convert response)

module _ {Request Response : Type 0} (codec : Codec Request Response) where
  -- What is made of the answer to a post: any failure, any status but 200, and any body that is no
  -- valid response give the fallback.
  abbrev pub read_answer :
      {E Outcome : Type 0} → Outcome → (Response → Option Outcome) → Result E (ℕ × Text) → Outcome
  read_answer fallback convert (err failure) = fallback
  read_answer fallback convert (ok (status, body)) =
      if not (status == 200) then fallback else from_body fallback convert (codec.from_str body)

  -- The request is printed and posted; a failure to print it posts nothing.
  abbrev pub exchange :
      {E W Outcome : Type 0}
      → Transport E W
      → (Result E (ℕ × Text) → Outcome)
      → Text
      → Request
      → W
      → Fallible Outcome × W
  exchange post_json read endpoint request w = elim (codec.to_string request) [
    | err failure ↦ (err (serialization failure), w)
    | ok payload ↦ let (answer, w') = post_json endpoint payload w in (ok (read answer), w')
  ]
