-- ===== src/Runner/Client/Queries.antt =====
-- Which title a review lookup sends.
use matri_xpost.Prelude.{
  ℕ, ◌≤◌, ◌≡◌, refl, inl, inr, Bool, true, false, ◌&&◌, not, List, [], ◌∷◌, Option, none, some,
  Result, ok, err, leb, length, all, filter, arith, Bool-cases,
}
use matri_xpost.Text.{Text, codes, bytes, is_blank, is_whitespace, trim}
use matri_xpost.Types.Enums.{fanqie_video, platform_eq}
use matri_xpost.Runner.Config.{Net, ProviderRunner, loopback_tcp_address}
use matri_xpost.Runner.Protocol.Review.{
  ReviewStatusRunnerRequest, ReviewStatusRunnerResponse, rejected, unavailable, into_review_status,
  review_request_is_valid, normalize_review_title_query, title_query_max_bytes,
}
use matri_xpost.Runner.Client.{
  ManualLoginTransportError, Transport, Codec, http_endpoint, exchange, read_answer,
}
use matri_xpost.Runner.Client.Answers.Confirmed.{refused, not_refused}
use matri_xpost.Runner.Client.Loopback.{asked, loopback_tcp_address-is_loopback}
use matri_xpost.Runner.Client.Review.{review_request, fanqie_review_status_with}

abbrev is_visible : ℕ → Bool
is_visible c = not (is_whitespace c)

all-filter : (p : ℕ → Bool) (xs : List ℕ) → all p (filter p xs) ≡ true
all-filter p [] = refl
all-filter p (x ∷ xs) = elim (Bool-cases (p x)) [
  | inl kept ↦ rw kept (rw kept (all-filter p xs))
  | inr dropped ↦ rw dropped (all-filter p xs)
]

some_left : (xs : List ℕ) → is_blank xs ≡ false → 1 ≤ length xs
unfolding is_blank trim
some_left [] h = cc h
some_left (x ∷ xs) h = omega arith

valid_size :
    (request : ReviewStatusRunnerRequest)
    → review_request_is_valid request ≡ true
    → (is_blank request.title_query ≡ false)
      × (length (bytes request.title_query) ≤ title_query_max_bytes)
unfolding review_request_is_valid
valid_size request h =
    (sized (platform_eq request.platform fanqie_video) (is_blank request.title_query) _ h)
  where
    sized :
        (a b : Bool) (n : ℕ)
        → (a && not b && leb n title_query_max_bytes) ≡ true
        → (b ≡ false) × (n ≤ title_query_max_bytes)
    sized a b n k = (ground arith, ground arith)

-- A title as it may be sent.
pub record IsQuery (title_query : Text) : Type 0 where
  pub visible : all is_visible title_query ≡ true
  pub filled : 1 ≤ length title_query
  pub bounded : length (bytes title_query) ≤ 200

module _ {Address W : Type 0} (net : Net Address) (show_address : Address → Text)
    (codec : Codec ReviewStatusRunnerRequest ReviewStatusRunnerResponse)
    (post_json : Transport ManualLoginTransportError W) (title_query : Text)
    (runner : ProviderRunner Address) (w : W) where
  -- Nothing was posted, or one request of a title that may be sent, of Fanqie's runner at a loopback address.
  pub data Asked : W → Type 0 where
    silent : Asked w
    posted :
        (address : Address) (payload : Text)
        → net.is_loopback address ≡ true
        → runner.platform ≡ fanqie_video
        → IsQuery (review_request title_query).title_query
        → codec.to_string (review_request title_query) ≡ ok payload
        → Asked
            (post_json
              (http_endpoint (show_address address) (codes "/v1/review-status"))
              payload
              w).1

  sent-Asked :
      (address : Address)
      → net.is_loopback address ≡ true
      → runner.platform ≡ fanqie_video
      → IsQuery (review_request title_query).title_query
      → (printed : Result Text Text) → codec.to_string (review_request title_query) ≡ printed
      → Asked
          (exchange codec post_json
            (read_answer codec rejected into_review_status)
            (http_endpoint (show_address address) (codes "/v1/review-status"))
            (review_request title_query)
            w).1
  sent-Asked address local here query (err failure) e = rw (exchange, e) silent
  sent-Asked address local here query (ok payload) e =
      rw (exchange, e) (posted address payload local here query e)

  at-Asked :
      runner.platform ≡ fanqie_video
      → IsQuery (review_request title_query).title_query
      → (o : Option Address) → loopback_tcp_address net runner ≡ o
      → Asked
          (asked net show_address codec post_json rejected unavailable into_review_status
            (codes "/v1/review-status")
            (review_request title_query)
            runner
            w
            w
            o).1
  at-Asked here query none e = silent
  at-Asked here query (some address) e =
      sent-Asked address (loopback_tcp_address-is_loopback net runner address e) here query _ refl

  -- A review lookup posts nothing, or once, to a loopback address of Fanqie's runner, the title without
  -- its white space, which then has at least one character and at most 200 bytes.
  pub fanqie_review_status_with-Asked :
      Asked (fanqie_review_status_with net show_address codec post_json title_query runner w).1
  unfolding fanqie_review_status_with normalize_review_title_query
  fanqie_review_status_with-Asked = elim (Bool-cases (refused title_query runner)) [
    | inl refusal ↦ rw (fanqie_review_status_with, refusal) silent
    | inr passed ↦
        let (here, valid) = not_refused title_query runner passed in
        let (left, bounded) = valid_size (review_request title_query) valid in
        let query : IsQuery (review_request title_query).title_query = record {
          visible = all-filter is_visible title_query;
          filled = some_left _ left;
          bounded = bounded;
        } in
        rw (fanqie_review_status_with, passed)
          (at-Asked here query (loopback_tcp_address net runner) refl)
  ]
