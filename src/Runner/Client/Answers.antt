-- ===== src/Runner/Client/Answers.antt =====
-- What an outcome says of the exchange that it came from.
pub mod Queued
pub mod Articles
pub mod Confirmed
pub mod Qr
use matri_xpost.Prelude.{
  ℕ, ◌≡◌, refl, ap, ap₂, sym, ◌∙◌, ◌≢◌, ◌⊎◌, inl, inr, Bool, true, false, ◌&&◌, not, Option, none,
  some, Result, ok, err, if◌then◌else◌, ◌==◌, ==_iff, arith, Bool-cases, &&-true,
}
use matri_xpost.Text.{Text}
use matri_xpost.Error.{DomainError, Fallible}
use matri_xpost.Types.Enums.{Platform, platform_eq, platform_eq_iff}
use matri_xpost.Runner.Protocol.{some_if, is_answer}
use matri_xpost.Runner.Client.{Transport, Codec, unwrap_or, from_body, read_answer, exchange}

-- The request was printed and posted, the answer had the status 200, and its body parsed as the
-- response.
pub record Accepted {Request Response E W : Type 0} (codec : Codec Request Response)
    (post_json : Transport E W) (endpoint : Text) (request : Request) (w : W) (response : Response)
    (w' : W) : Type 0 where
  pub payload : Text
  pub printed : codec.to_string request ≡ ok payload
  pub body : Text
  pub answered : post_json endpoint payload w ≡ (ok (200, body), w')
  pub parsed : codec.from_str body ≡ some response

unwrap_or-other :
    {A : Type 0} (fallback value : A) (o : Option A)
    → unwrap_or fallback o ≡ value
    → value ≢ fallback
    → o ≡ some value
unwrap_or-other fallback value none h other = absurd (other (sym h))
unwrap_or-other fallback value (some found) h other = ap some h

pub from_body-other :
    {Response Outcome : Type 0} (fallback : Outcome) (convert : Response → Option Outcome)
    (parsed : Option Response) (outcome : Outcome)
    → from_body fallback convert parsed ≡ outcome
    → outcome ≢ fallback
    → (response : Response) × (parsed ≡ some response) × (convert response ≡ some outcome)
from_body-other fallback convert none outcome h other = absurd (other (sym h))
from_body-other fallback convert (some response) outcome h other =
    (response, refl, unwrap_or-other fallback outcome (convert response) h other)

pub ok_eq : {E A : Type 0} {a b : A} → Path (Result E A) (ok a) (ok b) → a ≡ b
ok_eq q = cc q

module _ {Request Response E W Outcome : Type 0} (codec : Codec Request Response)
    (post_json : Transport E W) (fallback : Outcome) (convert : Response → Option Outcome) where
  read_answer-other :
      (answer : Result E (ℕ × Text)) (outcome : Outcome)
      → read_answer codec fallback convert answer ≡ outcome
      → outcome ≢ fallback
      → (body : Text) × (response : Response) × (answer ≡ ok (200, body))
        × (codec.from_str body ≡ some response)
        × (convert response ≡ some outcome)
  read_answer-other (err failure) outcome h other = absurd (other (sym h))
  read_answer-other (ok (status, body)) outcome h other = elim (Bool-cases (status == 200)) [
    | inl fine ↦
        let (response, parsed, converted) =
          from_body-other fallback convert _ outcome (rw fine at h) other in
        (body, response, ap (λ n. ok (n, body)) ((==_iff status 200).0 fine), parsed, converted)
    | inr bad ↦ absurd (other (sym (rw bad at h)))
  ]

  -- An outcome that is not the fallback is that of an accepted response.
  pub exchange-Accepted :
      (endpoint : Text) (request : Request) (w w' : W) (outcome : Outcome)
      → exchange codec post_json (read_answer codec fallback convert) endpoint request w
        ≡ (ok outcome, w')
      → outcome ≢ fallback
      → (response : Response) × Accepted codec post_json endpoint request w response w'
        × (convert response ≡ some outcome)
  exchange-Accepted endpoint request w w' outcome h other = printed (codec.to_string request) refl
    where
      printed :
          (o : Result Text Text)
          → codec.to_string request ≡ o
          → (response : Response) × Accepted codec post_json endpoint request w response w'
            × (convert response ≡ some outcome)
      printed (err failure) e = cc (rw (exchange, e) at h)
      printed (ok payload) e =
          let h' : (
            ok (read_answer codec fallback convert (post_json endpoint payload w).0),
            (post_json endpoint payload w).1,
          )
              ≡ (ok outcome, w') =
            rw (exchange, e) at h in
          let (body, response, answer, parsed, converted) =
            read_answer-other _ outcome (ok_eq (ap (λ p. p.0) h')) other in
          (
            response,
            record {
              payload = payload;
              printed = e;
              body = body;
              answered = ap₂ (λ a v. (a, v)) answer (ap (λ p. p.1) h');
              parsed = parsed;
            },
            converted,
          )

-- An arm that was taken.
pub some_if-some :
    {A : Type 0} (guard : Bool) (value found : A)
    → some_if guard value ≡ some found
    → (guard ≡ true) × (value ≡ found)
some_if-some true value found h = (refl, cc h)
some_if-some false value found h = cc h

-- The version and the platform of an answer.
pub is_answer-eq :
    (protocol version : ℕ) (platform expected : Platform)
    → is_answer protocol version platform expected ≡ true
    → (version ≡ protocol) × (platform ≡ expected)
is_answer-eq protocol version platform expected h =
    let (v, p) = &&-true _ _ h in
    ((==_iff version protocol).0 v, (platform_eq_iff platform expected).0 p)
