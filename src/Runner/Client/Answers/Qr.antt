-- ===== src/Runner/Client/Answers/Qr.antt =====
-- What a QR code says that a client of the terminal QR protocol shows.
use matri_xpost.Prelude.{
  ℕ, ◌≤◌, ◌≡◌, refl, ap, ap₂, sym, ◌∙◌, inl, inr, Bool, true, false, ◌&&◌, ◌||◌, not, Option, none,
  some, Result, ok, err, ◌==◌, ==_iff, ltb, length, arith, Bool-cases, if◌then◌else◌,
}
use matri_xpost.Text.{Text, codes, bytes}
use matri_xpost.Error.{Fallible}
use matri_xpost.Types.Enums.{Platform, platform_eq, platform_eq_iff}
use matri_xpost.Runner.Config.{Net, ProviderRunner, loopback_tcp_address}
use matri_xpost.Runner.Png.{png_base64_is_valid}
use matri_xpost.Runner.Png.Agrees.{IsPng, png_base64_is_valid_iff}
use matri_xpost.Runner.Protocol.TerminalQr.{
  TerminalQrLoginRunnerResponse, TerminalQrLoginOutcome, qr_available_response, pending_response,
  timed_out_response, cancelled_response, unavailable_response, rejected_response, qr_available,
  rejected, terminal_qr_version, response_max_bytes, has_terminal_qr, terminal_qr_response_matches,
  attempt_token_is_valid, into_terminal_qr_login,
}
use matri_xpost.Runner.Client.{TerminalQrLoginTransportError, Transport, http_endpoint}
use matri_xpost.Runner.Client.Answers.{some_if-some, from_body-other, ok_eq}
use matri_xpost.Runner.Client.Loopback.{loopback_tcp_address-is_loopback}
use matri_xpost.Runner.Client.TerminalQr.{
  QrCodec, read_qr_answer, terminal_qr_login_request_with, send_printed,
  request_terminal_qr_login_with, refresh_terminal_qr_login_with, cancel_terminal_qr_login_with,
}

token_eq : (t t' p p' : Text) → qr_available t p ≡ qr_available t' p' → t ≡ t'
token_eq t t' p p' h = cc h

image_eq : (t t' p p' : Text) → qr_available t p ≡ qr_available t' p' → p ≡ p'
image_eq t t' p p' h = cc h

three_true : (a b c : Bool) → (a && b && c) ≡ true → (a ≡ true) × (b ≡ true) × (c ≡ true)
three_true a b c h = ground arith

-- What was checked of a QR code.
pub record IsOffered (platform : Platform) (token png : Text) : Type 0 where
  pub supported : has_terminal_qr platform ≡ true
  pub token_valid : attempt_token_is_valid token ≡ true
  pub image : IsPng png

into_terminal_qr_login-available :
    (expected : Platform) (response : TerminalQrLoginRunnerResponse) (token png : Text)
    → into_terminal_qr_login expected response ≡ some (qr_available token png)
    → (response ≡ qr_available_response terminal_qr_version expected token png)
      × IsOffered expected token png
unfolding into_terminal_qr_login
into_terminal_qr_login-available expected (qr_available_response version platform t p) token png h =
    let (guard, same) = some_if-some _ _ _ h in
    let (head, token_valid, image) =
      three_true (terminal_qr_response_matches version platform expected) (attempt_token_is_valid t)
        (png_base64_is_valid p) guard in
    let (v, here, supported) =
      three_true (version == terminal_qr_version) (platform_eq platform expected)
        (has_terminal_qr platform) head in
    let at = (platform_eq_iff platform expected).0 here in
    let v' = (==_iff version terminal_qr_version).0 v in
    let same_token = token_eq t token p png same in
    let same_image = image_eq t token p png same in
    (
      cc (v', at, same_token, same_image),
      record {
        supported = ap has_terminal_qr (sym at) ∙ supported;
        token_valid = ap attempt_token_is_valid (sym same_token) ∙ token_valid;
        image = (png_base64_is_valid_iff png).0 (ap png_base64_is_valid (sym same_image) ∙ image);
      },
    )
into_terminal_qr_login-available expected (pending_response version platform t) token png h =
    let (guard, same) = some_if-some _ _ _ h in cc same
into_terminal_qr_login-available expected (timed_out_response version platform) token png h =
    let (guard, same) = some_if-some _ _ _ h in cc same
into_terminal_qr_login-available expected (cancelled_response version platform) token png h =
    let (guard, same) = some_if-some _ _ _ h in cc same
into_terminal_qr_login-available expected (unavailable_response version platform) token png h =
    let (guard, same) = some_if-some _ _ _ h in cc same
into_terminal_qr_login-available expected (rejected_response version platform) token png h =
    let (guard, same) = some_if-some _ _ _ h in cc same

either_false : (a b : Bool) → (not a || b) ≡ false → (a ≡ true) × (b ≡ false)
either_false a b h = ground arith

not_above : (a b : ℕ) → ltb a b ≡ false → b ≤ a
not_above a b h = ground arith

-- The three requests that a client makes.
pub data QrOperation : Type 0 where
  start : QrOperation
  refresh cancel : Text → QrOperation

abbrev pub qr_path : QrOperation → Text
qr_path start = codes "/v1/login/terminal-qr"
qr_path (refresh attempt_token) = codes "/v1/login/terminal-qr/refresh"
qr_path (cancel attempt_token) = codes "/v1/login/terminal-qr/cancel"

module _ {Address W : Type 0} (net : Net Address) (show_address : Address → Text) (codec : QrCodec)
    (post_json : Transport TerminalQrLoginTransportError W) where
  abbrev pub run_qr : QrOperation → ProviderRunner Address → W → Fallible TerminalQrLoginOutcome × W
  run_qr start = request_terminal_qr_login_with net show_address codec post_json
  run_qr (refresh token) = refresh_terminal_qr_login_with net show_address codec post_json token
  run_qr (cancel token) = cancel_terminal_qr_login_with net show_address codec post_json token

  -- The QR code came from the runner at a loopback address, by an answer within the bounds.
  pub record Shown (path : Text) (platform : Platform) (token png : Text) (w w' : W) : Type 0 where
    pub address : Address
    pub at_loopback : net.is_loopback address ≡ true
    pub payload : Text
    pub body : Text
    pub answered :
        post_json (http_endpoint (show_address address) path) payload w ≡ (ok (200, body), w')
    pub bounded : length (bytes body) ≤ response_max_bytes
    pub parsed :
        codec.from_str body ≡ some (qr_available_response terminal_qr_version platform token png)
    pub offered : IsOffered platform token png

  read_qr_answer-available :
      (platform : Platform) (answer : Result TerminalQrLoginTransportError (ℕ × Text))
      (token png : Text)
      → read_qr_answer net show_address codec post_json platform answer ≡ qr_available token png
      → (body : Text) × (answer ≡ ok (200, body))
        × (length (bytes body) ≤ response_max_bytes)
        × (codec.from_str body
            ≡ some (qr_available_response terminal_qr_version platform token png))
        × IsOffered platform token png
  unfolding read_qr_answer
  read_qr_answer-available platform (err failure) token png h = cc h
  read_qr_answer-available platform (ok (status, body)) token png h =
      elim (Bool-cases (not (status == 200) || ltb response_max_bytes (length (bytes body)))) [
        | inl refused ↦ cc (rw refused at h)
        | inr passed ↦
            let (fine, bounded) = either_false (status == 200) _ passed in
            let (response, parsed, converted) =
              from_body-other rejected (into_terminal_qr_login platform) (codec.from_str body)
                (qr_available token png) (rw passed at h) (λ q. cc q) in
            let (same, offered) =
              into_terminal_qr_login-available platform response token png converted in
            (
              body,
              ap (λ n. ok (n, body)) ((==_iff status 200).0 fine),
              not_above _ _ bounded,
              parsed ∙ ap some same,
              offered,
            )
      ]

  sent-Shown :
      (path payload : Text) (runner : ProviderRunner Address) (token png : Text) (w w' : W)
      → terminal_qr_login_request_with net show_address codec post_json path payload runner w
        ≡ (ok (qr_available token png), w')
      → Shown path runner.platform token png w w'
  unfolding terminal_qr_login_request_with
  sent-Shown path payload runner token png w w' h =
      at_address (loopback_tcp_address net runner) refl
    where
      at_address :
          (o : Option Address)
          → loopback_tcp_address net runner ≡ o
          → Shown path runner.platform token png w w'
      at_address none e = cc (rw (terminal_qr_login_request_with, e) at h)
      at_address (some address) e =
          let h' : (
            ok (
                read_qr_answer net show_address codec post_json runner.platform
                  (post_json (http_endpoint (show_address address) path) payload w).0),
            (post_json (http_endpoint (show_address address) path) payload w).1,
          )
              ≡ (ok (qr_available token png), w') =
            rw (terminal_qr_login_request_with, e) at h in
          let (body, answer, bounded, parsed, offered) =
            read_qr_answer-available runner.platform _ token png (ok_eq (ap (λ p. p.0) h')) in
          record {
            address = address;
            at_loopback = loopback_tcp_address-is_loopback net runner address e;
            payload = payload;
            body = body;
            answered = ap₂ (λ a v. (a, v)) answer (ap (λ p. p.1) h');
            bounded = bounded;
            parsed = parsed;
            offered = offered;
          }

  printed-Shown :
      (printed : Result Text Text) (path : Text) (runner : ProviderRunner Address)
      (token png : Text) (w w' : W)
      → send_printed net show_address codec post_json printed path runner w
        ≡ (ok (qr_available token png), w')
      → Shown path runner.platform token png w w'
  printed-Shown (err failure) path runner token png w w' h = cc h
  printed-Shown (ok payload) path runner token png w w' h =
      sent-Shown path payload runner token png w w' h

  guarded-Shown :
      (valid : Bool) (printed : Result Text Text) (path : Text) (runner : ProviderRunner Address)
      (token png : Text) (w w' : W)
      → (if not valid
          then (ok rejected, w)
          else send_printed net show_address codec post_json printed path runner w)
        ≡ (ok (qr_available token png), w')
      → Shown path runner.platform token png w w'
  guarded-Shown false printed path runner token png w w' h = cc h
  guarded-Shown true printed path runner token png w w' h =
      printed-Shown printed path runner token png w w' h

  -- A client that starts, refreshes or cancels an attempt shows a QR code only if the platform is Douyin
  -- or WeChat Channels and the runner, at a loopback address, answered the post with the status 200
  -- and a body within the bound, of a response of this version and platform whose token is valid
  -- and whose image is the base64 of a PNG.
  pub run_qr-Shown :
      (operation : QrOperation) (runner : ProviderRunner Address) (token png : Text) (w w' : W)
      → run_qr operation runner w ≡ (ok (qr_available token png), w')
      → Shown (qr_path operation) runner.platform token png w w'
  unfolding request_terminal_qr_login_with refresh_terminal_qr_login_with
      cancel_terminal_qr_login_with
  run_qr-Shown start runner token png w w' h =
      guarded-Shown _ _ (qr_path start) runner token png w w' h
  run_qr-Shown (refresh t) runner token png w w' h =
      guarded-Shown _ _ (qr_path (refresh t)) runner token png w w' h
  run_qr-Shown (cancel t) runner token png w w' h =
      guarded-Shown _ _ (qr_path (cancel t)) runner token png w w' h
