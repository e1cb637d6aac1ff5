-- ===== src/Runner/Client/Silent.antt =====
-- What the clients do for a runner that is at no loopback TCP address.
use matri_xpost.Prelude.{
  ◌≡◌, refl, inl, inr, Bool, true, false, not, none, Result, ok, err, if◌then◌else◌, Bool-cases,
}
use matri_xpost.Text.{Text, codes}
use matri_xpost.Error.{Fallible}
use matri_xpost.Runner.Config.{
  Net, ProviderRunner, ProviderRunnerTransport, unix_socket, named_pipe, tcp, loopback_tcp_address,
}
use matri_xpost.Runner.Protocol.Login.{LoginRunnerRequest, LoginRunnerResponse}
use matri_xpost.Runner.Protocol.Readiness.{AccountStatusRunnerRequest, AccountStatusRunnerResponse}
use matri_xpost.Runner.Protocol.Review.{ReviewStatusRunnerRequest, ReviewStatusRunnerResponse}
use matri_xpost.Runner.Protocol.TerminalQr.{TerminalQrLoginOutcome}
use matri_xpost.Runner.Client.{
  ManualLoginTransportError, TerminalQrLoginTransportError, Transport, Codec,
}
use matri_xpost.Runner.Client.Login.{request_manual_login_with}
use matri_xpost.Runner.Client.Readiness.{account_readiness_with}
use matri_xpost.Runner.Client.Review.{fanqie_review_status_with}
use matri_xpost.Runner.Client.TerminalQr.{
  QrCodec, terminal_qr_login_request_with, send_printed, request_terminal_qr_login_with,
  refresh_terminal_qr_login_with, cancel_terminal_qr_login_with,
}
use matri_xpost.Runner.Client.Answers.Confirmed.{refused}
use matri_xpost.Runner.Client.Answers.Qr.{QrOperation, start, refresh, cancel, run_qr}

module _ {Address : Type 0} (net : Net Address) where
  -- A runner of no TCP address, or of one that is not a loopback address.
  no_address :
      (runner : ProviderRunner Address)
      → ((address : Address) → runner.transport ≡ tcp address → net.is_loopback address ≡ false)
      → loopback_tcp_address net runner ≡ none
  unfolding loopback_tcp_address
  no_address runner remote = by_transport runner.transport refl
    where
      by_transport :
          (t : ProviderRunnerTransport Address)
          → runner.transport ≡ t
          → loopback_tcp_address net runner ≡ none
      by_transport (tcp address) e = rw (loopback_tcp_address, e, remote address e) refl
      by_transport (unix_socket path) e = rw (loopback_tcp_address, e) refl
      by_transport (named_pipe name) e = rw (loopback_tcp_address, e) refl

module _ {Address W : Type 0} (net : Net Address) (show_address : Address → Text) where
  login-silent :
      (codec : Codec LoginRunnerRequest LoginRunnerResponse)
      (post : Transport ManualLoginTransportError W) (runner : ProviderRunner Address) (w : W)
      → loopback_tcp_address net runner ≡ none
      → (request_manual_login_with net show_address codec post runner w).1 ≡ w
  unfolding request_manual_login_with
  login-silent codec post runner w h = rw (request_manual_login_with, h) refl

  readiness-silent :
      (codec : Codec AccountStatusRunnerRequest AccountStatusRunnerResponse)
      (post : Transport ManualLoginTransportError W) (runner : ProviderRunner Address) (w : W)
      → loopback_tcp_address net runner ≡ none
      → (account_readiness_with net show_address codec post runner w).1 ≡ w
  unfolding account_readiness_with
  readiness-silent codec post runner w h = rw (account_readiness_with, h) refl

  review-silent :
      (codec : Codec ReviewStatusRunnerRequest ReviewStatusRunnerResponse)
      (post : Transport ManualLoginTransportError W) (title_query : Text)
      (runner : ProviderRunner Address) (w : W)
      → loopback_tcp_address net runner ≡ none
      → (fanqie_review_status_with net show_address codec post title_query runner w).1 ≡ w
  unfolding fanqie_review_status_with
  review-silent codec post title_query runner w h = elim (Bool-cases (refused title_query runner)) [
    | inl refusal ↦ rw refusal refl
    | inr asked ↦ rw (asked, h) refl
  ]

  module _ (codec : QrCodec) (post : Transport TerminalQrLoginTransportError W) where
    printed-silent :
        (printed : Result Text Text) (path : Text) (runner : ProviderRunner Address) (w : W)
        → loopback_tcp_address net runner ≡ none
        → (send_printed net show_address codec post printed path runner w).1 ≡ w
    unfolding terminal_qr_login_request_with
    printed-silent (err failure) path runner w h = refl
    printed-silent (ok payload) path runner w h = rw (terminal_qr_login_request_with, h) refl

    guarded-silent :
        (valid : Bool) (printed : Result Text Text) (path : Text) (runner : ProviderRunner Address)
        (w : W) (outcome : Fallible TerminalQrLoginOutcome)
        → loopback_tcp_address net runner ≡ none
        → (if not valid
            then (outcome, w)
            else send_printed net show_address codec post printed path runner w).1
          ≡ w
    guarded-silent false printed path runner w outcome h = refl
    guarded-silent true printed path runner w outcome h = printed-silent printed path runner w h

    qr-silent :
        (operation : QrOperation) (runner : ProviderRunner Address) (w : W)
        → loopback_tcp_address net runner ≡ none
        → (run_qr net show_address codec post operation runner w).1 ≡ w
    unfolding request_terminal_qr_login_with refresh_terminal_qr_login_with
        cancel_terminal_qr_login_with
    qr-silent start runner w h = guarded-silent _ _ (codes "/v1/login/terminal-qr") runner w _ h
    qr-silent (refresh t) runner w h =
        guarded-silent _ _ (codes "/v1/login/terminal-qr/refresh") runner w _ h
    qr-silent (cancel t) runner w h =
        guarded-silent _ _ (codes "/v1/login/terminal-qr/cancel") runner w _ h

  -- For a runner whose transport is a Unix socket, a named pipe or a TCP address that is not a
  -- loopback address, the login, readiness, review and terminal QR clients leave the world as it was,
  -- so nothing is posted.
  pub clients-silent :
      (login : Codec LoginRunnerRequest LoginRunnerResponse)
      (readiness : Codec AccountStatusRunnerRequest AccountStatusRunnerResponse)
      (review : Codec ReviewStatusRunnerRequest ReviewStatusRunnerResponse) (qr : QrCodec)
      (post : Transport ManualLoginTransportError W)
      (qr_post : Transport TerminalQrLoginTransportError W) (runner : ProviderRunner Address)
      (title_query : Text) (operation : QrOperation) (w : W)
      → ((address : Address) → runner.transport ≡ tcp address → net.is_loopback address ≡ false)
      → ((request_manual_login_with net show_address login post runner w).1 ≡ w)
        × ((account_readiness_with net show_address readiness post runner w).1 ≡ w)
        × ((fanqie_review_status_with net show_address review post title_query runner w).1 ≡ w)
        × ((run_qr net show_address qr qr_post operation runner w).1 ≡ w)
  clients-silent login readiness review qr post qr_post runner title_query operation w remote =
      let h = no_address net runner remote in
      (
        login-silent login post runner w h,
        readiness-silent readiness post runner w h,
        review-silent review post title_query runner w h,
        qr-silent qr qr_post operation runner w h,
      )
