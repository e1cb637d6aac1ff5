-- ===== src/Runner/Client/Loopback.antt =====
-- Which address a client of a declared runner contacts.
use matri_xpost.Prelude.{
  ◌≡◌, refl, ap, sym, ◌∙◌, inl, inr, true, Option, none, some, ok, ◌≢◌, if◌then◌else◌, Bool-cases,
}
use matri_xpost.Text.{Text}
use matri_xpost.Error.{Fallible}
use matri_xpost.Runner.Config.{
  Net, ProviderRunner, ProviderRunnerTransport, unix_socket, named_pipe, tcp, loopback_tcp_address,
}
use matri_xpost.Runner.Client.{Transport, Codec, http_endpoint, exchange, read_answer}
use matri_xpost.Runner.Client.Answers.{Accepted, exchange-Accepted, ok_eq}

some_eq : {A : Type 0} (a b : A) → some a ≡ some b → a ≡ b
some_eq a b h = cc h

module _ {Address : Type 0} (net : Net Address) where
  kept-is_loopback :
      (a address : Address)
      → (if net.is_loopback a then some a else none) ≡ some address
      → net.is_loopback address ≡ true
  kept-is_loopback a address h = elim (Bool-cases (net.is_loopback a)) [
    | inl local ↦ ap net.is_loopback (sym (some_eq a address (rw local at h))) ∙ local
    | inr remote ↦ cc (rw remote at h)
  ]

  pub loopback_tcp_address-is_loopback :
      (runner : ProviderRunner Address) (address : Address)
      → loopback_tcp_address net runner ≡ some address
      → net.is_loopback address ≡ true
  unfolding loopback_tcp_address
  loopback_tcp_address-is_loopback runner address h = by_transport runner.transport refl
    where
      by_transport :
          (t : ProviderRunnerTransport Address)
          → runner.transport ≡ t
          → net.is_loopback address ≡ true
      by_transport (tcp a) e = kept-is_loopback a address (rw (loopback_tcp_address, e) at h)
      by_transport (unix_socket path) e = cc (rw (loopback_tcp_address, e) at h)
      by_transport (named_pipe name) e = cc (rw (loopback_tcp_address, e) at h)

  -- A response that the runner at a loopback address gave to the request.
  abbrev pub FromRunner :
      {Request Response E W : Type 0}
      → (Address → Text)
      → Codec Request Response
      → Transport E W
      → Text
      → Request
      → W
      → Response
      → W
      → Type 0
  FromRunner show_address codec post_json path request w response w' =
      (address : Address) × (net.is_loopback address ≡ true)
      × Accepted codec post_json (http_endpoint (show_address address) path) request w response w'

module _ {Address Request Response E W Outcome : Type 0} (net : Net Address)
    (show_address : Address → Text) (codec : Codec Request Response) (post_json : Transport E W)
    (fallback absent : Outcome) (convert : Response → Option Outcome) (path : Text)
    (request : Request) (runner : ProviderRunner Address) (w w' : W) where
  -- The runner is asked if its address is one of the loopback.
  abbrev pub asked : Option Address → Fallible Outcome × W
  asked none = (ok absent, w)
  asked (some address) =
      exchange codec post_json (read_answer codec fallback convert)
        (http_endpoint (show_address address) path) request w

  -- An outcome that stands neither for a failure nor for a missing address is the runner's.
  pub asked-FromRunner :
      (outcome : Outcome)
      → asked (loopback_tcp_address net runner) ≡ (ok outcome, w')
      → outcome ≢ fallback
      → outcome ≢ absent
      → (response : Response) × FromRunner net show_address codec post_json path request w response
          w'
        × (convert response ≡ some outcome)
  asked-FromRunner outcome h other there = at_address (loopback_tcp_address net runner) refl
    where
      at_address :
          (o : Option Address)
          → loopback_tcp_address net runner ≡ o
          → (response : Response) × FromRunner net show_address codec post_json path request w
              response w'
            × (convert response ≡ some outcome)
      at_address none e = absurd (there (sym (ok_eq (ap (λ p. p.0) (rw e at h)))))
      at_address (some address) e =
          let (response, accepted, converted) =
            exchange-Accepted codec post_json fallback convert
              (http_endpoint (show_address address) path) request w w' outcome (rw e at h) other in
          (
            response,
            (address, loopback_tcp_address-is_loopback net runner address e, accepted),
            converted,
          )
