-- ===== src/Runner/Client/Answers/Queued.antt =====
-- What a queued dispatch of `TcpRunnerProvider` says.
use mathlib.Core.Path.{subst}
use matri_xpost.Prelude.{◌≡◌, ap, sym, ◌∙◌, Bool, true, false, not, some, ok, arith, &&-true}
use matri_xpost.Text.{Text, codes, is_blank}
use matri_xpost.Types.Enums.{Platform}
use matri_xpost.Types.Request.{PublishRequest, runner_safe, has_account_routing}
use matri_xpost.Types.Request.Laws.{has_account_routing-runner_safe}
use matri_xpost.Runner.Outcomes.{queued}
use matri_xpost.Runner.Protocol.{is_answer}
use matri_xpost.Runner.Protocol.Publish.{
  ProviderRunnerRequest, ProviderRunnerResponse, queued_response, unavailable_response,
  rejected_response, provider_version, into_dispatch,
}
use matri_xpost.Runner.Client.{Transport, Codec, http_endpoint}
use matri_xpost.Runner.Client.Answers.{Accepted, exchange-Accepted, some_if-some, is_answer-eq}
use matri_xpost.Runner.Client.Publish.{runner_request, rejected_answer, enqueue_with}

pub not-true : (b : Bool) → not b ≡ true → b ≡ false
not-true b h = ground arith

queued_text : (a b : Text) → queued a ≡ queued b → a ≡ b
queued_text a b h = cc h

-- The only response that converts to a queued dispatch.
into_dispatch-queued :
    (expected : Platform) (response : ProviderRunnerResponse) (id : Text)
    → into_dispatch expected response ≡ some (queued id)
    → (response ≡ queued_response provider_version expected id) × (is_blank id ≡ false)
unfolding into_dispatch
into_dispatch-queued expected (queued_response version platform job_id) id h =
    let (guard, same) = some_if-some _ _ _ h in
    let (answer, filled) =
      &&-true (is_answer provider_version version platform expected) (not (is_blank job_id))
        guard in
    let (v, p) = is_answer-eq provider_version version platform expected answer in
    let i = queued_text job_id id same in
    (cc (v, p, i), ap is_blank (sym i) ∙ not-true (is_blank job_id) filled)
into_dispatch-queued expected (unavailable_response version platform reason) id h =
    let (guard, same) = some_if-some _ _ _ h in cc same
into_dispatch-queued expected (rejected_response version platform reason) id h =
    let (guard, same) = some_if-some _ _ _ h in cc same

module _ {Address W : Type 0} (show_address : Address → Text)
    (codec : Codec ProviderRunnerRequest ProviderRunnerResponse)
    (post_json : Transport (Unit {0}) W) (platform : Platform) (address : Address) where
  -- A provider says queued only if the runner answered its post with the status 200 and a response of
  -- this protocol version and platform that carries the job's id, which is not blank; what was
  -- posted is of this version and platform, and its request is the one given without its account
  -- routing, so that neither it nor an override of it names an account.
  pub enqueue_with-queued :
      (request : PublishRequest) (w w' : W) (id : Text)
      → enqueue_with show_address codec post_json platform address request w ≡ (ok (queued id), w')
      → Accepted codec post_json
          (http_endpoint (show_address address) (codes "/v1/publish"))
          (record { version = 1; platform = platform; request = runner_safe request })
          w
          (queued_response 1 platform id)
          w'
        × (has_account_routing (runner_safe request) ≡ false)
        × (is_blank id ≡ false)
  unfolding enqueue_with
  enqueue_with-queued request w w' id h =
      let (response, accepted, converted) =
        exchange-Accepted codec post_json rejected_answer (into_dispatch platform) _
          (runner_request platform request) w w' (queued id) h (λ e. cc e) in
      let (same, filled) = into_dispatch-queued platform response id converted in
      (
        subst
            (λ r.
              Accepted codec post_json (http_endpoint (show_address address) (codes "/v1/publish"))
                (runner_request platform request) w r w')
            same accepted,
        has_account_routing-runner_safe request,
        filled,
      )
