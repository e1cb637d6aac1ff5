-- ===== src/Runner/Registry/Declared.antt =====
-- Which providers the declarations of local runners install.
use matri_xpost.Prelude.{
  ◌≡◌, refl, ap, sym, ◌∙◌, true, List, [], ◌∷◌, All, some, is_some, ok, arith, reject_if->>-ok,
  >>=-eq-ok,
}
use mathlib.Core.Path.{subst}
use matri_xpost.Types.Enums.{Platform, all_platforms}
use matri_xpost.Runner.Outcomes.{insert, values}
use matri_xpost.Runner.Outcomes.Laws.{Holds, empty-Holds, insert-Holds, collect_values-All}
use matri_xpost.Runner.Config.{
  Net, ProviderRunner, ProviderRunnerTransport, unix_socket, named_pipe, tcp, validate_runner,
  validate_transport,
}
use matri_xpost.Runner.Registry.{
  Provider, ProviderRegistry, new, declare_runners, install_runners, from_runners,
}

module _ {Address W : Type 0} (net : Net Address)
    (tcp_provider : Platform → Address → Provider W) where
  -- A declaration that stands at its own platform and passed the checks.
  abbrev Declared : Platform → ProviderRunner Address → Type 0
  Declared p runner = (runner.platform ≡ p) × (validate_runner net runner ≡ ok tt)

  -- The provider of the local runner at a loopback address.
  abbrev pub IsLoopback : Platform → Provider W → Type 0
  IsLoopback p provider =
      (address : Address) × (net.is_loopback address ≡ true) × (provider ≡ tcp_provider p address)

  declare_runners-Declared :
      (runners : List (ProviderRunner Address)) (registry registry' : ProviderRegistry Address W)
      → Holds Declared registry.runners
      → declare_runners net tcp_provider runners registry ≡ ok registry'
      → Holds Declared registry'.runners × (registry'.providers ≡ registry.providers)
  unfolding declare_runners
  declare_runners-Declared [] registry registry' hold h =
      let same : registry ≡ registry' = cc h in
      (
        subst (λ (r : ProviderRegistry Address W). Holds Declared r.runners) same hold,
        ap (λ (r : ProviderRegistry Address W). r.providers) (sym same),
      )
  declare_runners-Declared (runner ∷ rest) registry registry' hold h =
      let (u, valid, h₁) = >>=-eq-ok (validate_runner net runner) _ h in
      let (new, h₂) = reject_if->>-ok (is_some (registry.runners runner.platform)) _ _ _ h₁ in
      declare_runners-Declared rest
        (record registry { runners = insert runner.platform runner registry.runners }) registry'
        (insert-Holds Declared runner.platform runner registry.runners (refl, valid) hold) h₂

  tcp-loopback :
      (address : Address)
      → validate_transport net (tcp address) ≡ ok tt
      → net.is_loopback address ≡ true
  unfolding validate_transport
  tcp-loopback address v = ground arith

  install_runners-IsLoopback :
      (runners : List (ProviderRunner Address)) (registry registry' : ProviderRegistry Address W)
      → All (λ (r : ProviderRunner Address). (p : Platform) × Declared p r) runners
      → Holds IsLoopback registry.providers
      → install_runners net tcp_provider runners registry ≡ ok registry'
      → Holds IsLoopback registry'.providers
  unfolding install_runners
  install_runners-IsLoopback [] registry registry' declared hold h =
      let same : registry ≡ registry' = cc h in
      subst (λ (r : ProviderRegistry Address W). Holds IsLoopback r.providers) same hold
  install_runners-IsLoopback (runner ∷ rest) registry registry' declared hold h =
      by_transport (λ next. install_runners-IsLoopback rest next registry' declared.1)
        runner.transport refl
    where
      next_hold :
          (address : Address)
          → runner.transport ≡ tcp address
          → Holds IsLoopback
              (insert runner.platform (tcp_provider runner.platform address) registry.providers)
      next_hold address e =
          insert-Holds IsLoopback runner.platform (tcp_provider runner.platform address)
            registry.providers
            (
              address,
              tcp-loopback address (ap (validate_transport net) (sym e) ∙ declared.0.1.1),
              refl,
            )
            hold

      by_transport :
          ((next : ProviderRegistry Address W)
            → Holds IsLoopback next.providers
            → install_runners net tcp_provider rest next ≡ ok registry'
            → Holds IsLoopback registry'.providers)
          → (t : ProviderRunnerTransport Address) → runner.transport ≡ t
          → Holds IsLoopback registry'.providers
      by_transport later (unix_socket path) e = later registry hold (rw e at h)
      by_transport later (named_pipe name) e = later registry hold (rw e at h)
      by_transport later (tcp address) e =
          let (new, k) =
            reject_if->>-ok (is_some (registry.providers runner.platform)) _ _ _ (rw e at h) in
          later
            (record registry {
              providers =
                  insert runner.platform (tcp_provider runner.platform address) registry.providers;
            })
            (next_hold address e) k

  -- A registry that is built from declared runners has providers at loopback addresses only: each
  -- is the local runner's, of its platform.
  pub from_runners-IsLoopback :
      (runners : List (ProviderRunner Address)) (registry : ProviderRegistry Address W)
      (p : Platform) (provider : Provider W)
      → from_runners net tcp_provider runners ≡ ok registry
      → registry.providers p ≡ some provider
      → IsLoopback p provider
  unfolding from_runners values
  from_runners-IsLoopback runners registry p provider h at =
      let (declared, h₁, h₂) = >>=-eq-ok (declare_runners net tcp_provider runners new) _ h in
      let (hold, same) = declare_runners-Declared runners new declared (empty-Holds Declared) h₁ in
      install_runners-IsLoopback (values declared.runners) declared registry
        (collect_values-All Declared declared.runners all_platforms hold)
        (subst (Holds IsLoopback) (sym same) (empty-Holds IsLoopback)) h₂ p provider at
