-- ===== src/Proxy/Guards.antt =====
-- Which requests internal/compat/proxy.go passes on to a provider.
use auto_gardener.Base.{
  Bool, Option, ap, arith, false, is_nil, none, refl, some, true, ℕ, ◌↔◌, ◌∙◌, ◌≡◌,
}
use auto_gardener.Proxy.{
  Body, ProviderSpec, ProxyRequest, ResponseRequest, bearer_token, check_body, check_params,
  check_request, cut_off, decoded, forwarded, handle, is_over, malformed, out_of_range, provider_of,
  validate_sampling_params,
}
use auto_gardener.Text.{Text, text_eq, text_of}

module _ {F : Type 0} (below above : F → ℕ → Bool) where
  abbrev pub InRange : ℕ → Option F → Type 0
  InRange limit none = Unit {0}
  InRange limit (some x) = (below x 0 ≡ false) × (above x limit ≡ false)

  -- What a request must be to reach the provider `spec` with the token and the decoded request.
  pub record IsForwardable (r : ProxyRequest F) (spec : ProviderSpec) (token : Text)
      (q : ResponseRequest F) : Type 0 where
    pub posted : text_eq r.method (text_of "POST") ≡ true
    pub routed : provider_of r.path ≡ some spec
    pub identified : bearer_token r.authorization ≡ token
    pub named : is_nil token ≡ false
    pub fits : is_over r.content_length ≡ false
    pub readable : r.body ≡ decoded q
    pub heated : InRange 2 q.temperature
    pub sampled : InRange 1 q.top_p

  out_of_range_iff :
      (limit : ℕ) (x : Option F) → (out_of_range below above limit x ≡ false) ↔ InRange limit x
  unfolding out_of_range
  out_of_range_iff limit none = (λ h. tt, λ h. refl)
  out_of_range_iff limit (some x) = (λ h. ground arith, λ h. ground arith)

  validate_sampling_params_iff :
      (q : ResponseRequest F)
      → (validate_sampling_params below above q ≡ none)
        ↔ (InRange 2 q.temperature × InRange 1 q.top_p)
  unfolding validate_sampling_params
  validate_sampling_params_iff q =
      let t = out_of_range_iff 2 q.temperature in
      let p = out_of_range_iff 1 q.top_p in
      (λ h. (t.0 (ground arith), p.0 (ground arith)), λ h. ground (arith, t.1 h.0, p.1 h.1))

  check_params_iff :
      (spec spec' : ProviderSpec) (token token' : Text) (q q' : ResponseRequest F)
      → (check_params below above spec token q ≡ forwarded spec' token' q') ↔ (
          (spec ≡ spec')
          × (token ≡ token')
          × (q ≡ q')
          × (validate_sampling_params below above q ≡ none))
  unfolding check_params
  check_params_iff spec spec' token token' q q' = (λ h. ground arith, λ h. ground arith)

  check_body_iff :
      (spec spec' : ProviderSpec) (token token' : Text) (body : Body F) (q : ResponseRequest F)
      → (check_body below above spec token body ≡ forwarded spec' token' q) ↔ (
          (spec ≡ spec')
          × (token ≡ token')
          × (body ≡ decoded q)
          × (validate_sampling_params below above q ≡ none))
  unfolding check_body
  check_body_iff spec spec' token token' cut_off q = (λ h. cc, λ h. cc)
  check_body_iff spec spec' token token' malformed q = (λ h. cc, λ h. cc)
  check_body_iff spec spec' token token' (decoded q0) q =
      let h = check_params_iff spec spec' token token' q0 q in
      (λ k. ground (arith, h.0 k), λ k. ground (arith, h.1))

  check_request_iff :
      (spec spec' : ProviderSpec) (token : Text) (r : ProxyRequest F) (q : ResponseRequest F)
      → (check_request below above spec r ≡ forwarded spec' token q) ↔ (
          (spec ≡ spec')
          × (bearer_token r.authorization ≡ token)
          × (is_nil token ≡ false)
          × (is_over r.content_length ≡ false)
          × (r.body ≡ decoded q)
          × (validate_sampling_params below above q ≡ none))
  unfolding check_request
  check_request_iff spec spec' token r q =
      let t = bearer_token r.authorization in
      let h = check_body_iff spec spec' t token r.body q in
      (λ k. ground (arith, h.0), λ k. ground (arith, h.1))

  check_route :
      (r : ProxyRequest F) (found : Option ProviderSpec) (spec : ProviderSpec) (token : Text)
      (q : ResponseRequest F)
      → provider_of r.path ≡ found
      → handle below above r ≡ forwarded spec token q
      → (text_eq r.method (text_of "POST") ≡ true)
        × (spec' : ProviderSpec) × (provider_of r.path ≡ some spec')
        × (check_request below above spec' r ≡ forwarded spec token q)
  unfolding handle
  check_route r none spec token q e h = ground arith
  check_route r (some spec') spec token q e h = (ground arith, spec', e, ground arith)

  -- A request is passed on exactly when it is a POST to the path of a known provider, with a token that
  -- is not empty, a length that is not given or within the limit, a body that can be read, and sampling
  -- parameters in their ranges; it goes to the provider of the path with the token it came with.
  pub handle-eq-forwarded :
      (r : ProxyRequest F) (spec : ProviderSpec) (token : Text) (q : ResponseRequest F)
      → (handle below above r ≡ forwarded spec token q) ↔ IsForwardable r spec token q
  handle-eq-forwarded r spec token q = (
    λ h.
        let (p, spec', f, k) = check_route r (provider_of r.path) spec token q refl h in
        let (a, b, c, d, m, v) = (check_request_iff spec' spec token r q).0 k in
        let (x, y) = (validate_sampling_params_iff q).0 v in
        record {
          posted = p;
          routed = f ∙ ap (λ s. some s) a;
          identified = b;
          named = c;
          fits = d;
          readable = m;
          heated = x;
          sampled = y;
        },
    λ h. forward h (
        (check_request_iff spec spec token r q).1 (
          refl,
          h.identified,
          h.named,
          h.fits,
          h.readable,
          (validate_sampling_params_iff q).1 (h.heated, h.sampled),
        )),
  )
    where
      forward :
          IsForwardable r spec token q
          → check_request below above spec r ≡ forwarded spec token q
          → handle below above r ≡ forwarded spec token q
      forward h k = unfold handle in ground (arith, h.posted, h.routed)
