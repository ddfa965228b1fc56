-- ===== src/Security/Webhook/Middleware/Passes.antt =====
-- Which requests reach the handler behind the wrapper.
use signalwire_agents_cpp.Prelude.{
  some, true, false, ◌≡◌, ◌≢◌, ◌↔◌, refl, sym, ap, ◌∙◌, ◌∷◌, [], Bytes, is_empty, if◌then◌else◌,
}
use mathlib.Core.Option.{some-injective}
use signalwire_agents_cpp.Security.Crypto.{Crypto}
use signalwire_agents_cpp.Security.Webhook.{
  Verdict, signing_key_required, verdict, validate_webhook_signature,
}
use signalwire_agents_cpp.Security.Webhook.Verify.{IsSigned, validate_webhook_signature_iff}
use signalwire_agents_cpp.Security.Webhook.Middleware.{
  Request, WebhookValidatorOptions, signature_of, reconstruct_url, Wrapped, forbidden, handled,
  decide, check_request, wrap_with_signature_validation,
}

module _ {R : Type 0} (k : Crypto) where
  decide_iff : (v : Verdict) (s r : R) → (decide k v s ≡ handled r) ↔ ((v ≡ verdict true) × (s ≡ r))
  decide_iff signing_key_required s r = ((λ h. absurd cc), λ h. absurd cc)
  decide_iff (verdict false) s r = ((λ h. absurd cc), λ h. absurd cc)
  decide_iff (verdict true) s r = ((λ h. (refl, cc)), λ h. ap handled h.1)

  made_inv :
      (key : Bytes) (handler : Request → R) (opts : WebhookValidatorOptions) (env_proxy : Bytes)
      (wrapped : Request → Wrapped R)
      → wrap_with_signature_validation k key (some handler) opts env_proxy ≡ some wrapped
      → (key ≢ []) × (check_request k key handler opts env_proxy ≡ wrapped)
  unfolding wrap_with_signature_validation
  made_inv [] handler opts env_proxy wrapped h = absurd cc
  made_inv (c ∷ key) handler opts env_proxy wrapped h = ((λ e. cc), some-injective _ _ h)

  module _ (key : Bytes) (handler : Request → R) (opts : WebhookValidatorOptions)
      (env_proxy : Bytes) (req : Request) (r : R) where
    -- The request is signed over the URL that is reconstructed for it.
    abbrev pub IsAdmitted : Type 0
    IsAdmitted =
        (signature_of req ≢ [])
        × IsSigned k key (signature_of req) (reconstruct_url req opts env_proxy) req.body
        × (handler req ≡ r)

    checked_iff :
        key ≢ []
        → (sig : Bytes)
        → ((if is_empty sig
              then forbidden
              else decide k
                  (validate_webhook_signature k key sig
                    (reconstruct_url req opts env_proxy)
                    req.body)
                  (handler req))
            ≡ handled r)
          ↔ ((sig ≢ [])
              × IsSigned k key sig (reconstruct_url req opts env_proxy) req.body
              × (handler req ≡ r))
    checked_iff keyed [] = ((λ h. absurd cc), λ h. absurd (h.0 refl))
    checked_iff keyed (c ∷ sig) =
        let v =
          validate_webhook_signature_iff k key (c ∷ sig) (reconstruct_url req opts env_proxy)
            req.body in
        let d =
          decide_iff
            (validate_webhook_signature k key (c ∷ sig) (reconstruct_url req opts env_proxy)
              req.body)
            (handler req) r in
        (
          (λ h.
              let (accepted, same) = d.0 h in
              let (_, signed, valid) = v.0 accepted in (signed, valid, same)),
          λ (signed, valid, same). d.1 (v.1 (keyed, signed, valid), same),
        )

    -- When a handler is wrapped with a key, a request reaches it exactly when it brings a signature,
    -- under either header name, that is one of the key over the URL which is reconstructed from the
    -- request and over its body; any other request is forbidden, and the handler is not run.
    pub wrap_with_signature_validation_iff :
        (wrapped : Request → Wrapped R)
        → wrap_with_signature_validation k key (some handler) opts env_proxy ≡ some wrapped
        → (wrapped req ≡ handled r) ↔ IsAdmitted
    wrap_with_signature_validation_iff wrapped made =
        let (keyed, same) = made_inv key handler opts env_proxy wrapped made in
        let at_request : check_request k key handler opts env_proxy req ≡ wrapped req =
          ap (λ w. w req) same in
        let c = checked_iff keyed (signature_of req) in
        (λ h. c.0 (at_request ∙ h), λ h. sym at_request ∙ c.1 h)
