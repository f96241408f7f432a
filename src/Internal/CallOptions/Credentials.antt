-- ===== src/Internal/CallOptions/Credentials.antt =====
-- What ApplyPerRPCCreds does to the outgoing metadata, and when it fails.
use mathlib.Core.Option.{some-injective}
use notnets_grpc.Prelude.{
  ◌≡◌, ◌↔◌, ◌⊎◌, refl, sym, ap, subst, ◌∙◌, Bool, true, false, ◌&&◌, not, List, [], ◌∷◌, ◌++◌,
  Option, none, some, Err, ok, err, transport_security, arith, append-nil,
}
use notnets_grpc.Text.{Text}
use notnets_grpc.Dict.{Dict, Multi, values}
use notnets_grpc.Contexts.{Contexts, ContextLaws, InLowerCase, new_values}
use notnets_grpc.Internal.CallOptions.{
  CallOptions, PerRpcCredentials, request_headers, add_request_metadata, with_creds, apply_creds,
  apply_per_rpc_creds,
}

abbrev pub values_of : Option Multi → Text → List Text
values_of none j = []
values_of (some md) j = values j md

-- The values that a context sends under a key.
abbrev pub outgoing_values : (c : Contexts) → c.Context → Text → List Text
outgoing_values c ctx j = values_of (c.from_outgoing ctx) j

module _ (c : Contexts) {C : Type 0} (api : PerRpcCredentials c.Context C) where
  -- Why the credentials of a call refuse.
  abbrev pub Refuses : c.Context → C → Text → Bool → Err → Type 0
  Refuses ctx creds uri secure e =
      ((api.require_transport_security creds ≡ true) × (secure ≡ false) × (e ≡ transport_security))
      ⊎ (((api.require_transport_security creds && not secure) ≡ false)
          × (api.get_request_metadata creds ctx uri ≡ err e))

  with_creds_err :
      (ctx : c.Context) (creds : C) (uri : Text) (secure : Bool) (e : Err)
      → (with_creds c api ctx creds uri secure ≡ err e) ↔ Refuses ctx creds uri secure e
  unfolding with_creds
  with_creds_err ctx creds uri secure e = ground arith

  apply_creds_err :
      (ctx : c.Context) (o : Option C) (uri : Text) (secure : Bool) (e : Err)
      → (apply_creds c api ctx o uri secure ≡ err e)
        ↔ ((creds : C) × (o ≡ some creds) × Refuses ctx creds uri secure e)
  unfolding apply_creds
  apply_creds_err ctx none uri secure e = (λ h. cc, λ h. cc (h.1))
  apply_creds_err ctx (some creds) uri secure e = (
    λ h. (creds, refl, (with_creds_err ctx creds uri secure e).0 h),
    λ h.
        (with_creds_err ctx creds uri secure e).1
          (subst (λ x. Refuses ctx x uri secure e) (sym (some-injective _ _ h.1)) h.2),
  )

  -- ApplyPerRPCCreds fails exactly when there are credentials, and they require security on a
  -- channel without it, or fail themselves to give their metadata.
  pub apply_per_rpc_creds_err :
      (ctx : c.Context) (copts : CallOptions C) (uri : Text) (secure : Bool) (e : Err)
      → (apply_per_rpc_creds c api ctx copts uri secure ≡ err e)
        ↔ ((creds : C) × (copts.creds ≡ some creds) × Refuses ctx creds uri secure e)
  unfolding apply_per_rpc_creds
  apply_per_rpc_creds_err ctx copts uri secure e = apply_creds_err ctx copts.creds uri secure e

  module _ (laws : ContextLaws c) where
    request_headers_lem :
        (o : Option Multi) (md : Dict Text) (j : Text)
        → ((h : Multi) → o ≡ some h → InLowerCase h)
        → InLowerCase (request_headers c api o md)
          × (values j (request_headers c api o md) ≡ values_of o j ++ new_values j md)
    unfolding request_headers
    request_headers_lem none md j low = (laws.new-InLowerCase md, laws.values-new md j)
    request_headers_lem (some h) md j low = (
      laws.join-InLowerCase h _ (low h refl) (laws.new-InLowerCase md),
      laws.values-join h _ j ∙ ap (λ vs. values j h ++ vs) (laws.values-new md j),
    )

    values-add_request_metadata :
        (ctx : c.Context) (md : Dict Text) (j : Text)
        → outgoing_values c (add_request_metadata c api ctx md) j
          ≡ outgoing_values c ctx j ++ new_values j md
    unfolding add_request_metadata
    values-add_request_metadata ctx [] j = sym (append-nil _)
    values-add_request_metadata ctx (e ∷ md) j =
        let (low, added) =
          request_headers_lem (c.from_outgoing ctx) (e ∷ md) j
            (λ h. laws.from_outgoing-InLowerCase ctx h) in
        ap (λ o. values_of o j) (laws.from-new_outgoing ctx _ low) ∙ added

    -- Over a secure channel, credentials that give their metadata add it to the metadata that the
    -- context sends, key by key, behind what is there, and no values go missing.
    pub apply_per_rpc_creds_lem :
        (ctx : c.Context) (copts : CallOptions C) (creds : C) (uri : Text) (md : Dict Text)
        → copts.creds ≡ some creds
        → api.get_request_metadata creds ctx uri ≡ ok md
        → (ctx' : c.Context) × (apply_per_rpc_creds c api ctx copts uri true ≡ ok ctx')
          × ((j : Text) → outgoing_values c ctx' j ≡ outgoing_values c ctx j ++ new_values j md)
    unfolding apply_per_rpc_creds apply_creds with_creds
    apply_per_rpc_creds_lem ctx copts creds uri md given answered =
        (add_request_metadata c api ctx md, ground arith, values-add_request_metadata ctx md)
