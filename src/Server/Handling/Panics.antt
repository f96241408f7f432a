-- ===== src/Server/Handling/Panics.antt =====
-- The messages at which handleMethod panics, and with it the server's process ends.
use notnets_grpc.Prelude.{
  ◌<◌, drop, sym, ap, ◌∙◌, ◌≡◌, ◌⊎◌, ◌↔◌, refl, inl, inr, Option, none, some, Result, ok, err,
  panics, run_bind-eq-panics,
}
use notnets_grpc.Http.Request.{read_request}
use notnets_grpc.Text.{Text}
use notnets_grpc.Contexts.{Contexts}
use notnets_grpc.Timeout.{context_from_headers}
use notnets_grpc.Routing.{service_and_method}
use notnets_grpc.Routing.Parts.{
  slashes, IsRoute, service_and_method_panics_iff, service_and_method-IsRoute,
}
use notnets_grpc.Services.{MethodDesc, ServiceDesc, HandlerMap, find_unary_method}
use notnets_grpc.Http.{Received, Codec}
use notnets_grpc.Server.{NotnetsServer}
use notnets_grpc.Server.Handling.{
  Served, with_method, with_service, with_context, with_request, handle_method,
}

module _ {I M H Q R : Type 0} (c : Contexts) (background : c.Context) (map : HandlerMap M H)
    (codec : Codec R Q) (call_handler : Option I → H → Text → c.Context → Text → Served R)
    (s : NotnetsServer I M) where
  -- No service of the name, or no method of the name in the service.
  abbrev pub IsUnknown : Text → Text → Type 0
  IsUnknown service method =
      (map.query service s.handlers ≡ none)
      ⊎ ((sd : ServiceDesc H) × (map.query service s.handlers ≡ some sd)
          × (find_unary_method method sd.methods ≡ none))

  -- A request with a path of fewer than three parts, or with headers that can be decoded and a
  -- service or a method that is not there.
  abbrev pub IsFatal : Received → Type 0
  IsFatal request =
      (slashes (drop 1 request.request_uri) < 2)
      ⊎ ((service : Text) × (method : Text) × IsRoute request.request_uri service method
          × (ctx : c.Context) × (context_from_headers c background request.header ≡ ok ctx)
          × IsUnknown service method)

  with_method-eq-panics :
      (request : Received) (method : Text) (ctx : c.Context) (found : Option (MethodDesc H))
      → with_method c background map codec call_handler s request method ctx found ≡ panics
      → found ≡ none
  unfolding with_method
  with_method-eq-panics request method ctx none h = refl
  with_method-eq-panics request method ctx (some md) h = cc

  with_service-eq-panics :
      (request : Received) (method : Text) (ctx : c.Context) (known : Option (ServiceDesc H))
      → with_service c background map codec call_handler s request method ctx known ≡ panics
      → (known ≡ none)
        ⊎ ((sd : ServiceDesc H) × (known ≡ some sd) × (find_unary_method method sd.methods ≡ none))
  unfolding with_service
  with_service-eq-panics request method ctx none h = inl refl
  with_service-eq-panics request method ctx (some sd) h =
      inr (sd, refl, with_method-eq-panics request method ctx _ h)

  with_context-eq-panics :
      (request : Received) (route : Text × Text) (m : Result c.Context)
      → with_context c background map codec call_handler s request route.0 route.1 m ≡ panics
      → (ctx : c.Context) × (m ≡ ok ctx) × IsUnknown route.0 route.1
  unfolding with_context
  with_context-eq-panics request route (err e) h = cc
  with_context-eq-panics request route (ok ctx) h =
      (ctx, refl, with_service-eq-panics request route.1 ctx _ h)

  with_request-IsFatal :
      (request : Received)
      → with_request c background map codec call_handler s (ok request) ≡ panics
      → IsFatal request
  unfolding with_request
  with_request-IsFatal request h =
      elim (run_bind-eq-panics (service_and_method request.request_uri) _ h) [
        | inl short ↦ inl ((service_and_method_panics_iff request.request_uri).0 short)
        | inr (route, routed, h') ↦
            let (ctx, decoded, unknown) =
              with_context-eq-panics request route
                (context_from_headers c background request.header) h' in
            inr (
              route.0,
              route.1,
              (service_and_method-IsRoute request.request_uri route.0 route.1).0 routed,
              ctx,
              decoded,
              unknown,
            )
      ]

  panics_of_IsUnknown :
      (request : Received) (service method : Text) (ctx : c.Context)
      → IsUnknown service method
      → with_service c background map codec call_handler s request method ctx
          (map.query service s.handlers)
        ≡ panics
  unfolding with_service with_method
  panics_of_IsUnknown request service method ctx (inl none_such) = rw none_such refl
  panics_of_IsUnknown request service method ctx (inr (sd, known, none_such)) =
      rw (known, none_such) refl

  panics_of_IsFatal :
      (request : Received)
      → IsFatal request
      → with_request c background map codec call_handler s (ok request) ≡ panics
  unfolding with_request with_context
  panics_of_IsFatal request (inl short) =
      rw ((service_and_method_panics_iff request.request_uri).1 short) refl
  panics_of_IsFatal request (inr (service, method, route, ctx, decoded, unknown)) =
      rw ((service_and_method-IsRoute request.request_uri service method).1 route, decoded)
        (panics_of_IsUnknown request service method ctx unknown)

  -- At a message that can be read as a request, handleMethod panics exactly if the request's URI has
  -- fewer than two slashes behind its first byte, or if its headers can be decoded while no service,
  -- or no method of the service, has the name that the URI gives.
  pub handle_method_panics_iff :
      (b : Text) (request : Received)
      → read_request b ≡ ok request
      → (handle_method c background map codec call_handler s b ≡ panics) ↔ IsFatal request
  unfolding handle_method
  handle_method_panics_iff b request readable = (
    λ h.
        with_request-IsFatal request
          (ap (with_request c background map codec call_handler s) (sym readable) ∙ h),
    λ fatal. rw readable (panics_of_IsFatal request fatal),
  )
