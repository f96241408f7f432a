-- ===== src/Server/Handling/Answers.antt =====
-- When handleMethod answers a message, and when it panics.
use mathlib.Core.Option.{some-injective}
use notnets_grpc.Prelude.{
  ◌≡◌, ◌↔◌, refl, sym, ap, Option, none, some, Result, ok, err, returns, run_bind-eq-returns,
}
use notnets_grpc.Http.Request.{read_request}
use notnets_grpc.Http.Response.{dump_response}
use notnets_grpc.Text.{Text}
use notnets_grpc.Contexts.{Contexts}
use notnets_grpc.Timeout.{context_from_headers}
use notnets_grpc.Routing.{service_and_method}
use notnets_grpc.Services.{MethodDesc, ServiceDesc, HandlerMap, find_unary_method}
use notnets_grpc.Internal.TransportStream.{UnaryServerTransportStream, new_stream}
use notnets_grpc.Internal.TransportStream.History.{run}
use notnets_grpc.Http.{Received, Codec}
use notnets_grpc.Server.{NotnetsServer}
use notnets_grpc.Server.Handling.{
  Served, answer_headers, answer, respond, with_body, with_method, with_service, with_context,
  with_request, handle_method,
}

module _ {I M H Q R : Type 0} (c : Contexts) (background : c.Context) (map : HandlerMap M H)
    (codec : Codec R Q) (call_handler : Option I → H → Text → c.Context → Text → Served R) where
  -- A message that is answered: it can be read whole, its path names a service and a method that are
  -- registered, its headers can be decoded, and the handler's reply can be marshalled.
  pub record Answers (s : NotnetsServer I M) (b r : Text) : Type 0 where
    pub request : Received
    pub service : Text
    pub method : Text
    pub ctx : c.Context
    pub sd : ServiceDesc H
    pub md : MethodDesc H
    pub req : Text
    pub payload : Text
    pub readable : read_request b ≡ ok request
    pub routed : service_and_method request.request_uri ≡ returns (service, method)
    pub decoded : context_from_headers c background request.header ≡ ok ctx
    pub registered : map.query service s.handlers ≡ some sd
    pub found : find_unary_method method sd.methods ≡ some md
    pub whole : request.body ≡ ok req
    pub marshalled :
        codec.marshal (call_handler s.interceptor md.handler method ctx req).reply ≡ ok payload
    pub answers :
        r
        ≡ dump_response
            (answer_headers request.header
              (run (new_stream method) (call_handler s.interceptor md.handler method ctx req).calls)
              payload)
            payload

  module _ (s : NotnetsServer I M) where
    answer-eq-some :
        (request : Received) (sts : UnaryServerTransportStream) (m : Result Text) (r : Text)
        → answer c background map codec call_handler request.header sts m ≡ some r
        → (payload : Text) × (m ≡ ok payload)
          × (r ≡ dump_response (answer_headers request.header sts payload) payload)
    unfolding answer
    answer-eq-some request sts (err e) r h = cc
    answer-eq-some request sts (ok payload) r h = (payload, refl, sym (some-injective _ _ h))

    with_body-eq-some :
        (request : Received) (method : Text) (md : MethodDesc H) (ctx : c.Context)
        (body : Result Text) (r : Text)
        → with_body c background map codec call_handler s request.header method md ctx body ≡ some r
        → (req : Text) × (body ≡ ok req)
          × (answer c background map codec call_handler request.header
                (run
                  (new_stream method)
                  (call_handler s.interceptor md.handler method ctx req).calls)
                (codec.marshal (call_handler s.interceptor md.handler method ctx req).reply)
              ≡ some r)
    unfolding with_body respond
    with_body-eq-some request method md ctx (err e) r h = cc
    with_body-eq-some request method md ctx (ok req) r h = (req, refl, h)

    with_method-eq-returns :
        (request : Received) (method : Text) (ctx : c.Context) (found : Option (MethodDesc H))
        (o : Option Text)
        → with_method c background map codec call_handler s request method ctx found ≡ returns o
        → (md : MethodDesc H) × (found ≡ some md)
          × (with_body c background map codec call_handler s request.header method md ctx
                request.body
              ≡ o)
    unfolding with_method
    with_method-eq-returns request method ctx none o h = cc
    with_method-eq-returns request method ctx (some md) o h = (md, refl, cc)

    with_service-eq-returns :
        (request : Received) (method : Text) (ctx : c.Context) (known : Option (ServiceDesc H))
        (o : Option Text)
        → with_service c background map codec call_handler s request method ctx known ≡ returns o
        → (sd : ServiceDesc H) × (known ≡ some sd)
          × (with_method c background map codec call_handler s request method ctx
                (find_unary_method method sd.methods)
              ≡ returns o)
    unfolding with_service
    with_service-eq-returns request method ctx none o h = cc
    with_service-eq-returns request method ctx (some sd) o h = (sd, refl, h)

    with_context-eq-some :
        (request : Received) (service method : Text) (m : Result c.Context) (r : Text)
        → with_context c background map codec call_handler s request service method m
          ≡ returns (some r)
        → (ctx : c.Context) × (m ≡ ok ctx)
          × (with_service c background map codec call_handler s request method ctx
                (map.query service s.handlers)
              ≡ returns (some r))
    unfolding with_context
    with_context-eq-some request service method (err e) r h = cc
    with_context-eq-some request service method (ok ctx) r h = (ctx, refl, h)

    with_request-eq-some :
        (m : Result Received) (r : Text)
        → with_request c background map codec call_handler s m ≡ returns (some r)
        → (request : Received) × (m ≡ ok request)
          × (service : Text) × (method : Text) × (service_and_method request.request_uri
              ≡ returns (service, method))
          × (with_context c background map codec call_handler s request service method
                (context_from_headers c background request.header)
              ≡ returns (some r))
    unfolding with_request
    with_request-eq-some (err e) r h = cc
    with_request-eq-some (ok request) r h =
        let ((service, method), routed, h') =
          run_bind-eq-returns (service_and_method request.request_uri) _ h in
        (request, refl, service, method, routed, h')

    handle_method-Answers :
        (b r : Text)
        → handle_method c background map codec call_handler s b ≡ returns (some r)
        → Answers s b r
    unfolding handle_method
    handle_method-Answers b r h =
        let (request, readable, service, method, routed, h1) = with_request-eq-some _ r h in
        let (ctx, decoded, h2) = with_context-eq-some request service method _ r h1 in
        let (sd, registered, h3) = with_service-eq-returns request method ctx _ (some r) h2 in
        let (md, found, h4) = with_method-eq-returns request method ctx _ (some r) h3 in
        let (req, whole, h5) = with_body-eq-some request method md ctx request.body r h4 in
        let (payload, marshalled, answers) = answer-eq-some request _ _ r h5 in
        record {
          request = request;
          service = service;
          method = method;
          ctx = ctx;
          sd = sd;
          md = md;
          req = req;
          payload = payload;
          readable = readable;
          routed = routed;
          decoded = decoded;
          registered = registered;
          found = found;
          whole = whole;
          marshalled = marshalled;
          answers = answers;
        }

    handle_method_of_Answers :
        (b r : Text)
        → Answers s b r
        → handle_method c background map codec call_handler s b ≡ returns (some r)
    unfolding handle_method with_request with_context with_service with_method with_body respond
        answer
    handle_method_of_Answers b r a =
        rw (a.readable, a.routed, a.decoded, a.registered, a.found, a.whole, a.marshalled)
          (ap (λ t. returns (some t)) (sym a.answers))

    -- A message is answered with a text exactly if it can be read whole, its path names a service
    -- and a method that are registered, its headers can be decoded, and the handler's reply can be
    -- marshalled; the answer has the metadata that the handler gave the stream, the request's content
    -- type, and the reply, whether the handler returned an error or not.
    pub handle_method_iff :
        (b r : Text)
        → (handle_method c background map codec call_handler s b ≡ returns (some r)) ↔ Answers s b r
    handle_method_iff b r = (handle_method-Answers b r, handle_method_of_Answers b r)
