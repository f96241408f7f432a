-- ===== src/Client/Answering.antt =====
-- What a server answers to a request that can be made and answered, and what its answer says.
use mathlib.Core.Option.{some-injective}
use notnets_grpc.Timeout.{context_from_headers}
use notnets_grpc.Client.Arriving.{arrival_read}
use notnets_grpc.Prelude.{
  ◌≡◌, ◌≤◌, refl, ap, sym, ◌∙◌, arith, true, ◌∷◌, Option, some, ok, err, returns, length, leb,
  if◌then◌else◌, ok-injective,
}
use notnets_grpc.Text.{Text}
use notnets_grpc.Header.{get}
use notnets_grpc.Contexts.{Contexts}
use notnets_grpc.Routing.{slash}
use notnets_grpc.Routing.RoundTrip.{IsSegment}
use notnets_grpc.Internal.CallOptions.{PerRpcCredentials}
use notnets_grpc.Services.{HandlerMap, MethodDesc}
use notnets_grpc.Http.{Codec, buffer_size}
use notnets_grpc.Http.Request.{write_request}
use notnets_grpc.Http.Response.{dump_response}
use notnets_grpc.Http.Transfer.{unexpected_eof}
use notnets_grpc.Server.{NotnetsServer}
use notnets_grpc.Server.Handling.{Served, content_type_name, handle_method}
use notnets_grpc.Server.Handling.Answers.{Answers, handle_method_iff}
use notnets_grpc.Client.{content_type}
use notnets_grpc.Client.Requesting.{call_tail, routed_call, request_header}
use notnets_grpc.Client.Arriving.{Arrived}
use notnets_grpc.Client.Matching.{AnswersHere, arrived-typed, stream_after, Same}
use notnets_grpc.Client.Decoding.{request_header-IsDecodable, context_total}
use notnets_grpc.Client.Direct.{direct, answer_text, IsCallable, answer_headers_typed}

module _ {C A B I M H Q R : Type 0} (c : Contexts) (background : c.Context)
    (api : PerRpcCredentials c.Context C) (codec : Codec A B) (map : HandlerMap M H)
    (server_codec : Codec R Q) (call_handler : Option I → H → Text → c.Context → Text → Served R)
    (s : NotnetsServer I M) where
  module _ (service method : Text) (ctx' : c.Context) (md : MethodDesc H) (payload : Text)
      (k : IsCallable c background api codec map server_codec call_handler s service method ctx' md
        payload) where
    abbrev text : Text
    text = write_request (slash ∷ call_tail service method) (request_header c ctx') payload

    module _ (arrival : Arrived c service method ctx' payload text) where
      -- The server answers the request, in a message that fits into the client's buffer.
      pub request_handled :
          IsSegment service
          → IsSegment method
          → (reply : Text) × (handle_method c background map server_codec call_handler s text
              ≡ returns (some reply))
            × (length reply ≤ buffer_size)
      request_handled ss sm =
          let (ctx'', decoded) =
            context_total c background arrival.header
              (arrival.kept.decodable (request_header-IsDecodable c ctx' k.metadata)) in
          let (out, replied, short) = k.replies arrival ctx'' decoded in
          let in_buffer : leb (length text) buffer_size ≡ true = ground (arith, k.short) in
          let typed : get content_type_name arrival.header ≡ content_type =
            arrived-typed c service method ctx' payload text arrival in
          let reply : Text = answer_text c call_handler s md method ctx'' payload out in
          let a : Answers c background map server_codec call_handler s text reply = record {
            request = record {
              request_uri = slash ∷ call_tail service method;
              header = arrival.header;
              body = ok payload;
            };
            service = service;
            method = method;
            ctx = ctx'';
            sd = k.sd;
            md = md;
            req = payload;
            payload = out;
            readable =
                arrival.read
                ∙ ap
                    (λ b. ok (record {
                      request_uri = slash ∷ call_tail service method;
                      header = arrival.header;
                      body = if b then ok payload else err unexpected_eof;
                    }))
                    in_buffer;
            routed = routed_call service method ss sm;
            decoded = decoded;
            registered = k.registered;
            found = k.found;
            whole = refl;
            marshalled = replied;
            answers = sym (
                ap (λ h. dump_response h out)
                  (answer_headers_typed arrival.header
                    (stream_after c call_handler s method md.handler ctx'' payload) out typed));
          } in
          (
            reply,
            (handle_method_iff c background map server_codec call_handler s text reply).1 a,
            short,
          )

      pub in_context :
          (reply : Text)
          (a : AnswersHere c background api codec map server_codec call_handler s text reply)
          → context_from_headers c background arrival.header ≡ ok a.ctx
      in_context reply a =
          ap (λ q. context_from_headers c background q.header)
            (sym (
              arrival_read c service method ctx' payload text arrival k.short a.request a.readable))
          ∙ a.decoded

    -- What an answer to the request says of the handler.
    module _ (req : A) (marshalled : codec.marshal req ≡ ok payload) (reply : Text)
        (a : AnswersHere c background api codec map server_codec call_handler s text reply)
        (same : Same c background api codec map server_codec call_handler s service method req text
          reply a) where
      pub same_handler : a.md ≡ md
      same_handler =
          let service_is = same.same_service in
          let method_is = same.same_method in
          let registered = a.registered in
          let found = a.found in
          let registered' = k.registered in
          let found' = k.found in
          let same_sd : a.sd ≡ k.sd = some-injective _ _ cc in some-injective _ _ cc

      pub same_payload : a.req ≡ payload
      same_payload = ok-injective a.req payload (sym same.same_request ∙ marshalled)

      pub direct_lem :
          direct c codec server_codec call_handler s md method a.ctx req ≡ codec.unmarshal a.payload
      direct_lem =
          let replied : server_codec.marshal
                (call_handler s.interceptor md.handler method a.ctx a.req).reply
              ≡ ok a.payload =
            ap
              (λ d.
                server_codec.marshal
                  (call_handler s.interceptor d.handler method a.ctx a.req).reply)
              (sym same_handler)
            ∙ ap
                (λ n.
                  server_codec.marshal
                    (call_handler s.interceptor a.md.handler n a.ctx a.req).reply)
                (sym same.same_method)
            ∙ a.marshalled in
          rw (same.same_request, replied) refl
