-- ===== src/Client/Refining.antt =====
-- A call over a connected client and server, Invoke of client.go with handleMethod of server.go, is a
-- call of the handler.
use notnets_grpc.Timeout.{context_from_headers}
use notnets_grpc.Server.Handling.Sending.{IsAnswerable}
use notnets_grpc.Client.Matching.{IsLegal, request-Same}
use notnets_grpc.Prelude.{
  ℕ, ◌≡◌, refl, ap, subst, sym, ◌∙◌, true, List, ◌∷◌, ◌++◌, Option, some, ok, returns, ok-injective,
}
use notnets_grpc.Text.{Text, codes}
use notnets_grpc.Contexts.{Contexts}
use notnets_grpc.Routing.{slash, req_url}
use notnets_grpc.Routing.RoundTrip.{IsSegment}
use notnets_grpc.Internal.CallOptions.{
  CallOption, get_call_options, Store, PerRpcCredentials, apply_per_rpc_creds,
}
use notnets_grpc.Internal.TransportStream.{or_empty, get_headers, get_trailers}
use notnets_grpc.Services.{HandlerMap, MethodDesc}
use notnets_grpc.Http.{Codec}
use notnets_grpc.Http.Url.{IsPath, new_request, new_request_path}
use notnets_grpc.Http.Request.{write_request}
use notnets_grpc.Shm.{Library}
use notnets_grpc.Transport.{NotnetsAddr, network}
use notnets_grpc.Server.{NotnetsServer}
use notnets_grpc.Server.Handling.{Served}
use notnets_grpc.Client.{NotnetsChannel, request_text, invoke}
use notnets_grpc.Client.Requesting.{
  IsRequest, IsSendable, full_name, call_tail, call-IsPath, req_url_call, request_header,
}
use notnets_grpc.Client.Arriving.{Arrived, short-Arrived}
use notnets_grpc.Client.Receiving.{Obtained}
use notnets_grpc.Client.Matching.{stream_after}
use notnets_grpc.Client.Calling.{invoke_lem}
use notnets_grpc.Client.Direct.{direct, IsConnected, IsCallable}
use notnets_grpc.Client.Answering.{
  request_handled, in_context, same_handler, same_payload, direct_lem,
}

module _ {C A B I M H Q R : Type 0} (c : Contexts) (background : c.Context)
    (api : PerRpcCredentials c.Context C) (codec : Codec A B) (map : HandlerMap M H)
    (server_codec : Codec R Q) (call_handler : Option I → H → Text → c.Context → Text → Served R)
    (s : NotnetsServer I M) where
  module _ (remote : NotnetsAddr) (service method : Text) (ctx ctx' : c.Context) (req : A)
      (opts : List (CallOption C)) (md : MethodDesc H) (payload : Text) (ss : IsSegment service)
      (sm : IsSegment method) (ps : IsPath service) (pm : IsPath method)
      (allowed : apply_per_rpc_creds c api ctx
          (get_call_options opts)
          (codes "shm:0" ++ req_url (network remote) (full_name service method))
          true
        ≡ ok ctx')
      (marshalled : codec.marshal req ≡ ok payload)
      (k : IsCallable c background api codec map server_codec call_handler s service method ctx' md
        payload) where
    abbrev text : Text
    text = write_request (slash ∷ call_tail service method) (request_header c ctx') payload

    asked :
        request_text c api codec remote ctx (full_name service method) req (get_call_options opts)
        ≡ ok text
    unfolding request_text
    asked =
        rw
          (
            allowed,
            marshalled,
            req_url_call service method ss sm remote,
            new_request_path (slash ∷ call_tail service method) (call-IsPath service method ps pm),
          )
          refl

    is_request :
        IsRequest c api codec remote ctx (full_name service method) req (get_call_options opts) text
    is_request = record {
      context = ctx';
      payload = payload;
      uri = slash ∷ call_tail service method;
      allowed = allowed;
      marshalled = marshalled;
      parsed =
          ap new_request (req_url_call service method ss sm remote)
          ∙ new_request_path (slash ∷ call_tail service method) (call-IsPath service method ps pm);
      written = refl;
    }

    arrival : Arrived c service method ctx' payload text
    unfolding is_request
    arrival =
        short-Arrived c api codec remote service method ctx req (get_call_options opts) text ss sm
          ps pm is_request k.sendable k.short

    creds-IsSendable :
        (x : c.Context)
        → apply_per_rpc_creds c api ctx
            (get_call_options opts)
            (codes "shm:0" ++ req_url (network remote) (full_name service method))
            true
          ≡ ok x
        → IsSendable c x
    creds-IsSendable x allowed' =
        let same : ctx' ≡ x = ok-injective ctx' x (sym allowed ∙ allowed') in
        subst (IsSendable c) same k.sendable

    reply-IsLegal :
        (reply : Text)
        → IsLegal c background api codec map server_codec call_handler s method text reply
    unfolding is_request
    reply-IsLegal reply a =
        let same =
          request-Same c background api codec map server_codec call_handler s remote service method
            ctx req (get_call_options opts) text reply ss sm ps pm is_request k.sendable k.short
            a in
        let legal = λ (d : MethodDesc H) (body : Text).
          IsAnswerable
            (or_empty (get_headers (stream_after c call_handler s method d.handler a.ctx body)))
            (or_empty (get_trailers (stream_after c call_handler s method d.handler a.ctx body))) in
        subst (legal a.md)
          (sym (
            same_payload c background api codec map server_codec call_handler s service method ctx'
              md payload k req marshalled reply a same))
          (subst (λ d. legal d payload)
            (sym (
              same_handler c background api codec map server_codec call_handler s service method
                ctx' md payload k req marshalled reply a same))
            (k.legal arrival a.ctx (
              in_context c background api codec map server_codec call_handler s service method ctx'
                md payload k arrival reply a)))

    -- Over a connection that hands what is written to the server and gives back its answer, Invoke
    -- does what the specification says: if the credentials allow the call, if the request is
    -- marshalled and can be made and answered, and if service and method are names without a slash, of
    -- bytes that a path shows as they are, it returns what a direct call of the handler that is
    -- registered for the method returns, in the context that the server makes of the headers that it
    -- reads, and the variables that the call options name obtain the metadata that the handler set.
    pub invoke_refines :
        {P W : Type 0} (lib : Library W) (fuel : ℕ) (ch : NotnetsChannel) (st : Store P) (w : W)
        → ch.conn.remote_addr ≡ some remote
        → (q : IsConnected c background map server_codec call_handler s lib fuel ch)
        → (got : Arrived c service method ctx' payload text) × (ctx'' : c.Context)
          × (context_from_headers c background got.header ≡ ok ctx'')
          × (st' : Store P) × (invoke c api codec lib fuel ch ctx
                (full_name service method)
                req
                opts
                st
                w
              ≡ returns (
                direct c codec server_codec call_handler s md method ctx'' req,
                st',
                q.next text w,
              ))
          × Obtained
              (or_empty
                (get_headers (stream_after c call_handler s method md.handler ctx'' payload)))
              (or_empty
                (get_trailers (stream_after c call_handler s method md.handler ctx'' payload)))
              (get_call_options opts)
              st
              st'
    invoke_refines lib fuel ch st w far q =
        let (reply, handled, short) =
          request_handled c background api codec map server_codec call_handler s service method ctx'
            md payload k arrival ss sm in
        let (a, st', returned, ends) =
          invoke_lem c background api codec map server_codec call_handler s lib fuel ch remote ctx
            service method req opts st text reply w (q.next text w) ss sm ps pm far creds-IsSendable
            (reply-IsLegal reply) asked k.short handled short
            (q.delivers text reply w handled short) in
        let same = ends.same in
        let stream = λ (d : MethodDesc H) (body : Text).
          stream_after c call_handler s method d.handler a.ctx body in
        let metadata = λ (d : MethodDesc H) (body : Text).
          Obtained (or_empty (get_headers (stream d body)))
            (or_empty (get_trailers (stream d body))) (get_call_options opts) st st' in
        (
          arrival,
          a.ctx,
          in_context c background api codec map server_codec call_handler s service method ctx' md
              payload k arrival reply a,
          st',
          returned
              ∙ ap (λ r. returns (r, st', q.next text w))
                  (sym (
                    direct_lem c background api codec map server_codec call_handler s service method
                      ctx' md payload k req marshalled reply a same)),
          subst (metadata md)
              (same_payload c background api codec map server_codec call_handler s service method
                ctx' md payload k req marshalled reply a same)
              (subst (λ d. metadata d a.req)
                (same_handler c background api codec map server_codec call_handler s service method
                  ctx' md payload k req marshalled reply a same)
                ends.obtained),
        )
