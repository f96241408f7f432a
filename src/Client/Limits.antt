-- ===== src/Client/Limits.antt =====
-- Messages that do not fit into a reader's buffer of 4096 bytes: the buffer under the reader is reset
-- before the body is read (handleMethod of server.go, Invoke of client.go).
use notnets_grpc.Prelude.{
  ℕ, ◌+◌, ◌^◌, ◌<◌, ◌≤◌, ◌≡◌, ◌≢◌, refl, ap, subst, sym, ◌∙◌, arith, true, false, List, ◌∷◌, ◌++◌,
  Option, some, Result, ok, err, returns, length, leb, if◌then◌else◌,
}
use notnets_grpc.Text.{Text, codes}
use notnets_grpc.Contexts.{Contexts}
use notnets_grpc.Dict.{Multi}
use notnets_grpc.Header.{get}
use notnets_grpc.Routing.{slash, req_url}
use notnets_grpc.Routing.RoundTrip.{IsSegment}
use notnets_grpc.Internal.CallOptions.{
  CallOption, CallOptions, get_call_options, Store, PerRpcCredentials, apply_per_rpc_creds,
}
use notnets_grpc.Services.{HandlerMap}
use notnets_grpc.Http.{Codec, Received, buffer_size}
use notnets_grpc.Http.Spaces.{IsValue}
use notnets_grpc.Http.Url.{IsPath}
use notnets_grpc.Http.Transfer.{unexpected_eof}
use notnets_grpc.Http.Messages.{length-message}
use notnets_grpc.Http.Request.{read_request}
use notnets_grpc.Http.Response.{dump_response, read_response, response_fields, status_line}
use notnets_grpc.Http.Response.RoundTrip.{read-dump_response}
use notnets_grpc.Shm.{Library}
use notnets_grpc.Transport.{NotnetsAddr, network}
use notnets_grpc.Server.{NotnetsServer}
use notnets_grpc.Server.Handling.{Served, content_type_name, answer_headers, handle_method}
use notnets_grpc.Server.Handling.Answers.{handle_method_iff}
use notnets_grpc.Server.Handling.Sending.{answer_headers-IsWritable}
use notnets_grpc.Client.{
  NotnetsChannel, content_type, exchange, request_text, with_body, read_reply, with_text,
  with_remote, invoke,
}
use notnets_grpc.Client.Requesting.{
  IsSendable, full_name, call_tail, content_type-IsValue, request_text-IsRequest,
}
use notnets_grpc.Client.Arriving.{request_head, Arrived, request-Arrived}
use notnets_grpc.Client.Matching.{AnswersHere, stream_after, IsLegal, request-Same}

-- A request whose header can be written, and whose head alone fits into the buffer.
pub record IsHeadShort (c : Contexts) (service method : Text) (ctx : c.Context) (payload : Text)
    : Type 0 where
  pub sendable : IsSendable c ctx
  pub small : length payload < 2 ^ 63
  pub fits : request_head c service method ctx payload ≤ buffer_size

module _ {C A B I M H Q R : Type 0} (c : Contexts) (background : c.Context)
    (api : PerRpcCredentials c.Context C) (codec : Codec A B) (map : HandlerMap M H)
    (server_codec : Codec R Q) (call_handler : Option I → H → Text → c.Context → Text → Served R)
    (s : NotnetsServer I M) where
  body_lost :
      (service method payload text : Text) (ctx : c.Context) (request : Received)
      → Arrived c service method ctx payload text
      → buffer_size < length text
      → read_request text ≡ ok request
      → request.body ≡ err unexpected_eof
  body_lost service method payload text ctx request arrived long readable =
      let too_long : leb (length text) buffer_size ≡ false = ground (arith, long) in
      let read : ok request
          ≡ ok (record {
            request_uri = slash ∷ call_tail service method;
            header = arrived.header;
            body = err unexpected_eof;
          }) =
        sym readable
        ∙ arrived.read
        ∙ ap
            (λ b. ok (record {
              request_uri = slash ∷ call_tail service method;
              header = arrived.header;
              body = if b then ok payload else err unexpected_eof;
            }))
            too_long in
      let received : request ≡ record {
        request_uri = slash ∷ call_tail service method;
        header = arrived.header;
        body = err unexpected_eof;
      } =
        cc in
      ap (λ q. q.body) received

  -- A request of more than 4096 bytes is never answered, whatever service, method and message it is
  -- for, if its head alone is not longer and its context's metadata can be written as headers.
  pub long_request_lem :
      (remote : NotnetsAddr) (ctx : c.Context) (service method : Text) (req : A)
      (copts : CallOptions C) (text : Text)
      → IsSegment service
      → IsSegment method
      → IsPath service
      → IsPath method
      → ((ctx' : c.Context) (payload : Text)
          → apply_per_rpc_creds c api ctx copts
              (codes "shm:0" ++ req_url (network remote) (full_name service method))
              true
            ≡ ok ctx'
          → codec.marshal req ≡ ok payload
          → IsHeadShort c service method ctx' payload)
      → request_text c api codec remote ctx (full_name service method) req copts ≡ ok text
      → buffer_size < length text
      → (reply : Text)
      → handle_method c background map server_codec call_handler s text ≢ returns (some reply)
  long_request_lem remote ctx service method req copts text ss sm ps pm short asked long reply
        handled =
      let a =
        (handle_method_iff c background map server_codec call_handler s text reply).0 handled in
      let r =
        request_text-IsRequest c api codec remote ctx (full_name service method) req copts text
          asked in
      let h = short r.context r.payload r.allowed r.marshalled in
      let arrived =
        request-Arrived c api codec remote service method ctx req copts text ss sm ps pm r
          h.sendable h.small h.fits in
      let lost =
        body_lost service method r.payload text r.context a.request arrived long a.readable in
      let whole = a.whole in
      let clash : ◌≡◌ {A = Result Text} (ok a.req) (err unexpected_eof) = cc in cc

  -- The client loses the answer's body.
  reply_lost :
      (method text reply : Text)
      (a : AnswersHere c background api codec map server_codec call_handler s text reply)
      → a.method ≡ method
      → get content_type_name a.request.header ≡ content_type
      → IsLegal c background api codec map server_codec call_handler s method text reply
      → length a.payload < 2 ^ 63
      → length reply ≤ buffer_size + length a.payload
      → buffer_size < length reply
      → (header : Multi) × (read_response reply ≡ ok (header, err unexpected_eof))
  unfolding dump_response
  reply_lost method text reply a same_method typed legal small fits long =
      let sts = stream_after c call_handler s method a.md.handler a.ctx a.req in
      let answer = answer_headers a.request.header sts a.payload in
      let dumped : reply ≡ dump_response answer a.payload =
        a.answers
        ∙ ap
            (λ m.
              dump_response
                (answer_headers a.request.header
                  (stream_after c call_handler s m a.md.handler a.ctx a.req) a.payload)
                a.payload)
            same_method in
      let value : IsValue (get content_type_name a.request.header) =
        subst IsValue (sym typed) content_type-IsValue in
      let total = length-message status_line (response_fields answer a.payload) a.payload in
      let sized : length reply ≡ length (dump_response answer a.payload) = ap length dumped in
      let (header', read, _) =
        read-dump_response answer a.payload
          (answer_headers-IsWritable a.request.header sts a.payload value (legal a)) small
          (omega (arith, total, sized, fits)) in
      let too_long : leb (length (dump_response answer a.payload)) buffer_size ≡ false =
        ground (arith, long, sized) in
      (
        header',
        ap read_response dumped
            ∙ read
            ∙ ap (λ b. ok (header', if b then ok a.payload else err unexpected_eof)) too_long,
      )

  -- A call whose answer is longer than 4096 bytes, but not without its payload: the handler has run,
  -- on exactly the request that the client marshalled, and Invoke returns the error of an unexpected
  -- end, and leaves the variables that the call options name as they were.
  pub long_reply_lem :
      {P W : Type 0} (lib : Library W) (fuel : ℕ) (ch : NotnetsChannel) (remote : NotnetsAddr)
      (ctx : c.Context) (service method : Text) (req : A) (opts : List (CallOption C))
      (st : Store P) (text reply : Text) (w w' : W)
      → IsSegment service
      → IsSegment method
      → IsPath service
      → IsPath method
      → ch.conn.remote_addr ≡ some remote
      → ((ctx' : c.Context)
          → apply_per_rpc_creds c api ctx
              (get_call_options opts)
              (codes "shm:0" ++ req_url (network remote) (full_name service method))
              true
            ≡ ok ctx'
          → IsSendable c ctx')
      → IsLegal c background api codec map server_codec call_handler s method text reply
      → request_text c api codec remote ctx (full_name service method) req (get_call_options opts)
        ≡ ok text
      → length text ≤ buffer_size
      → handle_method c background map server_codec call_handler s text ≡ returns (some reply)
      → buffer_size < length reply
      → ((a : AnswersHere c background api codec map server_codec call_handler s text reply)
          → (length a.payload < 2 ^ 63) × (length reply ≤ buffer_size + length a.payload))
      → exchange lib fuel ch text w ≡ returns (reply, w')
      → (a : AnswersHere c background api codec map server_codec call_handler s text reply)
        × (codec.marshal req ≡ ok a.req)
        × (invoke c api codec lib fuel ch ctx (full_name service method) req opts st w
            ≡ returns (err unexpected_eof, st, w'))
  unfolding invoke with_remote with_text read_reply with_body
  long_reply_lem lib fuel ch remote ctx service method req opts st text reply w w' ss sm ps pm far
        sendable legal asked short_text handled long fits delivered =
      let a =
        (handle_method_iff c background map server_codec call_handler s text reply).0 handled in
      let copts = get_call_options opts in
      let r =
        request_text-IsRequest c api codec remote ctx (full_name service method) req copts text
          asked in
      let same =
        request-Same c background api codec map server_codec call_handler s remote service method
          ctx req copts text reply ss sm ps pm r (sendable r.context r.allowed) short_text a in
      let (small, short_head) = fits a in
      let (header, read) =
        reply_lost method text reply a same.same_method same.typed legal small short_head long in
      (
        a,
        same.same_request,
        ap
              (λ o.
                with_remote c api codec lib fuel ch o ctx (full_name service method) req copts st w)
              far
            ∙ ap (λ t. with_text c api codec lib fuel ch copts st t w) asked
            ∙ rw (delivered, read) refl,
      )
