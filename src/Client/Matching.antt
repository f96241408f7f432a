-- ===== src/Client/Matching.antt =====
-- What client and server read of the messages that they write to each other.
use notnets_grpc.Prelude.{
  ◌^◌, ◌<◌, ◌≡◌, ◌≤◌, refl, sym, ap, subst, ◌∙◌, arith, true, false, ◌∷◌, Option, ok, err, Run,
  returns, length, leb, if◌then◌else◌,
}
use notnets_grpc.Text.{Text, text_eq}
use notnets_grpc.Dict.{Multi, values}
use notnets_grpc.Header.{get, canonical, is_name, is_token}
use notnets_grpc.Contexts.{Contexts}
use notnets_grpc.Metadata.Setting.{get-set}
use notnets_grpc.Routing.{slash, service_and_method}
use notnets_grpc.Routing.RoundTrip.{IsSegment}
use notnets_grpc.Internal.CallOptions.{CallOptions, Store, PerRpcCredentials}
use notnets_grpc.Internal.TransportStream.{
  UnaryServerTransportStream, new_stream, or_empty, get_headers, get_trailers,
}
use notnets_grpc.Internal.TransportStream.History.{run}
use notnets_grpc.Services.{HandlerMap}
use notnets_grpc.Timeout.{headers_from_context}
use notnets_grpc.Http.{Codec, buffer_size}
use notnets_grpc.Http.Spaces.{IsValue}
use notnets_grpc.Http.Fields.{is_excluded}
use notnets_grpc.Http.Url.{IsPath}
use notnets_grpc.Http.Transfer.{unexpected_eof}
use notnets_grpc.Http.Messages.{head_length, length-message}
use notnets_grpc.Http.Request.RoundTrip.{request_touched}
use notnets_grpc.Http.Response.{dump_response, read_response, response_fields, status_line}
use notnets_grpc.Http.Response.RoundTrip.{read-dump_response}
use notnets_grpc.Transport.{NotnetsAddr}
use notnets_grpc.Server.{NotnetsServer}
use notnets_grpc.Server.Handling.{Served, content_type_name, answer_headers}
use notnets_grpc.Server.Handling.Answers.{Answers}
use notnets_grpc.Server.Handling.Sending.{
  IsAnswerable, answer_headers-IsWritable, received-IsDecodable, gather_received,
}
use notnets_grpc.Client.{content_type, gather_metadata}
use notnets_grpc.Client.Requesting.{
  IsRequest, IsSendable, full_name, call_tail, content_type-IsValue, routed_call, request_header,
}
use notnets_grpc.Client.Arriving.{Arrived, arrival_read, short-Arrived}
use notnets_grpc.Client.Receiving.{Obtained, gather_metadata-Obtained}

pub get_of_values :
    (k : Text) (h h' : Multi)
    → values (canonical k) h ≡ values (canonical k) h'
    → get k h ≡ get k h'
unfolding get
get_of_values k h h' e = rw e refl

untouched : is_excluded request_touched (canonical content_type_name) ≡ true → ⊥
untouched h =
    let free : is_excluded request_touched (canonical content_type_name) ≡ false =
      (unfold is_excluded text_eq canonical is_name is_token in refl) in
    cc

-- The content type arrives.
pub arrived-typed :
    (c : Contexts) (service method : Text) (ctx : c.Context) (payload text : Text)
    (arrived : Arrived c service method ctx payload text)
    → get content_type_name arrived.header ≡ content_type
arrived-typed c service method ctx payload text arrived =
    get_of_values content_type_name arrived.header (request_header c ctx)
      (arrived.kept.same_values (canonical content_type_name) untouched)
    ∙ get-set content_type_name content_type (headers_from_context c ctx)

-- An answer that fits into the client's buffer is read whole.
short_answer :
    (header : Multi) (payload : Text)
    → length (dump_response header payload) ≤ buffer_size
    → (head_length status_line (response_fields header payload) ≤ buffer_size)
      × (length payload < 2 ^ 63)
unfolding dump_response
short_answer header payload short =
    let total = length-message status_line (response_fields header payload) payload in
    (omega (arith, total, short), omega (arith, total, short))

module _ {I M H R : Type 0} (c : Contexts)
    (call_handler : Option I → H → Text → c.Context → Text → Served R) (s : NotnetsServer I M) where
  -- The transport stream after the handler ran.
  abbrev pub stream_after : Text → H → c.Context → Text → UnaryServerTransportStream
  stream_after method h ctx req =
      run (new_stream method) (call_handler s.interceptor h method ctx req).calls

module _ {C A B I M H Q R : Type 0} (c : Contexts) (background : c.Context)
    (api : PerRpcCredentials c.Context C) (codec : Codec A B) (map : HandlerMap M H)
    (server_codec : Codec R Q) (call_handler : Option I → H → Text → c.Context → Text → Served R)
    (s : NotnetsServer I M) where
  abbrev pub AnswersHere : Text → Text → Type 0
  AnswersHere = Answers c background map server_codec call_handler s

  -- The metadata that the handler set for the answer reach the client.
  abbrev pub IsLegal : Text → Text → Text → Type 0
  IsLegal method text reply =
      (a : AnswersHere text reply)
      → IsAnswerable
          (or_empty (get_headers (stream_after c call_handler s method a.md.handler a.ctx a.req)))
          (or_empty (get_trailers (stream_after c call_handler s method a.md.handler a.ctx a.req)))

  -- The request that the handler got is the one that the client made.
  pub record Same (service method : Text) (req : A) (text reply : Text) (a : AnswersHere text reply)
      : Type 0 where
    pub same_service : a.service ≡ service
    pub same_method : a.method ≡ method
    pub same_request : codec.marshal req ≡ ok a.req
    pub typed : get content_type_name a.request.header ≡ content_type

  module _ (remote : NotnetsAddr) (service method : Text) (ctx : c.Context) (req : A)
      (copts : CallOptions C) (text reply : Text) (ss : IsSegment service) (sm : IsSegment method)
      (ps : IsPath service) (pm : IsPath method)
      (r : IsRequest c api codec remote ctx (full_name service method) req copts text)
      (sendable : IsSendable c r.context) (short : length text ≤ buffer_size) where
    pub arrived : Arrived c service method r.context r.payload text
    arrived =
        short-Arrived c api codec remote service method ctx req copts text ss sm ps pm r sendable
          short

    pub request_received :
        (a : AnswersHere text reply)
        → a.request ≡ record {
          request_uri = slash ∷ call_tail service method;
          header = arrived.header;
          body = ok r.payload;
        }
    request_received a =
        arrival_read c service method r.context r.payload text arrived short a.request a.readable

    pub request-Same : (a : AnswersHere text reply) → Same service method req text reply a
    request-Same a =
        let received = request_received a in
        let body : a.request.body ≡ ok r.payload = ap (λ q. q.body) received in
        let routes : ◌≡◌ {A = Run (Text × Text)} (returns (a.service, a.method))
            (returns (service, method)) =
          sym a.routed
          ∙ ap (λ q. service_and_method q.request_uri) received
          ∙ routed_call service method ss sm in
        let marshalled = r.marshalled in
        let whole = a.whole in
        record {
          same_service = cc;
          same_method = cc;
          same_request = cc;
          typed =
              ap (λ q. get content_type_name q.header) received
              ∙ arrived-typed c service method r.context r.payload text arrived;
        }

  -- The client reads the reply's payload and the handler's metadata from the answer.
  pub answer_arrives :
      {P : Type 0} (method text reply : Text) (copts : CallOptions C) (st : Store P)
      (a : AnswersHere text reply)
      → a.method ≡ method
      → get content_type_name a.request.header ≡ content_type
      → IsLegal method text reply
      → length reply ≤ buffer_size
      → (header : Multi) × (read_response reply ≡ ok (header, ok a.payload))
        × (st' : Store P) × (gather_metadata header copts st ≡ ok st')
        × Obtained
            (or_empty (get_headers (stream_after c call_handler s method a.md.handler a.ctx a.req)))
            (or_empty
              (get_trailers (stream_after c call_handler s method a.md.handler a.ctx a.req)))
            copts
            st
            st'
  answer_arrives method text reply copts st a same_method typed legal short =
      let sts = stream_after c call_handler s method a.md.handler a.ctx a.req in
      let answer = answer_headers a.request.header sts a.payload in
      let dumped : reply ≡ dump_response answer a.payload =
        a.answers
        ∙ ap
            (λ m.
              dump_response
                (answer_headers a.request.header
                  (stream_after c call_handler s m a.md.handler a.ctx a.req) a.payload)
                a.payload)
            same_method in
      let value : IsValue (get content_type_name a.request.header) =
        subst IsValue (sym typed) content_type-IsValue in
      let answerable = legal a in
      let short' = subst (λ t. length t ≤ buffer_size) dumped short in
      let (fits, small) = short_answer answer a.payload short' in
      let (header', read, kept) =
        read-dump_response answer a.payload
          (answer_headers-IsWritable a.request.header sts a.payload value answerable) small fits in
      let in_buffer : leb (length (dump_response answer a.payload)) buffer_size ≡ true =
        ground (arith, short') in
      let (st', gathered, obtained) =
        gather_metadata-Obtained (or_empty (get_headers sts)) (or_empty (get_trailers sts))
          answerable header'
          (gather_received a.request.header sts a.payload value answerable header' kept)
          (received-IsDecodable a.request.header sts a.payload value answerable header' kept) copts
          st in
      (
        header',
        ap read_response dumped
            ∙ read
            ∙ ap (λ b. ok (header', if b then ok a.payload else err unexpected_eof)) in_buffer,
        st',
        gathered,
        obtained,
      )
