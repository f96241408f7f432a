-- ===== src/TestService/Cases/Served.antt =====
-- A server for testUnary of channel_tests_service/channel_test_cases.go.
use notnets_grpc.Prelude.{◌≡◌, ◌≤◌, refl, [], ◌∷◌, Option, some, ok, length}
use notnets_grpc.Text.{Text}
use notnets_grpc.Contexts.{Contexts}
use notnets_grpc.Routing.{slash}
use notnets_grpc.Routing.RoundTrip.{IsSegment}
use notnets_grpc.Timeout.{context_from_headers}
use notnets_grpc.Http.{Codec, buffer_size}
use notnets_grpc.Http.Url.{IsPath, literal-IsPath}
use notnets_grpc.Http.Fields.{all_bytes}
use notnets_grpc.Http.Request.{write_request}
use notnets_grpc.Internal.CallOptions.{PerRpcCredentials}
use notnets_grpc.Internal.CallOptions.Collecting.{without}
use notnets_grpc.Services.{HandlerMap, ServiceDesc, MethodDesc, find_unary_method}
use notnets_grpc.Server.{NotnetsServer}
use notnets_grpc.Server.Handling.{Served}
use notnets_grpc.Client.Requesting.{call_tail, request_header}
use notnets_grpc.Client.Arriving.{Arrived}
use notnets_grpc.Client.Direct.{answer_text}
use notnets_grpc.TestService.{Message, metadata_new, reply_message}
use notnets_grpc.TestService.Handlers.{unary, or_nil}
use notnets_grpc.TestService.Cases.{TestData, request_prototype, test_service, unary_name}
use notnets_grpc.TestService.Cases.Passing.{Unmarshalled}

pub service-IsSegment : IsSegment test_service
service-IsSegment = record {
  some_byte = cc;
  no_slash = without slash test_service refl;
  not_dot = cc;
  not_dots = cc;
}

pub name-IsSegment : IsSegment unary_name
name-IsSegment = record {
  some_byte = cc;
  no_slash = without slash unary_name refl;
  not_dot = cc;
  not_dots = cc;
}

pub service-IsPath : IsPath test_service
service-IsPath = literal-IsPath test_service (unfold all_bytes in refl)

pub name-IsPath : IsPath unary_name
name-IsPath = literal-IsPath unary_name (unfold all_bytes in refl)

module _ (c : Contexts) (background : c.Context) (d : TestData) where
  abbrev pub test_context : c.Context
  test_context = c.new_outgoing background (metadata_new d.outgoing [])

  abbrev pub request_sent : Text → Text
  request_sent payload =
      write_request (slash ∷ call_tail test_service unary_name) (request_header c test_context)
        payload

module _ {C I M H Q : Type 0} (c : Contexts) (background : c.Context)
    (api : PerRpcCredentials c.Context C) (codec : Codec Message Message) (map : HandlerMap M H)
    (server_codec : Codec (Option Message) Q)
    (call_handler : Option I → H → Text → c.Context → Text → Served (Option Message))
    (s : NotnetsServer I M) (d : TestData) where
  -- A server that has Unary registered, and messages that are marshalled as package proto does it and
  -- fit into the readers' buffers.
  pub record IsServed (md : MethodDesc H) (payload : Text) : Type 0 where
    pub sd : ServiceDesc H
    pub registered : map.query test_service s.handlers ≡ some sd
    pub found : find_unary_method unary_name sd.methods ≡ some md
    pub served :
        (ctx : c.Context)
        → call_handler s.interceptor md.handler unary_name ctx payload
          ≡ unary (c.from_incoming ctx) (request_prototype d)
    pub marshalled : codec.marshal (request_prototype d) ≡ ok payload
    pub short : length (request_sent c background d payload) ≤ buffer_size
    pub replies :
        (got : Arrived c test_service unary_name
          (test_context c background d)
          payload
          (request_sent c background d payload))
        (ctx : c.Context)
        → context_from_headers c background got.header ≡ ok ctx
        → (out : Text) × (server_codec.marshal
              (call_handler s.interceptor md.handler unary_name ctx payload).reply
            ≡ ok out)
          × (length (answer_text c call_handler s md unary_name ctx payload out) ≤ buffer_size)
          × (m' : Message) × (codec.unmarshal out ≡ ok m')
          × Unmarshalled (reply_message (or_nil (c.from_incoming ctx)) (request_prototype d) 0) m'
