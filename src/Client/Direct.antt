-- ===== src/Client/Direct.antt =====
-- What a call comes to: the handler is called with the request. The connections and the requests for
-- which Invoke of client.go and handleMethod of server.go do so.
use notnets_grpc.Timeout.{context_from_headers}
use notnets_grpc.Server.Handling.Sending.{IsAnswerable}
use notnets_grpc.Client.Arriving.{Arrived}
use notnets_grpc.Prelude.{ℕ, ◌≡◌, ◌≤◌, refl, ◌∷◌, Option, some, Result, ok, ◌>>=◌, returns, length}
use notnets_grpc.Text.{Text, codes}
use notnets_grpc.Text.Decimal.{print}
use notnets_grpc.Dict.{Multi}
use notnets_grpc.Header.{set, get}
use notnets_grpc.Contexts.{Contexts}
use notnets_grpc.Metadata.{response_headers}
use notnets_grpc.Metadata.RoundTrip.{AllMetadata}
use notnets_grpc.Routing.{slash}
use notnets_grpc.Internal.CallOptions.{PerRpcCredentials}
use notnets_grpc.Internal.TransportStream.{
  UnaryServerTransportStream, or_empty, get_headers, get_trailers,
}
use notnets_grpc.Services.{HandlerMap, ServiceDesc, MethodDesc, find_unary_method}
use notnets_grpc.Http.{Codec, buffer_size}
use notnets_grpc.Http.Request.{write_request}
use notnets_grpc.Http.Response.{dump_response}
use notnets_grpc.Shm.{Library}
use notnets_grpc.Server.{NotnetsServer}
use notnets_grpc.Server.Handling.{Served, content_type_name, answer_headers, handle_method}
use notnets_grpc.Client.{NotnetsChannel, content_type, exchange}
use notnets_grpc.Client.Requesting.{IsSendable, call_tail, request_header}
use notnets_grpc.Client.Matching.{stream_after}

pub answer_headers_typed :
    (header : Multi) (sts : UnaryServerTransportStream) (out : Text)
    → get content_type_name header ≡ content_type
    → answer_headers header sts out
      ≡ set (codes "Content-Length") (print (length out)) (
          set content_type_name content_type
            (response_headers (or_empty (get_headers sts)) (or_empty (get_trailers sts))))
unfolding answer_headers
answer_headers_typed header sts out typed = rw typed refl

module _ {A B I M H Q R : Type 0} (c : Contexts) (codec : Codec A B) (server_codec : Codec R Q)
    (call_handler : Option I → H → Text → c.Context → Text → Served R) (s : NotnetsServer I M) where
  -- The specification of a call: the request, marshalled, goes to the handler, and its reply,
  -- marshalled, to the caller.
  abbrev pub direct : MethodDesc H → Text → c.Context → A → Result B
  direct md method ctx req = do
    payload ← codec.marshal req
    out ← server_codec.marshal (call_handler s.interceptor md.handler method ctx payload).reply
    codec.unmarshal out

module _ {I M H Q R : Type 0} (c : Contexts) (background : c.Context) (map : HandlerMap M H)
    (server_codec : Codec R Q) (call_handler : Option I → H → Text → c.Context → Text → Served R)
    (s : NotnetsServer I M) where
  -- A connection over which a text that is written is handed to the server, and its answer, if it fits
  -- into the client's buffer, is what is read back.
  pub record IsConnected {W : Type 0} (lib : Library W) (fuel : ℕ) (ch : NotnetsChannel)
      : Type 0 where
    pub next : Text → W → W
    pub delivers :
        (text reply : Text) (w : W)
        → handle_method c background map server_codec call_handler s text ≡ returns (some reply)
        → length reply ≤ buffer_size
        → exchange lib fuel ch text w ≡ returns (reply, next text w)

module _ {I M H R : Type 0} (c : Contexts)
    (call_handler : Option I → H → Text → c.Context → Text → Served R) (s : NotnetsServer I M) where
  -- The text of the answer to a request.
  abbrev pub answer_text : MethodDesc H → Text → c.Context → Text → Text → Text
  answer_text md method ctx payload out =
      let sts = stream_after c call_handler s method md.handler ctx payload in
      dump_response
        (set (codes "Content-Length") (print (length out)) (
          set content_type_name content_type
            (response_headers (or_empty (get_headers sts)) (or_empty (get_trailers sts)))))
        out

module _ {C A B I M H Q R : Type 0} (c : Contexts) (background : c.Context)
    (api : PerRpcCredentials c.Context C) (codec : Codec A B) (map : HandlerMap M H)
    (server_codec : Codec R Q) (call_handler : Option I → H → Text → c.Context → Text → Served R)
    (s : NotnetsServer I M) where
  -- A request that can be made and answered: a context that can be sent, a method that is
  -- registered, and messages that are marshalled and fit into the readers' buffers, in each context that
  -- the server can make of the request that it gets.
  pub record IsCallable (service method : Text) (ctx' : c.Context) (md : MethodDesc H)
      (payload : Text) : Type 0 where
    pub sendable : IsSendable c ctx'
    pub metadata : (m : Multi) → c.from_outgoing ctx' ≡ some m → AllMetadata m
    pub sd : ServiceDesc H
    pub registered : map.query service s.handlers ≡ some sd
    pub found : find_unary_method method sd.methods ≡ some md
    pub legal :
        (got : Arrived c service method ctx' payload
          (write_request (slash ∷ call_tail service method) (request_header c ctx') payload))
        (ctx : c.Context)
        → context_from_headers c background got.header ≡ ok ctx
        → IsAnswerable
            (or_empty (get_headers (stream_after c call_handler s method md.handler ctx payload)))
            (or_empty (get_trailers (stream_after c call_handler s method md.handler ctx payload)))
    pub short :
        length (write_request (slash ∷ call_tail service method) (request_header c ctx') payload)
        ≤ buffer_size
    pub replies :
        (got : Arrived c service method ctx' payload
          (write_request (slash ∷ call_tail service method) (request_header c ctx') payload))
        (ctx : c.Context)
        → context_from_headers c background got.header ≡ ok ctx
        → (out : Text) × (server_codec.marshal
              (call_handler s.interceptor md.handler method ctx payload).reply
            ≡ ok out)
          × (length (answer_text c call_handler s md method ctx payload out) ≤ buffer_size)
