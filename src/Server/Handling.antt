-- ===== src/Server/Handling.antt =====
-- handleMethod of server.go: a request is read, routed to a method's handler, and answered. The
-- handler is generated code around a service, and with the interceptor a parameter.
pub mod Answers
pub mod Panics
pub mod Sending
use notnets_grpc.Prelude.{
  ◌≡◌, refl, List, [], ◌∷◌, Option, none, some, Err, Result, ok, err, Run, returns, panics,
  run_bind, length,
}
use notnets_grpc.Http.Request.{read_request}
use notnets_grpc.Http.Response.{dump_response}
use notnets_grpc.Text.{Text, codes}
use notnets_grpc.Text.Decimal.{print}
use notnets_grpc.Dict.{Multi}
use notnets_grpc.Header.{get, set}
use notnets_grpc.Contexts.{Contexts}
use notnets_grpc.Metadata.{response_headers}
use notnets_grpc.Timeout.{context_from_headers}
use notnets_grpc.Routing.{service_and_method}
use notnets_grpc.Services.{MethodDesc, ServiceDesc, HandlerMap, find_unary_method}
use notnets_grpc.Internal.TransportStream.{
  UnaryServerTransportStream, new_stream, or_empty, get_headers, get_trailers,
}
use notnets_grpc.Internal.TransportStream.History.{Call, run}
use notnets_grpc.Http.{Received, Codec}
use notnets_grpc.Server.{NotnetsServer}

-- What a handler did: its calls on the transport stream, the message that it returned, and the error
-- beside it.
pub record Served (R : Type 0) : Type 0 where
  pub calls : List Call
  pub reply : R
  pub failed : Option Err

abbrev pub content_type_name : Text
content_type_name = codes "Content-Type"

-- The headers of the answer: the metadata that the stream holds, the request's content type and the
-- length of the payload.
unfoldable pub answer_headers : Multi → UnaryServerTransportStream → Text → Multi
unfolding or_empty get_headers get_trailers
answer_headers header sts payload = set (codes "Content-Length") (print (length payload)) (
    set content_type_name (get content_type_name header)
      (response_headers (or_empty (get_headers sts)) (or_empty (get_trailers sts))))

module _ {I M H Q R : Type 0} (c : Contexts) (background : c.Context) (map : HandlerMap M H)
    (codec : Codec R Q) (call_handler : Option I → H → Text → c.Context → Text → Served R) where
  -- The answer to a message that was marshalled. Without a payload there is none: the headers for
  -- the error are set on a response that is not sent.
  answer : Multi → UnaryServerTransportStream → Result Text → Option Text
  answer header sts (err e) = none
  answer header sts (ok payload) = some (dump_response (answer_headers header sts payload) payload)

  -- The handler runs, and whatever error it returns is overwritten by that of Marshal.
  respond : NotnetsServer I M → Multi → Text → MethodDesc H → c.Context → Text → Option Text
  unfolding answer run
  respond s header method md ctx req =
      let served = call_handler s.interceptor md.handler method ctx req in
      answer header (run (new_stream method) served.calls) (codec.marshal served.reply)

  with_body :
      NotnetsServer I M → Multi → Text → MethodDesc H → c.Context → Result Text → Option Text
  unfolding respond
  with_body s header method md ctx (err e) = none
  with_body s header method md ctx (ok req) = respond s header method md ctx req

  -- `md.Handler` of a nil `md` panics.
  with_method :
      NotnetsServer I M → Received → Text → c.Context → Option (MethodDesc H) → Run (Option Text)
  unfolding with_body
  with_method s tmp method ctx none = panics
  with_method s tmp method ctx (some md) = returns (with_body s tmp.header method md ctx tmp.body)

  -- `sd.Methods` of a nil `sd` panics.
  with_service :
      NotnetsServer I M → Received → Text → c.Context → Option (ServiceDesc H) → Run (Option Text)
  unfolding with_method
  with_service s tmp method ctx none = panics
  with_service s tmp method ctx (some sd) =
      with_method s tmp method ctx (find_unary_method method sd.methods)

  with_context : NotnetsServer I M → Received → Text → Text → Result c.Context → Run (Option Text)
  unfolding with_service
  with_context s tmp service method (err e) = returns none
  with_context s tmp service method (ok ctx) =
      with_service s tmp method ctx (map.query service s.handlers)

  with_request : NotnetsServer I M → Result Received → Run (Option Text)
  unfolding with_context
  with_request s (err e) = returns none
  with_request s (ok tmp) = run_bind (service_and_method tmp.request_uri) λ (service, method).
      with_context s tmp service method (context_from_headers c background tmp.header)

  -- handleMethod: what it writes to the connection, if anything
  unfoldable pub handle_method : NotnetsServer I M → Text → Run (Option Text)
  unfolding with_request
  handle_method s b = with_request s (read_request b)
