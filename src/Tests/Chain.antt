-- ===== src/Tests/Chain.antt =====
-- A chain of two servers, over a queue behind which the second answers.
use notnets_grpc.Prelude.{
  ℕ, ◌≡◌, refl, sym, ap, [], ◌∷◌, ◌++◌, List, Option, none, some, outside, Result, ok, err, Run,
  false, returns, panics, unfinished, arith, suc, pos, length, if◌then◌else◌,
}
use notnets_grpc.Text.{Text, codes, text_eq, lower}
use notnets_grpc.Text.Decimal.{print}
use notnets_grpc.Dict.{insert}
use notnets_grpc.Header.{set, canonical, is_name, is_token}
use notnets_grpc.Metadata.{to_headers}
use notnets_grpc.Internal.CallOptions.{Store}
use notnets_grpc.Internal.TransportStream.{or_empty, get_headers, get_trailers}
use notnets_grpc.Internal.TransportStream.History.{run}
use notnets_grpc.Routing.{slash}
use notnets_grpc.Services.{ServiceDesc, MethodDesc, HandlerMap, find_unary_method}
use notnets_grpc.Timeout.{headers_from_context, context_from_headers}
use notnets_grpc.Http.{Codec, buffer_size}
use notnets_grpc.Http.Spaces.{clean_value}
use notnets_grpc.Http.Request.{write_request}
use notnets_grpc.Http.Response.{dump_response}
use notnets_grpc.Server.{NotnetsServer}
use notnets_grpc.Client.{invoke}
use notnets_grpc.Client.Requesting.{call_tail, request_header}
use notnets_grpc.Client.Arriving.{Arrived}
use notnets_grpc.Client.Direct.{answer_text, IsCallable}
use notnets_grpc.SayService.{
  TestServiceServer, Interceptor, chain_package, full_goodbye, handler, service_desc,
  new_test_service_client, hello_server, chain_server, get_message,
}
use notnets_grpc.SayService.Chain.{Handler, goodbye, run_handler, chain_server_lem}
use notnets_grpc.Tests.World.{Plain, contexts, blank, lowered_option}
use notnets_grpc.Tests.Loopback.{plain_codec, answers_by, remote, channel, no_credentials}
use notnets_grpc.Tests.Rpc.{store, blank-IsSendable, no_metadata-IsAnswerable}
use notnets_grpc.Shm.{Library}
use notnets_grpc.Tests.Direct.{answer, connected, none_is_some}

abbrev end_server : TestServiceServer Plain Unit
end_server = hello_server

abbrev find_service :
    Text → List (ServiceDesc (Handler Plain)) → Option (ServiceDesc (Handler Plain))
find_service name [] = none
find_service name (d ∷ ds) =
    let rest = find_service name ds in if text_eq d.service_name name then some d else rest

abbrev services : HandlerMap (List (ServiceDesc (Handler Plain))) (Handler Plain)
services = record { no_handlers = []; register = λ d ds. returns (d ∷ ds); query = find_service }

abbrev end_point : NotnetsServer (Interceptor Plain Unit) (List (ServiceDesc (Handler Plain)))
end_point = record {
  handlers = service_desc chain_package end_server ∷ [];
  interceptor = none;
  lis = none;
  conns = [];
  stop = false;
  message_size = pos 256;
}

abbrev reply_codec : Codec (Option Text) Text
reply_codec = record { marshal = λ reply. ok (get_message reply); unmarshal = ok }

abbrev desc : MethodDesc (Handler Plain)
desc = record {
  method_name = goodbye;
  handler = handler (full_goodbye chain_package) end_server.say_goodbye;
}

abbrev asked : Text
asked =
    write_request (slash ∷ call_tail chain_package goodbye) (request_header contexts blank)
      (codes "ann")

length_of_request : length asked ≡ 160
unfolding write_request text_eq is_name is_token clean_value set canonical headers_from_context
    insert lowered_option
length_of_request = refl

answer_length :
    (ctx : Plain)
    → length (
        answer_text contexts
          (run_handler reply_codec)
          end_point
          desc
          goodbye
          ctx
          (codes "ann")
          (codes "Goodbye ann"))
      ≡ 88
unfolding dump_response text_eq is_name is_token clean_value set canonical run or_empty get_headers
    get_trailers insert to_headers print lower handler
answer_length ctx = refl

callable :
    IsCallable contexts blank no_credentials plain_codec services reply_codec
      (run_handler reply_codec)
      end_point
      chain_package
      goodbye
      blank
      desc
      (codes "ann")
unfolding find_unary_method text_eq set canonical is_name is_token headers_from_context insert
    lowered_option service_desc handler get_message
callable = record {
  sendable = blank-IsSendable;
  metadata = none_is_some;
  sd = service_desc chain_package end_server;
  registered = refl;
  found = refl;
  legal =
      λ got ctx decoded. unfold or_empty get_headers get_trailers run in no_metadata-IsAnswerable;
  short = omega (arith, length_of_request);
  replies = λ got ctx decoded. (codes "Goodbye ann", refl, omega (arith, answer_length ctx));
}

-- A stub's Invoke, which ends only if Invoke returns.
abbrev ended : Run (Result Text × Store ℕ × Text) → Store ℕ × Text → Result Text × (Store ℕ × Text)
ended (returns (r, st, w)) before = (r, (st, w))
ended panics before = (err (outside 0), before)
ended unfinished before = (err (outside 0), before)

abbrev queue : Library Text
queue = answers_by (answer services reply_codec (run_handler reply_codec) end_point)

abbrev stub : Plain → Text → Text → Store ℕ × Text → Result Text × (Store ℕ × Text)
stub ctx full name (st, w) =
    ended
      (invoke contexts no_credentials plain_codec queue (suc buffer_size) channel ctx full name []
        st w)
      (st, w)

chain_server_lem_example :
    (got : Arrived contexts chain_package goodbye blank (codes "ann") asked) × (ctx' : Plain)
    × (context_from_headers contexts blank got.header ≡ ok ctx')
    × (after : Store ℕ × Text) × ((chain_server
            (new_test_service_client chain_package stub)).say_hello
          blank
          (codes "ann")
          (store, [])
        ≡ (
          (
            some (codes "Hello " ++ get_message (end_server.say_goodbye ctx' (codes "ann") tt).0.0),
            none,
          ),
          after,
        ))
unfolding service_desc handler get_message text_eq
chain_server_lem_example =
    chain_server_lem contexts blank no_credentials plain_codec services reply_codec end_point
      end_server remote blank (codes "ann") desc (codes "ann") refl refl
      (λ reply out sent. sym sent) refl refl callable queue (suc buffer_size) channel store [] stub
      (λ x full name st st' w w' r returned. ap (λ v. ended v (st, w)) returned) refl
      (connected services reply_codec (run_handler reply_codec) end_point)
