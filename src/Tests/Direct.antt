-- ===== src/Tests/Direct.antt =====
-- A client over a queue behind which the server answers.
use notnets_grpc.Prelude.{
  ok, ℕ, suc, ◌≡◌, ◌≤◌, ◌<◌, refl, ap, ◌∙◌, arith, [], ◌∷◌, Option, none, some, Run, returns,
  panics, unfinished, pos, length,
}
use notnets_grpc.Services.{HandlerMap}
use notnets_grpc.Http.{Codec}
use notnets_grpc.Server.{NotnetsServer}
use notnets_grpc.Server.Handling.{Served}
use notnets_grpc.Text.{Text, codes, lower}
use notnets_grpc.Text.Decimal.{print}
use notnets_grpc.Dict.{Multi, insert}
use notnets_grpc.Header.{set, canonical, is_name, is_token}
use notnets_grpc.Metadata.{to_headers}
use notnets_grpc.Metadata.RoundTrip.{AllMetadata}
use notnets_grpc.Internal.CallOptions.{Store, get_call_options, apply_per_rpc_creds}
use notnets_grpc.Internal.TransportStream.{or_empty, get_headers, get_trailers}
use notnets_grpc.Internal.TransportStream.History.{run}
use notnets_grpc.Services.{find_unary_method}
use notnets_grpc.Http.{buffer_size}
use notnets_grpc.Http.Spaces.{clean_value}
use notnets_grpc.Http.Request.{read_request}
use notnets_grpc.Http.Response.{dump_response}
use notnets_grpc.Transport.{write}
use notnets_grpc.Server.Handling.{handle_method}
use notnets_grpc.Client.{invoke}
use notnets_grpc.Client.Requesting.{full_name}
use notnets_grpc.Client.Exchanging.{exchange_lem}
use notnets_grpc.Client.Receiving.{Obtained}
use notnets_grpc.Client.Matching.{stream_after}
use notnets_grpc.Client.Direct.{direct, answer_text, IsConnected, IsCallable}
use notnets_grpc.Client.Refining.{invoke_refines}
use notnets_grpc.Text.{text_eq}
use notnets_grpc.Client.Arriving.{Arrived}
use notnets_grpc.Timeout.{context_from_headers}
use notnets_grpc.Tests.Loopback.{request}
use notnets_grpc.Services.{MethodDesc}
use notnets_grpc.Timeout.{headers_from_context}
use notnets_grpc.Tests.World.{Plain, contexts, blank, lowered_option}
use notnets_grpc.Tests.Loopback.{
  service_name, method_name, service-IsSegment, method-IsSegment, service-IsPath, method-IsPath,
  services, server, plain_codec, shouts, answers_by, remote, channel, no_credentials, options,
}
use notnets_grpc.Tests.Exchanges.{pieces}
use notnets_grpc.Tests.Rpc.{store, request_length, blank-IsSendable, no_metadata-IsAnswerable}

unfoldable pub sent_back : Run (Option Text) → Text
sent_back (returns (some reply)) = reply
sent_back (returns none) = []
sent_back panics = []
sent_back unfinished = []

module _ {I M H Q R : Type 0} (map : HandlerMap M H) (codec : Codec R Q)
    (call_handler : Option I → H → Text → Plain → Text → Served R) (s : NotnetsServer I M) where
  -- What the queue holds after the server took a request from it.
  abbrev pub answer : Text → Text
  answer text = sent_back (handle_method contexts blank map codec call_handler s text)

  pub answered :
      (text reply : Text)
      → handle_method contexts blank map codec call_handler s text ≡ returns (some reply)
      → answer text ≡ reply
  unfolding sent_back
  answered text reply handled = rw handled refl

  pub written :
      (text reply w : Text)
      → handle_method contexts blank map codec call_handler s text ≡ returns (some reply)
      → write (answers_by answer) channel.conn text w ≡ returns (pos 0, answer text)
  unfolding write
  written [] reply w handled =
      let nothing : handle_method contexts blank map codec call_handler s [] ≡ returns none =
        (unfold handle_method read_request in refl) in
      absurd (cc)
  written (b ∷ text) reply w handled = refl

  pub fits :
      (answer' reply : Text)
      → answer' ≡ reply
      → length reply ≤ buffer_size
      → length answer' < suc buffer_size
  fits answer' reply same short =
      let sized : length answer' ≡ length reply = ap length same in omega (arith, sized, short)

  abbrev pub connected :
      IsConnected contexts blank map codec call_handler s
        (answers_by answer)
        (suc buffer_size)
        channel
  connected = record {
    next = λ text w. [];
    delivers = λ text reply w handled short.
        let same = answered text reply handled in
        let (w', got, drained) =
          exchange_lem (answers_by answer) (suc buffer_size) 16 channel (pieces answer) text (pos 0)
            w (answer text) refl (omega arith) (written text reply w handled)
            (fits (answer text) reply same short) in
        got ∙ ap (λ m. returns (m, w')) same ∙ ap (λ v. returns (reply, v)) drained;
  }

abbrev shout : MethodDesc ℕ
shout = record { method_name = method_name; handler = 7 }

answer_length :
    (ctx : Plain)
    → length (answer_text contexts shouts server shout method_name ctx (codes "hi") (codes "hi!"))
      ≡ 79
unfolding dump_response text_eq is_name is_token clean_value set canonical run or_empty get_headers
    get_trailers insert to_headers print lower
answer_length ctx = refl

pub none_is_some : (md : Multi) → ◌≡◌ {A = Option Multi} none (some md) → AllMetadata md
none_is_some md e = absurd (cc)

callable :
    IsCallable contexts blank no_credentials plain_codec services plain_codec shouts server
      service_name method_name blank shout
      (codes "hi")
unfolding find_unary_method text_eq set canonical is_name is_token headers_from_context insert
    lowered_option
callable = record {
  sendable = blank-IsSendable;
  metadata = none_is_some;
  sd = record { service_name = service_name; methods = shout ∷ []; streams = [] };
  registered = refl;
  found = refl;
  legal =
      λ got ctx decoded. unfold or_empty get_headers get_trailers run in no_metadata-IsAnswerable;
  short = omega (arith, request_length);
  replies = λ got ctx decoded. (codes "hi!", refl, omega (arith, answer_length ctx));
}

invoke_refines_example :
    (got : Arrived contexts service_name method_name blank (codes "hi") request) × (ctx : Plain)
    × (context_from_headers contexts blank got.header ≡ ok ctx)
    × (st' : Store ℕ) × (invoke contexts no_credentials plain_codec
          (answers_by (answer services plain_codec shouts server))
          (suc buffer_size)
          channel
          blank
          (full_name service_name method_name)
          (codes "hi")
          options
          store
          []
        ≡ returns (
          direct contexts plain_codec plain_codec shouts server shout method_name ctx (codes "hi"),
          st',
          [],
        ))
    × Obtained
        (or_empty
          (get_headers (stream_after contexts shouts server method_name 7 ctx (codes "hi"))))
        (or_empty
          (get_trailers (stream_after contexts shouts server method_name 7 ctx (codes "hi"))))
        (get_call_options options)
        store
        st'
unfolding apply_per_rpc_creds get_call_options set canonical is_name is_token headers_from_context
    insert lowered_option
invoke_refines_example =
    invoke_refines contexts blank no_credentials plain_codec services plain_codec shouts server
      remote service_name method_name blank blank (codes "hi") options shout (codes "hi")
      service-IsSegment method-IsSegment service-IsPath method-IsPath refl refl callable
      (answers_by (answer services plain_codec shouts server)) (suc buffer_size) channel store []
      refl (connected services plain_codec shouts server)
