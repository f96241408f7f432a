-- ===== src/Tests/Cases.antt =====
-- The test of Unary over a queue behind which the server answers, and a small wire format.
use notnets_grpc.Http.Url.{unescape}
use notnets_grpc.Prelude.{
  ℕ, suc, ◌≡◌, ◌≤◌, refl, sym, ap, subst, ◌∙◌, arith, true, [], ◌∷◌, none, some, ok, returns,
  length, ok-injective,
}
use notnets_grpc.Text.{Text, codes}
use notnets_grpc.Dict.{Multi}
use notnets_grpc.Text.{text_eq, lower}
use notnets_grpc.Text.Decimal.{print, parse_uint63}
use notnets_grpc.Dict.{values, insert, append_at}
use notnets_grpc.Header.{set, get, canonical, is_name, is_token, add}
use notnets_grpc.Metadata.{to_headers, as_metadata, is_reserved, is_binary, encode_value}
use notnets_grpc.Base64.{encode, decode}
use notnets_grpc.Timeout.{headers_from_context, context_from_headers, timeout_of}
use notnets_grpc.Http.Fields.{add_line}
use notnets_grpc.Http.Spaces.{clean_value}
use notnets_grpc.Http.Transfer.{read_body}
use notnets_grpc.Tests.World.{lowered_option}
use notnets_grpc.Internal.TransportStream.{merge, or_empty, get_headers, get_trailers}
use notnets_grpc.Internal.TransportStream.History.{run}
use notnets_grpc.TestService.{reply_message, as_map}
use notnets_grpc.TestService.Handlers.{or_nil}
use notnets_grpc.Client.Arriving.{Arrived}
use notnets_grpc.Client.Direct.{answer_text}
use notnets_grpc.Http.Response.{dump_response}
use notnets_grpc.TestService.Cases.Passing.{Unmarshalled}
use notnets_grpc.Internal.CallOptions.{Store}
use notnets_grpc.Tests.World.{context_laws}
use notnets_grpc.Tests.Rpc.{store}
use notnets_grpc.Tests.Direct.{answer, connected}
use notnets_grpc.Http.{buffer_size}
use notnets_grpc.Services.{find_unary_method}
use notnets_grpc.TestService.{Message, metadata_new}
use notnets_grpc.TestService.Handlers.{unary}
use notnets_grpc.TestService.Cases.{
  test_data, request_prototype, test_service, unary_name, test_unary,
}
use notnets_grpc.TestService.Cases.Served.{IsServed, test_context, request_sent}
use notnets_grpc.TestService.Cases.Running.{test_unary_lem}
use notnets_grpc.Http.Request.{read_request, write_request}
use notnets_grpc.Tests.World.{Plain, contexts, blank}
use notnets_grpc.Tests.Loopback.{services, answers_by, remote, channel, no_credentials}
use notnets_grpc.Tests.Messages.{
  encode_text, decode_text, encode_message, decode_message, codec, marshal_reply, server_codec,
  call_unary, unary_method, unary_service, test_server, decoded_back,
}
use notnets_grpc.Tests.Data.{test_data-IsTestData}

abbrev pub payload : Text
payload = encode_message (request_prototype test_data)

abbrev pub text : Text
text = request_sent contexts blank test_data payload

abbrev header : Multi
header =
    (codes "User-Agent", codes "Go-http-client/1.1" ∷ [])
    ∷ (codes "Content-Length", codes "117" ∷ [])
    ∷ (codes "Baz", codes "bedazzle" ∷ [])
    ∷ (codes "Content-Type", codes "application/x-protobuf" ∷ [])
    ∷ (codes "Foo", codes "bar" ∷ [])
    ∷ (codes "Pickle-Bin", codes "ZFpQRjwyKB4UCgA=" ∷ [])
    ∷ []

read_back :
    read_request text
    ≡ ok (record {
      request_uri = codes "/notnets/channel_tests_service.TestService/Unary";
      header = header;
      body = ok payload;
    })
unfolding write_request read_request text_eq is_name is_token clean_value add_line values append_at
    canonical parse_uint63 read_body set headers_from_context insert lowered_option to_headers
    is_reserved is_binary encode_value add lower print encode metadata_new encode_message
    encode_text unescape
read_back = refl

-- What the server's context holds.
abbrev served_context : Plain
served_context = record blank {
  incoming = some (
      (codes "user-agent", codes "Go-http-client/1.1" ∷ [])
      ∷ (codes "content-length", codes "117" ∷ [])
      ∷ (codes "baz", codes "bedazzle" ∷ [])
      ∷ (codes "content-type", codes "application/x-protobuf" ∷ [])
      ∷ (codes "foo", codes "bar" ∷ [])
      ∷ (codes "pickle-bin", test_data.payload ∷ [])
      ∷ []);
}

in_context : context_from_headers contexts blank header ≡ ok served_context
unfolding context_from_headers as_metadata timeout_of get values canonical is_name is_token lower
    text_eq is_reserved is_binary decode append_at
in_context = refl

only_context :
    (got : Arrived contexts test_service unary_name
      (test_context contexts blank test_data)
      payload
      text)
    (ctx : Plain)
    → context_from_headers contexts blank got.header ≡ ok ctx
    → served_context ≡ ctx
only_context got ctx decoded =
    let read = ok-injective _ _ (sym read_back ∙ got.read) in
    let same : header ≡ got.header = ap (λ r. r.header) read in
    ok-injective _ _ (sym in_context ∙ ap (context_from_headers contexts blank) same ∙ decoded)

text_length : length text ≡ 337
unfolding write_request text_eq is_name is_token clean_value canonical set headers_from_context
    insert lowered_option to_headers is_reserved is_binary encode_value add append_at lower print
    encode metadata_new encode_message encode_text
text_length = refl

abbrev answered : Message
answered =
    reply_message (or_nil (contexts.from_incoming served_context)) (request_prototype test_data) 0

reply_length :
    length (
      answer_text contexts call_unary test_server unary_method unary_name served_context payload
        (encode_message answered))
    ≡ 391
unfolding dump_response text_eq is_name is_token clean_value set canonical run or_empty get_headers
    get_trailers merge insert to_headers add append_at is_reserved is_binary encode_value encode
    lower print metadata_new as_map unary encode_message decode_message encode_text decode_text
    lowered_option call_unary
reply_length = refl

-- The wire format keeps the handler's answer.
answer_kept : Unmarshalled answered (decode_message (encode_message answered))
unfolding encode_message decode_message encode_text decode_text as_map lowered_option lower
    metadata_new insert text_eq
answer_kept = record { payload = refl; headers = λ k. refl }

pub served :
    IsServed contexts blank no_credentials codec services server_codec call_unary test_server
      test_data unary_method payload
unfolding find_unary_method text_eq call_unary marshal_reply
served = record {
  sd = unary_service;
  registered = refl;
  found = refl;
  served = λ ctx. ap (unary (contexts.from_incoming ctx)) decoded_back;
  marshalled = refl;
  short = omega (arith, text_length);
  replies = λ got ctx decoded.
      subst
        (λ x.
          (out : Text) × (server_codec.marshal (call_unary none 1 unary_name x payload).reply
            ≡ ok out)
          × (length
                (answer_text contexts call_unary test_server unary_method unary_name x payload out)
              ≤ buffer_size)
          × (m' : Message) × (codec.unmarshal out ≡ ok m')
          × Unmarshalled
              (reply_message (or_nil (contexts.from_incoming x)) (request_prototype test_data) 0)
              m')
        (only_context got ctx decoded)
        (
          encode_message answered,
          ap (λ r. server_codec.marshal (unary (contexts.from_incoming served_context) r).reply)
                decoded_back
              ∙ (unfold unary in refl),
          omega (arith, reply_length),
          decode_message (encode_message answered),
          refl,
          answer_kept,
        );
}

test_unary_lem_example :
    (st' : Store ℕ) × (test_unary contexts blank no_credentials codec
        (answers_by (answer services server_codec call_unary test_server))
        (suc buffer_size)
        channel
        test_data
        1
        2
        store
        []
      ≡ returns (true, st', []))
test_unary_lem_example =
    test_unary_lem contexts blank no_credentials codec services server_codec call_unary test_server
      test_data context_laws test_data-IsTestData unary_method payload served remote refl
      (answers_by (answer services server_codec call_unary test_server)) (suc buffer_size) channel
      refl 1 2 refl (connected services server_codec call_unary test_server) store []
