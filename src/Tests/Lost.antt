-- ===== src/Tests/Lost.antt =====
-- A reply with a body of 5000 bytes.
use notnets_grpc.Prelude.{ok-injective, ap, err, ◌<◌, ◌^◌, ◌+◌, length-replicate}
use notnets_grpc.Http.Transfer.{unexpected_eof}
use notnets_grpc.Http.Messages.{head_length, length-message}
use notnets_grpc.Http.Fields.Reading.{block_length}
use notnets_grpc.Http.Response.{response_fields, status_line}
use notnets_grpc.Client.Limits.{long_reply_lem}
use notnets_grpc.Tests.Oversize.{body}
use notnets_grpc.Tests.Rpc.{
  asked, no_metadata-IsAnswerable, read_back, request_short, sendable, store,
}
use notnets_grpc.Shm.{Library}
use notnets_grpc.Server.Handling.{Served}
use notnets_grpc.Prelude.{length, ◌≤◌, Option, none}
use notnets_grpc.Http.Request.{write_request}
use notnets_grpc.Http.Response.{dump_response}
use notnets_grpc.Http.Spaces.{clean_value}
use notnets_grpc.Http.{buffer_size}
use notnets_grpc.Header.{set, canonical, is_name, is_token}
use notnets_grpc.Dict.{Multi, values, insert}
use notnets_grpc.Metadata.{to_headers}
use notnets_grpc.Text.{text_eq, lower}
use notnets_grpc.Text.Decimal.{print}
use notnets_grpc.Server.Handling.{answer_headers}
use notnets_grpc.Internal.TransportStream.{or_empty, get_headers, get_trailers}
use notnets_grpc.Internal.TransportStream.History.{run}
use notnets_grpc.Client.Matching.{AnswersHere, IsLegal}
use notnets_grpc.Tests.World.{Plain}
use notnets_grpc.Prelude.{ℕ, ◌≡◌, refl, [], ◌∷◌, some, ok, returns, pos, arith}
use notnets_grpc.Text.{Text, codes}
use notnets_grpc.Routing.{split_n, service_and_method}
use notnets_grpc.Services.{find_unary_method}
use notnets_grpc.Timeout.{context_from_headers, timeout_of}
use notnets_grpc.Framing.{receive, make_bytes}
use notnets_grpc.Metadata.{as_metadata}
use notnets_grpc.Header.{get}
use notnets_grpc.Transport.{read, write}
use notnets_grpc.Server.Handling.{handle_method}
use notnets_grpc.Client.{NotnetsChannel, exchange, invoke}
use notnets_grpc.Client.Requesting.{full_name}
use notnets_grpc.Tests.World.{contexts, blank}
use notnets_grpc.Tests.Loopback.{
  request, service_name, method_name, service-IsSegment, method-IsSegment, service-IsPath,
  method-IsPath, services, server, plain_codec, answers, remote, channel, no_credentials, options,
}

abbrev floods : Option ℕ → ℕ → Text → Plain → Text → Served Text
floods interceptor handler method ctx req = record { calls = []; reply = body; failed = none }

abbrev answer_types : Multi
answer_types =
    (codes "Content-Type", codes "application/x-protobuf" ∷ [])
    ∷ (codes "Content-Length", codes "5000" ∷ [])
    ∷ []

abbrev long_reply : Text
long_reply = dump_response answer_types body

handled :
    handle_method contexts blank services plain_codec floods server request
    ≡ returns (some long_reply)
unfolding handle_method service_and_method split_n find_unary_method context_from_headers
    as_metadata timeout_of get set canonical is_name is_token answer_headers values print lower
    insert to_headers
handled = rw read_back refl

-- A queue with the long answer, and a channel that reads it at once.
abbrev floody : Library Text
floody = record answers { client_send_rpc = λ ctx buf size w. (pos 0, long_reply) }

abbrev wide : NotnetsChannel
wide = record channel { message_size = pos 8192 }

delivered : exchange floody 2 wide request [] ≡ returns (long_reply, [])
unfolding exchange receive write read make_bytes write_request dump_response text_eq is_name
    is_token clean_value
delivered = refl

legal :
    IsLegal contexts blank no_credentials plain_codec services plain_codec floods server method_name
      request long_reply
legal a = unfold or_empty get_headers get_trailers run in no_metadata-IsAnswerable

head_length-reply : head_length status_line (response_fields answer_types body) ≡ 79
unfolding response_fields block_length text_eq is_name is_token clean_value print
head_length-reply = refl

length-reply :
    length long_reply ≡ head_length status_line (response_fields answer_types body) + length body
unfolding dump_response
length-reply = length-message status_line (response_fields answer_types body) body

body_sized : length body ≡ 5000
body_sized = length-replicate {A = ℕ} 5000 b'x'

sizes :
    (a : AnswersHere contexts blank no_credentials plain_codec services plain_codec floods server
      request long_reply)
    → (length a.payload < 2 ^ 63) × (length long_reply ≤ buffer_size + length a.payload)
sizes a =
    let same : body ≡ a.payload = ok-injective body a.payload a.marshalled in
    let sized : length body ≡ length a.payload = ap length same in
    (omega (arith, body_sized, sized), omega (arith, length-reply, head_length-reply, sized))

long_reply_lem_example :
    (a : AnswersHere contexts blank no_credentials plain_codec services plain_codec floods server
      request long_reply)
    × (plain_codec.marshal (codes "hi") ≡ ok a.req)
    × (invoke contexts no_credentials plain_codec floody 2 wide blank
          (full_name service_name method_name)
          (codes "hi")
          options
          store
          []
        ≡ returns (err unexpected_eof, store, []))
long_reply_lem_example =
    long_reply_lem contexts blank no_credentials plain_codec services plain_codec floods server
      floody 2 wide remote blank service_name method_name (codes "hi") options store request
      long_reply [] [] service-IsSegment method-IsSegment service-IsPath method-IsPath refl sendable
      legal asked request_short handled (omega (arith, length-reply, head_length-reply, body_sized))
      sizes delivered
