-- ===== src/Tests/Rpc.antt =====
-- A call over a small wire format and a queue that holds one answer.
use notnets_grpc.Prelude.{err, ◌++◌, length, ◌≤◌, Option, none, subst}
use notnets_grpc.Http.Request.{write_request}
use notnets_grpc.Http.Response.{dump_response}
use notnets_grpc.Http.Url.{new_request, unescape, is_valid_encoded}
use notnets_grpc.Http.Fields.{malformed, cut, all_bytes, add_line}
use notnets_grpc.Http.Spaces.{clean_value}
use notnets_grpc.Http.Transfer.{read_body}
use notnets_grpc.Http.{buffer_size}
use notnets_grpc.Header.{set, canonical, is_name, is_token}
use notnets_grpc.Dict.{Multi, values, insert, append_at}
use notnets_grpc.Http.Carrying.{AllCarried}
use notnets_grpc.Metadata.{to_headers}
use notnets_grpc.Text.{text_eq, lower}
use notnets_grpc.Text.Decimal.{print, parse_uint63}
use notnets_grpc.Timeout.{headers_from_context}
use notnets_grpc.Server.Handling.{answer_headers}
use notnets_grpc.Server.Handling.Sending.{IsAnswerable}
use notnets_grpc.Internal.TransportStream.{or_empty, get_headers, get_trailers}
use notnets_grpc.Internal.TransportStream.History.{run}
use notnets_grpc.Client.Requesting.{IsSendable}
use notnets_grpc.Client.Matching.{AnswersHere, IsLegal}
use notnets_grpc.Client.Calling.{Ends}
use notnets_grpc.Transport.{network}
use notnets_grpc.Tests.World.{Plain, lowered_option}
use notnets_grpc.Prelude.{
  ℕ, ◌*◌, ◌≡◌, ◌↔◌, refl, true, [], ◌∷◌, some, ok, returns, panics, pos, arith,
}
use notnets_grpc.Http.Request.{read_request}
use notnets_grpc.Text.{Text, codes}
use notnets_grpc.Routing.{segments, resolve, render, req_url, split_n, service_and_method}
use notnets_grpc.Http.{Received}
use notnets_grpc.Services.{find_unary_method}
use notnets_grpc.Timeout.{context_from_headers, timeout_of}
use notnets_grpc.Framing.{receive, make_bytes}
use notnets_grpc.Metadata.{as_metadata}
use notnets_grpc.Header.{get}
use notnets_grpc.Shm.{client_open}
use notnets_grpc.Transport.{read, write}
use notnets_grpc.Internal.CallOptions.{Store, get_call_options, apply_per_rpc_creds}
use notnets_grpc.Server.Handling.{handle_method}
use notnets_grpc.Server.Handling.Panics.{IsFatal, handle_method_panics_iff}
use notnets_grpc.Client.Dialing.{Opened, dial_iff}
use notnets_grpc.Backoff.{second, next_delay}
use notnets_grpc.Client.{NotnetsChannel, dialed_conn, exchange, request_text, invoke, dial}
use notnets_grpc.Client.Requesting.{full_name}
use notnets_grpc.Client.Calling.{invoke_lem}
use notnets_grpc.Tests.World.{contexts, blank}
use notnets_grpc.Tests.Loopback.{
  request, reply, content_types, service_name, method_name, service-IsSegment, method-IsSegment,
  service-IsPath, method-IsPath, services, server, plain_codec, shouts, open_late, answers, queues,
  remote, channel, no_credentials, options,
}

pub asked :
    request_text contexts no_credentials plain_codec remote blank
      (full_name service_name method_name)
      (codes "hi")
      (get_call_options options)
    ≡ ok request
unfolding request_text apply_per_rpc_creds get_call_options req_url segments resolve render
    new_request cut all_bytes unescape is_valid_encoded set canonical is_name is_token
    headers_from_context insert lowered_option
asked = refl

pub read_back :
    read_request request
    ≡ ok (record {
      request_uri = codes "/notnets/a.S/M";
      header =
          (codes "User-Agent", codes "Go-http-client/1.1" ∷ [])
          ∷ (codes "Content-Length", codes "2" ∷ [])
          ∷ content_types;
      body = ok (codes "hi");
    })
unfolding write_request read_request text_eq is_name is_token clean_value add_line values append_at
    canonical parse_uint63 read_body unescape
read_back = refl

pub handled :
    handle_method contexts blank services plain_codec shouts server request ≡ returns (some reply)
unfolding handle_method service_and_method split_n find_unary_method context_from_headers
    as_metadata timeout_of get set canonical is_name is_token answer_headers values print lower
    insert to_headers
handled = rw read_back refl

pub delivered : exchange answers 12 channel request [] ≡ returns (reply, [])
unfolding exchange receive write read make_bytes write_request dump_response text_eq is_name
    is_token clean_value
delivered = refl

pub request_length : length request ≡ 131
unfolding write_request text_eq is_name is_token clean_value
request_length = refl

pub reply_length : length reply ≡ 79
unfolding dump_response text_eq is_name is_token clean_value
reply_length = refl

pub request_short : length request ≤ buffer_size
request_short = omega (arith, request_length)

reply_short : length reply ≤ buffer_size
reply_short = omega (arith, reply_length)

abbrev pub store : Store ℕ
store = record { mds = λ p. []; peers = λ p. 0 }

pub no_metadata-IsAnswerable : IsAnswerable [] []
no_metadata-IsAnswerable = record {
  header_map = tt;
  trailer_map = tt;
  headers = tt;
  trailers = tt;
  no_trailer_names = tt;
  headers_carried = tt;
  trailers_carried = tt;
}

pub legal :
    IsLegal contexts blank no_credentials plain_codec services plain_codec shouts server method_name
      request reply
legal a = unfold or_empty get_headers get_trailers run in no_metadata-IsAnswerable

none_is_some : (md : Multi) → ◌≡◌ {A = Option Multi} none (some md) → AllCarried [] md
none_is_some md e = absurd (cc)

pub blank-IsSendable : IsSendable contexts blank
unfolding lowered_option
blank-IsSendable md sends = none_is_some md sends

pub sendable :
    (ctx' : Plain)
    → apply_per_rpc_creds contexts no_credentials blank
        (get_call_options options)
        (codes "shm:0" ++ req_url (network remote) (full_name service_name method_name))
        true
      ≡ ok ctx'
    → IsSendable contexts ctx'
unfolding apply_per_rpc_creds get_call_options
sendable ctx' allowed =
    let same : blank ≡ ctx' = cc in subst (IsSendable contexts) same blank-IsSendable

invoke_lem_example :
    (a : AnswersHere contexts blank no_credentials plain_codec services plain_codec shouts server
      request reply)
    × (st' : Store ℕ) × (invoke contexts no_credentials plain_codec answers 12 channel blank
          (full_name service_name method_name)
          (codes "hi")
          options
          store
          []
        ≡ returns (plain_codec.unmarshal a.payload, st', []))
    × Ends contexts blank no_credentials plain_codec services plain_codec shouts server service_name
        method_name
        (codes "hi")
        options
        store
        request
        reply
        a
        st'
invoke_lem_example =
    invoke_lem contexts blank no_credentials plain_codec services plain_codec shouts server answers
      12 channel remote blank service_name method_name (codes "hi") options store request reply []
      [] service-IsSegment method-IsSegment service-IsPath method-IsPath refl sendable legal asked
      request_short handled reply_short delivered

-- A service that is not registered.
abbrev stray : Text
stray = write_request (codes "/notnets/b/M") content_types (codes "hi")

abbrev stray_request : Received
stray_request = record {
  request_uri = codes "/notnets/b/M";
  header =
      (codes "User-Agent", codes "Go-http-client/1.1" ∷ [])
      ∷ (codes "Content-Length", codes "2" ∷ [])
      ∷ content_types;
  body = ok (codes "hi");
}

stray_read : read_request stray ≡ ok stray_request
unfolding write_request read_request text_eq is_name is_token clean_value add_line values append_at
    canonical parse_uint63 read_body unescape
stray_read = refl

stray_panics : handle_method contexts blank services plain_codec shouts server stray ≡ panics
unfolding handle_method service_and_method split_n context_from_headers as_metadata timeout_of get
    values canonical is_name is_token lower
stray_panics = rw stray_read refl

handle_method_panics_iff_example :
    (handle_method contexts blank services plain_codec shouts server stray ≡ panics)
    ↔ IsFatal contexts blank services plain_codec shouts server stray_request
handle_method_panics_iff_example =
    handle_method_panics_iff contexts blank services plain_codec shouts server stray stray_request
      stray_read

-- A URI that ReadRequest accepts and that has one part.
star : Text
star = codes "POST * HTTP/1.1\r\n\r\n"

star_panics : handle_method contexts blank services plain_codec shouts server star ≡ panics
unfolding star handle_method read_request service_and_method split_n text_eq is_name is_token
    unescape
star_panics = refl

-- Two Host fields, which ReadRequest refuses.
two_hosts : Text
two_hosts = codes "POST /a/b/c HTTP/1.1\r\nHost: a\r\nHost: b\r\n\r\n"

two_hosts_refused : read_request two_hosts ≡ err malformed
unfolding two_hosts read_request text_eq is_name is_token clean_value add_line values append_at
    canonical unescape
two_hosts_refused = refl

abbrev dialed : NotnetsChannel
dialed = record {
  conn = dialed_conn (codes "client") (codes "server") true (some queues);
  message_size = pos 16;
}

dial_iff_example :
    (dial answers [] (codes "client") (codes "server") (pos 16) 9 (0 ∷ 0 ∷ [])
      ≡ returns (dialed, 3 * second ∷ 6 * second ∷ [], []))
    ↔ Opened answers []
        (codes "client")
        (codes "server")
        (pos 16)
        9
        0
        []
        (0 ∷ 0 ∷ [])
        queues
        (3 * second ∷ 6 * second ∷ [])
        []
dial_iff_example =
    dial_iff answers [] (codes "client") (codes "server") (pos 16) 9 (0 ∷ 0 ∷ []) [] queues
      (3 * second ∷ 6 * second ∷ [])

dialed_late :
    dial answers [] (codes "client") (codes "server") (pos 16) 9 (0 ∷ 0 ∷ [])
    ≡ returns (dialed, 3 * second ∷ 6 * second ∷ [], [])
unfolding dial open_late next_delay client_open
dialed_late = refl
