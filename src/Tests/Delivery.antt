-- ===== src/Tests/Delivery.antt =====
-- A call in a context with metadata and a deadline.
use mathlib.Core.Option.{some-injective}
use notnets_grpc.Prelude.{
  ◌≡◌, refl, subst, [], ◌∷◌, ◌++◌, some, none, ok, returns, pos, length, arith, true,
}
use notnets_grpc.Text.{Text, codes, text_eq, lower}
use notnets_grpc.Text.Decimal.{print, parse_uint63}
use notnets_grpc.Dict.{Multi, values, insert, append_at}
use notnets_grpc.Header.{set, get, canonical, is_name, is_token, add}
use notnets_grpc.Metadata.{to_headers, as_metadata, is_reserved, is_binary}
use notnets_grpc.Metadata.RoundTrip.{AllMetadata}
use notnets_grpc.Routing.{segments, resolve, render, req_url, split_n, service_and_method}
use notnets_grpc.Services.{find_unary_method}
use notnets_grpc.Timeout.{headers_from_context, context_from_headers, timeout_of, timeout_text}
use notnets_grpc.Internal.CallOptions.{get_call_options, apply_per_rpc_creds}
use notnets_grpc.Http.Url.{new_request, unescape, is_valid_encoded}
use notnets_grpc.Http.Fields.{cut, all_bytes, add_line}
use notnets_grpc.Http.Spaces.{clean_value, is_solid, literal-IsValue}
use notnets_grpc.Http.Transfer.{read_body}
use notnets_grpc.Http.Request.{write_request, read_request}
use notnets_grpc.Http.Carrying.{AllCarried}
use notnets_grpc.Transport.{network}
use notnets_grpc.Server.Handling.{answer_headers, handle_method}
use notnets_grpc.Server.Handling.Answers.{handle_method_iff}
use notnets_grpc.Client.{request_text}
use notnets_grpc.Client.Requesting.{IsSendable, full_name}
use notnets_grpc.Client.Matching.{AnswersHere}
use notnets_grpc.Client.Propagating.{Continues, handler_context_lem}
use notnets_grpc.Tests.World.{Plain, contexts, context_laws, blank, lowered_option}
use notnets_grpc.Tests.Loopback.{
  reply, service_name, method_name, service-IsSegment, method-IsSegment, service-IsPath,
  method-IsPath, services, server, plain_codec, shouts, remote, no_credentials, options,
}

abbrev metadata : Multi
metadata = (codes "k", codes "v" ∷ []) ∷ []

abbrev busy : Plain
busy = record { outgoing = some metadata; incoming = none; deadline = some (pos 5_000_000_000) }

abbrev header : Multi
header =
    (codes "K", codes "v" ∷ [])
    ∷ (codes "Grpc-Timeout", codes "5000m" ∷ [])
    ∷ (codes "Content-Type", codes "application/x-protobuf" ∷ [])
    ∷ []

abbrev request : Text
request = write_request (codes "/notnets/a.S/M") header (codes "hi")

asked :
    request_text contexts no_credentials plain_codec remote busy
      (full_name service_name method_name)
      (codes "hi")
      (get_call_options options)
    ≡ ok request
unfolding request_text apply_per_rpc_creds get_call_options req_url segments resolve render
    new_request cut all_bytes unescape is_valid_encoded set canonical is_name is_token
    headers_from_context insert lowered_option to_headers is_reserved is_binary add append_at lower
    text_eq timeout_text print
asked = refl

read_back :
    read_request request
    ≡ ok (record {
      request_uri = codes "/notnets/a.S/M";
      header =
          (codes "User-Agent", codes "Go-http-client/1.1" ∷ [])
          ∷ (codes "Content-Length", codes "2" ∷ [])
          ∷ (codes "Content-Type", codes "application/x-protobuf" ∷ [])
          ∷ (codes "Grpc-Timeout", codes "5000m" ∷ [])
          ∷ (codes "K", codes "v" ∷ [])
          ∷ [];
      body = ok (codes "hi");
    })
unfolding write_request read_request text_eq is_name is_token clean_value add_line values append_at
    canonical parse_uint63 read_body unescape
read_back = refl

handled :
    handle_method contexts blank services plain_codec shouts server request ≡ returns (some reply)
unfolding handle_method service_and_method split_n find_unary_method context_from_headers
    as_metadata timeout_of get set canonical is_name is_token answer_headers values print lower
    insert to_headers
handled = rw read_back refl

request_length : length request ≡ 158
unfolding write_request text_eq is_name is_token clean_value
request_length = refl

busy-IsSendable : IsSendable contexts busy
unfolding lowered_option lower
busy-IsSendable md sends = subst (AllCarried []) (some-injective _ _ sends) (
  record {
    named = (unfold is_name is_token in refl);
    plain = λ text. (literal-IsValue (codes "v") (unfold is_solid in refl), tt);
  },
  tt,
)

sends :
    (ctx' : Plain)
    → apply_per_rpc_creds contexts no_credentials busy
        (get_call_options options)
        (codes "shm:0" ++ req_url (network remote) (full_name service_name method_name))
        true
      ≡ ok ctx'
    → (contexts.from_outgoing ctx' ≡ some metadata)
      × (contexts.until_deadline ctx' ≡ some (pos 5_000_000_000))
      × IsSendable contexts ctx'
unfolding apply_per_rpc_creds get_call_options lowered_option
sends ctx' allowed =
    let same : busy ≡ ctx' = cc in
    subst
      (λ x.
        (contexts.from_outgoing x ≡ some metadata)
        × (contexts.until_deadline x ≡ some (pos 5_000_000_000))
        × IsSendable contexts x)
      same ((unfold lower in refl), refl, busy-IsSendable)

metadata-AllMetadata : AllMetadata metadata
metadata-AllMetadata = (
  record {
    in_lower_case = unfold lower in refl;
    named = unfold is_name is_token in refl;
    bytes = ((omega arith, tt), tt);
  },
  tt,
)

abbrev answered :
    AnswersHere contexts blank no_credentials plain_codec services plain_codec shouts server request
      reply
answered =
    (handle_method_iff contexts blank services plain_codec shouts server request reply).0 handled

handler_context_lem_example : Continues contexts metadata (pos 5_000_000_000) answered.ctx
handler_context_lem_example =
    handler_context_lem contexts context_laws blank no_credentials plain_codec services plain_codec
      shouts server remote busy service_name method_name (codes "hi") (get_call_options options)
      metadata (pos 5_000_000_000) request reply service-IsSegment method-IsSegment service-IsPath
      method-IsPath refl sends (tt, tt) metadata-AllMetadata (omega arith) asked
      (omega (arith, request_length)) answered
