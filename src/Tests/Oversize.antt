-- ===== src/Tests/Oversize.antt =====
-- A request and a reply with a body of 5000 bytes.
use notnets_grpc.Prelude.{
  ok-injective, ℕ, ◌+◌, ◌<◌, ◌≤◌, ◌≡◌, ◌≢◌, refl, sym, subst, ◌++◌, ok, returns, length, replicate,
  length-replicate, arith, true, some,
}
use notnets_grpc.Text.{Text, codes, text_eq}
use notnets_grpc.Text.Decimal.{print}
use notnets_grpc.Dict.{insert}
use notnets_grpc.Header.{set, canonical, is_name, is_token}
use notnets_grpc.Routing.{segments, resolve, render, req_url}
use notnets_grpc.Timeout.{headers_from_context}
use notnets_grpc.Internal.CallOptions.{get_call_options, apply_per_rpc_creds}
use notnets_grpc.Http.{buffer_size}
use notnets_grpc.Http.Url.{new_request, unescape, is_valid_encoded}
use notnets_grpc.Http.Fields.{cut, all_bytes}
use notnets_grpc.Http.Fields.Reading.{block_length}
use notnets_grpc.Http.Messages.{head_length, length-message}
use notnets_grpc.Http.Spaces.{clean_value}
use notnets_grpc.Http.Request.{write_request, request_fields, request_line}
use notnets_grpc.Transport.{network}
use notnets_grpc.Server.Handling.{handle_method}
use notnets_grpc.Client.{request_text}
use notnets_grpc.Client.Requesting.{full_name}
use notnets_grpc.Client.Limits.{IsHeadShort, long_request_lem}
use notnets_grpc.Tests.World.{Plain, contexts, blank, lowered_option}
use notnets_grpc.Tests.Loopback.{
  content_types, service_name, method_name, service-IsSegment, method-IsSegment, service-IsPath,
  method-IsPath, services, server, plain_codec, shouts, remote, no_credentials, options,
}
use notnets_grpc.Tests.Rpc.{blank-IsSendable}

abbrev pub body : Text
body = replicate 5000 b'x'

abbrev long_request : Text
long_request = write_request (codes "/notnets/a.S/M") content_types body

asked :
    request_text contexts no_credentials plain_codec remote blank
      (full_name service_name method_name)
      body
      (get_call_options options)
    ≡ ok long_request
unfolding request_text apply_per_rpc_creds get_call_options req_url segments resolve render
    new_request cut all_bytes unescape is_valid_encoded set canonical is_name is_token
    headers_from_context insert lowered_option
asked = refl

header-is :
    set
      (codes "Content-Type")
      (codes "application/x-protobuf")
      (headers_from_context contexts blank)
    ≡ content_types
unfolding headers_from_context lowered_option set canonical is_name is_token insert
header-is = refl

head-is :
    head_length (request_line (codes "/notnets/a.S/M")) (request_fields content_types body) ≡ 132
unfolding request_fields text_eq is_name is_token clean_value print block_length
head-is = refl

blank-IsHeadShort : IsHeadShort contexts service_name method_name blank body
blank-IsHeadShort = record {
  sendable = blank-IsSendable;
  small = omega (arith, length-replicate {A = ℕ} 5000 b'x');
  fits =
      subst
        (λ h.
          head_length (request_line (codes "/notnets/a.S/M")) (request_fields h body) ≤ buffer_size)
        (sym header-is) (omega (arith, head-is));
}

head_short :
    (ctx' : Plain) (payload : Text)
    → apply_per_rpc_creds contexts no_credentials blank
        (get_call_options options)
        (codes "shm:0" ++ req_url (network remote) (full_name service_name method_name))
        true
      ≡ ok ctx'
    → plain_codec.marshal body ≡ ok payload
    → IsHeadShort contexts service_name method_name ctx' payload
unfolding apply_per_rpc_creds get_call_options
head_short ctx' payload allowed marshalled =
    let same : blank ≡ ctx' = cc in
    let same_body : body ≡ payload = ok-injective body payload marshalled in
    subst (λ x. IsHeadShort contexts service_name method_name x payload) same
      (subst (IsHeadShort contexts service_name method_name blank) same_body blank-IsHeadShort)

sized :
    length long_request
    ≡ head_length (request_line (codes "/notnets/a.S/M")) (request_fields content_types body)
      + length body
unfolding write_request
sized =
    length-message (request_line (codes "/notnets/a.S/M")) (request_fields content_types body) body

is_long : buffer_size < length long_request
is_long = omega (arith, sized, head-is, length-replicate {A = ℕ} 5000 b'x')

long_request_lem_example :
    handle_method contexts blank services plain_codec shouts server long_request
    ≢ returns (some (codes "hi!"))
long_request_lem_example =
    long_request_lem contexts blank no_credentials plain_codec services plain_codec shouts server
      remote blank service_name method_name body (get_call_options options) long_request
      service-IsSegment method-IsSegment service-IsPath method-IsPath head_short asked is_long
      (codes "hi!")
