-- ===== src/Client/Decoding.antt =====
-- The headers of a request can be decoded, and a context made of headers that can be.
use notnets_grpc.Prelude.{◌≡◌, refl, [], Option, some, none, ok, ℤ}
use notnets_grpc.Text.{codes, lower}
use notnets_grpc.Dict.{Multi}
use notnets_grpc.Contexts.{Contexts}
use notnets_grpc.Metadata.{is_binary, decode_value}
use notnets_grpc.Metadata.Gather.{IsDecodable, as_metadata_total}
use notnets_grpc.Metadata.RoundTrip.{AllMetadata, AllMetadata-travel, to_headers-IsDecodable}
use notnets_grpc.Metadata.Setting.{set-IsDecodable}
use notnets_grpc.Timeout.{
  timeout_name, timeout_text, set_timeout, outgoing_headers, headers_from_context,
  context_from_headers,
}
use notnets_grpc.Client.{content_type}
use notnets_grpc.Client.Requesting.{request_header}

outgoing-IsDecodable :
    (o : Option Multi)
    → ((md : Multi) → o ≡ some md → AllMetadata md)
    → IsDecodable (outgoing_headers o)
unfolding outgoing_headers
outgoing-IsDecodable none h = tt
outgoing-IsDecodable (some md) h =
    to_headers-IsDecodable [] md [] (AllMetadata-travel md (h md refl)) tt

set_timeout-IsDecodable : (o : Option ℤ) (h : Multi) → IsDecodable h → IsDecodable (set_timeout o h)
unfolding set_timeout
set_timeout-IsDecodable none h d = d
set_timeout-IsDecodable (some t) h d =
    set-IsDecodable timeout_name (timeout_text t) h
      (timeout_text t, (unfold decode_value is_binary lower in refl)) d

pub request_header-IsDecodable :
    (c : Contexts) (ctx : c.Context)
    → ((md : Multi) → c.from_outgoing ctx ≡ some md → AllMetadata md)
    → IsDecodable (request_header c ctx)
unfolding headers_from_context
request_header-IsDecodable c ctx h =
    set-IsDecodable (codes "Content-Type") content_type (headers_from_context c ctx)
      (content_type, (unfold decode_value is_binary lower in refl))
      (set_timeout-IsDecodable (c.until_deadline ctx) _
        (outgoing-IsDecodable (c.from_outgoing ctx) h))

pub context_total :
    (c : Contexts) (parent : c.Context) (h : Multi)
    → IsDecodable h
    → (ctx : c.Context) × (context_from_headers c parent h ≡ ok ctx)
unfolding context_from_headers
context_total c parent h d = let (md, e) = as_metadata_total h d in rw e (_, refl)
