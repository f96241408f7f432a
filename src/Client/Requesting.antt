-- ===== src/Client/Requesting.antt =====
-- The text of a request for a method, and the path in it.
use notnets_grpc.Prelude.{
  ◌≡◌, refl, true, [], ◌∷◌, ◌++◌, ok, >>=-eq-ok, Option, some, none, ℤ, returns, All-append, arith,
}
use notnets_grpc.Http.Request.{write_request}
use notnets_grpc.Http.Fields.{all_bytes}
use notnets_grpc.Http.Url.{new_request, IsPath, literal-IsPath}
use notnets_grpc.Text.{Text, codes}
use notnets_grpc.Text.Decimal.{print}
use notnets_grpc.Dict.{Multi}
use notnets_grpc.Header.{set, is_name, is_token}
use notnets_grpc.Contexts.{Contexts}
use notnets_grpc.Timeout.{
  headers_from_context, outgoing_headers, set_timeout, timeout_text, timeout_name, millis,
}
use notnets_grpc.Http.Spaces.{IsValue, IsSolid, solid-IsValue, is_solid, literal-IsValue}
use notnets_grpc.Http.Fields.Written.{IsWritable}
use notnets_grpc.Http.Transfer.Keeping.{print-IsSolid}
use notnets_grpc.Http.Carrying.{AllCarried, to_headers-IsWritable, set-IsWritable}
use notnets_grpc.Routing.{slash, req_url, service_and_method}
use notnets_grpc.Routing.RoundTrip.{IsSegment, req_url_joined, service_and_method-url}
use notnets_grpc.Internal.CallOptions.{CallOptions, PerRpcCredentials, apply_per_rpc_creds}
use notnets_grpc.Http.{Codec, is_path_byte}
use notnets_grpc.Transport.{NotnetsAddr, network}
use notnets_grpc.Client.{content_type, request_text}

-- "/service/method"
abbrev pub full_name : Text → Text → Text
full_name service method = slash ∷ (service ++ slash ∷ method)

-- The path of a call without its first slash.
abbrev pub call_tail : Text → Text → Text
call_tail service method = codes "notnets" ++ slash ∷ (service ++ slash ∷ method)

pub call-IsPath :
    (service method : Text)
    → IsPath service
    → IsPath method
    → IsPath (slash ∷ call_tail service method)
call-IsPath service method hs hm =
    All-append (λ b. is_path_byte b ≡ true) (codes "/notnets/") (service ++ slash ∷ method)
      (literal-IsPath (codes "/notnets/") (unfold all_bytes in refl))
      (All-append (λ b. is_path_byte b ≡ true) service (slash ∷ method) hs (refl, hm))

notnets-IsSegment : IsSegment (codes "notnets")
notnets-IsSegment = record {
  some_byte = cc;
  no_slash = (
    omega arith,
    (omega arith, (omega arith, (omega arith, (omega arith, (omega arith, (omega arith, tt)))))),
  );
  not_dot = cc;
  not_dots = cc;
}

module _ (service method : Text) (ss : IsSegment service) (sm : IsSegment method) where
  pub req_url_call :
      (remote : NotnetsAddr)
      → req_url (network remote) (full_name service method) ≡ slash ∷ call_tail service method
  req_url_call remote = req_url_joined (codes "notnets") service method notnets-IsSegment ss sm

  pub routed_call :
      service_and_method (slash ∷ call_tail service method) ≡ returns (service, method)
  routed_call = service_and_method-url (codes "notnets") service method notnets-IsSegment ss sm

-- The header of a request in a context.
abbrev pub request_header : (c : Contexts) → c.Context → Multi
request_header c ctx = set (codes "Content-Type") content_type (headers_from_context c ctx)

-- A context whose outgoing metadata can be written as headers.
abbrev pub IsSendable : (c : Contexts) → c.Context → Type 0
IsSendable c ctx = (md : Multi) → c.from_outgoing ctx ≡ some md → AllCarried [] md

blank-IsWritable : IsWritable []
blank-IsWritable = record { map = tt; entries = tt }

outgoing_headers-IsWritable :
    (o : Option Multi)
    → ((md : Multi) → o ≡ some md → AllCarried [] md)
    → IsWritable (outgoing_headers o)
unfolding outgoing_headers
outgoing_headers-IsWritable none h = blank-IsWritable
outgoing_headers-IsWritable (some md) h =
    to_headers-IsWritable [] md [] (h md refl) blank-IsWritable

timeout_text-IsValue : (t : ℤ) → IsValue (timeout_text t)
unfolding timeout_text
timeout_text-IsValue t = solid-IsValue (print (millis t) ++ b'm' ∷ []) (
    All-append IsSolid (print (millis t)) (b'm' ∷ []) (print-IsSolid (millis t)) ((refl, refl), tt))

set_timeout-IsWritable : (o : Option ℤ) (h : Multi) → IsWritable h → IsWritable (set_timeout o h)
unfolding set_timeout
set_timeout-IsWritable none h w = w
set_timeout-IsWritable (some t) h w =
    set-IsWritable timeout_name (timeout_text t) h (timeout_text-IsValue t)
      (unfold is_name is_token in refl) w

pub content_type-IsValue : IsValue content_type
content_type-IsValue = literal-IsValue content_type (unfold is_solid in refl)

pub request_header-IsWritable :
    (c : Contexts) (ctx : c.Context) → IsSendable c ctx → IsWritable (request_header c ctx)
unfolding headers_from_context
request_header-IsWritable c ctx sendable =
    set-IsWritable (codes "Content-Type") content_type (headers_from_context c ctx)
      content_type-IsValue (unfold is_name is_token in refl)
      (set_timeout-IsWritable (c.until_deadline ctx) _
        (outgoing_headers-IsWritable (c.from_outgoing ctx) sendable))

module _ {C A B : Type 0} (c : Contexts) (api : PerRpcCredentials c.Context C)
    (codec : Codec A B) where
  -- How the text of a request comes about.
  pub record IsRequest (remote : NotnetsAddr) (ctx : c.Context) (method_name : Text) (req : A)
      (copts : CallOptions C) (text : Text) : Type 0 where
    pub context : c.Context
    pub payload : Text
    pub uri : Text
    pub allowed :
        apply_per_rpc_creds c api ctx copts
          (codes "shm:0" ++ req_url (network remote) method_name)
          true
        ≡ ok context
    pub marshalled : codec.marshal req ≡ ok payload
    pub parsed : new_request (req_url (network remote) method_name) ≡ ok uri
    pub written : text ≡ write_request uri (request_header c context) payload

  pub request_text-IsRequest :
      (remote : NotnetsAddr) (ctx : c.Context) (method_name : Text) (req : A)
      (copts : CallOptions C) (text : Text)
      → request_text c api codec remote ctx method_name req copts ≡ ok text
      → IsRequest remote ctx method_name req copts text
  unfolding request_text
  request_text-IsRequest remote ctx method_name req copts text h =
      let (ctx', allowed, h1) =
        >>=-eq-ok
          (apply_per_rpc_creds c api ctx copts
            (codes "shm:0" ++ req_url (network remote) method_name) true)
          _ h in
      let (payload, marshalled, h2) = >>=-eq-ok (codec.marshal req) _ h1 in
      let (uri, parsed, h3) = >>=-eq-ok (new_request (req_url (network remote) method_name)) _ h2 in
      record {
        payload = payload;
        uri = uri;
        context = ctx';
        allowed = allowed;
        marshalled = marshalled;
        parsed = parsed;
        written = cc;
      }
