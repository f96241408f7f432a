-- ===== src/Client/Propagating.antt =====
-- The context that a handler gets, against the one that the client's request was made in.
use notnets_grpc.Prelude.{
  ℕ, ◌≡◌, ◌≢◌, ◌≤◌, refl, sym, ap, subst, ◌∙◌, true, false, List, [], ◌∷◌, ◌++◌, map, arith, Option,
  some, none, ok, ℤ, pos, length, >>=-eq-ok, if◌then◌else◌,
}
use notnets_grpc.Text.{Text, codes, text_eq, lower}
use notnets_grpc.Dict.{Multi, values}
use notnets_grpc.Dict.Laws.{IsMap}
use notnets_grpc.Header.{get, canonical, is_name, is_token}
use notnets_grpc.Contexts.{Contexts, ContextLaws}
use notnets_grpc.Metadata.{is_reserved, as_metadata}
use notnets_grpc.Metadata.Gather.{meaning, gather, values-as_metadata}
use notnets_grpc.Metadata.Travel.{IsHeader}
use notnets_grpc.Metadata.RoundTrip.{AllMetadata}
use notnets_grpc.Metadata.Setting.{get-set, set-IsHeader, gather-set}
use notnets_grpc.Metadata.Split.{as_metadata-IsLowerMap}
use notnets_grpc.Timeout.{
  timeout_name, timeout_text, timeout_of, headers_from_context, context_from_headers,
}
use notnets_grpc.Timeout.RoundTrip.{IsInt64, Serves, timeout_of-timeout_text}
use notnets_grpc.Timeout.Propagation.{
  timeout_key, plain-IsHeader, client_headers, gather-client_headers,
}
use notnets_grpc.Http.Fields.{is_excluded}
use notnets_grpc.Http.Fields.Listing.{gather-values, excluded-canonical}
use notnets_grpc.Http.Request.RoundTrip.{request_touched}
use notnets_grpc.Server.Handling.Sending.{values-set}
use notnets_grpc.Routing.{req_url}
use notnets_grpc.Routing.RoundTrip.{IsSegment}
use notnets_grpc.Internal.CallOptions.{CallOptions, PerRpcCredentials, apply_per_rpc_creds}
use notnets_grpc.Services.{HandlerMap}
use notnets_grpc.Http.{Codec, buffer_size}
use notnets_grpc.Http.Url.{IsPath}
use notnets_grpc.Transport.{NotnetsAddr, network}
use notnets_grpc.Server.{NotnetsServer}
use notnets_grpc.Server.Handling.{Served}
use notnets_grpc.Client.{content_type, request_text}
use notnets_grpc.Client.Requesting.{request_header, IsSendable, full_name, request_text-IsRequest}
use notnets_grpc.Client.Arriving.{Arrived}
use notnets_grpc.Client.Matching.{get_of_values, AnswersHere, arrived, request_received}

-- The names that a request's header has of its own, or loses.
abbrev pub request_own : List Text
request_own = codes "Content-Type" ∷ timeout_name ∷ request_touched

-- A key in lower case that is not one of those.
pub record IsSentKey (j : Text) : Type 0 where
  pub low : lower j ≡ j
  pub free : is_excluded (map lower request_own) j ≡ false

-- What the handler's context holds of metadata `md` and `t` left of a deadline.
pub record Continues (c : Contexts) (md : Multi) (t : ℤ) (ctx : c.Context) : Type 0 where
  pub incoming : Multi
  pub has_incoming : c.from_incoming ctx ≡ some incoming
  pub same_values :
      (j : Text) → IsSentKey j → values j incoming ≡ (if is_reserved j then [] else values j md)
  pub timeout : ℕ
  pub has_deadline : c.until_deadline ctx ≡ some (pos timeout)
  pub serves : Serves t timeout

context_of_parts :
    (c : Contexts) (parent : c.Context) (h got : Multi) (d : ℕ)
    → as_metadata h ≡ ok got
    → timeout_of (get timeout_name h) ≡ some (pos d)
    → context_from_headers c parent h ≡ ok (c.with_timeout (c.new_incoming parent got) (pos d))
unfolding context_from_headers
context_of_parts c parent h got d e timed = rw (e, timed) refl

not_timeout : (j : Text) → IsSentKey j → j ≢ timeout_key
not_timeout j k e =
    let free = k.free in
    let same : is_excluded (map lower request_own) timeout_key ≡ true =
      (unfold is_excluded text_eq lower in refl) in
    cc

timeout_untouched : is_excluded request_touched (canonical timeout_name) ≡ true → ⊥
timeout_untouched h =
    let free : is_excluded request_touched (canonical timeout_name) ≡ false =
      (unfold is_excluded text_eq canonical is_name is_token in refl) in
    cc

module _ (c : Contexts) (laws : ContextLaws c) (background ctx ctx' : c.Context) (md : Multi)
    (t : ℤ) (service method payload text : Text) (sends : c.from_outgoing ctx ≡ some md)
    (ends : c.until_deadline ctx ≡ some t) (small : IsInt64 t)
    (free : c.until_deadline background ≡ none) (is_map : IsMap md) (legal : AllMetadata md)
    (arrived : Arrived c service method ctx payload text)
    (decoded : context_from_headers c background arrived.header ≡ ok ctx') where
  headers-IsHeader : IsHeader (headers_from_context c ctx)
  headers-IsHeader =
      subst IsHeader
        (sym (client_headers c laws ctx background md t sends ends small free is_map legal))
        (set-IsHeader timeout_name (timeout_text t) _ (unfold is_name is_token in refl)
          (plain-IsHeader c laws ctx background md t sends ends small free is_map legal))

  request_header-IsHeader : IsHeader (request_header c ctx)
  request_header-IsHeader =
      set-IsHeader (codes "Content-Type") content_type (headers_from_context c ctx)
        (unfold is_name is_token in refl) headers-IsHeader

  -- The client's header and the server's agree on such a key.
  gather-arrived :
      (j : Text)
      → IsSentKey j
      → gather j arrived.header ≡ (if is_reserved j then [] else values j md)
  unfolding is_excluded
  gather-arrived j k =
      let untouched = excluded-canonical request_own j k.low k.free in
      let other : text_eq (lower (codes "Content-Type")) j ≡ false = ground (arith, k.free) in
      gather-values j arrived.header arrived.kept.in_form k.low
      ∙ ap (map (meaning j))
          (arrived.kept.same_values (canonical j) (λ e. ground (arith, e, untouched)))
      ∙ sym (gather-values j (request_header c ctx) request_header-IsHeader k.low)
      ∙ gather-set (codes "Content-Type") content_type (headers_from_context c ctx)
          (unfold is_name is_token in refl) headers-IsHeader j
      ∙ rw (other, client_headers c laws ctx background md t sends ends small free is_map legal)
          (gather-client_headers c laws ctx background md t sends ends small free is_map legal j
            (not_timeout j k))

  get-timeout : get timeout_name arrived.header ≡ timeout_text t
  get-timeout =
      get_of_values timeout_name arrived.header (request_header c ctx)
        (arrived.kept.same_values (canonical timeout_name) (λ e. timeout_untouched e))
      ∙ get_of_values timeout_name (request_header c ctx) (headers_from_context c ctx) (
          values-set (canonical timeout_name) (codes "Content-Type") content_type
            (headers_from_context c ctx) (unfold canonical is_name is_token in refl)
            (unfold canonical is_name is_token text_eq in refl))
      ∙ ap (get timeout_name)
          (client_headers c laws ctx background md t sends ends small free is_map legal)
      ∙ get-set timeout_name (timeout_text t) _

  -- The handler's context has the metadata of the request's, except under reserved names and those
  -- that a request uses itself, and as its timeout what was left of the deadline, rounded down to
  -- milliseconds and not below one.
  pub context-Continues : Continues c md t ctx'
  unfolding context_from_headers
  context-Continues =
      let (got, e, _) = >>=-eq-ok (as_metadata arrived.header) _ decoded in
      let (d, timed, serves) = timeout_of-timeout_text t small in
      let inner : c.Context = c.new_incoming background got in
      let timeout_set : ok ctx' ≡ ok (c.with_timeout inner (pos d)) =
        sym decoded
        ∙ context_of_parts c background arrived.header got d e
            (ap timeout_of get-timeout ∙ timed) in
      let same : ctx' ≡ c.with_timeout inner (pos d) = cc in
      subst (Continues c md t) (sym same) (record {
        incoming = got;
        has_incoming =
            laws.from_incoming-with_timeout inner (pos d)
            ∙ laws.from-new_incoming background got (as_metadata-IsLowerMap _ got e).low;
        same_values = λ j k. values-as_metadata _ got e j ∙ gather-arrived j k;
        timeout = d;
        has_deadline =
            laws.until-with_timeout inner (pos d) (laws.until-new_incoming background got ∙ free);
        serves = serves;
      })

module _ {C A B I M H Q R : Type 0} (c : Contexts) (laws : ContextLaws c) (background : c.Context)
    (api : PerRpcCredentials c.Context C) (codec : Codec A B) (map : HandlerMap M H)
    (server_codec : Codec R Q) (call_handler : Option I → H → Text → c.Context → Text → Served R)
    (s : NotnetsServer I M) where
  -- A request of at most 4096 bytes, made in a context with metadata that can be written as headers
  -- and with a deadline: the handler that answers it runs in a context that has the same metadata,
  -- except under reserved names and those that a request uses itself, and as its timeout what was
  -- left of the deadline, rounded down to milliseconds and not below one.
  pub handler_context_lem :
      (remote : NotnetsAddr) (ctx : c.Context) (service method : Text) (req : A)
      (copts : CallOptions C) (md : Multi) (t : ℤ) (text reply : Text)
      → IsSegment service
      → IsSegment method
      → IsPath service
      → IsPath method
      → c.until_deadline background ≡ none
      → ((ctx' : c.Context)
          → apply_per_rpc_creds c api ctx copts
              (codes "shm:0" ++ req_url (network remote) (full_name service method))
              true
            ≡ ok ctx'
          → (c.from_outgoing ctx' ≡ some md) × (c.until_deadline ctx' ≡ some t) × IsSendable c ctx')
      → IsMap md
      → AllMetadata md
      → IsInt64 t
      → request_text c api codec remote ctx (full_name service method) req copts ≡ ok text
      → length text ≤ buffer_size
      → (a : AnswersHere c background api codec map server_codec call_handler s text reply)
      → Continues c md t a.ctx
  handler_context_lem remote ctx service method req copts md t text reply ss sm ps pm free sends
        is_map legal small asked short a =
      let r =
        request_text-IsRequest c api codec remote ctx (full_name service method) req copts text
          asked in
      let (outgoing, ends, sendable) = sends r.context r.allowed in
      let arrival =
        arrived c background api codec map server_codec call_handler s remote service method ctx req
          copts text reply ss sm ps pm r sendable short in
      let received =
        request_received c background api codec map server_codec call_handler s remote service
          method ctx req copts text reply ss sm ps pm r sendable short a in
      context-Continues c laws background r.context a.ctx md t service method r.payload text
        outgoing ends small free is_map legal arrival
        (ap (λ q. context_from_headers c background q.header) (sym received) ∙ a.decoded)
