-- ===== src/Client/Arriving.antt =====
-- What the server's ReadRequest gives of the text that Invoke writes.
use notnets_grpc.Prelude.{
  ℕ, ◌+◌, ◌^◌, ◌<◌, ◌≤◌, ◌≡◌, sym, ap, subst, ◌∙◌, true, ◌∷◌, ok, err, length, arith, leb,
  if◌then◌else◌,
}
use notnets_grpc.Text.{Text}
use notnets_grpc.Dict.{Multi}
use notnets_grpc.Contexts.{Contexts}
use notnets_grpc.Routing.{slash}
use notnets_grpc.Routing.RoundTrip.{IsSegment}
use notnets_grpc.Internal.CallOptions.{CallOptions, PerRpcCredentials}
use notnets_grpc.Http.{Codec, Received, buffer_size}
use notnets_grpc.Http.Fields.{is_excluded}
use notnets_grpc.Http.Url.{new_request, IsPath, new_request_path}
use notnets_grpc.Http.Transfer.{unexpected_eof}
use notnets_grpc.Http.Transfer.Keeping.{Keeps}
use notnets_grpc.Http.Messages.{head_length, length-message}
use notnets_grpc.Http.Request.{request_line, request_fields, write_request, read_request}
use notnets_grpc.Http.Request.RoundTrip.{request_touched, read-write_request}
use notnets_grpc.Transport.{NotnetsAddr}
use notnets_grpc.Client.Requesting.{
  IsRequest, IsSendable, full_name, call_tail, call-IsPath, req_url_call, request_header,
  request_header-IsWritable,
}

-- How long a request for a method is without its body.
abbrev pub request_head : (c : Contexts) → Text → Text → c.Context → Text → ℕ
request_head c service method ctx payload =
    head_length (request_line (slash ∷ call_tail service method))
      (request_fields (request_header c ctx) payload)

-- A request as the server reads it: the body is there if the text fits into the reader's buffer.
pub record Arrived (c : Contexts) (service method : Text) (ctx : c.Context) (payload text : Text)
    : Type 0 where
  pub header : Multi
  pub read :
      read_request text
      ≡ ok (record {
        request_uri = slash ∷ call_tail service method;
        header = header;
        body = if leb (length text) buffer_size then ok payload else err unexpected_eof;
      })
  pub kept : Keeps (λ j. is_excluded request_touched j ≡ true) (request_header c ctx) header

-- What is read of a request that fits into the buffer.
pub arrival_read :
    (c : Contexts) (service method : Text) (ctx : c.Context) (payload text : Text)
    (arrival : Arrived c service method ctx payload text)
    → length text ≤ buffer_size
    → (request : Received) → read_request text ≡ ok request
    → request ≡ record {
      request_uri = slash ∷ call_tail service method;
      header = arrival.header;
      body = ok payload;
    }
arrival_read c service method ctx payload text arrival short request readable =
    let in_buffer : leb (length text) buffer_size ≡ true = ground (arith, short) in
    let read : read_request text
        ≡ ok (record {
          request_uri = slash ∷ call_tail service method;
          header = arrival.header;
          body = ok payload;
        }) =
      arrival.read
      ∙ ap
          (λ b. ok (record {
            request_uri = slash ∷ call_tail service method;
            header = arrival.header;
            body = if b then ok payload else err unexpected_eof;
          }))
          in_buffer in
    cc

module _ {C A B : Type 0} (c : Contexts) (api : PerRpcCredentials c.Context C) (codec : Codec A B)
    (remote : NotnetsAddr) (service method : Text) (ctx : c.Context) (req : A)
    (copts : CallOptions C) (text : Text) (ss : IsSegment service) (sm : IsSegment method)
    (ps : IsPath service) (pm : IsPath method)
    (r : IsRequest c api codec remote ctx (full_name service method) req copts text) where
  request_written :
      text ≡ write_request (slash ∷ call_tail service method) (request_header c r.context) r.payload
  request_written =
      let parsed : new_request (slash ∷ call_tail service method) ≡ ok r.uri =
        ap new_request (sym (req_url_call service method ss sm remote)) ∙ r.parsed in
      let clean =
        new_request_path (slash ∷ call_tail service method) (call-IsPath service method ps pm) in
      let written = r.written in cc

  length-request :
      length text ≡ request_head c service method r.context r.payload + length r.payload
  length-request =
      ap length request_written
      ∙ (unfold write_request in
          length-message (request_line (slash ∷ call_tail service method))
            (request_fields (request_header c r.context) r.payload) r.payload)

  pub request-Arrived :
      IsSendable c r.context
      → length r.payload < 2 ^ 63
      → request_head c service method r.context r.payload ≤ buffer_size
      → Arrived c service method r.context r.payload text
  request-Arrived sendable small fits =
      let (header', read, kept) =
        read-write_request (call_tail service method) (request_header c r.context) r.payload
          (call-IsPath service method ps pm) (request_header-IsWritable c r.context sendable) small
          fits in
      record {
        header = header';
        read =
            subst
              (λ t.
                read_request t
                ≡ ok (record {
                  request_uri = slash ∷ call_tail service method;
                  header = header';
                  body = if leb (length t) buffer_size then ok r.payload else err unexpected_eof;
                }))
              (sym request_written) read;
        kept = kept;
      }

  -- A request that fits into the buffer arrives whole.
  pub short-Arrived :
      IsSendable c r.context
      → length text ≤ buffer_size
      → Arrived c service method r.context r.payload text
  short-Arrived sendable short =
      request-Arrived sendable (omega (arith, length-request, short))
        (omega (arith, length-request, short))
