-- ===== src/Client/Calling.antt =====
-- A call from the client's Invoke to the server's handler and back.
use notnets_grpc.Prelude.{
  ℕ, ◌≡◌, ◌≤◌, refl, ap, ◌∙◌, true, List, ◌++◌, Option, some, ok, returns, length,
}
use notnets_grpc.Text.{Text, codes}
use notnets_grpc.Contexts.{Contexts}
use notnets_grpc.Routing.{req_url}
use notnets_grpc.Routing.RoundTrip.{IsSegment}
use notnets_grpc.Internal.CallOptions.{
  CallOption, get_call_options, Store, PerRpcCredentials, apply_per_rpc_creds,
}
use notnets_grpc.Internal.TransportStream.{or_empty, get_headers, get_trailers}
use notnets_grpc.Services.{HandlerMap}
use notnets_grpc.Http.{Codec, buffer_size}
use notnets_grpc.Http.Url.{IsPath}
use notnets_grpc.Shm.{Library}
use notnets_grpc.Transport.{NotnetsAddr, network}
use notnets_grpc.Server.{NotnetsServer}
use notnets_grpc.Server.Handling.{Served, handle_method}
use notnets_grpc.Server.Handling.Answers.{handle_method_iff}
use notnets_grpc.Client.{
  NotnetsChannel, exchange, request_text, with_body, with_metadata, read_reply, with_text,
  with_remote, invoke,
}
use notnets_grpc.Client.Requesting.{IsSendable, full_name, request_text-IsRequest}
use notnets_grpc.Client.Receiving.{Obtained}
use notnets_grpc.Client.Matching.{
  AnswersHere, stream_after, IsLegal, Same, request-Same, answer_arrives,
}

module _ {C A B I M H Q R : Type 0} (c : Contexts) (background : c.Context)
    (api : PerRpcCredentials c.Context C) (codec : Codec A B) (map : HandlerMap M H)
    (server_codec : Codec R Q) (call_handler : Option I → H → Text → c.Context → Text → Served R)
    (s : NotnetsServer I M) where
  -- How a call ends for the client, given the answer that the server sent.
  pub record Ends {P : Type 0} (service method : Text) (req : A) (opts : List (CallOption C))
      (st : Store P) (text reply : Text)
      (a : AnswersHere c background api codec map server_codec call_handler s text reply)
      (st' : Store P) : Type 0 where
    pub same :
        Same c background api codec map server_codec call_handler s service method req text reply a
    pub obtained :
        Obtained
          (or_empty (get_headers (stream_after c call_handler s method a.md.handler a.ctx a.req)))
          (or_empty (get_trailers (stream_after c call_handler s method a.md.handler a.ctx a.req)))
          (get_call_options opts)
          st
          st'

  -- A call whose answer arrives. If Invoke gets as far as to write a request of at most 4096 bytes for
  -- the method "/service/method", in a context whose metadata can be written as headers, if the
  -- server answers that text, in at most 4096 bytes, the handler sets metadata that reach a client,
  -- and the answer is what the exchange over the queues reads, then Invoke returns the reply's
  -- payload, unmarshalled: of the reply that the handler registered for this service and this method
  -- gave to exactly the request that the client marshalled. The variables that the call options name
  -- obtain the header and trailer metadata that this handler set. Service and method are names
  -- without a slash, of bytes that a path shows as they are.
  pub invoke_lem :
      {P W : Type 0} (lib : Library W) (fuel : ℕ) (ch : NotnetsChannel) (remote : NotnetsAddr)
      (ctx : c.Context) (service method : Text) (req : A) (opts : List (CallOption C))
      (st : Store P) (text reply : Text) (w w' : W)
      → IsSegment service
      → IsSegment method
      → IsPath service
      → IsPath method
      → ch.conn.remote_addr ≡ some remote
      → ((ctx' : c.Context)
          → apply_per_rpc_creds c api ctx
              (get_call_options opts)
              (codes "shm:0" ++ req_url (network remote) (full_name service method))
              true
            ≡ ok ctx'
          → IsSendable c ctx')
      → IsLegal c background api codec map server_codec call_handler s method text reply
      → request_text c api codec remote ctx (full_name service method) req (get_call_options opts)
        ≡ ok text
      → length text ≤ buffer_size
      → handle_method c background map server_codec call_handler s text ≡ returns (some reply)
      → length reply ≤ buffer_size
      → exchange lib fuel ch text w ≡ returns (reply, w')
      → (a : AnswersHere c background api codec map server_codec call_handler s text reply)
        × (st' : Store P) × (invoke c api codec lib fuel ch ctx
              (full_name service method)
              req
              opts
              st
              w
            ≡ returns (codec.unmarshal a.payload, st', w'))
        × Ends service method req opts st text reply a st'
  unfolding invoke with_remote with_text read_reply with_body with_metadata
  invoke_lem lib fuel ch remote ctx service method req opts st text reply w w' ss sm ps pm far
        sendable legal asked short_text handled short_reply delivered =
      let a =
        (handle_method_iff c background map server_codec call_handler s text reply).0 handled in
      let copts = get_call_options opts in
      let r =
        request_text-IsRequest c api codec remote ctx (full_name service method) req copts text
          asked in
      let same =
        request-Same c background api codec map server_codec call_handler s remote service method
          ctx req copts text reply ss sm ps pm r (sendable r.context r.allowed) short_text a in
      let (header, read, st', gathered, obtained) =
        answer_arrives c background api codec map server_codec call_handler s method text reply
          copts st a same.same_method same.typed legal short_reply in
      (
        a,
        st',
        ap
              (λ o.
                with_remote c api codec lib fuel ch o ctx (full_name service method) req copts st w)
              far
            ∙ ap (λ t. with_text c api codec lib fuel ch copts st t w) asked
            ∙ rw (delivered, read, gathered) refl,
        record { same = same; obtained = obtained },
      )
