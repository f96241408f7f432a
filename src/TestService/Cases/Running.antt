-- ===== src/TestService/Cases/Running.antt =====
-- testUnary of channel_tests_service/channel_test_cases.go over a channel that is connected to a
-- server with Unary of channel_tests_service/test_service.go.
use notnets_grpc.Prelude.{
  ℕ, ◌≡◌, refl, sym, ap, subst, ◌∙◌, true, false, List, [], ◌∷◌, Option, none, some, ok, returns,
  All-map, ◌==◌,
}
use mathlib.Core.Option.{some-injective}
use notnets_grpc.Text.{Text, text_eq_refl}
use notnets_grpc.Dict.{lookup}
use notnets_grpc.Contexts.{Contexts, ContextLaws}
use notnets_grpc.Metadata.RoundTrip.{AllMetadata}
use notnets_grpc.Http.Carrying.{AllCarried}
use notnets_grpc.Timeout.{context_from_headers}
use notnets_grpc.Http.{Codec}
use notnets_grpc.Shm.{Library}
use notnets_grpc.Transport.{NotnetsAddr}
use notnets_grpc.Internal.CallOptions.{
  CallOption, header, trailer, Store, assign, get_call_options, PerRpcCredentials,
  apply_per_rpc_creds,
}
use notnets_grpc.Internal.TransportStream.{new_stream, or_empty, get_headers, get_trailers}
use notnets_grpc.Internal.TransportStream.History.{run}
use notnets_grpc.Services.{HandlerMap, MethodDesc}
use notnets_grpc.Server.{NotnetsServer}
use notnets_grpc.Server.Handling.{Served}
use notnets_grpc.Server.Handling.Sending.{IsAnswerable}
use notnets_grpc.Client.{NotnetsChannel}
use notnets_grpc.Client.Arriving.{Arrived}
use notnets_grpc.Client.Matching.{stream_after}
use notnets_grpc.Client.Receiving.{Obtained}
use notnets_grpc.Client.Direct.{direct, IsConnected, IsCallable}
use notnets_grpc.Client.Echoing.{Carries, context-Carries}
use notnets_grpc.Client.Refining.{invoke_refines}
use notnets_grpc.TestService.{Message, metadata_new, as_map, reply_message}
use notnets_grpc.TestService.Handlers.{unary, or_nil}
use notnets_grpc.TestService.Handlers.Calls.{metadata_new-IsMap}
use notnets_grpc.TestService.Cases.{
  TestData, request_prototype, check_reply, test_service, unary_name, unary_stub, test_unary,
}
use notnets_grpc.TestService.Cases.Passing.{
  IsTestData, Unmarshalled, unary_calls, headers_echoed, headers_obtained, trailers_obtained,
}
use notnets_grpc.TestService.Cases.Served.{
  test_context, request_sent, IsServed, service-IsSegment, name-IsSegment, service-IsPath,
  name-IsPath,
}

module _ {C I M H Q : Type 0} (c : Contexts) (background : c.Context)
    (api : PerRpcCredentials c.Context C) (codec : Codec Message Message) (map : HandlerMap M H)
    (server_codec : Codec (Option Message) Q)
    (call_handler : Option I → H → Text → c.Context → Text → Served (Option Message))
    (s : NotnetsServer I M) (d : TestData) where
  module _ (laws : ContextLaws c) (good : IsTestData d) (md : MethodDesc H) (payload : Text)
      (k : IsServed c background api codec map server_codec call_handler s d md payload) where
    sent : c.from_outgoing (test_context c background d) ≡ some (metadata_new d.outgoing [])
    sent =
        laws.from-new_outgoing background (metadata_new d.outgoing [])
          (All-map (λ e h. h.in_lower_case) (metadata_new d.outgoing []) good.outgoing_metadata)

    same_calls :
        (ctx : c.Context)
        → (call_handler s.interceptor md.handler unary_name ctx payload).calls ≡ unary_calls d
    same_calls ctx = ap (λ r. r.calls) (k.served ctx) ∙ (unfold unary in refl)

    callable :
        IsCallable c background api codec map server_codec call_handler s test_service unary_name
          (test_context c background d)
          md
          payload
    callable = record {
      sendable =
          λ m e. subst (AllCarried []) (some-injective _ _ (sym sent ∙ e)) good.outgoing_carried;
      metadata =
          λ m e. subst AllMetadata (some-injective _ _ (sym sent ∙ e)) good.outgoing_metadata;
      sd = k.sd;
      registered = k.registered;
      found = k.found;
      legal = λ got ctx decoded.
          subst
            (λ calls.
              IsAnswerable (or_empty (get_headers (run (new_stream unary_name) calls)))
                (or_empty (get_trailers (run (new_stream unary_name) calls))))
            (sym (same_calls ctx)) good.answerable;
      short = k.short;
      replies = λ got ctx decoded.
          let (out, marshalled, short, _, _, _) = k.replies got ctx decoded in
          (out, marshalled, short);
    }

    -- What the handler answers, as the client gets it.
    replied :
        (got : Arrived c test_service unary_name
          (test_context c background d)
          payload
          (request_sent c background d payload))
        (ctx : c.Context)
        → context_from_headers c background got.header ≡ ok ctx
        → (m' : Message) × (direct c codec server_codec call_handler s md unary_name ctx
              (request_prototype d)
            ≡ ok m')
          × Unmarshalled (reply_message (or_nil (c.from_incoming ctx)) (request_prototype d) 0) m'
    replied got ctx decoded =
        let (out, marshalled, short, m', unmarshalled, same) = k.replies got ctx decoded in
        (m', rw (k.marshalled, marshalled) unmarshalled, same)

    -- The checks of a call that went so.
    reply_checked :
        {P : Type 0} (free : c.until_deadline background ≡ none) (hdr tlr : ℕ) (st st' : Store P)
        (got : Arrived c test_service unary_name
          (test_context c background d)
          payload
          (request_sent c background d payload))
        (ctx : c.Context)
        → context_from_headers c background got.header ≡ ok ctx
        → tlr == hdr ≡ false
        → Obtained
            (or_empty
              (get_headers (stream_after c call_handler s unary_name md.handler ctx payload)))
            (or_empty
              (get_trailers (stream_after c call_handler s unary_name md.handler ctx payload)))
            (get_call_options {C = C} (header hdr ∷ trailer tlr ∷ []))
            st
            st'
        → (m' : Message)
        → Unmarshalled (reply_message (or_nil (c.from_incoming ctx)) (request_prototype d) 0) m'
        → check_reply d hdr tlr (ok m') st' ≡ true
    unfolding check_reply
    reply_checked free hdr tlr st st' got ctx decoded apart obtained m' same =
        let md' = metadata_new d.outgoing [] in
        let carries : Carries c md' ctx =
          context-Carries c laws background (test_context c background d) ctx md' test_service
            unary_name payload _ sent (laws.until-new_outgoing background md' ∙ free)
            (metadata_new-IsMap d.outgoing [] tt) good.outgoing_metadata got decoded in
        let echoed =
          headers_echoed c ctx d m' good carries (λ j.
            same.headers j ∙ ap (λ o. lookup j (as_map (or_nil o) [])) carries.has_incoming) in
        let obtained' =
          subst
            (λ calls.
              Obtained (or_empty (get_headers (run (new_stream unary_name) calls)))
                (or_empty (get_trailers (run (new_stream unary_name) calls)))
                (get_call_options {C = C} (header hdr ∷ trailer tlr ∷ [])) st st')
            (same_calls ctx) obtained in
        rw
          (
            same.payload,
            text_eq_refl d.payload,
            echoed,
            headers_obtained {C = C} d good hdr tlr apart st st' obtained',
            trailers_obtained {C = C} d good hdr tlr apart st st' obtained',
          )
          refl

    module _ (remote : NotnetsAddr) (free : c.until_deadline background ≡ none) {P W : Type 0}
        (lib : Library W) (fuel : ℕ) (ch : NotnetsChannel) (far : ch.conn.remote_addr ≡ some remote)
        (hdr tlr : ℕ) (apart : tlr == hdr ≡ false)
        (q : IsConnected c background map server_codec call_handler s lib fuel ch) where
      -- A call of Unary with the test data returns a message that passes the checks.
      pub unary_checked :
          (st : Store P) (w : W)
          → (m' : Message) × (st' : Store P) × (unary_stub c background api codec lib fuel ch
                (c.new_outgoing background (metadata_new d.outgoing []))
                (request_prototype d)
                (header hdr ∷ trailer tlr ∷ [])
                st
                w
              ≡ returns (ok m', st', q.next (request_sent c background d payload) w))
            × (check_reply d hdr tlr (ok m') st' ≡ true)
      unfolding unary_stub apply_per_rpc_creds get_call_options
      unary_checked st w =
          let opts : List (CallOption C) = header hdr ∷ trailer tlr ∷ [] in
          let (got, ctx, decoded, st', returned, obtained) =
            invoke_refines c background api codec map server_codec call_handler s remote
              test_service unary_name (test_context c background d) (test_context c background d)
              (request_prototype d) opts md payload service-IsSegment name-IsSegment service-IsPath
              name-IsPath refl k.marshalled callable lib fuel ch st w far q in
          let (m', direct_ok, same) = replied got ctx decoded in
          (
            m',
            st',
            returned
                ∙ ap (λ r. returns (r, st', q.next (request_sent c background d payload) w))
                    direct_ok,
            reply_checked free hdr tlr st st' got ctx decoded apart obtained m' same,
          )

      -- testUnary passes over a connection to a server that has Unary registered: if the test data can
      -- be sent, if marshalling keeps the messages and they fit into the readers' buffers, if the
      -- background context has no deadline, and if hdr and tlr are two variables.
      pub test_unary_lem :
          (st : Store P) (w : W)
          → (st' : Store P) × (test_unary c background api codec lib fuel ch d hdr tlr st w
              ≡ returns (true, st', q.next (request_sent c background d payload) w))
      unfolding test_unary
      test_unary_lem st w =
          let (m', st', returned, passes) =
            unary_checked (record st { mds = assign hdr [] (assign tlr [] st.mds) }) w in
          (st', rw (returned, passes) refl)
