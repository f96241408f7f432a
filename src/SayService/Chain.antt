-- ===== src/SayService/Chain.antt =====
-- A chain of two servers: the first answers SayHello by a call of the second's SayGoodbye, through
-- Invoke of client.go and handleMethod of server.go.
use notnets_grpc.Prelude.{
  ℕ, ◌≡◌, refl, ap, sym, ◌∙◌, true, [], ◌∷◌, ◌++◌, Option, none, some, outside, ok, err, returns,
  Result,
}
use mathlib.Core.Option.{some-injective}
use notnets_grpc.Text.{Text, codes, text_eq}
use notnets_grpc.Contexts.{Contexts}
use notnets_grpc.Timeout.{context_from_headers}
use notnets_grpc.Routing.{slash, req_url}
use notnets_grpc.Routing.RoundTrip.{IsSegment}
use notnets_grpc.Internal.CallOptions.{
  Store, PerRpcCredentials, get_call_options, apply_per_rpc_creds,
}
use notnets_grpc.Internal.CallOptions.Collecting.{without}
use notnets_grpc.Services.{HandlerMap, MethodDesc, find_unary_method}
use notnets_grpc.Http.{Codec}
use notnets_grpc.Http.Fields.{all_bytes}
use notnets_grpc.Http.Url.{IsPath, literal-IsPath}
use notnets_grpc.Http.Request.{write_request}
use notnets_grpc.Client.Requesting.{full_name, call_tail, request_header}
use notnets_grpc.Shm.{Library}
use notnets_grpc.Transport.{NotnetsAddr, network}
use notnets_grpc.Server.{NotnetsServer}
use notnets_grpc.Server.Handling.{Served}
use notnets_grpc.Client.{NotnetsChannel, invoke}
use notnets_grpc.Client.Arriving.{Arrived}
use notnets_grpc.Client.Direct.{direct, IsConnected, IsCallable}
use notnets_grpc.Client.Refining.{invoke_refines}
use notnets_grpc.SayService.{
  Answer, TestServiceServer, Interceptor, chain_package, full_goodbye, new_test_service_client,
  handler, service_desc, chain_server, get_message, greet, stub_result,
}

-- A generated handler over contexts X, for a server that keeps no state.
abbrev pub Handler : Type 0 → Type 0
Handler X = X → Result Text → Option (Interceptor X Unit) → Unit → Answer × Unit

-- What a handler returned, which set no metadata.
abbrev pub served : {W : Type 0} → Answer × W → Served (Option Text)
served ((reply, e), w) = record { calls = []; reply = reply; failed = e }

-- `dec` of handleMethod, from what Unmarshal gives: an error becomes a status with the code
-- InvalidArgument, which is 3.
abbrev pub dec : Result Text → Result Text
dec (err e) = err (outside 3)
dec (ok message) = ok message

-- The call of md.Handler in handleMethod
abbrev pub run_handler :
    {X : Type 0}
    → Codec (Option Text) Text
    → Option (Interceptor X Unit)
    → Handler X
    → Text
    → X
    → Text
    → Served (Option Text)
run_handler codec interceptor h method ctx body =
    served (h ctx (dec (codec.unmarshal body)) interceptor tt)

abbrev pub goodbye : Text
goodbye = codes "SayGoodbye"

package-IsSegment : IsSegment chain_package
package-IsSegment = record {
  some_byte = cc;
  no_slash = without slash chain_package refl;
  not_dot = cc;
  not_dots = cc;
}

goodbye-IsSegment : IsSegment goodbye
goodbye-IsSegment = record {
  some_byte = cc;
  no_slash = without slash goodbye refl;
  not_dot = cc;
  not_dots = cc;
}

package-IsPath : IsPath chain_package
package-IsPath = literal-IsPath chain_package (unfold all_bytes in refl)

goodbye-IsPath : IsPath goodbye
goodbye-IsPath = literal-IsPath goodbye (unfold all_bytes in refl)

module _ {C M : Type 0} (c : Contexts) (background : c.Context)
    (api : PerRpcCredentials c.Context C) (codec : Codec Text Text)
    (map : HandlerMap M (Handler c.Context)) (server_codec : Codec (Option Text) Text)
    (s : NotnetsServer (Interceptor c.Context Unit) M)
    (srv : TestServiceServer c.Context Unit) where
  abbrev call_handler :
      Option (Interceptor c.Context Unit)
      → Handler c.Context
      → Text
      → c.Context
      → Text
      → Served (Option Text)
  call_handler = run_handler server_codec

  abbrev goodbye_desc : MethodDesc (Handler c.Context)
  goodbye_desc = record {
    method_name = goodbye;
    handler = handler (full_goodbye chain_package) srv.say_goodbye;
  }

  goodbye_found :
      find_unary_method goodbye (service_desc chain_package srv).methods ≡ some goodbye_desc
  unfolding find_unary_method service_desc text_eq
  goodbye_found = refl

  module _ (remote : NotnetsAddr) (ctx : c.Context) (name : Text)
      (md : MethodDesc (Handler c.Context)) (payload : Text)
      (marshalled : codec.marshal name ≡ ok payload)
      (read : server_codec.unmarshal payload ≡ ok name)
      (replied : (reply : Option Text) (out : Text)
        → server_codec.marshal reply ≡ ok out
        → codec.unmarshal out ≡ ok (get_message reply))
      (plain : s.interceptor ≡ none)
      (registered : map.query chain_package s.handlers ≡ some (service_desc chain_package srv))
      (k : IsCallable c background api codec map server_codec call_handler s chain_package goodbye
        ctx md payload) where
    same_method : md ≡ goodbye_desc
    same_method =
        let same_service =
          some-injective k.sd (service_desc chain_package srv) (sym k.registered ∙ registered) in
        some-injective md goodbye_desc
          (sym k.found ∙ ap (λ d. find_unary_method goodbye d.methods) same_service ∙ goodbye_found)

    goodbye_reply :
        (ctx' : c.Context)
        → call_handler s.interceptor md.handler goodbye ctx' payload
          ≡ served (srv.say_goodbye ctx' name tt)
    unfolding handler
    goodbye_reply ctx' = rw (plain, same_method, read) refl

    direct-goodbye :
        (got : Arrived c chain_package goodbye ctx payload
          (write_request (slash ∷ call_tail chain_package goodbye) (request_header c ctx) payload))
        (ctx' : c.Context)
        → context_from_headers c background got.header ≡ ok ctx'
        → direct c codec server_codec call_handler s md goodbye ctx' name
          ≡ ok (get_message (srv.say_goodbye ctx' name tt).0.0)
    direct-goodbye got ctx' decoded =
        let (out, sent, short) = k.replies got ctx' decoded in
        rw (marshalled, sent)
          (replied (call_handler s.interceptor md.handler goodbye ctx' payload).reply out sent
            ∙ ap (λ v. ok (get_message v.reply)) (goodbye_reply ctx'))

    allowed :
        apply_per_rpc_creds c api ctx
          (get_call_options [])
          (codes "shm:0" ++ req_url (network remote) (full_name chain_package goodbye))
          true
        ≡ ok ctx
    unfolding apply_per_rpc_creds get_call_options
    allowed = refl

    -- The first server's SayHello says hello with the message of the second's SayGoodbye for the same
    -- name: for a client whose stubs call Invoke over a connection that hands what is written to the
    -- second server and gives back its answer, if that server has no interceptor and has the service
    -- registered, if the call can be made and answered, and if the codecs read what they write, a nil
    -- reply as an empty message. SayHello has no error, whatever error SayGoodbye returned beside its
    -- reply, which is called in the context that the second server makes of the headers that it reads.
    pub chain_server_lem :
        {P W : Type 0} (lib : Library W) (fuel : ℕ) (ch : NotnetsChannel) (st : Store P) (w : W)
        (stub_invoke : c.Context → Text → Text → Store P × W → Result Text × (Store P × W))
        → ((x : c.Context) (full asked : Text) (st st' : Store P) (w w' : W) (r : Result Text)
            → invoke c api codec lib fuel ch x full asked [] st w ≡ returns (r, st', w')
            → stub_invoke x full asked (st, w) ≡ (r, (st', w')))
        → ch.conn.remote_addr ≡ some remote
        → IsConnected c background map server_codec call_handler s lib fuel ch
        → (got : Arrived c chain_package goodbye ctx payload (
            write_request (slash ∷ call_tail chain_package goodbye) (request_header c ctx) payload))
          × (ctx' : c.Context) × (context_from_headers c background got.header ≡ ok ctx')
          × (after : Store P × W) × ((chain_server
                  (new_test_service_client chain_package stub_invoke)).say_hello
                ctx name
                (st, w)
              ≡ (
                (some (codes "Hello " ++ get_message (srv.say_goodbye ctx' name tt).0.0), none),
                after,
              ))
    unfolding chain_server greet new_test_service_client stub_result
    chain_server_lem lib fuel ch st w stub_invoke calls far q =
        let (got, ctx', decoded, st', returned, obtained) =
          invoke_refines c background api codec map server_codec call_handler s remote chain_package
            goodbye ctx ctx name [] md payload package-IsSegment goodbye-IsSegment package-IsPath
            goodbye-IsPath allowed marshalled k lib fuel ch st w far q in
        let text =
          write_request (slash ∷ call_tail chain_package goodbye) (request_header c ctx) payload in
        let message = get_message (srv.say_goodbye ctx' name tt).0.0 in
        let answered =
          returned ∙ ap (λ r. returns (r, st', q.next text w)) (direct-goodbye got ctx' decoded) in
        let asked =
          calls ctx (full_goodbye chain_package) name st st' w (q.next text w) (ok message)
            answered in
        (got, ctx', decoded, (st', q.next text w), rw asked refl)
