-- ===== src/SayService.antt =====
-- The services of two methods, SayHello and SayGoodbye: the generated stubs, handlers and descriptor
-- of test_hello_service/test_hello_grpc.pb.go and chain_tests/test_chain_grpc.pb.go, which differ in
-- the name of their package, and the servers of test_hello_service/test_hello_service.go and
-- chain_tests/test_chain_service.go. A request is its name, a reply its message, and a nil reply is
-- `none`.
pub mod Chain
use notnets_grpc.Prelude.{outside, Run, [], ◌∷◌, ◌++◌, Option, none, some, Err, Result, ok, err}
use notnets_grpc.Text.{Text, codes}
use notnets_grpc.Services.{ServiceDesc, HandlerMap}
use notnets_grpc.Server.{NotnetsServer, register_service}

-- What a method returns.
abbrev pub Answer : Type 0
Answer = Option Text × Option Err

-- A method over contexts X and a state W of what it talks to.
abbrev pub Method : Type 0 → Type 0 → Type 0
Method X W = X → Text → W → Answer × W

pub record TestServiceServer (X W : Type 0) : Type 0 where
  pub say_hello : Method X W
  pub say_goodbye : Method X W

-- grpc.UnaryServerInterceptor: it has the full name of the method, and the method to go on with.
abbrev pub Interceptor : Type 0 → Type 0 → Type 0
Interceptor X W = Text → Method X W → Method X W

abbrev pub hello_package : Text
hello_package = codes "test_hello_service.TestService"

abbrev pub chain_package : Text
chain_package = codes "chaintests.TestService"

abbrev pub full_hello : Text → Text
full_hello pkg = codes "/" ++ pkg ++ codes "/SayHello"

abbrev pub full_goodbye : Text → Text
full_goodbye pkg = codes "/" ++ pkg ++ codes "/SayGoodbye"

-- The stubs SayHello and SayGoodbye of testServiceClient, over the Invoke of a connection.
stub_result : {W : Type 0} → Result Text × W → Answer × W
stub_result (err e, w) = ((none, some e), w)
stub_result (ok out, w) = ((some out, none), w)

-- resp.GetMessage(), "" for a nil reply
unfoldable pub get_message : Option Text → Text
get_message none = []
get_message (some message) = message

greet : {W : Type 0} → Answer × W → Answer × W
unfolding get_message
greet ((resp, e), w) = ((some (codes "Hello " ++ get_message resp), e), w)

module _ {X W : Type 0} where
  -- NewTestServiceClient
  unfoldable pub new_test_service_client :
      Text → (X → Text → Text → W → Result Text × W) → TestServiceServer X W
  unfolding stub_result
  new_test_service_client pkg invoke = record {
    say_hello = λ ctx name w. stub_result (invoke ctx (full_hello pkg) name w);
    say_goodbye = λ ctx name w. stub_result (invoke ctx (full_goodbye pkg) name w);
  }

  intercepted : Option (Interceptor X W) → Text → Method X W → Method X W
  intercepted none full_method method = method
  intercepted (some i) full_method method = i full_method method

  -- _TestService_SayHello_Handler and _TestService_SayGoodbye_Handler, from what `dec` gives
  unfoldable pub handler :
      Text → Method X W → X → Result Text → Option (Interceptor X W) → W → Answer × W
  unfolding intercepted
  handler full_method method ctx (err e) interceptor w = ((none, some e), w)
  handler full_method method ctx (ok name) interceptor w =
      intercepted interceptor full_method method ctx name w

  -- TestService_ServiceDesc with the server that was registered for it
  unfoldable pub service_desc :
      Text
      → TestServiceServer X W
      → ServiceDesc (X → Result Text → Option (Interceptor X W) → W → Answer × W)
  unfolding handler
  service_desc pkg srv = record {
    service_name = pkg;
    methods =
        record { method_name = codes "SayHello"; handler = handler (full_hello pkg) srv.say_hello }
        ∷ record {
          method_name = codes "SayGoodbye";
          handler = handler (full_goodbye pkg) srv.say_goodbye;
        }
        ∷ [];
    streams = [];
  }

  -- TestServer of test_hello_service
  abbrev pub hello_server : TestServiceServer X W
  hello_server = record {
    say_hello = λ ctx name w. ((some (codes "Hello " ++ name), none), w);
    say_goodbye = λ ctx name w. ((some (codes "Goodbye " ++ name), none), w);
  }

  -- TestServer of chain_tests, with its HelloClient
  unfoldable pub chain_server : TestServiceServer X W → TestServiceServer X W
  unfolding greet
  chain_server client = record {
    say_hello = λ ctx name w. greet (client.say_goodbye ctx name w);
    say_goodbye = λ ctx name w. ((some (codes "Goodbye " ++ name), none), w);
  }

  -- UnimplementedTestServiceServer: status errors with the code Unimplemented, which is 12
  abbrev pub unimplemented_server : TestServiceServer X W
  unimplemented_server = record {
    say_hello = λ ctx name w. ((none, some (outside 12)), w);
    say_goodbye = λ ctx name w. ((none, some (outside 12)), w);
  }

-- RegisterTestServiceServer
abbrev pub register_test_service_server :
    {X W I M : Type 0}
    → HandlerMap M (X → Result Text → Option (Interceptor X W) → W → Answer × W)
    → Text
    → NotnetsServer I M
    → TestServiceServer X W
    → Run (NotnetsServer I M)
register_test_service_server map pkg s srv = register_service map (service_desc pkg srv) s
