-- ===== src/Tests/Loopback.antt =====
-- A server, and queues that hold one answer.
use notnets_grpc.Prelude.{
  ℕ, ◌≡◌, refl, true, false, List, [], ◌∷◌, ◌++◌, Option, none, some, ok, outside, returns, pos,
  length, take, drop, arith, if◌then◌else◌,
}
use notnets_grpc.Text.{Text, codes, text_eq}
use notnets_grpc.Routing.{req_url, service_and_method}
use notnets_grpc.Routing.RoundTrip.{IsSegment}
use notnets_grpc.Http.Url.{new_request}
use notnets_grpc.Http.Url.Requests.{accepts_uri}
use notnets_grpc.Client.Naming.{request_uri_lem}
use notnets_grpc.Dict.{Multi}
use notnets_grpc.Http.{Codec}
use notnets_grpc.Http.Url.{IsPath}
use notnets_grpc.Http.Request.{write_request}
use notnets_grpc.Http.Response.{dump_response}
use notnets_grpc.Services.{ServiceDesc, HandlerMap}
use notnets_grpc.Shm.{CQueueCtx, QueueContext, Library}
use notnets_grpc.Shm.Config.{poll}
use notnets_grpc.Transport.{NotnetsAddr}
use notnets_grpc.Internal.CallOptions.{CallOption, PerRpcCredentials}
use notnets_grpc.Server.{NotnetsServer}
use notnets_grpc.Server.Handling.{Served}
use notnets_grpc.Client.{NotnetsChannel, dialed_conn}
use notnets_grpc.Client.Requesting.{full_name}
use notnets_grpc.Tests.World.{Plain}

abbrev pub content_types : Multi
content_types = (codes "Content-Type", codes "application/x-protobuf" ∷ []) ∷ []

abbrev pub request : Text
request = write_request (codes "/notnets/a.S/M") content_types (codes "hi")

-- The handler's answer to it.
abbrev pub reply : Text
reply =
    dump_response
      ((codes "Content-Type", codes "application/x-protobuf" ∷ [])
        ∷ (codes "Content-Length", codes "3" ∷ [])
        ∷ [])
      (codes "hi!")

abbrev pub service_name : Text
service_name = codes "a.S"

abbrev pub method_name : Text
method_name = codes "M"

pub service-IsSegment : IsSegment service_name
service-IsSegment = record {
  some_byte = cc;
  no_slash = (omega arith, (omega arith, (omega arith, tt)));
  not_dot = cc;
  not_dots = cc;
}

pub method-IsSegment : IsSegment method_name
method-IsSegment = record {
  some_byte = cc;
  no_slash = (omega arith, tt);
  not_dot = cc;
  not_dots = cc;
}

pub service-IsPath : IsPath service_name
service-IsPath = (refl, (refl, (refl, tt)))

pub method-IsPath : IsPath method_name
method-IsPath = (refl, tt)

network-IsSegment : IsSegment (codes "net")
network-IsSegment = record {
  some_byte = cc;
  no_slash = (omega arith, (omega arith, (omega arith, tt)));
  not_dot = cc;
  not_dots = cc;
}

request_uri_lem_example :
    (uri : Text) × (new_request (req_url (codes "net") (full_name service_name method_name))
      ≡ ok uri)
    × (accepts_uri (codes "POST") uri ≡ true)
    × (service_and_method uri ≡ returns (service_name, method_name))
request_uri_lem_example =
    request_uri_lem (codes "net") service_name method_name network-IsSegment service-IsSegment
      method-IsSegment (refl, (refl, (refl, tt))) service-IsPath method-IsPath

-- Services in a list, the last registered first.
abbrev pub query_list : Text → List (ServiceDesc ℕ) → Option (ServiceDesc ℕ)
query_list name [] = none
query_list name (d ∷ ds) =
    let rest = query_list name ds in if text_eq d.service_name name then some d else rest

abbrev pub services : HandlerMap (List (ServiceDesc ℕ)) ℕ
services = record { no_handlers = []; register = λ d ds. returns (d ∷ ds); query = query_list }

abbrev pub server : NotnetsServer ℕ (List (ServiceDesc ℕ))
server = record {
  handlers =
      record {
        service_name = service_name;
        methods = record { method_name = method_name; handler = 7 } ∷ [];
        streams = [];
      }
      ∷ [];
  interceptor = none;
  lis = none;
  conns = [];
  stop = false;
  message_size = pos 256;
}

abbrev pub plain_codec : Codec Text Text
plain_codec = record { marshal = ok; unmarshal = ok }

-- A handler that gives back the request with a mark, and an error.
abbrev pub shouts : Option ℕ → ℕ → Text → Plain → Text → Served Text
shouts interceptor handler method ctx req = record {
  calls = [];
  reply = req ++ b'!' ∷ [];
  failed = some (outside 5);
}

-- A server that is not there yet for as many attempts as the state is long.
unfoldable pub open_late : Text → Option CQueueCtx × Text
open_late [] = (
  some (record {
    pair = record { client_id = pos 1; request_shmaddr = 0; response_shmaddr = 0; offset = pos 0 };
    queue_type = poll;
    fn = 0;
    address = 3;
  }),
  [],
)
open_late (b ∷ w) = (none, w)

-- A queue that holds the one answer that is made of a request, after it was sent.
abbrev pub answers_by : (Text → Text) → Library Text
answers_by f = record {
  client_open = λ source destination size type. open_late;
  client_send_rpc = λ ctx buf size w. (pos 0, f buf);
  client_receive_buf = λ ctx buf size w.
      (pos (length (take size w)), take size w ++ drop (length (take size w)) buf, drop size w);
  client_close = λ source destination w. (pos 0, w);
  register_server_pthread = λ source w. (0, w);
  accept = λ handler w. (none, w);
  manage_pool = λ handler w. w;
  shutdown = λ handler w. w;
  server_receive_buf = λ ctx buf size w. (pos 0, buf, w);
  server_send_rpc = λ ctx buf size w. (pos 0, w);
}

abbrev pub answers : Library Text
answers = answers_by λ text. reply

abbrev pub queues : QueueContext
queues = record {
  queues = record { client_id = pos 1; request_shmaddr = 0; response_shmaddr = 0; offset = pos 0 };
  qt = poll;
  fn = 0;
  ptr_ctx = 3;
}

abbrev pub remote : NotnetsAddr
remote = record { basic = codes "server" }

abbrev pub channel : NotnetsChannel
channel = record {
  conn = dialed_conn (codes "client") (codes "server") true (some queues);
  message_size = pos 16;
}

abbrev pub no_credentials : PerRpcCredentials Plain ℕ
no_credentials = record {
  require_transport_security = λ n. false;
  get_request_metadata = λ n ctx uri. ok [];
}

abbrev pub options : List (CallOption ℕ)
options = []
