-- ===== src/Server.antt =====
-- server.go: the listener, the server and its options, and the loop that accepts connections.
pub mod Handling
pub mod Accepting
pub mod Options
pub mod Requests
use notnets_grpc.Prelude.{
  Run, returns, panics, run_bind, ℕ, zero, suc, ◌+◌, Bool, true, false, ◌||◌, List, [], ◌∷◌, ◌++◌,
  Option, none, some, ℤ, pos, int_eq, if◌then◌else◌,
}
use notnets_grpc.Text.{Text}
use notnets_grpc.Shm
use notnets_grpc.Shm.{QueueContext, Library}
use notnets_grpc.Transport.{NotnetsAddr, NotnetsConn}
use notnets_grpc.Backoff.{next_delay}
use notnets_grpc.Services.{ServiceDesc, HandlerMap}

-- NotnetsListener; a ServerContext pointer is a number.
pub record NotnetsListener : Type 0 where
  pub notnets_context : ℕ
  pub addr : NotnetsAddr

-- The connection that the server makes of a queue pair.
unfoldable pub server_conn : NotnetsAddr → QueueContext → NotnetsConn
server_conn addr queue = record {
  client_side = false;
  is_connected = true;
  queues = some queue;
  local_addr = some addr;
  remote_addr = none;
  deadline = 0;
  read_deadline = 0;
  write_deadline = 0;
}

accepted : NotnetsAddr → Option QueueContext → Option NotnetsConn
accepted addr none = none
accepted addr (some queue) = some (server_conn addr queue)

module _ {W : Type 0} (lib : Library W) where
  -- Listen
  unfoldable pub listen : Text → W → NotnetsListener × W
  listen addr w =
      let (c, w') = Shm.register_server lib addr w in
      (record { notnets_context = c; addr = record { basic = addr } }, w')

  -- Accept of the listener; its error is always nil
  unfoldable pub listener_accept : NotnetsListener → W → Option NotnetsConn × W
  unfolding accepted
  listener_accept lis w =
      let (queue, w') = Shm.accept lib lis.notnets_context w in (accepted lis.addr queue, w')

  -- Close of the listener
  unfoldable pub listener_close : NotnetsListener → W → W
  listener_close lis w = Shm.shutdown lib lis.notnets_context w

-- Addr
abbrev pub listener_addr : NotnetsListener → NotnetsAddr
listener_addr lis = lis.addr

-- MESSAGE_SIZE
abbrev pub default_message_size : ℤ
default_message_size = pos 2048

-- UnaryInterceptor and SetMessageSize; an interceptor is of a type of package grpc.
pub data ServerOption (I : Type 0) : Type 0 where
  unary_interceptor : Option I → ServerOption I
  set_message_size : ℤ → ServerOption I

-- NotnetsServer, without the fields that nothing reads. `conns` is the sync.Map, and `handlers` the
-- grpchan.HandlerMap.
pub record NotnetsServer (I M : Type 0) : Type 0 where
  pub handlers : M
  pub interceptor : Option I
  pub lis : Option NotnetsListener
  pub conns : List (ℤ × NotnetsConn)
  pub stop : Bool
  pub message_size : ℤ

module _ {I M : Type 0} where
  apply : ServerOption I → NotnetsServer I M → NotnetsServer I M
  apply (unary_interceptor i) s = record s { interceptor = i }
  apply (set_message_size n) s = record s { message_size = n }

  apply_all : List (ServerOption I) → NotnetsServer I M → NotnetsServer I M
  unfolding apply
  apply_all [] s = s
  apply_all (o ∷ os) s = apply_all os (apply o s)

  -- if s.message_size == 0 { s.message_size = MESSAGE_SIZE }
  with_default_size : NotnetsServer I M → NotnetsServer I M
  with_default_size s =
      if int_eq s.message_size (pos 0) then record s { message_size = default_message_size } else s

module _ {I M H : Type 0} (map : HandlerMap M H) where
  abbrev zero_server : NotnetsServer I M
  zero_server = record {
    handlers = map.no_handlers;
    interceptor = none;
    lis = none;
    conns = [];
    stop = false;
    message_size = pos 0;
  }

  -- NewNotnetsServer
  unfoldable pub new_notnets_server : List (ServerOption I) → NotnetsServer I M
  unfolding apply_all with_default_size
  new_notnets_server opts = with_default_size (apply_all opts zero_server)

  -- RegisterService, which hands over to the map of handlers
  abbrev pub register_service : ServiceDesc H → NotnetsServer I M → Run (NotnetsServer I M)
  register_service desc s =
      run_bind (map.register desc s.handlers) λ handlers. returns (record s { handlers = handlers })

-- Close of a listener that is not nil
close_listener : {W : Type 0} → Library W → Option NotnetsListener → W → Run W
unfolding listener_close
close_listener lib none w = panics
close_listener lib (some lis) w = returns (listener_close lib lis w)

-- Stop
unfoldable pub stop_server :
    {I M W : Type 0} → Library W → NotnetsServer I M → W → Run (NotnetsServer I M × W)
unfolding close_listener
stop_server lib s w =
    run_bind (close_listener lib s.lis w) λ w'. returns (record s { stop = true }, w')

-- The state of Serve: the connections stored, `tempDelay`, the connections for which a goroutine was
-- started, in order, and the timers that were waited for.
pub record Acceptor : Type 0 where
  pub conns : List (ℤ × NotnetsConn)
  pub temp_delay : ℕ
  pub started : List NotnetsConn
  pub waits : List ℕ

abbrev pub start : Acceptor
start = record { conns = []; temp_delay = 0; started = []; waits = [] }

-- s.conns.Load
unfoldable pub is_known : ℤ → List (ℤ × NotnetsConn) → Bool
is_known id [] = false
is_known id ((j, _) ∷ conns) = if int_eq j id then true else is_known id conns

back_off : Acceptor → Acceptor
back_off a =
    let delay = next_delay a.temp_delay in
    record a { temp_delay = delay; waits = a.waits ++ delay ∷ [] }

-- One round of the loop of Serve, from the result of Accept: a connection is a queue pair with the
-- server's address.
unfoldable pub accept_round : NotnetsAddr → Acceptor → Option QueueContext → Acceptor
unfolding back_off is_known
accept_round addr a none = back_off a
accept_round addr a (some queue) =
    let id = queue.queues.client_id in
    let conn = server_conn addr queue in
    if is_known id a.conns
    then back_off a
    else record a { conns = (id, conn) ∷ a.conns; started = a.started ++ conn ∷ [] }

-- What the loop meets at the head of a round: that `stop` is set, or what Accept gives.
pub data Poll : Type 0 where
  stopped : Poll
  polled : Option QueueContext → Poll

-- The loop of Serve over the polls that it makes, and whether it has returned.
unfoldable pub serve : NotnetsAddr → Acceptor → List Poll → Acceptor × Bool
serve addr a [] = (a, false)
serve addr a (stopped ∷ ps) = (a, true)
serve addr a (polled q ∷ ps) = serve addr (accept_round addr a q) ps
