-- ===== src/Tests/Queues.antt =====
-- Queues, the loops over them, and the server's loop.
use notnets_grpc.Prelude.{
  ℕ, ◌*◌, ◌^◌, ◌≡◌, ◌≢◌, ◌↔◌, refl, true, false, [], ◌∷◌, ◌++◌, map, List, some, none, Run, returns,
  arith, ℤ, pos, min, length, take, drop, All, if◌then◌else◌, length-append, length-drop,
  length-take, int_eq,
}
use notnets_grpc.Text.{Text, codes}
use notnets_grpc.Dict.{lookup}
use notnets_grpc.Shm.{QueueContext}
use notnets_grpc.Shm.Config.{
  poll, adaptive_poll, sem, ConfigFile, queue_type_of, type_name, queue_type_of_iff,
}
use notnets_grpc.Framing.{receive}
use notnets_grpc.Framing.Frames.{KeepsLength, Delivered, Frames-receive}
use notnets_grpc.Framing.Pieces.{Piecewise, receive-Piecewise}
use notnets_grpc.Services.{MethodDesc, find_unary_method, IsFirst, find_unary_method_iff}
use notnets_grpc.Tests.Loopback.{services}
use notnets_grpc.Backoff.{second, delay_after, delays_from, delay_after_lem}
use notnets_grpc.Transport.{NotnetsAddr}
use notnets_grpc.Server.{
  server_conn, start, Poll, stopped, polled, serve, accept_round, ServerOption, unary_interceptor,
  set_message_size, new_notnets_server, default_message_size,
}
use notnets_grpc.Server.Options.{last_interceptor, last_size, new_notnets_server_lem}
use notnets_grpc.Server.Accepting.{
  queues_of, knows, id_list, first_queues, idle_polls, AreFresh, serve_lem,
}

-- A queue with one message: a read takes as much of it as the buffer holds.
abbrev take_piece : Text → Text → Run (ℤ × Text × Text)
take_piece buf w =
    let piece : Text = take (length buf) w in
    returns (pos (length piece), piece ++ drop (length piece) buf, drop (length buf) w)

abbrev four_zeros : Text
four_zeros = 0 ∷ 0 ∷ 0 ∷ 0 ∷ []

-- Nine bytes through a buffer of four; eight bytes, where the last read gives none; and no bytes.
received :
    (receive take_piece 4 9 four_zeros [] (codes "ninebytes")
      ≡ returns (codes "ninebytes", codes "syte", []))
    × (receive take_piece 4 9 four_zeros [] (codes "eight by")
        ≡ returns (codes "eight by", codes "t by", []))
    × (receive take_piece 4 9 four_zeros [] [] ≡ returns ([], four_zeros, []))
unfolding receive
received = (refl, refl, refl)

abbrev take_piece-Piecewise : Piecewise take_piece 4
take_piece-Piecewise = record {
  pending = λ w. w;
  advance = λ w. drop 4 w;
  receives = λ buf w full. rw full refl;
  pending-advance = λ w. refl;
}

receive-Piecewise_example :
    (end : Text) × (after : Text) × (receive take_piece 4 9 four_zeros [] (codes "eight by")
      ≡ returns (codes "eight by", end, after))
    × (length end ≡ 4)
    × (after ≡ [])
receive-Piecewise_example =
    receive-Piecewise take_piece 4 take_piece-Piecewise 9 four_zeros (codes "eight by")
      (omega arith) refl (omega arith)

take_piece-KeepsLength : KeepsLength take_piece 4
take_piece-KeepsLength buf end size w w' full h = grind (
  arith,
  length-append (take (length buf) w) (drop (length (take (length buf) w)) buf),
  length-drop (length (take (length buf) w)) buf,
  length-take (length buf) w,
)

eight_received :
    receive take_piece 4 9 four_zeros [] (codes "eight by")
    ≡ returns (codes "eight by", codes "t by", [])
unfolding receive
eight_received = refl

Frames-receive_example :
    Delivered take_piece 4 four_zeros [] (codes "eight by") (codes "eight by") (codes "t by") []
Frames-receive_example =
    Frames-receive take_piece 4 take_piece-KeepsLength 9 four_zeros [] (codes "eight by")
      (codes "t by") (codes "eight by") [] refl eight_received

delay_after_lem_example : delay_after 5 ≡ min (25 * second) (3 * second * 2 ^ 4)
delay_after_lem_example = delay_after_lem 4

abbrev two_methods : List (MethodDesc ℕ)
two_methods =
    record { method_name = codes "Unary"; handler = 1 }
    ∷ record { method_name = codes "Unary"; handler = 2 }
    ∷ []

find_unary_method_iff_example :
    ((m : MethodDesc ℕ)
      → (find_unary_method (codes "Unary") two_methods ≡ some m)
        ↔ IsFirst (codes "Unary") two_methods m)
    × ((find_unary_method (codes "Unary") two_methods ≡ none)
        ↔ All (λ d. d.method_name ≢ codes "Unary") two_methods)
find_unary_method_iff_example = find_unary_method_iff (codes "Unary") two_methods

abbrev config : ConfigFile
config = (codes "queue_type", codes "SEM") ∷ []

sem_other : sem ≢ adaptive_poll
sem_other h = cc

queue_type_of_iff_example :
    (queue_type_of config ≡ sem) ↔ (lookup (codes "queue_type") config ≡ some (type_name sem))
queue_type_of_iff_example = queue_type_of_iff config sem sem_other

abbrev queue : ℕ → QueueContext
queue id = record {
  queues = record { client_id = pos id; request_shmaddr = 0; response_shmaddr = 0; offset = pos 0 };
  qt = poll;
  fn = 0;
  ptr_ctx = id;
}

-- Two clients, the first polled twice, a poll without a client, and a stop.
abbrev polls : List Poll
polls =
    polled (some (queue 1))
    ∷ polled (some (queue 1))
    ∷ polled none
    ∷ polled (some (queue 2))
    ∷ polled none
    ∷ stopped
    ∷ []

abbrev server_addr : NotnetsAddr
server_addr = record { basic = codes "localhost" }

-- The delay grows past the second client.
waited : (serve server_addr start polls).0.waits ≡ 3 * second ∷ 6 * second ∷ 12 * second ∷ []
unfolding serve accept_round delays_from
waited = refl

serve_lem_example :
    ((serve server_addr start polls).0.started
      ≡ map (server_conn server_addr) (first_queues [] (queues_of polls)))
    × AreFresh [] (first_queues [] (queues_of polls))
    × ((i : ℤ)
        → knows i (id_list (queues_of polls)) ≡ true
        → knows i (id_list (first_queues [] (queues_of polls))) ≡ true)
    × ((serve server_addr start polls).0.waits ≡ delays_from 0 (idle_polls [] polls))
serve_lem_example = serve_lem server_addr polls

abbrev server_options : List (ServerOption ℕ)
server_options =
    set_message_size (pos 512) ∷ unary_interceptor (some 3) ∷ set_message_size (pos 0) ∷ []

new_notnets_server_lem_example : new_notnets_server services server_options ≡ record {
  handlers = services.no_handlers;
  interceptor = last_interceptor none server_options;
  lis = none;
  conns = [];
  stop = false;
  message_size =
      if int_eq (last_size (pos 0) server_options) (pos 0)
      then default_message_size
      else last_size (pos 0) server_options;
}
new_notnets_server_lem_example = new_notnets_server_lem services server_options
