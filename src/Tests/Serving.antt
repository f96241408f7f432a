-- ===== src/Tests/Serving.antt =====
-- A connection whose queues hold whole messages, each shorter than the buffer.
use mathlib.Core.Option.{some-injective}
use notnets_grpc.Http.Url.{unescape}
use notnets_grpc.Prelude.{
  ap, ℕ, suc, ◌<◌, ◌≡◌, ◌≢◌, refl, List, [], ◌∷◌, ◌++◌, Option, none, some, returns, ℤ, pos, length,
  take, drop, take_all, length-append, length-drop, arith,
}
use notnets_grpc.Text.{Text, codes}
use notnets_grpc.Shm.{Library}
use notnets_grpc.Transport.{NotnetsConn, read, write}
use notnets_grpc.Framing.{receive}
use notnets_grpc.Framing.Frames.{last, receive-Frames}
use notnets_grpc.Server.{server_conn}
use notnets_grpc.Server.Handling.{handle_method}
use notnets_grpc.Server.Requests.{Mailbox, serve_requests, serve_requests_lem}
use notnets_grpc.Tests.World.{contexts, blank}
use notnets_grpc.Tests.Loopback.{request, reply, services, plain_codec, shouts, server, queues}
use notnets_grpc.Http.Request.{read_request}
use notnets_grpc.Tests.Rpc.{request_length, reply_length, handled}

-- What waits, and what was answered.
abbrev Mail : Type 0
Mail = List Text × List Text

receive_mail : Text → ℕ → List Text → List Text → ℤ × Text × Mail
receive_mail buf size [] out = (pos 0, buf, ([], out))
receive_mail buf size (m ∷ ms) out =
    (pos (length (take size m)), take size m ++ drop (length (take size m)) buf, (ms, out))

abbrev mail : Library Mail
mail = record {
  client_open = λ source destination size type w. (none, w);
  client_send_rpc = λ ctx buf size w. (pos 0, w);
  client_receive_buf = λ ctx buf size w. (pos 0, buf, w);
  client_close = λ source destination w. (pos 0, w);
  register_server_pthread = λ source w. (0, w);
  accept = λ handler w. (none, w);
  manage_pool = λ handler w. w;
  shutdown = λ handler w. w;
  server_receive_buf = λ ctx buf size w. receive_mail buf size w.0 w.1;
  server_send_rpc = λ ctx buf size w. (pos 0, (w.0, w.1 ++ buf ∷ []));
}

abbrev conn : NotnetsConn
conn = server_conn (record { basic = codes "server" }) queues

reads_mail :
    (b : ℕ) (buf msg : Text) (msgs out : List Text)
    → length (b ∷ buf) ≡ 256
    → length msg < 256
    → read mail conn (b ∷ buf) (msg ∷ msgs, out)
      ≡ returns (pos (length msg), msg ++ drop (length msg) (b ∷ buf), (msgs, out))
unfolding read receive_mail server_conn
reads_mail b buf msg msgs out full short =
    rw (take_all (suc (length buf)) msg (omega (arith, full))) refl

receives_mail :
    (buf msg : Text) (msgs : List Text) (w : Mail)
    → length buf ≡ 256
    → w.0 ≡ msg ∷ msgs
    → length msg < 256
    → (buf' : Text) × (w' : Mail) × (receive (read mail conn) 256 256 buf [] w
        ≡ returns (msg, buf', w'))
      × (length buf' ≡ 256)
      × (w'.0 ≡ msgs)
      × (w'.1 ≡ w.1)
receives_mail [] msg msgs w full e short = absurd (omega (arith, full))
receives_mail (b ∷ buf) msg msgs (ins, out) full e short = (
  msg ++ drop (length msg) (b ∷ buf),
  (msgs, out),
  rw e (
      receive-Frames (read mail conn) 256 256 (b ∷ buf) [] msg _ (msg ∷ msgs, out) (msgs, out)
        (omega arith) short
        (last (drop (length msg) (b ∷ buf)) (reads_mail b buf msg msgs out full short) refl
          (omega arith))),
  omega (
    arith,
    full,
    length-append msg (drop (length msg) (b ∷ buf)),
    length-drop (length msg) (b ∷ buf),
  ),
  refl,
  refl,
)

sends_mail :
    (t : Text) (w : Mail)
    → t ≢ []
    → (size : ℤ) × (w' : Mail) × (write mail conn t w ≡ returns (size, w'))
      × (w'.0 ≡ w.0)
      × (w'.1 ≡ w.1 ++ t ∷ [])
unfolding write server_conn
sends_mail [] w some_text = absurd (some_text refl)
sends_mail (b ∷ t) w some_text = (pos 0, (w.0, w.1 ++ (b ∷ t) ∷ []), refl, refl, refl)

abbrev box : Mailbox mail conn 256 256
box = record { inbox = λ w. w.0; outbox = λ w. w.1; receives = receives_mail; sends = sends_mail }

-- A request, a message that cannot be read, and the request again.
abbrev waiting : List Text
waiting = request ∷ [] ∷ request ∷ []

abbrev replies : List (Option Text)
replies = some reply ∷ none ∷ some reply ∷ []

unreadable : handle_method contexts blank services plain_codec shouts server [] ≡ returns none
unfolding handle_method read_request unescape
unreadable = refl

hi_sent : some reply ≢ some []
hi_sent h =
    let empty : reply ≡ [] = some-injective _ _ h in
    let sized : length reply ≡ 0 = ap length empty in omega (arith, reply_length, sized)

none_sent : ◌≢◌ {A = Option Text} none (some [])
none_sent h = cc

serve_requests_lem_example :
    (buf' : Text) × (w' : Mail) × (serve_requests contexts blank services plain_codec shouts mail
        server conn 3 256
        (waiting, [])
      ≡ returns (buf', w'))
    × (w'.0 ≡ [])
    × (w'.1 ≡ reply ∷ reply ∷ [])
serve_requests_lem_example =
    serve_requests_lem contexts blank services plain_codec shouts mail server conn 256 256 box
      waiting replies (waiting, []) refl refl
      (
        omega (arith, request_length),
        handled,
        hi_sent,
        (
          omega arith,
          unreadable,
          none_sent,
          (omega (arith, request_length), handled, hi_sent, refl),
        ),
      )
