-- ===== src/Server/Requests.antt =====
-- serveRequests of server.go: messages are read off a connection one after the other, and each is
-- handed to handleMethod, which empties the buffer in which it was gathered.
use notnets_grpc.Prelude.{
  ℕ, zero, suc, ◌<◌, ◌≡◌, ◌≢◌, refl, sym, ap, ◌∙◌, List, [], ◌∷◌, ◌++◌, Option, none, some, Run,
  returns, run_bind, ℤ, pos, replicate, length, length-replicate, append-nil, append_assoc,
}
use notnets_grpc.Text.{Text}
use notnets_grpc.Contexts.{Contexts}
use notnets_grpc.Framing.{make_bytes, receive}
use notnets_grpc.Services.{HandlerMap}
use notnets_grpc.Http.{Codec}
use notnets_grpc.Shm.{Library}
use notnets_grpc.Transport.{NotnetsConn, read, write}
use notnets_grpc.Server.{NotnetsServer}
use notnets_grpc.Server.Handling.{Served, handle_method}

-- conn.Write(finalbuf), where handleMethod gets as far
unfoldable pub send_answer : {W : Type 0} → Library W → NotnetsConn → Option Text → W → Run W
send_answer lib conn none w = returns w
send_answer lib conn (some t) w = run_bind (write lib conn t w) λ (written, w'). returns w'

module _ {I M H Q R W : Type 0} (c : Contexts) (background : c.Context) (map : HandlerMap M H)
    (codec : Codec R Q) (call_handler : Option I → H → Text → c.Context → Text → Served R)
    (lib : Library W) (s : NotnetsServer I M) (conn : NotnetsConn) where
  -- So many messages of the loop, with fuel for the reads of each: the buffer and the state after it.
  unfoldable pub serve_messages : ℕ → ℕ → Text → W → Run (Text × W)
  unfolding send_answer
  serve_messages zero fuel buf w = returns (buf, w)
  serve_messages (suc rounds) fuel buf w =
      run_bind (receive (read lib conn) (length buf) fuel buf [] w) λ (msg, buf', w1).
        run_bind (handle_method c background map codec call_handler s msg) λ answer.
          run_bind (send_answer lib conn answer w1) λ w2. serve_messages rounds fuel buf' w2

  -- serveRequests, which handleConnection starts, for so many messages
  unfoldable pub serve_requests : ℕ → ℕ → W → Run (Text × W)
  unfolding serve_messages
  serve_requests rounds fuel w =
      run_bind (make_bytes s.message_size) λ buf. serve_messages rounds fuel buf w

-- What the queues of a connection promise the server: messages wait in order, a receive loop takes
-- the next one whole, whatever it needs to be cut into, and what is written is added to the answers.
pub record Mailbox {W : Type 0} (lib : Library W) (conn : NotnetsConn) (n fuel : ℕ) : Type 0 where
  pub inbox : W → List Text
  pub outbox : W → List Text
  pub receives :
      (buf msg : Text) (msgs : List Text) (w : W)
      → length buf ≡ n
      → inbox w ≡ msg ∷ msgs
      → length msg < fuel
      → (buf' : Text) × (w' : W) × (receive (read lib conn) n fuel buf [] w
          ≡ returns (msg, buf', w'))
        × (length buf' ≡ n)
        × (inbox w' ≡ msgs)
        × (outbox w' ≡ outbox w)
  pub sends :
      (t : Text) (w : W)
      → t ≢ []
      → (size : ℤ) × (w' : W) × (write lib conn t w ≡ returns (size, w'))
        × (inbox w' ≡ inbox w)
        × (outbox w' ≡ outbox w ++ t ∷ [])

-- The answers of some messages, those that have one, in order.
abbrev pub in_order : List (Option Text) → List Text
in_order [] = []
in_order (none ∷ rs) = in_order rs
in_order (some r ∷ rs) = r ∷ in_order rs

module _ {I M H Q R W : Type 0} (c : Contexts) (background : c.Context) (map : HandlerMap M H)
    (codec : Codec R Q) (call_handler : Option I → H → Text → c.Context → Text → Served R)
    (lib : Library W) (s : NotnetsServer I M) (conn : NotnetsConn) (n fuel : ℕ)
    (box : Mailbox lib conn n fuel) where
  open box use {inbox, outbox, receives, sends}

  -- Each message can be read with the fuel, and handleMethod returns its answer, not empty.
  abbrev pub AreHandled : List Text → List (Option Text) → Type 0
  AreHandled [] rs = rs ≡ []
  AreHandled (msg ∷ msgs) [] = ⊥
  AreHandled (msg ∷ msgs) (r ∷ rs) =
      (length msg < fuel)
      × (handle_method c background map codec call_handler s msg ≡ returns r)
      × (r ≢ some [])
      × AreHandled msgs rs

  send_answer_lem :
      (r : Option Text) (w : W)
      → r ≢ some []
      → (w' : W) × (send_answer lib conn r w ≡ returns w')
        × (inbox w' ≡ inbox w)
        × (outbox w' ≡ outbox w ++ in_order (r ∷ []))
  unfolding send_answer
  send_answer_lem none w h = (w, refl, refl, sym (append-nil (outbox w)))
  send_answer_lem (some t) w h =
      let (size, w', e, rest, more) = sends t w (λ empty. h (ap some empty)) in
      (w', rw e refl, rest, more)

  in_order_split :
      (r : Option Text) (rs : List (Option Text))
      → in_order (r ∷ []) ++ in_order rs ≡ in_order (r ∷ rs)
  in_order_split none rs = refl
  in_order_split (some t) rs = refl

  serve_messages_lem :
      (msgs : List Text) (rs : List (Option Text)) (buf : Text) (w : W)
      → length buf ≡ n
      → inbox w ≡ msgs
      → AreHandled msgs rs
      → (buf' : Text) × (w' : W) × (serve_messages c background map codec call_handler lib s conn
            (length msgs)
            fuel
            buf
            w
          ≡ returns (buf', w'))
        × (inbox w' ≡ [])
        × (outbox w' ≡ outbox w ++ in_order rs)
  unfolding serve_messages
  serve_messages_lem [] rs buf w full e none_left =
      (buf, w, refl, e, rw none_left (sym (append-nil (outbox w))))
  serve_messages_lem (msg ∷ msgs) [] buf w full e h = absurd h
  serve_messages_lem (msg ∷ msgs) (r ∷ rs) buf w full e (short, handled, some_text, h) =
      let (buf1, w1, got, full1, rest1, same1) = receives buf msg msgs w full e short in
      let (w2, sent, rest2, more2) = send_answer_lem r w1 some_text in
      let (buf', w', done, rest, more) =
        serve_messages_lem msgs rs buf1 w2 full1 (rest2 ∙ rest1) h in
      (
        buf',
        w',
        rw (full, got, handled, sent) done,
        rest,
        more
            ∙ ap (λ l. l ++ in_order rs) (more2 ∙ ap (λ l. l ++ in_order (r ∷ [])) same1)
            ∙ append_assoc (outbox w) (in_order (r ∷ [])) (in_order rs)
            ∙ ap (λ l. outbox w ++ l) (in_order_split r rs),
      )

  -- Over such queues the server's loop on a connection takes every message that waits, and adds the
  -- answers that handleMethod gives them, each once and in the order of the messages; a message
  -- without an answer is passed over. It needs as many rounds as there are messages, each of which
  -- can be read with the fuel, and none of them may make handleMethod panic or give an empty answer.
  pub serve_requests_lem :
      (msgs : List Text) (rs : List (Option Text)) (w : W)
      → s.message_size ≡ pos n
      → inbox w ≡ msgs
      → AreHandled msgs rs
      → (buf' : Text) × (w' : W) × (serve_requests c background map codec call_handler lib s conn
            (length msgs)
            fuel
            w
          ≡ returns (buf', w'))
        × (inbox w' ≡ [])
        × (outbox w' ≡ outbox w ++ in_order rs)
  unfolding serve_requests make_bytes
  serve_requests_lem msgs rs w sized e h =
      let (buf', w', done, rest, more) =
        serve_messages_lem msgs rs (replicate n 0) w (length-replicate n 0) e h in
      (
        buf',
        w',
        ap
              (λ size. run_bind (make_bytes size) (λ buf.
                serve_messages c background map codec call_handler lib s conn (length msgs) fuel buf
                  w))
              sized
            ∙ done,
        rest,
        more,
      )
