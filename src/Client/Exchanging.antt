-- ===== src/Client/Exchanging.antt =====
-- What a client reads after it wrote a request.
use notnets_grpc.Prelude.{
  ℕ, ◌<◌, ◌≡◌, refl, ap, ◌∙◌, [], returns, run_bind, ℤ, pos, length, replicate, length-replicate,
}
use notnets_grpc.Text.{Text}
use notnets_grpc.Framing.{make_bytes, receive}
use notnets_grpc.Framing.Pieces.{Piecewise, receive-Piecewise}
use notnets_grpc.Shm.{Library}
use notnets_grpc.Transport.{read, write}
use notnets_grpc.Client.{NotnetsChannel, exchange}

-- After a write, the exchange returns exactly the answer that the queue then holds, whatever its
-- length and the channel's message size, which is positive, and leaves nothing of it in the queue.
-- The queue hands an answer out in pieces of at most the message size, and the fuel is more than the
-- answer's length.
pub exchange_lem :
    {W : Type 0} (lib : Library W) (fuel n : ℕ) (ch : NotnetsChannel)
    (q : Piecewise (read lib ch.conn) n) (text : Text) (size : ℤ) (w w1 : W)
    → ch.message_size ≡ pos n
    → 0 < n
    → write lib ch.conn text w ≡ returns (size, w1)
    → length (q.pending w1) < fuel
    → (w' : W) × (exchange lib fuel ch text w ≡ returns (q.pending w1, w')) × (q.pending w' ≡ [])
unfolding exchange make_bytes
exchange_lem lib fuel n ch q text size w w1 sized some_room written enough =
    let (end, after, got, full, drained) =
      receive-Piecewise (read lib ch.conn) n q fuel (replicate n 0) w1 some_room
        (length-replicate n 0) enough in
    (
      after,
      rw written (
          ap
            (λ size'. run_bind (make_bytes size') (λ buf.
              run_bind (receive (read lib ch.conn) (length buf) fuel buf [] w1)
                (λ x. returns (x.0, x.2))))
            sized
          ∙ rw (length-replicate {A = ℕ} n 0, got) refl),
      drained,
    )
