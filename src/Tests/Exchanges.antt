-- ===== src/Tests/Exchanges.antt =====
-- An answer in pieces of sixteen bytes.
use notnets_grpc.Prelude.{◌≡◌, refl, ap, [], ◌∷◌, ◌++◌, returns, pos, length, take, drop, arith}
use notnets_grpc.Text.{Text, codes}
use notnets_grpc.Framing.Pieces.{Piecewise}
use notnets_grpc.Transport.{read, write}
use notnets_grpc.Client.{exchange}
use notnets_grpc.Client.Exchanging.{exchange_lem}
use notnets_grpc.Tests.Loopback.{answers_by, answers, channel, reply}
use notnets_grpc.Tests.Rpc.{reply_length}

pub read_pieces :
    (f : Text → Text) (buf w : Text)
    → length buf ≡ 16
    → read (answers_by f) channel.conn buf w
      ≡ returns (pos (length (take 16 w)), take 16 w ++ drop (length (take 16 w)) buf, drop 16 w)
unfolding read
read_pieces f [] w full = absurd (omega (arith, full))
read_pieces f (b ∷ buf) w full =
    ap
      (λ k.
        returns (pos (length (take k w)), take k w ++ drop (length (take k w)) (b ∷ buf), drop k w))
      full

abbrev pub pieces : (f : Text → Text) → Piecewise (read (answers_by f) channel.conn) 16
pieces f = record {
  pending = λ w. w;
  advance = λ w. drop 16 w;
  receives = read_pieces f;
  pending-advance = λ w. refl;
}

sent : write answers channel.conn (codes "hello") [] ≡ returns (pos 0, reply)
unfolding write
sent = refl

exchange_lem_example :
    (w' : Text) × (exchange answers 100 channel (codes "hello") [] ≡ returns (reply, w'))
    × (w' ≡ [])
exchange_lem_example =
    exchange_lem answers 100 16 channel (pieces λ text. reply) (codes "hello") (pos 0) [] reply refl
      (omega arith) sent (omega (arith, reply_length))
