-- ===== src/Internal/StreamTransport.antt =====
-- internal/transport_stream.go: ServerTransportStream, which hands its calls on to a stream of
-- package grpc.
use notnets_grpc.Prelude.{Option, none, some, Err}
use notnets_grpc.Text.{Text}
use notnets_grpc.Dict.{Multi}

-- grpc.ServerStream, by its effects on a state; `try_set_trailer` is the method TrySetTrailer, if
-- the stream has it.
pub record GrpcStream (W : Type 0) : Type 0 where
  pub set_header : Multi → W → Option Err × W
  pub send_header : Multi → W → Option Err × W
  pub set_trailer : Multi → W → W
  pub try_set_trailer : Option (Multi → W → Option Err × W)

pub record ServerTransportStream (W : Type 0) : Type 0 where
  pub name : Text
  pub stream : GrpcStream W

module _ {W : Type 0} where
  -- Method
  abbrev pub method_of : ServerTransportStream W → Text
  method_of sts = sts.name

  -- SetHeader
  abbrev pub set_header : ServerTransportStream W → Multi → W → Option Err × W
  set_header sts md w = sts.stream.set_header md w

  -- SendHeader
  abbrev pub send_header : ServerTransportStream W → Multi → W → Option Err × W
  send_header sts md w = sts.stream.send_header md w

  with_errors : Option (Multi → W → Option Err × W) → GrpcStream W → Multi → W → Option Err × W
  with_errors (some try) stream md w = try md w
  with_errors none stream md w = (none, stream.set_trailer md w)

  -- SetTrailer
  unfoldable pub set_trailer : ServerTransportStream W → Multi → W → Option Err × W
  unfolding with_errors
  set_trailer sts md w = with_errors sts.stream.try_set_trailer sts.stream md w
