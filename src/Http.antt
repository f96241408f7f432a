-- ===== src/Http.antt =====
-- The calls of packages net/http and net/http/httputil, as operations on texts; `Received` is what
-- ReadRequest gives, with what ReadAll of its body gives after the buffer under its reader was
-- reset.
pub mod Spaces
pub mod Lines
pub mod Fields
pub mod Url
pub mod Transfer
pub mod Request
pub mod Response
pub mod Messages
pub mod Carrying
use notnets_grpc.Prelude.{ℕ, ◌≡◌, ◌≤◌, true, Bool, ◌||◌, ◌&&◌, leb, ◌==◌, Result, ok, length, All}
use notnets_grpc.Text.{Text, codes}
use notnets_grpc.Text.Decimal.{print}
use notnets_grpc.Dict.{Multi}
use notnets_grpc.Header.{get}
use notnets_grpc.Routing.{clean}

pub record Received : Type 0 where
  pub request_uri : Text
  pub header : Multi
  pub body : Result Text

-- encoding.GetCodec("proto"), for messages to send of type A and to receive of type B
pub record Codec (A B : Type 0) : Type 0 where
  pub marshal : A → Result Text
  pub unmarshal : Text → Result B

-- A byte that a path of a URL shows as it is.
abbrev pub is_path_byte : ℕ → Bool
is_path_byte b =
    leb b'a' b && leb b b'z'
    || leb b'A' b && leb b b'Z'
    || leb b'0' b && leb b b'9'
    || b == b'/'
    || b == b'.'
    || b == b'-'
    || b == b'_'

-- The size of a bufio.Reader's buffer.
abbrev pub buffer_size : ℕ
buffer_size = 4096
