-- ===== src/Transport.antt =====
-- notnets_transport.go: an address, and a connection over a pair of queues. Each of Read and Write
-- holds a mutex of its own from its start to its return, so it is one step; a nil interface or
-- pointer on which a method is called panics.
use notnets_grpc.Prelude.{
  ℕ, Bool, true, false, Option, none, some, Run, returns, panics, ℤ, length, Err,
}
use notnets_grpc.Text.{Text, codes}
use notnets_grpc.Shm.{
  QueueContext, Library, client_send_rpc, client_receive_buf, server_receive_buf, server_send_rpc,
  client_close,
}

pub record NotnetsAddr : Type 0 where
  pub basic : Text

-- Network
abbrev pub network : NotnetsAddr → Text
network addr = codes "notnets"

-- String
abbrev pub string : NotnetsAddr → Text
string addr = addr.basic

-- `none` is nil. A time is a number.
pub record NotnetsConn : Type 0 where
  pub client_side : Bool
  pub is_connected : Bool
  pub queues : Option QueueContext
  pub local_addr : Option NotnetsAddr
  pub remote_addr : Option NotnetsAddr
  pub deadline : ℕ
  pub read_deadline : ℕ
  pub write_deadline : ℕ

module _ {W : Type 0} (lib : Library W) where
  read_side : Bool → Option QueueContext → Text → W → Run (ℤ × Text × W)
  unfolding client_receive_buf server_receive_buf
  read_side side none b w = panics
  read_side true (some q) b w = client_receive_buf lib q b (length b) w
  read_side false (some q) b w = server_receive_buf lib q b (length b) w

  -- Read: the count, and what the buffer holds after it. Its error is always nil.
  unfoldable pub read : NotnetsConn → Text → W → Run (ℤ × Text × W)
  unfolding read_side
  read c b w = read_side c.client_side c.queues b w

  write_side : Bool → Option QueueContext → Text → W → Run (ℤ × W)
  unfolding client_send_rpc server_send_rpc
  write_side side none b w = panics
  write_side true (some q) b w = client_send_rpc lib q b (length b) w
  write_side false (some q) b w = server_send_rpc lib q b (length b) w

  -- Write: the library's result as the count. Its error is always nil.
  unfoldable pub write : NotnetsConn → Text → W → Run (ℤ × W)
  unfolding write_side
  write c b w = write_side c.client_side c.queues b w

  close_between : Option NotnetsAddr → Option NotnetsAddr → W → Run (Option Err × W)
  unfolding client_close
  close_between none r w = panics
  close_between (some l) none w = panics
  close_between (some l) (some r) w =
      let (ret, w') = client_close lib (string l) (string r) w in returns (none, w')

  -- Close: both branches return a nil error, since `err` is never assigned.
  unfoldable pub close : NotnetsConn → W → Run (Option Err × W)
  unfolding close_between
  close c w = close_between c.local_addr c.remote_addr w

-- LocalAddr and RemoteAddr
abbrev pub local_addr_of : NotnetsConn → Option NotnetsAddr
local_addr_of c = c.local_addr

abbrev pub remote_addr_of : NotnetsConn → Option NotnetsAddr
remote_addr_of c = c.remote_addr

-- SetDeadline, SetReadDeadline and SetWriteDeadline
abbrev pub set_deadline : NotnetsConn → ℕ → NotnetsConn
set_deadline c t = record c { deadline = t }

abbrev pub set_read_deadline : NotnetsConn → ℕ → NotnetsConn
set_read_deadline c t = record c { read_deadline = t }

abbrev pub set_write_deadline : NotnetsConn → ℕ → NotnetsConn
set_write_deadline c t = record c { write_deadline = t }
