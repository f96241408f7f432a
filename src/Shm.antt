-- ===== src/Shm.antt =====
-- rpc_ffi.go: the calls of the C library libnotnets, which is a git submodule and so a parameter: an
-- operation for each C function that the code calls, over a state `W` of the shared memory.
pub mod Config
use notnets_grpc.Prelude.{
  ℕ, ◌≡◌, List, [], ◌∷◌, Option, none, some, Run, returns, panics, ℤ, pos, Bool, length,
}
use notnets_grpc.Text.{Text}
use Config.{QueueType, queue_type_of, ConfigFile}

-- QueuePair and QueueContext; the addresses and the function table are numbers.
pub record QueuePair : Type 0 where
  pub client_id : ℤ
  pub request_shmaddr : ℕ
  pub response_shmaddr : ℕ
  pub offset : ℤ

pub record QueueContext : Type 0 where
  pub queues : QueuePair
  pub qt : QueueType
  pub fn : ℕ
  pub ptr_ctx : ℕ

-- What the C functions return through a queue_ctx pointer, nil or not.
pub record CQueueCtx : Type 0 where
  pub pair : QueuePair
  pub queue_type : QueueType
  pub fn : ℕ
  pub address : ℕ

-- The C library. A receive gives its result and what the buffer holds after it.
pub record Library (W : Type 0) : Type 0 where
  pub client_open : Text → Text → ℤ → QueueType → W → Option CQueueCtx × W
  pub client_send_rpc : ℕ → Text → ℕ → W → ℤ × W
  pub client_receive_buf : ℕ → Text → ℕ → W → ℤ × Text × W
  pub client_close : Text → Text → W → ℤ × W
  pub register_server_pthread : Text → W → ℕ × W
  pub accept : ℕ → W → Option CQueueCtx × W
  pub manage_pool : ℕ → W → W
  pub shutdown : ℕ → W → W
  pub server_receive_buf : ℕ → Text → ℕ → W → ℤ × Text × W
  pub server_send_rpc : ℕ → Text → ℕ → W → ℤ × W

-- The conversion of a queue_ctx at the end of ClientOpen and of Accept.
pub to_context : CQueueCtx → QueueContext
to_context c = record { queues = c.pair; qt = c.queue_type; fn = c.fn; ptr_ctx = c.address }

to_option : Option CQueueCtx → Option QueueContext
unfolding to_context
to_option none = none
to_option (some c) = some (to_context c)

module _ {W : Type 0} (lib : Library W) where
  -- ClientOpen, with the contents of queue_config.json
  unfoldable pub client_open : ConfigFile → Text → Text → ℤ → W → Option QueueContext × W
  unfolding to_option
  client_open config source destination size w =
      let (r, w') = lib.client_open source destination size (queue_type_of config) w in
      (to_option r, w')

  -- Accept of a server context
  unfoldable pub accept : ℕ → W → Option QueueContext × W
  unfolding to_option
  accept handler w = let (r, w') = lib.accept handler w in (to_option r, w')

  -- `&buf[0]` panics on an empty buffer.
  unfoldable pub client_send_rpc : QueueContext → Text → ℕ → W → Run (ℤ × W)
  client_send_rpc conn [] size w = panics
  client_send_rpc conn (b ∷ buf) size w =
      returns (lib.client_send_rpc conn.ptr_ctx (b ∷ buf) size w)

  unfoldable pub client_receive_buf : QueueContext → Text → ℕ → W → Run (ℤ × Text × W)
  client_receive_buf conn [] size w = panics
  client_receive_buf conn (b ∷ buf) size w =
      returns (lib.client_receive_buf conn.ptr_ctx (b ∷ buf) size w)

  unfoldable pub server_receive_buf : QueueContext → Text → ℕ → W → Run (ℤ × Text × W)
  server_receive_buf client [] size w = panics
  server_receive_buf client (b ∷ buf) size w =
      returns (lib.server_receive_buf client.ptr_ctx (b ∷ buf) size w)

  unfoldable pub server_send_rpc : QueueContext → Text → ℕ → W → Run (ℤ × W)
  server_send_rpc client [] size w = panics
  server_send_rpc client (b ∷ buf) size w =
      returns (lib.server_send_rpc client.ptr_ctx (b ∷ buf) size w)

  -- ClientClose
  unfoldable pub client_close : Text → Text → W → ℤ × W
  client_close source destination w = lib.client_close source destination w

  -- RegisterServer
  unfoldable pub register_server : Text → W → ℕ × W
  register_server source w = lib.register_server_pthread source w

  -- ManagePool
  unfoldable pub manage_pool : ℕ → W → W
  manage_pool handler w = lib.manage_pool handler w

  -- Shutdown
  unfoldable pub shutdown : ℕ → W → W
  shutdown handler w = lib.shutdown handler w
