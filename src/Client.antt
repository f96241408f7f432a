-- ===== src/Client.antt =====
-- client.go: Dial, and Invoke, which makes one call over a connection.
pub mod Dialing
pub mod Requesting
pub mod Arriving
pub mod Receiving
pub mod Matching
pub mod Calling
pub mod Decoding
pub mod Direct
pub mod Answering
pub mod Limits
pub mod Naming
pub mod Refining
pub mod Propagating
pub mod Exchanging
pub mod Echoing
use notnets_grpc.Prelude.{
  ℕ, zero, suc, Bool, true, false, ◌||◌, not, List, [], ◌∷◌, ◌++◌, Option, none, some, Err, Result,
  ok, err, ◌>>=◌, Run, returns, panics, unfinished, run_bind, ℤ, pos, length, if◌then◌else◌,
}
use notnets_grpc.Http.Request.{write_request}
use notnets_grpc.Http.Response.{read_response}
use notnets_grpc.Http.Url.{new_request}
use notnets_grpc.Text.{Text, codes}
use notnets_grpc.Dict.{Multi}
use notnets_grpc.Header.{set}
use notnets_grpc.Contexts.{Contexts}
use notnets_grpc.Metadata.{set_metadata}
use notnets_grpc.Timeout.{headers_from_context}
use notnets_grpc.Routing.{req_url}
use notnets_grpc.Backoff.{next_delay}
use notnets_grpc.Framing.{make_bytes, receive}
use notnets_grpc.Internal.CallOptions.{
  CallOption, CallOptions, get_call_options, Store, PerRpcCredentials, apply_per_rpc_creds,
}
use notnets_grpc.Http.{Codec}
use notnets_grpc.Shm.{QueueContext, Library}
use notnets_grpc.Shm
use notnets_grpc.Shm.Config.{ConfigFile}
use notnets_grpc.Transport.{NotnetsAddr, NotnetsConn, network, read, write}

pub record NotnetsChannel : Type 0 where
  pub conn : NotnetsConn
  pub message_size : ℤ

-- The connection that Dial makes, before it has queues and after.
abbrev pub dialed_conn : Text → Text → Bool → Option QueueContext → NotnetsConn
dialed_conn local remote connected queues = record {
  client_side = true;
  is_connected = connected;
  queues = queues;
  local_addr = some (record { basic = local });
  remote_addr = some (record { basic = remote });
  deadline = 0;
  read_deadline = 0;
  write_deadline = 0;
}

opened :
    {W : Type 0}
    → (W → Run (QueueContext × List ℕ × W))
    → List ℕ
    → Option QueueContext × W
    → Run (QueueContext × List ℕ × W)
opened again waits (none, w) = again w
opened again waits (some queues, w) = returns (queues, waits, w)

module _ {W : Type 0} (lib : Library W) (config : ConfigFile) (local remote : Text) (size : ℤ) where
  -- ClientOpen, and again after each delay while it gives nothing: the queues, the delays that were
  -- waited for, and the library's state.
  unfoldable pub open_queues : ℕ → ℕ → List ℕ → W → Run (QueueContext × List ℕ × W)
  unfolding opened
  open_queues zero delay waits w = unfinished
  open_queues (suc fuel) delay waits w =
      let again : W → Run (QueueContext × List ℕ × W) =
        open_queues fuel (next_delay delay) (waits ++ next_delay delay ∷ []) in
      opened again waits (Shm.client_open lib config local remote size w)

  -- Dial: the channel, whose error is always nil
  unfoldable pub dial : ℕ → W → Run (NotnetsChannel × List ℕ × W)
  unfolding open_queues
  dial fuel w = run_bind (open_queues fuel 0 [] w) λ (queues, waits, w'). returns (
    record { conn = dialed_conn local remote true (some queues); message_size = size },
    waits,
    w',
  )

abbrev pub content_type : Text
content_type = codes "application/x-protobuf"

-- len(l) > 0
abbrev pub has_some : List ℕ → Bool
has_some [] = false
has_some (p ∷ ps) = true

-- Write the request and read the response through a buffer of the channel's message size.
unfoldable pub exchange : {W : Type 0} → Library W → ℕ → NotnetsChannel → Text → W → Run (Text × W)
exchange lib fuel ch text w = run_bind (write lib ch.conn text w) λ (written, w1).
    run_bind (make_bytes ch.message_size) λ buf.
      run_bind (receive (read lib ch.conn) (length buf) fuel buf [] w1)
        λ (msg, buf', w2). returns (msg, w2)

module _ {C A B : Type 0} (c : Contexts) (api : PerRpcCredentials c.Context C)
    (codec : Codec A B) where
  -- The text of a request, up to the call of Write.
  unfoldable pub request_text : NotnetsAddr → c.Context → Text → A → CallOptions C → Result Text
  request_text remote ctx method_name req copts = do
    let url = req_url (network remote) method_name
    ctx' ← apply_per_rpc_creds c api ctx copts (codes "shm:0" ++ url) true
    payload ← codec.marshal req
    uri ← new_request url
    let header = set (codes "Content-Type") content_type (headers_from_context c ctx')
    ok (write_request uri header payload)

unfoldable pub gather_metadata : {C P : Type 0} → Multi → CallOptions C → Store P → Result (Store P)
gather_metadata header copts s =
    if has_some copts.headers || has_some copts.trailers then set_metadata header copts s else ok s

with_metadata :
    {P A B : Type 0} → Codec A B → Text → Store P → Result (Store P) → Result B × Store P
with_metadata codec b s (err e) = (err e, s)
with_metadata codec b s (ok s') = (codec.unmarshal b, s')

module _ {C P A B : Type 0} (codec : Codec A B) where
  with_body : Multi → CallOptions C → Store P → Result Text → Result B × Store P
  unfolding with_metadata gather_metadata
  with_body header copts s (err e) = (err e, s)
  with_body header copts s (ok b) = with_metadata codec b s (gather_metadata header copts s)

  -- What Invoke does with the message that it has read.
  unfoldable pub read_reply :
      CallOptions C → Store P → Result (Multi × Result Text) → Result B × Store P
  unfolding with_body
  read_reply copts s (err e) = (err e, s)
  read_reply copts s (ok (header, body)) = with_body header copts s body

module _ {C P A B W : Type 0} (c : Contexts) (api : PerRpcCredentials c.Context C)
    (codec : Codec A B) (lib : Library W) where
  with_text :
      ℕ → NotnetsChannel → CallOptions C → Store P → Result Text → W → Run (Result B × Store P × W)
  unfolding exchange read_reply
  with_text fuel ch copts s (err e) w = returns (err e, s, w)
  with_text fuel ch copts s (ok text) w =
      run_bind (exchange lib fuel ch text w) λ (msg, w').
        let (r, s') = read_reply codec copts s (read_response msg) in returns (r, s', w')

  with_remote :
      ℕ
      → NotnetsChannel
      → Option NotnetsAddr
      → c.Context
      → Text
      → A
      → CallOptions C
      → Store P
      → W
      → Run (Result B × Store P × W)
  unfolding with_text request_text
  with_remote fuel ch none ctx method_name req copts s w = panics
  with_remote fuel ch (some remote) ctx method_name req copts s w =
      with_text fuel ch copts s (request_text c api codec remote ctx method_name req copts) w

  -- Invoke: the reply or the error, the variables that the options point to, and the library's state
  unfoldable pub invoke :
      ℕ
      → NotnetsChannel
      → c.Context
      → Text
      → A
      → List (CallOption C)
      → Store P
      → W
      → Run (Result B × Store P × W)
  unfolding with_remote
  invoke fuel ch ctx method_name req opts s w =
      with_remote fuel ch ch.conn.remote_addr ctx method_name req (get_call_options opts) s w
