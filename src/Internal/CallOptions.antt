-- ===== src/Internal/CallOptions.antt =====
-- internal/call_options.go. A pointer is a number, and the variables that pointers lead to are a
-- store: `mds` for metadata.MD, `peers` for peer.Peer.
pub mod Collecting
pub mod Credentials
use notnets_grpc.Prelude.{
  ℕ, Bool, true, false, not, ◌&&◌, List, [], ◌∷◌, ◌++◌, Option, none, some, Result, ok, err,
  transport_security, ◌>>=◌, ◌==◌, ℤ, pos, if◌then◌else◌,
}
use notnets_grpc.Text.{Text}
use notnets_grpc.Dict.{Dict, Multi}
use notnets_grpc.Contexts.{Contexts}

-- The grpc.CallOption values that the code distinguishes.
pub data CallOption (C : Type 0) : Type 0 where
  header : ℕ → CallOption C
  trailer : ℕ → CallOption C
  peer_addr : ℕ → CallOption C
  per_rpc_creds : Option C → CallOption C
  max_recv_msg_size : ℤ → CallOption C
  max_send_msg_size : ℤ → CallOption C
  other : CallOption C

pub record CallOptions (C : Type 0) : Type 0 where
  pub headers : List ℕ
  pub trailers : List ℕ
  pub peer : List ℕ
  pub creds : Option C
  pub max_recv : ℤ
  pub max_send : ℤ

module _ {C : Type 0} where
  abbrev pub no_options : CallOptions C
  no_options = record {
    headers = [];
    trailers = [];
    peer = [];
    creds = none;
    max_recv = pos 0;
    max_send = pos 0;
  }

  -- The switch in the loop of GetCallOptions.
  collect : CallOptions C → CallOption C → CallOptions C
  collect copts (header a) = record copts { headers = copts.headers ++ a ∷ [] }
  collect copts (trailer a) = record copts { trailers = copts.trailers ++ a ∷ [] }
  collect copts (peer_addr a) = record copts { peer = copts.peer ++ a ∷ [] }
  collect copts (per_rpc_creds c) = record copts { creds = c }
  collect copts (max_recv_msg_size n) = record copts { max_recv = n }
  collect copts (max_send_msg_size n) = record copts { max_send = n }
  collect copts other = copts

  collect_all : CallOptions C → List (CallOption C) → CallOptions C
  unfolding collect
  collect_all copts [] = copts
  collect_all copts (o ∷ opts) = collect_all (collect copts o) opts

  -- GetCallOptions
  unfoldable pub get_call_options : List (CallOption C) → CallOptions C
  unfolding collect_all
  get_call_options opts = collect_all no_options opts

pub record Store (P : Type 0) : Type 0 where
  pub mds : ℕ → Multi
  pub peers : ℕ → P

-- *p = v
abbrev pub assign {ℓ} : {A : Type ℓ} → ℕ → A → (ℕ → A) → ℕ → A
assign p v f q = if p == q then v else f q

-- The loop over the pointers of SetHeaders, SetTrailers and SetPeer.
unfoldable pub assign_all {ℓ} : {A : Type ℓ} → List ℕ → A → (ℕ → A) → ℕ → A
assign_all [] v f = f
assign_all (p ∷ ps) v f = assign_all ps v (assign p v f)

module _ {C P : Type 0} where
  -- SetHeaders
  unfoldable pub set_headers : CallOptions C → Multi → Store P → Store P
  unfolding assign_all
  set_headers co md s = record s { mds = assign_all co.headers md s.mds }

  -- SetTrailers
  unfoldable pub set_trailers : CallOptions C → Multi → Store P → Store P
  unfolding assign_all
  set_trailers co md s = record s { mds = assign_all co.trailers md s.mds }

  -- SetPeer
  unfoldable pub set_peer : CallOptions C → P → Store P → Store P
  unfolding assign_all
  set_peer co p s = record s { peers = assign_all co.peer p s.peers }

-- credentials.PerRPCCredentials
pub record PerRpcCredentials (X C : Type 0) : Type 0 where
  pub require_transport_security : C → Bool
  pub get_request_metadata : C → X → Text → Result (Dict Text)

module _ (c : Contexts) {C : Type 0} (api : PerRpcCredentials c.Context C) where
  -- `reqHeaders`, from the metadata that the context sends already, if it has any.
  request_headers : Option Multi → Dict Text → Multi
  request_headers (some headers) md = c.join headers (c.new md)
  request_headers none md = c.new md

  add_request_metadata : c.Context → Dict Text → c.Context
  unfolding request_headers
  add_request_metadata ctx [] = ctx
  add_request_metadata ctx (e ∷ md) =
      c.new_outgoing ctx (request_headers (c.from_outgoing ctx) (e ∷ md))

  with_creds : c.Context → C → Text → Bool → Result c.Context
  unfolding add_request_metadata
  with_creds ctx creds uri secure =
      if api.require_transport_security creds && not secure
      then err transport_security
      else (do md ← api.get_request_metadata creds ctx uri; ok (add_request_metadata ctx md))

  apply_creds : c.Context → Option C → Text → Bool → Result c.Context
  unfolding with_creds
  apply_creds ctx none uri secure = ok ctx
  apply_creds ctx (some creds) uri secure = with_creds ctx creds uri secure

  -- ApplyPerRPCCreds
  unfoldable pub apply_per_rpc_creds : c.Context → CallOptions C → Text → Bool → Result c.Context
  unfolding apply_creds
  apply_per_rpc_creds ctx copts uri secure = apply_creds ctx copts.creds uri secure
