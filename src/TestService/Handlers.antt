-- ===== src/TestService/Handlers.antt =====
-- Unary, ClientStream and ServerStream of channel_tests_service/test_service.go.
pub mod Streams
pub mod Calls
use notnets_grpc.Prelude.{
  ℕ, zero, suc, ◌==◌, Bool, List, [], ◌∷◌, Option, none, some, Err, Result, ok, err, if◌then◌else◌,
}
use notnets_grpc.Text.{Text}
use notnets_grpc.Dict.{Multi}
use notnets_grpc.Internal.TransportStream.History.{Call, sets_header, sets_trailer}
use notnets_grpc.Server.Handling.{Served}
use notnets_grpc.TestService.{
  Message, metadata_new, as_map, status_from_request, ServerStream, increment, is_negative,
  reply_message, set_status,
}

-- md, _ := metadata.FromIncomingContext(ctx)
abbrev pub or_nil : Option Multi → Multi
or_nil none = []
or_nil (some md) = md

-- Unary; grpc.SetHeader and grpc.SetTrailer call the methods of the context's transport stream.
unfoldable pub unary : Option Multi → Message → Served (Option Message)
unary incoming req = record {
  calls =
      sets_header (metadata_new req.headers []) ∷ sets_trailer (metadata_new req.trailers []) ∷ [];
  reply = if req.code == 0 then some (reply_message (or_nil incoming) req 0) else none;
  failed = if req.code == 0 then none else some (status_from_request req);
}

-- The loop of ClientStream over what Recv gives before io.EOF: the last message and their number.
unfoldable pub consume : List (Result Message) → Option Message → ℕ → Result (Option Message × ℕ)
consume [] req count = ok (req, count)
consume (err e ∷ rs) req count = err e
consume (ok r ∷ rs) req count =
    let rest = consume rs (some r) (increment count) in
    if r.code == 0 then rest else ok (some r, increment count)

-- req = &Message{}, if there is none
abbrev pub or_empty_message : Option Message → Message
or_empty_message none = record { headers = []; trailers = []; payload = []; code = 0; count = 0 }
or_empty_message (some m) = m

-- int(req.Count) rounds
abbrev pub rounds : Message → ℕ
rounds req = if is_negative req.count then 0 else req.count

module _ {W : Type 0} (str : ServerStream W) where
  if_sent : Option Err × W → (W → Option Err × W) → Option Err × W
  if_sent (some e, w) next = (some e, w)
  if_sent (none, w) next = next w

  -- The rest of ClientStream, after the loop.
  reply_once : Multi → Message → ℕ → W → Option Err × W
  unfolding if_sent
  reply_once md req count w = if_sent (str.set_header (metadata_new req.headers []) w) λ w1.
      let w2 = str.set_trailer (metadata_new req.trailers []) w1 in
      if req.code == 0
      then str.send (reply_message md req count) w2
      else (some (status_from_request req), w2)

  after_consume : Multi → Result (Option Message × ℕ) → W → Option Err × W
  unfolding reply_once
  after_consume md (err e) w = (some e, w)
  after_consume md (ok (req, count)) w = reply_once md (or_empty_message req) count w

  -- ClientStream, over what Recv gives before io.EOF
  unfoldable pub client_stream : Multi → List (Result Message) → W → Option Err × W
  unfolding consume after_consume
  client_stream md received w = after_consume md (consume received none 0) w

  -- for i := 0; i < int(req.Count); i++
  send_times : ℕ → Message → W → Option Err × W
  unfolding if_sent
  send_times zero m w = (none, w)
  send_times (suc n) m w = if_sent (str.send m w) (send_times n m)

  -- ServerStream
  unfoldable pub server_stream : Multi → Message → W → Option Err × W
  unfolding send_times if_sent set_status
  server_stream md req w = if_sent (str.set_header (metadata_new req.headers []) w) λ w1.
      if_sent (send_times (rounds req) (reply_message md req 0) w1) (set_status str (some req))
