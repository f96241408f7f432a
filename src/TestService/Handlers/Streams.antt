-- ===== src/TestService/Handlers/Streams.antt =====
-- What ClientStream and ServerStream send over a stream whose calls succeed, and what a call of Unary
-- leaves in the transport stream.
use notnets_grpc.Prelude.{
  ℕ, zero, suc, ◌==◌, ◌≡◌, refl, sym, ap, ◌∙◌, List, [], ◌∷◌, ◌++◌, none, some, leb, replicate,
  append-nil, append_assoc, if◌then◌else◌,
}
use notnets_grpc.Dict.{Multi}
use notnets_grpc.TestService.{ServerStream, Message, metadata_new, reply_message, set_status}
use notnets_grpc.TestService.Bidi.{last_read, status_of}
use notnets_grpc.TestService.Handlers.{or_empty_message, if_sent, send_times, rounds, server_stream}

-- How many messages are read: those up to the first with a code.
pub read_count : List Message → ℕ
read_count [] = 0
read_count (m ∷ ms) = let rest = read_count ms in if m.code == 0 then suc rest else 1

-- A message with the reply of ClientStream.
abbrev pub final_reply : Multi → List Message → List Message
final_reply md ms =
    let req = or_empty_message (last_read none ms) in
    if req.code == 0 then reply_message md req (read_count ms) ∷ [] else []

-- A call on a stream.
pub data StreamCall : Type 0 where
  sets_header : Multi → StreamCall
  sends : Message → StreamCall
  sets_trailer : Multi → StreamCall

-- A stream whose calls succeed and are written down in their order.
abbrev pub journal : ServerStream (List StreamCall)
journal = record {
  set_header = λ md w. (none, w ++ sets_header md ∷ []);
  send = λ m w. (none, w ++ sends m ∷ []);
  set_trailer = λ md w. w ++ sets_trailer md ∷ [];
}

send_times_lem :
    (n : ℕ) (m : Message) (w : List StreamCall)
    → send_times journal n m w ≡ (none, w ++ replicate n (sends m))
unfolding send_times if_sent
send_times_lem zero m w = ap (λ l. (none, l)) (sym (append-nil w))
send_times_lem (suc n) m w =
    send_times_lem n m (w ++ sends m ∷ [])
    ∙ ap (λ l. (none, l)) (append_assoc w (sends m ∷ []) (replicate n (sends m)))

-- The number of messages that a request asks for, none if the 32 bits are those of a negative one.
abbrev pub count_asked : Message → ℕ
count_asked req = if leb 2_147_483_648 req.count then 0 else req.count

-- Over a stream whose calls succeed, ServerStream sets the headers that the request asks for, sends as
-- many messages as it asks for, none for a negative number, then sets its trailers, and its error is
-- the status of its code, if it has one.
pub server_stream_lem :
    (md : Multi) (req : Message)
    → server_stream journal md req [] ≡ (
      status_of (some req),
      sets_header (metadata_new req.headers [])
          ∷ (replicate (count_asked req) (sends (reply_message md req 0))
              ++ sets_trailer (metadata_new req.trailers []) ∷ []),
    )
unfolding server_stream if_sent
server_stream_lem md req =
    rw
      (send_times_lem (rounds req) (reply_message md req 0)
        (sets_header (metadata_new req.headers []) ∷ []))
      (unfold set_status in refl)
