-- ===== src/TestService.antt =====
-- channel_tests_service/test_service.go: the service that the tests call. Sleeping is left out. An
-- int32 is the number that its 32 bits are, and a status error is an error of package status with
-- the code as its number.
pub mod Bidi
pub mod Cases
pub mod Handlers
use notnets_grpc.Prelude.{
  ℕ, ◌+◌, ◌%◌, ◌^◌, ◌==◌, leb, Bool, true, false, List, [], ◌∷◌, ◌++◌, Option, none, some, Err,
  outside, Result, ok, err, if◌then◌else◌,
}
use notnets_grpc.Text.{Text, lower}
use notnets_grpc.Dict.{Dict, Multi, insert, append_at}

-- The fields of Message that the handlers use.
pub record Message : Type 0 where
  pub headers : Dict Text
  pub trailers : Dict Text
  pub payload : Text
  pub code : ℕ
  pub count : ℕ

-- MetadataNew of channel_test_cases.go
unfoldable pub metadata_new : Dict Text → Multi → Multi
metadata_new [] md = md
metadata_new ((k, v) ∷ m) md = metadata_new m (append_at (lower k) (v ∷ []) md)

-- m[k] = vs[len(vs)-1], for some values
put_last : Text → List Text → Dict Text → Dict Text
put_last k [] m = m
put_last k (v ∷ []) m = insert k v m
put_last k (v ∷ u ∷ vs) m = put_last k (u ∷ vs) m

-- The loop of asMap.
unfoldable pub as_map : Multi → Dict Text → Dict Text
unfolding put_last
as_map [] m = m
as_map ((k, vs) ∷ md) m = as_map md (put_last k vs m)

-- statusFromRequest
abbrev pub status_from_request : Message → Err
status_from_request req = outside req.code

-- grpc.ServerStream with the Send of the generated server: their effects on a state.
pub record ServerStream (W : Type 0) : Type 0 where
  pub set_header : Multi → W → Option Err × W
  pub send : Message → W → Option Err × W
  pub set_trailer : Multi → W → W

-- How the loop of BidiStream ends: with a return, or with the variables req, responses and
-- isHalfDuplex.
pub data Ended (W : Type 0) : Type 0 where
  returned : Err → W → Ended W
  left : Option Message → List Message → Bool → W → Ended W

-- count++
abbrev pub increment : ℕ → ℕ
increment count = (count + 1) % 2 ^ 32

abbrev pub is_negative : ℕ → Bool
is_negative count = leb (2 ^ 31) count

-- replyMsg, for the count after the increment
abbrev pub reply_message : Multi → Message → ℕ → Message
reply_message md req count = record {
  headers = as_map md [];
  trailers = [];
  payload = req.payload;
  code = 0;
  count = count;
}

-- if err != nil { return err }
pub unless_failed : {W : Type 0} → Option Err × W → (W → Ended W) → Ended W
unless_failed (some e, w) next = returned e w
unless_failed (none, w) next = next w

module _ {W : Type 0} (str : ServerStream W) where
  unfoldable pub send_all : List Message → W → Option Err × W
  send_all [] w = (none, w)
  send_all (m ∷ ms) w = sent_one (send_all ms) (str.send m w)
    where
      sent_one : (W → Option Err × W) → Option Err × W → Option Err × W
      sent_one rest (some e, w') = (some e, w')
      sent_one rest (none, w') = rest w'

  unfoldable pub set_status : Option Message → W → Option Err × W
  set_status none w = (none, w)
  set_status (some req) w = (
    if req.code == 0 then none else some (status_from_request req),
    str.set_trailer (metadata_new req.trailers []) w,
  )

  after_flush : Option Message → Option Err × W → Option Err × W
  unfolding set_status
  after_flush req (some e, w) = (some e, w)
  after_flush req (none, w) = set_status req w

  after_loop : Ended W → Option Err × W
  unfolding after_flush send_all
  after_loop (returned e w) = (some e, w)
  after_loop (left req responses half w) =
      after_flush req (if half then send_all responses w else (none, w))

module _ {W : Type 0} (str : ServerStream W) (md : Multi) where
  -- The reply to one message, sent or kept, and the rest of the loop.
  answer : Message → ℕ → List Message → (List Message → Bool → W → Ended W) → Bool → W → Ended W
  unfolding unless_failed
  answer req count responses next half w =
      if req.code == 0
      then (if half
          then next (responses ++ reply_message md req (increment count) ∷ []) half w
          else unless_failed (str.send (reply_message md req (increment count)) w)
              (next responses half))
      else left (some req) responses half w

  -- The loop over what Recv gives, before io.EOF.
  unfoldable pub receive_loop :
      List (Result Message) → Option Message → ℕ → List Message → Bool → W → Ended W
  unfolding answer
  receive_loop [] req count responses half w = left req responses half w
  receive_loop (err e ∷ rs) req count responses half w = returned e w
  receive_loop (ok r ∷ rs) req count responses half w =
      let next : List Message → Bool → W → Ended W = receive_loop rs (some r) (increment count) in
      if count == 0
      then unless_failed (str.set_header (metadata_new r.headers []) w)
          (answer r count responses next (is_negative r.count))
      else answer r count responses next half w

  -- BidiStream, over what Recv gives before io.EOF
  unfoldable pub bidi_stream : List (Result Message) → W → Option Err × W
  unfolding receive_loop after_loop
  bidi_stream received w = after_loop str (receive_loop received none 0 [] false w)
