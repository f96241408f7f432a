-- ===== src/TestService/Bidi.antt =====
-- What BidiStream sends over a stream whose calls succeed.
use notnets_grpc.Prelude.{
  ℕ, ◌+◌, ◌^◌, ◌<◌, ◌==◌, ◌≡◌, Bool, List, [], ◌∷◌, ◌++◌, map, Option, none, some, Err, ok, arith,
  if◌then◌else◌,
}
use notnets_grpc.Dict.{Multi}
use notnets_grpc.TestService.{
  Message, metadata_new, status_from_request, ServerStream, Ended, left, increment, reply_message,
  answer, receive_loop,
}

-- What was done with a stream.
pub record Log : Type 0 where
  pub headers : List Multi
  pub sent : List Message
  pub trailers : List Multi

abbrev pub recorder : ServerStream Log
recorder = record {
  set_header = λ md w. (none, record w { headers = w.headers ++ md ∷ [] });
  send = λ m w. (none, record w { sent = w.sent ++ m ∷ [] });
  set_trailer = λ md w. record w { trailers = w.trailers ++ md ∷ [] };
}

abbrev pub fresh : Log
fresh = record { headers = []; sent = []; trailers = [] }

-- The messages before the first with a code.
pub answered : List Message → List Message
answered [] = []
answered (m ∷ ms) = let rest = answered ms in if m.code == 0 then m ∷ rest else []

-- The last message that is received: the first with a code, if there is one.
unfoldable pub last_read : Option Message → List Message → Option Message
last_read req [] = req
last_read req (m ∷ ms) = let rest = last_read (some m) ms in if m.code == 0 then rest else some m

-- The replies to some messages, numbered from n + 1.
pub replies : Multi → ℕ → List Message → List Message
replies md n [] = []
replies md n (m ∷ ms) = reply_message md m (n + 1) ∷ replies md (n + 1) ms

abbrev pub first_headers : List Message → List Multi
first_headers [] = []
first_headers (m ∷ ms) = metadata_new m.headers [] ∷ []

abbrev pub last_trailers : Option Message → List Multi
last_trailers none = []
last_trailers (some m) = metadata_new m.trailers [] ∷ []

abbrev pub status_of : Option Message → Option Err
status_of none = none
status_of (some m) = if m.code == 0 then none else some (status_from_request m)

abbrev sending : Log → List Message → Log
sending w ms = record w { sent = w.sent ++ ms }

pub increment_lem : (k : ℕ) → k + 1 < 2 ^ 32 → increment k ≡ k + 1
increment_lem k h = omega arith

module _ (md : Multi) where
  -- How the loop ends after some messages, from a state of its variables.
  abbrev leaves : List Message → Option Message → ℕ → List Message → Bool → Log → Ended Log
  leaves ms req k responses half w =
      left (last_read req ms) (if half then responses ++ replies md k (answered ms) else responses)
        half (if half then w else sending w (replies md k (answered ms)))

  abbrev step : Message → List Message → ℕ → List Message → Bool → Log → Ended Log
  step m ms k responses =
      answer recorder md m k responses (receive_loop recorder md (map ok ms) (some m) (increment k))

  -- The headers are set at the first message.
  abbrev begun : Message → Log
  begun m = record fresh { headers = metadata_new m.headers [] ∷ [] }
