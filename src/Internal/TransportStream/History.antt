-- ===== src/Internal/TransportStream/History.antt =====
-- What a stream holds after any sequence of calls, told from the calls alone.
use notnets_grpc.Prelude.{
  ◌≡◌, refl, ◌∙◌, Bool, true, List, [], ◌∷◌, ◌++◌, Option, Result, ok, err, headers_already_sent,
  trailers_already_sent, arith, All, append-nil, append_assoc, if◌then◌else◌,
}
use notnets_grpc.Text.{Text, text_eq_iff}
use notnets_grpc.Dict.{Multi, values, append_at}
use notnets_grpc.Dict.Laws.{IsMap, values-append_at, values-Lacks}
use notnets_grpc.Internal.TransportStream.{
  UnaryServerTransportStream, new_stream, finish, merge, or_empty, set_header, send_header,
  set_trailer, get_headers, get_trailers,
}

pub data Call : Type 0 where
  sets_header sends_header sets_trailer : Multi → Call
  finishes : Call

-- One call: its error, if any, and the stream after it.
unfoldable pub apply :
    UnaryServerTransportStream → Call → Result (Unit {0}) × UnaryServerTransportStream
unfolding set_header send_header set_trailer finish
apply sts (sets_header md) = set_header sts md
apply sts (sends_header md) = send_header sts md
apply sts (sets_trailer md) = set_trailer sts md
apply sts finishes = (ok tt, finish sts)

unfoldable pub run : UnaryServerTransportStream → List Call → UnaryServerTransportStream
unfolding apply
run sts [] = sts
run sts (c ∷ cs) = run (apply sts c).1 cs

-- The header metadata that calls add: those up to the first SendHeader or Finish.
unfoldable pub headers_of : List Call → List Multi
headers_of [] = []
headers_of (sets_header md ∷ cs) = md ∷ headers_of cs
headers_of (sends_header md ∷ cs) = md ∷ []
headers_of (sets_trailer md ∷ cs) = headers_of cs
headers_of (finishes ∷ cs) = []

-- The trailer metadata: those up to the first Finish.
unfoldable pub trailers_of : List Call → List Multi
trailers_of [] = []
trailers_of (sets_header md ∷ cs) = trailers_of cs
trailers_of (sends_header md ∷ cs) = trailers_of cs
trailers_of (sets_trailer md ∷ cs) = md ∷ trailers_of cs
trailers_of (finishes ∷ cs) = []

-- The values of a key in each of some metadata, one after the other.
unfoldable pub all_values : Text → List Multi → List Text
all_values j [] = []
all_values j (md ∷ mds) = values j md ++ all_values j mds

values-merge :
    (j : Text) (md m : Multi) → IsMap md → values j (merge md m) ≡ values j m ++ values j md
unfolding merge values
values-merge j [] m d = ground (arith, append-nil (values j m))
values-merge j ((k, vs) ∷ md) m d = ground (
  arith,
  values-merge j md (append_at k vs m) d.1,
  values-append_at k j vs m,
  values-Lacks j md,
  text_eq_iff k j,
  append-nil (values j m),
  append_assoc (values j m) vs (values j md),
  append-nil (values j m ++ vs),
)

abbrev pub IsGoCall : Call → Type 0
IsGoCall (sets_header md) = IsMap md
IsGoCall (sends_header md) = IsMap md
IsGoCall (sets_trailer md) = IsMap md
IsGoCall finishes = Unit

-- The values that GetHeaders or GetTrailers returns for a key; a nil map has none.
unfoldable pub held : Text → Option Multi → List Text
unfolding or_empty
held j m = values j (or_empty m)

headers_run :
    (sts : UnaryServerTransportStream) (cs : List Call) (j : Text)
    → All IsGoCall cs
    → held j (get_headers (run sts cs))
      ≡ held j sts.hdrs ++ (if sts.hdrs_sent then [] else all_values j (headers_of cs))
unfolding run held get_headers headers_of all_values
headers_run sts [] j g = ground (arith, append-nil (held j sts.hdrs))
headers_run sts (sets_header md ∷ cs) j (g, gs) = ground (
  arith,
  headers_run (set_header sts md).1 cs j gs,
  values-merge j md (or_empty sts.hdrs) g,
  append_assoc (held j sts.hdrs) (values j md) (all_values j (headers_of cs)),
)
headers_run sts (sends_header md ∷ cs) j (g, gs) = ground (
  arith,
  headers_run (send_header sts md).1 cs j gs,
  values-merge j md (or_empty sts.hdrs) g,
  append-nil (values j md),
  append-nil (values j (merge md (or_empty sts.hdrs))),
)
headers_run sts (sets_trailer md ∷ cs) j (g, gs) =
    ground (arith, headers_run (set_trailer sts md).1 cs j gs)
headers_run sts (finishes ∷ cs) j (g, gs) = ground (arith, headers_run (finish sts) cs j gs)

trailers_run :
    (sts : UnaryServerTransportStream) (cs : List Call) (j : Text)
    → All IsGoCall cs
    → held j (get_trailers (run sts cs))
      ≡ held j sts.tlrs ++ (if sts.tlrs_sent then [] else all_values j (trailers_of cs))
unfolding run held get_trailers trailers_of all_values
trailers_run sts [] j g = ground (arith, append-nil (held j sts.tlrs))
trailers_run sts (sets_header md ∷ cs) j (g, gs) =
    ground (arith, trailers_run (set_header sts md).1 cs j gs)
trailers_run sts (sends_header md ∷ cs) j (g, gs) =
    ground (arith, trailers_run (send_header sts md).1 cs j gs)
trailers_run sts (sets_trailer md ∷ cs) j (g, gs) = ground (
  arith,
  trailers_run (set_trailer sts md).1 cs j gs,
  values-merge j md (or_empty sts.tlrs) g,
  append_assoc (held j sts.tlrs) (values j md) (all_values j (trailers_of cs)),
)
trailers_run sts (finishes ∷ cs) j (g, gs) = ground (arith, trailers_run (finish sts) cs j gs)

-- After any calls on a new stream, GetHeaders has for each key the values of all metadata given to
-- SetHeader and SendHeader up to the first SendHeader or Finish, in the order of the calls, and
-- GetTrailers those given to SetTrailer up to the first Finish.
pub held-run :
    (name : Text) (cs : List Call) (j : Text)
    → All IsGoCall cs
    → (held j (get_headers (run (new_stream name) cs)) ≡ all_values j (headers_of cs))
      × (held j (get_trailers (run (new_stream name) cs)) ≡ all_values j (trailers_of cs))
held-run name cs j g = (
  headers_run (new_stream name) cs j g ∙ (unfold held values in refl),
  trailers_run (new_stream name) cs j g ∙ (unfold held values in refl),
)

-- Which calls are refused: SetHeader and SendHeader once headers were sent or the stream finished,
-- SetTrailer once it finished.
pub outcomes : Bool → Bool → List Call → List (Result (Unit {0}))
outcomes h t [] = []
outcomes h t (sets_header md ∷ cs) =
    (if h then err headers_already_sent else ok tt) ∷ outcomes h t cs
outcomes h t (sends_header md ∷ cs) =
    (if h then err headers_already_sent else ok tt) ∷ outcomes true t cs
outcomes h t (sets_trailer md ∷ cs) =
    (if t then err trailers_already_sent else ok tt) ∷ outcomes h t cs
outcomes h t (finishes ∷ cs) = ok tt ∷ outcomes true true cs

pub results : UnaryServerTransportStream → List Call → List (Result (Unit {0}))
unfolding apply
results sts [] = []
results sts (c ∷ cs) = (apply sts c).0 ∷ results (apply sts c).1 cs

-- SetHeader and SendHeader fail, with the error for headers, exactly after a SendHeader or a Finish,
-- and SetTrailer fails, with the error for trailers, exactly after a Finish; Finish never fails.
pub results_lem :
    (sts : UnaryServerTransportStream) (cs : List Call)
    → results sts cs ≡ outcomes sts.hdrs_sent sts.tlrs_sent cs
unfolding results outcomes
results_lem sts [] = refl
results_lem sts (sets_header md ∷ cs) = ground (arith, results_lem (set_header sts md).1 cs)
results_lem sts (sends_header md ∷ cs) = ground (arith, results_lem (send_header sts md).1 cs)
results_lem sts (sets_trailer md ∷ cs) = ground (arith, results_lem (set_trailer sts md).1 cs)
results_lem sts (finishes ∷ cs) = ground (arith, results_lem (finish sts) cs)
