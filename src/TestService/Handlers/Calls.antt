-- ===== src/TestService/Handlers/Calls.antt =====
-- A call of Unary, with the transport stream that it is served with.
use notnets_grpc.Prelude.{
  ◌≡◌, ◌≢◌, ◌↔◌, sym, ◌∙◌, [], ◌∷◌, ◌++◌, Option, none, some, All, arith, append-nil, append_assoc,
}
use notnets_grpc.Text.{Text, lower}
use notnets_grpc.Dict.{Dict, Multi, values, append_at}
use notnets_grpc.Dict.Laws.{IsMap, append_at-IsMap, values-append_at}
use notnets_grpc.Contexts.{new_values}
use notnets_grpc.Internal.TransportStream.{new_stream, get_headers, get_trailers}
use notnets_grpc.Internal.TransportStream.History.{
  held, run, held-run, all_values, headers_of, trailers_of, IsGoCall,
}
use notnets_grpc.TestService.{Message, metadata_new, as_map}
use notnets_grpc.TestService.Handlers.{unary, or_nil}

pub values-metadata_new :
    (m : Dict Text) (md : Multi) (j : Text)
    → values j (metadata_new m md) ≡ values j md ++ new_values j m
unfolding metadata_new
values-metadata_new [] md j = sym (append-nil (values j md))
values-metadata_new ((k, v) ∷ m) md j = ground (
  arith,
  values-metadata_new m (append_at (lower k) (v ∷ []) md) j,
  values-append_at (lower k) j (v ∷ []) md,
  append_assoc (values j md) (v ∷ []) (new_values j m),
)

pub metadata_new-IsMap : (m : Dict Text) (md : Multi) → IsMap md → IsMap (metadata_new m md)
unfolding metadata_new
metadata_new-IsMap [] md h = h
metadata_new-IsMap ((k, v) ∷ m) md h =
    metadata_new-IsMap m (append_at (lower k) (v ∷ []) md) (append_at-IsMap (lower k) (v ∷ []) md h)

values_of_new : (m : Dict Text) (j : Text) → all_values j (metadata_new m [] ∷ []) ≡ new_values j m
unfolding all_values values
values_of_new m j = append-nil (values j (metadata_new m [])) ∙ values-metadata_new m [] j

-- After a call of Unary the transport stream holds the headers and the trailers that the request
-- asks for, under keys in lower case. It fails exactly if the request has a code, and then it has no
-- reply; a reply has the request's payload and the incoming metadata.
pub unary_lem :
    (incoming : Option Multi) (req : Message) (name j : Text)
    → (held j (get_headers (run (new_stream name) (unary incoming req).calls))
        ≡ new_values j req.headers)
      × (held j (get_trailers (run (new_stream name) (unary incoming req).calls))
          ≡ new_values j req.trailers)
      × (((unary incoming req).failed ≡ none) ↔ (req.code ≡ 0))
      × (((unary incoming req).reply ≡ none) ↔ (req.code ≢ 0))
      × ((m : Message)
          → (unary incoming req).reply ≡ some m
          → (m.payload ≡ req.payload) × (m.headers ≡ as_map (or_nil incoming) []))
unfolding unary headers_of trailers_of
unary_lem incoming req name j =
    let is_call : All IsGoCall (unary incoming req).calls =
      (metadata_new-IsMap req.headers [] tt, (metadata_new-IsMap req.trailers [] tt, tt)) in
    let (headers, trailers) = held-run name (unary incoming req).calls j is_call in
    (
      headers ∙ values_of_new req.headers j,
      trailers ∙ values_of_new req.trailers j,
      ground arith,
      ground arith,
      λ m e. ground arith,
    )
