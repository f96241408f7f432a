-- ===== src/TestService/Cases/Passing.antt =====
-- When testUnary of channel_tests_service/channel_test_cases.go passes.
use notnets_grpc.Prelude.{
  List, ℕ, ◌≡◌, ◌≢◌, refl, ◌∙◌, arith, true, false, [], ◌∷◌, none, All, All-map, ◌==◌,
}
use notnets_grpc.Text.{Text, lower}
use notnets_grpc.Dict.{Dict, lookup, values}
use notnets_grpc.Contexts.{Contexts, new_values}
use notnets_grpc.Metadata.{is_reserved, names_trailer, trailer_prefix}
use notnets_grpc.Metadata.RoundTrip.{AllMetadata}
use notnets_grpc.Http.Carrying.{AllCarried}
use notnets_grpc.Internal.CallOptions.{header, trailer, Store, get_call_options}
use notnets_grpc.Internal.TransportStream.{new_stream, or_empty, get_headers, get_trailers}
use notnets_grpc.Internal.TransportStream.History.{Call, sets_header, sets_trailer, run, held}
use notnets_grpc.Server.Handling.Sending.{IsPlainKey, IsAnswerable}
use notnets_grpc.Client.Echoing.{Carries}
use notnets_grpc.Client.Propagating.{IsSentKey}
use notnets_grpc.Client.Receiving.{Obtained}
use notnets_grpc.TestService.{Message, metadata_new, as_map}
use notnets_grpc.TestService.Handlers.{unary}
use notnets_grpc.TestService.Handlers.Calls.{unary_lem, values-metadata_new}
use notnets_grpc.TestService.Cases.{
  TestData, request_prototype, check_request_headers, check_metadata, unary_name,
}
use notnets_grpc.TestService.Cases.Checks.{
  check_request_headers_iff, check_metadata_iff, lookup-as_map,
}

-- A key of a request's metadata that the handler sees as it is, with one value.
pub record IsEchoed (m : Dict Text) (e : Text × Text) : Type 0 where
  pub sent : IsSentKey e.0
  pub free : is_reserved e.0 ≡ false
  pub once : new_values e.0 m ≡ e.1 ∷ []

-- A key of header metadata that the client sees as it is.
pub record IsHeaderKey (m : Dict Text) (e : Text × Text) : Type 0 where
  pub plain : IsPlainKey e.0
  pub no_trailer : names_trailer trailer_prefix e.0 ≡ false
  pub free : is_reserved e.0 ≡ false
  pub once : new_values e.0 m ≡ e.1 ∷ []

-- A key of trailer metadata that the client sees as it is.
pub record IsTrailerKey (m : Dict Text) (e : Text × Text) : Type 0 where
  pub some_byte : e.0 ≢ []
  pub low : lower e.0 ≡ e.0
  pub free : is_reserved e.0 ≡ false
  pub once : new_values e.0 m ≡ e.1 ∷ []

-- The calls of Unary on its transport stream.
abbrev pub unary_calls : TestData → List Call
unary_calls d =
    sets_header (metadata_new d.headers []) ∷ sets_trailer (metadata_new d.trailers []) ∷ []

-- Test data that can be sent and come back.
pub record IsTestData (d : TestData) : Type 0 where
  pub outgoing_metadata : AllMetadata (metadata_new d.outgoing [])
  pub outgoing_carried : AllCarried [] (metadata_new d.outgoing [])
  pub echoed : All (IsEchoed d.outgoing) d.outgoing
  pub headers : All (IsHeaderKey d.headers) d.headers
  pub trailers : All (IsTrailerKey d.trailers) d.trailers
  pub answerable :
      IsAnswerable
        (or_empty (get_headers (run (new_stream unary_name) (unary_calls d))))
        (or_empty (get_trailers (run (new_stream unary_name) (unary_calls d))))

-- A message as it is unmarshalled: the maps have the same entries.
pub record Unmarshalled (m m' : Message) : Type 0 where
  pub payload : m'.payload ≡ m.payload
  pub headers : (k : Text) → lookup k m'.headers ≡ lookup k m.headers

-- The checks of the reply's headers.
pub headers_echoed :
    (c : Contexts) (ctx : c.Context) (d : TestData) (m' : Message)
    → IsTestData d
    → (k : Carries c (metadata_new d.outgoing []) ctx)
    → ((j : Text) → lookup j m'.headers ≡ lookup j (as_map k.incoming []))
    → check_request_headers d.outgoing m'.headers ≡ true
headers_echoed c ctx d m' good k same = (check_request_headers_iff d.outgoing m'.headers).1 (
    All-map
      (λ e h.
        same e.0
        ∙ lookup-as_map e.0 e.1 k.incoming [] k.is_map (
            k.same_values e.0 h.sent
            ∙ rw (h.free, values-metadata_new d.outgoing [] e.0, h.once) (unfold values in refl)))
      d.outgoing good.echoed)

module _ {C P : Type 0} (d : TestData) (good : IsTestData d) (hdr tlr : ℕ)
    (apart : tlr == hdr ≡ false) (st st' : Store P)
    (obtained : Obtained
      (or_empty (get_headers (run (new_stream unary_name) (unary_calls d))))
      (or_empty (get_trailers (run (new_stream unary_name) (unary_calls d))))
      (get_call_options {C = C} (header hdr ∷ trailer tlr ∷ []))
      st
      st') where
  pub headers_obtained : check_metadata d.headers (st'.mds hdr) ≡ true
  unfolding get_call_options unary held
  headers_obtained = (check_metadata_iff d.headers (st'.mds hdr)).1 (
      All-map
        (λ e h.
          obtained.headers hdr e.0 (ground arith) (ground arith) h.no_trailer h.plain
          ∙ rw h.free ((unary_lem none (request_prototype d) unary_name e.0).0 ∙ h.once))
        d.headers good.headers)

  pub trailers_obtained : check_metadata d.trailers (st'.mds tlr) ≡ true
  unfolding get_call_options unary held
  trailers_obtained = (check_metadata_iff d.trailers (st'.mds tlr)).1 (
      All-map
        (λ e h.
          obtained.trailers tlr e.0 (ground arith) h.some_byte h.low
          ∙ rw h.free ((unary_lem none (request_prototype d) unary_name e.0).1 ∙ h.once))
        d.trailers good.trailers)
