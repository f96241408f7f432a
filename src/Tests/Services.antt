-- ===== src/Tests/Services.antt =====
-- The handlers of the test service.
use notnets_grpc.Prelude.{◌++◌, ℕ, ◌≡◌, ◌≢◌, ◌↔◌, List, [], ◌∷◌, none, some, replicate}
use notnets_grpc.Text.{Text, codes}
use notnets_grpc.Contexts.{new_values}
use notnets_grpc.Internal.TransportStream.{new_stream, get_headers, get_trailers}
use notnets_grpc.Internal.TransportStream.History.{held, run}
use notnets_grpc.TestService.{Message, metadata_new, as_map, reply_message}
use notnets_grpc.TestService.Bidi.{status_of}
use notnets_grpc.TestService.Handlers.{unary, or_nil, server_stream}
use notnets_grpc.TestService.Handlers.Streams.{
  sets_header, sends, sets_trailer, journal, server_stream_lem,
}
use notnets_grpc.TestService.Handlers.Calls.{unary_lem}

abbrev plain : Text → ℕ → ℕ → Message
plain payload code count = record {
  headers = (codes "Foo", codes "1") ∷ [];
  trailers = (codes "Bar", codes "2") ∷ [];
  payload = payload;
  code = code;
  count = count;
}

-- The first asks for half duplex (its count is -1), and the third has a code.
abbrev half_duplex : List Message
half_duplex =
    plain (codes "a") 0 4_294_967_295
    ∷ plain (codes "b") 0 0
    ∷ plain (codes "c") 3 0
    ∷ plain (codes "d") 0 0
    ∷ []

server_stream_lem_example : server_stream journal [] (plain (codes "a") 0 3) [] ≡ (
  status_of (some (plain (codes "a") 0 3)),
  sets_header (metadata_new (plain (codes "a") 0 3).headers [])
      ∷ (replicate 3 (sends (reply_message [] (plain (codes "a") 0 3) 0))
          ++ sets_trailer (metadata_new (plain (codes "a") 0 3).trailers []) ∷ []),
)
server_stream_lem_example = server_stream_lem [] (plain (codes "a") 0 3)

unary_lem_example :
    (held
        (codes "foo")
        (get_headers (run (new_stream []) (unary none (plain (codes "a") 0 0)).calls))
      ≡ new_values (codes "foo") (plain (codes "a") 0 0).headers)
    × (held
          (codes "foo")
          (get_trailers (run (new_stream []) (unary none (plain (codes "a") 0 0)).calls))
        ≡ new_values (codes "foo") (plain (codes "a") 0 0).trailers)
    × (((unary none (plain (codes "a") 0 0)).failed ≡ none) ↔ ((plain (codes "a") 0 0).code ≡ 0))
    × (((unary none (plain (codes "a") 0 0)).reply ≡ none) ↔ ((plain (codes "a") 0 0).code ≢ 0))
    × ((m : Message)
        → (unary none (plain (codes "a") 0 0)).reply ≡ some m
        → (m.payload ≡ (plain (codes "a") 0 0).payload) × (m.headers ≡ as_map (or_nil none) []))
unary_lem_example = unary_lem none (plain (codes "a") 0 0) [] (codes "foo")
