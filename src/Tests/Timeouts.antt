-- ===== src/Tests/Timeouts.antt =====
-- Deadlines in headers.
use notnets_grpc.Prelude.{
  ℤ, ℕ, ◌*◌, ◌≡◌, ◌≢◌, refl, [], ◌∷◌, ◌++◌, some, none, ok, arith, pos, negsuc,
}
use notnets_grpc.Text.{codes, lower, lower_byte}
use notnets_grpc.Text.Decimal.{print, parse_int}
use notnets_grpc.Dict.{Multi}
use notnets_grpc.Header.{is_name, is_token}
use notnets_grpc.Metadata.RoundTrip.{AllMetadata}
use notnets_grpc.Timeout.{timeout_text, timeout_of, headers_from_context, context_from_headers}
use notnets_grpc.Timeout.RoundTrip.{Serves, timeout_of-timeout_text}
use notnets_grpc.Timeout.Overflow.{TimeoutUnit, letter, nanoseconds, Wraps, timeout_of-print_lem}
use notnets_grpc.Timeout.Propagation.{Received, context_from_headers-headers_from_context}
use notnets_grpc.Tests.World.{Plain, lowered_option, contexts, context_laws, blank}

-- 2.5 ms, half a millisecond, and a deadline that has passed
texts :
    (timeout_text (pos 2_500_000) ≡ codes "2m")
    × (timeout_text (pos 500_000) ≡ codes "1m")
    × (timeout_text (negsuc 4) ≡ codes "1m")
unfolding timeout_text
texts = (refl, refl, refl)

-- A unit that is none, no digits, a sign, and a number that is none.
timeouts :
    (timeout_of (codes "3S") ≡ some (pos 3_000_000_000))
    × (timeout_of (codes "3x") ≡ none)
    × (timeout_of (codes "m") ≡ none)
    × (timeout_of (codes "-1u") ≡ some (negsuc 999))
    × (timeout_of (codes "1_0n") ≡ none)
unfolding timeout_of parse_int
timeouts = (refl, refl, refl, refl, refl)

-- The longest timeout of the gRPC wire format in hours, which has eight digits, comes out negative.
ninety_nine_million_hours : timeout_of (codes "99999999H") ≡ some (negsuc 8_934_885_074_191_032_319)
unfolding timeout_of parse_int
ninety_nine_million_hours = refl

timeout_of-timeout_text_example :
    (d : ℕ) × (timeout_of (timeout_text (pos 2_500_000)) ≡ some (pos d)) × Serves (pos 2_500_000) d
timeout_of-timeout_text_example = timeout_of-timeout_text (pos 2_500_000) (omega arith)

timeout_of-print_lem_example :
    ((u : TimeoutUnit)
      → (d : ℤ) × (timeout_of (print 99_999_999 ++ letter u ∷ []) ≡ some d)
        × Wraps (99_999_999 * nanoseconds u) d)
    × ((c : ℕ)
        → ((u : TimeoutUnit) → letter u ≢ c)
        → timeout_of (print 99_999_999 ++ c ∷ []) ≡ none)
timeout_of-print_lem_example = timeout_of-print_lem 99_999_999 (omega arith)

abbrev sent : Multi
sent = (codes "user", codes "ann" ∷ []) ∷ []

sent-AllMetadata : AllMetadata sent
unfolding lower lower_byte is_name is_token
sent-AllMetadata = (record { in_lower_case = refl; named = refl; bytes = omega arith }, tt)

-- A client with metadata, and 2.5 ms left.
abbrev client : Plain
client = record blank { outgoing = some sent; deadline = some (pos 2_500_000) }

client_sends : contexts.from_outgoing client ≡ some sent
unfolding lowered_option lower lower_byte
client_sends = refl

context_from_headers-headers_from_context_example :
    (ctx' : Plain) × (context_from_headers contexts blank (headers_from_context contexts client)
      ≡ ok ctx')
    × Received contexts sent (pos 2_500_000) ctx'
context_from_headers-headers_from_context_example =
    context_from_headers-headers_from_context contexts context_laws client blank sent
      (pos 2_500_000) client_sends refl (omega arith) refl (tt, tt) sent-AllMetadata
