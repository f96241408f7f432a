-- ===== src/Http/Response.antt =====
-- Packages net/http and net/http/httputil: DumpResponse of a 200 response to a POST request, with a
-- body of known length and protocol numbers that are not set, and ReadResponse.
pub mod RoundTrip
use notnets_grpc.Prelude.{
  ℕ, Bool, true, false, not, ◌&&◌, ◌||◌, List, [], ◌∷◌, ◌++◌, Option, none, some, Result, ok, err,
  ◌>>=◌, length, take, if◌then◌else◌, leb, ◌==◌,
}
use notnets_grpc.Text.{Text, codes, text_eq}
use notnets_grpc.Text.Decimal.{print}
use notnets_grpc.Dict.{Multi}
use notnets_grpc.Http.Lines.{Line, lines_of}
use notnets_grpc.Http.Fields.{Field, message, fields_of, cut, malformed, read_fields}
use notnets_grpc.Http.Transfer.{
  content_length, transfer_encoding, read_body, read_transfer, is_version,
}

-- respExcludeHeader
abbrev pub response_excluded : List Text
response_excluded = content_length ∷ transfer_encoding ∷ codes "Trailer" ∷ []

unfoldable pub response_fields : Multi → Text → List Field
unfolding fields_of print
response_fields header payload =
    (content_length, print (length payload)) ∷ fields_of response_excluded header

-- The status line: ProtoMajor and ProtoMinor are zero, and the status is "200 OK".
abbrev pub status_line : Text
status_line = codes "HTTP/0.0 200 OK"

-- httputil.DumpResponse
unfoldable pub dump_response : Multi → Text → Text
unfolding message response_fields
dump_response header payload = message status_line (response_fields header payload) payload

skip_spaces : Text → Text
skip_spaces [] = []
skip_spaces (c ∷ s) = let rest = skip_spaces s in if c == b' ' then rest else c ∷ s

first_word : Text → Text
unfolding cut
first_word s = elim (cut b' ' s) [ none ↦ s | some (word, _) ↦ word ]

is_digit : ℕ → Bool
is_digit c = leb b'0' c && leb c b'9'

-- A status code has three digits, the first of which is kept apart.
abbrev pub StatusCode : Type 0
StatusCode = ℕ × Text

parse_code : Text → Result StatusCode
unfolding is_digit
parse_code (a ∷ b ∷ c ∷ []) =
    if is_digit a && is_digit b && is_digit c then ok (a, b ∷ c ∷ []) else err malformed
parse_code _ = err malformed

parse_status : Option (Text × Text) → Result StatusCode
unfolding skip_spaces first_word parse_code is_version
parse_status none = err malformed
parse_status (some (version, status)) =
    if is_version version then parse_code (first_word (skip_spaces status)) else err malformed

-- The status code in the first line of a response.
unfoldable pub parse_status_line : Text → Result StatusCode
unfolding parse_status cut
parse_status_line line = parse_status (cut b' ' line)

-- 1xx, 204 and 304
has_no_body : StatusCode → Bool
unfolding text_eq
has_no_body (a, bc) =
    text_eq (a ∷ []) (codes "1") || text_eq (a ∷ bc) (codes "204") || text_eq (a ∷ bc) (codes "304")

-- Without a length the body ends where the bytes end.
body_or_rest : Option ℕ → Line → Result Text
body_or_rest none end = ok (take end.ready end.rest)
body_or_rest (some n) end = read_body n end

-- http.ReadResponse of a new reader, for a POST request, with what ReadAll of its body gives
unfoldable pub read_response : Text → Result (Multi × Result Text)
unfolding lines_of parse_status_line read_fields read_transfer body_or_rest has_no_body
read_response text = elim (lines_of text) [
  | [] ↦ err malformed
  | l ∷ ls ↦ do
    code ← parse_status_line l.text
    (m, end) ← read_fields none [] ls
    (m', n) ← read_transfer m
    ok (m', if has_no_body code then ok [] else body_or_rest n end)
]
