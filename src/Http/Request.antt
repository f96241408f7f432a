-- ===== src/Http/Request.antt =====
-- Package net/http: Request.Write, of a POST request that NewRequest made, and ReadRequest.
pub mod Fields
pub mod RoundTrip
use notnets_grpc.Prelude.{
  ℕ, Bool, true, false, not, ◌&&◌, List, [], ◌∷◌, ◌++◌, Option, none, some, Result, ok, err, ◌>>=◌,
  length, if◌then◌else◌,
}
use notnets_grpc.Text.{Text, codes}
use notnets_grpc.Text.Decimal.{print}
use notnets_grpc.Dict.{Multi, lookup, delete, values}
use notnets_grpc.Http.{Received}
use notnets_grpc.Http.Spaces.{clean_value}
use notnets_grpc.Http.Lines.{Line, lines_of}
use notnets_grpc.Http.Fields.{Field, message, is_field_name, fields_of, cut, malformed, read_fields}
use notnets_grpc.Http.Url.Requests.{accepts_uri}
use notnets_grpc.Http.Transfer.{
  content_length, transfer_encoding, read_body, read_transfer, is_version,
}

abbrev pub host : Text
host = codes "Host"

abbrev pub user_agent : Text
user_agent = codes "User-Agent"

-- defaultUserAgent
abbrev pub default_user_agent : Text
default_user_agent = codes "Go-http-client/1.1"

-- reqWriteExcludeHeader
abbrev pub request_excluded : List Text
request_excluded = host ∷ user_agent ∷ content_length ∷ transfer_encoding ∷ codes "Trailer" ∷ []

-- A user agent that is there and empty is not written.
abbrev pub user_agent_field : Text → List Field
user_agent_field [] = []
user_agent_field (c ∷ s) = (user_agent, c ∷ s) ∷ []

abbrev pub first_or_empty : List Text → Text
first_or_empty [] = []
first_or_empty (v ∷ _) = v

abbrev pub user_agent_of : Option (List Text) → Text
user_agent_of none = default_user_agent
user_agent_of (some vs) = clean_value (first_or_empty vs)

unfoldable pub user_agent_fields : Multi → List Field
unfolding clean_value lookup
user_agent_fields header = user_agent_field (user_agent_of (lookup user_agent header))

-- The fields of a request; its URL has no host.
unfoldable pub request_fields : Multi → Text → List Field
unfolding user_agent_fields fields_of print
request_fields header payload =
    (host, [])
    ∷ (user_agent_fields header
        ++ (content_length, print (length payload)) ∷ fields_of request_excluded header)

abbrev pub request_line : Text → Text
request_line uri = codes "POST " ++ uri ++ codes " HTTP/1.1"

-- Write of a POST request with an URI, headers and a body
unfoldable pub write_request : Text → Multi → Text → Text
unfolding message request_fields
write_request uri header payload =
    message (request_line uri) (request_fields header payload) payload

-- The method, the URI and the version.
checked : Text → Option (Text × Text) → Result Text
unfolding is_version accepts_uri
checked method none = err malformed
checked method (some (uri, version)) =
    if is_field_name method && is_version version && accepts_uri method uri
    then ok uri
    else err malformed

split_line : Option (Text × Text) → Result Text
unfolding checked cut
split_line none = err malformed
split_line (some (method, rest)) = checked method (cut b' ' rest)

-- The URI in the first line of a request.
unfoldable pub parse_request_line : Text → Result Text
unfolding split_line
parse_request_line line = split_line (cut b' ' line)

body_or_empty : Option ℕ → Line → Result Text
body_or_empty none end = ok []
body_or_empty (some n) end = read_body n end

-- if len(req.Header["Host"]) > 1 { return an error }
single_host : Multi → List Text → Result Multi
single_host m (_ ∷ _ ∷ _) = err malformed
single_host m (_ ∷ []) = ok m
single_host m [] = ok m

-- http.ReadRequest of a new reader
unfoldable pub read_request : Text → Result Received
unfolding lines_of parse_request_line read_fields single_host values read_transfer body_or_empty
    delete
read_request text = elim (lines_of text) [
  | [] ↦ err malformed
  | l ∷ ls ↦ do
    uri ← parse_request_line l.text
    (fields, end) ← read_fields none [] ls
    m ← single_host fields (values host fields)
    (m', n) ← read_transfer m
    ok (record { request_uri = uri; header = delete host m'; body = body_or_empty n end })
]
