-- ===== src/Metadata.antt =====
-- Metadata in HTTP headers: toHeaders of utils.go, asMetadata and setMetadata of client.go.
pub mod Gather
pub mod Travel
pub mod RoundTrip
pub mod Setting
pub mod Split
pub mod TrailerNames
pub mod Trailers
use notnets_grpc.Prelude.{
  ℕ, ◌≡◌, Bool, true, false, ◌&&◌, not, List, [], ◌∷◌, ◌++◌, Option, none, some, Result, ok, err,
  ◌>>=◌, length, drop, if◌then◌else◌,
}
use notnets_grpc.Text.{Text, codes, text_eq, lower, has_prefix, has_suffix}
use notnets_grpc.Base64.{encode, decode}
use notnets_grpc.Dict.{Dict, Multi, insert, delete, append_at}
use notnets_grpc.Header.{add}
use notnets_grpc.Internal.CallOptions.{CallOptions, Store, set_headers, set_trailers}

-- reservedHeaders
abbrev pub reserved_headers : List Text
reserved_headers =
    codes "accept-encoding"
    ∷ codes "connection"
    ∷ codes "content-type"
    ∷ codes "content-length"
    ∷ codes "keep-alive"
    ∷ codes "te"
    ∷ codes "trailer"
    ∷ codes "transfer-encoding"
    ∷ codes "upgrade"
    ∷ []

contains : List Text → Text → Bool
contains [] k = false
contains (r ∷ rs) k = if text_eq r k then true else contains rs k

-- _, ok := reservedHeaders[k]
unfoldable pub is_reserved : Text → Bool
unfolding contains text_eq
is_reserved k = contains reserved_headers k

-- strings.HasSuffix(k, "-bin")
unfoldable pub is_binary : Text → Bool
unfolding has_suffix
is_binary k = has_suffix k (codes "-bin")

unfoldable pub encode_value : Bool → Text → Text
encode_value true v = encode v
encode_value false v = v

-- The inner loop of toHeaders: `k` is the header's name, prefix included.
unfoldable pub add_values : Text → Bool → List Text → Multi → Multi
add_values k binary [] h = h
add_values k binary (v ∷ vs) h = add_values k binary vs (add k (encode_value binary v) h)

-- toHeaders(md, h, prefix), which mutates h
unfoldable pub to_headers : Multi → Multi → Text → Multi
unfolding is_reserved is_binary encode_value add_values
to_headers [] h prefix = h
to_headers ((k, vs) ∷ md) h prefix =
    to_headers md
      (if is_reserved (lower k) then h else add_values (prefix ++ k) (is_binary (lower k)) vs h)
      prefix

unfoldable pub decode_value : Bool → Text → Result Text
decode_value true v = decode v
decode_value false v = ok v

-- The inner loop of asMetadata: `k` is in lower case.
unfoldable pub collect : Text → List Text → Multi → Result Multi
unfolding is_binary decode_value
collect k [] md = ok md
collect k (v ∷ vs) md = do w ← decode_value (is_binary k) v; collect k vs (append_at k (w ∷ []) md)

unfoldable pub as_metadata_from : Multi → Multi → Result Multi
unfolding collect
as_metadata_from [] md = ok md
as_metadata_from ((k, vs) ∷ header) md = do
  md' ← collect (lower k) vs md
  as_metadata_from header md'

-- asMetadata(header)
unfoldable pub as_metadata : Multi → Result Multi
unfolding as_metadata_from
as_metadata header = as_metadata_from header []

abbrev pub trailer_prefix : Text
trailer_prefix = codes "x-grpc-trailer-"

-- The test on a key in the loop of setMetadata, and the trailer's name that it guards.
unfoldable pub names_trailer : Text → Text → Bool
unfolding has_prefix lower text_eq
names_trailer prefix k = has_prefix (lower k) prefix && not (text_eq (drop (length prefix) k) [])

-- The loop of setMetadata over the entries of `hdr`, which it deletes from as it goes: the header
-- metadata and the trailer metadata.
unfoldable pub split_trailers : Text → Multi → Multi → Multi → Multi × Multi
unfolding names_trailer
split_trailers prefix [] hdr tlr = (hdr, tlr)
split_trailers prefix ((k, vs) ∷ rest) hdr tlr =
    split_trailers prefix rest (if names_trailer prefix k then delete k hdr else hdr)
      (if names_trailer prefix k then insert (drop (length prefix) k) vs tlr else tlr)

-- setMetadata(h, copts): the variables that the call options lead to, after it.
unfoldable pub set_metadata : {C P : Type 0} → Multi → CallOptions C → Store P → Result (Store P)
unfolding as_metadata split_trailers
set_metadata h copts s = do
  hdr ← as_metadata h
  let (hdr', tlr) = split_trailers trailer_prefix hdr hdr []
  ok (set_trailers copts tlr (set_headers copts hdr' s))

-- The prefix that handleMethod passes to toHeaders.
abbrev pub server_prefix : Text
server_prefix = codes "X-GRPC-Trailer-"

-- The headers of a response with the given header and trailer metadata.
abbrev pub response_headers : Multi → Multi → Multi
response_headers hdr tlr = to_headers tlr (to_headers hdr [] []) server_prefix
