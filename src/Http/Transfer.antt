-- ===== src/Http/Transfer.antt =====
-- What ReadRequest and ReadResponse of net/http do after the header block: readTransfer, and what
-- ReadAll gives of the body when the buffer under the reader was reset, so that only the bytes in
-- the reader's own buffer are left of it.
pub mod Keeping
use notnets_grpc.Prelude.{
  ℕ, Bool, true, false, not, List, [], ◌∷◌, Option, none, some, Err, Result, ok, err, outside,
  ◌>>=◌, leb, take, if◌then◌else◌,
}
use notnets_grpc.Text.{Text, codes, text_eq}
use notnets_grpc.Text.Decimal.{parse_uint63}
use notnets_grpc.Dict.{Multi, lookup, insert, values}
use notnets_grpc.Http.Spaces.{trim}
use notnets_grpc.Http.Lines.{Line}
use notnets_grpc.Http.Fields.{malformed}

abbrev pub content_length : Text
content_length = codes "Content-Length"

abbrev pub transfer_encoding : Text
transfer_encoding = codes "Transfer-Encoding"

abbrev pub cache_control : Text
cache_control = codes "Cache-Control"

abbrev no_cache : Text
no_cache = codes "no-cache"

-- io.ErrUnexpectedEOF
abbrev pub unexpected_eof : Err
unexpected_eof = outside 2

add_no_cache : Multi → Option (List Text) → Multi
unfolding insert
add_no_cache m none = insert cache_control (no_cache ∷ []) m
add_no_cache m (some _) = m

fix_pragma : Multi → List Text → Multi
unfolding text_eq add_no_cache lookup
fix_pragma m [] = m
fix_pragma m (v ∷ vs) = if text_eq v no_cache then add_no_cache m (lookup cache_control m) else m

-- fixPragmaCacheControl
unfoldable pub fix_pragma_cache_control : Multi → Multi
unfolding fix_pragma
fix_pragma_cache_control m = fix_pragma m (values (codes "Pragma") m)

all_are : Text → List Text → Bool
all_are v [] = true
all_are v (w ∷ ws) = if text_eq (trim w) v then all_are v ws else false

to_result : Option ℕ → Result (Option ℕ)
to_result none = err malformed
to_result (some n) = ok (some n)

-- fixLength: the length that the headers of that name agree on
unfoldable pub fix_length : List Text → Result (Option ℕ)
unfolding all_are to_result trim
fix_length [] = ok none
fix_length (v ∷ vs) =
    if all_are (trim v) vs then to_result (parse_uint63 (trim v)) else err malformed

-- Repeated lengths are written once.
unfoldable pub dedupe_length : List Text → Multi → Multi
unfolding trim
dedupe_length [] m = m
dedupe_length (v ∷ []) m = m
dedupe_length (v ∷ _ ∷ _) m = insert content_length (trim v ∷ []) m

-- ReadAll of a body of known length
unfoldable pub read_body : ℕ → Line → Result Text
read_body n end = if leb n end.ready then ok (take n end.rest) else err unexpected_eof

with_encoding : Multi → List Text → Result (Multi × Option ℕ)
unfolding fix_length dedupe_length
with_encoding m (_ ∷ _) = err malformed
with_encoding m [] = do
  n ← fix_length (values content_length m)
  ok (dedupe_length (values content_length m) m, n)

-- The header and the length of the body. A message with a transfer encoding is taken for malformed:
-- chunked bodies are not modelled, and neither writer makes them.
unfoldable pub read_transfer : Multi → Result (Multi × Option ℕ)
unfolding fix_pragma_cache_control with_encoding
read_transfer m =
    with_encoding (fix_pragma_cache_control m)
      (values transfer_encoding (fix_pragma_cache_control m))

is_digit_byte : ℕ → Bool
is_digit_byte c = if leb b'0' c then leb c b'9' else false

-- ParseHTTPVersion, of which only the success counts here
unfoldable pub is_version : Text → Bool
unfolding is_digit_byte text_eq
is_version (h ∷ t1 ∷ t2 ∷ p ∷ s ∷ major ∷ dot ∷ minor ∷ []) =
    if text_eq (h ∷ t1 ∷ t2 ∷ p ∷ s ∷ dot ∷ []) (codes "HTTP/.")
    then if is_digit_byte major then is_digit_byte minor else false
    else false
is_version _ = false
