-- ===== src/Header.antt =====
-- net/http and net/textproto: what the code uses of http.Header.
pub mod Canonical
use notnets_grpc.Prelude.{
  ℕ, Bool, true, false, ◌&&◌, ◌||◌, List, [], ◌∷◌, Option, none, some, leb, ◌==◌, if◌then◌else◌,
}
use notnets_grpc.Text.{Text, lower_byte, upper_byte}
use notnets_grpc.Dict.{Multi, insert, values, append_at}

-- The bytes of a token (RFC 7230), of which a header name consists.
unfoldable pub is_token : ℕ → Bool
is_token c =
    leb b'a' c && leb c b'z'
    || leb b'A' c && leb c b'Z'
    || leb b'0' c && leb c b'9'
    || c == b'!'
    || leb b'#' c && leb c b'\''
    || c == b'*'
    || c == b'+'
    || c == b'-'
    || c == b'.'
    || leb b'^' c && leb c b'`'
    || c == b'|'
    || c == b'~'

unfoldable pub is_name : Text → Bool
is_name [] = true
is_name (c ∷ s) = is_token c && is_name s

capitals : Bool → Text → Text
capitals up [] = []
capitals up (c ∷ s) = (if up then upper_byte c else lower_byte c) ∷ capitals (c == b'-') s

-- textproto.CanonicalMIMEHeaderKey
unfoldable pub canonical : Text → Text
unfolding capitals is_name is_token upper_byte lower_byte
canonical s = if is_name s then capitals true s else s

-- h.Add(k, v)
unfoldable pub add : Text → Text → Multi → Multi
add k v h = append_at (canonical k) (v ∷ []) h

-- h.Set(k, v)
unfoldable pub set : Text → Text → Multi → Multi
set k v h = insert (canonical k) (v ∷ []) h

first : List Text → Text
first [] = []
first (v ∷ _) = v

-- h.Get(k), with "" for a missing key
unfoldable pub get : Text → Multi → Text
unfolding first
get k h = first (values (canonical k) h)
