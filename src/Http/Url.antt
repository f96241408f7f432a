-- ===== src/Http/Url.antt =====
-- Package net/url, for paths that start with a slash: the request URI of a parsed path, as
-- http.NewRequest makes it.
pub mod Requests
use notnets_grpc.Prelude.{
  ℕ, ◌+◌, ◌-◌, ◌*◌, ◌/◌, ◌%◌, ◌≡◌, refl, Bool, true, false, ◌||◌, ◌&&◌, not, [], ◌∷◌, ◌++◌, Option,
  none, some, Result, ok, err, arith, leb, ltb, ◌==◌, if◌then◌else◌, All,
}
use notnets_grpc.Text.{Text, codes}
use notnets_grpc.Http.{is_path_byte}
use notnets_grpc.Http.Fields.{cut, all_bytes, malformed}

abbrev hex_value : ℕ → Option ℕ
hex_value c =
    if leb b'0' c && leb c b'9'
    then some (c - b'0')
    else if leb b'a' c && leb c b'f'
    then some (c - b'a' + 10)
    else if leb b'A' c && leb c b'F'
    then some (c - b'A' + 10)
    else none

-- "0123456789ABCDEF"[n]
abbrev hex_digit : ℕ → ℕ
hex_digit n = if ltb n 10 then b'0' + n else b'A' + (n - 10)

abbrev both : Option ℕ → Option ℕ → Option Text → Option Text
both (some a) (some b) (some s) = some ((a * 16 + b) ∷ s)
both _ _ _ = none

-- unescape; `none` is an error
unfoldable pub unescape : Text → Option Text
unescape [] = some []
unescape (c ∷ []) = if c == b'%' then none else some (c ∷ [])
unescape (c ∷ d ∷ []) =
    let next = unescape (d ∷ []) in
    if c == b'%' then none else elim next [ none ↦ none | some s ↦ some (c ∷ s) ]
unescape (c ∷ d ∷ e ∷ s) =
    let after = unescape s in
    let next = unescape (d ∷ e ∷ s) in
    if c == b'%'
    then both (hex_value d) (hex_value e) after
    else elim next [ none ↦ none | some t ↦ some (c ∷ t) ]

abbrev is_alphanumeric : ℕ → Bool
is_alphanumeric c = leb b'a' c && leb c b'z' || leb b'A' c && leb c b'Z' || leb b'0' c && leb c b'9'

abbrev is_one_of : Text → ℕ → Bool
is_one_of [] c = false
is_one_of (d ∷ ds) c = c == d || is_one_of ds c

-- shouldEscape(c, encodePath)
unfoldable pub should_escape : ℕ → Bool
should_escape c = not (is_alphanumeric c || is_one_of (codes "-_.~$&+,/:;=@") c)

-- validEncoded(s, encodePath)
unfoldable pub is_valid_encoded : Text → Bool
unfolding should_escape all_bytes
is_valid_encoded = all_bytes (λ c. is_one_of (codes "!'()*[]%") c || not (should_escape c))

unfoldable pub escape : Text → Text
unfolding should_escape
escape [] = []
escape (c ∷ s) =
    let next = escape s in
    if should_escape c then b'%' ∷ hex_digit (c / 16) ∷ hex_digit (c % 16) ∷ next else c ∷ next

has_control : Text → Bool
unfolding all_bytes
has_control s = not (all_bytes (λ c. leb 32 c && not (c == 127)) s)

-- EscapedPath of a path that was given as `raw` and unescapes to `path`
escaped_path : Text → Text → Text
unfolding is_valid_encoded escape
escaped_path raw path = if is_valid_encoded raw then raw else escape path

before : ℕ → Text → Text
unfolding cut
before sep s = elim (cut sep s) [ none ↦ s | some (a, b) ↦ a ]

with_query : Text → Option (Text × Text) → Text
with_query path none = path
with_query path (some (_, query)) = path ++ b'?' ∷ query

-- The RequestURI of a URL with a path, given with its query.
uri_of : Text → Result Text
unfolding before escaped_path with_query unescape cut
uri_of s = elim (unescape (before b'?' s)) [
  | none ↦ err malformed
  | some path ↦ ok (with_query (escaped_path (before b'?' s) path) (cut b'?' s))
]

fragment_unescapes : Option (Text × Text) → Bool
unfolding unescape
fragment_unescapes none = true
fragment_unescapes (some (_, fragment)) = elim (unescape fragment) [ none ↦ false | some _ ↦ true ]

-- http.NewRequest of a path that starts with one slash: the RequestURI of its URL. The URI is that
-- of what is before the fragment.
unfoldable pub new_request : Text → Result Text
unfolding has_control before fragment_unescapes uri_of cut
new_request path =
    if has_control (before b'#' path) || not (fragment_unescapes (cut b'#' path))
    then err malformed
    else uri_of (before b'#' path)

abbrev pub IsPath : Text → Type 0
IsPath = All (λ b. is_path_byte b ≡ true)

pub literal-IsPath : (s : Text) → all_bytes is_path_byte s ≡ true → IsPath s
unfolding all_bytes
literal-IsPath [] h = tt
literal-IsPath (c ∷ s) h = (ground arith, literal-IsPath s (ground arith))

unescape_path : (s : Text) → IsPath s → unescape s ≡ some s
unfolding unescape
unescape_path [] h = refl
unescape_path (c ∷ []) (h, hs) = ground arith
unescape_path (c ∷ d ∷ []) (h, hs) = ground (arith, unescape_path (d ∷ []) hs)
unescape_path (c ∷ d ∷ e ∷ s) (h, hs) = ground (arith, unescape_path (d ∷ e ∷ s) hs)

-- What the tests of package net/url say of a byte that a path shows as it is.
path_byte :
    (c : ℕ)
    → is_path_byte c ≡ true
    → ((c == b'#') ≡ false)
      × ((c == b'?') ≡ false)
      × ((leb 32 c && not (c == 127)) ≡ true)
      × (should_escape c ≡ false)
unfolding should_escape
path_byte c h = (ground arith, ground arith, ground arith, ground arith)

path-all_bytes : (s : Text) → IsPath s → all_bytes (λ c. leb 32 c && not (c == 127)) s ≡ true
unfolding all_bytes
path-all_bytes [] h = refl
path-all_bytes (c ∷ s) (h, hs) =
    let (_, _, plain, _) = path_byte c h in rw (plain, path-all_bytes s hs) refl

path-is_valid_encoded : (s : Text) → IsPath s → is_valid_encoded s ≡ true
unfolding is_valid_encoded all_bytes
path-is_valid_encoded [] h = refl
path-is_valid_encoded (c ∷ s) (h, hs) =
    let (_, _, _, shown) = path_byte c h in ground (arith, shown, path-is_valid_encoded s hs)

path-cut : (s : Text) → IsPath s → (cut b'#' s ≡ none) × (cut b'?' s ≡ none)
unfolding cut
path-cut [] h = (refl, refl)
path-cut (c ∷ s) (h, hs) =
    let (no_hash, no_mark, _, _) = path_byte c h in
    let (no_hashes, no_marks) = path-cut s hs in
    (rw (no_hash, no_hashes) refl, rw (no_mark, no_marks) refl)

before-none : (sep : ℕ) (s : Text) → cut sep s ≡ none → before sep s ≡ s
unfolding before
before-none sep s h = rw (before, h) refl

uri_of_path : (s : Text) → IsPath s → uri_of s ≡ ok s
unfolding uri_of escaped_path with_query
uri_of_path s h =
    let (_, no_mark) = path-cut s h in
    rw
      (
        uri_of,
        before-none b'?' s no_mark,
        unescape_path s h,
        before-none b'?' s no_mark,
        escaped_path,
        path-is_valid_encoded s h,
        no_mark,
      )
      refl

-- A path of such bytes is its own request URI.
pub new_request_path : (s : Text) → IsPath s → new_request s ≡ ok s
unfolding new_request has_control fragment_unescapes
new_request_path s h =
    let (no_hash, _) = path-cut s h in
    rw (before-none b'#' s no_hash, no_hash, path-all_bytes s h, uri_of_path s h) refl

-- Such a path ends at the first space.
pub cut_path : (s rest : Text) → IsPath s → cut b' ' (s ++ b' ' ∷ rest) ≡ some (s, rest)
unfolding cut
cut_path [] rest h = refl
cut_path (c ∷ s) rest (h, hs) = ground (arith, cut_path s rest hs)
