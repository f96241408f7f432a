-- ===== src/Http/Url/Requests.antt =====
-- ParseRequestURI of package net/url, as ReadRequest uses it: only whether it fails.
use notnets_grpc.Prelude.{
  ℕ, ◌≡◌, refl, Bool-cases, inl, inr, Bool, true, false, ◌||◌, ◌&&◌, not, [], ◌∷◌, ◌++◌, Option,
  none, some, leb, ltb, ◌==◌, if◌then◌else◌,
}
use notnets_grpc.Text.{Text, codes, text_eq}
use notnets_grpc.Http.Fields.{cut, all_bytes}
use notnets_grpc.Http.Url.{
  hex_value, is_alphanumeric, is_one_of, unescape, before, has_control, IsPath, path-cut,
  path-all_bytes, unescape_path,
}

-- What getScheme finds: no scheme, a colon without one, or what follows a scheme.
pub data Scheme : Type 0 where
  no_scheme missing : Scheme
  after_scheme : Text → Scheme

abbrev is_letter : ℕ → Bool
is_letter c = leb b'a' c && leb c b'z' || leb b'A' c && leb c b'Z'

-- The rest of getScheme, behind a first byte.
scheme_rest : Text → Scheme
scheme_rest [] = no_scheme
scheme_rest (c ∷ s) =
    let next = scheme_rest s in
    if is_alphanumeric c || is_one_of (codes "+-.") c
    then next
    else if c == b':'
    then after_scheme s
    else no_scheme

get_scheme : Text → Scheme
unfolding scheme_rest
get_scheme [] = no_scheme
get_scheme (c ∷ s) = if is_letter c then scheme_rest s else if c == b':' then missing else no_scheme

-- What is before the last separator, and what is after it.
split_last : ℕ → Text → Option (Text × Text)
split_last sep [] = none
split_last sep (c ∷ s) =
    let next = split_last sep s in
    elim next [
      | some (front, back) ↦ some (c ∷ front, back)
      | none ↦ if c == sep then some ([], s) else none
    ]

-- !shouldEscape(c, encodeHost), or a byte that is not ASCII
abbrev is_host_byte : ℕ → Bool
is_host_byte c = leb 128 c || is_alphanumeric c || is_one_of (codes "!$&'()*+,;=:[]<>\"-_.~") c

abbrev is_hex : ℕ → Bool
is_hex c = elim (hex_value c) [ none ↦ false | some _ ↦ true ]

-- unhex(c) < 8
abbrev is_low_hex : ℕ → Bool
is_low_hex c = elim (hex_value c) [ none ↦ false | some d ↦ ltb d 8 ]

abbrev is_percent : ℕ → ℕ → Bool
is_percent d e = d == b'2' && e == b'5'

abbrev hex_byte : ℕ → ℕ → ℕ
hex_byte d e = elim (unescape (b'%' ∷ d ∷ e ∷ [])) [ some (c ∷ []) ↦ c | _ ↦ 0 ]

-- What may be escaped in a host: %25, and what is not ASCII; in a zone also what may stand there.
abbrev is_host_escape : Bool → ℕ → ℕ → Bool
is_host_escape zone d e =
    is_hex d
    && is_hex e
    && (is_percent d e
        || (if zone
            then hex_byte d e == b' ' || is_host_byte (hex_byte d e)
            else not (is_low_hex d)))

-- Whether unescape accepts a host, or a zone.
unescapes_host : Bool → Text → Bool
unescapes_host zone [] = true
unescapes_host zone (c ∷ []) = not (c == b'%') && is_host_byte c
unescapes_host zone (c ∷ d ∷ []) =
    let next = unescapes_host zone (d ∷ []) in not (c == b'%') && is_host_byte c && next
unescapes_host zone (c ∷ d ∷ e ∷ s) =
    let after = unescapes_host zone s in
    let next = unescapes_host zone (d ∷ e ∷ s) in
    if c == b'%' then is_host_escape zone d e && after else is_host_byte c && next

-- validOptionalPort of what is after a bracket
is_port : Text → Bool
unfolding all_bytes
is_port [] = true
is_port (c ∷ digits) = c == b':' && all_bytes (λ d. leb b'0' d && leb d b'9') digits

-- A text at its first "%25", if it has one.
unfoldable pub cut_zone : Text → Option (Text × Text)
cut_zone [] = none
cut_zone (c ∷ []) = none
cut_zone (c ∷ d ∷ []) = none
cut_zone (c ∷ d ∷ e ∷ s) =
    let next = cut_zone (d ∷ e ∷ s) in
    if c == b'%' && is_percent d e
    then some ([], c ∷ d ∷ e ∷ s)
    else elim next [ none ↦ none | some (front, back) ↦ some (c ∷ front, back) ]

bracketed : Text → Option (Text × Text) → Bool
unfolding is_port unescapes_host
bracketed host none = false
bracketed host (some (front, port)) = is_port port && elim (cut_zone front) [
  | none ↦ unescapes_host false host
  | some (name, zone) ↦
      unescapes_host false name && unescapes_host true zone && unescapes_host false (b']' ∷ port)
]

with_port : Text → Option (Text × Text) → Bool
unfolding is_port unescapes_host
with_port host none = unescapes_host false host
with_port host (some (_, port)) = is_port (b':' ∷ port) && unescapes_host false host

-- Whether parseHost succeeds.
is_host : Text → Bool
unfolding bracketed with_port split_last
is_host [] = true
is_host (c ∷ host) =
    if c == b'['
    then bracketed (c ∷ host) (split_last b']' (c ∷ host))
    else with_port (c ∷ host) (split_last b':' (c ∷ host))

unescapes : Text → Bool
unescapes s = elim (unescape s) [ none ↦ false | some _ ↦ true ]

-- validUserinfo, and an unescape of each part
is_user_info : Text → Bool
unfolding all_bytes unescapes cut
is_user_info user =
    all_bytes (λ c. is_alphanumeric c || is_one_of (codes "-._:~!$&'()*+,;=%@") c) user
    && elim (cut b':' user) [
      | none ↦ unescapes user
      | some (name, password) ↦ unescapes name && unescapes password
    ]

-- Whether parseAuthority succeeds.
is_authority : Text → Bool
unfolding is_host is_user_info split_last
is_authority a = elim (split_last b'@' a) [
  | none ↦ is_host a
  | some (user, host) ↦ is_host host && is_user_info user
]

-- What is behind an authority: a path from the first slash on.
path_after : Option (Text × Text) → Text
path_after none = []
path_after (some (_, path)) = b'/' ∷ path

-- What is behind a scheme, without its query: opaque, or an authority and a path, or a path.
is_hierarchical : Text → Bool
unfolding is_authority path_after unescapes before cut
is_hierarchical [] = true
is_hierarchical (c ∷ []) = true
is_hierarchical (c ∷ d ∷ s) =
    if not (c == b'/')
    then true
    else if d == b'/'
    then is_authority (before b'/' s) && unescapes (path_after (cut b'/' s))
    else unescapes (c ∷ d ∷ s)

by_scheme : Text → Scheme → Bool
unfolding is_hierarchical unescapes before
by_scheme [] _ = false
by_scheme (c ∷ s) no_scheme = (c == b'/') && unescapes (before b'?' (c ∷ s))
by_scheme (c ∷ s) missing = false
by_scheme (c ∷ s) (after_scheme rest) = is_hierarchical (before b'?' rest)

-- Whether ParseRequestURI accepts a URI.
unfoldable pub is_request_uri : Text → Bool
unfolding has_control by_scheme get_scheme text_eq
is_request_uri uri =
    not (has_control uri) && (text_eq uri (codes "*") || by_scheme uri (get_scheme uri))

-- strings.HasPrefix(uri, "/")
abbrev pub is_rooted : Text → Bool
is_rooted [] = false
is_rooted (c ∷ uri) = c == b'/'

-- The URI of a CONNECT request may be an authority alone.
unfoldable pub accepts_uri : Text → Text → Bool
unfolding is_request_uri text_eq
accepts_uri method uri =
    if text_eq method (codes "CONNECT") && not (is_rooted uri)
    then is_request_uri (codes "http://" ++ uri)
    else is_request_uri uri

unescapes_path : (s : Text) → IsPath s → unescapes s ≡ true
unfolding unescapes
unescapes_path s h = rw (unescapes, unescape_path s h) refl

pub accepts_uri_path : (method s : Text) → IsPath (b'/' ∷ s) → accepts_uri method (b'/' ∷ s) ≡ true
unfolding accepts_uri is_request_uri by_scheme get_scheme before has_control
accepts_uri_path method s h =
    let (_, no_mark) = path-cut (b'/' ∷ s) h in
    elim (Bool-cases (text_eq method (codes "CONNECT"))) [
      | inl e ↦ rw (e, no_mark, path-all_bytes (b'/' ∷ s) h, unescapes_path (b'/' ∷ s) h) refl
      | inr e ↦ rw (e, no_mark, path-all_bytes (b'/' ∷ s) h, unescapes_path (b'/' ∷ s) h) refl
    ]

-- URIs of each form.
sample :
    (accepts_uri (codes "POST") (codes "*") ≡ true)
    × (accepts_uri (codes "POST") (codes "http://[fe80::1%25en0]:80/a.S/M") ≡ true)
    × (accepts_uri (codes "POST") (codes "http://a b/M") ≡ false)
    × (accepts_uri (codes "POST") (codes "://x") ≡ false)
    × (accepts_uri (codes "POST") (codes "a.S/M") ≡ false)
    × (accepts_uri (codes "POST") (codes "mailto:x") ≡ true)
    × (accepts_uri (codes "CONNECT") (codes "u:p@h:80") ≡ true)
    × (accepts_uri (codes "CONNECT") (codes "h:x") ≡ false)
    × (accepts_uri (codes "CONNECT") [] ≡ true)
unfolding accepts_uri unescape cut cut_zone
sample = (refl, refl, refl, refl, refl, refl, refl, refl, refl)
