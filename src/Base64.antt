-- ===== src/Base64.antt =====
-- encoding/base64, the `URLEncoding` of package base64: the code's encoding of the values of binary
-- headers (utils.go, client.go, server.go).
pub mod RoundTrip
use notnets_grpc.Prelude.{
  ℕ, ◌+◌, ◌-◌, ◌*◌, ◌/◌, ◌%◌, Bool, true, false, ◌&&◌, ◌||◌, List, [], ◌∷◌, Option, none, some,
  Result, ok, err, corrupt_input, leb, ltb, ◌==◌, if◌then◌else◌,
}
use notnets_grpc.Text.{Text}

unfoldable pub digit : ℕ → ℕ
digit n =
    if ltb n 26
    then b'A' + n
    else if ltb n 52
    then b'a' + (n - 26)
    else if ltb n 62
    then b'0' + (n - 52)
    else if n == 62
    then b'-'
    else b'_'

pub value : ℕ → Option ℕ
value c =
    if leb b'A' c && leb c b'Z'
    then some (c - b'A')
    else if leb b'a' c && leb c b'z'
    then some (c - b'a' + 26)
    else if leb b'0' c && leb c b'9'
    then some (c - b'0' + 52)
    else if c == b'-'
    then some 62
    else if c == b'_'
    then some 63
    else none

abbrev pub pad : ℕ
pad = b'='

-- EncodeToString
unfoldable pub encode : Text → Text
unfolding digit
encode [] = []
encode (a ∷ []) = digit (a / 4) ∷ digit (a % 4 * 16) ∷ pad ∷ pad ∷ []
encode (a ∷ b ∷ []) = digit (a / 4) ∷ digit (a % 4 * 16 + b / 16) ∷ digit (b % 16 * 4) ∷ pad ∷ []
encode (a ∷ b ∷ c ∷ s) =
    digit (a / 4)
    ∷ digit (a % 4 * 16 + b / 16)
    ∷ digit (b % 16 * 4 + c / 64)
    ∷ digit (c % 64)
    ∷ encode s

infixl 5 ◌>>=◌
abbrev ◌>>=◌ {ℓ κ} : {A : Type ℓ} {B : Type κ} → Option A → (A → Option B) → Option B
none >>= f = none
some a >>= f = f a

-- DecodeString skips line breaks.
pub skip_breaks : Text → Text
skip_breaks [] = []
skip_breaks (c ∷ s) = let rest = skip_breaks s in if c == 10 || c == 13 then rest else c ∷ rest

one_byte : ℕ → ℕ → Option Text
unfolding value
one_byte a b = do x ← value a; y ← value b; some ((x * 4 + y / 16) ∷ [])

two_bytes : ℕ → ℕ → ℕ → Option Text
unfolding value
two_bytes a b c = do
  x ← value a
  y ← value b
  z ← value c
  some ((x * 4 + y / 16) ∷ (y % 16 * 16 + z / 4) ∷ [])

three_bytes : ℕ → ℕ → ℕ → ℕ → Option Text → Option Text
unfolding value
three_bytes a b c d rest = do
  x ← value a
  y ← value b
  z ← value c
  w ← value d
  r ← rest
  some ((x * 4 + y / 16) ∷ (y % 16 * 16 + z / 4) ∷ (z % 4 * 64 + w) ∷ r)

-- Nothing but line breaks may follow padding.
at_end : Text → Option Text → Option Text
at_end [] o = o
at_end (_ ∷ _) o = none

quanta : Text → Option Text
unfolding one_byte two_bytes three_bytes at_end
quanta [] = some []
quanta (a ∷ b ∷ c ∷ d ∷ s) =
    let rest = quanta s in
    if c == pad
    then (if d == pad then at_end s (one_byte a b) else none)
    else if d == pad
    then at_end s (two_bytes a b c)
    else three_bytes a b c d rest
quanta _ = none

-- The offset that CorruptInputError carries is left out.
or_corrupt : Option Text → Result Text
or_corrupt none = err corrupt_input
or_corrupt (some s) = ok s

-- DecodeString
unfoldable pub decode : Text → Result Text
unfolding skip_breaks quanta or_corrupt
decode s = or_corrupt (quanta (skip_breaks s))
