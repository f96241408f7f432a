-- ===== src/Timeout.antt =====
-- The deadline of a call in the header GRPC-Timeout: headersFromContext of utils.go, and
-- contextFromHeaders of server.go. Durations are int64 nanoseconds.
pub mod RoundTrip
pub mod Overflow
pub mod Incoming
pub mod Propagation
use notnets_grpc.Prelude.{
  ℕ, ◌+◌, ◌*◌, ◌≡◌, Bool, true, false, not, List, [], ◌∷◌, ◌++◌, Option, none, some, Result, ok,
  err, ◌>>=◌, ◌==◌, ℤ, pos, negsuc, quot, is_pos, mul64, if◌then◌else◌,
}
use notnets_grpc.Text.{Text, codes}
use notnets_grpc.Text.Decimal.{print, parse_int}
use notnets_grpc.Dict.{Multi}
use notnets_grpc.Header.{set, get}
use notnets_grpc.Metadata.{to_headers, as_metadata}
use notnets_grpc.Contexts.{Contexts}

abbrev pub millisecond : ℕ
millisecond = 1_000_000

-- if millis <= 0 { millis = 1 }
at_least_one : ℤ → ℕ
at_least_one (pos n) = if n == 0 then 1 else n
at_least_one (negsuc n) = 1

-- int64(timeout / time.Millisecond), and at least 1
unfoldable pub millis : ℤ → ℕ
unfolding at_least_one
millis timeout = at_least_one (quot timeout millisecond)

abbrev pub timeout_name : Text
timeout_name = codes "GRPC-Timeout"

-- The text of the header: Sprintf("%dm", millis)
unfoldable pub timeout_text : ℤ → Text
unfolding millis print
timeout_text timeout = print (millis timeout) ++ b'm' ∷ []

unfoldable pub set_timeout : Option ℤ → Multi → Multi
unfolding timeout_text set
set_timeout none h = h
set_timeout (some timeout) h = set timeout_name (timeout_text timeout) h

unfoldable pub outgoing_headers : Option Multi → Multi
outgoing_headers none = []
outgoing_headers (some md) = to_headers md [] []

-- headersFromContext
unfoldable pub headers_from_context : (c : Contexts) → c.Context → Multi
unfolding set_timeout outgoing_headers
headers_from_context c ctx =
    set_timeout (c.until_deadline ctx) (outgoing_headers (c.from_outgoing ctx))

-- The duration of a unit's suffix, and 0 for a byte that is no unit.
unfoldable pub unit_of : ℕ → ℕ
unit_of suffix =
    if suffix == b'H'
    then 3_600_000_000_000
    else if suffix == b'M'
    then 60_000_000_000
    else if suffix == b'S'
    then 1_000_000_000
    else if suffix == b'm'
    then millisecond
    else if suffix == b'u'
    then 1_000
    else if suffix == b'n'
    then 1
    else 0

-- The last byte of a text that is not empty, and the text without it.
split_last : ℕ → Text → Text × ℕ
split_last c [] = ([], c)
split_last c (d ∷ s) = let (front, last) = split_last d s in (c ∷ front, last)

pub scale : Option ℤ → ℕ → Option ℤ
scale none unit = none
scale (some n) unit = if unit == 0 then none else some (mul64 n unit)

-- The timeout that a text stands for, if any: an int64, wrapped as Go's multiplication wraps it.
unfoldable pub timeout_of : Text → Option ℤ
unfolding unit_of split_last scale
timeout_of [] = none
timeout_of (c ∷ s) =
    let (digits, suffix) = split_last c s in scale (parse_int digits) (unit_of suffix)

pub apply_timeout : (c : Contexts) → c.Context → Option ℤ → c.Context
apply_timeout c ctx none = ctx
apply_timeout c ctx (some t) = c.with_timeout ctx t

-- contextFromHeaders, without the cancel function that it returns beside the context
unfoldable pub context_from_headers : (c : Contexts) → c.Context → Multi → Result c.Context
unfolding apply_timeout
context_from_headers c parent h = do
  md ← as_metadata h
  ok (apply_timeout c (c.new_incoming parent md) (timeout_of (get timeout_name h)))
