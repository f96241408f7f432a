-- ===== src/Header/Canonical.antt =====
-- The canonical form of a header name is another spelling of it, one for all spellings.
use notnets_grpc.Prelude.{ℕ, ◌≡◌, refl, Bool, true, false, [], ◌∷◌, arith, ◌==◌}
use notnets_grpc.Text.{Text, lower, lower_byte, upper_byte}
use notnets_grpc.Header.{is_token, is_name, capitals, canonical}

lower_byte-upper_byte : (c : ℕ) → lower_byte (upper_byte c) ≡ lower_byte c
unfolding lower_byte upper_byte
lower_byte-upper_byte c = ground arith

lower_byte_idem : (c : ℕ) → lower_byte (lower_byte c) ≡ lower_byte c
unfolding lower_byte
lower_byte_idem c = ground arith

upper_byte-lower_byte : (c : ℕ) → upper_byte (lower_byte c) ≡ upper_byte c
unfolding lower_byte upper_byte
upper_byte-lower_byte c = ground arith

is_token-lower_byte : (c : ℕ) → is_token (lower_byte c) ≡ is_token c
unfolding is_token lower_byte
is_token-lower_byte c = ground arith

dash-lower_byte : (c : ℕ) → (lower_byte c == b'-') ≡ (c == b'-')
unfolding lower_byte
dash-lower_byte c = ground arith

pub is_name-lower : (s : Text) → is_name (lower s) ≡ is_name s
unfolding is_name lower
is_name-lower [] = refl
is_name-lower (c ∷ s) = ground (arith, is_token-lower_byte c, is_name-lower s)

lower-capitals : (up : Bool) (s : Text) → lower (capitals up s) ≡ lower s
unfolding lower capitals
lower-capitals up [] = refl
lower-capitals true (c ∷ s) = ground (arith, lower_byte-upper_byte c, lower-capitals (c == b'-') s)
lower-capitals false (c ∷ s) = ground (arith, lower_byte_idem c, lower-capitals (c == b'-') s)

capitals-lower : (up : Bool) (s : Text) → capitals up (lower s) ≡ capitals up s
unfolding lower capitals
capitals-lower up [] = refl
capitals-lower up (c ∷ s) = ground (
  arith,
  upper_byte-lower_byte c,
  lower_byte_idem c,
  dash-lower_byte c,
  capitals-lower (c == b'-') s,
)

pub lower-canonical : (s : Text) → lower (canonical s) ≡ lower s
unfolding canonical
lower-canonical s = ground (arith, lower-capitals true s)

pub canonical-lower : (s : Text) → is_name s ≡ true → canonical (lower s) ≡ canonical s
unfolding canonical
canonical-lower s h = ground (arith, is_name-lower s, capitals-lower true s)
