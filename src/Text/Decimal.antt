-- ===== src/Text/Decimal.antt =====
-- Decimal numbers in text: the verb %d of package fmt for a number that is not negative, and
-- ParseInt of package strconv in base 10 for 64 bits.
use notnets_grpc.Prelude.{
  ℕ, zero, suc, ◌+◌, ◌-◌, ◌*◌, ◌/◌, ◌%◌, ◌^◌, ◌<◌, ◌≡◌, refl, ap, ◌∙◌, Bool, true, false, ◌&&◌, [],
  ◌∷◌, Option, none, some, arith, ltb, leb, ◌==◌, if◌then◌else◌, Bool-cases, inl, inr, ℤ, pos, neg,
  lt→ltb, All,
}
use notnets_grpc.Text.{Text}

abbrev is_digit : ℕ → Bool
is_digit c = leb b'0' c && leb c b'9'

print_loop : ℕ → ℕ → Text → Text
print_loop zero n s = s
print_loop (suc f) n s =
    let s' = ((b'0' + n % 10) ∷ s) in
    let rest = print_loop f (n / 10) s' in if n / 10 == 0 then s' else rest

-- Sprintf("%d", n): a number has no more digits than its value plus one.
unfoldable pub print : ℕ → Text
unfolding print_loop
print n = print_loop (n + 1) n []

parse_digits : ℕ → Text → Option ℕ
parse_digits acc [] = some acc
parse_digits acc (c ∷ s) =
    let rest = parse_digits (acc * 10 + (c - b'0')) s in if is_digit c then rest else none

unsigned : Text → Option ℕ
unsigned [] = none
unsigned (c ∷ s) = parse_digits 0 (c ∷ s)

signed : Bool → Option ℕ → Option ℤ
signed minus none = none
signed true (some n) = if leb n (2 ^ 63) then some (neg n) else none
signed false (some n) = if ltb n (2 ^ 63) then some (pos n) else none

-- ParseInt(s, 10, 64); `none` is an error, of syntax or of range.
unfoldable pub parse_int : Text → Option ℤ
unfolding parse_digits unsigned signed
parse_int [] = none
parse_int (c ∷ s) =
    if c == b'-'
    then signed true (unsigned s)
    else if c == b'+'
    then signed false (unsigned s)
    else signed false (unsigned (c ∷ s))

below_2_63 : Option ℕ → Option ℕ
below_2_63 none = none
below_2_63 (some n) = if ltb n (2 ^ 63) then some n else none

-- ParseUint(s, 10, 63)
unfoldable pub parse_uint63 : Text → Option ℕ
unfolding unsigned parse_digits below_2_63
parse_uint63 s = below_2_63 (unsigned s)

abbrev last_digit : ℕ → ℕ
last_digit n = b'0' + n % 10

is_digit-last_digit : (n : ℕ) → is_digit (last_digit n) ≡ true
is_digit-last_digit n = ground arith

parse_digits-last_digit :
    (n : ℕ) (s : Text) → parse_digits (n / 10) (last_digit n ∷ s) ≡ parse_digits n s
unfolding parse_digits
parse_digits-last_digit n s = rw (is_digit-last_digit n) (ap (λ a. parse_digits a s) (omega arith))

record Parses (n : ℕ) (s printed : Text) : Type 0 where
  first : ℕ
  others : Text
  split : printed ≡ first ∷ others
  digit : is_digit first ≡ true
  parsed : parse_digits 0 (first ∷ others) ≡ parse_digits n s

-- Parsing goes on after the digits as it would after the number itself.
print_loop-Parses : (f n : ℕ) (s : Text) → n < f → Parses n s (print_loop f n s)
unfolding print_loop
print_loop-Parses zero n s h = elim h [ ]
print_loop-Parses (suc f) n s h = elim (Bool-cases (n / 10 == 0)) [
  | inl e ↦ rw e (record {
    first = last_digit n;
    others = s;
    split = refl;
    digit = is_digit-last_digit n;
    parsed =
        ap (λ a. parse_digits a (last_digit n ∷ s)) (ground arith) ∙ parse_digits-last_digit n s;
  })
  | inr e ↦
      let p = print_loop-Parses f (n / 10) (last_digit n ∷ s) (ground arith) in
      rw e (record {
        first = p.first;
        others = p.others;
        split = p.split;
        digit = p.digit;
        parsed = p.parsed ∙ parse_digits-last_digit n s;
      })
]

-- ParseInt reads back every printed number below 2^63.
pub parse_int-print : (n : ℕ) → n < 2 ^ 63 → parse_int (print n) ≡ some (pos n)
unfolding parse_int print
parse_int-print n h =
    let p = print_loop-Parses (n + 1) n [] (omega arith) in
    rw p.split (ground (arith, p.digit, p.parsed, lt→ltb n (2 ^ 63) h))

-- So does ParseUint for 63 bits.
pub parse_uint63-print : (n : ℕ) → n < 2 ^ 63 → parse_uint63 (print n) ≡ some n
unfolding parse_uint63 unsigned parse_digits below_2_63 print
parse_uint63-print n h =
    let p = print_loop-Parses (n + 1) n [] (omega arith) in
    rw (p.split, p.parsed, lt→ltb n (2 ^ 63) h) refl

print_loop-All {ℓ} :
    (P : ℕ → Type ℓ) (f n : ℕ) (s : Text)
    → ((d : ℕ) → d < 10 → P (b'0' + d))
    → All P s
    → All P (print_loop f n s)
unfolding print_loop
print_loop-All P zero n s h a = a
print_loop-All P (suc f) n s h a = elim (Bool-cases (n / 10 == 0)) [
  | inl e ↦ rw e (h (n % 10) (omega arith), a)
  | inr e ↦ rw e (print_loop-All P f (n / 10) (last_digit n ∷ s) h (h (n % 10) (omega arith), a))
]

-- A printed number consists of digits.
pub print-All {ℓ} : (P : ℕ → Type ℓ) (n : ℕ) → ((d : ℕ) → d < 10 → P (b'0' + d)) → All P (print n)
unfolding print
print-All P n h = print_loop-All P (n + 1) n [] h tt
