-- ===== src/Timeout/Overflow.antt =====
-- Timeouts of the units of the gRPC wire format, and where the product with the unit overflows.
use notnets_grpc.Prelude.{
  ℕ, zero, suc, sym, ◌-◌, ◌≤◌, neg, of_bits64, ltb, Bool-cases, inl, inr, ◌+◌, ◌*◌, ◌%◌, ◌^◌, ◌<◌,
  ◌≡◌, ◌≢◌, refl, ◌∷◌, [], ◌++◌, ◌∙◌, ap, some, none, arith, ℤ, pos, negsuc, mul64,
}
use notnets_grpc.Text.Decimal.{print, parse_int-print}
use notnets_grpc.Timeout.{unit_of, scale, timeout_of}
use notnets_grpc.Timeout.RoundTrip.{timeout_of-append}

-- The units of the gRPC protocol over HTTP/2.
pub data TimeoutUnit : Type 0 where
  hour minute second milli micro nano : TimeoutUnit

pub letter : TimeoutUnit → ℕ
letter hour = b'H'
letter minute = b'M'
letter second = b'S'
letter milli = b'm'
letter micro = b'u'
letter nano = b'n'

-- How many nanoseconds a unit is.
pub nanoseconds : TimeoutUnit → ℕ
nanoseconds nano = 1
nanoseconds micro = 1000
nanoseconds milli = 1000 * 1000
nanoseconds second = 1000 * 1000 * 1000
nanoseconds minute = 60 * (1000 * 1000 * 1000)
nanoseconds hour = 60 * (60 * (1000 * 1000 * 1000))

-- The int64 that has the low 64 bits of a number.
abbrev pub Wraps : ℕ → ℤ → Type 0
Wraps m (pos k) = (k < 2 ^ 63) × (m % 2 ^ 64 ≡ k)
Wraps m (negsuc k) = (k < 2 ^ 63) × (m % 2 ^ 64 + suc k ≡ 2 ^ 64)

neg-Wraps : (m k : ℕ) → m % 2 ^ 64 + k ≡ 2 ^ 64 → 0 < k → k ≤ 2 ^ 63 → Wraps m (neg k)
neg-Wraps m zero e some_bits small = absurd (omega arith)
neg-Wraps m (suc k) e some_bits small = (omega arith, e)

of_bits64-Wraps : (m b : ℕ) → m % 2 ^ 64 ≡ b → b < 2 ^ 64 → Wraps m (of_bits64 b)
of_bits64-Wraps m b same small = elim (Bool-cases (ltb b (2 ^ 63))) [
  | inl low ↦ rw low (ground arith)
  | inr high ↦ rw high (
      neg-Wraps m (2 ^ 64 - b) (omega (arith, same, small)) (omega (arith, small))
        (ground (arith, high)))
]

mul64-Wraps : (n d : ℕ) → Wraps (n * d) (mul64 (pos n) d)
mul64-Wraps n d = of_bits64-Wraps (n * d) (n * d % 2 ^ 64) refl (omega arith)

unit_of-letter : (u : TimeoutUnit) → unit_of (letter u) ≡ nanoseconds u
unfolding unit_of letter nanoseconds
unit_of-letter hour = refl
unit_of-letter minute = refl
unit_of-letter second = refl
unit_of-letter milli = refl
unit_of-letter micro = refl
unit_of-letter nano = refl

nanoseconds_lem : (u : TimeoutUnit) → nanoseconds u ≢ 0
unfolding nanoseconds
nanoseconds_lem hour = omega arith
nanoseconds_lem minute = omega arith
nanoseconds_lem second = omega arith
nanoseconds_lem milli = omega arith
nanoseconds_lem micro = omega arith
nanoseconds_lem nano = omega arith

unit_of_other : (c : ℕ) → ((u : TimeoutUnit) → letter u ≢ c) → unit_of c ≡ 0
unfolding unit_of letter
unit_of_other c other =
    ground (arith, other hour, other minute, other second, other milli, other micro, other nano)

timeout_of-print :
    (n suffix : ℕ)
    → n < 2 ^ 63
    → unit_of suffix ≢ 0
    → timeout_of (print n ++ suffix ∷ []) ≡ some (mul64 (pos n) (unit_of suffix))
timeout_of-print n suffix h known =
    timeout_of-append (print n) suffix
    ∙ ap (λ o. scale o (unit_of suffix)) (parse_int-print n h)
    ∙ (unfold scale in ground arith)

-- A text of a number below 2^63 and the letter of a unit is read as the number of nanoseconds that it
-- stands for, wrapped to an int64; with any other last byte it is no timeout.
pub timeout_of-print_lem :
    (n : ℕ)
    → n < 2 ^ 63
    → ((u : TimeoutUnit)
        → (d : ℤ) × (timeout_of (print n ++ letter u ∷ []) ≡ some d) × Wraps (n * nanoseconds u) d)
      × ((c : ℕ) → ((u : TimeoutUnit) → letter u ≢ c) → timeout_of (print n ++ c ∷ []) ≡ none)
timeout_of-print_lem n h = (
  λ u. (
    mul64 (pos n) (nanoseconds u),
    timeout_of-print n (letter u) h (λ e. nanoseconds_lem u (sym (unit_of-letter u) ∙ e))
        ∙ ap (λ d. some (mul64 (pos n) d)) (unit_of-letter u),
    mul64-Wraps n (nanoseconds u),
  ),
  λ c other.
      timeout_of-append (print n) c
      ∙ ap (λ o. scale o (unit_of c)) (parse_int-print n h)
      ∙ (unfold scale in rw (unit_of_other c other) refl),
)
