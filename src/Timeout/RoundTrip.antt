-- ===== src/Timeout/RoundTrip.antt =====
-- The server's timeout against what was left of the client's deadline.
use notnets_grpc.Prelude.{
  ℕ, ◌+◌, ◌*◌, ◌%◌, ◌^◌, ◌≤◌, ◌<◌, ◌≡◌, refl, [], ◌∷◌, ◌++◌, some, arith, ℤ, pos, negsuc, ap, ◌∙◌,
  mul64,
}
use notnets_grpc.Text.{Text}
use notnets_grpc.Text.Decimal.{print, parse_int, parse_int-print}
use notnets_grpc.Timeout.{millisecond, millis, timeout_text, unit_of, split_last, scale, timeout_of}

split_last-append : (d c : ℕ) (s : Text) → split_last d (s ++ c ∷ []) ≡ (d ∷ s, c)
unfolding split_last
split_last-append d c [] = refl
split_last-append d c (e ∷ s) = rw (split_last-append e c s)

-- A text that ends in a known byte splits there.
pub timeout_of-append :
    (s : Text) (c : ℕ) → timeout_of (s ++ c ∷ []) ≡ scale (parse_int s) (unit_of c)
unfolding timeout_of
timeout_of-append [] c = unfold parse_int in refl
timeout_of-append (d ∷ s) c = rw (split_last-append d c s)

-- A product that fits in 63 bits does not wrap.
pub mul64_small : (n d : ℕ) → n * d < 2 ^ 63 → mul64 (pos n) d ≡ pos (n * d)
mul64_small n d h = ground arith

-- The values of an int64.
abbrev pub IsInt64 : ℤ → Type 0
IsInt64 (pos n) = n < 2 ^ 63
IsInt64 (negsuc n) = n < 2 ^ 63

-- The timeout `d` serves a call that has `t` left: a whole number of milliseconds, which is what is
-- left, rounded down, and not below one.
abbrev pub Serves : ℤ → ℕ → Type 0
Serves (pos n) d =
    (d % millisecond ≡ 0)
    × (millisecond ≤ n → (d ≤ n) × (n < d + millisecond))
    × (n < millisecond → d ≡ millisecond)
Serves (negsuc n) d = d ≡ millisecond

millis_lem :
    (t : ℤ) → IsInt64 t → (millis t * millisecond < 2 ^ 63) × Serves t (millis t * millisecond)
unfolding millis
millis_lem (pos n) h = ground arith
millis_lem (negsuc n) h = ground arith

-- The server reads from the client's GRPC-Timeout header a timeout that is what was left of the
-- deadline rounded down to milliseconds, or one millisecond if less than that was left or the
-- deadline had passed.
pub timeout_of-timeout_text :
    (t : ℤ) → IsInt64 t → (d : ℕ) × (timeout_of (timeout_text t) ≡ some (pos d)) × Serves t d
unfolding timeout_text
timeout_of-timeout_text t h =
    let (fits, serves) = millis_lem t h in
    (
      millis t * millisecond,
      timeout_of-append (print (millis t)) b'm'
          ∙ ap (λ o. scale o (unit_of b'm')) (parse_int-print (millis t) (omega arith))
          ∙ (unfold scale unit_of in ap some (mul64_small (millis t) millisecond fits)),
      serves,
    )
