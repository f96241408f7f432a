-- ===== src/Backoff.antt =====
-- The delay between attempts, in the accept loop of server.go and in Dial of client.go: three
-- seconds at first, doubled each time, and twenty-five seconds at most. In nanoseconds.
use notnets_grpc.Prelude.{
  ℕ, zero, suc, ◌*◌, ◌^◌, ◌<◌, ◌≡◌, refl, min, arith, ltb, ◌==◌, if◌then◌else◌, List, [], ◌∷◌,
}
use native.Mathlib.Nat.{pow-suc}

abbrev pub second : ℕ
second = 1_000_000_000

-- The assignments to tempDelay before a timer is set.
unfoldable pub next_delay : ℕ → ℕ
next_delay delay =
    let grown = if delay == 0 then 3 * second else delay * 2 in
    if ltb (25 * second) grown then 25 * second else grown

-- The delay after `n` failures in a row.
pub delay_after : ℕ → ℕ
unfolding next_delay
delay_after zero = 0
delay_after (suc n) = next_delay (delay_after n)

-- The delays of `n` failures that follow on a delay.
unfoldable pub delays_from : ℕ → ℕ → List ℕ
unfolding next_delay
delays_from delay zero = []
delays_from delay (suc n) = next_delay delay ∷ delays_from (next_delay delay) n

pow_pos : (n : ℕ) → 0 < 2 ^ n
pow_pos zero = omega arith
pow_pos (suc n) = omega (arith, pow_pos n, pow-suc 2 n)

-- The delay before the next attempt, after n + 1 failures, is 3 seconds times 2^n, cut off at 25.
pub delay_after_lem : (n : ℕ) → delay_after (suc n) ≡ min (25 * second) (3 * second * 2 ^ n)
unfolding delay_after next_delay
delay_after_lem zero = refl
delay_after_lem (suc n) = ground (arith, delay_after_lem n, pow_pos n, pow-suc 2 n)
