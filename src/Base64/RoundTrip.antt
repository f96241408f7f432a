-- ===== src/Base64/RoundTrip.antt =====
-- Decoding what was encoded gives the bytes back.
use notnets_grpc.Prelude.{
  ℕ, ◌+◌, ◌*◌, ◌/◌, ◌%◌, ◌<◌, ◌≡◌, ◌≢◌, refl, ap, ap₂, ◌∙◌, [], ◌∷◌, some, ok, arith, All,
}
use notnets_grpc.Text.{Text}
use notnets_grpc.Base64.{
  digit, value, pad, encode, skip_breaks, quanta, decode, one_byte, two_bytes, three_bytes, at_end,
  or_corrupt,
}

abbrev pub IsByte : ℕ → Type 0
IsByte c = c < 256

value-digit : (n : ℕ) → n < 64 → value (digit n) ≡ some n
unfolding value digit
value-digit n h = ground arith

digit_plain : (n : ℕ) → (digit n ≢ 10) × (digit n ≢ 13) × (digit n ≢ pad)
unfolding digit
digit_plain n = ground arith

module _ (x y : ℕ) (hx : x < 64) (hy : y < 64) where
  one_byte-digit : one_byte (digit x) (digit y) ≡ some ((x * 4 + y / 16) ∷ [])
  unfolding one_byte
  one_byte-digit = rw (value-digit x hx, value-digit y hy)

  module _ (z : ℕ) (hz : z < 64) where
    two_bytes-digit :
        two_bytes (digit x) (digit y) (digit z)
        ≡ some ((x * 4 + y / 16) ∷ (y % 16 * 16 + z / 4) ∷ [])
    unfolding two_bytes
    two_bytes-digit = rw (value-digit x hx, value-digit y hy, value-digit z hz)

    module _ (w : ℕ) (hw : w < 64) (r : Text) where
      three_bytes-digit :
          three_bytes (digit x) (digit y) (digit z) (digit w) (some r)
          ≡ some ((x * 4 + y / 16) ∷ (y % 16 * 16 + z / 4) ∷ (z % 4 * 64 + w) ∷ r)
      unfolding three_bytes
      three_bytes-digit =
          rw (value-digit x hx, value-digit y hy, value-digit z hz, value-digit w hw)

restore :
    (a b c : ℕ)
    → a < 256
    → b < 256
    → c < 256
    → (a / 4 * 4 + (a % 4 * 16 + b / 16) / 16 ≡ a)
      × ((a % 4 * 16 + b / 16) % 16 * 16 + (b % 16 * 4 + c / 64) / 4 ≡ b)
      × ((b % 16 * 4 + c / 64) % 4 * 64 + c % 64 ≡ c)
restore a b c ha hb hc = omega arith

skip_breaks-digit : (n : ℕ) (s : Text) → skip_breaks (digit n ∷ s) ≡ digit n ∷ skip_breaks s
unfolding skip_breaks
skip_breaks-digit n s = ground (arith, digit_plain n)

skip_breaks-encode : (s : Text) → skip_breaks (encode s) ≡ encode s
unfolding encode
skip_breaks-encode [] = unfold skip_breaks in refl
skip_breaks-encode (a ∷ []) = simp skip_breaks-digit (unfold skip_breaks in refl)
skip_breaks-encode (a ∷ b ∷ []) = simp skip_breaks-digit (unfold skip_breaks in refl)
skip_breaks-encode (a ∷ b ∷ c ∷ s) = simp (skip_breaks-digit, skip_breaks-encode s)

quanta_one : (a b : ℕ) → quanta (a ∷ b ∷ pad ∷ pad ∷ []) ≡ one_byte a b
unfolding quanta at_end
quanta_one a b = refl

quanta_two : (a b c : ℕ) → c ≢ pad → quanta (a ∷ b ∷ c ∷ pad ∷ []) ≡ two_bytes a b c
unfolding quanta at_end
quanta_two a b c h = ground arith

quanta_three :
    (a b c d : ℕ) (s : Text)
    → c ≢ pad
    → d ≢ pad
    → quanta (a ∷ b ∷ c ∷ d ∷ s) ≡ three_bytes a b c d (quanta s)
unfolding quanta
quanta_three a b c d s hc hd = ground arith

quanta-encode : (s : Text) → All IsByte s → quanta (encode s) ≡ some s
unfolding encode
quanta-encode [] h = unfold quanta in refl
quanta-encode (a ∷ []) (ha, _) =
    quanta_one _ _
    ∙ one_byte-digit (a / 4) (a % 4 * 16) (omega arith) (omega arith)
    ∙ ap (λ x. some (x ∷ [])) (omega arith)
quanta-encode (a ∷ b ∷ []) (ha, (hb, _)) =
    quanta_two _ _ _ (digit_plain (b % 16 * 4)).2
    ∙ two_bytes-digit (a / 4) (a % 4 * 16 + b / 16) (omega arith) (omega arith) (b % 16 * 4)
        (omega arith)
    ∙ ap₂ (λ x y. some (x ∷ y ∷ [])) (omega arith) (omega arith)
quanta-encode (a ∷ b ∷ c ∷ s) (ha, (hb, (hc, hs))) =
    quanta_three _ _ _ _ (encode s) (digit_plain (b % 16 * 4 + c / 64)).2 (digit_plain (c % 64)).2
    ∙ ap (three_bytes _ _ _ _) (quanta-encode s hs)
    ∙ three_bytes-digit (a / 4) (a % 4 * 16 + b / 16) (omega arith) (omega arith)
        (b % 16 * 4 + c / 64) (omega arith) (c % 64) (omega arith) s
    ∙ ground (arith, restore a b c ha hb hc)

-- Every string of bytes survives URLEncoding.EncodeToString followed by DecodeString.
pub decode-encode : (s : Text) → All IsByte s → decode (encode s) ≡ ok s
unfolding decode or_corrupt
decode-encode s h = rw (skip_breaks-encode s, quanta-encode s h)
