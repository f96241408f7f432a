-- ===== src/Http/Spaces.antt =====
-- Package net/textproto: white space around values, and the bytes of values.
use notnets_grpc.Prelude.{
  ℕ, ◌≡◌, refl, ap, Bool, true, false, ◌||◌, ◌&&◌, not, [], ◌∷◌, ◌++◌, map, arith, leb, ◌==◌,
  if◌then◌else◌, All,
}
use notnets_grpc.Text.{Text}

abbrev pub is_space : ℕ → Bool
is_space c = c == b' ' || c == 9

abbrev pub is_line_end : ℕ → Bool
is_line_end c = c == 10 || c == 13

-- validHeaderValueByte
abbrev pub is_value_byte : ℕ → Bool
is_value_byte c = c == 9 || leb 32 c && not (c == 127)

unfoldable pub trim_left : Text → Text
trim_left [] = []
trim_left (c ∷ s) = let rest = trim_left s in if is_space c then rest else c ∷ s

-- A byte in front of a text that is trimmed on the right.
abbrev pub unless_space : ℕ → Text → Text
unless_space c [] = if is_space c then [] else c ∷ []
unless_space c (d ∷ s) = c ∷ d ∷ s

unfoldable pub trim_right : Text → Text
trim_right [] = []
trim_right (c ∷ s) = unless_space c (trim_right s)

unfoldable pub trim : Text → Text
unfolding trim_left trim_right
trim s = trim_right (trim_left s)

-- headerNewlineToSpace, and TrimString
unfoldable pub clean_value : Text → Text
unfolding trim
clean_value s = trim (map (λ c. if is_line_end c then b' ' else c) s)

abbrev pub AllValueBytes : Text → Type 0
AllValueBytes = All (λ c. is_value_byte c ≡ true)

-- A value that is written and read as it is.
pub record IsValue (v : Text) : Type 0 where
  pub bytes : AllValueBytes v
  pub left : trim_left v ≡ v
  pub right : trim_right v ≡ v

no_line_ends : (v : Text) → AllValueBytes v → map (λ c. if is_line_end c then b' ' else c) v ≡ v
no_line_ends [] b = refl
no_line_ends (c ∷ v) (b, bs) = ground (arith, no_line_ends v bs)

pub clean_value-IsValue : (v : Text) → IsValue v → clean_value v ≡ v
unfolding clean_value trim
clean_value-IsValue v h = rw (no_line_ends v h.bytes, h.left, h.right)

-- A text of which a byte stays on the right keeps what is before it.
pub trim_right-append :
    (a b : Text) (c : ℕ) (b' : Text) → trim_right b ≡ c ∷ b' → trim_right (a ++ b) ≡ a ++ c ∷ b'
unfolding trim_right
trim_right-append [] b c b' h = h
trim_right-append (d ∷ []) b c b' h = ap (unless_space d) h
trim_right-append (d ∷ e ∷ a) b c b' h = ap (unless_space d) (trim_right-append (e ∷ a) b c b' h)

-- A byte that a value has anywhere.
abbrev pub IsSolid : ℕ → Type 0
IsSolid c = (is_value_byte c ≡ true) × (is_space c ≡ false)

solid-trim_left : (s : Text) → All IsSolid s → trim_left s ≡ s
unfolding trim_left
solid-trim_left [] h = refl
solid-trim_left (c ∷ s) ((_, h), hs) = rw h refl

unless_space-solid : (c : ℕ) (s : Text) → is_space c ≡ false → unless_space c s ≡ c ∷ s
unless_space-solid c [] h = rw h refl
unless_space-solid c (d ∷ s) h = refl

solid-trim_right : (s : Text) → All IsSolid s → trim_right s ≡ s
unfolding trim_right
solid-trim_right [] h = refl
solid-trim_right (c ∷ s) ((_, h), hs) = rw (solid-trim_right s hs) (unless_space-solid c s h)

solid-bytes : (s : Text) → All IsSolid s → AllValueBytes s
solid-bytes [] h = tt
solid-bytes (c ∷ s) ((h, _), hs) = (h, solid-bytes s hs)

-- A text without spaces and control bytes is a value.
pub solid-IsValue : (s : Text) → All IsSolid s → IsValue s
solid-IsValue s h = record {
  bytes = solid-bytes s h;
  left = solid-trim_left s h;
  right = solid-trim_right s h;
}

unfoldable pub is_solid : Text → Bool
is_solid [] = true
is_solid (c ∷ s) = is_value_byte c && not (is_space c) && is_solid s

is_solid-All : (s : Text) → is_solid s ≡ true → All IsSolid s
unfolding is_solid
is_solid-All [] h = tt
is_solid-All (c ∷ s) h = ((ground arith, ground arith), is_solid-All s (ground arith))

-- A known text is a value if a test says so.
pub literal-IsValue : (s : Text) → is_solid s ≡ true → IsValue s
literal-IsValue s h = solid-IsValue s (is_solid-All s h)
