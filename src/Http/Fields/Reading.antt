-- ===== src/Http/Fields/Reading.antt =====
-- A header block that was written is read, field by field.
use notnets_grpc.Prelude.{
  ℕ, ◌+◌, ◌-◌, ◌≤◌, ◌≡◌, refl, ap, Bool, true, false, ◌||◌, List, [], ◌∷◌, ◌++◌, Option, none, some,
  ok, arith, ◌==◌, All, All-append, length,
}
use notnets_grpc.Text.{Text}
use notnets_grpc.Dict.{Multi, append_at}
use notnets_grpc.Header.{is_token, is_name, canonical}
use notnets_grpc.Http.Spaces.{
  is_space, is_line_end, is_value_byte, trim_left, trim_right, unless_space, trim,
  trim_right-append, AllValueBytes, IsValue,
}
use notnets_grpc.Http.Lines.{Line, lines, IsLine, lines_line}
use notnets_grpc.Http.Fields.{
  Field, field_line, write_fields, cut, is_field_name, all_bytes, add_pair, add_line, starts_space,
  continues, add_begun, read_fields,
}

-- A field that is written and read as it is.
pub record IsField (f : Field) : Type 0 where
  pub named : is_field_name f.0 ≡ true
  pub canon : canonical f.0 ≡ f.0
  pub value : IsValue f.1

abbrev pub AllFields : List Field → Type 0
AllFields = All IsField

-- The header that reading some fields gives.
unfoldable pub add_fields : List Field → Multi → Multi
add_fields [] m = m
add_fields ((k, v) ∷ fs) m = add_fields fs (append_at k (v ∷ []) m)

token-plain :
    (c : ℕ)
    → is_token c ≡ true
    → (is_line_end c ≡ false) × (is_space c ≡ false) × ((c == b':') ≡ false)
unfolding is_token
token-plain c h = (ground arith, ground arith, ground arith)

is_name-IsLine : (k : Text) → is_name k ≡ true → IsLine k
unfolding is_name
is_name-IsLine [] h = tt
is_name-IsLine (c ∷ k) h = ((token-plain c (ground arith)).0, is_name-IsLine k (ground arith))

value-IsLine : (v : Text) → AllValueBytes v → IsLine v
value-IsLine [] b = tt
value-IsLine (c ∷ v) (b, bs) = (ground arith, value-IsLine v bs)

cut_name : (k rest : Text) → is_name k ≡ true → cut b':' (k ++ b':' ∷ rest) ≡ some (k, rest)
unfolding cut is_name
cut_name [] rest h = refl
cut_name (c ∷ k) rest h =
    let (_, _, other) = token-plain c (ground arith) in
    rw (other, cut_name k rest (ground arith)) refl

name_bytes : (k : Text) → is_name k ≡ true → all_bytes (λ b. is_token b || b == b' ') k ≡ true
unfolding all_bytes is_name
name_bytes [] h = refl
name_bytes (c ∷ k) h = ground (arith, name_bytes k)

value_bytes : (v : Text) → AllValueBytes v → all_bytes is_value_byte v ≡ true
unfolding all_bytes
value_bytes [] b = refl
value_bytes (c ∷ v) (b, bs) = rw (b, value_bytes v bs) refl

pub all_bytes-All : (p : ℕ → Bool) (s : Text) → all_bytes p s ≡ true → All (λ c. p c ≡ true) s
unfolding all_bytes
all_bytes-All p [] h = tt
all_bytes-All p (c ∷ s) h = (ground arith, all_bytes-All p s (ground arith))

-- What is left after the colon when a line is trimmed.
abbrev after_colon : Text → Text
after_colon [] = []
after_colon (c ∷ v) = b' ' ∷ c ∷ v

trim_right_value : (v : Text) → IsValue v → trim_right (b':' ∷ b' ' ∷ v) ≡ b':' ∷ after_colon v
unfolding trim_right
trim_right_value [] h = refl
trim_right_value (c ∷ v) h = ap (λ t. unless_space b':' (unless_space b' ' t)) h.right

trim_left_value : (v : Text) → IsValue v → trim_left (after_colon v) ≡ v
unfolding trim_left
trim_left_value [] h = refl
trim_left_value (c ∷ v) h = h.left

after_colon-bytes : (v : Text) → IsValue v → all_bytes is_value_byte (after_colon v) ≡ true
unfolding all_bytes
after_colon-bytes [] h = refl
after_colon-bytes (c ∷ v) h = value_bytes (c ∷ v) h.bytes

field_line-IsLine : (f : Field) → IsField f → IsLine (field_line f)
field_line-IsLine ([], v) h = ground (arith, h.named)
field_line-IsLine (c ∷ k, v) h =
    All-append (λ b. is_line_end b ≡ false) (c ∷ k) (b':' ∷ b' ' ∷ v)
      (is_name-IsLine (c ∷ k) h.named) (refl, (refl, value-IsLine v h.value.bytes))

trim-field_line :
    (k v : Text) → IsField (k, v) → trim (field_line (k, v)) ≡ k ++ b':' ∷ after_colon v
unfolding trim trim_left is_name
trim-field_line [] v h = ground (arith, h.named)
trim-field_line (c ∷ k) v h =
    let (_, solid, _) = token-plain c (ground (arith, h.named)) in
    rw solid (
      trim_right-append (c ∷ k) (b':' ∷ b' ' ∷ v) b':' (after_colon v) (trim_right_value v h.value))

-- The trimmed line of a field adds the field.
pub add_line_field :
    (k v : Text) (m : Multi)
    → IsField (k, v)
    → add_line m (trim (field_line (k, v))) ≡ ok (append_at k (v ∷ []) m)
unfolding add_line add_pair
add_line_field [] v m h = ground (arith, h.named)
add_line_field (c ∷ k) v m h =
    rw
      (
        trim-field_line (c ∷ k) v h,
        cut_name (c ∷ k) (after_colon v) h.named,
        name_bytes (c ∷ k) h.named,
        after_colon-bytes v h.value,
        trim_left_value v h.value,
        h.canon,
      )
      refl

-- How long a header block is, its blank line included.
unfoldable pub block_length : List Field → ℕ
block_length [] = 2
block_length (f ∷ fs) = length (field_line f) + 2 + block_length fs

-- What reading a written block gives when the buffer holds all of it.
abbrev pub block_end : ℕ → List Field → Text → Line
block_end ready fs body = record { text = []; rest = body; ready = ready - block_length fs }

solid_start : (f : Field) → IsField f → starts_space (field_line f) ≡ false
unfolding is_name
solid_start ([], v) h = ground (arith, h.named)
solid_start (c ∷ k, v) h = let (_, solid, _) = token-plain c (ground (arith, h.named)) in solid

-- A field's line begins a field, after what was begun is added.
read_fields_line :
    (begun : Option Text) (m m' : Multi) (f : Field) (rest : Text) (ready : ℕ) (ls : List Line)
    → IsField f
    → continues begun (field_line f) ≡ false
    → add_begun m begun (field_line f) ≡ ok m'
    → read_fields begun m (record { text = field_line f; rest = rest; ready = ready } ∷ ls)
      ≡ read_fields (some (trim (field_line f))) m' ls
unfolding read_fields
read_fields_line begun m m' ([], v) rest ready ls h fresh added = ground (arith, h.named)
read_fields_line begun m m' (c ∷ k, v) rest ready ls h fresh added =
    rw (fresh, added, cut_name (c ∷ k) (b' ' ∷ v) h.named) refl

fields_lines :
    (f : Field) (fs : List Field) (ready : ℕ) (body : Text)
    → IsField f
    → block_length (f ∷ fs) ≤ ready
    → lines ready 0 10 (write_fields (f ∷ fs) body)
      ≡ record {
        text = field_line f;
        rest = write_fields fs body;
        ready = ready - length (field_line f) - 2;
      }
        ∷ lines (ready - length (field_line f) - 2) 0 10 (write_fields fs body)
unfolding write_fields block_length
fields_lines f fs ready body h enough =
    lines_line (field_line f) (write_fields fs body) ready 0 10 (field_line-IsLine f h)
      (omega (arith, enough))

read_fields_begun :
    (k v : Text) (fs : List Field) (m : Multi) (ready : ℕ) (body : Text)
    → IsField (k, v)
    → AllFields fs
    → block_length fs ≤ ready
    → read_fields (some (trim (field_line (k, v)))) m (lines ready 0 10 (write_fields fs body))
      ≡ ok (add_fields ((k, v) ∷ fs) m, block_end ready fs body)
unfolding add_fields block_length
read_fields_begun k v [] m ready body h tt enough =
    unfold read_fields write_fields in
    rw (lines_line [] body ready 0 10 tt enough, add_line_field k v m h)
      (ap (λ r. ok (append_at k (v ∷ []) m, record { text = []; rest = body; ready = r }))
        (omega arith))
read_fields_begun k v (f ∷ fs) m ready body h (h', hs) enough =
    rw
      (
        fields_lines f fs ready body h' enough,
        read_fields_line (some (trim (field_line (k, v)))) m (append_at k (v ∷ []) m) f _ _ _ h'
            (solid_start f h') (add_line_field k v m h),
        read_fields_begun f.0 f.1 fs (append_at k (v ∷ []) m) (ready - length (field_line f) - 2)
            body h' hs (omega (arith, enough)),
      )
      (ap
        (λ r. ok (
          add_fields (f ∷ fs) (append_at k (v ∷ []) m),
          record { text = []; rest = body; ready = r },
        ))
        (omega arith))

-- A block that was written is read, when all of it is in the buffer: its fields, and what is left.
pub read-write_fields :
    (f : Field) (fs : List Field) (ready : ℕ) (body : Text)
    → AllFields (f ∷ fs)
    → block_length (f ∷ fs) ≤ ready
    → read_fields none [] (lines ready 0 10 (write_fields (f ∷ fs) body))
      ≡ ok (add_fields (f ∷ fs) [], block_end ready (f ∷ fs) body)
unfolding block_length
read-write_fields f fs ready body (h, hs) enough =
    rw
      (
        fields_lines f fs ready body h enough,
        read_fields_line none [] [] f _ _ _ h refl (rw (solid_start f h) refl),
        read_fields_begun f.0 f.1 fs [] (ready - length (field_line f) - 2) body h hs
            (omega (arith, enough)),
      )
      (ap (λ r. ok (add_fields (f ∷ fs) [], record { text = []; rest = body; ready = r }))
        (omega arith))
