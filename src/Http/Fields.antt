-- ===== src/Http/Fields.antt =====
-- The header block of a message: Header.writeSubset of net/http, and ReadMIMEHeader of net/textproto.
pub mod Reading
pub mod Listing
pub mod Sorting
pub mod Written
use notnets_grpc.Prelude.{
  ℕ, ◌+◌, Bool, true, false, ◌||◌, ◌&&◌, not, List, [], ◌∷◌, ◌++◌, Option, none, some, Err, Result,
  ok, err, outside, ◌>>=◌, map, leb, ltb, ◌==◌, if◌then◌else◌,
}
use notnets_grpc.Text.{Text, codes, text_eq}
use notnets_grpc.Dict.{Multi, append_at}
use notnets_grpc.Header.{is_token, is_name, canonical}
use notnets_grpc.Http.Spaces.{is_space, is_value_byte, trim_left, trim, clean_value}
use notnets_grpc.Http.Lines.{Line, crlf}

-- A line of a header: a name and a value.
abbrev pub Field : Type 0
Field = Text × Text

-- "name: value\r\n"
abbrev pub field_line : Field → Text
field_line (k, v) = k ++ b':' ∷ b' ' ∷ v

unfoldable pub write_fields : List Field → Text → Text
write_fields [] rest = crlf ++ rest
write_fields (f ∷ fs) rest = field_line f ++ crlf ++ write_fields fs rest

-- A message: its first line, its header and its body.
unfoldable pub message : Text → List Field → Text → Text
unfolding write_fields
message start fs body = start ++ crlf ++ write_fields fs body

unfoldable pub text_leb : Text → Text → Bool
text_leb [] t = true
text_leb (a ∷ s) [] = false
text_leb (a ∷ s) (b ∷ t) = ltb a b || a == b && text_leb s t

unfoldable pub insert_sorted : Text → List Text → Multi → Multi
unfolding text_leb
insert_sorted k vs [] = (k, vs) ∷ []
insert_sorted k vs ((j, ws) ∷ h) =
    if text_leb k j then (k, vs) ∷ (j, ws) ∷ h else (j, ws) ∷ insert_sorted k vs h

-- The header's entries in the order of their names.
unfoldable pub sorted : Multi → Multi
unfolding insert_sorted
sorted [] = []
sorted ((k, vs) ∷ h) = insert_sorted k vs (sorted h)

unfoldable pub is_excluded : List Text → Text → Bool
is_excluded [] k = false
is_excluded (e ∷ es) k = text_eq e k || is_excluded es k

-- ValidHeaderFieldName
abbrev pub is_field_name : Text → Bool
is_field_name [] = false
is_field_name (c ∷ k) = is_name (c ∷ k)

unfoldable pub fields_in_order : List Text → Multi → List Field
unfolding is_excluded
fields_in_order excluded [] = []
fields_in_order excluded ((k, vs) ∷ h) =
    let next = fields_in_order excluded h in
    if is_excluded excluded k || not (is_field_name k)
    then next
    else map (λ v. (k, clean_value v)) vs ++ next

-- What writeSubset writes of a header.
unfoldable pub fields_of : List Text → Multi → List Field
unfolding sorted fields_in_order
fields_of excluded h = fields_in_order excluded (sorted h)

-- bytes.Cut
unfoldable pub cut : ℕ → Text → Option (Text × Text)
cut sep [] = none
cut sep (c ∷ s) =
    let next = cut sep s in
    if c == sep
    then some ([], s)
    else elim next [ none ↦ none | some (before, after) ↦ some (c ∷ before, after) ]

-- An error of net/http: a message that is malformed.
abbrev pub malformed : Err
malformed = outside 1

unfoldable pub all_bytes : (ℕ → Bool) → Text → Bool
all_bytes p [] = true
all_bytes p (c ∷ s) = p c && all_bytes p s

unfoldable pub add_pair : Multi → Option (Text × Text) → Result Multi
unfolding all_bytes
add_pair m none = err malformed
add_pair m (some ([], v)) = if all_bytes is_value_byte v then ok m else err malformed
add_pair m (some (c ∷ k, v)) =
    if all_bytes (λ b. is_token b || b == b' ') (c ∷ k) && all_bytes is_value_byte v
    then ok (append_at (canonical (c ∷ k)) (trim_left v ∷ []) m)
    else err malformed

-- A header line, with the lines that continue it: the name ends at the first colon.
unfoldable pub add_line : Multi → Text → Result Multi
unfolding add_pair cut
add_line m line = add_pair m (cut b':' line)

abbrev pub starts_space : Text → Bool
starts_space [] = false
starts_space (c ∷ s) = is_space c

-- Without a line that it could continue, a line that starts with a space is malformed.
abbrev pub add_begun : Multi → Option Text → Text → Result Multi
add_begun m none line = if starts_space line then err malformed else ok m
add_begun m (some before_it) line = add_line m before_it

abbrev pub continues : Option Text → Text → Bool
continues none line = false
continues (some before_it) line = starts_space line

abbrev pub joined : Option Text → Text → Text
joined none line = trim line
joined (some before_it) line = before_it ++ b' ' ∷ trim line

-- ReadMIMEHeader: the header, and the blank line that ends it. `begun` is the line that is read, as
-- far as it is known: one that starts with a space continues it. An end of the text before a blank
-- line is an error.
unfoldable pub read_fields : Option Text → Multi → List Line → Result (Multi × Line)
read_fields begun m [] = err malformed
read_fields begun m (l ∷ ls) =
    if continues begun l.text then read_fields (some (joined begun l.text)) m ls else do
      m' ← add_begun m begun l.text
      elim l.text [
        | [] ↦ ok (m', l)
        | c ∷ s ↦
            let next = read_fields (some (trim (c ∷ s))) m' ls in
            elim (cut b':' (c ∷ s)) [ none ↦ err malformed | some _ ↦ next ]
      ]
