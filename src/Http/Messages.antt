-- ===== src/Http/Messages.antt =====
-- A message that was written is read through the buffer: its first line, its fields, and as much of
-- its body as the buffer holds.
use notnets_grpc.Prelude.{
  ℕ, suc, ◌+◌, ◌-◌, ◌≤◌, ◌≡◌, refl, ap, ◌∙◌, [], ◌∷◌, ◌++◌, List, none, ok, err, arith, true, false,
  not, leb, ◌==◌, if◌then◌else◌, length, length-append, min, take_all,
}
use notnets_grpc.Text.{Text}
use notnets_grpc.Http.{buffer_size}
use notnets_grpc.Http.Spaces.{is_line_end}
use notnets_grpc.Http.Lines.{Line, lines, lines_of, IsLine, lines_line, crlf}
use notnets_grpc.Http.Fields.{Field, field_line, write_fields, message, read_fields, all_bytes}
use notnets_grpc.Http.Fields.Reading.{AllFields, add_fields, block_length, read-write_fields}
use notnets_grpc.Http.Transfer.{read_body, unexpected_eof}

-- A text that is known is a line if it has no line ends.
pub literal-IsLine : (s : Text) → all_bytes (λ c. not (is_line_end c)) s ≡ true → IsLine s
unfolding all_bytes
literal-IsLine [] h = tt
literal-IsLine (c ∷ s) h = (ground arith, literal-IsLine s (ground arith))

some_ready : (s : Text) → (min buffer_size (suc (length s)) == 0) ≡ false
some_ready s = ground arith

lines_of_first : (text : Text) → lines_of text ≡ lines (min buffer_size (length text)) 0 0 text
unfolding lines_of lines
lines_of_first [] = refl
lines_of_first (c ∷ s) = rw (some_ready s) refl

length-write_fields :
    (fs : List Field) (body : Text) → length (write_fields fs body) ≡ block_length fs + length body
unfolding write_fields block_length
length-write_fields [] body = omega arith
length-write_fields (f ∷ fs) body = omega (
  arith,
  length-append (field_line f ++ crlf) (write_fields fs body),
  length-append (field_line f) crlf,
  length-write_fields fs body,
)

-- How long a message is without its body.
abbrev pub head_length : Text → List Field → ℕ
head_length start fs = length start + 2 + block_length fs

pub length-message :
    (start : Text) (fs : List Field) (body : Text)
    → length (message start fs body) ≡ head_length start fs + length body
unfolding message
length-message start fs body = omega (
  arith,
  length-append (start ++ crlf) (write_fields fs body),
  length-append start crlf,
  length-write_fields fs body,
)

-- What reading a message leaves: its body, of which the buffer has what fits behind the head.
abbrev pub message_end : Text → List Field → Text → Line
message_end start fs body = record {
  text = [];
  rest = body;
  ready = min buffer_size (head_length start fs + length body) - head_length start fs;
}

pub record Reads (start : Text) (fs : List Field) (body : Text) : Type 0 where
  pub first : Line
  pub others : List Line
  pub as_lines : lines_of (message start fs body) ≡ first ∷ others
  pub start_line : first.text ≡ start
  pub fields : read_fields none [] others ≡ ok (add_fields fs [], message_end start fs body)

pub read_message :
    (start : Text) (f : Field) (fs : List Field) (body : Text)
    → IsLine start
    → AllFields (f ∷ fs)
    → head_length start (f ∷ fs) ≤ buffer_size
    → Reads start (f ∷ fs) body
unfolding message
read_message start f fs body l a fits =
    let head : ℕ = head_length start (f ∷ fs) in
    let ready : ℕ = min buffer_size (head + length body) in
    record {
      first = record {
        text = start;
        rest = write_fields (f ∷ fs) body;
        ready = ready - length start - 2;
      };
      others = lines (ready - length start - 2) 0 10 (write_fields (f ∷ fs) body);
      as_lines =
          lines_of_first (start ++ crlf ++ write_fields (f ∷ fs) body)
          ∙ ap (λ n. lines (min buffer_size n) 0 0 (start ++ crlf ++ write_fields (f ∷ fs) body))
              (length-message start (f ∷ fs) body)
          ∙ lines_line start (write_fields (f ∷ fs) body) ready 0 0 l (omega (arith, fits));
      start_line = refl;
      fields =
          read-write_fields f fs (ready - length start - 2) body a (omega (arith, fits))
          ∙ ap (λ r. ok (add_fields (f ∷ fs) [], record { text = []; rest = body; ready = r }))
              (omega arith);
    }

-- The body is read whole exactly if the message fits into the buffer.
pub read_body_message :
    (start : Text) (fs : List Field) (body : Text)
    → head_length start fs ≤ buffer_size
    → read_body (length body) (message_end start fs body) ≡ (
        if leb (head_length start fs + length body) buffer_size
        then ok body
        else err unexpected_eof)
unfolding read_body
read_body_message start fs body fits = ground (arith, take_all (length body) body)
