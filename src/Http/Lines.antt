-- ===== src/Http/Lines.antt =====
-- Packages bufio and net/textproto: a text is read line by line through a buffer of 4096 bytes.
use notnets_grpc.Prelude.{
  ℕ, suc, ◌+◌, ◌-◌, ◌≤◌, ◌≡◌, Bool, false, ◌&&◌, List, [], ◌∷◌, ◌++◌, arith, ◌==◌, if◌then◌else◌,
  All, length, min,
}
use notnets_grpc.Text.{Text}
use notnets_grpc.Http.{buffer_size}
use notnets_grpc.Http.Spaces.{is_line_end}

-- A line, what follows it in the reader, and how many bytes of that are in the buffer.
pub record Line : Type 0 where
  pub text : Text
  pub rest : Text
  pub ready : ℕ

unfoldable pub push : ℕ → List Line → List Line
push c [] = record { text = c ∷ []; rest = []; ready = 0 } ∷ []
push c (l ∷ ls) = record l { text = c ∷ l.text } ∷ ls

abbrev starts_newline : Text → Bool
starts_newline [] = false
starts_newline (c ∷ s) = c == 10

-- How many bytes of the line the buffer keeps when it is filled: a full one is handed out, except a
-- last carriage return.
abbrev kept : ℕ → ℕ → ℕ
kept held last = if held == buffer_size then (if last == 13 then 1 else 0) else held

-- The lines of a text, `ready` bytes of which are in the buffer, after `held` bytes of the first
-- line, of which the last is `last`. The buffer is filled when a byte is asked of it that it lacks;
-- a line ends with a line feed, before which a carriage return is dropped, or with the text.
unfoldable pub lines : ℕ → ℕ → ℕ → Text → List Line
lines ready held last [] = []
lines ready held last (c ∷ s) =
    let held' = if ready == 0 then kept held last else held in
    let ready' = if ready == 0 then min (buffer_size - held') (suc (length s)) else ready in
    let next = lines (ready' - 1) (if c == 10 then 0 else suc held') c s in
    if c == 10
    then record { text = []; rest = s; ready = ready' - 1 } ∷ next
    else if c == 13 && starts_newline s
    then next
    else push c next

-- The lines that a new reader gives.
unfoldable pub lines_of : Text → List Line
unfolding lines push
lines_of text = lines 0 0 0 text

abbrev pub IsLine : Text → Type 0
IsLine = All (λ c. is_line_end c ≡ false)

-- "\r\n"
abbrev pub crlf : Text
crlf = 13 ∷ 10 ∷ []

-- With the whole line in the buffer.
pub lines_line :
    (line rest : Text) (ready held last : ℕ)
    → IsLine line
    → length line + 2 ≤ ready
    → lines ready held last (line ++ crlf ++ rest)
      ≡ record { text = line; rest = rest; ready = ready - length line - 2 }
        ∷ lines (ready - length line - 2) 0 10 rest
unfolding lines push
lines_line [] rest ready held last tt h = ground arith
lines_line (c ∷ line) rest ready held last (b, bs) h =
    ground (arith, lines_line line rest (ready - 1) (suc held) c bs)
