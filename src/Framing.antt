-- ===== src/Framing.antt =====
-- The loops that read a message off a queue, piece by piece, until a read returns less than the
-- buffer holds: in Invoke of client.go and in serveRequests of server.go.
pub mod Frames
pub mod Pieces
use notnets_grpc.Prelude.{
  ℕ, zero, suc, ◌≡◌, Bool, true, false, List, [], ◌∷◌, ◌++◌, Option, none, some, Run, returns,
  panics, unfinished, run_bind, ℤ, pos, negsuc, length, take, ltb, leb, if◌then◌else◌, replicate,
}
use notnets_grpc.Text.{Text}

-- make([]byte, size), which panics if size < 0
unfoldable pub make_bytes : ℤ → Run Text
make_bytes (pos n) = returns (replicate n 0)
make_bytes (negsuc n) = panics

-- buf[:size], which panics outside of 0 ≤ size ≤ len(buf)
pub slice_to : Text → ℤ → Run Text
slice_to buf (pos n) = if leb n (length buf) then returns (take n buf) else panics
slice_to buf (negsuc n) = panics

-- size < n
abbrev pub is_short : ℤ → ℕ → Bool
is_short (pos k) n = ltb k n
is_short (negsuc k) n = true

module _ {W : Type 0} (read : Text → W → Run (ℤ × Text × W)) (n : ℕ) where
  -- The loop with its buffer, what the variable buffer holds, and fuel for the reads: the message,
  -- the buffer and the state after it.
  unfoldable pub receive : ℕ → Text → Text → W → Run (Text × Text × W)
  unfolding slice_to
  receive zero buf held w = unfinished
  receive (suc fuel) buf held w = run_bind (read buf w) λ (size, buf', w').
      run_bind (slice_to buf' size) λ piece.
        let rest = receive fuel buf' (held ++ piece) w' in
        if is_short size n then returns (held ++ piece, buf', w') else rest
