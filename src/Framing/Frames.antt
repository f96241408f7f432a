-- ===== src/Framing/Frames.antt =====
-- What the loop returns, told from the reads that it makes.
use notnets_grpc.Prelude.{
  ℕ, zero, suc, ◌≤◌, ◌<◌, ◌≡◌, refl, ◌++◌, Bool-cases, inl, inr, Run, returns, run_bind-eq-returns,
  ℤ, pos, negsuc, length, take, ltb, arith, append_assoc, take-append, take_all, drop,
  take-append-drop, length-append, length-take, if◌then◌else◌, ◌∙◌, ap, sym, lt→ltb, false,
}
use notnets_grpc.Text.{Text}
use notnets_grpc.Framing.{slice_to, is_short, receive}

ltb_irrefl : (n : ℕ) → ltb n n ≡ false
ltb_irrefl n = ground arith

slice_to-eq-returns :
    (buf piece : Text) (size : ℤ)
    → slice_to buf size ≡ returns piece
    → (k : ℕ) × (size ≡ pos k) × (k ≤ length buf) × (piece ≡ take k buf)
unfolding slice_to
slice_to-eq-returns buf piece (pos k) h = (k, refl, ground arith, ground arith)
slice_to-eq-returns buf piece (negsuc k) h = cc

module _ {W : Type 0} (read : Text → W → Run (ℤ × Text × W)) (n : ℕ) where
  -- From a buffer and a state, reads that fill the buffer and then one that does not deliver `msg`,
  -- and leave a buffer and a state.
  pub data Frames : Text → W → Text → Text → W → Type 0 where
    last :
        {buf msg end : Text} {w w' : W} (rest : Text)
        → read buf w ≡ returns (pos (length msg), end, w')
        → end ≡ msg ++ rest
        → length msg < n
        → Frames buf w msg end w'
    more :
        {buf piece msg whole end : Text} {w w' w'' : W}
        → read buf w ≡ returns (pos n, piece, w')
        → length piece ≡ n
        → whole ≡ piece ++ msg
        → Frames piece w' msg end w''
        → Frames buf w whole end w''

  slice_to-append :
      (msg rest end : Text) → end ≡ msg ++ rest → slice_to end (pos (length msg)) ≡ returns msg
  unfolding slice_to
  slice_to-append msg rest end e =
      rw e (ground (arith, length-append msg rest, take-append msg rest))

  slice_to_whole : (piece : Text) → length piece ≡ n → slice_to piece (pos n) ≡ returns piece
  unfolding slice_to
  slice_to_whole piece e = ground (arith, take_all n piece)

  -- The loop returns what the reads deliver, behind what it held, if it has fuel for them.
  pub receive-Frames :
      (fuel : ℕ) (buf held msg end : Text) (w w' : W)
      → 0 < n
      → length msg < fuel
      → Frames buf w msg end w'
      → receive read n fuel buf held w ≡ returns (held ++ msg, end, w')
  unfolding receive
  receive-Frames zero buf held msg end w w' pos_n enough f = absurd (omega arith)
  receive-Frames (suc fuel) buf held msg end w w' pos_n enough (last rest e split short) =
      rw (e, slice_to-append msg rest end split, lt→ltb (length msg) n short)
  receive-Frames (suc fuel) buf held whole end w w'' pos_n enough
        (more {piece = piece} {msg = msg} {w' = w'} e full split f) =
      rw (e, slice_to_whole piece full, ltb_irrefl n)
        (receive-Frames fuel piece (held ++ piece) msg end w' w'' pos_n
            (omega (arith, ap length split, length-append piece msg)) f
          ∙ ap (λ t. returns (t, end, w''))
              (append_assoc held piece msg ∙ ap (λ t. held ++ t) (sym split)))

  -- A read leaves the buffer as long as it is, as a C function does that is given its length.
  abbrev pub KeepsLength : Type 0
  KeepsLength =
      (buf end : Text) (size : ℤ) (w w' : W)
      → length buf ≡ n
      → read buf w ≡ returns (size, end, w')
      → length end ≡ n

  -- What a run of the loop that returned says of the reads.
  abbrev pub Delivered : Text → Text → W → Text → Text → W → Type 0
  Delivered buf held w out end w' = (msg : Text) × Frames buf w msg end w' × (out ≡ held ++ msg)

  module _ (buf held mid out end : Text) (k : ℕ) (w w1 w' : W)
      (e : read buf w ≡ returns (pos k, mid, w1)) (fits : k ≤ length mid)
      (full : length mid ≡ n) where
    last_read :
        ◌≡◌ {A = Run (Text × Text × W)}
          (returns (held ++ take k mid, mid, w1))
          (returns (out, end, w'))
        → k < n
        → Delivered buf held w out end w'
    last_read h short = (
      take k mid,
      last (drop k mid) (ground (arith, e, length-take k mid))
          (ground (arith, take-append-drop k mid)) (omega (arith, length-take k mid)),
      ground arith,
    )

    after_read :
        (fuel : ℕ) (size : ℤ) (piece : Text)
        → size ≡ pos k
        → piece ≡ take k mid
        → (receive read n fuel mid (held ++ piece) w1 ≡ returns (out, end, w')
            → Delivered mid (held ++ piece) w1 out end w')
        → (if is_short size n
            then returns (held ++ piece, mid, w1)
            else receive read n fuel mid (held ++ piece) w1)
          ≡ returns (out, end, w')
        → Delivered buf held w out end w'
    after_read fuel size piece sized taken ih h = elim (Bool-cases (is_short size n)) [
      | inl short ↦ last_read (rw taken at (rw short at h)) (ground arith)
      | inr long ↦
          let (msg, f, split) = ih (rw long at h) in
          (
            mid ++ msg,
            more {w' = w1} (ground (arith, e)) full refl f,
            ground (arith, take_all n mid, append_assoc held mid msg),
          )
    ]

  -- Whatever the loop returns was delivered so.
  pub Frames-receive :
      KeepsLength
      → (fuel : ℕ) (buf held out end : Text) (w w' : W) → length buf ≡ n
      → receive read n fuel buf held w ≡ returns (out, end, w')
      → Delivered buf held w out end w'
  unfolding receive
  Frames-receive keeps zero buf held out end w w' full h = cc
  Frames-receive keeps (suc fuel) buf held out end w w' full h =
      let ((size, mid, w1), e, h1) = run_bind-eq-returns (read buf w) _ h in
      let (piece, cut, h2) = run_bind-eq-returns (slice_to mid size) _ h1 in
      let (k, sized, fits, taken) = slice_to-eq-returns mid piece size cut in
      let full' : length mid ≡ n = keeps buf mid size w w1 full e in
      after_read buf held mid out end k w w1 w' (e ∙ ap (λ z. returns (z, mid, w1)) sized) fits
        full' fuel size piece sized taken
        (Frames-receive keeps fuel mid (held ++ piece) out end w1 w' full') h2
