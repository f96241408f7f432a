-- ===== src/Framing/Pieces.antt =====
-- Over a queue that hands out a message in pieces as long as the buffer allows, the loop gives back
-- the message, whatever its length, and then stops.
use notnets_grpc.Prelude.{
  ℕ, zero, suc, ◌<◌, ◌≡◌, sym, ap, ◌∙◌, [], ◌++◌, Run, returns, ℤ, pos, length, take, drop, arith,
  append-nil, take-append-drop, length-append, length-take, length-drop, take_all, drop_all, dec_lt,
}
use notnets_grpc.Text.{Text}
use notnets_grpc.Framing.{receive}
use notnets_grpc.Framing.Frames.{Frames, last, more, receive-Frames}

-- What the queue library promises of a receive into a buffer of length `n`: it returns the next
-- piece of the message at hand, at most `n` bytes of it and none once all was read.
pub record Piecewise {W : Type 0} (read : Text → W → Run (ℤ × Text × W)) (n : ℕ) : Type 0 where
  pub pending : W → Text
  pub advance : W → W
  pub receives :
      (buf : Text) (w : W)
      → length buf ≡ n
      → read buf w
        ≡ returns (
          pos (length (take n (pending w))),
          take n (pending w) ++ drop (length (take n (pending w))) buf,
          advance w,
        )
  pub pending-advance : (w : W) → pending (advance w) ≡ drop n (pending w)

module _ {W : Type 0} (read : Text → W → Run (ℤ × Text × W)) (n : ℕ) (q : Piecewise read n)
    (some_room : 0 < n) where
  open q use {pending, advance, receives, pending-advance}

  -- How reading the rest of a message ends.
  record Drained (buf : Text) (w : W) : Type 0 where
    pub end : Text
    pub after : W
    pub frames : Frames read n buf w (pending w) end after
    pub full : length end ≡ n
    pub drained : pending after ≡ []

  length-refill :
      (buf msg : Text) → length buf ≡ n → length (take n msg ++ drop (length (take n msg)) buf) ≡ n
  length-refill buf msg full = omega (
    arith,
    length-append (take n msg) (drop (length (take n msg)) buf),
    length-drop (length (take n msg)) buf,
    length-take n msg,
  )

  length-piece : (msg : Text) → ¬ (length msg < n) → length (take n msg) ≡ n
  length-piece msg long = omega (arith, length-take n msg)

  -- A read that leaves nothing of the message.
  receives_last :
      (buf : Text) (w : W)
      → length buf ≡ n
      → length (pending w) < n
      → read buf w
        ≡ returns (
          pos (length (pending w)),
          take n (pending w) ++ drop (length (take n (pending w))) buf,
          advance w,
        )
  receives_last buf w full short = ground (arith, receives buf w full, take_all n (pending w))

  -- A read that fills the buffer.
  receives_full :
      (buf : Text) (w : W)
      → length buf ≡ n
      → ¬ (length (pending w) < n)
      → read buf w ≡ returns (pos n, take n (pending w), advance w)
  receives_full buf w full long = ground (
    arith,
    receives buf w full,
    length-piece (pending w) long,
    drop_all n buf,
    append-nil (take n (pending w)),
  )

  -- The reads end once the message is used up: its length is a bound on their number.
  drain :
      (fuel : ℕ) (buf : Text) (w : W) → length buf ≡ n → length (pending w) < fuel → Drained buf w
  drain zero buf w full h = absurd (omega arith)
  drain (suc fuel) buf w full h = elim (dec_lt (length (pending w)) n) [
    | yes short ↦ record {
      end = take n (pending w) ++ drop (length (take n (pending w))) buf;
      after = advance w;
      frames =
          last (drop (length (take n (pending w))) buf) (receives_last buf w full short)
            (ap (λ m. m ++ drop (length (take n (pending w))) buf)
              (take_all n (pending w) (omega arith)))
            short;
      full = length-refill buf (pending w) full;
      drained = pending-advance w ∙ drop_all n (pending w) (omega arith);
    }
    | no long ↦
        let piece : Text = take n (pending w) in
        let d =
          drain fuel piece (advance w) (length-piece (pending w) long)
            (omega (arith, ap length (pending-advance w), length-drop n (pending w))) in
        record {
          end = d.end;
          after = d.after;
          frames =
              more (receives_full buf w full long) (length-piece (pending w) long)
                (sym (take-append-drop n (pending w))
                  ∙ ap (λ m. piece ++ m) (sym (pending-advance w)))
                d.frames;
          full = d.full;
          drained = d.drained;
        }
  ]

-- Over such a queue the loop returns exactly the pending message, of whatever length, multiples of
-- the buffer's length and the empty message included, and nothing of the message is left behind.
pub receive-Piecewise :
    {W : Type 0} (read : Text → W → Run (ℤ × Text × W)) (n : ℕ) (q : Piecewise read n) (fuel : ℕ)
    (buf : Text) (w : W)
    → 0 < n
    → length buf ≡ n
    → length (q.pending w) < fuel
    → (end : Text) × (after : W) × (receive read n fuel buf [] w
        ≡ returns (q.pending w, end, after))
      × (length end ≡ n)
      × (q.pending after ≡ [])
receive-Piecewise read n q fuel buf w some_room full enough =
    let d = drain read n q some_room fuel buf w full enough in
    (
      d.end,
      d.after,
      receive-Frames read n fuel buf [] (q.pending w) d.end w d.after some_room enough d.frames,
      d.full,
      d.drained,
    )
