-- ===== src/Client/Dialing.antt =====
-- How Dial ends, and how long it waits.
use notnets_grpc.Prelude.{
  ℕ, zero, suc, ◌<◌, ◌≡◌, ◌↔◌, refl, sym, ap, subst, ◌∙◌, true, List, [], ◌∷◌, ◌++◌, Option, none,
  some, Run, returns, run_bind-eq-returns, ℤ, arith, append-nil, append_assoc,
}
use notnets_grpc.Text.{Text}
use notnets_grpc.Backoff.{next_delay, delays_from}
use notnets_grpc.Shm.{QueueContext, Library}
use notnets_grpc.Shm
use notnets_grpc.Shm.Config.{ConfigFile}
use notnets_grpc.Client.{NotnetsChannel, dialed_conn, opened, open_queues, dial}

module _ {W : Type 0} (lib : Library W) (config : ConfigFile) (local remote : Text) (size : ℤ) where
  -- ClientOpen gives nothing so many times in a row, and then queues.
  pub data Opens : ℕ → W → QueueContext → W → Type 0 where
    now :
        {w w' : W} {q : QueueContext}
        → Shm.client_open lib config local remote size w ≡ (some q, w')
        → Opens 0 w q w'
    later :
        {k : ℕ} {w w1 w' : W} {q : QueueContext}
        → Shm.client_open lib config local remote size w ≡ (none, w1)
        → Opens k w1 q w'
        → Opens (suc k) w q w'

  open_queues_of_Opens :
      (k fuel delay : ℕ) (waits : List ℕ) (w w' : W) (q : QueueContext)
      → k < fuel
      → Opens k w q w'
      → open_queues lib config local remote size fuel delay waits w
        ≡ returns (q, waits ++ delays_from delay k, w')
  unfolding open_queues opened delays_from
  open_queues_of_Opens k zero delay waits w w' q enough o = absurd (omega arith)
  open_queues_of_Opens k (suc fuel) delay waits w w' q enough (now e) =
      rw e (ap (λ l. returns (q, l, w')) (sym (append-nil waits)))
  open_queues_of_Opens k (suc fuel) delay waits w w' q enough (later {k = j} {w1 = w1} e o) = rw e (
      open_queues_of_Opens j fuel (next_delay delay) (waits ++ next_delay delay ∷ []) w1 w' q
        (omega arith) o
      ∙ ap (λ l. returns (q, l, w'))
          (append_assoc waits (next_delay delay ∷ []) (delays_from (next_delay delay) j)))

  -- What a run of the loop that ended says.
  abbrev pub Opened : ℕ → ℕ → List ℕ → W → QueueContext → List ℕ → W → Type 0
  Opened fuel delay waits w q waited w' =
      (k : ℕ) × (k < fuel) × Opens k w q w' × (waited ≡ waits ++ delays_from delay k)

  module _ (fuel delay : ℕ) (waits waited : List ℕ) (w w' : W) (q : QueueContext) where
    abbrev grown : List ℕ
    grown = waits ++ next_delay delay ∷ []

    Opened-of_result :
        ((w1 : W)
          → open_queues lib config local remote size fuel (next_delay delay) grown w1
            ≡ returns (q, waited, w')
          → Opened fuel (next_delay delay) grown w1 q waited w')
        → (r : Option QueueContext × W) → Shm.client_open lib config local remote size w ≡ r
        → opened (open_queues lib config local remote size fuel (next_delay delay) grown) waits r
          ≡ returns (q, waited, w')
        → Opened (suc fuel) delay waits w q waited w'
    unfolding opened delays_from
    Opened-of_result ih (some queues, w1) e h =
        (0, omega arith, now (ground arith), ground (arith, append-nil waits))
    Opened-of_result ih (none, w1) e h =
        let (k, enough, o, split) = ih w1 h in
        (
          suc k,
          omega arith,
          later e o,
          split ∙ append_assoc waits (next_delay delay ∷ []) (delays_from (next_delay delay) k),
        )

  open_queues-Opened :
      (fuel delay : ℕ) (waits waited : List ℕ) (w w' : W) (q : QueueContext)
      → open_queues lib config local remote size fuel delay waits w ≡ returns (q, waited, w')
      → Opened fuel delay waits w q waited w'
  unfolding open_queues
  open_queues-Opened zero delay waits waited w w' q h = cc
  open_queues-Opened (suc fuel) delay waits waited w w' q h =
      Opened-of_result fuel delay waits waited w w' q
        (λ w1.
          open_queues-Opened fuel (next_delay delay) (waits ++ next_delay delay ∷ []) waited w1 w'
            q)
        (Shm.client_open lib config local remote size w) refl h

  result-injective :
      {q q' : QueueContext} {l l' : List ℕ} {w w' : W}
      → ◌≡◌ {A = Run (NotnetsChannel × List ℕ × W)}
          (returns
            (record { conn = dialed_conn local remote true (some q); message_size = size }, l, w))
          (returns (
            record { conn = dialed_conn local remote true (some q'); message_size = size },
            l',
            w',
          ))
      → ◌≡◌ {A = QueueContext × List ℕ × W} (q, l, w) (q', l', w')
  result-injective h = ground arith

  -- Dial returns exactly after as many attempts as it takes ClientOpen to give queues: the channel is
  -- over those queues and connected, and it has waited for the delays of the backoff in a row, one
  -- for each attempt that gave nothing. The fuel is a bound on the attempts.
  pub dial_iff :
      (fuel : ℕ) (w w' : W) (q : QueueContext) (waited : List ℕ)
      → (dial lib config local remote size fuel w
          ≡ returns (
            record { conn = dialed_conn local remote true (some q); message_size = size },
            waited,
            w',
          ))
        ↔ Opened fuel 0 [] w q waited w'
  unfolding dial
  dial_iff fuel w w' q waited = (
    λ h.
        (let ((queues, waits, w1), e, h') =
            run_bind-eq-returns (open_queues lib config local remote size fuel 0 [] w) _ h in
          let o = open_queues-Opened fuel 0 [] waits w w1 queues e in
          subst (λ x. Opened fuel 0 [] w x.0 x.1 x.2) (result-injective h') o),
    λ (k, enough, o, split). rw (open_queues_of_Opens k fuel 0 [] w w' q enough o, split) refl,
  )
