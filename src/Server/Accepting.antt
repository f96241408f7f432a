-- ===== src/Server/Accepting.antt =====
-- Which connections the accept loop starts to serve, and how long it waits.
use notnets_grpc.Prelude.{
  ℕ, suc, ◌≡◌, refl, sym, ap, ◌∙◌, Bool, true, false, List, [], ◌∷◌, ◌++◌, map, none, some, arith,
  ℤ, int_eq, int_eq_iff, if◌then◌else◌, append-nil, append_assoc, Bool-cases, inl, inr, ◌⊎◌,
}
use notnets_grpc.Shm.{QueueContext}
use notnets_grpc.Transport.{NotnetsAddr, NotnetsConn}
use notnets_grpc.Backoff.{next_delay, delays_from}
use notnets_grpc.Server.{
  server_conn, Acceptor, start, is_known, back_off, accept_round, Poll, stopped, polled, serve,
}

-- The queue pairs that Accept gave before the server was stopped.
pub queues_of : List Poll → List QueueContext
queues_of [] = []
queues_of (stopped ∷ ps) = []
queues_of (polled none ∷ ps) = queues_of ps
queues_of (polled (some q) ∷ ps) = q ∷ queues_of ps

pub knows : ℤ → List ℤ → Bool
knows id [] = false
knows id (j ∷ ids) = if int_eq j id then true else knows id ids

abbrev pub id_of : QueueContext → ℤ
id_of q = q.queues.client_id

-- The queue pairs whose client was not seen before.
pub first_queues : List ℤ → List QueueContext → List QueueContext
first_queues seen [] = []
first_queues seen (q ∷ qs) =
    let later = first_queues seen qs in
    let fresh = first_queues (id_of q ∷ seen) qs in
    if knows (id_of q) seen then later else q ∷ fresh

-- The polls before the stop that gave nothing, or a client that was seen before.
pub idle_polls : List ℤ → List Poll → ℕ
idle_polls seen [] = 0
idle_polls seen (stopped ∷ ps) = 0
idle_polls seen (polled none ∷ ps) = suc (idle_polls seen ps)
idle_polls seen (polled (some q) ∷ ps) =
    let again = suc (idle_polls seen ps) in
    let fresh = idle_polls (id_of q ∷ seen) ps in if knows (id_of q) seen then again else fresh

ids : List (ℤ × NotnetsConn) → List ℤ
ids [] = []
ids ((id, _) ∷ conns) = id ∷ ids conns

is_known_lem : (id : ℤ) (conns : List (ℤ × NotnetsConn)) → is_known id conns ≡ knows id (ids conns)
unfolding is_known knows ids
is_known_lem id [] = refl
is_known_lem id ((j, c) ∷ conns) = ground (arith, is_known_lem id conns)

module _ (addr : NotnetsAddr) where
  -- The state in which a new client's connection is stored and served.
  abbrev welcome : Acceptor → QueueContext → Acceptor
  welcome a q = record a {
    conns = (id_of q, server_conn addr q) ∷ a.conns;
    started = a.started ++ server_conn addr q ∷ [];
  }

  accept_round_old :
      (a : Acceptor) (q : QueueContext)
      → knows (id_of q) (ids a.conns) ≡ true
      → accept_round addr a (some q) ≡ back_off a
  unfolding accept_round
  accept_round_old a q old = rw (is_known_lem (id_of q) a.conns, old)

  accept_round_new :
      (a : Acceptor) (q : QueueContext)
      → knows (id_of q) (ids a.conns) ≡ false
      → accept_round addr a (some q) ≡ welcome a q
  unfolding accept_round
  accept_round_new a q new = rw (is_known_lem (id_of q) a.conns, new)

  accept_round-none : (a : Acceptor) → accept_round addr a none ≡ back_off a
  unfolding accept_round
  accept_round-none a = refl

  -- what the loop has done after a round that came to `b`
  started_after :
      (ps : List Poll) {a b : Acceptor}
      → a ≡ b
      → (serve addr a ps).0.started ≡ (serve addr b ps).0.started
  started_after ps e = ap (λ x. (serve addr x ps).0.started) e

  waits_after :
      (ps : List Poll) {a b : Acceptor}
      → a ≡ b
      → (serve addr a ps).0.waits ≡ (serve addr b ps).0.waits
  waits_after ps e = ap (λ x. (serve addr x ps).0.waits) e

  serve_started :
      (a : Acceptor) (ps : List Poll)
      → (serve addr a ps).0.started
        ≡ a.started ++ map (server_conn addr) (first_queues (ids a.conns) (queues_of ps))
  unfolding serve queues_of first_queues ids back_off
  serve_started a [] = sym (append-nil _)
  serve_started a (stopped ∷ ps) = sym (append-nil _)
  serve_started a (polled none ∷ ps) =
      started_after ps (accept_round-none a) ∙ serve_started (back_off a) ps
  serve_started a (polled (some q) ∷ ps) = elim (Bool-cases (knows (id_of q) (ids a.conns))) [
    | inl old ↦ rw old (started_after ps (accept_round_old a q old) ∙ serve_started (back_off a) ps)
    | inr new ↦ rw new (
        started_after ps (accept_round_new a q new)
        ∙ serve_started (welcome a q) ps
        ∙ append_assoc a.started (server_conn addr q ∷ []) _)
  ]

  serve_waits :
      (a : Acceptor) (ps : List Poll)
      → (serve addr a ps).0.waits
        ≡ a.waits ++ delays_from a.temp_delay (idle_polls (ids a.conns) ps)
  unfolding serve idle_polls ids back_off delays_from
  serve_waits a [] = sym (append-nil _)
  serve_waits a (stopped ∷ ps) = sym (append-nil _)
  serve_waits a (polled none ∷ ps) =
      waits_after ps (accept_round-none a)
      ∙ serve_waits (back_off a) ps
      ∙ append_assoc a.waits (next_delay a.temp_delay ∷ []) _
  serve_waits a (polled (some q) ∷ ps) = elim (Bool-cases (knows (id_of q) (ids a.conns))) [
    | inl old ↦ rw old (
        waits_after ps (accept_round_old a q old)
        ∙ serve_waits (back_off a) ps
        ∙ append_assoc a.waits (next_delay a.temp_delay ∷ []) _)
    | inr new ↦ rw new (waits_after ps (accept_round_new a q new) ∙ serve_waits (welcome a q) ps)
  ]

-- No id in the list is one that was seen, and none comes twice.
abbrev pub AreFresh : List ℤ → List QueueContext → Type 0
AreFresh seen [] = Unit
AreFresh seen (q ∷ qs) = (knows (id_of q) seen ≡ false) × AreFresh (id_of q ∷ seen) qs

first_queues-AreFresh :
    (seen : List ℤ) (qs : List QueueContext) → AreFresh seen (first_queues seen qs)
unfolding first_queues
first_queues-AreFresh seen [] = tt
first_queues-AreFresh seen (q ∷ qs) = elim (Bool-cases (knows (id_of q) seen)) [
  | inl old ↦ rw old (first_queues-AreFresh seen qs)
  | inr new ↦ rw new (new, first_queues-AreFresh (id_of q ∷ seen) qs)
]

pub id_list : List QueueContext → List ℤ
id_list [] = []
id_list (q ∷ qs) = id_of q ∷ id_list qs

-- Every client that was polled is served or was seen before.
knows-first_queues :
    (i : ℤ) (seen : List ℤ) (qs : List QueueContext)
    → knows i (id_list qs) ≡ true
    → (knows i seen ≡ true) ⊎ (knows i (id_list (first_queues seen qs)) ≡ true)
unfolding first_queues knows id_list
knows-first_queues i seen [] h = cc
knows-first_queues i seen (q ∷ qs) h = ground (
  arith,
  int_eq_iff (id_of q) i,
  knows-first_queues i seen qs,
  knows-first_queues i (id_of q ∷ seen) qs,
)

-- After any polls the server has started to serve, each once and in the order of the polls, the
-- connections of the queue pairs whose client id had not come before the poll. The ids of the served
-- clients are distinct, and every client that Accept gave before the stop is served. It has waited,
-- once for each poll that gave nothing or a client that had come before, for the delays of the
-- backoff in a row: a new connection does not set the delay back.
pub serve_lem :
    (addr : NotnetsAddr) (ps : List Poll)
    → ((serve addr start ps).0.started ≡ map (server_conn addr) (first_queues [] (queues_of ps)))
      × AreFresh [] (first_queues [] (queues_of ps))
      × ((i : ℤ)
          → knows i (id_list (queues_of ps)) ≡ true
          → knows i (id_list (first_queues [] (queues_of ps))) ≡ true)
      × ((serve addr start ps).0.waits ≡ delays_from 0 (idle_polls [] ps))
serve_lem addr ps = (
  (unfold ids in serve_started addr start ps),
  first_queues-AreFresh [] (queues_of ps),
  (λ i h. unfold knows in ground (arith, knows-first_queues i [] (queues_of ps) h)),
  (unfold ids in serve_waits addr start ps),
)
