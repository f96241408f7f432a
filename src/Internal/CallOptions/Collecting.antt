-- ===== src/Internal/CallOptions/Collecting.antt =====
-- What GetCallOptions collects, and where the collected pointers lead.
use notnets_grpc.Prelude.{
  ℕ, ◌≡◌, ◌≢◌, All, refl, sym, Bool, false, ◌||◌, List, [], ◌∷◌, ◌++◌, Option, arith, ◌==◌, ℤ,
  append_assoc, append-nil, if◌then◌else◌,
}
use notnets_grpc.Dict.{Multi}
use notnets_grpc.Internal.CallOptions.{
  CallOption, header, trailer, peer_addr, per_rpc_creds, max_recv_msg_size, max_send_msg_size,
  CallOptions, no_options, collect, collect_all, get_call_options, Store, assign, assign_all,
  set_headers, set_trailers, set_peer,
}

module _ {C : Type 0} where
  pub header_addrs : List (CallOption C) → List ℕ
  header_addrs [] = []
  header_addrs (header a ∷ os) = a ∷ header_addrs os
  header_addrs (_ ∷ os) = header_addrs os

  pub trailer_addrs : List (CallOption C) → List ℕ
  trailer_addrs [] = []
  trailer_addrs (trailer a ∷ os) = a ∷ trailer_addrs os
  trailer_addrs (_ ∷ os) = trailer_addrs os

  pub peer_addrs : List (CallOption C) → List ℕ
  peer_addrs [] = []
  peer_addrs (peer_addr a ∷ os) = a ∷ peer_addrs os
  peer_addrs (_ ∷ os) = peer_addrs os

  -- The last of the options that set a field, or its value before them.
  pub last_creds : Option C → List (CallOption C) → Option C
  last_creds c [] = c
  last_creds c (per_rpc_creds d ∷ os) = last_creds d os
  last_creds c (_ ∷ os) = last_creds c os

  pub last_max_recv : ℤ → List (CallOption C) → ℤ
  last_max_recv n [] = n
  last_max_recv n (max_recv_msg_size m ∷ os) = last_max_recv m os
  last_max_recv n (_ ∷ os) = last_max_recv n os

  pub last_max_send : ℤ → List (CallOption C) → ℤ
  last_max_send n [] = n
  last_max_send n (max_send_msg_size m ∷ os) = last_max_send m os
  last_max_send n (_ ∷ os) = last_max_send n os

  pub record Collects (from : CallOptions C) (opts : List (CallOption C)) (co : CallOptions C)
      : Type 0 where
    pub headers : co.headers ≡ from.headers ++ header_addrs opts
    pub trailers : co.trailers ≡ from.trailers ++ trailer_addrs opts
    pub peer : co.peer ≡ from.peer ++ peer_addrs opts
    pub creds : co.creds ≡ last_creds from.creds opts
    pub max_recv : co.max_recv ≡ last_max_recv from.max_recv opts
    pub max_send : co.max_send ≡ last_max_send from.max_send opts

  collect_all-Collects :
      (co : CallOptions C) (opts : List (CallOption C)) → Collects co opts (collect_all co opts)
  unfolding collect_all header_addrs trailer_addrs peer_addrs last_creds last_max_recv last_max_send
  collect_all-Collects co [] = record {
    headers = sym (append-nil co.headers);
    trailers = sym (append-nil co.trailers);
    peer = sym (append-nil co.peer);
    creds = refl;
    max_recv = refl;
    max_send = refl;
  }
  collect_all-Collects co (header a ∷ opts) = ground (
    arith,
    collect_all-Collects (collect co (header a)) opts,
    append_assoc co.headers (a ∷ []) (header_addrs opts),
  )
  collect_all-Collects co (trailer a ∷ opts) = ground (
    arith,
    collect_all-Collects (collect co (trailer a)) opts,
    append_assoc co.trailers (a ∷ []) (trailer_addrs opts),
  )
  collect_all-Collects co (peer_addr a ∷ opts) = ground (
    arith,
    collect_all-Collects (collect co (peer_addr a)) opts,
    append_assoc co.peer (a ∷ []) (peer_addrs opts),
  )
  collect_all-Collects co (o ∷ opts) = ground (arith, collect_all-Collects (collect co o) opts)

  -- GetCallOptions collects the header, trailer and peer addresses in the order of the options, and
  -- of the credentials and the two size limits keeps the last one, or the zero value if none is set.
  pub get_call_options-Collects :
      (opts : List (CallOption C)) → Collects no_options opts (get_call_options opts)
  unfolding get_call_options
  get_call_options-Collects opts = collect_all-Collects no_options opts

abbrev pub mem : ℕ → List ℕ → Bool
mem a [] = false
mem a (b ∷ bs) = b == a || mem a bs

pub without : (b : ℕ) (s : List ℕ) → mem b s ≡ false → All (λ c. c ≢ b) s
without b [] h = tt
without b (a ∷ s) h = (ground arith, without b s (ground arith))

pub assign_all_lem {ℓ} :
    {A : Type ℓ} (ps : List ℕ) (v : A) (f : ℕ → A) (q : ℕ)
    → assign_all ps v f q ≡ (if mem q ps then v else f q)
unfolding assign_all
assign_all_lem [] v f q = refl
assign_all_lem (p ∷ ps) v f q = ground (arith, assign_all_lem ps v (assign p v f) q)

module _ {C P : Type 0} where
  pub set_headers-mds :
      (co : CallOptions C) (md : Multi) (s : Store P) (q : ℕ)
      → (set_headers co md s).mds q ≡ (if mem q co.headers then md else s.mds q)
  unfolding set_headers
  set_headers-mds co md s q = assign_all_lem co.headers md s.mds q

  pub set_trailers-mds :
      (co : CallOptions C) (md : Multi) (s : Store P) (q : ℕ)
      → (set_trailers co md s).mds q ≡ (if mem q co.trailers then md else s.mds q)
  unfolding set_trailers
  set_trailers-mds co md s q = assign_all_lem co.trailers md s.mds q

  pub peers-set_trailers-set_headers :
      (co : CallOptions C) (t h : Multi) (s : Store P) (q : ℕ)
      → (set_trailers co t (set_headers co h s)).peers q ≡ s.peers q
  unfolding set_headers set_trailers
  peers-set_trailers-set_headers co t h s q = refl

  -- SetHeaders and SetTrailers write the metadata through each of their own pointers and through no
  -- other, SetPeer the peer; each leaves the variables of the other kind alone.
  pub set_all_lem :
      (co : CallOptions C) (md : Multi) (p : P) (s : Store P) (q : ℕ)
      → ((set_headers co md s).mds q ≡ (if mem q co.headers then md else s.mds q))
        × ((set_headers co md s).peers q ≡ s.peers q)
        × ((set_trailers co md s).mds q ≡ (if mem q co.trailers then md else s.mds q))
        × ((set_trailers co md s).peers q ≡ s.peers q)
        × ((set_peer co p s).peers q ≡ (if mem q co.peer then p else s.peers q))
        × ((set_peer co p s).mds q ≡ s.mds q)
  unfolding set_headers set_trailers set_peer
  set_all_lem co md p s q = (
    set_headers-mds co md s q,
    refl,
    set_trailers-mds co md s q,
    refl,
    assign_all_lem co.peer p s.peers q,
    refl,
  )
