-- ===== src/Client/Receiving.antt =====
-- What Invoke makes of the headers of an answer.
use notnets_grpc.Prelude.{
  ℕ, ◌≡◌, ◌≢◌, refl, ap, ◌∙◌, true, false, ◌||◌, List, [], ◌∷◌, ◌++◌, ok, arith, if◌then◌else◌,
  Bool-cases, inl, inr,
}
use notnets_grpc.Text.{Text, lower, lower-append, text_eq}
use notnets_grpc.Dict.{Multi, values}
use notnets_grpc.Dict.Laws.{values-Lacks}
use notnets_grpc.Internal.CallOptions.{CallOptions, Store, set_headers, set_trailers}
use notnets_grpc.Internal.CallOptions.Collecting.{
  mem, set_headers-mds, set_trailers-mds, peers-set_trailers-set_headers,
}
use notnets_grpc.Metadata.{
  is_reserved, trailer_prefix, names_trailer, response_headers, split_trailers, set_metadata,
}
use notnets_grpc.Metadata.Gather.{gather, values-as_metadata, as_metadata_total, IsDecodable}
use notnets_grpc.Metadata.Split.{
  values-has, as_metadata-IsLowerMap, values-split_trailers_headers, values-split_trailers_trailers,
}
use notnets_grpc.Metadata.Trailers.{gather_header, gather_trailer}
use notnets_grpc.Http.Fields.{is_excluded}
use notnets_grpc.Server.Handling.Sending.{IsPlainKey, IsAnswerable}
use notnets_grpc.Client.{gather_metadata, has_some}

-- What the caller's variables hold after an answer with the given metadata: all trailer metadata,
-- and the header metadata save for the keys that the answer uses itself, without the trailers.
pub record Obtained {C P : Type 0} (hdr tlr : Multi) (co : CallOptions C) (s s' : Store P)
    : Type 0 where
  pub trailers :
      (q : ℕ) (n : Text)
      → mem q co.trailers ≡ true
      → n ≢ []
      → lower n ≡ n
      → values n (s'.mds q) ≡ (if is_reserved n then [] else values n tlr)
  pub headers :
      (q : ℕ) (j : Text)
      → mem q co.trailers ≡ false
      → mem q co.headers ≡ true
      → names_trailer trailer_prefix j ≡ false
      → IsPlainKey j
      → values j (s'.mds q) ≡ (if is_reserved j then [] else values j hdr)
  pub no_trailers :
      (q : ℕ) (j : Text)
      → mem q co.trailers ≡ false
      → mem q co.headers ≡ true
      → names_trailer trailer_prefix j ≡ true
      → values j (s'.mds q) ≡ []
  pub others : (q : ℕ) → mem q co.trailers ≡ false → mem q co.headers ≡ false → s'.mds q ≡ s.mds q
  pub peers : (q : ℕ) → s'.peers q ≡ s.peers q

nowhere : (q : ℕ) (ps : List ℕ) → has_some ps ≡ false → mem q ps ≡ true → ⊥
nowhere q [] empty here = cc
nowhere q (p ∷ ps) empty here = cc

trailer-IsPlainKey : (n : Text) → lower n ≡ n → IsPlainKey (trailer_prefix ++ n)
trailer-IsPlainKey n low = record {
  low = lower-append trailer_prefix n ∙ (unfold lower in ap (λ t. trailer_prefix ++ t) low);
  quiet = unfold is_excluded lower text_eq in refl;
}

module _ (hdr tlr : Multi) (a : IsAnswerable hdr tlr) (header : Multi)
    (same : (j : Text) → IsPlainKey j → gather j header ≡ gather j (response_headers hdr tlr))
    (d : IsDecodable header) {C P : Type 0} (co : CallOptions C) (s : Store P) where
  set_metadata-Obtained :
      (s' : Store P) × (set_metadata header co s ≡ ok s') × Obtained hdr tlr co s s'
  unfolding set_metadata
  set_metadata-Obtained =
      let (md, e) = as_metadata_total header d in
      let split = split_trailers trailer_prefix md md [] in
      let s1 : Store P = set_headers co split.0 s in
      let got = λ (j : Text) (p : IsPlainKey j). values-as_metadata header md e j ∙ same j p in
      (
        set_trailers co split.1 s1,
        rw e refl,
        record {
          trailers = λ q n here some_name low.
              rw (set_trailers-mds co split.1 s1 q, here)
                (ground (
                  arith,
                  values-split_trailers_trailers trailer_prefix n md md [] some_name
                      (as_metadata-IsLowerMap header md e),
                  values-has (trailer_prefix ++ n) md,
                  got (trailer_prefix ++ n) (trailer-IsPlainKey n low),
                  gather_trailer hdr tlr a.header_map a.trailer_map a.headers a.trailers
                      a.no_trailer_names n some_name,
                  values-Lacks n [] tt,
                ));
          headers = λ q j away here plain p.
              rw (set_trailers-mds co split.1 s1 q, away, set_headers-mds co split.0 s q, here)
                (ground (
                  arith,
                  values-split_trailers_headers trailer_prefix j md md [],
                  got j p,
                  gather_header hdr tlr a.header_map a.trailer_map a.headers a.trailers
                      a.no_trailer_names j plain,
                ));
          no_trailers = λ q j away here named.
              rw (set_trailers-mds co split.1 s1 q, away, set_headers-mds co split.0 s q, here)
                (ground (
                  arith,
                  values-split_trailers_headers trailer_prefix j md md [],
                  values-has j md,
                ));
          others = λ q away gone.
              rw (set_trailers-mds co split.1 s1 q, away, set_headers-mds co split.0 s q, gone)
                refl;
          peers = λ q. peers-set_trailers-set_headers co split.1 split.0 s q;
        },
      )

  nothing-Obtained : (has_some co.headers || has_some co.trailers) ≡ false → Obtained hdr tlr co s s
  nothing-Obtained none_asked = record {
    trailers =
        λ q n here some_name low. absurd (nowhere q co.trailers (ground (arith, none_asked)) here);
    headers =
        λ q j away here plain p. absurd (nowhere q co.headers (ground (arith, none_asked)) here);
    no_trailers =
        λ q j away here named. absurd (nowhere q co.headers (ground (arith, none_asked)) here);
    others = λ q away gone. refl;
    peers = λ q. refl;
  }

  -- Whether the call options ask for metadata or not.
  pub gather_metadata-Obtained :
      (s' : Store P) × (gather_metadata header co s ≡ ok s') × Obtained hdr tlr co s s'
  unfolding gather_metadata
  gather_metadata-Obtained = elim (Bool-cases (has_some co.headers || has_some co.trailers)) [
    | inl e ↦ rw e set_metadata-Obtained
    | inr e ↦ rw e (s, refl, nothing-Obtained e)
  ]
