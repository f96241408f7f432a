-- ===== src/Metadata/Trailers.antt =====
-- Headers and trailers of a response, from the server's toHeaders to the client's variables.
use notnets_grpc.Prelude.{
  ℕ, ◌≡◌, ◌≢◌, refl, ap, ◌∙◌, true, false, [], ◌∷◌, ◌++◌, Err, ok, err, arith, if◌then◌else◌,
  append-nil,
}
use notnets_grpc.Text.{Text, codes, lower, lower_byte}
use notnets_grpc.Dict.{Multi, values, append_at}
use notnets_grpc.Dict.Laws.{IsMap, values-Lacks}
use notnets_grpc.Base64.{decode}
use notnets_grpc.Header.{add, canonical}
use notnets_grpc.Internal.CallOptions.{CallOptions, Store, set_headers, set_trailers}
use notnets_grpc.Internal.CallOptions.Collecting.{
  mem, set_headers-mds, set_trailers-mds, peers-set_trailers-set_headers,
}
use notnets_grpc.Metadata.{
  is_reserved, is_binary, to_headers, as_metadata, trailer_prefix, names_trailer, server_prefix,
  response_headers, split_trailers, set_metadata, decode_value, encode_value,
}
use notnets_grpc.Metadata.Gather.{gather, values-as_metadata, as_metadata_total}
use notnets_grpc.Metadata.Travel.{sent, to_headers-IsHeader, gather-to_headers}
use notnets_grpc.Metadata.RoundTrip.{
  AllMetadata, AllMetadata-travel, sent_plain, to_headers-IsDecodable,
}
use notnets_grpc.Metadata.Split.{
  values-has, as_metadata-IsLowerMap, values-split_trailers_headers, values-split_trailers_trailers,
}
use notnets_grpc.Metadata.TrailerNames.{
  AllTrailers, AllTrailers-travel, NoTrailerNames, Lacks-of_NoTrailerNames, sent_trailer,
  sent_no_trailer,
}

module _ (hdr tlr : Multi) (dh : IsMap hdr) (dt : IsMap tlr) (mh : AllMetadata hdr)
    (mt : AllTrailers tlr) (nh : NoTrailerNames hdr) where
  gather-response_headers :
      (j : Text)
      → gather j (response_headers hdr tlr)
        ≡ (if is_reserved j then [] else values j hdr) ++ sent server_prefix j tlr
  gather-response_headers j =
      gather-to_headers server_prefix j tlr _ (AllTrailers-travel tlr mt)
        (to_headers-IsHeader [] hdr [] (AllMetadata-travel hdr mh) tt)
      ∙ ap (λ vs. vs ++ sent server_prefix j tlr)
          (gather-to_headers [] j hdr [] (AllMetadata-travel hdr mh) tt
            ∙ (unfold gather in sent_plain j hdr dh mh))

  pub gather_trailer :
      (n : Text)
      → n ≢ []
      → gather (trailer_prefix ++ n) (response_headers hdr tlr)
        ≡ (if is_reserved n then [] else values n tlr)
  gather_trailer n some_name = ground (
    arith,
    gather-response_headers (trailer_prefix ++ n),
    values-Lacks (trailer_prefix ++ n) hdr (Lacks-of_NoTrailerNames n hdr some_name mh nh),
    sent_trailer n tlr dt mt,
  )

  pub gather_header :
      (j : Text)
      → names_trailer trailer_prefix j ≡ false
      → gather j (response_headers hdr tlr) ≡ (if is_reserved j then [] else values j hdr)
  gather_header j h =
      gather-response_headers j
      ∙ ap (λ vs. (if is_reserved j then [] else values j hdr) ++ vs) (sent_no_trailer j tlr mt h)
      ∙ append-nil _

  -- What the client splits the metadata of such a response into.
  record Splits (md : Multi) : Type 0 where
    pub headers :
        (j : Text)
        → names_trailer trailer_prefix j ≡ false
        → values j (split_trailers trailer_prefix md md []).0
          ≡ (if is_reserved j then [] else values j hdr)
    pub no_trailers :
        (j : Text)
        → names_trailer trailer_prefix j ≡ true
        → values j (split_trailers trailer_prefix md md []).0 ≡ []
    pub trailers :
        (n : Text)
        → n ≢ []
        → values n (split_trailers trailer_prefix md md []).1
          ≡ (if is_reserved n then [] else values n tlr)

  split-Splits : (md : Multi) → as_metadata (response_headers hdr tlr) ≡ ok md → Splits md
  split-Splits md e = record {
    headers = λ j h. ground (
      arith,
      values-split_trailers_headers trailer_prefix j md md [],
      values-as_metadata _ md e j,
      gather_header j h,
    );
    no_trailers = λ j h.
        ground (arith, values-split_trailers_headers trailer_prefix j md md [], values-has j md);
    trailers = λ n some_name. ground (
      arith,
      values-split_trailers_trailers trailer_prefix n md md [] some_name
          (as_metadata-IsLowerMap _ md e),
      values-has (trailer_prefix ++ n) md,
      values-as_metadata _ md e (trailer_prefix ++ n),
      gather_trailer n some_name,
      values-Lacks n [] tt,
    );
  }

-- What the client's variables hold after a response with the given metadata.
pub record Delivered {C P : Type 0} (hdr tlr : Multi) (co : CallOptions C) (s s' : Store P)
    : Type 0 where
  pub trailers :
      (q : ℕ) (n : Text)
      → mem q co.trailers ≡ true
      → n ≢ []
      → values n (s'.mds q) ≡ (if is_reserved n then [] else values n tlr)
  pub headers :
      (q : ℕ) (j : Text)
      → mem q co.trailers ≡ false
      → mem q co.headers ≡ true
      → names_trailer trailer_prefix j ≡ false
      → values j (s'.mds q) ≡ (if is_reserved j then [] else values j hdr)
  pub no_trailers :
      (q : ℕ) (j : Text)
      → mem q co.trailers ≡ false
      → mem q co.headers ≡ true
      → names_trailer trailer_prefix j ≡ true
      → values j (s'.mds q) ≡ []
  pub others : (q : ℕ) → mem q co.trailers ≡ false → mem q co.headers ≡ false → s'.mds q ≡ s.mds q
  pub peers : (q : ℕ) → s'.peers q ≡ s.peers q

-- The header and the trailer metadata of a response, written by the server's two calls of toHeaders
-- into empty headers, reach the variables that the client's call options name: each trailer variable
-- has the trailer values, each header variable that is not a trailer variable too has the header
-- values, save those under reserved names, and nothing under a trailer's, and every other variable is
-- as before.
pub set_metadata-response_headers :
    {C P : Type 0} (hdr tlr : Multi) (co : CallOptions C) (s : Store P)
    → IsMap hdr
    → IsMap tlr
    → AllMetadata hdr
    → AllTrailers tlr
    → NoTrailerNames hdr
    → (s' : Store P) × (set_metadata (response_headers hdr tlr) co s ≡ ok s')
      × Delivered hdr tlr co s s'
unfolding set_metadata
set_metadata-response_headers {P} hdr tlr co s dh dt mh mt nh =
    let (md, e) = as_metadata_total _ (
      to_headers-IsDecodable server_prefix tlr _ (AllTrailers-travel tlr mt)
        (to_headers-IsDecodable [] hdr [] (AllMetadata-travel hdr mh) tt)) in
    let split = split-Splits hdr tlr dh dt mh mt nh md e in
    let h : Multi = (split_trailers trailer_prefix md md []).0 in
    let t : Multi = (split_trailers trailer_prefix md md []).1 in
    let s1 : Store P = set_headers co h s in
    (
      set_trailers co t s1,
      rw e,
      record {
        trailers = λ q n here some_name.
            rw (set_trailers-mds co t s1 q, here) (split.trailers n some_name);
        headers = λ q j away here plain.
            rw (set_trailers-mds co t s1 q, away, set_headers-mds co h s q, here)
              (split.headers j plain);
        no_trailers = λ q j away here named.
            rw (set_trailers-mds co t s1 q, away, set_headers-mds co h s q, here)
              (split.no_trailers j named);
        others =
            λ q away gone. rw (set_trailers-mds co t s1 q, away, set_headers-mds co h s q, gone);
        peers = λ q. peers-set_trailers-set_headers co t h s q;
      },
    )

-- A trailer named "bin" is sent as it is, and read as base64: the server tests the key without the
-- prefix, the client the key with it. Its value makes setMetadata fail if it is no base64.
pub set_metadata_bin_trailer :
    {C P : Type 0} (v : Text) (e : Err) (co : CallOptions C) (s : Store P)
    → decode v ≡ err e
    → set_metadata (response_headers [] ((codes "bin", v ∷ []) ∷ [])) co s ≡ err e
unfolding set_metadata as_metadata to_headers is_reserved is_binary add canonical decode_value
    append_at lower lower_byte encode_value
set_metadata_bin_trailer v e co s h = rw h refl
