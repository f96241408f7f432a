-- ===== src/Metadata/TrailerNames.antt =====
-- The keys of trailers, on their way from the server's toHeaders to setMetadata.
use mathlib.Core.Bool.{false≢true}
use notnets_grpc.Prelude.{
  ◌≡◌, ◌≢◌, refl, sym, ap, ◌∙◌, true, false, List, [], ◌∷◌, ◌++◌, arith, All, if◌then◌else◌,
  append-nil,
}
use notnets_grpc.Text.{
  Text, codes, text_eq, text_eq_iff, text_eq_of_ne, lower, lower_byte, has_suffix,
}
use notnets_grpc.Dict.{Multi, values}
use notnets_grpc.Dict.Laws.{Lacks, IsMap}
use notnets_grpc.Header.{is_name, is_token}
use notnets_grpc.Metadata.{is_reserved, is_binary, trailer_prefix, names_trailer, server_prefix}
use notnets_grpc.Metadata.Travel.{AllTravel, sent}
use notnets_grpc.Metadata.RoundTrip.{IsMetadata, AllMetadata}
use notnets_grpc.Metadata.Split.{names_trailer_of_eq}

-- A trailer's key: not empty, and not "bin", which the prefix would turn into a binary key.
pub record IsTrailer (k : Text) (vs : List Text) : Type 0 where
  pub metadata : IsMetadata k vs
  pub some_name : k ≢ []
  pub not_bin : k ≢ codes "bin"

lower-server_prefix : (k : Text) → lower (server_prefix ++ k) ≡ trailer_prefix ++ lower k
unfolding lower lower_byte
lower-server_prefix k = refl

lower-trailer_prefix : (k : Text) → lower (trailer_prefix ++ k) ≡ trailer_prefix ++ lower k
unfolding lower lower_byte
lower-trailer_prefix k = refl

is_name-server_prefix : (k : Text) → is_name (server_prefix ++ k) ≡ is_name k
unfolding is_name is_token
is_name-server_prefix k = refl

is_binary-trailer_prefix :
    (k : Text) → k ≢ codes "bin" → is_binary (trailer_prefix ++ k) ≡ is_binary k
unfolding is_binary has_suffix text_eq
is_binary-trailer_prefix k h = rw (text_eq_of_ne k (codes "bin") h)

abbrev pub AllTrailers : Multi → Type 0
AllTrailers = All (λ e. IsTrailer e.0 e.1)

pub AllTrailers-travel : (md : Multi) → AllTrailers md → AllTravel server_prefix md
AllTrailers-travel [] t = tt
AllTrailers-travel ((k, vs) ∷ md) (t, ts) = (
  record {
    named = rw is_name-server_prefix t.metadata.named;
    same_kind =
        rw (lower-server_prefix, t.metadata.in_lower_case) (is_binary-trailer_prefix k t.not_bin);
    bytes = t.metadata.bytes;
  },
  AllTrailers-travel md ts,
)

-- No header metadata under a key that the client would take for a trailer's.
abbrev pub NoTrailerNames : Multi → Type 0
NoTrailerNames = All (λ e. names_trailer trailer_prefix e.0 ≡ false)

pub Lacks-of_NoTrailerNames :
    (n : Text) (hdr : Multi)
    → n ≢ []
    → AllMetadata hdr
    → NoTrailerNames hdr
    → Lacks (trailer_prefix ++ n) hdr
Lacks-of_NoTrailerNames n [] some_name m h = tt
Lacks-of_NoTrailerNames n ((k, vs) ∷ hdr) some_name (m, ms) (h, hs) = (
  λ e. false≢true (sym h ∙ names_trailer_of_eq trailer_prefix k n m.in_lower_case some_name e),
  Lacks-of_NoTrailerNames n hdr some_name ms hs,
)

text_eq-trailer_prefix :
    (k n : Text) → text_eq (lower (server_prefix ++ k)) (trailer_prefix ++ n) ≡ text_eq (lower k) n
unfolding text_eq lower lower_byte
text_eq-trailer_prefix k n = refl

sent-server_prefix-Lacks :
    (n : Text) (tlr : Multi)
    → AllTrailers tlr
    → Lacks n tlr
    → sent server_prefix (trailer_prefix ++ n) tlr ≡ []
unfolding sent
sent-server_prefix-Lacks n [] t l = refl
sent-server_prefix-Lacks n ((k, vs) ∷ tlr) (t, ts) l = ground (
  arith,
  text_eq-trailer_prefix k n,
  text_eq_iff (lower k) n,
  t.metadata.in_lower_case,
  sent-server_prefix-Lacks n tlr ts l.1,
)

-- Under the key of a trailer the trailer's values are sent.
pub sent_trailer :
    (n : Text) (tlr : Multi)
    → IsMap tlr
    → AllTrailers tlr
    → sent server_prefix (trailer_prefix ++ n) tlr ≡ (if is_reserved n then [] else values n tlr)
unfolding sent values
sent_trailer n [] d t = ground arith
sent_trailer n ((k, vs) ∷ tlr) d (t, ts) = ground (
  arith,
  text_eq-trailer_prefix k n,
  text_eq_iff (lower k) n,
  text_eq_iff k n,
  t.metadata.in_lower_case,
  sent-server_prefix-Lacks n tlr ts,
  sent_trailer n tlr d.1 ts,
  append-nil vs,
)

names_trailer-trailer_prefix :
    (k : Text) → lower k ≡ k → k ≢ [] → names_trailer trailer_prefix (trailer_prefix ++ k) ≡ true
names_trailer-trailer_prefix k low some_name =
    names_trailer_of_eq trailer_prefix (trailer_prefix ++ k) k
      (lower-trailer_prefix k ∙ ap (λ x. trailer_prefix ++ x) low) some_name refl

-- Under no other key is a trailer sent.
pub sent_no_trailer :
    (j : Text) (tlr : Multi)
    → AllTrailers tlr
    → names_trailer trailer_prefix j ≡ false
    → sent server_prefix j tlr ≡ []
unfolding sent
sent_no_trailer j [] t h = refl
sent_no_trailer j ((k, vs) ∷ tlr) (t, ts) h = ground (
  arith,
  text_eq_iff (lower (server_prefix ++ k)) j,
  lower-server_prefix k,
  t.metadata.in_lower_case,
  names_trailer-trailer_prefix k t.metadata.in_lower_case t.some_name,
  sent_no_trailer j tlr ts h,
)
