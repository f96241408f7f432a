-- ===== src/Metadata/Split.antt =====
-- How setMetadata divides metadata into headers and trailers.
use notnets_grpc.Prelude.{
  ◌≡◌, ◌≢◌, refl, Bool, true, false, ◌&&◌, List, [], ◌∷◌, ◌++◌, ok, >>=-eq-ok, arith, length, drop,
  if◌then◌else◌,
}
use notnets_grpc.Text.{Text, text_eq, text_eq_iff, lower, has_prefix, lower-lower}
use notnets_grpc.Dict.{Multi, values, insert, delete, append_at}
use notnets_grpc.Dict.Laws.{Lacks, IsMap, values-insert, values-delete, append_at-IsMap}
use notnets_grpc.Contexts.{InLowerCase}
use notnets_grpc.Metadata.{
  collect, as_metadata_from, as_metadata, decode_value, is_binary, names_trailer, split_trailers,
}

-- _, ok := md[k]
pub has : Text → Multi → Bool
has k [] = false
has k ((j, _) ∷ md) = if text_eq j k then true else has k md

has-Lacks : (k : Text) (md : Multi) → Lacks k md → has k md ≡ false
unfolding has
has-Lacks k [] l = refl
has-Lacks k ((j, vs) ∷ md) l = ground (arith, text_eq_iff j k, has-Lacks k md)

pub values-has : (k : Text) (md : Multi) → has k md ≡ false → values k md ≡ []
unfolding has values
values-has k [] h = refl
values-has k ((j, vs) ∷ md) h = ground (arith, values-has k md)

append_at-InLowerCase :
    (k : Text) (vs : List Text) (md : Multi)
    → lower k ≡ k
    → InLowerCase md
    → InLowerCase (append_at k vs md)
unfolding append_at
append_at-InLowerCase k vs [] low c = (low, tt)
append_at-InLowerCase k vs ((j, ws) ∷ md) low c = ground (arith, append_at-InLowerCase k vs md low)

-- A map with its keys in lower case.
pub record IsLowerMap (md : Multi) : Type 0 where
  pub map : IsMap md
  pub low : InLowerCase md

collect-IsLowerMap :
    (k : Text) (vs : List Text) (md md' : Multi)
    → lower k ≡ k
    → IsLowerMap md
    → collect k vs md ≡ ok md'
    → IsLowerMap md'
unfolding collect
collect-IsLowerMap k [] md md' low m h = ground arith
collect-IsLowerMap k (v ∷ vs) md md' low m h =
    let (w, _, rest) = >>=-eq-ok (decode_value (is_binary k) v) _ h in
    collect-IsLowerMap k vs _ md' low
      (record {
        map = append_at-IsMap k (w ∷ []) md m.map;
        low = append_at-InLowerCase k (w ∷ []) md low m.low;
      })
      rest

as_metadata_from-IsLowerMap :
    (h md md' : Multi) → IsLowerMap md → as_metadata_from h md ≡ ok md' → IsLowerMap md'
unfolding as_metadata_from
as_metadata_from-IsLowerMap [] md md' m e = ground arith
as_metadata_from-IsLowerMap ((k, vs) ∷ h) md md' m e =
    let (mid, collected, rest) = >>=-eq-ok (collect (lower k) vs md) _ e in
    as_metadata_from-IsLowerMap h mid md'
      (collect-IsLowerMap (lower k) vs md mid (lower-lower k) m collected) rest

-- Whatever asMetadata returns is metadata: a map with no key twice, and all keys in lower case.
pub as_metadata-IsLowerMap : (h md : Multi) → as_metadata h ≡ ok md → IsLowerMap md
unfolding as_metadata
as_metadata-IsLowerMap h md e =
    as_metadata_from-IsLowerMap h [] md (record { map = tt; low = tt }) e

prefix-append-drop : (p s : Text) → has_prefix s p ≡ true → p ++ drop (length p) s ≡ s
unfolding has_prefix
prefix-append-drop [] s h = refl
prefix-append-drop (c ∷ p) [] h = cc
prefix-append-drop (c ∷ p) (d ∷ s) h = ground (arith, prefix-append-drop p s)

has_prefix-append : (p s : Text) → has_prefix (p ++ s) p ≡ true
unfolding has_prefix
has_prefix-append [] s = refl
has_prefix-append (c ∷ p) s = ground (arith, has_prefix-append p s)

drop-append : (p s : Text) → drop (length p) (p ++ s) ≡ s
drop-append [] s = refl
drop-append (c ∷ p) s = drop-append p s

module _ (p : Text) where
  pub names_trailer_of_eq :
      (k n : Text) → lower k ≡ k → n ≢ [] → k ≡ p ++ n → names_trailer p k ≡ true
  unfolding names_trailer
  names_trailer_of_eq k n low some_name e =
      rw (low, e, has_prefix-append p n, drop-append p n) (ground (arith, text_eq_iff n []))

  pub eq_of_names_trailer :
      (k : Text)
      → lower k ≡ k
      → names_trailer p k ≡ true
      → (p ++ drop (length p) k ≡ k) × (drop (length p) k ≢ [])
  unfolding names_trailer
  eq_of_names_trailer k low h =
      ground (arith, text_eq_iff (drop (length p) k) [], prefix-append-drop p k)

  -- The headers keep what names no trailer.
  pub values-split_trailers_headers :
      (j : Text) (rest hdr tlr : Multi)
      → values j (split_trailers p rest hdr tlr).0
        ≡ (if names_trailer p j && has j rest then [] else values j hdr)
  unfolding split_trailers has
  values-split_trailers_headers j [] hdr tlr = ground arith
  values-split_trailers_headers j ((k, vs) ∷ rest) hdr tlr = ground (
    arith,
    text_eq_iff k j,
    values-delete k j hdr,
    values-split_trailers_headers j rest (if names_trailer p k then delete k hdr else hdr)
        (if names_trailer p k then insert (drop (length p) k) vs tlr else tlr),
  )

  -- The trailers get the values of their keys.
  pub values-split_trailers_trailers :
      (n : Text) (rest hdr tlr : Multi)
      → n ≢ []
      → IsLowerMap rest
      → values n (split_trailers p rest hdr tlr).1
        ≡ (if has (p ++ n) rest then values (p ++ n) rest else values n tlr)
  unfolding split_trailers has values
  values-split_trailers_trailers n [] hdr tlr some_name m = refl
  values-split_trailers_trailers n ((k, vs) ∷ rest) hdr tlr some_name m = ground (
    arith,
    text_eq_iff k (p ++ n),
    text_eq_iff (drop (length p) k) n,
    names_trailer_of_eq k n m.low.0 some_name,
    eq_of_names_trailer k m.low.0,
    drop-append p n,
    has-Lacks (p ++ n) rest,
    m.map,
    values-insert (drop (length p) k) n vs tlr,
    values-split_trailers_trailers n rest (if names_trailer p k then delete k hdr else hdr)
        (if names_trailer p k then insert (drop (length p) k) vs tlr else tlr) some_name
        (record { map = m.map.1; low = m.low.1 }),
  )
