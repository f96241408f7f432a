-- ===== src/Metadata/RoundTrip.antt =====
-- Metadata that travel as headers come back as they were.
use notnets_grpc.Prelude.{
  ◌≡◌, refl, ◌∙◌, true, List, [], ◌∷◌, ◌++◌, ok, arith, All, Bool-cases, inl, inr, All-append,
  append-nil, if◌then◌else◌,
}
use notnets_grpc.Text.{Text, text_eq, text_eq_iff, lower}
use notnets_grpc.Base64.RoundTrip.{IsByte, decode-encode}
use notnets_grpc.Dict.{Multi, append_at, values}
use notnets_grpc.Dict.Laws.{Lacks, IsMap}
use notnets_grpc.Header.{is_name, canonical, add}
use notnets_grpc.Header.Canonical.{lower-canonical}
use notnets_grpc.Metadata.{
  is_reserved, is_binary, encode_value, add_values, to_headers, decode_value, as_metadata,
}
use notnets_grpc.Metadata.Gather.{
  Decodes, IsDecodable, gather, values-as_metadata, as_metadata_total,
}
use notnets_grpc.Metadata.Travel.{AllTravel, sent, gather-to_headers}

pub append_at-IsDecodable :
    (k v : Text) (h : Multi)
    → Decodes (lower k) v
    → IsDecodable h
    → IsDecodable (append_at k (v ∷ []) h)
unfolding append_at
append_at-IsDecodable k v [] d ds = ((d, tt), tt)
append_at-IsDecodable k v ((j, ws) ∷ h) d ds = elim (Bool-cases (text_eq j k)) [
  | inl e ↦
      rw e
        (All-append (Decodes (lower j)) ws (v ∷ []) ds.0 (rw ((text_eq_iff j k).0 e) d, tt), ds.1)
  | inr e ↦ rw e (ds.0, append_at-IsDecodable k v h d ds.1)
]

-- A value that was encoded as its key asks decodes.
decode_value-encode_value : (k v : Text) → All IsByte v → Decodes k (encode_value (is_binary k) v)
unfolding encode_value decode_value
decode_value-encode_value k v b = (v, ground (arith, decode-encode v b))

add_values-IsDecodable :
    (k : Text) (vs : List Text) (h : Multi)
    → All (All IsByte) vs
    → IsDecodable h
    → IsDecodable (add_values k (is_binary (lower k)) vs h)
unfolding add_values add
add_values-IsDecodable k [] h b d = d
add_values-IsDecodable k (v ∷ vs) h (b, bs) d = add_values-IsDecodable k vs _ bs (
    append_at-IsDecodable (canonical k) _ h
      (rw lower-canonical (decode_value-encode_value (lower k) v b)) d)

pub to_headers-IsDecodable :
    (prefix : Text) (md h : Multi)
    → AllTravel prefix md
    → IsDecodable h
    → IsDecodable (to_headers md h prefix)
unfolding to_headers
to_headers-IsDecodable prefix [] h t d = d
to_headers-IsDecodable prefix ((k, vs) ∷ md) h (t, ts) d =
    elim (Bool-cases (is_reserved (lower k))) [
      | inl r ↦ rw r (to_headers-IsDecodable prefix md h ts d)
      | inr r ↦
          rw (r, ← t.same_kind)
            (to_headers-IsDecodable prefix md _ ts
              (add_values-IsDecodable (prefix ++ k) vs h t.bytes d))
    ]

-- What gRPC asks of metadata: keys in lower case made of token bytes, values made of bytes.
pub record IsMetadata (k : Text) (vs : List Text) : Type 0 where
  pub in_lower_case : lower k ≡ k
  pub named : is_name k ≡ true
  pub bytes : All (All IsByte) vs

abbrev pub AllMetadata : Multi → Type 0
AllMetadata = All (λ e. IsMetadata e.0 e.1)

pub AllMetadata-travel : (md : Multi) → AllMetadata md → AllTravel [] md
AllMetadata-travel [] m = tt
AllMetadata-travel ((k, vs) ∷ md) (m, ms) =
    (record { named = m.named; same_kind = refl; bytes = m.bytes }, AllMetadata-travel md ms)

sent-Lacks : (j : Text) (md : Multi) → AllMetadata md → Lacks j md → sent [] j md ≡ []
unfolding sent
sent-Lacks j [] m l = refl
sent-Lacks j ((k, vs) ∷ md) (m, ms) l =
    ground (arith, sent-Lacks j md ms, text_eq_iff (lower k) j, m.in_lower_case)

pub sent_plain :
    (j : Text) (md : Multi)
    → IsMap md
    → AllMetadata md
    → sent [] j md ≡ (if is_reserved j then [] else values j md)
unfolding sent values
sent_plain j [] d m = ground arith
sent_plain j ((k, vs) ∷ md) d (m, ms) = ground (
  arith,
  sent_plain j md d.1 ms,
  sent-Lacks j md ms,
  text_eq_iff (lower k) j,
  text_eq_iff k j,
  m.in_lower_case,
  append-nil vs,
)

-- Metadata that toHeaders writes into empty headers are decoded by asMetadata without an error, and
-- come back with the values that they had, except those under reserved names, which do not travel.
pub as_metadata-to_headers :
    (md : Multi)
    → IsMap md
    → AllMetadata md
    → (md' : Multi) × (as_metadata (to_headers md [] []) ≡ ok md')
      × ((j : Text) → values j md' ≡ (if is_reserved j then [] else values j md))
as_metadata-to_headers md d m =
    let t = AllMetadata-travel md m in
    let (md', e) = as_metadata_total _ (to_headers-IsDecodable [] md [] t tt) in
    (
      md',
      e,
      λ j.
          values-as_metadata _ md' e j
          ∙ gather-to_headers [] j md [] t tt
          ∙ (unfold gather in sent_plain j md d m),
    )
