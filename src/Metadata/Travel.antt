-- ===== src/Metadata/Travel.antt =====
-- What asMetadata finds of the metadata that toHeaders has put into headers.
use notnets_grpc.Prelude.{
  ◌≡◌, ◌≢◌, refl, sym, ap, ◌∙◌, Bool, true, List, [], ◌∷◌, ◌++◌, map, arith, All, Bool-cases, inl,
  inr, append-nil, append_assoc, map-append, if◌then◌else◌,
}
use notnets_grpc.Text.{Text, text_eq, text_eq_iff, lower}
use notnets_grpc.Base64.RoundTrip.{IsByte, decode-encode}
use notnets_grpc.Dict.{Multi, append_at}
use notnets_grpc.Header.{is_name, canonical, add}
use notnets_grpc.Header.Canonical.{lower-canonical, canonical-lower}
use notnets_grpc.Metadata.{
  is_reserved, is_binary, encode_value, add_values, to_headers, decode_value,
}
use notnets_grpc.Metadata.Gather.{meaning, gather}

-- No header spells the name `j`.
abbrev pub LacksName : Text → Multi → Type 0
LacksName j [] = Unit
LacksName j ((k, _) ∷ h) = (lower k ≢ j) × LacksName j h

-- Names are in canonical form, and none is there twice.
abbrev pub IsHeader : Multi → Type 0
IsHeader [] = Unit
IsHeader ((k, _) ∷ h) = (canonical (lower k) ≡ k) × LacksName (lower k) h × IsHeader h

pub gather-LacksName : (j : Text) (h : Multi) → LacksName j h → gather j h ≡ []
unfolding gather
gather-LacksName j [] l = refl
gather-LacksName j ((k, vs) ∷ h) l = ground (arith, text_eq_iff (lower k) j, gather-LacksName j h)

append_at-LacksName :
    (i k : Text) (vs : List Text) (h : Multi)
    → lower k ≢ i
    → LacksName i h
    → LacksName i (append_at k vs h)
unfolding append_at
append_at-LacksName i k vs [] n l = (n, tt)
append_at-LacksName i k vs ((j, ws) ∷ h) n l = ground (arith, append_at-LacksName i k vs h)

module _ (k : Text) (canon : canonical (lower k) ≡ k) where
  pub spelling : (j : Text) → canonical (lower j) ≡ j → lower j ≡ lower k → j ≡ k
  spelling j e p = sym e ∙ ap canonical p ∙ canon

  pub append_at-IsHeader : (vs : List Text) (h : Multi) → IsHeader h → IsHeader (append_at k vs h)
  unfolding append_at
  append_at-IsHeader vs [] v = (canon, tt, tt)
  append_at-IsHeader vs ((j, ws) ∷ h) v = ground (
    arith,
    text_eq_iff j k,
    spelling j v.0,
    append_at-IsHeader vs h,
    append_at-LacksName (lower j) k vs h,
  )

  gather-append_at :
      (j v : Text) (h : Multi)
      → IsHeader h
      → gather j (append_at k (v ∷ []) h)
        ≡ gather j h ++ (if text_eq (lower k) j then meaning j v ∷ [] else [])
  unfolding append_at gather
  gather-append_at j v [] c = ground (arith, text_eq_iff (lower k) j)
  gather-append_at j v ((i, ws) ∷ h) c = ground (
    arith,
    text_eq_iff i k,
    text_eq_iff (lower i) j,
    text_eq_iff (lower k) j,
    spelling i c.0,
    map-append (meaning j) ws (v ∷ []),
    gather-LacksName j h,
    gather-append_at j v h,
    append_assoc (map (meaning j) ws) (gather j h) (meaning j v ∷ []),
    append-nil (map (meaning j) ws),
    append-nil (gather j h),
    append-nil (map (meaning j) ws ++ gather j h),
    append-nil (map (meaning j) ws ++ meaning j v ∷ []),
  )

module _ (k : Text) (named : is_name k ≡ true) where
  pub canonical-IsCanonical : canonical (lower (canonical k)) ≡ canonical k
  canonical-IsCanonical = rw lower-canonical (canonical-lower k named)

  add-IsHeader : (v : Text) (h : Multi) → IsHeader h → IsHeader (add k v h)
  unfolding add
  add-IsHeader v h c = append_at-IsHeader (canonical k) canonical-IsCanonical (v ∷ []) h c

  gather-add :
      (j v : Text) (h : Multi)
      → IsHeader h
      → gather j (add k v h) ≡ gather j h ++ (if text_eq (lower k) j then meaning j v ∷ [] else [])
  unfolding add
  gather-add j v h c =
      rw (gather-append_at (canonical k) canonical-IsCanonical j v h c, lower-canonical k)

  add_values-IsHeader :
      (binary : Bool) (vs : List Text) (h : Multi)
      → IsHeader h
      → IsHeader (add_values k binary vs h)
  unfolding add_values
  add_values-IsHeader binary [] h c = c
  add_values-IsHeader binary (v ∷ vs) h c =
      add_values-IsHeader binary vs _ (add-IsHeader (encode_value binary v) h c)

  meaning-encode_value :
      (v : Text) → All IsByte v → meaning (lower k) (encode_value (is_binary (lower k)) v) ≡ v
  unfolding meaning encode_value decode_value
  meaning-encode_value v b = ground (arith, decode-encode v b)

  gather-add_values :
      (j : Text) (vs : List Text) (h : Multi)
      → IsHeader h
      → All (All IsByte) vs
      → gather j (add_values k (is_binary (lower k)) vs h)
        ≡ gather j h ++ (if text_eq (lower k) j then vs else [])
  unfolding add_values
  gather-add_values j [] h c b = ground (arith, append-nil (gather j h))
  gather-add_values j (v ∷ vs) h c (b, bs) = ground (
    arith,
    gather-add j (encode_value (is_binary (lower k)) v) h c,
    gather-add_values j vs (add k (encode_value (is_binary (lower k)) v) h)
        (add-IsHeader (encode_value (is_binary (lower k)) v) h c) bs,
    meaning-encode_value v b,
    text_eq_iff (lower k) j,
    append-nil (gather j h),
    append_assoc (gather j h) (v ∷ []) vs,
  )

-- What a key must be for its values to travel: with the prefix a header name, binary with the
-- prefix just when it is without, its values strings of bytes.
pub record Travels (prefix k : Text) (vs : List Text) : Type 0 where
  pub named : is_name (prefix ++ k) ≡ true
  pub same_kind : is_binary (lower (prefix ++ k)) ≡ is_binary (lower k)
  pub bytes : All (All IsByte) vs

abbrev pub AllTravel : Text → Multi → Type 0
AllTravel prefix = All (λ e. Travels prefix e.0 e.1)

-- The values of `md` whose header spells `j`.
unfoldable pub sent : Text → Text → Multi → List Text
sent prefix j [] = []
sent prefix j ((k, vs) ∷ md) =
    if is_reserved (lower k)
    then sent prefix j md
    else if text_eq (lower (prefix ++ k)) j
    then vs ++ sent prefix j md
    else sent prefix j md

pub to_headers-IsHeader :
    (prefix : Text) (md h : Multi)
    → AllTravel prefix md
    → IsHeader h
    → IsHeader (to_headers md h prefix)
unfolding to_headers
to_headers-IsHeader prefix [] h t c = c
to_headers-IsHeader prefix ((k, vs) ∷ md) h (t, ts) c = elim (Bool-cases (is_reserved (lower k))) [
  | inl r ↦ rw r (to_headers-IsHeader prefix md h ts c)
  | inr r ↦ rw r (
      to_headers-IsHeader prefix md _ ts
        (add_values-IsHeader (prefix ++ k) t.named (is_binary (lower k)) vs h c))
]

-- On top of what the headers held, asMetadata finds the metadata that toHeaders was given.
pub gather-to_headers :
    (prefix j : Text) (md h : Multi)
    → AllTravel prefix md
    → IsHeader h
    → gather j (to_headers md h prefix) ≡ gather j h ++ sent prefix j md
unfolding to_headers sent
gather-to_headers prefix j [] h t c = sym (append-nil _)
gather-to_headers prefix j ((k, vs) ∷ md) h (t, ts) c = elim (Bool-cases (is_reserved (lower k))) [
  | inl r ↦ rw r (gather-to_headers prefix j md h ts c)
  | inr r ↦
      rw (r, ← t.same_kind)
        (gather-to_headers prefix j md _ ts
            (add_values-IsHeader (prefix ++ k) t.named (is_binary (lower (prefix ++ k))) vs h c)
          ∙ ground (
            arith,
            gather-add_values (prefix ++ k) t.named j vs h c t.bytes,
            append_assoc (gather j h) vs (sent prefix j md),
            append-nil (gather j h),
          ))
]
