-- ===== src/Http/Carrying.antt =====
-- Metadata that toHeaders puts into headers can be written.
use notnets_grpc.Prelude.{
  ℕ, ◌+◌, ◌/◌, ◌%◌, ◌*◌, ◌≡◌, refl, sym, ap, ◌∙◌, Bool, true, false, List, [], ◌∷◌, ◌++◌, arith,
  Bool-cases, inl, inr, All, All-append,
}
use notnets_grpc.Text.{Text, text_eq, lower}
use notnets_grpc.Base64.{encode, digit}
use notnets_grpc.Dict.{Multi, insert, append_at}
use notnets_grpc.Dict.Laws.{insert-IsMap, append_at-IsMap}
use notnets_grpc.Header.{is_name, canonical, add, set}
use notnets_grpc.Header.Canonical.{is_name-lower, lower-canonical, canonical-lower}
use notnets_grpc.Metadata.{is_reserved, is_binary, encode_value, add_values, to_headers}
use notnets_grpc.Http.Spaces.{IsValue, IsSolid, solid-IsValue}
use notnets_grpc.Http.Fields.{is_field_name}
use notnets_grpc.Http.Fields.Sorting.{AllEntries}
use notnets_grpc.Http.Fields.Written.{IsWritable}

-- A key whose values can be written: with the prefix it is a header's name, and if it is not
-- binary, its values are written as they are.
pub record IsCarried (prefix k : Text) (vs : List Text) : Type 0 where
  pub named : is_field_name (prefix ++ k) ≡ true
  pub plain : is_binary (lower k) ≡ false → All IsValue vs

abbrev pub AllCarried : Text → Multi → Type 0
AllCarried prefix = All (λ e. IsCarried prefix e.0 e.1)

is_name-canonical : (k : Text) → is_name (canonical k) ≡ is_name k
is_name-canonical k =
    sym (is_name-lower (canonical k)) ∙ ap is_name (lower-canonical k) ∙ is_name-lower k

field_name_of_spelling :
    (t : Text) (c : ℕ) (k : Text)
    → lower t ≡ lower (c ∷ k)
    → is_name t ≡ true
    → is_field_name t ≡ true
unfolding lower
field_name_of_spelling [] c k e h = cc
field_name_of_spelling (d ∷ t) c k e h = h

field_name-canonical : (k : Text) → is_field_name k ≡ true → is_field_name (canonical k) ≡ true
field_name-canonical [] h = ground (arith, h)
field_name-canonical (c ∷ k) h =
    field_name_of_spelling (canonical (c ∷ k)) c k (lower-canonical (c ∷ k))
      (is_name-canonical (c ∷ k) ∙ h)

canonical_idem : (k : Text) → is_field_name k ≡ true → canonical (canonical k) ≡ canonical k
canonical_idem [] h = ground (arith, h)
canonical_idem (c ∷ k) h =
    sym (canonical-lower (canonical (c ∷ k)) (is_name-canonical (c ∷ k) ∙ h))
    ∙ ap canonical (lower-canonical (c ∷ k))
    ∙ canonical-lower (c ∷ k) h

module _ (k v : Text) (value : IsValue v) (named : is_field_name k ≡ true)
    (canon : canonical k ≡ k) where
  append_at-AllEntries : (h : Multi) → AllEntries h → AllEntries (append_at k (v ∷ []) h)
  unfolding append_at
  append_at-AllEntries [] a = (record { named = named; canon = canon; values = (value, tt) }, tt)
  append_at-AllEntries ((j, ws) ∷ h) (a, rest) = elim (Bool-cases (text_eq j k)) [
    | inl e ↦ rw e (
      record {
        named = a.named;
        canon = a.canon;
        values = All-append IsValue ws (v ∷ []) a.values (value, tt);
      },
      rest,
    )
    | inr e ↦ rw e (a, append_at-AllEntries h rest)
  ]

  insert-AllEntries : (h : Multi) → AllEntries h → AllEntries (insert k (v ∷ []) h)
  unfolding insert
  insert-AllEntries [] a = (record { named = named; canon = canon; values = (value, tt) }, tt)
  insert-AllEntries ((j, ws) ∷ h) (a, rest) = elim (Bool-cases (text_eq j k)) [
    | inl e ↦ rw e (record { named = a.named; canon = a.canon; values = (value, tt) }, rest)
    | inr e ↦ rw e (a, insert-AllEntries h rest)
  ]

module _ (k v : Text) (h : Multi) (value : IsValue v) (named : is_field_name k ≡ true)
    (w : IsWritable h) where
  pub add-IsWritable : IsWritable (add k v h)
  unfolding add
  add-IsWritable = record {
    map = append_at-IsMap (canonical k) (v ∷ []) h w.map;
    entries =
        append_at-AllEntries (canonical k) v value (field_name-canonical k named)
          (canonical_idem k named) h w.entries;
  }

  pub set-IsWritable : IsWritable (set k v h)
  unfolding set
  set-IsWritable = record {
    map = insert-IsMap (canonical k) (v ∷ []) h w.map;
    entries =
        insert-AllEntries (canonical k) v value (field_name-canonical k named)
          (canonical_idem k named) h w.entries;
  }

digit-IsSolid : (n : ℕ) → IsSolid (digit n)
digit-IsSolid n = (unfold digit in ground arith, unfold digit in ground arith)

encode-IsSolid : (s : Text) → All IsSolid (encode s)
unfolding encode
encode-IsSolid [] = tt
encode-IsSolid (a ∷ []) =
    (digit-IsSolid (a / 4), (digit-IsSolid (a % 4 * 16), ((refl, refl), ((refl, refl), tt))))
encode-IsSolid (a ∷ b ∷ []) = (
  digit-IsSolid (a / 4),
  (digit-IsSolid (a % 4 * 16 + b / 16), (digit-IsSolid (b % 16 * 4), ((refl, refl), tt))),
)
encode-IsSolid (a ∷ b ∷ c ∷ s) = (
  digit-IsSolid (a / 4),
  (
    digit-IsSolid (a % 4 * 16 + b / 16),
    (digit-IsSolid (b % 16 * 4 + c / 64), (digit-IsSolid (c % 64), encode-IsSolid s)),
  ),
)

encode_value-IsValue :
    (binary : Bool) (v : Text) → (binary ≡ false → IsValue v) → IsValue (encode_value binary v)
unfolding encode_value
encode_value-IsValue true v h = solid-IsValue (encode v) (encode-IsSolid v)
encode_value-IsValue false v h = h refl

add_values-IsWritable :
    (k : Text) (binary : Bool) (vs : List Text) (h : Multi)
    → is_field_name k ≡ true
    → (binary ≡ false → All IsValue vs)
    → IsWritable h
    → IsWritable (add_values k binary vs h)
unfolding add_values
add_values-IsWritable k binary [] h named plain w = w
add_values-IsWritable k binary (v ∷ vs) h named plain w =
    add_values-IsWritable k binary vs _ named (λ e. (plain e).1)
      (add-IsWritable k (encode_value binary v) h (encode_value-IsValue binary v (λ e. (plain e).0))
        named w)

pub to_headers-IsWritable :
    (prefix : Text) (md h : Multi)
    → AllCarried prefix md
    → IsWritable h
    → IsWritable (to_headers md h prefix)
unfolding to_headers
to_headers-IsWritable prefix [] h a w = w
to_headers-IsWritable prefix ((k, vs) ∷ md) h (a, rest) w =
    elim (Bool-cases (is_reserved (lower k))) [
      | inl r ↦ rw r (to_headers-IsWritable prefix md h rest w)
      | inr r ↦ rw r (
          to_headers-IsWritable prefix md _ rest
            (add_values-IsWritable (prefix ++ k) (is_binary (lower k)) vs h a.named a.plain w))
    ]
