-- ===== src/Http/Fields/Written.antt =====
-- The fields that are written of a header keep what holds of its entries.
use notnets_grpc.Prelude.{◌||◌, not, List, [], ◌∷◌, map, Bool-cases, inl, inr, All, All-append}
use notnets_grpc.Text.{Text, lower}
use notnets_grpc.Dict.{Multi}
use notnets_grpc.Dict.Laws.{IsMap}
use notnets_grpc.Metadata.Gather.{Decodes, IsDecodable}
use notnets_grpc.Http.Spaces.{clean_value, clean_value-IsValue, IsValue}
use notnets_grpc.Http.Fields.{
  Field, text_leb, insert_sorted, sorted, is_excluded, is_field_name, fields_in_order, fields_of,
}
use notnets_grpc.Http.Fields.Reading.{IsField, AllFields}
use notnets_grpc.Http.Fields.Sorting.{IsEntry, AllEntries}

-- A header that can be written: a map, with names in canonical form and values that stay as they are.
pub record IsWritable (header : Multi) : Type 0 where
  pub map : IsMap header
  pub entries : AllEntries header

entry-AllFields :
    (k : Text) (vs : List Text) → IsEntry (k, vs) → AllFields (map (λ v. (k, clean_value v)) vs)
entry-AllFields k [] e = tt
entry-AllFields k (v ∷ vs) e = (
  record {
    named = e.named;
    canon = e.canon;
    value = rw (clean_value-IsValue v e.values.0) e.values.0;
  },
  entry-AllFields k vs (record { named = e.named; canon = e.canon; values = e.values.1 }),
)

fields_in_order-AllFields :
    (excluded : List Text) (h : Multi) → AllEntries h → AllFields (fields_in_order excluded h)
unfolding fields_in_order
fields_in_order-AllFields excluded [] a = tt
fields_in_order-AllFields excluded ((k, vs) ∷ h) (a, rest) =
    let next = fields_in_order-AllFields excluded h rest in
    elim (Bool-cases (is_excluded excluded k || not (is_field_name k))) [
      | inl e ↦ rw e next
      | inr e ↦ rw e (All-append IsField _ _ (entry-AllFields k vs a) next)
    ]

module _ {ℓ} (P : Text × List Text → Type ℓ) where
  insert_sorted-All :
      (k : Text) (vs : List Text) (h : Multi) → P (k, vs) → All P h → All P (insert_sorted k vs h)
  unfolding insert_sorted
  insert_sorted-All k vs [] e a = (e, tt)
  insert_sorted-All k vs ((i, ws) ∷ h) e (a, rest) = elim (Bool-cases (text_leb k i)) [
    | inl c ↦ rw c (e, (a, rest))
    | inr c ↦ rw c (a, insert_sorted-All k vs h e rest)
  ]

  sorted-All : (h : Multi) → All P h → All P (sorted h)
  unfolding sorted
  sorted-All [] a = tt
  sorted-All ((k, vs) ∷ h) (a, rest) = insert_sorted-All k vs (sorted h) a (sorted-All h rest)

pub fields_of-AllFields :
    (excluded : List Text) (h : Multi) → AllEntries h → AllFields (fields_of excluded h)
unfolding fields_of
fields_of-AllFields excluded h a =
    fields_in_order-AllFields excluded (sorted h) (sorted-All IsEntry h a)

abbrev pub DecodableFields : List Field → Type 0
DecodableFields = All (λ f. Decodes (lower f.0) f.1)

entry-DecodableFields :
    (k : Text) (vs : List Text)
    → All IsValue vs
    → All (Decodes (lower k)) vs
    → DecodableFields (map (λ v. (k, clean_value v)) vs)
entry-DecodableFields k [] e d = tt
entry-DecodableFields k (v ∷ vs) (e, es) (d, ds) =
    (rw (clean_value-IsValue v e) d, entry-DecodableFields k vs es ds)

fields_in_order-DecodableFields :
    (excluded : List Text) (h : Multi)
    → AllEntries h
    → IsDecodable h
    → DecodableFields (fields_in_order excluded h)
unfolding fields_in_order
fields_in_order-DecodableFields excluded [] a d = tt
fields_in_order-DecodableFields excluded ((k, vs) ∷ h) (a, rest) (d, ds) =
    let next = fields_in_order-DecodableFields excluded h rest ds in
    elim (Bool-cases (is_excluded excluded k || not (is_field_name k))) [
      | inl e ↦ rw e next
      | inr e ↦ rw e (
          All-append (λ f. Decodes (lower f.0) f.1) _ _ (entry-DecodableFields k vs a.values d)
            next)
    ]

-- Values that decode are written as fields whose values do.
pub fields_of-DecodableFields :
    (excluded : List Text) (h : Multi)
    → AllEntries h
    → IsDecodable h
    → DecodableFields (fields_of excluded h)
unfolding fields_of
fields_of-DecodableFields excluded h a d =
    fields_in_order-DecodableFields excluded (sorted h) (sorted-All IsEntry h a)
      (sorted-All (λ e. All (Decodes (lower e.0)) e.1) h d)
