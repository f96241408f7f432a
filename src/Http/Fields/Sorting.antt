-- ===== src/Http/Fields/Sorting.antt =====
-- The fields that are written of a header, name by name: their order does not count.
use notnets_grpc.Prelude.{
  ◌≡◌, ◌≢◌, refl, ap, ◌∙◌, true, ◌||◌, not, List, [], ◌∷◌, ◌++◌, map, arith, Bool-cases, inl, inr,
  if◌then◌else◌, All, append-nil,
}
use notnets_grpc.Text.{Text, text_eq, text_eq_iff}
use notnets_grpc.Dict.{Multi, values}
use notnets_grpc.Dict.Laws.{Lacks, IsMap, values-Lacks}
use notnets_grpc.Header.{canonical}
use notnets_grpc.Http.Spaces.{clean_value, clean_value-IsValue, IsValue}
use notnets_grpc.Http.Fields.{
  Field, text_leb, insert_sorted, sorted, is_excluded, is_field_name, fields_in_order, fields_of,
}

-- The values of the fields with a name.
unfoldable pub field_values : Text → List Field → List Text
field_values j [] = []
field_values j ((k, v) ∷ fs) =
    let next = field_values j fs in if text_eq k j then v ∷ next else next

-- An entry of a header that is written and read as it is.
pub record IsEntry (e : Text × List Text) : Type 0 where
  pub named : is_field_name e.0 ≡ true
  pub canon : canonical e.0 ≡ e.0
  pub values : All IsValue e.1

abbrev pub AllEntries : Multi → Type 0
AllEntries = All IsEntry

pub field_values-append :
    (j : Text) (fs gs : List Field)
    → field_values j (fs ++ gs) ≡ field_values j fs ++ field_values j gs
unfolding field_values
field_values-append j [] gs = refl
field_values-append j ((k, v) ∷ fs) gs = ground (arith, field_values-append j fs gs)

field_values_entry :
    (j k : Text) (vs : List Text)
    → field_values j (map (λ v. (k, clean_value v)) vs)
      ≡ (if text_eq k j then map clean_value vs else [])
unfolding field_values
field_values_entry j k [] = ground arith
field_values_entry j k (v ∷ vs) = ground (arith, field_values_entry j k vs)

map-clean_value : (vs : List Text) → All IsValue vs → map clean_value vs ≡ vs
map-clean_value [] h = refl
map-clean_value (v ∷ vs) (h, hs) = rw (clean_value-IsValue v h, map-clean_value vs hs) refl

insert_sorted-Lacks :
    (i k : Text) (vs : List Text) (h : Multi) → k ≢ i → Lacks i h → Lacks i (insert_sorted k vs h)
unfolding insert_sorted
insert_sorted-Lacks i k vs [] other l = (other, tt)
insert_sorted-Lacks i k vs ((j, ws) ∷ h) other (l, ls) = elim (Bool-cases (text_leb k j)) [
  | inl c ↦ rw c (other, (l, ls))
  | inr c ↦ rw c (l, insert_sorted-Lacks i k vs h other ls)
]

sorted-Lacks : (i : Text) (h : Multi) → Lacks i h → Lacks i (sorted h)
unfolding sorted
sorted-Lacks i [] l = tt
sorted-Lacks i ((k, vs) ∷ h) (l, ls) = insert_sorted-Lacks i k vs (sorted h) l (sorted-Lacks i h ls)

module _ (excluded : List Text) (j : Text) where
  -- What an entry adds to the values of the name `j`.
  part : Text → List Text → List Text
  part k vs =
      if is_excluded excluded k || not (is_field_name k)
      then []
      else if text_eq k j
      then map clean_value vs
      else []

  field_values_cons :
      (k : Text) (vs : List Text) (h : Multi)
      → field_values j (fields_in_order excluded ((k, vs) ∷ h))
        ≡ part k vs ++ field_values j (fields_in_order excluded h)
  unfolding fields_in_order part
  field_values_cons k vs h = elim (Bool-cases (is_excluded excluded k || not (is_field_name k))) [
    | inl e ↦ rw e refl
    | inr e ↦ rw e (
        field_values-append j (map (λ v. (k, clean_value v)) vs) (fields_in_order excluded h)
        ∙ ap (λ r. r ++ field_values j (fields_in_order excluded h)) (field_values_entry j k vs))
  ]

  part_swap :
      (k i : Text) (vs ws rest : List Text)
      → i ≢ k
      → part i ws ++ (part k vs ++ rest) ≡ part k vs ++ (part i ws ++ rest)
  unfolding part
  part_swap k i vs ws rest other = ground (arith, text_eq_iff i j, text_eq_iff k j)

  field_values-insert_sorted :
      (k : Text) (vs : List Text) (h : Multi)
      → Lacks k h
      → field_values j (fields_in_order excluded (insert_sorted k vs h))
        ≡ part k vs ++ field_values j (fields_in_order excluded h)
  unfolding insert_sorted
  field_values-insert_sorted k vs [] l = field_values_cons k vs []
  field_values-insert_sorted k vs ((i, ws) ∷ h) (other, others) = elim (Bool-cases (text_leb k i)) [
    | inl e ↦ rw e (field_values_cons k vs ((i, ws) ∷ h))
    | inr e ↦
        rw
          (
            e,
            field_values_cons i ws (insert_sorted k vs h),
            field_values-insert_sorted k vs h others,
            field_values_cons i ws h,
          )
          (part_swap k i vs ws _ other)
  ]

  field_values-sorted :
      (h : Multi)
      → IsMap h
      → field_values j (fields_in_order excluded (sorted h))
        ≡ field_values j (fields_in_order excluded h)
  unfolding sorted
  field_values-sorted [] m = refl
  field_values-sorted ((k, vs) ∷ h) (l, m) =
      field_values-insert_sorted k vs (sorted h) (sorted-Lacks k h l)
      ∙ rw (field_values-sorted h m, field_values_cons k vs h) refl

  field_values-fields_in_order :
      (h : Multi)
      → IsMap h
      → AllEntries h
      → field_values j (fields_in_order excluded h)
        ≡ (if is_excluded excluded j then [] else values j h)
  unfolding values part
  field_values-fields_in_order [] m a = unfold fields_in_order field_values in ground arith
  field_values-fields_in_order ((k, vs) ∷ h) (l, m) (a, rest) = ground (
    arith,
    field_values_cons k vs h,
    field_values-fields_in_order h m rest,
    a.named,
    text_eq_iff k j,
    map-clean_value vs a.values,
    values-Lacks j h,
    append-nil vs,
  )

  -- The values of a name that is not excluded are written as they are, in order.
  pub field_values-fields_of :
      (h : Multi)
      → IsMap h
      → AllEntries h
      → field_values j (fields_of excluded h) ≡ (if is_excluded excluded j then [] else values j h)
  unfolding fields_of
  field_values-fields_of h m a = field_values-sorted h m ∙ field_values-fields_in_order h m a
