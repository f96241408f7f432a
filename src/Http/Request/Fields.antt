-- ===== src/Http/Request/Fields.antt =====
-- The fields of a request: how they are written, and the values that they carry.
use notnets_grpc.Prelude.{
  ◌≡◌, refl, sym, ap, subst, ◌∙◌, Bool-cases, inl, inr, false, List, [], ◌∷◌, ◌++◌, arith,
  if◌then◌else◌, All, All-append, length,
}
use notnets_grpc.Text.{Text, text_eq, lower}
use notnets_grpc.Text.Decimal.{print}
use notnets_grpc.Dict.{Multi, lookup, values}
use notnets_grpc.Header.{is_name, is_token, canonical}
use notnets_grpc.Metadata.{is_binary, decode_value}
use notnets_grpc.Metadata.Gather.{Decodes, IsDecodable}
use notnets_grpc.Http.Spaces.{
  trim_left, trim_right, trim, is_value_byte, IsValue, clean_value, clean_value-IsValue,
}
use notnets_grpc.Http.Fields.{Field, fields_of, is_excluded, all_bytes}
use notnets_grpc.Http.Fields.Reading.{IsField, AllFields, all_bytes-All}
use notnets_grpc.Http.Fields.Sorting.{
  field_values, field_values-append, AllEntries, field_values-fields_of,
}
use notnets_grpc.Http.Fields.Written.{
  fields_of-AllFields, IsWritable, DecodableFields, fields_of-DecodableFields,
}
use notnets_grpc.Http.Transfer.{content_length}
use notnets_grpc.Http.Transfer.Keeping.{length-IsField}
use notnets_grpc.Http.Request.{
  host, user_agent, default_user_agent, request_excluded, user_agent_field, first_or_empty,
  user_agent_of, user_agent_fields, request_fields,
}

user_agent-IsField : (t : Text) → IsValue t → IsField (user_agent, t)
unfolding is_name is_token canonical
user_agent-IsField t v = record { named = refl; canon = refl; value = v }

host-IsField : IsField (host, [])
unfolding is_name is_token canonical trim_left trim_right
host-IsField = record {
  named = refl;
  canon = refl;
  value = record { bytes = tt; left = refl; right = refl };
}

user_agent_field-AllFields : (t : Text) → IsValue t → AllFields (user_agent_field t)
user_agent_field-AllFields [] v = tt
user_agent_field-AllFields (c ∷ t) v = (user_agent-IsField (c ∷ t) v, tt)

user_agent_field-DecodableFields : (t : Text) → DecodableFields (user_agent_field t)
user_agent_field-DecodableFields [] = tt
user_agent_field-DecodableFields (c ∷ t) =
    ((c ∷ t, (unfold decode_value is_binary lower in refl)), tt)

field_values-user_agent_field :
    (j t : Text) → text_eq user_agent j ≡ false → field_values j (user_agent_field t) ≡ []
unfolding field_values
field_values-user_agent_field j [] h = refl
field_values-user_agent_field j (c ∷ t) h = rw h refl

first-IsValue : (vs : List Text) → All IsValue vs → IsValue (clean_value (first_or_empty vs))
unfolding clean_value trim trim_left trim_right
first-IsValue [] a = record { bytes = tt; left = refl; right = refl }
first-IsValue (v ∷ vs) (a, _) = subst IsValue (sym (clean_value-IsValue v a)) a

default-IsValue : IsValue default_user_agent
unfolding trim_left trim_right
default-IsValue = record {
  bytes = all_bytes-All is_value_byte default_user_agent (unfold all_bytes in refl);
  left = refl;
  right = refl;
}

user_agent_of-IsValue :
    (header : Multi) → AllEntries header → IsValue (user_agent_of (lookup user_agent header))
unfolding lookup
user_agent_of-IsValue [] a = default-IsValue
user_agent_of-IsValue ((k, vs) ∷ header) (a, rest) = elim (Bool-cases (text_eq k user_agent)) [
  | inl e ↦ rw e (first-IsValue vs a.values)
  | inr e ↦ rw e (user_agent_of-IsValue header rest)
]

module _ (header : Multi) (payload : Text) (w : IsWritable header) where
  pub request_fields-AllFields : AllFields (request_fields header payload)
  unfolding request_fields user_agent_fields
  request_fields-AllFields = (
    host-IsField,
    All-append IsField _ _ (user_agent_field-AllFields _ (user_agent_of-IsValue header w.entries))
        (length-IsField (length payload), fields_of-AllFields request_excluded header w.entries),
  )

  pub request_fields-DecodableFields :
      IsDecodable header → DecodableFields (request_fields header payload)
  unfolding request_fields user_agent_fields
  request_fields-DecodableFields d = (
    ([], (unfold decode_value is_binary lower in refl)),
    All-append {A = Field} (λ f. Decodes (lower f.0) f.1)
        (user_agent_field (user_agent_of (lookup user_agent header)))
        ((content_length, print (length payload)) ∷ fields_of request_excluded header)
        (user_agent_field-DecodableFields _)
        (
          (print (length payload), (unfold decode_value is_binary lower in refl)),
          fields_of-DecodableFields request_excluded header w.entries d,
        ),
  )

  -- The values of a name that is not one of the first two fields'.
  pub field_values-request_fields :
      (j : Text)
      → text_eq host j ≡ false
      → text_eq user_agent j ≡ false
      → field_values j (request_fields header payload)
        ≡ (if text_eq content_length j then print (length payload) ∷ [] else [])
          ++ (if is_excluded request_excluded j then [] else values j header)
  unfolding request_fields user_agent_fields field_values
  field_values-request_fields j not_host not_agent = rw not_host (
      field_values-append j (user_agent_fields header) _
      ∙ rw (field_values-user_agent_field j (user_agent_of (lookup user_agent header)) not_agent)
          (ground (arith, field_values-fields_of request_excluded j header w.map w.entries)))

  pub field_values-host : field_values host (request_fields header payload) ≡ [] ∷ []
  unfolding request_fields user_agent_fields field_values text_eq
  field_values-host =
      ap (λ vs. [] ∷ vs)
        (field_values-append host (user_agent_fields header) _
          ∙ rw (field_values-user_agent_field host (user_agent_of (lookup user_agent header)) refl)
              (field_values-fields_of request_excluded host header w.map w.entries
                ∙ (unfold is_excluded in refl)))
