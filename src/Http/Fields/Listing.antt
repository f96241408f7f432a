-- ===== src/Http/Fields/Listing.antt =====
-- The header that some fields make, as the code that reads metadata from it sees it.
use notnets_grpc.Prelude.{
  ◌≡◌, refl, sym, ◌∙◌, true, false, List, [], ◌∷◌, ◌++◌, map, arith, append_assoc, append-nil,
}
use notnets_grpc.Text.{Text, text_eq_iff, lower}
use notnets_grpc.Dict.{Multi, values, append_at}
use notnets_grpc.Dict.Laws.{values-append_at}
use notnets_grpc.Header.{is_name, canonical}
use notnets_grpc.Header.Canonical.{lower-canonical, canonical-lower}
use notnets_grpc.Metadata.Gather.{meaning, gather, IsDecodable}
use notnets_grpc.Metadata.Travel.{IsHeader, gather-LacksName, append_at-IsHeader}
use notnets_grpc.Metadata.RoundTrip.{append_at-IsDecodable}
use notnets_grpc.Http.Fields.{Field, is_field_name, is_excluded}
use notnets_grpc.Http.Fields.Reading.{IsField, AllFields, add_fields}
use notnets_grpc.Http.Fields.Sorting.{field_values}
use notnets_grpc.Http.Fields.Written.{DecodableFields}

pub values-add_fields :
    (j : Text) (fs : List Field) (m : Multi)
    → values j (add_fields fs m) ≡ values j m ++ field_values j fs
unfolding add_fields field_values
values-add_fields j [] m = sym (append-nil (values j m))
values-add_fields j ((k, v) ∷ fs) m = ground (
  arith,
  values-add_fields j fs (append_at k (v ∷ []) m),
  values-append_at k j (v ∷ []) m,
  append_assoc (values j m) (v ∷ []) (field_values j fs),
)

field_name-is_name : (k : Text) → is_field_name k ≡ true → is_name k ≡ true
field_name-is_name [] h = ground (arith, h)
field_name-is_name (c ∷ k) h = h

field-canonical : (f : Field) → IsField f → canonical (lower f.0) ≡ f.0
field-canonical f h = canonical-lower f.0 (field_name-is_name f.0 h.named) ∙ h.canon

pub add_fields-IsHeader :
    (fs : List Field) (m : Multi) → AllFields fs → IsHeader m → IsHeader (add_fields fs m)
unfolding add_fields
add_fields-IsHeader [] m a h = h
add_fields-IsHeader ((k, v) ∷ fs) m (a, rest) h =
    add_fields-IsHeader fs _ rest (append_at-IsHeader k (field-canonical (k, v) a) (v ∷ []) m h)

-- A header is gathered under the canonical spelling of a name alone.
pub gather-values :
    (j : Text) (h : Multi)
    → IsHeader h
    → lower j ≡ j
    → gather j h ≡ map (meaning j) (values (canonical j) h)
unfolding gather values
gather-values j [] hh low = refl
gather-values j ((k, vs) ∷ h) (canon, lacks, hh) low = ground (
  arith,
  gather-values j h hh low,
  text_eq_iff (lower k) j,
  text_eq_iff k (canonical j),
  lower-canonical j,
  gather-LacksName j h,
  append-nil (map (meaning j) vs),
)

pub add_fields-IsDecodable :
    (fs : List Field) (m : Multi)
    → DecodableFields fs
    → IsDecodable m
    → IsDecodable (add_fields fs m)
unfolding add_fields
add_fields-IsDecodable [] m a h = h
add_fields-IsDecodable ((k, v) ∷ fs) m (a, rest) h =
    add_fields-IsDecodable fs _ rest (append_at-IsDecodable k v m a h)

-- A name in lower case that is none of some names is none of them in canonical form either.
pub excluded-canonical :
    (es : List Text) (j : Text)
    → lower j ≡ j
    → is_excluded (map lower es) j ≡ false
    → is_excluded es (canonical j) ≡ false
unfolding is_excluded
excluded-canonical [] j low h = refl
excluded-canonical (e ∷ es) j low h = ground (
  arith,
  excluded-canonical es j low,
  text_eq_iff e (canonical j),
  text_eq_iff (lower e) j,
  lower-canonical j,
  low,
)
