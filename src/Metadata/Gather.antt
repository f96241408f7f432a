-- ===== src/Metadata/Gather.antt =====
-- What asMetadata makes of each key: a description without the map that the loops build.
use notnets_grpc.Prelude.{
  ◌≡◌, refl, ◌∙◌, List, [], ◌∷◌, ◌++◌, map, Result, ok, err, >>=-eq-ok, arith, All, append-nil,
  append_assoc, if◌then◌else◌,
}
use notnets_grpc.Text.{Text, text_eq, text_eq_iff, lower}
use notnets_grpc.Dict.{Multi, values, append_at}
use notnets_grpc.Dict.Laws.{values-append_at}
use notnets_grpc.Metadata.{is_binary, decode_value, collect, as_metadata_from, as_metadata}

-- The value that a header's value stands for.
or_nil : Result Text → Text
or_nil (ok v) = v
or_nil (err _) = []

unfoldable pub meaning : Text → Text → Text
unfolding or_nil
meaning j v = or_nil (decode_value (is_binary j) v)

-- All values of the headers whose name is `j` in lower case, in order.
unfoldable pub gather : Text → Multi → List Text
gather j [] = []
gather j ((k, vs) ∷ h) =
    if text_eq (lower k) j then map (meaning j) vs ++ gather j h else gather j h

decode_value-meaning : (k v w : Text) → decode_value (is_binary k) v ≡ ok w → meaning k v ≡ w
unfolding meaning or_nil
decode_value-meaning k v w h = rw h

values-collect :
    (k : Text) (vs : List Text) (md md' : Multi)
    → collect k vs md ≡ ok md'
    → (j : Text) → values j md' ≡ values j md ++ (if text_eq k j then map (meaning k) vs else [])
unfolding collect
values-collect k [] md md' h j = ground (arith, append-nil (values j md))
values-collect k (v ∷ vs) md md' h j =
    let (w, decoded, rest) = >>=-eq-ok (decode_value (is_binary k) v) _ h in
    ground (
      arith,
      values-collect k vs (append_at k (w ∷ []) md) md' rest j,
      values-append_at k j (w ∷ []) md,
      append_assoc (values j md) (w ∷ []) (map (meaning k) vs),
      decode_value-meaning k v w decoded,
    )

values-as_metadata_from :
    (h md md' : Multi)
    → as_metadata_from h md ≡ ok md'
    → (j : Text) → values j md' ≡ values j md ++ gather j h
unfolding as_metadata_from gather
values-as_metadata_from [] md md' e j = ground (arith, append-nil (values j md))
values-as_metadata_from ((k, vs) ∷ h) md md' e j =
    let (mid, collected, rest) = >>=-eq-ok (collect (lower k) vs md) _ e in
    ground (
      arith,
      values-as_metadata_from h mid md' rest j,
      values-collect (lower k) vs md mid collected j,
      append_assoc (values j md) (map (meaning (lower k)) vs) (gather j h),
      text_eq_iff (lower k) j,
      append-nil (values j md),
    )

-- Whatever the order in which the headers are visited, a key's metadata are the decoded values of
-- all headers that spell it, in the order of the headers.
pub values-as_metadata :
    (h md : Multi) → as_metadata h ≡ ok md → (j : Text) → values j md ≡ gather j h
unfolding as_metadata
values-as_metadata h md e j = values-as_metadata_from h [] md e j ∙ (unfold values in refl)

-- Every value decodes.
abbrev pub Decodes : Text → Text → Type 0
Decodes k v = (w : Text) × (decode_value (is_binary k) v ≡ ok w)

abbrev pub IsDecodable : Multi → Type 0
IsDecodable = All (λ e. All (Decodes (lower e.0)) e.1)

collect_total :
    (k : Text) (vs : List Text) (md : Multi)
    → All (Decodes k) vs
    → (md' : Multi) × (collect k vs md ≡ ok md')
unfolding collect
collect_total k [] md h = (md, refl)
collect_total k (v ∷ vs) md ((w, e), h) =
    let (md', e') = collect_total k vs (append_at k (w ∷ []) md) h in (md', rw e e')

as_metadata_from_total :
    (h md : Multi) → IsDecodable h → (md' : Multi) × (as_metadata_from h md ≡ ok md')
unfolding as_metadata_from
as_metadata_from_total [] md d = (md, refl)
as_metadata_from_total ((k, vs) ∷ h) md (d, ds) =
    let (mid, e) = collect_total (lower k) vs md d in
    let (md', e') = as_metadata_from_total h mid ds in (md', rw e e')

pub as_metadata_total : (h : Multi) → IsDecodable h → (md : Multi) × (as_metadata h ≡ ok md)
unfolding as_metadata
as_metadata_total h d = as_metadata_from_total h [] d
