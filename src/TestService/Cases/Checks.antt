-- ===== src/TestService/Cases/Checks.antt =====
-- What the checks of channel_tests_service/channel_test_cases.go accept.
use notnets_grpc.Prelude.{
  ◌≡◌, ◌↔◌, refl, sym, ap, ◌∙◌, true, false, subst, Bool-cases, inl, inr, if◌then◌else◌, [], ◌∷◌,
  List, Option, none, some, All, arith,
}
use notnets_grpc.Text.{Text, text_eq, text_eq_iff, text_eq_of_ne}
use notnets_grpc.Dict.{Dict, Multi, lookup, values}
use notnets_grpc.Dict.Laws.{IsMap, Lacks, lookup-insert}
use notnets_grpc.TestService.{as_map, put_last}
use notnets_grpc.TestService.Cases.{check_request_headers, check_metadata, is_text, is_only}

is_text_iff : (v : Text) (o : Option Text) → (is_text v o ≡ true) ↔ (o ≡ some v)
unfolding is_text
is_text_iff v none = ground arith
is_text_iff v (some u) = ground (arith, text_eq_iff u v)

is_only_iff : (v : Text) (vs : List Text) → (is_only v vs ≡ true) ↔ (vs ≡ v ∷ [])
unfolding is_only
is_only_iff v [] = ground arith
is_only_iff v (u ∷ []) = ground (arith, text_eq_iff u v)
is_only_iff v (u ∷ u' ∷ us) = ground arith

-- checkRequestHeaders passes exactly if each expected key has its expected value.
pub check_request_headers_iff :
    (expected actual : Dict Text)
    → (check_request_headers expected actual ≡ true)
      ↔ All (λ e. lookup e.0 actual ≡ some e.1) expected
unfolding check_request_headers
check_request_headers_iff [] actual = ground arith
check_request_headers_iff ((k, v) ∷ expected) actual =
    ground (arith, is_text_iff v (lookup k actual), check_request_headers_iff expected actual)

-- checkMetadata passes exactly if each expected key has its expected value, and only that one.
pub check_metadata_iff :
    (expected : Dict Text) (actual : Multi)
    → (check_metadata expected actual ≡ true) ↔ All (λ e. values e.0 actual ≡ e.1 ∷ []) expected
unfolding check_metadata
check_metadata_iff [] actual = ground arith
check_metadata_iff ((k, v) ∷ expected) actual =
    ground (arith, is_only_iff v (values k actual), check_metadata_iff expected actual)

lookup-put_last :
    (j k : Text) (vs : List Text) (m : Dict Text)
    → text_eq j k ≡ false
    → lookup k (put_last j vs m) ≡ lookup k m
unfolding put_last
lookup-put_last j k [] m other = refl
lookup-put_last j k (v ∷ []) m other = lookup-insert j k v m ∙ rw other refl
lookup-put_last j k (v ∷ u ∷ vs) m other = lookup-put_last j k (u ∷ vs) m other

lookup-as_map-Lacks :
    (k : Text) (md : Multi) (m : Dict Text) → Lacks k md → lookup k (as_map md m) ≡ lookup k m
unfolding as_map
lookup-as_map-Lacks k [] m h = refl
lookup-as_map-Lacks k ((j, vs) ∷ md) m (other, h) =
    lookup-as_map-Lacks k md (put_last j vs m) h
    ∙ lookup-put_last j k vs m (text_eq_of_ne j k (λ e. other e))

-- asMap keeps a key that has one value.
pub lookup-as_map :
    (k v : Text) (md : Multi) (m : Dict Text)
    → IsMap md
    → values k md ≡ v ∷ []
    → lookup k (as_map md m) ≡ some v
unfolding as_map values put_last
lookup-as_map k v [] m h e = absurd (cc)
lookup-as_map k v ((j, vs) ∷ md) m (free, h) e = elim (Bool-cases (text_eq j k)) [
  | inl same ↦
      let here : j ≡ k = (text_eq_iff j k).0 same in
      let only : vs ≡ v ∷ [] = ap (λ b. if b then vs else values k md) (sym same) ∙ e in
      lookup-as_map-Lacks k md (put_last j vs m) (subst (λ i. Lacks i md) here free)
      ∙ ap (λ us. lookup k (put_last j us m)) only
      ∙ lookup-insert j k v m
      ∙ rw same refl
  | inr other ↦
      lookup-as_map k v md (put_last j vs m) h
        (ap (λ b. if b then vs else values k md) (sym other) ∙ e)
]
