-- ===== src/Tests/Data.antt =====
-- The data of the tests of the test service.
use notnets_grpc.Prelude.{All, map, ◌≢◌, ◌≡◌, refl, arith, true, false, [], ◌∷◌, ◌++◌}
use notnets_grpc.Text.{Text, codes}
use notnets_grpc.Dict.{Dict, Multi}
use notnets_grpc.Text.{text_eq, lower}
use notnets_grpc.Dict.{append_at}
use notnets_grpc.Header.{is_name, is_token}
use notnets_grpc.Metadata.{is_reserved, is_binary}
use notnets_grpc.Http.Spaces.{is_solid, literal-IsValue}
use notnets_grpc.Metadata.RoundTrip.{IsMetadata, AllMetadata}
use notnets_grpc.Http.Carrying.{IsCarried, AllCarried}
use notnets_grpc.Base64.RoundTrip.{IsByte}
use notnets_grpc.Text.{ne_of_text_eq}
use notnets_grpc.Metadata.TrailerNames.{IsTrailer}
use notnets_grpc.Metadata.{names_trailer, trailer_prefix, server_prefix}
use notnets_grpc.Contexts.{new_values}
use notnets_grpc.Http.Fields.{is_field_name, is_excluded}
use notnets_grpc.Server.Handling.Sending.{IsAnswerable, answer_touched}
use notnets_grpc.Client.Propagating.{request_own}
use notnets_grpc.Internal.TransportStream.{merge, or_empty, get_headers, get_trailers}
use notnets_grpc.Internal.TransportStream.History.{run}
use notnets_grpc.TestService.Cases.Passing.{IsEchoed, IsHeaderKey, IsTrailerKey, IsTestData}
use notnets_grpc.TestService.{metadata_new}
use notnets_grpc.TestService.Cases.{test_data}

abbrev header_metadata : Multi
header_metadata =
    (codes "foo1", codes "bar4" ∷ [])
    ∷ (codes "baz2", codes "bedazzle5" ∷ [])
    ∷ (codes "pickle3-bin", test_data.payload ∷ [])
    ∷ []

abbrev trailer_metadata : Multi
trailer_metadata =
    (codes "4foo4", codes "7bar7" ∷ [])
    ∷ (codes "5baz5", codes "8bedazzle8" ∷ [])
    ∷ (codes "6pickle6-bin", test_data.payload ∷ [])
    ∷ []

abbrev outgoing_metadata : Multi
outgoing_metadata =
    (codes "foo", codes "bar" ∷ [])
    ∷ (codes "baz", codes "bedazzle" ∷ [])
    ∷ (codes "pickle-bin", test_data.payload ∷ [])
    ∷ []

module _ (k v : Text) where
  plain-IsCarried :
      (prefix : Text)
      → is_field_name (prefix ++ k) ≡ true
      → is_solid v ≡ true
      → IsCarried prefix k (v ∷ [])
  plain-IsCarried prefix named solid = record {
    named = named;
    plain = λ text. (literal-IsValue v solid, tt);
  }

  binary-IsCarried :
      (prefix : Text)
      → is_field_name (prefix ++ k) ≡ true
      → is_binary (lower k) ≡ true
      → IsCarried prefix k (v ∷ [])
  binary-IsCarried prefix named binary = record { named = named; plain = λ text. absurd (cc) }

  literal-IsMetadata : lower k ≡ k → is_name k ≡ true → All IsByte v → IsMetadata k (v ∷ [])
  literal-IsMetadata low named bytes = record {
    in_lower_case = low;
    named = named;
    bytes = (bytes, tt);
  }

  literal-IsTrailer :
      IsMetadata k (v ∷ []) → text_eq k (codes "bin") ≡ false → k ≢ [] → IsTrailer k (v ∷ [])
  literal-IsTrailer m other some_name = record {
    metadata = m;
    some_name = some_name;
    not_bin = ne_of_text_eq k (codes "bin") other;
  }

outgoing-AllMetadata : AllMetadata outgoing_metadata
unfolding lower is_name is_token
outgoing-AllMetadata = (
  literal-IsMetadata _ _ refl refl (omega arith),
  (
    literal-IsMetadata _ _ refl refl (omega arith),
    (literal-IsMetadata _ _ refl refl (omega arith), tt),
  ),
)

outgoing-AllCarried : AllCarried [] outgoing_metadata
unfolding lower is_name is_token is_solid is_binary
outgoing-AllCarried = (
  plain-IsCarried _ _ [] refl refl,
  (plain-IsCarried _ _ [] refl refl, (binary-IsCarried _ _ [] refl refl, tt)),
)

answerable : IsAnswerable header_metadata trailer_metadata
unfolding lower is_name is_token is_solid is_binary text_eq names_trailer
answerable = record {
  header_map = grind arith;
  trailer_map = grind arith;
  headers = (
    literal-IsMetadata _ _ refl refl (omega arith),
    (
      literal-IsMetadata _ _ refl refl (omega arith),
      (literal-IsMetadata _ _ refl refl (omega arith), tt),
    ),
  );
  trailers = (
    literal-IsTrailer _ _ (literal-IsMetadata _ _ refl refl (omega arith)) refl cc,
    (
      literal-IsTrailer _ _ (literal-IsMetadata _ _ refl refl (omega arith)) refl cc,
      (literal-IsTrailer _ _ (literal-IsMetadata _ _ refl refl (omega arith)) refl cc, tt),
    ),
  );
  no_trailer_names = (refl, (refl, (refl, tt)));
  headers_carried = (
    plain-IsCarried _ _ [] refl refl,
    (plain-IsCarried _ _ [] refl refl, (binary-IsCarried _ _ [] refl refl, tt)),
  );
  trailers_carried = (
    plain-IsCarried _ _ server_prefix refl refl,
    (
      plain-IsCarried _ _ server_prefix refl refl,
      (binary-IsCarried _ _ server_prefix refl refl, tt),
    ),
  );
}

module _ (k : Text) (low : lower k ≡ k) (free : is_reserved k ≡ false) (m : Dict Text) (v : Text)
    (once : new_values k m ≡ v ∷ []) where
  literal-IsEchoed : is_excluded (map lower request_own) k ≡ false → IsEchoed m (k, v)
  literal-IsEchoed quiet = record {
    sent = record { low = low; free = quiet };
    free = free;
    once = once;
  }

  literal-IsHeaderKey :
      is_excluded (map lower answer_touched) k ≡ false
      → names_trailer trailer_prefix k ≡ false
      → IsHeaderKey m (k, v)
  literal-IsHeaderKey quiet other = record {
    plain = record { low = low; quiet = quiet };
    no_trailer = other;
    free = free;
    once = once;
  }

  literal-IsTrailerKey : k ≢ [] → IsTrailerKey m (k, v)
  literal-IsTrailerKey some_byte = record {
    some_byte = some_byte;
    low = low;
    free = free;
    once = once;
  }

pub test_data-IsTestData : IsTestData test_data
unfolding lower text_eq is_reserved is_excluded names_trailer metadata_new append_at
test_data-IsTestData = record {
  outgoing_metadata = outgoing-AllMetadata;
  outgoing_carried = outgoing-AllCarried;
  echoed = (
    literal-IsEchoed _ refl refl _ _ refl refl,
    (literal-IsEchoed _ refl refl _ _ refl refl, (literal-IsEchoed _ refl refl _ _ refl refl, tt)),
  );
  headers = (
    literal-IsHeaderKey _ refl refl _ _ refl refl refl,
    (
      literal-IsHeaderKey _ refl refl _ _ refl refl refl,
      (literal-IsHeaderKey _ refl refl _ _ refl refl refl, tt),
    ),
  );
  trailers = (
    literal-IsTrailerKey _ refl refl _ _ refl cc,
    (
      literal-IsTrailerKey _ refl refl _ _ refl cc,
      (literal-IsTrailerKey _ refl refl _ _ refl cc, tt),
    ),
  );
  answerable = unfold run or_empty get_headers get_trailers merge in answerable;
}
