-- ===== src/Tests/Metadata.antt =====
-- Metadata and their headers.
use notnets_grpc.Prelude.{ℕ, ◌≡◌, refl, [], ◌∷◌, ok, err, corrupt_input, arith, if◌then◌else◌}
use notnets_grpc.Text.{Text, codes, text_eq, text_eq_iff, lower, lower_byte, has_suffix}
use notnets_grpc.Base64.{encode, decode}
use notnets_grpc.Dict.{Multi, values, append_at}
use notnets_grpc.Dict.Laws.{IsMap}
use notnets_grpc.Header.{is_name, is_token, canonical, add}
use notnets_grpc.Internal.CallOptions.{CallOptions, no_options, Store}
use notnets_grpc.Metadata.Split.{IsLowerMap, as_metadata-IsLowerMap}
use notnets_grpc.Metadata.{
  response_headers, is_reserved, to_headers, as_metadata, names_trailer, set_metadata,
}
use notnets_grpc.Metadata.Gather.{gather, values-as_metadata}
use notnets_grpc.Metadata.RoundTrip.{AllMetadata, as_metadata-to_headers}
use notnets_grpc.Metadata.TrailerNames.{AllTrailers, NoTrailerNames}
use notnets_grpc.Metadata.Trailers.{
  Delivered, set_metadata-response_headers, set_metadata_bin_trailer,
}

-- Encoding: "\x00\xff\x10" and the three lengths modulo 3.
encode_some :
    (encode (0 ∷ 255 ∷ 16 ∷ []) ≡ codes "AP8Q")
    × (encode (codes "ab") ≡ codes "YWI=")
    × (encode (codes "a") ≡ codes "YQ==")
    × (decode (codes "YWI=") ≡ ok (codes "ab"))
    × (decode (codes "Y") ≡ err corrupt_input)
unfolding encode decode
encode_some = (refl, refl, refl, refl, refl)

canonical_some :
    (canonical (codes "x-GRPC-trailer-foo") ≡ codes "X-Grpc-Trailer-Foo")
    × (canonical (codes "a b") ≡ codes "a b")
unfolding canonical
canonical_some = (refl, refl)

abbrev hello : Multi
hello =
    (codes "foo", codes "bar" ∷ codes "baz" ∷ [])
    ∷ (codes "te", codes "no" ∷ [])
    ∷ (codes "pic-bin", (0 ∷ 200 ∷ []) ∷ [])
    ∷ []

-- te is reserved, the binary value is encoded
hello_headers :
    to_headers hello [] []
    ≡ (codes "Foo", codes "bar" ∷ codes "baz" ∷ []) ∷ (codes "Pic-Bin", codes "AMg=" ∷ []) ∷ []
unfolding to_headers add canonical append_at lower lower_byte has_suffix text_eq encode
hello_headers = refl

hello-IsMap : IsMap hello
hello-IsMap = grind arith

hello-AllMetadata : AllMetadata hello
unfolding lower lower_byte is_name is_token
hello-AllMetadata = (
  record { in_lower_case = refl; named = refl; bytes = omega arith },
  (
    record { in_lower_case = refl; named = refl; bytes = omega arith },
    (record { in_lower_case = refl; named = refl; bytes = omega arith }, tt),
  ),
)

as_metadata-to_headers_example :
    (md' : Multi) × (as_metadata (to_headers hello [] []) ≡ ok md')
    × ((j : Text) → values j md' ≡ (if is_reserved j then [] else values j hello))
as_metadata-to_headers_example = as_metadata-to_headers hello hello-IsMap hello-AllMetadata

abbrev goodbye : Multi
goodbye = (codes "cost", codes "7" ∷ []) ∷ []

goodbye-AllTrailers : AllTrailers goodbye
unfolding lower lower_byte is_name is_token text_eq
goodbye-AllTrailers = (
  record {
    metadata = record { in_lower_case = refl; named = refl; bytes = omega arith };
    some_name = cc;
    not_bin = λ e. ground (arith, text_eq_iff (codes "cost") (codes "bin"));
  },
  tt,
)

hello-NoTrailerNames : NoTrailerNames hello
unfolding names_trailer
hello-NoTrailerNames = (refl, (refl, (refl, tt)))

-- Variable 1 is for headers, variable 2 for trailers.
abbrev two_variables : CallOptions ℕ
two_variables = record no_options { headers = 1 ∷ []; trailers = 2 ∷ [] }

abbrev blank : Store ℕ
blank = record { mds = λ _. []; peers = λ _. 0 }

set_metadata-response_headers_example :
    (s' : Store ℕ) × (set_metadata (response_headers hello goodbye) two_variables blank ≡ ok s')
    × Delivered hello goodbye two_variables blank s'
set_metadata-response_headers_example =
    set_metadata-response_headers hello goodbye two_variables blank hello-IsMap (tt, tt)
      hello-AllMetadata goodbye-AllTrailers hello-NoTrailerNames

not_base64 : decode (codes "!") ≡ err corrupt_input
unfolding decode
not_base64 = refl

set_metadata_bin_trailer_example :
    set_metadata (response_headers [] ((codes "bin", codes "!" ∷ []) ∷ [])) two_variables blank
    ≡ err corrupt_input
set_metadata_bin_trailer_example =
    set_metadata_bin_trailer (codes "!") corrupt_input two_variables blank not_base64

-- The same key in two spellings.
abbrev spellings : Multi
spellings = (codes "A-Bin", codes "AMg=" ∷ []) ∷ (codes "a-bin", codes "YQ==" ∷ []) ∷ []

spellings_read : as_metadata spellings ≡ ok ((codes "a-bin", (0 ∷ 200 ∷ []) ∷ codes "a" ∷ []) ∷ [])
unfolding as_metadata decode lower lower_byte text_eq append_at
spellings_read = refl

values-as_metadata_example :
    values (codes "a-bin") ((codes "a-bin", (0 ∷ 200 ∷ []) ∷ codes "a" ∷ []) ∷ [])
    ≡ gather (codes "a-bin") spellings
values-as_metadata_example =
    values-as_metadata spellings ((codes "a-bin", (0 ∷ 200 ∷ []) ∷ codes "a" ∷ []) ∷ [])
      spellings_read (codes "a-bin")

as_metadata-IsLowerMap_example : IsLowerMap ((codes "a-bin", (0 ∷ 200 ∷ []) ∷ codes "a" ∷ []) ∷ [])
as_metadata-IsLowerMap_example =
    as_metadata-IsLowerMap spellings ((codes "a-bin", (0 ∷ 200 ∷ []) ∷ codes "a" ∷ []) ∷ [])
      spellings_read
