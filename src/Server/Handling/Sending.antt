-- ===== src/Server/Handling/Sending.antt =====
-- The headers of an answer: they can be written, and what is read of them holds the metadata that
-- the handler set.
use notnets_grpc.Prelude.{◌≡◌, refl, sym, ap, ◌∙◌, true, false, List, [], ◌∷◌, map, arith, length}
use notnets_grpc.Text.{Text, codes, text_eq, lower}
use notnets_grpc.Text.Decimal.{print}
use notnets_grpc.Dict.{Multi, values}
use notnets_grpc.Dict.Laws.{IsMap, values-insert}
use notnets_grpc.Header.{is_name, is_token, canonical, set, get}
use notnets_grpc.Metadata.{is_binary, decode_value, server_prefix, response_headers}
use notnets_grpc.Metadata.Gather.{meaning, gather, IsDecodable}
use notnets_grpc.Metadata.Travel.{IsHeader, to_headers-IsHeader}
use notnets_grpc.Metadata.RoundTrip.{AllMetadata, AllMetadata-travel, to_headers-IsDecodable}
use notnets_grpc.Metadata.Setting.{set-IsDecodable}
use notnets_grpc.Metadata.TrailerNames.{AllTrailers, AllTrailers-travel, NoTrailerNames}
use notnets_grpc.Internal.TransportStream.{
  UnaryServerTransportStream, or_empty, get_headers, get_trailers,
}
use notnets_grpc.Http.Spaces.{IsValue, solid-IsValue}
use notnets_grpc.Http.Fields.{is_excluded}
use notnets_grpc.Http.Fields.Written.{IsWritable}
use notnets_grpc.Http.Fields.Listing.{gather-values, excluded-canonical}
use notnets_grpc.Http.Transfer.Keeping.{Keeps, print-IsSolid}
use notnets_grpc.Http.Response.RoundTrip.{response_touched}
use notnets_grpc.Http.Carrying.{AllCarried, to_headers-IsWritable, set-IsWritable}
use notnets_grpc.Server.Handling.{content_type_name, answer_headers}

-- The names that an answer's headers have of their own, or lose.
abbrev pub answer_touched : List Text
answer_touched = content_type_name ∷ response_touched

-- A key in lower case that is not one of those.
pub record IsPlainKey (j : Text) : Type 0 where
  pub low : lower j ≡ j
  pub quiet : is_excluded (map lower answer_touched) j ≡ false

-- Header and trailer metadata that reach the client.
pub record IsAnswerable (hdr tlr : Multi) : Type 0 where
  pub header_map : IsMap hdr
  pub trailer_map : IsMap tlr
  pub headers : AllMetadata hdr
  pub trailers : AllTrailers tlr
  pub no_trailer_names : NoTrailerNames hdr
  pub headers_carried : AllCarried [] hdr
  pub trailers_carried : AllCarried server_prefix tlr

pub values-set :
    (k n v : Text) (h : Multi)
    → canonical n ≡ n
    → text_eq n k ≡ false
    → values k (set n v h) ≡ values k h
unfolding set
values-set k n v h canon other = rw (canon, values-insert n k (v ∷ []) h, other) refl

module _ (hdr tlr : Multi) (a : IsAnswerable hdr tlr) where
  response_headers-IsWritable : IsWritable (response_headers hdr tlr)
  response_headers-IsWritable =
      to_headers-IsWritable server_prefix tlr _ a.trailers_carried
        (to_headers-IsWritable [] hdr [] a.headers_carried (record { map = tt; entries = tt }))

  response_headers-IsHeader : IsHeader (response_headers hdr tlr)
  response_headers-IsHeader =
      to_headers-IsHeader server_prefix tlr _ (AllTrailers-travel tlr a.trailers)
        (to_headers-IsHeader [] hdr [] (AllMetadata-travel hdr a.headers) tt)

  response_headers-IsDecodable : IsDecodable (response_headers hdr tlr)
  response_headers-IsDecodable =
      to_headers-IsDecodable server_prefix tlr _ (AllTrailers-travel tlr a.trailers)
        (to_headers-IsDecodable [] hdr [] (AllMetadata-travel hdr a.headers) tt)

module _ (header : Multi) (sts : UnaryServerTransportStream) (payload : Text)
    (typed : IsValue (get content_type_name header))
    (a : IsAnswerable (or_empty (get_headers sts)) (or_empty (get_trailers sts))) where
  abbrev metadata_headers : Multi
  metadata_headers = response_headers (or_empty (get_headers sts)) (or_empty (get_trailers sts))

  pub answer_headers-IsWritable : IsWritable (answer_headers header sts payload)
  unfolding answer_headers
  answer_headers-IsWritable =
      set-IsWritable (codes "Content-Length") (print (length payload)) _
        (solid-IsValue (print (length payload)) (print-IsSolid (length payload)))
        (unfold is_name is_token in refl)
        (set-IsWritable content_type_name (get content_type_name header) _ typed
          (unfold is_name is_token in refl) (response_headers-IsWritable _ _ a))

  answer_headers-IsDecodable : IsDecodable (answer_headers header sts payload)
  unfolding answer_headers
  answer_headers-IsDecodable =
      set-IsDecodable (codes "Content-Length") (print (length payload)) _
        (print (length payload), (unfold decode_value is_binary lower in refl))
        (set-IsDecodable content_type_name (get content_type_name header) _
          (get content_type_name header, (unfold decode_value is_binary lower in refl))
          (response_headers-IsDecodable _ _ a))

  -- Under the other names the answer has the metadata's headers.
  values-answer_headers :
      (k : Text)
      → is_excluded answer_touched k ≡ false
      → values k (answer_headers header sts payload) ≡ values k metadata_headers
  unfolding answer_headers is_excluded
  values-answer_headers k other =
      values-set k (codes "Content-Length") (print (length payload)) _
        (unfold canonical is_name is_token in refl) (ground (arith, other))
      ∙ values-set k content_type_name (get content_type_name header) metadata_headers
          (unfold canonical is_name is_token in refl) (ground (arith, other))

  module _ (header' : Multi)
      (k : Keeps
        (λ j. is_excluded response_touched j ≡ true)
        (answer_headers header sts payload)
        header') where
    pub received-IsDecodable : IsDecodable header'
    received-IsDecodable = k.decodable answer_headers-IsDecodable

    pub gather_received : (j : Text) → IsPlainKey j → gather j header' ≡ gather j metadata_headers
    unfolding is_excluded
    gather_received j p =
        let other = excluded-canonical answer_touched j p.low p.quiet in
        gather-values j header' k.in_form p.low
        ∙ ap (map (meaning j)) (
            k.same_values (canonical j) (λ e. ground (arith, e, other))
            ∙ values-answer_headers (canonical j) other)
        ∙ sym (gather-values j metadata_headers (response_headers-IsHeader _ _ a) p.low)
