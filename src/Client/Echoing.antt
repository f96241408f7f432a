-- ===== src/Client/Echoing.antt =====
-- The metadata in a handler's context, for a request that was made in a context without a deadline.
use notnets_grpc.Prelude.{
  ◌≡◌, refl, sym, ap, subst, ◌∙◌, false, [], map, arith, some, none, ok, if◌then◌else◌,
}
use notnets_grpc.Text.{Text, codes, text_eq, lower}
use notnets_grpc.Dict.{Multi, values}
use notnets_grpc.Dict.Laws.{IsMap}
use notnets_grpc.Header.{canonical, is_name, is_token}
use notnets_grpc.Contexts.{Contexts, ContextLaws}
use notnets_grpc.Metadata.{is_reserved, to_headers}
use notnets_grpc.Metadata.Gather.{meaning, gather, values-as_metadata}
use notnets_grpc.Metadata.Travel.{IsHeader, to_headers-IsHeader, gather-to_headers}
use notnets_grpc.Metadata.RoundTrip.{AllMetadata, AllMetadata-travel, sent_plain}
use notnets_grpc.Metadata.Setting.{set-IsHeader, gather-set}
use notnets_grpc.Metadata.Split.{as_metadata-IsLowerMap}
use notnets_grpc.Timeout.{headers_from_context, context_from_headers}
use notnets_grpc.Timeout.Incoming.{from_incoming-context_from_headers}
use notnets_grpc.Http.Fields.{is_excluded}
use notnets_grpc.Http.Fields.Listing.{gather-values, excluded-canonical}
use notnets_grpc.Client.{content_type}
use notnets_grpc.Client.Requesting.{request_header}
use notnets_grpc.Client.Arriving.{Arrived}
use notnets_grpc.Client.Propagating.{request_own, IsSentKey}

-- What the handler's context holds of metadata `md`.
pub record Carries (c : Contexts) (md : Multi) (ctx : c.Context) : Type 0 where
  pub incoming : Multi
  pub has_incoming : c.from_incoming ctx ≡ some incoming
  pub is_map : IsMap incoming
  pub same_values :
      (j : Text) → IsSentKey j → values j incoming ≡ (if is_reserved j then [] else values j md)

module _ (c : Contexts) (laws : ContextLaws c) (background ctx ctx' : c.Context) (md : Multi)
    (service method payload text : Text) (sends : c.from_outgoing ctx ≡ some md)
    (ends : c.until_deadline ctx ≡ none) (is_map : IsMap md) (legal : AllMetadata md)
    (arrived : Arrived c service method ctx payload text)
    (decoded : context_from_headers c background arrived.header ≡ ok ctx') where
  sent : headers_from_context c ctx ≡ to_headers md [] []
  unfolding headers_from_context
  sent = rw (sends, ends) refl

  headers-IsHeader : IsHeader (headers_from_context c ctx)
  headers-IsHeader =
      subst IsHeader (sym sent) (to_headers-IsHeader [] md [] (AllMetadata-travel md legal) tt)

  gather-arrived :
      (j : Text)
      → IsSentKey j
      → gather j arrived.header ≡ (if is_reserved j then [] else values j md)
  unfolding is_excluded
  gather-arrived j k =
      let untouched = excluded-canonical request_own j k.low k.free in
      let other : text_eq (lower (codes "Content-Type")) j ≡ false = ground (arith, k.free) in
      gather-values j arrived.header arrived.kept.in_form k.low
      ∙ ap (map (meaning j))
          (arrived.kept.same_values (canonical j) (λ e. ground (arith, e, untouched)))
      ∙ sym (
          gather-values j (request_header c ctx)
            (set-IsHeader (codes "Content-Type") content_type (headers_from_context c ctx)
              (unfold is_name is_token in refl) headers-IsHeader)
            k.low)
      ∙ gather-set (codes "Content-Type") content_type (headers_from_context c ctx)
          (unfold is_name is_token in refl) headers-IsHeader j
      ∙ rw (other, sent)
          (gather-to_headers [] j md [] (AllMetadata-travel md legal) tt
            ∙ (unfold gather in sent_plain j md is_map legal))

  pub context-Carries : Carries c md ctx'
  context-Carries =
      let (got, e, has) =
        from_incoming-context_from_headers c laws background ctx' arrived.header decoded in
      record {
        incoming = got;
        has_incoming = has;
        is_map = (as_metadata-IsLowerMap _ got e).map;
        same_values = λ j k. values-as_metadata _ got e j ∙ gather-arrived j k;
      }
