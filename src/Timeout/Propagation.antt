-- ===== src/Timeout/Propagation.antt =====
-- What a client's context tells the server's, through the headers: metadata and deadline.
use notnets_grpc.Prelude.{
  ℕ, ◌≡◌, ◌≢◌, refl, sym, ◌∙◌, [], ◌∷◌, some, none, ok, ℤ, pos, if◌then◌else◌,
}
use notnets_grpc.Text.{Text, codes, text_eq, text_eq_refl, text_eq_of_ne, lower}
use notnets_grpc.Dict.{Multi, values}
use notnets_grpc.Dict.Laws.{IsMap}
use notnets_grpc.Header.{is_name, is_token, set}
use notnets_grpc.Contexts.{Contexts, ContextLaws}
use notnets_grpc.Metadata.{is_reserved, is_binary, to_headers, decode_value}
use notnets_grpc.Metadata.Gather.{
  meaning, gather, Decodes, IsDecodable, values-as_metadata, as_metadata_total,
}
use notnets_grpc.Metadata.Travel.{IsHeader, to_headers-IsHeader, gather-to_headers}
use notnets_grpc.Metadata.RoundTrip.{
  AllMetadata, AllMetadata-travel, sent_plain, to_headers-IsDecodable,
}
use notnets_grpc.Metadata.Setting.{get-set, set-IsDecodable, gather-set}
use notnets_grpc.Metadata.Split.{as_metadata-IsLowerMap}
use notnets_grpc.Timeout.{timeout_name, timeout_text, headers_from_context, context_from_headers}
use notnets_grpc.Timeout.RoundTrip.{IsInt64, Serves, timeout_of-timeout_text}

-- The key under which asMetadata files the header of the timeout.
abbrev pub timeout_key : Text
timeout_key = codes "grpc-timeout"

-- What the server's context holds of metadata `md` and `t` left of a deadline.
pub record Received (c : Contexts) (md : Multi) (t : ℤ) (ctx : c.Context) : Type 0 where
  pub incoming : Multi
  pub has_incoming : c.from_incoming ctx ≡ some incoming
  pub same_values :
      (j : Text) → j ≢ timeout_key → values j incoming ≡ (if is_reserved j then [] else values j md)
  pub sent_timeout : values timeout_key incoming ≡ timeout_text t ∷ []
  pub timeout : ℕ
  pub has_deadline : c.until_deadline ctx ≡ some (pos timeout)
  pub serves : Serves t timeout

Decodes-timeout : (v : Text) → Decodes (lower timeout_name) v
unfolding lower is_binary decode_value
Decodes-timeout v = (v, refl)

text_eq-timeout_name : (j : Text) → text_eq (lower timeout_name) j ≡ text_eq timeout_key j
unfolding lower
text_eq-timeout_name j = refl

module _ (c : Contexts) (laws : ContextLaws c) (ctx parent : c.Context) (md : Multi) (t : ℤ)
    (sends : c.from_outgoing ctx ≡ some md) (ends : c.until_deadline ctx ≡ some t)
    (small : IsInt64 t) (free : c.until_deadline parent ≡ none) (map : IsMap md)
    (legal : AllMetadata md) where
  pub plain_headers : Multi
  plain_headers = to_headers md [] []

  pub plain-IsHeader : IsHeader plain_headers
  unfolding plain_headers
  plain-IsHeader = to_headers-IsHeader [] md [] (AllMetadata-travel md legal) tt

  plain-IsDecodable : IsDecodable plain_headers
  unfolding plain_headers
  plain-IsDecodable = to_headers-IsDecodable [] md [] (AllMetadata-travel md legal) tt

  pub gather-client_headers :
      (j : Text)
      → j ≢ timeout_key
      → gather j (set timeout_name (timeout_text t) plain_headers)
        ≡ (if is_reserved j then [] else values j md)
  unfolding plain_headers
  gather-client_headers j other =
      gather-set timeout_name (timeout_text t) plain_headers (unfold is_name is_token in refl)
        plain-IsHeader j
      ∙ rw (text_eq-timeout_name j, text_eq_of_ne timeout_key j (λ e. other (sym e)))
          (gather-to_headers [] j md [] (AllMetadata-travel md legal) tt
            ∙ (unfold gather in sent_plain j md map legal))

  -- The headers that headersFromContext makes of the client's context.
  pub client_headers : headers_from_context c ctx ≡ set timeout_name (timeout_text t) plain_headers
  unfolding headers_from_context plain_headers
  client_headers = rw (sends, ends)

  -- The server's context has the metadata of the client's, except under reserved names, and under
  -- "grpc-timeout" the text of the header, and as its timeout what was left of the client's deadline, rounded down to
  -- milliseconds and not below one.
  pub context_from_headers-headers_from_context :
      (ctx' : c.Context) × (context_from_headers c parent (headers_from_context c ctx) ≡ ok ctx')
      × Received c md t ctx'
  unfolding context_from_headers
  context_from_headers-headers_from_context =
      let (got, e) = as_metadata_total _ (
        set-IsDecodable timeout_name (timeout_text t) plain_headers (Decodes-timeout _)
          plain-IsDecodable) in
      let (d, timed, serves) = timeout_of-timeout_text t small in
      let inner : c.Context = c.new_incoming parent got in
      (
        c.with_timeout inner (pos d),
        rw (client_headers, e, get-set timeout_name (timeout_text t) plain_headers, timed),
        record {
          incoming = got;
          has_incoming =
              laws.from_incoming-with_timeout inner (pos d)
              ∙ laws.from-new_incoming parent got (as_metadata-IsLowerMap _ got e).low;
          same_values = λ j other. values-as_metadata _ got e j ∙ gather-client_headers j other;
          sent_timeout =
              values-as_metadata _ got e timeout_key
              ∙ gather-set timeout_name (timeout_text t) plain_headers
                  (unfold is_name is_token in refl) plain-IsHeader timeout_key
              ∙ rw (text_eq-timeout_name timeout_key, text_eq_refl timeout_key)
                  (unfold meaning decode_value is_binary lower in refl);
          timeout = d;
          has_deadline =
              laws.until-with_timeout inner (pos d) (laws.until-new_incoming parent got ∙ free);
          serves = serves;
        },
      )
