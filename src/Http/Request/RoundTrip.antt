-- ===== src/Http/Request/RoundTrip.antt =====
-- A request that the client writes is what the server reads, as far as the reader's buffer goes.
use notnets_grpc.Prelude.{
  ℕ, ◌^◌, ◌<◌, ◌≤◌, ◌≡◌, ◌⊎◌, refl, sym, ap, ◌∙◌, true, false, List, [], ◌∷◌, ◌++◌, none, some, ok,
  err, arith, leb, if◌then◌else◌, All-append, length, inl, inr,
}
use notnets_grpc.Text.{Text, codes, text_eq, text_eq_iff}
use notnets_grpc.Text.Decimal.{print}
use notnets_grpc.Dict.{Multi, delete, values}
use notnets_grpc.Header.{is_name, is_token}
use notnets_grpc.Http.{buffer_size}
use notnets_grpc.Http.Spaces.{is_line_end}
use notnets_grpc.Http.Lines.{Line, lines_of, IsLine}
use notnets_grpc.Http.Fields.{Field, is_excluded, message, cut, all_bytes, read_fields}
use notnets_grpc.Http.Fields.Reading.{add_fields}
use notnets_grpc.Http.Fields.Written.{IsWritable}
use notnets_grpc.Http.Fields.Listing.{
  values-add_fields, add_fields-IsHeader, add_fields-IsDecodable,
}
use notnets_grpc.Http.Url.{IsPath, cut_path}
use notnets_grpc.Http.Url.Requests.{accepts_uri_path}
use notnets_grpc.Http.Transfer.{
  content_length, transfer_encoding, cache_control, unexpected_eof, is_version, read_body,
  read_transfer,
}
use notnets_grpc.Http.Transfer.Keeping.{Keeps, Keeps-trans, read_transfer_length, delete-Keeps}
use notnets_grpc.Http.Messages.{
  head_length, message_end, Reads, read_message, read_body_message, length-message, literal-IsLine,
}
use notnets_grpc.Http.Request.{
  host, user_agent, request_excluded, request_fields, request_line, write_request, read_request,
  parse_request_line, split_line, checked, body_or_empty, single_host,
}
use notnets_grpc.Http.Request.Fields.{
  request_fields-AllFields, request_fields-DecodableFields, field_values-request_fields,
  field_values-host,
}

-- The names under which the server may see other values than the client has set.
abbrev pub request_touched : List Text
request_touched = cache_control ∷ request_excluded

path-IsLine : (s : Text) → IsPath s → IsLine s
path-IsLine [] h = tt
path-IsLine (c ∷ s) (h, hs) = (ground arith, path-IsLine s hs)

request_line-IsLine : (s : Text) → IsPath s → IsLine (request_line s)
request_line-IsLine s h =
    All-append (λ c. is_line_end c ≡ false) (codes "POST " ++ s) (codes " HTTP/1.1")
      (All-append (λ c. is_line_end c ≡ false) (codes "POST ") s
        (literal-IsLine (codes "POST ") (unfold all_bytes in refl)) (path-IsLine s h))
      (literal-IsLine (codes " HTTP/1.1") (unfold all_bytes in refl))

-- The first line gives the URI back.
parse_request_line_path :
    (s : Text) → IsPath (b'/' ∷ s) → parse_request_line (request_line (b'/' ∷ s)) ≡ ok (b'/' ∷ s)
unfolding parse_request_line split_line checked is_name is_token is_version
parse_request_line_path s h =
    rw (cut, cut_path (b'/' ∷ s) (codes "HTTP/1.1") h, accepts_uri_path (codes "POST") s h) refl

module _ (header : Multi) (payload : Text) (w : IsWritable header) where
  block : Multi
  block = add_fields (request_fields header payload) []

  values-block :
      (j : Text)
      → text_eq host j ≡ false
      → text_eq user_agent j ≡ false
      → values j block
        ≡ (if text_eq content_length j then print (length payload) ∷ [] else [])
          ++ (if is_excluded request_excluded j then [] else values j header)
  unfolding block
  values-block j not_host not_agent =
      values-add_fields j (request_fields header payload) []
      ∙ (unfold values in field_values-request_fields header payload w j not_host not_agent)

  block-Keeps : Keeps (λ j. is_excluded request_excluded j ≡ true) header block
  unfolding is_excluded
  block-Keeps = record {
    same_values = λ j other. ground (arith, values-block j, other);
    in_form =
        unfold block in
        add_fields-IsHeader (request_fields header payload) []
          (request_fields-AllFields header payload w) tt;
    decodable = λ d.
        unfold block in
        add_fields-IsDecodable (request_fields header payload) []
          (request_fields-DecodableFields header payload w d) tt;
  }

  block_encoding : values transfer_encoding block ≡ []
  block_encoding =
      values-block transfer_encoding (unfold text_eq in refl) (unfold text_eq in refl)
      ∙ (unfold text_eq is_excluded in refl)

  block_length : values content_length block ≡ print (length payload) ∷ []
  block_length =
      values-block content_length (unfold text_eq in refl) (unfold text_eq in refl)
      ∙ (unfold text_eq is_excluded in refl)

  -- The one Host field, which is empty.
  block-host : values host block ≡ [] ∷ []
  unfolding block
  block-host =
      values-add_fields host (request_fields header payload) []
      ∙ (unfold values in field_values-host header payload w)

into_touched : (j : Text) → (cache_control ≡ j) ⊎ (host ≡ j) → is_excluded request_touched j ≡ true
unfolding is_excluded
into_touched j (inl e) = ground (arith, text_eq_iff cache_control j, e)
into_touched j (inr e) = ground (arith, text_eq_iff host j, e)

-- ReadRequest, part by part.
read_request_lem :
    (text : Text) (l : Line) (ls : List Line) (uri : Text) (m : Multi) (end : Line) (m' : Multi)
    (n : ℕ)
    → lines_of text ≡ l ∷ ls
    → parse_request_line l.text ≡ ok uri
    → read_fields none [] ls ≡ ok (m, end)
    → values host m ≡ [] ∷ []
    → read_transfer m ≡ ok (m', some n)
    → read_request text
      ≡ ok (record { request_uri = uri; header = delete host m'; body = read_body n end })
unfolding body_or_empty single_host read_request
read_request_lem text l ls uri m end m' n a b c one d = rw (read_request, a, b, c, one, d) refl

-- The first line and the fields of a request.
request-Reads :
    (s : Text) (header : Multi) (payload : Text)
    → IsPath (b'/' ∷ s)
    → IsWritable header
    → head_length (request_line (b'/' ∷ s)) (request_fields header payload) ≤ buffer_size
    → Reads (request_line (b'/' ∷ s)) (request_fields header payload) payload
unfolding request_fields
request-Reads s header payload path w fits =
    read_message (request_line (b'/' ∷ s)) (host, []) _ payload
      (request_line-IsLine (b'/' ∷ s) path) (request_fields-AllFields header payload w) fits

-- The header as the server keeps it.
kept_header :
    (header m m' : Multi)
    → Keeps (λ j. is_excluded request_excluded j ≡ true) header m
    → Keeps (λ j. cache_control ≡ j) m m'
    → Keeps (λ j. is_excluded request_touched j ≡ true) header (delete host m')
unfolding is_excluded
kept_header header m m' k k' =
    Keeps-trans header m' (delete host m') (λ j t. t) (λ j e. into_touched j (inr e))
      (Keeps-trans header m m' (λ j t. ground (arith, t)) (λ j e. into_touched j (inl e)) k k')
      (delete-Keeps host m' k'.in_form)

-- A request for a path, with a header that can be written and a head that fits into the reader's
-- buffer: the server reads its path, its header but for a few names, and its body, whole if the
-- request fits into the buffer, and with an error otherwise.
pub read-write_request :
    (s : Text) (header : Multi) (payload : Text)
    → IsPath (b'/' ∷ s)
    → IsWritable header
    → length payload < 2 ^ 63
    → head_length (request_line (b'/' ∷ s)) (request_fields header payload) ≤ buffer_size
    → (header' : Multi) × (read_request (write_request (b'/' ∷ s) header payload)
        ≡ ok (record {
          request_uri = b'/' ∷ s;
          header = header';
          body =
              if leb (length (write_request (b'/' ∷ s) header payload)) buffer_size
              then ok payload
              else err unexpected_eof;
        }))
      × Keeps (λ j. is_excluded request_touched j ≡ true) header header'
unfolding write_request
read-write_request s header payload path w small fits =
    let start : Text = request_line (b'/' ∷ s) in
    let fields : List Field = request_fields header payload in
    let kept = block-Keeps header payload w in
    let (m, transferred, kept') =
      read_transfer_length (block header payload w) (length payload) small kept.in_form
        (block_encoding header payload w) (block_length header payload w) in
    let reads = request-Reads s header payload path w fits in
    (
      delete host m,
      read_request_lem (message start fields payload) reads.first reads.others (b'/' ∷ s)
            (block header payload w) (message_end start fields payload) m (length payload)
            reads.as_lines (ap parse_request_line reads.start_line ∙ parse_request_line_path s path)
            (unfold block in reads.fields) (block-host header payload w) transferred
          ∙ ap (λ b. ok (record { request_uri = b'/' ∷ s; header = delete host m; body = b }))
              (read_body_message start fields payload fits
                ∙ ap (λ n. if leb n buffer_size then ok payload else err unexpected_eof)
                    (sym (length-message start fields payload))),
      kept_header header (block header payload w) m kept kept',
    )
