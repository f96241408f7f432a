-- ===== src/Http/Response/RoundTrip.antt =====
-- A response that the server dumps is what the client reads, as far as the reader's buffer goes.
use notnets_grpc.Prelude.{
  ℕ, ◌^◌, ◌<◌, ◌≤◌, ◌≡◌, refl, sym, ap, ◌∙◌, true, false, List, [], ◌∷◌, ◌++◌, none, some, ok, err,
  arith, leb, if◌then◌else◌, length,
}
use notnets_grpc.Text.{Text, codes, text_eq, text_eq_iff, lower}
use notnets_grpc.Text.Decimal.{print}
use notnets_grpc.Dict.{Multi, values}
use notnets_grpc.Metadata.{is_binary, decode_value}
use notnets_grpc.Metadata.Gather.{IsDecodable}
use notnets_grpc.Http.{buffer_size}
use notnets_grpc.Http.Lines.{Line, lines_of}
use notnets_grpc.Http.Fields.{Field, is_excluded, message, all_bytes, read_fields}
use notnets_grpc.Http.Fields.Reading.{AllFields, add_fields}
use notnets_grpc.Http.Fields.Sorting.{field_values, field_values-fields_of}
use notnets_grpc.Http.Fields.Written.{
  IsWritable, fields_of-AllFields, DecodableFields, fields_of-DecodableFields,
}
use notnets_grpc.Http.Fields.Listing.{
  values-add_fields, add_fields-IsHeader, add_fields-IsDecodable,
}
use notnets_grpc.Http.Transfer.{
  content_length, transfer_encoding, cache_control, unexpected_eof, read_body, read_transfer,
}
use notnets_grpc.Http.Transfer.Keeping.{Keeps, Keeps-trans, read_transfer_length, length-IsField}
use notnets_grpc.Http.Messages.{
  head_length, message_end, Reads, read_message, read_body_message, length-message, literal-IsLine,
}
use notnets_grpc.Http.Response.{
  response_excluded, response_fields, status_line, dump_response, StatusCode, parse_status_line,
  has_no_body, body_or_rest, read_response,
}

-- The names under which the client may see other values than the server has set.
abbrev pub response_touched : List Text
response_touched = cache_control ∷ response_excluded

module _ (header : Multi) (payload : Text) (w : IsWritable header) where
  response_fields-AllFields : AllFields (response_fields header payload)
  unfolding response_fields
  response_fields-AllFields =
      (length-IsField (length payload), fields_of-AllFields response_excluded header w.entries)

  response_fields-DecodableFields :
      IsDecodable header → DecodableFields (response_fields header payload)
  unfolding response_fields
  response_fields-DecodableFields d = (
    (print (length payload), (unfold decode_value is_binary lower in refl)),
    fields_of-DecodableFields response_excluded header w.entries d,
  )

  block : Multi
  block = add_fields (response_fields header payload) []

  values-block :
      (j : Text)
      → values j block
        ≡ (if text_eq content_length j then print (length payload) ∷ [] else [])
          ++ (if is_excluded response_excluded j then [] else values j header)
  unfolding block response_fields
  values-block j =
      values-add_fields j (response_fields header payload) []
      ∙ (unfold values field_values in
          ground (arith, field_values-fields_of response_excluded j header w.map w.entries))

  block-Keeps : Keeps (λ j. is_excluded response_excluded j ≡ true) header block
  unfolding is_excluded
  block-Keeps = record {
    same_values = λ j other. ground (arith, values-block j, other);
    in_form =
        unfold block in
        add_fields-IsHeader (response_fields header payload) [] response_fields-AllFields tt;
    decodable = λ d.
        unfold block in
        add_fields-IsDecodable (response_fields header payload) []
          (response_fields-DecodableFields d) tt;
  }

  block_encoding : values transfer_encoding block ≡ []
  block_encoding = values-block transfer_encoding ∙ (unfold text_eq is_excluded in refl)

  block_length : values content_length block ≡ print (length payload) ∷ []
  block_length = values-block content_length ∙ (unfold text_eq is_excluded in refl)

  response-Reads :
      head_length status_line (response_fields header payload) ≤ buffer_size
      → Reads status_line (response_fields header payload) payload
  unfolding response_fields
  response-Reads fits =
      read_message status_line (content_length, print (length payload)) _ payload
        (literal-IsLine status_line (unfold all_bytes in refl)) response_fields-AllFields fits

-- ReadResponse, part by part.
read_response_lem :
    (text : Text) (l : Line) (ls : List Line) (code : StatusCode) (m : Multi) (end : Line)
    (m' : Multi) (n : ℕ)
    → lines_of text ≡ l ∷ ls
    → parse_status_line l.text ≡ ok code
    → has_no_body code ≡ false
    → read_fields none [] ls ≡ ok (m, end)
    → read_transfer m ≡ ok (m', some n)
    → read_response text ≡ ok (m', read_body n end)
unfolding body_or_rest read_response
read_response_lem text l ls code m end m' n a b c d e = rw (read_response, a, b, d, e, c) refl

-- The code of the status line is 200.
ok_line : parse_status_line status_line ≡ ok (b'2', codes "00")
unfolding parse_status_line
ok_line = refl

-- A response with a header that can be written and a head that fits into the reader's buffer: the
-- client reads its header but for a few names, and its body, whole if the response fits into the
-- buffer, and with an error otherwise.
pub read-dump_response :
    (header : Multi) (payload : Text)
    → IsWritable header
    → length payload < 2 ^ 63
    → head_length status_line (response_fields header payload) ≤ buffer_size
    → (header' : Multi) × (read_response (dump_response header payload)
        ≡ ok (
          header',
          if leb (length (dump_response header payload)) buffer_size
              then ok payload
              else err unexpected_eof,
        ))
      × Keeps (λ j. is_excluded response_touched j ≡ true) header header'
unfolding dump_response is_excluded
read-dump_response header payload w small fits =
    let fields : List Field = response_fields header payload in
    let kept = block-Keeps header payload w in
    let (m, transferred, kept') =
      read_transfer_length (block header payload w) (length payload) small kept.in_form
        (block_encoding header payload w) (block_length header payload w) in
    let reads = response-Reads header payload w fits in
    (
      m,
      read_response_lem (message status_line fields payload) reads.first reads.others
            (b'2', codes "00") (block header payload w) (message_end status_line fields payload) m
            (length payload) reads.as_lines (ap parse_status_line reads.start_line ∙ ok_line)
            (unfold has_no_body in refl) (unfold block in reads.fields) transferred
          ∙ ap (λ b. ok (m, b))
              (read_body_message status_line fields payload fits
                ∙ ap (λ n. if leb n buffer_size then ok payload else err unexpected_eof)
                    (sym (length-message status_line fields payload))),
      Keeps-trans header (block header payload w) m (λ j t. ground (arith, t))
          (λ j e. ground (arith, text_eq_iff cache_control j, e)) kept kept',
    )
