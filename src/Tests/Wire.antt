-- ===== src/Tests/Wire.antt =====
-- Messages as net/http writes and reads them.
use notnets_grpc.Http.Url.{unescape}
use notnets_grpc.Prelude.{◌≡◌, refl, [], ◌∷◌, ◌++◌, ok}
use notnets_grpc.Text.{Text, codes, text_eq}
use notnets_grpc.Text.Decimal.{parse_uint63}
use notnets_grpc.Dict.{Multi, values, append_at}
use notnets_grpc.Header.{is_name, is_token, canonical}
use notnets_grpc.Http.Spaces.{clean_value}
use notnets_grpc.Http.Fields.{add_line}
use notnets_grpc.Http.Transfer.{read_body}
use notnets_grpc.Http.Request.{write_request, read_request}
use notnets_grpc.Http.Response.{dump_response, read_response}
use notnets_grpc.Http.Url.{new_request}

abbrev header : Multi
header =
    (codes "K", codes "v" ∷ codes " a\nb " ∷ [])
    ∷ (codes "Host", codes "x" ∷ [])
    ∷ (codes "B c", codes "x" ∷ [])
    ∷ (codes "A", codes "" ∷ [])
    ∷ []

abbrev line_end : Text
line_end = 13 ∷ 10 ∷ []

abbrev written : Text
written =
    codes "POST /notnets/S/M HTTP/1.1"
    ++ line_end
    ++ codes "Host: "
    ++ line_end
    ++ codes "User-Agent: Go-http-client/1.1"
    ++ line_end
    ++ codes "Content-Length: 2"
    ++ line_end
    ++ codes "A: "
    ++ line_end
    ++ codes "K: v"
    ++ line_end
    ++ codes "K: a b"
    ++ line_end
    ++ line_end
    ++ codes "hi"

write_test : write_request (codes "/notnets/S/M") header (codes "hi") ≡ written
unfolding write_request text_eq is_name is_token clean_value
write_test = refl

read_test :
    read_request written
    ≡ ok (record {
      request_uri = codes "/notnets/S/M";
      header =
          (codes "User-Agent", codes "Go-http-client/1.1" ∷ [])
          ∷ (codes "Content-Length", codes "2" ∷ [])
          ∷ (codes "A", codes "" ∷ [])
          ∷ (codes "K", codes "v" ∷ codes "a b" ∷ [])
          ∷ [];
      body = ok (codes "hi");
    })
unfolding read_request is_name is_token add_line values append_at canonical parse_uint63 read_body
    unescape
read_test = refl

dump_test :
    read_response (dump_response header (codes "hi"))
    ≡ ok (
      (codes "Content-Length", codes "2" ∷ [])
          ∷ (codes "A", codes "" ∷ [])
          ∷ (codes "Host", codes "x" ∷ [])
          ∷ (codes "K", codes "v" ∷ codes "a b" ∷ [])
          ∷ [],
      ok (codes "hi"),
    )
unfolding read_response dump_response is_name is_token clean_value add_line values append_at
    canonical parse_uint63 read_body
dump_test = refl

url_test : new_request (codes "/a b/%41?q#f") ≡ ok (codes "/a%20b/A?q")
unfolding new_request
url_test = refl
