-- ===== src/Tests/Messages.antt =====
-- A small wire format for the messages of the test service, and a server with its Unary.
use notnets_grpc.Prelude.{
  ℕ, zero, suc, ◌≡◌, refl, false, List, [], ◌∷◌, ◌++◌, Option, none, some, Result, ok, err, outside,
  pos, length, take, drop,
}
use notnets_grpc.Text.{Text}
use notnets_grpc.Dict.{Dict}
use notnets_grpc.Http.{Codec}
use notnets_grpc.Services.{ServiceDesc, MethodDesc}
use notnets_grpc.Server.{NotnetsServer}
use notnets_grpc.Server.Handling.{Served}
use notnets_grpc.TestService.{Message}
use notnets_grpc.TestService.Handlers.{unary}
use notnets_grpc.TestService.Cases.{test_data, request_prototype, test_service, unary_name}
use notnets_grpc.Tests.World.{Plain, contexts}

-- A text behind its length.
unfoldable pub encode_text : Text → Text
encode_text t = length t ∷ t

unfoldable pub decode_text : Text → Text × Text
decode_text [] = ([], [])
decode_text (n ∷ s) = (take n s, drop n s)

unfoldable pub encode_entries : Dict Text → Text
unfolding encode_text
encode_entries [] = []
encode_entries ((k, v) ∷ m) = encode_text k ++ encode_text v ++ encode_entries m

unfoldable pub decode_entries : ℕ → Text → Dict Text × Text
unfolding decode_text
decode_entries zero s = ([], s)
decode_entries (suc n) s =
    let (k, s1) = decode_text s in
    let (v, s2) = decode_text s1 in let (m, s3) = decode_entries n s2 in ((k, v) ∷ m, s3)

unfoldable pub decode_dict : Text → Dict Text × Text
unfolding decode_entries
decode_dict [] = ([], [])
decode_dict (n ∷ s) = decode_entries n s

-- The code and the count are 0 in these messages.
unfoldable pub encode_message : Message → Text
unfolding encode_entries
encode_message m =
    encode_text m.payload
    ++ (length m.headers ∷ encode_entries m.headers)
    ++ (length m.trailers ∷ encode_entries m.trailers)

unfoldable pub decode_message : Text → Message
unfolding decode_dict
decode_message s =
    let (payload, s1) = decode_text s in
    let (headers, s2) = decode_dict s1 in
    let (trailers, s3) = decode_dict s2 in
    record { headers = headers; trailers = trailers; payload = payload; code = 0; count = 0 }

abbrev pub codec : Codec Message Message
codec = record { marshal = λ m. ok (encode_message m); unmarshal = λ s. ok (decode_message s) }

unfoldable pub marshal_reply : Option Message → Result Text
marshal_reply none = err (outside 1)
marshal_reply (some m) = ok (encode_message m)

abbrev pub server_codec : Codec (Option Message) Message
server_codec = record { marshal = marshal_reply; unmarshal = λ s. ok (decode_message s) }

-- The generated handler of Unary, without an interceptor.
unfoldable pub call_unary : Option ℕ → ℕ → Text → Plain → Text → Served (Option Message)
unfolding decode_message
call_unary interceptor handler method ctx s = unary (contexts.from_incoming ctx) (decode_message s)

abbrev pub unary_method : MethodDesc ℕ
unary_method = record { method_name = unary_name; handler = 1 }

abbrev pub unary_service : ServiceDesc ℕ
unary_service = record { service_name = test_service; methods = unary_method ∷ []; streams = [] }

abbrev pub test_server : NotnetsServer ℕ (List (ServiceDesc ℕ))
test_server = record {
  handlers = unary_service ∷ [];
  interceptor = none;
  lis = none;
  conns = [];
  stop = false;
  message_size = pos 256;
}

pub decoded_back :
    decode_message (encode_message (request_prototype test_data)) ≡ request_prototype test_data
unfolding encode_message decode_message encode_text decode_text
decoded_back = refl
