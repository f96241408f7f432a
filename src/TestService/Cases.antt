-- ===== src/TestService/Cases.antt =====
-- The test of Unary that channel_tests_service/channel_test_cases.go runs over a channel, with the
-- Unary of the generated client. A test is true if it ends without a call of t.Fatalf.
pub mod Checks
pub mod Passing
pub mod Served
pub mod Running
use notnets_grpc.Prelude.{
  ℕ, Bool, true, false, ◌&&◌, List, [], ◌∷◌, Option, none, some, Result, ok, err, Run, returns,
  run_bind,
}
use notnets_grpc.Text.{Text, codes, text_eq}
use notnets_grpc.Dict.{Dict, Multi, lookup, values}
use notnets_grpc.Contexts.{Contexts}
use notnets_grpc.Internal.CallOptions.{
  CallOption, header, trailer, Store, assign, PerRpcCredentials,
}
use notnets_grpc.Http.{Codec}
use notnets_grpc.Shm.{Library}
use notnets_grpc.Client.{NotnetsChannel, invoke}
use notnets_grpc.TestService.{Message, metadata_new}

-- testPayload, testOutgoingMd, testMdHeaders and testMdTrailers
pub record TestData : Type 0 where
  pub payload : Text
  pub outgoing : Dict Text
  pub headers : Dict Text
  pub trailers : Dict Text

abbrev pub test_payload : Text
test_payload = 100 ∷ 90 ∷ 80 ∷ 70 ∷ 60 ∷ 50 ∷ 40 ∷ 30 ∷ 20 ∷ 10 ∷ 0 ∷ []

abbrev pub test_data : TestData
test_data = record {
  payload = test_payload;
  outgoing =
      (codes "foo", codes "bar")
      ∷ (codes "baz", codes "bedazzle")
      ∷ (codes "pickle-bin", test_payload)
      ∷ [];
  headers =
      (codes "foo1", codes "bar4")
      ∷ (codes "baz2", codes "bedazzle5")
      ∷ (codes "pickle3-bin", test_payload)
      ∷ [];
  trailers =
      (codes "4foo4", codes "7bar7")
      ∷ (codes "5baz5", codes "8bedazzle8")
      ∷ (codes "6pickle6-bin", test_payload)
      ∷ [];
}

-- reqPrototype
abbrev pub request_prototype : TestData → Message
request_prototype d = record {
  headers = d.headers;
  trailers = d.trailers;
  payload = d.payload;
  code = 0;
  count = 0;
}

-- v2, ok := actual[k]; ok && bytes.Equal(v2, v)
pub is_text : Text → Option Text → Bool
is_text v none = false
is_text v (some u) = text_eq u v

-- checkRequestHeaders
unfoldable pub check_request_headers : Dict Text → Dict Text → Bool
unfolding is_text
check_request_headers [] actual = true
check_request_headers ((k, v) ∷ expected) actual =
    is_text v (lookup k actual) && check_request_headers expected actual

-- len(v2) == 1 && bytes.Equal([]byte(v2[0]), v)
pub is_only : Text → List Text → Bool
is_only v [] = false
is_only v (u ∷ []) = text_eq u v
is_only v (u ∷ u' ∷ us) = false

-- checkMetadata
unfoldable pub check_metadata : Dict Text → Multi → Bool
unfolding is_only
check_metadata [] actual = true
check_metadata ((k, v) ∷ expected) actual =
    is_only v (values k actual) && check_metadata expected actual

-- What testUnary checks of a call, whose variables hdr and tlr are in the store.
unfoldable pub check_reply : {P : Type 0} → TestData → ℕ → ℕ → Result Message → Store P → Bool
unfolding check_request_headers check_metadata
check_reply d hdr tlr (err e) st = false
check_reply d hdr tlr (ok rsp) st =
    text_eq d.payload rsp.payload
    && check_request_headers d.outgoing rsp.headers
    && check_metadata d.headers (st.mds hdr)
    && check_metadata d.trailers (st.mds tlr)

abbrev pub test_service : Text
test_service = codes "channel_tests_service.TestService"

abbrev pub unary_name : Text
unary_name = codes "Unary"

module _ {C P W : Type 0} (c : Contexts) (background : c.Context)
    (api : PerRpcCredentials c.Context C) (codec : Codec Message Message) (lib : Library W)
    (fuel : ℕ) (ch : NotnetsChannel) where
  -- Unary of testServiceClient
  pub unary_stub :
      c.Context → Message → List (CallOption C) → Store P → W → Run (Result Message × Store P × W)
  unary_stub ctx req opts st w =
      invoke c api codec lib fuel ch ctx (codes "/channel_tests_service.TestService/Unary") req opts
        st w

  -- testUnary, with the addresses of its variables hdr and tlr
  unfoldable pub test_unary : TestData → ℕ → ℕ → Store P → W → Run (Bool × Store P × W)
  unfolding unary_stub check_reply
  test_unary d hdr tlr st w =
      let ctx = c.new_outgoing background (metadata_new d.outgoing []) in
      let st1 : Store P = record st { mds = assign hdr [] (assign tlr [] st.mds) } in
      run_bind (unary_stub ctx (request_prototype d) (header hdr ∷ trailer tlr ∷ []) st1 w)
        λ (r, st', w'). returns (check_reply d hdr tlr r st', st', w')
