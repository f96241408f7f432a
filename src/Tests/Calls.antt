-- ===== src/Tests/Calls.antt =====
-- Call options, credentials, and the transport stream of a server's call.
use notnets_grpc.Prelude.{
  ℕ, ◌≡◌, ◌↔◌, refl, true, false, [], ◌∷◌, ◌++◌, List, some, ok, err, trailers_already_sent,
  transport_security, pos, All, if◌then◌else◌,
}
use notnets_grpc.Text.{Text, codes}
use notnets_grpc.Dict.{Multi}
use notnets_grpc.Contexts.{new_values}
use notnets_grpc.Internal.CallOptions.{
  CallOption, header, trailer, per_rpc_creds, max_recv_msg_size, CallOptions, no_options,
  get_call_options, Store, set_headers, set_trailers, set_peer, PerRpcCredentials,
  apply_per_rpc_creds,
}
use notnets_grpc.Internal.CallOptions.Collecting.{
  Collects, get_call_options-Collects, mem, set_all_lem,
}
use notnets_grpc.Internal.CallOptions.Credentials.{
  outgoing_values, Refuses, apply_per_rpc_creds_err, apply_per_rpc_creds_lem,
}
use notnets_grpc.Internal.TransportStream.{
  UnaryServerTransportStream, new_stream, get_headers, get_trailers,
}
use notnets_grpc.Internal.TransportStream.History.{
  Call, sets_header, sends_header, sets_trailer, finishes, IsGoCall, apply, run, held, all_values,
  headers_of, trailers_of, outcomes, results, held-run, results_lem,
}
use notnets_grpc.Tests.World.{Plain, contexts, context_laws, blank}

abbrev options : List (CallOption ℕ)
options = header 4 ∷ per_rpc_creds (some 7) ∷ trailer 5 ∷ header 6 ∷ max_recv_msg_size (pos 9) ∷ []

collected : get_call_options options ≡ record {
  headers = 4 ∷ 6 ∷ [];
  trailers = 5 ∷ [];
  peer = [];
  creds = some 7;
  max_recv = pos 9;
  max_send = pos 0;
}
unfolding get_call_options
collected = refl

get_call_options-Collects_example : Collects no_options options (get_call_options options)
get_call_options-Collects_example = get_call_options-Collects options

abbrev one_md : Multi
one_md = (codes "a", codes "1" ∷ []) ∷ []

abbrev store : Store ℕ
store = record { mds = λ _. []; peers = λ _. 0 }

set_all_lem_example :
    ((set_headers (get_call_options options) one_md store).mds 6
      ≡ (if mem 6 (get_call_options options).headers then one_md else store.mds 6))
    × ((set_headers (get_call_options options) one_md store).peers 6 ≡ store.peers 6)
    × ((set_trailers (get_call_options options) one_md store).mds 6
        ≡ (if mem 6 (get_call_options options).trailers then one_md else store.mds 6))
    × ((set_trailers (get_call_options options) one_md store).peers 6 ≡ store.peers 6)
    × ((set_peer (get_call_options options) 8 store).peers 6
        ≡ (if mem 6 (get_call_options options).peer then 8 else store.peers 6))
    × ((set_peer (get_call_options options) 8 store).mds 6 ≡ store.mds 6)
set_all_lem_example = set_all_lem (get_call_options options) one_md 8 store 6

-- Credentials that always want security: number 7 has metadata, the others fail.
abbrev credentials : PerRpcCredentials Plain ℕ
credentials = record {
  require_transport_security = λ _. true;
  get_request_metadata = λ n ctx uri. ok ((codes "Token", codes "x") ∷ []);
}

abbrev with_creds : CallOptions ℕ
with_creds = record no_options { creds = some 7 }

apply_per_rpc_creds_lem_example :
    (ctx' : Plain) × (apply_per_rpc_creds contexts credentials blank with_creds
        (codes "shm:0/x")
        true
      ≡ ok ctx')
    × ((j : Text)
        → outgoing_values contexts ctx' j
          ≡ outgoing_values contexts blank j ++ new_values j ((codes "Token", codes "x") ∷ []))
apply_per_rpc_creds_lem_example =
    apply_per_rpc_creds_lem contexts credentials context_laws blank with_creds 7 (codes "shm:0/x")
      ((codes "Token", codes "x") ∷ []) refl refl

apply_per_rpc_creds_err_example :
    (apply_per_rpc_creds contexts credentials blank with_creds [] false ≡ err transport_security)
    ↔ ((creds : ℕ) × (with_creds.creds ≡ some creds)
        × Refuses contexts credentials blank creds [] false transport_security)
apply_per_rpc_creds_err_example =
    apply_per_rpc_creds_err contexts credentials blank with_creds [] false transport_security

abbrev calls : List Call
calls =
    sets_header one_md
    ∷ sets_trailer one_md
    ∷ sends_header one_md
    ∷ sets_header one_md
    ∷ finishes
    ∷ sets_trailer one_md
    ∷ []

calls-IsGoCall : All IsGoCall calls
calls-IsGoCall = ((tt, tt), ((tt, tt), ((tt, tt), ((tt, tt), (tt, ((tt, tt), tt))))))

held-run_example :
    (held (codes "a") (get_headers (run (new_stream []) calls))
      ≡ all_values (codes "a") (headers_of calls))
    × (held (codes "a") (get_trailers (run (new_stream []) calls))
        ≡ all_values (codes "a") (trailers_of calls))
held-run_example = held-run [] calls (codes "a") calls-IsGoCall

results_lem_example : results (new_stream []) calls ≡ outcomes false false calls
results_lem_example = results_lem (new_stream []) calls

-- A stream whose call is over.
abbrev finished : UnaryServerTransportStream
finished = record (new_stream (codes "Unary")) { hdrs_sent = true; tlrs_sent = true }

late : (apply finished (sets_trailer one_md)).0 ≡ err trailers_already_sent
unfolding apply
late = refl
