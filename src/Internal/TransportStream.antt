-- ===== src/Internal/TransportStream.antt =====
-- internal/transport_stream.go: UnaryServerTransportStream. Each method holds the mutex from its
-- start to its return, so a method is one step.
pub mod History
use notnets_grpc.Prelude.{
  Bool, true, false, List, [], ◌∷◌, Option, none, some, Result, ok, err, headers_already_sent,
  trailers_already_sent, if◌then◌else◌,
}
use notnets_grpc.Text.{Text}
use notnets_grpc.Dict.{Multi, append_at}

-- `none` is a nil map.
pub record UnaryServerTransportStream : Type 0 where
  pub name : Text
  pub hdrs : Option Multi
  pub hdrs_sent : Bool
  pub tlrs : Option Multi
  pub tlrs_sent : Bool

abbrev pub new_stream : Text → UnaryServerTransportStream
new_stream name = record {
  name = name;
  hdrs = none;
  hdrs_sent = false;
  tlrs = none;
  tlrs_sent = false;
}

-- Method
pub method : UnaryServerTransportStream → Text
method sts = sts.name

-- Finish
pub finish : UnaryServerTransportStream → UnaryServerTransportStream
finish sts = record sts { hdrs_sent = true; tlrs_sent = true }

-- for k, v := range md { m[k] = append(m[k], v...) }
unfoldable pub merge : Multi → Multi → Multi
merge [] m = m
merge ((k, vs) ∷ md) m = merge md (append_at k vs m)

unfoldable pub or_empty : Option Multi → Multi
or_empty none = []
or_empty (some m) = m

-- setHeaderLocked
pub set_header_locked :
    UnaryServerTransportStream → Multi → Result (Unit {0}) × UnaryServerTransportStream
unfolding or_empty
set_header_locked sts md =
    if sts.hdrs_sent
    then (err headers_already_sent, sts)
    else (ok tt, record sts { hdrs = some (merge md (or_empty sts.hdrs)) })

-- SetHeader
pub set_header : UnaryServerTransportStream → Multi → Result (Unit {0}) × UnaryServerTransportStream
unfolding set_header_locked
set_header sts md = set_header_locked sts md

mark_sent :
    Result (Unit {0}) × UnaryServerTransportStream → Result (Unit {0}) × UnaryServerTransportStream
mark_sent (err e, sts) = (err e, sts)
mark_sent (ok _, sts) = (ok tt, record sts { hdrs_sent = true })

-- SendHeader
pub send_header :
    UnaryServerTransportStream → Multi → Result (Unit {0}) × UnaryServerTransportStream
unfolding set_header_locked mark_sent
send_header sts md = mark_sent (set_header_locked sts md)

-- GetHeaders
unfoldable pub get_headers : UnaryServerTransportStream → Option Multi
get_headers sts = sts.hdrs

-- SetTrailer
pub set_trailer :
    UnaryServerTransportStream → Multi → Result (Unit {0}) × UnaryServerTransportStream
unfolding or_empty
set_trailer sts md =
    if sts.tlrs_sent
    then (err trailers_already_sent, sts)
    else (ok tt, record sts { tlrs = some (merge md (or_empty sts.tlrs)) })

-- GetTrailers
unfoldable pub get_trailers : UnaryServerTransportStream → Option Multi
get_trailers sts = sts.tlrs
