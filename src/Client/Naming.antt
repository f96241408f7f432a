-- ===== src/Client/Naming.antt =====
-- From the method's name to the request's URI, in Invoke of client.go, and from there to the names of
-- the service and the method, in handleMethod of server.go.
use notnets_grpc.Prelude.{◌≡◌, refl, ap, ◌∙◌, true, ◌∷◌, ◌++◌, ok, returns, All-append}
use notnets_grpc.Text.{Text, codes}
use notnets_grpc.Routing.{slash, req_url, service_and_method}
use notnets_grpc.Routing.RoundTrip.{IsSegment, req_url_joined, service_and_method-url}
use notnets_grpc.Http.{is_path_byte}
use notnets_grpc.Http.Url.{IsPath, new_request, new_request_path}
use notnets_grpc.Http.Url.Requests.{accepts_uri, accepts_uri_path}
use notnets_grpc.Client.Requesting.{full_name}

module _ (network service method : Text) where
  abbrev path : Text
  path = network ++ slash ∷ (service ++ slash ∷ method)

  path-IsPath : IsPath network → IsPath service → IsPath method → IsPath (slash ∷ path)
  path-IsPath hn hs hm = (
    refl,
    All-append (λ b. is_path_byte b ≡ true) network (slash ∷ (service ++ slash ∷ method)) hn
        (refl, All-append (λ b. is_path_byte b ≡ true) service (slash ∷ method) hs (refl, hm)),
  )

  -- NewRequest makes of the URL for a method named "/service/method" a request URI that ReadRequest
  -- accepts and that is routed to that service and that method: over any network, where the three are
  -- not empty, have no slash, are neither "." nor "..", and consist of bytes that a path shows as
  -- they are.
  pub request_uri_lem :
      IsSegment network
      → IsSegment service
      → IsSegment method
      → IsPath network
      → IsPath service
      → IsPath method
      → (uri : Text) × (new_request (req_url network (full_name service method)) ≡ ok uri)
        × (accepts_uri (codes "POST") uri ≡ true)
        × (service_and_method uri ≡ returns (service, method))
  request_uri_lem n s m hn hs hm =
      let clean = path-IsPath hn hs hm in
      (
        slash ∷ path,
        ap new_request (req_url_joined network service method n s m)
            ∙ new_request_path (slash ∷ path) clean,
        accepts_uri_path (codes "POST") path clean,
        service_and_method-url network service method n s m,
      )
