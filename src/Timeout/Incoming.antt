-- ===== src/Timeout/Incoming.antt =====
-- The incoming metadata of a context that contextFromHeaders of server.go makes.
use notnets_grpc.Prelude.{
  ◌≡◌, refl, sym, ap, ◌∙◌, Option, some, none, ok, ℤ, >>=-eq-ok, ok-injective,
}
use notnets_grpc.Dict.{Multi}
use notnets_grpc.Contexts.{Contexts, ContextLaws}
use notnets_grpc.Metadata.{as_metadata}
use notnets_grpc.Metadata.Split.{as_metadata-IsLowerMap}
use notnets_grpc.Timeout.{apply_timeout, timeout_name, timeout_of, context_from_headers}
use notnets_grpc.Header.{get}

from_incoming-apply_timeout :
    (c : Contexts)
    → ContextLaws c
    → (x : c.Context) (o : Option ℤ) → c.from_incoming (apply_timeout c x o) ≡ c.from_incoming x
unfolding apply_timeout
from_incoming-apply_timeout c laws x none = refl
from_incoming-apply_timeout c laws x (some t) = laws.from_incoming-with_timeout x t

-- What asMetadata makes of the headers.
pub from_incoming-context_from_headers :
    (c : Contexts)
    → ContextLaws c
    → (parent ctx : c.Context) (h : Multi) → context_from_headers c parent h ≡ ok ctx
    → (got : Multi) × (as_metadata h ≡ ok got) × (c.from_incoming ctx ≡ some got)
unfolding context_from_headers
from_incoming-context_from_headers c laws parent ctx h decoded =
    let (got, e, made) = >>=-eq-ok (as_metadata h) _ decoded in
    let o = timeout_of (get timeout_name h) in
    (
      got,
      e,
      ap c.from_incoming (sym (ok-injective _ _ made))
          ∙ from_incoming-apply_timeout c laws (c.new_incoming parent got) o
          ∙ laws.from-new_incoming parent got (as_metadata-IsLowerMap h got e).low,
    )
