-- ===== src/Contexts.antt =====
-- context.Context with the metadata that package google.golang.org/grpc/metadata keeps in it: a
-- parameter of the code, with what the code relies on. Durations are int64 nanoseconds.
use notnets_grpc.Prelude.{◌≡◌, List, [], ◌∷◌, ◌++◌, Option, none, some, All, ℤ, if◌then◌else◌}
use notnets_grpc.Text.{Text, text_eq, lower}
use notnets_grpc.Dict.{Dict, Multi, values}

pub record Contexts : Type 1 where
  pub Context : Type 0
  -- metadata.FromOutgoingContext and NewOutgoingContext
  pub from_outgoing : Context → Option Multi
  pub new_outgoing : Context → Multi → Context
  -- metadata.FromIncomingContext and NewIncomingContext
  pub from_incoming : Context → Option Multi
  pub new_incoming : Context → Multi → Context
  -- metadata.New, and metadata.Join of two
  pub new : Dict Text → Multi
  pub join : Multi → Multi → Multi
  -- time.Until(d), for a context with the deadline d
  pub until_deadline : Context → Option ℤ
  -- context.WithTimeout, without its cancel function
  pub with_timeout : Context → ℤ → Context

abbrev pub InLowerCase : Multi → Type 0
InLowerCase = All (λ e. lower e.0 ≡ e.0)

-- The values that metadata.New gives a key: those of all its spellings.
abbrev pub new_values : Text → Dict Text → List Text
new_values j [] = []
new_values j ((k, v) ∷ md) = if text_eq (lower k) j then v ∷ new_values j md else new_values j md

-- The documented behaviour: metadata put into a context can be read from it, and what is put in
-- beside it changes nothing. Time does not pass during a call.
pub record ContextLaws (c : Contexts) : Type 0 where
  pub from-new_outgoing :
      (x : c.Context) (md : Multi)
      → InLowerCase md
      → c.from_outgoing (c.new_outgoing x md) ≡ some md
  pub from-new_incoming :
      (x : c.Context) (md : Multi)
      → InLowerCase md
      → c.from_incoming (c.new_incoming x md) ≡ some md
  pub until-new_outgoing :
      (x : c.Context) (md : Multi) → c.until_deadline (c.new_outgoing x md) ≡ c.until_deadline x
  pub until-new_incoming :
      (x : c.Context) (md : Multi) → c.until_deadline (c.new_incoming x md) ≡ c.until_deadline x
  pub from_incoming-with_timeout :
      (x : c.Context) (t : ℤ) → c.from_incoming (c.with_timeout x t) ≡ c.from_incoming x
  -- without an earlier deadline the new one holds
  pub until-with_timeout :
      (x : c.Context) (t : ℤ)
      → c.until_deadline x ≡ none
      → c.until_deadline (c.with_timeout x t) ≡ some t
  pub values-join : (a b : Multi) (j : Text) → values j (c.join a b) ≡ values j a ++ values j b
  pub values-new : (md : Dict Text) (j : Text) → values j (c.new md) ≡ new_values j md
  pub new-InLowerCase : (md : Dict Text) → InLowerCase (c.new md)
  pub join-InLowerCase : (a b : Multi) → InLowerCase a → InLowerCase b → InLowerCase (c.join a b)
  pub from_outgoing-InLowerCase :
      (x : c.Context) (md : Multi) → c.from_outgoing x ≡ some md → InLowerCase md
