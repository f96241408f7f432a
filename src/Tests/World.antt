-- ===== src/Tests/World.antt =====
-- A context as a record of what is put into it: it has the behaviour that the code relies on.
use mathlib.Core.Option.{some-injective}
use notnets_grpc.Prelude.{
  ◌≡◌, refl, ap, subst, [], ◌∷◌, ◌++◌, Option, none, some, arith, ℤ, if◌then◌else◌,
}
use notnets_grpc.Text.{Text, text_eq, text_eq_iff, lower, lower-lower}
use notnets_grpc.Dict.{Dict, Multi, values}
use notnets_grpc.Contexts.{Contexts, ContextLaws, InLowerCase, new_values}

pub record Plain : Type 0 where
  pub outgoing : Option Multi
  pub incoming : Option Multi
  pub deadline : Option ℤ

lowered : Multi → Multi
lowered [] = []
lowered ((k, vs) ∷ md) = (lower k, vs) ∷ lowered md

lowered_lem : (md : Multi) → InLowerCase md → lowered md ≡ md
unfolding lowered
lowered_lem [] low = refl
lowered_lem ((k, vs) ∷ md) (low, lows) = ground (arith, lowered_lem md lows)

lowered-InLowerCase : (md : Multi) → InLowerCase (lowered md)
unfolding lowered
lowered-InLowerCase [] = tt
lowered-InLowerCase ((k, vs) ∷ md) = (lower-lower k, lowered-InLowerCase md)

unfoldable pub lowered_option : Option Multi → Option Multi
unfolding lowered
lowered_option none = none
lowered_option (some md) = some (lowered md)

lowered_option-InLowerCase :
    (o : Option Multi) (md : Multi) → lowered_option o ≡ some md → InLowerCase md
unfolding lowered_option
lowered_option-InLowerCase none md e = cc
lowered_option-InLowerCase (some m) md e =
    subst InLowerCase (some-injective _ _ e) (lowered-InLowerCase m)

add_front : Text → Text → Multi → Multi
add_front k v [] = (k, v ∷ []) ∷ []
add_front k v ((j, vs) ∷ md) = if text_eq j k then (j, v ∷ vs) ∷ md else (j, vs) ∷ add_front k v md

pub new : Dict Text → Multi
unfolding add_front
new [] = []
new ((k, v) ∷ md) = add_front (lower k) v (new md)

pub join : Multi → Multi → Multi
join [] b = b
join ((k, vs) ∷ a) b = (k, vs ++ values k b) ∷ join a b

values-add_front :
    (k v j : Text) (md : Multi)
    → values j (add_front k v md) ≡ (if text_eq k j then v ∷ values j md else values j md)
unfolding values add_front
values-add_front k v j [] = refl
values-add_front k v j ((i, vs) ∷ md) =
    ground (arith, text_eq_iff i k, text_eq_iff i j, text_eq_iff k j, values-add_front k v j md)

values-new : (md : Dict Text) (j : Text) → values j (new md) ≡ new_values j md
unfolding values new
values-new [] j = refl
values-new ((k, v) ∷ md) j =
    ground (arith, values-add_front (lower k) v j (new md), values-new md j)

values-join : (a b : Multi) (j : Text) → values j (join a b) ≡ values j a ++ values j b
unfolding values join
values-join [] b j = refl
values-join ((k, vs) ∷ a) b j = ground (arith, text_eq_iff k j, values-join a b j)

add_front-InLowerCase :
    (k v : Text) (md : Multi) → lower k ≡ k → InLowerCase md → InLowerCase (add_front k v md)
unfolding add_front
add_front-InLowerCase k v [] low lows = (low, tt)
add_front-InLowerCase k v ((j, vs) ∷ md) low lows = ground (arith, add_front-InLowerCase k v md low)

new-InLowerCase : (md : Dict Text) → InLowerCase (new md)
unfolding new
new-InLowerCase [] = tt
new-InLowerCase ((k, v) ∷ md) =
    add_front-InLowerCase (lower k) v (new md) (lower-lower k) (new-InLowerCase md)

join-InLowerCase : (a b : Multi) → InLowerCase a → InLowerCase b → InLowerCase (join a b)
unfolding join
join-InLowerCase [] b la lb = lb
join-InLowerCase ((k, vs) ∷ a) b (l, la) lb = (l, join-InLowerCase a b la lb)

abbrev pub contexts : Contexts
contexts = record {
  Context = Plain;
  from_outgoing = λ x. lowered_option x.outgoing;
  new_outgoing = λ x md. record x { outgoing = some md };
  from_incoming = λ x. lowered_option x.incoming;
  new_incoming = λ x md. record x { incoming = some md };
  new = new;
  join = join;
  until_deadline = λ x. x.deadline;
  with_timeout = λ x t. record x { deadline = some t };
}

pub context_laws : ContextLaws contexts
unfolding lowered_option
context_laws = record {
  from-new_outgoing = λ x md low. ap some (lowered_lem md low);
  from-new_incoming = λ x md low. ap some (lowered_lem md low);
  until-new_outgoing = λ x md. refl;
  until-new_incoming = λ x md. refl;
  from_incoming-with_timeout = λ x t. refl;
  until-with_timeout = λ x t free. refl;
  values-join = values-join;
  values-new = values-new;
  new-InLowerCase = new-InLowerCase;
  join-InLowerCase = join-InLowerCase;
  from_outgoing-InLowerCase = λ x. lowered_option-InLowerCase x.outgoing;
}

abbrev pub blank : Plain
blank = record { outgoing = none; incoming = none; deadline = none }
