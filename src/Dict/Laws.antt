-- ===== src/Dict/Laws.antt =====
-- What reading a map gives after a write, and which keys a map has.
use notnets_grpc.Prelude.{◌≡◌, ◌≢◌, refl, List, [], ◌∷◌, ◌++◌, none, some, arith, if◌then◌else◌}
use notnets_grpc.Text.{Text, text_eq, text_eq_iff}
use notnets_grpc.Dict.{Dict, lookup, insert, delete, Multi, values, append_at}

-- No entry has the key.
abbrev pub Lacks {ℓ} : {V : Type ℓ} → Text → Dict V → Type 0
Lacks k [] = Unit
Lacks k ((j, _) ∷ m) = (j ≢ k) × Lacks k m

-- A Go map: no key twice.
abbrev pub IsMap {ℓ} : {V : Type ℓ} → Dict V → Type 0
IsMap [] = Unit
IsMap ((k, _) ∷ m) = Lacks k m × IsMap m

module _ {ℓ} {V : Type ℓ} where
  pub lookup-insert :
      (k j : Text) (v : V) (m : Dict V)
      → lookup j (insert k v m) ≡ (if text_eq k j then some v else lookup j m)
  unfolding lookup insert
  lookup-insert k j v [] = refl
  lookup-insert k j v ((i, w) ∷ m) =
      ground (arith, text_eq_iff k j, text_eq_iff i k, text_eq_iff i j, lookup-insert k j v m)

  pub lookup-delete :
      (k j : Text) (m : Dict V) → lookup j (delete k m) ≡ (if text_eq k j then none else lookup j m)
  unfolding lookup delete
  lookup-delete k j [] = ground arith
  lookup-delete k j ((i, w) ∷ m) =
      ground (arith, text_eq_iff k j, text_eq_iff i k, text_eq_iff i j, lookup-delete k j m)

  pub lookup-Lacks : (k : Text) (m : Dict V) → Lacks k m → lookup k m ≡ none
  unfolding lookup
  lookup-Lacks k [] h = refl
  lookup-Lacks k ((i, w) ∷ m) h = ground (arith, text_eq_iff i k, lookup-Lacks k m)

  pub insert-Lacks : (i k : Text) (v : V) (m : Dict V) → k ≢ i → Lacks i m → Lacks i (insert k v m)
  unfolding insert
  insert-Lacks i k v [] h l = (h, tt)
  insert-Lacks i k v ((j, w) ∷ m) h l = ground (arith, insert-Lacks i k v m)

  pub insert-IsMap : (k : Text) (v : V) (m : Dict V) → IsMap m → IsMap (insert k v m)
  unfolding insert
  insert-IsMap k v [] h = (tt, tt)
  insert-IsMap k v ((j, w) ∷ m) h =
      ground (arith, text_eq_iff j k, insert-IsMap k v m, insert-Lacks j k v m)

-- `values` is `lookup` with nil for a missing key.
pub values-lookup :
    (k : Text) (m : Multi) → values k m ≡ elim (lookup k m) [ none ↦ [] | some vs ↦ vs ]
unfolding values lookup
values-lookup k [] = refl
values-lookup k ((j, vs) ∷ m) = ground (arith, values-lookup k m)

pub values-append_at :
    (k j : Text) (vs : List Text) (m : Multi)
    → values j (append_at k vs m) ≡ (if text_eq k j then values j m ++ vs else values j m)
unfolding values append_at
values-append_at k j vs [] = refl
values-append_at k j vs ((i, ws) ∷ m) =
    ground (arith, text_eq_iff k j, text_eq_iff i k, text_eq_iff i j, values-append_at k j vs m)

pub values-insert :
    (k j : Text) (vs : List Text) (m : Multi)
    → values j (insert k vs m) ≡ (if text_eq k j then vs else values j m)
unfolding values insert
values-insert k j vs [] = refl
values-insert k j vs ((i, ws) ∷ m) =
    ground (arith, text_eq_iff k j, text_eq_iff i k, text_eq_iff i j, values-insert k j vs m)

pub values-delete :
    (k j : Text) (m : Multi) → values j (delete k m) ≡ (if text_eq k j then [] else values j m)
unfolding values delete
values-delete k j [] = ground arith
values-delete k j ((i, ws) ∷ m) =
    ground (arith, text_eq_iff k j, text_eq_iff i k, text_eq_iff i j, values-delete k j m)

pub values-Lacks : (k : Text) (m : Multi) → Lacks k m → values k m ≡ []
unfolding values
values-Lacks k [] h = refl
values-Lacks k ((i, w) ∷ m) h = ground (arith, text_eq_iff i k, values-Lacks k m)

pub append_at-Lacks :
    (i k : Text) (vs : List Text) (m : Multi) → k ≢ i → Lacks i m → Lacks i (append_at k vs m)
unfolding append_at
append_at-Lacks i k vs [] h l = (h, tt)
append_at-Lacks i k vs ((j, w) ∷ m) h l = ground (arith, append_at-Lacks i k vs m)

pub append_at-IsMap : (k : Text) (vs : List Text) (m : Multi) → IsMap m → IsMap (append_at k vs m)
unfolding append_at
append_at-IsMap k vs [] h = (tt, tt)
append_at-IsMap k vs ((j, w) ∷ m) h =
    ground (arith, text_eq_iff j k, append_at-IsMap k vs m, append_at-Lacks j k vs m)
