-- ===== src/Dict.antt =====
-- Go maps with string keys, as association lists. The order of the list is the order in which a
-- `range` loop happens to visit the map.
pub mod Laws
use notnets_grpc.Prelude.{List, [], ◌∷◌, ◌++◌, Option, none, some, if◌then◌else◌}
use notnets_grpc.Text.{Text, text_eq}

abbrev pub Dict {ℓ} : Type ℓ → Type ℓ
Dict V = List (Text × V)

module _ {ℓ} {V : Type ℓ} where
  -- v, ok := m[k]
  unfoldable pub lookup : Text → Dict V → Option V
  lookup k [] = none
  lookup k ((j, v) ∷ m) = if text_eq j k then some v else lookup k m

  -- m[k] = v
  unfoldable pub insert : Text → V → Dict V → Dict V
  insert k v [] = (k, v) ∷ []
  insert k v ((j, w) ∷ m) = if text_eq j k then (j, v) ∷ m else (j, w) ∷ insert k v m

  -- delete(m, k)
  unfoldable pub delete : Text → Dict V → Dict V
  delete k [] = []
  delete k ((j, w) ∷ m) = let rest = delete k m in if text_eq j k then rest else (j, w) ∷ rest

-- The shape of http.Header and of metadata.MD.
abbrev pub Multi : Type 0
Multi = Dict (List Text)

-- m[k], where a missing key reads as nil
unfoldable pub values : Text → Multi → List Text
values k [] = []
values k ((j, vs) ∷ m) = if text_eq j k then vs else values k m

-- m[k] = append(m[k], vs...)
unfoldable pub append_at : Text → List Text → Multi → Multi
append_at k vs [] = (k, vs) ∷ []
append_at k vs ((j, ws) ∷ m) = if text_eq j k then (j, ws ++ vs) ∷ m else (j, ws) ∷ append_at k vs m
