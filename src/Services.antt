-- ===== src/Services.antt =====
-- Service and method descriptors: FindUnaryMethod and FindStreamingMethod of utils.go. The handler
-- map is that of package grpchan, a parameter.
use notnets_grpc.Prelude.{
  Run, ◌≡◌, ◌≢◌, ◌↔◌, List, [], ◌∷◌, ◌++◌, Option, none, some, arith, if◌then◌else◌, All,
  Bool-cases, inl, inr, ◌∙◌, ap,
}
use notnets_grpc.Text.{Text, text_eq, text_eq_iff}

-- grpc.MethodDesc and grpc.StreamDesc: a name and what is to be called.
pub record MethodDesc (H : Type 0) : Type 0 where
  pub method_name : Text
  pub handler : H

pub record StreamDesc (H : Type 0) : Type 0 where
  pub stream_name : Text
  pub handler : H

-- grpc.ServiceDesc, with the implementation that was registered for it
pub record ServiceDesc (H : Type 0) : Type 0 where
  pub service_name : Text
  pub methods : List (MethodDesc H)
  pub streams : List (StreamDesc H)

-- grpchan.HandlerMap: the empty map, RegisterService, which panics on a name that is taken, and
-- QueryService.
pub record HandlerMap (M H : Type 0) : Type 0 where
  pub no_handlers : M
  pub register : ServiceDesc H → M → Run M
  pub query : Text → M → Option (ServiceDesc H)

module _ {H : Type 0} where
  -- FindUnaryMethod
  unfoldable pub find_unary_method : Text → List (MethodDesc H) → Option (MethodDesc H)
  find_unary_method name [] = none
  find_unary_method name (m ∷ ms) =
      if text_eq m.method_name name then some m else find_unary_method name ms

  -- FindStreamingMethod
  unfoldable pub find_streaming_method : Text → List (StreamDesc H) → Option (StreamDesc H)
  find_streaming_method name [] = none
  find_streaming_method name (m ∷ ms) =
      if text_eq m.stream_name name then some m else find_streaming_method name ms

  -- The first method of that name: it stands in the list, and none before it has the name.
  abbrev pub IsFirst : Text → List (MethodDesc H) → MethodDesc H → Type 0
  IsFirst name ms m =
      (before : List (MethodDesc H)) × (after : List (MethodDesc H)) × (ms ≡ before ++ m ∷ after)
      × (m.method_name ≡ name)
      × All (λ d. d.method_name ≢ name) before

  find_unary_method-IsFirst :
      (name : Text) (ms : List (MethodDesc H)) (m : MethodDesc H)
      → find_unary_method name ms ≡ some m
      → IsFirst name ms m
  unfolding find_unary_method
  find_unary_method-IsFirst name [] m h = cc
  find_unary_method-IsFirst name (d ∷ ms) m h = elim (Bool-cases (text_eq d.method_name name)) [
    | inl e ↦ ([], ms, ground arith, ground (arith, text_eq_iff d.method_name name), tt)
    | inr e ↦
        let (before, after, split, named, others) =
          find_unary_method-IsFirst name ms m (rw e at h) in
        (
          d ∷ before,
          after,
          ap (λ r. d ∷ r) split,
          named,
          (ground (arith, text_eq_iff d.method_name name), others),
        )
  ]

  find_unary_method_first :
      (name : Text) (before after : List (MethodDesc H)) (m : MethodDesc H)
      → m.method_name ≡ name
      → All (λ d. d.method_name ≢ name) before
      → find_unary_method name (before ++ m ∷ after) ≡ some m
  unfolding find_unary_method
  find_unary_method_first name [] after m named others =
      ground (arith, text_eq_iff m.method_name name)
  find_unary_method_first name (d ∷ before) after m named (other, others) = ground (
    arith,
    text_eq_iff d.method_name name,
    find_unary_method_first name before after m named others,
  )

  find_unary_method-none :
      (name : Text) (ms : List (MethodDesc H))
      → (find_unary_method name ms ≡ none) ↔ All (λ d. d.method_name ≢ name) ms
  unfolding find_unary_method
  find_unary_method-none name [] = ground arith
  find_unary_method-none name (d ∷ ms) =
      ground (arith, text_eq_iff d.method_name name, find_unary_method-none name ms)

  -- FindUnaryMethod returns a descriptor exactly if it is the first in the slice with the name, and
  -- nil exactly if no descriptor has the name.
  pub find_unary_method_iff :
      (name : Text) (ms : List (MethodDesc H))
      → ((m : MethodDesc H) → (find_unary_method name ms ≡ some m) ↔ IsFirst name ms m)
        × ((find_unary_method name ms ≡ none) ↔ All (λ d. d.method_name ≢ name) ms)
  find_unary_method_iff name ms = (
    λ m. (
      find_unary_method-IsFirst name ms m,
      λ f. ap (find_unary_method name) f.2 ∙ find_unary_method_first name f.0 f.1 m f.3 f.4,
    ),
    find_unary_method-none name ms,
  )
