-- ===== src/Routing/Parts.antt =====
-- What handleMethod of server.go takes from a path: the parts between its slashes.
use notnets_grpc.Prelude.{
  ℕ, zero, suc, ◌≤◌, ◌<◌, ◌≡◌, ◌≢◌, ◌⊎◌, ◌↔◌, inl, inr, Run, subst, refl, sym, ap, ◌∙◌, arith, [],
  ◌∷◌, ◌++◌, drop, returns, panics, All, ◌==◌, Bool-cases, if◌then◌else◌,
}
use notnets_grpc.Text.{Text}
use notnets_grpc.Routing.{slash, split_n, second_and_third, service_and_method}
use notnets_grpc.Routing.RoundTrip.{split_n-append}

pub slashes : Text → ℕ
slashes [] = 0
slashes (c ∷ s) = let rest = slashes s in if c == slash then suc rest else rest

abbrev pub HasNoSlash : Text → Type 0
HasNoSlash = All (λ c. c ≢ slash)

-- A first byte, a part, the service and the method, with slashes between them.
pub record IsRoute (uri service method : Text) : Type 0 where
  pub head : ℕ
  pub network : Text
  pub parts : uri ≡ head ∷ (network ++ slash ∷ (service ++ slash ∷ method))
  pub network_part : HasNoSlash network
  pub service_part : HasNoSlash service

slashes_none : (s : Text) → HasNoSlash s → slashes s ≡ 0
unfolding slashes
slashes_none [] h = refl
slashes_none (c ∷ s) (other, h) = ground (arith, slashes_none s h)

slashes-append : (a b : Text) → HasNoSlash a → slashes (a ++ slash ∷ b) ≡ suc (slashes b)
unfolding slashes
slashes-append [] b h = refl
slashes-append (c ∷ a) b (other, h) = ground (arith, slashes-append a b h)

split_n-whole : (n : ℕ) (s : Text) → HasNoSlash s → split_n (suc n) s ≡ s ∷ []
unfolding split_n
split_n-whole zero s h = refl
split_n-whole (suc n) [] h = refl
split_n-whole (suc n) (c ∷ s) (other, h) = ground (arith, split_n-whole (suc n) s h)

-- A text up to its first slash.
first_slash :
    (s : Text) → HasNoSlash s ⊎ ((a : Text) × (b : Text) × (s ≡ a ++ slash ∷ b) × HasNoSlash a)
first_slash [] = inl tt
first_slash (c ∷ s) = elim (Bool-cases (c == slash)) [
  | inl here ↦ inr ([], s, ap (λ d. d ∷ s) (ground (arith, here)), tt)
  | inr away ↦ elim (first_slash s) [
    | inl none_there ↦ inl (ground (arith, away), none_there)
    | inr (a, b, e, h) ↦ inr (c ∷ a, b, ap (λ t. c ∷ t) e, (ground (arith, away), h))
  ]
]

-- Either there are too few parts, or the path is a route.
IsRoute-cases :
    (c : ℕ) (s : Text)
    → ((service_and_method (c ∷ s) ≡ panics) × (slashes s < 2))
      ⊎ ((service : Text) × (method : Text) × (service_and_method (c ∷ s)
            ≡ returns (service, method))
          × IsRoute (c ∷ s) service method
          × (2 ≤ slashes s))
unfolding service_and_method
IsRoute-cases c s = elim (first_slash s) [
  | inl whole ↦
      inl (ap second_and_third (split_n-whole 2 s whole), omega (arith, slashes_none s whole))
  | inr (a, b, e, h) ↦ elim (first_slash b) [
    | inl whole ↦ inl (
      ap (λ t. second_and_third (split_n 3 t)) e
          ∙ ap second_and_third
              (split_n-append 1 a b h ∙ ap (λ r. a ∷ r) (split_n-whole 1 b whole)),
      omega (arith, ap slashes e, slashes-append a b h, slashes_none b whole),
    )
    | inr (service, method, e', h') ↦ inr (
      service,
      method,
      ap (λ t. second_and_third (split_n 3 t)) e
          ∙ ap second_and_third (
              split_n-append 1 a b h
              ∙ ap (λ t. a ∷ split_n 2 t) e'
              ∙ ap (λ r. a ∷ r) (split_n-append 0 service method h')),
      record {
        head = c;
        network = a;
        parts = ap (λ t. c ∷ t) (e ∙ ap (λ t. a ++ slash ∷ t) e');
        network_part = h;
        service_part = h';
      },
      omega (
        arith,
        ap slashes e,
        slashes-append a b h,
        ap slashes e',
        slashes-append service method h',
      ),
    )
  ]
]

pub service_and_method_panics_iff :
    (uri : Text) → (service_and_method uri ≡ panics) ↔ (slashes (drop 1 uri) < 2)
unfolding slashes
service_and_method_panics_iff [] = (λ e. omega arith, λ h. (unfold service_and_method in refl))
service_and_method_panics_iff (c ∷ s) = elim (IsRoute-cases c s) [
  | inl (panicked, few) ↦ (λ e. few, λ h. panicked)
  | inr (service, method, routed, route, many) ↦
      (λ e. absurd (cc), λ h. absurd (omega (arith, many)))
]

IsRoute-of :
    (uri service method : Text)
    → service_and_method uri ≡ returns (service, method)
    → IsRoute uri service method
IsRoute-of [] service method e =
    absurd
      (let none_there : service_and_method [] ≡ panics = (unfold service_and_method in refl) in cc)
IsRoute-of (c ∷ s) service method e = elim (IsRoute-cases c s) [
  | inl (panicked, few) ↦ absurd (cc)
  | inr (service', method', routed, route, many) ↦
      let same : ◌≡◌ {A = Run (Text × Text)} (returns (service', method'))
          (returns (service, method)) =
        sym routed ∙ e in
      let same_service : service' ≡ service = cc in
      let same_method : method' ≡ method = cc in
      subst (IsRoute (c ∷ s) service) same_method
        (subst (λ t. IsRoute (c ∷ s) t method') same_service route)
]

of_route :
    (uri service method : Text)
    → IsRoute uri service method
    → service_and_method uri ≡ returns (service, method)
unfolding service_and_method
of_route uri service method r =
    ap service_and_method r.parts
    ∙ ap second_and_third (
        split_n-append 1 r.network (service ++ slash ∷ method) r.network_part
        ∙ ap (λ parts. r.network ∷ parts) (split_n-append 0 service method r.service_part))

pub service_and_method-IsRoute :
    (uri service method : Text)
    → (service_and_method uri ≡ returns (service, method)) ↔ IsRoute uri service method
service_and_method-IsRoute uri service method =
    (IsRoute-of uri service method, of_route uri service method)
