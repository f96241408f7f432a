-- ===== src/Routing/RoundTrip.antt =====
-- A request reaches the service and the method that the caller named.
use notnets_grpc.Prelude.{
  ℕ, suc, ap, ◌∙◌, append_assoc, ◌≡◌, ◌≢◌, refl, [], ◌∷◌, ◌++◌, List, returns, panics, arith, All,
}
use notnets_grpc.Text.{Text, codes, text_eq, text_eq_iff}
use notnets_grpc.Routing.{
  slash, is_dull, or_root, second_and_third, segments, resolve, render, clean, req_url, split_n,
  service_and_method,
}

sample :
    (req_url (codes "notnets") (codes "/a.S/M") ≡ codes "/notnets/a.S/M")
    × (req_url (codes "notnets") (codes "../../x//./y/") ≡ codes "/x/y")
    × (req_url (codes "notnets") [] ≡ codes "/notnets")
    × (service_and_method (codes "/notnets/a.S/M") ≡ returns (codes "a.S", codes "M"))
    × (service_and_method (codes "/notnets/a.S/M/x") ≡ returns (codes "a.S", codes "M/x"))
    × (service_and_method (codes "/notnets/a.S") ≡ panics)
unfolding req_url segments resolve render service_and_method split_n
sample = (refl, refl, refl, refl, refl, refl)

-- A name that is one segment of a path and stays when the path is cleaned.
pub record IsSegment (t : Text) : Type 0 where
  pub some_byte : t ≢ []
  pub no_slash : All (λ c. c ≢ slash) t
  pub not_dot : t ≢ codes "."
  pub not_dots : t ≢ codes ".."

segments_of : (t : Text) → All (λ c. c ≢ slash) t → segments t ≡ t ∷ []
unfolding segments
segments_of [] h = refl
segments_of (c ∷ t) (other, others) = ground (arith, segments_of t others)

segments-append :
    (t rest : Text) → All (λ c. c ≢ slash) t → segments (t ++ slash ∷ rest) ≡ t ∷ segments rest
unfolding segments
segments-append [] rest h = refl
segments-append (c ∷ t) rest (other, others) = ground (arith, segments-append t rest others)

pub split_n-append :
    (n : ℕ) (t rest : Text)
    → All (λ c. c ≢ slash) t
    → split_n (suc (suc n)) (t ++ slash ∷ rest) ≡ t ∷ split_n (suc n) rest
unfolding split_n
split_n-append n [] rest h = refl
split_n-append n (c ∷ t) rest (other, others) = ground (arith, split_n-append n t rest others)

resolve_segment :
    (t : Text) (kept segs : List Text)
    → IsSegment t
    → resolve kept (t ∷ segs) ≡ resolve (t ∷ kept) segs
unfolding resolve is_dull
resolve_segment t kept segs s = ground (
  arith,
  s.some_byte,
  s.not_dot,
  s.not_dots,
  text_eq_iff t [],
  text_eq_iff t (codes "."),
  text_eq_iff t (codes ".."),
)

resolve_empty : (kept segs : List Text) → resolve kept ([] ∷ segs) ≡ resolve kept segs
unfolding resolve is_dull text_eq
resolve_empty kept segs = refl

module _ (network service method : Text) (n : IsSegment network) (s : IsSegment service)
    (m : IsSegment method) where
  abbrev url : Text
  url = slash ∷ (network ++ slash ∷ (service ++ slash ∷ method))

  segments_joined :
      segments (slash ∷ slash ∷ (network ++ slash ∷ slash ∷ (service ++ slash ∷ method)))
      ≡ [] ∷ [] ∷ network ∷ [] ∷ service ∷ method ∷ []
  unfolding segments
  segments_joined =
      ap (λ r. [] ∷ [] ∷ r)
        (segments-append network (slash ∷ (service ++ slash ∷ method)) n.no_slash
          ∙ ap (λ r. network ∷ [] ∷ r)
              (segments-append service method s.no_slash
                ∙ ap (λ r. service ∷ r) (segments_of method m.no_slash)))

  resolve_joined :
      resolve [] ([] ∷ [] ∷ network ∷ [] ∷ service ∷ method ∷ []) ≡ method ∷ service ∷ network ∷ []
  resolve_joined =
      rw
        (
          resolve_empty [] ([] ∷ network ∷ [] ∷ service ∷ method ∷ []),
          resolve_empty [] (network ∷ [] ∷ service ∷ method ∷ []),
          resolve_segment network [] ([] ∷ service ∷ method ∷ []) n,
          resolve_empty (network ∷ []) (service ∷ method ∷ []),
          resolve_segment service (network ∷ []) (method ∷ []) s,
          resolve_segment method (service ∷ network ∷ []) [] m,
        )
        (unfold resolve in refl)

  pub req_url_joined : req_url network (slash ∷ (service ++ slash ∷ method)) ≡ url
  unfolding req_url clean render or_root
  req_url_joined =
      ap (λ segs. or_root (render (resolve [] segs))) segments_joined
      ∙ ap (λ kept. or_root (render kept)) resolve_joined
      ∙ ap (λ t. slash ∷ t) (append_assoc network (slash ∷ service) (slash ∷ method))

  pub service_and_method-url : service_and_method url ≡ returns (service, method)
  unfolding service_and_method split_n
  service_and_method-url = ap second_and_third (
      split_n-append 1 network (service ++ slash ∷ method) n.no_slash
      ∙ ap (λ r. network ∷ r) (split_n-append 0 service method s.no_slash))
