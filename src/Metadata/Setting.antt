-- ===== src/Metadata/Setting.antt =====
-- Header.Set, as asMetadata sees it.
use notnets_grpc.Prelude.{◌≡◌, ◌≢◌, true, List, [], ◌∷◌, arith, if◌then◌else◌, Bool-cases, inl, inr}
use notnets_grpc.Text.{Text, text_eq, text_eq_iff, text_eq_refl, lower}
use notnets_grpc.Dict.{Multi, insert}
use notnets_grpc.Dict.Laws.{values-insert}
use notnets_grpc.Header.{is_name, canonical, set, get}
use notnets_grpc.Header.Canonical.{lower-canonical}
use notnets_grpc.Metadata.Gather.{meaning, gather, Decodes, IsDecodable}
use notnets_grpc.Metadata.Travel.{
  LacksName, IsHeader, gather-LacksName, spelling, canonical-IsCanonical,
}

-- Set replaces the values of the header's name, and leaves the others as they were.
module _ (k : Text) (canon : canonical (lower k) ≡ k) where
  insert-LacksName :
      (i : Text) (vs : List Text) (h : Multi)
      → lower k ≢ i
      → LacksName i h
      → LacksName i (insert k vs h)
  unfolding insert
  insert-LacksName i vs [] n l = (n, tt)
  insert-LacksName i vs ((j, ws) ∷ h) n l = ground (arith, insert-LacksName i vs h)

  pub insert-IsHeader : (vs : List Text) (h : Multi) → IsHeader h → IsHeader (insert k vs h)
  unfolding insert
  insert-IsHeader vs [] v = (canon, tt, tt)
  insert-IsHeader vs ((j, ws) ∷ h) v = ground (
    arith,
    text_eq_iff j k,
    spelling k canon j v.0,
    insert-IsHeader vs h,
    insert-LacksName (lower j) vs h,
  )

  gather-insert :
      (j v : Text) (h : Multi)
      → IsHeader h
      → gather j (insert k (v ∷ []) h)
        ≡ (if text_eq (lower k) j then meaning j v ∷ [] else gather j h)
  unfolding insert gather
  gather-insert j v [] c = ground (arith, text_eq_iff (lower k) j)
  gather-insert j v ((i, ws) ∷ h) c = ground (
    arith,
    text_eq_iff i k,
    text_eq_iff (lower i) j,
    text_eq_iff (lower k) j,
    spelling k canon i c.0,
    gather-LacksName j h,
    gather-insert j v h,
  )

pub insert-IsDecodable :
    (k v : Text) (h : Multi)
    → Decodes (lower k) v
    → IsDecodable h
    → IsDecodable (insert k (v ∷ []) h)
unfolding insert
insert-IsDecodable k v [] d ds = ((d, tt), tt)
insert-IsDecodable k v ((j, ws) ∷ h) d ds = elim (Bool-cases (text_eq j k)) [
  | inl e ↦ rw e ((rw ((text_eq_iff j k).0 e) d, tt), ds.1)
  | inr e ↦ rw e (ds.0, insert-IsDecodable k v h d ds.1)
]

module _ (k v : Text) (h : Multi) where
  pub get-set : get k (set k v h) ≡ v
  unfolding get set
  get-set = rw (values-insert, text_eq_refl)

  pub set-IsDecodable : Decodes (lower k) v → IsDecodable h → IsDecodable (set k v h)
  unfolding set
  set-IsDecodable d ds = insert-IsDecodable (canonical k) v h (rw lower-canonical d) ds

  module _ (named : is_name k ≡ true) (headers : IsHeader h) where
    pub set-IsHeader : IsHeader (set k v h)
    unfolding set
    set-IsHeader = insert-IsHeader (canonical k) (canonical-IsCanonical k named) (v ∷ []) h headers

    -- After Set the name has one value, and the other names have theirs.
    pub gather-set :
        (j : Text)
        → gather j (set k v h) ≡ (if text_eq (lower k) j then meaning j v ∷ [] else gather j h)
    unfolding set
    gather-set j = rw (
      gather-insert (canonical k) (canonical-IsCanonical k named) j v h headers,
      lower-canonical k,
    )
