-- ===== src/Http/Transfer/Keeping.antt =====
-- What the reader does to a header after it is read leaves most of it as it was.
use notnets_grpc.Prelude.{
  ℕ, ◌^◌, ◌<◌, ◌≡◌, ◌≢◌, ◌⊎◌, subst, refl, sym, ◌∙◌, List, [], ◌∷◌, some, ok, arith, All,
  Bool-cases, Option-cases, inl, inr,
}
use notnets_grpc.Text.{Text, codes, text_eq, text_eq_iff, ne_of_text_eq, lower}
use notnets_grpc.Text.Decimal.{print, print-All, parse_uint63-print}
use notnets_grpc.Dict.{Multi, lookup, insert, delete, values}
use notnets_grpc.Dict.Laws.{values-insert, values-delete}
use notnets_grpc.Header.{is_name, is_token, canonical}
use notnets_grpc.Metadata.{is_binary, decode_value}
use notnets_grpc.Metadata.Gather.{IsDecodable}
use notnets_grpc.Metadata.Travel.{LacksName, IsHeader}
use notnets_grpc.Metadata.Setting.{insert-IsHeader, insert-IsDecodable}
use notnets_grpc.Http.Spaces.{trim, IsSolid, solid-IsValue}
use notnets_grpc.Http.Fields.Reading.{IsField}
use notnets_grpc.Http.Transfer.{
  content_length, transfer_encoding, cache_control, no_cache, all_are, to_result, add_no_cache,
  fix_pragma, fix_pragma_cache_control, with_encoding, fix_length, dedupe_length, read_transfer,
}

-- The header is well formed, its values decode, and but for some names it has the values of another.
pub record Keeps (touched : Text → Type 0) (header header' : Multi) : Type 0 where
  pub same_values : (j : Text) → (touched j → ⊥) → values j header' ≡ values j header
  pub in_form : IsHeader header'
  pub decodable : IsDecodable header → IsDecodable header'

pub Keeps-trans :
    {touched touched' both : Text → Type 0} (h h' h'' : Multi)
    → ((j : Text) → touched j → both j)
    → ((j : Text) → touched' j → both j)
    → Keeps touched h h'
    → Keeps touched' h' h''
    → Keeps both h h''
Keeps-trans h h' h'' into into' k k' = record {
  same_values = λ j other.
      k'.same_values j (λ t. other (into' j t)) ∙ k.same_values j (λ t. other (into j t));
  in_form = k'.in_form;
  decodable = λ d. k'.decodable (k.decodable d);
}

-- With one more entry, or without.
fix-cases :
    (m : Multi) (vs : List Text)
    → (fix_pragma m vs ≡ m) ⊎ (fix_pragma m vs ≡ insert cache_control (no_cache ∷ []) m)
unfolding fix_pragma
fix-cases m [] = inl refl
fix-cases m (v ∷ vs) = elim (Bool-cases (text_eq v no_cache)) [
  | inr e ↦ inl (rw e refl)
  | inl e ↦ elim (Option-cases (lookup cache_control m)) [
    | inl n ↦ inr (rw (e, n) (unfold add_no_cache in refl))
    | inr (_, n) ↦ inl (rw (e, n) (unfold add_no_cache in refl))
  ]
]

insert-Keeps :
    (m : Multi)
    → IsHeader m
    → Keeps (λ j. cache_control ≡ j) m (insert cache_control (no_cache ∷ []) m)
insert-Keeps m h = record {
  same_values = λ j other.
      ground (
        arith,
        values-insert cache_control j (no_cache ∷ []) m,
        text_eq_iff cache_control j,
        other,
      );
  in_form =
      insert-IsHeader cache_control (unfold canonical is_name is_token lower in refl)
        (no_cache ∷ []) m h;
  decodable =
      insert-IsDecodable cache_control no_cache m
        (no_cache, (unfold is_binary decode_value lower in refl));
}

fix_pragma_cache_control-Keeps :
    (m : Multi) → IsHeader m → Keeps (λ j. cache_control ≡ j) m (fix_pragma_cache_control m)
unfolding fix_pragma_cache_control
fix_pragma_cache_control-Keeps m h = elim (fix-cases m (values (codes "Pragma") m)) [
  | inl e ↦
      subst (Keeps (λ j. cache_control ≡ j) m) (sym e)
        (record { same_values = λ j other. refl; in_form = h; decodable = λ d. d })
  | inr e ↦ subst (Keeps (λ j. cache_control ≡ j) m) (sym e) (insert-Keeps m h)
]

pub print-IsSolid : (n : ℕ) → All IsSolid (print n)
print-IsSolid n = print-All IsSolid n (λ d h. (ground arith, ground arith))

pub length-IsField : (n : ℕ) → IsField (content_length, print n)
unfolding is_name is_token canonical
length-IsField n = record {
  named = refl;
  canon = refl;
  value = solid-IsValue (print n) (print-IsSolid n);
}

other_encoding : cache_control ≢ transfer_encoding
other_encoding = ne_of_text_eq cache_control transfer_encoding (unfold text_eq in refl)

other_length : cache_control ≢ content_length
other_length = ne_of_text_eq cache_control content_length (unfold text_eq in refl)

-- A header with one length and no transfer encoding.
pub read_transfer_length :
    (m : Multi) (n : ℕ)
    → n < 2 ^ 63
    → IsHeader m
    → values transfer_encoding m ≡ []
    → values content_length m ≡ print n ∷ []
    → (m' : Multi) × (read_transfer m ≡ ok (m', some n)) × Keeps (λ j. cache_control ≡ j) m m'
unfolding read_transfer with_encoding fix_length to_result all_are trim dedupe_length
read_transfer_length m n small h plain one =
    let kept = fix_pragma_cache_control-Keeps m h in
    let v = solid-IsValue (print n) (print-IsSolid n) in
    (
      fix_pragma_cache_control m,
      rw
          (
            kept.same_values transfer_encoding other_encoding,
            plain,
            kept.same_values content_length other_length,
            one,
            v.left,
            v.right,
            parse_uint63-print n small,
          )
          refl,
      kept,
    )

delete-LacksName : (i k : Text) (h : Multi) → LacksName i h → LacksName i (delete k h)
unfolding delete
delete-LacksName i k [] l = tt
delete-LacksName i k ((j, ws) ∷ h) (l, ls) = elim (Bool-cases (text_eq j k)) [
  | inl e ↦ rw e (delete-LacksName i k h ls)
  | inr e ↦ rw e (l, delete-LacksName i k h ls)
]

delete-IsHeader : (k : Text) (h : Multi) → IsHeader h → IsHeader (delete k h)
unfolding delete
delete-IsHeader k [] v = tt
delete-IsHeader k ((j, ws) ∷ h) (canon, l, v) = elim (Bool-cases (text_eq j k)) [
  | inl e ↦ rw e (delete-IsHeader k h v)
  | inr e ↦ rw e (canon, delete-LacksName (lower j) k h l, delete-IsHeader k h v)
]

delete-IsDecodable : (k : Text) (h : Multi) → IsDecodable h → IsDecodable (delete k h)
unfolding delete
delete-IsDecodable k [] d = tt
delete-IsDecodable k ((j, ws) ∷ h) (d, ds) = elim (Bool-cases (text_eq j k)) [
  | inl e ↦ rw e (delete-IsDecodable k h ds)
  | inr e ↦ rw e (d, delete-IsDecodable k h ds)
]

pub delete-Keeps : (k : Text) (h : Multi) → IsHeader h → Keeps (λ j. k ≡ j) h (delete k h)
delete-Keeps k h v = record {
  same_values = λ j other. ground (arith, values-delete k j h, text_eq_iff k j, other);
  in_form = delete-IsHeader k h v;
  decodable = delete-IsDecodable k h;
}
