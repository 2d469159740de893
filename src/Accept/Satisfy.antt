-- ===== src/Accept/Satisfy.antt =====
-- When an Accept header is satisfied.
use amppackager.Prelude.{
  ◌≡◌, refl, ◌↔◌, inl, inr, true, List, [], ◌∷◌, Option, none, some, arith, Any, Bool-cases,
}
use amppackager.Prelude.Split.{split}
use amppackager.Prelude.Text.{Bytes, codes, bytes_eq_iff, lookup}
use amppackager.Accept.{
  accepted_sxg_version, tokenize, has_matching_sxg_version, or_empty, type_matches, any_satisfies,
  can_satisfy,
}

has_matching_iff :
    (vs : List Bytes)
    → (has_matching_sxg_version vs ≡ true) ↔ Any (λ v. v ≡ accepted_sxg_version) vs
unfolding has_matching_sxg_version
has_matching_iff [] = ground arith
has_matching_iff (v ∷ vs) = ground (arith, bytes_eq_iff v accepted_sxg_version, has_matching_iff vs)

-- What a media range parses to: application/signed-exchange, with b3 among its versions.
abbrev AsksForSxg : Option (Bytes × List (Bytes × Bytes)) → Type 0
AsksForSxg none = ⊥
AsksForSxg (some (mediatype, params)) =
    (mediatype ≡ codes "application/signed-exchange")
    × Any (λ v. v ≡ accepted_sxg_version) (split b',' (or_empty (lookup (codes "v") params)))

module _ (parse_media_type : Bytes → Option (Bytes × List (Bytes × Bytes))) where
  type_matches_iff :
      (o : Option (Bytes × List (Bytes × Bytes)))
      → (type_matches parse_media_type o ≡ true) ↔ AsksForSxg o
  type_matches_iff none = ground arith
  type_matches_iff (some (mediatype, params)) = ground (
    arith,
    bytes_eq_iff mediatype (codes "application/signed-exchange"),
    has_matching_iff (split b',' (or_empty (lookup (codes "v") params))),
  )

  any_satisfies_iff :
      (ts : List Bytes)
      → (any_satisfies parse_media_type ts ≡ true) ↔ Any (λ t. AsksForSxg (parse_media_type t)) ts
  unfolding any_satisfies
  any_satisfies_iff [] = ground arith
  any_satisfies_iff (t ∷ ts) =
      elim (Bool-cases (type_matches parse_media_type (parse_media_type t))) [
        | inl h ↦ rw h (λ _. inl ((type_matches_iff (parse_media_type t)).0 h), λ _. refl)
        | inr h ↦ rw h (
          λ k. inr ((any_satisfies_iff ts).0 k),
          λ k. elim k [
            | inl a ↦ cc (h, (type_matches_iff (parse_media_type t)).1 a)
            | inr a ↦ (any_satisfies_iff ts).1 a
          ],
        )
      ]

-- `CanSatisfy` accepts exactly the headers with a token whose media type is
-- application/signed-exchange and whose parameter v lists the version b3.
can_satisfy_iff :
    (parse_media_type : Bytes → Option (Bytes × List (Bytes × Bytes))) (accept : Bytes)
    → (can_satisfy parse_media_type accept ≡ true)
      ↔ Any (λ t. AsksForSxg (parse_media_type t)) (tokenize accept)
unfolding can_satisfy
can_satisfy_iff parse_media_type accept = any_satisfies_iff parse_media_type (tokenize accept)
