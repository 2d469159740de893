-- ===== src/Transformer/Age.antt =====
-- What `computeMaxAgeSeconds` of transformer/transformer.go answers.
use amppackager.Prelude.{
  ℕ, ◌≤◌, ◌≡◌, ◌⊎◌, inl, inr, refl, sym, ap, ◌∙◌, List, [], ◌∷◌, Option, none, some, ltb, arith,
  Any, All, Bool-cases,
}
use amppackager.Prelude.Int.{ℤ}
use amppackager.Prelude.Text.{Bytes}
use amppackager.Transformer.{Node}
use amppackager.Transformer.MaxAge.{
  node_max_age, lower, least_age, compute_max_age_seconds, max_max_age_seconds, max_int32,
}

module _ (parse_int32 : Bytes → Option ℤ) where
  -- An age is no longer than a node asks for.
  abbrev pub Allows : ℕ → Node → Type 0
  Allows age n = (wanted : ℕ) → node_max_age parse_int32 n ≡ some wanted → age ≤ wanted

  -- A node asks for an age.
  abbrev pub Wants : ℕ → Node → Type 0
  Wants age n = node_max_age parse_int32 n ≡ some age

  lower-le : (age : ℕ) (m : Option ℕ) → lower parse_int32 age m ≤ age
  lower-le age none = omega arith
  lower-le age (some other) = ground arith

  least_age-le : (age : ℕ) (nodes : List Node) → least_age parse_int32 age nodes ≤ age
  unfolding least_age
  least_age-le age [] = omega arith
  least_age-le age (n ∷ ns) = omega (
    arith,
    least_age-le (lower parse_int32 age (node_max_age parse_int32 n)) ns,
    lower-le age (node_max_age parse_int32 n),
  )

  lower-wanted :
      (age wanted : ℕ) (m : Option ℕ) → m ≡ some wanted → lower parse_int32 age m ≤ wanted
  lower-wanted age wanted none e = cc
  lower-wanted age wanted (some other) e = let same : other ≡ wanted = cc in ground (arith, same)

  least_age-Allows :
      (age : ℕ) (nodes : List Node) → All (Allows (least_age parse_int32 age nodes)) nodes
  unfolding least_age
  least_age-Allows age [] = tt
  least_age-Allows age (n ∷ ns) = (
    λ wanted e. omega (
      arith,
      least_age-le (lower parse_int32 age (node_max_age parse_int32 n)) ns,
      lower-wanted age wanted (node_max_age parse_int32 n) e,
    ),
    least_age-Allows (lower parse_int32 age (node_max_age parse_int32 n)) ns,
  )

  lower_cases :
      (age : ℕ) (m : Option ℕ)
      → (lower parse_int32 age m ≡ age) ⊎ (m ≡ some (lower parse_int32 age m))
  lower_cases age none = inl refl
  lower_cases age (some other) = elim (Bool-cases (ltb other age)) [
    | inl e ↦ rw e (inr refl)
    | inr e ↦ rw e (inl refl)
  ]

  least_age-Wants :
      (age : ℕ) (nodes : List Node)
      → (least_age parse_int32 age nodes ≡ age)
        ⊎ Any (Wants (least_age parse_int32 age nodes)) nodes
  unfolding least_age
  least_age-Wants age [] = inl refl
  least_age-Wants age (n ∷ ns) =
      let lowered = lower parse_int32 age (node_max_age parse_int32 n) in
      elim (least_age-Wants lowered ns) [
        | inl q ↦ elim (lower_cases age (node_max_age parse_int32 n)) [
          | inl e ↦ inl (q ∙ e)
          | inr e ↦ inr (inl (e ∙ ap (λ x. some x) (sym q)))
        ]
        | inr later ↦ inr (inr later)
      ]

  capped :
      (age : ℕ) (nodes : List Node)
      → All (Allows age) nodes
      → (bound : ℕ) → bound ≤ age
      → All (Allows bound) nodes
  capped age [] h bound b = tt
  capped age (n ∷ ns) (h, hs) bound b =
      (λ wanted e. omega (arith, h wanted e), capped age ns hs bound b)

  -- The suggested age is no more than seven days and no more than any inline `<amp-script>` of the
  -- document asks for, and it is one of these.
  pub compute_max_age_seconds-least :
      (nodes : List Node)
      → (compute_max_age_seconds parse_int32 nodes ≤ max_max_age_seconds)
        × All (Allows (compute_max_age_seconds parse_int32 nodes)) nodes
        × (compute_max_age_seconds parse_int32 nodes ≡ max_max_age_seconds
            ⊎ Any (Wants (compute_max_age_seconds parse_int32 nodes)) nodes)
  unfolding compute_max_age_seconds
  compute_max_age_seconds-least nodes =
      let all = least_age-Allows max_int32 nodes in
      elim (Bool-cases (ltb max_max_age_seconds (least_age parse_int32 max_int32 nodes))) [
        | inl e ↦ rw e (
          omega arith,
          capped (least_age parse_int32 max_int32 nodes) nodes all max_max_age_seconds
              (ground (arith, e)),
          inl refl,
        )
        | inr e ↦ rw e (
          ground (arith, e),
          all,
          elim (least_age-Wants max_int32 nodes) [
            | inl q ↦ ground (arith, e, q)
            | inr some_wants ↦ inr some_wants
          ],
        )
      ]
