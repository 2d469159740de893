-- ===== src/StripJs/EventLaws.antt =====
-- What the loop of `StripJS` in transformer/transformers/stripjs.go leaves of the attributes.
use amppackager.Prelude.{
  ℕ, suc, ◌+◌, ◌-◌, true, List, [], ◌∷◌, ◌++◌, Option, some, ◌≡◌, refl, sym, ap, ◌∙◌, arith,
  if◌then◌else◌, length, Bool-cases, inl, inr,
}
use mathlib.Core.List.{append-nil}
use amppackager.Prelude.Text.{bytes_eq_iff}
use amppackager.Transformer.{Attribute}
use amppackager.Dom.Slice.{
  attribute_eq, take, drop, get_elem?, Slice, remove_at, remove_below, remove_attribute, equals,
}
use amppackager.StripJs.Events.{is_event}

module _ {A : Type 0} where
  -- A list whose front part stands in reverse.
  abbrev pub onto : List A → List A → List A
  onto [] ys = ys
  onto (x ∷ xs) ys = onto xs (x ∷ ys)

  pub onto-append : (xs ys zs : List A) → onto xs ys ++ zs ≡ onto xs (ys ++ zs)
  onto-append [] ys zs = refl
  onto-append (x ∷ xs) ys zs = onto-append xs (x ∷ ys) zs

  onto-onto : (xs ys zs : List A) → onto (onto xs ys) zs ≡ onto ys (xs ++ zs)
  onto-onto [] ys zs = refl
  onto-onto (x ∷ xs) ys zs = onto-onto xs (x ∷ ys) zs

  length-onto : (xs ys : List A) → length (onto xs ys) ≡ length ys + length xs
  length-onto [] ys = omega arith
  length-onto (x ∷ xs) ys = omega (arith, length-onto xs (x ∷ ys))

  -- The places of the second part are counted from the first.
  take-onto :
      (xs ys : List A) (n k : ℕ) → k ≡ n + length xs → take k (onto xs ys) ≡ onto xs (take n ys)
  take-onto [] ys n k e = ap (λ j. take j ys) (omega arith)
  take-onto (x ∷ xs) ys n k e = take-onto xs (x ∷ ys) (suc n) k (omega arith)

  drop-onto : (xs ys : List A) (n k : ℕ) → k ≡ n + length xs → drop k (onto xs ys) ≡ drop n ys
  drop-onto [] ys n k e = ap (λ j. drop j ys) (omega arith)
  drop-onto (x ∷ xs) ys n k e = drop-onto xs (x ∷ ys) (suc n) k (omega arith)

  get_elem?-onto :
      (xs ys : List A) (n k : ℕ) → k ≡ n + length xs → get_elem? (onto xs ys) k ≡ get_elem? ys n
  get_elem?-onto [] ys n k e = ap (λ j. get_elem? ys j) (omega arith)
  get_elem?-onto (x ∷ xs) ys n k e = get_elem?-onto xs (x ∷ ys) (suc n) k (omega arith)

  pub take-append : (xs ys : List A) → take (length xs) (xs ++ ys) ≡ xs
  take-append [] ys = refl
  take-append (x ∷ xs) ys = ap (λ t. x ∷ t) (take-append xs ys)

-- A slice that shows `v`, with what stands behind in its array.
abbrev pub slice_of : List Attribute → List Attribute → Slice
slice_of v junk = record { array = v ++ junk; len = length v }

-- What stands at the place behind `r`.
pub get_elem?-slice_of :
    (r : List Attribute) (b : Attribute) (q junk : List Attribute)
    → get_elem? (onto r (b ∷ q) ++ junk) (length r) ≡ some b
get_elem?-slice_of r b q junk =
    ap (λ xs. get_elem? xs (length r)) (onto-append r (b ∷ q) junk)
    ∙ get_elem?-onto r (b ∷ q ++ junk) 0 (length r) (omega arith)

slice_eq :
    {a b : List Attribute} {m n : ℕ}
    → a ≡ b
    → m ≡ n
    → ◌≡◌ {A = Slice} (record { array = a; len = m }) (record { array = b; len = n })
slice_eq p q = cc

-- A removal at a place takes the attribute there out of what the slice shows.
remove_at-onto :
    (r : List Attribute) (b : Attribute) (q junk : List Attribute)
    → remove_at (length r) (slice_of (onto r (b ∷ q)) junk)
      ≡ slice_of (onto r q) (drop (length q) (b ∷ q ++ junk))
unfolding remove_at
remove_at-onto r b q junk =
    let array : onto r (b ∷ q) ++ junk ≡ onto r (b ∷ q ++ junk) = onto-append r (b ∷ q) junk in
    let whole : take (length (onto r (b ∷ q))) (onto r (b ∷ q) ++ junk) ≡ onto r (b ∷ q) =
      take-append (onto r (b ∷ q)) junk in
    let front : take (length r) (onto r (b ∷ q ++ junk)) ≡ onto r [] =
      take-onto r (b ∷ q ++ junk) 0 (length r) (omega arith) in
    let behind : drop (suc (length r)) (onto r (b ∷ q)) ≡ q =
      drop-onto r (b ∷ q) 1 (suc (length r)) (omega arith) in
    let rest : drop (length (onto r (b ∷ q)) - 1) (onto r (b ∷ q ++ junk))
        ≡ drop (length q) (b ∷ q ++ junk) =
      drop-onto r (b ∷ q ++ junk) (length q) (length (onto r (b ∷ q)) - 1)
        (omega (arith, length-onto r (b ∷ q))) in
    let j = drop (length q) (b ∷ q ++ junk) in
    slice_eq
      (rw (whole, array, front, behind, rest) (onto-append r [] (q ++ j) ∙ sym (onto-append r q j)))
      (omega (arith, length-onto r (b ∷ q), length-onto r q))

-- The attributes that do not equal one.
abbrev pub without : Attribute → List Attribute → List Attribute
without a [] = []
without a (b ∷ bs) = if attribute_eq b a then without a bs else b ∷ without a bs

pub without-onto :
    (a : Attribute) (xs ys : List Attribute)
    → without a (onto xs ys) ≡ onto (without a xs) (without a ys)
without-onto a [] ys = refl
without-onto a (x ∷ xs) ys = elim (Bool-cases (attribute_eq x a)) [
  | inl e ↦ without-onto a xs (x ∷ ys) ∙ rw e refl
  | inr e ↦ without-onto a xs (x ∷ ys) ∙ rw e refl
]

-- The loop of `RemoveAttribute` takes every attribute out that equals the one to remove.
remove_below-onto :
    (a : Attribute) (r q junk : List Attribute)
    → (j : List Attribute) × (remove_below a (length r) (slice_of (onto r q) junk)
        ≡ slice_of (onto (without a r) q) j)
unfolding remove_below
remove_below-onto a [] q junk = (junk, refl)
remove_below-onto a (b ∷ r) q junk =
    let found = get_elem?-slice_of r b q junk in
    let s : Slice = slice_of (onto r (b ∷ q)) junk in
    let gone : Slice = remove_at (length r) s in
    let turned : Option Attribute → Slice =
      λ o. remove_below a (length r) (if equals a o then gone else s) in
    elim (Bool-cases (attribute_eq b a)) [
      | inl e ↦
          let rest = remove_below-onto a r q (drop (length q) (b ∷ q ++ junk)) in
          (
            rest.0,
            ap (λ o. turned o) found
                ∙ ap (λ t. remove_below a (length r) (if t then gone else s)) e
                ∙ ap (remove_below a (length r)) (remove_at-onto r b q junk)
                ∙ rest.1
                ∙ rw e refl,
          )
      | inr e ↦
          let rest = remove_below-onto a r (b ∷ q) junk in
          (
            rest.0,
            ap (λ o. turned o) found
                ∙ ap (λ t. remove_below a (length r) (if t then gone else s)) e
                ∙ rest.1
                ∙ rw e refl,
          )
    ]

pub remove_attribute-lem :
    (a : Attribute) (v junk : List Attribute)
    → (j : List Attribute) × (remove_attribute a (slice_of v junk) ≡ slice_of (without a v) j)
unfolding remove_attribute
remove_attribute-lem a v junk =
    let back = remove_below-onto a (onto v []) [] junk in
    let same : onto (onto v []) [] ≡ v = onto-onto v [] [] ∙ append-nil v in
    let left : onto (without a (onto v [])) [] ≡ without a v =
      ap (λ r. onto r []) (without-onto a v [])
      ∙ onto-onto (without a v) [] []
      ∙ append-nil (without a v) in
    let size : length v ≡ length (onto v []) = omega (arith, length-onto v []) in
    (
      back.0,
      ap (λ w. remove_below a (length v) (slice_of w junk)) (sym same)
          ∙ ap (λ n. remove_below a n (slice_of (onto (onto v []) []) junk)) size
          ∙ back.1
          ∙ ap (λ w. slice_of w back.0) left,
    )

-- The attributes that are no events.
abbrev pub no_events : List Attribute → List Attribute
no_events [] = []
no_events (a ∷ rest) = if is_event a then no_events rest else a ∷ no_events rest

pub attribute_eq→eq : (a b : Attribute) → attribute_eq a b ≡ true → a ≡ b
attribute_eq→eq a b h = ground (
  arith,
  bytes_eq_iff a.namespace b.namespace,
  bytes_eq_iff a.key b.key,
  bytes_eq_iff a.val b.val,
)

pub attribute_eq_refl : (a : Attribute) → attribute_eq a a ≡ true
attribute_eq_refl a = ground (
  arith,
  bytes_eq_iff a.namespace a.namespace,
  bytes_eq_iff a.key a.key,
  bytes_eq_iff a.val a.val,
)

pub no_events-without :
    (a : Attribute) (v : List Attribute) → is_event a ≡ true → no_events (without a v) ≡ no_events v
no_events-without a [] h = refl
no_events-without a (b ∷ v) h = elim (Bool-cases (attribute_eq b a)) [
  | inl e ↦ rw e (rw (attribute_eq→eq b a e) (rw h (no_events-without a v h)))
  | inr e ↦ rw e (ap (λ t. if is_event b then t else b ∷ t) (no_events-without a v h))
]
