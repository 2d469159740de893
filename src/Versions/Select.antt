-- ===== src/Versions/Select.antt =====
-- What the version search of transformer/versions.go promises.
use mathlib.Core.Path.{subst}
use amppackager.Prelude.{
  ℕ, ◌+◌, ◌≡◌, refl, ◌↔◌, ◌⊎◌, inl, inr, true, false, List, [], ◌∷◌, none, Result, ok, err, arith,
  Any, Bool-cases,
}
use amppackager.Prelude.Int.{ℤ, pos, ◌≤ℤ◌, ◌<ℤ◌}
use amppackager.Versions.{
  VersionRange, VersionError, no_common_version, supported_versions, max_int64, min_int64,
  intervals_overlap, is_greater, validate_from, validate_request, search_common, select_valid,
  select_version_from, select_version,
}

-- The version lies in the range.
abbrev pub InRange : ℤ → VersionRange → Type 0
InRange v r = (r.min ≤ℤ v) × (v ≤ℤ r.max)

-- The version lies in one of the ranges.
abbrev pub Offers : ℤ → List VersionRange → Type 0
Offers v rs = Any (InRange v) rs

-- Non-empty, positive, pairwise disjoint ranges in descending order, all below `top`.
abbrev pub IsDescending : ℤ → List VersionRange → Type 0
IsDescending top [] = Unit
IsDescending top (r ∷ rs) =
    (pos 1 ≤ℤ r.min) × (r.min ≤ℤ r.max) × (r.max <ℤ top) × IsDescending r.min rs

validate_from_iff :
    (i : ℕ) (top : ℤ) (rs : List VersionRange)
    → (validate_from i top rs ≡ none) ↔ IsDescending top rs
unfolding validate_from
validate_from_iff i top [] = ground arith
validate_from_iff i top (r ∷ rs) = ground (arith, validate_from_iff (i + 1) r.min rs)

-- `validateRequest` accepts exactly the lists of non-empty positive ranges that stand in
-- descending order with no overlap, the first of them below the greatest int64.
validate_request_iff :
    (rs : List VersionRange) → (validate_request rs ≡ none) ↔ IsDescending max_int64 rs
unfolding validate_request
validate_request_iff rs = ground (arith, validate_from_iff 0 max_int64 rs)

Offers-lt : (v top : ℤ) (rs : List VersionRange) → IsDescending top rs → Offers v rs → v <ℤ top
Offers-lt v top [] d o = elim o [ ]
Offers-lt v top (r ∷ rs) d o = ground (arith, Offers-lt v r.min rs)

-- What a search result means: the greatest common version, or that there is none.
abbrev pub IsBest : List VersionRange → List VersionRange → Result VersionError ℤ → Type 0
IsBest rs ss (ok v) = Offers v rs × Offers v ss × ((w : ℤ) → Offers w rs → Offers w ss → w ≤ℤ v)
IsBest rs ss (err e) = (e ≡ no_common_version) × ((w : ℤ) → Offers w rs → ¬ Offers w ss)

-- The head of a descending list bounds what the list offers.
Offers-le-head :
    (v top : ℤ) (r : VersionRange) (rs : List VersionRange)
    → IsDescending top (r ∷ rs)
    → Offers v (r ∷ rs)
    → v ≤ℤ r.max
Offers-le-head v top r rs d o = ground (arith, Offers-lt v r.min rs)

IsBest-skip_requested :
    (r : VersionRange) (rs ss : List VersionRange) (res : Result VersionError ℤ)
    → ((w : ℤ) → Offers w ss → ¬ InRange w r)
    → IsBest rs ss res
    → IsBest (r ∷ rs) ss res
IsBest-skip_requested r rs ss (ok v) none_in b =
    (inr b.0, b.1, λ w o p. elim o [ inl i ↦ absurd (none_in w p i) | inr o' ↦ b.2 w o' p ])
IsBest-skip_requested r rs ss (err e) none_in b =
    (b.0, λ w o p. elim o [ inl i ↦ none_in w p i | inr o' ↦ b.1 w o' p ])

IsBest-skip_supported :
    (s : VersionRange) (rs ss : List VersionRange) (res : Result VersionError ℤ)
    → ((w : ℤ) → Offers w rs → ¬ InRange w s)
    → IsBest rs ss res
    → IsBest rs (s ∷ ss) res
IsBest-skip_supported s rs ss (ok v) none_in b =
    (b.0, inr b.1, λ w o p. elim p [ inl i ↦ absurd (none_in w o i) | inr p' ↦ b.2 w o p' ])
IsBest-skip_supported s rs ss (err e) none_in b =
    (b.0, λ w o p. elim p [ inl i ↦ none_in w o i | inr p' ↦ b.1 w o p' ])

search_common-overlap :
    (r s : VersionRange) (rs ss : List VersionRange)
    → intervals_overlap r s ≡ true
    → search_common (r ∷ rs) (s ∷ ss) ≡ ok (min_int64 r.max s.max)
unfolding search_common
search_common-overlap r s rs ss h = rw (h, search_common)

search_common-greater :
    (r s : VersionRange) (rs ss : List VersionRange)
    → intervals_overlap r s ≡ false
    → is_greater r s ≡ true
    → search_common (r ∷ rs) (s ∷ ss) ≡ search_common rs (s ∷ ss)
unfolding search_common
search_common-greater r s rs ss h g = rw (h, search_common) (rw g)

search_common-less :
    (r s : VersionRange) (rs ss : List VersionRange)
    → intervals_overlap r s ≡ false
    → is_greater r s ≡ false
    → search_common (r ∷ rs) (s ∷ ss) ≡ search_common (r ∷ rs) ss
unfolding search_common
search_common-less r s rs ss h g = rw (h, search_common) (rw g)

IsBest-overlap :
    (top top' : ℤ) (r s : VersionRange) (rs ss : List VersionRange)
    → IsDescending top (r ∷ rs)
    → IsDescending top' (s ∷ ss)
    → intervals_overlap r s ≡ true
    → IsBest (r ∷ rs) (s ∷ ss) (search_common (r ∷ rs) (s ∷ ss))
IsBest-overlap top top' r s rs ss d d' h = rw (search_common-overlap r s rs ss h) (
  inl (ground arith),
  inl (ground arith),
  λ w o p. ground (arith, Offers-le-head w top r rs d o, Offers-le-head w top' s ss d' p),
)

search_common-IsBest :
    (top top' : ℤ) (rs ss : List VersionRange)
    → IsDescending top rs
    → IsDescending top' ss
    → IsBest rs ss (search_common rs ss)
unfolding search_common
search_common-IsBest top top' [] ss d d' = (refl, λ w o p. o)
search_common-IsBest top top' (r ∷ rs) [] d d' = (refl, λ w o p. p)
search_common-IsBest top top' (r ∷ rs) (s ∷ ss) d d' = elim (Bool-cases (intervals_overlap r s)) [
  | inl h ↦ IsBest-overlap top top' r s rs ss d d' h
  | inr h ↦ elim (Bool-cases (is_greater r s)) [
    | inl g ↦ rw (search_common-greater r s rs ss h g) (
        IsBest-skip_requested r rs (s ∷ ss) (search_common rs (s ∷ ss))
          (λ w p i. ground (arith, Offers-le-head w top' s ss d' p))
          (search_common-IsBest r.min top' rs (s ∷ ss) (ground arith) d'))
    | inr g ↦ rw (search_common-less r s rs ss h g) (
        IsBest-skip_supported s (r ∷ rs) ss (search_common (r ∷ rs) ss)
          (λ w o i. ground (arith, Offers-le-head w top r rs d o))
          (search_common-IsBest top s.min (r ∷ rs) ss d (ground arith)))
  ]
]

-- For a well-formed request and a well-formed table of supported ranges, both non-empty,
-- `selectVersion` returns the greatest version that both offer, and the error
-- `no_common_version` exactly when there is none.
pub select_version_from-IsBest :
    (top : ℤ) (r s : VersionRange) (rs ss : List VersionRange)
    → IsDescending max_int64 (r ∷ rs)
    → IsDescending top (s ∷ ss)
    → IsBest (r ∷ rs) (s ∷ ss) (select_version_from (r ∷ rs) (s ∷ ss))
unfolding select_version_from select_valid
select_version_from-IsBest top r s rs ss d d' =
    rw ((validate_request_iff (r ∷ rs)).1 d, select_version_from)
      (search_common-IsBest max_int64 top (r ∷ rs) (s ∷ ss) d d')

select_version_valid :
    (rs : List VersionRange) {v : ℤ} → select_version rs ≡ ok v → validate_request rs ≡ none
unfolding select_version select_version_from
select_version_valid rs h = ground arith

-- Whatever is requested, a version that `SelectVersion` returns is a supported one, from 1 to 8;
-- the request is well formed, and if it names any range then it offers that version. An empty
-- request gets version 8.
pub select_version_sound :
    (rs : List VersionRange) {v : ℤ}
    → select_version rs ≡ ok v
    → IsDescending max_int64 rs
      × (pos 1 ≤ℤ v)
      × (v ≤ℤ pos 8)
      × ((rs ≡ []) × (v ≡ pos 8) ⊎ Offers v rs)
unfolding select_version select_version_from select_valid
select_version_sound [] h = ground arith
select_version_sound (r ∷ rs) {v} h =
    let d : IsDescending max_int64 (r ∷ rs) =
      (validate_request_iff (r ∷ rs)).0 (select_version_valid (r ∷ rs) h) in
    let best : IsBest (r ∷ rs) supported_versions (ok v) =
      subst (IsBest (r ∷ rs) supported_versions) h (
        select_version_from-IsBest (pos 9) r (record { min = pos 1; max = pos 8 }) rs [] d
          (omega arith)) in
    let (of_request, of_supported, _) = best in
    elim of_supported [ inl i ↦ (d, i.0, i.1, inr of_request) | inr no_more ↦ elim no_more [ ] ]
