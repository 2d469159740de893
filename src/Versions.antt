-- ===== src/Versions.antt =====
-- transformer/versions.go: the choice of the transform version. Versions are int64 values that
-- are only compared, so they are integers here; `max_int64` is the one constant of their width.
pub mod Select
use amppackager.Prelude.{
  ℕ, zero, suc, ◌+◌, ◌-◌, ◌^◌, Bool, ◌&&◌, ◌||◌, List, [], ◌∷◌, Option, none, some, Result, ok, err,
  if◌then◌else◌,
}
use amppackager.Prelude.Int.{ℤ, pos, ltb_ℤ, leb_ℤ}

pub record VersionRange : Type 0 where
  pub min : ℤ
  pub max : ℤ

-- The errors, with the index that the message names.
pub data VersionError : Type 0 where
  malformed non_positive out_of_order : ℕ → VersionError
  none_supported no_common_version : VersionError

abbrev pub supported_versions : List VersionRange
supported_versions = record { min = pos 1; max = pos 8 } ∷ []

abbrev pub min_int64 : ℤ → ℤ → ℤ
min_int64 a b = if ltb_ℤ a b then a else b

abbrev pub intervals_overlap : VersionRange → VersionRange → Bool
intervals_overlap a b = leb_ℤ b.min a.max && leb_ℤ a.min b.max

abbrev pub is_greater : VersionRange → VersionRange → Bool
is_greater a b = ltb_ℤ b.max a.min

abbrev pub max_int64 : ℤ
max_int64 = pos (2 ^ 63 - 1)

-- The loop of `validateRequest` over its index and `lastMin`; `none` is the nil error.
unfoldable pub validate_from : ℕ → ℤ → List VersionRange → Option VersionError
validate_from i last_min [] = none
validate_from i last_min (r ∷ rs) =
    if ltb_ℤ r.max r.min
    then some (malformed i)
    else if ltb_ℤ r.min (pos 1) || ltb_ℤ r.max (pos 1)
    then some (non_positive i)
    else if leb_ℤ last_min r.max
    then some (out_of_order i)
    else validate_from (i + 1) r.min rs

unfoldable pub validate_request : List VersionRange → Option VersionError
unfolding validate_from
validate_request rs = validate_from 0 max_int64 rs

-- The two-pointer loop of `selectVersion`.
unfoldable pub search_common : List VersionRange → List VersionRange → Result VersionError ℤ
search_common [] ss = err no_common_version
search_common (r ∷ rs) [] = err no_common_version
search_common (r ∷ rs) (s ∷ ss) = elim (intervals_overlap r s) [
  | Bool.true ↦ ok (min_int64 r.max s.max)
  | Bool.false ↦ elim (is_greater r s) [
    | Bool.true ↦ search_common rs (s ∷ ss)
    | Bool.false ↦ search_common (r ∷ rs) ss
  ]
]

-- The body of `selectVersion` after the validation.
unfoldable pub select_valid : List VersionRange → List VersionRange → Result VersionError ℤ
unfolding search_common
select_valid requested [] = err none_supported
select_valid [] (s ∷ ss) = ok s.max
select_valid requested (s ∷ ss) = search_common requested (s ∷ ss)

unfoldable pub select_version_from : List VersionRange → List VersionRange → Result VersionError ℤ
unfolding validate_request select_valid
select_version_from requested supported = elim (validate_request requested) [
  | some e ↦ err e
  | none ↦ select_valid requested supported
]

-- `SelectVersion`
unfoldable pub select_version : List VersionRange → Result VersionError ℤ
unfolding select_version_from
select_version requested = select_version_from requested supported_versions
