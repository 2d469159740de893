-- ===== src/CacheTransform/Answer.antt =====
-- The versions of an AMP-Cache-Transform header and the answer to it:
-- `parseVersions` and `ShouldSendSXG` of packager/amp_cache_transform/amp_cache_transform.go.
-- `parse_int` and `format_int` are what strconv and fmt do where the code calls them, and
-- `sort_descending` is the stable sort.
pub mod Order
pub mod Select
use amppackager.Prelude.{
  ℕ, zero, suc, ◌+◌, ◌-◌, ◌*◌, ◌/◌, ◌%◌, ◌^◌, Bool, true, false, ◌&&◌, ◌||◌, List, [], ◌∷◌, ◌++◌,
  Option, none, some, ok, err, ◌≡◌, refl, ltb, leb, ◌==◌, if◌then◌else◌,
}
use amppackager.Prelude.Int.{ℤ, pos, negsuc, ltb_ℤ}
use amppackager.Prelude.Split.{is_blank, cons_first, trim_pieces}
use amppackager.Prelude.Text.{Bytes, codes, bytes_eq}
use amppackager.Header.{comma_split}
use amppackager.Versions.{VersionRange, select_version}
use amppackager.CacheTransform.{ParameterisedIdentifier, is_digit, parse_parameterised_list}

infixl 5 ◌>>=◌
abbrev pub ◌>>=◌ {ℓ κ} : {A : Type ℓ} {B : Type κ} → Option A → (A → Option B) → Option B
none >>= f = none
some a >>= f = f a

unfoldable pub parse_digits : ℕ → Bytes → Option ℕ
parse_digits acc [] = some acc
parse_digits acc (c ∷ cs) =
    let rest = parse_digits (acc * 10 + (c - b'0')) cs in if is_digit c then rest else none

-- `strconv.ParseInt` takes no empty digits.
abbrev pub parse_magnitude : Bytes → Option ℕ
parse_magnitude [] = none
parse_magnitude (c ∷ cs) = parse_digits 0 (c ∷ cs)

abbrev pub negate : ℕ → ℤ
negate zero = pos 0
negate (suc n) = negsuc n

abbrev positive_in_range : ℕ → Option ℤ
positive_in_range n = if ltb n (2 ^ 63) then some (pos n) else none

abbrev negative_in_range : ℕ → Option ℤ
negative_in_range n = if leb n (2 ^ 63) then some (negate n) else none

-- `strconv.ParseInt(s, 10, 64)`
unfoldable pub parse_int : Bytes → Option ℤ
unfolding parse_digits
parse_int [] = none
parse_int (c ∷ cs) =
    if c == b'+'
    then parse_magnitude cs >>= positive_in_range
    else if c == b'-'
    then parse_magnitude cs >>= negative_in_range
    else parse_magnitude (c ∷ cs) >>= positive_in_range

-- The separator `..`
unfoldable pub split_dots : Bytes → List Bytes
split_dots [] = [] ∷ []
split_dots (c ∷ []) = (c ∷ []) ∷ []
split_dots (c ∷ d ∷ cs) =
    let after = split_dots cs in
    let later = split_dots (d ∷ cs) in
    if c == b'.' && d == b'.' then [] ∷ after else cons_first c later

-- `vRangeRE.Split(s, -1)`
unfoldable pub range_split : Bytes → List Bytes
unfolding split_dots trim_pieces
range_split s = trim_pieces (split_dots s)

-- The switch on the number of bounds.
unfoldable pub range_of_bounds : List Bytes → Option VersionRange
unfolding parse_int
range_of_bounds (b ∷ []) = do version ← parse_int b; some (record { min = version; max = version })
range_of_bounds (b ∷ c ∷ []) = do
  lo ← parse_int b
  hi ← parse_int c
  some (record { min = lo; max = hi })
range_of_bounds _ = none

unfoldable pub parse_ranges : List Bytes → Option (List VersionRange)
unfolding range_of_bounds range_split
parse_ranges [] = some []
parse_ranges (s ∷ ss) = do r ← range_of_bounds (range_split s); rs ← parse_ranges ss; some (r ∷ rs)

abbrev pub insert_descending : VersionRange → List VersionRange → List VersionRange
insert_descending r [] = r ∷ []
insert_descending r (s ∷ ss) = if ltb_ℤ r.max s.max then s ∷ insert_descending r ss else r ∷ s ∷ ss

unfoldable pub sort_descending : List VersionRange → List VersionRange
sort_descending [] = []
sort_descending (r ∷ rs) = insert_descending r (sort_descending rs)

unfoldable pub parse_versions : Bytes → Option (List VersionRange)
unfolding parse_ranges comma_split sort_descending
parse_versions spec = do ret ← parse_ranges (comma_split spec); some (sort_descending ret)

abbrev pub is_valid_identifier : Bytes → Bool
is_valid_identifier id = bytes_eq id (codes "any") || bytes_eq id (codes "google")

-- The loop over the parameters, in some order of the map; `none` is `continue IdentifierLoop`.
unfoldable pub requested_from :
    List VersionRange → List (Bytes × Bytes) → Option (List VersionRange)
unfolding parse_versions
requested_from requested [] = some requested
requested_from requested ((name, value) ∷ params) =
    if bytes_eq name (codes "v")
    then parse_versions value >>= (λ rs. requested_from rs params)
    else none

unfoldable pub format_digits : ℕ → ℕ → Bytes
format_digits zero n = []
format_digits (suc fuel) n =
    let front = format_digits fuel (n / 10) in
    if ltb n 10 then (b'0' + n) ∷ [] else front ++ (b'0' + n % 10) ∷ []

-- `%d`: an int64 has at most 19 digits.
unfoldable pub format_int : ℤ → Bytes
unfolding format_digits
format_int (pos n) = format_digits 20 n
format_int (negsuc n) = b'-' ∷ format_digits 20 (suc n)

unfoldable pub header_answer : Bytes → ℤ → Bytes
unfolding format_int
header_answer id version = id ++ codes ";v=\"" ++ format_int version ++ codes "\""

-- The end of one round: the answer with the version that is selected.
unfoldable pub answer_with : Bytes → List VersionRange → Option (Bytes × ℤ)
unfolding select_version header_answer
answer_with id requested = elim (select_version requested) [
  | ok version ↦ some (header_answer id version, version)
  | err e ↦ none
]

-- One round of the loop; `none` is `continue`.
unfoldable pub answer_to : ParameterisedIdentifier → Option (Bytes × ℤ)
unfolding requested_from answer_with
answer_to identifier =
    if is_valid_identifier identifier.id
    then requested_from [] identifier.params >>= answer_with identifier.id
    else none

-- The empty header and version 0 say that no signed exchange is to be sent.
abbrev pub no_answer : Bytes × ℤ
no_answer = ([], pos 0)

unfoldable pub first_answer : List ParameterisedIdentifier → Bytes × ℤ
unfolding answer_to
first_answer [] = no_answer
first_answer (i ∷ is) = elim (answer_to i) [ some a ↦ a | none ↦ first_answer is ]

-- `ShouldSendSXG`
unfoldable pub should_send_sxg : Bytes → Bytes × ℤ
unfolding parse_parameterised_list first_answer
should_send_sxg header_value = elim (parse_parameterised_list header_value) [
  | err e ↦ no_answer
  | ok identifiers ↦ first_answer identifiers
]
