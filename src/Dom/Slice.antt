-- ===== src/Dom/Slice.antt =====
-- transformer/internal/htmlnode/htmlnode.go: `RemoveAttribute` on the slice of attributes. A slice is
-- its backing array and its length: a removal moves the attributes inside the array.
use amppackager.Prelude.{
  ℕ, zero, suc, ◌-◌, Bool, false, ◌&&◌, ◌||◌, List, [], ◌∷◌, ◌++◌, Option, none, some, ◌==◌,
  if◌then◌else◌, length,
}
use amppackager.Prelude.Text.{Bytes, bytes_eq}
use amppackager.Transformer.{Attribute}
use amppackager.Dom.Attributes.{is_named}

abbrev pub attribute_eq : Attribute → Attribute → Bool
attribute_eq a b = bytes_eq a.namespace b.namespace && bytes_eq a.key b.key && bytes_eq a.val b.val

module _ {ℓ} {A : Type ℓ} where
  abbrev pub take : ℕ → List A → List A
  take zero xs = []
  take (suc n) [] = []
  take (suc n) (x ∷ xs) = x ∷ take n xs

  abbrev pub drop : ℕ → List A → List A
  drop zero xs = xs
  drop (suc n) [] = []
  drop (suc n) (x ∷ xs) = drop n xs

  abbrev pub get_elem? : List A → ℕ → Option A
  get_elem? [] n = none
  get_elem? (x ∷ xs) zero = some x
  get_elem? (x ∷ xs) (suc n) = get_elem? xs n

pub record Slice : Type 0 where
  pub array : List Attribute
  pub len : ℕ

-- What the slice shows of its array.
abbrev pub shown : Slice → List Attribute
shown s = take s.len s.array

-- `append(n.Attr[:i], n.Attr[i+1:]...)`: the attributes behind `i` move down by one, and the array
-- keeps what stood at the last place and behind.
unfoldable pub remove_at : ℕ → Slice → Slice
remove_at i s = record {
  array = take i s.array ++ (drop (suc i) (shown s) ++ drop (s.len - 1) s.array);
  len = s.len - 1;
}

abbrev pub equals : Attribute → Option Attribute → Bool
equals a none = false
equals a (some b) = attribute_eq b a

-- The loop of `RemoveAttribute` over the places below `i`, from the last one. The attribute to
-- remove is a copy: no place has its address.
unfoldable pub remove_below : Attribute → ℕ → Slice → Slice
unfolding remove_at
remove_below a zero s = s
remove_below a (suc i) s =
    remove_below a i (if equals a (get_elem? s.array i) then remove_at i s else s)

-- `RemoveAttribute`
unfoldable pub remove_attribute : Attribute → Slice → Slice
unfolding remove_below
remove_attribute a s = remove_below a s.len s

abbrev same_attribute : Option Attribute → Option Attribute → Bool
same_attribute (some a) (some b) = attribute_eq b a
same_attribute _ _ = false

-- The loop of `RemoveAttribute` for a pointer to the place `p`, which shows what the removals move
-- there.
unfoldable pub remove_place_below : ℕ → ℕ → Slice → Slice
unfolding remove_at
remove_place_below p zero s = s
remove_place_below p (suc i) s = remove_place_below p i (
    if i == p || same_attribute (get_elem? s.array p) (get_elem? s.array i)
    then remove_at i s
    else s)

abbrev later_place : Option ℕ → Option ℕ
later_place none = none
later_place (some p) = some (suc p)

-- The place that `FindAttribute` points to.
unfoldable pub find_place : Bytes → Bytes → List Attribute → Option ℕ
find_place namespace key [] = none
find_place namespace key (a ∷ rest) =
    let later = find_place namespace key rest in
    if is_named namespace key a then some zero else later_place later

-- `RemoveAttribute` on what `FindAttribute` found.
unfoldable pub remove_found : Bytes → Bytes → List Attribute → List Attribute
unfolding find_place remove_place_below
remove_found namespace key attributes = elim (find_place namespace key attributes) [
  | none ↦ attributes
  | some p ↦ shown (
      remove_place_below p (length attributes)
        (record { array = attributes; len = length attributes }))
]
