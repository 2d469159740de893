-- ===== src/StripJs/Events.antt =====
-- transformer/transformers/stripjs.go: the loop of `StripJS` over the attributes of an element, with
-- `RemoveAttribute` of transformer/internal/htmlnode/htmlnode.go: the `range` of the loop keeps the length from before while a removal moves the
-- attributes inside the array.
use amppackager.Prelude.{
  ℕ, zero, suc, Bool, false, ◌&&◌, ◌||◌, List, [], ◌∷◌, Option, none, some, leb, ◌==◌,
  if◌then◌else◌, length,
}
use amppackager.Prelude.Text.{Bytes, bytes_eq}
use amppackager.Transformer.{Attribute}
use amppackager.Dom.Slice.{get_elem?, Slice, shown, remove_attribute}

-- `eventRE`, `^on[A-Za-z].*`, matches a front part.
unfoldable pub is_event_key : Bytes → Bool
is_event_key (o ∷ n ∷ c ∷ cs) =
    o == b'o' && n == b'n' && ((leb b'A' c && leb c b'Z') || (leb b'a' c && leb c b'z'))
is_event_key _ = false

unfoldable pub is_event : Attribute → Bool
unfolding is_event_key
is_event a = bytes_eq a.namespace [] && is_event_key a.key

abbrev pub event_turn : Option Attribute → Slice → Slice
event_turn none s = s
event_turn (some a) s = if is_event a then remove_attribute a s else s

-- `for _, attr := range n.Attr`, from the place `i` on, with the number of places that are left.
unfoldable pub strip_from : ℕ → ℕ → Slice → Slice
unfolding is_event remove_attribute
strip_from i zero s = s
strip_from i (suc n) s = strip_from (suc i) n (event_turn (get_elem? s.array i) s)

-- The attributes that an element keeps.
unfoldable pub strip_events : List Attribute → List Attribute
unfolding strip_from
strip_events attributes =
    shown
      (strip_from 0 (length attributes) (record { array = attributes; len = length attributes }))
