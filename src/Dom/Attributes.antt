-- ===== src/Dom/Attributes.antt =====
-- transformer/internal/htmlnode/htmlnode.go: the attributes of a node.
use amppackager.Prelude.{
  Bool, true, false, not, ◌&&◌, List, [], ◌∷◌, ◌++◌, Option, none, some, if◌then◌else◌,
}
use amppackager.Prelude.Text.{Bytes, bytes_eq}
use amppackager.Transformer.{Attribute, equal_fold, fold_case}

abbrev pub is_named : Bytes → Bytes → Attribute → Bool
is_named namespace key a = bytes_eq a.namespace namespace && bytes_eq a.key key

-- `FindAttribute`, which points into the attributes: the first one of the name.
unfoldable pub find_attribute : Bytes → Bytes → List Attribute → Option Attribute
find_attribute namespace key [] = none
find_attribute namespace key (a ∷ rest) =
    let later = find_attribute namespace key rest in
    if is_named namespace key a then some a else later

abbrev pub val_of : Option Attribute → Option Bytes
val_of none = none
val_of (some a) = some a.val

-- `GetAttributeVal`
unfoldable pub attribute_val : Bytes → Bytes → List Attribute → Option Bytes
unfolding find_attribute
attribute_val namespace key attributes = val_of (find_attribute namespace key attributes)

-- `HasAttribute`
unfoldable pub has_attribute : Bytes → Bytes → List Attribute → Bool
unfolding find_attribute
has_attribute namespace key attributes = elim (find_attribute namespace key attributes) [
  | none ↦ false
  | some a ↦ true
]

-- `HasAttributeAndIsNotEmpty`
unfoldable pub has_attribute_and_is_not_empty : Bytes → Bytes → List Attribute → Bool
unfolding attribute_val
has_attribute_and_is_not_empty namespace key attributes =
    elim (attribute_val namespace key attributes) [ none ↦ false | some v ↦ not (bytes_eq v []) ]

abbrev pub named : Bytes → Bytes → Bytes → Attribute
named namespace key val = record { namespace = namespace; key = key; val = val }

-- What `SetAttribute` and `addAttributeValue` share: the value behind the pointer that
-- `FindAttribute` gives is changed, or the attribute is added at the end.
unfoldable pub update_attribute :
    (Bytes → Bytes) → Bytes → Bytes → Bytes → List Attribute → List Attribute
update_attribute f namespace key val [] = named namespace key val ∷ []
update_attribute f namespace key val (a ∷ rest) =
    let later = update_attribute f namespace key val rest in
    if is_named namespace key a then named a.namespace a.key (f a.val) ∷ rest else a ∷ later

-- `SetAttribute`
unfoldable pub set_attribute : Bytes → Bytes → Bytes → List Attribute → List Attribute
unfolding update_attribute
set_attribute namespace key val = update_attribute (λ old. val) namespace key val

abbrev pub last_byte : Bytes → Bytes
last_byte [] = []
last_byte (c ∷ []) = c ∷ []
last_byte (c ∷ d ∷ ds) = last_byte (d ∷ ds)

-- The new value of an attribute in `addAttributeValue`.
unfoldable pub added_value : Bool → Bytes → Bytes → Bytes → Bytes
unfolding fold_case
added_value prepend sep val [] = val
added_value prepend sep val (c ∷ cs) =
    if prepend
    then val ++ (sep ++ (c ∷ cs))
    else if equal_fold (last_byte (c ∷ cs)) sep
    then (c ∷ cs) ++ val
    else (c ∷ cs) ++ (sep ++ val)

-- `addAttributeValue`
unfoldable pub add_attribute_value :
    Bytes → Bytes → Bytes → Bool → Bytes → List Attribute → List Attribute
unfolding update_attribute added_value
add_attribute_value namespace key val prepend sep =
    update_attribute (added_value prepend sep val) namespace key val

-- `AppendAttribute`
unfoldable pub append_attribute : Bytes → Bytes → Bytes → List Attribute → List Attribute
unfolding add_attribute_value
append_attribute namespace key val = add_attribute_value namespace key val false []

-- `AppendAttributeWithSeparator`
unfoldable pub append_attribute_with_separator :
    Bytes → Bytes → Bytes → Bytes → List Attribute → List Attribute
unfolding add_attribute_value
append_attribute_with_separator namespace key val sep =
    add_attribute_value namespace key val false sep

-- `PrependAttribute`
unfoldable pub prepend_attribute : Bytes → Bytes → Bytes → List Attribute → List Attribute
unfolding add_attribute_value
prepend_attribute namespace key val = add_attribute_value namespace key val true []
