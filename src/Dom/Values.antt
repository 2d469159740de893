-- ===== src/Dom/Values.antt =====
-- What transformer/internal/htmlnode/htmlnode.go reads of an attribute after it has written one.
use amppackager.Prelude.{
  Bool, true, false, ◌&&◌, List, [], ◌∷◌, Option, none, some, ◌≡◌, refl, sym, ap, ◌∙◌, arith,
  if◌then◌else◌, Bool-cases, inl, inr,
}
use amppackager.Prelude.Text.{Bytes, bytes_eq, bytes_eq_iff}
use amppackager.Transformer.{Attribute}
use amppackager.Dom.Attributes.{
  is_named, find_attribute, attribute_val, update_attribute, set_attribute, added_value, val_of,
  add_attribute_value, named,
}

abbrev pub written_value : (Bytes → Bytes) → Bytes → Option Bytes → Bytes
written_value f val none = val
written_value f val (some old) = f old

abbrev pub same_name : Bytes → Bytes → Bytes → Bytes → Bool
same_name ns key ms other = bytes_eq ns ms && bytes_eq key other

val_of-if :
    (b : Bool) (x y : Option Attribute)
    → val_of (if b then x else y) ≡ (if b then val_of x else val_of y)
val_of-if true x y = refl
val_of-if false x y = refl

attribute_val-cons :
    (ns key : Bytes) (a : Attribute) (rest : List Attribute)
    → attribute_val ns key (a ∷ rest)
      ≡ (if is_named ns key a then some a.val else attribute_val ns key rest)
unfolding attribute_val find_attribute
attribute_val-cons ns key a rest =
    val_of-if (is_named ns key a) (some a) (find_attribute ns key rest)

-- A name is found through another attribute of the same name.
is_named-same :
    (ns key ms other : Bytes) (a : Attribute)
    → is_named ns key a ≡ true
    → is_named ms other a ≡ same_name ns key ms other
is_named-same ns key ms other a h = ground (
  arith,
  bytes_eq_iff a.namespace ns,
  bytes_eq_iff a.key key,
  bytes_eq_iff a.namespace ms,
  bytes_eq_iff a.key other,
  bytes_eq_iff ns ms,
  bytes_eq_iff key other,
)

is_named-other :
    (ns key ms other : Bytes) (a : Attribute)
    → is_named ns key a ≡ false
    → (is_named ms other a && same_name ns key ms other) ≡ false
is_named-other ns key ms other a h = ground (
  arith,
  bytes_eq_iff a.namespace ns,
  bytes_eq_iff a.key key,
  bytes_eq_iff a.namespace ms,
  bytes_eq_iff a.key other,
  bytes_eq_iff ns ms,
  bytes_eq_iff key other,
)

if-again :
    (s : Bool) (x y z : Option Bytes) → (if s then x else z) ≡ (if s then x else if s then y else z)
if-again true x y z = refl
if-again false x y z = refl

if-swap :
    (m s : Bool) (x y z : Option Bytes)
    → (m && s) ≡ false
    → (if m then x else if s then y else z) ≡ (if s then y else if m then x else z)
if-swap true true x y z h = absurd cc
if-swap true false x y z h = refl
if-swap false s x y z h = refl

attribute_val-nil : (ns key : Bytes) → attribute_val ns key [] ≡ none
unfolding attribute_val find_attribute
attribute_val-nil ns key = refl

written_value-const : (val : Bytes) (o : Option Bytes) → written_value (λ old. val) val o ≡ val
written_value-const val none = refl
written_value-const val (some old) = refl

-- A value that is read after it is written is the new one, and another one is the old one.
attribute_val-update_attribute :
    (f : Bytes → Bytes) (ns key val ms other : Bytes) (attributes : List Attribute)
    → attribute_val ms other (update_attribute f ns key val attributes) ≡ (
        if same_name ns key ms other
        then some (written_value f val (attribute_val ns key attributes))
        else attribute_val ms other attributes)
unfolding update_attribute
attribute_val-update_attribute f ns key val ms other [] =
    attribute_val-cons ms other (named ns key val) []
    ∙ ap
        (λ o.
          if same_name ns key ms other
          then some (written_value f val o)
          else attribute_val ms other [])
        (sym (attribute_val-nil ns key))
attribute_val-update_attribute f ns key val ms other (a ∷ rest) =
    elim (Bool-cases (is_named ns key a)) [
      | inl e ↦
          let changed = attribute_val-cons ms other (named a.namespace a.key (f a.val)) rest in
          rw e (
            rw (changed, attribute_val-cons ns key a rest, e, attribute_val-cons ms other a rest)
              (rw (is_named-same ns key ms other a e) (
                if-again (same_name ns key ms other) (some (f a.val)) (some a.val)
                  (attribute_val ms other rest))))
      | inr e ↦
          let later : List Attribute = update_attribute f ns key val rest in
          rw e (
            rw (attribute_val-cons ms other a later, attribute_val-cons ns key a rest, e)
              (rw
                (
                  attribute_val-cons ms other a rest,
                  attribute_val-update_attribute f ns key val ms other rest,
                )
                (if-swap (is_named ms other a) (same_name ns key ms other) (some a.val)
                  (some (written_value f val (attribute_val ns key rest)))
                  (attribute_val ms other rest) (is_named-other ns key ms other a e))))
    ]

-- An attribute that `addAttributeValue` extends has its old value and the new one behind it, with the
-- separator between them where the old one does not end in it, or in front of it with the separator;
-- the new value alone where there was none or an empty one. Every other attribute keeps its value.
pub attribute_val-add_attribute_value :
    (ns key val : Bytes) (prepend : Bool) (sep ms other : Bytes) (attributes : List Attribute)
    → attribute_val ms other (add_attribute_value ns key val prepend sep attributes) ≡ (
        if same_name ns key ms other
        then some
            (written_value (added_value prepend sep val) val (attribute_val ns key attributes))
        else attribute_val ms other attributes)
unfolding add_attribute_value
attribute_val-add_attribute_value ns key val prepend sep ms other attributes =
    attribute_val-update_attribute (added_value prepend sep val) ns key val ms other attributes

-- `SetAttribute` sets the value of its attribute and keeps every other one.
pub attribute_val-set_attribute :
    (ns key val ms other : Bytes) (attributes : List Attribute)
    → attribute_val ms other (set_attribute ns key val attributes)
      ≡ (if same_name ns key ms other then some val else attribute_val ms other attributes)
unfolding set_attribute
attribute_val-set_attribute ns key val ms other attributes =
    attribute_val-update_attribute (λ old. val) ns key val ms other attributes
    ∙ ap (λ v. if same_name ns key ms other then some v else attribute_val ms other attributes)
        (written_value-const val (attribute_val ns key attributes))
