-- ===== src/StripJs/Kept.antt =====
-- What scripts transformer/transformers/stripjs.go lets stay.
use amppackager.Prelude.{
  Bool, true, false, not, List, [], ◌∷◌, Option, none, some, ◌≡◌, refl, sym, ap, ◌∙◌, arith,
  Bool-cases, inl, inr, Any, if◌then◌else◌,
}
use mathlib.Core.Path.{subst}
use amppackager.Prelude.Text.{Bytes, codes, bytes_eq, bytes_eq_iff}
use amppackager.Dom.{Info, node, Forest, prune, AllNodes, prune-AllNodes, count}
use amppackager.Dom.Attributes.{attribute_val}
use amppackager.Dom.WalkLaws.{walk-prune}
use amppackager.StripJs.{
  has_prefix, amp_cache_root_url, keeps_type, keeps_script, lower_text, is_element, strip_node,
  strip_js,
}
use amppackager.Transformer.{Attribute}
use amppackager.StripJs.Events.{strip_events}

abbrev data_types : List Bytes
data_types = codes "application/json" ∷ codes "application/ld+json" ∷ codes "text/plain" ∷ []

abbrev cache_types : List Bytes
cache_types = codes "text/javascript" ∷ codes "module" ∷ data_types

-- The text is one of some, whatever the case of its letters.
abbrev IsOneOf : Bytes → List Bytes → Type 0
IsOneOf text texts = Any (λ t. lower_text text ≡ t) texts

-- The scripts that may stay: data, and scripts of the AMP cache, of a known type if they have one.
pub data Harmless : Option Bytes → Option Bytes → Type 0 where
  data_script : (type : Bytes) → IsOneOf type data_types → Harmless none (some type)
  cache_script :
      (src : Bytes)
      → has_prefix (lower_text src) amp_cache_root_url ≡ true
      → Harmless (some src) none
  typed_cache_script :
      (src type : Bytes)
      → has_prefix (lower_text src) amp_cache_root_url ≡ true
      → IsOneOf type cache_types
      → Harmless (some src) (some type)

keeps_type-data : (t : Bytes) → keeps_type false t ≡ true → Any (λ d. t ≡ d) data_types
unfolding keeps_type
keeps_type-data t h = ground (
  arith,
  bytes_eq_iff t (codes "application/json"),
  bytes_eq_iff t (codes "application/ld+json"),
  bytes_eq_iff t (codes "text/plain"),
)

keeps_type-cache : (t : Bytes) → keeps_type true t ≡ true → Any (λ d. t ≡ d) cache_types
unfolding keeps_type
keeps_type-cache t h = ground (
  arith,
  bytes_eq_iff t (codes "application/json"),
  bytes_eq_iff t (codes "application/ld+json"),
  bytes_eq_iff t (codes "text/plain"),
  bytes_eq_iff t (codes "text/javascript"),
  bytes_eq_iff t (codes "module"),
)

keeps_script-Harmless : (src type : Option Bytes) → keeps_script src type ≡ true → Harmless src type
unfolding keeps_script
keeps_script-Harmless none none h = absurd (cc)
keeps_script-Harmless none (some t) h = data_script t (keeps_type-data (lower_text t) h)
keeps_script-Harmless (some s) none h = cache_script s h
keeps_script-Harmless (some s) (some t) h =
    elim (Bool-cases (has_prefix (lower_text s) amp_cache_root_url)) [
      | inl e ↦ typed_cache_script s t e (
          keeps_type-cache (lower_text t)
            (sym (ap (λ b. if b then keeps_type true (lower_text t) else false) e) ∙ h))
      | inr e ↦ absurd (cc)
    ]

-- What a node of the document that `StripJS` leaves is.
pub data Allowed (i : Info) : Type 0 where
  no_element : is_element i.kind ≡ false → Allowed i
  no_script :
      bytes_eq i.atom (codes "script") ≡ false
      → (before : List Attribute) → i.attributes ≡ strip_events before
      → Allowed i
  script :
      Harmless
        (attribute_val [] (codes "src") i.attributes)
        (attribute_val [] (codes "type") i.attributes)
      → Allowed i

-- A node is dropped, or what is left of it is allowed.
data Leaves : Option Info → Type 0 where
  drops : Leaves none
  leaves : {i : Info} → Allowed i → Leaves (some i)

Leaves-if :
    (b : Bool) {x y : Option Info}
    → (b ≡ true → Leaves x)
    → (b ≡ false → Leaves y)
    → Leaves (if b then x else y)
Leaves-if true f g = f refl
Leaves-if false f g = g refl

strip_node-Leaves : (i : Info) → Leaves (strip_node i)
unfolding strip_node
strip_node-Leaves i =
    Leaves-if (not (is_element i.kind)) (λ e. leaves (no_element (ground arith)))
      (λ e.
        Leaves-if (not (bytes_eq i.atom (codes "script")))
          (λ d. leaves (no_script (ground arith) i.attributes refl))
          (λ d.
            Leaves-if
              (keeps_script (attribute_val [] (codes "src") i.attributes)
                (attribute_val [] (codes "type") i.attributes))
              (λ k. leaves (script (keeps_script-Harmless _ _ k))) (λ k. drops)))

Leaves-Allowed : {i : Info} → Leaves (some i) → Allowed i
Leaves-Allowed (leaves a) = a

strip_node-root : (i : Info) → is_element i.kind ≡ false → strip_node i ≡ some i
unfolding strip_node
strip_node-root i h = rw h refl

-- `StripJS` goes through a whole document and ends. In the document that it leaves, under the same
-- root, every script is data or comes from the AMP cache, and every other element has the
-- attributes that the loop over them keeps.
pub strip_js-Allowed :
    (root : Info) (children : Forest)
    → is_element root.kind ≡ false
    → (left : Forest) × (strip_js (node root children) ≡ some (node root left))
      × AllNodes Allowed left
unfolding strip_js
strip_js-Allowed root children h = (
  prune strip_node children,
  walk-prune strip_node root root children (count children) (strip_node-root root h) (omega arith),
  prune-AllNodes strip_node Allowed
      (λ i j e. Leaves-Allowed (subst (λ o. Leaves o) e (strip_node-Leaves i))) children,
)
