-- ===== src/StripJs.antt =====
-- transformer/transformers/stripjs.go: what `StripJS` does with each node of a document.
pub mod Events
pub mod EventLaws
pub mod Kept
pub mod Spaced
use amppackager.Prelude.{
  ℕ, zero, suc, ◌-◌, Bool, true, false, not, ◌&&◌, ◌||◌, List, [], ◌∷◌, ◌++◌, Option, none, some,
  ltb, leb, ◌==◌, if◌then◌else◌, length,
}
use amppackager.Prelude.Text.{Bytes, codes, bytes_eq}
use amppackager.Transformer.{Attribute, lower_case}
use amppackager.Dom.{Kind, element_node, Info, Tree, node, Forest, count}
use amppackager.Dom.Attributes.{attribute_val, find_attribute}
use amppackager.Dom.Walk.{at, walk}
use amppackager.StripJs.Events.{strip_events}

abbrev pub has_prefix : Bytes → Bytes → Bool
has_prefix text [] = true
has_prefix [] (p ∷ ps) = false
has_prefix (c ∷ cs) (p ∷ ps) = c == p && has_prefix cs ps

abbrev pub amp_cache_root_url : Bytes
amp_cache_root_url = codes "https://cdn.ampproject.org/"

-- `strings.ToLower` on text that is compared with ASCII without a `k`: the capital I with a dot
-- falls to ASCII, too.
unfoldable pub lower_text : Bytes → Bytes
lower_text [] = []
lower_text (c ∷ []) = lower_case c ∷ []
lower_text (c ∷ d ∷ ds) =
    let rest = lower_text (d ∷ ds) in
    let behind = lower_text ds in
    if c == 196 && d == 176 then b'i' ∷ behind else lower_case c ∷ rest

-- Whether the values of `src` and `type` let a script stay.
unfoldable pub keeps_type : Bool → Bytes → Bool
keeps_type is_cache_src type =
    if bytes_eq type (codes "application/json")
      || bytes_eq type (codes "application/ld+json")
      || bytes_eq type (codes "text/plain")
    then true
    else if bytes_eq type (codes "text/javascript") || bytes_eq type (codes "module")
    then is_cache_src
    else false

unfoldable pub keeps_script : Option Bytes → Option Bytes → Bool
unfolding keeps_type lower_text
keeps_script none none = false
keeps_script none (some type) = keeps_type false (lower_text type)
keeps_script (some src) none = has_prefix (lower_text src) amp_cache_root_url
keeps_script (some src) (some type) =
    if has_prefix (lower_text src) amp_cache_root_url
    then keeps_type true (lower_text type)
    else false

abbrev pub is_element : Kind → Bool
is_element element_node = true
is_element _ = false

abbrev pub with_attributes : Info → List Attribute → Info
with_attributes i attributes = record {
  kind = i.kind;
  atom = i.atom;
  data_text = i.data_text;
  namespace = i.namespace;
  attributes = attributes;
}

-- The body of the loop of `StripJS`: nothing where the node is removed.
unfoldable pub strip_node : Info → Option Info
unfolding strip_events keeps_script attribute_val
strip_node i =
    if not (is_element i.kind)
    then some i
    else if not (bytes_eq i.atom (codes "script"))
    then some (with_attributes i (strip_events i.attributes))
    else if keeps_script (attribute_val [] (codes "src") i.attributes)
        (attribute_val [] (codes "type") i.attributes)
    then some i
    else none

-- `StripJS`, from the root of the document, with fuel for every node.
unfoldable pub strip_js : Tree → Option Tree
unfolding walk strip_node count
strip_js (node i cs) = walk strip_node (suc (count cs)) (at (node i cs) [])
