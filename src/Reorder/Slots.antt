-- ===== src/Reorder/Slots.antt =====
-- The nodes of which `ReorderHead` of transformer/transformers/reorderhead.go has one field each, and
-- which of several such nodes is the one that stays.
use amppackager.Prelude.{
  Bool, true, false, ◌&&◌, ◌||◌, List, [], ◌∷◌, ◌++◌, Option, none, some, if◌then◌else◌,
}
use amppackager.Prelude.Text.{Bytes, codes, bytes_eq}
use amppackager.Dom.{Tree}
use amppackager.Dom.Attributes.{attribute_val, has_attribute}
use amppackager.Reorder.{HeadNodes, info, is_runtime_css, single}
use amppackager.Reorder.Scripts.{is_script_amp_runtime, is_script_amp_viewer}

pub data Slot : Type 0 where
  charset runtime_css runtime_style viewer custom_style boilerplate fallback : Slot

abbrev pub same_slot : Slot → Slot → Bool
same_slot charset charset = true
same_slot runtime_css runtime_css = true
same_slot runtime_style runtime_style = true
same_slot viewer viewer = true
same_slot custom_style custom_style = true
same_slot boilerplate boilerplate = true
same_slot fallback fallback = true
same_slot _ _ = false

abbrev pub slot_node : Slot → HeadNodes → Option Tree
slot_node charset hn = hn.meta_charset
slot_node runtime_css hn = hn.link_stylesheet_runtime_css
slot_node runtime_style hn = hn.style_amp_runtime
slot_node viewer hn = hn.script_amp_viewer
slot_node custom_style hn = hn.style_amp_custom
slot_node boilerplate hn = hn.style_amp_boilerplate
slot_node fallback hn = hn.noscript

-- A stylesheet of the runtime, by the lower case of `rel`.
abbrev pub rel_slot : Bytes → Tree → Option Slot
rel_slot rel n =
    if bytes_eq rel (codes "stylesheet")
      && is_runtime_css (attribute_val [] (codes "href") (info n).attributes)
    then some runtime_css
    else none

abbrev pub link_slot : (Bytes → Bytes) → Option Bytes → Tree → Option Slot
link_slot to_lower none n = none
link_slot to_lower (some rel) n = rel_slot (to_lower rel) n

abbrev pub meta_slot : Tree → Option Slot
meta_slot n = if has_attribute [] (codes "charset") (info n).attributes then some charset else none

abbrev pub script_slot : Tree → Option Slot
script_slot n =
    if is_script_amp_runtime (info n)
    then none
    else if is_script_amp_viewer (info n)
    then some viewer
    else none

abbrev pub style_slot : Tree → Option Slot
style_slot n =
    if has_attribute [] (codes "amp-boilerplate") (info n).attributes
      || has_attribute [] (codes "amp4ads-boilerplate") (info n).attributes
    then some boilerplate
    else if has_attribute [] (codes "amp-custom") (info n).attributes
    then some custom_style
    else if has_attribute [] (codes "amp-runtime") (info n).attributes
    then some runtime_style
    else none

-- The slot of a node, if it has one.
abbrev pub slot_of : (Bytes → Bytes) → Tree → Option Slot
slot_of to_lower n =
    if bytes_eq (info n).atom (codes "link")
    then link_slot to_lower (attribute_val [] (codes "rel") (info n).attributes) n
    else if bytes_eq (info n).atom (codes "meta")
    then meta_slot n
    else if bytes_eq (info n).atom (codes "noscript")
    then some fallback
    else if bytes_eq (info n).atom (codes "script")
    then script_slot n
    else if bytes_eq (info n).atom (codes "style")
    then style_slot n
    else none

-- The node of a slot behind a node that has the slot, if any.
abbrev pub later_of : Slot → Option Slot → Tree → Option Tree → Option Tree
later_of k none n before = before
later_of k (some j) n before = if same_slot j k then some n else before

abbrev pub unless_slot : Option Slot → Tree → List Tree
unless_slot none n = n ∷ []
unless_slot (some k) n = []

module _ (to_lower : Bytes → Bytes) where
  -- The last of the nodes that has a slot.
  abbrev pub last_of : Slot → List Tree → Option Tree → Option Tree
  last_of k [] before = before
  last_of k (n ∷ ns) before = last_of k ns (later_of k (slot_of to_lower n) n before)

  -- The nodes without a slot.
  abbrev pub plain : List Tree → List Tree
  plain [] = []
  plain (n ∷ ns) = unless_slot (slot_of to_lower n) n ++ plain ns

  -- The nodes that are to stay: of each slot the last one, and those without a slot.
  abbrev pub staying : List Tree → List Tree
  staying ns =
      single (last_of charset ns none)
      ++ single (last_of runtime_css ns none)
      ++ single (last_of runtime_style ns none)
      ++ single (last_of viewer ns none)
      ++ single (last_of custom_style ns none)
      ++ single (last_of boilerplate ns none)
      ++ single (last_of fallback ns none)
      ++ plain ns
