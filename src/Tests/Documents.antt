-- ===== src/Tests/Documents.antt =====
-- Tests of the pass over a document, of StripJS and of ReorderHead.
use amppackager.Prelude.{
  ℕ, ◌≡◌, refl, true, List, [], ◌∷◌, Option, none, some, All, Any, Bool, if◌then◌else◌, arith, inl,
  sym, ◌↔◌,
}
use mathlib.Core.Path.{subst}
use amppackager.Prelude.Text.{Bytes, codes, bytes_eq, bytes_eq_iff}
use amppackager.Transformer.{Attribute}
use amppackager.Dom.{
  document_node, element_node, Info, Tree, node, Forest, end, child, AllNodes, prune, count,
}
use amppackager.Dom.Walk.{at, walk}
use amppackager.Dom.WalkLaws.{walk-prune}
use amppackager.StripJs.{strip_js}
use amppackager.StripJs.Events.{is_event, strip_events}
use amppackager.StripJs.EventLaws.{no_events}
use amppackager.StripJs.Spaced.{strip_events-Spaced}
use amppackager.StripJs.Kept.{Allowed, strip_js-Allowed}
use amppackager.Reorder.{info, reorder_head}
use amppackager.Reorder.Scripts.{is_script_amp_extension, amp_extension_name}
use amppackager.Reorder.Unique.{sum}
use amppackager.Reorder.Slots.{staying}
use amppackager.Reorder.Kept.{reorder_head-staying}
use amppackager.Transformer.Formats.{amp4email, or_all, require_amp_attribute}
use amppackager.Printer.{mem_text}
use amppackager.Unused.{element_exempted_extensions, unused_extensions}
use amppackager.Unused.Uses.{Activates, same_name, mem_text_iff}
use amppackager.Unused.Kept.{
  Wanted, no_extension, is_used, chosen_of, unused_extensions-chosen, unused_extensions-Wanted,
}
use amppackager.Transformer.Declared.{DeclaresOne, require_amp_attribute_iff}

abbrev attr : Bytes → Bytes → Attribute
attr key val = record { namespace = []; key = key; val = val }

abbrev element : Bytes → List Attribute → Forest → Tree
element tag attributes cs =
    node
      (record {
        kind = element_node;
        atom = tag;
        data_text = tag;
        namespace = [];
        attributes = attributes;
      })
      cs

abbrev document : Info
document = record {
  kind = document_node;
  atom = [];
  data_text = [];
  namespace = [];
  attributes = [];
}

abbrev page : Forest
page =
    child (element (codes "script") (attr (codes "src") (codes "https://evil.example/") ∷ []) end)
      (child (element (codes "a") (attr (codes "onclick") (codes "f()") ∷ []) end) end)

strip_js-Allowed_example :
    (left : Forest) × (strip_js (node document page) ≡ some (node document left))
    × AllNodes Allowed left
strip_js-Allowed_example = strip_js-Allowed document page refl

strip_page :
    strip_js (node document page) ≡ some (node document (child (element (codes "a") [] end) end))
unfolding strip_js
strip_page = refl

abbrev onclick : Attribute
onclick = attr (codes "onclick") (codes "f()")

abbrev onload : Attribute
onload = attr (codes "onload") (codes "g()")

abbrev class : Attribute
class = attr (codes "class") (codes "c")

strip_events-Spaced_example :
    strip_events (onclick ∷ class ∷ onload ∷ []) ≡ no_events (onclick ∷ class ∷ onload ∷ [])
unfolding is_event
strip_events-Spaced_example =
    strip_events-Spaced (onclick ∷ class ∷ onload ∷ []) (refl, (refl, (tt, tt)))
      ((refl, (refl, tt)), ((refl, tt), (tt, tt)))

-- An event behind an event stays, if another attribute follows.
strip_events_next : strip_events (onclick ∷ onload ∷ class ∷ []) ≡ onload ∷ class ∷ []
unfolding strip_events
strip_events_next = refl

abbrev only_elements : Info → Option Info
only_elements i = elim i.kind [ element_node ↦ some i | document_node ↦ some i | _ ↦ none ]

walk-prune_example :
    walk only_elements 3 (at (node document page) [])
    ≡ some (node document (prune only_elements page))
unfolding count
walk-prune_example = walk-prune only_elements document document page 2 refl (omega arith)

-- Every node but the scripts of extensions.
abbrev plain_weight : Tree → ℕ
plain_weight n = if is_script_amp_extension (info n) then 0 else 1

plain_weight-extension : (n : Tree) → is_script_amp_extension (info n) ≡ true → plain_weight n ≡ 0
plain_weight-extension n h = rw h refl

abbrev identity : Bytes → Bytes
identity text = text

abbrev head : List Tree
head =
    element (codes "title") [] end
    ∷ element (codes "meta") (attr (codes "charset") (codes "latin1") ∷ []) end
    ∷ element (codes "meta") (attr (codes "charset") (codes "utf-8") ∷ []) end
    ∷ []

reorder_head-staying_example :
    sum plain_weight (reorder_head identity head) ≡ sum plain_weight (staying identity head)
reorder_head-staying_example =
    reorder_head-staying plain_weight identity head plain_weight-extension

abbrev html_attributes : List Attribute
html_attributes = class ∷ attr (codes "amp4email") [] ∷ []

require_amp_attribute_iff_example :
    (require_amp_attribute html_attributes (amp4email ∷ []) ≡ true)
    ↔ Any (λ a. (a.namespace ≡ []) × DeclaresOne (or_all (amp4email ∷ [])) a.key) html_attributes
require_amp_attribute_iff_example = require_amp_attribute_iff html_attributes (amp4email ∷ [])

abbrev extension : Bytes → Tree
extension name = element (codes "script") (attr (codes "custom-element") name ∷ []) end

abbrev extensions : List Tree
extensions =
    element (codes "title") [] (child (element [] [] end) end)
    ∷ extension (codes "amp-ad")
    ∷ extension (codes "amp-font")
    ∷ extension (codes "amp-list")
    ∷ []

abbrev body : Forest
body = child (element (codes "amp-list") [] end) end

-- The scripts that are not of an extension, and that of amp-list.
abbrev needed : Option Bytes → Bool
needed none = true
needed (some ext) = bytes_eq ext (codes "amp-list")

abbrev needed_of : Tree → Bool
unfolding amp_extension_name
needed_of t = needed (amp_extension_name (info t))

amp_list-element : Any (λ e. codes "amp-list" ≡ e) element_exempted_extensions
unfolding mem_text
amp_list-element = (mem_text_iff (codes "amp-list") element_exempted_extensions).0 refl

needed_name-Wanted :
    (t : Tree) (o : Option Bytes)
    → amp_extension_name (info t) ≡ o
    → needed o ≡ true
    → Wanted body t
needed_name-Wanted t none e h = no_extension e
needed_name-Wanted t (some ext) e h =
    let same = (bytes_eq_iff ext (codes "amp-list")).0 h in
    is_used e (
      inl (
        subst (Activates (info (element (codes "amp-list") [] end))) (sym same)
          (same_name refl amp_list-element)))

needed-Wanted : (t : Tree) → needed_of t ≡ true → Wanted body t
unfolding needed_of
needed-Wanted t h = needed_name-Wanted t (amp_extension_name (info t)) refl h

unused_extensions-chosen_example :
    chosen_of needed_of (unused_extensions body extensions) ≡ chosen_of needed_of extensions
unused_extensions-chosen_example = unused_extensions-chosen needed_of body extensions needed-Wanted

abbrev more_scripts : List Tree
more_scripts = extension (codes "amp-ad") ∷ extension (codes "amp-font") ∷ []

unused_extensions-Wanted_example :
    All (Wanted body) (unused_extensions body (extension (codes "amp-list") ∷ more_scripts))
unfolding amp_extension_name
unused_extensions-Wanted_example =
    unused_extensions-Wanted body (extension (codes "amp-list")) more_scripts
      (refl, (refl, (refl, tt))) (needed-Wanted (extension (codes "amp-list")) refl)

-- Behind a node with children the loop ends at the first unused extension.
font_kept :
    unused_extensions body extensions
    ≡ element (codes "title") [] (child (element [] [] end) end)
      ∷ extension (codes "amp-font")
      ∷ extension (codes "amp-list")
      ∷ []
unfolding unused_extensions
font_kept = refl
