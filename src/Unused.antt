-- ===== src/Unused.antt =====
-- transformer/transformers/unusedextensions.go: `UnusedExtensions` on a document and the children of
-- its `<head>`.
pub mod Kept
pub mod Uses
use amppackager.Prelude.{
  ℕ, Bool, true, false, not, ◌&&◌, ◌||◌, List, [], ◌∷◌, ◌++◌, Option, none, some, if◌then◌else◌,
}
use amppackager.Prelude.Text.{Bytes, codes, bytes_eq}
use amppackager.Transformer.{equal_fold, fold_case}
use amppackager.Transformer.Head.{goes_on}
use amppackager.Dom.{Kind, element_node, Info, Tree, node, Forest, end, child}
use amppackager.Dom.Attributes.{attribute_val}
use amppackager.Printer.{mem_text, has_children}
use amppackager.Reorder.Scripts.{amp_extension_name}

abbrev pub element_exempted_extensions : List Bytes
element_exempted_extensions =
    codes "amp-accordion"
    ∷ codes "amp-ad"
    ∷ codes "amp-anim"
    ∷ codes "amp-apester-media"
    ∷ codes "amp-audio"
    ∷ codes "amp-brid-player"
    ∷ codes "amp-brightcove"
    ∷ codes "amp-call-tracking"
    ∷ codes "amp-carousel"
    ∷ codes "amp-dailymotion"
    ∷ codes "amp-experiment"
    ∷ codes "amp-facebook"
    ∷ codes "amp-fit-text"
    ∷ codes "amp-font"
    ∷ codes "amp-fx-flying-carpet"
    ∷ codes "amp-gfycat"
    ∷ codes "amp-iframe"
    ∷ codes "amp-image-lightbox"
    ∷ codes "amp-instagram"
    ∷ codes "amp-install-serviceworker"
    ∷ codes "amp-izlesene"
    ∷ codes "amp-jwplayer"
    ∷ codes "amp-kaltura-player"
    ∷ codes "amp-lightbox"
    ∷ codes "amp-list"
    ∷ codes "amp-live-list"
    ∷ codes "amp-o2-player"
    ∷ codes "amp-pinterest"
    ∷ codes "amp-reach-player"
    ∷ codes "amp-selector"
    ∷ codes "amp-sidebar"
    ∷ codes "amp-social-share"
    ∷ codes "amp-soundcloud"
    ∷ codes "amp-springboard-player"
    ∷ codes "amp-sticky-ad"
    ∷ codes "amp-twitter"
    ∷ codes "amp-user-notification"
    ∷ codes "amp-vimeo"
    ∷ codes "amp-vine"
    ∷ codes "amp-youtube"
    ∷ []

abbrev pub different_element_exempted_extensions : List Bytes
different_element_exempted_extensions =
    codes "amp-access" ∷ codes "amp-form" ∷ codes "amp-mustache" ∷ []

abbrev named : Bytes → Option Bytes → List Bytes
unfolding fold_case
named extension none = []
named extension (some v) = if equal_fold v extension then extension ∷ [] else []

abbrev is_element : Kind → Bool
is_element element_node = true
is_element _ = false

-- `insertMatchingExtensions`: the keys that it inserts.
unfoldable pub matching_extensions : Info → List Bytes
unfolding named mem_text attribute_val
matching_extensions i =
    if not (is_element i.kind)
    then []
    else if bytes_eq i.data_text (codes "script")
    then named (codes "amp-access") (attribute_val [] (codes "id") i.attributes)
      ++ named (codes "amp-mustache") (attribute_val [] (codes "template") i.attributes)
    else if bytes_eq i.data_text (codes "amp-embed")
    then codes "amp-ad" ∷ []
    else if bytes_eq i.data_text (codes "form")
    then codes "amp-form" ∷ []
    else if bytes_eq i.data_text (codes "template")
    then codes "amp-mustache" ∷ []
    else if mem_text i.data_text element_exempted_extensions
    then i.data_text ∷ []
    else []

-- The first loop of `UnusedExtensions`, over the nodes below the root.
unfoldable pub extensions_used : Forest → List Bytes
unfolding matching_extensions
extensions_used end = []
extensions_used (child (node i cs) rest) =
    let below = extensions_used cs in
    let later = extensions_used rest in matching_extensions i ++ below ++ later

abbrev is_unused_name : List Bytes → Option Bytes → Bool
unfolding mem_text
is_unused_name used none = false
is_unused_name used (some ext) =
    not (bytes_eq ext [])
    && (mem_text ext element_exempted_extensions
        || mem_text ext different_element_exempted_extensions)
    && not (mem_text ext used)

-- Whether a child of `<head>` is removed.
unfoldable pub is_unused : List Bytes → Tree → Bool
unfolding is_unused_name amp_extension_name
is_unused used (node i cs) = is_unused_name used (amp_extension_name i)

abbrev pub parent : Tree → Bool
parent (node i cs) = has_children cs

-- The second loop, with whether the child before has children: behind a removed child it goes on
-- from the node before it in document order, as that of `extractPreloads` does.
unfoldable pub remove_unused : List Bytes → Option Bool → List Tree → List Tree
unfolding is_unused
remove_unused used previous [] = []
remove_unused used previous (t ∷ ts) =
    let kept = remove_unused used (some (parent t)) ts in
    let behind = remove_unused used previous ts in
    if is_unused used t then (if goes_on previous then behind else ts) else t ∷ kept

-- `UnusedExtensions`, for the nodes of the document and the children of its head.
unfoldable pub unused_extensions : Forest → List Tree → List Tree
unfolding extensions_used remove_unused
unused_extensions nodes children = remove_unused (extensions_used nodes) none children
