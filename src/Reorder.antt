-- ===== src/Reorder.antt =====
-- transformer/transformers/reorderhead.go: `ReorderHead` on the children of `<head>`.
pub mod Scripts
pub mod Unique
pub mod Weights
pub mod Kept
pub mod Bound
pub mod Slots
use amppackager.Prelude.{
  ℕ, Bool, true, false, not, ◌&&◌, ◌||◌, List, [], ◌∷◌, ◌++◌, Option, none, some, ◌==◌,
  if◌then◌else◌,
}
use amppackager.Prelude.Text.{Bytes, codes, bytes_eq, lookup, insert}
use amppackager.Dom.{Info, Tree, node}
use amppackager.Dom.Attributes.{attribute_val, has_attribute}
use amppackager.Printer.Attributes.{bytes_lt}
use amppackager.Reorder.Scripts.{
  has_prefix, has_suffix, amp_extension_script_definition, is_script_amp_extension,
  is_script_amp_runtime, is_script_amp_viewer, is_script_render_delaying,
}

pub record HeadNodes : Type 0 where
  pub link_favicon : List Tree
  pub link_resource_hint : List Tree
  pub link_stylesheet_before_amp_custom : List Tree
  pub link_stylesheet_runtime_css : Option Tree
  pub meta_charset : Option Tree
  pub meta_other : List Tree
  pub noscript : Option Tree
  pub other : List Tree
  pub script_amp_runtime : List Tree
  pub script_amp_viewer : Option Tree
  pub script_non_render_delaying : List Tree
  pub script_render_delaying : List Tree
  pub style_amp_boilerplate : Option Tree
  pub style_amp_custom : Option Tree
  pub style_amp_runtime : Option Tree

-- `new(headNodes)`
abbrev pub no_nodes : HeadNodes
no_nodes = record {
  link_favicon = [];
  link_resource_hint = [];
  link_stylesheet_before_amp_custom = [];
  link_stylesheet_runtime_css = none;
  meta_charset = none;
  meta_other = [];
  noscript = none;
  other = [];
  script_amp_runtime = [];
  script_amp_viewer = none;
  script_non_render_delaying = [];
  script_render_delaying = [];
  style_amp_boilerplate = none;
  style_amp_custom = none;
  style_amp_runtime = none;
}

abbrev pub info : Tree → Info
info (node i cs) = i

abbrev pub add_other : Tree → HeadNodes → HeadNodes
add_other n hn = record hn { other = hn.other ++ n ∷ [] }

abbrev pub is_runtime_css : Option Bytes → Bool
is_runtime_css none = false
is_runtime_css (some href) =
    has_prefix href (codes "https://cdn.ampproject.org/") && has_suffix href (codes "/v0.css")

abbrev pub is_nil : Option Tree → Bool
is_nil none = true
is_nil (some n) = false

-- The switch of `registerLink`; `strings.ToLower` is a parameter.
unfoldable pub register_rel : Bytes → Tree → HeadNodes → HeadNodes
unfolding attribute_val
register_rel rel n hn =
    if bytes_eq rel (codes "dns-prefetch preconnect")
    then record hn { link_resource_hint = hn.link_resource_hint ++ n ∷ [] }
    else if bytes_eq rel (codes "icon")
        || bytes_eq rel (codes "icon shortcut")
        || bytes_eq rel (codes "shortcut icon")
    then record hn { link_favicon = hn.link_favicon ++ n ∷ [] }
    else if bytes_eq rel (codes "stylesheet")
    then if is_runtime_css (attribute_val [] (codes "href") (info n).attributes)
      then record hn { link_stylesheet_runtime_css = some n }
      else if is_nil hn.style_amp_custom
      then record hn {
        link_stylesheet_before_amp_custom = hn.link_stylesheet_before_amp_custom ++ n ∷ [];
      }
      else add_other n hn
    else add_other n hn

-- `registerLink`
unfoldable pub register_link : (Bytes → Bytes) → Tree → HeadNodes → HeadNodes
unfolding attribute_val register_rel
register_link to_lower n hn = elim (attribute_val [] (codes "rel") (info n).attributes) [
  | none ↦ add_other n hn
  | some rel ↦ register_rel (to_lower rel) n hn
]

-- `registerMeta`
unfoldable pub register_meta : Tree → HeadNodes → HeadNodes
unfolding has_attribute
register_meta n hn =
    if has_attribute [] (codes "charset") (info n).attributes
    then record hn { meta_charset = some n }
    else record hn { meta_other = hn.meta_other ++ n ∷ [] }

-- `registerScript`
unfoldable pub register_script : Tree → HeadNodes → HeadNodes
unfolding is_script_amp_runtime is_script_amp_viewer is_script_amp_extension
    is_script_render_delaying
register_script n hn =
    if is_script_amp_runtime (info n)
    then record hn { script_amp_runtime = hn.script_amp_runtime ++ n ∷ [] }
    else if is_script_amp_viewer (info n)
    then record hn { script_amp_viewer = some n }
    else if is_script_amp_extension (info n)
    then if is_script_render_delaying (info n)
      then record hn { script_render_delaying = hn.script_render_delaying ++ n ∷ [] }
      else record hn { script_non_render_delaying = hn.script_non_render_delaying ++ n ∷ [] }
    else add_other n hn

-- `registerStyle`
unfoldable pub register_style : Tree → HeadNodes → HeadNodes
unfolding has_attribute
register_style n hn =
    if has_attribute [] (codes "amp-boilerplate") (info n).attributes
      || has_attribute [] (codes "amp4ads-boilerplate") (info n).attributes
    then record hn { style_amp_boilerplate = some n }
    else if has_attribute [] (codes "amp-custom") (info n).attributes
    then record hn { style_amp_custom = some n }
    else if has_attribute [] (codes "amp-runtime") (info n).attributes
    then record hn { style_amp_runtime = some n }
    else add_other n hn

-- The switch of the first loop of `ReorderHead`.
unfoldable pub register : (Bytes → Bytes) → Tree → HeadNodes → HeadNodes
unfolding register_link register_meta register_script register_style
register to_lower n hn =
    if bytes_eq (info n).atom (codes "link")
    then register_link to_lower n hn
    else if bytes_eq (info n).atom (codes "meta")
    then register_meta n hn
    else if bytes_eq (info n).atom (codes "noscript")
    then record hn { noscript = some n }
    else if bytes_eq (info n).atom (codes "script")
    then register_script n hn
    else if bytes_eq (info n).atom (codes "style")
    then register_style n hn
    else add_other n hn

unfoldable pub register_all : (Bytes → Bytes) → List Tree → HeadNodes → HeadNodes
unfolding register
register_all to_lower [] hn = hn
register_all to_lower (n ∷ ns) hn = register_all to_lower ns (register to_lower n hn)

abbrev pub is_new : Option Tree → Bool
is_new none = true
is_new (some n) = false

-- The map and the keys of `uniquifyAndSortByExtensionScript`.
abbrev pub Scripts : Type 0
Scripts = List (Bytes × Tree) × List Bytes

abbrev pub add_script : Option Bytes → Tree → Scripts → Scripts
add_script none s found = found
add_script (some ext) s found =
    if is_new (lookup ext found.0) then (insert ext s found.0, found.1 ++ ext ∷ []) else found

unfoldable pub collect_scripts : List Tree → Scripts → Scripts
unfolding amp_extension_script_definition
collect_scripts [] found = found
collect_scripts (s ∷ ss) found =
    collect_scripts ss (add_script (amp_extension_script_definition (info s)) s found)

unfoldable pub insert_string : Bytes → List Bytes → List Bytes
insert_string k [] = k ∷ []
insert_string k (j ∷ js) =
    let later = insert_string k js in if bytes_lt j k then j ∷ later else k ∷ j ∷ js

-- `sort.Strings`
unfoldable pub sort_strings : List Bytes → List Bytes
unfolding insert_string
sort_strings [] = []
sort_strings (k ∷ ks) = insert_string k (sort_strings ks)

abbrev pub single : Option Tree → List Tree
single none = []
single (some n) = n ∷ []

-- Every key has a script in the map.
unfoldable pub scripts_of : List (Bytes × Tree) → List Bytes → List Tree
scripts_of m [] = []
scripts_of m (e ∷ ks) = single (lookup e m) ++ scripts_of m ks

-- `uniquifyAndSortByExtensionScript`
unfoldable pub uniquify_and_sort_by_extension_script : List Tree → List Tree
unfolding collect_scripts sort_strings scripts_of
uniquify_and_sort_by_extension_script ns =
    let found = collect_scripts ns ([], []) in scripts_of found.0 (sort_strings found.1)

-- The children that are appended to the empty `<head>`.
unfoldable pub in_order : HeadNodes → List Tree
unfolding uniquify_and_sort_by_extension_script
in_order hn =
    single hn.meta_charset
    ++ single hn.link_stylesheet_runtime_css
    ++ single hn.style_amp_runtime
    ++ hn.meta_other
    ++ hn.script_amp_runtime
    ++ single hn.script_amp_viewer
    ++ uniquify_and_sort_by_extension_script hn.script_render_delaying
    ++ uniquify_and_sort_by_extension_script hn.script_non_render_delaying
    ++ hn.link_favicon
    ++ hn.link_resource_hint
    ++ hn.link_stylesheet_before_amp_custom
    ++ single hn.style_amp_custom
    ++ hn.other
    ++ single hn.style_amp_boilerplate
    ++ single hn.noscript

-- `ReorderHead`
unfoldable pub reorder_head : (Bytes → Bytes) → List Tree → List Tree
unfolding register_all in_order
reorder_head to_lower children = in_order (register_all to_lower children no_nodes)
