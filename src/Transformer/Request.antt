-- ===== src/Transformer/Request.antt =====
-- transformer/transformer.go: the requests, the transformers of a configuration, and the search in a
-- document.
use amppackager.Prelude.{
  ℕ, Bool, true, false, List, [], ◌∷◌, ◌++◌, Option, none, some, if◌then◌else◌,
}
use amppackager.Prelude.Int.{ℤ}
use amppackager.Prelude.Text.{Bytes, codes, bytes_eq}
use amppackager.Utf8.{Utf8Error}
use amppackager.Versions.{VersionError}
use amppackager.Dom.{Kind, element_node, Info, Tree, node, Forest, end, child}
use amppackager.Printer.{RenderError}
use amppackager.Transformer.{Attribute, Node, Atom, script, link, other_atom}
use amppackager.Transformer.Head.{Preload}
use amppackager.Transformer.Formats.{HtmlFormat}

-- The transformers of `transformerFunctionMap`.
pub data Transformer : Type 0 where
  absolute_url amp_boilerplate amp_runtime_css link_tag node_cleanup preload_image reorder_head :
      Transformer
  server_side_rendering strip_js strip_script_comments transformed_identifier unused_extensions :
      Transformer
  url_rewrite : Transformer

abbrev pub transformer_function_map : List (Bytes × Transformer)
transformer_function_map =
    (codes "absoluteurl", absolute_url)
    ∷ (codes "ampboilerplate", amp_boilerplate)
    ∷ (codes "ampruntimecss", amp_runtime_css)
    ∷ (codes "linktag", link_tag)
    ∷ (codes "nodecleanup", node_cleanup)
    ∷ (codes "preloadimage", preload_image)
    ∷ (codes "reorderhead", reorder_head)
    ∷ (codes "serversiderendering", server_side_rendering)
    ∷ (codes "stripjs", strip_js)
    ∷ (codes "stripscriptcomments", strip_script_comments)
    ∷ (codes "transformedidentifier", transformed_identifier)
    ∷ (codes "unusedextensions", unused_extensions)
    ∷ (codes "urlrewrite", url_rewrite)
    ∷ []

-- `rpb.Request_TransformersConfig`
pub data Config : Type 0 where
  default_config none_config validation_config custom_config other_config : Config

abbrev pub is_custom : Config → Bool
is_custom custom_config = true
is_custom _ = false

-- `configMap`
abbrev pub config_map : Config → List Transformer
config_map default_config =
    node_cleanup ∷ strip_js ∷ strip_script_comments ∷ link_tag ∷ absolute_url ∷ amp_boilerplate
    ∷ unused_extensions ∷ server_side_rendering ∷ amp_runtime_css ∷ transformed_identifier
    ∷ url_rewrite ∷ preload_image ∷ reorder_head ∷ []
config_map validation_config = reorder_head ∷ []
config_map _ = []

pub record Request : Type 0 where
  pub html : Bytes
  pub allowed_formats : List HtmlFormat
  pub config : Config
  pub transformers : List Bytes
  pub document_url : Bytes
  pub version : ℤ

pub record Metadata : Type 0 where
  pub preloads : List Preload
  pub max_age_secs : ℕ

pub record Context (U : Type 0) : Type 0 where
  pub dom : Tree
  pub document_url : U
  pub base_url : U
  pub version : ℤ

pub data ProcessError (E : Type 0) : Type 0 where
  invalid_html : Utf8Error → ProcessError E
  parsing_html missing_html missing_head missing_body missing_amp_attribute : ProcessError E
  no_transformer : Bytes → ProcessError E
  bad_document_url extract_crash : ProcessError E
  no_version : VersionError → ProcessError E
  failed : E → ProcessError E
  not_rendered : RenderError → ProcessError E

abbrev first_found : Option Tree → Option Tree → Option Tree
first_found none later = later
first_found (some t) later = some t

-- The loop of `FindNode`, in document order.
unfoldable pub find_below : Bytes → Forest → Option Tree
find_below atom end = none
find_below atom (child (node i cs) rest) =
    let below = find_below atom cs in
    let later = find_below atom rest in
    if bytes_eq i.atom atom then some (node i cs) else first_found below later

-- `FindNode`
unfoldable pub find_node : Bytes → Tree → Option Tree
unfolding find_below
find_node atom (node i cs) = if bytes_eq i.atom atom then some (node i cs) else find_below atom cs

abbrev pub attributes_of : Tree → List Attribute
attributes_of (node i cs) = i.attributes

-- The nodes in document order, as the first pass over them reads them.
abbrev atom_of : Bytes → Atom
atom_of name =
    if bytes_eq name (codes "script")
    then script
    else if bytes_eq name (codes "link")
    then link
    else other_atom

abbrev is_parent : Forest → Bool
is_parent end = false
is_parent (child t ts) = true

abbrev tag_of : Kind → Bytes → Option Bytes
tag_of element_node tag = some tag
tag_of _ tag = none

abbrev pub node_of : Info → Forest → Node
node_of i cs = record {
  atom = atom_of i.atom;
  element = tag_of i.kind i.data_text;
  attributes = i.attributes;
  has_children = is_parent cs;
}

unfoldable pub nodes_of : Forest → List Node
nodes_of end = []
nodes_of (child (node i cs) rest) =
    let below = nodes_of cs in let later = nodes_of rest in node_of i cs ∷ below ++ later
