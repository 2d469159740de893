-- ===== src/Printer.antt =====
-- transformer/printer/printer.go: `Print` writes a document to a writer that does not fail, as the
-- builder of transformer/transformer.go does not. What `render` reads through the parents of a node
-- is passed down: the ancestors, the parent first, and whether a node is the first that is rendered.
pub mod Attributes
pub mod Comments
pub mod Errors
pub mod Reader
pub mod Reading
pub mod RoundTrip
use amppackager.Prelude.{
  ℕ, Bool, true, false, not, ◌&&◌, ◌||◌, List, [], ◌∷◌, ◌++◌, Option, none, some, ◌==◌,
  if◌then◌else◌, Result, ok, err, ◌>>=◌,
}
use amppackager.Prelude.Text.{Bytes, codes, bytes_eq}
use amppackager.Transformer.{equal_fold, fold_case}
use amppackager.Dom.{
  Kind, error_node, text_node, document_node, element_node, comment_node, doctype_node,
  unknown_node, Info, Tree, node, Forest, end, child,
}
use amppackager.Dom.Attributes.{attribute_val}
use amppackager.Printer.Attributes.{render_attrs, sort_attributes}

-- `nil_parent` is the panic on a text without a parent.
pub data RenderError : Type 0 where
  cannot_render_error_node unknown_node_type void_element_has_children nil_parent : RenderError

abbrev pub Rendered : Type 0
Rendered = Result RenderError Bytes

unfoldable pub mem_text : Bytes → List Bytes → Bool
mem_text t [] = false
mem_text t (u ∷ us) = bytes_eq t u || mem_text t us

abbrev pub void_elements : List Bytes
void_elements =
    codes "area"
    ∷ codes "base"
    ∷ codes "br"
    ∷ codes "col"
    ∷ codes "command"
    ∷ codes "embed"
    ∷ codes "hr"
    ∷ codes "img"
    ∷ codes "input"
    ∷ codes "keygen"
    ∷ codes "link"
    ∷ codes "meta"
    ∷ codes "param"
    ∷ codes "source"
    ∷ codes "track"
    ∷ codes "wbr"
    ∷ []

abbrev pub raw_text_elements : List Bytes
raw_text_elements = codes "iframe" ∷ codes "noscript" ∷ codes "script" ∷ codes "style" ∷ []

abbrev pub is_element : Kind → Bool
is_element element_node = true
is_element _ = false

-- `isHTMLType`
unfoldable pub is_html_type : Option Bytes → Bool
unfolding fold_case
is_html_type none = false
is_html_type (some v) =
    equal_fold v (codes "text/html") || equal_fold v (codes "application/xhtml+xml")

-- `isSVGForeignObject`
unfoldable pub is_svg_foreign_object : Bytes → Bool
is_svg_foreign_object atom =
    bytes_eq atom (codes "foreignObject")
    || bytes_eq atom (codes "desc")
    || bytes_eq atom (codes "title")

-- `isHTMLIntegrationPoint`
unfoldable pub is_html_integration_point : Info → Bool
unfolding is_html_type is_svg_foreign_object attribute_val
is_html_integration_point i =
    is_element i.kind
    && ((bytes_eq i.namespace (codes "math")
          && bytes_eq i.atom (codes "annotation-xml")
          && is_html_type (attribute_val [] (codes "encoding") i.attributes))
        || (bytes_eq i.namespace (codes "svg") && is_svg_foreign_object i.atom))

-- `isForeignElement`
unfoldable pub is_foreign_element : Info → Bool
is_foreign_element i =
    is_element i.kind && (bytes_eq i.atom (codes "svg") || bytes_eq i.atom (codes "math"))

-- The loop of `renderElementNode` over a void element and its ancestors.
unfoldable pub in_foreign_content : List Info → Bool
unfolding is_html_integration_point is_foreign_element
in_foreign_content [] = false
in_foreign_content (p ∷ ps) =
    let above = in_foreign_content ps in
    if is_html_integration_point p then false else if is_foreign_element p then true else above

abbrev pub is_comment : Kind → Bool
is_comment comment_node = true
is_comment _ = false

abbrev starts_a_line : Bytes → Bool
starts_a_line [] = false
starts_a_line (c ∷ cs) = c == 13 || c == 10

-- Two outputs, one behind the other.
infixr 40 ◌then◌
abbrev pub ◌then◌ : Rendered → Rendered → Rendered
first then second = first >>= λ a. second >>= λ b. ok (a ++ b)

abbrev pub void_end : Bool → Bytes
void_end foreign = if foreign then codes " />" else codes ">"

unfoldable pub is_void : Info → Bool
unfolding mem_text
is_void i = mem_text i.atom void_elements

abbrev pub has_children : Forest → Bool
has_children end = false
has_children (child t ts) = true

-- Whether the texts among the children are written as they stand.
unfoldable pub is_raw : Info → Bool
unfolding mem_text
is_raw i = is_element i.kind && mem_text i.data_text raw_text_elements

-- `strings.ToLower` and `html.EscapeString` are parameters.
module _ (to_lower : Bytes → Bytes) (escape : Bytes → Bytes) where
  -- The case `html.TextNode` of `render`: the parent, and whether nothing is rendered before.
  unfoldable pub render_text : List Info → Bool → Bytes → Rendered
  render_text above first [] = ok []
  render_text [] first (c ∷ cs) = err nil_parent
  render_text (p ∷ ps) first (c ∷ cs) =
      if (bytes_eq p.atom (codes "pre") || bytes_eq p.atom (codes "textarea"))
        && first
        && starts_a_line (c ∷ cs)
      then ok (escape (10 ∷ c ∷ cs))
      else ok (escape (c ∷ cs))

  -- The opening tag without its end.
  unfoldable pub open_tag : Info → Bytes
  unfolding sort_attributes render_attrs
  open_tag i =
      b'<' ∷ to_lower i.data_text ++ render_attrs to_lower escape (sort_attributes i.attributes)

  unfoldable pub close_tag : Info → Bytes
  close_tag i = codes "</" ++ to_lower i.data_text ++ codes ">"

  -- `renderElementNode`, with what its children give.
  unfoldable pub render_element_node : List Info → Info → Forest → Rendered → Rendered
  unfolding open_tag close_tag in_foreign_content is_void
  render_element_node above i cs inside =
      if is_void i
      then if has_children cs
        then err void_element_has_children
        else ok (open_tag i ++ void_end (in_foreign_content (i ∷ above)))
      else ok (open_tag i ++ codes ">") then inside then ok (close_tag i)

  -- The switch of `render`.
  unfoldable pub render_node : Kind → List Info → Bool → Bool → Info → Forest → Rendered → Rendered
  unfolding render_text render_element_node
  render_node error_node above raw first i cs inside = err cannot_render_error_node
  render_node text_node above raw first i cs inside =
      if raw then ok i.data_text else render_text above first i.data_text
  render_node document_node above raw first i cs inside = inside
  render_node element_node above raw first i cs inside = render_element_node above i cs inside
  render_node comment_node above raw first i cs inside = ok []
  render_node doctype_node above raw first i cs inside =
      ok (codes "<!doctype " ++ i.data_text ++ codes ">")
  render_node unknown_node above raw first i cs inside = err unknown_node_type

  -- The loops over the children of a node, with its ancestors, whether its texts are raw, and
  -- whether nothing is rendered before (`isFirstNode`).
  unfoldable pub render_children : List Info → Bool → Bool → Forest → Rendered
  unfolding render_node is_raw
  render_children above raw first end = ok []
  render_children above raw first (child (node i cs) rest) =
      let inside = render_children (i ∷ above) (is_raw i) true cs in
      let behind = render_children above raw (first && is_comment i.kind) rest in
      render_node i.kind above raw first i cs inside then behind

  -- `Print`
  unfoldable pub print : Tree → Rendered
  unfolding render_children render_node is_raw
  print (node i cs) =
      render_node i.kind [] false true i cs (render_children (i ∷ []) (is_raw i) true cs)
