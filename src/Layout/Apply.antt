-- ===== src/Layout/Apply.antt =====
-- transformer/layout/layout.go: `ApplyLayout` on an element and its children. Parameters are the
-- numbers (`F`), the names of the layouts and the case of a text.
use amppackager.Prelude.{
  Bool, true, false, not, ◌&&◌, ◌||◌, List, [], ◌∷◌, ◌++◌, Option, none, some, ◌==◌, if◌then◌else◌,
  Result, ok, err, ◌>>=◌,
}
use amppackager.Prelude.Text.{Bytes, codes, bytes_eq}
use amppackager.Transformer.{Attribute}
use amppackager.Dom.{Kind, element_node, Info, Tree, node, Forest, end, child}
use amppackager.Dom.Attributes.{
  attribute_val, set_attribute, append_attribute_with_separator, has_attribute_and_is_not_empty,
}
use amppackager.Dom.Slice.{remove_found}
use amppackager.Layout.{
  CssDimensions, layout_metadata, LayoutError, bad_length, replace_byte, parse_amp_layout,
  get_normalized_layout,
}
use amppackager.Layout.CssLength.{
  Length, LengthError, get_normalized_width, get_normalized_height, Layout, fixed, fixed_height,
  flex_item, fluid, nodisplay, responsive, unknown, layout_is,
}

-- What the code takes from elsewhere: the enum of the validator, the case of a text, and the numbers
-- with their text and the one of `height / width * 100`.
pub record Outside (F : Type 0) : Type 0 where
  pub to_upper : Bytes → Bytes
  pub to_lower : Bytes → Bytes
  pub layout_value : Bytes → Option Layout
  pub layout_name : Layout → Bytes
  pub parse_float : Bytes → Option F
  pub zero_value : F
  pub one : F
  pub forty_four : F
  pub sixty : F
  pub is_zero : F → Bool
  pub format_float : F → Bytes
  pub percent : F → F → Bytes

abbrev pub layout_attribute : Bytes
layout_attribute = codes "i-amphtml-layout"

abbrev starts_with_amp : Bytes → Bool
starts_with_amp (a ∷ m ∷ p ∷ d ∷ rest) = a == b'a' && m == b'm' && p == b'p' && d == b'-'
starts_with_amp _ = false

abbrev is_element : Kind → Bool
is_element element_node = true
is_element _ = false

-- `amphtml.IsAMPCustomElement`
abbrev pub is_amp_custom_element : Info → Bool
is_amp_custom_element i = is_element i.kind && starts_with_amp i.data_text

-- `htmlnode.IsDescendantOf`
unfoldable pub is_descendant_of : List Info → Bytes → Bool
is_descendant_of [] atom = false
is_descendant_of (p ∷ ps) atom =
    let above = is_descendant_of ps atom in if bytes_eq p.atom atom then true else above

module _ {F : Type 0} (outside : Outside F) where
  -- `getLayoutName`
  unfoldable pub get_layout_name : Layout → Bytes
  get_layout_name layout =
      if layout_is unknown layout
      then []
      else replace_byte b'_' b'-' (outside.to_lower (outside.layout_name layout))

  abbrev class_of : Bytes → Bytes
  class_of [] = []
  class_of (c ∷ cs) = layout_attribute ++ b'-' ∷ c ∷ cs

  -- `getLayoutClass`
  unfoldable pub get_layout_class : Layout → Bytes
  unfolding get_layout_name
  get_layout_class layout = class_of (get_layout_name layout)

  -- `getCSSLengthStyle`
  unfoldable pub get_css_length_style : Length F → Bytes → Bytes
  get_css_length_style input dimension =
      if not input.is_set
      then []
      else if input.is_auto
      then dimension ++ codes ":auto;"
      else dimension ++ b':' ∷ outside.format_float input.value ++ input.unit ++ codes ";"

  -- The class that `apply` adds.
  unfoldable pub added_class : Layout → Bytes
  unfolding get_layout_class layout_metadata
  added_class layout =
      let meta = layout_metadata layout in
      let sized = if meta.has_size_definition then codes " i-amphtml-layout-size-defined" else [] in
      let awaiting =
        if meta.has_awaiting_size then codes " i-amphtml-layout-awaiting-size" else [] in
      get_layout_class layout ++ sized ++ awaiting

  -- The styles that `apply` adds.
  unfoldable pub added_styles : Layout → CssDimensions F → Bytes
  unfolding get_css_length_style
  added_styles fixed dimensions =
      get_css_length_style dimensions.width (codes "width")
      ++ get_css_length_style dimensions.height (codes "height")
  added_styles flex_item dimensions =
      get_css_length_style dimensions.width (codes "width")
      ++ get_css_length_style dimensions.height (codes "height")
  added_styles fixed_height dimensions = get_css_length_style dimensions.height (codes "height")
  added_styles fluid dimensions = codes "width:100%;height:0;"
  added_styles _ dimensions = []

  abbrev with_styles : Bytes → List Attribute → List Attribute
  with_styles [] attributes = attributes
  with_styles (c ∷ cs) attributes =
      append_attribute_with_separator [] (codes "style") (c ∷ cs) (codes ";") attributes

  abbrev hidden_if : Bool → List Attribute → List Attribute
  hidden_if hides attributes =
      if hides then set_attribute [] (codes "hidden") (codes "hidden") attributes else attributes

  abbrev is_empty : Option Bytes → Bool
  is_empty none = false
  is_empty (some v) = bytes_eq v []

  -- The empty `style` attribute goes.
  unfoldable pub without_empty_style : List Attribute → List Attribute
  unfolding attribute_val remove_found
  without_empty_style attributes =
      if is_empty (attribute_val [] (codes "style") attributes)
      then remove_found [] (codes "style") attributes
      else attributes

  -- The attributes behind `apply`.
  unfoldable pub applied_attributes : Layout → CssDimensions F → List Attribute → List Attribute
  unfolding added_class added_styles append_attribute_with_separator set_attribute
      without_empty_style get_layout_name
  applied_attributes layout dimensions attributes =
      let classed =
        append_attribute_with_separator [] (codes "class") (added_class layout) (codes " ")
          attributes in
      let hidden = hidden_if (layout_is nodisplay layout) classed in
      let styled = with_styles (added_styles layout dimensions) hidden in
      set_attribute [] layout_attribute (get_layout_name layout) (without_empty_style styled)

  abbrev sizer : Bytes → Tree
  sizer padding =
      node
        (record {
          kind = element_node;
          atom = [];
          data_text = codes "i-amphtml-sizer";
          namespace = [];
          attributes =
              record {
                namespace = [];
                key = codes "style";
                val = codes "display:block;padding-top:" ++ padding ++ codes "%;";
              }
              ∷ [];
        })
        end

  -- The children behind `apply`.
  unfoldable pub applied_children : Layout → CssDimensions F → Forest → Forest
  applied_children layout dimensions children =
      let width = dimensions.width in
      let height = dimensions.height in
      if not (layout_is responsive layout)
        || not width.is_set
        || outside.is_zero width.value
        || not height.is_set
        || not (bytes_eq height.unit width.unit)
      then children
      else child (sizer (outside.percent height.value width.value)) children

  abbrev lift_error : Result LengthError (Length F) → Result LayoutError (Length F)
  lift_error (ok a) = ok a
  lift_error (err e) = err (bad_length e)

  -- `getNormalizedDimensions`
  unfoldable pub get_normalized_dimensions : Info → Layout → Result LayoutError (CssDimensions F)
  unfolding get_normalized_width get_normalized_height
  get_normalized_dimensions i layout =
      lift_error (
        get_normalized_width outside.parse_float outside.zero_value outside.one outside.forty_four
          outside.sixty outside.to_upper i layout)
      >>= λ width.
          lift_error (
            get_normalized_height outside.parse_float outside.zero_value outside.one
              outside.forty_four outside.sixty outside.to_upper i layout)
          >>= λ height. ok (record { width = width; height = height })

  -- `apply`
  unfoldable pub apply : Layout → CssDimensions F → Info → Forest → Info × Forest
  unfolding applied_attributes applied_children
  apply layout dimensions i children = (
    record i { attributes = applied_attributes layout dimensions i.attributes },
    applied_children layout dimensions children,
  )

  -- `ApplyLayout`, below the ancestors of the element.
  unfoldable pub apply_layout : List Info → Info → Forest → Result LayoutError (Info × Forest)
  unfolding is_descendant_of parse_amp_layout get_normalized_dimensions get_normalized_layout apply
      has_attribute_and_is_not_empty
  apply_layout above i children =
      if not (is_amp_custom_element i)
        || bytes_eq i.data_text (codes "amp-audio")
        || is_descendant_of above (codes "template")
      then ok (i, children)
      else let layout = parse_amp_layout outside.to_upper outside.layout_value i in
        get_normalized_dimensions i layout >>= λ dimensions.
        get_normalized_layout layout dimensions
          (has_attribute_and_is_not_empty [] (codes "sizes") i.attributes)
          (has_attribute_and_is_not_empty [] (codes "heights") i.attributes)
        >>= λ actual. ok (apply actual dimensions i children)
