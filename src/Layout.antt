-- ===== src/Layout.antt =====
-- transformer/layout/layout.go: the layout of an AMP element. The numbers of a length are a
-- parameter, as are the names of the enum of layouts and the upper and lower case of a text.
pub mod CssLength
pub mod Apply
pub mod Normal
use amppackager.Prelude.{
  ℕ, Bool, true, false, not, ◌&&◌, ◌||◌, List, [], ◌∷◌, Option, none, some, ◌==◌, if◌then◌else◌,
  Result, ok, err, ◌>>=◌,
}
use amppackager.Prelude.Text.{Bytes, codes, bytes_eq}
use amppackager.Dom.{Info}
use amppackager.Dom.Attributes.{attribute_val, has_attribute_and_is_not_empty}
use amppackager.Layout.CssLength.{
  Length, LengthError, get_normalized_width, get_normalized_height, Layout, container, fill, fixed,
  fixed_height, flex_item, fluid, intrinsic, nodisplay, responsive, unknown, layout_is,
}

pub record CssDimensions (F : Type 0) : Type 0 where
  pub width : Length F
  pub height : Length F

pub record LayoutMetadata : Type 0 where
  pub is_supported : Bool
  pub has_size_definition : Bool
  pub has_awaiting_size : Bool

abbrev metadata : Bool → Bool → Bool → LayoutMetadata
metadata a b c = record { is_supported = a; has_size_definition = b; has_awaiting_size = c }

-- `layoutMetadataMap`, which has every value of the enum.
unfoldable pub layout_metadata : Layout → LayoutMetadata
layout_metadata container = metadata true false false
layout_metadata fill = metadata true true false
layout_metadata fixed = metadata true true false
layout_metadata fixed_height = metadata true true false
layout_metadata flex_item = metadata true true false
layout_metadata fluid = metadata true true true
layout_metadata intrinsic = metadata false true false
layout_metadata nodisplay = metadata true false false
layout_metadata responsive = metadata true true false
layout_metadata unknown = metadata false false false

pub data LayoutError : Type 0 where
  bad_length : LengthError → LayoutError
  not_supported : Layout → LayoutError

-- `strings.Replace` of one byte by another.
abbrev pub replace_byte : ℕ → ℕ → Bytes → Bytes
replace_byte old new [] = []
replace_byte old new (c ∷ cs) = (if c == old then new else c) ∷ replace_byte old new cs

abbrev or_unknown : Option Layout → Layout
or_unknown none = unknown
or_unknown (some layout) = layout

-- `ParseAMPLayout`
unfoldable pub parse_amp_layout : (Bytes → Bytes) → (Bytes → Option Layout) → Info → Layout
unfolding attribute_val
parse_amp_layout to_upper layout_value i = elim (attribute_val [] (codes "layout") i.attributes) [
  | none ↦ unknown
  | some v ↦
      if bytes_eq v []
      then unknown
      else or_unknown (layout_value (replace_byte b'-' b'_' (to_upper v)))
]

abbrev checked : Layout → Result LayoutError Layout
unfolding layout_metadata
checked layout =
    if (layout_metadata layout).is_supported then ok layout else err (not_supported layout)

module _ {F : Type 0} where
  -- The layout for the dimensions of an element that names none.
  unfoldable pub guessed_layout : CssDimensions F → Bool → Bool → Layout
  guessed_layout dimensions sizes heights =
      let width = dimensions.width in
      let height = dimensions.height in
      if not width.is_set && not height.is_set
      then container
      else if (height.is_set && height.is_fluid) || (width.is_set && width.is_fluid)
      then fluid
      else if height.is_set && (not width.is_set || width.is_auto)
      then fixed_height
      else if height.is_set && width.is_set && (sizes || heights)
      then responsive
      else fixed

  -- `getNormalizedLayout`
  unfoldable pub get_normalized_layout :
      Layout → CssDimensions F → Bool → Bool → Result LayoutError Layout
  unfolding checked guessed_layout
  get_normalized_layout layout dimensions sizes heights =
      checked (if layout_is unknown layout then guessed_layout dimensions sizes heights else layout)
