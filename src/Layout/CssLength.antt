-- ===== src/Layout/CssLength.antt =====
-- transformer/layout/csslength.go: the lengths of the dimensions of an element.
use amppackager.Prelude.{
  ℕ, Bool, true, false, not, ◌&&◌, ◌||◌, List, [], ◌∷◌, ◌++◌, Option, none, some, leb, ◌==◌,
  if◌then◌else◌, Result, ok, err, ◌>>=◌,
}
use amppackager.Prelude.Text.{Bytes, codes, bytes_eq}
use amppackager.Dom.{Info}
use amppackager.Dom.Attributes.{attribute_val}

-- `AmpLayout_Layout` of the validator.
pub data Layout : Type 0 where
  container fill fixed fixed_height flex_item fluid intrinsic nodisplay responsive unknown : Layout

abbrev number : Layout → ℕ
number unknown = 0
number nodisplay = 1
number fixed = 2
number fixed_height = 3
number responsive = 4
number container = 5
number fill = 6
number flex_item = 7
number fluid = 8
number intrinsic = 9

abbrev pub layout_is : Layout → Layout → Bool
layout_is a b = number a == number b

pub record Length (F : Type 0) : Type 0 where
  pub is_set : Bool
  pub is_auto : Bool
  pub is_fluid : Bool
  pub value : F
  pub unit : Bytes

pub data LengthError : Type 0 where
  auto_not_allowed fluid_not_allowed invalid_input bad_number unit_not_valid : LengthError

abbrev pub accepted_units : List Bytes
accepted_units =
    codes "em"
    ∷ codes "px"
    ∷ codes "rem"
    ∷ codes "vh"
    ∷ codes "vw"
    ∷ codes "vmin"
    ∷ codes "vmax"
    ∷ []

unfoldable pub is_accepted : Bytes → List Bytes → Bool
is_accepted unit [] = false
is_accepted unit (u ∷ us) = bytes_eq unit u || is_accepted unit us

abbrev pub is_digit : ℕ → Bool
is_digit c = leb b'0' c && leb c b'9'

-- The digits at the front of a text, and what stands behind them.
unfoldable pub span_digits : Bytes → Bytes × Bytes
span_digits [] = ([], [])
span_digits (c ∷ cs) =
    let rest = span_digits cs in if is_digit c then (c ∷ rest.0, rest.1) else ([], c ∷ cs)

unfoldable pub no_digit : Bytes → Bool
no_digit [] = true
no_digit (c ∷ cs) = not (is_digit c) && no_digit cs

abbrev whole_match : Bytes → Bytes → Option (Bytes × Bytes)
unfolding no_digit
whole_match [] unit = none
whole_match (c ∷ cs) unit = if no_digit unit then some (c ∷ cs, unit) else none

abbrev fraction_match : Bytes → Bytes → Bytes × Bytes → Option (Bytes × Bytes)
unfolding whole_match no_digit
fraction_match digits behind ([], rest) = whole_match digits behind
fraction_match digits behind (d ∷ ds, rest) =
    if no_digit rest then some (digits ++ b'.' ∷ d ∷ ds, rest) else none

-- The submatches of `^((?:\d*\.)?\d+)(\D*)$`: the digits with a fraction where one follows, and the
-- rest, which has no digit.
unfoldable pub length_match : Bytes → Option (Bytes × Bytes)
unfolding span_digits fraction_match whole_match
length_match input =
    let front = span_digits input in
    elim front.1 [
      | [] ↦ whole_match front.0 []
      | c ∷ cs ↦
          if c == b'.'
          then fraction_match front.0 (c ∷ cs) (span_digits cs)
          else whole_match front.0 (c ∷ cs)
    ]

abbrev pub default_unit : Bytes
default_unit = codes "px"

-- `strconv.ParseFloat` and the numbers that it gives are parameters, with the ones of the constants.
module _ {F : Type 0} (parse_float : Bytes → Option F) (zero_value one forty_four sixty : F) where
  abbrev pub plain : Bool → F → Bytes → Length F
  plain set value unit = record {
    is_set = set;
    is_auto = false;
    is_fluid = false;
    value = value;
    unit = unit;
  }

  unfoldable pub with_unit : F → Bytes → Result LengthError (Length F)
  unfolding is_accepted
  with_unit value [] = ok (plain true value default_unit)
  with_unit value (c ∷ cs) =
      if is_accepted (c ∷ cs) accepted_units
      then ok (plain true value (c ∷ cs))
      else err unit_not_valid

  unfoldable pub with_value : Option F → Bytes → Result LengthError (Length F)
  unfolding with_unit
  with_value none unit = err bad_number
  with_value (some value) unit = with_unit value unit

  unfoldable pub matched_length : Option (Bytes × Bytes) → Result LengthError (Length F)
  unfolding with_value
  matched_length none = err invalid_input
  matched_length (some m) = with_value (parse_float m.0) m.1

  -- `newCSSLength`
  unfoldable pub new_css_length : Option Bytes → Bool → Bool → Result LengthError (Length F)
  unfolding matched_length length_match
  new_css_length none allow_auto allow_fluid = ok (plain false zero_value default_unit)
  new_css_length (some input) allow_auto allow_fluid =
      if bytes_eq input (codes "auto")
      then if allow_auto
        then ok (record (plain true zero_value default_unit) { is_auto = true })
        else err auto_not_allowed
      else if bytes_eq input (codes "fluid")
      then if allow_fluid
        then ok (record (plain true zero_value default_unit) { is_fluid = true })
        else err fluid_not_allowed
      else matched_length (length_match input)

  -- The natural dimension of some elements, for one that sets none; `strings.ToUpper` is a parameter.
  abbrev natural : F → F → Bytes → Length F → Length F
  natural small large name length =
      if bytes_eq name (codes "AMP-ANALYTICS") || bytes_eq name (codes "AMP-PIXEL")
      then plain true small default_unit
      else if bytes_eq name (codes "AMP-SOCIAL-SHARE")
      then plain true large default_unit
      else length

  -- `getNormalizedWidth`
  unfoldable pub get_normalized_width :
      (Bytes → Bytes) → Info → Layout → Result LengthError (Length F)
  unfolding new_css_length attribute_val
  get_normalized_width to_upper i layout =
      new_css_length (attribute_val [] (codes "width") i.attributes) true false >>= λ width.
      if width.is_set
      then ok width
      else if layout_is unknown layout || layout_is fixed layout
      then ok (natural one sixty (to_upper i.data_text) width)
      else ok width

  -- `getNormalizedHeight`
  unfoldable pub get_normalized_height :
      (Bytes → Bytes) → Info → Layout → Result LengthError (Length F)
  unfolding new_css_length attribute_val
  get_normalized_height to_upper i layout =
      new_css_length (attribute_val [] (codes "height") i.attributes) true (layout_is fluid layout)
      >>= λ height.
          if height.is_set
          then ok height
          else if layout_is unknown layout
              || layout_is fixed layout
              || layout_is fixed_height layout
          then ok (natural one forty_four (to_upper i.data_text) height)
          else ok height
