-- ===== src/Layout/Normal.antt =====
-- What transformer/layout/layout.go and csslength.go give for the dimensions of an element.
use amppackager.Prelude.{
  Bool, true, false, List, [], ◌∷◌, Option, none, some, ◌≡◌, ◌⊎◌, refl, not, ◌&&◌, ◌||◌, Bool-cases,
  inl, inr, arith, if◌then◌else◌, Result, ok, err, Any,
}
use mathlib.Core.Path.{subst}
use amppackager.Prelude.Text.{Bytes, codes, bytes_eq, bytes_eq_iff}
use amppackager.Layout.{
  CssDimensions, layout_metadata, LayoutError, not_supported, guessed_layout, get_normalized_layout,
}
use amppackager.Layout.CssLength.{
  Length, Layout, container, fill, fixed, fixed_height, flex_item, fluid, intrinsic, nodisplay,
  responsive, unknown, layout_is, new_css_length, accepted_units, is_accepted, length_match,
  default_unit, matched_length, with_value, with_unit, LengthError,
}

-- A length that is given, and is `fluid`.
abbrev pub IsFluid : {F : Type 0} → Length F → Type 0
IsFluid l = (l.is_set ≡ true) × (l.is_fluid ≡ true)

-- The layout of an element that names none, by its dimensions and whether it has `sizes` or
-- `heights`.
pub data Guesses {F : Type 0} (d : CssDimensions F) (sizes heights : Bool) : Layout → Type 0 where
  no_dimension :
      d.width.is_set ≡ false → d.height.is_set ≡ false → Guesses d sizes heights container
  fluid_dimension : IsFluid d.height ⊎ IsFluid d.width → Guesses d sizes heights fluid
  only_height :
      d.height.is_set ≡ true
      → ¬ IsFluid d.height
      → ¬ IsFluid d.width
      → (d.width.is_set ≡ false) ⊎ (d.width.is_auto ≡ true)
      → Guesses d sizes heights fixed_height
  with_sizes :
      d.height.is_set ≡ true
      → d.width.is_set ≡ true
      → ¬ IsFluid d.height
      → ¬ IsFluid d.width
      → d.width.is_auto ≡ false
      → (sizes ≡ true) ⊎ (heights ≡ true)
      → Guesses d sizes heights responsive
  without_sizes :
      d.height.is_set ≡ true
      → d.width.is_set ≡ true
      → ¬ IsFluid d.height
      → ¬ IsFluid d.width
      → d.width.is_auto ≡ false
      → sizes ≡ false
      → heights ≡ false
      → Guesses d sizes heights fixed
  only_width :
      d.height.is_set ≡ false
      → d.width.is_set ≡ true
      → ¬ IsFluid d.width
      → Guesses d sizes heights fixed

-- What `getNormalizedLayout` gives: the layout that is named, or the one for the dimensions; an
-- error for the one that is not supported.
pub data Normalizes {F : Type 0} (named : Layout) (d : CssDimensions F) (sizes heights : Bool)
    : Result LayoutError Layout → Type 0 where
  keeps :
      layout_is unknown named ≡ false
      → layout_is intrinsic named ≡ false
      → Normalizes named d sizes heights (ok named)
  guesses :
      (l : Layout)
      → layout_is unknown named ≡ true
      → Guesses d sizes heights l
      → Normalizes named d sizes heights (ok l)
  refuses :
      layout_is intrinsic named ≡ true
      → Normalizes named d sizes heights (err (not_supported named))

module _ {F : Type 0} (d : CssDimensions F) (sizes heights : Bool) where
  Guesses-if :
      {x y : Layout} (b : Bool)
      → (b ≡ true → Guesses d sizes heights x)
      → (b ≡ false → Guesses d sizes heights y)
      → Guesses d sizes heights (if b then x else y)
  Guesses-if true f g = f refl
  Guesses-if false f g = g refl

  guessed_layout-Guesses : Guesses d sizes heights (guessed_layout d sizes heights)
  unfolding guessed_layout
  guessed_layout-Guesses =
      let w = d.width in
      let h = d.height in
      Guesses-if (not w.is_set && not h.is_set)
        (λ e. no_dimension (ground (arith, e)) (ground (arith, e)))
        (λ some_set.
          Guesses-if ((h.is_set && h.is_fluid) || (w.is_set && w.is_fluid))
            (λ e. fluid_dimension (ground (arith, e)))
            (λ no_fluid.
              let no_height : ¬ IsFluid h = λ f. ground (arith, no_fluid, f.0, f.1) in
              let no_width : ¬ IsFluid w = λ f. ground (arith, no_fluid, f.0, f.1) in
              Guesses-if (h.is_set && (not w.is_set || w.is_auto))
                (λ e. only_height (ground (arith, e)) no_height no_width (ground (arith, e)))
                (λ no_auto.
                  Guesses-if (h.is_set && w.is_set && (sizes || heights))
                    (λ e.
                      with_sizes (ground (arith, e)) (ground (arith, e)) no_height no_width
                        (ground (arith, e, no_auto)) (ground (arith, e)))
                    (λ e. elim (Bool-cases h.is_set) [
                      | inl s ↦
                          without_sizes s (ground (arith, s, no_auto)) no_height no_width
                            (ground (arith, s, no_auto)) (ground (arith, s, e, no_auto))
                            (ground (arith, s, e, no_auto))
                      | inr s ↦ only_width s (ground (arith, s, some_set)) no_width
                    ]))))

  guessed-Normalizes :
      (l : Layout)
      → Guesses d sizes heights l
      → Normalizes unknown d sizes heights
          (if (layout_metadata l).is_supported then ok l else err (not_supported l))
  unfolding layout_metadata
  guessed-Normalizes container a = guesses container refl a
  guessed-Normalizes fixed a = guesses fixed refl a
  guessed-Normalizes fixed_height a = guesses fixed_height refl a
  guessed-Normalizes fluid a = guesses fluid refl a
  guessed-Normalizes responsive a = guesses responsive refl a
  guessed-Normalizes fill a = elim a [ ]
  guessed-Normalizes flex_item a = elim a [ ]
  guessed-Normalizes nodisplay a = elim a [ ]
  guessed-Normalizes intrinsic a = elim a [ ]
  guessed-Normalizes unknown a = elim a [ ]

  -- `getNormalizedLayout` keeps the layout that an element names, and refuses exactly the intrinsic
  -- layout. Where none is named it is container without dimensions, fluid where one of them is,
  -- fixed height where only the height is a length, responsive where both are and there are sizes or
  -- heights, and fixed where both are without these or only the width is given.
  pub get_normalized_layout-Normalizes :
      (named : Layout)
      → Normalizes named d sizes heights (get_normalized_layout named d sizes heights)
  unfolding get_normalized_layout layout_metadata
  get_normalized_layout-Normalizes container = keeps refl refl
  get_normalized_layout-Normalizes fill = keeps refl refl
  get_normalized_layout-Normalizes fixed = keeps refl refl
  get_normalized_layout-Normalizes fixed_height = keeps refl refl
  get_normalized_layout-Normalizes flex_item = keeps refl refl
  get_normalized_layout-Normalizes fluid = keeps refl refl
  get_normalized_layout-Normalizes nodisplay = keeps refl refl
  get_normalized_layout-Normalizes responsive = keeps refl refl
  get_normalized_layout-Normalizes intrinsic = refuses refl
  get_normalized_layout-Normalizes unknown =
      guessed-Normalizes (guessed_layout d sizes heights) guessed_layout-Guesses

is_accepted-Any : (u : Bytes) (us : List Bytes) → is_accepted u us ≡ true → Any (λ v. u ≡ v) us
unfolding is_accepted
is_accepted-Any u [] h = absurd cc
is_accepted-Any u (v ∷ us) h = ground (arith, bytes_eq_iff u v, is_accepted-Any u us)

-- The lengths that `newCSSLength` gives for what it allows.
pub data ValidLength {F : Type 0} (allow_auto allow_fluid : Bool) (l : Length F) : Type 0 where
  not_set : l.is_set ≡ false → l.unit ≡ default_unit → ValidLength allow_auto allow_fluid l
  is_auto :
      l.is_set ≡ true
      → l.is_auto ≡ true
      → l.is_fluid ≡ false
      → allow_auto ≡ true
      → ValidLength allow_auto allow_fluid l
  is_fluid :
      l.is_set ≡ true
      → l.is_fluid ≡ true
      → l.is_auto ≡ false
      → allow_fluid ≡ true
      → ValidLength allow_auto allow_fluid l
  is_number :
      l.is_set ≡ true
      → l.is_auto ≡ false
      → l.is_fluid ≡ false
      → Any (λ u. l.unit ≡ u) accepted_units
      → ValidLength allow_auto allow_fluid l

data GivesValid {F : Type 0} (allow_auto allow_fluid : Bool)
    : Result LengthError (Length F) → Type 0 where
  fails : {why : LengthError} → GivesValid allow_auto allow_fluid (err why)
  gives :
      {l : Length F}
      → ValidLength allow_auto allow_fluid l
      → GivesValid allow_auto allow_fluid (ok l)

module _ {F : Type 0} (allow_auto allow_fluid : Bool) where
  GivesValid-if :
      {x y : Result LengthError (Length F)} (b : Bool)
      → (b ≡ true → GivesValid allow_auto allow_fluid x)
      → (b ≡ false → GivesValid allow_auto allow_fluid y)
      → GivesValid allow_auto allow_fluid (if b then x else y)
  GivesValid-if true f g = f refl
  GivesValid-if false f g = g refl

  gives-ValidLength :
      {l : Length F}
      → GivesValid allow_auto allow_fluid (ok l)
      → ValidLength allow_auto allow_fluid l
  gives-ValidLength (gives v) = v

  module _ (parse_float : Bytes → Option F) (zero_value one forty_four sixty : F) where
    with_value-GivesValid :
        (value : Option F) (unit : Bytes)
        → GivesValid allow_auto allow_fluid
            (with_value parse_float zero_value one forty_four sixty value unit)
    unfolding with_value with_unit
    with_value-GivesValid none unit = fails
    with_value-GivesValid (some value) [] = gives (is_number refl refl refl (inr (inl refl)))
    with_value-GivesValid (some value) (c ∷ cs) =
        GivesValid-if (is_accepted (c ∷ cs) accepted_units)
          (λ e. gives (is_number refl refl refl (is_accepted-Any (c ∷ cs) accepted_units e)))
          (λ e. fails)

    matched_length-GivesValid :
        (m : Option (Bytes × Bytes))
        → GivesValid allow_auto allow_fluid
            (matched_length parse_float zero_value one forty_four sixty m)
    unfolding matched_length
    matched_length-GivesValid none = fails
    matched_length-GivesValid (some m) = with_value-GivesValid (parse_float m.0) m.1

    new_css_length-GivesValid :
        (input : Option Bytes)
        → GivesValid allow_auto allow_fluid (
            new_css_length parse_float zero_value one forty_four sixty input allow_auto allow_fluid)
    unfolding new_css_length
    new_css_length-GivesValid none = gives (not_set refl refl)
    new_css_length-GivesValid (some input) =
        GivesValid-if (bytes_eq input (codes "auto"))
          (λ e. GivesValid-if allow_auto (λ a. gives (is_auto refl refl refl a)) (λ a. fails))
          (λ e.
            GivesValid-if (bytes_eq input (codes "fluid"))
              (λ d. GivesValid-if allow_fluid (λ a. gives (is_fluid refl refl refl a)) (λ a. fails))
              (λ d. matched_length-GivesValid (length_match input)))

    -- A length that `newCSSLength` gives is not set, or it is `auto` or `fluid` where that is
    -- allowed, or it is a number with an accepted unit; never two of these.
    pub new_css_length-ValidLength :
        (input : Option Bytes) (l : Length F)
        → new_css_length parse_float zero_value one forty_four sixty input allow_auto allow_fluid
          ≡ ok l
        → ValidLength allow_auto allow_fluid l
    new_css_length-ValidLength input l h =
        gives-ValidLength
          (subst (λ r. GivesValid allow_auto allow_fluid r) h (new_css_length-GivesValid input))
