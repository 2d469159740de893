-- ===== src/Transformer/MaxAge.antt =====
-- transformer/transformer.go: `computeMaxAgeSeconds`.
use amppackager.Prelude.{
  ℕ, ◌*◌, Bool, true, false, ◌&&◌, List, [], ◌∷◌, Option, none, some, ltb, if◌then◌else◌,
}
use amppackager.Prelude.Int.{ℤ, pos, negsuc}
use amppackager.Prelude.Text.{Bytes, codes, bytes_eq}
use amppackager.Transformer.{Node, get_attribute_val, or_empty}

abbrev pub default_max_age_seconds : ℕ
default_max_age_seconds = 86400

abbrev pub max_max_age_seconds : ℕ
max_max_age_seconds = 7 * 86400

abbrev pub max_int32 : ℕ
max_int32 = 2147483647

-- `strconv.ParseInt` in 32 bits is a parameter.
module _ (parse_int32 : Bytes → Option ℤ) where
  abbrev parsed_age : Option ℤ → ℕ
  parsed_age none = default_max_age_seconds
  parsed_age (some (pos n)) = n
  parsed_age (some (negsuc n)) = 0

  abbrev attribute_age : Option Bytes → ℕ
  attribute_age none = default_max_age_seconds
  attribute_age (some value) = parsed_age (parse_int32 value)

  abbrev is_some : Option Bytes → Bool
  is_some none = false
  is_some (some v) = true

  abbrev is_inline_script : Node → Bool
  is_inline_script n =
      bytes_eq (or_empty n.element) (codes "amp-script")
      && is_some (get_attribute_val (codes "script") n.attributes)

  -- The age that a node asks for, where it is an inline `<amp-script>`.
  unfoldable pub node_max_age : Node → Option ℕ
  unfolding get_attribute_val
  node_max_age n =
      if is_inline_script n
      then some (attribute_age (get_attribute_val (codes "max-age") n.attributes))
      else none

  abbrev pub lower : ℕ → Option ℕ → ℕ
  lower age none = age
  lower age (some other) = if ltb other age then other else age

  unfoldable pub least_age : ℕ → List Node → ℕ
  unfolding node_max_age
  least_age age [] = age
  least_age age (n ∷ ns) = least_age (lower age (node_max_age n)) ns

  -- `computeMaxAgeSeconds`
  unfoldable pub compute_max_age_seconds : List Node → ℕ
  unfolding least_age
  compute_max_age_seconds nodes =
      let age = least_age max_int32 nodes in
      if ltb max_max_age_seconds age then max_max_age_seconds else age
