-- ===== src/Printer/Attributes.antt =====
-- transformer/printer/printer.go: how the attributes of an element are written.
use amppackager.Prelude.{
  ℕ, Bool, true, false, ◌&&◌, ◌||◌, List, [], ◌∷◌, ◌++◌, ltb, ◌==◌, if◌then◌else◌,
}
use amppackager.Prelude.Text.{Bytes, codes, bytes_eq}
use amppackager.Transformer.{Attribute}

-- `sortKey`
abbrev pub sort_key : Attribute → Bytes
sort_key a = if bytes_eq a.namespace [] then a.key else a.namespace ++ b':' ∷ a.key

-- `strings.Compare(_, _) < 0`
abbrev pub bytes_lt : Bytes → Bytes → Bool
bytes_lt [] [] = false
bytes_lt [] (y ∷ ys) = true
bytes_lt (x ∷ xs) [] = false
bytes_lt (x ∷ xs) (y ∷ ys) = ltb x y || (x == y && bytes_lt xs ys)

-- An attribute goes in front of the first one that does not come before it.
unfoldable pub insert_sorted : Attribute → List Attribute → List Attribute
insert_sorted a [] = a ∷ []
insert_sorted a (b ∷ bs) =
    let later = insert_sorted a bs in
    if bytes_lt (sort_key b) (sort_key a) then b ∷ later else a ∷ b ∷ bs

-- `sort.SliceStable` by `sortKey`.
unfoldable pub sort_attributes : List Attribute → List Attribute
unfolding insert_sorted
sort_attributes [] = []
sort_attributes (a ∷ rest) = insert_sorted a (sort_attributes rest)

abbrev pub needs_quotes : ℕ → Bool
needs_quotes c =
    c == b' '
    || c == 9
    || c == 13
    || c == 10
    || c == 12
    || c == b'"'
    || c == 39
    || c == b'='
    || c == b'<'
    || c == b'>'
    || c == b'`'

-- `strings.ContainsAny(_, needsQuotes)`
unfoldable pub any_needs_quotes : Bytes → Bool
any_needs_quotes [] = false
any_needs_quotes (c ∷ cs) = needs_quotes c || any_needs_quotes cs

-- `pickQuote`
unfoldable pub pick_quote : Bytes → Bytes
unfolding any_needs_quotes
pick_quote [] = codes "\""
pick_quote (c ∷ cs) = if any_needs_quotes (c ∷ cs) then codes "\"" else []

-- `writeQuoted`
unfoldable pub write_quoted : Bytes → Bytes
unfolding pick_quote
write_quoted s = pick_quote s ++ (s ++ pick_quote s)

-- `strings.ToLower` and `html.EscapeString` are parameters.
module _ (to_lower : Bytes → Bytes) (escape : Bytes → Bytes) where
  abbrev pub attribute_name : Attribute → Bytes
  attribute_name a =
      if bytes_eq a.namespace [] then to_lower a.key else a.namespace ++ b':' ∷ to_lower a.key

  unfoldable pub value_text : Bytes → Bytes
  unfolding write_quoted
  value_text [] = []
  value_text (c ∷ cs) = b'=' ∷ write_quoted (escape (c ∷ cs))

  -- `renderElementAttr`
  unfoldable pub render_element_attr : Attribute → Bytes
  unfolding value_text
  render_element_attr a = b' ' ∷ attribute_name a ++ value_text a.val

  unfoldable pub render_attrs : List Attribute → Bytes
  unfolding render_element_attr
  render_attrs [] = []
  render_attrs (a ∷ rest) = render_element_attr a ++ render_attrs rest
