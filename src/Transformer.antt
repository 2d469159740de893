-- ===== src/Transformer.antt =====
-- transformer/transformer.go: the preloads of a document and its suggested age. A node has the
-- attributes and the children that the code asks for; the children of `<head>` and the nodes in
-- document order are lists.
pub mod Age
pub mod Declared
pub mod Formats
pub mod Head
pub mod MaxAge
pub mod Preloads
pub mod Process
pub mod Processed
pub mod Request
use amppackager.Prelude.{
  ℕ, suc, ◌+◌, ◌*◌, Bool, true, false, not, ◌&&◌, ◌||◌, List, [], ◌∷◌, ◌++◌, Option, none, some,
  ltb, leb, ◌==◌, if◌then◌else◌, length,
}
use amppackager.Prelude.Int.{ℤ, pos, negsuc}
use amppackager.Prelude.Text.{Bytes, codes, bytes_eq}

pub record Attribute : Type 0 where
  pub namespace : Bytes
  pub key : Bytes
  pub val : Bytes

pub data Atom : Type 0 where
  script link other_atom : Atom

pub record Node : Type 0 where
  pub atom : Atom
  -- The tag of an element, nothing for another node.
  pub element : Option Bytes
  pub attributes : List Attribute
  pub has_children : Bool

-- `htmlnode.GetAttributeVal` without a namespace.
unfoldable pub get_attribute_val : Bytes → List Attribute → Option Bytes
get_attribute_val key [] = none
get_attribute_val key (a ∷ rest) =
    let later = get_attribute_val key rest in
    if bytes_eq a.namespace [] && bytes_eq a.key key then some a.val else later

abbrev pub lower_case : ℕ → ℕ
lower_case c = if leb b'A' c && leb c b'Z' then c + 32 else c

-- The case folding of `strings.EqualFold` on text that is compared with ASCII without a `k`: the
-- long s folds to ASCII, too.
unfoldable pub fold_case : Bytes → Bytes
fold_case [] = []
fold_case (c ∷ []) = lower_case c ∷ []
fold_case (c ∷ d ∷ ds) =
    let rest = fold_case (d ∷ ds) in
    let behind = fold_case ds in if c == 197 && d == 191 then b's' ∷ behind else lower_case c ∷ rest

abbrev pub equal_fold : Bytes → Bytes → Bool
equal_fold text ascii = bytes_eq (fold_case text) ascii

abbrev pub or_empty : Option Bytes → Bytes
or_empty none = []
or_empty (some v) = v
