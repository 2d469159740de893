-- ===== src/Transformer/Head.antt =====
-- transformer/transformer.go: `extractPreloads`.
use amppackager.Prelude.{
  ℕ, Bool, true, false, not, ◌&&◌, ◌||◌, List, [], ◌∷◌, ◌++◌, Option, none, some, ◌==◌,
  if◌then◌else◌, length,
}
use amppackager.Prelude.Text.{Bytes, codes, bytes_eq}
use amppackager.Transformer.{
  Attribute, Atom, script, link, other_atom, Node, get_attribute_val, fold_case, equal_fold,
  or_empty,
}

abbrev is_space : ℕ → Bool
is_space c = c == 9 || c == 10 || c == 12 || c == 13 || c == 32

abbrev pub take_source : Bytes → Bytes
take_source [] = []
take_source (c ∷ cs) = let rest = take_source cs in if is_space c then [] else c ∷ rest

-- The submatch of `firstSrcsetSourceRE`, `^[\s,]*([^\s]+)`: what follows spaces and commas, or,
-- where nothing does, the last comma.
unfoldable pub first_source : Bool → Bytes → Option Bytes
first_source comma [] = if comma then some (codes ",") else none
first_source comma (c ∷ cs) =
    let rest = first_source (comma || c == b',') cs in
    if is_space c || c == b',' then rest else some (take_source (c ∷ cs))

-- `strings.TrimSuffix(_, ",")`
abbrev pub trim_comma : Bytes → Bytes
trim_comma [] = []
trim_comma (c ∷ cs) =
    let rest = trim_comma cs in
    elim cs [ [] ↦ if c == b',' then [] else c ∷ [] | d ∷ ds ↦ c ∷ rest ]

pub record Preload : Type 0 where
  pub url : Bytes
  pub kind : Bytes
  pub attributes : List (Bytes × Bytes)
  pub is_module : Bool

-- What a child of `<head>` gives: nothing, a preload, a preload for which the node is removed, or an
-- index out of range, where the regular expression does not match.
pub data Step : Type 0 where
  skip crash : Step
  add add_removed : Preload → Step

abbrev is_module_type : Node → Bool
is_module_type n =
    bytes_eq (or_empty (get_attribute_val (codes "type") n.attributes)) (codes "module")

abbrev is_script : Atom → Bool
is_script script = true
is_script _ = false

-- The first loop of `extractPreloads`.
unfoldable pub has_module : List Node → Bool
unfolding get_attribute_val
has_module [] = false
has_module (n ∷ ns) =
    let later = has_module ns in if is_script n.atom && is_module_type n then true else later

abbrev crossorigin : Option Bytes → List (Bytes × Bytes)
crossorigin none = []
crossorigin (some []) = []
crossorigin (some (c ∷ cs)) = (codes "crossorigin", c ∷ cs) ∷ []

abbrev script_step : Bool → Node → Option Bytes → Step
script_step modules n none = skip
script_step modules n (some src) =
    if modules && not (is_module_type n)
    then skip
    else add (record {
      url = src;
      kind = codes "script";
      attributes = crossorigin (get_attribute_val (codes "crossorigin") n.attributes);
      is_module = is_module_type n;
    })

abbrev style_step : Option Bytes → Step
style_step none = skip
style_step (some href) =
    add (record { url = href; kind = codes "style"; attributes = []; is_module = false })

unfoldable pub other_attributes : List Attribute → List (Bytes × Bytes)
unfolding fold_case
other_attributes [] = []
other_attributes (a ∷ rest) =
    let later = other_attributes rest in
    if equal_fold a.key (codes "rel")
      || equal_fold a.key (codes "as")
      || equal_fold a.key (codes "href")
    then later
    else (a.key, a.val) ∷ later

abbrev image : Bytes → Node → Step
image url n = add_removed (record {
  url = url;
  kind = codes "image";
  attributes = other_attributes n.attributes;
  is_module = false;
})

abbrev source_step : Node → Option Bytes → Step
source_step n none = crash
source_step n (some source) = image (trim_comma source) n

abbrev srcset_step : Node → Option Bytes → Step
srcset_step n none = skip
srcset_step n (some srcset) = source_step n (first_source false srcset)

abbrev image_step : Node → Bytes → Step
image_step n [] = srcset_step n (get_attribute_val (codes "imagesrcset") n.attributes)
image_step n (c ∷ cs) = image (c ∷ cs) n

abbrev rel_step : Node → Option Bytes → Step
rel_step n none = skip
rel_step n (some rel) =
    if equal_fold rel (codes "stylesheet")
    then style_step (get_attribute_val (codes "href") n.attributes)
    else if equal_fold rel (codes "preload")
        && equal_fold (or_empty (get_attribute_val (codes "as") n.attributes)) (codes "image")
    then image_step n (or_empty (get_attribute_val (codes "href") n.attributes))
    else skip

-- The switch of `extractPreloads` on a child of `<head>`.
unfoldable pub step_of : Bool → Node → Step
unfolding get_attribute_val fold_case first_source other_attributes
step_of modules n = elim n.atom [
  | script ↦ script_step modules n (get_attribute_val (codes "src") n.attributes)
  | link ↦ rel_step n (get_attribute_val (codes "rel") n.attributes)
  | other_atom ↦ skip
]

abbrev pub max_preloads : ℕ
max_preloads = 20

-- The preloads with what is left of the children, or a crash.
pub data Extracted : Type 0 where
  extracted : List Preload → List Node → Extracted
  crashed : Extracted

-- After `RemoveNode` the loop goes on behind the previous node in document order: that is the
-- previous child if it has no children, and otherwise a node that the loop ends behind: the last
-- descendant of that child, or `<head>`, whose siblings are no scripts and no links.
abbrev pub goes_on : Option Bool → Bool
goes_on none = false
goes_on (some has_children) = not has_children

abbrev pub ends_at_limit : List Preload → List Node → Extracted → Extracted
ends_at_limit preloads left later =
    if length preloads == max_preloads then extracted preloads left else later

-- What is made of a step, with the loop behind the child itself and behind the one before.
abbrev pub after_step :
    (List Preload → List Node → Extracted)
    → (List Preload → List Node → Extracted)
    → Option Bool
    → List Preload
    → List Node
    → Node
    → List Node
    → Step
    → Extracted
after_step behind behind_previous previous preloads kept n ns skip =
    ends_at_limit preloads (kept ++ n ∷ ns) (behind preloads (kept ++ n ∷ []))
after_step behind behind_previous previous preloads kept n ns crash = crashed
after_step behind behind_previous previous preloads kept n ns (add p) =
    ends_at_limit (preloads ++ p ∷ []) (kept ++ n ∷ ns)
      (behind (preloads ++ p ∷ []) (kept ++ n ∷ []))
after_step behind behind_previous previous preloads kept n ns (add_removed p) =
    ends_at_limit (preloads ++ p ∷ []) (kept ++ ns) (
      if goes_on previous
      then behind_previous (preloads ++ p ∷ []) kept
      else extracted (preloads ++ p ∷ []) (kept ++ ns))

-- The second loop: whether the child before has children, the preloads and the children that are
-- kept so far.
unfoldable pub extract_from : Bool → Option Bool → List Preload → List Node → List Node → Extracted
unfolding step_of
extract_from modules previous preloads kept [] = extracted preloads kept
extract_from modules previous preloads kept (n ∷ ns) =
    after_step (λ ps left. extract_from modules (some n.has_children) ps left ns)
      (λ ps left. extract_from modules previous ps left ns) previous preloads kept n ns
      (step_of modules n)

-- `extractPreloads`
unfoldable pub extract_preloads : List Node → Extracted
unfolding has_module extract_from
extract_preloads head = extract_from (has_module head) none [] [] head
