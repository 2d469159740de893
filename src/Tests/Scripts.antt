-- ===== src/Tests/Scripts.antt =====
-- Tests of the preloads and of the age of a document.
use amppackager.Prelude.{
  ◌≤◌, ◌≡◌, ◌⊎◌, refl, Bool, true, false, List, [], ◌∷◌, Option, none, some, All, Any,
}
use amppackager.Prelude.Int.{ℤ, pos}
use amppackager.Prelude.Text.{Bytes, codes}
use amppackager.Transformer.{Attribute, Atom, script, link, other_atom, Node}
use amppackager.Transformer.Head.{has_module, extracted, crashed, extract_preloads}
use amppackager.Transformer.MaxAge.{compute_max_age_seconds, max_max_age_seconds}
use amppackager.Srcset.{Candidate, parse_srcset}
use amppackager.Srcset.Offsets.{Parsed, parse_srcset-Parsed}
use amppackager.Transformer.Age.{Allows, Wants, compute_max_age_seconds-least}
use amppackager.Transformer.Preloads.{Extracts, extract_preloads-Extracts}

abbrev attr : Bytes → Bytes → Attribute
attr key val = record { namespace = []; key = key; val = val }

abbrev element : Atom → Bytes → List Attribute → Bool → Node
element atom tag attributes has_children = record {
  atom = atom;
  element = some tag;
  attributes = attributes;
  has_children = has_children;
}

abbrev style : Node
style = element other_atom (codes "style") [] true

abbrev image_link : Bytes → Node
image_link href =
    element link (codes "link")
      (attr (codes "rel") (codes "preload")
        ∷ attr (codes "as") (codes "image")
        ∷ attr (codes "href") href
        ∷ [])
      false

abbrev runtime : Node
runtime = element script (codes "script") (attr (codes "src") (codes "v0.js") ∷ []) false

-- Behind an element with children, a preload of an image ends the list: the script is left out.
script_left_out :
    extract_preloads (style ∷ image_link (codes "a.png") ∷ runtime ∷ [])
    ≡ extracted
        (record { url = codes "a.png"; kind = codes "image"; attributes = []; is_module = false }
          ∷ [])
        (style ∷ runtime ∷ [])
unfolding extract_preloads
script_left_out = refl

abbrev blank_srcset : Node
blank_srcset =
    element link (codes "link")
      (attr (codes "rel") (codes "preload")
        ∷ attr (codes "as") (codes "image")
        ∷ attr (codes "imagesrcset") []
        ∷ [])
      false

-- An image without a source stops the program.
blank_srcset_crashes : extract_preloads (blank_srcset ∷ []) ≡ crashed
unfolding extract_preloads
blank_srcset_crashes = refl

abbrev head : List Node
head = runtime ∷ style ∷ image_link (codes "a.png") ∷ []

extract_preloads-Extracts_example : Extracts (has_module head) head (extract_preloads head)
extract_preloads-Extracts_example = extract_preloads-Extracts head

abbrev parse_tens : Bytes → Option ℤ
parse_tens [] = none
parse_tens (c ∷ cs) = some (pos 10)

abbrev worker : Node
worker =
    element other_atom (codes "amp-script")
      (attr (codes "script") (codes "inline") ∷ attr (codes "max-age") (codes "10") ∷ []) false

worker_age : compute_max_age_seconds parse_tens (style ∷ worker ∷ []) ≡ 10
unfolding compute_max_age_seconds
worker_age = refl

compute_max_age_seconds-least_example :
    (compute_max_age_seconds parse_tens (worker ∷ []) ≤ max_max_age_seconds)
    × All (Allows parse_tens (compute_max_age_seconds parse_tens (worker ∷ []))) (worker ∷ [])
    × ((compute_max_age_seconds parse_tens (worker ∷ []) ≡ max_max_age_seconds)
        ⊎ Any (Wants parse_tens (compute_max_age_seconds parse_tens (worker ∷ []))) (worker ∷ []))
compute_max_age_seconds-least_example = compute_max_age_seconds-least parse_tens (worker ∷ [])

-- Two candidates, in the wrong order of their densities.
abbrev find_two : Bytes → List Candidate
find_two input =
    record { url = codes "b.png"; descriptor = codes "2x"; comma = codes "," }
    ∷ record { url = codes "a.png"; descriptor = []; comma = [] }
    ∷ []

two_sources :
    parse_srcset find_two (codes "b.png 2x, a.png")
    ≡ (codes "a.png 1x, b.png 2x", (0, 5) ∷ (10, 15) ∷ [])
unfolding parse_srcset
two_sources = refl

parse_srcset-Parsed_example :
    Parsed
      (codes "b.png 2x, a.png")
      (find_two (codes "b.png 2x, a.png"))
      (parse_srcset find_two (codes "b.png 2x, a.png"))
parse_srcset-Parsed_example = parse_srcset-Parsed find_two (codes "b.png 2x, a.png")
