-- ===== src/Reorder/Scripts.antt =====
-- transformer/internal/amphtml/amphtml.go: the kinds of `<script>`.
use amppackager.Prelude.{
  ℕ, Bool, true, false, not, ◌&&◌, ◌||◌, List, [], ◌∷◌, Option, none, some, leb, ◌==◌,
  if◌then◌else◌,
}
use amppackager.Prelude.Text.{Bytes, codes, bytes_eq}
use amppackager.Transformer.{Attribute}
use amppackager.Dom.{Info}
use amppackager.Dom.Attributes.{attribute_val, has_attribute}

-- What is left behind a front part.
abbrev pub cut_prefix : Bytes → Bytes → Option Bytes
cut_prefix text [] = some text
cut_prefix [] (p ∷ ps) = none
cut_prefix (c ∷ cs) (p ∷ ps) = let rest = cut_prefix cs ps in if c == p then rest else none

abbrev pub in_front : ℕ → Option Bytes → Option Bytes
in_front c none = none
in_front c (some cs) = some (c ∷ cs)

-- What stands before an end part.
abbrev pub cut_suffix : Bytes → Bytes → Option Bytes
cut_suffix [] suffix = if bytes_eq [] suffix then some [] else none
cut_suffix (c ∷ cs) suffix =
    let rest = cut_suffix cs suffix in if bytes_eq (c ∷ cs) suffix then some [] else in_front c rest

abbrev pub is_found : Option Bytes → Bool
is_found none = false
is_found (some text) = true

abbrev pub has_prefix : Bytes → Bytes → Bool
has_prefix text prefix = is_found (cut_prefix text prefix)

abbrev pub has_suffix : Bytes → Bytes → Bool
has_suffix text suffix = is_found (cut_suffix text suffix)

abbrev is_word : ℕ → Bool
is_word c = (leb b'a' c && leb c b'z') || (leb b'0' c && leb c b'9')

-- `[a-z0-9.]*`
unfoldable pub is_version : Bytes → Bool
is_version [] = true
is_version (c ∷ cs) = (is_word c || c == b'.') && is_version cs

-- `[a-z0-9-]*-[a-z0-9.]*`
unfoldable pub is_name_and_version : Bytes → Bool
unfolding is_version
is_name_and_version [] = false
is_name_and_version (c ∷ cs) =
    (c == b'-' && is_version cs) || ((is_word c || c == b'-') && is_name_and_version cs)

abbrev is_middle : Option Bytes → Bool
unfolding is_name_and_version
is_middle none = false
is_middle (some text) = is_name_and_version text

abbrev is_file_name_behind : Option Bytes → Bool
unfolding is_middle
is_file_name_behind none = false
is_file_name_behind (some text) =
    is_middle (cut_suffix text (codes ".js")) || is_middle (cut_suffix text (codes ".mjs"))

-- `amp-[a-z0-9-]*-[a-z0-9.]*\.m?js`
unfoldable pub is_file_name : Bytes → Bool
unfolding is_file_name_behind
is_file_name text = is_file_name_behind (cut_prefix text (codes "amp-"))

abbrev or_else : Option Bytes → Bytes → Bytes
or_else none text = text
or_else (some found) text = found

abbrev name_behind : Option Bytes → Option Bytes
unfolding is_file_name
name_behind none = none
name_behind (some text) =
    let name = or_else (cut_suffix text (codes "?f=sxg")) text in
    if is_file_name name then some name else none

-- The group `name` of `srcURLRE`, which spans the whole text.
unfoldable pub src_url_name : Bytes → Option Bytes
unfolding name_behind
src_url_name src = elim (cut_prefix src (codes "https://cdn.ampproject.org/lts/v0/")) [
  | some text ↦ name_behind (some text)
  | none ↦ name_behind (cut_prefix src (codes "https://cdn.ampproject.org/v0/"))
]

abbrev pub is_script : Info → Bool
is_script i = bytes_eq i.atom (codes "script")

-- `AMPExtensionScriptDefinition`
unfoldable pub amp_extension_script_definition : Info → Option Bytes
unfolding attribute_val src_url_name
amp_extension_script_definition i =
    if is_script i
    then elim (attribute_val [] (codes "src") i.attributes) [
      | none ↦ none
      | some src ↦ some (or_else (src_url_name src) src)
    ]
    else none

-- The loops of `AMPExtensionName`.
unfoldable pub extension_attribute : List Attribute → Option Bytes
extension_attribute [] = none
extension_attribute (a ∷ rest) =
    let later = extension_attribute rest in
    if bytes_eq a.key (codes "custom-element")
      || bytes_eq a.key (codes "custom-template")
      || bytes_eq a.key (codes "host-service")
    then some a.val
    else later

-- `AMPExtensionName`
unfoldable pub amp_extension_name : Info → Option Bytes
unfolding extension_attribute
amp_extension_name i = if is_script i then extension_attribute i.attributes else none

-- `IsScriptAMPExtension`
unfoldable pub is_script_amp_extension : Info → Bool
unfolding amp_extension_name
is_script_amp_extension i = is_found (amp_extension_name i)

abbrev amp_cache_root_url : Bytes
amp_cache_root_url = codes "https://cdn.ampproject.org/"

-- `IsScriptAMPRuntime`
unfoldable pub is_script_amp_runtime : Info → Bool
unfolding attribute_val has_attribute is_script_amp_extension
is_script_amp_runtime i = is_script i && elim (attribute_val [] (codes "src") i.attributes) [
  | none ↦ false
  | some v ↦
      has_attribute [] (codes "async") i.attributes
      && not (is_script_amp_extension i)
      && has_prefix v amp_cache_root_url
      && (has_suffix v (codes "/v0.js")
          || has_suffix v (codes "/v0.mjs")
          || has_suffix v (codes "/amp4ads-v0.js")
          || has_suffix v (codes "/amp4ads-v0.mjs"))
]

-- `IsScriptAMPViewer`
unfoldable pub is_script_amp_viewer : Info → Bool
unfolding attribute_val has_attribute is_script_amp_extension
is_script_amp_viewer i = is_script i && elim (attribute_val [] (codes "src") i.attributes) [
  | none ↦ false
  | some v ↦
      not (is_script_amp_extension i)
      && has_prefix v (codes "https://cdn.ampproject.org/v0/amp-viewer-integration-")
      && has_suffix v (codes ".js")
      && has_attribute [] (codes "async") i.attributes
]

-- `IsScriptRenderDelaying`
unfoldable pub is_script_render_delaying : Info → Bool
unfolding attribute_val is_script_amp_viewer
is_script_render_delaying i =
    is_script i
    && (is_script_amp_viewer i || elim (attribute_val [] (codes "custom-element") i.attributes) [
      | none ↦ false
      | some v ↦
          bytes_eq v (codes "amp-dynamic-css-classes")
          || bytes_eq v (codes "amp-experiment")
          || bytes_eq v (codes "amp-story")
    ])
