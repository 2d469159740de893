-- ===== src/Transformer/Formats.antt =====
-- transformer/transformer.go: the AMP formats that the `<html>` tag declares.
use amppackager.Prelude.{
  Bool, true, false, not, ◌&&◌, ◌||◌, List, [], ◌∷◌, Option, none, some, ◌==◌, if◌then◌else◌,
}
use amppackager.Prelude.Text.{Bytes, codes, bytes_eq}
use amppackager.Transformer.{Attribute}
use amppackager.Reorder.Scripts.{cut_prefix}

-- `rpb.Request_HtmlFormat`
pub data HtmlFormat : Type 0 where
  unknown_code amp amp4ads amp4email experimental : HtmlFormat

-- `ampFormatSuffixes`
abbrev pub amp_format_suffix : HtmlFormat → Option Bytes
amp_format_suffix amp = some []
amp_format_suffix amp4ads = some (codes "ads")
amp_format_suffix amp4email = some (codes "email")
amp_format_suffix _ = none

-- `ampFormats`, of which the order does not matter.
abbrev pub amp_formats : List HtmlFormat
amp_formats = amp ∷ amp4ads ∷ amp4email ∷ []

abbrev pub is_suffix : Option Bytes → Bytes → Bool
is_suffix none declared = false
is_suffix (some suffix) declared = bytes_eq declared suffix

unfoldable pub is_one_of : Bytes → List HtmlFormat → Bool
is_one_of declared [] = false
is_one_of declared (f ∷ fs) =
    if is_suffix (amp_format_suffix f) declared then true else is_one_of declared fs

-- The formats that `isAllowed` looks through.
abbrev pub or_all : List HtmlFormat → List HtmlFormat
or_all [] = amp_formats
or_all (f ∷ fs) = f ∷ fs

-- `isAllowed`
unfoldable pub is_allowed : Bytes → List HtmlFormat → Bool
unfolding is_one_of
is_allowed declared allowed = is_one_of declared (or_all allowed)

unfoldable pub has_newline : Bytes → Bool
has_newline [] = false
has_newline (c ∷ cs) = c == 10 || has_newline cs

-- `(?:4(.+))?\z`, with the group, which is empty where nothing matches it.
unfoldable pub format_behind : Bytes → Option Bytes
unfolding has_newline
format_behind [] = some []
format_behind (f ∷ []) = none
format_behind (f ∷ c ∷ cs) = if f == b'4' && not (has_newline (c ∷ cs)) then some (c ∷ cs) else none

abbrev pub lightning : Bytes
lightning = 226 ∷ 154 ∷ 161 ∷ []

abbrev pub behind_prefix : Option Bytes → Option Bytes
behind_prefix none = none
behind_prefix (some rest) = format_behind rest

abbrev pub first_of : Option Bytes → Option Bytes → Option Bytes
first_of none second = second
first_of (some found) second = some found

-- `ampAttrRE`: its two prefixes do not match the same text.
unfoldable pub amp_attr_match : Bytes → Option Bytes
unfolding format_behind
amp_attr_match key =
    first_of (behind_prefix (cut_prefix key lightning))
      (behind_prefix (cut_prefix key (codes "amp")))

abbrev pub declares_allowed : Option Bytes → List HtmlFormat → Bool
declares_allowed none allowed = false
declares_allowed (some declared) allowed = is_allowed declared allowed

-- `requireAMPAttribute`: whether there is no error.
unfoldable pub require_amp_attribute : List Attribute → List HtmlFormat → Bool
unfolding is_allowed amp_attr_match
require_amp_attribute [] allowed = false
require_amp_attribute (a ∷ rest) allowed =
    let later = require_amp_attribute rest allowed in
    if bytes_eq a.namespace [] && declares_allowed (amp_attr_match a.key) allowed
    then true
    else later
