-- ===== src/Accept.antt =====
-- packager/accept/accept.go: which Accept headers ask for a signed exchange.
-- `mime.ParseMediaType` is the parameter `parse_media_type`: the media type with its parameters,
-- or `none` for its error.
pub mod Tokens
pub mod Satisfy
use amppackager.Prelude.{
  Bool, true, false, not, ◌&&◌, ◌||◌, List, [], ◌∷◌, ◌++◌, Option, none, some, ◌==◌, if◌then◌else◌,
}
use amppackager.Prelude.Split.{split}
use amppackager.Prelude.Text.{Bytes, codes, bytes_eq, lookup}
use amppackager.Header.{trim_header_value}

abbrev pub accepted_sxg_version : Bytes
accepted_sxg_version = codes "b3"

-- The loop of `tokenize`: the tokens so far, the bytes since `startIndex`, `inQuotes`, and
-- whether `i++` has passed over the next byte.
unfoldable pub tokenize_from : List Bytes → Bytes → Bool → Bool → Bytes → List Bytes
unfolding trim_header_value
tokenize_from tokens cur in_quotes skip [] = tokens ++ trim_header_value cur ∷ []
tokenize_from tokens cur in_quotes true (c ∷ cs) =
    tokenize_from tokens (cur ++ c ∷ []) in_quotes false cs
tokenize_from tokens cur in_quotes false (c ∷ cs) =
    let quote = tokenize_from tokens (cur ++ c ∷ []) (not in_quotes) false cs in
    let closed = tokenize_from (tokens ++ trim_header_value cur ∷ []) [] in_quotes false cs in
    let skipped = tokenize_from tokens (cur ++ c ∷ []) in_quotes true cs in
    let longer = tokenize_from tokens (cur ++ c ∷ []) in_quotes false cs in
    if c == b'"'
    then quote
    else if c == b',' && not in_quotes
    then closed
    else if c == b'\\'
    then (if not in_quotes then [] else skipped)
    else longer

unfoldable pub tokenize : Bytes → List Bytes
unfolding tokenize_from
tokenize [] = []
tokenize (c ∷ cs) = tokenize_from [] [] false false (c ∷ cs)

unfoldable pub has_matching_sxg_version : List Bytes → Bool
has_matching_sxg_version [] = false
has_matching_sxg_version (v ∷ vs) =
    if bytes_eq v accepted_sxg_version then true else has_matching_sxg_version vs

-- `params[key]`, the empty text where the key is missing.
abbrev pub or_empty : Option Bytes → Bytes
or_empty none = []
or_empty (some v) = v

module _ (parse_media_type : Bytes → Option (Bytes × List (Bytes × Bytes))) where
  abbrev pub type_matches : Option (Bytes × List (Bytes × Bytes)) → Bool
  type_matches none = false
  type_matches (some (mediatype, params)) =
      bytes_eq mediatype (codes "application/signed-exchange")
      && has_matching_sxg_version (split b',' (or_empty (lookup (codes "v") params)))

  unfoldable pub any_satisfies : List Bytes → Bool
  unfolding has_matching_sxg_version split
  any_satisfies [] = false
  any_satisfies (t ∷ ts) = if type_matches (parse_media_type t) then true else any_satisfies ts

  unfoldable pub can_satisfy : Bytes → Bool
  unfolding any_satisfies tokenize
  can_satisfy accept = any_satisfies (tokenize accept)
