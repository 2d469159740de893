-- ===== src/Css/Urls.antt =====
-- transformer/internal/css/cssurl.go: the segments of a style sheet. The functions on tokens are
-- called with a token at the front, so their branches for an empty slice are left out. A function
-- answers `none` only where the fuel of a loop has run out.
pub mod Chops
mod Rules
use amppackager.Prelude.{
  ℕ, zero, suc, ◌+◌, ◌-◌, ◌*◌, ◌/◌, ◌%◌, Bool, true, false, not, ◌&&◌, ◌||◌, List, [], ◌∷◌, ◌++◌,
  Option, none, some, ltb, leb, ◌==◌, if◌then◌else◌, length, Result, ok, err,
}
use amppackager.Prelude.Text.{Bytes, codes, bytes_eq}
use amppackager.Config.{is_empty}
use amppackager.Css.Reads.{
  TokenType, error, eof, ident, function, at_keyword, hash, string, bad_string, url, bad_url, delim,
  number, percentage, dimension, unicode_range, include_match, dash_match, prefix_match,
  suffix_match, substring_match, column, whitespace, cdo, cdc, colon, semicolon, comma, open_square,
  close_square, open_paren, close_paren, open_curly, close_curly, Token, ◌>>=◌,
}
use amppackager.Css.Tokenizer.{is_eof, is_error, tokenize_css}

pub data SegmentType : Type 0 where
  byte_type image_url_type font_url_type : SegmentType

pub record Segment : Type 0 where
  pub kind : SegmentType
  pub data_of : Bytes

-- The tests on a token's type.
abbrev pub is_semicolon : TokenType → Bool
is_semicolon semicolon = true
is_semicolon _ = false

abbrev pub is_open_curly : TokenType → Bool
is_open_curly open_curly = true
is_open_curly _ = false

abbrev is_close_curly : TokenType → Bool
is_close_curly close_curly = true
is_close_curly _ = false

abbrev is_close_paren : TokenType → Bool
is_close_paren close_paren = true
is_close_paren _ = false

abbrev is_close_square : TokenType → Bool
is_close_square close_square = true
is_close_square _ = false

abbrev pub is_at_keyword : TokenType → Bool
is_at_keyword at_keyword = true
is_at_keyword _ = false

abbrev pub is_url : TokenType → Bool
is_url url = true
is_url _ = false

-- `tokens[n:]`
unfoldable pub drop_tokens : ℕ → List Token → List Token
drop_tokens zero ts = ts
drop_tokens (suc n) [] = []
drop_tokens (suc n) (t ∷ ts) = drop_tokens n ts

-- The test that ends what a token opens: a block, or the arguments of a function.
abbrev closer : TokenType → Option (TokenType → Bool)
closer open_curly = some is_close_curly
closer open_square = some is_close_square
closer open_paren = some is_close_paren
closer function = some is_close_paren
closer _ = none

abbrev pub opened :
    ((TokenType → Bool) → List Token → Option ℕ) → Option (TokenType → Bool) → List Token → Option ℕ
opened block none ts = some 0
opened block (some ends) ts = block ends ts >>= λ n. some (suc n)

-- `consumeAComponentValue`, with the loop over a block or over a function's arguments.
abbrev pub consume_a_component_value :
    ((TokenType → Bool) → List Token → Option ℕ) → TokenType → List Token → Option ℕ
consume_a_component_value block kind ts = opened block (closer kind) ts

-- The loop's next round, behind a component value of `n` more tokens.
abbrev pub behind_value : (List Token → Option ℕ) → List Token → ℕ → Option ℕ
behind_value loop ts n = loop (drop_tokens n ts) >>= λ m. some (suc (n + m))

-- The loop of `consumeASimpleBlock` and of `consumeAFunction`, on fuel: how many tokens come before
-- the one that ends it.
unfoldable pub block_from : ℕ → (TokenType → Bool) → List Token → Option ℕ
unfolding drop_tokens
block_from zero ends ts = none
block_from (suc fuel) ends [] = some 0
block_from (suc fuel) ends (t ∷ ts) =
    let next =
      consume_a_component_value (block_from fuel) t.kind ts
      >>= behind_value (block_from fuel ends) ts in
    if is_eof t.kind || ends t.kind then some 0 else next

unfoldable pub consume_a_block : (TokenType → Bool) → List Token → Option ℕ
unfolding block_from
consume_a_block ends ts = block_from (suc (length ts)) ends ts

-- The loop of `consumeAnAtRule`, on fuel.
unfoldable pub at_rule_from : ℕ → List Token → Option ℕ
unfolding consume_a_block drop_tokens
at_rule_from zero ts = none
at_rule_from (suc fuel) [] = some 0
at_rule_from (suc fuel) (t ∷ ts) =
    let next =
      consume_a_component_value consume_a_block t.kind ts >>= behind_value (at_rule_from fuel) ts in
    let block = consume_a_block is_close_curly ts >>= λ n. some (suc n) in
    if is_semicolon t.kind || is_eof t.kind
    then some 0
    else if is_open_curly t.kind
    then block
    else next

unfoldable pub consume_an_at_rule : List Token → Option ℕ
unfolding at_rule_from
consume_an_at_rule ts = at_rule_from (suc (length ts)) ts >>= λ n. some (suc n)

abbrev pub byte_segment : Bytes → Segment
byte_segment bytes = record { kind = byte_type; data_of = bytes }

-- The bytes before a URL, where there are any.
abbrev pub bytes_before : Bytes → List Segment
bytes_before [] = []
bytes_before (c ∷ cs) = byte_segment (c ∷ cs) ∷ []

abbrev pub url_segment : ℕ → ℕ → Bytes → Segment
url_segment i end value = record {
  kind = if ltb i end then font_url_type else image_url_type;
  data_of = value;
}

abbrev pub add_segments : List Segment → Result Bytes (List Segment) → Result Bytes (List Segment)
add_segments front (ok rest) = ok (front ++ rest)
add_segments front (err e) = err e

-- The loop of `ParseURLs`, with the index of the token, the end of the last rule `@font-face` and
-- the bytes since the last URL.
unfoldable pub segments_from : ℕ → ℕ → Bytes → List Token → Option (Result Bytes (List Segment))
unfolding consume_an_at_rule
segments_from i end sb [] = some (ok (byte_segment sb ∷ []))
segments_from i end sb (t ∷ ts) =
    let plain = segments_from (suc i) end (sb ++ t.text) ts in
    let rule = consume_an_at_rule ts >>= λ n. segments_from (suc i) (i + n) (sb ++ t.text) ts in
    let front = bytes_before sb ++ url_segment i end t.value ∷ [] in
    let link = segments_from (suc i) end [] ts >>= λ rest. some (add_segments front rest) in
    if is_eof t.kind
    then some (ok (byte_segment sb ∷ []))
    else if is_error t.kind
    then some (err t.value)
    else if is_at_keyword t.kind && bytes_eq t.value (codes "font-face")
    then rule
    else if is_url t.kind
    then link
    else plain

-- `ParseURLs`
unfoldable pub parse_urls : Bytes → Option (Result Bytes (List Segment))
unfolding tokenize_css segments_from
parse_urls css = tokenize_css css >>= segments_from 0 0 []
