-- ===== src/Css/Reads.antt =====
-- transformer/internal/css/token.go: names, strings and URLs. A function answers `none` only where
-- the fuel of a loop has run out.
use amppackager.Prelude.{
  ℕ, zero, suc, Bool, true, false, ◌&&◌, ◌||◌, [], ◌++◌, Option, none, some, ◌==◌, if◌then◌else◌,
  length,
}
use amppackager.Prelude.Split.{to_lower}
use amppackager.Prelude.Text.{Bytes, codes, bytes_eq}
use amppackager.Utf8.{rune_error}
use amppackager.Css.Runes.{
  consume, peek, encode_rune, is_name, is_non_printable, is_whitespace, backslash, is_valid_escape,
  consume_whitespace, consume_an_escape,
}

pub data TokenType : Type 0 where
  error eof ident function at_keyword hash string bad_string url bad_url delim number percentage :
      TokenType
  dimension unicode_range include_match dash_match prefix_match suffix_match : TokenType
  substring_match column whitespace cdo cdc colon semicolon comma open_square : TokenType
  close_square open_paren close_paren open_curly close_curly : TokenType

-- `text` is what `String` answers: the input from `startPos` to `endPos`.
pub record Token : Type 0 where
  pub kind : TokenType
  pub value : Bytes
  pub extra : Bytes
  pub text : Bytes

abbrev pub Read : Type 0 → Type 0
Read A = Option (A × Bytes)

infixl 5 ◌>>=◌
abbrev pub ◌>>=◌ {ℓ κ} : {A : Type ℓ} {B : Type κ} → Option A → (A → Option B) → Option B
none >>= f = none
some a >>= f = f a

abbrev pub token_of : TokenType → Bytes → Bytes → Token
token_of kind value extra = record { kind = kind; value = value; extra = extra; text = [] }

abbrev pub emit : TokenType → Bytes → Bytes → Read Token
emit kind value rest = some (token_of kind value [], rest)

-- The loop of `consumeAName`, on fuel.
unfoldable pub name_from : ℕ → Bytes → Bytes → Read Bytes
unfolding consume consume_an_escape encode_rune
name_from zero out bs = none
name_from (suc fuel) out bs =
    let (r, rest) = consume bs in
    let longer = name_from fuel (out ++ encode_rune r) rest in
    let (e, after) = consume_an_escape rest in
    let escaped = name_from fuel (out ++ encode_rune e) after in
    if r == rune_error
    then some (out, rest)
    else if is_name r
    then longer
    else if is_valid_escape r (peek rest)
    then escaped
    else some (out, bs)

unfoldable pub consume_a_name : Bytes → Read Bytes
unfolding name_from
consume_a_name bs = name_from (suc (length bs)) [] bs

-- The loop of `consumeRemnantsOfBadURL`.
unfoldable pub remnants_from : ℕ → Bytes → Read Token
unfolding consume consume_an_escape
remnants_from zero bs = none
remnants_from (suc fuel) bs =
    let (r, rest) = consume bs in
    let next =
      remnants_from fuel
        (if is_valid_escape r (peek rest) then (consume_an_escape rest).1 else rest) in
    if r == b')' || r == rune_error then emit bad_url [] rest else next

unfoldable pub consume_remnants_of_bad_url : Bytes → Read Token
unfolding remnants_from
consume_remnants_of_bad_url bs = remnants_from (suc (length bs)) bs

-- The loop of `consumeAString`: the type, the value and the quote make the token.
unfoldable pub string_from : ℕ → ℕ → Bytes → Bytes → Read Token
unfolding consume consume_an_escape encode_rune
string_from zero quote out bs = none
string_from (suc fuel) quote out bs =
    let (r, rest) = consume bs in
    let plain = string_from fuel quote (out ++ encode_rune r) rest in
    let skipped = string_from fuel quote out rest in
    let newline = string_from fuel quote out (consume rest).1 in
    let (e, after) = consume_an_escape rest in
    let escaped = string_from fuel quote (out ++ encode_rune e) after in
    if r == rune_error
    then some (token_of string out (encode_rune quote), rest)
    else if r == quote
    then some (token_of string out (encode_rune quote), rest)
    else if r == 10
    then some (token_of bad_string out (encode_rune quote), bs)
    else if r == backslash
    then (if length rest == 1
        then skipped
        else if peek rest == 10
        then newline
        else if is_valid_escape r (peek rest)
        then escaped
        else plain)
    else plain

unfoldable pub consume_a_string : ℕ → Bytes → Read Token
unfolding string_from
consume_a_string quote bs = string_from (suc (length bs)) quote [] bs

-- A URL ends at a parenthesis or at the end.
abbrev pub ends_url : ℕ → Bool
ends_url r = r == b')' || r == rune_error

abbrev pub close_url : Bytes → Bytes → Read Token
close_url value bs =
    if ends_url (peek bs) then emit url value (consume bs).1 else consume_remnants_of_bad_url bs

-- The loop of `consumeAURL` for a URL without quotes.
unfoldable pub url_from : ℕ → Bytes → Bytes → Read Token
unfolding consume consume_an_escape encode_rune consume_remnants_of_bad_url consume_whitespace
url_from zero out bs = none
url_from (suc fuel) out bs =
    let (r, rest) = consume bs in
    let plain = url_from fuel (out ++ encode_rune r) rest in
    let (e, after) = consume_an_escape rest in
    let escaped = url_from fuel (out ++ encode_rune e) after in
    if ends_url r
    then emit url out rest
    else if is_whitespace r
    then close_url out (consume_whitespace rest).1
    else if r == b'"' || r == b'\'' || r == b'(' || is_non_printable r
    then consume_remnants_of_bad_url rest
    else if r == backslash
    then (if is_valid_escape r (peek rest) then escaped else consume_remnants_of_bad_url rest)
    else plain

abbrev pub is_bad_string : TokenType → Bool
is_bad_string bad_string = true
is_bad_string _ = false

-- What follows the quoted URL.
abbrev pub after_string : Token × Bytes → Read Token
after_string (t, rest) =
    if is_bad_string t.kind
    then consume_remnants_of_bad_url rest
    else close_url t.value (consume_whitespace rest).1

unfoldable pub consume_a_url : Bytes → Read Token
unfolding url_from consume_a_string consume_whitespace consume_remnants_of_bad_url
consume_a_url start =
    let bs = (consume_whitespace start).1 in
    let r = peek bs in
    if r == rune_error
    then emit url [] bs
    else if r == b'"' || r == b'\''
    then (consume_a_string r (consume bs).1 >>= after_string)
    else url_from (suc (length bs)) [] bs

abbrev pub is_url_name : Bytes → Bool
is_url_name name = bytes_eq (to_lower name) (codes "url")

-- What follows a name.
abbrev pub name_then : Bytes × Bytes → Read Token
name_then (name, rest) =
    if is_url_name name && peek rest == b'('
    then consume_a_url (consume rest).1
    else if peek rest == b'('
    then emit function name (consume rest).1
    else emit ident name rest

unfoldable pub consume_an_ident_like : Bytes → Read Token
unfolding consume_a_name consume_a_url consume
consume_an_ident_like bs = consume_a_name bs >>= name_then
