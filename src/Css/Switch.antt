-- ===== src/Css/Switch.antt =====
-- transformer/internal/css/token.go: the switch of `consumeAToken` on a rune.
use amppackager.Prelude.{ℕ, Bool, ◌&&◌, ◌||◌, [], ◌∷◌, ◌++◌, ◌==◌, if◌then◌else◌}
use amppackager.Prelude.Text.{Bytes, codes}
use amppackager.Css.Runes.{
  consume, drop, peek, peek_at, encode_rune, is_digit, is_hex, is_name_start, is_name,
  is_whitespace, backslash, is_valid_escape, is_an_identifier, is_a_number, consume_whitespace,
}
use amppackager.Css.Reads.{
  TokenType, at_keyword, hash, delim, include_match, dash_match, prefix_match, suffix_match,
  substring_match, column, whitespace, cdo, cdc, colon, semicolon, comma, open_square, close_square,
  open_paren, close_paren, open_curly, close_curly, Token, Read, ◌>>=◌, emit, consume_a_name,
  consume_a_string, consume_an_ident_like,
}
use amppackager.Css.Numbers.{consume_a_numeric, consume_a_unicode_range}

-- A delimiter, or a token of two runes where an equals sign follows.
abbrev pub matching : TokenType → ℕ → Bytes → Read Token
matching kind r rest =
    if peek rest == b'='
    then emit kind (encode_rune r ++ b'=' ∷ []) (consume rest).1
    else emit delim (encode_rune r) rest

abbrev pub hash_or_delim : Bytes → Read Token
hash_or_delim rest =
    if is_name (peek rest) || is_valid_escape (peek rest) (peek_at 1 rest)
    then (consume_a_name rest >>= λ (name, after). emit hash name after)
    else emit delim (codes "#") rest

abbrev pub number_or_delim : ℕ → Bytes → Bytes → Read Token
number_or_delim r bs rest =
    if is_a_number r (peek rest) (peek_at 1 rest)
    then consume_a_numeric bs
    else emit delim (encode_rune r) rest

abbrev pub minus : Bytes → Bytes → Read Token
minus bs rest =
    if is_a_number b'-' (peek rest) (peek_at 1 rest)
    then consume_a_numeric bs
    else if is_an_identifier b'-' (peek rest) (peek_at 1 rest)
    then consume_an_ident_like bs
    else if peek rest == b'-' && peek_at 1 rest == b'>'
    then emit cdc (codes "-->") (consume (consume rest).1).1
    else emit delim (codes "-") rest

abbrev pub less : Bytes → Read Token
less rest =
    if peek rest == b'!' && peek_at 1 rest == b'-' && peek_at 2 rest == b'-'
    then emit cdo (codes "<!--") (consume (consume (consume rest).1).1).1
    else emit delim (codes "<") rest

abbrev pub at_sign : Bytes → Read Token
at_sign rest =
    if is_an_identifier (peek rest) (peek_at 1 rest) (peek_at 2 rest)
    then (consume_a_name rest >>= λ (name, after). emit at_keyword name after)
    else emit delim (codes "@") rest

abbrev pub escape_or_delim : Bytes → Bytes → Read Token
escape_or_delim bs rest =
    if is_valid_escape backslash (peek rest)
    then consume_an_ident_like bs
    else emit delim (backslash ∷ []) rest

abbrev pub letter_u : Bytes → Bytes → Read Token
letter_u bs rest =
    if peek rest == b'+' && (is_hex (peek_at 1 rest) || peek_at 1 rest == b'?')
    then consume_a_unicode_range (consume rest).1
    else consume_an_ident_like bs

abbrev pub bar : Bytes → Read Token
bar rest =
    if peek rest == b'='
    then emit dash_match (codes "|=") (consume rest).1
    else if peek rest == b'|'
    then emit column (codes "||") (consume rest).1
    else emit delim (codes "|") rest

-- The equals sign is not consumed.
abbrev pub tilde : Bytes → Read Token
tilde rest =
    if peek rest == b'=' then emit include_match (codes "~=") rest else emit delim (codes "~") rest

-- The rest of `consumeAToken`, for a rune that no switch before has taken.
abbrev pub other_rune : ℕ → Bytes → Bytes → Read Token
other_rune r bs rest =
    if is_digit r
    then consume_a_numeric bs
    else if r == b'U' || r == b'u'
    then letter_u bs rest
    else if is_name_start r
    then consume_an_ident_like bs
    else if r == b'|'
    then bar rest
    else if r == b'~'
    then tilde rest
    else emit delim (encode_rune r) rest

abbrev pub bracket_type : ℕ → TokenType
bracket_type r =
    if r == b'('
    then open_paren
    else if r == b')'
    then close_paren
    else if r == b','
    then comma
    else if r == b':'
    then colon
    else if r == b';'
    then semicolon
    else if r == b'['
    then open_square
    else if r == b']'
    then close_square
    else if r == b'{'
    then open_curly
    else close_curly

abbrev pub is_bracket : ℕ → Bool
is_bracket r =
    r == b'('
    || r == b')'
    || r == b','
    || r == b':'
    || r == b';'
    || r == b'['
    || r == b']'
    || r == b'{'
    || r == b'}'

abbrev pub white : Bytes → Read Token
white bs = let (space, rest) = consume_whitespace bs in emit whitespace space rest

-- `consumeAToken` on a rune that starts no comment, and is no error.
unfoldable pub token_at : ℕ → Bytes → Bytes → Read Token
unfolding consume_whitespace consume_a_string consume_a_name consume_a_numeric consume_an_ident_like
    consume_a_unicode_range consume encode_rune drop
token_at r bs rest =
    if is_whitespace r
    then white bs
    else if r == b'"' || r == b'\''
    then consume_a_string r rest
    else if r == b'#'
    then hash_or_delim rest
    else if r == b'$'
    then matching suffix_match r rest
    else if is_bracket r
    then emit (bracket_type r) (encode_rune r) rest
    else if r == b'*'
    then matching substring_match r rest
    else if r == b'+' || r == b'.'
    then number_or_delim r bs rest
    else if r == b'-'
    then minus bs rest
    else if r == b'<'
    then less rest
    else if r == b'@'
    then at_sign rest
    else if r == backslash
    then escape_or_delim bs rest
    else if r == b'^'
    then matching prefix_match r rest
    else other_rune r bs rest
