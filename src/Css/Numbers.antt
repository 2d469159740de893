-- ===== src/Css/Numbers.antt =====
-- transformer/internal/css/token.go: numbers and ranges of code points.
use amppackager.Prelude.{
  ℕ, zero, suc, ◌+◌, ◌/◌, ◌%◌, Bool, true, false, not, ◌&&◌, ◌||◌, [], ◌∷◌, ◌++◌, some, ltb, ◌==◌,
  if◌then◌else◌,
}
use amppackager.Prelude.Text.{Bytes, codes}
use amppackager.Config.{is_empty}
use amppackager.Utf8.{rune_error}
use amppackager.Css.Runes.{
  consume, drop, peek, peek_at, encode_rune, is_digit, is_hex, is_an_identifier, consume_digits,
  max_hex_digits, consume_hex, hex_value,
}
use amppackager.Css.Reads.{
  error, number, percentage, dimension, unicode_range, Token, Read, ◌>>=◌, token_of, emit,
  consume_a_name,
}

-- `consumeANumber`: the sign, the digits, the fraction and the exponent.
abbrev pub sign_of : Bytes → Bytes × Bytes
sign_of bs =
    if peek bs == b'+' || peek bs == b'-' then (encode_rune (peek bs), (consume bs).1) else ([], bs)

abbrev pub fraction_of : Bytes → Bytes × Bytes
fraction_of bs =
    if peek bs == b'.' && is_digit (peek_at 1 bs)
    then (let second = (consume bs).1 in
        let (ds, rest) = consume_digits (consume second).1 in
        (encode_rune (peek bs) ++ (encode_rune (peek second) ++ ds), rest))
    else ([], bs)

abbrev pub exponent_of : Bytes → Bytes × Bytes
exponent_of bs =
    let signed = peek_at 1 bs == b'+' || peek_at 1 bs == b'-' in
    if (peek bs == b'E' || peek bs == b'e')
      && is_digit (if signed then peek_at 2 bs else peek_at 1 bs)
    then (let second = (consume bs).1 in
        let start = if signed then (consume second).1 else second in
        let (ds, rest) = consume_digits start in
        (encode_rune (peek bs) ++ ((if signed then encode_rune (peek second) else []) ++ ds), rest))
    else ([], bs)

unfoldable pub consume_a_number : Bytes → Bytes × Bytes
unfolding consume_digits consume encode_rune drop
consume_a_number bs =
    let (sign, a) = sign_of bs in
    let (digits, b) = consume_digits a in
    let (fraction, c) = fraction_of b in
    let (exponent, d) = exponent_of c in (sign ++ (digits ++ (fraction ++ exponent)), d)

unfoldable pub consume_a_numeric : Bytes → Read Token
unfolding consume_a_number consume_a_name consume drop
consume_a_numeric bs =
    let (repr, rest) = consume_a_number bs in
    let r = peek rest in
    if r == rune_error
    then emit number repr rest
    else if is_an_identifier r (peek_at 1 rest) (peek_at 2 rest)
    then (consume_a_name rest >>= λ (unit, after). some (token_of dimension repr unit, after))
    else if r == b'%'
    then emit percentage repr (consume rest).1
    else emit number repr rest

-- The first loop of `consumeAUnicodeRange`: the digits of the start and of the end, and whether a
-- question mark was among them.
unfoldable pub range_digits : ℕ → Bytes → Bytes → Bool → Bytes → (Bytes × Bytes × Bool) × Bytes
unfolding consume
range_digits zero start end found bs = ((start, end, found), bs)
range_digits (suc left) start end found bs =
    let (r, rest) = consume bs in
    let digit = range_digits left (start ++ r ∷ []) (end ++ r ∷ []) found rest in
    let wild = range_digits left (start ++ b'0' ∷ []) (end ++ b'F' ∷ []) true rest in
    if r == rune_error
    then ((start, end, found), rest)
    else if is_hex r
    then digit
    else if r == b'?'
    then wild
    else ((start, end, found), bs)

abbrev pub hex_digit : ℕ → ℕ
hex_digit d = if ltb d 10 then b'0' + d else 55 + d

-- `%04X`
unfoldable pub format_hex : ℕ → ℕ → Bytes
format_hex zero n = []
format_hex (suc width) n =
    let front = format_hex width (n / 16) in
    if width == 0 then front ++ hex_digit n ∷ [] else front ++ hex_digit (n % 16) ∷ []

-- Four digits, or as many as the number has, of at most 6.
abbrev pub format_04x : ℕ → Bytes
format_04x n =
    if ltb n 65536 then format_hex 4 n else if ltb n 1048576 then format_hex 5 n else format_hex 6 n

abbrev pub range_value : ℕ → ℕ → Bytes
range_value a b =
    if a == b
    then codes "U+" ++ format_04x a
    else codes "U+" ++ (format_04x a ++ (b'-' ∷ format_04x b))

-- The error of `strconv.ParseInt` on no digits.
abbrev pub no_digits : Bytes
no_digits = codes "strconv.ParseInt: parsing " ++ (b'"' ∷ b'"' ∷ codes ": invalid syntax")

-- The token of a range, an error where one of the numbers has no digits.
abbrev pub range_token : Bytes → Bytes → Bytes → Read Token
range_token [] end rest = emit error no_digits rest
range_token (s ∷ start) [] rest = emit error no_digits rest
range_token (s ∷ start) (e ∷ end) rest =
    emit unicode_range (range_value (hex_value 0 (s ∷ start)) (hex_value 0 (e ∷ end))) rest

unfoldable pub consume_a_unicode_range : Bytes → Read Token
unfolding range_digits consume_hex hex_value format_hex consume
consume_a_unicode_range bs =
    let ((start, end, found), rest) = range_digits max_hex_digits [] [] false bs in
    if is_empty start
    then emit error no_digits rest
    else if not found && peek rest == b'-'
    then (let (digits, after) = consume_hex max_hex_digits [] (consume rest).1 in
        range_token start digits after)
    else range_token start end rest
