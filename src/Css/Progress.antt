-- ===== src/Css/Progress.antt =====
-- transformer/internal/css/token.go: every token of `consumeAToken` takes input.
use amppackager.Prelude.{ℕ, ◌≡◌, refl, Bool, true, false, arith, if◌then◌else◌, ◌||◌, ◌==◌}
use amppackager.Prelude.Text.{Bytes}
use amppackager.Css.Runes.{
  consume_whitespace, peek, peek_at, is_digit, is_a_number, is_whitespace, is_name, is_name_start,
  is_valid_escape, backslash,
}
use amppackager.Css.Suffix.{Suffix, Leaves, Leaves-Suffix, consume-Suffix}
use amppackager.Css.Reads.{Read, TokenType, consume_an_ident_like}
use amppackager.Css.Numbers.{consume_a_numeric}
use amppackager.Css.Switch.{
  token_at, white, minus, hash_or_delim, matching, number_or_delim, less, at_sign, escape_or_delim,
  letter_u, other_rune,
}
use amppackager.Css.Ends.{
  Ends, ends, if-Ends, bind-Ends, consume_a_name-Ends, consume_a_string-Ends,
}
use amppackager.Css.Numeric.{consume_a_unicode_range-Ends}

module _ {start : Bytes} where
  -- A branch that needs its test.
  when-Ends :
      {A : Type 0} (b : Bool) (p q : Read A)
      → (b ≡ true → Ends start p)
      → Ends start q
      → Ends start (if b then p else q)
  when-Ends true p q s t = s refl
  when-Ends false p q s t = t

  white-Ends : (bs : Bytes) → Leaves start (consume_whitespace bs) → Ends start (white bs)
  white-Ends bs s = ends (Leaves-Suffix s)

-- The tests under which a token is read again from its first rune.
dash_name : (r x : ℕ) → r == b'-' ≡ true → is_name r || is_valid_escape r x ≡ true
dash_name r x h = ground (arith, h)

start_name : (r x : ℕ) → is_name_start r ≡ true → is_name r || is_valid_escape r x ≡ true
start_name r x h = ground (arith, h)

u_name : (r x : ℕ) → r == b'U' || r == b'u' ≡ true → is_name r || is_valid_escape r x ≡ true
u_name r x h = ground (arith, h)

escape_name :
    (r x : ℕ)
    → r == backslash ≡ true
    → is_valid_escape backslash x ≡ true
    → is_name r || is_valid_escape r x ≡ true
escape_name r x h e = ground (arith, h, e)

dash_number :
    (r x y : ℕ) → r == b'-' ≡ true → is_a_number b'-' x y ≡ true → is_a_number r x y ≡ true
dash_number r x y h e = ground (arith, h, e)

digit_number : (r x y : ℕ) → is_digit r ≡ true → is_a_number r x y ≡ true
digit_number r x y h = ground (arith, h)

module _ {start rest : Bytes} (r : ℕ) (bs : Bytes) (s : Suffix start rest)
    (name : is_name r || is_valid_escape r (peek rest) ≡ true
      → Ends start (consume_an_ident_like bs))
    (number : is_a_number r (peek rest) (peek_at 1 rest) ≡ true
      → Ends start (consume_a_numeric bs)) where
  minus-Ends : r == b'-' ≡ true → Ends start (minus bs rest)
  minus-Ends h =
      let ident_like = name (dash_name r (peek rest) h) in
      let numeric : is_a_number b'-' (peek rest) (peek_at 1 rest) ≡ true
          → Ends start (consume_a_numeric bs) =
        λ e. number (dash_number r (peek rest) (peek_at 1 rest) h e) in
      search (when-Ends, numeric, ident_like, ends, consume-Suffix) depth 10

  hash_or_delim-Ends : Ends start (hash_or_delim rest)
  hash_or_delim-Ends = search (if-Ends, bind-Ends, ends, consume_a_name-Ends) depth 8

  matching-Ends : (kind : TokenType) → Ends start (matching kind r rest)
  matching-Ends kind = search (if-Ends, ends, consume-Suffix) depth 8

  number_or_delim-Ends : Ends start (number_or_delim r bs rest)
  number_or_delim-Ends = search (when-Ends, number, ends) depth 8

  less-Ends : Ends start (less rest)
  less-Ends = search (if-Ends, ends, consume-Suffix) depth 10

  at_sign-Ends : Ends start (at_sign rest)
  at_sign-Ends = search (if-Ends, bind-Ends, ends, consume_a_name-Ends) depth 8

  escape_or_delim-Ends : r == backslash ≡ true → Ends start (escape_or_delim bs rest)
  escape_or_delim-Ends h = search (when-Ends, name, escape_name r (peek rest) h, ends) depth 10

  letter_u-Ends : r == b'U' || r == b'u' ≡ true → Ends start (letter_u bs rest)
  letter_u-Ends h =
      let ident_like = name (u_name r (peek rest) h) in
      search (if-Ends, ident_like, consume_a_unicode_range-Ends, consume-Suffix) depth 8

  other_rune-Ends : Ends start (other_rune r bs rest)
  other_rune-Ends =
      let ident_like : is_name_start r ≡ true → Ends start (consume_an_ident_like bs) =
        λ h. name (start_name r (peek rest) h) in
      let numeric : is_digit r ≡ true → Ends start (consume_a_numeric bs) =
        λ h. number (digit_number r (peek rest) (peek_at 1 rest) h) in
      search (when-Ends, letter_u-Ends, ident_like, numeric, ends, consume-Suffix) depth 16

  pub token_at-Ends :
      (is_whitespace r ≡ true → Leaves start (consume_whitespace bs))
      → Ends start (token_at r bs rest)
  unfolding token_at
  token_at-Ends space =
      search
        (
          when-Ends, ends, white-Ends, space, consume_a_string-Ends, hash_or_delim-Ends,
          matching-Ends, number_or_delim-Ends, minus-Ends, less-Ends, at_sign-Ends,
          escape_or_delim-Ends, other_rune-Ends,
        )
        depth 24
