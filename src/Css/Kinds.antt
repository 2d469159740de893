-- ===== src/Css/Kinds.antt =====
-- transformer/internal/css/token.go: `EOFToken` is the token of an empty input.
use amppackager.Prelude.{
  ℕ, zero, suc, ◌≡◌, refl, Bool, true, false, [], ◌∷◌, none, some, arith, length, if◌then◌else◌,
}
use amppackager.Prelude.Text.{Bytes}
use amppackager.Css.Reads.{
  Read, Token, ◌>>=◌, remnants_from, consume_remnants_of_bad_url, string_from, consume_a_string,
  close_url, url_from, consume_a_url, consume_an_ident_like, after_string, name_then,
  consume_a_name,
}
use amppackager.Css.Numbers.{consume_a_numeric, consume_a_unicode_range, range_token}
use amppackager.Css.Switch.{token_at, minus, hash_or_delim, at_sign, other_rune, bracket_type}
use amppackager.Css.Tokenizer.{is_eof}

-- If the read answers a token, then that is not the end.
pub data Inner : Read Token → Type 0 where
  empty_handed : Inner none
  inner : {t : Token} {rest : Bytes} → is_eof t.kind ≡ false → Inner (some (t, rest))

if-Inner : (b : Bool) (p q : Read Token) → Inner p → Inner q → Inner (if b then p else q)
if-Inner true p q s t = s
if-Inner false p q s t = t

bind-Inner :
    {A : Type 0} (m : Read A) (f : A × Bytes → Read Token)
    → ((a : A) (rest : Bytes) → Inner (f (a, rest)))
    → Inner (m >>= f)
bind-Inner none f k = empty_handed
bind-Inner (some (a, rest)) f k = k a rest

remnants_from-Inner : (fuel : ℕ) (bs : Bytes) → Inner (remnants_from fuel bs)
unfolding remnants_from
remnants_from-Inner zero bs = empty_handed
remnants_from-Inner (suc fuel) bs = search (if-Inner, inner, remnants_from-Inner fuel) depth 6

remnants-Inner : (bs : Bytes) → Inner (consume_remnants_of_bad_url bs)
unfolding consume_remnants_of_bad_url
remnants-Inner bs = remnants_from-Inner (suc (length bs)) bs

string_from-Inner : (fuel quote : ℕ) (out bs : Bytes) → Inner (string_from fuel quote out bs)
unfolding string_from
string_from-Inner zero quote out bs = empty_handed
string_from-Inner (suc fuel) quote out bs =
    search (if-Inner, inner, string_from-Inner fuel) depth 10

consume_a_string-Inner : (quote : ℕ) (bs : Bytes) → Inner (consume_a_string quote bs)
unfolding consume_a_string
consume_a_string-Inner quote bs = string_from-Inner (suc (length bs)) quote [] bs

close_url-Inner : (value bs : Bytes) → Inner (close_url value bs)
close_url-Inner value bs = search (if-Inner, inner, remnants-Inner) depth 6

url_from-Inner : (fuel : ℕ) (out bs : Bytes) → Inner (url_from fuel out bs)
unfolding url_from
url_from-Inner zero out bs = empty_handed
url_from-Inner (suc fuel) out bs =
    search (if-Inner, inner, url_from-Inner fuel, close_url-Inner, remnants-Inner) depth 12

after_string-Inner : (t : Token) (bs : Bytes) → Inner (after_string (t, bs))
after_string-Inner t bs = search (if-Inner, close_url-Inner, remnants-Inner) depth 6

consume_a_url-Inner : (bs : Bytes) → Inner (consume_a_url bs)
unfolding consume_a_url
consume_a_url-Inner bs =
    search (if-Inner, inner, bind-Inner, after_string-Inner, url_from-Inner) depth 8

name_then-Inner : (name bs : Bytes) → Inner (name_then (name, bs))
name_then-Inner name bs = search (if-Inner, inner, consume_a_url-Inner) depth 6

consume_an_ident_like-Inner : (bs : Bytes) → Inner (consume_an_ident_like bs)
unfolding consume_an_ident_like
consume_an_ident_like-Inner bs = bind-Inner (consume_a_name bs) name_then name_then-Inner

consume_a_numeric-Inner : (bs : Bytes) → Inner (consume_a_numeric bs)
unfolding consume_a_numeric
consume_a_numeric-Inner bs = search (if-Inner, inner, bind-Inner) depth 8

range_token-Inner : (a b bs : Bytes) → Inner (range_token a b bs)
range_token-Inner [] b bs = inner refl
range_token-Inner (c ∷ cs) [] bs = inner refl
range_token-Inner (c ∷ cs) (d ∷ ds) bs = inner refl

consume_a_unicode_range-Inner : (bs : Bytes) → Inner (consume_a_unicode_range bs)
unfolding consume_a_unicode_range
consume_a_unicode_range-Inner bs = search (if-Inner, inner, range_token-Inner) depth 8

hash_or_delim-Inner : (rest : Bytes) → Inner (hash_or_delim rest)
hash_or_delim-Inner rest = search (if-Inner, bind-Inner, inner) depth 8

at_sign-Inner : (rest : Bytes) → Inner (at_sign rest)
at_sign-Inner rest = search (if-Inner, bind-Inner, inner) depth 8

minus-Inner : (bs rest : Bytes) → Inner (minus bs rest)
minus-Inner bs rest =
    search (if-Inner, consume_a_numeric-Inner, consume_an_ident_like-Inner, inner) depth 8

other_rune-Inner : (r : ℕ) (bs rest : Bytes) → Inner (other_rune r bs rest)
other_rune-Inner r bs rest =
    search
      (
        if-Inner, consume_a_numeric-Inner, consume_an_ident_like-Inner,
        consume_a_unicode_range-Inner, inner,
      )
      depth 12

is_eof-bracket_type : (r : ℕ) → is_eof (bracket_type r) ≡ false
is_eof-bracket_type r = ground arith

pub token_at-Inner : (r : ℕ) (bs rest : Bytes) → Inner (token_at r bs rest)
unfolding token_at
token_at-Inner r bs rest =
    search
      (
        if-Inner, hash_or_delim-Inner, at_sign-Inner, minus-Inner, other_rune-Inner,
        consume_a_string-Inner, consume_a_numeric-Inner, consume_an_ident_like-Inner,
        is_eof-bracket_type, inner,
      )
      depth 24
