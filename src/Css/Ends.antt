-- ===== src/Css/Ends.antt =====
-- transformer/internal/css/token.go: the loops over names, strings, URLs and comments, with the
-- fuel that the model gives them.
use amppackager.Prelude.{
  ℕ, zero, suc, ◌<◌, Bool, true, false, [], ◌∷◌, none, some, arith, length, if◌then◌else◌,
}
use amppackager.Prelude.Text.{Bytes}
use amppackager.Css.Runes.{consume_whitespace, consume_an_escape}
use amppackager.Css.Suffix.{
  Suffix, Suffix-length, consume-skip, Leaves-Suffix, if-Suffix, consume-Suffix,
  consume_whitespace-Leaves, consume_an_escape-Leaves,
}
use amppackager.Css.Reads.{
  Read, ◌>>=◌, Token, name_from, consume_a_name, remnants_from, consume_remnants_of_bad_url,
  string_from, consume_a_string, close_url, url_from, consume_a_url, after_string, name_then,
}
use amppackager.Css.Tokenizer.{comment_from}

-- A read has enough fuel, and leaves an end of the input.
pub data Ends {A : Type 0} (start : Bytes) : Read A → Type 0 where
  ends : {a : A} {rest : Bytes} → Suffix start rest → Ends start (some (a, rest))

module _ {start : Bytes} where
  pub if-Ends :
      {A : Type 0} (b : Bool) (p q : Read A)
      → Ends start p
      → Ends start q
      → Ends start (if b then p else q)
  if-Ends true p q s t = s
  if-Ends false p q s t = t

  pub bind-Ends :
      {A B : Type 0} (m : Read A) (f : A × Bytes → Read B)
      → Ends start m
      → ((a : A) (rest : Bytes) → Suffix start rest → Ends start (f (a, rest)))
      → Ends start (m >>= f)
  bind-Ends none f s k = elim s [ ]
  bind-Ends (some (a, rest)) f (ends s) k = k a rest s

  pub escape-Suffix : (bs : Bytes) → Suffix start bs → Suffix start (consume_an_escape bs).1
  escape-Suffix bs s = Leaves-Suffix (consume_an_escape-Leaves bs s)

  pub space-Suffix : (bs : Bytes) → Suffix start bs → Suffix start (consume_whitespace bs).1
  space-Suffix bs s = Leaves-Suffix (consume_whitespace-Leaves bs s)

-- A read, step by step.
ruleset reading =
    (if-Ends, ends, consume-skip, if-Suffix, escape-Suffix, space-Suffix, consume-Suffix)

pub enough : (n : ℕ) → n < suc n
enough n = omega arith

-- What is left behind the first byte needs less fuel.
pub shorter :
    {fuel : ℕ} {cs : Bytes}
    → suc (length cs) < suc fuel
    → (x : Bytes) → Suffix cs x
    → length x < fuel
shorter h x s = omega (arith, Suffix-length s)

module _ {start : Bytes} where
  pub name_from-Ends :
      (fuel : ℕ) (out bs : Bytes)
      → length bs < fuel
      → Suffix start bs
      → Ends start (name_from fuel out bs)
  unfolding name_from
  name_from-Ends zero out bs h s = ground arith
  name_from-Ends (suc fuel) out [] h s = ends s
  name_from-Ends (suc fuel) out (c ∷ cs) h s =
      search (reading, name_from-Ends fuel, shorter h) depth 10

  pub consume_a_name-Ends : (bs : Bytes) → Suffix start bs → Ends start (consume_a_name bs)
  unfolding consume_a_name
  consume_a_name-Ends bs s = name_from-Ends (suc (length bs)) [] bs (enough (length bs)) s

  remnants_from-Ends :
      (fuel : ℕ) (bs : Bytes)
      → length bs < fuel
      → Suffix start bs
      → Ends start (remnants_from fuel bs)
  unfolding remnants_from
  remnants_from-Ends zero bs h s = ground arith
  remnants_from-Ends (suc fuel) [] h s = ends s
  remnants_from-Ends (suc fuel) (c ∷ cs) h s =
      search (reading, remnants_from-Ends fuel, shorter h) depth 10

  pub consume_remnants_of_bad_url-Ends :
      (bs : Bytes) → Suffix start bs → Ends start (consume_remnants_of_bad_url bs)
  unfolding consume_remnants_of_bad_url
  consume_remnants_of_bad_url-Ends bs s =
      remnants_from-Ends (suc (length bs)) bs (enough (length bs)) s

  string_from-Ends :
      (fuel quote : ℕ) (out bs : Bytes)
      → length bs < fuel
      → Suffix start bs
      → Ends start (string_from fuel quote out bs)
  unfolding string_from
  string_from-Ends zero quote out bs h s = ground arith
  string_from-Ends (suc fuel) quote out [] h s = ends s
  string_from-Ends (suc fuel) quote out (c ∷ cs) h s =
      search (reading, string_from-Ends fuel, shorter h) depth 12

  pub consume_a_string-Ends :
      (quote : ℕ) (bs : Bytes) → Suffix start bs → Ends start (consume_a_string quote bs)
  unfolding consume_a_string
  consume_a_string-Ends quote bs s =
      string_from-Ends (suc (length bs)) quote [] bs (enough (length bs)) s

  close_url-Ends : (value bs : Bytes) → Suffix start bs → Ends start (close_url value bs)
  close_url-Ends value bs s = search (reading, consume_remnants_of_bad_url-Ends) depth 6

  url_from-Ends :
      (fuel : ℕ) (out bs : Bytes)
      → length bs < fuel
      → Suffix start bs
      → Ends start (url_from fuel out bs)
  unfolding url_from
  url_from-Ends zero out bs h s = ground arith
  url_from-Ends (suc fuel) out [] h s = ends s
  url_from-Ends (suc fuel) out (c ∷ cs) h s =
      search
        (reading, url_from-Ends fuel, shorter h, close_url-Ends, consume_remnants_of_bad_url-Ends)
        depth 12

  after_string-Ends : (t : Token) (bs : Bytes) → Suffix start bs → Ends start (after_string (t, bs))
  after_string-Ends t bs s =
      search (if-Ends, close_url-Ends, space-Suffix, consume_remnants_of_bad_url-Ends) depth 6

  pub consume_a_url-Ends : (bs : Bytes) → Suffix start bs → Ends start (consume_a_url bs)
  unfolding consume_a_url
  consume_a_url-Ends bs s =
      search (reading, bind-Ends, consume_a_string-Ends, after_string-Ends, url_from-Ends, enough)
        depth 8

  pub name_then-Ends : (name bs : Bytes) → Suffix start bs → Ends start (name_then (name, bs))
  name_then-Ends name bs s = search (reading, consume_a_url-Ends) depth 6

  pub comment_from-Ends :
      (fuel : ℕ) (bs : Bytes)
      → length bs < fuel
      → Suffix start bs
      → Ends start (comment_from fuel bs)
  unfolding comment_from
  comment_from-Ends zero bs h s = ground arith
  comment_from-Ends (suc fuel) [] h s = ends s
  comment_from-Ends (suc fuel) (c ∷ cs) h s =
      search (reading, comment_from-Ends fuel, shorter h) depth 10
