-- ===== src/Css/Numeric.antt =====
-- transformer/internal/css/token.go: how much input numbers and ranges of code points take.
use amppackager.Prelude.{
  ℕ, zero, suc, ◌≡◌, refl, Bool, true, false, [], ◌∷◌, arith, if◌then◌else◌, ◌||◌, ltb, ◌==◌, inl,
  inr, Bool-cases,
}
use amppackager.Prelude.Text.{Bytes}
use mathlib.Core.Path.{subst}
use amppackager.Utf8.{decode_rune}
use amppackager.Css.Runes.{
  consume, consume_digits, encode_rune, peek, peek_at, is_digit, is_a_number, drop, starts_number,
}
use amppackager.Css.Suffix.{
  Suffix, whole, consume-skip, Leaves, leaves, Leaves-Suffix, if-Leaves, if-Suffix, consume-Suffix,
  consume_digits-Leaves, consume_hex-Leaves,
}
use amppackager.Css.Numbers.{
  fraction_of, exponent_of, consume_a_number, consume_a_numeric, range_digits, range_token,
  consume_a_unicode_range,
}
use amppackager.Css.Ends.{Ends, ends, if-Ends, bind-Ends, consume_a_name-Ends}
use amppackager.Css.Strict.{consume-ascii}

module _ {start : Bytes} where
  digits-Suffix : (bs : Bytes) → Suffix start bs → Suffix start (consume_digits bs).1
  digits-Suffix bs s = Leaves-Suffix (consume_digits-Leaves bs s)

  fraction_of-Leaves : (bs : Bytes) → Suffix start bs → Leaves start (fraction_of bs)
  fraction_of-Leaves bs s = search (if-Leaves, leaves, digits-Suffix, consume-Suffix) depth 8

  exponent_of-Leaves : (bs : Bytes) → Suffix start bs → Leaves start (exponent_of bs)
  exponent_of-Leaves bs s =
      search (if-Leaves, leaves, if-Suffix, digits-Suffix, consume-Suffix) depth 8

  -- What follows the sign of a number.
  unsigned-Suffix :
      (a : Bytes)
      → Suffix start (consume_digits a).1
      → Suffix start (exponent_of (fraction_of (consume_digits a).1).1).1
  unsigned-Suffix a s =
      Leaves-Suffix (exponent_of-Leaves _ (Leaves-Suffix (fraction_of-Leaves _ s)))

period : (cs : Bytes) → is_digit (peek cs) ≡ true → Suffix cs (fraction_of (b'.' ∷ cs)).1
unfolding consume decode_rune drop
period cs h = rw h (digits-Suffix _ (consume-Suffix cs whole))

-- A digit, or a period and a digit, is taken.
starts_number-Suffix :
    (c : ℕ) (cs : Bytes)
    → starts_number c (peek cs) ≡ true
    → Suffix cs (exponent_of (fraction_of (consume_digits (c ∷ cs)).1).1).1
unfolding consume_digits
starts_number-Suffix c cs h = elim (Bool-cases (is_digit c)) [
  | inl e ↦ unsigned-Suffix (c ∷ cs) (rw e (digits-Suffix cs whole))
  | inr e ↦
      let p : c ≡ b'.' = ground (arith, h, e) in
      let digit : is_digit (peek cs) ≡ true = ground (arith, h, e) in
      rw p (Leaves-Suffix (exponent_of-Leaves _ (period cs digit)))
]

number_ascii : (r x y : ℕ) → is_a_number r x y ≡ true → ltb r 128 ≡ true
number_ascii r x y h = ground (arith, h)

abbrev is_sign : ℕ → Bool
is_sign r = r == b'+' || r == b'-'

not_sign : (r x y : ℕ) → is_a_number r x y ≡ true → is_sign r ≡ false → starts_number r x ≡ true
not_sign r x y h e = ground (arith, h, e)

abbrev behind : Bytes → Bytes
behind a = (exponent_of (fraction_of (consume_digits a).1).1).1

sign_split :
    {start : Bytes} (b : Bool) (e x y : Bytes)
    → (b ≡ true → Suffix start (behind x))
    → (b ≡ false → Suffix start (behind y))
    → Suffix start (behind (if◌then◌else◌ {A = Bytes × Bytes} b (e, x) ([], y)).1)
sign_split true e x y s t = s refl
sign_split false e x y s t = t refl

abbrev pub begins_number : Bytes → Bool
begins_number bs = is_a_number (peek bs) (peek (consume bs).1) (peek_at 1 (consume bs).1)

consume_a_number-Suffix :
    (c : ℕ) (cs : Bytes) → begins_number (c ∷ cs) ≡ true → Suffix cs (consume_a_number (c ∷ cs)).1
unfolding consume_a_number
consume_a_number-Suffix c cs h =
    let q = consume-ascii c cs (
      number_ascii (peek (c ∷ cs)) (peek (consume (c ∷ cs)).1) (peek_at 1 (consume (c ∷ cs)).1)
        h) in
    let g : is_a_number c (peek cs) (peek_at 1 cs) ≡ true =
      subst (λ p. is_a_number p.0 (peek p.1) (peek_at 1 p.1) ≡ true) q h in
    sign_split (is_sign (peek (c ∷ cs))) (encode_rune (peek (c ∷ cs))) _ _
      (λ e. unsigned-Suffix (consume (c ∷ cs)).1 (digits-Suffix _ (consume-skip c cs)))
      (λ e.
        starts_number-Suffix c cs
          (not_sign c (peek cs) (peek_at 1 cs) g (subst (λ p. is_sign p.0 ≡ false) q e)))

pub consume_a_numeric-Strict :
    (c : ℕ) (cs : Bytes) → begins_number (c ∷ cs) ≡ true → Ends cs (consume_a_numeric (c ∷ cs))
unfolding consume_a_numeric
consume_a_numeric-Strict c cs h =
    let s = consume_a_number-Suffix c cs h in
    search (if-Ends, ends, s, bind-Ends, consume_a_name-Ends, consume-Suffix) depth 8

-- A range of code points.
module _ {start : Bytes} where
  range_digits-Leaves :
      (left : ℕ) (a b : Bytes) (found : Bool) (bs : Bytes)
      → Suffix start bs
      → Leaves start (range_digits left a b found bs)
  unfolding range_digits
  range_digits-Leaves zero a b found bs s = leaves s
  range_digits-Leaves (suc left) a b found bs s =
      search (if-Leaves, leaves, range_digits-Leaves left, consume-Suffix) depth 8

  range_token-Ends : (a b bs : Bytes) → Suffix start bs → Ends start (range_token a b bs)
  range_token-Ends [] b bs s = ends s
  range_token-Ends (c ∷ cs) [] bs s = ends s
  range_token-Ends (c ∷ cs) (d ∷ ds) bs s = ends s

  pub consume_a_unicode_range-Ends :
      (bs : Bytes) → Suffix start bs → Ends start (consume_a_unicode_range bs)
  unfolding consume_a_unicode_range
  consume_a_unicode_range-Ends bs s =
      let first = Leaves-Suffix (range_digits-Leaves 6 [] [] false bs s) in
      let second = Leaves-Suffix (
        consume_hex-Leaves 6 [] (consume (range_digits 6 [] [] false bs).1).1
          (consume-Suffix _ first)) in
      search (if-Ends, ends, range_token-Ends, first, second) depth 8
