-- ===== src/Css/Suffix.antt =====
-- transformer/internal/css/token.go: what a read leaves of the input.
use amppackager.Prelude.{
  ℕ, zero, suc, ◌-◌, ◌≤◌, ◌≡◌, refl, ap, Bool, true, false, [], ◌∷◌, ◌++◌, arith, length,
  if◌then◌else◌,
}
use amppackager.Prelude.Text.{Bytes}
use amppackager.Utf8.{decode_rune, decode_two, decode_three, decode_four}
use amppackager.Css.Runes.{
  consume, take, consume_whitespace, consume_digits, consume_hex, consume_an_escape,
}

-- The second list is the end of the first.
pub data Suffix : Bytes → Bytes → Type 0 where
  whole : {bs : Bytes} → Suffix bs bs
  skip : {c : ℕ} {bs rest : Bytes} → Suffix bs rest → Suffix (c ∷ bs) rest

pub Suffix-trans : {a b c : Bytes} → Suffix a b → Suffix b c → Suffix a c
Suffix-trans whole t = t
Suffix-trans (skip s) t = skip (Suffix-trans s t)

pub Suffix-length : {bs rest : Bytes} → Suffix bs rest → length rest ≤ length bs
Suffix-length whole = omega arith
Suffix-length (skip s) = omega (arith, Suffix-length s)

pub take-sub : {bs rest : Bytes} → Suffix bs rest → take (length bs - length rest) bs ++ rest ≡ bs
unfolding take
take-sub (whole {bs = bs}) = let e : length bs - length bs ≡ 0 = omega arith in rw e refl
take-sub (skip {c = c} {bs = bs} {rest = rest} s) =
    let e : suc (length bs) - length rest ≡ suc (length bs - length rest) =
      omega (arith, Suffix-length s) in
    rw e (ap (λ xs. c ∷ xs) (take-sub s))

-- The rune that is decoded leaves an end of the input.
data Decoded (bs : Bytes) : ℕ × Bool × Bytes → Type 0 where
  decoded : {r : ℕ} {good : Bool} {rest : Bytes} → Suffix bs rest → Decoded bs (r, good, rest)

module _ {bs : Bytes} where
  if-Decoded :
      (b : Bool) (p q : ℕ × Bool × Bytes)
      → Decoded bs p
      → Decoded bs q
      → Decoded bs (if b then p else q)
  if-Decoded true p q s t = s
  if-Decoded false p q s t = t

decode_two-Decoded : (c : ℕ) (cs : Bytes) → Decoded cs (decode_two c cs)
decode_two-Decoded c [] = decoded whole
decode_two-Decoded c (d ∷ ds) = search (if-Decoded, decoded, skip, whole) depth 8

decode_three-Decoded : (c : ℕ) (cs : Bytes) → Decoded cs (decode_three c cs)
decode_three-Decoded c [] = decoded whole
decode_three-Decoded c (d ∷ []) = decoded whole
decode_three-Decoded c (d ∷ e ∷ es) = search (if-Decoded, decoded, skip, whole) depth 8

decode_four-Decoded : (c : ℕ) (cs : Bytes) → Decoded cs (decode_four c cs)
decode_four-Decoded c [] = decoded whole
decode_four-Decoded c (d ∷ []) = decoded whole
decode_four-Decoded c (d ∷ e ∷ []) = decoded whole
decode_four-Decoded c (d ∷ e ∷ f ∷ fs) = search (if-Decoded, decoded, skip, whole) depth 8

decode_rune-Decoded : (c : ℕ) (cs : Bytes) → Decoded cs (decode_rune c cs)
unfolding decode_rune
decode_rune-Decoded c cs =
    search
      (if-Decoded, decoded, whole, decode_two-Decoded, decode_three-Decoded, decode_four-Decoded)
      depth 10

-- What is left in the tail of the input is less than the input.
pub consume-skip : (c : ℕ) (cs : Bytes) → Suffix cs (consume (c ∷ cs)).1
unfolding consume
consume-skip c cs = elim (decode_rune-Decoded c cs) [ decoded s ↦ s ]

-- A pure read leaves an end of the input.
pub data Leaves {A : Type 0} (start : Bytes) : A × Bytes → Type 0 where
  leaves : {a : A} {rest : Bytes} → Suffix start rest → Leaves start (a, rest)

module _ {start : Bytes} where
  pub Leaves-Suffix : {A : Type 0} {p : A × Bytes} → Leaves start p → Suffix start p.1
  Leaves-Suffix (leaves s) = s

  pub if-Leaves :
      {A : Type 0} (b : Bool) (p q : A × Bytes)
      → Leaves start p
      → Leaves start q
      → Leaves start (if b then p else q)
  if-Leaves true p q s t = s
  if-Leaves false p q s t = t

  pub if-Suffix :
      (b : Bool) (p q : Bytes) → Suffix start p → Suffix start q → Suffix start (if b then p else q)
  if-Suffix true p q s t = s
  if-Suffix false p q s t = t

  pub consume-Suffix : (bs : Bytes) → Suffix start bs → Suffix start (consume bs).1
  unfolding consume
  consume-Suffix [] s = s
  consume-Suffix (c ∷ cs) s = Suffix-trans s (skip (consume-skip c cs))

  pub consume_whitespace-Leaves :
      (bs : Bytes) → Suffix start bs → Leaves start (consume_whitespace bs)
  unfolding consume_whitespace
  consume_whitespace-Leaves [] s = leaves s
  consume_whitespace-Leaves (c ∷ cs) s =
      let ih = consume_whitespace-Leaves cs (Suffix-trans s (skip whole)) in
      search (if-Leaves, leaves (Leaves-Suffix ih), leaves) depth 6

  pub consume_digits-Leaves : (bs : Bytes) → Suffix start bs → Leaves start (consume_digits bs)
  unfolding consume_digits
  consume_digits-Leaves [] s = leaves s
  consume_digits-Leaves (c ∷ cs) s =
      let ih = consume_digits-Leaves cs (Suffix-trans s (skip whole)) in
      search (if-Leaves, leaves (Leaves-Suffix ih), leaves) depth 6

  pub consume_hex-Leaves :
      (left : ℕ) (digits bs : Bytes) → Suffix start bs → Leaves start (consume_hex left digits bs)
  unfolding consume_hex
  consume_hex-Leaves zero digits bs s = leaves s
  consume_hex-Leaves (suc left) digits bs s =
      search (if-Leaves, consume_hex-Leaves left, consume-Suffix, leaves) depth 8

  pub consume_an_escape-Leaves :
      (bs : Bytes) → Suffix start bs → Leaves start (consume_an_escape bs)
  unfolding consume_an_escape
  consume_an_escape-Leaves bs s =
      let digits =
        Leaves-Suffix
          (consume_hex-Leaves 5 ((consume bs).0 ∷ []) (consume bs).1 (consume-Suffix bs s)) in
      search (if-Leaves, if-Suffix, consume-Suffix, leaves, digits) depth 8
