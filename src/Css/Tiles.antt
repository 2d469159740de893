-- ===== src/Css/Tiles.antt =====
-- transformer/internal/css/token.go: `Next` and `All`, and how the tokens cover the input.
use amppackager.Prelude.{
  ℕ, zero, suc, ◌<◌, ◌≡◌, refl, ap, Bool, true, false, List, [], ◌∷◌, ◌++◌, Option, none, some,
  arith, length, length-append, ◌||◌, inl, inr, Bool-cases,
}
use amppackager.Prelude.Text.{Bytes}
use amppackager.Css.Runes.{preprocess}
use amppackager.Css.Reads.{Read, Token, ◌>>=◌}
use amppackager.Css.Tokenizer.{next, keep_token, all_from, tokenize_css, is_last, is_eof, is_error}
use amppackager.Css.Ends.{enough}
use amppackager.Css.Next.{Reads, all_read, part_read, next-Reads}

-- The tokens of an input: they are parts of it in order, none of them empty, and the last one is
-- an error, or `EOFToken`, which has the rest of the input as its text.
pub data Tiles : Bytes → List Token → Type 0 where
  at_eof : {bs : Bytes} {t : Token} → is_eof t.kind ≡ true → t.text ≡ bs → Tiles bs (t ∷ [])
  at_error :
      {bs : Bytes} {t : Token} (rest : Bytes)
      → is_error t.kind ≡ true
      → t.text ++ rest ≡ bs
      → Tiles bs (t ∷ [])
  tile :
      {bs : Bytes} {t : Token} {ts : List Token} (rest : Bytes)
      → is_last t.kind ≡ false
      → 0 < length t.text
      → t.text ++ rest ≡ bs
      → Tiles rest ts
      → Tiles bs (t ∷ ts)

-- There is enough fuel, and the tokens are those of the input.
pub data Tiled (bs : Bytes) : Option (List Token) → Type 0 where
  tiled : {ts : List Token} → Tiles bs ts → Tiled bs (some ts)

Tiled-cons :
    {bs rest : Bytes} {t : Token} (m : Option (List Token))
    → Tiled rest m
    → ((ts : List Token) → Tiles rest ts → Tiles bs (t ∷ ts))
    → Tiled bs (m >>= λ ts. some (t ∷ ts))
Tiled-cons none tiles k = elim tiles [ ]
Tiled-cons (some ts) (tiled tiles) k = tiled (k ts tiles)

keep_token-Tiled :
    (bs : Bytes) (later : Bytes → Option (List Token)) (m : Read Token)
    → Reads bs m
    → ((x : Bytes) → length x < length bs → Tiled x (later x))
    → Tiled bs (m >>= keep_token later)
keep_token-Tiled bs later none r ih = elim r [ ]
keep_token-Tiled bs later (some (t, rest)) (all_read h e) ih = rw h (tiled (at_eof h e))
keep_token-Tiled bs later (some (t, rest)) (part_read h n e) ih =
    let shorter_rest : length rest < length bs =
      omega (arith, ap (λ x. length x) e, length-append {0} t.text rest, n) in
    elim (Bool-cases (is_error t.kind)) [
      | inl q ↦ rw (h, q) (tiled (at_error rest q e))
      | inr q ↦
          rw (h, q)
            (Tiled-cons (later rest) (ih rest shorter_rest)
              (λ ts tiles. tile rest (rw (h, q) refl) n e tiles))
    ]

all_from-Tiled : (fuel : ℕ) (bs : Bytes) → length bs < fuel → Tiled bs (all_from fuel bs)
unfolding all_from
all_from-Tiled zero bs h = ground arith
all_from-Tiled (suc fuel) bs h =
    keep_token-Tiled bs (all_from fuel) (next bs) (next-Reads bs)
      (λ x n. all_from-Tiled fuel x (omega arith))

-- Every style sheet is read to an end: the fuel of the loops is enough, and the tokens follow each
-- other in the preprocessed text, none of them empty, up to one that is an error or that stands for
-- the end of the text.
pub tokenize_css-Tiled : (input : Bytes) → Tiled (preprocess input) (tokenize_css input)
unfolding tokenize_css
tokenize_css-Tiled input =
    all_from-Tiled (suc (length (preprocess input))) (preprocess input)
      (enough (length (preprocess input)))

abbrev pub texts : List Token → Bytes
texts [] = []
texts (t ∷ ts) = t.text ++ texts ts

pub or_false_left : (b c : Bool) → b || c ≡ false → b ≡ false
or_false_left true c h = ground (arith, h)
or_false_left false c h = refl

pub or_false : (b : Bool) {c : Bool} → b || c ≡ false → c ≡ false
or_false true h = ground (arith, h)
or_false false h = h
