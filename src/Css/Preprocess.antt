-- ===== src/Css/Preprocess.antt =====
-- transformer/internal/css/token.go: what `preprocessReplacer` leaves in a style sheet.
use amppackager.Prelude.{ℕ, ◌≡◌, refl, Bool, false, ◌||◌, [], ◌∷◌, arith, ◌==◌, All}
use amppackager.Prelude.Text.{Bytes}
use amppackager.Css.Runes.{preprocess_from, preprocess}

-- A byte that the preprocessing replaces: carriage return, form feed and NUL.
abbrev pub is_replaced : ℕ → Bool
is_replaced c = c == 13 || c == 12 || c == 0

abbrev pub IsPlain : Bytes → Type 0
IsPlain = All (λ c. is_replaced c ≡ false)

preprocess_from-IsPlain : (after_cr : Bool) (bs : Bytes) → IsPlain (preprocess_from after_cr bs)
unfolding preprocess_from
preprocess_from-IsPlain after_cr [] = tt
preprocess_from-IsPlain after_cr (c ∷ cs) = ground (arith, preprocess_from-IsPlain (c == 13) cs)

preprocess_from-plain : (bs : Bytes) → IsPlain bs → preprocess_from false bs ≡ bs
unfolding preprocess_from
preprocess_from-plain [] h = refl
preprocess_from-plain (c ∷ cs) (h, hs) =
    let other : c == 13 ≡ false = ground (arith, h) in
    let rest = preprocess_from-plain cs hs in rw other (ground (arith, h, rest, other))

-- A preprocessed style sheet has no carriage return, form feed or NUL, and preprocessing it again
-- changes nothing.
preprocess_idem :
    (bs : Bytes) → IsPlain (preprocess bs) × (preprocess (preprocess bs) ≡ preprocess bs)
unfolding preprocess
preprocess_idem bs =
    let plain = preprocess_from-IsPlain false bs in
    (plain, preprocess_from-plain (preprocess_from false bs) plain)
