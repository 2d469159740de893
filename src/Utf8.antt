-- ===== src/Utf8.antt =====
-- transformer/utf8.go: which documents are well-formed UTF-8 without characters that HTML forbids.
-- `decode_rune` is `utf8.DecodeRuneInString` of the standard library.
pub mod Encoding
pub mod Valid
use amppackager.Prelude.{
  ℕ, zero, suc, ◌+◌, ◌-◌, ◌*◌, Bool, true, false, not, ◌&&◌, ◌||◌, List, [], ◌∷◌, ◌++◌, Result, ok,
  err, ltb, leb, ◌==◌, if◌then◌else◌, length, ◌%◌,
}
use amppackager.Prelude.Text.{Bytes}

-- `r & 0xFFFE != 0xFFFE` on the code points past U+FFFF.
abbrev pub low_bits_differ : ℕ → Bool
low_bits_differ r = ltb (r % 65536) 65534

unfoldable pub is_html_valid : ℕ → Bool
is_html_valid r =
    (ltb 31 r && ltb r 127)
    || r == 9
    || r == 10
    || r == 12
    || r == 13
    || (ltb 159 r && ltb r 55296)
    || (ltb 57343 r && ltb r 64976)
    || (ltb 65007 r && ltb r 65534)
    || (ltb 65535 r && ltb r 1114110 && low_bits_differ r)

-- A byte that continues a rune.
abbrev pub is_continuation : ℕ → Bool
is_continuation c = leb 128 c && leb c 191

abbrev pub rune_error : ℕ
rune_error = 65533

-- The rune at the start, and what follows it; an ill-formed start is one byte wide and reads as
-- `RuneError`, and the flag tells it from U+FFFD.
abbrev bad : Bytes → ℕ × Bool × Bytes
bad rest = (rune_error, false, rest)

abbrev pub decode_two : ℕ → Bytes → ℕ × Bool × Bytes
decode_two c [] = bad []
decode_two c (d ∷ ds) =
    if is_continuation d then ((c - 192) * 64 + (d - 128), true, ds) else bad (d ∷ ds)

-- The second byte of three leaves out overlong forms and surrogates.
abbrev pub second_of_three : ℕ → ℕ → Bool
second_of_three c d = leb (if c == 224 then 160 else 128) d && leb d (if c == 237 then 159 else 191)

abbrev pub decode_three : ℕ → Bytes → ℕ × Bool × Bytes
decode_three c [] = bad []
decode_three c (d ∷ []) = bad (d ∷ [])
decode_three c (d ∷ e ∷ es) =
    if second_of_three c d && is_continuation e
    then ((c - 224) * 4096 + (d - 128) * 64 + (e - 128), true, es)
    else bad (d ∷ e ∷ es)

abbrev pub second_of_four : ℕ → ℕ → Bool
second_of_four c d = leb (if c == 240 then 144 else 128) d && leb d (if c == 244 then 143 else 191)

abbrev pub decode_four : ℕ → Bytes → ℕ × Bool × Bytes
decode_four c [] = bad []
decode_four c (d ∷ []) = bad (d ∷ [])
decode_four c (d ∷ e ∷ []) = bad (d ∷ e ∷ [])
decode_four c (d ∷ e ∷ f ∷ fs) =
    if second_of_four c d && is_continuation e && is_continuation f
    then ((c - 240) * 262144 + (d - 128) * 4096 + (e - 128) * 64 + (f - 128), true, fs)
    else bad (d ∷ e ∷ f ∷ fs)

unfoldable pub decode_rune : ℕ → Bytes → ℕ × Bool × Bytes
decode_rune c cs =
    if ltb c 128
    then (c, true, cs)
    else if leb 194 c && leb c 223
    then decode_two c cs
    else if leb 224 c && leb c 239
    then decode_three c cs
    else if leb 240 c && leb c 244
    then decode_four c cs
    else bad cs

pub data Utf8Error : Type 0 where
  invalid_utf8 out_of_fuel : Utf8Error
  not_allowed : ℕ → Utf8Error

abbrev step : Result Utf8Error (Unit {0}) → ℕ × Bool × Bytes → Result Utf8Error (Unit {0})
step rest (r, good, _) =
    if not good
    then err invalid_utf8
    else if not (is_html_valid r)
    then err (not_allowed r)
    else rest

-- The loop, on fuel.
unfoldable pub validate_from : ℕ → Bytes → Result Utf8Error (Unit {0})
unfolding decode_rune is_html_valid
validate_from fuel [] = ok tt
validate_from zero (c ∷ cs) = err out_of_fuel
validate_from (suc fuel) (c ∷ cs) =
    let rest = validate_from fuel (decode_rune c cs).2 in step rest (decode_rune c cs)

unfoldable pub validate_utf8_for_html : Bytes → Result Utf8Error (Unit {0})
unfolding validate_from
validate_utf8_for_html html = validate_from (length html) html
