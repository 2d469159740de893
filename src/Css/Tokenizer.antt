-- ===== src/Css/Tokenizer.antt =====
-- transformer/internal/css/token.go: the tokens of a style sheet.
use amppackager.Prelude.{
  ℕ, zero, suc, ◌-◌, Bool, true, false, ◌&&◌, ◌||◌, List, [], ◌∷◌, Option, none, some, ◌==◌,
  if◌then◌else◌, length,
}
use amppackager.Prelude.Text.{Bytes, codes}
use amppackager.Utf8.{rune_error}
use amppackager.Css.Runes.{preprocess, consume, take, peek}
use amppackager.Css.Reads.{TokenType, error, eof, delim, Token, Read, ◌>>=◌, emit}
use amppackager.Css.Switch.{token_at}

-- The loop over a comment, behind its opening.
unfoldable pub comment_from : ℕ → Bytes → Read (Unit {0})
unfolding consume
comment_from zero bs = none
comment_from (suc fuel) bs =
    let (r, rest) = consume bs in
    let next = comment_from fuel rest in
    if r == rune_error
    then some (tt, rest)
    else if r == b'*' && peek rest == b'/'
    then some (tt, (consume rest).1)
    else next

abbrev pub error_or_eof : Bytes → Bytes → Read Token
error_or_eof [] rest = emit eof [] rest
error_or_eof (c ∷ cs) rest = emit error (codes "encoding error") rest

-- A comment, its slash taken.
unfoldable pub skip_comment : Bytes → Read (Unit {0})
unfolding comment_from consume
skip_comment rest = comment_from (suc (length rest)) (consume rest).1

-- `consumeAToken`: a comment and then a token, on fuel for the comments.
unfoldable pub token_from : ℕ → Bytes → Read Token
unfolding consume skip_comment token_at
token_from zero bs = none
token_from (suc fuel) bs =
    let (r, rest) = consume bs in
    let after_comment = comment_from (suc (length rest)) (consume rest).1 >>= λ (unit, after).
    token_from fuel after in
    if r == rune_error
    then error_or_eof bs rest
    else if r == b'/'
    then (if peek rest == b'*' then after_comment else emit delim (codes "/") rest)
    else token_at r bs rest

-- `Next`: the token with its text, the part of the input that it was read from.
abbrev pub taken : Bytes → Bytes → Bytes
taken bs rest = take (length bs - length rest) bs

unfoldable pub next : Bytes → Read Token
unfolding token_from take
next bs =
    token_from (suc (length bs)) bs >>= λ (t, rest). some (record t { text = taken bs rest }, rest)

abbrev pub is_eof : TokenType → Bool
is_eof eof = true
is_eof _ = false

abbrev pub is_error : TokenType → Bool
is_error error = true
is_error _ = false

abbrev pub is_last : TokenType → Bool
is_last kind = is_eof kind || is_error kind

-- `All` with a token that is read, and the loop after it.
abbrev pub keep_token : (Bytes → Option (List Token)) → Token × Bytes → Option (List Token)
keep_token later (t, rest) =
    if is_last t.kind then some (t ∷ []) else (later rest >>= λ ts. some (t ∷ ts))

-- `All`, on fuel.
unfoldable pub all_from : ℕ → Bytes → Option (List Token)
unfolding next
all_from zero bs = none
all_from (suc fuel) bs = next bs >>= keep_token (all_from fuel)

-- `NewTokenizer(input).All()`
unfoldable pub tokenize_css : Bytes → Option (List Token)
unfolding preprocess all_from
tokenize_css input = let s = preprocess input in all_from (suc (length s)) s
