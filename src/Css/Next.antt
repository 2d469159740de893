-- ===== src/Css/Next.antt =====
-- transformer/internal/css/token.go: how much of the input `Next` reads.
use amppackager.Prelude.{
  ℕ, zero, suc, ◌-◌, ◌<◌, ◌≡◌, refl, ap, Bool, true, false, [], ◌∷◌, ◌++◌, none, some, arith,
  length, length-append, sym, ◌∙◌, if◌then◌else◌,
}
use mathlib.Core.List.{append-nil}
use amppackager.Prelude.Text.{Bytes}
use amppackager.Css.Runes.{consume, peek, take}
use amppackager.Css.Suffix.{
  Suffix, whole, skip, Suffix-length, Suffix-trans, consume-skip, consume-Suffix, take-sub,
}
use amppackager.Css.Reads.{Read, Token, ◌>>=◌}
use amppackager.Css.Switch.{token_at}
use amppackager.Css.Tokenizer.{token_from, skip_comment, error_or_eof, next, is_eof}
use amppackager.Css.Ends.{Ends, ends, if-Ends, bind-Ends, enough, shorter, comment_from-Ends}
use amppackager.Css.Strict.{consume_an_ident_like-Strict, consume_whitespace-Strict}
use amppackager.Css.Numeric.{consume_a_numeric-Strict}
use amppackager.Css.Progress.{token_at-Ends}
use amppackager.Css.Kinds.{Inner, inner, empty_handed, token_at-Inner}

token_at-Strict :
    (c : ℕ) (cs : Bytes) → Ends cs (token_at (peek (c ∷ cs)) (c ∷ cs) (consume (c ∷ cs)).1)
token_at-Strict c cs =
    token_at-Ends (peek (c ∷ cs)) (c ∷ cs) (consume-skip c cs) (consume_an_ident_like-Strict c cs)
      (consume_a_numeric-Strict c cs) (consume_whitespace-Strict c cs)

Ends-trans : {A : Type 0} {a b : Bytes} {m : Read A} → Suffix a b → Ends b m → Ends a m
Ends-trans s (ends t) = ends (Suffix-trans s t)

error_or_eof-Ends :
    {start : Bytes} (bs rest : Bytes) → Suffix start rest → Ends start (error_or_eof bs rest)
error_or_eof-Ends [] rest s = ends s
error_or_eof-Ends (c ∷ cs) rest s = ends s

skip_comment-Ends :
    {start : Bytes} (rest : Bytes) → Suffix start rest → Ends start (skip_comment rest)
unfolding skip_comment
skip_comment-Ends rest s =
    comment_from-Ends (suc (length rest)) (consume rest).1
      (shorter (enough (suc (length rest))) (consume rest).1 (consume-Suffix rest whole))
      (consume-Suffix rest s)

token_from-Step :
    (fuel c : ℕ) (cs : Bytes)
    → ((x : Bytes) → Suffix cs x → Ends cs (token_from fuel x))
    → Ends cs (token_from (suc fuel) (c ∷ cs))
unfolding token_from
token_from-Step fuel c cs ih =
    let later : (unit : Unit {0}) (x : Bytes) → Suffix cs x → Ends cs (token_from fuel x) =
      λ unit. ih in
    search (if-Ends, ends, bind-Ends, skip_comment-Ends, later, token_at-Strict, consume-skip) depth
      8

token_from-Ends : (fuel : ℕ) (bs : Bytes) → length bs < fuel → Ends bs (token_from fuel bs)
unfolding token_from
token_from-Ends zero bs h = ground arith
token_from-Ends (suc fuel) [] h = ends whole
token_from-Ends (suc fuel) (c ∷ cs) h =
    Ends-trans (skip whole)
      (token_from-Step fuel c cs (λ x s. Ends-trans s (token_from-Ends fuel x (shorter h x s))))

-- The token that stands for the end leaves nothing.
data Ended : Read Token → Type 0 where
  never : Ended none
  at_end : {t : Token} → is_eof t.kind ≡ true → Ended (some (t, []))
  before : {t : Token} {rest : Bytes} → is_eof t.kind ≡ false → Ended (some (t, rest))

if-Ended : (b : Bool) (p q : Read Token) → Ended p → Ended q → Ended (if b then p else q)
if-Ended true p q s t = s
if-Ended false p q s t = t

bind-Ended :
    {A : Type 0} (m : Read A) (f : A × Bytes → Read Token)
    → ((a : A) (rest : Bytes) → Ended (f (a, rest)))
    → Ended (m >>= f)
bind-Ended none f k = never
bind-Ended (some (a, rest)) f k = k a rest

Inner-Ended : (m : Read Token) → Inner m → Ended m
Inner-Ended m empty_handed = never
Inner-Ended m (inner h) = before h

token_at-Ended : (r : ℕ) (bs rest : Bytes) → Ended (token_at r bs rest)
token_at-Ended r bs rest = Inner-Ended _ (token_at-Inner r bs rest)

token_from-Ended : (fuel : ℕ) (bs : Bytes) → Ended (token_from fuel bs)
unfolding token_from
token_from-Ended zero bs = never
token_from-Ended (suc fuel) [] = at_end refl
token_from-Ended (suc fuel) (c ∷ cs) =
    let later : (unit : Unit {0}) (x : Bytes) → Ended (token_from fuel x) =
      λ unit x. token_from-Ended fuel x in
    search (if-Ended, before, bind-Ended, later, token_at-Ended) depth 8

-- What `Next` reads: the end, which is behind all of the input, or a part of it.
pub data Reads (bs : Bytes) : Read Token → Type 0 where
  all_read : {t : Token} → is_eof t.kind ≡ true → t.text ≡ bs → Reads bs (some (t, []))
  part_read :
      {t : Token} {rest : Bytes}
      → is_eof t.kind ≡ false
      → 0 < length t.text
      → t.text ++ rest ≡ bs
      → Reads bs (some (t, rest))

abbrev with_text : Bytes → Token × Bytes → Read Token
with_text bs (t, rest) = some (record t { text = take (length bs - length rest) bs }, rest)

with_text-Reads :
    (c : ℕ) (cs : Bytes) (m : Read Token)
    → Ends cs m
    → Ended m
    → Reads (c ∷ cs) (m >>= with_text (c ∷ cs))
with_text-Reads c cs none s e = elim s [ ]
with_text-Reads c cs (some (t, rest)) (ends s) (at_end h) =
    let e : take (length (c ∷ cs) - 0) (c ∷ cs) ++ [] ≡ c ∷ cs = take-sub (skip s) in
    all_read h (sym (append-nil (take (length (c ∷ cs) - 0) (c ∷ cs))) ∙ e)
with_text-Reads c cs (some (t, rest)) (ends s) (before h) =
    let e = take-sub (skip {c = c} s) in
    let n = ap (λ x. length x) e in
    part_read h
      (omega (
        arith,
        n,
        length-append {0} (take (length (c ∷ cs) - length rest) (c ∷ cs)) rest,
        Suffix-length s,
      ))
      e

pub next-Reads : (bs : Bytes) → Reads bs (next bs)
unfolding next token_from take
next-Reads [] = all_read refl refl
next-Reads (c ∷ cs) =
    let strict = token_from-Step (suc (length cs)) c cs (λ x s.
      Ends-trans s
        (token_from-Ends (suc (length cs)) x (shorter (enough (suc (length cs))) x s))) in
    with_text-Reads c cs _ strict (token_from-Ended (suc (suc (length cs))) (c ∷ cs))
