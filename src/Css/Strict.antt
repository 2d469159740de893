-- ===== src/Css/Strict.antt =====
-- transformer/internal/css/token.go: a token that is no error and not the end takes input.
use amppackager.Prelude.{
  ℕ, suc, ◌≡◌, ap, Bool, true, false, ◌∷◌, arith, length, if◌then◌else◌, ◌||◌, ltb,
}
use amppackager.Prelude.Text.{Bytes}
use mathlib.Core.Path.{subst}
use amppackager.Utf8.{decode_rune}
use amppackager.Css.Runes.{
  consume, consume_whitespace, is_name, is_valid_escape, peek, is_whitespace,
}
use amppackager.Css.Suffix.{
  Suffix, whole, consume-skip, Leaves, leaves, Leaves-Suffix, consume_whitespace-Leaves,
}
use amppackager.Css.Reads.{Read, name_from, consume_a_name, consume_an_ident_like}
use amppackager.Css.Ends.{
  Ends, ends, if-Ends, bind-Ends, enough, shorter, name_from-Ends, name_then-Ends, escape-Suffix,
}

module _ {start : Bytes} where
  -- The last branch is not reached.
  or-Ends :
      {A : Type 0} (b c : Bool) (p q r : Read A)
      → b || c ≡ true
      → Ends start p
      → Ends start q
      → Ends start (if b then p else if c then q else r)
  or-Ends true c p q r h s t = s
  or-Ends false true p q r h s t = t
  or-Ends false false p q r h s t = ground arith

-- The first rune of a name.
abbrev pub begins_name : Bytes → Bool
begins_name bs = is_name (peek bs) || is_valid_escape (peek bs) (peek (consume bs).1)

consume_a_name-Strict :
    (c : ℕ) (cs : Bytes) → begins_name (c ∷ cs) ≡ true → Ends cs (consume_a_name (c ∷ cs))
unfolding consume_a_name name_from
consume_a_name-Strict c cs h =
    let long : (out x : Bytes) → Suffix cs x → Ends cs (name_from (suc (length cs)) out x) =
      λ out x t. name_from-Ends _ out x (shorter (enough (suc (length cs))) x t) t in
    search (if-Ends, or-Ends, h, long, escape-Suffix, consume-skip, ends) depth 10

pub consume_an_ident_like-Strict :
    (c : ℕ) (cs : Bytes) → begins_name (c ∷ cs) ≡ true → Ends cs (consume_an_ident_like (c ∷ cs))
unfolding consume_an_ident_like
consume_an_ident_like-Strict c cs h = bind-Ends _ _ (consume_a_name-Strict c cs h) name_then-Ends

-- An ASCII rune is the byte that it is read from.
pub consume-ascii :
    (c : ℕ) (cs : Bytes) → ltb (peek (c ∷ cs)) 128 ≡ true → consume (c ∷ cs) ≡ (c, cs)
unfolding consume decode_rune
consume-ascii c cs h = ground (arith, h)

space_ascii : (r : ℕ) → is_whitespace r ≡ true → ltb r 128 ≡ true
space_ascii r h = ground (arith, h)

pub consume_whitespace-Strict :
    (c : ℕ) (cs : Bytes)
    → is_whitespace (peek (c ∷ cs)) ≡ true
    → Leaves cs (consume_whitespace (c ∷ cs))
unfolding consume_whitespace
consume_whitespace-Strict c cs h =
    let p = ap (λ p. p.0) (consume-ascii c cs (space_ascii (peek (c ∷ cs)) h)) in
    let e = subst (λ r. is_whitespace r ≡ true) p h in
    rw e (leaves (Leaves-Suffix (consume_whitespace-Leaves cs whole)))
