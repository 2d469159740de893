-- ===== src/Css/Urls/Rules.antt =====
-- transformer/internal/css/cssurl.go: the fuel for rules and blocks.
use amppackager.Prelude.{
  ℕ, zero, suc, ◌+◌, ◌≤◌, ◌<◌, Bool, true, false, List, [], ◌∷◌, Option, none, some, if◌then◌else◌,
  length, arith,
}
use amppackager.Css.Reads.{TokenType, Token, ◌>>=◌}
use amppackager.Css.Urls.{
  drop_tokens, opened, block_from, consume_a_block, behind_value, at_rule_from, consume_an_at_rule,
}

-- The fuel is enough.
pub data Gives : Option ℕ → Type 0 where
  gives : (n : ℕ) → Gives (some n)

if-Gives : (b : Bool) (p q : Option ℕ) → Gives p → Gives q → Gives (if b then p else q)
if-Gives true p q s t = s
if-Gives false p q s t = t

bind-Gives : (m : Option ℕ) (f : ℕ → Option ℕ) → Gives m → ((n : ℕ) → Gives (f n)) → Gives (m >>= f)
bind-Gives none f g k = elim g [ ]
bind-Gives (some n) f g k = k n

length-drop_tokens : (n : ℕ) (ts : List Token) → length (drop_tokens n ts) ≤ length ts
unfolding drop_tokens
length-drop_tokens zero ts = omega arith
length-drop_tokens (suc n) [] = omega arith
length-drop_tokens (suc n) (t ∷ ts) = omega (arith, length-drop_tokens n ts)

opened-Gives :
    (block : (TokenType → Bool) → List Token → Option ℕ) (m : Option (TokenType → Bool))
    (ts : List Token)
    → ((ends : TokenType → Bool) → Gives (block ends ts))
    → Gives (opened block m ts)
opened-Gives block none ts h = gives 0
opened-Gives block (some ends) ts h = bind-Gives _ _ (h ends) (λ n. gives (suc n))

behind_value-Gives :
    (loop : List Token → Option ℕ) (ts : List Token) (n : ℕ)
    → ((us : List Token) → length us ≤ length ts → Gives (loop us))
    → Gives (behind_value loop ts n)
behind_value-Gives loop ts n h =
    bind-Gives _ _ (h (drop_tokens n ts) (length-drop_tokens n ts)) (λ m. gives (suc (n + m)))

block_from-Gives :
    (fuel : ℕ) (ends : TokenType → Bool) (ts : List Token)
    → length ts < fuel
    → Gives (block_from fuel ends ts)
unfolding block_from
block_from-Gives zero ends ts h = ground arith
block_from-Gives (suc fuel) ends [] h = gives 0
block_from-Gives (suc fuel) ends (t ∷ ts) h = if-Gives _ _ _ (gives 0) (
    bind-Gives _ _
      (opened-Gives (block_from fuel) _ ts (λ e. block_from-Gives fuel e ts (omega arith)))
      (λ n.
        behind_value-Gives (block_from fuel ends) ts n
          (λ us l. block_from-Gives fuel ends us (omega arith))))

consume_a_block-Gives :
    (ends : TokenType → Bool) (ts : List Token) → Gives (consume_a_block ends ts)
unfolding consume_a_block
consume_a_block-Gives ends ts = block_from-Gives (suc (length ts)) ends ts (omega arith)

at_rule_from-Gives : (fuel : ℕ) (ts : List Token) → length ts < fuel → Gives (at_rule_from fuel ts)
unfolding at_rule_from
at_rule_from-Gives zero ts h = ground arith
at_rule_from-Gives (suc fuel) [] h = gives 0
at_rule_from-Gives (suc fuel) (t ∷ ts) h = if-Gives _ _ _ (gives 0) (
    if-Gives _ _ _ (bind-Gives _ _ (consume_a_block-Gives _ ts) (λ n. gives (suc n))) (
      bind-Gives _ _ (opened-Gives consume_a_block _ ts (λ ends. consume_a_block-Gives ends ts))
        (λ n.
          behind_value-Gives (at_rule_from fuel) ts n
            (λ us l. at_rule_from-Gives fuel us (omega arith)))))

pub consume_an_at_rule-Gives : (ts : List Token) → Gives (consume_an_at_rule ts)
unfolding consume_an_at_rule
consume_an_at_rule-Gives ts =
    bind-Gives _ _ (at_rule_from-Gives (suc (length ts)) ts (omega arith)) (λ n. gives (suc n))
