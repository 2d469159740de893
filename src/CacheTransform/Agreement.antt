-- ===== src/CacheTransform/Agreement.antt =====
-- `QuotedString` of packager/util/http.go beside `parseString` of
-- packager/amp_cache_transform/amp_cache_transform.go.
use mathlib.Core.List.{append_assoc}
use amppackager.Prelude.{
  ℕ, ◌≡◌, refl, Bool, true, not, ◌&&◌, ◌||◌, [], ◌∷◌, ◌++◌, none, some, ok, arith, ltb, ◌==◌,
  if◌then◌else◌, Bool-cases, inl, inr,
}
use amppackager.Prelude.Text.{Bytes}
use amppackager.Header.{quote_from, quoted_string}
use amppackager.CacheTransform.{parse_string}
use amppackager.CacheTransform.RoundTrip.{AllBytes, IsText, escape, parse_string-escape}

-- A printable ASCII character or a tab.
abbrev pub is_printable : ℕ → Bool
is_printable b = not ((ltb b 32 || ltb 126 b) && not (b == 9))

abbrev pub all_printable : Bytes → Bool
all_printable [] = true
all_printable (b ∷ bs) = is_printable b && all_printable bs

quote_from-escape :
    (ret s : Bytes)
    → quote_from ret s ≡ (if all_printable s then some (ret ++ escape s (b'"' ∷ [])) else none)
unfolding quote_from
quote_from-escape ret [] = refl
quote_from-escape ret (b ∷ bs) =
    let escaped = quote_from-escape (ret ++ b'\\' ∷ b ∷ []) bs in
    let plain = quote_from-escape (ret ++ b ∷ []) bs in
    ground (
      arith,
      escaped,
      plain,
      append_assoc ret (b'\\' ∷ b ∷ []) (escape bs (b'"' ∷ [])),
      append_assoc ret (b ∷ []) (escape bs (b'"' ∷ [])),
    )

-- `QuotedString` fails exactly on a text with a byte that is neither printable ASCII nor a tab;
-- any other text it writes between quotes with a backslash before each quote and backslash.
quoted_string_lem :
    (s : Bytes)
    → quoted_string s ≡ (if all_printable s then some (b'"' ∷ escape s (b'"' ∷ [])) else none)
unfolding quoted_string
quoted_string_lem s = quote_from-escape (b'"' ∷ []) s

escape-append : (s t rest : Bytes) → escape s t ++ rest ≡ escape s (t ++ rest)
escape-append [] t rest = refl
escape-append (c ∷ cs) t rest = ground (arith, escape-append cs t rest)

printable-IsText :
    (s : Bytes) → all_printable s ≡ true → AllBytes (λ c. not (c == b'\t')) s → IsText s
printable-IsText [] p t = tt
printable-IsText (c ∷ cs) p t = (ground arith, printable-IsText cs (ground arith) t.1)

-- What `QuotedString` returns for a text without tabs, `parseString` reads back as that text,
-- with what follows left unread.
parse_string-quoted_string :
    (s q rest : Bytes)
    → quoted_string s ≡ some q
    → AllBytes (λ c. not (c == b'\t')) s
    → parse_string (q ++ rest) ≡ ok (s, rest)
parse_string-quoted_string s q rest h t = elim (Bool-cases (all_printable s)) [
  | inl p ↦
      let e : q ≡ b'"' ∷ escape s (b'"' ∷ []) = cc (rw p at (quoted_string_lem s)) in
      rw e (
        rw (escape-append s (b'"' ∷ []) rest) (parse_string-escape s rest (printable-IsText s p t)))
  | inr p ↦ absurd (cc (rw p at (quoted_string_lem s)))
]
