-- ===== src/Accept/Tokens.antt =====
-- The tokens of an Accept header in packager/accept/accept.go, beside its comma-separated elements,
-- where a comma inside a quoted string does not separate.
use mathlib.Core.List.{append_assoc, append-nil}
use amppackager.Prelude.{
  ℕ, ◌≡◌, ◌≢◌, refl, sym, ap, ◌∙◌, true, false, ◌||◌, List, [], ◌∷◌, ◌++◌, map, arith, ◌==◌, All,
}
use amppackager.Prelude.Text.{Bytes}
use amppackager.Header.{trim_header_value}
use amppackager.Accept.{tokenize_from, tokenize}

-- The inside of a quoted string: no bare quote, and a byte behind every backslash.
pub data IsQuotedBody : Bytes → Type 0 where
  done : IsQuotedBody []
  plain :
      {c : ℕ} {cs : Bytes}
      → (c == b'"' || c == b'\\') ≡ false
      → IsQuotedBody cs
      → IsQuotedBody (c ∷ cs)
  escaped : {c : ℕ} {cs : Bytes} → IsQuotedBody cs → IsQuotedBody (b'\\' ∷ c ∷ cs)

-- An element: bytes that are no comma, quote or backslash, and quoted strings.
pub data IsElement : Bytes → Type 0 where
  done : IsElement []
  plain :
      {c : ℕ} {cs : Bytes}
      → (c == b'"' || c == b'\\' || c == b',') ≡ false
      → IsElement cs
      → IsElement (c ∷ cs)
  quoted :
      {body cs : Bytes}
      → IsQuotedBody body
      → IsElement cs
      → IsElement (b'"' ∷ (body ++ (b'"' ∷ cs)))

abbrev pub join_commas : Bytes → List Bytes → Bytes
join_commas t [] = t
join_commas t (u ∷ us) = t ++ (b',' ∷ join_commas u us)

snoc_append : (cur : Bytes) (c : ℕ) (cs : Bytes) → (cur ++ c ∷ []) ++ cs ≡ cur ++ (c ∷ cs)
snoc_append cur c cs = append_assoc cur (c ∷ []) cs

tokenize_from-body :
    {body : Bytes} (tokens : List Bytes) (cur rest : Bytes)
    → IsQuotedBody body
    → tokenize_from tokens cur true false (body ++ rest)
      ≡ tokenize_from tokens (cur ++ body) true false rest
unfolding tokenize_from
tokenize_from-body tokens cur rest IsQuotedBody.done = rw append-nil
tokenize_from-body tokens cur rest (IsQuotedBody.plain {c} {cs} h b) =
    let ih =
      tokenize_from-body tokens (cur ++ c ∷ []) rest b
      ∙ ap (λ s. tokenize_from tokens s true false rest) (snoc_append cur c cs) in
    ground (arith, ih)
tokenize_from-body tokens cur rest (IsQuotedBody.escaped {c} {cs} b) =
    tokenize_from-body tokens ((cur ++ b'\\' ∷ []) ++ c ∷ []) rest b
    ∙ ap (λ s. tokenize_from tokens s true false rest)
        (append_assoc (cur ++ b'\\' ∷ []) (c ∷ []) cs ∙ snoc_append cur b'\\' (c ∷ cs))

tokenize_from-element :
    {t : Bytes} (tokens : List Bytes) (cur rest : Bytes)
    → IsElement t
    → tokenize_from tokens cur false false (t ++ rest)
      ≡ tokenize_from tokens (cur ++ t) false false rest
unfolding tokenize_from
tokenize_from-element tokens cur rest IsElement.done = rw append-nil
tokenize_from-element tokens cur rest (IsElement.plain {c} {cs} h e) =
    let ih =
      tokenize_from-element tokens (cur ++ c ∷ []) rest e
      ∙ ap (λ s. tokenize_from tokens s false false rest) (snoc_append cur c cs) in
    ground (arith, ih)
tokenize_from-element tokens cur rest (IsElement.quoted {body} {cs} b e) =
    ap (tokenize_from tokens (cur ++ b'"' ∷ []) true false) (append_assoc body (b'"' ∷ cs) rest)
    ∙ tokenize_from-body tokens (cur ++ b'"' ∷ []) (b'"' ∷ (cs ++ rest)) b
    ∙ tokenize_from-element tokens (((cur ++ b'"' ∷ []) ++ body) ++ b'"' ∷ []) rest e
    ∙ ap (λ s. tokenize_from tokens s false false rest) (simp append_assoc)

tokenize_from-join_commas :
    (tokens : List Bytes) (t : Bytes) (ts : List Bytes)
    → All IsElement (t ∷ ts)
    → tokenize_from tokens [] false false (join_commas t ts)
      ≡ tokens ++ map trim_header_value (t ∷ ts)
unfolding tokenize_from
tokenize_from-join_commas tokens t [] h =
    ap (tokenize_from tokens [] false false) (sym (append-nil t))
    ∙ tokenize_from-element tokens [] [] h.0
tokenize_from-join_commas tokens t (u ∷ us) h =
    tokenize_from-element tokens [] (b',' ∷ join_commas u us) h.0
    ∙ tokenize_from-join_commas (tokens ++ trim_header_value t ∷ []) u us h.1
    ∙ append_assoc tokens (trim_header_value t ∷ []) _

tokenize-non_empty : (s : Bytes) → s ≢ [] → tokenize s ≡ tokenize_from [] [] false false s
unfolding tokenize
tokenize-non_empty [] h = absurd (h refl)
tokenize-non_empty (c ∷ cs) h = refl

-- A non-empty header that is a list of elements joined by commas has these elements for its tokens,
-- each without the blanks round it; commas inside quoted strings do not separate.
pub tokenize-join_commas :
    (t : Bytes) (ts : List Bytes)
    → All IsElement (t ∷ ts)
    → join_commas t ts ≢ []
    → tokenize (join_commas t ts) ≡ map trim_header_value (t ∷ ts)
tokenize-join_commas t ts h ne =
    tokenize-non_empty (join_commas t ts) ne ∙ tokenize_from-join_commas [] t ts h

-- A backslash outside of quotes, behind any elements, leaves no token at all.
tokenize_backslash : (t : Bytes) (rest : Bytes) → IsElement t → tokenize (t ++ (b'\\' ∷ rest)) ≡ []
tokenize_backslash t rest h =
    tokenize-non_empty (t ++ (b'\\' ∷ rest)) (append-ne-nil t)
    ∙ tokenize_from-element [] [] (b'\\' ∷ rest) h
    ∙ unfold tokenize_from in refl
  where
    append-ne-nil : (s : Bytes) → s ++ (b'\\' ∷ rest) ≢ []
    append-ne-nil [] = λ e. cc
    append-ne-nil (c ∷ cs) = λ e. cc
