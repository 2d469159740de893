-- ===== src/Printer/Reading.antt =====
-- The attributes that transformer/printer/printer.go writes, read back.
use amppackager.Prelude.{
  ℕ, false, ◌||◌, [], ◌∷◌, ◌++◌, none, some, ◌≡◌, refl, sym, ap, ◌∙◌, arith, ◌==◌, if◌then◌else◌,
  All, Bool-cases, inl, inr,
}
use mathlib.Core.List.{append_assoc, append-nil}
use amppackager.Prelude.Text.{Bytes, codes}
use amppackager.Printer.Attributes.{write_quoted, pick_quote, any_needs_quotes, needs_quotes}
use amppackager.Printer.Reader.{
  State, before_name, after_quoted, in_name, after_name, before_value, double_quoted, unquoted,
  Pairs, goes, is_white, turn, Reading, behind, after_turn, name_start, read,
}

-- A byte that stands in names.
abbrev pub IsNameByte : ℕ → Type 0
IsNameByte c = (is_white c || c == b'/' || c == b'>' || c == b'=') ≡ false

pub behind-nothing : (r : Reading) → behind [] r ≡ r
behind-nothing none = refl
behind-nothing (some r) = refl

-- A byte that completes no attribute.
pub read-goes :
    (s t : State) (c : ℕ) (cs : Bytes) → turn s c ≡ goes [] t → read s (c ∷ cs) ≡ read t cs
unfolding read
read-goes s t c cs e = ap (λ u. after_turn u (λ v. read v cs) cs) e ∙ behind-nothing (read t cs)

read-in_name :
    (n m cs : Bytes) → All IsNameByte m → read (in_name n) (m ++ cs) ≡ read (in_name (n ++ m)) cs
unfolding turn
read-in_name n [] cs h = ap (λ k. read (in_name k) cs) (sym (append-nil n))
read-in_name n (c ∷ m) cs h =
    let step : turn (in_name n) c ≡ goes [] (in_name (n ++ c ∷ [])) = ground arith in
    read-goes (in_name n) (in_name (n ++ c ∷ [])) c (m ++ cs) step
    ∙ read-in_name (n ++ c ∷ []) m cs h.1
    ∙ ap (λ k. read (in_name k) cs) (append_assoc n (c ∷ []) m)

read-unquoted :
    (n v w cs : Bytes)
    → any_needs_quotes w ≡ false
    → read (unquoted n v) (w ++ cs) ≡ read (unquoted n (v ++ w)) cs
unfolding turn any_needs_quotes
read-unquoted n v [] cs h = ap (λ k. read (unquoted n k) cs) (sym (append-nil v))
read-unquoted n v (c ∷ w) cs h =
    let step : turn (unquoted n v) c ≡ goes [] (unquoted n (v ++ c ∷ [])) = ground arith in
    let rest : any_needs_quotes w ≡ false = ground arith in
    read-goes (unquoted n v) (unquoted n (v ++ c ∷ [])) c (w ++ cs) step
    ∙ read-unquoted n (v ++ c ∷ []) w cs rest
    ∙ ap (λ k. read (unquoted n k) cs) (append_assoc v (c ∷ []) w)

-- A byte that is no double quote.
abbrev pub IsUnquoted : ℕ → Type 0
IsUnquoted c = (c == b'"') ≡ false

read-double_quoted :
    (n v w cs : Bytes)
    → All IsUnquoted w
    → read (double_quoted n v) (w ++ b'"' ∷ cs) ≡ behind ((n, v ++ w) ∷ []) (read after_quoted cs)
unfolding turn read
read-double_quoted n v [] cs h =
    ap (λ k. behind ((n, k) ∷ []) (read after_quoted cs)) (sym (append-nil v))
read-double_quoted n v (c ∷ w) cs h =
    let step : turn (double_quoted n v) c ≡ goes [] (double_quoted n (v ++ c ∷ [])) =
      ground arith in
    read-goes (double_quoted n v) (double_quoted n (v ++ c ∷ [])) c (w ++ b'"' ∷ cs) step
    ∙ read-double_quoted n (v ++ c ∷ []) w cs h.1
    ∙ ap (λ k. behind ((n, k) ∷ []) (read after_quoted cs)) (append_assoc v (c ∷ []) w)

-- Where an attribute ends, with what is complete then.
pub data Ready : State → Pairs → Type 0 where
  at_start : Ready before_name []
  at_name : (n : Bytes) → Ready (in_name n) ((n, []) ∷ [])
  at_value : (n v : Bytes) → Ready (unquoted n v) ((n, v) ∷ [])
  at_quote : Ready after_quoted []

behind-behind : (p q : Pairs) (r : Reading) → behind p (behind q r) ≡ behind (p ++ q) r
behind-behind p q none = refl
behind-behind p q (some r) = ap (λ ps. some (ps, r.1)) (sym (append_assoc p q r.0))

name_start-goes :
    (done : Pairs) (c : ℕ) (cs : Bytes)
    → IsNameByte c
    → after_turn (name_start done c) (λ t. read t cs) cs ≡ behind done (read (in_name (c ∷ [])) cs)
name_start-goes done c cs h =
    let step : name_start done c ≡ goes done (in_name (c ∷ [])) = ground arith in
    ap (λ u. after_turn u (λ t. read t cs) cs) step

after_name-goes :
    (n : Bytes) (c : ℕ) (cs : Bytes)
    → IsNameByte c
    → read (after_name n) (c ∷ cs) ≡ behind ((n, []) ∷ []) (read (in_name (c ∷ [])) cs)
unfolding turn read
after_name-goes n c cs h =
    let step : turn (after_name n) c ≡ goes ((n, []) ∷ []) (in_name (c ∷ [])) = ground arith in
    ap (λ u. after_turn u (λ t. read t cs) cs) step

-- A space and the first byte of the next name.
read-next :
    {s : State} {done : Pairs} (c : ℕ) (cs : Bytes)
    → Ready s done
    → IsNameByte c
    → read s (b' ' ∷ c ∷ cs) ≡ behind done (read (in_name (c ∷ [])) cs)
unfolding turn read
read-next c cs at_start h = ap (behind []) (name_start-goes [] c cs h ∙ behind-nothing _)
read-next c cs (at_name n) h = behind-nothing _ ∙ after_name-goes n c cs h
read-next c cs (at_value n v) h =
    ap (behind ((n, v) ∷ [])) (name_start-goes [] c cs h ∙ behind-nothing _)
read-next c cs at_quote h = ap (behind []) (name_start-goes [] c cs h ∙ behind-nothing _)

-- The end of the tag: with a solidus behind a space, or without.
pub data TagEnd : Bytes → Type 0 where
  plain : TagEnd (codes ">")
  solidus : TagEnd (codes " />")

pub read-end :
    {s : State} {done : Pairs} {tag_end : Bytes} (cs : Bytes)
    → Ready s done
    → TagEnd tag_end
    → read s (tag_end ++ cs) ≡ some (done, cs)
unfolding turn read
read-end cs at_start plain = refl
read-end cs (at_name n) plain = refl
read-end cs (at_value n v) plain = refl
read-end cs at_quote plain = refl
read-end cs at_start solidus = refl
read-end cs (at_name n) solidus = refl
read-end cs (at_value n v) solidus = refl
read-end cs at_quote solidus = refl

read-before_value :
    (n : Bytes) (c : ℕ) (cs : Bytes)
    → needs_quotes c ≡ false
    → read (before_value n) (c ∷ cs) ≡ read (unquoted n (c ∷ [])) cs
unfolding turn
read-before_value n c cs h = read-goes (before_value n) (unquoted n (c ∷ [])) c cs (ground arith)

-- A value is read back, whatever quotes `pickQuote` picks, up to a place where the next attribute
-- or the end of the tag can stand.
pub read-write_quoted :
    (n v cs : Bytes)
    → All IsUnquoted v
    → (s : State) × (before done : Pairs) × Ready s done
      × (before ++ done ≡ (n, v) ∷ [])
      × (read (before_value n) (write_quoted v ++ cs) ≡ behind before (read s cs))
unfolding write_quoted pick_quote any_needs_quotes turn read
read-write_quoted n [] cs h = (after_quoted, (n, []) ∷ [], [], at_quote, refl, behind-nothing _)
read-write_quoted n (c ∷ v) cs h = elim (Bool-cases (any_needs_quotes (c ∷ v))) [
  | inl e ↦ (
    after_quoted,
    (n, c ∷ v) ∷ [],
    [],
    at_quote,
    refl,
    ap (λ b. quoted_by (if b then codes "\"" else [])) e
        ∙ read-goes (before_value n) (double_quoted n []) b'"' (((c ∷ v) ++ b'"' ∷ []) ++ cs) refl
        ∙ ap (read (double_quoted n [])) (append_assoc (c ∷ v) (b'"' ∷ []) cs)
        ∙ read-double_quoted n [] (c ∷ v) cs h,
  )
  | inr e ↦ (
    unquoted n (c ∷ v),
    [],
    (n, c ∷ v) ∷ [],
    at_value n (c ∷ v),
    refl,
    ap (λ b. quoted_by (if b then codes "\"" else [])) e
        ∙ ap (λ w. read (before_value n) (w ++ cs)) (append-nil (c ∷ v))
        ∙ read-before_value n c (v ++ cs) (ground arith)
        ∙ read-unquoted n (c ∷ []) v cs (ground arith)
        ∙ sym (behind-nothing _),
  )
]
  where
    quoted_by : Bytes → Reading
    quoted_by q = read (before_value n) ((q ++ ((c ∷ v) ++ q)) ++ cs)

-- A name that a reader takes as one: it is not empty and has no byte that ends a name.
abbrev pub IsName : Bytes → Type 0
IsName [] = ⊥
IsName (c ∷ cs) = IsNameByte c × All IsNameByte cs

pub read-name :
    {s : State} {done : Pairs} (n cs : Bytes)
    → IsName n
    → Ready s done
    → read s (b' ' ∷ n ++ cs) ≡ behind done (read (in_name n) cs)
read-name [] cs h r = absurd h
read-name {done} (c ∷ n) cs h r =
    read-next c (n ++ cs) r h.0 ∙ ap (behind done) (read-in_name (c ∷ []) n cs h.1)
