-- ===== src/Prelude/Split.antt =====
-- Splitting and trimming text, as Go's `strings` and `regexp` do it where the packager calls them.
use amppackager.Prelude.Tests.{leb, ◌==◌, if◌then◌else◌}
use amppackager.Prelude.Text.{Bytes}
use Prim.Native.Nat.{ℕ, ◌+◌}
use mathlib.Core.Bool.{Bool, true, false, ◌&&◌, ◌||◌}
use mathlib.Core.List.{List, [], ◌∷◌, ◌++◌}

-- Optional white space: a space or a tab.
abbrev pub is_blank : ℕ → Bool
is_blank c = c == b' ' || c == b'\t'

unfoldable pub trim_left : (ℕ → Bool) → Bytes → Bytes
trim_left p [] = []
trim_left p (c ∷ cs) = if p c then trim_left p cs else c ∷ cs

-- A byte at the end of the text is kept only if it does not match.
abbrev pub keep_unless : (ℕ → Bool) → ℕ → Bytes → Bytes
keep_unless p c [] = if p c then [] else c ∷ []
keep_unless p c (d ∷ ds) = c ∷ d ∷ ds

unfoldable pub trim_right : (ℕ → Bool) → Bytes → Bytes
trim_right p [] = []
trim_right p (c ∷ cs) = keep_unless p c (trim_right p cs)

unfoldable pub trim : (ℕ → Bool) → Bytes → Bytes
unfolding trim_left trim_right
trim p s = trim_right p (trim_left p s)

abbrev pub cons_first : ℕ → List Bytes → List Bytes
cons_first c [] = (c ∷ []) ∷ []
cons_first c (p ∷ ps) = (c ∷ p) ∷ ps

-- `strings.Split` at one byte: always at least one piece.
unfoldable pub split : ℕ → Bytes → List Bytes
split sep [] = [] ∷ []
split sep (c ∷ cs) = let rest = split sep cs in if c == sep then [] ∷ rest else cons_first c rest

-- The blanks round each separator belong to the separator: they go from the end of every piece
-- but the last, and from the start of every piece but the first.
unfoldable pub trim_pieces_from : Bool → List Bytes → List Bytes
unfolding trim_left trim_right
trim_pieces_from first [] = []
trim_pieces_from first (p ∷ []) = (if first then p else trim_left is_blank p) ∷ []
trim_pieces_from first (p ∷ q ∷ ps) =
    trim_right is_blank (if first then p else trim_left is_blank p)
    ∷ trim_pieces_from false (q ∷ ps)

unfoldable pub trim_pieces : List Bytes → List Bytes
unfolding trim_pieces_from
trim_pieces = trim_pieces_from true

-- White space as `strings.TrimSpace` and `strings.Fields` see it in ASCII.
abbrev pub is_space : ℕ → Bool
is_space c = (leb 9 c && leb c 13) || c == b' '

abbrev emit : Bytes → List Bytes → List Bytes
emit [] words = words
emit (c ∷ cs) words = (c ∷ cs) ∷ words

-- The words of a text, with the bytes of the word that is being read.
unfoldable pub fields_from : Bytes → Bytes → List Bytes
fields_from cur [] = emit cur []
fields_from cur (c ∷ cs) =
    let ended = fields_from [] cs in
    let longer = fields_from (cur ++ c ∷ []) cs in if is_space c then emit cur ended else longer

unfoldable pub fields : Bytes → List Bytes
unfolding fields_from
fields = fields_from []

-- `strings.ToLower` on ASCII.
abbrev pub to_lower : Bytes → Bytes
to_lower [] = []
to_lower (c ∷ cs) = (if leb b'A' c && leb c b'Z' then c + 32 else c) ∷ to_lower cs

-- `strings.Join`
abbrev pub join : Bytes → List Bytes → Bytes
join sep [] = []
join sep (x ∷ []) = x
join sep (x ∷ y ∷ ys) = x ++ (sep ++ join sep (y ∷ ys))
