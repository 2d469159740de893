-- ===== src/Srcset/Offsets.antt =====
-- What `ParseSrcset` of transformer/internal/amphtml/srcset.go answers.
use amppackager.Prelude.{
  ℕ, ◌+◌, ◌-◌, ◌≡◌, ◌⊎◌, inl, inr, refl, sym, ap, ◌∙◌, List, [], ◌∷◌, ◌++◌, Option, none, some,
  arith, length, length-append, map,
}
use mathlib.Core.List.{append_assoc}
use amppackager.Prelude.Text.{Bytes}
use amppackager.Css.Runes.{take, drop}
use amppackager.Srcset.{
  Candidate, Source, collect, sort_sources, Offset, separator, write_sources, written, with_matches,
  parse_srcset,
}

-- The part of a text between two positions.
abbrev pub cut : Bytes → Offset → Bytes
cut text (start, end) = take (end - start) (drop start text)

drop-append : (pre rest : Bytes) → drop (length pre) (pre ++ rest) ≡ rest
unfolding drop
drop-append [] rest = refl
drop-append (c ∷ cs) rest = drop-append cs rest

take-append : (text rest : Bytes) → take (length text) (text ++ rest) ≡ text
unfolding take
take-append [] rest = refl
take-append (c ∷ cs) rest = ap (λ x. c ∷ x) (take-append cs rest)

cut-append :
    (pre url rest : Bytes) → cut (pre ++ (url ++ rest)) (length pre, length pre + length url) ≡ url
cut-append pre url rest =
    let width : (length pre + length url) - length pre ≡ length url = omega arith in
    rw (width, drop-append pre (url ++ rest)) (take-append url rest)

write_sources-cut :
    (whole pre : Bytes) (pos : ℕ) (sources : List Source)
    → pos ≡ length pre
    → whole ≡ pre ++ (write_sources pos sources).0
    → map (cut whole) (write_sources pos sources).1 ≡ map (λ s. s.1) sources
unfolding write_sources
write_sources-cut whole pre pos [] p w = refl
write_sources-cut whole pre pos ((key, url) ∷ rest) p w =
    let tail = b' ' ∷ key in
    let text = (url ++ tail) ++ separator rest in
    let out = (write_sources (pos + length text) rest).0 in
    let later : map (cut whole) (write_sources (pos + length text) rest).1 ≡ map (λ s. s.1) rest =
      write_sources-cut whole (pre ++ text) (pos + length text) rest
        (omega (arith, p, length-append {0} pre text)) (w ∙ sym (append_assoc pre text out)) in
    let behind : text ++ out ≡ url ++ (tail ++ (separator rest ++ out)) =
      append_assoc (url ++ tail) (separator rest) out
      ∙ append_assoc url tail (separator rest ++ out) in
    let first : cut whole (pos, pos + length url) ≡ url =
      rw (p, w, behind) (cut-append pre url (tail ++ (separator rest ++ out))) in
    ap (λ x. x ∷ map (cut whole) (write_sources (pos + length text) rest).1) first
    ∙ ap (λ x. url ∷ x) later

-- The value as it came, without offsets, where it has no candidates, or one of them is refused; or
-- a new one, with the part of it for each URL.
pub data Parsed (input : Bytes) (matches : List Candidate) : Bytes × List Offset → Type 0 where
  unparsed : (matches ≡ []) ⊎ (collect [] matches ≡ none) → Parsed input matches (input, [])
  normalized :
      {out : Bytes} {offsets : List Offset} (sources : List Source)
      → collect [] matches ≡ some sources
      → map (cut out) offsets ≡ map (λ s. s.1) (sort_sources sources)
      → Parsed input matches (out, offsets)

written-Parsed :
    (input : Bytes) (matches : List Candidate) (m : Option (List Source))
    → collect [] matches ≡ m
    → Parsed input matches (written input m)
written-Parsed input matches none h = unparsed (inr h)
written-Parsed input matches (some sources) h =
    normalized sources h (write_sources-cut _ [] 0 (sort_sources sources) refl refl)

with_matches-Parsed :
    (input : Bytes) (matches : List Candidate) → Parsed input matches (with_matches input matches)
with_matches-Parsed input [] = unparsed (inl refl)
with_matches-Parsed input (m ∷ ms) = written-Parsed input (m ∷ ms) (collect [] (m ∷ ms)) refl

-- `ParseSrcset` answers its input without offsets where it has no candidates, or the loop over them
-- refuses one, and otherwise a value in which the offsets, in order, cut out the URLs of the
-- candidates, in the order of their widths or densities.
pub parse_srcset-Parsed :
    (find_all : Bytes → List Candidate) (input : Bytes)
    → Parsed input (find_all input) (parse_srcset find_all input)
unfolding parse_srcset
parse_srcset-Parsed find_all input = with_matches-Parsed input (find_all input)
